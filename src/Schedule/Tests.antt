-- ===== src/Schedule/Tests.antt =====
-- Schedules after 00:00 UTC on Thursday the first of January 1970, which is seven in Jakarta.
use backend_bmo_blabs.Base.{ℕ, ◌≤◌, ◌<◌, ◌≡◌, refl, some, List, [], ◌∷◌, arith}
use backend_bmo_blabs.Schedule.{
  ScheduleRecurrence, TimeOfDay, Day, local_parts, jakarta_instant, next_occurrence, sort, insert,
  find, is_later, delta,
}
use backend_bmo_blabs.Schedule.Next.{IsNamed, daily_next, weekly_next, weekly_earliest}

abbrev days : List Day
days = Day.tuesday ∷ Day.monday ∷ []

-- Monday the fifth at nine in Jakarta.
abbrev monday : ℕ
monday = 352_800_000

abbrev tuesday : ℕ
tuesday = 439_200_000

next_monday : next_occurrence (ScheduleRecurrence.weekly 1 days TimeOfDay.morning) 0 ≡ some monday
unfolding next_occurrence delta find sort insert is_later
next_monday = refl

weekly_next_example : (0 < monday) × IsNamed days TimeOfDay.morning monday
weekly_next_example = weekly_next days TimeOfDay.morning 0 1 monday 1 (omega arith) refl next_monday

weekly_earliest_example : monday ≤ tuesday
unfolding local_parts
weekly_earliest_example =
    weekly_earliest days TimeOfDay.morning 0 monday tuesday next_monday (omega arith)
      (record { at_period = refl; on_day = refl })

-- Every second day at nine: at ten on the first of January the next is on the third.
abbrev third : ℕ
third = 180_000_000

next_third : next_occurrence (ScheduleRecurrence.daily 2 TimeOfDay.morning) 10_800_000 ≡ some third
unfolding next_occurrence
next_third = refl

daily_next_example :
    (10_800_000 < third) × (third ≡ jakarta_instant (local_parts third).date TimeOfDay.morning)
daily_next_example = daily_next 2 TimeOfDay.morning 10_800_000 third (omega arith) next_third

-- ===== src/Schedule.antt =====
-- backend/src/p9/schedule.recurrence.ts, `nextOccurrence`. An instant is the milliseconds since 1970;
-- a date of the calendar is the number of its day since then, so that `Date.UTC` of a date with days
-- added is that day's number with the days added.
pub mod Sorted
pub mod Next
mod Tests
use backend_bmo_blabs.Base.{
  ℕ, ◌+◌, ◌-◌, ◌*◌, ◌/◌, ◌%◌, Bool, true, false, ◌&&◌, ◌||◌, Option, none, some, List, [], ◌∷◌, map,
  ltb, leb, ◌==◌, if◌then◌else◌,
}

abbrev pub day_ms : ℕ
day_ms = 86_400_000

abbrev pub hour_ms : ℕ
hour_ms = 3_600_000

abbrev pub jakarta_offset_ms : ℕ
jakarta_offset_ms = 25_200_000

pub data TimeOfDay : Type 0 where
  morning afternoon evening : TimeOfDay

-- `HOURS`
abbrev pub hours : TimeOfDay → ℕ
hours TimeOfDay.morning = 9
hours TimeOfDay.afternoon = 13
hours TimeOfDay.evening = 18

-- `DAYS`
pub data Day : Type 0 where
  sunday monday tuesday wednesday thursday friday saturday : Day

-- `DAYS.indexOf`
abbrev pub index_of : Day → ℕ
index_of Day.sunday = 0
index_of Day.monday = 1
index_of Day.tuesday = 2
index_of Day.wednesday = 3
index_of Day.thursday = 4
index_of Day.friday = 5
index_of Day.saturday = 6

pub data ScheduleRecurrence : Type 0 where
  daily : ℕ → TimeOfDay → ScheduleRecurrence
  weekly : ℕ → List Day → TimeOfDay → ScheduleRecurrence
  once : ℕ → TimeOfDay → ScheduleRecurrence

-- `localParts`: the date, and the day of the week. The first of January 1970 was a Thursday.
pub record LocalParts : Type 0 where
  pub date : ℕ
  pub day : ℕ

pub local_parts : ℕ → LocalParts
local_parts instant =
    let date = (instant + jakarta_offset_ms) / day_ms in
    record { date = date; day = (date + 4) % 7 }

-- The hours of the periods are past seven, so the subtraction is exact.
abbrev pub jakarta_instant : ℕ → TimeOfDay → ℕ
jakarta_instant date period = date * day_ms + hours period * hour_ms - jakarta_offset_ms

-- `sort((a, b) => a - b)`
pub insert : ℕ → List ℕ → List ℕ
insert x [] = x ∷ []
insert x (y ∷ ys) = let rest = insert x ys in if leb x y then x ∷ y ∷ ys else y ∷ rest

pub sort : List ℕ → List ℕ
sort [] = []
sort (x ∷ xs) = insert x (sort xs)

pub find : (ℕ → Bool) → List ℕ → Option ℕ
find p [] = none
find p (x ∷ xs) = let rest = find p xs in if p x then some x else rest

-- The test of `laterThisWeek`.
pub is_later : ℕ → Bool → ℕ → Bool
is_later today in_time selected_day = ltb today selected_day || (selected_day == today && in_time)

-- `selected[0]!` of no days is NaN in the source; the validation asks for one at least.
pub first : List ℕ → ℕ
first [] = 0
first (x ∷ xs) = x

pub delta : ℕ → ℕ → List ℕ → Option ℕ → ℕ
unfolding first
delta every today selected none = every * 7 + first selected - today
delta every today selected (some day) = day - today

pub next_occurrence : ScheduleRecurrence → ℕ → Option ℕ
unfolding local_parts
next_occurrence (ScheduleRecurrence.once date period) after =
    let due = jakarta_instant date period in if ltb after due then some due else none
next_occurrence (ScheduleRecurrence.daily every period) after =
    let due = jakarta_instant (local_parts after).date period in
    if leb due after then some (due + every * day_ms) else some due
next_occurrence (ScheduleRecurrence.weekly every days period) after =
    let selected = sort (map index_of days) in
    let today = local_parts after in
    let today_at_period = jakarta_instant today.date period in
    let later_this_week = find (is_later today.day (ltb after today_at_period)) selected in
    some (jakarta_instant (today.date + delta every today.day selected later_this_week) period)

-- ===== src/Schedule/Next.antt =====
-- The next occurrence is the first instant of the schedule after the given one.
use backend_bmo_blabs.Base.{
  ℕ, suc, ◌+◌, ◌-◌, ◌*◌, ◌%◌, ◌≤◌, ◌<◌, ◌≡◌, refl, sym, ◌∙◌, ap, subst, inl, inr, Bool, true,
  Option, none, some, List, [], ◌∷◌, map, ltb, leb, ◌==◌, if◌then◌else◌, arith, Bool-cases,
}
use backend_bmo_blabs.Schedule.Sorted.{
  includes, includes-sort, sort-IsSorted, find-some, find-least, find-none, first-least,
  first-includes,
}
use backend_bmo_blabs.Schedule.{
  day_ms, hour_ms, jakarta_offset_ms, TimeOfDay, hours, Day, index_of, ScheduleRecurrence,
  LocalParts, local_parts, jakarta_instant, sort, find, is_later, first, delta, next_occurrence,
}

-- An instant of this period of its day in Jakarta.
period_bound :
    (p : TimeOfDay) → (jakarta_offset_ms ≤ hours p * hour_ms) × (hours p * hour_ms < day_ms)
period_bound TimeOfDay.morning = (omega arith, omega arith)
period_bound TimeOfDay.afternoon = (omega arith, omega arith)
period_bound TimeOfDay.evening = (omega arith, omega arith)

instant-date : (d : ℕ) (p : TimeOfDay) → (local_parts (jakarta_instant d p)).date ≡ d
unfolding local_parts
instant-date d p = let (low, high) = period_bound p in omega arith

day_bound : (n : ℕ) → (local_parts n).day ≤ 6
unfolding local_parts
day_bound n = omega arith

-- An instant lies in its day.
in_day :
    (n : ℕ)
    → ((local_parts n).date * day_ms ≤ n + jakarta_offset_ms)
      × (n + jakarta_offset_ms < suc (local_parts n).date * day_ms)
unfolding local_parts
in_day n = (omega arith, omega arith)

includes_bound : (y : ℕ) (days : List Day) → includes y (map index_of days) ≡ true → y ≤ 6
includes_bound y [] h = absurd cc
includes_bound y (d ∷ days) h = elim (Bool-cases (y == index_of d)) [
  | inl same ↦ let b = index_bound d in ground arith
  | inr other ↦ includes_bound y days (ground arith)
]
  where
    index_bound : (d : Day) → index_of d ≤ 6
    index_bound Day.sunday = omega arith
    index_bound Day.monday = omega arith
    index_bound Day.tuesday = omega arith
    index_bound Day.wednesday = omega arith
    index_bound Day.thursday = omega arith
    index_bound Day.friday = omega arith
    index_bound Day.saturday = omega arith

-- The days after `date` until the weekday of `d`, if that is within a week.
weekday_shift :
    (date k : ℕ) → k ≤ 6 → (date + 4) % 7 + k ≤ 6 → (date + k + 4) % 7 ≡ (date + 4) % 7 + k
weekday_shift date k a b = omega arith

wrap_shift : (date x weeks : ℕ) → x ≤ 6 → (date + (suc weeks * 7 + x - (date + 4) % 7) + 4) % 7 ≡ x
wrap_shift date x weeks a = omega arith

-- An instant that a weekly schedule names.
pub record IsNamed (days : List Day) (period : TimeOfDay) (n : ℕ) : Type 0 where
  pub at_period : n ≡ jakarta_instant (local_parts n).date period
  pub on_day : includes (local_parts n).day (map index_of days) ≡ true

local_day : (n : ℕ) → (local_parts n).day ≡ ((local_parts n).date + 4) % 7
unfolding local_parts
local_day n = refl

instant-IsNamed :
    (days : List Day) (period : TimeOfDay) (d : ℕ)
    → includes ((d + 4) % 7) (map index_of days) ≡ true
    → IsNamed days period (jakarta_instant d period)
instant-IsNamed days period d i =
    let e = instant-date d period in
    record {
      at_period = ap (λ x. jakarta_instant x period) (sym e);
      on_day =
          subst (λ x. includes x (map index_of days) ≡ true)
            (sym (local_day (jakarta_instant d period) ∙ ap (λ x. (x + 4) % 7) e)) i;
    }

some-injective : {a b : ℕ} → some a ≡ some b → a ≡ b
some-injective h = cc

instant_mono : (d e : ℕ) (p : TimeOfDay) → d ≤ e → jakarta_instant d p ≤ jakarta_instant e p
instant_mono d e p h = omega arith

module _ (days : List Day) (period : TimeOfDay) (after : ℕ) where
  today : LocalParts
  today = local_parts after

  in_time : Bool
  in_time = ltb after (jakarta_instant (local_parts after).date period)

  selected : List ℕ
  selected = sort (map index_of days)

  chosen : Option ℕ
  chosen = find (is_later (local_parts after).day in_time) selected

  -- A day of this week that is chosen is named, and its instant is still to come.
  chosen_lem :
      (x : ℕ)
      → chosen ≡ some x
      → (x ≤ 6)
        × ((local_parts after).day ≤ x)
        × (includes x (map index_of days) ≡ true)
        × (after
            < jakarta_instant ((local_parts after).date + (x - (local_parts after).day)) period)
  unfolding chosen selected in_time is_later
  chosen_lem x e =
      let (named, later) = find-some (is_later (local_parts after).day in_time) selected x e in
      let i = sym (includes-sort x (map index_of days)) ∙ named in
      let b = includes_bound x days i in
      let (low, high) = period_bound period in
      let (from, to) = in_day after in (b, ground arith, i, ground arith)

  due_at : ℕ → Option ℕ → ℕ
  due_at every o =
      jakarta_instant ((local_parts after).date + delta every (local_parts after).day selected o)
        period

  weekly-due_at :
      (every : ℕ)
      → next_occurrence (ScheduleRecurrence.weekly every days period) after
        ≡ some (due_at every chosen)
  unfolding next_occurrence due_at chosen selected in_time
  weekly-due_at every = refl

  due_at-IsNamed :
      (every y : ℕ) (o : Option ℕ)
      → 1 ≤ every
      → includes y (map index_of days) ≡ true
      → chosen ≡ o
      → (after < due_at every o) × IsNamed days period (due_at every o)
  unfolding due_at delta selected
  due_at-IsNamed every y (some x) pos i c =
      let (b, from, named, later) = chosen_lem x c in
      let date = (local_parts after).date in
      let l = local_day after in
      let w : (date + (x - (local_parts after).day) + 4) % 7 ≡ x = omega arith in
      (
        later,
        instant-IsNamed days period _
            (subst (λ z. includes z (map index_of days) ≡ true) (sym w) named),
      )
  due_at-IsNamed every y none pos i c =
      let date = (local_parts after).date in
      let l = local_day after in
      let x = first selected in
      let named : includes x (map index_of days) ≡ true =
        sym (includes-sort x (map index_of days))
        ∙ first-includes selected y (includes-sort y (map index_of days) ∙ i) in
      let b = includes_bound x days named in
      let d = day_bound after in
      let w : (date + (every * 7 + x - (local_parts after).day) + 4) % 7 ≡ x = omega arith in
      let (low, high) = period_bound period in
      let (from, to) = in_day after in
      (
        omega arith,
        instant-IsNamed days period _
            (subst (λ z. includes z (map index_of days) ≡ true) (sym w) named),
      )

  -- A weekly schedule's next occurrence is later than the given instant, at the schedule's hour in
  -- Jakarta, and on one of its days.
  pub weekly_next :
      (every due y : ℕ)
      → 1 ≤ every
      → includes y (map index_of days) ≡ true
      → next_occurrence (ScheduleRecurrence.weekly every days period) after ≡ some due
      → (after < due) × IsNamed days period due
  weekly_next every due y pos i e =
      let same : due_at every chosen ≡ due = some-injective (sym (weekly-due_at every) ∙ e) in
      subst (λ n. (after < n) × IsNamed days period n) same
        (due_at-IsNamed every y chosen pos i refl)

  -- An instant of the same week that comes later is one that the search meets.
  named-is_later :
      (n : ℕ)
      → after < n
      → IsNamed days period n
      → (local_parts n).day
        ≡ (local_parts after).day + ((local_parts n).date - (local_parts after).date)
      → is_later (local_parts after).day in_time (local_parts n).day ≡ true
  unfolding is_later in_time
  named-is_later n later named same =
      let (from, to) = in_day after in
      let (first, last) = in_day n in
      elim (Bool-cases ((local_parts n).date == (local_parts after).date)) [
        | inl today ↦
            let at : n ≡ jakarta_instant (local_parts after).date period =
              named.at_period ∙ ap (λ d. jakarta_instant d period) (ground arith) in
            ground arith
        | inr other ↦ ground arith
      ]

  due_date-le :
      (n : ℕ) (o : Option ℕ)
      → after < n
      → IsNamed days period n
      → chosen ≡ o
      → (local_parts after).date + delta 1 (local_parts after).day selected o ≤ (local_parts n).date
  unfolding delta chosen selected
  due_date-le n (some x) later named c =
      let (b, low, at, soon) = chosen_lem x c in
      let (from, to) = in_day after in
      let (start, end) = in_day n in
      let l = local_day after in
      let m = local_day n in
      let i = includes-sort (local_parts n).day (map index_of days) ∙ named.on_day in
      elim (Bool-cases
        (leb ((local_parts after).date + (x - (local_parts after).day)) (local_parts n).date)) [
          | inl good ↦ ground arith
          | inr bad ↦
              let same : (local_parts n).day
                  ≡ (local_parts after).day + ((local_parts n).date - (local_parts after).date) =
                ground arith in
              let least =
                find-least (is_later (local_parts after).day in_time) selected x (local_parts n).day
                  (sort-IsSorted (map index_of days)) c i (named-is_later n later named same) in
              absurd (ground arith)
        ]
  due_date-le n none later named c =
      let (from, to) = in_day after in
      let (start, end) = in_day n in
      let l = local_day after in
      let m = local_day n in
      let d = day_bound after in
      let i = includes-sort (local_parts n).day (map index_of days) ∙ named.on_day in
      let least = first-least selected (local_parts n).day (sort-IsSorted (map index_of days)) i in
      elim (Bool-cases
        (leb ((local_parts after).day + ((local_parts n).date - (local_parts after).date)) 6)) [
          | inl week ↦
              let same : (local_parts n).day
                  ≡ (local_parts after).day + ((local_parts n).date - (local_parts after).date) =
                ground arith in
              let missed =
                find-none (is_later (local_parts after).day in_time) selected (local_parts n).day c
                  i in
              absurd (ground (arith, named-is_later n later named same))
          | inr next ↦ ground arith
        ]

  -- If the schedule runs each week, no instant that it names comes between.
  pub weekly_earliest :
      (due n : ℕ)
      → next_occurrence (ScheduleRecurrence.weekly 1 days period) after ≡ some due
      → after < n
      → IsNamed days period n
      → due ≤ n
  unfolding due_at
  weekly_earliest due n e later named =
      let same : due_at 1 chosen ≡ due = some-injective (sym (weekly-due_at 1) ∙ e) in
      subst (λ m. m ≤ n) same
        (subst (λ m. due_at 1 chosen ≤ m) (sym named.at_period)
          (instant_mono _ (local_parts n).date period (due_date-le n chosen later named refl)))

-- The day of a daily schedule's next occurrence.
daily_date : ℕ → TimeOfDay → ℕ → ℕ
daily_date every period after =
    let date = (local_parts after).date in
    if leb (jakarta_instant date period) after then date + every else date

daily-daily_date :
    (every : ℕ) (period : TimeOfDay) (after : ℕ)
    → next_occurrence (ScheduleRecurrence.daily every period) after
      ≡ some (jakarta_instant (daily_date every period after) period)
unfolding next_occurrence daily_date
daily-daily_date every period after =
    let (low, high) = period_bound period in
    elim (Bool-cases (leb (jakarta_instant (local_parts after).date period) after)) [
      | inl past ↦ rw (past) (ap some (omega arith))
      | inr soon ↦ rw (soon) refl
    ]

-- A daily schedule's next occurrence is later than the given instant and at the schedule's hour in
-- Jakarta.
pub daily_next :
    (every : ℕ) (period : TimeOfDay) (after due : ℕ)
    → 1 ≤ every
    → next_occurrence (ScheduleRecurrence.daily every period) after ≡ some due
    → (after < due) × (due ≡ jakarta_instant (local_parts due).date period)
unfolding daily_date
daily_next every period after due pos e =
    let date = daily_date every period after in
    let same : jakarta_instant date period ≡ due =
      some-injective (sym (daily-daily_date every period after) ∙ e) in
    subst (λ n. (after < n) × (n ≡ jakarta_instant (local_parts n).date period)) same
      (later, ap (λ d. jakarta_instant d period) (sym (instant-date date period)))
  where
    later : after < jakarta_instant (daily_date every period after) period
    later = let (low, high) = period_bound period in let (from, to) = in_day after in ground arith

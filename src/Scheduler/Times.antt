-- ===== src/Scheduler/Times.antt =====
-- The next run is the earliest time of the schedule that is later than now.
use gostream.Prelude.{
  ℕ, zero, suc, ◌+◌, ◌-◌, ◌*◌, ◌%◌, ◌≤◌, ◌<◌, ◌==◌, ltb, if_holds, if_of_false, Bool-cases, true,
  false, not, ◌≡◌, ◌⊎◌, ◌≢◌, refl, sym, subst, ◌∙◌, ap, inl, inr, arith,
}
use gostream.Scheduler.{
  DailyJobConfig, day_of, weekday, at_time, has_day, candidate, is_next, next_from, next_run_time,
}

-- A time of day.
pub record IsTime (c : DailyJobConfig) : Type 0 where
  pub hour_fits : c.hour < 24
  pub minute_fits : c.minute < 60

-- A time that the schedule names.
pub record IsScheduled (c : DailyJobConfig) (t : ℕ) : Type 0 where
  pub day : ℕ
  pub at_its_time : t ≡ at_time c day
  pub on_its_day : has_day c.days_of_week ((day + 1) % 7) ≡ true

pub day_of-at_time : (c : DailyJobConfig) (d : ℕ) → IsTime c → day_of (at_time c d) ≡ d
day_of-at_time c d h = omega (arith, h.hour_fits, h.minute_fits)

-- What the loop finds.
data Found (c : DailyJobConfig) (now offset left t : ℕ) : Type 0 where
  finds :
      (k : ℕ)
      → offset ≤ k
      → t ≡ candidate c now k
      → is_next c now k ≡ true
      → ((j : ℕ) → offset ≤ j → j < k → is_next c now j ≡ false)
      → Found c now offset left t
  finds_none :
      t ≡ 0
      → ((j : ℕ) → offset ≤ j → j < offset + left → is_next c now j ≡ false)
      → Found c now offset left t

from_next :
    (c : DailyJobConfig) (now offset k : ℕ)
    → is_next c now offset ≡ false
    → ((i : ℕ) → offset + 1 ≤ i → i < k → is_next c now i ≡ false)
    → (j : ℕ) → offset ≤ j
    → j < k
    → is_next c now j ≡ false
from_next c now offset k e before j below less = elim (Bool-cases (offset == j)) [
  | inl t ↦ let same : offset ≡ j = ground (arith, t) in subst (λ i. is_next c now i ≡ false) same e
  | inr t ↦ before j (ground (arith, t, below)) less
]

next_from-Found :
    (c : DailyJobConfig) (now offset left : ℕ)
    → Found c now offset left (next_from c now offset left)
unfolding next_from
next_from-Found c now offset zero = finds_none refl (λ j a b. absurd (omega arith))
next_from-Found c now offset (suc left) = elim (Bool-cases (is_next c now offset)) [
  | inl e ↦ rw e (finds offset (omega arith) refl e (λ j a b. absurd (omega arith)))
  | inr e ↦ rw e (elim (next_from-Found c now (offset + 1) left) [
    | finds k a t found before ↦ finds k (omega arith) t found (from_next c now offset k e before)
    | finds_none t before ↦
        finds_none t
          (from_next c now offset (offset + suc left) e (λ i a b. before i a (omega arith)))
  ])
]

-- Of a candidate that is not taken, and is not that of today, the day is not one of the schedule.
not_next :
    (c : DailyJobConfig) (now j day : ℕ)
    → IsTime c
    → is_next c now j ≡ false
    → 0 < j
    → (day_of now + j + 1) % 7 ≡ (day + 1) % 7
    → has_day c.days_of_week ((day + 1) % 7) ≡ false
not_next c now j day fits e later same =
    let d = day_of-at_time c (day_of now + j) fits in
    let w : weekday (candidate c now j) ≡ (day + 1) % 7 = ap (λ n. (n + 1) % 7) d ∙ same in
    let behind : (j == 0) ≡ false = ground (arith, later) in
    subst (λ n. has_day c.days_of_week n ≡ false) w (ground (arith, e, behind))

-- A scheduled time behind now is on no day whose candidate was turned away.
late_day :
    (c : DailyJobConfig) (now j u : ℕ) (h : IsScheduled c u)
    → IsTime c
    → now < u
    → is_next c now j ≡ false
    → h.day ≢ day_of now + j
late_day c now j u h fits late e same =
    let there : candidate c now j ≡ u = ap (at_time c) (sym same) ∙ sym h.at_its_time in
    let d = day_of-at_time c (day_of now + j) fits in
    let w : weekday (candidate c now j) ≡ (h.day + 1) % 7 = ap (λ n. (n + 1) % 7) (d ∙ sym same) in
    let named : has_day c.days_of_week (weekday (candidate c now j)) ≡ true =
      subst (λ n. has_day c.days_of_week n ≡ true) (sym w) h.on_its_day in
    let behind : ltb now (candidate c now j) ≡ true =
      subst (λ n. ltb now n ≡ true) (sym there) (ground (arith, late)) in
    let taken : is_next c now j ≡ true =
      rw (named, behind) (if_holds (λ b. b ≡ true) (j == 0) true true refl refl) in
    absurd cc

candidate_late :
    (c : DailyJobConfig) (now k t : ℕ) → t ≡ candidate c now k → is_next c now k ≡ true → now < t
candidate_late c now k t at found = elim (Bool-cases (k == 0)) [
  | inl e ↦
      let behind : ltb now (candidate c now k) ≡ true = ground (arith, found, e) in
      ground (arith, behind, at)
  | inr e ↦ let positive : 0 < k = ground (arith, e) in omega (arith, at, positive)
]

candidate_least :
    (c : DailyJobConfig) (now k t u : ℕ)
    → IsTime c
    → t ≡ candidate c now k
    → ((j : ℕ) → 0 ≤ j → j < k → is_next c now j ≡ false)
    → IsScheduled c u
    → now < u
    → t ≤ u
candidate_least c now k t u fits at before h later =
    let on_day : day_of u ≡ h.day = ap day_of h.at_its_time ∙ day_of-at_time c h.day fits in
    let not_past : day_of now ≤ h.day = omega (arith, on_day, later) in
    elim (Bool-cases (ltb h.day (day_of now + k))) [
      | inl e ↦
          let j = h.day - day_of now in
          let less : j < k = ground (arith, e, not_past) in
          absurd (
            late_day c now j u h fits later (before j (omega arith) less) (omega (arith, not_past)))
      | inr e ↦
          let past : day_of now + k ≤ h.day = ground (arith, e) in
          omega (arith, at, past, h.at_its_time)
    ]

found_earliest :
    (c : DailyJobConfig) (now k t : ℕ)
    → IsTime c
    → t ≡ candidate c now k
    → is_next c now k ≡ true
    → ((j : ℕ) → 0 ≤ j → j < k → is_next c now j ≡ false)
    → IsScheduled c t × (now < t) × ((u : ℕ) → IsScheduled c u → now < u → t ≤ u)
found_earliest c now k t fits at found before =
    let d = day_of-at_time c (day_of now + k) fits in
    let w : weekday (candidate c now k) ≡ (day_of now + k + 1) % 7 = ap (λ n. (n + 1) % 7) d in
    let taken : has_day c.days_of_week (weekday (candidate c now k)) ≡ true =
      ground (arith, found) in
    (
      record {
        day = day_of now + k;
        at_its_time = at;
        on_its_day = subst (λ n. has_day c.days_of_week n ≡ true) w taken;
      },
      candidate_late c now k t at found,
      λ u h later. candidate_least c now k t u fits at before h later,
    )

none_later :
    (c : DailyJobConfig) (now u : ℕ)
    → IsTime c
    → ((j : ℕ) → 0 ≤ j → j < 8 → is_next c now j ≡ false)
    → now < u
    → ¬ IsScheduled c u
none_later c now u fits before late h =
    let j = (h.day + 6 * (day_of now + 1)) % 7 + 1 in
    let turned = before j (omega arith) (omega arith) in
    let same : (day_of now + j + 1) % 7 ≡ (h.day + 1) % 7 = omega arith in
    let named = h.on_its_day in
    let unnamed = not_next c now j h.day fits turned (omega arith) same in absurd cc

-- The next run of a job that is enabled, at an hour below 24 and a minute below 60, is a time of
-- its schedule behind now, and none of these is earlier; if the schedule has no time behind now,
-- the next run is the zero time.
pub next_run_time-earliest :
    (c : DailyJobConfig) (now : ℕ)
    → IsTime c
    → c.enabled ≡ true
    → (IsScheduled c (next_run_time c now)
        × (now < next_run_time c now)
        × ((u : ℕ) → IsScheduled c u → now < u → next_run_time c now ≤ u))
      ⊎ ((next_run_time c now ≡ 0) × ((u : ℕ) → now < u → ¬ IsScheduled c u))
unfolding next_run_time
next_run_time-earliest c now fits on =
    let next : next_run_time c now ≡ next_from c now 0 8 = if_of_false 0 _ (ap not on) in
    elim (next_from-Found c now 0 8) [
      | finds k a t found before ↦ inl (found_earliest c now k _ fits (next ∙ t) found before)
      | finds_none t before ↦ inr (next ∙ t, λ u late h. none_later c now u fits before late h)
    ]

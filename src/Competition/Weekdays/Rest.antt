-- ===== src/Competition/Weekdays/Rest.antt =====
-- The rest between matchdays: weekdays.go, paceWeekdayMatchday.
use touchline.Common.{ℕ, zero, suc, ◌+◌, ◌*◌, ◌≤◌, ◌<◌, ◌≡◌, refl, subst, some, List, arith, true}
use native.Mathlib.Decide.{ℕ_discrete}
use touchline.Competition.Weekdays.{Kickoff, is_allowed_weekday, pace_day, pace_weekday_matchday}
use touchline.Competition.Weekdays.Search.{HasWeekday, IsNext, next_allowed_weekday-IsNext}

module _ (anchor : ℕ) (wd : List ℕ) (h : HasWeekday wd) where
  pace_day_total :
      (k : ℕ)
      → (day : ℕ) × (pace_day anchor (suc k) wd ≡ some day)
        × (anchor < day)
        × (day ≤ anchor + 8 * k + 7)
        × (is_allowed_weekday day wd ≡ true)
  unfolding pace_day
  pace_day_total zero =
      let (day, e, next) = next_allowed_weekday-IsNext (anchor + 1) wd h in
      (day, e, omega arith, omega arith, next.allowed)
  pace_day_total (suc k) =
      let (prev, e, after, near, _) = pace_day_total k in
      let (day, e', next) = next_allowed_weekday-IsNext (prev + 2) wd h in
      (day, ground (arith, e, e'), omega arith, omega arith, next.allowed)

  pace_day_step :
      (k : ℕ) {prev day : ℕ}
      → pace_day anchor (suc k) wd ≡ some prev
      → pace_day anchor (suc (suc k)) wd ≡ some day
      → IsNext 7 (prev + 2) wd day
  unfolding pace_day
  pace_day_step k {prev} {day} e e' =
      let (day', e'', next) = next_allowed_weekday-IsNext (prev + 2) wd h in
      let same : day' ≡ day = ground (arith, e, e', e'') in subst (IsNext 7 (prev + 2) wd) same next

  pace_day_rest :
      (k l : ℕ) {prev day : ℕ}
      → k < l
      → pace_day anchor (suc k) wd ≡ some prev
      → pace_day anchor (suc l) wd ≡ some day
      → prev + 2 ≤ day
  pace_day_rest k zero lt e e' = elim lt [ ]
  pace_day_rest k (suc l) {prev} lt e e' = elim (ℕ_discrete k l) [
    | yes last ↦
        (pace_day_step l (subst (λ m. pace_day anchor (suc m) wd ≡ some prev) last e) e').not_before
    | no before ↦
        let (between, e'', _, _, _) = pace_day_total l in
        let sooner = pace_day_rest k l (omega arith) e e'' in
        omega (arith, (pace_day_step l e'' e').not_before)
  ]

-- A club rests: of two matchdays of one calendar, paced onto a set that holds a day of the week,
-- both have a kickoff at the given hour, after the anchor and on an allowed weekday, and the later
-- one is at least two days after the earlier one.
pub pace_weekday_matchday_rest :
    (anchor hour k l : ℕ) (wd : List ℕ)
    → HasWeekday wd
    → k < l
    → (a b : Kickoff) × (pace_weekday_matchday anchor (suc k) wd hour ≡ some a)
      × (pace_weekday_matchday anchor (suc l) wd hour ≡ some b)
      × (anchor < a.day)
      × (a.day + 2 ≤ b.day)
      × (is_allowed_weekday a.day wd ≡ true)
      × (is_allowed_weekday b.day wd ≡ true)
      × (a.hour ≡ hour)
      × (b.hour ≡ hour)
unfolding pace_weekday_matchday
pace_weekday_matchday_rest anchor hour k l wd h lt =
    let (day, e, after, _, on) = pace_day_total anchor wd h k in
    let (day', e', _, _, on') = pace_day_total anchor wd h l in
    (
      record { day = day; hour = hour },
      record { day = day'; hour = hour },
      rw (e, pace_weekday_matchday),
      rw (e', pace_weekday_matchday),
      after,
      pace_day_rest anchor wd h k l lt e e',
      on,
      on',
      refl,
      refl,
    )

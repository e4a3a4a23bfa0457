-- ===== src/Competition/CupCalendar/Days.antt =====
-- Which day of its window a cup round takes: findCupRoundDay and cupDayScore.
use touchline.Common.{
  ℕ, zero, suc, ◌+◌, ◌-◌, ◌≤◌, ◌<◌, ◌≡◌, refl, ◌⊎◌, inl, inr, true, false, ◌||◌, List, [], arith,
  ◌==◌, Bool-cases, subst, ==_iff,
}
use touchline.Common.Int.{ℤ, pos, ltb_ℤ}
use touchline.Competition.CupCalendar.Windows.{pick_day_range}
use touchline.Competition.CupCalendar.{
  day_clearance, base_score, cup_day_score, skips, pick_day, window_low, window_high,
  find_cup_round_day,
}

-- What a loop has found: no day, or a day with its own score.
abbrev Scored : (ℕ → ℤ) → ℕ × ℤ → Type 0
Scored score best = (best.0 ≡ 0) ⊎ (best.1 ≡ score best.0)

ltb_ℤ_step : (a b c : ℤ) → ltb_ℤ a b ≡ true → ltb_ℤ c b ≡ false → ltb_ℤ c a ≡ false
ltb_ℤ_step a b c h k = ground arith

ltb_ℤ_irrefl : (a : ℤ) → ltb_ℤ a a ≡ false
ltb_ℤ_irrefl a = ground arith

module _ (weekdays : List ℕ) (score : ℕ → ℤ) where
  -- The result is scored, and no better than it are the start and each day met that is not skipped.
  record IsBest (n d : ℕ) (best r : ℕ × ℤ) : Type 0 where
    scored : Scored score r
    kept : 1 ≤ best.0 → (1 ≤ r.0) × (ltb_ℤ r.1 best.1 ≡ false)
    best_of :
        (x : ℕ)
        → d ≤ x
        → x < d + n
        → skips weekdays x ≡ false
        → (1 ≤ r.0) × (ltb_ℤ r.1 (score x) ≡ false)

  pick_day-IsBest :
      (n d : ℕ) (best : ℕ × ℤ)
      → 1 ≤ d
      → Scored score best
      → IsBest n d best (pick_day weekdays score n d best)
  unfolding pick_day
  pick_day-IsBest zero d best hd hs = record {
    scored = hs;
    kept = λ h. (h, ltb_ℤ_irrefl best.1);
    best_of = λ x lo hi e. absurd (omega arith);
  }
  pick_day-IsBest (suc n) d best hd hs = elim (Bool-cases (skips weekdays d)) [
    | inl skipped ↦
        let r = pick_day-IsBest n (d + 1) best (omega arith) hs in
        rw skipped (record {
          scored = r.scored;
          kept = r.kept;
          best_of = λ x lo hi e. elim (Bool-cases (d == x)) [
            | inl same ↦ absurd (omega (arith, clash d x ((==_iff d x).0 same) skipped e))
            | inr other ↦ r.best_of x (ground (arith, other)) (omega arith) e
          ];
        })
    | inr open_day ↦ elim (Bool-cases (best.0 == 0 || ltb_ℤ best.1 (score d))) [
      | inl better ↦
          let r = pick_day-IsBest n (d + 1) (d, score d) (omega arith) (inr refl) in
          let now = r.kept hd in
          rw open_day (
            rw better (record {
              scored = r.scored;
              kept = λ h. (
                now.0,
                ltb_ℤ_step best.1 (score d) (pick_day weekdays score n (d + 1) (d, score d)).1
                    (ground (arith, better)) now.1,
              );
              best_of = λ x lo hi e. elim (Bool-cases (d == x)) [
                | inl same ↦
                    subst
                      (λ y.
                        (1 ≤ (pick_day weekdays score n (d + 1) (d, score d)).0)
                        × (ltb_ℤ (pick_day weekdays score n (d + 1) (d, score d)).1 (score y)
                            ≡ false))
                      ((==_iff d x).0 same) now
                | inr other ↦ r.best_of x (ground (arith, other)) (omega arith) e
              ];
            }))
      | inr worse ↦
          let r = pick_day-IsBest n (d + 1) best (omega arith) hs in
          let now = r.kept (ground (arith, worse)) in
          rw open_day (
            rw worse (record {
              scored = r.scored;
              kept = r.kept;
              best_of = λ x lo hi e. elim (Bool-cases (d == x)) [
                | inl same ↦
                    subst
                      (λ y.
                        (1 ≤ (pick_day weekdays score n (d + 1) best).0)
                        × (ltb_ℤ (pick_day weekdays score n (d + 1) best).1 (score y) ≡ false))
                      ((==_iff d x).0 same)
                      (
                        now.0,
                        weaken best.1 (score d) (pick_day weekdays score n (d + 1) best).1
                            (ground (arith, worse)) now.1,
                      )
                | inr other ↦ r.best_of x (ground (arith, other)) (omega arith) e
              ];
            }))
    ]
  ]
    where
      clash : (d x : ℕ) → d ≡ x → skips weekdays d ≡ true → skips weekdays x ≡ false → 1 ≤ 0
      clash d x eq a b =
          let a' = subst (λ y. skips weekdays y ≡ true) eq a in absurd (ground (arith, a', b))

      weaken : (b s c : ℤ) → ltb_ℤ b s ≡ false → ltb_ℤ c b ≡ false → ltb_ℤ c s ≡ false
      weaken b s c h k = ground arith

-- Without league days, and where no days of the week are declared, a round is placed two days before
-- its target, although the target itself is as free: for a target of day 3 or later, not after the
-- next round.
pub find_cup_round_day_early :
    (target next : ℕ)
    → 3 ≤ target
    → target ≤ next
    → find_cup_round_day target next [] [] ≡ target - 2
unfolding find_cup_round_day cup_day_score base_score day_clearance
find_cup_round_day_early target next late before =
    let score : ℕ → ℤ = λ d. cup_day_score d target [] in
    let n = window_high target next + 1 - window_low target in
    let first = pick_day [] score n (window_low target) (0, pos 0) in
    let r = pick_day-IsBest [] score n (window_low target) (0, pos 0) (omega arith) (inl refl) in
    let (found, no_worse) = r.best_of (window_low target) (omega arith) (ground arith) refl in
    let own : first.1 ≡ score first.0 = ground (arith, r.scored, found) in
    let placed = pick_day_range [] score n (window_low target) (0, pos 0) in
    let here : first.0 ≡ target - 2 =
      earliest first.0 (ground (arith, placed, found))
        (subst (λ v. ltb_ℤ v (score (window_low target)) ≡ false) own no_worse) in
    ground (arith, here)
  where
    earliest :
        (d : ℕ)
        → target - 2 ≤ d
        → ltb_ℤ (cup_day_score d target []) (cup_day_score (target - 2) target []) ≡ false
        → d ≡ target - 2
    earliest d lo h = ground arith

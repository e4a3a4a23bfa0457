-- ===== src/Competition/CupLadder/Champion.antt =====
-- How many ties a cup takes: cup_bracket.go, cupLadder.
use touchline.Common.{ℕ, ◌+◌, ◌≤◌, ◌<◌, ◌≡◌, List, [], ◌∷◌, arith, some, ◌⊎◌, inl, inr}
use touchline.Competition.CupLadder.{RoundPlan, ok, cup_ladder}
use touchline.Competition.CupLadder.Shape.{
  Finals, last, halve, Ladder, join, knock_out, cup_ladder-Ladder, cup_ladder_refuses,
}

abbrev pub all_ties : List RoundPlan → ℕ
all_ties [] = 0
all_ties (plan ∷ rest) = plan.ties + all_ties rest

Finals-all_ties :
    {r cur : ℕ} {rounds : List RoundPlan} → Finals r cur rounds → all_ties rounds + 1 ≡ cur
Finals-all_ties (last h e) = omega arith
Finals-all_ties (halve h few big rest) = omega (arith, Finals-all_ties rest)

pub Ladder-all_ties :
    {x n r cur : ℕ} {rounds : List RoundPlan}
    → Ladder x n r cur rounds
    → all_ties rounds + 1 ≡ cur + n
Ladder-all_ties (join e rest) = omega (arith, Finals-all_ties rest)
Ladder-all_ties (knock_out h few big rest) = omega (arith, Ladder-all_ties rest)

staging_cases : (x n : ℕ) → (1 ≤ x) × (2 ≤ x + n) ⊎ ((x < 1) ⊎ (x + n < 2))
staging_cases x n = grind arith

-- A cup that is laid out at all plays one tie fewer than it has clubs, the `f` of the pool and the
-- `n` late entrants together: every club but the champion is knocked out exactly once.
pub cup_ladder-all_ties :
    (f x n : ℕ) (rounds : List RoundPlan)
    → cup_ladder f x n ≡ some (ok rounds)
    → all_ties rounds + 1 ≡ f + n
cup_ladder-all_ties f x n rounds e = elim (staging_cases x n) [
  | inl (hx, hn) ↦ elim (cup_ladder-Ladder f x n hx hn) [
    | inl (_, refused) ↦ cc
    | inr (rounds', e', shape) ↦ ground (arith, Ladder-all_ties shape, e')
  ]
  | inr bad ↦ cc (cup_ladder_refuses f x n bad)
]

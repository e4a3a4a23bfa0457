-- ===== src/Competition/CupLadder/Shape.antt =====
-- The shape of every ladder: cup_bracket.go, cupLadder.
use touchline.Common.{
  ℕ, zero, suc, ◌+◌, ◌*◌, ◌/◌, ◌≤◌, ◌<◌, ◌≡◌, ◌⊎◌, inl, inr, some, List, [], ◌∷◌, arith, ltb, ◌==◌,
  Bool-cases,
}
use touchline.Competition.CupLadder.{
  RoundPlan, ok, err, staging_invalid, early_round, final_round, finals, early, cup_ladder,
}

-- Every club of a round plays one tie or has the bye, and the round is numbered `r`.
pub record IsRound (r cur : ℕ) (plan : RoundPlan) : Type 0 where
  pub numbered : plan.round ≡ r
  pub sized : plan.n ≡ cur
  pub all_used : 2 * plan.ties + plan.byes ≡ plan.n
  pub plays : 1 ≤ plan.ties

-- From round `r` with `cur` clubs the rounds halve the field down to the final of two clubs: at most
-- one club of a round has the bye.
pub data Finals : ℕ → ℕ → List RoundPlan → Type 0 where
  last : {r cur : ℕ} {plan : RoundPlan} → IsRound r cur plan → cur ≡ 2 → Finals r cur (plan ∷ [])
  halve :
      {r cur : ℕ} {plan : RoundPlan} {rest : List RoundPlan}
      → IsRound r cur plan
      → plan.byes ≤ 1
      → 2 < cur
      → Finals (r + 1) (plan.ties + plan.byes) rest
      → Finals r cur (plan ∷ rest)

-- From round `r` with `cur` clubs the early rounds end with exactly `x` survivors; `n` clubs join.
-- An early round gives at most one bye, or lands on `x`.
pub data Ladder (x n : ℕ) : ℕ → ℕ → List RoundPlan → Type 0 where
  join :
      {r cur : ℕ} {rest : List RoundPlan} → cur ≡ x → Finals r (x + n) rest → Ladder x n r cur rest
  knock_out :
      {r cur : ℕ} {plan : RoundPlan} {rest : List RoundPlan}
      → IsRound r cur plan
      → (plan.byes ≤ 1) ⊎ (plan.ties + plan.byes ≡ x)
      → x < cur
      → Ladder x n (r + 1) (plan.ties + plan.byes) rest
      → Ladder x n r cur (plan ∷ rest)

final_round-IsRound : (r p : ℕ) → 2 ≤ p → IsRound r p (final_round r p)
unfolding final_round
final_round-IsRound r p h = ground arith

final_round-byes : (r p : ℕ) → (final_round r p).byes ≤ 1
unfolding final_round
final_round-byes r p = omega arith

final_round-survivors : (r p : ℕ) → (final_round r p).ties + (final_round r p).byes ≡ (p + 1) / 2
unfolding final_round
final_round-survivors r p = omega arith

early_round-IsRound : (x r cur : ℕ) → 1 ≤ x → x < cur → IsRound r cur (early_round x r cur).0
unfolding early_round
early_round-IsRound x r cur h k = ground arith

early_round-byes :
    (x r cur : ℕ)
    → 1 ≤ x
    → x < cur
    → let plan = (early_round x r cur).0 in (plan.byes ≤ 1) ⊎ (plan.ties + plan.byes ≡ x)
unfolding early_round
early_round-byes x r cur h k = ground arith

early_round-survivors :
    (x r cur : ℕ)
    → 1 ≤ x
    → x < cur
    → let (plan, next) = early_round x r cur in
      (plan.ties + plan.byes ≡ next) × (x ≤ next) × (next < cur)
unfolding early_round
early_round-survivors x r cur h k = ground arith

pub finals-Finals :
    (fuel r p : ℕ)
    → 2 ≤ p
    → p < fuel
    → (rounds : List RoundPlan) × (finals fuel r p ≡ some rounds) × Finals r p rounds
unfolding finals
finals-Finals zero r p h k = elim k [ ]
finals-Finals (suc fuel) r p h k = elim (Bool-cases (p == 2)) [
  | inl done ↦ (final_round r p ∷ [], ground arith, last (final_round-IsRound r p h) (ground arith))
  | inr more ↦
      let (rest, e, shape) =
        finals-Finals fuel (r + 1) ((p + 1) / 2) (ground arith) (ground arith) in
      (
        final_round r p ∷ rest,
        ground (arith, e),
        halve (final_round-IsRound r p h) (final_round-byes r p) (ground arith)
            (rw (final_round-survivors r p) shape),
      )
]

pub early-Ladder :
    (fuel x n r cur : ℕ)
    → 1 ≤ x
    → 2 ≤ x + n
    → x ≤ cur
    → cur < fuel
    → (rounds : List RoundPlan) × (early fuel x n r cur ≡ some rounds) × Ladder x n r cur rounds
unfolding early
early-Ladder zero x n r cur hx hn hc k = elim k [ ]
early-Ladder (suc fuel) x n r cur hx hn hc k = elim (Bool-cases (ltb x cur)) [
  | inl more ↦
      let (plan, next) = early_round x r cur in
      let (kept, above, fewer) = early_round-survivors x r cur hx (ground arith) in
      let (rest, e, shape) = early-Ladder fuel x n (r + 1) next hx hn above (omega arith) in
      (
        plan ∷ rest,
        ground (arith, e),
        knock_out (early_round-IsRound x r cur hx (ground arith))
            (early_round-byes x r cur hx (ground arith)) (ground arith) (rw kept shape),
      )
  | inr done ↦
      let (rest, e, shape) = finals-Finals (x + n + 1) r (x + n) hn (omega arith) in
      (rest, ground (arith, e), join (ground arith) shape)
]

-- For a valid staging, whatever the size `f` of the pool, `cup_ladder` returns within its fuel. It
-- fails exactly when fewer clubs than `x` are there; else early rounds bring the pool down to
-- exactly `x` survivors, `n` clubs join them, and the field is halved to a final of two. In every
-- round each club plays one tie or has the bye, at least one tie is played, and the rounds are
-- numbered from 1 in steps of one. A round has at most one bye, but for the early round that lands
-- on exactly `x`.
pub cup_ladder-Ladder :
    (f x n : ℕ)
    → 1 ≤ x
    → 2 ≤ x + n
    → (f < x) × (cup_ladder f x n ≡ some (err staging_invalid))
      ⊎ ((rounds : List RoundPlan) × (cup_ladder f x n ≡ some (ok rounds)) × Ladder x n 1 f rounds)
unfolding cup_ladder
cup_ladder-Ladder f x n hx hn = elim (Bool-cases (ltb f x)) [
  | inl small ↦ inl (ground arith, ground arith)
  | inr large ↦
      let (rounds, e, shape) = early-Ladder (f + 1) x n 1 f hx hn (ground arith) (omega arith) in
      inr (rounds, ground arith, shape)
]

-- A staging with no survivor, or with fewer than two clubs in its last field, is refused.
pub cup_ladder_refuses :
    (f x n : ℕ) → (x < 1) ⊎ (x + n < 2) → cup_ladder f x n ≡ some (err staging_invalid)
unfolding cup_ladder
cup_ladder_refuses f x n h = ground arith

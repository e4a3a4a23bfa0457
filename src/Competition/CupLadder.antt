-- ===== src/Competition/CupLadder.antt =====
-- The ladder of a knockout cup: backend/internal/competition/cup_bracket.go (cupStagingBaseValid,
-- cupLadder) and the round plan of cup.go. Of a plan's fields, `Date` is stamped later by the
-- calendar and is left out. `none` of a loop means that its fuel ran out.
pub mod Shape
pub mod Champion
use touchline.Common.{
  ℕ, zero, suc, ◌+◌, ◌-◌, ◌*◌, ◌/◌, ◌%◌, Bool, true, false, ◌||◌, Option, none, some, List, [], ◌∷◌,
  ltb, leb, ◌==◌, if◌then◌else◌,
}

-- One round: its number, the clubs in it, the ties played, and the clubs that go on with no tie.
pub record RoundPlan : Type 0 where
  pub round : ℕ
  pub n : ℕ
  pub ties : ℕ
  pub byes : ℕ

pub data LadderError : Type 0 where
  staging_invalid : LadderError

pub data LadderResult : Type 0 where
  ok : List RoundPlan → LadderResult
  err : LadderError → LadderResult

-- `n` clubs enter late, when `x` are left: a cup needs a survivor and two clubs in its last field.
-- (A negative number is refused by the source as well; here it cannot be written.)
unfoldable pub cup_staging_base_valid : ℕ → ℕ → Bool
cup_staging_base_valid n x = if ltb x 1 || ltb (x + n) 2 then false else true

-- The plan of an early round of `cur` clubs, and the number of clubs after it.
unfoldable pub early_round : ℕ → ℕ → ℕ → RoundPlan × ℕ
early_round x r cur =
    let next = (cur + 1) / 2 in
    if leb x next
    then (record { round = r; n = cur; ties = cur / 2; byes = cur % 2 }, next)
    else (record { round = r; n = cur; ties = cur - x; byes = 2 * x - cur }, x)

unfoldable pub final_round : ℕ → ℕ → RoundPlan
final_round r p = record { round = r; n = p; ties = p / 2; byes = p % 2 }

-- The second loop: the join plays `x + n` clubs, and the field is halved to the final of two.
unfoldable pub finals : ℕ → ℕ → ℕ → Option (List RoundPlan)
unfolding final_round
finals zero r p = none
finals (suc fuel) r p = elim (p == 2) [
  | true ↦ some (final_round r p ∷ [])
  | false ↦ elim (finals fuel (r + 1) ((p + 1) / 2)) [
    | none ↦ none
    | some rest ↦ some (final_round r p ∷ rest)
  ]
]

-- The first loop: from `cur` clubs to exactly `x`; then the second loop follows.
unfoldable pub early : ℕ → ℕ → ℕ → ℕ → ℕ → Option (List RoundPlan)
unfolding early_round
early zero x n r cur = none
early (suc fuel) x n r cur = elim (ltb x cur) [
  | false ↦ finals (x + n + 1) r (x + n)
  | true ↦
      let (plan, next) = early_round x r cur in
      elim (early fuel x n (r + 1) next) [ none ↦ none | some rest ↦ some (plan ∷ rest) ]
]

-- The fuel is one more than the clubs at the start, and each round leaves fewer.
unfoldable pub cup_ladder : ℕ → ℕ → ℕ → Option LadderResult
unfolding cup_staging_base_valid
cup_ladder f x n =
    if cup_staging_base_valid n x
    then if ltb f x
      then some (err staging_invalid)
      else elim (early (f + 1) x n 1 f) [ none ↦ none | some rounds ↦ some (ok rounds) ]
    else some (err staging_invalid)

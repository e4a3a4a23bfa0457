-- ===== src/Competition/CupDraw.antt =====
-- The draw of a cup round: backend/internal/competition/cup_bracket.go (drawRound, and the check and
-- the bracket rows at the head of materializeRound). A club is its id, a number. The generator of
-- Go's math/rand, seeded by roundSeed, is the parameter `Rng`: the shuffle that it makes, and its
-- successive answers to `Intn(2) != 0`.
pub mod Complete
use touchline.Common.{
  ℕ, zero, suc, ◌+◌, ◌-◌, Bool, true, false, ◌&&◌, Option, none, some, List, [], ◌∷◌, ltb, ◌==◌,
  if◌then◌else◌, length, drop, elem,
}
use touchline.Competition.CupLadder.{RoundPlan}

pub record Rng : Type 0 where
  pub shuffle : List ℕ → List ℕ
  pub flip : ℕ → Bool

-- `(home, away)` of the pairs: the first `ties` pairs of `ids`, each turned by its own draw.
unfoldable pub draw_pairs : Rng → ℕ → ℕ → List ℕ → List (ℕ × ℕ)
draw_pairs rng i zero ids = []
draw_pairs rng i (suc ties) [] = []
draw_pairs rng i (suc ties) (a ∷ []) = []
draw_pairs rng i (suc ties) (a ∷ b ∷ ids) =
    (if rng.flip i then (b, a) else (a, b)) ∷ draw_pairs rng (i + 1) ties ids

-- `none` is the panic of `ids[len(ids)-byes:]`, where more byes are asked for than clubs are there.
unfoldable pub draw_round : Rng → ℕ → ℕ → List ℕ → Option (List (ℕ × ℕ) × List ℕ)
unfolding draw_pairs
draw_round rng ties byes clubs =
    let ids = rng.shuffle clubs in
    if ltb (length ids) byes
    then none
    else some (draw_pairs rng 0 ties ids, drop (length ids - byes) ids)

-- A row of competition.cup_bracket for one season.
pub record BracketRow : Type 0 where
  pub round : ℕ
  pub seed : ℕ
  pub club : ℕ
  pub is_bye : Bool

unfoldable pub bracket_rows : ℕ → ℕ → List ℕ → List ℕ → List BracketRow
bracket_rows round seed byes [] = []
bracket_rows round seed byes (club ∷ clubs) =
    record { round = round; seed = seed; club = club; is_bye = elem club byes }
    ∷ bracket_rows round (seed + 1) byes clubs

pub data Bracket : Type 0 where
  drawn : List BracketRow → List (ℕ × ℕ) → Bracket
  off_by_one : Bracket
  panic : Bracket

-- The head of materializeRound: the draw, the check of its size against the plan, and the rows.
unfoldable pub materialize_bracket : Rng → RoundPlan → List ℕ → Bracket
unfolding draw_round bracket_rows
materialize_bracket rng plan participants = elim (draw_round rng plan.ties plan.byes participants) [
  | none ↦ panic
  | some (pairs, byes) ↦
      if (length pairs == plan.ties) && (length byes == plan.byes)
      then drawn (bracket_rows plan.round 1 byes participants) pairs
      else off_by_one
]

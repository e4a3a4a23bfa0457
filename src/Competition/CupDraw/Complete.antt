-- ===== src/Competition/CupDraw/Complete.antt =====
-- Every participant is drawn once: cup_bracket.go, drawRound.
use touchline.Common.{
  ℕ, zero, suc, ◌+◌, ◌-◌, ◌*◌, ◌≡◌, ◌∙◌, refl, sym, ap, List, [], ◌∷◌, arith, length, drop, count,
  length-drop,
}
use touchline.Competition.CupLadder.{RoundPlan}
use touchline.Competition.CupDraw.{
  Rng, draw_pairs, draw_round, bracket_rows, drawn, materialize_bracket,
}

-- What is relied on of math/rand's Shuffle: it reorders.
pub record IsShuffle (rng : Rng) : Type 0 where
  pub length_kept : (ids : List ℕ) → length (rng.shuffle ids) ≡ length ids
  pub count_kept : (a : ℕ) (ids : List ℕ) → count a (rng.shuffle ids) ≡ count a ids

-- The clubs of the pairs, one after another.
abbrev pub clubs_of : List (ℕ × ℕ) → List ℕ
clubs_of [] = []
clubs_of ((home, away) ∷ pairs) = home ∷ away ∷ clubs_of pairs

-- What stands behind the first `ties` pairs.
drop_pairs : ℕ → List ℕ → List ℕ
drop_pairs zero ids = ids
drop_pairs (suc ties) [] = []
drop_pairs (suc ties) (x ∷ []) = []
drop_pairs (suc ties) (x ∷ y ∷ ids) = drop_pairs ties ids

drop-eq-drop_pairs :
    (ties k byes : ℕ) (ids : List ℕ)
    → k ≡ 2 * ties
    → k + byes ≡ length ids
    → drop k ids ≡ drop_pairs ties ids
unfolding drop_pairs
drop-eq-drop_pairs zero zero byes ids h l = refl
drop-eq-drop_pairs zero (suc k) byes ids h l = absurd (omega arith)
drop-eq-drop_pairs (suc ties) zero byes ids h l = absurd (omega arith)
drop-eq-drop_pairs (suc ties) (suc zero) byes ids h l = absurd (omega arith)
drop-eq-drop_pairs (suc ties) (suc (suc k)) byes [] h l = absurd (omega arith)
drop-eq-drop_pairs (suc ties) (suc (suc k)) byes (x ∷ []) h l = absurd (omega arith)
drop-eq-drop_pairs (suc ties) (suc (suc k)) byes (x ∷ y ∷ ids) h l =
    drop-eq-drop_pairs ties k byes ids (omega arith) (omega arith)

module _ (rng : Rng) where
  length-draw_pairs :
      (i ties byes : ℕ) (ids : List ℕ)
      → 2 * ties + byes ≡ length ids
      → length (draw_pairs rng i ties ids) ≡ ties
  unfolding draw_pairs
  length-draw_pairs i zero byes ids h = refl
  length-draw_pairs i (suc ties) byes [] h = absurd (omega arith)
  length-draw_pairs i (suc ties) byes (x ∷ []) h = absurd (omega arith)
  length-draw_pairs i (suc ties) byes (x ∷ y ∷ ids) h =
      ap suc (length-draw_pairs (i + 1) ties byes ids (omega arith))

  count-draw_pairs :
      (a i ties byes : ℕ) (ids : List ℕ)
      → 2 * ties + byes ≡ length ids
      → count a (clubs_of (draw_pairs rng i ties ids)) + count a (drop_pairs ties ids) ≡ count a ids
  unfolding draw_pairs drop_pairs
  count-draw_pairs a i zero byes ids h = omega arith
  count-draw_pairs a i (suc ties) byes [] h = absurd (omega arith)
  count-draw_pairs a i (suc ties) byes (x ∷ []) h = absurd (omega arith)
  count-draw_pairs a i (suc ties) byes (x ∷ y ∷ ids) h =
      ground (arith, count-draw_pairs a (i + 1) ties byes ids)

-- What a complete draw is: the right numbers of ties and byes, and every club drawn as often as it
-- is among the participants.
pub record IsComplete (plan : RoundPlan) (clubs : List ℕ) (pairs : List (ℕ × ℕ)) (byes : List ℕ)
    : Type 0 where
  pub ties : length pairs ≡ plan.ties
  pub byes_kept : length byes ≡ plan.byes
  pub each_once : (a : ℕ) → count a (clubs_of pairs) + count a byes ≡ count a clubs

-- With a generator that reorders, and as many participants as the plan has places, the draw has
-- the planned numbers of ties and byes, each participant stands in exactly one place of it, and the
-- check against the plan ("off-by-one in cup ladder") passes.
pub materialize_bracket-IsComplete :
    (rng : Rng) (plan : RoundPlan) (clubs : List ℕ)
    → IsShuffle rng
    → 2 * plan.ties + plan.byes ≡ length clubs
    → (pairs : List (ℕ × ℕ)) × (byes : List ℕ) × IsComplete plan clubs pairs byes
      × (materialize_bracket rng plan clubs ≡ drawn (bracket_rows plan.round 1 byes clubs) pairs)
unfolding materialize_bracket draw_round
materialize_bracket-IsComplete rng plan clubs shuffles h =
    let ids = rng.shuffle clubs in
    let same : length ids ≡ length clubs = shuffles.length_kept clubs in
    let sized : 2 * plan.ties + plan.byes ≡ length ids = h ∙ sym same in
    let pairs = draw_pairs rng 0 plan.ties ids in
    let byes = drop (length ids - plan.byes) ids in
    let behind : byes ≡ drop_pairs plan.ties ids =
      drop-eq-drop_pairs plan.ties (length ids - plan.byes) plan.byes ids (omega arith)
        (omega arith) in
    let played : length pairs ≡ plan.ties = length-draw_pairs rng 0 plan.ties plan.byes ids sized in
    let rested : length byes ≡ plan.byes = length-drop (length ids - plan.byes) ids ∙ omega arith in
    (
      pairs,
      byes,
      record {
        ties = played;
        byes_kept = rested;
        each_once = λ a.
            rw behind (
              count-draw_pairs rng a 0 plan.ties plan.byes ids sized ∙ shuffles.count_kept a clubs);
      },
      ground (arith, played, rested, sized),
    )

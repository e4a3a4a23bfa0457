-- ===== src/Competition/RoundRobin.antt =====
-- The double round robin of a league: backend/internal/competition/clubnames.go, roundRobin. A round
-- is its pairs of team indices, (home, away).
pub mod Rounds
pub mod Legs
pub mod Meetings
use touchline.Common.{
  ℕ, zero, suc, ◌+◌, ◌-◌, ◌/◌, ◌%◌, Bool, true, false, List, [], ◌∷◌, ◌++◌, ◌==◌, if◌then◌else◌,
  length, take,
}

unfoldable pub reverse : List ℕ → List ℕ
reverse [] = []
reverse (x ∷ xs) = reverse xs ++ x ∷ []

-- `teams[i]` against `teams[n-1-i]`, the lists read from the front and from the back.
unfoldable pub pair_up : Bool → List ℕ → List ℕ → List (ℕ × ℕ)
pair_up swapped [] backs = []
pair_up swapped (a ∷ fronts) [] = []
pair_up swapped (a ∷ fronts) (b ∷ backs) =
    (if swapped then (b, a) else (a, b)) ∷ pair_up swapped fronts backs

unfoldable pub round_of : Bool → List ℕ → List (ℕ × ℕ)
unfolding pair_up reverse
round_of swapped teams =
    let half = length teams / 2 in pair_up swapped (take half teams) (take half (reverse teams))

-- The first team stays, the others move one place.
unfoldable pub rotate : List ℕ → List ℕ
rotate [] = []
rotate (a ∷ []) = a ∷ []
rotate (a ∷ b ∷ teams) = a ∷ teams ++ b ∷ []

unfoldable pub rotated : ℕ → List ℕ → List ℕ
unfolding rotate
rotated zero teams = teams
rotated (suc k) teams = rotated k (rotate teams)

unfoldable pub leg : Bool → ℕ → List ℕ → List (List (ℕ × ℕ))
unfolding round_of rotate
leg swapped zero teams = []
leg swapped (suc k) teams = round_of swapped teams ∷ leg swapped k (rotate teams)

unfoldable pub indices : ℕ → List ℕ
indices zero = []
indices (suc n) = indices n ++ n ∷ []

unfoldable pub round_robin : ℕ → List (List (ℕ × ℕ))
unfolding leg rotated indices
round_robin n =
    let even = if n % 2 == 0 then n else n + 1 in
    let teams = indices even in
    leg false (even - 1) teams ++ leg true (even - 1) (rotated (even - 1) teams)

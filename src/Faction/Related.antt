-- ===== src/Faction/Related.antt =====
-- Who is a neighbour of whom in the room: engine.go, adjacency and dedupeSorted.
use touchline.Common.{
  ℕ, ◌≡◌, refl, sym, ◌∙◌, Bool, true, false, ◌&&◌, ◌||◌, List, [], ◌∷◌, ◌++◌, arith, ltb, ◌==◌,
  if◌then◌else◌, elem, count,
}
use touchline.Common.Sort.{sort_by, count-sort_by}
use touchline.Faction.{
  RelationshipEdge, SquadSnapshot, neighbours, dedupe_sorted_after, dedupe_sorted, adjacency,
}

-- Some relationship of the list is between the two, in either direction.
abbrev pub related : List RelationshipEdge → ℕ → ℕ → Bool
related [] x y = false
related (e ∷ edges) x y =
    (e.from == x && e.to == y) || ((e.to == x && e.from == y) || related edges x y)

-- The players that a chain of relationships joins to the epicentre.
pub data Chain (edges : List RelationshipEdge) (src : ℕ) : ℕ → Type 0 where
  start : Chain edges src src
  link : {x : ℕ} (y : ℕ) → Chain edges src x → related edges x y ≡ true → Chain edges src y

elem-++ : (y : ℕ) (xs ys : List ℕ) → elem y (xs ++ ys) ≡ elem y xs || elem y ys
elem-++ y [] ys = refl
elem-++ y (x ∷ xs) ys = ground (arith, elem-++ y xs ys)

pub elem-count : (x : ℕ) (xs : List ℕ) → elem x xs ≡ (if count x xs == 0 then false else true)
elem-count x [] = ground arith
elem-count x (y ∷ xs) = ground (arith, elem-count x xs)

elem-neighbours :
    (x y : ℕ) (edges : List RelationshipEdge) → elem y (neighbours x edges) ≡ related edges x y
unfolding neighbours
elem-neighbours x y [] = refl
elem-neighbours x y (e ∷ edges) = ground (arith, elem-neighbours x y edges)

elem-sort_by : (y : ℕ) (xs : List ℕ) → elem y (sort_by ltb xs) ≡ elem y xs
elem-sort_by y xs =
    elem-count y (sort_by ltb xs) ∙ rw (count-sort_by ltb y xs) (sym (elem-count y xs))

elem-dedupe_sorted_after :
    (y last : ℕ) (ids : List ℕ)
    → (last == y) || elem y (dedupe_sorted_after last ids) ≡ (last == y) || elem y ids
unfolding dedupe_sorted_after
elem-dedupe_sorted_after y last [] = refl
elem-dedupe_sorted_after y last (v ∷ ids) = ground (arith, elem-dedupe_sorted_after y v ids)

elem-dedupe_sorted : (y : ℕ) (ids : List ℕ) → elem y (dedupe_sorted ids) ≡ elem y ids
elem-dedupe_sorted y [] = refl
elem-dedupe_sorted y (v ∷ ids) = ground (arith, elem-dedupe_sorted_after y v ids)

-- The adjacency lists exactly the players with a relationship to the player.
pub elem-adjacency :
    (snap : SquadSnapshot) (x y : ℕ) → elem y (adjacency snap x) ≡ related snap.edges x y
unfolding adjacency
elem-adjacency snap x y =
    elem-dedupe_sorted y (sort_by ltb (neighbours x snap.edges))
    ∙ (elem-sort_by y (neighbours x snap.edges) ∙ elem-neighbours x y snap.edges)

-- ===== src/Competition/Qualify/Core.antt =====
-- The band cuts and the champion's extra place: qualify.go, coreEntrants and its helpers. `none` is
-- the panic of a slice below index 0, which a band from position 0 would cause.
use touchline.Common.{
  ℕ, ◌+◌, ◌-◌, Bool, true, false, ◌&&◌, ◌||◌, Option, none, some, List, [], ◌∷◌, ◌++◌, ltb, leb,
  ◌==◌, if◌then◌else◌, length, take, drop,
}
use touchline.Common.Sort.{sort_by}
use touchline.Competition.Qualify.Model.{
  Origin, position, champion_direct, champion_next_best, champion_out_of_band, Band, Table,
  Reigning, Entrant, contains_club,
}

-- `add`: the set `clubSet` of the source holds the clubs of `out`, always.
unfoldable pub add : List Entrant → ℕ → Origin → ℕ → List Entrant
add out c o r =
    if contains_club out c then out else out ++ record { club = c; origin = o; rank = r } ∷ []

-- The band's last position, cut to the table's length.
unfoldable pub effective_to : List ℕ → Option ℕ → ℕ
effective_to ranks none = length ranks
effective_to ranks (some to) = if ltb to (length ranks) then to else length ranks

unfoldable pub band_ranks : List ℕ → Band → Option (List ℕ)
unfolding effective_to
band_ranks ranks b =
    let hi = effective_to ranks b.to in
    if b.from == 0
    then none
    else if leb hi (b.from - 1)
    then some []
    else some (take (hi - (b.from - 1)) (drop (b.from - 1) ranks))

-- The 1-based rank of a club, 0 if it is not in the table.
unfoldable pub position_from : ℕ → List ℕ → ℕ → ℕ
position_from i [] c = 0
position_from i (x ∷ ranks) c = if x == c then i else position_from (i + 1) ranks c

unfoldable pub position_of : List ℕ → ℕ → ℕ
unfolding position_from
position_of ranks c = position_from 1 ranks c

unfoldable pub add_ranked : List Entrant → ℕ → List ℕ → List Entrant
unfolding add
add_ranked out rank [] = out
add_ranked out rank (c ∷ cs) = add_ranked (add out c position rank) (rank + 1) cs

unfoldable pub add_band : Option Table → List Entrant → Band → Option (List Entrant)
unfolding add_ranked band_ranks
add_band none out b = some out
add_band (some t) out b = elim (band_ranks t.ranks b) [
  | none ↦ none
  | some cut ↦ some (add_ranked out b.from cut)
]

unfoldable pub add_bands : (ℕ → Option Table) → List Entrant → List Band → Option (List Entrant)
unfolding add_band
add_bands tables out [] = some out
add_bands tables out (b ∷ bands) = elim (add_band (tables b.league) out b) [
  | none ↦ none
  | some out' ↦ add_bands tables out' bands
]

-- The first band of a league.
unfoldable pub find_band : List Band → ℕ → Option Band
find_band [] l = none
find_band (b ∷ bands) l = if b.league == l then some b else find_band bands l

-- The best club of `ranks`, the first of which has rank `rank`, that is not entered yet.
unfoldable pub next_best : List Entrant → ℕ → List ℕ → List Entrant
unfolding add
next_best out rank [] = out
next_best out rank (c ∷ cs) =
    if contains_club out c then next_best out (rank + 1) cs else add out c champion_next_best rank

-- The champion's place, with its league's band and table at hand.
unfoldable pub add_ranked_champion : List Entrant → Reigning → Band → Table → List Entrant
unfolding add next_best effective_to position_of
add_ranked_champion out r b t =
    let rank = position_of t.ranks r.club in
    let last = effective_to t.ranks b.to in
    if rank == 0
    then add out r.club champion_out_of_band 0
    else if leb b.from rank && leb rank last
    then next_best out (last + 1) (drop last t.ranks)
    else add out r.club champion_out_of_band rank

unfoldable pub add_champion :
    (ℕ → Option Table) → List Band → List Entrant → Reigning → List Entrant
unfolding add find_band add_ranked_champion
add_champion tables bands out r = elim (find_band bands r.league) [
  | none ↦ add out r.club champion_direct 0
  | some b ↦ elim (tables r.league) [
    | none ↦ add out r.club champion_direct 0
    | some t ↦ add_ranked_champion out r b t
  ]
]

unfoldable pub core_entrants :
    (ℕ → Option Table) → List Band → Option Reigning → Option (List Entrant)
unfolding add_bands add_champion
core_entrants tables bands none = add_bands tables [] bands
core_entrants tables bands (some r) = elim (add_bands tables [] bands) [
  | none ↦ none
  | some out ↦ some (add_champion tables bands out r)
]

unfoldable pub band_before : Band → Band → Bool
band_before a b = if a.league == b.league then ltb a.from b.from else ltb a.league b.league

unfoldable pub sorted_bands : List Band → List Band
unfolding sort_by band_before
sorted_bands bands = sort_by band_before bands

-- validateQualBand: a league, a position from 1, and no end before the start.
unfoldable pub valid_qual_band : Band → Bool
valid_qual_band b =
    if b.league == 0 || ltb b.from 1
    then false
    else elim b.to [ none ↦ true | some to ↦ leb b.from to ]

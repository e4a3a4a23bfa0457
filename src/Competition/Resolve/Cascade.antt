-- ===== src/Competition/Resolve/Cascade.antt =====
-- A cup that lost a club and its replacement: resolve.go, leagueOfEntry, cascadeReplacement, rankOf,
-- removeEntrant and dropCup. The map `tables` is a function; `resolved` is the set of the source,
-- a list of the pairs that were put in.
use touchline.Common.{
  ℕ, Bool, true, false, ◌&&◌, ◌||◌, Option, none, some, List, [], ◌∷◌, ◌==◌, if◌then◌else◌, elem,
  drop,
}
use touchline.Competition.Qualify.Model.{Band, Table, Entrant, Field, contains_club}
use touchline.Competition.Qualify.Core.{effective_to, position_of, find_band}
use touchline.Competition.Resolve.Winner.{find_field}

abbrev pub bands_of : List Field → ℕ → List Band
bands_of fields cup = elim (find_field fields cup) [ none ↦ [] | some f ↦ f.bands ]

abbrev ranked_in : Option Table → ℕ → Bool
ranked_in none club = false
ranked_in (some t) club = elem club t.ranks

-- The league of the first band whose table ranks the club; 0 for none.
unfoldable pub league_of_entry : List Band → (ℕ → Option Table) → ℕ → ℕ
league_of_entry [] tables club = 0
league_of_entry (b ∷ bands) tables club =
    if ranked_in (tables b.league) club then b.league else league_of_entry bands tables club

abbrev pub is_resolved : List (ℕ × ℕ) → ℕ → ℕ → Bool
is_resolved [] club cup = false
is_resolved ((c, k) ∷ resolved) club cup =
    if c == club && k == cup then true else is_resolved resolved club cup

-- The first club of `ranks` that is free to enter; 0 for none.
unfoldable pub first_free : List Entrant → List (ℕ × ℕ) → ℕ → List ℕ → ℕ
first_free seated resolved cup [] = 0
first_free seated resolved cup (c ∷ ranks) =
    if contains_club seated c || is_resolved resolved c cup
    then first_free seated resolved cup ranks
    else c

-- The replacement from the league's table, past the band's cut.
unfoldable pub replacement_from : List Entrant → List (ℕ × ℕ) → ℕ → Option Band → Option Table → ℕ
unfolding first_free
replacement_from seated resolved cup none t = 0
replacement_from seated resolved cup (some b) none = 0
replacement_from seated resolved cup (some b) (some t) =
    first_free seated resolved cup (drop (effective_to t.ranks b.to) t.ranks)

unfoldable pub cascade_replacement :
    List Field → (ℕ → Option Table) → List Entrant → ℕ → ℕ → List (ℕ × ℕ) → ℕ
unfolding league_of_entry replacement_from
cascade_replacement fields tables seated cup club resolved =
    let league = league_of_entry (bands_of fields cup) tables club in
    if league == 0
    then 0
    else replacement_from seated resolved cup (find_band (bands_of fields cup) league)
        (tables league)

unfoldable pub rank_of : (ℕ → Option Table) → ℕ → ℕ → List Field → ℕ
unfolding league_of_entry position_of
rank_of tables cup club fields =
    let league = league_of_entry (bands_of fields cup) tables club in
    if league == 0 then 0 else elim (tables league) [ none ↦ 0 | some t ↦ position_of t.ranks club ]

-- `none` where the club has no seat in the list; else the list without its first seat.
unfoldable pub remove_entrant : List Entrant → ℕ → Option (List Entrant)
remove_entrant [] club = none
remove_entrant (e ∷ entrants) club =
    let later = elim (remove_entrant entrants club) as (λ _. Option (List Entrant)) [
      | none ↦ none
      | some rest ↦ some (e ∷ rest)
    ] in
    if e.club == club then some entrants else later

unfoldable pub drop_cup : List ℕ → ℕ → List ℕ
drop_cup [] cup = []
drop_cup (c ∷ cups) cup = let rest = drop_cup cups cup in if c == cup then rest else c ∷ rest

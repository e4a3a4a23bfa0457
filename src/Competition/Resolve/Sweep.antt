-- ===== src/Competition/Resolve/Sweep.antt =====
-- The resolution sweep: resolve.go, ResolveField with firstDoubleBooked, sortedCupIDs, sortEntrants,
-- sortCascades and maxResolutionSteps. The maps `assign` and `clubCups` are functions; `clubs` lists
-- the keys of `clubCups`. The unbounded loop runs on fuel; `none` of it is a loop that has not
-- ended.
pub mod Steps
pub mod Inv
pub mod Rounds
pub mod Start
pub mod Outcome
use touchline.Common.{
  ℕ, zero, suc, ◌+◌, ◌*◌, Bool, true, false, ◌&&◌, ◌||◌, Option, none, some, List, [], ◌∷◌, ◌++◌,
  ltb, ◌==◌, if◌then◌else◌, length, elem,
}
use touchline.Common.Sort.{sort_by}
use touchline.Competition.Qualify.Model.{
  Origin, cascade_replacement, Table, Entrant, Field, contains_club,
}
use touchline.Competition.Resolve.Winner.{find_field, is_champion_origin, pick_winner}
use touchline.Competition.Resolve.Cascade.{
  is_resolved, cascade_replacement as replacement_for, rank_of, remove_entrant, drop_cup,
}

pub record Cascade : Type 0 where
  pub club : ℕ
  pub lost_cup : ℕ
  pub kept_cup : ℕ
  pub replacement : ℕ

pub record ResolveInput : Type 0 where
  pub fields : List Field
  pub tables : ℕ → Option Table
  pub choices : ℕ → List ℕ

-- The local state of ResolveField.
pub record Sweep : Type 0 where
  pub assign : ℕ → List Entrant
  pub clubs : List ℕ
  pub club_cups : ℕ → List ℕ
  pub resolved : List (ℕ × ℕ)
  pub cascades : List Cascade

abbrev pub entrants_of : List Field → ℕ → List Entrant
entrants_of fields cup = elim (find_field fields cup) [ none ↦ [] | some f ↦ f.entrants ]

abbrev pub put {ℓ} : {A : Type ℓ} → (ℕ → A) → ℕ → A → ℕ → A
put f k x j = if j == k then x else f j

abbrev add_key : List ℕ → ℕ → List ℕ
add_key keys k = if elem k keys then keys else k ∷ keys

-- `clubCups[club] = append(clubCups[club], cup)`.
unfoldable pub book : ℕ → ℕ → Sweep → Sweep
book club cup s = record s {
  clubs = add_key s.clubs club;
  club_cups = put s.club_cups club (s.club_cups club ++ cup ∷ []);
}

unfoldable pub book_entrants : ℕ → List Entrant → Sweep → Sweep
unfolding book
book_entrants cup [] s = s
book_entrants cup (e ∷ entrants) s = book_entrants cup entrants (book e.club cup s)

-- One round of the loop for each cup of `assign`, a map: a cup of two fields counts once.
unfoldable pub book_cups : List ℕ → List Field → Sweep → Sweep
unfolding book_entrants
book_cups seen [] s = s
book_cups seen (f ∷ fs) s =
    let skipped = book_cups seen fs s in
    let booked = book_cups (f.cup.id ∷ seen) fs (book_entrants f.cup.id (s.assign f.cup.id) s) in
    if elem f.cup.id seen then skipped else booked

unfoldable pub start : List Field → Sweep
unfolding book_cups
start fields = book_cups [] fields (record {
  assign = entrants_of fields;
  clubs = [];
  club_cups = λ _. [];
  resolved = [];
  cascades = [];
})

unfoldable pub first_double_booked_from : ℕ → (ℕ → List ℕ) → List ℕ → ℕ
first_double_booked_from best club_cups [] = best
first_double_booked_from best club_cups (c ∷ clubs) =
    let next =
      if ltb (length (club_cups c)) 2 then best else if best == 0 || ltb c best then c else best in
    first_double_booked_from next club_cups clubs

unfoldable pub first_double_booked : Sweep → ℕ
unfolding first_double_booked_from
first_double_booked s = first_double_booked_from 0 s.club_cups s.clubs

-- The replacement takes the seat that `loser` lost.
unfoldable pub promote : ResolveInput → ℕ → ℕ → Sweep → Sweep
unfolding book
promote input loser rep s =
    let seat : Entrant = record {
      club = rep;
      origin = Origin.cascade_replacement;
      rank = rank_of input.tables loser rep input.fields;
    } in
    if rep == 0
    then s
    else book rep loser (record s { assign = put s.assign loser (s.assign loser ++ seat ∷ []) })

-- The body of the loop over `cups` after the replacement is found.
unfoldable pub settle_for : ResolveInput → ℕ → ℕ → ℕ → List (ℕ × ℕ) → ℕ → Sweep → Sweep
unfolding promote drop_cup
settle_for input club winner loser resolved rep s =
    let logged : Cascade = record {
      club = club;
      lost_cup = loser;
      kept_cup = winner;
      replacement = rep;
    } in
    let s' =
      promote input loser rep
        (record s { resolved = resolved; cascades = s.cascades ++ logged ∷ [] }) in
    record s' { club_cups = put s'.club_cups club (drop_cup (s'.club_cups club) loser) }

abbrev pub add_pair : List (ℕ × ℕ) → ℕ → ℕ → List (ℕ × ℕ)
add_pair resolved club cup =
    if is_resolved resolved club cup then resolved else (club, cup) ∷ resolved

unfoldable pub settle : ResolveInput → ℕ → ℕ → ℕ → Sweep → Sweep
unfolding settle_for
settle input club winner loser s =
    let resolved = add_pair s.resolved club loser in
    settle_for input club winner loser resolved
      (replacement_for input.fields input.tables (s.assign loser) loser club resolved) s

-- `none` where the club has no seat in `loser`.
unfoldable pub release : ResolveInput → ℕ → ℕ → ℕ → Sweep → Option Sweep
unfolding settle remove_entrant
release input club winner loser s = elim (remove_entrant (s.assign loser) club) [
  | none ↦ none
  | some rest ↦
      some (settle input club winner loser (record s { assign = put s.assign loser rest }))
]

unfoldable pub release_all : ResolveInput → ℕ → ℕ → List ℕ → Sweep → Option Sweep
unfolding release
release_all input club winner [] s = some s
release_all input club winner (cup ∷ cups) s =
    let skipped = release_all input club winner cups s in
    let released = elim (release input club winner cup s) as (λ _. Option Sweep) [
      | none ↦ none
      | some s' ↦ release_all input club winner cups s'
    ] in
    if cup == winner then skipped else released

unfoldable pub seat_count : List Field → ℕ
seat_count [] = 0
seat_count (f ∷ fields) = length f.entrants + seat_count fields

unfoldable pub max_resolution_steps : List Field → ℕ
unfolding seat_count
max_resolution_steps fields = (if seat_count fields == 0 then 1 else seat_count fields) * 8

pub data Impossible : Type 0 where
  held_no_seat too_many_steps shrunk_below_two champion_dropped : Impossible

pub data Swept : Type 0 where
  settled : Sweep → Swept
  impossible : Impossible → Swept

-- One round for the club that is double-booked; `none` is the panic of pickWinner, on no cups.
unfoldable pub resolve_club : ResolveInput → ℕ → Sweep → Option Sweep
unfolding release_all pick_winner
resolve_club input club s =
    let cups = sort_by ltb (s.club_cups club) in
    elim (pick_winner input.fields input.choices club cups) [
      | none ↦ none
      | some winner ↦ release_all input club winner cups s
    ]

unfoldable pub sweep : ℕ → ResolveInput → Sweep → Option Swept
unfolding first_double_booked resolve_club max_resolution_steps
sweep zero input s = none
sweep (suc fuel) input s = elim (first_double_booked s) [
  | zero ↦ some (settled s)
  | suc c ↦ elim (resolve_club input (suc c) s) [
    | none ↦ some (impossible held_no_seat)
    | some s' ↦ elim (ltb (max_resolution_steps input.fields) (length s'.resolved)) [
      | true ↦ some (impossible too_many_steps)
      | false ↦ sweep fuel input s'
    ]
  ]
]

-- The checks on the settled assignment.
unfoldable pub shrunk : (ℕ → List Entrant) → List Field → Bool
shrunk assign [] = false
shrunk assign (f ∷ fields) = ltb (length (assign f.cup.id)) 2 || shrunk assign fields

unfoldable pub in_any : (ℕ → List Entrant) → List Field → ℕ → Bool
in_any assign [] club = false
in_any assign (f ∷ fields) club = contains_club (assign f.cup.id) club || in_any assign fields club

unfoldable pub dropped_champion_in : (ℕ → List Entrant) → List Field → List Entrant → Bool
unfolding in_any is_champion_origin
dropped_champion_in assign fields [] = false
dropped_champion_in assign fields (e ∷ entrants) =
    let later = dropped_champion_in assign fields entrants in
    if is_champion_origin e.origin
    then (if in_any assign fields e.club then later else true)
    else later

unfoldable pub dropped_champion : (ℕ → List Entrant) → List Field → List Field → Bool
unfolding dropped_champion_in
dropped_champion assign fields [] = false
dropped_champion assign fields (f ∷ fs) =
    dropped_champion_in assign fields f.entrants || dropped_champion assign fields fs

unfoldable pub sort_entrants : List Entrant → List Entrant
sort_entrants entrants = sort_by (λ a b. ltb a.club b.club) entrants

unfoldable pub sort_cascades : List Cascade → List Cascade
sort_cascades cascades =
    sort_by (λ a b. if a.club == b.club then ltb a.lost_cup b.lost_cup else ltb a.club b.club)
      cascades

pub data ResolveOutput : Type 0 where
  output : (ℕ → List Entrant) → List Cascade → ResolveOutput
  resolution_impossible : Impossible → ResolveOutput

unfoldable pub checked : ResolveInput → Swept → ResolveOutput
unfolding shrunk dropped_champion sort_entrants sort_cascades
checked input (impossible e) = resolution_impossible e
checked input (settled s) =
    if shrunk s.assign input.fields
    then resolution_impossible shrunk_below_two
    else if dropped_champion s.assign input.fields input.fields
    then resolution_impossible champion_dropped
    else output (λ cup. sort_entrants (s.assign cup)) (sort_cascades s.cascades)

-- A round settles a new pair, so the step bound ends the loop within this fuel.
unfoldable pub resolve_field : ResolveInput → Option ResolveOutput
unfolding sweep checked start
resolve_field input =
    elim (sweep (max_resolution_steps input.fields + 2) input (start input.fields)) [
      | none ↦ none
      | some swept ↦ some (checked input swept)
    ]

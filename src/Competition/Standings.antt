-- ===== src/Competition/Standings.antt =====
-- League tables: backend/internal/competition/standings.go. A table is the rows of one season; a
-- club that has no row is a club with no result. ApplyResult stands with the state it reads and
-- writes, up to where the transaction goes on in the branch of a knockout tie (cup_knockout.go) or in
-- the rollover (rollover.go), which are not modelled: these are endings of their own.
pub mod Refines
pub mod Once
pub mod Window
use touchline.Common.{
  ℕ, zero, suc, ◌+◌, ◌-◌, ◌*◌, Bool, true, false, ◌&&◌, ◌||◌, not, Option, none, some, List, [],
  ◌∷◌, ◌++◌, ltb, leb, ◌==◌, if◌then◌else◌, length, take, drop,
}
use touchline.Common.Int.{ℤ, pos, negsuc}

pub record Row : Type 0 where
  pub club : ℕ
  pub played : ℕ
  pub won : ℕ
  pub drawn : ℕ
  pub lost : ℕ
  pub goals_for : ℕ
  pub goals_against : ℕ
  pub points : ℕ

unfoldable pub result_points : ℕ → ℕ → ℕ × ℕ
result_points home away = if ltb away home then (3, 0) else if ltb home away then (0, 3) else (1, 1)

-- `won, drawn, lost` of one result, from its points.
abbrev pub outcome : ℕ → ℕ × ℕ × ℕ
outcome points = if points == 3 then (1, 0, 0) else if points == 1 then (0, 1, 0) else (0, 0, 1)

abbrev pub first_row : ℕ → ℕ → ℕ → ℕ → Row
first_row club goals_for goals_against points =
    let (won, drawn, lost) = outcome points in
    record {
      club = club;
      played = 1;
      won = won;
      drawn = drawn;
      lost = lost;
      goals_for = goals_for;
      goals_against = goals_against;
      points = points;
    }

abbrev pub add_row : Row → Row → Row
add_row r x = record {
  club = r.club;
  played = r.played + 1;
  won = r.won + x.won;
  drawn = r.drawn + x.drawn;
  lost = r.lost + x.lost;
  goals_for = r.goals_for + x.goals_for;
  goals_against = r.goals_against + x.goals_against;
  points = r.points + x.points;
}

-- INSERT ... ON CONFLICT (season_id, club_id) DO UPDATE.
unfoldable pub upsert_row : Row → List Row → List Row
upsert_row x [] = x ∷ []
upsert_row x (r ∷ rows) =
    let rest = upsert_row x rows in if r.club == x.club then add_row r x ∷ rows else r ∷ rest

unfoldable pub upsert_standing : ℕ → ℕ → ℕ → ℕ → List Row → List Row
unfolding upsert_row
upsert_standing club goals_for goals_against points rows =
    upsert_row (first_row club goals_for goals_against points) rows

abbrev pub zero_row : ℕ → Row
zero_row club = record {
  club = club;
  played = 0;
  won = 0;
  drawn = 0;
  lost = 0;
  goals_for = 0;
  goals_against = 0;
  points = 0;
}

abbrev pub has_row : ℕ → List Row → Bool
has_row club [] = false
has_row club (r ∷ rows) = if r.club == club then true else has_row club rows

-- INSERT ... ON CONFLICT DO NOTHING.
unfoldable pub seed_standings : List ℕ → List Row → List Row
seed_standings [] rows = rows
seed_standings (c ∷ clubs) rows =
    seed_standings clubs (if has_row c rows then rows else rows ++ zero_row c ∷ [])

-- The two upserts of a league result.
unfoldable pub record_result : ℕ → ℕ → ℕ → ℕ → List Row → List Row
unfolding result_points upsert_standing
record_result home away home_score away_score rows =
    let (home_points, away_points) = result_points home_score away_score in
    upsert_standing away away_score home_score away_points
      (upsert_standing home home_score away_score home_points rows)

pub record Fixture : Type 0 where
  pub id : ℕ
  pub league : ℕ
  pub country : ℕ
  pub home : ℕ
  pub away : ℕ
  pub is_knockout : Bool
  pub applied : Bool
  pub score : Option (ℕ × ℕ)

-- The rows that ApplyResult reads and writes: the fixtures, the active season of each league, and
-- each season's table.
pub record Tables : Type 0 where
  pub fixtures : List Fixture
  pub active_season : ℕ → Option ℕ
  pub standings : ℕ → List Row

pub data ResultError : Type 0 where
  invalid_result fixture_not_found result_already_applied no_season : ResultError

-- How ApplyResult ends. In `to_knockout` and `to_rollover` the open transaction goes on, from the rows
-- given, in applyKnockoutResult with the fixture and the score, or in the rollover of the country.
pub data Applied : Type 0 where
  committed : Tables → Applied
  rolled_back : ResultError → Applied
  to_knockout : Fixture → ℕ → ℕ → Tables → Applied
  to_rollover : ℕ → Tables → Applied

abbrev pub find_fixture : ℕ → List Fixture → Option Fixture
find_fixture id [] = none
find_fixture id (f ∷ fixtures) = if f.id == id then some f else find_fixture id fixtures

-- The UPDATE of the fixture's row.
abbrev pub complete : ℕ → ℕ → ℕ → List Fixture → List Fixture
complete id home_score away_score [] = []
complete id home_score away_score (f ∷ fixtures) =
    (if f.id == id then record f { applied = true; score = some (home_score, away_score) } else f)
    ∷ complete id home_score away_score fixtures

abbrev pub remaining_in : ℕ → List Fixture → ℕ
remaining_in country [] = 0
remaining_in country (f ∷ fixtures) =
    (if f.country == country && not f.applied then 1 else 0) + remaining_in country fixtures

unfoldable pub maybe_complete_season : ℕ → Tables → Applied
maybe_complete_season country t =
    if ltb 0 (remaining_in country t.fixtures) then committed t else to_rollover country t

-- The transaction from the locked fixture on.
unfoldable pub apply_locked : Fixture → ℕ → ℕ → ℕ → Tables → Applied
unfolding record_result maybe_complete_season
apply_locked f season home_score away_score t =
    let marked = record t { fixtures = complete f.id home_score away_score t.fixtures } in
    let table = record_result f.home f.away home_score away_score (t.standings season) in
    if f.is_knockout
    then to_knockout f home_score away_score marked
    else maybe_complete_season f.country
        (record marked { standings = λ s. if s == season then table else t.standings s })

unfoldable pub apply_score : ℕ → ℕ → ℕ → Tables → Applied
unfolding apply_locked
apply_score id home_score away_score t = elim (find_fixture id t.fixtures) [
  | none ↦ rolled_back fixture_not_found
  | some f ↦
      if f.applied then rolled_back result_already_applied else elim (t.active_season f.league) [
        | none ↦ rolled_back no_season
        | some season ↦ apply_locked f season home_score away_score t
      ]
]

unfoldable pub apply_result : ℕ → ℤ → ℤ → Tables → Applied
unfolding apply_score
apply_result id (pos h) (pos a) t = apply_score id h a t
apply_result id (negsuc h) a t = rolled_back invalid_result
apply_result id (pos h) (negsuc a) t = rolled_back invalid_result

abbrev pub index_of : ℕ → List Row → Option ℕ
index_of club [] = none
index_of club (r ∷ rows) =
    if r.club == club
    then some 0
    else elim (index_of club rows) as (λ _. Option ℕ) [ none ↦ none | some i ↦ some (suc i) ]

-- The rows around a club; `none` is `ok == false`.
unfoldable pub standings_window : List Row → ℕ → ℕ → Option (List Row)
standings_window rows club radius =
    let size = 2 * radius + 1 in
    let n = length rows in
    elim (index_of club rows) as (λ _. Option (List Row)) [
      | none ↦ none
      | some at ↦
          let lo = if ltb n (at - radius + size) then n - size else at - radius in
          if leb n size then some rows else some (take size (drop lo rows))
    ]

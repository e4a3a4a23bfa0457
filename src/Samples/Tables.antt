-- ===== src/Samples/Tables.antt =====
-- Small league tables, on which the properties of standings and stakes are applied.
use touchline.Common.{
  ℕ, ◌<◌, ◌≡◌, refl, true, false, none, some, List, [], ◌∷◌, ◌++◌, ◌==◌, if◌then◌else◌,
}
use touchline.Common.{length, leb, ◌⊎◌, ◌-◌}
use touchline.Common.Int.{pos, negsuc}
use touchline.Competition.Standings.{
  Row, zero_row, has_row, record_result, Fixture, Tables, invalid_result, result_already_applied,
  committed, rolled_back, apply_result, standings_window, index_of,
}
use touchline.Competition.Standings.Refines.{
  Played, sides, record_all, row_of, Adds, record_all-Adds,
}
use touchline.Competition.Standings.Window.{standings_window_around}
use touchline.Competition.Standings.Once.{now, refused_by, apply_result_once}
use touchline.Common.{◌<◌}
use touchline.Competition.Stakes.{Rules, TableRow}
use touchline.Common.{if◌then◌else◌, ◌==◌}

abbrev two_matches : List Played
two_matches =
    record { home = 1; away = 2; home_score = 3; away_score = 1 }
    ∷ record { home = 2; away = 1; home_score = 0; away_score = 0 }
    ∷ []

record_all-Adds_example :
    Adds 1 (sides two_matches) (row_of 1 []) (row_of 1 (record_all two_matches []))
record_all-Adds_example = record_all-Adds 1 two_matches []

abbrev three_rows : List Row
three_rows = zero_row 1 ∷ zero_row 2 ∷ zero_row 3 ∷ zero_row 4 ∷ []

standings_window_around_example :
    (at : ℕ) × (before out after : List Row) × (index_of 4 three_rows ≡ some at)
    × (standings_window three_rows 4 1 ≡ some out)
    × (before ++ (out ++ after) ≡ three_rows)
    × (has_row 4 out ≡ true)
    × (length out ≡ (if leb (length three_rows) 3 then length three_rows else 3))
    × ((length before ≡ at - 1) ⊎ ((length before < at - 1) × (after ≡ [])))
standings_window_around_example = standings_window_around three_rows 4 1 refl

abbrev one_fixture : Fixture
one_fixture = record {
  id = 9;
  league = 1;
  country = 1;
  home = 1;
  away = 2;
  is_knockout = false;
  applied = false;
  score = none;
}

abbrev next_fixture : Fixture
next_fixture = record one_fixture { id = 10; home = 2; away = 1 }

abbrev before_match : Tables
before_match = record {
  fixtures = one_fixture ∷ next_fixture ∷ [];
  active_season = λ l. some 3;
  standings = λ s. [];
}

abbrev after_match : Tables
after_match = record {
  fixtures = record one_fixture { applied = true; score = some (2, 1) } ∷ next_fixture ∷ [];
  active_season = λ l. some 3;
  standings = λ s. if s == 3 then record_result 1 2 2 1 [] else [];
}

match_applied : apply_result 9 (pos 2) (pos 1) before_match ≡ committed after_match
unfolding apply_result
match_applied = refl

negative_refused : apply_result 10 (negsuc 0) (pos 0) after_match ≡ rolled_back invalid_result
unfolding apply_result
negative_refused = refl

-- A score that is refused comes between the two.
apply_result_once_example :
    apply_result 9 (pos 4) (pos 4) after_match ≡ rolled_back result_already_applied
apply_result_once_example =
    apply_result_once 9 4 4 (pos 2) (pos 1) before_match after_match after_match match_applied
      (refused_by 10 (negsuc 0) (pos 0) invalid_result now negative_refused)

abbrev one_up : Rules
one_up = record { team_count = 3; promotions = 1; relegations = 1 }

abbrev late_table : List TableRow
late_table =
    record { club = 1; points = 40 }
    ∷ record { club = 2; points = 38 }
    ∷ record { club = 3; points = 9 }
    ∷ []

abbrev late_points : ℕ → ℕ
late_points c = if c == 1 then 40 else if c == 2 then 38 else 9

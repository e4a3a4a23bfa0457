-- ===== src/Samples/Cups.antt =====
-- Small fields of cups, on which the properties of qualification and resolution are applied.
use touchline.Common.{
  ℕ, ◌≤◌, ◌≡◌, refl, ◌⊎◌, true, Option, none, some, List, [], ◌∷◌, ◌++◌, arith, ◌==◌, if◌then◌else◌,
}
use touchline.Competition.Qualify.Model.{
  Origin, Band, Table, Reigning, Entrant, Field, contains_club,
}
use touchline.Competition.Qualify.Core.{sorted_bands, valid_qual_band, core_entrants}
use touchline.Competition.Qualify.Compute.{found, Result, Providers, QualifyField, compute_field}
use touchline.Competition.Qualify.Cuts.{in_cuts, core_entrants-in_cuts}
use touchline.Competition.Qualify.Champion.{AtMostOneMore, core_entrants-champion}
use touchline.Competition.Qualify.Fields.{IsField, compute_field-IsField}
use touchline.Common.{length, All}
use touchline.Competition.Resolve.Winner.{find_field}
use touchline.Competition.Resolve.Sweep.{
  ResolveInput, Cascade, too_many_steps, shrunk_below_two, ResolveOutput, output,
  resolution_impossible, resolve_field,
}
use touchline.Competition.Resolve.Sweep.Start.{Usable}
use touchline.Competition.Resolve.Sweep.Outcome.{
  IsResolution, OwnFields, resolve_field-IsResolution,
}

abbrev last_season : ℕ → Option Table
last_season l =
    if l == 1
    then some (record { league = 1; season_number = 3; ranks = 11 ∷ 12 ∷ 13 ∷ [] })
    else none

abbrev top_two : List Band
top_two = record { league = 1; from = 1; to = some 2 } ∷ []

abbrev third_champion : Reigning
third_champion = record { club = 13; league = 1 }

abbrev two_entrants : List Entrant
two_entrants =
    record { club = 11; origin = Origin.position; rank = 1 }
    ∷ record { club = 12; origin = Origin.position; rank = 2 }
    ∷ []

two_entrants_enter : core_entrants last_season top_two none ≡ some two_entrants
unfolding core_entrants
two_entrants_enter = refl

core_entrants-in_cuts_example :
    (cuts : List Entrant) × (core_entrants last_season top_two none ≡ some cuts)
    × ((c : ℕ) → contains_club cuts c ≡ in_cuts last_season top_two c)
core_entrants-in_cuts_example = core_entrants-in_cuts last_season top_two (omega arith, tt)

core_entrants-champion_example :
    (cuts out : List Entrant) × (core_entrants last_season top_two none ≡ some cuts)
    × (core_entrants last_season top_two (some third_champion) ≡ some out)
    × (contains_club out third_champion.club ≡ true)
    × AtMostOneMore cuts out
core_entrants-champion_example =
    core_entrants-champion last_season top_two third_champion (omega arith, tt)

abbrev providers : Providers
providers = record {
  last_completed_standings = λ l. found (last_season l);
  reigning_champion = λ cup. found (some third_champion);
  sibling_cups = λ world cup. found [];
}

abbrev cup_input : QualifyField
cup_input = record {
  cup = record { id = 5; world = 1; tier = 1; created_at = 100 };
  bands = top_two;
}

abbrev three_entrants : List Entrant
three_entrants =
    two_entrants ++ record { club = 13; origin = Origin.champion_out_of_band; rank = 3 } ∷ []

abbrev cup_field : Field
cup_field = record {
  cup = cup_input.cup;
  bands = top_two;
  club_count = 3;
  entrants = three_entrants;
  conflicts = λ c. [];
  unavailable = [];
}

cup_field_computed : compute_field cup_input providers ≡ Result.ok cup_field
unfolding compute_field sorted_bands valid_qual_band core_entrants
cup_field_computed = refl

compute_field-IsField_example : IsField cup_input providers cup_field × (2 ≤ 3)
compute_field-IsField_example =
    compute_field-IsField cup_input providers cup_field cup_field_computed

abbrev small_cup : ℕ → List Entrant → Field
small_cup id entrants = record {
  cup = record { id = id; world = 1; tier = id; created_at = 100 };
  bands = top_two;
  club_count = length entrants;
  entrants = entrants;
  conflicts = λ c. [];
  unavailable = [];
}

abbrev ranked : ℕ → ℕ → Entrant
ranked club rank = record { club = club; origin = Origin.position; rank = rank }

-- Club 12 has a place in both cups.
abbrev two_cups : ResolveInput
two_cups = record {
  fields =
      small_cup 5 (ranked 11 1 ∷ ranked 12 2 ∷ [])
      ∷ small_cup 6 (ranked 12 2 ∷ ranked 21 1 ∷ ranked 22 2 ∷ [])
      ∷ [];
  tables = last_season;
  choices = λ club. [];
}

two_cups-Usable : All Usable two_cups.fields
two_cups-Usable = ((λ c. ground arith, refl), ((λ c. ground arith, refl), tt))

two_cups-OwnFields : OwnFields two_cups.fields two_cups.fields
unfolding find_field
two_cups-OwnFields = (refl, (refl, tt))

resolve_field-IsResolution_example :
    (r : ResolveOutput) × (resolve_field two_cups ≡ some r)
    × ((r ≡ resolution_impossible too_many_steps)
        ⊎ ((r ≡ resolution_impossible shrunk_below_two)
            ⊎ ((assignments : ℕ → List Entrant) × (cascades : List Cascade) × (r
                  ≡ output assignments cascades)
                × IsResolution two_cups.fields assignments)))
resolve_field-IsResolution_example =
    resolve_field-IsResolution two_cups two_cups-Usable two_cups-OwnFields

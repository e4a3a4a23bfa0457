-- ===== src/Samples/Calendars.antt =====
-- Small cups, rounds and calendars, on which the properties of their modules are applied.
use touchline.Common.{
  ℕ, ◌+◌, ◌≤◌, ◌<◌, ◌≡◌, refl, ◌⊎◌, true, false, none, some, List, [], ◌∷◌, arith, ltb, ◌==◌,
  if◌then◌else◌, count,
}
use touchline.Common.{All, length, ◌*◌, ◌-◌, count, ltb, if◌then◌else◌}
use touchline.Competition.CupDraw.Complete.{clubs_of}
use touchline.Competition.RoundRobin.{round_robin}
use touchline.Competition.RoundRobin.Meetings.{round_robin-meetings}
use touchline.Competition.RoundRobin.Legs.{all_matches}
use touchline.Competition.CupLadder.{RoundPlan, ok, err, staging_invalid, early, finals, cup_ladder}
use touchline.Competition.CupLadder.Shape.{Ladder, cup_ladder-Ladder}
use touchline.Competition.CupLadder.Champion.{all_ties, cup_ladder-all_ties}
use touchline.Competition.CupDraw.{Rng, drawn, bracket_rows, materialize_bracket}
use touchline.Competition.CupDraw.Complete.{IsShuffle, IsComplete, materialize_bracket-IsComplete}
use touchline.Competition.Weekdays.{
  Kickoff, next_allowed_weekday, is_allowed_weekday, pace_weekday_matchday,
}
use touchline.Competition.Weekdays.Search.{HasWeekday, IsNext, next_allowed_weekday-IsNext}
use touchline.Competition.Weekdays.Rest.{pace_weekday_matchday_rest}
use touchline.Competition.Stagger.{RoundFixture, Params, assemble_round_kickoffs}
use touchline.Competition.Stagger.Rounds.{IsRound}
use touchline.Competition.Stagger.Ends.{assemble_round_kickoffs-IsRound}
use touchline.Competition.Stagger.Hangs.{assemble_round_kickoffs_hangs}
use touchline.Common.{length, ◌-◌}
use touchline.Competition.CupCalendar.{find_cup_round_day, walk_back}
use touchline.Competition.CupCalendar.Windows.{find_cup_round_day_window, Rested, walk_back-Rested}
use touchline.Competition.CupCalendar.Days.{find_cup_round_day_early}
use touchline.Common.{◌<◌}

cup_ladder-Ladder_example :
    (11 < 4) × (cup_ladder 11 4 12 ≡ some (err staging_invalid))
    ⊎ ((rounds : List RoundPlan) × (cup_ladder 11 4 12 ≡ some (ok rounds))
        × Ladder 4 12 1 11 rounds)
cup_ladder-Ladder_example = cup_ladder-Ladder 11 4 12 (omega arith) (omega arith)

abbrev five_clubs : List RoundPlan
five_clubs =
    record { round = 1; n = 5; ties = 2; byes = 1 }
    ∷ record { round = 2; n = 3; ties = 1; byes = 1 }
    ∷ record { round = 3; n = 2; ties = 1; byes = 0 }
    ∷ []

five_clubs_laid_out : cup_ladder 5 2 0 ≡ some (ok five_clubs)
unfolding cup_ladder early finals
five_clubs_laid_out = refl

cup_ladder-all_ties_example : all_ties five_clubs + 1 ≡ 5 + 0
cup_ladder-all_ties_example = cup_ladder-all_ties 5 2 0 five_clubs five_clubs_laid_out

abbrev same_order : Rng
same_order = record { shuffle = λ ids. ids; flip = λ i. i == 0 }

same_order-IsShuffle : IsShuffle same_order
same_order-IsShuffle = record { length_kept = λ ids. refl; count_kept = λ a ids. refl }

abbrev one_tie : RoundPlan
one_tie = record { round = 1; n = 3; ties = 1; byes = 1 }

abbrev three_clubs : List ℕ
three_clubs = 7 ∷ 8 ∷ 9 ∷ []

materialize_bracket-IsComplete_example :
    (pairs : List (ℕ × ℕ)) × (byes : List ℕ) × IsComplete one_tie three_clubs pairs byes
    × (materialize_bracket same_order one_tie three_clubs
        ≡ drawn (bracket_rows one_tie.round 1 byes three_clubs) pairs)
materialize_bracket-IsComplete_example =
    materialize_bracket-IsComplete same_order one_tie three_clubs same_order-IsShuffle refl

abbrev tuesday_friday : List ℕ
tuesday_friday = 2 ∷ 5 ∷ []

tuesday_friday-HasWeekday : HasWeekday tuesday_friday
tuesday_friday-HasWeekday = (2, omega arith, omega arith, refl)

next_allowed_weekday-IsNext_example :
    (day : ℕ) × (next_allowed_weekday 10 tuesday_friday ≡ some day) × IsNext 7 10 tuesday_friday day
next_allowed_weekday-IsNext_example =
    next_allowed_weekday-IsNext 10 tuesday_friday tuesday_friday-HasWeekday

pace_weekday_matchday_rest_example :
    (a b : Kickoff) × (pace_weekday_matchday 10 1 tuesday_friday 19 ≡ some a)
    × (pace_weekday_matchday 10 3 tuesday_friday 19 ≡ some b)
    × (10 < a.day)
    × (a.day + 2 ≤ b.day)
    × (is_allowed_weekday a.day tuesday_friday ≡ true)
    × (is_allowed_weekday b.day tuesday_friday ≡ true)
    × (a.hour ≡ 19)
    × (b.hour ≡ 19)
pace_weekday_matchday_rest_example =
    pace_weekday_matchday_rest 10 19 0 2 tuesday_friday tuesday_friday-HasWeekday (omega arith)

abbrev evenings_and_days : Params
evenings_and_days = record {
  allowed_weekdays = tuesday_friday;
  human_hours = 19 ∷ 20 ∷ [];
  ai_hours = 13 ∷ [];
}

abbrev two_ties : List RoundFixture
two_ties =
    record { home = 4; away = 2; human = true } ∷ record { home = 1; away = 3; human = false } ∷ []

assemble_round_kickoffs-IsRound_example :
    (out : ℕ → Kickoff) × (assemble_round_kickoffs 2 evenings_and_days two_ties 10 ≡ some out)
    × IsRound evenings_and_days 10 two_ties out
assemble_round_kickoffs-IsRound_example =
    assemble_round_kickoffs-IsRound evenings_and_days two_ties 10 tuesday_friday-HasWeekday
      ((19, refl), ((13, refl, refl), tt))

abbrev shared_hour : Params
shared_hour = record {
  allowed_weekdays = tuesday_friday;
  human_hours = 19 ∷ [];
  ai_hours = 19 ∷ [];
}

assemble_round_kickoffs_hangs_example : assemble_round_kickoffs 50 shared_hour two_ties 10 ≡ none
assemble_round_kickoffs_hangs_example =
    assemble_round_kickoffs_hangs 50 shared_hour two_ties 10 (λ h e. e) (omega arith)

walk_back-Rested_example :
    (length (walk_back (λ round n. 0) (90 ∷ 97 ∷ []) [] 4 3 100) ≡ 3)
    × Rested (walk_back (λ round n. 0) (90 ∷ 97 ∷ []) [] 4 3 100) 100
walk_back-Rested_example = walk_back-Rested (λ round n. 0) (90 ∷ 97 ∷ []) [] 4 3 100 (omega arith)

find_cup_round_day_window_example :
    (97 ≤ find_cup_round_day 97 100 (94 ∷ []) [] + 2)
    × (find_cup_round_day 97 100 (94 ∷ []) [] ≤ 97 + 2)
    × (find_cup_round_day 97 100 (94 ∷ []) [] + 2 ≤ 100)
find_cup_round_day_window_example =
    find_cup_round_day_window 97 100 (94 ∷ []) [] (omega arith) (omega arith)

find_cup_round_day_early_example : find_cup_round_day 97 100 [] [] ≡ 97 - 2
find_cup_round_day_early_example = find_cup_round_day_early 97 100 (omega arith) (omega arith)

round_robin-meetings_example :
    (length (round_robin (2 * 2)) ≡ 2 * (2 * 2 - 1))
    × All
        (λ round. (a : ℕ) → count a (clubs_of round) ≡ (if ltb a (2 * 2) then 1 else 0))
        (round_robin (2 * 2))
    × ((b : ℕ)
        → 1 ≤ b
        → b < 2 * 2
        → (all_matches 0 b (round_robin (2 * 2)) ≡ 1) × (all_matches b 0 (round_robin (2 * 2)) ≡ 1))
round_robin-meetings_example = round_robin-meetings 2 (omega arith)

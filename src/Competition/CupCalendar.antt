-- ===== src/Competition/CupCalendar.antt =====
-- The calendar of a cup's rounds: backend/internal/competition/cup_bracket.go (cupGap, dayClearance,
-- cupDayScore, findCupRoundDay, resolveCupFinalDate and the loop of planCupCalendar). A date is the
-- number of its day since Go's zero time, which is day 0; all dates stand at midnight. The answers
-- of the seeded generator are the parameter `draw`: `draw round n` is `rng.Intn(n)`.
pub mod Windows
pub mod Days
use touchline.Common.{
  ℕ, zero, suc, ◌+◌, ◌-◌, Bool, true, false, ◌&&◌, ◌||◌, not, Option, none, some, List, [], ◌∷◌,
  ◌++◌, ltb, leb, ◌==◌, if◌then◌else◌,
}
use touchline.Common.Int.{ℤ, pos, sub_ℕ, ltb_ℤ}
use touchline.Competition.Weekdays.{is_allowed_weekday, next_allowed_weekday}

-- The days between a round and the one it feeds.
unfoldable pub cup_gap : (ℕ → ℕ → ℕ) → ℕ → ℕ → ℕ
cup_gap draw round total =
    let dist = total - round in
    let weight3 = if dist == 1 then 3 else if dist == 2 then 1 else 0 in
    if weight3 == 0 then 2 else if ltb (draw round (weight3 + 1)) weight3 then 3 else 2

abbrev pub distance : ℕ → ℕ → ℕ
distance a b = if leb a b then b - a else a - b

unfoldable pub day_clearance_from : ℕ → ℕ → List ℕ → ℕ
day_clearance_from best d [] = best
day_clearance_from best d (l ∷ league_days) =
    day_clearance_from (if ltb (distance d l) best then distance d l else best) d league_days

unfoldable pub day_clearance : ℕ → List ℕ → ℕ
unfolding day_clearance_from
day_clearance d league_days = day_clearance_from 1000 d league_days

unfoldable pub base_score : ℕ → ℕ
base_score cleared = if leb 2 cleared then 10000 + cleared else if cleared == 1 then 1000 else 0

-- `base - daysBetween(target, d)`, where daysBetween is `d - target`, with its sign.
unfoldable pub cup_day_score : ℕ → ℕ → List ℕ → ℤ
unfolding day_clearance base_score
cup_day_score d target league_days = sub_ℕ (base_score (day_clearance d league_days) + target) d

-- `len(weekdays) > 0 && !isAllowedWeekday(d, weekdays)`.
unfoldable pub skips : List ℕ → ℕ → Bool
skips [] d = false
skips (w ∷ weekdays) d = not (is_allowed_weekday d (w ∷ weekdays))

-- A loop over `n` days from `d` on; day 0 stands for no day found.
unfoldable pub pick_day : List ℕ → (ℕ → ℤ) → ℕ → ℕ → ℕ × ℤ → ℕ × ℤ
unfolding skips
pick_day weekdays score zero d best = best
pick_day weekdays score (suc n) d best = pick_day weekdays score n (d + 1) (
    if skips weekdays d
    then best
    else if best.0 == 0 || ltb_ℤ best.1 (score d)
    then (d, score d)
    else best)

abbrev pub window_low : ℕ → ℕ
window_low target = target - 2

abbrev pub window_high : ℕ → ℕ → ℕ
window_high target next = if ltb (next - 2) (target + 2) then next - 2 else target + 2

unfoldable pub find_cup_round_day : ℕ → ℕ → List ℕ → List ℕ → ℕ
unfolding pick_day cup_day_score
find_cup_round_day target next league_days weekdays =
    let score : ℕ → ℤ = λ d. cup_day_score d target league_days in
    let days = window_high target next + 1 - window_low target in
    let first = pick_day weekdays score days (window_low target) (0, pos 0) in
    let second = pick_day [] score days (window_low target) first in
    if not (first.0 == 0) then first.0 else if second.0 == 0 then target else second.0

pub data FinalMode : Type 0 where
  fixed calculated : FinalMode

abbrev last_day : List ℕ → Option ℕ
last_day [] = none
last_day (d ∷ []) = some d
last_day (d ∷ e ∷ days) = last_day (e ∷ days)

-- `none` is `ok == false`, and a search that finds no day: it does for a set with no day of the week.
unfoldable pub resolve_cup_final_date : FinalMode → Option ℕ → ℕ → List ℕ → List ℕ → Option ℕ
resolve_cup_final_date fixed date offset league_days weekdays = date
resolve_cup_final_date calculated date offset league_days weekdays = elim (last_day league_days) [
  | none ↦ none
  | some d ↦ next_allowed_weekday (d + offset) weekdays
]

-- The loop of planCupCalendar from the round `k` (from 1) down to the first; `next` is the date of
-- the round after it.
unfoldable pub walk_back : (ℕ → ℕ → ℕ) → List ℕ → List ℕ → ℕ → ℕ → ℕ → List ℕ
unfolding cup_gap find_cup_round_day
walk_back draw league_days weekdays total zero next = []
walk_back draw league_days weekdays total (suc idx) next =
    let date = find_cup_round_day (next - cup_gap draw (idx + 1) total) next league_days weekdays in
    walk_back draw league_days weekdays total idx date ++ date ∷ []

-- The dates of the rounds, the first round first; `none` where the ladder stays without dates.
unfoldable pub plan_cup_calendar :
    (ℕ → ℕ → ℕ) → FinalMode → Option ℕ → ℕ → List ℕ → List ℕ → ℕ → Option (List ℕ)
unfolding resolve_cup_final_date walk_back
plan_cup_calendar draw mode date offset league_days weekdays zero = none
plan_cup_calendar draw mode date offset league_days weekdays (suc k) =
    elim (resolve_cup_final_date mode date offset league_days weekdays) [
      | none ↦ none
      | some final ↦ some (walk_back draw league_days weekdays (suc k) k final ++ final ∷ [])
    ]

-- ===== src/Competition/Weekdays.antt =====
-- Weekday-aware dates: backend/internal/competition/weekdays.go, the round anchors of stagger.go,
-- and kickoffHour, normalizeHours and scheduledAtFromDay of pacing.go. A calendar day is the number
-- of days since 0001-01-01, Go's zero time, which is a Monday; `IsZero` is day 0. A kickoff is a
-- day and an hour (UTC). The hash that folds a seed and a league id is a parameter of kickoff_hour.
pub mod Search
pub mod Rest
pub mod Sets
use touchline.Common.{
  ℕ, zero, suc, ◌+◌, ◌-◌, ◌*◌, ◌/◌, ◌%◌, Bool, true, false, ◌||◌, Option, none, some, List, [], ◌∷◌,
  ltb, leb, ◌==◌, if◌then◌else◌, length, elem, get_elem?,
}

pub record Kickoff : Type 0 where
  pub day : ℕ
  pub hour : ℕ

-- ISO-8601: 1 is Monday, 7 is Sunday.
unfoldable pub iso_weekday : ℕ → ℕ
iso_weekday day = day % 7 + 1

-- Valid weekdays in the declared order, each once; `seen` holds those that are kept already.
unfoldable pub normalize_from : List ℕ → List ℕ → List ℕ
normalize_from seen [] = []
normalize_from seen (d ∷ wd) =
    let kept = d ∷ normalize_from (d ∷ seen) wd in
    let skipped = normalize_from seen wd in
    if ltb d 1 || ltb 7 d || elem d seen then skipped else kept

unfoldable pub normalize_weekdays : List ℕ → List ℕ
unfolding normalize_from
normalize_weekdays wd = normalize_from [] wd

-- Valid hours in the declared order, each once.
unfoldable pub normalize_hours_from : List ℕ → List ℕ → List ℕ
normalize_hours_from seen [] = []
normalize_hours_from seen (h ∷ hours) =
    let kept = h ∷ normalize_hours_from (h ∷ seen) hours in
    let skipped = normalize_hours_from seen hours in
    if ltb 23 h || elem h seen then skipped else kept

unfoldable pub normalize_hours : List ℕ → List ℕ
unfolding normalize_hours_from
normalize_hours hours = normalize_hours_from [] hours

unfoldable pub is_allowed_weekday : ℕ → List ℕ → Bool
unfolding iso_weekday
is_allowed_weekday day [] = false
is_allowed_weekday day (d ∷ wd) = if d == iso_weekday day then true else is_allowed_weekday day wd

-- The unbounded loop of nextAllowedWeekday, on fuel: `none` is a loop that has not ended yet.
unfoldable pub search_weekday : ℕ → ℕ → List ℕ → Option ℕ
search_weekday zero day wd = none
search_weekday (suc fuel) day wd =
    let later = search_weekday fuel (day + 1) wd in
    if is_allowed_weekday day wd then some day else later

-- A week of fuel is enough for a set with a valid weekday (Search).
unfoldable pub next_allowed_weekday : ℕ → List ℕ → Option ℕ
next_allowed_weekday start [] = some start
next_allowed_weekday start (d ∷ wd) = search_weekday 7 start (d ∷ wd)

unfoldable pub round_anchor_first : ℕ → List ℕ → Option ℕ
round_anchor_first anchor wd = next_allowed_weekday (anchor + 1) wd

unfoldable pub round_anchor_next : ℕ → List ℕ → Option ℕ
round_anchor_next last_round_end wd = next_allowed_weekday (last_round_end + 2) wd

-- The latest day of a round's kickoffs; the zero time for none.
unfoldable pub round_last_day_from : ℕ → List Kickoff → ℕ
round_last_day_from last [] = last
round_last_day_from last (k ∷ kicks) =
    round_last_day_from (if ltb last k.day then k.day else last) kicks

unfoldable pub round_last_day : List Kickoff → ℕ
unfolding round_last_day_from
round_last_day kicks = round_last_day_from 0 kicks

-- The day of the loop of paceWeekdayMatchday after `matchday` rounds, the zero time before any.
unfoldable pub pace_day : ℕ → ℕ → List ℕ → Option ℕ
pace_day anchor zero wd = some 0
pace_day anchor (suc zero) wd = next_allowed_weekday (anchor + 1) wd
pace_day anchor (suc (suc k)) wd = elim (pace_day anchor (suc k) wd) [
  | none ↦ none
  | some prev ↦ next_allowed_weekday (prev + 2) wd
]

unfoldable pub pace_weekday_matchday : ℕ → ℕ → List ℕ → ℕ → Option Kickoff
unfolding pace_day
pace_weekday_matchday anchor matchday wd hour = elim (pace_day anchor matchday wd) [
  | none ↦ none
  | some day ↦ some (record { day = day; hour = hour })
]

-- The k-th matchday of a calendar that spreads its matchdays evenly over the game-week.
unfoldable pub scheduled_at_from_day : ℕ → ℕ → ℕ → ℕ → ℕ → Kickoff
scheduled_at_from_day anchor matchday days_per_week matchdays_per_week hour = record {
  day = anchor + ((matchday - 1) * days_per_week / matchdays_per_week + 1);
  hour = hour;
}

abbrev pub kickoff_hour_utc : ℕ
kickoff_hour_utc = 19

-- `hash` is the folded seed of the league, as an unsigned number.
unfoldable pub kickoff_hour : ℕ → List ℕ → ℕ → Option ℕ
kickoff_hour hash [] matchday = some kickoff_hour_utc
kickoff_hour hash (h ∷ hours) matchday =
    let n = length (h ∷ hours) in get_elem? (h ∷ hours) ((hash % n + matchday - 1) % n)

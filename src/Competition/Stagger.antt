-- ===== src/Competition/Stagger.antt =====
-- Staggered kickoffs of a round: backend/internal/competition/stagger.go. A day is a number as in
-- Weekdays, and a club id is a number in the order of its bytes. `fills`, which the source keeps in
-- a slice beside the slots, is a field of the slot. The unbounded `for !placed` loop runs on fuel:
-- `none` is a loop that has not ended.
pub mod Slots
pub mod Distinct
pub mod Rounds
pub mod Ends
pub mod Hangs
use touchline.Common.{
  ℕ, zero, suc, ◌+◌, Bool, true, false, ◌&&◌, Option, none, some, List, [], ◌∷◌, ◌++◌, ltb, ◌==◌,
  if◌then◌else◌, elem,
}
use touchline.Common.Sort.{sort_by}
use touchline.Competition.Weekdays.{Kickoff, next_allowed_weekday}

-- One tie of a round; `human` if either club has a human manager.
pub record RoundFixture : Type 0 where
  pub home : ℕ
  pub away : ℕ
  pub human : Bool

pub data Pool : Type 0 where
  human_pool ai_pool : Pool

abbrev pub same_pool : Pool → Pool → Bool
same_pool human_pool human_pool = true
same_pool ai_pool ai_pool = true
same_pool _ _ = false

pub record Slot : Type 0 where
  pub day : ℕ
  pub hour : ℕ
  pub pool : Pool
  pub fills : ℕ

-- What the assigner reads of scheduleParamsResolved.
pub record Params : Type 0 where
  pub allowed_weekdays : List ℕ
  pub human_hours : List ℕ
  pub ai_hours : List ℕ

pub record Board : Type 0 where
  pub slots : List Slot
  pub next_day : ℕ

abbrev pub add_seen : List ℕ → List ℕ → List ℕ
add_seen seen [] = seen
add_seen seen (h ∷ hours) = add_seen (h ∷ seen) hours

-- `add(hours, pool)`: a slot for each hour that is not seen yet.
unfoldable pub pool_slots : ℕ → Pool → List ℕ → List ℕ → List Slot
pool_slots day pool seen [] = []
pool_slots day pool seen (h ∷ hours) =
    let skipped = pool_slots day pool seen hours in
    let slot : Slot = record { day = day; hour = h; pool = pool; fills = 0 } in
    let added = slot ∷ pool_slots day pool (h ∷ seen) hours in
    if elem h seen then skipped else added

unfoldable pub day_slots : Params → ℕ → List Slot
unfolding pool_slots
day_slots p day =
    pool_slots day human_pool [] p.human_hours
    ++ pool_slots day ai_pool (add_seen [] p.human_hours) p.ai_hours

unfoldable pub add_day : Params → Board → Option Board
unfolding day_slots
add_day p b = elim (next_allowed_weekday b.next_day p.allowed_weekdays) [
  | none ↦ none
  | some day ↦ some (record { slots = b.slots ++ day_slots p day; next_day = day + 1 })
]

abbrev pub kick_of : Slot → Kickoff
kick_of s = record { day = s.day; hour = s.hour }

-- The first slot of the pool that is free, taken.
unfoldable pub take_slot : Pool → List Slot → Option (Kickoff × List Slot)
take_slot pref [] = none
take_slot pref (s ∷ slots) =
    let later = elim (take_slot pref slots) as (λ _. Option (Kickoff × List Slot)) [
      | none ↦ none
      | some (k, rest) ↦ some (k, s ∷ rest)
    ] in
    if same_pool s.pool pref && ltb s.fills 1
    then some (kick_of s, record s { fills = s.fills + 1 } ∷ slots)
    else later

unfoldable pub place : ℕ → Params → Pool → Board → Option (Kickoff × Board)
unfolding take_slot add_day
place zero p pref b = none
place (suc fuel) p pref b = elim (take_slot pref b.slots) [
  | some (k, slots) ↦ some (k, record b { slots = slots })
  | none ↦ elim (add_day p b) [ none ↦ none | some b' ↦ place fuel p pref b' ]
]

abbrev pub prefer : RoundFixture → Pool
prefer f = if f.human then human_pool else ai_pool

abbrev pub index_from : ℕ → List RoundFixture → List (ℕ × RoundFixture)
index_from i [] = []
index_from i (f ∷ fixtures) = (i, f) ∷ index_from (i + 1) fixtures

-- The packing order: by home club, then by away club.
unfoldable pub packs_before : ℕ × RoundFixture → ℕ × RoundFixture → Bool
packs_before x y = if x.1.home == y.1.home then ltb x.1.away y.1.away else ltb x.1.home y.1.home

-- `out[idx] = k`: the slice of kickoffs, as a function of the index.
abbrev pub write : (ℕ → Kickoff) → ℕ → Kickoff → ℕ → Kickoff
write out idx k i = if i == idx then k else out i

unfoldable pub place_all :
    ℕ → Params → List (ℕ × RoundFixture) → Board → (ℕ → Kickoff) → Option (ℕ → Kickoff)
unfolding place
place_all fuel p [] b out = some out
place_all fuel p ((idx, f) ∷ rest) b out = elim (place fuel p (prefer f) b) [
  | none ↦ none
  | some (k, b') ↦ place_all fuel p rest b' (write out idx k)
]

abbrev pub zero_time : Kickoff
zero_time = record { day = 0; hour = 0 }

unfoldable pub assemble_round_kickoffs : ℕ → Params → List RoundFixture → ℕ → Option (ℕ → Kickoff)
unfolding packs_before place_all sort_by
assemble_round_kickoffs fuel p fixtures anchor =
    place_all fuel p (sort_by packs_before (index_from 0 fixtures))
      (record { slots = []; next_day = anchor }) (λ _. zero_time)

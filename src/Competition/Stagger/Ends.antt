-- ===== src/Competition/Stagger/Ends.antt =====
-- When the placing loop ends: stagger.go, place.
use touchline.Common.{
  ℕ, ◌+◌, ◌≡◌, ◌≢◌, inl, inr, refl, Bool, true, false, ◌&&◌, ◌||◌, none, some, List, [], ◌∷◌, ◌++◌,
  arith, ltb, if◌then◌else◌, Bool-cases, elem, All, ==-self,
}
use touchline.Common.Sort.{insert_by, sort_by}
use touchline.Competition.Weekdays.{Kickoff}
use touchline.Competition.Weekdays.Search.{HasWeekday}
use touchline.Competition.Stagger.{
  Pool, human_pool, ai_pool, same_pool, Slot, Params, Board, RoundFixture, add_seen, pool_slots,
  day_slots, take_slot, place, place_all, prefer, write, index_from, packs_before, zero_time,
  assemble_round_kickoffs,
}
use touchline.Competition.Stagger.Slots.{elem-add_seen, IsBoard, add_day-IsBoard}
use touchline.Competition.Stagger.Distinct.{place-IsPlaced}
use touchline.Competition.Stagger.Rounds.{Entry, IsRound, assemble_round_kickoffs_cases}

abbrev pub free : Pool → List Slot → Bool
free pref [] = false
free pref (s ∷ slots) = if same_pool s.pool pref && ltb s.fills 1 then true else free pref slots

pub free-append :
    (pref : Pool) (xs ys : List Slot) → free pref (xs ++ ys) ≡ free pref xs || free pref ys
free-append pref [] ys = ground arith
free-append pref (x ∷ xs) ys = ground (arith, free-append pref xs ys)

pub take_slot-free :
    (pref : Pool) (slots : List Slot) → free pref slots ≡ false → take_slot pref slots ≡ none
unfolding take_slot
take_slot-free pref [] h = refl
take_slot-free pref (s ∷ slots) h = ground (arith, take_slot-free pref slots)

free-take_slot :
    (pref : Pool) (slots : List Slot) → free pref slots ≡ true → take_slot pref slots ≢ none
unfolding take_slot
free-take_slot pref [] h = cc
free-take_slot pref (s ∷ slots) h = ground (arith, free-take_slot pref slots)

free-pool_slots :
    (h day : ℕ) (pool : Pool) (seen hours : List ℕ)
    → elem h hours ≡ true
    → elem h seen ≡ false
    → free pool (pool_slots day pool seen hours) ≡ true
unfolding pool_slots
free-pool_slots h day pool seen [] m n = cc
free-pool_slots h day pool seen (x ∷ hours) m n =
    ground (arith, free-pool_slots h day pool seen hours)

free-other_pool :
    (day : ℕ) (pref pool : Pool) (seen hours : List ℕ)
    → same_pool pool pref ≡ false
    → free pref (pool_slots day pool seen hours) ≡ false
unfolding pool_slots
free-other_pool day pref pool seen [] h = refl
free-other_pool day pref pool seen (x ∷ hours) h = ground (
  arith,
  free-other_pool day pref pool seen hours h,
  free-other_pool day pref pool (x ∷ seen) hours h,
)

pool_slots_seen :
    (day : ℕ) (pool : Pool) (seen hours : List ℕ)
    → ((h : ℕ) → elem h hours ≡ true → elem h seen ≡ true)
    → pool_slots day pool seen hours ≡ []
unfolding pool_slots
pool_slots_seen day pool seen [] h = refl
pool_slots_seen day pool seen (x ∷ hours) h =
    let known : elem x seen ≡ true = h x (rw (==-self x)) in
    rw known (pool_slots_seen day pool seen hours (λ y m. h y (ground arith)))

-- The pool has an hour of its own: any evening hour, and a day hour that is no evening hour.
abbrev pub Ready : Params → Pool → Type 0
Ready p human_pool = (h : ℕ) × (elem h p.human_hours ≡ true)
Ready p ai_pool = (h : ℕ) × (elem h p.ai_hours ≡ true) × (elem h p.human_hours ≡ false)

-- Each hour of the day pool is an evening hour too.
abbrev pub Swallowed : Params → Type 0
Swallowed p = (h : ℕ) → elem h p.ai_hours ≡ true → elem h p.human_hours ≡ true

free-day_slots :
    (p : Params) (pref : Pool) (day : ℕ) → Ready p pref → free pref (day_slots p day) ≡ true
unfolding day_slots
free-day_slots p human_pool day (h, m) =
    rw (free-append human_pool (pool_slots day human_pool [] p.human_hours) _)
      (rw (free-pool_slots h day human_pool [] p.human_hours m refl))
free-day_slots p ai_pool day (h, m, n) =
    let own =
      free-pool_slots h day ai_pool (add_seen [] p.human_hours) p.ai_hours m
        (ground (arith, elem-add_seen h [] p.human_hours)) in
    ground (
      arith,
      own,
      free-append ai_pool (pool_slots day human_pool [] p.human_hours)
          (pool_slots day ai_pool (add_seen [] p.human_hours) p.ai_hours),
    )

pub none_free-day_slots :
    (p : Params) (day : ℕ) → Swallowed p → free ai_pool (day_slots p day) ≡ false
unfolding day_slots
none_free-day_slots p day all =
    let nothing : pool_slots day ai_pool (add_seen [] p.human_hours) p.ai_hours ≡ [] =
      pool_slots_seen day ai_pool (add_seen [] p.human_hours) p.ai_hours
        (λ h m. ground (arith, all h m, elem-add_seen h [] p.human_hours)) in
    ground (
      arith,
      nothing,
      free-other_pool day ai_pool human_pool [] p.human_hours,
      free-append ai_pool (pool_slots day human_pool [] p.human_hours)
          (pool_slots day ai_pool (add_seen [] p.human_hours) p.ai_hours),
    )

module _ (p : Params) (anchor : ℕ) (week : HasWeekday p.allowed_weekdays) where
  -- One day is added at most.
  place_ends :
      (pref : Pool) (b : Board) → Ready p pref → IsBoard p anchor b → place 2 p pref b ≢ none
  unfolding place
  place_ends pref b ready ok = elim (Bool-cases (free pref b.slots)) [
    | inl now ↦ ground (arith, free-take_slot pref b.slots now)
    | inr full ↦
        let (b', day, e, _, _, more) = add_day-IsBoard p anchor b week ok in
        let room : free pref b'.slots ≡ true = ground (
          arith,
          more,
          free-append pref b.slots (day_slots p day),
          free-day_slots p pref day ready,
        ) in
        ground (arith, take_slot-free pref b.slots full, e, free-take_slot pref b'.slots room)
  ]

  place_all_ends :
      (rest : List Entry) (b : Board) (out : ℕ → Kickoff)
      → All (λ (x : Entry). Ready p (prefer x.1)) rest
      → IsBoard p anchor b
      → place_all 2 p rest b out ≢ none
  unfolding place_all
  place_all_ends [] b out ready ok = λ e. cc
  place_all_ends ((idx, f) ∷ rest) b out ready ok =
      elim (place-IsPlaced p anchor week 2 (prefer f) b ok) [
        | inl hangs ↦ absurd (place_ends (prefer f) b ready.0 ok hangs)
        | inr (k, b', e, placed) ↦
            rw (e, place_all) (place_all_ends rest b' (write out idx k) ready.1 placed.board_ok)
      ]

All-insert_by :
    (P : Entry → Type 0) (before : Entry → Entry → Bool) (x : Entry) (xs : List Entry)
    → P x
    → All P xs
    → All P (insert_by before x xs)
unfolding insert_by
All-insert_by P before x [] h hs = (h, tt)
All-insert_by P before x (y ∷ ys) h hs = elim (Bool-cases (before y x)) [
  | inl e ↦ rw (e, insert_by) (hs.0, All-insert_by P before x ys h hs.1)
  | inr e ↦ rw (e, insert_by) (h, hs)
]

All-sort_by :
    (P : Entry → Type 0) (before : Entry → Entry → Bool) (xs : List Entry)
    → All P xs
    → All P (sort_by before xs)
unfolding sort_by
All-sort_by P before [] h = tt
All-sort_by P before (x ∷ xs) h =
    All-insert_by P before x (sort_by before xs) h.0 (All-sort_by P before xs h.1)

All-index_from :
    (P : RoundFixture → Type 0) (n : ℕ) (fixtures : List RoundFixture)
    → All P fixtures
    → All (λ (x : Entry). P x.1) (index_from n fixtures)
All-index_from P n [] h = tt
All-index_from P n (f ∷ fixtures) h = (h.0, All-index_from P (n + 1) fixtures h.1)

-- With a day of the week in the set, and for every fixture a pool that has an hour of its own, the
-- assigner ends, with a loop of two rounds for each fixture. Every fixture then kicks off on an
-- allowed day, on or after the anchor, at an hour of its own pool, and no two at the same time.
pub assemble_round_kickoffs-IsRound :
    (p : Params) (fixtures : List RoundFixture) (anchor : ℕ)
    → HasWeekday p.allowed_weekdays
    → All (λ f. Ready p (prefer f)) fixtures
    → (out : ℕ → Kickoff) × (assemble_round_kickoffs 2 p fixtures anchor ≡ some out)
      × IsRound p anchor fixtures out
unfolding assemble_round_kickoffs
assemble_round_kickoffs-IsRound p fixtures anchor week ready =
    elim (assemble_round_kickoffs_cases 2 p fixtures anchor week) [
      | inr found ↦ found
      | inl hangs ↦ absurd (
          place_all_ends p anchor week (sort_by packs_before (index_from 0 fixtures))
            (record { slots = []; next_day = anchor }) (λ _. zero_time)
            (All-sort_by (λ (x : Entry). Ready p (prefer x.1)) packs_before (index_from 0 fixtures)
              (All-index_from (λ f. Ready p (prefer f)) 0 fixtures ready))
            (record {
              single = λ d h. omega arith;
              past = λ d h later. refl;
              slots_ok = tt;
              ahead = omega arith;
            })
            hangs)
    ]

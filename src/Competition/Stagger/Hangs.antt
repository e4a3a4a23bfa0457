-- ===== src/Competition/Stagger/Hangs.antt =====
-- Where the placing loop does not end: stagger.go, place.
use touchline.Common.{
  ℕ, zero, suc, ◌+◌, ◌≤◌, ◌≡◌, inl, inr, refl, true, false, ◌&&◌, none, some, List, [], ◌∷◌, arith,
  ltb, Bool-cases, not, Option-cases, elem,
}
use touchline.Common.Sort.{tally, sort_by, tally-sort_by}
use touchline.Competition.Weekdays.{Kickoff, next_allowed_weekday}
use touchline.Competition.Stagger.{
  Pool, ai_pool, same_pool, Slot, Params, Board, RoundFixture, day_slots, add_day, take_slot, place,
  place_all, prefer, write, index_from, packs_before, zero_time, assemble_round_kickoffs,
}
use touchline.Competition.Stagger.Rounds.{Entry}
use touchline.Competition.Stagger.Ends.{
  free, free-append, take_slot-free, Swallowed, none_free-day_slots,
}

free-taken :
    (pref : Pool) (slots slots' : List Slot) (k : Kickoff)
    → take_slot pref slots ≡ some (k, slots')
    → free ai_pool slots ≡ false
    → free ai_pool slots' ≡ false
unfolding take_slot
free-taken pref [] slots' k e h = cc
free-taken pref (s ∷ slots) slots' k e h =
    elim (Bool-cases (same_pool s.pool pref && ltb s.fills 1)) [
      | inl now ↦ ground arith
      | inr later ↦ elim (Option-cases (take_slot pref slots)) [
        | inl n ↦ ground (arith, n)
        | inr ((k', rest), e') ↦ ground (arith, e', free-taken pref slots rest k' e')
      ]
    ]

free-added :
    (p : Params) (b b' : Board)
    → Swallowed p
    → add_day p b ≡ some b'
    → free ai_pool b.slots ≡ false
    → free ai_pool b'.slots ≡ false
unfolding add_day
free-added p b b' all e h =
    elim (Option-cases (next_allowed_weekday b.next_day p.allowed_weekdays)) [
      | inl n ↦ ground (arith, n)
      | inr (day, n) ↦
          ground
            (arith, n, none_free-day_slots p day all, free-append ai_pool b.slots (day_slots p day))
    ]

-- No round of the loop places a day fixture, and an evening fixture leaves no day slot behind.
place_hangs :
    (fuel : ℕ) (p : Params) (b : Board)
    → Swallowed p
    → free ai_pool b.slots ≡ false
    → place fuel p ai_pool b ≡ none
unfolding place
place_hangs zero p b all h = refl
place_hangs (suc fuel) p b all h = elim (Option-cases (add_day p b)) [
  | inl n ↦ ground (arith, n, take_slot-free ai_pool b.slots h)
  | inr (b', e) ↦ ground (
    arith,
    e,
    take_slot-free ai_pool b.slots h,
    place_hangs fuel p b' all (free-added p b b' all e h),
  )
]

place_keeps :
    (fuel : ℕ) (p : Params) (pref : Pool) (b b' : Board) (k : Kickoff)
    → Swallowed p
    → free ai_pool b.slots ≡ false
    → place fuel p pref b ≡ some (k, b')
    → free ai_pool b'.slots ≡ false
unfolding place
place_keeps zero p pref b b' k all h e = cc
place_keeps (suc fuel) p pref b b' k all h e = elim (Option-cases (take_slot pref b.slots)) [
  | inr ((k', slots), t) ↦ ground (arith, t, free-taken pref b.slots slots k' t h)
  | inl n ↦ elim (Option-cases (add_day p b)) [
    | inl n' ↦ ground (arith, n, n')
    | inr (b1, e1) ↦
        place_keeps fuel p pref b1 b' k all (free-added p b b1 all e1 h) (ground (arith, n, e1))
  ]
]

abbrev day_fixtures : List Entry → ℕ
day_fixtures = tally (λ (x : Entry). not x.1.human)

place_all_hangs :
    (fuel : ℕ) (p : Params) (rest : List Entry) (b : Board) (out : ℕ → Kickoff)
    → Swallowed p
    → 1 ≤ day_fixtures rest
    → free ai_pool b.slots ≡ false
    → place_all fuel p rest b out ≡ none
unfolding place_all
place_all_hangs fuel p [] b out all some_day h = absurd (omega arith)
place_all_hangs fuel p ((idx, f) ∷ rest) b out all some_day h =
    elim (Option-cases (place fuel p (prefer f) b)) [
      | inl n ↦ ground (arith, n)
      | inr ((k, b'), e) ↦ elim (Bool-cases f.human) [
        | inr day ↦ ground (arith, place_hangs fuel p b all h)
        | inl evening ↦
            rw (e, place_all)
              (place_all_hangs fuel p rest b' (write out idx k) all (ground arith)
                (place_keeps fuel p (prefer f) b b' k all h e))
      ]
    ]

day_fixtures-index_from :
    (n : ℕ) (fixtures : List RoundFixture)
    → day_fixtures (index_from n fixtures) ≡ tally (λ (f : RoundFixture). not f.human) fixtures
day_fixtures-index_from n [] = refl
day_fixtures-index_from n (f ∷ fixtures) = omega (arith, day_fixtures-index_from (n + 1) fixtures)

-- Where every hour of the day pool is an evening hour as well, which the admin's scheduling rules
-- may declare, the day pool gets no slot, and a round with a fixture of AI clubs only is never
-- assigned: the loop has not ended, whatever the fuel.
pub assemble_round_kickoffs_hangs :
    (fuel : ℕ) (p : Params) (fixtures : List RoundFixture) (anchor : ℕ)
    → ((h : ℕ) → elem h p.ai_hours ≡ true → elem h p.human_hours ≡ true)
    → 1 ≤ tally (λ (f : RoundFixture). not f.human) fixtures
    → assemble_round_kickoffs fuel p fixtures anchor ≡ none
unfolding assemble_round_kickoffs
assemble_round_kickoffs_hangs fuel p fixtures anchor all some_day =
    place_all_hangs fuel p (sort_by packs_before (index_from 0 fixtures))
      (record { slots = []; next_day = anchor }) (λ _. zero_time) all
      (omega (
        arith,
        day_fixtures-index_from 0 fixtures,
        tally-sort_by packs_before (λ (x : Entry). not x.1.human) (index_from 0 fixtures),
      ))
      refl

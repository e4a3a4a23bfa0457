-- ===== src/Competition/Resolve/Sweep/Outcome.antt =====
-- The resolution as a whole: from the fields of the cups to the final assignment.
use touchline.Common.{
  ℕ, ◌+◌, ◌≤◌, ◌≡◌, refl, ◌⊎◌, inl, inr, true, false, some, List, [], ◌∷◌, arith, ltb, ◌==◌, length,
  elem, All, Bool-cases, sym, subst, ==_iff, ==-self, ◌∙◌,
}
use touchline.Common.Sort.{sort_by, tally, tally-sort_by, length-sort_by}
use touchline.Competition.Qualify.Model.{Entrant, Field, seats}
use touchline.Competition.Qualify.Distinct.{contains_club-seats}
use touchline.Competition.Resolve.Winner.{find_field}
use touchline.Competition.Resolve.Sweep.{
  ResolveInput, Sweep, Cascade, entrants_of, start, max_resolution_steps, too_many_steps,
  shrunk_below_two, shrunk, in_any, dropped_champion_in, dropped_champion, sort_entrants,
  sort_cascades, ResolveOutput, output, resolution_impossible, checked, resolve_field,
}
use touchline.Competition.Resolve.Sweep.Rounds.{two_counts, IsSettled, sweep-Ends}
use touchline.Competition.Resolve.Sweep.Start.{ids_of, Usable, start-Inv}

seats-sort_entrants :
    (c : ℕ) (entrants : List Entrant) → seats c (sort_entrants entrants) ≡ seats c entrants
unfolding sort_entrants
seats-sort_entrants c entrants =
    sym (tally-seats (sort_by (λ a b. ltb a.club b.club) entrants))
    ∙ tally-sort_by (λ a b. ltb a.club b.club) (λ e. e.club == c) entrants
    ∙ tally-seats entrants
  where
    tally-seats : (es : List Entrant) → tally (λ (e : Entrant). e.club == c) es ≡ seats c es
    tally-seats [] = refl
    tally-seats (e ∷ es) = omega (arith, tally-seats es)

length-sort_entrants : (entrants : List Entrant) → length (sort_entrants entrants) ≡ length entrants
unfolding sort_entrants
length-sort_entrants entrants = length-sort_by (λ a b. ltb a.club b.club) entrants

in_any_of_seat :
    (assign : ℕ → List Entrant) (fields : List Field) (c k : ℕ)
    → elem k (ids_of fields) ≡ true
    → 1 ≤ seats c (assign k)
    → in_any assign fields c ≡ true
unfolding in_any
in_any_of_seat assign [] c k m h = cc
in_any_of_seat assign (f ∷ fields) c k m h = elim (Bool-cases (f.cup.id == k)) [
  | inl here ↦
      let eq = (==_iff f.cup.id k).0 here in
      let seated : 1 ≤ seats c (assign f.cup.id) = subst (λ j. 1 ≤ seats c (assign j)) (sym eq) h in
      ground (arith, contains_club-seats (assign f.cup.id) c)
  | inr there ↦
      let later = in_any_of_seat assign fields c k (rw there at m) h in ground (arith, later)
]

module _ (assign : ℕ → List Entrant) (fields : List Field) where
  -- Each club of the list is in the assignment of some cup.
  abbrev AllIn : List Entrant → Type 0
  AllIn entrants = (c : ℕ) → 1 ≤ seats c entrants → in_any assign fields c ≡ true

  dropped_champion_in-false :
      (entrants : List Entrant)
      → AllIn entrants
      → dropped_champion_in assign fields entrants ≡ false
  unfolding dropped_champion_in
  dropped_champion_in-false [] h = refl
  dropped_champion_in-false (e ∷ entrants) h =
      let later = dropped_champion_in-false entrants (λ c m. h c (omega arith)) in
      let present = h e.club (rw (==-self e.club) (omega arith)) in ground (arith, later, present)

  dropped_champion-false :
      (fs : List Field) → All (λ f. AllIn f.entrants) fs → dropped_champion assign fields fs ≡ false
  unfolding dropped_champion
  dropped_champion-false [] h = refl
  dropped_champion-false (f ∷ fs) (here, h) =
      let now = dropped_champion_in-false f.entrants here in
      let later = dropped_champion-false fs h in ground (arith, now, later)

  enough_clubs :
      (fs : List Field)
      → shrunk assign fs ≡ false
      → (k : ℕ) → elem k (ids_of fs) ≡ true
      → 2 ≤ length (assign k)
  unfolding shrunk
  enough_clubs [] h k m = cc
  enough_clubs (f ∷ fs) h k m = elim (Bool-cases (f.cup.id == k)) [
    | inl here ↦ subst (λ j. 2 ≤ length (assign j)) ((==_iff f.cup.id k).0 here) (ground (arith, h))
    | inr there ↦ enough_clubs fs (ground (arith, h)) k (rw there at m)
  ]

-- A final assignment: a club has one seat at most in one cup at most, every club of the fields has a
-- seat, and every cup has two clubs at least.
pub record IsResolution (fields : List Field) (assignments : ℕ → List Entrant) : Type 0 where
  pub one_seat : (c k : ℕ) → seats c (assignments k) ≤ 1
  pub one_cup : (c k k' : ℕ) → 1 ≤ seats c (assignments k) → 1 ≤ seats c (assignments k') → k ≡ k'
  pub kept :
      (c k : ℕ) → 1 ≤ seats c (entrants_of fields k) → (k' : ℕ) × (1 ≤ seats c (assignments k'))
  pub two_clubs : (k : ℕ) → elem k (ids_of fields) ≡ true → 2 ≤ length (assignments k)

-- The cup of each field has no other field.
abbrev pub OwnFields : List Field → List Field → Type 0
OwnFields fields fs = All (λ f. find_field fields f.cup.id ≡ some f) fs

module _ (input : ResolveInput) (usable : All Usable input.fields) where
  abbrev fields : List Field
  fields = input.fields

  found_entrants :
      (f : Field) → find_field fields f.cup.id ≡ some f → entrants_of fields f.cup.id ≡ f.entrants
  found_entrants f here = ground (arith, here)

  settled-kept :
      (s : Sweep)
      → IsSettled input (ids_of fields) (start fields) s
      → (c k : ℕ) → 1 ≤ seats c (entrants_of fields k)
      → (k' : ℕ) × (1 ≤ seats c (s.assign k'))
  settled-kept s e c k has =
      let (_, _, counted) = start-Inv fields usable in
      let (k', held) = e.kept c (k, omega (arith, counted c k)) in
      (k', omega (arith, e.inv.booked c k'))

  settled-AllIn :
      (s : Sweep)
      → IsSettled input (ids_of fields) (start fields) s
      → (c k : ℕ) → 1 ≤ seats c (entrants_of fields k)
      → in_any s.assign fields c ≡ true
  settled-AllIn s e c k has =
      let (k', held) = settled-kept s e c k has in
      elim (Bool-cases (elem k' (ids_of fields))) [
        | inl m ↦ in_any_of_seat s.assign fields c k' m held
        | inr m ↦ absurd (omega (arith, e.inv.known c k' m))
      ]

  all_in :
      (s : Sweep)
      → IsSettled input (ids_of fields) (start fields) s
      → (fs : List Field) → OwnFields fields fs
      → All (λ f. AllIn s.assign fields f.entrants) fs
  all_in s e [] own = tt
  all_in s e (f ∷ fs) (here, own) = (
    λ c has.
        settled-AllIn s e c f.cup.id (subst (λ l. 1 ≤ seats c l) (sym (found_entrants f here)) has),
    all_in s e fs own,
  )

  settled-IsResolution :
      (s : Sweep)
      → IsSettled input (ids_of fields) (start fields) s
      → shrunk s.assign fields ≡ false
      → IsResolution fields (λ cup. sort_entrants (s.assign cup))
  settled-IsResolution s e large = record {
    one_seat = λ c k. omega (arith, seats-sort_entrants c (s.assign k), e.inv.single c k);
    one_cup = λ c k k' h h'. elim (Bool-cases (k == k')) [
      | inl same ↦ (==_iff k k').0 same
      | inr other ↦ absurd (
          omega (
            arith,
            two_counts k k' (s.club_cups c) other,
            e.one_cup c,
            e.inv.booked c k,
            e.inv.booked c k',
            seats-sort_entrants c (s.assign k),
            seats-sort_entrants c (s.assign k'),
          ))
    ];
    kept = λ c k has.
        let (k', held) = settled-kept s e c k has in
        (k', omega (arith, seats-sort_entrants c (s.assign k')));
    two_clubs = λ k m.
        let enough = enough_clubs s.assign fields fields large k m in
        omega (arith, length-sort_entrants (s.assign k));
  }

  -- Of fields in which a club has one entry at most, no club has the id 0, and each cup is the cup
  -- of one field, the resolution always returns, within its fuel. It gives up on the step bound, or
  -- for a cup that is left with less than two clubs; else no club is assigned to two cups, no club
  -- of any field is dropped from all of them, and every cup has two clubs at least.
  pub resolve_field-IsResolution :
      OwnFields fields fields
      → (r : ResolveOutput) × (resolve_field input ≡ some r)
        × ((r ≡ resolution_impossible too_many_steps)
            ⊎ ((r ≡ resolution_impossible shrunk_below_two)
                ⊎ ((assignments : ℕ → List Entrant) × (cascades : List Cascade) × (r
                      ≡ output assignments cascades)
                    × IsResolution fields assignments)))
  unfolding resolve_field checked
  resolve_field-IsResolution own =
      let (inv, empty, _) = start-Inv fields usable in
      let none_yet : length (start fields).resolved ≡ 0 = rw empty refl in
      let (r, swept, ends) =
        sweep-Ends input (ids_of fields) (max_resolution_steps fields + 2) (start fields) inv
          (omega (arith, none_yet)) (omega (arith, none_yet)) in
      elim ends [
        | inl over ↦ (
          resolution_impossible too_many_steps,
          rw (swept, resolve_field) (rw over refl),
          inl refl,
        )
        | inr (s, same, e) ↦
            let kept = dropped_champion-false s.assign fields fields (all_in s e fields own) in
            elim (Bool-cases (shrunk s.assign fields)) [
              | inl small ↦ (
                resolution_impossible shrunk_below_two,
                rw (swept, resolve_field) (rw same (rw small refl)),
                inr (inl refl),
              )
              | inr large ↦ (
                output (λ cup. sort_entrants (s.assign cup)) (sort_cascades s.cascades),
                rw (swept, resolve_field) (rw same (rw large (rw kept refl))),
                inr (inr (_, _, refl, settled-IsResolution s e large)),
              )
            ]
      ]

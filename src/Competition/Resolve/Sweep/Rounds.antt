-- ===== src/Competition/Resolve/Sweep/Rounds.antt =====
-- The rounds of the sweep: the double-booked club, its release, and the end of the loop.
use touchline.Common.{
  ℕ, zero, suc, ◌+◌, ◌≤◌, ◌≡◌, refl, ◌⊎◌, inl, inr, true, false, ◌||◌, some, List, [], ◌∷◌, arith,
  ltb, ◌==◌, if◌then◌else◌, length, count, elem, Bool-cases, sym, subst, ==_iff, count_of_elem,
}
use touchline.Common.Sort.{sort_by, count-sort_by, length-sort_by}
use touchline.Competition.Resolve.Winner.{pick_winner}
use touchline.Competition.Resolve.Winner.Best.{pick_winner_best}
use touchline.Competition.Resolve.Sweep.{
  ResolveInput, Sweep, first_double_booked_from, first_double_booked, resolve_club,
  max_resolution_steps, too_many_steps, Swept, settled, impossible, sweep,
}
use touchline.Competition.Resolve.Sweep.Inv.{Inv, losers, release_all-ReleasedAll}

losers-length : (w : ℕ) (cups : List ℕ) → losers w cups + count w cups ≡ length cups
losers-length w [] = omega arith
losers-length w (k ∷ cups) = ground (arith, losers-length w cups)

pub two_counts :
    (k k' : ℕ) (cups : List ℕ) → (k == k') ≡ false → count k cups + count k' cups ≤ length cups
two_counts k k' [] e = omega arith
two_counts k k' (c ∷ cups) e = ground (arith, two_counts k k' cups e)

-- No club of the list has two cups; or the one that is found has.
abbrev IsDouble : (ℕ → List ℕ) → ℕ → Type 0
IsDouble cups c = 2 ≤ length (cups c)

first_double_booked_from_found :
    (best : ℕ) (cups : ℕ → List ℕ) (clubs : List ℕ)
    → length (cups 0) ≤ 1
    → (best ≡ 0) ⊎ IsDouble cups best
    → let r = first_double_booked_from best cups clubs in
      ((r ≡ 0) ⊎ IsDouble cups r)
      × (r ≡ 0 → (best ≡ 0) × ((c : ℕ) → elem c clubs ≡ true → length (cups c) ≤ 1))
unfolding first_double_booked_from
first_double_booked_from_found best cups [] z h = (h, λ e. (e, λ c m. cc))
first_double_booked_from_found best cups (c ∷ clubs) z h =
    let next =
      if ltb (length (cups c)) 2 then best else if best == 0 || ltb c best then c else best in
    let nil : c ≡ 0 → length (cups c) ≤ 1 = λ e. subst (λ x. length (cups x) ≤ 1) (sym e) z in
    let (found, rest) =
      first_double_booked_from_found next cups clubs z
        (elim (Bool-cases (ltb (length (cups c)) 2)) [
          | inl few ↦ rw few h
          | inr many ↦ elim (Bool-cases (best == 0 || ltb c best)) [
            | inl take ↦ rw many (rw take (inr (ground (arith, many))))
            | inr leave ↦ rw many (rw leave h)
          ]
        ]) in
    (
      found,
      λ e.
          let (start, later) = rest e in
          (
            ground (arith, nil),
            λ x m. elim (Bool-cases (c == x)) [
              | inl same ↦
                  let eq = (==_iff c x).0 same in
                  subst (λ y. length (cups y) ≤ 1) eq (ground (arith, nil))
              | inr other ↦ later x (rw other at m)
            ],
          ),
    )

length-nil : (xs : List ℕ) → ((k : ℕ) → count k xs ≡ 0) → length xs ≡ 0
length-nil [] h = refl
length-nil (x ∷ xs) h = absurd (ground (arith, h x))

some_count : (xs : List ℕ) → 1 ≤ length xs → (k : ℕ) × (1 ≤ count k xs)
some_count [] h = absurd (ground arith)
some_count (x ∷ xs) h = (x, ground arith)

zero_or_suc : (n : ℕ) → (n ≡ 0) ⊎ ((m : ℕ) × (n ≡ suc m))
zero_or_suc zero = inl refl
zero_or_suc (suc m) = inr (m, refl)

-- The club has a cup.
abbrev pub HasCup : Sweep → ℕ → Type 0
HasCup s c = (k : ℕ) × (1 ≤ count k (s.club_cups c))

-- A round for a double-booked club succeeds, settles a new pair, and leaves every club a cup.
pub record IsStep (ids : List ℕ) (s s' : Sweep) : Type 0 where
  pub inv : Inv ids s'
  pub grown : length s.resolved + 1 ≤ length s'.resolved
  pub kept : (c : ℕ) → HasCup s c → HasCup s' c

module _ (input : ResolveInput) (ids : List ℕ) where
  resolve_club-IsStep :
      (s : Sweep) (club : ℕ)
      → Inv ids s
      → 2 ≤ length (s.club_cups club)
      → (s' : Sweep) × (resolve_club input club s ≡ some s') × IsStep ids s s'
  unfolding resolve_club
  resolve_club-IsStep s club h double =
      let cups = sort_by ltb (s.club_cups club) in
      let sized = length-sort_by ltb (s.club_cups club) in
      let (w, picked, among) = winner cups (omega (arith, sized)) in
      let counted = λ (k : ℕ). count-sort_by ltb k (s.club_cups club) in
      let (s', done, r) =
        release_all-ReleasedAll input ids club w cups s h (λ k. omega (arith, counted k)) in
      let held : 1 ≤ count w (s.club_cups club) =
        ground (arith, count_of_elem w cups among, counted w) in
      (
        s',
        rw (picked, resolve_club) done,
        record {
          inv = r.inv;
          grown = omega (
            arith,
            r.grown,
            losers-length w cups,
            sized,
            counted w,
            h.booked club w,
            h.single club w,
          );
          kept = λ c (k, has). elim (Bool-cases (c == club)) [
            | inl e ↦
                let eq = (==_iff c club).0 e in
                (
                  w,
                  subst (λ d. 1 ≤ count w (s'.club_cups d)) (sym eq)
                      (omega (arith, held, r.kept club w (ground arith))),
                )
            | inr e ↦ (k, omega (arith, has, r.kept c k (ground (arith, e))))
          ];
        },
      )
    where
      winner :
          (cups : List ℕ)
          → 1 ≤ length cups
          → (w : ℕ) × (pick_winner input.fields input.choices club cups ≡ some w)
            × (elem w cups ≡ true)
      winner [] h = absurd (ground arith)
      winner (k ∷ ks) h =
          let (w, e, m, _) = pick_winner_best input.fields input.choices club k ks in (w, e, m)

  -- The state at the loop's end: no club has two cups, and no club has lost its last.
  pub record IsSettled (s s' : Sweep) : Type 0 where
    pub inv : Inv ids s'
    pub one_cup : (c : ℕ) → length (s'.club_cups c) ≤ 1
    pub kept : (c : ℕ) → HasCup s c → HasCup s' c

  abbrev pub Ends : Sweep → Swept → Type 0
  Ends s r = (r ≡ impossible too_many_steps) ⊎ ((s' : Sweep) × (r ≡ settled s') × IsSettled s s')

  one_cup :
      (s : Sweep) → Inv ids s → first_double_booked s ≡ 0 → (c : ℕ) → length (s.club_cups c) ≤ 1
  unfolding first_double_booked
  one_cup s h none_left c = elim (Bool-cases (ltb (length (s.club_cups c)) 1)) [
    | inl few ↦ ground (arith, few)
    | inr many ↦
        let (k, has) = some_count (s.club_cups c) (ground (arith, many)) in
        let nil = length-nil (s.club_cups 0) (λ j. omega (arith, h.booked 0 j, h.no_nil j)) in
        let (found, rest) =
          first_double_booked_from_found 0 s.club_cups s.clubs (omega (arith, nil)) (inl refl) in
        (rest none_left).1 c (h.keyed c k has)
  ]

  double_booked :
      (s : Sweep)
      → Inv ids s
      → (c : ℕ) → first_double_booked s ≡ suc c
      → 2 ≤ length (s.club_cups (suc c))
  unfolding first_double_booked
  double_booked s h c e =
      let nil = length-nil (s.club_cups 0) (λ j. omega (arith, h.booked 0 j, h.no_nil j)) in
      let (found, rest) =
        first_double_booked_from_found 0 s.club_cups s.clubs (omega (arith, nil)) (inl refl) in
      elim found [
        | inl zero_found ↦ absurd (omega (arith, zero_found, e))
        | inr two ↦ subst (IsDouble s.club_cups) e two
      ]

  then_Ends : (s s' : Sweep) (r : Swept) → IsStep ids s s' → Ends s' r → Ends s r
  then_Ends s s' r step (inl over) = inl over
  then_Ends s s' r step (inr (t, same, at_end)) = inr (
    t,
    same,
    record {
      inv = at_end.inv;
      one_cup = at_end.one_cup;
      kept = λ x has. at_end.kept x (step.kept x has);
    },
  )

  -- From a state within the step bound the loop ends within the fuel that the bound asks for.
  pub sweep-Ends :
      (fuel : ℕ) (s : Sweep)
      → Inv ids s
      → length s.resolved ≤ max_resolution_steps input.fields
      → max_resolution_steps input.fields + 2 ≤ fuel + length s.resolved
      → (r : Swept) × (sweep fuel input s ≡ some r) × Ends s r
  unfolding sweep
  sweep-Ends zero s h few enough = absurd (omega arith)
  sweep-Ends (suc fuel) s h few enough = elim (zero_or_suc (first_double_booked s)) [
    | inl e ↦ (
      settled s,
      rw (e, sweep) refl,
      inr (s, refl, record { inv = h; one_cup = one_cup s h e; kept = λ c has. has }),
    )
    | inr (c, e) ↦
        let (s', done, step) = resolve_club-IsStep s (suc c) h (double_booked s h c e) in
        elim (Bool-cases (ltb (max_resolution_steps input.fields) (length s'.resolved))) [
          | inl over ↦ (impossible too_many_steps, rw (e, sweep) (rw done (rw over refl)), inl refl)
          | inr within ↦
              let (r, swept, ends) =
                sweep-Ends fuel s' step.inv (ground (arith, within)) (omega (arith, step.grown)) in
              (r, rw (e, sweep) (rw done (rw within swept)), then_Ends s s' r step ends)
        ]
  ]

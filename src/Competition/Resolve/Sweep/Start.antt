-- ===== src/Competition/Resolve/Sweep/Start.antt =====
-- The state that the sweep starts from: each seat of the fields is booked, once.
use touchline.Common.{
  ℕ, ◌+◌, ◌≤◌, ◌≡◌, refl, ◌⊎◌, inl, inr, true, false, List, [], ◌∷◌, arith, ◌==◌, if◌then◌else◌,
  count, elem, All, Bool-cases, sym, subst, ◌∙◌, count-append, Option-cases,
}
use touchline.Competition.Qualify.Model.{Entrant, Field, seats}
use touchline.Competition.Qualify.Distinct.{OneSeat}
use touchline.Competition.Resolve.Winner.{find_field}
use touchline.Competition.Resolve.Sweep.{Sweep, entrants_of, book, book_entrants, book_cups, start}
use touchline.Competition.Resolve.Sweep.Inv.{Inv}

abbrev pub ids_of : List Field → List ℕ
ids_of [] = []
ids_of (f ∷ fields) = f.cup.id ∷ ids_of fields

-- The state after bookings: the seats of `assign` are as before, and every booked club is a key.
record IsBooked (s s' : Sweep) : Type 0 where
  same_seats : (c k : ℕ) → seats c (s'.assign k) ≡ seats c (s.assign k)
  same_resolved : s'.resolved ≡ s.resolved
  keyed :
      ((c k : ℕ) → 1 ≤ count k (s.club_cups c) → elem c s.clubs ≡ true)
      → (c k : ℕ) → 1 ≤ count k (s'.club_cups c)
      → elem c s'.clubs ≡ true

count-book :
    (club cup c k : ℕ) (s : Sweep)
    → count k ((book club cup s).club_cups c)
      ≡ count k (s.club_cups c) + (if club == c then if k == cup then 1 else 0 else 0)
unfolding book
count-book club cup c k s = ground (arith, count-append k (s.club_cups club) (cup ∷ []))

elem-book :
    (club cup c : ℕ) (s : Sweep)
    → elem c (book club cup s).clubs ≡ (if club == c then true else elem c s.clubs)
unfolding book
elem-book club cup c s = ground arith

book-IsBooked : (club cup : ℕ) (s : Sweep) → IsBooked s (book club cup s)
book-IsBooked club cup s = record {
  same_seats = λ c k. unfold book in refl;
  same_resolved = unfold book in refl;
  keyed = λ h c k has. ground (arith, h c k, count-book club cup c k s, elem-book club cup c s);
}

IsBooked-trans : {s t u : Sweep} → IsBooked s t → IsBooked t u → IsBooked s u
IsBooked-trans a b = record {
  same_seats = λ c k. b.same_seats c k ∙ a.same_seats c k;
  same_resolved = b.same_resolved ∙ a.same_resolved;
  keyed = λ h. b.keyed (a.keyed h);
}

book_entrants-IsBooked :
    (cup : ℕ) (entrants : List Entrant) (s : Sweep)
    → IsBooked s (book_entrants cup entrants s)
      × ((c k : ℕ)
          → count k ((book_entrants cup entrants s).club_cups c)
            ≡ count k (s.club_cups c) + (if k == cup then seats c entrants else 0))
unfolding book_entrants
book_entrants-IsBooked cup [] s =
    (record { same_seats = λ c k. refl; same_resolved = refl; keyed = λ h. h }, λ c k. ground arith)
book_entrants-IsBooked cup (e ∷ entrants) s =
    let (booked, counted) = book_entrants-IsBooked cup entrants (book e.club cup s) in
    (
      IsBooked-trans (book-IsBooked e.club cup s) booked,
      λ c k. ground (arith, counted c k, count-book e.club cup c k s),
    )

book_cups-IsBooked :
    (seen : List ℕ) (fs : List Field) (s : Sweep)
    → IsBooked s (book_cups seen fs s)
      × ((c k : ℕ)
          → count k ((book_cups seen fs s).club_cups c)
            ≡ count k (s.club_cups c)
              + (if elem k seen then 0 else if elem k (ids_of fs) then seats c (s.assign k) else 0))
unfolding book_cups
book_cups-IsBooked seen [] s =
    (record { same_seats = λ c k. refl; same_resolved = refl; keyed = λ h. h }, λ c k. ground arith)
book_cups-IsBooked seen (f ∷ fs) s = elim (Bool-cases (elem f.cup.id seen)) [
  | inl again ↦
      let (booked, counted) = book_cups-IsBooked seen fs s in
      rw again (booked, λ c k. ground (arith, counted c k, again))
  | inr first ↦
      let s1 = book_entrants f.cup.id (s.assign f.cup.id) s in
      let (booked1, counted1) = book_entrants-IsBooked f.cup.id (s.assign f.cup.id) s in
      let (booked, counted) = book_cups-IsBooked (f.cup.id ∷ seen) fs s1 in
      rw first (
        IsBooked-trans booked1 booked,
        λ c k. ground (arith, counted c k, counted1 c k, booked1.same_seats c k, first),
      )
]

-- What ComputeField provides of a field, and that no club has the id 0.
abbrev pub Usable : Field → Type 0
Usable f = OneSeat f.entrants × (seats 0 f.entrants ≡ 0)

-- The seats of a cup are those of the fields behind, or of the first field, where it is the cup's.
entrants_of-cons :
    (f : Field) (fields : List Field) (k : ℕ)
    → (entrants_of (f ∷ fields) k ≡ entrants_of fields k)
      ⊎ (((f.cup.id == k) ≡ true) × (entrants_of (f ∷ fields) k ≡ f.entrants))
unfolding find_field
entrants_of-cons f fields k = elim (Option-cases (find_field fields k)) [
  | inr (g, later) ↦ inl (ground (arith, later))
  | inl absent ↦ elim (Bool-cases (f.cup.id == k)) [
    | inl own ↦ inr (own, ground (arith, absent, own))
    | inr other ↦ inl (ground (arith, absent, other))
  ]
]

entrants_of-Usable :
    (fields : List Field)
    → All Usable fields
    → (k : ℕ)
    → OneSeat (entrants_of fields k)
      × (seats 0 (entrants_of fields k) ≡ 0)
      × ((c : ℕ) → elem k (ids_of fields) ≡ false → seats c (entrants_of fields k) ≡ 0)
unfolding find_field
entrants_of-Usable [] h k = (λ c. omega arith, refl, λ c e. refl)
entrants_of-Usable (f ∷ fields) (hf, h) k =
    let (one, nil, known) = entrants_of-Usable fields h k in
    elim (entrants_of-cons f fields k) [
      | inl e ↦ (
        λ c. subst (λ l. seats c l ≤ 1) (sym e) (one c),
        subst (λ l. seats 0 l ≡ 0) (sym e) nil,
        λ c m. subst (λ l. seats c l ≡ 0) (sym e) (known c (ground (arith, m))),
      )
      | inr (own, e) ↦ (
        λ c. subst (λ l. seats c l ≤ 1) (sym e) (hf.0 c),
        subst (λ l. seats 0 l ≡ 0) (sym e) hf.1,
        λ c m. absurd (ground (arith, m)),
      )
    ]

-- At the start each club of a field has the field's cup.
pub start-Inv :
    (fields : List Field)
    → All Usable fields
    → Inv (ids_of fields) (start fields)
      × ((start fields).resolved ≡ [])
      × ((c k : ℕ) → count k ((start fields).club_cups c) ≡ seats c (entrants_of fields k))
unfolding start
start-Inv fields h =
    let s0 : Sweep = record {
      assign = entrants_of fields;
      clubs = [];
      club_cups = λ _. [];
      resolved = [];
      cascades = [];
    } in
    let (booked, counted) = book_cups-IsBooked [] fields s0 in
    let all_counted : (c k : ℕ)
        → count k ((start fields).club_cups c) ≡ seats c (entrants_of fields k) =
      λ c k. ground (arith, counted c k, (entrants_of-Usable fields h k).2 c) in
    (
      record {
        booked = λ c k. all_counted c k ∙ sym (booked.same_seats c k);
        single = λ c k. omega (arith, booked.same_seats c k, (entrants_of-Usable fields h k).0 c);
        decided = λ c k e. absurd (ground (arith, e, booked.same_resolved));
        keyed = booked.keyed (λ c k e. absurd (ground arith));
        known = λ c k e. booked.same_seats c k ∙ (entrants_of-Usable fields h k).2 c e;
        no_nil = λ k. booked.same_seats 0 k ∙ (entrants_of-Usable fields h k).1;
      },
      booked.same_resolved,
      all_counted,
    )

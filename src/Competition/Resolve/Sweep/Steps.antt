-- ===== src/Competition/Resolve/Sweep/Steps.antt =====
-- What one step of the sweep does to the seats and to the booked cups of each club.
use touchline.Common.{
  ℕ, ◌+◌, ◌≡◌, refl, ◌⊎◌, inl, inr, true, false, ◌&&◌, ◌||◌, Option, none, some, List, [], ◌∷◌,
  ◌++◌, arith, ◌==◌, if◌then◌else◌, count, elem, drop, count-append, Bool-cases, ==_iff,
}
use touchline.Competition.Qualify.Model.{Origin, Band, Table, Entrant, Field, seats, contains_club}
use touchline.Competition.Qualify.Core.{effective_to, find_band}
use touchline.Competition.Qualify.Distinct.{seats-append, contains_club-seats}
use touchline.Competition.Resolve.Cascade.{
  bands_of, league_of_entry, is_resolved, first_free, replacement_from, cascade_replacement,
  remove_entrant, drop_cup, rank_of,
}
use touchline.Competition.Resolve.Sweep.{ResolveInput, Sweep, book, promote, settle_for}

pub seats-remove_entrant :
    (entrants : List Entrant) (club : ℕ)
    → (remove_entrant entrants club ≡ none) × (seats club entrants ≡ 0)
      ⊎ ((rest : List Entrant) × (remove_entrant entrants club ≡ some rest)
          × ((c : ℕ) → seats c rest + (if club == c then 1 else 0) ≡ seats c entrants))
unfolding remove_entrant
seats-remove_entrant [] club = inl (refl, refl)
seats-remove_entrant (e ∷ entrants) club = elim (Bool-cases (e.club == club)) [
  | inl here ↦ inr (entrants, ground (arith, here), λ c. ground (arith, here))
  | inr other ↦ elim (seats-remove_entrant entrants club) [
    | inl (gone, no_seat) ↦ inl (ground (arith, other, gone), ground (arith, other, no_seat))
    | inr (rest, found, kept) ↦
        inr (e ∷ rest, ground (arith, other, found), λ c. omega (arith, kept c))
  ]
]

pub count-drop_cup :
    (cups : List ℕ) (cup k : ℕ)
    → count k (drop_cup cups cup) ≡ (if k == cup then 0 else count k cups)
unfolding drop_cup
count-drop_cup [] cup k = ground arith
count-drop_cup (c ∷ cups) cup k = ground (arith, count-drop_cup cups cup k)

-- No club, or one that is neither seated nor settled.
abbrev pub IsFree : List Entrant → List (ℕ × ℕ) → ℕ → ℕ → Type 0
IsFree seated resolved cup rep =
    (rep ≡ 0) ⊎ ((seats rep seated ≡ 0) × (is_resolved resolved rep cup ≡ false))

first_free-IsFree :
    (seated : List Entrant) (resolved : List (ℕ × ℕ)) (cup : ℕ) (ranks : List ℕ)
    → IsFree seated resolved cup (first_free seated resolved cup ranks)
unfolding first_free
first_free-IsFree seated resolved cup [] = inl refl
first_free-IsFree seated resolved cup (c ∷ ranks) =
    elim (Bool-cases (contains_club seated c || is_resolved resolved c cup)) [
      | inl taken ↦ rw taken (first_free-IsFree seated resolved cup ranks)
      | inr free ↦
          rw free (inr (ground (arith, contains_club-seats seated c, free), ground (arith, free)))
    ]

replacement_from-IsFree :
    (seated : List Entrant) (resolved : List (ℕ × ℕ)) (cup : ℕ) (b : Option Band) (t : Option Table)
    → IsFree seated resolved cup (replacement_from seated resolved cup b t)
unfolding replacement_from
replacement_from-IsFree seated resolved cup none t = inl refl
replacement_from-IsFree seated resolved cup (some b) none = inl refl
replacement_from-IsFree seated resolved cup (some b) (some t) =
    first_free-IsFree seated resolved cup (drop (effective_to t.ranks b.to) t.ranks)

-- A replacement is no club of the cup, and none that has lost its seat there.
pub cascade_replacement-IsFree :
    (fields : List Field) (tables : ℕ → Option Table) (seated : List Entrant) (cup club : ℕ)
    (resolved : List (ℕ × ℕ))
    → IsFree seated resolved cup (cascade_replacement fields tables seated cup club resolved)
unfolding cascade_replacement
cascade_replacement-IsFree fields tables seated cup club resolved =
    let league = league_of_entry (bands_of fields cup) tables club in
    elim (Bool-cases (league == 0)) [
      | inl unknown ↦ rw unknown (inl refl)
      | inr known ↦ rw known (
          replacement_from-IsFree seated resolved cup (find_band (bands_of fields cup) league)
            (tables league))
    ]

-- The seats that a replacement adds to the cup.
abbrev pub gain : ℕ → ℕ → ℕ → ℕ → ℕ
gain loser rep c k = if rep == 0 then 0 else if k == loser then if rep == c then 1 else 0 else 0

module _ (input : ResolveInput) (loser rep : ℕ) (s : Sweep) where
  abbrev seat : Entrant
  seat = record {
    club = rep;
    origin = Origin.cascade_replacement;
    rank = rank_of input.tables loser rep input.fields;
  }

  seats-promote :
      (c k : ℕ)
      → seats c ((promote input loser rep s).assign k) ≡ seats c (s.assign k) + gain loser rep c k
  unfolding promote book
  seats-promote c k = elim (Bool-cases (rep == 0)) [
    | inl e ↦ rw e (omega arith)
    | inr e ↦ rw e (ground (arith, seats-append c (s.assign loser) (seat ∷ []), e))
  ]

  count-promote :
      (c k : ℕ)
      → count k ((promote input loser rep s).club_cups c)
        ≡ count k (s.club_cups c) + gain loser rep c k
  unfolding promote book
  count-promote c k = elim (Bool-cases (rep == 0)) [
    | inl e ↦ rw e (omega arith)
    | inr e ↦ rw e (ground (arith, count-append k (s.club_cups rep) (loser ∷ []), e))
  ]

  elem-promote :
      (c : ℕ)
      → elem c (promote input loser rep s).clubs
        ≡ (if rep == 0 then elem c s.clubs else if rep == c then true else elem c s.clubs)
  unfolding promote book
  elem-promote c = ground arith

module _ (input : ResolveInput) (club winner loser : ℕ) (resolved : List (ℕ × ℕ)) (rep : ℕ)
    (s : Sweep) where
  abbrev logged : Sweep
  logged = record s {
    resolved = resolved;
    cascades =
        s.cascades
        ++ record { club = club; lost_cup = loser; kept_cup = winner; replacement = rep } ∷ [];
  }

  abbrev after : Sweep
  after = settle_for input club winner loser resolved rep s

  -- The replacement has one seat more in `loser`; all else is as it was.
  pub seats-settle_for :
      (c k : ℕ) → seats c (after.assign k) ≡ seats c (s.assign k) + gain loser rep c k
  unfolding settle_for
  seats-settle_for c k = seats-promote input loser rep logged c k

  pub count-settle_for :
      (c k : ℕ)
      → count k (after.club_cups c)
        ≡ (if c == club && k == loser then 0 else count k (s.club_cups c) + gain loser rep c k)
  unfolding settle_for
  count-settle_for c k =
      let p = promote input loser rep logged in
      elim (Bool-cases (c == club)) [
        | inl e ↦
            let same : c ≡ club = (==_iff c club).0 e in
            rw e (
              ground (
                arith,
                count-drop_cup (p.club_cups club) loser k,
                count-promote input loser rep logged c k,
                same,
              ))
        | inr e ↦ rw e (count-promote input loser rep logged c k)
      ]

  pub resolved-settle_for : after.resolved ≡ resolved
  unfolding settle_for promote book
  resolved-settle_for = ground arith

  pub elem-settle_for :
      (c : ℕ)
      → elem c after.clubs
        ≡ (if rep == 0 then elem c s.clubs else if rep == c then true else elem c s.clubs)
  unfolding settle_for
  elem-settle_for c = elem-promote input loser rep logged c

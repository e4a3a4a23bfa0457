-- ===== src/Competition/Resolve/Sweep/Inv.antt =====
-- What holds in every state of the sweep, and that the release of a club from a cup keeps it.
use touchline.Common.{
  ℕ, suc, ◌+◌, ◌≤◌, ◌≡◌, refl, inl, inr, Bool, true, false, ◌&&◌, some, List, [], ◌∷◌, arith, ◌==◌,
  if◌then◌else◌, length, count, elem, Bool-cases, subst, ==-self, ◌∙◌, not,
}
use touchline.Competition.Qualify.Model.{Entrant, seats}
use touchline.Competition.Resolve.Cascade.{is_resolved, cascade_replacement}
use touchline.Competition.Resolve.Sweep.{
  ResolveInput, Sweep, put, settle_for, settle, add_pair, release, release_all,
}
use touchline.Competition.Resolve.Sweep.Steps.{
  seats-remove_entrant, IsFree, cascade_replacement-IsFree, seats-settle_for, count-settle_for,
  resolved-settle_for, elem-settle_for,
}

-- The booked cups of a club are the cups in which it has a seat, one seat in each; a settled pair
-- has no seat; a club with a cup is a key; only the cups `ids` have seats; and no seat is of the
-- club 0.
pub record Inv (ids : List ℕ) (s : Sweep) : Type 0 where
  pub booked : (c k : ℕ) → count k (s.club_cups c) ≡ seats c (s.assign k)
  pub single : (c k : ℕ) → seats c (s.assign k) ≤ 1
  pub decided : (c k : ℕ) → is_resolved s.resolved c k ≡ true → seats c (s.assign k) ≡ 0
  pub keyed : (c k : ℕ) → 1 ≤ count k (s.club_cups c) → elem c s.clubs ≡ true
  pub known : (c k : ℕ) → elem k ids ≡ false → seats c (s.assign k) ≡ 0
  pub no_nil : (k : ℕ) → seats 0 (s.assign k) ≡ 0

-- A state after the release of `club` from `loser`: one pair more is settled, and no other seat is
-- lost.
pub record Released (ids : List ℕ) (club loser : ℕ) (s s' : Sweep) : Type 0 where
  pub inv : Inv ids s'
  pub kept :
      (c k : ℕ)
      → (c == club && k == loser) ≡ false
      → count k (s.club_cups c) ≤ count k (s'.club_cups c)
  pub grown : length s'.resolved ≡ suc (length s.resolved)

module _ (input : ResolveInput) (ids : List ℕ) (club winner loser : ℕ) (s : Sweep)
    (h : Inv ids s) where
  settle_for-Released :
      (rest : List Entrant) (rep : ℕ) (resolved : List (ℕ × ℕ))
      → ((c : ℕ) → seats c rest + (if club == c then 1 else 0) ≡ seats c (s.assign loser))
      → resolved ≡ (club, loser) ∷ s.resolved
      → IsFree rest resolved loser rep
      → Released ids club loser s (
          settle_for input club winner loser resolved rep
            (record s { assign = put s.assign loser rest }))
  settle_for-Released rest rep resolved left same free =
      let s1 : Sweep = record s { assign = put s.assign loser rest } in
      let s2 = settle_for input club winner loser resolved rep s1 in
      let seated = seats-settle_for input club winner loser resolved rep s1 in
      let counted = count-settle_for input club winner loser resolved rep s1 in
      let same2 : s2.resolved ≡ (club, loser) ∷ s.resolved =
        resolved-settle_for input club winner loser resolved rep s1 ∙ same in
      record {
        inv = record {
          booked =
              λ c k. ground (arith, seated c k, counted c k, left c, h.booked c k, h.single c k);
          single = λ c k. ground (arith, seated c k, left c, h.single c k, free);
          decided = λ c k e.
              ground (arith, seated c k, left c, h.single c k, free, h.decided c k, same2, same);
          keyed = λ c k e. ground (
            arith,
            counted c k,
            elem-settle_for input club winner loser resolved rep s1 c,
            h.keyed c k,
          );
          known = λ c k e.
              ground (arith, seated c k, left c, left club, h.known c k e, h.known club k e);
          no_nil = λ k. ground (arith, seated 0 k, left 0, h.no_nil k, h.no_nil loser);
        };
        kept = λ c k other. ground (arith, counted c k, other);
        grown = ground (arith, same2);
      }

  -- A club that has a seat in `loser` is released from it: the error "held no seat" is not met.
  pub release-Released :
      1 ≤ count loser (s.club_cups club)
      → (s' : Sweep) × (release input club winner loser s ≡ some s') × Released ids club loser s s'
  unfolding release settle
  release-Released holds = elim (seats-remove_entrant (s.assign loser) club) [
    | inl (gone, no_seat) ↦ absurd (ground (arith, h.booked club loser))
    | inr (rest, found, left) ↦
        let resolved = add_pair s.resolved club loser in
        let rep =
          cascade_replacement input.fields input.tables (put s.assign loser rest loser) loser club
            resolved in
        let fresh : is_resolved s.resolved club loser ≡ false =
          elim (Bool-cases (is_resolved s.resolved club loser)) [
            | inl e ↦ absurd (omega (arith, h.booked club loser, h.decided club loser e))
            | inr e ↦ e
          ] in
        let here : put s.assign loser rest loser ≡ rest = rw (==-self loser) refl in
        (
          settle_for input club winner loser resolved rep
              (record s { assign = put s.assign loser rest }),
          rw (found, release) refl,
          settle_for-Released rest rep resolved left (rw fresh refl) (
              subst (λ l. IsFree l resolved loser rep) here
                (cascade_replacement-IsFree input.fields input.tables
                  (put s.assign loser rest loser) loser club resolved)),
        )
  ]

-- How many cups of the list the club loses.
abbrev pub losers : ℕ → List ℕ → ℕ
losers winner [] = 0
losers winner (k ∷ cups) = (if k == winner then 0 else 1) + losers winner cups

abbrev pub loses : ℕ → ℕ → ℕ → List ℕ → ℕ → Bool
loses c club winner cups k = c == club && elem k cups && not (k == winner)

pub record ReleasedAll (ids : List ℕ) (club winner : ℕ) (cups : List ℕ) (s s' : Sweep)
    : Type 0 where
  pub inv : Inv ids s'
  pub kept :
      (c k : ℕ)
      → loses c club winner cups k ≡ false
      → count k (s.club_cups c) ≤ count k (s'.club_cups c)
  pub grown : length s'.resolved ≡ losers winner cups + length s.resolved

module _ (input : ResolveInput) (ids : List ℕ) (club winner : ℕ) where
  pub release_all-ReleasedAll :
      (cups : List ℕ) (s : Sweep)
      → Inv ids s
      → ((k : ℕ) → count k cups ≤ count k (s.club_cups club))
      → (s' : Sweep) × (release_all input club winner cups s ≡ some s')
        × ReleasedAll ids club winner cups s s'
  unfolding release_all
  release_all-ReleasedAll [] s h holds =
      (s, refl, record { inv = h; kept = λ c k e. omega arith; grown = omega arith })
  release_all-ReleasedAll (cup ∷ cups) s h holds = elim (Bool-cases (cup == winner)) [
    | inl won ↦
        let (s', done, r) = release_all-ReleasedAll cups s h (λ k. omega (arith, holds k)) in
        (
          s',
          rw won done,
          record {
            inv = r.inv;
            kept = λ c k e. r.kept c k (ground (arith, e, won));
            grown = ground (arith, r.grown, won);
          },
        )
    | inr lost ↦
        let (s1, released, r1) =
          release-Released input ids club winner cup s h (ground (arith, holds cup)) in
        let (s', done, r) =
          release_all-ReleasedAll cups s1 r1.inv
            (λ k. ground (arith, holds k, r1.kept club k, h.booked club k, h.single club k)) in
        (
          s',
          rw lost (rw released done),
          record {
            inv = r.inv;
            kept = λ c k e. omega (
              arith,
              r1.kept c k (ground (arith, e, lost)),
              r.kept c k (ground (arith, e, lost)),
            );
            grown = ground (arith, r.grown, r1.grown, lost);
          },
        )
  ]

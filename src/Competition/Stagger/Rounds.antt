-- ===== src/Competition/Stagger/Rounds.antt =====
-- A whole round: stagger.go, assembleRoundKickoffs.
use touchline.Common.{
  ℕ, ◌+◌, ◌≤◌, ◌<◌, ◌≡◌, ◌⊎◌, inl, inr, refl, Bool, true, false, none, some, List, [], ◌∷◌, arith,
  ◌==◌, if◌then◌else◌, Bool-cases, All, sym, subst, length, ==-self,
}
use native.Mathlib.Decide.{ℕ_discrete}
use touchline.Common.Sort.{tally, insert_by, sort_by, tally-sort_by}
use touchline.Competition.Weekdays.{Kickoff}
use touchline.Competition.Weekdays.Search.{HasWeekday}
use touchline.Competition.Stagger.{
  Params, Board, RoundFixture, place_all, prefer, write, index_from, packs_before, zero_time,
  assemble_round_kickoffs,
}
use touchline.Competition.Stagger.Slots.{at_time, load, IsKick, IsBoard, load-le-capacity}
use touchline.Competition.Stagger.Distinct.{IsPlaced, place-IsPlaced}

abbrev pub Entry : Type 0
Entry = ℕ × RoundFixture

-- How many of the entries kick off at a day and an hour.
abbrev pub hits : ℕ → ℕ → (ℕ → Kickoff) → List Entry → ℕ
hits d h out = tally (λ (x : Entry). at_time d h (out x.0).day (out x.0).hour)

abbrev indexed : ℕ → List Entry → ℕ
indexed i = tally (λ (x : Entry). x.0 == i)

-- Each entry kicks off in order, in its own pool.
abbrev pub AllKicks : Params → ℕ → (ℕ → Kickoff) → List Entry → Type 0
AllKicks p anchor out = All (λ (x : Entry). IsKick p anchor (prefer x.1) (out x.0))

hits-write :
    (d h idx : ℕ) (k : Kickoff) (out : ℕ → Kickoff) (xs : List Entry)
    → indexed idx xs ≡ 0
    → hits d h (write out idx k) xs ≡ hits d h out xs
hits-write d h idx k out [] z = refl
hits-write d h idx k out ((i, f) ∷ xs) z = ground (arith, hits-write d h idx k out xs)

AllKicks-write :
    (p : Params) (anchor idx : ℕ) (k : Kickoff) (out : ℕ → Kickoff) (xs : List Entry)
    → indexed idx xs ≡ 0
    → AllKicks p anchor out xs
    → AllKicks p anchor (write out idx k) xs
AllKicks-write p anchor idx k out [] z ok = tt
AllKicks-write p anchor idx k out ((i, f) ∷ xs) z ok =
    let other : (i == idx) ≡ false = ground (arith, z) in
    (rw other ok.0, AllKicks-write p anchor idx k out xs (ground (arith, other)) ok.1)

record Inv (p : Params) (anchor : ℕ) (b : Board) (out : ℕ → Kickoff) (done : List Entry)
    : Type 0 where
  board_ok : IsBoard p anchor b
  loaded : (d h : ℕ) → hits d h out done ≡ load d h b.slots
  kicks : AllKicks p anchor out done

module _ (p : Params) (anchor : ℕ) (week : HasWeekday p.allowed_weekdays) where
  step-Inv :
      (idx : ℕ) (f : RoundFixture) (b b' : Board) (k : Kickoff) (out : ℕ → Kickoff)
      (done : List Entry)
      → indexed idx done ≡ 0
      → Inv p anchor b out done
      → IsPlaced p anchor (prefer f) b k b'
      → Inv p anchor b' (write out idx k) ((idx, f) ∷ done)
  step-Inv idx f b b' k out done new inv placed = record {
    board_ok = placed.board_ok;
    loaded =
        λ d h. ground (arith, placed.one_more d h, hits-write d h idx k out done, inv.loaded d h);
    kicks = (
      subst (λ v. IsKick p anchor (prefer f) (if v then k else out idx)) (sym (==-self idx))
          placed.kick_ok,
      AllKicks-write p anchor idx k out done new inv.kicks,
    );
  }

  place_all_keeps :
      (fuel : ℕ) (rest done : List Entry) (b : Board) (out : ℕ → Kickoff)
      → ((i : ℕ) → indexed i done + indexed i rest ≤ 1)
      → Inv p anchor b out done
      → (place_all fuel p rest b out ≡ none)
        ⊎ ((out' : ℕ → Kickoff) × (place_all fuel p rest b out ≡ some out')
            × AllKicks p anchor out' done
            × AllKicks p anchor out' rest
            × ((d h : ℕ) → hits d h out' done + hits d h out' rest ≤ 1))
  unfolding place_all
  place_all_keeps fuel [] done b out fresh inv = inr (
    out,
    refl,
    inv.kicks,
    tt,
    λ d h. omega (
      arith,
      inv.loaded d h,
      load-le-capacity p anchor d h b.slots inv.board_ok.slots_ok,
      inv.board_ok.single d h,
    ),
  )
  place_all_keeps fuel ((idx, f) ∷ rest) done b out fresh inv =
      elim (place-IsPlaced p anchor week fuel (prefer f) b inv.board_ok) [
        | inl hangs ↦ inl (rw (hangs, place_all))
        | inr (k, b', e, placed) ↦
            let new : indexed idx done ≡ 0 = ground (arith, fresh idx) in
            let inv' = step-Inv idx f b b' k out done new inv placed in
            elim (place_all_keeps fuel rest ((idx, f) ∷ done) b' (write out idx k)
              (λ i. omega (arith, fresh i)) inv') [
                | inl hangs ↦ inl (rw (e, place_all) hangs)
                | inr (out', e', kicks, more, few) ↦ inr (
                  out',
                  rw (e, place_all) e',
                  kicks.1,
                  (kicks.0, more),
                  λ d h. omega (arith, few d h),
                )
              ]
      ]

All-insert_by :
    (P : Entry → Type 0) (before : Entry → Entry → Bool) (x : Entry) (xs : List Entry)
    → All P (insert_by before x xs)
    → P x × All P xs
unfolding insert_by
All-insert_by P before x [] h = h
All-insert_by P before x (y ∷ ys) h = elim (Bool-cases (before y x)) [
  | inl e ↦
      let h' : All P (y ∷ insert_by before x ys) = rw (e, insert_by) at h in
      let (hx, hys) = All-insert_by P before x ys h'.1 in (hx, (h'.0, hys))
  | inr e ↦ rw (e, insert_by) at h
]

All-of_sorted :
    (P : Entry → Type 0) (before : Entry → Entry → Bool) (xs : List Entry)
    → All P (sort_by before xs)
    → All P xs
unfolding sort_by
All-of_sorted P before [] h = tt
All-of_sorted P before (x ∷ xs) h =
    let (hx, hxs) = All-insert_by P before x (sort_by before xs) h in
    (hx, All-of_sorted P before xs hxs)

indexed-index_from :
    (i n : ℕ) (fixtures : List RoundFixture)
    → (indexed i (index_from n fixtures) ≤ 1) × (i < n → indexed i (index_from n fixtures) ≡ 0)
indexed-index_from i n [] = (omega arith, λ lt. refl)
indexed-index_from i n (f ∷ fixtures) =
    let (one, none_before) = indexed-index_from i (n + 1) fixtures in
    (ground (arith, one, none_before), λ lt. ground (arith, none_before))

module _ (d h : ℕ) (out : ℕ → Kickoff) where
  abbrev Kicks : ℕ → Type 0
  Kicks i = at_time d h (out i).day (out i).hour ≡ true

  hits_one :
      (i n : ℕ) (fixtures : List RoundFixture)
      → n ≤ i
      → i < n + length fixtures
      → Kicks i
      → 1 ≤ hits d h out (index_from n fixtures)
  hits_one i n [] lo hi k = absurd (omega arith)
  hits_one i n (f ∷ fixtures) lo hi k = elim (ℕ_discrete i n) [
    | yes e ↦ let k' = rw e at k in rw k' (omega arith)
    | no other ↦
        let later = hits_one i (n + 1) fixtures (omega arith) (omega arith) k in
        omega (arith, later)
  ]

  hits_two :
      (i j n : ℕ) (fixtures : List RoundFixture)
      → n ≤ i
      → i < j
      → j < n + length fixtures
      → Kicks i
      → Kicks j
      → 2 ≤ hits d h out (index_from n fixtures)
  hits_two i j n [] lo lt hi k k' = absurd (omega arith)
  hits_two i j n (f ∷ fixtures) lo lt hi k k' = elim (ℕ_discrete i n) [
    | yes e ↦
        let now = rw e at k in
        let later = hits_one j (n + 1) fixtures (omega arith) (omega arith) k' in
        rw now (omega (arith, later))
    | no other ↦
        let later = hits_two i j (n + 1) fixtures (omega arith) lt (omega arith) k k' in
        omega (arith, later)
  ]

-- A sound round: every fixture kicks off on an allowed day, not before the anchor, at an hour of
-- its own pool, and no two fixtures kick off at one time.
pub record IsRound (p : Params) (anchor : ℕ) (fixtures : List RoundFixture) (out : ℕ → Kickoff)
    : Type 0 where
  pub kicks : AllKicks p anchor out (index_from 0 fixtures)
  pub apart :
      (i j : ℕ)
      → i < j
      → j < length fixtures
      → ¬ (((out i).day ≡ (out j).day) × ((out i).hour ≡ (out j).hour))

at_own_time : (k : Kickoff) → at_time k.day k.hour k.day k.hour ≡ true
at_own_time k = ground arith

-- Whatever the fuel: either the loop has not ended, or the round is sound.
pub assemble_round_kickoffs_cases :
    (fuel : ℕ) (p : Params) (fixtures : List RoundFixture) (anchor : ℕ)
    → HasWeekday p.allowed_weekdays
    → (assemble_round_kickoffs fuel p fixtures anchor ≡ none)
      ⊎ ((out : ℕ → Kickoff) × (assemble_round_kickoffs fuel p fixtures anchor ≡ some out)
          × IsRound p anchor fixtures out)
unfolding assemble_round_kickoffs
assemble_round_kickoffs_cases fuel p fixtures anchor week =
    let entries = index_from 0 fixtures in
    let sorted = sort_by packs_before entries in
    let empty : Board = record { slots = []; next_day = anchor } in
    let start : Inv p anchor empty (λ _. zero_time) [] = record {
      board_ok = record {
        single = λ d h. omega arith;
        past = λ d h later. refl;
        slots_ok = tt;
        ahead = omega arith;
      };
      loaded = λ d h. refl;
      kicks = tt;
    } in
    let fresh : (i : ℕ) → indexed i [] + indexed i sorted ≤ 1 = λ i. omega (
      arith,
      tally-sort_by packs_before (λ (x : Entry). x.0 == i) entries,
      (indexed-index_from i 0 fixtures).0,
    ) in
    elim (place_all_keeps p anchor week fuel sorted [] empty (λ _. zero_time) fresh start) [
      | inl hangs ↦ inl hangs
      | inr (out, e, _, kicks, few) ↦ inr (
        out,
        e,
        record {
          kicks =
              All-of_sorted (λ (x : Entry). IsKick p anchor (prefer x.1) (out x.0)) packs_before
                entries kicks;
          apart = λ i j lt hi same.
              let d = (out i).day in
              let h = (out i).hour in
              let both =
                hits_two d h out i j 0 fixtures (omega arith) lt (omega arith) (at_own_time (out i))
                  (rw (same.0, same.1) (at_own_time (out j))) in
              omega (
                arith,
                both,
                few d h,
                tally-sort_by packs_before (λ (x : Entry). at_time d h (out x.0).day (out x.0).hour)
                    entries,
              );
        },
      )
    ]

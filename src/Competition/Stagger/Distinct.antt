-- ===== src/Competition/Stagger/Distinct.antt =====
-- What the assigner hands out: stagger.go, place and the loop over the packing order.
use touchline.Common.{
  ℕ, zero, suc, ◌+◌, ◌≡◌, ◌⊎◌, inl, inr, refl, true, ◌&&◌, none, some, List, [], ◌∷◌, arith, ltb,
  if◌then◌else◌, Bool-cases, All, subst,
}
use touchline.Competition.Weekdays.{Kickoff}
use touchline.Competition.Weekdays.Search.{HasWeekday}
use touchline.Competition.Stagger.{
  Pool, human_pool, ai_pool, same_pool, Slot, Params, Board, kick_of, take_slot, place,
}
use touchline.Competition.Stagger.Slots.{
  at_time, capacity, load, IsKick, IsSlot, IsBoard, add_day-IsBoard,
}

same_pool-eq : (a b : Pool) → same_pool a b ≡ true → a ≡ b
same_pool-eq human_pool human_pool h = refl
same_pool-eq ai_pool ai_pool h = refl
same_pool-eq human_pool ai_pool h = cc
same_pool-eq ai_pool human_pool h = cc

abbrev once : ℕ → ℕ → Kickoff → ℕ
once d h k = if at_time d h k.day k.hour then 1 else 0

-- `slots'` is `slots` with one more fixture, kicking off at `k`.
record IsTaken (p : Params) (anchor : ℕ) (pref : Pool) (slots : List Slot) (k : Kickoff)
    (slots' : List Slot) : Type 0 where
  same_capacity : (d h : ℕ) → capacity d h slots' ≡ capacity d h slots
  one_more : (d h : ℕ) → load d h slots' ≡ load d h slots + once d h k
  slots_ok : All (IsSlot p anchor) slots'
  kick_ok : IsKick p anchor pref k

module _ (p : Params) (anchor : ℕ) (pref : Pool) where
  IsTaken-here :
      (s : Slot) (slots : List Slot)
      → same_pool s.pool pref && ltb s.fills 1 ≡ true
      → All (IsSlot p anchor) (s ∷ slots)
      → IsTaken p anchor pref (s ∷ slots) (kick_of s) (record s { fills = s.fills + 1 } ∷ slots)
  IsTaken-here s slots free ok = record {
    same_capacity = λ d h. refl;
    one_more = λ d h. ground arith;
    slots_ok = (record { kick = ok.0.kick; one_at_most = ground arith }, ok.1);
    kick_ok =
        subst (λ pool. IsKick p anchor pool (kick_of s)) (same_pool-eq s.pool pref (ground arith))
          ok.0.kick;
  }

  IsTaken-later :
      (s : Slot) (slots slots' : List Slot) (k : Kickoff)
      → IsSlot p anchor s
      → IsTaken p anchor pref slots k slots'
      → IsTaken p anchor pref (s ∷ slots) k (s ∷ slots')
  IsTaken-later s slots slots' k ok t = record {
    same_capacity = λ d h. omega (arith, t.same_capacity d h);
    one_more = λ d h. omega (arith, t.one_more d h);
    slots_ok = (ok, t.slots_ok);
    kick_ok = t.kick_ok;
  }

  -- The search finds no free slot, or it takes one.
  take_slot-IsTaken :
      (slots : List Slot)
      → All (IsSlot p anchor) slots
      → (take_slot pref slots ≡ none)
        ⊎ ((k : Kickoff) × (slots' : List Slot) × (take_slot pref slots ≡ some (k, slots'))
            × IsTaken p anchor pref slots k slots')
  unfolding take_slot
  take_slot-IsTaken [] ok = inl refl
  take_slot-IsTaken (s ∷ slots) ok = elim (Bool-cases (same_pool s.pool pref && ltb s.fills 1)) [
    | inl free ↦
        inr (
          kick_of s,
          record s { fills = s.fills + 1 } ∷ slots,
          rw free,
          IsTaken-here s slots free ok,
        )
    | inr full ↦ elim (take_slot-IsTaken slots ok.1) [
      | inl none_left ↦ inl (rw (full, none_left))
      | inr (k, slots', e, t) ↦
          inr (k, s ∷ slots', rw (full, e), IsTaken-later s slots slots' k ok.0 t)
    ]
  ]

-- One more fixture is on the board, at a kickoff of its pool.
pub record IsPlaced (p : Params) (anchor : ℕ) (pref : Pool) (b : Board) (k : Kickoff) (b' : Board)
    : Type 0 where
  pub board_ok : IsBoard p anchor b'
  pub one_more : (d h : ℕ) → load d h b'.slots ≡ load d h b.slots + once d h k
  pub kick_ok : IsKick p anchor pref k

module _ (p : Params) (anchor : ℕ) (week : HasWeekday p.allowed_weekdays) where
  taken-IsPlaced :
      (pref : Pool) (b : Board) (k : Kickoff) (slots : List Slot)
      → IsBoard p anchor b
      → IsTaken p anchor pref b.slots k slots
      → IsPlaced p anchor pref b k (record b { slots = slots })
  taken-IsPlaced pref b k slots ok t = record {
    board_ok = record {
      single = λ d h. omega (arith, t.same_capacity d h, ok.single d h);
      past = λ d h later. omega (arith, t.same_capacity d h, ok.past d h later);
      slots_ok = t.slots_ok;
      ahead = ok.ahead;
    };
    one_more = t.one_more;
    kick_ok = t.kick_ok;
  }

  -- With any fuel, either the loop has not ended, or the fixture is placed.
  pub place-IsPlaced :
      (fuel : ℕ) (pref : Pool) (b : Board)
      → IsBoard p anchor b
      → (place fuel p pref b ≡ none)
        ⊎ ((k : Kickoff) × (b' : Board) × (place fuel p pref b ≡ some (k, b'))
            × IsPlaced p anchor pref b k b')
  unfolding place
  place-IsPlaced zero pref b ok = inl refl
  place-IsPlaced (suc fuel) pref b ok = elim (take_slot-IsTaken p anchor pref b.slots ok.slots_ok) [
    | inr (k, slots, e, t) ↦
        inr (k, record b { slots = slots }, rw (e, place), taken-IsPlaced pref b k slots ok t)
    | inl full ↦
        let (b1, day, e, ok1, same, _) = add_day-IsBoard p anchor b week ok in
        elim (place-IsPlaced fuel pref b1 ok1) [
          | inl hangs ↦ inl (ground (arith, full, e, hangs))
          | inr (k, b', e', placed) ↦ inr (
            k,
            b',
            ground (arith, full, e, e'),
            record {
              board_ok = placed.board_ok;
              one_more = λ d h. omega (arith, same d h, placed.one_more d h);
              kick_ok = placed.kick_ok;
            },
          )
        ]
  ]

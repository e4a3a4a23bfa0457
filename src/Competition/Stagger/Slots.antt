-- ===== src/Competition/Stagger/Slots.antt =====
-- The slots of a board: stagger.go, addDay and the search for a free slot.
use touchline.Common.{
  ℕ, ◌+◌, ◌≤◌, ◌≡◌, inl, inr, refl, Bool, true, ◌&&◌, ◌||◌, some, List, [], ◌∷◌, ◌++◌, arith, ◌==◌,
  if◌then◌else◌, Bool-cases, not, elem, All, All-append,
}
use touchline.Common.Sort.{tally}
use touchline.Competition.Weekdays.{Kickoff, is_allowed_weekday}
use touchline.Competition.Weekdays.Search.{HasWeekday, next_allowed_weekday-IsNext}
use touchline.Competition.Stagger.{
  Pool, human_pool, ai_pool, Slot, Params, Board, add_seen, pool_slots, day_slots, add_day, kick_of,
}

abbrev pub at_time : ℕ → ℕ → ℕ → ℕ → Bool
at_time d h day hour = day == d && hour == h

abbrev pub hours_of : Params → Pool → List ℕ
hours_of p human_pool = p.human_hours
hours_of p ai_pool = p.ai_hours

-- How many slots stand at a day and an hour, and how many fixtures they hold.
abbrev pub capacity : ℕ → ℕ → List Slot → ℕ
capacity d h = tally (λ s. at_time d h s.day s.hour)

abbrev pub load : ℕ → ℕ → List Slot → ℕ
load d h [] = 0
load d h (s ∷ slots) = (if at_time d h s.day s.hour then s.fills else 0) + load d h slots

-- A kickoff is on an allowed day, not before the anchor, at an hour of its pool.
pub record IsKick (p : Params) (anchor : ℕ) (pool : Pool) (k : Kickoff) : Type 0 where
  pub allowed : is_allowed_weekday k.day p.allowed_weekdays ≡ true
  pub not_before : anchor ≤ k.day
  pub of_pool : elem k.hour (hours_of p pool) ≡ true

pub record IsSlot (p : Params) (anchor : ℕ) (s : Slot) : Type 0 where
  pub kick : IsKick p anchor s.pool (kick_of s)
  pub one_at_most : s.fills ≤ 1

-- At most one slot stands at a time, all are before the next day, and each is in order.
pub record IsBoard (p : Params) (anchor : ℕ) (b : Board) : Type 0 where
  pub single : (d h : ℕ) → capacity d h b.slots ≤ 1
  pub past : (d h : ℕ) → b.next_day ≤ d → capacity d h b.slots ≡ 0
  pub slots_ok : All (IsSlot p anchor) b.slots
  pub ahead : anchor ≤ b.next_day

pub load-le-capacity :
    (p : Params) (anchor d h : ℕ) (slots : List Slot)
    → All (IsSlot p anchor) slots
    → load d h slots ≤ capacity d h slots
load-le-capacity p anchor d h [] ok = omega arith
load-le-capacity p anchor d h (s ∷ slots) ok =
    ground (arith, load-le-capacity p anchor d h slots ok.1, ok.0.one_at_most)

tally-append : (q : Slot → Bool) (xs ys : List Slot) → tally q (xs ++ ys) ≡ tally q xs + tally q ys
tally-append q [] ys = omega arith
tally-append q (x ∷ xs) ys = omega (arith, tally-append q xs ys)

pub load-append : (d h : ℕ) (xs ys : List Slot) → load d h (xs ++ ys) ≡ load d h xs + load d h ys
load-append d h [] ys = omega arith
load-append d h (x ∷ xs) ys = omega (arith, load-append d h xs ys)

-- The slots of one call of `add` stand at one time at most each, at unseen hours of one day, empty.
capacity-pool_slots :
    (d h day : ℕ) (pool : Pool) (seen hours : List ℕ)
    → capacity d h (pool_slots day pool seen hours)
      ≤ (if day == d && (not (elem h seen) && elem h hours) then 1 else 0)
unfolding pool_slots
capacity-pool_slots d h day pool seen [] = ground arith
capacity-pool_slots d h day pool seen (x ∷ hours) = ground (
  arith,
  capacity-pool_slots d h day pool seen hours,
  capacity-pool_slots d h day pool (x ∷ seen) hours,
)

load-pool_slots :
    (d h day : ℕ) (pool : Pool) (seen hours : List ℕ)
    → load d h (pool_slots day pool seen hours) ≡ 0
unfolding pool_slots
load-pool_slots d h day pool seen [] = refl
load-pool_slots d h day pool seen (x ∷ hours) =
    ground (
      arith,
      load-pool_slots d h day pool seen hours,
      load-pool_slots d h day pool (x ∷ seen) hours,
    )

pub elem-add_seen :
    (h : ℕ) (seen hours : List ℕ) → elem h (add_seen seen hours) ≡ elem h seen || elem h hours
elem-add_seen h seen [] = ground arith
elem-add_seen h seen (x ∷ hours) = ground (arith, elem-add_seen h (x ∷ seen) hours)

pub capacity-day_slots :
    (p : Params) (d h day : ℕ) → capacity d h (day_slots p day) ≤ (if day == d then 1 else 0)
unfolding day_slots
capacity-day_slots p d h day = ground (
  arith,
  capacity-pool_slots d h day human_pool [] p.human_hours,
  capacity-pool_slots d h day ai_pool (add_seen [] p.human_hours) p.ai_hours,
  elem-add_seen h [] p.human_hours,
  tally-append (λ s. at_time d h s.day s.hour) (pool_slots day human_pool [] p.human_hours)
      (pool_slots day ai_pool (add_seen [] p.human_hours) p.ai_hours),
)

pub load-day_slots : (p : Params) (d h day : ℕ) → load d h (day_slots p day) ≡ 0
unfolding day_slots
load-day_slots p d h day = omega (
  arith,
  load-pool_slots d h day human_pool [] p.human_hours,
  load-pool_slots d h day ai_pool (add_seen [] p.human_hours) p.ai_hours,
  load-append d h (pool_slots day human_pool [] p.human_hours)
      (pool_slots day ai_pool (add_seen [] p.human_hours) p.ai_hours),
)

module _ (p : Params) (anchor day : ℕ) (on : is_allowed_weekday day p.allowed_weekdays ≡ true)
    (after : anchor ≤ day) where
  pool_slots-IsSlot :
      (pool : Pool) (seen hours : List ℕ)
      → ((h : ℕ) → elem h hours ≡ true → elem h (hours_of p pool) ≡ true)
      → All (IsSlot p anchor) (pool_slots day pool seen hours)
  unfolding pool_slots
  pool_slots-IsSlot pool seen [] h = tt
  pool_slots-IsSlot pool seen (x ∷ hours) h =
      let known : elem x (hours_of p pool) ≡ true = h x (ground arith) in
      let later = λ (y : ℕ) (m : elem y hours ≡ true). h y (ground arith) in
      elim (Bool-cases (elem x seen)) [
        | inl old ↦ rw (old, pool_slots) (pool_slots-IsSlot pool seen hours later)
        | inr new ↦
            rw (new, pool_slots)
              (
                record {
                  kick = record { allowed = on; not_before = after; of_pool = known };
                  one_at_most = omega arith;
                },
                pool_slots-IsSlot pool (x ∷ seen) hours later,
              )
      ]

  day_slots-IsSlot : All (IsSlot p anchor) (day_slots p day)
  unfolding day_slots
  day_slots-IsSlot =
      All-append (IsSlot p anchor) _ _ (pool_slots-IsSlot human_pool [] p.human_hours (λ h m. m))
        (pool_slots-IsSlot ai_pool (add_seen [] p.human_hours) p.ai_hours (λ h m. m))

-- A day more: the board stays in order, it holds as many fixtures as before, and the slots of one
-- day are behind those that it had.
pub add_day-IsBoard :
    (p : Params) (anchor : ℕ) (b : Board)
    → HasWeekday p.allowed_weekdays
    → IsBoard p anchor b
    → (b' : Board) × (day : ℕ) × (add_day p b ≡ some b')
      × IsBoard p anchor b'
      × ((d h : ℕ) → load d h b'.slots ≡ load d h b.slots)
      × (b'.slots ≡ b.slots ++ day_slots p day)
unfolding add_day
add_day-IsBoard p anchor b week ok =
    let (day, e, next) = next_allowed_weekday-IsNext b.next_day p.allowed_weekdays week in
    let after : anchor ≤ day = omega (arith, ok.ahead, next.not_before) in
    (
      record { slots = b.slots ++ day_slots p day; next_day = day + 1 },
      day,
      rw (e, add_day),
      record {
        single = λ d h. ground (
          arith,
          tally-append (λ s. at_time d h s.day s.hour) b.slots (day_slots p day),
          capacity-day_slots p d h day,
          ok.single d h,
          ok.past d h,
          next.not_before,
        );
        past = λ d h later. ground (
          arith,
          tally-append (λ s. at_time d h s.day s.hour) b.slots (day_slots p day),
          capacity-day_slots p d h day,
          ok.past d h,
          next.not_before,
        );
        slots_ok =
            All-append (IsSlot p anchor) b.slots (day_slots p day) ok.slots_ok
              (day_slots-IsSlot p anchor day next.allowed after);
        ahead = omega arith;
      },
      (λ d h. omega (arith, load-append d h b.slots (day_slots p day), load-day_slots p d h day)),
      refl,
    )

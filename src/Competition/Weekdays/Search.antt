-- ===== src/Competition/Weekdays/Search.antt =====
-- The search for an allowed weekday ends within a week: weekdays.go, nextAllowedWeekday.
use touchline.Common.{
  ℕ, zero, suc, ◌+◌, ◌-◌, ◌%◌, ◌≤◌, ◌<◌, ◌≡◌, ◌≢◌, inl, inr, refl, true, false, none, some, List,
  [], ◌∷◌, arith, Bool-cases, elem, subst, sym,
}
use mathlib.Core.Bool.{false≢true}
use native.Mathlib.Nat.{add-zero}
use native.Mathlib.Decide.{ℕ_discrete}
use touchline.Competition.Weekdays.{
  iso_weekday, is_allowed_weekday, search_weekday, next_allowed_weekday,
}

-- Some weekday of the set is a day of the week.
abbrev pub HasWeekday : List ℕ → Type 0
HasWeekday wd = (w : ℕ) × (1 ≤ w) × (w ≤ 7) × (elem w wd ≡ true)

-- The earliest allowed day from `start` on, among the next `within` days.
pub record IsNext (within start : ℕ) (wd : List ℕ) (day : ℕ) : Type 0 where
  pub not_before : start ≤ day
  pub soon : day < start + within
  pub allowed : is_allowed_weekday day wd ≡ true
  pub earliest : (d : ℕ) → start ≤ d → d < day → is_allowed_weekday d wd ≡ false

is_allowed_weekday_of_elem :
    (day : ℕ) (wd : List ℕ) → elem (iso_weekday day) wd ≡ true → is_allowed_weekday day wd ≡ true
unfolding is_allowed_weekday
is_allowed_weekday_of_elem day [] h = h
is_allowed_weekday_of_elem day (d ∷ wd) h = ground (arith, is_allowed_weekday_of_elem day wd)

pub is_allowed_weekday-elem :
    (day : ℕ) (wd : List ℕ) → is_allowed_weekday day wd ≡ true → elem (iso_weekday day) wd ≡ true
unfolding is_allowed_weekday
is_allowed_weekday-elem day [] h = h
is_allowed_weekday-elem day (d ∷ wd) h = ground (arith, is_allowed_weekday-elem day wd)

-- A day of weekday `w` among the seven days from `start`.
hit : (start w : ℕ) → 1 ≤ w → w ≤ 7 → (k : ℕ) × (k < 7) × (iso_weekday (start + k) ≡ w)
unfolding iso_weekday
hit start w h k = ((w + 6 - start % 7) % 7, omega arith, omega arith)

module _ (wd : List ℕ) where
  here-IsNext :
      (fuel start : ℕ) → is_allowed_weekday start wd ≡ true → IsNext (suc fuel) start wd start
  here-IsNext fuel start a = record {
    not_before = omega arith;
    soon = omega arith;
    allowed = a;
    earliest = λ d h k. absurd (omega arith);
  }

  later-IsNext :
      (fuel start day : ℕ)
      → is_allowed_weekday start wd ≡ false
      → IsNext fuel (start + 1) wd day
      → IsNext (suc fuel) start wd day
  later-IsNext fuel start day a next = record {
    not_before = omega arith;
    soon = omega arith;
    allowed = next.allowed;
    earliest = λ d h k. elim (ℕ_discrete d start) [
      | yes e ↦ rw e a
      | no other ↦ next.earliest d (omega arith) k
    ];
  }

  search_weekday_finds :
      (fuel start k : ℕ)
      → k < fuel
      → is_allowed_weekday (start + k) wd ≡ true
      → (day : ℕ) × (search_weekday fuel start wd ≡ some day) × IsNext fuel start wd day
  unfolding search_weekday
  search_weekday_finds zero start k h a = elim h [ ]
  search_weekday_finds (suc fuel) start k h a = elim (Bool-cases (is_allowed_weekday start wd)) [
    | inl now ↦ (start, rw now, here-IsNext fuel start now)
    | inr later ↦
        let ahead : k ≢ 0 = λ z. cc (later, rw (z, add-zero) at a) in
        let (day, e, next) =
          search_weekday_finds fuel (start + 1) (k - 1) (omega arith)
            (subst (λ d. is_allowed_weekday d wd ≡ true) (omega arith) a) in
        (day, rw later e, later-IsNext fuel start day later next)
  ]

  -- With no weekday of the set in the week the loop never ends, whatever the fuel.
  search_weekday_hangs :
      ((d : ℕ) → is_allowed_weekday d wd ≡ false)
      → (fuel start : ℕ) → search_weekday fuel start wd ≡ none
  unfolding search_weekday
  search_weekday_hangs h zero start = refl
  search_weekday_hangs h (suc fuel) start = rw (h start) (search_weekday_hangs h fuel (start + 1))

-- For a set that holds a day of the week, the search from any day ends, and it ends within seven
-- days at the earliest day on or after `start` that the set allows.
pub next_allowed_weekday-IsNext :
    (start : ℕ) (wd : List ℕ)
    → HasWeekday wd
    → (day : ℕ) × (next_allowed_weekday start wd ≡ some day) × IsNext 7 start wd day
unfolding next_allowed_weekday
next_allowed_weekday-IsNext start [] (w, h, k, m) = absurd (false≢true m)
next_allowed_weekday-IsNext start (d ∷ wd) (w, h, k, m) =
    let (ahead, soon, same) = hit start w h k in
    search_weekday_finds (d ∷ wd) 7 start ahead soon (
      is_allowed_weekday_of_elem (start + ahead) (d ∷ wd)
        (subst (λ v. elem v (d ∷ wd) ≡ true) (sym same) m))

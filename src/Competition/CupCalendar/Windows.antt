-- ===== src/Competition/CupCalendar/Windows.antt =====
-- Where a cup round lands: findCupRoundDay stays in its window, and the rounds keep their rest.
use touchline.Common.{
  ℕ, zero, suc, ◌+◌, ◌-◌, ◌*◌, ◌≤◌, ◌<◌, ◌≡◌, refl, ◌⊎◌, inl, List, [], ◌∷◌, ◌++◌, arith, length,
  length-append,
}
use touchline.Common.Int.{ℤ, pos}
use touchline.Competition.CupCalendar.{
  cup_gap, cup_day_score, skips, pick_day, window_low, window_high, find_cup_round_day, walk_back,
}

-- A loop keeps its start or ends with a day that it met.
pub pick_day_range :
    (weekdays : List ℕ) (score : ℕ → ℤ) (n d : ℕ) (best : ℕ × ℤ)
    → let r = pick_day weekdays score n d best in (r.0 ≡ best.0) ⊎ ((d ≤ r.0) × (r.0 < d + n))
unfolding pick_day
pick_day_range weekdays score zero d best = inl refl
pick_day_range weekdays score (suc n) d best = ground (
  arith,
  pick_day_range weekdays score n (d + 1) best,
  pick_day_range weekdays score n (d + 1) (d, score d),
)

-- Once a day is found, a day is found at the end.
pick_day_keeps :
    (weekdays : List ℕ) (score : ℕ → ℤ) (n d : ℕ) (best : ℕ × ℤ)
    → 1 ≤ d
    → 1 ≤ best.0
    → 1 ≤ (pick_day weekdays score n d best).0
unfolding pick_day
pick_day_keeps weekdays score zero d best hd hb = hb
pick_day_keeps weekdays score (suc n) d best hd hb = ground (
  arith,
  pick_day_keeps weekdays score n (d + 1) best,
  pick_day_keeps weekdays score n (d + 1) (d, score d),
)

pick_day_finds :
    (score : ℕ → ℤ) (n d : ℕ) (best : ℕ × ℤ) → 1 ≤ d → 1 ≤ (pick_day [] score (suc n) d best).0
unfolding pick_day skips
pick_day_finds score n d best hd =
    ground (
      arith,
      pick_day_keeps [] score n (d + 1) best,
      pick_day_keeps [] score n (d + 1) (d, score d),
    )

-- A round is placed at most two days off its target, on either side, and at least two days before
-- the round that it feeds: for a target two days or more before that round.
pub find_cup_round_day_window :
    (target next : ℕ) (league_days weekdays : List ℕ)
    → 3 ≤ target
    → target + 2 ≤ next
    → let d = find_cup_round_day target next league_days weekdays in
      (target ≤ d + 2) × (d ≤ target + 2) × (d + 2 ≤ next)
unfolding find_cup_round_day
find_cup_round_day_window target next league_days weekdays late gap =
    let score : ℕ → ℤ = λ d. cup_day_score d target league_days in
    let n = window_high target next + 1 - window_low target in
    let first = pick_day weekdays score n (window_low target) (0, pos 0) in
    ground (
      arith,
      pick_day_range weekdays score n (window_low target) (0, pos 0),
      pick_day_range [] score n (window_low target) first,
    )

cup_gap_range :
    (draw : ℕ → ℕ → ℕ) (round total : ℕ)
    → (2 ≤ cup_gap draw round total) × (cup_gap draw round total ≤ 3)
unfolding cup_gap
cup_gap_range draw round total = ground arith

-- Dates in order, each two to five days before the next, the last of them so before `next`.
abbrev pub Rested : List ℕ → ℕ → Type 0
Rested [] next = Unit {0}
Rested (d ∷ []) next = (d + 2 ≤ next) × (next ≤ d + 5)
Rested (d ∷ e ∷ dates) next = ((d + 2 ≤ e) × (e ≤ d + 5)) × Rested (e ∷ dates) next

Rested-append :
    (dates : List ℕ) (d next : ℕ)
    → Rested dates d
    → (d + 2 ≤ next) × (next ≤ d + 5)
    → Rested (dates ++ d ∷ []) next
Rested-append [] d next h e = e
Rested-append (x ∷ []) d next h e = (h, e)
Rested-append (x ∷ y ∷ dates) d next h e = (h.0, Rested-append (y ∷ dates) d next h.1 e)

-- A calendar that starts late enough has a date for each round; going back from `next`, every round
-- is at least two and at most five days before the one after it.
pub walk_back-Rested :
    (draw : ℕ → ℕ → ℕ) (league_days weekdays : List ℕ) (total k next : ℕ)
    → 6 + 5 * k ≤ next
    → (length (walk_back draw league_days weekdays total k next) ≡ k)
      × Rested (walk_back draw league_days weekdays total k next) next
unfolding walk_back
walk_back-Rested draw league_days weekdays total zero next late = (refl, tt)
walk_back-Rested draw league_days weekdays total (suc k) next late =
    let gap = cup_gap_range draw (k + 1) total in
    let target = next - cup_gap draw (k + 1) total in
    let placed =
      find_cup_round_day_window target next league_days weekdays (omega (arith, gap))
        (omega (arith, gap)) in
    let date = find_cup_round_day target next league_days weekdays in
    let (count, rested) =
      walk_back-Rested draw league_days weekdays total k date (omega (arith, gap, placed)) in
    (
      omega (
        arith,
        count,
        length-append (walk_back draw league_days weekdays total k date) (date ∷ []),
      ),
      Rested-append (walk_back draw league_days weekdays total k date) date next rested
          (placed.2, omega (arith, gap, placed)),
    )

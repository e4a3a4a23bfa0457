-- ===== src/Competition/Weekdays/Sets.antt =====
-- What normalizing keeps: weekdays.go, normalizeWeekdays, and pacing.go, normalizeHours.
use touchline.Common.{
  ℕ, ◌≡◌, true, ◌||◌, List, [], ◌∷◌, arith, ltb, if◌then◌else◌, elem, count, count_of_elem,
}
use touchline.Competition.Weekdays.{
  normalize_from, normalize_weekdays, normalize_hours_from, normalize_hours,
}
use touchline.Competition.Weekdays.Search.{HasWeekday}

-- One count for each kept item: the weekdays of `wd` that are valid and new, once.
count-normalize_from :
    (w : ℕ) (seen wd : List ℕ)
    → count w (normalize_from seen wd)
      ≡ (if elem w seen || (ltb w 1 || ltb 7 w) then 0 else if elem w wd then 1 else 0)
unfolding normalize_from
count-normalize_from w seen [] = ground arith
count-normalize_from w seen (d ∷ wd) =
    ground (arith, count-normalize_from w (d ∷ seen) wd, count-normalize_from w seen wd)

-- The normalized set holds each declared day of the week, 1 to 7, exactly once, and nothing else.
pub count-normalize_weekdays :
    (w : ℕ) (wd : List ℕ)
    → count w (normalize_weekdays wd)
      ≡ (if ltb w 1 || ltb 7 w then 0 else if elem w wd then 1 else 0)
unfolding normalize_weekdays
count-normalize_weekdays w wd = count-normalize_from w [] wd

count-normalize_hours_from :
    (h : ℕ) (seen hours : List ℕ)
    → count h (normalize_hours_from seen hours)
      ≡ (if elem h seen || ltb 23 h then 0 else if elem h hours then 1 else 0)
unfolding normalize_hours_from
count-normalize_hours_from h seen [] = ground arith
count-normalize_hours_from h seen (d ∷ hours) =
    ground (
      arith,
      count-normalize_hours_from h (d ∷ seen) hours,
      count-normalize_hours_from h seen hours,
    )

pub count-normalize_hours :
    (h : ℕ) (hours : List ℕ)
    → count h (normalize_hours hours) ≡ (if ltb 23 h then 0 else if elem h hours then 1 else 0)
unfolding normalize_hours
count-normalize_hours h hours = count-normalize_hours_from h [] hours

-- The first of a list is in it.
abbrev pub HasHead : List ℕ → Type 0
HasHead wd = (w : ℕ) × (elem w wd ≡ true)

-- A normalized set that is not empty has a day of the week, so that a search over it ends.
pub normalize_weekdays-HasWeekday :
    (wd : List ℕ) → HasHead (normalize_weekdays wd) → HasWeekday (normalize_weekdays wd)
normalize_weekdays-HasWeekday wd (w, m) =
    let kept = count_of_elem w (normalize_weekdays wd) m in
    let sized = count-normalize_weekdays w wd in
    (w, ground (arith, kept, sized), ground (arith, kept, sized), m)

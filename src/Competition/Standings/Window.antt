-- ===== src/Competition/Standings/Window.antt =====
-- The cut of a table around one club: standings.go, StandingsWindow.
use touchline.Common.{
  ℕ, zero, suc, ◌+◌, ◌-◌, ◌*◌, ◌≤◌, ◌<◌, ◌≡◌, refl, ◌⊎◌, inl, inr, true, some, List, [], ◌∷◌, ◌++◌,
  arith, ltb, leb, ◌==◌, if◌then◌else◌, length, take, drop, length-take, length-drop, Bool-cases,
  Option-cases, ap,
}
use touchline.Competition.Standings.{Row, has_row, index_of, standings_window}

index_of-has_row :
    (club : ℕ) (rows : List Row)
    → has_row club rows ≡ true
    → (at : ℕ) × (index_of club rows ≡ some at) × (at < length rows)
index_of-has_row club [] h = cc
index_of-has_row club (r ∷ rows) h = elim (Bool-cases (r.club == club)) [
  | inl here ↦ (0, rw here refl, omega arith)
  | inr later ↦
      let (at, e, lt) = index_of-has_row club rows (rw later at h) in
      (suc at, rw later (rw e refl), omega arith)
]

has_row-take :
    (club at n : ℕ) (rows : List Row)
    → index_of club rows ≡ some at
    → at < n
    → has_row club (take n rows) ≡ true
has_row-take club at n [] e h = cc
has_row-take club at zero (r ∷ rows) e h = absurd (omega arith)
has_row-take club at (suc n) (r ∷ rows) e h = elim (Bool-cases (r.club == club)) [
  | inl here ↦ rw here refl
  | inr later ↦ elim (Option-cases (index_of club rows)) [
    | inl absent ↦ absurd (ground (arith, absent, later))
    | inr (i, found) ↦ rw later (has_row-take club i n rows found (ground (arith, found, later)))
  ]
]

has_row-window :
    (club at lo n : ℕ) (rows : List Row)
    → index_of club rows ≡ some at
    → lo ≤ at
    → at < lo + n
    → has_row club (take n (drop lo rows)) ≡ true
has_row-window club at zero n rows e lo hi = has_row-take club at n rows e (omega arith)
has_row-window club at (suc k) n [] e lo hi = cc
has_row-window club at (suc k) n (r ∷ rows) e lo hi = elim (Bool-cases (r.club == club)) [
  | inl here ↦ absurd (ground (arith, here))
  | inr later ↦ elim (Option-cases (index_of club rows)) [
    | inl absent ↦ absurd (ground (arith, absent, later))
    | inr (i, found) ↦
        has_row-window club i k n rows found (ground (arith, found, later))
          (ground (arith, found, later))
  ]
]

take-drop_split :
    (lo n : ℕ) (rows : List Row)
    → take lo rows ++ (take n (drop lo rows) ++ drop n (drop lo rows)) ≡ rows
take-drop_split zero n rows = take_drop n rows
  where
    take_drop : (m : ℕ) (rs : List Row) → take m rs ++ drop m rs ≡ rs
    take_drop zero rs = refl
    take_drop (suc m) [] = refl
    take_drop (suc m) (r ∷ rs) = ap (λ l. r ∷ l) (take_drop m rs)
take-drop_split (suc lo) zero [] = refl
take-drop_split (suc lo) (suc n) [] = refl
take-drop_split (suc lo) n (r ∷ rows) = ap (λ l. r ∷ l) (take-drop_split lo n rows)

-- For a club of the table, at a place `at` from 0, the window is a run of the table's rows, with the
-- club in it; it has `2 * radius + 1` rows, or is the whole table where that has no more. It starts
-- `radius` rows above the club, or at the top where there are fewer; where it would pass the bottom,
-- it starts higher up and ends with the last row.
pub standings_window_around :
    (rows : List Row) (club radius : ℕ)
    → has_row club rows ≡ true
    → (at : ℕ) × (before out after : List Row) × (index_of club rows ≡ some at)
      × (standings_window rows club radius ≡ some out)
      × (before ++ (out ++ after) ≡ rows)
      × (has_row club out ≡ true)
      × (length out ≡ (if leb (length rows) (2 * radius + 1) then length rows else 2 * radius + 1))
      × ((length before ≡ at - radius) ⊎ ((length before < at - radius) × (after ≡ [])))
unfolding standings_window
standings_window_around rows club radius h =
    let (at, e, lt) = index_of-has_row club rows h in
    let size = 2 * radius + 1 in
    let n = length rows in
    let lo = if ltb n (at - radius + size) then n - size else at - radius in
    elim (Bool-cases (leb n size)) [
      | inl whole ↦ (
        at,
        [],
        rows,
        [],
        e,
        rw (e, standings_window) (rw whole refl),
        ++-[] rows,
        h,
        rw whole refl,
        ground (arith, whole, lt),
      )
      | inr cut ↦ (
        at,
        take lo rows,
        take size (drop lo rows),
        drop size (drop lo rows),
        e,
        rw (e, standings_window) (rw cut refl),
        take-drop_split lo size rows,
        has_row-window club at lo size rows e (ground (arith, cut)) (ground (arith, cut)),
        ground (arith, cut, length-take size (drop lo rows), length-drop lo rows),
        elim (Bool-cases (ltb n (at - radius + size))) [
          | inr above ↦ inl (ground (arith, cut, above, lt, length-take lo rows))
          | inl past ↦ inr (
            ground (arith, cut, past, lt, length-take lo rows),
            nothing_left (drop size (drop lo rows))
                (ground (arith, cut, past, length-drop size (drop lo rows), length-drop lo rows)),
          )
        ],
      )
    ]
  where
    nothing_left : (xs : List Row) → length xs ≡ 0 → xs ≡ []
    nothing_left [] e = refl
    nothing_left (x ∷ xs) e = absurd (omega arith)

    ++-[] : (xs : List Row) → xs ++ [] ≡ xs
    ++-[] [] = refl
    ++-[] (x ∷ xs) = ap (λ l. x ∷ l) (++-[] xs)

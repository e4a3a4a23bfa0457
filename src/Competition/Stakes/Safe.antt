-- ===== src/Competition/Stakes/Safe.antt =====
-- What the flag of a club safe from relegation says: stakes.go, stakesClubOf. The flag speaks of clubs
-- with more points only: the goal difference, which orders clubs level on points, is not in it.
use touchline.Common.{ℕ, ◌+◌, ◌≡◌, List, [], ◌∷◌, ltb, if◌then◌else◌}
use touchline.Competition.Stakes.{TableRow}

-- How many clubs of the table end with more points than `limit`.
abbrev pub ahead : ℕ → (ℕ → ℕ) → List TableRow → ℕ
ahead limit final [] = 0
ahead limit final (r ∷ table) =
    (if ltb limit (final r.club) then 1 else 0) + ahead limit final table

-- The position of each club is that of its row: no club has two rows.
abbrev pub RowsAt : (ℕ → ℕ) → ℕ → List TableRow → Type 0
RowsAt position_of i [] = Unit {0}
RowsAt position_of i (r ∷ table) = (position_of r.club ≡ i) × RowsAt position_of (i + 1) table

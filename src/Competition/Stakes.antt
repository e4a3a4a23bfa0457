-- ===== src/Competition/Stakes.antt =====
-- The stakes of a league match: backend/internal/competition/stakes.go. The table is in order, the
-- best club first; `remaining` counts a club's open matches besides this one, as the query of
-- stakesFor does (`id <> $3`). Clubs, points and counts are natural numbers.
pub mod Safe
use touchline.Common.{
  ℕ, zero, suc, ◌+◌, ◌-◌, ◌*◌, Bool, true, false, ◌&&◌, ◌||◌, not, Option, none, some, List, [],
  ◌∷◌, ltb, leb, ◌==◌, if◌then◌else◌, length, get_elem?,
}

pub record TableRow : Type 0 where
  pub club : ℕ
  pub points : ℕ

pub record StakesClub : Type 0 where
  pub club : ℕ
  pub position : ℕ
  pub points : ℕ
  pub remaining : ℕ
  pub prom_safe : Bool
  pub releg_safe : Bool

-- The rules of the league.
pub record Rules : Type 0 where
  pub team_count : ℕ
  pub promotions : ℕ
  pub relegations : ℕ

pub record Stakes : Type 0 where
  pub rules : Rules
  pub home : StakesClub
  pub away : StakesClub

abbrev pub stakes_points_gap : ℕ
stakes_points_gap = 3

unfoldable pub six_pointer : Stakes → Bool
six_pointer st =
    let h = st.home in
    let a = st.away in
    let r = st.rules in
    let near =
      leb h.points (a.points + stakes_points_gap) && leb a.points (h.points + stakes_points_gap) in
    let up =
      ltb 0 r.promotions
      && (leb h.position (r.promotions + 1) && leb a.position (r.promotions + 1)) in
    let down =
      ltb 0 r.relegations
      && (leb r.team_count (h.position + r.relegations)
          && leb r.team_count (a.position + r.relegations)) in
    if r.promotions == 0 && r.relegations == 0 then false else near && (up || down)

unfoldable pub dead_rubber : Stakes → Bool
dead_rubber st =
    st.home.prom_safe && (st.home.releg_safe && (st.away.prom_safe && st.away.releg_safe))

-- The position and the points of a club: the last of its rows counts, as in the maps of the source.
unfoldable pub place_from : ℕ → ℕ → List TableRow → Option (ℕ × ℕ)
place_from club i [] = none
place_from club i (r ∷ table) =
    let own = if r.club == club then some (i, r.points) else none in
    elim (place_from club (i + 1) table) as (λ _. Option (ℕ × ℕ)) [ some p ↦ some p | none ↦ own ]

-- How many clubs of the table below `position` can pass `points`.
unfoldable pub below_can_pass : ℕ → ℕ → (ℕ → ℕ) → (ℕ → ℕ) → List TableRow → ℕ
below_can_pass position points remaining position_of [] = 0
below_can_pass position points remaining position_of (r ∷ table) =
    (if ltb position (position_of r.club) && ltb points (r.points + 3 * remaining r.club)
      then 1
      else 0)
    + below_can_pass position points remaining position_of table

abbrev pub position_in : List TableRow → ℕ → ℕ
position_in table club = elim (place_from club 1 table) [ none ↦ 0 | some (i, p) ↦ i ]

-- `above + belowCanPass + 1 <= teamCount - relegations`, which may be negative on the right.
unfoldable pub releg_safe_of : Rules → ℕ → ℕ → (ℕ → ℕ) → List TableRow → Bool
unfolding below_can_pass place_from
releg_safe_of r position points remaining table =
    let passing = below_can_pass position points remaining (position_in table) table in
    if r.relegations == 0
    then true
    else leb (position - 1 + passing + 1 + r.relegations) r.team_count

-- The points of the last promoted place; `none` is -1, where the table has no such row.
unfoldable pub promotion_line : Rules → List TableRow → Option ℕ
promotion_line r table =
    if ltb 0 r.promotions && leb r.promotions (length table)
    then elim (get_elem? table (r.promotions - 1)) as (λ _. Option ℕ) [
      | none ↦ none
      | some x ↦ some x.points
    ]
    else none

unfoldable pub prom_safe_of : Rules → ℕ → ℕ → (ℕ → ℕ) → List TableRow → Bool
unfolding promotion_line
prom_safe_of r club points remaining table =
    if r.promotions == 0 then true else elim (promotion_line r table) [
      | none ↦ false
      | some line ↦ ltb (points + 3 * remaining club) line
    ]

unfoldable pub stakes_club_of : Rules → ℕ → ℕ × ℕ → (ℕ → ℕ) → List TableRow → StakesClub
unfolding releg_safe_of prom_safe_of
stakes_club_of r club (position, points) remaining table = record {
  club = club;
  position = position;
  points = points;
  remaining = remaining club;
  prom_safe = prom_safe_of r club points remaining table;
  releg_safe = releg_safe_of r position points remaining table;
}

-- stakesFor from the table on; `none` is "no stakes".
unfoldable pub stakes_for : Rules → ℕ → ℕ → (ℕ → ℕ) → List TableRow → Option Stakes
unfolding stakes_club_of
stakes_for r home away remaining table = elim (place_from home 1 table) as (λ _. Option Stakes) [
  | none ↦ none
  | some h ↦ elim (place_from away 1 table) as (λ _. Option Stakes) [
    | none ↦ none
    | some a ↦ some (record {
      rules = r;
      home = stakes_club_of r home h remaining table;
      away = stakes_club_of r away a remaining table;
    })
  ]
]

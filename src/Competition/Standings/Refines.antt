-- ===== src/Competition/Standings/Refines.antt =====
-- What a league table adds up to: the rows that the results of a season leave behind.
use touchline.Common.{ℕ, ◌+◌, ◌*◌, ◌≡◌, refl, List, [], ◌∷◌, arith, ltb, ◌==◌, if◌then◌else◌}
use touchline.Competition.Standings.{
  Row, result_points, first_row, upsert_row, upsert_standing, zero_row, record_result,
}

-- One match from the side of one club.
pub record Side : Type 0 where
  pub club : ℕ
  pub scored : ℕ
  pub conceded : ℕ

pub record Played : Type 0 where
  pub home : ℕ
  pub away : ℕ
  pub home_score : ℕ
  pub away_score : ℕ

abbrev pub sides : List Played → List Side
sides [] = []
sides (m ∷ matches) =
    record { club = m.home; scored = m.home_score; conceded = m.away_score }
    ∷ record { club = m.away; scored = m.away_score; conceded = m.home_score }
    ∷ sides matches

abbrev pub total : (Side → ℕ) → ℕ → List Side → ℕ
total f c [] = 0
total f c (s ∷ ss) = (if s.club == c then f s else 0) + total f c ss

abbrev pub wins : Side → ℕ
wins s = if ltb s.conceded s.scored then 1 else 0

abbrev pub draws : Side → ℕ
draws s = if s.conceded == s.scored then 1 else 0

abbrev pub losses : Side → ℕ
losses s = if ltb s.scored s.conceded then 1 else 0

abbrev pub record_all : List Played → List Row → List Row
record_all [] rows = rows
record_all (m ∷ matches) rows =
    record_all matches (record_result m.home m.away m.home_score m.away_score rows)

abbrev pub row_of : ℕ → List Row → Row
row_of c [] = zero_row c
row_of c (r ∷ rows) = if r.club == c then r else row_of c rows

-- The row `r'` of club `c` is `r` and the sides of the club.
pub record Adds (c : ℕ) (ss : List Side) (r r' : Row) : Type 0 where
  pub played : r'.played ≡ r.played + total (λ _. 1) c ss
  pub won : r'.won ≡ r.won + total wins c ss
  pub drawn : r'.drawn ≡ r.drawn + total draws c ss
  pub lost : r'.lost ≡ r.lost + total losses c ss
  pub goals_for : r'.goals_for ≡ r.goals_for + total (λ s. s.scored) c ss
  pub goals_against : r'.goals_against ≡ r.goals_against + total (λ s. s.conceded) c ss
  pub points : r'.points ≡ r.points + 3 * total wins c ss + total draws c ss

-- An upsert of the row of one match.
record Upserts (c : ℕ) (x r r' : Row) : Type 0 where
  played : r'.played ≡ r.played + (if x.club == c then 1 else 0)
  won : r'.won ≡ r.won + (if x.club == c then x.won else 0)
  drawn : r'.drawn ≡ r.drawn + (if x.club == c then x.drawn else 0)
  lost : r'.lost ≡ r.lost + (if x.club == c then x.lost else 0)
  goals_for : r'.goals_for ≡ r.goals_for + (if x.club == c then x.goals_for else 0)
  goals_against : r'.goals_against ≡ r.goals_against + (if x.club == c then x.goals_against else 0)
  points : r'.points ≡ r.points + (if x.club == c then x.points else 0)

upsert_row-Upserts :
    (c : ℕ) (x : Row) (rows : List Row)
    → x.played ≡ 1
    → Upserts c x (row_of c rows) (row_of c (upsert_row x rows))
unfolding upsert_row
upsert_row-Upserts c x [] one = record {
  played = ground arith;
  won = ground arith;
  drawn = ground arith;
  lost = ground arith;
  goals_for = ground arith;
  goals_against = ground arith;
  points = ground arith;
}
upsert_row-Upserts c x (r ∷ rows) one =
    let u = upsert_row-Upserts c x rows one in
    record {
      played = ground (arith, u.played);
      won = ground (arith, u.won);
      drawn = ground (arith, u.drawn);
      lost = ground (arith, u.lost);
      goals_for = ground (arith, u.goals_for);
      goals_against = ground (arith, u.goals_against);
      points = ground (arith, u.points);
    }

record_result-Adds :
    (c : ℕ) (m : Played) (rows : List Row)
    → Adds c
        (sides (m ∷ []))
        (row_of c rows)
        (row_of c (record_result m.home m.away m.home_score m.away_score rows))
unfolding record_result upsert_standing result_points
record_result-Adds c m rows =
    let (home_points, away_points) = result_points m.home_score m.away_score in
    let x = first_row m.home m.home_score m.away_score home_points in
    let y = first_row m.away m.away_score m.home_score away_points in
    let u = upsert_row-Upserts c x rows refl in
    let v = upsert_row-Upserts c y (upsert_row x rows) refl in
    record {
      played = ground (arith, u.played, v.played);
      won = ground (arith, u.won, v.won);
      drawn = ground (arith, u.drawn, v.drawn);
      lost = ground (arith, u.lost, v.lost);
      goals_for = ground (arith, u.goals_for, v.goals_for);
      goals_against = ground (arith, u.goals_against, v.goals_against);
      points = ground (arith, u.points, v.points);
    }

-- Whatever the table before, the matches that are recorded add to the row of each club exactly what
-- its sides of these matches add up to: matches, wins, draws, losses, goals and points at three for
-- a win and one for a draw.
pub record_all-Adds :
    (c : ℕ) (matches : List Played) (rows : List Row)
    → Adds c (sides matches) (row_of c rows) (row_of c (record_all matches rows))
record_all-Adds c [] rows = record {
  played = omega arith;
  won = omega arith;
  drawn = omega arith;
  lost = omega arith;
  goals_for = omega arith;
  goals_against = omega arith;
  points = omega arith;
}
record_all-Adds c (m ∷ matches) rows =
    let one = record_result-Adds c m rows in
    let rest =
      record_all-Adds c matches (record_result m.home m.away m.home_score m.away_score rows) in
    record {
      played = omega (arith, one.played, rest.played);
      won = omega (arith, one.won, rest.won);
      drawn = omega (arith, one.drawn, rest.drawn);
      lost = omega (arith, one.lost, rest.lost);
      goals_for = omega (arith, one.goals_for, rest.goals_for);
      goals_against = omega (arith, one.goals_against, rest.goals_against);
      points = omega (arith, one.points, rest.points);
    }

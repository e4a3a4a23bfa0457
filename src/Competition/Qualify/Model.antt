-- ===== src/Competition/Qualify/Model.antt =====
-- The data of qualify.go. An id is a number in the order of its text, and uuid.Nil is 0; an instant
-- (CreatedAt) is a number; positions and tiers are natural numbers. The names of a CompetitionRef
-- and its country, region and type, which no decision reads, are left out.
use touchline.Common.{ℕ, ◌+◌, Bool, true, false, Option, List, [], ◌∷◌, ◌==◌, if◌then◌else◌}

pub data Origin : Type 0 where
  position champion_direct champion_next_best champion_out_of_band cascade_replacement : Origin

-- The positions `from..to` of a league's final table; no `to` means through the last place.
pub record Band : Type 0 where
  pub league : ℕ
  pub from : ℕ
  pub to : Option ℕ

pub record Table : Type 0 where
  pub league : ℕ
  pub season_number : ℕ
  pub ranks : List ℕ

pub record Reigning : Type 0 where
  pub club : ℕ
  pub league : ℕ

pub record CompetitionRef : Type 0 where
  pub id : ℕ
  pub world : ℕ
  pub tier : ℕ
  pub created_at : ℕ

pub record SiblingCup : Type 0 where
  pub ref : CompetitionRef
  pub bands : List Band

pub record Entrant : Type 0 where
  pub club : ℕ
  pub origin : Origin
  pub rank : ℕ

pub record Conflict : Type 0 where
  pub other_cup : ℕ
  pub tier : ℕ

pub record UnavailableLeague : Type 0 where
  pub league : ℕ
  pub cup : ℕ

-- `conflicts` is the map of the source: a club that is no key has the empty list.
pub record Field : Type 0 where
  pub cup : CompetitionRef
  pub bands : List Band
  pub club_count : ℕ
  pub entrants : List Entrant
  pub conflicts : ℕ → List Conflict
  pub unavailable : List UnavailableLeague

-- resolve.go, containsClub.
abbrev pub contains_club : List Entrant → ℕ → Bool
contains_club [] c = false
contains_club (e ∷ entrants) c = if e.club == c then true else contains_club entrants c

-- How many entries of a club a field has.
abbrev pub seats : ℕ → List Entrant → ℕ
seats c [] = 0
seats c (e ∷ entrants) = (if e.club == c then 1 else 0) + seats c entrants

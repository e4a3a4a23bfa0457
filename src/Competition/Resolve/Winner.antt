-- ===== src/Competition/Resolve/Winner.antt =====
-- Which cup keeps a double-booked club: resolve.go, pickWinner, cupKeyBetter, clubCupKey and
-- uniqueChoiceFor. The map `fields` is the list of the input, in which the last field of a cup
-- counts; `championOf` and `choices` are functions of the club.
pub mod Best
use touchline.Common.{
  ℕ, zero, ◌+◌, Bool, true, false, ◌&&◌, Option, none, some, List, [], ◌∷◌, ◌++◌, ltb, ◌==◌,
  if◌then◌else◌, elem,
}
use touchline.Competition.Qualify.Model.{
  Origin, champion_direct, champion_next_best, champion_out_of_band, Entrant, Field, contains_club,
}

unfoldable pub find_field : List Field → ℕ → Option Field
find_field [] k = none
find_field (f ∷ fields) k =
    let own = if f.cup.id == k then some f else none in
    elim (find_field fields k) as (λ _. Option Field) [ some g ↦ some g | none ↦ own ]

unfoldable pub is_champion_origin : Origin → Bool
is_champion_origin champion_direct = true
is_champion_origin champion_next_best = true
is_champion_origin champion_out_of_band = true
is_champion_origin _ = false

-- The cups that a club is champion of: `championOf[club]`.
unfoldable pub titles_in : ℕ → ℕ → List Entrant → List ℕ
unfolding is_champion_origin
titles_in club cup [] = []
titles_in club cup (e ∷ entrants) =
    let rest = titles_in club cup entrants in
    if is_champion_origin e.origin && e.club == club then cup ∷ rest else rest

unfoldable pub champion_of : List Field → ℕ → List ℕ
unfolding titles_in
champion_of [] club = []
champion_of (f ∷ fields) club = titles_in club f.cup.id f.entrants ++ champion_of fields club

-- Whether the club is in the projected field of a cup.
unfoldable pub projected : List Field → ℕ → ℕ → Bool
unfolding find_field
projected fields club cup = elim (find_field fields cup) [
  | none ↦ false
  | some f ↦ contains_club f.entrants club
]

-- The loop of uniqueChoiceFor: `match` is the choice met so far, or 0.
unfoldable pub match_choice : List Field → ℕ → ℕ → ℕ → List ℕ → Bool
unfolding projected
match_choice fields club cup match [] = match == cup
match_choice fields club cup match (c ∷ choices) =
    let skipped = match_choice fields club cup match choices in
    let matched = match_choice fields club cup c choices in
    if projected fields club c then if match == 0 then matched else false else skipped

unfoldable pub unique_choice_for : List Field → (ℕ → List ℕ) → ℕ → ℕ → Bool
unfolding match_choice
unique_choice_for fields choices club cup = match_choice fields club cup 0 (choices club)

pub record CupKey : Type 0 where
  pub tier : ℕ
  pub chosen : ℕ
  pub champion : ℕ
  pub created : ℕ
  pub id : ℕ

abbrev zero_field_tier : Option Field → ℕ
zero_field_tier none = 0
zero_field_tier (some f) = f.cup.tier

abbrev zero_field_created : Option Field → ℕ
zero_field_created none = 0
zero_field_created (some f) = f.cup.created_at

unfoldable pub club_cup_key : List Field → (ℕ → List ℕ) → ℕ → ℕ → CupKey
unfolding find_field champion_of unique_choice_for
club_cup_key fields choices club cup = record {
  tier = zero_field_tier (find_field fields cup);
  chosen = if unique_choice_for fields choices club cup then 1 else 0;
  champion = if elem cup (champion_of fields club) then 1 else 0;
  created = zero_field_created (find_field fields cup);
  id = cup;
}

-- The lexicographic order of the keys: a higher tier, the unique choice, the champion's title, the
-- earlier cup, the smaller id.
unfoldable pub key_better : CupKey → CupKey → Bool
key_better a b =
    if a.tier == b.tier
    then if a.chosen == b.chosen
      then if a.champion == b.champion
        then if a.created == b.created then ltb a.id b.id else ltb a.created b.created
        else a.champion == 1
      else a.chosen == 1
    else ltb b.tier a.tier

unfoldable pub cup_key_better : List Field → (ℕ → List ℕ) → ℕ → ℕ → ℕ → Bool
unfolding key_better club_cup_key
cup_key_better fields choices club a b =
    key_better (club_cup_key fields choices club a) (club_cup_key fields choices club b)

-- The fold over `cups[1:]`, from `best`.
unfoldable pub best_cup : List Field → (ℕ → List ℕ) → ℕ → ℕ → List ℕ → ℕ
best_cup fields choices club best [] = best
best_cup fields choices club best (cup ∷ cups) =
    best_cup fields choices club (if cup_key_better fields choices club cup best then cup else best)
      cups

-- `none` is the panic of `cups[0]`.
unfoldable pub pick_winner : List Field → (ℕ → List ℕ) → ℕ → List ℕ → Option ℕ
unfolding best_cup
pick_winner fields choices club [] = none
pick_winner fields choices club (cup ∷ cups) = some (best_cup fields choices club cup cups)

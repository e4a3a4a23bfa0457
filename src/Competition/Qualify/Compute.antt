-- ===== src/Competition/Qualify/Compute.antt =====
-- A cup's field from the providers' answers: qualify.go, computeField and ComputeField. The three
-- provider interfaces are a record of functions, whose answers may fail.
use touchline.Common.{
  ℕ, Bool, ◌&&◌, Option, none, some, List, [], ◌∷◌, ◌++◌, ltb, ◌==◌, if◌then◌else◌, length, elem,
}
use touchline.Common.Sort.{sort_by}
use touchline.Competition.Qualify.Model.{
  Band, Table, Reigning, CompetitionRef, SiblingCup, Entrant, Conflict, UnavailableLeague, Field,
  contains_club,
}
use touchline.Competition.Qualify.Core.{core_entrants, sorted_bands, valid_qual_band}

pub data QualifyError : Type 0 where
  bad_band standings_failed champion_failed siblings_failed field_too_small : QualifyError

-- A provider's answer.
pub data Fetch (A : Type 0) : Type 0 where
  found : A → Fetch A
  failed : Fetch A

pub data Result (A : Type 0) : Type 0 where
  panic : Result A
  err : QualifyError → Result A
  ok : A → Result A

abbrev pub run : {A : Type 0} → Option A → Result A
run none = panic
run (some x) = ok x

abbrev pub fetch : {A : Type 0} → Fetch A → QualifyError → Result A
fetch failed e = err e
fetch (found x) e = ok x

infixl 5 ◌>>=◌ ◌>>◌
abbrev pub ◌>>=◌ : {A B : Type 0} → Result A → (A → Result B) → Result B
panic >>= next = panic
err e >>= next = err e
ok x >>= next = next x

abbrev pub ◌>>◌ : {B : Type 0} → Result (Unit {0}) → Result B → Result B
first >> second = first >>= λ _. second

pub record Providers : Type 0 where
  pub last_completed_standings : ℕ → Fetch (Option Table)
  pub reigning_champion : ℕ → Fetch (Option Reigning)
  pub sibling_cups : ℕ → ℕ → Fetch (List SiblingCup)

pub record QualifyField : Type 0 where
  pub cup : CompetitionRef
  pub bands : List Band

unfoldable pub validate_bands : List Band → Result (Unit {0})
validate_bands [] = ok tt
validate_bands (b ∷ bands) = if valid_qual_band b then validate_bands bands else err bad_band

unfoldable pub league_ids_from : List ℕ → List Band → List ℕ
league_ids_from seen [] = []
league_ids_from seen (b ∷ bands) =
    let skipped = league_ids_from seen bands in
    let added = b.league ∷ league_ids_from (b.league ∷ seen) bands in
    if elem b.league seen then skipped else added

unfoldable pub unique_league_ids : List Band → List ℕ
unfolding league_ids_from
unique_league_ids bands = league_ids_from [] bands

abbrev pub set_table : (ℕ → Option Table) → ℕ → Table → ℕ → Option Table
set_table tables l t k = if k == l then some t else tables k

-- The tables of the banded leagues, and the leagues that have no completed season.
unfoldable pub load_tables :
    Providers
    → ℕ
    → List ℕ
    → (ℕ → Option Table)
    → List UnavailableLeague
    → Result ((ℕ → Option Table) × List UnavailableLeague)
load_tables st cup [] tables un = ok (tables, un)
load_tables st cup (l ∷ ls) tables un = do
  t ← fetch (st.last_completed_standings l) standings_failed
  elim t [
    | none ↦ load_tables st cup ls tables (un ++ record { league = l; cup = cup } ∷ [])
    | some t' ↦ load_tables st cup ls (set_table tables l t') un
  ]

-- Every entrant of the sibling's field gets the conflict with it.
unfoldable pub flag_overlap :
    List Entrant → Conflict → List Entrant → (ℕ → List Conflict) → ℕ → List Conflict
flag_overlap sib x [] conflicts = conflicts
flag_overlap sib x (e ∷ entrants) conflicts =
    flag_overlap sib x entrants
      (λ c. if contains_club sib e.club && c == e.club then conflicts c ++ x ∷ [] else conflicts c)

unfoldable pub flag_siblings :
    Providers
    → (ℕ → Option Table)
    → List Entrant
    → List SiblingCup
    → (ℕ → List Conflict)
    → Result (ℕ → List Conflict)
unfolding flag_overlap
flag_siblings pr tables entrants [] conflicts = ok conflicts
flag_siblings pr tables entrants (sib ∷ sibs) conflicts = do
  champ ← fetch (pr.reigning_champion sib.ref.id) champion_failed
  theirs ← run (core_entrants tables (sorted_bands sib.bands) champ)
  let x : Conflict = record { other_cup = sib.ref.id; tier = sib.ref.tier }
  flag_siblings pr tables entrants sibs (flag_overlap theirs x entrants conflicts)

unfoldable pub conflict_before : Conflict → Conflict → Bool
conflict_before a b =
    if a.other_cup == b.other_cup then ltb a.tier b.tier else ltb a.other_cup b.other_cup

abbrev same_conflict : Conflict → Conflict → Bool
same_conflict a b = a.other_cup == b.other_cup && a.tier == b.tier

-- An item equal to the one before it is dropped.
unfoldable pub dedupe_after : Conflict → List Conflict → List Conflict
dedupe_after last [] = []
dedupe_after last (x ∷ xs) =
    let rest = dedupe_after x xs in if same_conflict x last then rest else x ∷ rest

abbrev dedupe : List Conflict → List Conflict
dedupe [] = []
dedupe (x ∷ xs) = x ∷ dedupe_after x xs

unfoldable pub sorted_conflicts : List Conflict → List Conflict
unfolding conflict_before dedupe_after sort_by
sorted_conflicts list = dedupe (sort_by conflict_before list)

unfoldable pub conflicts_of :
    Providers → CompetitionRef → (ℕ → Option Table) → List Entrant → Result (ℕ → List Conflict)
unfolding flag_siblings sorted_conflicts
conflicts_of pr cup tables [] = ok (λ _. [])
conflicts_of pr cup tables (e ∷ entrants) = do
  sibs ← fetch (pr.sibling_cups cup.world cup.id) siblings_failed
  flagged ← flag_siblings pr tables (e ∷ entrants) sibs (λ _. [])
  ok (λ c. sorted_conflicts (flagged c))

-- computeField, which the preview shares.
unfoldable pub preview_field : QualifyField → Providers → Result Field
unfolding validate_bands unique_league_ids load_tables conflicts_of
preview_field input pr = do
  let bands = sorted_bands input.bands
  validate_bands bands
  loaded ← load_tables pr input.cup.id (unique_league_ids bands) (λ _. none) []
  reigning ← fetch (pr.reigning_champion input.cup.id) champion_failed
  entrants ← run (core_entrants loaded.0 bands reigning)
  conflicts ← conflicts_of pr input.cup loaded.0 entrants
  ok (record {
    cup = input.cup;
    bands = bands;
    club_count = length entrants;
    entrants = entrants;
    conflicts = conflicts;
    unavailable = loaded.1;
  })

unfoldable pub compute_field : QualifyField → Providers → Result Field
unfolding preview_field
compute_field input pr = do
  field ← preview_field input pr
  if ltb (length field.entrants) 2 then err field_too_small else ok field

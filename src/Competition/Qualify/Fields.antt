-- ===== src/Competition/Qualify/Fields.antt =====
-- What a computed field promises to its readers: qualify.go, ComputeField.
use touchline.Common.{
  ◌≤◌, ◌≡◌, inl, inr, refl, true, Option, none, some, List, [], ◌∷◌, arith, ltb, length, All,
  Bool-cases, subst,
}
use touchline.Competition.Qualify.Model.{Band, Reigning, Field, contains_club}
use touchline.Competition.Qualify.Core.{core_entrants, sorted_bands, valid_qual_band}
use touchline.Competition.Qualify.Distinct.{OneSeat, core_entrants-OneSeat}
use touchline.Competition.Qualify.Cuts.{Starts}
use touchline.Competition.Qualify.Champion.{core_entrants-champion}
use touchline.Competition.Qualify.Compute.{
  found, Result, ok, err, panic, ◌>>=◌, Providers, QualifyField, fetch, run, validate_bands,
  load_tables, unique_league_ids, conflicts_of, preview_field, compute_field, champion_failed,
}

-- A chain that succeeds has a first step that succeeds.
>>=-eq-ok :
    {A B : Type 0} (first : Result A) (next : A → Result B) {out : B}
    → (first >>= next) ≡ ok out
    → (x : A) × (first ≡ ok x) × (next x ≡ ok out)
>>=-eq-ok panic next h = cc
>>=-eq-ok (err e) next h = cc
>>=-eq-ok (ok x) next h = (x, refl, h)

run-eq-ok : {A : Type 0} (o : Option A) {a : A} → run o ≡ ok a → o ≡ some a
run-eq-ok none h = cc
run-eq-ok (some a) h = cc

validate_bands-Starts : (bands : List Band) → validate_bands bands ≡ ok tt → All Starts bands
unfolding validate_bands valid_qual_band
validate_bands-Starts [] h = tt
validate_bands-Starts (b ∷ bands) h = elim (Bool-cases (valid_qual_band b)) [
  | inl e ↦ (ground arith, validate_bands-Starts bands (ground (arith, e)))
  | inr e ↦ absurd (ground (arith, e))
]

-- What the resolution, the preview and a campaign rely on.
pub record IsField (input : QualifyField) (pr : Providers) (field : Field) : Type 0 where
  pub one_seat : OneSeat field.entrants
  pub counted : field.club_count ≡ length field.entrants
  pub of_cup : field.cup ≡ input.cup
  pub champion_in :
      (r : Reigning)
      → pr.reigning_champion input.cup.id ≡ found (some r)
      → contains_club field.entrants r.club ≡ true

pub preview_field-IsField :
    (input : QualifyField) (pr : Providers) (field : Field)
    → preview_field input pr ≡ ok field
    → IsField input pr field
unfolding preview_field
preview_field-IsField input pr field h =
    let bands = sorted_bands input.bands in
    let (u, valid, h1) = >>=-eq-ok (validate_bands bands) _ h in
    let (loaded, _, h2) =
      >>=-eq-ok (load_tables pr input.cup.id (unique_league_ids bands) (λ _. none) []) _ h1 in
    let (reigning, asked, h3) =
      >>=-eq-ok (fetch (pr.reigning_champion input.cup.id) champion_failed) _ h2 in
    let (entrants, core, h4) = >>=-eq-ok (run (core_entrants loaded.0 bands reigning)) _ h3 in
    let (conflicts, _, h5) = >>=-eq-ok (conflicts_of pr input.cup loaded.0 entrants) _ h4 in
    let entered : entrants ≡ field.entrants = ground arith in
    let cut = run-eq-ok (core_entrants loaded.0 bands reigning) core in
    record {
      one_seat = subst OneSeat entered (core_entrants-OneSeat loaded.0 bands reigning entrants cut);
      counted = ground arith;
      of_cup = ground arith;
      champion_in = λ r e.
          let same : reigning ≡ some r = ground (arith, e) in
          let (_, out, _, cut', present, _) =
            core_entrants-champion loaded.0 bands r (validate_bands-Starts bands valid) in
          let equal : out ≡ field.entrants = ground (arith, same) in
          subst (λ l. contains_club l r.club ≡ true) equal present;
    }

-- A field that ComputeField returns has two clubs at least; no club enters it twice, and the
-- reigning champion of the cup, if the provider names one, is in it.
pub compute_field-IsField :
    (input : QualifyField) (pr : Providers) (field : Field)
    → compute_field input pr ≡ ok field
    → IsField input pr field × (2 ≤ length field.entrants)
unfolding compute_field
compute_field-IsField input pr field h =
    let (field', previewed, h1) = >>=-eq-ok (preview_field input pr) _ h in
    elim (Bool-cases (ltb (length field'.entrants) 2)) [
      | inl small ↦ absurd (ground (arith, small))
      | inr enough ↦
          let same : field' ≡ field = ground (arith, enough) in
          let sized : 2 ≤ length field'.entrants = ground arith in
          subst (λ f. IsField input pr f × (2 ≤ length f.entrants)) same
            (preview_field-IsField input pr field' previewed, sized)
    ]

-- ===== src/Competition/Standings/Once.antt =====
-- A result is applied once: standings.go, ApplyResult and its guard standings_applied_at.
use touchline.Common.{
  ℕ, ◌≡◌, inl, inr, Bool, true, false, none, some, List, [], ◌∷◌, arith, ltb, ◌==◌, Bool-cases,
  Option-cases, subst, sym, ap,
}
use touchline.Common.Int.{ℤ, pos, negsuc}
use touchline.Competition.Standings.{
  Fixture, Tables, Applied, ResultError, result_already_applied, committed, rolled_back,
  to_knockout, to_rollover, find_fixture, complete, remaining_in, maybe_complete_season,
  apply_locked, apply_score, apply_result,
}

-- The fixture is marked as applied.
abbrev pub is_applied : ℕ → List Fixture → Bool
is_applied id fixtures = elim (find_fixture id fixtures) [ none ↦ false | some f ↦ f.applied ]

is_applied-complete :
    (id home_score away_score : ℕ) (fixtures : List Fixture) (f : Fixture)
    → find_fixture id fixtures ≡ some f
    → (f.id ≡ id) × (is_applied id (complete id home_score away_score fixtures) ≡ true)
is_applied-complete id h a [] f e = cc
is_applied-complete id h a (g ∷ fixtures) f e = elim (Bool-cases (g.id == id)) [
  | inl here ↦ (ground (arith, here), ground (arith, here))
  | inr later ↦
      let (same, marked) = is_applied-complete id h a fixtures f (rw later at e) in
      (same, ground (arith, later, marked))
]

-- Later submissions that are committed or rolled back.
pub data Later (t : Tables) : Tables → Type 0 where
  now : Later t t
  committed_by :
      {t' t'' : Tables} (id : ℕ) (home_score away_score : ℤ)
      → Later t t'
      → apply_result id home_score away_score t' ≡ committed t''
      → Later t t''
  refused_by :
      {t' : Tables} (id : ℕ) (home_score away_score : ℤ) (e : ResultError)
      → Later t t'
      → apply_result id home_score away_score t' ≡ rolled_back e
      → Later t t'

is_applied-complete_other :
    (id k h a : ℕ) (fixtures : List Fixture)
    → is_applied id fixtures ≡ true
    → is_applied id (complete k h a fixtures) ≡ true
is_applied-complete_other id k h a [] m = m
is_applied-complete_other id k h a (f ∷ fixtures) m = elim (Bool-cases (f.id == id)) [
  | inl its ↦ elim (Bool-cases (f.id == k)) [
    | inl hit ↦ ground (arith, its, hit)
    | inr miss ↦ ground (arith, its, miss, m)
  ]
  | inr other ↦
      let rest = is_applied-complete_other id k h a fixtures (ground (arith, other, m)) in
      elim (Bool-cases (f.id == k)) [
        | inl hit ↦ ground (arith, other, hit, rest)
        | inr miss ↦ ground (arith, other, miss, rest)
      ]
]

apply_locked_fixtures :
    (f : Fixture) (season h a : ℕ) (t t' : Tables)
    → apply_locked f season h a t ≡ committed t'
    → t'.fixtures ≡ complete f.id h a t.fixtures
unfolding apply_locked maybe_complete_season
apply_locked_fixtures f season h a t t' e = elim (Bool-cases f.is_knockout) [
  | inl cup ↦ absurd (ground (arith, rw cup at e))
  | inr league ↦ elim (Bool-cases (ltb 0 (remaining_in f.country (complete f.id h a t.fixtures)))) [
    | inl open_left ↦ sym (ap fixtures_of (rw open_left at (rw league at e)))
    | inr over ↦ absurd (ground (arith, rw over at (rw league at e)))
  ]
]
  where
    fixtures_of : Applied → List Fixture
    fixtures_of (committed u) = u.fixtures
    fixtures_of (rolled_back r) = []
    fixtures_of (to_knockout g m n u) = []
    fixtures_of (to_rollover c u) = []

-- What a committed result was.
apply_result-committed :
    (id : ℕ) (h a : ℤ) (t t' : Tables)
    → apply_result id h a t ≡ committed t'
    → (f : Fixture) × (m n : ℕ) × (find_fixture id t.fixtures ≡ some f)
      × (t'.fixtures ≡ complete f.id m n t.fixtures)
unfolding apply_result apply_score
apply_result-committed id (negsuc h) a t t' e = cc
apply_result-committed id (pos h) (negsuc a) t t' e = cc
apply_result-committed id (pos h) (pos a) t t' e =
    elim (Option-cases (find_fixture id t.fixtures)) [
      | inl absent ↦ absurd (ground (arith, absent))
      | inr (f, found) ↦ elim (Option-cases (t.active_season f.league)) [
        | inl none_active ↦ absurd (ground (arith, found, none_active))
        | inr (season, active) ↦ (
          f,
          h,
          a,
          found,
          apply_locked_fixtures f season h a t t' (ground (arith, found, active)),
        )
      ]
    ]

later-is_applied :
    (id : ℕ) (t t' : Tables)
    → Later t t'
    → is_applied id t.fixtures ≡ true
    → is_applied id t'.fixtures ≡ true
later-is_applied id t _ now m = m
later-is_applied id t t'' (committed_by {t' = t'} k h a before e) m =
    let (f, x, y, found, rows) = apply_result-committed k h a t' t'' e in
    rw rows (is_applied-complete_other id f.id x y t'.fixtures (later-is_applied id t t' before m))
later-is_applied id t t' (refused_by k h a e before refusal) m = later-is_applied id t t' before m

refused :
    (id h a : ℕ) (t : Tables)
    → is_applied id t.fixtures ≡ true
    → apply_score id h a t ≡ rolled_back result_already_applied
unfolding apply_score
refused id h a t m = elim (Option-cases (find_fixture id t.fixtures)) [
  | inl absent ↦ absurd (ground (arith, absent, m))
  | inr (f, found) ↦ ground (arith, found, m)
]

-- A league result that was committed is never applied again: after any later submissions that are
-- committed or rolled back here, every other score for the match is refused as already applied.
-- Nothing is said of submissions that go on to a cup tie or to a rollover.
pub apply_result_once :
    (id h' a' : ℕ) (h a : ℤ) (t t' t'' : Tables)
    → apply_result id h a t ≡ committed t'
    → Later t' t''
    → apply_result id (pos h') (pos a') t'' ≡ rolled_back result_already_applied
unfolding apply_result
apply_result_once id h' a' h a t t' t'' e later =
    let (f, m, n, found, rows) = apply_result-committed id h a t t' e in
    let (same, marked) = is_applied-complete id m n t.fixtures f found in
    refused id h' a' t'' (
      later-is_applied id t' t'' later
        (rw rows (subst (λ i. is_applied id (complete i m n t.fixtures) ≡ true) (sym same) marked)))

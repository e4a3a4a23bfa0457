-- ===== src/Competition/Qualify/Distinct.antt =====
-- No club enters twice: qualify.go, coreEntrants.
use touchline.Common.{
  ℕ, ◌+◌, ◌≤◌, ◌≡◌, inl, inr, true, false, Option, none, some, List, [], ◌∷◌, ◌++◌, arith, ◌==◌,
  if◌then◌else◌, Option-cases, drop, ◌&&◌, subst,
}
use touchline.Competition.Qualify.Model.{
  Origin, Band, Table, Reigning, Entrant, contains_club, seats,
}
use touchline.Competition.Qualify.Core.{
  add, effective_to, position_of, add_ranked, add_bands, find_band, next_best, add_ranked_champion,
  add_champion, core_entrants, band_ranks,
}

pub seats-append : (c : ℕ) (xs ys : List Entrant) → seats c (xs ++ ys) ≡ seats c xs + seats c ys
seats-append c [] ys = omega arith
seats-append c (x ∷ xs) ys = omega (arith, seats-append c xs ys)

pub contains_club-seats :
    (out : List Entrant) (c : ℕ) → contains_club out c ≡ (if seats c out == 0 then false else true)
contains_club-seats [] c = ground arith
contains_club-seats (e ∷ out) c = ground (arith, contains_club-seats out c)

-- Each club has one entry at most.
abbrev pub OneSeat : List Entrant → Type 0
OneSeat out = (c : ℕ) → seats c out ≤ 1

pub seats-add :
    (c x : ℕ) (o : Origin) (r : ℕ) (out : List Entrant)
    → seats c (add out x o r) ≡ (if x == c && seats c out == 0 then 1 else seats c out)
unfolding add
seats-add c x o r out = ground (
  arith,
  contains_club-seats out x,
  seats-append c out (record { club = x; origin = o; rank = r } ∷ []),
)

add-OneSeat :
    (x : ℕ) (o : Origin) (r : ℕ) (out : List Entrant) → OneSeat out → OneSeat (add out x o r)
add-OneSeat x o r out h c = ground (arith, seats-add c x o r out, h c)

add_ranked-OneSeat :
    (cs : List ℕ) (rank : ℕ) (out : List Entrant) → OneSeat out → OneSeat (add_ranked out rank cs)
unfolding add_ranked
add_ranked-OneSeat [] rank out h = h
add_ranked-OneSeat (c ∷ cs) rank out h =
    add_ranked-OneSeat cs (rank + 1) (add out c Origin.position rank) (add-OneSeat c _ rank out h)

next_best-OneSeat :
    (cs : List ℕ) (rank : ℕ) (out : List Entrant) → OneSeat out → OneSeat (next_best out rank cs)
unfolding next_best
next_best-OneSeat [] rank out h x = h x
next_best-OneSeat (c ∷ cs) rank out h x = ground (
  arith,
  next_best-OneSeat cs (rank + 1) out h x,
  h x,
  add-OneSeat c Origin.champion_next_best rank out h x,
)

module _ (tables : ℕ → Option Table) where
  add_bands-OneSeat :
      (bands : List Band) (out out' : List Entrant)
      → add_bands tables out bands ≡ some out'
      → OneSeat out
      → OneSeat out'
  unfolding add_bands
  add_bands-OneSeat [] out out' e h = let same : out ≡ out' = ground arith in subst OneSeat same h
  add_bands-OneSeat (b ∷ bands) out out' e h = elim (Option-cases (tables b.league)) [
    | inl n ↦ add_bands-OneSeat bands out out' (ground (arith, n)) h
    | inr (t, n) ↦ elim (Option-cases (band_ranks t.ranks b)) [
      | inl p ↦ absurd (ground (arith, n, p))
      | inr (cut, p) ↦
          add_bands-OneSeat bands (add_ranked out b.from cut) out' (ground (arith, n, p))
            (add_ranked-OneSeat cut b.from out h)
    ]
  ]

  add_champion-OneSeat :
      (bands : List Band) (out : List Entrant) (r : Reigning)
      → OneSeat out
      → OneSeat (add_champion tables bands out r)
  unfolding add_champion add_ranked_champion
  add_champion-OneSeat bands out r h x = elim (Option-cases (find_band bands r.league)) [
    | inl n ↦ rw (n, add_champion) (add-OneSeat r.club _ 0 out h x)
    | inr (b, n) ↦ elim (Option-cases (tables r.league)) [
      | inl n' ↦ ground (arith, n, n', add-OneSeat r.club Origin.champion_direct 0 out h x)
      | inr (t, n') ↦
          let rank = position_of t.ranks r.club in
          let last = effective_to t.ranks b.to in
          ground (
            arith,
            n,
            n',
            add-OneSeat r.club Origin.champion_out_of_band 0 out h x,
            add-OneSeat r.club Origin.champion_out_of_band rank out h x,
            next_best-OneSeat (drop last t.ranks) (last + 1) out h x,
          )
    ]
  ]

  -- In a computed field every club has one entry at most, whatever bands overlap, tables repeat,
  -- and champion is entered on top.
  pub core_entrants-OneSeat :
      (bands : List Band) (reigning : Option Reigning) (out : List Entrant)
      → core_entrants tables bands reigning ≡ some out
      → OneSeat out
  unfolding core_entrants
  core_entrants-OneSeat bands none out e = add_bands-OneSeat bands [] out e (λ c. omega arith)
  core_entrants-OneSeat bands (some r) out e = elim (Option-cases (add_bands tables [] bands)) [
    | inl n ↦ absurd (ground (arith, n))
    | inr (cuts, n) ↦
        let same : add_champion tables bands cuts r ≡ out = ground (arith, n) in
        subst OneSeat same
          (add_champion-OneSeat bands cuts r (add_bands-OneSeat bands [] cuts n (λ c. omega arith)))
  ]

-- ===== src/Competition/Qualify/Cuts.antt =====
-- The clubs that the bands bring in: qualify.go, coreEntrants.
use touchline.Common.{
  ℕ, ◌+◌, ◌-◌, ◌≤◌, ◌≡◌, inl, inr, refl, Bool, true, false, Option, none, some, List, [], ◌∷◌, ◌++◌,
  arith, leb, ◌==◌, if◌then◌else◌, Bool-cases, Option-cases, drop, ◌||◌, elem, All, take, length,
  ◌&&◌, zero, suc, ◌∙◌,
}
use touchline.Competition.Qualify.Model.{Origin, Band, Table, Entrant, contains_club}
use touchline.Competition.Qualify.Core.{
  add, effective_to, band_ranks, add_ranked, add_bands, core_entrants,
}

-- The band starts at a position of the table (validateQualBand).
abbrev pub Starts : Band → Type 0
Starts b = 1 ≤ b.from

-- The independent reading of a band: the club stands in the table at a place of the band, the places
-- counted from 1. A band with no end runs to the foot of the table.
abbrev pub before_end : ℕ → Option ℕ → Bool
before_end place none = true
before_end place (some to) = leb place to

abbrev pub stands_in : Band → ℕ → List ℕ → ℕ → Bool
stands_in b place [] c = false
stands_in b place (r ∷ ranks) c =
    if r == c && (leb b.from place && before_end place b.to)
    then true
    else stands_in b (place + 1) ranks c

abbrev pub in_cut : Option Table → Band → ℕ → Bool
in_cut none b c = false
in_cut (some t) b c = stands_in b 1 t.ranks c

abbrev pub in_cuts : (ℕ → Option Table) → List Band → ℕ → Bool
in_cuts tables [] c = false
in_cuts tables (b ∷ bands) c = if in_cut (tables b.league) b c then true else in_cuts tables bands c

pub contains-append :
    (out : List Entrant) (e : Entrant) (c : ℕ)
    → contains_club (out ++ e ∷ []) c ≡ contains_club out c || e.club == c
contains-append [] e c = ground arith
contains-append (x ∷ out) e c = ground (arith, contains-append out e c)

pub contains-add :
    (out : List Entrant) (x : ℕ) (o : Origin) (r c : ℕ)
    → contains_club (add out x o r) c ≡ contains_club out c || x == c
unfolding add
contains-add out x o r c =
    ground (arith, contains-append out (record { club = x; origin = o; rank = r }) c)

contains-add_ranked :
    (cs : List ℕ) (out : List Entrant) (rank c : ℕ)
    → contains_club (add_ranked out rank cs) c ≡ contains_club out c || elem c cs
unfolding add_ranked
contains-add_ranked [] out rank c = ground arith
contains-add_ranked (x ∷ cs) out rank c =
    let rest = contains-add_ranked cs (add out x Origin.position rank) (rank + 1) c in
    let now = contains-add out x Origin.position rank c in ground (arith, rest, now)

-- With an end `hi`, which the table need not reach.
abbrev stands_to : ℕ → ℕ → ℕ → List ℕ → ℕ → Bool
stands_to lo hi place [] c = false
stands_to lo hi place (r ∷ ranks) c =
    if r == c && (leb lo place && leb place hi) then true else stands_to lo hi (place + 1) ranks c

nothing_taken : (n c : ℕ) → elem c (take n []) ≡ false
nothing_taken zero c = refl
nothing_taken (suc n) c = refl

nothing_dropped : (n : ℕ) → drop {A = ℕ} n [] ≡ []
nothing_dropped zero = refl
nothing_dropped (suc n) = refl

stands_to-take :
    (lo hi place : ℕ) (ranks : List ℕ) (c : ℕ)
    → lo ≤ place
    → elem c (take (hi + 1 - place) ranks) ≡ stands_to lo hi place ranks c
stands_to-take lo hi place [] c h = nothing_taken (hi + 1 - place) c
stands_to-take lo hi place (r ∷ ranks) c h = elim (Bool-cases (leb place hi)) [
  | inl inside ↦
      let size : hi + 1 - place ≡ suc (hi + 1 - (place + 1)) = ground (arith, inside) in
      rw size (ground (arith, inside, stands_to-take lo hi (place + 1) ranks c (omega arith)))
  | inr past ↦
      let size : hi + 1 - place ≡ 0 = ground (arith, past) in
      let size' : hi + 1 - (place + 1) ≡ 0 = ground (arith, past) in
      let rest = rw size' at (stands_to-take lo hi (place + 1) ranks c (omega arith)) in
      rw size (ground (arith, past, rest))
]

stands_to-drop :
    (lo hi place : ℕ) (ranks : List ℕ) (c : ℕ)
    → place ≤ lo
    → elem c (take (hi + 1 - lo) (drop (lo - place) ranks)) ≡ stands_to lo hi place ranks c
stands_to-drop lo hi place [] c h =
    rw (nothing_dropped (lo - place)) (nothing_taken (hi + 1 - lo) c)
stands_to-drop lo hi place (r ∷ ranks) c h = elim (Bool-cases (lo == place)) [
  | inl here ↦
      let gap : lo - place ≡ 0 = ground (arith, here) in
      let same : hi + 1 - lo ≡ hi + 1 - place = ground (arith, here) in
      rw (gap, same) (stands_to-take lo hi place (r ∷ ranks) c (ground (arith, here)))
  | inr later ↦
      let gap : lo - place ≡ suc (lo - (place + 1)) = ground (arith, later) in
      rw gap
        (ground (arith, later, stands_to-drop lo hi (place + 1) ranks c (ground (arith, later))))
]

-- The end of the code's cut is the band's own, as far as the table reaches.
stands_to-eq-stands_in :
    (b : Band) (place : ℕ) (ranks all : List ℕ) (c : ℕ)
    → place + length ranks ≡ length all + 1
    → stands_to b.from (effective_to all b.to) place ranks c ≡ stands_in b place ranks c
unfolding effective_to
stands_to-eq-stands_in b place [] all c h = refl
stands_to-eq-stands_in b place (r ∷ ranks) all c h =
    let rest = stands_to-eq-stands_in b (place + 1) ranks all c (omega (arith, h)) in
    elim (Option-cases b.to) [
      | inl open_end ↦ ground (arith, open_end, rest, h)
      | inr (to, closed) ↦ ground (arith, closed, rest, h)
    ]

-- The code's cut of a band holds the clubs at its places.
pub band_ranks_total :
    (ranks : List ℕ) (b : Band)
    → Starts b
    → (cut : List ℕ) × (band_ranks ranks b ≡ some cut)
      × ((c : ℕ) → elem c cut ≡ stands_in b 1 ranks c)
unfolding band_ranks
band_ranks_total ranks b h =
    let hi = effective_to ranks b.to in
    let places : (c : ℕ)
        → elem c (take (hi + 1 - b.from) (drop (b.from - 1) ranks)) ≡ stands_in b 1 ranks c =
      λ c.
        stands_to-drop b.from hi 1 ranks c h
        ∙ stands_to-eq-stands_in b 1 ranks ranks c (omega arith) in
    elim (Bool-cases (leb hi (b.from - 1))) [
      | inl empty ↦
          let size : hi + 1 - b.from ≡ 0 = ground (arith, empty) in
          ([], ground (arith, empty), λ c. rw size at (places c))
      | inr some_left ↦
          let size : hi - (b.from - 1) ≡ hi + 1 - b.from = omega (arith, h) in
          (
            take (hi - (b.from - 1)) (drop (b.from - 1) ranks),
            ground (arith, some_left),
            λ c. rw size (places c),
          )
    ]

module _ (tables : ℕ → Option Table) where
  contains-add_bands :
      (bands : List Band) (out : List Entrant)
      → All Starts bands
      → (out' : List Entrant) × (add_bands tables out bands ≡ some out')
        × ((c : ℕ) → contains_club out' c ≡ contains_club out c || in_cuts tables bands c)
  unfolding add_bands
  contains-add_bands [] out h = (out, refl, λ c. ground arith)
  contains-add_bands (b ∷ bands) out h = elim (Option-cases (tables b.league)) [
    | inl n ↦
        let (out', e, same) = contains-add_bands bands out h.1 in
        (out', ground (arith, n, e), λ c. ground (arith, n, same c))
    | inr (t, n) ↦
        let (cut, p, places) = band_ranks_total t.ranks b h.0 in
        let (out', e, same) = contains-add_bands bands (add_ranked out b.from cut) h.1 in
        (
          out',
          ground (arith, n, p, e),
          λ c. ground (arith, n, p, same c, places c, contains-add_ranked cut out b.from c),
        )
  ]

-- With no champion, and bands that start at place 1 or below, the field is never a panic, and it holds
-- exactly the clubs that stand at a place of some band in the band's table.
pub core_entrants-in_cuts :
    (tables : ℕ → Option Table) (bands : List Band)
    → All Starts bands
    → (cuts : List Entrant) × (core_entrants tables bands none ≡ some cuts)
      × ((c : ℕ) → contains_club cuts c ≡ in_cuts tables bands c)
unfolding core_entrants
core_entrants-in_cuts tables bands h =
    let (cuts, e, same) = contains-add_bands tables bands [] h in
    (cuts, e, λ c. ground (arith, same c))

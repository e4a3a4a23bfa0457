-- ===== src/Competition/Qualify/Champion.antt =====
-- The champion's place: qualify.go, coreEntrants.
use touchline.Common.{
  ℕ, zero, suc, ◌+◌, ◌-◌, ◌≤◌, ◌<◌, ◌≡◌, ◌⊎◌, inl, inr, refl, true, false, Option, none, some, List,
  [], ◌∷◌, ◌++◌, arith, leb, ◌==◌, Bool-cases, Option-cases, drop, ◌&&◌, elem, All, take, subst,
  sym, ◌∙◌,
}
use mathlib.Core.Path.{ap₂}
use touchline.Competition.Qualify.Model.{Origin, Band, Table, Reigning, Entrant, contains_club}
use touchline.Competition.Qualify.Core.{
  add, effective_to, band_ranks, position_from, position_of, find_band, next_best,
  add_ranked_champion, add_champion, core_entrants,
}
use touchline.Competition.Qualify.Cuts.{
  Starts, in_cut, in_cuts, contains-append, contains-add, core_entrants-in_cuts, band_ranks_total,
}

position_from-ge :
    (ranks : List ℕ) (i c : ℕ) → (position_from i ranks c ≡ 0) ⊎ (i ≤ position_from i ranks c)
unfolding position_from
position_from-ge [] i c = inl refl
position_from-ge (x ∷ ranks) i c = ground (arith, position_from-ge ranks (i + 1) c)

-- A club whose position lies in a range stands in the cut of that range.
elem_of_position :
    (ranks : List ℕ) (k m i c : ℕ)
    → 1 ≤ i
    → i + k ≤ position_from i ranks c
    → position_from i ranks c < i + k + m
    → elem c (take m (drop k ranks)) ≡ true
unfolding position_from
elem_of_position [] k m i c hi lo up = absurd (omega arith)
elem_of_position (x ∷ ranks) zero zero i c hi lo up = absurd (omega arith)
elem_of_position (x ∷ ranks) zero (suc m) i c hi lo up = elim (Bool-cases (x == c)) [
  | inl e ↦ rw e
  | inr e ↦
      let ahead = position_from-ge ranks (i + 1) c in
      rw e (elem_of_position ranks zero m (i + 1) c (omega arith) (ground arith) (ground arith))
]
elem_of_position (x ∷ ranks) (suc k) m i c hi lo up = elim (Bool-cases (x == c)) [
  | inl e ↦ absurd (ground arith)
  | inr e ↦ elem_of_position ranks k m (i + 1) c (omega arith) (ground arith) (ground arith)
]

-- The field is `cuts`, or `cuts` with one entry more, of a club that was not in it.
abbrev pub AtMostOneMore : List Entrant → List Entrant → Type 0
AtMostOneMore cuts out =
    (out ≡ cuts) ⊎ ((e : Entrant) × (out ≡ cuts ++ e ∷ []) × (contains_club cuts e.club ≡ false))

add_one_more : (out : List Entrant) (c : ℕ) (o : Origin) (r : ℕ) → AtMostOneMore out (add out c o r)
unfolding add
add_one_more out c o r = elim (Bool-cases (contains_club out c)) [
  | inl old ↦ inl (rw (old, add))
  | inr new ↦ inr (record { club = c; origin = o; rank = r }, rw (new, add), new)
]

next_best_one_more :
    (cs : List ℕ) (rank : ℕ) (out : List Entrant) → AtMostOneMore out (next_best out rank cs)
unfolding next_best
next_best_one_more [] rank out = inl refl
next_best_one_more (c ∷ cs) rank out = elim (Bool-cases (contains_club out c)) [
  | inl old ↦ rw (old, next_best) (next_best_one_more cs (rank + 1) out)
  | inr new ↦ inr (
    record { club = c; origin = Origin.champion_next_best; rank = rank },
    ground (arith, new),
    new,
  )
]

contains_one_more :
    (cuts out : List Entrant) (c : ℕ)
    → AtMostOneMore cuts out
    → contains_club cuts c ≡ true
    → contains_club out c ≡ true
contains_one_more cuts out c (inl same) h = rw same h
contains_one_more cuts out c (inr (e, more, new)) h =
    rw more (ground (arith, contains-append cuts e c))

find_band-in_cuts :
    (tables : ℕ → Option Table) (bands : List Band) (l c : ℕ) (b : Band) (t : Table) (cut : List ℕ)
    → find_band bands l ≡ some b
    → tables l ≡ some t
    → Starts b
    → band_ranks t.ranks b ≡ some cut
    → elem c cut ≡ true
    → in_cuts tables bands c ≡ true
unfolding find_band
find_band-in_cuts tables [] l c b t cut found n h p m = cc
find_band-in_cuts tables (b' ∷ bands) l c b t cut found n h p m =
    elim (Bool-cases (b'.league == l)) [
      | inl e ↦
          let same : b' ≡ b = ground (arith, e) in
          let at : b'.league ≡ l = ground arith in
          let listed : tables b'.league ≡ some t = subst (λ k. tables k ≡ some t) (sym at) n in
          let (places, total, stands) = band_ranks_total t.ranks b h in
          let whole : elem c places ≡ true = ground (arith, p, total, m) in
          let seen : in_cut (some t) b c ≡ true = sym (stands c) ∙ whole in
          let seen' : in_cut (tables b'.league) b' c ≡ true =
            ap₂ (λ o d. in_cut o d c) listed same ∙ seen in
          rw seen'
      | inr e ↦
          let later = find_band-in_cuts tables bands l c b t cut (ground (arith, e)) n h p m in
          ground (arith, later)
    ]

find_band-Starts :
    (bands : List Band) (l : ℕ) (b : Band)
    → find_band bands l ≡ some b
    → All Starts bands
    → Starts b
unfolding find_band
find_band-Starts [] l b found h = cc
find_band-Starts (b' ∷ bands) l b found h = elim (Bool-cases (b'.league == l)) [
  | inl e ↦ let same : b' ≡ b = ground (arith, e) in subst Starts same h.0
  | inr e ↦ find_band-Starts bands l b (ground (arith, e)) h.1
]

-- The champion's own position is in its band: the cut of the band holds it.
champion_in_cut :
    (ranks : List ℕ) (b : Band) (c : ℕ)
    → Starts b
    → b.from ≤ position_of ranks c
    → position_of ranks c ≤ effective_to ranks b.to
    → (cut : List ℕ) × (band_ranks ranks b ≡ some cut) × (elem c cut ≡ true)
unfolding band_ranks position_of
champion_in_cut ranks b c h lo up =
    let last = effective_to ranks b.to in
    let start = b.from - 1 in
    (
      take (last - start) (drop start ranks),
      ground arith,
      elem_of_position ranks start (last - start) 1 c (omega arith) (omega arith) (omega arith),
    )

module _ (tables : ℕ → Option Table) (bands : List Band) (cuts : List Entrant) (r : Reigning)
    (starts : All Starts bands)
    (in_field : (c : ℕ) → contains_club cuts c ≡ in_cuts tables bands c) where
  -- What the champion's place must give.
  record Entitled (out : List Entrant) : Type 0 where
    present : contains_club out r.club ≡ true
    one_more : AtMostOneMore cuts out

  added-Entitled : (o : Origin) (rank : ℕ) → Entitled (add cuts r.club o rank)
  added-Entitled o rank = record {
    present = ground (arith, contains-add cuts r.club o rank r.club);
    one_more = add_one_more cuts r.club o rank;
  }

  ranked-Entitled :
      (b : Band) (t : Table)
      → find_band bands r.league ≡ some b
      → tables r.league ≡ some t
      → Entitled (add_ranked_champion cuts r b t)
  unfolding add_ranked_champion
  ranked-Entitled b t found n =
      let rank = position_of t.ranks r.club in
      let last = effective_to t.ranks b.to in
      elim (Bool-cases (rank == 0)) [
        | inl e ↦ rw (e, add_ranked_champion) (added-Entitled Origin.champion_out_of_band 0)
        | inr e ↦ elim (Bool-cases (leb b.from rank && leb rank last)) [
          | inr out_of_band ↦
              rw (e, out_of_band, add_ranked_champion)
                (added-Entitled Origin.champion_out_of_band rank)
          | inl in_band ↦
              let (cut, p, m) =
                champion_in_cut t.ranks b r.club (find_band-Starts bands r.league b found starts)
                  (ground (arith, in_band)) (ground (arith, in_band)) in
              let inside : contains_club cuts r.club ≡ true =
                in_field r.club
                ∙ find_band-in_cuts tables bands r.league r.club b t cut found n
                    (find_band-Starts bands r.league b found starts) p m in
              let more = next_best_one_more (drop last t.ranks) (last + 1) cuts in
              rw (e, in_band, add_ranked_champion)
                (record { present = contains_one_more cuts _ r.club more inside; one_more = more })
        ]
      ]

-- With valid bands and a reigning champion the field is never a panic. It has the champion, and it
-- is the field of the band cuts alone or that field with one entry more, of a club that no band
-- brings in: the champion's title is worth at most one place.
pub core_entrants-champion :
    (tables : ℕ → Option Table) (bands : List Band) (r : Reigning)
    → All Starts bands
    → (cuts out : List Entrant) × (core_entrants tables bands none ≡ some cuts)
      × (core_entrants tables bands (some r) ≡ some out)
      × (contains_club out r.club ≡ true)
      × AtMostOneMore cuts out
unfolding core_entrants add_champion
core_entrants-champion tables bands r starts =
    let (cuts, e, in_field) = core_entrants-in_cuts tables bands starts in
    elim (Option-cases (find_band bands r.league)) [
      | inl n ↦
          let right = added-Entitled tables bands cuts r starts in_field Origin.champion_direct 0 in
          (cuts, _, e, ground (arith, e, n), right.present, right.one_more)
      | inr (b, found) ↦ elim (Option-cases (tables r.league)) [
        | inl n ↦
            let right =
              added-Entitled tables bands cuts r starts in_field Origin.champion_direct 0 in
            (cuts, _, e, ground (arith, e, found, n), right.present, right.one_more)
        | inr (t, n) ↦
            let right = ranked-Entitled tables bands cuts r starts in_field b t found n in
            (cuts, _, e, ground (arith, e, found, n), right.present, right.one_more)
      ]
    ]

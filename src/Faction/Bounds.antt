-- ===== src/Faction/Bounds.antt =====
-- The numbers of the dressing room: engine.go, factionCohesion, cohere, UnrestFrom and epicentreFor.
use touchline.Common.{
  ℕ, ◌*◌, ◌≤◌, ◌≡◌, refl, ◌⊎◌, inl, inr, Bool, true, false, none, some, List, [], ◌∷◌, arith, ltb,
  ◌==◌, if◌then◌else◌, Bool-cases, ◌||◌, ◌&&◌, subst, sym,
}
use touchline.Common.Int.{ℤ, pos, negsuc, ◌+ℤ◌, quot}
use touchline.Faction.{
  Action, SquadMember, RelationshipEdge, bonds, clamp_int, faction_cohesion, cohere, score_of,
  epicentre_from, has_member,
}

clamp_int_range : (v : ℤ) → (c : ℕ) × (clamp_int v 10 95 ≡ pos c) × (10 ≤ c) × (c ≤ 95)
unfolding clamp_int
clamp_int_range (negsuc n) = (10, ground arith, omega arith, omega arith)
clamp_int_range (pos n) = elim (Bool-cases (ltb n 10)) [
  | inl low ↦ (10, ground (arith, low), omega arith, omega arith)
  | inr up ↦ elim (Bool-cases (ltb 95 n)) [
    | inl high ↦ (95, ground (arith, up, high), omega arith, omega arith)
    | inr within ↦ (n, ground (arith, up, within), ground (arith, up), ground (arith, within))
  ]
]

-- The cohesion of any group over any relationships is a number of 10 to 95, and the bonding branch
-- keeps it there and never lowers it.
pub faction_cohesion-cohere :
    (ids : List ℕ) (edges : List RelationshipEdge)
    → (c : ℕ) × (faction_cohesion ids edges ≡ pos c)
      × (10 ≤ c)
      × (c ≤ 95)
      × (c ≤ cohere c)
      × (cohere c ≤ 95)
unfolding faction_cohesion cohere
faction_cohesion-cohere ids edges =
    let b = bonds ids edges in
    elim (Bool-cases (b.1 == 0)) [
      | inl lonely ↦ (10, rw lonely refl, omega arith, omega arith, ground arith, ground arith)
      | inr bound ↦
          let (c, e, lo, hi) = clamp_int_range (pos 50 +ℤ quot (quot b.0 (2 * b.1)) 2) in
          (c, rw bound e, lo, hi, ground arith, ground arith)
    ]

-- A member with a better score for the action, or with the same score and a smaller id.
abbrev pub beats : Action → SquadMember → SquadMember → Bool
beats a m b =
    ltb (score_of a b) (score_of a m) || (score_of a m == score_of a b && ltb m.player b.player)

abbrev pub Named : List SquadMember → Type 0
Named [] = Unit {0}
Named (m ∷ members) = (1 ≤ m.player) × Named members

-- No member of the list beats `b`.
abbrev pub NoneBeats : Action → SquadMember → List SquadMember → Type 0
NoneBeats a b [] = Unit {0}
NoneBeats a b (m ∷ members) = (beats a m b ≡ false) × NoneBeats a b members

beats_weak :
    (a : Action) (x y z : SquadMember)
    → beats a x y ≡ false
    → beats a y z ≡ false
    → beats a x z ≡ false
beats_weak a x y z h k = ground arith

beats_asymm : (a : Action) (x y : SquadMember) → beats a x y ≡ true → beats a y x ≡ false
beats_asymm a x y h = ground arith

beats_irrefl : (a : Action) (x : SquadMember) → beats a x x ≡ false
beats_irrefl a x = ground arith

listed :
    (m w : SquadMember) (members : List SquadMember)
    → (w ≡ m) ⊎ (has_member w.player members ≡ true)
    → has_member w.player (m ∷ members) ≡ true
listed m w members (inl e) =
    subst (λ x. has_member x.player (m ∷ members) ≡ true) (sym e) (ground arith)
listed m w members (inr e) = ground (arith, e)

kept :
    (m b w : SquadMember) (members : List SquadMember)
    → (w ≡ b) ⊎ (has_member w.player members ≡ true)
    → (w ≡ b) ⊎ (has_member w.player (m ∷ members) ≡ true)
kept m b w members (inl e) = inl e
kept m b w members (inr e) = inr (ground (arith, e))

epicentre_from-some :
    (a : Action) (b : SquadMember) (members : List SquadMember)
    → 1 ≤ b.player
    → Named members
    → (w : SquadMember) × (epicentre_from a (some b) members ≡ some w)
      × (beats a b w ≡ false)
      × NoneBeats a w members
      × (1 ≤ w.player)
      × ((w ≡ b) ⊎ (has_member w.player members ≡ true))
unfolding epicentre_from
epicentre_from-some a b [] h hs = (b, refl, beats_irrefl a b, tt, h, inl refl)
epicentre_from-some a b (m ∷ members) h (hm, hs) = elim (Bool-cases (beats a m b)) [
  | inl better ↦
      let (w, e, top, none_beats, named, from) = epicentre_from-some a m members hm hs in
      let same : (if ltb (score_of a b) (score_of a m)
              || (score_of a m == score_of a b && (b.player == 0 || ltb m.player b.player))
            then m
            else b)
          ≡ m =
        ground (arith, better) in
      (
        w,
        rw same e,
        beats_weak a b m w (beats_asymm a m b better) top,
        (top, none_beats),
        named,
        inr (listed m w members from),
      )
  | inr worse ↦
      let (w, e, top, none_beats, named, from) = epicentre_from-some a b members h hs in
      let same : (if ltb (score_of a b) (score_of a m)
              || (score_of a m == score_of a b && (b.player == 0 || ltb m.player b.player))
            then m
            else b)
          ≡ b =
        ground (arith, worse) in
      (
        w,
        rw same e,
        top,
        (beats_weak a m b w worse top, none_beats),
        named,
        kept m b w members from,
      )
]

-- Among members with ids the epicentre of an action is one of them, and no member beats it by score,
-- or by the smaller id where the scores are equal.
pub epicentre_from_best :
    (a : Action) (m : SquadMember) (members : List SquadMember)
    → Named (m ∷ members)
    → (w : SquadMember) × (epicentre_from a none (m ∷ members) ≡ some w)
      × NoneBeats a w (m ∷ members)
      × (has_member w.player (m ∷ members) ≡ true)
unfolding epicentre_from
epicentre_from_best a m members (hm, hs) =
    let (w, e, top, none_beats, _, from) = epicentre_from-some a m members hm hs in
    (w, e, (top, none_beats), listed m w members from)

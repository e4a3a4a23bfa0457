-- ===== src/Competition/Resolve/Winner/Best.antt =====
-- The kept cup is the best of the conflicting cups: resolve.go, pickWinner.
use touchline.Common.{
  ℕ, ◌≤◌, ◌<◌, ◌≡◌, ◌⊎◌, inl, inr, refl, Bool, true, false, some, List, [], ◌∷◌, arith, ltb, ◌==◌,
  if◌then◌else◌, elem, Bool-cases, sym, ◌∙◌, subst, ==_iff,
}
use touchline.Competition.Qualify.Model.{Field}
use touchline.Competition.Resolve.Winner.{
  CupKey, club_cup_key, key_better, cup_key_better, best_cup, pick_winner,
}

-- The flags of a key are 0 or 1.
record IsKey (k : CupKey) : Type 0 where
  chosen_flag : k.chosen ≤ 1
  champion_flag : k.champion ≤ 1

-- One component of a lexicographic order, the larger first, and `rest` where it is equal.
abbrev lex : ℕ → ℕ → Bool → Bool
lex x y rest = if x == y then rest else ltb y x

abbrev Carries : Bool → Bool → Bool → Type 0
Carries r s t = r ≡ true → s ≡ false → t ≡ false

lex-Carries :
    (x y z : ℕ) {r s t : Bool} → Carries r s t → Carries (lex x y r) (lex z y s) (lex z x t)
lex-Carries x y z h e f = ground arith

flip-Carries :
    (x y z : ℕ) {r s t : Bool} → Carries r s t → Carries (lex y x r) (lex y z s) (lex x z t)
flip-Carries x y z h e f = ground arith

abbrev key_lex : CupKey → CupKey → Bool
key_lex a b = lex a.tier b.tier (
    lex a.chosen b.chosen
      (lex a.champion b.champion (lex b.created a.created (lex b.id a.id false))))

key_better-key_lex : (a b : CupKey) → IsKey a → IsKey b → key_better a b ≡ key_lex a b
unfolding key_better
key_better-key_lex a b ka kb = ground (arith, ka.chosen_flag, ka.champion_flag)

key_lex-Carries : (a b c : CupKey) → Carries (key_lex a b) (key_lex c b) (key_lex c a)
key_lex-Carries a b c = lex-Carries a.tier b.tier c.tier (
    lex-Carries a.chosen b.chosen c.chosen (
      lex-Carries a.champion b.champion c.champion
        (flip-Carries a.created b.created c.created (flip-Carries a.id b.id c.id (λ e f. refl)))))

key_lex_irrefl : (a : CupKey) → key_lex a a ≡ false
key_lex_irrefl a = ground arith

key_lex_asymm : (a b : CupKey) → key_lex a b ≡ true → key_lex b a ≡ false
key_lex_asymm a b h = key_lex-Carries a b b h (key_lex_irrefl b)

key_lex_total : (a b : CupKey) → key_lex a b ≡ false → (key_lex b a ≡ true) ⊎ (a.id ≡ b.id)
key_lex_total a b h = ground arith

module _ (fields : List Field) (choices : ℕ → List ℕ) (club : ℕ) where
  club_cup_key-IsKey : (cup : ℕ) → IsKey (club_cup_key fields choices club cup)
  unfolding club_cup_key
  club_cup_key-IsKey cup = ground arith

  -- `a` beats `b` for the club.
  abbrev beats : ℕ → ℕ → Bool
  beats a b = cup_key_better fields choices club a b

  beats-key_lex :
      (a b : ℕ)
      → beats a b
        ≡ key_lex (club_cup_key fields choices club a) (club_cup_key fields choices club b)
  unfolding cup_key_better
  beats-key_lex a b = key_better-key_lex _ _ (club_cup_key-IsKey a) (club_cup_key-IsKey b)

  beats-Carries : (a b c : ℕ) → Carries (beats a b) (beats c b) (beats c a)
  beats-Carries a b c h k =
      beats-key_lex c a
      ∙ key_lex-Carries (club_cup_key fields choices club a) (club_cup_key fields choices club b)
          (club_cup_key fields choices club c) (sym (beats-key_lex a b) ∙ h)
          (sym (beats-key_lex c b) ∙ k)

  beats_irrefl : (a : ℕ) → beats a a ≡ false
  beats_irrefl a = beats-key_lex a a ∙ key_lex_irrefl (club_cup_key fields choices club a)

  beats_total : (a b : ℕ) → beats a b ≡ false → (beats b a ≡ true) ⊎ (a ≡ b)
  beats_total a b h =
      elim (key_lex_total (club_cup_key fields choices club a) (club_cup_key fields choices club b)
        (sym (beats-key_lex a b) ∙ h)) [
          | inl e ↦ inl (beats-key_lex b a ∙ e)
          | inr e ↦ inr (unfold club_cup_key in e)
        ]

  -- What is not beaten by `b` is not beaten by what does not beat `b`.
  beats_weak : (a b c : ℕ) → beats a b ≡ false → beats b c ≡ false → beats a c ≡ false
  beats_weak a b c h k = elim (beats_total a b h) [
    | inr same ↦ rw same k
    | inl e ↦ elim (Bool-cases (beats a c)) [
      | inr no_beat ↦ no_beat
      | inl beat ↦ cc (beats-Carries a c b beat k)
    ]
  ]

  abbrev Unbeaten : ℕ → ℕ → List ℕ → Type 0
  Unbeaten w best cups =
      ((w ≡ best) ⊎ (elem w cups ≡ true))
      × (beats best w ≡ false)
      × ((k : ℕ) → elem k cups ≡ true → beats k w ≡ false)

  -- The fold ends with its start or a cup of the list, which none of these beats.
  best_cup-Unbeaten :
      (cups : List ℕ) (best : ℕ) → Unbeaten (best_cup fields choices club best cups) best cups
  unfolding best_cup
  best_cup-Unbeaten [] best = (inl refl, beats_irrefl best, λ k m. cc)
  best_cup-Unbeaten (cup ∷ cups) best = elim (Bool-cases (beats cup best)) [
    | inl better ↦
        let w = best_cup fields choices club cup cups in
        let (from, kept, rest) = best_cup-Unbeaten cups cup in
        let worse : beats best cup ≡ false = elim (Bool-cases (beats best cup)) [
          | inr e ↦ e
          | inl e ↦ cc (beats-Carries best cup cup e (beats_irrefl cup), better)
        ] in
        subst
          (λ b.
            Unbeaten (best_cup fields choices club (if b then cup else best) cups) best
              (cup ∷ cups))
          (sym better)
          (
            inr (elem_either w cup cups from),
            beats_weak best cup w worse kept,
            λ k m. beats_cons k cup cups w m kept rest,
          )
    | inr worse ↦
        let w = best_cup fields choices club best cups in
        let (from, kept, rest) = best_cup-Unbeaten cups best in
        subst
          (λ b.
            Unbeaten (best_cup fields choices club (if b then cup else best) cups) best
              (cup ∷ cups))
          (sym worse)
          (
            keep_either w best cup cups from,
            kept,
            λ k m. beats_cons k cup cups w m (beats_weak cup best w worse kept) rest,
          )
  ]
    where
      elem_either : (w c : ℕ) (cs : List ℕ) → (w ≡ c) ⊎ (elem w cs ≡ true) → elem w (c ∷ cs) ≡ true
      elem_either w c cs h = ground arith

      keep_either :
          (w b c : ℕ) (cs : List ℕ)
          → (w ≡ b) ⊎ (elem w cs ≡ true)
          → (w ≡ b) ⊎ (elem w (c ∷ cs) ≡ true)
      keep_either w b c cs (inl h) = inl h
      keep_either w b c cs (inr h) = inr (ground arith)

      beats_cons :
          (k c : ℕ) (cs : List ℕ) (w : ℕ)
          → elem k (c ∷ cs) ≡ true
          → beats c w ≡ false
          → ((j : ℕ) → elem j cs ≡ true → beats j w ≡ false)
          → beats k w ≡ false
      beats_cons k c cs w m now later = elim (Bool-cases (c == k)) [
        | inl e ↦ subst (λ j. beats j w ≡ false) ((==_iff c k).0 e) now
        | inr e ↦ later k (rw e at m)
      ]

-- The order that decides, component by component: the higher tier, then the manager's unique choice,
-- then the title of the reigning champion, then the cup made earlier, then the smaller id.
abbrev pub Precedes : CupKey → CupKey → Type 0
Precedes a b =
    (b.tier < a.tier)
    ⊎ ((a.tier ≡ b.tier) × (b.chosen < a.chosen))
    ⊎ ((a.tier ≡ b.tier) × (a.chosen ≡ b.chosen) × (b.champion < a.champion))
    ⊎ ((a.tier ≡ b.tier)
        × (a.chosen ≡ b.chosen)
        × (a.champion ≡ b.champion)
        × (a.created < b.created))
    ⊎ ((a.tier ≡ b.tier)
        × (a.chosen ≡ b.chosen)
        × (a.champion ≡ b.champion)
        × (a.created ≡ b.created)
        × (a.id < b.id))

key_lex-Precedes : (a b : CupKey) → key_lex a b ≡ true → Precedes a b
key_lex-Precedes a b h = ground arith

pub pick_winner_best :
    (fields : List Field) (choices : ℕ → List ℕ) (club cup : ℕ) (cups : List ℕ)
    → (w : ℕ) × (pick_winner fields choices club (cup ∷ cups) ≡ some w)
      × (elem w (cup ∷ cups) ≡ true)
      × ((k : ℕ)
          → elem k (cup ∷ cups) ≡ true
          → (w ≡ k)
            ⊎ Precedes (club_cup_key fields choices club w) (club_cup_key fields choices club k))
unfolding pick_winner
pick_winner_best fields choices club cup cups =
    let w = best_cup fields choices club cup cups in
    let (from, kept, rest) = best_cup-Unbeaten fields choices club cups cup in
    let unbeaten : (k : ℕ)
        → elem k (cup ∷ cups) ≡ true
        → cup_key_better fields choices club k w ≡ false =
      λ k m. elim (Bool-cases (cup == k)) [
        | inl e ↦
            subst (λ j. cup_key_better fields choices club j w ≡ false) ((==_iff cup k).0 e) kept
        | inr e ↦ rest k (rw e at m)
      ] in
    (
      w,
      refl,
      ground (arith, from),
      λ k m. elim (beats_total fields choices club k w (unbeaten k m)) [
        | inr same ↦ inl (sym same)
        | inl better ↦
            inr (key_lex-Precedes _ _ (sym (beats-key_lex fields choices club w k) ∙ better))
      ],
    )

-- ===== src/Faction/Spread.antt =====
-- Whom a morale spill reaches: engine.go, Contagion.
use touchline.Common.{
  ℕ, zero, suc, ◌+◌, ◌-◌, ◌≤◌, ◌<◌, ◌≡◌, refl, ◌⊎◌, inl, inr, true, false, some, List, [], ◌∷◌,
  ◌++◌, arith, leb, ◌==◌, if◌then◌else◌, length, count, elem, count-append, length-append,
  Bool-cases, subst, ==_iff, sym, ◌∙◌,
}
use touchline.Faction.Related.{Chain, start, link, elem-adjacency, elem-count}
use touchline.Faction.{
  SquadSnapshot, contagion_cap, hop_bump, adjacency, Spill, cap, visit, spread, Contagion,
  has_member, contagion_of, contagion_from, contagion,
}

-- The players that the lists of neighbours join to the epicentre.
pub data Reaches (adj : ℕ → List ℕ) (src : ℕ) : ℕ → Type 0 where
  here : Reaches adj src src
  next : {x : ℕ} (y : ℕ) → Reaches adj src x → elem y (adj x) ≡ true → Reaches adj src y

abbrev queued : List (ℕ × ℕ) → List ℕ
queued [] = []
queued ((id, depth) ∷ queue) = id ∷ queued queue

elem-append : (x y : ℕ) (xs : List ℕ) → elem x (xs ++ y ∷ []) ≡ (if elem x xs then true else y == x)
elem-append x y [] = ground arith
elem-append x y (z ∷ xs) = ground (arith, elem-append x y xs)

queued-append :
    (x y d : ℕ) (queue : List (ℕ × ℕ))
    → elem x (queued (queue ++ (y, d) ∷ [])) ≡ (if elem x (queued queue) then true else y == x)
queued-append x y d [] = ground arith
queued-append x y d ((z, e) ∷ queue) = ground (arith, queued-append x y d queue)

-- How many nodes can still be worked off: those of the queue, and one for each point to the cap.
abbrev work : Spill → ℕ
work s = length s.queue + (84 - s.conf)

record Visited (nbs : List ℕ) (s s' : Spill) : Type 0 where
  conf_up : s.conf ≤ s'.conf
  conf_cap : s'.conf ≤ 84
  less : work s' ≤ work s
  order_up : (x : ℕ) → elem x s.order ≡ true → elem x s'.order ≡ true
  once : ((x : ℕ) → count x s.order ≤ 1) → (x : ℕ) → count x s'.order ≤ 1
  origin : (x : ℕ) → elem x s'.order ≡ true → (elem x s.order ≡ true) ⊎ (elem x nbs ≡ true)
  queue_up : (x : ℕ) → elem x (queued s.queue) ≡ true → elem x (queued s'.queue) ≡ true
  enqueued :
      (x : ℕ) → elem x s'.order ≡ true → (elem x s.order ≡ true) ⊎ (elem x (queued s'.queue) ≡ true)
  listed :
      (x : ℕ)
      → elem x (queued s'.queue) ≡ true
      → (elem x (queued s.queue) ≡ true) ⊎ (elem x s'.order ≡ true)
  all_in : s'.conf < 84 → (x : ℕ) → elem x nbs ≡ true → elem x s'.order ≡ true

hop_bump_positive : (depth : ℕ) → (1 ≤ hop_bump depth) × (hop_bump depth ≤ 10)
unfolding hop_bump
hop_bump_positive depth = ground arith

-- One neighbour that was not seen before.
enter : ℕ → ℕ → Spill → Spill
enter depth nb s = record {
  conf = cap (s.conf + hop_bump (depth + 1));
  order = s.order ++ nb ∷ [];
  queue = s.queue ++ (nb, depth + 1) ∷ [];
}

enter-Visited :
    (depth nb : ℕ) (s : Spill)
    → s.conf < 84
    → elem nb s.order ≡ false
    → Visited (nb ∷ []) s (enter depth nb s)
unfolding enter
enter-Visited depth nb s low new =
    let bump = hop_bump_positive (depth + 1) in
    record {
      conf_up = ground (arith, bump);
      conf_cap = ground arith;
      less = ground (arith, bump, length-append s.queue ((nb, depth + 1) ∷ []));
      order_up = λ x e. ground (arith, elem-append x nb s.order, e);
      once = λ h x. ground (
        arith,
        h x,
        count-append x s.order (nb ∷ []),
        elem-count nb s.order,
        elem-count x s.order,
        new,
      );
      origin = λ x e. ground (arith, elem-append x nb s.order, e);
      queue_up = λ x e. ground (arith, queued-append x nb (depth + 1) s.queue, e);
      enqueued = λ x e.
          ground (arith, elem-append x nb s.order, queued-append x nb (depth + 1) s.queue, e);
      listed = λ x e.
          ground (arith, elem-append x nb s.order, queued-append x nb (depth + 1) s.queue, e);
      all_in = λ h x e. ground (arith, elem-append x nb s.order, e);
    }

Visited-stop :
    (nb : ℕ) (nbs : List ℕ) (s s' : Spill)
    → Visited (nb ∷ []) s s'
    → 84 ≤ s'.conf
    → Visited (nb ∷ nbs) s s'
Visited-stop nb nbs s s' v full = record {
  conf_up = v.conf_up;
  conf_cap = v.conf_cap;
  less = v.less;
  order_up = v.order_up;
  once = v.once;
  origin = λ x e. ground (arith, v.origin x e);
  queue_up = v.queue_up;
  enqueued = v.enqueued;
  listed = v.listed;
  all_in = λ h x e. absurd (omega arith);
}

Visited-skip :
    (nb : ℕ) (nbs : List ℕ) (s s' : Spill)
    → Visited nbs s s'
    → elem nb s.order ≡ true
    → Visited (nb ∷ nbs) s s'
Visited-skip nb nbs s s' v seen = record {
  conf_up = v.conf_up;
  conf_cap = v.conf_cap;
  less = v.less;
  order_up = v.order_up;
  once = v.once;
  origin = λ x e. ground (arith, v.origin x e);
  queue_up = v.queue_up;
  enqueued = v.enqueued;
  listed = v.listed;
  all_in = λ h x e. elim (Bool-cases (nb == x)) [
    | inl same ↦ subst (λ y. elem y s'.order ≡ true) ((==_iff nb x).0 same) (v.order_up nb seen)
    | inr other ↦ v.all_in h x (rw other at e)
  ];
}

Visited-trans :
    (nb : ℕ) (nbs : List ℕ) (s t u : Spill)
    → Visited (nb ∷ []) s t
    → Visited nbs t u
    → Visited (nb ∷ nbs) s u
Visited-trans nb nbs s t u v w = record {
  conf_up = omega (arith, v.conf_up, w.conf_up);
  conf_cap = w.conf_cap;
  less = omega (arith, v.less, w.less);
  order_up = λ x e. w.order_up x (v.order_up x e);
  once = λ h. w.once (v.once h);
  origin = λ x e. ground (arith, w.origin x e, v.origin x);
  queue_up = λ x e. w.queue_up x (v.queue_up x e);
  enqueued = λ x e. ground (arith, w.enqueued x e, v.enqueued x, w.queue_up x);
  listed = λ x e. ground (arith, w.listed x e, v.listed x, w.order_up x);
  all_in = λ h x e. elim (Bool-cases (nb == x)) [
    | inl same ↦
        subst (λ y. elem y u.order ≡ true) ((==_iff nb x).0 same)
          (w.order_up nb (v.all_in (omega (arith, w.conf_up)) nb (ground arith)))
    | inr other ↦ w.all_in h x (rw other at e)
  ];
}

visit-Visited :
    (depth : ℕ) (nbs : List ℕ) (s : Spill) → s.conf < 84 → Visited nbs s (visit depth nbs s)
unfolding visit enter
visit-Visited depth [] s low = record {
  conf_up = omega arith;
  conf_cap = omega arith;
  less = omega arith;
  order_up = λ x e. e;
  once = λ h. h;
  origin = λ x e. inl e;
  queue_up = λ x e. e;
  enqueued = λ x e. inl e;
  listed = λ x e. inl e;
  all_in = λ h x e. cc;
}
visit-Visited depth (nb ∷ nbs) s low = elim (Bool-cases (elem nb s.order)) [
  | inl seen ↦ rw seen (Visited-skip nb nbs s _ (visit-Visited depth nbs s low) seen)
  | inr new ↦
      let v = enter-Visited depth nb s low new in
      elim (Bool-cases (leb contagion_cap (enter depth nb s).conf)) [
        | inl full ↦
            rw new (rw full (Visited-stop nb nbs s (enter depth nb s) v (ground (arith, full))))
        | inr below ↦ rw new (
            rw below (
              Visited-trans nb nbs s (enter depth nb s) _ v
                (visit-Visited depth nbs (enter depth nb s) (ground (arith, below)))))
      ]
]

-- The players met so far: each once, each joined to the epicentre; of those that have left the queue
-- every neighbour is met.
record Spreads (adj : ℕ → List ℕ) (src : ℕ) (s : Spill) : Type 0 where
  at_least : 24 ≤ s.conf
  once : (x : ℕ) → count x s.order ≤ 1
  reach : (x : ℕ) → elem x s.order ≡ true → Reaches adj src x
  listed : (x : ℕ) → elem x (queued s.queue) ≡ true → elem x s.order ≡ true
  closed :
      (x : ℕ)
      → elem x s.order ≡ true
      → (elem x (queued s.queue) ≡ true) ⊎ ((y : ℕ) → elem y (adj x) ≡ true → elem y s.order ≡ true)
  epicentre : elem src s.order ≡ true

record Ended (adj : ℕ → List ℕ) (src : ℕ) (s : Spill) : Type 0 where
  at_least : 24 ≤ s.conf
  at_most : s.conf ≤ 84
  once : (x : ℕ) → count x s.order ≤ 1
  reach : (x : ℕ) → elem x s.order ≡ true → Reaches adj src x
  epicentre : elem src s.order ≡ true
  all_reached : s.conf < 84 → (x : ℕ) → Reaches adj src x → elem x s.order ≡ true

queue_cases :
    (q : List (ℕ × ℕ))
    → (q ≡ []) ⊎ ((id depth : ℕ) × (rest : List (ℕ × ℕ)) × (q ≡ (id, depth) ∷ rest))
queue_cases [] = inl refl
queue_cases ((id, depth) ∷ rest) = inr (id, depth, rest, refl)

module _ (adj : ℕ → List ℕ) (src : ℕ) where
  Spreads-empty : (s : Spill) → Spreads adj src s → s.conf < 84 → s.queue ≡ [] → Ended adj src s
  Spreads-empty s inv low empty = record {
    at_least = inv.at_least;
    at_most = omega arith;
    once = inv.once;
    reach = inv.reach;
    epicentre = inv.epicentre;
    all_reached = λ h. all_met;
  }
    where
      all_met : (x : ℕ) → Reaches adj src x → elem x s.order ≡ true
      all_met _ here = inv.epicentre
      all_met _ (next {x = y} z r e) = elim (inv.closed y (all_met y r)) [
        | inl waiting ↦ absurd (ground (arith, empty, waiting))
        | inr met ↦ met z e
      ]

  step_reach :
      (s s' : Spill) (id depth : ℕ) (rest : List (ℕ × ℕ))
      → Spreads adj src s
      → s.queue ≡ (id, depth) ∷ rest
      → Visited (adj id) (record s { queue = rest }) s'
      → (x : ℕ) → elem x s'.order ≡ true
      → Reaches adj src x
  step_reach s s' id depth rest inv first v x e = elim (v.origin x e) [
    | inl old ↦ inv.reach x old
    | inr new ↦ next x (inv.reach id (inv.listed id (ground (arith, first)))) new
  ]

  step-Spreads :
      (s s' : Spill) (id depth : ℕ) (rest : List (ℕ × ℕ))
      → Spreads adj src s
      → s.queue ≡ (id, depth) ∷ rest
      → Visited (adj id) (record s { queue = rest }) s'
      → s'.conf < 84
      → Spreads adj src s'
  step-Spreads s s' id depth rest inv first v low = record {
    at_least = omega (arith, inv.at_least, v.conf_up);
    once = v.once inv.once;
    reach = step_reach s s' id depth rest inv first v;
    listed = λ x e. ground (arith, v.listed x e, v.order_up x, inv.listed x, first);
    closed = λ x e. elim (v.enqueued x e) [
      | inr waiting ↦ inl waiting
      | inl old ↦ elim (inv.closed x old) [
        | inr met ↦ inr (λ y m. v.order_up y (met y m))
        | inl waiting ↦ elim (Bool-cases (id == x)) [
          | inl now ↦ inr (
              subst (λ z. (y : ℕ) → elem y (adj z) ≡ true → elem y s'.order ≡ true)
                ((==_iff id x).0 now) (v.all_in low))
          | inr later ↦ inl (v.queue_up x (ground (arith, first, waiting, later)))
        ]
      ]
    ];
    epicentre = v.order_up src inv.epicentre;
  }

  spread-Ended :
      (fuel : ℕ) (s : Spill)
      → Spreads adj src s
      → s.conf < 84
      → work s < fuel
      → (s' : Spill) × (spread fuel adj s ≡ some s') × Ended adj src s'
  unfolding spread
  spread-Ended zero s inv low enough = absurd (omega arith)
  spread-Ended (suc fuel) s inv low enough = elim (queue_cases s.queue) [
    | inl empty ↦ (s, ground (arith, empty), Spreads-empty s inv low empty)
    | inr (id, depth, rest, first) ↦
        let s1 = visit depth (adj id) (record s { queue = rest }) in
        let v = visit-Visited depth (adj id) (record s { queue = rest }) low in
        elim (Bool-cases (leb contagion_cap s1.conf)) [
          | inl full ↦ (
            s1,
            rw (first, spread) (rw full refl),
            record {
              at_least = omega (arith, inv.at_least, v.conf_up);
              at_most = v.conf_cap;
              once = v.once inv.once;
              reach = step_reach s s1 id depth rest inv first v;
              epicentre = v.order_up src inv.epicentre;
              all_reached = λ h. absurd (ground (arith, full));
            },
          )
          | inr below ↦
              let popped : length s.queue ≡ suc (length rest) = rw first refl in
              let (s', done, ended) =
                spread-Ended fuel s1
                  (step-Spreads s s1 id depth rest inv first v (ground (arith, below)))
                  (ground (arith, below)) (omega (arith, v.less, popped)) in
              (s', rw (first, spread) (rw below done), ended)
        ]
  ]

Reaches-Chain :
    (snap : SquadSnapshot) (src x : ℕ) → Reaches (adjacency snap) src x → Chain snap.edges src x
Reaches-Chain snap src _ here = start
Reaches-Chain snap src _ (next {x = x} y r e) =
    link y (Reaches-Chain snap src x r) (sym (elem-adjacency snap x y) ∙ e)

Chain-Reaches :
    (snap : SquadSnapshot) (src x : ℕ) → Chain snap.edges src x → Reaches (adjacency snap) src x
Chain-Reaches snap src _ start = here
Chain-Reaches snap src _ (link {x = x} y r e) =
    next y (Chain-Reaches snap src x r) (elem-adjacency snap x y ∙ e)

-- For a member of the squad the spill ends within its 62 rounds, with a confidence of 24 to 84. No
-- player is affected twice, the epicentre is, and whoever is affected is joined to the epicentre by a
-- chain of relationships, whichever of the two a relationship starts from; below the cap, everyone
-- so joined is affected.
pub contagion_spreads :
    (src : ℕ) (snap : SquadSnapshot)
    → has_member src snap.members ≡ true
    → (c : Contagion) × (contagion src snap ≡ some (contagion_of c))
      × (24 ≤ c.confidence)
      × (c.confidence ≤ 84)
      × (elem src c.affected ≡ true)
      × ((x : ℕ) → count x c.affected ≤ 1)
      × ((x : ℕ) → elem x c.affected ≡ true → Chain snap.edges src x)
      × (c.confidence < 84 → (x : ℕ) → Chain snap.edges src x → elem x c.affected ≡ true)
unfolding contagion contagion_from
contagion_spreads src snap member =
    let s0 : Spill = record { conf = 24; order = src ∷ []; queue = (src, 0) ∷ [] } in
    let (s, done, ended) =
      spread-Ended (adjacency snap) src 62 s0
        (record {
          at_least = omega arith;
          once = λ x. ground arith;
          reach = λ x e.
              subst (Reaches (adjacency snap) src) ((==_iff src x).0 (ground (arith, e))) here;
          listed = λ x e. e;
          closed = λ x e. inl e;
          epicentre = ground arith;
        })
        (omega arith) (omega arith) in
    (
      record { source = src; confidence = s.conf; affected = s.order },
      rw member (rw done refl),
      ended.at_least,
      ended.at_most,
      ended.epicentre,
      ended.once,
      λ x e. Reaches-Chain snap src x (ended.reach x e),
      λ h x r. ended.all_reached h x (Chain-Reaches snap src x r),
    )

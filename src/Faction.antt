-- ===== src/Faction.antt =====
-- The dressing-room engine: backend/internal/faction/engine.go and the types of model.go. A player is
-- a number in the order of the ids' text, and the empty id is 0. The explanations, which repeat the
-- numbers of a result for the reader, and the grouping into factions are left out.
pub mod Related
pub mod Spread
pub mod Bounds
use touchline.Common.{
  ℕ, zero, suc, ◌+◌, ◌-◌, ◌*◌, ◌/◌, Bool, true, false, ◌&&◌, ◌||◌, not, Option, none, some, List,
  [], ◌∷◌, ◌++◌, ltb, leb, ◌==◌, if◌then◌else◌, length, elem, map,
}
use touchline.Common.Sort.{sort_by}
use touchline.Common.Int.{ℤ, pos, ◌+ℤ◌, quot, ltb_ℤ, eqb_ℤ}

pub data Action : Type 0 where
  inspect missed_promise dropped_from_starting_xi benched_long_term wage_cut_offered : Action
  contract_approved transfer_bid_query transfer_bid_blocked released_from_squad : Action
  training_load_increased team_talk_motivational team_talk_critical : Action

pub record SquadMember : Type 0 where
  pub player : ℕ
  pub leadership : ℕ
  pub loyalty : ℕ
  pub volatility : ℕ

pub data Kind : Type 0 where
  friendship rivalry mentorship national_team academy former_teammate : Kind

pub record RelationshipEdge : Type 0 where
  pub from : ℕ
  pub to : ℕ
  pub strength : ℤ
  pub trust : ℤ
  pub kind : Kind

pub record SquadSnapshot : Type 0 where
  pub members : List SquadMember
  pub edges : List RelationshipEdge

abbrev pub contagion_start : ℕ
contagion_start = 24

abbrev pub contagion_hop_bump : ℕ
contagion_hop_bump = 10

abbrev pub contagion_hop_decay : ℕ
contagion_hop_decay = 2

abbrev pub contagion_cap : ℕ
contagion_cap = 84

abbrev pub unrest_threshold : ℕ
unrest_threshold = 60

abbrev pub en_masse_threshold : ℕ
en_masse_threshold = 80

abbrev pub cohesion_min : ℕ
cohesion_min = 10

abbrev pub cohesion_max : ℕ
cohesion_max = 95

abbrev pub cohesion_neutral : ℕ
cohesion_neutral = 50

abbrev pub bonding_cohesion_bump : ℕ
bonding_cohesion_bump = 6

-- The subtraction of the source goes below zero, and then below 1 as well.
unfoldable pub hop_bump : ℕ → ℕ
hop_bump depth =
    let b = contagion_hop_bump - (depth - 1) * contagion_hop_decay in
    if leb depth 1 then contagion_hop_bump else if ltb b 1 then 1 else b

unfoldable pub neighbours : ℕ → List RelationshipEdge → List ℕ
neighbours id [] = []
neighbours id (e ∷ edges) =
    (if e.from == id then e.to ∷ [] else [])
    ++ ((if e.to == id then e.from ∷ [] else []) ++ neighbours id edges)

-- `dedupeSorted` after its first item.
unfoldable pub dedupe_sorted_after : ℕ → List ℕ → List ℕ
dedupe_sorted_after last [] = []
dedupe_sorted_after last (v ∷ ids) =
    let rest = dedupe_sorted_after v ids in if last == v then rest else v ∷ rest

abbrev pub dedupe_sorted : List ℕ → List ℕ
dedupe_sorted [] = []
dedupe_sorted (v ∷ ids) = v ∷ dedupe_sorted_after v ids

unfoldable pub adjacency : SquadSnapshot → ℕ → List ℕ
unfolding neighbours dedupe_sorted_after
adjacency snap id = dedupe_sorted (sort_by ltb (neighbours id snap.edges))

-- The local state of the spill; `seen` of the source holds the players of `order`, always.
pub record Spill : Type 0 where
  pub conf : ℕ
  pub order : List ℕ
  pub queue : List (ℕ × ℕ)

abbrev pub cap : ℕ → ℕ
cap conf = if ltb contagion_cap conf then contagion_cap else conf

-- The loop over the neighbours of a node, which the cap breaks.
unfoldable pub visit : ℕ → List ℕ → Spill → Spill
unfolding hop_bump
visit depth [] s = s
visit depth (nb ∷ nbs) s =
    let skipped = visit depth nbs s in
    let next : Spill = record {
      conf = cap (s.conf + hop_bump (depth + 1));
      order = s.order ++ nb ∷ [];
      queue = s.queue ++ (nb, depth + 1) ∷ [];
    } in
    let later = visit depth nbs next in
    if elem nb s.order then skipped else if leb contagion_cap next.conf then next else later

-- The loop over the queue, on fuel; `none` is a loop that has not ended.
unfoldable pub spread : ℕ → (ℕ → List ℕ) → Spill → Option Spill
unfolding visit
spread zero adj s = none
spread (suc fuel) adj s = elim s.queue [
  | [] ↦ some s
  | (id, depth) ∷ queue ↦
      let visited = visit depth (adj id) (record s { queue = queue }) in
      elim (leb contagion_cap visited.conf) [
        | true ↦ some visited
        | false ↦ spread fuel adj visited
      ]
]

pub record Contagion : Type 0 where
  pub source : ℕ
  pub confidence : ℕ
  pub affected : List ℕ

abbrev pub has_member : ℕ → List SquadMember → Bool
has_member id [] = false
has_member id (m ∷ members) = if m.player == id then true else has_member id members

pub data Spilled : Type 0 where
  no_contagion : Spilled
  contagion_of : Contagion → Spilled

unfoldable pub contagion_from : ℕ → Spill → Spilled
contagion_from src s =
    contagion_of (record { source = src; confidence = s.conf; affected = s.order })

-- Each node of the queue raises the confidence, so 62 rounds are enough.
unfoldable pub contagion : ℕ → SquadSnapshot → Option Spilled
unfolding spread contagion_from adjacency
contagion src snap =
    if has_member src snap.members
    then elim (spread 62 (adjacency snap)
        (record { conf = contagion_start; order = src ∷ []; queue = (src, 0) ∷ [] })) [
          | none ↦ none
          | some s ↦ some (contagion_from src s)
        ]
    else some no_contagion

pub data Demand : Type 0 where
  board_meeting en_masse_transfer_reqs : Demand

pub record Unrest : Type 0 where
  pub severity : ℕ
  pub demand : Demand
  pub affected : List ℕ

unfoldable pub unrest_from : Spilled → Option Unrest
unrest_from no_contagion = none
unrest_from (contagion_of c) =
    if ltb c.confidence unrest_threshold
    then none
    else some (record {
      severity = c.confidence;
      demand =
          if leb en_masse_threshold c.confidence then en_masse_transfer_reqs else board_meeting;
      affected = c.affected;
    })

-- The bonding branch, for the cohesion of one faction.
unfoldable pub cohere : ℕ → ℕ
cohere cohesion =
    if leb cohesion_max cohesion
    then cohesion
    else if ltb cohesion_max (cohesion + bonding_cohesion_bump)
    then cohesion_max
    else cohesion + bonding_cohesion_bump

unfoldable pub cohere_all : List ℕ → List ℕ
unfolding cohere
cohere_all cohesions = map cohere cohesions

-- The sum of strength and trust over the edges at a player.
unfoldable pub centrality : List RelationshipEdge → ℕ → ℤ
unfolding ◌+ℤ◌
centrality [] id = pos 0
centrality (e ∷ edges) id =
    let w = e.strength +ℤ e.trust in
    (if e.from == id then w else pos 0)
    +ℤ ((if e.to == id then w else pos 0) +ℤ centrality edges id)

pub data Tier : Type 0 where
  team_leader highly_influential influential other : Tier

abbrev pub tier_at : ℕ → Tier
tier_at i =
    if i == 0
    then team_leader
    else if ltb i 3
    then highly_influential
    else if ltb i 6
    then influential
    else other

abbrev pub tiers_from : ℕ → List ℕ → List (ℕ × Tier)
tiers_from i [] = []
tiers_from i (id ∷ ids) = (id, tier_at i) ∷ tiers_from (i + 1) ids

unfoldable pub ranks_before : List RelationshipEdge → ℕ → ℕ → Bool
unfolding centrality
ranks_before edges a b =
    if eqb_ℤ (centrality edges a) (centrality edges b)
    then ltb a b
    else ltb_ℤ (centrality edges b) (centrality edges a)

unfoldable pub tiers_of : SquadSnapshot → List (ℕ × Tier)
unfolding ranks_before
tiers_of snap = tiers_from 0 (
    sort_by (λ a b. ranks_before snap.edges a b)
      (sort_by ltb (map (λ (m : SquadMember). m.player) snap.members)))

-- The edges inside a group: the sum of strength and trust, and their number.
unfoldable pub bonds : List ℕ → List RelationshipEdge → ℤ × ℕ
unfolding ◌+ℤ◌
bonds ids [] = (pos 0, 0)
bonds ids (e ∷ edges) =
    let (sum, n) = bonds ids edges in
    if elem e.from ids && elem e.to ids then ((e.strength +ℤ e.trust) +ℤ sum, n + 1) else (sum, n)

unfoldable pub clamp_int : ℤ → ℕ → ℕ → ℤ
clamp_int v lo hi = if ltb_ℤ v (pos lo) then pos lo else if ltb_ℤ (pos hi) v then pos hi else v

unfoldable pub faction_cohesion : List ℕ → List RelationshipEdge → ℤ
unfolding bonds clamp_int quot ◌+ℤ◌
faction_cohesion ids edges =
    let (sum, n) = bonds ids edges in
    let c = pos cohesion_neutral +ℤ quot (quot sum (2 * n)) 2 in
    if n == 0 then pos cohesion_min else clamp_int c cohesion_min cohesion_max

unfoldable pub score_of : Action → SquadMember → ℕ
score_of missed_promise m = m.volatility * 10 + m.loyalty
score_of wage_cut_offered m = m.volatility * 10 + m.loyalty
score_of transfer_bid_blocked m = m.leadership * 10 + m.volatility
score_of transfer_bid_query m = m.leadership * 10
score_of training_load_increased m = m.volatility * 10 + m.loyalty
score_of team_talk_critical m = m.volatility * 10 + m.leadership
score_of _ m = m.leadership * 10 + m.loyalty

-- The fold of epicentreFor; `none` is the start, with the score -1.
unfoldable pub epicentre_from : Action → Option SquadMember → List SquadMember → Option SquadMember
unfolding score_of
epicentre_from a best [] = best
epicentre_from a none (m ∷ members) = epicentre_from a (some m) members
epicentre_from a (some b) (m ∷ members) =
    let better =
      ltb (score_of a b) (score_of a m)
      || (score_of a m == score_of a b && (b.player == 0 || ltb m.player b.player)) in
    epicentre_from a (some (if better then m else b)) members

-- `none` is `ok == false`: no member, or the empty id.
unfoldable pub epicentre_for : Action → SquadSnapshot → Option ℕ
unfolding epicentre_from
epicentre_for a snap = elim (epicentre_from a none snap.members) [
  | none ↦ none
  | some m ↦ if m.player == 0 then none else some m.player
]

-- ===== src/Samples/Rooms.antt =====
-- A small dressing room, on which the properties of the faction engine are applied.
use touchline.Common.{ℕ, ◌≤◌, ◌<◌, ◌≡◌, refl, true, none, some, [], ◌∷◌, arith, count, elem}
use touchline.Common.Int.{pos}
use touchline.Common.{◌<◌}
use touchline.Faction.{
  missed_promise, SquadMember, RelationshipEdge, friendship, SquadSnapshot, Contagion, contagion_of,
  contagion, has_member, faction_cohesion, cohere, epicentre_from,
}
use touchline.Faction.Related.{Chain}
use touchline.Faction.Spread.{contagion_spreads}
use touchline.Faction.Bounds.{faction_cohesion-cohere, NoneBeats, epicentre_from_best}

abbrev friends : ℕ → ℕ → RelationshipEdge
friends a b = record { from = a; to = b; strength = pos 40; trust = pos 30; kind = friendship }

abbrev room : SquadSnapshot
room = record {
  members =
      record { player = 1; leadership = 80; loyalty = 60; volatility = 20 }
      ∷ record { player = 2; leadership = 50; loyalty = 70; volatility = 90 }
      ∷ record { player = 3; leadership = 50; loyalty = 70; volatility = 90 }
      ∷ [];
  edges = friends 1 2 ∷ [];
}

contagion_spreads_example :
    (c : Contagion) × (contagion 1 room ≡ some (contagion_of c))
    × (24 ≤ c.confidence)
    × (c.confidence ≤ 84)
    × (elem 1 c.affected ≡ true)
    × ((x : ℕ) → count x c.affected ≤ 1)
    × ((x : ℕ) → elem x c.affected ≡ true → Chain room.edges 1 x)
    × (c.confidence < 84 → (x : ℕ) → Chain room.edges 1 x → elem x c.affected ≡ true)
contagion_spreads_example = contagion_spreads 1 room refl

faction_cohesion-cohere_example :
    (c : ℕ) × (faction_cohesion (1 ∷ 2 ∷ []) room.edges ≡ pos c)
    × (10 ≤ c)
    × (c ≤ 95)
    × (c ≤ cohere c)
    × (cohere c ≤ 95)
faction_cohesion-cohere_example = faction_cohesion-cohere (1 ∷ 2 ∷ []) room.edges

abbrev calm : SquadMember
calm = record { player = 7; leadership = 50; loyalty = 70; volatility = 10 }

epicentre_from_best_example :
    (w : SquadMember) × (epicentre_from missed_promise none (calm ∷ room.members) ≡ some w)
    × NoneBeats missed_promise w (calm ∷ room.members)
    × (has_member w.player (calm ∷ room.members) ≡ true)
epicentre_from_best_example =
    epicentre_from_best missed_promise calm room.members
      (omega arith, (omega arith, (omega arith, (omega arith, tt))))

-- ===== src/Competition/RoundRobin/Legs.antt =====
-- The matches of the first team in the rounds of a leg: clubnames.go, roundRobin.
use touchline.Common.{
  ℕ, zero, suc, ◌+◌, ◌*◌, ◌/◌, ◌≤◌, ◌≡◌, refl, ◌∙◌, Bool, true, false, ◌&&◌, List, [], ◌∷◌, ◌++◌,
  arith, ◌==◌, if◌then◌else◌, length, take, count, count-append, length-append,
}
use touchline.Competition.CupDraw.Complete.{clubs_of}
use touchline.Competition.RoundRobin.{reverse, pair_up, round_of, rotate, leg}
use touchline.Competition.RoundRobin.Rounds.{count-round_of, count-take-append}

-- How many matches of a round are `home` against `away`, in this order.
abbrev pub matches : ℕ → ℕ → List (ℕ × ℕ) → ℕ
matches home away [] = 0
matches home away ((h, a) ∷ round) =
    (if h == home && a == away then 1 else 0) + matches home away round

abbrev pub all_matches : ℕ → ℕ → List (List (ℕ × ℕ)) → ℕ
all_matches home away [] = 0
all_matches home away (round ∷ rounds) = matches home away round + all_matches home away rounds

-- The match of `a` with `b`, at home or, in the second leg, away.
abbrev pub leg_matches : Bool → ℕ → ℕ → List (List (ℕ × ℕ)) → ℕ
leg_matches false a b rounds = all_matches a b rounds
leg_matches true a b rounds = all_matches b a rounds

abbrev pub round_matches : Bool → ℕ → ℕ → List (ℕ × ℕ) → ℕ
round_matches false a b round = matches a b round
round_matches true a b round = matches b a round

pub matches_few :
    (h a : ℕ) (round : List (ℕ × ℕ))
    → (matches h a round ≤ count h (clubs_of round))
      × (matches h a round ≤ count a (clubs_of round))
matches_few h a [] = (omega arith, omega arith)
matches_few h a ((x, y) ∷ round) = ground (arith, matches_few h a round)

reverse-snoc : (xs : List ℕ) (z : ℕ) → reverse (xs ++ z ∷ []) ≡ z ∷ reverse xs
unfolding reverse
reverse-snoc [] z = refl
reverse-snoc (x ∷ xs) z = rw (reverse-snoc xs z) refl

-- The match of the first and the last team leads the round.
pub round_of-first :
    (swapped : Bool) (half a z : ℕ) (p : List ℕ)
    → length (p ++ z ∷ []) ≡ suc (2 * half)
    → (rest : List (ℕ × ℕ)) × (round_of swapped (a ∷ (p ++ z ∷ []))
        ≡ (if swapped then (z, a) else (a, z)) ∷ rest)
unfolding round_of pair_up reverse
round_of-first swapped half a z p even =
    let k : length (a ∷ (p ++ z ∷ [])) / 2 ≡ suc half = omega (arith, even) in
    (
      pair_up swapped (take half (p ++ z ∷ [])) (take half (reverse p ++ a ∷ [])),
      rw k (rw (reverse-snoc p z) refl),
    )

one_match :
    (swapped : Bool) (a b z : ℕ) (rest : List (ℕ × ℕ))
    → count a (clubs_of ((if swapped then (z, a) else (a, z)) ∷ rest)) ≡ 1
    → round_matches swapped a b ((if swapped then (z, a) else (a, z)) ∷ rest)
      ≡ (if z == b then 1 else 0)
one_match true a b z rest once = ground (arith, once, matches_few b a rest)
one_match false a b z rest once = ground (arith, once, matches_few a b rest)

-- A round of `a`, the teams of `p`, and `z`: `a` meets `z`, and nobody else.
round_matches-first :
    (swapped : Bool) (half a b z : ℕ) (p : List ℕ)
    → length (p ++ z ∷ []) ≡ suc (2 * half)
    → count a (a ∷ (p ++ z ∷ [])) ≡ 1
    → round_matches swapped a b (round_of swapped (a ∷ (p ++ z ∷ []))) ≡ (if z == b then 1 else 0)
round_matches-first swapped half a b z p even once =
    let (rest, shape) = round_of-first swapped half a z p even in
    let count1 = count-round_of a (suc half) swapped (a ∷ (p ++ z ∷ [])) (omega (arith, even)) in
    rw shape (one_match swapped a b z rest (rw shape at count1 ∙ once))

pub leg_matches-cons :
    (swapped : Bool) (a b : ℕ) (round : List (ℕ × ℕ)) (rounds : List (List (ℕ × ℕ)))
    → leg_matches swapped a b (round ∷ rounds)
      ≡ round_matches swapped a b round + leg_matches swapped a b rounds
leg_matches-cons true a b round rounds = refl
leg_matches-cons false a b round rounds = refl

pub leg_matches-none : (swapped : Bool) (a b : ℕ) → leg_matches swapped a b [] ≡ 0
leg_matches-none true a b = refl
leg_matches-none false a b = refl

-- Over the rounds of a leg `a` meets the last team, and then those after it, one by one.
pub leg_matches-first :
    (swapped : Bool) (k half a b z : ℕ) (p : List ℕ)
    → k ≤ length p
    → length (p ++ z ∷ []) ≡ suc (2 * half)
    → count a (a ∷ (p ++ z ∷ [])) ≡ 1
    → leg_matches swapped a b (leg swapped (suc k) (a ∷ (p ++ z ∷ [])))
      ≡ (if z == b then 1 else 0) + count b (take k p)
unfolding leg rotate
leg_matches-first swapped zero half a b z p few even once =
    leg_matches-cons swapped a b (round_of swapped (a ∷ (p ++ z ∷ []))) []
    ∙ rw (leg_matches-none swapped a b, round_matches-first swapped half a b z p even once) refl
leg_matches-first swapped (suc k) half a b z [] few even once = absurd (omega (arith, few))
leg_matches-first swapped (suc k) half a b z (x ∷ p) few even once =
    let now = round_matches-first swapped half a b z (x ∷ p) even once in
    let next = p ++ z ∷ [] in
    let longer : length (next ++ x ∷ []) ≡ suc (2 * half) =
      omega (arith, even, length-append next (x ∷ [])) in
    let still : count a (a ∷ (next ++ x ∷ [])) ≡ 1 =
      omega (arith, once, count-append a next (x ∷ [])) in
    let later =
      leg_matches-first swapped k half a b x next (omega (arith, few, length-append p (z ∷ [])))
        longer still in
    let same = count-take-append b k p (z ∷ []) (omega (arith, few)) in
    omega (
      arith,
      leg_matches-cons swapped a b (round_of swapped (a ∷ (x ∷ p ++ z ∷ [])))
          (leg swapped (suc k) (a ∷ (next ++ x ∷ []))),
      now,
      later,
      same,
    )

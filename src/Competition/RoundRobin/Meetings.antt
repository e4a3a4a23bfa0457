-- ===== src/Competition/RoundRobin/Meetings.antt =====
-- Whom the first team of the schedule meets: clubnames.go, roundRobin.
use touchline.Common.{
  ℕ, zero, suc, ◌+◌, ◌-◌, ◌*◌, ◌%◌, ◌≤◌, ◌<◌, ◌≡◌, refl, sym, ◌∙◌, Bool, true, false, not, All,
  List, [], ◌∷◌, ◌++◌, arith, ltb, ◌==◌, if◌then◌else◌, length, take, count, count-append,
  length-append, subst, ap,
}
use touchline.Competition.CupDraw.Complete.{clubs_of}
use touchline.Competition.RoundRobin.{round_of, rotate, rotated, leg, indices, round_robin}
use touchline.Competition.RoundRobin.Rounds.{
  count-round_of, rotated_same, indices_once, round_robin-rounds,
}
use touchline.Competition.RoundRobin.Legs.{
  all_matches, leg_matches, round_matches, matches_few, round_of-first, leg_matches-cons,
  leg_matches-none, leg_matches-first,
}

snoc : (xs : List ℕ) → 1 ≤ length xs → (p : List ℕ) × (z : ℕ) × (xs ≡ p ++ z ∷ [])
snoc [] h = absurd (omega arith)
snoc (x ∷ []) h = ([], x, refl)
snoc (x ∷ y ∷ xs) h = let (p, z, e) = snoc (y ∷ xs) (omega arith) in (x ∷ p, z, ap (λ l. x ∷ l) e)

count-take_all : (b : ℕ) (p : List ℕ) → count b (take (length p) p) ≡ count b p
count-take_all b [] = refl
count-take_all b (x ∷ p) = omega (arith, count-take_all b p)

-- In a whole leg `a` meets each other team as often as it stands in the list.
leg_matches-all :
    (swapped : Bool) (half a b : ℕ) (xs : List ℕ)
    → length xs ≡ suc (2 * half)
    → count a (a ∷ xs) ≡ 1
    → leg_matches swapped a b (leg swapped (suc (2 * half)) (a ∷ xs)) ≡ count b xs
leg_matches-all swapped half a b xs even once =
    let (p, z, e) = snoc xs (omega (arith, even)) in
    let long : length p ≡ 2 * half = omega (arith, even, ap length e, length-append p (z ∷ [])) in
    let run =
      leg_matches-first swapped (length p) half a b z p (omega arith) (rw e at even)
        (rw e at once) in
    subst (λ l. leg_matches swapped a b (leg swapped (suc (2 * half)) (a ∷ l)) ≡ count b l) (sym e)
      (subst
        (λ k.
          leg_matches swapped a b (leg swapped (suc k) (a ∷ (p ++ z ∷ []))) ≡ count b (p ++ z ∷ []))
        long (ground (arith, run, count-take_all b p, count-append b p (z ∷ []))))

rotated-first : (k a : ℕ) (xs : List ℕ) → (ys : List ℕ) × (rotated k (a ∷ xs) ≡ a ∷ ys)
unfolding rotated rotate
rotated-first zero a xs = (xs, refl)
rotated-first (suc k) a [] = rotated-first k a []
rotated-first (suc k) a (x ∷ xs) = rotated-first k a (xs ++ x ∷ [])

indices-first : (n : ℕ) → (xs : List ℕ) × (indices (suc n) ≡ 0 ∷ xs)
unfolding indices
indices-first zero = ([], refl)
indices-first (suc n) =
    let (xs, e) = indices-first n in (xs ++ suc n ∷ [], ap (λ l. l ++ suc n ∷ []) e)

all_matches-append :
    (h a : ℕ) (xs ys : List (List (ℕ × ℕ)))
    → all_matches h a (xs ++ ys) ≡ all_matches h a xs + all_matches h a ys
all_matches-append h a [] ys = omega arith
all_matches-append h a (x ∷ xs) ys = omega (arith, all_matches-append h a xs ys)

other_way :
    (swapped : Bool) (a b z : ℕ) (rest : List (ℕ × ℕ))
    → (a == b) ≡ false
    → count a (clubs_of ((if swapped then (z, a) else (a, z)) ∷ rest)) ≡ 1
    → round_matches (not swapped) a b ((if swapped then (z, a) else (a, z)) ∷ rest) ≡ 0
other_way true a b z rest differ once = ground (arith, once, differ, matches_few a b rest)
other_way false a b z rest differ once = ground (arith, once, differ, matches_few b a rest)

-- In one leg the first team is always on the same side.
leg_matches-other :
    (swapped : Bool) (k half a b : ℕ) (xs : List ℕ)
    → length xs ≡ suc (2 * half)
    → count a (a ∷ xs) ≡ 1
    → (a == b) ≡ false
    → leg_matches (not swapped) a b (leg swapped k (a ∷ xs)) ≡ 0
unfolding leg rotate
leg_matches-other swapped zero half a b xs even once differ = leg_matches-none (not swapped) a b
leg_matches-other swapped (suc k) half a b [] even once differ = absurd (omega (arith, even))
leg_matches-other swapped (suc k) half a b (x ∷ xs) even once differ =
    let (p, z, e) = snoc (x ∷ xs) (omega (arith, even)) in
    let (rest, shape) = round_of-first swapped half a z p (sym (ap length e) ∙ even) in
    let one = count-round_of a (suc half) swapped (a ∷ (x ∷ xs)) (omega (arith, even)) ∙ once in
    let whole : round_of swapped (a ∷ (x ∷ xs)) ≡ (if swapped then (z, a) else (a, z)) ∷ rest =
      ap (λ l. round_of swapped (a ∷ l)) e ∙ shape in
    let now : round_matches (not swapped) a b (round_of swapped (a ∷ (x ∷ xs))) ≡ 0 =
      rw whole (other_way swapped a b z rest differ (rw whole at one)) in
    let later =
      leg_matches-other swapped k half a b (xs ++ x ∷ [])
        (omega (arith, even, length-append xs (x ∷ [])))
        (omega (arith, once, count-append a xs (x ∷ []))) differ in
    omega (
      arith,
      leg_matches-cons (not swapped) a b (round_of swapped (a ∷ (x ∷ xs)))
          (leg swapped k (a ∷ (xs ++ x ∷ []))),
      now,
      later,
    )

-- The two legs over the list of the teams.
two_legs :
    (half b : ℕ) (teams moved : List ℕ) (xs ys : List ℕ)
    → teams ≡ 0 ∷ xs
    → moved ≡ 0 ∷ ys
    → length teams ≡ suc (suc (2 * half))
    → length moved ≡ suc (suc (2 * half))
    → ((a : ℕ) → count a teams ≡ (if ltb a (suc (suc (2 * half))) then 1 else 0))
    → ((a : ℕ) → count a moved ≡ count a teams)
    → 1 ≤ b
    → b < suc (suc (2 * half))
    → let rounds = leg false (suc (2 * half)) teams ++ leg true (suc (2 * half)) moved in
      (all_matches 0 b rounds ≡ 1) × (all_matches b 0 rounds ≡ 1)
two_legs half b teams moved xs ys e f long longer once same lo hi =
    let k = suc (2 * half) in
    let long' : length xs ≡ suc (2 * half) = omega (arith, long, ap length e) in
    let longer' : length ys ≡ suc (2 * half) = omega (arith, longer, ap length f) in
    let one : count 0 (0 ∷ xs) ≡ 1 = sym (ap (count 0) e) ∙ (once 0 ∙ ground arith) in
    let one' : count 0 (0 ∷ ys) ≡ 1 = sym (ap (count 0) f) ∙ (same 0 ∙ (once 0 ∙ ground arith)) in
    let there : count b xs ≡ 1 = ground (arith, once b, ap (count b) e) in
    let there' : count b ys ≡ 1 = ground (arith, once b, same b, ap (count b) f) in
    let first = leg_matches-all false half 0 b xs long' one in
    let second = leg_matches-all true half 0 b ys longer' one' in
    let first' = leg_matches-other false k half 0 b xs long' one (ground arith) in
    let second' = leg_matches-other true k half 0 b ys longer' one' (ground arith) in
    rw (e, f)
      (
        omega (
          arith,
          all_matches-append 0 b (leg false k (0 ∷ xs)) (leg true k (0 ∷ ys)),
          first,
          second',
          there,
        ),
        omega (
          arith,
          all_matches-append b 0 (leg false k (0 ∷ xs)) (leg true k (0 ∷ ys)),
          first',
          second,
          there',
        ),
      )

-- For an even number of teams there are two rounds for each team but one, and in every round each
-- team 0, ..., n - 1 plays exactly once, and nobody else plays. Over the whole schedule the first
-- team meets every other team exactly twice: once at home and once away.
pub round_robin-meetings :
    (half : ℕ)
    → 1 ≤ half
    → (length (round_robin (2 * half)) ≡ 2 * (2 * half - 1))
      × All
          (λ round. (a : ℕ) → count a (clubs_of round) ≡ (if ltb a (2 * half) then 1 else 0))
          (round_robin (2 * half))
      × ((b : ℕ)
          → 1 ≤ b
          → b < 2 * half
          → (all_matches 0 b (round_robin (2 * half)) ≡ 1)
            × (all_matches b 0 (round_robin (2 * half)) ≡ 1))
unfolding round_robin
round_robin-meetings zero h = absurd (omega arith)
round_robin-meetings (suc half) h =
    let (rounds, full) = round_robin-rounds (suc half) h in
    (
      rounds,
      full,
      λ b lo hi.
          let n : 2 * suc half ≡ suc (suc (2 * half)) = omega arith in
          let even : ((2 * suc half) % 2 == 0) ≡ true = ground arith in
          let teams = indices (suc (suc (2 * half))) in
          let (sized, once) = indices_once (suc (suc (2 * half))) in
          let (moved, same) = rotated_same (suc (2 * half)) teams in
          let (xs, e) = indices-first (suc (2 * half)) in
          let (ys, f) = rotated-first (suc (2 * half)) 0 xs in
          let less : suc (suc (2 * half)) - 1 ≡ suc (2 * half) = omega arith in
          rw (even, n, less)
            (two_legs half b teams (rotated (suc (2 * half)) teams) xs ys e
              (ap (rotated (suc (2 * half))) e ∙ f) sized (moved ∙ sized) once same lo
              (omega arith)),
    )

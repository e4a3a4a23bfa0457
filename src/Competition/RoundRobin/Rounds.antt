-- ===== src/Competition/RoundRobin/Rounds.antt =====
-- Each round of the schedule is a full round: clubnames.go, roundRobin.
use touchline.Common.{
  ℕ, zero, suc, ◌+◌, ◌-◌, ◌*◌, ◌/◌, ◌%◌, ◌≤◌, ◌≡◌, refl, Bool, true, false, List, [], ◌∷◌, ◌++◌,
  arith, ltb, ◌==◌, if◌then◌else◌, length, take, drop, count, All, All-append, count-append,
  length-append, length-take, ◌∙◌,
}
use touchline.Competition.CupDraw.Complete.{clubs_of}
use touchline.Competition.RoundRobin.{
  reverse, pair_up, round_of, rotate, rotated, leg, indices, round_robin,
}

count-reverse : (a : ℕ) (xs : List ℕ) → count a (reverse xs) ≡ count a xs
unfolding reverse
count-reverse a [] = refl
count-reverse a (x ∷ xs) = omega (arith, count-append a (reverse xs) (x ∷ []), count-reverse a xs)

length-reverse : (xs : List ℕ) → length (reverse xs) ≡ length xs
unfolding reverse
length-reverse [] = refl
length-reverse (x ∷ xs) = omega (arith, length-append (reverse xs) (x ∷ []), length-reverse xs)

pub count-take-append :
    (a k : ℕ) (xs ys : List ℕ) → k ≤ length xs → count a (take k (xs ++ ys)) ≡ count a (take k xs)
count-take-append a zero xs ys h = refl
count-take-append a (suc k) [] ys h = absurd (omega arith)
count-take-append a (suc k) (x ∷ xs) ys h = omega (arith, count-take-append a k xs ys (omega arith))

take-all : (a k : ℕ) (xs : List ℕ) → length xs ≤ k → count a (take k xs) ≡ count a xs
take-all a zero [] h = refl
take-all a zero (x ∷ xs) h = absurd (omega arith)
take-all a (suc k) [] h = refl
take-all a (suc k) (x ∷ xs) h = omega (arith, take-all a k xs (omega arith))

-- The last `k` items, from the back, are the items behind the others.
count-take-reverse :
    (a k j : ℕ) (xs : List ℕ)
    → k + j ≡ length xs
    → count a (take k (reverse xs)) ≡ count a (drop j xs)
unfolding reverse
count-take-reverse a k zero xs h =
    omega (arith, take-all a k (reverse xs) (omega (arith, length-reverse xs)), count-reverse a xs)
count-take-reverse a k (suc j) [] h = absurd (omega arith)
count-take-reverse a k (suc j) (x ∷ xs) h =
    count-take-append a k (reverse xs) (x ∷ []) (omega (arith, length-reverse xs))
    ∙ count-take-reverse a k j xs (omega arith)

count-take-drop : (a k : ℕ) (xs : List ℕ) → count a (take k xs) + count a (drop k xs) ≡ count a xs
count-take-drop a zero xs = omega arith
count-take-drop a (suc k) [] = omega arith
count-take-drop a (suc k) (x ∷ xs) = omega (arith, count-take-drop a k xs)

count-pair_up :
    (a : ℕ) (swapped : Bool) (xs ys : List ℕ)
    → length xs ≡ length ys
    → count a (clubs_of (pair_up swapped xs ys)) ≡ count a xs + count a ys
unfolding pair_up
count-pair_up a swapped [] [] h = omega arith
count-pair_up a swapped [] (y ∷ ys) h = absurd (omega arith)
count-pair_up a swapped (x ∷ xs) [] h = absurd (omega arith)
count-pair_up a swapped (x ∷ xs) (y ∷ ys) h =
    ground (arith, count-pair_up a swapped xs ys (omega arith))

pub count-round_of :
    (a half : ℕ) (swapped : Bool) (teams : List ℕ)
    → length teams ≡ 2 * half
    → count a (clubs_of (round_of swapped teams)) ≡ count a teams
unfolding round_of
count-round_of a half swapped teams h =
    let k = length teams / 2 in
    let halved : k + k ≡ length teams = omega arith in
    omega (
      arith,
      count-pair_up a swapped (take k teams) (take k (reverse teams))
          (omega (arith, length-take k teams, length-take k (reverse teams), length-reverse teams)),
      count-take-reverse a k k teams halved,
      count-take-drop a k teams,
    )

count-rotate : (a : ℕ) (teams : List ℕ) → count a (rotate teams) ≡ count a teams
unfolding rotate
count-rotate a [] = refl
count-rotate a (x ∷ []) = refl
count-rotate a (x ∷ y ∷ teams) = omega (arith, count-append a teams (y ∷ []))

length-rotate : (teams : List ℕ) → length (rotate teams) ≡ length teams
unfolding rotate
length-rotate [] = refl
length-rotate (x ∷ []) = refl
length-rotate (x ∷ y ∷ teams) = omega (arith, length-append teams (y ∷ []))

-- Each team of the list plays once.
abbrev IsFull : List ℕ → List (ℕ × ℕ) → Type 0
IsFull teams round = (a : ℕ) → count a (clubs_of round) ≡ count a teams

leg-IsFull :
    (swapped : Bool) (k half : ℕ) (teams all : List ℕ)
    → length teams ≡ 2 * half
    → ((a : ℕ) → count a teams ≡ count a all)
    → All (IsFull all) (leg swapped k teams) × (length (leg swapped k teams) ≡ k)
unfolding leg
leg-IsFull swapped zero half teams all h same = (tt, refl)
leg-IsFull swapped (suc k) half teams all h same =
    let (rest, count) =
      leg-IsFull swapped k half (rotate teams) all (length-rotate teams ∙ h)
        (λ a. count-rotate a teams ∙ same a) in
    ((λ a. count-round_of a half swapped teams h ∙ same a, rest), omega (arith, count))

pub rotated_same :
    (k : ℕ) (teams : List ℕ)
    → (length (rotated k teams) ≡ length teams)
      × ((a : ℕ) → count a (rotated k teams) ≡ count a teams)
unfolding rotated
rotated_same zero teams = (refl, λ a. refl)
rotated_same (suc k) teams =
    let (sized, same) = rotated_same k (rotate teams) in
    (sized ∙ length-rotate teams, λ a. same a ∙ count-rotate a teams)

pub indices_once :
    (n : ℕ)
    → (length (indices n) ≡ n) × ((a : ℕ) → count a (indices n) ≡ (if ltb a n then 1 else 0))
unfolding indices
indices_once zero = (refl, λ a. ground arith)
indices_once (suc n) =
    let (sized, once) = indices_once n in
    (
      omega (arith, sized, length-append (indices n) (n ∷ [])),
      λ a. ground (arith, once a, count-append a (indices n) (n ∷ [])),
    )

All-full :
    (n : ℕ) (teams : List ℕ)
    → ((a : ℕ) → count a teams ≡ (if ltb a n then 1 else 0))
    → (rounds : List (List (ℕ × ℕ))) → All (IsFull teams) rounds
    → All (λ round. (a : ℕ) → count a (clubs_of round) ≡ (if ltb a n then 1 else 0)) rounds
All-full n teams once [] h = tt
All-full n teams once (r ∷ rounds) (full, h) =
    (λ a. full a ∙ once a, All-full n teams once rounds h)

-- For an even number of teams there are two rounds for each team but one, and in every round each
-- team 0, ..., n - 1 plays exactly once, and nobody else plays.
pub round_robin-rounds :
    (half : ℕ)
    → 1 ≤ half
    → (length (round_robin (2 * half)) ≡ 2 * (2 * half - 1))
      × All
          (λ round. (a : ℕ) → count a (clubs_of round) ≡ (if ltb a (2 * half) then 1 else 0))
          (round_robin (2 * half))
unfolding round_robin
round_robin-rounds half h =
    let n = 2 * half in
    let teams = indices n in
    let (sized, once) = indices_once n in
    let (moved, same) = rotated_same (n - 1) teams in
    let even : ((2 * half) % 2 == 0) ≡ true = ground arith in
    let (first, count1) = leg-IsFull false (n - 1) half teams teams sized (λ a. refl) in
    let (second, count2) =
      leg-IsFull true (n - 1) half (rotated (n - 1) teams) teams (moved ∙ sized) same in
    rw even (
      omega (
        arith,
        count1,
        count2,
        length-append (leg false (n - 1) teams) (leg true (n - 1) (rotated (n - 1) teams)),
      ),
      All-append _ (leg false (n - 1) teams) (leg true (n - 1) (rotated (n - 1) teams))
          (All-full n teams once (leg false (n - 1) teams) first)
          (All-full n teams once (leg true (n - 1) (rotated (n - 1) teams)) second),
    )

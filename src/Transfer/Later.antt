-- ===== src/Transfer/Later.antt =====
-- Updates of bids keep what a market in order promises, and resolved bids stay as they are.
use touchline.Common.{
  ℕ, ◌≤◌, ◌≡◌, refl, sym, ◌≢◌, inl, inr, true, false, some, List, [], ◌∷◌, arith, ◌==◌, All,
  Bool-cases,
}
use touchline.Transfer.Rows.{Bid, Player}
use touchline.Transfer.Threads.{is_open, find_bid, is_duplicate, how_many}
use touchline.Transfer.Invariant.{IsLater, AreLater, IsCurrent, HaveDistinctIds}

-- A bid that is open later was open.
pub was_open : {b b' : Bid} → IsLater b b' → is_open b'.status ≡ true → is_open b.status ≡ true
was_open {b} {b'} h o = elim (Bool-cases (is_open b.status)) [
  | inl so ↦ so
  | inr shut ↦
      let same : b'.status ≡ b.status = h.resolved_stays shut in ground (arith, shut, o, same)
]

module _ (P : ℕ → Type 0) where
  pub ids-AreLater : (l m : List Bid) → AreLater l m → All (λ b. P b.id) l → All (λ b. P b.id) m
  ids-AreLater [] [] h k = tt
  ids-AreLater [] (c ∷ m) h k = elim h [ ]
  ids-AreLater (b ∷ l) [] h k = elim h [ ]
  ids-AreLater (b ∷ l) (c ∷ m) h k = (rw h.0.same_id k.0, ids-AreLater l m h.1 k.1)

pub distinct-AreLater : (l m : List Bid) → AreLater l m → HaveDistinctIds l → HaveDistinctIds m
distinct-AreLater [] [] h k = tt
distinct-AreLater [] (c ∷ m) h k = elim h [ ]
distinct-AreLater (b ∷ l) [] h k = elim h [ ]
distinct-AreLater (b ∷ l) (c ∷ m) h k =
    (rw h.0.same_id (ids-AreLater (λ i. i ≢ b.id) l m h.1 k.0), distinct-AreLater l m h.1 k.1)

pub sides-AreLater :
    (l m : List Bid)
    → AreLater l m
    → All (λ b. b.seller ≢ b.buyer) l
    → All (λ b. b.seller ≢ b.buyer) m
sides-AreLater [] [] h k = tt
sides-AreLater [] (c ∷ m) h k = elim h [ ]
sides-AreLater (b ∷ l) [] h k = elim h [ ]
sides-AreLater (b ∷ l) (c ∷ m) h k =
    (rw (h.0.same_seller, h.0.same_buyer) k.0, sides-AreLater l m h.1 k.1)

pub IsCurrent-AreLater :
    (players : List Player) (l m : List Bid)
    → AreLater l m
    → All (IsCurrent players) l
    → All (IsCurrent players) m
IsCurrent-AreLater players [] [] h k = tt
IsCurrent-AreLater players [] (c ∷ m) h k = elim h [ ]
IsCurrent-AreLater players (b ∷ l) [] h k = elim h [ ]
IsCurrent-AreLater players (b ∷ l) (c ∷ m) h k = (
  λ o. rw (h.0.same_player, h.0.same_seller) (k.0 (was_open h.0 o)),
  IsCurrent-AreLater players l m h.1 k.1,
)

duplicate_before :
    (buyer player : ℕ) {b c : Bid}
    → IsLater b c
    → is_duplicate buyer player c ≡ true
    → is_duplicate buyer player b ≡ true
duplicate_before buyer player {b} {c} h d =
    ground (arith, h.same_player, h.same_buyer, was_open h, d)

pub how_many-AreLater :
    (buyer player : ℕ) (l m : List Bid)
    → AreLater l m
    → how_many (is_duplicate buyer player) m ≤ how_many (is_duplicate buyer player) l
how_many-AreLater buyer player [] [] h = omega arith
how_many-AreLater buyer player [] (c ∷ m) h = elim h [ ]
how_many-AreLater buyer player (b ∷ l) [] h = elim h [ ]
how_many-AreLater buyer player (b ∷ l) (c ∷ m) h =
    let rest = how_many-AreLater buyer player l m h.1 in
    elim (Bool-cases (is_duplicate buyer player c)) [
      | inl hit ↦ rw (hit, duplicate_before buyer player h.0 hit) (omega (arith, rest))
      | inr miss ↦ rw miss (omega (arith, rest))
    ]

-- The status of a resolved bid is found again.
pub find_bid-AreLater :
    (id : ℕ) (l m : List Bid) (b : Bid)
    → AreLater l m
    → find_bid id l ≡ some b
    → (c : Bid) × (find_bid id m ≡ some c) × IsLater b c
find_bid-AreLater id [] m b h e = cc
find_bid-AreLater id (x ∷ l) [] b h e = elim h [ ]
find_bid-AreLater id (x ∷ l) (y ∷ m) b h e = elim (Bool-cases (x.id == id)) [
  | inl hit ↦
      let same : x ≡ b = ground (arith, rw hit at e) in
      let later : IsLater b y = rw (sym same) h.0 in
      let found : (y.id == id) ≡ true = rw h.0.same_id hit in (y, rw found refl, later)
  | inr miss ↦
      let found : (y.id == id) ≡ false = rw h.0.same_id miss in
      rw found (find_bid-AreLater id l m b h.1 (rw miss at e))
]

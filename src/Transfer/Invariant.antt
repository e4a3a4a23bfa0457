-- ===== src/Transfer/Invariant.antt =====
-- What the rows of the transfer market keep: bids and the ledger, under the updates of
-- completion.go, bid.go and listing.go.
use touchline.Common.{
  ℕ, ◌≤◌, ◌<◌, ◌≡◌, refl, ◌∙◌, ◌≢◌, inl, inr, Bool, true, false, Option, none, some, List, [], ◌∷◌,
  arith, if◌then◌else◌, All, Bool-cases,
}
use touchline.Transfer.Rows.{
  BidStatus, Bid, Player, DedupKey, transfer_key, wage_key, other_key, Market,
}
use touchline.Transfer.Funds.{credited, debited}
use touchline.Transfer.Threads.{
  is_open, find_player, set_status_where, has_id, is_duplicate, how_many,
}

-- One bid later: a bid that is resolved keeps its status.
pub record IsLater (b b' : Bid) : Type 0 where
  pub same_id : b'.id ≡ b.id
  pub same_player : b'.player ≡ b.player
  pub same_buyer : b'.buyer ≡ b.buyer
  pub same_seller : b'.seller ≡ b.seller
  pub resolved_stays : is_open b.status ≡ false → b'.status ≡ b.status

-- Row by row.
abbrev pub AreLater : List Bid → List Bid → Type 0
AreLater [] [] = Unit
AreLater [] (b' ∷ bids') = ⊥
AreLater (b ∷ bids) [] = ⊥
AreLater (b ∷ bids) (b' ∷ bids') = IsLater b b' × AreLater bids bids'

-- The bids with this id are open.
abbrev pub AreOpen : ℕ → List Bid → Type 0
AreOpen id bids = All (λ b. has_id id b ≡ true → is_open b.status ≡ true) bids

pub IsLater-refl : (b : Bid) → IsLater b b
IsLater-refl b = record {
  same_id = refl;
  same_player = refl;
  same_buyer = refl;
  same_seller = refl;
  resolved_stays = λ _. refl;
}

pub AreLater-refl : (bids : List Bid) → AreLater bids bids
AreLater-refl [] = tt
AreLater-refl (b ∷ bids) = (IsLater-refl b, AreLater-refl bids)

IsLater-trans : {a b c : Bid} → IsLater a b → IsLater b c → IsLater a c
IsLater-trans {a} {b} {c} h k = record {
  same_id = k.same_id ∙ h.same_id;
  same_player = k.same_player ∙ h.same_player;
  same_buyer = k.same_buyer ∙ h.same_buyer;
  same_seller = k.same_seller ∙ h.same_seller;
  resolved_stays = λ closed.
      let first : b.status ≡ a.status = h.resolved_stays closed in
      let second : c.status ≡ b.status = k.resolved_stays (rw first closed) in second ∙ first;
}

pub AreLater-trans : (l m n : List Bid) → AreLater l m → AreLater m n → AreLater l n
AreLater-trans [] [] [] h k = tt
AreLater-trans [] [] (c ∷ n) h k = elim k [ ]
AreLater-trans [] (b ∷ m) n h k = elim h [ ]
AreLater-trans (a ∷ l) [] n h k = elim h [ ]
AreLater-trans (a ∷ l) (b ∷ m) [] h k = elim k [ ]
AreLater-trans (a ∷ l) (b ∷ m) (c ∷ n) h k = (IsLater-trans h.0 k.0, AreLater-trans l m n h.1 k.1)

-- A status may be set on open bids only.
set_status-IsLater :
    (test : Bid → Bool) (status : BidStatus) (b : Bid)
    → (test b ≡ true → is_open b.status ≡ true)
    → IsLater b (if test b then record b { status = status } else b)
set_status-IsLater test status b h = elim (Bool-cases (test b)) [
  | inl hit ↦ rw hit (record {
    same_id = refl;
    same_player = refl;
    same_buyer = refl;
    same_seller = refl;
    resolved_stays = λ closed. ground (arith, closed, h hit);
  })
  | inr miss ↦ rw miss (IsLater-refl b)
]

pub set_status_where-AreLater :
    (test : Bid → Bool) (status : BidStatus) (bids : List Bid)
    → All (λ b. test b ≡ true → is_open b.status ≡ true) bids
    → AreLater bids (set_status_where test status bids)
set_status_where-AreLater test status [] h = tt
set_status_where-AreLater test status (b ∷ bids) h =
    (set_status-IsLater test status b h.0, set_status_where-AreLater test status bids h.1)

-- An open bid is sold by the player's club, and to another one.
abbrev pub club_of : ℕ → List Player → Option ℕ
club_of id players = elim (find_player id players) [ none ↦ none | some p ↦ p.club ]

abbrev pub IsCurrent : List Player → Bid → Type 0
IsCurrent players b = is_open b.status ≡ true → club_of b.player players ≡ some b.seller

abbrev pub HaveDistinctIds : List Bid → Type 0
HaveDistinctIds [] = Unit
HaveDistinctIds (b ∷ bids) = All (λ c. c.id ≢ b.id) bids × HaveDistinctIds bids

abbrev pub KeyBelow : ℕ → DedupKey → Type 0
KeyBelow n (transfer_key k side) = k < n
KeyBelow n (wage_key j c) = Unit
KeyBelow n (other_key k) = Unit

-- The rows of a market that is in order.
pub record IsSound (m : Market) : Type 0 where
  pub ids_drawn : All (λ b. b.id < m.next_id) m.bids
  pub ids_distinct : HaveDistinctIds m.bids
  pub sides_differ : All (λ b. b.seller ≢ b.buyer) m.bids
  pub current : All (IsCurrent m.players) m.bids
  pub open_once : (buyer player : ℕ) → how_many (is_duplicate buyer player) m.bids ≤ 1
  pub keys_drawn : All (λ e. KeyBelow m.next_id e.key) m.ledger
  pub covered : (account : ℕ) → debited account m.ledger ≤ credited account m.ledger

-- ===== src/Transfer/Payment.antt =====
-- The payment and the closing of threads in a completed transfer: completion.go, steps 5 and 8.
use touchline.Common.{
  ℕ, ◌≤◌, ◌≡◌, refl, sym, subst, ◌∙◌, ◌≢◌, inl, inr, true, false, List, [], ◌∷◌, arith, ◌==◌,
  if◌then◌else◌, All, Bool-cases,
}
use touchline.Transfer.Rows.{
  Bid, Side, buying_club, selling_club, Player, Market, accepted, expired, LedgerEntry, credit,
  debit, transfer_key, DedupKey, other_key, wage_key,
}
use touchline.Transfer.Funds.{has_posting, same_key}
use touchline.Transfer.Threads.{is_open, set_status_where, has_id, competes}
use touchline.Transfer.Completion.{move_player, pay_fee}
use touchline.Transfer.Invariant.{
  IsLater, IsLater-refl, AreLater, AreOpen, IsCurrent, club_of, KeyBelow,
}
use touchline.Transfer.Later.{was_open}

key_is_new :
    (n t : ℕ) (side : Side) (key : DedupKey)
    → KeyBelow n key
    → n ≤ t
    → same_key key (transfer_key t side) ≡ false
key_is_new n t side (transfer_key k other) h le = ground (arith, h, le)
key_is_new n t side (wage_key j c) h le = refl
key_is_new n t side (other_key k) h le = refl

-- A posting under the id of a new transfer is not there yet.
pub posting_is_new :
    (n t account : ℕ) (side : Side) (ledger : List LedgerEntry)
    → All (λ e. KeyBelow n e.key) ledger
    → n ≤ t
    → has_posting account (transfer_key t side) ledger ≡ false
posting_is_new n t account side [] h le = refl
posting_is_new n t account side (e ∷ ledger) h le =
    let new = key_is_new n t side e.key h.0 le in
    ground (arith, new, posting_is_new n t account side ledger h.1 le)

-- The ledger after both postings.
abbrev pub paid : ℕ → ℕ → ℕ → ℕ → List LedgerEntry → List LedgerEntry
paid buyer_account seller_account transfer fee ledger =
    record {
      account = seller_account;
      entry_type = credit;
      amount = fee;
      key = transfer_key transfer selling_club;
    }
    ∷ record {
      account = buyer_account;
      entry_type = debit;
      amount = fee;
      key = transfer_key transfer buying_club;
    }
    ∷ ledger

-- Neither posting of a new transfer is skipped.
pub pay_fee-eq-paid :
    (n buyer_account seller_account transfer fee : ℕ) (m : Market)
    → All (λ e. KeyBelow n e.key) m.ledger
    → n ≤ transfer
    → (pay_fee buyer_account seller_account transfer fee m).ledger
      ≡ paid buyer_account seller_account transfer fee m.ledger
pay_fee-eq-paid n buyer_account seller_account transfer fee m h le =
    let first = posting_is_new n transfer buyer_account buying_club m.ledger h le in
    let second = posting_is_new n transfer seller_account selling_club m.ledger h le in
    ground (arith, first, second)

-- The bids after a sale: the one that is accepted, and the competing ones.
abbrev pub closed_bids : ℕ → ℕ → List Bid → List Bid
closed_bids player id bids =
    set_status_where (has_id id) accepted (set_status_where (competes player id) expired bids)

abbrev pub closed_bid : ℕ → ℕ → Bid → Bid
closed_bid player id b =
    if b.id == id
    then record b { status = accepted }
    else if competes player id b
    then record b { status = expired }
    else b

pub rival_differs :
    (player id : ℕ) (b : Bid)
    → competes player id b ≡ true
    → ((b.id == id) ≡ false) × (is_open b.status ≡ true) × (b.player ≡ player)
rival_differs player id b h = (ground (arith, h), ground (arith, h), ground (arith, h))

closed_bid-IsLater :
    (player id : ℕ) (b : Bid)
    → (has_id id b ≡ true → is_open b.status ≡ true)
    → IsLater b (closed_bid player id b)
closed_bid-IsLater player id b h = elim (Bool-cases (competes player id b)) [
  | inl rival ↦
      let (miss, live, _) = rival_differs player id b rival in
      rw (rival, miss)
        (record {
          same_id = refl;
          same_player = refl;
          same_buyer = refl;
          same_seller = refl;
          resolved_stays = λ shut. ground (arith, shut, live);
        })
  | inr other ↦ rw other (elim (Bool-cases (b.id == id)) [
    | inl hit ↦ rw hit (record {
      same_id = refl;
      same_player = refl;
      same_buyer = refl;
      same_seller = refl;
      resolved_stays = λ shut. ground (arith, shut, h hit);
    })
    | inr miss ↦ rw miss (IsLater-refl b)
  ])
]

-- The two updates, on one bid.
pub closed_bids-step :
    (player id : ℕ) (b : Bid) (bids : List Bid)
    → closed_bids player id (b ∷ bids) ≡ closed_bid player id b ∷ closed_bids player id bids
closed_bids-step player id b bids = elim (Bool-cases (competes player id b)) [
  | inl rival ↦ let (miss, _, _) = rival_differs player id b rival in rw (rival, miss) refl
  | inr other ↦ rw other refl
]

pub closed_bids-AreLater :
    (player id : ℕ) (bids : List Bid) → AreOpen id bids → AreLater bids (closed_bids player id bids)
closed_bids-AreLater player id [] h = tt
closed_bids-AreLater player id (b ∷ bids) h =
    subst (AreLater (b ∷ bids)) (sym (closed_bids-step player id b bids))
      (closed_bid-IsLater player id b h.0, closed_bids-AreLater player id bids h.1)

-- What is still open after a sale is on another player.
pub closed_bid_other :
    (player id : ℕ) (b : Bid)
    → is_open (closed_bid player id b).status ≡ true
    → (closed_bid player id b).player ≢ player
closed_bid_other player id b o e = elim (Bool-cases (competes player id b)) [
  | inl rival ↦
      let (miss, _, _) = rival_differs player id b rival in ground (arith, rw (rival, miss) at o)
  | inr other ↦ elim (Bool-cases (b.id == id)) [
    | inl hit ↦ ground (arith, rw hit at o)
    | inr miss ↦
        let left : is_open b.status ≡ true = rw (other, miss) at o in
        let its : b.player ≡ player = rw (other, miss) at e in
        ground (arith, other, miss, left, its)
  ]
]

club_of-move_player :
    (player buyer other : ℕ) (players : List Player)
    → other ≢ player
    → club_of other (move_player player buyer players) ≡ club_of other players
club_of-move_player player buyer other [] h = refl
club_of-move_player player buyer other (p ∷ players) h = elim (Bool-cases (p.id == player)) [
  | inl hit ↦ ground (arith, hit, h, club_of-move_player player buyer other players h)
  | inr miss ↦ ground (arith, miss, club_of-move_player player buyer other players h)
]

pub IsCurrent-closed_bids :
    (player id buyer : ℕ) (players : List Player) (bids : List Bid)
    → AreOpen id bids
    → All (IsCurrent players) bids
    → All (IsCurrent (move_player player buyer players)) (closed_bids player id bids)
IsCurrent-closed_bids player id buyer players [] live h = tt
IsCurrent-closed_bids player id buyer players (b ∷ bids) live h =
    let c = closed_bid player id b in
    let later = closed_bid-IsLater player id b live.0 in
    let P = All (IsCurrent (move_player player buyer players)) in
    subst P (sym (closed_bids-step player id b bids)) (
      λ o.
          club_of-move_player player buyer c.player players (closed_bid_other player id b o)
          ∙ rw (later.same_player, later.same_seller) (h.0 (was_open later o)),
      IsCurrent-closed_bids player id buyer players bids live.1 h.1,
    )

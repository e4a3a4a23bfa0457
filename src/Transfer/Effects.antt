-- ===== src/Transfer/Effects.antt =====
-- What a completed transfer does: acceptBid of completion.go.
use touchline.Common.{
  ℕ, suc, ◌≡◌, refl, sym, subst, ◌∙◌, inl, inr, Bool, true, false, ◌&&◌, Option, none, some, List,
  [], ◌∷◌, arith, ◌==◌, Bool-cases,
}
use touchline.Common.Int.{ℤ, pos_part, ltb_ℤ}
use touchline.Transfer.Rows.{
  BidStatus, accepted, expired, Bid, NegotiationRound, Player, Listing, sold, Market,
}
use touchline.Transfer.Tx.{done, bind_done}
use touchline.Transfer.Terms.{validate_terms, completion_explanation}
use touchline.Transfer.Outside.{Outside}
use touchline.Transfer.Funds.{find_account, cash_in_tx, credited, debited}
use touchline.Transfer.Threads.{
  is_open, find_bid, find_player, latest_round, how_many, set_status_where, has_id, competes,
  set_listings_where, live_listing_of,
}
use touchline.Transfer.Completion.{move_player, accept_bid, was_completed, is_live_of}
use touchline.Transfer.Invariant.{club_of, IsSound}
use touchline.Transfer.Updates.{open_if_found}
use touchline.Transfer.Payment.{closed_bids, closed_bid, closed_bids-step, closed_bid_other, paid}
use touchline.Transfer.Sale.{IsSale, settle-sells, covers_fee, account_found}
use touchline.Transfer.Accepting.{positive_fee}

abbrev pub is_open_on : ℕ → Bid → Bool
is_open_on player b = b.player == player && is_open b.status

abbrev pub status_of : ℕ → List Bid → Option BidStatus
status_of id bids = elim (find_bid id bids) [ none ↦ none | some b ↦ some b.status ]

-- The rows after the sale of bid `b` at a fee, out of one account into another.
pub record IsSold (m r : Market) (b : Bid) (buyer_account seller_account fee transfer : ℕ)
    : Type 0 where
  pub moved : club_of b.player r.players ≡ some b.buyer
  pub bid_accepted : status_of b.id r.bids ≡ some accepted
  pub nothing_open : how_many (is_open_on b.player) r.bids ≡ 0
  pub unlisted : live_listing_of b.player r.listings ≡ false
  pub sellers : find_account b.seller r.accounts ≡ some seller_account
  pub ledger : r.ledger ≡ paid buyer_account seller_account transfer fee m.ledger

club_of-moved :
    (player buyer : ℕ) (players : List Player) (p : Player)
    → find_player player players ≡ some p
    → club_of player (move_player player buyer players) ≡ some buyer
club_of-moved player buyer [] p e = cc
club_of-moved player buyer (x ∷ players) p e = elim (Bool-cases (x.id == player)) [
  | inl hit ↦ ground (arith, hit)
  | inr miss ↦ ground (arith, miss, club_of-moved player buyer players p (rw miss at e))
]

found_after :
    (test : Bid → Bool) (status : BidStatus) (id : ℕ) (bids : List Bid) (b : Bid)
    → find_bid id bids ≡ some b
    → (c : Bid) × (find_bid id (set_status_where test status bids) ≡ some c)
found_after test status id [] b e = cc
found_after test status id (x ∷ bids) b e = elim (Bool-cases (test x)) [
  | inl hit ↦ rw hit (elim (Bool-cases (x.id == id)) [
    | inl its ↦ rw its (_, refl)
    | inr miss ↦ rw miss (found_after test status id bids b (rw miss at e))
  ])
  | inr other ↦ rw other (elim (Bool-cases (x.id == id)) [
    | inl its ↦ rw its (_, refl)
    | inr miss ↦ rw miss (found_after test status id bids b (rw miss at e))
  ])
]

pub status_after :
    (id : ℕ) (status : BidStatus) (bids : List Bid) (b : Bid)
    → find_bid id bids ≡ some b
    → status_of id (set_status_where (has_id id) status bids) ≡ some status
status_after id status [] b e = cc
status_after id status (x ∷ bids) b e = elim (Bool-cases (x.id == id)) [
  | inl hit ↦ ground (arith, hit)
  | inr miss ↦ ground (arith, miss, status_after id status bids b (rw miss at e))
]

pub status_of-closed :
    (player id : ℕ) (bids : List Bid) (b : Bid)
    → find_bid id bids ≡ some b
    → status_of id (closed_bids player id bids) ≡ some accepted
status_of-closed player id bids b e =
    let rivals_out = set_status_where (competes player id) expired bids in
    let (c, found) = found_after (competes player id) expired id bids b e in
    status_after id accepted rivals_out c found

nothing_open-closed :
    (player id : ℕ) (bids : List Bid)
    → how_many (is_open_on player) (closed_bids player id bids) ≡ 0
nothing_open-closed player id [] = refl
nothing_open-closed player id (x ∷ bids) =
    let c = closed_bid player id x in
    let rest = nothing_open-closed player id bids in
    let shut : is_open_on player c ≡ false = elim (Bool-cases (is_open_on player c)) [
      | inr shut ↦ shut
      | inl live ↦
          absurd (closed_bid_other player id x (ground (arith, live)) (ground (arith, live)))
    ] in
    subst (λ l. how_many (is_open_on player) l ≡ 0) (sym (closed_bids-step player id x bids))
      (rw shut (omega (arith, rest)))

unlisted-sold :
    (player : ℕ) (listings : List Listing)
    → live_listing_of player (set_listings_where (is_live_of player) sold listings) ≡ false
unlisted-sold player [] = refl
unlisted-sold player (l ∷ listings) = elim (Bool-cases (is_live_of player l)) [
  | inl live ↦ ground (arith, live, unlisted-sold player listings)
  | inr other ↦ ground (arith, other, unlisted-sold player listings)
]

IsSold-by_sale :
    (m r : Market) (b : Bid) (p : Player) (buyer_account seller_account fee transfer : ℕ)
    → find_bid b.id m.bids ≡ some b
    → find_player b.player m.players ≡ some p
    → IsSale m r b buyer_account seller_account fee transfer
    → IsSold m r b buyer_account seller_account fee transfer
IsSold-by_sale m r b p buyer_account seller_account fee transfer found known sale = record {
  moved = rw sale.players (club_of-moved b.player b.buyer m.players p known);
  bid_accepted = rw sale.bids (status_of-closed b.player b.id m.bids b found);
  nothing_open = rw sale.bids (nothing_open-closed b.player b.id m.bids);
  unlisted = rw sale.listings (unlisted-sold b.player m.listings);
  sellers = sale.sellers;
  ledger = sale.ledger;
}

-- In a market in order, an open bid whose latest terms are valid is accepted when the buyer's cash
-- covers the fee, the hooks of the completion settle and no transfer of the bid is recorded: the
-- player is then at the buyer, the bid accepted, no bid on the player open, no listing of the
-- player live, and the ledger has two new entries, the fee out of the buyer's account and into the
-- seller's.
pub accept_bid_lem :
    (env : Outside) (value : ℤ) (m : Market) (b : Bid) (n : NegotiationRound) (p : Player)
    (account : ℕ)
    → IsSound m
    → find_bid b.id m.bids ≡ some b
    → is_open b.status ≡ true
    → find_player b.player m.players ≡ some p
    → latest_round b.rounds ≡ some n
    → validate_terms n.terms ≡ none
    → find_account b.buyer m.accounts ≡ some account
    → ltb_ℤ (cash_in_tx account m.ledger) n.terms.fee ≡ false
    → env.hooks_settle m b.seller b.buyer b.player ≡ true
    → was_completed b.id m.completed ≡ false
    → (r : Market) × (seller_account : ℕ) × (accept_bid env b.id value m
        ≡ done (suc m.next_id, completion_explanation value n.terms) r)
      × IsSold m r b account seller_account (pos_part n.terms.fee) (suc m.next_id)
unfolding accept_bid
accept_bid_lem env value m b n p account s found live known latest valid has_account covered hooks
      new =
    let funds =
      covers_fee (credited account m.ledger) (debited account m.ledger) n.terms.fee covered
        (positive_fee n.terms valid) in
    let others = open_if_found b.id m.bids b s.ids_distinct found live in
    let (r, seller_account, runs, sale) =
      settle-sells env b n.terms account m s others funds hooks new in
    (
      r,
      seller_account,
      rw (found, latest, valid)
          (account_found b.buyer m _ account has_account ∙ rw covered (bind_done _ _ _ _ runs)),
      IsSold-by_sale m r b p account seller_account (pos_part n.terms.fee) (suc m.next_id) found
          known sale,
    )

-- ===== src/Transfer/Completion.antt =====
-- The completion of a transfer and the answers to a bid: completion.go.
use touchline.Common.{
  ℕ, Bool, true, false, ◌&&◌, not, Option, none, some, List, [], ◌∷◌, ltb, leb, ◌==◌, if◌then◌else◌,
}
use touchline.Common.Int.{ℤ, pos_part, ltb_ℤ}
use touchline.Transfer.Rows.{
  MarketError, Terms, Side, buying_club, selling_club, Bid, accepted, rejected, countered, expired,
  sold, Player, Contract, ContractStatus, in_force, terminated, lapsed, WageCommitment, credit,
  debit, transfer_key, CompletedTransfer, EventKind, bid_accepted, bid_rejected, bid_countered,
  Market, insufficient_funds, internal, Listing,
}
use touchline.Transfer.Tx.{Tx, done, refused, ◌>>=◌, ◌>>◌, give, read, need, refuse_when, write}
use touchline.Transfer.Terms.{
  validate_terms, terms_to_clauses, Explanation, completion_explanation, counter_explanation,
  RespondAction, accept, reject, counter, unknown_action, ai_max_rounds, ai_seller_decision,
  ai_buyer_decision,
}
use touchline.Transfer.Outside.{Outside}
use touchline.Transfer.Funds.{draw_id, ensure_account, cash_in_tx, post_ledger}
use touchline.Transfer.Threads.{
  find_bid, latest_round, set_status_where, set_listings_where, has_id, competes, append_round,
  round_count, is_on_market,
}

-- INSERT INTO world.events, through the outbox.
abbrev pub emit : EventKind → ℕ → Market → Market
emit kind subject m = record m { events = record { kind = kind; subject = subject } ∷ m.events }

abbrev pub move_player : ℕ → ℕ → List Player → List Player
move_player player buyer [] = []
move_player player buyer (p ∷ players) =
    (if p.id == player then record p { club = some buyer; is_active = true } else p)
    ∷ move_player player buyer players

abbrev pub is_in_force : ContractStatus → Bool
is_in_force in_force = true
is_in_force terminated = false
is_in_force lapsed = false

abbrev pub is_terminated : ContractStatus → Bool
is_terminated in_force = false
is_terminated terminated = true
is_terminated lapsed = false

abbrev pub terminate : ℕ → ℕ → List Contract → List Contract
terminate player seller [] = []
terminate player seller (c ∷ contracts) =
    (if c.player == player && c.club == seller && is_in_force c.status
      then record c { status = terminated }
      else c)
    ∷ terminate player seller contracts

-- A terminated contract of the player at the club.
abbrev pub was_terminated : ℕ → ℕ → ℕ → List Contract → Bool
was_terminated contract player seller [] = false
was_terminated contract player seller (c ∷ contracts) =
    if c.id == contract && c.player == player && c.club == seller && is_terminated c.status
    then true
    else was_terminated contract player seller contracts

abbrev pub end_commitments : ℕ → ℕ → ℕ → List Contract → List WageCommitment → List WageCommitment
end_commitments today player seller contracts [] = []
end_commitments today player seller contracts (w ∷ commitments) =
    (if was_terminated w.contract player seller contracts && ltb today w.end_date
      then record w { end_date = today }
      else w)
    ∷ end_commitments today player seller contracts commitments

abbrev pub was_completed : ℕ → List CompletedTransfer → Bool
was_completed bid [] = false
was_completed bid (c ∷ completed) = if c.bid == bid then true else was_completed bid completed

-- Steps 1 to 3 of acceptBid: the club move and the contract swap.
abbrev pub swap_contracts : Outside → Bid → Terms → ℕ → Market → Market
swap_contracts env b t contract m =
    let contracts = terminate b.player b.seller m.contracts in
    let end_date = env.add_months env.today t.contract_length_months in
    record m {
      players = move_player b.player b.buyer m.players;
      contracts =
          record {
            id = contract;
            player = b.player;
            club = b.buyer;
            weekly_wage = t.weekly_wage;
            signing_bonus = t.signing_bonus;
            release_clause = t.release_clause;
            start_date = env.today;
            end_date = end_date;
            status = in_force;
          }
          ∷ contracts;
      commitments =
          record {
            contract = contract;
            club = b.buyer;
            weekly_wage = t.weekly_wage;
            start_date = env.today;
            end_date = end_date;
          }
          ∷ end_commitments env.today b.player b.seller contracts m.commitments;
    }

-- Steps 4 and 6: the event, and the completed transfer with its clauses.
abbrev pub record_transfer : Bid → Terms → ℕ → Market → Market
record_transfer b t transfer m = record (emit bid_accepted b.id m) {
  completed =
      record {
        id = transfer;
        bid = b.id;
        player = b.player;
        from_club = b.seller;
        to_club = b.buyer;
        fee = t.fee;
        clauses = terms_to_clauses t b.seller;
      }
      ∷ m.completed;
}

-- Step 5: money out of the buyer, into the seller.
abbrev pub pay_fee : ℕ → ℕ → ℕ → ℕ → Market → Market
pay_fee buyer_account seller_account transfer fee m = record m {
  ledger =
      post_ledger
        (record {
          account = seller_account;
          entry_type = credit;
          amount = fee;
          key = transfer_key transfer selling_club;
        })
        (post_ledger
          (record {
            account = buyer_account;
            entry_type = debit;
            amount = fee;
            key = transfer_key transfer buying_club;
          })
          m.ledger);
}

abbrev pub is_live_of : ℕ → Listing → Bool
is_live_of player l = l.player == player && is_on_market l.status

-- Steps 7 and 8: the history row, the listings, the competing bids, and the bid itself.
abbrev pub close_threads : Bid → Market → Market
close_threads b m = record m {
  history = (b.player, b.buyer) ∷ m.history;
  listings = set_listings_where (is_live_of b.player) sold m.listings;
  bids =
      set_status_where (has_id b.id) accepted
        (set_status_where (competes b.player b.id) expired m.bids);
}

-- From the check of the buyer's cash on.
unfoldable pub settle : Outside → Bid → Terms → ℕ → Tx ℕ
settle env b t buyer_account = do
  refuse_when (not (env.hooks_settle (← read (λ m. m)) b.seller b.buyer b.player)) internal
  contract ← draw_id
  write (swap_contracts env b t contract)
  transfer ← draw_id
  refuse_when (was_completed b.id (← read (λ m. m.completed))) internal
  write (record_transfer b t transfer)
  seller_account ← ensure_account true b.seller
  write (pay_fee buyer_account seller_account transfer (pos_part t.fee))
  write (close_threads b)
  give transfer

abbrev pub refuse_invalid : Option MarketError → Tx (Unit {0})
refuse_invalid none m = done tt m
refuse_invalid (some e) m = refused e

unfoldable pub accept_bid : Outside → ℕ → ℤ → Tx (ℕ × Explanation)
unfolding settle validate_terms
accept_bid env id value = do
  b ← need (find_bid id (← read (λ m. m.bids))) internal
  r ← need (latest_round b.rounds) internal
  refuse_invalid (validate_terms r.terms)
  account ← ensure_account true b.buyer
  refuse_when (ltb_ℤ (cash_in_tx account (← read (λ m. m.ledger))) r.terms.fee) insufficient_funds
  transfer ← settle env b r.terms account
  give (transfer, completion_explanation value r.terms)

unfoldable pub reject_bid : ℕ → Tx (Unit {0})
reject_bid id = do
  write (λ m. record m { bids = set_status_where (has_id id) rejected m.bids })
  write (emit bid_rejected id)

abbrev pub put_counter : ℕ → Side → Terms → Market → Market
put_counter id side terms m =
    emit bid_countered id (record m {
      bids = set_status_where (has_id id) countered (append_round id side terms m.bids);
    })

unfoldable pub counter_bid : ℕ → Side → Terms → Tx (Unit {0})
unfolding validate_terms
counter_bid id side terms = do
  refuse_invalid (validate_terms terms)
  write (put_counter id side terms)

abbrev pub opposite_club : Bool → Bid → ℕ
opposite_club human_is_seller b = if human_is_seller then b.buyer else b.seller

-- The `default` case of the switch: one more counter, unless the rounds are used up.
unfoldable pub ai_counters : ℕ → Side → Terms → ℤ → ℤ → Tx (Option Explanation)
unfolding reject_bid counter_bid
ai_counters id side terms value target = do
  used ← read (λ m. round_count id m.bids)
  (if leb ai_max_rounds used
      then (reject_bid id >> give none)
      else (counter_bid id side (record terms { fee = target })
          >> give (some (counter_explanation value target))))

unfoldable pub answer_counter :
    Outside → ℕ → Side → Terms → ℤ → RespondAction × ℤ → Tx (Option Explanation)
unfolding accept_bid reject_bid ai_counters
answer_counter env id side terms value (accept, target) = do
  (_, e) ← accept_bid env id value
  give (some e)
answer_counter env id side terms value (reject, target) = do reject_bid id; give none
answer_counter env id side terms value (counter, target) = ai_counters id side terms value target
answer_counter env id side terms value (unknown_action, target) =
    ai_counters id side terms value target

unfoldable pub ai_replies_to_counter :
    Outside → ℕ → Bool → ℤ → Terms → Side → Option ℤ → Tx (Option Explanation)
unfolding answer_counter
ai_replies_to_counter env id human_is_seller value terms side asking = do
  b ← need (find_bid id (← read (λ m. m.bids))) internal
  need (env.policy_bot (opposite_club human_is_seller b)) internal
  answer_counter env id side terms value (
      if human_is_seller
      then ai_buyer_decision env.mul terms.fee value
      else ai_seller_decision env.mul terms.fee value asking)

-- ===== src/Transfer/Bids.antt =====
-- Bids: bid.go.
use touchline.Common.{ℕ, suc, ◌&&◌, not, Option, none, some, [], ◌∷◌, ◌==◌, if◌then◌else◌}
use touchline.Common.Int.{ℤ}
use touchline.Transfer.Rows.{
  player_not_found, club_not_found, world_not_playable, no_active_club, player_not_transferable,
  self_bid, listing_not_found, world_mismatch, duplicate_open_bid, Actor, Terms, buying_club,
  selling_club, pending, bid_placed, Market,
}
use touchline.Transfer.Tx.{Tx, done, refused, ◌>>=◌, ◌>>◌, give, read, need, refuse_when, write}
use touchline.Transfer.Terms.{
  validate_terms, Explanation, counter_explanation, RespondAction, accept, reject, counter,
  unknown_action, ai_seller_decision,
}
use touchline.Transfer.Outside.{Outside}
use touchline.Transfer.Funds.{require_funds}
use touchline.Transfer.Threads.{is_on_market, find_listing, find_player, is_duplicate, any_bid}
use touchline.Transfer.Completion.{emit, refuse_invalid, accept_bid, reject_bid, counter_bid}

pub record BidInput : Type 0 where
  pub listing : Option ℕ
  pub player : Option ℕ
  pub terms : Terms

pub record Answer : Type 0 where
  pub bid : ℕ
  pub resolved : Option ℕ
  pub explanation : Option Explanation

-- The player of the listing, when it is there, or else the player that is named; 0 is the nil id.
abbrev pub bid_target : BidInput → Market → ℕ
bid_target input m =
    let named : ℕ = elim input.player [ none ↦ 0 | some p ↦ p ] in
    elim input.listing [
      | none ↦ named
      | some l ↦ elim (find_listing l m.listings) [ none ↦ named | some row ↦ row.player ]
    ]

abbrev pub asking_for : Option ℕ → Market → Option ℤ
asking_for none m = none
asking_for (some l) m = elim (find_listing l m.listings) [
  | none ↦ none
  | some row ↦ row.asking_price
]

-- actorClub and ClubFitness, as each command begins.
abbrev pub require_club_in : Outside → ℕ → ℕ → Tx (Unit {0})
require_club_in env world club = do
  (home, playable) ← need (env.club_fitness club) club_not_found
  refuse_when (not playable) world_not_playable
  refuse_when (not (home == world)) world_mismatch

-- A listing that a bid names must be live, of this world and of this player.
abbrev pub require_listing : ℕ → ℕ → Option ℕ → Tx (Unit {0})
require_listing world player none m = done tt m
require_listing world player (some id) m = elim (find_listing id m.listings) [
  | none ↦ refused listing_not_found
  | some l ↦
      refuse_when (not (l.world == world && l.player == player && is_on_market l.status))
        listing_not_found m
]

-- Every rule that a bid must pass, up to the buyer's funds; the player's club comes back.
unfoldable pub check_bid : Outside → ℕ → ℕ → BidInput → Tx (ℕ × ℕ)
unfolding require_funds
check_bid env world buyer input = do
  p ← need (find_player (← read (bid_target input)) (← read (λ m. m.players))) player_not_found
  refuse_when (not (p.world == world)) world_mismatch
  seller ← need p.club player_not_transferable
  refuse_when (not p.is_active) player_not_transferable
  refuse_when (seller == buyer) self_bid
  require_listing world p.id input.listing
  refuse_when (any_bid (is_duplicate buyer p.id) (← read (λ m. m.bids))) duplicate_open_bid
  require_funds buyer input.terms.fee
  give (p.id, seller)

-- writeBidThread: the bid and its first round.
abbrev pub write_bid_thread : Outside → ℕ → Option ℕ → ℕ → ℕ → ℕ → Terms → Market → Market
write_bid_thread env world listing player buyer seller terms m = record m {
  bids =
      record {
        id = m.next_id;
        world = world;
        listing = listing;
        player = player;
        buyer = buyer;
        seller = seller;
        status = pending;
        created_at = env.now;
        rounds = record { round = 1; proposed_by = buying_club; terms = terms } ∷ [];
      }
      ∷ m.bids;
  next_id = suc m.next_id;
}

-- The switch on the decision of an AI seller.
unfoldable pub answer_bid : ℕ → Terms → ℤ → Outside → RespondAction × ℤ → Tx Answer
unfolding accept_bid reject_bid counter_bid
answer_bid id terms value env (accept, target) = do
  (transfer, e) ← accept_bid env id value
  give (record { bid = id; resolved = some transfer; explanation = some e })
answer_bid id terms value env (reject, target) = do
  reject_bid id
  give (record { bid = id; resolved = none; explanation = none })
answer_bid id terms value env (counter, target) = do
  counter_bid id selling_club (record terms { fee = target })
  give (record { bid = id; resolved = none; explanation = some (counter_explanation value target) })
answer_bid id terms value env (unknown_action, target) =
    give (record { bid = id; resolved = none; explanation = none })

unfoldable pub ai_seller_answers : Outside → ℕ → ℕ → Option ℕ → Terms → Tx Answer
unfolding answer_bid
ai_seller_answers env id player listing terms = do
  value ← need (env.valuation (← read (λ m. m)) player) player_not_found
  asking ← read (asking_for listing)
  answer_bid id terms value env (ai_seller_decision env.mul terms.fee value asking)

unfoldable pub place_bid_tx : Outside → ℕ → ℕ → BidInput → Tx Answer
unfolding check_bid ai_seller_answers
place_bid_tx env world buyer input = do
  (player, seller) ← check_bid env world buyer input
  id ← read (λ m. m.next_id)
  write (write_bid_thread env world input.listing player buyer seller input.terms)
  write (emit bid_placed id)
  ai ← need (env.is_ai_club seller) club_not_found
  (if ai
      then ai_seller_answers env id player input.listing input.terms
      else give (record { bid = id; resolved = none; explanation = none }))

unfoldable pub place_bid : Outside → Actor → ℕ → BidInput → Tx Answer
unfolding place_bid_tx validate_terms
place_bid env actor world input = do
  buyer ← need (env.manager_club actor.manager) no_active_club
  require_club_in env world buyer
  refuse_invalid (validate_terms input.terms)
  place_bid_tx env world buyer input

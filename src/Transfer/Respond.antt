-- ===== src/Transfer/Respond.antt =====
-- The answers to a bid and its withdrawal: respondToBid and WithdrawBid of bid.go.
use touchline.Common.{
  ℕ, Bool, true, false, ◌&&◌, ◌||◌, not, Option, none, some, ◌==◌, if◌then◌else◌,
}
use touchline.Common.Int.{ℤ}
use touchline.Transfer.Rows.{
  bid_not_found, player_not_found, club_not_found, no_active_club, invalid_terms, bid_resolved,
  not_bid_participant, invalid_action_for_role, internal, Actor, Terms, Side, buying_club,
  selling_club, Bid, withdrawn, expired, bid_was_withdrawn,
}
use touchline.Transfer.Tx.{Tx, ◌>>=◌, ◌>>◌, give, read, need, refuse_when, write}
use touchline.Transfer.Terms.{Explanation, RespondAction, accept, reject, counter, unknown_action}
use touchline.Transfer.Outside.{Outside}
use touchline.Transfer.Funds.{same_side}
use touchline.Transfer.Threads.{
  is_open, find_bid, latest_round, set_status_where, has_id, bid_expired,
}
use touchline.Transfer.Completion.{emit, accept_bid, reject_bid, counter_bid, ai_replies_to_counter}
use touchline.Transfer.Bids.{Answer, asking_for, require_club_in}

abbrev pub is_known_action : RespondAction → Bool
is_known_action accept = true
is_known_action reject = true
is_known_action counter = true
is_known_action unknown_action = false

abbrev pub side_of : ℕ → Bid → Side
side_of club b = if club == b.buyer then buying_club else selling_club

abbrev pub other_side : ℕ → Bid → Side
other_side club b = if club == b.buyer then selling_club else buying_club

-- The bid, when the club may answer it at all.
unfoldable pub load_open_bid : ℕ → ℕ → ℕ → Tx Bid
load_open_bid world club id = do
  b ← need (find_bid id (← read (λ m. m.bids))) bid_not_found
  refuse_when (not (b.world == world)) bid_not_found
  refuse_when (not (club == b.seller || club == b.buyer)) not_bid_participant
  refuse_when (not (is_open b.status)) bid_resolved
  give b

unfoldable pub respond_accept : Outside → ℕ → Bid → Tx Answer
unfolding accept_bid
respond_accept env club b = do
  r ← need (latest_round b.rounds) internal
  refuse_when (same_side r.proposed_by (side_of club b)) invalid_action_for_role
  value ← need (env.valuation (← read (λ m. m)) b.player) player_not_found
  (transfer, e) ← accept_bid env b.id value
  give (record { bid = b.id; resolved = some transfer; explanation = some e })

abbrev pub opponent : ℕ → Bid → ℕ
opponent club b = if club == b.seller then b.buyer else b.seller

-- The answer of an AI club to the counter; a policy bot's counter gets none.
unfoldable pub opponent_replies :
    Outside → Actor → ℕ → Bid → Terms → Option ℤ → Tx (Option Explanation)
unfolding ai_replies_to_counter
opponent_replies env actor club b terms asking = do
  ai ← need (env.is_ai_club (opponent club b)) club_not_found
  (if ai && not actor.is_policy_bot
      then (do
        value ← need (env.valuation (← read (λ m. m)) b.player) player_not_found
        ai_replies_to_counter env b.id (club == b.seller) value terms (other_side club b) asking)
      else give none)

unfoldable pub respond_counter : Outside → Actor → ℕ → Bid → Option Terms → Tx Answer
unfolding counter_bid opponent_replies
respond_counter env actor club b offer = do
  terms ← need offer invalid_terms
  asking ← read (asking_for b.listing)
  counter_bid b.id (side_of club b) terms
  e ← opponent_replies env actor club b terms asking
  give (record { bid = b.id; resolved = none; explanation = e })

unfoldable pub answer_with : Outside → Actor → ℕ → Bid → RespondAction → Option Terms → Tx Answer
unfolding respond_accept respond_counter reject_bid
answer_with env actor club b accept offer = respond_accept env club b
answer_with env actor club b reject offer = do
  reject_bid b.id
  give (record { bid = b.id; resolved = none; explanation = none })
answer_with env actor club b counter offer = respond_counter env actor club b offer
answer_with env actor club b unknown_action offer =
    give (record { bid = b.id; resolved = none; explanation = none })

-- How a response ends: an expiry is committed, though the caller gets an error.
pub data Response : Type 0 where
  answered : Answer → Response
  was_expired : Response

unfoldable pub respond_to_bid :
    Outside → Actor → ℕ → ℕ → ℕ → RespondAction → Option Terms → Tx Response
unfolding load_open_bid answer_with
respond_to_bid env actor world club id action offer = do
  refuse_when (not (is_known_action action)) invalid_action_for_role
  require_club_in env world club
  b ← load_open_bid world club id
  (if bid_expired env.now env.bid_ttl b
      then (do
        write (λ m. record m { bids = set_status_where (has_id id) expired m.bids })
        give was_expired)
      else (do a ← answer_with env actor club b action offer; give (answered a)))

-- RespondToBid, on behalf of the manager's club.
unfoldable pub respond_as_manager :
    Outside → Actor → ℕ → ℕ → RespondAction → Option Terms → Tx Response
unfolding respond_to_bid
respond_as_manager env actor world id action offer = do
  club ← need (env.manager_club actor.manager) no_active_club
  respond_to_bid env actor world club id action offer

unfoldable pub withdraw_bid : Outside → Actor → ℕ → ℕ → Tx (Unit {0})
withdraw_bid env actor world id = do
  club ← need (env.manager_club actor.manager) no_active_club
  require_club_in env world club
  b ← need (find_bid id (← read (λ m. m.bids))) bid_not_found
  refuse_when (not (b.world == world)) bid_not_found
  refuse_when (not (b.buyer == club)) not_bid_participant
  refuse_when (not (is_open b.status)) bid_resolved
  write (λ m. record m { bids = set_status_where (has_id id) withdrawn m.bids })
  write (emit bid_was_withdrawn id)

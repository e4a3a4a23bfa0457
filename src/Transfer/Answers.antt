-- ===== src/Transfer/Answers.antt =====
-- Answers to bids keep the market in order: completion.go and respondToBid of bid.go.
use touchline.Common.{ℕ, Bool, ◌&&◌, not, Option, ◌==◌, leb}
use touchline.Common.Int.{ℤ}
use touchline.Transfer.Rows.{
  Bid, Side, Terms, Market, Actor, internal, rejected, bid_rejected, invalid_action_for_role,
  club_not_found, player_not_found, invalid_terms, selling_club,
}
use touchline.Transfer.Tx.{
  Tx, Verdict, done, refused, Ensures, Ensures-bind, Ensures-need, Ensures-passed, Ensures-if,
}
use touchline.Transfer.Terms.{
  validate_terms, RespondAction, accept, reject, counter, unknown_action, ai_max_rounds,
}
use touchline.Transfer.Outside.{Outside}
use touchline.Transfer.Funds.{same_side}
use touchline.Transfer.Threads.{find_bid, latest_round, round_count}
use touchline.Transfer.Completion.{
  accept_bid, reject_bid, counter_bid, ai_counters, answer_counter, ai_replies_to_counter,
  opposite_club,
}
use touchline.Transfer.Bids.{answer_bid, asking_for}
use touchline.Transfer.Respond.{
  side_of, other_side, opponent, respond_accept, opponent_replies, respond_counter, answer_with,
}
use touchline.Transfer.Invariant.{AreOpen, IsSound}
use touchline.Transfer.Evolves.{Evolves, Evolves-refl, Evolves-trans}
use touchline.Transfer.Updates.{AreOpen-put_counter, Evolves-put_counter, Evolves-set_status}
use touchline.Transfer.Accepting.{accept_bid-Evolves, Ensures-valid}

-- A step after a market that has evolved.
pub Ensures-later :
    {A : Type 0} {l m : Market} (v : Verdict A)
    → Evolves l m
    → Ensures (λ _. Evolves m) v
    → Ensures (λ _. Evolves l) v
Ensures-later (done a r) first h = Evolves-trans first h
Ensures-later (refused e) first h = tt

-- Then the answer is made from what the step gave.
pub Ensures-then :
    {A B : Type 0} {m : Market} (v : Verdict A) (k : A → Tx B)
    → Ensures (λ _. Evolves m) v
    → ((a : A) (r : Market) → Evolves m r → Ensures (λ _. Evolves m) (k a r))
    → Ensures (λ _. Evolves m) (elim v [ done a after ↦ k a after | refused e ↦ refused e ])
Ensures-then {A} {B} {m} v k h rest = Ensures-bind (λ _. Evolves m) (λ _. Evolves m) v k h rest

module _ (id : ℕ) (m : Market) (s : IsSound m) (live : AreOpen id m.bids) where
  pub reject_bid-Evolves : Ensures (λ _. Evolves m) (reject_bid id m)
  unfolding reject_bid
  reject_bid-Evolves = Evolves-set_status id rejected bid_rejected m s live

  pub counter_bid-Evolves :
      (side : Side) (terms : Terms) → Ensures (λ _. Evolves m) (counter_bid id side terms m)
  unfolding counter_bid
  counter_bid-Evolves side terms =
      Ensures-valid (λ _. Evolves m) m (validate_terms terms) _
        (λ _. Evolves-put_counter id side terms m s live)

  -- The thread stays open.
  pub counter_bid-AreOpen :
      (side : Side) (terms : Terms)
      → Ensures (λ _ r. Evolves m r × AreOpen id r.bids) (counter_bid id side terms m)
  unfolding counter_bid
  counter_bid-AreOpen side terms =
      Ensures-valid (λ _ r. Evolves m r × AreOpen id r.bids) m (validate_terms terms) _
        (λ _. (Evolves-put_counter id side terms m s live, AreOpen-put_counter id side terms m))

  ai_counters-Evolves :
      (side : Side) (terms : Terms) (value target : ℤ)
      → Ensures (λ _. Evolves m) (ai_counters id side terms value target m)
  unfolding ai_counters
  ai_counters-Evolves side terms value target =
      Ensures-if (λ _. Evolves m) m (leb ai_max_rounds (round_count id m.bids)) _ _
        (λ _. reject_bid-Evolves)
        (λ _.
          Ensures-then (counter_bid id side (record terms { fee = target }) m) _
            (counter_bid-Evolves side (record terms { fee = target })) (λ _ r h. h))

  answer_counter-Evolves :
      (env : Outside) (side : Side) (terms : Terms) (value : ℤ) (d : RespondAction × ℤ)
      → Ensures (λ _. Evolves m) (answer_counter env id side terms value d m)
  unfolding answer_counter
  answer_counter-Evolves env side terms value (accept, target) =
      Ensures-then (accept_bid env id value m) _ (accept_bid-Evolves env id value m s live)
        (λ _ r h. h)
  answer_counter-Evolves env side terms value (reject, target) = reject_bid-Evolves
  answer_counter-Evolves env side terms value (counter, target) =
      ai_counters-Evolves side terms value target
  answer_counter-Evolves env side terms value (unknown_action, target) =
      ai_counters-Evolves side terms value target

  pub ai_replies_to_counter-Evolves :
      (env : Outside) (human_is_seller : Bool) (value : ℤ) (terms : Terms) (side : Side)
      (asking : Option ℤ)
      → Ensures
          (λ _. Evolves m)
          (ai_replies_to_counter env id human_is_seller value terms side asking m)
  unfolding ai_replies_to_counter
  ai_replies_to_counter-Evolves env human_is_seller value terms side asking =
      Ensures-need (λ _. Evolves m) m (find_bid id m.bids) internal _
        (λ b _.
          Ensures-need (λ _. Evolves m) m (env.policy_bot (opposite_club human_is_seller b))
            internal _ (λ _ _. answer_counter-Evolves env side terms value _))

  pub answer_bid-Evolves :
      (terms : Terms) (value : ℤ) (env : Outside) (d : RespondAction × ℤ)
      → Ensures (λ _. Evolves m) (answer_bid id terms value env d m)
  unfolding answer_bid
  answer_bid-Evolves terms value env (accept, target) =
      Ensures-then (accept_bid env id value m) _ (accept_bid-Evolves env id value m s live)
        (λ _ r h. h)
  answer_bid-Evolves terms value env (reject, target) = reject_bid-Evolves
  answer_bid-Evolves terms value env (counter, target) =
      Ensures-then (counter_bid id selling_club (record terms { fee = target }) m) _
        (counter_bid-Evolves selling_club (record terms { fee = target })) (λ _ r h. h)
  answer_bid-Evolves terms value env (unknown_action, target) = Evolves-refl m s

module _ (env : Outside) (actor : Actor) (club : ℕ) (b : Bid) (m : Market) (s : IsSound m)
    (live : AreOpen b.id m.bids) where
  respond_accept-Evolves : Ensures (λ _. Evolves m) (respond_accept env club b m)
  unfolding respond_accept
  respond_accept-Evolves =
      Ensures-need (λ _. Evolves m) m (latest_round b.rounds) internal _
        (λ r _.
          Ensures-passed (λ _. Evolves m) m (same_side r.proposed_by (side_of club b))
            invalid_action_for_role _
            (λ _.
              Ensures-need (λ _. Evolves m) m (env.valuation m b.player) player_not_found _
                (λ value _.
                  Ensures-then (accept_bid env b.id value m) _
                    (accept_bid-Evolves env b.id value m s live) (λ _ r h. h))))

  opponent_replies-Evolves :
      (terms : Terms) (asking : Option ℤ)
      → Ensures (λ _. Evolves m) (opponent_replies env actor club b terms asking m)
  unfolding opponent_replies
  opponent_replies-Evolves terms asking =
      Ensures-need (λ _. Evolves m) m (env.is_ai_club (opponent club b)) club_not_found _
        (λ ai _.
          Ensures-if (λ _. Evolves m) m (ai && not actor.is_policy_bot) _ _
            (λ _.
              Ensures-need (λ _. Evolves m) m (env.valuation m b.player) player_not_found _
                (λ value _.
                  ai_replies_to_counter-Evolves b.id m s live env (club == b.seller) value terms
                    (other_side club b) asking))
            (λ _. Evolves-refl m s))

module _ (env : Outside) (actor : Actor) (club : ℕ) (b : Bid) (m : Market) (s : IsSound m)
    (live : AreOpen b.id m.bids) where
  respond_counter-Evolves :
      (offer : Option Terms) → Ensures (λ _. Evolves m) (respond_counter env actor club b offer m)
  unfolding respond_counter
  respond_counter-Evolves offer =
      Ensures-need (λ _. Evolves m) m offer invalid_terms _
        (λ terms _.
          Ensures-bind (λ _ r. Evolves m r × AreOpen b.id r.bids) (λ _. Evolves m)
            (counter_bid b.id (side_of club b) terms m) _
            (counter_bid-AreOpen b.id m s live (side_of club b) terms)
            (λ _ r (moved, live').
              let asking = asking_for b.listing m in
              let reply = opponent_replies env actor club b terms asking r in
              Ensures-then reply _
                (Ensures-later reply moved
                  (opponent_replies-Evolves env actor club b r moved.sound live' terms asking))
                (λ _ r' h. h)))

  pub answer_with-Evolves :
      (action : RespondAction) (offer : Option Terms)
      → Ensures (λ _. Evolves m) (answer_with env actor club b action offer m)
  unfolding answer_with
  answer_with-Evolves accept offer = respond_accept-Evolves env actor club b m s live
  answer_with-Evolves reject offer = reject_bid-Evolves b.id m s live
  answer_with-Evolves counter offer = respond_counter-Evolves offer
  answer_with-Evolves unknown_action offer = Evolves-refl m s

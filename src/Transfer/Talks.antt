-- ===== src/Transfer/Talks.antt =====
-- Who may answer a bid, and what an expired bid answers: respondToBid of bid.go.
use touchline.Common.{
  ℕ, ◌≡◌, refl, sym, ◌≢◌, ◌⊎◌, true, false, ◌||◌, not, Option, some, arith, ◌==◌,
}
use touchline.Transfer.Rows.{
  Bid, Side, buying_club, selling_club, Terms, NegotiationRound, Market, Actor, internal,
  invalid_action_for_role, bid_not_found, not_bid_participant, bid_resolved,
}
use touchline.Transfer.Tx.{
  Verdict, done, refused, Ensures, Ensures-bind, Ensures-need, Ensures-passed, Ensures-if,
}
use touchline.Transfer.Terms.{RespondAction, accept, reject, counter, unknown_action}
use touchline.Transfer.Outside.{Outside}
use touchline.Transfer.Funds.{same_side}
use touchline.Transfer.Threads.{is_open, find_bid, latest_round, bid_expired}
use touchline.Transfer.Bids.{Answer, require_club_in}
use touchline.Transfer.Respond.{
  Response, answered, was_expired, is_known_action, side_of, load_open_bid, respond_accept,
  answer_with, respond_to_bid,
}
use touchline.Transfer.Checks.{Ensures-quiet, Anything, require_club_in-quiet}

-- The offer on the table is the other side's.
abbrev pub IsForeignOffer : RespondAction → ℕ → Bid → Type 0
IsForeignOffer accept club b =
    (n : NegotiationRound) × (latest_round b.rounds ≡ some n) × (n.proposed_by ≢ side_of club b)
IsForeignOffer reject club b = Unit
IsForeignOffer counter club b = Unit
IsForeignOffer unknown_action club b = ⊥

abbrev pub MayAnswer : Outside → Market → ℕ → ℕ → ℕ → RespondAction → Response → Type 0
MayAnswer env m world club id action was_expired =
    (b : Bid) × (find_bid id m.bids ≡ some b) × (bid_expired env.now env.bid_ttl b ≡ true)
MayAnswer env m world club id action (answered a) =
    (b : Bid) × (find_bid id m.bids ≡ some b)
    × (b.world ≡ world)
    × ((club ≡ b.seller) ⊎ (club ≡ b.buyer))
    × (is_open b.status ≡ true)
    × (bid_expired env.now env.bid_ttl b ≡ false)
    × IsForeignOffer action club b

same_side-false : (s t : Side) → same_side s t ≡ false → s ≢ t
same_side-false buying_club t h e = ground (arith, h, sym e)
same_side-false selling_club t h e = ground (arith, h, sym e)

Ensures-fact : {A : Type 0} (P : Type 0) (v : Verdict A) → P → Ensures (λ _ _. P) v
Ensures-fact P (done a r) p = p
Ensures-fact P (refused e) p = tt

respond_accept-foreign :
    (env : Outside) (club : ℕ) (b : Bid) (m : Market)
    → Ensures (λ _ _. IsForeignOffer accept club b) (respond_accept env club b m)
unfolding respond_accept
respond_accept-foreign env club b m =
    let Q : Answer → Market → Type 0 = λ _ _. IsForeignOffer accept club b in
    Ensures-need Q m (latest_round b.rounds) internal _ (λ n latest.
      Ensures-passed Q m (same_side n.proposed_by (side_of club b)) invalid_action_for_role _
        (λ other.
          Ensures-fact (IsForeignOffer accept club b) _
            (n, latest, same_side-false n.proposed_by (side_of club b) other)))

answer_with-foreign :
    (env : Outside) (actor : Actor) (club : ℕ) (b : Bid) (action : RespondAction)
    (offer : Option Terms) (m : Market)
    → is_known_action action ≡ true
    → Ensures (λ _ _. IsForeignOffer action club b) (answer_with env actor club b action offer m)
unfolding answer_with
answer_with-foreign env actor club b accept offer m known = respond_accept-foreign env club b m
answer_with-foreign env actor club b reject offer m known =
    Ensures-fact Unit (answer_with env actor club b reject offer m) tt
answer_with-foreign env actor club b counter offer m known =
    Ensures-fact Unit (answer_with env actor club b counter offer m) tt
answer_with-foreign env actor club b unknown_action offer m known = ground (arith, known)

abbrev pub MayAct : Market → ℕ → ℕ → ℕ → Bid → Type 0
MayAct m world club id b =
    (find_bid id m.bids ≡ some b)
    × (b.world ≡ world)
    × ((club ≡ b.seller) ⊎ (club ≡ b.buyer))
    × (is_open b.status ≡ true)

pub load_open_bid-MayAct :
    (m : Market) (world club id : ℕ)
    → Ensures (λ b r. (r ≡ m) × MayAct m world club id b) (load_open_bid world club id m)
unfolding load_open_bid
load_open_bid-MayAct m world club id =
    let Q : Bid → Market → Type 0 = λ b r. (r ≡ m) × MayAct m world club id b in
    Ensures-need Q m (find_bid id m.bids) bid_not_found _ (λ b found.
      Ensures-passed Q m (not (b.world == world)) bid_not_found _ (λ here.
        Ensures-passed Q m (not (club == b.seller || club == b.buyer)) not_bid_participant _
          (λ part. Ensures-passed Q m (not (is_open b.status)) bid_resolved _ (λ live.
            (refl, (found, ground (arith, here), ground (arith, part), ground (arith, live)))))))

-- A response that goes through is by the buyer or the seller of an open bid of its world that is
-- not out of time, and an acceptance is of the other side's offer; or else the bid was out of time.
pub respond_to_bid-MayAnswer :
    (env : Outside) (actor : Actor) (world club id : ℕ) (action : RespondAction)
    (offer : Option Terms) (m : Market)
    → Ensures
        (λ a _. MayAnswer env m world club id action a)
        (respond_to_bid env actor world club id action offer m)
unfolding respond_to_bid
respond_to_bid-MayAnswer env actor world club id action offer m =
    let Q : Response → Market → Type 0 = λ a _. MayAnswer env m world club id action a in
    Ensures-passed Q m (not (is_known_action action)) invalid_action_for_role _ (λ known.
      Ensures-quiet Anything Q m (require_club_in env world club m) _
        (require_club_in-quiet env world club m)
        (λ _ _.
          Ensures-quiet (MayAct m world club id) Q m (load_open_bid world club id m) _
            (load_open_bid-MayAct m world club id)
            (λ b (found, here, part, live).
              Ensures-if Q m (bid_expired env.now env.bid_ttl b) _ _ (λ late. (b, found, late))
                (λ in_time.
                  Ensures-bind (λ _ _. IsForeignOffer action club b) Q
                    (answer_with env actor club b action offer m) _
                    (answer_with-foreign env actor club b action offer m (ground (arith, known)))
                    (λ a r foreign. (b, found, here, part, live, in_time, foreign))))))

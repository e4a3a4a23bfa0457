-- ===== src/Transfer/Endings.antt =====
-- A negotiation with an AI club ends: aiRepliesToCounter of completion.go, called by respondToBid of
-- bid.go.
use touchline.Common.{
  ℕ, suc, ◌≤◌, ◌≡◌, refl, subst, ◌⊎◌, inl, inr, Bool, true, false, ◌&&◌, not, Option, some, List,
  [], ◌∷◌, arith, ◌==◌, leb, if◌then◌else◌, length, Bool-cases,
}
use touchline.Common.Int.{ℤ, ltb_ℤ}
use touchline.Transfer.Rows.{
  accepted, rejected, countered, expired, Bid, Side, Terms, Market, Actor, internal,
  player_not_found, invalid_terms, club_not_found, insufficient_funds,
}
use touchline.Transfer.Tx.{
  Ensures, Ensures-bind, Ensures-need, Ensures-passed, Ensures-if, ◌>>=◌, ◌>>◌, give, write,
  refuse_when,
}
use touchline.Transfer.Terms.{
  validate_terms, RespondAction, accept, reject, counter, unknown_action, ai_max_rounds,
  Explanation, completion_explanation,
}
use touchline.Transfer.Outside.{Outside}
use touchline.Transfer.Funds.{cash_in_tx, mint_account}
use touchline.Transfer.Threads.{
  find_bid, latest_round, round_count, bid_expired, set_status_where, has_id, append_round,
}
use touchline.Transfer.Completion.{
  settle, accept_bid, reject_bid, counter_bid, put_counter, ai_counters, answer_counter,
  ai_replies_to_counter, opposite_club,
}
use touchline.Transfer.Bids.{Answer, asking_for, require_club_in}
use touchline.Transfer.Respond.{
  Response, answered, was_expired, side_of, other_side, opponent, opponent_replies, respond_counter,
  respond_to_bid, load_open_bid, answer_with,
}
use touchline.Transfer.Checks.{Ensures-quiet, Anything, require_club_in-quiet}
use touchline.Transfer.Talks.{MayAct, load_open_bid-MayAct}
use touchline.Transfer.Payment.{closed_bids}
use touchline.Transfer.Sale.{settle-closes, Ensures-account}
use touchline.Transfer.Accepting.{Ensures-valid, find_bid-id}
use touchline.Transfer.Effects.{status_of, status_of-closed, status_after}

closes_from :
    (env : Outside) (b : Bid) (t : Terms) (value : ℤ) (account id : ℕ) (r : Market)
    → b.id ≡ id
    → status_of id (closed_bids b.player id r.bids) ≡ some accepted
    → Ensures {A = ℕ × Explanation}
        (λ _ r'. status_of id r'.bids ≡ some accepted)
        ((refuse_when (ltb_ℤ (cash_in_tx account r.ledger) t.fee) insufficient_funds
            >> (settle env b t account >>= λ transfer.
                give (transfer, completion_explanation value t)))
          r)
closes_from env b t value account id r its status =
    let Q : ℕ × Explanation → Market → Type 0 = λ _ r'. status_of id r'.bids ≡ some accepted in
    Ensures-passed Q r (ltb_ℤ (cash_in_tx account r.ledger) t.fee) insufficient_funds _ (λ _.
      Ensures-bind (λ _ r'. r'.bids ≡ closed_bids b.player b.id r.bids) Q (settle env b t account r)
        _ (settle-closes env b t account r) (λ _ r' closed. rw (closed, its) status))

accept_bid-status :
    (env : Outside) (id : ℕ) (value : ℤ) (m : Market)
    → Ensures (λ _ r. status_of id r.bids ≡ some accepted) (accept_bid env id value m)
unfolding accept_bid
accept_bid-status env id value m =
    let Q : ℕ × Explanation → Market → Type 0 = λ _ r. status_of id r.bids ≡ some accepted in
    Ensures-need Q m (find_bid id m.bids) internal _ (λ b found.
      Ensures-need Q m (latest_round b.rounds) internal _ (λ n _.
        Ensures-valid Q m (validate_terms n.terms) _ (λ _.
          let its = find_bid-id id m.bids b found in
          let status = status_of-closed b.player id m.bids b found in
          Ensures-account Q b.buyer m true _
            (λ account _. closes_from env b n.terms value account id m its status)
            (λ _.
              closes_from env b n.terms value m.next_id id (mint_account b.buyer m) its status))))

reject_bid-status :
    (id : ℕ) (m : Market) (b : Bid)
    → find_bid id m.bids ≡ some b
    → Ensures (λ _ r. status_of id r.bids ≡ some rejected) (reject_bid id m)
unfolding reject_bid
reject_bid-status id m b found = status_after id rejected m.bids b found

-- The thread is over: the transfer went through, or the offer was rejected.
abbrev pub IsEnded : ℕ → Market → Type 0
IsEnded id m = (status_of id m.bids ≡ some accepted) ⊎ (status_of id m.bids ≡ some rejected)

module _ (env : Outside) (id : ℕ) (m : Market) (b : Bid) (found : find_bid id m.bids ≡ some b)
    (used : leb ai_max_rounds (round_count id m.bids) ≡ true) where
  reject-ends : Ensures (λ _ r. IsEnded id r) (reject_bid id m)
  unfolding reject_bid
  reject-ends = inr (reject_bid-status id m b found)

  ai_counters-ends :
      (side : Side) (terms : Terms) (value target : ℤ)
      → Ensures (λ _ r. IsEnded id r) (ai_counters id side terms value target m)
  unfolding ai_counters
  ai_counters-ends side terms value target =
      Ensures-if (λ _ r. IsEnded id r) m (leb ai_max_rounds (round_count id m.bids)) _ _
        (λ _. reject-ends) (λ left. ground (arith, used, left))

  answer_counter-ends :
      (side : Side) (terms : Terms) (value : ℤ) (d : RespondAction × ℤ)
      → Ensures (λ _ r. IsEnded id r) (answer_counter env id side terms value d m)
  unfolding answer_counter
  answer_counter-ends side terms value (accept, target) =
      Ensures-bind (λ _ r. status_of id r.bids ≡ some accepted) (λ _ r. IsEnded id r)
        (accept_bid env id value m) _ (accept_bid-status env id value m)
        (λ _ r done_deal. inl done_deal)
  answer_counter-ends side terms value (reject, target) = reject-ends
  answer_counter-ends side terms value (counter, target) = ai_counters-ends side terms value target
  answer_counter-ends side terms value (unknown_action, target) =
      ai_counters-ends side terms value target

  ai_replies-ends :
      (human_is_seller : Bool) (value : ℤ) (terms : Terms) (side : Side) (asking : Option ℤ)
      → Ensures
          (λ _ r. IsEnded id r)
          (ai_replies_to_counter env id human_is_seller value terms side asking m)
  unfolding ai_replies_to_counter
  ai_replies-ends human_is_seller value terms side asking =
      Ensures-need (λ _ r. IsEnded id r) m (find_bid id m.bids) internal _
        (λ x _.
          Ensures-need (λ _ r. IsEnded id r) m (env.policy_bot (opposite_club human_is_seller x))
            internal _ (λ _ _. answer_counter-ends side terms value _))

-- The rounds of a thread after a counter.
rounds_after :
    (id : ℕ) (side : Side) (terms : Terms) (m : Market) (b : Bid)
    → find_bid id m.bids ≡ some b
    → (c : Bid) × (find_bid id (put_counter id side terms m).bids ≡ some c)
      × (length c.rounds ≡ suc (length b.rounds))
rounds_after id side terms m b found = go m.bids found
  where
    go :
        (l : List Bid)
        → find_bid id l ≡ some b
        → (c : Bid) × (find_bid id
              (set_status_where (has_id id) countered (append_round id side terms l))
            ≡ some c)
          × (length c.rounds ≡ suc (length b.rounds))
    go [] e = cc
    go (x ∷ l) e = elim (Bool-cases (x.id == id)) [
      | inl hit ↦
          let same : x ≡ b = ground (arith, rw hit at e) in
          rw (hit, hit, hit) (_, refl, rw same refl)
      | inr miss ↦ rw (miss, miss, miss) (go l (rw miss at e))
    ]

used_up :
    (id : ℕ) (bids : List Bid) (c : Bid)
    → find_bid id bids ≡ some c
    → 3 ≤ length c.rounds
    → leb ai_max_rounds (round_count id bids) ≡ true
used_up id bids c found h = rw (found, round_count) (ground (arith, h))

replies-end :
    (env : Outside) (actor : Actor) (club : ℕ) (b : Bid) (terms : Terms) (asking : Option ℤ)
    (m : Market) (c : Bid)
    → find_bid b.id m.bids ≡ some c
    → 3 ≤ length c.rounds
    → env.is_ai_club (opponent club b) ≡ some true
    → actor.is_policy_bot ≡ false
    → Ensures (λ _ r. IsEnded b.id r) (opponent_replies env actor club b terms asking m)
unfolding opponent_replies
replies-end env actor club b terms asking m c found long ai human =
    let Q : Option Explanation → Market → Type 0 = λ _ r. IsEnded b.id r in
    Ensures-need Q m (env.is_ai_club (opponent club b)) club_not_found _ (λ is_ai e.
      let yes_ai : is_ai ≡ true = ground (arith, ai, e) in
      Ensures-if Q m (is_ai && not actor.is_policy_bot) _ _
        (λ _. Ensures-need Q m (env.valuation m b.player) player_not_found _ (λ value _.
          ai_replies-ends env b.id m c found (used_up b.id m.bids c found long) (club == b.seller)
            value terms (other_side club b) asking))
        (λ silent. ground (arith, yes_ai, human, silent)))

counter_bid-puts :
    (id : ℕ) (side : Side) (terms : Terms) (m : Market)
    → Ensures (λ _ r. r ≡ put_counter id side terms m) (counter_bid id side terms m)
unfolding counter_bid
counter_bid-puts id side terms m =
    Ensures-valid (λ _ r. r ≡ put_counter id side terms m) m (validate_terms terms) _ (λ _. refl)

-- The bid has been answered for good, or is out of time.
abbrev pub IsOver : ℕ → Market → Type 0
IsOver id m = IsEnded id m ⊎ (status_of id m.bids ≡ some expired)

counter-ends :
    (env : Outside) (actor : Actor) (club : ℕ) (b : Bid) (offer : Option Terms) (m : Market)
    → find_bid b.id m.bids ≡ some b
    → env.is_ai_club (opponent club b) ≡ some true
    → actor.is_policy_bot ≡ false
    → 2 ≤ length b.rounds
    → Ensures (λ _ r. IsEnded b.id r) (respond_counter env actor club b offer m)
unfolding respond_counter
counter-ends env actor club b offer m found ai human long =
    let Q : Answer → Market → Type 0 = λ _ r. IsEnded b.id r in
    Ensures-need Q m offer invalid_terms _ (λ terms _.
      let side = side_of club b in
      Ensures-bind (λ _ r. r ≡ put_counter b.id side terms m) Q (counter_bid b.id side terms m) _
        (counter_bid-puts b.id side terms m)
        (λ _ r same.
          let (c, found', grown) = rounds_after b.id side terms m b found in
          let asking = asking_for b.listing m in
          let found_r : find_bid b.id r.bids ≡ some c = rw same found' in
          Ensures-bind (λ _ x. IsEnded b.id x) Q (opponent_replies env actor club b terms asking r)
            _
            (replies-end env actor club b terms asking r c found_r (omega (arith, grown, long)) ai
              human)
            (λ _ x over. over)))

-- When a manager, not a policy bot, counters on a thread of two rounds or more with an AI club, and
-- the counter is not refused, the bid is over: accepted or rejected, or it was out of time.
pub respond_to_bid-IsOver :
    (env : Outside) (actor : Actor) (world club : ℕ) (offer : Option Terms) (m : Market) (b : Bid)
    → find_bid b.id m.bids ≡ some b
    → env.is_ai_club (opponent club b) ≡ some true
    → actor.is_policy_bot ≡ false
    → 2 ≤ length b.rounds
    → Ensures (λ _ r. IsOver b.id r) (respond_to_bid env actor world club b.id counter offer m)
unfolding respond_to_bid answer_with
respond_to_bid-IsOver env actor world club offer m b found ai human long =
    let Q : Response → Market → Type 0 = λ _ r. IsOver b.id r in
    Ensures-quiet Anything Q m (require_club_in env world club m) _
      (require_club_in-quiet env world club m)
      (λ _ _.
        Ensures-quiet (MayAct m world club b.id) Q m (load_open_bid world club b.id m) _
          (load_open_bid-MayAct m world club b.id)
          (λ x may.
            let same : b ≡ x = ground (arith, found, may.0) in
            subst
              (λ y. Ensures Q (
                (if bid_expired env.now env.bid_ttl y
                    then (write
                          (λ n. record n { bids = set_status_where (has_id b.id) expired n.bids })
                        >> give was_expired)
                    else (answer_with env actor club y counter offer >>= λ a. give (answered a)))
                  m))
              same
              (Ensures-if Q m (bid_expired env.now env.bid_ttl b) _ _
                (λ _. inr (status_after b.id expired m.bids b found))
                (λ _.
                  Ensures-bind (λ _ r. IsEnded b.id r) Q (respond_counter env actor club b offer m)
                    _ (counter-ends env actor club b offer m found ai human long)
                    (λ _ r over. inl over)))))

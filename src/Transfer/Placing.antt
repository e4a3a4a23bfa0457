-- ===== src/Transfer/Placing.antt =====
-- Bids that are placed, answered and withdrawn keep the market in order: bid.go.
use touchline.Common.{ℕ, ◌≡◌, refl, true, ◌||◌, not, Option, arith, ◌==◌}
use touchline.Transfer.Rows.{
  Bid, Terms, Market, Actor, expired, withdrawn, bid_was_withdrawn, invalid_action_for_role,
  bid_not_found, not_bid_participant, bid_resolved, club_not_found, player_not_found,
  no_active_club, bid_placed,
}
use touchline.Transfer.Tx.{Ensures, Ensures-need, Ensures-passed, Ensures-if}
use touchline.Transfer.Terms.{validate_terms, RespondAction, ai_seller_decision}
use touchline.Transfer.Outside.{Outside}
use touchline.Transfer.Threads.{is_open, find_bid, set_status_where, has_id, bid_expired}
use touchline.Transfer.Completion.{emit}
use touchline.Transfer.Bids.{
  BidInput, asking_for, require_club_in, check_bid, write_bid_thread, ai_seller_answers,
  place_bid_tx, place_bid,
}
use touchline.Transfer.Respond.{
  is_known_action, load_open_bid, answer_with, respond_to_bid, respond_as_manager, withdraw_bid,
}
use touchline.Transfer.Invariant.{AreLater-refl, AreOpen, IsSound}
use touchline.Transfer.Evolves.{Evolves, Evolves-bids, Evolves-trans}
use touchline.Transfer.Updates.{open_if_found, Evolves-set_status, set_status-AreLater}
use touchline.Transfer.NewThread.{AreOpen-write_bid_thread, Evolves-write_bid_thread}
use touchline.Transfer.Accepting.{Ensures-valid, find_bid-id}
use touchline.Transfer.Answers.{
  Ensures-later, Ensures-then, answer_bid-Evolves, answer_with-Evolves,
}
use touchline.Transfer.Checks.{
  Ensures-quiet, Anything, require_club_in-quiet, MayBid, check_bid-quiet,
}

module _ (env : Outside) (m : Market) (s : IsSound m) where
  ai_seller_answers-Evolves :
      (id player : ℕ) (listing : Option ℕ) (terms : Terms)
      → AreOpen id m.bids
      → Ensures (λ _. Evolves m) (ai_seller_answers env id player listing terms m)
  unfolding ai_seller_answers
  ai_seller_answers-Evolves id player listing terms live =
      Ensures-need (λ _. Evolves m) m (env.valuation m player) player_not_found _
        (λ value _.
          answer_bid-Evolves id m s live terms value env
            (ai_seller_decision env.mul terms.fee value (asking_for listing m)))

module _ (env : Outside) (world : ℕ) (m : Market) (s : IsSound m) where
  placed : (buyer : ℕ) (input : BidInput) (a : ℕ × ℕ) → Market
  placed buyer input a =
      emit bid_placed m.next_id
        (write_bid_thread env world input.listing a.0 buyer a.1 input.terms m)

  Evolves-placed :
      (buyer : ℕ) (input : BidInput) (a : ℕ × ℕ)
      → MayBid m buyer input.terms.fee a
      → Evolves m (placed buyer input a)
  unfolding placed
  Evolves-placed buyer input a may =
      let r = write_bid_thread env world input.listing a.0 buyer a.1 input.terms m in
      let h =
        Evolves-write_bid_thread env world input.listing a.0 buyer a.1 input.terms m s
          may.no_duplicate may.not_own may.home in
      Evolves-trans h (
        Evolves-bids r (placed buyer input a) h.sound (AreLater-refl r.bids) refl refl
          (omega arith))

  pub place_bid_tx-Evolves :
      (buyer : ℕ) (input : BidInput)
      → Ensures (λ _. Evolves m) (place_bid_tx env world buyer input m)
  unfolding place_bid_tx placed
  place_bid_tx-Evolves buyer input =
      Ensures-quiet (MayBid m buyer input.terms.fee) (λ _. Evolves m) m
        (check_bid env world buyer input m) _ (check_bid-quiet env world buyer input m)
        (λ a may.
          let r = placed buyer input a in
          let h = Evolves-placed buyer input a may in
          let live =
            AreOpen-write_bid_thread env world input.listing a.0 buyer a.1 input.terms m s in
          Ensures-need (λ _. Evolves m) r (env.is_ai_club a.1) club_not_found _
            (λ ai _.
              Ensures-if (λ _. Evolves m) r ai _ _
                (λ _.
                  Ensures-later (ai_seller_answers env m.next_id a.0 input.listing input.terms r) h
                    (ai_seller_answers-Evolves env r h.sound m.next_id a.0 input.listing input.terms
                      live))
                (λ _. h)))

  pub place_bid-Evolves :
      (actor : Actor) (input : BidInput)
      → Ensures (λ _. Evolves m) (place_bid env actor world input m)
  unfolding place_bid
  place_bid-Evolves actor input =
      Ensures-need (λ _. Evolves m) m (env.manager_club actor.manager) no_active_club _
        (λ buyer _.
          Ensures-quiet Anything (λ _. Evolves m) m (require_club_in env world buyer m) _
            (require_club_in-quiet env world buyer m)
            (λ _ _.
              Ensures-valid (λ _. Evolves m) m (validate_terms input.terms) _
                (λ _. place_bid_tx-Evolves buyer input)))

  load_open_bid-quiet :
      (club id : ℕ)
      → Ensures
          (λ b r. (r ≡ m) × ((b.id ≡ id) × AreOpen b.id m.bids))
          (load_open_bid world club id m)
  unfolding load_open_bid
  load_open_bid-quiet club id =
      let Q : Bid → Market → Type 0 = λ b r. (r ≡ m) × ((b.id ≡ id) × AreOpen b.id m.bids) in
      Ensures-need Q m (find_bid id m.bids) bid_not_found _ (λ b found.
        Ensures-passed Q m (not (b.world == world)) bid_not_found _ (λ _.
          Ensures-passed Q m (not (club == b.seller || club == b.buyer)) not_bid_participant _ (λ _.
            Ensures-passed Q m (not (is_open b.status)) bid_resolved _ (λ live.
              let same = find_bid-id id m.bids b found in
              let status : is_open b.status ≡ true = ground (arith, live) in
              (refl, (same, rw same (open_if_found id m.bids b s.ids_distinct found status)))))))

  pub respond_to_bid-Evolves :
      (actor : Actor) (club id : ℕ) (action : RespondAction) (offer : Option Terms)
      → Ensures (λ _. Evolves m) (respond_to_bid env actor world club id action offer m)
  unfolding respond_to_bid
  respond_to_bid-Evolves actor club id action offer =
      Ensures-passed (λ _. Evolves m) m (not (is_known_action action)) invalid_action_for_role _
        (λ _.
          Ensures-quiet Anything (λ _. Evolves m) m (require_club_in env world club m) _
            (require_club_in-quiet env world club m)
            (λ _ _.
              Ensures-quiet (λ b. (b.id ≡ id) × AreOpen b.id m.bids) (λ _. Evolves m) m
                (load_open_bid world club id m) _ (load_open_bid-quiet club id)
                (λ b (same, live).
                  Ensures-if (λ _. Evolves m) m (bid_expired env.now env.bid_ttl b) _ _
                    (λ _.
                      Evolves-bids m
                        (record m { bids = set_status_where (has_id id) expired m.bids }) s
                        (set_status-AreLater id expired m.bids (rw same at live)) refl refl
                        (omega arith))
                    (λ _.
                      Ensures-then (answer_with env actor club b action offer m) _
                        (answer_with-Evolves env actor club b m s live action offer)
                        (λ _ r h. h)))))

  pub respond_as_manager-Evolves :
      (actor : Actor) (id : ℕ) (action : RespondAction) (offer : Option Terms)
      → Ensures (λ _. Evolves m) (respond_as_manager env actor world id action offer m)
  unfolding respond_as_manager
  respond_as_manager-Evolves actor id action offer =
      Ensures-need (λ _. Evolves m) m (env.manager_club actor.manager) no_active_club _
        (λ club _. respond_to_bid-Evolves actor club id action offer)

  pub withdraw_bid-Evolves :
      (actor : Actor) (id : ℕ) → Ensures (λ _. Evolves m) (withdraw_bid env actor world id m)
  unfolding withdraw_bid
  withdraw_bid-Evolves actor id =
      Ensures-need (λ _. Evolves m) m (env.manager_club actor.manager) no_active_club _
        (λ club _.
          Ensures-quiet Anything (λ _. Evolves m) m (require_club_in env world club m) _
            (require_club_in-quiet env world club m)
            (λ _ _.
              Ensures-need (λ _. Evolves m) m (find_bid id m.bids) bid_not_found _
                (λ b found.
                  Ensures-passed (λ _. Evolves m) m (not (b.world == world)) bid_not_found _
                    (λ _.
                      Ensures-passed (λ _. Evolves m) m (not (b.buyer == club)) not_bid_participant
                        _
                        (λ _.
                          Ensures-passed (λ _. Evolves m) m (not (is_open b.status)) bid_resolved _
                            (λ live. Evolves-set_status id withdrawn bid_was_withdrawn m s (
                              open_if_found id m.bids b s.ids_distinct found
                                (ground (arith, live)))))))))

-- ===== src/Transfer/Sweep.antt =====
-- Listings, AI buyers and the daily sweep keep the market in order: listing.go, ai.go and daily.go.
use touchline.Common.{
  ℕ, ◌≡◌, refl, inl, inr, Bool, true, false, ◌&&◌, not, Option, none, some, List, [], ◌∷◌, arith,
  ◌==◌, if◌then◌else◌, All, Bool-cases,
}
use touchline.Common.Int.{ℤ, ltb_ℤ}
use touchline.Transfer.Rows.{
  Bid, Market, Actor, ListingType, Listing, expired, no_active_club, invalid_terms,
  player_not_found, not_club_member, player_not_transferable, world_mismatch, duplicate_listing,
  listing_not_found, not_listing_club, player_listed, bids_expired,
}
use touchline.Transfer.Tx.{
  Tx, Verdict, done, refused, Ensures, Ensures-need, Ensures-passed, Ensures-if, ◌>>◌, give, write,
}
use touchline.Transfer.Outside.{Outside, Candidate}
use touchline.Transfer.Threads.{
  is_open, is_on_market, find_listing, find_player, set_status_where, anchored_to, is_stale,
  how_many, live_listing_of,
}
use touchline.Transfer.Completion.{emit}
use touchline.Transfer.Bids.{BidInput, Answer, require_club_in, place_bid_tx}
use touchline.Transfer.Listings.{
  shortlist, bid_asking, ai_terms, sits_out, skip_refusal, place_ai_bid, place_ai_bids, ai_bidders,
  negative, add_listing, same_club, is_open_to_offers, create_listing, withdraw_listing,
  expire_stale, targets, bid_on_targets, ai_bid_activity,
}
use touchline.Transfer.Invariant.{AreLater, AreLater-refl, IsSound, set_status_where-AreLater}
use touchline.Transfer.Evolves.{Evolves, Evolves-refl, Evolves-bids}
use touchline.Transfer.Answers.{Ensures-later, Ensures-then}
use touchline.Transfer.Checks.{Ensures-quiet, Anything, require_club_in-quiet}
use touchline.Transfer.Placing.{place_bid_tx-Evolves}

-- A test that holds of open bids only.
expire-AreLater :
    (test : Bid → Bool) (bids : List Bid)
    → ((b : Bid) → test b ≡ true → is_open b.status ≡ true)
    → AreLater bids (set_status_where test expired bids)
expire-AreLater test bids h = set_status_where-AreLater test expired bids (everywhere bids)
  where
    everywhere : (l : List Bid) → All (λ b. test b ≡ true → is_open b.status ≡ true) l
    everywhere [] = tt
    everywhere (b ∷ l) = (h b, everywhere l)

anchored_to-open : (listing : ℕ) (b : Bid) → anchored_to listing b ≡ true → is_open b.status ≡ true
anchored_to-open listing b h = ground (arith, h)

is_stale-open :
    (world now ttl : ℕ) (b : Bid) → is_stale world now ttl b ≡ true → is_open b.status ≡ true
is_stale-open world now ttl b h = ground (arith, h)

skip_refusal-Evolves :
    (m : Market) (v : Verdict Answer)
    → IsSound m
    → Ensures (λ _. Evolves m) v
    → Ensures (λ _. Evolves m) (skip_refusal m v)
skip_refusal-Evolves m (done a r) s h = h
skip_refusal-Evolves m (refused e) s h = elim (Bool-cases (sits_out e)) [
  | inl out ↦ rw (out, Ensures) (Evolves-refl m s)
  | inr fails ↦ rw (fails, Ensures) tt
]

module _ (env : Outside) (world : ℕ) where
  place_ai_bid-Evolves :
      (listing : ℕ) (c : Candidate) (fee wage : ℤ) (m : Market)
      → IsSound m
      → Ensures (λ _. Evolves m) (place_ai_bid env world listing c fee wage m)
  unfolding place_ai_bid
  place_ai_bid-Evolves listing c fee wage m s =
      let input : BidInput = record {
        listing = some listing;
        player = none;
        terms = ai_terms fee wage;
      } in
      skip_refusal-Evolves m (place_bid_tx env world c.club input m) s
        (place_bid_tx-Evolves env world m s c.club input)

  place_ai_bids-Evolves :
      (listing : ℕ) (fee wage : ℤ) (rows : List Candidate) (m : Market)
      → IsSound m
      → Ensures (λ _. Evolves m) (place_ai_bids env world listing fee wage rows m)
  unfolding place_ai_bids
  place_ai_bids-Evolves listing fee wage [] m s = Evolves-refl m s
  place_ai_bids-Evolves listing fee wage (c ∷ rest) m s =
      let poor = ltb_ℤ c.cash (env.with_margin fee) in
      let first : Tx Bool =
        if poor then give false else place_ai_bid env world listing c fee wage in
      Ensures-then (first m) _
        (Ensures-if (λ _. Evolves m) m poor (give false) (place_ai_bid env world listing c fee wage)
          (λ _. Evolves-refl m s) (λ _. place_ai_bid-Evolves listing c fee wage m s))
        (λ ok r h.
          let others = place_ai_bids env world listing fee wage rest r in
          Ensures-then others _
            (Ensures-later others h (place_ai_bids-Evolves listing fee wage rest r h.sound))
            (λ _ r' h'. h'))

  ai_bidders-Evolves :
      (listing seller player : ℕ) (asking : Option ℤ) (m : Market)
      → IsSound m
      → Ensures (λ _. Evolves m) (ai_bidders env world listing seller player asking m)
  unfolding ai_bidders
  ai_bidders-Evolves listing seller player asking m s =
      Ensures-need (λ _. Evolves m) m (env.valuation m player) player_not_found _
        (λ value _.
          place_ai_bids-Evolves listing (env.ai_bid_fee listing value (bid_asking asking))
            (env.wage m player) (shortlist (env.candidates m world seller player)) m s)

  bid_on_targets-Evolves :
      (rows : List Listing) (m : Market)
      → IsSound m
      → Ensures (λ _. Evolves m) (bid_on_targets env world rows m)
  unfolding bid_on_targets
  bid_on_targets-Evolves [] m s = Evolves-refl m s
  bid_on_targets-Evolves (l ∷ rest) m s =
      Ensures-then (ai_bidders env world l.id l.club l.player l.asking_price m) _
        (ai_bidders-Evolves l.id l.club l.player l.asking_price m s)
        (λ n r h.
          let others = bid_on_targets env world rest r in
          Ensures-then others _ (Ensures-later others h (bid_on_targets-Evolves rest r h.sound))
            (λ _ r' h'. h'))

  module _ (m : Market) (s : IsSound m) where
    pub ai_bid_activity-Evolves : Ensures (λ _. Evolves m) (ai_bid_activity env world m)
    unfolding ai_bid_activity
    ai_bid_activity-Evolves = bid_on_targets-Evolves (targets env world m m.listings) m s

    pub expire_stale-Evolves : Ensures (λ _. Evolves m) (expire_stale env world m)
    unfolding expire_stale
    expire_stale-Evolves =
        let test = is_stale world env.now env.bid_ttl in
        let swept = set_status_where test expired m.bids in
        let later = expire-AreLater test m.bids (is_stale-open world env.now env.bid_ttl) in
        let r = record m { bids = swept } in
        let h = Evolves-bids m r s later refl refl (omega arith) in
        Ensures-then _ _
          (Ensures-if (λ _. Evolves m) r (how_many test m.bids == 0) (give tt)
            (write (emit bids_expired world)) (λ _. h)
            (λ _. Evolves-bids m (emit bids_expired world r) s later refl refl (omega arith)))
          (λ _ r' h'. h')

    pub create_listing-Evolves :
        (actor : Actor) (player : ℕ) (asking : Option ℤ) (kind : ListingType)
        → Ensures (λ _. Evolves m) (create_listing env actor world player asking kind m)
    unfolding create_listing
    create_listing-Evolves actor player asking kind =
        let Q : ℕ → Market → Type 0 = λ _. Evolves m in
        Ensures-need Q m (env.manager_club actor.manager) no_active_club _ (λ club _.
          Ensures-quiet Anything Q m (require_club_in env world club m) _
            (require_club_in-quiet env world club m)
            (λ _ _. Ensures-passed Q m (negative asking) invalid_terms _ (λ _.
              Ensures-need Q m (find_player player m.players) player_not_found _ (λ p _.
                Ensures-passed Q m (not (same_club club p.club)) not_club_member _ (λ _.
                  Ensures-passed Q m (not p.is_active) player_not_transferable _ (λ _.
                    Ensures-passed Q m (not (p.world == world)) world_mismatch _ (λ _.
                      Ensures-passed Q m (live_listing_of p.id m.listings) duplicate_listing _
                        (λ _. listed_on club p.id asking kind))))))))
      where
        listed_on :
            (club player : ℕ) (asking : Option ℤ) (kind : ListingType)
            → Ensures
                (λ _. Evolves m)
                (((if is_open_to_offers kind
                      then ai_bidders env world m.next_id club player asking
                      else give 0)
                    >> give m.next_id)
                  (emit player_listed m.next_id (add_listing world player club asking kind m)))
        listed_on club player asking kind =
            let r = emit player_listed m.next_id (add_listing world player club asking kind m) in
            let h = Evolves-bids m r s (AreLater-refl m.bids) refl refl (omega arith) in
            let invited = ai_bidders env world m.next_id club player asking in
            Ensures-then _ _
              (Ensures-if (λ _. Evolves m) r (is_open_to_offers kind) invited (give 0)
                (λ _.
                  Ensures-later (invited r) h
                    (ai_bidders-Evolves m.next_id club player asking r h.sound))
                (λ _. h))
              (λ _ r' h'. h')

    pub withdraw_listing-Evolves :
        (actor : Actor) (id : ℕ) → Ensures (λ _. Evolves m) (withdraw_listing env actor world id m)
    unfolding withdraw_listing
    withdraw_listing-Evolves actor id =
        let Q : Unit {0} → Market → Type 0 = λ _. Evolves m in
        Ensures-need Q m (env.manager_club actor.manager) no_active_club _ (λ club _.
          Ensures-quiet Anything Q m (require_club_in env world club m) _
            (require_club_in-quiet env world club m)
            (λ _ _. Ensures-need Q m (find_listing id m.listings) listing_not_found _ (λ l _.
              Ensures-passed Q m (not (l.world == world && is_on_market l.status)) listing_not_found
                _
                (λ _. Ensures-passed Q m (not (l.club == club)) not_listing_club _ (λ _.
                  Evolves-bids m _ s (expire-AreLater (anchored_to id) m.bids (anchored_to-open id))
                    refl refl (omega arith))))))

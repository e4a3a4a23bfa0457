-- ===== src/Transfer/Listings.antt =====
-- Listings, the buyers that an AI league sends, and the daily sweep: listing.go, ai.go and
-- daily.go.
use touchline.Common.{
  ℕ, suc, ◌+◌, Bool, true, false, ◌&&◌, not, Option, none, some, List, [], ◌∷◌, ◌++◌, ltb, ◌==◌,
  if◌then◌else◌, take,
}
use touchline.Common.Sort.{sort_by}
use touchline.Common.Int.{ℤ, pos, ltb_ℤ, leb_ℤ}
use touchline.Transfer.Rows.{
  MarketError, player_not_found, no_active_club, not_club_member, player_not_transferable,
  duplicate_listing, self_bid, invalid_terms, insufficient_funds, not_listing_club,
  listing_not_found, world_mismatch, duplicate_open_bid, Actor, Terms, expired, Listing,
  ListingType, open_to_offers, actively_shopped, loan_available, on_market, off_market, Market,
  player_listed, player_listing_withdrawn, bids_expired,
}
use touchline.Transfer.Tx.{
  Verdict, Tx, done, refused, ◌>>=◌, ◌>>◌, give, read, need, refuse_when, write,
}
use touchline.Transfer.Outside.{Outside, Candidate}
use touchline.Transfer.Threads.{
  is_on_market, find_listing, find_player, set_status_where, set_listings_where, anchored_to,
  is_stale, any_bid, how_many, live_listing_of,
}
use touchline.Transfer.Completion.{emit}
use touchline.Transfer.Bids.{Answer, require_club_in, place_bid_tx}

-- Thinnest squads first; the rows come in the order of club ids, and the sort is stable.
abbrev pub shortlist : List Candidate → List Candidate
shortlist rows = take 2 (sort_by (λ c d. ltb c.squad_depth d.squad_depth) rows)

abbrev pub bid_asking : Option ℤ → ℤ
bid_asking none = pos 0
bid_asking (some asking) = asking

abbrev pub ai_terms : ℤ → ℤ → Terms
ai_terms fee wage = record {
  fee = fee;
  weekly_wage = if leb_ℤ wage (pos 0) then pos 20000 else wage;
  contract_length_months = pos 24;
  signing_bonus = pos 0;
  release_clause = none;
  sell_on_percentage = none;
  buy_back_amount = none;
}

-- The errors for which an AI club sits it out.
abbrev pub sits_out : MarketError → Bool
sits_out duplicate_open_bid = true
sits_out insufficient_funds = true
sits_out listing_not_found = true
sits_out player_not_transferable = true
sits_out self_bid = true
sits_out _ = false

-- A bid that sits out leaves the transaction as it was: its checks refused it, before any write.
abbrev pub skip_refusal : Market → Verdict Answer → Verdict Bool
skip_refusal m (done a after) = done true after
skip_refusal m (refused e) = if sits_out e then done false m else refused e

unfoldable pub place_ai_bid : Outside → ℕ → ℕ → Candidate → ℤ → ℤ → Tx Bool
unfolding place_bid_tx
place_ai_bid env world listing c fee wage m = skip_refusal m (
    place_bid_tx env world c.club
      (record { listing = some listing; player = none; terms = ai_terms fee wage }) m)

-- The loop over the shortlist; the number of bids placed comes back.
unfoldable pub place_ai_bids : Outside → ℕ → ℕ → ℤ → ℤ → List Candidate → Tx ℕ
unfolding place_ai_bid
place_ai_bids env world listing fee wage [] = give 0
place_ai_bids env world listing fee wage (c ∷ rest) = do
  ok ←
      (if ltb_ℤ c.cash (env.with_margin fee)
        then give false
        else place_ai_bid env world listing c fee wage)
  n ← place_ai_bids env world listing fee wage rest
  give ((if ok then 1 else 0) + n)

-- aiBiddersForListing, and the body of the loop of AIBidActivity.
unfoldable pub ai_bidders : Outside → ℕ → ℕ → ℕ → ℕ → Option ℤ → Tx ℕ
unfolding place_ai_bids
ai_bidders env world listing seller player asking = do
  value ← need (env.valuation (← read (λ m. m)) player) player_not_found
  wage ← read (λ m. env.wage m player)
  rows ← read (λ m. env.candidates m world seller player)
  place_ai_bids env world listing (env.ai_bid_fee listing value (bid_asking asking)) wage
      (shortlist rows)

abbrev pub negative : Option ℤ → Bool
negative none = false
negative (some a) = ltb_ℤ a (pos 0)

abbrev pub add_listing : ℕ → ℕ → ℕ → Option ℤ → ListingType → Market → Market
add_listing world player club asking kind m = record m {
  listings =
      record {
        id = m.next_id;
        world = world;
        player = player;
        club = club;
        asking_price = asking;
        listing_type = kind;
        status = on_market;
      }
      ∷ m.listings;
  next_id = suc m.next_id;
}

abbrev pub same_club : ℕ → Option ℕ → Bool
same_club club none = false
same_club club (some c) = c == club

abbrev pub is_open_to_offers : ListingType → Bool
is_open_to_offers open_to_offers = true
is_open_to_offers actively_shopped = false
is_open_to_offers loan_available = false

-- The unique index on the live listings of a player makes the insert fail.
unfoldable pub create_listing : Outside → Actor → ℕ → ℕ → Option ℤ → ListingType → Tx ℕ
unfolding ai_bidders
create_listing env actor world player asking kind = do
  club ← need (env.manager_club actor.manager) no_active_club
  require_club_in env world club
  refuse_when (negative asking) invalid_terms
  p ← need (find_player player (← read (λ m. m.players))) player_not_found
  refuse_when (not (same_club club p.club)) not_club_member
  refuse_when (not p.is_active) player_not_transferable
  refuse_when (not (p.world == world)) world_mismatch
  refuse_when (live_listing_of p.id (← read (λ m. m.listings))) duplicate_listing
  id ← read (λ m. m.next_id)
  write (add_listing world p.id club asking kind)
  write (emit player_listed id)
  (if is_open_to_offers kind then ai_bidders env world id club p.id asking else give 0)
  give id

unfoldable pub withdraw_listing : Outside → Actor → ℕ → ℕ → Tx (Unit {0})
withdraw_listing env actor world id = do
  club ← need (env.manager_club actor.manager) no_active_club
  require_club_in env world club
  l ← need (find_listing id (← read (λ m. m.listings))) listing_not_found
  refuse_when (not (l.world == world && is_on_market l.status)) listing_not_found
  refuse_when (not (l.club == club)) not_listing_club
  write (λ m. record m {
    listings = set_listings_where (λ row. row.id == id) off_market m.listings;
    bids = set_status_where (anchored_to id) expired m.bids;
  })
  write (emit player_listing_withdrawn id)

-- The number of bids that it expired comes back; with none there is no event.
unfoldable pub expire_stale : Outside → ℕ → Tx ℕ
expire_stale env world = do
  n ← read (λ m. how_many (is_stale world env.now env.bid_ttl) m.bids)
  write (λ m. record m {
    bids = set_status_where (is_stale world env.now env.bid_ttl) expired m.bids;
  })
  (if n == 0 then give tt else write (emit bids_expired world))
  give n

-- AIInterestTargets: live offers of a human club without an open bid, the oldest first; a new
-- listing stands at the head of the rows.
abbrev pub is_target : Outside → ℕ → Market → Listing → Bool
is_target env world m l =
    l.world == world
    && is_on_market l.status
    && is_open_to_offers l.listing_type
    && (elim (env.is_ai_club l.club) as (λ _. Bool) [ none ↦ false | some ai ↦ not ai ])
    && not (any_bid (anchored_to l.id) m.bids)

abbrev pub targets : Outside → ℕ → Market → List Listing → List Listing
targets env world m [] = []
targets env world m (l ∷ listings) =
    let rest = targets env world m listings in
    if is_target env world m l then rest ++ l ∷ [] else rest

unfoldable pub bid_on_targets : Outside → ℕ → List Listing → Tx ℕ
unfolding ai_bidders
bid_on_targets env world [] = give 0
bid_on_targets env world (l ∷ rest) = do
  n ← ai_bidders env world l.id l.club l.player l.asking_price
  k ← bid_on_targets env world rest
  give (n + k)

unfoldable pub ai_bid_activity : Outside → ℕ → Tx ℕ
unfolding bid_on_targets
ai_bid_activity env world = do
  rows ← read (λ m. targets env world m m.listings)
  bid_on_targets env world rows

-- ===== src/Transfer/Threads.antt =====
-- The rows of bids and listings as the engine reads and updates them: the WHERE clauses of
-- completion.go, bid.go, listing.go and daily.go, and writeBidThread, roundCount and bidExpired of
-- helpers.go.
use touchline.Common.{
  ℕ, ◌+◌, ◌-◌, Bool, true, false, ◌&&◌, not, Option, none, some, List, [], ◌∷◌, ltb, leb, ◌==◌,
  if◌then◌else◌, length,
}
use touchline.Transfer.Rows.{
  Terms, BidStatus, pending, accepted, rejected, countered, withdrawn, expired, Side,
  NegotiationRound, Bid, Listing, ListingStatus, on_market, off_market, sold, Player,
}

-- status IN ('pending','countered'), which is Bid.NegotiationOpen too.
abbrev pub is_open : BidStatus → Bool
is_open pending = true
is_open countered = true
is_open accepted = false
is_open rejected = false
is_open withdrawn = false
is_open expired = false

abbrev pub is_on_market : ListingStatus → Bool
is_on_market on_market = true
is_on_market off_market = false
is_on_market sold = false

abbrev pub find_bid : ℕ → List Bid → Option Bid
find_bid id [] = none
find_bid id (b ∷ bids) = if b.id == id then some b else find_bid id bids

abbrev pub find_listing : ℕ → List Listing → Option Listing
find_listing id [] = none
find_listing id (l ∷ listings) = if l.id == id then some l else find_listing id listings

abbrev pub find_player : ℕ → List Player → Option Player
find_player id [] = none
find_player id (p ∷ players) = if p.id == id then some p else find_player id players

-- ORDER BY round DESC LIMIT 1.
abbrev pub latest_round : List NegotiationRound → Option NegotiationRound
latest_round [] = none
latest_round (r ∷ rounds) = elim (latest_round rounds) [
  | none ↦ some r
  | some x ↦ if leb x.round r.round then some r else some x
]

-- COALESCE(MAX(round), 0).
abbrev pub max_round : List NegotiationRound → ℕ
max_round rounds = elim (latest_round rounds) [ none ↦ 0 | some r ↦ r.round ]

-- UPDATE transfer.bids SET status ... WHERE ...
abbrev pub set_status_where : (Bid → Bool) → BidStatus → List Bid → List Bid
set_status_where test status [] = []
set_status_where test status (b ∷ bids) =
    (if test b then record b { status = status } else b) ∷ set_status_where test status bids

abbrev pub set_listings_where : (Listing → Bool) → ListingStatus → List Listing → List Listing
set_listings_where test status [] = []
set_listings_where test status (l ∷ listings) =
    (if test l then record l { status = status } else l) ∷ set_listings_where test status listings

abbrev pub has_id : ℕ → Bid → Bool
has_id id b = b.id == id

abbrev pub competes : ℕ → ℕ → Bid → Bool
competes player id b = b.player == player && not (b.id == id) && is_open b.status

abbrev pub same_listing : ℕ → Option ℕ → Bool
same_listing listing none = false
same_listing listing (some l) = l == listing

abbrev pub anchored_to : ℕ → Bid → Bool
anchored_to listing b = same_listing listing b.listing && is_open b.status

-- created_at < now() - ttl.
abbrev pub is_stale : ℕ → ℕ → ℕ → Bid → Bool
is_stale world now ttl b = b.world == world && is_open b.status && ltb (b.created_at + ttl) now

-- time.Since(created) > ttl.
abbrev pub bid_expired : ℕ → ℕ → Bid → Bool
bid_expired now ttl b = ltb ttl (now - b.created_at)

abbrev pub append_round : ℕ → Side → Terms → List Bid → List Bid
append_round id side terms [] = []
append_round id side terms (b ∷ bids) =
    (if b.id == id
      then record b {
        rounds =
            record { round = max_round b.rounds + 1; proposed_by = side; terms = terms } ∷ b.rounds;
      }
      else b)
    ∷ append_round id side terms bids

abbrev pub round_count : ℕ → List Bid → ℕ
round_count id bids = elim (find_bid id bids) [ none ↦ 0 | some b ↦ length b.rounds ]

-- The open bid of a buyer on a player.
abbrev pub is_duplicate : ℕ → ℕ → Bid → Bool
is_duplicate buyer player b = b.buyer == buyer && b.player == player && is_open b.status

abbrev pub any_bid : (Bid → Bool) → List Bid → Bool
any_bid test [] = false
any_bid test (b ∷ bids) = if test b then true else any_bid test bids

abbrev pub how_many : (Bid → Bool) → List Bid → ℕ
how_many test [] = 0
how_many test (b ∷ bids) = (if test b then 1 else 0) + how_many test bids

abbrev pub live_listing_of : ℕ → List Listing → Bool
live_listing_of player [] = false
live_listing_of player (l ∷ listings) =
    if l.player == player && is_on_market l.status then true else live_listing_of player listings

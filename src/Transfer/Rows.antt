-- ===== src/Transfer/Rows.antt =====
-- The rows of the transfer market, backend/internal/transfer/model.go and the tables of
-- migrations/0008_transfer and 0009_finance that the engine writes. Ids are numbers, money is an
-- integer in pence, dates are day numbers.
use touchline.Common.{ℕ, Bool, Option, List}
use touchline.Common.Int.{ℤ}

pub data MarketError : Type 0 where
  listing_not_found bid_not_found player_not_found club_not_found : MarketError
  world_not_playable no_active_club not_club_member player_not_transferable : MarketError
  duplicate_listing self_bid invalid_terms insufficient_funds bid_resolved : MarketError
  bid_expired not_bid_participant not_listing_club counter_limit_reached : MarketError
  player_world_mismatch world_mismatch duplicate_open_bid invalid_action_for_role : MarketError
  internal no_active_contract : MarketError

pub record Actor : Type 0 where
  pub manager : ℕ
  pub is_policy_bot : Bool

pub record Terms : Type 0 where
  pub fee : ℤ
  pub weekly_wage : ℤ
  pub contract_length_months : ℤ
  pub signing_bonus : ℤ
  pub release_clause : Option ℤ
  pub sell_on_percentage : Option ℤ
  pub buy_back_amount : Option ℤ

pub data ClauseType : Type 0 where
  sell_on buy_back : ClauseType

pub record Clause : Type 0 where
  pub clause_type : ClauseType
  pub percentage : Option ℤ
  pub amount : Option ℤ
  pub beneficiary : ℕ

pub data BidStatus : Type 0 where
  pending accepted rejected countered withdrawn expired : BidStatus

pub data Side : Type 0 where
  buying_club selling_club : Side

pub record NegotiationRound : Type 0 where
  pub round : ℕ
  pub proposed_by : Side
  pub terms : Terms

-- A negotiation thread: the row of the bid with its rows of transfer.negotiations, the newest
-- first.
pub record Bid : Type 0 where
  pub id : ℕ
  pub world : ℕ
  pub listing : Option ℕ
  pub player : ℕ
  pub buyer : ℕ
  pub seller : ℕ
  pub status : BidStatus
  pub created_at : ℕ
  pub rounds : List NegotiationRound

pub data ListingType : Type 0 where
  open_to_offers actively_shopped loan_available : ListingType

pub data ListingStatus : Type 0 where
  on_market off_market sold : ListingStatus

pub record Listing : Type 0 where
  pub id : ℕ
  pub world : ℕ
  pub player : ℕ
  pub club : ℕ
  pub asking_price : Option ℤ
  pub listing_type : ListingType
  pub status : ListingStatus

-- `club` is none for the nil id; `is_active` is status = 'active'.
pub record Player : Type 0 where
  pub id : ℕ
  pub world : ℕ
  pub club : Option ℕ
  pub is_active : Bool
  pub market_value : ℤ

pub data ContractStatus : Type 0 where
  in_force terminated lapsed : ContractStatus

pub record Contract : Type 0 where
  pub id : ℕ
  pub player : ℕ
  pub club : ℕ
  pub weekly_wage : ℤ
  pub signing_bonus : ℤ
  pub release_clause : Option ℤ
  pub start_date : ℕ
  pub end_date : ℕ
  pub status : ContractStatus

pub record WageCommitment : Type 0 where
  pub contract : ℕ
  pub club : ℕ
  pub weekly_wage : ℤ
  pub start_date : ℕ
  pub end_date : ℕ

pub record Account : Type 0 where
  pub id : ℕ
  pub club : ℕ

pub data EntryType : Type 0 where
  credit debit : EntryType

-- 'transfer:<completed transfer>:buyer' or ':seller', 'wage:<tick>:<contract>', and the keys of other
-- postings.
pub data DedupKey : Type 0 where
  transfer_key : ℕ → Side → DedupKey
  wage_key : ℕ → ℕ → DedupKey
  other_key : ℕ → DedupKey

pub record LedgerEntry : Type 0 where
  pub account : ℕ
  pub entry_type : EntryType
  pub amount : ℕ
  pub key : DedupKey

pub record CompletedTransfer : Type 0 where
  pub id : ℕ
  pub bid : ℕ
  pub player : ℕ
  pub from_club : ℕ
  pub to_club : ℕ
  pub fee : ℤ
  pub clauses : List Clause

pub data EventKind : Type 0 where
  player_listed player_listing_withdrawn bid_placed bid_accepted bid_rejected : EventKind
  bid_countered bid_was_withdrawn bids_expired valuations_refreshed : EventKind
  player_released wage_posted : EventKind

pub record Event : Type 0 where
  pub kind : EventKind
  pub subject : ℕ

-- `history` has the rows of player.player_history, the player and the new club; `next_id` is above every id that the database has drawn.
pub record Market : Type 0 where
  pub players : List Player
  pub listings : List Listing
  pub bids : List Bid
  pub contracts : List Contract
  pub commitments : List WageCommitment
  pub accounts : List Account
  pub ledger : List LedgerEntry
  pub completed : List CompletedTransfer
  pub history : List (ℕ × ℕ)
  pub events : List Event
  pub next_id : ℕ

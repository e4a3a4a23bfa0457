-- ===== src/Transfer/Outside.antt =====
-- What the transfer engine reads from outside its own tables: the clock, clubs, managers, the
-- valuation of a player (floats) and the two hooks of a completion.
use touchline.Common.{ℕ, Bool, Option, List}
use touchline.Common.Int.{ℤ}
use touchline.Transfer.Rows.{Market}
use touchline.Transfer.Terms.{Multiple}

-- A club that could buy: ai.go, AIClubCandidate.
pub record Candidate : Type 0 where
  pub club : ℕ
  pub manager : ℕ
  pub squad_depth : ℕ
  pub cash : ℤ

-- `club_fitness` is a club's world and whether it is playable; `candidates` are the rows of the
-- query in aiCandidatesTx, in the order of club ids; `hooks_settle` says whether OnPlayerSold and
-- OnPlayerTransferred succeed for a seller, a buyer and a player.
pub record Outside : Type 0 where
  pub now : ℕ
  pub bid_ttl : ℕ
  pub today : ℕ
  pub add_months : ℕ → ℤ → ℕ
  pub manager_club : ℕ → Option ℕ
  pub club_fitness : ℕ → Option (ℕ × Bool)
  pub is_ai_club : ℕ → Option Bool
  pub policy_bot : ℕ → Option ℕ
  pub mul : ℤ → Multiple → ℤ
  pub valuation : Market → ℕ → Option ℤ
  pub wage : Market → ℕ → ℤ
  pub candidates : Market → ℕ → ℕ → ℕ → List Candidate
  pub ai_bid_fee : ℕ → ℤ → ℤ → ℤ
  pub with_margin : ℤ → ℤ
  pub hooks_settle : Market → ℕ → ℕ → ℕ → Bool

-- ===== src/Transfer.antt =====
-- The transfer market: backend/internal/transfer. Rows are its tables and Tx is a transaction.
pub mod Rows
pub mod Tx
pub mod Terms
pub mod Outside
pub mod Funds
pub mod Threads
pub mod Completion
pub mod Bids
pub mod Respond
pub mod Listings
pub mod Invariant
pub mod Later
pub mod Evolves
pub mod Updates
pub mod NewThread
pub mod Payment
pub mod Sale
pub mod Accepting
pub mod Answers
pub mod Checks
pub mod Placing
pub mod Sweep
pub mod Commands
pub mod Decisions
pub mod Effects
pub mod Talks
pub mod Endings
pub mod Aborts
pub mod Daily
pub mod Skips

-- ===== src/Transfer/Commands.antt =====
-- The commands of the transfer service, each in a transaction of its own, and what every sequence
-- of them keeps: bid.go, listing.go and daily.go.
use touchline.Common.{ℕ, ◌+◌, ◌≤◌, ◌≡◌, false, Option, some, arith}
use touchline.Common.Int.{ℤ, pos, sub_ℕ, ◌≤ℤ◌}
use touchline.Transfer.Rows.{Terms, Actor, Bid, ListingType, Market}
use touchline.Transfer.Tx.{Verdict, done, refused, Ensures, settled}
use touchline.Transfer.Terms.{RespondAction}
use touchline.Transfer.Outside.{Outside}
use touchline.Transfer.Funds.{cash_in_tx, credited, debited}
use touchline.Transfer.Threads.{is_open, find_bid}
use touchline.Transfer.Bids.{BidInput, place_bid}
use touchline.Transfer.Respond.{respond_to_bid, respond_as_manager, withdraw_bid}
use touchline.Transfer.Listings.{create_listing, withdraw_listing, expire_stale, ai_bid_activity}
use touchline.Transfer.Invariant.{IsSound}
use touchline.Transfer.Evolves.{Evolves, Evolves-refl, Evolves-trans, total_credit, total_debit}
use touchline.Transfer.Placing.{
  place_bid-Evolves, respond_to_bid-Evolves, respond_as_manager-Evolves, withdraw_bid-Evolves,
}
use touchline.Transfer.Daily.{daily_tick, daily_tick-Evolves}
use touchline.Transfer.Sweep.{
  create_listing-Evolves, withdraw_listing-Evolves, expire_stale-Evolves, ai_bid_activity-Evolves,
}

-- Each command carries the world it is for.
pub data Command : Type 0 where
  place : Actor → ℕ → BidInput → Command
  respond : Actor → ℕ → ℕ → RespondAction → Option Terms → Command
  respond_for_club : Actor → ℕ → ℕ → ℕ → RespondAction → Option Terms → Command
  withdraw : Actor → ℕ → ℕ → Command
  list_player : Actor → ℕ → ℕ → Option ℤ → ListingType → Command
  delist : Actor → ℕ → ℕ → Command
  expire : ℕ → Command
  let_ai_bid : ℕ → Command
  daily : ℕ → Command

unfoldable pub run : Outside → Command → Market → Market
run env (place actor world input) m = settled (place_bid env actor world input m) m
run env (respond actor world id action offer) m =
    settled (respond_as_manager env actor world id action offer m) m
run env (respond_for_club actor world club id action offer) m =
    settled (respond_to_bid env actor world club id action offer m) m
run env (withdraw actor world id) m = settled (withdraw_bid env actor world id m) m
run env (list_player actor world player asking kind) m =
    settled (create_listing env actor world player asking kind m) m
run env (delist actor world id) m = settled (withdraw_listing env actor world id m) m
run env (expire world) m = settled (expire_stale env world m) m
run env (let_ai_bid world) m = settled (ai_bid_activity env world m) m
run env (daily world) m = (daily_tick env world m).0

-- The rest of the world may change between two commands.
pub data Reaches (m : Market) : Market → Type 0 where
  start : Reaches m m
  after : {n : Market} (env : Outside) (c : Command) → Reaches m n → Reaches m (run env c n)

settled-Evolves :
    {A : Type 0} (v : Verdict A) (m : Market)
    → IsSound m
    → Ensures (λ _. Evolves m) v
    → Evolves m (settled v m)
settled-Evolves (done a r) m s h = h
settled-Evolves (refused e) m s h = Evolves-refl m s

run-Evolves : (env : Outside) (c : Command) (m : Market) → IsSound m → Evolves m (run env c m)
unfolding run
run-Evolves env (place actor world input) m s =
    settled-Evolves _ m s (place_bid-Evolves env world m s actor input)
run-Evolves env (respond actor world id action offer) m s =
    settled-Evolves _ m s (respond_as_manager-Evolves env world m s actor id action offer)
run-Evolves env (respond_for_club actor world club id action offer) m s =
    settled-Evolves _ m s (respond_to_bid-Evolves env world m s actor club id action offer)
run-Evolves env (withdraw actor world id) m s =
    settled-Evolves _ m s (withdraw_bid-Evolves env world m s actor id)
run-Evolves env (list_player actor world player asking kind) m s =
    settled-Evolves _ m s (create_listing-Evolves env world m s actor player asking kind)
run-Evolves env (delist actor world id) m s =
    settled-Evolves _ m s (withdraw_listing-Evolves env world m s actor id)
run-Evolves env (expire world) m s = settled-Evolves _ m s (expire_stale-Evolves env world m s)
run-Evolves env (let_ai_bid world) m s =
    settled-Evolves _ m s (ai_bid_activity-Evolves env world m s)
run-Evolves env (daily world) m s = daily_tick-Evolves env world m s

Reaches-Evolves : {m n : Market} → IsSound m → Reaches m n → Evolves m n
Reaches-Evolves {m} s start = Evolves-refl m s
Reaches-Evolves s (after {n} env c r) =
    let h = Reaches-Evolves s r in Evolves-trans h (run-Evolves env c n h.sound)

-- Commands keep a market in order: an open bid is sold by the club that the player is at, to
-- another one; a club has at most one open bid on a player; bids have ids of their own; and no
-- account has paid more than it got.
pub Reaches-IsSound : {m n : Market} → IsSound m → Reaches m n → IsSound n
Reaches-IsSound s r = (Reaches-Evolves s r).sound

not_overdrawn : (cr dr : ℕ) → dr ≤ cr → pos 0 ≤ℤ sub_ℕ cr dr
not_overdrawn cr dr h = ground (arith, h)

-- In a market that was in order, whatever the commands, no club's cash falls below zero, and the
-- money of all the clubs together (what was credited less what was debited) stays the same.
pub Reaches-conserves :
    {m n : Market}
    → IsSound m
    → Reaches m n
    → ((account : ℕ) → pos 0 ≤ℤ cash_in_tx account n.ledger)
      × (total_credit n.ledger + total_debit m.ledger
          ≡ total_credit m.ledger + total_debit n.ledger)
Reaches-conserves {m} {n} s r =
    let h = Reaches-Evolves s r in
    (
      λ account.
          not_overdrawn (credited account n.ledger) (debited account n.ledger)
            (h.sound.covered account),
      h.conserves,
    )

-- A bid that was accepted, rejected, withdrawn or expired keeps that status through every sequence
-- of commands, from a market in order.
pub Reaches-keeps_resolved :
    {m n : Market}
    → IsSound m
    → Reaches m n
    → (id : ℕ) (b : Bid) → find_bid id m.bids ≡ some b
    → is_open b.status ≡ false
    → (c : Bid) × (find_bid id n.bids ≡ some c) × (c.status ≡ b.status)
Reaches-keeps_resolved s r = (Reaches-Evolves s r).keeps_resolved

-- ===== src/Lib.antt =====
-- Touchline, a football management game: the competition engine, the transfer market and the
-- dressing-room engine of its server, backend/internal/competition, transfer and faction.
--
-- A world has leagues and cups. A league plays a double round robin (clubnames.go). Its results
-- go into a table (standings.go), from which a match's stakes are read (stakes.go). A continental
-- cup draws its field from the final tables of its leagues and its reigning champion
-- (qualify.go); a club that qualifies for several cups keeps one of them, and each cup that it
-- leaves promotes the next best club of its league (resolve.go). From the number of entrants a
-- cup's rounds are laid out (cup_bracket.go, cupLadder), each round is drawn (drawRound), and the
-- rounds get their dates backward from the final, off the league days (planCupCalendar). A
-- round's matches are spread over the allowed weekdays and hours (weekdays.go, stagger.go,
-- pacing.go). In a squad, a manager's action may set off a morale spill along the relationships
-- of the players (faction/engine.go).
--
-- On the transfer market a club bids for a player of another club, directly or through a listing
-- (transfer/bid.go, listing.go). A bid is a negotiation thread, whose latest round is the offer on
-- the table. A manager accepts, rejects or counters; a club run by a policy bot answers at once in
-- the same transaction (valuation.go, ai.go). An accepted bid moves the player, his contract and
-- the fee in one transaction (completion.go), which calls hooks of the squad engines. A daily sweep
-- expires stale bids, revalues the players and lets AI clubs bid (daily.go). A club may also release
-- a player into the pool (playerpool/sign.go), on the same rows.
--
-- Files, each with the code that it follows:
-- - Competition/Qualify: qualify.go. Model has the types, Core is coreEntrants and its helpers
--   (`add_champion` is its second half), Compute is computeField and ComputeField; the three
--   provider interfaces are the record `Providers`, whose answers may fail.
-- - Competition/Resolve: resolve.go. Winner is pickWinner, Cascade is cascadeReplacement and
--   removeEntrant, Sweep is ResolveField: its local maps are the fields of the record `Sweep`,
--   one pass of its loop is `resolve_club`, and one lost cup is `release`.
-- - Competition/CupLadder, CupDraw and CupCalendar: cup_bracket.go, cup.go and calendar.go.
-- - Competition/RoundRobin: clubnames.go, roundRobin, on team indices; Rounds: each round; Legs and
--   Meetings: the first team.
-- - Competition/Weekdays: weekdays.go, pacing.go and the round anchors of stagger.go.
-- - Competition/Stagger: stagger.go; the slots and their fills are the record `Board`.
-- - Competition/Standings: standings.go; the rows that a result reads and writes are `Tables`,
--   and a transaction that fails leaves them as they are (`rolled_back`).
-- - Competition/Stakes: stakes.go.
-- - Faction: faction/engine.go and faction/model.go; the local state of Contagion is `Spill`.
-- - Transfer/Rows, Outside and Tx: the tables that the market writes are the record `Market`, what
--   it reads from elsewhere (clock, clubs, managers, the valuation) is the record `Outside`, and a
--   transaction is a function `Tx` that commits rows or is refused, which rolls them back.
-- - Transfer/Terms: validateTerms, termsToClauses, the explanations, and the decisions of AI clubs.
-- - Transfer/Funds: accounts and the ledger, with its deduplication key. Transfer/Threads: the rows
--   that the WHERE clauses select, and their updates.
-- - Transfer/Completion: completion.go. acceptBid is `accept_bid`, whose part from the hooks on is
--   `settle`. Transfer/Bids, Respond, Listings and Daily: bid.go, listing.go, ai.go and daily.go.
-- - Transfer/Commands: the commands as one type, and what every sequence of them keeps. Its proof
--   is in Invariant, Later, Evolves, Updates, NewThread, Payment, Sale, Accepting, Answers, Checks,
--   Placing and Sweep. Transfer/Effects, Talks, Endings, Decisions and Aborts: single commands.
-- - Playerpool: ReleasePlayer of playerpool/sign.go.
-- - Finance: ApplyMonthlyWages, applyClubWages and ActiveWageCommitments of finance/, on the rows
--   of the transfer market; Redelivery: a tick that is delivered twice; Charges and
--   Totals: what a club pays.
-- - Common: names of the libraries and helpers. Samples: small inputs for the other modules.
--
-- Ids are natural numbers in the order of their text, and the nil id is 0; a date is the number
-- of its day since Go's zero time; an hour is a number. Signed numbers are ℤ of Common/Int.
-- Numbers have no bound: the counts, scores and sums of this code stay far below a machine word. The
-- ids that the database draws count up from `next_id`. The rows of transfer.negotiations stand with
-- their bid, newest first.
--
-- Unbounded loops run on fuel. cupLadder has one round of fuel for each club and one more, and
-- each round leaves fewer clubs. nextAllowedWeekday has seven days, which meet every weekday.
-- ResolveField has the step bound of the source and two more, since each round settles a new
-- pair. Contagion has 62 rounds: each player met raises the confidence, of 24 to 84. The loop of
-- `place` in stagger.go has two rounds for each match, one that opens a day and one that takes
-- its slot; where this is not enough, no fuel is.
--
-- Not modelled: the queries and the writes to PostgreSQL around these functions, the HTTP
-- handlers, authentication, the texts of events and the timers, which are I/O, row locks and
-- transactions that run at the same time, and failures of the database itself; the match simulation, the
-- board's confidence and the player formulas, which are floating-point; the news and explanation
-- texts; the valuation of a player and the fee that an AI club samples, which are floats and
-- parameters here; and, of the engines, promotion and relegation with the rollover, the knockout
-- branch of ApplyResult, the cup campaigns, the grouping of a squad into factions, and the seeding
-- of worlds. Shuffles and draws of math/rand are parameters,
-- of which only that a shuffle reorders is relied on.
pub mod Common
pub mod Competition
pub mod Faction
pub mod Finance
pub mod Playerpool
pub mod Samples
pub mod Transfer

-- ===== src/Finance.antt =====
-- The monthly wage run: backend/internal/finance/service.go, ApplyMonthlyWages and applyClubWages,
-- with ActiveWageCommitments of store.go, on the rows of the transfer market. EnsureAccount and Post of
-- store.go are `ensure_account true` and `post_ledger` of Transfer/Funds.
pub mod Redelivery
pub mod Charges
pub mod Totals
use touchline.Common.{
  ℕ, ◌+◌, ◌*◌, ◌≡◌, refl, sym, ◌∙◌, inl, inr, Bool, true, false, ◌&&◌, not, Option, none, some,
  List, [], ◌∷◌, arith, ltb, leb, ◌==◌, if◌then◌else◌, All, Bool-cases, Option-cases,
}
use touchline.Common.Int.{ℤ, pos, pos_part, leb_ℤ}
use touchline.Common.Sort.{sort_by}
use touchline.Transfer.Rows.{
  Contract, WageCommitment, LedgerEntry, debit, wage_key, Market, MarketError, internal,
  wage_posted,
}
use touchline.Transfer.Tx.{
  Tx, Verdict, done, refused, ◌>>=◌, ◌>>◌, read, give, refuse_when, write, Ensures, Ensures-bind,
  Ensures-passed, bind_done,
}
use touchline.Transfer.Funds.{
  find_account, ensure_account, mint_account, has_posting, post_ledger, same_key,
}
use touchline.Transfer.Completion.{emit, is_in_force}

-- A live commitment: activeWage.
pub record ActiveWage : Type 0 where
  pub contract : ℕ
  pub player : ℕ
  pub weekly_wage : ℤ

abbrev pub find_in_force : ℕ → List Contract → Option Contract
find_in_force id [] = none
find_in_force id (c ∷ contracts) =
    if c.id == id && is_in_force c.status then some c else find_in_force id contracts

-- The rows of the query, before they are ordered.
abbrev pub live_wages : ℕ → ℕ → List Contract → List WageCommitment → List ActiveWage
live_wages today club contracts [] = []
live_wages today club contracts (w ∷ commitments) =
    let rest = live_wages today club contracts commitments in
    if w.club == club && leb today w.end_date
    then (elim (find_in_force w.contract contracts) as (λ _. List ActiveWage) [
      | none ↦ rest
      | some c ↦
          record { contract = w.contract; player = c.player; weekly_wage = w.weekly_wage } ∷ rest
    ])
    else rest

abbrev pub active_wages : ℕ → ℕ → Market → List ActiveWage
active_wages today club m =
    sort_by (λ a b. ltb a.player b.player) (live_wages today club m.contracts m.commitments)

abbrev pub weeks_per_month : ℕ
weeks_per_month = 4

abbrev pub wage_entry : ℕ → ℕ → ActiveWage → LedgerEntry
wage_entry account tick w = record {
  account = account;
  entry_type = debit;
  amount = weeks_per_month * pos_part w.weekly_wage;
  key = wage_key tick w.contract;
}

-- The loop over the wages: the postings that were new and their sum. The table's check on the
-- amount makes the insert of a wage that is not positive fail.
unfoldable pub post_wages : ℕ → ℕ → List ActiveWage → Tx (ℕ × ℕ)
post_wages account tick [] = give (0, 0)
post_wages account tick (w ∷ wages) = do
  refuse_when (leb_ℤ w.weekly_wage (pos 0)) internal
  skipped ← read (λ m. has_posting account (wage_key tick w.contract) m.ledger)
  write (λ m. record m { ledger = post_ledger (wage_entry account tick w) m.ledger })
  (n, total) ← post_wages account tick wages
  give (if skipped then (n, total) else (n + 1, total + weeks_per_month * pos_part w.weekly_wage))

unfoldable pub wage_tx : ℕ → ℕ → ℕ → Tx (ℕ × ℕ)
unfolding post_wages
wage_tx today tick club = do
  account ← ensure_account true club
  wages ← read (active_wages today club)
  post_wages account tick wages

-- Without a new posting the transaction is rolled back; otherwise there is an event.
abbrev pub keep_if_posted : ℕ → Market → Verdict (ℕ × ℕ) → Verdict (ℕ × ℕ)
keep_if_posted club m (done (n, total) r) =
    if n == 0 then done (0, 0) m else done (n, total) (emit wage_posted club r)
keep_if_posted club m (refused e) = refused e

unfoldable pub apply_club_wages : ℕ → ℕ → ℕ → Tx (ℕ × ℕ)
unfolding wage_tx
apply_club_wages today tick club m = keep_if_posted club m (wage_tx today tick club m)

-- The clubs with a posting, the postings, and their sum.
pub record WageTotals : Type 0 where
  pub clubs : ℕ
  pub postings : ℕ
  pub total : ℕ

abbrev pub add_club : WageTotals → ℕ × ℕ → WageTotals
add_club t (n, total) =
    if n == 0
    then t
    else record { clubs = t.clubs + 1; postings = t.postings + n; total = t.total + total }

-- Each club in a transaction of its own; an error stops the run and what is committed stays.
unfoldable pub apply_monthly_wages :
    ℕ → ℕ → List ℕ → WageTotals → Market → Market × (Option WageTotals)
unfolding apply_club_wages
apply_monthly_wages today tick [] totals m = (m, some totals)
apply_monthly_wages today tick (club ∷ clubs) totals m = elim (apply_club_wages today tick club m) [
  | refused e ↦ (m, none)
  | done counts r ↦ apply_monthly_wages today tick clubs (add_club totals counts) r
]

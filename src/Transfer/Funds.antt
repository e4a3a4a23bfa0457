-- ===== src/Transfer/Funds.antt =====
-- Accounts and the ledger: ensureAccount, cashInTx, postLedger and requireFunds of helpers.go.
use touchline.Common.{
  ℕ, suc, ◌+◌, Bool, true, false, ◌&&◌, Option, none, some, List, [], ◌∷◌, ◌==◌, if◌then◌else◌,
}
use touchline.Common.Int.{ℤ, pos, sub_ℕ, ltb_ℤ, leb_ℤ}
use touchline.Transfer.Rows.{
  Account, EntryType, credit, debit, DedupKey, transfer_key, wage_key, other_key, Side, buying_club,
  selling_club, LedgerEntry, Market, insufficient_funds, invalid_terms,
}
use touchline.Transfer.Tx.{Tx, done, refused, ◌>>=◌, ◌>>◌, read, refuse_when}

-- gen_random_uuid.
abbrev pub draw_id : Tx ℕ
draw_id m = done m.next_id (record m { next_id = suc m.next_id })

abbrev pub find_account : ℕ → List Account → Option ℕ
find_account club [] = none
find_account club (a ∷ accounts) = if a.club == club then some a.id else find_account club accounts

abbrev pub mint_account : ℕ → Market → Market
mint_account club m = record m {
  accounts = record { id = m.next_id; club = club } ∷ m.accounts;
  next_id = suc m.next_id;
}

-- Without a world, `can_mint` is false.
abbrev pub ensure_account : Bool → ℕ → Tx ℕ
ensure_account can_mint club m = elim (find_account club m.accounts) [
  | some id ↦ done id m
  | none ↦ if can_mint then done m.next_id (mint_account club m) else refused insufficient_funds
]

abbrev pub credit_part : EntryType → ℕ → ℕ
credit_part credit n = n
credit_part debit n = 0

abbrev pub debit_part : EntryType → ℕ → ℕ
debit_part credit n = 0
debit_part debit n = n

-- The two sums that the query of cashInTx takes over the entries of an account.
abbrev pub credited : ℕ → List LedgerEntry → ℕ
credited account [] = 0
credited account (e ∷ ledger) =
    (if e.account == account then credit_part e.entry_type e.amount else 0)
    + credited account ledger

abbrev pub debited : ℕ → List LedgerEntry → ℕ
debited account [] = 0
debited account (e ∷ ledger) =
    (if e.account == account then debit_part e.entry_type e.amount else 0) + debited account ledger

abbrev pub cash_in_tx : ℕ → List LedgerEntry → ℤ
cash_in_tx account ledger = sub_ℕ (credited account ledger) (debited account ledger)

abbrev pub same_side : Side → Side → Bool
same_side buying_club buying_club = true
same_side buying_club selling_club = false
same_side selling_club buying_club = false
same_side selling_club selling_club = true

abbrev pub same_key : DedupKey → DedupKey → Bool
same_key (transfer_key n s) (transfer_key k t) = n == k && same_side s t
same_key (transfer_key n s) (wage_key j c) = false
same_key (transfer_key n s) (other_key k) = false
same_key (wage_key i b) (transfer_key k t) = false
same_key (wage_key i b) (wage_key j c) = i == j && b == c
same_key (wage_key i b) (other_key k) = false
same_key (other_key n) (transfer_key k t) = false
same_key (other_key n) (wage_key j c) = false
same_key (other_key n) (other_key k) = n == k

abbrev pub has_posting : ℕ → DedupKey → List LedgerEntry → Bool
has_posting account key [] = false
has_posting account key (e ∷ ledger) =
    if e.account == account && same_key e.key key then true else has_posting account key ledger

-- INSERT ... ON CONFLICT (account_id, dedup_key) DO NOTHING.
abbrev pub post_ledger : LedgerEntry → List LedgerEntry → List LedgerEntry
post_ledger e ledger = if has_posting e.account e.key ledger then ledger else e ∷ ledger

unfoldable pub require_funds : ℕ → ℤ → Tx (Unit {0})
require_funds buyer fee = do
  refuse_when (leb_ℤ fee (pos 0)) invalid_terms
  account ← ensure_account false buyer
  cash ← read (λ m. cash_in_tx account m.ledger)
  refuse_when (ltb_ℤ cash fee) insufficient_funds

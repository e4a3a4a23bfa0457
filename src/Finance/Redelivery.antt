-- ===== src/Finance/Redelivery.antt =====
-- A monthly wage tick that is delivered twice: applyClubWages of backend/internal/finance/service.go.
use touchline.Common.{
  ℕ, ◌≡◌, refl, inl, inr, true, false, some, List, [], ◌∷◌, arith, ◌==◌, ==-self, ap, All,
  Bool-cases, Option-cases,
}
use touchline.Common.Int.{pos, leb_ℤ}
use touchline.Transfer.Rows.{LedgerEntry, wage_key, DedupKey, Market, internal, wage_posted}
use touchline.Transfer.Tx.{
  Verdict, done, refused, ◌>>=◌, Ensures, Ensures-bind, Ensures-weaken, Ensures-passed, bind_done,
}
use touchline.Transfer.Funds.{find_account, ensure_account, has_posting, post_ledger}
use touchline.Transfer.Completion.{emit}
use touchline.Finance.{
  ActiveWage, active_wages, wage_entry, post_wages, wage_tx, keep_if_posted, apply_club_wages,
}

-- The postings of a later ledger are those of an earlier one, and more.
abbrev Grows : List LedgerEntry → List LedgerEntry → Type 0
Grows before after =
    (account : ℕ) (key : DedupKey)
    → has_posting account key before ≡ true
    → has_posting account key after ≡ true

still_posted :
    (account : ℕ) (key : DedupKey) (e : LedgerEntry) (ledger : List LedgerEntry)
    → has_posting account key ledger ≡ true
    → has_posting account key (e ∷ ledger) ≡ true
still_posted account key e ledger h = ground arith

post_ledger-Grows :
    (e : LedgerEntry) (ledger : List LedgerEntry) → Grows ledger (post_ledger e ledger)
post_ledger-Grows e ledger account key h = elim (Bool-cases (has_posting e.account e.key ledger)) [
  | inl there ↦ rw there h
  | inr new ↦ rw new (still_posted account key e ledger h)
]

post_ledger-is_posted :
    (account tick : ℕ) (w : ActiveWage) (ledger : List LedgerEntry)
    → has_posting account
        (wage_key tick w.contract)
        (post_ledger (wage_entry account tick w) ledger)
      ≡ true
post_ledger-is_posted account tick w ledger =
    elim (Bool-cases (has_posting account (wage_key tick w.contract) ledger)) [
      | inl there ↦ rw there there
      | inr new ↦ rw new (rw (==-self account, ==-self tick, ==-self w.contract) refl)
    ]

-- The wage passes the table's check and is in the ledger.
abbrev IsPosted : ℕ → ℕ → List LedgerEntry → ActiveWage → Type 0
IsPosted account tick ledger w =
    (leb_ℤ w.weekly_wage (pos 0) ≡ false)
    × (has_posting account (wage_key tick w.contract) ledger ≡ true)

record Posted (account tick : ℕ) (wages : List ActiveWage) (m r : Market) : Type 0 where
  same_contracts : r.contracts ≡ m.contracts
  same_commitments : r.commitments ≡ m.commitments
  same_accounts : r.accounts ≡ m.accounts
  grows : Grows m.ledger r.ledger
  all_posted : All (IsPosted account tick r.ledger) wages

wages_with_one :
    (account tick : ℕ) (w : ActiveWage) (wages : List ActiveWage) (m r : Market)
    → leb_ℤ w.weekly_wage (pos 0) ≡ false
    → Posted account tick wages
        (record m { ledger = post_ledger (wage_entry account tick w) m.ledger })
        r
    → Posted account tick (w ∷ wages) m r
wages_with_one account tick w wages m r positive p = record {
  same_contracts = p.same_contracts;
  same_commitments = p.same_commitments;
  same_accounts = p.same_accounts;
  grows = λ a key h. p.grows a key (post_ledger-Grows (wage_entry account tick w) m.ledger a key h);
  all_posted = (
    (
      positive,
      p.grows account (wage_key tick w.contract) (post_ledger-is_posted account tick w m.ledger),
    ),
    p.all_posted,
  );
}

post_wages-Posted :
    (account tick : ℕ) (wages : List ActiveWage) (m : Market)
    → Ensures (λ _ r. Posted account tick wages m r) (post_wages account tick wages m)
unfolding post_wages
post_wages-Posted account tick [] m = record {
  same_contracts = refl;
  same_commitments = refl;
  same_accounts = refl;
  grows = λ a key h. h;
  all_posted = tt;
}
post_wages-Posted account tick (w ∷ wages) m =
    Ensures-passed _ m (leb_ℤ w.weekly_wage (pos 0)) internal _ λ positive.
      Ensures-bind
        (λ _ r.
          Posted account tick wages
            (record m { ledger = post_ledger (wage_entry account tick w) m.ledger }) r)
        _
        (post_wages account tick wages
          (record m { ledger = post_ledger (wage_entry account tick w) m.ledger }))
        _ (post_wages-Posted account tick wages _)
        λ a r p. wages_with_one account tick w wages m r positive p

-- A second pass over wages that are posted.
post_wages-again :
    (account tick : ℕ) (wages : List ActiveWage) (m : Market)
    → All (IsPosted account tick m.ledger) wages
    → post_wages account tick wages m ≡ done (0, 0) m
unfolding post_wages
post_wages-again account tick [] m h = refl
post_wages-again account tick (w ∷ wages) m ((positive, there), h) =
    rw (positive, there) (bind_done _ _ (0, 0) m (post_wages-again account tick wages m h))

-- The club has an account, and its wages of the tick are posted to it.
record IsSettled (today tick club : ℕ) (m : Market) : Type 0 where
  account : ℕ
  opened : find_account club m.accounts ≡ some account
  all_posted : All (IsPosted account tick m.ledger) (active_wages today club m)

pub record Opened (club : ℕ) (m : Market) (account : ℕ) (r : Market) : Type 0 where
  pub opened : find_account club r.accounts ≡ some account
  pub same_ledger : r.ledger ≡ m.ledger

pub ensure_account-Opened :
    (club : ℕ) (m : Market) → Ensures (Opened club m) (ensure_account true club m)
ensure_account-Opened club m = elim (Option-cases (find_account club m.accounts)) [
  | inl none_yet ↦
      rw (none_yet, Ensures, ensure_account)
        (record { opened = rw (==-self club) refl; same_ledger = refl })
  | inr (id, e) ↦ rw (e, Ensures, ensure_account) (record { opened = e; same_ledger = refl })
]

wage_tx-IsSettled :
    (today tick club : ℕ) (m : Market)
    → Ensures (λ _ r. IsSettled today tick club r) (wage_tx today tick club m)
unfolding wage_tx
wage_tx-IsSettled today tick club m =
    Ensures-bind (Opened club m) _ (ensure_account true club m) _ (ensure_account-Opened club m)
      λ account opened h.
        Ensures-weaken _ _ (post_wages account tick (active_wages today club opened) opened)
          (post_wages-Posted account tick (active_wages today club opened) opened)
          λ a r p. record {
            account = account;
            opened = rw p.same_accounts h.opened;
            all_posted = rw (p.same_contracts, p.same_commitments) p.all_posted;
          }

wage_tx-again :
    (today tick club : ℕ) (m : Market)
    → IsSettled today tick club m
    → wage_tx today tick club m ≡ done (0, 0) m
unfolding wage_tx
wage_tx-again today tick club m s =
    rw (s.opened, ensure_account, ◌>>=◌)
      (post_wages-again s.account tick (active_wages today club m) m s.all_posted)

committed-again :
    (today tick club : ℕ) (m : Market) (v : Verdict (ℕ × ℕ))
    → wage_tx today tick club m ≡ v
    → Ensures (λ _ r. IsSettled today tick club r) v
    → Ensures (λ _ r. apply_club_wages today tick club r ≡ done (0, 0) r) (keep_if_posted club m v)
unfolding apply_club_wages
committed-again today tick club m (refused e) h s = tt
committed-again today tick club m (done (n, total) posted) h s = elim (Bool-cases (n == 0)) [
  | inl nothing_new ↦ rw (nothing_new, Ensures, keep_if_posted) (rw h (rw nothing_new refl))
  | inr some_new ↦
      rw (some_new, Ensures, keep_if_posted)
        (ap (keep_if_posted club (emit wage_posted club posted)) (
          wage_tx-again today tick club (emit wage_posted club posted)
            (record { account = s.account; opened = s.opened; all_posted = s.all_posted })))
]

-- A tick delivered twice is applied once: when the wages of a club go through, a second application
-- of the same tick on the same day answers that it posted nothing, and leaves all rows as they are,
-- without an account, a ledger entry or an event.
pub apply_club_wages-again :
    (today tick club : ℕ) (m : Market)
    → Ensures
        (λ _ r. apply_club_wages today tick club r ≡ done (0, 0) r)
        (apply_club_wages today tick club m)
unfolding apply_club_wages
apply_club_wages-again today tick club m =
    committed-again today tick club m (wage_tx today tick club m) refl
      (wage_tx-IsSettled today tick club m)

-- ===== src/Finance/Charges.antt =====
-- What the monthly wages cost a club: applyClubWages of backend/internal/finance/service.go.
use touchline.Common.{
  All, ℕ, ◌+◌, ◌*◌, ◌≡◌, refl, sym, inl, inr, true, false, Option-cases, Option, some, List, [],
  ◌∷◌, arith, ◌==◌, subst, if◌then◌else◌, Bool-cases,
}
use touchline.Common.Int.{pos, pos_part, leb_ℤ}
use touchline.Transfer.Rows.{LedgerEntry, debit, wage_key, DedupKey, Market, internal, wage_posted}
use touchline.Transfer.Tx.{
  Verdict, done, refused, ◌>>=◌, Ensures, Ensures-bind, Ensures-weaken, Ensures-passed, bind_done,
}
use touchline.Transfer.Funds.{
  find_account, ensure_account, mint_account, has_posting, post_ledger, debited, credited,
}
use touchline.Transfer.Completion.{emit}
use touchline.Finance.Redelivery.{Opened, ensure_account-Opened}
use touchline.Finance.{
  ActiveWage, active_wages, weeks_per_month, wage_entry, post_wages, wage_tx, keep_if_posted,
}

-- The account is debited by the sum, and all else of the sums of the ledger stays.
abbrev pub IsCharged : ℕ → ℕ → List LedgerEntry → List LedgerEntry → Type 0
IsCharged account total before after =
    (other : ℕ)
    → (debited other after ≡ debited other before + (if account == other then total else 0))
      × (credited other after ≡ credited other before)

nothing-IsCharged : (account : ℕ) (ledger : List LedgerEntry) → IsCharged account 0 ledger ledger
nothing-IsCharged account ledger other = (ground arith, refl)

entry-IsCharged :
    (account n : ℕ) (key : DedupKey) (before after : List LedgerEntry) (total : ℕ)
    → IsCharged account total
        (record { account = account; entry_type = debit; amount = n; key = key } ∷ before)
        after
    → IsCharged account (total + n) before after
entry-IsCharged account n key before after total h other =
    let (debits, credits) = h other in
    elim (Bool-cases (account == other)) [
      | inl same ↦ (ground arith, ground arith)
      | inr different ↦ (ground arith, ground arith)
    ]

wage-IsCharged :
    (account tick n total : ℕ) (w : ActiveWage) (before after : List LedgerEntry)
    → IsCharged account total (post_ledger (wage_entry account tick w) before) after
    → IsCharged account
        (if◌then◌else◌ {A = ℕ × ℕ}
          (has_posting account (wage_key tick w.contract) before)
          (n, total)
          (n + 1, total + weeks_per_month * pos_part w.weekly_wage)).1
        before
        after
wage-IsCharged account tick n total w before after =
    elim (Bool-cases (has_posting account (wage_key tick w.contract) before)) [
      | inl there ↦ rw there λ h. h
      | inr new ↦ rw new (
          entry-IsCharged account (weeks_per_month * pos_part w.weekly_wage)
            (wage_key tick w.contract) before after total)
    ]

post_wages-IsCharged :
    (account tick : ℕ) (wages : List ActiveWage) (m : Market)
    → Ensures
        (λ c r. IsCharged account c.1 m.ledger r.ledger × (r.accounts ≡ m.accounts))
        (post_wages account tick wages m)
unfolding post_wages
post_wages-IsCharged account tick [] m = (nothing-IsCharged account m.ledger, refl)
post_wages-IsCharged account tick (w ∷ wages) m =
    Ensures-passed _ m (leb_ℤ w.weekly_wage (pos 0)) internal _ λ positive.
      let paid = record m { ledger = post_ledger (wage_entry account tick w) m.ledger } in
      Ensures-bind (λ c r. IsCharged account c.1 paid.ledger r.ledger × (r.accounts ≡ m.accounts)) _
        (post_wages account tick wages paid) _ (post_wages-IsCharged account tick wages paid)
        λ c r h. (wage-IsCharged account tick c.0 c.1 w m.ledger r.ledger h.0, h.1)

-- The account of the club pays the total, and nothing else is posted.
abbrev pub IsPaid : ℕ → ℕ → Market → Market → Type 0
IsPaid club total m r =
    (account : ℕ)
    → find_account club r.accounts ≡ some account
    → IsCharged account total m.ledger r.ledger

one_account : (found : Option ℕ) (a b : ℕ) → found ≡ some a → found ≡ some b → a ≡ b
one_account found a b e h = cc

pub wage_tx-IsPaid :
    (today tick club : ℕ) (m : Market)
    → Ensures (λ c r. IsPaid club c.1 m r) (wage_tx today tick club m)
unfolding wage_tx
wage_tx-IsPaid today tick club m =
    Ensures-bind (Opened club m) _ (ensure_account true club m) _ (ensure_account-Opened club m)
      λ account opened h.
        Ensures-weaken _ _ (post_wages account tick (active_wages today club opened) opened)
          (post_wages-IsCharged account tick (active_wages today club opened) opened)
          λ c r p id found.
            subst (λ a. IsCharged a c.1 m.ledger r.ledger)
              (one_account _ account id h.opened (rw (sym p.1) found))
              (subst (λ l. IsCharged account c.1 l r.ledger) h.same_ledger p.0)

pub keep_if_posted-IsPaid :
    (club : ℕ) (m : Market) (v : Verdict (ℕ × ℕ))
    → Ensures (λ c r. IsPaid club c.1 m r) v
    → Ensures (λ c r. IsPaid club c.1 m r) (keep_if_posted club m v)
keep_if_posted-IsPaid club m (refused e) h = tt
keep_if_posted-IsPaid club m (done (n, total) posted) h = elim (Bool-cases (n == 0)) [
  | inl nothing_new ↦
      rw (nothing_new, keep_if_posted, Ensures) λ account found. nothing-IsCharged account m.ledger
  | inr some_new ↦ rw (some_new, keep_if_posted, Ensures) h
]

abbrev pub GoesThrough : Verdict (ℕ × ℕ) → Type 0
GoesThrough v = (c : ℕ × ℕ) × (r : Market) × (v ≡ done c r)

post_wages-GoesThrough :
    (account tick : ℕ) (wages : List ActiveWage) (m : Market)
    → All (λ w. leb_ℤ w.weekly_wage (pos 0) ≡ false) wages
    → GoesThrough (post_wages account tick wages m)
unfolding post_wages
post_wages-GoesThrough account tick [] m h = ((0, 0), m, refl)
post_wages-GoesThrough account tick (w ∷ wages) m (positive, h) =
    let paid = record m { ledger = post_ledger (wage_entry account tick w) m.ledger } in
    let (c, r, e) = post_wages-GoesThrough account tick wages paid h in
    rw positive (_, r, bind_done _ _ c r e)

pub wage_tx-GoesThrough :
    (today tick club : ℕ) (m : Market)
    → All (λ w. leb_ℤ w.weekly_wage (pos 0) ≡ false) (active_wages today club m)
    → GoesThrough (wage_tx today tick club m)
unfolding wage_tx
wage_tx-GoesThrough today tick club m h = elim (Option-cases (find_account club m.accounts)) [
  | inl none_yet ↦
      rw (none_yet, ensure_account, ◌>>=◌)
        (post_wages-GoesThrough m.next_id tick (active_wages today club m) (mint_account club m) h)
  | inr (id, e) ↦
      rw (e, ensure_account, ◌>>=◌) (post_wages-GoesThrough id tick (active_wages today club m) m h)
]

pub keep_if_posted-GoesThrough :
    (club : ℕ) (m : Market) (v : Verdict (ℕ × ℕ))
    → GoesThrough v
    → GoesThrough (keep_if_posted club m v)
keep_if_posted-GoesThrough club m v ((n, total), r, e) = elim (Bool-cases (n == 0)) [
  | inl nothing_new ↦ ((0, 0), m, rw e (rw nothing_new refl))
  | inr some_new ↦ ((n, total), emit wage_posted club r, rw e (rw some_new refl))
]

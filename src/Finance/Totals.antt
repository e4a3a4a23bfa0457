-- ===== src/Finance/Totals.antt =====
-- What a whole month's wages come to: applyClubWages of backend/internal/finance/service.go.
use touchline.Common.{
  All, length, ℕ, ◌+◌, ◌*◌, ◌≡◌, refl, sym, inl, inr, false, Option-cases, some, List, [], ◌∷◌,
  arith, ◌==◌, subst, if◌then◌else◌, Bool-cases,
}
use touchline.Common.Int.{pos, pos_part, leb_ℤ}
use touchline.Transfer.Rows.{LedgerEntry, wage_key, Market, internal}
use touchline.Transfer.Tx.{Verdict, done, refused, ◌>>=◌, Ensures, Ensures-bind, Ensures-passed}
use touchline.Transfer.Funds.{
  find_account, ensure_account, mint_account, has_posting, post_ledger, debited, credited,
}
use touchline.Finance.Charges.{
  IsPaid, wage_tx-IsPaid, keep_if_posted-IsPaid, wage_tx-GoesThrough, keep_if_posted-GoesThrough,
}
use touchline.Finance.{
  ActiveWage, active_wages, wage_entry, post_wages, wage_tx, keep_if_posted, apply_club_wages,
}

-- The sum of the weekly wages.
abbrev pub weekly_sum : List ActiveWage → ℕ
weekly_sum [] = 0
weekly_sum (w ∷ wages) = pos_part w.weekly_wage + weekly_sum wages

-- No two wages are of one contract.
abbrev pub AreDistinct : List ActiveWage → Type 0
AreDistinct [] = Unit {0}
AreDistinct (w ∷ wages) = All (λ v. (w.contract == v.contract) ≡ false) wages × AreDistinct wages

abbrev IsUnposted : ℕ → ℕ → List LedgerEntry → ActiveWage → Type 0
IsUnposted account tick ledger w = has_posting account (wage_key tick w.contract) ledger ≡ false

IsUnposted-post_ledger :
    (account tick : ℕ) (w : ActiveWage) (ledger : List LedgerEntry) (wages : List ActiveWage)
    → has_posting account (wage_key tick w.contract) ledger ≡ false
    → All (λ v. (w.contract == v.contract) ≡ false) wages
    → All (IsUnposted account tick ledger) wages
    → All (IsUnposted account tick (post_ledger (wage_entry account tick w) ledger)) wages
IsUnposted-post_ledger account tick w ledger [] new others h = tt
IsUnposted-post_ledger account tick w ledger (v ∷ wages) new (other, others) (now, h) = (
  rw new (rw (other, now) (ground arith)),
  IsUnposted-post_ledger account tick w ledger wages new others h,
)

post_wages-counts :
    (account tick : ℕ) (wages : List ActiveWage) (m : Market)
    → AreDistinct wages
    → All (IsUnposted account tick m.ledger) wages
    → Ensures
        (λ c _. (c.0 ≡ length wages) × (c.1 ≡ 4 * weekly_sum wages))
        (post_wages account tick wages m)
unfolding post_wages
post_wages-counts account tick [] m distinct new = (refl, refl)
post_wages-counts account tick (w ∷ wages) m (others, distinct) (new, h) =
    Ensures-passed _ m (leb_ℤ w.weekly_wage (pos 0)) internal _ λ positive.
      let paid = record m { ledger = post_ledger (wage_entry account tick w) m.ledger } in
      Ensures-bind (λ c _. (c.0 ≡ length wages) × (c.1 ≡ 4 * weekly_sum wages)) _
        (post_wages account tick wages paid) _
        (post_wages-counts account tick wages paid distinct
          (IsUnposted-post_ledger account tick w m.ledger wages new others h))
        λ c r e. rw new (omega (arith, e), omega (arith, e))

wage_tx-counts :
    (today tick club : ℕ) (m : Market)
    → AreDistinct (active_wages today club m)
    → ((account : ℕ) → All (IsUnposted account tick m.ledger) (active_wages today club m))
    → Ensures
        (λ c _.
          (c.0 ≡ length (active_wages today club m))
          × (c.1 ≡ 4 * weekly_sum (active_wages today club m)))
        (wage_tx today tick club m)
unfolding wage_tx
wage_tx-counts today tick club m distinct new = elim (Option-cases (find_account club m.accounts)) [
  | inl none_yet ↦
      rw (none_yet, ensure_account, ◌>>=◌)
        (post_wages-counts m.next_id tick (active_wages today club m) (mint_account club m) distinct
          (new m.next_id))
  | inr (id, e) ↦
      rw (e, ensure_account, ◌>>=◌)
        (post_wages-counts id tick (active_wages today club m) m distinct (new id))
]

nothing_due : (wages : List ActiveWage) → length wages ≡ 0 → weekly_sum wages ≡ 0
nothing_due [] e = refl
nothing_due (w ∷ wages) e = absurd (omega arith)

keep_if_posted-counts :
    (club : ℕ) (wages : List ActiveWage) (m : Market) (v : Verdict (ℕ × ℕ))
    → Ensures (λ c _. (c.0 ≡ length wages) × (c.1 ≡ 4 * weekly_sum wages)) v
    → Ensures (λ c _. (c.0 ≡ length wages) × (c.1 ≡ 4 * weekly_sum wages)) (keep_if_posted club m v)
keep_if_posted-counts club wages m (refused e) h = tt
keep_if_posted-counts club wages m (done (n, total) posted) h = elim (Bool-cases (n == 0)) [
  | inl nothing_new ↦
      rw (nothing_new, keep_if_posted, Ensures)
        (let empty : length wages ≡ 0 = ground (arith, nothing_new, h.0) in
          (sym empty, omega (arith, nothing_due wages empty)))
  | inr some_new ↦ rw (some_new, keep_if_posted, Ensures) h
]

All-IsUnposted :
    (tick : ℕ) (ledger : List LedgerEntry) (wages : List ActiveWage) (account : ℕ)
    → ((a contract : ℕ) → has_posting a (wage_key tick contract) ledger ≡ false)
    → All (IsUnposted account tick ledger) wages
All-IsUnposted tick ledger [] account new = tt
All-IsUnposted tick ledger (w ∷ wages) account new =
    (new account w.contract, All-IsUnposted tick ledger wages account new)

-- When the active wages of the club are positive and of different contracts, and no wage of the tick
-- is posted yet, the monthly wages of the club go through: there is one posting for each active wage,
-- and the total is four times the sum of the weekly wages. The debits of the club's account grow by
-- exactly that total, and the debits of every other account and the credits of all accounts stay.
pub apply_club_wages-IsPaid :
    (today tick club : ℕ) (m : Market)
    → All (λ w. leb_ℤ w.weekly_wage (pos 0) ≡ false) (active_wages today club m)
    → AreDistinct (active_wages today club m)
    → ((account contract : ℕ) → has_posting account (wage_key tick contract) m.ledger ≡ false)
    → (n total : ℕ) × (r : Market) × (apply_club_wages today tick club m ≡ done (n, total) r)
      × (n ≡ length (active_wages today club m))
      × (total ≡ 4 * weekly_sum (active_wages today club m))
      × ((account : ℕ)
          → find_account club r.accounts ≡ some account
          → (other : ℕ)
          → (debited other r.ledger
              ≡ debited other m.ledger + (if account == other then total else 0))
            × (credited other r.ledger ≡ credited other m.ledger))
unfolding apply_club_wages
apply_club_wages-IsPaid today tick club m positive distinct new =
    let wages = active_wages today club m in
    let ((n, total), r, e) =
      keep_if_posted-GoesThrough club m (wage_tx today tick club m)
        (wage_tx-GoesThrough today tick club m positive) in
    let counts = keep_if_posted-counts club wages m (wage_tx today tick club m) (
      wage_tx-counts today tick club m distinct
        (λ account. All-IsUnposted tick m.ledger wages account new)) in
    let (postings, sum) =
      subst (Ensures (λ c _. (c.0 ≡ length wages) × (c.1 ≡ 4 * weekly_sum wages))) e counts in
    (
      n,
      total,
      r,
      e,
      postings,
      sum,
      subst (Ensures (λ a after. IsPaid club a.1 m after)) e (
          keep_if_posted-IsPaid club m (wage_tx today tick club m)
            (wage_tx-IsPaid today tick club m)),
    )

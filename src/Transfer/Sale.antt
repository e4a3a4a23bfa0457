-- ===== src/Transfer/Sale.antt =====
-- A completed transfer keeps the market in order: acceptBid of completion.go.
use touchline.Common.{
  ℕ, suc, ◌+◌, ◌≤◌, ◌<◌, ◌≡◌, refl, ◌∙◌, inl, inr, Bool, true, false, not, none, some, arith,
  ==-self, Bool-cases, Option-cases,
}
use touchline.Common.Int.{ℤ, pos, negsuc, pos_part, sub_ℕ, ltb_ℤ, leb_ℤ}
use touchline.Transfer.Rows.{Bid, Terms, Market, sold, internal}
use touchline.Transfer.Tx.{Tx, done, Ensures, Ensures-passed, ◌>>=◌}
use touchline.Transfer.Outside.{Outside}
use touchline.Transfer.Funds.{credited, debited, find_account, mint_account, ensure_account}
use touchline.Transfer.Threads.{set_listings_where}
use touchline.Transfer.Completion.{
  move_player, settle, was_completed, swap_contracts, record_transfer, pay_fee, close_threads,
  is_live_of,
}
use touchline.Transfer.Invariant.{AreOpen, AreLater, IsSound}
use touchline.Transfer.Later.{ids-AreLater, distinct-AreLater, sides-AreLater, how_many-AreLater}
use touchline.Transfer.Evolves.{Evolves, KeepsResolved-AreLater, ids_below_grow, keys_below_grow}
use touchline.Transfer.Payment.{
  closed_bids, closed_bids-AreLater, IsCurrent-closed_bids, paid, pay_fee-eq-paid,
}

-- What a sale does to the rows that the invariant speaks of.
pub record IsSale (m m' : Market) (b : Bid) (buyer_account seller_account fee transfer : ℕ)
    : Type 0 where
  pub bids : m'.bids ≡ closed_bids b.player b.id m.bids
  pub players : m'.players ≡ move_player b.player b.buyer m.players
  pub ledger : m'.ledger ≡ paid buyer_account seller_account transfer fee m.ledger
  pub listings : m'.listings ≡ set_listings_where (is_live_of b.player) sold m.listings
  pub sellers : find_account b.seller m'.accounts ≡ some seller_account
  pub above : m.next_id ≤ transfer
  pub drawn : transfer < m'.next_id

pub Evolves-sale :
    (m m' : Market) (b : Bid) (buyer_account seller_account fee transfer : ℕ)
    → IsSound m
    → AreOpen b.id m.bids
    → debited buyer_account m.ledger + fee ≤ credited buyer_account m.ledger
    → IsSale m m' b buyer_account seller_account fee transfer
    → Evolves m m'
Evolves-sale m m' b buyer_account seller_account fee transfer s live funds sale =
    let later : AreLater m.bids m'.bids =
      rw sale.bids (closed_bids-AreLater b.player b.id m.bids live) in
    let grows : m.next_id ≤ m'.next_id = omega (arith, sale.above, sale.drawn) in
    record {
      sound = record {
        ids_drawn =
            ids-AreLater (λ i. i < m'.next_id) m.bids m'.bids later
              (ids_below_grow m.next_id m'.next_id m.bids grows s.ids_drawn);
        ids_distinct = distinct-AreLater m.bids m'.bids later s.ids_distinct;
        sides_differ = sides-AreLater m.bids m'.bids later s.sides_differ;
        current =
            rw (sale.bids, sale.players)
              (IsCurrent-closed_bids b.player b.id b.buyer m.players m.bids live s.current);
        open_once = λ buyer player.
            omega (
              arith,
              s.open_once buyer player,
              how_many-AreLater buyer player m.bids m'.bids later,
            );
        keys_drawn = rw sale.ledger (
          sale.drawn,
          (sale.drawn, keys_below_grow m.next_id m'.next_id m.ledger grows s.keys_drawn),
        );
        covered = λ account. rw sale.ledger (ground (arith, s.covered account, funds));
      };
      keeps_resolved = KeepsResolved-AreLater m.bids m'.bids later;
      conserves = rw sale.ledger (omega arith);
      ids_grow = grows;
    }

-- The test `cash < fee`, on the two sums.
pub covers_fee :
    (cr dr : ℕ) (fee : ℤ)
    → ltb_ℤ (sub_ℕ cr dr) fee ≡ false
    → leb_ℤ fee (pos 0) ≡ false
    → dr + pos_part fee ≤ cr
covers_fee cr dr (pos n) h p = ground (arith, h)
covers_fee cr dr (negsuc n) h p = ground (arith, p)

module _ {B : Type 0} (Q : B → Market → Type 0) (club : ℕ) (m : Market) where
  -- An account that is there, or one that is made.
  pub Ensures-account :
      (can_mint : Bool) (k : ℕ → Tx B)
      → ((id : ℕ) → find_account club m.accounts ≡ some id → Ensures Q (k id m))
      → (can_mint ≡ true → Ensures Q (k m.next_id (mint_account club m)))
      → Ensures Q ((ensure_account can_mint club >>= k) m)
  Ensures-account can_mint k known minted = elim (Option-cases (find_account club m.accounts)) [
    | inr (id, e) ↦ rw (e, Ensures) (known id e)
    | inl missing ↦ elim (Bool-cases can_mint) [
      | inl can ↦ rw (missing, can, Ensures) (minted can)
      | inr cannot ↦ rw (missing, cannot, Ensures) tt
    ]
  ]

module _ {B : Type 0} (club : ℕ) (m : Market) (k : ℕ → Tx B) where
  pub account_found :
      (id : ℕ)
      → find_account club m.accounts ≡ some id
      → (ensure_account true club >>= k) m ≡ k id m
  account_found id e = rw (e, ◌>>=◌) refl

  account_made :
      find_account club m.accounts ≡ none
      → (ensure_account true club >>= k) m ≡ k m.next_id (mint_account club m)
  account_made e = rw (e, ◌>>=◌) refl

minted_account :
    (club : ℕ) (m : Market) → find_account club (mint_account club m).accounts ≡ some m.next_id
minted_account club m = rw (==-self club) refl

-- The rows when the transfer has been recorded, under the two ids drawn.
unfoldable pub recorded : Outside → Bid → Terms → Market → Market
recorded env b t m =
    record_transfer b t (suc m.next_id)
      (record (swap_contracts env b t m.next_id (record m { next_id = suc m.next_id })) {
        next_id = suc (suc m.next_id);
      })

pub settle-closes :
    (env : Outside) (b : Bid) (t : Terms) (account : ℕ) (m : Market)
    → Ensures (λ _ r. r.bids ≡ closed_bids b.player b.id m.bids) (settle env b t account m)
unfolding settle recorded
settle-closes env b t account m =
    let Q : ℕ → Market → Type 0 = λ _ r. r.bids ≡ closed_bids b.player b.id m.bids in
    Ensures-passed Q m (not (env.hooks_settle m b.seller b.buyer b.player)) internal _ (λ _.
      Ensures-passed Q _ (was_completed b.id m.completed) internal _
        (λ _. Ensures-account Q b.seller (recorded env b t m) true _ (λ _ _. refl) (λ _. refl)))

module _ (env : Outside) (b : Bid) (t : Terms) (account : ℕ) (m : Market) (s : IsSound m)
    (live : AreOpen b.id m.bids)
    (funds : debited account m.ledger + pos_part t.fee ≤ credited account m.ledger) where
  finish : ℕ → Market → Market
  finish seller_account r =
      close_threads b (pay_fee account seller_account (suc m.next_id) (pos_part t.fee) r)

  IsSale-finish :
      (seller_account : ℕ) (r : Market)
      → r.bids ≡ m.bids
      → r.players ≡ move_player b.player b.buyer m.players
      → r.ledger ≡ m.ledger
      → r.listings ≡ m.listings
      → suc (suc m.next_id) ≤ r.next_id
      → find_account b.seller r.accounts ≡ some seller_account
      → IsSale m (finish seller_account r) b account seller_account (pos_part t.fee) (suc m.next_id)
  unfolding finish
  IsSale-finish seller_account r bids players ledger listings drawn sellers = record {
    bids = rw bids refl;
    players = players;
    ledger =
        pay_fee-eq-paid m.next_id account seller_account (suc m.next_id) (pos_part t.fee) r
          (rw ledger s.keys_drawn) (omega arith)
        ∙ rw ledger refl;
    listings = rw listings refl;
    sellers = sellers;
    above = omega arith;
    drawn = omega (arith, drawn);
  }

  finish-Evolves :
      (seller_account : ℕ) (r : Market)
      → r.bids ≡ m.bids
      → r.players ≡ move_player b.player b.buyer m.players
      → r.ledger ≡ m.ledger
      → r.listings ≡ m.listings
      → suc (suc m.next_id) ≤ r.next_id
      → find_account b.seller r.accounts ≡ some seller_account
      → Evolves m (finish seller_account r)
  finish-Evolves seller_account r bids players ledger listings drawn sellers =
      Evolves-sale m (finish seller_account r) b account seller_account (pos_part t.fee)
        (suc m.next_id) s live funds
        (IsSale-finish seller_account r bids players ledger listings drawn sellers)

  pub settle-Evolves : Ensures (λ _. Evolves m) (settle env b t account m)
  unfolding settle recorded finish
  settle-Evolves =
      Ensures-passed (λ _. Evolves m) m (not (env.hooks_settle m b.seller b.buyer b.player))
        internal _
        (λ _.
          Ensures-passed (λ _. Evolves m) _ (was_completed b.id m.completed) internal _
            (λ _.
              Ensures-account (λ _. Evolves m) b.seller (recorded env b t m) true _
                (λ id e. finish-Evolves id (recorded env b t m) refl refl refl refl (omega arith) e)
                (λ _.
                  finish-Evolves (suc (suc m.next_id)) (mint_account b.seller (recorded env b t m))
                    refl refl refl refl (omega arith)
                    (minted_account b.seller (recorded env b t m)))))

  -- The transfer goes through.
  pub settle-sells :
      env.hooks_settle m b.seller b.buyer b.player ≡ true
      → was_completed b.id m.completed ≡ false
      → (r : Market) × (seller_account : ℕ) × (settle env b t account m ≡ done (suc m.next_id) r)
        × IsSale m r b account seller_account (pos_part t.fee) (suc m.next_id)
  unfolding settle recorded finish
  settle-sells hooks new = elim (Option-cases (find_account b.seller m.accounts)) [
    | inr (id, e) ↦ (
      finish id (recorded env b t m),
      id,
      rw (hooks, new) (account_found b.seller (recorded env b t m) _ id e),
      IsSale-finish id (recorded env b t m) refl refl refl refl (omega arith) e,
    )
    | inl missing ↦
        let r = mint_account b.seller (recorded env b t m) in
        (
          finish (suc (suc m.next_id)) r,
          suc (suc m.next_id),
          rw (hooks, new) (account_made b.seller (recorded env b t m) _ missing),
          IsSale-finish (suc (suc m.next_id)) r refl refl refl refl (omega arith)
              (minted_account b.seller (recorded env b t m)),
        )
  ]

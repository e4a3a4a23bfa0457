-- ===== src/Transfer/Accepting.antt =====
-- An accepted bid keeps the market in order: acceptBid of completion.go, up to the sale.
use touchline.Common.{
  ℕ, ◌≡◌, refl, inl, inr, true, false, Option, none, some, List, [], ◌∷◌, arith, Bool-cases,
}
use touchline.Common.Int.{ℤ, pos, ltb_ℤ, leb_ℤ}
use touchline.Transfer.Rows.{Bid, Terms, Market, MarketError, internal, insufficient_funds}
use touchline.Transfer.Tx.{
  Tx, Ensures, Ensures-bind, Ensures-need, Ensures-passed, ◌>>=◌, ◌>>◌, give, refuse_when,
}
use touchline.Transfer.Terms.{validate_terms, Explanation, completion_explanation}
use touchline.Transfer.Outside.{Outside}
use touchline.Transfer.Funds.{credited, debited, mint_account, cash_in_tx}
use touchline.Transfer.Threads.{find_bid, latest_round}
use touchline.Transfer.Completion.{settle, accept_bid, refuse_invalid}
use touchline.Transfer.Invariant.{AreOpen, AreLater-refl, IsSound}
use touchline.Transfer.Evolves.{Evolves, Evolves-refl, Evolves-bids, Evolves-trans}
use touchline.Transfer.Sale.{Ensures-account, covers_fee, settle-Evolves}

-- After the terms have been validated, the fee is positive.
pub positive_fee : (t : Terms) → validate_terms t ≡ none → leb_ℤ t.fee (pos 0) ≡ false
unfolding validate_terms
positive_fee t h = elim (Bool-cases (leb_ℤ t.fee (pos 0))) [
  | inl bad ↦ ground (arith, rw bad at h)
  | inr good ↦ good
]

pub Ensures-valid :
    {B : Type 0} (Q : B → Market → Type 0) (m : Market) (o : Option MarketError) (k : Tx B)
    → (o ≡ none → Ensures Q (k m))
    → Ensures Q ((refuse_invalid o >> k) m)
Ensures-valid Q m none k rest = rest refl
Ensures-valid Q m (some e) k rest = tt

pub find_bid-id : (id : ℕ) (bids : List Bid) (b : Bid) → find_bid id bids ≡ some b → b.id ≡ id
find_bid-id id [] b e = cc
find_bid-id id (x ∷ bids) b e = ground (arith, find_bid-id id bids b)

module _ (env : Outside) (id : ℕ) (value : ℤ) (m : Market) (s : IsSound m)
    (live : AreOpen id m.bids) where
  -- From the buyer's account on, which may be new.
  accept_from :
      (b : Bid) (t : Terms) (account : ℕ) (r : Market)
      → b.id ≡ id
      → validate_terms t ≡ none
      → Evolves m r
      → r.bids ≡ m.bids
      → Ensures {A = ℕ × Explanation}
          (λ _. Evolves m)
          ((refuse_when (ltb_ℤ (cash_in_tx account r.ledger) t.fee) insufficient_funds
              >> (settle env b t account >>= λ transfer.
                  give (transfer, completion_explanation value t)))
            r)
  accept_from b t account r same valid evolved bids =
      Ensures-passed (λ _. Evolves m) r (ltb_ℤ (cash_in_tx account r.ledger) t.fee)
        insufficient_funds _
        (λ covered.
          Ensures-bind (λ _. Evolves r) (λ _. Evolves m) (settle env b t account r) _
            (settle-Evolves env b t account r evolved.sound (rw (bids, same) live) (
              covers_fee (credited account r.ledger) (debited account r.ledger) t.fee covered
                (positive_fee t valid)))
            (λ _ r' sold. Evolves-trans evolved sold))

  pub accept_bid-Evolves : Ensures (λ _. Evolves m) (accept_bid env id value m)
  unfolding accept_bid
  accept_bid-Evolves =
      Ensures-need (λ _. Evolves m) m (find_bid id m.bids) internal _
        (λ b found.
          Ensures-need (λ _. Evolves m) m (latest_round b.rounds) internal _
            (λ r _.
              Ensures-valid (λ _. Evolves m) m (validate_terms r.terms) _
                (λ valid.
                  let same = find_bid-id id m.bids b found in
                  Ensures-account (λ _. Evolves m) b.buyer m true _
                    (λ account _.
                      accept_from b r.terms account m same valid (Evolves-refl m s) refl)
                    (λ _.
                      accept_from b r.terms m.next_id (mint_account b.buyer m) same valid
                        (Evolves-bids m (mint_account b.buyer m) s (AreLater-refl m.bids) refl refl
                          (omega arith))
                        refl))))

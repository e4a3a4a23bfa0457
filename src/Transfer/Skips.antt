-- ===== src/Transfer/Skips.antt =====
-- An AI bid that is skipped was refused by the checks, which have written nothing: placeAIBid of
-- ai.go and placeBidTx of bid.go.
use touchline.Common.{
  ℕ, ◌≡◌, refl, sym, subst, inl, inr, Bool, true, false, not, Option, none, some, List, ◌∷◌, arith,
  ◌==◌, if◌then◌else◌, Option-cases,
}
use touchline.Common.Int.{ℤ, ltb_ℤ}
use touchline.Transfer.Rows.{
  MarketError, Terms, Market, Bid, NegotiationRound, internal, invalid_terms, bid_placed,
  player_not_found, club_not_found, Side, selling_club,
}
use touchline.Transfer.Tx.{Tx, Verdict, done, refused, Ensures, ◌>>=◌, ◌>>◌, need, refuse_when}
use touchline.Transfer.Terms.{
  validate_terms, RespondAction, accept, reject, counter, unknown_action, ai_seller_decision,
}
use touchline.Transfer.Outside.{Outside}
use touchline.Transfer.Funds.{find_account, ensure_account, cash_in_tx}
use touchline.Transfer.Threads.{find_bid, latest_round}
use touchline.Transfer.Completion.{
  settle, accept_bid, reject_bid, counter_bid, refuse_invalid, was_completed, emit,
}
use touchline.Transfer.Bids.{
  BidInput, Answer, check_bid, place_bid_tx, write_bid_thread, answer_bid, ai_seller_answers,
  asking_for,
}
use touchline.Transfer.Listings.{sits_out}
use touchline.Transfer.Checks.{MayBid, check_bid-quiet}
use touchline.Transfer.Sale.{recorded, account_found}

abbrev IsFatal : MarketError → Type 0
IsFatal e = sits_out e ≡ false

-- When it is refused, the error is not one that an AI club sits out for.
abbrev RefusesFatally : {A : Type 0} → Verdict A → Type 0
RefusesFatally (done a m) = Unit
RefusesFatally (refused e) = IsFatal e

fatal-bind :
    {A B : Type 0} (v : Verdict A) (k : A → Tx B)
    → RefusesFatally v
    → ((a : A) (r : Market) → RefusesFatally (k a r))
    → RefusesFatally (elim v [ done a after ↦ k a after | refused e ↦ refused e ])
fatal-bind (done a m) k h rest = rest a m
fatal-bind (refused e) k h rest = h

fatal-need :
    {A B : Type 0} (m : Market) (o : Option A) (e : MarketError) (k : A → Tx B)
    → IsFatal e
    → ((a : A) → o ≡ some a → RefusesFatally (k a m))
    → RefusesFatally ((need o e >>= k) m)
fatal-need m none e k h rest = h
fatal-need m (some a) e k h rest = rest a refl

fatal-when :
    {B : Type 0} (m : Market) (c : Bool) (e : MarketError) (k : Tx B)
    → IsFatal e
    → RefusesFatally (k m)
    → RefusesFatally ((refuse_when c e >> k) m)
fatal-when m true e k h rest = h
fatal-when m false e k h rest = rest

fatal-account :
    {B : Type 0} (m : Market) (club : ℕ) (k : ℕ → Tx B)
    → ((account : ℕ) (r : Market) → RefusesFatally (k account r))
    → RefusesFatally ((ensure_account true club >>= k) m)
fatal-account m club k rest = elim (Option-cases (find_account club m.accounts)) [
  | inl missing ↦ rw (missing, RefusesFatally) (rest _ _)
  | inr (id, e) ↦ rw (e, RefusesFatally) (rest _ _)
]

invalid_only : (t : Terms) (e : MarketError) → validate_terms t ≡ some e → e ≡ invalid_terms
unfolding validate_terms
invalid_only t e h = ground (arith, h)

fatal-valid :
    {B : Type 0} (m : Market) (t : Terms) (k : Tx B)
    → RefusesFatally (k m)
    → RefusesFatally ((refuse_invalid (validate_terms t) >> k) m)
fatal-valid m t k rest = elim (Option-cases (validate_terms t)) [
  | inl valid ↦ rw (valid, RefusesFatally) rest
  | inr (e, bad) ↦ rw (bad, RefusesFatally) (rw (invalid_only t e bad) refl)
]

settle-fatal :
    (env : Outside) (b : Bid) (t : Terms) (account : ℕ) (m : Market)
    → RefusesFatally (settle env b t account m)
unfolding settle recorded
settle-fatal env b t account m =
    fatal-when m (not (env.hooks_settle m b.seller b.buyer b.player)) internal _ refl (
      fatal-when _ (was_completed b.id m.completed) internal _ refl
        (fatal-account (recorded env b t m) b.seller _ (λ _ _. tt)))

-- The acceptance of a bid whose buyer's cash covers the latest fee.
accept_bid-fatal :
    (env : Outside) (id : ℕ) (value : ℤ) (m : Market) (b : Bid) (n : NegotiationRound) (account : ℕ)
    → find_bid id m.bids ≡ some b
    → latest_round b.rounds ≡ some n
    → find_account b.buyer m.accounts ≡ some account
    → ltb_ℤ (cash_in_tx account m.ledger) n.terms.fee ≡ false
    → RefusesFatally (accept_bid env id value m)
unfolding accept_bid
accept_bid-fatal env id value m b n account found latest has_account covered =
    rw (found, latest)
      (fatal-valid m n.terms _ (
        subst RefusesFatally (sym (account_found b.buyer m _ account has_account)) (
          rw covered (
            fatal-bind (settle env b n.terms account m) _ (settle-fatal env b n.terms account m)
              (λ _ _. tt)))))

counter_bid-fatal :
    (id : ℕ) (side : Side) (terms : Terms) (m : Market)
    → RefusesFatally (counter_bid id side terms m)
unfolding counter_bid
counter_bid-fatal id side terms m = fatal-valid m terms _ tt

reject_bid-fatal : (id : ℕ) (m : Market) → RefusesFatally (reject_bid id m)
unfolding reject_bid
reject_bid-fatal id m = tt

module _ (env : Outside) (id : ℕ) (m : Market) (b : Bid) (n : NegotiationRound) (account : ℕ)
    (found : find_bid id m.bids ≡ some b) (latest : latest_round b.rounds ≡ some n)
    (has_account : find_account b.buyer m.accounts ≡ some account)
    (covered : ltb_ℤ (cash_in_tx account m.ledger) n.terms.fee ≡ false) where
  answer_bid-fatal :
      (terms : Terms) (value : ℤ) (d : RespondAction × ℤ)
      → RefusesFatally (answer_bid id terms value env d m)
  unfolding answer_bid
  answer_bid-fatal terms value (accept, target) =
      fatal-bind (accept_bid env id value m) _
        (accept_bid-fatal env id value m b n account found latest has_account covered) (λ _ _. tt)
  answer_bid-fatal terms value (reject, target) = reject_bid-fatal id m
  answer_bid-fatal terms value (counter, target) =
      fatal-bind (counter_bid id selling_club (record terms { fee = target }) m) _
        (counter_bid-fatal id selling_club (record terms { fee = target }) m) (λ _ _. tt)
  answer_bid-fatal terms value (unknown_action, target) = tt

  ai_seller_answers-fatal :
      (player : ℕ) (listing : Option ℕ) (terms : Terms)
      → RefusesFatally (ai_seller_answers env id player listing terms m)
  unfolding ai_seller_answers
  ai_seller_answers-fatal player listing terms =
      fatal-need m (env.valuation m player) player_not_found _ refl (λ value _.
        answer_bid-fatal terms value
          (ai_seller_decision env.mul terms.fee value (asking_for listing m)))

fatal-quiet :
    {A B : Type 0} (P : A → Type 0) (m : Market) (v : Verdict A) (k : A → Tx B) (a : A) (r : Market)
    → v ≡ done a r
    → Ensures (λ x n. (n ≡ m) × P x) v
    → ((x : A) → P x → RefusesFatally (k x m))
    → RefusesFatally (elim v [ done x after ↦ k x after | refused e ↦ refused e ])
fatal-quiet P m (done x n) k a r e h rest = rw h.0 (rest x h.1)
fatal-quiet P m (refused f) k a r e h rest = ground (arith, e)

fatal-if :
    {B : Type 0} (m : Market) (test : Bool) (t u : Tx B)
    → RefusesFatally (t m)
    → RefusesFatally (u m)
    → RefusesFatally ((if test then t else u) m)
fatal-if m true t u h k = h
fatal-if m false t u h k = k

find_head : (b : Bid) (bids : List Bid) → find_bid b.id (b ∷ bids) ≡ some b
find_head b bids = let same : (b.id == b.id) ≡ true = ground arith in rw same refl

first_thread :
    (env : Outside) (world : ℕ) (listing : Option ℕ) (player buyer seller : ℕ) (terms : Terms)
    (m : Market)
    → (b : Bid) × (b.buyer ≡ buyer)
      × (find_bid m.next_id (write_bid_thread env world listing player buyer seller terms m).bids
          ≡ some b)
      × ((n : NegotiationRound) × (latest_round b.rounds ≡ some n) × (n.terms ≡ terms))
first_thread env world listing player buyer seller terms m =
    (_, refl, find_head _ m.bids, (_, refl, refl))

-- Once the checks have passed, what is refused is refused for good.
placing-fatal :
    (env : Outside) (world buyer : ℕ) (input : BidInput) (m : Market) (a : ℕ × ℕ) (r : Market)
    → check_bid env world buyer input m ≡ done a r
    → RefusesFatally (place_bid_tx env world buyer input m)
unfolding place_bid_tx
placing-fatal env world buyer input m a r passed =
    fatal-quiet (MayBid m buyer input.terms.fee) m (check_bid env world buyer input m) _ a r passed
      (check_bid-quiet env world buyer input m)
      (λ x may.
        let after =
          emit bid_placed m.next_id
            (write_bid_thread env world input.listing x.0 buyer x.1 input.terms m) in
        let (account, has_account, covered) = may.funds in
        let (b, its_buyer, found, (n, latest, its_terms)) =
          first_thread env world input.listing x.0 buyer x.1 input.terms m in
        fatal-need after (env.is_ai_club x.1) club_not_found _ refl (λ ai _.
          fatal-if after ai _ _
            (ai_seller_answers-fatal env m.next_id after b n account found latest
              (rw its_buyer has_account) (rw its_terms covered) x.0 input.listing input.terms)
            tt))

error_of_checks :
    (env : Outside) (world buyer : ℕ) (input : BidInput) (m : Market) (f : MarketError)
    → check_bid env world buyer input m ≡ refused f
    → place_bid_tx env world buyer input m ≡ refused f
unfolding place_bid_tx
error_of_checks env world buyer input m f h = rw (h, ◌>>=◌) refl

same_error : (e f : MarketError) (v : Verdict Answer) → v ≡ refused f → v ≡ refused e → f ≡ e
same_error e f v h k = ground (arith, h, k)

-- A bid that is refused with an error that AI clubs sit out for was refused by its checks, with
-- the same error.
pub place_bid_tx-skipped :
    (env : Outside) (world buyer : ℕ) (input : BidInput) (m : Market) (e : MarketError)
    → place_bid_tx env world buyer input m ≡ refused e
    → sits_out e ≡ true
    → check_bid env world buyer input m ≡ refused e
place_bid_tx-skipped env world buyer input m e failed out =
    by_checks (check_bid env world buyer input m) refl
  where
    by_checks :
        (v : Verdict (ℕ × ℕ))
        → check_bid env world buyer input m ≡ v
        → check_bid env world buyer input m ≡ refused e
    by_checks (done a r) passed =
        let fatal : RefusesFatally (place_bid_tx env world buyer input m) =
          placing-fatal env world buyer input m a r passed in
        let fatal_e : RefusesFatally {A = Answer} (refused e) = rw failed at fatal in
        ground (arith, fatal_e, out)
    by_checks (refused f) stopped =
        let also = error_of_checks env world buyer input m f stopped in
        rw (same_error e f (place_bid_tx env world buyer input m) also failed) at stopped

-- ===== src/Transfer/Checks.antt =====
-- The checks that bids and their answers begin with read the rows and change none: bid.go.
use touchline.Common.{
  ℕ, ◌≡◌, refl, ◌∙◌, ◌≢◌, inl, inr, Bool, true, false, ◌&&◌, not, Option, none, some, List, [], ◌∷◌,
  arith, ◌==◌, Bool-cases, Option-cases,
}
use touchline.Common.Int.{ℤ, pos, ltb_ℤ, leb_ℤ}
use touchline.Transfer.Rows.{
  Player, Market, MarketError, club_not_found, world_not_playable, world_mismatch, player_not_found,
  player_not_transferable, self_bid, listing_not_found, duplicate_open_bid, invalid_terms,
  insufficient_funds,
}
use touchline.Transfer.Tx.{
  Tx, Verdict, done, refused, Ensures, Ensures-need, Ensures-passed, refuse_when,
}
use touchline.Transfer.Outside.{Outside}
use touchline.Transfer.Funds.{require_funds, cash_in_tx, find_account}
use touchline.Transfer.Threads.{is_on_market, find_listing, find_player, is_duplicate, any_bid}
use touchline.Transfer.Bids.{BidInput, bid_target, require_club_in, require_listing, check_bid}
use touchline.Transfer.Invariant.{club_of}
use touchline.Transfer.Sale.{Ensures-account}

-- A part of a transaction that reads the rows and changes none, and what it has found.
pub Ensures-quiet :
    {A B : Type 0} (P : A → Type 0) (Q : B → Market → Type 0) (m : Market) (v : Verdict A)
    (k : A → Tx B)
    → Ensures (λ a r. (r ≡ m) × P a) v
    → ((a : A) → P a → Ensures Q (k a m))
    → Ensures Q (elim v [ done a after ↦ k a after | refused e ↦ refused e ])
Ensures-quiet P Q m (done a r) k h rest = rw h.0 (rest a h.1)
Ensures-quiet P Q m (refused e) k h rest = tt

abbrev pub Anything : {A : Type 0} → A → Type 0
Anything _ = Unit

refuse_when-quiet :
    (refusal : Bool) (e : MarketError) (m : Market)
    → Ensures (λ a r. (r ≡ m) × Anything a) (refuse_when refusal e m)
refuse_when-quiet true e m = tt
refuse_when-quiet false e m = (refl, tt)

pub require_club_in-quiet :
    (env : Outside) (world club : ℕ) (m : Market)
    → Ensures (λ a r. (r ≡ m) × Anything a) (require_club_in env world club m)
require_club_in-quiet env world club m =
    let Q : Unit {0} → Market → Type 0 = λ a r. (r ≡ m) × Anything a in
    Ensures-need Q m (env.club_fitness club) club_not_found _ (λ home _.
      Ensures-passed Q m (not home.1) world_not_playable _
        (λ _. refuse_when-quiet (not (home.0 == world)) world_mismatch m))

require_listing-quiet :
    (world player : ℕ) (listing : Option ℕ) (m : Market)
    → Ensures (λ a r. (r ≡ m) × Anything a) (require_listing world player listing m)
require_listing-quiet world player none m = (refl, tt)
require_listing-quiet world player (some id) m = elim (Option-cases (find_listing id m.listings)) [
  | inl missing ↦ rw (missing, Ensures) tt
  | inr (l, e) ↦
      let bad = not (l.world == world && l.player == player && is_on_market l.status) in
      rw (e, Ensures) (refuse_when-quiet bad listing_not_found m)
]

abbrev pub HasFunds : Market → ℕ → ℤ → Type 0
HasFunds m buyer fee =
    (account : ℕ) × (find_account buyer m.accounts ≡ some account)
    × (ltb_ℤ (cash_in_tx account m.ledger) fee ≡ false)

refuse_when-fact :
    (P : Type 0) (refusal : Bool) (e : MarketError) (m : Market)
    → (refusal ≡ false → P)
    → Ensures (λ _ r. (r ≡ m) × P) (refuse_when refusal e m)
refuse_when-fact P true e m h = tt
refuse_when-fact P false e m h = (refl, h refl)

require_funds-quiet :
    (buyer : ℕ) (fee : ℤ) (m : Market)
    → Ensures (λ _ r. (r ≡ m) × HasFunds m buyer fee) (require_funds buyer fee m)
unfolding require_funds
require_funds-quiet buyer fee m =
    let Q : Unit {0} → Market → Type 0 = λ _ r. (r ≡ m) × HasFunds m buyer fee in
    Ensures-passed Q m (leb_ℤ fee (pos 0)) invalid_terms _ (λ _.
      Ensures-account Q buyer m false _
        (λ account e.
          refuse_when-fact (HasFunds m buyer fee) (ltb_ℤ (cash_in_tx account m.ledger) fee)
            insufficient_funds m (λ covered. (account, e, covered)))
        (λ impossible. ground (arith, impossible)))

find_player-id :
    (id : ℕ) (players : List Player) (p : Player) → find_player id players ≡ some p → p.id ≡ id
find_player-id id [] p e = cc
find_player-id id (x ∷ players) p e = ground (arith, find_player-id id players p)

player_home :
    (id : ℕ) (players : List Player) (p : Player)
    → find_player id players ≡ some p
    → club_of p.id players ≡ p.club
player_home id [] p e = cc
player_home id (x ∷ players) p e = elim (Bool-cases (x.id == id)) [
  | inl hit ↦ ground (arith, rw hit at e)
  | inr miss ↦ ground (
    arith,
    miss,
    find_player-id id players p (rw miss at e),
    player_home id players p (rw miss at e),
  )
]

-- What the checks of a bid promise of the player and the seller.
pub record MayBid (m : Market) (buyer : ℕ) (fee : ℤ) (a : ℕ × ℕ) : Type 0 where
  pub no_duplicate : any_bid (is_duplicate buyer a.0) m.bids ≡ false
  pub not_own : a.1 ≢ buyer
  pub home : club_of a.0 m.players ≡ some a.1
  pub funds : HasFunds m buyer fee

pub check_bid-quiet :
    (env : Outside) (world buyer : ℕ) (input : BidInput) (m : Market)
    → Ensures
        (λ a r. (r ≡ m) × MayBid m buyer input.terms.fee a)
        (check_bid env world buyer input m)
unfolding check_bid
check_bid-quiet env world buyer input m =
    let Q : ℕ × ℕ → Market → Type 0 = λ a r. (r ≡ m) × MayBid m buyer input.terms.fee a in
    Ensures-need Q m (find_player (bid_target input m) m.players) player_not_found _ (λ p found.
      Ensures-passed Q m (not (p.world == world)) world_mismatch _ (λ _.
        Ensures-need Q m p.club player_not_transferable _ (λ seller home.
          Ensures-passed Q m (not p.is_active) player_not_transferable _ (λ _.
            Ensures-passed Q m (seller == buyer) self_bid _ (λ differs.
              Ensures-quiet Anything Q m (require_listing world p.id input.listing m) _
                (require_listing-quiet world p.id input.listing m)
                (λ _ _.
                  Ensures-passed Q m (any_bid (is_duplicate buyer p.id) m.bids) duplicate_open_bid _
                    (λ no_duplicate.
                      Ensures-quiet (λ _. HasFunds m buyer input.terms.fee) Q m
                        (require_funds buyer input.terms.fee m) _
                        (require_funds-quiet buyer input.terms.fee m)
                        (λ _ funds. (
                          refl,
                          record {
                            funds = funds;
                            no_duplicate = no_duplicate;
                            not_own = λ same. ground (arith, differs, same);
                            home = player_home (bid_target input m) m.players p found ∙ home;
                          },
                        )))))))))

-- ===== src/Transfer/Aborts.antt =====
-- An AI bid whose fee is not positive aborts the transaction around it: placeAIBid of ai.go.
use touchline.Common.{
  ℕ, ◌≡◌, refl, ◌∙◌, Bool, true, false, ◌&&◌, none, some, List, ◌∷◌, ◌==◌, if◌then◌else◌,
}
use touchline.Common.Int.{ℤ, pos, ltb_ℤ, leb_ℤ}
use touchline.Transfer.Rows.{Listing, Player, Market, MarketError, invalid_terms}
use touchline.Transfer.Tx.{Tx, Verdict, done, refused, ◌>>=◌, give, bind_done}
use touchline.Transfer.Outside.{Outside, Candidate}
use touchline.Transfer.Funds.{require_funds}
use touchline.Transfer.Threads.{find_listing, find_player, is_on_market, is_duplicate, any_bid}
use touchline.Transfer.Bids.{BidInput, bid_target, require_listing, check_bid, place_bid_tx}
use touchline.Transfer.Listings.{ai_terms, skip_refusal, place_ai_bid, place_ai_bids}

-- A part that is refused refuses the whole.
bind_refused :
    {A B : Type 0} (v : Verdict A) (k : A → Tx B) (e : MarketError)
    → v ≡ refused e
    → (elim v as (λ _. Verdict B) [ done x after ↦ k x after | refused f ↦ refused f ]) ≡ refused e
bind_refused v k e h = rw h refl

-- A club that may bid on the listed player but for the price.
pub record CouldBid (m : Market) (world : ℕ) (l : Listing) (p : Player) (seller : ℕ) (c : Candidate)
    : Type 0 where
  pub listed : find_listing l.id m.listings ≡ some l
  pub for_sale : (l.world == world && l.player == p.id && is_on_market l.status) ≡ true
  pub known : find_player l.player m.players ≡ some p
  pub here : (p.world == world) ≡ true
  pub owned : p.club ≡ some seller
  pub active : p.is_active ≡ true
  pub other_club : (seller == c.club) ≡ false
  pub first_bid : any_bid (is_duplicate c.club p.id) m.bids ≡ false

module _ (env : Outside) (world : ℕ) (l : Listing) (p : Player) (seller : ℕ) (c : Candidate)
    (fee wage : ℤ) (m : Market) (could : CouldBid m world l p seller c)
    (worthless : leb_ℤ fee (pos 0) ≡ true) where
  abbrev input : BidInput
  input = record { listing = some l.id; player = none; terms = ai_terms fee wage }

  funds_refused : require_funds c.club fee m ≡ refused invalid_terms
  unfolding require_funds
  funds_refused = rw (worthless, ◌>>=◌) refl

  target : bid_target input m ≡ l.player
  target = rw (could.listed, bid_target) refl

  listing_passes : require_listing world p.id (some l.id) m ≡ done tt m
  listing_passes = rw (could.listed, require_listing) (rw could.for_sale refl)

  checked : check_bid env world c.club input m ≡ refused invalid_terms
  unfolding check_bid
  checked =
      rw (target, could.known, could.here, could.owned, could.active, could.other_club)
        (bind_done _ _ tt m listing_passes
          ∙ rw could.first_bid (bind_refused _ _ invalid_terms funds_refused))

  placing_refused : place_bid_tx env world c.club input m ≡ refused invalid_terms
  unfolding place_bid_tx
  placing_refused = bind_refused _ _ invalid_terms checked

  bid_refused : place_ai_bid env world l.id c fee wage m ≡ refused invalid_terms
  unfolding place_ai_bid
  bid_refused = rw (placing_refused, skip_refusal) refl

  -- When the fee that the AI clubs are given is not positive, and the first club of the shortlist
  -- could bid but for the price, the bids are not skipped: the whole transaction is refused with
  -- invalid terms.
  pub place_ai_bids-refused :
      (rest : List Candidate)
      → ltb_ℤ c.cash (env.with_margin fee) ≡ false
      → place_ai_bids env world l.id fee wage (c ∷ rest) m ≡ refused invalid_terms
  unfolding place_ai_bids
  place_ai_bids-refused rest rich =
      let first : Tx Bool =
        if ltb_ℤ c.cash (env.with_margin fee)
        then give false
        else place_ai_bid env world l.id c fee wage in
      let stopped : first m ≡ refused invalid_terms = rw rich bid_refused in
      bind_refused _ _ invalid_terms stopped

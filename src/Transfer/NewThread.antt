-- ===== src/Transfer/NewThread.antt =====
-- A new negotiation thread: writeBidThread (helpers.go) after the checks of placeBidTx (bid.go).
use touchline.Common.{
  ℕ, suc, ◌≤◌, ◌<◌, ◌≡◌, refl, ◌≢◌, inl, inr, Bool, false, ◌&&◌, Option, some, List, [], ◌∷◌, arith,
  ◌==◌, All, Bool-cases,
}
use touchline.Transfer.Rows.{Bid, Terms, Market}
use touchline.Transfer.Outside.{Outside}
use touchline.Transfer.Threads.{find_bid, is_duplicate, how_many, any_bid}
use touchline.Transfer.Bids.{write_bid_thread}
use touchline.Transfer.Invariant.{AreOpen, club_of, IsSound}
use touchline.Transfer.Updates.{open_if_absent}
use touchline.Transfer.Evolves.{Evolves, ids_below_grow, keys_below_grow}

absent_above : (n : ℕ) (bids : List Bid) → All (λ b. b.id < n) bids → All (λ b. b.id ≢ n) bids
absent_above n [] h = tt
absent_above n (b ∷ bids) h = (λ e. omega (arith, h.0, e), absent_above n bids h.1)

found_below :
    (n id : ℕ) (bids : List Bid) (b : Bid)
    → All (λ c. c.id < n) bids
    → find_bid id bids ≡ some b
    → id < n
found_below n id [] b h e = cc
found_below n id (x ∷ bids) b h e = elim (Bool-cases (x.id == id)) [
  | inl hit ↦ ground (arith, hit, h.0)
  | inr miss ↦ found_below n id bids b h.1 (rw miss at e)
]

pub none_of_any :
    (test : Bid → Bool) (bids : List Bid) → any_bid test bids ≡ false → how_many test bids ≡ 0
none_of_any test [] h = refl
none_of_any test (b ∷ bids) h = elim (Bool-cases (test b)) [
  | inl hit ↦ ground (arith, hit, h)
  | inr miss ↦ rw miss (omega (arith, none_of_any test bids (rw miss at h)))
]

module _ (env : Outside) (world : ℕ) (listing : Option ℕ) (player buyer seller : ℕ) (terms : Terms)
    (m : Market) (s : IsSound m) where
  abbrev after : Market
  after = write_bid_thread env world listing player buyer seller terms m

  pub AreOpen-write_bid_thread : AreOpen m.next_id after.bids
  AreOpen-write_bid_thread =
      (λ _. refl, open_if_absent m.next_id m.bids (absent_above m.next_id m.bids s.ids_drawn))

  open_once_after :
      (no_duplicate : any_bid (is_duplicate buyer player) m.bids ≡ false) (x y : ℕ)
      → how_many (is_duplicate x y) after.bids ≤ 1
  open_once_after no_duplicate x y = elim (Bool-cases (buyer == x && player == y)) [
    | inl same ↦
        let fresh = none_of_any (is_duplicate buyer player) m.bids no_duplicate in
        let buyers : buyer ≡ x = ground (arith, same) in
        let players : player ≡ y = ground (arith, same) in
        let none_here : how_many (is_duplicate x y) m.bids ≡ 0 = rw (buyers, players) at fresh in
        ground (arith, same, none_here)
    | inr other ↦ ground (arith, other, s.open_once x y)
  ]

  pub Evolves-write_bid_thread :
      any_bid (is_duplicate buyer player) m.bids ≡ false
      → seller ≢ buyer
      → club_of player m.players ≡ some seller
      → Evolves m after
  Evolves-write_bid_thread no_duplicate differ home = record {
    sound = record {
      ids_drawn =
          (omega arith, ids_below_grow m.next_id (suc m.next_id) m.bids (omega arith) s.ids_drawn);
      ids_distinct = (absent_above m.next_id m.bids s.ids_drawn, s.ids_distinct);
      sides_differ = (differ, s.sides_differ);
      current = (λ _. home, s.current);
      open_once = open_once_after no_duplicate;
      keys_drawn = keys_below_grow m.next_id (suc m.next_id) m.ledger (omega arith) s.keys_drawn;
      covered = s.covered;
    };
    keeps_resolved = λ id b e closed.
        let below = found_below m.next_id id m.bids b s.ids_drawn e in
        let passed : (m.next_id == id) ≡ false = ground (arith, below) in (b, rw passed e, refl);
    conserves = refl;
    ids_grow = omega arith;
  }

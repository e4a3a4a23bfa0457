-- ===== src/Transfer/Updates.antt =====
-- The updates of bids in completion.go and bid.go, each on open bids only.
use touchline.Common.{
  ℕ, ◌≡◌, refl, ◌≢◌, inl, inr, true, some, List, [], ◌∷◌, arith, ◌==◌, All, Bool-cases,
}
use touchline.Transfer.Rows.{BidStatus, Bid, Side, Terms, Market, countered, EventKind}
use touchline.Transfer.Threads.{is_open, find_bid, set_status_where, has_id, append_round}
use touchline.Transfer.Completion.{emit, put_counter}
use touchline.Transfer.Invariant.{
  IsLater-refl, AreLater, AreLater-trans, AreOpen, HaveDistinctIds, IsSound,
  set_status_where-AreLater,
}
use touchline.Transfer.Evolves.{Evolves, Evolves-bids}

pub open_if_absent : (id : ℕ) (bids : List Bid) → All (λ c. c.id ≢ id) bids → AreOpen id bids
open_if_absent id [] h = tt
open_if_absent id (b ∷ bids) h =
    (λ hit. absurd (h.0 (ground (arith, hit))), open_if_absent id bids h.1)

-- Ids are distinct, so the bid that is found is the only one with its id.
pub open_if_found :
    (id : ℕ) (bids : List Bid) (b : Bid)
    → HaveDistinctIds bids
    → find_bid id bids ≡ some b
    → is_open b.status ≡ true
    → AreOpen id bids
open_if_found id [] b d e o = tt
open_if_found id (x ∷ bids) b d e o = elim (Bool-cases (x.id == id)) [
  | inl hit ↦
      let same : x ≡ b = ground (arith, rw hit at e) in
      let its_id : x.id ≡ id = ground (arith, hit) in
      (λ _. rw same o, open_if_absent id bids (rw its_id at d.0))
  | inr miss ↦ (λ hit. ground (arith, miss, hit), open_if_found id bids b d.1 (rw miss at e) o)
]

-- A status is set on the bid with this id.
pub set_status-AreLater :
    (id : ℕ) (status : BidStatus) (bids : List Bid)
    → AreOpen id bids
    → AreLater bids (set_status_where (has_id id) status bids)
set_status-AreLater id status bids h = set_status_where-AreLater (has_id id) status bids h

AreLater-append_round :
    (id : ℕ) (side : Side) (terms : Terms) (bids : List Bid)
    → AreLater bids (append_round id side terms bids)
AreLater-append_round id side terms [] = tt
AreLater-append_round id side terms (b ∷ bids) = elim (Bool-cases (b.id == id)) [
  | inl hit ↦ rw hit (
    record {
      same_id = refl;
      same_player = refl;
      same_buyer = refl;
      same_seller = refl;
      resolved_stays = λ _. refl;
    },
    AreLater-append_round id side terms bids,
  )
  | inr miss ↦ rw miss (IsLater-refl b, AreLater-append_round id side terms bids)
]

AreOpen-append_round :
    (id : ℕ) (side : Side) (terms : Terms) (bids : List Bid)
    → AreOpen id bids
    → AreOpen id (append_round id side terms bids)
AreOpen-append_round id side terms [] h = tt
AreOpen-append_round id side terms (b ∷ bids) h = elim (Bool-cases (b.id == id)) [
  | inl hit ↦ rw hit (λ _. h.0 hit, AreOpen-append_round id side terms bids h.1)
  | inr miss ↦
      rw miss (λ same. ground (arith, miss, same), AreOpen-append_round id side terms bids h.1)
]

-- A bid that has been countered is open.
AreOpen-countered :
    (id : ℕ) (bids : List Bid) → AreOpen id (set_status_where (has_id id) countered bids)
AreOpen-countered id [] = tt
AreOpen-countered id (b ∷ bids) = elim (Bool-cases (b.id == id)) [
  | inl hit ↦ rw hit (λ _. refl, AreOpen-countered id bids)
  | inr miss ↦ rw miss (λ same. ground (arith, miss, same), AreOpen-countered id bids)
]

pub AreOpen-put_counter :
    (id : ℕ) (side : Side) (terms : Terms) (m : Market)
    → AreOpen id (put_counter id side terms m).bids
AreOpen-put_counter id side terms m = AreOpen-countered id (append_round id side terms m.bids)

pub Evolves-put_counter :
    (id : ℕ) (side : Side) (terms : Terms) (m : Market)
    → IsSound m
    → AreOpen id m.bids
    → Evolves m (put_counter id side terms m)
Evolves-put_counter id side terms m s h =
    let appended = append_round id side terms m.bids in
    Evolves-bids m (put_counter id side terms m) s
      (AreLater-trans m.bids appended (set_status_where (has_id id) countered appended)
        (AreLater-append_round id side terms m.bids)
        (set_status-AreLater id countered appended (AreOpen-append_round id side terms m.bids h)))
      refl refl (omega arith)

-- A market whose bid with this id gets a status, and an event.
pub Evolves-set_status :
    (id : ℕ) (status : BidStatus) (kind : EventKind) (m : Market)
    → IsSound m
    → AreOpen id m.bids
    → Evolves m (emit kind id (record m { bids = set_status_where (has_id id) status m.bids }))
Evolves-set_status id status kind m s h =
    Evolves-bids m (emit kind id (record m { bids = set_status_where (has_id id) status m.bids })) s
      (set_status-AreLater id status m.bids h) refl refl (omega arith)

-- ===== src/Transfer/Evolves.antt =====
-- A market in order that became another one by a transaction: what stays, and the updates that
-- move no money and no player.
use touchline.Common.{ℕ, ◌+◌, ◌≤◌, ◌<◌, ◌≡◌, refl, ◌∙◌, false, some, List, [], ◌∷◌, arith, All}
use touchline.Transfer.Rows.{Bid, Market, LedgerEntry, DedupKey, transfer_key, wage_key, other_key}
use touchline.Transfer.Funds.{credit_part, debit_part}
use touchline.Transfer.Threads.{is_open, find_bid}
use touchline.Transfer.Invariant.{AreLater, AreLater-refl, IsSound, KeyBelow}
use touchline.Transfer.Later.{
  ids-AreLater, distinct-AreLater, sides-AreLater, IsCurrent-AreLater, how_many-AreLater,
  find_bid-AreLater,
}

-- The sums over every account.
abbrev pub total_credit : List LedgerEntry → ℕ
total_credit [] = 0
total_credit (e ∷ ledger) = credit_part e.entry_type e.amount + total_credit ledger

abbrev pub total_debit : List LedgerEntry → ℕ
total_debit [] = 0
total_debit (e ∷ ledger) = debit_part e.entry_type e.amount + total_debit ledger

-- A resolved bid keeps its status.
abbrev pub KeepsResolved : List Bid → List Bid → Type 0
KeepsResolved l m =
    (id : ℕ) (b : Bid)
    → find_bid id l ≡ some b
    → is_open b.status ≡ false
    → (c : Bid) × (find_bid id m ≡ some c) × (c.status ≡ b.status)

-- The money of all the clubs together stays what it was.
pub record Evolves (m m' : Market) : Type 0 where
  pub sound : IsSound m'
  pub keeps_resolved : KeepsResolved m.bids m'.bids
  pub conserves :
      total_credit m'.ledger + total_debit m.ledger ≡ total_credit m.ledger + total_debit m'.ledger
  pub ids_grow : m.next_id ≤ m'.next_id

pub KeepsResolved-AreLater : (l m : List Bid) → AreLater l m → KeepsResolved l m
KeepsResolved-AreLater l m h id b e closed =
    let (c, found, later) = find_bid-AreLater id l m b h e in
    (c, found, later.resolved_stays closed)

KeepsResolved-trans : (l m n : List Bid) → KeepsResolved l m → KeepsResolved m n → KeepsResolved l n
KeepsResolved-trans l m n h k id b e closed =
    let (c, found, same) = h id b e closed in
    let (d, found', same') = k id c found (rw same closed) in (d, found', same' ∙ same)

pub Evolves-trans : {l m n : Market} → Evolves l m → Evolves m n → Evolves l n
Evolves-trans {l} {m} {n} h k = record {
  sound = k.sound;
  keeps_resolved = KeepsResolved-trans l.bids m.bids n.bids h.keeps_resolved k.keeps_resolved;
  conserves = omega (arith, h.conserves, k.conserves);
  ids_grow = omega (arith, h.ids_grow, k.ids_grow);
}

pub ids_below_grow :
    (n k : ℕ) (bids : List Bid) → n ≤ k → All (λ b. b.id < n) bids → All (λ b. b.id < k) bids
ids_below_grow n k [] h below = tt
ids_below_grow n k (b ∷ bids) h below =
    (omega (arith, below.0, h), ids_below_grow n k bids h below.1)

KeyBelow-grow : (n k : ℕ) (key : DedupKey) → n ≤ k → KeyBelow n key → KeyBelow k key
KeyBelow-grow n k (transfer_key t side) h below = omega (arith, below, h)
KeyBelow-grow n k (wage_key j c) h below = tt
KeyBelow-grow n k (other_key t) h below = tt

pub keys_below_grow :
    (n k : ℕ) (ledger : List LedgerEntry)
    → n ≤ k
    → All (λ e. KeyBelow n e.key) ledger
    → All (λ e. KeyBelow k e.key) ledger
keys_below_grow n k [] h below = tt
keys_below_grow n k (e ∷ ledger) h below =
    (KeyBelow-grow n k e.key h below.0, keys_below_grow n k ledger h below.1)

-- An update of bids, on the same players and ledger.
pub Evolves-bids :
    (m m' : Market)
    → IsSound m
    → AreLater m.bids m'.bids
    → m'.players ≡ m.players
    → m'.ledger ≡ m.ledger
    → m.next_id ≤ m'.next_id
    → Evolves m m'
Evolves-bids m m' s later players ledger grows = record {
  sound = record {
    ids_drawn =
        ids-AreLater (λ i. i < m'.next_id) m.bids m'.bids later
          (ids_below_grow m.next_id m'.next_id m.bids grows s.ids_drawn);
    ids_distinct = distinct-AreLater m.bids m'.bids later s.ids_distinct;
    sides_differ = sides-AreLater m.bids m'.bids later s.sides_differ;
    current = rw players (IsCurrent-AreLater m.players m.bids m'.bids later s.current);
    open_once = λ buyer player.
        omega
          (arith, s.open_once buyer player, how_many-AreLater buyer player m.bids m'.bids later);
    keys_drawn = rw ledger (keys_below_grow m.next_id m'.next_id m.ledger grows s.keys_drawn);
    covered = rw ledger s.covered;
  };
  keeps_resolved = KeepsResolved-AreLater m.bids m'.bids later;
  conserves = rw ledger refl;
  ids_grow = grows;
}

pub Evolves-refl : (m : Market) → IsSound m → Evolves m m
Evolves-refl m s = Evolves-bids m m s (AreLater-refl m.bids) refl refl (omega arith)

-- ===== src/Transfer/Daily.antt =====
-- The daily housekeeping: daily.go, RecomputeValuations and DailyTick.
use touchline.Common.{
  ℕ, ◌+◌, ◌≡◌, refl, ◌∙◌, inl, inr, Bool, true, false, ◌&&◌, not, Option, none, some, List, [], ◌∷◌,
  map, arith, ◌==◌, if◌then◌else◌, All, Bool-cases,
}
use touchline.Common.Int.{ℤ, eqb_ℤ}
use touchline.Transfer.Rows.{Player, Bid, Market, MarketError, valuations_refreshed}
use touchline.Transfer.Tx.{
  Tx, Verdict, done, refused, Ensures, ◌>>=◌, ◌>>◌, read, give, write, Ensures-if,
}
use touchline.Transfer.Outside.{Outside}
use touchline.Transfer.Completion.{emit}
use touchline.Transfer.Listings.{expire_stale, ai_bid_activity}
use touchline.Transfer.Invariant.{IsCurrent, IsSound, club_of, AreLater-refl}
use touchline.Transfer.Evolves.{Evolves, Evolves-refl, Evolves-bids, Evolves-trans}
use touchline.Transfer.Answers.{Ensures-then}
use touchline.Transfer.Sweep.{expire_stale-Evolves, ai_bid_activity-Evolves}

abbrev pub has_club : Option ℕ → Bool
has_club none = false
has_club (some c) = true

-- The rows of ActiveAttrPlayers whose value has changed, revalued; and how many they were.
abbrev pub is_squad_member : ℕ → Player → Bool
is_squad_member world p = p.world == world && p.is_active && has_club p.club

abbrev pub revalued : (ℕ → Option ℤ) → ℕ → Player → Player
revalued value world p = elim (value p.id) [
  | none ↦ p
  | some v ↦
      if is_squad_member world p && not (eqb_ℤ v p.market_value)
      then record p { market_value = v }
      else p
]

abbrev pub is_revalued : (ℕ → Option ℤ) → ℕ → Player → Bool
is_revalued value world p = elim (value p.id) [
  | none ↦ false
  | some v ↦ is_squad_member world p && not (eqb_ℤ v p.market_value)
]

abbrev pub count_revalued : (ℕ → Option ℤ) → ℕ → List Player → ℕ
count_revalued value world [] = 0
count_revalued value world (p ∷ players) =
    (if is_revalued value world p then 1 else 0) + count_revalued value world players

-- With nothing to change there is no event.
unfoldable pub recompute_valuations : Outside → ℕ → Tx ℕ
recompute_valuations env world = do
  n ← read (λ m. count_revalued (env.valuation m) world m.players)
  write (λ m. record m { players = map (revalued (env.valuation m) world) m.players })
  (if n == 0 then give tt else write (emit valuations_refreshed world))
  give n

-- What a transaction leaves, and its error.
abbrev pub committed_by : {A : Type 0} → Verdict A → Market → Market × Option MarketError
committed_by (done a after) m = (after, none)
committed_by (refused e) m = (m, some e)

-- The next part, unless there was an error.
abbrev pub and_then :
    Market × Option MarketError
    → (Market → Market × Option MarketError)
    → Market × Option MarketError
and_then (m, none) next = next m
and_then (m, some e) next = (m, some e)

-- Three transactions, of which each is committed before the next one.
unfoldable pub daily_tick : Outside → ℕ → Market → Market × Option MarketError
unfolding recompute_valuations
daily_tick env world m = and_then (committed_by (expire_stale env world m) m) (λ m1.
    and_then (committed_by (recompute_valuations env world m1) m1)
      (λ m2. committed_by (ai_bid_activity env world m2) m2))

revalued_keeps :
    (value : ℕ → Option ℤ) (world : ℕ) (p : Player)
    → ((revalued value world p).id ≡ p.id) × ((revalued value world p).club ≡ p.club)
revalued_keeps value world p = (ground arith, ground arith)

club_of-revalued :
    (value : ℕ → Option ℤ) (world id : ℕ) (players : List Player)
    → club_of id (map (revalued value world) players) ≡ club_of id players
club_of-revalued value world id [] = refl
club_of-revalued value world id (p ∷ players) =
    let (its_id, its_club) = revalued_keeps value world p in
    elim (Bool-cases (p.id == id)) [
      | inl hit ↦ ground (arith, hit, its_id, its_club)
      | inr miss ↦ ground (arith, miss, its_id, club_of-revalued value world id players)
    ]

IsCurrent-players :
    (ps qs : List Player) (bids : List Bid)
    → ((id : ℕ) → club_of id qs ≡ club_of id ps)
    → All (IsCurrent ps) bids
    → All (IsCurrent qs) bids
IsCurrent-players ps qs [] same h = tt
IsCurrent-players ps qs (b ∷ bids) same h =
    (λ o. same b.player ∙ h.0 o, IsCurrent-players ps qs bids same h.1)

-- An update of market values.
Evolves-values :
    (value : ℕ → Option ℤ) (world : ℕ) (m : Market)
    → IsSound m
    → Evolves m (record m { players = map (revalued value world) m.players })
Evolves-values value world m s = record {
  sound = record {
    ids_drawn = s.ids_drawn;
    ids_distinct = s.ids_distinct;
    sides_differ = s.sides_differ;
    current =
        IsCurrent-players m.players (map (revalued value world) m.players) m.bids
          (λ id. club_of-revalued value world id m.players) s.current;
    open_once = s.open_once;
    keys_drawn = s.keys_drawn;
    covered = s.covered;
  };
  keeps_resolved = λ id b e closed. (b, e, refl);
  conserves = refl;
  ids_grow = omega arith;
}

recompute_valuations-Evolves :
    (env : Outside) (world : ℕ) (m : Market)
    → IsSound m
    → Ensures (λ _. Evolves m) (recompute_valuations env world m)
unfolding recompute_valuations
recompute_valuations-Evolves env world m s =
    let r = record m { players = map (revalued (env.valuation m) world) m.players } in
    let h = Evolves-values (env.valuation m) world m s in
    Ensures-then _ _
      (Ensures-if (λ _. Evolves m) r (count_revalued (env.valuation m) world m.players == 0)
        (give tt) (write (emit valuations_refreshed world)) (λ _. h)
        (λ _. Evolves-trans h (
          Evolves-bids r (emit valuations_refreshed world r) h.sound (AreLater-refl r.bids) refl
            refl (omega arith))))
      (λ _ r' h'. h')

committed_by-Evolves :
    {A : Type 0} (v : Verdict A) (m : Market)
    → IsSound m
    → Ensures (λ _. Evolves m) v
    → Evolves m (committed_by v m).0
committed_by-Evolves (done a r) m s h = h
committed_by-Evolves (refused e) m s h = Evolves-refl m s

and_then-Evolves :
    (l : Market) (x : Market × Option MarketError) (next : Market → Market × Option MarketError)
    → Evolves l x.0
    → ((m : Market) → IsSound m → Evolves m (next m).0)
    → Evolves l (and_then x next).0
and_then-Evolves l (m, none) next h rest = Evolves-trans h (rest m h.sound)
and_then-Evolves l (m, some e) next h rest = h

pub daily_tick-Evolves :
    (env : Outside) (world : ℕ) (m : Market) → IsSound m → Evolves m (daily_tick env world m).0
unfolding daily_tick
daily_tick-Evolves env world m s =
    and_then-Evolves m (committed_by (expire_stale env world m) m)
      (λ m1.
        and_then (committed_by (recompute_valuations env world m1) m1)
          (λ m2. committed_by (ai_bid_activity env world m2) m2))
      (committed_by-Evolves (expire_stale env world m) m s (expire_stale-Evolves env world m s))
      (λ m1 s1.
        and_then-Evolves m1 (committed_by (recompute_valuations env world m1) m1)
          (λ m2. committed_by (ai_bid_activity env world m2) m2)
          (committed_by-Evolves (recompute_valuations env world m1) m1 s1
            (recompute_valuations-Evolves env world m1 s1))
          (λ m2 s2.
            committed_by-Evolves (ai_bid_activity env world m2) m2 s2
              (ai_bid_activity-Evolves env world m2 s2)))

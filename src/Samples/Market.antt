-- ===== src/Samples/Market.antt =====
-- A transfer market of two players and two clubs, for the properties of Transfer.
use touchline.Common.{
  length, ℕ, ◌≡◌, refl, true, false, none, some, [], ◌∷◌, arith, ◌==◌, ◌*◌, ◌/◌, ◌+◌, if◌then◌else◌,
}
use touchline.Common.Int.{ℤ, pos, negsuc, ◌≤ℤ◌}
use touchline.Finance.{active_wages, apply_club_wages, apply_monthly_wages}
use touchline.Finance.Totals.{apply_club_wages-IsPaid, weekly_sum}
use touchline.Finance.Redelivery.{apply_club_wages-again}
use touchline.Transfer.Rows.{
  insufficient_funds, debit, wage_key, wage_posted, Listing, open_to_offers, on_market, Contract,
  in_force, invalid_terms, Actor, Terms, countered, rejected, buying_club, Bid, Player, credit,
  other_key, Market,
}
use touchline.Transfer.Tx.{Ensures, done, refused}
use touchline.Transfer.Skips.{place_bid_tx-skipped}
use touchline.Transfer.Bids.{BidInput, check_bid, place_bid_tx}
use touchline.Transfer.Aborts.{place_ai_bids-refused}
use touchline.Transfer.Listings.{ai_terms, place_ai_bids}
use touchline.Playerpool.{release_player, release_player-keeps_bids, has_active_contract}
use touchline.Transfer.Terms.{
  Multiple, sell_accept, sell_floor, buy_max, buy_limit, accept, counter, ai_seller_decision,
  completion_explanation, validate_terms,
}
use touchline.Transfer.Outside.{Outside, Candidate}
use touchline.Transfer.Threads.{find_bid}
use touchline.Transfer.Completion.{accept_bid}
use touchline.Transfer.Respond.{respond_to_bid}
use touchline.Transfer.Invariant.{IsSound, club_of}
use touchline.Transfer.Evolves.{total_credit, total_debit}
use touchline.Transfer.Commands.{
  Command, respond, expire, run, start, after, Reaches-IsSound, Reaches-conserves,
  Reaches-keeps_resolved,
}
use touchline.Transfer.Decisions.{SellerAnswer, ai_seller_decision_lem}
use touchline.Transfer.Effects.{IsSold, accept_bid_lem}
use touchline.Transfer.Talks.{MayAnswer, respond_to_bid-MayAnswer}
use touchline.Transfer.Endings.{IsOver, respond_to_bid-IsOver}
use touchline.Transfer.Funds.{cash_in_tx, find_account, debited, credited}

abbrev percent : Multiple → ℕ
percent sell_accept = 110
percent sell_floor = 90
percent buy_max = 95
percent buy_limit = 110

abbrev scaled : ℤ → Multiple → ℤ
scaled (pos n) m = pos (n * percent m / 100)
scaled (negsuc n) m = negsuc n

-- Club 10 has a manager, number 7; club 20 is run by a policy bot, number 9.
abbrev now_at : ℕ → Outside
now_at now = record {
  now = now;
  bid_ttl = 50;
  today = 3;
  add_months = λ day months. 900;
  manager_club = λ manager. if manager == 7 then some 10 else none;
  club_fitness = λ club. some (1, true);
  is_ai_club = λ club. some (club == 20);
  policy_bot = λ club. some 9;
  mul = scaled;
  valuation = λ m player. some (pos 100000);
  wage = λ m player. pos 500;
  candidates = λ m world seller player. [];
  ai_bid_fee = λ listing value asking. value;
  with_margin = λ fee. fee;
  hooks_settle = λ m seller buyer player. true;
}

abbrev manager : Actor
manager = record { manager = 7; is_policy_bot = false }

abbrev terms_at : ℕ → Terms
terms_at fee = record {
  fee = pos fee;
  weekly_wage = pos 500;
  contract_length_months = pos 24;
  signing_bonus = pos 0;
  release_clause = none;
  sell_on_percentage = some (pos 10);
  buy_back_amount = none;
}

abbrev countered_bid : Bid
countered_bid = record {
  id = 5;
  world = 1;
  listing = none;
  player = 1;
  buyer = 20;
  seller = 10;
  status = countered;
  created_at = 80;
  rounds =
      record { round = 2; proposed_by = buying_club; terms = terms_at 96000 }
      ∷ record { round = 1; proposed_by = buying_club; terms = terms_at 90000 }
      ∷ [];
}

abbrev old_bid : Bid
old_bid = record {
  id = 6;
  world = 1;
  listing = none;
  player = 2;
  buyer = 10;
  seller = 20;
  status = rejected;
  created_at = 10;
  rounds = record { round = 1; proposed_by = buying_club; terms = terms_at 70000 } ∷ [];
}

abbrev player_at : ℕ → ℕ → Player
player_at id club = record {
  id = id;
  world = 1;
  club = some club;
  is_active = true;
  market_value = pos 100000;
}

abbrev cheap_listing : Listing
cheap_listing = record {
  id = 8;
  world = 1;
  player = 3;
  club = 10;
  asking_price = some (pos 4000);
  listing_type = open_to_offers;
  status = on_market;
}

abbrev contract : Contract
contract = record {
  id = 12;
  player = 1;
  club = 10;
  weekly_wage = pos 400;
  signing_bonus = pos 0;
  release_clause = none;
  start_date = 1;
  end_date = 700;
  status = in_force;
}

abbrev buyer : Candidate
buyer = record { club = 20; manager = 9; squad_depth = 2; cash = pos 500000 }

abbrev market : Market
market = record {
  players = player_at 1 10 ∷ player_at 2 20 ∷ player_at 3 10 ∷ [];
  listings = cheap_listing ∷ [];
  bids = countered_bid ∷ old_bid ∷ [];
  contracts = contract ∷ [];
  commitments = [];
  accounts = record { id = 30; club = 20 } ∷ [];
  ledger = record { account = 30; entry_type = credit; amount = 500000; key = other_key 1 } ∷ [];
  completed = [];
  history = [];
  events = [];
  next_id = 40;
}

market-IsSound : IsSound market
market-IsSound = record {
  ids_drawn = (omega arith, (omega arith, tt));
  ids_distinct = ((ground arith, tt), (tt, tt));
  sides_differ = (ground arith, (ground arith, tt));
  current = (λ _. refl, (λ o. ground (arith, o), tt));
  open_once = λ buyer player. ground arith;
  keys_drawn = (tt, tt);
  covered = λ account. ground arith;
}

-- The manager sells player 1, and then bids run out of time.
abbrev sale : Command
sale = respond manager 1 5 accept none

abbrev sweep : Command
sweep = expire 1

Reaches-IsSound_example : IsSound (run (now_at 200) sweep (run (now_at 100) sale market))
Reaches-IsSound_example =
    Reaches-IsSound {m = market} {n = run (now_at 200) sweep (run (now_at 100) sale market)}
      market-IsSound (after (now_at 200) sweep (after (now_at 100) sale start))

Reaches-conserves_example :
    ((account : ℕ) → pos 0 ≤ℤ cash_in_tx account (run (now_at 100) sale market).ledger)
    × (total_credit (run (now_at 100) sale market).ledger + total_debit market.ledger
        ≡ total_credit market.ledger + total_debit (run (now_at 100) sale market).ledger)
Reaches-conserves_example =
    Reaches-conserves {m = market} {n = run (now_at 100) sale market} market-IsSound
      (after (now_at 100) sale start)

Reaches-keeps_resolved_example :
    (c : Bid) × (find_bid 6 (run (now_at 100) sale market).bids ≡ some c) × (c.status ≡ rejected)
Reaches-keeps_resolved_example =
    Reaches-keeps_resolved {m = market} {n = run (now_at 100) sale market} market-IsSound
      (after (now_at 100) sale start) 6 old_bid refl refl

accept_bid_lem_example :
    (r : Market) × (seller_account : ℕ) × (accept_bid (now_at 100) 5 (pos 100000) market
      ≡ done (41, completion_explanation (pos 100000) (terms_at 96000)) r)
    × IsSold market r countered_bid 30 seller_account 96000 41
unfolding validate_terms
accept_bid_lem_example =
    accept_bid_lem (now_at 100) (pos 100000) market countered_bid
      (record { round = 2; proposed_by = buying_club; terms = terms_at 96000 }) (player_at 1 10) 30
      market-IsSound refl refl refl refl refl refl refl refl refl

ai_seller_decision_lem_example :
    SellerAnswer scaled
      (pos 95000)
      (pos 100000)
      (some (pos 120000))
      (ai_seller_decision scaled (pos 95000) (pos 100000) (some (pos 120000)))
ai_seller_decision_lem_example =
    ai_seller_decision_lem scaled (pos 95000) (pos 100000) (some (pos 120000))

respond_to_bid-MayAnswer_example :
    Ensures
      (λ a _. MayAnswer (now_at 100) market 1 10 5 accept a)
      (respond_to_bid (now_at 100) manager 1 10 5 accept none market)
respond_to_bid-MayAnswer_example =
    respond_to_bid-MayAnswer (now_at 100) manager 1 10 5 accept none market

respond_to_bid-IsOver_example :
    Ensures
      (λ _ r. IsOver 5 r)
      (respond_to_bid (now_at 100) manager 1 10 5 counter (some (terms_at 99000)) market)
respond_to_bid-IsOver_example =
    respond_to_bid-IsOver (now_at 100) manager 1 10 (some (terms_at 99000)) market countered_bid
      refl refl refl (omega arith)

place_ai_bids-refused_example :
    place_ai_bids (now_at 100) 1 8 (pos 0) (pos 500) (buyer ∷ []) market ≡ refused invalid_terms
place_ai_bids-refused_example =
    place_ai_bids-refused (now_at 100) 1 cheap_listing (player_at 3 10) 10 buyer (pos 0) (pos 500)
      market
      (record {
        listed = refl;
        for_sale = refl;
        known = refl;
        here = refl;
        owned = refl;
        active = refl;
        other_club = refl;
        first_bid = refl;
      })
      refl [] refl

release_player-keeps_bids_example :
    Ensures
      (λ _ r.
        (club_of 1 r.players ≡ none)
        × (has_active_contract 1 r.contracts ≡ false)
        × (r.bids ≡ market.bids)
        × (r.listings ≡ market.listings))
      (release_player (now_at 100) 1 market)
release_player-keeps_bids_example = release_player-keeps_bids (now_at 100) 1 market

-- The club of player 1 pays him until day 700.
abbrev payroll : Market
payroll = record market {
  commitments =
      record { contract = 12; club = 10; weekly_wage = pos 400; start_date = 1; end_date = 700 }
      ∷ [];
}

apply_club_wages-again_example :
    Ensures (λ _ r. apply_club_wages 3 17 10 r ≡ done (0, 0) r) (apply_club_wages 3 17 10 payroll)
apply_club_wages-again_example = apply_club_wages-again 3 17 10 payroll

apply_club_wages-IsPaid_example :
    (n total : ℕ) × (r : Market) × (apply_club_wages 3 17 10 payroll ≡ done (n, total) r)
    × (n ≡ length (active_wages 3 10 payroll))
    × (total ≡ 4 * weekly_sum (active_wages 3 10 payroll))
    × ((account : ℕ)
        → find_account 10 r.accounts ≡ some account
        → (other : ℕ)
        → (debited other r.ledger
            ≡ debited other payroll.ledger + (if account == other then total else 0))
          × (credited other r.ledger ≡ credited other payroll.ledger))
unfolding touchline.Common.Sort.sort_by
apply_club_wages-IsPaid_example =
    apply_club_wages-IsPaid 3 17 10 payroll (refl, tt) (tt, tt) (λ account contract. ground arith)

wages_of_ten :
    apply_monthly_wages 3 17 (10 ∷ 20 ∷ []) (record { clubs = 0; postings = 0; total = 0 }) payroll
    ≡ (
      record payroll {
        accounts = record { id = 40; club = 10 } ∷ payroll.accounts;
        ledger =
            record { account = 40; entry_type = debit; amount = 1600; key = wage_key 17 12 }
            ∷ payroll.ledger;
        events = record { kind = wage_posted; subject = 10 } ∷ [];
        next_id = 41;
      },
      some (record { clubs = 1; postings = 1; total = 1600 }),
    )
unfolding apply_monthly_wages touchline.Common.Sort.sort_by
wages_of_ten = refl

-- Club 20 has 500,000.
abbrev dear_input : BidInput
dear_input = record { listing = some 8; player = none; terms = ai_terms (pos 600000) (pos 500) }

too_dear : place_bid_tx (now_at 100) 1 20 dear_input market ≡ refused insufficient_funds
unfolding place_bid_tx
too_dear = refl

place_bid_tx-skipped_example :
    check_bid (now_at 100) 1 20 dear_input market ≡ refused insufficient_funds
place_bid_tx-skipped_example =
    place_bid_tx-skipped (now_at 100) 1 20 dear_input market insufficient_funds too_dear refl

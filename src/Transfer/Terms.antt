-- ===== src/Transfer/Terms.antt =====
-- The terms of an offer: validateTerms, termsToClauses and the explanations of helpers.go, and the
-- decisions of AI clubs, valuation.go. A multiple of a price goes through a float there: `mul` is
-- a parameter.
use touchline.Common.{ℕ, Bool, false, ◌||◌, Option, none, some, List, [], ◌∷◌, ◌++◌, if◌then◌else◌}
use touchline.Common.Int.{ℤ, pos, ltb_ℤ, leb_ℤ, ◌-ℤ◌}
use touchline.Transfer.Rows.{MarketError, Terms, Clause, sell_on, buy_back, invalid_terms}

abbrev pub max_contract_months : ℤ
max_contract_months = pos 120

abbrev pub bad_percentage : Option ℤ → Bool
bad_percentage none = false
bad_percentage (some p) = ltb_ℤ p (pos 0) || ltb_ℤ (pos 100) p

abbrev pub bad_amount : Option ℤ → Bool
bad_amount none = false
bad_amount (some a) = leb_ℤ a (pos 0)

unfoldable pub validate_terms : Terms → Option MarketError
validate_terms t =
    if leb_ℤ t.fee (pos 0)
    then some invalid_terms
    else if leb_ℤ t.weekly_wage (pos 0)
    then some invalid_terms
    else if ltb_ℤ t.contract_length_months (pos 1)
        || ltb_ℤ max_contract_months t.contract_length_months
    then some invalid_terms
    else if ltb_ℤ t.signing_bonus (pos 0)
    then some invalid_terms
    else if bad_percentage t.sell_on_percentage
    then some invalid_terms
    else if bad_amount t.buy_back_amount
    then some invalid_terms
    else none

abbrev pub sell_on_clause : Option ℤ → ℕ → List Clause
sell_on_clause none seller = []
sell_on_clause (some p) seller =
    record { clause_type = sell_on; percentage = some p; amount = none; beneficiary = seller } ∷ []

abbrev pub buy_back_clause : Option ℤ → ℕ → List Clause
buy_back_clause none seller = []
buy_back_clause (some a) seller =
    record { clause_type = buy_back; percentage = none; amount = some a; beneficiary = seller } ∷ []

abbrev pub terms_to_clauses : Terms → ℕ → List Clause
terms_to_clauses t seller =
    sell_on_clause t.sell_on_percentage seller ++ buy_back_clause t.buy_back_amount seller

-- pkg/explanation: a score and the factors that it is broken down into.
pub data FactorName : Type 0 where
  market_value fee_vs_market_value valuation counter_premium : FactorName

pub record Explanation : Type 0 where
  pub score : ℤ
  pub factors : List (FactorName × ℤ)

abbrev pub completion_explanation : ℤ → Terms → Explanation
completion_explanation value t = record {
  score = t.fee;
  factors = (market_value, value) ∷ (fee_vs_market_value, t.fee -ℤ value) ∷ [];
}

abbrev pub counter_explanation : ℤ → ℤ → Explanation
counter_explanation value target = record {
  score = target;
  factors = (valuation, value) ∷ (counter_premium, target -ℤ value) ∷ [];
}

pub data RespondAction : Type 0 where
  accept reject counter unknown_action : RespondAction

-- The multipliers: aiSellAcceptMultiple, aiSellCounterFloor, aiBuyMaxMultiple, and
-- aiBuyMaxMultiple + 0.15.
pub data Multiple : Type 0 where
  sell_accept sell_floor buy_max buy_limit : Multiple

abbrev pub ai_max_rounds : ℕ
ai_max_rounds = 3

abbrev pub sell_target : ℤ → Option ℤ → ℤ
sell_target target none = target
sell_target target (some asking) = if ltb_ℤ target asking then asking else target

module _ (mul : ℤ → Multiple → ℤ) where
  abbrev pub ai_seller_decision : ℤ → ℤ → Option ℤ → RespondAction × ℤ
  ai_seller_decision fee value asking =
      let target = sell_target (mul value sell_accept) asking in
      if leb_ℤ target fee
      then (accept, target)
      else if leb_ℤ (mul value sell_floor) fee
      then (counter, target)
      else (reject, target)

  abbrev pub ai_buyer_decision : ℤ → ℤ → RespondAction × ℤ
  ai_buyer_decision fee value =
      let target = mul value buy_max in
      if leb_ℤ fee target
      then (accept, target)
      else if leb_ℤ fee (mul value buy_limit)
      then (counter, target)
      else (reject, target)

-- ===== src/Transfer/Decisions.antt =====
-- What an AI seller decides, and what explanations add up to: valuation.go and helpers.go.
use touchline.Common.{◌≡◌, inl, inr, true, Option, none, some, List, [], ◌∷◌, arith, Bool-cases}
use touchline.Common.Int.{ℤ, pos, negsuc, ◌+ℤ◌, ◌-ℤ◌, ◌≤ℤ◌, ltb_ℤ, leb_ℤ}
use touchline.Transfer.Rows.{Terms}
use touchline.Transfer.Terms.{
  RespondAction, accept, reject, counter, unknown_action, Multiple, sell_accept, sell_floor,
  sell_target, ai_seller_decision, FactorName, completion_explanation, counter_explanation,
}

-- a < b on the integers.
abbrev pub IsBelow : ℤ → ℤ → Type 0
IsBelow a b = ltb_ℤ a b ≡ true

abbrev pub MeetsAsking : ℤ → Option ℤ → Type 0
MeetsAsking price none = Unit
MeetsAsking price (some asking) = asking ≤ℤ price

-- What the seller's answer to a fee says of the fee and of the price that it holds out for.
abbrev pub SellerAnswer : (ℤ → Multiple → ℤ) → ℤ → ℤ → Option ℤ → RespondAction × ℤ → Type 0
SellerAnswer mul fee value asking (accept, target) =
    (mul value sell_accept ≤ℤ fee) × MeetsAsking fee asking
SellerAnswer mul fee value asking (counter, target) =
    IsBelow fee target
    × (mul value sell_floor ≤ℤ fee)
    × (mul value sell_accept ≤ℤ target)
    × MeetsAsking target asking
SellerAnswer mul fee value asking (reject, target) =
    IsBelow fee target × IsBelow fee (mul value sell_floor)
SellerAnswer mul fee value asking (unknown_action, target) = ⊥

leb_ℤ→le : (a b : ℤ) → leb_ℤ a b ≡ true → a ≤ℤ b
leb_ℤ→le a b h = ground (arith, h)

meets_more : (a b : ℤ) (asking : Option ℤ) → a ≤ℤ b → MeetsAsking a asking → MeetsAsking b asking
meets_more a b none h k = tt
meets_more a b (some asking) h k = omega (arith, h, k)

sell_target_above :
    (price : ℤ) (asking : Option ℤ)
    → (price ≤ℤ sell_target price asking) × MeetsAsking (sell_target price asking) asking
sell_target_above price none = (ground arith, tt)
sell_target_above price (some asking) = (ground arith, ground arith)

module _ (mul : ℤ → Multiple → ℤ) (fee value : ℤ) where
  -- Whatever a multiple of a price is: an AI seller accepts only a fee of at least the accepting
  -- multiple of the value and of the asking price; it counters only with a higher price, which is
  -- at least both, on a fee not below its floor; it rejects only below its floor.
  pub ai_seller_decision_lem :
      (asking : Option ℤ)
      → SellerAnswer mul fee value asking (ai_seller_decision mul fee value asking)
  ai_seller_decision_lem asking =
      let target = sell_target (mul value sell_accept) asking in
      let (above, meets) = sell_target_above (mul value sell_accept) asking in
      elim (Bool-cases (leb_ℤ target fee)) [
        | inl enough ↦ rw enough (
          ground (arith, above, enough),
          meets_more target fee asking (leb_ℤ→le target fee enough) meets,
        )
        | inr short ↦ elim (Bool-cases (leb_ℤ (mul value sell_floor) fee)) [
          | inl near ↦ rw (short, near) (ground (arith, short), ground (arith, near), above, meets)
          | inr low ↦ rw (short, low) (ground (arith, short), ground (arith, low))
        ]
      ]

abbrev pub sum_of : List (FactorName × ℤ) → ℤ
sum_of [] = pos 0
sum_of ((_, delta) ∷ factors) = delta +ℤ sum_of factors

minus_plus : (a b : ℤ) → b +ℤ ((a -ℤ b) +ℤ pos 0) ≡ a
unfolding ◌+ℤ◌
minus_plus (pos a) (pos b) = ground arith
minus_plus (pos a) (negsuc b) = ground arith
minus_plus (negsuc a) (pos b) = ground arith
minus_plus (negsuc a) (negsuc b) = ground arith

-- The factors of both explanations add up to the score, whatever the value: that of a completed
-- transfer, scored at its fee, and that of a counter, scored at the price asked.
pub explanations_add_up :
    (value target : ℤ) (t : Terms)
    → (sum_of (completion_explanation value t).factors ≡ (completion_explanation value t).score)
      × (sum_of (counter_explanation value target).factors
          ≡ (counter_explanation value target).score)
explanations_add_up value target t = (minus_plus t.fee value, minus_plus target value)

-- ===== src/Transfer/Tx.antt =====
-- A transaction of the transfer engine: it ends with an answer and the rows it leaves, or with an
-- error, and then its rows are rolled back (the deferred tx.Rollback).
use touchline.Common.{Bool, true, false, Option, none, some, ◌≡◌, refl, if◌then◌else◌}
use touchline.Transfer.Rows.{MarketError, Market}

pub data Verdict (A : Type 0) : Type 0 where
  done : A → Market → Verdict A
  refused : MarketError → Verdict A

abbrev pub Tx : Type 0 → Type 0
Tx A = Market → Verdict A

module _ {A : Type 0} where
  abbrev pub give : A → Tx A
  give a m = done a m

  abbrev pub refuse : MarketError → Tx A
  refuse e m = refused e

  abbrev pub read : (Market → A) → Tx A
  read f m = done (f m) m

  abbrev pub need : Option A → MarketError → Tx A
  need none e = refuse e
  need (some a) e = give a

infixl 5 ◌>>=◌ ◌>>◌
abbrev pub ◌>>=◌ : {A B : Type 0} → Tx A → (A → Tx B) → Tx B
(t >>= k) m = elim (t m) [ done a after ↦ k a after | refused e ↦ refused e ]

abbrev pub ◌>>◌ : {A B : Type 0} → Tx A → Tx B → Tx B
t >> u = t >>= λ _. u

-- An early return with an error.
abbrev pub refuse_when : Bool → MarketError → Tx (Unit {0})
refuse_when true e m = refused e
refuse_when false e m = done tt m

abbrev pub write : (Market → Market) → Tx (Unit {0})
write f m = done tt (f m)

-- The rows after the transaction has committed or rolled back.
abbrev pub settled : {A : Type 0} → Verdict A → Market → Market
settled (done a after) m = after
settled (refused e) m = m

-- What holds of the answer and the rows of a transaction that goes through.
abbrev pub Ensures : {A : Type 0} → (A → Market → Type 0) → Verdict A → Type 0
Ensures Q (done a m) = Q a m
Ensures Q (refused e) = Unit {0}

module _ {A B : Type 0} (P : A → Market → Type 0) (Q : B → Market → Type 0) where
  pub Ensures-bind :
      (v : Verdict A) (k : A → Tx B)
      → Ensures P v
      → ((a : A) (m : Market) → P a m → Ensures Q (k a m))
      → Ensures Q (elim v [ done a after ↦ k a after | refused e ↦ refused e ])
  Ensures-bind (done a m) k h rest = rest a m h
  Ensures-bind (refused e) k h rest = tt

pub Ensures-weaken :
    {A : Type 0} (P Q : A → Market → Type 0) (v : Verdict A)
    → Ensures P v
    → ((a : A) (m : Market) → P a m → Q a m)
    → Ensures Q v
Ensures-weaken P Q (done a m) h follows = follows a m h
Ensures-weaken P Q (refused e) h follows = tt

module _ {B : Type 0} (Q : B → Market → Type 0) (m : Market) where
  pub Ensures-need :
      {A : Type 0} (o : Option A) (e : MarketError) (k : A → Tx B)
      → ((a : A) → o ≡ some a → Ensures Q (k a m))
      → Ensures Q ((need o e >>= k) m)
  Ensures-need none e k rest = tt
  Ensures-need (some a) e k rest = rest a refl

  pub Ensures-passed :
      (refusal : Bool) (e : MarketError) (k : Tx B)
      → (refusal ≡ false → Ensures Q (k m))
      → Ensures Q ((refuse_when refusal e >> k) m)
  Ensures-passed true e k rest = tt
  Ensures-passed false e k rest = rest refl

  pub Ensures-if :
      (test : Bool) (t u : Tx B)
      → (test ≡ true → Ensures Q (t m))
      → (test ≡ false → Ensures Q (u m))
      → Ensures Q ((if test then t else u) m)
  Ensures-if true t u on_true on_false = on_true refl
  Ensures-if false t u on_true on_false = on_false refl

-- What runs after a part that has gone through.
pub bind_done :
    {A B : Type 0} (v : Verdict A) (k : A → Tx B) (a : A) (m : Market)
    → v ≡ done a m
    → (elim v as (λ _. Verdict B) [ done x after ↦ k x after | refused e ↦ refused e ]) ≡ k a m
bind_done v k a m e = rw e refl

-- ===== src/Base/Runs.antt =====
-- How a call in C ends: it returns, or it makes an access that C leaves undefined (`fault`). The
-- third outcome is the model's own: a loop's fuel has run out, which the theorems exclude.
use mathlib.Core.Path.{◌∙◌, sym, subst, ap, ◌≡◌, refl}
use mathlib.Core.Bool.{Bool, true, false}
use mysqlproxy.Base.Tests.{if◌then◌else◌}

pub data Run {ℓ} (A : Type ℓ) : Type ℓ where
  ok : A → Run A
  fault : Run A
  out_of_fuel : Run A

infixl 5 ◌>>=◌
abbrev pub ◌>>=◌ {ℓ κ} : {A : Type ℓ} {B : Type κ} → Run A → (A → Run B) → Run B
ok a >>= k = k a
fault >>= k = fault
out_of_fuel >>= k = out_of_fuel

-- Total correctness: the call returns, and what it returns satisfies `P`.
pub data Returns {ℓ κ} {A : Type ℓ} (P : A → Type κ) : Run A → Type (ℓ ⊔ κ) where
  returns : {a : A} → P a → Returns P (ok a)

module _ {ℓ κ} {A : Type ℓ} {P : A → Type κ} where
  pub Returns-then {ℓ' κ'} :
      {B : Type ℓ'} {Q : B → Type κ'} {m : Run A} {k : A → Run B}
      → Returns P m
      → ((a : A) → P a → Returns Q (k a))
      → Returns Q (m >>= k)
  Returns-then (returns p) next = next _ p

  pub Returns-weaken {κ'} :
      {Q : A → Type κ'} {m : Run A} → Returns P m → ((a : A) → P a → Q a) → Returns Q m
  Returns-weaken (returns p) f = returns (f _ p)

  pub Returns-branch :
      {x y : Run A} (b : Bool)
      → (b ≡ true → Returns P x)
      → (b ≡ false → Returns P y)
      → Returns P (if b then x else y)
  Returns-branch true p q = p refl
  Returns-branch false p q = q refl

  pub Returns-inv : {m : Run A} → Returns P m → (a : A) × (m ≡ ok a) × P a
  Returns-inv (returns p) = (_, refl, p)

-- two continuations that agree on what a run returns
pub then-cong {ℓ κ} :
    {A : Type ℓ} {B : Type κ} {f g : A → Run B} (m : Run A)
    → ((a : A) → m ≡ ok a → f a ≡ g a)
    → (m >>= f) ≡ (m >>= g)
then-cong (ok a) h = h a refl
then-cong fault h = refl
then-cong out_of_fuel h = refl

pub then-ok {ℓ} :
    {A : Type ℓ} {f : A → Run A} (m : Run A) → ((a : A) → m ≡ ok a → f a ≡ ok a) → (m >>= f) ≡ m
then-ok (ok a) h = h a refl
then-ok fault h = refl
then-ok out_of_fuel h = refl

-- the value of a run
abbrev pub value_or {ℓ} : {A : Type ℓ} → A → Run A → A
value_or d (ok a) = a
value_or d fault = d
value_or d out_of_fuel = d

pub ok-inj {ℓ} : {A : Type ℓ} {a b : A} → ◌≡◌ {A = Run A} (ok a) (ok b) → a ≡ b
ok-inj {a} h = ap (value_or a) h

-- The call ends: it faults, or it returns and what it returns satisfies `P`.
pub data Ends {ℓ κ} {A : Type ℓ} (P : A → Type κ) : Run A → Type (ℓ ⊔ κ) where
  faults : Ends P fault
  ends : {a : A} → P a → Ends P (ok a)

module _ {ℓ κ} {A : Type ℓ} {P : A → Type κ} where
  pub Ends-then {ℓ' κ'} :
      {B : Type ℓ'} {Q : B → Type κ'} {m : Run A} {k : A → Run B}
      → Ends P m
      → ((a : A) → P a → Ends Q (k a))
      → Ends Q (m >>= k)
  Ends-then faults next = faults
  Ends-then (ends p) next = next _ p

  pub Ends-weaken {κ'} : {Q : A → Type κ'} {m : Run A} → Ends P m → ((a : A) → P a → Q a) → Ends Q m
  Ends-weaken faults f = faults
  Ends-weaken (ends p) f = ends (f _ p)

  pub Ends-branch :
      {x y : Run A} (b : Bool)
      → (b ≡ true → Ends P x)
      → (b ≡ false → Ends P y)
      → Ends P (if b then x else y)
  Ends-branch true p q = p refl
  Ends-branch false p q = q refl

  pub Returns-Ends : {m : Run A} → Returns P m → Ends P m
  Returns-Ends (returns p) = ends p

-- what a call returns that is known to return
pub Returns-at {ℓ κ} :
    {A : Type ℓ} {P : A → Type κ} {m : Run A} {a : A} → Returns P m → m ≡ ok a → P a
Returns-at {P} r e = let (b, e', p) = Returns-inv r in subst P (ok-inj (sym e' ∙ e)) p

-- a run of two steps that returns
pub then-inv {ℓ κ} :
    {A : Type ℓ} {B : Type κ} (m : Run A) (k : A → Run B) {b : B}
    → (m >>= k) ≡ ok b
    → (a : A) × (m ≡ ok a) × (k a ≡ ok b)
then-inv (ok a) k h = (a, refl, h)
then-inv fault k h = cc
then-inv out_of_fuel k h = cc

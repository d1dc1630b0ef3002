-- ===== src/Base/Faults.antt =====
-- How a C++ function can end: with a value, or by one of the faults below.
use mathlib.Core.Path.{◌≡◌, refl}
use Prim.Native.Nat.{ℕ}

-- `exception`: a C++ exception leaves the function; `exit_with`: it calls `exit`;
-- `undefined`: it does what C++ leaves undefined (a null or stray access, `% 0`);
-- `blocked`: it waits for a completion that never comes; `out_of_fuel`: the fuel of the model ran
-- out, which the theorems on totality exclude.
pub data Fault : Type 0 where
  exception undefined blocked out_of_fuel : Fault
  exit_with : ℕ → Fault

pub data Outcome {ℓ} (A : Type ℓ) : Type ℓ where
  ok : A → Outcome A
  fail : Fault → Outcome A

infixl 5 ◌>>=◌
abbrev pub ◌>>=◌ {ℓ κ} : {A : Type ℓ} {B : Type κ} → Outcome A → (A → Outcome B) → Outcome B
fail fault >>= k = fail fault
ok a >>= k = k a

pub ok_inj {ℓ} : {A : Type ℓ} {a b : A} → ok a ≡ ok b → a ≡ b
ok_inj e = cc

-- Where the code returns, the property holds of the state behind it.
abbrev pub Gives : {A W : Type 0} → (W → Type 0) → Outcome (A × W) → Type 0
Gives P (ok (a, w)) = P w
Gives P (fail fault) = Unit

pub Gives-bind :
    {A B W : Type 0} (P : W → Type 0) (o : Outcome (A × W)) (k : A × W → Outcome (B × W))
    → Gives P o
    → ((a : A) (w : W) → P w → Gives P (k (a, w)))
    → Gives P (o >>= k)
Gives-bind P (ok (a, w)) k h next = next a w h
Gives-bind P (fail fault) k h next = tt

pub bind_assoc {ℓ} :
    {A B C : Type ℓ} (m : Outcome A) (f : A → Outcome B) (g : B → Outcome C)
    → (m >>= f >>= g) ≡ (m >>= λ x. f x >>= g)
bind_assoc (ok a) f g = refl
bind_assoc (fail fault) f g = refl

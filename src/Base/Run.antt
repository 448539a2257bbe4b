-- ===== src/Base/Run.antt =====
-- The outcome of a piece of C++ that changes a state `S`: it returns a value and the new state, or
-- it commits a memory error (a write past a buffer, a use of freed memory), or a loop is cut off.
use mathlib.Core.Path.{◌≡◌, refl, subst}
use mathlib.Core.Bool.{Bool, true, false}
use edps_plc_data_acquisitio.Base.Tests.{if◌then◌else◌}

pub data Run (S A : Type 0) : Type 0 where
  ok : A → S → Run S A
  fault : Run S A
  out_of_fuel : Run S A

abbrev pub M : Type 0 → Type 0 → Type 0
M S A = S → Run S A

module _ {S : Type 0} where
  abbrev pub pure : {A : Type 0} → A → M S A
  pure a s = ok a s

  abbrev pub and_then : {A B : Type 0} → Run S A → (A → M S B) → Run S B
  and_then (ok a s) k = k a s
  and_then fault k = fault
  and_then out_of_fuel k = out_of_fuel

  infixl 5 ◌>>=◌ ◌>>◌
  abbrev pub ◌>>=◌ : {A B : Type 0} → M S A → (A → M S B) → M S B
  m >>= k = λ s. and_then (m s) k

  abbrev pub ◌>>◌ : {A B : Type 0} → M S A → M S B → M S B
  m >> n = m >>= λ _. n

  abbrev pub get : M S S
  get s = ok s s

  abbrev pub modify : (S → S) → M S (Unit {0})
  modify f s = ok tt (f s)

  abbrev pub bad : {A : Type 0} → M S A
  bad s = fault

-- Total correctness: the run returns, and `P` holds.
pub data Returns {S A : Type 0} (P : A → S → Type 0) : Run S A → Type 0 where
  returns : {a : A} {s : S} → P a s → Returns P (ok a s)

-- The run is not cut off by the fuel of the model: it returns with `P`, or commits a memory error.
pub data Ends {S A : Type 0} (P : A → S → Type 0) : Run S A → Type 0 where
  ended : {a : A} {s : S} → P a s → Ends P (ok a s)
  broke : Ends P fault

module _ {S A B : Type 0} {P : A → S → Type 0} {Q : B → S → Type 0} where
  pub bind-Ends :
      {r : Run S A} {k : A → M S B}
      → Ends P r
      → ((a : A) (s : S) → P a s → Ends Q (k a s))
      → Ends Q (and_then r k)
  bind-Ends (ended p) next = next _ _ p
  bind-Ends broke next = broke

  pub bind-Returns :
      {r : Run S A} {k : A → M S B}
      → Returns P r
      → ((a : A) (s : S) → P a s → Returns Q (k a s))
      → Returns Q (and_then r k)
  bind-Returns (returns p) next = next _ _ p

module _ {S A : Type 0} {P Q : A → S → Type 0} where
  pub map-Returns : {r : Run S A} → Returns P r → ((a : A) (s : S) → P a s → Q a s) → Returns Q r
  map-Returns (returns p) f = returns (f _ _ p)

abbrev OnOk : {S A : Type 0} → (A → S → Type 0) → Run S A → Type 0
OnOk P (ok a s) = P a s
OnOk P fault = Unit {0}
OnOk P out_of_fuel = Unit {0}

on_ok : {S A : Type 0} {P : A → S → Type 0} {r : Run S A} → Ends P r → OnOk P r
on_ok (ended p) = p
on_ok broke = tt

module _ {S A : Type 0} {P : A → S → Type 0} where
  pub map-Ends :
      {Q : A → S → Type 0} {r : Run S A} → Ends P r → ((a : A) (s : S) → P a s → Q a s) → Ends Q r
  map-Ends (ended p) f = ended (f _ _ p)
  map-Ends broke f = broke

  -- A run that ends with `P` and returns has `P`.
  pub Ends-ok : {r : Run S A} {a : A} {s : S} → Ends P r → r ≡ ok a s → P a s
  Ends-ok h e = subst (OnOk P) e (on_ok h)

  pub Returns-ok : {r : Run S A} → Returns P r → (a : A) × (s : S) × (r ≡ ok a s) × P a s
  Returns-ok (returns p) = (_, _, refl, p)

  pub Returns-Ends : {r : Run S A} → Returns P r → Ends P r
  Returns-Ends (returns p) = ended p

module _ {S A : Type 0} {P : A → S → Type 0} {s : S} where
  pub if_Ends :
      (b : Bool) (x y : M S A)
      → (b ≡ true → Ends P (x s))
      → (b ≡ false → Ends P (y s))
      → Ends P ((if b then x else y) s)
  if_Ends true x y t f = t refl
  if_Ends false x y t f = f refl

  pub if_Returns :
      (b : Bool) (x y : M S A)
      → (b ≡ true → Returns P (x s))
      → (b ≡ false → Returns P (y s))
      → Returns P ((if b then x else y) s)
  if_Returns true x y t f = t refl
  if_Returns false x y t f = f refl

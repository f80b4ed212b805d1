-- ===== src/Prelude/Calls.antt =====
-- What a call may do: return, throw a std::exception, or use a null pointer.
use mathlib.Core.Path.{◌≡◌, refl, subst}
use mathlib.Core.Option.{Option, none, some}

pub data Result {ℓ} (A : Type ℓ) : Type ℓ where
  ok : A → Result A
  throw : Result A
  fault : Result A

infixl 5 ◌>>=◌
abbrev pub ◌>>=◌ {ℓ κ} :
    {X : Type ℓ} {Y : Type κ} (call : Result X) (next : X → Result Y) → Result Y
throw >>= next = throw
fault >>= next = fault
ok x >>= next = next x

infixl 5 ◌>>◌
abbrev pub ◌>>◌ {κ} : {Y : Type κ} (call : Result (Unit {0})) (next : Result Y) → Result Y
call >> next = call >>= λ _. next

-- try { m } catch (std::exception&) { h }: a fault is no exception.
abbrev pub catch {ℓ} : {A : Type ℓ} → Result A → Result A → Result A
catch (ok a) h = ok a
catch throw h = h
catch fault h = fault

-- Reading through a pointer.
abbrev pub deref {ℓ} : {A : Type ℓ} → Option A → Result A
deref none = fault
deref (some a) = ok a

abbrev pub or_throw {ℓ} : {A : Type ℓ} → Option A → Result A
or_throw none = throw
or_throw (some a) = ok a

-- What a call that returns has come through.
pub >>=-eq-ok {ℓ κ} :
    {X : Type ℓ} {Y : Type κ} (call : Result X) (next : X → Result Y) {y : Y}
    → (call >>= next) ≡ ok y
    → (x : X) × (call ≡ ok x) × (next x ≡ ok y)
>>=-eq-ok throw next e = cc
>>=-eq-ok fault next e = cc
>>=-eq-ok (ok x) next e = (x, refl, e)

pub >>=-congr {ℓ κ} :
    {X : Type ℓ} {Y : Type κ} (call : Result X) {f g : X → Result Y}
    → ((x : X) → f x ≡ g x)
    → (call >>= f) ≡ (call >>= g)
>>=-congr throw h = refl
>>=-congr fault h = refl
>>=-congr (ok x) h = h x

-- What holds of the value of a call that returns.
abbrev pub Ensures {ℓ κ} : {A : Type ℓ} → (A → Type κ) → Result A → Type κ
Ensures P (ok a) = P a
Ensures P throw = Unit
Ensures P fault = Unit

pub Ensures-bind {ℓ κ μ} :
    {A : Type ℓ} {B : Type κ} (Q : B → Type μ) (m : Result A) (f : A → Result B)
    → ((a : A) → m ≡ ok a → Ensures Q (f a))
    → Ensures Q (m >>= f)
Ensures-bind Q (ok a) f h = h a refl
Ensures-bind Q throw f h = tt
Ensures-bind Q fault f h = tt

pub Ensures-ok {ℓ κ} :
    {A : Type ℓ} (P : A → Type κ) (r : Result A) {a : A} → Ensures P r → r ≡ ok a → P a
Ensures-ok P (ok b) h e = subst (λ x. Ensures P x) e h
Ensures-ok P throw h e = cc
Ensures-ok P fault h e = cc

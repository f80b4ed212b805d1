-- ===== src/Exec.antt =====
-- Handlers that change the system. A call takes the state and gives back its result, which may be a
-- throw or a fault, beside the state behind it: what a handler has written stays when it throws.
pub mod Keeps
use nmdaemon.Prelude.{Result, ok, throw, fault}

abbrev pub Exec {ℓ} : Type ℓ → Type ℓ → Type ℓ
Exec S A = S → Result A × S

unfoldable pub lift {ℓ} : {S A : Type ℓ} → Result A → Exec S A
lift result before = (result, before)

unfoldable pub pure {ℓ} : {S A : Type ℓ} → A → Exec S A
pure value before = (ok value, before)

-- The rest of a block behind a call with this result: it runs where the call has returned.
abbrev pub behind {ℓ} : {S A B : Type ℓ} → Result A → (A → Exec S B) → Exec S B
behind throw rest now = (throw, now)
behind fault rest now = (fault, now)
behind (ok value) rest now = rest value now

infixl 5 ◌>>=◌
unfoldable pub ◌>>=◌ {ℓ} : {S A B : Type ℓ} → Exec S A → (A → Exec S B) → Exec S B
unfolding lift pure
◌>>=◌ first rest before = let (result, now) = first before in behind result rest now

infixl 5 ◌>>◌
abbrev pub ◌>>◌ {ℓ} : {S A B : Type ℓ} → Exec S A → Exec S B → Exec S B
first >> second = first >>= λ _. second

-- ===== src/Exec/Keeps.antt =====
-- What calls keep of the state: a rule for each way to make a call. A fault leaves no state.
use nmdaemon.Exec.{Exec, lift, pure, behind, ◌>>=◌}
use nmdaemon.Prelude.{◌≡◌, refl, Bool, true, false, Result, ok, throw, fault, if◌then◌else◌}

-- `P` of the state behind a call that has returned or thrown.
abbrev pub After {ℓ} : {S : Type ℓ} → (S → Type ℓ) → {A : Type ℓ} → Result A × S → Type ℓ
After P (fault, now) = Unit
After P (throw, now) = P now
After P (ok value, now) = P now

pub record Keeps {ℓ} {S : Type ℓ} (P : S → Type ℓ) {A : Type ℓ} (call : Exec S A) : Type ℓ where
  pub at : (before : S) → P before → After P (call before)

module _ {ℓ} {S : Type ℓ} {P : S → Type ℓ} {A B : Type ℓ} where
  After-behind :
      (result : Result A) (rest : A → Exec S B) (now : S)
      → After P (result, now)
      → ((value : A) → Keeps P (rest value))
      → After P (behind result rest now)
  After-behind fault rest now holds kept = tt
  After-behind throw rest now holds kept = holds
  After-behind (ok value) rest now holds kept = (kept value).at now holds

  pub Keeps-bind :
      (first : Exec S A) (rest : A → Exec S B)
      → Keeps P first
      → ((value : A) → Keeps P (rest value))
      → Keeps P (first >>= rest)
  unfolding ◌>>=◌
  Keeps-bind first rest begun kept = record {
    at = λ before holds.
        After-behind (first before).0 rest (first before).1 (begun.at before holds) kept;
  }

pub After-result {ℓ} :
    {S : Type ℓ} (P : S → Type ℓ) {A : Type ℓ} (result : Result A) (now : S)
    → P now
    → After P (result, now)
After-result P fault now holds = tt
After-result P throw now holds = holds
After-result P (ok value) now holds = holds

module _ {ℓ} {S : Type ℓ} {P : S → Type ℓ} {A : Type ℓ} where
  pub Keeps-lift : (result : Result A) → Keeps P (lift result)
  unfolding lift
  Keeps-lift result = record { at = After-result P result }

  pub Keeps-pure : (value : A) → Keeps P (pure value)
  unfolding pure
  Keeps-pure value = record { at = After-result P (ok value) }

  -- Each branch may use its test.
  pub Keeps-test :
      (test : Bool) (one two : Exec S A)
      → (test ≡ true → Keeps P one)
      → (test ≡ false → Keeps P two)
      → Keeps P (if test then one else two)
  Keeps-test false one two kept other = other refl
  Keeps-test true one two kept other = kept refl

  pub Keeps-if :
      (test : Bool) (one two : Exec S A)
      → Keeps P one
      → Keeps P two
      → Keeps P (if test then one else two)
  Keeps-if test one two kept other = Keeps-test test one two (λ _. kept) (λ _. other)

pub ruleset keeps_rules = (Keeps-bind, Keeps-if, Keeps-lift, Keeps-pure)

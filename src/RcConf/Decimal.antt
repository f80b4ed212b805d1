-- ===== src/RcConf/Decimal.antt =====
-- The digits that std::to_string writes.
use nmdaemon.Prelude.{
  ℕ, zero, suc, ◌+◌, ◌/◌, ◌%◌, ◌<◌, ◌≤◌, ◌≡◌, refl, arith, Bool, true, not, [], ◌∷◌, all, ltb, ◌==◌,
  if_elim,
}
use nmdaemon.RcConf.{digits, decimal}
use nmdaemon.Text.{Text, Lacks}

module _ (p : ℕ → Bool) (of_digit : (v : ℕ) → v < 10 → p (b'0' + v) ≡ true) where
  all-digits : (k n : ℕ) (s : Text) → all p s ≡ true → all p (digits k n s) ≡ true
  unfolding digits
  all-digits zero n s h = h
  all-digits (suc k) n s h =
      if_elim (λ t. all p t ≡ true) (ltb n 10) (λ e. ground (arith, of_digit n (ground arith), h))
        (λ e.
          all-digits k (n / 10) ((b'0' + n % 10) ∷ s)
            (ground (arith, of_digit (n % 10) (omega arith), h)))

  -- What holds of every digit holds of a number's bytes.
  pub all-decimal : (n : ℕ) → all p (decimal n) ≡ true
  unfolding decimal
  all-decimal n = all-digits 20 n [] refl

-- The bytes of numbers of one, two and three digits.
pub decimal_one : (n : ℕ) → n < 10 → decimal n ≡ (b'0' + n) ∷ []
unfolding decimal digits
decimal_one n h = ground arith

pub decimal_two : (n : ℕ) → 10 ≤ n → n < 100 → decimal n ≡ (b'0' + n / 10) ∷ (b'0' + n % 10) ∷ []
unfolding decimal digits
decimal_two n h k = ground arith

pub decimal_three :
    (n : ℕ)
    → 100 ≤ n
    → n < 1000
    → decimal n ≡ (b'0' + n / 10 / 10) ∷ (b'0' + n / 10 % 10) ∷ (b'0' + n % 10) ∷ []
unfolding decimal digits
decimal_three n h k = ground arith

-- A number holds no byte that is no digit.
pub decimal-Lacks : (d n : ℕ) → (d < b'0') → Lacks d (decimal n)
decimal-Lacks d n h = all-decimal (λ c. not (c == d)) (λ v l. ground arith) n

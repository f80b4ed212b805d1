-- ===== src/Bits.antt =====
-- Laws of `&` and `^` at variables, for words of every width.
use Prim.Native.Nat.{
  digits, differ, bit_and, bit_xor, bit_and-bitwise, bit_xor-bitwise, min, max, bit_or,
  bit_or-bitwise,
}
use native.Mathlib.Nat.{pow-suc}
use nmdaemon.Prelude.{ℕ, zero, suc, ◌+◌, ◌*◌, ◌/◌, ◌%◌, ◌^◌, ◌≤◌, ◌<◌, ◌≡◌, refl, sym, ◌∙◌, arith}

-- An operation on binary digits: `f` joins two digits, and `z` stands for `f 0` on a whole word.
module _ (z : ℕ → ℕ) (f : ℕ → ℕ → ℕ) (z_step : (b : ℕ) → z b ≡ z (b / 2) * 2 + f 0 (b % 2)) where
  digits-fuel : (n m a b : ℕ) → a ≤ n → a ≤ m → digits z f n a b ≡ digits z f m a b
  digits-fuel zero zero a b p q = refl
  digits-fuel zero (suc m) zero b p q = refl
  digits-fuel zero (suc m) (suc a) b p q = absurd (omega arith)
  digits-fuel (suc n) zero zero b p q = refl
  digits-fuel (suc n) zero (suc a) b p q = absurd (omega arith)
  digits-fuel (suc n) (suc m) zero b p q = refl
  digits-fuel (suc n) (suc m) (suc a) b p q =
      omega (arith, digits-fuel n m (suc a / 2) (b / 2) (omega arith) (omega arith))

  digits_step :
      (a b : ℕ) → digits z f a a b ≡ digits z f (a / 2) (a / 2) (b / 2) * 2 + f (a % 2) (b % 2)
  digits_step zero b = z_step b
  digits_step (suc a) b =
      omega (arith, digits-fuel a (suc a / 2) (suc a / 2) (b / 2) (omega arith) (omega arith))

pub bit_and_step : (a b : ℕ) → bit_and a b ≡ bit_and (a / 2) (b / 2) * 2 + min (a % 2) (b % 2)
bit_and_step a b = omega (
  arith,
  bit_and-bitwise a b,
  bit_and-bitwise (a / 2) (b / 2),
  digits_step (λ c. 0) min (λ c. omega arith) a b,
)

pub bit_xor_step : (a b : ℕ) → bit_xor a b ≡ bit_xor (a / 2) (b / 2) * 2 + differ (a % 2) (b % 2)
bit_xor_step a b = omega (
  arith,
  bit_xor-bitwise a b,
  bit_xor-bitwise (a / 2) (b / 2),
  digits_step (λ c. c) differ (λ c. omega arith) a b,
)

differ-eq_zero : (x y : ℕ) → differ x y ≡ 0 → x ≡ y
differ-eq_zero zero y h = sym h
differ-eq_zero (suc x) zero h = h
differ-eq_zero (suc x) (suc y) h = omega (arith, differ-eq_zero x y h)

differ_self : (x : ℕ) → differ x x ≡ 0
differ_self zero = refl
differ_self (suc x) = differ_self x

bit_xor-halves : (a b : ℕ) → bit_xor a b ≡ 0 → bit_xor (a / 2) (b / 2) ≡ 0
bit_xor-halves a b e = omega (arith, bit_xor_step a b)

bit_xor-parity : (a b : ℕ) → bit_xor a b ≡ 0 → a % 2 ≡ b % 2
bit_xor-parity a b e = differ-eq_zero (a % 2) (b % 2) (omega (arith, bit_xor_step a b))

-- `(a ^ b) == 0` is the test `a == b`.
bit_xor-eq_zero_fuel : (n a b : ℕ) → a + b ≤ n → bit_xor a b ≡ 0 → a ≡ b
bit_xor-eq_zero_fuel zero a b h e = omega arith
bit_xor-eq_zero_fuel (suc n) zero zero h e = refl
bit_xor-eq_zero_fuel (suc n) zero (suc b) h e = omega (
  arith,
  bit_xor-eq_zero_fuel n 0 (suc b / 2) (omega arith) (bit_xor-halves 0 (suc b) e),
  bit_xor-parity 0 (suc b) e,
)
bit_xor-eq_zero_fuel (suc n) (suc a) b h e = omega (
  arith,
  bit_xor-eq_zero_fuel n (suc a / 2) (b / 2) (omega arith) (bit_xor-halves (suc a) b e),
  bit_xor-parity (suc a) b e,
)

pub bit_xor-eq_zero : (a b : ℕ) → bit_xor a b ≡ 0 → a ≡ b
bit_xor-eq_zero a b = bit_xor-eq_zero_fuel (a + b) a b (omega arith)

bit_xor_self_fuel : (n a : ℕ) → a ≤ n → bit_xor a a ≡ 0
bit_xor_self_fuel zero zero h = refl
bit_xor_self_fuel zero (suc a) h = absurd (omega arith)
bit_xor_self_fuel (suc n) zero h = refl
bit_xor_self_fuel (suc n) (suc a) h = omega (
  arith,
  bit_xor_step (suc a) (suc a),
  bit_xor_self_fuel n (suc a / 2) (omega arith),
  differ_self (suc a % 2),
)

pub bit_xor_self : (a : ℕ) → bit_xor a a ≡ 0
bit_xor_self a = bit_xor_self_fuel a a (omega arith)

-- A mask and its complement part a word of `w` bits.
pub bit_and-split : (w m n a : ℕ) → m + n + 1 ≡ 2 ^ w → a < 2 ^ w → bit_and m a + bit_and n a ≡ a
bit_and-split zero m n a h l =
    let m0 : m ≡ 0 = omega arith in
    let n0 : n ≡ 0 = omega arith in let a0 : a ≡ 0 = omega arith in rw (m0, n0, a0) refl
bit_and-split (suc w) m n a h l = omega (
  arith,
  pow-suc 2 w,
  bit_and_step m a,
  bit_and_step n a,
  bit_and-split w (m / 2) (n / 2) (a / 2) (omega (arith, pow-suc 2 w)) (omega (arith, pow-suc 2 w)),
)

pub zero-bit_and : (b : ℕ) → bit_and 0 b ≡ 0
zero-bit_and b = bit_and-bitwise 0 b

-- The network part of a word with every host bit set: its network part and its host part.
pub bit_and-broadcast :
    (w m n a : ℕ)
    → m + n + 1 ≡ 2 ^ w
    → (bit_and m (bit_and m a + n) ≡ bit_and m a) × (bit_and n (bit_and m a + n) ≡ n)
bit_and-broadcast zero m n a h =
    let m0 : m ≡ 0 = omega arith in
    let n0 : n ≡ 0 = omega arith in
    rw (m0, n0) (zero-bit_and _ ∙ sym (zero-bit_and a), zero-bit_and _)
bit_and-broadcast (suc w) m n a h =
    let ih = bit_and-broadcast w (m / 2) (n / 2) (a / 2) (omega (arith, pow-suc 2 w)) in
    let step = bit_and_step m a in
    let half : (bit_and m a + n) / 2 ≡ bit_and (m / 2) (a / 2) + n / 2 =
      omega (arith, pow-suc 2 w, step) in
    let low : (bit_and m a + n) % 2 ≡ min (m % 2) (a % 2) + n % 2 =
      omega (arith, pow-suc 2 w, step) in
    let net = bit_and_step m (bit_and m a + n) in
    let host = bit_and_step n (bit_and m a + n) in
    (
      omega (arith, pow-suc 2 w, step, rw (half, low) at net, ih.0),
      omega (arith, pow-suc 2 w, rw (half, low) at host, ih.1),
    )

pub bit_or_step : (a b : ℕ) → bit_or a b ≡ bit_or (a / 2) (b / 2) * 2 + max (a % 2) (b % 2)
bit_or_step a b = omega (
  arith,
  bit_or-bitwise a b,
  bit_or-bitwise (a / 2) (b / 2),
  digits_step (λ c. c) max (λ c. omega arith) a b,
)

min_zero : (x : ℕ) → min x 0 ≡ 0
min_zero x = omega arith

max_zero : (x : ℕ) → max x 0 ≡ x
max_zero x = omega arith

bit_and_zero : (n a : ℕ) → a ≤ n → bit_and a 0 ≡ 0
bit_and_zero n zero h = bit_and-bitwise 0 0
bit_and_zero zero (suc a) h = absurd (omega (arith, h))
bit_and_zero (suc n) (suc a) h = omega (
  arith,
  bit_and_step (suc a) 0,
  bit_and_zero n (suc a / 2) (omega (arith, h)),
  min_zero (suc a % 2),
)

bit_or_zero : (n a : ℕ) → a ≤ n → bit_or a 0 ≡ a
bit_or_zero n zero h = bit_or-bitwise 0 0
bit_or_zero zero (suc a) h = absurd (omega (arith, h))
bit_or_zero (suc n) (suc a) h = omega (
  arith,
  bit_or_step (suc a) 0,
  bit_or_zero n (suc a / 2) (omega (arith, h)),
  max_zero (suc a % 2),
)

min_one : (x : ℕ) → x < 2 → min x 1 ≡ x
min_one x h = omega (arith, h)

max_one : (x : ℕ) → x < 2 → max x 1 ≡ 1
max_one x h = omega (arith, h)

-- The lowest bit alone.
pub bit_and_one : (a : ℕ) → bit_and a 1 ≡ a % 2
bit_and_one a = omega (
  arith,
  bit_and_step a 1,
  bit_and_zero (a / 2) (a / 2) (omega arith),
  min_one (a % 2) (omega arith),
)

pub bit_or_one : (a : ℕ) → bit_or a 1 ≡ a / 2 * 2 + 1
bit_or_one a = omega (
  arith,
  bit_or_step a 1,
  bit_or_zero (a / 2) (a / 2) (omega arith),
  max_one (a % 2) (omega arith),
)

-- ===== src/Group/Flags/Bits.antt =====
-- getFlagsRoute, by the bits of the flags.
use mathlib.Core.List.{append-nil, append_assoc}
use Prim.Native.Nat.{bit_and}
use native.Mathlib.Nat.{pow-suc}
use nmdaemon.Bits.{bit_and_step}
use nmdaemon.Group.Flags.{push_if, get_flags_route, flag_bits}
use nmdaemon.Prelude.{
  ℕ, zero, suc, ◌*◌, ◌/◌, ◌%◌, ◌^◌, ◌≤◌, String, ◌≡◌, refl, ◌∙◌, ◌++◌, Bool, not, List, [], ◌∷◌,
  ◌==◌, keep, map, arith, Bool-cases, inl, inr,
}

-- Bit k of a word.
unfoldable pub bit : ℕ → ℕ → Bool
bit zero a = a % 2 == 1
bit (suc k) a = bit k (a / 2)

bit_and-zero_fuel : (n a : ℕ) → a ≤ n → bit_and a 0 ≡ 0
bit_and-zero_fuel n zero h = refl
bit_and-zero_fuel zero (suc a) h = absurd (omega (arith, h))
bit_and-zero_fuel (suc n) (suc a) h =
    omega (arith, bit_and_step (suc a) 0, bit_and-zero_fuel n (suc a / 2) (omega (arith, h)))

-- A test of one flag.
flag-bit : (k a : ℕ) → not (bit_and a (2 ^ k) == 0) ≡ bit k a
unfolding bit
flag-bit zero a = ground (arith, bit_and_step a 1, bit_and-zero_fuel (a / 2) (a / 2))
flag-bit (suc k) a =
    ground (
      arith,
      bit_and_step a (2 ^ suc k),
      pow-suc 2 k,
      flag-bit k (a / 2),
      half (2 ^ k),
      low (2 ^ k),
    )
  where
    half : (m : ℕ) → 2 * m / 2 ≡ m
    half m = omega arith

    low : (m : ℕ) → 2 * m % 2 ≡ 0
    low m = omega arith

push_all : ℕ → List (ℕ × String) → List String → List String
push_all flags [] names = names
push_all flags (e ∷ l) names = push_all flags l (push_if flags (2 ^ e.0) e.1 names)

chosen : ℕ → List (ℕ × String) → List String
chosen flags l = map (λ e. e.1) (keep (λ e. bit e.0 flags) l)

push_all-chosen :
    (flags : ℕ) (l : List (ℕ × String)) (names : List String)
    → push_all flags l names ≡ names ++ chosen flags l
unfolding push_all chosen
push_all-chosen flags [] names = rw append-nil refl
push_all-chosen flags (e ∷ l) names = elim (Bool-cases (bit e.0 flags)) [
  | inl t ↦
      rw (flag-bit e.0 flags, t)
        (push_all-chosen flags l (names ++ e.1 ∷ [])
          ∙ append_assoc names (e.1 ∷ []) (chosen flags l))
  | inr f ↦ rw (flag-bit e.0 flags, f) (push_all-chosen flags l names)
]

-- getFlagsRoute gives the names of <net/route.h> whose bits are set, in the order of the bits.
pub get_flags_route-names :
    (flags : ℕ) → get_flags_route flags ≡ map (λ e. e.1) (keep (λ e. bit e.0 flags) flag_bits)
unfolding get_flags_route push_all chosen
get_flags_route-names flags = push_all-chosen flags flag_bits []

-- ===== src/RcConf/Scan/Masks.antt =====
-- A prefix and the mask in hexadecimal are two notations of one mask.
use nmdaemon.Prelude.{
  ℕ, zero, suc, ◌+◌, ◌-◌, ◌^◌, ◌≤◌, ◌<◌, ◌≡◌, refl, subst, arith, Bool, true, ◌&&◌, [], ◌∷◌, inl,
  inr, Bool-cases, ltb, leb, ◌==◌,
}
use nmdaemon.RcConf.Scan.{
  if_prefix, if_hex, in_prefix_range, get_str_inet_mask_from_prefix, lmask, htonl, inet_ntoa,
}
use nmdaemon.RcConf.{dotted, decimal, digits}
use nmdaemon.Text.{text_eq, text_eq_iff}

-- A test of every number below `n`.
below : ℕ → (ℕ → Bool) → Bool
below zero p = true
below (suc n) p = p n && below n p

below-at : (n : ℕ) (p : ℕ → Bool) (k : ℕ) → below n p ≡ true → k < n → p k ≡ true
unfolding below
below-at zero p k h l = absurd (omega (arith, l))
below-at (suc n) p k h l = elim (Bool-cases (k == n)) [
  | inl e ↦ ground (arith, h, e)
  | inr e ↦ below-at n p k (ground (arith, h)) (ground (arith, l, e))
]

-- The mask of a prefix: ones, and zeros in the bits behind the prefix.
unfoldable pub prefix_mask : ℕ → ℕ
prefix_mask p = 2 ^ 32 - 2 ^ (32 - p)

same_mask : ℕ → Bool
unfolding prefix_mask
same_mask k =
    text_eq (get_str_inet_mask_from_prefix (k + 1)) (inet_ntoa (htonl (prefix_mask (k + 1))))

all_masks : below 32 same_mask ≡ true
unfolding below same_mask prefix_mask get_str_inet_mask_from_prefix inet_ntoa htonl lmask dotted
    decimal digits text_eq
all_masks = refl

same_at :
    (k : ℕ)
    → k < 32
    → get_str_inet_mask_from_prefix (k + 1) ≡ inet_ntoa (htonl (prefix_mask (k + 1)))
unfolding same_mask
same_at k h = (text_eq_iff _ _).0 (below-at 32 same_mask k all_masks h)

-- An address with a prefix from 1 to 32 is decoded as the one with the mask in hexadecimal whose
-- high bits, as many as the prefix, are ones.
pub if_prefix-if_hex :
    (a b c d p : ℕ)
    → 1 ≤ p
    → p ≤ 32
    → if_prefix (a ∷ b ∷ c ∷ d ∷ p ∷ []) ≡ if_hex (a ∷ b ∷ c ∷ d ∷ prefix_mask p ∷ [])
unfolding if_prefix if_hex in_prefix_range
if_prefix-if_hex a b c d p h k = rw (in_range, same) refl
  where
    in_range : (ltb 0 p && leb p 32) ≡ true
    in_range = ground (arith, h, k)

    same : get_str_inet_mask_from_prefix p ≡ inet_ntoa (htonl (prefix_mask p))
    same =
        subst (λ q. get_str_inet_mask_from_prefix q ≡ inet_ntoa (htonl (prefix_mask q)))
          (omega (arith, h)) (same_at (p - 1) (omega (arith, h, k)))

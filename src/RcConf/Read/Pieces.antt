-- ===== src/RcConf/Read/Pieces.antt =====
-- The loop over a list of aliases ends: each round passes over an "inet".
use nmdaemon.Prelude.{
  ℕ, zero, suc, ◌+◌, ◌-◌, ◌≤◌, ◌<◌, ◌≡◌, refl, ap, arith, Option, none, some, [], ◌∷◌, length, take,
  drop,
}
use nmdaemon.RcConf.Read.{pieces}
use nmdaemon.RcConf.{inet_addr}
use nmdaemon.Text.{Text, find}

length-drop_le : (k : ℕ) (s : Text) → length (drop k s) ≤ length s - k
length-drop_le zero s = omega arith
length-drop_le (suc k) [] = omega arith
length-drop_le (suc k) (c ∷ s) = omega (arith, length-drop_le k s)

shorter :
    (i j : ℕ) (c : ℕ) (s : Text) → length (drop (length inet_addr + j) (drop i (c ∷ s))) ≤ length s
shorter i j c s =
    omega (arith, length-drop_le i (c ∷ s), length-drop_le (length inet_addr + j) (drop i (c ∷ s)))

-- With any two bounds that are above the length of the text, the loop finds the same pieces: it
-- ends before the bound is met.
pub pieces-length : (n m : ℕ) (s : Text) → length s < n → length s < m → pieces n s ≡ pieces m s
unfolding pieces
pieces-length zero m s h k = absurd (omega (arith, h))
pieces-length (suc n) zero s h k = absurd (omega (arith, k))
pieces-length (suc n) (suc m) [] h k = unfold find in refl
pieces-length (suc n) (suc m) (c ∷ s) h k =
    first (find (c ∷ s) inet_addr)
      (λ t l. pieces-length n m t (omega (arith, l, h)) (omega (arith, l, k)))
  where
    second :
        (i : ℕ) (o : Option ℕ)
        → ((t : Text) → length t ≤ length s → pieces n t ≡ pieces m t)
        → (elim o [
          | none ↦ drop i (c ∷ s) ∷ []
          | some j ↦
              take (length inet_addr + j) (drop i (c ∷ s))
              ∷ pieces n (drop (length inet_addr + j) (drop i (c ∷ s)))
        ])
          ≡ (elim o [
            | none ↦ drop i (c ∷ s) ∷ []
            | some j ↦
                take (length inet_addr + j) (drop i (c ∷ s))
                ∷ pieces m (drop (length inet_addr + j) (drop i (c ∷ s)))
          ])
    second i none same = refl
    second i (some j) same =
        ap (λ l. take (length inet_addr + j) (drop i (c ∷ s)) ∷ l)
          (same (drop (length inet_addr + j) (drop i (c ∷ s))) (shorter i j c s))

    first :
        (o : Option ℕ)
        → ((t : Text) → length t ≤ length s → pieces n t ≡ pieces m t)
        → (elim o [
          | none ↦ []
          | some i ↦ (elim (find (drop (length inet_addr) (drop i (c ∷ s))) inet_addr) [
            | none ↦ drop i (c ∷ s) ∷ []
            | some j ↦
                take (length inet_addr + j) (drop i (c ∷ s))
                ∷ pieces n (drop (length inet_addr + j) (drop i (c ∷ s)))
          ])
        ])
          ≡ (elim o [
            | none ↦ []
            | some i ↦ (elim (find (drop (length inet_addr) (drop i (c ∷ s))) inet_addr) [
              | none ↦ drop i (c ∷ s) ∷ []
              | some j ↦
                  take (length inet_addr + j) (drop i (c ∷ s))
                  ∷ pieces m (drop (length inet_addr + j) (drop i (c ∷ s)))
            ])
          ])
    first none same = refl
    first (some i) same = second i (find (drop (length inet_addr) (drop i (c ∷ s))) inet_addr) same

-- ===== src/RcConf/Scan/Octets.antt =====
-- sscanf reads back the numbers and the dotted addresses that std::to_string writes.
use mathlib.Core.List.{append_assoc}
use nmdaemon.Prelude.{
  ℕ, zero, suc, ◌+◌, ◌*◌, ◌/◌, ◌%◌, ◌<◌, ◌≤◌, ◌≡◌, ◌⊎◌, refl, ap, ◌∙◌, arith, none, some, List, [],
  ◌∷◌, ◌++◌, inl, inr, ltb, Bool-cases,
}
use nmdaemon.RcConf.Decimal.{decimal_one, decimal_two, decimal_three}
use nmdaemon.RcConf.Scan.{
  Directive, byte, int, sscanf, quad, is_blank, skip_blanks, digit, more_digits, number, signed,
}
use nmdaemon.RcConf.{decimal, dotted}
use nmdaemon.Text.{Text}

digit-plus : (v : ℕ) → v < 10 → digit 10 (b'0' + v) ≡ some v
unfolding digit
digit-plus v h = ground arith

-- What follows a number is no digit.
unfoldable pub Stops : Text → Type 0
unfolding digit
Stops [] = Unit
Stops (c ∷ s) = digit 10 c ≡ none

more-one :
    (w n v : ℕ) (s : Text)
    → v < 10
    → more_digits 10 (suc w) n ((b'0' + v) ∷ s) ≡ more_digits 10 w (n * 10 + v) s
unfolding more_digits
more-one w n v s h = rw (digit-plus v h, more_digits) refl

more-stop : (w n : ℕ) (s : Text) → Stops s → more_digits 10 w n s ≡ (n, s)
unfolding more_digits Stops
more-stop zero n s h = refl
more-stop (suc w) n [] h = refl
more-stop (suc w) n (c ∷ s) h = rw (h, more_digits) refl

number-plus :
    (w v : ℕ) (s : Text) → v < 10 → number 10 (suc w) ((b'0' + v) ∷ s) ≡ some (more_digits 10 w v s)
unfolding number
number-plus w v s h = rw (digit-plus v h, number) refl

-- The three forms of a number below 1000.
number_one : (v : ℕ) (s : Text) → v < 10 → Stops s → number 10 3 ((b'0' + v) ∷ s) ≡ some (v, s)
number_one v s h k = number-plus 2 v s h ∙ ap some (more-stop 2 v s k)

number_two :
    (v w : ℕ) (s : Text)
    → v < 10
    → w < 10
    → Stops s
    → number 10 3 ((b'0' + v) ∷ (b'0' + w) ∷ s) ≡ some (v * 10 + w, s)
number_two v w s h k l =
    number-plus 2 v ((b'0' + w) ∷ s) h ∙ ap some (more-one 1 v w s k ∙ more-stop 1 (v * 10 + w) s l)

number_three :
    (u v w : ℕ) (s : Text)
    → u < 10
    → v < 10
    → w < 10
    → Stops s
    → number 10 3 ((b'0' + u) ∷ (b'0' + v) ∷ (b'0' + w) ∷ s) ≡ some ((u * 10 + v) * 10 + w, s)
number_three u v w s g h k l =
    number-plus 2 u ((b'0' + v) ∷ (b'0' + w) ∷ s) g
    ∙ ap some (
        more-one 1 u v ((b'0' + w) ∷ s) h
        ∙ more-one 0 (u * 10 + v) w s k
        ∙ more-stop 0 ((u * 10 + v) * 10 + w) s l)

-- A digit is neither white space nor a sign.
signed-digit :
    (v : ℕ) (s : Text)
    → v < 10
    → signed 3 (skip_blanks ((b'0' + v) ∷ s)) ≡ number 10 3 ((b'0' + v) ∷ s)
unfolding signed skip_blanks is_blank
signed-digit v s h = ground arith

below : (n : ℕ) → n < 256 → (n < 10) ⊎ ((10 ≤ n) × (n < 100)) ⊎ (100 ≤ n)
below n h = elim (Bool-cases (ltb n 10)) [
  | inl e ↦ inl (ground arith)
  | inr e ↦ elim (Bool-cases (ltb n 100)) [
    | inl f ↦ inr (inl (ground arith, ground arith))
    | inr f ↦ inr (inr (ground arith))
  ]
]

signed-decimal :
    (n : ℕ) (s : Text) → n < 256 → Stops s → signed 3 (skip_blanks (decimal n ++ s)) ≡ some (n, s)
signed-decimal n s h k = elim (below n h) [
  | inl a ↦ rw (decimal_one n a) (signed-digit n s a ∙ number_one n s a k)
  | inr (inl (a, b)) ↦ rw (decimal_two n a b) (
      signed-digit (n / 10) ((b'0' + n % 10) ∷ s) (omega arith)
      ∙ number_two (n / 10) (n % 10) s (omega arith) (omega arith) k
      ∙ ap (λ x. some (x, s)) (omega arith))
  | inr (inr a) ↦ rw (decimal_three n a (omega arith)) (
      signed-digit (n / 10 / 10) ((b'0' + n / 10 % 10) ∷ (b'0' + n % 10) ∷ s) (omega arith)
      ∙ number_three (n / 10 / 10) (n / 10 % 10) (n % 10) s (omega arith) (omega arith)
          (omega arith) k
      ∙ ap (λ x. some (x, s)) (omega arith))
]

pub sscanf-decimal :
    (n : ℕ) (ds : List Directive) (s : Text)
    → n < 256
    → Stops s
    → sscanf (int 3 ∷ ds) (decimal n ++ s) ≡ n ∷ sscanf ds s
unfolding sscanf
sscanf-decimal n ds s h k = rw (signed-decimal n s h k, sscanf) refl

-- An octet and the point behind it.
sscanf-point :
    (n : ℕ) (ds : List Directive) (s : Text)
    → n < 256
    → sscanf (int 3 ∷ byte b'.' ∷ ds) (decimal n ++ b'.' ∷ s) ≡ n ∷ sscanf ds s
sscanf-point n ds s h =
    sscanf-decimal n (byte b'.' ∷ ds) (b'.' ∷ s) h (unfold Stops digit in refl)
    ∙ (unfold sscanf in refl)

pub dotted-append :
    (a b c d : ℕ) (s : Text)
    → dotted a b c d ++ s
      ≡ decimal a ++ b'.' ∷ (decimal b ++ b'.' ∷ (decimal c ++ b'.' ∷ (decimal d ++ s)))
unfolding dotted
dotted-append a b c d s =
    append_assoc (decimal a) (b'.' ∷ (decimal b ++ b'.' ∷ (decimal c ++ b'.' ∷ decimal d))) s
    ∙ ap (λ l. decimal a ++ b'.' ∷ l)
        (append_assoc (decimal b) (b'.' ∷ (decimal c ++ b'.' ∷ decimal d)) s
          ∙ ap (λ l. decimal b ++ b'.' ∷ l) (append_assoc (decimal c) (b'.' ∷ decimal d) s))

pub sscanf-dotted :
    (a b c d : ℕ) (ds : List Directive) (s : Text)
    → a < 256
    → b < 256
    → c < 256
    → d < 256
    → Stops s
    → sscanf (quad ds) (dotted a b c d ++ s) ≡ a ∷ b ∷ c ∷ d ∷ sscanf ds s
unfolding quad
sscanf-dotted a b c d ds s ha hb hc hd k =
    ap (sscanf (quad ds)) (dotted-append a b c d s)
    ∙ sscanf-point a _ _ ha
    ∙ ap (λ l. a ∷ l)
        (sscanf-point b _ _ hb
          ∙ ap (λ l. b ∷ l) (sscanf-point c _ _ hc ∙ ap (λ l. c ∷ l) (sscanf-decimal d ds s hd k)))

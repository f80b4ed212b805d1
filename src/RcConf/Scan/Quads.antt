-- ===== src/RcConf/Scan/Quads.antt =====
-- Addresses of four octets: how sscanf reads them, and what their bytes are.
use mathlib.Core.List.{append-nil}
use nmdaemon.Prelude.{
  ℕ, ◌+◌, ◌<◌, ◌≡◌, refl, sym, ap, ◌∙◌, arith, Bool, true, List, [], ◌∷◌, ◌++◌, all, all-append,
  if_elim,
}
use nmdaemon.RcConf.Decimal.{all-decimal}
use nmdaemon.RcConf.Scan.Octets.{Stops, sscanf-dotted}
use nmdaemon.RcConf.Scan.{Directive, space, sscanf, quad, skip_blanks, is_blank}
use nmdaemon.RcConf.{decimal, dotted}
use nmdaemon.Text.{Text}

-- Four octets.
pub record Quad : Type 0 where
  pub a : ℕ
  pub b : ℕ
  pub c : ℕ
  pub d : ℕ

abbrev pub IsOctets : Quad → Type 0
IsOctets q = (q.a < 256) × (q.b < 256) × (q.c < 256) × (q.d < 256)

abbrev pub show : Quad → Text
show q = dotted q.a q.b q.c q.d

unfoldable pub octets : Quad → List ℕ → List ℕ
octets q l = q.a ∷ q.b ∷ q.c ∷ q.d ∷ l

skip_idem : (s : Text) → skip_blanks (skip_blanks s) ≡ skip_blanks s
unfolding skip_blanks
skip_idem [] = refl
skip_idem (c ∷ s) =
    if_elim (λ t. skip_blanks t ≡ t) (is_blank c) (λ e. skip_idem s) (λ e. rw (e, skip_blanks) refl)

-- White space in front of an address.
pub read_quad :
    (q : Quad) (ds : List Directive) (s : Text)
    → IsOctets q
    → Stops s
    → sscanf (space ∷ quad ds) (b' ' ∷ (show q ++ s)) ≡ octets q (sscanf ds s)
unfolding octets
read_quad q ds s h k = spaced (show q ++ s) ∙ sscanf-dotted q.a q.b q.c q.d ds s h.0 h.1 h.2 h.3 k
  where
    spaced : (t : Text) → sscanf (space ∷ quad ds) (b' ' ∷ t) ≡ sscanf (quad ds) t
    spaced t = unfold sscanf quad skip_blanks is_blank in rw (skip_idem t) refl

module _ (p : ℕ → Bool) (of_digit : (v : ℕ) → v < 10 → p (b'0' + v) ≡ true)
    (point : p b'.' ≡ true) where
  all-point : (n : ℕ) (s : Text) → all p s ≡ true → all p (decimal n ++ b'.' ∷ s) ≡ true
  all-point n s h =
      all-append p (decimal n) (b'.' ∷ s) (all-decimal p of_digit n) (ground (arith, h, point))

  -- What holds of digits and points holds of an address.
  pub all-show : (q : Quad) → all p (show q) ≡ true
  unfolding dotted
  all-show q = all-point q.a _ (all-point q.b _ (all-point q.c _ (all-decimal p of_digit q.d)))

pub blank-Stops : (s : Text) → Stops (b' ' ∷ s)
unfolding Stops
blank-Stops s = refl

none-Stops : Stops []
unfolding Stops
none-Stops = tt

-- The same at the end of the text.
pub last_quad : (q : Quad) → IsOctets q → sscanf (space ∷ quad []) (b' ' ∷ show q) ≡ octets q []
unfolding octets
last_quad q h =
    ap (λ t. sscanf (space ∷ quad []) (b' ' ∷ t)) (sym (append-nil (show q)))
    ∙ read_quad q [] [] h none-Stops
    ∙ (unfold sscanf in refl)

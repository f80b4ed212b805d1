-- ===== src/RcConf/Scan/Unquote.antt =====
-- Trim takes the quotes off a value and leaves the rest as it is.
use nmdaemon.Ini.{Ini}
use nmdaemon.Prelude.{
  ℕ, ◌≡◌, refl, ap, ◌∙◌, arith, Bool, true, false, not, ◌&&◌, none, [], ◌∷◌, ◌++◌, ◌==◌, if_elim,
}
use nmdaemon.RcConf.Scan.{unquote}
use nmdaemon.RcConf.{quoted}
use nmdaemon.Text.{
  Text, is_empty, find, starts_with, trim as trim_text, trim_left, trim_right, trim_right-Lacks,
  Lacks,
}

-- Not empty, and no space at the end.
pub IsTrimmed : Text → Type 0
IsTrimmed s = (trim_right b' ' s ≡ s) × (is_empty s ≡ false)

pub Lacks-IsTrimmed : (s : Text) → Lacks b' ' s → is_empty s ≡ false → IsTrimmed s
unfolding IsTrimmed
Lacks-IsTrimmed s h k = (trim_right-Lacks b' ' s h, k)

pub append-IsTrimmed : (s t : Text) → IsTrimmed t → IsTrimmed (s ++ t)
unfolding IsTrimmed trim_right
append-IsTrimmed [] t h = h
append-IsTrimmed (c ∷ s) t h = (
  rw ((append-IsTrimmed s t h).0, (append-IsTrimmed s t h).1, trim_right)
      (if_elim (λ u. u ≡ c ∷ (s ++ t)) (c == b' ' && false) (λ e. ground (arith, e)) (λ e. refl)),
  refl,
)

trim_right-end : (d : ℕ) (s : Text) → Lacks d s → trim_right d (s ++ d ∷ []) ≡ s
unfolding trim_right
trim_right-end d [] h = ground arith
trim_right-end d (c ∷ s) h = ground (arith, trim_right-end d s)

trim_left-other : (d c : ℕ) (s : Text) → (c == d) ≡ false → trim_left d (c ∷ s) ≡ c ∷ s
unfolding trim_left
trim_left-other d c s h = rw h refl

pub find-Lacks : (c : ℕ) (p s : Text) → Lacks c s → find s (c ∷ p) ≡ none
unfolding find starts_with
find-Lacks c p [] h = refl
find-Lacks c p (d ∷ s) h = ground (arith, find-Lacks c p s)

-- The first byte is no space.
unfoldable pub starts : Text → Bool
starts [] = false
starts (c ∷ s) = not (c == b' ')

module _ (ini : Ini) where
  -- A text without quotes.
  pub trim-quoted : (c : ℕ) (s : Text) → Lacks b'"' (c ∷ s) → ini.trim b'"' (quoted (c ∷ s)) ≡ c ∷ s
  unfolding quoted trim_text trim_left
  trim-quoted c s h =
      ini.trim_eq b'"' (b'"' ∷ c ∷ (s ++ b'"' ∷ []))
      ∙ ap (trim_right b'"') (trim_left-other b'"' c (s ++ b'"' ∷ []) (ground (arith, h)))
      ∙ trim_right-end b'"' (c ∷ s) h

  -- One that neither starts nor ends with a space.
  unquote-quoted :
      (c : ℕ) (s : Text)
      → Lacks b'"' (c ∷ s)
      → (c == b' ') ≡ false
      → IsTrimmed (c ∷ s)
      → unquote ini (quoted (c ∷ s)) ≡ c ∷ s
  unfolding unquote IsTrimmed trim_text
  unquote-quoted c s h k t =
      ap (ini.trim b' ') (trim-quoted c s h)
      ∙ ini.trim_eq b' ' (c ∷ s)
      ∙ (ap (trim_right b' ') (trim_left-other b' ' c s k) ∙ t.0)

  -- The same, with a test of the first byte.
  pub unquote_value :
      (s : Text) → starts s ≡ true → Lacks b'"' s → IsTrimmed s → unquote ini (quoted s) ≡ s
  unfolding starts
  unquote_value [] e h t = absurd (ground arith)
  unquote_value (c ∷ s) e h t = unquote-quoted c s h (ground (arith, e)) t

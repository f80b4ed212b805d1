-- ===== src/Wpa/Buffer/Masks.antt =====
-- What a delimiter at the end of a mask does in searchLineInBuf (src/nmworkerwpa.cpp).
use nmdaemon.Prelude.{ℕ, ◌≡◌, refl, ap, Bool, true, [], ◌∷◌, ◌++◌, Bool-cases, inl, inr}
use nmdaemon.Text.{Text, split}
use nmdaemon.Wpa.Buffer.{is_blank, strip_left, strip_right, strip, search_lines, search_line_in_buf}

strip_right-blank :
    (s : Text) (d : ℕ) → is_blank d ≡ true → strip_right (s ++ d ∷ []) ≡ strip_right s
unfolding strip_right
strip_right-blank [] d h = rw h refl
strip_right-blank (c ∷ s) d h = rw (strip_right-blank s d h) refl

strip-blank : (s : Text) (d : ℕ) → is_blank d ≡ true → strip (s ++ d ∷ []) ≡ strip s
unfolding strip strip_left strip_right
strip-blank [] d h = rw h refl
strip-blank (c ∷ s) d h = elim (Bool-cases (is_blank c)) [
  | inl e ↦ rw e (strip-blank s d h)
  | inr e ↦ rw e (strip_right-blank (c ∷ s) d h)
]

-- searchLineInBuf strips its mask, so that a blank at the end of it makes no difference.
pub search_line_in_buf-blank :
    (mask : Text) (d : ℕ) (at_start : Bool) (buf : Text)
    → is_blank d ≡ true
    → search_line_in_buf (mask ++ d ∷ []) at_start buf ≡ search_line_in_buf mask at_start buf
unfolding search_line_in_buf
search_line_in_buf-blank mask d at_start buf h =
    ap (λ m. search_lines m at_start (split b'\n' buf)) (strip-blank mask d h)

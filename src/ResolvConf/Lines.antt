-- ===== src/ResolvConf/Lines.antt =====
-- The lines that setConfig writes, as getConfig reads them.
use mathlib.Core.List.{append-nil}
use nmdaemon.Prelude.{
  ℕ, ◌≡◌, ◌≢◌, refl, ap, ◌∙◌, arith, false, not, ok, List, [], ◌∷◌, ◌++◌, keep, All, ◌==◌,
}
use nmdaemon.ResolvConf.{view_of, spaced}
use nmdaemon.Text.{
  Text, is_empty, split, trim_left, trim_right, trim, trim_right-Lacks, Lacks, split-line,
  split-last, Lacks-append,
}

-- A name without spaces and line ends.
abbrev pub Word : Text → Type 0
Word s = (s ≢ []) × Lacks b' ' s × Lacks b'\n' s

trim_right-cons :
    (d c : ℕ) (u : Text) → trim_right d u ≡ u → is_empty u ≡ false → trim_right d (c ∷ u) ≡ c ∷ u
unfolding trim_right
trim_right-cons d c u h e = ground arith

is_empty-append : (s u : Text) → is_empty u ≡ false → is_empty (s ++ u) ≡ false
is_empty-append [] u h = h
is_empty-append (c ∷ s) u h = refl

pub trim_right-append :
    (d : ℕ) (s u : Text) → trim_right d u ≡ u → is_empty u ≡ false → trim_right d (s ++ u) ≡ s ++ u
trim_right-append d [] u h e = h
trim_right-append d (c ∷ s) u h e =
    trim_right-cons d c (s ++ u) (trim_right-append d s u h e) (is_empty-append s u e)

pub Word-nonempty : (s : Text) → Word s → is_empty s ≡ false
Word-nonempty [] w = absurd (w.0 refl)
Word-nonempty (c ∷ s) w = refl

trim_right-Word : (s : Text) → Word s → trim_right b' ' s ≡ s
trim_right-Word s w = trim_right-Lacks b' ' s w.1

pub trim_right-spaced :
    (s : Text) (ss : List Text)
    → Word s
    → All Word ss
    → trim_right b' ' (spaced (s ∷ ss)) ≡ spaced (s ∷ ss)
unfolding spaced
trim_right-spaced s [] w ws =
    rw append-nil (trim_right-append b' ' (b' ' ∷ []) s (trim_right-Word s w) (Word-nonempty s w))
trim_right-spaced s (t ∷ ss) w ws =
    trim_right-append b' ' (b' ' ∷ s) (spaced (t ∷ ss)) (trim_right-spaced t ss ws.0 ws.1) refl

-- The words of a search line.
pub split-spaced :
    (s : Text) (ss : List Text) → Word s → All Word ss → split b' ' (s ++ spaced ss) ≡ s ∷ ss
unfolding spaced
split-spaced [] [] w ws = absurd (w.0 refl)
split-spaced (c ∷ s) [] w ws = rw append-nil (split-last b' ' c s w.1)
split-spaced s (t ∷ ss) w ws =
    split-line b' ' s (t ++ spaced ss) w.1 ∙ ap (◌∷◌ s) (split-spaced t ss ws.0 ws.1)

pub keep-Word : (ss : List Text) → All Word ss → keep (λ s. not (is_empty s)) ss ≡ ss
keep-Word [] ws = refl
keep-Word ([] ∷ ss) ws = absurd (ws.0.0 refl)
keep-Word ((c ∷ s) ∷ ss) ws = ap (◌∷◌ (c ∷ s)) (keep-Word ss ws.1)

pub spaced-Lacks : (ss : List Text) → All Word ss → Lacks b'\n' (spaced ss)
unfolding spaced
spaced-Lacks [] ws = refl
spaced-Lacks (s ∷ ss) ws = Lacks-append b'\n' s (spaced ss) ws.0.2 (spaced-Lacks ss ws.1)

-- The trims leave a line as it is that does not begin with a space, and ends with a word.
pub view_of-line :
    (c : ℕ) (s u : Text)
    → (c == b' ') ≡ false
    → trim_right b' ' u ≡ u
    → is_empty u ≡ false
    → view_of (c ∷ (s ++ u)) ≡ ok (c ∷ (s ++ u))
unfolding view_of trim trim_left
view_of-line c s u e h n = rw (e, trim_right-append b' ' (c ∷ s) u h n)

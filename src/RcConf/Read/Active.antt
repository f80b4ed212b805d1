-- ===== src/RcConf/Read/Active.antt =====
-- The words of static_routes that setRcIpConfig joins, as getRcIpConfig splits them.
use mathlib.Core.List.{append-nil, append_assoc}
use nmdaemon.Ini.{Ini}
use nmdaemon.Prelude.{
  ◌≡◌, refl, sym, ap, ◌∙◌, arith, false, List, [], ◌∷◌, ◌++◌, All, map, ◌==◌, if_elim,
}
use nmdaemon.RcConf.Read.{active_routes}
use nmdaemon.RcConf.Scan.Unquote.{trim-quoted}
use nmdaemon.RcConf.Write.{add_word}
use nmdaemon.RcConf.{quoted}
use nmdaemon.ResolvConf.Lines.{Word, split-spaced}
use nmdaemon.ResolvConf.{spaced}
use nmdaemon.Text.{
  Text, is_empty, split, trim, trim_left, trim_right, trim_right-Lacks, Lacks, Lacks-append,
}

-- A word without quotes.
unfoldable pub IsName : Text → Type 0
IsName s = Word s × Lacks b'"' s

-- The words built one by one are the first one with the others behind it.
unfoldable pub add_words : Text → List Text → Text
unfolding add_word
add_words s [] = s
add_words s (w ∷ ws) = add_words (add_word s w) ws

trim-Lacks : (s : Text) → Lacks b' ' s → trim b' ' s ≡ s
unfolding trim trim_left
trim-Lacks [] h = trim_right-Lacks b' ' [] h
trim-Lacks (c ∷ s) h =
    if_elim (λ u. trim_right b' ' u ≡ c ∷ s) (c == b' ') (λ e. absurd (ground (arith, e, h)))
      (λ e. trim_right-Lacks b' ' (c ∷ s) h)

map_trim : (ss : List Text) → All IsName ss → map (trim b' ') ss ≡ ss
unfolding IsName
map_trim [] h = refl
map_trim (s ∷ ss) h = rw (trim-Lacks s h.0.0.1, map_trim ss h.1) refl

add_words-spaced :
    (s : Text) (ws : List Text) → is_empty s ≡ false → add_words s ws ≡ s ++ spaced ws
unfolding add_words spaced add_word
add_words-spaced s [] h = sym (append-nil s)
add_words-spaced [] (w ∷ ws) h = absurd (ground (arith, h))
add_words-spaced (c ∷ s) (w ∷ ws) h =
    add_words-spaced (c ∷ (s ++ b' ' ∷ w)) ws refl ∙ append_assoc (c ∷ s) (b' ' ∷ w) (spaced ws)

pub add_words-append :
    (s : Text) (ws vs : List Text) → add_words s (ws ++ vs) ≡ add_words (add_words s ws) vs
unfolding add_words
add_words-append s [] vs = refl
add_words-append s (w ∷ ws) vs = add_words-append (add_word s w) ws vs

Lacks-spaced : (ws : List Text) → All IsName ws → Lacks b'"' (spaced ws)
unfolding IsName spaced
Lacks-spaced [] h = refl
Lacks-spaced (w ∷ ws) h = Lacks-append b'"' w (spaced ws) h.0.1 (Lacks-spaced ws h.1)

All-Word : (ws : List Text) → All IsName ws → All Word ws
unfolding IsName
All-Word [] h = tt
All-Word (w ∷ ws) h = (h.0.0, All-Word ws h.1)

pub is_empty-add_words :
    (w : Text) (ws : List Text) → All IsName (w ∷ ws) → is_empty (add_words [] (w ∷ ws)) ≡ false
unfolding add_words add_word IsName
is_empty-add_words [] ws h = absurd (h.0.0.0 refl)
is_empty-add_words (c ∷ w) ws h = ap is_empty (add_words-spaced (c ∷ w) ws refl)

-- The words of static_routes are read back.
module _ (ini : Ini) where
  pub active_routes-words :
      (w : Text) (ws : List Text)
      → All IsName (w ∷ ws)
      → active_routes ini (quoted (add_words [] (w ∷ ws))) ≡ w ∷ ws
  unfolding active_routes IsName add_words add_word
  active_routes-words [] ws h = absurd (h.0.0.0 refl)
  active_routes-words (c ∷ w) ws h =
      ap (λ u. map (trim b' ') (split b' ' (ini.trim b'"' (quoted u))))
        (add_words-spaced (c ∷ w) ws refl)
      ∙ ap (λ u. map (trim b' ') (split b' ' u))
          (trim-quoted ini c (w ++ spaced ws)
            (Lacks-append b'"' (c ∷ w) (spaced ws) h.0.1 (Lacks-spaced ws h.1)))
      ∙ ap (map (trim b' ')) (split-spaced (c ∷ w) ws h.0.0 (All-Word ws h.1))
      ∙ map_trim ((c ∷ w) ∷ ws) h

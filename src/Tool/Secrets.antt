-- ===== src/Tool/Secrets.antt =====
-- Tool::hideSecrets (src/tool.cpp): what the log shows of a request or an answer.
use nmdaemon.Prelude.{
  ℕ, zero, suc, ◌+◌, ◌≤◌, ◌≡◌, ◌⊎◌, inl, inr, refl, ap, arith, true, Option, none, some, List, [],
  ◌∷◌, ◌++◌, map, ltb, if◌then◌else◌, take, All, Any, Option-cases, Bool-cases,
}
use nmdaemon.Text.{Text, codes, find, starts_with}
use nmdaemon.Tool.Names.{is_upper}

-- std::tolower in the C locale
abbrev pub to_lower : ℕ → ℕ
to_lower c = if is_upper c then c + 32 else c

abbrev pub markers : List Text
markers = codes "psk" ∷ codes "wep_key" ∷ codes "password" ∷ codes "passphrase" ∷ []

earlier : Option ℕ → Option ℕ → Option ℕ
earlier cut none = cut
earlier none (some pos) = some pos
earlier (some cut) (some pos) = if ltb pos cut then some pos else some cut

-- The loop over the markers; `none` is npos.
first_marker : Text → Option ℕ → List Text → Option ℕ
unfolding earlier
first_marker lower cut [] = cut
first_marker lower cut (m ∷ ms) = first_marker lower (earlier cut (find lower m)) ms

hide_from : Text → Option ℕ → Text
hide_from text none = text
hide_from text (some cut) = take cut text ++ codes "<secret hidden>"

unfoldable pub hide_secrets : Text → Text
unfolding first_marker hide_from
hide_secrets text = hide_from text (first_marker (map to_lower text) none markers)

-- No marker occurs in the text, in capitals or not.
abbrev pub IsClean : Text → Type 0
IsClean text = All (λ m. find (map to_lower text) m ≡ none) markers

starts_with-take : (k : ℕ) (s p : Text) → starts_with (take k s) p ≡ true → starts_with s p ≡ true
unfolding starts_with
starts_with-take k [] [] h = refl
starts_with-take k (d ∷ s) [] h = refl
starts_with-take zero s (c ∷ p) h = cc
starts_with-take (suc k) [] (c ∷ p) h = h
starts_with-take (suc k) (d ∷ s) (c ∷ p) h = ground (arith, starts_with-take k s p)

-- A position of the text that is not before `n`, or none.
abbrev NotBefore : ℕ → Option ℕ → Type 0
NotBefore n none = Unit
NotBefore n (some j) = n ≤ j

-- What occurs in the first `k` bytes of a text occurs in the text, before `k`.
find-take :
    (k : ℕ) (s : Text) (c : ℕ) (p : Text)
    → NotBefore k (find s (c ∷ p))
    → find (take k s) (c ∷ p) ≡ none
unfolding find
find-take zero s c p h = refl
find-take (suc k) [] c p h = refl
find-take (suc k) (d ∷ s) c p h = elim (Bool-cases (starts_with (d ∷ s) (c ∷ p))) [
  | inl here ↦ absurd (omega (arith, rw here at h))
  | inr e ↦ elim (Bool-cases (starts_with (d ∷ take k s) (c ∷ p))) [
    | inl early ↦ absurd (cc (e, starts_with-take (suc k) (d ∷ s) (c ∷ p) early))
    | inr e' ↦ rw e' (elim (Option-cases (find s (c ∷ p))) [
      | inl n ↦ rw (find-take k s c p (rw n tt))
      | inr (j, f) ↦ rw (find-take k s c p (rw f (omega (arith, rw (e, f) at h))))
    ])
  ]
]

-- The cut is `found`: no position is before it, and it is one of them.
abbrev FirstOf : Text → Option ℕ → List Text → Option ℕ → Type 0
FirstOf lower cut ms none = (cut ≡ none) × All (λ m. find lower m ≡ none) ms
FirstOf lower cut ms (some n) = NotBefore n cut × All (λ m. NotBefore n (find lower m)) ms

earlier-NotBefore :
    (n : ℕ) (cut pos : Option ℕ) → NotBefore n (earlier cut pos) → NotBefore n cut × NotBefore n pos
unfolding earlier
earlier-NotBefore n none none h = (tt, tt)
earlier-NotBefore n (some c) none h = (h, tt)
earlier-NotBefore n none (some p) h = (tt, h)
earlier-NotBefore n (some c) (some p) h = ground arith

earlier-none : (cut pos : Option ℕ) → earlier cut pos ≡ none → (cut ≡ none) × (pos ≡ none)
unfolding earlier
earlier-none none none h = (refl, refl)
earlier-none (some c) none h = cc
earlier-none none (some p) h = cc
earlier-none (some c) (some p) h = ground arith

first_marker-FirstOf :
    (lower : Text) (cut : Option ℕ) (ms : List Text)
    → FirstOf lower cut ms (first_marker lower cut ms)
unfolding first_marker
first_marker-FirstOf lower none [] = (refl, tt)
first_marker-FirstOf lower (some n) [] = (omega arith, tt)
first_marker-FirstOf lower cut (m ∷ ms) =
    step (first_marker lower (earlier cut (find lower m)) ms)
      (first_marker-FirstOf lower (earlier cut (find lower m)) ms)
  where
    step :
        (r : Option ℕ)
        → FirstOf lower (earlier cut (find lower m)) ms r
        → FirstOf lower cut (m ∷ ms) r
    step none h = let (c, p) = earlier-none cut (find lower m) h.0 in (c, (p, h.1))
    step (some n) h = let (c, p) = earlier-NotBefore n cut (find lower m) h.0 in (c, (p, h.1))

earlier-some :
    (n : ℕ) (cut pos : Option ℕ) → earlier cut pos ≡ some n → (cut ≡ some n) ⊎ (pos ≡ some n)
unfolding earlier
earlier-some n none none h = cc
earlier-some n (some c) none h = inl h
earlier-some n none (some p) h = inr h
earlier-some n (some c) (some p) h = elim (Bool-cases (ltb p c)) [
  | inl e ↦ inr (rw e at h)
  | inr e ↦ inl (rw e at h)
]

-- Where the cut comes from.
first_marker-some :
    (lower : Text) (n : ℕ) (cut : Option ℕ) (ms : List Text)
    → first_marker lower cut ms ≡ some n
    → (cut ≡ some n) ⊎ Any (λ m. find lower m ≡ some n) ms
unfolding first_marker
first_marker-some lower n cut [] h = inl h
first_marker-some lower n cut (m ∷ ms) h =
    elim (first_marker-some lower n (earlier cut (find lower m)) ms h) [
      | inr later ↦ inr (inr later)
      | inl e ↦ elim (earlier-some n cut (find lower m) e) [ inl c ↦ inl c | inr p ↦ inr (inl p) ]
    ]

marker_at :
    (text : Text) (n : ℕ)
    → first_marker (map to_lower text) none markers ≡ some n
    → Any (λ m. find (map to_lower text) m ≡ some n) markers
marker_at text n h = elim (first_marker-some (map to_lower text) n none markers h) [
  | inl e ↦ absurd (cc e)
  | inr a ↦ a
]

map-take : (n : ℕ) (s : Text) → map to_lower (take n s) ≡ take n (map to_lower s)
map-take zero s = refl
map-take (suc n) [] = refl
map-take (suc n) (c ∷ s) = ap (◌∷◌ (to_lower c)) (map-take n s)

IsClean-prefix :
    (n : ℕ) (s : Text)
    → All (λ m. NotBefore n (find (map to_lower s) m)) markers
    → IsClean (take n s)
IsClean-prefix n s h = rw (map-take n s) (
  find-take n (map to_lower s) _ _ h.0,
  (
    find-take n (map to_lower s) _ _ h.1.0,
    (find-take n (map to_lower s) _ _ h.1.1.0, (find-take n (map to_lower s) _ _ h.1.1.1.0, tt)),
  ),
)

-- A text with no marker is shown as it is; of any other the part before a marker, which has no
-- marker in it, is shown, with a note.
pub hide_secrets-IsClean :
    (text : Text)
    → (IsClean text × (hide_secrets text ≡ text))
      ⊎ ((n : ℕ) × IsClean (take n text)
          × Any (λ m. find (map to_lower text) m ≡ some n) markers
          × (hide_secrets text ≡ take n text ++ codes "<secret hidden>"))
unfolding hide_secrets
hide_secrets-IsClean text =
    split (first_marker (map to_lower text) none markers) refl
      (first_marker-FirstOf (map to_lower text) none markers)
  where
    split :
        (r : Option ℕ)
        → first_marker (map to_lower text) none markers ≡ r
        → FirstOf (map to_lower text) none markers r
        → (IsClean text × (hide_secrets text ≡ text))
          ⊎ ((n : ℕ) × IsClean (take n text)
              × Any (λ m. find (map to_lower text) m ≡ some n) markers
              × (hide_secrets text ≡ take n text ++ codes "<secret hidden>"))
    split none e h = inl (h.1, rw e refl)
    split (some n) e h = inr (n, IsClean-prefix n text h.1, marker_at text n e, rw e refl)

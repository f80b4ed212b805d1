-- ===== src/Text.antt =====
-- std::string as the list of its bytes, and the searches and streams that the code runs on it.
use Prim.Native.Char.{code}
use nmdaemon.Prelude.{
  ℕ, suc, String, ◌≡◌, refl, ◌↔◌, Bool, true, false, not, ◌&&◌, Option, none, some, List, [], ◌∷◌,
  ◌++◌, arith, ◌==◌, if◌then◌else◌, all,
}

abbrev pub Text : Type 0
Text = List ℕ

-- The bytes of an ASCII literal.
abbrev pub codes : String → Text
codes String.[] = []
codes (String.◌∷◌ c s) = code c ∷ codes s

abbrev pub is_empty : Text → Bool
is_empty [] = true
is_empty (c ∷ s) = false

unfoldable pub text_eq : Text → Text → Bool
text_eq [] [] = true
text_eq [] (d ∷ t) = false
text_eq (c ∷ s) [] = false
text_eq (c ∷ s) (d ∷ t) = c == d && text_eq s t

pub text_eq_iff : (s t : Text) → (text_eq s t ≡ true) ↔ (s ≡ t)
unfolding text_eq
text_eq_iff (c ∷ s) (d ∷ t) = ground (arith, text_eq_iff s t)
text_eq_iff _ _ = ground arith

-- s.starts_with(p)
unfoldable pub starts_with : Text → Text → Bool
starts_with s [] = true
starts_with [] (c ∷ p) = false
starts_with (d ∷ s) (c ∷ p) = d == c && starts_with s p

-- s.find(p): the first position where `p` stands.
unfoldable pub find : Text → Text → Option ℕ
unfolding starts_with
find [] p = if is_empty p then some 0 else none
find (c ∷ s) p =
    let rest = find s p in
    if starts_with (c ∷ s) p then some 0 else (elim rest [ none ↦ none | some i ↦ some (suc i) ])

-- A byte at the front of the first line.
abbrev pub push_front : ℕ → List Text → List Text
push_front c [] = (c ∷ []) ∷ []
push_front c (l ∷ ls) = (c ∷ l) ∷ ls

-- The lines that std::getline with a delimiter reads until the stream ends: a delimiter at the
-- very end opens no further line.
unfoldable pub split : ℕ → Text → List Text
split d [] = []
split d (c ∷ s) = let rest = split d s in if c == d then [] ∷ rest else push_front c rest

-- `s` holds no byte `d`.
abbrev pub Lacks : ℕ → Text → Type 0
Lacks d s = all (λ c. not (c == d)) s ≡ true

-- A line is read back whole in front of what follows its delimiter.
pub split-line : (d : ℕ) (s rest : Text) → Lacks d s → split d (s ++ d ∷ rest) ≡ s ∷ split d rest
unfolding split
split-line d [] rest h = ground arith
split-line d (c ∷ s) rest h = ground (arith, split-line d s rest)

pub split-last : (d c : ℕ) (s : Text) → Lacks d (c ∷ s) → split d (c ∷ s) ≡ (c ∷ s) ∷ []
unfolding split
split-last d c [] h = ground arith
split-last d c (e ∷ s) h = ground (arith, split-last d e s)

pub Lacks-append : (d : ℕ) (s t : Text) → Lacks d s → Lacks d t → Lacks d (s ++ t)
Lacks-append d [] t h k = k
Lacks-append d (c ∷ s) t h k = ground (arith, Lacks-append d s t)

-- str.find_first_not_of(d) as the remove_prefix of the trims uses it: drops the leading `d`s.
unfoldable pub trim_left : ℕ → Text → Text
trim_left d [] = []
trim_left d (c ∷ s) = let rest = trim_left d s in if c == d then rest else c ∷ s

-- The same from the end: a byte stays if it is no `d`, or if one behind it stays.
unfoldable pub trim_right : ℕ → Text → Text
trim_right d [] = []
trim_right d (c ∷ s) = let rest = trim_right d s in if c == d && is_empty rest then [] else c ∷ rest

unfoldable pub trim : ℕ → Text → Text
unfolding trim_left trim_right
trim d s = trim_right d (trim_left d s)

pub trim_right-Lacks : (d : ℕ) (s : Text) → Lacks d s → trim_right d s ≡ s
unfolding trim_right
trim_right-Lacks d [] h = refl
trim_right-Lacks d (c ∷ s) h = ground (arith, trim_right-Lacks d s)

-- s.c_str() as a C function reads it, and std::string(buf): the bytes in front of the first NUL.
unfoldable pub c_str : Text → Text
c_str [] = []
c_str (c ∷ s) = let rest = c_str s in if c == 0 then [] else c ∷ rest

-- ===== src/ResolvConf/Faults.antt =====
-- Which files make getConfig use a view of no bytes at all.
use nmdaemon.Json.{Json}
use nmdaemon.Platform.{Platform}
use nmdaemon.Prelude.{
  ◌≡◌, refl, ◌↔◌, arith, Bool, true, false, not, ◌&&◌, some, Result, ok, throw, fault, ◌>>=◌, List,
  [], ◌∷◌, all, any, ◌==◌, Bool-cases, inl, inr,
}
use nmdaemon.ResolvConf.{
  Config, empty_config, view_of, read_view, read_lines, parse_config, get_config, config_json,
}
use nmdaemon.Text.{Text, is_empty, split, trim, trim_left}

-- A line of one or more spaces and nothing else.
abbrev pub is_blank : Text → Bool
is_blank line = not (is_empty line) && all (λ c. c == b' ') line

trim_left-all : (s : Text) → is_empty (trim_left b' ' s) ≡ all (λ c. c == b' ') s
unfolding trim_left
trim_left-all [] = refl
trim_left-all (c ∷ s) = ground (arith, trim_left-all s)

view_of-blank : (line : Text) → is_blank line ≡ true → view_of line ≡ fault
unfolding view_of
view_of-blank line h = ground (arith, trim_left-all line)

view_of-other : (line : Text) → is_blank line ≡ false → (v : Text) × (view_of line ≡ ok v)
unfolding view_of
view_of-other line h = elim (Bool-cases (is_empty line)) [
  | inl e ↦ ([], rw e refl)
  | inr e ↦ (trim b' ' line, rw (e, not_empty line e h) refl)
]
  where
    not_empty :
        (line : Text)
        → is_empty line ≡ false
        → is_blank line ≡ false
        → is_empty (trim_left b' ' line) ≡ false
    not_empty line e h = ground (arith, trim_left-all line)

read_lines_iff :
    (os : Platform) (c : Config) (ls : List Text)
    → (read_lines os c ls ≡ fault) ↔ (any is_blank ls ≡ true)
unfolding read_lines
read_lines_iff os c [] = (λ h. cc, λ h. cc)
read_lines_iff os c (l ∷ ls) = elim (Bool-cases (is_blank l)) [
  | inl e ↦ rw (view_of-blank l e, e) (λ _. refl, λ _. refl)
  | inr e ↦
      rw ((view_of-other l e).1, e) (read_lines_iff os (read_view os c (view_of-other l e).0) ls)
]

-- Of a readable file, getConfig uses an empty view exactly where some line is one or more spaces
-- and nothing else; of all other files it answers.
pub get_config-fault_iff :
    (js : Json) (os : Platform) (s : Text)
    → (get_config js os (some s) ≡ fault) ↔ (any is_blank (split b'\n' s) ≡ true)
unfolding get_config parse_config
get_config-fault_iff js os s = (
  λ h. (read_lines_iff os empty_config (split b'\n' s)).0 (bind-fault (parse_config os s) h),
  λ h. rw ((read_lines_iff os empty_config (split b'\n' s)).1 h) refl,
)
  where
    bind-fault : (r : Result Config) → (r >>= λ c. ok (config_json js os c)) ≡ fault → r ≡ fault
    bind-fault (ok c) h = cc
    bind-fault throw h = cc
    bind-fault fault h = refl

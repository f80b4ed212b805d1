-- ===== src/RcConf/Write/Inert.antt =====
-- The bytes of what setRcIpConfig writes (src/rcconf.cpp).
use nmdaemon.Platform.{Platform}
use nmdaemon.Prelude.{
  ℕ, ◌+◌, ◌<◌, ◌≡◌, refl, arith, true, false, is_some, Option, none, some, [], ◌∷◌, ◌++◌, all,
  all-append, if◌then◌else◌, Bool-cases, inl, inr, ◌==◌,
}
use nmdaemon.RcConf.Write.{fix_vlan, inet_value, add_word, route_value}
use nmdaemon.RcConf.Decimal.{all-decimal}
use nmdaemon.RcConf.{
  ipv4_mask_host, inet_mask, aliases_suffix, alias_suffix, decimal, split_last, strtol_positive,
}
use nmdaemon.Text.{Text, text_eq, c_str}
use nmdaemon.Tool.Names.{
  is_inert, is_valid_if_name, is_valid_name, is_valid_rc_word, is_valid_ip_addr, Accepted-inert,
  as_if_name, as_name, as_rc_word,
}

-- Every byte is inert.
abbrev pub IsInert : Text → Type 0
IsInert s = all is_inert s ≡ true

pub append-IsInert : (s t : Text) → IsInert s → IsInert t → IsInert (s ++ t)
append-IsInert s t h k = all-append is_inert s t h k

pub cons-IsInert : (c : ℕ) (s : Text) → is_inert c ≡ true → IsInert s → IsInert (c ∷ s)
cons-IsInert c s h k = ground (arith, h, k)

digit-IsInert : (n : ℕ) → n < 10 → is_inert (b'0' + n) ≡ true
digit-IsInert n h = ground arith

pub decimal-IsInert : (n : ℕ) → IsInert (decimal n)
decimal-IsInert n = all-decimal is_inert digit-IsInert n

Halves : Option (Text × Text) → Type 0
Halves none = Unit
Halves (some (a, b)) = IsInert a × IsInert b

split_last-Halves : (d : ℕ) (s : Text) → IsInert s → Halves (split_last d s)
unfolding split_last Halves
split_last-Halves d [] h = tt
split_last-Halves d (c ∷ s) h = go (split_last d s) (split_last-Halves d s (ground (arith, h)))
  where
    go :
        (o : Option (Text × Text))
        → Halves o
        → Halves (elim o [
          | some (a, b) ↦ some (c ∷ a, b)
          | none ↦ (if c == d then some ([], s) else none)
        ])
    go (some (a, b)) w = (cons-IsInert c a (ground (arith, h)) w.0, w.1)
    go none w = elim (Bool-cases (c == d)) [
      | inl e ↦ rw e (refl, ground (arith, h))
      | inr e ↦ rw e tt
    ]

pub fix_vlan-IsInert : (s : Text) → IsInert s → IsInert (fix_vlan s)
unfolding fix_vlan Halves
fix_vlan-IsInert s h = go (split_last b'.' s) (split_last-Halves b'.' s h)
  where
    go :
        (o : Option (Text × Text))
        → Halves o
        → IsInert
            (elim o [ some (a, b) ↦ (if strtol_positive b then a ++ b'_' ∷ b else s) | none ↦ s ])
    go none w = h
    go (some (a, b)) w = elim (Bool-cases (strtol_positive b)) [
      | inl e ↦ rw e (append-IsInert a (b'_' ∷ b) w.0 w.1)
      | inr e ↦ rw e h
    ]

-- Every byte in front of the first NUL is inert.
abbrev pub IsClipped : Text → Type 0
IsClipped s = IsInert (c_str s)

pub clip : (s : Text) → IsInert s → IsClipped s
unfolding c_str
clip [] h = refl
clip (c ∷ s) h = ground (arith, h, clip s)

append-IsClipped : (s t : Text) → IsClipped s → IsClipped t → IsClipped (s ++ t)
unfolding c_str
append-IsClipped [] t h k = k
append-IsClipped (c ∷ s) t h k = elim (Bool-cases (c == 0)) [
  | inl e ↦ rw e refl
  | inr e ↦ clipped_cons e (λ q. append-IsClipped s t q k)
]
  where
    clipped_cons : (c == 0) ≡ false → (IsClipped s → IsClipped (s ++ t)) → IsClipped (c ∷ (s ++ t))
    clipped_cons e rest = ground (arith, e, h, rest)

pub add_word-IsClipped : (s w : Text) → IsClipped s → IsClipped w → IsClipped (add_word s w)
unfolding add_word c_str
add_word-IsClipped [] w h k = k
add_word-IsClipped (c ∷ s) w h k = append-IsClipped (c ∷ s) (b' ' ∷ w) h k

pub inet_value-IsClipped :
    (ip mask : Text) → IsClipped ip → IsClipped mask → IsClipped (inet_value ip mask)
unfolding inet_value c_str
inet_value-IsClipped ip mask h k = append-IsClipped ip (b' ' ∷ (inet_mask ++ b' ' ∷ mask)) h k

pub route_value-IsClipped :
    (ip mask gw : Text)
    → IsClipped ip
    → IsClipped mask
    → IsClipped gw
    → IsClipped (route_value ip mask gw)
unfolding route_value c_str
route_value-IsClipped ip mask gw h k l = elim (Bool-cases (text_eq mask ipv4_mask_host)) [
  | inl e ↦ rw e (append-IsClipped ip (b' ' ∷ gw) h l)
  | inr e ↦ rw e (
      append-IsClipped ip (b' ' ∷ b'-' ∷ (inet_mask ++ b' ' ∷ (mask ++ b' ' ∷ gw))) h
        (append-IsClipped mask (b' ' ∷ gw) k l))
]

pub aliases-IsInert : (name : Text) → IsInert name → IsInert (name ++ b'_' ∷ aliases_suffix)
aliases-IsInert name h = append-IsInert name (b'_' ∷ aliases_suffix) h refl

pub alias-IsInert :
    (name : Text) (i : ℕ) → IsInert name → IsInert (name ++ b'_' ∷ (alias_suffix ++ decimal i))
alias-IsInert name i h =
    append-IsInert name (b'_' ∷ (alias_suffix ++ decimal i)) h (decimal-IsInert i)

pub if_name-IsInert : (s : Text) → is_valid_if_name s ≡ true → IsInert s
if_name-IsInert s h = (Accepted-inert s (as_if_name h)).2

pub name-IsInert : (s : Text) → is_valid_name s ≡ true → IsInert s
name-IsInert s h = (Accepted-inert s (as_name h)).2

pub rc_word-IsInert : (s : Text) → is_valid_rc_word s ≡ true → IsInert s
rc_word-IsInert s h = (Accepted-inert s (as_rc_word h)).2

-- inet_pton accepts inert texts alone: digits, letters, points and colons.
module _ (os : Platform) (inert4 : (s : Text) → is_some (os.inet_pton4 s) ≡ true → IsInert s)
    (inert6 : (s : Text) → is_some (os.inet_pton6 s) ≡ true → IsInert s) where
  pub ip-IsClipped : (s : Text) → is_valid_ip_addr os s ≡ true → IsClipped s
  unfolding is_valid_ip_addr
  ip-IsClipped s h = elim (Bool-cases (is_some (os.inet_pton4 (c_str s)))) [
    | inl e ↦ inert4 (c_str s) e
    | inr e ↦ inert6 (c_str s) (ground (arith, h, e))
  ]

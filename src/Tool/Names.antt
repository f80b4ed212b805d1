-- ===== src/Tool/Names.antt =====
-- The checks of names that come from clients (src/tool.cpp): isValidIfName, isValidName,
-- isValidRcWord, isValidDomainName, isValidWpaParamName, isValidIpAddr. A text is its bytes, and
-- the tests of <cctype> are those of the C locale.
use nmdaemon.Platform.{Platform}
use nmdaemon.Prelude.{
  ℕ, ◌≤◌, ◌≡◌, ◌≢◌, refl, arith, Bool, true, false, not, ◌&&◌, ◌||◌, [], ◌∷◌, ltb, leb, ◌==◌,
  if◌then◌else◌, length, all, is_some,
}
use nmdaemon.Text.{Text, is_empty, c_str}

abbrev pub is_lower : ℕ → Bool
is_lower c = leb b'a' c && leb c b'z'

abbrev pub is_upper : ℕ → Bool
is_upper c = leb b'A' c && leb c b'Z'

abbrev pub is_digit : ℕ → Bool
is_digit c = leb b'0' c && leb c b'9'

abbrev pub is_alpha : ℕ → Bool
is_alpha c = is_lower c || is_upper c

abbrev pub is_alnum : ℕ → Bool
is_alnum c = is_alpha c || is_digit c

-- IFNAMSIZ of <net/if.h>
abbrev pub ifnamsiz : ℕ
ifnamsiz = 16

if_name_byte : ℕ → Bool
if_name_byte c = is_alnum c || c == b'.' || c == b'_' || c == b'-'

first_is_alpha : Text → Bool
first_is_alpha [] = false
first_is_alpha (c ∷ s) = is_alpha c

unfoldable pub is_valid_if_name : Text → Bool
unfolding if_name_byte first_is_alpha
is_valid_if_name s =
    if is_empty s || leb ifnamsiz (length s)
    then false
    else if not (first_is_alpha s)
    then false
    else all if_name_byte s

name_byte : ℕ → Bool
name_byte c = is_alnum c || c == b'_'

unfoldable pub is_valid_name : Text → Bool
unfolding name_byte
is_valid_name s = if is_empty s || ltb 64 (length s) then false else all name_byte s

rc_word_byte : ℕ → Bool
rc_word_byte c = is_alnum c || c == b' ' || c == b'.' || c == b'_' || c == b'-'

unfoldable pub is_valid_rc_word : Text → Bool
unfolding rc_word_byte
is_valid_rc_word s = if is_empty s || ltb 64 (length s) then false else all rc_word_byte s

domain_byte : ℕ → Bool
domain_byte c = is_alnum c || c == b'.' || c == b'-' || c == b'_'

unfoldable pub is_valid_domain_name : Text → Bool
unfolding domain_byte
is_valid_domain_name s = if is_empty s || ltb 253 (length s) then false else all domain_byte s

param_byte : ℕ → Bool
param_byte c = is_lower c || is_digit c || c == b'_'

unfoldable pub is_valid_wpa_param_name : Text → Bool
unfolding param_byte
is_valid_wpa_param_name s = if is_empty s || ltb 64 (length s) then false else all param_byte s

module _ (os : Platform) where
  open os use {inet_pton4, inet_pton6}

  unfoldable pub is_valid_ip_addr : Text → Bool
  unfolding c_str
  is_valid_ip_addr s =
      if is_empty s then false else is_some (inet_pton4 (c_str s)) || is_some (inet_pton6 (c_str s))

-- A letter, a digit, a space, a point, a colon, an underscore or a hyphen.
abbrev pub is_inert : ℕ → Bool
is_inert c = is_alnum c || c == b' ' || c == b'.' || c == b':' || c == b'_' || c == b'-'

module _ (p q : ℕ → Bool) (weaker : (c : ℕ) → p c ≡ true → q c ≡ true) where
  pub all_mono : (s : Text) → all p s ≡ true → all q s ≡ true
  all_mono [] h = refl
  all_mono (c ∷ s) h = ground (arith, weaker c, all_mono s)

if_name-inert : (c : ℕ) → if_name_byte c ≡ true → is_inert c ≡ true
unfolding if_name_byte
if_name-inert c h = ground arith

name-inert : (c : ℕ) → name_byte c ≡ true → is_inert c ≡ true
unfolding name_byte
name-inert c h = ground arith

rc_word-inert : (c : ℕ) → rc_word_byte c ≡ true → is_inert c ≡ true
unfolding rc_word_byte
rc_word-inert c h = ground arith

domain-inert : (c : ℕ) → domain_byte c ≡ true → is_inert c ≡ true
unfolding domain_byte
domain-inert c h = ground arith

param-inert : (c : ℕ) → param_byte c ≡ true → is_inert c ≡ true
unfolding param_byte
param-inert c h = ground arith

if_name-all : (s : Text) → is_valid_if_name s ≡ true → all if_name_byte s ≡ true
unfolding is_valid_if_name
if_name-all s h = ground arith

name-all : (s : Text) → is_valid_name s ≡ true → all name_byte s ≡ true
unfolding is_valid_name
name-all s h = ground arith

rc_word-all : (s : Text) → is_valid_rc_word s ≡ true → all rc_word_byte s ≡ true
unfolding is_valid_rc_word
rc_word-all s h = ground arith

domain-all : (s : Text) → is_valid_domain_name s ≡ true → all domain_byte s ≡ true
unfolding is_valid_domain_name
domain-all s h = ground arith

domain-line : (c : ℕ) → domain_byte c ≡ true → (not (c == b' ') && not (c == b'\n')) ≡ true
unfolding domain_byte
domain-line c h = ground arith

-- A domain name has neither spaces nor line ends.
pub domain-Lacks :
    (s : Text)
    → is_valid_domain_name s ≡ true
    → all (λ c. not (c == b' ') && not (c == b'\n')) s ≡ true
domain-Lacks s h =
    all_mono domain_byte (λ c. not (c == b' ') && not (c == b'\n')) domain-line s (domain-all s h)

name-line :
    (c : ℕ) → name_byte c ≡ true → (not (c == b' ') && not (c == b'\n') && not (c == b'"')) ≡ true
unfolding name_byte
name-line c h = ground arith

-- A name has neither spaces nor line ends nor quotes.
pub name-Lacks :
    (s : Text)
    → is_valid_name s ≡ true
    → all (λ c. not (c == b' ') && not (c == b'\n') && not (c == b'"')) s ≡ true
name-Lacks s h =
    all_mono name_byte (λ c. not (c == b' ') && not (c == b'\n') && not (c == b'"')) name-line s
      (name-all s h)

param-all : (s : Text) → is_valid_wpa_param_name s ≡ true → all param_byte s ≡ true
unfolding is_valid_wpa_param_name
param-all s h = ground arith

-- Each of the five name checks.
pub data Accepted (s : Text) : Type 0 where
  as_if_name : is_valid_if_name s ≡ true → Accepted s
  as_name : is_valid_name s ≡ true → Accepted s
  as_rc_word : is_valid_rc_word s ≡ true → Accepted s
  as_domain : is_valid_domain_name s ≡ true → Accepted s
  as_wpa_param : is_valid_wpa_param_name s ≡ true → Accepted s

-- A name that one of the five checks accepts is not empty, has at most 253 bytes, and holds letters,
-- digits, spaces, points, colons, underscores and hyphens alone.
pub Accepted-inert : (s : Text) → Accepted s → (s ≢ []) × (length s ≤ 253) × (all is_inert s ≡ true)
Accepted-inert s (as_if_name h) = (
  unfold is_valid_if_name in ground arith,
  unfold is_valid_if_name in ground arith,
  all_mono if_name_byte is_inert if_name-inert s (if_name-all s h),
)
Accepted-inert s (as_name h) = (
  unfold is_valid_name in ground arith,
  unfold is_valid_name in ground arith,
  all_mono name_byte is_inert name-inert s (name-all s h),
)
Accepted-inert s (as_rc_word h) = (
  unfold is_valid_rc_word in ground arith,
  unfold is_valid_rc_word in ground arith,
  all_mono rc_word_byte is_inert rc_word-inert s (rc_word-all s h),
)
Accepted-inert s (as_domain h) = (
  unfold is_valid_domain_name in ground arith,
  unfold is_valid_domain_name in ground arith,
  all_mono domain_byte is_inert domain-inert s (domain-all s h),
)
Accepted-inert s (as_wpa_param h) = (
  unfold is_valid_wpa_param_name in ground arith,
  unfold is_valid_wpa_param_name in ground arith,
  all_mono param_byte is_inert param-inert s (param-all s h),
)

-- ===== src/RcConf.antt =====
-- RcConf (src/rcconf.h, src/rcconf.cpp): the words of rc.conf, and std::to_string. The children
-- model the scans of values (Scan), the reading of a file (Read) and its writing (Write).
pub mod Decimal
pub mod Scan
pub mod Write
pub mod Read
use nmdaemon.Prelude.{
  ℕ, zero, suc, ◌+◌, ◌*◌, ◌/◌, ◌%◌, String, Bool, true, false, Option, none, some, List, [], ◌∷◌,
  ◌++◌, ltb, ◌==◌, if◌then◌else◌,
}
use nmdaemon.Text.{Text, codes}

abbrev pub ifconfig_key_prefix : Text
ifconfig_key_prefix = codes "ifconfig_"

abbrev pub default_route_key : Text
default_route_key = codes "defaultrouter"

abbrev pub routes_key : Text
routes_key = codes "static_routes"

abbrev pub route_key_prefix : Text
route_key_prefix = codes "route_"

abbrev pub inet_addr : Text
inet_addr = codes "inet"

abbrev pub inet_mask : Text
inet_mask = codes "netmask"

abbrev pub dhcp_suffix : Text
dhcp_suffix = codes "DHCP"

abbrev pub aliases_suffix : Text
aliases_suffix = codes "aliases"

abbrev pub alias_suffix : Text
alias_suffix = codes "alias"

abbrev pub ipv4_mask_host : Text
ipv4_mask_host = codes "255.255.255.255"

abbrev pub route_prefix_host : Text
route_prefix_host = codes "-host"

abbrev pub route_prefix_net : Text
route_prefix_net = codes "-net"

abbrev pub max_aliases : ℕ
max_aliases = 999

-- std::to_string of a number below 10 ^ 20, which all 64-bit numbers are: at most 20 digits, the
-- last one first.
unfoldable pub digits : ℕ → ℕ → Text → Text
digits zero n s = s
digits (suc k) n s =
    let rest = digits k (n / 10) ((b'0' + n % 10) ∷ s) in if ltb n 10 then (b'0' + n) ∷ s else rest

unfoldable pub decimal : ℕ → Text
unfolding digits
decimal n = digits 20 n []

-- std::to_string(a) + "." + std::to_string(b) + "." + ...
unfoldable pub dotted : ℕ → ℕ → ℕ → ℕ → Text
unfolding decimal
dotted a b c d = decimal a ++ b'.' ∷ (decimal b ++ b'.' ∷ (decimal c ++ b'.' ∷ decimal d))

-- "\"" + s + "\""
unfoldable pub quoted : Text → Text
quoted s = b'"' ∷ s ++ b'"' ∷ []

-- The text in front of the last `d` and the text behind it: find_last_of(d) and substr.
unfoldable pub split_last : ℕ → Text → Option (Text × Text)
split_last d [] = none
split_last d (c ∷ s) = elim (split_last d s) [
  | some (a, b) ↦ some (c ∷ a, b)
  | none ↦ (if c == d then some ([], s) else none)
]

-- strtol(s, nullptr, 10) > 0: a number with a digit other than 0, behind white space and a plus.
unfoldable pub nonzero_digits : Text → Bool
nonzero_digits [] = false
nonzero_digits (c ∷ s) =
    let rest = nonzero_digits s in
    if c == b'0' then rest else if ltb c b'1' then false else ltb c (b'9' + 1)

unsigned : Text → Bool
unfolding nonzero_digits
unsigned [] = false
unsigned (c ∷ s) = if c == b'+' then nonzero_digits s else nonzero_digits (c ∷ s)

unfoldable pub strtol_positive : Text → Bool
unfolding unsigned
strtol_positive [] = false
strtol_positive (c ∷ s) =
    let rest = strtol_positive s in
    if c == b' '
    then rest
    else if ltb c 9
    then false
    else if ltb c 14
    then rest
    else unsigned (c ∷ s)

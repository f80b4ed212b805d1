-- ===== src/RcConf/Scan.antt =====
-- RcConf::getIpConfFromString, getRouteConfFromString and getStrInetMaskFromPrefix
-- (src/rcconf.cpp), over the directives that the code gives to sscanf. A number that %d reads is
-- kept as the unsigned int that the code stores it in.
pub mod Octets
pub mod Masks
pub mod Quads
pub mod Unquote
pub mod RoundTrip
pub mod Routes
use nmdaemon.Json.{Json}
use nmdaemon.Ini.{Ini}
use nmdaemon.Keys.{json_param_ipv4_addr, json_param_ipv4_mask, json_param_ipv4_gw}
use nmdaemon.Prelude.{
  ℕ, zero, suc, ◌+◌, ◌-◌, ◌*◌, ◌/◌, ◌%◌, ◌^◌, Bool, true, false, not, ◌&&◌, ◌||◌, Option, none,
  some, is_some, List, [], ◌∷◌, ◌++◌, length, ltb, leb, ◌==◌, if◌then◌else◌,
}
use nmdaemon.RcConf.{
  dhcp_suffix, ipv4_mask_host, route_prefix_host, route_prefix_net, inet_addr, inet_mask, dotted,
}
use nmdaemon.Text.{Text, codes, find}

-- A directive of a format: a byte, white space, %wd or %wx.
pub data Directive : Type 0 where
  byte : ℕ → Directive
  space : Directive
  int : ℕ → Directive
  hex : ℕ → Directive

unfoldable pub is_blank : ℕ → Bool
is_blank c = c == b' ' || (leb 9 c && leb c 13)

unfoldable pub skip_blanks : Text → Text
unfolding is_blank
skip_blanks [] = []
skip_blanks (c ∷ s) = let rest = skip_blanks s in if is_blank c then rest else c ∷ s

-- The value of a digit in a base, if it is one.
unfoldable pub digit : ℕ → ℕ → Option ℕ
digit base c =
    if leb b'0' c && leb c b'9'
    then some (c - b'0')
    else if base == 16 && leb b'a' c && leb c b'f'
    then some (c - b'a' + 10)
    else if base == 16 && leb b'A' c && leb c b'F'
    then some (c - b'A' + 10)
    else none

-- At most `w` further digits, behind those that make `n`.
unfoldable pub more_digits : ℕ → ℕ → ℕ → Text → ℕ × Text
unfolding digit
more_digits base zero n s = (n, s)
more_digits base (suc w) n [] = (n, [])
more_digits base (suc w) n (c ∷ s) = elim (digit base c) [
  | some v ↦ more_digits base w (n * base + v) s
  | none ↦ (n, c ∷ s)
]

-- A number: one digit at least.
unfoldable pub number : ℕ → ℕ → Text → Option (ℕ × Text)
unfolding more_digits digit
number base zero s = none
number base (suc w) [] = none
number base (suc w) (c ∷ s) = elim (digit base c) [
  | some v ↦ some (more_digits base w v s)
  | none ↦ none
]

unfoldable pub negated : Option (ℕ × Text) → Option (ℕ × Text)
negated none = none
negated (some (n, s)) = some ((2 ^ 32 - n) % 2 ^ 32, s)

-- %wd behind white space: a sign counts in the width.
unfoldable pub signed : ℕ → Text → Option (ℕ × Text)
unfolding number negated
signed w [] = none
signed w (c ∷ s) =
    if c == b'-'
    then negated (number 10 (w - 1) s)
    else if c == b'+'
    then number 10 (w - 1) s
    else number 10 w (c ∷ s)

-- %wx behind white space and a sign: a prefix 0x counts in the width. Where no digit follows
-- the prefix, FreeBSD reads the 0 alone.
unfoldable pub prefixed : ℕ → Text → Option (ℕ × Text)
unfolding number
prefixed w (c ∷ d ∷ s) =
    if c == b'0' && (d == b'x' || d == b'X') && leb 2 w
    then (elim (number 16 (w - 2) s) [ some r ↦ some r | none ↦ some (0, d ∷ s) ])
    else number 16 w (c ∷ d ∷ s)
prefixed w s = number 16 w s

unfoldable pub signed_hex : ℕ → Text → Option (ℕ × Text)
unfolding prefixed negated
signed_hex w [] = none
signed_hex w (c ∷ s) =
    if c == b'-'
    then negated (prefixed (w - 1) s)
    else if c == b'+'
    then prefixed (w - 1) s
    else prefixed w (c ∷ s)

-- sscanf: the numbers that it stores, which its result counts.
unfoldable pub sscanf : List Directive → Text → List ℕ
unfolding skip_blanks signed signed_hex
sscanf [] s = []
sscanf (byte d ∷ ds) [] = []
sscanf (byte d ∷ ds) (c ∷ s) = let rest = sscanf ds s in if c == d then rest else []
sscanf (space ∷ ds) s = sscanf ds (skip_blanks s)
sscanf (int w ∷ ds) s = elim (signed w (skip_blanks s)) [
  | some (n, rest) ↦ n ∷ sscanf ds rest
  | none ↦ []
]
sscanf (hex w ∷ ds) s = elim (signed_hex w (skip_blanks s)) [
  | some (n, rest) ↦ n ∷ sscanf ds rest
  | none ↦ []
]

-- A word of a format.
unfoldable pub bytes : Text → List Directive → List Directive
bytes [] ds = ds
bytes (c ∷ s) ds = byte c ∷ bytes s ds

-- "%3d.%3d.%3d.%3d"
unfoldable pub quad : List Directive → List Directive
quad ds = int 3 ∷ byte b'.' ∷ int 3 ∷ byte b'.' ∷ int 3 ∷ byte b'.' ∷ int 3 ∷ ds

unfoldable pub if_format_1 : List Directive
unfolding quad bytes
if_format_1 = bytes inet_addr (space ∷ quad (byte b'/' ∷ int 2 ∷ []))

unfoldable pub if_format_2 : List Directive
unfolding quad bytes
if_format_2 = bytes inet_addr (space ∷ quad (space ∷ bytes inet_mask (space ∷ hex 10 ∷ [])))

unfoldable pub if_format_3 : List Directive
unfolding quad bytes
if_format_3 = bytes inet_addr (space ∷ quad (space ∷ bytes inet_mask (space ∷ quad [])))

unfoldable pub rt_format_net_1 : List Directive
unfolding quad bytes
rt_format_net_1 = bytes route_prefix_net (space ∷ quad (byte b'/' ∷ int 2 ∷ space ∷ quad []))

unfoldable pub rt_format_net_2 : List Directive
unfolding quad bytes
rt_format_net_2 =
    bytes route_prefix_net
      (space ∷ quad (space ∷ byte b'-' ∷ bytes inet_mask (space ∷ hex 10 ∷ space ∷ quad [])))

unfoldable pub rt_format_net_3 : List Directive
unfolding quad bytes
rt_format_net_3 =
    bytes route_prefix_net
      (space ∷ quad (space ∷ byte b'-' ∷ bytes inet_mask (space ∷ quad (space ∷ quad []))))

unfoldable pub rt_format_host_1 : List Directive
unfolding quad bytes
rt_format_host_1 = bytes route_prefix_host (space ∷ quad (space ∷ quad []))

-- lmask, for a prefix from 1 to 32: the shift is one of a 32-bit number.
unfoldable pub lmask : ℕ → ℕ
lmask prefix = 0xFFFFFFFF * 2 ^ (32 - prefix) % 2 ^ 32

unfoldable pub get_str_inet_mask_from_prefix : ℕ → Text
unfolding lmask dotted
get_str_inet_mask_from_prefix prefix =
    dotted (lmask prefix / 2 ^ 24) (lmask prefix / 2 ^ 16 % 256) (lmask prefix / 2 ^ 8 % 256)
      (lmask prefix % 256)

-- htonl on a little-endian machine
unfoldable pub htonl : ℕ → ℕ
htonl n = n % 256 * 2 ^ 24 + n / 2 ^ 8 % 256 * 2 ^ 16 + n / 2 ^ 16 % 256 * 2 ^ 8 + n / 2 ^ 24 % 256

-- The bytes of the address in the order in which they stand in memory.
unfoldable pub inet_ntoa : ℕ → Text
unfolding dotted
inet_ntoa n = dotted (n % 256) (n / 2 ^ 8 % 256) (n / 2 ^ 16 % 256) (n / 2 ^ 24 % 256)

-- What a value is decoded to: a DHCP keyword, or an address with its mask.
pub data IpConf : Type 0 where
  keyword : Text → IpConf
  static : Text → Text → IpConf

-- The first of the decodings that applies.
unfoldable pub or_else {ℓ} : {A : Type ℓ} → Option A → Option A → Option A
or_else none o = o
or_else (some x) o = some x

unfoldable pub in_prefix_range : ℕ → Bool
in_prefix_range p = ltb 0 p && leb p 32

unfoldable pub if_prefix : List ℕ → Option IpConf
unfolding in_prefix_range get_str_inet_mask_from_prefix dotted
if_prefix (a ∷ b ∷ c ∷ d ∷ p ∷ []) =
    if in_prefix_range p
    then some (static (dotted a b c d) (get_str_inet_mask_from_prefix p))
    else none
if_prefix _ = none

unfoldable pub if_dotted : List ℕ → Option IpConf
unfolding dotted
if_dotted (a ∷ b ∷ c ∷ d ∷ e ∷ f ∷ g ∷ h ∷ []) = some (static (dotted a b c d) (dotted e f g h))
if_dotted _ = none

unfoldable pub if_hex : List ℕ → Option IpConf
unfolding dotted htonl inet_ntoa
if_hex (a ∷ b ∷ c ∷ d ∷ m ∷ []) = some (static (dotted a b c d) (inet_ntoa (htonl m)))
if_hex _ = none

-- An address, a mask and a gateway.
pub record RouteConf : Type 0 where
  pub addr : Text
  pub mask : Text
  pub gw : Text

unfoldable pub rt_prefix : List ℕ → Option RouteConf
unfolding in_prefix_range get_str_inet_mask_from_prefix dotted
rt_prefix (a ∷ b ∷ c ∷ d ∷ p ∷ e ∷ f ∷ g ∷ h ∷ []) =
    if in_prefix_range p
    then some (record {
      addr = dotted a b c d;
      mask = get_str_inet_mask_from_prefix p;
      gw = dotted e f g h;
    })
    else none
rt_prefix _ = none

unfoldable pub rt_dotted : List ℕ → Option RouteConf
unfolding dotted
rt_dotted (a ∷ b ∷ c ∷ d ∷ e ∷ f ∷ g ∷ h ∷ i ∷ j ∷ k ∷ l ∷ []) =
    some (record { addr = dotted a b c d; mask = dotted e f g h; gw = dotted i j k l })
rt_dotted _ = none

unfoldable pub rt_hex : List ℕ → Option RouteConf
unfolding dotted htonl inet_ntoa
rt_hex (a ∷ b ∷ c ∷ d ∷ m ∷ e ∷ f ∷ g ∷ h ∷ []) =
    some (record { addr = dotted a b c d; mask = inet_ntoa (htonl m); gw = dotted e f g h })
rt_hex _ = none

unfoldable pub rt_host : List ℕ → Option RouteConf
unfolding dotted
rt_host (a ∷ b ∷ c ∷ d ∷ e ∷ f ∷ g ∷ h ∷ []) =
    some (record { addr = dotted a b c d; mask = ipv4_mask_host; gw = dotted e f g h })
rt_host _ = none

module _ (ini : Ini) where
  -- Trim(s, quotes); Trim(s, space)
  unfoldable pub unquote : Text → Text
  unquote s = ini.trim b' ' (ini.trim b'"' s)

  decode_ip : Text → Option IpConf
  unfolding sscanf if_format_1 if_format_2 if_format_3 if_prefix if_dotted if_hex or_else
  decode_ip s =
      or_else (if_prefix (sscanf if_format_1 s))
        (or_else (if_dotted (sscanf if_format_3 s)) (if_hex (sscanf if_format_2 s)))

  -- `none` stands for the null value.
  unfoldable pub get_ip_conf_from_string : Text → Option IpConf
  unfolding unquote decode_ip find
  get_ip_conf_from_string ifconfig =
      if is_some (find (unquote ifconfig) dhcp_suffix)
      then some (keyword (unquote ifconfig))
      else decode_ip (unquote ifconfig)

  decode_route : Text → Option RouteConf
  unfolding sscanf rt_format_net_1 rt_format_net_2 rt_format_net_3 rt_format_host_1 rt_prefix
      rt_dotted rt_hex rt_host or_else
  decode_route s = or_else (rt_prefix (sscanf rt_format_net_1 s)) (
      or_else (rt_dotted (sscanf rt_format_net_3 s))
        (or_else (rt_hex (sscanf rt_format_net_2 s)) (rt_host (sscanf rt_format_host_1 s))))

  unfoldable pub get_route_conf_from_string : Text → Option RouteConf
  unfolding unquote decode_route
  get_route_conf_from_string rtconfig = decode_route (unquote rtconfig)

-- ===== src/Tool/FromJson.antt =====
-- Tool::getAddrFromJson (src/tool.cpp): the addresses of a command's DATA section.
pub mod Families
pub mod Masks
pub mod RoundTrip
use nmdaemon.Address.{Address, ip4_of_text, ip6_of_text}
use nmdaemon.Group.{GroupType, bcast, ppp, route, unknown, Group, make}
use nmdaemon.Json.{Json}
use nmdaemon.Keys.{
  json_param_data, json_param_ipv4_addr, json_param_ipv6_addr, json_param_ipv4_mask,
  json_param_ipv6_mask, json_param_ipv4_bcast, json_param_ipv6_bcast, json_param_ipv4_gw,
  json_param_ipv6_gw,
}
use nmdaemon.Platform.{Family, inet, inet6, Platform}
use nmdaemon.Prelude.{
  ℕ, String, Bool, true, false, not, ◌&&◌, ◌||◌, Option, none, some, Result, ok, throw, fault,
  ◌>>=◌, or_throw, [], if◌then◌else◌, is_some,
}
use nmdaemon.Text.{Text, is_empty}

-- str_ifaddr, str_ifmask, str_ifgw, str_ifbcast and ip_type.
pub record Params : Type 0 where
  pub addr : Text
  pub mask : Text
  pub gw : Text
  pub bcast : Text
  pub type : GroupType

optional_address : (Text → Result Address) → Text → Result (Option Address)
optional_address make s = if is_empty s then ok none else (make s >>= λ a. ok (some a))

is_gw_type : GroupType → Bool
is_gw_type ppp = true
is_gw_type route = true
is_gw_type _ = false

is_bcast_type : GroupType → Bool
is_bcast_type bcast = true
is_bcast_type _ = false

-- sp_ifdata
extra_address : (Text → Result Address) → Params → Result (Option Address)
unfolding optional_address is_gw_type is_bcast_type
extra_address of_text p =
    if is_bcast_type p.type && not (is_empty p.bcast)
    then optional_address of_text p.bcast
    else if is_gw_type p.type && not (is_empty p.gw)
    then optional_address of_text p.gw
    else ok none

-- sp_ifaddr, sp_ifmask and sp_ifdata, and the group.
unfoldable pub make_group : (Text → Result Address) → Params → Result Group
unfolding extra_address optional_address
make_group of_text p = do
  a ← optional_address of_text p.addr
  m ← optional_address of_text p.mask
  d ← extra_address of_text p
  ok (make a m d p.type)

-- An exception becomes a null pointer.
abbrev pub null_on_throw {ℓ} : {A : Type ℓ} → Result A → Option A
null_on_throw (ok a) = some a
null_on_throw throw = none
null_on_throw fault = none

module _ (js : Json) where
  open js use {Value, find, text}

  abbrev pub contains : String → Value → Bool
  contains k j = is_some (find k j)

  text_of : Option Value → Result Text
  text_of none = ok []
  text_of (some v) = or_throw (text v)

  -- if(data.contains(key)) s = data[key], with s empty before
  read_text : String → Value → Result Text
  unfolding text_of
  read_text k j = text_of (find k j)

  read_extra : String → String → Value → Text → Text → Result Params
  unfolding read_text
  read_extra bcast_key gw_key j addr mask =
      if contains bcast_key j
      then (do
        b ← read_text bcast_key j
        ok (record { addr = addr; mask = mask; gw = []; bcast = b; type = bcast }))
      else if contains gw_key j
      then (do
        g ← read_text gw_key j
        ok (record { addr = addr; mask = mask; gw = g; bcast = []; type = ppp }))
      else ok (record { addr = addr; mask = mask; gw = []; bcast = []; type = unknown })

  read_params : String → String → String → String → Value → Result Params
  unfolding read_extra
  read_params addr_key mask_key bcast_key gw_key j = do
    a ← read_text addr_key j
    m ← read_text mask_key j
    read_extra bcast_key gw_key j a m

  -- The IPv4 case asks for the key of the IPv6 broadcast address, as the source does.
  read_family : Family → Value → Result Params
  unfolding read_params
  read_family inet j =
      read_params json_param_ipv4_addr json_param_ipv4_mask json_param_ipv6_bcast json_param_ipv4_gw
        j
  read_family _ j =
      read_params json_param_ipv6_addr json_param_ipv6_mask json_param_ipv6_bcast json_param_ipv6_gw
        j

  pub data_family : Value → Option Family
  data_family j =
      if contains json_param_ipv4_addr j
        || contains json_param_ipv4_mask j
        || contains json_param_ipv4_bcast j
        || contains json_param_ipv4_gw j
      then some inet
      else if contains json_param_ipv6_addr j
          || contains json_param_ipv6_mask j
          || contains json_param_ipv6_bcast j
          || contains json_param_ipv6_gw j
      then some inet6
      else none

  module _ (os : Platform) where
    of_text : Family → Text → Result Address
    of_text inet = ip4_of_text os
    of_text _ = ip6_of_text os

    of_params : Family → Params → Option Group
    unfolding make_group of_text
    of_params f p =
        if is_empty p.addr && is_empty p.mask && is_empty p.gw && is_empty p.bcast
        then none
        else null_on_throw (make_group (of_text f) p)

    of_read : Family → Result Params → Option Group
    unfolding of_params
    of_read f (ok p) = of_params f p
    of_read f throw = none
    of_read f fault = none

    of_family : Option Family → Value → Option Group
    unfolding of_read read_family
    of_family none j = none
    of_family (some f) j = of_read f (read_family f j)

    of_data : Option Value → Option Group
    unfolding of_family data_family
    of_data none = none
    of_data (some j) = of_family (data_family j) j

    unfoldable pub get_addr_from_json : Value → Option Group
    unfolding of_data
    get_addr_from_json cmd = of_data (find json_param_data cmd)

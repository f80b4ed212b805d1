-- ===== src/RcConf/Read.antt =====
-- RcConf::getRcIpConfig (src/rcconf.cpp) on the keys and values of a loaded file. What the code
-- keeps in JSON values on the way is kept here as records, and the JSON is made at the end.
pub mod Active
pub mod Enabled
pub mod Pieces
use nmdaemon.Address.{Address, ip4_of_text}
use nmdaemon.Group.{make, ppp}
use nmdaemon.Group.Valid.{is_valid_ip}
use nmdaemon.Ini.{Ini}
use nmdaemon.Json.{Json}
use nmdaemon.Keys.{
  json_param_interfaces, json_param_routes, json_param_if_name, json_param_addresses,
  json_param_addr_primary, json_param_ipv4_addr, json_param_ipv4_mask, json_param_ipv4_gw,
  json_param_rt_name, json_param_status, json_data_enabled, json_data_disabled, json_param_result,
  json_param_succ, json_param_data,
}
use nmdaemon.Platform.{Platform}
use nmdaemon.Prelude.{
  ℕ, zero, suc, ◌+◌, String, Bool, true, false, not, ◌&&◌, ◌||◌, Option, none, some, is_some,
  Result, ok, throw, fault, ◌>>=◌, catch, List, [], ◌∷◌, ◌++◌, map, length, take, drop, any, ltb,
  ◌==◌, if◌then◌else◌,
}
use nmdaemon.RcConf.Scan.{
  IpConf, keyword, static, RouteConf, get_ip_conf_from_string, get_route_conf_from_string,
}
use nmdaemon.RcConf.{
  ifconfig_key_prefix, default_route_key, routes_key, route_key_prefix, inet_addr, aliases_suffix,
  alias_suffix, split_last, strtol_positive,
}
use nmdaemon.Text.{Text, codes, text_eq, starts_with, find, split, trim}

-- operator< of std::string
unfoldable pub text_lt : Text → Text → Bool
text_lt [] [] = false
text_lt [] (d ∷ t) = true
text_lt (c ∷ s) [] = false
text_lt (c ∷ s) (d ∷ t) = let rest = text_lt s t in if c == d then rest else ltb c d

-- emplace of a std::map: a key that is there keeps its value.
unfoldable pub emplace : Text → Text → List (Text × Text) → List (Text × Text)
unfolding text_lt text_eq
emplace k v [] = (k, v) ∷ []
emplace k v ((l, w) ∷ m) =
    let rest = emplace k v m in
    if text_eq k l then (l, w) ∷ m else if text_lt k l then (k, v) ∷ (l, w) ∷ m else (l, w) ∷ rest

-- The pieces of a text that start with each "inet" after the one before; the search for the next
-- one starts behind it. `n` bounds the number of rounds.
unfoldable pub pieces : ℕ → Text → List Text
unfolding find
pieces zero s = []
pieces (suc n) s = elim (find s inet_addr) [
  | none ↦ []
  | some i ↦ (elim (find (drop (length inet_addr) (drop i s)) inet_addr) [
    | none ↦ drop i s ∷ []
    | some j ↦
        take (length inet_addr + j) (drop i s) ∷ pieces n (drop (length inet_addr + j) (drop i s))
  ])
]

-- strDefaultRouter, setActiveRoutes, mapInterfaces and mapRoutes.
pub record Gathered : Type 0 where
  pub router : Text
  pub active : List Text
  pub interfaces : List (Text × Text)
  pub routes : List (Text × Text)

-- An interface of jarInterfaces: its name, whether it is marked as primary, and its address.
pub record RcInterface : Type 0 where
  pub name : Text
  pub primary : Bool
  pub conf : IpConf

-- jaliases, aliases_processed and jarInterfaces.
pub record Listing : Type 0 where
  pub aliases : List (Text × List IpConf)
  pub processed : Bool
  pub found : List RcInterface

-- jaliases[name], and an address put behind those of a name.
unfoldable pub aliases_of : Text → List (Text × List IpConf) → Option (List IpConf)
unfolding text_eq
aliases_of name [] = none
aliases_of name ((n, l) ∷ m) =
    let rest = aliases_of name m in if text_eq name n then some l else rest

unfoldable pub push_alias :
    Text → List IpConf → List (Text × List IpConf) → List (Text × List IpConf)
unfolding text_eq
push_alias name cs [] = (name, cs) ∷ []
push_alias name cs ((n, l) ∷ m) =
    let rest = push_alias name cs m in if text_eq name n then (n, l ++ cs) ∷ m else (n, l) ∷ rest

unfoldable pub list_of_option {ℓ} : {A : Type ℓ} → Option A → List A
list_of_option none = []
list_of_option (some x) = x ∷ []

unfoldable pub decoded {ℓ} : {A : Type ℓ} → (Text → Option A) → List Text → List A
unfolding list_of_option
decoded f [] = []
decoded f (s ∷ ss) = list_of_option (f s) ++ decoded f ss

module _ (ini : Ini) where
  -- The words of static_routes. The source keeps them in a set, of which only membership is read.
  unfoldable pub active_routes : Text → List Text
  unfolding split trim
  active_routes v = map (trim b' ') (split b' ' (ini.trim b'"' v))

  unfoldable pub gather : Text × Text → Gathered → Gathered
  unfolding active_routes emplace text_eq starts_with
  gather (k, v) g =
      if text_eq k default_route_key
      then record g { router = ini.trim b'"' v }
      else if text_eq k routes_key
      then record g { active = g.active ++ active_routes v }
      else if starts_with k ifconfig_key_prefix
      then record g { interfaces = emplace (drop (length ifconfig_key_prefix) k) v g.interfaces }
      else if starts_with k route_key_prefix
      then record g { routes = emplace (drop (length route_key_prefix) k) v g.routes }
      else g

  unfoldable pub gather_all : List (Text × Text) → Gathered → Gathered
  unfolding gather
  gather_all [] g = g
  gather_all (e ∷ es) g = gather_all es (gather e g)

  -- The addresses of a list of aliases.
  unfoldable pub alias_list : Text → List IpConf
  unfolding decoded pieces get_ip_conf_from_string
  alias_list v =
      decoded (get_ip_conf_from_string ini)
        (pieces (suc (length (ini.trim b'"' v))) (ini.trim b'"' v))

  list_interface : Text → Bool → Option IpConf → Listing → Listing
  list_interface name primary none st = st
  list_interface name primary (some c) st = record st {
    found = st.found ++ record { name = name; primary = primary; conf = c } ∷ [];
  }

  list_alias : Text → Option IpConf → Listing → Listing
  unfolding push_alias
  list_alias name none st = st
  list_alias name (some c) st = record st { aliases = push_alias name (c ∷ []) st.aliases }

  -- A name with `_`: aliases, an alias, a VLAN interface, or none that is supported.
  list_marked : Text → Text → Text → Text → Listing → Listing
  unfolding alias_list aliases_of push_alias list_alias list_interface get_ip_conf_from_string
      strtol_positive find
  list_marked ifname a b v st =
      if is_some (find ifname aliases_suffix)
      then (if is_some (aliases_of a st.aliases)
          then st
          else record st { aliases = push_alias a (alias_list v) st.aliases; processed = true })
      else if is_some (find ifname alias_suffix)
      then (if st.processed then st else list_alias a (get_ip_conf_from_string ini v) st)
      else if strtol_positive b
      then list_interface (a ++ b'.' ∷ b) false (get_ip_conf_from_string ini v) st
      else st

  -- The body of the loop over mapInterfaces.
  unfoldable pub list_entry : Text × Text → Listing → Listing
  unfolding list_marked list_interface split_last get_ip_conf_from_string
  list_entry (ifname, v) st = elim (split_last b'_' ifname) [
    | some (a, b) ↦ list_marked ifname a b v st
    | none ↦ list_interface ifname true (get_ip_conf_from_string ini v) st
  ]

  unfoldable pub list_all : List (Text × Text) → Listing → Listing
  unfolding list_entry
  list_all [] st = st
  list_all (e ∷ es) st = list_all es (list_entry e st)

  unfoldable pub list_routes : List (Text × Text) → List (Text × RouteConf)
  unfolding get_route_conf_from_string
  list_routes [] = []
  list_routes ((name, v) ∷ es) =
      let rest = list_routes es in
      elim (get_route_conf_from_string ini v) [ some c ↦ (name, c) ∷ rest | none ↦ rest ]

module _ (js : Json) (os : Platform) where
  open js use {Value, null, insert, of_text, of_bool, of_list}

  -- What getIpConfFromString returns.
  unfoldable pub conf_json : IpConf → Value
  conf_json (keyword s) = insert json_param_ipv4_addr (of_text s) null
  conf_json (static a m) =
      insert json_param_ipv4_addr (of_text a) (insert json_param_ipv4_mask (of_text m) null)

  unfoldable pub first_json : RcInterface → Value
  unfolding conf_json
  first_json i =
      if i.primary
      then insert json_param_addr_primary (of_bool true) (conf_json i.conf)
      else conf_json i.conf

  -- Whether the default router fits the address: AddressGroup::isValidIp.
  router_fits : Text → Text → Text → Result Bool
  unfolding is_valid_ip
  router_fits a m router = do
    addr ← ip4_of_text os a
    mask ← ip4_of_text os m
    gw ← ip4_of_text os router
    is_valid_ip (make (some addr) (some mask) (some gw) ppp)

  with_router : Text → Value → Result Bool → Value
  with_router router j (ok true) = insert json_param_ipv4_gw (of_text router) j
  with_router router j (ok false) = j
  with_router router j throw = j
  with_router router j fault = j

  or_empty : Option (List IpConf) → List IpConf
  or_empty none = []
  or_empty (some l) = l

  -- The addresses of an interface: the default router goes to the first one, and the aliases
  -- behind it; a DHCP interface is left alone.
  unfoldable pub addresses_json :
      Text → List (Text × List IpConf) → RcInterface → IpConf → List Value
  unfolding first_json conf_json router_fits with_router or_empty aliases_of
  addresses_json router aliases i (keyword s) = first_json i ∷ []
  addresses_json router aliases i (static a m) =
      with_router router (first_json i) (router_fits a m router)
      ∷ map conf_json (or_empty (aliases_of i.name aliases))

  unfoldable pub interface_json : Text → List (Text × List IpConf) → RcInterface → Value
  unfolding addresses_json
  interface_json router aliases i =
      insert json_param_addresses (of_list (addresses_json router aliases i i.conf))
        (insert json_param_if_name (of_text i.name) null)

  unfoldable pub route_conf_json : RouteConf → Value
  route_conf_json c = insert json_param_ipv4_gw (of_text c.gw) (
      insert json_param_ipv4_addr (of_text c.addr)
        (insert json_param_ipv4_mask (of_text c.mask) null))

  valid_route : RouteConf → Result (Unit {0})
  valid_route c = do
    a ← ip4_of_text os c.addr
    m ← ip4_of_text os c.mask
    g ← ip4_of_text os c.gw
    ok tt

  -- A route that is not active is disabled; one that is active is enabled if its addresses are
  -- valid, and has no status if not.
  unfoldable pub route_status : List Text → Text → RouteConf → Option String
  unfolding valid_route text_eq
  route_status active name c =
      if any (text_eq name) active
      then (elim (valid_route c) [ ok u ↦ some json_data_enabled | throw ↦ none | fault ↦ none ])
      else some json_data_disabled

  with_status : Option String → Value → Value
  with_status none j = j
  with_status (some s) j = insert json_param_status (of_text (codes s)) j

  unfoldable pub route_json : List Text → Text × RouteConf → Value
  unfolding with_status route_status route_conf_json
  route_json active (name, c) = with_status (route_status active name c) (
      insert json_param_addresses (route_conf_json c)
        (insert json_param_rt_name (of_text name) null))

  module _ (ini : Ini) where
    unfoldable pub gathered : ini.File → Gathered
    unfolding gather_all
    gathered f =
        gather_all ini (ini.entries f)
          (record { router = []; active = []; interfaces = []; routes = [] })

    unfoldable pub listing : Gathered → Listing
    unfolding list_all
    listing g = list_all ini g.interfaces (record { aliases = []; processed = false; found = [] })

    unfoldable pub get_rc_ip_config : ini.File → Value
    unfolding gathered listing interface_json route_json list_routes
    get_rc_ip_config f =
        let g = gathered f in
        let l = listing g in
        insert json_param_data
          (insert json_param_routes (of_list (map (route_json g.active) (list_routes ini g.routes)))
            (insert json_param_interfaces
              (of_list (map (interface_json g.router l.aliases) l.found)) null))
          (insert json_param_result (of_text (codes json_param_succ)) null)

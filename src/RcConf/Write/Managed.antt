-- ===== src/RcConf/Write/Managed.antt =====
-- What an edit by setRcIpConfig may do: which keys it may change, and what it leaves in them.
-- The children prove what every such edit keeps of the interfaces, of the routes and of the file.
pub mod Interfaces
pub mod Aliases
pub mod Routes
pub mod Files
use nmdaemon.Ini.{Ini}
use nmdaemon.Json.{Json}
use nmdaemon.Keys.{
  json_param_interfaces, json_param_if_name, json_param_addresses, json_param_rt_name,
  json_param_status, json_data_enabled, json_param_routes, json_param_ipv4_addr,
  json_param_ipv4_mask, json_param_ipv4_gw, json_param_addr_primary,
}
use nmdaemon.Platform.{Platform}
use nmdaemon.Prelude.{
  ℕ, zero, suc, ◌≡◌, ◌⊎◌, refl, sym, ◌∙◌, ap, subst, arith, Bool, true, false, not, ◌&&◌, ◌||◌,
  is_some, Option, none, some, Result, ok, or_throw, List, [], ◌∷◌, ◌++◌, if◌then◌else◌, if_elim,
  &&_iff, ||_false, Bool-cases, inl, inr, Ensures,
}
use nmdaemon.RcConf.Write.Inert.{
  IsInert, IsClipped, append-IsInert, fix_vlan-IsInert, add_word-IsClipped, inet_value-IsClipped,
  route_value-IsClipped, aliases-IsInert, alias-IsInert, if_name-IsInert, name-IsInert,
  rc_word-IsInert, ip-IsClipped,
}
use nmdaemon.RcConf.Write.{
  is_nil, text_at, bool_at, list_of, named_interface, read_interface, named_route, read_route,
  is_ip, valid_route, route_addresses, is_primary, valid_alias, alias_of, add_alias, alias_words,
  set_if_changed, Progress, edit, put_static_gateway, put_gateway, put_dhcp, put_static,
  put_address, put_primary, first_cycle, put_words, put_aliases, remove_old, put_read_interface,
  put_interfaces, Routing, put_addresses, put_route, put_routes, put_active, edited, add_word,
  set_rc_ip_config, inet_value, route_value, fix_vlan, aliases_key, alias_key,
}
use nmdaemon.RcConf.{
  ifconfig_key_prefix, default_route_key, routes_key, route_key_prefix, dhcp_suffix, max_aliases,
  quoted,
}
use nmdaemon.Text.{Text, codes, is_empty, text_eq, find}
use nmdaemon.Tool.Names.{is_valid_if_name, is_valid_name, is_valid_rc_word, is_valid_ip_addr}

-- A key of the network configuration.
pub data IsWritten : Text → Type 0 where
  router : IsWritten default_route_key
  active : IsWritten routes_key
  of_interface : (s : Text) → IsInert s → IsWritten (ifconfig_key_prefix ++ s)
  of_route : (s : Text) → IsInert s → IsWritten (route_key_prefix ++ s)

-- A value that is empty, or one pair of quotes around bytes that are inert up to the first NUL.
abbrev pub IsClean : Text → Type 0
IsClean v = (v ≡ []) ⊎ ((s : Text) × (v ≡ quoted s) × IsClipped s)

pub clean : (s : Text) → IsClipped s → IsClean (quoted s)
clean s h = inr (s, refl, h)

-- What every edit of a key of the network configuration keeps.
pub record IsClosed (ini : Ini) (P : ini.File → Type 0) : Type 0 where
  pub set-holds : (m v : Text) (g : ini.File) → IsWritten m → IsClean v → P g → P (ini.set m v g)
  pub remove-holds : (m : Text) (g : ini.File) → IsWritten m → P g → P (ini.remove m g)

module _ (js : Json) (os : Platform) (ini : Ini) (P : ini.File → Type 0) (c : IsClosed ini P) where
  pub put-holds :
      (m v : Text) (g : ini.File)
      → IsWritten m
      → IsClean v
      → P g
      → P (set_if_changed js os ini m v g)
  unfolding set_if_changed
  put-holds m v g w k h = elim (Bool-cases (text_eq v (ini.get m g))) [
    | inl e ↦ rw e h
    | inr e ↦ rw e (c.set-holds m v g w k h)
  ]

  pub words-hold :
      (m s : Text) (g : ini.File) → IsWritten m → IsClipped s → P g → P (put_words js os ini m s g)
  unfolding put_words
  words-hold m s g w k h =
      if_elim P (is_empty s) (λ e. h) (λ e. put-holds m (quoted s) g w (clean s k) h)

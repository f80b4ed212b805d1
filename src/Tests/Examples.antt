-- ===== src/Tests/Examples.antt =====
-- The properties of addresses, groups, tools, commands and routes at concrete inputs.
use nmdaemon.Address.{Address, ip4, get_sock_addr, ip4_of_text, ip4_of_sockaddr}
use nmdaemon.Command.Workers.Dispatch.{is_refused, is_valid_cmd-answered}
use nmdaemon.Command.Workers.{route, exec_cmd, get_scope, is_valid_cmd, scope_eq}
use nmdaemon.Command.{NmScope, NmCmd}
use nmdaemon.Group.FromIfaddrs.Families.{IsShaped, of_ifaddrs-IsShaped}
use nmdaemon.Group.FromIfaddrs.{Ifaddrs, has_flag, of_ifaddrs}
use nmdaemon.Group.Flags.Bits.{bit, get_flags_route-names}
use nmdaemon.Group.Flags.{flag_bits, get_flags_route}
use nmdaemon.Group.Print.{data_json}
use nmdaemon.Group.{Group, bcast, ppp, unknown, make}
use nmdaemon.Keys.{json_param_data}
use nmdaemon.Platform.{Family, inet, SockAddr}
use nmdaemon.Prelude.{
  ℕ, ◌+◌, ◌≡◌, ◌≢◌, refl, arith, ◌↔◌, ◌⊎◌, ◌≤◌, Bool, true, false, not, ◌&&◌, none, some, ok, fault,
  ◌==◌, if◌then◌else◌, length, [], all, map, keep, take, Any, ◌++◌,
}
use nmdaemon.Route.Writes.{add_or_change, is_whole, set_static_route-adds, set_static_route-returns}
use nmdaemon.Route.{
  Message, Written, written, exists, failed, rtm_add, rtm_change, up_gateway_static,
  set_static_route,
}
use nmdaemon.Tests.Fixtures.{Doc, docs, bsd, some_pton4, some_ntop4}
use nmdaemon.Text.{codes, find}
use nmdaemon.Tool.FromJson.Families.{IsPlain, get_addr_from_json-IsPlain}
use nmdaemon.Tool.FromJson.RoundTrip.{get_addr_from_json-data_json, get_addr_from_json-bcast4}
use nmdaemon.Tool.FromJson.{data_family, get_addr_from_json}
use nmdaemon.Tool.Ip4.{IsGateway, is_valid_gw4, is_valid_gw4_iff}
use nmdaemon.Tool.Names.{as_if_name, is_inert, is_valid_if_name, Accepted-inert}
use nmdaemon.Tool.Rotate.Versions.{always, rotated, rotate_config_file-rotated}
use nmdaemon.Tool.Rotate.{Files, rotate_config_file}
use nmdaemon.Tool.Secrets.{IsClean, hide_secrets, markers, to_lower, hide_secrets-IsClean}

abbrev sa1 : SockAddr
sa1 = record { family = inet; sin_addr = 0x0100000a; sin6_addr = 0 }

abbrev sa2 : SockAddr
sa2 = record { family = inet; sin_addr = 0x0200000a; sin6_addr = 0 }

abbrev sa_mask : SockAddr
sa_mask = record { family = inet; sin_addr = 0xff; sin6_addr = 0 }

abbrev one : Address
one = ip4 sa1 (codes "10.0.0.1")

abbrev two : Address
two = ip4 sa2 (codes "10.0.0.2")

abbrev mask8 : Address
mask8 = ip4 sa_mask (codes "255.0.0.0")

one_text : ip4_of_text bsd (codes "10.0.0.1") ≡ ok one
unfolding ip4_of_text some_pton4
one_text = refl

two_text : ip4_of_text bsd (codes "10.0.0.2") ≡ ok two
unfolding ip4_of_text some_pton4
two_text = refl

mask8_text : ip4_of_text bsd (codes "255.0.0.0") ≡ ok mask8
unfolding ip4_of_text some_pton4
mask8_text = refl

is_valid_gw4_iff_example :
    (is_valid_gw4 0x0100000a 0xff 0x0200000a ≡ true) ↔ IsGateway 0x0100000a 0xff 0x0200000a
is_valid_gw4_iff_example =
    is_valid_gw4_iff 0x0100000a 0xff 0x0200000a (omega arith) (omega arith) (omega arith)

abbrev ten_mask : ℕ
ten_mask = 0xff

hide_secrets-IsClean_example :
    (IsClean (codes "set PSK") × (hide_secrets (codes "set PSK") ≡ codes "set PSK"))
    ⊎ ((n : ℕ) × IsClean (take n (codes "set PSK"))
        × Any (λ m. find (map to_lower (codes "set PSK")) m ≡ some n) markers
        × (hide_secrets (codes "set PSK") ≡ take n (codes "set PSK") ++ codes "<secret hidden>"))
hide_secrets-IsClean_example = hide_secrets-IsClean (codes "set PSK")

em0_name : is_valid_if_name (codes "em0") ≡ true
unfolding is_valid_if_name
em0_name = refl

Accepted-inert_example :
    (codes "em0" ≢ []) × (length (codes "em0") ≤ 253) × (all is_inert (codes "em0") ≡ true)
Accepted-inert_example = Accepted-inert (codes "em0") (as_if_name em0_name)

-- A configuration file with one backup.
abbrev two_versions : Files
two_versions i = if i == 0 then some (codes "new") else if i == 1 then some (codes "old") else none

rotate_config_file-rotated_example :
    ((rotate_config_file always 2 two_versions).1 ≡ true)
    × ((i : ℕ) → (rotate_config_file always 2 two_versions).0 i ≡ rotated 2 two_versions i)
rotate_config_file-rotated_example = rotate_config_file-rotated 1 two_versions (codes "new") refl

is_valid_cmd-answered_example :
    is_valid_cmd route (record { scope = NmScope.route; cmd = NmCmd.rt_set })
    ≡ (scope_eq NmScope.route (get_scope route) && not (is_refused (exec_cmd route NmCmd.rt_set)))
is_valid_cmd-answered_example =
    is_valid_cmd-answered route (record { scope = NmScope.route; cmd = NmCmd.rt_set }) route_scope
  where
    route_scope : scope_eq (get_scope route) NmScope.dummy ≡ false
    route_scope = unfold scope_eq get_scope in refl

-- A kernel that counts the writes and has every route already.
abbrev busy : Message → ℕ → Written × ℕ
busy m n = elim m.rtm_type [
  | rtm_add ↦ (exists, n + 1)
  | rtm_change ↦ (written, n + 1)
  | _ ↦ (failed, n + 1)
]

abbrev ten : Group
ten = make (some one) (some mask8) (some two) ppp

set_static_route-adds_example :
    set_static_route busy ten 0
    ≡ ok (
        some (
          add_or_change busy
            (record {
              rtm_type = rtm_add;
              rtm_flags = up_gateway_static;
              family = inet;
              dest = sa1;
              gateway = get_sock_addr two;
              netmask = get_sock_addr mask8;
            })
            0))
set_static_route-adds_example =
    set_static_route-adds busy ten sa1 (codes "10.0.0.1") two mask8 0 refl refl refl

set_static_route-returns_example :
    ((is_whole ten ≡ false) × (set_static_route busy ten 0 ≡ fault))
    ⊎ ((is_whole ten ≡ true) × ((r : Bool × ℕ) × (set_static_route busy ten 0 ≡ ok (some r))))
set_static_route-returns_example = set_static_route-returns busy ten 0

-- An interface address of getifaddrs(3).
abbrev entry : Ifaddrs
entry = record {
  name = codes "em0";
  addr = some sa1;
  flags = 0x41;
  netmask = some sa_mask;
  broadaddr = some sa2;
  dstaddr = none;
}

abbrev entry_group : Group
entry_group = record {
  ip_type = bcast;
  address = some one;
  mask = some mask8;
  extra = some two;
  flags = 0;
  is_up = true;
  is_running = true;
  is_primary = false;
  is_jail = false;
}

entry_makes : of_ifaddrs bsd (some entry) ≡ ok entry_group
unfolding of_ifaddrs ip4_of_sockaddr some_ntop4
entry_makes = refl

of_ifaddrs-IsShaped_example :
    (i : Ifaddrs) × (sa : SockAddr) × (some entry ≡ some i)
    × (i.addr ≡ some sa)
    × IsShaped entry_group sa.family
    × (entry_group.is_up ≡ has_flag i.flags bsd.iff_up)
    × (entry_group.is_running ≡ has_flag i.flags bsd.iff_running)
of_ifaddrs-IsShaped_example = of_ifaddrs-IsShaped bsd (some entry) entry_group entry_makes

get_addr_from_json-data_json_example :
    get_addr_from_json docs bsd (docs.insert json_param_data (data_json docs ten one) docs.null)
    ≡ some ten
get_addr_from_json-data_json_example =
    get_addr_from_json-data_json docs bsd (codes "10.0.0.1") (codes "255.0.0.0") (codes "10.0.0.2")
      one mask8 two (λ e. cc) (λ e. cc) (λ e. cc) one_text mask8_text two_text

get_addr_from_json-bcast4_example :
    get_addr_from_json docs bsd (
      docs.insert json_param_data
        (data_json docs (make (some one) (some mask8) (some two) bcast) one)
        docs.null)
    ≡ some (make (some one) (some mask8) none unknown)
get_addr_from_json-bcast4_example =
    get_addr_from_json-bcast4 docs bsd (codes "10.0.0.1") (codes "255.0.0.0") (codes "10.0.0.2") one
      mask8 two (λ e. cc) (λ e. cc) one_text mask8_text two_text

get_addr_from_json-IsPlain_example :
    (j : Doc) × (f : Family) × (docs.find json_param_data
        (docs.insert json_param_data (data_json docs ten one) docs.null)
      ≡ some j)
    × (data_family docs j ≡ some f)
    × IsPlain f ten
get_addr_from_json-IsPlain_example =
    get_addr_from_json-IsPlain docs bsd
      (docs.insert json_param_data (data_json docs ten one) docs.null) ten
      get_addr_from_json-data_json_example

get_flags_route-names_example :
    get_flags_route 0x803 ≡ map (λ e. e.1) (keep (λ e. bit e.0 0x803) flag_bits)
get_flags_route-names_example = get_flags_route-names 0x803

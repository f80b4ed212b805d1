-- ===== src/Command.antt =====
-- NmScope, NmCmd and NmCommand (src/nmcommand.h), NmCommandData (src/nmcommanddata.h,
-- src/nmcommanddata.cpp). The children hold the tables and the dispatch of the workers.
pub mod Workers
pub mod Names
use text.Mathlib.Text.{◌==◌ as str_eq}
use nmdaemon.Json.{Json}
use nmdaemon.Keys.{json_param_scope, json_param_cmd}
use nmdaemon.Prelude.{
  ℕ, String, Bool, true, false, not, ◌&&◌, ◌||◌, Option, some, List, [], ◌∷◌, if◌then◌else◌, ◌==◌,
}
use nmdaemon.Text.{Text, codes, text_eq}

pub data NmScope : Type 0 where
  none dummy system interface route wpa wifi : NmScope

pub data NmCmd : Type 0 where
  none test if_add if_remove if_list if_enable if_disable rcconf_read rcconf_write : NmCmd
  jail_list resolvconf_read resolvconf_write ip4_addr_get ip6_addr_get ip_addr_set : NmCmd
  ip4_dhcp_enable ip6_dhcp_enable ip4_dhcp_disable ip6_dhcp_disable ip4_get_dhcp_status : NmCmd
  ip6_get_dhcp_status ip_addr_add ip_addr_remove mtu_get mtu_set mac_addr_get mac_addr_set : NmCmd
  rt_get rt_def_get rt_def6_get rt_set rt_def_set rt_del rt_def_del rt_list rt_list6 : NmCmd
  wpa_list_if wpa_list wpa_scan wpa_scan_results wpa_status wpa_setpsk wpa_setparam : NmCmd
  wpa_connect wpa_disconnect wpa_reassoc wpa_add wpa_remove wpa_reset wpa_save wpa_enable : NmCmd
  wpa_disable wpa_set_bssid wpa_select wifi_scan wifi_scan_results wifi_status : NmCmd

-- The enumerators in the order of their values.
abbrev pub scopes : List NmScope
scopes =
    NmScope.none ∷ NmScope.dummy ∷ NmScope.system ∷ NmScope.interface ∷ NmScope.route ∷ NmScope.wpa
    ∷ NmScope.wifi ∷ []

abbrev pub cmds : List NmCmd
cmds =
    NmCmd.none ∷ NmCmd.test ∷ NmCmd.if_add ∷ NmCmd.if_remove ∷ NmCmd.if_list ∷ NmCmd.if_enable
    ∷ NmCmd.if_disable ∷ NmCmd.rcconf_read ∷ NmCmd.rcconf_write ∷ NmCmd.jail_list
    ∷ NmCmd.resolvconf_read ∷ NmCmd.resolvconf_write ∷ NmCmd.ip4_addr_get ∷ NmCmd.ip6_addr_get
    ∷ NmCmd.ip_addr_set ∷ NmCmd.ip4_dhcp_enable ∷ NmCmd.ip6_dhcp_enable ∷ NmCmd.ip4_dhcp_disable
    ∷ NmCmd.ip6_dhcp_disable ∷ NmCmd.ip4_get_dhcp_status ∷ NmCmd.ip6_get_dhcp_status
    ∷ NmCmd.ip_addr_add ∷ NmCmd.ip_addr_remove ∷ NmCmd.mtu_get ∷ NmCmd.mtu_set ∷ NmCmd.mac_addr_get
    ∷ NmCmd.mac_addr_set ∷ NmCmd.rt_get ∷ NmCmd.rt_def_get ∷ NmCmd.rt_def6_get ∷ NmCmd.rt_set
    ∷ NmCmd.rt_def_set ∷ NmCmd.rt_del ∷ NmCmd.rt_def_del ∷ NmCmd.rt_list ∷ NmCmd.rt_list6
    ∷ NmCmd.wpa_list_if ∷ NmCmd.wpa_list ∷ NmCmd.wpa_scan ∷ NmCmd.wpa_scan_results
    ∷ NmCmd.wpa_status ∷ NmCmd.wpa_setpsk ∷ NmCmd.wpa_setparam ∷ NmCmd.wpa_connect
    ∷ NmCmd.wpa_disconnect ∷ NmCmd.wpa_reassoc ∷ NmCmd.wpa_add ∷ NmCmd.wpa_remove ∷ NmCmd.wpa_reset
    ∷ NmCmd.wpa_save ∷ NmCmd.wpa_enable ∷ NmCmd.wpa_disable ∷ NmCmd.wpa_set_bssid ∷ NmCmd.wpa_select
    ∷ NmCmd.wifi_scan ∷ NmCmd.wifi_scan_results ∷ NmCmd.wifi_status ∷ []

-- magic_enum::enum_name
unfoldable pub scope_name : NmScope → String
scope_name NmScope.none = "NONE"
scope_name NmScope.dummy = "DUMMY"
scope_name NmScope.system = "SYSTEM"
scope_name NmScope.interface = "INTERFACE"
scope_name NmScope.route = "ROUTE"
scope_name NmScope.wpa = "WPA"
scope_name NmScope.wifi = "WIFI"

unfoldable pub cmd_name : NmCmd → String
cmd_name NmCmd.none = "NONE"
cmd_name NmCmd.test = "TEST"
cmd_name NmCmd.if_add = "IF_ADD"
cmd_name NmCmd.if_remove = "IF_REMOVE"
cmd_name NmCmd.if_list = "IF_LIST"
cmd_name NmCmd.if_enable = "IF_ENABLE"
cmd_name NmCmd.if_disable = "IF_DISABLE"
cmd_name NmCmd.rcconf_read = "RCCONF_READ"
cmd_name NmCmd.rcconf_write = "RCCONF_WRITE"
cmd_name NmCmd.jail_list = "JAIL_LIST"
cmd_name NmCmd.resolvconf_read = "RESOLVCONF_READ"
cmd_name NmCmd.resolvconf_write = "RESOLVCONF_WRITE"
cmd_name NmCmd.ip4_addr_get = "IP4_ADDR_GET"
cmd_name NmCmd.ip6_addr_get = "IP6_ADDR_GET"
cmd_name NmCmd.ip_addr_set = "IP_ADDR_SET"
cmd_name NmCmd.ip4_dhcp_enable = "IP4_DHCP_ENABLE"
cmd_name NmCmd.ip6_dhcp_enable = "IP6_DHCP_ENABLE"
cmd_name NmCmd.ip4_dhcp_disable = "IP4_DHCP_DISABLE"
cmd_name NmCmd.ip6_dhcp_disable = "IP6_DHCP_DISABLE"
cmd_name NmCmd.ip4_get_dhcp_status = "IP4_GET_DHCP_STATUS"
cmd_name NmCmd.ip6_get_dhcp_status = "IP6_GET_DHCP_STATUS"
cmd_name NmCmd.ip_addr_add = "IP_ADDR_ADD"
cmd_name NmCmd.ip_addr_remove = "IP_ADDR_REMOVE"
cmd_name NmCmd.mtu_get = "MTU_GET"
cmd_name NmCmd.mtu_set = "MTU_SET"
cmd_name NmCmd.mac_addr_get = "MAC_ADDR_GET"
cmd_name NmCmd.mac_addr_set = "MAC_ADDR_SET"
cmd_name NmCmd.rt_get = "RT_GET"
cmd_name NmCmd.rt_def_get = "RT_DEF_GET"
cmd_name NmCmd.rt_def6_get = "RT_DEF6_GET"
cmd_name NmCmd.rt_set = "RT_SET"
cmd_name NmCmd.rt_def_set = "RT_DEF_SET"
cmd_name NmCmd.rt_del = "RT_DEL"
cmd_name NmCmd.rt_def_del = "RT_DEF_DEL"
cmd_name NmCmd.rt_list = "RT_LIST"
cmd_name NmCmd.rt_list6 = "RT_LIST6"
cmd_name NmCmd.wpa_list_if = "WPA_LIST_IF"
cmd_name NmCmd.wpa_list = "WPA_LIST"
cmd_name NmCmd.wpa_scan = "WPA_SCAN"
cmd_name NmCmd.wpa_scan_results = "WPA_SCAN_RESULTS"
cmd_name NmCmd.wpa_status = "WPA_STATUS"
cmd_name NmCmd.wpa_setpsk = "WPA_SETPSK"
cmd_name NmCmd.wpa_setparam = "WPA_SETPARAM"
cmd_name NmCmd.wpa_connect = "WPA_CONNECT"
cmd_name NmCmd.wpa_disconnect = "WPA_DISCONNECT"
cmd_name NmCmd.wpa_reassoc = "WPA_REASSOC"
cmd_name NmCmd.wpa_add = "WPA_ADD"
cmd_name NmCmd.wpa_remove = "WPA_REMOVE"
cmd_name NmCmd.wpa_reset = "WPA_RESET"
cmd_name NmCmd.wpa_save = "WPA_SAVE"
cmd_name NmCmd.wpa_enable = "WPA_ENABLE"
cmd_name NmCmd.wpa_disable = "WPA_DISABLE"
cmd_name NmCmd.wpa_set_bssid = "WPA_SET_BSSID"
cmd_name NmCmd.wpa_select = "WPA_SELECT"
cmd_name NmCmd.wifi_scan = "WIFI_SCAN"
cmd_name NmCmd.wifi_scan_results = "WIFI_SCAN_RESULTS"
cmd_name NmCmd.wifi_status = "WIFI_STATUS"

-- magic_enum::enum_cast: the first enumerator of that name.
unfoldable pub enum_cast : {E : Type 0} → (E → String) → List E → Text → Option E
unfolding text_eq
enum_cast name [] s = Option.none
enum_cast name (e ∷ es) s = if text_eq (codes (name e)) s then some e else enum_cast name es s

pub record NmCommand : Type 0 where
  pub scope : NmScope
  pub cmd : NmCmd

or_default : {E : Type 0} → E → Option E → E
or_default d Option.none = d
or_default d (some e) = e

is_none_scope : NmScope → Bool
is_none_scope NmScope.none = true
is_none_scope _ = false

is_none_cmd : NmCmd → Bool
is_none_cmd NmCmd.none = true
is_none_cmd _ = false

module _ (js : Json) where
  open js use {Value, find, text, is_object}

  -- What a key names, if its value is a string; a value that is none has no text.
  key_text : String → Value → Option Text
  key_text k j = elim (find k j) [ Option.none ↦ Option.none | some v ↦ text v ]

  cast_key : {E : Type 0} → (E → String) → List E → E → Option Text → E
  unfolding enum_cast or_default
  cast_key name es d Option.none = d
  cast_key name es d (some s) = or_default d (enum_cast name es s)

  -- The constructor, from what json::parse made of the text: `none` where it is discarded.
  unfoldable pub command_of : Option Value → NmCommand
  unfolding key_text cast_key scope_name cmd_name
  command_of Option.none = record { scope = NmScope.none; cmd = NmCmd.none }
  command_of (some j) =
      if not (is_object j) then record { scope = NmScope.none; cmd = NmCmd.none } else record {
        scope = cast_key scope_name scopes NmScope.none (key_text json_param_scope j);
        cmd = cast_key cmd_name cmds NmCmd.none (key_text json_param_cmd j);
      }

  -- NmCommandData::isValid
  unfoldable pub is_valid : Option Value → Bool
  unfolding command_of is_none_scope is_none_cmd
  is_valid Option.none = false
  is_valid (some j) =
      not (is_none_scope (command_of (some j)).scope) && not (is_none_cmd (command_of (some j)).cmd)

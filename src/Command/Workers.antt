-- ===== src/Command/Workers.antt =====
-- The tables Cmds of the workers (src/nmworkerdummy.h, src/nmworkersys.h, src/nmworkerif.h,
-- src/nmworkerroute.h, src/nmworkerwpa.h, src/nmworkerieee80211.h), their isValidCmd, and the
-- switch of each execCmd. A handler is named by the method that the switch calls.
pub mod Dispatch
use nmdaemon.Command.{NmScope, NmCmd, NmCommand, scope_name, cmd_name}
use text.Mathlib.Text.{◌==◌ as str_eq}
use nmdaemon.Prelude.{String, Bool, true, false, not, ◌&&◌, ◌||◌, List, [], ◌∷◌, any, if◌then◌else◌}

pub data Handler : Type 0 where
  exec_cmd_if_list exec_cmd_if_enable exec_cmd_if_disable exec_cmd_rc_conf_read : Handler
  exec_cmd_rc_conf_write exec_cmd_jail_list exec_cmd_resolv_conf_read : Handler
  exec_cmd_resolv_conf_write exec_cmd_ip_addr_set exec_cmd_ip_addr_get exec_cmd_ip_addr_add :
      Handler
  exec_cmd_ip_addr_remove exec_cmd_mtu_get exec_cmd_mtu_set exec_cmd_dhcpenable : Handler
  exec_cmd_dhcpdisable exec_cmd_dhcpget_status exec_cmd_route_get exec_cmd_def_route_get : Handler
  exec_cmd_route_set exec_cmd_def_route_set exec_cmd_route_list exec_cmd_route_del : Handler
  exec_cmd_def_route_get6 exec_cmd_def_route_del exec_cmd_wpa_list_if exec_cmd_wpa_list : Handler
  exec_cmd_wpa_scan exec_cmd_wpa_scan_results exec_cmd_wpa_status exec_cmd_wpa_set_psk : Handler
  exec_cmd_wpa_set_net_param exec_cmd_wpa_connect exec_cmd_wpa_select : Handler
  exec_cmd_wpa_disconnect exec_cmd_wpa_reassoc exec_cmd_wpa_add exec_cmd_wpa_remove : Handler
  exec_cmd_wpa_reset exec_cmd_wpa_save exec_cmd_wpa_enable exec_cmd_wpa_disable : Handler
  exec_cmd_wpa_set_bssid exec_cmd_scan exec_cmd_scan_results exec_cmd_status : Handler

-- What a switch does: call a handler, or answer at once.
pub data Action : Type 0 where
  handle : Handler → Action
  succeed not_implemented invalid_command : Action

unfoldable pub sys_cmds : List NmCmd
sys_cmds =
    NmCmd.if_add ∷ NmCmd.if_remove ∷ NmCmd.if_enable ∷ NmCmd.if_disable ∷ NmCmd.if_list
    ∷ NmCmd.rcconf_read ∷ NmCmd.rcconf_write ∷ NmCmd.jail_list ∷ NmCmd.resolvconf_read
    ∷ NmCmd.resolvconf_write ∷ []

unfoldable pub sys_exec : NmCmd → Action
sys_exec NmCmd.if_list = handle exec_cmd_if_list
sys_exec NmCmd.if_add = not_implemented
sys_exec NmCmd.if_remove = not_implemented
sys_exec NmCmd.if_enable = handle exec_cmd_if_enable
sys_exec NmCmd.if_disable = handle exec_cmd_if_disable
sys_exec NmCmd.rcconf_read = handle exec_cmd_rc_conf_read
sys_exec NmCmd.rcconf_write = handle exec_cmd_rc_conf_write
sys_exec NmCmd.jail_list = handle exec_cmd_jail_list
sys_exec NmCmd.resolvconf_read = handle exec_cmd_resolv_conf_read
sys_exec NmCmd.resolvconf_write = handle exec_cmd_resolv_conf_write
sys_exec _ = invalid_command

unfoldable pub if_cmds : List NmCmd
if_cmds =
    NmCmd.ip_addr_set ∷ NmCmd.ip4_addr_get ∷ NmCmd.ip6_addr_get ∷ NmCmd.ip4_dhcp_enable
    ∷ NmCmd.ip6_dhcp_enable ∷ NmCmd.ip4_dhcp_disable ∷ NmCmd.ip6_dhcp_disable
    ∷ NmCmd.ip4_get_dhcp_status ∷ NmCmd.ip6_get_dhcp_status ∷ NmCmd.ip_addr_add
    ∷ NmCmd.ip_addr_remove ∷ NmCmd.mtu_get ∷ NmCmd.mtu_set ∷ NmCmd.mac_addr_get ∷ NmCmd.mac_addr_set
    ∷ []

unfoldable pub if_exec : NmCmd → Action
if_exec NmCmd.ip_addr_set = handle exec_cmd_ip_addr_set
if_exec NmCmd.ip4_addr_get = handle exec_cmd_ip_addr_get
if_exec NmCmd.ip_addr_add = handle exec_cmd_ip_addr_add
if_exec NmCmd.ip_addr_remove = handle exec_cmd_ip_addr_remove
if_exec NmCmd.mtu_get = handle exec_cmd_mtu_get
if_exec NmCmd.mtu_set = handle exec_cmd_mtu_set
if_exec NmCmd.ip4_dhcp_enable = handle exec_cmd_dhcpenable
if_exec NmCmd.ip4_dhcp_disable = handle exec_cmd_dhcpdisable
if_exec NmCmd.ip4_get_dhcp_status = handle exec_cmd_dhcpget_status
if_exec NmCmd.ip6_addr_get = not_implemented
if_exec NmCmd.ip6_dhcp_enable = not_implemented
if_exec NmCmd.ip6_dhcp_disable = not_implemented
if_exec NmCmd.ip6_get_dhcp_status = not_implemented
if_exec NmCmd.mac_addr_get = not_implemented
if_exec NmCmd.mac_addr_set = not_implemented
if_exec _ = invalid_command

unfoldable pub route_cmds : List NmCmd
route_cmds =
    NmCmd.rt_get ∷ NmCmd.rt_def_get ∷ NmCmd.rt_def6_get ∷ NmCmd.rt_set ∷ NmCmd.rt_def_set
    ∷ NmCmd.rt_del ∷ NmCmd.rt_def_del ∷ NmCmd.rt_list ∷ NmCmd.rt_list6 ∷ []

unfoldable pub route_exec : NmCmd → Action
route_exec NmCmd.rt_get = handle exec_cmd_route_get
route_exec NmCmd.rt_def_get = handle exec_cmd_def_route_get
route_exec NmCmd.rt_set = handle exec_cmd_route_set
route_exec NmCmd.rt_def_set = handle exec_cmd_def_route_set
route_exec NmCmd.rt_list = handle exec_cmd_route_list
route_exec NmCmd.rt_list6 = handle exec_cmd_route_list
route_exec NmCmd.rt_del = handle exec_cmd_route_del
route_exec NmCmd.rt_def6_get = handle exec_cmd_def_route_get6
route_exec NmCmd.rt_def_del = handle exec_cmd_def_route_del
route_exec _ = invalid_command

unfoldable pub wpa_cmds : List NmCmd
wpa_cmds =
    NmCmd.wpa_list_if ∷ NmCmd.wpa_list ∷ NmCmd.wpa_scan ∷ NmCmd.wpa_scan_results ∷ NmCmd.wpa_status
    ∷ NmCmd.wpa_setpsk ∷ NmCmd.wpa_setparam ∷ NmCmd.wpa_connect ∷ NmCmd.wpa_disconnect
    ∷ NmCmd.wpa_reassoc ∷ NmCmd.wpa_add ∷ NmCmd.wpa_remove ∷ NmCmd.wpa_reset ∷ NmCmd.wpa_save
    ∷ NmCmd.wpa_enable ∷ NmCmd.wpa_disable ∷ NmCmd.wpa_set_bssid ∷ NmCmd.wpa_select ∷ []

unfoldable pub wpa_exec : NmCmd → Action
wpa_exec NmCmd.wpa_list_if = handle exec_cmd_wpa_list_if
wpa_exec NmCmd.wpa_list = handle exec_cmd_wpa_list
wpa_exec NmCmd.wpa_scan = handle exec_cmd_wpa_scan
wpa_exec NmCmd.wpa_scan_results = handle exec_cmd_wpa_scan_results
wpa_exec NmCmd.wpa_status = handle exec_cmd_wpa_status
wpa_exec NmCmd.wpa_setpsk = handle exec_cmd_wpa_set_psk
wpa_exec NmCmd.wpa_setparam = handle exec_cmd_wpa_set_net_param
wpa_exec NmCmd.wpa_connect = handle exec_cmd_wpa_connect
wpa_exec NmCmd.wpa_select = handle exec_cmd_wpa_select
wpa_exec NmCmd.wpa_disconnect = handle exec_cmd_wpa_disconnect
wpa_exec NmCmd.wpa_reassoc = handle exec_cmd_wpa_reassoc
wpa_exec NmCmd.wpa_add = handle exec_cmd_wpa_add
wpa_exec NmCmd.wpa_remove = handle exec_cmd_wpa_remove
wpa_exec NmCmd.wpa_reset = handle exec_cmd_wpa_reset
wpa_exec NmCmd.wpa_save = handle exec_cmd_wpa_save
wpa_exec NmCmd.wpa_enable = handle exec_cmd_wpa_enable
wpa_exec NmCmd.wpa_disable = handle exec_cmd_wpa_disable
wpa_exec NmCmd.wpa_set_bssid = handle exec_cmd_wpa_set_bssid
wpa_exec _ = invalid_command

unfoldable pub ieee80211_cmds : List NmCmd
ieee80211_cmds = NmCmd.wifi_scan ∷ NmCmd.wifi_scan_results ∷ NmCmd.wifi_status ∷ []

unfoldable pub ieee80211_exec : NmCmd → Action
ieee80211_exec NmCmd.wifi_scan = handle exec_cmd_scan
ieee80211_exec NmCmd.wifi_scan_results = handle exec_cmd_scan_results
ieee80211_exec NmCmd.wifi_status = handle exec_cmd_status
ieee80211_exec _ = invalid_command

unfoldable pub dummy_cmds : List NmCmd
dummy_cmds = NmCmd.test ∷ []

unfoldable pub dummy_exec : NmCmd → Action
dummy_exec c = succeed

pub data Worker : Type 0 where
  sys iface route wpa ieee80211 dummy : Worker

-- getScope
unfoldable pub get_scope : Worker → NmScope
get_scope sys = NmScope.system
get_scope iface = NmScope.interface
get_scope route = NmScope.route
get_scope wpa = NmScope.wpa
get_scope ieee80211 = NmScope.wifi
get_scope dummy = NmScope.dummy

unfoldable pub worker_cmds : Worker → List NmCmd
unfolding sys_cmds if_cmds route_cmds wpa_cmds ieee80211_cmds dummy_cmds
worker_cmds sys = sys_cmds
worker_cmds iface = if_cmds
worker_cmds route = route_cmds
worker_cmds wpa = wpa_cmds
worker_cmds ieee80211 = ieee80211_cmds
worker_cmds dummy = dummy_cmds

-- execCmd
unfoldable pub exec_cmd : Worker → NmCmd → Action
unfolding sys_exec if_exec route_exec wpa_exec ieee80211_exec dummy_exec
exec_cmd sys c = sys_exec c
exec_cmd iface c = if_exec c
exec_cmd route c = route_exec c
exec_cmd wpa c = wpa_exec c
exec_cmd ieee80211 c = ieee80211_exec c
exec_cmd dummy c = dummy_exec c

-- Enumerators are equal where their names are.
unfoldable pub scope_eq : NmScope → NmScope → Bool
unfolding scope_name
scope_eq a b = str_eq (scope_name a) (scope_name b)

unfoldable pub cmd_eq : NmCmd → NmCmd → Bool
unfolding cmd_name
cmd_eq a b = str_eq (cmd_name a) (cmd_name b)

unfoldable pub is_valid_cmd : Worker → NmCommand → Bool
unfolding get_scope worker_cmds scope_eq cmd_eq
is_valid_cmd w c =
    if not (scope_eq c.scope (get_scope w))
    then false
    else any (λ m. cmd_eq m c.cmd) (worker_cmds w)

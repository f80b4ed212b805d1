-- ===== src/Command/Names.antt =====
-- What holds of every command, from what holds of the list of all of them; and casts by name.
use nmdaemon.Command.{NmCmd, cmds, cmd_name, enum_cast}
use nmdaemon.Prelude.{ℕ, zero, suc, ◌≡◌, refl, Bool, true, some, List, [], ◌∷◌, all, &&_iff}
use nmdaemon.Text.{codes}

-- The test of the entry at a position.
abbrev TestAt : (NmCmd → Bool) → ℕ → List NmCmd → Type 0
TestAt p n [] = Unit
TestAt p zero (c ∷ l) = p c ≡ true
TestAt p (suc n) (c ∷ l) = TestAt p n l

all-TestAt : (p : NmCmd → Bool) (n : ℕ) (l : List NmCmd) → all p l ≡ true → TestAt p n l
all-TestAt p n [] h = tt
all-TestAt p zero (c ∷ l) h = ((&&_iff (p c) (all p l)).0 h).0
all-TestAt p (suc n) (c ∷ l) h = all-TestAt p n l ((&&_iff (p c) (all p l)).0 h).1

-- The list has each command.
pub each_test : (p : NmCmd → Bool) → all p cmds ≡ true → (c : NmCmd) → p c ≡ true
each_test p h NmCmd.none = all-TestAt p 0 cmds h
each_test p h NmCmd.test = all-TestAt p 1 cmds h
each_test p h NmCmd.if_add = all-TestAt p 2 cmds h
each_test p h NmCmd.if_remove = all-TestAt p 3 cmds h
each_test p h NmCmd.if_list = all-TestAt p 4 cmds h
each_test p h NmCmd.if_enable = all-TestAt p 5 cmds h
each_test p h NmCmd.if_disable = all-TestAt p 6 cmds h
each_test p h NmCmd.rcconf_read = all-TestAt p 7 cmds h
each_test p h NmCmd.rcconf_write = all-TestAt p 8 cmds h
each_test p h NmCmd.jail_list = all-TestAt p 9 cmds h
each_test p h NmCmd.resolvconf_read = all-TestAt p 10 cmds h
each_test p h NmCmd.resolvconf_write = all-TestAt p 11 cmds h
each_test p h NmCmd.ip4_addr_get = all-TestAt p 12 cmds h
each_test p h NmCmd.ip6_addr_get = all-TestAt p 13 cmds h
each_test p h NmCmd.ip_addr_set = all-TestAt p 14 cmds h
each_test p h NmCmd.ip4_dhcp_enable = all-TestAt p 15 cmds h
each_test p h NmCmd.ip6_dhcp_enable = all-TestAt p 16 cmds h
each_test p h NmCmd.ip4_dhcp_disable = all-TestAt p 17 cmds h
each_test p h NmCmd.ip6_dhcp_disable = all-TestAt p 18 cmds h
each_test p h NmCmd.ip4_get_dhcp_status = all-TestAt p 19 cmds h
each_test p h NmCmd.ip6_get_dhcp_status = all-TestAt p 20 cmds h
each_test p h NmCmd.ip_addr_add = all-TestAt p 21 cmds h
each_test p h NmCmd.ip_addr_remove = all-TestAt p 22 cmds h
each_test p h NmCmd.mtu_get = all-TestAt p 23 cmds h
each_test p h NmCmd.mtu_set = all-TestAt p 24 cmds h
each_test p h NmCmd.mac_addr_get = all-TestAt p 25 cmds h
each_test p h NmCmd.mac_addr_set = all-TestAt p 26 cmds h
each_test p h NmCmd.rt_get = all-TestAt p 27 cmds h
each_test p h NmCmd.rt_def_get = all-TestAt p 28 cmds h
each_test p h NmCmd.rt_def6_get = all-TestAt p 29 cmds h
each_test p h NmCmd.rt_set = all-TestAt p 30 cmds h
each_test p h NmCmd.rt_def_set = all-TestAt p 31 cmds h
each_test p h NmCmd.rt_del = all-TestAt p 32 cmds h
each_test p h NmCmd.rt_def_del = all-TestAt p 33 cmds h
each_test p h NmCmd.rt_list = all-TestAt p 34 cmds h
each_test p h NmCmd.rt_list6 = all-TestAt p 35 cmds h
each_test p h NmCmd.wpa_list_if = all-TestAt p 36 cmds h
each_test p h NmCmd.wpa_list = all-TestAt p 37 cmds h
each_test p h NmCmd.wpa_scan = all-TestAt p 38 cmds h
each_test p h NmCmd.wpa_scan_results = all-TestAt p 39 cmds h
each_test p h NmCmd.wpa_status = all-TestAt p 40 cmds h
each_test p h NmCmd.wpa_setpsk = all-TestAt p 41 cmds h
each_test p h NmCmd.wpa_setparam = all-TestAt p 42 cmds h
each_test p h NmCmd.wpa_connect = all-TestAt p 43 cmds h
each_test p h NmCmd.wpa_disconnect = all-TestAt p 44 cmds h
each_test p h NmCmd.wpa_reassoc = all-TestAt p 45 cmds h
each_test p h NmCmd.wpa_add = all-TestAt p 46 cmds h
each_test p h NmCmd.wpa_remove = all-TestAt p 47 cmds h
each_test p h NmCmd.wpa_reset = all-TestAt p 48 cmds h
each_test p h NmCmd.wpa_save = all-TestAt p 49 cmds h
each_test p h NmCmd.wpa_enable = all-TestAt p 50 cmds h
each_test p h NmCmd.wpa_disable = all-TestAt p 51 cmds h
each_test p h NmCmd.wpa_set_bssid = all-TestAt p 52 cmds h
each_test p h NmCmd.wpa_select = all-TestAt p 53 cmds h
each_test p h NmCmd.wifi_scan = all-TestAt p 54 cmds h
each_test p h NmCmd.wifi_scan_results = all-TestAt p 55 cmds h
each_test p h NmCmd.wifi_status = all-TestAt p 56 cmds h

-- Each command is cast from its name.
enum_cast-cmd_name : (c : NmCmd) → enum_cast cmd_name cmds (codes (cmd_name c)) ≡ some c
unfolding enum_cast cmd_name
enum_cast-cmd_name NmCmd.none = refl
enum_cast-cmd_name NmCmd.test = refl
enum_cast-cmd_name NmCmd.if_add = refl
enum_cast-cmd_name NmCmd.if_remove = refl
enum_cast-cmd_name NmCmd.if_list = refl
enum_cast-cmd_name NmCmd.if_enable = refl
enum_cast-cmd_name NmCmd.if_disable = refl
enum_cast-cmd_name NmCmd.rcconf_read = refl
enum_cast-cmd_name NmCmd.rcconf_write = refl
enum_cast-cmd_name NmCmd.jail_list = refl
enum_cast-cmd_name NmCmd.resolvconf_read = refl
enum_cast-cmd_name NmCmd.resolvconf_write = refl
enum_cast-cmd_name NmCmd.ip4_addr_get = refl
enum_cast-cmd_name NmCmd.ip6_addr_get = refl
enum_cast-cmd_name NmCmd.ip_addr_set = refl
enum_cast-cmd_name NmCmd.ip4_dhcp_enable = refl
enum_cast-cmd_name NmCmd.ip6_dhcp_enable = refl
enum_cast-cmd_name NmCmd.ip4_dhcp_disable = refl
enum_cast-cmd_name NmCmd.ip6_dhcp_disable = refl
enum_cast-cmd_name NmCmd.ip4_get_dhcp_status = refl
enum_cast-cmd_name NmCmd.ip6_get_dhcp_status = refl
enum_cast-cmd_name NmCmd.ip_addr_add = refl
enum_cast-cmd_name NmCmd.ip_addr_remove = refl
enum_cast-cmd_name NmCmd.mtu_get = refl
enum_cast-cmd_name NmCmd.mtu_set = refl
enum_cast-cmd_name NmCmd.mac_addr_get = refl
enum_cast-cmd_name NmCmd.mac_addr_set = refl
enum_cast-cmd_name NmCmd.rt_get = refl
enum_cast-cmd_name NmCmd.rt_def_get = refl
enum_cast-cmd_name NmCmd.rt_def6_get = refl
enum_cast-cmd_name NmCmd.rt_set = refl
enum_cast-cmd_name NmCmd.rt_def_set = refl
enum_cast-cmd_name NmCmd.rt_del = refl
enum_cast-cmd_name NmCmd.rt_def_del = refl
enum_cast-cmd_name NmCmd.rt_list = refl
enum_cast-cmd_name NmCmd.rt_list6 = refl
enum_cast-cmd_name NmCmd.wpa_list_if = refl
enum_cast-cmd_name NmCmd.wpa_list = refl
enum_cast-cmd_name NmCmd.wpa_scan = refl
enum_cast-cmd_name NmCmd.wpa_scan_results = refl
enum_cast-cmd_name NmCmd.wpa_status = refl
enum_cast-cmd_name NmCmd.wpa_setpsk = refl
enum_cast-cmd_name NmCmd.wpa_setparam = refl
enum_cast-cmd_name NmCmd.wpa_connect = refl
enum_cast-cmd_name NmCmd.wpa_disconnect = refl
enum_cast-cmd_name NmCmd.wpa_reassoc = refl
enum_cast-cmd_name NmCmd.wpa_add = refl
enum_cast-cmd_name NmCmd.wpa_remove = refl
enum_cast-cmd_name NmCmd.wpa_reset = refl
enum_cast-cmd_name NmCmd.wpa_save = refl
enum_cast-cmd_name NmCmd.wpa_enable = refl
enum_cast-cmd_name NmCmd.wpa_disable = refl
enum_cast-cmd_name NmCmd.wpa_set_bssid = refl
enum_cast-cmd_name NmCmd.wpa_select = refl
enum_cast-cmd_name NmCmd.wifi_scan = refl
enum_cast-cmd_name NmCmd.wifi_scan_results = refl
enum_cast-cmd_name NmCmd.wifi_status = refl

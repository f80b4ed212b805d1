-- ===== src/Tests/Services.antt =====
-- The properties of resolv.conf, of interfaces and of the daemon at concrete inputs.
use nmdaemon.Fields.{at_key}
use nmdaemon.Sys.RcFile.{Disk, config_value}
use nmdaemon.Sys.ResolvFile.Written.{always, exec_cmd_resolv_conf_read-write}
use nmdaemon.Sys.ResolvFile.{
  num_bkp, exec_cmd_resolv_conf_read, write_rotated, write_data, exec_cmd_resolv_conf_write,
}
use nmdaemon.Tool.Rotate.{rotate_config_file}
use nmdaemon.Address.{ip4}
use nmdaemon.Group.{Group, bcast, make, set_jail, set_primary}
use nmdaemon.Interface.Entries.{IsFresh, in_jails, is_ipv4, text_of}
use nmdaemon.Interface.Marks.{IsMarked}
use nmdaemon.Interface.Primary.{find_primary-IsMarked, find_primary-any_iff}
use nmdaemon.Interface.{Interface, Surroundings, find_primary_and_jail_address, jail_addrs}
use nmdaemon.Interface
use nmdaemon.Keys.{
  json_param_data, json_param_host_domain, json_param_nameservers, json_param_search_domains,
}
use nmdaemon.Platform.{inet, family_eq}
use nmdaemon.Prelude.{
  ◌≡◌, refl, arith, ◌↔◌, true, false, not, ◌&&◌, Option, none, some, ok, fault, [], ◌∷◌, any, All,
  ◌⊎◌, ◌==◌, ℕ, if◌then◌else◌,
}
use nmdaemon.ResolvConf.Faults.{is_blank, get_config-fault_iff}
use nmdaemon.ResolvConf.RoundTrip.{accepted, get_config-set_config}
use nmdaemon.ResolvConf.{config_json, get_config, read_request, set_config, write_request}
use nmdaemon.Tests.Fixtures.{
  Doc, docs, doc_find, doc_insert, doc_is_keyed, doc_text, doc_elements, doc_list, bsd, some_pton4,
  some_pton4-plain, some_pton6-plain,
}
use nmdaemon.Tool.Dhcp.Clients.{term_dhcp_client-signals}
use nmdaemon.Tool.Dhcp.{Process, is_dhcp_enabled, serves, term_dhcp_client}
use nmdaemon.Tool.Names.{is_valid_domain_name, is_valid_ip_addr}
use nmdaemon.Text.{Text, codes, split}

abbrev request : Doc
request = docs.insert json_param_host_domain (docs.of_text (codes "example.org")) (
    docs.insert json_param_nameservers (docs.of_list (docs.of_text (codes "10.0.0.1") ∷ [])) (
      docs.insert json_param_search_domains
        (docs.of_list (docs.of_text (codes "a.org") ∷ docs.of_text (codes "b.org") ∷ []))
        docs.null))

request_read :
    read_request docs bsd request
    ≡ ok (codes "example.org", codes "10.0.0.1" ∷ [], codes "a.org" ∷ codes "b.org" ∷ [])
unfolding read_request some_pton4 doc_find doc_insert doc_text is_valid_domain_name doc_elements
    doc_list is_valid_ip_addr
request_read = refl

get_config-set_config_example :
    get_config docs bsd (set_config docs bsd true none request).1
    ≡ ok (
        config_json docs bsd (record {
          nameservers = accepted bsd (codes "10.0.0.1" ∷ []);
          search = codes "a.org" ∷ codes "b.org" ∷ [];
          domain = codes "example.org";
        }))
get_config-set_config_example =
    get_config-set_config docs bsd some_pton4-plain some_pton6-plain none request
      (codes "example.org") (codes "10.0.0.1" ∷ []) (codes "a.org" ∷ codes "b.org" ∷ [])
      request_read (refl, tt)

get_config-fault_iff_example :
    (get_config docs bsd (some (codes "domain a\n  \n")) ≡ fault)
    ↔ (any is_blank (split b'\n' (codes "domain a\n  \n")) ≡ true)
get_config-fault_iff_example = get_config-fault_iff docs bsd (codes "domain a\n  \n")

-- An interface with an address of a jail and one of its own.
abbrev jail_group : Group
jail_group =
    make
      (some
        (ip4 (record { family = inet; sin_addr = 0x0100000a; sin6_addr = 0 }) (codes "10.0.0.1")))
      none none bcast

abbrev own_group : Group
own_group =
    make
      (some
        (ip4 (record { family = inet; sin_addr = 0x0200000a; sin6_addr = 0 }) (codes "10.0.0.2")))
      none none bcast

abbrev em0 : Interface
em0 = record (Interface.make (codes "em0")) { addrs = jail_group ∷ own_group ∷ [] }

abbrev em0_marked : Interface
em0_marked = record em0 { addrs = set_jail true jail_group ∷ set_primary true own_group ∷ [] }

abbrev around : Surroundings
around = record {
  is_dhcp_enabled = false;
  lease = [];
  primary4 = codes "10.0.0.1";
  jails4 = (codes "10.0.0.1" ∷ []) ∷ [];
}

em0_found : find_primary_and_jail_address around em0 ≡ ok em0_marked
unfolding find_primary_and_jail_address jail_addrs family_eq
em0_found = refl

em0-IsFresh : All IsFresh em0.addrs
unfolding text_of
em0-IsFresh = ((refl, refl, refl), ((refl, refl, refl), tt))

find_primary-IsMarked_example : All (IsMarked around.jails4) em0_marked.addrs
find_primary-IsMarked_example =
    find_primary-IsMarked around em0 em0_marked em0-IsFresh (omega arith) em0_found

find_primary-any_iff_example :
    (any (λ g. is_ipv4 g && g.is_primary) em0_marked.addrs ≡ true)
    ↔ (any (λ g. is_ipv4 g && not (in_jails around.jails4 g)) em0.addrs ≡ true)
find_primary-any_iff_example =
    find_primary-any_iff around em0 em0_marked em0-IsFresh (omega arith) em0_found

-- A client of em10, and none of em1.
abbrev client : Process
client = record { pid = 7; name = codes "dhclient"; args = codes "dhclient: em10" }

term_dhcp_client-signals_example :
    ((is_dhcp_enabled (client ∷ []) (codes "em1") ≡ false)
      × (term_dhcp_client (λ p. true) (client ∷ []) (codes "em1") ≡ (false, none)))
    ⊎ ((pid : ℕ) × (is_dhcp_enabled (client ∷ []) (codes "em1") ≡ true)
        × (term_dhcp_client (λ p. true) (client ∷ []) (codes "em1") ≡ (true, some pid))
        × (any (λ p. serves (codes "em1") p && p.pid == pid) (client ∷ []) ≡ true))
term_dhcp_client-signals_example =
    term_dhcp_client-signals (λ p. true) (client ∷ []) (codes "em1") (omega arith, tt)

-- The client of em10 is signalled for em1.
term_em1 : term_dhcp_client (λ p. true) (client ∷ []) (codes "em1") ≡ (true, some 7)
unfolding term_dhcp_client
term_em1 = refl

abbrev write_command : Doc
write_command = docs.insert json_param_data request docs.null

abbrev no_number : Text → Option ℕ
no_number s = none

abbrev old_files : Disk
old_files name i = if i == 0 then some (codes "old") else none

command_section : at_key docs json_param_data (some write_command) ≡ some request
unfolding at_key doc_find doc_insert doc_is_keyed
command_section = refl

command_succeeds :
    (exec_cmd_resolv_conf_write docs bsd no_number always none write_command old_files).0 ≡ true
unfolding exec_cmd_resolv_conf_write write_data write_rotated num_bkp at_key doc_find doc_insert
    doc_is_keyed rotate_config_file set_config write_request read_request some_pton4 doc_text
    is_valid_domain_name doc_elements doc_list is_valid_ip_addr config_value
command_succeeds = refl

exec_cmd_resolv_conf_read-write_example :
    exec_cmd_resolv_conf_read docs bsd none
      (exec_cmd_resolv_conf_write docs bsd no_number always none write_command old_files).1
    ≡ ok (
        config_json docs bsd (record {
          nameservers = accepted bsd (codes "10.0.0.1" ∷ []);
          search = codes "a.org" ∷ codes "b.org" ∷ [];
          domain = codes "example.org";
        }))
exec_cmd_resolv_conf_read-write_example =
    exec_cmd_resolv_conf_read-write docs bsd some_pton4-plain some_pton6-plain no_number
      (codes "example.org") (codes "10.0.0.1" ∷ []) (codes "a.org" ∷ codes "b.org" ∷ []) (refl, tt)
      none write_command request old_files command_section request_read command_succeeds

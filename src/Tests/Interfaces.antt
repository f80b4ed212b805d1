-- ===== src/Tests/Interfaces.antt =====
-- A system with processes and MTUs, and requests of the interface worker at concrete inputs.
use nmdaemon.Address.{Address, ip4, ip4_of_text}
use nmdaemon.Command.{NmCmd}
use nmdaemon.Exec.Keeps.{Keeps}
use nmdaemon.Fields.{text_field, json_result}
use nmdaemon.IfWorker.Addresses.{exec_cmd_ip_addr_add}
use nmdaemon.IfWorker.Client.{exec_cmd_dhcp_disable, status_json, exec_cmd_dhcp_get_status}
use nmdaemon.IfWorker.Disabled.{exec_cmd_dhcp_disable-status}
use nmdaemon.IfWorker.Execute.{handle}
use nmdaemon.IfWorker.Guard.{IsGuard}
use nmdaemon.IfWorker.Handlers.{handle-Keeps}
use nmdaemon.IfWorker.Missing.{IsUnset, exec_cmd_ip_addr_add-fault_iff}
use nmdaemon.IfWorker.{Ifaces, Signal, sigterm, sigkill}
use nmdaemon.Keys.{
  json_param_data, json_param_if_name, json_param_ipv4_addr, json_param_ipv4_mask,
  json_param_ipv4_gw, json_param_ipv6_bcast, json_param_mtu, json_param_succ, json_param_err,
}
use nmdaemon.Platform.{inet}
use nmdaemon.Prelude.{
  ℕ, ◌≤◌, ◌≡◌, ◌↔◌, ◌⊎◌, refl, arith, Bool, true, false, not, ℤ, pos, negsuc, none, some, ok, fault,
  List, [], ◌∷◌, all, keep, leb, ◌==◌,
}
use nmdaemon.Tests.Fixtures.{
  Doc, str, number, obj, field, no_fields, docs, bsd, doc_find, doc_text, doc_is_keyed, some_pton4,
}
use nmdaemon.Text.{Text, codes}
use nmdaemon.Tool.Dhcp.{Process}
use nmdaemon.Tool.Names.{is_valid_if_name}

record Machine : Type 0 where
  pub procs : List Process
  pub mtus : List ℕ

-- A client that ends on SIGKILL alone.
abbrev kill_pid : ℕ → Signal → Machine → Bool × Machine
kill_pid pid sigterm m = (true, m)
kill_pid pid sigkill m = (true, record m { procs = keep (λ p. not (p.pid == pid)) m.procs })

abbrev write_mtu : Text → ℤ → Machine → Bool × Machine
write_mtu name (pos n) m = (true, record m { mtus = n ∷ m.mtus })
write_mtu name (negsuc n) m = (false, m)

abbrev machine : Ifaces Machine
machine = record {
  siocgifaddr = λ name f m. none;
  siocgifmtu = λ name m. none;
  siocdifaddr = λ name sa m. (true, m);
  siocaifaddr = λ name sa mask m. (true, m);
  siocsifmtu = write_mtu;
  processes = λ m. m.procs;
  kill = kill_pid;
  spawn = λ name m. (true, m);
  sleep = λ m. m;
  media_status = λ name m. 3;
  ifm_avalid = 1;
  ifm_active = 2;
}

abbrev running : Machine
running = record {
  procs = record { pid = 7; name = codes "dhclient"; args = codes "dhclient em0" } ∷ [];
  mtus = [];
}

abbrev LowMtus : Machine → Type 0
LowMtus m = all (λ n. leb n 9192) m.mtus ≡ true

kept_by_kill : (pid : ℕ) (sig : Signal) (m : Machine) → LowMtus m → LowMtus (kill_pid pid sig m).1
kept_by_kill pid sigterm m i = i
kept_by_kill pid sigkill m i = i

kept_by_mtu : (n : ℕ) (m : Machine) → n ≤ 9192 → LowMtus m → LowMtus (write_mtu [] (pos n) m).1
kept_by_mtu n m h i = ground (arith, h, i)

low : IsGuard machine LowMtus
low = record {
  remove = λ name sa m v i. i;
  add = λ name sa mask m v i. i;
  set_mtu = λ name n m v l h i. kept_by_mtu n m h i;
  kill = λ name pid sig m v c i. kept_by_kill pid sig m i;
  spawn = λ name m v i. i;
  sleep = λ m i. i;
}

abbrev request : Doc
request = obj (
    field json_param_data
      (obj (
        field json_param_if_name (str (codes "em0"))
          (field json_param_mtu (number (pos 1500)) no_fields)))
      no_fields)

handle-Keeps_example : Keeps LowMtus (handle machine bsd docs NmCmd.mtu_set request)
handle-Keeps_example = handle-Keeps machine bsd docs LowMtus low NmCmd.mtu_set request

request_name : text_field docs json_param_if_name request ≡ some (codes "em0")
unfolding text_field doc_find doc_text doc_is_keyed
request_name = refl

em0_is_valid : is_valid_if_name (codes "em0") ≡ true
unfolding is_valid_if_name
em0_is_valid = refl

exec_cmd_dhcp_disable-status_example :
    (((exec_cmd_dhcp_disable machine docs request running).0
        ≡ ok (json_result docs json_param_succ))
      × ((exec_cmd_dhcp_get_status machine docs request
            (exec_cmd_dhcp_disable machine docs request running).1).0
          ≡ ok (status_json machine docs false)))
    ⊎ (((exec_cmd_dhcp_disable machine docs request running).0
          ≡ ok (json_result docs json_param_err))
        × ((exec_cmd_dhcp_get_status machine docs request
              (exec_cmd_dhcp_disable machine docs request running).1).0
            ≡ ok (status_json machine docs true)))
exec_cmd_dhcp_disable-status_example =
    exec_cmd_dhcp_disable-status machine docs request (codes "em0") running request_name
      em0_is_valid

abbrev ten_data : Doc
ten_data = obj (
    field json_param_if_name (str (codes "em0"))
      (field json_param_ipv4_addr (str (codes "10.0.0.1")) no_fields))

abbrev for_ten : Doc
for_ten = obj (field json_param_data ten_data no_fields)

for_ten_name : text_field docs json_param_if_name for_ten ≡ some (codes "em0")
unfolding text_field doc_find doc_text doc_is_keyed
for_ten_name = refl

ten_found :
    (docs.find json_param_data for_ten ≡ some ten_data)
    × (docs.find json_param_ipv4_addr ten_data ≡ some (str (codes "10.0.0.1")))
    × (docs.text (str (codes "10.0.0.1")) ≡ some (codes "10.0.0.1"))
    × (docs.find json_param_ipv6_bcast ten_data ≡ none)
    × (docs.find json_param_ipv4_gw ten_data ≡ none)
unfolding doc_find doc_text doc_is_keyed
ten_found = (refl, refl, refl, refl, refl)

abbrev ten : Address
ten = ip4 (record { family = inet; sin_addr = 0x0100000a; sin6_addr = 0 }) (codes "10.0.0.1")

ten_parsed : ip4_of_text bsd (codes "10.0.0.1") ≡ ok ten
unfolding ip4_of_text some_pton4
ten_parsed = refl

exec_cmd_ip_addr_add-fault_iff_example :
    ((exec_cmd_ip_addr_add machine bsd docs for_ten running).0 ≡ fault)
    ↔ IsUnset machine docs (docs.find json_param_ipv4_mask ten_data)
exec_cmd_ip_addr_add-fault_iff_example =
    exec_cmd_ip_addr_add-fault_iff machine docs bsd for_ten ten_data (str (codes "10.0.0.1"))
      (codes "em0") (codes "10.0.0.1") ten running for_ten_name em0_is_valid ten_found.0 ten_found.1
      ten_found.2 (λ e. cc) ten_parsed ten_found.3 ten_found.4

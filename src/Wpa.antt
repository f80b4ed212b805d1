-- ===== src/Wpa.antt =====
-- NmWorkerWpa and WpaSocket (src/nmworkerwpa.h, src/nmworkerwpa.cpp, src/wpasocket.cpp): what the
-- worker says to wpa_supplicant over a unix socket, and what it makes of the replies. The children
-- model the sockets (Control), the reading of the buffer (Buffer), the requests (Networks, Add,
-- Connect, Select, Scan, Commands).
pub mod Control
pub mod Buffer
pub mod Networks
pub mod Add
pub mod Connect
pub mod Select
pub mod Scan
pub mod Commands
pub mod Kept
pub mod Execute
use nmdaemon.Exec.{Exec}
use nmdaemon.Prelude.{ℕ, zero, suc, ◌≡◌, String, Bool, true, false, Option, none, some}
use nmdaemon.Text.{Text, codes}

-- The unix datagram sockets of a process, in the state of the system. A bound socket has a file.
pub record Sockets (K : Type 0) : Type 0 where
  -- bind and connect with a path, and send: whether they succeed, send with all of the text
  pub bind : Text → K → Bool × K
  pub connect : Text → K → Bool × K
  pub send : Text → K → Bool × K
  -- recv with MSG_DONTWAIT, and the sleep behind it: the bytes of a datagram, or none
  pub recv : K → Option Text × K
  pub close : K → K
  pub unlink : Text → K → K
  pub has_file : Text → K → Bool
  -- EADDRINUSE
  pub bind-has_file : (p : Text) (k : K) → has_file p k ≡ true → (bind p k).0 ≡ false
  pub bind_keeps :
      (p : Text) (k : K) → (bind p k).0 ≡ false → has_file p (bind p k).1 ≡ has_file p k
  pub bind_makes : (p : Text) (k : K) → (bind p k).0 ≡ true → has_file p (bind p k).1 ≡ true
  pub connect_keeps : (p q : Text) (k : K) → has_file p (connect q k).1 ≡ has_file p k
  pub send_keeps : (p s : Text) (k : K) → has_file p (send s k).1 ≡ has_file p k
  pub recv_keeps : (p : Text) (k : K) → has_file p (recv k).1 ≡ has_file p k
  pub close_keeps : (p : Text) (k : K) → has_file p (close k) ≡ has_file p k

-- The system and buf: its bytes up to the first NUL.
pub record State (K : Type 0) : Type 0 where
  pub sys : K
  pub buf : Text

abbrev pub Call : Type 0 → Type 0 → Type 0
Call K A = Exec (State K) A

abbrev pub command_list : Text
command_list = codes "LIST_NETWORKS"

abbrev pub command_scan : Text
command_scan = codes "SCAN"

abbrev pub command_scan_results : Text
command_scan_results = codes "SCAN_RESULTS"

abbrev pub command_ping : Text
command_ping = codes "PING"

abbrev pub command_status : Text
command_status = codes "STATUS"

abbrev pub command_add : Text
command_add = codes "ADD_NETWORK"

abbrev pub command_set : Text
command_set = codes "SET_NETWORK"

abbrev pub command_select : Text
command_select = codes "SELECT_NETWORK"

abbrev pub command_remove : Text
command_remove = codes "REMOVE_NETWORK"

abbrev pub command_attach : Text
command_attach = codes "ATTACH"

abbrev pub command_disconnect : Text
command_disconnect = codes "DISCONNECT"

abbrev pub command_reassociate : Text
command_reassociate = codes "REASSOCIATE"

abbrev pub command_flush : Text
command_flush = codes "FLUSH"

abbrev pub command_reconfigure : Text
command_reconfigure = codes "RECONFIGURE"

abbrev pub command_save : Text
command_save = codes "SAVE_CONFIG"

abbrev pub command_enable : Text
command_enable = codes "ENABLE_NETWORK"

abbrev pub command_disable : Text
command_disable = codes "DISABLE_NETWORK"

abbrev pub command_set_bssid : Text
command_set_bssid = codes "BSSID"

abbrev pub result_connected : Text
result_connected = codes "CTRL-EVENT-CONNECTED"

abbrev pub result_not_found : Text
result_not_found = codes "CTRL-EVENT-NETWORK-NOT-FOUND"

abbrev pub result_temp_disabled : Text
result_temp_disabled = codes "CTRL-EVENT-SSID-TEMP-DISABLED"

abbrev pub result_scan_results : Text
result_scan_results = codes "CTRL-EVENT-SCAN-RESULTS"

abbrev pub result_wrong_key : Text
result_wrong_key = codes "reason=WRONG_KEY"

abbrev pub result_handshake_failed : Text
result_handshake_failed = codes "4-Way Handshake failed"

abbrev pub result_driver_request_failed : Text
result_driver_request_failed = codes "Association request to the driver failed"

abbrev pub result_completed : Text
result_completed = codes "wpa_state=COMPLETED"

abbrev pub result_reject_scan : Text
result_reject_scan = codes "<3>Reject scan trigger since one is already pending"

abbrev pub result_failed_scan : Text
result_failed_scan = codes "<4>Failed to initiate AP scan"

abbrev pub result_fail_busy : Text
result_fail_busy = codes "FAIL-BUSY"

abbrev pub result_ok : Text
result_ok = codes "OK"

abbrev pub param_priority : Text
param_priority = codes "priority"

abbrev pub buf_len : ℕ
buf_len = 4096

abbrev pub wait_cycles : ℕ
wait_cycles = 50

abbrev pub max_priority : ℕ
max_priority = 500

abbrev pub high_priority : ℕ
high_priority = 200

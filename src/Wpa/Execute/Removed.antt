-- ===== src/Wpa/Execute/Removed.antt =====
-- The file of the client's socket behind each handler of NmWorkerWpa (src/nmworkerwpa.cpp).
use nmdaemon.Exec.Keeps.{Keeps, keeps_rules}
use nmdaemon.Json.{Json}
use nmdaemon.Platform.{Platform}
use nmdaemon.Prelude.{ℕ, ◌≡◌, ◌≢◌, refl, Bool, false, ℤ, Option, List}
use nmdaemon.Text.{Text}
use nmdaemon.Wpa.Connect.{wanted_id}
use nmdaemon.Wpa.Control.{get_buf, wpa_ctrl_cmd}
use nmdaemon.Wpa.Execute.Files.{NoFile, wpa_ctrl_cmd-NoFile, with_socket-NoFile}
use nmdaemon.Wpa.Execute.{handler, Case}
use nmdaemon.Wpa.Kept.{status-Keeps, get_net_id-Keeps}
use nmdaemon.Wpa.Kept.Handlers
use nmdaemon.Wpa.Networks.{has_line_end}
use nmdaemon.Wpa.Commands
use nmdaemon.Wpa.Commands.{exec_cmd_wpa_set_bssid, with_if, with_netid, done}
use nmdaemon.Wpa.Scan
use nmdaemon.Wpa.Scan.{exec_cmd_wpa_scan}
use nmdaemon.Wpa.Select
use nmdaemon.Wpa.Select.{wpa_select_cmd, select_in, exec_cmd_wpa_select}
use nmdaemon.Wpa.{Sockets, State, Call, command_set_bssid}

module _ {K : Type 0} (w : Sockets K) (cli srv_dir : Text) (os : Platform)
    (siocgifflags : Text → K → Option (ℕ × ℕ)) (siocsifflags : Text → ℕ → ℕ → K → Bool × K)
    (entries : List (Text × Bool)) (js : Json) (insert_at : Text → js.Value → js.Value → js.Value)
    (unlinks : (k : K) → w.has_file cli (w.unlink cli k) ≡ false) where
  open js use {Value}

  exchange :
      (cmd ifname : Text)
      → has_line_end cmd ≡ false
      → Keeps (NoFile w cli srv_dir) (wpa_ctrl_cmd w cli srv_dir cmd ifname)
  exchange cmd ifname h = wpa_ctrl_cmd-NoFile w cli srv_dir unlinks cmd ifname

  buffer : Keeps (NoFile w cli srv_dir) (get_buf w)
  unfolding get_buf
  buffer = record { at = λ s i. i }

  select_in-Keeps :
      (ifname : Text) (id : ℤ) (ssid bssid : Text)
      → Keeps (NoFile w cli srv_dir) (select_in w cli srv_dir js insert_at ifname id ssid bssid)
  unfolding select_in wpa_select_cmd wanted_id nmdaemon.Wpa.Select.answer nmdaemon.Wpa.Select.lines
  select_in-Keeps ifname id ssid bssid =
      let b = buffer in
      search
        (
          keeps_rules,
          status-Keeps w cli srv_dir (NoFile w cli srv_dir) exchange buffer,
          get_net_id-Keeps w cli srv_dir (NoFile w cli srv_dir) exchange buffer,
          with_socket-NoFile w cli srv_dir unlinks,
        )
        depth 40 fits 4000

  exec_cmd_wpa_select-Keeps :
      (j : Value) → Keeps (NoFile w cli srv_dir) (exec_cmd_wpa_select w cli srv_dir js insert_at j)
  unfolding exec_cmd_wpa_select nmdaemon.Wpa.Select.answer
  exec_cmd_wpa_select-Keeps j = search (keeps_rules, select_in-Keeps) depth 40 fits 4000

  exec_cmd_wpa_scan-Keeps :
      (j : Value) → Keeps (NoFile w cli srv_dir) (exec_cmd_wpa_scan w cli srv_dir js insert_at j)
  unfolding exec_cmd_wpa_scan nmdaemon.Wpa.Scan.failed
  exec_cmd_wpa_scan-Keeps j =
      search (keeps_rules, with_socket-NoFile w cli srv_dir unlinks) depth 40 fits 4000

  exec_cmd_wpa_set_bssid-Keeps :
      (j : Value)
      → Keeps (NoFile w cli srv_dir) (exec_cmd_wpa_set_bssid w cli srv_dir js insert_at j)
  unfolding exec_cmd_wpa_set_bssid with_if with_netid done nmdaemon.Wpa.Commands.answer
  exec_cmd_wpa_set_bssid-Keeps j =
      search (keeps_rules, wpa_ctrl_cmd-NoFile w cli srv_dir unlinks) depth 40 fits 4000

  -- Where unlink removes the file of the client's socket, each handler but those of WPA_LIST,
  -- WPA_CONNECT and WPA_REASSOC, begun where the socket has no file, ends there, whatever the
  -- request, the other calls of the system and wpa_supplicant do.
  pub handler-NoFile :
      (c : Case) (j : Value)
      → c ≢ Case.wpa_connect
      → c ≢ Case.wpa_reassoc
      → Keeps
          (NoFile w cli srv_dir)
          (handler w cli srv_dir os siocgifflags siocsifflags entries js insert_at c j)
  unfolding handler
  handler-NoFile Case.wpa_list_if j h k =
      Handlers.exec_cmd_wpa_list_if-Keeps w cli srv_dir (NoFile w cli srv_dir) exchange buffer js
        insert_at entries
  handler-NoFile Case.wpa_scan_results j h k =
      Handlers.exec_cmd_wpa_scan_results-Keeps w cli srv_dir (NoFile w cli srv_dir) exchange buffer
        js insert_at j
  handler-NoFile Case.wpa_status j h k =
      Handlers.exec_cmd_wpa_status-Keeps w cli srv_dir (NoFile w cli srv_dir) exchange buffer js
        insert_at j
  handler-NoFile Case.wpa_setpsk j h k =
      Handlers.exec_cmd_wpa_set_psk-Keeps w cli srv_dir (NoFile w cli srv_dir) exchange buffer js
        insert_at j
  handler-NoFile Case.wpa_setparam j h k =
      Handlers.exec_cmd_wpa_set_net_param-Keeps w cli srv_dir (NoFile w cli srv_dir) exchange buffer
        js insert_at j
  handler-NoFile Case.wpa_disconnect j h k =
      Handlers.exec_cmd_wpa_disconnect-Keeps w cli srv_dir (NoFile w cli srv_dir) exchange buffer js
        insert_at j
  handler-NoFile Case.wpa_add j h k =
      Handlers.exec_cmd_wpa_add-Keeps w cli srv_dir (NoFile w cli srv_dir) exchange buffer js
        insert_at j
  handler-NoFile Case.wpa_remove j h k =
      Handlers.exec_cmd_wpa_remove-Keeps w cli srv_dir (NoFile w cli srv_dir) exchange buffer js
        insert_at j
  handler-NoFile Case.wpa_reset j h k =
      Handlers.exec_cmd_wpa_reset-Keeps w cli srv_dir (NoFile w cli srv_dir) exchange buffer js
        insert_at j
  handler-NoFile Case.wpa_save j h k =
      Handlers.exec_cmd_wpa_save-Keeps w cli srv_dir (NoFile w cli srv_dir) exchange buffer js
        insert_at j
  handler-NoFile Case.wpa_enable j h k =
      Handlers.exec_cmd_wpa_enable-Keeps w cli srv_dir (NoFile w cli srv_dir) exchange buffer js
        insert_at j
  handler-NoFile Case.wpa_disable j h k =
      Handlers.exec_cmd_wpa_disable-Keeps w cli srv_dir (NoFile w cli srv_dir) exchange buffer js
        insert_at j
  handler-NoFile Case.wpa_scan j h k = exec_cmd_wpa_scan-Keeps j
  handler-NoFile Case.wpa_select j h k = exec_cmd_wpa_select-Keeps j
  handler-NoFile Case.wpa_set_bssid j h k = exec_cmd_wpa_set_bssid-Keeps j
  handler-NoFile Case.wpa_connect j h k = absurd (h refl)
  handler-NoFile Case.wpa_reassoc j h k = absurd (k refl)

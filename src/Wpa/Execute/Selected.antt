-- ===== src/Wpa/Execute/Selected.antt =====
-- What is sent by the selection of a network and by a scan (src/nmworkerwpa.cpp).
use nmdaemon.Exec.Keeps.{Keeps, keeps_rules}
use nmdaemon.Json.{Json}
use nmdaemon.Prelude.{ℕ, zero, suc, ◌≡◌, refl, Bool, false, ℤ, Option, none, some}
use nmdaemon.Text.{Text}
use nmdaemon.Wpa.Connect.{wanted_id}
use nmdaemon.Wpa.Control.{get_buf, act, wait_for, sock_ctrl_cmd, wpa_ctrl_cmd}
use nmdaemon.Wpa.Execute.Lines.{
  IsGuard, OnSys, ctrl, get_buf-Keeps, wait_for-Keeps, send-Keeps, sock_ctrl_cmd-Keeps,
  with_socket-Keeps,
}
use nmdaemon.Wpa.Kept.{status-Keeps, get_net_id-Keeps, has_line_end-with_id}
use nmdaemon.Wpa.Networks.{has_line_end, with_id}
use nmdaemon.Wpa.Scan
use nmdaemon.Wpa.Scan.{
  send_reset, after_scan, send_scan, scan_over, get_results, exec_cmd_wpa_scan, Scanned,
  needs_reset, has_results,
}
use nmdaemon.Wpa.Select
use nmdaemon.Wpa.Select.{
  ConnStatus, check_selected, select_answer, select_over, wpa_select_cmd, select_in,
  exec_cmd_wpa_select,
}
use nmdaemon.Wpa.{
  Sockets, State, Call, command_select, command_status, command_scan, command_scan_results,
  command_flush, command_reconfigure, command_disconnect, command_reassociate, command_attach,
}

module _ {K : Type 0} (w : Sockets K) (cli srv_dir : Text)
    (siocgifflags : Text → K → Option (ℕ × ℕ)) (siocsifflags : Text → ℕ → ℕ → K → Bool × K)
    (js : Json) (insert_at : Text → js.Value → js.Value → js.Value) (Inv : K → Type 0)
    (g : IsGuard w siocsifflags Inv) where
  open js use {Value}

  exchange :
      (cmd ifname : Text)
      → has_line_end cmd ≡ false
      → Keeps (OnSys Inv) (wpa_ctrl_cmd w cli srv_dir cmd ifname)
  exchange = ctrl w cli srv_dir siocgifflags siocsifflags Inv g

  buffer : Keeps (OnSys Inv) (get_buf w)
  buffer = get_buf-Keeps w cli srv_dir siocgifflags siocsifflags Inv g

  told : (cmd : Text) → has_line_end cmd ≡ false → Keeps (OnSys Inv) (sock_ctrl_cmd w cmd)
  told = sock_ctrl_cmd-Keeps w cli srv_dir siocgifflags siocsifflags Inv g

  waited : {A : Type 0} (test : ℕ → Text → Option A) (n : ℕ) → Keeps (OnSys Inv) (wait_for w test n)
  waited = wait_for-Keeps w cli srv_dir siocgifflags siocsifflags Inv g

  sent : (s : Text) → has_line_end s ≡ false → Keeps (OnSys Inv) (act w (w.send s))
  sent = send-Keeps w cli srv_dir siocgifflags siocsifflags Inv g

  check_selected-Keeps : (id : ℤ) → Keeps (OnSys Inv) (check_selected w cli srv_dir js insert_at id)
  unfolding check_selected nmdaemon.Wpa.Select.answer nmdaemon.Wpa.Select.lines has_line_end
  check_selected-Keeps id = let b = buffer in search (keeps_rules, told) depth 40

  select_answer-Keeps :
      (id : ℤ) (o : Option ConnStatus)
      → Keeps (OnSys Inv) (select_answer w cli srv_dir js insert_at id o)
  unfolding select_answer nmdaemon.Wpa.Select.answer
  select_answer-Keeps id none = search keeps_rules
  select_answer-Keeps id (some Select.connected) = check_selected-Keeps id
  select_answer-Keeps id (some Select.not_found) = search keeps_rules
  select_answer-Keeps id (some Select.handshake_failed) = search keeps_rules
  select_answer-Keeps id (some Select.driver_request_failed) = search keeps_rules
  select_answer-Keeps id (some Select.temp_disabled) = let b = buffer in search keeps_rules depth 40

  select_over-Keeps : (id : ℤ) → Keeps (OnSys Inv) (select_over w cli srv_dir js insert_at id)
  unfolding select_over nmdaemon.Wpa.Select.answer
  select_over-Keeps id =
      let b = buffer in
      let attached = sent command_attach (unfold has_line_end in refl) in
      let selected =
        told (with_id command_select id)
          (has_line_end-with_id command_select id (unfold has_line_end in refl)) in
      search (keeps_rules, waited, select_answer-Keeps) depth 40

  select_in-Keeps :
      (ifname : Text) (id : ℤ) (ssid bssid : Text)
      → Keeps (OnSys Inv) (select_in w cli srv_dir js insert_at ifname id ssid bssid)
  unfolding select_in wpa_select_cmd wanted_id nmdaemon.Wpa.Select.answer nmdaemon.Wpa.Select.lines
  select_in-Keeps ifname id ssid bssid =
      let b = buffer in
      search
        (
          keeps_rules,
          status-Keeps w cli srv_dir (OnSys Inv) exchange buffer,
          get_net_id-Keeps w cli srv_dir (OnSys Inv) exchange buffer,
          with_socket-Keeps w cli srv_dir siocgifflags siocsifflags Inv g,
          select_over-Keeps,
        )
        depth 40 fits 4000

  pub exec_cmd_wpa_select-Keeps :
      (j : Value) → Keeps (OnSys Inv) (exec_cmd_wpa_select w cli srv_dir js insert_at j)
  unfolding exec_cmd_wpa_select nmdaemon.Wpa.Select.answer
  exec_cmd_wpa_select-Keeps j = search (keeps_rules, select_in-Keeps) depth 40 fits 4000

  get_results-Keeps : Keeps (OnSys Inv) (get_results w cli srv_dir js insert_at)
  unfolding get_results nmdaemon.Wpa.Scan.failed nmdaemon.Wpa.Scan.table has_line_end
  get_results-Keeps = let b = buffer in search (keeps_rules, told) depth 40

  send_reset-Keeps :
      (retry : Call K Value)
      → Keeps (OnSys Inv) retry
      → Keeps (OnSys Inv) (send_reset w cli srv_dir js insert_at retry)
  unfolding send_reset nmdaemon.Wpa.Scan.failed has_line_end
  send_reset-Keeps retry h =
      let r = get_results-Keeps in search (keeps_rules, told, waited) depth 40

  after_scan-Keeps :
      (retry : Call K Value) (o : Option Scanned)
      → Keeps (OnSys Inv) retry
      → Keeps (OnSys Inv) (after_scan w cli srv_dir js insert_at retry o)
  unfolding after_scan
  after_scan-Keeps retry none h = get_results-Keeps
  after_scan-Keeps retry (some has_results) h = get_results-Keeps
  after_scan-Keeps retry (some needs_reset) h = send_reset-Keeps retry h

  send_scan-Keeps : (n : ℕ) → Keeps (OnSys Inv) (send_scan w cli srv_dir js insert_at n)
  unfolding send_scan nmdaemon.Wpa.Scan.failed has_line_end
  send_scan-Keeps zero = search keeps_rules
  send_scan-Keeps (suc n) =
      let b = buffer in
      let retry = send_scan-Keeps n in
      search (keeps_rules, told, waited, send_reset-Keeps, after_scan-Keeps) depth 40 fits 4000

  pub exec_cmd_wpa_scan-Keeps :
      (j : Value) → Keeps (OnSys Inv) (exec_cmd_wpa_scan w cli srv_dir js insert_at j)
  unfolding exec_cmd_wpa_scan scan_over nmdaemon.Wpa.Scan.failed
  exec_cmd_wpa_scan-Keeps j =
      let attached = sent command_attach (unfold has_line_end in refl) in
      search
        (
          keeps_rules,
          with_socket-Keeps w cli srv_dir siocgifflags siocsifflags Inv g,
          send_scan-Keeps,
        )
        depth 40 fits 4000

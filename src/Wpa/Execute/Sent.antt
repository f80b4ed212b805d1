-- ===== src/Wpa/Execute/Sent.antt =====
-- What is sent by the commands of NmWorkerWpa (src/nmworkerwpa.cpp).
use nmdaemon.Exec.Keeps.{Keeps, keeps_rules}
use nmdaemon.Json.{Json}
use nmdaemon.Platform.{Platform}
use nmdaemon.Prelude.{ℕ, ◌≡◌, ◌≢◌, refl, Bool, false, Option, List}
use nmdaemon.Text.{Text}
use nmdaemon.Wpa.Commands
use nmdaemon.Wpa.Commands.{exec_cmd_wpa_reassoc, with_if}
use nmdaemon.Wpa.Control.{get_buf, wpa_ctrl_cmd}
use nmdaemon.Wpa.Execute.Connected.{exec_cmd_wpa_connect-Keeps}
use nmdaemon.Wpa.Execute.Selected.{exec_cmd_wpa_select-Keeps, exec_cmd_wpa_scan-Keeps}
use nmdaemon.Wpa.Execute.Lines.{IsGuard, OnSys, ctrl, get_buf-Keeps, wpa_ctrl_wait-Keeps}
use nmdaemon.Wpa.Execute.{handler, Case}
use nmdaemon.Wpa.Kept.{status-Keeps}
use nmdaemon.Wpa.Kept.Handlers
use nmdaemon.Wpa.Networks.{has_line_end}
use nmdaemon.Wpa.{
  Sockets, State, Call, command_select, command_status, command_scan, command_scan_results,
  command_flush, command_reconfigure, command_disconnect, command_reassociate, command_attach,
}

module _ {K : Type 0} (w : Sockets K) (cli srv_dir : Text) (os : Platform)
    (siocgifflags : Text → K → Option (ℕ × ℕ)) (siocsifflags : Text → ℕ → ℕ → K → Bool × K)
    (entries : List (Text × Bool)) (js : Json) (insert_at : Text → js.Value → js.Value → js.Value)
    (Inv : K → Type 0) (g : IsGuard w siocsifflags Inv) where
  open js use {Value}

  exchange :
      (cmd ifname : Text)
      → has_line_end cmd ≡ false
      → Keeps (OnSys Inv) (wpa_ctrl_cmd w cli srv_dir cmd ifname)
  exchange = ctrl w cli srv_dir siocgifflags siocsifflags Inv g

  buffer : Keeps (OnSys Inv) (get_buf w)
  buffer = get_buf-Keeps w cli srv_dir siocgifflags siocsifflags Inv g

  exec_cmd_wpa_reassoc-Keeps :
      (j : Value) → Keeps (OnSys Inv) (exec_cmd_wpa_reassoc w cli srv_dir js insert_at j)
  unfolding exec_cmd_wpa_reassoc with_if nmdaemon.Wpa.Commands.answer nmdaemon.Wpa.Commands.lines
      has_line_end
  exec_cmd_wpa_reassoc-Keeps j =
      let b = buffer in
      search
        (
          keeps_rules,
          wpa_ctrl_wait-Keeps w cli srv_dir siocgifflags siocsifflags Inv g,
          status-Keeps w cli srv_dir (OnSys Inv) exchange buffer,
        )
        depth 40 fits 4000

  -- What all calls keep but the sending of a text with a line end, each handler keeps but those of
  -- WPA_LIST and WPA_SET_BSSID, whatever the request.
  pub handler-OnSys :
      (c : Case) (j : Value)
      → c ≢ Case.wpa_set_bssid
      → Keeps
          (OnSys Inv)
          (handler w cli srv_dir os siocgifflags siocsifflags entries js insert_at c j)
  unfolding handler
  handler-OnSys Case.wpa_list_if j h =
      Handlers.exec_cmd_wpa_list_if-Keeps w cli srv_dir (OnSys Inv) exchange buffer js insert_at
        entries
  handler-OnSys Case.wpa_scan j h =
      exec_cmd_wpa_scan-Keeps w cli srv_dir siocgifflags siocsifflags js insert_at Inv g j
  handler-OnSys Case.wpa_scan_results j h =
      Handlers.exec_cmd_wpa_scan_results-Keeps w cli srv_dir (OnSys Inv) exchange buffer js
        insert_at j
  handler-OnSys Case.wpa_status j h =
      Handlers.exec_cmd_wpa_status-Keeps w cli srv_dir (OnSys Inv) exchange buffer js insert_at j
  handler-OnSys Case.wpa_setpsk j h =
      Handlers.exec_cmd_wpa_set_psk-Keeps w cli srv_dir (OnSys Inv) exchange buffer js insert_at j
  handler-OnSys Case.wpa_setparam j h =
      Handlers.exec_cmd_wpa_set_net_param-Keeps w cli srv_dir (OnSys Inv) exchange buffer js
        insert_at j
  handler-OnSys Case.wpa_connect j h =
      exec_cmd_wpa_connect-Keeps w cli srv_dir os siocgifflags siocsifflags js insert_at Inv g j
  handler-OnSys Case.wpa_select j h =
      exec_cmd_wpa_select-Keeps w cli srv_dir siocgifflags siocsifflags js insert_at Inv g j
  handler-OnSys Case.wpa_disconnect j h =
      Handlers.exec_cmd_wpa_disconnect-Keeps w cli srv_dir (OnSys Inv) exchange buffer js insert_at
        j
  handler-OnSys Case.wpa_reassoc j h = exec_cmd_wpa_reassoc-Keeps j
  handler-OnSys Case.wpa_add j h =
      Handlers.exec_cmd_wpa_add-Keeps w cli srv_dir (OnSys Inv) exchange buffer js insert_at j
  handler-OnSys Case.wpa_remove j h =
      Handlers.exec_cmd_wpa_remove-Keeps w cli srv_dir (OnSys Inv) exchange buffer js insert_at j
  handler-OnSys Case.wpa_reset j h =
      Handlers.exec_cmd_wpa_reset-Keeps w cli srv_dir (OnSys Inv) exchange buffer js insert_at j
  handler-OnSys Case.wpa_save j h =
      Handlers.exec_cmd_wpa_save-Keeps w cli srv_dir (OnSys Inv) exchange buffer js insert_at j
  handler-OnSys Case.wpa_enable j h =
      Handlers.exec_cmd_wpa_enable-Keeps w cli srv_dir (OnSys Inv) exchange buffer js insert_at j
  handler-OnSys Case.wpa_disable j h =
      Handlers.exec_cmd_wpa_disable-Keeps w cli srv_dir (OnSys Inv) exchange buffer js insert_at j
  handler-OnSys Case.wpa_set_bssid j h = absurd (h refl)

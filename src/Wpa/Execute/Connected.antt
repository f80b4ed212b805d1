-- ===== src/Wpa/Execute/Connected.antt =====
-- What is sent by the connection to a network (src/nmworkerwpa.cpp).
use nmdaemon.Exec.Keeps.{Keeps, keeps_rules}
use nmdaemon.Json.{Json}
use nmdaemon.Platform.{Platform}
use nmdaemon.Prelude.{ℕ, zero, suc, ◌≡◌, Bool, true, false, ℤ, Option, none, some}
use nmdaemon.Text.{Text}
use nmdaemon.Wpa.Connect
use nmdaemon.Wpa.Connect.{
  get_flags, lower_priority_of, lower_priority, poll, polled, restart_interface, check_connected,
  wpa_connect_cmd, wanted_id, connect_to, exec_cmd_wpa_connect, connected_id, is_completed,
}
use nmdaemon.Wpa.Control.{get_buf, wpa_ctrl_cmd}
use nmdaemon.Wpa.Execute.Lines.{
  IsGuard, OnSys, ctrl, get_buf-Keeps, wpa_ctrl_wait-Keeps, set_if_flags-Keeps,
}
use nmdaemon.Wpa.Kept.{
  status-Keeps, confirmed-Keeps, get_net_id-Keeps, set_network_param-Keeps, enable_network-Keeps,
}
use nmdaemon.Wpa.Networks.{has_line_end, set_network_param}
use nmdaemon.Wpa.{
  Sockets, State, Call, command_select, command_status, command_scan, command_scan_results,
  command_flush, command_reconfigure, command_disconnect, command_reassociate, command_attach,
}

module _ {K : Type 0} (w : Sockets K) (cli srv_dir : Text) (os : Platform)
    (siocgifflags : Text → K → Option (ℕ × ℕ)) (siocsifflags : Text → ℕ → ℕ → K → Bool × K)
    (js : Json) (insert_at : Text → js.Value → js.Value → js.Value) (Inv : K → Type 0)
    (g : IsGuard w siocsifflags Inv) where
  open js use {Value}

  exchange :
      (cmd ifname : Text)
      → has_line_end cmd ≡ false
      → Keeps (OnSys Inv) (wpa_ctrl_cmd w cli srv_dir cmd ifname)
  exchange = ctrl w cli srv_dir siocgifflags siocsifflags Inv g

  buffer : Keeps (OnSys Inv) (get_buf w)
  buffer = get_buf-Keeps w cli srv_dir siocgifflags siocsifflags Inv g

  get_flags-Keeps :
      (ifname : Text)
      → Keeps (OnSys Inv) (get_flags w cli srv_dir os siocgifflags siocsifflags js insert_at ifname)
  unfolding get_flags
  get_flags-Keeps ifname = record { at = λ s i. i }

  set_param-Keeps :
      (ifname : Text) (id : ℤ) (name param : Text) (quotes : Bool)
      → Keeps (OnSys Inv) (set_network_param w cli srv_dir ifname id name param quotes)
  set_param-Keeps = set_network_param-Keeps w cli srv_dir (OnSys Inv) exchange buffer

  lower_priority_of-Keeps :
      (ifname : Text) (id : Option ℤ)
      → Keeps
          (OnSys Inv)
          (lower_priority_of w cli srv_dir os siocgifflags siocsifflags js insert_at ifname id)
  unfolding lower_priority_of
  lower_priority_of-Keeps ifname none = search keeps_rules
  lower_priority_of-Keeps ifname (some id) = search (keeps_rules, set_param-Keeps) depth 40

  lower_priority-Keeps :
      (ifname b : Text)
      → Keeps
          (OnSys Inv)
          (lower_priority w cli srv_dir os siocgifflags siocsifflags js insert_at ifname b)
  unfolding lower_priority
  lower_priority-Keeps ifname b = search (keeps_rules, lower_priority_of-Keeps) depth 40

  poll-Keeps :
      (ifname : Text) (n : ℕ)
      → Keeps (OnSys Inv) (poll w cli srv_dir os siocgifflags siocsifflags js insert_at ifname n)
  unfolding poll
  poll-Keeps ifname zero = search keeps_rules
  poll-Keeps ifname (suc n) =
      let b = buffer in
      let rest = poll-Keeps ifname n in
      search (keeps_rules, status-Keeps w cli srv_dir (OnSys Inv) exchange buffer) depth 40

  polled-Keeps :
      (id : ℤ) (o : Option Bool)
      → Keeps (OnSys Inv) (polled w cli srv_dir os siocgifflags siocsifflags js insert_at id o)
  unfolding polled nmdaemon.Wpa.Connect.failed nmdaemon.Wpa.Connect.lines
  polled-Keeps id none = search keeps_rules
  polled-Keeps id (some false) = let b = buffer in search keeps_rules depth 40
  polled-Keeps id (some true) = let b = buffer in search keeps_rules depth 40

  restart_interface-Keeps :
      (ifname : Text) (id : ℤ)
      → Keeps
          (OnSys Inv)
          (restart_interface w cli srv_dir os siocgifflags siocsifflags js insert_at ifname id)
  unfolding restart_interface nmdaemon.Wpa.Connect.failed
  restart_interface-Keeps ifname id =
      search
        (
          keeps_rules,
          get_flags-Keeps,
          set_if_flags-Keeps w cli srv_dir siocgifflags siocsifflags Inv g,
          poll-Keeps,
          polled-Keeps,
        )
        depth 40 fits 4000

  check_connected-Keeps :
      (ifname : Text) (id : ℤ)
      → Keeps
          (OnSys Inv)
          (check_connected w cli srv_dir os siocgifflags siocsifflags js insert_at ifname id)
  unfolding check_connected nmdaemon.Wpa.Connect.failed nmdaemon.Wpa.Connect.lines
  check_connected-Keeps ifname id =
      let b = buffer in
      search
        (
          keeps_rules,
          status-Keeps w cli srv_dir (OnSys Inv) exchange buffer,
          restart_interface-Keeps,
        )
        depth 40 fits 4000

  wpa_connect_cmd-Keeps :
      (ifname : Text) (id : ℤ)
      → Keeps
          (OnSys Inv)
          (wpa_connect_cmd w cli srv_dir os siocgifflags siocsifflags js insert_at ifname id)
  unfolding wpa_connect_cmd nmdaemon.Wpa.Connect.failed has_line_end
  wpa_connect_cmd-Keeps ifname id =
      let b = buffer in
      search
        (
          keeps_rules,
          status-Keeps w cli srv_dir (OnSys Inv) exchange buffer,
          enable_network-Keeps w cli srv_dir (OnSys Inv) exchange buffer,
          confirmed-Keeps w cli srv_dir (OnSys Inv) exchange buffer,
          set_param-Keeps,
          lower_priority-Keeps,
          wpa_ctrl_wait-Keeps w cli srv_dir siocgifflags siocsifflags Inv g,
          check_connected-Keeps,
        )
        depth 40 fits 4000

  connect_to-Keeps :
      (ifname : Text) (id : ℤ) (ssid bssid : Text)
      → Keeps
          (OnSys Inv)
          (connect_to w cli srv_dir os siocgifflags siocsifflags js insert_at ifname id ssid bssid)
  unfolding connect_to wanted_id nmdaemon.Wpa.Connect.failed nmdaemon.Wpa.Connect.lines
  connect_to-Keeps ifname id ssid bssid =
      let b = buffer in
      search
        (
          keeps_rules,
          status-Keeps w cli srv_dir (OnSys Inv) exchange buffer,
          get_net_id-Keeps w cli srv_dir (OnSys Inv) exchange buffer,
          wpa_connect_cmd-Keeps,
        )
        depth 40 fits 4000

  pub exec_cmd_wpa_connect-Keeps :
      (j : Value)
      → Keeps
          (OnSys Inv)
          (exec_cmd_wpa_connect w cli srv_dir os siocgifflags siocsifflags js insert_at j)
  unfolding exec_cmd_wpa_connect nmdaemon.Wpa.Connect.failed
  exec_cmd_wpa_connect-Keeps j = search (keeps_rules, connect_to-Keeps) depth 40 fits 4000

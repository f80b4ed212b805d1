-- ===== src/Wpa/Connect.antt =====
-- execCmdWpaConnect and wpaConnectCmd (src/nmworkerwpa.cpp): the connection to a network by its
-- priority, with a reset of the interface where it does not come up.
use nmdaemon.Exec.{pure, ◌>>=◌}
use nmdaemon.Json.{Json}
use nmdaemon.Keys.{
  json_param_if_name, json_param_ssid, json_param_bssid, json_param_netid, json_param_succ,
  json_param_err,
}
use nmdaemon.Platform.{Platform}
use nmdaemon.Prelude.{
  ℕ, zero, suc, String, Bool, true, false, not, ◌&&◌, ℤ, is_negative, Option, none, some, ok, [],
  ◌∷◌, ◌++◌, drop, ◌==◌, if◌then◌else◌,
}
use nmdaemon.RcConf.{decimal}
use nmdaemon.Sys.{get_if_flags, set_if_flags, lower}
use nmdaemon.Text.{Text, codes, is_empty}
use nmdaemon.Wpa.Buffer.{search_line_in_buf, int_text, stoi, get_json_from_buf_lines}
use nmdaemon.Wpa.Control.{get_buf, act, wpa_ctrl_cmd, wpa_ctrl_wait}
use nmdaemon.Wpa.Networks.{
  get_string_param_from_command, get_int_param_from_command, json_result, confirmed,
  set_network_param, enable_network, get_net_id,
}
use nmdaemon.Wpa.{
  Sockets, Call, command_status, command_disconnect, command_reassociate, result_completed,
  param_priority, wait_cycles, max_priority, high_priority,
}

-- !searchLineInBuf(mask, true).empty()
unfoldable pub has_line : Text → Text → Bool
unfolding search_line_in_buf
has_line mask buf = not (is_empty (search_line_in_buf mask true buf))

unfoldable pub is_completed : Text → Bool
unfolding has_line
is_completed buf = has_line result_completed buf

-- "id=" + netid + "\n"
unfoldable pub id_mask : ℤ → Text
unfolding int_text
id_mask id = codes "id=" ++ (int_text id ++ b'\n' ∷ [])

-- The id of the network that the status names; `none` where there is none.
unfoldable pub connected_id : Text → Option ℤ
unfolding search_line_in_buf stoi
connected_id buf =
    let found = search_line_in_buf (codes "id=") true buf in
    if is_empty found then none else stoi (drop 3 found)

-- Already connected: by the id or the BSSID. By the SSID it never is, since the code tests a
-- pointer that stays null.
unfoldable pub is_connected : ℤ → Text → Text → Bool
unfolding is_completed has_line id_mask
is_connected id bssid buf =
    is_completed buf
    && (if not (is_negative id)
        then has_line (id_mask id) buf
        else if not (is_empty bssid)
        then has_line (codes "bssid=" ++ bssid) buf
        else false)

module _ {K : Type 0} (w : Sockets K) (cli srv_dir : Text) where
  -- The id of the request, or that of the network with the SSID or BSSID.
  unfoldable pub wanted_id : Text → ℤ → Text → Text → Call K ℤ
  wanted_id ifname id ssid bssid =
      if is_negative id then get_net_id w cli srv_dir ifname ssid bssid else pure id

module _ {K : Type 0} (w : Sockets K) (cli srv_dir : Text) (os : Platform)
    (siocgifflags : Text → K → Option (ℕ × ℕ)) (siocsifflags : Text → ℕ → ℕ → K → Bool × K)
    (js : Json) (insert_at : Text → js.Value → js.Value → js.Value) where
  open js use {Value}

  unfoldable pub failed : Call K Value
  failed = pure (json_result js json_param_err)

  -- getJsonFromBufLines
  unfoldable pub lines : String → Call K Value
  lines result = do b ← get_buf w; pure (get_json_from_buf_lines js insert_at result b)

  unfoldable pub get_flags : Text → Call K ℕ
  get_flags ifname s = (ok (get_if_flags siocgifflags siocsifflags ifname s.sys), s)

  unfoldable pub lower_priority_of : Text → Option ℤ → Call K Bool
  lower_priority_of ifname none = pure false
  lower_priority_of ifname (some id) =
      if is_negative id
      then pure false
      else set_network_param w cli srv_dir ifname id param_priority (decimal high_priority) false

  -- A network that is connected gets a lower priority.
  unfoldable pub lower_priority : Text → Text → Call K Bool
  lower_priority ifname buf =
      if is_completed buf then lower_priority_of ifname (connected_id buf) else pure true

  -- The status until it is COMPLETED: `none` where it cannot be got.
  unfoldable pub poll : Text → ℕ → Call K (Option Bool)
  poll ifname zero = pure (some false)
  poll ifname (suc n) =
      let rest = poll ifname n in
      wpa_ctrl_cmd w cli srv_dir command_status ifname >>= λ sent.
      if not sent
      then pure none
      else (get_buf w >>= λ b. if is_completed b then pure (some true) else rest)

  unfoldable pub polled : ℤ → Option Bool → Call K Value
  polled id none = failed
  polled id (some false) = lines json_param_err
  polled id (some true) = do
    b ← get_buf w
    if has_line (id_mask id) b then lines json_param_succ else lines json_param_err

  -- The interface is set down and up again.
  unfoldable pub restart_interface : Text → ℤ → Call K Value
  restart_interface ifname id = do
    flags ← get_flags ifname
    if flags == 0 then failed else do
      down ← act w (
          set_if_flags siocgifflags siocsifflags ifname
            (lower siocgifflags siocsifflags os.iff_up flags))
      if not down then failed else do
        up ← act w (set_if_flags siocgifflags siocsifflags ifname flags)
        if not up then failed else do status ← poll ifname wait_cycles; polled id status

  -- From the status behind the association on.
  unfoldable pub check_connected : Text → ℤ → Call K Value
  check_connected ifname id = do
    sent ← wpa_ctrl_cmd w cli srv_dir command_status ifname
    if not sent then failed else do
      b ← get_buf w
      if is_completed b && has_line (id_mask id) b
          then lines json_param_succ
          else restart_interface ifname id

  unfoldable pub wpa_connect_cmd : Text → ℤ → Call K Value
  wpa_connect_cmd ifname id = do
    enabled ← enable_network w cli srv_dir ifname id
    if not enabled then failed else do
      sent ← wpa_ctrl_cmd w cli srv_dir command_status ifname
      if not sent then failed else do
        b ← get_buf w
        lowered ← lower_priority ifname b
        if not lowered then failed else do
          raised ←
              set_network_param w cli srv_dir ifname id param_priority (decimal max_priority) false
          if not raised then failed else do
            disconnected ← confirmed w cli srv_dir command_disconnect ifname
            if not disconnected then failed else do
              associated ←
                  wpa_ctrl_wait w cli srv_dir command_reassociate (codes "Associated with") ifname
              if not associated then failed else check_connected ifname id

  unfoldable pub connect_to : Text → ℤ → Text → Text → Call K Value
  connect_to ifname id ssid bssid = do
    sent ← wpa_ctrl_cmd w cli srv_dir command_status ifname
    if not sent then failed else do
      b ← get_buf w
      if is_connected id bssid b then lines json_param_succ else do
        found ← wanted_id w cli srv_dir ifname id ssid bssid
        if is_negative found then failed else wpa_connect_cmd ifname found

  unfoldable pub exec_cmd_wpa_connect : Value → Call K Value
  exec_cmd_wpa_connect j =
      let ifname = get_string_param_from_command js j json_param_if_name in
      let id = get_int_param_from_command js j json_param_netid in
      let ssid = get_string_param_from_command js j json_param_ssid in
      let bssid = get_string_param_from_command js j json_param_bssid in
      if is_empty ifname
      then failed
      else if not (is_negative id)
      then connect_to ifname id [] []
      else if is_empty ssid && is_empty bssid
      then failed
      else connect_to ifname id ssid bssid

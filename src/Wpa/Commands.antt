-- ===== src/Wpa/Commands.antt =====
-- The other commands of NmWorkerWpa (src/nmworkerwpa.cpp). The directory of the sockets of
-- wpa_supplicant is a parameter: its entries by name, and whether each is a socket.
use nmdaemon.Exec.{pure, ◌>>=◌, ◌>>◌}
use nmdaemon.Json.{Json}
use nmdaemon.Keys.{
  json_param_if_name, json_param_ssid, json_param_bssid, json_param_netid, json_param_psk,
  json_param_net_param_name, json_param_net_param_value, json_param_net_param_quotes,
  json_param_interfaces, json_param_result, json_param_data, json_param_succ, json_param_err,
  json_param_notfound,
}
use nmdaemon.Prelude.{
  String, Bool, true, false, not, ◌&&◌, ◌||◌, ℤ, is_negative, List, [], ◌∷◌, ◌++◌, map, length,
  ◌==◌, if◌then◌else◌,
}
use nmdaemon.Text.{Text, codes, is_empty, text_eq}
use nmdaemon.Wpa.Buffer.{search_line_in_buf, int_text, get_piece, get_json_from_buf_lines}
use nmdaemon.Wpa.Connect.{is_completed}
use nmdaemon.Wpa.Control.{get_buf, wpa_ctrl_cmd, wpa_ctrl_wait}
use nmdaemon.Wpa.Networks.{
  get_string_param_from_command, get_bool_param_from_command, get_int_param_from_command,
  json_result, with_id, confirmed, set_network_param, remove_network, enable_network,
  reset_wpa_status, get_net_id,
}
use nmdaemon.Wpa.{
  Sockets, Call, command_list, command_ping, command_status, command_disconnect,
  command_reassociate, command_save, command_disable, command_set_bssid, result_connected,
}

module _ {K : Type 0} (w : Sockets K) (cli srv_dir : Text) where
  -- PONG in the first line of the reply
  unfoldable pub is_valid_wpa_if : Text → Call K Bool
  is_valid_wpa_if ifn = do
    sent ← wpa_ctrl_cmd w cli srv_dir command_ping ifn
    b ← get_buf w
    pure (sent && text_eq (codes "PONG") (get_piece b'\n' b).0)

  -- for (const auto& entry : fs::directory_iterator(...))
  unfoldable pub valid_ifs : List (Text × Bool) → Call K (List Text)
  valid_ifs [] = pure []
  valid_ifs ((n, is_socket) ∷ es) =
      let rest = valid_ifs es in
      (if is_socket then is_valid_wpa_if n else pure false) >>= λ valid.
      rest >>= λ ns. pure (if valid then n ∷ ns else ns)

  -- The line of the network in the list, where the request has an id.
  unfoldable pub is_listed : Text → ℤ → Call K Bool
  is_listed ifname id = do
    sent ← wpa_ctrl_cmd w cli srv_dir command_list ifname
    b ← get_buf w
    pure (sent && not (is_empty (search_line_in_buf (int_text id ++ b'\t' ∷ []) true b)))

  unfoldable pub remove_listed : Text → ℤ → Call K Bool
  remove_listed ifname id = do
    listed ← is_listed ifname id
    if not listed then pure false else remove_network w cli srv_dir ifname id

  unfoldable pub remove_named : Text → Text → Text → Call K Bool
  remove_named ifname ssid bssid = do
    id ← get_net_id w cli srv_dir ifname ssid bssid
    if is_negative id then pure false else remove_network w cli srv_dir ifname id

  module _ (js : Json) (insert_at : Text → js.Value → js.Value → js.Value) where
    open js use {Value, null, insert, of_text, of_list}

    unfoldable pub answer : String → Call K Value
    answer result = pure (json_result js result)

    -- JSON_RESULT_SUCCESS or JSON_RESULT_ERR
    unfoldable pub done : Call K Bool → Call K Value
    done m = do b ← m; answer (if b then json_param_succ else json_param_err)

    -- getJsonFromBufLines
    unfoldable pub lines : String → Call K Value
    lines result = do b ← get_buf w; pure (get_json_from_buf_lines js insert_at result b)

    -- The name of the interface, which every command needs.
    unfoldable pub with_if : Value → (Text → Call K Value) → Call K Value
    with_if j f =
        let ifname = get_string_param_from_command js j json_param_if_name in
        if is_empty ifname then answer json_param_err else f ifname

    -- The id of a network that is not negative.
    unfoldable pub with_netid : Value → (ℤ → Call K Value) → Call K Value
    with_netid j f =
        let id = get_int_param_from_command js j json_param_netid in
        if is_negative id then answer json_param_err else f id

    unfoldable pub exec_cmd_wpa_list_if : List (Text × Bool) → Call K Value
    exec_cmd_wpa_list_if entries = do
      ifs ← valid_ifs entries
      if length ifs == 0
          then answer json_param_notfound
          else pure (
              insert json_param_data (insert json_param_interfaces (of_list (map of_text ifs)) null)
                (insert json_param_result (of_text (codes json_param_succ)) null))

    unfoldable pub exec_cmd_wpa_status : Value → Call K Value
    exec_cmd_wpa_status j = with_if j λ ifname. do
      sent ← wpa_ctrl_cmd w cli srv_dir command_status ifname
      if not sent then answer json_param_err else lines json_param_succ

    unfoldable pub exec_cmd_wpa_disconnect : Value → Call K Value
    exec_cmd_wpa_disconnect j = with_if j λ ifname. do
      disconnected ← confirmed w cli srv_dir command_disconnect ifname
      if not disconnected then answer json_param_err else do
        sent ← wpa_ctrl_cmd w cli srv_dir command_status ifname
        if not sent then answer json_param_err else lines json_param_succ

    -- The result of the wait for the connection is not used.
    unfoldable pub exec_cmd_wpa_reassoc : Value → Call K Value
    exec_cmd_wpa_reassoc j = with_if j λ ifname. do
      wpa_ctrl_wait w cli srv_dir command_reassociate result_connected ifname
      sent ← wpa_ctrl_cmd w cli srv_dir command_status ifname
      if not sent
          then answer json_param_err
          else do b ← get_buf w; lines (if is_completed b then json_param_succ else json_param_err)

    unfoldable pub exec_cmd_wpa_remove : Value → Call K Value
    exec_cmd_wpa_remove j = with_if j λ ifname.
        let id = get_int_param_from_command js j json_param_netid in
        let ssid = get_string_param_from_command js j json_param_ssid in
        let bssid = get_string_param_from_command js j json_param_bssid in
        if not (is_negative id)
        then done (remove_listed ifname id)
        else if is_empty ssid && is_empty bssid
        then answer json_param_err
        else done (remove_named ifname ssid bssid)

    unfoldable pub exec_cmd_wpa_set_psk : Value → Call K Value
    exec_cmd_wpa_set_psk j = with_if j λ ifname.
        let psk = get_string_param_from_command js j json_param_psk in
        if is_empty psk
        then answer json_param_err
        else with_netid j
            λ id. done (set_network_param w cli srv_dir ifname id (codes "psk") psk true)

    unfoldable pub exec_cmd_wpa_set_net_param : Value → Call K Value
    exec_cmd_wpa_set_net_param j = with_if j λ ifname.
        let name = get_string_param_from_command js j json_param_net_param_name in
        let value = get_string_param_from_command js j json_param_net_param_value in
        let quotes = get_bool_param_from_command js j json_param_net_param_quotes in
        if is_empty name || is_empty value
        then answer json_param_err
        else with_netid j λ id. done (set_network_param w cli srv_dir ifname id name value quotes)

    unfoldable pub exec_cmd_wpa_reset : Value → Call K Value
    exec_cmd_wpa_reset j = with_if j λ ifname. done (reset_wpa_status w cli srv_dir ifname)

    unfoldable pub exec_cmd_wpa_save : Value → Call K Value
    exec_cmd_wpa_save j = with_if j λ ifname. done (wpa_ctrl_cmd w cli srv_dir command_save ifname)

    unfoldable pub exec_cmd_wpa_enable : Value → Call K Value
    exec_cmd_wpa_enable j =
        with_if j λ ifname. with_netid j λ id. done (enable_network w cli srv_dir ifname id)

    unfoldable pub exec_cmd_wpa_disable : Value → Call K Value
    exec_cmd_wpa_disable j = with_if j λ ifname.
        with_netid j λ id. done (wpa_ctrl_cmd w cli srv_dir (with_id command_disable id) ifname)

    unfoldable pub exec_cmd_wpa_set_bssid : Value → Call K Value
    exec_cmd_wpa_set_bssid j = with_if j λ ifname.
        let bssid = get_string_param_from_command js j json_param_bssid in
        if is_empty bssid
        then answer json_param_err
        else with_netid j λ id.
          done (wpa_ctrl_cmd w cli srv_dir (with_id command_set_bssid id ++ b' ' ∷ bssid) ifname)

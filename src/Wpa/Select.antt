-- ===== src/Wpa/Select.antt =====
-- execCmdWpaSelect and wpaSelectCmd (src/nmworkerwpa.cpp): the selection of a network, and what
-- wpa_supplicant reports about it.
use nmdaemon.Exec.{pure, ◌>>=◌}
use nmdaemon.Json.{Json}
use nmdaemon.Keys.{
  json_param_if_name, json_param_ssid, json_param_bssid, json_param_netid, json_param_succ,
  json_param_err, json_data_err_not_available, json_data_err_auth_failed,
  json_data_err_drv_req_failed,
}
use nmdaemon.Prelude.{
  ℕ, ◌+◌, ◌*◌, String, Bool, true, false, not, ◌&&◌, ◌||◌, ℤ, is_negative, Option, none, some, [],
  ◌++◌, if◌then◌else◌,
}
use nmdaemon.Text.{Text, codes, is_empty, text_eq, starts_with}
use nmdaemon.Wpa.Buffer.{search_line_in_buf, int_text, get_json_from_buf_lines}
use nmdaemon.Wpa.Connect.{has_line, is_completed, id_mask, wanted_id}
use nmdaemon.Wpa.Control.{
  get_buf, act, holds, is_event, wait_for, wpa_ctrl_cmd, sock_ctrl_cmd, with_socket,
}
use nmdaemon.Wpa.Networks.{
  get_string_param_from_command, get_int_param_from_command, json_result, with_id,
}
use nmdaemon.Wpa.{
  Sockets, Call, command_status, command_select, command_attach, result_connected, result_not_found,
  result_handshake_failed, result_driver_request_failed, result_temp_disabled, result_wrong_key,
  result_fail_busy, result_ok, wait_cycles,
}

-- conn_status
pub data ConnStatus : Type 0 where
  connected not_found handshake_failed driver_request_failed temp_disabled : ConnStatus

-- The tests of one message, in their order. RESULT_TEMP_DISABLED counts for the network alone that
-- is selected.
unfoldable pub conn_status : ℤ → ℕ → Text → Option ConnStatus
unfolding is_event holds int_text
conn_status id res buf =
    if is_event result_connected res buf
    then some connected
    else if is_event result_not_found res buf
    then some not_found
    else if is_event result_handshake_failed res buf
    then some handshake_failed
    else if is_event result_driver_request_failed res buf
    then some driver_request_failed
    else if is_event result_temp_disabled res buf && holds buf (codes "id=" ++ int_text id)
    then some temp_disabled
    else none

-- Already connected: by the id, the BSSID, or the SSID.
unfoldable pub is_selected : ℤ → Text → Text → Text → Bool
unfolding is_completed has_line id_mask search_line_in_buf text_eq
is_selected id ssid bssid buf =
    is_completed buf
    && (if not (is_negative id)
        then has_line (id_mask id) buf
        else if not (is_empty bssid)
        then has_line (codes "bssid=" ++ bssid) buf
        else if not (is_empty ssid)
        then (has_line (codes "ssid=" ++ ssid) buf
            && text_eq (search_line_in_buf (codes "ssid=" ++ ssid) true buf)
                (codes "ssid=" ++ ssid))
        else false)

module _ {K : Type 0} (w : Sockets K) (cli srv_dir : Text) (js : Json)
    (insert_at : Text → js.Value → js.Value → js.Value) where
  open js use {Value}

  unfoldable pub answer : String → Call K Value
  answer result = pure (json_result js result)

  -- getJsonFromBufLines
  unfoldable pub lines : String → Call K Value
  lines result = do b ← get_buf w; pure (get_json_from_buf_lines js insert_at result b)

  -- Connected, but to which network?
  unfoldable pub check_selected : ℤ → Call K Value
  check_selected id = do
    sent ← sock_ctrl_cmd w command_status
    if not sent then answer json_param_err else do
      b ← get_buf w
      if has_line (id_mask id) b && is_completed b
          then lines json_param_succ
          else lines json_param_err

  unfoldable pub select_answer : ℤ → Option ConnStatus → Call K Value
  select_answer id none = answer json_param_err
  select_answer id (some connected) = check_selected id
  select_answer id (some not_found) = answer json_data_err_not_available
  select_answer id (some handshake_failed) = answer json_data_err_auth_failed
  select_answer id (some driver_request_failed) = answer json_data_err_drv_req_failed
  select_answer id (some temp_disabled) = do
    b ← get_buf w
    if holds b result_wrong_key then answer json_data_err_auth_failed else answer json_param_err

  -- What wpaSelectCmd does with its socket.
  unfoldable pub select_over : ℤ → Call K Value
  select_over id = do
    attached ← act w (w.send command_attach)
    if not attached then answer json_param_err else do
      sent ← sock_ctrl_cmd w (with_id command_select id)
      if not sent then answer json_param_err else do
        b ← get_buf w
        if starts_with b result_fail_busy || not (starts_with b result_ok)
            then answer json_param_err
            else (wait_for w (conn_status id) (2 * wait_cycles + 1) >>= select_answer id)

  unfoldable pub wpa_select_cmd : Text → ℤ → Call K Value
  wpa_select_cmd ifname id =
      with_socket w cli srv_dir (srv_dir ++ ifname) (answer json_param_err) (select_over id)

  unfoldable pub select_in : Text → ℤ → Text → Text → Call K Value
  select_in ifname id ssid bssid = do
    sent ← wpa_ctrl_cmd w cli srv_dir command_status ifname
    if not sent then answer json_param_err else do
      b ← get_buf w
      if is_selected id ssid bssid b then lines json_param_succ else do
        found ← wanted_id w cli srv_dir ifname id ssid bssid
        if is_negative found then answer json_param_err else wpa_select_cmd ifname found

  unfoldable pub exec_cmd_wpa_select : Value → Call K Value
  exec_cmd_wpa_select j =
      let ifname = get_string_param_from_command js j json_param_if_name in
      let id = get_int_param_from_command js j json_param_netid in
      let ssid = get_string_param_from_command js j json_param_ssid in
      let bssid = get_string_param_from_command js j json_param_bssid in
      if is_empty ifname
      then answer json_param_err
      else if not (is_negative id)
      then select_in ifname id [] []
      else if is_empty ssid && is_empty bssid
      then answer json_param_err
      else select_in ifname id ssid bssid

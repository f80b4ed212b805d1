-- ===== src/Wpa/Scan.antt =====
-- execCmdWpaScan and execCmdWpaScanResults (src/nmworkerwpa.cpp). The labels send_scan and
-- send_reset are functions; a scan is tried four times.
use nmdaemon.Exec.{pure, lift, ◌>>=◌}
use nmdaemon.Json.{Json}
use nmdaemon.Keys.{json_param_if_name, json_param_networks, json_param_err}
use nmdaemon.Prelude.{
  ℕ, zero, suc, ◌+◌, ◌*◌, not, ◌&&◌, ◌||◌, Option, none, some, is_some, ◌++◌, length, ltb,
  if◌then◌else◌,
}
use nmdaemon.Text.{Text, is_empty, starts_with}
use nmdaemon.Wpa.Buffer.{get_json_from_buf_table}
use nmdaemon.Wpa.Control.{
  get_buf, act, holds, is_event, event, wait_for, wpa_ctrl_cmd, sock_ctrl_cmd, with_socket,
}
use nmdaemon.Wpa.Networks.{get_string_param_from_command, json_result}
use nmdaemon.Wpa.{
  Sockets, Call, command_scan, command_scan_results, command_attach, command_flush,
  command_reconfigure, result_scan_results, result_reject_scan, result_failed_scan,
  result_fail_busy, result_ok, wait_cycles,
}

-- SCAN_MAX_RETRIES + 1
abbrev pub scan_tries : ℕ
scan_tries = 4

-- What a message says of the scan: that a reset is needed, or that there are results.
pub data Scanned : Type 0 where
  needs_reset has_results : Scanned

unfoldable pub scanned : ℕ → Text → Option Scanned
unfolding is_event holds
scanned res buf =
    if ltb (length result_fail_busy) res && holds buf result_fail_busy
    then some needs_reset
    else if is_event result_reject_scan res buf || is_event result_failed_scan res buf
    then some needs_reset
    else if is_event result_scan_results res buf
    then some has_results
    else none

module _ {K : Type 0} (w : Sockets K) (cli srv_dir : Text) (js : Json)
    (insert_at : Text → js.Value → js.Value → js.Value) where
  open js use {Value}

  unfoldable pub failed : Call K Value
  failed = pure (json_result js json_param_err)

  unfoldable pub table : Call K Value
  table = do b ← get_buf w; lift (get_json_from_buf_table js insert_at json_param_networks b)

  unfoldable pub get_results : Call K Value
  get_results = do sent ← sock_ctrl_cmd w command_scan_results; if not sent then failed else table

  -- send_reset, and `retry` where there are no results behind it
  unfoldable pub send_reset : Call K Value → Call K Value
  send_reset retry = do
    flushed ← sock_ctrl_cmd w command_flush
    if not flushed then failed else do
      reconfigured ← sock_ctrl_cmd w command_reconfigure
      if not reconfigured then failed else do
        e ← wait_for w (event result_scan_results) (2 * wait_cycles + 1)
        if is_some e then get_results else retry

  -- Behind the wait for the scan: its results are asked for also where nothing has come.
  unfoldable pub after_scan : Call K Value → Option Scanned → Call K Value
  after_scan retry none = get_results
  after_scan retry (some has_results) = get_results
  after_scan retry (some needs_reset) = send_reset retry

  unfoldable pub send_scan : ℕ → Call K Value
  send_scan zero = failed
  send_scan (suc n) =
      let retry = send_scan n in
      do
        sent ← sock_ctrl_cmd w command_scan
        if not sent then failed else do
          b ← get_buf w
          if starts_with b result_fail_busy
              then send_reset retry
              else if not (starts_with b result_ok)
              then failed
              else (wait_for w scanned (2 * wait_cycles + 1) >>= after_scan retry)

  unfoldable pub scan_over : Call K Value
  scan_over = do
    attached ← act w (w.send command_attach)
    if not attached then failed else send_scan scan_tries

  unfoldable pub exec_cmd_wpa_scan : Value → Call K Value
  exec_cmd_wpa_scan j =
      let ifname = get_string_param_from_command js j json_param_if_name in
      if is_empty ifname
      then failed
      else with_socket w cli srv_dir (srv_dir ++ ifname) failed scan_over

  unfoldable pub exec_cmd_wpa_scan_results : Value → Call K Value
  exec_cmd_wpa_scan_results j =
      let ifname = get_string_param_from_command js j json_param_if_name in
      if is_empty ifname then failed else do
        sent ← wpa_ctrl_cmd w cli srv_dir command_scan_results ifname
        if not sent then failed else table

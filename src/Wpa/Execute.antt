-- ===== src/Wpa/Execute.antt =====
-- The switch of NmWorkerWpa::execCmd (src/nmworkerwpa.cpp) over its handlers; WPA_LIST is not
-- modelled, and the default answers at once.
pub mod Files
pub mod Lines
pub mod Selected
pub mod Connected
pub mod Sent
pub mod Removed
pub mod Stuck
use nmdaemon.Command.{NmCmd}
use nmdaemon.Json.{Json}
use nmdaemon.Platform.{Platform}
use nmdaemon.Prelude.{ℕ, Bool, Option, none, some, List}
use nmdaemon.Text.{Text}
use nmdaemon.Wpa.Add.{exec_cmd_wpa_add}
use nmdaemon.Wpa.Commands.{
  exec_cmd_wpa_list_if, exec_cmd_wpa_status, exec_cmd_wpa_disconnect, exec_cmd_wpa_reassoc,
  exec_cmd_wpa_remove, exec_cmd_wpa_set_psk, exec_cmd_wpa_set_net_param, exec_cmd_wpa_reset,
  exec_cmd_wpa_save, exec_cmd_wpa_enable, exec_cmd_wpa_disable, exec_cmd_wpa_set_bssid,
}
use nmdaemon.Wpa.Connect.{exec_cmd_wpa_connect}
use nmdaemon.Wpa.Scan.{exec_cmd_wpa_scan, exec_cmd_wpa_scan_results}
use nmdaemon.Wpa.Select.{exec_cmd_wpa_select}
use nmdaemon.Wpa.{Sockets, State, Call}

-- The cases of the switch.
pub data Case : Type 0 where
  wpa_list_if wpa_scan wpa_scan_results wpa_status wpa_setpsk wpa_setparam wpa_connect : Case
  wpa_select wpa_disconnect wpa_reassoc wpa_add wpa_remove wpa_reset wpa_save wpa_enable wpa_disable
        wpa_set_bssid :
      Case

unfoldable pub case_of : NmCmd → Option Case
case_of NmCmd.wpa_list_if = some Case.wpa_list_if
case_of NmCmd.wpa_scan = some Case.wpa_scan
case_of NmCmd.wpa_scan_results = some Case.wpa_scan_results
case_of NmCmd.wpa_status = some Case.wpa_status
case_of NmCmd.wpa_setpsk = some Case.wpa_setpsk
case_of NmCmd.wpa_setparam = some Case.wpa_setparam
case_of NmCmd.wpa_connect = some Case.wpa_connect
case_of NmCmd.wpa_select = some Case.wpa_select
case_of NmCmd.wpa_disconnect = some Case.wpa_disconnect
case_of NmCmd.wpa_reassoc = some Case.wpa_reassoc
case_of NmCmd.wpa_add = some Case.wpa_add
case_of NmCmd.wpa_remove = some Case.wpa_remove
case_of NmCmd.wpa_reset = some Case.wpa_reset
case_of NmCmd.wpa_save = some Case.wpa_save
case_of NmCmd.wpa_enable = some Case.wpa_enable
case_of NmCmd.wpa_disable = some Case.wpa_disable
case_of NmCmd.wpa_set_bssid = some Case.wpa_set_bssid
case_of _ = none

module _ {K : Type 0} (w : Sockets K) (cli srv_dir : Text) (os : Platform)
    (siocgifflags : Text → K → Option (ℕ × ℕ)) (siocsifflags : Text → ℕ → ℕ → K → Bool × K)
    (entries : List (Text × Bool)) (js : Json)
    (insert_at : Text → js.Value → js.Value → js.Value) where
  open js use {Value}

  unfoldable pub handler : Case → Value → Call K Value
  handler Case.wpa_list_if j = exec_cmd_wpa_list_if w cli srv_dir js insert_at entries
  handler Case.wpa_scan j = exec_cmd_wpa_scan w cli srv_dir js insert_at j
  handler Case.wpa_scan_results j = exec_cmd_wpa_scan_results w cli srv_dir js insert_at j
  handler Case.wpa_status j = exec_cmd_wpa_status w cli srv_dir js insert_at j
  handler Case.wpa_setpsk j = exec_cmd_wpa_set_psk w cli srv_dir js insert_at j
  handler Case.wpa_setparam j = exec_cmd_wpa_set_net_param w cli srv_dir js insert_at j
  handler Case.wpa_connect j =
      exec_cmd_wpa_connect w cli srv_dir os siocgifflags siocsifflags js insert_at j
  handler Case.wpa_select j = exec_cmd_wpa_select w cli srv_dir js insert_at j
  handler Case.wpa_disconnect j = exec_cmd_wpa_disconnect w cli srv_dir js insert_at j
  handler Case.wpa_reassoc j = exec_cmd_wpa_reassoc w cli srv_dir js insert_at j
  handler Case.wpa_add j = exec_cmd_wpa_add w cli srv_dir js insert_at j
  handler Case.wpa_remove j = exec_cmd_wpa_remove w cli srv_dir js insert_at j
  handler Case.wpa_reset j = exec_cmd_wpa_reset w cli srv_dir js insert_at j
  handler Case.wpa_save j = exec_cmd_wpa_save w cli srv_dir js insert_at j
  handler Case.wpa_enable j = exec_cmd_wpa_enable w cli srv_dir js insert_at j
  handler Case.wpa_disable j = exec_cmd_wpa_disable w cli srv_dir js insert_at j
  handler Case.wpa_set_bssid j = exec_cmd_wpa_set_bssid w cli srv_dir js insert_at j

-- ===== src/IfWorker/Client.antt =====
-- The DHCP client of an interface in NmWorkerIf (src/nmworkerif.cpp): isDHCPEnabled, termDHCPClient,
-- killDHCPClient, enableDHCP, execCmdDHCPDisable, execCmdDHCPGetStatus.
use Prim.Native.Nat.{bit_and}
use nmdaemon.Exec.{Exec, pure, ◌>>=◌, ◌>>◌}
use nmdaemon.IfWorker.{Ifaces, Signal, sigterm, sigkill, read, call, answer, with_name}
use nmdaemon.Json.{Json}
use nmdaemon.Keys.{
  json_param_result, json_param_data, json_param_succ, json_data_dhcp_status, json_data_enabled,
  json_data_disabled,
}
use nmdaemon.Prelude.{ℕ, zero, suc, Bool, true, false, not, ◌&&◌, ltb, ◌==◌, ok, if◌then◌else◌}
use nmdaemon.Text.{Text, codes}
use nmdaemon.Tool.Dhcp.{is_dhcp_enabled, get_dhcp_client_pid}

-- MEDIA_STATUS_MAX_RETRIES
abbrev pub media_status_max_retries : ℕ
media_status_max_retries = 100

module _ {K : Type 0} (w : Ifaces K) where
  unfoldable pub is_enabled : Text → Exec K Bool
  is_enabled name = read (λ k. is_dhcp_enabled (w.processes k) name)

  unfoldable pub sleep : Exec K Bool
  sleep k = (ok true, w.sleep k)

  unfoldable pub signal_pid : Signal → ℕ → Exec K Bool
  signal_pid sig pid = if ltb 0 pid then call (w.kill pid sig) else pure false

  -- termDHCPClient and killDHCPClient
  unfoldable pub signal_client : Signal → Text → Exec K Bool
  signal_client sig name = do
    pid ← read (λ k. get_dhcp_client_pid (w.processes k) name)
    signal_pid sig pid

  -- Known to be valid, and not active.
  unfoldable pub is_waiting : ℕ → Bool
  is_waiting status = not (bit_and status w.ifm_avalid == 0) && bit_and status w.ifm_active == 0

  -- for(;;) of enableDHCP, with the retries that are left
  unfoldable pub wait_media : ℕ → Text → Exec K Bool
  wait_media zero name = pure true
  wait_media (suc n) name =
      let rest = wait_media n name in
      read (w.media_status name) >>= λ status.
      if is_waiting status then sleep >> rest else pure true

  unfoldable pub start_client : Text → Exec K Bool
  start_client name = do
    wait_media media_status_max_retries name
    started ← call (w.spawn name)
    if not started then pure false else (sleep >> is_enabled name)

  unfoldable pub enable_dhcp : Text → Exec K Bool
  enable_dhcp name = do enabled ← is_enabled name; if enabled then pure true else start_client name

  -- A signal to a client that runs, as execCmdIpAddrSet sends it.
  unfoldable pub stop_client : Signal → Text → Exec K Bool
  stop_client sig name = do
    enabled ← is_enabled name
    if enabled then (signal_client sig name >> sleep) else pure true

  module _ (js : Json) where
    open js use {Value, null, insert, of_text}

    unfoldable pub disable_over : Text → Exec K Value
    disable_over name = do
      enabled ← is_enabled name
      if not enabled then answer js true else do
        signal_client sigterm name
        sleep
        remains ← is_enabled name
        if not remains then answer js true else do
          signal_client sigkill name
          sleep
          still ← is_enabled name
          answer js (not still)

    unfoldable pub exec_cmd_dhcp_disable : Value → Exec K Value
    exec_cmd_dhcp_disable j = with_name js j disable_over

    unfoldable pub status_json : Bool → Value
    status_json enabled =
        insert json_param_data
          (insert json_data_dhcp_status
            (of_text (codes (if enabled then json_data_enabled else json_data_disabled))) null)
          (insert json_param_result (of_text (codes json_param_succ)) null)

    unfoldable pub exec_cmd_dhcp_get_status : Value → Exec K Value
    exec_cmd_dhcp_get_status j =
        with_name js j λ name. do enabled ← is_enabled name; pure (status_json enabled)

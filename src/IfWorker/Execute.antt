-- ===== src/IfWorker/Execute.antt =====
-- The switch of NmWorkerIf::execCmd (src/nmworkerif.cpp).
use nmdaemon.Command.{NmCmd}
use nmdaemon.Exec.{Exec, pure}
use nmdaemon.IfWorker.Addresses.{
  exec_cmd_ip_addr_set, exec_cmd_ip_addr_get, exec_cmd_ip_addr_add, exec_cmd_ip_addr_remove,
  exec_cmd_mtu_get, exec_cmd_mtu_set, exec_cmd_dhcp_enable,
}
use nmdaemon.IfWorker.Client.{exec_cmd_dhcp_disable, exec_cmd_dhcp_get_status}
use nmdaemon.IfWorker.{Ifaces}
use nmdaemon.Json.{Json}
use nmdaemon.Keys.{
  json_param_result, json_param_err, json_data_err_not_implemented, json_data_err_invalid_command,
}
use nmdaemon.Platform.{Platform}
use nmdaemon.Prelude.{String}
use nmdaemon.Text.{codes}

module _ {K : Type 0} (w : Ifaces K) (os : Platform) (js : Json) where
  open js use {Value, null, insert, of_text}

  unfoldable pub rejected : String → Exec K Value
  rejected reason = pure (
      insert json_param_err (of_text (codes reason))
        (insert json_param_result (of_text (codes json_param_err)) null))

  unfoldable pub handle : NmCmd → Value → Exec K Value
  handle NmCmd.ip_addr_set j = exec_cmd_ip_addr_set w os js j
  handle NmCmd.ip4_addr_get j = exec_cmd_ip_addr_get w os js j
  handle NmCmd.ip_addr_add j = exec_cmd_ip_addr_add w os js j
  handle NmCmd.ip_addr_remove j = exec_cmd_ip_addr_remove w os js j
  handle NmCmd.mtu_get j = exec_cmd_mtu_get w os js j
  handle NmCmd.mtu_set j = exec_cmd_mtu_set w os js j
  handle NmCmd.ip4_dhcp_enable j = exec_cmd_dhcp_enable w os js j
  handle NmCmd.ip4_dhcp_disable j = exec_cmd_dhcp_disable w js j
  handle NmCmd.ip4_get_dhcp_status j = exec_cmd_dhcp_get_status w js j
  handle NmCmd.ip6_addr_get j = rejected json_data_err_not_implemented
  handle NmCmd.ip6_dhcp_enable j = rejected json_data_err_not_implemented
  handle NmCmd.ip6_dhcp_disable j = rejected json_data_err_not_implemented
  handle NmCmd.ip6_get_dhcp_status j = rejected json_data_err_not_implemented
  handle NmCmd.mac_addr_get j = rejected json_data_err_not_implemented
  handle NmCmd.mac_addr_set j = rejected json_data_err_not_implemented
  handle _ j = rejected json_data_err_invalid_command

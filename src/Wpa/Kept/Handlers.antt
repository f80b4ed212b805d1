-- ===== src/Wpa/Kept/Handlers.antt =====
-- The handlers of NmWorkerWpa, one by one (src/nmworkerwpa.cpp): what each exchange with
-- wpa_supplicant keeps, the handler keeps.
use nmdaemon.Exec.Keeps.{Keeps, keeps_rules, Keeps-pure, Keeps-bind, Keeps-if}
use nmdaemon.Json.{Json}
use nmdaemon.Prelude.{◌≡◌, refl, Bool, false, ℤ, Option, none, some, List, [], ◌∷◌}
use nmdaemon.Text.{Text}
use nmdaemon.Wpa.Add.{
  Setting, setting, refuse, set_all, show_added, configure, add_network, exec_cmd_wpa_add,
  failed as add_failed,
}
use nmdaemon.Wpa.Commands.{
  is_valid_wpa_if, valid_ifs, is_listed, remove_listed, remove_named, answer, done, lines, with_if,
  with_netid, exec_cmd_wpa_list_if, exec_cmd_wpa_status, exec_cmd_wpa_disconnect,
  exec_cmd_wpa_remove, exec_cmd_wpa_set_psk, exec_cmd_wpa_set_net_param, exec_cmd_wpa_reset,
  exec_cmd_wpa_save, exec_cmd_wpa_enable, exec_cmd_wpa_disable,
}
use nmdaemon.Wpa.Scan.{exec_cmd_wpa_scan_results, table, failed as scan_failed}
use nmdaemon.Wpa.Control.{get_buf, wpa_ctrl_cmd}
use nmdaemon.Wpa.Kept.{
  list-Keeps, scan_results-Keeps, ping-Keeps, status-Keeps, add-Keeps, save-Keeps, confirmed-Keeps,
  get_net_id-Keeps, set_network_param-Keeps, remove_network-Keeps, enable_network-Keeps,
  reset_wpa_status-Keeps, has_line_end-with_id,
}
use nmdaemon.Wpa.Networks.{has_line_end, with_id}
use nmdaemon.Wpa.{Sockets, State, command_disconnect, command_disable}

module _ {K : Type 0} (w : Sockets K) (cli srv_dir : Text) (P : State K → Type 0)
    (ctrl : (cmd ifname : Text)
      → has_line_end cmd ≡ false
      → Keeps P (wpa_ctrl_cmd w cli srv_dir cmd ifname))
    (buffer : Keeps P (get_buf w)) where
  pub is_valid_wpa_if-Keeps : (ifn : Text) → Keeps P (is_valid_wpa_if w cli srv_dir ifn)
  unfolding is_valid_wpa_if
  is_valid_wpa_if-Keeps ifn =
      search (keeps_rules, ping-Keeps w cli srv_dir P ctrl buffer) depth 40 fits 4000

  valid_ifs-Keeps : (es : List (Text × Bool)) → Keeps P (valid_ifs w cli srv_dir es)
  unfolding valid_ifs
  valid_ifs-Keeps [] = search keeps_rules
  valid_ifs-Keeps ((n, is_socket) ∷ es) =
      Keeps-bind _ _ (Keeps-if is_socket _ _ (is_valid_wpa_if-Keeps n) (Keeps-pure false))
        λ valid. Keeps-bind _ _ (valid_ifs-Keeps es) λ ns. Keeps-pure _

  set_all-Keeps :
      (ifname : Text) (id : ℤ) (ss : List Setting) → Keeps P (set_all w cli srv_dir ifname id ss)
  unfolding set_all
  set_all-Keeps ifname id [] = search keeps_rules
  set_all-Keeps ifname id (refuse ∷ ss) =
      search (keeps_rules, remove_network-Keeps w cli srv_dir P ctrl buffer) depth 40
  set_all-Keeps ifname id (setting name value quotes ∷ ss) =
      let rest = set_all-Keeps ifname id ss in
      search
        (
          keeps_rules,
          remove_network-Keeps w cli srv_dir P ctrl buffer,
          set_network_param-Keeps w cli srv_dir P ctrl buffer,
        )
        depth 40

  disable-Keeps :
      (ifname : Text) (id : ℤ)
      → Keeps P (wpa_ctrl_cmd w cli srv_dir (with_id command_disable id) ifname)
  disable-Keeps ifname id =
      ctrl (with_id command_disable id) ifname
        (has_line_end-with_id command_disable id (unfold has_line_end in refl))

  module _ (js : Json) (insert_at : Text → js.Value → js.Value → js.Value) where
    open js use {Value}

    configure-Keeps :
        (ifname ssid bssid profile psk : Text) (id : Option ℤ)
        → Keeps P (configure w cli srv_dir js insert_at ifname ssid bssid profile psk id)
    unfolding configure show_added add_failed
    configure-Keeps ifname ssid bssid profile psk none = search keeps_rules
    configure-Keeps ifname ssid bssid profile psk (some new_id) =
        search (keeps_rules, set_all-Keeps, list-Keeps w cli srv_dir P ctrl buffer) depth 40 fits
          4000

    pub exec_cmd_wpa_add-Keeps :
        (j : Value) → Keeps P (exec_cmd_wpa_add w cli srv_dir js insert_at j)
    unfolding exec_cmd_wpa_add add_network add_failed
    exec_cmd_wpa_add-Keeps j =
        search
          (
            keeps_rules,
            configure-Keeps,
            list-Keeps w cli srv_dir P ctrl buffer,
            add-Keeps w cli srv_dir P ctrl buffer,
          )
          depth 40 fits 4000

    pub exec_cmd_wpa_scan_results-Keeps :
        (j : Value) → Keeps P (exec_cmd_wpa_scan_results w cli srv_dir js insert_at j)
    unfolding exec_cmd_wpa_scan_results scan_failed table
    exec_cmd_wpa_scan_results-Keeps j =
        search (keeps_rules, scan_results-Keeps w cli srv_dir P ctrl buffer) depth 40 fits 4000

    pub exec_cmd_wpa_status-Keeps :
        (j : Value) → Keeps P (exec_cmd_wpa_status w cli srv_dir js insert_at j)
    unfolding exec_cmd_wpa_status with_if answer lines
    exec_cmd_wpa_status-Keeps j =
        search (keeps_rules, status-Keeps w cli srv_dir P ctrl buffer) depth 40 fits 4000

    pub exec_cmd_wpa_disconnect-Keeps :
        (j : Value) → Keeps P (exec_cmd_wpa_disconnect w cli srv_dir js insert_at j)
    unfolding exec_cmd_wpa_disconnect with_if answer lines has_line_end
    exec_cmd_wpa_disconnect-Keeps j =
        search (keeps_rules, confirmed-Keeps w cli srv_dir P ctrl buffer command_disconnect) depth
          40 fits 4000

    pub exec_cmd_wpa_remove-Keeps :
        (j : Value) → Keeps P (exec_cmd_wpa_remove w cli srv_dir js insert_at j)
    unfolding exec_cmd_wpa_remove with_if answer done remove_listed is_listed remove_named
    exec_cmd_wpa_remove-Keeps j =
        search
          (
            keeps_rules,
            list-Keeps w cli srv_dir P ctrl buffer,
            get_net_id-Keeps w cli srv_dir P ctrl buffer,
            remove_network-Keeps w cli srv_dir P ctrl buffer,
          )
          depth 40 fits 4000

    pub exec_cmd_wpa_set_psk-Keeps :
        (j : Value) → Keeps P (exec_cmd_wpa_set_psk w cli srv_dir js insert_at j)
    unfolding exec_cmd_wpa_set_psk with_if with_netid answer done
    exec_cmd_wpa_set_psk-Keeps j =
        search (keeps_rules, set_network_param-Keeps w cli srv_dir P ctrl buffer) depth 40 fits 4000

    pub exec_cmd_wpa_set_net_param-Keeps :
        (j : Value) → Keeps P (exec_cmd_wpa_set_net_param w cli srv_dir js insert_at j)
    unfolding exec_cmd_wpa_set_net_param with_if with_netid answer done
    exec_cmd_wpa_set_net_param-Keeps j =
        search (keeps_rules, set_network_param-Keeps w cli srv_dir P ctrl buffer) depth 40 fits 4000

    pub exec_cmd_wpa_reset-Keeps :
        (j : Value) → Keeps P (exec_cmd_wpa_reset w cli srv_dir js insert_at j)
    unfolding exec_cmd_wpa_reset with_if answer done
    exec_cmd_wpa_reset-Keeps j =
        search (keeps_rules, reset_wpa_status-Keeps w cli srv_dir P ctrl buffer) depth 40 fits 4000

    pub exec_cmd_wpa_save-Keeps :
        (j : Value) → Keeps P (exec_cmd_wpa_save w cli srv_dir js insert_at j)
    unfolding exec_cmd_wpa_save with_if answer done
    exec_cmd_wpa_save-Keeps j =
        search (keeps_rules, save-Keeps w cli srv_dir P ctrl buffer) depth 40 fits 4000

    pub exec_cmd_wpa_enable-Keeps :
        (j : Value) → Keeps P (exec_cmd_wpa_enable w cli srv_dir js insert_at j)
    unfolding exec_cmd_wpa_enable with_if with_netid answer done
    exec_cmd_wpa_enable-Keeps j =
        search (keeps_rules, enable_network-Keeps w cli srv_dir P ctrl buffer) depth 40 fits 4000

    pub exec_cmd_wpa_disable-Keeps :
        (j : Value) → Keeps P (exec_cmd_wpa_disable w cli srv_dir js insert_at j)
    unfolding exec_cmd_wpa_disable with_if with_netid answer done
    exec_cmd_wpa_disable-Keeps j = search (keeps_rules, disable-Keeps) depth 40 fits 4000

    pub exec_cmd_wpa_list_if-Keeps :
        (entries : List (Text × Bool))
        → Keeps P (exec_cmd_wpa_list_if w cli srv_dir js insert_at entries)
    unfolding exec_cmd_wpa_list_if answer
    exec_cmd_wpa_list_if-Keeps entries = search (keeps_rules, valid_ifs-Keeps) depth 40 fits 4000

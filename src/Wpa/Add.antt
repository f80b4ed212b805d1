-- ===== src/Wpa/Add.antt =====
-- execCmdWpaAdd (src/nmworkerwpa.cpp): a network is added to wpa_supplicant, its parameters are set
-- one by one, and it is removed again where one of them cannot be set.
use nmdaemon.Exec.{pure, lift, ◌>>=◌, ◌>>◌}
use nmdaemon.Json.{Json}
use nmdaemon.Keys.{
  json_param_if_name, json_param_ssid, json_param_bssid, json_param_profile, json_param_psk,
  json_param_err, json_param_exists, json_data_wpa_profile_open, json_data_wpa_profile_wep,
  json_data_wpa_profile_wpa_psk, json_data_wpa_profile_wpa2_psk,
}
use nmdaemon.Prelude.{
  String, Bool, true, false, not, ◌&&◌, ◌||◌, ℤ, Option, none, some, List, [], ◌∷◌, ◌++◌,
  if◌then◌else◌,
}
use nmdaemon.Text.{c_str, Text, codes, is_empty, text_eq}
use nmdaemon.Wpa.Buffer.{search_line_in_buf, stoi, network_json}
use nmdaemon.Wpa.Control.{get_buf, holds, wpa_ctrl_cmd}
use nmdaemon.Wpa.Networks.{
  get_string_param_from_command, json_result, set_network_param, remove_network,
}
use nmdaemon.Wpa.{Sockets, Call, command_list, command_add}

-- A call of setNetworkParam; `refuse` where the WEP profile has no key.
pub data Setting : Type 0 where
  setting : Text → Text → Bool → Setting
  refuse : Setting

unfoldable pub is_profile : Text → String → Bool
unfolding text_eq
is_profile profile name = text_eq profile (codes name)

abbrev when : Bool → List Setting → List Setting
when b l = if b then l else []

unfoldable pub key_settings : Text → Text → List Setting
unfolding is_profile
key_settings profile psk =
    if is_empty profile
      || is_profile profile json_data_wpa_profile_wpa_psk
      || is_profile profile json_data_wpa_profile_wpa2_psk
    then when (not (is_empty psk)) (setting (codes "psk") psk true ∷ [])
    else if is_profile profile json_data_wpa_profile_wep
    then (if not (is_empty psk)
        then setting (codes "wep_key0") psk true
          ∷ setting (codes "key_mgmt") (codes "NONE") false
          ∷ []
        else refuse ∷ [])
    else when (is_profile profile json_data_wpa_profile_open)
        (setting (codes "key_mgmt") (codes "NONE") false ∷ [])

-- The calls of setNetworkParam, in their order.
unfoldable pub settings : Text → Text → Text → Text → List Setting
unfolding key_settings is_profile
settings ssid bssid profile psk =
    let wpa = is_profile profile json_data_wpa_profile_wpa_psk in
    let wpa2 = is_profile profile json_data_wpa_profile_wpa2_psk in
    when (not (is_empty ssid)) (setting (codes "ssid") ssid true ∷ [])
    ++ (when (not (is_empty bssid)) (setting (codes "bssid") bssid false ∷ [])
        ++ (key_settings profile psk
            ++ (when (wpa || wpa2) (setting (codes "key_mgmt") (codes "WPA-PSK") false ∷ [])
                ++ (when wpa (setting (codes "proto") (codes "WPA") false ∷ [])
                    ++ when wpa2 (setting (codes "proto") (codes "RSN") false ∷ [])))))

module _ {K : Type 0} (w : Sockets K) (cli srv_dir : Text) where
  -- Sets one parameter after the other, and removes the network where one of them fails.
  unfoldable pub set_all : Text → ℤ → List Setting → Call K Bool
  set_all ifname id [] = pure true
  set_all ifname id (refuse ∷ ss) = do remove_network w cli srv_dir ifname id; pure false
  set_all ifname id (setting name value quotes ∷ ss) =
      let rest = set_all ifname id ss in
      set_network_param w cli srv_dir ifname id name value quotes >>= λ done.
      if done then rest else do remove_network w cli srv_dir ifname id; pure false

  module _ (js : Json) (insert_at : Text → js.Value → js.Value → js.Value) where
    open js use {Value}

    -- BSSID or SSID already in the list
    unfoldable pub is_known : Text → Text → Text → Bool
    unfolding holds
    is_known ssid bssid buf =
        (not (is_empty bssid) && holds buf (c_str bssid))
        || (not (is_empty ssid) && holds buf (c_str ssid) && is_empty bssid)

    unfoldable pub failed : Call K Value
    failed = pure (json_result js json_param_err)

    -- What follows where all parameters are set: the network as the list shows it.
    unfoldable pub show_added : Text → Text → Text → Call K Value
    show_added ifname ssid bssid = do
      sent ← wpa_ctrl_cmd w cli srv_dir command_list ifname
      if not sent then failed else do
        b ← get_buf w
        let found = search_line_in_buf (if is_empty bssid then ssid else bssid) false b
        if is_empty found then failed else lift (network_json js insert_at found b)

    unfoldable pub configure : Text → Text → Text → Text → Text → Option ℤ → Call K Value
    configure ifname ssid bssid profile psk none = failed
    configure ifname ssid bssid profile psk (some new_id) = do
      done ← set_all ifname new_id (settings ssid bssid profile psk)
      if not done then failed else show_added ifname ssid bssid

    unfoldable pub add_network : Text → Text → Text → Text → Text → Call K Value
    add_network ifname ssid bssid profile psk = do
      listed ← wpa_ctrl_cmd w cli srv_dir command_list ifname
      if not listed then failed else do
        b ← get_buf w
        if is_known ssid bssid b then pure (json_result js json_param_exists) else do
          added ← wpa_ctrl_cmd w cli srv_dir command_add ifname
          if not added
              then failed
              else do answer ← get_buf w; configure ifname ssid bssid profile psk (stoi answer)

    unfoldable pub exec_cmd_wpa_add : Value → Call K Value
    exec_cmd_wpa_add j =
        let ifname = get_string_param_from_command js j json_param_if_name in
        let ssid = get_string_param_from_command js j json_param_ssid in
        let bssid = get_string_param_from_command js j json_param_bssid in
        if is_empty ifname
        then failed
        else if is_empty ssid && is_empty bssid
        then failed
        else add_network ifname ssid bssid (get_string_param_from_command js j json_param_profile)
            (get_string_param_from_command js j json_param_psk)

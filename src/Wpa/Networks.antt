-- ===== src/Wpa/Networks.antt =====
-- The parameters of a request, and what NmWorkerWpa does to one network of wpa_supplicant:
-- getStringParamFromCommand and its relatives, setNetworkParam, removeNetwork, enableNetwork,
-- getNetId and resetWpaStatus (src/nmworkerwpa.cpp).
use text.Mathlib.Text.{◌==◌ as str_eq}
pub use nmdaemon.Fields.{json_result}
use nmdaemon.Exec.{pure, lift, ◌>>=◌}
use nmdaemon.Fields.{text_field, boolean_field, integer_field}
use nmdaemon.Json.{Json}
use nmdaemon.Keys.{json_param_if_name}
use nmdaemon.Prelude.{
  String, Bool, false, not, ◌&&◌, ◌||◌, ℤ, negsuc, Option, none, some, throw, [], ◌∷◌, ◌++◌, any,
  ◌==◌, if◌then◌else◌,
}
use nmdaemon.Text.{Text, is_empty, starts_with}
use nmdaemon.Tool.Names.{is_valid_if_name, is_valid_wpa_param_name}
use nmdaemon.Wpa.Buffer.{search_line_in_buf, int_text, stoi, get_piece}
use nmdaemon.Wpa.Control.{get_buf, wpa_ctrl_cmd}
use nmdaemon.Wpa.{
  Sockets, Call, command_list, command_set, command_remove, command_enable, command_flush,
  command_reconfigure, result_ok,
}

abbrev pub minus_one : ℤ
minus_one = negsuc 0

abbrev or_empty : Option Text → Text
or_empty none = []
or_empty (some s) = s

abbrev or_false : Option Bool → Bool
or_false none = false
or_false (some b) = b

abbrev or_minus_one : Option ℤ → ℤ
or_minus_one none = minus_one
or_minus_one (some n) = n

module _ (js : Json) where
  open js use {Value, null, insert, of_text}

  unfoldable pub get_string_param_from_command : Value → String → Text
  unfolding text_field
  get_string_param_from_command j param =
      let v = or_empty (text_field js param j) in
      if str_eq param json_param_if_name && (not (is_empty v) && not (is_valid_if_name v))
      then []
      else v

  unfoldable pub get_bool_param_from_command : Value → String → Bool
  unfolding boolean_field
  get_bool_param_from_command j param = or_false (boolean_field js param j)

  unfoldable pub get_int_param_from_command : Value → String → ℤ
  unfolding integer_field
  get_int_param_from_command j param = or_minus_one (integer_field js param j)

-- find_first_of("\r\n")
unfoldable pub has_line_end : Text → Bool
has_line_end s = any (λ c. c == b'\r' || c == b'\n') s

unfoldable pub has_quote : Text → Bool
has_quote s = any (λ c. c == b'"') s

-- What setNetworkParam refuses.
unfoldable pub is_refused : Text → Text → Bool → Bool
unfolding has_line_end has_quote
is_refused param_name param quotes =
    not (is_valid_wpa_param_name param_name) || has_line_end param || (quotes && has_quote param)

-- command id
unfoldable pub with_id : Text → ℤ → Text
unfolding int_text
with_id cmd id = cmd ++ b' ' ∷ int_text id

unfoldable pub set_command : ℤ → Text → Text → Bool → Text
unfolding with_id
set_command id param_name param quotes =
    with_id command_set id
    ++ b' ' ∷ (param_name ++ b' ' ∷ (if quotes then b'"' ∷ (param ++ b'"' ∷ []) else param))

-- The id at the front of a line of the list.
unfoldable pub line_id : Text → ℤ
unfolding get_piece stoi
line_id s = or_minus_one (stoi (get_piece b'\t' s).0)

-- The line of the list that getNetId takes.
unfoldable pub listed_line : Text → Text → Text → Text
unfolding search_line_in_buf
listed_line ssid bssid buf =
    if not (is_empty bssid)
    then search_line_in_buf (bssid ++ b'\t' ∷ []) false buf
    else if not (is_empty ssid)
    then search_line_in_buf (ssid ++ b'\t' ∷ []) false buf
    else []

module _ {K : Type 0} (w : Sockets K) (cli srv_dir : Text) where
  -- wpaCtrlCmd and strncmp(buf, "OK", 2) == 0
  unfoldable pub confirmed : Text → Text → Call K Bool
  confirmed cmd ifname = do
    sent ← wpa_ctrl_cmd w cli srv_dir cmd ifname
    b ← get_buf w
    pure (sent && starts_with b result_ok)

  unfoldable pub set_network_param : Text → ℤ → Text → Text → Bool → Call K Bool
  set_network_param ifname id param_name param quotes =
      if is_refused param_name param quotes
      then pure false
      else confirmed (set_command id param_name param quotes) ifname

  unfoldable pub remove_network : Text → ℤ → Call K Bool
  remove_network ifname id = confirmed (with_id command_remove id) ifname

  unfoldable pub enable_network : Text → ℤ → Call K Bool
  enable_network ifname id = wpa_ctrl_cmd w cli srv_dir (with_id command_enable id) ifname

  -- FLUSH and RECONFIGURE
  unfoldable pub reset_wpa_status : Text → Call K Bool
  reset_wpa_status ifname = do
    flushed ← wpa_ctrl_cmd w cli srv_dir command_flush ifname
    if not flushed then pure false else wpa_ctrl_cmd w cli srv_dir command_reconfigure ifname

  -- Where the list is not answered, a JSON object is returned as an int, which throws.
  unfoldable pub get_net_id : Text → Text → Text → Call K ℤ
  get_net_id ifname ssid bssid = do
    sent ← wpa_ctrl_cmd w cli srv_dir command_list ifname
    if not sent then lift throw else do b ← get_buf w; pure (line_id (listed_line ssid bssid b))

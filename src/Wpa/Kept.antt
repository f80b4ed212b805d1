-- ===== src/Wpa/Kept.antt =====
-- What the handlers of NmWorkerWpa keep of the state (src/nmworkerwpa.cpp), where each exchange with
-- wpa_supplicant keeps it whose command has no line end in it.
pub mod Handlers
use nmdaemon.Exec.Keeps.{Keeps, keeps_rules, Keeps-pure, Keeps-test, Keeps-bind}
use nmdaemon.Exec.{Exec, pure, lift, ◌>>=◌, ◌>>◌}
use nmdaemon.Json.{Json}
use nmdaemon.Prelude.{
  ℕ, ◌≡◌, refl, arith, Bool, true, false, ℤ, pos, negsuc, Option, none, some, List, [], ◌∷◌, ◌++◌,
  suc, not, ◌||◌, all, ◌==◌, if◌then◌else◌,
}
use nmdaemon.RcConf.{decimal}
use nmdaemon.RcConf.Decimal.{all-decimal}
use nmdaemon.Text.{Text}
use nmdaemon.Tool.Names.{is_valid_wpa_param_name, is_inert, Accepted-inert, all_mono, as_wpa_param}
use nmdaemon.Wpa.Buffer.{int_text}
use nmdaemon.Wpa.Control.{get_buf, wpa_ctrl_cmd}
use nmdaemon.Wpa.Networks.{
  has_line_end, has_quote, is_refused, with_id, set_command, confirmed, set_network_param,
  remove_network, enable_network, reset_wpa_status, get_net_id,
}
use nmdaemon.Wpa.{
  Sockets, State, Call, command_set, command_remove, command_enable, command_list,
  command_scan_results, command_ping, command_status, command_add, command_disconnect,
  command_flush, command_reconfigure, command_save,
}

pub has_line_end-append :
    (s t : Text) → has_line_end s ≡ false → has_line_end t ≡ false → has_line_end (s ++ t) ≡ false
unfolding has_line_end
has_line_end-append [] t h k = k
has_line_end-append (c ∷ s) t h k = ground (arith, has_line_end-append s t)

-- No digit is a line end, and neither is a minus.
has_line_end-all :
    (s : Text) → all (λ c. not (c == b'\r' || c == b'\n')) s ≡ true → has_line_end s ≡ false
unfolding has_line_end
has_line_end-all [] h = refl
has_line_end-all (c ∷ s) h = ground (arith, has_line_end-all s)

has_line_end-int_text : (id : ℤ) → has_line_end (int_text id) ≡ false
unfolding int_text
has_line_end-int_text (pos n) =
    has_line_end-all (decimal n)
      (all-decimal (λ c. not (c == b'\r' || c == b'\n')) (λ v l. ground arith) n)
has_line_end-int_text (negsuc n) =
    has_line_end-all (b'-' ∷ decimal (suc n))
      (all-decimal (λ c. not (c == b'\r' || c == b'\n')) (λ v l. ground arith) (suc n))

pub has_line_end-with_id :
    (cmd : Text) (id : ℤ) → has_line_end cmd ≡ false → has_line_end (with_id cmd id) ≡ false
unfolding with_id
has_line_end-with_id cmd id h =
    has_line_end-append cmd (b' ' ∷ int_text id) h (unfold has_line_end in has_line_end-int_text id)

has_line_end-name : (name : Text) → is_valid_wpa_param_name name ≡ true → has_line_end name ≡ false
has_line_end-name name h =
    has_line_end-all name
      (all_mono is_inert _ (λ c k. ground arith) name (Accepted-inert name (as_wpa_param h)).2)

refusal :
    (name param : Text) (quotes : Bool)
    → is_refused name param quotes ≡ false
    → (is_valid_wpa_param_name name ≡ true) × (has_line_end param ≡ false)
unfolding is_refused
refusal name param quotes h = ground arith

quoted-line :
    (param : Text) (quotes : Bool)
    → has_line_end param ≡ false
    → has_line_end (if quotes then b'"' ∷ (param ++ b'"' ∷ []) else param) ≡ false
quoted-line param false h = h
quoted-line param true h =
    unfold has_line_end in has_line_end-append param (b'"' ∷ []) h (unfold has_line_end in refl)

-- What setNetworkParam sends is one line.
has_line_end-set_command :
    (id : ℤ) (name param : Text) (quotes : Bool)
    → is_refused name param quotes ≡ false
    → has_line_end (set_command id name param quotes) ≡ false
unfolding set_command
has_line_end-set_command id name param quotes h =
    let r = refusal name param quotes h in
    has_line_end-append (with_id command_set id) _
      (has_line_end-with_id command_set id (unfold has_line_end in refl))
      (unfold has_line_end in
        has_line_end-append name _ (has_line_end-name name r.0)
          (unfold has_line_end in quoted-line param quotes r.1))

module _ {K : Type 0} (w : Sockets K) (cli srv_dir : Text) (P : State K → Type 0)
    (ctrl : (cmd ifname : Text)
      → has_line_end cmd ≡ false
      → Keeps P (wpa_ctrl_cmd w cli srv_dir cmd ifname))
    (buffer : Keeps P (get_buf w)) where
  pub list-Keeps : (ifname : Text) → Keeps P (wpa_ctrl_cmd w cli srv_dir command_list ifname)
  unfolding has_line_end
  list-Keeps ifname = ctrl command_list ifname refl

  pub scan_results-Keeps :
      (ifname : Text) → Keeps P (wpa_ctrl_cmd w cli srv_dir command_scan_results ifname)
  unfolding has_line_end
  scan_results-Keeps ifname = ctrl command_scan_results ifname refl

  pub ping-Keeps : (ifname : Text) → Keeps P (wpa_ctrl_cmd w cli srv_dir command_ping ifname)
  unfolding has_line_end
  ping-Keeps ifname = ctrl command_ping ifname refl

  pub status-Keeps : (ifname : Text) → Keeps P (wpa_ctrl_cmd w cli srv_dir command_status ifname)
  unfolding has_line_end
  status-Keeps ifname = ctrl command_status ifname refl

  pub add-Keeps : (ifname : Text) → Keeps P (wpa_ctrl_cmd w cli srv_dir command_add ifname)
  unfolding has_line_end
  add-Keeps ifname = ctrl command_add ifname refl

  pub disconnect-Keeps :
      (ifname : Text) → Keeps P (wpa_ctrl_cmd w cli srv_dir command_disconnect ifname)
  unfolding has_line_end
  disconnect-Keeps ifname = ctrl command_disconnect ifname refl

  pub flush-Keeps : (ifname : Text) → Keeps P (wpa_ctrl_cmd w cli srv_dir command_flush ifname)
  unfolding has_line_end
  flush-Keeps ifname = ctrl command_flush ifname refl

  pub reconfigure-Keeps :
      (ifname : Text) → Keeps P (wpa_ctrl_cmd w cli srv_dir command_reconfigure ifname)
  unfolding has_line_end
  reconfigure-Keeps ifname = ctrl command_reconfigure ifname refl

  pub save-Keeps : (ifname : Text) → Keeps P (wpa_ctrl_cmd w cli srv_dir command_save ifname)
  unfolding has_line_end
  save-Keeps ifname = ctrl command_save ifname refl

  pub confirmed-Keeps :
      (cmd ifname : Text) → has_line_end cmd ≡ false → Keeps P (confirmed w cli srv_dir cmd ifname)
  unfolding confirmed
  confirmed-Keeps cmd ifname h = Keeps-bind _ _ (ctrl cmd ifname h) λ sent. search keeps_rules

  pub get_net_id-Keeps :
      (ifname ssid bssid : Text) → Keeps P (get_net_id w cli srv_dir ifname ssid bssid)
  unfolding get_net_id
  get_net_id-Keeps ifname ssid bssid = search (keeps_rules, list-Keeps) depth 30

  pub set_network_param-Keeps :
      (ifname : Text) (id : ℤ) (name param : Text) (quotes : Bool)
      → Keeps P (set_network_param w cli srv_dir ifname id name param quotes)
  unfolding set_network_param
  set_network_param-Keeps ifname id name param quotes =
      Keeps-test (is_refused name param quotes) _ _ (λ e. Keeps-pure false)
        λ e.
          confirmed-Keeps (set_command id name param quotes) ifname
            (has_line_end-set_command id name param quotes e)

  pub remove_network-Keeps :
      (ifname : Text) (id : ℤ) → Keeps P (remove_network w cli srv_dir ifname id)
  unfolding remove_network
  remove_network-Keeps ifname id =
      confirmed-Keeps _ ifname
        (has_line_end-with_id command_remove id (unfold has_line_end in refl))

  pub enable_network-Keeps :
      (ifname : Text) (id : ℤ) → Keeps P (enable_network w cli srv_dir ifname id)
  unfolding enable_network
  enable_network-Keeps ifname id =
      ctrl _ ifname (has_line_end-with_id command_enable id (unfold has_line_end in refl))

  pub reset_wpa_status-Keeps : (ifname : Text) → Keeps P (reset_wpa_status w cli srv_dir ifname)
  unfolding reset_wpa_status
  reset_wpa_status-Keeps ifname = search (keeps_rules, flush-Keeps, reconfigure-Keeps) depth 30

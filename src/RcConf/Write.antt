-- ===== src/RcConf/Write.antt =====
-- RcConf::setRcIpConfig (src/rcconf.cpp). A read that throws is `none`; what the code has changed
-- by then stays. j.empty() holds where iteration over j visits nothing.
pub mod Inert
pub mod Managed
use nmdaemon.Ini.{Ini}
use nmdaemon.Json.{Json}
use nmdaemon.Keys.{
  json_param_interfaces, json_param_routes, json_param_if_name, json_param_addresses,
  json_param_addr_primary, json_param_ipv4_addr, json_param_ipv4_mask, json_param_ipv4_gw,
  json_param_rt_name, json_param_status, json_data_enabled,
}
use nmdaemon.Platform.{Platform}
use nmdaemon.Prelude.{
  ℕ, zero, suc, String, Bool, true, false, not, ◌&&◌, ◌||◌, Option, none, some, is_some, Result, ok,
  throw, fault, ◌>>=◌, List, [], ◌∷◌, ◌++◌, if◌then◌else◌,
}
use nmdaemon.RcConf.{
  ifconfig_key_prefix, default_route_key, routes_key, route_key_prefix, inet_addr, inet_mask,
  dhcp_suffix, aliases_suffix, alias_suffix, ipv4_mask_host, route_prefix_host, route_prefix_net,
  max_aliases, decimal, quoted, split_last, strtol_positive,
}
use nmdaemon.Text.{Text, codes, is_empty, text_eq, find}
use nmdaemon.Tool.Names.{is_valid_if_name, is_valid_name, is_valid_rc_word, is_valid_ip_addr}

abbrev pub is_nil {ℓ} : {A : Type ℓ} → List A → Bool
is_nil [] = true
is_nil (x ∷ xs) = false

-- The name of a VLAN interface in a key: the last point becomes `_` in front of a number.
unfoldable pub fix_vlan : Text → Text
unfolding split_last strtol_positive
fix_vlan name = elim (split_last b'.' name) [
  | some (a, b) ↦ (if strtol_positive b then a ++ b'_' ∷ b else name)
  | none ↦ name
]

-- INET_ADDR + " " + ip_addr + " " + INET_MASK + " " + ip_mask
unfoldable pub inet_value : Text → Text → Text
inet_value ip mask = inet_addr ++ b' ' ∷ (ip ++ b' ' ∷ (inet_mask ++ b' ' ∷ mask))

-- A list of words with spaces between them: what `if(!s.empty()) s += " "; s += w` builds.
unfoldable pub add_word : Text → Text → Text
add_word s w = if is_empty s then w else s ++ b' ' ∷ w

unfoldable pub aliases_key : Text → Text
aliases_key name = ifconfig_key_prefix ++ name ++ b'_' ∷ aliases_suffix

unfoldable pub alias_key : Text → ℕ → Text
unfolding decimal
alias_key name i = ifconfig_key_prefix ++ name ++ b'_' ∷ (alias_suffix ++ decimal i)

-- The value of a route: to a host, or to a network.
unfoldable pub route_value : Text → Text → Text → Text
unfolding text_eq
route_value ip mask gw =
    if text_eq mask ipv4_mask_host
    then route_prefix_host ++ b' ' ∷ (ip ++ b' ' ∷ gw)
    else route_prefix_net ++ b' ' ∷ (ip ++ b' ' ∷ b'-' ∷ (inet_mask ++ b' ' ∷ (mask ++ b' ' ∷ gw)))

module _ (js : Json) where
  open js use {Value, null, text, boolean, elements, is_keyed}

  opt_text : Option Value → Option Text
  opt_text none = none
  opt_text (some v) = text v

  opt_bool : Option Value → Option Bool
  opt_bool none = none
  opt_bool (some v) = boolean v

  -- std::string s = j.at(k)
  unfoldable pub text_at : String → Value → Option Text
  unfolding opt_text
  text_at k j = opt_text (js.find k j)

  -- bool b = j.at(k)
  unfoldable pub bool_at : String → Value → Option Bool
  unfolding opt_bool
  bool_at k j = opt_bool (js.find k j)

  or_null : Option Value → Value
  or_null none = null
  or_null (some v) = v

  -- The values of rcdata[k]; rcdata[k] throws where rcdata is neither null nor an object.
  unfoldable pub list_of : String → Value → List Value
  unfolding or_null
  list_of k j = if is_keyed j then elements (or_null (js.find k j)) else []

  -- What the first part of the loop reads: the name in the key, and the addresses.
  unfoldable pub named_interface : Option Text → Option Value → Option (Text × List Value)
  unfolding is_valid_if_name fix_vlan
  named_interface none a = none
  named_interface (some name) a =
      if is_empty name then none else if not (is_valid_if_name name) then none else (elim a [
        | some v ↦ (if is_nil (elements v) then none else some (fix_vlan name, elements v))
        | none ↦ none
      ])

  unfoldable pub read_interface : Value → Option (Text × List Value)
  unfolding named_interface text_at
  read_interface jif =
      named_interface (text_at json_param_if_name jif) (js.find json_param_addresses jif)

  -- The same of a route: its name, its status and its addresses.
  unfoldable pub named_route :
      Option Text → Option Text → Option Value → Option (Text × Text × Value)
  unfolding is_valid_name
  named_route none status a = none
  named_route (some name) status a =
      if is_empty name then none else if not (is_valid_name name) then none else (elim status [
        | none ↦ none
        | some st ↦
            (if is_empty st then none else elim a [
              | some v ↦ (if is_nil (elements v) then none else some (name, st, v))
              | none ↦ none
            ])
      ])

  unfoldable pub read_route : Value → Option (Text × Text × Value)
  unfolding named_route text_at
  read_route jrt =
      named_route (text_at json_param_rt_name jrt) (text_at json_param_status jrt)
        (js.find json_param_addresses jrt)

  module _ (os : Platform) where
    unfoldable pub is_ip : Text → Bool
    unfolding is_valid_ip_addr
    is_ip s = is_valid_ip_addr os s

    -- The addresses of a route, if all are valid.
    unfoldable pub valid_route :
        Option Text → Option Text → Option Text → Option (Text × Text × Text)
    unfolding is_ip
    valid_route (some ip) (some mask) (some gw) =
        if not (is_ip ip) || not (is_ip mask) || not (is_ip gw) then none else some (ip, mask, gw)
    valid_route _ _ _ = none

    unfoldable pub route_addresses : Value → Option (Text × Text × Text)
    unfolding valid_route text_at
    route_addresses v =
        valid_route (text_at json_param_ipv4_addr v) (text_at json_param_ipv4_mask v)
          (text_at json_param_ipv4_gw v)

    unfoldable pub is_primary : Option Bool → Bool
    is_primary none = false
    is_primary (some b) = b

    unfoldable pub valid_alias : Option Text → Option Text → Option Text
    unfolding is_ip inet_value
    valid_alias (some ip) (some mask) =
        if not (is_ip ip) || not (is_ip mask) then none else some (inet_value ip mask)
    valid_alias _ _ = none

    -- What an address that is not primary adds to the aliases.
    unfoldable pub alias_of : Value → Option Text
    unfolding is_primary valid_alias bool_at text_at
    alias_of jad =
        if is_primary (bool_at json_param_addr_primary jad)
        then none
        else valid_alias (text_at json_param_ipv4_addr jad) (text_at json_param_ipv4_mask jad)

    unfoldable pub add_alias : Text → Option Text → Text
    unfolding add_word
    add_alias s none = s
    add_alias s (some w) = add_word s w

    -- The second cycle: the value of the aliases.
    unfoldable pub alias_words : Text → List Value → Text
    unfolding add_alias alias_of
    alias_words s [] = s
    alias_words s (jad ∷ l) = alias_words (add_alias s (alias_of jad)) l

    module _ (ini : Ini) where
      open ini use {File, get, set, remove}

      -- str_old_conf_value is compared before the key is set.
      unfoldable pub set_if_changed : Text → Text → File → File
      unfolding text_eq
      set_if_changed k v f = if text_eq v (get k f) then f else set k v f

      -- is_dhcp, which keeps its value from one interface to the next, and the file.
      pub record Progress : Type 0 where
        pub is_dhcp : Bool
        pub file : File

      unfoldable pub edit : (File → File) → Progress → Progress
      edit g st = record st { file = g st.file }

      unfoldable pub put_static_gateway : Option Text → File → File
      unfolding is_ip set_if_changed quoted
      put_static_gateway none f = f
      put_static_gateway (some gw) f =
          if is_ip gw then set_if_changed default_route_key (quoted gw) f else f

      unfoldable pub put_gateway : Value → Progress → Progress
      unfolding put_static_gateway edit text_at
      put_gateway jad st =
          if not st.is_dhcp
          then edit (put_static_gateway (text_at json_param_ipv4_gw jad)) st
          else edit (remove default_route_key) st

      unfoldable pub put_dhcp : Text → Value → Text → Progress → Progress
      unfolding is_valid_rc_word put_gateway set_if_changed quoted edit
      put_dhcp name jad ip st =
          if is_valid_rc_word ip
          then put_gateway jad (edit (set_if_changed (ifconfig_key_prefix ++ name) (quoted ip)) st)
          else st

      unfoldable pub put_static : Text → Value → Text → Option Text → Progress → Progress
      unfolding is_ip put_gateway set_if_changed quoted inet_value edit
      put_static name jad ip none st = st
      put_static name jad ip (some mask) st =
          if is_ip ip && is_ip mask
          then put_gateway jad (
              edit (set_if_changed (ifconfig_key_prefix ++ name) (quoted (inet_value ip mask)))
                (record st { is_dhcp = false }))
          else record st { is_dhcp = false }

      unfoldable pub put_address : Text → Value → Option Text → Progress → Progress
      unfolding put_dhcp put_static text_at find
      put_address name jad none st = st
      put_address name jad (some ip) st =
          if is_some (find ip dhcp_suffix)
          then put_dhcp name jad ip (record st { is_dhcp = true })
          else put_static name jad ip (text_at json_param_ipv4_mask jad) st

      -- The body of the first cycle.
      unfoldable pub put_primary : Text → Value → Progress → Progress
      unfolding is_primary put_address bool_at text_at
      put_primary name jad st =
          if is_primary (bool_at json_param_addr_primary jad)
          then put_address name jad (text_at json_param_ipv4_addr jad) st
          else st

      unfoldable pub first_cycle : Text → List Value → Progress → Progress
      unfolding put_primary
      first_cycle name [] st = st
      first_cycle name (jad ∷ l) st = first_cycle name l (put_primary name jad st)

      unfoldable pub put_words : Text → Text → File → File
      unfolding set_if_changed quoted
      put_words k s f = if is_empty s then f else set_if_changed k (quoted s) f

      unfoldable pub put_aliases : Text → List Value → Progress → Progress
      unfolding put_words alias_words aliases_key edit
      put_aliases name l st =
          if not st.is_dhcp
          then edit (put_words (aliases_key name) (alias_words [] l)) st
          else edit (remove (aliases_key name)) st

      -- for(int i=0; i<MAX_ALIASES; i++), with `n` rounds left.
      unfoldable pub remove_old : Text → ℕ → ℕ → File → File
      unfolding alias_key
      remove_old name i zero f = f
      remove_old name i (suc n) f = remove_old name (suc i) n (remove (alias_key name i) f)

      unfoldable pub put_read_interface : Option (Text × List Value) → Progress → Progress
      unfolding first_cycle put_aliases remove_old edit
      put_read_interface none st = st
      put_read_interface (some (name, l)) st =
          edit (remove_old name 0 max_aliases) (put_aliases name l (first_cycle name l st))

      unfoldable pub put_interfaces : List Value → Progress → Progress
      unfolding put_read_interface read_interface
      put_interfaces [] st = st
      put_interfaces (jif ∷ l) st = put_interfaces l (put_read_interface (read_interface jif) st)

      -- str_active_routes, and the file.
      pub record Routing : Type 0 where
        pub active : Text
        pub file : File

      unfoldable pub put_addresses : Text → Text → Option (Text × Text × Text) → Routing → Routing
      unfolding add_word set_if_changed quoted route_value text_eq
      put_addresses name status none st = st
      put_addresses name status (some (ip, mask, gw)) st = record {
        active =
            if text_eq status (codes json_data_enabled) then add_word st.active name else st.active;
        file = set_if_changed (route_key_prefix ++ name) (quoted (route_value ip mask gw)) st.file;
      }

      unfoldable pub put_route : Option (Text × Text × Value) → Routing → Routing
      unfolding put_addresses route_addresses
      put_route none st = st
      put_route (some (name, status, v)) st = put_addresses name status (route_addresses v) st

      unfoldable pub put_routes : List Value → Routing → Routing
      unfolding put_route read_route
      put_routes [] st = st
      put_routes (jrt ∷ l) st = put_routes l (put_route (read_route jrt) st)

      unfoldable pub put_active : Routing → File
      unfolding put_words
      put_active st = put_words routes_key st.active st.file

      -- The file that is saved.
      unfoldable pub edited : List Value → List Value → File → File
      unfolding put_interfaces put_routes put_active
      edited ifs rts f = put_active (
          put_routes rts (record {
            active = [];
            file = (put_interfaces ifs (record { is_dhcp = false; file = f })).file;
          }))

      module _ {K : Type 0} (save : File → K → Bool × K) where
        -- The file as Load has read it, if it has. The json that the code returns where it has
        -- not is no Boolean, and its conversion throws.
        unfoldable pub set_rc_ip_config : Option File → Value → K → Result (Bool × K)
        unfolding list_of edited
        set_rc_ip_config none rcdata k = throw
        set_rc_ip_config (some f) rcdata k =
            if is_nil (list_of json_param_interfaces rcdata)
              && is_nil (list_of json_param_routes rcdata)
            then ok (false, k)
            else ok (
                save
                  (edited (list_of json_param_interfaces rcdata) (list_of json_param_routes rcdata)
                    f)
                  k)

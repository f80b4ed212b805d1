-- ===== src/Jails.antt =====
-- JailParam (src/jailparam.h, src/jailparam.cpp), Tool::getJails (src/tool.cpp) and execCmdJailList
-- (src/nmworkersys.cpp). The jail library is a parameter: what jailparam_get stores in the
-- parameters for the jail behind a given one, or that there is none.
pub mod Addresses
use nmdaemon.Json.{Json}
use nmdaemon.Keys.{
  json_param_id, json_param_name, json_param_hostname, json_param_path, json_param_addresses,
  json_param_ipv4_addr, json_param_ipv6_addr, json_param_jails, json_param_data, json_param_result,
  json_param_succ,
}
use nmdaemon.Platform.{Platform}
use nmdaemon.Prelude.{
  ℕ, zero, suc, ◌+◌, ◌*◌, ◌/◌, String, Bool, true, false, not, ◌&&◌, Option, none, some, List, [],
  ◌∷◌, ◌++◌, map, take, drop, length, if◌then◌else◌,
}
use nmdaemon.Text.{Text, codes, is_empty}

-- The values of Params: jid, name, host.hostname and path, and the values behind them by their
-- position behind param_size; out of range, no bytes.
pub record Params : Type 0 where
  pub jid : ℕ
  pub name : Text
  pub hostname : Text
  pub path : Text
  pub addresses : List Text

pub record Jail : Type 0 where
  pub id : ℕ
  pub name : Text
  pub hostname : Text
  pub path : Text
  pub ipv4_addresses : List Text
  pub ipv6_addresses : List Text

-- jp_value of Params[param_size + i]
unfoldable pub value_at : ℕ → List Text → Text
value_at i [] = []
value_at zero (v ∷ vs) = v
value_at (suc i) (v ∷ vs) = value_at i vs

-- Bytes as one number in network byte order.
unfoldable pub word : Text → ℕ
word [] = 0
word (c ∷ s) = c + 256 * word s

-- `count` words of `len` bytes each.
unfoldable pub words : ℕ → ℕ → Text → List ℕ
unfolding word
words len zero s = []
words len (suc n) s = word (take len s) ∷ words len n (drop len s)

-- The addresses that inet_ntop can write.
unfoldable pub written : (ℕ → Option Text) → List ℕ → List Text
written ntop [] = []
written ntop (a ∷ as') =
    let rest = written ntop as' in elim (ntop a) [ none ↦ rest | some s ↦ s ∷ rest ]

module _ (os : Platform) where
  -- PutIpAddrToList with AF_INET and AF_INET6
  unfoldable pub put_ip4 : Text → List Text
  unfolding words written
  put_ip4 v = written os.inet_ntop4 (words 4 (length v / 4) v)

  unfoldable pub put_ip6 : Text → List Text
  unfolding words written
  put_ip6 v = written os.inet_ntop6 (words 16 (length v / 16) v)

  module _ (ip4_ok ip6_ok : Bool) where
    pub has_value : Bool → Text → Bool
    has_value ok v = ok && not (is_empty v)

    -- GetJailParams, where jailparam_get has found a jail.
    unfoldable pub get_jail_params : Params → Jail
    unfolding has_value value_at put_ip4 put_ip6
    get_jail_params p =
        let first = value_at 0 p.addresses in
        let second = value_at 1 p.addresses in
        if has_value ip4_ok first
        then record {
          id = p.jid;
          name = p.name;
          hostname = p.hostname;
          path = p.path;
          ipv4_addresses = put_ip4 first;
          ipv6_addresses = if has_value ip6_ok second then put_ip6 second else [];
        }
        else record {
          id = p.jid;
          name = p.name;
          hostname = p.hostname;
          path = p.path;
          ipv4_addresses = [];
          ipv6_addresses = if has_value ip6_ok first then put_ip6 first else [];
        }

    -- while(true) of getJails, for a library that knows at most `n` jails behind `lastjid`.
    unfoldable pub get_jails : (ℕ → Option Params) → ℕ → ℕ → List Jail
    unfolding get_jail_params
    get_jails jailparam_get zero lastjid = []
    get_jails jailparam_get (suc n) lastjid = elim (jailparam_get lastjid) [
      | none ↦ []
      | some p ↦ get_jail_params p ∷ get_jails jailparam_get n p.jid
    ]

module _ (js : Json) (of_int : ℕ → js.Value) where
  open js use {Value, null, insert, of_text, of_list}

  -- One value addr_json for both loops: what is written stays in it. The entries, and addr_json
  -- behind them.
  unfoldable pub push_all : String → List Text → Value → List Value × Value
  push_all key [] addr = ([], addr)
  push_all key (s ∷ ss) addr =
      let rest = push_all key ss (insert key (of_text s) addr) in
      (insert key (of_text s) addr ∷ rest.0, rest.1)

  unfoldable pub address_entries : Jail → List Value
  unfolding push_all
  address_entries j =
      let four = push_all json_param_ipv4_addr j.ipv4_addresses null in
      four.0 ++ (push_all json_param_ipv6_addr j.ipv6_addresses four.1).0

  unfoldable pub get_jail_json : Jail → Value
  unfolding address_entries
  get_jail_json j = insert json_param_addresses (of_list (address_entries j)) (
      insert json_param_path (of_text j.path) (
        insert json_param_hostname (of_text j.hostname)
          (insert json_param_name (of_text j.name) (insert json_param_id (of_int j.id) null))))

  unfoldable pub exec_cmd_jail_list : List Jail → Value
  unfolding get_jail_json
  exec_cmd_jail_list jails =
      insert json_param_data (insert json_param_jails (of_list (map get_jail_json jails)) null)
        (insert json_param_result (of_text (codes json_param_succ)) null)

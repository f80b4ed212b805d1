-- ===== src/Sys/IfList.antt =====
-- execCmdIfList (src/nmworkersys.cpp). getifaddrs gives a list of entries, and what the code asks
-- the system about an interface is a parameter.
pub mod Entries
use nmdaemon.Group.FromIfaddrs.{Ifaddrs}
use nmdaemon.Interface.{
  Interface, make, MediaStatus, Surroundings, add_address, find_primary_and_jail_address,
  get_if_json,
}
use nmdaemon.Json.{Json}
use nmdaemon.Keys.{json_param_data, json_param_interfaces, json_param_result, json_param_succ}
use nmdaemon.Platform.{Platform}
use nmdaemon.Prelude.{Bool, Result, ok, ◌>>=◌, List, [], ◌∷◌, if◌then◌else◌}
use nmdaemon.RcConf.Read.{text_lt}
use nmdaemon.Text.{Text, codes, text_eq}

-- std::map<std::string, Interface>, in the order of its keys.
abbrev pub IfMap : Type 0
IfMap = List (Text × Interface)

-- ifMap[n], which makes an interface of a new name.
unfoldable pub at : Text → IfMap → Interface
unfolding text_eq
at n [] = make []
at n ((k, i) ∷ m) = let rest = at n m in if text_eq k n then i else rest

-- ifMap[n] = i
unfoldable pub put : Text → Interface → IfMap → IfMap
unfolding text_eq
put n i [] = (n, i) ∷ []
put n i ((k, j) ∷ m) =
    let rest = put n i m in
    if text_eq k n then (k, i) ∷ m else if text_lt n k then (n, i) ∷ (k, j) ∷ m else (k, j) ∷ rest

module _ (os : Platform) where
  -- setName and addAddress
  unfoldable pub add_entry : Ifaddrs → Interface → Result Interface
  add_entry ifa i = add_address os ifa (record i { name = ifa.name })

  -- while (ifaddrs_ptr)
  unfoldable pub collect : List Ifaddrs → IfMap → Result IfMap
  unfolding add_entry at put
  collect [] m = ok m
  collect (ifa ∷ l) m = add_entry ifa (at ifa.name m) >>= λ i. collect l (put ifa.name i m)

  -- isDHCPEnabled, getMediaStatus, getMediaDesc, and what findPrimaryAndJailAddress asks for.
  module _ (is_dhcp_enabled : Text → Bool) (get_media_status : Text → MediaStatus)
      (get_media_desc : Text → Text) (surroundings : Text → Surroundings) (js : Json) where
    open js use {Value, null, insert, of_text, of_list}

    unfoldable pub describe : Text × Interface → Result Value
    describe (n, i) =
        find_primary_and_jail_address (surroundings n) (record i {
          is_dhcp_enabled = is_dhcp_enabled n;
          status = get_media_status n;
          media_desc = get_media_desc n;
        })
        >>= λ found. ok (get_if_json js found)

    unfoldable pub describe_all : IfMap → Result (List Value)
    unfolding describe
    describe_all [] = ok []
    describe_all (e ∷ m) = do v ← describe e; vs ← describe_all m; ok (v ∷ vs)

    -- With the entries of a getifaddrs that succeeds.
    unfoldable pub exec_cmd_if_list : List Ifaddrs → Result Value
    unfolding collect describe_all
    exec_cmd_if_list entries = collect entries [] >>= λ m. describe_all m >>= λ vs. ok (
        insert json_param_data (insert json_param_interfaces (of_list vs) null)
          (insert json_param_result (of_text (codes json_param_succ)) null))

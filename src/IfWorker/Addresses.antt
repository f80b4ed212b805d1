-- ===== src/IfWorker/Addresses.antt =====
-- The addresses and the MTU of an interface in NmWorkerIf (src/nmworkerif.cpp): getMainIfAddr,
-- removeIfAddr, addIfAddr and the commands that use them.
use nmdaemon.Address.{Address, get_family, get_sock_addr, ip4_of_sockaddr}
use nmdaemon.Exec.{Exec, pure, lift, ◌>>=◌, ◌>>◌}
use nmdaemon.Fields.{integer_field}
use nmdaemon.Group.{Group}
use nmdaemon.IfWorker.Client.{stop_client, enable_dhcp}
use nmdaemon.IfWorker.{Ifaces, sigterm, sigkill, read, call, answer, with_name}
use nmdaemon.Json.{Json}
use nmdaemon.Keys.{
  json_param_result, json_param_data, json_param_succ, json_param_mtu, json_param_ipv4_addr,
}
use nmdaemon.Platform.{Family, inet, inet6, SockAddr, Platform}
use nmdaemon.Prelude.{
  ℕ, Bool, false, not, ◌&&◌, ◌^◌, ◌%◌, ltb, leb, ◌==◌, ℤ, pos, Option, none, some, Result, ok,
  fault, [], if◌then◌else◌,
}
use nmdaemon.Text.{Text, codes, is_empty}
use nmdaemon.Tool.FromJson.{get_addr_from_json, null_on_throw}

-- MTU_MAX
abbrev pub mtu_max : ℕ
mtu_max = 9192

-- The first sizeof(struct sockaddr) bytes, which memcpy takes: of the address of a sockaddr_in6
-- its first 8 bytes.
unfoldable pub sockaddr_bytes : SockAddr → SockAddr
sockaddr_bytes sa = record sa { sin6_addr = sa.sin6_addr % 2 ^ 64 }

-- getAddrAB()->getFamily()
unfoldable pub family_of : {K : Type 0} → Option Address → Exec K Family
family_of none = lift fault
family_of (some a) = pure (get_family a)

-- (mtu>0) && (mtu<=MTU_MAX)
unfoldable pub valid_mtu : Option ℤ → Option ℕ
valid_mtu (some (pos n)) = if ltb 0 n && leb n mtu_max then some n else none
valid_mtu _ = none

module _ {K : Type 0} (w : Ifaces K) (os : Platform) where
  -- A sockaddr_in6 is read behind the end of the ifreq.
  unfoldable pub main_addr : Family → Option SockAddr → Result (Option Address)
  main_addr inet (some sa) = ok (null_on_throw (ip4_of_sockaddr os sa))
  main_addr inet6 (some sa) = fault
  main_addr _ _ = ok none

  unfoldable pub get_main_if_addr : Text → Family → Exec K (Option Address)
  unfolding main_addr
  get_main_if_addr name f k = (main_addr f (w.siocgifaddr name f k), k)

  unfoldable pub remove_if_addr : Text → Option Address → Exec K Bool
  remove_if_addr name none = lift fault
  remove_if_addr name (some a) = call (w.siocdifaddr name (sockaddr_bytes (get_sock_addr a)))

  unfoldable pub add_pair : Text → Option Address → Option Address → Exec K Bool
  add_pair name (some a) (some m) =
      call
        (w.siocaifaddr name (sockaddr_bytes (get_sock_addr a)) (sockaddr_bytes (get_sock_addr m)))
  add_pair name _ _ = lift fault

  unfoldable pub add_if_addr : Text → Group → Exec K Bool
  add_if_addr name g = add_pair name g.address g.mask

  -- Tool::getIfPrimaryAddr4: empty where there is none. Where inet_ntop fails, it reads bytes that
  -- were never written.
  unfoldable pub text_of4 : Option SockAddr → Result Text
  text_of4 none = ok []
  text_of4 (some sa) =
      if sa.sin_addr == 0
      then ok []
      else elim (os.inet_ntop4 sa.sin_addr) [ none ↦ fault | some s ↦ ok s ]

  unfoldable pub get_if_primary_addr4 : Text → Exec K Text
  unfolding text_of4
  get_if_primary_addr4 name k = (text_of4 (w.siocgifaddr name inet k), k)

  module _ (js : Json) where
    open js use {Value, null, insert, of_text, of_integer}

    unfoldable pub data_answer : Value → Value
    data_answer d =
        insert json_param_data d (insert json_param_result (of_text (codes json_param_succ)) null)

    unfoldable pub add_new : Text → Group → Exec K Value
    add_new name g = do added ← add_if_addr name g; answer js added

    -- The address that the interface has is removed, and its DHCP client ended, before.
    unfoldable pub set_current : Text → Group → Option Address → Exec K Value
    set_current name g none = add_new name g
    set_current name g (some a) = do
      stop_client w sigterm name
      stop_client w sigkill name
      removed ← remove_if_addr name (some a)
      if not removed then answer js false else add_new name g

    unfoldable pub set_group : Text → Option Group → Exec K Value
    set_group name none = answer js false
    set_group name (some g) = do
      f ← family_of g.address
      current ← get_main_if_addr name f
      set_current name g current

    unfoldable pub exec_cmd_ip_addr_set : Value → Exec K Value
    exec_cmd_ip_addr_set j = with_name js j λ name. set_group name (get_addr_from_json js os j)

    unfoldable pub add_group : Text → Option Group → Exec K Value
    add_group name none = answer js false
    add_group name (some g) = add_new name g

    unfoldable pub exec_cmd_ip_addr_add : Value → Exec K Value
    exec_cmd_ip_addr_add j = with_name js j λ name. add_group name (get_addr_from_json js os j)

    unfoldable pub remove_group : Text → Option Group → Exec K Value
    remove_group name none = answer js false
    remove_group name (some g) = do removed ← remove_if_addr name g.address; answer js removed

    unfoldable pub exec_cmd_ip_addr_remove : Value → Exec K Value
    exec_cmd_ip_addr_remove j =
        with_name js j λ name. remove_group name (get_addr_from_json js os j)

    unfoldable pub exec_cmd_ip_addr_get : Value → Exec K Value
    exec_cmd_ip_addr_get j = with_name js j λ name. do
      s ← get_if_primary_addr4 name
      if is_empty s
          then answer js false
          else pure (data_answer (insert json_param_ipv4_addr (of_text s) null))

    unfoldable pub mtu_json : Option ℤ → Exec K Value
    mtu_json none = answer js false
    mtu_json (some n) = pure (data_answer (insert json_param_mtu (of_integer n) null))

    unfoldable pub exec_cmd_mtu_get : Value → Exec K Value
    exec_cmd_mtu_get j = with_name js j λ name. do mtu ← read (w.siocgifmtu name); mtu_json mtu

    unfoldable pub set_mtu : Text → Option ℕ → Exec K Value
    set_mtu name none = answer js false
    set_mtu name (some n) = do done ← call (w.siocsifmtu name (pos n)); answer js done

    unfoldable pub exec_cmd_mtu_set : Value → Exec K Value
    exec_cmd_mtu_set j =
        with_name js j λ name. set_mtu name (valid_mtu (integer_field js json_param_mtu j))

    unfoldable pub drop_current : Text → Option Address → Exec K Bool
    drop_current name none = pure false
    drop_current name (some a) = remove_if_addr name (some a)

    unfoldable pub exec_cmd_dhcp_enable : Value → Exec K Value
    exec_cmd_dhcp_enable j = with_name js j λ name. do
      current ← get_main_if_addr name inet
      drop_current name current
      enabled ← enable_dhcp w name
      answer js enabled

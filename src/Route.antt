-- ===== src/Route.antt =====
-- NmWorkerRoute (src/nmworkerroute.h, src/nmworkerroute.cpp): adding, changing and deleting a
-- static route through the routing socket. The kernel's side of the socket is a parameter: a
-- state, and what a write of a message does to it.
pub mod Writes
pub mod Get
use nmdaemon.Address.{Address, ip4, ip6, mac, get_sock_addr}
use nmdaemon.Group.{Group}
use nmdaemon.Json.{Json}
use nmdaemon.Keys.{
  json_param_data, json_param_ipv4_addr, json_param_ipv4_gw, json_param_ipv4_mask,
  json_param_ipv6_addr, json_param_ipv6_gw, json_param_ipv6_mask,
}
use nmdaemon.Platform.{Family, inet, inet6, Platform, SockAddr}
use nmdaemon.Prelude.{
  ℕ, zero, suc, Bool, true, false, Option, none, some, is_some, Result, ok, throw, fault, ◌>>=◌,
  deref, if◌then◌else◌,
}
use nmdaemon.Text.{Text, codes}
use nmdaemon.Tool.FromJson.{get_addr_from_json}

-- rtm_type
pub data RtmType : Type 0 where
  rtm_add rtm_change rtm_delete : RtmType

-- rtm_flags: RTF_UP | RTF_GATEWAY | RTF_STATIC, or none of them.
pub data RtmFlags : Type 0 where
  up_gateway_static no_flags : RtmFlags

-- static_route and static_route6, less what the header repeats. rtm_addrs names all three
-- addresses.
pub record Message : Type 0 where
  pub rtm_type : RtmType
  pub rtm_flags : RtmFlags
  pub family : Family
  pub dest : SockAddr
  pub gateway : SockAddr
  pub netmask : SockAddr

-- write() < 0 with EEXIST, or with another errno.
pub data Written : Type 0 where
  written exists failed : Written

unfoldable pub is_add : Message → Bool
is_add m = elim m.rtm_type [ rtm_add ↦ true | rtm_change ↦ false | rtm_delete ↦ false ]

module _ {K : Type 0} (rt_write : Message → K → Written × K) where
  -- What follows a write: EEXIST is tried again if the message was an addition.
  unfoldable pub after_write : Bool → Option (Bool × K) → Written × K → Option (Bool × K)
  after_write is_addition again (written, k) = some (true, k)
  after_write is_addition again (exists, k) = if is_addition then again else some (false, k)
  after_write is_addition again (failed, k) = some (false, k)

  -- while(true) of setStaticRoute; `none` is the loop that still runs.
  unfoldable pub write_loop : ℕ → Message → K → Option (Bool × K)
  unfolding is_add after_write
  write_loop zero m k = none
  write_loop (suc n) m k =
      let again = write_loop n (record m { rtm_type = rtm_change }) (rt_write m k).1 in
      after_write (is_add m) again (rt_write m k)

  -- The message, where setPsaStruct reads each address of the group with no test.
  unfoldable pub message : RtmType → RtmFlags → Family → Address → Group → Result Message
  unfolding get_sock_addr
  message t flags f a g = do
    gw ← deref g.extra
    mask ← deref g.mask
    ok (record {
      rtm_type = t;
      rtm_flags = flags;
      family = f;
      dest = get_sock_addr a;
      gateway = get_sock_addr gw;
      netmask = get_sock_addr mask;
    })

  unfoldable pub set_ip : Family → Address → Group → K → Result (Option (Bool × K))
  unfolding message write_loop
  set_ip f a g k = message rtm_add up_gateway_static f a g >>= λ m. ok (write_loop 2 m k)

  unfoldable pub set_of : Address → Group → K → Result (Option (Bool × K))
  unfolding set_ip
  set_of (ip4 sa s) g k = set_ip inet (ip4 sa s) g k
  set_of (ip6 sa s) g k = set_ip inet6 (ip6 sa s) g k
  set_of (mac sa s) g k = ok (some (false, k))

  unfoldable pub set_static_route : Group → K → Result (Option (Bool × K))
  unfolding set_of
  set_static_route g k = deref g.address >>= λ a. set_of a g k

  unfoldable pub del_write : Written × K → Bool × K
  del_write (written, k) = (true, k)
  del_write (exists, k) = (false, k)
  del_write (failed, k) = (false, k)

  unfoldable pub del_ip : Family → Address → Group → K → Result (Bool × K)
  unfolding message del_write
  del_ip f a g k = message rtm_delete no_flags f a g >>= λ m. ok (del_write (rt_write m k))

  unfoldable pub del_of : Address → Group → K → Result (Bool × K)
  unfolding del_ip
  del_of (ip4 sa s) g k = del_ip inet (ip4 sa s) g k
  del_of (ip6 sa s) g k = del_ip inet6 (ip6 sa s) g k
  del_of (mac sa s) g k = ok (false, k)

  unfoldable pub del_static_route : Group → K → Result (Bool × K)
  unfolding del_of
  del_static_route g k = deref g.address >>= λ a. del_of a g k

  -- The commands answer with SUCCESS (true) or ERROR (false).
  module _ (js : Json) (os : Platform) where
    open js use {Value, of_text, find, insert}

    unfoldable pub set_group : Option Group → K → Result (Option (Bool × K))
    unfolding set_static_route
    set_group none k = ok (some (false, k))
    set_group (some g) k = set_static_route g k

    unfoldable pub exec_cmd_route_set : Value → K → Result (Option (Bool × K))
    unfolding set_group get_addr_from_json
    exec_cmd_route_set j k = set_group (get_addr_from_json js os j) k

    unfoldable pub del_group : Option Group → K → Result (Bool × K)
    unfolding del_static_route
    del_group none k = ok (false, k)
    del_group (some g) k = del_static_route g k

    unfoldable pub exec_cmd_route_del : Value → K → Result (Bool × K)
    unfolding del_group get_addr_from_json
    exec_cmd_route_del j k = del_group (get_addr_from_json js os j) k

    -- The data with the address and the mask of the default route.
    default_data : Value → Option Value
    default_data d =
        if is_some (find json_param_ipv4_gw d)
        then some (
            insert json_param_ipv4_mask (of_text (codes "0.0.0.0"))
              (insert json_param_ipv4_addr (of_text (codes "0.0.0.0")) d))
        else if is_some (find json_param_ipv6_gw d)
        then some (
            insert json_param_ipv6_mask (of_text (codes "0:0:0:0:0:0:0:0"))
              (insert json_param_ipv6_addr (of_text (codes "0:0:0:0:0:0:0:0")) d))
        else none

    set_default : Value → Option Value → K → Result (Option (Bool × K))
    unfolding exec_cmd_route_set
    set_default j none k = ok (some (false, k))
    set_default j (some d) k = exec_cmd_route_set (insert json_param_data d j) k

    default_of : Value → Option Value → K → Result (Option (Bool × K))
    unfolding set_default default_data
    default_of j none k = ok (some (false, k))
    default_of j (some d) k = set_default j (default_data d) k

    unfoldable pub exec_cmd_def_route_set : Value → K → Result (Option (Bool × K))
    unfolding default_of
    exec_cmd_def_route_set j k = default_of j (find json_param_data j) k

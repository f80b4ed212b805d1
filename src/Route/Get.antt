-- ===== src/Route/Get.antt =====
-- NmWorkerRoute::getStaticRoute and the commands that read a route (src/nmworkerroute.cpp). What
-- the routing socket answers to a RTM_GET message is a parameter, as in the parent. A group is
-- shared with the caller, which sees what getStaticRoute has put in it: it is part of the result.
pub mod Default
use Prim.Native.Nat.{bit_and}
use nmdaemon.Address.{
  Address, get_str_addr, get_family, get_sock_addr, ip4_of_sockaddr, ip4_of_text, ip6_of_sockaddr,
  ip6_of_text, link_of_sockaddr,
}
use nmdaemon.Group.{Group, make as make_group, route}
use nmdaemon.Interface.{Interface, make, add_group, get_if_json}
use nmdaemon.Json.{Json}
use nmdaemon.Keys.{
  json_param_data, json_param_err, json_param_if_name, json_param_ipv4_gw, json_param_ipv6_gw,
  json_param_result, json_param_succ,
}
use nmdaemon.Platform.{Family, inet, inet6, link, Platform, SockAddr}
use nmdaemon.Prelude.{
  ℕ, Bool, true, false, not, ◌&&◌, Option, none, some, Result, ok, throw, fault, ◌>>=◌, deref, ◌==◌,
  if◌then◌else◌,
}
use nmdaemon.Route.{Message, Written, del_static_route}
use nmdaemon.Text.{Text, codes}
use nmdaemon.Tool.FromJson.{get_addr_from_json}

-- rt_msghdr with the addresses behind it, and the name of the interface: that of if_indextoname,
-- or the index as a text.
pub record Reply : Type 0 where
  pub rtm_version : ℕ
  pub rtm_errno : ℕ
  pub rtm_flags : ℕ
  pub dst : Option SockAddr
  pub gateway : Option SockAddr
  pub netmask : Option SockAddr
  pub if_name : Text

-- RTM_VERSION of FreeBSD, and the test of a flag of <net/route.h>.
abbrev pub current_version : ℕ
current_version = 5

unfoldable pub flag_set : ℕ → ℕ → Bool
flag_set flags flag = not (bit_and flags flag == 0)

module _ (os : Platform) where
  -- make_shared<AddressIp4>(...): a pointer, or an exception.
  pointer : Result Address → Result (Option Address)
  pointer r = do a ← r; ok (some a)

  -- A destination or a gateway, by its family.
  unfoldable pub address_of : Option SockAddr → Result (Option Address)
  unfolding pointer ip4_of_sockaddr ip6_of_sockaddr link_of_sockaddr
  address_of none = ok none
  address_of (some sa) = elim sa.family [
    | inet ↦ pointer (ip4_of_sockaddr os sa)
    | inet6 ↦ pointer (ip6_of_sockaddr os sa)
    | link ↦ pointer (link_of_sockaddr os sa)
    | Family.other n ↦ ok none
  ]

  unfoldable pub mask_of : Option SockAddr → Result (Option Address)
  unfolding pointer ip4_of_sockaddr ip6_of_sockaddr
  mask_of none = ok none
  mask_of (some sa) = elim sa.family [
    | inet ↦ pointer (ip4_of_sockaddr os sa)
    | inet6 ↦ pointer (ip6_of_sockaddr os sa)
    | link ↦ ok none
    | Family.other n ↦ ok none
  ]

  -- A mask of a given text in the family of the reply's mask.
  mask_text : SockAddr → Text → Text → Option Address → Result (Option Address)
  unfolding pointer ip4_of_text ip6_of_text
  mask_text sa s4 s6 m = elim sa.family [
    | inet ↦ pointer (ip4_of_text os s4)
    | inet6 ↦ pointer (ip6_of_text os s6)
    | link ↦ ok m
    | Family.other n ↦ ok m
  ]

  -- The mask of a route to a host.
  unfoldable pub host_mask : Reply → Option SockAddr → Option Address → Result (Option Address)
  unfolding mask_text flag_set
  host_mask r none m = ok m
  host_mask r (some sa) m =
      if not (flag_set r.rtm_flags 0x400) && flag_set r.rtm_flags 0x4
      then mask_text sa (codes "255.255.255.255") (codes "ffff:ffff:ffff:ffff:ffff:ffff:ffff:ffff")
          m
      else ok m

  -- Where there is no destination, the family of the mask is read with no test.
  unfoldable pub default_mask :
      Option Address → Option SockAddr → Option Address → Result (Option Address)
  unfolding mask_text
  default_mask (some d) sa m = ok m
  default_mask none none m = fault
  default_mask none (some sa) m = mask_text sa (codes "0.0.0.0") (codes "::") m

  -- setAddr, setMask, setData and setFlags of the group, and the interface with the group.
  unfoldable pub with_route :
      Group → Option Address → Option Address → Address → Reply → Result (Interface × Group)
  unfolding add_group
  with_route g d m gw r =
      let filled = record g { address = d; mask = m; extra = some gw; flags = r.rtm_flags } in
      (do i ← add_group (some filled) (make r.if_name); ok (i, filled))

  unfoldable pub with_gateway :
      Group
      → Option Address
      → Option Address
      → Reply
      → Option Address
      → Result (Option (Interface × Group))
  unfolding host_mask default_mask with_route
  with_gateway g d m r none = ok none
  with_gateway g d m r (some gw) = do
    m' ← host_mask r r.netmask m
    m'' ← default_mask d r.netmask m'
    out ← with_route g d m'' gw r
    ok (some out)

  -- The answer of the socket, decoded; `none` is nullptr.
  unfoldable pub decode_reply : Group → Reply → Result (Option (Interface × Group))
  unfolding address_of mask_of with_gateway
  decode_reply g r =
      if not (r.rtm_version == current_version)
      then ok none
      else if not (r.rtm_errno == 0)
      then ok none
      else (do
        d ← address_of r.dst
        gw ← address_of r.gateway
        m ← mask_of r.netmask
        with_gateway g d m r gw)

  module _ {K : Type 0} (rt_get : Family → SockAddr → K → Option Reply × K) where
    unfoldable pub answered : Group → Option Reply × K → Result (Option (Interface × Group) × K)
    unfolding decode_reply
    answered g (none, k) = ok (none, k)
    answered g (some r, k) = do o ← decode_reply g r; ok (o, k)

    unfoldable pub get_static_route : Group → K → Result (Option (Interface × Group) × K)
    unfolding answered get_family get_sock_addr
    get_static_route g k = do
      a ← deref g.address
      answered g (rt_get (get_family a) (get_sock_addr a) k)

    module _ (js : Json) where
      open js use {Value, null, insert, of_text}

      unfoldable pub result_err : Value
      result_err = insert json_param_result (of_text (codes json_param_err)) null

      unfoldable pub succ_json : Value → Value
      succ_json v =
          insert json_param_data v (insert json_param_result (of_text (codes json_param_succ)) null)

      route_data : Option (Interface × Group) × K → Value × K
      unfolding result_err succ_json get_if_json
      route_data (none, k) = (result_err, k)
      route_data (some (i, g), k) = (succ_json (get_if_json js i), k)

      route_of : Option Group → K → Result (Value × K)
      unfolding get_static_route route_data result_err
      route_of none k = ok (result_err, k)
      route_of (some g) k = do
        r ← get_static_route (record g { ip_type = route }) k
        ok (route_data r)

      unfoldable pub exec_cmd_route_get : Value → K → Result (Value × K)
      unfolding route_of get_addr_from_json
      exec_cmd_route_get j k = route_of (get_addr_from_json js os j) k

      -- AddressIp4() and AddressIp6() with a mask of the same class, as a route.
      unfoldable pub default_group : Result Address → Result Group
      default_group r = do a ← r; m ← r; ok (make_group (some a) (some m) none route)

      unfoldable pub default_group4 : Result Group
      unfolding default_group ip4_of_text
      default_group4 = default_group (ip4_of_text os (codes "0.0.0.0"))

      unfoldable pub default_group6 : Result Group
      unfolding default_group ip6_of_text
      default_group6 = default_group (ip6_of_text os (codes "0:0:0:0:0:0:0:0"))

      -- The commands on the default route that another worker calls answer with what they have
      -- found, and with SUCCESS (true) or ERROR (false).
      gateway_of : Option (Interface × Group) × K → Result (Option (Text × Text) × K)
      unfolding get_str_addr
      gateway_of (none, k) = ok (none, k)
      gateway_of (some (i, g), k) = do gw ← deref g.extra; ok (some (get_str_addr gw, i.name), k)

      unfoldable pub exec_cmd_def_route_get : K → Result (Option (Text × Text) × K)
      unfolding default_group4 get_static_route gateway_of
      exec_cmd_def_route_get k = do g ← default_group4; r ← get_static_route g k; gateway_of r

      unfoldable pub def_route_json : Option (Text × Text) → Value
      unfolding result_err succ_json
      def_route_json none = result_err
      def_route_json (some (gw, name)) =
          succ_json
            (insert json_param_if_name (of_text name) (insert json_param_ipv4_gw (of_text gw) null))

      unfoldable pub exec_cmd_def_route_get6 : K → Result (Option (Text × Text) × K)
      unfolding default_group6 get_static_route gateway_of
      exec_cmd_def_route_get6 k = do g ← default_group6; r ← get_static_route g k; gateway_of r

      unfoldable pub def_route6_json : Option (Text × Text) → Value
      unfolding result_err succ_json
      def_route6_json none = result_err
      def_route6_json (some (gw, name)) = succ_json (insert json_param_ipv6_gw (of_text gw) null)

      module _ (rt_write : Message → K → Written × K) where
        unfoldable pub delete_found : Option (Interface × Group) × K → Result (Bool × K)
        unfolding del_static_route
        delete_found (none, k) = ok (false, k)
        delete_found (some (i, g), k) = del_static_route rt_write g k

        -- What is deleted is the group as getStaticRoute has left it.
        unfoldable pub exec_cmd_def_route_del : K → Result (Bool × K)
        unfolding default_group4 get_static_route delete_found
        exec_cmd_def_route_del k = do g ← default_group4; r ← get_static_route g k; delete_found r

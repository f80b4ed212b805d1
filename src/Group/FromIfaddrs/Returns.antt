-- ===== src/Group/FromIfaddrs/Returns.antt =====
-- AddressGroup(struct ifaddrs*) (src/addressgroup.cpp) throws or returns; it uses no null pointer.
use nmdaemon.Address.{Address, ip4_of_sockaddr, ip6_of_sockaddr, link_of_sockaddr}
use nmdaemon.Group.FromIfaddrs.{
  Ifaddrs, family_is, type_of, addresses, of_ifaddrs, with_addr, required4, required6, optional,
  extra4, extra6,
}
use nmdaemon.Group.{GroupType, ppp, bcast, loopback, route}
use nmdaemon.Platform.{Platform, SockAddr, Family, inet, inet6, other}
use nmdaemon.Prelude.{
  refl, Bool, true, false, if◌then◌else◌, ◌≢◌, arith, Option, none, some, Result, ok, throw, fault,
  ◌>>=◌,
}

bind {ℓ κ} :
    {A : Type ℓ} {B : Type κ} (call : Result A) (next : A → Result B)
    → call ≢ fault
    → ((a : A) → next a ≢ fault)
    → (call >>= next) ≢ fault
bind (ok a) next h k = k a
bind throw next h k = λ e. ground arith
bind fault next h k = λ e. h refl

module _ (os : Platform) where
  ip4 : (sa : SockAddr) → ip4_of_sockaddr os sa ≢ fault
  unfolding ip4_of_sockaddr
  ip4 sa e = ground arith

  ip6 : (sa : SockAddr) → ip6_of_sockaddr os sa ≢ fault
  unfolding ip6_of_sockaddr
  ip6 sa e = ground arith

  link_returns : (sa : SockAddr) → link_of_sockaddr os sa ≢ fault
  unfolding link_of_sockaddr
  link_returns sa e = ground arith

  type_of_returns : (ifa : Ifaddrs) (sa : SockAddr) → type_of os ifa sa ≢ fault
  unfolding type_of
  type_of_returns ifa sa e = ground arith

  required4_returns : (a : Option SockAddr) → required4 os a ≢ fault
  unfolding required4
  required4_returns none = λ e. ground arith
  required4_returns (some sa) = ip4 sa

  required6_returns : (a : Option SockAddr) → required6 os a ≢ fault
  unfolding required6
  required6_returns none = λ e. ground arith
  required6_returns (some sa) = ip6 sa

  optional_returns :
      (make : SockAddr → Result Address) (a : Option SockAddr)
      → ((sa : SockAddr) → make sa ≢ fault)
      → optional os make a ≢ fault
  unfolding optional
  optional_returns make none h = λ e. ground arith
  optional_returns make (some sa) h = bind (make sa) _ (h sa) (λ a. λ e. ground arith)

  of_dest :
      (b : Bool) (make : SockAddr → Result Address) (a : Option SockAddr)
      → ((sa : SockAddr) → make sa ≢ fault)
      → (if b then optional os make a else ok none) ≢ fault
  of_dest true make a h = optional_returns make a h
  of_dest false make a h = λ e. ground arith

  extra4_returns : (ifa : Ifaddrs) (t : GroupType) → extra4 os ifa t ≢ fault
  unfolding extra4
  extra4_returns ifa bcast =
      bind (required4 os ifa.broadaddr) _ (required4_returns ifa.broadaddr) (λ a. λ e. ground arith)
  extra4_returns ifa loopback =
      bind (required4 os ifa.broadaddr) _ (required4_returns ifa.broadaddr) (λ a. λ e. ground arith)
  extra4_returns ifa ppp = of_dest (family_is inet ifa.dstaddr) (ip4_of_sockaddr os) ifa.dstaddr ip4
  extra4_returns ifa route =
      of_dest (family_is inet ifa.dstaddr) (ip4_of_sockaddr os) ifa.dstaddr ip4
  extra4_returns ifa _ = λ e. ground arith

  extra6_returns : (ifa : Ifaddrs) (t : GroupType) → extra6 os ifa t ≢ fault
  unfolding extra6
  extra6_returns ifa bcast = optional_returns (ip6_of_sockaddr os) ifa.broadaddr ip6
  extra6_returns ifa ppp =
      of_dest (family_is inet6 ifa.dstaddr) (ip6_of_sockaddr os) ifa.dstaddr ip6
  extra6_returns ifa route =
      of_dest (family_is inet6 ifa.dstaddr) (ip6_of_sockaddr os) ifa.dstaddr ip6
  extra6_returns ifa _ = λ e. ground arith

  addresses_returns :
      (ifa : Ifaddrs) (t : GroupType) (sa : SockAddr) (f : Family) → addresses os ifa t sa f ≢ fault
  unfolding addresses
  addresses_returns ifa t sa inet = bind (ip4_of_sockaddr os sa) _ (ip4 sa) (λ a.
      bind (required4 os ifa.netmask) _ (required4_returns ifa.netmask)
        (λ m. bind (extra4 os ifa t) _ (extra4_returns ifa t) (λ d. λ e. ground arith)))
  addresses_returns ifa t sa inet6 = bind (ip6_of_sockaddr os sa) _ (ip6 sa) (λ a.
      bind (required6 os ifa.netmask) _ (required6_returns ifa.netmask)
        (λ m. bind (extra6 os ifa t) _ (extra6_returns ifa t) (λ d. λ e. ground arith)))
  addresses_returns ifa t sa Family.link =
      bind (link_of_sockaddr os sa) _ (link_returns sa) (λ a. λ e. ground arith)
  addresses_returns ifa t sa (other f) = λ e. ground arith

  with_addr_returns : (ifa : Ifaddrs) (a : Option SockAddr) → with_addr os ifa a ≢ fault
  unfolding with_addr
  with_addr_returns ifa none = λ e. ground arith
  with_addr_returns ifa (some sa) = bind (type_of os ifa sa) _ (type_of_returns ifa sa) (λ t.
      bind (addresses os ifa t sa sa.family) _ (addresses_returns ifa t sa sa.family)
        (λ p. λ e. ground arith))

  -- A group is made, or an exception is thrown.
  pub of_ifaddrs_returns : (ifa : Option Ifaddrs) → of_ifaddrs os ifa ≢ fault
  unfolding of_ifaddrs
  of_ifaddrs_returns none = λ e. ground arith
  of_ifaddrs_returns (some ifa) = with_addr_returns ifa ifa.addr

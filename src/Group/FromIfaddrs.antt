-- ===== src/Group/FromIfaddrs.antt =====
-- AddressGroup(struct ifaddrs*) (src/addressgroup.cpp). An entry of getifaddrs(3) is a record; the
-- pointers that may be null are options.
pub mod Families
pub mod Returns
use Prim.Native.Nat.{bit_and}
use nmdaemon.Address.{
  Address, ip4, ip6, mac, get_family, ip4_of_sockaddr, ip6_of_sockaddr, link_of_sockaddr,
}
use nmdaemon.Group.{GroupType, Group}
use nmdaemon.Platform.{Family, inet, inet6, other, family_eq, SockAddr, Platform}
use nmdaemon.Prelude.{
  ℕ, Bool, true, false, not, ◌&&◌, Option, none, some, Result, ok, throw, fault, ◌>>=◌, ◌≡◌, ◌≢◌,
  refl, arith, ◌==◌, if◌then◌else◌, is_some,
}
use nmdaemon.Text.{Text}

pub record Ifaddrs : Type 0 where
  pub name : Text
  pub addr : Option SockAddr
  pub flags : ℕ
  pub netmask : Option SockAddr
  pub broadaddr : Option SockAddr
  pub dstaddr : Option SockAddr

abbrev pub has_flag : ℕ → ℕ → Bool
has_flag flags flag = not (bit_and flags flag == 0)

-- A switch on the type, and on an optional address of the wanted family.
abbrev family_is : Family → Option SockAddr → Bool
family_is f none = false
family_is f (some sa) = family_eq sa.family f

module _ (os : Platform) where
  open os use {iff_up, iff_loopback, iff_pointopoint, iff_running}

  unfoldable pub type_of : Ifaddrs → SockAddr → Result GroupType
  unfolding family_eq
  type_of ifa sa = do
    base ←
        (if family_eq sa.family Family.link
          then ok GroupType.link
          else if has_flag ifa.flags iff_pointopoint
          then ok GroupType.ppp
          else if family_eq sa.family inet6
          then ok GroupType.bcast
          else if is_some ifa.broadaddr && family_eq sa.family inet
          then ok GroupType.bcast
          else throw)
    ok (if has_flag ifa.flags iff_loopback then GroupType.loopback else base)

  required4 : Option SockAddr → Result Address
  required4 none = throw
  required4 (some sa) = ip4_of_sockaddr os sa

  required6 : Option SockAddr → Result Address
  required6 none = throw
  required6 (some sa) = ip6_of_sockaddr os sa

  optional : (SockAddr → Result Address) → Option SockAddr → Result (Option Address)
  optional make none = ok none
  optional make (some sa) = make sa >>= λ a. ok (some a)

  -- case AF_INET: the inner switch on ipType
  extra4 : Ifaddrs → GroupType → Result (Option Address)
  unfolding required4 optional family_eq
  extra4 ifa GroupType.bcast = required4 ifa.broadaddr >>= λ a. ok (some a)
  extra4 ifa GroupType.loopback = required4 ifa.broadaddr >>= λ a. ok (some a)
  extra4 ifa GroupType.ppp =
      if family_is inet ifa.dstaddr then optional (ip4_of_sockaddr os) ifa.dstaddr else ok none
  extra4 ifa GroupType.route =
      if family_is inet ifa.dstaddr then optional (ip4_of_sockaddr os) ifa.dstaddr else ok none
  extra4 ifa _ = ok none

  -- case AF_INET6
  extra6 : Ifaddrs → GroupType → Result (Option Address)
  unfolding optional family_eq
  extra6 ifa GroupType.bcast = optional (ip6_of_sockaddr os) ifa.broadaddr
  extra6 ifa GroupType.ppp =
      if family_is inet6 ifa.dstaddr then optional (ip6_of_sockaddr os) ifa.dstaddr else ok none
  extra6 ifa GroupType.route =
      if family_is inet6 ifa.dstaddr then optional (ip6_of_sockaddr os) ifa.dstaddr else ok none
  extra6 ifa _ = ok none

  addresses :
      Ifaddrs → GroupType → SockAddr → Family → Result (Address × Option Address × Option Address)
  unfolding extra4 extra6 required4 required6
  addresses ifa type sa inet = do
    a ← ip4_of_sockaddr os sa
    m ← required4 ifa.netmask
    d ← extra4 ifa type
    ok (a, some m, d)
  addresses ifa type sa inet6 = do
    a ← ip6_of_sockaddr os sa
    m ← required6 ifa.netmask
    d ← extra6 ifa type
    ok (a, some m, d)
  addresses ifa type sa Family.link = do a ← link_of_sockaddr os sa; ok (a, none, none)
  addresses ifa type sa (other f) = throw

  build : Ifaddrs → GroupType → Address × Option Address × Option Address → Group
  build ifa type parts = record {
    ip_type = type;
    address = some parts.0;
    mask = parts.1;
    extra = parts.2;
    flags = 0;
    is_up = has_flag ifa.flags iff_up;
    is_running = has_flag ifa.flags iff_running;
    is_primary = false;
    is_jail = false;
  }

  with_addr : Ifaddrs → Option SockAddr → Result Group
  unfolding type_of addresses build
  with_addr ifa none = throw
  with_addr ifa (some sa) = do
    type ← type_of ifa sa
    parts ← addresses ifa type sa sa.family
    ok (build ifa type parts)

  unfoldable pub of_ifaddrs : Option Ifaddrs → Result Group
  unfolding with_addr
  of_ifaddrs none = throw
  of_ifaddrs (some ifa) = with_addr ifa ifa.addr

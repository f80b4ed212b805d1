-- ===== src/Address.antt =====
-- AddressBase and its classes AddressIp4, AddressIp6 and AddressLink (src/addressbase.h,
-- src/addressip4.cpp, src/addressip6.cpp, src/addresslink.cpp): a constructor for each class.
-- ip_addr of the classes is sin_addr or sin6_addr of the stored sockaddr.
pub mod Laws
use nmdaemon.Prelude.{
  ℕ, Bool, true, false, not, Option, none, some, Result, ok, throw, or_throw, ◌>>=◌, ◌≡◌, ◌↔◌, refl,
  arith, ◌==◌, if◌then◌else◌, is_some,
}
use nmdaemon.Platform.{Family, inet, inet6, link, family_eq, SockAddr, Platform}
use nmdaemon.Text.{Text, text_eq, c_str}

pub data Address : Type 0 where
  ip4 ip6 mac : SockAddr → Text → Address

-- getFamily(): the constant of the class.
unfoldable pub get_family : Address → Family
get_family (ip4 sa s) = inet
get_family (ip6 sa s) = inet6
get_family (mac sa s) = link

unfoldable pub get_sock_addr : Address → SockAddr
get_sock_addr (ip4 sa s) = sa
get_sock_addr (ip6 sa s) = sa
get_sock_addr (mac sa s) = sa

unfoldable pub get_str_addr : Address → Text
get_str_addr (ip4 sa s) = s
get_str_addr (ip6 sa s) = s
get_str_addr (mac sa s) = s

module _ (os : Platform) where
  open os use {inet_pton4, inet_ntop4, inet_pton6, inet_ntop6, link_ntoa, link_addr}

  -- AddressIp4(const struct sockaddr_in*) with setIpAddr
  unfoldable pub ip4_of_sockaddr : SockAddr → Result Address
  unfolding family_eq
  ip4_of_sockaddr sa =
      if family_eq sa.family inet
      then (do s ← or_throw (inet_ntop4 sa.sin_addr); ok (ip4 sa s))
      else throw

  -- AddressIp4(std::string)
  unfoldable pub ip4_of_text : Text → Result Address
  unfolding c_str
  ip4_of_text s = do
    a ← or_throw (inet_pton4 (c_str s))
    ok (ip4 (record { family = inet; sin_addr = a; sin6_addr = 0 }) s)

  -- AddressIp6(const struct sockaddr_in6*) with setIpAddr6
  unfoldable pub ip6_of_sockaddr : SockAddr → Result Address
  unfolding family_eq
  ip6_of_sockaddr sa =
      if family_eq sa.family inet6
      then (do s ← or_throw (inet_ntop6 sa.sin6_addr); ok (ip6 sa s))
      else throw

  -- AddressIp6(std::string)
  unfoldable pub ip6_of_text : Text → Result Address
  unfolding c_str
  ip6_of_text s = do
    a ← or_throw (inet_pton6 (c_str s))
    ok (ip6 (record { family = inet6; sin_addr = 0; sin6_addr = a }) s)

  -- AddressLink(const struct sockaddr_dl*) with setLinkAddr
  unfoldable pub link_of_sockaddr : SockAddr → Result Address
  unfolding family_eq
  link_of_sockaddr sa = if family_eq sa.family link then ok (mac sa (link_ntoa sa)) else throw

  -- AddressLink(std::string)
  unfoldable pub link_of_text : Text → Address
  link_of_text s = mac (link_addr s) s

-- operator==
unfoldable pub address_eq : Address → Address → Bool
unfolding get_family get_sock_addr get_str_addr text_eq family_eq
address_eq (ip4 sa s) b =
    if not (family_eq inet (get_family b))
    then false
    else if not (sa.sin_addr == (get_sock_addr b).sin_addr)
    then false
    else true
address_eq (ip6 sa s) b =
    if not (family_eq inet6 (get_family b))
    then false
    else if not ((get_sock_addr b).sin6_addr == sa.sin6_addr)
    then false
    else true
address_eq (mac sa s) b =
    if not (family_eq link (get_family b))
    then false
    else if not (text_eq s (get_str_addr b))
    then false
    else true

-- operator!=
unfoldable pub address_ne : Address → Address → Bool
unfolding get_family get_sock_addr get_str_addr text_eq family_eq
address_ne (ip4 sa s) b =
    if family_eq inet (get_family b)
    then false
    else if sa.sin_addr == (get_sock_addr b).sin_addr
    then false
    else true
address_ne (ip6 sa s) b =
    if family_eq inet6 (get_family b)
    then false
    else if (get_sock_addr b).sin6_addr == sa.sin6_addr
    then false
    else true
address_ne (mac sa s) b =
    if family_eq link (get_family b)
    then false
    else if text_eq s (get_str_addr b)
    then false
    else true

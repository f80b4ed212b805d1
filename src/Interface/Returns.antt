-- ===== src/Interface/Returns.antt =====
-- Interface::addAddress(struct ifaddrs*) (src/interface.cpp) returns for an entry with an address.
use nmdaemon.Address.{Address}
use nmdaemon.Group.FromIfaddrs.Families.{family_of, of_ifaddrs-IsShaped}
use nmdaemon.Group.FromIfaddrs.Returns.{of_ifaddrs_returns}
use nmdaemon.Group.FromIfaddrs.{Ifaddrs, of_ifaddrs}
use nmdaemon.Group.{Group}
use nmdaemon.Interface.{Interface, push_addr, add_group, keep_on_throw, add_address}
use nmdaemon.Platform.{Platform, SockAddr, Family}
use nmdaemon.Prelude.{
  ◌≡◌, ◌≢◌, refl, arith, is_some, true, Option, none, some, Result, ok, throw, fault,
}

has_address :
    (a : Option Address) (f : Family) → family_of a ≡ some f → (b : Address) × (a ≡ some b)
has_address none f h = absurd (ground arith)
has_address (some b) f h = (b, refl)

address_of_made :
    (os : Platform) (ifa : Ifaddrs) (g : Group)
    → of_ifaddrs os (some ifa) ≡ ok g
    → (b : Address) × (g.address ≡ some b)
address_of_made os ifa g h =
    let (i, sa, e, has, shape, up, run) = of_ifaddrs-IsShaped os (some ifa) g h in
    has_address g.address sa.family shape.address

keep_on_throw_returns :
    (addr : Option SockAddr) (i : Interface) (r : Result Group)
    → is_some addr ≡ true
    → r ≢ fault
    → ((g : Group) → r ≡ ok g → (b : Address) × (g.address ≡ some b))
    → (j : Interface) × (keep_on_throw addr i r ≡ ok j)
unfolding keep_on_throw add_group
keep_on_throw_returns addr i fault a h k = absurd (h refl)
keep_on_throw_returns none i throw a h k = absurd (ground arith)
keep_on_throw_returns (some sa) i throw a h k = (i, refl)
keep_on_throw_returns addr i (ok g) a h k = let (b, e) = k g refl in (push_addr i g b, rw e refl)

-- addAddress returns, whether the entry makes a group or not.
pub add_address_returns :
    (os : Platform) (ifa : Ifaddrs) (i : Interface)
    → is_some ifa.addr ≡ true
    → (j : Interface) × (add_address os ifa i ≡ ok j)
unfolding add_address
add_address_returns os ifa i a =
    keep_on_throw_returns ifa.addr i (of_ifaddrs os (some ifa)) a (of_ifaddrs_returns os (some ifa))
      (address_of_made os ifa)

-- ===== src/Group/FromIfaddrs/Families.antt =====
-- What the constructor from getifaddrs(3) guarantees of the addresses that it stores.
use nmdaemon.Address.{Address, get_family, ip4_of_sockaddr, ip6_of_sockaddr, link_of_sockaddr}
use nmdaemon.Group.FromIfaddrs.{
  Ifaddrs, has_flag, type_of, required4, required6, optional, extra4, extra6, addresses, build,
  with_addr, of_ifaddrs,
}
use nmdaemon.Group.{GroupType, Group}
use nmdaemon.Platform.{Family, inet, inet6, other, family_eq, SockAddr, Platform}
use nmdaemon.Prelude.{
  Bool, true, false, Option, none, some, Result, ok, ◌>>=◌, >>=-eq-ok, Ensures, Ensures-bind,
  Ensures-ok, ap, ◌≡◌, ◌⊎◌, inl, inr, refl, arith, if◌then◌else◌,
}

abbrev pub family_of : Option Address → Option Family
family_of none = none
family_of (some a) = some (get_family a)

-- Both are of family `f`, or absent.
abbrev pub Within : Family → Option Address → Type 0
Within f d = (family_of d ≡ none) ⊎ (family_of d ≡ some f)

-- One family for all that is stored: a mask for all but link addresses, and a broadcast address
-- for each IPv4 address of a type that has one.
pub record IsShaped (g : Group) (f : Family) : Type 0 where
  pub address : family_of g.address ≡ some f
  pub mask : family_of g.mask ≡ (if family_eq f Family.link then none else some f)
  pub extra : Within f g.extra
  pub bcast4 :
      f ≡ inet
      → (g.ip_type ≡ GroupType.bcast) ⊎ (g.ip_type ≡ GroupType.loopback)
      → family_of g.extra ≡ some inet

module _ (os : Platform) where
  ip4-family : (sa : SockAddr) {a : Address} → ip4_of_sockaddr os sa ≡ ok a → get_family a ≡ inet
  unfolding ip4_of_sockaddr get_family
  ip4-family sa h = ground arith

  ip6-family : (sa : SockAddr) {a : Address} → ip6_of_sockaddr os sa ≡ ok a → get_family a ≡ inet6
  unfolding ip6_of_sockaddr get_family
  ip6-family sa h = ground arith

  link-family :
      (sa : SockAddr) {a : Address} → link_of_sockaddr os sa ≡ ok a → get_family a ≡ Family.link
  unfolding link_of_sockaddr get_family
  link-family sa h = ground arith

  required4-family :
      (o : Option SockAddr) {a : Address} → required4 os o ≡ ok a → get_family a ≡ inet
  unfolding required4
  required4-family none h = cc
  required4-family (some sa) h = ip4-family sa h

  required6-family :
      (o : Option SockAddr) {a : Address} → required6 os o ≡ ok a → get_family a ≡ inet6
  unfolding required6
  required6-family none h = cc
  required6-family (some sa) h = ip6-family sa h

  optional4-family :
      (o : Option SockAddr) {d : Option Address}
      → optional os (ip4_of_sockaddr os) o ≡ ok d
      → Within inet d
  unfolding optional
  optional4-family none h = inl (ground arith)
  optional4-family (some sa) h =
      let (a, made, e) = >>=-eq-ok (ip4_of_sockaddr os sa) _ h in
      inr (ground (arith, ip4-family sa made))

  optional6-family :
      (o : Option SockAddr) {d : Option Address}
      → optional os (ip6_of_sockaddr os) o ≡ ok d
      → Within inet6 d
  unfolding optional
  optional6-family none h = inl (ground arith)
  optional6-family (some sa) h =
      let (a, made, e) = >>=-eq-ok (ip6_of_sockaddr os sa) _ h in
      inr (ground (arith, ip6-family sa made))

  guarded-Within :
      {f : Family} (b : Bool) (m : Result (Option Address)) {d : Option Address}
      → (m ≡ ok d → Within f d)
      → (if b then m else ok none) ≡ ok d
      → Within f d
  guarded-Within true m keep h = keep h
  guarded-Within false m keep h = inl (ground arith)

  extra4-family :
      (ifa : Ifaddrs) (t : GroupType) {d : Option Address} → extra4 os ifa t ≡ ok d → Within inet d
  unfolding extra4
  extra4-family ifa GroupType.bcast h =
      let (a, made, e) = >>=-eq-ok (required4 os ifa.broadaddr) _ h in
      inr (ground (arith, required4-family ifa.broadaddr made))
  extra4-family ifa GroupType.loopback h =
      let (a, made, e) = >>=-eq-ok (required4 os ifa.broadaddr) _ h in
      inr (ground (arith, required4-family ifa.broadaddr made))
  extra4-family ifa GroupType.ppp h = guarded-Within _ _ (λ k. optional4-family ifa.dstaddr k) h
  extra4-family ifa GroupType.route h = guarded-Within _ _ (λ k. optional4-family ifa.dstaddr k) h
  extra4-family ifa GroupType.link h = inl (ground arith)
  extra4-family ifa GroupType.unknown h = inl (ground arith)

  extra6-family :
      (ifa : Ifaddrs) (t : GroupType) {d : Option Address} → extra6 os ifa t ≡ ok d → Within inet6 d
  unfolding extra6
  extra6-family ifa GroupType.bcast h = optional6-family ifa.broadaddr h
  extra6-family ifa GroupType.loopback h = inl (ground arith)
  extra6-family ifa GroupType.ppp h = guarded-Within _ _ (λ k. optional6-family ifa.dstaddr k) h
  extra6-family ifa GroupType.route h = guarded-Within _ _ (λ k. optional6-family ifa.dstaddr k) h
  extra6-family ifa GroupType.link h = inl (ground arith)
  extra6-family ifa GroupType.unknown h = inl (ground arith)

  extra4-bcast :
      (ifa : Ifaddrs) (t : GroupType) {d : Option Address}
      → (t ≡ GroupType.bcast) ⊎ (t ≡ GroupType.loopback)
      → extra4 os ifa t ≡ ok d
      → family_of d ≡ some inet
  unfolding extra4
  extra4-bcast ifa GroupType.bcast k h =
      let (a, made, e) = >>=-eq-ok (required4 os ifa.broadaddr) _ h in
      ground (arith, required4-family ifa.broadaddr made)
  extra4-bcast ifa GroupType.loopback k h =
      let (a, made, e) = >>=-eq-ok (required4 os ifa.broadaddr) _ h in
      ground (arith, required4-family ifa.broadaddr made)
  extra4-bcast ifa _ k h = ground arith

  -- What `addresses` returns, in the order of its tuple.
  record PartsShaped (t : GroupType) (f : Family) (a : Address) (m d : Option Address)
      : Type 0 where
    address : get_family a ≡ f
    mask : family_of m ≡ (if family_eq f Family.link then none else some f)
    extra : Within f d
    bcast4 : f ≡ inet → (t ≡ GroupType.bcast) ⊎ (t ≡ GroupType.loopback) → family_of d ≡ some inet

  abbrev Shaped : GroupType → Family → Address × Option Address × Option Address → Type 0
  Shaped t f p = PartsShaped t f p.0 p.1 p.2

  addresses-PartsShaped :
      (ifa : Ifaddrs) (t : GroupType) (sa : SockAddr) (f : Family)
      → Ensures (Shaped t f) (addresses os ifa t sa f)
  unfolding addresses family_eq
  addresses-PartsShaped ifa t sa inet = Ensures-bind (Shaped t inet) _ _ λ a made.
      Ensures-bind (Shaped t inet) _ _ λ m masked. Ensures-bind (Shaped t inet) _ _ λ d more.
        let s : PartsShaped t inet a (some m) d = record {
          address = ip4-family sa made;
          mask = ap some (required4-family ifa.netmask masked);
          extra = extra4-family ifa t more;
          bcast4 = λ e k. extra4-bcast ifa t k more;
        } in
        s
  addresses-PartsShaped ifa t sa inet6 = Ensures-bind (Shaped t inet6) _ _ λ a made.
      Ensures-bind (Shaped t inet6) _ _ λ m masked. Ensures-bind (Shaped t inet6) _ _ λ d more.
        let s : PartsShaped t inet6 a (some m) d = record {
          address = ip6-family sa made;
          mask = ap some (required6-family ifa.netmask masked);
          extra = extra6-family ifa t more;
          bcast4 = λ e k. cc;
        } in
        s
  addresses-PartsShaped ifa t sa Family.link = Ensures-bind (Shaped t Family.link) _ _ λ a made.
      let s : PartsShaped t Family.link a none none = record {
        address = link-family sa made;
        mask = refl;
        extra = inl refl;
        bcast4 = λ e k. cc;
      } in
      s
  addresses-PartsShaped ifa t sa (other f) = tt

abbrev Origin : Platform → Ifaddrs → SockAddr → Group → Type 0
Origin os i sa g =
    IsShaped g sa.family
    × (g.is_up ≡ has_flag i.flags os.iff_up)
    × (g.is_running ≡ has_flag i.flags os.iff_running)

with_addr-Origin :
    (os : Platform) (i : Ifaddrs) (sa : SockAddr)
    → Ensures (Origin os i sa) (with_addr os i (some sa))
unfolding with_addr
with_addr-Origin os i sa =
    Ensures-bind (Origin os i sa) (type_of os i sa) (λ t. joined t)
      λ t typed.
        Ensures-bind (Origin os i sa) (addresses os i t sa sa.family) (λ p. ok (build os i t p))
          λ p made.
            let s =
              Ensures-ok (Shaped os t sa.family) _ (addresses-PartsShaped os i t sa sa.family)
                made in
            let shape : IsShaped (build os i t p) sa.family = record {
              address = ap some s.address;
              mask = s.mask;
              extra = s.extra;
              bcast4 = s.bcast4;
            } in
            let o : Origin os i sa (build os i t p) = (shape, refl, refl) in o
  where
    joined : GroupType → Result Group
    joined t = addresses os i t sa sa.family >>= λ p. ok (build os i t p)

with_addr_lem :
    (os : Platform) (i : Ifaddrs) (g : Group) (a : Option SockAddr)
    → i.addr ≡ a
    → with_addr os i a ≡ ok g
    → (j : Ifaddrs) × (sa : SockAddr) × (some i ≡ some j)
      × (j.addr ≡ some sa)
      × IsShaped g sa.family
      × (g.is_up ≡ has_flag j.flags os.iff_up)
      × (g.is_running ≡ has_flag j.flags os.iff_running)
with_addr_lem os i g none e h = unfold with_addr in cc
with_addr_lem os i g (some sa) e h =
    let o = Ensures-ok (Origin os i sa) _ (with_addr-Origin os i sa) h in
    (i, sa, refl, e, o.0, o.1, o.2)

-- A group made from an entry of getifaddrs(3) has the entry's address family throughout, a mask
-- unless it is a link address, a broadcast address if it is an IPv4 group of type BCAST or
-- LOOPBACK, and is up and running as the entry's flags say; a null entry, or one with no address,
-- makes none.
pub of_ifaddrs-IsShaped :
    (os : Platform) (ifa : Option Ifaddrs) (g : Group)
    → of_ifaddrs os ifa ≡ ok g
    → (i : Ifaddrs) × (sa : SockAddr) × (ifa ≡ some i)
      × (i.addr ≡ some sa)
      × IsShaped g sa.family
      × (g.is_up ≡ has_flag i.flags os.iff_up)
      × (g.is_running ≡ has_flag i.flags os.iff_running)
unfolding of_ifaddrs
of_ifaddrs-IsShaped os none g h = cc
of_ifaddrs-IsShaped os (some i) g h = with_addr_lem os i g i.addr refl h

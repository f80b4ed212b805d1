-- ===== src/Route/Writes.antt =====
-- What setStaticRoute and delStaticRoute do, for every kernel.
use nmdaemon.Address.{Address, ip4, ip6, mac, get_sock_addr}
use nmdaemon.Group.{Group}
use nmdaemon.Platform.{inet, SockAddr}
use nmdaemon.Prelude.{
  ◌≡◌, refl, ap, Bool, true, false, ◌&&◌, Option, none, some, is_some, ok, fault, ◌⊎◌, inl, inr,
}
use nmdaemon.Text.{Text}
use nmdaemon.Route.{
  Message, rtm_add, rtm_change, up_gateway_static, Written, written, exists, failed, after_write,
  write_loop, message, set_static_route, set_of, set_ip, is_add,
}

-- A link-layer address is refused; an IP address needs a gateway and a mask.
has_parts : Option Address → Group → Bool
has_parts none g = false
has_parts (some (ip4 sa s)) g = is_some g.extra && is_some g.mask
has_parts (some (ip6 sa s)) g = is_some g.extra && is_some g.mask
has_parts (some (mac sa s)) g = true

unfoldable pub is_whole : Group → Bool
unfolding has_parts
is_whole g = has_parts g.address g

module _ {K : Type 0} (rt_write : Message → K → Written × K) where
  abbrev change : Message → Message
  change m = record m { rtm_type = rtm_change }

  -- Whether one write has succeeded.
  abbrev pub once : Written × K → Bool × K
  once (written, k) = (true, k)
  once (exists, k) = (false, k)
  once (failed, k) = (false, k)

  abbrev or_again : Written × K → Bool × K → Bool × K
  or_again (written, k) r = (true, k)
  or_again (exists, k) r = r
  or_again (failed, k) r = (false, k)

  -- An addition, and a change instead where the route exists.
  unfoldable pub add_or_change : Message → K → Bool × K
  add_or_change m k = or_again (rt_write m k) (once (rt_write (change m) (rt_write m k).1))

  after_write-once :
      (again : Option (Bool × K)) (p : Written × K)
      → after_write rt_write false again p ≡ some (once p)
  unfolding after_write
  after_write-once again (written, k) = refl
  after_write-once again (exists, k) = refl
  after_write-once again (failed, k) = refl

  after_write-again :
      (r : Bool × K) (p : Written × K) → after_write rt_write true (some r) p ≡ some (or_again p r)
  unfolding after_write
  after_write-again r (written, k) = refl
  after_write-again r (exists, k) = refl
  after_write-again r (failed, k) = refl

  is_add-addition : (m : Message) → m.rtm_type ≡ rtm_add → is_add m ≡ true
  unfolding is_add
  is_add-addition m h = rw h refl

  is_add-change : (m : Message) → is_add (change m) ≡ false
  unfolding is_add
  is_add-change m = refl

  write_loop-returns :
      (m : Message) (k : K)
      → m.rtm_type ≡ rtm_add
      → write_loop rt_write 2 m k ≡ some (add_or_change m k)
  unfolding write_loop add_or_change
  write_loop-returns m k h =
      rw
        (
          is_add-addition m h,
          is_add-change m,
          after_write-once none (rt_write (change m) (rt_write m k).1),
        )
        (after_write-again (once (rt_write (change m) (rt_write m k).1)) (rt_write m k))

  -- setStaticRoute reads a null pointer if a group has no address, or an IP address and no gateway
  -- or no mask; for every other group, and whatever the kernel answers, its loop ends.
  pub set_static_route-returns :
      (g : Group) (k : K)
      → ((is_whole g ≡ false) × (set_static_route rt_write g k ≡ fault))
        ⊎ ((is_whole g ≡ true) × ((r : Bool × K) × (set_static_route rt_write g k ≡ ok (some r))))
  unfolding set_static_route is_whole set_of set_ip message has_parts
  set_static_route-returns g k = go g.address g.extra g.mask refl refl refl
    where
      go :
          (a e m : Option Address)
          → g.address ≡ a
          → g.extra ≡ e
          → g.mask ≡ m
          → ((is_whole g ≡ false) × (set_static_route rt_write g k ≡ fault))
            ⊎ ((is_whole g ≡ true)
                × ((r : Bool × K) × (set_static_route rt_write g k ≡ ok (some r))))
      go none e m a b c = rw a (inl (refl, refl))
      go (some (mac sa s)) e m a b c = rw a (inr (refl, ((false, k), refl)))
      go (some (ip4 sa s)) none m a b c = rw (a, b) (inl (refl, refl))
      go (some (ip4 sa s)) (some e) none a b c = rw (a, b, c) (inl (refl, refl))
      go (some (ip4 sa s)) (some e) (some m) a b c =
          rw (a, b, c) (inr (refl, (_, ap ok (write_loop-returns _ k refl))))
      go (some (ip6 sa s)) none m a b c = rw (a, b) (inl (refl, refl))
      go (some (ip6 sa s)) (some e) none a b c = rw (a, b, c) (inl (refl, refl))
      go (some (ip6 sa s)) (some e) (some m) a b c =
          rw (a, b, c) (inr (refl, (_, ap ok (write_loop-returns _ k refl))))

  -- For an IPv4 address with a gateway and a mask, setStaticRoute writes the addition of that
  -- route, and its change where the kernel answers EEXIST; it returns true exactly where one of
  -- these is written, after two writes at most.
  pub set_static_route-adds :
      (g : Group) (sa : SockAddr) (s : Text) (gw mask : Address) (k : K)
      → g.address ≡ some (ip4 sa s)
      → g.extra ≡ some gw
      → g.mask ≡ some mask
      → set_static_route rt_write g k
        ≡ ok (
            some (
              add_or_change
                (record {
                  rtm_type = rtm_add;
                  rtm_flags = up_gateway_static;
                  family = inet;
                  dest = sa;
                  gateway = get_sock_addr gw;
                  netmask = get_sock_addr mask;
                })
                k))
  unfolding set_static_route set_of set_ip message
  set_static_route-adds g sa s gw mask k a b c =
      rw (a, b, c)
        (ap ok (
          write_loop-returns
            (record {
              rtm_type = rtm_add;
              rtm_flags = up_gateway_static;
              family = inet;
              dest = sa;
              gateway = get_sock_addr gw;
              netmask = get_sock_addr mask;
            })
            k refl))

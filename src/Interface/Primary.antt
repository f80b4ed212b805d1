-- ===== src/Interface/Primary.antt =====
-- What findPrimaryAndJailAddress promises of an interface with several addresses.
use nmdaemon.Interface.{
  Interface, Surroundings, Entry, choose6, is_free, jail_addrs, mark_all,
  find_primary_and_jail_address,
}
use nmdaemon.Interface.Entries.{
  IsEntry, IsFresh, All-entries, All-map, find_over-entries, in_jails, is_ipv4,
}
use nmdaemon.Interface.Marks.{IsMarked, marked, marked-IsMarked, primary-any_iff}
use nmdaemon.Platform.{inet6}
use nmdaemon.Prelude.{
  ◌≤◌, ◌≡◌, ◌↔◌, sym, subst, true, not, ◌&&◌, ok, List, map, any, keep, All, length,
}
use nmdaemon.Text.{Text}

module _ (env : Surroundings) (i i' : Interface) (fresh : All IsFresh i.addrs)
    (several : 2 ≤ length i.addrs) (h : find_primary_and_jail_address env i ≡ ok i') where
  -- Where the search returns, on an interface with two or more unmarked addresses that each have
  -- a text, it marks exactly those IPv4 and IPv6 addresses as a jail's that are among the IPv4
  -- addresses of the jails, and none of those IPv4 addresses as primary.
  pub find_primary-IsMarked : All (IsMarked env.jails4) i'.addrs
  unfolding find_primary_and_jail_address mark_all
  find_primary-IsMarked = go (find_over-entries env i i' i.addrs several h)
    where
      go :
          ((es : List Entry) × (map (λ e. e.0) es ≡ i.addrs)
            × All IsEntry es
            × (i'.addrs ≡ mark_all env es))
          → All (IsMarked env.jails4) i'.addrs
      go (es, e, w, q) = subst (All (IsMarked env.jails4)) (sym q) (
          All-map (marked env es (six es)) (λ e. IsEntry e × IsFresh e.0) (IsMarked env.jails4) es
            (All-entries es w (subst (All IsFresh) (sym e) fresh))
            (marked-IsMarked env es (six es)))
        where
          six : List Entry → Text
          six es = choose6 (keep (is_free inet6 (jail_addrs env.jails4)) es)

  -- Where the search returns, on an interface with two or more unmarked addresses that each
  -- have a text, some IPv4 address is primary afterwards exactly where some IPv4 address is no
  -- jail's.
  pub find_primary-any_iff :
      (any (λ g. is_ipv4 g && g.is_primary) i'.addrs ≡ true)
      ↔ (any (λ g. is_ipv4 g && not (in_jails env.jails4 g)) i.addrs ≡ true)
  unfolding find_primary_and_jail_address mark_all
  find_primary-any_iff = go (find_over-entries env i i' i.addrs several h)
    where
      go :
          ((es : List Entry) × (map (λ e. e.0) es ≡ i.addrs)
            × All IsEntry es
            × (i'.addrs ≡ mark_all env es))
          → (any (λ g. is_ipv4 g && g.is_primary) i'.addrs ≡ true)
            ↔ (any (λ g. is_ipv4 g && not (in_jails env.jails4 g)) i.addrs ≡ true)
      go (es, e, w, q) =
          rw⁻¹ (e, sym q)
            (primary-any_iff env es (choose6 (keep (is_free inet6 (jail_addrs env.jails4)) es))
              (All-entries es w (subst (All IsFresh) (sym e) fresh)))

-- ===== src/Interface/Marks.antt =====
-- Which addresses findPrimaryAndJailAddress marks.
use nmdaemon.Address.{ip4, ip6, mac}
use nmdaemon.Group.{Group}
use nmdaemon.Interface.{Surroundings, Entry, is_free, is_in, mark, mark_family, mark_addr}
use nmdaemon.Platform.{inet, inet6}
use nmdaemon.Prelude.{
  ◌≡◌, refl, sym, ap, subst, ◌∙◌, ◌↔◌, inl, inr, arith, true, false, not, ◌&&◌, ◌||◌, List, map,
  any, All, Bool-cases, &&_iff,
}
use nmdaemon.Text.{Text, is_empty, text_eq, text_eq_iff}
use nmdaemon.Interface.Entries.{
  has_family, text_of, is_ipv4, is_ipv6, in_jails, IsFresh, IsEntry, entry-has_family, entry-text,
  any-map-intro, any-map-elim,
}
use nmdaemon.Interface.Choice.{has_text, jails_of, primary4_of, primary4-not_in, choose4-free}

-- What a mark does to one group.
mark-is_jail :
    (p4 p6 : Text) (jails : List Text) (e : Entry)
    → IsEntry e
    → IsFresh e.0
    → (mark p4 p6 jails e).is_jail
      ≡ ((is_ipv4 e.0 || is_ipv6 e.0) && is_in jails (text_of e.0.address))
unfolding mark mark_family mark_addr has_family text_of
mark-is_jail p4 p6 jails (g, ip4 sa t) a w =
    rw (ap (has_family inet) a, ap text_of a) (ground (arith, w.1))
mark-is_jail p4 p6 jails (g, ip6 sa t) a w =
    rw (ap (has_family inet) a, ap (has_family inet6) a, ap text_of a) (ground (arith, w.1))
mark-is_jail p4 p6 jails (g, mac sa t) a w =
    rw (ap (has_family inet) a, ap (has_family inet6) a) w.1

mark-address :
    (p4 p6 : Text) (jails : List Text) (e : Entry) → (mark p4 p6 jails e).address ≡ e.0.address
unfolding mark mark_family mark_addr has_family text_of
mark-address p4 p6 jails (g, ip4 sa t) = ground arith
mark-address p4 p6 jails (g, ip6 sa t) = ground arith
mark-address p4 p6 jails (g, mac sa t) = refl

mark-is_primary :
    (p4 p6 : Text) (jails : List Text) (e : Entry)
    → IsEntry e
    → IsFresh e.0
    → is_ipv4 e.0 ≡ true
    → (mark p4 p6 jails e).is_primary ≡ text_eq (text_of e.0.address) p4
unfolding mark mark_family mark_addr has_family text_of
mark-is_primary p4 p6 jails (g, ip4 sa t) a w f = rw (ap text_of a) (ground (arith, w.0))
mark-is_primary p4 p6 jails (g, ip6 sa t) a w f = absurd (ground (arith, f, ap (has_family inet) a))
mark-is_primary p4 p6 jails (g, mac sa t) a w f = absurd (ground (arith, f, ap (has_family inet) a))

mark-is_ipv4 :
    (p4 p6 : Text) (jails : List Text) (e : Entry) → is_ipv4 (mark p4 p6 jails e) ≡ is_ipv4 e.0
mark-is_ipv4 p4 p6 jails e = ap (has_family inet) (mark-address p4 p6 jails e)

mark-text :
    (p4 p6 : Text) (jails : List Text) (e : Entry)
    → text_of (mark p4 p6 jails e).address ≡ text_of e.0.address
mark-text p4 p6 jails e = ap text_of (mark-address p4 p6 jails e)

-- A group is marked as a jail's if it is an IP address of a jail, and a jail's IPv4 address is not
-- primary.
abbrev pub IsMarked : List (List Text) → Group → Type 0
IsMarked jails g =
    (g.is_jail ≡ ((is_ipv4 g || is_ipv6 g) && in_jails jails g))
    × ((g.is_primary && is_ipv4 g && in_jails jails g) ≡ false)

module _ (env : Surroundings) (es : List Entry) (p6 : Text) where
  abbrev pub marked : Entry → Group
  marked e = mark (primary4_of env es) p6 (jails_of env) e

  primary-not_in :
      (t : Text)
      → is_empty t ≡ false
      → text_eq t (primary4_of env es) ≡ true
      → is_in (jails_of env) t ≡ false
  primary-not_in t n e =
      subst (λ x. is_in (jails_of env) x ≡ false) (sym same)
        (primary4-not_in env es (subst (λ x. is_empty x ≡ false) same n))
    where
      same : t ≡ primary4_of env es
      same = (text_eq_iff t (primary4_of env es)).0 e

  marked-not_jail :
      (e : Entry)
      → IsEntry e × IsFresh e.0
      → ((marked e).is_primary && is_ipv4 e.0 && is_in (jails_of env) (text_of e.0.address)) ≡ false
  marked-not_jail e w = elim (Bool-cases (is_ipv4 e.0)) [
    | inr n ↦ rw n (ground arith)
    | inl y ↦
        rw (mark-is_primary (primary4_of env es) p6 (jails_of env) e w.0 w.1 y)
          (ground (arith, primary-not_in (text_of e.0.address) w.1.2))
  ]

  pub marked-IsMarked : (e : Entry) → IsEntry e × IsFresh e.0 → IsMarked env.jails4 (marked e)
  unfolding in_jails
  marked-IsMarked e w = (
    rw (mark-address (primary4_of env es) p6 (jails_of env) e)
        (mark-is_jail (primary4_of env es) p6 (jails_of env) e w.0 w.1),
    rw (mark-address (primary4_of env es) p6 (jails_of env) e) (marked-not_jail e w),
  )

  primary-free :
      (e : Entry)
      → IsEntry e × IsFresh e.0
      → (is_ipv4 (marked e) && (marked e).is_primary) ≡ true
      → (is_ipv4 e.0 && not (in_jails env.jails4 e.0)) ≡ true
  unfolding in_jails
  primary-free e w h =
      ground (arith, family, primary-not_in (text_of e.0.address) w.1.2 (sym primary ∙ shown.1))
    where
      shown : (is_ipv4 (marked e) ≡ true) × ((marked e).is_primary ≡ true)
      shown = (&&_iff (is_ipv4 (marked e)) (marked e).is_primary).0 h

      family : is_ipv4 e.0 ≡ true
      family = sym (mark-is_ipv4 (primary4_of env es) p6 (jails_of env) e) ∙ shown.0

      primary : (marked e).is_primary ≡ text_eq (text_of e.0.address) (primary4_of env es)
      primary = mark-is_primary (primary4_of env es) p6 (jails_of env) e w.0 w.1 family

  chosen-primary :
      (e : Entry)
      → IsEntry e × IsFresh e.0
      → (is_free inet (jails_of env) e && has_text (primary4_of env es) e) ≡ true
      → (is_ipv4 (marked e) && (marked e).is_primary) ≡ true
  unfolding has_text
  chosen-primary e w h = (&&_iff (is_ipv4 (marked e)) (marked e).is_primary).1 (
    mark-is_ipv4 (primary4_of env es) p6 (jails_of env) e ∙ family,
    mark-is_primary (primary4_of env es) p6 (jails_of env) e w.0 w.1 family
        ∙ rw (entry-text e w.0) (ground (arith, h)),
  )
    where
      family : is_ipv4 e.0 ≡ true
      family = entry-has_family inet e w.0 ∙ ground (arith, h)

  pub primary-any_iff :
      All (λ e. IsEntry e × IsFresh e.0) es
      → (any (λ g. is_ipv4 g && g.is_primary) (map marked es) ≡ true)
        ↔ (any (λ g. is_ipv4 g && not (in_jails env.jails4 g)) (map (λ e. e.0) es) ≡ true)
  unfolding in_jails
  primary-any_iff w = (
    λ a.
        any-map-intro (λ e. e.0) _ (λ e. is_ipv4 e.0 && not (in_jails env.jails4 e.0)) _ es w
          (λ e v t. t) (any-map-elim marked _ _ _ es w primary-free a),
    λ a.
        any-map-intro marked _
          (λ e. is_free inet (jails_of env) e && has_text (primary4_of env es) e) _ es w
          chosen-primary
          (choose4-free env es
            (any-map-elim (λ e. e.0) _ (is_free inet (jails_of env)) _ es w free-entry a)),
  )
    where
      free-entry :
          (e : Entry)
          → IsEntry e × IsFresh e.0
          → (is_ipv4 e.0 && not (in_jails env.jails4 e.0)) ≡ true
          → is_free inet (jails_of env) e ≡ true
      free-entry e w t = rw⁻¹ (entry-has_family inet e w.0, entry-text e w.0) t

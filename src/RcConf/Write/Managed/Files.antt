-- ===== src/RcConf/Write/Managed/Files.antt =====
-- The keys of the file that is saved.
use nmdaemon.Ini.{Ini}
use nmdaemon.Json.{Json}
use nmdaemon.Keys.{json_param_interfaces, json_param_routes}
use nmdaemon.Platform.{Platform}
use nmdaemon.Prelude.{
  ◌≡◌, ◌⊎◌, refl, sym, subst, Bool, true, false, ◌&&◌, is_some, some, ok, List, [], if_elim,
  Bool-cases, inl, inr,
}
use nmdaemon.RcConf.Write.Inert.{IsInert}
use nmdaemon.RcConf.Write.{
  is_nil, list_of, put_interfaces, Routing, put_routes, put_active, edited, set_rc_ip_config,
}
use nmdaemon.RcConf.{routes_key}
use nmdaemon.Text.{Text}
use nmdaemon.RcConf.Write.Managed.{IsWritten, active, IsClean, IsClosed, words-hold}
use nmdaemon.RcConf.Write.Managed.Interfaces.{Holds}
use nmdaemon.RcConf.Write.Managed.Aliases.{interfaces-hold}
use nmdaemon.RcConf.Write.Managed.Routes.{RoutingHolds, routes-hold}

module _ (ini : Ini) where
  open ini use {File, get, set, remove}

  abbrev pub IsManaged : Text → Type 0
  IsManaged k = (m : Text) × IsWritten m × (ini.same k m ≡ true)

  -- The key `k` reads the same in `g` as in `f`, or is one of the network configuration.
  abbrev pub Kept : Text → File → File → Type 0
  Kept k f g = (get k g ≡ get k f) ⊎ (IsManaged k × IsClean (get k g))

  module _ (k : Text) (f : File) where
    Kept-set : (m v : Text) (g : File) → IsWritten m → IsClean v → Kept k f g → Kept k f (set m v g)
    Kept-set m v g w c h = elim (Bool-cases (ini.same k m)) [
      | inl e ↦ inr ((m, w, e), subst IsClean (sym (rw (ini.get-set k m v g, e) refl)) c)
      | inr e ↦ rw (ini.get-set k m v g, e) h
    ]

    Kept-remove : (m : Text) (g : File) → IsWritten m → Kept k f g → Kept k f (remove m g)
    Kept-remove m g w h = elim (Bool-cases (ini.same k m)) [
      | inl e ↦ inr ((m, w, e), inl (rw (ini.get-remove k m g, e) refl))
      | inr e ↦ rw (ini.get-remove k m g, e) h
    ]

    pub Kept-IsClosed : IsClosed ini (Kept k f)
    Kept-IsClosed = record { set-holds = Kept-set; remove-holds = Kept-remove }

module _ (k : Text) (js : Json) (os : Platform) (ini : Ini) (f : ini.File)
    (inert4 : (s : Text) → is_some (os.inet_pton4 s) ≡ true → IsInert s)
    (inert6 : (s : Text) → is_some (os.inet_pton6 s) ≡ true → IsInert s) where
  edited-Kept : (ifs rts : List js.Value) → Kept ini k f (edited js os ini ifs rts f)
  unfolding edited put_active Holds RoutingHolds
  edited-Kept ifs rts =
      words-hold js os ini (Kept ini k f) (Kept-IsClosed ini k f) routes_key
        (put_routes js os ini rts start).active (put_routes js os ini rts start).file active
        (routes-hold js os ini inert4 inert6 (Kept ini k f) (Kept-IsClosed ini k f) rts start
          init).1
        (routes-hold js os ini inert4 inert6 (Kept ini k f) (Kept-IsClosed ini k f) rts start
          init).0
    where
      start : Routing js os ini
      start = record {
        active = [];
        file = (put_interfaces js os ini ifs (record { is_dhcp = false; file = f })).file;
      }

      init : RoutingHolds js os ini inert4 inert6 (Kept ini k f) (Kept-IsClosed ini k f) start
      init = (
        interfaces-hold js os ini inert4 inert6 (Kept ini k f) (Kept-IsClosed ini k f) ifs
            (record { is_dhcp = false; file = f }) (inl refl),
        refl,
      )

  module _ {K : Type 0} (save : ini.File → K → Bool × K) where
    -- Where inet_pton accepts only texts of letters, digits, spaces, points, colons, underscores
    -- and hyphens, setRcIpConfig on a loaded file either saves nothing and answers false, or saves
    -- one file in which each key reads as before, or is the same key as the default router,
    -- static_routes, or one made of a prefix and bytes of that kind, and reads as nothing or as
    -- one pair of quotes around a text that is of that kind up to its first NUL.
    pub set_rc_ip_config-Kept :
        (rcdata : js.Value) (s : K) {r : Bool × K}
        → set_rc_ip_config js os ini save (some f) rcdata s ≡ ok r
        → (r ≡ (false, s)) ⊎ ((g : ini.File) × (save g s ≡ r) × Kept ini k f g)
    unfolding set_rc_ip_config
    set_rc_ip_config-Kept rcdata s {r} =
        if_elim
          (λ x. x ≡ ok r → (r ≡ (false, s)) ⊎ ((g : ini.File) × (save g s ≡ r) × Kept ini k f g))
          (is_nil (list_of js json_param_interfaces rcdata)
            && is_nil (list_of js json_param_routes rcdata))
          (λ e h. inl cc) (λ e h. inr (edited js os ini ifs rts f, cc, edited-Kept ifs rts))
      where
        ifs : List js.Value
        ifs = list_of js json_param_interfaces rcdata

        rts : List js.Value
        rts = list_of js json_param_routes rcdata

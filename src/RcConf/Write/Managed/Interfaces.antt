-- ===== src/RcConf/Write/Managed/Interfaces.antt =====
-- The first cycle over the addresses of an interface, and the removal of its old aliases.
use nmdaemon.Ini.{Ini}
use nmdaemon.Json.{Json}
use nmdaemon.Keys.{
  json_param_ipv4_addr, json_param_ipv4_mask, json_param_ipv4_gw, json_param_addr_primary,
}
use nmdaemon.Platform.{Platform}
use nmdaemon.Prelude.{
  ℕ, zero, suc, ◌≡◌, true, false, not, ◌&&◌, is_some, Option, none, some, List, [], ◌∷◌, ◌++◌,
  if_elim, &&_iff,
}
use nmdaemon.RcConf.Write.Inert.{
  IsInert, IsClipped, clip, inet_value-IsClipped, alias-IsInert, rc_word-IsInert, ip-IsClipped,
}
use nmdaemon.RcConf.Write.{
  text_at, bool_at, is_ip, is_primary, set_if_changed, Progress, edit, put_static_gateway,
  put_gateway, put_dhcp, put_static, put_address, put_primary, first_cycle, remove_old, inet_value,
  alias_key,
}
use nmdaemon.RcConf.{ifconfig_key_prefix, default_route_key, dhcp_suffix, quoted}
use nmdaemon.Text.{Text, find}
use nmdaemon.Tool.Names.{is_valid_rc_word}
use nmdaemon.RcConf.Write.Managed.{
  IsWritten, router, of_interface, IsClean, clean, IsClosed, put-holds,
}

module _ (js : Json) (os : Platform) (ini : Ini)
    (inert4 : (s : Text) → is_some (os.inet_pton4 s) ≡ true → IsInert s)
    (inert6 : (s : Text) → is_some (os.inet_pton6 s) ≡ true → IsInert s) (P : ini.File → Type 0)
    (closed : IsClosed ini P) where
  put :
      (m v : Text) (g : ini.File)
      → IsWritten m
      → IsClean v
      → P g
      → P (set_if_changed js os ini m v g)
  put m v g w k h = put-holds js os ini P closed m v g w k h

  ip : (s : Text) → is_ip js os s ≡ true → IsClipped s
  unfolding is_ip
  ip s h = ip-IsClipped os inert4 inert6 s h

  unfoldable pub Holds : Progress js os ini → Type 0
  Holds st = P st.file

  static_gateway-holds :
      (o : Option Text) (g : ini.File) → P g → P (put_static_gateway js os ini o g)
  unfolding put_static_gateway
  static_gateway-holds none g h = h
  static_gateway-holds (some s) g h =
      if_elim P (is_ip js os s)
        (λ e. put default_route_key (quoted s) g router (clean s (ip s e)) h) (λ e. h)

  gateway-Holds :
      (jad : js.Value) (st : Progress js os ini) → Holds st → Holds (put_gateway js os ini jad st)
  unfolding put_gateway edit Holds
  gateway-Holds jad st h =
      if_elim Holds (not st.is_dhcp)
        (λ e. static_gateway-holds (text_at js json_param_ipv4_gw jad) st.file h)
        (λ e. closed.remove-holds default_route_key st.file router h)

  module _ (name : Text) (plain : IsInert name) where
    dhcp-Holds :
        (jad : js.Value) (s : Text) (st : Progress js os ini)
        → Holds st
        → Holds (put_dhcp js os ini name jad s st)
    unfolding put_dhcp edit Holds
    dhcp-Holds jad s st h =
        if_elim Holds (is_valid_rc_word s)
          (λ e. gateway-Holds jad _ (
            put (ifconfig_key_prefix ++ name) (quoted s) st.file (of_interface name plain)
              (clean s (clip s (rc_word-IsInert s e))) h))
          (λ e. h)

    static-Holds :
        (jad : js.Value) (s : Text) (mask : Option Text) (st : Progress js os ini)
        → Holds st
        → Holds (put_static js os ini name jad s mask st)
    unfolding put_static edit Holds
    static-Holds jad s none st h = h
    static-Holds jad s (some mask) st h =
        if_elim Holds (is_ip js os s && is_ip js os mask)
          (λ e.
            gateway-Holds jad
              (edit js os ini
                (set_if_changed js os ini (ifconfig_key_prefix ++ name)
                  (quoted (inet_value s mask)))
                (record st { is_dhcp = false }))
              (put (ifconfig_key_prefix ++ name) (quoted (inet_value s mask)) st.file
                (of_interface name plain)
                (clean (inet_value s mask) (
                  inet_value-IsClipped s mask (ip s ((&&_iff _ _).0 e).0)
                    (ip mask ((&&_iff _ _).0 e).1)))
                h))
          (λ e. h)

    address-Holds :
        (jad : js.Value) (o : Option Text) (st : Progress js os ini)
        → Holds st
        → Holds (put_address js os ini name jad o st)
    unfolding put_address Holds
    address-Holds jad none st h = h
    address-Holds jad (some s) st h =
        if_elim Holds (is_some (find s dhcp_suffix))
          (λ e. dhcp-Holds jad s (record st { is_dhcp = true }) h)
          (λ e. static-Holds jad s (text_at js json_param_ipv4_mask jad) st h)

    primary-Holds :
        (jad : js.Value) (st : Progress js os ini)
        → Holds st
        → Holds (put_primary js os ini name jad st)
    unfolding put_primary
    primary-Holds jad st h =
        if_elim Holds (is_primary js os (bool_at js json_param_addr_primary jad))
          (λ e. address-Holds jad (text_at js json_param_ipv4_addr jad) st h) (λ e. h)

    pub cycle-Holds :
        (l : List js.Value) (st : Progress js os ini)
        → Holds st
        → Holds (first_cycle js os ini name l st)
    unfolding first_cycle
    cycle-Holds [] st h = h
    cycle-Holds (jad ∷ l) st h =
        cycle-Holds l (put_primary js os ini name jad st) (primary-Holds jad st h)

    pub old-holds : (i n : ℕ) (g : ini.File) → P g → P (remove_old js os ini name i n g)
    unfolding remove_old alias_key
    old-holds i zero g h = h
    old-holds i (suc n) g h =
        old-holds (suc i) n (ini.remove (alias_key name i) g)
          (closed.remove-holds (alias_key name i) g (of_interface _ (alias-IsInert name i plain)) h)

-- ===== src/RcConf/Write/Managed/Routes.antt =====
-- The routes.
use nmdaemon.Ini.{Ini}
use nmdaemon.Json.{Json}
use nmdaemon.Keys.{
  json_param_addresses, json_param_rt_name, json_param_status, json_data_enabled,
  json_param_ipv4_addr, json_param_ipv4_mask, json_param_ipv4_gw,
}
use nmdaemon.Platform.{Platform}
use nmdaemon.Prelude.{
  ◌≡◌, arith, true, not, ◌||◌, is_some, Option, none, some, List, [], ◌∷◌, ◌++◌, if◌then◌else◌,
  if_elim,
}
use nmdaemon.RcConf.Write.Inert.{
  IsInert, IsClipped, clip, add_word-IsClipped, route_value-IsClipped, name-IsInert, ip-IsClipped,
}
use nmdaemon.RcConf.Write.{
  is_nil, text_at, named_route, read_route, is_ip, valid_route, route_addresses, set_if_changed,
  Routing, put_addresses, put_route, put_routes, route_value,
}
use nmdaemon.RcConf.{route_key_prefix, quoted}
use nmdaemon.Text.{Text, codes, is_empty, text_eq}
use nmdaemon.Tool.Names.{is_valid_name}
use nmdaemon.RcConf.Write.Managed.{IsWritten, of_route, IsClean, clean, IsClosed, put-holds}

module _ (js : Json) (os : Platform) (ini : Ini)
    (inert4 : (s : Text) → is_some (os.inet_pton4 s) ≡ true → IsInert s)
    (inert6 : (s : Text) → is_some (os.inet_pton6 s) ≡ true → IsInert s) (P : ini.File → Type 0)
    (closed : IsClosed ini P) where
  put :
      (m v : Text) (g : ini.File)
      → IsWritten m
      → IsClean v
      → P g
      → P (set_if_changed js os ini m v g)
  put m v g w k h = put-holds js os ini P closed m v g w k h

  ip : (s : Text) → is_ip js os s ≡ true → IsClipped s
  unfolding is_ip
  ip s h = ip-IsClipped os inert4 inert6 s h

  unfoldable pub RoutingHolds : Routing js os ini → Type 0
  RoutingHolds st = P st.file × IsClipped st.active

  Valid : Option (Text × Text × Text) → Type 0
  Valid none = Unit
  Valid (some (a, m, g)) = IsClipped a × IsClipped m × IsClipped g

  valid_route-Valid : (a m g : Option Text) → Valid (valid_route js os a m g)
  unfolding valid_route Valid
  valid_route-Valid (some a) (some m) (some g) =
      if_elim Valid (not (is_ip js os a) || not (is_ip js os m) || not (is_ip js os g)) (λ e. tt)
        (λ e. (ip a (ground (arith, e)), ip m (ground (arith, e)), ip g (ground (arith, e))))
  valid_route-Valid (some a) (some m) none = tt
  valid_route-Valid (some a) none g = tt
  valid_route-Valid none m g = tt

  addresses-holds :
      (name status : Text) (o : Option (Text × Text × Text)) (st : Routing js os ini)
      → IsInert name
      → Valid o
      → RoutingHolds st
      → RoutingHolds (put_addresses js os ini name status o st)
  unfolding put_addresses Valid RoutingHolds
  addresses-holds name status none st c v h = h
  addresses-holds name status (some (a, m, g)) st c v h = (
    put (route_key_prefix ++ name) (quoted (route_value a m g)) st.file (of_route name c)
        (clean (route_value a m g) (route_value-IsClipped a m g v.0 v.1 v.2)) h.0,
    if_elim IsClipped (text_eq status (codes json_data_enabled))
        (λ e. add_word-IsClipped st.active name h.1 (clip name c)) (λ e. h.1),
  )

  NamedRoute : Option (Text × Text × js.Value) → Type 0
  NamedRoute none = Unit
  NamedRoute (some (name, st, v)) = IsInert name

  route-NamedRoute : (o s : Option Text) (a : Option js.Value) → NamedRoute (named_route js o s a)
  unfolding named_route NamedRoute
  route-NamedRoute none s a = tt
  route-NamedRoute (some name) s a =
      if_elim NamedRoute (is_empty name) (λ e. tt)
        (λ e.
          if_elim NamedRoute (not (is_valid_name name)) (λ g. tt)
            (λ g. at s a (name-IsInert name (ground (arith, g)))))
    where
      at :
          (t : Option Text) (b : Option js.Value)
          → IsInert name
          → NamedRoute (elim t [
            | none ↦ none
            | some st ↦
                (if is_empty st then none else elim b [
                  | some v ↦ (if is_nil (js.elements v) then none else some (name, st, v))
                  | none ↦ none
                ])
          ])
      at none b c = tt
      at (some st) none c = if_elim NamedRoute (is_empty st) (λ g. tt) (λ g. tt)
      at (some st) (some v) c =
          if_elim NamedRoute (is_empty st) (λ g. tt)
            (λ g. if_elim NamedRoute (is_nil (js.elements v)) (λ l. tt) (λ l. c))

  route-holds :
      (o : Option (Text × Text × js.Value)) (st : Routing js os ini)
      → NamedRoute o
      → RoutingHolds st
      → RoutingHolds (put_route js os ini o st)
  unfolding put_route route_addresses NamedRoute
  route-holds none st c h = h
  route-holds (some (name, status, v)) st c h =
      addresses-holds name status (route_addresses js os v) st c
        (valid_route-Valid (text_at js json_param_ipv4_addr v) (text_at js json_param_ipv4_mask v)
          (text_at js json_param_ipv4_gw v))
        h

  pub routes-hold :
      (l : List js.Value) (st : Routing js os ini)
      → RoutingHolds st
      → RoutingHolds (put_routes js os ini l st)
  unfolding put_routes read_route
  routes-hold [] st h = h
  routes-hold (jrt ∷ l) st h = routes-hold l (put_route js os ini (read_route js jrt) st) (
      route-holds (read_route js jrt) st
        (route-NamedRoute (text_at js json_param_rt_name jrt) (text_at js json_param_status jrt)
          (js.find json_param_addresses jrt))
        h)

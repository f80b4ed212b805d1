-- ===== src/RcConf/Read/Enabled.antt =====
-- The routes that getRcIpConfig finds active are those that setRcIpConfig was told to enable.
use nmdaemon.Ini.{Ini}
use nmdaemon.Json.{Json}
use nmdaemon.Keys.{json_data_enabled, json_param_rt_name, json_param_status, json_param_addresses}
use nmdaemon.Platform.{Platform}
use nmdaemon.Prelude.{
  ℕ, ◌≡◌, refl, sym, ap, ◌∙◌, arith, true, false, not, ◌&&◌, Option, none, some, List, [], ◌∷◌,
  ◌++◌, All, All-append, ◌==◌, if◌then◌else◌, if_elim, Bool-cases, inl, inr,
}
use nmdaemon.RcConf.Read.{active_routes}
use nmdaemon.RcConf.Write.{
  is_nil, named_route, read_route, route_addresses, text_at, put_addresses, put_route, put_routes,
  put_words, put_active, put_interfaces, Routing, set_if_changed, edited,
}
use nmdaemon.RcConf.{routes_key, quoted}
use nmdaemon.Text.{Text, codes, is_empty, text_eq, text_eq_iff, Lacks}
use nmdaemon.Tool.Names.{is_valid_name, name-Lacks, all_mono}
use nmdaemon.RcConf.Read.Active.{
  IsName, add_words, add_words-append, is_empty-add_words, active_routes-words,
}

module _ (js : Json) (os : Platform) where
  unfoldable enabled_name : Option (Text × Text × js.Value) → List Text
  enabled_name none = []
  enabled_name (some (name, status, v)) = elim (route_addresses js os v) [
    | none ↦ []
    | some a ↦ (if text_eq status (codes json_data_enabled) then name ∷ [] else [])
  ]

  -- The names of the routes that a request enables, and that have a valid name and valid addresses.
  unfoldable pub active_names : List js.Value → List Text
  unfolding enabled_name
  active_names [] = []
  active_names (jrt ∷ l) = enabled_name (read_route js jrt) ++ active_names l

  module _ (ini : Ini) where
    route-active :
        (o : Option (Text × Text × js.Value)) (st : Routing js os ini)
        → (put_route js os ini o st).active ≡ add_words st.active (enabled_name o)
    unfolding put_route put_addresses enabled_name add_words
    route-active none st = refl
    route-active (some (name, status, v)) st = go (route_addresses js os v)
      where
        go :
            (o : Option (Text × Text × Text))
            → (put_addresses js os ini name status o st).active
              ≡ add_words st.active (elim o [
                | none ↦ []
                | some a ↦ (if text_eq status (codes json_data_enabled) then name ∷ [] else [])
              ])
        go none = refl
        go (some a) = elim (Bool-cases (text_eq status (codes json_data_enabled))) [
          | inl e ↦ rw e refl
          | inr e ↦ rw e refl
        ]

    routes-active :
        (l : List js.Value) (st : Routing js os ini)
        → (put_routes js os ini l st).active ≡ add_words st.active (active_names l)
    unfolding put_routes active_names add_words
    routes-active [] st = refl
    routes-active (jrt ∷ l) st =
        routes-active l (put_route js os ini (read_route js jrt) st)
        ∙ ap (λ s. add_words s (active_names l)) (route-active (read_route js jrt) st)
        ∙ sym (add_words-append st.active (enabled_name (read_route js jrt)) (active_names l))

  enabled_none : All IsName (enabled_name none)
  unfolding enabled_name
  enabled_none = tt

  of_IsName :
      (name : Text) (status : Text) (v : js.Value)
      → is_valid_name name ≡ true
      → is_empty name ≡ false
      → All IsName (enabled_name (some (name, status, v)))
  unfolding enabled_name IsName
  of_IsName name status v h n = go (route_addresses js os v)
    where
      lacks :
          (d : ℕ)
          → ((c : ℕ)
              → (not (c == b' ') && not (c == b'\n') && not (c == b'"')) ≡ true
              → not (c == d) ≡ true)
          → Lacks d name
      lacks d weaker = all_mono _ (λ c. not (c == d)) weaker name (name-Lacks name h)

      is_name : IsName name
      is_name = (
        (
          λ e. absurd (ground (arith, ap is_empty e, n)),
          lacks b' ' (λ c k. ground arith),
          lacks b'\n' (λ c k. ground arith),
        ),
        lacks b'"' (λ c k. ground arith),
      )

      go :
          (o : Option (Text × Text × Text))
          → All IsName (elim o [
            | none ↦ []
            | some a ↦ (if text_eq status (codes json_data_enabled) then name ∷ [] else [])
          ])
      go none = tt
      go (some a) =
          if_elim (All IsName) (text_eq status (codes json_data_enabled)) (λ e. (is_name, tt))
            (λ e. tt)

  named-IsName :
      (o s : Option Text) (a : Option js.Value) → All IsName (enabled_name (named_route js o s a))
  unfolding named_route
  named-IsName none s a = enabled_none
  named-IsName (some name) s a =
      if_elim (λ r. All IsName (enabled_name r)) (is_empty name) (λ e. enabled_none)
        (λ e.
          if_elim (λ r. All IsName (enabled_name r)) (not (is_valid_name name)) (λ g. enabled_none)
            (λ g. at s a (ground (arith, g)) e))
    where
      at :
          (t : Option Text) (b : Option js.Value)
          → is_valid_name name ≡ true
          → is_empty name ≡ false
          → All IsName (
              enabled_name (elim t [
                | none ↦ none
                | some st ↦
                    (if is_empty st then none else elim b [
                      | some v ↦ (if is_nil (js.elements v) then none else some (name, st, v))
                      | none ↦ none
                    ])
              ]))
      at none b c n = enabled_none
      at (some st) none c n =
          if_elim (λ r. All IsName (enabled_name r)) (is_empty st) (λ g. enabled_none)
            (λ g. enabled_none)
      at (some st) (some v) c n =
          if_elim (λ r. All IsName (enabled_name r)) (is_empty st) (λ g. enabled_none)
            (λ g.
              if_elim (λ r. All IsName (enabled_name r)) (is_nil (js.elements v))
                (λ l. enabled_none) (λ l. of_IsName name st v c n))

  names-IsName : (l : List js.Value) → All IsName (active_names l)
  unfolding active_names read_route
  names-IsName [] = tt
  names-IsName (jrt ∷ l) =
      All-append IsName (enabled_name (read_route js jrt)) (active_names l)
        (named-IsName (text_at js json_param_rt_name jrt) (text_at js json_param_status jrt)
          (js.find json_param_addresses jrt))
        (names-IsName l)

  module _ (ini : Ini) where
    get-put : (k v : Text) (f : ini.File) → ini.get k (set_if_changed js os ini k v f) ≡ v
    unfolding set_if_changed
    get-put k v f =
        if_elim (λ g. ini.get k g ≡ v) (text_eq v (ini.get k f))
          (λ e. sym ((text_eq_iff v (ini.get k f)).0 e))
          (λ e. ini.get-set k k v f ∙ (rw (ini.same_refl k) refl))

    get-put_words :
        (k s : Text) (f : ini.File)
        → is_empty s ≡ false
        → ini.get k (put_words js os ini k s f) ≡ quoted s
    unfolding put_words
    get-put_words k s f h = rw h (get-put k (quoted s) f)

    saved :
        (names : List Text) (st : Routing js os ini)
        → st.active ≡ add_words [] names
        → All IsName names
        → is_nil names ≡ false
        → active_routes ini (ini.get routes_key (put_active js os ini st)) ≡ names
    unfolding put_active
    saved [] st e n h = absurd (ground arith)
    saved (w ∷ ws) st e n h =
        ap (active_routes ini)
          (get-put_words routes_key st.active st.file (ap is_empty e ∙ is_empty-add_words w ws n))
        ∙ ap (λ s. active_routes ini (quoted s)) e
        ∙ active_routes-words ini w ws n

    -- Where a request enables some route, getRcIpConfig finds in static_routes of the file that
    -- setRcIpConfig saves the names of the routes that it enables, in their order: of those that
    -- have a valid name, a status and valid addresses.
    pub active_routes-edited :
        (ifs rts : List js.Value) (f : ini.File)
        → is_nil (active_names rts) ≡ false
        → active_routes ini (ini.get routes_key (edited js os ini ifs rts f)) ≡ active_names rts
    unfolding edited
    active_routes-edited ifs rts f h =
        saved (active_names rts) (put_routes js os ini rts start) (routes-active ini rts start)
          (names-IsName rts) h
      where
        start : Routing js os ini
        start = record {
          active = [];
          file = (put_interfaces js os ini ifs (record { is_dhcp = false; file = f })).file;
        }

-- ===== src/RcConf/Write/Managed/Aliases.antt =====
-- The aliases of an interface, and all interfaces.
use nmdaemon.Ini.{Ini}
use nmdaemon.Json.{Json}
use nmdaemon.Keys.{
  json_param_if_name, json_param_addresses, json_param_ipv4_addr, json_param_ipv4_mask,
  json_param_addr_primary,
}
use nmdaemon.Platform.{Platform}
use nmdaemon.Prelude.{
  ◌≡◌, refl, arith, true, not, ◌||◌, is_some, Option, none, some, or_throw, List, [], ◌∷◌,
  if◌then◌else◌, if_elim, Ensures,
}
use nmdaemon.RcConf.Write.Inert.{
  IsInert, IsClipped, fix_vlan-IsInert, add_word-IsClipped, inet_value-IsClipped, aliases-IsInert,
  if_name-IsInert, ip-IsClipped,
}
use nmdaemon.RcConf.Write.{
  is_nil, text_at, bool_at, named_interface, read_interface, is_ip, is_primary, valid_alias,
  alias_of, add_alias, alias_words, Progress, edit, first_cycle, put_aliases, put_read_interface,
  put_interfaces, fix_vlan, aliases_key,
}
use nmdaemon.RcConf.{max_aliases}
use nmdaemon.Text.{Text, is_empty}
use nmdaemon.Tool.Names.{is_valid_if_name}
use nmdaemon.RcConf.Write.Managed.{of_interface, IsClosed, words-hold}
use nmdaemon.RcConf.Write.Managed.Interfaces.{Holds, cycle-Holds, old-holds}

module _ (js : Json) (os : Platform) (ini : Ini)
    (inert4 : (s : Text) → is_some (os.inet_pton4 s) ≡ true → IsInert s)
    (inert6 : (s : Text) → is_some (os.inet_pton6 s) ≡ true → IsInert s) (P : ini.File → Type 0)
    (closed : IsClosed ini P) where
  ip : (s : Text) → is_ip js os s ≡ true → IsClipped s
  unfolding is_ip
  ip s h = ip-IsClipped os inert4 inert6 s h

  valid_alias-IsClipped : (a b : Option Text) → Ensures IsClipped (or_throw (valid_alias js os a b))
  unfolding valid_alias
  valid_alias-IsClipped none b = tt
  valid_alias-IsClipped (some s) none = tt
  valid_alias-IsClipped (some s) (some mask) =
      if_elim (λ o. Ensures IsClipped (or_throw o)) (not (is_ip js os s) || not (is_ip js os mask))
        (λ e. tt)
        (λ e. inet_value-IsClipped s mask (ip s (ground (arith, e))) (ip mask (ground (arith, e))))

  alias-words : (jad : js.Value) → Ensures IsClipped (or_throw (alias_of js os jad))
  unfolding alias_of
  alias-words jad =
      if_elim (λ o. Ensures IsClipped (or_throw o))
        (is_primary js os (bool_at js json_param_addr_primary jad)) (λ e. tt)
        (λ e.
          valid_alias-IsClipped (text_at js json_param_ipv4_addr jad)
            (text_at js json_param_ipv4_mask jad))

  add_alias-IsClipped :
      (s : Text) (o : Option Text)
      → IsClipped s
      → Ensures IsClipped (or_throw o)
      → IsClipped (add_alias js os s o)
  unfolding add_alias
  add_alias-IsClipped s none h c = h
  add_alias-IsClipped s (some w) h c = add_word-IsClipped s w h c

  alias_words-IsClipped :
      (s : Text) (l : List js.Value) → IsClipped s → IsClipped (alias_words js os s l)
  unfolding alias_words
  alias_words-IsClipped s [] h = h
  alias_words-IsClipped s (jad ∷ l) h =
      alias_words-IsClipped (add_alias js os s (alias_of js os jad)) l
        (add_alias-IsClipped s (alias_of js os jad) h (alias-words jad))

  aliases-Holds :
      (name : Text) (l : List js.Value) (st : Progress js os ini)
      → IsInert name
      → Holds js os ini inert4 inert6 P closed st
      → Holds js os ini inert4 inert6 P closed (put_aliases js os ini name l st)
  unfolding put_aliases aliases_key edit Holds
  aliases-Holds name l st c h =
      if_elim (Holds js os ini inert4 inert6 P closed) (not st.is_dhcp)
        (λ e.
          words-hold js os ini P closed (aliases_key name) (alias_words js os [] l) st.file
            (of_interface _ (aliases-IsInert name c)) (alias_words-IsClipped [] l refl) h)
        (λ e.
          closed.remove-holds (aliases_key name) st.file (of_interface _ (aliases-IsInert name c))
            h)

  -- The name that the loop has read is inert.
  Named : Option (Text × List js.Value) → Type 0
  Named none = Unit
  Named (some (name, l)) = IsInert name

  interface-Named : (o : Option Text) (a : Option js.Value) → Named (named_interface js o a)
  unfolding named_interface Named
  interface-Named none a = tt
  interface-Named (some s) a =
      if_elim Named (is_empty s) (λ e. tt)
        (λ e.
          if_elim Named (not (is_valid_if_name s)) (λ g. tt)
            (λ g. at a (fix_vlan-IsInert s (if_name-IsInert s (ground (arith, g))))))
    where
      at :
          (b : Option js.Value)
          → IsInert (fix_vlan s)
          → Named (elim b [
            | some v ↦ (if is_nil (js.elements v) then none else some (fix_vlan s, js.elements v))
            | none ↦ none
          ])
      at none c = tt
      at (some v) c = if_elim Named (is_nil (js.elements v)) (λ g. tt) (λ g. c)

  read-Holds :
      (o : Option (Text × List js.Value)) (st : Progress js os ini)
      → Named o
      → Holds js os ini inert4 inert6 P closed st
      → Holds js os ini inert4 inert6 P closed (put_read_interface js os ini o st)
  unfolding put_read_interface edit Holds Named
  read-Holds none st c h = h
  read-Holds (some (name, l)) st c h =
      old-holds js os ini inert4 inert6 P closed name c 0 max_aliases
        (put_aliases js os ini name l (first_cycle js os ini name l st)).file
        (aliases-Holds name l (first_cycle js os ini name l st) c
          (cycle-Holds js os ini inert4 inert6 P closed name c l st h))

  pub interfaces-hold :
      (l : List js.Value) (st : Progress js os ini)
      → Holds js os ini inert4 inert6 P closed st
      → Holds js os ini inert4 inert6 P closed (put_interfaces js os ini l st)
  unfolding put_interfaces read_interface
  interfaces-hold [] st h = h
  interfaces-hold (jif ∷ l) st h =
      interfaces-hold l (put_read_interface js os ini (read_interface js jif) st) (
        read-Holds (read_interface js jif) st
          (interface-Named (text_at js json_param_if_name jif) (js.find json_param_addresses jif))
          h)

-- ===== src/ResolvConf/RoundTrip.antt =====
-- getConfig reads back what setConfig has written.
use mathlib.Core.List.{append-nil, append_assoc}
use nmdaemon.Address.{Address, ip4_of_text}
use nmdaemon.Json.{Json}
use nmdaemon.Keys.{json_param_host_domain, json_param_nameservers, json_param_search_domains}
use nmdaemon.Platform.{Platform}
use nmdaemon.Prelude.{
  ℕ, ◌≡◌, refl, ap, subst, ◌∙◌, arith, Bool, is_some, true, false, not, ◌&&◌, Option, Result, ok,
  throw, fault, ◌>>=◌, ◌>>◌, or_throw, List, [], ◌∷◌, ◌++◌, All, all, ◌==◌, if◌then◌else◌,
  Bool-cases, inl, inr, Ensures, Ensures-bind, Ensures-ok,
}
use nmdaemon.ResolvConf.Lines.{
  Word, split-spaced, keep-Word, spaced-Lacks, trim_right-spaced, view_of-line, Word-nonempty,
}
use nmdaemon.ResolvConf.{
  Config, empty_config, view_of, spaced, search_line, nameserver_lines, render, add_parsed,
  read_view, read_lines, parse_config, read_request, set_config, checked, get_config, config_json,
  check_domain, text_at, list_at, write_request,
}
use nmdaemon.Text.{
  Text, codes, c_str, is_empty, starts_with, find, split, trim_right-Lacks, Lacks, split-line,
  Lacks-append,
}
use nmdaemon.Tool.Names.{is_valid_domain_name, is_valid_ip_addr, all_mono, domain-Lacks}

add_accepted : Result Address → List Address → List Address
add_accepted (ok a) rest' = a ∷ rest'
add_accepted throw rest' = rest'
add_accepted fault rest' = rest'

-- The nameservers that AddressIp4 accepts.
unfoldable pub accepted : Platform → List Text → List Address
unfolding add_accepted
accepted os [] = []
accepted os (s ∷ ss) = add_accepted (ip4_of_text os s) (accepted os ss)

view_domain :
    (os : Platform) (c : Config) (d : Text)
    → read_view os c (codes "domain " ++ d) ≡ record c { domain = d }
unfolding read_view starts_with find
view_domain os c d = refl

view_search :
    (os : Platform) (c : Config) (s : Text) (ss : List Text)
    → Word s
    → All Word ss
    → read_view os c (codes "search" ++ spaced (s ∷ ss))
      ≡ record c { search = c.search ++ (s ∷ ss) }
unfolding read_view starts_with find spaced
view_search os c s ss w ws = rw (split-spaced s ss w ws, keep-Word (s ∷ ss) (w, ws))

view_nameserver :
    (os : Platform) (c : Config) (s : Text)
    → read_view os c (codes "nameserver " ++ s) ≡ add_parsed c (ip4_of_text os s)
unfolding read_view starts_with find
view_nameserver os c s = refl

module _ (os : Platform) where
  -- One line in front of others.
  read_line :
      (c : Config) (line view rest : Text)
      → Lacks b'\n' line
      → view_of line ≡ ok view
      → read_lines os c (split b'\n' (line ++ b'\n' ∷ rest))
        ≡ read_lines os (read_view os c view) (split b'\n' rest)
  read_line c line view rest l v = rw (split-line b'\n' line rest l) (unfold read_lines in rw v)

  add_parsed-accepted :
      (c : Config) (r : Result Address) (rest : List Address)
      → record (add_parsed c r) { nameservers = (add_parsed c r).nameservers ++ rest }
        ≡ record c { nameservers = c.nameservers ++ add_accepted r rest }
  unfolding add_parsed add_accepted
  add_parsed-accepted c (ok a) rest = rw append_assoc refl
  add_parsed-accepted c throw rest = refl
  add_parsed-accepted c fault rest = refl

  view_of-Word :
      (c : ℕ) (s u : Text)
      → (c == b' ') ≡ false
      → Word u
      → view_of (c ∷ (s ++ u)) ≡ ok (c ∷ (s ++ u))
  view_of-Word c s u e w = view_of-line c s u e (trim_right-Lacks b' ' u w.1) (Word-nonempty u w)

  read_nameservers :
      (c : Config) (ns : List Text)
      → All Word ns
      → read_lines os c (split b'\n' (nameserver_lines ns ++ codes "\n"))
        ≡ ok (record c { nameservers = c.nameservers ++ accepted os ns })
  unfolding nameserver_lines accepted
  read_nameservers c [] ws =
      rw append-nil (unfold read_lines view_of read_view split starts_with in refl)
  read_nameservers c (s ∷ ss) ws = rw (append_assoc s (b'\n' ∷ nameserver_lines ss) (codes "\n")) (
      read_line c (codes "nameserver " ++ s) (codes "nameserver " ++ s)
        (nameserver_lines ss ++ codes "\n") (Lacks-append b'\n' (codes "nameserver ") s refl ws.0.2)
        (view_of-Word b'n' (codes "ameserver ") s refl ws.0)
      ∙ rw (view_nameserver os c s) (read_nameservers (add_parsed c (ip4_of_text os s)) ss ws.1)
      ∙ ap ok (add_parsed-accepted c (ip4_of_text os s) (accepted os ss)))

  read_words :
      (c : Config) (s : Text) (ss ns : List Text)
      → All Word (s ∷ ss)
      → All Word ns
      → c.search ≡ []
      → c.nameservers ≡ []
      → read_lines os
          (read_view os c (codes "search" ++ spaced (s ∷ ss)))
          (split b'\n' (nameserver_lines ns ++ codes "\n"))
        ≡ ok (record c { search = s ∷ ss; nameservers = accepted os ns })
  read_words c s ss ns ws vs e f =
      rw
        (
          view_search os c s ss ws.0 ws.1,
          read_nameservers (record c { search = c.search ++ (s ∷ ss) }) ns vs,
          e,
          f,
        )
        refl

  read_search :
      (c : Config) (sd ns : List Text)
      → All Word sd
      → All Word ns
      → c.search ≡ []
      → c.nameservers ≡ []
      → read_lines os c (split b'\n' (search_line sd ++ (nameserver_lines ns ++ codes "\n")))
        ≡ ok (record c { search = sd; nameservers = accepted os ns })
  unfolding search_line
  read_search c [] ns ws vs e f = rw (read_nameservers c ns vs, e, f) refl
  read_search c (s ∷ ss) ns ws vs e f =
      rw (append_assoc (spaced (s ∷ ss)) (codes "\n") (nameserver_lines ns ++ codes "\n")) (
        read_line c (codes "search" ++ spaced (s ∷ ss)) (codes "search" ++ spaced (s ∷ ss))
          (nameserver_lines ns ++ codes "\n")
          (Lacks-append b'\n' (codes "search") (spaced (s ∷ ss)) refl (spaced-Lacks (s ∷ ss) ws))
          (view_of-line b's' (codes "earch") (spaced (s ∷ ss)) refl
            (trim_right-spaced s ss ws.0 ws.1) refl)
        ∙ read_words c s ss ns ws vs e f)

  -- The text that setConfig writes for words reads back as those words; of the nameservers only
  -- the IPv4 addresses do.
  parse_config-render :
      (d : Text) (sd ns : List Text)
      → Word d
      → All Word sd
      → All Word ns
      → parse_config os (render d sd ns)
        ≡ ok (record { nameservers = accepted os ns; search = sd; domain = d })
  unfolding parse_config render
  parse_config-render d sd ns w ws vs =
      read_line empty_config (codes "domain " ++ d) (codes "domain " ++ d)
        (search_line sd ++ (nameserver_lines ns ++ codes "\n"))
        (Lacks-append b'\n' (codes "domain ") d refl w.2)
        (view_of-Word b'd' (codes "omain ") d refl w)
      ∙ rw (view_domain os empty_config d)
          (read_search (record empty_config { domain = d }) sd ns ws vs refl refl)

-- The bytes that a written number or name may hold.
abbrev pub is_plain : ℕ → Bool
is_plain c = not (c == b' ') && not (c == b'\n')

plain-space : (c : ℕ) → is_plain c ≡ true → not (c == b' ') ≡ true
plain-space c h = ground arith

plain-line : (c : ℕ) → is_plain c ≡ true → not (c == b'\n') ≡ true
plain-line c h = ground arith

plain-Word : (s : Text) → is_empty s ≡ false → all is_plain s ≡ true → Word s
plain-Word [] e h = ground arith
plain-Word (c ∷ s) e h = (
  λ q. cc,
  all_mono is_plain (λ c. not (c == b' ')) plain-space (c ∷ s) h,
  all_mono is_plain (λ c. not (c == b'\n')) plain-line (c ∷ s) h,
)

domain-Word : (s : Text) → is_valid_domain_name s ≡ true → Word s
domain-Word s h = plain-Word s (unfold is_valid_domain_name in ground arith) (domain-Lacks s h)

-- No byte is a NUL.
abbrev pub HasNoNul : Text → Type 0
HasNoNul s = all (λ c. not (c == 0)) s ≡ true

HasNoNul-c_str : (s : Text) → HasNoNul s → c_str s ≡ s
unfolding c_str
HasNoNul-c_str [] h = refl
HasNoNul-c_str (c ∷ s) h = ground (arith, h, HasNoNul-c_str s)

-- inet_pton accepts digits, letters, dots and colons only: no space and no line end.
module _ (js : Json) (os : Platform)
    (plain4 : (s : Text) → is_some (os.inet_pton4 s) ≡ true → all is_plain s ≡ true)
    (plain6 : (s : Text) → is_some (os.inet_pton6 s) ≡ true → all is_plain s ≡ true) where
  ip_addr-Word : (s : Text) → is_valid_ip_addr os s ≡ true → c_str s ≡ s → Word s
  unfolding is_valid_ip_addr
  ip_addr-Word s h e =
      plain-Word s (ground arith)
        (subst (λ t. all is_plain t ≡ true) e (ground (arith, plain4 (c_str s), plain6 (c_str s))))

  checked-Ensures :
      (P : Text → Type 0) (valid : Text → Bool) (vs : List js.Value)
      → ((s : Text) → valid s ≡ true → P s)
      → Ensures (All P) (checked js os valid vs)
  unfolding checked
  checked-Ensures P valid [] h = tt
  checked-Ensures P valid (v ∷ vs) h =
      Ensures-bind (All P) (or_throw (js.text v))
        (λ s. if valid s then (checked js os valid vs >>= λ rest. ok (s ∷ rest)) else throw)
        (λ s e. elim (Bool-cases (valid s)) [
          | inl a ↦ rw a (
              Ensures-bind (All P) (checked js os valid vs) (λ rest. ok (s ∷ rest))
                (λ rest q. (
                  h s a,
                  Ensures-ok (All P) (checked js os valid vs) (checked-Ensures P valid vs h) q,
                )))
          | inr b ↦ rw b tt
        ])

  domain_checked : (d : Text) → check_domain js os d ≡ ok tt → is_valid_domain_name d ≡ true
  unfolding check_domain
  domain_checked d h = ground arith

  IsWords : Text × List Text × List Text → Type 0
  IsWords r = Word r.0 × All (λ s. c_str s ≡ s → Word s) r.1 × All Word r.2

  whole_words : (l : List Text) → All (λ s. c_str s ≡ s → Word s) l → All HasNoNul l → All Word l
  whole_words [] h k = tt
  whole_words (s ∷ l) h k = (h.0 (HasNoNul-c_str s k.0), whole_words l h.1 k.1)

  request-Words : (j : js.Value) → Ensures IsWords (read_request js os j)
  unfolding read_request IsWords
  request-Words j =
      Ensures-bind Q (text_at js os json_param_host_domain j)
        (λ d. check_domain js os d >> (ns_of >>= λ ns. sd_of >>= λ sd. ok (d, ns, sd)))
        (λ d _.
          Ensures-bind Q (check_domain js os d)
            (λ _. ns_of >>= λ ns. sd_of >>= λ sd. ok (d, ns, sd))
            (λ u a.
              Ensures-bind Q ns_of (λ ns. sd_of >>= λ sd. ok (d, ns, sd))
                (λ ns b.
                  Ensures-bind Q sd_of (λ sd. ok (d, ns, sd))
                    (λ sd c. (
                      domain-Word d (domain_checked d a),
                      Ensures-ok (All (λ s. c_str s ≡ s → Word s)) ns_of
                          (checked-Ensures (λ s. c_str s ≡ s → Word s) (is_valid_ip_addr os) _
                            ip_addr-Word)
                          b,
                      Ensures-ok (All Word) sd_of
                          (checked-Ensures Word is_valid_domain_name _ domain-Word) c,
                    )))))
    where
      Q : Text × List Text × List Text → Type 0
      Q = IsWords

      ns_of : Result (List Text)
      ns_of = checked js os (is_valid_ip_addr os) (list_at js os json_param_nameservers j)

      sd_of : Result (List Text)
      sd_of = checked js os is_valid_domain_name (list_at js os json_param_search_domains j)

  -- Where inet_pton accepts only texts without spaces and line ends, setConfig accepts a
  -- request, no nameserver of the request has a NUL, and the file can be written, getConfig then
  -- answers with the domain and the search domains of the request and with those of its
  -- nameservers that are IPv4 addresses.
  pub get_config-set_config :
      (file : Option Text) (j : js.Value) (d : Text) (ns sd : List Text)
      → read_request js os j ≡ ok (d, ns, sd)
      → All HasNoNul ns
      → get_config js os (set_config js os true file j).1
        ≡ ok (config_json js os (record { nameservers = accepted os ns; search = sd; domain = d }))
  unfolding get_config set_config write_request IsWords
  get_config-set_config file j d ns sd h k = rw (h, parse_config-render os d sd ns w.0 w.2 w.1) refl
    where
      w : Word d × All Word ns × All Word sd
      w =
          let q = Ensures-ok IsWords (read_request js os j) (request-Words j) h in
          (q.0, whole_words ns q.1 k, q.2)

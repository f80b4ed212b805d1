-- ===== src/RcConf/Scan/Routes.antt =====
-- The values of routes that setRcIpConfig writes are read back: getRouteConfFromString decodes them
-- to the addresses they were made from.
use nmdaemon.Ini.{Ini}
use nmdaemon.Prelude.{
  ℕ, ◌+◌, ◌<◌, ◌≡◌, refl, sym, ap, ◌∙◌, arith, Bool, true, false, not, none, some, [], ◌∷◌, ◌++◌,
  all, all-append, inl, inr, ◌==◌, Bool-cases,
}
use nmdaemon.RcConf.Scan.{
  byte, space, int, sscanf, quad, bytes, unquote, decode_route, get_route_conf_from_string,
  rt_format_net_1, rt_format_net_2, rt_format_net_3, rt_format_host_1, rt_prefix, rt_dotted, rt_hex,
  rt_host, or_else,
}
use nmdaemon.RcConf.Write.{route_value}
use nmdaemon.RcConf.{quoted, ipv4_mask_host}
use nmdaemon.Text.{Text, codes, text_eq, text_eq_iff}
use nmdaemon.RcConf.Scan.Quads.{
  Quad, IsOctets, show, octets, read_quad, all-show, blank-Stops, last_quad,
}
use nmdaemon.RcConf.Scan.Unquote.{IsTrimmed, append-IsTrimmed, starts, unquote_value}
use nmdaemon.RcConf.Scan.RoundTrip.{other, show-IsTrimmed}

module _ (ini : Ini) (q m g : Quad) (hq : IsOctets q) (hm : IsOctets m) (hg : IsOctets g) where
  host_4 :
      sscanf rt_format_host_1 (codes "-host" ++ b' ' ∷ (show q ++ b' ' ∷ show g))
      ≡ octets q (octets g [])
  unfolding rt_format_host_1 bytes sscanf octets
  host_4 =
      read_quad q (space ∷ quad []) (b' ' ∷ show g) hq (blank-Stops _)
      ∙ ap (octets q) (last_quad g hg)

  -- No format of a network reads a route to a host.
  decode_host :
      decode_route ini (codes "-host" ++ b' ' ∷ (show q ++ b' ' ∷ show g))
      ≡ some (record { addr = show q; mask = ipv4_mask_host; gw = show g })
  unfolding decode_route rt_format_net_1 rt_format_net_2 rt_format_net_3 bytes sscanf rt_prefix
      rt_dotted rt_hex or_else
  decode_host = ap rt_host host_4 ∙ (unfold rt_host octets in refl)

  net_text : Text
  net_text =
      codes "-net"
      ++ b' ' ∷ (show q ++ b' ' ∷ (codes "-netmask" ++ b' ' ∷ (show m ++ b' ' ∷ show g)))

  net_4 : rt_prefix (sscanf rt_format_net_1 net_text) ≡ none
  unfolding rt_format_net_1 bytes sscanf octets rt_prefix net_text
  net_4 = ap rt_prefix (
      read_quad q (byte b'/' ∷ int 2 ∷ space ∷ quad [])
        (b' ' ∷ (codes "-netmask" ++ b' ' ∷ (show m ++ b' ' ∷ show g))) hq (blank-Stops _))

  net_12 : sscanf rt_format_net_3 net_text ≡ octets q (octets m (octets g []))
  unfolding rt_format_net_3 bytes sscanf octets net_text
  net_12 =
      read_quad q (space ∷ byte b'-' ∷ bytes (codes "netmask") (space ∷ quad (space ∷ quad [])))
        (b' ' ∷ (codes "-netmask" ++ b' ' ∷ (show m ++ b' ' ∷ show g))) hq (blank-Stops _)
      ∙ ap (octets q) (
          read_quad m (space ∷ quad []) (b' ' ∷ show g) hm (blank-Stops _)
          ∙ ap (octets m) (last_quad g hg))

  decode_net :
      decode_route ini net_text ≡ some (record { addr = show q; mask = show m; gw = show g })
  unfolding decode_route or_else
  decode_net = rw (net_4, net_12) (unfold rt_dotted octets in refl)

  net-IsTrimmed : IsTrimmed net_text
  unfolding net_text
  net-IsTrimmed = append-IsTrimmed (codes "-net ") _ (
      append-IsTrimmed (show q) _ (
        append-IsTrimmed (codes " -netmask ") _
          (append-IsTrimmed (show m) _ (append-IsTrimmed (codes " ") (show g) (show-IsTrimmed g)))))

  host_text : Text
  host_text = codes "-host" ++ b' ' ∷ (show q ++ b' ' ∷ show g)

  decode_host_text :
      decode_route ini host_text
      ≡ some (record { addr = show q; mask = ipv4_mask_host; gw = show g })
  unfolding host_text
  decode_host_text = decode_host

  host-IsTrimmed : IsTrimmed host_text
  unfolding host_text
  host-IsTrimmed =
      append-IsTrimmed (codes "-host ") _
        (append-IsTrimmed (show q) _ (append-IsTrimmed (codes " ") (show g) (show-IsTrimmed g)))

  module _ (p : ℕ → Bool) (of_digit : (v : ℕ) → v < 10 → p (b'0' + v) ≡ true)
      (point : p b'.' ≡ true) where
    host-all : all p (codes "-host ") ≡ true → all p (codes " ") ≡ true → all p host_text ≡ true
    unfolding host_text
    host-all h k = all-append p (codes "-host ") _ h (
        all-append p (show q) _ (all-show p of_digit point q)
          (all-append p (codes " ") (show g) k (all-show p of_digit point g)))

    net-all :
        all p (codes "-net ") ≡ true
        → all p (codes " -netmask ") ≡ true
        → all p (codes " ") ≡ true
        → all p net_text ≡ true
    unfolding net_text
    net-all h k l = all-append p (codes "-net ") _ h (
        all-append p (show q) _ (all-show p of_digit point q) (
          all-append p (codes " -netmask ") _ k (
            all-append p (show m) _ (all-show p of_digit point m)
              (all-append p (codes " ") (show g) l (all-show p of_digit point g)))))

  -- Without the mask of a host, and with it.
  unquoted_net : unquote ini (quoted net_text) ≡ net_text
  unquoted_net =
      unquote_value ini net_text (unfold starts net_text in refl)
        (net-all (λ c. not (c == b'"')) (other b'"' (inl (omega arith))) refl refl refl refl)
        net-IsTrimmed

  unquoted_host : unquote ini (quoted host_text) ≡ host_text
  unquoted_host =
      unquote_value ini host_text (unfold starts host_text in refl)
        (host-all (λ c. not (c == b'"')) (other b'"' (inl (omega arith))) refl refl refl)
        host-IsTrimmed

  route_conf :
      (s u : Text) → unquote ini s ≡ u → get_route_conf_from_string ini s ≡ decode_route ini u
  unfolding get_route_conf_from_string
  route_conf s u e = ap (decode_route ini) e

  -- The value of a route's key that is made of an address, a mask and a gateway of four octets
  -- each is decoded to that address, that mask and that gateway.
  pub get_route_conf_from_string-quoted :
      get_route_conf_from_string ini (quoted (route_value (show q) (show m) (show g)))
      ≡ some (record { addr = show q; mask = show m; gw = show g })
  get_route_conf_from_string-quoted = elim (Bool-cases (text_eq (show m) ipv4_mask_host)) [
    | inl e ↦
        ap (λ v. get_route_conf_from_string ini (quoted v)) (host_value e)
        ∙ route_conf (quoted host_text) host_text unquoted_host
        ∙ decode_host_text
        ∙ ap (λ x. some (record { addr = show q; mask = x; gw = show g }))
            (sym ((text_eq_iff (show m) ipv4_mask_host).0 e))
    | inr e ↦
        ap (λ v. get_route_conf_from_string ini (quoted v)) (net_value e)
        ∙ route_conf (quoted net_text) net_text unquoted_net
        ∙ decode_net
  ]
    where
      host_value :
          text_eq (show m) ipv4_mask_host ≡ true
          → route_value (show q) (show m) (show g) ≡ host_text
      host_value e = unfold route_value host_text in rw e refl

      net_value :
          text_eq (show m) ipv4_mask_host ≡ false
          → route_value (show q) (show m) (show g) ≡ net_text
      net_value e = unfold route_value net_text in rw e refl

-- ===== src/RcConf/Scan/RoundTrip.antt =====
-- The values that setRcIpConfig writes are read back by getRcIpConfig: getIpConfFromString
-- decodes them to the addresses they were made from.
use nmdaemon.Ini.{Ini}
use nmdaemon.Prelude.{
  ℕ, ◌+◌, ◌<◌, ◌≡◌, ◌⊎◌, refl, ap, ◌∙◌, arith, Bool, true, false, not, none, some, [], ◌∷◌, ◌++◌,
  all, all-append, inl, inr, ◌==◌,
}
use nmdaemon.RcConf.Scan.{
  byte, space, int, sscanf, quad, bytes, static, unquote, decode_ip, get_ip_conf_from_string,
  if_format_1, if_format_3, if_prefix, if_dotted, or_else,
}
use nmdaemon.RcConf.Write.{inet_value}
use nmdaemon.RcConf.{decimal, dotted, quoted, dhcp_suffix}
use nmdaemon.Text.{Text, codes, is_empty, find}
use nmdaemon.RcConf.Scan.Quads.{
  Quad, IsOctets, show, octets, read_quad, all-show, blank-Stops, last_quad,
}
use nmdaemon.RcConf.Scan.Unquote.{
  IsTrimmed, append-IsTrimmed, Lacks-IsTrimmed, starts, unquote_value, find-Lacks,
}

pub other : (d : ℕ) → (d < b'.') ⊎ (b'9' < d) → (v : ℕ) → v < 10 → not (b'0' + v == d) ≡ true
other d h v k = ground arith

pub show-IsTrimmed : (q : Quad) → IsTrimmed (show q)
show-IsTrimmed q =
    Lacks-IsTrimmed (show q)
      (all-show (λ c. not (c == b' ')) (other b' ' (inl (omega arith))) refl q)
      (unfold dotted in
        nonempty b'.' (decimal q.a) (decimal q.b ++ b'.' ∷ (decimal q.c ++ b'.' ∷ decimal q.d)))
  where
    nonempty : (c : ℕ) (s t : Text) → is_empty (s ++ c ∷ t) ≡ false
    nonempty c [] t = refl
    nonempty c (d ∷ s) t = refl

-- A value without the keyword is decoded as an address.
static_conf :
    (ini : Ini) (s u : Text)
    → unquote ini s ≡ u
    → find u dhcp_suffix ≡ none
    → get_ip_conf_from_string ini s ≡ decode_ip ini u
unfolding get_ip_conf_from_string
static_conf ini s u e h = rw (e, h) refl

module _ (ini : Ini) (q m : Quad) (hq : IsOctets q) (hm : IsOctets m) where
  address_1 : if_prefix (sscanf if_format_1 (inet_value (show q) (show m))) ≡ none
  unfolding if_format_1 bytes inet_value sscanf octets if_prefix
  address_1 = ap if_prefix (
      read_quad q (byte b'/' ∷ int 2 ∷ []) (b' ' ∷ (codes "netmask" ++ b' ' ∷ show m)) hq
        (blank-Stops _))

  address_3 : sscanf if_format_3 (inet_value (show q) (show m)) ≡ octets q (octets m [])
  unfolding if_format_3 bytes inet_value sscanf octets
  address_3 =
      read_quad q (space ∷ bytes (codes "netmask") (space ∷ quad []))
        (b' ' ∷ (codes "netmask" ++ b' ' ∷ show m)) hq (blank-Stops _)
      ∙ ap (octets q) (last_quad m hm)

  decode_inet : decode_ip ini (inet_value (show q) (show m)) ≡ some (static (show q) (show m))
  unfolding decode_ip or_else
  decode_inet = rw (address_1, address_3) (unfold if_dotted octets in refl)

  inet-IsTrimmed : IsTrimmed (inet_value (show q) (show m))
  unfolding inet_value
  inet-IsTrimmed = append-IsTrimmed (codes "inet ") _ (
      append-IsTrimmed (show q) _
        (append-IsTrimmed (codes " netmask ") (show m) (show-IsTrimmed m)))

  module _ (p : ℕ → Bool) (of_digit : (v : ℕ) → v < 10 → p (b'0' + v) ≡ true)
      (point : p b'.' ≡ true) where
    pair :
        (s t : Text)
        → all p s ≡ true
        → all p t ≡ true
        → all p (s ++ (show q ++ (t ++ show m))) ≡ true
    pair s t h k = all-append p s _ h (
        all-append p (show q) _ (all-show p of_digit point q)
          (all-append p t _ k (all-show p of_digit point m)))

  inet-all :
      (p : ℕ → Bool) (of_digit : (v : ℕ) → v < 10 → p (b'0' + v) ≡ true) (point : p b'.' ≡ true)
      → all p (codes "inet ") ≡ true
      → all p (codes " netmask ") ≡ true
      → all p (inet_value (show q) (show m)) ≡ true
  unfolding inet_value
  inet-all p of_digit point h k = pair p of_digit point (codes "inet ") (codes " netmask ") h k

  -- The value of an interface's key that is made of an address and a mask of four octets each is
  -- decoded to that address and that mask.
  pub get_ip_conf_from_string-quoted :
      get_ip_conf_from_string ini (quoted (inet_value (show q) (show m)))
      ≡ some (static (show q) (show m))
  get_ip_conf_from_string-quoted =
      static_conf ini (quoted (inet_value (show q) (show m))) (inet_value (show q) (show m))
        unquoted
        (find-Lacks b'D' (codes "HCP") (inet_value (show q) (show m))
          (inet-all (λ c. not (c == b'D')) (other b'D' (inr (omega arith))) refl refl refl))
      ∙ decode_inet
    where
      unquoted : unquote ini (quoted (inet_value (show q) (show m))) ≡ inet_value (show q) (show m)
      unquoted =
          unquote_value ini (inet_value (show q) (show m)) (unfold starts inet_value in refl)
            (inet-all (λ c. not (c == b'"')) (other b'"' (inl (omega arith))) refl refl refl)
            inet-IsTrimmed

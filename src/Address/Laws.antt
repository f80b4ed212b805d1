-- ===== src/Address/Laws.antt =====
-- operator== and operator!= of the address classes, and conversion between them and sockaddrs.
use nmdaemon.Address.{
  Address, ip4, ip6, mac, get_family, get_sock_addr, get_str_addr, ip4_of_sockaddr, ip4_of_text,
  address_eq, address_ne,
}
use nmdaemon.Platform.{SockAddr, Platform}
use nmdaemon.Prelude.{true, false, ok, ◌≡◌, ◌↔◌, inl, inr, refl, arith, Bool-cases}
use nmdaemon.Text.{Text, text_eq_iff}

-- What each class compares.
pub data SameAddress : Address → Address → Type 0 where
  same_ip4 :
      {sa sb : SockAddr} {s t : Text}
      → sa.sin_addr ≡ sb.sin_addr
      → SameAddress (ip4 sa s) (ip4 sb t)
  same_ip6 :
      {sa sb : SockAddr} {s t : Text}
      → sa.sin6_addr ≡ sb.sin6_addr
      → SameAddress (ip6 sa s) (ip6 sb t)
  same_link : {sa sb : SockAddr} {s t : Text} → s ≡ t → SameAddress (mac sa s) (mac sb t)

eq_sound : (a b : Address) → address_eq a b ≡ true → SameAddress a b
unfolding address_eq
eq_sound (ip4 sa s) (ip4 sb t) h = same_ip4 (ground arith)
eq_sound (ip4 sa s) (ip6 sb t) h = cc
eq_sound (ip4 sa s) (mac sb t) h = cc
eq_sound (ip6 sa s) (ip6 sb t) h = same_ip6 (ground arith)
eq_sound (ip6 sa s) (ip4 sb t) h = cc
eq_sound (ip6 sa s) (mac sb t) h = cc
eq_sound (mac sa s) (mac sb t) h = same_link (ground (arith, text_eq_iff s t))
eq_sound (mac sa s) (ip4 sb t) h = cc
eq_sound (mac sa s) (ip6 sb t) h = cc

eq_complete : (a b : Address) → SameAddress a b → address_eq a b ≡ true
unfolding address_eq
eq_complete _ _ (same_ip4 e) = ground arith
eq_complete _ _ (same_ip6 e) = ground arith
eq_complete _ _ (same_link {s = s} {t = t} e) = ground (arith, text_eq_iff s t)

-- operator== holds exactly between two addresses of one class with the same IPv4 address, the same
-- IPv6 address, or the same link-layer text.
address_eq_iff : (a b : Address) → (address_eq a b ≡ true) ↔ SameAddress a b
address_eq_iff a b = (eq_sound a b, eq_complete a b)

ne-same_family : (a b : Address) → get_family a ≡ get_family b → address_ne a b ≡ false
unfolding address_ne
ne-same_family (ip4 sa s) (ip4 sb t) h = refl
ne-same_family (ip6 sa s) (ip6 sb t) h = refl
ne-same_family (mac sa s) (mac sb t) h = refl
ne-same_family (ip4 sa s) _ h = cc
ne-same_family (ip6 sa s) _ h = cc
ne-same_family (mac sa s) _ h = cc

-- Two different addresses of one class are neither equal by operator== nor unequal by operator!=.
address_ne-same_family :
    (a b : Address)
    → get_family a ≡ get_family b
    → ¬ SameAddress a b
    → (address_eq a b ≡ false) × (address_ne a b ≡ false)
address_ne-same_family a b h differs = elim (Bool-cases (address_eq a b)) [
  | inl same ↦ absurd (differs ((address_eq_iff a b).0 same))
  | inr e ↦ (e, ne-same_family a b h)
]

-- An IPv4 address made from a text and the one made again from its sockaddr are equal, where both
-- are made, and the first has that text.
ip4_of_sockaddr-eq :
    (os : Platform) (s : Text) (a b : Address)
    → ip4_of_text os s ≡ ok a
    → ip4_of_sockaddr os (get_sock_addr a) ≡ ok b
    → (address_eq a b ≡ true) × (get_str_addr a ≡ s)
unfolding ip4_of_text ip4_of_sockaddr address_eq
ip4_of_sockaddr-eq os s a b h k = ground arith

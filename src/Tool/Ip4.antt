-- ===== src/Tool/Ip4.antt =====
-- Tool::isValidGw4 and Tool::isValidBcast4 (src/tool.cpp): uint32_t words in network byte order.
-- Bitwise operations read the same in every byte order.
use Prim.Native.Nat.{bit_and, bit_xor}
use nmdaemon.Bits.{bit_xor-eq_zero, bit_xor_self, bit_and-split, bit_and-broadcast, zero-bit_and}
use nmdaemon.Prelude.{
  ℕ, ◌+◌, ◌-◌, ◌^◌, ◌<◌, ◌≡◌, ◌≢◌, ◌↔◌, refl, Bool, true, false, not, ◌||◌, inl, inr, arith, ◌==◌,
  if◌then◌else◌, Bool-cases,
}

-- ~x on a uint32_t
abbrev pub complement : ℕ → ℕ
complement x = 0xffff_ffff - x

unfoldable pub is_valid_gw4 : ℕ → ℕ → ℕ → Bool
is_valid_gw4 addr mask gw =
    if addr == 0 || mask == 0 || gw == 0
    then false
    else if bit_and (complement mask) addr == 0
    then false
    else if bit_and (complement mask) gw == 0
    then false
    else if bit_xor (bit_and (complement mask) addr) (bit_and (complement mask) gw) == 0
    then false
    else if bit_xor (complement mask) (bit_and (complement mask) gw) == 0
    then false
    else if not (bit_xor (bit_and mask addr) (bit_and mask gw) == 0)
    then false
    else true

unfoldable pub is_valid_bcast4 : ℕ → ℕ → ℕ → Bool
is_valid_bcast4 addr mask bcast =
    if addr == 0 || mask == 0 || bcast == 0
    then false
    else if bit_and (complement mask) addr == 0
    then false
    else if not (bit_xor (complement mask) (bit_and (complement mask) bcast) == 0)
    then false
    else if not (bit_xor (bit_and mask addr) (bit_and mask bcast) == 0)
    then false
    else true

-- The gateway is another host of the same network: neither the network's own address nor its
-- broadcast address, and not the address itself.
pub record IsGateway (addr mask gw : ℕ) : Type 0 where
  pub has_mask : mask ≢ 0
  pub same_net : bit_and mask addr ≡ bit_and mask gw
  pub other : addr ≢ gw
  pub addr_host : bit_and (complement mask) addr ≢ 0
  pub gw_host : bit_and (complement mask) gw ≢ 0
  pub not_bcast : bit_and (complement mask) gw ≢ complement mask

xor_test : (a b : ℕ) → ((bit_xor a b == 0) ≡ true) ↔ (a ≡ b)
xor_test a b = (λ h. bit_xor-eq_zero a b (ground arith), λ e. rw (e, bit_xor_self b) refl)

-- A word is the sum of its network part and its host part.
parts : (mask a : ℕ) → mask < 2 ^ 32 → a < 2 ^ 32 → bit_and mask a + bit_and (complement mask) a ≡ a
parts mask a hm ha = bit_and-split 32 mask (complement mask) a (omega arith) ha

-- For words of 32 bits the check accepts exactly the gateways: there is a mask, the two words have
-- one network part, are different, have host bits, and the gateway is not the broadcast address.
pub is_valid_gw4_iff :
    (addr mask gw : ℕ)
    → addr < 2 ^ 32
    → mask < 2 ^ 32
    → gw < 2 ^ 32
    → (is_valid_gw4 addr mask gw ≡ true) ↔ IsGateway addr mask gw
unfolding is_valid_gw4
is_valid_gw4_iff addr mask gw ha hm hg = (λ h. sound h, λ v. complete v)
  where
    host : ℕ → ℕ
    host a = bit_and (complement mask) a

    sound : is_valid_gw4 addr mask gw ≡ true → IsGateway addr mask gw
    sound h = ground (
      arith,
      parts mask addr hm ha,
      parts mask gw hm hg,
      xor_test (host addr) (host gw),
      xor_test (complement mask) (host gw),
      xor_test (bit_and mask addr) (bit_and mask gw),
    )

    complete : IsGateway addr mask gw → is_valid_gw4 addr mask gw ≡ true
    complete v = ground (
      arith,
      parts mask 0 hm (omega arith),
      parts mask addr hm ha,
      parts mask gw hm hg,
      xor_test (host addr) (host gw),
      xor_test (complement mask) (host gw),
      xor_test (bit_and mask addr) (bit_and mask gw),
    )

-- For words of 32 bits the check accepts exactly the word with the network part of `addr` and
-- all host bits set, where there is a mask and `addr` has a host part.
is_valid_bcast4_iff :
    (addr mask bcast : ℕ)
    → addr < 2 ^ 32
    → mask < 2 ^ 32
    → bcast < 2 ^ 32
    → (is_valid_bcast4 addr mask bcast ≡ true) ↔ (
        (mask ≢ 0)
        × (bit_and (complement mask) addr ≢ 0)
        × (bcast ≡ bit_and mask addr + complement mask))
unfolding is_valid_bcast4
is_valid_bcast4_iff addr mask bcast ha hm hb = (λ h. sound h, λ v. complete v)
  where
    sound :
        is_valid_bcast4 addr mask bcast ≡ true
        → (mask ≢ 0)
          × (bit_and (complement mask) addr ≢ 0)
          × (bcast ≡ bit_and mask addr + complement mask)
    sound h = ground (
      arith,
      parts mask bcast hm hb,
      xor_test (complement mask) (bit_and (complement mask) bcast),
      xor_test (bit_and mask addr) (bit_and mask bcast),
    )

    complete :
        (mask ≢ 0)
          × (bit_and (complement mask) addr ≢ 0)
          × (bcast ≡ bit_and mask addr + complement mask)
        → is_valid_bcast4 addr mask bcast ≡ true
    complete v =
        let all_ones = bit_and-broadcast 32 mask (complement mask) addr (omega arith) in
        let net = rw (← v.2) at all_ones.0 in
        let hosts = rw (← v.2) at all_ones.1 in
        let short : complement mask ≢ 0 = λ e. v.1 (rw e (zero-bit_and addr)) in
        ground (
          arith,
          parts mask addr hm ha,
          parts mask 0 hm (omega arith),
          net,
          hosts,
          xor_test (complement mask) (bit_and (complement mask) bcast),
          xor_test (bit_and mask addr) (bit_and mask bcast),
        )

-- For words of 32 bits, no word that is a valid broadcast address of an address and a mask is
-- a valid gateway of them.
is_valid_bcast4-not_gw4 :
    (addr mask x : ℕ)
    → addr < 2 ^ 32
    → mask < 2 ^ 32
    → x < 2 ^ 32
    → is_valid_bcast4 addr mask x ≡ true
    → is_valid_gw4 addr mask x ≡ false
is_valid_bcast4-not_gw4 addr mask x ha hm hx b = elim (Bool-cases (is_valid_gw4 addr mask x)) [
  | inl g ↦
      let v = (is_valid_bcast4_iff addr mask x ha hm hx).0 b in
      let w = (is_valid_gw4_iff addr mask x ha hm hx).0 g in
      absurd (w.not_bcast (omega (arith, parts mask x hm hx, w.same_net, v.2)))
  | inr n ↦ n
]

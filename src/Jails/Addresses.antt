-- ===== src/Jails/Addresses.antt =====
-- The addresses that GetJailParams reads and GetJailJson writes (src/jailparam.cpp), and the fuel of
-- getJails (src/tool.cpp).
use text.Mathlib.Text.{◌==◌ as str_eq}
use nmdaemon.Jails.{
  Params, Jail, has_value, value_at, get_jail_params, get_jails, push_all, address_entries,
}
use nmdaemon.Json.{Json}
use nmdaemon.Keys.{json_param_ipv4_addr, json_param_ipv6_addr}
use nmdaemon.Platform.{Platform}
use nmdaemon.Prelude.{
  ℕ, zero, suc, ◌<◌, ◌≤◌, ◌≡◌, refl, ap, arith, String, Bool, true, Option, is_some, List, [], ◌∷◌,
  all, all-append, if_elim, Option-cases, length, inl, inr,
}
use nmdaemon.Text.{Text}

-- A jail without an IPv4 address gets no IPv6 address, whatever value the jail library has for its
-- IPv6 addresses, where the library knows the parameter of the IPv4 addresses.
get_jail_params_without_ip4 :
    (os : Platform) (ip6_ok : Bool) (p : Params)
    → value_at 0 p.addresses ≡ []
    → (get_jail_params os true ip6_ok p).ipv6_addresses ≡ []
unfolding get_jail_params has_value
get_jail_params_without_ip4 os ip6_ok p h = ground (arith, h)

-- A list of jails that has used up less than the fuel does not change with more of it.
get_jails-enough :
    (os : Platform) (ip4_ok ip6_ok : Bool) (jailparam_get : ℕ → Option Params) (n m lastjid : ℕ)
    → length (get_jails os ip4_ok ip6_ok jailparam_get n lastjid) < n
    → n ≤ m
    → get_jails os ip4_ok ip6_ok jailparam_get m lastjid
      ≡ get_jails os ip4_ok ip6_ok jailparam_get n lastjid
unfolding get_jails
get_jails-enough os ip4_ok ip6_ok jailparam_get zero m lastjid h h' = absurd (omega (arith, h))
get_jails-enough os ip4_ok ip6_ok jailparam_get (suc n) zero lastjid h h' =
    absurd (omega (arith, h'))
get_jails-enough os ip4_ok ip6_ok jailparam_get (suc n) (suc m) lastjid h h' =
    elim (Option-cases (jailparam_get lastjid)) [
      | inl e ↦ rw (e, get_jails) refl
      | inr (p, e) ↦
          rw (e, get_jails)
            (ap (◌∷◌ (get_jail_params os ip4_ok ip6_ok p)) (
              get_jails-enough os ip4_ok ip6_ok jailparam_get n m p.jid
                (omega (arith, rw (e, get_jails) at h)) (omega (arith, h'))))
    ]

module _ (js : Json) (of_int : ℕ → js.Value) where
  open js use {Value, null, insert, find, of_text}

  -- j.contains(k)
  pub has_key : String → Value → Bool
  has_key k v = is_some (find k v)

  has_key-insert :
      (k l : String) (v j : Value)
      → js.is_keyed j ≡ true
      → has_key l j ≡ true
      → has_key l (insert k v j) ≡ true
  unfolding has_key
  has_key-insert k l v j keyed h =
      rw (js.find-insert k l v j keyed)
        (if_elim (λ (o : Option Value). is_some o ≡ true) (str_eq k l) (λ e. refl) (λ e. h))

  has_key-first :
      (s : Text)
      → has_key json_param_ipv4_addr (insert json_param_ipv4_addr (of_text s) null) ≡ true
  unfolding has_key
  has_key-first s =
      rw
        (js.find-insert json_param_ipv4_addr json_param_ipv4_addr (of_text s) null js.is_keyed-null)
        refl

  -- The keys of `addr` are in all that push_all writes, and in what it leaves.
  push_all-has_key :
      (k l : String) (ss : List Text) (addr : Value)
      → js.is_keyed addr ≡ true
      → has_key l addr ≡ true
      → (all (has_key l) (push_all js of_int k ss addr).0 ≡ true)
        × (js.is_keyed (push_all js of_int k ss addr).1 ≡ true)
        × (has_key l (push_all js of_int k ss addr).1 ≡ true)
  unfolding push_all
  push_all-has_key k l [] addr keyed h = (refl, keyed, h)
  push_all-has_key k l (s ∷ ss) addr keyed h =
      let keyed' = js.is_keyed-insert k (of_text s) addr keyed in
      let h' = has_key-insert k l (of_text s) addr keyed h in
      let rest = push_all-has_key k l ss (insert k (of_text s) addr) keyed' h' in
      (ground (arith, h', rest.0), rest.1, rest.2)

  -- Where a jail has an IPv4 address, each value of its list of addresses has one, also each value
  -- for an IPv6 address.
  pub address_entries_with_ip4 :
      (j : Jail) (s : Text) (ss : List Text)
      → j.ipv4_addresses ≡ s ∷ ss
      → all (has_key json_param_ipv4_addr) (address_entries js of_int j) ≡ true
  unfolding address_entries push_all
  address_entries_with_ip4 j s ss e =
      let keyed = js.is_keyed-insert json_param_ipv4_addr (of_text s) null js.is_keyed-null in
      let first = has_key-first s in
      let four =
        push_all-has_key json_param_ipv4_addr json_param_ipv4_addr ss
          (insert json_param_ipv4_addr (of_text s) null) keyed first in
      let six =
        push_all-has_key json_param_ipv6_addr json_param_ipv4_addr j.ipv6_addresses
          (push_all js of_int json_param_ipv4_addr ss
            (insert json_param_ipv4_addr (of_text s) null)).1
          four.1 four.2 in
      rw e (
        all-append (has_key json_param_ipv4_addr)
          (push_all js of_int json_param_ipv4_addr (s ∷ ss) null).0
          (push_all js of_int json_param_ipv6_addr j.ipv6_addresses
            (push_all js of_int json_param_ipv4_addr (s ∷ ss) null).1).0
          (ground (arith, first, four.0)) six.0)

-- ===== src/Tool/FromJson/Masks.antt =====
-- The group that getAddrFromJson (src/tool.cpp) makes of an IPv4 address and its mask.
use nmdaemon.Address.{Address, ip4_of_text}
use nmdaemon.Group.{Group, unknown, make}
use nmdaemon.Json.{Json}
use nmdaemon.Keys.{
  json_param_data, json_param_ipv4_addr, json_param_ipv4_mask, json_param_ipv6_bcast,
  json_param_ipv4_gw,
}
use nmdaemon.Platform.{Platform}
use nmdaemon.Prelude.{
  ℕ, Option, none, some, Result, ok, throw, fault, ◌>>=◌, [], ◌∷◌, ◌≡◌, ◌≢◌, refl, arith,
  Option-cases, inl, inr,
}
use nmdaemon.Text.{Text}
use nmdaemon.Tool.FromJson.{null_on_throw, get_addr_from_json}

module _ (js : Json) (os : Platform) where
  open js use {Value, find, text}

  -- By the text of the mask.
  unfoldable pub with_text : Address → Option Text → Option Group
  with_text x none = none
  with_text x (some []) = some (make (some x) none none unknown)
  with_text x (some (c ∷ s)) =
      null_on_throw (ip4_of_text os (c ∷ s) >>= λ y. ok (make (some x) (some y) none unknown))

  -- By the value of the mask.
  unfoldable pub with_mask : Address → Option Value → Option Group
  unfolding with_text
  with_mask x none = some (make (some x) none none unknown)
  with_mask x (some m) = with_text x (text m)

  abbrev pub IsMaskedOrNull : Address → Option Group → Type 0
  IsMaskedOrNull x none = Unit
  IsMaskedOrNull x (some g) = (y : Address) × (g ≡ make (some x) (some y) none unknown)

  -- Where the mask has a text, the group has it, or there is none.
  pub with_text-cases :
      (x : Address) (b : ℕ) (s : Text) → IsMaskedOrNull x (with_text x (some (b ∷ s)))
  unfolding with_text
  with_text-cases x b s = masked (ip4_of_text os (b ∷ s))
    where
      masked :
          (r : Result Address)
          → IsMaskedOrNull x (null_on_throw (r >>= λ y. ok (make (some x) (some y) none unknown)))
      masked (ok y) = (y, refl)
      masked throw = tt
      masked fault = tt

  -- A DATA section with an IPv4 address, and neither a broadcast address nor a gateway.
  pub get_addr_from_json-with_mask :
      (j d v : Value) (a : Text) (x : Address)
      → find json_param_data j ≡ some d
      → find json_param_ipv4_addr d ≡ some v
      → text v ≡ some a
      → a ≢ []
      → ip4_of_text os a ≡ ok x
      → find json_param_ipv6_bcast d ≡ none
      → find json_param_ipv4_gw d ≡ none
      → get_addr_from_json js os j ≡ with_mask x (find json_param_ipv4_mask d)
  unfolding get_addr_from_json with_mask with_text
  get_addr_from_json-with_mask j d v [] x ed ea et na ex eb ew = absurd (na refl)
  get_addr_from_json-with_mask j d v (c ∷ a) x ed ea et na ex eb ew =
      by_mask (find json_param_ipv4_mask d) refl
    where
      by_address :
          (m : Value) (b : ℕ) (s : Text) (r : Result Address)
          → find json_param_ipv4_mask d ≡ some m
          → text m ≡ some (b ∷ s)
          → ip4_of_text os (b ∷ s) ≡ r
          → get_addr_from_json js os j ≡ with_mask x (some m)
      by_address m b s (ok y) em e q = ground (arith, ed, ea, et, ex, eb, ew, em, e, q)
      by_address m b s throw em e q = ground (arith, ed, ea, et, ex, eb, ew, em, e, q)
      by_address m b s fault em e q = ground (arith, ed, ea, et, ex, eb, ew, em, e, q)

      by_text :
          (m : Value) (s : Text)
          → find json_param_ipv4_mask d ≡ some m
          → text m ≡ some s
          → get_addr_from_json js os j ≡ with_mask x (some m)
      by_text m [] em e = ground (arith, ed, ea, et, ex, eb, ew, em, e)
      by_text m (b ∷ s) em e = by_address m b s (ip4_of_text os (b ∷ s)) em e refl

      by_mask :
          (o : Option Value)
          → find json_param_ipv4_mask d ≡ o
          → get_addr_from_json js os j ≡ with_mask x o
      by_mask none em = ground (arith, ed, ea, et, ex, eb, ew, em)
      by_mask (some m) em = elim (Option-cases (text m)) [
        | inl e ↦ ground (arith, ed, ea, et, ex, eb, ew, em, e)
        | inr (s, e) ↦ by_text m s em e
      ]

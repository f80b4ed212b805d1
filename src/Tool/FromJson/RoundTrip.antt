-- ===== src/Tool/FromJson/RoundTrip.antt =====
-- Reading back the JSON that AddressGroup::getAddrJson writes for an IPv4 address.
use text.Mathlib.Text.{◌==◌ as str_eq}
use nmdaemon.Address.{Address, get_family, get_str_addr, ip4_of_text}
use nmdaemon.Group.Print.{data_json}
use nmdaemon.Group.{bcast, ppp, unknown, make}
use nmdaemon.Json.{Json}
use nmdaemon.Keys.{
  json_param_data, json_param_ipv4_addr, json_param_ipv4_mask, json_param_ipv6_bcast,
  json_param_ipv4_gw,
}
use nmdaemon.Platform.{inet, Platform}
use nmdaemon.Prelude.{String, none, some, ok, [], ◌∷◌, if◌then◌else◌, ◌≡◌, ◌≢◌, refl, ◌∙◌, arith}
use nmdaemon.Text.{Text}
use nmdaemon.Tool.FromJson.{get_addr_from_json}

module _ (js : Json) (os : Platform) where
  open js use {
    Value, null, of_text, find, insert, text, find-null, find-insert, is_keyed-null,
    is_keyed-insert, text-of_text,
  }

  -- An object of three fields.
  find-three :
      (k l m n : String) (u v w : Value)
      → find n (insert k u (insert l v (insert m w null))) ≡ (
          if str_eq k n
          then some u
          else if str_eq l n
          then some v
          else if str_eq m n
          then some w
          else none)
  find-three k l m n u v w =
      let keyed1 = is_keyed-insert m w null is_keyed-null in
      let keyed2 = is_keyed-insert l v _ keyed1 in
      find-insert k n u _ keyed2
      ∙ rw (
        find-insert l n v (insert m w null) keyed1,
        find-insert m n w null is_keyed-null,
        find-null n,
      )

  abbrev command : Value → Value
  command j = insert json_param_data j null

  find-command : (j : Value) → find json_param_data (command j) ≡ some j
  find-command j = find-insert json_param_data json_param_data j null is_keyed-null

  -- A DATA section with an address, a mask and a gateway, and no broadcast address.
  read_gateway :
      (j : Value) (a m w : Text) (x y z : Address)
      → find json_param_ipv4_addr j ≡ some (of_text a)
      → find json_param_ipv4_mask j ≡ some (of_text m)
      → find json_param_ipv6_bcast j ≡ none
      → find json_param_ipv4_gw j ≡ some (of_text w)
      → a ≢ []
      → m ≢ []
      → w ≢ []
      → ip4_of_text os a ≡ ok x
      → ip4_of_text os m ≡ ok y
      → ip4_of_text os w ≡ ok z
      → get_addr_from_json js os (command j) ≡ some (make (some x) (some y) (some z) ppp)
  unfolding get_addr_from_json
  read_gateway j (a ∷ a') (m ∷ m') (w ∷ w') x y z fa fm fb fw na nm nw ea em ew =
      ground
        (arith, find-command j, text-of_text (a ∷ a'), text-of_text (m ∷ m'), text-of_text (w ∷ w'))
  read_gateway j [] m w x y z fa fm fb fw na nm nw ea em ew = absurd (na refl)
  read_gateway j (a ∷ a') [] w x y z fa fm fb fw na nm nw ea em ew = absurd (nm refl)
  read_gateway j (a ∷ a') (m ∷ m') [] x y z fa fm fb fw na nm nw ea em ew = absurd (nw refl)

  str-ip4 :
      (s : Text) (a : Address)
      → ip4_of_text os s ≡ ok a
      → (get_str_addr a ≡ s) × (get_family a ≡ inet)
  unfolding ip4_of_text get_str_addr get_family
  str-ip4 s a h = ground arith

  -- The same with neither of the two keys that choose a type.
  read_plain :
      (j : Value) (a m : Text) (x y : Address)
      → find json_param_ipv4_addr j ≡ some (of_text a)
      → find json_param_ipv4_mask j ≡ some (of_text m)
      → find json_param_ipv6_bcast j ≡ none
      → find json_param_ipv4_gw j ≡ none
      → a ≢ []
      → m ≢ []
      → ip4_of_text os a ≡ ok x
      → ip4_of_text os m ≡ ok y
      → get_addr_from_json js os (command j) ≡ some (make (some x) (some y) none unknown)
  unfolding get_addr_from_json
  read_plain j (a ∷ a') (m ∷ m') x y fa fm fb fw na nm ea em =
      ground (arith, find-command j, text-of_text (a ∷ a'), text-of_text (m ∷ m'))
  read_plain j [] m x y fa fm fb fw na nm ea em = absurd (na refl)
  read_plain j (a ∷ a') [] x y fa fm fb fw na nm ea em = absurd (nm refl)

  -- What getAddrJson writes as the data of a point-to-point IPv4 group, read as the DATA of a
  -- command, gives the group back: each of its three addresses was made from a text that is not
  -- empty, and its flags are the constructor's defaults.
  pub get_addr_from_json-data_json :
      (a m w : Text) (x y z : Address)
      → a ≢ []
      → m ≢ []
      → w ≢ []
      → ip4_of_text os a ≡ ok x
      → ip4_of_text os m ≡ ok y
      → ip4_of_text os w ≡ ok z
      → get_addr_from_json js os (command (data_json js (make (some x) (some y) (some z) ppp) x))
        ≡ some (make (some x) (some y) (some z) ppp)
  unfolding data_json
  get_addr_from_json-data_json a m w x y z na nm nw ea em ew =
      rw ((str-ip4 a x ea).1, (str-ip4 a x ea).0, (str-ip4 m y em).0, (str-ip4 w z ew).0)
        (read_gateway _ a m w x y z (find-three _ _ _ _ _ _ _) (find-three _ _ _ _ _ _ _)
          (find-three _ _ _ _ _ _ _) (find-three _ _ _ _ _ _ _) na nm nw ea em ew)

  -- What it writes for an IPv4 group with a broadcast address is read back without that
  -- address and with type UNKNOWN: the three addresses were made from texts, those of the
  -- address and the mask are not empty, and the group's other fields are the constructor's
  -- defaults.
  pub get_addr_from_json-bcast4 :
      (a m b : Text) (x y z : Address)
      → a ≢ []
      → m ≢ []
      → ip4_of_text os a ≡ ok x
      → ip4_of_text os m ≡ ok y
      → ip4_of_text os b ≡ ok z
      → get_addr_from_json js os (command (data_json js (make (some x) (some y) (some z) bcast) x))
        ≡ some (make (some x) (some y) none unknown)
  unfolding data_json
  get_addr_from_json-bcast4 a m b x y z na nm ea em eb =
      rw ((str-ip4 a x ea).1, (str-ip4 a x ea).0, (str-ip4 m y em).0)
        (read_plain _ a m x y (find-three _ _ _ _ _ _ _) (find-three _ _ _ _ _ _ _)
          (find-three _ _ _ _ _ _ _) (find-three _ _ _ _ _ _ _) na nm ea em)

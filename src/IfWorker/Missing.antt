-- ===== src/IfWorker/Missing.antt =====
-- execCmdIpAddrAdd of NmWorkerIf (src/nmworkerif.cpp) and requests without a mask.
use nmdaemon.Address.{Address, ip4_of_text}
use nmdaemon.Exec.{pure, lift, ◌>>=◌}
use nmdaemon.Fields.{text_field}
use nmdaemon.Group.{Group}
use nmdaemon.IfWorker.Addresses.{add_pair, add_if_addr, add_new, add_group, exec_cmd_ip_addr_add}
use nmdaemon.IfWorker.{Ifaces, call, answer}
use nmdaemon.IfWorker.Named.{with_name-at}
use nmdaemon.Json.{Json}
use nmdaemon.Keys.{
  json_param_data, json_param_if_name, json_param_ipv4_addr, json_param_ipv4_mask,
  json_param_ipv6_bcast, json_param_ipv4_gw,
}
use nmdaemon.Platform.{Platform}
use nmdaemon.Prelude.{
  ◌≢◌, ok, [], ◌∷◌, ◌≡◌, refl, ◌&&◌, ◌↔◌, arith, true, false, Option, none, some, is_some, fault,
}
use nmdaemon.Text.{Text}
use nmdaemon.Tool.FromJson.Masks.{
  with_text, with_mask, IsMaskedOrNull, with_text-cases, get_addr_from_json-with_mask,
}
use nmdaemon.Tool.Names.{is_valid_if_name}

module _ {K : Type 0} (w : Ifaces K) (js : Json) where
  open js use {Value, find, text}

  -- A value that is missing or the empty text.
  abbrev pub IsUnset : Option Value → Type 0
  IsUnset none = Unit
  IsUnset (some m) = text m ≡ some []

  module _ (os : Platform) where
    pair-fault :
        (name : Text) (a m : Option Address) (k : K)
        → ((add_pair w os name a m >>= answer js) k).0 ≡ fault ↔ (is_some a && is_some m ≡ false)
    unfolding add_pair ◌>>=◌ lift call answer pure
    pair-fault name (some a) (some m) k =
        (λ e. absurd (ground (arith, e)), λ e. absurd (ground (arith, e)))
    pair-fault name none m k = (λ e. refl, λ e. refl)
    pair-fault name (some a) none k = (λ e. refl, λ e. refl)

    group_returns :
        (name : Text) (x : Address) (o : Option Group) (k : K)
        → IsMaskedOrNull js os x o
        → (add_group w os js name o k).0 ≢ fault
    unfolding add_group add_new add_if_addr add_pair ◌>>=◌ call answer pure
    group_returns name x none k h e = absurd (ground (arith, e))
    group_returns name x (some g) k (y, q) e = absurd (ground (arith, e, q))

    text-fault :
        (name : Text) (x : Address) (t : Option Text) (k : K)
        → ((add_group w os js name (with_text js os x t) k).0 ≡ fault) ↔ (t ≡ some [])
    unfolding add_group add_new add_if_addr with_text answer pure
    text-fault name x none k = (λ e. absurd (ground (arith, e)), λ e. cc)
    text-fault name x (some []) k = (λ e. refl, λ e. (pair-fault name (some x) none k).1 refl)
    text-fault name x (some (b ∷ s)) k = (
      λ e. absurd (
          group_returns name x (with_text js os x (some (b ∷ s))) k (with_text-cases js os x b s)
            e),
      λ e. cc,
    )

    mask-fault :
        (name : Text) (x : Address) (o : Option Value) (k : K)
        → ((add_group w os js name (with_mask js os x o) k).0 ≡ fault) ↔ IsUnset o
    unfolding add_group add_new add_if_addr with_mask
    mask-fault name x none k = (λ e. tt, λ u. (pair-fault name (some x) none k).1 refl)
    mask-fault name x (some m) k = text-fault name x (text m) k

    -- For a request with a valid interface name and in its DATA an IPv4 address that inet_pton
    -- accepts, and neither a gateway nor the broadcast address that getAddrFromJson asks for,
    -- execCmdIpAddrAdd uses a null pointer exactly where the mask is missing or an empty text.
    pub exec_cmd_ip_addr_add-fault_iff :
        (j d v : Value) (name a : Text) (x : Address) (k : K)
        → text_field js json_param_if_name j ≡ some name
        → is_valid_if_name name ≡ true
        → find json_param_data j ≡ some d
        → find json_param_ipv4_addr d ≡ some v
        → text v ≡ some a
        → a ≢ []
        → ip4_of_text os a ≡ ok x
        → find json_param_ipv6_bcast d ≡ none
        → find json_param_ipv4_gw d ≡ none
        → ((exec_cmd_ip_addr_add w os js j k).0 ≡ fault) ↔ IsUnset (find json_param_ipv4_mask d)
    unfolding exec_cmd_ip_addr_add
    exec_cmd_ip_addr_add-fault_iff j d v name a x k h valid ed ea et na ex eb ew =
        rw (with_name-at js j name _ h valid) (
          rw (get_addr_from_json-with_mask js os j d v a x ed ea et na ex eb ew)
            (mask-fault name x (find json_param_ipv4_mask d) k))

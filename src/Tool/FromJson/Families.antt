-- ===== src/Tool/FromJson/Families.antt =====
-- Which groups getAddrFromJson can return.
use nmdaemon.Address.{Address, ip4, ip6, get_family, ip4_of_text, ip6_of_text}
use nmdaemon.Group.FromIfaddrs.Families.{Within}
use nmdaemon.Group.{Group, make}
use nmdaemon.Json.{Json}
use nmdaemon.Keys.{json_param_data}
use nmdaemon.Platform.{Family, inet, inet6, Platform}
use nmdaemon.Prelude.{
  ℕ, Bool, true, false, not, ◌&&◌, Option, none, some, Result, ok, throw, fault, or_throw, [], ◌∷◌,
  if◌then◌else◌, ◌≡◌, ◌⊎◌, inl, inr, refl, ap, arith, Ensures, Ensures-bind, Ensures-ok, Bool-cases,
  Option-cases, subst,
}
use nmdaemon.Text.{Text, c_str, is_empty}
use nmdaemon.Tool.FromJson.{
  Params, optional_address, extra_address, is_bcast_type, is_gw_type, make_group, null_on_throw,
  of_text, of_params, of_read, of_family, of_data, read_family, data_family, get_addr_from_json,
}

-- All addresses of the group are of family `f`, and nothing is set beyond them.
pub record IsPlain (f : Family) (g : Group) : Type 0 where
  pub address : Within f g.address
  pub mask : Within f g.mask
  pub extra : Within f g.extra

ip4_sound : (os : Platform) (s : Text) → Ensures (λ a. get_family a ≡ inet) (ip4_of_text os s)
unfolding ip4_of_text get_family
ip4_sound os s =
    Ensures-bind (λ a. get_family a ≡ inet) (or_throw (os.inet_pton4 (c_str s)))
      (λ n. ok (parsed n)) (λ n e. refl)
  where
    parsed : ℕ → Address
    parsed n = ip4 (record { family = inet; sin_addr = n; sin6_addr = 0 }) s

ip6_sound : (os : Platform) (s : Text) → Ensures (λ a. get_family a ≡ inet6) (ip6_of_text os s)
unfolding ip6_of_text get_family
ip6_sound os s =
    Ensures-bind (λ a. get_family a ≡ inet6) (or_throw (os.inet_pton6 (c_str s)))
      (λ n. ok (parsed n)) (λ n e. refl)
  where
    parsed : ℕ → Address
    parsed n = ip6 (record { family = inet6; sin_addr = 0; sin6_addr = n }) s

module _ (f : Family) (conv : Text → Result Address)
    (sound : (s : Text) → Ensures (λ a. get_family a ≡ f) (conv s)) where
  optional-Within : (s : Text) → Ensures (Within f) (optional_address conv s)
  unfolding optional_address
  optional-Within [] = inl refl
  optional-Within (c ∷ s) =
      Ensures-bind (Within f) (conv (c ∷ s)) (λ a. ok (some a))
        λ a made. inr (ap some (Ensures-ok (λ b. get_family b ≡ f) _ (sound (c ∷ s)) made))

  chosen-Within :
      (b c : Bool) (s t : Text)
      → Ensures
          (Within f)
          (if b then optional_address conv s else if c then optional_address conv t else ok none)
  chosen-Within true c s t = optional-Within s
  chosen-Within false true s t = optional-Within t
  chosen-Within false false s t = inl refl

  extra-Within : (p : Params) → Ensures (Within f) (extra_address conv p)
  unfolding extra_address
  extra-Within p =
      chosen-Within (is_bcast_type p.type && not (is_empty p.bcast))
        (is_gw_type p.type && not (is_empty p.gw)) p.bcast p.gw

  make_group-IsPlain : (p : Params) → Ensures (IsPlain f) (make_group conv p)
  unfolding make_group
  make_group-IsPlain p = Ensures-bind (IsPlain f) (optional_address conv p.addr) _ λ a ea.
      Ensures-bind (IsPlain f) (optional_address conv p.mask) _ λ m em.
        Ensures-bind (IsPlain f) (extra_address conv p) (λ d. ok (make a m d p.type))
          λ d ed.
            let g : IsPlain f (make a m d p.type) = record {
              address = Ensures-ok (Within f) _ (optional-Within p.addr) ea;
              mask = Ensures-ok (Within f) _ (optional-Within p.mask) em;
              extra = Ensures-ok (Within f) _ (extra-Within p) ed;
            } in
            g

abbrev Reads : Family → Option Group → Type 0
Reads f none = Unit
Reads f (some g) = IsPlain f g

module _ (js : Json) (os : Platform) where
  open js use {Value, find}

  of_text_sound :
      (f : Family) (s : Text)
      → (f ≡ inet) ⊎ (f ≡ inet6)
      → Ensures (λ a. get_family a ≡ f) (of_text js os f s)
  unfolding of_text
  of_text_sound inet s h = ip4_sound os s
  of_text_sound inet6 s h = ip6_sound os s
  of_text_sound Family.link s h = absurd (ground arith)
  of_text_sound (Family.other n) s h = absurd (ground arith)

  null_on_throw-Reads :
      (f : Family) (r : Result Group) → Ensures (IsPlain f) r → Reads f (null_on_throw r)
  null_on_throw-Reads f (ok g) h = h
  null_on_throw-Reads f throw h = tt
  null_on_throw-Reads f fault h = tt

  of_read-Reads :
      (f : Family) (r : Result Params) → (f ≡ inet) ⊎ (f ≡ inet6) → Reads f (of_read js os f r)
  unfolding of_read of_params
  of_read-Reads f (ok p) h =
      elim (Bool-cases (is_empty p.addr && is_empty p.mask && is_empty p.gw && is_empty p.bcast)) [
        | inl e ↦ rw e tt
        | inr e ↦ rw e (
            null_on_throw-Reads f _
              (make_group-IsPlain f (of_text js os f) (λ s. of_text_sound f s h) p))
      ]
  of_read-Reads f throw h = tt
  of_read-Reads f fault h = tt

  chosen-ip :
      (b c : Bool) (f : Family)
      → (if b then some inet else if c then some inet6 else none) ≡ some f
      → (f ≡ inet) ⊎ (f ≡ inet6)
  chosen-ip true c f h = inl (ground arith)
  chosen-ip false true f h = inr (ground arith)
  chosen-ip false false f h = cc

  data_family-ip : (j : Value) (f : Family) → data_family js j ≡ some f → (f ≡ inet) ⊎ (f ≡ inet6)
  unfolding data_family
  data_family-ip j f h = chosen-ip _ _ f h

  of_data-IsPlain :
      (o : Option Value) (g : Group)
      → of_data js os o ≡ some g
      → (j : Value) × (f : Family) × (o ≡ some j) × (data_family js j ≡ some f) × IsPlain f g
  unfolding of_data
  of_data-IsPlain none g h = cc
  of_data-IsPlain (some j) g h = elim (Option-cases (data_family js j)) [
    | inl e ↦ absurd (unfold of_family in cc (rw e at h))
    | inr (f, e) ↦
        let r : of_read js os f (read_family js f j) ≡ some g = unfold of_family in rw e at h in
        let kept = of_read-Reads f (read_family js f j) (data_family-ip j f e) in
        (j, f, refl, e, subst (Reads f) r kept)
  ]

  -- Whatever getAddrFromJson returns is of the family that the keys of the DATA section name, in
  -- its address, its mask and its broadcast address or gateway.
  pub get_addr_from_json-IsPlain :
      (cmd : Value) (g : Group)
      → get_addr_from_json js os cmd ≡ some g
      → (j : Value) × (f : Family) × (find json_param_data cmd ≡ some j)
        × (data_family js j ≡ some f)
        × IsPlain f g
  unfolding get_addr_from_json
  get_addr_from_json-IsPlain cmd g h = of_data-IsPlain (find json_param_data cmd) g h

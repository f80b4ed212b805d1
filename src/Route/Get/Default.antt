-- ===== src/Route/Get/Default.antt =====
-- What getStaticRoute makes of the kernel's answer, and what is deleted with the default route.
use nmdaemon.Address.{Address}
use nmdaemon.Group.{Group}
use nmdaemon.Interface.{Interface, add_group}
use nmdaemon.Platform.{Platform}
use nmdaemon.Prelude.{
  ◌≡◌, refl, not, Option, none, some, ok, Ensures, Ensures-bind, Ensures-ok, ◌==◌, if_elim,
}
use nmdaemon.Route.Get.{
  Reply, current_version, address_of, mask_of, host_mask, default_mask, with_route, with_gateway,
  decode_reply,
}

module _ (os : Platform) where
  IsNullptr : Option (Interface × Group) → Type 0
  IsNullptr o = o ≡ none

  null_gateway :
      (g : Group) (m : Option Address) (r : Reply) (gw : Option Address)
      → Ensures IsNullptr (with_gateway os g none m r gw)
  unfolding with_gateway IsNullptr with_route add_group
  null_gateway g m r none = refl
  null_gateway g m r (some gw) =
      Ensures-bind IsNullptr (host_mask os r r.netmask m) _
        (λ m' e. Ensures-bind IsNullptr (default_mask os none r.netmask m') _ (λ m'' e'. tt))

  null_reply : (g : Group) (r : Reply) → r.dst ≡ none → Ensures IsNullptr (decode_reply os g r)
  unfolding decode_reply IsNullptr address_of
  null_reply g r e =
      if_elim (Ensures IsNullptr) (not (r.rtm_version == current_version)) (λ a. refl)
        (λ a.
          if_elim (Ensures IsNullptr) (not (r.rtm_errno == 0)) (λ b. refl)
            (λ b. rw e (
              Ensures-bind IsNullptr (address_of os r.gateway) _ (λ gw e'.
                Ensures-bind IsNullptr (mask_of os r.netmask) _ (λ m e''. null_gateway g m r gw)))))

  -- From an answer of the kernel without a destination getStaticRoute makes no route: where it
  -- returns, it returns a null pointer.
  pub decode_reply_without_dst :
      (g : Group) (r : Reply) {o : Option (Interface × Group)}
      → r.dst ≡ none
      → decode_reply os g r ≡ ok o
      → o ≡ none
  unfolding IsNullptr
  decode_reply_without_dst g r e h = Ensures-ok IsNullptr (decode_reply os g r) (null_reply g r e) h

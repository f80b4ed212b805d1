-- ===== src/Interface/Choice.antt =====
-- The addresses that findPrimaryAndJailAddress chooses as primary.
use nmdaemon.Address.{get_str_addr}
use nmdaemon.Interface.{
  Surroundings, Entry, is_free, jail_addrs, is_in, choose4, if_found, first_addr, preferred,
}
use nmdaemon.Platform.{Family, inet}
use nmdaemon.Prelude.{
  ◌≡◌, refl, sym, subst, ◌∙◌, inl, inr, arith, Bool, true, false, not, ◌&&◌, List, [], ◌∷◌, any,
  keep, if◌then◌else◌, Bool-cases,
}
use nmdaemon.Text.{Text, is_empty, text_eq, text_eq_iff}
use nmdaemon.Interface.Entries.{any-keep}

-- The address chosen is that of a candidate.
unfoldable pub has_text : Text → Entry → Bool
unfolding text_eq get_str_addr
has_text s e = text_eq (get_str_addr e.1) s

if_found-any :
    (s : Text) (l : List Entry)
    → is_empty (if_found s l) ≡ false
    → any (has_text (if_found s l)) l ≡ true
unfolding if_found has_text
if_found-any s l h = elim (Bool-cases (any (has_text s) l)) [
  | inl t ↦ rw (t, t) refl
  | inr f ↦ absurd (go f)
]
  where
    go : any (has_text s) l ≡ false → ⊥
    go f = ground (arith, subst (λ b. is_empty (if b then s else []) ≡ false) f h)

pick :
    (Q : Text → Type 0) (b c : Bool) {x y z : Text}
    → Q x
    → Q y
    → Q z
    → Q (if b then x else if c then y else z)
pick Q true c x y z = x
pick Q false true x y z = y
pick Q false false x y z = z

or_else :
    (Q : Text → Type 0) (s : Text) {t : Text}
    → (is_empty s ≡ false → Q s)
    → Q t
    → Q (if is_empty s then t else s)
or_else Q [] f g = g
or_else Q (c ∷ s) f g = f refl

preferred-any :
    (env : Surroundings) (l : List Entry)
    → is_empty (preferred env l) ≡ false
    → any (has_text (preferred env l)) l ≡ true
unfolding preferred
preferred-any env l =
    pick (λ s. is_empty s ≡ false → any (has_text s) l ≡ true)
      (env.is_dhcp_enabled && not (is_empty env.lease)) (not (is_empty env.primary4))
      (if_found-any env.lease l) (if_found-any env.primary4 l) (λ h. absurd (ground (arith, h)))

choose4-any :
    (env : Surroundings) (e : Entry) (l : List Entry)
    → any (has_text (choose4 env (e ∷ l))) (e ∷ l) ≡ true
unfolding choose4 has_text first_addr
choose4-any env e l =
    or_else (λ s. any (has_text s) (e ∷ l) ≡ true) (preferred env (e ∷ l))
      (preferred-any env (e ∷ l))
      (rw ((text_eq_iff (get_str_addr e.1) (get_str_addr e.1)).1 refl) refl)

-- A text of a free entry is no jail's.
free-not_in :
    (f : Family) (jails : List Text) (s : Text) (es : List Entry)
    → any (λ e. is_free f jails e && has_text s e) es ≡ true
    → is_in jails s ≡ false
unfolding has_text
free-not_in f jails s [] h = absurd (ground (arith, h))
free-not_in f jails s (e ∷ es) h = elim (Bool-cases (is_free f jails e && has_text s e)) [
  | inl t ↦ own e t
  | inr n ↦ free-not_in f jails s es (ground (arith, h, n))
]
  where
    own : (e : Entry) → (is_free f jails e && has_text s e) ≡ true → is_in jails s ≡ false
    own e t =
        subst (λ x. is_in jails x ≡ false)
          ((text_eq_iff (get_str_addr e.1) s).0 (ground (arith, t))) (ground (arith, t))

choose4-nonempty :
    (env : Surroundings) (l : List Entry)
    → is_empty (choose4 env l) ≡ false
    → any (has_text (choose4 env l)) l ≡ true
choose4-nonempty env [] h = absurd (unfold choose4 in ground (arith, h))
choose4-nonempty env (e ∷ l) h = choose4-any env e l

abbrev pub jails_of : Surroundings → List Text
jails_of env = jail_addrs env.jails4

abbrev pub primary4_of : Surroundings → List Entry → Text
primary4_of env es = choose4 env (keep (is_free inet (jails_of env)) es)

-- A text that is not empty is not chosen where a jail has it.
pub primary4-not_in :
    (env : Surroundings) (es : List Entry)
    → is_empty (primary4_of env es) ≡ false
    → is_in (jails_of env) (primary4_of env es) ≡ false
primary4-not_in env es h = free-not_in inet (jails_of env) (primary4_of env es) es (
    sym (any-keep (is_free inet (jails_of env)) (has_text (primary4_of env es)) es)
    ∙ choose4-nonempty env (keep (is_free inet (jails_of env)) es) h)

keep-cons :
    {A : Type 0} (p : A → Bool) (xs : List A)
    → any p xs ≡ true
    → (x : A) × (ys : List A) × (keep p xs ≡ x ∷ ys)
keep-cons p [] h = absurd (ground (arith, h))
keep-cons p (x ∷ xs) h = elim (Bool-cases (p x)) [
  | inl t ↦ (x, keep p xs, rw t refl)
  | inr f ↦ rw f (keep-cons p xs (ground (arith, h, f)))
]

-- Where an IPv4 address is no jail's, such an address is chosen.
pub choose4-free :
    (env : Surroundings) (es : List Entry)
    → any (is_free inet (jails_of env)) es ≡ true
    → any (λ e. is_free inet (jails_of env) e && has_text (primary4_of env es) e) es ≡ true
choose4-free env es h =
    sym (any-keep (is_free inet (jails_of env)) (has_text (primary4_of env es)) es)
    ∙ go (keep-cons (is_free inet (jails_of env)) es h)
  where
    go :
        (e : Entry) × (l : List Entry) × (keep (is_free inet (jails_of env)) es ≡ e ∷ l)
        → any (has_text (primary4_of env es)) (keep (is_free inet (jails_of env)) es) ≡ true
    go (e, l, q) =
        subst (λ k. any (has_text (choose4 env k)) k ≡ true) (sym q) (choose4-any env e l)

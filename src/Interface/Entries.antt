-- ===== src/Interface/Entries.antt =====
-- The groups of an interface with their addresses, as the first loop of
-- findPrimaryAndJailAddress reads them.
use nmdaemon.Address.{Address, get_family, get_str_addr}
use nmdaemon.Group.{Group}
use nmdaemon.Interface.{
  Interface, Surroundings, Entry, entries, jail_addrs, is_in, mark_all, find_over,
}
use nmdaemon.Platform.{Family, inet, inet6, family_eq}
use nmdaemon.Prelude.{
  ◌≤◌, ◌≡◌, refl, sym, ap, arith, Bool, true, false, ◌&&◌, Option, none, some, Result, ok, ◌>>=◌,
  >>=-eq-ok, deref, List, [], ◌∷◌, map, any, keep, All, length, Ensures, Ensures-bind, Ensures-ok,
}
use nmdaemon.Text.{Text, is_empty}

unfoldable pub has_family : Family → Option Address → Bool
unfolding family_eq get_family
has_family f none = false
has_family f (some a) = family_eq (get_family a) f

unfoldable pub text_of : Option Address → Text
unfolding get_str_addr
text_of none = []
text_of (some a) = get_str_addr a

abbrev pub is_ipv4 : Group → Bool
is_ipv4 g = has_family inet g.address

abbrev pub is_ipv6 : Group → Bool
is_ipv6 g = has_family inet6 g.address

unfoldable pub in_jails : List (List Text) → Group → Bool
unfolding jail_addrs is_in text_of
in_jails jails g = is_in (jail_addrs jails) (text_of g.address)

-- A group as the constructors make it, with an address that has a text.
abbrev pub IsFresh : Group → Type 0
IsFresh g = (g.is_primary ≡ false) × (g.is_jail ≡ false) × (is_empty (text_of g.address) ≡ false)

-- The groups of the entries are those of the interface.
abbrev pub IsEntry : Entry → Type 0
IsEntry e = e.0.address ≡ some e.1

entries-Ensures :
    (gs : List Group) → Ensures (λ es. (map (λ e. e.0) es ≡ gs) × All IsEntry es) (entries gs)
unfolding entries
entries-Ensures [] = (refl, tt)
entries-Ensures (g ∷ gs) = at_address (entries-Ensures gs) g.address refl
  where
    Goal : List Entry → Type 0
    Goal es = (map (λ e. e.0) es ≡ g ∷ gs) × All IsEntry es

    at_address :
        Ensures (λ es. (map (λ e. e.0) es ≡ gs) × All IsEntry es) (entries gs)
        → (o : Option Address) → g.address ≡ o
        → Ensures Goal (deref o >>= λ a. entries gs >>= λ rest. ok ((g, a) ∷ rest))
    at_address h none e = tt
    at_address h (some a) e =
        Ensures-bind Goal (entries gs) (λ rest. ok ((g, a) ∷ rest))
          (λ rest q. go rest (Ensures-ok _ (entries gs) h q))
      where
        go :
            (rest : List Entry)
            → (map (λ e. e.0) rest ≡ gs) × All IsEntry rest
            → Goal ((g, a) ∷ rest)
        go rest q = (ap (◌∷◌ g) q.0, (e, q.1))

module _ {A B : Type 0} (f : A → B) (P : A → Type 0) (p : A → Bool) (r : B → Bool) where
  pub any-map-intro :
      (xs : List A)
      → All P xs
      → ((x : A) → P x → p x ≡ true → r (f x) ≡ true)
      → any p xs ≡ true
      → any r (map f xs) ≡ true
  any-map-intro [] w h e = e
  any-map-intro (x ∷ xs) w h e = ground (arith, h x w.0, any-map-intro xs w.1 h)

  pub any-map-elim :
      (xs : List A)
      → All P xs
      → ((x : A) → P x → r (f x) ≡ true → p x ≡ true)
      → any r (map f xs) ≡ true
      → any p xs ≡ true
  any-map-elim [] w h e = e
  any-map-elim (x ∷ xs) w h e = ground (arith, h x w.0, any-map-elim xs w.1 h)

pub any-keep :
    {A : Type 0} (p q : A → Bool) (xs : List A) → any q (keep p xs) ≡ any (λ x. p x && q x) xs
any-keep p q [] = refl
any-keep p q (x ∷ xs) = ground (arith, any-keep p q xs)

pub All-map :
    {A B : Type 0} (f : A → B) (P : A → Type 0) (Q : B → Type 0) (xs : List A)
    → All P xs
    → ((x : A) → P x → Q (f x))
    → All Q (map f xs)
All-map f P Q [] w h = tt
All-map f P Q (x ∷ xs) w h = (h x w.0, All-map f P Q xs w.1 h)

pub All-entries :
    (es : List Entry)
    → All IsEntry es
    → All IsFresh (map (λ e. e.0) es)
    → All (λ e. IsEntry e × IsFresh e.0) es
All-entries [] w f = tt
All-entries (e ∷ es) w f = ((w.0, f.0), All-entries es w.1 f.1)

addrs_of : Result Interface → List Group
addrs_of (ok i) = i.addrs
addrs_of _ = []

-- The groups that the search marks are those of the interface.
pub find_over-entries :
    (env : Surroundings) (i i' : Interface) (gs : List Group)
    → 2 ≤ length gs
    → find_over env i gs ≡ ok i'
    → (es : List Entry) × (map (λ e. e.0) es ≡ gs) × All IsEntry es × (i'.addrs ≡ mark_all env es)
unfolding find_over addrs_of
find_over-entries env i i' [] n h = absurd (omega (arith, n))
find_over-entries env i i' (g ∷ []) n h = absurd (omega (arith, n))
find_over-entries env i i' (g ∷ k ∷ gs) n h = go (>>=-eq-ok (entries (g ∷ k ∷ gs)) _ h)
  where
    go :
        ((es : List Entry) × (entries (g ∷ k ∷ gs) ≡ ok es)
          × (ok (record i { addrs = mark_all env es }) ≡ ok i'))
        → (es : List Entry) × (map (λ e. e.0) es ≡ g ∷ k ∷ gs)
          × All IsEntry es
          × (i'.addrs ≡ mark_all env es)
    go (es, e, q) = (es, (whole es e).0, (whole es e).1, sym (ap addrs_of q))
      where
        whole :
            (es : List Entry)
            → entries (g ∷ k ∷ gs) ≡ ok es
            → (map (λ e. e.0) es ≡ g ∷ k ∷ gs) × All IsEntry es
        whole es e = Ensures-ok _ (entries (g ∷ k ∷ gs)) (entries-Ensures (g ∷ k ∷ gs)) e

pub entry-has_family :
    (f : Family) (e : Entry) → IsEntry e → has_family f e.0.address ≡ family_eq (get_family e.1) f
unfolding has_family
entry-has_family f e a = ap (has_family f) a

pub entry-text : (e : Entry) → IsEntry e → text_of e.0.address ≡ get_str_addr e.1
unfolding text_of
entry-text e a = ap text_of a

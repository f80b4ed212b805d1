-- ===== src/Sys/IfList/Entries.antt =====
-- Which entries of getifaddrs make up an interface of the list (src/nmworkersys.cpp).
use nmdaemon.Group.FromIfaddrs.{Ifaddrs}
use nmdaemon.Interface.{Interface}
use nmdaemon.Interface.Returns.{add_address_returns}
use nmdaemon.Platform.{Platform}
use nmdaemon.Prelude.{
  ◌≡◌, refl, sym, ap, subst, arith, true, Result, ok, ◌>>=◌, >>=-eq-ok, List, [], ◌∷◌, keep,
  if◌then◌else◌, Bool-cases, all, is_some, &&_iff, inl, inr,
}
use nmdaemon.Sys.IfList.{IfMap, at, put, add_entry, collect}
use nmdaemon.Text.{Text, text_eq, text_eq_iff}

-- ifMap[n] behind ifMap[k] = i
at-put :
    (n k : Text) (i : Interface) (m : IfMap)
    → at n (put k i m) ≡ (if text_eq k n then i else at n m)
unfolding at put
at-put n k i [] = refl
at-put n k i ((l, j) ∷ m) =
    let same : text_eq l k ≡ true → text_eq l n ≡ text_eq k n =
      λ e. ap (λ x. text_eq x n) ((text_eq_iff l k).0 e) in
    let other : text_eq k n ≡ true → text_eq l n ≡ text_eq l k =
      λ e. ap (text_eq l) (sym ((text_eq_iff k n).0 e)) in
    ground (arith, same, other, at-put n k i m)

pub of_name : Text → List Ifaddrs → List Ifaddrs
of_name n l = keep (λ ifa. text_eq ifa.name n) l

module _ (os : Platform) where
  -- addAddress of each entry, to one interface.
  pub add_entries : List Ifaddrs → Interface → Result Interface
  add_entries [] i = ok i
  add_entries (ifa ∷ l) i = add_entry os ifa i >>= λ j. add_entries l j

  collect-at :
      (n : Text) (l : List Ifaddrs) (m m' : IfMap)
      → collect os l m ≡ ok m'
      → add_entries (of_name n l) (at n m) ≡ ok (at n m')
  unfolding collect add_entries of_name
  collect-at n [] m m' e = cc
  collect-at n (ifa ∷ l) m m' e =
      let (i, entry, rest) =
        >>=-eq-ok (add_entry os ifa (at ifa.name m)) (λ j. collect os l (put ifa.name j m)) e in
      let ih = collect-at n l (put ifa.name i m) m' rest in
      let found = at-put n ifa.name i m in
      elim (Bool-cases (text_eq ifa.name n)) [
        | inl t ↦
            let first =
              subst (λ x. add_entry os ifa (at x m) ≡ ok i) ((text_eq_iff ifa.name n).0 t) entry in
            rw (t, first) (rw (found, t) at ih)
        | inr f ↦ rw f (rw (found, f) at ih)
      ]

  collect_returns :
      (l : List Ifaddrs) (m : IfMap)
      → all (λ ifa. is_some ifa.addr) l ≡ true
      → (m' : IfMap) × (collect os l m ≡ ok m')
  unfolding collect add_entry
  collect_returns [] m h = (m, refl)
  collect_returns (ifa ∷ l) m h =
      let both = (&&_iff (is_some ifa.addr) (all (λ x. is_some x.addr) l)).0 h in
      let (i, made) =
        add_address_returns os ifa (record (at ifa.name m) { name = ifa.name }) both.0 in
      let (m', rest) = collect_returns l (put ifa.name i m) both.1 in (m', rw made rest)

  -- Where each entry of getifaddrs has an address, the loop over the entries returns, and makes the
  -- interface of each name as addAddress makes it of the entries of that name alone, in their order.
  pub collect-add_entries :
      (l : List Ifaddrs) (m : IfMap)
      → all (λ ifa. is_some ifa.addr) l ≡ true
      → (m' : IfMap) × (collect os l m ≡ ok m')
        × ((n : Text) → add_entries (of_name n l) (at n m) ≡ ok (at n m'))
  collect-add_entries l m h =
      let (m', e) = collect_returns l m h in (m', e, λ n. collect-at n l m m' e)

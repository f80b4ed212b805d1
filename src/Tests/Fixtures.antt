-- ===== src/Tests/Fixtures.antt =====
-- A JSON value type with the laws of the interface, and an operating system for the examples.
use text.Mathlib.Text.{◌==◌ as str_eq}
use nmdaemon.Json.{Json}
use nmdaemon.Platform.{Platform, link}
use nmdaemon.Prelude.{
  ℕ, ℤ, String, ◌≡◌, refl, ap, sym, ◌^◌, subst, arith, Bool, true, false, not, ◌&&◌, Option, none,
  some, is_some, List, [], ◌∷◌, all, ◌==◌, if◌then◌else◌, Bool-cases, inl, inr,
}
use nmdaemon.Text.{Text, codes, text_eq, text_eq_iff}

mutual
  pub data Doc : Type 0 where
    nil : Doc
    str : Text → Doc
    flag : Bool → Doc
    number : ℤ → Doc
    arr : Docs → Doc
    obj : Fields → Doc

  pub data Docs : Type 0 where
    no_docs : Docs
    more : Doc → Docs → Docs

  pub data Fields : Type 0 where
    no_fields : Fields
    field : String → Doc → Fields → Fields

to_list : Docs → List Doc
to_list no_docs = []
to_list (more d ds) = d ∷ to_list ds

of_docs : List Doc → Docs
of_docs [] = no_docs
of_docs (d ∷ ds) = more d (of_docs ds)

values : Fields → List Doc
values no_fields = []
values (field k d fs) = d ∷ values fs

to_list-of_docs : (l : List Doc) → to_list (of_docs l) ≡ l
unfolding to_list of_docs
to_list-of_docs [] = refl
to_list-of_docs (d ∷ l) = ap (◌∷◌ d) (to_list-of_docs l)

find_field : String → Fields → Option Doc
find_field l no_fields = none
find_field l (field k d fs) = let rest = find_field l fs in if str_eq k l then some d else rest

unfoldable pub doc_find : String → Doc → Option Doc
unfolding find_field
doc_find l (obj fs) = find_field l fs
doc_find l _ = none

unfoldable pub doc_insert : String → Doc → Doc → Doc
doc_insert k v nil = obj (field k v no_fields)
doc_insert k v (obj fs) = obj (field k v fs)
doc_insert k v j = j

unfoldable pub doc_text : Doc → Option Text
doc_text (str s) = some s
doc_text _ = none

unfoldable pub doc_bool : Doc → Option Bool
doc_bool (flag b) = some b
doc_bool _ = none

unfoldable pub doc_elements : Doc → List Doc
unfolding to_list values
doc_elements (arr ds) = to_list ds
doc_elements (obj fs) = values fs
doc_elements nil = []
doc_elements d = d ∷ []

unfoldable pub doc_list : List Doc → Doc
unfolding of_docs
doc_list l = arr (of_docs l)

unfoldable pub is_obj : Doc → Bool
is_obj (obj fs) = true
is_obj _ = false

unfoldable pub doc_is_keyed : Doc → Bool
doc_is_keyed nil = true
doc_is_keyed (obj fs) = true
doc_is_keyed _ = false

pub doc_find-insert :
    (k l : String) (v j : Doc)
    → doc_is_keyed j ≡ true
    → doc_find l (doc_insert k v j) ≡ (if str_eq k l then some v else doc_find l j)
unfolding doc_find doc_insert doc_is_keyed find_field
doc_find-insert k l v nil h = refl
doc_find-insert k l v (obj fs) h = refl
doc_find-insert k l v (str s) h = absurd (ground (arith, h))
doc_find-insert k l v (number s) h = absurd (ground (arith, h))
doc_find-insert k l v (flag s) h = absurd (ground (arith, h))
doc_find-insert k l v (arr s) h = absurd (ground (arith, h))

pub doc_is_keyed-insert :
    (k : String) (v j : Doc) → doc_is_keyed j ≡ true → doc_is_keyed (doc_insert k v j) ≡ true
unfolding doc_insert doc_is_keyed
doc_is_keyed-insert k v nil h = refl
doc_is_keyed-insert k v (obj fs) h = refl
doc_is_keyed-insert k v (str s) h = h
doc_is_keyed-insert k v (number s) h = h
doc_is_keyed-insert k v (flag s) h = h
doc_is_keyed-insert k v (arr s) h = h

pub doc_find-nil : (k : String) → doc_find k nil ≡ none
unfolding doc_find
doc_find-nil k = refl

pub doc_text-str : (s : Text) → doc_text (str s) ≡ some s
unfolding doc_text
doc_text-str s = refl

pub doc_bool-flag : (b : Bool) → doc_bool (flag b) ≡ some b
unfolding doc_bool
doc_bool-flag b = refl

pub doc_elements-list : (l : List Doc) → doc_elements (doc_list l) ≡ l
unfolding doc_elements doc_list
doc_elements-list l = to_list-of_docs l

pub doc_is_keyed-nil : doc_is_keyed nil ≡ true
unfolding doc_is_keyed
doc_is_keyed-nil = refl

pub doc_text-nil : doc_text nil ≡ none
unfolding doc_text
doc_text-nil = refl

pub doc_elements-nil : doc_elements nil ≡ []
unfolding doc_elements
doc_elements-nil = refl

unfoldable pub doc_int : Doc → Option ℤ
doc_int (number n) = some n
doc_int _ = none

abbrev pub docs : Json
docs = record {
  Value = Doc;
  null = nil;
  of_text = str;
  of_bool = flag;
  of_integer = number;
  of_list = doc_list;
  find = doc_find;
  insert = doc_insert;
  text = doc_text;
  boolean = doc_bool;
  integer = doc_int;
  elements = doc_elements;
  is_object = is_obj;
  is_keyed = doc_is_keyed;
  find-null = doc_find-nil;
  find-insert = doc_find-insert;
  is_keyed-null = doc_is_keyed-nil;
  is_keyed-insert = doc_is_keyed-insert;
  text-null = doc_text-nil;
  text-of_text = doc_text-str;
  boolean-of_bool = doc_bool-flag;
  elements-null = doc_elements-nil;
  elements-of_list = doc_elements-list;
}

-- The addresses 10.0.0.1, 10.0.0.2, 255.0.0.0 and ::1 as texts, and words in network byte order.
unfoldable pub some_pton4 : Text → Option ℕ
unfolding text_eq
some_pton4 s =
    if text_eq s (codes "10.0.0.1")
    then some 0x0100000a
    else if text_eq s (codes "10.0.0.2")
    then some 0x0200000a
    else if text_eq s (codes "255.0.0.0")
    then some 0xff
    else none

unfoldable pub some_ntop4 : ℕ → Option Text
some_ntop4 a =
    if a == 0x0100000a
    then some (codes "10.0.0.1")
    else if a == 0x0200000a
    then some (codes "10.0.0.2")
    else if a == 0xff
    then some (codes "255.0.0.0")
    else none

unfoldable pub some_pton6 : Text → Option ℕ
unfolding text_eq
some_pton6 s = if text_eq s (codes "::1") then some (2 ^ 120) else none

unfoldable pub some_ntop6 : ℕ → Option Text
some_ntop6 a = if a == 2 ^ 120 then some (codes "::1") else none

abbrev pub bsd : Platform
bsd = record {
  iff_up = 0x1;
  iff_loopback = 0x8;
  iff_pointopoint = 0x10;
  iff_running = 0x40;
  inet_pton4 = some_pton4;
  inet_ntop4 = some_ntop4;
  inet_pton6 = some_pton6;
  inet_ntop6 = some_ntop6;
  link_ntoa = λ sa. codes "em0";
  link_addr = λ s. record { family = link; sin_addr = 0; sin6_addr = 0 };
}

-- The texts that it accepts have neither spaces nor line ends.
abbrev plain : ℕ → Bool
plain c = not (c == b' ') && not (c == b'\n')

pub known : (p : ℕ → Bool) (s t : Text) → all p t ≡ true → text_eq s t ≡ true → all p s ≡ true
known p s t h e = subst (λ x. all p x ≡ true) (sym ((text_eq_iff s t).0 e)) h

pub some_pton4-plain : (s : Text) → is_some (some_pton4 s) ≡ true → all plain s ≡ true
unfolding some_pton4
some_pton4-plain s h = elim (Bool-cases (text_eq s (codes "10.0.0.1"))) [
  | inl e ↦ known plain s (codes "10.0.0.1") refl e
  | inr n ↦ elim (Bool-cases (text_eq s (codes "10.0.0.2"))) [
    | inl e ↦ known plain s (codes "10.0.0.2") refl e
    | inr m ↦ known plain s (codes "255.0.0.0") refl (ground (arith, h, n, m))
  ]
]

pub some_pton6-plain : (s : Text) → is_some (some_pton6 s) ≡ true → all plain s ≡ true
unfolding some_pton6
some_pton6-plain s h = known plain s (codes "::1") refl (ground (arith, h))

-- ===== src/Daemon/Blocks.antt =====
-- The blocks of NM_MAXBUF bytes that the dispatcher writes, as a client reads them.
use nmdaemon.Command.Workers.{Worker, Handler}
use nmdaemon.Daemon.{
  nm_maxbuf, zeros, strlcpy, error_json, answer_text, answer_block, execute, fitting, dump_or_fault,
}
use nmdaemon.Json.{Json}
use nmdaemon.Keys.{json_data_err_internal_error}
use nmdaemon.Prelude.{
  ℕ, zero, suc, ◌+◌, ◌-◌, ◌≤◌, ◌<◌, ◌≡◌, refl, ap, subst, arith, Bool, true, false, Option, some,
  none, Result, Ensures, catch, ok, ◌>>=◌, >>=-eq-ok, List, [], ◌∷◌, ◌++◌, length, take, drop, leb,
  length-append, if◌then◌else◌,
}
use nmdaemon.Text.{c_str, Text, Lacks}

length-zeros : (n : ℕ) → length (zeros n) ≡ n
length-zeros zero = refl
length-zeros (suc n) = omega (arith, length-zeros n)

length-drop : {A : Type 0} (k : ℕ) (l : List A) → k ≤ length l → length (drop k l) + k ≡ length l
length-drop zero l h = omega arith
length-drop (suc k) [] h = absurd (omega (arith, h))
length-drop (suc k) (x ∷ l) h = omega (arith, length-drop k l (omega (arith, h)))

take-all : {A : Type 0} (k : ℕ) (l : List A) → length l ≤ k → take k l ≡ l
take-all zero [] h = refl
take-all zero (x ∷ l) h = absurd (omega (arith, h))
take-all (suc k) [] h = refl
take-all (suc k) (x ∷ l) h = ap (◌∷◌ x) (take-all k l (omega (arith, h)))

-- A text without NULs in front of one is read back whole.
c_str-append : (s rest : Text) → Lacks 0 s → c_str (s ++ 0 ∷ rest) ≡ s
unfolding c_str
c_str-append [] rest h = refl
c_str-append (c ∷ s) rest h = ground (arith, c_str-append s rest)

strlcpy-zeros :
    (n : ℕ) (s : Text) → length s < n → strlcpy (zeros n) s ≡ s ++ 0 ∷ drop (length s + 1) (zeros n)
unfolding strlcpy
strlcpy-zeros n s h = rw (length-zeros n, take-all (n - 1) s (omega (arith, h))) refl

pub c_str-strlcpy :
    (n : ℕ) (s : Text)
    → length s < n
    → Lacks 0 s
    → (c_str (strlcpy (zeros n) s) ≡ s) × (length (strlcpy (zeros n) s) ≡ n)
c_str-strlcpy n s h l = rw (strlcpy-zeros n s h) (
  c_str-append s (drop (length s + 1) (zeros n)) l,
  rw (length-append s (0 ∷ drop (length s + 1) (zeros n))) (
      omega (
        arith,
        h,
        length-zeros n,
        length-drop (length s + 1) (zeros n) (omega (arith, h, length-zeros n)),
      )),
)

module _ (js : Json) (parse : Text → Option js.Value) (dump : js.Value → Option Text)
    (run : Handler → js.Value → Result js.Value) (workers : List Worker)
    (no_nul : (v : js.Value) (s : Text) → dump v ≡ some s → Lacks 0 s)
    (short : (s : Text)
      → dump (error_json js json_data_err_internal_error) ≡ some s
      → length s < nm_maxbuf) where
  dumped :
      (v : js.Value) (s : Text)
      → dump_or_fault js parse dump run workers (dump v) ≡ ok s
      → dump v ≡ some s
  unfolding dump_or_fault
  dumped v s h = go (dump v) h
    where
      go : (o : Option Text) → dump_or_fault js parse dump run workers o ≡ ok s → o ≡ some s
      go (some t) h = cc
      go none h = cc

  -- The text of an answer fits the buffer.
  fitting-fits :
      (v : js.Value) (t s : Text)
      → dump v ≡ some t
      → fitting js parse dump run workers t ≡ ok s
      → (length s < nm_maxbuf) × Lacks 0 s
  unfolding fitting
  fitting-fits v t s d h = go (leb nm_maxbuf (length t)) refl h
    where
      internal : Result Text
      internal =
          dump_or_fault js parse dump run workers
            (dump (error_json js json_data_err_internal_error))

      go :
          (b : Bool)
          → leb nm_maxbuf (length t) ≡ b
          → (if b then internal else ok t) ≡ ok s
          → (length s < nm_maxbuf) × Lacks 0 s
      go true e q = (short s (dumped _ s q), no_nul _ s (dumped _ s q))
      go false e q = rw⁻¹ (the_text q) (fits, no_nul v t d)
        where
          fits : length t < nm_maxbuf
          fits = ground (arith, e)

          the_text : {x y : Text} → ok x ≡ ok y → x ≡ y
          the_text r = cc

  -- Where json::dump writes no NUL and the text of the internal error fits, every answer is a
  -- block of NM_MAXBUF bytes from which a client that reads up to the first NUL gets the whole
  -- text of the answer.
  pub answer_block-c_str :
      (j : js.Value) (b : Text)
      → answer_block js parse dump run workers j ≡ ok b
      → (s : Text) × (answer_text js parse dump run workers j ≡ ok s)
        × (c_str b ≡ s)
        × (length b ≡ nm_maxbuf)
  unfolding answer_block answer_text
  answer_block-c_str j b h = block (>>=-eq-ok (answer_text js parse dump run workers j) _ h)
    where
      fits :
          (s : Text)
          → answer_text js parse dump run workers j ≡ ok s
          → (length s < nm_maxbuf) × Lacks 0 s
      fits s e = serialized (>>=-eq-ok _ _ e)
        where
          fitted :
              (v : js.Value)
              → ((t : Text) × (dump_or_fault js parse dump run workers (dump v) ≡ ok t)
                  × (fitting js parse dump run workers t ≡ ok s))
              → (length s < nm_maxbuf) × Lacks 0 s
          fitted v (t, d, f) = fitting-fits v t s (dumped v t d) f

          serialized :
              ((v : js.Value) × (catch
                    (execute js parse dump run workers workers j)
                    (ok (error_json js json_data_err_internal_error))
                  ≡ ok v)
                × ((dump_or_fault js parse dump run workers (dump v) >>= λ t.
                      fitting js parse dump run workers t)
                    ≡ ok s))
              → (length s < nm_maxbuf) × Lacks 0 s
          serialized (v, c, q) =
              fitted v (>>=-eq-ok (dump_or_fault js parse dump run workers (dump v)) _ q)

      block :
          ((s : Text) × (answer_text js parse dump run workers j ≡ ok s)
            × (ok (strlcpy (zeros nm_maxbuf) s) ≡ ok b))
          → (s : Text) × (answer_text js parse dump run workers j ≡ ok s)
            × (c_str b ≡ s)
            × (length b ≡ nm_maxbuf)
      block (s, e, q) = (s, e, (read s e q).0, (read s e q).1)
        where
          read :
              (s : Text)
              → answer_text js parse dump run workers j ≡ ok s
              → ok (strlcpy (zeros nm_maxbuf) s) ≡ ok b
              → (c_str b ≡ s) × (length b ≡ nm_maxbuf)
          read s e q =
              subst (Ensures (λ x. (c_str x ≡ s) × (length x ≡ nm_maxbuf))) q
                (c_str-strlcpy nm_maxbuf s (fits s e).0 (fits s e).1)

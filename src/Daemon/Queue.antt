-- ===== src/Daemon/Queue.antt =====
-- The order in which the daemon answers, over all interleavings of its two threads.
use mathlib.Core.List.{append-nil, append_assoc}
use nmdaemon.Command.Workers.{Worker, Handler}
use nmdaemon.Daemon.{
  Sent, rejection, answer, State, at_flag, Reaches, start, receives, takes, answers, checks, closes,
  shuts_down, on_flag, on_close, on_shutdown, on_receive, on_take, on_answer, on_text, take_front,
  answer_taken, request_text, accepted, answer_block, rejection_block,
}
use nmdaemon.Json.{Json}
use nmdaemon.Prelude.{
  ◌≡◌, refl, sym, ap, subst, ◌∙◌, Option, none, some, Result, ok, Ensures, >>=-eq-ok, List, [], ◌∷◌,
  ◌++◌,
}
use nmdaemon.Text.{Text}

-- Two lists of the same length, related entry by entry.
abbrev pub Each2 : {A B : Type 0} → (A → B → Type 0) → List A → List B → Type 0
Each2 R [] [] = Unit
Each2 R (x ∷ xs) (y ∷ ys) = R x y × Each2 R xs ys
Each2 R _ _ = ⊥

Each2-snoc :
    {A B : Type 0} (R : A → B → Type 0) (xs : List A) (ys : List B) {x : A} {y : B}
    → Each2 R xs ys
    → R x y
    → Each2 R (xs ++ x ∷ []) (ys ++ y ∷ [])
Each2-snoc R [] [] h r = (r, tt)
Each2-snoc R [] (y ∷ ys) h r = absurd h
Each2-snoc R (x ∷ xs) [] h r = absurd h
Each2-snoc R (x ∷ xs) (y ∷ ys) h r = (h.0, Each2-snoc R xs ys h.1 r)

abbrev pub answers_of : List Sent → List Text
answers_of [] = []
answers_of (answer b ∷ l) = b ∷ answers_of l
answers_of (rejection b ∷ l) = answers_of l

abbrev pub rejections_of : List Sent → List Text
rejections_of [] = []
rejections_of (answer b ∷ l) = rejections_of l
rejections_of (rejection b ∷ l) = b ∷ rejections_of l

answers_of-append : (l m : List Sent) → answers_of (l ++ m) ≡ answers_of l ++ answers_of m
answers_of-append [] m = refl
answers_of-append (answer b ∷ l) m = ap (◌∷◌ b) (answers_of-append l m)
answers_of-append (rejection b ∷ l) m = answers_of-append l m

rejections_of-append :
    (l m : List Sent) → rejections_of (l ++ m) ≡ rejections_of l ++ rejections_of m
rejections_of-append [] m = refl
rejections_of-append (answer b ∷ l) m = rejections_of-append l m
rejections_of-append (rejection b ∷ l) m = ap (◌∷◌ b) (rejections_of-append l m)

abbrev pub flat : {A B : Type 0} → (A → List B) → List A → List B
flat f [] = []
flat f (x ∷ xs) = f x ++ flat f xs

flat-snoc :
    {A B : Type 0} (f : A → List B) (xs : List A) (x : A) → flat f (xs ++ x ∷ []) ≡ flat f xs ++ f x
flat-snoc f [] x = rw append-nil refl
flat-snoc f (y ∷ xs) x =
    ap (λ l. f y ++ l) (flat-snoc f xs x) ∙ sym (append_assoc (f y) (flat f xs) (f x))

module _ (js : Json) (parse : Text → Option js.Value) (dump : js.Value → Option Text)
    (run : Handler → js.Value → Result js.Value) (workers : List Worker) where
  -- What a read asks for: nothing, the answer to a request, or a rejection.
  valid_text : Text → Option js.Value → List js.Value
  valid_text [] r = []
  valid_text (c ∷ text) none = []
  valid_text (c ∷ text) (some j) = j ∷ []

  unfoldable pub valid_read : Text → List js.Value
  unfolding valid_text
  valid_read data' =
      valid_text (request_text js parse dump run workers data')
        (accepted js parse dump run workers (request_text js parse dump run workers data'))

  invalid_text : Text → Text → Option js.Value → List Text
  invalid_text data' [] r = []
  invalid_text data' (c ∷ text) none = data' ∷ []
  invalid_text data' (c ∷ text) (some j) = []

  unfoldable pub invalid_read : Text → List Text
  unfolding invalid_text
  invalid_read data' =
      invalid_text data' (request_text js parse dump run workers data')
        (accepted js parse dump run workers (request_text js parse dump run workers data'))

  taken_list : Option js.Value → List js.Value
  taken_list none = []
  taken_list (some j) = j ∷ []

  -- The requests that are still to be answered.
  unfoldable pub pending : State js → List js.Value
  unfolding taken_list
  pending s = taken_list s.taken ++ s.queue

  abbrev pub IsAnswer : js.Value → Text → Type 0
  IsAnswer j b = answer_block js parse dump run workers j ≡ ok b

  abbrev pub IsRejection : Text → Text → Type 0
  IsRejection d b = rejection_block js parse dump run workers d ≡ ok b

  -- `valid` are answered in order, each once, and `invalid` are rejected in order, each once.
  abbrev pub IsServed : List js.Value → List Text → State js → Type 0
  IsServed valid invalid s =
      ((done : List js.Value) × (valid ≡ done ++ pending s)
        × Each2 IsAnswer done (answers_of s.sent))
      × Each2 IsRejection invalid (rejections_of s.sent)

  text-IsServed :
      (data' text : Text) (r : Option js.Value) (valid : List js.Value) (invalid : List Text)
      (s t : State js)
      → IsServed valid invalid s
      → on_text js parse dump run workers data' text r s ≡ ok t
      → IsServed (valid ++ valid_text text r) (invalid ++ invalid_text data' text r) t
  unfolding on_text valid_text invalid_text pending
  text-IsServed data' [] r valid invalid s t h e =
      subst (Ensures (IsServed (valid ++ []) (invalid ++ []))) e (rw (append-nil, append-nil) h)
  text-IsServed data' (c ∷ text) (some j) valid invalid s t ((done, p, a), b) e =
      subst (Ensures (IsServed (valid ++ j ∷ []) (invalid ++ []))) e
        (rw append-nil ((done, queued, a), b))
    where
      queued : valid ++ j ∷ [] ≡ done ++ (taken_list s.taken ++ (s.queue ++ j ∷ []))
      queued =
          rw⁻¹
            (
              append_assoc (taken_list s.taken) s.queue (j ∷ []),
              append_assoc done (taken_list s.taken ++ s.queue) (j ∷ []),
            )
            (ap (λ l. l ++ j ∷ []) p)
  text-IsServed data' (c ∷ text) none valid invalid s t h e =
      go (>>=-eq-ok (rejection_block js parse dump run workers data') _ e) h
    where
      go :
          ((b : Text) × IsRejection data' b
            × (ok (record s { sent = s.sent ++ rejection b ∷ [] }) ≡ ok t))
          → IsServed valid invalid s
          → IsServed (valid ++ []) (invalid ++ data' ∷ []) t
      go (b, k, q) ((done, p, a), rs) =
          subst (Ensures (IsServed (valid ++ []) (invalid ++ data' ∷ []))) q (
            (done, rw append-nil p, rw (answers_of-append s.sent (rejection b ∷ []), append-nil) a),
            rw (rejections_of-append s.sent (rejection b ∷ []))
                (Each2-snoc IsRejection invalid (rejections_of s.sent) rs k),
          )

  take-IsServed :
      (q : List js.Value) (valid : List js.Value) (invalid : List Text) (s : State js)
      → s.queue ≡ q
      → s.taken ≡ none
      → IsServed valid invalid s
      → IsServed valid invalid (take_front js parse dump run workers q s)
  unfolding take_front pending taken_list
  take-IsServed [] valid invalid s e n h = h
  take-IsServed (j ∷ q) valid invalid s e n ((done, p, a), b) =
      ((done, p ∙ ap (λ l. done ++ l) (rw (n, e) refl), a), b)

  answer-IsServed :
      (o : Option js.Value) (valid : List js.Value) (invalid : List Text) (s t : State js)
      → s.taken ≡ o
      → IsServed valid invalid s
      → answer_taken js parse dump run workers o s ≡ ok t
      → IsServed valid invalid t
  unfolding answer_taken pending taken_list
  answer-IsServed none valid invalid s t n h e = subst (Ensures (IsServed valid invalid)) e h
  answer-IsServed (some j) valid invalid s t n h e =
      go (>>=-eq-ok (answer_block js parse dump run workers j) _ e) h
    where
      go :
          ((b : Text) × IsAnswer j b
            × (ok (record s { taken = none; sent = s.sent ++ answer b ∷ []; phase = at_flag })
                ≡ ok t))
          → IsServed valid invalid s
          → IsServed valid invalid t
      go (b, k, q) ((done, p, a), rs) = subst (Ensures (IsServed valid invalid)) q (
        (
          done ++ j ∷ [],
          p
              ∙ ap (λ o. done ++ (taken_list o ++ s.queue)) n
              ∙ sym (append_assoc done (j ∷ []) s.queue),
          rw (answers_of-append s.sent (answer b ∷ []))
              (Each2-snoc IsAnswer done (answers_of s.sent) a k),
        ),
        rw (rejections_of-append s.sent (answer b ∷ []), append-nil) rs,
      )

  -- In every state that is reached, whatever the two threads' order: the valid requests read so
  -- far are those answered and those pending, in that order; the answers written are those of the
  -- answered requests, in order, one each; and the rejections written are those of the invalid
  -- requests read, in order, one each.
  pub Reaches-IsServed :
      (ins : List Text) (s : State js)
      → Reaches js parse dump run workers ins s
      → IsServed (flat valid_read ins) (flat invalid_read ins) s
  unfolding pending taken_list on_receive on_take on_answer on_flag on_close on_shutdown valid_read
      invalid_read
  Reaches-IsServed ins s start = (([], refl, tt), tt)
  Reaches-IsServed ins s (receives data' {ins = before} {s = r} reached i e) =
      rw (flat-snoc valid_read before data', flat-snoc invalid_read before data')
        (text-IsServed data' _ _ _ _ r s (Reaches-IsServed before r reached) e)
  Reaches-IsServed ins s (takes {s = r} reached n p) =
      take-IsServed r.queue _ _ r refl n (Reaches-IsServed ins r reached)
  Reaches-IsServed ins s (answers {s = r} reached e) =
      answer-IsServed r.taken _ _ r s refl (Reaches-IsServed ins r reached) e
  Reaches-IsServed ins s (checks {s = r} reached p) = Reaches-IsServed ins r reached
  Reaches-IsServed ins s (closes {s = r} reached i) = Reaches-IsServed ins r reached
  Reaches-IsServed ins s (shuts_down {s = r} reached) = Reaches-IsServed ins r reached

-- ===== src/Daemon/Drain.antt =====
-- No request is stuck: while stop_dispatcher is not set the dispatcher can answer all of them.
use nmdaemon.Command.Workers.{
  Worker, Handler, Action, handle, succeed, not_implemented, invalid_command, get_scope, exec_cmd,
  scope_eq,
}
use nmdaemon.Command.{command_of}
use nmdaemon.Daemon.Queue.{pending}
use nmdaemon.Daemon.{
  State, ended, Reaches, answer_block, answer_text, execute, act, fitting, dump_or_fault,
  error_json, strlcpy, zeros, nm_maxbuf,
}
use nmdaemon.Json.{Json}
use nmdaemon.Keys.{json_data_err_internal_error}
use nmdaemon.Prelude.{
  ◌≡◌, ◌≢◌, refl, Option, none, some, Result, ok, throw, fault, catch, List, [], ◌∷◌, length, leb,
  false, if_elim, Option-cases, inl, inr,
}
use nmdaemon.Text.{Text}

-- Returns or throws.
abbrev HasNoFault : {A : Type 0} → Result A → Type 0
HasNoFault (ok a) = Unit
HasNoFault throw = Unit
HasNoFault fault = ⊥

returns : {A : Type 0} (r : Result A) (a : A) → HasNoFault r → (v : A) × (catch r (ok a) ≡ ok v)
returns (ok v) a h = (v, refl)
returns throw a h = (a, refl)
returns fault a h = absurd h

module _ (js : Json) (parse : Text → Option js.Value) (dump : js.Value → Option Text)
    (run : Handler → js.Value → Result js.Value) (workers : List Worker)
    (dumps : (v : js.Value) → dump v ≢ none)
    (runs : (h : Handler) (j : js.Value) → run h j ≢ fault) where
  act-HasNoFault : (a : Action) (j : js.Value) → HasNoFault (act js parse dump run workers a j)
  unfolding act
  act-HasNoFault (handle h) j = go (run h j) (runs h j)
    where
      go : (r : Result js.Value) → r ≢ fault → HasNoFault r
      go (ok v) n = tt
      go throw n = tt
      go fault n = absurd (n refl)
  act-HasNoFault succeed j = tt
  act-HasNoFault not_implemented j = tt
  act-HasNoFault invalid_command j = tt

  execute-HasNoFault :
      (ws : List Worker) (j : js.Value) → HasNoFault (execute js parse dump run workers ws j)
  unfolding execute
  execute-HasNoFault [] j = tt
  execute-HasNoFault (w ∷ ws) j =
      if_elim HasNoFault (scope_eq (get_scope w) (command_of js (some j)).scope)
        (λ e. act-HasNoFault (exec_cmd w (command_of js (some j)).cmd) j)
        (λ e. execute-HasNoFault ws j)

  dumped : (v : js.Value) → (s : Text) × (dump_or_fault js parse dump run workers (dump v) ≡ ok s)
  unfolding dump_or_fault
  dumped v = elim (Option-cases (dump v)) [
    | inl e ↦ absurd (dumps v e)
    | inr (s, e) ↦ (s, rw (e, dump_or_fault) refl)
  ]

  fits : (s : Text) → (t : Text) × (fitting js parse dump run workers s ≡ ok t)
  unfolding fitting
  fits s =
      if_elim (λ r. (t : Text) × (r ≡ ok t)) (leb nm_maxbuf (length s))
        (λ e. dumped (error_json js json_data_err_internal_error)) (λ e. (s, refl))

  answered : (j : js.Value) → (b : Text) × (answer_block js parse dump run workers j ≡ ok b)
  unfolding answer_block answer_text
  answered j =
      let (v, e) =
        returns (execute js parse dump run workers workers j)
          (error_json js json_data_err_internal_error) (execute-HasNoFault workers j) in
      let (s, h) = dumped v in
      let (t, k) = fits s in (strlcpy (zeros nm_maxbuf) t, rw (e, h, k) refl)

  IsDrained : List Text → Type 0
  IsDrained ins =
      (t : State js) × Reaches js parse dump run workers ins t
      × (pending js parse dump run workers t ≡ [])

  -- The loop is left only where stop_dispatcher is set.
  IsRunning : State js → Type 0
  IsRunning s = s.stop_dispatcher ≡ false → s.phase ≢ ended

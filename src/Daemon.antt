-- ===== src/Daemon.antt =====
-- NmDaemon (src/nmdaemon.h, src/nmdaemon.cpp): the receiver that reads requests from a socket into
-- a queue, and the dispatcher that takes them from it, calls a worker and writes the answer. The
-- two threads interleave between their critical sections, which are the steps of the model.
-- What the workers' methods do and json::parse and json::dump are parameters.
pub mod Blocks
pub mod Queue
pub mod Drain
use nmdaemon.Command.Workers.{
  Worker, Handler, Action, handle, succeed, not_implemented, invalid_command, get_scope, exec_cmd,
  is_valid_cmd, scope_eq,
}
use nmdaemon.Command.{NmCommand, command_of, is_valid}
use nmdaemon.Json.{Json}
use nmdaemon.Keys.{
  json_param_result, json_param_err, json_param_succ, json_data_err_invalid_request,
  json_data_err_internal_error, json_data_err_not_implemented, json_data_err_invalid_command,
}
use nmdaemon.Prelude.{
  ℕ, zero, suc, ◌+◌, ◌-◌, ◌≡◌, String, Bool, true, false, not, ◌&&◌, ◌||◌, Option, none, some,
  Result, ok, throw, fault, ◌>>=◌, catch, List, [], ◌∷◌, ◌++◌, any, length, take, drop, leb, ◌==◌,
  if◌then◌else◌,
}
use nmdaemon.Text.{Text, codes, is_empty, c_str}

abbrev pub nm_maxbuf : ℕ
nm_maxbuf = 8192

-- \s of the pattern, which stands at the end of the text.
is_space : ℕ → Bool
is_space c = c == b' ' || (leb 9 c && leb c 13)

unfoldable pub strip_end : Text → Text
unfolding is_space
strip_end [] = []
strip_end (c ∷ s) = let rest = strip_end s in if is_space c && is_empty rest then [] else c ∷ rest

-- A buffer of NULs.
abbrev pub zeros : ℕ → Text
zeros zero = []
zeros (suc n) = 0 ∷ zeros n

-- strlcpy(dst, s, sizeof(dst))
unfoldable pub strlcpy : Text → Text → Text
strlcpy dst s = let kept = take (length dst - 1) s in kept ++ 0 ∷ drop (length kept + 1) dst

-- The buffer after a read of `data`.
unfoldable pub read_buffer : Text → Text
read_buffer data' = data' ++ zeros (nm_maxbuf - length data')

-- What is written to the socket, by whom.
pub data Sent : Type 0 where
  rejection answer : Text → Sent

-- Where the dispatcher stands in its loop: it looks at the queue and serves what it takes, it is
-- to look at stop_dispatcher, or it has left the loop.
pub data Phase : Type 0 where
  at_queue at_flag ended : Phase

module _ (js : Json) where
  open js use {Value, null, of_text, insert}

  -- { { RESULT, ERROR }, { ERROR, why } }
  unfoldable pub error_json : String → Value
  error_json why =
      insert json_param_err (of_text (codes why))
        (insert json_param_result (of_text (codes json_param_err)) null)

  pub record State : Type 0 where
    pub queue : List Value
    -- The request that the dispatcher has taken and not yet answered.
    pub taken : Option Value
    pub sent : List Sent
    pub phase : Phase
    pub stop_dispatcher : Bool
    -- The receiver is in its loop.
    pub is_receiving : Bool

  abbrev pub initial : State
  initial = record {
    queue = [];
    taken = none;
    sent = [];
    phase = at_queue;
    stop_dispatcher = false;
    is_receiving = true;
  }

  module _ (parse : Text → Option Value) (dump : Value → Option Text)
      (run : Handler → Value → Result Value) (workers : List Worker) where
    -- The text of a request: the read up to a NUL, less what the pattern removes.
    unfoldable pub request_text : Text → Text
    unfolding strip_end c_str read_buffer
    request_text data' = strip_end (c_str (read_buffer data'))

    is_accepted : Option Value → Bool
    unfolding is_valid is_valid_cmd command_of
    is_accepted r = is_valid js r && any (λ w. is_valid_cmd w (command_of js r)) workers

    unfoldable pub accepted : Text → Option Value
    unfolding is_accepted
    accepted s = if is_accepted (parse s) then parse s else none

    -- json::dump throws where a string is no UTF-8; nothing catches it.
    unfoldable pub dump_or_fault : Option Text → Result Text
    dump_or_fault none = fault
    dump_or_fault (some s) = ok s

    unfoldable pub rejection_block : Text → Result Text
    unfolding dump_or_fault strlcpy error_json read_buffer
    rejection_block data' = do
      s ← dump_or_fault (dump (error_json json_data_err_invalid_request))
      ok (strlcpy (read_buffer data') s)

    -- execCmd of a worker
    unfoldable pub act : Action → Value → Result Value
    unfolding error_json
    act (handle h) j = run h j
    act succeed j = ok (insert json_param_result (of_text (codes json_param_succ)) null)
    act not_implemented j = ok (error_json json_data_err_not_implemented)
    act invalid_command j = ok (error_json json_data_err_invalid_command)

    -- The first worker of the request's scope answers; the internal error stands where none is.
    unfoldable pub execute : List Worker → Value → Result Value
    unfolding act exec_cmd get_scope scope_eq command_of error_json
    execute [] j = ok (error_json json_data_err_internal_error)
    execute (w ∷ ws) j =
        let rest = execute ws j in
        if scope_eq (get_scope w) (command_of js (some j)).scope
        then act (exec_cmd w (command_of js (some j)).cmd) j
        else rest

    unfoldable pub fitting : Text → Result Text
    unfolding dump_or_fault error_json
    fitting s =
        if leb nm_maxbuf (length s)
        then dump_or_fault (dump (error_json json_data_err_internal_error))
        else ok s

    -- strResult as it is written.
    unfoldable pub answer_text : Value → Result Text
    unfolding execute fitting dump_or_fault error_json
    answer_text j = do
      v ← catch (execute workers j) (ok (error_json json_data_err_internal_error))
      s ← dump_or_fault (dump v)
      fitting s

    unfoldable pub answer_block : Value → Result Text
    unfolding answer_text strlcpy
    answer_block j = do s ← answer_text j; ok (strlcpy (zeros nm_maxbuf) s)

    -- One round of the receiver on the bytes read.
    unfoldable pub on_text : Text → Text → Option Value → State → Result State
    unfolding rejection_block
    on_text data' [] r s = ok s
    on_text data' (c ∷ text) (some j) s = ok (record s { queue = s.queue ++ j ∷ [] })
    on_text data' (c ∷ text) none s = do
      b ← rejection_block data'
      ok (record s { sent = s.sent ++ rejection b ∷ [] })

    unfoldable pub on_receive : Text → State → Result State
    unfolding on_text request_text accepted
    on_receive data' s = on_text data' (request_text data') (accepted (request_text data')) s

    -- The dispatcher takes the front of the queue.
    unfoldable pub take_front : List Value → State → State
    take_front [] s = record s { phase = at_flag }
    take_front (j ∷ js') s = record s { queue = js'; taken = some j }

    unfoldable pub on_take : State → State
    unfolding take_front
    on_take s = take_front s.queue s

    -- It calls the worker and writes the answer.
    unfoldable pub answer_taken : Option Value → State → Result State
    unfolding answer_block
    answer_taken none s = ok s
    answer_taken (some j) s = do
      b ← answer_block j
      ok (record s { taken = none; sent = s.sent ++ answer b ∷ []; phase = at_flag })

    unfoldable pub on_answer : State → Result State
    unfolding answer_taken
    on_answer s = answer_taken s.taken s

    -- It leaves its loop once stop_dispatcher is set, whatever is queued.
    unfoldable pub on_flag : State → State
    on_flag s = record s { phase = if s.stop_dispatcher then ended else at_queue }

    -- The receiver leaves its loop and sets stop_dispatcher.
    unfoldable pub on_close : State → State
    on_close s = record s { is_receiving = false; stop_dispatcher = true }

    -- shutdown: it sets stop_dispatcher too. A receiver that has seen stop_receiver closes.
    unfoldable pub on_shutdown : State → State
    on_shutdown s = record s { stop_dispatcher = true }

    -- The states that a connection reaches, with the reads up to then. The dispatcher takes a
    -- request only when it has answered the one before.
    pub data Reaches : List Text → State → Type 0 where
      start : Reaches [] initial
      receives :
          (data' : Text) {ins : List Text} {s t : State}
          → Reaches ins s
          → s.is_receiving ≡ true
          → on_receive data' s ≡ ok t
          → Reaches (ins ++ data' ∷ []) t
      takes :
          {ins : List Text} {s : State}
          → Reaches ins s
          → s.taken ≡ none
          → s.phase ≡ at_queue
          → Reaches ins (on_take s)
      answers : {ins : List Text} {s t : State} → Reaches ins s → on_answer s ≡ ok t → Reaches ins t
      checks :
          {ins : List Text} {s : State}
          → Reaches ins s
          → s.phase ≡ at_flag
          → Reaches ins (on_flag s)
      closes :
          {ins : List Text} {s : State}
          → Reaches ins s
          → s.is_receiving ≡ true
          → Reaches ins (on_close s)
      shuts_down : {ins : List Text} {s : State} → Reaches ins s → Reaches ins (on_shutdown s)

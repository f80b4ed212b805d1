-- ===== src/Tests/Connections.antt =====
-- The properties of the daemon on a connection with one valid and one invalid request.
use nmdaemon.Command.Workers.{Handler, Worker, dummy}
use nmdaemon.Daemon.Blocks.{answer_block-c_str}
use nmdaemon.Daemon.Queue.{IsServed, Reaches-IsServed, flat, invalid_read, valid_read}
use nmdaemon.Daemon.{
  Reaches, State, at_flag, answer, answer_block, answer_text, error_json, initial, nm_maxbuf,
  on_receive, on_take, on_answer, receives, takes, answers, start, strlcpy, zeros,
}
use nmdaemon.Keys.{json_data_err_internal_error, json_param_cmd, json_param_scope}
use nmdaemon.Prelude.{
  ◌≡◌, ◌<◌, refl, subst, arith, Option, none, some, Result, ok, throw, List, [], ◌∷◌, length,
  if◌then◌else◌,
}
use nmdaemon.Tests.Fixtures.{Doc, docs, is_obj, doc_insert, doc_find, doc_text}
use nmdaemon.Text.{c_str, Text, codes, text_eq, Lacks}

abbrev hello : Doc
hello =
    docs.insert json_param_scope (docs.of_text (codes "DUMMY"))
      (docs.insert json_param_cmd (docs.of_text (codes "TEST")) docs.null)

abbrev parse_hello : Text → Option Doc
parse_hello s = if text_eq s (codes "hello") then some hello else none

abbrev dump_short : Doc → Option Text
dump_short d = some (codes "{}")

abbrev no_run : Handler → Doc → Result Doc
no_run h d = throw

abbrev crew : List Worker
crew = dummy ∷ []

abbrev one_queued : State docs
one_queued = record (initial docs) { queue = hello ∷ [] }

read_hello :
    on_receive docs parse_hello dump_short no_run crew (codes "hello\n") (initial docs)
    ≡ ok one_queued
unfolding on_receive is_obj doc_insert doc_find doc_text
read_hello = refl

abbrev hello_taken : State docs
hello_taken = record (initial docs) { taken = some hello }

take_hello : on_take docs parse_hello dump_short no_run crew one_queued ≡ hello_taken
unfolding on_take
take_hello = refl

abbrev hello_block : Text
hello_block = strlcpy (zeros nm_maxbuf) (codes "{}")

hello_answer : answer_block docs parse_hello dump_short no_run crew hello ≡ ok hello_block
unfolding answer_block is_obj doc_insert doc_find doc_text
hello_answer = refl

abbrev hello_answered : State docs
hello_answered = record (initial docs) { sent = answer hello_block ∷ []; phase = at_flag }

answer_hello : on_answer docs parse_hello dump_short no_run crew hello_taken ≡ ok hello_answered
unfolding on_answer
answer_hello = rw hello_answer refl

hello_run : Reaches docs parse_hello dump_short no_run crew (codes "hello\n" ∷ []) hello_answered
unfolding on_take
hello_run =
    answers (takes (receives (codes "hello\n") start refl read_hello) refl refl) answer_hello

Reaches-IsServed_example :
    IsServed docs parse_hello dump_short no_run crew
      (flat (valid_read docs parse_hello dump_short no_run crew) (codes "hello\n" ∷ []))
      (flat (invalid_read docs parse_hello dump_short no_run crew) (codes "hello\n" ∷ []))
      hello_answered
Reaches-IsServed_example =
    Reaches-IsServed docs parse_hello dump_short no_run crew (codes "hello\n" ∷ []) hello_answered
      hello_run

short_has_no_nul : (v : Doc) (s : Text) → dump_short v ≡ some s → Lacks 0 s
short_has_no_nul v s h = subst (λ o. OptionLacks o) h refl
  where
    OptionLacks : Option Text → Type 0
    OptionLacks none = Unit
    OptionLacks (some t) = Lacks 0 t

short_fits :
    (s : Text)
    → dump_short (error_json docs json_data_err_internal_error) ≡ some s
    → length s < nm_maxbuf
short_fits s h = subst (λ o. OptionFits o) h (omega arith)
  where
    OptionFits : Option Text → Type 0
    OptionFits none = Unit
    OptionFits (some t) = length t < nm_maxbuf

answer_block-c_str_example :
    (s : Text) × (answer_text docs parse_hello dump_short no_run crew hello ≡ ok s)
    × (c_str hello_block ≡ s)
    × (length hello_block ≡ nm_maxbuf)
answer_block-c_str_example =
    answer_block-c_str docs parse_hello dump_short no_run crew short_has_no_nul short_fits hello
      hello_block hello_answer

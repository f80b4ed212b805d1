-- ===== src/Tests/Sockets.antt =====
-- A host with the files of its sockets and the texts that were sent, on which no reply comes.
use nmdaemon.Exec.Keeps.{Keeps}
use nmdaemon.Prelude.{
  ℕ, ◌≡◌, ◌≢◌, refl, arith, Bool, true, false, not, Option, none, ok, List, [], ◌∷◌, ◌++◌, any, all,
  keep, if◌then◌else◌, Bool-cases, inl, inr,
}
use nmdaemon.Tests.Fixtures.{Doc, nil, docs, bsd}
use nmdaemon.Text.{Text, codes, text_eq, text_eq_iff}
use nmdaemon.Wpa.Buffer.{is_blank, search_line_in_buf}
use nmdaemon.Wpa.Buffer.Masks.{search_line_in_buf-blank}
use nmdaemon.Wpa.Control.{wpa_ctrl_wait}
use nmdaemon.Wpa.Execute.Files.{NoFile}
use nmdaemon.Wpa.Execute.Lines.{IsGuard, OnSys}
use nmdaemon.Wpa.Execute.Removed.{handler-NoFile}
use nmdaemon.Wpa.Execute.Sent.{handler-OnSys}
use nmdaemon.Wpa.Execute.Stuck.{Failed, outcomes, outcomes-wpa_ctrl_wait}
use nmdaemon.Wpa.Execute.{Case, handler}
use nmdaemon.Wpa.Networks.{has_line_end}
use nmdaemon.Wpa.{Sockets, State, command_reassociate, command_status, result_connected}

record Host : Type 0 where
  pub files : List Text
  pub sent : List Text

abbrev has_path : Text → Host → Bool
has_path p h = any (text_eq p) h.files

abbrev bind_path : Text → Host → Bool × Host
bind_path p h =
    (not (has_path p h), record h { files = if has_path p h then h.files else p ∷ h.files })

abbrev unlink_path : Text → Host → Host
unlink_path p h = record h { files = keep (λ q. not (text_eq p q)) h.files }

taken : (p : Text) (h : Host) → has_path p h ≡ true → (bind_path p h).0 ≡ false
taken p h e = rw e refl

kept :
    (p : Text) (h : Host) → (bind_path p h).0 ≡ false → has_path p (bind_path p h).1 ≡ has_path p h
kept p h e = ground (arith, e)

made : (p : Text) (h : Host) → (bind_path p h).0 ≡ true → has_path p (bind_path p h).1 ≡ true
made p h e = ground (arith, e, text_eq_iff p p)

removed : (p : Text) (l : List Text) → any (text_eq p) (keep (λ q. not (text_eq p q)) l) ≡ false
removed p [] = refl
removed p (q ∷ l) = elim (Bool-cases (text_eq p q)) [
  | inl e ↦ rw e (removed p l)
  | inr e ↦ rw e (rw e (removed p l))
]

abbrev host : Sockets Host
host = record {
  bind = bind_path;
  connect = λ p h. (true, h);
  send = λ s h. (true, record h { sent = s ∷ h.sent });
  recv = λ h. (none, h);
  close = λ h. h;
  unlink = unlink_path;
  has_file = has_path;
  bind-has_file = taken;
  bind_keeps = kept;
  bind_makes = made;
  connect_keeps = λ p q h. refl;
  send_keeps = λ p s h. refl;
  recv_keeps = λ p h. refl;
  close_keeps = λ p h. refl;
}

abbrev cli : Text
cli = codes "/var/run/nmd_wpaw.1000000"

abbrev dir : Text
dir = codes "/var/run/wpa_supplicant/"

abbrev fresh : State Host
fresh = record { sys = record { files = []; sent = [] }; buf = [] }

abbrev no_flags : Text → Host → Option (ℕ × ℕ)
no_flags n h = none

abbrev set_flags : Text → ℕ → ℕ → Host → Bool × Host
set_flags n low high h = (true, h)

abbrev at_text : Text → Doc → Doc → Doc
at_text k v j = j

outcomes-wpa_ctrl_wait_example :
    Failed host cli dir
      (λ h. refl)
      (wpa_ctrl_wait host cli dir command_reassociate result_connected (codes "wlan0") fresh)
    × ((outcomes host cli dir
          ((command_status, codes "wlan0") ∷ [])
          (wpa_ctrl_wait host cli dir command_reassociate result_connected
            (codes "wlan0")
            fresh).1).0
        ≡ ok (false ∷ []))
outcomes-wpa_ctrl_wait_example =
    outcomes-wpa_ctrl_wait host cli dir (λ h. refl) command_reassociate result_connected
      (codes "wlan0") fresh ((command_status, codes "wlan0") ∷ []) refl

save_ne_connect : Case.wpa_save ≢ Case.wpa_connect
save_ne_connect e = ground (arith, e)

save_ne_reassoc : Case.wpa_save ≢ Case.wpa_reassoc
save_ne_reassoc e = ground (arith, e)

handler-NoFile_example :
    Keeps
      (NoFile host cli dir)
      (handler host cli dir bsd no_flags set_flags [] docs at_text Case.wpa_save nil)
handler-NoFile_example =
    handler-NoFile host cli dir bsd no_flags set_flags [] docs at_text (λ h. removed cli h.files)
      Case.wpa_save nil save_ne_connect save_ne_reassoc

abbrev LinesOnly : Host → Type 0
LinesOnly h = all (λ s. not (has_line_end s)) h.sent ≡ true

line_sent :
    (s : Text) (h : Host)
    → has_line_end s ≡ false
    → LinesOnly h
    → LinesOnly (record h { sent = s ∷ h.sent })
line_sent s h e i = rw e i

guard : IsGuard host set_flags LinesOnly
guard = record {
  bind = λ p h i. i;
  connect = λ p h i. i;
  send = line_sent;
  recv = λ h i. i;
  close = λ h i. i;
  unlink = λ p h i. i;
  set_flags = λ n low high h i. i;
}

psk_ne_bssid : Case.wpa_setpsk ≢ Case.wpa_set_bssid
psk_ne_bssid e = ground (arith, e)

handler-OnSys_example :
    Keeps
      (OnSys LinesOnly)
      (handler host cli dir bsd no_flags set_flags [] docs at_text Case.wpa_setpsk nil)
handler-OnSys_example =
    handler-OnSys host cli dir bsd no_flags set_flags [] docs at_text LinesOnly guard
      Case.wpa_setpsk nil psk_ne_bssid

tab_is_blank : is_blank b'\t' ≡ true
unfolding is_blank
tab_is_blank = refl

search_line_in_buf-blank_example :
    search_line_in_buf (codes "home" ++ b'\t' ∷ []) false (codes "id\n1\thomework\tany")
    ≡ search_line_in_buf (codes "home") false (codes "id\n1\thomework\tany")
search_line_in_buf-blank_example =
    search_line_in_buf-blank (codes "home") b'\t' false (codes "id\n1\thomework\tany") tab_is_blank

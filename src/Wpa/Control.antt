-- ===== src/Wpa/Control.antt =====
-- WpaSocket and the forms of wpaCtrlCmd (src/wpasocket.cpp, src/nmworkerwpa.cpp).
use nmdaemon.Exec.{pure, ◌>>=◌, ◌>>◌}
use nmdaemon.Prelude.{
  ℕ, zero, suc, ◌+◌, ◌*◌, Bool, true, false, not, ◌&&◌, ◌||◌, Option, none, some, is_some, ok,
  fault, [], ◌++◌, length, take, all, ltb, leb, ◌==◌, if◌then◌else◌,
}
use nmdaemon.Text.{c_str, Text, codes, starts_with, find}
use nmdaemon.Wpa.{Sockets, Call, command_attach, result_fail_busy, result_ok, buf_len, wait_cycles}

-- The buffer, filled with NULs before, behind a recv of `d`, which the report of each message reads as a C string: where no
-- NUL is left in it, this reads behind its end.
unfoldable pub buffer_of : Text → Option Text
unfolding c_str
buffer_of d =
    if leb buf_len (length d) && all (λ c. not (c == 0)) (take buf_len d)
    then none
    else some (c_str (take buf_len d))

-- An unsolicited message: buf[0] == '<', or "IFNAME=" at its start.
unfoldable pub is_unsolicited : ℕ → Text → Bool
unfolding starts_with
is_unsolicited res buf =
    starts_with buf (codes "<") || (ltb 6 res && starts_with buf (codes "IFNAME="))

-- strstr(buf, p) != nullptr
unfoldable pub holds : Text → Text → Bool
unfolding find
holds buf p = is_some (find buf p)

-- The test of a message that is longer than `p`, starts with '<' and holds `p`.
unfoldable pub is_event : Text → ℕ → Text → Bool
unfolding starts_with holds
is_event p res buf = ltb (length p) res && starts_with buf (codes "<") && holds buf p

-- A reply ends the wait with its size; an unsolicited message does not.
unfoldable pub reply : ℕ → Text → Option ℕ
unfolding is_unsolicited
reply res buf = if is_unsolicited res buf then none else some res

unfoldable pub event : Text → ℕ → Text → Option ℕ
unfolding is_event
event p res buf = if is_event p res buf then some res else none

module _ {K : Type 0} (w : Sockets K) where
  -- What is left of a message of `n` bytes in the buffer.
  unfoldable pub stored : ℕ → K → Option Text → Call K (Option ℕ)
  stored n k none s = (fault, record s { sys = k; buf = [] })
  stored n k (some b) s = (ok (if n == 0 then none else some n), record s { sys = k; buf = b })

  -- memset of buf, and recv into it: the number of bytes, or none.
  unfoldable pub received : Option Text × K → Call K (Option ℕ)
  received (none, k) s = (ok none, record s { sys = k; buf = [] })
  received (some d, k) s = stored (length (take buf_len d)) k (buffer_of d) s

  unfoldable pub receive : Call K (Option ℕ)
  receive s = received (w.recv s.sys) s

  unfoldable pub get_buf : Call K Text
  get_buf s = (ok s.buf, s)

  unfoldable pub act : (K → Bool × K) → Call K Bool
  act f s = let (b, k) = f s.sys in (ok b, record s { sys = k })

  unfoldable pub test_of : {A : Type 0} → (ℕ → Text → Option A) → Option ℕ → Text → Option A
  test_of test none buf = none
  test_of test (some res) buf = test res buf

  unfoldable pub stop : {A : Type 0} → Option A → Call K (Option A) → Call K (Option A)
  stop none rest = rest
  stop (some a) rest = pure (some a)

  -- for(i=0; i<n; i++) over what comes in, until `test` finds something.
  unfoldable pub wait_for : {A : Type 0} → (ℕ → Text → Option A) → ℕ → Call K (Option A)
  wait_for test zero = pure none
  wait_for test (suc n) =
      let rest = wait_for test n in do r ← receive; b ← get_buf; stop (test_of test r b) rest

  -- WpaSocket::~WpaSocket, and the end of the functions that clean up
  unfoldable pub drop : Text → Call K Bool
  drop cli s = (ok true, record s { sys = w.unlink cli (w.close s.sys) })

  unfoldable pub close_only : Call K Bool
  close_only s = (ok true, record s { sys = w.close s.sys })

  -- wpaCtrlCmd(WpaSocket*, std::string)
  unfoldable pub sock_ctrl_cmd : Text → Call K Bool
  sock_ctrl_cmd cmd = do
    sent ← act (w.send cmd)
    if not sent then pure false else do r ← wait_for reply (wait_cycles + 1); pure (is_some r)

  -- The answer to a command behind ATTACH: "OK", and no "FAIL-BUSY".
  unfoldable pub is_accepted : ℕ → Text → Bool
  unfolding starts_with
  is_accepted res buf =
      not (ltb 8 res && starts_with buf result_fail_busy)
      && (ltb 1 res && starts_with buf result_ok)

  unfoldable pub accepted : Option ℕ → Text → Bool
  unfolding is_accepted
  accepted none buf = false
  accepted (some res) buf = is_accepted res buf

  module _ (cli srv_dir : Text) where
    -- wpaCtrlCmd(std::string, std::string)
    unfoldable pub wpa_ctrl_cmd : Text → Text → Call K Bool
    wpa_ctrl_cmd cmd ifname = do
      bound ← act (w.bind cli)
      if not bound then pure false else do
        connected ← act (w.connect (srv_dir ++ ifname))
        if not connected then (do drop cli; pure false) else do
          sent ← act (w.send cmd)
          if not sent
              then (do drop cli; pure false)
              else do r ← wait_for reply (wait_cycles + 1); drop cli; pure (is_some r)

    -- wpaCtrlCmd(std::string, std::string, std::string): the file of the socket is removed where
    -- the command has been answered, and left where it has not.
    unfoldable pub wpa_ctrl_wait : Text → Text → Text → Call K Bool
    wpa_ctrl_wait cmd wait ifname = do
      bound ← act (w.bind cli)
      if not bound then pure false else do
        connected ← act (w.connect (srv_dir ++ ifname))
        if not connected then (do close_only; pure false) else do
          attached ← act (w.send command_attach)
          if not attached then (do close_only; pure false) else do
            sent ← act (w.send cmd)
            if not sent then (do close_only; pure false) else do
              r ← wait_for reply (wait_cycles + 1)
              b ← get_buf
              if not (is_some r) then (do close_only; pure false) else do
                if not (accepted r b) then (do drop cli; pure false) else do
                  e ← wait_for (event wait) (2 * wait_cycles + 1)
                  drop cli
                  pure (is_some e)

    -- WpaSocket::WpaSocket: false where it throws
    unfoldable pub open_socket : Text → Call K Bool
    open_socket srv = do
      bound ← act (w.bind cli)
      if not bound then pure false else do
        connected ← act (w.connect srv)
        if not connected then (do drop cli; pure false) else pure true

    -- What a function does with a WpaSocket, which its end destroys.
    unfoldable pub destroyed : {A : Type 0} → Call K A → Call K A
    destroyed m s = let (r, s') = m s in (r, (drop cli s').1)

    unfoldable pub with_socket : {A : Type 0} → Text → Call K A → Call K A → Call K A
    with_socket srv otherwise body = do
      opened ← open_socket srv
      if not opened then otherwise else destroyed body

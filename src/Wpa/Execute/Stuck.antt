-- ===== src/Wpa/Execute/Stuck.antt =====
-- The wpaCtrlCmd with a text to wait for and the exchanges behind it, where nothing comes from
-- wpa_supplicant (src/nmworkerwpa.cpp).
use nmdaemon.Exec.{pure, ◌>>=◌}
use nmdaemon.Prelude.{
  ℕ, zero, suc, ◌+◌, ◌≡◌, refl, ◌∙◌, arith, Bool, true, false, Option, none, some, Result, ok, List,
  [], ◌∷◌, ◌++◌, map,
}
use nmdaemon.Text.{Text}
use nmdaemon.Wpa.Control.{
  get_buf, received, receive, stop, test_of, wait_for, close_only, reply, wpa_ctrl_cmd,
  wpa_ctrl_wait,
}
use nmdaemon.Wpa.Execute.Files.{act-bind}
use nmdaemon.Wpa.{Sockets, State, Call, command_attach, wait_cycles}

module _ {K : Type 0} (w : Sockets K) (cli srv_dir : Text) where
  abbrev pub HasFile : State K → Type 0
  HasFile s = w.has_file cli s.sys ≡ true

  -- Where there is a file, no exchange begins.
  stuck :
      (cmd ifname : Text) (s : State K)
      → HasFile s
      → ((wpa_ctrl_cmd w cli srv_dir cmd ifname s).0 ≡ ok false)
        × HasFile (wpa_ctrl_cmd w cli srv_dir cmd ifname s).1
  unfolding wpa_ctrl_cmd
  stuck cmd ifname s h =
      act-bind w cli srv_dir (λ r. (r.0 ≡ ok false) × HasFile r.1) (w.bind cli) _ s
        (λ e. absurd (ground (arith, w.bind-has_file cli s.sys h, e)))
        (λ e. unfold pure in (refl, w.bind_keeps cli s.sys e ∙ h))

  -- Exchanges one after the other, and their results.
  pub outcomes : List (Text × Text) → Call K (List Bool)
  outcomes [] = pure []
  outcomes ((cmd, ifname) ∷ cs) =
      let rest = outcomes cs in
      wpa_ctrl_cmd w cli srv_dir cmd ifname >>= λ b. rest >>= λ bs. pure (b ∷ bs)

  outcomes-stuck :
      (cs : List (Text × Text)) (s : State K)
      → HasFile s
      → (outcomes cs s).0 ≡ ok (map (λ _. false) cs)
  unfolding outcomes pure ◌>>=◌
  outcomes-stuck [] s h = refl
  outcomes-stuck ((cmd, ifname) ∷ cs) s h =
      let now = stuck cmd ifname s h in
      let later = outcomes-stuck cs (wpa_ctrl_cmd w cli srv_dir cmd ifname s).1 now.1 in
      rw now.0 (rw later refl)

  module _ (silent : (k : K) → (w.recv k).0 ≡ none) where
    received-silent :
        (r : Option Text × K) (s : State K)
        → r.0 ≡ none
        → received w r s ≡ (ok none, record s { sys = r.1; buf = [] })
    unfolding received
    received-silent (none, k) s e = refl
    received-silent (some d, k) s e = absurd (ground (arith, e))

    -- Nothing comes: the wait ends, and the file is as before.
    wait_for-silent :
        {A : Type 0} (test : ℕ → Text → Option A) (n : ℕ) (s : State K)
        → ((wait_for w test n s).0 ≡ ok none)
          × (w.has_file cli (wait_for w test n s).1.sys ≡ w.has_file cli s.sys)
    unfolding wait_for pure receive get_buf ◌>>=◌ stop test_of
    wait_for-silent test zero s = (refl, refl)
    wait_for-silent test (suc n) s =
        let next = wait_for-silent test n (record s { sys = (w.recv s.sys).1; buf = [] }) in
        rw (received-silent (w.recv s.sys) s (silent s.sys))
          (next.0, next.1 ∙ w.recv_keeps cli s.sys)

    -- The call has failed, and there is a file.
    abbrev pub Failed : Result Bool × State K → Type 0
    Failed r = (r.0 ≡ ok false) × HasFile r.1

    closed : (s : State K) → HasFile s → Failed ((close_only w >>= λ _. pure false) s)
    unfolding close_only pure ◌>>=◌
    closed s h = (refl, w.close_keeps cli s.sys ∙ h)

    none-bind :
        {A : Type 0} (m : Call K (Option A)) (f : Option A → Call K Bool) (s : State K)
        → (m s).0 ≡ ok none
        → Failed (f none (m s).1)
        → Failed ((m >>= f) s)
    unfolding ◌>>=◌
    none-bind m f s e h = rw e h

    unanswered :
        (f : Text → Call K Bool) (s : State K)
        → HasFile s
        → ((b : Text) → f b ≡ (close_only w >>= λ _. pure false))
        → Failed ((get_buf w >>= f) s)
    unfolding ◌>>=◌ get_buf
    unanswered f s h e = rw (e s.buf) (closed s h)

    wait-Failed :
        (cmd wait ifname : Text) (s : State K)
        → (w.bind cli s.sys).0 ≡ true
        → Failed (wpa_ctrl_wait w cli srv_dir cmd wait ifname s)
    unfolding wpa_ctrl_wait
    wait-Failed cmd wait ifname s b =
        let bound = w.bind_makes cli s.sys b in
        act-bind w cli srv_dir Failed (w.bind cli) _ s
          (λ e1.
            act-bind w cli srv_dir Failed (w.connect (srv_dir ++ ifname)) _ _
              (λ e2.
                act-bind w cli srv_dir Failed (w.send command_attach) _ _
                  (λ e3.
                    act-bind w cli srv_dir Failed (w.send cmd) _ _
                      (λ e4.
                        none-bind (wait_for w reply (wait_cycles + 1)) _ _
                          (wait_for-silent reply (wait_cycles + 1) _).0
                          (unanswered _ _
                            ((wait_for-silent reply (wait_cycles + 1) _).1
                              ∙ w.send_keeps cli cmd _
                              ∙ w.send_keeps cli command_attach _
                              ∙ w.connect_keeps cli (srv_dir ++ ifname) _
                              ∙ bound)
                            (λ b. refl)))
                      (λ e4. closed _ (
                        w.send_keeps cli cmd _
                        ∙ w.send_keeps cli command_attach _
                        ∙ w.connect_keeps cli (srv_dir ++ ifname) _
                        ∙ bound)))
                  (λ e3. closed _ (
                    w.send_keeps cli command_attach _
                    ∙ w.connect_keeps cli (srv_dir ++ ifname) _
                    ∙ bound)))
              (λ e2. closed _ (w.connect_keeps cli (srv_dir ++ ifname) _ ∙ bound)))
          (λ e1. absurd (ground (arith, b, e1)))

    -- Where nothing ever comes from wpa_supplicant, a wpaCtrlCmd with a text to wait for that can
    -- bind its socket fails and leaves the file of the socket, and each wpaCtrlCmd that follows
    -- fails, for any command and interface.
    pub outcomes-wpa_ctrl_wait :
        (cmd wait ifname : Text) (s : State K) (cs : List (Text × Text))
        → (w.bind cli s.sys).0 ≡ true
        → Failed (wpa_ctrl_wait w cli srv_dir cmd wait ifname s)
          × ((outcomes cs (wpa_ctrl_wait w cli srv_dir cmd wait ifname s).1).0
              ≡ ok (map (λ _. false) cs))
    outcomes-wpa_ctrl_wait cmd wait ifname s cs b =
        let failed = wait-Failed cmd wait ifname s b in
        (failed, outcomes-stuck cs (wpa_ctrl_wait w cli srv_dir cmd wait ifname s).1 failed.1)

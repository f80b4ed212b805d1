-- ===== src/Wpa/Execute/Lines.antt =====
-- Which texts NmWorkerWpa sends to wpa_supplicant (src/nmworkerwpa.cpp), as what is kept of the
-- system by all calls but the sending of a text with a line end.
use nmdaemon.Exec.Keeps.{After, Keeps, keeps_rules, Keeps-pure, Keeps-bind, Keeps-if}
use nmdaemon.Prelude.{
  ℕ, zero, suc, ◌≡◌, refl, Bool, false, not, Option, none, some, Result, ok, throw, fault,
}
use nmdaemon.Text.{Text}
use nmdaemon.Sys.{set_if_flags}
use nmdaemon.Wpa.Control.{
  get_buf, act, stored, received, receive, stop, wait_for, drop, close_only, sock_ctrl_cmd,
  wpa_ctrl_cmd, wpa_ctrl_wait, open_socket, destroyed, with_socket, buffer_of,
}
use nmdaemon.Wpa.Networks.{has_line_end}
use nmdaemon.Wpa.{Sockets, State, Call, command_attach}

-- `Inv` of the system survives each call but the sending of a text with a line end.
pub record IsGuard {K : Type 0} (w : Sockets K) (siocsifflags : Text → ℕ → ℕ → K → Bool × K)
    (Inv : K → Type 0) : Type 0 where
  pub bind : (p : Text) (k : K) → Inv k → Inv (w.bind p k).1
  pub connect : (p : Text) (k : K) → Inv k → Inv (w.connect p k).1
  pub send : (s : Text) (k : K) → has_line_end s ≡ false → Inv k → Inv (w.send s k).1
  pub recv : (k : K) → Inv k → Inv (w.recv k).1
  pub close : (k : K) → Inv k → Inv (w.close k)
  pub unlink : (p : Text) (k : K) → Inv k → Inv (w.unlink p k)
  pub set_flags : (n : Text) (low high : ℕ) (k : K) → Inv k → Inv (siocsifflags n low high k).1

abbrev pub OnSys : {K : Type 0} → (K → Type 0) → State K → Type 0
OnSys Inv s = Inv s.sys

module _ {K : Type 0} (w : Sockets K) (cli srv_dir : Text)
    (siocgifflags : Text → K → Option (ℕ × ℕ)) (siocsifflags : Text → ℕ → ℕ → K → Bool × K)
    (Inv : K → Type 0) (g : IsGuard w siocsifflags Inv) where
  act-Keeps : (f : K → Bool × K) → ((k : K) → Inv k → Inv (f k).1) → Keeps (OnSys Inv) (act w f)
  unfolding act
  act-Keeps f h = record { at = λ s i. h s.sys i }

  pub get_buf-Keeps : Keeps (OnSys Inv) (get_buf w)
  unfolding get_buf
  get_buf-Keeps = record { at = λ s i. i }

  drop-Keeps : Keeps (OnSys Inv) (drop w cli)
  unfolding drop
  drop-Keeps = record { at = λ s i. g.unlink cli (w.close s.sys) (g.close s.sys i) }

  close_only-Keeps : Keeps (OnSys Inv) (close_only w)
  unfolding close_only
  close_only-Keeps = record { at = λ s i. g.close s.sys i }

  stored-After :
      (n : ℕ) (k : K) (b : Option Text) (s : State K) → Inv k → After (OnSys Inv) (stored w n k b s)
  unfolding stored
  stored-After n k none s i = tt
  stored-After n k (some b) s i = i

  received-After :
      (r : Option Text × K) (s : State K) → Inv r.1 → After (OnSys Inv) (received w r s)
  unfolding received
  received-After (none, k) s i = i
  received-After (some d, k) s i = stored-After _ k (buffer_of d) s i

  receive-Keeps : Keeps (OnSys Inv) (receive w)
  unfolding receive
  receive-Keeps = record { at = λ s i. received-After (w.recv s.sys) s (g.recv s.sys i) }

  stop-Keeps :
      {A : Type 0} (o : Option A) (rest : Call K (Option A))
      → Keeps (OnSys Inv) rest
      → Keeps (OnSys Inv) (stop w o rest)
  unfolding stop
  stop-Keeps none rest h = h
  stop-Keeps (some a) rest h = Keeps-pure (some a)

  pub wait_for-Keeps :
      {A : Type 0} (test : ℕ → Text → Option A) (n : ℕ) → Keeps (OnSys Inv) (wait_for w test n)
  unfolding wait_for
  wait_for-Keeps test zero = Keeps-pure none
  wait_for-Keeps test (suc n) =
      Keeps-bind _ _ receive-Keeps
        λ r. Keeps-bind _ _ get_buf-Keeps λ b. stop-Keeps _ _ (wait_for-Keeps test n)

  pub send-Keeps : (s : Text) → has_line_end s ≡ false → Keeps (OnSys Inv) (act w (w.send s))
  send-Keeps s h = act-Keeps (w.send s) (λ k i. g.send s k h i)

  bind-Keeps : (p : Text) → Keeps (OnSys Inv) (act w (w.bind p))
  bind-Keeps p = act-Keeps (w.bind p) (g.bind p)

  connect-Keeps : (p : Text) → Keeps (OnSys Inv) (act w (w.connect p))
  connect-Keeps p = act-Keeps (w.connect p) (g.connect p)

  pub ctrl :
      (cmd ifname : Text)
      → has_line_end cmd ≡ false
      → Keeps (OnSys Inv) (wpa_ctrl_cmd w cli srv_dir cmd ifname)
  unfolding wpa_ctrl_cmd
  ctrl cmd ifname h =
      let sent = send-Keeps cmd h in
      let dropped = drop-Keeps in
      search (keeps_rules, bind-Keeps, connect-Keeps, wait_for-Keeps) depth 40

  pub sock_ctrl_cmd-Keeps :
      (cmd : Text) → has_line_end cmd ≡ false → Keeps (OnSys Inv) (sock_ctrl_cmd w cmd)
  unfolding sock_ctrl_cmd
  sock_ctrl_cmd-Keeps cmd h =
      let sent = send-Keeps cmd h in search (keeps_rules, wait_for-Keeps) depth 40

  attach-Keeps : Keeps (OnSys Inv) (act w (w.send command_attach))
  attach-Keeps = send-Keeps command_attach (unfold has_line_end in refl)

  pub wpa_ctrl_wait-Keeps :
      (cmd wait ifname : Text)
      → has_line_end cmd ≡ false
      → Keeps (OnSys Inv) (wpa_ctrl_wait w cli srv_dir cmd wait ifname)
  unfolding wpa_ctrl_wait
  wpa_ctrl_wait-Keeps cmd wait ifname h =
      let sent = send-Keeps cmd h in
      let dropped = drop-Keeps in
      let closed = close_only-Keeps in
      let buffer = get_buf-Keeps in
      let attached = attach-Keeps in
      search (keeps_rules, bind-Keeps, connect-Keeps, wait_for-Keeps) depth 40 fits 4000

  open_socket-Keeps : (srv : Text) → Keeps (OnSys Inv) (open_socket w cli srv_dir srv)
  unfolding open_socket
  open_socket-Keeps srv =
      let dropped = drop-Keeps in search (keeps_rules, bind-Keeps, connect-Keeps) depth 40

  after_drop :
      {A : Type 0} (r : Result A) (s : State K)
      → After (OnSys Inv) (r, s)
      → After (OnSys Inv) (r, (drop w cli s).1)
  unfolding drop
  after_drop (ok a) s i = g.unlink cli (w.close s.sys) (g.close s.sys i)
  after_drop throw s i = g.unlink cli (w.close s.sys) (g.close s.sys i)
  after_drop fault s i = tt

  destroyed-Keeps :
      {A : Type 0} (m : Call K A)
      → Keeps (OnSys Inv) m
      → Keeps (OnSys Inv) (destroyed w cli srv_dir m)
  unfolding destroyed
  destroyed-Keeps m h = record { at = λ s i. let (r, s') = m s in after_drop r s' (h.at s i) }

  pub with_socket-Keeps :
      {A : Type 0} (srv : Text) (otherwise body : Call K A)
      → Keeps (OnSys Inv) otherwise
      → Keeps (OnSys Inv) body
      → Keeps (OnSys Inv) (with_socket w cli srv_dir srv otherwise body)
  unfolding with_socket
  with_socket-Keeps srv otherwise body h k =
      Keeps-bind _ _ (open_socket-Keeps srv)
        λ opened. Keeps-if (not opened) _ _ h (destroyed-Keeps body k)

  pub set_if_flags-Keeps :
      (ifname : Text) (flags : ℕ)
      → Keeps (OnSys Inv) (act w (set_if_flags siocgifflags siocsifflags ifname flags))
  unfolding set_if_flags
  set_if_flags-Keeps ifname flags = act-Keeps _ (λ k i. g.set_flags ifname _ _ k i)

-- ===== src/Wpa/Execute/Files.antt =====
-- The file of the client's socket (src/nmworkerwpa.cpp, src/wpasocket.cpp) behind each
-- form of wpaCtrlCmd.
use nmdaemon.Exec.Keeps.{After, Keeps}
use nmdaemon.Exec.{pure, ◌>>=◌, behind}
use nmdaemon.Prelude.{
  ℕ, zero, suc, ◌≡◌, ◌≢◌, refl, ◌∙◌, arith, Bool, true, false, not, Option, none, some, is_some,
  Result, ok, throw, fault, ◌++◌, ◌+◌, if◌then◌else◌, Bool-cases, inl, inr,
}
use nmdaemon.Text.{Text}
use nmdaemon.Wpa.Control.{
  get_buf, act, stored, received, receive, stop, wait_for, buffer_of, drop, reply, wpa_ctrl_cmd,
  open_socket, destroyed, with_socket,
}
use nmdaemon.Wpa.{Sockets, State, Call, wait_cycles}

-- A call does not throw.
abbrev Quiet : {K A : Type 0} → Call K A → Type 0
Quiet m = (s : State _) → (m s).0 ≢ throw

module _ {K : Type 0} (w : Sockets K) (cli srv_dir : Text) where
  -- There is no file.
  abbrev pub NoFile : State K → Type 0
  NoFile s = w.has_file cli s.sys ≡ false

  -- A call of the system, by its answer.
  pub act-bind :
      {A : Type 0} (Q : Result A × State K → Type 0) (f : K → Bool × K) (g : Bool → Call K A)
      (s : State K)
      → ((f s.sys).0 ≡ true → Q (g true (record s { sys = (f s.sys).1 })))
      → ((f s.sys).0 ≡ false → Q (g false (record s { sys = (f s.sys).1 })))
      → Q ((act w f >>= g) s)
  unfolding act ◌>>=◌
  act-bind Q f g s h k = elim (Bool-cases (f s.sys).0) [ inl e ↦ rw e (h e) | inr e ↦ rw e (k e) ]

  act-Quiet : (f : K → Bool × K) → Quiet (act w f)
  unfolding act
  act-Quiet f s e = ground arith

  stored-Quiet : (n : ℕ) (k : K) (b : Option Text) → Quiet (stored w n k b)
  unfolding stored
  stored-Quiet n k none s e = ground arith
  stored-Quiet n k (some b) s e = ground arith

  received-Quiet : (r : Option Text × K) → Quiet (received w r)
  unfolding received
  received-Quiet (none, k) s e = ground arith
  received-Quiet (some d, k) s e = stored-Quiet _ k (buffer_of d) s e

  behind-Quiet :
      {A B : Type 0} (r : Result A) (f : A → Call K B) (s : State K)
      → r ≢ throw
      → ((a : A) → Quiet (f a))
      → (behind r f s).0 ≢ throw
  behind-Quiet (ok a) f s h k = k a s
  behind-Quiet throw f s h k = λ e. h refl
  behind-Quiet fault f s h k = λ e. ground arith

  bind-Quiet :
      {A B : Type 0} (m : Call K A) (f : A → Call K B)
      → Quiet m
      → ((a : A) → Quiet (f a))
      → Quiet (m >>= f)
  unfolding ◌>>=◌
  bind-Quiet m f h k s = let (r, s') = m s in behind-Quiet r f s' (h s) k

  stop-Quiet :
      {A : Type 0} (o : Option A) (rest : Call K (Option A)) → Quiet rest → Quiet (stop w o rest)
  unfolding stop pure
  stop-Quiet none rest h s e = h s e
  stop-Quiet (some a) rest h s e = ground arith

  wait_for-Quiet : {A : Type 0} (test : ℕ → Text → Option A) (n : ℕ) → Quiet (wait_for w test n)
  unfolding wait_for pure receive get_buf
  wait_for-Quiet test zero s e = ground arith
  wait_for-Quiet test (suc n) s e =
      bind-Quiet (receive w) _ (λ s'. received-Quiet (w.recv s'.sys) s')
        (λ r.
          bind-Quiet (get_buf w) _ (λ s' e'. ground arith)
            λ b. stop-Quiet _ _ (wait_for-Quiet test n))
        s e

  -- A call that ends without the file, wherever it begins.
  record Leaves {A : Type 0} (m : Call K A) : Type 0 where
    pub at : (s : State K) → After NoFile (m s)

  behind-Leaves :
      {A B : Type 0} (r : Result A) (f : A → Call K B) (s : State K)
      → r ≢ throw
      → ((a : A) → Leaves (f a))
      → After NoFile (behind r f s)
  behind-Leaves (ok a) f s h k = (k a).at s
  behind-Leaves throw f s h k = absurd (h refl)
  behind-Leaves fault f s h k = tt

  bind-Leaves :
      {A B : Type 0} (m : Call K A) (f : A → Call K B)
      → Quiet m
      → ((a : A) → Leaves (f a))
      → Leaves (m >>= f)
  unfolding ◌>>=◌
  bind-Leaves m f h k = record { at = λ s. let (r, s') = m s in behind-Leaves r f s' (h s) k }

  if-Leaves :
      {A : Type 0} (b : Bool) (m n : Call K A) → Leaves m → Leaves n → Leaves (if b then m else n)
  if-Leaves true m n h k = h
  if-Leaves false m n h k = k

  module _ (unlinks : (k : K) → w.has_file cli (w.unlink cli k) ≡ false) where
    drop-Leaves : {A : Type 0} (a : A) → Leaves (drop w cli >>= λ _. pure a)
    unfolding drop ◌>>=◌ pure
    drop-Leaves a = record { at = λ s. unlinks (w.close s.sys) }

    -- Where unlink removes the file, wpaCtrlCmd removes the one that it makes.
    pub wpa_ctrl_cmd-NoFile :
        (cmd ifname : Text) → Keeps NoFile (wpa_ctrl_cmd w cli srv_dir cmd ifname)
    unfolding wpa_ctrl_cmd
    wpa_ctrl_cmd-NoFile cmd ifname = record {
      at = λ s i.
          act-bind (After NoFile) (w.bind cli) _ s
            (λ e.
              (bind-Leaves (act w (w.connect (srv_dir ++ ifname))) _ (act-Quiet _) λ connected.
                  if-Leaves (not connected) _ _ (drop-Leaves false) (
                    bind-Leaves (act w (w.send cmd)) _ (act-Quiet _) λ sent.
                      if-Leaves (not sent) _ _ (drop-Leaves false) (
                        bind-Leaves (wait_for w reply (wait_cycles + 1)) _ (wait_for-Quiet reply _)
                          λ r. drop-Leaves (is_some r)))).at
                _)
            (λ e. unfold pure in w.bind_keeps cli s.sys e ∙ i);
    }

    -- Where unlink removes the file, a WpaSocket removes its own, whatever is done with it.
    after_drop : {A : Type 0} (r : Result A) (s : State K) → After NoFile (r, (drop w cli s).1)
    unfolding drop
    after_drop (ok a) s = unlinks (w.close s.sys)
    after_drop throw s = unlinks (w.close s.sys)
    after_drop fault s = tt

    destroyed-Leaves : {A : Type 0} (m : Call K A) → Leaves (destroyed w cli srv_dir m)
    unfolding destroyed
    destroyed-Leaves m = record { at = λ s. let (r, s') = m s in after_drop r s' }

    -- What open_socket comes to: where it fails, no file is left.
    Opened : Result Bool × State K → Type 0
    Opened r = (b : Bool) × (s : State K) × (r ≡ (ok b, s)) × (b ≡ false → NoFile s)

    returns : (b : Bool) (s : State K) → (b ≡ false → NoFile s) → Opened (pure b s)
    unfolding Opened pure
    returns b s h = (b, s, refl, h)

    dropped : (s : State K) → Opened ((drop w cli >>= λ _. pure false) s)
    unfolding Opened pure drop ◌>>=◌
    dropped s = (false, _, refl, λ x. unlinks (w.close s.sys))

    open_socket-Opened :
        (srv : Text) (s : State K) → NoFile s → Opened (open_socket w cli srv_dir srv s)
    unfolding open_socket Opened
    open_socket-Opened srv s i =
        act-bind Opened (w.bind cli) _ s
          (λ e.
            act-bind Opened (w.connect srv) _ _
              (λ c. returns true _ (λ x. absurd (ground (arith, x)))) (λ c. dropped _))
          (λ e. returns false _ (λ x. w.bind_keeps cli s.sys e ∙ i))

    chosen :
        {A : Type 0} (b : Bool) (otherwise body : Call K A) (s : State K)
        → Keeps NoFile otherwise
        → (b ≡ false → NoFile s)
        → After NoFile ((if not b then otherwise else destroyed w cli srv_dir body) s)
    chosen true otherwise body s h k = (destroyed-Leaves body).at s
    chosen false otherwise body s h k = h.at s (k refl)

    pub with_socket-NoFile :
        {A : Type 0} (srv : Text) (otherwise body : Call K A)
        → Keeps NoFile otherwise
        → Keeps NoFile (with_socket w cli srv_dir srv otherwise body)
    unfolding with_socket ◌>>=◌ Opened
    with_socket-NoFile srv otherwise body h = record {
      at = λ s i.
          let (b, s', e, k) = open_socket-Opened srv s i in rw e (chosen b otherwise body s' h k);
    }

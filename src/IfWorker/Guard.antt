-- ===== src/IfWorker/Guard.antt =====
-- What NmWorkerIf (src/nmworkerif.cpp) does to the system, as what is kept of it by all calls for a
-- valid interface name, with a valid MTU, and by signals to a DHCP client of the interface.
use nmdaemon.Exec.Keeps.{After, After-result, Keeps, keeps_rules, Keeps-pure}
use nmdaemon.Exec.{pure, ◌>>=◌}
use nmdaemon.IfWorker.Addresses.{main_addr, get_main_if_addr, get_if_primary_addr4, text_of4}
use nmdaemon.IfWorker.Client.{
  is_enabled, sleep, signal_pid, signal_client, wait_media, start_client, enable_dhcp, stop_client,
}
use nmdaemon.IfWorker.{Ifaces, Signal, read, call}
use nmdaemon.Platform.{Family, inet, SockAddr, Platform}
use nmdaemon.Prelude.{
  ℕ, zero, suc, ◌<◌, ◌≤◌, ◌≡◌, arith, Bool, true, ◌&&◌, pos, List, [], ◌∷◌, any, ltb, ◌==◌,
  Bool-cases, inl, inr,
}
use nmdaemon.Text.{Text}
use nmdaemon.Tool.Dhcp.{Process, serves, get_dhcp_client_pid}
use nmdaemon.Tool.Names.{is_valid_if_name}

-- A process of the list with this pid that is a DHCP client of the interface.
unfoldable pub is_client : List Process → Text → ℕ → Bool
is_client procs name pid = any (λ p. serves name p && p.pid == pid) procs

-- `Inv` of the system survives sleeping, signals to a DHCP client of an interface, and the calls for
-- an interface with a valid name, an MTU from 1 to 9192 where one is set.
pub record IsGuard {K : Type 0} (w : Ifaces K) (Inv : K → Type 0) : Type 0 where
  pub remove :
      (name : Text) (sa : SockAddr) (k : K)
      → is_valid_if_name name ≡ true
      → Inv k
      → Inv (w.siocdifaddr name sa k).1
  pub add :
      (name : Text) (sa mask : SockAddr) (k : K)
      → is_valid_if_name name ≡ true
      → Inv k
      → Inv (w.siocaifaddr name sa mask k).1
  pub set_mtu :
      (name : Text) (n : ℕ) (k : K)
      → is_valid_if_name name ≡ true
      → 0 < n
      → n ≤ 9192
      → Inv k
      → Inv (w.siocsifmtu name (pos n) k).1
  pub kill :
      (name : Text) (pid : ℕ) (sig : Signal) (k : K)
      → is_valid_if_name name ≡ true
      → is_client (w.processes k) name pid ≡ true
      → Inv k
      → Inv (w.kill pid sig k).1
  pub spawn : (name : Text) (k : K) → is_valid_if_name name ≡ true → Inv k → Inv (w.spawn name k).1
  pub sleep : (k : K) → Inv k → Inv (w.sleep k)

pid-IsClient :
    (procs : List Process) (name : Text)
    → ltb 0 (get_dhcp_client_pid procs name) ≡ true
    → is_client procs name (get_dhcp_client_pid procs name) ≡ true
unfolding is_client get_dhcp_client_pid
pid-IsClient [] name h = absurd (ground (arith, h))
pid-IsClient (p ∷ procs) name h = ground (arith, h, pid-IsClient procs name)

module _ {K : Type 0} (w : Ifaces K) (Inv : K → Type 0) (g : IsGuard w Inv) where
  pub read-Keeps : {A : Type 0} (f : K → A) → Keeps Inv (read f)
  unfolding read
  read-Keeps f = record { at = λ k i. i }

  pub call-Keeps : (f : K → Bool × K) → ((k : K) → Inv k → Inv (f k).1) → Keeps Inv (call f)
  unfolding call
  call-Keeps f h = record { at = λ k i. h k i }

  pub sleep-Keeps : Keeps Inv (sleep w)
  unfolding sleep
  sleep-Keeps = record { at = λ k i. g.sleep k i }

  module _ (name : Text) (valid : is_valid_if_name name ≡ true) where
    pub is_enabled-Keeps : Keeps Inv (is_enabled w name)
    unfolding is_enabled
    is_enabled-Keeps = read-Keeps _

    signal_at :
        (sig : Signal) (k : K)
        → Inv k
        → After Inv (signal_pid w sig (get_dhcp_client_pid (w.processes k) name) k)
    unfolding signal_pid call pure
    signal_at sig k i =
        let pid = get_dhcp_client_pid (w.processes k) name in
        elim (Bool-cases (ltb 0 pid)) [
          | inl e ↦ rw e (g.kill name pid sig k valid (pid-IsClient (w.processes k) name e) i)
          | inr e ↦ rw e i
        ]

    pub signal_client-Keeps : (sig : Signal) → Keeps Inv (signal_client w sig name)
    unfolding signal_client ◌>>=◌ read
    signal_client-Keeps sig = record { at = λ k i. signal_at sig k i }

    pub stop_client-Keeps : (sig : Signal) → Keeps Inv (stop_client w sig name)
    unfolding stop_client
    stop_client-Keeps sig =
        let e = is_enabled-Keeps in
        let s = sleep-Keeps in search (keeps_rules, signal_client-Keeps) depth 40 fits 4000

    wait_media-Keeps : (n : ℕ) → Keeps Inv (wait_media w n name)
    unfolding wait_media
    wait_media-Keeps zero = Keeps-pure true
    wait_media-Keeps (suc n) =
        let rest = wait_media-Keeps n in
        let s = sleep-Keeps in search (keeps_rules, read-Keeps) depth 40 fits 4000

    spawn-Keeps : Keeps Inv (call (w.spawn name))
    spawn-Keeps = call-Keeps (w.spawn name) (λ k i. g.spawn name k valid i)

    pub enable_dhcp-Keeps : Keeps Inv (enable_dhcp w name)
    unfolding enable_dhcp start_client
    enable_dhcp-Keeps =
        let e = is_enabled-Keeps in
        let s = sleep-Keeps in
        let c = spawn-Keeps in search (keeps_rules, wait_media-Keeps) depth 40 fits 4000

    module _ (os : Platform) where
      pub get_main-Keeps : (f : Family) → Keeps Inv (get_main_if_addr w os name f)
      unfolding get_main_if_addr
      get_main-Keeps f = record {
        at = λ k i. After-result Inv (main_addr w os f (w.siocgifaddr name f k)) k i;
      }

      pub primary-Keeps : Keeps Inv (get_if_primary_addr4 w os name)
      unfolding get_if_primary_addr4
      primary-Keeps = record {
        at = λ k i. After-result Inv (text_of4 w os (w.siocgifaddr name inet k)) k i;
      }

-- ===== src/Tool/Dhcp/Clients.antt =====
-- Which process termDHCPClient signals.
use nmdaemon.Prelude.{
  ℕ, ◌<◌, ◌≡◌, refl, sym, ◌∙◌, ◌⊎◌, inl, inr, Bool-cases, arith, Bool, true, false, ◌&&◌, none,
  some, List, [], ◌∷◌, any, All, ltb, ◌==◌,
}
use nmdaemon.Text.{Text}
use nmdaemon.Tool.Dhcp.{Process, serves, is_dhcp_enabled, get_dhcp_client_pid, term_dhcp_client}

pid_found :
    (procs : List Process) (ifname : Text)
    → All (λ p. 0 < p.pid) procs
    → is_dhcp_enabled procs ifname ≡ ltb 0 (get_dhcp_client_pid procs ifname)
unfolding is_dhcp_enabled get_dhcp_client_pid
pid_found [] ifname h = refl
pid_found (p ∷ procs) ifname h = ground (arith, h.0, pid_found procs ifname h.1)

pid_serves :
    (procs : List Process) (ifname : Text)
    → is_dhcp_enabled procs ifname ≡ true
    → any (λ p. serves ifname p && p.pid == get_dhcp_client_pid procs ifname) procs ≡ true
unfolding is_dhcp_enabled get_dhcp_client_pid
pid_serves [] ifname h = h
pid_serves (p ∷ procs) ifname h = ground (arith, pid_serves procs ifname)

-- Where pids are positive, termDHCPClient signals a process exactly if isDHCPEnabled holds, and
-- this is a process named dhclient with the name of the interface somewhere in its arguments.
pub term_dhcp_client-signals :
    (kill : ℕ → Bool) (procs : List Process) (ifname : Text)
    → All (λ p. 0 < p.pid) procs
    → ((is_dhcp_enabled procs ifname ≡ false)
        × (term_dhcp_client kill procs ifname ≡ (false, none)))
      ⊎ ((pid : ℕ) × (is_dhcp_enabled procs ifname ≡ true)
          × (term_dhcp_client kill procs ifname ≡ (kill pid, some pid))
          × (any (λ p. serves ifname p && p.pid == pid) procs ≡ true))
unfolding term_dhcp_client
term_dhcp_client-signals kill procs ifname h = elim (Bool-cases (is_dhcp_enabled procs ifname)) [
  | inr f ↦ inl (f, rw (sym (pid_found procs ifname h) ∙ f) refl)
  | inl t ↦ inr (
    get_dhcp_client_pid procs ifname,
    t,
    rw (sym (pid_found procs ifname h) ∙ t) refl,
    pid_serves procs ifname t,
  )
]

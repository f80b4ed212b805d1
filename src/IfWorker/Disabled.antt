-- ===== src/IfWorker/Disabled.antt =====
-- How execCmdDHCPDisable and execCmdDHCPGetStatus of NmWorkerIf (src/nmworkerif.cpp) fit together.
use nmdaemon.Exec.{Exec, pure, ◌>>=◌}
use nmdaemon.Fields.{text_field, json_result}
use nmdaemon.IfWorker.Client.{
  is_enabled, sleep, signal_pid, signal_client, disable_over, exec_cmd_dhcp_disable, status_json,
  exec_cmd_dhcp_get_status,
}
use nmdaemon.IfWorker.{Ifaces, Signal, sigterm, sigkill, read, call, answer}
use nmdaemon.IfWorker.Named.{with_name-at}
use nmdaemon.Json.{Json}
use nmdaemon.Keys.{json_param_if_name, json_param_succ, json_param_err}
use nmdaemon.Prelude.{
  ◌≡◌, refl, ap, ◌∙◌, ltb, ◌⊎◌, inl, inr, Bool, true, false, not, some, Result, ok, if◌then◌else◌,
  Bool-cases,
}
use nmdaemon.Text.{Text}
use nmdaemon.Tool.Dhcp.{is_dhcp_enabled, get_dhcp_client_pid}
use nmdaemon.Tool.Names.{is_valid_if_name}

module _ {K : Type 0} (w : Ifaces K) (js : Json) where
  open js use {Value}

  -- What execCmdDHCPDisable leaves, and answers.
  pub record Disabled (name : Text) (r : Result Value × K) : Type 0 where
    pub answers :
        r.0
        ≡ ok (
            json_result js
              (if is_dhcp_enabled (w.processes r.1) name then json_param_err else json_param_succ))

  module _ (name : Text) where
    ended : (k : K) → Disabled name ((is_enabled w name >>= λ still. answer js (not still)) k)
    unfolding ◌>>=◌ is_enabled read answer pure
    ended k = elim (Bool-cases (is_dhcp_enabled (w.processes k) name)) [
      | inl e ↦ record { answers = rw e refl }
      | inr e ↦ record { answers = rw e refl }
    ]

    -- The client is not running, or `rest` deals with it.
    or_else :
        (rest : Exec K Value) (k : K)
        → ((k' : K) → Disabled name (rest k'))
        → Disabled name
            ((is_enabled w name >>= λ enabled. if not enabled then answer js true else rest) k)
    unfolding ◌>>=◌ is_enabled read answer pure
    or_else rest k h = elim (Bool-cases (is_dhcp_enabled (w.processes k) name)) [
      | inl e ↦ rw e (h k)
      | inr e ↦ rw e (record { answers = rw e refl })
    ]

    sleep-then :
        (f : Bool → Exec K Value) (k : K)
        → ((k' : K) → Disabled name (f true k'))
        → Disabled name ((sleep w >>= f) k)
    unfolding ◌>>=◌ sleep
    sleep-then f k h = h (w.sleep k)

    signal-then :
        (sig : Signal) (f : Bool → Exec K Value) (k : K)
        → ((b : Bool) (k' : K) → Disabled name (f b k'))
        → Disabled name ((signal_client w sig name >>= f) k)
    unfolding ◌>>=◌ signal_client signal_pid read call pure
    signal-then sig f k h =
        let pid = get_dhcp_client_pid (w.processes k) name in
        elim (Bool-cases (ltb 0 pid)) [
          | inl e ↦ rw e (h (w.kill pid sig k).0 (w.kill pid sig k).1)
          | inr e ↦ rw e (h false k)
        ]

    over-Disabled : (k : K) → Disabled name (disable_over w js name k)
    unfolding disable_over
    over-Disabled k = or_else _ k (λ k1. signal-then sigterm _ k1 (λ b k2.
        sleep-then _ k2
          (λ k3. or_else _ k3 (λ k4. signal-then sigkill _ k4 (λ b' k5. sleep-then _ k5 ended)))))

  status-at :
      (j : Value) (name : Text) (k : K)
      → text_field js json_param_if_name j ≡ some name
      → is_valid_if_name name ≡ true
      → exec_cmd_dhcp_get_status w js j k
        ≡ (ok (status_json w js (is_dhcp_enabled (w.processes k) name)), k)
  unfolding exec_cmd_dhcp_get_status ◌>>=◌ is_enabled read pure
  status-at j name k h valid = rw (with_name-at js j name _ h valid) refl

  -- For a request with a valid interface name execCmdDHCPDisable returns, whatever happens while it
  -- sleeps: it answers SUCCESS where execCmdDHCPGetStatus answers DISABLED behind it, and ERROR where
  -- that answers ENABLED.
  pub exec_cmd_dhcp_disable-status :
      (j : Value) (name : Text) (k : K)
      → text_field js json_param_if_name j ≡ some name
      → is_valid_if_name name ≡ true
      → (((exec_cmd_dhcp_disable w js j k).0 ≡ ok (json_result js json_param_succ))
          × ((exec_cmd_dhcp_get_status w js j (exec_cmd_dhcp_disable w js j k).1).0
              ≡ ok (status_json w js false)))
        ⊎ (((exec_cmd_dhcp_disable w js j k).0 ≡ ok (json_result js json_param_err))
            × ((exec_cmd_dhcp_get_status w js j (exec_cmd_dhcp_disable w js j k).1).0
                ≡ ok (status_json w js true)))
  unfolding exec_cmd_dhcp_disable
  exec_cmd_dhcp_disable-status j name k h valid =
      rw (with_name-at js j name (disable_over w js) h valid) (
        let r = disable_over w js name k in
        let d = over-Disabled name k in
        elim (Bool-cases (is_dhcp_enabled (w.processes r.1) name)) [
          | inl e ↦
              inr (d.answers ∙ rw e refl, ap (λ x. x.0) (status-at j name r.1 h valid) ∙ rw e refl)
          | inr e ↦
              inl (d.answers ∙ rw e refl, ap (λ x. x.0) (status-at j name r.1 h valid) ∙ rw e refl)
        ])

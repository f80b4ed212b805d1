-- ===== src/Command/Workers/Dispatch.antt =====
-- What the workers answer to the commands that they accept.
use nmdaemon.Command.Workers.{
  Worker, sys, iface, route, wpa, ieee80211, dummy, Action, invalid_command, exec_cmd, is_valid_cmd,
  get_scope, scope_eq, cmd_eq, worker_cmds,
}
use nmdaemon.Command.{NmScope, NmCmd, NmCommand, cmds}
use nmdaemon.Prelude.{◌≡◌, refl, Bool, true, false, not, ◌&&◌, ◌||◌, any, all, arith, if◌then◌else◌}
use nmdaemon.Command.Names.{each_test}

unfoldable pub is_refused : Action → Bool
is_refused invalid_command = true
is_refused _ = false

table-agrees :
    (w : Worker) (c : NmCmd)
    → (not (any (λ m. cmd_eq m c) (worker_cmds w)) || not (is_refused (exec_cmd w c))) ≡ true
unfolding worker_cmds exec_cmd is_refused cmd_eq
table-agrees w c =
    each_test (λ k. not (any (λ m. cmd_eq m k) (worker_cmds w)) || not (is_refused (exec_cmd w k)))
      (go w) c
  where
    go :
        (w : Worker)
        → all
            (λ k. not (any (λ m. cmd_eq m k) (worker_cmds w)) || not (is_refused (exec_cmd w k)))
            cmds
          ≡ true
    go sys = refl
    go iface = refl
    go route = refl
    go wpa = refl
    go ieee80211 = refl
    go dummy = refl

-- The workers but the dummy answer every other command with INVALID COMMAND.
unlisted :
    (w : Worker) (c : NmCmd)
    → (scope_eq (get_scope w) NmScope.dummy
        || any (λ m. cmd_eq m c) (worker_cmds w)
        || is_refused (exec_cmd w c))
      ≡ true
unfolding worker_cmds exec_cmd is_refused cmd_eq scope_eq get_scope
unlisted w c =
    each_test
      (λ k.
        scope_eq (get_scope w) NmScope.dummy
        || any (λ m. cmd_eq m k) (worker_cmds w)
        || is_refused (exec_cmd w k))
      (go w) c
  where
    go :
        (w : Worker)
        → all
            (λ k.
              scope_eq (get_scope w) NmScope.dummy
              || any (λ m. cmd_eq m k) (worker_cmds w)
              || is_refused (exec_cmd w k))
            cmds
          ≡ true
    go sys = refl
    go iface = refl
    go route = refl
    go wpa = refl
    go ieee80211 = refl
    go dummy = refl

agreed :
    (d s a r : Bool)
    → (not a || not r) ≡ true
    → (d || a || r) ≡ true
    → d ≡ false
    → (if not s then false else a) ≡ (s && not r)
agreed d s a r h k e = ground arith

-- Each worker but the dummy accepts a command exactly if it is of the worker's scope and the
-- worker's switch has a case for it.
pub is_valid_cmd-answered :
    (w : Worker) (c : NmCommand)
    → scope_eq (get_scope w) NmScope.dummy ≡ false
    → is_valid_cmd w c ≡ (scope_eq c.scope (get_scope w) && not (is_refused (exec_cmd w c.cmd)))
unfolding is_valid_cmd
is_valid_cmd-answered w c d = agreed _ _ _ _ (table-agrees w c.cmd) (unlisted w c.cmd) d

-- ===== src/Tool/Dhcp.antt =====
-- Tool::isDHCPEnabled, Tool::getDHCPClientPid and Tool::termDHCPClient (src/tool.cpp), over the
-- list that Tool::getActiveProcesses gets from the kernel. kill is a parameter.
pub mod Clients
use nmdaemon.Prelude.{
  ℕ, Bool, true, false, ◌&&◌, Option, none, some, is_some, List, [], ◌∷◌, any, ltb, ◌==◌,
  if◌then◌else◌,
}
use nmdaemon.Text.{Text, codes, find, text_eq}

-- The pid, the name and the arguments of a process.
pub record Process : Type 0 where
  pub pid : ℕ
  pub name : Text
  pub args : Text

abbrev pub dhcp_client_process : Text
dhcp_client_process = codes "dhclient"

-- The arguments hold the name anywhere, also as a part of a longer one.
unfoldable pub serves : Text → Process → Bool
unfolding text_eq find
serves ifname p = text_eq p.name dhcp_client_process && is_some (find p.args ifname)

unfoldable pub is_dhcp_enabled : List Process → Text → Bool
unfolding serves
is_dhcp_enabled procs ifname = any (serves ifname) procs

unfoldable pub get_dhcp_client_pid : List Process → Text → ℕ
unfolding serves
get_dhcp_client_pid [] ifname = 0
get_dhcp_client_pid (p ∷ procs) ifname =
    let rest = get_dhcp_client_pid procs ifname in if serves ifname p then p.pid else rest

-- The result, and the process that was sent the signal.
unfoldable pub term_dhcp_client : (ℕ → Bool) → List Process → Text → Bool × Option ℕ
unfolding get_dhcp_client_pid
term_dhcp_client kill procs ifname =
    let pid = get_dhcp_client_pid procs ifname in
    if ltb 0 pid then (kill pid, some pid) else (false, none)

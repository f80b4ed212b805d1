-- ===== src/IfWorker.antt =====
-- NmWorkerIf (src/nmworkerif.cpp): addresses, MTU and DHCP of an interface. The children model the
-- addresses (Addresses), the DHCP client (Client) and the switch (Execute). The member ifName, which
-- each handler sets before it is read, is an argument.
pub mod Addresses
pub mod Client
pub mod Execute
pub mod Guard
pub mod Handlers
pub mod Named
pub mod Disabled
pub mod Missing
use nmdaemon.Exec.{Exec, pure}
use nmdaemon.Fields.{text_field, json_result}
use nmdaemon.Json.{Json}
use nmdaemon.Keys.{json_param_if_name, json_param_succ, json_param_err}
use nmdaemon.Platform.{Family, SockAddr}
use nmdaemon.Prelude.{ℕ, Bool, true, false, ℤ, Option, none, some, ok, List, if◌then◌else◌}
use nmdaemon.Text.{Text}
use nmdaemon.Tool.Dhcp.{Process}
use nmdaemon.Tool.Names.{is_valid_if_name}

-- SIGTERM and SIGKILL
pub data Signal : Type 0 where
  sigterm sigkill : Signal

-- What the worker asks of the system, in its state.
pub record Ifaces (K : Type 0) : Type 0 where
  -- SIOCGIFADDR and SIOCGIFMTU; `none` where the call fails
  pub siocgifaddr : Text → Family → K → Option SockAddr
  pub siocgifmtu : Text → K → Option ℤ
  -- SIOCDIFADDR, SIOCAIFADDR with an address and a mask, and SIOCSIFMTU: whether they succeed
  pub siocdifaddr : Text → SockAddr → K → Bool × K
  pub siocaifaddr : Text → SockAddr → SockAddr → K → Bool × K
  pub siocsifmtu : Text → ℤ → K → Bool × K
  -- getActiveProcesses
  pub processes : K → List Process
  pub kill : ℕ → Signal → K → Bool × K
  -- posix_spawn of /sbin/dhclient with the name of the interface, and waitpid
  pub spawn : Text → K → Bool × K
  -- what happens while the thread sleeps
  pub sleep : K → K
  -- ifm_status as getMediaState gets it, and the bits of <net/if_media.h>
  pub media_status : Text → K → ℕ
  pub ifm_avalid : ℕ
  pub ifm_active : ℕ

module _ {K : Type 0} where
  unfoldable pub read : {A : Type 0} → (K → A) → Exec K A
  read f k = (ok (f k), k)

  unfoldable pub call : (K → Bool × K) → Exec K Bool
  call f k = let (b, k') = f k in (ok b, k')

module _ {K : Type 0} (js : Json) where
  open js use {Value}

  -- JSON_RESULT_SUCCESS or JSON_RESULT_ERR
  unfoldable pub answer : Bool → Exec K Value
  answer b = pure (json_result js (if b then json_param_succ else json_param_err))

  unfoldable pub named : Option Text → (Text → Exec K Value) → Exec K Value
  named none f = answer false
  named (some name) f = if is_valid_if_name name then f name else answer false

  -- The name of the interface, with which each handler begins.
  unfoldable pub with_name : Value → (Text → Exec K Value) → Exec K Value
  with_name j f = named (text_field js json_param_if_name j) f

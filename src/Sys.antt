-- ===== src/Sys.antt =====
-- NmWorkerSys (src/nmworkersys.cpp): enabling and disabling an interface; IfList has the list of
-- interfaces, RcFile the reading and writing of rc.conf, ResolvFile that of resolv.conf. SIOCGIFFLAGS
-- and SIOCSIFFLAGS are parameters: the flags of an interface as the two unsigned halves of ifreq, or
-- nothing where the call fails.
pub mod Flags
pub mod IfList
pub mod RcFile
pub mod ResolvFile
use Prim.Native.Nat.{bit_and, bit_or}
use nmdaemon.Json.{Json}
use nmdaemon.Fields.{text_field}
use nmdaemon.Keys.{json_param_if_name}
use nmdaemon.Platform.{Family, Platform, SockAddr}
use nmdaemon.Prelude.{
  ℕ, ◌+◌, ◌-◌, ◌*◌, ◌/◌, ◌%◌, ◌^◌, String, Bool, true, false, not, Option, none, some, Result, ok,
  throw, fault, ◌>>=◌, ◌==◌, if◌then◌else◌,
}
use nmdaemon.Route.Get.{Reply, exec_cmd_def_route_get, exec_cmd_def_route_del}
use nmdaemon.Route.{Message, Written}
use nmdaemon.Text.{Text, text_eq}

module _ {K : Type 0} (siocgifflags : Text → K → Option (ℕ × ℕ))
    (siocsifflags : Text → ℕ → ℕ → K → Bool × K) where
  -- The flags as a word of 32 bits; 0 where they cannot be read.
  unfoldable pub get_if_flags : Text → K → ℕ
  get_if_flags name k = elim (siocgifflags name k) [
    | none ↦ 0
    | some (low, high) ↦ low % 2 ^ 16 + high % 2 ^ 16 * 2 ^ 16
  ]

  unfoldable pub set_if_flags : Text → ℕ → K → Bool × K
  set_if_flags name flags k = siocsifflags name (flags % 2 ^ 16) (flags / 2 ^ 16) k

  -- curflags |= cmdflag and curflags &= ~cmdflag
  unfoldable pub raise : ℕ → ℕ → ℕ
  raise cmdflag flags = bit_or flags cmdflag

  unfoldable pub lower : ℕ → ℕ → ℕ
  lower cmdflag flags = flags - bit_and flags cmdflag

  module _ (js : Json) where
    open js use {Value}

    -- cmd_json[JSON_PARAM_DATA][JSON_PARAM_IF_NAME] as a string; `none` where that throws.
    unfoldable pub command_if_name : Value → Option Text
    unfolding text_field
    command_if_name j = text_field js json_param_if_name j

    module _ (os : Platform) where
      -- The flags of an interface changed by `change`: what both commands begin with.
      unfoldable pub change_flags : (ℕ → ℕ) → Option Text → K → Bool × K
      unfolding get_if_flags set_if_flags
      change_flags change none k = (false, k)
      change_flags change (some name) k =
          if get_if_flags name k == 0
          then (false, k)
          else set_if_flags name (change (get_if_flags name k)) k

      -- SUCCESS (true) or ERROR (false)
      unfoldable pub exec_cmd_if_enable : Value → K → Bool × K
      unfolding change_flags raise command_if_name
      exec_cmd_if_enable j k = change_flags (raise os.iff_up) (command_if_name j) k

      module _ (rt_get : Family → SockAddr → K → Option Reply × K)
          (rt_write : Message → K → Written × K) where
        unfoldable pub same_name : Option Text → Option Text → Bool
        unfolding text_eq
        same_name (some a) (some b) = text_eq a b
        same_name _ _ = false

        -- The name that the default route is compared by is read from the command.
        unfoldable pub drop_default :
            Option Text → Option Text → Option (Text × Text) × K → Result (Bool × K)
        unfolding same_name exec_cmd_def_route_del
        drop_default name default_name (none, k) = ok (true, k)
        drop_default name default_name (some r, k) =
            if same_name default_name name
            then exec_cmd_def_route_del os rt_get js rt_write k
            else ok (true, k)

        unfoldable pub after_lower : Option Text → Option Text → Bool × K → Result (Bool × K)
        unfolding drop_default exec_cmd_def_route_get
        after_lower name default_name (false, k) = ok (false, k)
        after_lower name default_name (true, k) = do
          r ← exec_cmd_def_route_get os rt_get js k
          drop_default name default_name r

        unfoldable pub exec_cmd_if_disable : Value → K → Result (Bool × K)
        unfolding after_lower change_flags lower command_if_name
        exec_cmd_if_disable j k =
            after_lower (command_if_name j) (command_if_name j)
              (change_flags (lower os.iff_up) (command_if_name j) k)

-- ===== src/Sys/Flags.antt =====
-- What execCmdIfEnable and execCmdIfDisable change.
use nmdaemon.Bits.{bit_and_one, bit_or_one}
use nmdaemon.Json.{Json}
use nmdaemon.Platform.{Family, Platform, SockAddr}
use nmdaemon.Prelude.{
  ℕ, ◌+◌, ◌*◌, ◌/◌, ◌%◌, ◌^◌, ◌<◌, ◌≡◌, ◌≢◌, refl, ap, ◌∙◌, arith, Bool, true, false, Option, none,
  some, Result, ok, ◌>>=◌, >>=-congr, ◌==◌,
}
use nmdaemon.Route.Get.{Reply, exec_cmd_def_route_get, exec_cmd_def_route_del}
use nmdaemon.Route.{Message, Written}
use nmdaemon.Sys.{
  get_if_flags, set_if_flags, raise, lower, command_if_name, change_flags, exec_cmd_if_enable,
  exec_cmd_if_disable, after_lower, drop_default, same_name,
}
use nmdaemon.Text.{Text, text_eq, text_eq_iff}

module _ {K : Type 0} (js : Json) (os : Platform)
    (rt_get : Family → SockAddr → K → Option Reply × K) (rt_write : Message → K → Written × K) where
  -- What is done with the default route once the interface is down.
  abbrev pub delete_default : Option (Text × Text) × K → Result (Bool × K)
  delete_default (none, s) = ok (true, s)
  delete_default (some found, s) = exec_cmd_def_route_del os rt_get js rt_write s

module _ {K : Type 0} (siocgifflags : Text → K → Option (ℕ × ℕ))
    (siocsifflags : Text → ℕ → ℕ → K → Bool × K) (js : Json) (os : Platform) (up : os.iff_up ≡ 1)
    (j : js.Value) (k : K) (name : Text) (low high : ℕ)
    (named : command_if_name siocgifflags siocsifflags js j ≡ some name)
    (flags : siocgifflags name k ≡ some (low, high)) (low_word : low < 2 ^ 16)
    (high_word : high < 2 ^ 16) (readable : low + high ≢ 0) where
  -- The flags as the code reads them.
  read : get_if_flags siocgifflags siocsifflags name k ≡ low + high * 2 ^ 16
  unfolding get_if_flags
  read = rw (flags, get_if_flags) (omega (arith, low_word, high_word))

  changed :
      (change : ℕ → ℕ)
      → change_flags siocgifflags siocsifflags js os change (some name) k
        ≡ siocsifflags name
            (change (low + high * 2 ^ 16) % 2 ^ 16)
            (change (low + high * 2 ^ 16) / 2 ^ 16)
            k
  unfolding change_flags set_if_flags
  changed change = rw (read, nonzero) refl
    where
      nonzero : (low + high * 2 ^ 16 == 0) ≡ false
      nonzero = ground (arith, readable)

  word : ℕ
  word = low + high * 2 ^ 16

  raised : raise siocgifflags siocsifflags os.iff_up word ≡ (low / 2 * 2 + 1) + high * 2 ^ 16
  unfolding raise word
  raised = rw up (omega (arith, bit_or_one (low + high * 2 ^ 16)))

  lowered : lower siocgifflags siocsifflags os.iff_up word ≡ low / 2 * 2 + high * 2 ^ 16
  unfolding lower word
  lowered = rw up (omega (arith, bit_and_one (low + high * 2 ^ 16)))

  asked :
      (change : ℕ → ℕ) (l : ℕ)
      → change word ≡ l + high * 2 ^ 16
      → l < 2 ^ 16
      → change_flags siocgifflags siocsifflags js os change
          (command_if_name siocgifflags siocsifflags js j)
          k
        ≡ siocsifflags name l high k
  unfolding word
  asked change l e h =
      ap (λ n. change_flags siocgifflags siocsifflags js os change n k) named
      ∙ changed change
      ∙ ap (λ w. siocsifflags name (w % 2 ^ 16) (w / 2 ^ 16) k) e
      ∙ ap (λ a. siocsifflags name a ((l + high * 2 ^ 16) / 2 ^ 16) k) (omega (arith, h))
      ∙ ap (λ b. siocsifflags name l b k) (omega (arith, h))

  -- Where IFF_UP is the lowest bit and the flags of the interface that the command names can be
  -- read and are not all unset, execCmdIfEnable asks the system to set that bit and to leave every
  -- other flag as it is, and answers as the system does.
  exec_cmd_if_enable_up :
      exec_cmd_if_enable siocgifflags siocsifflags js os j k
      ≡ siocsifflags name (low / 2 * 2 + 1) high k
  unfolding exec_cmd_if_enable
  exec_cmd_if_enable_up =
      asked (raise siocgifflags siocsifflags os.iff_up) (low / 2 * 2 + 1) raised
        (omega (arith, low_word))

  module _ (rt_get : Family → SockAddr → K → Option Reply × K)
      (rt_write : Message → K → Written × K) (k' : K)
      (cleared : siocsifflags name (low / 2 * 2) high k ≡ (true, k')) where
    same : text_eq name name ≡ true
    same = (text_eq_iff name name).1 refl

    dropped :
        (r : Option (Text × Text) × K)
        → drop_default siocgifflags siocsifflags js os rt_get rt_write (some name) (some name) r
          ≡ delete_default js os rt_get rt_write r
    unfolding drop_default same_name
    dropped (none, s) = refl
    dropped (some found, s) = rw same refl

    after :
        (o : Option Text) (p : Bool × K)
        → o ≡ some name
        → p ≡ (true, k')
        → after_lower siocgifflags siocsifflags js os rt_get rt_write o o p
          ≡ (exec_cmd_def_route_get os rt_get js k' >>= delete_default js os rt_get rt_write)
    unfolding after_lower
    after o p e h =
        ap (λ n. after_lower siocgifflags siocsifflags js os rt_get rt_write n n p) e
        ∙ ap (after_lower siocgifflags siocsifflags js os rt_get rt_write (some name) (some name)) h
        ∙ >>=-congr (exec_cmd_def_route_get os rt_get js k') dropped

    -- Where IFF_UP is the lowest bit, the flags of the interface that the command names can be
    -- read and are not all unset, and the system clears that bit and leaves the other flags,
    -- execCmdIfDisable deletes the default route if the system has one, whichever interface that
    -- route goes through, and answers as its deletion does; if the system has none, it succeeds.
    pub exec_cmd_if_disable_any :
        exec_cmd_if_disable siocgifflags siocsifflags js os rt_get rt_write j k
        ≡ (exec_cmd_def_route_get os rt_get js k' >>= delete_default js os rt_get rt_write)
    unfolding exec_cmd_if_disable
    exec_cmd_if_disable_any = after (command_if_name siocgifflags siocsifflags js j) _ named (
        asked (lower siocgifflags siocsifflags os.iff_up) (low / 2 * 2) lowered
          (omega (arith, low_word))
        ∙ cleared)

-- ===== src/Sys/ResolvFile/Written.antt =====
-- What execCmdResolvConfRead reads behind execCmdResolvConfWrite (src/nmworkersys.cpp).
use nmdaemon.Fields.{at_key}
use nmdaemon.Json.{Json}
use nmdaemon.Keys.{json_param_data}
use nmdaemon.Platform.{Platform}
use nmdaemon.Prelude.{
  ℕ, ◌≡◌, refl, subst, arith, Bool, true, false, Option, none, some, is_some, Result, ok, List, All,
  all,
}
use nmdaemon.ResolvConf.RoundTrip.{HasNoNul, is_plain, accepted, get_config-set_config}
use nmdaemon.ResolvConf.{config_json, get_config, read_request}
use nmdaemon.Sys.RcFile.{Disk, put_files}
use nmdaemon.Sys.ResolvFile.{
  resolvconf_name, exec_cmd_resolv_conf_read, num_bkp, write_rotated, write_data,
  exec_cmd_resolv_conf_write,
}
use nmdaemon.Text.{Text, text_eq_iff}
use nmdaemon.Tool.Rotate.{Files, rotate_config_file}

abbrev pub always : ℕ → Bool
always i = true

module _ (js : Json) (os : Platform)
    (plain4 : (s : Text) → is_some (os.inet_pton4 s) ≡ true → all is_plain s ≡ true)
    (plain6 : (s : Text) → is_some (os.inet_pton6 s) ≡ true → all is_plain s ≡ true) where
  open js use {Value}

  -- What getConfig answers with behind setConfig.
  Shows : Text → List Text → List Text → Result Value → Type 0
  Shows name ns sd r =
      r
      ≡ ok (config_json js os (record { nameservers = accepted os ns; search = sd; domain = name }))

  module _ (stol_short : Text → Option ℕ) (name : Text) (ns sd : List Text)
      (whole : All HasNoNul ns) where
    rotated-Shows :
        (d : Value) (r : Files × Bool)
        → read_request js os d ≡ ok (name, ns, sd)
        → (write_rotated js os stol_short always d r).0 ≡ true
        → Shows name ns sd (get_config js os ((write_rotated js os stol_short always d r).1 0))
    unfolding write_rotated Shows
    rotated-Shows d (fs, false) e h = absurd (ground (arith, h))
    rotated-Shows d (fs, true) e h =
        get_config-set_config js os plain4 plain6 (fs 0) d name ns sd e whole

    data-Shows :
        (n : ℕ) (o : Option Value) (d : Value) (fs : Files)
        → o ≡ some d
        → read_request js os d ≡ ok (name, ns, sd)
        → (write_data js os stol_short always n o fs).0 ≡ true
        → Shows name ns sd (get_config js os ((write_data js os stol_short always n o fs).1 0))
    unfolding write_data
    data-Shows n none d fs e q h = absurd (ground (arith, e))
    data-Shows n (some v) d fs e q h =
        rotated-Shows v (rotate_config_file always n fs)
          (subst (λ x. read_request js os x ≡ ok (name, ns, sd)) (ground (arith, e)) q) h

    -- Where inet_pton accepts only texts without spaces and line ends, nothing keeps the files
    -- from being removed and written, and the DATA of a request are valid and name no nameserver
    -- with a NUL, behind an execCmdResolvConfWrite that answers SUCCESS an execCmdResolvConfRead
    -- answers with the domain and the search domains of the request and with those of its
    -- nameservers that are IPv4 addresses.
    pub exec_cmd_resolv_conf_read-write :
        (conf : Option (Text → Text → Text)) (j d : Value) (disk : Disk)
        → at_key js json_param_data (some j) ≡ some d
        → read_request js os d ≡ ok (name, ns, sd)
        → (exec_cmd_resolv_conf_write js os stol_short always conf j disk).0 ≡ true
        → exec_cmd_resolv_conf_read js os conf
            (exec_cmd_resolv_conf_write js os stol_short always conf j disk).1
          ≡ ok (
              config_json js os
                (record { nameservers = accepted os ns; search = sd; domain = name }))
    unfolding exec_cmd_resolv_conf_write exec_cmd_resolv_conf_read put_files Shows
    exec_cmd_resolv_conf_read-write conf j d disk e q h =
        let file = resolvconf_name conf in
        rw ((text_eq_iff file file).1 refl) (
          data-Shows (num_bkp js os stol_short always conf) (at_key js json_param_data (some j)) d
            (disk file) e q h)

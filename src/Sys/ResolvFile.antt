-- ===== src/Sys/ResolvFile.antt =====
-- execCmdResolvConfRead and execCmdResolvConfWrite (src/nmworkersys.cpp) over ResolvConf and
-- rotateConfigFile.

pub mod Written
use nmdaemon.Fields.{at_key}
use nmdaemon.Json.{Json}
use nmdaemon.Keys.{json_param_data}
use nmdaemon.Platform.{Platform}
use nmdaemon.Prelude.{ℕ, Bool, true, false, Option, none, some, Result, if◌then◌else◌}
use nmdaemon.ResolvConf.{get_config, set_config}
use nmdaemon.Sys.RcFile.{Disk, config_value, value_or, put_files}
use nmdaemon.Text.{Text, codes, is_empty}
use nmdaemon.Tool.Rotate.{Files, put, rotate_config_file}

abbrev pub conf_key_resolvconf_file : Text
conf_key_resolvconf_file = codes "resolvconf_file"

abbrev pub resolvconf_filename_default : Text
resolvconf_filename_default = codes "/etc/resolv.conf"

abbrev pub conf_key_resolvconf_backups : Text
conf_key_resolvconf_backups = codes "resolvconf_backups"

-- std::stol(RESOLVCONF_BACKUPS_DEFAULT)
abbrev pub resolvconf_backups_default : ℕ
resolvconf_backups_default = 5

unfoldable pub resolvconf_name : Option (Text → Text → Text) → Text
resolvconf_name conf =
    value_or (config_value conf conf_key_resolvconf_file) resolvconf_filename_default

module _ (js : Json) (os : Platform) where
  open js use {Value}

  unfoldable pub exec_cmd_resolv_conf_read : Option (Text → Text → Text) → Disk → Result Value
  exec_cmd_resolv_conf_read conf disk = get_config js os (disk (resolvconf_name conf) 0)

  -- (short)std::stol(s), with 0 for a negative number, which rotateConfigFile treats alike, and
  -- none where stol throws.
  module _ (stol_short : Text → Option ℕ) (is_writable : ℕ → Bool) where
    unfoldable pub or_default : Option ℕ → ℕ
    or_default none = resolvconf_backups_default
    or_default (some n) = n

    unfoldable pub num_bkp : Option (Text → Text → Text) → ℕ
    num_bkp conf =
        let strnum = config_value conf conf_key_resolvconf_backups in
        if is_empty strnum then resolvconf_backups_default else or_default (stol_short strnum)

    unfoldable pub write_rotated : Value → Files × Bool → Bool × Files
    write_rotated d (fs, false) = (false, fs)
    write_rotated d (fs, true) =
        let (done, file) = set_config js os (is_writable 0) (fs 0) d in (done, put 0 file fs)

    unfoldable pub write_data : ℕ → Option Value → Files → Bool × Files
    write_data n none fs = (false, fs)
    write_data n (some d) fs = write_rotated d (rotate_config_file is_writable n fs)

    -- SUCCESS (true) or ERROR (false)
    unfoldable pub exec_cmd_resolv_conf_write :
        Option (Text → Text → Text) → Value → Disk → Bool × Disk
    exec_cmd_resolv_conf_write conf j disk =
        let name = resolvconf_name conf in
        let (done, fs) =
          write_data (num_bkp conf) (at_key js json_param_data (some j)) (disk name) in
        (done, put_files name fs disk)

-- ===== src/Sys/RcFile.antt =====
-- execCmdRcConfRead and execCmdRcConfWrite (src/nmworkersys.cpp) over RcConf and rotateConfigFile.
-- The files of a name are its versions, as rotateConfigFile knows them; `parse` and `print` are
-- what CIniFile::Load and Save read and write.
pub mod Backup
use nmdaemon.Fields.{at_key}
use nmdaemon.Ini.{Ini}
use nmdaemon.Json.{Json}
use nmdaemon.Keys.{json_param_data, json_param_err, json_param_result}
use nmdaemon.Platform.{Platform}
use nmdaemon.Prelude.{
  ℕ, Bool, true, false, Option, none, some, Result, ok, throw, fault, ◌>>=◌, ◌==◌, if◌then◌else◌,
  [],
}
use nmdaemon.RcConf.Read.{get_rc_ip_config}
use nmdaemon.RcConf.Write.{set_rc_ip_config}
use nmdaemon.Text.{Text, codes, is_empty, text_eq}
use nmdaemon.Tool.Rotate.{Files, put, rotate_config_file}

abbrev pub conf_sect_system : Text
conf_sect_system = codes "SYSTEM"

abbrev pub conf_key_rcconf_file : Text
conf_key_rcconf_file = codes "rcconf_file"

abbrev pub rcconf_filename_default : Text
rcconf_filename_default = codes "/etc/rc.conf"

abbrev pub conf_key_rcconf_backups : Text
conf_key_rcconf_backups = codes "rcconf_backups"

abbrev pub rcconf_backups_default : Text
rcconf_backups_default = codes "5"

-- sp_conf->getConfigValue(...), where there is a configuration.
unfoldable pub config_value : Option (Text → Text → Text) → Text → Text
config_value none key = []
config_value (some conf) key = conf conf_sect_system key

unfoldable pub value_or : Text → Text → Text
value_or s d = if is_empty s then d else s

unfoldable pub rcconf_name : Option (Text → Text → Text) → Text
unfolding config_value value_or
rcconf_name conf = value_or (config_value conf conf_key_rcconf_file) rcconf_filename_default

-- All files, by name.
abbrev pub Disk : Type 0
Disk = Text → Files

unfoldable pub put_files : Text → Files → Disk → Disk
unfolding text_eq
put_files name fs disk other = if text_eq other name then fs else disk other

-- (short)strtol(s, nullptr, 10), with 0 for a negative number, which rotateConfigFile treats alike.
module _ (strtol_short : Text → ℕ) where
  unfoldable pub n_backups : Option (Text → Text → Text) → ℕ
  unfolding config_value value_or
  n_backups conf =
      strtol_short (value_or (config_value conf conf_key_rcconf_backups) rcconf_backups_default)

  module _ (js : Json) (os : Platform) (ini : Ini) (parse : Text → ini.File)
      (print : ini.File → Text) (is_writable : ℕ → Bool) where
    open js use {Value, null, find, is_keyed, insert, of_text}

    unfoldable pub ini_load : Files → Option ini.File
    ini_load fs = elim (fs 0) [ none ↦ none | some s ↦ some (parse s) ]

    unfoldable pub ini_save : ini.File → Files → Bool × Files
    ini_save f fs = if is_writable 0 then (true, put 0 (some (print f)) fs) else (false, fs)

    -- cmd_json[JSON_PARAM_DATA]; `none` where that throws.
    unfoldable pub command_data : Value → Option Value
    command_data j = at_key js json_param_data (some j)

    unfoldable pub after_rotation : Value → Files × Bool → Result (Bool × Files)
    unfolding set_rc_ip_config ini_load ini_save
    after_rotation d (fs, false) = ok (false, fs)
    after_rotation d (fs, true) = set_rc_ip_config js os ini ini_save (ini_load fs) d fs

    unfoldable pub write_files : ℕ → Option Value → Files → Result (Bool × Files)
    unfolding after_rotation rotate_config_file
    write_files n none fs = ok (false, fs)
    write_files n (some d) fs = after_rotation d (rotate_config_file is_writable n fs)

    -- SUCCESS (true) or ERROR (false)
    unfoldable pub exec_cmd_rc_conf_write :
        Option (Text → Text → Text) → Value → Disk → Result (Bool × Disk)
    unfolding write_files command_data n_backups rcconf_name put_files
    exec_cmd_rc_conf_write conf j disk = do
      r ← write_files (n_backups conf) (command_data j) (disk (rcconf_name conf))
      ok (r.0, put_files (rcconf_name conf) r.1 disk)

    read_loaded : Option ini.File → Value
    unfolding get_rc_ip_config
    read_loaded none = insert json_param_result (of_text (codes json_param_err)) null
    read_loaded (some f) = get_rc_ip_config js os ini f

    unfoldable pub exec_cmd_rc_conf_read : Option (Text → Text → Text) → Disk → Value
    unfolding read_loaded ini_load rcconf_name
    exec_cmd_rc_conf_read conf disk = read_loaded (ini_load (disk (rcconf_name conf)))

-- ===== src/Sys/RcFile/Backup.antt =====
-- A write of rc.conf that succeeds leaves the old file as the first backup.
use nmdaemon.Ini.{Ini}
use nmdaemon.Json.{Json}
use nmdaemon.Keys.{json_param_interfaces, json_param_routes}
use nmdaemon.Platform.{Platform}
use nmdaemon.Prelude.{
  ℕ, suc, ◌≡◌, refl, sym, ap, subst, ◌∙◌, arith, Bool, true, false, ◌&&◌, Option, none, some,
  Result, ok, >>=-eq-ok, if_elim,
}
use nmdaemon.RcConf.Write.{is_nil, list_of, edited, set_rc_ip_config}
use nmdaemon.Sys.RcFile.{
  Disk, rcconf_name, n_backups, put_files, ini_load, ini_save, command_data, after_rotation,
  write_files, exec_cmd_rc_conf_write,
}
use nmdaemon.Text.{Text, text_eq_iff}
use nmdaemon.Tool.Rotate.Versions.{always, rotate_config_file-rotated}
use nmdaemon.Tool.Rotate.{Files, put, rotate_config_file}

module _ (strtol_short : Text → ℕ) (js : Json) (os : Platform) (ini : Ini) (parse : Text → ini.File)
    (print : ini.File → Text) where
  -- The text that a request with the given data makes of a text of rc.conf.
  pub new_text : js.Value → Text → Text
  new_text d c = print (
      edited js os ini (list_of js json_param_interfaces d) (list_of js json_param_routes d)
        (parse c))

  module _ (d : js.Value) (c : Text) where
    saved :
        (fs : Files) {r : Bool × Files}
        → set_rc_ip_config js os ini
            (ini_save strtol_short js os ini parse print always)
            (some (parse c))
            d
            fs
          ≡ ok r
        → r.0 ≡ true
        → r.1 ≡ put 0 (some (new_text d c)) fs
    unfolding set_rc_ip_config ini_save new_text
    saved fs {r} =
        if_elim (λ x. x ≡ ok r → r.0 ≡ true → r.1 ≡ put 0 (some (new_text d c)) fs)
          (is_nil (list_of js json_param_interfaces d) && is_nil (list_of js json_param_routes d))
          (λ e h t. absurd (ground (arith, h, t))) (λ e h t. cc)

    after :
        (p : Files × Bool) {r : Bool × Files}
        → p.1 ≡ true
        → p.0 0 ≡ some c
        → after_rotation strtol_short js os ini parse print always d p ≡ ok r
        → r.0 ≡ true
        → r.1 ≡ put 0 (some (new_text d c)) p.0
    unfolding after_rotation ini_load
    after (fs, false) e h q t = absurd (ground (arith, e))
    after (fs, true) {r} e h q t = saved fs (subst opened h q) t
      where
        opened : Option Text → Type 0
        opened o =
            set_rc_ip_config js os ini (ini_save strtol_short js os ini parse print always)
              (elim o [ none ↦ none | some s ↦ some (parse s) ]) d fs
            ≡ ok r

  module _ (conf : Option (Text → Text → Text)) (j : js.Value) (n : ℕ) (disk : Disk) (c : Text)
      (backups : n_backups strtol_short conf ≡ suc n)
      (old : disk (rcconf_name conf) 0 ≡ some c) where
    turned : Files × Bool
    turned = rotate_config_file always (suc n) (disk (rcconf_name conf))

    turned-same : (turned.1 ≡ true) × (turned.0 0 ≡ some c) × (turned.0 1 ≡ some c)
    unfolding turned
    turned-same =
        let step = rotate_config_file-rotated n (disk (rcconf_name conf)) c old in
        (step.0, step.1 0 ∙ old, step.1 1 ∙ (ground (arith, old)))

    written :
        (o : Option js.Value) {r : Bool × Files}
        → write_files strtol_short js os ini parse print always (suc n) o (disk (rcconf_name conf))
          ≡ ok r
        → r.0 ≡ true
        → (d : js.Value) × (o ≡ some d) × (r.1 0 ≡ some (new_text d c)) × (r.1 1 ≡ some c)
    unfolding write_files turned
    written none e t = absurd (ground (arith, e, t))
    written (some d) {r} e t =
        (d, refl, ap (λ fs. fs 0) files, ap (λ fs. fs 1) files ∙ turned-same.2)
      where
        files : r.1 ≡ put 0 (some (new_text d c)) turned.0
        files = after d c turned turned-same.0 turned-same.1 e t

    here : (fs : Files) (i : ℕ) → put_files (rcconf_name conf) fs disk (rcconf_name conf) i ≡ fs i
    unfolding put_files
    here fs i = rw ((text_eq_iff (rcconf_name conf) (rcconf_name conf)).1 refl) refl

    -- Where nothing keeps the files from being removed and written, one backup or more is kept and
    -- the file is there, an execCmdRcConfWrite that answers SUCCESS leaves the edited text in the
    -- file and the text from before in backup 1.
    pub exec_cmd_rc_conf_write_backup :
        {disk' : Disk}
        → exec_cmd_rc_conf_write strtol_short js os ini parse print always conf j disk
          ≡ ok (true, disk')
        → (d : js.Value) × (command_data strtol_short js os ini parse print always j ≡ some d)
          × (disk' (rcconf_name conf) 0 ≡ some (new_text d c))
          × (disk' (rcconf_name conf) 1 ≡ some c)
    unfolding exec_cmd_rc_conf_write
    exec_cmd_rc_conf_write_backup {disk'} e = go (
        >>=-eq-ok
          (write_files strtol_short js os ini parse print always (n_backups strtol_short conf)
            (command_data strtol_short js os ini parse print always j) (disk (rcconf_name conf)))
          _ e)
      where
        go :
            ((r : Bool × Files) × (write_files strtol_short js os ini parse print always
                  (n_backups strtol_short conf)
                  (command_data strtol_short js os ini parse print always j)
                  (disk (rcconf_name conf))
                ≡ ok r)
              × (◌≡◌ {A = Result (Bool × Disk)}
                  (ok (r.0, put_files (rcconf_name conf) r.1 disk))
                  (ok (true, disk'))))
            → (d : js.Value) × (command_data strtol_short js os ini parse print always j ≡ some d)
              × (disk' (rcconf_name conf) 0 ≡ some (new_text d c))
              × (disk' (rcconf_name conf) 1 ≡ some c)
        go (r, w, q) = out (
            written (command_data strtol_short js os ini parse print always j)
              (subst
                (λ m.
                  write_files strtol_short js os ini parse print always m
                    (command_data strtol_short js os ini parse print always j)
                    (disk (rcconf_name conf))
                  ≡ ok r)
                backups w)
              first)
          where
            first : r.0 ≡ true
            first = cc

            second : put_files (rcconf_name conf) r.1 disk ≡ disk'
            second = cc

            at : (i : ℕ) → disk' (rcconf_name conf) i ≡ r.1 i
            at i = ap (λ k. k (rcconf_name conf) i) (sym second) ∙ here r.1 i

            out :
                ((d : js.Value) × (command_data strtol_short js os ini parse print always j
                    ≡ some d)
                  × (r.1 0 ≡ some (new_text d c))
                  × (r.1 1 ≡ some c))
                → (d : js.Value) × (command_data strtol_short js os ini parse print always j
                    ≡ some d)
                  × (disk' (rcconf_name conf) 0 ≡ some (new_text d c))
                  × (disk' (rcconf_name conf) 1 ≡ some c)
            out (d, e', a, b) = (d, e', at 0 ∙ a, at 1 ∙ b)

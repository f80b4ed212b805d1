-- ===== src/Tests/RcFiles.antt =====
-- rc.conf: the interface of ini files holds of a list of assignments, and the theorems about
-- reading and writing rc.conf hold at concrete requests.
use nmdaemon.Fields.{at_key}
use nmdaemon.Ini.{Ini}
use nmdaemon.Keys.{
  json_param_interfaces, json_param_data, json_param_routes, json_param_if_name,
  json_param_addresses, json_param_addr_primary, json_param_ipv4_addr, json_param_ipv4_mask,
  json_param_ipv4_gw, json_param_rt_name, json_param_status, json_data_enabled,
}
use nmdaemon.Prelude.{
  ℕ, ◌≡◌, ◌⊎◌, refl, Bool, true, false, Option, none, some, is_some, ok, List, [], ◌∷◌, all, arith,
  ◌==◌, if◌then◌else◌, Bool-cases, inl, inr,
}
use nmdaemon.RcConf.Read.Enabled.{active_names, active_routes-edited}
use nmdaemon.RcConf.Read.{active_routes, pieces}
use nmdaemon.RcConf.Read.Pieces.{pieces-length}
use nmdaemon.RcConf.Scan.Masks.{prefix_mask, if_prefix-if_hex}
use nmdaemon.RcConf.Scan.Quads.{Quad, show}
use nmdaemon.RcConf.Scan.RoundTrip.{get_ip_conf_from_string-quoted}
use nmdaemon.RcConf.Scan.Routes.{get_route_conf_from_string-quoted}
use nmdaemon.RcConf.Scan.{
  if_prefix, if_hex, get_ip_conf_from_string, get_route_conf_from_string, static,
}
use nmdaemon.RcConf.Write.Managed.Files.{Kept, set_rc_ip_config-Kept}
use nmdaemon.RcConf.Write.{
  is_nil, read_route, route_addresses, inet_value, route_value, edited, list_of, set_rc_ip_config,
}
use nmdaemon.RcConf.{quoted, routes_key}
use nmdaemon.Sys.RcFile.Backup.{new_text, exec_cmd_rc_conf_write_backup}
use nmdaemon.Sys.RcFile.{
  Disk, rcconf_name, put_files, n_backups, command_data, exec_cmd_rc_conf_write,
}
use nmdaemon.Tool.Rotate.Versions.{always}
use nmdaemon.Tool.Rotate.{put, rotate_config_file}
use nmdaemon.Tests.Fixtures.{
  Doc, str, flag, obj, field, no_fields, doc_list, doc_is_keyed, doc_elements, doc_find, doc_text,
  docs, bsd, some_pton4, some_pton6, known,
}
use nmdaemon.Text.{Text, codes, text_eq, text_eq_iff, trim}
use nmdaemon.Tool.Names.{is_inert}

lookup : Text → List (Text × Text) → Text
unfolding text_eq
lookup k [] = []
lookup k ((l, v) ∷ f) = let rest = lookup k f in if text_eq k l then v else rest

-- Assignments, the last one first.
lookup-cons :
    (k l v : Text) (f : List (Text × Text))
    → lookup k ((l, v) ∷ f) ≡ (if text_eq k l then v else lookup k f)
unfolding lookup
lookup-cons k l v f = refl

abbrev plain : Ini
plain = record {
  File = List (Text × Text);
  same = text_eq;
  get = lookup;
  set = λ k v f. (k, v) ∷ f;
  remove = λ k f. (k, []) ∷ f;
  entries = λ f. f;
  trim = trim;
  same_refl = λ k. (text_eq_iff k k).1 refl;
  get-set = lookup-cons;
  get-remove = λ k l f. lookup-cons k l [] f;
  trim_eq = λ c s. refl;
}

some_pton4-inert : (s : Text) → is_some (some_pton4 s) ≡ true → all is_inert s ≡ true
unfolding some_pton4
some_pton4-inert s h = elim (Bool-cases (text_eq s (codes "10.0.0.1"))) [
  | inl e ↦ known is_inert s (codes "10.0.0.1") refl e
  | inr n ↦ elim (Bool-cases (text_eq s (codes "10.0.0.2"))) [
    | inl e ↦ known is_inert s (codes "10.0.0.2") refl e
    | inr m ↦ known is_inert s (codes "255.0.0.0") refl (ground (arith, h, n, m))
  ]
]

some_pton6-inert : (s : Text) → is_some (some_pton6 s) ≡ true → all is_inert s ≡ true
unfolding some_pton6
some_pton6-inert s h = known is_inert s (codes "::1") refl (ground (arith, h))

abbrev primary_address : Doc
primary_address = obj (
    field json_param_addr_primary (flag true) (
      field json_param_ipv4_addr (str (codes "10.0.0.1")) (
        field json_param_ipv4_mask (str (codes "255.0.0.0"))
          (field json_param_ipv4_gw (str (codes "10.0.0.2")) no_fields))))

abbrev em0 : Doc
em0 = obj (
    field json_param_if_name (str (codes "em0"))
      (field json_param_addresses (doc_list (primary_address ∷ [])) no_fields))

abbrev office : Doc
office = obj (
    field json_param_rt_name (str (codes "office")) (
      field json_param_status (str (codes json_data_enabled))
        (field json_param_addresses primary_address no_fields)))

abbrev request : Doc
request = obj (
    field json_param_interfaces (doc_list (em0 ∷ []))
      (field json_param_routes (doc_list (office ∷ [])) no_fields))

abbrev save : List (Text × Text) → Option (List (Text × Text)) → Bool × Option (List (Text × Text))
save f s = (true, some f)

abbrev saved : List (Text × Text)
saved =
    edited docs bsd plain (list_of docs json_param_interfaces request)
      (list_of docs json_param_routes request) []

abbrev outcome : Bool × Option (List (Text × Text))
outcome = (true, some saved)

runs : set_rc_ip_config docs bsd plain save (some []) request none ≡ ok outcome
unfolding set_rc_ip_config list_of doc_is_keyed doc_elements doc_find doc_list
runs = refl

set_rc_ip_config-Kept_example :
    (outcome ≡ (false, none))
    ⊎ ((g : List (Text × Text)) × (save g none ≡ outcome) × Kept plain (codes "hostname") [] g)
set_rc_ip_config-Kept_example =
    set_rc_ip_config-Kept (codes "hostname") docs bsd plain [] some_pton4-inert some_pton6-inert
      save request none runs

abbrev address : Quad
address = record { a = 192; b = 168; c = 0; d = 7 }

abbrev mask : Quad
mask = record { a = 255; b = 255; c = 255; d = 0 }

abbrev gateway : Quad
gateway = record { a = 192; b = 168; c = 0; d = 1 }

get_ip_conf_from_string-quoted_example :
    get_ip_conf_from_string plain (quoted (inet_value (show address) (show mask)))
    ≡ some (static (show address) (show mask))
get_ip_conf_from_string-quoted_example =
    get_ip_conf_from_string-quoted plain address mask
      (omega arith, omega arith, omega arith, omega arith)
      (omega arith, omega arith, omega arith, omega arith)

get_route_conf_from_string-quoted_example :
    get_route_conf_from_string plain
      (quoted (route_value (show address) (show mask) (show gateway)))
    ≡ some (record { addr = show address; mask = show mask; gw = show gateway })
get_route_conf_from_string-quoted_example =
    get_route_conf_from_string-quoted plain address mask gateway
      (omega arith, omega arith, omega arith, omega arith)
      (omega arith, omega arith, omega arith, omega arith)
      (omega arith, omega arith, omega arith, omega arith)

enables : is_nil (active_names docs bsd (office ∷ [])) ≡ false
unfolding active_names read_route doc_find doc_text doc_elements route_addresses some_pton4
enables = refl

active_routes-edited_example :
    active_routes plain (plain.get routes_key (edited docs bsd plain [] (office ∷ []) []))
    ≡ active_names docs bsd (office ∷ [])
active_routes-edited_example = active_routes-edited docs bsd plain [] (office ∷ []) [] enables

if_prefix-if_hex_example :
    if_prefix (10 ∷ 0 ∷ 0 ∷ 1 ∷ 20 ∷ []) ≡ if_hex (10 ∷ 0 ∷ 0 ∷ 1 ∷ prefix_mask 20 ∷ [])
if_prefix-if_hex_example = if_prefix-if_hex 10 0 0 1 20 (omega arith) (omega arith)

abbrev two_aliases : Text
two_aliases = codes "inet 10.0.0.3 netmask 255.0.0.0 inet 10.0.0.4 netmask 255.0.0.0"

pieces-length_example : pieces 70 two_aliases ≡ pieces 100 two_aliases
pieces-length_example = pieces-length 70 100 two_aliases (omega arith) (omega arith)

abbrev parse_text : Text → List (Text × Text)
parse_text s = (codes "hostname", s) ∷ []

abbrev print_file : List (Text × Text) → Text
print_file f = codes "new"

abbrev five : Text → ℕ
five s = 5

abbrev disk : Disk
disk name i = if i == 0 then some (codes "old") else none

abbrev write_request : Doc
write_request = obj (field json_param_data request no_fields)

abbrev no_conf : Option (Text → Text → Text)
no_conf = none

abbrev after_write : Disk
after_write =
    put_files (codes "/etc/rc.conf")
      (put 0 (some (codes "new")) (rotate_config_file always 5 (disk (codes "/etc/rc.conf"))).0)
      disk

writes :
    exec_cmd_rc_conf_write five docs bsd plain parse_text print_file always no_conf write_request
      disk
    ≡ ok (true, after_write)
unfolding exec_cmd_rc_conf_write doc_is_keyed doc_find doc_elements doc_list at_key
writes = refl

exec_cmd_rc_conf_write_backup_example :
    (d : Doc) × (command_data five docs bsd plain parse_text print_file always write_request
      ≡ some d)
    × (after_write (rcconf_name no_conf) 0
        ≡ some (new_text five docs bsd plain parse_text print_file d (codes "old")))
    × (after_write (rcconf_name no_conf) 1 ≡ some (codes "old"))
unfolding n_backups
exec_cmd_rc_conf_write_backup_example =
    exec_cmd_rc_conf_write_backup five docs bsd plain parse_text print_file no_conf write_request 4
      disk (codes "old") refl refl writes

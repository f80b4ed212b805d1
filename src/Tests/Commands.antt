-- ===== src/Tests/Commands.antt =====
-- The commands of the system worker and the reading of routes at concrete requests.
use nmdaemon.Group.{Group, make as make_group, route}
use nmdaemon.Interface.{Interface}
use nmdaemon.Jails.Addresses.{has_key, address_entries_with_ip4}
use nmdaemon.Jails.{Jail, address_entries}
use nmdaemon.Keys.{json_param_ipv4_addr, json_param_data, json_param_if_name}
use nmdaemon.Platform.{Family, SockAddr}
use nmdaemon.Prelude.{
  ℕ, ◌+◌, ◌≡◌, ◌≢◌, refl, arith, Bool, true, Option, none, some, ok, ◌>>=◌, [], ◌∷◌, all,
}
use nmdaemon.Route.Get.Default.{decode_reply_without_dst}
use nmdaemon.Route.Get.{Reply, decode_reply, exec_cmd_def_route_get}
use nmdaemon.Route.{Message, Written, written}
use nmdaemon.Sys.Flags.{exec_cmd_if_disable_any, delete_default}
use nmdaemon.Sys.{command_if_name, exec_cmd_if_disable}
use nmdaemon.Tests.Fixtures.{
  Doc, str, obj, field, no_fields, docs, bsd, doc_find, doc_text, doc_is_keyed,
}
use nmdaemon.Text.{Text, codes}

abbrev silent : Reply
silent = record {
  rtm_version = 5;
  rtm_errno = 0;
  rtm_flags = 0;
  dst = none;
  gateway = none;
  netmask = none;
  if_name = codes "em0";
}

abbrev empty_group : Group
empty_group = make_group none none none route

silent_decoded : decode_reply bsd empty_group silent ≡ ok none
unfolding decode_reply
silent_decoded = refl

abbrev nothing : Option (Interface × Group)
nothing = none

decode_reply_without_dst_example : nothing ≡ none
decode_reply_without_dst_example =
    decode_reply_without_dst bsd empty_group silent {o = nothing} refl silent_decoded

abbrev for_em0 : Doc
for_em0 =
    obj (
      field json_param_data (obj (field json_param_if_name (str (codes "em0")) no_fields))
        no_fields)

-- A kernel that counts what it is asked to do.
abbrev read_flags : Text → ℕ → Option (ℕ × ℕ)
read_flags name k = some (0x8842, 1)

abbrev write_flags : Text → ℕ → ℕ → ℕ → Bool × ℕ
write_flags name low high k = (true, low)

abbrev no_route : Family → SockAddr → ℕ → Option Reply × ℕ
no_route f sa k = (none, k)

abbrev accept : Message → ℕ → Written × ℕ
accept m k = (written, k)

names_em0 : command_if_name read_flags write_flags docs for_em0 ≡ some (codes "em0")
unfolding command_if_name doc_find doc_text doc_is_keyed
names_em0 = refl

some_flags : 0x8842 + 1 ≢ 0
some_flags e = omega (arith, e)

exec_cmd_if_disable_any_example :
    exec_cmd_if_disable read_flags write_flags docs bsd no_route accept for_em0 0
    ≡ (exec_cmd_def_route_get bsd no_route docs 0x8842 >>= delete_default docs bsd no_route accept)
exec_cmd_if_disable_any_example =
    exec_cmd_if_disable_any read_flags write_flags docs bsd refl for_em0 0 (codes "em0") 0x8842 1
      names_em0 refl (omega arith) (omega arith) some_flags no_route accept 0x8842 refl

abbrev web : Jail
web = record {
  id = 1;
  name = codes "web";
  hostname = codes "web.example";
  path = codes "/jails/web";
  ipv4_addresses = codes "10.0.0.1" ∷ [];
  ipv6_addresses = codes "::1" ∷ [];
}

abbrev of_int : ℕ → Doc
of_int n = str (codes "1")

address_entries_with_ip4_example :
    all (has_key docs of_int json_param_ipv4_addr) (address_entries docs of_int web) ≡ true
address_entries_with_ip4_example =
    address_entries_with_ip4 docs of_int web (codes "10.0.0.1") [] refl

-- ===== src/Group/Flags.antt =====
-- AddressGroup::getFlagsRoute (src/addressgroup.cpp). The values of the RTF_ flags are those that
-- its comment quotes from <net/route.h>.
pub mod Bits
use Prim.Native.Nat.{bit_and}
use nmdaemon.Keys.{
  json_data_rtflag_up, json_data_rtflag_gateway, json_data_rtflag_host, json_data_rtflag_reject,
  json_data_rtflag_dynamic, json_data_rtflag_modified, json_data_rtflag_llinfo,
  json_data_rtflag_static, json_data_rtflag_blackhole, json_data_rtflag_fixedmtu,
  json_data_rtflag_pinned, json_data_rtflag_local, json_data_rtflag_broadcast,
  json_data_rtflag_multicast, json_data_rtflag_sticky,
}
use nmdaemon.Prelude.{ℕ, String, ◌++◌, not, List, [], ◌∷◌, ◌==◌, if◌then◌else◌}

abbrev pub push_if : ℕ → ℕ → String → List String → List String
push_if flags flag name names = if not (bit_and flags flag == 0) then names ++ name ∷ [] else names

unfoldable pub get_flags_route : ℕ → List String
get_flags_route flags =
    let r = push_if flags 0x1 json_data_rtflag_up [] in
    let r = push_if flags 0x2 json_data_rtflag_gateway r in
    let r = push_if flags 0x4 json_data_rtflag_host r in
    let r = push_if flags 0x8 json_data_rtflag_reject r in
    let r = push_if flags 0x10 json_data_rtflag_dynamic r in
    let r = push_if flags 0x20 json_data_rtflag_modified r in
    let r = push_if flags 0x400 json_data_rtflag_llinfo r in
    let r = push_if flags 0x800 json_data_rtflag_static r in
    let r = push_if flags 0x1000 json_data_rtflag_blackhole r in
    let r = push_if flags 0x80000 json_data_rtflag_fixedmtu r in
    let r = push_if flags 0x100000 json_data_rtflag_pinned r in
    let r = push_if flags 0x200000 json_data_rtflag_local r in
    let r = push_if flags 0x400000 json_data_rtflag_broadcast r in
    let r = push_if flags 0x800000 json_data_rtflag_multicast r in
    let r = push_if flags 0x10000000 json_data_rtflag_sticky r in r

-- The table of <net/route.h>: the bit of each name.
abbrev pub flag_bits : List (ℕ × String)
flag_bits =
    (0, "UP")
    ∷ (1, "GATEWAY")
    ∷ (2, "HOST")
    ∷ (3, "REJECT")
    ∷ (4, "DYNAMIC")
    ∷ (5, "MODIFIED")
    ∷ (10, "LLINFO")
    ∷ (11, "STATIC")
    ∷ (12, "BLACKHOLE")
    ∷ (19, "FIXEDMTU")
    ∷ (20, "PINNED")
    ∷ (21, "LOCAL")
    ∷ (22, "BROADCAST")
    ∷ (23, "MULTICAST")
    ∷ (28, "STICKY")
    ∷ []

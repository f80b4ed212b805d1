-- ===== src/Interface.antt =====
-- Interface (src/interface.h, src/interface.cpp): an interface with its addresses, and which of
-- them are primary and which belong to a jail.
pub mod Entries
pub mod Choice
pub mod Marks
pub mod Primary
pub mod Returns
use nmdaemon.Address.{Address, get_family, get_str_addr}
use nmdaemon.Group.FromIfaddrs.{Ifaddrs, of_ifaddrs}
use nmdaemon.Group.Print.{get_addr_json}
use nmdaemon.Group.{Group, set_primary, set_jail}
use nmdaemon.Json.{Json}
use nmdaemon.Keys.{
  json_param_if_name, json_param_status, json_param_media, json_param_dhcp_enabled, json_param_up,
  json_param_running, json_param_addresses,
}
use nmdaemon.Platform.{Family, inet, inet6, family_eq, Platform, SockAddr}
use nmdaemon.Prelude.{
  ℕ, String, Bool, true, false, not, ◌&&◌, ◌||◌, Option, none, some, Result, ok, throw, fault,
  ◌>>=◌, deref, List, [], ◌∷◌, ◌++◌, map, any, keep, if◌then◌else◌,
}
use nmdaemon.Text.{Text, codes, is_empty, text_eq}

-- src/mediastatus.h
pub data MediaStatus : Type 0 where
  unknown active associated running no_carrier : MediaStatus

-- magic_enum::enum_name; `none` for UNKNOWN, which is not shown.
status_name : MediaStatus → Option String
status_name unknown = none
status_name active = some "ACTIVE"
status_name associated = some "ASSOCIATED"
status_name running = some "RUNNING"
status_name no_carrier = some "NO_CARRIER"

pub record Interface : Type 0 where
  pub name : Text
  pub addrs : List Group
  pub has_ipv4 : Bool
  pub has_ipv6 : Bool
  pub is_if_up : Bool
  pub is_if_running : Bool
  pub is_dhcp_enabled : Bool
  pub status : MediaStatus
  pub media_desc : Text

abbrev pub make : Text → Interface
make name = record {
  name = name;
  addrs = [];
  has_ipv4 = false;
  has_ipv6 = false;
  is_if_up = false;
  is_if_running = false;
  is_dhcp_enabled = false;
  status = unknown;
  media_desc = [];
}

unfoldable pub push_addr : Interface → Group → Address → Interface
unfolding get_family family_eq
push_addr i g a = record i {
  addrs = i.addrs ++ g ∷ [];
  is_if_up = i.is_if_up || g.is_up;
  is_if_running = i.is_if_running || g.is_running;
  has_ipv4 = i.has_ipv4 || family_eq (get_family a) inet;
  has_ipv6 = i.has_ipv6 || family_eq (get_family a) inet6;
}

-- addAddress(std::shared_ptr<AddressGroup>): getFamily() reads the address with no test.
unfoldable pub add_group : Option Group → Interface → Result Interface
unfolding push_addr
add_group none i = ok i
add_group (some g) i = deref g.address >>= λ a. ok (push_addr i g a)

-- The report of an entry that makes no group reads the family of its address.
keep_on_throw : Option SockAddr → Interface → Result Group → Result Interface
unfolding add_group
keep_on_throw addr i (ok g) = add_group (some g) i
keep_on_throw addr i throw = deref addr >>= λ sa. ok i
keep_on_throw addr i fault = fault

-- addAddress(struct ifaddrs*): an entry that makes no group is left out.
unfoldable pub add_address : Platform → Ifaddrs → Interface → Result Interface
unfolding keep_on_throw of_ifaddrs
add_address os ifa i = keep_on_throw ifa.addr i (of_ifaddrs os (some ifa))

-- What findPrimaryAndJailAddress asks the system for: isDHCPEnabled, getLastDHCPLeaseAddress,
-- getIfPrimaryAddr4, and GetJailIpv4Addresses of each jail of getJails.
pub record Surroundings : Type 0 where
  pub is_dhcp_enabled : Bool
  pub lease : Text
  pub primary4 : Text
  pub jails4 : List (List Text)

-- addr4_jails; addr6_jails is filled by the same calls.
unfoldable pub jail_addrs : List (List Text) → List Text
jail_addrs [] = []
jail_addrs (l ∷ ls) = l ++ jail_addrs ls

unfoldable pub is_in : List Text → Text → Bool
unfolding text_eq
is_in l s = any (λ t. text_eq t s) l

-- A group of the interface and its address.
abbrev pub Entry : Type 0
Entry = Group × Address

-- The first loop over the groups reads each one's address.
unfoldable pub entries : List Group → Result (List Entry)
entries [] = ok []
entries (g ∷ gs) = do a ← deref g.address; rest ← entries gs; ok ((g, a) ∷ rest)

-- The addresses of a family that no jail has.
abbrev pub is_free : Family → List Text → Entry → Bool
is_free f jails e = family_eq (get_family e.1) f && not (is_in jails (get_str_addr e.1))

-- `addr` if some candidate has it, and "" if none has.
unfoldable pub if_found : Text → List Entry → Text
unfolding text_eq get_str_addr
if_found addr l = if any (λ e. text_eq (get_str_addr e.1) addr) l then addr else []

unfoldable pub preferred : Surroundings → List Entry → Text
unfolding if_found
preferred env l =
    if env.is_dhcp_enabled && not (is_empty env.lease)
    then if_found env.lease l
    else if not (is_empty env.primary4)
    then if_found env.primary4 l
    else []

unfoldable pub first_addr : List Entry → Text
unfolding get_str_addr
first_addr [] = []
first_addr (e ∷ es) = get_str_addr e.1

-- addr4_primary and addr6_primary, of the candidates of the family.
unfoldable pub choose4 : Surroundings → List Entry → Text
unfolding preferred first_addr
choose4 env [] = []
choose4 env (e ∷ es) =
    let chosen = preferred env (e ∷ es) in if is_empty chosen then first_addr (e ∷ es) else chosen

unfoldable pub choose6 : List Entry → Text
unfolding first_addr
choose6 l = first_addr l

unfoldable pub mark_addr : Text → List Text → Entry → Group
unfolding get_str_addr text_eq is_in
mark_addr primary jails e =
    let addr = get_str_addr e.1 in
    let first = if text_eq addr primary then set_primary true e.0 else e.0 in
    if is_in jails addr then set_jail true first else first

unfoldable pub mark_family : Family → Text → Text → List Text → Entry → Group
unfolding mark_addr
mark_family inet primary4 primary6 jails e = mark_addr primary4 jails e
mark_family inet6 primary4 primary6 jails e = mark_addr primary6 jails e
mark_family _ primary4 primary6 jails e = e.0

-- The body of the last loop.
unfoldable pub mark : Text → Text → List Text → Entry → Group
unfolding mark_family get_family
mark primary4 primary6 jails e = mark_family (get_family e.1) primary4 primary6 jails e

unfoldable pub mark_all : Surroundings → List Entry → List Group
unfolding choose4 choose6 mark get_family
mark_all env es =
    let jails = jail_addrs env.jails4 in
    map
      (mark (choose4 env (keep (is_free inet jails) es)) (choose6 (keep (is_free inet6 jails) es))
        jails)
      es

unfoldable pub find_over : Surroundings → Interface → List Group → Result Interface
unfolding entries mark_all
find_over env i [] = ok i
find_over env i (g ∷ []) = ok (record i { addrs = set_primary true g ∷ [] })
find_over env i (g ∷ h ∷ gs) =
    entries (g ∷ h ∷ gs) >>= λ es. ok (record i { addrs = mark_all env es })

unfoldable pub find_primary_and_jail_address : Surroundings → Interface → Result Interface
unfolding find_over
find_primary_and_jail_address env i = find_over env i i.addrs

module _ (js : Json) where
  open js use {Value, null, of_text, of_bool, of_list, insert}

  status_field : Option String → Value → Value
  status_field none j = j
  status_field (some s) j = insert json_param_status (of_text (codes s)) j

  unfoldable pub get_if_json : Interface → Value
  unfolding status_name status_field
  get_if_json i =
      let named = insert json_param_if_name (of_text i.name) null in
      let stated = status_field (status_name i.status) named in
      let media =
        if is_empty i.media_desc
        then stated
        else insert json_param_media (of_text i.media_desc) stated in
      let dhcp =
        if i.is_dhcp_enabled then insert json_param_dhcp_enabled (of_bool true) media else media in
      let up = insert json_param_up (of_bool i.is_if_up) dhcp in
      let run = insert json_param_running (of_bool i.is_if_running) up in
      insert json_param_addresses (of_list (map (get_addr_json js) i.addrs)) run

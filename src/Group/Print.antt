-- ===== src/Group/Print.antt =====
-- AddressGroup::getAddrString and AddressGroup::getAddrJson (src/addressgroup.cpp).
use nmdaemon.Address.{Address, get_family, get_str_addr}
use nmdaemon.Group.Flags.{get_flags_route}
use nmdaemon.Group.{GroupType, bcast, ppp, loopback, route, Group, type_name}
use nmdaemon.Json.{Json}
use nmdaemon.Keys.{
  json_param_addr_type, json_param_addr_primary, json_param_jail, json_param_ipv4_addr,
  json_param_ipv6_addr, json_param_link_addr, json_param_ipv4_mask, json_param_ipv6_mask,
  json_param_ipv4_bcast, json_param_ipv6_bcast, json_param_ipv4_gw, json_param_ipv6_gw,
  json_param_flags,
}
use nmdaemon.Platform.{Family, inet, inet6}
use nmdaemon.Prelude.{String, true, Option, none, some, [], ◌++◌, map, if◌then◌else◌}
use nmdaemon.Text.{Text, codes}

-- strTitle of the address; the class of an address has one of the three families.
abbrev pub address_title : Family → String → String
address_title inet old = json_param_ipv4_addr
address_title inet6 old = json_param_ipv6_addr
address_title Family.link old = json_param_link_addr
address_title _ old = old

abbrev pub by_family : Family → String → String → String
by_family inet four six = four
by_family _ four six = six

-- The title of spIpData for the types that show mask and data; `none` for the others.
abbrev pub extra_title : GroupType → Family → Option String
extra_title bcast f = some (by_family f json_param_ipv4_bcast json_param_ipv6_bcast)
extra_title loopback f = some (by_family f json_param_ipv4_bcast json_param_ipv6_bcast)
extra_title ppp f = some (by_family f json_param_ipv4_gw json_param_ipv6_gw)
extra_title route f = some (by_family f json_param_ipv4_gw json_param_ipv6_gw)
extra_title _ f = none

abbrev line : String → Text → Text
line title value = codes title ++ codes ":" ++ value ++ codes "\n"

line_if : String → Option Address → Text
line_if title none = []
line_if title (some a) = line title (get_str_addr a)

more_lines : Option String → Family → Group → Text
unfolding line_if
more_lines none f g = []
more_lines (some title) f g =
    line_if (by_family f json_param_ipv4_mask json_param_ipv6_mask) g.mask ++ line_if title g.extra

address_lines : Group → Option Address → Text
unfolding more_lines
address_lines g none = []
address_lines g (some a) =
    line (address_title (get_family a) (type_name g.ip_type)) (get_str_addr a)
    ++ more_lines (extra_title g.ip_type (get_family a)) (get_family a) g

unfoldable pub get_addr_string : Group → Text
unfolding address_lines
get_addr_string g =
    line json_param_addr_type (codes (type_name g.ip_type)) ++ address_lines g g.address

module _ (js : Json) where
  open js use {Value, null, of_text, of_bool, of_list, insert}

  insert_if : String → Option Address → Value → Value
  insert_if title none j = j
  insert_if title (some a) j = insert title (of_text (get_str_addr a)) j

  more_fields : Option String → Family → Group → Value → Value
  unfolding insert_if
  more_fields none f g j = j
  more_fields (some title) f g j =
      insert_if title g.extra
        (insert_if (by_family f json_param_ipv4_mask json_param_ipv6_mask) g.mask j)

  flag_fields : GroupType → Group → Value → Value
  flag_fields route g j =
      insert json_param_flags (of_list (map (λ s. of_text (codes s)) (get_flags_route g.flags))) j
  flag_fields _ g j = j

  -- dataJson
  unfoldable pub data_json : Group → Address → Value
  unfolding more_fields flag_fields get_family type_name
  data_json g a = flag_fields g.ip_type g (
      more_fields (extra_title g.ip_type (get_family a)) (get_family a) g (
        insert (address_title (get_family a) (type_name g.ip_type)) (of_text (get_str_addr a))
          null))

  head_json : Group → Value
  unfolding type_name
  head_json g =
      let typed = insert json_param_addr_type (of_text (codes (type_name g.ip_type))) null in
      let primary =
        if g.is_primary then insert json_param_addr_primary (of_bool true) typed else typed in
      if g.is_jail then insert json_param_jail (of_bool true) primary else primary

  with_data : Group → Option Address → Value
  unfolding head_json data_json
  with_data g none = head_json g
  with_data g (some a) = insert (type_name g.ip_type) (data_json g a) (head_json g)

  unfoldable pub get_addr_json : Group → Value
  unfolding with_data
  get_addr_json g = with_data g g.address

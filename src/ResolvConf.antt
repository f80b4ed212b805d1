-- ===== src/ResolvConf.antt =====
-- ResolvConf (src/resolvconf.cpp): reading and writing resolv.conf. The file is its text, `none`
-- when it cannot be opened.
pub mod Lines
pub mod RoundTrip
pub mod Faults
use nmdaemon.Address.{Address, ip4_of_text, get_str_addr}
use nmdaemon.Json.{Json}
use nmdaemon.Keys.{
  json_param_result, json_param_err, json_param_succ, json_param_data, json_param_nameservers,
  json_param_search_domains, json_param_host_domain,
}
use nmdaemon.Platform.{Platform}
use nmdaemon.Prelude.{
  ℕ, String, ◌+◌, Bool, true, false, not, ◌&&◌, ◌||◌, Option, none, some, Result, ok, throw, fault,
  ◌>>=◌, ◌>>◌, or_throw, catch, List, [], ◌∷◌, ◌++◌, map, keep, leb, if◌then◌else◌, drop,
}
use nmdaemon.Text.{Text, codes, is_empty, starts_with, find, split, trim_left, trim}
use nmdaemon.Tool.Names.{is_valid_domain_name, is_valid_ip_addr}

-- nameservers, search_domains and domain of getConfig.
pub record Config : Type 0 where
  pub nameservers : List Address
  pub search : List Text
  pub domain : Text

abbrev pub empty_config : Config
empty_config = record { nameservers = []; search = []; domain = [] }

-- line_view. On a line of spaces alone the first trim empties the view and the second removes
-- all the line's bytes once more, from the empty view.
unfoldable pub view_of : Text → Result Text
view_of line =
    if is_empty line
    then ok []
    else if is_empty (trim_left b' ' line)
    then fault
    else ok (trim b' ' line)

-- What follows the first space, if that is not within the keyword.
unfoldable pub value_of : ℕ → Text → Option Text
value_of keyword view = elim (find view (b' ' ∷ [])) [
  | none ↦ none
  | some pos ↦ if leb keyword pos then some (drop (pos + 1) view) else none
]

-- A nameserver that is no IPv4 address is left out.
add_parsed : Config → Result Address → Config
add_parsed c (ok a) = record c { nameservers = c.nameservers ++ a ∷ [] }
add_parsed c throw = c
add_parsed c fault = c

add_nameserver : Platform → Config → Option Text → Config
unfolding add_parsed
add_nameserver os c none = c
add_nameserver os c (some v) = add_parsed c (ip4_of_text os v)

set_domain : Config → Option Text → Config
set_domain c none = c
set_domain c (some v) = record c { domain = v }

add_search : Config → Option Text → Config
add_search c none = c
add_search c (some v) = record c {
  search = c.search ++ keep (λ s. not (is_empty s)) (split b' ' v);
}

unfoldable pub read_view : Platform → Config → Text → Config
unfolding add_nameserver set_domain add_search value_of
read_view os c view =
    if starts_with view (codes "#")
    then c
    else if starts_with view (codes "nameserver")
    then add_nameserver os c (value_of 10 view)
    else if starts_with view (codes "domain")
    then set_domain c (value_of 6 view)
    else if starts_with view (codes "search")
    then add_search c (value_of 6 view)
    else c

-- The loop over the lines.
unfoldable pub read_lines : Platform → Config → List Text → Result Config
read_lines os c [] = ok c
read_lines os c (line ∷ lines) = view_of line >>= λ view. read_lines os (read_view os c view) lines

unfoldable pub parse_config : Platform → Text → Result Config
unfolding read_lines
parse_config os s = read_lines os empty_config (split b'\n' s)

-- What setConfig writes.
unfoldable pub spaced : List Text → Text
spaced [] = []
spaced (s ∷ ss) = b' ' ∷ (s ++ spaced ss)

search_line : List Text → Text
unfolding spaced
search_line [] = []
search_line (s ∷ ss) = codes "search" ++ (spaced (s ∷ ss) ++ codes "\n")

unfoldable pub nameserver_lines : List Text → Text
nameserver_lines [] = []
nameserver_lines (s ∷ ss) = codes "nameserver " ++ (s ++ (codes "\n" ++ nameserver_lines ss))

unfoldable pub render : Text → List Text → List Text → Text
unfolding search_line nameserver_lines
render domain search nameservers =
    codes "domain "
    ++ (domain
        ++ (codes "\n" ++ (search_line search ++ (nameserver_lines nameservers ++ codes "\n"))))

module _ (js : Json) (os : Platform) where
  open js use {Value, null, of_text, of_list, find as field, insert, text, elements}

  -- for(const auto& v : j) { std::string s = v; if(!ok(s)) throw ...; out.push_back(s); }
  unfoldable pub checked : (Text → Bool) → List Value → Result (List Text)
  checked valid [] = ok []
  checked valid (v ∷ vs) = do
    s ← or_throw (text v)
    if valid s then (checked valid vs >>= λ rest. ok (s ∷ rest)) else throw

  -- j[k] of a missing key is null, which has no elements.
  pub list_at : String → Value → List Value
  list_at k j = elim (field k j) [ none ↦ elements null | some v ↦ elements v ]

  pub text_at : String → Value → Result Text
  text_at k j = elim (field k j) [ none ↦ throw | some v ↦ or_throw (text v) ]

  unfoldable pub check_domain : Text → Result (Unit {0})
  check_domain d =
      if is_empty d || (not (is_empty d) && not (is_valid_domain_name d)) then throw else ok tt

  -- The domain, the nameservers and the search domains of a request.
  unfoldable pub read_request : Value → Result (Text × List Text × List Text)
  unfolding check_domain checked list_at text_at
  read_request j = do
    d ← text_at json_param_host_domain j
    check_domain d
    ns ← checked (is_valid_ip_addr os) (list_at json_param_nameservers j)
    sd ← checked is_valid_domain_name (list_at json_param_search_domains j)
    ok (d, ns, sd)

  -- The result, and the file afterwards. std::ofstream raises no exception: where the file cannot
  -- be opened for writing, nothing is written and the result is the same.
  unfoldable pub write_request :
      Bool → Option Text → Result (Text × List Text × List Text) → Bool × Option Text
  unfolding render
  write_request writable file (ok (d, ns, sd)) =
      (true, if writable then some (render d sd ns) else file)
  write_request writable file throw = (false, file)
  write_request writable file fault = (false, file)

  unfoldable pub set_config : Bool → Option Text → Value → Bool × Option Text
  unfolding write_request read_request
  set_config writable file j = write_request writable file (read_request j)

  unfoldable pub config_json : Config → Value
  config_json c =
      let fields = insert json_param_host_domain (of_text c.domain) (
        insert json_param_search_domains (of_list (map of_text c.search)) (
          insert json_param_nameservers
            (of_list (map (λ a. of_text (get_str_addr a)) c.nameservers)) null)) in
      insert json_param_data fields
        (insert json_param_result (of_text (codes json_param_succ)) null)

  unfoldable pub get_config : Option Text → Result Value
  unfolding config_json parse_config
  get_config none = ok (insert json_param_result (of_text (codes json_param_err)) null)
  get_config (some s) = parse_config os s >>= λ c. ok (config_json c)

-- ===== src/Wpa/Buffer.antt =====
-- What the worker makes of a reply in its buffer (src/nmworkerwpa.cpp): searchLineInBuf,
-- getJsonFromBufLines, getJsonFromBufTable, and std::stoi and std::to_string on ids.
pub mod Masks
use nmdaemon.Json.{Json}
use nmdaemon.Keys.{json_param_result, json_param_data, json_param_succ, json_param_network}
use nmdaemon.Prelude.{
  ℕ, zero, suc, ◌+◌, ◌-◌, ◌*◌, ◌^◌, String, Bool, true, false, not, ◌&&◌, ◌||◌, ℤ, pos, negsuc,
  Option, none, some, Result, ok, fault, ◌>>=◌, List, [], ◌∷◌, all, ltb, leb, ◌==◌, if◌then◌else◌,
}
use nmdaemon.RcConf.{decimal}
use nmdaemon.Text.{Text, codes, is_empty, find, split, trim}

-- " \t\r\n"
unfoldable pub is_blank : ℕ → Bool
is_blank c = c == b' ' || c == b'\t' || c == b'\r' || c == b'\n'

unfoldable pub strip_left : Text → Text
unfolding is_blank
strip_left [] = []
strip_left (c ∷ s) = let rest = strip_left s in if is_blank c then rest else c ∷ s

unfoldable pub strip_right : Text → Text
unfolding is_blank
strip_right [] = []
strip_right (c ∷ s) =
    let rest = strip_right s in if is_blank c && is_empty rest then [] else c ∷ rest

-- mask_stripped
unfoldable pub strip : Text → Text
unfolding strip_left strip_right
strip s = strip_right (strip_left s)

unfoldable pub search_lines : Text → Bool → List Text → Text
unfolding find
search_lines mask at_start [] = []
search_lines mask at_start (l ∷ ls) =
    let rest = search_lines mask at_start ls in
    elim (find l mask) [ none ↦ rest | some p ↦ (if at_start && not (p == 0) then rest else l) ]

unfoldable pub search_line_in_buf : Text → Bool → Text → Text
unfolding search_lines strip split
search_line_in_buf mask at_start buf = search_lines (strip mask) at_start (split b'\n' buf)

-- std::to_string(int)
unfoldable pub int_text : ℤ → Text
unfolding decimal
int_text (pos n) = decimal n
int_text (negsuc n) = b'-' ∷ decimal (suc n)

-- The digits that std::stoi reads: their value, behind the value of those before.
unfoldable pub digits_value : ℕ → Text → ℕ
digits_value acc [] = acc
digits_value acc (c ∷ s) =
    let rest = digits_value (10 * acc + (c - b'0')) s in
    if leb b'0' c && leb c b'9' then rest else acc

starts_with_digit : Text → Bool
starts_with_digit [] = false
starts_with_digit (c ∷ s) = leb b'0' c && leb c b'9'

-- The range of int.
in_int_range : Bool → ℕ → Option ℤ
in_int_range false n = if ltb n (2 ^ 31) then some (pos n) else none
in_int_range true zero = some (pos 0)
in_int_range true (suc n) = if ltb n (2 ^ 31) then some (negsuc n) else none

unsigned : Bool → Text → Option ℤ
unfolding digits_value starts_with_digit in_int_range
unsigned minus s = if starts_with_digit s then in_int_range minus (digits_value 0 s) else none

is_space : ℕ → Bool
is_space c = c == b' ' || (leb 9 c && leb c 13)

-- std::stoi; `none` where it throws.
unfoldable pub stoi : Text → Option ℤ
unfolding unsigned is_space
stoi [] = none
stoi (c ∷ s) =
    let rest = stoi s in
    if is_space c
    then rest
    else if c == b'-'
    then unsigned true s
    else if c == b'+'
    then unsigned false s
    else unsigned false (c ∷ s)

-- std::getline with a delimiter, on a stream that is not at its end: what it reads, and the rest,
-- or none where the stream has ended.
unfoldable pub get_piece : ℕ → Text → Text × Option Text
get_piece d [] = ([], none)
get_piece d (c ∷ s) =
    let rest = get_piece d s in if c == d then ([], some s) else (c ∷ rest.0, rest.1)

-- The value of a line without '=' is the one of the line before: getline leaves it alone.
unfoldable pub line_value : Text → Option Text → Text
unfolding get_piece
line_value before none = before
line_value before (some s) = (get_piece b'=' s).0

-- A name of spaces alone, which the code trims by more than its length.
unfoldable pub all_spaces : Text → Bool
all_spaces s = not (is_empty s) && all (λ c. c == b' ') s

-- The names of the columns, trimmed.
unfoldable pub column_names : List Text → Result (List Text)
unfolding all_spaces trim
column_names [] = ok []
column_names (c ∷ cs) =
    if all_spaces c then fault else do ns ← column_names cs; ok (trim b' ' c ∷ ns)

module _ (js : Json) where
  open js use {Value, null, insert, of_text, of_list}

  -- j[key] with a key from a reply
  module _ (insert_at : Text → Value → Value → Value) where
    -- while (getline (ss, line)) of getJsonFromBufLines
    unfoldable pub lines_json : List Text → Text → Value → Value
    unfolding get_piece line_value
    lines_json [] before j = j
    lines_json (l ∷ ls) before j =
        let (key, rest) = get_piece b'=' l in
        let value = line_value before rest in lines_json ls value (insert_at key (of_text value) j)

    unfoldable pub get_json_from_buf_lines : String → Text → Value
    unfolding lines_json split
    get_json_from_buf_lines result buf =
        insert json_param_data (lines_json (split b'\n' buf) [] null)
          (insert json_param_result (of_text (codes result)) null)

    unfoldable pub row_json : List Text → List Text → Value → Value
    row_json [] fields j = j
    row_json (c ∷ cs) [] j = j
    row_json (c ∷ cs) (f ∷ fs) j = row_json cs fs (insert_at c (of_text f) j)

    -- columns[0] where there are no columns
    unfoldable pub row : List Text → List Text → Result Value
    unfolding row_json
    row [] (f ∷ fs) = fault
    row cs fs = ok (row_json cs fs null)

    unfoldable pub rows : List Text → List Text → Result (List Value)
    unfolding row split
    rows cs [] = ok []
    rows cs (l ∷ ls) = do j ← row cs (split b'\t' l); js' ← rows cs ls; ok (j ∷ js')

    -- lines[0] where there are no lines
    unfoldable pub table : List Text → Result (List Value)
    unfolding column_names rows split
    table [] = fault
    table (l ∷ ls) = do cs ← column_names (split b'/' l); rows cs ls

    unfoldable pub get_json_from_buf_table : String → Text → Result Value
    unfolding table split
    get_json_from_buf_table param_name buf = do
      vs ← table (split b'\n' buf)
      ok (
          insert json_param_data (insert param_name (of_list vs) null)
            (insert json_param_result (of_text (codes json_param_succ)) null))

    -- The line of a network as execCmdWpaAdd shows it.
    unfoldable pub network_json : Text → Text → Result Value
    unfolding column_names row split get_piece
    network_json found buf = do
      cs ← column_names (split b'/' (get_piece b'\n' buf).0)
      j ← row cs (split b'\t' found)
      ok (
          insert json_param_data (insert json_param_network j null)
            (insert json_param_result (of_text (codes json_param_succ)) null))

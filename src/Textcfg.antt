-- ===== src/Textcfg.antt =====
-- internal/fastpath/textcfg.go: the text configuration of a FASTPATH switch.
-- Texts are byte strings. A line number is an index into the lines of the file.
pub mod Spans
pub mod Exits
pub mod Bodies
pub mod Canonical
pub mod Editor
mod Tests
use Prim.Native.String.{String}
use terraform_provider_netge.Base.{
  ℕ, zero, suc, ◌+◌, ◌-◌, Bool, true, false, not, ◌&&◌, ◌||◌, Option, none, some, List, [], ◌∷◌,
  ◌++◌, length, take, drop, ltb, ◌==◌, if◌then◌else◌, Bytes, equal, lookup, Result, err, ok, ascii,
  split_lines, join_lines, has_prefix, is_empty, trim_right, trim_space, reverse_onto,
  carriage_return,
}

-- TextConfigSection
pub record Section : Type 0 where
  pub label : Bytes
  pub line_count : ℕ
  pub label_line : ℕ
  pub body_start : ℕ
  pub body_end : ℕ

-- TextConfig; HeaderBytes holds the bytes of Header.
pub record TextConfig : Type 0 where
  pub header : Bytes
  pub system_description : Bytes
  pub system_software_version : Bytes
  pub raw : Bytes
  pub sections : List Section

-- strings.TrimSpace(strings.TrimRight(line, "\r"))
unfoldable pub trimmed : Bytes → Bytes
unfolding trim_right trim_space
trimmed line = trim_space (trim_right carriage_return line)

abbrev pub comment_mark : Bytes
comment_mark = ascii "!"

-- A blank line or an annotation.
unfoldable pub is_scaffold : Bytes → Bool
unfolding has_prefix
is_scaffold line = is_empty line || has_prefix line comment_mark

abbrev pub exit_line : Bytes
exit_line = ascii "exit"

unfoldable pub some_prefix : Bytes → List Bytes → Bool
unfolding has_prefix
some_prefix line [] = false
some_prefix line (p ∷ ps) = has_prefix line p || some_prefix line ps

abbrev pub section_labels : List Bytes
section_labels =
    ascii "vlan database"
    ∷ ascii "configure"
    ∷ ascii "lineconfig"
    ∷ ascii "snmp-server "
    ∷ ascii "ip "
    ∷ ascii "no sntp client mode"
    ∷ ascii "sntp "
    ∷ ascii "users passwd"
    ∷ ascii "authentication login"
    ∷ ascii "spanning-tree configuration name"
    ∷ ascii "voip "
    ∷ ascii "interface "
    ∷ ascii "network mgmt_"
    ∷ []

unfoldable pub section_starts : Bytes → Bool
unfolding some_prefix
section_starts line = some_prefix line section_labels

abbrev pub quote_mark : ℕ
quote_mark = 34

-- strings.Trim with the cutset of the quotation mark.
unfoldable pub trim_quotes : Bytes → Bytes
unfolding trim_right
trim_quotes [] = []
trim_quotes (c ∷ cs) =
    let rest = trim_quotes cs in if c == quote_mark then rest else trim_right quote_mark (c ∷ cs)

-- Both branches of commentValue with a value return it without its quotes.
unfoldable pub comment_value : Bytes → Bytes → Option Bytes
unfolding has_prefix trim_space trim_quotes
comment_value line prefix =
    let value = trim_space (drop (length prefix) line) in
    if not (has_prefix line prefix)
    then none
    else if is_empty value
    then none
    else some (trim_quotes value)

-- The value of the last of some lines that has one.
unfoldable pub last_value : Bytes → Bytes → List Bytes → Bytes
unfolding comment_value trim_right
last_value prefix found [] = found
last_value prefix found (l ∷ ls) = elim (comment_value (trim_right carriage_return l) prefix) [
  | none ↦ last_value prefix found ls
  | some value ↦ last_value prefix value ls
]

-- tc.Sections[cur].LineCount++, where `cur` is the section found last.
unfoldable pub count_line : List Section → List Section
count_line [] = []
count_line (s ∷ later) = record s { line_count = s.line_count + 1 } ∷ later

abbrev pub new_section : ℕ → Bytes → Section
new_section i label = record {
  label = label;
  line_count = 0;
  label_line = i;
  body_start = 0;
  body_end = 0;
}

-- One round of the structural walk: line `i`, trimmed, after the sections found so far, last first,
-- and whether one of them is open.
unfoldable pub walk_line : ℕ → Bytes → Bool → List Section → Bool × List Section
unfolding is_scaffold section_starts equal count_line
walk_line i line inside found =
    if is_scaffold line
    then (inside, found)
    else if section_starts line
    then (true, new_section i line ∷ found)
    else if equal line exit_line && inside
    then (false, found)
    else (inside, if inside then count_line found else found)

-- The structural walk from line `i` on.
unfoldable pub walk_sections : ℕ → Bool → List Section → List Bytes → List Section
unfolding trimmed walk_line reverse_onto
walk_sections i inside found [] = reverse_onto found []
walk_sections i inside found (l ∷ ls) =
    let next = walk_line i (trimmed l) inside found in walk_sections (suc i) next.0 next.1 ls

abbrev pub interface_mark : Bytes
interface_mark = ascii "interface "

unfoldable pub block_section_label : Bytes → Bool
unfolding equal has_prefix
block_section_label line =
    equal line (ascii "vlan database")
    || (equal line (ascii "configure")
        || (equal line (ascii "lineconfig") || has_prefix line interface_mark))

abbrev pub close_top : ℕ → List ℕ → List (ℕ × ℕ) → List ℕ × List (ℕ × ℕ)
close_top i [] pairs = ([], pairs)
close_top i (top ∷ stack) pairs = (stack, (top, i) ∷ pairs)

-- One line of the matching: the labels that are open, innermost first, and the pairs found.
unfoldable pub pair_line : ℕ → Bytes → List ℕ → List (ℕ × ℕ) → List ℕ × List (ℕ × ℕ)
unfolding is_scaffold equal block_section_label
pair_line i line stack pairs =
    if is_scaffold line
    then (stack, pairs)
    else if equal line exit_line
    then close_top i stack pairs
    else (if block_section_label line then i ∷ stack else stack, pairs)

unfoldable pub pair_exits : ℕ → List ℕ → List (ℕ × ℕ) → List Bytes → List (ℕ × ℕ)
unfolding trimmed pair_line
pair_exits i stack pairs [] = pairs
pair_exits i stack pairs (l ∷ ls) =
    let next = pair_line i (trimmed l) stack pairs in pair_exits (suc i) next.0 next.1 ls

unfoldable pub pair_section_exits : List Bytes → List (ℕ × ℕ)
unfolding pair_exits
pair_section_exits lines = pair_exits 0 [] [] lines

-- The search among the lines from line `j` on, for `n` lines at most.
unfoldable pub nested_interface : ℕ → ℕ → List Bytes → Option ℕ
unfolding trimmed has_prefix
nested_interface j zero lines = none
nested_interface j (suc n) [] = none
nested_interface j (suc n) (l ∷ ls) =
    let later = nested_interface (suc j) n ls in
    if has_prefix (trimmed l) interface_mark then some j else later

unfoldable pub first_nested_interface : List Bytes → ℕ → ℕ → Option ℕ
unfolding nested_interface
first_nested_interface lines first to = nested_interface first (to - first) (drop first lines)

abbrev pub open_end : List Bytes → List Section → ℕ
open_end lines [] = length lines - 1
open_end lines (next ∷ later) = next.label_line - 1

-- The body of a section ends before its exit or an interface nested in it, else before the next
-- section or the end of the file. All of these come behind line 0, so no subtraction is cut off.
unfoldable pub body_end_of : List Bytes → List (ℕ × ℕ) → Section → List Section → ℕ
unfolding lookup first_nested_interface
body_end_of lines exits s later = elim (lookup s.label_line exits) [
  | some leave ↦ elim (first_nested_interface lines (s.label_line + 1) leave) [
    | some nested ↦ nested - 1
    | none ↦ leave - 1
  ]
  | none ↦ open_end lines later
]

unfoldable pub compute_section_spans : List Bytes → List (ℕ × ℕ) → List Section → List Section
unfolding body_end_of
compute_section_spans lines exits [] = []
compute_section_spans lines exits (s ∷ later) =
    record s { body_start = s.label_line + 1; body_end = body_end_of lines exits s later }
    ∷ compute_section_spans lines exits later

abbrev pub first_line : List Bytes → Bytes
first_line [] = []
first_line (l ∷ ls) = l

-- The structural facts of a file that is not empty.
unfoldable pub read_config : Bytes → TextConfig
unfolding split_lines trim_right last_value walk_sections pair_section_exits compute_section_spans
read_config raw = record {
  header = trim_right carriage_return (first_line (split_lines raw));
  system_description = last_value (ascii "!System Description") [] (take 40 (split_lines raw));
  system_software_version =
      last_value (ascii "!System Software Version") [] (take 40 (split_lines raw));
  raw = raw;
  sections =
      compute_section_spans (split_lines raw) (pair_section_exits (split_lines raw))
        (walk_sections 0 false [] (split_lines raw));
}

-- The errors of the parser, the header check and the editor; `panics` is a run-time panic.
pub data TextError : Type 0 where
  empty_config bad_header wrong_description wrong_version : TextError
  no_section empty_label section_exists protected panics : TextError

unfoldable pub parse_text_config : Bytes → Result TextError TextConfig
unfolding read_config
parse_text_config [] = err empty_config
parse_text_config (c ∷ cs) = ok (read_config (c ∷ cs))

unfoldable pub find_section : Bytes → List Section → Option Section
unfolding equal
find_section label [] = none
find_section label (s ∷ later) = if equal s.label label then some s else find_section label later

unfoldable pub content_lines : List Bytes → List Bytes
unfolding trimmed is_scaffold equal
content_lines [] = []
content_lines (l ∷ ls) =
    let rest = content_lines ls in
    if is_scaffold (trimmed l) || equal (trimmed l) exit_line then rest else l ∷ rest

unfoldable pub section_body : TextConfig → Bytes → Option (List Bytes)
unfolding find_section content_lines split_lines
section_body tc label = elim (find_section label tc.sections) [
  | none ↦ none
  | some s ↦ some (
      content_lines (take (s.body_end + 1 - s.body_start) (drop s.body_start (split_lines tc.raw))))
]

abbrev pub uptime_mark : Bytes
uptime_mark = ascii "!System Up Time"

unfoldable pub without_uptime : List Bytes → List Bytes
unfolding has_prefix trim_space
without_uptime [] = []
without_uptime (l ∷ ls) =
    let rest = without_uptime ls in if has_prefix (trim_space l) uptime_mark then rest else l ∷ rest

unfoldable pub canonical_bytes : TextConfig → Bytes
unfolding split_lines join_lines without_uptime
canonical_bytes tc = join_lines (without_uptime (split_lines tc.raw))

abbrev pub magic_prefix : Bytes
magic_prefix = ascii "0x4e47"

-- What a command returns.
abbrev pub Outcome : Type 0
Outcome = Result {0, 0} TextError Unit

-- An empty wanted text disables its check.
unfoldable pub validate_text_config_header : Bytes → Bytes → Bytes → Outcome
unfolding read_config has_prefix equal
validate_text_config_header [] description version = err empty_config
validate_text_config_header (c ∷ cs) description version =
    let tc = read_config (c ∷ cs) in
    if not (has_prefix tc.header magic_prefix)
    then err bad_header
    else if not (is_empty description) && not (equal tc.system_description description)
    then err wrong_description
    else if not (is_empty version) && not (equal tc.system_software_version version)
    then err wrong_version
    else ok tt

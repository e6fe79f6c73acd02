-- ===== src/Textcfg/Editor.antt =====
-- internal/fastpath/textedit.go: the line-splice editor of text configurations.
-- An operation returns its error or none, and the editor as it leaves it.
pub mod Splice
pub mod Kept
pub mod Blocks
pub mod Regions
pub mod Effects
pub mod Safe
use terraform_provider_netge.Base.{
  ℕ, zero, suc, ◌+◌, ◌-◌, Bool, true, false, not, ◌&&◌, ◌||◌, Option, none, some, List, [], ◌∷◌,
  ◌++◌, length, take, drop, ltb, if◌then◌else◌, Bytes, equal, lookup, Result, err, ok, ascii,
  split_lines, join_lines, has_prefix, is_empty, trim_right, trim_space, carriage_return,
}
use terraform_provider_netge.Textcfg.{
  Section, TextConfig, TextError, Outcome, trimmed, parse_text_config, find_section,
  pair_section_exits, magic_prefix, empty_config, bad_header, no_section, empty_label,
  section_exists, protected, panics,
}

-- TextConfigEditor
pub record Editor : Type 0 where
  pub lines : List Bytes
  pub tc : TextConfig
  pub dirty : Bool

unfoldable pub new_editor : TextConfig → Result TextError Editor
unfolding parse_text_config split_lines
new_editor tc = elim (parse_text_config tc.raw) [
  | err why ↦ err why
  | ok read ↦ ok (record { lines = split_lines read.raw; tc = read; dirty = false })
]

-- A line without content.
unfoldable pub blank_line : Bytes → Bool
unfolding trimmed
blank_line line = is_empty (trimmed line)

unfoldable pub spaced : List Bytes → List Bytes
spaced [] = []
spaced (c ∷ body) = c ∷ [] ∷ spaced body

unfoldable pub double_spaced_body : List Bytes → List Bytes
unfolding spaced
double_spaced_body body = [] ∷ spaced body

-- The lines `first` to `last` replaced by a region; a slice out of range panics.
unfoldable pub splice_region : List Bytes → ℕ → ℕ → List Bytes → Option (List Bytes)
splice_region lines first last region =
    if ltb (length lines) first || ltb (length lines) (last + 1)
    then none
    else some (take first lines ++ (region ++ drop (last + 1) lines))

-- The re-parse behind a mutation, which has already written the lines.
unfoldable pub sync : Editor → List Bytes → Outcome × Editor
unfolding parse_text_config join_lines
sync e lines = elim (parse_text_config (join_lines lines)) [
  | err why ↦ (err why, record e { lines = lines })
  | ok read ↦ (ok tt, record { lines = lines; tc = read; dirty = true })
]

unfoldable pub spliced : Editor → Option (List Bytes) → Outcome × Editor
unfolding sync
spliced e none = (err panics, e)
spliced e (some lines) = sync e lines

unfoldable pub replace_section_body : Editor → Bytes → List Bytes → Outcome × Editor
unfolding find_section splice_region double_spaced_body spliced
replace_section_body e label body = elim (find_section label e.tc.sections) [
  | none ↦ (err no_section, e)
  | some s ↦ spliced e (splice_region e.lines s.body_start s.body_end (double_spaced_body body))
]

unfoldable pub leading_blanks : List Bytes → ℕ
unfolding blank_line
leading_blanks [] = 0
leading_blanks (l ∷ ls) = let rest = leading_blanks ls in if blank_line l then suc rest else 0

abbrev pub or_default : Option ℕ → ℕ → ℕ
or_default none n = n
or_default (some m) n = m

-- The last line of the block of a section: its exit, or the end of its body.
unfoldable pub block_stop : List Bytes → Section → ℕ
unfolding lookup pair_section_exits
block_stop lines s = or_default (lookup s.label_line (pair_section_exits lines)) s.body_end

-- The first line behind the block, and behind the blank lines there.
unfoldable pub behind : List Bytes → Section → ℕ
unfolding block_stop leading_blanks
behind lines s = block_stop lines s + 1 + leading_blanks (drop (block_stop lines s + 1) lines)

unfoldable pub new_block : Bytes → List Bytes → List Bytes
unfolding double_spaced_body
new_block label body = label ∷ (double_spaced_body body ++ (ascii "exit" ∷ [] ∷ []))

unfoldable pub insert_section : Editor → Bytes → Bytes → List Bytes → Outcome × Editor
unfolding trim_space find_section splice_region behind new_block spliced
insert_section e after_label label body =
    if is_empty (trim_space label)
    then (err empty_label, e)
    else elim (find_section label e.tc.sections) [
      | some s ↦ (err section_exists, e)
      | none ↦ elim (find_section after_label e.tc.sections) [
        | none ↦ (err no_section, e)
        | some s ↦
            let pos = behind e.lines s in
            spliced e (splice_region e.lines pos (pos - 1) (new_block label body))
      ]
    ]

-- Whether line `i` is there and blank.
unfoldable pub blank_at : ℕ → List Bytes → Bool
unfolding blank_line
blank_at i [] = false
blank_at zero (l ∷ ls) = blank_line l
blank_at (suc i) (l ∷ ls) = blank_at i ls

-- The last line that a deletion takes: the blank line behind the block belongs to it.
unfoldable pub block_end : List Bytes → Section → ℕ
unfolding block_stop blank_at
block_end lines s =
    if blank_at (block_stop lines s + 1) lines then block_stop lines s + 1 else block_stop lines s

unfoldable pub protected_section : Bytes → Bool
unfolding equal
protected_section label = equal label (ascii "vlan database") || equal label (ascii "configure")

unfoldable pub delete_section : Editor → Bytes → Outcome × Editor
unfolding protected_section find_section splice_region block_end spliced
delete_section e label =
    if protected_section label
    then (err protected, e)
    else elim (find_section label e.tc.sections) [
      | none ↦ (err no_section, e)
      | some s ↦ spliced e (splice_region e.lines s.label_line (block_end e.lines s) [])
    ]

unfoldable pub render : Editor → Result TextError Bytes
unfolding trim_right has_prefix join_lines
render e = elim e.lines [
  | [] ↦ err empty_config
  | ◌∷◌ l ls ↦
      if has_prefix (trim_right carriage_return l) magic_prefix
      then ok (join_lines (l ∷ ls))
      else err bad_header
]

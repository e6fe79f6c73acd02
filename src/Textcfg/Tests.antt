-- ===== src/Textcfg/Tests.antt =====
-- The properties of text configurations on a small file.
use terraform_provider_netge.Base.{
  ℕ, ◌≡◌, refl, some, List, [], ◌∷◌, arith, length, Bytes, All, ok, ascii, join_lines, split_lines,
  has_prefix, trim_space, IsLine, split_lines-IsLine, trim_right,
}
use mathlib.Core.Path.{subst}
use terraform_provider_netge.Textcfg.{
  Section, read_config, find_section, section_body, canonical_bytes,
}
use terraform_provider_netge.Textcfg.Spans.{Within, sections-Within}
use terraform_provider_netge.Textcfg.Canonical.{canonical_bytes-uptime}
use terraform_provider_netge.Textcfg.Editor.{
  Editor, new_editor, replace_section_body, insert_section, delete_section, protected_section,
  render,
}
use terraform_provider_netge.Textcfg.Editor.Splice.{IsEditor, edited}
use terraform_provider_netge.Textcfg.Editor.Blocks.{IsReplaced, IsInserted, IsDeleted}
use terraform_provider_netge.Textcfg.Editor.Effects.{
  replace_section_body-IsReplaced, insert_section-IsInserted, delete_section-IsDeleted,
}
use terraform_provider_netge.Textcfg.Editor.Safe.{
  Safe, Edit, replace, delete, apply_all, apply_all-Safe, render-new_editor,
}

-- A file with a block nested in the configure section.
abbrev small_file : List Bytes
small_file =
    ascii "0x4e470x01"
    ∷ ascii "!System Up Time 3 days"
    ∷ ascii "vlan database"
    ∷ ascii ""
    ∷ ascii "vlan 10"
    ∷ ascii ""
    ∷ ascii "exit"
    ∷ ascii ""
    ∷ ascii "configure"
    ∷ ascii ""
    ∷ ascii "interface 0/1"
    ∷ ascii ""
    ∷ ascii "exit"
    ∷ ascii ""
    ∷ ascii "exit"
    ∷ ascii ""
    ∷ []

abbrev small_text : Bytes
small_text = join_lines small_file

abbrev vlans : Bytes
vlans = ascii "vlan database"

abbrev port : Bytes
port = ascii "interface 0/1"

-- The spans that the parser finds.
abbrev section_of : Bytes → ℕ → ℕ → ℕ → ℕ → Section
section_of label count line start last = record {
  label = label;
  line_count = count;
  label_line = line;
  body_start = start;
  body_end = last;
}

found_sections :
    (read_config small_text).sections
    ≡ section_of vlans 1 2 3 5
      ∷ section_of (ascii "configure") 0 8 9 9
      ∷ section_of port 0 10 11 11
      ∷ []
unfolding read_config join_lines
found_sections = refl

body_of_vlans : section_body (read_config small_text) vlans ≡ some (ascii "vlan 10" ∷ [])
unfolding section_body read_config join_lines
body_of_vlans = refl

sections-Within_example :
    All (Within (length (split_lines small_text))) (read_config small_text).sections
sections-Within_example = sections-Within small_text

-- One line of text.
single : (text : Bytes) → split_lines text ≡ text ∷ [] → All IsLine (text ∷ [])
single text one = subst (All IsLine) one (split_lines-IsLine text)

abbrev stamped : Bytes → List Bytes
stamped uptime = ascii "0x4e47" ∷ uptime ∷ ascii "configure" ∷ []

abbrev monday : Bytes
monday = ascii "!System Up Time 3 days"

abbrev tuesday : Bytes
tuesday = ascii "!System Up Time 4 days"

stamped-IsLine : (uptime : Bytes) → split_lines uptime ≡ uptime ∷ [] → All IsLine (stamped uptime)
unfolding split_lines
stamped-IsLine uptime one =
    ((single (ascii "0x4e47") refl).0, ((single uptime one).0, single (ascii "configure") refl))

canonical_bytes-uptime_example :
    canonical_bytes (read_config (join_lines (stamped monday)))
    ≡ canonical_bytes (read_config (join_lines (stamped tuesday)))
unfolding has_prefix trim_space split_lines read_config
canonical_bytes-uptime_example =
    canonical_bytes-uptime (read_config (join_lines (stamped monday)))
      (read_config (join_lines (stamped tuesday))) (ascii "0x4e47" ∷ []) (ascii "configure" ∷ [])
      monday tuesday refl refl (stamped-IsLine monday refl) (stamped-IsLine tuesday refl) refl refl

small-IsEditor : IsEditor (edited small_file)
unfolding join_lines split_lines
small-IsEditor = record {
  some_line = refl;
  some_text = refl;
  no_newline = split_lines-IsLine (join_lines small_file);
  view = refl;
}

abbrev vlan_section : Section
vlan_section = section_of vlans 1 2 3 5

abbrev port_section : Section
port_section = section_of port 0 10 11 11

found_vlans : find_section vlans (edited small_file).tc.sections ≡ some vlan_section
unfolding read_config join_lines find_section
found_vlans = refl

found_port : find_section port (edited small_file).tc.sections ≡ some port_section
unfolding read_config join_lines find_section
found_port = refl

abbrev new_vlan : Bytes
new_vlan = ascii "vlan 20"

new_vlan-IsLine : All IsLine (new_vlan ∷ [])
unfolding split_lines
new_vlan-IsLine = single new_vlan refl

replace_section_body-IsReplaced_example :
    (after : List Bytes) × (replace_section_body (edited small_file) vlans (new_vlan ∷ [])
      ≡ (ok tt, edited after))
    × IsReplaced small_file vlan_section (new_vlan ∷ []) after
    × IsEditor (edited after)
replace_section_body-IsReplaced_example =
    replace_section_body-IsReplaced (edited small_file) small-IsEditor vlan_section vlans
      (new_vlan ∷ []) found_vlans new_vlan-IsLine

abbrev new_port : Bytes
new_port = ascii "interface 0/2"

insert_section-IsInserted_example :
    (after : List Bytes) × (insert_section (edited small_file) port new_port (new_vlan ∷ [])
      ≡ (ok tt, edited after))
    × IsInserted small_file port_section new_port (new_vlan ∷ []) after
    × IsEditor (edited after)
unfolding read_config join_lines find_section trim_space split_lines
insert_section-IsInserted_example =
    insert_section-IsInserted (edited small_file) small-IsEditor port_section port new_port
      (new_vlan ∷ []) found_port refl refl (single new_port refl).0 new_vlan-IsLine

delete_section-IsDeleted_example :
    (after : List Bytes) × (delete_section (edited small_file) port ≡ (ok tt, edited after))
    × IsDeleted small_file port_section after
    × IsEditor (edited after)
unfolding protected_section
delete_section-IsDeleted_example =
    delete_section-IsDeleted (edited small_file) small-IsEditor port_section port found_port refl
      (omega arith) refl

abbrev session : List Edit
session = replace vlans (new_vlan ∷ []) ∷ delete port ∷ delete vlans ∷ []

apply_all-Safe_example : Safe (apply_all (edited small_file) session)
apply_all-Safe_example =
    apply_all-Safe (edited small_file) session small-IsEditor (new_vlan-IsLine, (tt, (tt, tt)))

render-new_editor_example :
    (e : Editor) × (new_editor (read_config small_text) ≡ ok e)
    × IsEditor e
    × (render e ≡ ok (read_config small_text).raw)
unfolding read_config join_lines split_lines trim_right has_prefix
render-new_editor_example = render-new_editor (read_config small_text) refl

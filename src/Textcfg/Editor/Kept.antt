-- ===== src/Textcfg/Editor/Kept.antt =====
-- What each operation of the editor does to the file, and that it keeps the editor's view true
-- (internal/fastpath/textedit.go).
use terraform_provider_netge.Base.{
  ℕ, ◌+◌, ◌-◌, ◌≤◌, ◌<◌, ◌≡◌, refl, ap, ◌∙◌, false, none, some, List, [], ◌++◌, arith, length, take,
  drop, Bytes, All, All-append, All-take, All-drop, ok, join_lines, is_empty, IsLine, trim_space,
}
use mathlib.Core.Path.{subst}
use terraform_provider_netge.Textcfg.{first_line, Section, find_section}
use terraform_provider_netge.Textcfg.Spans.{Within}
use terraform_provider_netge.Textcfg.Editor.{
  Editor, spliced, splice_region, double_spaced_body, new_block, block_end, behind,
  replace_section_body, insert_section, delete_section, protected_section,
}
use terraform_provider_netge.Textcfg.Editor.Splice.{
  IsEditor, edited, sync_lem, splice_region_lem, is_empty-join_lines, is_empty-take,
  is_empty_of-join_lines, is_empty-join_lines_first, new_block-IsLine, double_spaced_body-IsLine,
  find_section-Within, behind_le, block_end_lt,
}

-- A splice inside the file that leaves a text is an edit.
module _ (e : Editor) (h : IsEditor e) (first last : ℕ) (region : List Bytes)
    (low : first ≤ length e.lines) (high : last + 1 ≤ length e.lines)
    (no_newline : All IsLine region) where
  abbrev pub result : List Bytes
  result = take first e.lines ++ (region ++ drop (last + 1) e.lines)

  pub spliced_lem :
      is_empty (join_lines result) ≡ false
      → spliced e (splice_region e.lines first last region) ≡ (ok tt, edited result)
  unfolding spliced
  spliced_lem text =
      ap (spliced e) (splice_region_lem e.lines first last region low high) ∙ sync_lem e result text

  pub edited-IsEditor : is_empty (join_lines result) ≡ false → IsEditor (edited result)
  edited-IsEditor text = record {
    some_line = is_empty_of-join_lines result text;
    some_text = text;
    no_newline =
        All-append IsLine (take first e.lines) (region ++ drop (last + 1) e.lines)
          (All-take IsLine first e.lines h.no_newline)
          (All-append IsLine region (drop (last + 1) e.lines) no_newline
            (All-drop IsLine (last + 1) e.lines h.no_newline));
    view = refl;
  }

module _ (e : Editor) (s : Section) where
  -- The lines of the file with the body of a section replaced, a block inserted behind a section, and
  -- the block of a section deleted.
  abbrev pub with_body : List Bytes → List Bytes
  with_body body =
      take s.body_start e.lines ++ (double_spaced_body body ++ drop (s.body_end + 1) e.lines)

  abbrev pub with_block : Bytes → List Bytes → List Bytes
  with_block label body =
      take (behind e.lines s) e.lines ++ (new_block label body ++ drop (behind e.lines s) e.lines)

  abbrev pub without_block : List Bytes
  without_block = take s.label_line e.lines ++ drop (block_end e.lines s + 1) e.lines

module _ (e : Editor) (h : IsEditor e) (s : Section) where
  -- On a true editor, replacing the body of a section that it finds, with lines without
  -- newlines, succeeds and leaves every line up to the label and from the end of the body on
  -- as it was, with the new body double-spaced between them, and the editor true.
  pub replace_section_body-with_body :
      (label : Bytes) (body : List Bytes)
      → find_section label e.tc.sections ≡ some s
      → All IsLine body
      → (replace_section_body e label body ≡ (ok tt, edited (with_body e s body)))
        × IsEditor (edited (with_body e s body))
  unfolding replace_section_body
  replace_section_body-with_body label body found lines =
      let within : Within (length e.lines) s = find_section-Within e label s h found in
      let low : s.body_start ≤ length e.lines = omega (arith, within.ordered, within.ends) in
      let text : is_empty (join_lines (with_body e s body)) ≡ false =
        is_empty-join_lines (take s.body_start e.lines) _ []
          (is_empty-take s.body_start e.lines (omega (arith, within.starts)) h.some_line) in
      (
        rw (replace_section_body, found)
            (spliced_lem e h s.body_start s.body_end (double_spaced_body body) low within.ends
              (double_spaced_body-IsLine body lines) text),
        edited-IsEditor e h s.body_start s.body_end (double_spaced_body body) low within.ends
            (double_spaced_body-IsLine body lines) text,
      )

  -- On a true editor, inserting a section with a new label that is not blank behind a section
  -- that it finds, with a label and body lines without newlines, succeeds, puts the whole
  -- block behind that section's block and its blank lines, keeps every other line, and leaves
  -- the editor true.
  pub insert_section-with_block :
      (after_label label : Bytes) (body : List Bytes)
      → find_section after_label e.tc.sections ≡ some s
      → find_section label e.tc.sections ≡ none
      → is_empty (trim_space label) ≡ false
      → IsLine label
      → All IsLine body
      → (insert_section e after_label label body ≡ (ok tt, edited (with_block e s label body)))
        × IsEditor (edited (with_block e s label body))
  unfolding insert_section new_block
  insert_section-with_block after_label label body found fresh named line lines =
      let pos : ℕ = behind e.lines s in
      let within : Within (length e.lines) s = find_section-Within e after_label s h found in
      let place : (0 < pos) × (pos ≤ length e.lines) = behind_le e.lines s within in
      let back : pos - 1 + 1 ≡ pos = omega (arith, place) in
      let block : All IsLine (new_block label body) = new_block-IsLine label body line lines in
      let high : pos - 1 + 1 ≤ length e.lines = omega (arith, place) in
      let text : is_empty
            (join_lines (result e h pos (pos - 1) (new_block label body) place.1 high block))
          ≡ false =
        is_empty-join_lines (take pos e.lines) _ label
          (is_empty-take pos e.lines place.0 h.some_line) in
      subst
        (λ k.
          let lines' = take pos e.lines ++ (new_block label body ++ drop k e.lines) in
          (insert_section e after_label label body ≡ (ok tt, edited lines'))
          × IsEditor (edited lines'))
        back
        (
          rw (insert_section, named, fresh, found)
              (spliced_lem e h pos (pos - 1) (new_block label body) place.1 high block text),
          edited-IsEditor e h pos (pos - 1) (new_block label body) place.1 high block text,
        )

  -- On a true editor, deleting a section that is not protected, that it finds below the first
  -- line, under a first line with content, succeeds, removes the lines from its label to the
  -- blank line behind its block, keeps every other line in order, and leaves the editor true.
  pub delete_section-without_block :
      (label : Bytes)
      → find_section label e.tc.sections ≡ some s
      → protected_section label ≡ false
      → 0 < s.label_line
      → is_empty (first_line e.lines) ≡ false
      → (delete_section e label ≡ (ok tt, edited (without_block e s)))
        × IsEditor (edited (without_block e s))
  unfolding delete_section
  delete_section-without_block label found free below header =
      let within : Within (length e.lines) s = find_section-Within e label s h found in
      let low : s.label_line ≤ length e.lines = omega (arith, within.labelled) in
      let stop : block_end e.lines s < length e.lines = block_end_lt e.lines s within in
      let high : block_end e.lines s + 1 ≤ length e.lines = omega (arith, stop) in
      let text : is_empty (join_lines (without_block e s)) ≡ false =
        is_empty-join_lines_first s.label_line e.lines _ below header in
      (
        rw (delete_section, free, found)
            (spliced_lem e h s.label_line (block_end e.lines s) [] low high tt text),
        edited-IsEditor e h s.label_line (block_end e.lines s) [] low high tt text,
      )

-- ===== src/Textcfg/Editor/Effects.antt =====
-- What each operation of the editor does to the lines of the file (internal/fastpath/textedit.go).
use terraform_provider_netge.Base.{
  ◌<◌, ◌≡◌, false, none, some, List, Bytes, All, ok, IsLine, is_empty, trim_space,
}
use terraform_provider_netge.Textcfg.{Section, first_line, find_section}
use terraform_provider_netge.Textcfg.Editor.{
  Editor, replace_section_body, insert_section, delete_section, protected_section,
}
use terraform_provider_netge.Textcfg.Editor.Splice.{IsEditor, edited, find_section-Within}
use terraform_provider_netge.Textcfg.Editor.Kept.{
  with_body, with_block, without_block, replace_section_body-with_body, insert_section-with_block,
  delete_section-without_block,
}
use terraform_provider_netge.Textcfg.Editor.Blocks.{IsReplaced, IsInserted, IsDeleted}
use terraform_provider_netge.Textcfg.Editor.Regions.{
  body_end-exit, with_body-IsReplaced, with_block-IsInserted, without_block-IsDeleted,
}

module _ (e : Editor) (h : IsEditor e) (s : Section) where
  -- On a true editor, replacing the body of a section that it finds, with lines without
  -- newlines, succeeds: the lines up to the label and those behind the end of the body stay as
  -- they were, the exit that closes the section, if there is one, among the latter, and
  -- between them stands a blank line and then each new line with a blank line behind it, and
  -- the editor is true again.
  pub replace_section_body-IsReplaced :
      (label : Bytes) (body : List Bytes)
      → find_section label e.tc.sections ≡ some s
      → All IsLine body
      → (after : List Bytes) × (replace_section_body e label body ≡ (ok tt, edited after))
        × IsReplaced e.lines s body after
        × IsEditor (edited after)
  replace_section_body-IsReplaced label body found lines =
      let (done, true_view) = replace_section_body-with_body e h s label body found lines in
      (
        with_body e s body,
        done,
        with_body-IsReplaced e s body (find_section-Within e label s h found)
            (body_end-exit e label s h found),
        true_view,
      )

  -- On a true editor, inserting a section with a new label that is not blank behind a section
  -- that it finds, with a label and body lines without newlines, succeeds: behind the
  -- section's block, which ends at the exit that closes it or else with its body, and behind
  -- all blank lines there, stand the label, a blank line, each body line with a blank line
  -- behind it, exit and a blank line; every other line stays, and the editor is true again.
  pub insert_section-IsInserted :
      (after_label label : Bytes) (body : List Bytes)
      → find_section after_label e.tc.sections ≡ some s
      → find_section label e.tc.sections ≡ none
      → is_empty (trim_space label) ≡ false
      → IsLine label
      → All IsLine body
      → (after : List Bytes) × (insert_section e after_label label body ≡ (ok tt, edited after))
        × IsInserted e.lines s label body after
        × IsEditor (edited after)
  insert_section-IsInserted after_label label body found fresh named line lines =
      let (done, true_view) =
        insert_section-with_block e h s after_label label body found fresh named line lines in
      (
        with_block e s label body,
        done,
        with_block-IsInserted e s label body (find_section-Within e after_label s h found),
        true_view,
      )

  -- On a true editor, deleting a section that is not protected, that it finds below the first
  -- line, under a first line with content, succeeds: the lines from its label to the end of
  -- its block, which is the exit that closes it or else the end of its body, are gone, with
  -- the blank line behind them if there is one; every other line stays in order, and the
  -- editor is true again.
  pub delete_section-IsDeleted :
      (label : Bytes)
      → find_section label e.tc.sections ≡ some s
      → protected_section label ≡ false
      → 0 < s.label_line
      → is_empty (first_line e.lines) ≡ false
      → (after : List Bytes) × (delete_section e label ≡ (ok tt, edited after))
        × IsDeleted e.lines s after
        × IsEditor (edited after)
  delete_section-IsDeleted label found free below header =
      let (done, true_view) = delete_section-without_block e h s label found free below header in
      (
        without_block e s,
        done,
        without_block-IsDeleted e s (find_section-Within e label s h found),
        true_view,
      )

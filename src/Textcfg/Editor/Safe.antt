-- ===== src/Textcfg/Editor/Safe.antt =====
-- Sessions of the editor (internal/fastpath/textedit.go): opening one, editing, and rendering.
use terraform_provider_netge.Base.{
  ℕ, zero, suc, ◌+◌, ◌-◌, ◌≤◌, ◌<◌, ◌≡◌, ◌≢◌, refl, sym, ap, ◌∙◌, true, false, Bool-cases, inl, inr,
  Option-cases, List, [], ◌∷◌, ◌++◌, arith, length, take, of_both, Bytes, All, err, ok, join_lines,
  split_lines, is_empty, IsLine, has_prefix, trim_right, trim_space, carriage_return,
  join_lines-split_lines, is_empty-split_lines, split_lines-IsLine,
}
use terraform_provider_netge.Textcfg.{
  TextConfig, TextError, Outcome, first_line, read_config, find_section, magic_prefix, no_section,
  protected, panics, empty_label, section_exists, empty_config,
}
use terraform_provider_netge.Textcfg.Spans.{Within}
use terraform_provider_netge.Textcfg.Editor.{
  Editor, new_editor, spliced, splice_region, double_spaced_body, new_block, block_end, behind,
  replace_section_body, insert_section, delete_section, protected_section, render,
}
use terraform_provider_netge.Textcfg.Editor.Splice.{
  IsEditor, edited, splice_region_lem, sync_empty, double_spaced_body-IsLine, find_section-Within,
  behind_le, block_end_lt, new_block-IsLine, parse_text_config_lem,
}
use terraform_provider_netge.Textcfg.Editor.Kept.{result, spliced_lem, edited-IsEditor}

-- No panic, and a success leaves a true view.
abbrev pub Safe : Outcome × Editor → Type 0
Safe r = (r.0 ≢ err panics) × (r.0 ≡ ok tt → IsEditor r.1)

Safe-err : (why : TextError) (e : Editor) → why ≢ panics → Safe (err why, e)
Safe-err why e h = (λ k. h (err_inj k), λ k. cc)
  where
    err_inj : {x y : TextError} → ◌≡◌ {A = Outcome} (err x) (err y) → x ≡ y
    err_inj {x = x} k = ap (λ r. elim r [ err why ↦ why | ok done ↦ x ]) k

module _ (e : Editor) (h : IsEditor e) where
  Safe-spliced :
      (first last : ℕ) (region : List Bytes)
      → first ≤ length e.lines
      → last + 1 ≤ length e.lines
      → All IsLine region
      → Safe (spliced e (splice_region e.lines first last region))
  unfolding spliced
  Safe-spliced first last region low high lines =
      let after : List Bytes = result e h first last region low high lines in
      elim (Bool-cases (is_empty (join_lines after))) [
        | inl empty ↦
            rw (splice_region_lem e.lines first last region low high, sync_empty e after empty)
              (Safe-err empty_config (record e { lines = after }) (λ k. cc))
        | inr text ↦
            rw (spliced_lem e h first last region low high lines text)
              (λ k. cc, λ k. edited-IsEditor e h first last region low high lines text)
      ]

  Safe-replace :
      (label : Bytes) (body : List Bytes)
      → All IsLine body
      → Safe (replace_section_body e label body)
  unfolding replace_section_body
  Safe-replace label body lines = elim (Option-cases (find_section label e.tc.sections)) [
    | inl missing ↦ rw (replace_section_body, missing) (Safe-err no_section e (λ k. cc))
    | inr (s, found) ↦
        let within : Within (length e.lines) s = find_section-Within e label s h found in
        rw (replace_section_body, found)
          (Safe-spliced s.body_start s.body_end (double_spaced_body body)
            (omega (arith, within.ordered, within.ends)) within.ends
            (double_spaced_body-IsLine body lines))
  ]

  Safe-insert :
      (after_label label : Bytes) (body : List Bytes)
      → IsLine label
      → All IsLine body
      → Safe (insert_section e after_label label body)
  unfolding insert_section
  Safe-insert after_label label body line lines =
      of_both Safe (is_empty (trim_space label)) _ _ (Safe-err empty_label e (λ k. cc))
        (elim (Option-cases (find_section label e.tc.sections)) [
          | inr (s, taken) ↦ rw taken (Safe-err section_exists e (λ k. cc))
          | inl fresh ↦ elim (Option-cases (find_section after_label e.tc.sections)) [
            | inl missing ↦ rw (fresh, missing) (Safe-err no_section e (λ k. cc))
            | inr (s, found) ↦
                let within : Within (length e.lines) s =
                  find_section-Within e after_label s h found in
                let place = behind_le e.lines s within in
                rw (fresh, found)
                  (Safe-spliced (behind e.lines s) (behind e.lines s - 1) (new_block label body)
                    place.1 (omega (arith, place)) (new_block-IsLine label body line lines))
          ]
        ])

  Safe-delete : (label : Bytes) → Safe (delete_section e label)
  unfolding delete_section
  Safe-delete label =
      of_both Safe (protected_section label) _ _ (Safe-err protected e (λ k. cc))
        (elim (Option-cases (find_section label e.tc.sections)) [
          | inl missing ↦ rw missing (Safe-err no_section e (λ k. cc))
          | inr (s, found) ↦
              let within : Within (length e.lines) s = find_section-Within e label s h found in
              rw found (
                Safe-spliced s.label_line (block_end e.lines s) [] (omega (arith, within.labelled))
                  (omega (arith, block_end_lt e.lines s within)) tt)
        ])

-- The operations of a session, and the contents that they may write.
pub data Edit : Type 0 where
  replace : Bytes → List Bytes → Edit
  insert : Bytes → Bytes → List Bytes → Edit
  delete : Bytes → Edit

abbrev pub Clean : Edit → Type 0
Clean (replace label body) = All IsLine body
Clean (insert after_label label body) = IsLine label × All IsLine body
Clean (delete label) = Unit

unfoldable pub apply : Editor → Edit → Outcome × Editor
unfolding replace_section_body insert_section delete_section
apply e (replace label body) = replace_section_body e label body
apply e (insert after_label label body) = insert_section e after_label label body
apply e (delete label) = delete_section e label

abbrev and_then : Outcome × Editor → (Editor → Outcome × Editor) → Outcome × Editor
and_then (err why, e) next = (err why, e)
and_then (ok done, e) next = next e

-- A session ends at the first error.
unfoldable pub apply_all : Editor → List Edit → Outcome × Editor
unfolding apply
apply_all e [] = (ok tt, e)
apply_all e (edit ∷ edits) = and_then (apply e edit) (λ e'. apply_all e' edits)

Safe-and_then :
    (r : Outcome × Editor) (next : Editor → Outcome × Editor)
    → Safe r
    → ((e : Editor) → IsEditor e → Safe (next e))
    → Safe (and_then r next)
Safe-and_then (err why, e) next safe later = (safe.0, λ k. cc)
Safe-and_then (ok done, e) next safe later = later e (safe.1 refl)

apply-Safe : (e : Editor) (edit : Edit) → IsEditor e → Clean edit → Safe (apply e edit)
unfolding apply
apply-Safe e (replace label body) h clean = Safe-replace e h label body clean
apply-Safe e (insert after_label label body) h clean =
    Safe-insert e h after_label label body clean.0 clean.1
apply-Safe e (delete label) h clean = Safe-delete e h label

-- A session of any edits on a true editor, whose labels to insert and new body lines have no
-- newline: no edit panics, and if all succeed the editor's parsed view is again that of its
-- lines.
pub apply_all-Safe :
    (e : Editor) (edits : List Edit) → IsEditor e → All Clean edits → Safe (apply_all e edits)
unfolding apply_all
apply_all-Safe e [] h clean = (λ k. cc, λ k. h)
apply_all-Safe e (edit ∷ edits) h clean =
    Safe-and_then (apply e edit) (λ e'. apply_all e' edits) (apply-Safe e edit h clean.0)
      (λ e' h'. apply_all-Safe e' edits h' clean.1)

-- A header that the firmware accepts.
abbrev pub Headed : List Bytes → Type 0
Headed lines = has_prefix (trim_right carriage_return (first_line lines)) magic_prefix ≡ true

pub render_lem : (e : Editor) → Headed e.lines → render e ≡ ok (join_lines e.lines)
unfolding render trim_right has_prefix
render_lem e header = by_lines e.lines header
  where
    by_lines :
        (lines : List Bytes)
        → Headed lines
        → render (record e { lines = lines }) ≡ ok (join_lines lines)
    by_lines [] header = cc
    by_lines (l ∷ ls) header = rw header refl

no_header : (text : Bytes) → is_empty text ≡ true → ¬ Headed (split_lines text)
unfolding split_lines trim_right has_prefix
no_header [] empty header = cc
no_header (c ∷ text) empty header = cc

-- A file whose first line carries the magic prefix opens in an editor with a true view, and
-- rendering it without an edit gives the file's bytes again.
pub render-new_editor :
    (tc : TextConfig)
    → Headed (split_lines tc.raw)
    → (e : Editor) × (new_editor tc ≡ ok e) × IsEditor e × (render e ≡ ok tc.raw)
unfolding new_editor
render-new_editor tc header = elim (Bool-cases (is_empty tc.raw)) [
  | inl empty ↦ absurd (no_header tc.raw empty header)
  | inr text ↦ (
    record { lines = split_lines tc.raw; tc = read_config tc.raw; dirty = false },
    rw (new_editor, parse_text_config_lem tc.raw text) refl,
    record {
      some_line = is_empty-split_lines tc.raw;
      some_text = rw (join_lines-split_lines tc.raw) text;
      no_newline = split_lines-IsLine tc.raw;
      view = ap read_config (sym (join_lines-split_lines tc.raw));
    },
    render_lem _ header ∙ ap ok (join_lines-split_lines tc.raw),
  )
]

-- An edited file that keeps its first line renders as its lines.
pub render-edited :
    (e : Editor) (n : ℕ) (rest : List Bytes)
    → Headed e.lines
    → 0 < n
    → render (edited (take n e.lines ++ rest)) ≡ ok (join_lines (take n e.lines ++ rest))
unfolding has_prefix trim_right
render-edited e n rest header pos =
    render_lem (edited (take n e.lines ++ rest)) (kept n e.lines header pos)
  where
    kept : (n : ℕ) (lines : List Bytes) → Headed lines → 0 < n → Headed (take n lines ++ rest)
    kept zero lines header pos = absurd (omega (arith, pos))
    kept (suc n) [] header pos = cc
    kept (suc n) (l ∷ lines) header pos = header

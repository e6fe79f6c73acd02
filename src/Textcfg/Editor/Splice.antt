-- ===== src/Textcfg/Editor/Splice.antt =====
-- The splices of the editor stay inside the file (internal/fastpath/textedit.go).
use terraform_provider_netge.Base.{
  ℕ, zero, suc, ◌+◌, ◌≤◌, ◌<◌, ◌≡◌, refl, sym, true, false, ◌||◌, Bool-cases, inl, inr, some_inj,
  Option-cases, some, List, [], ◌∷◌, ◌++◌, arith, length, take, drop, length-drop, ltb, Bytes, All,
  All-append, lookup, ok, err, join_lines, split_lines, is_empty, IsLine, split_lines-join_lines,
  newline, equal, ascii,
}
use mathlib.Core.Path.{subst}
use terraform_provider_netge.Textcfg.{
  Section, TextConfig, read_config, parse_text_config, find_section, pair_section_exits, first_line,
  empty_config,
}
use terraform_provider_netge.Textcfg.Spans.{
  Within, sections-Within, pair_section_exits-Pairs, lookup-Pairs,
}
use terraform_provider_netge.Textcfg.Editor.{
  Editor, sync, splice_region, spaced, double_spaced_body, new_block, blank_at, leading_blanks,
  block_stop, block_end, behind,
}

-- What the operations keep: the parsed view is that of the lines, none of which has a newline.
pub record IsEditor (e : Editor) : Type 0 where
  pub some_line : is_empty e.lines ≡ false
  pub some_text : is_empty (join_lines e.lines) ≡ false
  pub no_newline : All IsLine e.lines
  pub view : e.tc ≡ read_config (join_lines e.lines)

-- The editor after a mutation.
abbrev pub edited : List Bytes → Editor
edited lines = record { lines = lines; tc = read_config (join_lines lines); dirty = true }

pub parse_text_config_lem :
    (text : Bytes) → is_empty text ≡ false → parse_text_config text ≡ ok (read_config text)
unfolding parse_text_config
parse_text_config_lem [] h = cc
parse_text_config_lem (c ∷ cs) h = refl

pub sync_lem :
    (e : Editor) (lines : List Bytes)
    → is_empty (join_lines lines) ≡ false
    → sync e lines ≡ (ok tt, edited lines)
unfolding sync
sync_lem e lines h = rw (sync, parse_text_config_lem (join_lines lines) h) refl

pub splice_region_lem :
    (lines : List Bytes) (first last : ℕ) (region : List Bytes)
    → first ≤ length lines
    → last + 1 ≤ length lines
    → splice_region lines first last region
      ≡ some (take first lines ++ (region ++ drop (last + 1) lines))
unfolding splice_region
splice_region_lem lines first last region h k = rw (inside) refl
  where
    inside : (ltb (length lines) first || ltb (length lines) (last + 1)) ≡ false
    inside = ground (arith, h, k)

is_empty-append : (x : Bytes) (c : ℕ) (y : Bytes) → is_empty (x ++ (c ∷ y)) ≡ false
is_empty-append [] c y = refl
is_empty-append (b ∷ x) c y = refl

-- Two lines or more join to a text.
pub is_empty-join_lines :
    (xs ys : List Bytes) (y : Bytes)
    → is_empty xs ≡ false
    → is_empty (join_lines (xs ++ (y ∷ ys))) ≡ false
unfolding join_lines
is_empty-join_lines [] ys y h = cc
is_empty-join_lines (x ∷ []) ys y h = is_empty-append x newline (join_lines (y ∷ ys))
is_empty-join_lines (x ∷ x' ∷ xs) ys y h =
    is_empty-append x newline (join_lines (x' ∷ (xs ++ (y ∷ ys))))

pub is_empty-take :
    (n : ℕ) (lines : List Bytes) → 0 < n → is_empty lines ≡ false → is_empty (take n lines) ≡ false
is_empty-take n [] pos h = cc
is_empty-take zero (l ∷ lines) pos h = absurd (omega (arith, pos))
is_empty-take (suc n) (l ∷ lines) pos h = refl

pub double_spaced_body-IsLine :
    (body : List Bytes) → All IsLine body → All IsLine (double_spaced_body body)
unfolding double_spaced_body
double_spaced_body-IsLine body h = (tt, spaced-IsLine body h)
  where
    spaced-IsLine : (body : List Bytes) → All IsLine body → All IsLine (spaced body)
    spaced-IsLine [] h = tt
    spaced-IsLine (c ∷ body) h = (h.0, (tt, spaced-IsLine body h.1))

pub find_section-All :
    (P : Section → Type 0) (label : Bytes) (ss : List Section) (s : Section)
    → All P ss
    → find_section label ss ≡ some s
    → P s
unfolding find_section
find_section-All P label [] s h e = cc
find_section-All P label (t ∷ ss) s h e = elim (Bool-cases (equal t.label label)) [
  | inl found ↦ subst P (some_inj (ground arith)) h.0
  | inr other ↦ find_section-All P label ss s h.1 (ground arith)
]

-- The section that the editor finds lies in its lines.
pub find_section-Within :
    (e : Editor) (label : Bytes) (s : Section)
    → IsEditor e
    → find_section label e.tc.sections ≡ some s
    → Within (length e.lines) s
find_section-Within e label s h found =
    let back : split_lines (join_lines e.lines) ≡ e.lines =
      split_lines-join_lines e.lines h.some_line h.no_newline in
    find_section-All (Within (length e.lines)) label e.tc.sections s
      (subst (λ tc. All (Within (length e.lines)) (TextConfig.sections tc)) (sym h.view)
        (subst (λ ls. All (Within (length ls)) (read_config (join_lines e.lines)).sections) back
          (sections-Within (join_lines e.lines))))
      found

leading_blanks_le : (ls : List Bytes) → leading_blanks ls ≤ length ls
unfolding leading_blanks
leading_blanks_le [] = omega arith
leading_blanks_le (l ∷ ls) = ground (arith, leading_blanks_le ls)

blank_at-lt : (i : ℕ) (ls : List Bytes) → blank_at i ls ≡ true → i < length ls
unfolding blank_at
blank_at-lt i [] h = cc
blank_at-lt zero (l ∷ ls) h = omega arith
blank_at-lt (suc i) (l ∷ ls) h = omega (arith, blank_at-lt i ls h)

module _ (lines : List Bytes) (s : Section) (within : Within (length lines) s) where
  pub block_stop_lt : (s.label_line ≤ block_stop lines s) × (block_stop lines s < length lines)
  unfolding block_stop
  block_stop_lt = elim (Option-cases (lookup s.label_line (pair_section_exits lines))) [
    | inl e ↦ rw e (omega (arith, within.ordered, within.starts, within.ends))
    | inr (leave, e) ↦
        let paired =
          lookup-Pairs (length lines) s.label_line leave (pair_section_exits lines)
            (pair_section_exits-Pairs lines) e in
        rw e (omega (arith, paired))
  ]

  pub behind_le : (0 < behind lines s) × (behind lines s ≤ length lines)
  unfolding behind
  behind_le = omega (
    arith,
    block_stop_lt,
    leading_blanks_le (drop (block_stop lines s + 1) lines),
    length-drop (block_stop lines s + 1) lines,
  )

  pub block_end_lt : block_end lines s < length lines
  unfolding block_end
  block_end_lt = elim (Bool-cases (blank_at (block_stop lines s + 1) lines)) [
    | inl h ↦ rw h (blank_at-lt (block_stop lines s + 1) lines h)
    | inr h ↦ rw h (omega (arith, block_stop_lt))
  ]

-- A text has a line, and a first line with content makes a text.
pub is_empty_of-join_lines :
    (lines : List Bytes) → is_empty (join_lines lines) ≡ false → is_empty lines ≡ false
unfolding join_lines
is_empty_of-join_lines [] h = cc
is_empty_of-join_lines (l ∷ lines) h = refl

pub is_empty-join_lines_first :
    (n : ℕ) (lines rest : List Bytes)
    → 0 < n
    → is_empty (first_line lines) ≡ false
    → is_empty (join_lines (take n lines ++ rest)) ≡ false
unfolding join_lines
is_empty-join_lines_first zero lines rest pos h = absurd (omega (arith, pos))
is_empty-join_lines_first (suc n) [] rest pos h = cc
is_empty-join_lines_first (suc n) (l ∷ lines) rest pos h = first_content l (take n lines ++ rest) h
  where
    first_content :
        (l : Bytes) (ls : List Bytes) → is_empty l ≡ false → is_empty (join_lines (l ∷ ls)) ≡ false
    first_content [] ls h = cc
    first_content (c ∷ l) [] h = refl
    first_content (c ∷ l) (l' ∷ ls) h = refl

pub sync_empty :
    (e : Editor) (lines : List Bytes)
    → is_empty (join_lines lines) ≡ true
    → sync e lines ≡ (err empty_config, record e { lines = lines })
unfolding sync parse_text_config
sync_empty e lines h = rw (sync, parsed (join_lines lines) h) refl
  where
    parsed : (text : Bytes) → is_empty text ≡ true → parse_text_config text ≡ err empty_config
    parsed [] h = refl
    parsed (c ∷ cs) h = cc

pub new_block-IsLine :
    (label : Bytes) (body : List Bytes)
    → IsLine label
    → All IsLine body
    → All IsLine (new_block label body)
unfolding new_block
new_block-IsLine label body h hb = (
  h,
  All-append IsLine (double_spaced_body body) (ascii "exit" ∷ [] ∷ [])
      (double_spaced_body-IsLine body hb)
      (
        (λ e. omega arith, (λ e. omega arith, (λ e. omega arith, (λ e. omega arith, tt)))),
        (tt, tt),
      ),
)

-- ===== src/Textcfg/Editor/Regions.antt =====
-- The regions that the splices of the editor cut a file into (internal/fastpath/textedit.go).
use mathlib.Core.Path.{subst}
use mathlib.Core.Option
use terraform_provider_netge.Base.{
  ℕ, join_lines, split_lines, split_lines-join_lines, if◌then◌else◌, zero, suc, ◌+◌, ◌-◌, ◌≤◌, ◌<◌,
  ◌≡◌, refl, sym, ap, ◌∙◌, ◌⊎◌, inl, inr, Bool, true, false, if◌then◌else◌, Option, none, some,
  List, [], ◌∷◌, ◌++◌, append_assoc, arith, length, length-take, length-drop, take, drop, Bytes,
  All, ascii,
}
use terraform_provider_netge.Textcfg.{Section, TextConfig, find_section, read_config}
use terraform_provider_netge.Textcfg.Spans.{Within}
use terraform_provider_netge.Textcfg.Bodies.{BeforeExit, sections-BeforeExit}
use terraform_provider_netge.Textcfg.Exits.{exit_of, lookup-exit_of}
use terraform_provider_netge.Textcfg.Editor.{
  Editor, blank_line, double_spaced_body, leading_blanks, or_default, block_stop, behind, blank_at,
  block_end, new_block,
}
use terraform_provider_netge.Textcfg.Editor.Splice.{IsEditor, find_section-All, block_stop_lt}
use terraform_provider_netge.Textcfg.Editor.Kept.{with_body, with_block, without_block}
use terraform_provider_netge.Textcfg.Editor.Blocks.{
  StartsWithText, IsBlank, last_line, IsReplaced, IsInserted, IsDeleted,
  double_spaced_body-IsDoubleSpaced, take-drop, drop_more, take_more, leading-IsBlank,
  leading-StartsWithText, blank_line-IsBlank, not_blank,
}

length-take_le : (n : ℕ) (lines : List Bytes) → n ≤ length lines → length (take n lines) ≡ n
length-take_le n lines h = omega (arith, h, length-take n lines)

-- The block ends where the matching of labels and exits says.
block_stop-last_line : (lines : List Bytes) (s : Section) → block_stop lines s ≡ last_line lines s
unfolding block_stop
block_stop-last_line lines s =
    ap (λ o. or_default o s.body_end) (lookup-exit_of lines s.label_line)
    ∙ same (exit_of lines s.label_line) s.body_end
  where
    same : (o : Option ℕ) (n : ℕ) → or_default o n ≡ Option.get_or o n
    same none n = refl
    same (some m) n = refl

pub body_end-exit :
    (e : Editor) (label : Bytes) (s : Section)
    → IsEditor e
    → find_section label e.tc.sections ≡ some s
    → (k : ℕ) → exit_of e.lines s.label_line ≡ some k
    → s.body_end < k
body_end-exit e label s h found k leave =
    let back : split_lines (join_lines e.lines) ≡ e.lines =
      split_lines-join_lines e.lines h.some_line h.no_newline in
    find_section-All (BeforeExit e.lines) label e.tc.sections s
      (subst (λ tc. All (BeforeExit e.lines) (TextConfig.sections tc)) (sym h.view)
        (subst (λ ls. All (BeforeExit ls) (read_config (join_lines e.lines)).sections) back
          (sections-BeforeExit (join_lines e.lines))))
      found k (lookup-exit_of e.lines s.label_line ∙ leave)

pub with_body-IsReplaced :
    (e : Editor) (s : Section) (body : List Bytes)
    → Within (length e.lines) s
    → ((k : ℕ) → exit_of e.lines s.label_line ≡ some k → s.body_end < k)
    → IsReplaced e.lines s body (with_body e s body)
with_body-IsReplaced e s body within before =
    let first = s.body_start in
    let n : ℕ = s.body_end + 1 - first in
    let sum : first + n ≡ s.body_end + 1 = omega (arith, within.ordered) in
    let low : first ≤ length e.lines = omega (arith, within.ordered, within.ends) in
    let total : length (take first e.lines) + length (take n (drop first e.lines))
        ≡ s.body_end + 1 =
      omega (
        arith,
        length-take_le first e.lines low,
        length-take n (drop first e.lines),
        length-drop first e.lines,
        sum,
        within.ends,
      ) in
    record {
      upto = take first e.lines;
      old = take n (drop first e.lines);
      region = double_spaced_body body;
      rest = drop (s.body_end + 1) e.lines;
      lines_before =
          take-drop first e.lines
          ∙ ap (λ ls. take first e.lines ++ ls)
              (take-drop n (drop first e.lines)
                ∙ ap (λ ls. take n (drop first e.lines) ++ ls)
                    (sym (drop_more first n e.lines) ∙ ap (λ k. drop k e.lines) sum));
      label_last = length-take_le first e.lines low ∙ within.starts;
      old_body = total;
      new_body = double_spaced_body-IsDoubleSpaced body;
      lines_after = refl;
      exit_stays = λ k found. omega (arith, total, before k found);
    }

pub with_block-IsInserted :
    (e : Editor) (s : Section) (label : Bytes) (body : List Bytes)
    → Within (length e.lines) s
    → IsInserted e.lines s label body (with_block e s label body)
unfolding behind new_block
with_block-IsInserted e s label body within =
    let stop : ℕ = block_stop e.lines s + 1 in
    let tail = drop stop e.lines in
    let n : ℕ = leading_blanks tail in
    let low : stop ≤ length e.lines = omega (arith, block_stop_lt e.lines s within) in
    record {
      upto = take stop e.lines;
      blanks = take n tail;
      region = double_spaced_body body;
      rest = drop n tail;
      lines_before = take-drop stop e.lines ∙ ap (λ ls. take stop e.lines ++ ls) (take-drop n tail);
      behind_block =
          length-take_le stop e.lines low ∙ ap (λ k. k + 1) (block_stop-last_line e.lines s);
      all_blank = leading-IsBlank tail;
      no_more = leading-StartsWithText tail;
      new_body = double_spaced_body-IsDoubleSpaced body;
      lines_after =
          ap (λ ls. ls ++ (new_block label body ++ drop (stop + n) e.lines))
            (take_more stop n e.lines)
          ∙ ap (λ ls. (take stop e.lines ++ take n tail) ++ (new_block label body ++ ls))
              (drop_more stop n e.lines)
          ∙ append_assoc (take stop e.lines) (take n tail) (new_block label body ++ drop n tail)
          ∙ ap (λ ls. take stop e.lines ++ (take n tail ++ (label ∷ ls)))
              (append_assoc (double_spaced_body body) (ascii "exit" ∷ [] ∷ []) (drop n tail));
    }

-- The blank line behind a block, and what is left.
abbrev gap_size : Bool → ℕ
gap_size true = 1
gap_size false = 0

abbrev blank_first : List Bytes → Bool
blank_first [] = false
blank_first (l ∷ ls) = blank_line l

blank_at-drop : (i : ℕ) (ls : List Bytes) → blank_at i ls ≡ blank_first (drop i ls)
unfolding blank_at
blank_at-drop zero [] = refl
blank_at-drop (suc i) [] = refl
blank_at-drop zero (l ∷ ls) = refl
blank_at-drop (suc i) (l ∷ ls) = blank_at-drop i ls

gap_lem :
    (ls : List Bytes) (b : Bool)
    → blank_first ls ≡ b
    → ((take (gap_size b) ls ≡ []) × StartsWithText (drop (gap_size b) ls))
      ⊎ ((l : Bytes) × (take (gap_size b) ls ≡ l ∷ []) × IsBlank l)
gap_lem [] true h = cc h
gap_lem [] false h = inl (refl, tt)
gap_lem (l ∷ ls) true h = inr (l, refl, blank_line-IsBlank l h)
gap_lem (l ∷ ls) false h = inl (refl, not_blank l h)

block_end-gap :
    (lines : List Bytes) (s : Section)
    → block_end lines s + 1
      ≡ block_stop lines s + 1 + gap_size (blank_first (drop (block_stop lines s + 1) lines))
unfolding block_end
block_end-gap lines s =
    both (blank_at (block_stop lines s + 1) lines) (block_stop lines s)
    ∙ ap (λ c. block_stop lines s + 1 + gap_size c) (blank_at-drop (block_stop lines s + 1) lines)
  where
    both : (c : Bool) (m : ℕ) → (if c then m + 1 else m) + 1 ≡ m + 1 + gap_size c
    both true m = refl
    both false m = omega arith

pub without_block-IsDeleted :
    (e : Editor) (s : Section) → Within (length e.lines) s → IsDeleted e.lines s (without_block e s)
unfolding block_end
without_block-IsDeleted e s within =
    let first = s.label_line in
    let stop : ℕ = block_stop e.lines s + 1 in
    let tail = drop stop e.lines in
    let n : ℕ = stop - first in
    let inside = block_stop_lt e.lines s within in
    let sum : first + n ≡ stop = omega (arith, inside) in
    let b : Bool = blank_first tail in
    let low : first ≤ length e.lines = omega (arith, within.labelled) in
    record {
      upto = take first e.lines;
      block = take n (drop first e.lines);
      gap = take (gap_size b) tail;
      rest = drop (gap_size b) tail;
      lines_before =
          take-drop first e.lines
          ∙ ap (λ ls. take first e.lines ++ ls)
              (take-drop n (drop first e.lines)
                ∙ ap (λ ls. take n (drop first e.lines) ++ ls)
                    (sym (drop_more first n e.lines)
                      ∙ ap (λ k. drop k e.lines) sum
                      ∙ take-drop (gap_size b) tail));
      label_first = length-take_le first e.lines low;
      whole_block =
          let total : length (take first e.lines) + length (take n (drop first e.lines)) ≡ stop =
            omega (
              arith,
              length-take_le first e.lines low,
              length-take n (drop first e.lines),
              length-drop first e.lines,
              sum,
              inside,
            ) in
          total ∙ ap (λ k. k + 1) (block_stop-last_line e.lines s);
      gap_blank = gap_lem tail b refl;
      lines_after =
          ap (λ k. take first e.lines ++ drop k e.lines) (block_end-gap e.lines s)
          ∙ ap (λ ls. take first e.lines ++ ls) (drop_more stop (gap_size b) e.lines);
    }

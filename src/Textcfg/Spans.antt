-- ===== src/Textcfg/Spans.antt =====
-- The line spans of the sections (internal/fastpath/textcfg.go).
use terraform_provider_netge.Base.{
  ℕ, zero, suc, ◌+◌, ◌-◌, ◌≤◌, ◌<◌, ◌≡◌, refl, Bool, false, Bool-cases, some_inj, inl, inr,
  Option-cases, some, List, [], ◌∷◌, arith, length, drop, ◌==◌, ==_iff, of_both, Bytes, All, lookup,
  split_lines, reverse_onto,
}
use terraform_provider_netge.Textcfg.{
  Section, trimmed, is_scaffold, section_starts, count_line, walk_line, walk_sections,
  block_section_label, close_top, pair_line, pair_exits, pair_section_exits, nested_interface,
  first_nested_interface, body_end_of, open_end, compute_section_spans, read_config,
}

-- Sections found last first, in lines before line `i`.
abbrev Descends : ℕ → List Section → Type 0
Descends i [] = Unit
Descends i (s ∷ ss) = (s.label_line < i) × Descends s.label_line ss

-- Sections in the order of their lines, from line `low` on, of a file of `n` lines.
abbrev Ascends : ℕ → ℕ → List Section → Type 0
Ascends n low [] = Unit
Ascends n low (s ∷ ss) = (low ≤ s.label_line) × (s.label_line < n) × Ascends n (suc s.label_line) ss

Descends-later : (i j : ℕ) (ss : List Section) → i ≤ j → Descends i ss → Descends j ss
Descends-later i j [] le h = tt
Descends-later i j (s ∷ ss) le h = (omega (arith, h.0, le), h.1)

Ascends-earlier : (n i j : ℕ) (ss : List Section) → i ≤ j → Ascends n j ss → Ascends n i ss
Ascends-earlier n i j [] le h = tt
Ascends-earlier n i j (s ∷ ss) le h = (omega (arith, h.0, le), h.1, h.2)

reverse_onto-Ascends :
    (n i : ℕ) (found rest : List Section)
    → i ≤ n
    → Descends i found
    → Ascends n i rest
    → Ascends n 0 (reverse_onto found rest)
unfolding reverse_onto
reverse_onto-Ascends n i [] rest le h k = Ascends-earlier n 0 i rest (omega arith) k
reverse_onto-Ascends n i (s ∷ found) rest le h k =
    reverse_onto-Ascends n s.label_line found (s ∷ rest) (omega (arith, h.0, le)) h.1
      (omega arith, omega (arith, h.0, le), Ascends-earlier n (suc s.label_line) i rest h.0 k)

count_line-Descends : (i : ℕ) (ss : List Section) → Descends i ss → Descends i (count_line ss)
unfolding count_line
count_line-Descends i [] h = tt
count_line-Descends i (s ∷ ss) h = h

walk_line-Descends :
    (i : ℕ) (line : Bytes) (inside : Bool) (found : List Section)
    → Descends i found
    → Descends (suc i) (walk_line i line inside found).1
unfolding walk_line
walk_line-Descends i line inside found h =
    let kept : Descends (suc i) found = Descends-later i (suc i) found (omega arith) h in
    of_both Kept (is_scaffold line) _ _ kept (
      of_both Kept (section_starts line) _ _ (omega arith, h)
        (of_both Kept _ _ _ kept
          (of_both (Descends (suc i)) inside _ _ (count_line-Descends (suc i) found kept) kept)))
  where
    Kept : Bool × List Section → Type 0
    Kept r = Descends (suc i) r.1

walk_sections-Ascends :
    (n i : ℕ) (inside : Bool) (found : List Section) (ls : List Bytes)
    → i + length ls ≡ n
    → Descends i found
    → Ascends n 0 (walk_sections i inside found ls)
unfolding walk_sections
walk_sections-Ascends n i inside found [] e h =
    reverse_onto-Ascends n i found [] (omega (arith, e)) h tt
walk_sections-Ascends n i inside found (l ∷ ls) e h =
    let next = walk_line i (trimmed l) inside found in
    walk_sections-Ascends n (suc i) next.0 next.1 ls (omega (arith, e))
      (walk_line-Descends i (trimmed l) inside found h)

-- Open labels before line `i`, and pairs of a label before its exit in a file of `n` lines.
abbrev Before : ℕ → List ℕ → Type 0
Before i stack = All (λ k. k < i) stack

abbrev pub Pairs : ℕ → List (ℕ × ℕ) → Type 0
Pairs n pairs = All (λ p. (p.0 < p.1) × (p.1 < n)) pairs

Before-later : (i : ℕ) (stack : List ℕ) → Before i stack → Before (suc i) stack
Before-later i [] h = tt
Before-later i (k ∷ stack) h = (omega (arith, h.0), Before-later i stack h.1)

close_top-Pairs :
    (n i : ℕ) (stack : List ℕ) (pairs : List (ℕ × ℕ))
    → i < n
    → Before i stack
    → Pairs n pairs
    → Before (suc i) (close_top i stack pairs).0 × Pairs n (close_top i stack pairs).1
close_top-Pairs n i [] pairs le h k = (tt, k)
close_top-Pairs n i (top ∷ stack) pairs le h k = (Before-later i stack h.1, ((h.0, le), k))

pair_line-Pairs :
    (n i : ℕ) (line : Bytes) (stack : List ℕ) (pairs : List (ℕ × ℕ))
    → i < n
    → Before i stack
    → Pairs n pairs
    → Before (suc i) (pair_line i line stack pairs).0 × Pairs n (pair_line i line stack pairs).1
unfolding pair_line
pair_line-Pairs n i line stack pairs le h k =
    of_both Kept (is_scaffold line) _ _ (Before-later i stack h, k)
      (of_both Kept _ _ _ (close_top-Pairs n i stack pairs le h k) (
        of_both (Before (suc i)) (block_section_label line) _ _
            (omega arith, Before-later i stack h) (Before-later i stack h),
        k,
      ))
  where
    Kept : List ℕ × List (ℕ × ℕ) → Type 0
    Kept r = Before (suc i) r.0 × Pairs n r.1

pair_exits-Pairs :
    (n i : ℕ) (stack : List ℕ) (pairs : List (ℕ × ℕ)) (ls : List Bytes)
    → i + length ls ≡ n
    → Before i stack
    → Pairs n pairs
    → Pairs n (pair_exits i stack pairs ls)
unfolding pair_exits
pair_exits-Pairs n i stack pairs [] e h k = k
pair_exits-Pairs n i stack pairs (l ∷ ls) e h k =
    let next = pair_line i (trimmed l) stack pairs in
    let kept : Before (suc i) next.0 × Pairs n next.1 =
      pair_line-Pairs n i (trimmed l) stack pairs (omega (arith, e)) h k in
    pair_exits-Pairs n (suc i) next.0 next.1 ls (omega (arith, e)) kept.0 kept.1

pub lookup-Pairs :
    (n label leave : ℕ) (pairs : List (ℕ × ℕ))
    → Pairs n pairs
    → lookup label pairs ≡ some leave
    → (label < leave) × (leave < n)
unfolding lookup
lookup-Pairs n label leave [] h e = cc
lookup-Pairs n label leave ((k, v) ∷ pairs) h e = elim (Bool-cases (k == label)) [
  | inl same ↦
      let key : k ≡ label = (==_iff k label).0 same in
      let value : v ≡ leave = some_inj (ground arith) in
      (omega (arith, key, value, h.0.0), omega (arith, value, h.0.1))
  | inr other ↦ lookup-Pairs n label leave pairs h.1 (ground arith)
]

pub nested_interface-within :
    (j n found : ℕ) (ls : List Bytes)
    → nested_interface j n ls ≡ some found
    → (j ≤ found) × (found < j + n)
unfolding nested_interface
nested_interface-within j zero found ls e = cc
nested_interface-within j (suc n) found [] e = cc
nested_interface-within j (suc n) found (l ∷ ls) e =
    ground (arith, nested_interface-within (suc j) n found ls)

pub pair_section_exits-Pairs :
    (lines : List Bytes) → Pairs (length lines) (pair_section_exits lines)
unfolding pair_section_exits
pair_section_exits-Pairs lines = pair_exits-Pairs (length lines) 0 [] [] lines (omega arith) tt tt

-- The span of a section in a file of `n` lines: the label stands in the file, the body starts
-- behind it, is empty or ends in the file.
pub record Within (n : ℕ) (s : Section) : Type 0 where
  pub labelled : s.label_line < n
  pub starts : s.body_start ≡ s.label_line + 1
  pub ordered : s.body_start ≤ s.body_end + 1
  pub ends : s.body_end + 1 ≤ n

module _ (lines : List Bytes) (exits : List (ℕ × ℕ)) (paired : Pairs (length lines) exits) where
  open_end-within :
      (s : Section) (later : List Section) (low : ℕ)
      → Ascends (length lines) low (s ∷ later)
      → (s.label_line ≤ open_end lines later) × (open_end lines later < length lines)
  open_end-within s [] low h = (omega (arith, h.1), omega (arith, h.1))
  open_end-within s (next ∷ later) low h = (omega (arith, h.1, h.2), omega (arith, h.1, h.2))

  body_end_of-within :
      (s : Section) (later : List Section) (low : ℕ)
      → Ascends (length lines) low (s ∷ later)
      → (s.label_line ≤ body_end_of lines exits s later)
        × (body_end_of lines exits s later < length lines)
  unfolding body_end_of first_nested_interface
  body_end_of-within s later low h = elim (Option-cases (lookup s.label_line exits)) [
    | inr (leave, e) ↦
        let within = lookup-Pairs (length lines) s.label_line leave exits paired e in
        elim (Option-cases (first_nested_interface lines (s.label_line + 1) leave)) [
          | inr (nested, f) ↦
              let inside =
                nested_interface-within (s.label_line + 1) (leave - (s.label_line + 1)) nested
                  (drop (s.label_line + 1) lines) f in
              rw (body_end_of, e, f) (omega (arith, within, inside))
          | inl f ↦ rw (body_end_of, e, f) (omega (arith, within))
        ]
    | inl e ↦ rw (body_end_of, e) (open_end-within s later low h)
  ]

  compute_section_spans-Within :
      (ss : List Section) (low : ℕ)
      → Ascends (length lines) low ss
      → All (Within (length lines)) (compute_section_spans lines exits ss)
  unfolding compute_section_spans
  compute_section_spans-Within [] low h = tt
  compute_section_spans-Within (s ∷ later) low h =
      let stop = body_end_of-within s later low h in
      (
        record {
          labelled = h.1;
          starts = refl;
          ordered = omega (arith, stop);
          ends = omega (arith, stop);
        },
        compute_section_spans-Within later (suc s.label_line) h.2,
      )

-- In every parsed file the label line of each section lies in the file, its body starts on the
-- next line, and ends in the file, at the label line or later.
pub sections-Within :
    (raw : Bytes) → All (Within (length (split_lines raw))) (read_config raw).sections
unfolding read_config pair_section_exits
sections-Within raw =
    compute_section_spans-Within lines (pair_section_exits lines) (pair_section_exits-Pairs lines)
      (walk_sections 0 false [] lines) 0
      (walk_sections-Ascends (length lines) 0 false [] lines (omega arith) tt)
  where
    lines : List Bytes
    lines = split_lines raw

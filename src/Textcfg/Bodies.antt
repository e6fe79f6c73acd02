-- ===== src/Textcfg/Bodies.antt =====
-- Where the body of a section ends (internal/fastpath/textcfg.go).
use terraform_provider_netge.Base.{
  ℕ, ◌+◌, ◌-◌, ◌<◌, ◌≡◌, false, inl, inr, Option-cases, some, List, [], ◌∷◌, arith, length, drop,
  Bytes, All, lookup, split_lines,
}
use terraform_provider_netge.Textcfg.{
  Section, pair_section_exits, first_nested_interface, body_end_of, compute_section_spans,
  walk_sections, read_config,
}
use terraform_provider_netge.Textcfg.Spans.{
  lookup-Pairs, pair_section_exits-Pairs, nested_interface-within,
}

-- The body of a section ends before its exit.
body_end_of-exit :
    (lines : List Bytes) (s : Section) (later : List Section) (k : ℕ)
    → lookup s.label_line (pair_section_exits lines) ≡ some k
    → body_end_of lines (pair_section_exits lines) s later < k
unfolding body_end_of first_nested_interface
body_end_of-exit lines s later k found =
    let within =
      lookup-Pairs (length lines) s.label_line k (pair_section_exits lines)
        (pair_section_exits-Pairs lines) found in
    elim (Option-cases (first_nested_interface lines (s.label_line + 1) k)) [
      | inl f ↦ rw (body_end_of, found, f) (omega (arith, within))
      | inr (nested, f) ↦
          let inside =
            nested_interface-within (s.label_line + 1) (k - (s.label_line + 1)) nested
              (drop (s.label_line + 1) lines) f in
          rw (body_end_of, found, f) (omega (arith, within, inside))
    ]

-- A body that ends before the exit of its section.
abbrev pub BeforeExit : List Bytes → Section → Type 0
BeforeExit lines s =
    (k : ℕ) → lookup s.label_line (pair_section_exits lines) ≡ some k → s.body_end < k

compute_section_spans-BeforeExit :
    (lines : List Bytes) (ss : List Section)
    → All (BeforeExit lines) (compute_section_spans lines (pair_section_exits lines) ss)
unfolding compute_section_spans
compute_section_spans-BeforeExit lines [] = tt
compute_section_spans-BeforeExit lines (s ∷ later) = (
  (λ k found. body_end_of-exit lines s later k found),
  compute_section_spans-BeforeExit lines later,
)

pub sections-BeforeExit :
    (raw : Bytes) → All (BeforeExit (split_lines raw)) (read_config raw).sections
unfolding read_config
sections-BeforeExit raw =
    compute_section_spans-BeforeExit (split_lines raw) (walk_sections 0 false [] (split_lines raw))

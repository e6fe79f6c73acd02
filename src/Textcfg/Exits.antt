-- ===== src/Textcfg/Exits.antt =====
-- Where the block of a section ends (internal/fastpath/textcfg.go): the matching of labels and
-- exits with a stack, against a count of the blocks that are open behind one label.
use terraform_provider_netge.Base.{
  ℕ, zero, suc, ◌+◌, ◌<◌, ◌≡◌, ◌≢◌, refl, ◌∙◌, inl, inr, Bool, false, ◌||◌, Bool-cases, Option,
  none, some, List, [], ◌∷◌, arith, ◌==◌, ==_iff, if◌then◌else◌, Bytes, All, lookup, equal, ascii,
  has_prefix, is_empty, trim_right, trim_space, carriage_return,
}
use terraform_provider_netge.Textcfg.{
  trimmed, is_scaffold, exit_line, block_section_label, close_top, pair_line, pair_exits,
  pair_section_exits,
}

-- A line without what the firmware ignores around it.
abbrev pub text_of : Bytes → Bytes
text_of line = trim_space (trim_right carriage_return line)

abbrev pub is_quiet : Bytes → Bool
is_quiet t = is_empty t || has_prefix t (ascii "!")

abbrev pub is_exit : Bytes → Bool
is_exit t = equal t (ascii "exit")

-- A line that opens a block.
abbrev pub opens : Bytes → Bool
opens t =
    equal t (ascii "vlan database")
    || (equal t (ascii "configure")
        || (equal t (ascii "lineconfig") || has_prefix t (ascii "interface ")))

-- What a line leads to, by its kind.
abbrev exit_step : Bytes → Option ℕ → Option ℕ → Option ℕ → Option ℕ
exit_step t same closed deeper =
    if is_quiet t then same else if is_exit t then closed else if opens t then deeper else same

-- The exit, from line `i` on, that closes a block in which `depth` other blocks are open.
unfoldable pub exit_from : ℕ → ℕ → List Bytes → Option ℕ
exit_from depth i [] = none
exit_from zero i (l ∷ ls) =
    exit_step (text_of l) (exit_from 0 (suc i) ls) (some i) (exit_from 1 (suc i) ls)
exit_from (suc depth) i (l ∷ ls) =
    exit_step (text_of l) (exit_from (suc depth) (suc i) ls) (exit_from depth (suc i) ls)
      (exit_from (suc (suc depth)) (suc i) ls)

-- The exit of the block that line `i + k` opens, if it opens one that is closed, in the lines
-- from line `i` on.
unfoldable pub exit_at : ℕ → ℕ → List Bytes → Option ℕ
unfolding exit_from
exit_at i k [] = none
exit_at i zero (l ∷ ls) = exit_step (text_of l) none none (exit_from 0 (suc i) ls)
exit_at i (suc k) (l ∷ ls) = exit_at (suc i) k ls

unfoldable pub exit_of : List Bytes → ℕ → Option ℕ
unfolding exit_at
exit_of lines k = exit_at 0 k lines

-- The label `k` below `depth` others on a stack, and nowhere else.
abbrev Held : ℕ → ℕ → List ℕ → Type 0
Held k depth [] = ⊥
Held k zero (j ∷ stack) = (j ≡ k) × All (λ i. i ≢ k) stack
Held k (suc depth) (j ∷ stack) = (j ≢ k) × Held k depth stack

not_same : (j k : ℕ) → j ≢ k → (j == k) ≡ false
not_same j k h = elim (Bool-cases (j == k)) [
  | inl same ↦ absurd (h ((==_iff j k).0 same))
  | inr other ↦ other
]

lookup-other :
    (k top i : ℕ) (pairs : List (ℕ × ℕ)) → top ≢ k → lookup k ((top, i) ∷ pairs) ≡ lookup k pairs
unfolding lookup
lookup-other k top i pairs h = rw (not_same top k h) refl

-- A label that is not on the stack is paired no more.
lookup-closed :
    (k i : ℕ) (stack : List ℕ) (pairs : List (ℕ × ℕ)) (ls : List Bytes)
    → k < i
    → All (λ j. j ≢ k) stack
    → lookup k (pair_exits i stack pairs ls) ≡ lookup k pairs
unfolding pair_exits pair_line trimmed
lookup-closed k i stack pairs [] low h = refl
lookup-closed k i stack pairs (l ∷ ls) low h =
    let later : (next : List ℕ) (more : List (ℕ × ℕ))
        → All (λ j. j ≢ k) next
        → lookup k (pair_exits (suc i) next more ls) ≡ lookup k more =
      λ next more g. lookup-closed k (suc i) next more ls (omega (arith, low)) g in
    elim (Bool-cases (is_scaffold (text_of l))) [
      | inl quiet ↦ rw quiet (later stack pairs h)
      | inr content ↦ elim (Bool-cases (equal (text_of l) exit_line)) [
        | inl leave ↦ rw (content, leave) (close later stack h)
        | inr line ↦ elim (Bool-cases (block_section_label (text_of l))) [
          | inl label ↦
              rw (content, line, label) (later (i ∷ stack) pairs ((λ e. omega (arith, low, e)), h))
          | inr other ↦ rw (content, line, other) (later stack pairs h)
        ]
      ]
    ]
  where
    close :
        ((next : List ℕ) (more : List (ℕ × ℕ))
          → All (λ j. j ≢ k) next
          → lookup k (pair_exits (suc i) next more ls) ≡ lookup k more)
        → (stack : List ℕ) → All (λ j. j ≢ k) stack
        → lookup k (pair_exits (suc i) (close_top i stack pairs).0 (close_top i stack pairs).1 ls)
          ≡ lookup k pairs
    close later [] h = later [] pairs tt
    close later (top ∷ stack) h =
        later stack ((top, i) ∷ pairs) h.1 ∙ lookup-other k top i pairs h.0

lookup-same : (k top i : ℕ) (pairs : List (ℕ × ℕ)) → top ≡ k → lookup k ((top, i) ∷ pairs) ≡ some i
unfolding lookup
lookup-same k top i pairs h = rw ((==_iff top k).1 h) refl

-- A label that is open is paired with the exit that the count finds.
lookup-Held :
    (k depth i : ℕ) (stack : List ℕ) (pairs : List (ℕ × ℕ)) (ls : List Bytes)
    → k < i
    → lookup k pairs ≡ none
    → Held k depth stack
    → lookup k (pair_exits i stack pairs ls) ≡ exit_from depth i ls
unfolding pair_exits pair_line trimmed exit_from is_scaffold block_section_label
lookup-Held k zero i stack pairs [] low fresh h = fresh
lookup-Held k (suc depth) i stack pairs [] low fresh h = fresh
lookup-Held k depth i [] pairs (l ∷ ls) low fresh h = absurd h
lookup-Held k zero i (top ∷ stack) pairs (l ∷ ls) low fresh h =
    elim (Bool-cases (is_quiet (text_of l))) [
      | inl quiet ↦
          rw quiet (lookup-Held k zero (suc i) (top ∷ stack) pairs ls (omega (arith, low)) fresh h)
      | inr content ↦ elim (Bool-cases (is_exit (text_of l))) [
        | inl leave ↦
            rw (content, leave)
              (lookup-closed k (suc i) stack ((top, i) ∷ pairs) ls (omega (arith, low)) h.1
                ∙ lookup-same k top i pairs h.0)
        | inr line ↦ elim (Bool-cases (opens (text_of l))) [
          | inl label ↦
              rw (content, line, label)
                (lookup-Held k (suc zero) (suc i) (i ∷ top ∷ stack) pairs ls (omega (arith, low))
                  fresh ((λ e. omega (arith, low, e)), h))
          | inr other ↦
              rw (content, line, other)
                (lookup-Held k zero (suc i) (top ∷ stack) pairs ls (omega (arith, low)) fresh h)
        ]
      ]
    ]
lookup-Held k (suc depth) i (top ∷ stack) pairs (l ∷ ls) low fresh h =
    elim (Bool-cases (is_quiet (text_of l))) [
      | inl quiet ↦
          rw quiet
            (lookup-Held k (suc depth) (suc i) (top ∷ stack) pairs ls (omega (arith, low)) fresh h)
      | inr content ↦ elim (Bool-cases (is_exit (text_of l))) [
        | inl leave ↦
            rw (content, leave)
              (lookup-Held k depth (suc i) stack ((top, i) ∷ pairs) ls (omega (arith, low))
                (lookup-other k top i pairs h.0 ∙ fresh) h.1)
        | inr line ↦ elim (Bool-cases (opens (text_of l))) [
          | inl label ↦
              rw (content, line, label)
                (lookup-Held k (suc (suc depth)) (suc i) (i ∷ top ∷ stack) pairs ls
                  (omega (arith, low)) fresh ((λ e. omega (arith, low, e)), h))
          | inr other ↦
              rw (content, line, other)
                (lookup-Held k (suc depth) (suc i) (top ∷ stack) pairs ls (omega (arith, low)) fresh
                  h)
        ]
      ]
    ]

-- Before the label is read it is on no stack.
lookup-exit_at :
    (i k n : ℕ) (stack : List ℕ) (pairs : List (ℕ × ℕ)) (ls : List Bytes)
    → i + n ≡ k
    → All (λ j. j < i) stack
    → lookup k pairs ≡ none
    → lookup k (pair_exits i stack pairs ls) ≡ exit_at i n ls
unfolding pair_exits pair_line trimmed exit_at is_scaffold block_section_label
lookup-exit_at i k zero stack pairs [] e h fresh = fresh
lookup-exit_at i k (suc n) stack pairs [] e h fresh = fresh
lookup-exit_at i k zero stack pairs (l ∷ ls) e h fresh =
    let closed : (next : List ℕ) (more : List (ℕ × ℕ))
        → All (λ j. j ≢ k) next
        → lookup k (pair_exits (suc i) next more ls) ≡ lookup k more =
      λ next more g. lookup-closed k (suc i) next more ls (omega (arith, e)) g in
    elim (Bool-cases (is_quiet (text_of l))) [
      | inl quiet ↦ rw quiet (closed stack pairs (others stack h) ∙ fresh)
      | inr content ↦ elim (Bool-cases (is_exit (text_of l))) [
        | inl leave ↦ rw (content, leave) (close closed stack h)
        | inr line ↦ elim (Bool-cases (opens (text_of l))) [
          | inl label ↦
              let here : i ≡ k = omega (arith, e) in
              rw (content, line, label)
                (lookup-Held k zero (suc i) (i ∷ stack) pairs ls (omega (arith, e)) fresh
                  (here, others stack h))
          | inr other ↦ rw (content, line, other) (closed stack pairs (others stack h) ∙ fresh)
        ]
      ]
    ]
  where
    others : (stack : List ℕ) → All (λ j. j < i) stack → All (λ j. j ≢ k) stack
    others [] g = tt
    others (j ∷ stack) g = ((λ same. omega (arith, e, g.0, same)), others stack g.1)

    close :
        ((next : List ℕ) (more : List (ℕ × ℕ))
          → All (λ j. j ≢ k) next
          → lookup k (pair_exits (suc i) next more ls) ≡ lookup k more)
        → (stack : List ℕ) → All (λ j. j < i) stack
        → lookup k (pair_exits (suc i) (close_top i stack pairs).0 (close_top i stack pairs).1 ls)
          ≡ none
    close closed [] g = closed [] pairs tt ∙ fresh
    close closed (top ∷ stack) g =
        closed stack ((top, i) ∷ pairs) (others stack g.1)
        ∙ lookup-other k top i pairs (λ same. omega (arith, e, g.0, same))
        ∙ fresh
lookup-exit_at i k (suc n) stack pairs (l ∷ ls) e h fresh =
    let kept : All (λ j. j < suc i) stack = later stack h in
    let next : (open_labels : List ℕ) (more : List (ℕ × ℕ))
        → All (λ j. j < suc i) open_labels
        → lookup k more ≡ none
        → lookup k (pair_exits (suc i) open_labels more ls) ≡ exit_at (suc i) n ls =
      λ open_labels more g f.
        lookup-exit_at (suc i) k n open_labels more ls (omega (arith, e)) g f in
    elim (Bool-cases (is_quiet (text_of l))) [
      | inl quiet ↦ rw quiet (next stack pairs kept fresh)
      | inr content ↦ elim (Bool-cases (is_exit (text_of l))) [
        | inl leave ↦ rw (content, leave) (close next stack h)
        | inr line ↦ elim (Bool-cases (opens (text_of l))) [
          | inl label ↦ rw (content, line, label) (next (i ∷ stack) pairs (omega arith, kept) fresh)
          | inr other ↦ rw (content, line, other) (next stack pairs kept fresh)
        ]
      ]
    ]
  where
    later : (stack : List ℕ) → All (λ j. j < i) stack → All (λ j. j < suc i) stack
    later [] g = tt
    later (j ∷ stack) g = (omega (arith, g.0), later stack g.1)

    close :
        ((open_labels : List ℕ) (more : List (ℕ × ℕ))
          → All (λ j. j < suc i) open_labels
          → lookup k more ≡ none
          → lookup k (pair_exits (suc i) open_labels more ls) ≡ exit_at (suc i) n ls)
        → (stack : List ℕ) → All (λ j. j < i) stack
        → lookup k (pair_exits (suc i) (close_top i stack pairs).0 (close_top i stack pairs).1 ls)
          ≡ exit_at (suc i) n ls
    close next [] g = next [] pairs tt fresh
    close next (top ∷ stack) g =
        next stack ((top, i) ∷ pairs) (later stack g.1)
          (lookup-other k top i pairs (λ same. omega (arith, e, g.0, same)) ∙ fresh)

-- The matching pairs a line with its exit, if it opens a block that is closed.
pub lookup-exit_of :
    (lines : List Bytes) (k : ℕ) → lookup k (pair_section_exits lines) ≡ exit_of lines k
unfolding pair_section_exits lookup exit_of
lookup-exit_of lines k = lookup-exit_at 0 k k [] [] lines (omega arith) tt refl

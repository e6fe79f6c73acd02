-- ===== src/Textcfg/Editor/Blocks.antt =====
-- What an edit does to the lines of a file, said without the editor (internal/fastpath/textedit.go).
use mathlib.Core.Option
use terraform_provider_netge.Base.{
  ℕ, zero, suc, ◌+◌, ◌*◌, ◌≤◌, ◌≡◌, ◌≢◌, refl, sym, ap, ◌∙◌, ◌⊎◌, inl, inr, true, false, Bool-cases,
  some, List, [], ◌∷◌, ◌++◌, arith, length, take, drop, get_or, Bytes, All, ascii, is_empty,
}
use terraform_provider_netge.Textcfg.{Section, trimmed}
use terraform_provider_netge.Textcfg.Exits.{text_of, exit_of}
use terraform_provider_netge.Textcfg.Editor.{blank_line, spaced, double_spaced_body, leading_blanks}

-- Lines with a blank one before, between and behind them.
pub record IsDoubleSpaced (body region : List Bytes) : Type 0 where
  pub size : length region ≡ 2 * length body + 1
  pub even_blank : (i : ℕ) → get_or region (2 * i) [] ≡ []
  pub odd_line : (i : ℕ) → get_or region (2 * i + 1) [] ≡ get_or body i []

-- No blank line comes first.
abbrev pub StartsWithText : List Bytes → Type 0
StartsWithText [] = Unit
StartsWithText (l ∷ ls) = text_of l ≢ []

abbrev pub IsBlank : Bytes → Type 0
IsBlank line = text_of line ≡ []

-- The last line of the block of a section: its exit, or the end of its body where it has none.
abbrev pub last_line : List Bytes → Section → ℕ
last_line lines s = Option.get_or (exit_of lines s.label_line) s.body_end

-- The lines of a body are replaced, from behind the label to the end of the body.
pub record IsReplaced (lines : List Bytes) (s : Section) (body lines' : List Bytes) : Type 0 where
  pub upto : List Bytes
  pub old : List Bytes
  pub region : List Bytes
  pub rest : List Bytes
  pub lines_before : lines ≡ upto ++ (old ++ rest)
  pub label_last : length upto ≡ s.label_line + 1
  pub old_body : length upto + length old ≡ s.body_end + 1
  pub new_body : IsDoubleSpaced body region
  pub lines_after : lines' ≡ upto ++ (region ++ rest)
  pub exit_stays : (k : ℕ) → exit_of lines s.label_line ≡ some k → length upto + length old ≤ k

-- A whole block is put behind the block of a section and the blank lines there.
pub record IsInserted (lines : List Bytes) (s : Section) (label : Bytes) (body lines' : List Bytes)
    : Type 0 where
  pub upto : List Bytes
  pub blanks : List Bytes
  pub region : List Bytes
  pub rest : List Bytes
  pub lines_before : lines ≡ upto ++ (blanks ++ rest)
  pub behind_block : length upto ≡ last_line lines s + 1
  pub all_blank : All IsBlank blanks
  pub no_more : StartsWithText rest
  pub new_body : IsDoubleSpaced body region
  pub lines_after : lines' ≡ upto ++ (blanks ++ (label ∷ (region ++ (ascii "exit" ∷ [] ∷ rest))))

-- A block is taken out, with the blank line behind it if there is one.
pub record IsDeleted (lines : List Bytes) (s : Section) (lines' : List Bytes) : Type 0 where
  pub upto : List Bytes
  pub block : List Bytes
  pub gap : List Bytes
  pub rest : List Bytes
  pub lines_before : lines ≡ upto ++ (block ++ (gap ++ rest))
  pub label_first : length upto ≡ s.label_line
  pub whole_block : length upto + length block ≡ last_line lines s + 1
  pub gap_blank : ((gap ≡ []) × StartsWithText rest) ⊎ ((b : Bytes) × (gap ≡ b ∷ []) × IsBlank b)
  pub lines_after : lines' ≡ upto ++ rest

spaced-size : (body : List Bytes) → length (spaced body) ≡ 2 * length body
unfolding spaced
spaced-size [] = omega arith
spaced-size (c ∷ body) = omega (arith, spaced-size body)

spaced-odd : (body : List Bytes) (i : ℕ) → get_or (spaced body) (2 * i + 1) [] ≡ []
unfolding spaced
spaced-odd [] i = refl
spaced-odd (c ∷ body) zero = refl
spaced-odd (c ∷ body) (suc i) =
    let shift : 2 * suc i + 1 ≡ suc (suc (2 * i + 1)) = omega arith in
    ap (λ n. get_or (c ∷ [] ∷ spaced body) n []) shift ∙ spaced-odd body i

spaced-even : (body : List Bytes) (i : ℕ) → get_or (spaced body) (2 * i) [] ≡ get_or body i []
unfolding spaced
spaced-even [] i = refl
spaced-even (c ∷ body) zero = refl
spaced-even (c ∷ body) (suc i) =
    let shift : 2 * suc i ≡ suc (suc (2 * i)) = omega arith in
    ap (λ n. get_or (c ∷ [] ∷ spaced body) n []) shift ∙ spaced-even body i

pub double_spaced_body-IsDoubleSpaced :
    (body : List Bytes) → IsDoubleSpaced body (double_spaced_body body)
unfolding double_spaced_body
double_spaced_body-IsDoubleSpaced body = record {
  size = omega (arith, spaced-size body);
  even_blank = even;
  odd_line = λ i.
      let shift : 2 * i + 1 ≡ suc (2 * i) = omega arith in
      ap (λ n. get_or ([] ∷ spaced body) n []) shift ∙ spaced-even body i;
}
  where
    even : (i : ℕ) → get_or ([] ∷ spaced body) (2 * i) [] ≡ []
    even zero = refl
    even (suc i) =
        let shift : 2 * suc i ≡ suc (2 * i + 1) = omega arith in
        ap (λ n. get_or ([] ∷ spaced body) n []) shift ∙ spaced-odd body i

-- A list cut in two.
pub take-drop : (n : ℕ) (lines : List Bytes) → lines ≡ take n lines ++ drop n lines
take-drop zero lines = refl
take-drop (suc n) [] = refl
take-drop (suc n) (l ∷ lines) = ap (◌∷◌ l) (take-drop n lines)

drop_nil : (n : ℕ) → drop {A = Bytes} n [] ≡ []
drop_nil zero = refl
drop_nil (suc n) = refl

take_nil : (n : ℕ) → take {A = Bytes} n [] ≡ []
take_nil zero = refl
take_nil (suc n) = refl

pub drop_more : (n m : ℕ) (lines : List Bytes) → drop (n + m) lines ≡ drop m (drop n lines)
drop_more zero m lines = ap (λ k. drop k lines) (omega arith)
drop_more (suc n) m [] = drop_nil (suc n + m) ∙ sym (drop_nil m)
drop_more (suc n) m (l ∷ lines) =
    let shift : suc n + m ≡ suc (n + m) = omega arith in
    ap (λ k. drop k (l ∷ lines)) shift ∙ drop_more n m lines

pub take_more :
    (n m : ℕ) (lines : List Bytes) → take (n + m) lines ≡ take n lines ++ take m (drop n lines)
take_more zero m lines = ap (λ k. take k lines) (omega arith)
take_more (suc n) m [] = take_nil (suc n + m) ∙ sym (take_nil m)
take_more (suc n) m (l ∷ lines) =
    let shift : suc n + m ≡ suc (n + m) = omega arith in
    ap (λ k. take k (l ∷ lines)) shift ∙ ap (◌∷◌ l) (take_more n m lines)

is_empty-nil : (xs : Bytes) → is_empty xs ≡ true → xs ≡ []
is_empty-nil [] h = refl
is_empty-nil (x ∷ xs) h = cc h

is_empty-cons : (xs : Bytes) → is_empty xs ≡ false → xs ≢ []
is_empty-cons [] h = cc h
is_empty-cons (x ∷ xs) h = λ e. cc e

pub blank_line-IsBlank : (line : Bytes) → blank_line line ≡ true → IsBlank line
unfolding blank_line trimmed
blank_line-IsBlank line h = is_empty-nil (text_of line) h

pub not_blank : (line : Bytes) → blank_line line ≡ false → text_of line ≢ []
unfolding blank_line trimmed
not_blank line h = is_empty-cons (text_of line) h

-- The blank lines at the start are counted.
pub leading-IsBlank : (ls : List Bytes) → All IsBlank (take (leading_blanks ls) ls)
unfolding leading_blanks
leading-IsBlank [] = tt
leading-IsBlank (l ∷ ls) = elim (Bool-cases (blank_line l)) [
  | inl blank ↦ rw blank (blank_line-IsBlank l blank, leading-IsBlank ls)
  | inr text ↦ rw text tt
]

pub leading-StartsWithText : (ls : List Bytes) → StartsWithText (drop (leading_blanks ls) ls)
unfolding leading_blanks
leading-StartsWithText [] = tt
leading-StartsWithText (l ∷ ls) = elim (Bool-cases (blank_line l)) [
  | inl blank ↦ rw blank (leading-StartsWithText ls)
  | inr text ↦ rw text (not_blank l text)
]

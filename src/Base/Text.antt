-- ===== src/Base/Text.antt =====
-- Texts as byte strings: lines, prefixes and the trimming functions of the package strings.
use Prim.Native.Char.{code}
use Prim.Native.String.{String}
use Prim.Native.Nat.{ℕ, zero, suc}
use mathlib.Core.Path.{◌≡◌, refl, sym, ap, ◌∙◌}
use mathlib.Core.Logic.{◌≢◌, inl, inr}
use mathlib.Core.Bool.{Bool, true, false, not, ◌&&◌, ◌||◌}
use mathlib.Core.List.{List, [], ◌∷◌, ◌++◌}
use terraform_provider_netge.Base.Tests.{◌==◌, ==_iff, ltb, leb, if◌then◌else◌, Bool-cases}
use terraform_provider_netge.Base.Words.{Bytes}
use terraform_provider_netge.Base.Lists.{All}

-- The bytes of an ASCII literal.
abbrev pub ascii : String → Bytes
ascii String.[] = []
ascii (String.◌∷◌ c s) = code c ∷ ascii s

abbrev pub newline : ℕ
newline = 10

abbrev pub carriage_return : ℕ
carriage_return = 13

-- A byte before the first line.
abbrev pub extend_first : ℕ → List Bytes → List Bytes
extend_first c [] = (c ∷ []) ∷ []
extend_first c (l ∷ ls) = (c ∷ l) ∷ ls

-- strings.Split(text, "\n")
unfoldable pub split_lines : Bytes → List Bytes
split_lines [] = [] ∷ []
split_lines (c ∷ cs) =
    let rest = split_lines cs in if c == newline then [] ∷ rest else extend_first c rest

-- strings.Join(lines, "\n")
unfoldable pub join_lines : List Bytes → Bytes
join_lines [] = []
join_lines (l ∷ ls) = elim ls [ [] ↦ l | ◌∷◌ _ _ ↦ l ++ (newline ∷ join_lines ls) ]

unfoldable pub has_prefix : Bytes → Bytes → Bool
has_prefix text [] = true
has_prefix [] (p ∷ ps) = false
has_prefix (c ∷ cs) (p ∷ ps) = c == p && has_prefix cs ps

abbrev pub is_empty {ℓ} : {A : Type ℓ} → List A → Bool
is_empty [] = true
is_empty (x ∷ xs) = false

-- strings.TrimRight with a cutset of one ASCII byte.
unfoldable pub trim_right : ℕ → Bytes → Bytes
trim_right b [] = []
trim_right b (c ∷ cs) =
    let rest = trim_right b cs in if is_empty rest && c == b then [] else c ∷ rest

unfoldable pub reverse_onto {ℓ} : {A : Type ℓ} → List A → List A → List A
reverse_onto [] ys = ys
reverse_onto (x ∷ xs) ys = reverse_onto xs (x ∷ ys)

-- unicode.IsSpace of the characters that take one, two and three bytes.
abbrev pub space_byte : ℕ → Bool
space_byte a = leb 9 a && leb a 13 || a == 32

abbrev pub space_pair : ℕ → ℕ → Bool
space_pair a b = a == 0xc2 && (b == 0x85 || b == 0xa0)

abbrev pub space_triple : ℕ → ℕ → ℕ → Bool
space_triple a b c =
    a == 0xe1 && (b == 0x9a && c == 0x80)
    || (a == 0xe2
          && (b == 0x80 && (leb 0x80 c && leb c 0x8a || (c == 0xa8 || (c == 0xa9 || c == 0xaf)))
              || b == 0x81 && c == 0x9f)
        || a == 0xe3 && (b == 0x80 && c == 0x80))

-- How many bytes the white space at the front of a text takes, and at the end of a reversed one.
unfoldable pub space_in_front : Bytes → ℕ
space_in_front (a ∷ b ∷ c ∷ _) =
    if space_byte a then 1 else if space_pair a b then 2 else if space_triple a b c then 3 else 0
space_in_front (a ∷ b ∷ []) = if space_byte a then 1 else if space_pair a b then 2 else 0
space_in_front (a ∷ []) = if space_byte a then 1 else 0
space_in_front [] = 0

unfoldable pub space_at_end : Bytes → ℕ
space_at_end (c ∷ b ∷ a ∷ _) =
    if space_byte c then 1 else if space_pair b c then 2 else if space_triple a b c then 3 else 0
space_at_end (c ∷ b ∷ []) = if space_byte c then 1 else if space_pair b c then 2 else 0
space_at_end (c ∷ []) = if space_byte c then 1 else 0
space_at_end [] = 0

-- The text behind its white space; the number counts the bytes left of the character under way.
unfoldable pub trim_spaces : (Bytes → ℕ) → ℕ → Bytes → Bytes
trim_spaces space left [] = []
trim_spaces space (suc left) (c ∷ cs) = trim_spaces space left cs
trim_spaces space zero (c ∷ cs) = elim (space (c ∷ cs)) [
  | zero ↦ c ∷ cs
  | suc left ↦ trim_spaces space left cs
]

-- strings.TrimSpace
unfoldable pub trim_space : Bytes → Bytes
unfolding trim_spaces space_in_front space_at_end reverse_onto
trim_space text =
    reverse_onto (trim_spaces space_at_end 0 (reverse_onto (trim_spaces space_in_front 0 text) []))
      []

-- How many bytes of NUL or 0xFF padding a reversed text starts with, as strings.TrimRight with the
-- cutset "\x00\xff" sees them: the invalid byte of the cutset stands for the replacement
-- character, and so for every byte at the end that is not valid UTF-8.
abbrev pub trailing_byte : ℕ → Bool
trailing_byte b = leb 0x80 b && leb b 0xbf

abbrev pub valid_pair : ℕ → ℕ → Bool
valid_pair a b = leb 0xc2 a && (leb a 0xdf && trailing_byte b)

abbrev pub valid_triple : ℕ → ℕ → ℕ → Bool
valid_triple a b c =
    leb 0xe0 a
    && (leb a 0xef
        && (trailing_byte b
            && (trailing_byte c
                && (not (a == 0xe0) || leb 0xa0 b)
                && (not (a == 0xed) || leb b 0x9f))))

abbrev pub valid_quadruple : ℕ → ℕ → ℕ → ℕ → Bool
valid_quadruple a b c d =
    leb 0xf0 a
    && (leb a 0xf4
        && (trailing_byte b
            && (trailing_byte c
                && (trailing_byte d
                    && ((not (a == 0xf0) || leb 0x90 b) && (not (a == 0xf4) || leb b 0x8f))))))

unfoldable pub padding_at_end : Bytes → ℕ
padding_at_end [] = 0
padding_at_end (d ∷ []) = if d == 0 then 1 else if ltb d 0x80 then 0 else 1
padding_at_end (d ∷ c ∷ []) =
    if d == 0 then 1 else if ltb d 0x80 then 0 else if valid_pair c d then 0 else 1
padding_at_end (d ∷ c ∷ b ∷ rest) =
    if d == 0
    then 1
    else if ltb d 0x80
    then 0
    else if valid_pair c d
    then 0
    else if valid_triple b c d
    then (if b == 0xef && (c == 0xbf && d == 0xbd) then 3 else 0)
    else elim rest [ [] ↦ 1 | ◌∷◌ a _ ↦ if valid_quadruple a b c d then 0 else 1 ]

-- The trimming of internal/nsdp/client.go.
unfoldable pub ascii_trim : Bytes → Bytes
unfolding trim_spaces padding_at_end reverse_onto trim_space
ascii_trim text = trim_space (reverse_onto (trim_spaces padding_at_end 0 (reverse_onto text [])) [])

-- A text without a newline.
abbrev pub IsLine : Bytes → Type 0
IsLine l = All (λ c. c ≢ newline) l

pub is_empty-split_lines : (text : Bytes) → is_empty (split_lines text) ≡ false
unfolding split_lines
is_empty-split_lines [] = refl
is_empty-split_lines (c ∷ cs) = elim (Bool-cases (c == newline)) [
  | inl h ↦ rw h refl
  | inr h ↦ rw h (is_empty-extend_first (split_lines cs))
]
  where
    is_empty-extend_first : (ls : List Bytes) → is_empty (extend_first c ls) ≡ false
    is_empty-extend_first [] = refl
    is_empty-extend_first (l ∷ ls) = refl

pub join_lines-cons :
    (l : Bytes) (ls : List Bytes)
    → is_empty ls ≡ false
    → join_lines (l ∷ ls) ≡ l ++ (newline ∷ join_lines ls)
unfolding join_lines
join_lines-cons l [] h = cc
join_lines-cons l (l' ∷ ls) h = refl

join_lines-extend_first :
    (c : ℕ) (ls : List Bytes) → join_lines (extend_first c ls) ≡ c ∷ join_lines ls
unfolding join_lines
join_lines-extend_first c [] = refl
join_lines-extend_first c (l ∷ []) = refl
join_lines-extend_first c (l ∷ l' ∷ ls) = refl

-- The lines of a text, joined again.
pub join_lines-split_lines : (text : Bytes) → join_lines (split_lines text) ≡ text
unfolding split_lines join_lines
join_lines-split_lines [] = refl
join_lines-split_lines (c ∷ cs) = elim (Bool-cases (c == newline)) [
  | inl h ↦ rw h (
      join_lines-cons [] (split_lines cs) (is_empty-split_lines cs)
      ∙ ap (◌∷◌ newline) (join_lines-split_lines cs)
      ∙ ap (λ b. b ∷ cs) (sym ((==_iff c newline).0 h)))
  | inr h ↦
      rw h (join_lines-extend_first c (split_lines cs) ∙ ap (◌∷◌ c) (join_lines-split_lines cs))
]

-- No line of a text has a newline.
pub split_lines-IsLine : (text : Bytes) → All IsLine (split_lines text)
unfolding split_lines
split_lines-IsLine [] = (tt, tt)
split_lines-IsLine (c ∷ cs) = elim (Bool-cases (c == newline)) [
  | inl h ↦ rw h (tt, split_lines-IsLine cs)
  | inr h ↦
      rw h (extended (split_lines cs) (λ e. cc (h, (==_iff c newline).1 e)) (split_lines-IsLine cs))
]
  where
    extended : (ls : List Bytes) → c ≢ newline → All IsLine ls → All IsLine (extend_first c ls)
    extended [] h hl = ((h, tt), tt)
    extended (l ∷ ls) h hl = ((h, hl.0), hl.1)

split_lines-append :
    (l rest : Bytes) → IsLine l → split_lines (l ++ (newline ∷ rest)) ≡ l ∷ split_lines rest
unfolding split_lines
split_lines-append [] rest h = refl
split_lines-append (c ∷ l) rest h = elim (Bool-cases (c == newline)) [
  | inl e ↦ absurd (h.0 ((==_iff c newline).0 e))
  | inr e ↦ rw (split_lines, e) (ap (extend_first c) (split_lines-append l rest h.1))
]

split_lines-line : (l : Bytes) → IsLine l → split_lines l ≡ l ∷ []
unfolding split_lines
split_lines-line [] h = refl
split_lines-line (c ∷ l) h = elim (Bool-cases (c == newline)) [
  | inl e ↦ absurd (h.0 ((==_iff c newline).0 e))
  | inr e ↦ rw (split_lines, e) (ap (extend_first c) (split_lines-line l h.1))
]

-- Lines without newlines, joined and split again.
pub split_lines-join_lines :
    (ls : List Bytes) → is_empty ls ≡ false → All IsLine ls → split_lines (join_lines ls) ≡ ls
unfolding join_lines
split_lines-join_lines [] e h = cc
split_lines-join_lines (l ∷ []) e h = split_lines-line l h.0
split_lines-join_lines (l ∷ l' ∷ ls) e h =
    split_lines-append l (join_lines (l' ∷ ls)) h.0
    ∙ ap (◌∷◌ l) (split_lines-join_lines (l' ∷ ls) refl h.1)

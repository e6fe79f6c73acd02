-- ===== src/Grammar/Words.antt =====
-- The words of a line (internal/client/gs108tv2/codec.go).
use terraform_provider_netge.Base.{
  ℕ, ◌≤◌, ◌≡◌, refl, sym, ap, ◌∙◌, false, List, [], ◌∷◌, ◌++◌, append-nil, arith, Bytes, All,
  is_empty, reverse_onto, space_in_front, space_at_end, trim_spaces, trim_space,
}
use terraform_provider_netge.Grammar.{flush, fields_from, fields}

-- A printable ASCII character that is no space.
abbrev pub IsPlain : ℕ → Type 0
IsPlain c = (33 ≤ c) × (c ≤ 126)

-- A word, and words with a space between them.
abbrev pub IsWord : Bytes → Type 0
IsWord word = All IsPlain word × (is_empty word ≡ false)

abbrev pub unwords : List Bytes → Bytes
unwords [] = []
unwords (w ∷ []) = w
unwords (w ∷ w' ∷ ws) = w ++ (32 ∷ unwords (w' ∷ ws))

pub space_in_front-plain : (c : ℕ) (cs : Bytes) → IsPlain c → space_in_front (c ∷ cs) ≡ 0
unfolding space_in_front
space_in_front-plain c [] h = ground (arith, h)
space_in_front-plain c (b ∷ []) h = ground (arith, h)
space_in_front-plain c (b ∷ a ∷ cs) h = ground (arith, h)

space_in_front-space : (cs : Bytes) → space_in_front (32 ∷ cs) ≡ 1
unfolding space_in_front
space_in_front-space [] = refl
space_in_front-space (b ∷ []) = refl
space_in_front-space (b ∷ a ∷ cs) = refl

-- The characters of a word join the word under way.
fields_from-word :
    (w done rest : Bytes)
    → All IsPlain w
    → fields_from 0 done (w ++ rest) ≡ fields_from 0 (reverse_onto w done) rest
unfolding fields_from
fields_from-word [] done rest h = refl
fields_from-word (c ∷ w) done rest h =
    rw (fields_from, space_in_front-plain c (w ++ rest) h.0)
      (fields_from-word w (c ∷ done) rest h.1)

fields_from-space :
    (done rest : Bytes) → fields_from 0 done (32 ∷ rest) ≡ flush done (fields_from 0 [] rest)
unfolding fields_from
fields_from-space done rest = rw (fields_from, space_in_front-space rest) refl

pub reverse_onto-reverse_onto :
    (w done tail : Bytes) → reverse_onto (reverse_onto w done) tail ≡ reverse_onto done (w ++ tail)
unfolding reverse_onto
reverse_onto-reverse_onto [] done tail = refl
reverse_onto-reverse_onto (c ∷ w) done tail = reverse_onto-reverse_onto w (c ∷ done) tail

-- A word that is done.
flush-word :
    (w : Bytes) (rest : List Bytes) → is_empty w ≡ false → flush (reverse_onto w []) rest ≡ w ∷ rest
unfolding reverse_onto
flush-word w rest h =
    flushed (reverse_onto w []) rest (nonempty w [] h)
    ∙ ap (λ v. v ∷ rest) (reverse_onto-reverse_onto w [] [] ∙ append-nil w)
  where
    flushed :
        (r : Bytes) (rest : List Bytes)
        → is_empty r ≡ false
        → flush r rest ≡ reverse_onto r [] ∷ rest
    flushed [] rest h = cc
    flushed (c ∷ r) rest h = refl

    kept : (w done : Bytes) → is_empty done ≡ false → is_empty (reverse_onto w done) ≡ false
    kept [] done h = h
    kept (c ∷ w) done h = kept w (c ∷ done) refl

    nonempty : (w done : Bytes) → is_empty w ≡ false → is_empty (reverse_onto w done) ≡ false
    nonempty [] done h = cc
    nonempty (c ∷ w) done h = kept w (c ∷ done) refl

-- The fields of a line of words.
pub fields-unwords : (ws : List Bytes) → All IsWord ws → fields (unwords ws) ≡ ws
unfolding fields fields_from
fields-unwords [] h = refl
fields-unwords (w ∷ []) h =
    ap (fields_from 0 []) (sym (append-nil w))
    ∙ fields_from-word w [] [] h.0.0
    ∙ flush-word w [] h.0.1
fields-unwords (w ∷ w' ∷ ws) h =
    fields_from-word w [] (32 ∷ unwords (w' ∷ ws)) h.0.0
    ∙ fields_from-space (reverse_onto w []) (unwords (w' ∷ ws))
    ∙ ap (flush (reverse_onto w [])) (fields-unwords (w' ∷ ws) h.1)
    ∙ flush-word w (w' ∷ ws) h.0.1

-- A plain character is no white space at the end either.
pub space_at_end-plain : (c : ℕ) (cs : Bytes) → IsPlain c → space_at_end (c ∷ cs) ≡ 0
unfolding space_at_end
space_at_end-plain c [] h = ground (arith, h)
space_at_end-plain c (b ∷ []) h = ground (arith, h)
space_at_end-plain c (b ∷ a ∷ cs) h = ground (arith, h)

trim_spaces-kept :
    (space : Bytes → ℕ)
    → ((c : ℕ) (cs : Bytes) → IsPlain c → space (c ∷ cs) ≡ 0)
    → (text : Bytes) → All IsPlain text
    → trim_spaces space 0 text ≡ text
unfolding trim_spaces
trim_spaces-kept space none_of [] h = refl
trim_spaces-kept space none_of (c ∷ cs) h = rw (trim_spaces, none_of c cs h.0) refl

reverse_onto-IsPlain :
    (xs ys : Bytes) → All IsPlain xs → All IsPlain ys → All IsPlain (reverse_onto xs ys)
unfolding reverse_onto
reverse_onto-IsPlain [] ys h k = k
reverse_onto-IsPlain (x ∷ xs) ys h k = reverse_onto-IsPlain xs (x ∷ ys) h.1 (h.0, k)

-- A word has no white space to trim.
pub trim_space-IsPlain : (w : Bytes) → All IsPlain w → trim_space w ≡ w
unfolding trim_space
trim_space-IsPlain w h =
    ap (λ text. reverse_onto (trim_spaces space_at_end 0 (reverse_onto text [])) [])
      (trim_spaces-kept space_in_front space_in_front-plain w h)
    ∙ ap (λ text. reverse_onto text [])
        (trim_spaces-kept space_at_end space_at_end-plain (reverse_onto w [])
          (reverse_onto-IsPlain w [] h tt))
    ∙ reverse_onto-reverse_onto w [] []
    ∙ append-nil w

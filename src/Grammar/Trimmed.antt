-- ===== src/Grammar/Trimmed.antt =====
-- Lines of words have no white space around them (internal/client/gs108tv2/codec.go).
use terraform_provider_netge.Base.{
  ℕ, ◌≤◌, ◌≡◌, refl, ap, ◌∙◌, false, List, [], ◌∷◌, ◌++◌, append-nil, arith, Bytes, All, ◌==◌,
  reverse_onto, space_in_front, space_at_end, trim_spaces, trim_space, trim_right, carriage_return,
}
use terraform_provider_netge.Grammar.Words.{
  IsPlain, IsWord, unwords, space_in_front-plain, space_at_end-plain, reverse_onto-reverse_onto,
}

-- Read backwards, the text starts with a plain character.
abbrev EndsPlain : Bytes → Type 0
EndsPlain text =
    (done : Bytes) → (c : ℕ) × (cs : Bytes) × (reverse_onto text done ≡ c ∷ cs) × IsPlain c

reverse_onto-append :
    (xs ys done : Bytes) → reverse_onto (xs ++ ys) done ≡ reverse_onto ys (reverse_onto xs done)
unfolding reverse_onto
reverse_onto-append [] ys done = refl
reverse_onto-append (x ∷ xs) ys done = reverse_onto-append xs ys (x ∷ done)

word-EndsPlain : (c : ℕ) (w : Bytes) → IsPlain c → All IsPlain w → EndsPlain (c ∷ w)
unfolding reverse_onto
word-EndsPlain c [] h k done = (c, done, refl, h)
word-EndsPlain c (d ∷ w) h k done = word-EndsPlain d w k.0 k.1 (c ∷ done)

IsWord-EndsPlain : (w : Bytes) → IsWord w → EndsPlain w
IsWord-EndsPlain [] h = cc h.1
IsWord-EndsPlain (c ∷ w) h = word-EndsPlain c w h.0.0 h.0.1

unwords-EndsPlain :
    (w : Bytes) (ws : List Bytes) → IsWord w → All IsWord ws → EndsPlain (unwords (w ∷ ws))
unfolding reverse_onto
unwords-EndsPlain w [] h k done = IsWord-EndsPlain w h done
unwords-EndsPlain w (w' ∷ ws) h k done =
    let (c, cs, e, plain) = unwords-EndsPlain w' ws k.0 k.1 (32 ∷ reverse_onto w done) in
    (c, cs, turn ∙ e, plain)
  where
    turn :
        reverse_onto (w ++ (32 ∷ unwords (w' ∷ ws))) done
        ≡ reverse_onto (unwords (w' ∷ ws)) (32 ∷ reverse_onto w done)
    turn = reverse_onto-append w (32 ∷ unwords (w' ∷ ws)) done

trim_spaces-front :
    (c : ℕ) (cs : Bytes) → IsPlain c → trim_spaces space_in_front 0 (c ∷ cs) ≡ c ∷ cs
unfolding trim_spaces
trim_spaces-front c cs h = rw (trim_spaces, space_in_front-plain c cs h) refl

trim_spaces-back :
    (text : Bytes) (c : ℕ) (cs : Bytes)
    → text ≡ c ∷ cs
    → IsPlain c
    → trim_spaces space_at_end 0 text ≡ text
unfolding trim_spaces
trim_spaces-back text c cs e h = rw e (rw (trim_spaces, space_at_end-plain c cs h) refl)

-- A text of words starts and ends with a plain character.
pub trim_space-unwords :
    (c : ℕ) (w : Bytes) (ws : List Bytes)
    → IsWord (c ∷ w)
    → All IsWord ws
    → trim_space (unwords ((c ∷ w) ∷ ws)) ≡ unwords ((c ∷ w) ∷ ws)
unfolding trim_space
trim_space-unwords c w ws h k =
    let text = unwords ((c ∷ w) ∷ ws) in
    let (e, es, turned, plain) = unwords-EndsPlain (c ∷ w) ws h k [] in
    ap (λ t. reverse_onto (trim_spaces space_at_end 0 (reverse_onto t [])) []) (front ws)
    ∙ ap (λ t. reverse_onto t []) (trim_spaces-back (reverse_onto text []) e es turned plain)
    ∙ reverse_onto-reverse_onto text [] []
    ∙ append-nil text
  where
    front :
        (ws : List Bytes)
        → trim_spaces space_in_front 0 (unwords ((c ∷ w) ∷ ws)) ≡ unwords ((c ∷ w) ∷ ws)
    front [] = trim_spaces-front c w h.0.0
    front (v ∷ vs) = trim_spaces-front c (w ++ (32 ∷ unwords (v ∷ vs))) h.0.0

-- Without a carriage return there is none to trim.
trim_right-kept : (text : Bytes) → All (λ c. 32 ≤ c) text → trim_right carriage_return text ≡ text
unfolding trim_right
trim_right-kept [] h = refl
trim_right-kept (c ∷ cs) h =
    let other : (c == 13) ≡ false = ground (arith, h.0) in
    ground (arith, trim_right-kept cs h.1, other)

word-printable :
    (w rest : Bytes) → All IsPlain w → All (λ c. 32 ≤ c) rest → All (λ c. 32 ≤ c) (w ++ rest)
word-printable [] rest h k = k
word-printable (c ∷ w) rest h k = (omega (arith, h.0), word-printable w rest h.1 k)

unwords-printable : (ws : List Bytes) → All IsWord ws → All (λ c. 32 ≤ c) (unwords ws)
unwords-printable [] h = tt
unwords-printable (w ∷ []) h = rw (← append-nil w) (word-printable w [] h.0.0 tt)
unwords-printable (w ∷ w' ∷ ws) h =
    word-printable w (32 ∷ unwords (w' ∷ ws)) h.0.0 (omega arith, unwords-printable (w' ∷ ws) h.1)

pub trim_right-unwords :
    (ws : List Bytes) → All IsWord ws → trim_right carriage_return (unwords ws) ≡ unwords ws
trim_right-unwords ws h = trim_right-kept (unwords ws) (unwords-printable ws h)

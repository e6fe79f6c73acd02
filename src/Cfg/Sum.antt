-- ===== src/Cfg/Sum.antt =====
-- Checksum (internal/cfg/config.go): the uint32 sum does not wrap on a payload that a backup holds.
use terraform_provider_netge.Base.{
  ℕ, ◌+◌, ◌*◌, ◌%◌, ◌<◌, ◌≡◌, [], ◌∷◌, arith, length, Bytes, IsByte, be16, All, ok,
}
use terraform_provider_netge.Cfg.{add_words, checksum, checksum_mod}

-- The sum of the big-endian words as a plain number.
unfoldable pub word_sum : Bytes → ℕ
word_sum (a ∷ b ∷ rest) = be16 a b + word_sum rest
word_sum _ = 0

add_words-word_sum :
    (acc : ℕ) (payload : Bytes)
    → All IsByte payload
    → acc + length payload * 65536 < 4294967296
    → add_words acc payload ≡ acc + word_sum payload
unfolding add_words word_sum
add_words-word_sum acc (a ∷ b ∷ rest) h lt =
    let u : (acc + be16 a b) % 4294967296 ≡ acc + be16 a b = omega arith in
    rw u (omega (arith, add_words-word_sum (acc + be16 a b) rest h.1.1 (omega arith)))
add_words-word_sum acc [] h lt = omega arith
add_words-word_sum acc (a ∷ []) h lt = omega arith

-- On a payload of bytes with an even length that fits the header's uint16, Checksum is the
-- sum of all words mod 65535, with no wrap of its uint32 accumulator and none of its uint16
-- result.
pub checksum-word_sum :
    (payload : Bytes)
    → All IsByte payload
    → length payload < 65536
    → length payload % 2 ≡ 0
    → checksum payload ≡ ok (word_sum payload % checksum_mod)
unfolding checksum
checksum-word_sum payload h lt even = ground (arith, add_words-word_sum 0 payload h (omega arith))

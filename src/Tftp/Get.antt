-- ===== src/Tftp/Get.antt =====
-- TFTPGet (internal/fastpath/tftp.go) against a server that sends the blocks of a file in order,
-- with repeated packets anywhere between them.
use terraform_provider_netge.Base.{
  ℕ, zero, suc, ◌≤◌, ◌<◌, ◌≡◌, refl, ap, ◌∙◌, Bool, true, false, Option, some, List, [], ◌∷◌, ◌++◌,
  append_assoc, arith, ltb, ◌==◌, ==_iff, length, take, Bytes, IsU16, high, low, be16, ok,
}
use terraform_provider_netge.Tftp.{
  op_rrq, parse_data, packet, packet_ack, packet_data, received, next_block, get_loop, get,
}

pub data Arrival : Type 0 where
  fresh : Bytes → Arrival
  repeated : ℕ → Bytes → Arrival

-- What arrives up to the last block, and behind it anything.
abbrev pub arrivals : ℕ → List Arrival → Bytes → List (Option Bytes) → List (Option Bytes)
arrivals next [] final rest = some (packet_data next final) ∷ rest
arrivals next (fresh chunk ∷ xs) final rest =
    some (packet_data next chunk) ∷ arrivals (next_block next) xs final rest
arrivals next (repeated block chunk ∷ xs) final rest =
    some (packet_data block chunk) ∷ arrivals next xs final rest

-- Fresh blocks are full, and a repeated one is not the next.
abbrev pub AreArrivals : ℕ → List Arrival → Type 0
AreArrivals next [] = Unit
AreArrivals next (fresh chunk ∷ xs) = (length chunk ≡ 512) × AreArrivals (next_block next) xs
AreArrivals next (repeated block chunk ∷ xs) =
    (IsU16 block × (((block == next) ≡ false) × (length chunk ≤ 512))) × AreArrivals next xs

abbrev pub contents : List Arrival → Bytes → Bytes
contents [] final = final
contents (fresh chunk ∷ xs) final = chunk ++ contents xs final
contents (repeated block chunk ∷ xs) final = contents xs final

abbrev pub acks : ℕ → List Arrival → List Bytes
acks next [] = packet_ack next ∷ []
acks next (fresh chunk ∷ xs) = packet_ack next ∷ acks (next_block next) xs
acks next (repeated block chunk ∷ xs) = packet_ack block ∷ acks next xs

pub take_all : (n : ℕ) (xs : Bytes) → length xs ≤ n → take n xs ≡ xs
take_all zero [] h = refl
take_all zero (x ∷ xs) h = absurd (omega arith)
take_all (suc n) [] h = refl
take_all (suc n) (x ∷ xs) h = ap (◌∷◌ x) (take_all n xs (omega arith))

pub received-packet_data :
    (block : ℕ) (chunk : Bytes)
    → length chunk ≤ 512
    → received (packet_data block chunk) ≡ packet_data block chunk
received-packet_data block chunk h = take_all 544 (packet_data block chunk) (omega arith)

parse_data-packet_data :
    (block : ℕ) (chunk : Bytes)
    → IsU16 block
    → length chunk ≤ 512
    → parse_data (received (packet_data block chunk)) ≡ ok (block, chunk)
unfolding parse_data
parse_data-packet_data block chunk u16 h =
    let split : be16 (high block) (low block) ≡ block = omega arith in
    ap parse_data (received-packet_data block chunk h) ∙ ground (arith, split)

module _ (fails : ℕ → Bool) (works : (n : ℕ) → fails n ≡ false) where
  get_loop-arrivals :
      (next : ℕ) (out : Bytes) (xs : List Arrival) (final : Bytes) (rest : List (Option Bytes))
      (sent : List Bytes)
      → IsU16 next
      → AreArrivals next xs
      → length final < 512
      → get_loop fails next out (arrivals next xs final rest) sent
        ≡ (ok (out ++ contents xs final), sent ++ acks next xs)
  unfolding get_loop
  get_loop-arrivals next out [] final rest sent u16 a short =
      rw (parse_data-packet_data next final u16 (omega arith), get_loop)
        (ground (arith, works (length sent), short))
  get_loop-arrivals next out (fresh chunk ∷ xs) final rest sent u16 a short =
      let same : (next == next) ≡ true = (==_iff next next).1 refl in
      let full : ltb (length chunk) 512 ≡ false = ground (arith, a.0) in
      rw (parse_data-packet_data next chunk u16 (omega (arith, a.0)), get_loop)
        (rw (works (length sent), same, full)
          (get_loop-arrivals (next_block next) (out ++ chunk) xs final rest
              (sent ++ (packet_ack next ∷ [])) (omega arith) a.1 short
            ∙ rw
                (
                  append_assoc out chunk (contents xs final),
                  append_assoc sent (packet_ack next ∷ []) (acks (next_block next) xs),
                )
                refl))
  get_loop-arrivals next out (repeated block chunk ∷ xs) final rest sent u16 a short =
      rw (parse_data-packet_data block chunk a.0.0 a.0.1.1, get_loop)
        (rw (works (length sent), a.0.1.0)
          (get_loop-arrivals next out xs final rest (sent ++ (packet_ack block ∷ [])) u16 a.1 short
            ∙ rw (append_assoc sent (packet_ack block ∷ []) (acks next xs)) refl))

  -- TFTPGet of a file that arrives as full blocks with a shorter last one, with repeated packets
  -- anywhere between them: it returns exactly the file's bytes, once each and in order, and has
  -- written the request and an ACK for every packet up to the last block. No write fails.
  pub get-arrivals :
      (file : Bytes) (xs : List Arrival) (final : Bytes) (rest : List (Option Bytes))
      → AreArrivals 1 xs
      → length final < 512
      → get fails file (arrivals 1 xs final rest)
        ≡ (ok (contents xs final), packet op_rrq file ∷ acks 1 xs)
  unfolding get
  get-arrivals file xs final rest a short =
      rw (works 0)
        (get_loop-arrivals 1 [] xs final rest (packet op_rrq file ∷ []) (omega arith) a short)

-- ===== src/Tftp/Put.antt =====
-- TFTPPut (internal/fastpath/tftp.go): uploads that succeed, and what a TFTPGet makes of them.
use terraform_provider_netge.Base.{
  ℕ, zero, suc, ◌*◌, ◌/◌, ◌≤◌, ◌<◌, ◌≡◌, refl, ap, ◌∙◌, inl, inr, Bool, true, false, not, ◌||◌,
  Option, none, some, List, [], ◌∷◌, ◌++◌, map, arith, ltb, ◌==◌, ==_iff, Bool-cases, length, take,
  drop, length-take, length-drop, Bytes, IsU16, high, low, be16, Result, ok,
}
use terraform_provider_netge.Tftp.{
  op_wrq, op_ack, op_error, TftpError, parse_ack, packet, packet_ack, packet_data, received,
  next_block, retries, get, put_block, put_blocks, put,
}
use terraform_provider_netge.Tftp.Get.{get-arrivals}
use terraform_provider_netge.Tftp.Wrote.{
  Wrote, either, tried, put_blocks-last, put_blocks-more, put_blocks-Wrote,
}

-- A successful upload has sent the request and then the file.
abbrev Sent : Bytes → Bytes → Result TftpError (Unit {0}) × List Bytes → Type 0
Sent name file r =
    r.0 ≡ ok tt → (pkts : List Bytes) × (r.1 ≡ packet op_wrq name ∷ pkts) × Wrote 1 file pkts

module _ (fails : ℕ → Bool) (configured : ℕ) (name file : Bytes) where
  put-Sent :
      (incoming : List (Option Bytes)) → Sent name file (put fails configured name file incoming)
  unfolding put
  put-Sent [] = either (Sent name file) (fails 0) _ _ (λ h. cc) (λ h. cc)
  put-Sent (none ∷ rest) = either (Sent name file) (fails 0) _ _ (λ h. cc) (λ h. cc)
  put-Sent (some reply ∷ rest) =
      let ack = parse_ack (received reply) in
      either (Sent name file) (fails 0) _ _ (λ h. cc)
        (either (Sent name file) (ack.0 == op_error) _ _ (λ h. cc)
          (either (Sent name file) (not (ack.0 == op_ack) || not (ack.1 == 0)) _ _ (λ h. cc)
            (put_blocks-Wrote fails (suc (length file / 512)) (retries configured) 1 file rest
              (packet op_wrq name ∷ []) (omega arith))))

-- Whenever TFTPPut succeeds, whatever the replies and however often it wrote a block again, the
-- packets behind its request are the file: TFTPGet, to which they arrive in order and whose own
-- writes do not fail, returns exactly the uploaded bytes.
pub get-put :
    (fails fails' : ℕ → Bool) (configured : ℕ) (name name' file : Bytes)
    (incoming : List (Option Bytes))
    → ((n : ℕ) → fails' n ≡ false)
    → (put fails configured name file incoming).0 ≡ ok tt
    → (get fails' name' (map some (drop 1 (put fails configured name file incoming).1))).0 ≡ ok file
get-put fails fails' configured name name' file incoming works h =
    let (pkts, e, w) = put-Sent fails configured name file incoming h in
    let behind : drop 1 (put fails configured name file incoming).1 ≡ pkts = ap (drop 1) e in
    rw (behind, w.as_arrivals)
      (ap (λ r. r.0) (get-arrivals fails' works name' w.xs w.final w.rest w.well_formed w.short)
        ∙ ap ok w.whole)

-- The ACKs of a server for the blocks from a number on.
abbrev pub acknowledged : ℕ → ℕ → List (Option Bytes)
acknowledged zero block = []
acknowledged (suc n) block = some (packet_ack block) ∷ acknowledged n (next_block block)

retries_positive : (n : ℕ) → (k : ℕ) × (retries n ≡ suc k)
retries_positive zero = (4, refl)
retries_positive (suc n) = (n, ground arith)

at_least : (a b : ℕ) → ltb a b ≡ false → b ≤ a
at_least a b h = ground arith

rest_is_shorter :
    (file : Bytes) (fuel : ℕ)
    → ltb (length (take 512 file)) 512 ≡ false
    → length file < suc fuel * 512
    → length (drop 512 file) < fuel * 512
rest_is_shorter file fuel full lt =
    omega (
      arith,
      at_least (length (take 512 file)) 512 full,
      length-take 512 file,
      length-drop 512 file,
    )

module _ (fails : ℕ → Bool) (works : (n : ℕ) → fails n ≡ false) where
  put_block-acked :
      (attempts block : ℕ) (chunk : Bytes) (incoming : List (Option Bytes)) (sent : List Bytes)
      → IsU16 block
      → put_block fails (suc attempts) block chunk (some (packet_ack block) ∷ incoming) sent
        ≡ (ok incoming, sent ++ (packet_data block chunk ∷ []))
  unfolding put_block
  put_block-acked attempts block chunk incoming sent u16 =
      let same : (be16 (high block) (low block) == block) ≡ true =
        (==_iff _ block).1 (omega arith) in
      rw (works (length sent), same) refl

  put_blocks-acked :
      (fuel attempts block : ℕ) (file : Bytes) (sent : List Bytes)
      → IsU16 block
      → length file < fuel * 512
      → (put_blocks fails fuel (suc attempts) block file (acknowledged fuel block) sent).0 ≡ ok tt
  unfolding put_blocks tried
  put_blocks-acked zero attempts block file sent u16 lt = absurd (omega arith)
  put_blocks-acked (suc fuel) attempts block file sent u16 lt =
      let incoming = acknowledged (suc fuel) block in
      let left = acknowledged fuel (next_block block) in
      let accepted : (tried fails fuel (suc attempts) block file incoming sent).0 ≡ ok left =
        ap (λ r. r.0) (put_block-acked attempts block (take 512 file) left sent u16) in
      elim (Bool-cases (ltb (length (take 512 file)) 512)) [
        | inl short ↦
            ap (λ r. r.0)
              (put_blocks-last fails fuel (suc attempts) block file incoming sent left accepted
                short)
        | inr full ↦
            ap (λ r. r.0)
              (put_blocks-more fails fuel (suc attempts) block file incoming sent left accepted
                full)
            ∙ put_blocks-acked fuel attempts (next_block block) (drop 512 file)
                (tried fails fuel (suc attempts) block file incoming sent).1 (omega arith)
                (rest_is_shorter file fuel full lt)
      ]

  -- TFTPPut to a server that acknowledges the request and then every block succeeds,
  -- whatever the size of the file. No write fails.
  pub put-acknowledged :
      (configured : ℕ) (name file : Bytes)
      → (put fails configured name file
          (some (packet_ack 0) ∷ acknowledged (suc (length file / 512)) 1)).0
        ≡ ok tt
  unfolding put
  put-acknowledged configured name file =
      let (attempts, enough) = retries_positive configured in
      rw (works 0, put)
        (rw enough (
          put_blocks-acked (suc (length file / 512)) attempts 1 file (packet op_wrq name ∷ [])
            (omega arith) (omega arith)))

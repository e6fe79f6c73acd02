-- ===== src/Tftp/Wrote.antt =====
-- What a successful TFTPPut (internal/fastpath/tftp.go) has written, block by block.
use mathlib.Core.Path.{subst}
use terraform_provider_netge.Base.{
  ℕ, zero, suc, ◌≤◌, ◌<◌, ◌≡◌, refl, sym, ap, ◌∙◌, inl, inr, ◌⊎◌, Bool, true, false, ◌&&◌, Option,
  none, some, List, [], ◌∷◌, ◌++◌, map, append_assoc, arith, ltb, ltb→lt, ◌==◌, if◌then◌else◌,
  Bool-cases, length, take, drop, length-take, take-append-drop, Bytes, IsU16, Result, ok, err,
}
use terraform_provider_netge.Tftp.{
  op_ack, op_error, TftpError, send_failed, no_reply, no_ack, parse_ack, packet_data, received,
  next_block, put_block, put_blocks, decode_error,
}
use terraform_provider_netge.Tftp.Get.{
  Arrival, fresh, repeated, arrivals, AreArrivals, contents, take_all,
}

abbrev copies : ℕ → Bytes → List Bytes
copies zero pkt = []
copies (suc n) pkt = pkt ∷ copies n pkt

-- The packets are a file sent from a block number on.
pub record Wrote (block : ℕ) (file : Bytes) (pkts : List Bytes) : Type 0 where
  pub xs : List Arrival
  pub final : Bytes
  pub rest : List (Option Bytes)
  pub as_arrivals : map some pkts ≡ arrivals block xs final rest
  pub well_formed : AreArrivals block xs
  pub short : length final < 512
  pub whole : contents xs final ≡ file

Wrote-copies :
    (n block next : ℕ) (chunk file : Bytes) (pkts : List Bytes)
    → IsU16 block
    → (block == next) ≡ false
    → length chunk ≤ 512
    → Wrote next file pkts
    → Wrote next file (copies n (packet_data block chunk) ++ pkts)
Wrote-copies zero block next chunk file pkts u16 ne len w = w
Wrote-copies (suc n) block next chunk file pkts u16 ne len w =
    let v = Wrote-copies n block next chunk file pkts u16 ne len w in
    record {
      xs = repeated block chunk ∷ v.xs;
      final = v.final;
      rest = v.rest;
      as_arrivals = ap (◌∷◌ (some (packet_data block chunk))) v.as_arrivals;
      well_formed = ((u16, (ne, len)), v.well_formed);
      short = v.short;
      whole = v.whole;
    }

Wrote-fresh :
    (n block : ℕ) (chunk file : Bytes) (pkts : List Bytes)
    → IsU16 block
    → length chunk ≡ 512
    → Wrote (next_block block) file pkts
    → Wrote block (chunk ++ file) (copies (suc n) (packet_data block chunk) ++ pkts)
Wrote-fresh n block chunk file pkts u16 full w =
    let other : (block == next_block block) ≡ false = ground arith in
    let v =
      Wrote-copies n block (next_block block) chunk file pkts u16 other (omega (arith, full)) w in
    record {
      xs = fresh chunk ∷ v.xs;
      final = v.final;
      rest = v.rest;
      as_arrivals = ap (◌∷◌ (some (packet_data block chunk))) v.as_arrivals;
      well_formed = (full, v.well_formed);
      short = v.short;
      whole = ap (◌++◌ chunk) v.whole;
    }

Wrote-final :
    (n block : ℕ) (chunk : Bytes)
    → length chunk < 512
    → Wrote block chunk (copies (suc n) (packet_data block chunk))
Wrote-final n block chunk h = record {
  xs = [];
  final = chunk;
  rest = map some (copies n (packet_data block chunk));
  as_arrivals = refl;
  well_formed = tt;
  short = h;
  whole = refl;
}

Result-cases {ℓ κ} :
    {E : Type κ} {A : Type ℓ} (r : Result E A) → ((a : A) × (r ≡ ok a)) ⊎ ((e : E) × (r ≡ err e))
Result-cases (ok a) = inl (a, refl)
Result-cases (err e) = inr (e, refl)

pub either {ℓ κ} :
    {A : Type ℓ} (P : A → Type κ) (b : Bool) (x y : A) → P x → P y → P (if b then x else y)
either P true x y px py = px
either P false x y px py = py

abbrev pub Attempts : Type 0
Attempts = Result TftpError (List (Option Bytes)) × List Bytes

-- An accepted block was written once or more.
abbrev Written : Bytes → List Bytes → Attempts → Type 0
Written pkt sent r =
    (left : List (Option Bytes)) → r.0 ≡ ok left → (n : ℕ) × (r.1 ≡ sent ++ copies (suc n) pkt)

Written-err : (pkt : Bytes) (sent s : List Bytes) (e : TftpError) → Written pkt sent (err e, s)
Written-err pkt sent s e left h = cc

Written-again :
    (pkt : Bytes) (sent : List Bytes) (r : Attempts)
    → Written pkt (sent ++ (pkt ∷ [])) r
    → Written pkt sent r
Written-again pkt sent r w left h =
    let (n, e) = w left h in (suc n, e ∙ append_assoc sent (pkt ∷ []) (copies (suc n) pkt))

module _ (fails : ℕ → Bool) where
  put_block-Written :
      (attempts block : ℕ) (chunk : Bytes) (incoming : List (Option Bytes)) (sent : List Bytes)
      → Written (packet_data block chunk) sent (put_block fails attempts block chunk incoming sent)
  unfolding put_block
  put_block-Written zero block chunk incoming sent =
      Written-err (packet_data block chunk) sent sent (no_ack block)
  put_block-Written (suc attempts) block chunk [] sent =
      let pkt = packet_data block chunk in
      either (Written pkt sent) (fails (length sent)) _ _ (Written-err pkt sent sent send_failed) (
        either (Written pkt sent) (attempts == 0) _ _
          (Written-err pkt sent (sent ++ (pkt ∷ [])) no_reply)
          (Written-again pkt sent _
            (put_block-Written attempts block chunk [] (sent ++ (pkt ∷ [])))))
  put_block-Written (suc attempts) block chunk (none ∷ incoming) sent =
      let pkt = packet_data block chunk in
      either (Written pkt sent) (fails (length sent)) _ _ (Written-err pkt sent sent send_failed) (
        either (Written pkt sent) (attempts == 0) _ _
          (Written-err pkt sent (sent ++ (pkt ∷ [])) no_reply)
          (Written-again pkt sent _
            (put_block-Written attempts block chunk incoming (sent ++ (pkt ∷ [])))))
  put_block-Written (suc attempts) block chunk (some reply ∷ incoming) sent =
      let pkt = packet_data block chunk in
      let ack = parse_ack (received reply) in
      either (Written pkt sent) (fails (length sent)) _ _ (Written-err pkt sent sent send_failed) (
        either (Written pkt sent) (ack.0 == op_error) _ _
          (Written-err pkt sent (sent ++ (pkt ∷ [])) (decode_error (received reply)))
          (either (Written pkt sent) (ack.0 == op_ack && ack.1 == block) _ _ (λ left h. (0, refl))
            (Written-again pkt sent _
              (put_block-Written attempts block chunk incoming (sent ++ (pkt ∷ []))))))

  module _ (fuel attempts block : ℕ) (file : Bytes) (incoming : List (Option Bytes))
      (sent : List Bytes) where
    unfoldable pub tried : Attempts
    tried = put_block fails attempts block (take 512 file) incoming sent

    put_blocks-failed :
        (e : TftpError)
        → tried.0 ≡ err e
        → put_blocks fails (suc fuel) attempts block file incoming sent ≡ (err e, tried.1)
    unfolding put_blocks tried
    put_blocks-failed e failed = rw (failed, put_blocks) refl

    pub put_blocks-last :
        (left : List (Option Bytes))
        → tried.0 ≡ ok left
        → ltb (length (take 512 file)) 512 ≡ true
        → put_blocks fails (suc fuel) attempts block file incoming sent ≡ (ok tt, tried.1)
    unfolding put_blocks tried
    put_blocks-last left accepted short = rw (accepted, put_blocks) (rw short refl)

    pub put_blocks-more :
        (left : List (Option Bytes))
        → tried.0 ≡ ok left
        → ltb (length (take 512 file)) 512 ≡ false
        → put_blocks fails (suc fuel) attempts block file incoming sent
          ≡ put_blocks fails fuel attempts (next_block block) (drop 512 file) left tried.1
    unfolding put_blocks tried
    put_blocks-more left accepted full = rw (accepted, put_blocks) (rw full refl)

    tried-Written : Written (packet_data block (take 512 file)) sent tried
    unfolding tried
    tried-Written = put_block-Written attempts block (take 512 file) incoming sent

  pub put_blocks-Wrote :
      (fuel attempts block : ℕ) (file : Bytes) (incoming : List (Option Bytes)) (sent : List Bytes)
      → IsU16 block
      → (put_blocks fails fuel attempts block file incoming sent).0 ≡ ok tt
      → (pkts : List Bytes) × ((put_blocks fails fuel attempts block file incoming sent).1
          ≡ sent ++ pkts)
        × Wrote block file pkts
  unfolding put_blocks
  put_blocks-Wrote zero attempts block file incoming sent u16 h = cc
  put_blocks-Wrote (suc fuel) attempts block file incoming sent u16 h =
      elim (Result-cases (tried fuel attempts block file incoming sent).0) [
        | inr (e, failed) ↦
            cc
              (ap (λ r. r.0) (put_blocks-failed fuel attempts block file incoming sent e failed), h)
        | inl (left, accepted) ↦
            let (n, wrote) = tried-Written fuel attempts block file incoming sent left accepted in
            elim (Bool-cases (ltb (length (take 512 file)) 512)) [
              | inl short ↦
                  let small : length file < 512 =
                    omega
                      (arith, length-take 512 file, ltb→lt (length (take 512 file)) 512 short) in
                  (
                    copies (suc n) (packet_data block (take 512 file)),
                    ap (λ r. r.1)
                          (put_blocks-last fuel attempts block file incoming sent left accepted
                            short)
                        ∙ wrote,
                    subst (λ chunk. Wrote block file (copies (suc n) (packet_data block chunk)))
                        (sym (take_all 512 file (omega arith))) (Wrote-final n block file small),
                  )
              | inr full ↦
                  let more =
                    put_blocks-more fuel attempts block file incoming sent left accepted full in
                  let (pkts, e, w) =
                    put_blocks-Wrote fuel attempts (next_block block) (drop 512 file) left
                      (tried fuel attempts block file incoming sent).1 (omega arith)
                      (ap (λ r. r.0) (sym more) ∙ h) in
                  (
                    copies (suc n) (packet_data block (take 512 file)) ++ pkts,
                    ap (λ r. r.1) more
                        ∙ e
                        ∙ ap (λ s. s ++ pkts) wrote
                        ∙ append_assoc sent (copies (suc n) (packet_data block (take 512 file)))
                            pkts,
                    subst
                        (λ f.
                          Wrote block f
                            (copies (suc n) (packet_data block (take 512 file)) ++ pkts))
                        (take-append-drop 512 file)
                        (Wrote-fresh n block (take 512 file) (drop 512 file) pkts u16
                          (ground (arith, full, length-take 512 file)) w),
                  )
            ]
      ]

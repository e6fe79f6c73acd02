-- ===== src/Tftp.antt =====
-- internal/fastpath/tftp.go: the RFC1350 client. A connection is what its reads yield, in order
-- (none: the read fails or times out; the end of the list: nothing more arrives), and the packets
-- written so far. `fails n` says whether the write after n others fails. Deadlines are not modelled.
pub mod Get
pub mod Wrote
pub mod Put
mod Tests
use terraform_provider_netge.Base.{
  ℕ, zero, suc, ◌+◌, ◌/◌, ◌%◌, Bool, true, false, not, ◌&&◌, ◌||◌, Option, none, some, List, [],
  ◌∷◌, ◌++◌, length, get_or, take, drop, ltb, ◌==◌, if◌then◌else◌, Bytes, high, low, be16, Result,
  ok, err,
}

abbrev pub op_rrq : ℕ
op_rrq = 1

abbrev pub op_wrq : ℕ
op_wrq = 2

abbrev pub op_data : ℕ
op_data = 3

abbrev pub op_ack : ℕ
op_ack = 4

abbrev pub op_error : ℕ
op_error = 5

abbrev pub block_size : ℕ
block_size = 512

-- The errors; `out_of_fuel` is no error of the source, and stands for a loop cut short.
pub data TftpError : Type 0 where
  send_failed no_reply short_packet short_error out_of_fuel : TftpError
  remote : ℕ → Bytes → TftpError
  want_data no_ack : ℕ → TftpError
  want_ack : ℕ → ℕ → TftpError

-- strings.TrimRight(s, "\x00")
unfoldable pub trim_right_nul : Bytes → Bytes
trim_right_nul [] = []
trim_right_nul (b ∷ bs) =
    let rest = trim_right_nul bs in if length rest == 0 && b == 0 then [] else b ∷ rest

unfoldable pub decode_error : Bytes → TftpError
unfolding trim_right_nul
decode_error pkt =
    if ltb (length pkt) 4
    then short_error
    else remote (be16 (get_or pkt 2 0) (get_or pkt 3 0)) (trim_right_nul (drop 4 pkt))

-- Its two branches on wantBlock return the same.
unfoldable pub parse_data : Bytes → Result TftpError (ℕ × Bytes)
unfolding decode_error
parse_data pkt =
    let op = be16 (get_or pkt 0 0) (get_or pkt 1 0) in
    if ltb (length pkt) 4
    then err short_packet
    else if op == op_error
    then err (decode_error pkt)
    else if not (op == op_data)
    then err (want_data op)
    else ok (be16 (get_or pkt 2 0) (get_or pkt 3 0), drop 4 pkt)

unfoldable pub parse_ack : Bytes → ℕ × ℕ
parse_ack pkt =
    if ltb (length pkt) 4
    then (0, 0)
    else (be16 (get_or pkt 0 0) (get_or pkt 1 0), be16 (get_or pkt 2 0) (get_or pkt 3 0))

-- {op, name, 00, "octet", 00}
unfoldable pub packet : ℕ → Bytes → Bytes
packet op file = high op ∷ low op ∷ (file ++ (0 ∷ 0x6f ∷ 0x63 ∷ 0x74 ∷ 0x65 ∷ 0x74 ∷ 0 ∷ []))

abbrev pub packet_ack : ℕ → Bytes
packet_ack block = high op_ack ∷ low op_ack ∷ high block ∷ low block ∷ []

abbrev pub packet_data : ℕ → Bytes → Bytes
packet_data block chunk = high op_data ∷ low op_data ∷ high block ∷ low block ∷ chunk

-- The read buffer cuts a longer datagram.
abbrev pub received : Bytes → Bytes
received pkt = take (block_size + 32) pkt

abbrev pub retries : ℕ → ℕ
retries n = if n == 0 then 5 else n

abbrev pub next_block : ℕ → ℕ
next_block block = (block + 1) % 65536

module _ (fails : ℕ → Bool) where
  -- The loop of TFTPGet: the bytes so far, what is still to arrive, what was written.
  unfoldable pub get_loop :
      ℕ → Bytes → List (Option Bytes) → List Bytes → Result TftpError Bytes × List Bytes
  unfolding parse_data
  get_loop next out [] sent = (err no_reply, sent)
  get_loop next out (none ∷ incoming) sent = (err no_reply, sent)
  get_loop next out (some pkt ∷ incoming) sent = elim (parse_data (received pkt)) [
    | err e ↦ (err e, sent)
    | ok p ↦
        let fresh = p.0 == next in
        let acked = sent ++ (packet_ack p.0 ∷ []) in
        let more =
          get_loop (if fresh then next_block next else next) (if fresh then out ++ p.1 else out)
            incoming acked in
        if fails (length sent)
        then (err send_failed, sent)
        else if fresh && ltb (length p.1) block_size
        then (ok (out ++ p.1), acked)
        else more
  ]

  -- TFTPGet behind the dial.
  unfoldable pub get : Bytes → List (Option Bytes) → Result TftpError Bytes × List Bytes
  unfolding get_loop packet
  get file incoming =
      if fails 0 then (err send_failed, []) else get_loop 1 [] incoming (packet op_rrq file ∷ [])

  -- The attempts at one block: what is still to arrive after its ACK.
  unfoldable pub put_block :
      ℕ
      → ℕ
      → Bytes
      → List (Option Bytes)
      → List Bytes
      → Result TftpError (List (Option Bytes)) × List Bytes
  unfolding parse_ack decode_error
  put_block zero block chunk incoming sent = (err (no_ack block), sent)
  put_block (suc attempts) block chunk [] sent =
      let again = put_block attempts block chunk [] (sent ++ (packet_data block chunk ∷ [])) in
      if fails (length sent)
      then (err send_failed, sent)
      else if attempts == 0
      then (err no_reply, sent ++ (packet_data block chunk ∷ []))
      else again
  put_block (suc attempts) block chunk (none ∷ incoming) sent =
      let again =
        put_block attempts block chunk incoming (sent ++ (packet_data block chunk ∷ [])) in
      if fails (length sent)
      then (err send_failed, sent)
      else if attempts == 0
      then (err no_reply, sent ++ (packet_data block chunk ∷ []))
      else again
  put_block (suc attempts) block chunk (some pkt ∷ incoming) sent =
      let written = sent ++ (packet_data block chunk ∷ []) in
      let again = put_block attempts block chunk incoming written in
      let reply = parse_ack (received pkt) in
      if fails (length sent)
      then (err send_failed, sent)
      else if reply.0 == op_error
      then (err (decode_error (received pkt)), written)
      else if reply.0 == op_ack && reply.1 == block
      then (ok incoming, written)
      else again

  -- The loop over the blocks of the data from the offset on.
  unfoldable pub put_blocks :
      ℕ
      → ℕ
      → ℕ
      → Bytes
      → List (Option Bytes)
      → List Bytes
      → Result TftpError (Unit {0}) × List Bytes
  unfolding put_block
  put_blocks zero attempts block rest incoming sent = (err out_of_fuel, sent)
  put_blocks (suc fuel) attempts block rest incoming sent =
      let chunk = take block_size rest in
      let (outcome, written) = put_block attempts block chunk incoming sent in
      elim outcome [
        | err e ↦ (err e, written)
        | ok left ↦
            let more =
              put_blocks fuel attempts (next_block block) (drop block_size rest) left written in
            if ltb (length chunk) block_size then (ok tt, written) else more
      ]

  -- TFTPPut behind the dial, with the Retries of its configuration.
  unfoldable pub put :
      ℕ → Bytes → Bytes → List (Option Bytes) → Result TftpError (Unit {0}) × List Bytes
  unfolding put_blocks packet parse_ack decode_error
  put configured file contents incoming =
      let sent = packet op_wrq file ∷ [] in
      if fails 0 then (err send_failed, []) else elim incoming [
        | [] ↦ (err no_reply, sent)
        | none ∷ _ ↦ (err no_reply, sent)
        | some pkt ∷ rest ↦
            let reply = parse_ack (received pkt) in
            if reply.0 == op_error
            then (err (decode_error (received pkt)), sent)
            else if not (reply.0 == op_ack) || not (reply.1 == 0)
            then (err (want_ack reply.0 reply.1), sent)
            else put_blocks (suc (length contents / block_size)) (retries configured) 1 contents
                rest sent
      ]

-- ===== src/Dump/Typed.antt =====
-- DecodeTLV on the values that the typed SETs build, and on tables (internal/nsdp/dump.go).
use terraform_provider_netge.Base.{
  ℕ, suc, ◌+◌, ◌*◌, ◌/◌, ◌%◌, ◌≤◌, ◌<◌, ◌≡◌, refl, ap, Bool, true, false, Option, none, some, List,
  [], ◌∷◌, ◌++◌, map, arith, length, ltb, ◌==◌, ◌&&◌, if◌then◌else◌, Bytes, high, low, be16, Result,
  err, ok, All,
}
use terraform_provider_netge.Wire.{Tlv, be32, be32_bytes}
use terraform_provider_netge.Entries.{
  MethodError, out_of_ports, set_pvid, set_port_config, set_port_based_vlan, port_bitmap,
}
use terraform_provider_netge.Entries.Methods.{
  set_qos_priority, set_bandwidth, set_port_mirroring, set_igmp_snooping,
}
use terraform_provider_netge.Dump.{
  PortTrafficStats, Decoded, pvid_table, admin_table, qos_table, bandwidth, mirroring, igmp,
  port_based, traffic, decode_tlv, entries_of, pieces, read_traffic,
}

-- What DecodeTLV makes of the entry that a typed SET sends.
abbrev pub sent_value : Result MethodError Tlv → Option Decoded
sent_value (err why) = none
sent_value (ok t) = decode_tlv t

module _ (port vid : ℕ) (first : 1 ≤ port) (last : port ≤ 8) (fits : vid ≤ 4095) where
  in_ports : (out_of_ports port ≡ false) × (low port ≡ port)
  in_ports = (ground (arith, first, last), omega (arith, last))

  in_vlans : (ltb 4095 vid ≡ false) × (be16 (high vid) (low vid) ≡ vid)
  in_vlans = (ground (arith, fits), omega (arith, fits))

  decode_tlv-set_pvid :
      sent_value (set_pvid port vid)
      ≡ some (pvid_table (record { port = port; vlan_id = vid } ∷ []))
  unfolding decode_tlv set_pvid
  decode_tlv-set_pvid = rw (in_ports.0, in_vlans.0) (rw (in_ports.1, in_vlans.1) refl)

  decode_tlv-set_port_config :
      (admin flow : Bool)
      → sent_value (set_port_config port admin flow)
        ≡ some (
            admin_table (
              record { port = port; admin = if admin then 1 else 0; flow = if flow then 1 else 0 }
              ∷ []))
  unfolding decode_tlv set_port_config
  decode_tlv-set_port_config admin flow = rw (in_ports.0) (rw (in_ports.1) refl)

  decode_tlv-set_qos_priority :
      (priority : ℕ)
      → sent_value (set_qos_priority port priority)
        ≡ some (qos_table (record { port = port; priority = priority } ∷ []))
  unfolding decode_tlv set_qos_priority
  decode_tlv-set_qos_priority priority = rw (in_ports.0) (rw (in_ports.1) refl)

  decode_tlv-set_bandwidth :
      (limit : ℕ)
      → limit < 65536
      → sent_value (set_bandwidth 0x4c00 port limit)
        ≡ some (bandwidth (record { port = port; limit = limit }))
  unfolding decode_tlv set_bandwidth
  decode_tlv-set_bandwidth limit u16 =
      let read : be16 (high limit) (low limit) ≡ limit = omega (arith, u16) in
      rw (in_ports.0) (rw (in_ports.1, read) refl)

  decode_tlv-set_port_mirroring :
      (sources : List ℕ)
      → sent_value (set_port_mirroring port sources)
        ≡ some
            (mirroring (record { dst_port = port; reserved = 0; src_ports = port_bitmap sources }))
  unfolding decode_tlv set_port_mirroring
  decode_tlv-set_port_mirroring sources =
      let inside : ltb 8 port ≡ false = ground (arith, last) in
      let on : (port == 0) ≡ false = ground (arith, first) in rw (inside, on) (rw (in_ports.1) refl)

  decode_tlv-set_port_based_vlan :
      (ports : List ℕ)
      → sent_value (set_port_based_vlan vid ports)
        ≡ some (port_based (record { vlan_id = vid; ports = port_bitmap ports } ∷ []))
  unfolding decode_tlv set_port_based_vlan
  decode_tlv-set_port_based_vlan ports = rw (in_vlans.0) (rw (in_vlans.1) refl)

  decode_tlv-set_igmp_snooping :
      decode_tlv (set_igmp_snooping true vid) ≡ some (igmp (record { enabled = 1; vlan_id = vid }))
  unfolding decode_tlv set_igmp_snooping
  decode_tlv-set_igmp_snooping = rw (in_vlans.1) refl

  -- For ports 1 to 8, VLAN IDs up to 4095 and 16-bit limits, DecodeTLV reads the entries that
  -- the SETs of a PVID, a port configuration, a QoS priority, an ingress rate, a mirroring, a
  -- port-based VLAN and IGMP snooping send back as the values that were set, the ports as
  -- their bitmap.
  pub decode_tlv-typed_sets :
      (admin flow : Bool) (priority limit : ℕ) (ports : List ℕ)
      → limit < 65536
      → (sent_value (set_pvid port vid)
          ≡ some (pvid_table (record { port = port; vlan_id = vid } ∷ [])))
        × (sent_value (set_port_config port admin flow)
            ≡ some (
                admin_table (
                  record {
                    port = port;
                    admin = if admin then 1 else 0;
                    flow = if flow then 1 else 0;
                  }
                  ∷ [])))
        × (sent_value (set_qos_priority port priority)
            ≡ some (qos_table (record { port = port; priority = priority } ∷ [])))
        × (sent_value (set_bandwidth 0x4c00 port limit)
            ≡ some (bandwidth (record { port = port; limit = limit })))
        × (sent_value (set_port_mirroring port ports)
            ≡ some (
                mirroring
                  (record { dst_port = port; reserved = 0; src_ports = port_bitmap ports })))
        × (sent_value (set_port_based_vlan vid ports)
            ≡ some (port_based (record { vlan_id = vid; ports = port_bitmap ports } ∷ [])))
        × (decode_tlv (set_igmp_snooping true vid)
            ≡ some (igmp (record { enabled = 1; vlan_id = vid })))
  decode_tlv-typed_sets admin flow priority limit ports u16 = (
    decode_tlv-set_pvid,
    decode_tlv-set_port_config admin flow,
    decode_tlv-set_qos_priority priority,
    decode_tlv-set_bandwidth limit u16,
    decode_tlv-set_port_mirroring ports,
    decode_tlv-set_port_based_vlan ports,
    decode_tlv-set_igmp_snooping,
  )

-- A table of entries, and the entry of one port's statistics.
abbrev pub table : {A : Type 0} → (A → Bytes) → List A → Bytes
table encode [] = []
table encode (a ∷ rest) = encode a ++ table encode rest

abbrev pub be64_bytes : ℕ → Bytes
be64_bytes n = be32_bytes (n / 4294967296) ++ be32_bytes n

abbrev pub traffic_bytes : PortTrafficStats → Bytes
traffic_bytes e =
    e.port
    ∷ (be64_bytes e.received
        ++ (be64_bytes e.sent
            ++ (be64_bytes e.packets
                ++ (be64_bytes e.broadcast ++ (be64_bytes e.multicast ++ be64_bytes e.errors)))))

abbrev pub IsU64 : ℕ → Type 0
IsU64 n = n < 18446744073709551616

abbrev pub IsStats : PortTrafficStats → Type 0
IsStats e =
    IsU64 e.received
    × IsU64 e.sent
    × IsU64 e.packets
    × IsU64 e.broadcast
    × IsU64 e.multicast
    × IsU64 e.errors

read_be64 :
    (n : ℕ) → IsU64 n → be32 (be32_bytes (n / 4294967296)) * 4294967296 + be32 (be32_bytes n) ≡ n
read_be64 n h = omega (arith, h)

read_traffic_bytes : (e : PortTrafficStats) → IsStats e → read_traffic (traffic_bytes e) ≡ e
read_traffic_bytes e h =
    rw
      (
        read_be64 e.received h.0,
        read_be64 e.sent h.1,
        read_be64 e.packets h.2,
        read_be64 e.broadcast h.3,
        read_be64 e.multicast h.4,
        read_be64 e.errors h.5,
      )
      refl

length-table : (es : List PortTrafficStats) → length (table traffic_bytes es) ≡ 49 * length es
length-table [] = refl
length-table (e ∷ es) = omega (arith, length-table es)

pieces-table :
    (es : List PortTrafficStats)
    → All IsStats es
    → map read_traffic (pieces 49 (length es) (table traffic_bytes es)) ≡ es
unfolding pieces
pieces-table [] h = refl
pieces-table (e ∷ es) h = rw (read_traffic_bytes e h.0, pieces-table es h.1) refl

-- DecodeTLV reads a traffic table of one or more 49-byte entries with 64-bit counters back,
-- every entry in order.
pub decode_tlv-traffic :
    (e : PortTrafficStats) (es : List PortTrafficStats)
    → All IsStats (e ∷ es)
    → decode_tlv (record { tag = 0x1000; value = table traffic_bytes (e ∷ es) })
      ≡ some (traffic (e ∷ es))
unfolding decode_tlv entries_of
decode_tlv-traffic e es h =
    let n : length (table traffic_bytes (e ∷ es)) ≡ 49 * suc (length es) = length-table (e ∷ es) in
    let whole : (ltb 0 (length (table traffic_bytes (e ∷ es)))
          && length (table traffic_bytes (e ∷ es)) % 49 == 0)
        ≡ true =
      ground (arith, n) in
    let count : length (table traffic_bytes (e ∷ es)) / 49 ≡ suc (length es) = omega (arith, n) in
    rw (whole, count) (ap (λ x. some (traffic x)) (pieces-table (e ∷ es) h))

-- ===== src/Codec/Tests.antt =====
-- A state with VLANs 1 and 42, written and read back.
use mathlib.Core.Path.{subst}
use terraform_provider_netge.Base.{
  ℕ, ◌≡◌, ◌≢◌, refl, inl, inr, true, none, some, List, [], ◌∷◌, arith, ◌==◌, ==_iff, equal, ascii,
  All, lookup, sort, elem, if◌then◌else◌, Bool-cases, trim_right,
}
use terraform_provider_netge.Model.{untagged, tagged, is_known, Ports, VlanState, get, port_range}
use terraform_provider_netge.Grammar.{
  default_pvid, default_port_count, is_untagged, pvid_of, validate_renderable,
}
use terraform_provider_netge.Grammar.Lines.{IsInt}
use terraform_provider_netge.Codec.{decode_bodies}
use terraform_provider_netge.Codec.Scan.{vlan_database_label, interface_label, is_vlan_line, Bodies}
use terraform_provider_netge.Codec.Render.{Foreign, kept_lines, database_body, interface_body}
use terraform_provider_netge.Codec.Rendered.{IsWritable, KnownPorts}
use terraform_provider_netge.Codec.Sections.{IsRendered}
use terraform_provider_netge.Codec.Members.{IsExpressible}
use terraform_provider_netge.Codec.RoundTrip.{Recovers, decode_bodies-Recovers}

abbrev first_ports : Ports
first_ports =
    (1, untagged)
    ∷ (2, untagged)
    ∷ (3, untagged)
    ∷ (4, untagged)
    ∷ (5, untagged)
    ∷ (6, untagged)
    ∷ (7, untagged)
    ∷ []

abbrev desired : VlanState
desired = record {
  port_count = 8;
  vlans =
      (1, record { id = 1; ports = first_ports })
      ∷ (42, record { id = 42; ports = (8, untagged) ∷ (1, tagged) ∷ [] })
      ∷ [];
  pvids = (1, 1) ∷ (2, 1) ∷ (3, 1) ∷ (4, 1) ∷ (5, 1) ∷ (6, 1) ∷ (7, 1) ∷ (8, 42) ∷ [];
}

abbrev kept : Foreign
kept = record { database = ascii "set igmp" ∷ []; interfaces = (8, ascii "shutdown" ∷ []) ∷ [] }

-- The sections of the file that is written.
interface_at : List ℕ → Bodies
unfolding equal interface_label
interface_at [] label = none
interface_at (port ∷ ports) label =
    let later = interface_at ports label in
    if equal label (interface_label port) then some (interface_body desired kept port) else later

file_bodies : Bodies
unfolding equal interface_at port_range
file_bodies label =
    if equal label vlan_database_label
    then some (database_body desired kept)
    else interface_at (port_range default_port_count) label

-- What holds of the entries of a map holds of what is found.
lookup-All :
    {V : Type 0} (P : ℕ → V → Type 0) (m : List (ℕ × V))
    → All (λ e. P e.0 e.1) m
    → (k : ℕ) (v : V) → lookup k m ≡ some v
    → P k v
unfolding lookup
lookup-All P [] h k v e = cc e
lookup-All P ((j, w) ∷ m) h k v e = elim (Bool-cases (j == k)) [
  | inr past ↦ lookup-All P m h.1 k v (rw past at e)
  | inl here ↦
      let found : w ≡ v = cc (rw here at e) in
      subst (λ i. P i v) ((==_iff j k).0 here) (subst (P j) found h.0)
]

desired-IsWritable : IsWritable desired
desired-IsWritable = record {
  ids = lookup-All (λ v vlan. IsInt v) desired.vlans (omega arith);
  known =
      lookup-All (λ v vlan. KnownPorts vlan) desired.vlans
        (
          lookup-All (λ p m. is_known m ≡ true) _
              (refl, (refl, (refl, (refl, (refl, (refl, (refl, tt))))))),
          (lookup-All (λ p m. is_known m ≡ true) _ (refl, (refl, tt)), tt),
        );
  eight_ports = refl;
}

bare : untagged ≢ tagged
bare h = cc h

desired-IsExpressible : IsExpressible desired
unfolding validate_renderable lookup port_range sort get elem
desired-IsExpressible = record {
  checked = refl;
  writable = desired-IsWritable;
  no_tagged = λ vlan port there found.
      lookup-All (λ v w. (v == default_pvid) ≡ true → (p : ℕ) → lookup p w.ports ≢ some tagged)
        desired.vlans
        (
          λ h p e.
              lookup-All (λ q m. m ≢ tagged) first_ports
                (bare, (bare, (bare, (bare, (bare, (bare, (bare, tt))))))) p tagged e refl,
          (λ h. cc h, tt),
        )
        default_pvid vlan there refl port found;
  in_use = λ vlan there. (
    1,
    refl,
    lookup-All (λ v w. (v == default_pvid) ≡ true → is_untagged (get w.ports 1) ≡ true)
        desired.vlans (λ h. refl, (λ h. cc h, tt)) default_pvid vlan there refl,
  );
}

sections : All (IsRendered desired kept file_bodies) (port_range default_port_count)
unfolding equal interface_label interface_at port_range file_bodies is_vlan_line kept_lines pvid_of
    lookup trim_right
sections = (
  record { body = refl; kept = tt; int_pvid = omega arith },
  (
    record { body = refl; kept = tt; int_pvid = omega arith },
    (
      record { body = refl; kept = tt; int_pvid = omega arith },
      (
        record { body = refl; kept = tt; int_pvid = omega arith },
        (
          record { body = refl; kept = tt; int_pvid = omega arith },
          (
            record { body = refl; kept = tt; int_pvid = omega arith },
            (
              record { body = refl; kept = tt; int_pvid = omega arith },
              (record { body = refl; kept = (refl, tt); int_pvid = omega arith }, tt),
            ),
          ),
        ),
      ),
    ),
  ),
)

decode_bodies-Recovers_example : Recovers desired (decode_bodies file_bodies)
unfolding equal file_bodies is_vlan_line trim_right
decode_bodies-Recovers_example =
    decode_bodies-Recovers desired kept file_bodies desired-IsExpressible refl (refl, tt) sections

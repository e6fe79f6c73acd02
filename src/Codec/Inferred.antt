-- ===== src/Codec/Inferred.antt =====
-- What is inferred for VLAN 1 and for access ports (internal/client/gs108tv2/codec.go).
use mathlib.Core.Path.{subst}
use mathlib.Core.Option
use terraform_provider_netge.Base.{
  ℕ, ◌≡◌, ◌≢◌, ◌↔◌, refl, sym, ap, ◌∙◌, inl, inr, Bool, true, false, ◌||◌, Option, none, some, List,
  [], ◌∷◌, ◌==◌, ==_iff, All, lookup, is_some, elem, if◌then◌else◌, Bool-cases, Option-cases,
}
use terraform_provider_netge.Model.{
  PortMembership, ignored, untagged, tagged, other, Ports, VlanState, get, is_known,
}
use terraform_provider_netge.Grammar.{default_pvid, is_untagged, pvid_of}
use terraform_provider_netge.Codec.Scan.{Member}
use terraform_provider_netge.Codec.Assemble.{
  inferred_membership, inferred_ports, some_untagged, infer_access_port, infer_access,
}
use terraform_provider_netge.Codec.Realized.{membership_in}
use terraform_provider_netge.Codec.Written.{written_if}

module _ (state : VlanState) (members : List Member) where
  pub lookup-inferred_ports :
      (p : ℕ) (ports : List ℕ)
      → elem p ports ≡ true
      → lookup p (inferred_ports state members ports) ≡ some (inferred_membership state members p)
  unfolding inferred_ports lookup elem
  lookup-inferred_ports p [] e = cc e
  lookup-inferred_ports p (port ∷ ports) e = elim (Bool-cases (port == p)) [
    | inr past ↦ rw past (lookup-inferred_ports p ports (rw past at e))
    | inl here ↦
        rw here (ap (λ q. some (inferred_membership state members q)) ((==_iff port p).0 here))
  ]

  pub some_untagged-here :
      (p : ℕ) (ports : List ℕ)
      → elem p ports ≡ true
      → is_untagged (inferred_membership state members p) ≡ true
      → some_untagged (inferred_ports state members ports) ≡ true
  unfolding inferred_ports some_untagged elem
  some_untagged-here p [] e h = cc e
  some_untagged-here p (port ∷ ports) e h = elim (Bool-cases (port == p)) [
    | inr past ↦
        either (is_untagged (inferred_membership state members port))
          (some_untagged-here p ports (rw past at e) h)
    | inl here ↦
        rw
          (subst (λ q. is_untagged (inferred_membership state members q) ≡ true)
            (sym ((==_iff port p).0 here)) h)
          refl
  ]
    where
      either : (b : Bool) {c : Bool} → c ≡ true → (b || c) ≡ true
      either true k = refl
      either false k = k

  pub some_untagged-none :
      (ports : List ℕ)
      → All (λ p. is_untagged (inferred_membership state members p) ≡ false) ports
      → some_untagged (inferred_ports state members ports) ≡ false
  unfolding inferred_ports some_untagged
  some_untagged-none [] h = refl
  some_untagged-none (port ∷ ports) h = rw h.0 (some_untagged-none ports h.1)

-- A membership of VLAN 1 that is not tagged is told by the PVID.
pub told_by_pvid :
    (o : Option PortMembership) (b : Bool)
    → ((m : PortMembership) → o ≡ some m → is_known m ≡ true)
    → o ≢ some tagged
    → ((is_untagged (Option.get_or o (other "")) ≡ true) ↔ (b ≡ true))
    → (if b then untagged else ignored) ≡ Option.get_or o ignored
told_by_pvid none true k t h = cc (h.1 refl)
told_by_pvid none false k t h = refl
told_by_pvid (some ignored) true k t h = cc (h.1 refl)
told_by_pvid (some ignored) false k t h = refl
told_by_pvid (some untagged) true k t h = refl
told_by_pvid (some untagged) false k t h = cc (h.0 refl)
told_by_pvid (some tagged) b k t h = absurd (t refl)
told_by_pvid (some (other s)) b k t h = cc (k (other s) refl)

-- In another VLAN what is written covers the membership.
pub covered-written_if :
    (v : ℕ) (o : Option PortMembership)
    → (v == default_pvid) ≡ false
    → ((m : PortMembership) → o ≡ some m → is_known m ≡ true)
    → Option.get_or (written_if v o) ignored ≡ Option.get_or o ignored
covered-written_if v none h k = refl
covered-written_if v (some ignored) h k = refl
covered-written_if v (some untagged) h k = rw h refl
covered-written_if v (some tagged) h k = rw h refl
covered-written_if v (some (other s)) h k = cc (k (other s) refl)

pub lookup-get :
    (ports : Ports) (port : ℕ)
    → is_untagged (get ports port) ≡ true
    → lookup port ports ≡ some untagged
unfolding get
lookup-get ports port h = elim (Option-cases (lookup port ports)) [
  | inl absent ↦ cc (rw (get, absent) at h)
  | inr (m, found) ↦ found ∙ ap some (bare m (rw (get, found) at h))
]
  where
    bare : (m : PortMembership) → is_untagged m ≡ true → m ≡ untagged
    bare ignored k = cc k
    bare untagged k = refl
    bare tagged k = cc k
    bare (other s) k = cc k

-- A port with a membership in the VLAN of its PVID is left alone.
infer_access_port-same :
    (state : VlanState) (port : ℕ)
    → is_some (membership_in state.vlans (pvid_of state port) port) ≡ true
    → infer_access_port state port ≡ state
unfolding infer_access_port membership_in
infer_access_port-same state port h =
    elim (Option-cases (lookup (pvid_of state port) state.vlans)) [
      | inl absent ↦ cc (rw (membership_in, absent) at h)
      | inr (vlan, found) ↦
          rw (infer_access_port, found)
            (let there : is_some (lookup port vlan.ports) ≡ true = rw (membership_in, found) at h in
              rw there (same (pvid_of state port == 0)))
    ]
  where
    same : (b : Bool) → (if b then state else state) ≡ state
    same true = refl
    same false = refl

pub infer_access-same :
    (state : VlanState) (ports : List ℕ)
    → All (λ port. is_some (membership_in state.vlans (pvid_of state port) port) ≡ true) ports
    → infer_access state ports ≡ state
unfolding infer_access
infer_access-same state [] h = refl
infer_access-same state (port ∷ ports) h =
    ap (λ s. infer_access s ports) (infer_access_port-same state port h.0)
    ∙ infer_access-same state ports h.1

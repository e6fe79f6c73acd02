-- ===== src/Codec/Sections.antt =====
-- The port sections that the driver writes, read together (internal/client/gs108tv2/codec.go).
use terraform_provider_netge.Base.{
  ℕ, ◌≡◌, refl, ap, ◌∙◌, inl, inr, true, some, List, [], ◌∷◌, ◌++◌, ◌==◌, ==_iff, All, lookup, elem,
  Bool-cases,
}
use terraform_provider_netge.Model.{VlanState}
use terraform_provider_netge.Grammar.{pvid_of}
use terraform_provider_netge.Grammar.Lines.{IsInt}
use terraform_provider_netge.Codec.Scan.{
  interface_label, interface_of, Bodies, scan_ports, column, interface_issues,
}
use terraform_provider_netge.Codec.Render.{Foreign, kept_lines, interface_body}
use terraform_provider_netge.Codec.Kept.{IsForeign, interface_of-interface_body}

-- The section of a port is the one that is written for the state.
pub record IsRendered (state : VlanState) (foreign : Foreign) (bodies : Bodies) (port : ℕ)
    : Type 0 where
  pub body : bodies (interface_label port) ≡ some (interface_body state foreign port)
  pub kept : All IsForeign (kept_lines foreign.interfaces port)
  pub int_pvid : IsInt (pvid_of state port)

module _ (state : VlanState) (foreign : Foreign) (bodies : Bodies) where
  pub interface_issues-IsRendered :
      (ports : List ℕ)
      → All (IsRendered state foreign bodies) ports
      → interface_issues (scan_ports bodies ports) ≡ []
  unfolding interface_issues scan_ports
  interface_issues-IsRendered [] h = refl
  interface_issues-IsRendered (port ∷ ports) h =
      ap (λ o. (interface_of port o).issues ++ interface_issues (scan_ports bodies ports)) h.0.body
      ∙ ap (λ s. s.1 ++ interface_issues (scan_ports bodies ports))
          (interface_of-interface_body state foreign port h.0.int_pvid h.0.kept)
      ∙ interface_issues-IsRendered ports h.1

  pub lookup-IsRendered :
      (p : ℕ) (ports : List ℕ)
      → All (IsRendered state foreign bodies) ports
      → elem p ports ≡ true
      → lookup p (column (λ i. i.pvid) (scan_ports bodies ports)) ≡ some (pvid_of state p)
  unfolding column scan_ports lookup elem
  lookup-IsRendered p [] h e = cc e
  lookup-IsRendered p (port ∷ ports) h e = elim (Bool-cases (port == p)) [
    | inr past ↦ rw past (lookup-IsRendered p ports h.1 (rw past at e))
    | inl here ↦ rw here (
        ap (λ o. some (interface_of port o).pvid) h.0.body
        ∙ ap (λ s. some s.0) (interface_of-interface_body state foreign port h.0.int_pvid h.0.kept)
        ∙ ap (λ q. some (pvid_of state q)) ((==_iff port p).0 here))
  ]

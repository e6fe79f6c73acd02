-- ===== src/Plan/Placed.antt =====
-- What a VLAN shows after each membership step of Plan (internal/model/vlan_plan.go).
use terraform_provider_netge.Base.{
  ℕ, ◌≡◌, refl, ap, ◌∙◌, inl, inr, ◌⊎◌, true, false, Option, none, some, List, [], arith,
  if◌then◌else◌, Bool-cases, lookup, is_some,
}
use terraform_provider_netge.Model.{Ports, Vlan, VlanState, preserved_ports}
use terraform_provider_netge.Model.Same.{ports_at}
use terraform_provider_netge.Plan.{widened, ports_of, vlan_of, step1_vlans, step2_vlans}
use terraform_provider_netge.Plan.Steps.{has, lookup-step1_vlans, lookup-step2_vlans}

is_some_cases {ℓ} :
    {A : Type ℓ} (o : Option A)
    → ((is_some o ≡ false) × (o ≡ none)) ⊎ ((is_some o ≡ true) × ((v : A) × (o ≡ some v)))
is_some_cases none = inl (refl, refl)
is_some_cases (some v) = inr (refl, (v, refl))

pub ports_at-none : (s : VlanState) (vid : ℕ) → has s vid ≡ false → ports_at s vid ≡ none
ports_at-none s vid h = elim (is_some_cases (lookup vid s.vlans)) [
  | inl (_, e) ↦ rw e refl
  | inr (present, _) ↦ cc (present, h)
]

pub ports_at-some :
    (s : VlanState) (vid : ℕ) → has s vid ≡ true → ports_at s vid ≡ some (vlan_of s.vlans vid).ports
unfolding vlan_of
ports_at-some s vid h = elim (is_some_cases (lookup vid s.vlans)) [
  | inl (gone, _) ↦ cc (gone, h)
  | inr (_, (v, e)) ↦ rw e refl
]

pub ports_of-some :
    (vlans : List (ℕ × Vlan)) (vid : ℕ) {v : Vlan}
    → lookup vid vlans ≡ some v
    → ports_of vlans vid ≡ v.ports
unfolding ports_of
ports_of-some vlans vid e = rw e refl

-- What a VLAN shows after the memberships of a step.
abbrev pub placed : List (ℕ × Vlan) → ℕ → Option Ports → Option Ports
placed step vid before = if is_some (lookup vid step) then some (ports_of step vid) else before

pub placed-some :
    (step : List (ℕ × Vlan)) (vid : ℕ) (before : Option Ports) (v : Vlan)
    → lookup vid step ≡ some v
    → placed step vid before ≡ some v.ports
unfolding ports_of
placed-some step vid before v e = rw e refl

pub placed-none :
    (step : List (ℕ × Vlan)) (vid : ℕ) (before : Option Ports)
    → lookup vid step ≡ none
    → placed step vid before ≡ before
placed-none step vid before e = rw e refl

module _ (c d : VlanState) (unpreserved : preserved_ports d ≡ []) (j : ℕ) where
  pub step1-added :
      has d j ≡ true → has c j ≡ false → lookup j (step1_vlans c d) ≡ some (vlan_of d.vlans j)
  step1-added h k = lookup-step1_vlans c d j ∙ ground (arith, h, k)

  pub step1-shared :
      has d j ≡ true → has c j ≡ true → lookup j (step1_vlans c d) ≡ some (widened c d j)
  step1-shared h k = lookup-step1_vlans c d j ∙ rw (h, k) refl

  pub step1-none : has d j ≡ false → lookup j (step1_vlans c d) ≡ none
  step1-none h = lookup-step1_vlans c d j ∙ rw h refl

  pub step2-shared :
      has d j ≡ true → has c j ≡ true → lookup j (step2_vlans c d) ≡ some (vlan_of d.vlans j)
  step2-shared h k = lookup-step2_vlans c d j unpreserved ∙ rw (h, k) refl

  pub step2-none : has c j ≡ false → lookup j (step2_vlans c d) ≡ none
  step2-none k = lookup-step2_vlans c d j unpreserved ∙ rw k (ground arith)

  pub step2-known : is_some (lookup j (step2_vlans c d)) ≡ true → has c j ≡ true
  step2-known h = elim (Bool-cases (has c j)) [
    | inl there ↦ there
    | inr gone ↦ cc (ap is_some (step2-none gone), h)
  ]

  pub step1-some : has d j ≡ true → is_some (lookup j (step1_vlans c d)) ≡ true
  step1-some h = elim (Bool-cases (has c j)) [
    | inl k ↦ ap is_some (step1-shared h k)
    | inr k ↦ ap is_some (step1-added h k)
  ]

  pub step1-known : is_some (lookup j (step1_vlans c d)) ≡ true → has d j ≡ true
  step1-known h = elim (Bool-cases (has d j)) [
    | inl there ↦ there
    | inr gone ↦ cc (ap is_some (step1-none gone), h)
  ]

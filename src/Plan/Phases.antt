-- ===== src/Plan/Phases.antt =====
-- What each phase of Plan does to a switch that keeps the promises of VLANApplier.
use terraform_provider_netge.Base.{
  ℕ, ◌≡◌, refl, sym, ap, ◌∙◌, inl, inr, true, false, Option, none, some, List, [], ◌∷◌, ◌++◌, map,
  arith, ◌==◌, ==_iff, if◌then◌else◌, Bool-cases, Option-cases, elem,
}
use terraform_provider_netge.Model.{Ports}
use terraform_provider_netge.Plan.{
  VlanOp, add_vlan, set_membership, set_pvids, delete_vlans, VlanApplier, apply_op, run, delete_ops,
}
use terraform_provider_netge.Plan.Switch.{IsSwitch, Shown}
use terraform_provider_netge.Plan.Steps.{owns}

assigned_next :
    (v vid : ℕ) (vids : List ℕ) (old : Option ℕ)
    → (if elem v vids then some v else (if v == vid then some vid else old))
      ≡ (if elem v (vid ∷ vids) then some v else old)
unfolding elem
assigned_next v vid vids old = elim (Bool-cases (v == vid)) [
  | inl e ↦ rw ((==_iff v vid).0 e) (ground arith)
  | inr n ↦ ground arith
]

module _ {S E : Type 0} (applier : VlanApplier S E) where
  run-next :
      (op : VlanOp) (ops : List VlanOp) (s : S)
      → (apply_op applier op s).1 ≡ none
      → run applier (op ∷ ops) s ≡ run applier ops (apply_op applier op s).0
  unfolding run
  run-next op ops s h = rw (h, run) refl

  run-stop :
      (op : VlanOp) (ops : List VlanOp) (s : S) (e : E)
      → (apply_op applier op s).1 ≡ some e
      → run applier (op ∷ ops) s ≡ ((apply_op applier op s).0, some e)
  unfolding run
  run-stop op ops s e h = rw (h, run) refl

  -- A part of a plan without an error is followed by the rest.
  pub run-append :
      (xs ys : List VlanOp) (s : S)
      → (run applier xs s).1 ≡ none
      → run applier (xs ++ ys) s ≡ run applier ys (run applier xs s).0
  unfolding run
  run-append [] ys s h = refl
  run-append (op ∷ xs) ys s h = elim (Option-cases (apply_op applier op s).1) [
    | inl fine ↦
        let next = (apply_op applier op s).0 in
        let first : run applier (op ∷ xs) s ≡ run applier xs next = run-next op xs s fine in
        run-next op (xs ++ ys) s fine
        ∙ run-append xs ys next (ap (λ r. r.1) (sym first) ∙ h)
        ∙ ap (λ r. run applier ys r.0) (sym first)
    | inr (e, failed) ↦ cc (run-stop op xs s e failed, h)
  ]

  module _ (sw : IsSwitch applier) where
    -- A run that ends without an error, in a state of which P holds.
    abbrev pub Runs : List VlanOp → S → (S → Type 0) → Type 0
    Runs ops s P = ((run applier ops s).1 ≡ none) × P (run applier ops s).0

    Runs-next :
        (op : VlanOp) (ops : List VlanOp) (s : S) (P : S → Type 0)
        → (apply_op applier op s).1 ≡ none
        → Runs ops (apply_op applier op s).0 P
        → Runs (op ∷ ops) s P
    Runs-next op ops s P fine rest = rw (run-next op ops s fine) rest

    pub Runs-append :
        (xs ys : List VlanOp) (s : S) (P Q : S → Type 0)
        → Runs xs s P
        → ((s' : S) → P s' → Runs ys s' Q)
        → Runs (xs ++ ys) s Q
    Runs-append xs ys s P Q first next =
        rw (run-append xs ys s first.0) (next (run applier xs s).0 first.1)

    pub Runs-weaken :
        (xs : List VlanOp) (s : S) (P Q : S → Type 0)
        → Runs xs s P
        → ((s' : S) → P s' → Q s')
        → Runs xs s Q
    Runs-weaken xs s P Q first next = (first.0, next (run applier xs s).0 first.1)

    pub record Added (vids : List ℕ) (s s' : S) : Type 0 where
      pub known_after : (j : ℕ) → sw.known s' j ≡ (if elem j vids then true else sw.known s j)
      pub vlan_after : (j : ℕ) → elem j vids ≡ false → sw.vlan s' j ≡ sw.vlan s j
      pub pvid_after : (p : ℕ) → sw.pvid s' p ≡ sw.pvid s p

    pub run-add : (vids : List ℕ) (s : S) → Runs (map add_vlan vids) s (Added vids s)
    unfolding run apply_op elem
    run-add [] s =
        (refl, record { known_after = λ j. refl; vlan_after = λ j h. refl; pvid_after = λ p. refl })
    run-add (vid ∷ vids) s =
        let (fine, rest) = run-add vids (applier.add vid s).0 in
        Runs-next (add_vlan vid) (map add_vlan vids) s (Added (vid ∷ vids) s) (sw.add_ok vid s) (
          fine,
          record {
            known_after = λ j. ground (arith, rest.known_after j, sw.add_known vid j s);
            vlan_after = λ j h. ground (arith, rest.vlan_after j, sw.add_vlan vid j s);
            pvid_after = λ p. rest.pvid_after p ∙ sw.add_pvid vid p s;
          },
        )

    pub record Placed (f : ℕ → Ports) (vids : List ℕ) (s s' : S) : Type 0 where
      pub known_after : (j : ℕ) → sw.known s' j ≡ sw.known s j
      pub vlan_after : (j : ℕ) → sw.vlan s' j ≡ (if elem j vids then some (f j) else sw.vlan s j)
      pub pvid_after : (p : ℕ) → sw.pvid s' p ≡ sw.pvid s p

    -- Memberships for known VLANs.
    pub run-set :
        (f : ℕ → Ports) (vids : List ℕ) (s : S)
        → ((j : ℕ) → elem j vids ≡ true → sw.known s j ≡ true)
        → Runs (map (λ vid. set_membership vid (f vid)) vids) s (Placed f vids s)
    unfolding run apply_op elem
    run-set f [] s h =
        (refl, record { known_after = λ j. refl; vlan_after = λ j. refl; pvid_after = λ p. refl })
    run-set f (vid ∷ vids) s h =
        let here : sw.known s vid ≡ true = h vid (ground arith) in
        let next = (applier.set_ports vid (f vid) s).0 in
        let (fine, rest) =
          run-set f vids next (λ j m. sw.set_known vid j (f vid) s here ∙ h j (ground arith)) in
        Runs-next (set_membership vid (f vid)) (map (λ v. set_membership v (f v)) vids) s
          (Placed f (vid ∷ vids) s) (sw.set_ok vid (f vid) s here)
          (
            fine,
            record {
              known_after = λ j. rest.known_after j ∙ sw.set_known vid j (f vid) s here;
              vlan_after = λ j.
                  rest.vlan_after j
                  ∙ rw (sw.set_vlan vid j (f vid) s here) (elim (Bool-cases (vid == j)) [
                    | inl e ↦ rw (e, ap f ((==_iff vid j).0 e)) (ground arith)
                    | inr n ↦ rw n refl
                  ]);
              pvid_after = λ p. rest.pvid_after p ∙ sw.set_pvid vid p (f vid) s here;
            },
          )

    pub record Assigned (o : ℕ → Option ℕ) (vids : List ℕ) (s s' : S) : Type 0 where
      pub known_after : (j : ℕ) → sw.known s' j ≡ sw.known s j
      pub vlan_after : (j : ℕ) → sw.vlan s' j ≡ sw.vlan s j
      pub pvid_none : (p : ℕ) → o p ≡ none → sw.pvid s' p ≡ sw.pvid s p
      pub pvid_some :
          (p vid : ℕ)
          → o p ≡ some vid
          → sw.pvid s' p ≡ (if elem vid vids then some vid else sw.pvid s p)

    -- PVIDs for ports that are members: the batch of a VLAN holds the ports that `o` gives to it.
    pub run-assign :
        (o : ℕ → Option ℕ) (g : ℕ → List ℕ) (vids : List ℕ) (s : S)
        → ((p vid : ℕ) → elem p (g vid) ≡ owns (o p) vid)
        → ((vid : ℕ)
            → elem vid vids ≡ true
            → (p : ℕ) → elem p (g vid) ≡ true
            → Shown (sw.vlan s vid) p)
        → Runs (map (λ vid. set_pvids vid (g vid)) vids) s (Assigned o vids s)
    unfolding run apply_op elem
    run-assign o g [] s b h = (
      refl,
      record {
        known_after = λ j. refl;
        vlan_after = λ j. refl;
        pvid_none = λ p e. refl;
        pvid_some = λ p vid e. refl;
      },
    )
    run-assign o g (vid ∷ vids) s b h =
        let here = h vid (ground arith) in
        let next = (applier.assign vid (g vid) s).0 in
        let (fine, rest) =
          run-assign o g vids next b
            (λ j m p e. rw (sw.assign_vlan vid j (g vid) s here) (h j (ground arith) p e)) in
        let step = λ (p : ℕ). sw.assign_pvid vid p (g vid) s here in
        Runs-next (set_pvids vid (g vid)) (map (λ v. set_pvids v (g v)) vids) s
          (Assigned o (vid ∷ vids) s) (sw.assign_ok vid (g vid) s here)
          (
            fine,
            record {
              known_after = λ j. rest.known_after j ∙ sw.assign_known vid j (g vid) s here;
              vlan_after = λ j. rest.vlan_after j ∙ sw.assign_vlan vid j (g vid) s here;
              pvid_none = λ p e. rest.pvid_none p e ∙ step p ∙ rw (b p vid) (rw e refl);
              pvid_some = λ p v e.
                  rest.pvid_some p v e
                  ∙ rw (step p) (rw (b p vid) (rw e (assigned_next v vid vids (sw.pvid s p))));
            },
          )

    pub record Deleted (vids : List ℕ) (s s' : S) : Type 0 where
      pub vlan_after : (j : ℕ) → sw.vlan s' j ≡ (if elem j vids then none else sw.vlan s j)
      pub pvid_after : (p : ℕ) → sw.pvid s' p ≡ sw.pvid s p

    pub run-delete :
        (vids : List ℕ) (s : S)
        → ((p vid : ℕ) → sw.pvid s p ≡ some vid → elem vid vids ≡ false)
        → Runs (delete_ops vids) s (Deleted vids s)
    unfolding run apply_op elem delete_ops
    run-delete [] s h = (refl, record { vlan_after = λ j. refl; pvid_after = λ p. refl })
    run-delete (vid ∷ vids) s h =
        Runs-next (delete_vlans (vid ∷ vids)) [] s (Deleted (vid ∷ vids) s)
          (sw.delete_ok (vid ∷ vids) s h)
          (
            refl,
            record {
              vlan_after = λ j. sw.delete_vlan (vid ∷ vids) j s h;
              pvid_after = λ p. sw.delete_pvid (vid ∷ vids) p s h;
            },
          )

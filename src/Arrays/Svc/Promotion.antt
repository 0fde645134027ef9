-- ===== src/Arrays/Svc/Promotion.antt =====
-- controllers/array_action/array_mediator_svc.py: which end of a relationship is the primary one after a
-- promotion or a demotion.
use ibm_block_csi_driver.Prelude.{
  ◌≡◌, ◌≢◌, refl, sym, ap, subst, if◌then◌else◌, ◌∙◌, inl, inr, Bool, true, false, Bool-cases, some,
  String, [], ◌∷◌, finds, ◌==◌, eq_iff, arith,
}
use ibm_block_csi_driver.Errors.{Exception}
use ibm_block_csi_driver.Outcome.{Outcome, returned, raised}
use ibm_block_csi_driver.Exec.{Exec, pure, ◌>>◌}
use ibm_block_csi_driver.Arrays.Svc.{
  text, Rcrelationship, SvcClient, is_warning_message, except_cli, unless_warning, reraise,
}
use ibm_block_csi_driver.Arrays.Svc.Relationships.{
  get_replication_endpoint_type, get_other_endpoint_type, is_replication_endpoint_primary,
  promote_replication_endpoint, ensure_endpoint_is_primary, promote_replication, demote_replication,
  promote_connected, get_rcrelationship_by_name, is_true,
}

-- The system's end of a relationship and the other one are two different ends; the other end of the
-- other is the system's again.
get_other_endpoint_type-other :
    (identifier : String) (r : Rcrelationship)
    → let e = get_replication_endpoint_type identifier r in
      (get_other_endpoint_type e ≢ e) × (get_other_endpoint_type (get_other_endpoint_type e) ≡ e)
unfolding get_other_endpoint_type get_replication_endpoint_type
get_other_endpoint_type-other identifier r = elim (Bool-cases (identifier == r.master_cluster_id)) [
  | inl e ↦ rw e (λ h. cc ((eq_iff "aux" "master").1 h), refl)
  | inr e ↦ rw e (λ h. cc ((eq_iff "master" "aux").1 h), refl)
]

module _ {S : Type 0} (client : SvcClient S) (primary_of : S → String) (r : Rcrelationship) where
  abbrev switch : String → Exec S (Unit {0})
  switch e =
      client.svctask "switchrcrelationship" (("primary", text e) ∷ ("object_id", text r.name) ∷ [])

  -- What the array documents of the switch: where it is done, the end is the primary one; a refusal is
  -- an error, not a warning.
  abbrev pub Switches : Type 0
  Switches =
      ((e : String) (s s' : S) → switch e s ≡ (returned tt, s') → primary_of s' ≡ e)
      × ((e : String) (s s' : S) (message : String)
          → switch e s ≡ (raised (Exception.cli_error message), s')
          → is_warning_message message ≡ returned false)

  -- A handler that forgives warnings changes nothing where no refusal is a warning.
  no_warning :
      (o : Outcome (Unit {0}) × S) (s : S)
      → ((t : S) (message : String)
          → o ≡ (raised (Exception.cli_error message), t)
          → is_warning_message message ≡ returned false)
      → except_cli (λ _. o) (unless_warning tt reraise) s ≡ o
  no_warning (returned u, t) s w = refl
  no_warning (raised (Exception.cli_error m), t) s w = rw (w t m refl, unless_warning)
  no_warning (raised _, t) s w = refl

  -- The last call of two that both succeed
  last_call :
      (o : Outcome (Unit {0}) × S) (m : Exec S (Unit {0})) (s s' : S)
      → (◌>>◌ {S = S} (λ _. o) m) s ≡ (returned tt, s')
      → (t : S) × (m t ≡ (returned tt, s'))
  last_call (returned u, t) m s s' h = (t, h)
  last_call (raised e, t) m s s' h = cc

  promote-primary :
      (e : String) (s s' : S)
      → Switches
      → promote_replication_endpoint client e r.name s ≡ (returned tt, s')
      → primary_of s' ≡ e
  unfolding promote_replication_endpoint
  promote-primary e s s' sw h =
      sw.0 e s s' (sym (no_warning (switch e s) s (λ t m q. sw.1 e s t m q)) ∙ h)

  said_primary : (e : String) → is_true (is_replication_endpoint_primary r e) ≡ true → r.primary ≡ e
  unfolding is_replication_endpoint_primary
  said_primary e h = ground (arith, eq_iff r.primary e)

  ensured :
      (e : String) (b : Bool) (start : Exec S (Unit {0})) (s s' : S)
      → Switches
      → (b ≡ true → primary_of s ≡ e)
      → (if b then pure tt else (start >> promote_replication_endpoint client e r.name)) s
        ≡ (returned tt, s')
      → primary_of s' ≡ e
  ensured e true start s s' sw done h = subst (λ t. primary_of t ≡ e) (ap (λ p. p.1) h) (done refl)
  ensured e false start s s' sw done h =
      let (t, last) = last_call (start s) (promote_replication_endpoint client e r.name) s s' h in
      promote-primary e t s' sw last

  -- Where an end is made primary without an error, it is the primary one: at once if the array said
  -- so, or by the switch, whether or not the idle relationship could be started before.
  ensure_endpoint_is_primary-primary :
      (e : String) (s s' : S)
      → Switches
      → primary_of s ≡ r.primary
      → ensure_endpoint_is_primary client r e s ≡ (returned tt, s')
      → primary_of s' ≡ e
  unfolding ensure_endpoint_is_primary is_replication_endpoint_primary
  ensure_endpoint_is_primary-primary e s s' sw now h =
      ensured e (is_true (is_replication_endpoint_primary r e)) _ s s' sw
        (λ b. now ∙ said_primary e b) h

  -- A promotion that succeeds makes this system's end of a connected relationship the primary one,
  -- and a demotion makes the other end so, where the array does the switch that it accepts and refuses
  -- none with a warning, which the code takes for success.
  pub promote-demote :
      (promote : Bool) (name me : String) (s t u s' : S)
      → Switches
      → get_rcrelationship_by_name client name s ≡ (returned (some r), t)
      → client.identifier t ≡ (returned me, u)
      → primary_of u ≡ r.primary
      → finds "disconnected" r.state ≡ false
      → (if promote then promote_replication client name s else demote_replication client name s)
        ≡ (returned tt, s')
      → primary_of s' ≡ (
          if promote
          then get_replication_endpoint_type me r
          else get_other_endpoint_type (get_replication_endpoint_type me r))
  unfolding promote_replication promote_connected demote_replication
  promote-demote true name me s t u s' sw there who now connected h =
      ensure_endpoint_is_primary-primary _ u s' sw now (ground (arith, h))
  promote-demote false name me s t u s' sw there who now connected h =
      ensure_endpoint_is_primary-primary _ u s' sw now (ground (arith, h))

-- ===== src/HostDefiner/Backoff.antt =====
-- controllers/servers/host_definer/watcher/host_definition_watcher.py: how the thread of a pending definition ends.
use ibm_block_csi_driver.Prelude.{
  ap, some, List, ℕ, zero, suc, ◌*◌, ◌≤◌, ◌<◌, ◌≡◌, refl, ◌∙◌, sym, subst, inl, inr, Bool, true,
  false, Bool-cases, not, ◌&&◌, Option, none, String, nat_eq, ◌==◌, arith,
}
use ibm_block_csi_driver.Errors.{Exception}
use ibm_block_csi_driver.Outcome.{Outcome, returned, raised}
use ibm_block_csi_driver.Exec.{Exec}
use ibm_block_csi_driver.HostDefiner.{DefineHostRequest}
use ibm_block_csi_driver.HostDefiner.Definition.{DefineHostResponse}
use ibm_block_csi_driver.HostDefiner.Watcher.{
  first_matching, get_matching_host_definition_info, HostDefinitionInfo, Cluster,
  pending_creation_phase, is_node_should_be_managed_on_secret, ensure_definition_state,
  set_host_definition_status_to_ready,
}
use ibm_block_csi_driver.HostDefiner.Pending.{
  is_settled, is_host_definition_not_pending, define_host_after_pending, respond,
  handle_message_from_storage, handle_pending_host_definition, set_host_definition_phase_to_error,
  try_again, retry_pending, define_host_using_exponential_backoff,
}

module _ {S : Type 0} (cluster : Cluster S) (dynamic_node_labeling allow_delete : Option String)
    (info : HostDefinitionInfo) where
  abbrev pub not_pending : Exec S Bool
  not_pending = is_host_definition_not_pending cluster dynamic_node_labeling allow_delete info

  abbrev pub again : ℕ → Exec S (Unit {0})
  again = try_again cluster dynamic_node_labeling allow_delete info

  -- Passes of the loop, from the retries that are left, the last pause and a state to others: each asks
  -- for the definition, handles it, since it is the first or finds it pending, and pauses.
  pub data Passes (n delay : ℕ) (s : S) : ℕ → ℕ → S → Type 0 where
    no_pass : Passes n delay s n delay s
    one_more :
        {m d : ℕ} {t : S}
        → Passes n delay s (suc m) d t
        → (found : Bool) (t1 u : S) → not_pending t ≡ (returned found, t1)
        → (found && not (nat_eq (suc m) 5)) ≡ false
        → again (d * 3) t1 ≡ (returned tt, u)
        → Passes n delay s m (d * 3) u

  -- How the loop ends, by the retries that are left and the last pause
  pub data Ends : ℕ → ℕ → S → Outcome (Unit {0}) × S → Type 0 where
    settled :
        {m d : ℕ} {t u : S}
        → not_pending t ≡ (returned true, u)
        → suc m < 5
        → Ends (suc m) d t (returned tt, u)
    gave_up :
        {d : ℕ} {t : S}
        → Ends zero d t
            (set_host_definition_phase_to_error cluster dynamic_node_labeling allow_delete info t)
    not_asked :
        {m d : ℕ} {t u : S} {e : Exception}
        → not_pending t ≡ (raised e, u)
        → Ends (suc m) d t (raised e, u)
    not_handled :
        {m d : ℕ} {t t1 u : S} {found : Bool} {e : Exception}
        → not_pending t ≡ (returned found, t1)
        → again (d * 3) t1 ≡ (raised e, u)
        → Ends (suc m) d t (raised e, u)

  abbrev Ended : S → Outcome (Unit {0}) × S → Type 0
  Ended s r = (m : ℕ) × (d : ℕ) × (t : S) × Passes 5 3 s m d t × Ends m d t r

  abbrev loop : ℕ → ℕ → Exec S (Unit {0})
  loop = retry_pending cluster dynamic_node_labeling allow_delete info

  module _ (n d : ℕ) (t t1 : S) (found : Bool) (q : not_pending t ≡ (returned found, t1))
      (go : (found && not (nat_eq (suc n) 5)) ≡ false) where
    loop_goes_on :
        (u : S) → again (d * 3) t1 ≡ (returned tt, u) → loop (suc n) d t ≡ loop n (d * 3) u
    unfolding retry_pending
    loop_goes_on u a = ground arith

    loop_fails :
        (e : Exception) (u : S)
        → again (d * 3) t1 ≡ (raised e, u)
        → loop (suc n) d t ≡ (raised e, u)
    unfolding retry_pending
    loop_fails e u a = ground arith

    -- A pass, by what the handling gave
    handled :
        (s : S) (o : Outcome (Unit {0}) × S)
        → Passes 5 3 s (suc n) d t
        → again (d * 3) t1 ≡ o
        → ((u : S) → Passes 5 3 s n (d * 3) u → Ended s (loop n (d * 3) u))
        → Ended s (loop (suc n) d t)
    handled s (returned tt, u) p a next =
        let (m, d', t', p', e) = next u (Passes.one_more p found t1 u q go a) in
        (m, d', t', p', subst (Ends m d' t') (sym (loop_goes_on u a)) e)
    handled s (raised e, u) p a next =
        (suc n, d, t, p, subst (Ends (suc n) d t) (sym (loop_fails e u a)) (Ends.not_handled q a))

  module _ (n d : ℕ) (t : S) where
    loop_settles :
        (u : S)
        → not_pending t ≡ (returned true, u)
        → nat_eq (suc n) 5 ≡ false
        → loop (suc n) d t ≡ (returned tt, u)
    unfolding retry_pending
    loop_settles u q k = ground arith

    loop_not_asked :
        (e : Exception) (u : S) → not_pending t ≡ (raised e, u) → loop (suc n) d t ≡ (raised e, u)
    unfolding retry_pending
    loop_not_asked e u q = ground arith

    -- The same, by what the question gave
    asked :
        (s : S) (o : Outcome Bool × S)
        → suc n ≤ 5
        → Passes 5 3 s (suc n) d t
        → not_pending t ≡ o
        → ((u : S) → Passes 5 3 s n (d * 3) u → Ended s (loop n (d * 3) u))
        → Ended s (loop (suc n) d t)
    asked s (raised e, u) k p q next =
        (suc n, d, t, p, subst (Ends (suc n) d t) (sym (loop_not_asked e u q)) (Ends.not_asked q))
    asked s (returned false, u) k p q next =
        handled n d t u false q refl s (again (d * 3) u) p refl next
    asked s (returned true, u) k p q next = elim (Bool-cases (nat_eq (suc n) 5)) [
      | inl first ↦ handled n d t u true q (rw first) s (again (d * 3) u) p refl next
      | inr later ↦ (
        suc n,
        d,
        t,
        p,
        subst (Ends (suc n) d t) (sym (loop_settles u q later)) (Ends.settled q (ground arith)),
      )
    ]

  loop-Ended : (n d : ℕ) (s t : S) → n ≤ 5 → Passes 5 3 s n d t → Ended s (loop n d t)
  unfolding retry_pending
  loop-Ended zero d s t k p = (zero, d, t, p, Ends.gave_up)
  loop-Ended (suc n) d s t k p =
      asked n d t s (not_pending t) k p refl (λ u p'. loop-Ended n (d * 3) s u (omega arith) p')

  -- The thread of a pending definition always ends, after at most five passes: where the definition is gone
  -- or Ready when it is asked for again, where a call raises, or after the fifth pass with the phase Error,
  -- whatever the definition is then.
  pub define_host_using_exponential_backoff-Ends :
      (s : S)
      → (m : ℕ) × (d : ℕ) × (t : S) × Passes 5 3 s m d t
        × Ends m d t (
            define_host_using_exponential_backoff cluster dynamic_node_labeling allow_delete info s)
  unfolding define_host_using_exponential_backoff
  define_host_using_exponential_backoff-Ends s = loop-Ended 5 3 s s (omega arith) Passes.no_pass

  loop-Passes : {s t : S} {m d : ℕ} → Passes 5 3 s m d t → loop 5 3 s ≡ loop m d t
  loop-Passes Passes.no_pass = refl
  loop-Passes (Passes.one_more {m} {d} {t} p found t1 u q go a) =
      loop-Passes p ∙ loop_goes_on m d t t1 found q go u a

  -- After a fifth pass the phase is set to Error, also where this pass made the definition Ready.
  pub fifth_pass :
      (s t t1 u : S) (d : ℕ) (found : Bool)
      → Passes 5 3 s 1 d t
      → not_pending t ≡ (returned found, t1)
      → found ≡ false
      → again (d * 3) t1 ≡ (returned tt, u)
      → define_host_using_exponential_backoff cluster dynamic_node_labeling allow_delete info s
        ≡ set_host_definition_phase_to_error cluster dynamic_node_labeling allow_delete info u
  unfolding define_host_using_exponential_backoff retry_pending
  fifth_pass s t t1 u d found p q f a = loop-Passes (Passes.one_more p found t1 u q (rw f) a)

-- The first pass never ends the loop.
first_pass : (found : Bool) → (found && not (nat_eq 5 5)) ≡ false
first_pass true = refl
first_pass false = refl

module _ {S : Type 0} (cluster : Cluster S) (dynamic_node_labeling allow_delete : Option String)
    (info : HostDefinitionInfo) where
  asks :
      (s t : S) (ds : List HostDefinitionInfo)
      → cluster.get_k8s_host_definitions s ≡ (returned ds, t)
      → not_pending cluster dynamic_node_labeling allow_delete info s
        ≡ (returned (is_settled (first_matching info ds)), t)
  unfolding is_host_definition_not_pending get_matching_host_definition_info
  asks s t ds h = ground arith

  module _ (s s1 s2 s3 s4 s5 s6 s7 : S) (request : DefineHostRequest)
      (response : DefineHostResponse)
      (managed : is_node_should_be_managed_on_secret cluster dynamic_node_labeling allow_delete
          info.node_name info.secret_name info.secret_namespace s1
        ≡ (returned true, s2))
      (requested : cluster.get_request_from_host_definition info s2 ≡ (returned (some request), s3))
      (defined : cluster.define_host request s3 ≡ (returned response, s4))
      (patched : cluster.patch_host_definition info.name response s4 ≡ (returned tt, s5)) where
    ensures :
        ensure_definition_state cluster dynamic_node_labeling allow_delete info cluster.define_host
          s2
        ≡ (returned response, s4)
    unfolding ensure_definition_state
    ensures = ground arith

    defines :
        define_host_after_pending cluster dynamic_node_labeling allow_delete info s1
        ≡ (returned response, s5)
    unfolding define_host_after_pending
    defines = ground (arith, ensures)

    module _ (creation : (info.phase == pending_creation_phase) ≡ true)
        (no_failure : response.failure ≡ none)
        (ready : cluster.set_host_definition_status info.name "Ready" s5 ≡ (returned tt, s6))
        (told : cluster.create_k8s_event info none "Define" s6 ≡ (returned tt, s7)) where
      readies :
          set_host_definition_status_to_ready cluster dynamic_node_labeling allow_delete info s5
          ≡ (returned tt, s7)
      unfolding set_host_definition_status_to_ready
      readies = ground arith

      handles :
          handle_pending_host_definition cluster dynamic_node_labeling allow_delete info s1
          ≡ (returned tt, s7)
      unfolding handle_pending_host_definition respond handle_message_from_storage
      handles = ground (arith, defines, readies)

      -- A definition in the phase PendingCreation, of a node that the secret manages and for which a request
      -- can be made: the service is asked once to define it, and where it does so without a failure, the
      -- definition is patched with its answer, set to Ready, and an event made; after a pause of nine seconds
      -- the thread ends, if the definition is then gone or still Ready.
      pub define_host_using_exponential_backoff-creates :
          (t u : S) (before after : List HostDefinitionInfo)
          → cluster.get_k8s_host_definitions s ≡ (returned before, s1)
          → cluster.sleep 9 s7 ≡ (returned tt, t)
          → cluster.get_k8s_host_definitions t ≡ (returned after, u)
          → is_settled (first_matching info after) ≡ true
          → define_host_using_exponential_backoff cluster dynamic_node_labeling allow_delete info s
            ≡ (returned tt, u)
      unfolding define_host_using_exponential_backoff try_again
      define_host_using_exponential_backoff-creates t u before after first slept second is_ready =
          let found = is_settled (first_matching info before) in
          let a : again cluster dynamic_node_labeling allow_delete info 9 s1 ≡ (returned tt, t) =
            ground (arith, handles) in
          loop_goes_on cluster dynamic_node_labeling allow_delete info 4 3 s s1 found
            (asks s s1 before first) (first_pass found) t a
          ∙ loop_settles cluster dynamic_node_labeling allow_delete info 3 9 t u
              (asks t u after second ∙ ap (λ b. (returned b, u)) is_ready) refl

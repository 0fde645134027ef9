-- ===== src/Arrays/Mapping.antt =====
-- controllers/array_action/array_mediator_abstract.py: mapping a volume to the host of some
-- initiators, unmapping it, and copying a source into a new volume. `retry` is a third party's:
-- `Retry` states what its documentation says.
pub mod Exclusive
pub mod Luns
pub mod Rollback
use ibm_block_csi_driver.Prelude.{
  ℕ, zero, suc, ◌-◌, ◌≡◌, Bool, true, false, not, ◌&&◌, Option, none, some, String, List, [], ◌∷◌,
  Dict, length, is_empty, ltb, leb, nat_eq, ◌==◌, if◌then◌else◌,
}
use ibm_block_csi_driver.Errors.{Exception}
use ibm_block_csi_driver.Outcome.{Outcome, returned, raised}
use ibm_block_csi_driver.Exec.{Exec, pure, raise, raise_if, lift, attempt, try_except, ◌>>=◌, ◌>>◌}
use ibm_block_csi_driver.Requests.Ids.{ObjectType}
use ibm_block_csi_driver.Requests.Nodes.{
  Initiators, contains_initiators, choose_connectivity_type, nvme_over_fc, fibre_channel, iscsi,
}
use ibm_block_csi_driver.Arrays.Mediator.{
  ArrayMediator, ArrayInitiators, ports, targets, Volume, ArrayObject, as_volume, Host,
}
use ibm_block_csi_driver.Arrays.Nguid.{convert_scsi_id_to_nguid}

-- `@retry(exceptions, tries)`: a call is made again while it raises one of the exceptions and tries are
-- left; what the last try raises is raised.
pub record Retry (S : Type 0) : Type 1 where
  pub call : {A : Type 0} → (Exception → Bool) → ℕ → Exec S A → Exec S A
  pub call-returned :
      (A : Type 0) (p : Exception → Bool) (n : ℕ) (m : Exec S A) (s t : S) (a : A)
      → m s ≡ (returned a, t)
      → call p (suc n) m s ≡ (returned a, t)
  pub call-other :
      (A : Type 0) (p : Exception → Bool) (n : ℕ) (m : Exec S A) (s t : S) (e : Exception)
      → m s ≡ (raised e, t)
      → p e ≡ false
      → call p (suc n) m s ≡ (raised e, t)
  pub call-again :
      (A : Type 0) (p : Exception → Bool) (n : ℕ) (m : Exec S A) (s t : S) (e : Exception)
      → m s ≡ (raised e, t)
      → p e ≡ true
      → call p (suc (suc n)) m s ≡ call p (suc n) m t
  pub call-last :
      (A : Type 0) (p : Exception → Bool) (m : Exec S A) (s t : S) (e : Exception)
      → m s ≡ (raised e, t)
      → call p 1 m s ≡ (raised e, t)

-- `except NoConnectionAvailableException`, `except LunAlreadyInUseError`, `except Exception`
abbrev pub is_no_connection : Exception → Bool
is_no_connection Exception.no_connection_available = true
is_no_connection _ = false

abbrev pub is_lun_in_use : Exception → Bool
is_lun_in_use Exception.lun_already_in_use = true
is_lun_in_use _ = false

abbrev pub any_exception : Exception → Bool
any_exception e = true

-- `if not array_initiators`
abbrev no_array_initiators : ArrayInitiators → Bool
no_array_initiators (ports ps) = is_empty ps
no_array_initiators (targets ts) = is_empty ts

-- A LUN, the connectivity type and how to reach the array.
abbrev pub Mapped : Type 0
Mapped = String × Option String × ArrayInitiators

module _ {S : Type 0} (m : ArrayMediator S) where
  -- `_get_array_initiators`
  unfoldable pub get_array_initiators : String → Option String → Exec S ArrayInitiators
  get_array_initiators host_name none = raise Exception.unsupported_connectivity_type
  get_array_initiators host_name (some t) =
      if t == nvme_over_fc
      then (do ps ← m.get_nvme_target_ports; pure (ports ps))
      else if t == fibre_channel
      then (do ps ← m.get_array_fc_wwns host_name; pure (ports ps))
      else if t == iscsi
      then (do ts ← m.get_iscsi_targets_by_iqn host_name; pure (targets ts))
      else raise Exception.unsupported_connectivity_type

  -- The loop over the mappings: the first host whose initiators are among those asked for.
  unfoldable pub find_mapping : Initiators → Dict String → Exec S (Option Mapped)
  find_mapping initiators [] = pure none
  find_mapping initiators ((host_name, lun) ∷ mappings) = do
    host ← m.get_host_by_name host_name
    let next = find_mapping initiators mappings
    let found = do
      let t = choose_connectivity_type host.connectivity_types
      array_initiators ← get_array_initiators host.name t
      pure (some (lun, t, array_initiators))
    if contains_initiators initiators host.initiators then found else next

  -- The `for … else` over the tries that are left, after the first LUN was in use.
  unfoldable pub retry_luns : ℕ → Exec S String → Exec S String
  retry_luns zero map_once = raise Exception.lun_already_in_use
  retry_luns (suc n) map_once = do
    r ← attempt map_once
    let again = retry_luns n map_once
    elim r [ returned lun ↦ pure lun | raised e ↦ if is_lun_in_use e then again else raise e ]

  unfoldable pub map_with_retries : Exec S String → Exec S String
  unfolding retry_luns
  map_with_retries map_once =
      try_except map_once
        (λ e. if is_lun_in_use e then retry_luns (m.max_lun_retries - 1) map_once else raise e)

  -- The part of `map_volume_by_initiators` for a volume that is not mapped to the host yet.
  unfoldable pub map_to_host : String → Initiators → Exec S Mapped
  unfolding map_with_retries
  map_to_host vol_id initiators = do
    host ← m.get_host_by_host_identifiers initiators
    let t = choose_connectivity_type host.1
    array_initiators ← get_array_initiators host.0 t
    raise_if (no_array_initiators array_initiators) Exception.no_iscsi_targets_found
    lun ← map_with_retries (m.map_volume vol_id host.0 t)
    pure (lun, t, array_initiators)

  -- One try of `map_volume_by_initiators`
  unfoldable pub map_once : String → Initiators → Bool → Exec S Mapped
  map_once vol_id initiators exclusive_access = do
    mappings ← m.get_volume_mappings vol_id
    raise_if (exclusive_access && ltb 1 (length mappings))
        Exception.volume_already_mapped_to_different_hosts
    found ← find_mapping initiators mappings
    let map_it = do
      raise_if (exclusive_access && nat_eq (length mappings) 1)
          Exception.volume_already_mapped_to_different_hosts
      map_to_host vol_id initiators
    elim found [ some mapped ↦ pure mapped | none ↦ map_it ]

  -- One try of `unmap_volume_by_initiators`
  unfoldable pub unmap_once : String → Initiators → Exec S (Unit {0})
  unmap_once vol_id initiators = do
    host ← m.get_host_by_host_identifiers initiators
    let is_nvme : Bool = elim (choose_connectivity_type host.1) [
      | none ↦ false
      | some t ↦ t == nvme_over_fc
    ]
    m.unmap_volume (if is_nvme then convert_scsi_id_to_nguid vol_id else vol_id) host.0

module _ {S : Type 0} (retry : Retry S) (m : ArrayMediator S) where
  unfoldable pub map_volume_by_initiators : String → Initiators → Bool → Exec S Mapped
  map_volume_by_initiators vol_id initiators exclusive_access =
      retry.call is_no_connection 11 (map_once m vol_id initiators exclusive_access)

  unfoldable pub unmap_volume_by_initiators : String → Initiators → Exec S (Unit {0})
  unmap_volume_by_initiators vol_id initiators =
      retry.call is_no_connection 11 (unmap_once m vol_id initiators)

  -- `_rollback_create_volume_from_source`
  unfoldable pub rollback : Option String → Exec S (Unit {0})
  rollback volume_id = retry.call any_exception 5 (m.delete_volume volume_id none)

  -- The `try` block of `copy_to_existing_volume_from_source`
  unfoldable pub copy_from_source :
      Option String → String → Option ObjectType → ℕ → Exec S (Unit {0})
  copy_from_source volume_id source_id source_type minimum_volume_size = do
    source ← m.get_object_by_id (some source_id) source_type false
    let missing = do rollback volume_id; raise Exception.object_not_found
    let copy = λ (o : ArrayObject). do
      v ← as_volume o
      m.copy_to_existing_volume volume_id source_id v.capacity_bytes minimum_volume_size
    elim source [ none ↦ missing | some o ↦ copy o ]

  -- Both handlers roll back and raise the exception again.
  unfoldable pub copy_to_existing_volume_from_source :
      Option String → String → Option ObjectType → ℕ → Exec S (Unit {0})
  unfolding copy_from_source
  copy_to_existing_volume_from_source volume_id source_id source_type minimum_volume_size =
      try_except (copy_from_source volume_id source_id source_type minimum_volume_size)
        (λ e. do rollback volume_id; raise e)

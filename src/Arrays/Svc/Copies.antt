-- ===== src/Arrays/Svc/Copies.antt =====
-- controllers/array_action/array_mediator_svc.py: FlashCopy mappings, the volumes that they bind, and
-- snapshots. Which exceptions are a `StorageArrayClientException` is the package's: an argument, as is
-- what `pop` takes from a set of several names.
use ibm_block_csi_driver.Prelude.{
  ℕ, ◌-◌, Bool, true, false, not, ◌&&◌, ◌||◌, Option, none, some, String, List, [], ◌∷◌, any, ltb,
  truthy, truthy?, ◌==◌, if◌then◌else◌,
}
use ibm_block_csi_driver.Errors.{Exception}
use ibm_block_csi_driver.Exec.{Exec, pure, raise, raise_if, when, ◌>>=◌, ◌>>◌}
use ibm_block_csi_driver.Arrays.Mapping.{Retry}
use ibm_block_csi_driver.Arrays.Svc.{
  text, number, flag, CliVolume, Fcmap, SvcClient, has, except_cli, unless_warning, reraise,
  get_cli_volume, get_cli_volume_if_exists, get_cli_volume_by_wwn, get_volume_name_by_wwn,
  get_fcmap_as_target_if_exists, get_fcmaps_as_source_if_exist, is_in_remote_copy_relationship,
}
use ibm_block_csi_driver.Arrays.Svc.Kwargs.{get_cli_volume_space_efficiency_aliases}
use ibm_block_csi_driver.Arrays.Svc.Volumes.{
  convert_size_bytes, create_cli_volume, rmvolume, expand_cli_volume, change_volume_size,
}

-- A mapping that still copies, or whose copy never ends, is in use; one that a remote copy controls is
-- left alone.
unfoldable pub in_use : Fcmap → Bool
in_use f =
    not (is_in_remote_copy_relationship f)
    && (not (f.status == "idle_or_copied") || f.copy_rate == "0")

unfoldable pub to_delete : Fcmap → Bool
to_delete f =
    not (is_in_remote_copy_relationship f)
    && not (not (f.status == "idle_or_copied") || f.copy_rate == "0")

module _ {S : Type 0} (client : SvcClient S) where
  -- A refusal that names the code is as good as done.
  abbrev unless_code : String → String → Exec S (Unit {0})
  unless_code code message = if has message code then pure tt else reraise message

  -- `_create_fcmap`
  unfoldable pub create_fcmap : String → String → Bool → Exec S (Unit {0})
  create_fcmap source target is_copy =
      except_cli
        (client.svctask "mkfcmap" (
          ("source", text source)
          ∷ ("target", text target)
          ∷ (if is_copy then [] else ("copyrate", number 0) ∷ [])))
        (unless_warning tt (unless_code "CMMVC6466E"))

  -- `_start_fcmap`
  unfoldable pub start_fcmap : String → Exec S (Unit {0})
  start_fcmap fcmap_id =
      except_cli
        (client.svctask "startfcmap" (("prep", flag true) ∷ ("object_id", text fcmap_id) ∷ []))
        (unless_warning tt (unless_code "CMMVC5907E"))

  -- `_create_and_start_fcmap`
  unfoldable pub create_and_start_fcmap : String → String → Bool → Exec S CliVolume
  unfolding create_fcmap start_fcmap get_cli_volume
  create_and_start_fcmap source target is_copy = do
    create_fcmap source target is_copy
    v ← get_cli_volume client target
    start_fcmap v.fc_id
    pure v

  -- `_delete_fcmap`
  unfoldable pub delete_fcmap : String → Bool → Exec S (Unit {0})
  delete_fcmap fcmap_id force =
      except_cli
        (client.svctask "rmfcmap" (("object_id", text fcmap_id) ∷ ("force", flag force) ∷ []))
        (unless_warning tt reraise)

  -- `_stop_fcmap`
  unfoldable pub stop_fcmap : String → Exec S (Unit {0})
  stop_fcmap fcmap_id =
      except_cli (client.svctask "stopfcmap" (("object_id", text fcmap_id) ∷ []))
        (unless_warning tt (unless_code "CMMVC5912E"))

  -- `_safe_stop_and_delete_fcmap`
  unfoldable pub safe_stop_and_delete_fcmap : Fcmap → Exec S (Unit {0})
  unfolding stop_fcmap delete_fcmap
  safe_stop_and_delete_fcmap f =
      when (not (is_in_remote_copy_relationship f)) (stop_fcmap f.id >> delete_fcmap f.id true)

  -- The last loop of `_safe_delete_fcmaps`, over all mappings but those that it left out
  unfoldable pub delete_fcmaps : List Fcmap → Exec S (Unit {0})
  unfolding to_delete delete_fcmap
  delete_fcmaps [] = pure tt
  delete_fcmaps (f ∷ fs) = when (to_delete f) (delete_fcmap f.id false) >> delete_fcmaps fs

  -- `_safe_delete_fcmaps`
  unfoldable pub safe_delete_fcmaps : List Fcmap → Exec S (Unit {0})
  unfolding in_use delete_fcmaps
  safe_delete_fcmaps fs =
      if any in_use fs then raise Exception.object_is_still_in_use else delete_fcmaps fs

  -- `if fcmap_as_target: all_fcmaps.append(fcmap_as_target)`
  abbrev with_target : Option Fcmap → List Fcmap → List Fcmap
  with_target none fs = fs
  with_target (some f) fs = f ∷ fs

  -- `_get_object_fcmaps`
  unfoldable pub get_object_fcmaps : String → Exec S (List Fcmap)
  unfolding get_fcmap_as_target_if_exists get_fcmaps_as_source_if_exist
  get_object_fcmaps name = do
    as_target ← get_fcmap_as_target_if_exists client name
    as_source ← get_fcmaps_as_source_if_exist client name
    pure (with_target as_target as_source)

  unfoldable pub expand_by_fcmaps : CliVolume → ℕ → Exec S (Unit {0})
  unfolding get_object_fcmaps safe_delete_fcmaps expand_cli_volume
  expand_by_fcmaps v increase = do
    fcmaps ← get_object_fcmaps v.name
    safe_delete_fcmaps fcmaps
    expand_cli_volume client v increase (any is_in_remote_copy_relationship fcmaps)

  -- `expand_volume`
  unfoldable pub expand_volume : String → ℕ → Option String → Exec S (Unit {0})
  unfolding convert_size_bytes get_cli_volume_by_wwn expand_by_fcmaps
  expand_volume volume_id required_bytes partition_name = do
    v ← get_cli_volume_by_wwn client volume_id
    let final_size = convert_size_bytes required_bytes
    raise_if (ltb final_size v.capacity) Exception.invalid_argument
    if truthy? partition_name
        then change_volume_size client v final_size
        else expand_by_fcmaps v (final_size - v.capacity)

  abbrev stop_target : Option Fcmap → Exec S (Unit {0})
  stop_target none = pure tt
  stop_target (some f) = safe_stop_and_delete_fcmap f

  abbrev missing : Option Fcmap → Bool
  missing none = true
  missing (some f) = false

  -- What `_delete_volume` does first, but for a volume of a partition
  unfoldable pub release_fcmaps : CliVolume → Bool → Exec S (Unit {0})
  unfolding safe_delete_fcmaps safe_stop_and_delete_fcmap get_fcmap_as_target_if_exists
      get_fcmaps_as_source_if_exist
  release_fcmaps v is_snapshot = do
    raise_if (is_snapshot && not (truthy v.fc_id)) Exception.object_not_found
    as_target ← get_fcmap_as_target_if_exists client v.name
    raise_if (is_snapshot && missing as_target) Exception.object_not_found
    as_source ← get_fcmaps_as_source_if_exist client v.name
    safe_delete_fcmaps as_source
    stop_target as_target

  -- `_delete_volume`
  unfoldable pub delete_object : String → Bool → Bool → Exec S (Unit {0})
  unfolding release_fcmaps get_cli_volume_by_wwn rmvolume
  delete_object volume_id is_snapshot is_partition = do
    v ← get_cli_volume_by_wwn client volume_id
    when (not is_partition) (release_fcmaps v is_snapshot)
    rmvolume client v.name true

  abbrev is_given : Option String → Bool
  is_given none = false
  is_given (some p) = true

  -- `delete_volume`
  unfoldable pub delete_volume : String → Option String → Exec S (Unit {0})
  unfolding delete_object
  delete_volume volume_id partition_name =
      client.register_plugin "basic" >> delete_object volume_id false (is_given partition_name)

  -- `_delete_unstarted_fcmap_if_exists`
  unfoldable pub delete_unstarted_fcmap_if_exists : String → Exec S (Option CliVolume)
  unfolding delete_fcmap get_cli_volume_if_exists
  delete_unstarted_fcmap_if_exists name = get_cli_volume_if_exists client name >>= λ v. elim v [
    | none ↦ pure none
    | some w ↦ when (truthy w.fc_id) (delete_fcmap w.fc_id false) >> pure (some w)
  ]

  -- `_delete_target_volume_if_exists`
  unfoldable pub delete_target_volume_if_exists : Option CliVolume → Exec S (Unit {0})
  unfolding rmvolume
  delete_target_volume_if_exists none = pure tt
  delete_target_volume_if_exists (some v) = rmvolume client v.name false

  -- `_rollback_create_snapshot` and `_rollback_copy_to_target_volume`, without their `@retry`
  unfoldable pub rollback_create_snapshot : String → Exec S (Unit {0})
  unfolding delete_unstarted_fcmap_if_exists delete_target_volume_if_exists
  rollback_create_snapshot name =
      delete_unstarted_fcmap_if_exists name >>= delete_target_volume_if_exists

  unfoldable pub rollback_copy_to_target_volume : String → Exec S (Unit {0})
  unfolding delete_unstarted_fcmap_if_exists
  rollback_copy_to_target_volume name = delete_unstarted_fcmap_if_exists name >>= λ _. pure tt

  module _ (retry : Retry S) (is_client_error : Exception → Bool) (pop : List String → String) where
    -- The handler of `_copy_to_target_volume` and of `_create_snapshot`: roll back, raise again.
    abbrev pub after_rollback : Exec S (Unit {0}) → String → Exec S CliVolume
    after_rollback rollback message = retry.call is_client_error 5 rollback >> reraise message

    -- `_copy_to_target_volume`
    unfoldable pub copy_to_target_volume : String → String → Exec S CliVolume
    unfolding create_and_start_fcmap rollback_copy_to_target_volume
    copy_to_target_volume target source =
        except_cli (create_and_start_fcmap source target true)
          (after_rollback (rollback_copy_to_target_volume target))

    -- `copy_to_existing_volume`; the sizes are not used.
    unfoldable pub copy_to_existing_volume : String → String → ℕ → ℕ → Exec S (Unit {0})
    unfolding copy_to_target_volume get_volume_name_by_wwn
    copy_to_existing_volume volume_id source_id source_capacity minimum_size = do
      source ← get_volume_name_by_wwn client source_id
      target ← get_volume_name_by_wwn client volume_id
      copy_to_target_volume target source
      pure tt

    -- `_create_similar_volume`
    unfoldable pub create_similar_volume :
        CliVolume → String → Option String → String → Exec S (Unit {0})
    unfolding create_cli_volume get_cli_volume_space_efficiency_aliases
    create_similar_volume source target space_efficiency pool =
        let efficiency =
          if truthy? space_efficiency
          then space_efficiency
          else some (pop (get_cli_volume_space_efficiency_aliases source)) in
        create_cli_volume client target source.capacity efficiency pool (some source.io_group_name)
          none

    -- `_create_snapshot`
    unfoldable pub create_snapshot : String → CliVolume → Option String → String → Exec S CliVolume
    unfolding create_similar_volume create_and_start_fcmap rollback_create_snapshot
    create_snapshot target source space_efficiency pool =
        except_cli
          (create_similar_volume source target space_efficiency pool
            >> create_and_start_fcmap source.name target false)
          (after_rollback (rollback_create_snapshot target))

-- ===== src/Arrays/Ds8k/Snapshots.antt =====
-- controllers/array_action/array_mediator_ds8k.py: FlashCopy relationships and the snapshots that they make.
use ibm_block_csi_driver.Prelude.{
  ℕ, Bool, true, false, not, Option, none, some, String, List, [], ◌∷◌, ◌++◌, ltb, truthy?, ◌==◌,
  if◌then◌else◌,
}
use ibm_block_csi_driver.Errors.{Exception, Ds8kError}
use ibm_block_csi_driver.Exec.{Exec, pure, raise, raise_if, when, lift, try_except, ◌>>=◌, ◌>>◌}
use ibm_block_csi_driver.Requests.Ids.{ObjectType}
use ibm_block_csi_driver.Arrays.Mediator.{Snapshot, ArrayObject}
use ibm_block_csi_driver.Arrays.Mapping.{Retry}
use ibm_block_csi_driver.Arrays.VolumeCache
use ibm_block_csi_driver.Arrays.VolumeCache.{Cache}
use ibm_block_csi_driver.Arrays.Ds8k.{
  ApiVolume, Ds8kTypes, Ds8kClient, has, except_client, reraise, scsi_id_to_volume_id, is_snapshot,
  get_array_space_efficiency, generate_volume_response, generate_snapshot_response,
  generate_snapshot_response_with_verification,
}
use ibm_block_csi_driver.Arrays.Ds8k.Volumes.{
  on_array, write_cache, there, get_api_volume_by_id, read_api_volume_by_id,
  get_api_volume_with_cache, create_api_volume, delete_api_volume, delete_flashcopy, extend_volume,
}

-- `except (ObjectNotFoundError, SnapshotAlreadyExists)`
unfoldable pub is_rolled_back : Exception → Bool
is_rolled_back Exception.object_not_found = true
is_rolled_back Exception.snapshot_already_exists = true
is_rolled_back e = false

module _ {S : Type 0} (client : Ds8kClient S) (types : Ds8kTypes) where
  flashcopy_error : Ds8kError → String → Exec S String
  flashcopy_error kind message =
      if has message "000000AE"
      then raise Exception.snapshot_already_exists
      else if has message "00000013"
      then raise Exception.object_not_found
      else reraise kind message

  -- `get_flashcopy_state`
  unfoldable pub get_flashcopy_state : String → Exec S String
  get_flashcopy_state id = client.get_flashcopies id >>= λ process. pure process.state

  -- `_create_flashcopy`: a relationship that is not valid is deleted again.
  unfoldable pub create_flashcopy : String → String → List String → Exec S (Option ApiVolume)
  unfolding flashcopy_error get_flashcopy_state delete_flashcopy get_api_volume_by_id
  create_flashcopy source target options = do
    id ←
        except_client (client.create_flashcopy source target (options ++ types.option_pset ∷ []))
          flashcopy_error
    state ← get_flashcopy_state id
    when (not (state == "valid")) (delete_flashcopy client id >> raise Exception.value_error)
    get_api_volume_by_id client target true

  -- `copy_to_existing_volume`
  unfoldable pub copy_to_existing_volume : String → String → ℕ → ℕ → Exec S (Unit {0})
  unfolding scsi_id_to_volume_id read_api_volume_by_id extend_volume create_flashcopy
  copy_to_existing_volume volume_id source_id source_capacity minimum_size = do
    let target = scsi_id_to_volume_id volume_id
    when (ltb minimum_size source_capacity)
        (read_api_volume_by_id client target >>= λ v. extend_volume client v source_capacity)
    create_flashcopy (scsi_id_to_volume_id source_id) target (types.option_per ∷ [])
    pure tt

  -- `_create_similar_volume`
  unfoldable pub create_similar_volume :
      String → ApiVolume → Option String → Option String → Exec S ApiVolume
  unfolding get_array_space_efficiency create_api_volume
  create_similar_volume name source space_efficiency pool =
      let tp =
        if truthy? space_efficiency
        then get_array_space_efficiency types space_efficiency
        else source.tp in
      let target_pool : String = elim pool [
        | none ↦ source.pool
        | some p ↦ if truthy? (some p) then p else source.pool
      ] in
      create_api_volume client name source.cap tp target_pool

  module _ (retry : Retry S) where
    -- `_delete_target_volume_if_exist`, tried eleven times
    unfoldable pub delete_target_volume_if_exist : String → Exec S (Unit {0})
    unfolding delete_api_volume
    delete_target_volume_if_exist id = retry.call (λ e. true) 11 (delete_api_volume client id false)

    roll_back : String → Exception → Exec S (Option ApiVolume)
    unfolding is_rolled_back delete_target_volume_if_exist
    roll_back id e = when (is_rolled_back e) (delete_target_volume_if_exist id) >> raise e

    -- `_create_snapshot`
    unfoldable pub create_target :
        String → ApiVolume → Option String → Option String → Exec S (Option ApiVolume)
    unfolding create_similar_volume create_flashcopy roll_back
    create_target name source space_efficiency pool = do
      target ← create_similar_volume name source space_efficiency pool
      try_except (create_flashcopy source.id target.id (types.option_nbc ∷ types.option_per ∷ []))
          (roll_back target.id)

    module _ (address wwnn : String) where
      -- `create_snapshot`
      unfoldable pub create_snapshot :
          String → String → Option String → Option String → Exec (S × Cache) Snapshot
      unfolding scsi_id_to_volume_id get_api_volume_by_id create_target generate_snapshot_response
          VolumeCache.add
      create_snapshot volume_id name space_efficiency pool = do
        let id = scsi_id_to_volume_id volume_id
        found ← on_array (get_api_volume_by_id client id true)
        source ← on_array (there Exception.object_not_found found)
        made ← on_array (create_target name source space_efficiency pool)
        v ← on_array (there Exception.attribute_error made)
        write_cache (VolumeCache.add address v.name v.id)
        pure (generate_snapshot_response types address wwnn v id)

  module _ (address wwnn : String) where
    abbrev snapshot_found : Option ApiVolume → Exec (S × Cache) (Option Snapshot)
    unfolding is_snapshot generate_snapshot_response_with_verification VolumeCache.add_or_delete
    snapshot_found none = pure none
    snapshot_found (some v) = do
      raise_if (not (is_snapshot v)) Exception.expected_snapshot_but_found_volume
      write_cache (VolumeCache.add_or_delete address v.name v.id)
      p ← lift (generate_snapshot_response_with_verification types address wwnn v)
      pure (some p)

    abbrev pool_of : String → Option String → Exec S (Option String)
    unfolding scsi_id_to_volume_id read_api_volume_by_id
    pool_of volume_id pool =
        if truthy? pool
        then pure pool
        else (read_api_volume_by_id client (scsi_id_to_volume_id volume_id) >>= λ v.
            pure (some v.pool))

    -- `get_snapshot`, with `_get_api_snapshot`
    unfoldable pub get_snapshot :
        String → String → Option String → Exec (S × Cache) (Option Snapshot)
    unfolding get_api_volume_with_cache snapshot_found pool_of
    get_snapshot volume_id name pool = do
      p ← on_array (pool_of volume_id pool)
      found ← get_api_volume_with_cache client address name p
      snapshot_found found

    abbrev object_of : ObjectType → Option ApiVolume → Exec S (Option ArrayObject)
    unfolding generate_snapshot_response_with_verification generate_volume_response
    object_of t none = pure none
    object_of ObjectType.snapshot (some v) =
        lift (generate_snapshot_response_with_verification types address wwnn v) >>= λ p.
        pure (some (ArrayObject.snapshot_object p))
    object_of t (some v) = lift (generate_volume_response types address wwnn v) >>= λ u.
        pure (some (ArrayObject.volume_object u))

    -- `get_object_by_id`
    unfoldable pub get_object_by_id : String → ObjectType → Exec S (Option ArrayObject)
    unfolding scsi_id_to_volume_id get_api_volume_by_id object_of
    get_object_by_id object_id t =
        get_api_volume_by_id client (scsi_id_to_volume_id object_id) false >>= object_of t

-- ===== src/Arrays/Ds8k/Volumes.antt =====
-- controllers/array_action/array_mediator_ds8k.py: volumes found, through the cache of their ids too, created,
-- enlarged, copied and deleted. A call that uses the cache has it beside the state of the array; its
-- key is the address of the array.
use ibm_block_csi_driver.Prelude.{
  ℕ, Bool, true, false, not, ◌&&◌, ◌||◌, Option, none, some, String, List, [], ◌∷◌, truthy?, ◌==◌,
  if◌then◌else◌,
}
use ibm_block_csi_driver.Errors.{Exception, Ds8kError}
use ibm_block_csi_driver.Exec.{Exec, pure, raise, raise_if, lift, ◌>>=◌, ◌>>◌}
use ibm_block_csi_driver.Arrays.Mediator.{Volume}
use ibm_block_csi_driver.Arrays.VolumeCache
use ibm_block_csi_driver.Arrays.VolumeCache.{Cache}
use ibm_block_csi_driver.Arrays.Ds8k.{
  Flashcopy, ApiVolume, Ds8kTypes, Ds8kClient, has, except_client, not_found_or, reraise,
  scsi_id_to_volume_id, get_flashcopy_as_target_if_exists, get_array_space_efficiency,
  generate_volume_response, is_snapshot,
}

module _ {S A : Type 0} where
  -- A call that leaves the cache alone
  abbrev pub on_array : Exec S A → Exec (S × Cache) A
  on_array m (s, cache) = let (r, t) = m s in (r, (t, cache))

  -- A call of the cache
  abbrev pub on_cache : (Cache → A × Cache) → Exec (S × Cache) A
  on_cache f (s, cache) = let (a, c) = f cache in pure a (s, c)

abbrev pub write_cache : {S : Type 0} → (Cache → Cache) → Exec (S × Cache) (Unit {0})
write_cache f = on_cache (λ cache. (tt, f cache))

unfoldable pub flashcopies_as_source : String → List Flashcopy → List Flashcopy
flashcopies_as_source id [] = []
flashcopies_as_source id (f ∷ fs) =
    let rest = flashcopies_as_source id fs in if f.sourcevolume == id then f ∷ rest else rest

abbrev pub there : {S : Type 0} → Exception → Option ApiVolume → Exec S ApiVolume
there e none = raise e
there e (some v) = pure v

module _ {S : Type 0} (client : Ds8kClient S) where
  unfoldable pub with_flashcopies : ApiVolume → Exec S (Option ApiVolume)
  with_flashcopies v =
      client.get_flashcopies_by_volume v.id >>= λ fs. pure (some (record v { flashcopy = fs }))

  fetch_error : Bool → Ds8kError → String → Exec S (Option ApiVolume)
  fetch_error not_exist_err Ds8kError.not_found message =
      if not_exist_err then raise Exception.object_not_found else pure none
  fetch_error not_exist_err Ds8kError.other_error message = reraise Ds8kError.other_error message
  fetch_error not_exist_err kind message =
      if has message "BE7A0005" then raise Exception.invalid_argument else pure none

  -- `_get_api_volume_by_id`: none where the array fails otherwise, too
  unfoldable pub get_api_volume_by_id : String → Bool → Exec S (Option ApiVolume)
  unfolding with_flashcopies fetch_error
  get_api_volume_by_id id not_exist_err =
      except_client (client.get_volume id >>= with_flashcopies) (fetch_error not_exist_err)

  -- The same, where the code reads a field of what it found
  unfoldable pub read_api_volume_by_id : String → Exec S ApiVolume
  unfolding get_api_volume_by_id
  read_api_volume_by_id id = get_api_volume_by_id id true >>= there Exception.attribute_error

  -- `_get_api_volume_from_volumes`
  unfoldable pub get_api_volume_from_volumes : List ApiVolume → String → Exec S (Option ApiVolume)
  unfolding with_flashcopies
  get_api_volume_from_volumes [] name = pure none
  get_api_volume_from_volumes (v ∷ vs) name =
      let rest = get_api_volume_from_volumes vs name in
      if v.name == name then with_flashcopies v else rest

  unfoldable pub pool_error : {A : Type 0} → Ds8kError → String → Exec S A
  pool_error kind message =
      if has message "BE7A0001" || has message "BE7A0005"
      then raise Exception.pool_does_not_exist
      else reraise kind message

  -- `_get_api_volume_by_name`
  unfoldable pub get_api_volume_by_name : String → Option String → Exec S (Option ApiVolume)
  unfolding pool_error get_api_volume_from_volumes
  get_api_volume_by_name name none = raise Exception.pool_parameter_is_missing
  get_api_volume_by_name name (some pool) =
      except_client (client.get_volumes_by_pool pool) pool_error >>= λ vs.
      get_api_volume_from_volumes vs name

  abbrev pub cached_volume : Option String → Exec S (Option ApiVolume)
  unfolding get_api_volume_by_id
  cached_volume none = pure none
  cached_volume (some id) = if truthy? (some id) then get_api_volume_by_id id true else pure none

  -- Whether the volume with the id from the cache still has the name
  abbrev pub has_name : String → Option ApiVolume → Bool
  has_name name none = false
  has_name name (some v) = v.name == name

  unfoldable pub checked : String → Option String → Option ApiVolume → Exec S (Option ApiVolume)
  unfolding get_api_volume_by_name
  checked name pool found =
      if has_name name found then pure found else get_api_volume_by_name name pool

  abbrev extension_error : Ds8kError → String → Exec S (Unit {0})
  extension_error kind message =
      if has message "BE531465"
      then raise Exception.not_enough_space_in_pool
      else reraise kind message

  -- `_extend_volume`
  unfoldable pub extend_volume : ApiVolume → ℕ → Exec S (Unit {0})
  extend_volume v size =
      except_client (client.extend_volume v.id size)
        (not_found_or (raise Exception.object_not_found) extension_error)

  -- `_delete_volume`
  unfoldable pub delete_api_volume : String → Bool → Exec S (Unit {0})
  delete_api_volume id not_exist_err = except_client (client.delete_volume id) (
      not_found_or (raise_if not_exist_err Exception.object_not_found)
        (λ kind message. raise Exception.volume_deletion_error))

  -- `_delete_flashcopy`
  unfoldable pub delete_flashcopy : String → Exec S (Unit {0})
  delete_flashcopy id = except_client (client.delete_flashcopy id) reraise

  -- `_ensure_flashcopy_safe_to_delete`, with `_get_flashcopy_process`, whose errors are raised
  unfoldable pub ensure_flashcopy_safe_to_delete : Flashcopy → Exec S (Unit {0})
  ensure_flashcopy_safe_to_delete f = do
    process ← client.get_flashcopies f.id
    raise_if (f.backgroundcopy == "disabled") Exception.object_is_still_in_use
    raise_if (not (process.out_of_sync_tracks == "0")) Exception.object_is_still_in_use

  unfoldable pub ensure_all : List Flashcopy → Exec S (Unit {0})
  unfolding ensure_flashcopy_safe_to_delete
  ensure_all [] = pure tt
  ensure_all (f ∷ fs) = ensure_flashcopy_safe_to_delete f >> ensure_all fs

  unfoldable pub delete_all : List Flashcopy → Exec S (Unit {0})
  unfolding delete_flashcopy
  delete_all [] = pure tt
  delete_all (f ∷ fs) = delete_flashcopy f.id >> delete_all fs

  -- `_safe_delete_flashcopies`: none is deleted before all are found safe.
  unfoldable pub safe_delete_flashcopies : List Flashcopy → Exec S (Unit {0})
  unfolding ensure_all delete_all
  safe_delete_flashcopies fs = ensure_all fs >> delete_all fs

  -- `expand_volume`
  unfoldable pub expand_volume : String → ℕ → Exec S (Unit {0})
  unfolding scsi_id_to_volume_id read_api_volume_by_id safe_delete_flashcopies extend_volume
  expand_volume volume_id required_bytes = do
    v ← read_api_volume_by_id (scsi_id_to_volume_id volume_id)
    safe_delete_flashcopies v.flashcopy
    extend_volume v required_bytes

  creation_error : Ds8kError → String → Exec S ApiVolume
  creation_error kind message =
      if has message "BE7A0001" || has message "BE7A0005"
      then raise Exception.pool_does_not_exist
      else if has message "BE534459"
      then raise Exception.not_enough_space_in_pool
      else raise Exception.volume_creation_error

  -- `_create_api_volume`
  unfoldable pub create_api_volume : String → ℕ → String → String → Exec S ApiVolume
  unfolding creation_error
  create_api_volume name size tp pool =
      except_client (client.create_volume name size pool tp >>= λ v. client.get_volume v.id)
        creation_error

  module _ (address : String) where
    -- `_get_api_volume_with_cache`
    unfoldable pub get_api_volume_with_cache :
        String → Option String → Exec (S × Cache) (Option ApiVolume)
    unfolding get_api_volume_by_id checked VolumeCache.get
    get_api_volume_with_cache name pool = do
      id ← on_cache (VolumeCache.get address name)
      found ← on_array (cached_volume id)
      on_array (checked name pool found)

    module _ (types : Ds8kTypes) (wwnn : String) where
      unfoldable pub answered : Option ApiVolume → Exec (S × Cache) Volume
      unfolding generate_volume_response VolumeCache.add_or_delete
      answered none = raise Exception.object_not_found
      answered (some v) = do
        write_cache (VolumeCache.add_or_delete address v.name v.id)
        lift (generate_volume_response types address wwnn v)

      -- `get_volume`
      unfoldable pub get_volume : String → Option String → Exec (S × Cache) Volume
      unfolding get_api_volume_with_cache answered
      get_volume name pool = get_api_volume_with_cache name pool >>= answered

      -- `create_volume`
      unfoldable pub create_volume : String → ℕ → Option String → String → Exec (S × Cache) Volume
      unfolding create_api_volume get_array_space_efficiency generate_volume_response
          VolumeCache.add
      create_volume name size space_efficiency pool = do
        v ←
            on_array
              (create_api_volume name size (get_array_space_efficiency types space_efficiency) pool)
        write_cache (VolumeCache.add address v.name v.id)
        lift (generate_volume_response types address wwnn v)

    abbrev delete_target : Option Flashcopy → Exec S (Unit {0})
    unfolding delete_flashcopy
    delete_target none = pure tt
    delete_target (some f) = delete_flashcopy f.id

    -- What `_delete_object` does on the array: the name of the volume that is deleted
    unfoldable pub delete_on_array : String → Bool → Exec S String
    unfolding read_api_volume_by_id is_snapshot flashcopies_as_source safe_delete_flashcopies
        get_flashcopy_as_target_if_exists delete_api_volume
    delete_on_array id object_is_snapshot = do
      v ← read_api_volume_by_id id
      raise_if (object_is_snapshot && not (is_snapshot v)) Exception.object_not_found
      safe_delete_flashcopies (flashcopies_as_source v.id v.flashcopy)
      delete_target (get_flashcopy_as_target_if_exists v)
      delete_api_volume id true
      pure v.name

    -- `_delete_object`
    unfoldable pub delete_object : String → Bool → Exec (S × Cache) (Unit {0})
    unfolding delete_on_array VolumeCache.remove
    delete_object id object_is_snapshot = do
      name ← on_array (delete_on_array id object_is_snapshot)
      write_cache (VolumeCache.remove address name)

    -- `delete_volume` and `delete_snapshot`
    unfoldable pub delete_volume : String → Exec (S × Cache) (Unit {0})
    unfolding scsi_id_to_volume_id delete_object
    delete_volume volume_id = delete_object (scsi_id_to_volume_id volume_id) false

    unfoldable pub delete_snapshot : String → Exec (S × Cache) (Unit {0})
    unfolding scsi_id_to_volume_id delete_object
    delete_snapshot snapshot_id = delete_object (scsi_id_to_volume_id snapshot_id) true

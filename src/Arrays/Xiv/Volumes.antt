-- ===== src/Arrays/Xiv/Volumes.antt =====
-- controllers/array_action/array_mediator_xiv.py: volumes and snapshots.
use ibm_block_csi_driver.Prelude.{
  ℕ, Bool, false, not, ◌&&◌, Option, none, some, String, List, is_empty, finds, ltb, truthy, ◌==◌,
  if◌then◌else◌,
}
use ibm_block_csi_driver.Errors.{Exception, XcliError}
use ibm_block_csi_driver.Exec.{Exec, pure, raise, raise_if, when, ◌>>=◌, ◌>>◌}
use ibm_block_csi_driver.Requests.Ids.{ObjectType}
use ibm_block_csi_driver.Arrays.Mediator.{Volume, Snapshot, ArrayObject}
use ibm_block_csi_driver.Arrays.Xiv.{
  CliObject, XcliClient, except_xcli, convert_size_bytes_to_blocks, generate_volume_response,
  snapshot_of,
}

abbrev no_space : String → Bool
no_space status = finds "No space to allocate to the volume" status

-- The `except` clauses of each method, in their order
unfoldable pub creation_error : (XcliError → Bool) → XcliError → String → Exception
creation_error is_command_failed XcliError.illegal_name status = Exception.invalid_argument
creation_error is_command_failed XcliError.volume_exists status = Exception.volume_already_exists
creation_error is_command_failed XcliError.pool_missing status = Exception.pool_does_not_exist
creation_error is_command_failed XcliError.forbidden_for_user status = Exception.permission_denied
creation_error is_command_failed kind status =
    if is_command_failed kind && no_space status
    then Exception.not_enough_space_in_pool
    else Exception.xcli_error kind status

unfoldable pub expansion_error : (XcliError → Bool) → XcliError → String → Exception
expansion_error is_command_failed XcliError.volume_bad_name status = Exception.object_not_found
expansion_error is_command_failed kind status =
    if is_command_failed kind && no_space status
    then Exception.not_enough_space_in_pool
    else Exception.xcli_error kind status

unfoldable pub copy_error : XcliError → String → Exception
copy_error XcliError.illegal_name status = Exception.invalid_argument
copy_error XcliError.source_volume_bad_name status = Exception.object_not_found
copy_error XcliError.volume_bad_name status = Exception.object_not_found
copy_error XcliError.target_volume_bad_name status = Exception.object_not_found
copy_error XcliError.forbidden_for_user status = Exception.permission_denied
copy_error kind status = Exception.xcli_error kind status

unfoldable pub deletion_error : XcliError → String → Exception
deletion_error XcliError.volume_bad_name status = Exception.object_not_found
deletion_error XcliError.forbidden_for_user status = Exception.permission_denied
deletion_error kind status = Exception.xcli_error kind status

unfoldable pub snapshot_error : XcliError → String → Exception
snapshot_error XcliError.illegal_name status = Exception.invalid_argument
snapshot_error XcliError.volume_exists status = Exception.snapshot_already_exists
snapshot_error XcliError.volume_bad_name status = Exception.object_not_found
snapshot_error XcliError.forbidden_for_user status = Exception.permission_denied
snapshot_error kind status = Exception.xcli_error kind status

-- A search whose value is not a legal one
unfoldable pub search_error : XcliError → XcliError → String → Exception
search_error XcliError.illegal_name XcliError.illegal_name status = Exception.invalid_argument
search_error XcliError.illegal_value XcliError.illegal_value status = Exception.invalid_argument
search_error wanted kind status = Exception.xcli_error kind status

abbrev pub raising :
    {S A : Type 0} → (XcliError → String → Exception) → XcliError → String → Exec S A
raising error kind status = raise (error kind status)

module _ {S : Type 0} (client : XcliClient S) where
  -- `_get_cli_object_by_name`
  unfoldable pub get_cli_object_by_name : String → Exec S (Option CliObject)
  unfolding search_error
  get_cli_object_by_name name =
      except_xcli (client.vol_list "vol" name) (raising (search_error XcliError.illegal_name))

  -- `_get_cli_object_by_wwn`, without and with its `not_exist_err`
  unfoldable pub get_cli_object_by_wwn : String → Exec S (Option CliObject)
  unfolding search_error
  get_cli_object_by_wwn wwn =
      except_xcli (client.vol_list "wwn" wwn) (raising (search_error XcliError.illegal_value))

  abbrev pub there : Exception → Option CliObject → Exec S CliObject
  there e none = raise e
  there e (some v) = pure v

  unfoldable pub existing_cli_object : String → Exec S CliObject
  unfolding get_cli_object_by_wwn
  existing_cli_object wwn = get_cli_object_by_wwn wwn >>= there Exception.object_not_found

  -- `_get_object_name_by_wwn`
  unfoldable pub get_object_name_by_wwn : String → Exec S String
  unfolding existing_cli_object
  get_object_name_by_wwn wwn = existing_cli_object wwn >>= λ v. pure v.name

  source_wwn : CliObject → Option String → Exec S String
  unfolding get_cli_object_by_name
  source_wwn v (some wwn) = pure wwn
  source_wwn v none =
      get_cli_object_by_name v.master_name >>= there Exception.attribute_error >>= λ w. pure w.wwn

  -- `_get_snapshot_source_wwn`
  unfoldable pub get_snapshot_source_wwn : CliObject → Exec S String
  unfolding source_wwn
  get_snapshot_source_wwn v = source_wwn v v.copy_master_wwn

  module _ (endpoint : List String) where
    -- `_generate_snapshot_response`
    unfoldable pub generate_snapshot_response : CliObject → Exec S Snapshot
    unfolding get_snapshot_source_wwn
    generate_snapshot_response v =
        get_snapshot_source_wwn v >>= λ wwn. pure (snapshot_of endpoint v (some wwn))

    -- `get_volume`
    unfoldable pub get_volume : String → Exec S Volume
    unfolding get_cli_object_by_name generate_volume_response
    get_volume name = do
      found ← get_cli_object_by_name name
      v ← there Exception.object_not_found found
      raise_if (truthy v.master_name) Exception.volume_name_belongs_to_snapshot
      pure (generate_volume_response endpoint v)

    unfoldable pub snapshot_found : Option CliObject → Exec S (Option Snapshot)
    unfolding generate_snapshot_response
    snapshot_found none = pure none
    snapshot_found (some v) = do
      raise_if (not (truthy v.master_name)) Exception.expected_snapshot_but_found_volume
      p ← generate_snapshot_response v
      pure (some p)

    -- `get_snapshot`
    unfoldable pub get_snapshot : String → Exec S (Option Snapshot)
    unfolding get_cli_object_by_name snapshot_found
    get_snapshot name = get_cli_object_by_name name >>= snapshot_found

    object_of : ObjectType → Option CliObject → Exec S (Option ArrayObject)
    unfolding generate_snapshot_response generate_volume_response
    object_of t none = pure none
    object_of ObjectType.snapshot (some v) = do
      raise_if (not (truthy v.master_name)) Exception.expected_snapshot_but_found_volume
      p ← generate_snapshot_response v
      pure (some (ArrayObject.snapshot_object p))
    object_of t (some v) =
        pure (some (ArrayObject.volume_object (generate_volume_response endpoint v)))

    -- `get_object_by_id`
    unfoldable pub get_object_by_id : String → ObjectType → Exec S (Option ArrayObject)
    unfolding get_cli_object_by_wwn object_of
    get_object_by_id id t = get_cli_object_by_wwn id >>= object_of t

    -- `create_volume`
    unfoldable pub create_volume : String → ℕ → String → Exec S Volume
    unfolding creation_error convert_size_bytes_to_blocks generate_volume_response
    create_volume name size pool =
        except_xcli
          (client.vol_create name (convert_size_bytes_to_blocks size) pool >>= λ v.
            pure (generate_volume_response endpoint v))
          (raising (creation_error client.is_command_failed))

    other_pool : Option String → CliObject → Bool
    other_pool none v = false
    other_pool (some pool) v = truthy pool && not (pool == v.pool_name)

    -- `create_snapshot`: a source that is not there has no fields to read.
    unfoldable pub create_snapshot : String → String → Option String → Exec S Snapshot
    unfolding get_cli_object_by_wwn other_pool snapshot_error generate_snapshot_response
    create_snapshot volume_id name pool = do
      found ← get_cli_object_by_wwn volume_id
      source ← there Exception.attribute_error found
      raise_if (other_pool pool source) Exception.snapshot_source_pool_mismatch
      except_xcli (client.snapshot_create name source.name >>= generate_snapshot_response)
          (raising snapshot_error)

  -- `expand_volume`, with `_expand_cli_volume`
  unfoldable pub expand_volume : String → ℕ → Exec S (Unit {0})
  unfolding existing_cli_object convert_size_bytes_to_blocks expansion_error
  expand_volume volume_id required_bytes = do
    v ← existing_cli_object volume_id
    except_xcli (client.vol_resize v.name (convert_size_bytes_to_blocks required_bytes))
        (raising (expansion_error client.is_command_failed))

  -- `copy_to_existing_volume`
  unfoldable pub copy_to_existing_volume : String → String → ℕ → ℕ → Exec S (Unit {0})
  unfolding get_object_name_by_wwn convert_size_bytes_to_blocks copy_error
  copy_to_existing_volume volume_id source_id source_capacity minimum_size =
      except_xcli
        (do
          name ← get_object_name_by_wwn volume_id
          source ← get_object_name_by_wwn source_id
          client.vol_format name
          client.vol_copy source name
          when (ltb source_capacity minimum_size)
              (client.vol_resize name (convert_size_bytes_to_blocks minimum_size)))
        (raising copy_error)

  -- `delete_volume`
  unfoldable pub delete_volume : String → Exec S (Unit {0})
  unfolding get_object_name_by_wwn deletion_error
  delete_volume volume_id = do
    name ← get_object_name_by_wwn volume_id
    snapshots ← client.snapshot_list name
    raise_if (not (is_empty snapshots)) Exception.object_is_still_in_use
    except_xcli (client.vol_delete name) (raising deletion_error)

  -- `delete_snapshot`
  unfoldable pub delete_snapshot : String → Exec S (Unit {0})
  unfolding get_object_name_by_wwn deletion_error
  delete_snapshot snapshot_id = do
    name ← get_object_name_by_wwn snapshot_id
    except_xcli (client.snapshot_delete name) (raising deletion_error)

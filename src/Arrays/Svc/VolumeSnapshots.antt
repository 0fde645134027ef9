-- ===== src/Arrays/Svc/VolumeSnapshots.antt =====
-- controllers/array_action/array_mediator_svc.py: snapshot objects, which stand beside the volumes, and
-- what tells a volume that is a snapshot from another.
use ibm_block_csi_driver.Prelude.{
  ℕ, Bool, true, false, not, ◌&&◌, Option, none, some, String, [], ◌∷◌, join, truthy, truthy?, ◌==◌,
  if◌then◌else◌,
}
use ibm_block_csi_driver.Errors.{Exception}
use ibm_block_csi_driver.Exec.{Exec, pure, raise, raise_if, lift, ◌>>=◌, ◌>>◌}
use ibm_block_csi_driver.Arrays.Mediator.{Snapshot}
use ibm_block_csi_driver.Arrays.Svc.{
  text, number, CliKwargs, CliVolume, CliSnapshot, Fcmap, SvcClient, has, has_any, except_cli,
  unless_warning, reraise, get_cli_volume, get_cli_volume_by_wwn, get_cli_volume_by_wwn_if_exists,
  get_cli_volume_if_exists, get_wwn_by_volume_name_if_exists, get_fcmap_as_target_if_exists,
}
use ibm_block_csi_driver.Arrays.Svc.Volumes.{get_partition_name_of_cli_volume}
use ibm_block_csi_driver.Arrays.Svc.Copies.{delete_object}

-- What a refused `addsnapshot` raises
unfoldable pub snapshot_error : String → Exception
snapshot_error message =
    if has message "CMMVC6035E"
    then Exception.snapshot_already_exists
    else if has_any message ("CMMVC5754E" ∷ "CMMVC9760E" ∷ [])
    then Exception.pool_does_not_exist
    else if has message "CMMVC8710E"
    then Exception.not_enough_space_in_pool
    else if has_any message ("CMMVC6017E" ∷ "CMMVC6527E" ∷ "CMMVC5738E" ∷ [])
    then Exception.invalid_argument
    else Exception.cli_error message

-- `_generate_snapshot_response`
unfoldable pub generate_snapshot_response :
    String → ℕ → String → Option String → String → String → Option String → Snapshot
generate_snapshot_response endpoint capacity name source_id internal_id uid partition = record {
  volume = record {
    name = name;
    id = some uid;
    internal_id = some internal_id;
    array_type = some "SVC";
    capacity_bytes = capacity;
    array_address = endpoint ∷ [];
    source_id = source_id;
    pool = "";
    space_efficiency_aliases = [];
    volume_group_id = none;
    volume_group_name = none;
    partition_name = partition;
  };
  is_ready = true;
}

unfoldable pub generate_snapshot_response_from_cli_volume :
    String → CliVolume → Option String → Option String → Snapshot
unfolding generate_snapshot_response
generate_snapshot_response_from_cli_volume endpoint v source_id partition =
    generate_snapshot_response endpoint v.capacity v.name source_id v.id v.vdisk_uid partition

unfoldable pub generate_snapshot_response_from_cli_snapshot :
    String → CliSnapshot → CliVolume → Snapshot
unfolding generate_snapshot_response
generate_snapshot_response_from_cli_snapshot endpoint p v =
    generate_snapshot_response endpoint v.capacity p.snapshot_name (some v.vdisk_uid) p.snapshot_id
      "" none

module _ {S : Type 0} (client : SvcClient S) where
  snapshot_found : Option CliSnapshot → Exec S CliSnapshot
  snapshot_found none = raise Exception.object_not_found
  snapshot_found (some p) = pure p

  -- `_addsnapshotcommon`: a warning gives no answer, whose id is then read.
  unfoldable pub addsnapshot : String → CliKwargs → Exec S (Option String)
  unfolding snapshot_error
  addsnapshot name kwargs =
      except_cli (client.addsnapshot (("name", text name) ∷ kwargs) >>= λ id. pure (some id))
        (unless_warning none (λ message. raise (snapshot_error message)))

  lsvolumesnapshot_error : String → Exec S (Option CliSnapshot)
  lsvolumesnapshot_error message =
      if has_any message ("CMMVC5753E" ∷ "CMMVC5754E" ∷ [])
      then pure none
      else if has_any message ("CMMVC6017E" ∷ "CMMVC5703E" ∷ [])
      then raise Exception.invalid_argument
      else reraise message

  -- `_lsvolumesnapshot`
  unfoldable pub lsvolumesnapshot : CliKwargs → Exec S (Option CliSnapshot)
  unfolding lsvolumesnapshot_error
  lsvolumesnapshot kwargs =
      except_cli (client.lsvolumesnapshot kwargs >>= λ r. lift r.as_single_element)
        lsvolumesnapshot_error

  unfoldable pub get_cli_snapshot_by_id : String → Exec S (Option CliSnapshot)
  unfolding lsvolumesnapshot
  get_cli_snapshot_by_id snapshot_id = lsvolumesnapshot (("object_id", text snapshot_id) ∷ [])

  unfoldable pub get_cli_snapshot_by_name : String → Exec S (Option CliSnapshot)
  unfolding lsvolumesnapshot
  get_cli_snapshot_by_name name =
      lsvolumesnapshot (("filtervalue", text (join "" ("snapshot_name=" ∷ name ∷ []))) ∷ [])

  id_of_answer : Option String → Exec S String
  id_of_answer none = raise Exception.attribute_error
  id_of_answer (some id) = pure id

  -- `_add_snapshot`
  unfoldable pub add_snapshot : String → String → String → Exec S CliSnapshot
  unfolding addsnapshot get_cli_snapshot_by_id snapshot_found id_of_answer
  add_snapshot name source_id pool = do
    answer ← addsnapshot name (("volumes", text source_id) ∷ ("pool", text pool) ∷ [])
    id ← id_of_answer answer
    p ← get_cli_snapshot_by_id id
    snapshot_found p

  -- `_add_vg_snapshot`
  unfoldable pub add_vg_snapshot : String → String → Exec S CliSnapshot
  unfolding addsnapshot get_cli_snapshot_by_name snapshot_found
  add_vg_snapshot name volume_group = do
    addsnapshot name (("volumegroup", text volume_group) ∷ ("retentionminutes", number 5) ∷ [])
    p ← get_cli_snapshot_by_name name
    snapshot_found p

  -- `_rmsnapshot`: a warning is raised too.
  unfoldable pub rmsnapshot : String → Exec S (Unit {0})
  rmsnapshot internal_id =
      except_cli (client.svctask "rmsnapshot" (("snapshotid", text internal_id) ∷ [])) (λ message.
        if has message "CMMVC9755E" then raise Exception.object_not_found else reraise message)

  -- `_is_addsnapshot_supported`
  unfoldable pub is_addsnapshot_supported : Bool
  is_addsnapshot_supported = client.supports "addsnapshot"

  -- `_is_vdisk_has_fcmaps`, as a truth value. Where EAR replication is supported, a replicated volume has two mappings of its own.
  has_fcmaps : Option CliVolume → Bool
  has_fcmaps none = false
  has_fcmaps (some v) =
      if client.supports "chvolumereplicationinternals"
      then truthy v.replication_mode && not (v.fc_map_count == "2")
      else truthy v.fc_id

  unfoldable pub is_vdisk_has_fcmaps : String → Exec S Bool
  unfolding has_fcmaps get_cli_volume_by_wwn_if_exists
  is_vdisk_has_fcmaps uid =
      if truthy uid
      then (get_cli_volume_by_wwn_if_exists client uid >>= λ v. pure (has_fcmaps v))
      else pure false

  -- `_is_vdisk_support_addsnapshot`
  unfoldable pub is_vdisk_support_addsnapshot : String → Exec S Bool
  unfolding is_vdisk_has_fcmaps is_addsnapshot_supported
  is_vdisk_support_addsnapshot uid =
      if is_addsnapshot_supported
      then (is_vdisk_has_fcmaps uid >>= λ b. pure (not b))
      else pure false

  is_partition : Option String → Option String → Bool
  is_partition none q = false
  is_partition (some p) none = false
  is_partition (some p) (some q) = p == q

  -- `delete_snapshot`, whose ids may be empty
  unfoldable pub delete_snapshot : String → String → Option String → Exec S (Unit {0})
  unfolding get_cli_volume_by_wwn get_partition_name_of_cli_volume is_partition delete_object
      rmsnapshot is_addsnapshot_supported
  delete_snapshot snapshot_id internal_id partition =
      client.register_plugin "snapshot"
      >> (if truthy? partition
          then (do
            v ← get_cli_volume_by_wwn client snapshot_id
            q ← get_partition_name_of_cli_volume client v
            raise_if (not (is_partition partition q)) Exception.invalid_argument
            delete_object client snapshot_id false true)
          else if is_addsnapshot_supported && not (truthy snapshot_id)
          then rmsnapshot internal_id
          else delete_object client snapshot_id true false)

  -- The mapping of a snapshot copies nothing.
  verified_copy : String → CliVolume → Option Fcmap → Exec S Snapshot
  unfolding get_wwn_by_volume_name_if_exists generate_snapshot_response_from_cli_volume
  verified_copy endpoint v none = raise Exception.expected_snapshot_but_found_volume
  verified_copy endpoint v (some f) = do
    raise_if (not (f.copy_rate == "0")) Exception.expected_snapshot_but_found_volume
    source_id ← get_wwn_by_volume_name_if_exists client f.source_vdisk_name
    pure (generate_snapshot_response_from_cli_volume endpoint v source_id none)

  partition_snapshot : String → CliVolume → Option String → Exec S Snapshot
  unfolding get_cli_volume get_wwn_by_volume_name_if_exists
      generate_snapshot_response_from_cli_volume
  partition_snapshot endpoint v partition = do
    w ← get_cli_volume client v.name
    source_id ← get_wwn_by_volume_name_if_exists client w.source_volume_name
    pure (generate_snapshot_response_from_cli_volume endpoint w source_id partition)

  mapped_snapshot : String → CliVolume → Exec S Snapshot
  unfolding get_fcmap_as_target_if_exists verified_copy
  mapped_snapshot endpoint v = do
    raise_if (not (truthy v.fc_id)) Exception.expected_snapshot_but_found_volume
    f ← get_fcmap_as_target_if_exists client v.name
    verified_copy endpoint v f

  -- `_generate_snapshot_response_with_verification`
  unfoldable pub generate_snapshot_response_with_verification : String → CliVolume → Exec S Snapshot
  unfolding get_partition_name_of_cli_volume partition_snapshot mapped_snapshot
  generate_snapshot_response_with_verification endpoint v = do
    partition ← get_partition_name_of_cli_volume client v
    if truthy? partition
        then partition_snapshot endpoint v partition
        else mapped_snapshot endpoint v

  -- `get_snapshot`. The source volume of a snapshot object may be missing: its capacity is read all the same.
  object_of_source : String → CliSnapshot → Option CliVolume → Exec S (Option Snapshot)
  unfolding generate_snapshot_response_from_cli_snapshot
  object_of_source endpoint p none = raise Exception.attribute_error
  object_of_source endpoint p (some v) =
      pure (some (generate_snapshot_response_from_cli_snapshot endpoint p v))

  unfoldable pub get_snapshot : String → String → String → Bool → Exec S (Option Snapshot)
  unfolding get_cli_snapshot_by_name get_cli_volume_by_wwn_if_exists get_cli_volume_if_exists
      object_of_source generate_snapshot_response_with_verification is_addsnapshot_supported
  get_snapshot endpoint volume_id name true = do
    raise_if (not is_addsnapshot_supported) Exception.virt_snapshot_function_not_supported
    found ← get_cli_snapshot_by_name name
    elim found [
      | none ↦ pure none
      | some p ↦ get_cli_volume_by_wwn_if_exists client volume_id >>= object_of_source endpoint p
    ]
  get_snapshot endpoint volume_id name false = get_cli_volume_if_exists client name >>= λ found.
      elim found [
        | none ↦ pure none
        | some v ↦ generate_snapshot_response_with_verification endpoint v >>= λ p. pure (some p)
      ]

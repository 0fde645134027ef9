-- ===== src/Arrays/Svc/VolumeGroups.antt =====
-- controllers/array_action/array_mediator_svc.py: volume groups, and the deletion of snapshots. The id
-- that the answer of `mkvolumegroup` names is not read: no caller here uses it.
use ibm_block_csi_driver.Prelude.{
  Bool, true, false, not, ◌&&◌, Option, none, some, String, List, [], ◌∷◌, ltb, join, map, truthy,
  truthy?, ◌==◌, if◌then◌else◌,
}
use ibm_block_csi_driver.Errors.{Exception}
use ibm_block_csi_driver.Outcome.{Outcome, returned, raised}
use ibm_block_csi_driver.Exec.{Exec, pure, raise, raise_if, lift, ◌>>=◌, ◌>>◌}
use ibm_block_csi_driver.Arrays.Mediator.{Volume, VolumeGroup}
use ibm_block_csi_driver.Arrays.Svc.{
  text, flag, CliKwargs, CliVolume, CliVolumeGroup, SvcResponse, SvcClient, has, has_any,
  except_cli, unless_warning, reraise, lsvdisk, get_cli_volume, get_cli_volume_by_wwn,
  get_volume_name_by_wwn,
}
use ibm_block_csi_driver.Arrays.Svc.Volumes.{lsvolumegroup}

-- What a refused `mkvolumegroup` raises
unfoldable pub group_creation_error : String → Exception
group_creation_error message =
    if has message "CMMVC6035E"
    then Exception.volume_already_exists
    else if has message "CMMVC8710E"
    then Exception.not_enough_space_in_pool
    else if has_any message ("CMMVC5754E" ∷ "CMMVC6017E" ∷ "CMMVC6527E" ∷ "CMMVC5738E" ∷ [])
    then Exception.invalid_argument
    else Exception.cli_error message

-- What a refused `chvdisk`, `chvolume` or `chvolumegroup` raises
unfoldable pub change_error : String → Exception
change_error message =
    if has message "CMMVC6035E"
    then Exception.volume_already_exists
    else Exception.cli_error message

-- `_generate_thin_volume_response`: what a thin volume lacks is empty.
unfoldable pub generate_thin_volume_response : CliVolume → Volume
generate_thin_volume_response v = record {
  name = v.name;
  id = some v.vdisk_uid;
  internal_id = some v.id;
  array_type = some "SVC";
  capacity_bytes = v.capacity;
  array_address = [];
  source_id = some "";
  pool = "";
  space_efficiency_aliases = [];
  volume_group_id = none;
  volume_group_name = none;
  partition_name = none;
}

unfoldable pub get_partition_name_of_volume_group : CliVolumeGroup → Option String
get_partition_name_of_volume_group g = if truthy? g.partition_name then g.partition_name else none

is_group_of : String → Option CliVolumeGroup → Outcome Bool
is_group_of partition none = returned false
is_group_of partition (some g) =
    if truthy g.name
    then elim g.partition_name [
      | none ↦ raised Exception.attribute_error
      | some p ↦ returned (p == partition)
    ]
    else returned false

abbrev group_id : CliVolumeGroup → Option String
group_id g = elim g.uid [ none ↦ some g.id | some uid ↦ some uid ]

module _ {S : Type 0} (client : SvcClient S) where
  -- `_mkvolumegroup`
  unfoldable pub mkvolumegroup : String → CliKwargs → Exec S (Unit {0})
  unfolding group_creation_error
  mkvolumegroup name kwargs =
      except_cli (client.svctask "mkvolumegroup" (("name", text name) ∷ kwargs))
        (unless_warning tt (λ message. raise (group_creation_error message)))

  -- `_rmvolumegroup`: a group that is not there is not an error.
  unfoldable pub rmvolumegroup : String → Exec S (Unit {0})
  rmvolumegroup id_or_name =
      except_cli (client.svctask "rmvolumegroup" (("object_id", text id_or_name) ∷ [])) (
        unless_warning tt (λ message.
          if has_any message ("CMMVC5753E" ∷ "CMMVC8957E" ∷ []) then pure tt else reraise message))

  -- `_chvolumegroup`
  unfoldable pub chvolumegroup : String → CliKwargs → Exec S (Unit {0})
  unfolding change_error
  chvolumegroup id_or_name kwargs =
      except_cli (client.svctask "chvolumegroup" (("object_id", text id_or_name) ∷ kwargs))
        (unless_warning tt (λ message. raise (change_error message)))

  -- `_chvdisk`: a volume of a partition is changed by another command.
  unfoldable pub chvdisk : Option String → String → CliKwargs → Exec S (Unit {0})
  unfolding change_error
  chvdisk partition cli_volume_id kwargs =
      except_cli
        (client.svctask (if truthy? partition then "chvolume" else "chvdisk")
          (("vdisk_id", text cli_volume_id) ∷ kwargs))
        (unless_warning tt (λ message. raise (change_error message)))

  abbrev given_or : String → String → Option String → CliKwargs
  given_or key no_key none = (no_key, flag true) ∷ []
  given_or key no_key (some v) = if truthy v then (key, text v) ∷ [] else (no_key, flag true) ∷ []

  -- `_change_volume_group`
  unfoldable pub change_volume_group : Option String → String → Option String → Exec S (Unit {0})
  unfolding chvdisk
  change_volume_group partition cli_volume_id volume_group =
      chvdisk partition cli_volume_id (given_or "volumegroup" "novolumegroup" volume_group)

  -- `_change_volume_group_policy`
  unfoldable pub change_volume_group_policy : String → Option String → Exec S (Unit {0})
  unfolding chvolumegroup
  change_volume_group_policy id_or_name policy =
      chvolumegroup id_or_name (given_or "replicationpolicy" "noreplicationpolicy" policy)

  -- `_rename_volume`
  unfoldable pub rename_volume : String → String → Exec S (Unit {0})
  unfolding chvdisk
  rename_volume cli_volume_id name = chvdisk none cli_volume_id (("name", text name) ∷ [])

  -- `_fix_creation_side_effects`
  unfoldable pub fix_creation_side_effects : String → String → Option String → Exec S (Unit {0})
  unfolding change_volume_group rmvolumegroup rename_volume
  fix_creation_side_effects name cli_volume_id volume_group = do
    change_volume_group none cli_volume_id volume_group
    rmvolumegroup name
    rename_volume cli_volume_id name

  -- `_create_volume_group`
  unfoldable pub create_cli_volume_group : String → Option String → Exec S (Unit {0})
  unfolding mkvolumegroup
  create_cli_volume_group name none = mkvolumegroup name []
  create_cli_volume_group name (some p) =
      mkvolumegroup name (if truthy p then ("partition", text p) ∷ [] else [])

  listed : Option (SvcResponse CliVolume) → Exec S (List CliVolume)
  listed none = raise Exception.type_error
  listed (some r) = lift r.as_list

  -- `_get_cli_volumes_from_volume_group`: the list of an answer that is none is not iterable.
  unfoldable pub get_cli_volumes_from_volume_group : String → Exec S (List Volume)
  unfolding lsvdisk listed generate_thin_volume_response
  get_cli_volumes_from_volume_group name = do
    r ← lsvdisk client (("filtervalue", text (join "" ("volume_group_name=" ∷ name ∷ []))) ∷ [])
    vs ← listed r
    pure (map generate_thin_volume_response vs)

  -- `_generate_volume_group_response`
  unfoldable pub generate_volume_group_response : CliVolumeGroup → Exec S VolumeGroup
  unfolding get_cli_volumes_from_volume_group get_partition_name_of_volume_group
  generate_volume_group_response g = do
    vs ← if ltb 0 g.volume_count then get_cli_volumes_from_volume_group g.name else pure []
    pure (record {
      name = g.name;
      id = group_id g;
      internal_id = some g.id;
      array_type = some "SVC";
      volumes = vs;
      partition_name = get_partition_name_of_volume_group g;
    })

  group_or : Exception → Option CliVolumeGroup → Exec S VolumeGroup
  unfolding generate_volume_group_response
  group_or e none = raise e
  group_or e (some g) = generate_volume_group_response g

  -- `create_volume_group`
  unfoldable pub create_volume_group : String → Option String → Exec S VolumeGroup
  unfolding create_cli_volume_group lsvolumegroup group_or
  create_volume_group name partition = do
    client.register_plugin "volume_group"
    create_cli_volume_group name partition
    g ← lsvolumegroup client name false
    group_or Exception.attribute_error g

  -- `get_volume_group`
  unfoldable pub get_volume_group : String → Exec S VolumeGroup
  unfolding lsvolumegroup group_or
  get_volume_group volume_group_id =
      lsvolumegroup client volume_group_id false >>= group_or Exception.object_not_found

  -- `delete_volume_group`
  unfoldable pub delete_volume_group : String → Exec S (Unit {0})
  unfolding lsvolumegroup rmvolumegroup
  delete_volume_group volume_group_id = do
    client.register_plugin "volume_group"
    lsvolumegroup client volume_group_id true
    rmvolumegroup volume_group_id

  -- `_verify_volume_group_of_partition_name`
  unfoldable pub verify_volume_group_of_partition_name : String → String → Exec S Bool
  unfolding is_group_of
  verify_volume_group_of_partition_name partition volume_group =
      except_cli
        (do
          let filter = join "" ("partition_name=" ∷ partition ∷ ":name=" ∷ volume_group ∷ [])
          r ← client.lsvolumegroup (("filtervalue", text filter) ∷ [])
          g ← lift r.as_single_element
          lift (is_group_of partition g))
        (λ message.
          if has_any message ("CMMVC6017E" ∷ "CMMVC5703E" ∷ [])
          then raise Exception.invalid_argument
          else reraise message)

  unfoldable pub is_in_other_group : CliVolume → String → Bool
  is_in_other_group v volume_group_id =
      truthy v.volume_group_name && not (v.volume_group_name == volume_group_id)

  -- `add_volume_to_volume_group`
  unfoldable pub add_volume_to_volume_group : String → String → Option String → Exec S (Unit {0})
  unfolding get_volume_name_by_wwn get_cli_volume is_in_other_group change_volume_group
  add_volume_to_volume_group volume_group_id volume_id partition = do
    client.register_plugin "volume_group"
    name ← get_volume_name_by_wwn client volume_id
    v ← get_cli_volume client name
    raise_if (not (truthy? partition) && is_in_other_group v volume_group_id)
        Exception.volume_already_in_volume_group
    change_volume_group partition (if truthy? partition then v.name else v.id)
        (some volume_group_id)

  -- `remove_volume_from_volume_group`
  unfoldable pub remove_volume_from_volume_group :
      String → Option String → Option String → Exec S (Unit {0})
  unfolding get_cli_volume_by_wwn change_volume_group
  remove_volume_from_volume_group volume_id partition partition_group = do
    client.register_plugin "volume_group"
    v ← get_cli_volume_by_wwn client volume_id
    if truthy? partition
        then change_volume_group partition v.name partition_group
        else change_volume_group partition v.id none

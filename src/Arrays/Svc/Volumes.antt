-- ===== src/Arrays/Svc/Volumes.antt =====
-- controllers/array_action/array_mediator_svc.py: volumes created, enlarged and removed by commands.
use ibm_block_csi_driver.Prelude.{
  ℕ, ◌+◌, ◌-◌, Bool, true, false, not, ◌&&◌, Option, none, some, String, List, [], ◌∷◌, ltb, elem,
  join, truthy, lower, ◌==◌, if◌then◌else◌,
}
use Prim.Native.Nat.{◌%◌}
use ibm_block_csi_driver.Errors.{Exception}
use ibm_block_csi_driver.Outcome.{Outcome, returned, raised}
use ibm_block_csi_driver.Exec.{Exec, pure, raise, lift, ◌>>=◌}
use ibm_block_csi_driver.Arrays.Mediator.{Volume}
use ibm_block_csi_driver.Arrays.Svc.{
  text, number, one_pool, many_pools, CliVolume, CliVolumeGroup, SvcClient, has, has_any,
  except_cli, unless_warning, reraise, get_wwn_by_volume_name_if_exists,
  get_fcmap_as_target_if_exists, get_cli_volume, is_in_remote_copy_relationship,
}
use ibm_block_csi_driver.Arrays.Svc.Kwargs.{
  build_kwargs_from_parameters, get_cli_volume_space_efficiency_aliases,
}

-- `_convert_size_bytes`
unfoldable pub convert_size_bytes : ℕ → ℕ
convert_size_bytes size = let rest = size % 512 in if ltb 0 rest then size - rest + 512 else size

-- `validate_supported_space_efficiency`
unfoldable pub validate_supported_space_efficiency : Option String → Outcome (Unit {0})
validate_supported_space_efficiency none = returned tt
validate_supported_space_efficiency (some s) =
    if truthy s
      && not (
          elem (lower s) (
            "thin" ∷ "thick" ∷ "compressed" ∷ "deduplicated" ∷ "dedup_thin" ∷ "dedup_compressed"
            ∷ []))
    then raised Exception.space_efficiency_not_supported
    else returned tt

-- `_get_volume_pools`: a list must name 'many', which is taken out.
unfoldable pub remove_many : List String → Outcome (List String)
remove_many [] = raised Exception.value_error
remove_many (p ∷ ps) =
    let later : Outcome (List String) = elim (remove_many ps) [
      | raised e ↦ raised e
      | returned qs ↦ returned (p ∷ qs)
    ] in
    if p == "many" then returned ps else later

unfoldable pub get_volume_pools : CliVolume → Outcome (List String)
unfolding remove_many
get_volume_pools v = elim v.mdisk_grp_name [
  | one_pool p ↦ returned (p ∷ [])
  | many_pools ps ↦ remove_many ps
]

-- What a refused command raises: the classes of `_create_cli_volume`, in the order of its tests
unfoldable pub creation_error : String → Exception
creation_error message =
    if has message "CMMVC6035E"
    then Exception.volume_already_exists
    else if has message "CMMVC5754E"
    then Exception.invalid_argument
    else if has_any message ("CMMVC9292E" ∷ "CMMVC9301E" ∷ [])
    then Exception.pool_does_not_match_space_efficiency
    else if has message "CMMVC8710E"
    then Exception.not_enough_space_in_pool
    else if has_any message ("CMMVC6017E" ∷ "CMMVC6527E" ∷ "CMMVC5738E" ∷ [])
    then Exception.invalid_argument
    else Exception.cli_error message

unfoldable pub deletion_error : Bool → String → Exception
deletion_error not_exist_err message =
    if has_any message ("CMMVC5753E" ∷ "CMMVC8957E" ∷ []) && not_exist_err
    then Exception.object_not_found
    else Exception.cli_error message

unfoldable pub expansion_error : String → Exception
expansion_error message =
    if has_any message ("CMMVC5753E" ∷ "CMMVC8957E" ∷ [])
    then Exception.object_not_found
    else if has message "CMMVC5860E"
    then Exception.not_enough_space_in_pool
    else Exception.cli_error message

module _ {S : Type 0} (client : SvcClient S) where
  lsvolumegroup_error : Bool → String → Exec S (Option CliVolumeGroup)
  lsvolumegroup_error not_exist_err message =
      if has_any message ("CMMVC5804E" ∷ "CMMVC5754E" ∷ [])
      then (if not_exist_err then raise Exception.object_not_found else pure none)
      else if has_any message ("CMMVC6017E" ∷ "CMMVC5703E" ∷ [])
      then raise Exception.invalid_argument
      else reraise message

  -- `_lsvolumegroup`
  unfoldable pub lsvolumegroup : String → Bool → Exec S (Option CliVolumeGroup)
  unfolding lsvolumegroup_error
  lsvolumegroup id_or_name not_exist_err =
      except_cli
        (client.lsvolumegroup (("object_id", text id_or_name) ∷ []) >>= λ r.
          lift r.as_single_element)
        (lsvolumegroup_error not_exist_err)

  abbrev named : Option String → Option String
  named none = none
  named (some p) = if truthy p then some p else none

  -- `_get_partition_name_of_cli_volume`
  unfoldable pub get_partition_name_of_cli_volume : CliVolume → Exec S (Option String)
  unfolding lsvolumegroup
  get_partition_name_of_cli_volume v =
      let asked : Exec S (Option String) = lsvolumegroup v.volume_group_name false >>= λ g. elim g [
        | none ↦ pure none
        | some h ↦ pure (named h.partition_name)
      ] in
      if truthy v.volume_group_name then asked else pure none

  -- `_get_source_volume_wwn_if_exists`
  unfoldable pub get_source_volume_wwn_if_exists : CliVolume → Exec S (Option String)
  unfolding get_fcmap_as_target_if_exists get_wwn_by_volume_name_if_exists
  get_source_volume_wwn_if_exists v = get_fcmap_as_target_if_exists client v.name >>= λ f. elim f [
    | none ↦ pure none
    | some g ↦
        if is_in_remote_copy_relationship g
        then pure none
        else get_wwn_by_volume_name_if_exists client g.source_vdisk_name
  ]

  abbrev source_id_of : CliVolume → Option String → Bool → Exec S (Option String)
  source_id_of v (some p) virt_snap = get_wwn_by_volume_name_if_exists client v.source_volume_name
  source_id_of v none true = pure none
  source_id_of v none false = get_source_volume_wwn_if_exists v

  -- `_generate_volume_response`
  unfoldable pub generate_volume_response : String → CliVolume → Bool → Exec S Volume
  unfolding get_volume_pools get_partition_name_of_cli_volume get_source_volume_wwn_if_exists
  generate_volume_response endpoint v is_virt_snap_func = do
    pools ← lift (get_volume_pools v)
    partition ← get_partition_name_of_cli_volume v
    source_id ← source_id_of v partition is_virt_snap_func
    pure (record {
      name = v.name;
      id = some v.vdisk_uid;
      internal_id = some v.id;
      array_type = some "SVC";
      capacity_bytes = v.capacity;
      array_address = endpoint ∷ [];
      source_id = source_id;
      pool = join ":" pools;
      space_efficiency_aliases = get_cli_volume_space_efficiency_aliases v;
      volume_group_id = some v.volume_group_id;
      volume_group_name = some v.volume_group_name;
      partition_name = partition;
    })

  -- `get_volume`
  unfoldable pub get_volume : String → String → Bool → Exec S Volume
  unfolding get_cli_volume generate_volume_response
  get_volume endpoint name is_virt_snap_func =
      get_cli_volume client name >>= λ v. generate_volume_response endpoint v is_virt_snap_func

  -- `_create_cli_volume`
  unfoldable pub create_cli_volume :
      String → ℕ → Option String → String → Option String → Option String → Exec S (Unit {0})
  unfolding creation_error convert_size_bytes build_kwargs_from_parameters
  create_cli_volume name size space_efficiency pool io_group volume_group =
      except_cli
        (client.svctask "mkvolume" (
          build_kwargs_from_parameters space_efficiency pool io_group volume_group name
            (convert_size_bytes size)))
        (unless_warning tt (λ message. raise (creation_error message)))

  -- `_rmvolume`
  unfoldable pub rmvolume : String → Bool → Exec S (Unit {0})
  unfolding deletion_error
  rmvolume name not_exist_err =
      except_cli (client.svctask "rmvolume" (("vdisk_id", text name) ∷ []))
        (unless_warning tt (λ message. raise (deletion_error not_exist_err message)))

  -- `_expand_cli_volume`: by the number of bytes that is added
  unfoldable pub expand_cli_volume : CliVolume → ℕ → Bool → Exec S (Unit {0})
  unfolding expansion_error
  expand_cli_volume v increase is_hyperswap =
      let size = ("unit", text "b") ∷ ("size", number increase) ∷ [] in
      except_cli
        (if is_hyperswap
          then client.svctask "expandvolume" (("object_id", text v.name) ∷ size)
          else client.svctask "expandvdisksize" (("vdisk_id", text v.name) ∷ size))
        (unless_warning tt (λ message. raise (expansion_error message)))

  -- `_change_volume_size`: to the size itself
  unfoldable pub change_volume_size : CliVolume → ℕ → Exec S (Unit {0})
  unfolding expansion_error
  change_volume_size v size =
      except_cli
        (client.svctask "chvolume"
          (("size", number size) ∷ ("unit", text "b") ∷ ("vdisk_id", text v.name) ∷ []))
        (unless_warning tt (λ message. raise (expansion_error message)))

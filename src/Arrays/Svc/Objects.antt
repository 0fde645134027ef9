-- ===== src/Arrays/Svc/Objects.antt =====
-- controllers/array_action/array_mediator_svc.py: snapshots made of the volume at the site of a pool, and
-- objects found by their ids.
use ibm_block_csi_driver.Prelude.{
  Bool, true, false, not, ◌||◌, Option, none, some, String, List, [], ◌∷◌, finds, join, truthy,
  ◌==◌, if◌then◌else◌,
}
use ibm_block_csi_driver.Errors.{Exception}
use ibm_block_csi_driver.Exec.{Exec, pure, raise, raise_if, lift, ◌>>=◌, ◌>>◌}
use ibm_block_csi_driver.Requests.Ids.{ObjectType}
use ibm_block_csi_driver.Arrays.Mapping.{Retry}
use ibm_block_csi_driver.Arrays.Mediator.{Snapshot, ArrayObject}
use ibm_block_csi_driver.Arrays.Svc.{
  CliPool, CliVolume, CliSnapshot, Rcrelationship, SvcClient, get_cli_volume,
  get_cli_volume_by_wwn_if_exists, get_volume_name_by_wwn,
}
use ibm_block_csi_driver.Arrays.Svc.Volumes.{get_volume_pools, generate_volume_response}
use ibm_block_csi_driver.Arrays.Svc.VolumeGroups.{get_volume_group}
use ibm_block_csi_driver.Arrays.Svc.Copies
use ibm_block_csi_driver.Arrays.Svc.VolumeSnapshots.{
  add_snapshot, get_cli_snapshot_by_id, is_vdisk_support_addsnapshot,
  generate_snapshot_response_from_cli_volume, generate_snapshot_response_from_cli_snapshot,
  generate_snapshot_response_with_verification,
}
use ibm_block_csi_driver.Arrays.Svc.Creation.{partition_create_cli_volume_from_cli_vol}

module _ {S : Type 0} (client : SvcClient S) where
  site_of : Option CliPool → Exec S String
  site_of none = raise Exception.pool_does_not_exist
  site_of (some p) = pure p.site_name

  -- `_get_pool_site`
  unfoldable pub get_pool_site : String → Exec S String
  unfolding site_of
  get_pool_site pool =
      (client.lsmdiskgrp (join "" ("name=" ∷ pool ∷ [])) >>= λ r. lift r.as_single_element)
      >>= site_of

  -- The loop of `_is_cli_volume_in_site`, which stops at the first pool in the site
  unfoldable pub is_in_site : String → List String → Exec S Bool
  unfolding get_pool_site
  is_in_site site [] = pure false
  is_in_site site (p ∷ ps) =
      get_pool_site p >>= λ q. elim (q == site) [ true ↦ pure true | false ↦ is_in_site site ps ]

  -- `_is_cli_volume_in_site`
  unfoldable pub is_cli_volume_in_site : CliVolume → String → Exec S Bool
  unfolding get_volume_pools is_in_site
  is_cli_volume_in_site v site = lift (get_volume_pools v) >>= is_in_site site

  -- `_get_rcrelationships_as_master_in_cluster`
  unfoldable pub get_rcrelationships_as_master_in_cluster : String → Exec S (List Rcrelationship)
  get_rcrelationships_as_master_in_cluster name = do
    me ← client.identifier
    r ←
        client.lsrcrelationship
          (join "" ("master_vdisk_name=" ∷ name ∷ ":aux_cluster_id=" ∷ me ∷ []))
    lift r.as_list

  unfoldable pub auxiliary_in_site : String → List Rcrelationship → Exec S CliVolume
  unfolding get_cli_volume is_cli_volume_in_site
  auxiliary_in_site site [] = raise Exception.runtime_error
  auxiliary_in_site site (r ∷ rs) = get_cli_volume client r.aux_vdisk_name >>= λ v.
      is_cli_volume_in_site v site >>= λ there. elim there [
        | true ↦ pure v
        | false ↦ auxiliary_in_site site rs
      ]

  searched : String → String → CliVolume → Exec S CliVolume
  unfolding get_pool_site is_cli_volume_in_site get_rcrelationships_as_master_in_cluster
      auxiliary_in_site
  searched name pool v = do
    site ← get_pool_site pool
    there ← is_cli_volume_in_site v site
    if there
        then pure v
        else (get_rcrelationships_as_master_in_cluster name >>= auxiliary_in_site site)

  -- `_get_cli_volume_in_pool_site`: a name with a colon is of several pools.
  unfoldable pub get_cli_volume_in_pool_site : String → Option String → Exec S CliVolume
  unfolding get_cli_volume searched
  get_cli_volume_in_pool_site name none = get_cli_volume client name
  get_cli_volume_in_pool_site name (some pool) = do
    v ← get_cli_volume client name
    if not (truthy pool) || finds ":" pool then pure v else searched name pool v

  module _ (endpoint : String) where
    snapshot_object_of : Option CliSnapshot → Exec S (Option ArrayObject)
    unfolding get_cli_volume generate_snapshot_response_from_cli_snapshot
    snapshot_object_of none = pure none
    snapshot_object_of (some p) = get_cli_volume client p.volume_name >>= λ v. pure (
        some
          (ArrayObject.snapshot_object (generate_snapshot_response_from_cli_snapshot endpoint p v)))

    volume_of : Bool → Option CliVolume → Exec S (Option ArrayObject)
    unfolding get_cli_volume generate_volume_response
    volume_of virt_snap none = pure none
    volume_of virt_snap (some v) = do
      w ← get_cli_volume client v.name
      u ← generate_volume_response client endpoint w virt_snap
      pure (some (ArrayObject.volume_object u))

    snapshot_of : Option CliVolume → Exec S (Option ArrayObject)
    unfolding generate_snapshot_response_with_verification
    snapshot_of none = pure none
    snapshot_of (some v) = generate_snapshot_response_with_verification client endpoint v >>= λ p.
        pure (some (ArrayObject.snapshot_object p))

    -- `get_object_by_id`
    unfoldable pub get_object_by_id : String → ObjectType → Bool → Exec S (Option ArrayObject)
    unfolding snapshot_object_of volume_of snapshot_of get_cli_snapshot_by_id get_volume_group
        get_cli_volume_by_wwn_if_exists
    get_object_by_id object_id ObjectType.snapshot true =
        get_cli_snapshot_by_id client object_id >>= snapshot_object_of
    get_object_by_id object_id ObjectType.snapshot false =
        get_cli_volume_by_wwn_if_exists client object_id >>= snapshot_of
    get_object_by_id object_id ObjectType.volume_group virt_snap =
        get_volume_group client object_id >>= λ g. pure (some (ArrayObject.group_object g))
    get_object_by_id object_id ObjectType.volume virt_snap =
        get_cli_volume_by_wwn_if_exists client object_id >>= volume_of virt_snap

    module _ (retry : Retry S) (is_client_error : Exception → Bool)
        (pop : List String → String) where
      pool_of : Option String → CliVolume → Exec S String
      unfolding get_volume_pools
      pool_of pool v =
          let first : Exec S String = lift (get_volume_pools v) >>= λ ps. elim ps [
            | [] ↦ raise Exception.index_error
            | p ∷ qs ↦ pure p
          ] in
          elim pool [ none ↦ first | some p ↦ if truthy p then pure p else first ]

      partition_snapshot : String → CliVolume → Option String → String → String → Exec S Snapshot
      unfolding partition_create_cli_volume_from_cli_vol get_cli_volume
          generate_snapshot_response_from_cli_volume
      partition_snapshot name v space_efficiency pool partition = do
        partition_create_cli_volume_from_cli_vol client pop name pool (some v.io_group_name)
            v.volume_group_name v space_efficiency partition
        w ← get_cli_volume client name
        pure (
            generate_snapshot_response_from_cli_volume endpoint w (some v.vdisk_uid)
              (some partition))

      object_snapshot : String → String → CliVolume → String → Exec S Snapshot
      unfolding is_vdisk_support_addsnapshot add_snapshot
          generate_snapshot_response_from_cli_snapshot
      object_snapshot volume_id name v pool = do
        is_supported ← is_vdisk_support_addsnapshot client volume_id
        raise_if (not is_supported) Exception.virt_snapshot_function_not_supported
        p ← add_snapshot client name v.id pool
        pure (generate_snapshot_response_from_cli_snapshot endpoint p v)

      copied_snapshot : String → CliVolume → Option String → String → Exec S Snapshot
      unfolding Copies.create_snapshot generate_snapshot_response_from_cli_volume
      copied_snapshot name v space_efficiency pool =
          Copies.create_snapshot client retry is_client_error pop name v space_efficiency pool
          >>= λ w.
              pure (generate_snapshot_response_from_cli_volume endpoint w (some v.vdisk_uid) none)

      -- `create_snapshot`
      unfoldable pub create_snapshot :
          String → String → Option String → Option String → Bool → Option String → Exec S Snapshot
      unfolding get_volume_name_by_wwn get_cli_volume_in_pool_site pool_of partition_snapshot
          object_snapshot copied_snapshot
      create_snapshot volume_id name space_efficiency pool virt_snap partition = do
        client.register_plugin "snapshot"
        source ← get_volume_name_by_wwn client volume_id
        v ← get_cli_volume_in_pool_site source pool
        chosen ← pool_of pool v
        let plain =
            if virt_snap
            then object_snapshot volume_id name v chosen
            else copied_snapshot name v space_efficiency chosen
        elim partition [
          | none ↦ plain
          | some q ↦ if truthy q then partition_snapshot name v space_efficiency chosen q else plain
        ]

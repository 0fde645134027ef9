-- ===== src/Arrays/Svc/Creation.antt =====
-- controllers/array_action/array_mediator_svc.py: volumes created, in partitions too. `pop` takes an
-- element out of the set of a volume's space efficiencies.
use ibm_block_csi_driver.Prelude.{
  ℕ, Bool, true, false, not, Option, none, some, String, List, [], ◌∷◌, ◌++◌, join, nat_eq, truthy,
  truthy?, ◌==◌, if◌then◌else◌,
}
use ibm_block_csi_driver.Errors.{Exception}
use ibm_block_csi_driver.Exec.{Exec, pure, raise, raise_if, lift, attempt, ◌>>=◌, ◌>>◌}
use ibm_block_csi_driver.Arrays.Mediator.{Volume}
use ibm_block_csi_driver.Requests.Ids.{ObjectType, ObjectIds}
use ibm_block_csi_driver.Arrays.Svc.{
  text, CliKwargs, CliVolume, SvcClient, get_cli_volume, get_cli_volume_by_wwn_if_exists,
}
use ibm_block_csi_driver.Arrays.Svc.Kwargs.{
  get_space_efficiency_kwargs, get_cli_volume_space_efficiency_aliases,
}
use ibm_block_csi_driver.Arrays.Svc.Volumes.{
  convert_size_bytes, create_cli_volume, generate_volume_response,
}
use ibm_block_csi_driver.Arrays.Svc.VolumeGroups.{verify_volume_group_of_partition_name}
use ibm_block_csi_driver.Arrays.Svc.VolumeSnapshots.{add_vg_snapshot, is_vdisk_support_addsnapshot}
use ibm_block_csi_driver.Arrays.Svc.Clones.{
  create_cli_volume_from_snapshot, create_cli_volume_from_volume,
}

-- `_create_cli_volume_from_vg_snapshot`: the arguments of `mkvolume`
unfoldable pub vg_snapshot_kwargs :
    String → String → Option String → String → String → CliVolume → String → Bool → CliKwargs
unfolding get_space_efficiency_kwargs
vg_snapshot_kwargs name pool io_group volume_group snapshot v space_efficiency use_thin_clone =
    ("name", text name)
    ∷ ("type", text (if use_thin_clone then "thinclone" else "clone"))
    ∷ ("snapshot", text snapshot)
    ∷ ("fromsourcegroup", text v.volume_group_name)
    ∷ ("pool", text pool)
    ∷ ("fromsourcevolume", text v.name)
    ∷ ("volumegroup", text volume_group)
    ∷ (elim io_group [ none ↦ [] | some g ↦ if truthy g then ("iogrp", text g) ∷ [] else [] ]
        ++ (if use_thin_clone then [] else get_space_efficiency_kwargs (some space_efficiency)))

-- `finally`: what `m` raised is lost where the cleanup raises.
abbrev pub finally : {S A : Type 0} → Exec S A → Exec S (Unit {0}) → Exec S A
finally m cleanup = attempt m >>= λ r. cleanup >>= λ _. lift r

module _ {S : Type 0} (client : SvcClient S) where
  given : {A : Type 0} → Exception → Option A → Exec S A
  given e none = raise e
  given e (some a) = pure a

  two_sites : String → Exec S Bool
  unfolding given
  two_sites policy = do
    r ← client.lsreplicationpolicy (("filtervalue", text (join "" ("name=" ∷ policy ∷ []))) ∷ [])
    p ← lift r.as_single_element
    topology ← given Exception.invalid_argument p
    pure (topology == "2-site-ha")

  -- `use_thin_clone`: whether the replication policy of the partition keeps it on two sites
  unfoldable pub is_thin_clone_used : String → Exec S Bool
  unfolding given two_sites
  is_thin_clone_used partition = do
    r ← client.lspartition (("filtervalue", text (join "" ("name=" ∷ partition ∷ []))) ∷ [])
    p ← lift r.as_single_element
    policy ← given Exception.invalid_argument p
    if truthy policy then two_sites policy else pure false

  module _ (pop : List String → String) where
    -- `_partition_create_cli_volume_from_cli_vol`
    unfoldable pub partition_create_cli_volume_from_cli_vol :
        String
        → String
        → Option String
        → String
        → CliVolume
        → Option String
        → String
        → Exec S (Unit {0})
    unfolding verify_volume_group_of_partition_name is_thin_clone_used add_vg_snapshot
        vg_snapshot_kwargs
    partition_create_cli_volume_from_cli_vol name pool io_group volume_group v space_efficiency
          partition =
        do
          raise_if (not (truthy v.volume_group_name)) Exception.invalid_argument
          is_in_partition ←
              verify_volume_group_of_partition_name client partition v.volume_group_name
          raise_if (not is_in_partition) Exception.invalid_argument
          thin ← is_thin_clone_used partition
          p ← add_vg_snapshot client name v.volume_group_name
          let efficiency : String = elim space_efficiency [
            | none ↦ pop (get_cli_volume_space_efficiency_aliases v)
            | some e ↦ if truthy e then e else pop (get_cli_volume_space_efficiency_aliases v)
          ]
          finally
              (client.svctask "mkvolume" (
                vg_snapshot_kwargs name pool io_group volume_group p.snapshot_name v efficiency
                  thin))
              (client.svctask "rmsnapshot" (
                ("snapshot", text p.snapshot_name)
                ∷ ("volumegroup", text v.volume_group_name)
                ∷ []))

    -- `_partition_create_cli_volume_from_volume`
    unfoldable pub partition_create_cli_volume_from_volume :
        String
        → String
        → Option String
        → String
        → String
        → Option String
        → ℕ
        → String
        → Exec S (Unit {0})
    unfolding get_cli_volume_by_wwn_if_exists get_cli_volume convert_size_bytes
        partition_create_cli_volume_from_cli_vol
    partition_create_cli_volume_from_volume name pool io_group volume_group source_id
          space_efficiency size partition =
        do
          found ← get_cli_volume_by_wwn_if_exists client source_id
          w ← given Exception.object_not_found found
          v ← get_cli_volume client w.name
          raise_if (not (nat_eq (convert_size_bytes size) v.capacity)) Exception.invalid_argument
          partition_create_cli_volume_from_cli_vol name pool io_group volume_group v
              space_efficiency partition

    abbrev or_empty : Option String → String
    or_empty none = ""
    or_empty (some s) = s

    created :
        String
        → ℕ
        → Option String
        → String
        → Option String
        → String
        → Option ObjectIds
        → String
        → Exec S (Unit {0})
    unfolding create_cli_volume partition_create_cli_volume_from_volume
    created name size space_efficiency pool io_group volume_group none partition =
        create_cli_volume client name size space_efficiency pool io_group (some volume_group)
    created name size space_efficiency pool io_group volume_group (some ids) partition =
        partition_create_cli_volume_from_volume name pool io_group volume_group (or_empty ids.uid)
          space_efficiency size partition

    -- `_partition_create_volume`
    unfoldable pub partition_create_volume :
        String
        → String
        → ℕ
        → Option String
        → String
        → Option String
        → Option String
        → Option ObjectIds
        → String
        → Option String
        → Exec S Volume
    unfolding verify_volume_group_of_partition_name created get_cli_volume generate_volume_response
    partition_create_volume endpoint name size space_efficiency pool io_group volume_group ids
          partition partition_group =
        do
          let group = or_empty (if truthy? volume_group then volume_group else partition_group)
          raise_if (not (truthy group)) Exception.invalid_argument
          is_in_partition ← verify_volume_group_of_partition_name client partition group
          raise_if (not is_in_partition) Exception.invalid_argument
          created name size space_efficiency pool io_group group ids partition
          v ← get_cli_volume client name
          generate_volume_response client endpoint v false

    -- `_create_cli_volume_from_source`
    unfoldable pub create_cli_volume_from_source :
        String → String → Option String → Option String → String → ObjectType → Exec S (Unit {0})
    unfolding create_cli_volume_from_snapshot create_cli_volume_from_volume
    create_cli_volume_from_source name pool io_group volume_group internal_id ObjectType.snapshot =
        create_cli_volume_from_snapshot client name pool io_group volume_group internal_id
    create_cli_volume_from_source name pool io_group volume_group internal_id t =
        create_cli_volume_from_volume client name pool io_group volume_group internal_id

    from_source :
        String → String → Option String → Option String → ObjectIds → ObjectType → Exec S (Unit {0})
    unfolding is_vdisk_support_addsnapshot create_cli_volume_from_source
    from_source name pool io_group volume_group ids t = do
      is_supported ← is_vdisk_support_addsnapshot client (or_empty ids.uid)
      raise_if (not is_supported) Exception.virt_snapshot_function_not_supported
      create_cli_volume_from_source name pool io_group volume_group (or_empty ids.internal_id) t

    outside_partition :
        String
        → ℕ
        → Option String
        → String
        → Option String
        → Option String
        → Option ObjectIds
        → ObjectType
        → Bool
        → Exec S (Unit {0})
    unfolding from_source create_cli_volume
    outside_partition name size space_efficiency pool io_group volume_group (some ids) t true =
        from_source name pool io_group volume_group ids t
    outside_partition name size space_efficiency pool io_group volume_group _ t _ =
        create_cli_volume client name size space_efficiency pool io_group volume_group

    abbrev new_volume :
        String
        → String
        → ℕ
        → Option String
        → String
        → Option String
        → Option String
        → Option ObjectIds
        → ObjectType
        → Bool
        → Exec S Volume
    new_volume endpoint name size space_efficiency pool io_group volume_group ids t virt_snap = do
      outside_partition name size space_efficiency pool io_group volume_group ids t virt_snap
      v ← get_cli_volume client name
      generate_volume_response client endpoint v virt_snap

    -- `create_volume`
    unfoldable pub create_volume :
        String
        → String
        → ℕ
        → Option String
        → String
        → Option String
        → Option String
        → Option ObjectIds
        → ObjectType
        → Bool
        → Option String
        → Option String
        → Exec S Volume
    unfolding outside_partition partition_create_volume get_cli_volume generate_volume_response
    create_volume endpoint name size space_efficiency pool io_group volume_group ids t virt_snap
          partition partition_group =
        client.register_plugin "basic" >> elim partition [
          | none ↦
              new_volume endpoint name size space_efficiency pool io_group volume_group ids t
                virt_snap
          | some p ↦
              if truthy p
              then partition_create_volume endpoint name size space_efficiency pool io_group
                  volume_group ids p partition_group
              else new_volume endpoint name size space_efficiency pool io_group volume_group ids t
                  virt_snap
        ]

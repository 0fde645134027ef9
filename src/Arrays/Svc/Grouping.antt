-- ===== src/Arrays/Svc/Grouping.antt =====
-- controllers/array_action/array_mediator_svc.py: volumes put in a volume group, and those
-- that stay where they are.
use ibm_block_csi_driver.Prelude.{
  ◌≡◌, true, false, not, ◌&&◌, none, some, String, truthy, ◌==◌, arith,
}
use ibm_block_csi_driver.Errors.{Exception}
use ibm_block_csi_driver.Outcome.{returned, raised}
use ibm_block_csi_driver.Arrays.Svc.{CliVolume, SvcClient, get_cli_volume, get_volume_name_by_wwn}
use ibm_block_csi_driver.Arrays.Svc.VolumeGroups.{
  add_volume_to_volume_group, is_in_other_group, change_volume_group,
}

module _ {S : Type 0} (client : SvcClient S) (group volume_id name : String) (s0 s s1 s2 : S)
    (v : CliVolume) (registered : client.register_plugin "volume_group" s0 ≡ (returned tt, s))
    (known : get_volume_name_by_wwn client volume_id s ≡ (returned name, s1))
    (there : get_cli_volume client name s1 ≡ (returned v, s2)) where
  -- Outside partitions, a volume that is in another group is refused, and no command changes the array.
  add_volume_to_volume_group-other :
      truthy v.volume_group_name ≡ true
      → (v.volume_group_name == group) ≡ false
      → add_volume_to_volume_group client group volume_id none s0
        ≡ (raised Exception.volume_already_in_volume_group, s2)
  unfolding add_volume_to_volume_group is_in_other_group
  add_volume_to_volume_group-other t n = ground arith

  -- One that is in none, or in this one already, is put in it by its id.
  add_volume_to_volume_group-free :
      (truthy v.volume_group_name && not (v.volume_group_name == group)) ≡ false
      → add_volume_to_volume_group client group volume_id none s0
        ≡ change_volume_group client none v.id (some group) s2
  unfolding add_volume_to_volume_group is_in_other_group
  add_volume_to_volume_group-free n = ground arith

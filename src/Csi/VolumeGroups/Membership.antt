-- ===== src/Csi/VolumeGroups/Membership.antt =====
-- Changing the members of a group to those that it has already changes nothing.
use ibm_block_csi_driver.Prelude.{◌≡◌, refl, true, Option, String, List, [], ◌∷◌, All, arith}
use ibm_block_csi_driver.Outcome.{returned}
use ibm_block_csi_driver.Requests.Secrets.{ArrayConnectionInfo}
use ibm_block_csi_driver.Arrays.Mediator.{ArrayMediator, VolumeGroup}
use ibm_block_csi_driver.Csi.Status.{ResponseType, success}
use ibm_block_csi_driver.Csi.GroupMembers.{
  modified_group, is_in_volume_group, is_in_request, get_volume_ids_from_request,
  get_volume_ids_from_volume_group,
}
use ibm_block_csi_driver.Csi.VolumeGroups.{
  add_volumes_missing_from_group, remove_volumes_missing_from_request, modify_body,
}

abbrev pub InGroup : List (Option String) → String → Type 0
InGroup group id = is_in_volume_group group id ≡ true

abbrev pub Requested : List String → Option String → Type 0
Requested requested id = is_in_request requested id ≡ returned true

module _ {S : Type 0} (m : ArrayMediator S) where
  nothing_added :
      (ids : List String) (group : List (Option String)) (name : String) (partition : Option String)
      (s : S)
      → All (InGroup group) ids
      → add_volumes_missing_from_group ids group name partition m s ≡ (returned tt, s)
  unfolding add_volumes_missing_from_group
  nothing_added [] group name partition s h = refl
  nothing_added (id ∷ ids) group name partition s h =
      let rest = nothing_added ids group name partition s h.1 in let here = h.0 in ground arith

  nothing_removed :
      (requested : List String) (group : List (Option String)) (partition vg : Option String)
      (s : S)
      → All (Requested requested) group
      → remove_volumes_missing_from_request requested group partition vg m s ≡ (returned tt, s)
  unfolding remove_volumes_missing_from_request
  nothing_removed requested [] partition vg s h = refl
  nothing_removed requested (id ∷ ids) partition vg s h =
      let rest = nothing_removed requested ids partition vg s h.1 in let here = h.0 in ground arith

  -- Where every volume of the request is in the group and every member of the group is in the request,
  -- ModifyVolumeGroupMembership adds none and removes none: it only reads the group, checks its
  -- partition, reads the group again and replies with it.
  pub modify_body-same :
      (volume_ids requested : List String) (name : String) (info : ArrayConnectionInfo)
      (group changed : VolumeGroup) (s t u x : S)
      → m.get_volume_group name s ≡ (returned group, t)
      → m.verify_volume_group_partition group info.partition_name t ≡ (returned tt, u)
      → get_volume_ids_from_request volume_ids ≡ returned requested
      → All (InGroup (get_volume_ids_from_volume_group group.volumes)) requested
      → All (Requested requested) (get_volume_ids_from_volume_group group.volumes)
      → m.get_volume_group name u ≡ (returned changed, x)
      → modify_body volume_ids name info m s
        ≡ (returned (success ResponseType.modify_volume_group_response (modified_group changed)), x)
  unfolding modify_body
  modify_body-same volume_ids requested name info group changed s t u x found verified ids inside
        asked again =
      ground (
        arith,
        nothing_added requested (get_volume_ids_from_volume_group group.volumes) name
            info.partition_name u inside,
        nothing_removed requested (get_volume_ids_from_volume_group group.volumes)
            info.partition_name info.partition_vg u asked,
      )

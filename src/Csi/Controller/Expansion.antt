-- ===== src/Csi/Controller/Expansion.antt =====
-- When ControllerExpandVolume asks the array to expand, and what it answers.
use ibm_block_csi_driver.Prelude.{ℕ, ◌≡◌, true, false, Option, some, String, leb, ltb, arith}
use ibm_block_csi_driver.Outcome.{returned}
use ibm_block_csi_driver.Requests.Ids.{volume}
use ibm_block_csi_driver.Arrays.Mediator.{ArrayMediator, Volume, as_volume, volume_object}
use ibm_block_csi_driver.Csi.Status.{ResponseType, StatusCode, success, build_error_response}
use ibm_block_csi_driver.Csi.Controller.Volumes.{expand_body}

module _ {S : Type 0} (m : ArrayMediator S) (id partition : Option String)
    (required_bytes : ℕ) where
  -- For a volume that the array finds and whose partition is right: where it is already large enough
  -- the call succeeds with its capacity; where it is not and more than the array's maximum is wanted,
  -- the call is OUT_OF_RANGE. In both cases nothing changes after the partition's check.
  expand_body-keeps :
      (v : Volume) (s t u : S)
      → m.get_object_by_id id (some volume) false s ≡ (returned (some (volume_object v)), t)
      → m.verify_volume_partition (volume_object v) partition t ≡ (returned tt, u)
      → (leb required_bytes v.capacity_bytes ≡ true
          → expand_body id partition required_bytes m s ≡ (
            returned (
                success ResponseType.expand_volume_response
                  (record { capacity_bytes = v.capacity_bytes; node_expansion_required = false })),
            u,
          ))
        × (leb required_bytes v.capacity_bytes ≡ false
            → ltb m.maximal_volume_size_in_bytes required_bytes ≡ true
            → expand_body id partition required_bytes m s ≡ (
              returned (
                  build_error_response "SIZE_OUT_OF_RANGE_ERROR_MESSAGE" StatusCode.out_of_range
                    ResponseType.expand_volume_response),
              u,
            ))
  unfolding expand_body as_volume
  expand_body-keeps v s t u found verified = ((λ h. ground arith), (λ h k. ground arith))

  -- A volume that is too small and may grow as wanted is expanded once, and the reply has the capacity
  -- that the array then reports and asks the node to expand as well.
  expand_body-expands :
      (v w : Volume) (s t u x y : S)
      → m.get_object_by_id id (some volume) false s ≡ (returned (some (volume_object v)), t)
      → m.verify_volume_partition (volume_object v) partition t ≡ (returned tt, u)
      → leb required_bytes v.capacity_bytes ≡ false
      → ltb m.maximal_volume_size_in_bytes required_bytes ≡ false
      → m.expand_volume id required_bytes partition u ≡ (returned tt, x)
      → m.get_object_by_id id (some volume) false x ≡ (returned (some (volume_object w)), y)
      → expand_body id partition required_bytes m s ≡ (
        returned (
            success ResponseType.expand_volume_response
              (record { capacity_bytes = w.capacity_bytes; node_expansion_required = true })),
        y,
      )
  unfolding expand_body as_volume
  expand_body-expands v w s t u x y found verified small in_range expanded again = ground arith

-- ===== src/Csi/Controller/Creation.antt =====
-- CreateVolume for a volume that is already there, and for a size that the array does not have.
use ibm_block_csi_driver.Prelude.{
  nat_eq, ℕ, ◌≡◌, true, false, some, String, truthy?, ltb, if◌then◌else◌, arith,
}
use ibm_block_csi_driver.Errors.{Exception}
use ibm_block_csi_driver.Outcome.{returned, raised}
use ibm_block_csi_driver.Requests.Parameters.{get_object_final_name}
use ibm_block_csi_driver.Arrays.Mediator.{ArrayMediator, Volume, volume_object}
use ibm_block_csi_driver.Arrays.Mapping.{Retry}
use ibm_block_csi_driver.Csi.Status.{ResponseType, StatusCode, success}
use ibm_block_csi_driver.Csi.Responses.{generate_volume_response}
use ibm_block_csi_driver.Csi.Controller.Volumes.{required_bytes_of}
use ibm_block_csi_driver.Csi.Controller.Snapshots.{same_text}
use ibm_block_csi_driver.Csi.Controller.CreateVolume.{
  Wanted, no_flash_copy, source_id, use_snap_object, failed, create_volume_body, obtain, finish,
  check_existing, create_new, response_for_existing_source,
}

module _ {S : Type 0} (retry : Retry S) (m : ArrayMediator S) (w : Wanted) where
  -- More than the array's maximum is OUT_OF_RANGE before any call that could change the array.
  create_volume_body-out_of_range :
      (hash_string : String → String) (name pool : String) (s : S)
      → get_object_final_name hash_string w.params.prefix w.request.name m.name_limits
        ≡ returned name
      → ltb m.maximal_volume_size_in_bytes (required_bytes_of w.request.capacity_range) ≡ true
      → create_volume_body retry hash_string w pool m s
        ≡ (returned (failed "SIZE_OUT_OF_RANGE_ERROR_MESSAGE" StatusCode.out_of_range), s)
  unfolding create_volume_body
  create_volume_body-out_of_range hash_string name pool s named large = ground arith

  abbrev pub wanted_bytes : ℕ → ℕ
  wanted_bytes requested = if nat_eq requested 0 then m.minimal_volume_size_in_bytes else requested

  -- A volume of that name, which was not made from a source and of which no copy is wanted, is the
  -- reply as it is where it is large enough; where it is not, the call is ALREADY_EXISTS. In both
  -- cases nothing changes after its partition's check: no second volume is made.
  obtain-existing :
      (required_bytes : ℕ) (name pool : String) (v : Volume) (s t u : S)
      → truthy? (source_id w) ≡ false
      → truthy? v.source_id ≡ false
      → m.get_volume name (some pool) (use_snap_object w) s ≡ (returned v, t)
      → m.verify_volume_partition (volume_object v) w.info.partition_name t ≡ (returned tt, u)
      → obtain retry w required_bytes name pool m s ≡ (
        returned (
            if ltb v.capacity_bytes required_bytes
            then failed "created with different size" StatusCode.already_exists
            else success ResponseType.create_volume_response (
                generate_volume_response
                  (record v { source_id = source_id w })
                  w.info.system_id
                  w.source_type)),
        u,
      )
  unfolding obtain finish check_existing response_for_existing_source
  obtain-existing required_bytes name pool v s t u no_source no_source' found verified =
      ground arith

  -- A request for a name that is there, with no source on either side, is OUT_OF_RANGE before any call
  -- where it asks for more than the array's maximum. Otherwise, where the check of the volume's partition
  -- passes, it gets that volume where it is large enough for the size asked for, or for the array's minimum
  -- if none is, and ALREADY_EXISTS where it is not; nothing changes after that check.
  pub create_volume_body-existing :
      (hash_string : String → String) (name pool : String) (v : Volume) (s t u : S)
      → get_object_final_name hash_string w.params.prefix w.request.name m.name_limits
        ≡ returned name
      → truthy? (source_id w) ≡ false
      → truthy? v.source_id ≡ false
      → m.get_volume name (some pool) (use_snap_object w) s ≡ (returned v, t)
      → m.verify_volume_partition (volume_object v) w.info.partition_name t ≡ (returned tt, u)
      → create_volume_body retry hash_string w pool m s ≡ (
          if ltb m.maximal_volume_size_in_bytes (required_bytes_of w.request.capacity_range)
          then (returned (failed "SIZE_OUT_OF_RANGE_ERROR_MESSAGE" StatusCode.out_of_range), s)
          else (
            returned (
                if ltb v.capacity_bytes (wanted_bytes (required_bytes_of w.request.capacity_range))
                then failed "created with different size" StatusCode.already_exists
                else success ResponseType.create_volume_response (
                    generate_volume_response
                      (record v { source_id = source_id w })
                      w.info.system_id
                      w.source_type)),
            u,
          ))
  unfolding create_volume_body
  create_volume_body-existing hash_string name pool v s t u named a b found verified = ground (
    arith,
    named,
    a,
    obtain-existing (wanted_bytes (required_bytes_of w.request.capacity_range)) name pool v s t u a
        b found verified,
  )

  -- The same for a volume of which a copy of a source is wanted
  obtain-copy :
      (required_bytes : ℕ) (name pool : String) (v : Volume) (s t u : S)
      → truthy? (source_id w) ≡ true
      → use_snap_object w ≡ false
      → m.get_volume name (some pool) (use_snap_object w) s ≡ (returned v, t)
      → m.verify_volume_partition (volume_object v) w.info.partition_name t ≡ (returned tt, u)
      → obtain retry w required_bytes name pool m s ≡ (
        returned (
            if same_text v.source_id (source_id w)
            then success ResponseType.create_volume_response
                (generate_volume_response v w.info.system_id w.source_type)
            else failed "created from a different source" StatusCode.already_exists),
        u,
      )
  unfolding obtain check_existing response_for_existing_source
  obtain-copy required_bytes name pool v s t u sourced plain found verified = ground arith

  -- Without the snapshot function and outside a partition, a request for a copy of a source under a name
  -- that is there is OUT_OF_RANGE before any call where it asks for more than the array's maximum. Otherwise, where the check of the
  -- volume's partition passes, it succeeds exactly where that volume was made from that source, whatever
  -- its size, and is ALREADY_EXISTS where it was not; nothing is copied.
  pub create_volume_body-copy :
      (hash_string : String → String) (name pool : String) (v : Volume) (s t u : S)
      → get_object_final_name hash_string w.params.prefix w.request.name m.name_limits
        ≡ returned name
      → truthy? (source_id w) ≡ true
      → no_flash_copy w ≡ false
      → m.get_volume name (some pool) (use_snap_object w) s ≡ (returned v, t)
      → m.verify_volume_partition (volume_object v) w.info.partition_name t ≡ (returned tt, u)
      → create_volume_body retry hash_string w pool m s ≡ (
          if ltb m.maximal_volume_size_in_bytes (required_bytes_of w.request.capacity_range)
          then (returned (failed "SIZE_OUT_OF_RANGE_ERROR_MESSAGE" StatusCode.out_of_range), s)
          else (
            returned (
                if same_text v.source_id (source_id w)
                then success ResponseType.create_volume_response
                    (generate_volume_response v w.info.system_id w.source_type)
                else failed "created from a different source" StatusCode.already_exists),
            u,
          ))
  unfolding create_volume_body
  create_volume_body-copy hash_string name pool v s t u named a b found verified =
      let plain : use_snap_object w ≡ false = ground (arith, b) in
      ground (
        arith,
        named,
        a,
        b,
        obtain-copy (wanted_bytes (required_bytes_of w.request.capacity_range)) name pool v s t u a
            plain found verified,
      )

  -- A volume that is not there is made with the parameters of the request, and copied into where the
  -- array's own copy of a source is asked for; where that fails the exception is the call's.
  obtain-new :
      (required_bytes : ℕ) (name pool : String) (v : Volume) (s t u : S)
      → m.get_volume name (some pool) (use_snap_object w) s ≡ (raised Exception.object_not_found, t)
      → create_new w required_bytes name pool m t ≡ (returned v, u)
      → obtain retry w required_bytes name pool m s ≡ finish retry w required_bytes v m u
  unfolding obtain
  obtain-new required_bytes name pool v s t u missing created = ground arith

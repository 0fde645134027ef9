-- ===== src/Arrays/Svc/Sizes.antt =====
-- controllers/array_action/array_mediator_svc.py: the sizes that a volume is created with and enlarged
-- to, and what a refusal of the command raises.
use ibm_block_csi_driver.Prelude.{
  ap, ◌∙◌, [], ◌∷◌, ℕ, ◌+◌, ◌-◌, ◌≤◌, ◌<◌, ◌≡◌, Bool, true, false, Option, String, List, any,
  truthy?, if◌then◌else◌, arith,
}
use Prim.Native.Nat.{◌%◌}
use ibm_block_csi_driver.Errors.{Exception}
use ibm_block_csi_driver.Outcome.{returned, raised}
use ibm_block_csi_driver.Exec.{Exec}
use ibm_block_csi_driver.Arrays.Svc.{
  text, number, CliVolume, Fcmap, SvcClient, is_warning_message, get_cli_volume_by_wwn,
  is_in_remote_copy_relationship,
}
use ibm_block_csi_driver.Arrays.Svc.Kwargs.{build_kwargs_from_parameters}
use ibm_block_csi_driver.Arrays.Svc.Volumes.{
  convert_size_bytes, create_cli_volume, creation_error, expand_cli_volume,
}
use ibm_block_csi_driver.Arrays.Svc.Copies.{
  in_use, delete_fcmaps, safe_delete_fcmaps, get_object_fcmaps, expand_by_fcmaps, expand_volume,
}

-- The size sent to the array is the multiple of 512 bytes that is not below the size asked for and
-- exceeds it by less than 512.
convert_size_bytes-least :
    (size : ℕ)
    → (convert_size_bytes size % 512 ≡ 0)
      × (size ≤ convert_size_bytes size)
      × (convert_size_bytes size < size + 512)
unfolding convert_size_bytes
convert_size_bytes-least size = (ground arith, ground arith, ground arith)

module _ {S : Type 0} (client : SvcClient S) where
  -- A volume whose creation the array refuses with an error raises the class that the message's code
  -- stands for; a warning is taken for success. The state is what the command left.
  create_cli_volume-refused :
      (name : String) (size : ℕ) (efficiency : Option String) (pool : String)
      (io_group volume_group : Option String) (s s' : S) (message : String) (warning : Bool)
      → client.svctask "mkvolume"
          (build_kwargs_from_parameters efficiency pool io_group volume_group name
            (convert_size_bytes size))
          s
        ≡ (raised (Exception.cli_error message), s')
      → is_warning_message message ≡ returned warning
      → create_cli_volume client name size efficiency pool io_group volume_group s
        ≡ (if warning then returned tt else raised (creation_error message), s')
  unfolding create_cli_volume
  create_cli_volume-refused name size efficiency pool io_group volume_group s s' message true h w =
      ground arith
  create_cli_volume-refused name size efficiency pool io_group volume_group s s' message false h w =
      ground arith

  abbrev pub expansion : CliVolume → ℕ → Bool → Exec S (Unit {0})
  expansion v increase hyperswap =
      if hyperswap
      then client.svctask "expandvolume"
          (("object_id", text v.name) ∷ ("unit", text "b") ∷ ("size", number increase) ∷ [])
      else client.svctask "expandvdisksize"
          (("vdisk_id", text v.name) ∷ ("unit", text "b") ∷ ("size", number increase) ∷ [])

  expanded :
      (v : CliVolume) (increase : ℕ) (hyperswap : Bool) (s t : S)
      → expansion v increase hyperswap s ≡ (returned tt, t)
      → expand_cli_volume client v increase hyperswap s ≡ (returned tt, t)
  unfolding expand_cli_volume
  expanded v increase true s t h = ground arith
  expanded v increase false s t h = ground arith

  module _ (volume_id : String) (required : ℕ) (s s' : S) (v : CliVolume)
      (there : get_cli_volume_by_wwn client volume_id s ≡ (returned v, s')) where
    -- A volume is never made smaller: the request is refused, and nothing is sent to the array.
    expand_volume-smaller :
        (partition : Option String)
        → convert_size_bytes required < v.capacity
        → expand_volume client volume_id required partition s
          ≡ (raised Exception.invalid_argument, s')
    unfolding expand_volume
    expand_volume-smaller partition h = ground arith

    -- While one of the volume's mappings is in use the volume is not enlarged, and nothing is sent to
    -- the array after the mappings are read.
    expand_volume-in_use :
        (partition : Option String) (t : S) (fs : List Fcmap)
        → v.capacity ≤ convert_size_bytes required
        → truthy? partition ≡ false
        → get_object_fcmaps client v.name s' ≡ (returned fs, t)
        → any in_use fs ≡ true
        → expand_volume client volume_id required partition s
          ≡ (raised Exception.object_is_still_in_use, t)
    unfolding expand_volume expand_by_fcmaps safe_delete_fcmaps
    expand_volume-in_use partition t fs h p q u = ground arith

    -- Outside a partition, where none of its mappings is in use and their deletion succeeds, a volume that
    -- is not too large is enlarged by what it lacks of the multiple of 512 that is not below the required
    -- bytes and exceeds them by less than 512; by `expandvolume` if a remote copy controls one of the
    -- mappings, by `expandvdisksize` otherwise.
    pub expand_volume-grows :
        (partition : Option String) (t u : S) (fs : List Fcmap)
        → v.capacity ≤ convert_size_bytes required
        → truthy? partition ≡ false
        → get_object_fcmaps client v.name s' ≡ (returned fs, t)
        → any in_use fs ≡ false
        → delete_fcmaps client fs t ≡ (returned tt, u)
        → (increase : ℕ) × ((v.capacity + increase) % 512 ≡ 0)
          × (required ≤ v.capacity + increase)
          × (v.capacity + increase < required + 512)
          × ((x : S)
              → expansion v increase (any is_in_remote_copy_relationship fs) u ≡ (returned tt, x)
              → expand_volume client volume_id required partition s ≡ (returned tt, x))
    unfolding expand_volume expand_by_fcmaps safe_delete_fcmaps
    expand_volume-grows partition t u fs h p q n d =
        let increase = convert_size_bytes required - v.capacity in
        let sum : v.capacity + increase ≡ convert_size_bytes required = omega (arith, h) in
        let (whole, enough, little) = convert_size_bytes-least required in
        (
          increase,
          ap (λ m. m % 512) sum ∙ whole,
          omega (arith, sum, enough),
          omega (arith, sum, little),
          λ x sent.
              ground (arith, expanded v increase (any is_in_remote_copy_relationship fs) u x sent),
        )

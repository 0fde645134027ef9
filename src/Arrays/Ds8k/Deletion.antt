-- ===== src/Arrays/Ds8k/Deletion.antt =====
-- controllers/array_action/array_mediator_ds8k.py: what is left when a volume may not be deleted, and when a
-- snapshot fails halfway.
use ibm_block_csi_driver.Prelude.{
  ◌≡◌, refl, Bool, true, false, not, ◌||◌, Option, String, List, [], ◌∷◌, any, ◌==◌, if◌then◌else◌,
  arith,
}
use ibm_block_csi_driver.Errors.{Exception}
use ibm_block_csi_driver.Outcome.{returned, raised}
use ibm_block_csi_driver.Arrays.Mapping.{Retry}
use ibm_block_csi_driver.Arrays.VolumeCache.{Cache}
use ibm_block_csi_driver.Arrays.Ds8k.{
  Flashcopy, FlashcopyProcess, ApiVolume, Ds8kTypes, Ds8kClient, scsi_id_to_volume_id,
}
use ibm_block_csi_driver.Arrays.Ds8k.Volumes.{
  delete_flashcopy, read_api_volume_by_id, flashcopies_as_source, ensure_flashcopy_safe_to_delete,
  ensure_all, safe_delete_flashcopies, delete_volume,
}
use ibm_block_csi_driver.Arrays.Ds8k.Snapshots.{
  is_rolled_back, get_flashcopy_state, create_similar_volume, create_flashcopy, create_target,
  delete_target_volume_if_exist,
}

-- A relationship is in use while it copies nothing in the background, or tracks are left to copy.
unfoldable pub is_in_use : Flashcopy → FlashcopyProcess → Bool
is_in_use f process = f.backgroundcopy == "disabled" || not (process.out_of_sync_tracks == "0")

module _ {S : Type 0} (client : Ds8kClient S) (s : S) (process_of : Flashcopy → FlashcopyProcess)
    (asks : (f : Flashcopy) → client.get_flashcopies f.id s ≡ (returned (process_of f), s)) where
  -- Asking changes nothing: the check passes exactly where no relationship is in use.
  ensure_all-in_use :
      (fs : List Flashcopy)
      → ensure_all client fs s ≡ (
        (if any (λ f. is_in_use f (process_of f)) fs
            then raised Exception.object_is_still_in_use
            else returned tt),
        s,
      )
  unfolding ensure_all ensure_flashcopy_safe_to_delete is_in_use
  ensure_all-in_use [] = refl
  ensure_all-in_use (f ∷ fs) = ground (arith, asks f, ensure_all-in_use fs)

  -- A volume that a relationship in use copies from is not deleted: the refusal says so, no command that
  -- changes the array is sent, and the cache keeps the volume.
  pub delete_volume-relationship_in_use :
      (address volume_id : String) (v : ApiVolume) (cache : Cache)
      → read_api_volume_by_id client (scsi_id_to_volume_id volume_id) s ≡ (returned v, s)
      → any (λ f. is_in_use f (process_of f)) (flashcopies_as_source v.id v.flashcopy) ≡ true
      → delete_volume client address volume_id (s, cache)
        ≡ (raised Exception.object_is_still_in_use, (s, cache))
  unfolding delete_volume safe_delete_flashcopies
  delete_volume-relationship_in_use address volume_id v cache found used =
      ground (arith, ensure_all-in_use (flashcopies_as_source v.id v.flashcopy))

module _ {S : Type 0} (client : Ds8kClient S) (types : Ds8kTypes) (retry : Retry S) (name : String)
    (source : ApiVolume) (space_efficiency pool : Option String) (s s1 s2 : S) (target : ApiVolume)
    (e : Exception)
    (made : create_similar_volume client types name source space_efficiency pool s
      ≡ (returned target, s1))
    (failed : create_flashcopy client types source.id target.id
        (types.option_nbc ∷ types.option_per ∷ [])
        s1
      ≡ (raised e, s2)) where
  -- Where the relationship of a snapshot is refused because there is one already or a volume is not found,
  -- the new volume is deleted and the error raised again.
  create_target-rolled_back :
      (t : S)
      → is_rolled_back e ≡ true
      → delete_target_volume_if_exist client types retry target.id s2 ≡ (returned tt, t)
      → create_target client types retry name source space_efficiency pool s ≡ (raised e, t)
  unfolding create_target
  create_target-rolled_back t r d = ground arith

  -- After any other error, that of a relationship whose state is not valid too, the new volume is left.
  create_target-left :
      is_rolled_back e ≡ false
      → create_target client types retry name source space_efficiency pool s ≡ (raised e, s2)
  unfolding create_target
  create_target-left r = ground arith

-- A snapshot whose relationship is not valid raises ValueError after the relationship is deleted, and leaves
-- the new volume: the call on the array before the error is the deletion of the relationship.
pub create_target-invalid :
    {S : Type 0} (client : Ds8kClient S) (types : Ds8kTypes) (retry : Retry S) (name id : String)
    (source target : ApiVolume) (space_efficiency pool : Option String) (process : FlashcopyProcess)
    (s s1 s2 s3 t : S)
    → create_similar_volume client types name source space_efficiency pool s ≡ (returned target, s1)
    → client.create_flashcopy source.id target.id
        (types.option_nbc ∷ types.option_per ∷ types.option_pset ∷ [])
        s1
      ≡ (returned id, s2)
    → client.get_flashcopies id s2 ≡ (returned process, s3)
    → (process.state == "valid") ≡ false
    → client.delete_flashcopy id s3 ≡ (returned tt, t)
    → create_target client types retry name source space_efficiency pool s
      ≡ (raised Exception.value_error, t)
unfolding create_target create_flashcopy is_rolled_back get_flashcopy_state delete_flashcopy
create_target-invalid client types retry name id source target space_efficiency pool process s s1 s2
      s3 t made related asked invalid deleted =
    ground arith

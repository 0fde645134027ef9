-- ===== src/Examples/Ds8k.antt =====
-- A DS8000 array that keeps the calls that change it, with two volumes; and volume caches.
use ibm_block_csi_driver.Prelude.{
  ◌<◌, ◌≤◌, ◌≡◌, ◌↔◌, ◌⊎◌, refl, none, some, String, List, [], ◌∷◌, ◌==◌, if◌then◌else◌, arith,
}
use ibm_block_csi_driver.Errors.{Exception, Ds8kError}
use ibm_block_csi_driver.Outcome.{returned, raised}
use ibm_block_csi_driver.Exec.{Exec, pure, raise}
use ibm_block_csi_driver.Arrays.Mediator.{Volume}
use ibm_block_csi_driver.Arrays.Mapping.{Retry}
use ibm_block_csi_driver.Examples.Fixture.{run, run-returned, run-other, run-again, run-last}
use ibm_block_csi_driver.Arrays.Ds8k.{
  Flashcopy, FlashcopyProcess, ApiVolume, volume_of, Ds8kClient, Ds8kTypes, scsi_id_to_volume_id,
}
use ibm_block_csi_driver.Arrays.Ds8k.Volumes.{
  read_api_volume_by_id, flashcopies_as_source, delete_volume, get_volume,
}
use ibm_block_csi_driver.Arrays.Ds8k.Snapshots.{create_similar_volume, create_target}
use ibm_block_csi_driver.Arrays.Ds8k.Luns.{
  swap_halves, int_to_scsilun, scsilun_to_int, scsilun_to_int-int_to_scsilun,
}
use ibm_block_csi_driver.Arrays.Ds8k.Lookup.{get_volume-named}
use ibm_block_csi_driver.Arrays.Ds8k.Deletion.{
  is_in_use, delete_volume-relationship_in_use, create_target-invalid,
}

abbrev Calls : Type 0
Calls = List String

abbrev relation : Flashcopy
relation = record {
  id = "f1";
  sourcevolume = "0001";
  targetvolume = "0002";
  backgroundcopy = "enabled";
}

abbrev named : String → String → ApiVolume
named id name = record { id = id; name = name; cap = 10; pool = "P0"; tp = "none"; flashcopy = [] }

abbrev types : Ds8kTypes
types = record {
  tp_ese = "ese";
  tp_none = "none";
  option_per = "persistent";
  option_nbc = "no_background_copy";
  option_pset = "permit_space_efficient_target";
}

abbrev process : FlashcopyProcess
process = record { state = "invalid"; out_of_sync_tracks = "8" }

abbrev told : {A : Type 0} → String → A → Exec Calls A
told call a calls = pure a (call ∷ calls)

abbrev client : Ds8kClient Calls
client = record {
  get_system = pure (record { id = "i"; bundle = "88.0.1"; wwnn = "5005076304FFD000" });
  get_volume =
      λ id. pure (named id (if id == "0001" then "v" else if id == "0003" then "s" else "other"));
  get_volumes_by_pool = λ pool. pure (named "0002" "other" ∷ named "0001" "v" ∷ []);
  get_flashcopies_by_volume = λ id. pure (if id == "0001" then relation ∷ [] else []);
  get_flashcopies = λ id. pure process;
  create_volume = λ name size pool tp. told "create_volume" (named "0003" name);
  extend_volume = λ id size. told "extend_volume" tt;
  delete_volume = λ id. told "delete_volume" tt;
  create_flashcopy = λ source target options. told "create_flashcopy" "f2";
  delete_flashcopy = λ id. told "delete_flashcopy" tt;
  get_hosts = pure [];
  get_host = λ name. raise (Exception.ds8k_error Ds8kError.not_found "");
  get_host_mappings = λ name. pure [];
  map_volume_to_host = λ host id. pure "00";
  unmap_volume_from_host = λ host lun. told "unmap_volume_from_host" tt;
}

abbrev retried : Retry Calls
retried = record {
  call = run;
  call-returned = λ A p n m. run-returned p m n;
  call-other = λ A p n m. run-other p m n;
  call-again = λ A p n m. run-again p m n;
  call-last = λ A p m. run-last p m;
}

-- The cache holds the id of another volume for the name.
abbrev answer : Volume
answer = volume_of types "a" "5005076304FFD000" (named "0001" "v") none ("none" ∷ "" ∷ [])

get_volume-named_example : answer.name ≡ "v"
unfolding get_volume
get_volume-named_example =
    get_volume-named client "v" "a" types "5005076304FFD000" (some "P0") []
      (("a", ("v", "0002") ∷ []) ∷ []) answer _ refl

delete_volume-relationship_in_use_example :
    delete_volume client "a" "60010001" ([], [])
    ≡ (raised Exception.object_is_still_in_use, ([], []))
unfolding read_api_volume_by_id scsi_id_to_volume_id flashcopies_as_source is_in_use
delete_volume-relationship_in_use_example =
    delete_volume-relationship_in_use client [] (λ f. process) (λ f. refl) "a" "60010001"
      (record (named "0001" "v") { flashcopy = relation ∷ [] }) [] refl refl

create_target-invalid_example :
    create_target client types retried "s" (named "0001" "v") none none []
    ≡ (raised Exception.value_error, "delete_flashcopy" ∷ "create_flashcopy" ∷ "create_volume" ∷ [])
unfolding create_similar_volume
create_target-invalid_example =
    create_target-invalid client types retried "s" "f2" (named "0001" "v") (named "0003" "s") none
      none process [] ("create_volume" ∷ []) ("create_flashcopy" ∷ "create_volume" ∷ [])
      ("create_flashcopy" ∷ "create_volume" ∷ [])
      ("delete_flashcopy" ∷ "create_flashcopy" ∷ "create_volume" ∷ []) refl refl refl refl refl

scsilun_to_int-int_to_scsilun_example :
    (scsilun_to_int (int_to_scsilun 1075331113) ≡ returned 1075331113)
    ↔ ((1075331113 < 256) ⊎ (256 ≤ swap_halves 1075331113))
scsilun_to_int-int_to_scsilun_example = scsilun_to_int-int_to_scsilun 1075331113 (omega arith)

-- ===== src/Examples/Svc.antt =====
-- An array of the Storage Virtualize kind that keeps the commands it was sent and which end of its one
-- relationship is primary; and the volume caches.
use ibm_block_csi_driver.Prelude.{
  ℕ, ◌+◌, ◌≡◌, refl, ap, sym, true, false, Option, none, some, String, List, [], ◌∷◌, is_empty,
  starts_with, finds, join, ◌==◌, if◌then◌else◌, arith,
}
use ibm_block_csi_driver.Errors.{Exception}
use ibm_block_csi_driver.Outcome.{returned, raised}
use ibm_block_csi_driver.Exec.{pure}
use ibm_block_csi_driver.Arrays.Mapping.{Retry}
use ibm_block_csi_driver.Examples.Fixture.{run, run-returned, run-other, run-again, run-last}
use ibm_block_csi_driver.Arrays.Svc.{
  text, CliKwargs, one_pool, CliVolume, Fcmap, Rcrelationship, SvcResponse, SvcClient,
  get_cli_volume_by_wwn, get_fcmap_as_target_if_exists, get_fcmaps_as_source_if_exist,
}
use ibm_block_csi_driver.Arrays.Svc.Volumes.{convert_size_bytes}
use ibm_block_csi_driver.Arrays.Svc.Copies.{
  in_use, delete_volume, delete_fcmaps, get_object_fcmaps, expand_volume,
}
use ibm_block_csi_driver.Arrays.Svc.Hosts.{draw_lun, numbers_of}
use Prim.Native.Nat.{◌%◌}
use ibm_block_csi_driver.Prelude.{◌≤◌, ◌<◌, elem, eq_refl}
use ibm_block_csi_driver.Prelude.Digits.{read}
use ibm_block_csi_driver.Arrays.Svc.Sizes.{expansion, expand_volume-grows}
use ibm_block_csi_driver.Arrays.Svc.Deletion.{delete_volume-in_use}
use ibm_block_csi_driver.Arrays.Svc.Luns.{draw_lun-free}
use ibm_block_csi_driver.Arrays.Svc.Relationships.{
  promote_replication, promote_connected, ensure_endpoint_is_primary, promote_replication_endpoint,
  get_replication_endpoint_type, get_rcrelationship_by_name,
}
use ibm_block_csi_driver.Arrays.Svc.Promotion.{Switches, promote-demote}
use ibm_block_csi_driver.Arrays.VolumeCache.{
  Cache, Call, add_call, get_call, add_or_delete_call, remove_call, perform,
}
use ibm_block_csi_driver.Arrays.VolumeCache
use ibm_block_csi_driver.Arrays.VolumeCache.Refinement.{known, specified_run, run-specified}

record ArrayState : Type 0 where
  commands : List String
  primary : String

abbrev fresh : ArrayState
fresh = record { commands = []; primary = "aux" }

abbrev retried : Retry ArrayState
retried = record {
  call = run;
  call-returned = λ A p n m. run-returned p m n;
  call-other = λ A p n m. run-other p m n;
  call-again = λ A p n m. run-again p m n;
  call-last = λ A p m. run-last p m;
}

abbrev vdisk : CliVolume
vdisk = record {
  name = "v";
  id = "7";
  vdisk_uid = "6005";
  capacity = 512;
  mdisk_grp_name = one_pool "p";
  se_copy = "no";
  compressed_copy = "no";
  deduplicated_copy = none;
  fc_id = "3";
  io_group_name = "io_grp0";
  volume_group_id = "";
  volume_group_name = "";
  source_volume_name = "";
  replication_mode = "";
  fc_map_count = "0";
}

abbrev mapping : String → Fcmap
mapping status = record {
  id = "3";
  source_vdisk_name = "v";
  status = status;
  copy_rate = "50";
  rc_controlled = "no";
}

abbrev relationship : Rcrelationship
relationship = record {
  id = "9";
  name = "rc";
  state = "consistent_synchronized";
  primary = "aux";
  copy_type = "global";
  master_cluster_id = "me";
  aux_vdisk_name = "w";
}

abbrev answers : {A : Type 0} → List A → Option A → SvcResponse A
answers all one = record { as_single_element = returned one; as_list = returned all }

abbrev first_value : CliKwargs → String
first_value ((k, text e) ∷ more) = e
first_value _ = ""

abbrev switched : String → CliKwargs → ArrayState → ArrayState
switched name kwargs s = record {
  commands = name ∷ s.commands;
  primary = if name == "switchrcrelationship" then first_value kwargs else s.primary;
}

-- With mappings that the volume is the source of, and a command that the array refuses
abbrev client : List Fcmap → String → SvcClient ArrayState
client maps refused = record {
  register_plugin = λ key. pure tt;
  svctask = λ name kwargs s.
      if name == refused
      then (raised (Exception.cli_error "\"CMMVC1E refused\""), s)
      else (returned tt, switched name kwargs s);
  supports = λ name. false;
  mkrcrelationship = λ kwargs. pure (some "9");
  lsvdisk = λ kwargs. pure (answers (vdisk ∷ []) (some vdisk));
  lsfcmap = λ filter. pure (answers (if starts_with "source" filter then maps else []) none);
  lsrcrelationship = λ filter. pure (answers (relationship ∷ []) (some relationship));
  lsmdiskgrp = λ filter. pure (answers [] none);
  lspartition = λ kwargs. pure (answers [] none);
  lsreplicationpolicy = λ kwargs. pure (answers [] none);
  lsvolumesnapshot = λ kwargs. pure (answers [] none);
  addsnapshot = λ kwargs. pure "3";
  lsvolumegroup = λ kwargs. pure (answers [] none);
  lshost = λ name. pure (answers [] none);
  detailed_hosts = pure [];
  lsfabric = λ kwargs. pure (answers [] none);
  lsnvmefabric = λ kwargs. pure (answers [] none);
  lshostiplogin = λ kwargs. pure (answers [] none);
  lshostiogrp = λ name. pure (answers [] none);
  lshostvdiskmap = λ host. pure ("0" ∷ "1" ∷ []);
  lsvdiskhostmap = λ name. pure [];
  identifier = pure "me";
}

delete_volume-in_use_example :
    delete_volume (client (mapping "copying" ∷ []) "") "6005" none fresh
    ≡ (raised Exception.object_is_still_in_use, fresh)
unfolding get_cli_volume_by_wwn get_fcmap_as_target_if_exists get_fcmaps_as_source_if_exist in_use
    starts_with join
delete_volume-in_use_example =
    delete_volume-in_use (client (mapping "copying" ∷ []) "") "6005" fresh fresh fresh fresh fresh
      vdisk none (mapping "copying" ∷ []) refl refl refl refl refl

expand_volume-grows_example :
    (increase : ℕ) × ((512 + increase) % 512 ≡ 0)
    × (1000 ≤ 512 + increase)
    × (512 + increase < 1000 + 512)
    × ((x : ArrayState)
        → expansion
            (client (mapping "idle_or_copied" ∷ []) "")
            vdisk
            increase
            false
            (switched "rmfcmap" [] fresh)
          ≡ (returned tt, x)
        → expand_volume (client (mapping "idle_or_copied" ∷ []) "") "6005" 1000 none fresh
          ≡ (returned tt, x))
unfolding get_cli_volume_by_wwn get_object_fcmaps in_use delete_fcmaps convert_size_bytes
    starts_with join
expand_volume-grows_example =
    expand_volume-grows (client (mapping "idle_or_copied" ∷ []) "") "6005" 1000 fresh fresh vdisk
      refl none fresh (switched "rmfcmap" [] fresh) (mapping "idle_or_copied" ∷ []) (omega arith)
      refl refl refl refl

abbrev head_of : List String → String
head_of [] = ""
head_of (lun ∷ luns) = lun

head_of-elem : (luns : List String) → is_empty luns ≡ false → elem (head_of luns) luns ≡ true
head_of-elem [] h = cc
head_of-elem (lun ∷ luns) h = rw (eq_refl lun) refl

draw_lun-free_example :
    (lun : String) × (draw_lun head_of (λ low high. low) ("0" ∷ "1" ∷ []) ≡ returned lun)
    × (elem lun ("0" ∷ "1" ∷ []) ≡ false)
unfolding numbers_of read
draw_lun-free_example =
    draw_lun-free head_of (λ low high. low) head_of-elem (λ low high h. omega arith)
      ("0" ∷ "1" ∷ []) (0 ∷ 1 ∷ []) refl

abbrev sent : ArrayState
sent =
    switched "switchrcrelationship" (("primary", text "master") ∷ ("object_id", text "rc") ∷ [])
      fresh

switches : Switches (client [] "") (λ s. s.primary) relationship
switches = (λ e s s' h. sym (ap (λ p. (p.1).primary) h), λ e s s' message h. cc)

-- The auxiliary end is primary, and the switch is sent.
promote-demote_example : "master" ≡ get_replication_endpoint_type "me" relationship
unfolding get_rcrelationship_by_name finds promote_replication promote_connected
    ensure_endpoint_is_primary promote_replication_endpoint
promote-demote_example =
    promote-demote (client [] "") (λ s. s.primary) relationship true "rc" "me" fresh fresh fresh
      sent switches refl refl refl refl refl

run-specified_example :
    (
      (VolumeCache.run
          (("a", add_call "v" "1")
            ∷ ("b", get_call "v")
            ∷ ("a", get_call "v")
            ∷ ("a", add_or_delete_call "v" "2")
            ∷ [])
          []).0,
      known
          (VolumeCache.run
            (("a", add_call "v" "1")
              ∷ ("b", get_call "v")
              ∷ ("a", get_call "v")
              ∷ ("a", add_or_delete_call "v" "2")
              ∷ [])
            []).1,
    )
    ≡ specified_run
        (("a", add_call "v" "1")
          ∷ ("b", get_call "v")
          ∷ ("a", get_call "v")
          ∷ ("a", add_or_delete_call "v" "2")
          ∷ [])
        (known [])
run-specified_example =
    run-specified
      (("a", add_call "v" "1")
        ∷ ("b", get_call "v")
        ∷ ("a", get_call "v")
        ∷ ("a", add_or_delete_call "v" "2")
        ∷ [])
      []

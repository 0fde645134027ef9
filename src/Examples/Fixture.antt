-- ===== src/Examples/Fixture.antt =====
-- A mediator over a counter of changes, retries that only count, and a process with one array.
use ibm_block_csi_driver.Prelude.{
  ℕ, zero, suc, ◌+◌, ◌≡◌, Bool, true, false, not, ◌&&◌, Option, none, some, String, [], ◌∷◌, Dict,
  pos, nat_eq, if◌then◌else◌, arith,
}
use ibm_block_csi_driver.Errors.{Exception}
use ibm_block_csi_driver.Outcome.{returned, raised}
use ibm_block_csi_driver.Exec.{Exec, pure, raise}
use ibm_block_csi_driver.Requests.Messages.{
  AccessMode, block, VolumeCapability, CreateVolumeRequest, VolumeIdRequest, UnpublishVolumeRequest,
}
use ibm_block_csi_driver.Requests.Secrets.{ArrayConnectionInfo}
use ibm_block_csi_driver.Arrays.Mediator.{ArrayMediator, Volume, volume_object}
use ibm_block_csi_driver.Arrays.Mapping.{Retry}
use ibm_block_csi_driver.Csi.Session.{Environment, Arrays}
use ibm_block_csi_driver.Csi.Controller.CreateVolume.{Wanted}

unfoldable pub run : {S A : Type 0} → (Exception → Bool) → ℕ → Exec S A → Exec S A
run p zero m s = (raised Exception.not_implemented, s)
run p (suc n) m s =
    let (r, t) = m s in
    let again = run p n m t in
    elim r [
      | returned a ↦ (returned a, t)
      | raised e ↦ if p e && not (nat_eq n 0) then again else (raised e, t)
    ]

module _ {S A : Type 0} (p : Exception → Bool) (m : Exec S A) where
  pub run-returned :
      (n : ℕ) (s t : S) (a : A) → m s ≡ (returned a, t) → run p (suc n) m s ≡ (returned a, t)
  unfolding run
  run-returned n s t a h = ground arith

  pub run-other :
      (n : ℕ) (s t : S) (e : Exception)
      → m s ≡ (raised e, t)
      → p e ≡ false
      → run p (suc n) m s ≡ (raised e, t)
  unfolding run
  run-other n s t e h k = ground arith

  pub run-again :
      (n : ℕ) (s t : S) (e : Exception)
      → m s ≡ (raised e, t)
      → p e ≡ true
      → run p (suc (suc n)) m s ≡ run p (suc n) m t
  unfolding run
  run-again n s t e h k = ground arith

  pub run-last : (s t : S) (e : Exception) → m s ≡ (raised e, t) → run p 1 m s ≡ (raised e, t)
  unfolding run
  run-last s t e h = ground arith

abbrev pub counted : Retry ℕ
counted = record {
  call = run;
  call-returned = λ A p n m. run-returned p m n;
  call-other = λ A p n m. run-other p m n;
  call-again = λ A p n m. run-again p m n;
  call-last = λ A p m. run-last p m;
}

abbrev pub change : Exec ℕ (Unit {0})
change s = (returned tt, s + 1)

abbrev pub gold : Volume
gold = record {
  name = "csi_gold";
  id = some "6005";
  internal_id = some "7";
  array_type = some "A9000";
  capacity_bytes = 100;
  array_address = "10.0.0.1" ∷ [];
  source_id = none;
  pool = "p";
  space_efficiency_aliases = [];
  volume_group_id = none;
  volume_group_name = none;
  partition_name = none;
}

-- One volume; nothing is mapped.
abbrev pub array : ArrayMediator ℕ
array = record {
  disconnect = pure tt;
  create_volume = λ name size e pool g vg src t snap part pvg ps s. (returned gold, s + 1);
  copy_to_existing_volume = λ id src cap size. raise Exception.not_enough_space_in_pool;
  delete_volume = λ id part. change;
  get_volume = λ name pool snap. pure gold;
  expand_volume = λ id size part. change;
  get_volume_mappings = λ id. pure [];
  map_volume = λ id host t. raise Exception.lun_already_in_use;
  unmap_volume = λ id host. change;
  get_snapshot = λ id name pool snap. pure none;
  get_object_by_id = λ id t snap. pure (some (volume_object gold));
  create_snapshot = λ id name e pool snap part pct. raise Exception.object_not_found;
  delete_snapshot = λ id internal part. change;
  get_iscsi_targets_by_iqn = λ host. pure [];
  get_array_fc_wwns = λ host. pure [];
  get_nvme_target_ports = pure [];
  get_host_by_host_identifiers = λ i. raise Exception.host_not_found;
  get_host_by_name = λ host. raise Exception.host_not_found;
  validate_supported_space_efficiency = λ e. pure tt;
  verify_volume_partition = λ v part. pure tt;
  verify_volume_group_partition = λ g part. pure tt;
  register_plugin = λ k v. pure tt;
  get_replication = λ r. pure none;
  create_replication = λ r. change;
  delete_replication = λ r. change;
  promote_replication_volume = λ r. change;
  demote_replication_volume = λ r. change;
  get_volume_group = λ id. raise Exception.object_not_found;
  create_volume_group = λ name part. raise Exception.object_not_found;
  delete_volume_group = λ id. change;
  add_volume_to_volume_group = λ g v part. change;
  remove_volume_from_volume_group = λ g v part. change;
  name_limits = record {
    max_object_name_length = 63;
    max_object_prefix_length = 20;
    default_object_prefix = none;
  };
  minimal_volume_size_in_bytes = 1;
  maximal_volume_size_in_bytes = 1000;
  max_lun_retries = 3;
}

abbrev pub arrays : ArrayMediator ℕ → Arrays ℕ
arrays m = record {
  detect_array_type = λ addresses. pure "A9000";
  get_mediator = λ info t. pure (m, pure tt);
  retry = counted;
}

abbrev pub environment : Environment
environment = record {
  load_config = λ s. none;
  load_parameters = λ s. none;
  hash_string = λ s. s;
  nodes = record {
    loads = λ s. some ([], [], []);
    dumps = λ i. "{}";
    read_node = λ name. returned none;
  };
  plugin_name = "block.csi.ibm.com";
  plugin_version = "1.13.2";
}

abbrev pub secrets : Dict String
secrets = ("username", "u") ∷ ("password", "p") ∷ ("management_address", "10.0.0.1") ∷ []

abbrev pub connection : ArrayConnectionInfo
connection = record {
  array_addresses = "10.0.0.1" ∷ [];
  user = "u";
  password = "p";
  system_id = none;
  partition_name = none;
  partition_vg = none;
  port_set = none;
  verify_ssl = false;
}

abbrev pub raw_block : VolumeCapability
raw_block = record { access_type = block; access_mode = AccessMode.single_node_writer }

abbrev pub create_request : ℕ → CreateVolumeRequest
create_request size = record {
  name = "gold";
  capacity_range = some (pos size);
  volume_capabilities = raw_block ∷ [];
  parameters = ("pool", "p") ∷ [];
  secrets = secrets;
  volume_content_source = none;
  preferred_topologies = none;
}

abbrev pub wanted : ℕ → Option String → Wanted
wanted size source = record {
  request = create_request size;
  source_type = none;
  source_ids = record { internal_id = none; uid = source };
  topologies = none;
  info = connection;
  params = record {
    pool = some "p";
    space_efficiency = none;
    prefix = none;
    io_group = none;
    volume_group = none;
    virt_snap_func = false;
    initial_repo_group_size_pct = none;
  };
}

abbrev pub volume_request : String → VolumeIdRequest
volume_request id = record { volume_id = id; secrets = secrets }

abbrev pub unpublish_request : UnpublishVolumeRequest
unpublish_request = record { volume_id = "A9000:7;6005"; node_id = "n1"; secrets = secrets }

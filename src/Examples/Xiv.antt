-- ===== src/Examples/Xiv.antt =====
-- An XIV array with two hosts, of which the second uses the LUNs 1 and 2.
use ibm_block_csi_driver.Prelude.{
  ℕ, ◌≡◌, ◌⊎◌, refl, true, none, some, List, [], ◌∷◌, All, strip, lower, arith,
}
use ibm_block_csi_driver.Prelude.Numbers.{mem, span}
use ibm_block_csi_driver.Errors.{Exception}
use ibm_block_csi_driver.Outcome.{returned, raised}
use ibm_block_csi_driver.Exec.{pure}
use ibm_block_csi_driver.Arrays.Xiv.{CliObject, CliHost, XcliClient}
use ibm_block_csi_driver.Arrays.Xiv.Hosts.{get_host_by_host_identifiers, draw_lun}
use ibm_block_csi_driver.Arrays.Xiv.Luns.{IsGood, draw_lun-in_range}
use ibm_block_csi_driver.Arrays.Xiv.Search.{IsOnlyHost, get_host_by_host_identifiers-only}

abbrev volume : CliObject
volume = record {
  name = "v";
  id = "7";
  wwn = "6001";
  capacity = 2;
  pool_name = "p";
  master_name = "";
  copy_master_wwn = none;
}

abbrev hosts : List CliHost
hosts =
    record { name = "h1"; fc_ports = "10:a,10:b"; iscsi_ports = "" }
    ∷ record { name = "h2"; fc_ports = "10:c"; iscsi_ports = "iqn1" }
    ∷ []

abbrev client : XcliClient ℕ
client = record {
  is_command_failed = λ e. true;
  vol_list = λ key value. pure (some volume);
  vol_resize = λ name size. pure tt;
  vol_create = λ name size pool. pure volume;
  vol_format = λ name. pure tt;
  vol_copy = λ source target. pure tt;
  vol_delete = λ name. pure tt;
  snapshot_list = λ name. pure [];
  snapshot_create = λ name source. pure volume;
  snapshot_delete = λ name. pure tt;
  host_list = pure hosts;
  host_list_of = λ name. pure none;
  vol_mapping_list = λ name. pure [];
  mapping_list = λ host. pure (1 ∷ 2 ∷ []);
  map_vol = λ host name lun. pure tt;
  unmap_vol = λ host name. pure tt;
  ipinterface_list = pure [];
  config_get = pure [];
  fc_port_list = pure [];
}

draw_lun-in_range_example :
    ((lun : ℕ) × (draw_lun client (λ low high. low) (1 ∷ 2 ∷ []) 0 ≡ (returned lun, 0))
      × IsGood (1 ∷ 2 ∷ []) lun)
    ⊎ ((draw_lun client (λ low high. low) (1 ∷ 2 ∷ []) 0 ≡ (raised Exception.no_available_lun, 0))
        × All (λ n. mem n (1 ∷ 2 ∷ []) ≡ true) (span 1 250))
draw_lun-in_range_example =
    draw_lun-in_range client (λ low high. low) (λ low high h. (omega arith, h)) (1 ∷ 2 ∷ []) 0

get_host_by_host_identifiers-only_example :
    IsOnlyHost
      (record { nvme_nqns = []; fc_wwns = "10:C" ∷ []; iscsi_iqns = "iqn1" ∷ [] })
      hosts
      "h2"
unfolding get_host_by_host_identifiers strip lower
get_host_by_host_identifiers-only_example =
    get_host_by_host_identifiers-only client
      (record { nvme_nqns = []; fc_wwns = "10:C" ∷ []; iscsi_iqns = "iqn1" ∷ [] }) hosts "h2" _ 0 0
      _ refl refl

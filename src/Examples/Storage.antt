-- ===== src/Examples/Storage.antt =====
-- Examples about mappings, copies and the connection pool.
use ibm_block_csi_driver.Prelude.{
  ℕ, ◌+◌, ◌≤◌, ◌≡◌, refl, Bool, true, false, none, some, String, [], ◌∷◌, ltb, if◌then◌else◌, arith,
}
use ibm_block_csi_driver.Errors.{Exception}
use ibm_block_csi_driver.Outcome.{returned, raised}
use ibm_block_csi_driver.Exec.{Exec, pure}
use ibm_block_csi_driver.Requests.Ids.{volume}
use ibm_block_csi_driver.Requests.Nodes.{Initiators, make_initiators}
use ibm_block_csi_driver.Prelude.{nat_eq, suc}
use ibm_block_csi_driver.Arrays.Mediator.{ArrayMediator}
use ibm_block_csi_driver.Arrays.Mapping.{map_with_retries, copy_to_existing_volume_from_source}
use ibm_block_csi_driver.Arrays.Mapping.Luns.{no_collision, collision, map_with_retries-returns}
use ibm_block_csi_driver.Arrays.Mapping.Rollback.{copy-missing_source}
use ibm_block_csi_driver.Arrays.Pool.{reserve, check_discard, channel_put}
use ibm_block_csi_driver.Arrays.Pool.Interleaving.{
  System, Reach, here, next, reserves, creates, keeps, start, alive, alive_bounded, put_never_full,
}
use ibm_block_csi_driver.Examples.Fixture.{array, counted}

-- The first two tries find their LUN in use.
abbrev third_time : Exec ℕ String
third_time s = if ltb s 2 then (raised Exception.lun_already_in_use, s + 1) else (returned "2", s)

map_with_retries-returns_example : map_with_retries array third_time 0 ≡ (returned "2", 2)
map_with_retries-returns_example =
    map_with_retries-returns array third_time 2 0 2 2 "2"
      (collision refl (collision refl no_collision)) (omega arith) refl

abbrev always_in_use : Exec ℕ String
always_in_use s = (raised Exception.lun_already_in_use, s + 1)

abbrev mapped_twice : ArrayMediator ℕ
mapped_twice = record array { get_volume_mappings = λ id. pure (("h1", "1") ∷ ("h2", "2") ∷ []) }

abbrev one_port : Initiators
one_port = make_initiators [] ("10:a" ∷ []) []

-- A volume on one host, which has the port asked for.
abbrev mapped_once : ArrayMediator ℕ
mapped_once = record array {
  get_volume_mappings = λ id. pure (("h1", "1") ∷ []);
  get_host_by_name =
      λ h. pure (record { name = h; connectivity_types = "fc" ∷ []; initiators = one_port });
  get_array_fc_wwns = λ host. pure ("50:01" ∷ []);
}

-- The source is not there, and the new volume can be deleted only once.
abbrev sourceless : ArrayMediator ℕ
sourceless = record array {
  get_object_by_id = λ id t snap. pure none;
  delete_volume = λ id part s.
      if nat_eq s 0 then (returned tt, 1) else (raised Exception.object_not_found, suc s);
}

copy-missing_source_example :
    copy_to_existing_volume_from_source counted sourceless (some "6005") "6006" (some volume) 10 0
    ≡ (raised Exception.object_not_found, 6)
copy-missing_source_example =
    copy-missing_source counted sourceless (some "6005") "6006" (some volume) 10 (λ k. suc k)
      (λ k. ground arith) 0 0 refl refl

-- Odd connections are active.
abbrev is_active : ℕ → Bool
is_active c = if ltb c 5 then false else true

-- One connection is made, used, and on its way back.
returning : Reach ℕ (start ℕ 2) (record {
  pool = record { max_size = 2; current_size = 1; channel = [] };
  testing = 0;
  creating = 0;
  lent = 0;
  returning = 1;
})
unfolding reserve check_discard
returning =
    next (next (next here (reserves _ refl)) (creates (omega arith))) (keeps _ (omega arith) refl)

abbrev one_out : System ℕ
one_out = record {
  pool = record { max_size = 2; current_size = 1; channel = [] };
  testing = 0;
  creating = 0;
  lent = 0;
  returning = 1;
}

alive_bounded_example : (alive ℕ one_out ≡ 1) × (alive ℕ one_out ≤ 2)
alive_bounded_example = alive_bounded ℕ 2 returning

put_never_full_example :
    channel_put {Conn = ℕ} 9 (record { max_size = 2; current_size = 1; channel = [] })
    ≡ (returned tt, record { max_size = 2; current_size = 1; channel = 9 ∷ [] })
put_never_full_example = put_never_full ℕ 2 9 returning (omega arith)

-- ===== src/Arrays/Xiv/Kinds.antt =====
-- controllers/array_action/array_mediator_xiv.py: volumes and snapshots share their names; and the sizes of
-- volumes in blocks.
use ibm_block_csi_driver.Prelude.{
  ℕ, ◌+◌, ◌≤◌, ◌<◌, ◌≡◌, true, false, some, String, List, truthy, arith,
}
use ibm_block_csi_driver.Errors.{Exception}
use ibm_block_csi_driver.Outcome.{returned, raised}
use ibm_block_csi_driver.Arrays.Xiv.{
  CliObject, XcliClient, convert_size_bytes_to_blocks, convert_size_blocks_to_bytes,
  generate_volume_response,
}
use ibm_block_csi_driver.Arrays.Xiv.Volumes.{
  get_cli_object_by_name, get_volume, get_snapshot, snapshot_found,
}

-- The size sent in blocks is the greatest that is not above the size asked for.
convert_size_bytes_to_blocks-greatest :
    (size : ℕ)
    → (convert_size_blocks_to_bytes (convert_size_bytes_to_blocks size) ≤ size)
      × (size < convert_size_blocks_to_bytes (convert_size_bytes_to_blocks size) + 512)
unfolding convert_size_blocks_to_bytes convert_size_bytes_to_blocks
convert_size_bytes_to_blocks-greatest size = (omega arith, omega arith)

module _ {S : Type 0} (client : XcliClient S) (endpoint : List String) (name : String) (s : S)
    (v : CliObject) (found : get_cli_object_by_name client name s ≡ (returned (some v), s)) where
  -- A name that the array knows is that of a volume or of a snapshot, and the search for the other kind
  -- says so with an error of its own.
  get_volume-volume :
      truthy v.master_name ≡ false
      → (get_volume client endpoint name s ≡ (returned (generate_volume_response endpoint v), s))
        × (get_snapshot client endpoint name s
            ≡ (raised Exception.expected_snapshot_but_found_volume, s))
  unfolding get_volume get_snapshot snapshot_found
  get_volume-volume h = (ground arith, ground arith)

  get_volume-snapshot :
      truthy v.master_name ≡ true
      → get_volume client endpoint name s ≡ (raised Exception.volume_name_belongs_to_snapshot, s)
  unfolding get_volume
  get_volume-snapshot h = ground arith

-- ===== src/Arrays/Svc/Hosts.antt =====
-- controllers/array_action/array_mediator_svc.py: the LUNs of a host, and volumes mapped to hosts. LUNs
-- are texts, as in the code; none is the empty LUN of NVMe. What `choice` and `randint` draw are arguments.
use ibm_block_csi_driver.Prelude.{
  ℕ, elem, zero, suc, ◌+◌, ◌-◌, ◌*◌, ◌/◌, true, Option, none, some, String, List, [], ◌∷◌, Dict,
  ltb, is_empty, ◌==◌, if◌then◌else◌, ◌++◌,
}
use ibm_block_csi_driver.Prelude.Numbers.{range}
use ibm_block_csi_driver.Prelude.Digits.{read, print}
use ibm_block_csi_driver.Outcome.{Outcome, returned, raised}
use ibm_block_csi_driver.Errors.{Exception}
use ibm_block_csi_driver.Exec.{Exec, pure, raise, lift, ◌>>=◌, ◌>>◌}
use ibm_block_csi_driver.Requests.Nodes.{nvme_over_fc}
use ibm_block_csi_driver.Arrays.Svc.{
  text, flag, SvcClient, has, except_cli, unless_warning, get_volume_name_by_wwn,
}

unfoldable pub max_of : List ℕ → ℕ
max_of [] = 0
max_of (n ∷ ns) = let m = max_of ns in if ltb m n then n else m

unfoldable pub take : ℕ → List String → List String
take zero ns = []
take (suc k) [] = []
take (suc k) (n ∷ ns) = n ∷ take k ns

-- The greatest number that `_get_used_lun_ids_from_host` lets a LUN have
unfoldable pub lun_limit : List ℕ → ℕ
unfolding max_of
lun_limit used =
    let m = max_of used in if ltb 511 m then 511 + (m - 511 + 512 - 1) / 512 * 512 else 511

abbrev pub add_number : Outcome ℕ → Outcome (List ℕ) → Outcome (List ℕ)
add_number (raised e) ns = raised e
add_number (returned n) (raised e) = raised e
add_number (returned n) (returned ns) = returned (n ∷ ns)

-- `int(lun_number)` of each
unfoldable pub numbers_of : List String → Outcome (List ℕ)
numbers_of [] = returned []
numbers_of (lun ∷ luns) = add_number (read 10 lun) (numbers_of luns)

-- `[lun for lun in lun_range if lun not in luns_in_use]`, of the numbers in the range
unfoldable pub free_luns : List String → List ℕ → List String
free_luns used [] = []
free_luns used (n ∷ ns) =
    let rest = free_luns used ns in if elem (print 10 n) used then rest else print 10 n ∷ rest

-- What a refused command raises, in the order of the tests of `map_volume`
unfoldable pub mapping_error : String → Exception
mapping_error message =
    if has message "CMMVC5754E"
    then Exception.host_not_found
    else if has message "CMMVC5804E"
    then Exception.object_not_found
    else if has message "CMMVC5879E"
    then Exception.lun_already_in_use
    else if has message "CMMVC5844E"
    then Exception.no_available_lun
    else Exception.mapping_error

-- The same for `unmap_volume`
unfoldable pub unmapping_error : String → Exception
unmapping_error message =
    if has message "CMMVC5754E"
    then Exception.host_not_found
    else if has message "CMMVC5753E"
    then Exception.object_not_found
    else if has message "CMMVC5842E"
    then Exception.volume_already_unmapped
    else if has message "CMMVC5804E"
    then Exception.volume_not_mapped_to_host
    else Exception.unmapping_error

module _ (choice : List String → String) (randint : ℕ → ℕ → ℕ) where
  -- One of the first 128 free LUNs, or one above the limit
  unfoldable pub draw_below : ℕ → List String → String
  unfolding range free_luns take
  draw_below limit used =
      let free = free_luns used (range (suc limit)) in
      if is_empty free then print 10 (randint (limit + 1) (limit + 512)) else choice (take 128 free)

  abbrev drawn : List String → Outcome (List ℕ) → Outcome String
  unfolding lun_limit draw_below
  drawn used (raised e) = raised e
  drawn used (returned ns) = returned (draw_below (lun_limit ns) used)

  -- The draw of `_get_free_lun`, of the LUNs that the host uses
  unfoldable pub draw_lun : List String → Outcome String
  unfolding numbers_of drawn
  draw_lun used = drawn used (numbers_of used)

  module _ {S : Type 0} (client : SvcClient S) where
    abbrev no_host : String → Exec S (List String)
    no_host message = raise Exception.host_not_found

    -- `_get_free_lun`, with `_get_used_lun_ids_from_host`
    unfoldable pub get_free_lun : String → Exec S String
    unfolding draw_lun
    get_free_lun host =
        except_cli (client.lshostvdiskmap host) no_host >>= λ used. lift (draw_lun used)

    map_at : String → String → Exec S (Option String)
    unfolding mapping_error
    map_at volume host =
        let kwargs = ("host", text host) ∷ ("object_id", text volume) ∷ ("force", flag true) ∷ [] in
        except_cli (client.svctask "mkvdiskhostmap" kwargs >> pure none)
          (unless_warning none (λ message. raise (mapping_error message)))

    unfoldable pub map_at_lun : String → String → Exec S (Option String)
    unfolding get_free_lun mapping_error
    map_at_lun volume host =
        let kwargs = ("host", text host) ∷ ("object_id", text volume) ∷ ("force", flag true) ∷ [] in
        get_free_lun host >>= λ lun.
        except_cli
          (client.svctask "mkvdiskhostmap" (kwargs ++ ("scsi", text lun) ∷ []) >> pure (some lun))
          (unless_warning (some lun) (λ message. raise (mapping_error message)))

    -- `map_volume`
    unfoldable pub map_volume : String → String → String → Exec S (Option String)
    unfolding get_volume_name_by_wwn map_at map_at_lun
    map_volume volume_id host connectivity_type = do
      client.register_plugin "basic"
      volume ← get_volume_name_by_wwn client volume_id
      if connectivity_type == nvme_over_fc then map_at volume host else map_at_lun volume host

    -- `unmap_volume`
    unfoldable pub unmap_volume : String → String → Exec S (Unit {0})
    unfolding get_volume_name_by_wwn unmapping_error
    unmap_volume volume_id host = do
      client.register_plugin "basic"
      volume ← get_volume_name_by_wwn client volume_id
      except_cli
          (client.svctask "rmvdiskhostmap" (("host", text host) ∷ ("vdisk_id", text volume) ∷ []))
          (unless_warning tt (λ message. raise (unmapping_error message)))

    abbrev no_volume : String → Exec S (Dict String)
    no_volume message = raise Exception.object_not_found

    -- `get_volume_mappings`
    unfoldable pub get_volume_mappings : String → Exec S (Dict String)
    unfolding get_volume_name_by_wwn
    get_volume_mappings volume_id = do
      volume ← get_volume_name_by_wwn client volume_id
      except_cli (client.lsvdiskhostmap volume) no_volume

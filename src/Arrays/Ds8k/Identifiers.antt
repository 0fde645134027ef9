-- ===== src/Arrays/Ds8k/Identifiers.antt =====
-- controllers/array_action/array_mediator_ds8k.py: the ids of volumes as the world sees them.
use ibm_block_csi_driver.Prelude.{
  ℕ, ◌-◌, ◌≡◌, refl, String, str_drop, str_length, str_length-append, drop-append_at, arith, ap,
  subst, ◌∙◌,
}
use Prim.Native.String.{◌++◌}
use text.Mathlib.TextLemmas.{append_assoc}
use ibm_block_csi_driver.Arrays.Ds8k.{generate_volume_scsi_identifier, scsi_id_to_volume_id}

-- The last characters of a text that ends in a text of that length
last-append :
    (a b : String) (n : ℕ) → str_length b ≡ n → str_drop (str_length (a ++ b) - n) (a ++ b) ≡ b
last-append a b n h =
    ap (λ k. str_drop k (a ++ b)) (omega (arith, str_length-append a b))
    ∙ drop-append_at (str_length a) a b refl

-- A volume id of four characters is read back out of the SCSI id made of it.
scsi_id_to_volume_id-generate_volume_scsi_identifier :
    (wwnn volume_id : String)
    → str_length volume_id ≡ 4
    → scsi_id_to_volume_id (generate_volume_scsi_identifier wwnn volume_id) ≡ volume_id
unfolding scsi_id_to_volume_id generate_volume_scsi_identifier
scsi_id_to_volume_id-generate_volume_scsi_identifier wwnn volume_id h =
    let d = str_drop 1 wwnn in
    let z : String = "000000000000" in
    subst (λ t. str_drop (str_length t - 4) t ≡ volume_id)
      (append_assoc "6" (d ++ z) volume_id ∙ ap (λ t. "6" ++ t) (append_assoc d z volume_id))
      (last-append ("6" ++ (d ++ z)) volume_id 4 h)

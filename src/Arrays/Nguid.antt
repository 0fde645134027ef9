-- ===== src/Arrays/Nguid.antt =====
-- controllers/array_action/utils.py: a volume's id in the SCSI and in the NVMe form.
use Prim.Native.String.append
use Prim.Native.String.{◌++◌}
use ibm_block_csi_driver.Prelude.{
  ◌≡◌, refl, ap, sym, ◌∙◌, ◌-◌, String, [], ◌∷◌, join, str_take, str_drop, str_length,
  str_length-take, str_length-drop, str_length-append, take-append-drop, take-append_at,
  drop-append_at, drop-drop, arith,
}

-- `convert_scsi_id_to_nguid`, with the slices [1:7], [7:16] and [16:]
unfoldable pub convert_scsi_id_to_nguid : String → String
unfolding join
convert_scsi_id_to_nguid volume_id =
    let oui = str_take 6 (str_drop 1 volume_id) in
    let vendor_identifier = str_take 9 (str_drop 7 volume_id) in
    let vendor_identifier_extension = str_drop 16 volume_id in
    join "" (vendor_identifier_extension ∷ oui ∷ "0" ∷ vendor_identifier ∷ [])

-- `convert_nguid_to_scsi_id`, with the slices [16:22], [-9:] and [:16]
unfoldable pub convert_nguid_to_scsi_id : String → String
unfolding join
convert_nguid_to_scsi_id volume_id =
    let oui = str_take 6 (str_drop 16 volume_id) in
    let vendor_identifier = str_drop (str_length volume_id - 9) volume_id in
    let vendor_identifier_extension = str_take 16 volume_id in
    join "" (oui ∷ vendor_identifier ∷ vendor_identifier_extension ∷ [])

module _ (e o z v : String) (he : str_length e ≡ 16) (ho : str_length o ≡ 6) (hz : str_length z ≡ 1)
    (hv : str_length v ≡ 9) where
  drop_16 : str_drop 16 (e ++ (o ++ (z ++ v))) ≡ o ++ (z ++ v)
  drop_16 = drop-append_at 16 e _ he

  drop_23 : str_drop 23 (e ++ (o ++ (z ++ v))) ≡ v
  drop_23 =
      sym (drop-drop 7 16 (e ++ (o ++ (z ++ v))))
      ∙ ap (str_drop 7) drop_16
      ∙ sym (drop-drop 1 6 (o ++ (z ++ v)))
      ∙ ap (str_drop 1) (drop-append_at 6 o _ ho)
      ∙ drop-append_at 1 z v hz

  length_32 : str_length (e ++ (o ++ (z ++ v))) - 9 ≡ 23
  length_32 = omega (
    arith,
    str_length-append e (o ++ (z ++ v)),
    str_length-append o (z ++ v),
    str_length-append z v,
  )

  -- The parts of an NVMe id are found by their lengths.
  from_parts : convert_nguid_to_scsi_id (e ++ (o ++ (z ++ v))) ≡ o ++ (v ++ e)
  unfolding convert_nguid_to_scsi_id
  from_parts = rw (
    append.nil,
    append.nil,
    drop_16,
    length_32,
    drop_23,
    take-append_at 16 e (o ++ (z ++ v)) he,
    take-append_at 6 o (z ++ v) ho,
  )

nguid_parts :
    (s : String)
    → convert_scsi_id_to_nguid s
      ≡ str_drop 16 s ++ (str_take 6 (str_drop 1 s) ++ ("0" ++ str_take 9 (str_drop 7 s)))
unfolding convert_scsi_id_to_nguid
nguid_parts s = simp append.nil

-- The three parts of a SCSI id behind its first digit, put together again.
scsi_parts :
    (s : String)
    → str_take 6 (str_drop 1 s) ++ (str_take 9 (str_drop 7 s) ++ str_drop 16 s) ≡ str_drop 1 s
scsi_parts s =
    ap (λ e. str_take 6 (str_drop 1 s) ++ (str_take 9 (str_drop 7 s) ++ e)) (sym (drop-drop 9 7 s))
    ∙ ap (λ e. str_take 6 (str_drop 1 s) ++ e) (take-append-drop 9 (str_drop 7 s))
    ∙ ap (λ e. str_take 6 (str_drop 1 s) ++ e) (sym (drop-drop 6 1 s))
    ∙ take-append-drop 6 (str_drop 1 s)

-- Converting the 32 digits of a SCSI id to the NVMe form and back gives all of them but the first.
convert_nguid_to_scsi_id-convert_scsi_id_to_nguid :
    (volume_id : String)
    → str_length volume_id ≡ 32
    → convert_nguid_to_scsi_id (convert_scsi_id_to_nguid volume_id) ≡ str_drop 1 volume_id
convert_nguid_to_scsi_id-convert_scsi_id_to_nguid s h =
    ap convert_nguid_to_scsi_id (nguid_parts s)
    ∙ from_parts (str_drop 16 s) (str_take 6 (str_drop 1 s)) "0" (str_take 9 (str_drop 7 s))
        (omega (arith, str_length-drop 16 s))
        (str_length-take 6 (str_drop 1 s) (omega (arith, str_length-drop 1 s))) refl
        (str_length-take 9 (str_drop 7 s) (omega (arith, str_length-drop 7 s)))
    ∙ scsi_parts s

-- ===== src/ByteReader/Tests.antt =====
-- A tag, a length and a payload, behind two bytes that are read already.
use libaribtlv.Base.{refl, arith, [], ◌∷◌, List}
use libaribtlv.ByteReader.{ByteReader}
use libaribtlv.ByteReader.RoundTrip.{
  Field, u8_field, u16_field, u32_field, bytes_field, skipped_field, ReadsAll, reads-writes,
}

abbrev reader : ByteReader
reader = record { bytes = 9 ∷ 9 ∷ 128 ∷ 1 ∷ 4 ∷ 0 ∷ 1 ∷ 0 ∷ 2 ∷ 7 ∷ 8 ∷ 5 ∷ 6 ∷ []; position = 2 }

abbrev fields : List Field
fields =
    u8_field 128
    ∷ u16_field 260
    ∷ u32_field 65538
    ∷ skipped_field (7 ∷ [])
    ∷ bytes_field (8 ∷ 5 ∷ [])
    ∷ []

reads-writes_example : ReadsAll fields reader
reads-writes_example =
    reads-writes fields reader (6 ∷ []) (tt, (omega arith, (omega arith, (tt, (tt, tt))))) refl

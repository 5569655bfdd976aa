-- ===== src/Transport/Descriptors.antt =====
-- src/tlv_transport_parser.cpp, known_tlv_descriptor and parse_descriptors.
use libaribtlv.Transport.Data.{
  TlvDescriptor, DescriptorScope, UnknownDescriptor, TableEvent, unknown_descriptor, Logged, give,
  refuse, after, and_then,
}
use libaribtlv.Base.{
  ℕ, zero, suc, ◌+◌, ◌-◌, Bool, ◌||◌, List, [], ◌∷◌, Option, ltb, ◌==◌, if◌then◌else◌, length, take,
  drop, Bytes, ◌%◌, ◌^◌,
}

-- What a descriptor loop belongs to, and where its section came from.
pub record Loop : Type 0 where
  pub table_id : ℕ
  pub scope : DescriptorScope
  pub tlv_stream_id : Option ℕ
  pub original_network_id : Option ℕ
  pub input_offset : ℕ

unfoldable pub known_tlv_descriptor : ℕ → Bool
known_tlv_descriptor tag = tag == 0x40 || tag == 0x41 || tag == 0x43 || tag == 0xcd || tag == 0xfe

abbrev pub descriptor_at : ℕ → ℕ → ℕ → Bytes → TlvDescriptor
descriptor_at cursor tag n rest = record {
  tag = tag;
  payload = take n rest;
  section_offset = cursor % 2 ^ 16;
}

abbrev pub unknown_of : Loop → TlvDescriptor → UnknownDescriptor
unknown_of l d = record {
  table_id = l.table_id;
  tag = d.tag;
  scope = l.scope;
  tlv_stream_id = l.tlv_stream_id;
  original_network_id = l.original_network_id;
  section_offset = d.section_offset;
  payload = d.payload;
  input_offset = l.input_offset;
}

abbrev pub announce : Loop → TlvDescriptor → List TableEvent
announce l d = if known_tlv_descriptor d.tag then [] else unknown_descriptor (unknown_of l d) ∷ []

-- The loop, on the bytes up to its end. `skip` are the payload's bytes that `cursor` has already
-- stepped over, so that the recursion is on the list.
unfoldable pub descriptors_from : Loop → ℕ → ℕ → Bytes → Logged (List TlvDescriptor)
descriptors_from l cursor (suc skip) [] = give []
descriptors_from l cursor (suc skip) (x ∷ xs) = descriptors_from l cursor skip xs
descriptors_from l cursor zero [] = give []
descriptors_from l cursor zero (tag ∷ []) = refuse
descriptors_from l cursor zero (tag ∷ n ∷ rest) =
    let d = descriptor_at cursor tag n rest in
    let others = descriptors_from l (cursor + 2 + n) n rest in
    if ltb (length rest) n
    then refuse
    else after (announce l d) (and_then others (λ ds. give (d ∷ ds)))

unfoldable pub parse_descriptors : Bytes → ℕ → ℕ → Loop → Logged (List TlvDescriptor)
parse_descriptors bytes begin size l =
    if ltb (length bytes) begin || ltb (length bytes - begin) size
    then refuse
    else descriptors_from l begin 0 (take size (drop begin bytes))

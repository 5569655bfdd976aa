-- ===== src/Transport/Nit.antt =====
-- src/tlv_transport_parser.cpp, parse_nit.
use libaribtlv.Transport.Data.{
  TlvDescriptor, TlvNetworkStream, NitSection, network, tlv_stream, invalid_nit_header,
  invalid_network_loop, invalid_stream_loop_length, invalid_stream_loop, Logged, give, refuse,
  refuse_with, or_report, and_then,
}
use libaribtlv.Transport.Descriptors.{Loop, parse_descriptors}
use libaribtlv.Reader.{be16}
use libaribtlv.Base.{
  ℕ, zero, suc, ◌+◌, ◌-◌, ◌/◌, ◌%◌, not, ◌||◌, List, [], ◌∷◌, none, some, ltb, ◌==◌, if◌then◌else◌,
  length, drop, get_or, Bytes,
}

abbrev pub u8_at : Bytes → ℕ → ℕ
u8_at bytes i = get_or bytes i 0

abbrev pub u16_at : Bytes → ℕ → ℕ
u16_at bytes i = be16 (u8_at bytes i) (u8_at bytes (i + 1))

abbrev pub network_loop : Bytes → ℕ → Loop
network_loop bytes offset = record {
  table_id = u8_at bytes 0;
  scope = network;
  tlv_stream_id = none;
  original_network_id = none;
  input_offset = offset;
}

abbrev pub stream_loop : Bytes → ℕ → ℕ → ℕ → Loop
stream_loop bytes offset stream original = record {
  table_id = u8_at bytes 0;
  scope = tlv_stream;
  tlv_stream_id = some stream;
  original_network_id = some original;
  input_offset = offset;
}

-- The loop over the streams, on the section's bytes from `cursor` on. `skip` are the bytes that
-- `cursor` has already stepped over. The descriptors are bounded by the section and not by `end`.
unfoldable pub streams_from : Bytes → ℕ → ℕ → ℕ → ℕ → Bytes → Logged (List TlvNetworkStream)
streams_from bytes offset end cursor (suc skip) [] = give []
streams_from bytes offset end cursor (suc skip) (x ∷ xs) =
    streams_from bytes offset end cursor skip xs
streams_from bytes offset end cursor zero (a ∷ b ∷ c ∷ d ∷ e ∷ f ∷ rest) =
    let size = be16 e f % 0x1000 in
    let others = streams_from bytes offset end (cursor + 6 + size) size rest in
    if not (ltb cursor end)
    then give []
    else if ltb (end - cursor) 6
    then refuse
    else and_then
        (or_report invalid_stream_loop offset (
          parse_descriptors bytes (cursor + 6) size
            (stream_loop bytes offset (be16 a b) (be16 c d))))
        (λ ds. and_then others (λ ss. give (
          record { tlv_stream_id = be16 a b; original_network_id = be16 c d; descriptors = ds }
          ∷ ss)))
streams_from bytes offset end cursor zero short = if not (ltb cursor end) then give [] else refuse

abbrev pub nit_of : Bytes → ℕ → List TlvDescriptor → List TlvNetworkStream → NitSection
nit_of bytes offset ds ss = record {
  table_id = u8_at bytes 0;
  network_id = u16_at bytes 3;
  version = u8_at bytes 5 / 2 % 32;
  current_next = u8_at bytes 5 % 2 == 1;
  section_number = u8_at bytes 6;
  last_section_number = u8_at bytes 7;
  network_descriptors = ds;
  streams = ss;
  input_offset = offset;
}

-- After the network's descriptors, with `cursor` behind them.
unfoldable pub parse_streams : Bytes → ℕ → ℕ → List TlvDescriptor → Logged NitSection
parse_streams bytes offset cursor ds =
    let end = length bytes - 4 in
    if ltb end (cursor + 2)
    then refuse
    else if not (u16_at bytes cursor % 0x1000 == end - (cursor + 2))
    then refuse_with invalid_stream_loop_length offset
    else and_then (streams_from bytes offset end (cursor + 2) 0 (drop (cursor + 2) bytes))
        (λ ss. give (nit_of bytes offset ds ss))

unfoldable pub parse_nit : Bytes → ℕ → Logged NitSection
parse_nit bytes offset =
    let size = u16_at bytes 8 % 0x1000 in
    if ltb (length bytes) 16 || ltb (u8_at bytes 7) (u8_at bytes 6)
    then refuse_with invalid_nit_header offset
    else if ltb (length bytes - 4) 10
    then refuse
    else and_then
        (or_report invalid_network_loop offset
          (parse_descriptors bytes 10 size (network_loop bytes offset)))
        (parse_streams bytes offset (10 + size))

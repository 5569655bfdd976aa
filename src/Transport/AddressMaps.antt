-- ===== src/Transport/AddressMaps.antt =====
-- src/tlv_transport_parser.cpp, parse_address_map.
pub mod Services
pub mod RoundTrip
mod Tests
use libaribtlv.Transport.Data.{
  AddressMapService, AddressMapSection, TableMessage, invalid_amt_header, ipv4_prefix_above_32,
  ipv6_prefix_above_128, payload_not_consumed, Logged, give, refuse, refuse_with, and_then,
}
use libaribtlv.Transport.Nit.{u8_at, u16_at}
use libaribtlv.Reader.{be16}
use libaribtlv.Base.{
  ℕ, zero, suc, ◌+◌, ◌-◌, ◌*◌, ◌/◌, ◌%◌, ◌||◌, List, [], ◌∷◌, ◌++◌, ltb, ◌==◌, if◌then◌else◌,
  length, take, drop, Bytes,
}

abbrev pub zeros : ℕ → Bytes
zeros zero = []
zeros (suc n) = 0 ∷ zeros n

-- A service of `version` 4 or 6, whose addresses are `width` bytes long, from its loop's bytes.
abbrev pub service_at : ℕ → ℕ → ℕ → Bytes → AddressMapService
service_at version width id xs = record {
  service_id = id;
  ip_version = version;
  source_address = take width xs ++ zeros (16 - width);
  source_prefix_length = u8_at xs width;
  destination_address = take width (drop (width + 1) xs) ++ zeros (16 - width);
  destination_prefix_length = u8_at xs (2 * width + 1);
  private_data = drop (2 * width + 2) xs;
}

abbrev pub within_prefix : ℕ → AddressMapService → TableMessage → ℕ → Logged AddressMapService
within_prefix bound s m offset =
    if ltb bound s.source_prefix_length || ltb bound s.destination_prefix_length
    then refuse_with m offset
    else give s

-- A service from its identifier, the loop header and the loop's bytes.
unfoldable pub parse_service : ℕ → ℕ → ℕ → Bytes → Logged AddressMapService
parse_service offset id header xs =
    if header / 0x8000 == 0
    then if ltb (length xs) 10
      then refuse
      else within_prefix 32 (service_at 4 4 id xs) ipv4_prefix_above_32 offset
    else if ltb (length xs) 34
    then refuse
    else within_prefix 128 (service_at 6 16 id xs) ipv6_prefix_above_128 offset

-- The loop over the services, on the payload's bytes from the cursor on.
unfoldable pub services_from : ℕ → ℕ → Bytes → Logged (List AddressMapService)
services_from offset zero [] = give []
services_from offset zero (x ∷ xs) = refuse_with payload_not_consumed offset
services_from offset (suc count) (a ∷ b ∷ c ∷ d ∷ rest) =
    let size = be16 c d % 0x400 in
    let others = services_from offset count (drop size rest) in
    if ltb (length rest) size
    then refuse
    else and_then (parse_service offset (be16 a b) (be16 c d) (take size rest))
        (λ s. and_then others (λ ss. give (s ∷ ss)))
services_from offset (suc count) short = refuse

abbrev pub address_map_of : Bytes → ℕ → List AddressMapService → AddressMapSection
address_map_of bytes offset ss = record {
  table_id_extension = u16_at bytes 3;
  version = u8_at bytes 5 / 2 % 32;
  current_next = u8_at bytes 5 % 2 == 1;
  section_number = u8_at bytes 6;
  last_section_number = u8_at bytes 7;
  services = ss;
  input_offset = offset;
}

unfoldable pub parse_address_map : Bytes → ℕ → Logged AddressMapSection
parse_address_map bytes offset =
    if ltb (length bytes) 14 || ltb (u8_at bytes 7) (u8_at bytes 6)
    then refuse_with invalid_amt_header offset
    else and_then
        (services_from offset (u16_at bytes 8 / 64) (take (length bytes - 14) (drop 10 bytes)))
        (λ ss. give (address_map_of bytes offset ss))

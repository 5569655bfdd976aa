-- ===== src/Transport/Session.antt =====
-- src/tlv_transport_parser.cpp: the parser's state, process_section, accept_nit and
-- accept_address_map, and the packets.
mod Tests
use libaribtlv.Transport.Sections.{
  SectionBuffer, Message, Found, section, discarded, process_sections, received,
}
use libaribtlv.Transport.Data.{
  TlvDescriptor, TlvNetworkStream, TlvNetworkInformation, AddressMapService, AddressMap,
  RawSignallingTable, NitSection, AddressMapSection, TableMessage, not_extended_syntax, TableEvent,
  table_error, raw_table, nit, address_map, Logged,
}
use libaribtlv.Transport.Nit.{u8_at, u16_at, parse_nit}
use libaribtlv.Transport.AddressMaps.{parse_address_map}
use libaribtlv.Transport.Assembly.{TableKey, Assembly, accept_section, eq_bool, values}
use libaribtlv.Transport.Flows.{
  IpDataFlow, TransportNtpClock, FlowMessage, FlowEvent, flow_error, ipv4_unavailable, ntp,
  consume_ipv6, observe_compressed_flow, eq_bytes,
}
use libaribtlv.Types.{ErrorCode, unsupported_feature}
use libaribtlv.Base.{
  ◌^◌, ℕ, zero, suc, ◌+◌, ◌/◌, ◌%◌, Bool, true, false, ◌&&◌, ◌||◌, List, [], ◌∷◌, ◌++◌, Option,
  none, some, ltb, ◌==◌, if◌then◌else◌, length, Bytes, inl, inr, ◌⊎◌,
}

pub record TlvTransportParser : Type 0 where
  pub flows : List (ℕ × IpDataFlow)
  pub section_buffer : SectionBuffer
  pub nit_assemblies : List (TableKey × Assembly NitSection)
  pub address_map_assemblies : List (TableKey × Assembly AddressMapSection)
  pub latest_ntp : Option ℕ
  pub null_packet_count : ℕ

abbrev pub fresh_parser : TlvTransportParser
fresh_parser = record {
  flows = [];
  section_buffer = record { bytes = []; origins = [] };
  nit_assemblies = [];
  address_map_assemblies = [];
  latest_ntp = none;
  null_packet_count = 0;
}

unfoldable pub reset : TlvTransportParser → TlvTransportParser
reset p = fresh_parser

pub data TransportEvent : Type 0 where
  section_error : Message → ℕ → TransportEvent
  table_event : TableEvent → TransportEvent
  flow_event : FlowEvent → TransportEvent

unfoldable pub eq_list {ℓ} : {A : Type ℓ} → (A → A → Bool) → List A → List A → Bool
eq_list eq [] [] = true
eq_list eq (x ∷ xs) (y ∷ ys) = eq x y && eq_list eq xs ys
eq_list eq xs ys = false

abbrev pub eq_descriptor : TlvDescriptor → TlvDescriptor → Bool
eq_descriptor a b =
    a.tag == b.tag && eq_bytes a.payload b.payload && a.section_offset == b.section_offset

abbrev pub eq_stream : TlvNetworkStream → TlvNetworkStream → Bool
eq_stream a b =
    a.tlv_stream_id == b.tlv_stream_id
    && a.original_network_id == b.original_network_id
    && eq_list eq_descriptor a.descriptors b.descriptors

abbrev pub eq_service : AddressMapService → AddressMapService → Bool
eq_service a b =
    a.service_id == b.service_id
    && a.ip_version == b.ip_version
    && eq_bytes a.source_address b.source_address
    && a.source_prefix_length == b.source_prefix_length
    && eq_bytes a.destination_address b.destination_address
    && a.destination_prefix_length == b.destination_prefix_length
    && eq_bytes a.private_data b.private_data

abbrev pub same_nit : NitSection → NitSection → Bool
same_nit a b =
    eq_list eq_descriptor a.network_descriptors b.network_descriptors
    && eq_list eq_stream a.streams b.streams

abbrev pub same_address_map : AddressMapSection → AddressMapSection → Bool
same_address_map a b = eq_list eq_service a.services b.services

abbrev pub nit_key : NitSection → TableKey
nit_key s = record {
  table_id = s.table_id;
  extension = s.network_id;
  version = s.version;
  current_next = s.current_next;
}

abbrev pub address_map_key : AddressMapSection → TableKey
address_map_key s = record {
  table_id = 0xfe;
  extension = s.table_id_extension;
  version = s.version;
  current_next = s.current_next;
}

unfoldable pub flat_map {ℓ} : {A : Type 0} {B : Type ℓ} → (A → List B) → List A → List B
flat_map f [] = []
flat_map f (x ∷ xs) = f x ++ flat_map f xs

abbrev pub first_origin {ℓ} : {A : Type ℓ} → (A → ℕ) → List A → ℕ
first_origin f [] = 0
first_origin f (x ∷ xs) = f x

unfoldable pub nit_snapshot : TableKey → ℕ → List NitSection → TlvNetworkInformation
nit_snapshot key last parts = record {
  table_id = key.table_id;
  network_id = key.extension;
  version = key.version;
  current_next = key.current_next;
  last_section_number = last;
  network_descriptors = flat_map (λ (s : NitSection). s.network_descriptors) parts;
  streams = flat_map (λ (s : NitSection). s.streams) parts;
  input_offset = first_origin (λ (s : NitSection). s.input_offset) parts;
}

unfoldable pub address_map_snapshot : TableKey → ℕ → List AddressMapSection → AddressMap
address_map_snapshot key last parts = record {
  table_id = 0xfe;
  table_id_extension = key.extension;
  version = key.version;
  current_next = key.current_next;
  last_section_number = last;
  services = flat_map (λ (s : AddressMapSection). s.services) parts;
  input_offset = first_origin (λ (s : AddressMapSection). s.input_offset) parts;
}

abbrev pub nit_events : NitSection → Option (List (ℕ × NitSection)) → List TableEvent
nit_events s none = []
nit_events s (some parts) = nit (nit_snapshot (nit_key s) s.last_section_number (values parts)) ∷ []

abbrev pub address_map_events :
    AddressMapSection → Option (List (ℕ × AddressMapSection)) → List TableEvent
address_map_events s none = []
address_map_events s (some parts) =
    address_map (address_map_snapshot (address_map_key s) s.last_section_number (values parts)) ∷ []

unfoldable pub accept_nit : NitSection → TlvTransportParser → TlvTransportParser × List TableEvent
accept_nit s p =
    let (tables, snapshot) =
      accept_section same_nit (nit_key s) s.section_number s.last_section_number s
        p.nit_assemblies in
    (record p { nit_assemblies = tables }, nit_events s snapshot)

unfoldable pub accept_address_map :
    AddressMapSection → TlvTransportParser → TlvTransportParser × List TableEvent
accept_address_map s p =
    let (tables, snapshot) =
      accept_section same_address_map (address_map_key s) s.section_number s.last_section_number s
        p.address_map_assemblies in
    (record p { address_map_assemblies = tables }, address_map_events s snapshot)

abbrev pub accept_parsed :
    {S : Type 0}
    → (S → TlvTransportParser → TlvTransportParser × List TableEvent)
    → Logged S
    → TlvTransportParser
    → TlvTransportParser × List TableEvent
accept_parsed f (es, none) p = (p, es)
accept_parsed f (es, some s) p = let (q, more) = f s p in (q, es ++ more)

abbrev pub raw_of : Bytes → ℕ → RawSignallingTable
raw_of bytes input_offset = record {
  tlv_packet_type = 0xfe;
  table_id = u8_at bytes 0;
  table_id_extension = u16_at bytes 3;
  version = u8_at bytes 5 / 2 % 32;
  current_next = u8_at bytes 5 % 2 == 1;
  section_number = u8_at bytes 6;
  last_section_number = u8_at bytes 7;
  raw_bytes = bytes;
  input_offset = input_offset;
}

abbrev pub also :
    List TableEvent → TlvTransportParser × List TableEvent → TlvTransportParser × List TableEvent
also es r = (r.0, es ++ r.1)

unfoldable pub process_section :
    Bytes → ℕ → TlvTransportParser → TlvTransportParser × List TableEvent
process_section bytes input_offset p =
    if ltb (length bytes) 8 || u8_at bytes 1 / 128 % 2 == 0
    then (p, table_error not_extended_syntax input_offset ∷ [])
    else also (raw_table (raw_of bytes input_offset) ∷ []) (
        if u8_at bytes 0 == 0x40 || u8_at bytes 0 == 0x41
        then accept_parsed accept_nit (parse_nit bytes input_offset) p
        else if u8_at bytes 0 == 0xfe && u16_at bytes 3 == 0
        then accept_parsed accept_address_map (parse_address_map bytes input_offset) p
        else (p, []))

unfoldable pub table_events : List TableEvent → List TransportEvent
table_events [] = []
table_events (e ∷ es) = table_event e ∷ table_events es

-- What the loop over the buffer found, in its order.
unfoldable pub deal : List Found → TlvTransportParser → TlvTransportParser × List TransportEvent
deal [] p = (p, [])
deal (discarded origin m ∷ rest) p = let (q, es) = deal rest p in (q, section_error m origin ∷ es)
deal (section bytes origin ∷ rest) p =
    let (q, here) = process_section bytes origin p in
    let (r, es) = deal rest q in (r, table_events here ++ es)

abbrev pub deal_with :
    TlvTransportParser
    → Option (SectionBuffer × List Found)
    → Option (TlvTransportParser × List TransportEvent)
deal_with p none = none
deal_with p (some (b, found)) = some (deal found (record p { section_buffer = b }))

unfoldable pub consume_tlv_si :
    Bytes → ℕ → TlvTransportParser → Option (TlvTransportParser × List TransportEvent)
consume_tlv_si payload input_offset p =
    deal_with p (process_sections (received payload input_offset p.section_buffer))

unfoldable pub consume_null : TlvTransportParser → TlvTransportParser
consume_null p = record p { null_packet_count = (p.null_packet_count + 1) % 2 ^ 64 }

abbrev pub consume_ipv4 : ℕ → List TransportEvent
consume_ipv4 input_offset =
    flow_event (flow_error unsupported_feature ipv4_unavailable input_offset) ∷ []

abbrev pub note_clock :
    FlowEvent ⊎ TransportNtpClock → TlvTransportParser → TlvTransportParser × List TransportEvent
note_clock (inl e) p = (p, flow_event e ∷ [])
note_clock (inr clock) p =
    (record p { latest_ntp = some clock.transmit_timestamp }, flow_event (ntp clock) ∷ [])

unfoldable pub receive_ipv6 :
    Bytes → ℕ → TlvTransportParser → TlvTransportParser × List TransportEvent
receive_ipv6 payload input_offset p = note_clock (consume_ipv6 payload input_offset) p

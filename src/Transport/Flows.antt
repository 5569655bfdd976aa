-- ===== src/Transport/Flows.antt =====
-- src/tlv_transport_parser.cpp, read_be64_local, expand_ntp_microseconds, consume_ipv6 and
-- observe_compressed_flow: the NTP clock in a plain IPv6 packet, and the flows of the compressed ones.
use libaribtlv.Types.{ErrorCode, malformed_input, unsupported_feature, Timestamp}
use libaribtlv.Base.Int.{ℤ, pos, negsuc}
use libaribtlv.Reader.{be32}
use libaribtlv.Transport.Nit.{u8_at, u16_at}
use libaribtlv.Base.{
  ℕ, zero, suc, ◌+◌, ◌-◌, ◌*◌, ◌/◌, ◌%◌, ◌^◌, Bool, true, false, not, ◌&&◌, ◌||◌, List, [], ◌∷◌,
  Option, none, some, ltb, ◌==◌, if◌then◌else◌, length, take, drop, Bytes, ◌++◌, ◌⊎◌, inl, inr,
}

pub record IpDataFlow : Type 0 where
  pub context_id : ℕ
  pub sequence_number : ℕ
  pub ip_version : ℕ
  pub source_address : Bytes
  pub destination_address : Bytes
  pub next_header : ℕ
  pub source_port : ℕ
  pub destination_port : ℕ
  pub input_offset : ℕ

pub record TransportNtpClock : Type 0 where
  pub ip_version : ℕ
  pub source_address : Bytes
  pub destination_address : Bytes
  pub source_port : ℕ
  pub destination_port : ℕ
  pub leap_indicator : ℕ
  pub version : ℕ
  pub mode : ℕ
  pub stratum : ℕ
  pub poll : ℤ
  pub precision : ℤ
  pub root_delay : ℕ
  pub root_dispersion : ℕ
  pub reference_identification : ℕ
  pub reference_timestamp : ℕ
  pub origin_timestamp : ℕ
  pub receive_timestamp : ℕ
  pub transmit_timestamp : ℕ
  pub transmit_time : Timestamp
  pub input_offset : ℕ

-- The texts of the error callback, in the order of the source.
pub data FlowMessage : Type 0 where
  ipv4_unavailable truncated_ipv6 payload_length_mismatch fragmented unsupported_header :
      FlowMessage
  invalid_layout udp_length_mismatch not_ntp truncated_ntp : FlowMessage
  truncated_context not_ipv6 flow_not_udp ports_differ : FlowMessage

pub data FlowEvent : Type 0 where
  flow_error : ErrorCode → FlowMessage → ℕ → FlowEvent
  flow : IpDataFlow → FlowEvent
  ntp : TransportNtpClock → FlowEvent

unfoldable pub be64_from : ℕ → ℕ → Bytes → ℕ
be64_from zero value xs = value
be64_from (suc n) value [] = value
be64_from (suc n) value (x ∷ xs) = be64_from n (value * 256 % 2 ^ 64 + x) xs

unfoldable pub read_be64_local : Bytes → ℕ
read_be64_local xs = be64_from 8 0 xs

abbrev pub u32_at : Bytes → ℕ → ℕ
u32_at xs i = be32 (u8_at xs i) (u8_at xs (i + 1)) (u8_at xs (i + 2)) (u8_at xs (i + 3))

-- A std::int8_t from a byte.
abbrev pub signed8 : ℕ → ℤ
signed8 b = if ltb b 128 then pos b else negsuc (255 - b)

-- The seconds of an era after 2036 have their top bit clear.
abbrev pub era_seconds : ℕ → ℕ
era_seconds seconds = if seconds / 2 ^ 31 % 2 == 0 then seconds + 2 ^ 32 else seconds

-- The value is below 2 ^ 63, so that the cast to std::int64_t keeps it.
unfoldable pub expand_ntp_microseconds : ℕ → ℤ
expand_ntp_microseconds timestamp =
    pos (era_seconds (timestamp / 2 ^ 32) * 1000000 + timestamp % 2 ^ 32 * 1000000 / 2 ^ 32)

-- Where the walk over the extension headers ends.
pub data Walk : Type 0 where
  at_header : ℕ → ℕ → Walk
  is_fragment has_unsupported : Walk

-- Past a header of `size` bytes; after a `break` the next header is already read.
abbrev pub walk_past : ℕ → ℕ → ℕ → ℕ → Walk → Walk
walk_past end offset size next_header further =
    if ltb (end - offset) size then at_header next_header offset else further

-- The loop over the extension headers, with the rounds that it has left.
unfoldable pub walk : ℕ → Bytes → ℕ → ℕ → Walk
walk zero payload next_header offset = at_header next_header offset
walk (suc rounds) payload next_header offset =
    let end = length payload in
    let next = u8_at payload offset in
    let options_size = (u8_at payload (offset + 1) + 1) * 8 in
    let auth_size = (u8_at payload (offset + 1) + 2) * 4 in
    let is_options = next_header == 0 || next_header == 43 || next_header == 60 in
    let size = if is_options then options_size else if next_header == 44 then 8 else auth_size in
    let further = walk rounds payload next (offset + size) in
    if next_header == 17
    then at_header next_header offset
    else if is_options
    then (if ltb end (offset + 2)
        then at_header next_header offset
        else walk_past end offset options_size next further)
    else if next_header == 44
    then (if ltb end (offset + 8)
        then at_header next_header offset
        else if not (u16_at payload (offset + 2) / 8 == 0 && u16_at payload (offset + 2) % 2 == 0)
        then is_fragment
        else further)
    else if next_header == 51
    then (if ltb end (offset + 2)
        then at_header next_header offset
        else walk_past end offset auth_size next further)
    else has_unsupported

abbrev pub clock_of : Bytes → Bytes → ℕ → ℕ → ℕ → TransportNtpClock
clock_of payload body source_port destination_port input_offset = record {
  ip_version = 6;
  source_address = take 16 (drop 8 payload);
  destination_address = take 16 (drop 24 payload);
  source_port = source_port;
  destination_port = destination_port;
  leap_indicator = u8_at body 0 / 64;
  version = u8_at body 0 / 8 % 8;
  mode = u8_at body 0 % 8;
  stratum = u8_at body 1;
  poll = signed8 (u8_at body 2);
  precision = signed8 (u8_at body 3);
  root_delay = u32_at body 4;
  root_dispersion = u32_at body 8;
  reference_identification = u32_at body 12;
  reference_timestamp = read_be64_local (drop 16 body);
  origin_timestamp = read_be64_local (drop 24 body);
  receive_timestamp = read_be64_local (drop 32 body);
  transmit_timestamp = read_be64_local (drop 40 body);
  transmit_time = record {
    value = expand_ntp_microseconds (read_be64_local (drop 40 body));
    timescale = 1000000;
  };
  input_offset = input_offset;
}

abbrev pub flow_fault : ErrorCode → FlowMessage → ℕ → FlowEvent ⊎ TransportNtpClock
flow_fault c m input_offset = inl (flow_error c m input_offset)

-- The datagram from its UDP header on.
unfoldable pub consume_udp : Bytes → ℕ → ℕ → FlowEvent ⊎ TransportNtpClock
consume_udp payload input_offset offset =
    let udp_length = u16_at payload (offset + 4) in
    if ltb udp_length 8 || not (udp_length == length payload - offset)
    then flow_fault malformed_input udp_length_mismatch input_offset
    else if not (u16_at payload (offset + 2) == 123)
    then flow_fault unsupported_feature not_ntp input_offset
    else if ltb (udp_length - 8) 48
    then flow_fault malformed_input truncated_ntp input_offset
    else inr (
        clock_of payload (drop (offset + 8) payload) (u16_at payload offset)
          (u16_at payload (offset + 2)) input_offset)

abbrev pub after_walk : Bytes → ℕ → Walk → FlowEvent ⊎ TransportNtpClock
after_walk payload input_offset is_fragment = flow_fault unsupported_feature fragmented input_offset
after_walk payload input_offset has_unsupported =
    flow_fault unsupported_feature unsupported_header input_offset
after_walk payload input_offset (at_header next_header offset) =
    if not (next_header == 17) || ltb (length payload) (offset + 8)
    then flow_fault malformed_input invalid_layout input_offset
    else consume_udp payload input_offset offset

-- A packet gives an error or a clock, whose transmit time the parser keeps.
unfoldable pub consume_ipv6 : Bytes → ℕ → FlowEvent ⊎ TransportNtpClock
consume_ipv6 payload input_offset =
    if ltb (length payload) 48 || not (u8_at payload 0 / 16 == 6)
    then flow_fault malformed_input truncated_ipv6 input_offset
    else if not (u16_at payload 4 == length payload - 40)
    then flow_fault malformed_input payload_length_mismatch input_offset
    else after_walk payload input_offset (walk 16 payload (u8_at payload 6) 40)

unfoldable pub eq_bytes : Bytes → Bytes → Bool
eq_bytes [] [] = true
eq_bytes (x ∷ xs) (y ∷ ys) = x == y && eq_bytes xs ys
eq_bytes xs ys = false

-- What makes two observations the same flow.
abbrev pub same_flow : IpDataFlow → IpDataFlow → Bool
same_flow f g =
    f.ip_version == g.ip_version
    && eq_bytes f.source_address g.source_address
    && eq_bytes f.destination_address g.destination_address
    && f.next_header == g.next_header
    && f.source_port == g.source_port
    && f.destination_port == g.destination_port

unfoldable pub find_flow : ℕ → List (ℕ × IpDataFlow) → Option IpDataFlow
find_flow id [] = none
find_flow id ((k, f) ∷ rest) = if id == k then some f else find_flow id rest

unfoldable pub set_flow : ℕ → IpDataFlow → List (ℕ × IpDataFlow) → List (ℕ × IpDataFlow)
set_flow id f [] = (id, f) ∷ []
set_flow id f ((k, g) ∷ rest) =
    let others = set_flow id f rest in if id == k then (id, f) ∷ rest else (k, g) ∷ others

abbrev pub flow_of : ℕ → ℕ → ℕ → Bytes → IpDataFlow
flow_of context_id sequence_number input_offset header = record {
  context_id = context_id;
  sequence_number = sequence_number;
  ip_version = 6;
  source_address = take 16 (drop 6 header);
  destination_address = take 16 (drop 22 header);
  next_header = u8_at header 4;
  source_port = u16_at header 38;
  destination_port = u16_at header 40;
  input_offset = input_offset;
}

abbrev pub flow_warnings : IpDataFlow → List FlowEvent
flow_warnings f =
    (if f.next_header == 17
      then []
      else flow_error unsupported_feature flow_not_udp f.input_offset ∷ [])
    ++ (if f.source_port == 50000 && f.destination_port == 51216
        then []
        else flow_error unsupported_feature ports_differ f.input_offset ∷ [])

abbrev pub is_known : IpDataFlow → Option IpDataFlow → Bool
is_known f none = false
is_known f (some g) = same_flow g f

unfoldable pub note_flow :
    IpDataFlow → List (ℕ × IpDataFlow) → List (ℕ × IpDataFlow) × List FlowEvent
note_flow f flows =
    if is_known f (find_flow f.context_id flows)
    then (flows, flow_warnings f)
    else (set_flow f.context_id f flows, flow_warnings f ++ (flow f ∷ []))

-- The flag is the function's result: whether the packet's payload may be read.
unfoldable pub observe_compressed_flow :
    Bytes → ℕ → ℕ → ℕ → List (ℕ × IpDataFlow) → (List (ℕ × IpDataFlow) × List FlowEvent) × Bool
observe_compressed_flow payload input_offset context_id sequence_number flows =
    if ltb (length payload) 45
    then ((flows, flow_error malformed_input truncated_context input_offset ∷ []), false)
    else if not (u8_at payload 3 / 16 == 6)
    then ((flows, flow_error malformed_input not_ipv6 input_offset ∷ []), false)
    else (note_flow (flow_of context_id sequence_number input_offset (drop 3 payload)) flows, true)

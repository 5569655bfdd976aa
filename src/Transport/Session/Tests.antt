-- ===== src/Transport/Session/Tests.antt =====
-- A section of an unknown table, and an IPv6 packet whose extension header is longer than the packet.
use libaribtlv.Base.{
  ℕ, zero, suc, ◌≡◌, refl, Bool, true, false, List, [], ◌∷◌, ◌++◌, Option, none, some, Bytes, ◌⊎◌,
  inl, inr, length,
}
use libaribtlv.Transport.Crc.{crc_bit, crc_bits, crc_byte, crc_from, crc32_mpeg}
use libaribtlv.Transport.Sections.{
  find_complete_boundary, complete, plausible, checked, judge, carry_out, process_on,
  process_sections, repeat,
}
use libaribtlv.Transport.Flows.{
  FlowEvent, TransportNtpClock, at_header, walk, consume_udp, consume_ipv6,
}
use libaribtlv.Transport.Session.{
  TlvTransportParser, TransportEvent, fresh_parser, process_section, table_events, deal,
  consume_tlv_si,
}

abbrev count_events : Option (TlvTransportParser × List TransportEvent) → Option ℕ
count_events none = none
count_events (some (p, es)) = some (length es)

-- The raw table is handed on, and nothing else.
unknown_table :
    count_events (
      consume_tlv_si
        (66 ∷ 176 ∷ 9 ∷ 0 ∷ 1 ∷ 193 ∷ 0 ∷ 0 ∷ 230 ∷ 129 ∷ 127 ∷ 193 ∷ [])
        188
        fresh_parser)
    ≡ some 1
unfolding consume_tlv_si process_sections process_on carry_out judge find_complete_boundary complete
    plausible checked crc32_mpeg crc_from crc_byte crc_bits crc_bit repeat deal process_section
    table_events
unknown_table = refl

abbrev many : ℕ → Bytes
many zero = []
many (suc n) = 1 ∷ many n

-- The destination options at offset 40 claim 64 bytes, where 56 are left.
abbrev overlong_options : Bytes
overlong_options =
    96 ∷ 0 ∷ 0 ∷ 0 ∷ 0 ∷ 56 ∷ 60 ∷ 64 ∷ (many 32 ++ (17 ∷ 7 ∷ 0 ∷ 123 ∷ 0 ∷ 56 ∷ 0 ∷ 0 ∷ many 48))

-- The walk stops at them, with the number of UDP.
stopped_at_options : walk 16 overlong_options 60 40 ≡ at_header 17 40
unfolding walk
stopped_at_options = refl

abbrev is_clock : FlowEvent ⊎ TransportNtpClock → Bool
is_clock (inl e) = false
is_clock (inr clock) = true

-- Their bytes are read as a UDP header.
options_read_as_udp : is_clock (consume_ipv6 overlong_options 0) ≡ true
unfolding consume_ipv6 consume_udp walk
options_read_as_udp = refl

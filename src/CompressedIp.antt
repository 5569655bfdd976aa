-- ===== src/CompressedIp.antt =====
-- src/compressed_ip_parser.hpp, src/compressed_ip_parser.cpp: class CompressedIpParser, which gives
-- each TLV packet to the transport or to the MMTP parser of its context.
pub mod Buffer
pub mod Valid
mod Tests
use libaribtlv.PacketStates.{StateCall, run_calls}
use libaribtlv.Types.{Limits}
use libaribtlv.Transport.Flows.{
  FlowEvent, ntp, consume_ipv6, observe_compressed_flow, TransportNtpClock,
}
use libaribtlv.Transport.Session.{
  TlvTransportParser, TransportEvent, flow_event, fresh_parser, consume_tlv_si, consume_null,
  consume_ipv4, note_clock, receive_ipv6,
}
use libaribtlv.Transport.Nit.{u8_at, u16_at}
use libaribtlv.Base.{
  ℕ, ◌+◌, ◌-◌, ◌/◌, ◌%◌, ◌≤◌, Bool, true, false, not, ◌&&◌, ◌||◌, List, [], ◌∷◌, ◌++◌, Option, none,
  some, ltb, leb, ◌==◌, if◌then◌else◌, length, drop, Bytes, ◌⊎◌, inl, inr,
}

-- The calls of a context's parser.
pub data MmtpCall : Type 0 where
  seed_full_ntp : ℕ → MmtpCall
  push_mmtp : Bytes → ℕ → MmtpCall
  flush_mmtp : MmtpCall

-- What a parser calls back: for packet states, for the client's service with its package id, and for
-- anything else of the client's, by a number that stands for the call.
pub data MmtpCallback : Type 0 where
  on_state : StateCall → MmtpCallback
  on_package : Bytes → MmtpCallback
  on_other : ℕ → MmtpCallback

-- A context has the calls that its parser was given, the last one first.
pub record CompressedIpParser : Type 0 where
  pub transport : TlvTransportParser
  pub selected_service : Option ℕ
  pub active_packet_states : ℕ
  pub contexts : List (ℕ × List MmtpCall)

pub data IpMessage : Type 0 where
  context_limit_exceeded unsupported_packet_type truncated_header unsupported_mode
        truncated_context_header :
      IpMessage

-- The callbacks to the client; those of a parser are passed on, under its context.
pub data IpEvent : Type 0 where
  ip_error : IpMessage → ℕ → IpEvent
  transport_event : TransportEvent → IpEvent
  service : ℕ → Bytes → IpEvent
  mmtp : ℕ → ℕ → IpEvent

unfoldable pub flow_events : List FlowEvent → List TransportEvent
flow_events [] = []
flow_events (e ∷ es) = flow_event e ∷ flow_events es

abbrev pub same_service : Option ℕ → Option ℕ → Bool
same_service none none = true
same_service (some a) (some b) = a == b
same_service a b = false

abbrev pub is_other_service : Option ℕ → ℕ → Bool
is_other_service none id = false
is_other_service (some selected) id = not (selected == id)

abbrev pub of_transport : List TransportEvent → List IpEvent
of_transport [] = []
of_transport (e ∷ es) = transport_event e ∷ of_transport es

-- What the client has of a parser's callbacks.
abbrev pub of_mmtp : ℕ → List MmtpCallback → List IpEvent
of_mmtp id [] = []
of_mmtp id (on_state c ∷ cs) = of_mmtp id cs
of_mmtp id (on_package package_id ∷ cs) = service id package_id ∷ of_mmtp id cs
of_mmtp id (on_other n ∷ cs) = mmtp id n ∷ of_mmtp id cs

-- The states that the callbacks take and give back.
abbrev pub states_of : List MmtpCallback → List StateCall
states_of [] = []
states_of (on_state c ∷ cs) = c ∷ states_of cs
states_of (on_package package_id ∷ cs) = states_of cs
states_of (on_other n ∷ cs) = states_of cs

abbrev pub fresh : Option ℕ → CompressedIpParser
fresh selected = record {
  transport = fresh_parser;
  selected_service = selected;
  active_packet_states = 0;
  contexts = [];
}

unfoldable pub reset : CompressedIpParser → CompressedIpParser
reset p = fresh p.selected_service

unfoldable pub select_service : Option ℕ → CompressedIpParser → CompressedIpParser
select_service id p = if same_service p.selected_service id then p else fresh id

unfoldable pub find_context : ℕ → List (ℕ × List MmtpCall) → Option (List MmtpCall)
find_context id [] = none
find_context id ((k, m) ∷ rest) = if id == k then some m else find_context id rest

unfoldable pub set_context : ℕ → List MmtpCall → List (ℕ × List MmtpCall) → List (ℕ × List MmtpCall)
set_context id m [] = (id, m) ∷ []
set_context id m ((k, n) ∷ rest) =
    let others = set_context id m rest in if id == k then (k, m) ∷ rest else (k, n) ∷ others

-- The size of the context's header, by the mode.
abbrev pub header_size : ℕ → Option ℕ
header_size mode =
    if mode == 0x20
    then some 20
    else if mode == 0x21
    then some 2
    else if mode == 0x60
    then some 42
    else if mode == 0x61
    then some 0
    else none

abbrev pub seeded : Option ℕ → List MmtpCall
seeded none = []
seeded (some t) = seed_full_ntp t ∷ []

unfoldable pub seed_all : ℕ → List (ℕ × List MmtpCall) → List (ℕ × List MmtpCall)
seed_all t [] = []
seed_all t ((k, m) ∷ rest) = (k, seed_full_ntp t ∷ m) ∷ seed_all t rest

module _ (lim : Limits) where
  -- With what the parser of each context calls back. The contexts are flushed in the order of the
  -- list; the order of the map is not defined.
  unfoldable pub flush_all :
      (ℕ → List MmtpCallback)
      → ℕ
      → List (ℕ × List MmtpCall)
      → (List (ℕ × List MmtpCall) × ℕ) × List IpEvent
  flush_all during active [] = (([], active), [])
  flush_all during active ((k, m) ∷ rest) =
      let others = flush_all during (run_calls lim (states_of (during k)) active) rest in
      (((k, flush_mmtp ∷ m) ∷ others.0.0, others.0.1), of_mmtp k (during k) ++ others.1)

  unfoldable pub flush :
      (ℕ → List MmtpCallback) → CompressedIpParser → CompressedIpParser × List IpEvent
  flush during p =
      let r = flush_all during p.active_packet_states p.contexts in
      (record p { contexts = r.0.0; active_packet_states = r.0.1 }, r.1)

  -- The context's parser, made when there is none, with the events of its making.
  abbrev pub make_context :
      ℕ → CompressedIpParser → Option (List MmtpCall) → Option (List MmtpCall × List IpEvent)
  make_context id p (some m) = some (m, [])
  make_context id p none =
      if leb lim.max_contexts (length p.contexts)
      then none
      else some (seeded p.transport.latest_ntp, service id [] ∷ [])

  unfoldable pub context : ℕ → CompressedIpParser → Option (List MmtpCall × List IpEvent)
  context id p = make_context id p (find_context id p.contexts)

  -- The parser is given the payload, and calls back meanwhile.
  abbrev pub push_context :
      List MmtpCallback
      → ℕ
      → Bytes
      → ℕ
      → CompressedIpParser
      → Option (List MmtpCall × List IpEvent)
      → CompressedIpParser × List IpEvent
  push_context during id payload input_offset p none =
      (p, ip_error context_limit_exceeded input_offset ∷ [])
  push_context during id payload input_offset p (some (m, es)) = (
    record p {
      contexts = set_context id (push_mmtp payload input_offset ∷ m) p.contexts;
      active_packet_states = run_calls lim (states_of during) p.active_packet_states;
    },
    es ++ of_mmtp id during,
  )

  -- Behind the tests of the mode and of the flow.
  unfoldable pub push_payload :
      List MmtpCallback → ℕ → Bytes → ℕ → ℕ → CompressedIpParser → CompressedIpParser × List IpEvent
  push_payload during id payload input_offset size p =
      if ltb (length payload - 3) size
      then (p, ip_error truncated_context_header input_offset ∷ [])
      else push_context during id (drop (3 + size) payload) input_offset p (context id p)

  abbrev pub also :
      List IpEvent → CompressedIpParser × List IpEvent → CompressedIpParser × List IpEvent
  also es r = (r.0, es ++ r.1)

  -- The flow of a packet with a full header is noted first, and may refuse it.
  unfoldable pub push_observed :
      List MmtpCallback
      → ℕ
      → ℕ
      → Bytes
      → ℕ
      → ℕ
      → CompressedIpParser
      → CompressedIpParser × List IpEvent
  push_observed during id sequence_number payload input_offset size p =
      let o = observe_compressed_flow payload input_offset id sequence_number p.transport.flows in
      let q = record p { transport = record p.transport { flows = o.0.0 } } in
      also (of_transport (flow_events o.0.1))
        (if o.1 then push_payload during id payload input_offset size q else (q, []))

  abbrev pub push_mode :
      List MmtpCallback
      → ℕ
      → ℕ
      → Bytes
      → ℕ
      → ℕ
      → CompressedIpParser
      → Option ℕ
      → CompressedIpParser × List IpEvent
  push_mode during id sequence_number payload input_offset mode p none =
      (p, ip_error unsupported_mode input_offset ∷ [])
  push_mode during id sequence_number payload input_offset mode p (some size) =
      if mode == 0x60
      then push_observed during id sequence_number payload input_offset size p
      else push_payload during id payload input_offset size p

  unfoldable pub parse_compressed :
      List MmtpCallback → Bytes → ℕ → CompressedIpParser → CompressedIpParser × List IpEvent
  parse_compressed during payload input_offset p =
      let id = u16_at payload 0 / 16 in
      if ltb (length payload) 3
      then (p, ip_error truncated_header input_offset ∷ [])
      else if is_other_service p.selected_service id
      then (p, [])
      else push_mode during id (u16_at payload 0 % 16) payload input_offset (u8_at payload 2) p
          (header_size (u8_at payload 2))

  abbrev pub with_transport :
      CompressedIpParser
      → Option (TlvTransportParser × List TransportEvent)
      → Option (CompressedIpParser × List IpEvent)
  with_transport p none = none
  with_transport p (some (t, es)) = some (record p { transport = t }, of_transport es)

  -- The clock goes to every context before the client has it.
  abbrev pub consume_clock :
      FlowEvent ⊎ TransportNtpClock → CompressedIpParser → CompressedIpParser × List IpEvent
  consume_clock (inl e) p = (p, transport_event (flow_event e) ∷ [])
  consume_clock (inr clock) p = (
    record p {
      transport = record p.transport { latest_ntp = some clock.transmit_timestamp };
      contexts = seed_all clock.transmit_timestamp p.contexts;
    },
    transport_event (flow_event (ntp clock)) ∷ [],
  )

  -- A packet by its type, with what the parser of its context calls back; `none` is a loop over the TLV-SI that runs out of fuel.
  unfoldable pub consume :
      List MmtpCallback
      → ℕ
      → Bytes
      → ℕ
      → CompressedIpParser
      → Option (CompressedIpParser × List IpEvent)
  consume during packet_type payload input_offset p =
      if packet_type == 0x01
      then some (p, of_transport (consume_ipv4 input_offset))
      else if packet_type == 0x02
      then some (consume_clock (consume_ipv6 payload input_offset) p)
      else if packet_type == 0x03
      then some (parse_compressed during payload input_offset p)
      else if packet_type == 0xfe
      then with_transport p (consume_tlv_si payload input_offset p.transport)
      else if packet_type == 0xff
      then some (record p { transport = consume_null p.transport }, [])
      else some (p, ip_error unsupported_packet_type input_offset ∷ [])

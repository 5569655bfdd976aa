-- ===== src/Tlv/Tests.antt =====
-- Runs of the framer at concrete inputs, and its theorems applied there.
use libaribtlv.Base.{
  ◌≤◌, ◌≡◌, refl, true, false, Option, none, some, List, [], ◌∷◌, ◌+◌, max, All, Bytes, arith,
  length,
}
use libaribtlv.Tlv.Delivery.{aligned, push_all-wire}
use libaribtlv.Tlv.Fill.{flush-Returns}
use libaribtlv.Tlv.Session.{concat, reset-Done, push_all-Honest}
use libaribtlv.Tlv.Stream.{Honest, Tracks}
use libaribtlv.Tlv.Wire.{TlvPacket}
use libaribtlv.Types.{default_limits, Limits, malformed_input}
use libaribtlv.Tlv.{
  Parser, Event, packet, error, discarded_searching, push, push_all, flush, reset, fresh, process,
  process_on, round, synced_round, find_boundary, boundary_found, boundary_missing, scan, validated,
  plausible_header, candidate_type, compact, fill, fill_round, fill_with, required, push_rest,
  push_direct, direct,
}

abbrev limits : Limits
limits = record default_limits { max_tlv_payload = 100; max_resync_buffer = 64 }

-- A stray byte, a packet of two bytes, a null packet, and the start of a third.
abbrev noisy : List Bytes
noisy = (9 ∷ 0x7f ∷ 3 ∷ 0 ∷ 2 ∷ 10 ∷ []) ∷ (11 ∷ 0x7f ∷ 0xff ∷ 0 ∷ 0 ∷ 0x7f ∷ 1 ∷ []) ∷ []

noisy_events : Option (List Event)
unfolding push_all push fill fill_round fill_with required push_rest push_direct direct process
    process_on round synced_round find_boundary boundary_found boundary_missing scan validated
    plausible_header candidate_type compact reset
noisy_events = elim (push_all limits noisy (reset 1000 fresh)) [
  | none ↦ none
  | some t ↦ some t.events
]

noisy_run :
    noisy_events
    ≡ some (
        error malformed_input 1000 discarded_searching
        ∷ packet 3 (10 ∷ 11 ∷ []) 1001
        ∷ packet 0xff [] 1007
        ∷ [])
unfolding noisy_events
noisy_run = refl

push_all-Honest_example :
    (t : Parser) × (push_all limits noisy (reset 1000 fresh) ≡ some t)
    × All (Honest limits 1000 (concat noisy)) t.events
    × (length t.buffer ≤ max (3 + 100) (max 3 64))
push_all-Honest_example = push_all-Honest limits 1000 noisy (omega arith)

abbrev two_packets : List TlvPacket
two_packets =
    record { kind = 3; payload = 10 ∷ 11 ∷ [] } ∷ record { kind = 0xff; payload = [] } ∷ []

abbrev chunks : List Bytes
chunks = (0x7f ∷ []) ∷ (3 ∷ 0 ∷ 2 ∷ 10 ∷ []) ∷ (11 ∷ 0x7f ∷ 0xff ∷ 0 ∷ []) ∷ (0 ∷ []) ∷ []

push_all-wire_example :
    (t : Parser) × (push_all limits chunks (aligned 500) ≡ some t)
    × (t.events ≡ packet 3 (10 ∷ 11 ∷ []) 500 ∷ packet 0xff [] 506 ∷ [])
    × (t.buffer ≡ [])
    × (t.synchronized ≡ true)
push_all-wire_example = push_all-wire limits 500 two_packets chunks (omega arith) (omega arith) refl

flush-Returns_example :
    (t : Parser) × (flush limits (reset 7 fresh) ≡ some t)
    × Tracks limits 7 [] t
    × (t.buffer ≡ [])
    × (t.synchronized ≡ false)
flush-Returns_example =
    flush-Returns limits 7 [] (reset 7 fresh) (reset-Done limits 7 fresh (omega arith) refl).tracks

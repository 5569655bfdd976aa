-- ===== src/Mmtp/Signalling/Tests.antt =====
-- Reassembly at concrete packets.
use libaribtlv.PacketStates.{StateCall, acquire_call, release_call}
use libaribtlv.Base.{ℕ, ◌≡◌, ◌≢◌, false, All, some, List, [], ◌∷◌, arith}
use libaribtlv.Types.{Limits, default_limits}
use libaribtlv.Mmtp.Signalling.Bounds.{Bounded}
use libaribtlv.Mmtp.Signalling.Origin.{Origin}
use libaribtlv.Mmtp.Signalling.Provenance.{onto, receive_all-Origin}
use libaribtlv.Mmtp.Signalling.Aggregates.{aggregate, unit_events, receive-aggregate}
use libaribtlv.Mmtp.Signalling.States.{IsValid, Counted, parse_signalling-IsValid}
use libaribtlv.Mmtp.Signalling.Fragments.{
  Sent, whole, split, pieces, numbered, units, ready, gathering, receive_all-units,
}
use libaribtlv.Mmtp.Signalling.{
  SignallingAssembler, Event, Payload, receive, receive_all, fresh, Signalling, find,
  parse_signalling,
}

abbrev limits : Limits
limits = record default_limits { max_signalling_message = 8 }

abbrev messages : List Sent
messages =
    split (1 ∷ 2 ∷ []) 100 ((3 ∷ [], 150) ∷ []) (4 ∷ 5 ∷ []) 200 ∷ whole (6 ∷ 7 ∷ []) 250 ∷ []

-- The sequence number wraps around inside the first message.
receive_all-units_example :
    (t : ℕ) × (receive_all limits (numbered 42 4294967294 (pieces messages)) fresh
      ≡ some (ready t, units 42 messages))
receive_all-units_example =
    receive_all-units limits 42 (omega arith) 4294967294
      (split (1 ∷ 2 ∷ []) 100 ((3 ∷ [], 150) ∷ []) (4 ∷ 5 ∷ []) 200) (whole (6 ∷ 7 ∷ []) 250 ∷ [])
      (omega arith) (omega arith, (omega arith, tt))

-- A first fragment, a middle one behind a gap, and a whole message.
abbrev received : List Payload
received =
    record { packet_id = 42; sequence = 7; flags = 64; body = 1 ∷ 2 ∷ []; input_offset = 100 }
    ∷ record { packet_id = 42; sequence = 9; flags = 128; body = 3 ∷ []; input_offset = 200 }
    ∷ record { packet_id = 42; sequence = 10; flags = 0; body = 4 ∷ 5 ∷ []; input_offset = 300 }
    ∷ []

receive_all-Origin_example :
    (t : SignallingAssembler) × (es : List Event) × (receive_all limits received fresh
      ≡ some (t, es))
    × All (Origin (onto received [])) es
    × Bounded limits t
receive_all-Origin_example = receive_all-Origin limits received (omega arith)

receive-aggregate_example :
    receive limits (aggregate 42 8 false ((1 ∷ 2 ∷ []) ∷ [] ∷ (3 ∷ []) ∷ []) 100) (ready 7)
    ≡ some (ready 8, unit_events 42 100 ((1 ∷ 2 ∷ []) ∷ [] ∷ (3 ∷ []) ∷ []))
receive-aggregate_example =
    receive-aggregate limits 42 7 100 false ((1 ∷ 2 ∷ []) ∷ [] ∷ (3 ∷ []) ∷ []) (omega arith)
      ((omega arith, omega arith), ((omega arith, omega arith), ((omega arith, omega arith), tt)))

abbrev one_state : Signalling
one_state = record { assemblers = (41, gathering 3 50 (9 ∷ [])) ∷ []; active = 6 }

-- Meanwhile a track takes a state, and another gives one back.
abbrev taken : List StateCall
taken = acquire_call ∷ release_call ∷ []

parse_signalling-IsValid_example :
    (t : Signalling) × (es : List Event) × (parse_signalling limits taken 42 7
        (64 ∷ 0 ∷ 1 ∷ 2 ∷ [])
        100
        one_state
      ≡ some (t, es))
    × IsValid limits t
    × Counted limits taken one_state t
    × ((j : ℕ) → j ≢ 42 → find j t.assemblers ≡ find j one_state.assemblers)
parse_signalling-IsValid_example =
    parse_signalling-IsValid limits taken 42 7 (64 ∷ 0 ∷ 1 ∷ 2 ∷ []) 100 one_state (omega arith)
      (record { bounded = (omega arith, tt); limited = omega arith })

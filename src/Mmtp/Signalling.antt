-- ===== src/Mmtp/Signalling.antt =====
-- src/mmtp_signalling_parser.cpp, append and parse_signalling: the reassembly of signalling
-- messages, one assembler for each packet identifier. A call of `accept_signalling_unit` or of the
-- error callback is an event; a step returns the events that it adds.
pub mod Bounds
pub mod Fragments
pub mod Origin
pub mod Provenance
pub mod Aggregates
pub mod States
mod Tests
use libaribtlv.PacketStates.{StateCall, acquire_state, run_calls}
use libaribtlv.Reader.{be16, be32}
use libaribtlv.Types.{Limits, ErrorCode, malformed_input, discontinuity, resource_limit}
use libaribtlv.Base.{
  ℕ, zero, suc, ◌+◌, ◌*◌, ◌/◌, ◌%◌, Bool, true, false, not, ◌&&◌, ◌||◌, Option, none, some, List,
  [], ◌∷◌, ◌++◌, ltb, leb, ◌==◌, if◌then◌else◌, length, take, drop, Bytes, sub_u64, add_u32,
}

pub data FragmentState : Type 0 where
  initial idle collecting skipping : FragmentState

pub record SignallingAssembler : Type 0 where
  pub state : FragmentState
  pub last_sequence : ℕ
  pub input_offset : ℕ
  pub data_bytes : Bytes

-- The texts of the error callback, in the order of the source.
pub data Message : Type 0 where
  over_limit truncated_header state_limit sequence_jump aggregated_and_fragmented : Message
  truncated_length unit_length interrupted middle_alone last_alone : Message

pub data Event : Type 0 where
  unit : ℕ → Bytes → ℕ → Event
  error : ErrorCode → ℕ → Message → Event

-- The arguments of `parse_signalling`.
pub record Payload : Type 0 where
  pub packet_id : ℕ
  pub sequence : ℕ
  pub flags : ℕ
  pub body : Bytes
  pub input_offset : ℕ

abbrev pub fragmentation : Payload → ℕ
fragmentation p = p.flags / 64

abbrev pub length_extension : Payload → Bool
length_extension p = p.flags / 2 % 2 == 1

abbrev pub aggregation : Payload → Bool
aggregation p = p.flags % 2 == 1

abbrev pub is_initial : FragmentState → Bool
is_initial FragmentState.initial = true
is_initial _ = false

abbrev pub is_collecting : FragmentState → Bool
is_collecting FragmentState.collecting = true
is_collecting _ = false

abbrev pub is_skipping : FragmentState → Bool
is_skipping FragmentState.skipping = true
is_skipping _ = false

abbrev pub is_nil {ℓ} : {A : Type ℓ} → List A → Bool
is_nil [] = true
is_nil (x ∷ xs) = false

-- `data.clear()`, `input_offset = 0` and a new state.
abbrev pub clear : FragmentState → SignallingAssembler → SignallingAssembler
clear now a = record a { data_bytes = []; input_offset = 0; state = now }

-- `append`, with what it returns. The subtraction is one on std::size_t.
unfoldable pub append :
    Limits → Bytes → ℕ → SignallingAssembler → SignallingAssembler × List Event × Bool
append lim body offset a =
    if ltb (sub_u64 lim.max_signalling_message (length a.data_bytes)) (length body)
    then (clear FragmentState.skipping a, error resource_limit offset over_limit ∷ [], false)
    else (record a { data_bytes = a.data_bytes ++ body }, [], true)

-- The tests of the sequence number; `none` is a duplicate.
unfoldable pub admit : Payload → SignallingAssembler → Option (SignallingAssembler × List Event)
admit p a =
    if is_initial a.state
    then some (record a { last_sequence = p.sequence }, [])
    else if p.sequence == a.last_sequence
    then none
    else if not (p.sequence == add_u32 a.last_sequence 1)
    then some (
      record (clear FragmentState.skipping a) { last_sequence = p.sequence },
      if is_nil a.data_bytes then [] else error discontinuity p.input_offset sequence_jump ∷ [],
    )
    else some (record a { last_sequence = p.sequence }, [])

-- The length in front of an aggregated unit, and what follows it.
unfoldable pub unit_length_of : Bool → Bytes → Option (ℕ × Bytes)
unit_length_of true (b0 ∷ b1 ∷ b2 ∷ b3 ∷ rest) = some (be32 b0 b1 b2 b3, rest)
unit_length_of false (b0 ∷ b1 ∷ rest) = some (be16 b0 b1, rest)
unit_length_of _ _ = none

abbrev pub logged : Event → Option (List Event × Bool) → Option (List Event × Bool)
logged e none = none
logged e (some (es, done)) = some (e ∷ es, done)

-- One unit with its length known; `continue` is the rest of the loop.
unfoldable pub aggregated_unit :
    Limits
    → Payload
    → (Bytes → Option (List Event × Bool))
    → Option (ℕ × Bytes)
    → Option (List Event × Bool)
aggregated_unit lim p continue none =
    some (error malformed_input p.input_offset truncated_length ∷ [], false)
aggregated_unit lim p continue (some (n, rest)) =
    let over = ltb lim.max_signalling_message n in
    if ltb (length rest) n || over
    then some (
      error (if over then resource_limit else malformed_input) p.input_offset unit_length ∷ [],
      false,
    )
    else logged (unit p.packet_id (take n rest) p.input_offset) (continue (drop n rest))

-- The loop over an aggregated body: the events, and whether the loop reached the end. `none` means
-- that the fuel ran out; a round takes two bytes at least.
unfoldable pub aggregated : ℕ → Limits → Payload → Bytes → Option (List Event × Bool)
aggregated zero lim p body = none
aggregated (suc fuel) lim p [] = some ([], true)
aggregated (suc fuel) lim p (x ∷ xs) =
    aggregated_unit lim p (aggregated fuel lim p) (unit_length_of (length_extension p) (x ∷ xs))

abbrev pub after_units :
    SignallingAssembler → Option (List Event × Bool) → Option (SignallingAssembler × List Event)
after_units a none = none
after_units a (some (es, done)) =
    some (if done then record a { state = FragmentState.idle } else a, es)

unfoldable pub receive_aggregate :
    Limits → Payload → SignallingAssembler → Option (SignallingAssembler × List Event)
receive_aggregate lim p a =
    if not (fragmentation p == 0)
    then some (a, error malformed_input p.input_offset aggregated_and_fragmented ∷ [])
    else after_units a (aggregated (suc (length p.body)) lim p p.body)

-- The cases of the switch.
unfoldable pub complete_unit : Payload → SignallingAssembler → SignallingAssembler × List Event
complete_unit p a = (
  clear FragmentState.idle a,
  (if is_collecting a.state then error malformed_input p.input_offset interrupted ∷ [] else [])
      ++ unit p.packet_id p.body p.input_offset ∷ [],
)

unfoldable pub first_fragment :
    Limits → Payload → SignallingAssembler → SignallingAssembler × List Event
first_fragment lim p a =
    let (b, es, ok) = append lim p.body p.input_offset (record a {
      data_bytes = [];
      input_offset = p.input_offset;
      state = FragmentState.collecting;
    }) in
    (b, es)

unfoldable pub middle_fragment :
    Limits → Payload → SignallingAssembler → SignallingAssembler × List Event
middle_fragment lim p a =
    if is_skipping a.state
    then (a, [])
    else if not (is_collecting a.state)
    then (
      record a { state = FragmentState.skipping },
      error malformed_input p.input_offset middle_alone ∷ [],
    )
    else let (b, es, ok) = append lim p.body p.input_offset a in (b, es)

unfoldable pub last_fragment :
    Limits → Payload → SignallingAssembler → SignallingAssembler × List Event
last_fragment lim p a =
    if is_skipping a.state
    then (clear FragmentState.idle a, [])
    else if not (is_collecting a.state)
    then (a, error malformed_input p.input_offset last_alone ∷ [])
    else let (b, es, ok) = append lim p.body p.input_offset a in
      (
        clear FragmentState.idle b,
        es ++ (if ok then unit p.packet_id b.data_bytes b.input_offset ∷ [] else []),
      )

unfoldable pub receive_fragment :
    Limits → Payload → SignallingAssembler → SignallingAssembler × List Event
receive_fragment lim p a =
    if fragmentation p == 0
    then complete_unit p a
    else if fragmentation p == 1
    then first_fragment lim p a
    else if fragmentation p == 2
    then middle_fragment lim p a
    else if fragmentation p == 3
    then last_fragment lim p a
    else (a, [])

abbrev pub with_events :
    List Event
    → Option (SignallingAssembler × List Event)
    → Option (SignallingAssembler × List Event)
with_events es none = none
with_events es (some (a, fs)) = some (a, es ++ fs)

unfoldable pub receive_admitted :
    Limits → Payload → SignallingAssembler → Option (SignallingAssembler × List Event)
receive_admitted lim p a =
    if aggregation p then receive_aggregate lim p a else some (receive_fragment lim p a)

abbrev pub receive_on :
    Limits
    → Payload
    → SignallingAssembler
    → Option (SignallingAssembler × List Event)
    → Option (SignallingAssembler × List Event)
receive_on lim p a none = some (a, [])
receive_on lim p a (some (b, es)) = with_events es (receive_admitted lim p b)

-- `parse_signalling` behind the search for the assembler.
unfoldable pub receive :
    Limits → Payload → SignallingAssembler → Option (SignallingAssembler × List Event)
receive lim p a = receive_on lim p a (admit p a)

abbrev pub fresh : SignallingAssembler
fresh = record {
  state = FragmentState.initial;
  last_sequence = 0;
  input_offset = 0;
  data_bytes = [];
}

abbrev pub and_then :
    (SignallingAssembler → Option (SignallingAssembler × List Event))
    → Option (SignallingAssembler × List Event)
    → Option (SignallingAssembler × List Event)
and_then continue none = none
and_then continue (some (a, es)) = with_events es (continue a)

-- The payloads of one packet identifier, in their order.
unfoldable pub receive_all :
    Limits → List Payload → SignallingAssembler → Option (SignallingAssembler × List Event)
receive_all lim [] a = some (a, [])
receive_all lim (p ∷ ps) a = and_then (receive_all lim ps) (receive lim p a)

-- The `signalling_` map, and the count of states that all contexts share.
pub record Signalling : Type 0 where
  pub assemblers : List (ℕ × SignallingAssembler)
  pub active : ℕ

unfoldable pub find : ℕ → List (ℕ × SignallingAssembler) → Option SignallingAssembler
find k [] = none
find k ((i, a) ∷ xs) = if i == k then some a else find k xs

unfoldable pub store :
    ℕ → SignallingAssembler → List (ℕ × SignallingAssembler) → List (ℕ × SignallingAssembler)
store k a [] = (k, a) ∷ []
store k a ((i, b) ∷ xs) = if i == k then (i, a) ∷ xs else (i, b) ∷ store k a xs

-- With the states that `accept_signalling_unit` takes and gives back for the units emitted.
abbrev pub stored :
    Limits
    → List StateCall
    → ℕ
    → Signalling
    → Option (SignallingAssembler × List Event)
    → Option (Signalling × List Event)
stored lim during k s none = none
stored lim during k s (some (a, es)) =
    some
      (record s { assemblers = store k a s.assemblers; active = run_calls lim during s.active }, es)

-- A new assembler, if it may have a state.
abbrev pub if_acquired :
    Limits → List StateCall → Payload → Signalling → ℕ × Bool → Option (Signalling × List Event)
if_acquired lim during p s (active, false) =
    some (s, error resource_limit p.input_offset state_limit ∷ [])
if_acquired lim during p s (active, true) =
    stored lim during p.packet_id (record s { active = active }) (receive lim p fresh)

-- With the assembler found, or taken anew within the limit on states.
unfoldable pub dispatch :
    Limits
    → List StateCall
    → Payload
    → Signalling
    → Option SignallingAssembler
    → Option (Signalling × List Event)
dispatch lim during p s (some a) = stored lim during p.packet_id s (receive lim p a)
dispatch lim during p s none = if_acquired lim during p s (acquire_state lim s.active)

-- `parse_signalling`, on the payload's bytes. `during` are the calls for packet states that
-- `accept_signalling_unit` makes meanwhile for tracks and data assets.
unfoldable pub parse_signalling :
    Limits → List StateCall → ℕ → ℕ → Bytes → ℕ → Signalling → Option (Signalling × List Event)
parse_signalling lim during packet_id sequence (flags ∷ reserved ∷ body) offset s =
    dispatch lim during
      (record {
        packet_id = packet_id;
        sequence = sequence;
        flags = flags;
        body = body;
        input_offset = offset;
      })
      s (find packet_id s.assemblers)
parse_signalling lim during packet_id sequence short offset s =
    some (s, error malformed_input offset truncated_header ∷ [])

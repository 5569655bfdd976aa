-- ===== src/Tlv.antt =====
-- src/tlv_parser.hpp and src/tlv_parser.cpp: the incremental TLV framer. A callback is an event
-- appended to the parser's log; the borrowed views of the source are the lists of bytes they show.
pub mod Stream
pub mod Rounds
pub mod Search
pub mod Process
pub mod Direct
pub mod Push
pub mod Fill
pub mod Session
pub mod Wire
pub mod Sent
pub mod Flow
pub mod Delivery
mod Tests
use libaribtlv.Reader.{be16}
use libaribtlv.Types.{Limits, ErrorCode, malformed_input, resource_limit}
use libaribtlv.Base.{
  ℕ, zero, suc, ◌+◌, ◌-◌, ◌*◌, min, Bool, true, false, not, ◌&&◌, ◌||◌, Option, none, some, List,
  [], ◌∷◌, ◌++◌, ltb, leb, ◌==◌, if◌then◌else◌, length, take, drop, Bytes, add_u64,
}

-- The literal texts of the error callback, in the order of the source.
pub data Message : Type 0 where
  discarded_searching discarded_trailing resync_limit : Message
  incomplete_header lost_synchronization length_over_limit incomplete_payload : Message

pub data Event : Type 0 where
  packet : ℕ → Bytes → ℕ → Event
  resync : ℕ → Event
  error : ErrorCode → ℕ → Message → Event

pub record Parser : Type 0 where
  pub buffer : Bytes
  pub cursor : ℕ
  pub buffer_offset : ℕ
  pub synchronized : Bool
  pub events : List Event

unfoldable pub candidate_type : ℕ → Bool
candidate_type t = t == 0x01 || t == 0x02 || t == 0x03 || t == 0xfe || t == 0xff

abbrev pub available : Parser → ℕ
available s = length s.buffer - s.cursor

abbrev pub current_offset : Parser → ℕ
current_offset s = add_u64 s.buffer_offset s.cursor

-- The bytes from the cursor on.
abbrev pub unread : Parser → Bytes
unread s = drop s.cursor s.buffer

-- All three ways of the source leave the bytes from the cursor on.
pub compact : Parser → Parser
compact s = if s.cursor == 0 then s else record s {
  buffer = if s.cursor == length s.buffer then [] else drop s.cursor s.buffer;
  buffer_offset = add_u64 s.buffer_offset s.cursor;
  cursor = 0;
}

abbrev pub consume : ℕ → Parser → Parser
consume n s = record s { cursor = s.cursor + n }

abbrev pub emit : Event → Parser → Parser
emit e s = record s { events = s.events ++ e ∷ [] }

abbrev pub report : ErrorCode → Message → Parser → Parser
report c m s = emit (error c (current_offset s) m) s

abbrev pub append : Bytes → Parser → Parser
append d s = record s { buffer = s.buffer ++ d }

-- Four bytes are there and look like a header.
pub plausible_header : Bytes → Bool
plausible_header (b0 ∷ b1 ∷ b2 ∷ b3 ∷ rest) = b0 == 0x7f && candidate_type b1
plausible_header _ = false

-- The tests of the loop in `find_boundary` at one index, on the bytes from that index on.
pub validated : Limits → Bool → Bytes → Bool
validated lim end (b0 ∷ b1 ∷ b2 ∷ b3 ∷ rest) =
    let n = be16 b2 b3 in
    b0 == 0x7f
    && candidate_type b1
    && leb n lim.max_tlv_payload
    && leb n (length rest)
    && (end && n == length rest || plausible_header (drop n rest))
validated lim end _ = false

-- The loop: the first index at which a boundary is validated.
pub scan : Limits → Bool → Bytes → ℕ → Option ℕ
scan lim end [] index = none
scan lim end (x ∷ xs) index =
    if validated lim end (x ∷ xs) then some index else scan lim end xs (index + 1)

pub boundary_found : ℕ → Parser → Parser
boundary_found index s =
    record (if index == s.cursor
      then s
      else consume (index - s.cursor) (report malformed_input discarded_searching s)) {
        synchronized = true;
      }

pub boundary_missing : Limits → Bool → Parser → Parser
boundary_missing lim true s =
    if available s == 0
    then s
    else consume (available s) (report malformed_input discarded_trailing s)
boundary_missing lim false s =
    if ltb lim.max_resync_buffer (available s)
    then consume (available s - min 3 (available s)) (report resource_limit resync_limit s)
    else s

pub find_boundary : Limits → Bool → Parser → Bool × Parser
find_boundary lim end s = elim (scan lim end (unread s) s.cursor) [
  | some index ↦ (true, boundary_found index s)
  | none ↦ (false, boundary_missing lim end s)
]

-- `on_resync_`, and the way back to the search from the next byte.
abbrev pub lose_sync : ErrorCode → Message → Parser → Parser
lose_sync c m s =
    let t = report c m s in
    consume 1 (record (emit (resync (current_offset t)) t) { synchronized = false })

-- One round of the loop of `process` once a boundary is known, on the unread bytes; the flag says
-- whether the loop goes on.
pub synced_round : Limits → Bool → Parser → Bytes → Bool × Parser
synced_round lim end s (b0 ∷ b1 ∷ b2 ∷ b3 ∷ rest) =
    let n = be16 b2 b3 in
    if not (b0 == 0x7f)
    then (true, lose_sync malformed_input lost_synchronization s)
    else if ltb lim.max_tlv_payload n
    then (true, lose_sync resource_limit length_over_limit s)
    else if ltb (length rest) n
    then (
      false,
      compact
          (if end then consume (available s) (report malformed_input incomplete_payload s) else s),
    )
    else (true, consume (4 + n) (emit (packet b1 (take n rest) (current_offset s)) s))
synced_round lim end s _ = (
  false,
  compact (
      if end && not (available s == 0)
      then consume (available s) (report malformed_input incomplete_header s)
      else s),
)

pub round : Limits → Bool → Parser → Bool × Parser
round lim end s =
    if s.synchronized
    then synced_round lim end s (unread s)
    else let (found, t) = find_boundary lim end s in
      if found then synced_round lim end t (unread t) else (false, compact t)

-- `none` means that the fuel ran out.
pub process_on : ℕ → Limits → Bool → Parser → Option Parser
process_on zero lim end s = none
process_on (suc fuel) lim end s =
    let (again, t) = round lim end s in
    let rest = process_on fuel lim end t in if again then rest else some t

-- Every round that goes on consumes a byte.
pub process : Limits → Bool → Parser → Option Parser
process lim end s = process_on (suc (available s)) lim end s

-- How many bytes complete the packet at the front of the buffer; `none` where its header is unusable.
pub required : Limits → Bytes → Option ℕ
required lim (b0 ∷ b1 ∷ b2 ∷ b3 ∷ rest) =
    if not (b0 == 0x7f && candidate_type b1)
    then none
    else if ltb lim.max_tlv_payload (be16 b2 b3)
    then none
    else some (4 + be16 b2 b3 - (4 + length rest))
required lim short = some (4 - length short)

abbrev pub is_empty {ℓ} : {A : Type ℓ} → List A → Bool
is_empty [] = true
is_empty (x ∷ xs) = false

-- `buffer_.insert` of what is left of the input, then `process(false)`.
abbrev pub append_rest : Limits → Bytes → Parser → Option Parser
append_rest lim d s = process lim false (append d s)

-- The loop over whole packets of the caller's input. `k` is `input_cursor - direct_begin`; the
-- result has the input that is left and its position. Each round takes four bytes at least, so
-- the length of the input is fuel enough.
pub direct : ℕ → Limits → ℕ → Bytes → Parser → Parser × ℕ × Bytes
direct (suc fuel) lim k (b0 ∷ b1 ∷ b2 ∷ b3 ∷ rest) s =
    let n = be16 b2 b3 in
    let next =
      direct fuel lim (k + (4 + n)) (drop n rest)
        (emit (packet b1 (take n rest) (add_u64 s.buffer_offset k)) s) in
    if not (b0 == 0x7f && candidate_type b1) || ltb lim.max_tlv_payload n || ltb (length rest) n
    then (s, k, b0 ∷ b1 ∷ b2 ∷ b3 ∷ rest)
    else next
direct _ lim k d s = (s, k, d)

-- The end of `push`, behind the direct loop.
pub push_direct : Limits → Bytes → Parser → Option Parser
push_direct lim d s =
    let (t, k, left) = direct (length d) lim 0 d s in
    let moved = record t { buffer_offset = add_u64 t.buffer_offset k } in
    if is_empty left then some moved else append_rest lim left moved

-- What `push` does when its first loop is done and input is left.
pub push_rest : Limits → Bytes → Parser → Option Parser
push_rest lim d s =
    if is_empty d
    then some s
    else if not s.synchronized || not (is_empty s.buffer)
    then append_rest lim d s
    else push_direct lim d s

-- A round of the first loop of `push`: it returns from `push`, or goes on with the input left.
pub data Filled : Type 0 where
  stop : Option Parser → Filled
  next : Bytes → Parser → Filled

abbrev pub fill_on : Bytes → Option Parser → Filled
fill_on d none = stop none
fill_on d (some u) = next d u

-- The body behind the computation of `required`.
pub fill_with : Limits → Bytes → Parser → Option ℕ → Filled
fill_with lim d s none = stop (append_rest lim d s)
fill_with lim d s (some r) =
    let copied = min r (length d) in
    let t = append (take copied d) s in
    if ltb copied r then stop (some t) else fill_on (drop copied d) (process lim false t)

pub fill_round : Limits → Bytes → Parser → Filled
fill_round lim d s =
    if is_empty d || is_empty s.buffer || not s.synchronized
    then stop (push_rest lim d s)
    else fill_with lim d s (required lim s.buffer)

abbrev pub fill_next : (Bytes → Parser → Option Parser) → Filled → Option Parser
fill_next continue (stop r) = r
fill_next continue (next d u) = continue d u

-- The first loop of `push`, which completes the packet that crossed the last boundary, and what
-- stands behind it. `none` means that the fuel ran out.
pub fill : ℕ → Limits → Bytes → Parser → Option Parser
fill zero lim d s = none
fill (suc fuel) lim d s = fill_next (fill fuel lim) (fill_round lim d s)

-- `TlvParser::push`. A round of the first loop takes a byte of the input at least.
pub push : Limits → Bytes → Parser → Option Parser
push lim d s =
    if is_empty d
    then some s
    else if not s.synchronized
    then append_rest lim d s
    else fill (suc (length d)) lim d s

abbrev pub desynchronized : Option Parser → Option Parser
desynchronized none = none
desynchronized (some t) = some (record t { synchronized = false })

pub flush : Limits → Parser → Option Parser
flush lim s = desynchronized (process lim true s)

pub reset : ℕ → Parser → Parser
reset offset s = record s { buffer = []; cursor = 0; buffer_offset = offset; synchronized = false }

-- A parser as its constructor leaves it.
abbrev pub fresh : Parser
fresh = record { buffer = []; cursor = 0; buffer_offset = 0; synchronized = false; events = [] }

-- A caller's sequence of `push` calls.
pub push_all : Limits → List Bytes → Parser → Option Parser
push_all lim [] s = some s
push_all lim (d ∷ ds) s = elim (push lim d s) [ none ↦ none | some t ↦ push_all lim ds t ]

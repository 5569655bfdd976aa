-- ===== src/Transport/Sections.antt =====
-- src/tlv_transport_parser.cpp, process_sections: the sections of the TLV-SI stream. What the loop
-- hands on to `process_section` or to the error callback is a value.
pub mod Sound
pub mod Whole
pub mod Delivery
mod Tests
use libaribtlv.Transport.Crc.{crc32_mpeg}
use libaribtlv.Base.{
  ℕ, zero, suc, ◌+◌, ◌*◌, ◌/◌, ◌%◌, Bool, true, false, not, ◌&&◌, Option, none, some, List, [], ◌∷◌,
  ltb, leb, ◌==◌, if◌then◌else◌, length, take, drop, get_or, Bytes, ◌++◌,
}

-- The bytes that wait, and for each the offset of the packet that it came in.
pub record SectionBuffer : Type 0 where
  pub bytes : Bytes
  pub origins : List ℕ

-- The texts of the error callback, in the order of the source.
pub data Message : Type 0 where
  discarded_searching discarded_incomplete discarded_invalid invalid_section : Message

pub data Found : Type 0 where
  section : Bytes → ℕ → Found
  discarded : ℕ → Message → Found

abbrev pub length_field : Bytes → ℕ
length_field (b0 ∷ b1 ∷ b2 ∷ rest) = b1 % 16 * 256 + b2
length_field _ = 0

abbrev pub total_size : Bytes → ℕ
total_size xs = 3 + length_field xs

-- The section syntax bit, and a length within the bounds.
unfoldable pub plausible : Bytes → Bool
plausible (b0 ∷ b1 ∷ b2 ∷ rest) =
    b1 / 128 % 2 == 1 && leb 9 (b1 % 16 * 256 + b2) && leb (b1 % 16 * 256 + b2) 1021
plausible _ = false

-- The section numbers and the checksum.
unfoldable pub checked : Bytes → Bool
checked xs = leb (get_or xs 6 0) (get_or xs 7 0) && crc32_mpeg (take (total_size xs) xs) == 0

-- A whole section stands at the front.
unfoldable pub complete : Bytes → Bool
complete xs = plausible xs && leb (total_size xs) (length xs) && checked xs

-- `find_complete_boundary`, on the bytes from `index` on.
unfoldable pub find_complete_boundary : Bytes → ℕ → Option ℕ
find_complete_boundary [] index = none
find_complete_boundary (x ∷ xs) index =
    if complete (x ∷ xs) then some index else find_complete_boundary xs (index + 1)

-- What a round of the loop does: stop, discard that many bytes, or take that many as a section.
pub data Verdict : Type 0 where
  wait : Verdict
  discard : ℕ → Message → Verdict
  accept : ℕ → Verdict

abbrev pub value_or : Option ℕ → ℕ → ℕ
value_or none d = d
value_or (some n) d = n

abbrev pub discard_or : Option ℕ → Message → Verdict → Verdict
discard_or none m otherwise = otherwise
discard_or (some n) m otherwise = discard n m

unfoldable pub judge : Bytes → Verdict
judge (b0 ∷ b1 ∷ b2 ∷ rest) =
    let xs = b0 ∷ b1 ∷ b2 ∷ rest in
    let boundary = find_complete_boundary (b1 ∷ b2 ∷ rest) 1 in
    if not (plausible xs)
    then discard (value_or boundary 1) discarded_searching
    else if ltb (length xs) (total_size xs)
    then discard_or boundary discarded_incomplete wait
    else if not (checked xs)
    then discard_or boundary discarded_invalid (discard (total_size xs) invalid_section)
    else accept (total_size xs)
judge short = wait

abbrev pub front : List ℕ → ℕ
front origins = get_or origins 0 0

abbrev pub drop_both : ℕ → SectionBuffer → SectionBuffer
drop_both n b = record { bytes = drop n b.bytes; origins = drop n b.origins }

abbrev pub found_first :
    Found → Option (SectionBuffer × List Found) → Option (SectionBuffer × List Found)
found_first e none = none
found_first e (some (b, es)) = some (b, e ∷ es)

-- A round with its verdict; `continue` is the rest of the loop.
unfoldable pub carry_out :
    (SectionBuffer → Option (SectionBuffer × List Found))
    → SectionBuffer
    → Verdict
    → Option (SectionBuffer × List Found)
carry_out continue b wait = some (b, [])
carry_out continue b (discard n m) =
    found_first (discarded (front b.origins) m) (continue (drop_both n b))
carry_out continue b (accept n) =
    found_first (section (take n b.bytes) (front b.origins)) (continue (drop_both n b))

-- `none` means that the fuel ran out; a round that goes on takes a byte at least.
unfoldable pub process_on : ℕ → SectionBuffer → Option (SectionBuffer × List Found)
process_on zero b = none
process_on (suc fuel) b = carry_out (process_on fuel) b (judge b.bytes)

unfoldable pub process_sections : SectionBuffer → Option (SectionBuffer × List Found)
process_sections b = process_on (suc (length b.bytes)) b

unfoldable pub repeat : ℕ → ℕ → List ℕ
repeat zero x = []
repeat (suc n) x = x ∷ repeat n x

abbrev pub received : Bytes → ℕ → SectionBuffer → SectionBuffer
received payload input_offset b = record {
  bytes = b.bytes ++ payload;
  origins = b.origins ++ repeat (length payload) input_offset;
}

abbrev pub found_before :
    List Found → Option (SectionBuffer × List Found) → Option (SectionBuffer × List Found)
found_before es none = none
found_before es (some (b, more)) = some (b, es ++ more)

abbrev pub receive_next :
    (SectionBuffer → Option (SectionBuffer × List Found))
    → Option (SectionBuffer × List Found)
    → Option (SectionBuffer × List Found)
receive_next f none = none
receive_next f (some (b, es)) = found_before es (f b)

-- Packet after packet, as consume_tlv_si takes them.
unfoldable pub receive_all : List (Bytes × ℕ) → SectionBuffer → Option (SectionBuffer × List Found)
receive_all [] b = some (b, [])
receive_all ((payload, input_offset) ∷ ps) b =
    receive_next (receive_all ps) (process_sections (received payload input_offset b))

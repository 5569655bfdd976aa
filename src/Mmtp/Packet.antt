-- ===== src/Mmtp/Packet.antt =====
-- src/mmtp_parser.cpp, parse_packet_extensions and push: the header of an MMTP packet. What `push`
-- hands on to `parse_signalling`, to `parse_mpu` or to the error callback is a value.
pub mod Ends
pub mod Slices
pub mod Extensions
pub mod RoundTrip
mod Tests
use libaribtlv.Reader.{be16, be32}
use libaribtlv.Types.{ErrorCode, malformed_input, unsupported_feature}
use libaribtlv.Base.{
  ℕ, zero, suc, ◌+◌, ◌*◌, ◌/◌, ◌%◌, Bool, true, false, not, ◌&&◌, ◌||◌, Option, none, some, List,
  [], ◌∷◌, ltb, ◌==◌, if◌then◌else◌, length, take, drop, Bytes,
}

pub record PacketExtensions : Type 0 where
  pub authenticated_payload_size : Option ℕ
  pub download_id : Option ℕ
  pub item_fragment_number : Option ℕ
  pub last_item_fragment_number : Option ℕ

abbrev pub no_extensions : PacketExtensions
no_extensions = record {
  authenticated_payload_size = none;
  download_id = none;
  item_fragment_number = none;
  last_item_fragment_number = none;
}

-- The texts of the error callback, in the order of the source.
pub data Message : Type 0 where
  short_header bad_version truncated_counter truncated_extension extension_length : Message
  malformed_extension authenticated_length payload_type_unknown : Message

pub data Handed : Type 0 where
  signalling : ℕ → ℕ → Bytes → ℕ → Handed
  mpu : ℕ → ℕ → ℕ → Bool → Bytes → ℕ → PacketExtensions → Handed
  error : ErrorCode → ℕ → Message → Handed

-- The field behind the flags and the identifier of the scramble system.
unfoldable pub read_authenticated : Bytes → PacketExtensions → Option PacketExtensions
read_authenticated (a ∷ b ∷ rest) r =
    some (record r { authenticated_payload_size = some (be16 a b) })
read_authenticated short r = none

-- Behind the flags: whether each field is present.
unfoldable pub read_scramble : Bool → Bool → Bytes → PacketExtensions → Option PacketExtensions
read_scramble true authentication [] r = none
read_scramble true authentication (s ∷ rest) r =
    if authentication then read_authenticated rest r else some r
read_scramble false authentication rest r =
    if authentication then read_authenticated rest r else some r

abbrev pub read_protection : Bytes → PacketExtensions → Option PacketExtensions
read_protection [] r = none
read_protection (flags ∷ rest) r = read_scramble (flags / 4 % 2 == 1) (flags / 2 % 2 == 1) rest r

abbrev pub read_download : Bytes → PacketExtensions → PacketExtensions
read_download (a ∷ b ∷ c ∷ d ∷ []) r = record r { download_id = some (be32 a b c d) }
read_download other r = r

abbrev pub read_item : Bytes → PacketExtensions → PacketExtensions
read_item (a ∷ b ∷ c ∷ d ∷ e ∷ f ∷ g ∷ h ∷ []) r = record r {
  item_fragment_number = some (be32 a b c d);
  last_item_fragment_number = some (be32 e f g h);
}
read_item other r = r

-- One entry, with its type and its bytes.
unfoldable pub read_entry : ℕ → Bytes → PacketExtensions → Option PacketExtensions
read_entry kind body r =
    if kind == 1
    then read_protection body r
    else if kind == 2
    then some (read_download body r)
    else if kind == 3
    then some (read_item body r)
    else some r

abbrev pub is_nil {ℓ} : {A : Type ℓ} → List A → Bool
is_nil [] = true
is_nil (x ∷ xs) = false

-- Behind an entry; the outer `none` is that the fuel ran out, the inner one the result false.
abbrev pub entry_done :
    Bool
    → Bytes
    → (PacketExtensions → Option (Option PacketExtensions))
    → Option PacketExtensions
    → Option (Option PacketExtensions)
entry_done end rest continue none = some none
entry_done true rest continue (some r) = some (if is_nil rest then some r else none)
entry_done false rest continue (some r) = continue r

-- The loop of `parse_packet_extensions`; a round takes four bytes at least.
unfoldable pub read_entries : ℕ → Bytes → PacketExtensions → Option (Option PacketExtensions)
read_entries zero bytes r = none
read_entries (suc fuel) [] r = some (some r)
read_entries (suc fuel) (b0 ∷ b1 ∷ b2 ∷ b3 ∷ rest) r =
    let size = be16 b2 b3 in
    let done =
      entry_done (be16 b0 b1 / 32768 % 2 == 1) (drop size rest) (read_entries fuel (drop size rest))
        (read_entry (be16 b0 b1 % 32768) (take size rest) r) in
    if ltb (length rest) size then some none else done
read_entries (suc fuel) short r = some none

unfoldable pub parse_packet_extensions : ℕ → Bytes → Option (Option PacketExtensions)
parse_packet_extensions kind bytes =
    if not (kind == 0)
    then some (some no_extensions)
    else read_entries (suc (length bytes)) bytes no_extensions

-- The packet counter, if there is one.
unfoldable pub skip_counter : Bool → Bytes → Option Bytes
skip_counter false bytes = some bytes
skip_counter true (a ∷ b ∷ c ∷ d ∷ rest) = some rest
skip_counter true short = none

-- The extension header, and the bytes behind it.
pub data Extended : Type 0 where
  failed : Message → Extended
  extended : PacketExtensions → Bytes → Extended

abbrev pub extended_by : Bytes → Option (Option PacketExtensions) → Option Extended
extended_by rest none = none
extended_by rest (some none) = some (failed malformed_extension)
extended_by rest (some (some r)) = some (extended r rest)

unfoldable pub read_extension_header : Bool → Bytes → Option Extended
read_extension_header false bytes = some (extended no_extensions bytes)
read_extension_header true (b0 ∷ b1 ∷ b2 ∷ b3 ∷ rest) =
    if ltb (length rest) (be16 b2 b3)
    then some (failed extension_length)
    else extended_by (drop (be16 b2 b3) rest)
        (parse_packet_extensions (be16 b0 b1) (take (be16 b2 b3) rest))
read_extension_header true short = some (failed truncated_extension)

-- The payload, cut to the authenticated size if there is one.
unfoldable pub authenticated : Option ℕ → Bytes → Option Bytes
authenticated none payload = some payload
authenticated (some n) payload = if ltb (length payload) n then none else some (take n payload)

-- The members of the fixed header.
pub record Fixed : Type 0 where
  pub random_access : Bool
  pub payload_type : ℕ
  pub packet_id : ℕ
  pub delivery_timestamp : ℕ
  pub sequence : ℕ

unfoldable pub hand_on : Fixed → ℕ → PacketExtensions → Option Bytes → Handed
hand_on f offset r none = error malformed_input offset authenticated_length
hand_on f offset r (some payload) =
    if f.payload_type == 2
    then signalling f.packet_id f.sequence payload offset
    else if f.payload_type == 0
    then mpu f.packet_id f.sequence f.delivery_timestamp f.random_access payload offset r
    else error unsupported_feature offset payload_type_unknown

unfoldable pub after_extensions : Fixed → ℕ → Option Extended → Option Handed
after_extensions f offset none = none
after_extensions f offset (some (failed m)) = some (error malformed_input offset m)
after_extensions f offset (some (extended r payload)) =
    some (hand_on f offset r (authenticated r.authenticated_payload_size payload))

unfoldable pub after_counter : Fixed → ℕ → Bool → Option Bytes → Option Handed
after_counter f offset extension none = some (error malformed_input offset truncated_counter)
after_counter f offset extension (some rest) =
    after_extensions f offset (read_extension_header extension rest)

-- `MmtpParser::push`; `none` means that the fuel ran out.
unfoldable pub push : Bytes → ℕ → Option Handed
push (b0 ∷ b1 ∷ b2 ∷ b3 ∷ b4 ∷ b5 ∷ b6 ∷ b7 ∷ b8 ∷ b9 ∷ b10 ∷ b11 ∷ rest) offset =
    if not (b0 / 64 == 0)
    then some (error unsupported_feature offset bad_version)
    else after_counter
        (record {
          random_access = b0 % 2 == 1;
          payload_type = b1 % 64;
          packet_id = be16 b2 b3;
          delivery_timestamp = be32 b4 b5 b6 b7;
          sequence = be32 b8 b9 b10 b11;
        })
        offset (b0 / 2 % 2 == 1) (skip_counter (b0 / 32 % 2 == 1) rest)
push short offset = some (error malformed_input offset short_header)

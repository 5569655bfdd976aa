-- ===== src/Mmtp/Data.antt =====
-- src/mmtp_media_parser.cpp, emit_data_unit and consume_data_piece: the reassembly of the items of a
-- data asset. A data unit has every member but the parser's own context identifier.
pub mod Bounds
pub mod Items
mod Tests
use libaribtlv.Reader.{be32}
use libaribtlv.Types.{Limits, ErrorCode, malformed_input, discontinuity, resource_limit}
use libaribtlv.Base.{
  ℕ, ◌+◌, ◌-◌, Bool, true, false, not, ◌&&◌, ◌||◌, Option, none, some, List, [], ◌∷◌, ◌++◌, ltb,
  ◌==◌, if◌then◌else◌, length, Bytes, add_u32,
}
use libaribtlv.Mmtp.Packet.{PacketExtensions}
use libaribtlv.Mmtp.Signalling.{FragmentState, is_initial, is_collecting, is_skipping, is_nil}

-- The members of `MediaAssembler` that data assets use.
pub record MediaAssembler : Type 0 where
  pub state : FragmentState
  pub last_packet_sequence : ℕ
  pub mpu_sequence : ℕ
  pub sample_number : ℕ
  pub input_offset : ℕ
  pub download_id : Option ℕ
  pub item_fragment_number : Option ℕ
  pub last_item_fragment_number : Option ℕ
  pub collected : Bytes

-- The members of `DataAssetInfo` that a data unit repeats.
pub record DataAssetInfo : Type 0 where
  pub packet_id : ℕ
  pub asset_id : Bytes
  pub asset_type : Bytes
  pub component_tag : ℕ

pub record DataAssetState : Type 0 where
  pub info : DataAssetInfo
  pub media : MediaAssembler
  pub damaged : Bool

pub record DataUnit : Type 0 where
  pub source : DataAssetInfo
  pub mpu_sequence_number : ℕ
  pub item_id : ℕ
  pub download_id : Option ℕ
  pub item_fragment_number : Option ℕ
  pub last_item_fragment_number : Option ℕ
  pub content : Bytes
  pub input_offset : ℕ
  pub after_damage : Bool

-- The texts of the error callback, in the order of the source.
pub data Message : Type 0 where
  truncated_header sequence_jump over_limit : Message

pub data Event : Type 0 where
  data_unit : DataUnit → Event
  error : ErrorCode → ℕ → Message → Event

-- The arguments of `consume_data_piece` behind the size test, with the item identifier read.
pub record Piece : Type 0 where
  pub packet_sequence : ℕ
  pub mpu_sequence : ℕ
  pub fragmentation : ℕ
  pub aggregation : Bool
  pub item_id : ℕ
  pub payload : Bytes
  pub input_offset : ℕ
  pub extensions : PacketExtensions

abbrev pub Outcome : Type 0
Outcome = DataAssetState × List Event

-- A new assembler, and the discontinuity noted.
abbrev pub damage : DataAssetState → MediaAssembler → DataAssetState
damage asset m = record asset { media = m; damaged = true }

-- `emit_data_unit`.
unfoldable pub emit_data_unit :
    DataAssetState → ℕ → ℕ → Bytes → ℕ → Option ℕ → Option ℕ → Option ℕ → Outcome
emit_data_unit asset mpu_sequence item_id bytes offset download fragment last_fragment = (
  record asset { damaged = false },
  data_unit (record {
    source = asset.info;
    mpu_sequence_number = mpu_sequence;
    item_id = item_id;
    download_id = download;
    item_fragment_number = fragment;
    last_item_fragment_number = last_fragment;
    content = bytes;
    input_offset = offset;
    after_damage = asset.damaged;
  })
      ∷ [],
)

-- `append_data`, with what it returns; the first test keeps the subtraction from wrapping.
unfoldable pub append_data : Limits → Piece → DataAssetState → DataAssetState × List Event × Bool
append_data lim p asset =
    let n = length asset.media.collected in
    if ltb lim.max_access_unit n || ltb (lim.max_access_unit - n) (length p.payload)
    then (
      damage asset (record asset.media { collected = []; state = FragmentState.skipping }),
      error resource_limit p.input_offset over_limit ∷ [],
      false,
    )
    else (
      record asset {
        media = record asset.media { collected = asset.media.collected ++ p.payload };
      },
      [],
      true,
    )

-- The tests of the packet's sequence number; `none` is a duplicate.
unfoldable pub admit_piece : Piece → DataAssetState → Option Outcome
admit_piece p asset =
    let m = asset.media in
    let moved = record asset { media = record m { last_packet_sequence = p.packet_sequence } } in
    let same = p.packet_sequence == m.last_packet_sequence in
    if is_initial m.state
      || p.packet_sequence == add_u32 m.last_packet_sequence 1
      || p.aggregation && p.fragmentation == 0 && same
    then some (moved, [])
    else if same
    then none
    else some (
      damage asset (record m {
        collected = [];
        state = FragmentState.skipping;
        last_packet_sequence = p.packet_sequence;
      }),
      if is_nil m.collected then [] else error discontinuity p.input_offset sequence_jump ∷ [],
    )

-- Whether a fragment continues the item that is collected.
unfoldable pub continues : Piece → MediaAssembler → Bool
continues p m =
    is_collecting m.state && m.mpu_sequence == p.mpu_sequence && m.sample_number == p.item_id

unfoldable pub whole_item : Piece → DataAssetState → Outcome
whole_item p asset =
    let m = asset.media in
    let cleared =
      if is_collecting m.state then damage asset (record m { collected = [] }) else asset in
    emit_data_unit (record cleared { media = record cleared.media { state = FragmentState.idle } })
      p.mpu_sequence p.item_id p.payload p.input_offset p.extensions.download_id
      p.extensions.item_fragment_number p.extensions.last_item_fragment_number

unfoldable pub first_of_item : Limits → Piece → DataAssetState → Outcome
first_of_item lim p asset =
    let (after, es, ok) = append_data lim p (record asset {
      media = record asset.media {
        collected = [];
        state = FragmentState.collecting;
        mpu_sequence = p.mpu_sequence;
        sample_number = p.item_id;
        input_offset = p.input_offset;
        download_id = p.extensions.download_id;
        item_fragment_number = p.extensions.item_fragment_number;
        last_item_fragment_number = p.extensions.last_item_fragment_number;
      };
    }) in
    (after, es)

unfoldable pub middle_of_item : Limits → Piece → DataAssetState → Outcome
middle_of_item lim p asset =
    if is_skipping asset.media.state
    then (asset, [])
    else if not (continues p asset.media)
    then (damage asset (record asset.media { collected = []; state = FragmentState.skipping }), [])
    else let (after, es, ok) = append_data lim p asset in (after, es)

abbrev pub close_item : Outcome → Outcome
close_item (asset, es) =
    (record asset { media = record asset.media { collected = []; state = FragmentState.idle } }, es)

-- The unit of a whole item, if the last fragment had room.
unfoldable pub emit_collected : DataAssetState × List Event × Bool → Outcome
emit_collected (asset, es, false) = (asset, es)
emit_collected (asset, es, true) =
    let m = asset.media in
    emit_data_unit asset m.mpu_sequence m.sample_number m.collected m.input_offset m.download_id
      m.item_fragment_number m.last_item_fragment_number

unfoldable pub last_of_item : Limits → Piece → DataAssetState → Outcome
last_of_item lim p asset =
    if is_skipping asset.media.state
    then close_item (asset, [])
    else if not (continues p asset.media)
    then close_item (damage asset asset.media, [])
    else close_item (emit_collected (append_data lim p asset))

-- The switch.
unfoldable pub consume_admitted : Limits → Piece → DataAssetState → Outcome
consume_admitted lim p asset =
    if p.fragmentation == 0
    then whole_item p asset
    else if p.fragmentation == 1
    then first_of_item lim p asset
    else if p.fragmentation == 2
    then middle_of_item lim p asset
    else if p.fragmentation == 3
    then last_of_item lim p asset
    else (asset, [])

abbrev pub prefixed : List Event → Outcome → Outcome
prefixed es (asset, fs) = (asset, es ++ fs)

unfoldable pub consume_on : Limits → Piece → DataAssetState → Option Outcome → Outcome
consume_on lim p asset none = (asset, [])
consume_on lim p asset (some (admitted, es)) = prefixed es (consume_admitted lim p admitted)

unfoldable pub consume_piece : Limits → Piece → DataAssetState → Outcome
consume_piece lim p asset = consume_on lim p asset (admit_piece p asset)

abbrev pub and_then : (DataAssetState → Outcome) → Outcome → Outcome
and_then continue (asset, es) = prefixed es (continue asset)

-- A sequence of pieces.
unfoldable pub consume_all : Limits → List Piece → DataAssetState → Outcome
consume_all lim [] asset = (asset, [])
consume_all lim (p ∷ ps) asset = and_then (consume_all lim ps) (consume_piece lim p asset)

-- `consume_data_piece`, on the bytes of the unit.
unfoldable pub consume_data_piece :
    Limits → DataAssetState → ℕ → ℕ → ℕ → Bool → Bytes → ℕ → PacketExtensions → Outcome
consume_data_piece lim asset packet_sequence mpu_sequence fragmentation aggregation
      (a ∷ b ∷ c ∷ d ∷ payload) offset extensions =
    consume_piece lim
      (record {
        packet_sequence = packet_sequence;
        mpu_sequence = mpu_sequence;
        fragmentation = fragmentation;
        aggregation = aggregation;
        item_id = be32 a b c d;
        payload = payload;
        input_offset = offset;
        extensions = extensions;
      })
      asset
consume_data_piece lim asset packet_sequence mpu_sequence fragmentation aggregation short offset
      extensions =
    (record asset { damaged = true }, error malformed_input offset truncated_header ∷ [])

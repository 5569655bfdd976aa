-- ===== src/Mmtp/Data/Tests.antt =====
-- Data items at concrete packets.
use libaribtlv.Base.{ℕ, ◌≡◌, ◌≤◌, false, length, none, some, List, [], ◌∷◌, arith}
use libaribtlv.Types.{Limits, default_limits}
use libaribtlv.Mmtp.Packet.{no_extensions}
use libaribtlv.Mmtp.Signalling.{FragmentState}
use libaribtlv.Mmtp.Data.Items.{Item, pieces, units, ready, consume_all-units}
use libaribtlv.Mmtp.Data.Bounds.{consume_all-Bounded}
use libaribtlv.Mmtp.Data.{MediaAssembler, DataAssetInfo, DataAssetState, Piece, consume_all}

abbrev limits : Limits
limits = record default_limits { max_access_unit = 8 }

abbrev idle_media : MediaAssembler
idle_media = record {
  state = FragmentState.idle;
  last_packet_sequence = 4294967294;
  mpu_sequence = 1;
  sample_number = 2;
  input_offset = 3;
  download_id = none;
  item_fragment_number = none;
  last_item_fragment_number = none;
  collected = [];
}

abbrev about : DataAssetInfo
about = record { packet_id = 300; asset_id = 1 ∷ []; asset_type = 97 ∷ []; component_tag = 48 }

abbrev items : List Item
items =
    record {
      mpu = 5;
      id = 9;
      extensions = record no_extensions { download_id = some 77 };
      front = 1 ∷ 2 ∷ [];
      offset = 100;
      rest = some (
        record { bytes = 3 ∷ []; at = 150; carried = no_extensions } ∷ [],
        record {
          bytes = 4 ∷ [];
          at = 200;
          carried = record no_extensions { download_id = some 78 };
        },
      );
    }
    ∷ record {
      mpu = 5;
      id = 10;
      extensions = no_extensions;
      front = 6 ∷ [];
      offset = 250;
      rest = none;
    }
    ∷ []

consume_all-units_example :
    (t : ℕ) × (n : MediaAssembler) × (consume_all limits
        (pieces items 4294967294)
        (ready about 4294967294 idle_media)
      ≡ (ready about t n, units about items))
consume_all-units_example =
    consume_all-units limits about 4294967294 idle_media items (omega arith, (omega arith, tt))

-- A middle piece of the item that is collected.
abbrev collecting : DataAssetState
collecting = record {
  info = about;
  media = record idle_media {
    state = FragmentState.collecting;
    last_packet_sequence = 7;
    collected = 1 ∷ 2 ∷ [];
  };
  damaged = false;
}

abbrev middle : Piece
middle = record {
  packet_sequence = 8;
  mpu_sequence = 1;
  fragmentation = 2;
  aggregation = false;
  item_id = 2;
  payload = 3 ∷ 4 ∷ [];
  input_offset = 500;
  extensions = no_extensions;
}

consume_all-Bounded_example :
    length (consume_all limits (middle ∷ []) collecting).0.media.collected ≤ 8
consume_all-Bounded_example = consume_all-Bounded limits (middle ∷ []) collecting (omega arith)

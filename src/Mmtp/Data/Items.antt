-- ===== src/Mmtp/Data/Items.antt =====
-- Items that are sent whole or cut into fragments come out of the reassembly.
use libaribtlv.Types.{Limits}
use libaribtlv.Base.{
  ℕ, ◌+◌, ◌-◌, ◌≤◌, ◌≡◌, refl, sym, ap, ◌∙◌, true, false, Option, none, some, List, [], ◌∷◌, ◌++◌,
  append_assoc, append-nil, ltb, ◌==◌, length, length-append, Bytes, add_u32, arith, All,
}
use libaribtlv.Mmtp.Packet.{PacketExtensions}
use libaribtlv.Mmtp.Signalling.{FragmentState}
use libaribtlv.Mmtp.Data.{
  MediaAssembler, DataAssetInfo, DataAssetState, Event, data_unit, Piece, emit_data_unit,
  append_data, admit_piece, continues, whole_item, first_of_item, middle_of_item, emit_collected,
  last_of_item, consume_admitted, prefixed, consume_on, consume_piece, and_then, consume_all,
}

-- A later packet of an item: its bytes, its input offset, and its extensions.
pub record Fragment : Type 0 where
  pub bytes : Bytes
  pub at : ℕ
  pub carried : PacketExtensions

-- An item of an MPU, as a sender cuts it, with the extensions of its first packet.
pub record Item : Type 0 where
  pub mpu : ℕ
  pub id : ℕ
  pub extensions : PacketExtensions
  pub front : Bytes
  pub offset : ℕ
  pub rest : Option (List Fragment × Fragment)

abbrev pub joined : List Fragment → Fragment → Bytes
joined [] last = last.bytes
joined (b ∷ more) last = b.bytes ++ joined more last

abbrev pub rest_of : Option (List Fragment × Fragment) → Bytes
rest_of none = []
rest_of (some (middles, last)) = joined middles last

abbrev pub unit_of : DataAssetInfo → Item → Bytes → Event
unit_of i x bytes = data_unit (record {
  source = i;
  mpu_sequence_number = x.mpu;
  item_id = x.id;
  download_id = x.extensions.download_id;
  item_fragment_number = x.extensions.item_fragment_number;
  last_item_fragment_number = x.extensions.last_item_fragment_number;
  content = bytes;
  input_offset = x.offset;
  after_damage = false;
})

-- A piece of an item, in the packet behind the one numbered `s`.
abbrev pub piece : ℕ → Item → ℕ → Fragment → Piece
piece s x kind b = record {
  packet_sequence = add_u32 s 1;
  mpu_sequence = x.mpu;
  fragmentation = kind;
  aggregation = false;
  item_id = x.id;
  payload = b.bytes;
  input_offset = b.at;
  extensions = b.carried;
}

abbrev pub first_piece : Item → Fragment
first_piece x = record { bytes = x.front; at = x.offset; carried = x.extensions }

-- The pieces behind the first, and then those that `later` numbers.
abbrev pub tail_pieces : ℕ → Item → List Fragment → Fragment → (ℕ → List Piece) → List Piece
tail_pieces s x [] last later = piece s x 3 last ∷ later (add_u32 s 1)
tail_pieces s x (b ∷ more) last later = piece s x 2 b ∷ tail_pieces (add_u32 s 1) x more last later

abbrev pub item_pieces :
    ℕ → Item → Option (List Fragment × Fragment) → (ℕ → List Piece) → List Piece
item_pieces s x none later = piece s x 0 (first_piece x) ∷ later (add_u32 s 1)
item_pieces s x (some (middles, last)) later =
    piece s x 1 (first_piece x) ∷ tail_pieces (add_u32 s 1) x middles last later

abbrev pub pieces : List Item → ℕ → List Piece
pieces [] s = []
pieces (x ∷ xs) s = item_pieces s x x.rest (pieces xs)

abbrev pub units : DataAssetInfo → List Item → List Event
units i [] = []
units i (x ∷ xs) = unit_of i x (x.front ++ rest_of x.rest) ∷ units i xs

-- Between items, and inside one; `m` has the members that stay as they are.
abbrev pub ready : DataAssetInfo → ℕ → MediaAssembler → DataAssetState
ready i s m = record {
  info = i;
  media = record m { state = FragmentState.idle; last_packet_sequence = s; collected = [] };
  damaged = false;
}

abbrev pub gathering : DataAssetInfo → ℕ → Item → Bytes → DataAssetState
gathering i s x bytes = record {
  info = i;
  media = record {
    state = FragmentState.collecting;
    last_packet_sequence = s;
    mpu_sequence = x.mpu;
    sample_number = x.id;
    input_offset = x.offset;
    download_id = x.extensions.download_id;
    item_fragment_number = x.extensions.item_fragment_number;
    last_item_fragment_number = x.extensions.last_item_fragment_number;
    collected = bytes;
  };
  damaged = false;
}

same_number : (n : ℕ) → (n == n) ≡ true
same_number n = ground arith

module _ (lim : Limits) (i : DataAssetInfo) where
  room_front :
      (d b : Bytes)
      → length d + length b ≤ lim.max_access_unit
      → ltb lim.max_access_unit (length d) ≡ false
  room_front d b h = ground arith

  room :
      (d b : Bytes)
      → length d + length b ≤ lim.max_access_unit
      → ltb (lim.max_access_unit - length d) (length b) ≡ false
  room d b h = ground arith

  consume_whole :
      (s : ℕ) (m : MediaAssembler) (x : Item)
      → consume_piece lim (piece s x 0 (first_piece x)) (ready i s m)
        ≡ (ready i (add_u32 s 1) m, unit_of i x x.front ∷ [])
  unfolding consume_piece consume_on admit_piece consume_admitted whole_item emit_data_unit
  consume_whole s m x = rw (same_number (add_u32 s 1)) refl

  consume_first :
      (s : ℕ) (m : MediaAssembler) (x : Item)
      → length x.front ≤ lim.max_access_unit
      → consume_piece lim (piece s x 1 (first_piece x)) (ready i s m)
        ≡ (gathering i (add_u32 s 1) x x.front, [])
  unfolding consume_piece consume_on admit_piece consume_admitted first_of_item append_data
  consume_first s m x h =
      rw
        (
          same_number (add_u32 s 1),
          room_front [] x.front (omega arith),
          room [] x.front (omega arith),
        )
        refl

  consume_middle :
      (s : ℕ) (x : Item) (d : Bytes) (b : Fragment)
      → length d + length b.bytes ≤ lim.max_access_unit
      → consume_piece lim (piece s x 2 b) (gathering i s x d)
        ≡ (gathering i (add_u32 s 1) x (d ++ b.bytes), [])
  unfolding consume_piece consume_on admit_piece consume_admitted middle_of_item continues
      append_data
  consume_middle s x d b h =
      rw
        (
          same_number (add_u32 s 1),
          same_number x.mpu,
          same_number x.id,
          room_front d b.bytes h,
          room d b.bytes h,
        )
        refl

  consume_last :
      (s : ℕ) (x : Item) (d : Bytes) (b : Fragment)
      → length d + length b.bytes ≤ lim.max_access_unit
      → consume_piece lim (piece s x 3 b) (gathering i s x d)
        ≡ (ready i (add_u32 s 1) (gathering i s x d).media, unit_of i x (d ++ b.bytes) ∷ [])
  unfolding consume_piece consume_on admit_piece consume_admitted last_of_item emit_collected
      emit_data_unit continues append_data
  consume_last s x d b h =
      rw
        (
          same_number (add_u32 s 1),
          same_number x.mpu,
          same_number x.id,
          room_front d b.bytes h,
          room d b.bytes h,
        )
        refl

  -- The pieces behind the first one.
  consume_tail :
      (s : ℕ) (x : Item) (d : Bytes) (middles : List Fragment) (last : Fragment)
      (later : ℕ → List Piece)
      → length (d ++ joined middles last) ≤ lim.max_access_unit
      → (t : ℕ) × (m : MediaAssembler) × (consume_all lim
            (tail_pieces s x middles last later)
            (gathering i s x d)
          ≡ prefixed
              (unit_of i x (d ++ joined middles last) ∷ [])
              (consume_all lim (later t) (ready i t m)))
  unfolding consume_all
  consume_tail s x d [] last later h = (
    add_u32 s 1,
    (gathering i s x d).media,
    ap (and_then (consume_all lim (later (add_u32 s 1))))
        (consume_last s x d last (omega (arith, length-append d last.bytes))),
  )
  consume_tail s x d (b ∷ more) last later h =
      let joins : (d ++ b.bytes) ++ joined more last ≡ d ++ (b.bytes ++ joined more last) =
        append_assoc d b.bytes (joined more last) in
      let (t, m, e) =
        consume_tail (add_u32 s 1) x (d ++ b.bytes) more last later
          (omega (arith, ap length joins)) in
      (
        t,
        m,
        ap (and_then (consume_all lim (tail_pieces (add_u32 s 1) x more last later))) (
              consume_middle s x d b (
                omega (
                  arith,
                  length-append d (b.bytes ++ joined more last),
                  length-append b.bytes (joined more last),
                )))
            ∙ e
            ∙ ap (λ l. prefixed (unit_of i x l ∷ []) (consume_all lim (later t) (ready i t m)))
                joins,
      )

  -- An item within the limit on access units.
  abbrev pub Fits : Item → Type 0
  Fits x = length (x.front ++ rest_of x.rest) ≤ lim.max_access_unit

  consume_item :
      (s : ℕ) (m : MediaAssembler) (x : Item) (rest : Option (List Fragment × Fragment))
      (later : ℕ → List Piece)
      → length (x.front ++ rest_of rest) ≤ lim.max_access_unit
      → (t : ℕ) × (n : MediaAssembler) × (consume_all lim (item_pieces s x rest later) (ready i s m)
          ≡ prefixed
              (unit_of i x (x.front ++ rest_of rest) ∷ [])
              (consume_all lim (later t) (ready i t n)))
  unfolding consume_all
  consume_item s m x none later h = (
    add_u32 s 1,
    m,
    ap (and_then (consume_all lim (later (add_u32 s 1)))) (consume_whole s m x)
        ∙ ap
            (λ l.
              prefixed (unit_of i x l ∷ [])
                (consume_all lim (later (add_u32 s 1)) (ready i (add_u32 s 1) m)))
            (sym (append-nil x.front)),
  )
  consume_item s m x (some (middles, last)) later h =
      let (t, n, e) = consume_tail (add_u32 s 1) x x.front middles last later h in
      (
        t,
        n,
        ap (and_then (consume_all lim (tail_pieces (add_u32 s 1) x middles last later)))
              (consume_first s m x (omega (arith, length-append x.front (joined middles last))))
            ∙ e,
      )

  -- A data asset between two items that receives items within the limit, each sent whole or cut into
  -- fragments in any way, in packets whose sequence numbers follow one another and may wrap around,
  -- emits exactly one data unit for each item, in order, with its bytes, its MPU and item number, the
  -- extensions and the input offset of its first packet, whatever extensions its other packets carry,
  -- and reports no error and no damage.
  pub consume_all-units :
      (s : ℕ) (m : MediaAssembler) (xs : List Item)
      → All Fits xs
      → (t : ℕ) × (n : MediaAssembler) × (consume_all lim (pieces xs s) (ready i s m)
          ≡ (ready i t n, units i xs))
  unfolding consume_all
  consume_all-units s m [] h = (s, m, refl)
  consume_all-units s m (x ∷ xs) h =
      let (u, k, e) = consume_item s m x x.rest (pieces xs) h.0 in
      let (t, n, f) = consume_all-units u k xs h.1 in
      (t, n, e ∙ ap (prefixed (unit_of i x (x.front ++ rest_of x.rest) ∷ [])) f)

-- ===== src/Mmtp/Data/Bounds.antt =====
-- What a data asset buffers stays within the limit on access units.
use libaribtlv.Types.{Limits}
use libaribtlv.Base.{
  ◌-◌, ◌≤◌, not, ◌&&◌, ◌||◌, Bool-cases, if_both, inl, inr, Option, none, some, List, [], ◌∷◌, ltb,
  ◌==◌, length, length-append, add_u32, arith,
}
use libaribtlv.Mmtp.Signalling.{is_initial, is_collecting, is_skipping}
use libaribtlv.Mmtp.Data.{
  DataAssetState, Piece, Outcome, damage, emit_data_unit, append_data, admit_piece, continues,
  whole_item, first_of_item, middle_of_item, last_of_item, consume_admitted, consume_on,
  consume_piece, consume_all,
}

module _ (lim : Limits) where
  abbrev pub Bounded : DataAssetState → Type 0
  Bounded asset = length asset.media.collected ≤ lim.max_access_unit

  abbrev Safe : Outcome → Type 0
  Safe r = Bounded r.0

  append_data-Bounded :
      (p : Piece) (asset : DataAssetState) → Bounded asset → Bounded (append_data lim p asset).0
  unfolding append_data
  append_data-Bounded p asset h =
      elim (Bool-cases (
        ltb lim.max_access_unit (length asset.media.collected)
        || ltb (lim.max_access_unit - length asset.media.collected) (length p.payload))) [
          | inl y ↦ rw y (omega arith)
          | inr n ↦ rw n (let l = length-append asset.media.collected p.payload in ground arith)
        ]

  whole_item-Bounded :
      (p : Piece) (asset : DataAssetState) → Bounded asset → Safe (whole_item p asset)
  unfolding whole_item emit_data_unit
  whole_item-Bounded p asset h =
      if_both Bounded (is_collecting asset.media.state)
        {x = damage asset (record asset.media { collected = [] })} {y = asset} (omega arith) h

  middle_of_item-Bounded :
      (p : Piece) (asset : DataAssetState) → Bounded asset → Safe (middle_of_item lim p asset)
  unfolding middle_of_item
  middle_of_item-Bounded p asset h =
      if_both Safe (is_skipping asset.media.state) h
        (if_both Safe (not (continues p asset.media)) (omega arith) (append_data-Bounded p asset h))

  last_of_item-Bounded : (p : Piece) (asset : DataAssetState) → Safe (last_of_item lim p asset)
  unfolding last_of_item
  last_of_item-Bounded p asset =
      if_both Safe (is_skipping asset.media.state) (omega arith)
        (if_both Safe (not (continues p asset.media)) (omega arith) (omega arith))

  consume_admitted-Bounded :
      (p : Piece) (asset : DataAssetState) → Bounded asset → Safe (consume_admitted lim p asset)
  unfolding consume_admitted first_of_item
  consume_admitted-Bounded p asset h =
      if_both Safe (p.fragmentation == 0) (whole_item-Bounded p asset h) (
        if_both Safe (p.fragmentation == 1) (append_data-Bounded p _ (omega arith)) (
          if_both Safe (p.fragmentation == 2) (middle_of_item-Bounded p asset h)
            (if_both Safe (p.fragmentation == 3) (last_of_item-Bounded p asset) h)))

  abbrev AfterAdmit : Option Outcome → Type 0
  AfterAdmit none = Unit
  AfterAdmit (some r) = Safe r

  admit_piece-AfterAdmit :
      (p : Piece) (asset : DataAssetState) → Bounded asset → AfterAdmit (admit_piece p asset)
  unfolding admit_piece
  admit_piece-AfterAdmit p asset h =
      let empty : 0 ≤ lim.max_access_unit = omega arith in
      if_both AfterAdmit
        (is_initial asset.media.state
          || p.packet_sequence == add_u32 asset.media.last_packet_sequence 1
          || p.aggregation
            && p.fragmentation == 0
            && p.packet_sequence == asset.media.last_packet_sequence)
        h (if_both AfterAdmit (p.packet_sequence == asset.media.last_packet_sequence) tt empty)

  consume_on-Bounded :
      (p : Piece) (asset : DataAssetState) (o : Option Outcome)
      → Bounded asset
      → AfterAdmit o
      → Safe (consume_on lim p asset o)
  unfolding consume_on
  consume_on-Bounded p asset none h k = h
  consume_on-Bounded p asset (some (admitted, es)) h k = consume_admitted-Bounded p admitted k

  -- If what a data asset buffers is within the limit on access units, it stays within it,
  -- whatever pieces the asset receives.
  pub consume_all-Bounded :
      (ps : List Piece) (asset : DataAssetState)
      → length asset.media.collected ≤ lim.max_access_unit
      → length (consume_all lim ps asset).0.media.collected ≤ lim.max_access_unit
  unfolding consume_all consume_piece
  consume_all-Bounded [] asset h = h
  consume_all-Bounded (p ∷ ps) asset h =
      consume_all-Bounded ps (consume_piece lim p asset).0
        (consume_on-Bounded p asset (admit_piece p asset) h (admit_piece-AfterAdmit p asset h))

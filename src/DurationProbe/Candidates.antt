-- ===== src/DurationProbe/Candidates.antt =====
-- src/duration_probe.cpp, VideoCandidate and the functions on it: what is known of a video track, and
-- the choice among the tracks.
pub mod Choice
use libaribtlv.Base.{
  ℕ, ◌+◌, ◌%◌, ◌^◌, Bool, true, false, not, ◌&&◌, ◌||◌, List, [], ◌∷◌, Option, none, some, ltb, leb,
  ◌==◌, if◌then◌else◌,
}
use libaribtlv.Base.Int.{ℤ, pos, ltb_ℤ, eqb_ℤ, ◌+ℤ◌, ◌-ℤ◌, int64_max, wrap_int64}
use libaribtlv.Timeline.{timestamp_distance}
use libaribtlv.AssetLayers.{
  AssetGroupInfo, TrackInfo, asset_selection_level, belongs_to_asset_group, any, is_nil,
}

-- The statistics of the head or of the tail. The head's first time stamp is kept beside them.
pub record Statistics : Type 0 where
  pub count : ℕ
  pub previous : Option ℤ
  pub maximum : Option ℤ
  pub frame_duration : ℤ

pub record VideoCandidate : Type 0 where
  pub info : TrackInfo
  pub head_first_pts_us : Option ℤ
  pub head : Statistics
  pub tail : Statistics

abbrev pub no_statistics : Statistics
no_statistics = record { count = 0; previous = none; maximum = none; frame_duration = pos 0 }

abbrev pub fresh_candidate : TrackInfo → VideoCandidate
fresh_candidate info = record {
  info = info;
  head_first_pts_us = none;
  head = no_statistics;
  tail = no_statistics;
}

abbrev pub shorter : Option ℤ → ℤ → ℤ
shorter none d = d
shorter (some distance) d = if eqb_ℤ d (pos 0) || ltb_ℤ distance d then distance else d

abbrev pub distance_to : ℤ → Option ℤ → Option ℤ
distance_to pts none = none
distance_to pts (some previous) = timestamp_distance pts previous

abbrev pub greater : ℤ → Option ℤ → Option ℤ
greater pts none = some pts
greater pts (some m) = if ltb_ℤ m pts then some pts else some m

-- With the count that the caller increments.
unfoldable pub observe_timestamp : ℤ → Statistics → Statistics
observe_timestamp pts s = record {
  count = (s.count + 1) % 2 ^ 64;
  previous = some pts;
  maximum = greater pts s.maximum;
  frame_duration = shorter (distance_to pts s.previous) s.frame_duration;
}

abbrev pub first_of : ℤ → Option ℤ → Option ℤ
first_of pts none = some pts
first_of pts (some first) = some first

abbrev pub observe_head : ℤ → VideoCandidate → VideoCandidate
observe_head pts c = record c {
  head_first_pts_us = first_of pts c.head_first_pts_us;
  head = observe_timestamp pts c.head;
}

abbrev pub observe_tail : ℤ → VideoCandidate → VideoCandidate
observe_tail pts c = record c { tail = observe_timestamp pts c.tail }

abbrev pub value_or_zero : Option ℕ → ℕ
value_or_zero none = 0
value_or_zero (some n) = n

unfoldable pub selection_level : VideoCandidate → ℕ
selection_level c = value_or_zero (asset_selection_level c.info none)

-- The first track that is in an asset group.
unfoldable pub first_grouped : List VideoCandidate → Option (VideoCandidate × AssetGroupInfo)
first_grouped [] = none
first_grouped (c ∷ cs) = elim c.info.asset_groups [ [] ↦ first_grouped cs | g ∷ gs ↦ some (c, g) ]

-- The candidates have different track ids, so that the id stands for the address of the first.
abbrev pub is_front : VideoCandidate → List VideoCandidate → Bool
is_front c [] = false
is_front c (d ∷ ds) = c.info.track_id == d.info.track_id

abbrev pub belongs_by_group :
    List VideoCandidate → VideoCandidate → Option (VideoCandidate × AssetGroupInfo) → Bool
belongs_by_group cs c none = is_front c cs
belongs_by_group cs c (some (d, g)) =
    is_nil c.info.asset_groups && c.info.context_id == d.info.context_id
    || belongs_to_asset_group c.info g.group_identification

abbrev pub belongs : Option ℕ → List VideoCandidate → VideoCandidate → Bool
belongs (some packet_id) cs c = c.info.packet_id == packet_id
belongs none cs c = if is_nil cs then false else belongs_by_group cs c (first_grouped cs)

-- `options` has the packet id that the caller asks for, if it asks for one.
unfoldable pub belongs_to_selected_video_range :
    Option ℕ → List VideoCandidate → VideoCandidate → Bool
belongs_to_selected_video_range packet_id cs c = belongs packet_id cs c

abbrev pub statistics : Bool → VideoCandidate → Statistics
statistics true c = c.tail
statistics false c = c.head

abbrev pub end_after : ℕ → ℤ → Option ℤ → Option ℤ
end_after count frame_duration none = none
end_after count frame_duration (some maximum) =
    if ltb count 2
      || not (ltb_ℤ (pos 0) frame_duration)
      || ltb_ℤ (int64_max -ℤ frame_duration) maximum
    then none
    else some (maximum +ℤ frame_duration)

unfoldable pub candidate_end_us : Bool → VideoCandidate → Option ℤ
candidate_end_us tail c = let s = statistics tail c in end_after s.count s.frame_duration s.maximum

abbrev pub is_known : Option ℤ → Bool
is_known none = false
is_known (some t) = true

abbrev pub has_stats : Bool → VideoCandidate → Bool
has_stats tail c =
    let s = statistics tail c in
    leb 2 s.count && is_known s.maximum && ltb_ℤ (pos 0) s.frame_duration

abbrev pub maximum_or_zero : Option ℤ → ℤ
maximum_or_zero none = pos 0
maximum_or_zero (some t) = t

-- The lambda `duration`, which is only called where there is a maximum. The source adds 64-bit numbers
-- with no test; a sum above them is taken to wrap around.
abbrev pub last_end : Bool → VideoCandidate → ℤ
last_end tail c =
    let s = statistics tail c in wrap_int64 (maximum_or_zero s.maximum +ℤ s.frame_duration)

abbrev pub better : Bool → VideoCandidate → Option VideoCandidate → Bool
better tail left none = true
better tail left (some right) =
    if not (eqb_ℤ (last_end tail left) (last_end tail right))
    then ltb_ℤ (last_end tail right) (last_end tail left)
    else ltb (selection_level left) (selection_level right)

unfoldable pub choose_from :
    (VideoCandidate → Bool)
    → (VideoCandidate → Option VideoCandidate → Bool)
    → Option VideoCandidate
    → List VideoCandidate
    → Option VideoCandidate
choose_from eligible beats selected [] = selected
choose_from eligible beats selected (c ∷ cs) =
    choose_from eligible beats (if eligible c && beats c selected then some c else selected) cs

unfoldable pub choose_candidate : Option ℕ → List VideoCandidate → Bool → Option VideoCandidate
choose_candidate packet_id cs tail =
    choose_from (λ c. belongs_to_selected_video_range packet_id cs c && has_stats tail c)
      (better tail) none cs

abbrev pub starts_before : VideoCandidate → Option VideoCandidate → Bool
starts_before c none = true
starts_before c (some d) =
    ltb_ℤ (maximum_or_zero c.head_first_pts_us) (maximum_or_zero d.head_first_pts_us)
    || eqb_ℤ (maximum_or_zero c.head_first_pts_us) (maximum_or_zero d.head_first_pts_us)
      && ltb (selection_level c) (selection_level d)

unfoldable pub choose_start_candidate : Option ℕ → List VideoCandidate → Option VideoCandidate
choose_start_candidate packet_id cs =
    choose_from
      (λ c. belongs_to_selected_video_range packet_id cs c && is_known c.head_first_pts_us)
      starts_before none cs

unfoldable pub has_head_video : List VideoCandidate → Bool
has_head_video cs = any (λ (c : VideoCandidate). not (c.head.count == 0)) cs

unfoldable pub has_tail_video : List VideoCandidate → Bool
has_tail_video cs = any (λ (c : VideoCandidate). not (c.tail.count == 0)) cs

unfoldable pub reset_tail_statistics : List VideoCandidate → List VideoCandidate
reset_tail_statistics [] = []
reset_tail_statistics (c ∷ cs) = record c { tail = no_statistics } ∷ reset_tail_statistics cs

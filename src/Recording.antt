-- ===== src/Recording.antt =====
-- include/aribtlv/recording.hpp and src/recording.cpp: the index of a recording, its seek points and
-- its duration. A method returns the new index, with its result where it has one.
pub mod Lifecycle
pub mod Points
pub mod Calls
pub mod Queries
pub mod Around
pub mod Valid
pub mod Invariant
mod Tests
use libaribtlv.Base.{
  ℕ, ◌+◌, Bool, true, false, not, ◌&&◌, ◌||◌, Option, none, some, List, [], ◌∷◌, ◌++◌, ltb, ◌==◌,
  if◌then◌else◌,
}
use libaribtlv.Base.Int.{ℤ, pos, ◌+ℤ◌, ◌-ℤ◌, ltb_ℤ, leb_ℤ, eqb_ℤ, int64_max}
use libaribtlv.Timeline.{microsecond_timescale, timestamp_microseconds, timestamp_distance}
use libaribtlv.Types.{Timestamp, Codec, hevc, aac_latm, ttml}

pub data IndexState : Type 0 where
  absent loading building partial following complete stale failed : IndexState

pub data DurationStatus : Type 0 where
  unknown provisional complete : DurationStatus

pub record DurationInfo : Type 0 where
  pub value : Timestamp
  pub status : DurationStatus

pub record SeekPoint : Type 0 where
  pub presentation_time : Timestamp
  pub signalling_offset : ℕ
  pub random_access_offset : ℕ
  pub video_track_id : ℕ
  pub bootstrap_id : ℕ

pub record SeekPoints : Type 0 where
  pub first : SeekPoint
  pub second : Option SeekPoint

-- The members of an `AccessUnit` that the index reads.
pub record AccessUnit : Type 0 where
  pub track_id : ℕ
  pub codec : Codec
  pub pts : Timestamp
  pub restart_offset : ℕ
  pub input_offset : ℕ
  pub random_access : Bool

pub record RecordingIndex : Type 0 where
  pub state : IndexState
  pub selected_video_track : Option ℕ
  pub seek_points : List SeekPoint
  pub minimum_pts_us : Option ℤ
  pub maximum_pts_us : Option ℤ
  pub previous_pts_us : Option ℤ
  pub inferred_frame_duration_us : ℤ
  pub duration_us : Option ℤ
  pub duration_status : DurationStatus
  pub growing : Bool

abbrev pub initial : RecordingIndex
initial = record {
  state = IndexState.absent;
  selected_video_track = none;
  seek_points = [];
  minimum_pts_us = none;
  maximum_pts_us = none;
  previous_pts_us = none;
  inferred_frame_duration_us = pos 0;
  duration_us = none;
  duration_status = DurationStatus.unknown;
  growing = false;
}

abbrev pub micros : ℤ → Timestamp
micros v = record { value = v; timescale = microsecond_timescale }

abbrev pub is_building : IndexState → Bool
is_building IndexState.building = true
is_building _ = false

abbrev pub is_complete : IndexState → Bool
is_complete IndexState.complete = true
is_complete _ = false

abbrev pub is_hevc : Codec → Bool
is_hevc hevc = true
is_hevc _ = false

-- `a == b` on optional track numbers.
abbrev pub same_track : Option ℕ → Option ℕ → Bool
same_track none none = true
same_track none (some b) = false
same_track (some a) none = false
same_track (some a) (some b) = a == b

abbrev pub max_ℤ : ℤ → ℤ → ℤ
max_ℤ a b = if ltb_ℤ a b then b else a

-- `!duration.has_value() || candidate > *duration`, and then the assignment.
abbrev pub raise : Option ℤ → ℤ → Option ℤ
raise none candidate = some candidate
raise (some d) candidate = some (if ltb_ℤ d candidate then candidate else d)

-- `!minimum.has_value() || pts < *minimum`, and then the assignment.
abbrev pub lower : Option ℤ → ℤ → Option ℤ
lower none candidate = some candidate
lower (some d) candidate = some (if ltb_ℤ candidate d then candidate else d)

pub reset : RecordingIndex → RecordingIndex
reset r = initial

pub begin : Bool → RecordingIndex → RecordingIndex
begin growing r = record (reset r) { growing = growing; state = IndexState.building }

-- What `selectVideoTrack` and `markStale` forget.
abbrev pub forget : RecordingIndex → RecordingIndex
forget r = record r {
  seek_points = [];
  minimum_pts_us = none;
  maximum_pts_us = none;
  previous_pts_us = none;
  inferred_frame_duration_us = pos 0;
  duration_us = none;
  duration_status = DurationStatus.unknown;
}

pub select_video_track : Option ℕ → RecordingIndex → RecordingIndex
select_video_track track r =
    if same_track r.selected_video_track track
    then r
    else forget (record r { selected_video_track = track })

pub switch_video_track : ℕ → RecordingIndex → RecordingIndex
switch_video_track track r =
    if same_track r.selected_video_track (some track) then r else record r {
      selected_video_track = some track;
      previous_pts_us = none;
      inferred_frame_duration_us = pos 0;
    }

-- The duration behind the last frame, at the end of a complete recording.
pub final_duration : ℤ → ℤ → ℤ
final_duration maximum frame =
    let candidate = max_ℤ (pos 0) maximum in
    if ltb_ℤ (pos 0) frame && leb_ℤ candidate (int64_max -ℤ frame)
    then candidate +ℤ frame
    else candidate

abbrev pub closed_duration : IndexState → Option ℤ → ℤ → Option ℤ → Option ℤ
closed_duration now none frame duration = duration
closed_duration now (some maximum) frame duration =
    let candidate = final_duration maximum frame in
    if is_complete now && leb_ℤ (pos 0) candidate then raise duration candidate else duration

abbrev pub status_of : IndexState → Option ℤ → DurationStatus
status_of now none = DurationStatus.unknown
status_of now (some d) =
    if is_complete now then DurationStatus.complete else DurationStatus.provisional

pub update_duration_status : RecordingIndex → RecordingIndex
update_duration_status r =
    let duration =
      closed_duration r.state r.maximum_pts_us r.inferred_frame_duration_us r.duration_us in
    record r { duration_us = duration; duration_status = status_of r.state duration }

-- The order that `std::lower_bound` is given.
pub point_less : SeekPoint → SeekPoint → Bool
point_less left right =
    if not (eqb_ℤ left.presentation_time.value right.presentation_time.value)
    then ltb_ℤ left.presentation_time.value right.presentation_time.value
    else ltb left.random_access_offset right.random_access_offset

-- The position that `std::lower_bound` or `std::upper_bound` finds in a sorted sequence, as the
-- points before it and those from it on.
pub partition : (SeekPoint → Bool) → List SeekPoint → List SeekPoint × List SeekPoint
partition before [] = ([], [])
partition before (x ∷ xs) =
    let (front, back) = partition before xs in if before x then (x ∷ front, back) else ([], x ∷ xs)

abbrev pub last_or : Option SeekPoint → List SeekPoint → Option SeekPoint
last_or d [] = d
last_or d (x ∷ xs) = last_or (some x) xs

-- Whether the neighbour before, or after, contradicts the new point's byte offset.
abbrev pub overtaken : Option SeekPoint → SeekPoint → Bool
overtaken none point = false
overtaken (some previous) point = ltb point.random_access_offset previous.random_access_offset

abbrev pub overtakes : List SeekPoint → SeekPoint → Bool
overtakes [] point = false
overtakes (found ∷ rest) point = ltb found.random_access_offset point.random_access_offset

abbrev pub is_same_point : List SeekPoint → SeekPoint → Bool
is_same_point [] point = false
is_same_point (found ∷ rest) point =
    eqb_ℤ found.presentation_time.value point.presentation_time.value
    && found.random_access_offset == point.random_access_offset
    && found.video_track_id == point.video_track_id

-- The insertion, with the position found: `none` where it is refused.
pub insert_at : List SeekPoint × List SeekPoint → SeekPoint → Option (List SeekPoint)
insert_at (front, back) point =
    if is_same_point back point
    then some (front ++ back)
    else if overtaken (last_or none front) point || overtakes back point
    then none
    else some (front ++ point ∷ back)

abbrev pub store_points : RecordingIndex → Option (List SeekPoint) → RecordingIndex × Bool
store_points r none = (r, false)
store_points r (some points) = (record r { seek_points = points }, true)

-- Behind the tests on the state, the track and the offsets, with the time in microseconds.
pub add_at : RecordingIndex → SeekPoint → Option ℤ → RecordingIndex × Bool
add_at r point none = (r, false)
add_at r point (some time_us) =
    if not (same_track r.selected_video_track none)
      && not (same_track r.selected_video_track (some point.video_track_id))
    then (r, false)
    else let placed = record point { presentation_time = micros time_us } in
      store_points (record r { selected_video_track = some point.video_track_id })
        (insert_at (partition (λ left. point_less left placed) r.seek_points) placed)

pub add_seek_point : SeekPoint → RecordingIndex → RecordingIndex × Bool
add_seek_point point r =
    if not (is_building r.state)
      || point.video_track_id == 0
      || ltb point.random_access_offset point.signalling_offset
    then (r, false)
    else add_at r point (timestamp_microseconds point.presentation_time)

-- The frame duration is the least distance of two stamps that follow one another.
abbrev pub inferred : Option ℤ → ℤ → ℤ
inferred none frame = frame
inferred (some distance) frame =
    if eqb_ℤ frame (pos 0) || ltb_ℤ distance frame then distance else frame

abbrev pub frame_after : Option ℤ → ℤ → ℤ → ℤ
frame_after none pts frame = frame
frame_after (some previous) pts frame = inferred (timestamp_distance pts previous) frame

abbrev pub observed_maximum : Option ℤ → ℤ → ℤ
observed_maximum none pts = pts
observed_maximum (some m) pts = if ltb_ℤ m pts then pts else m

-- The bookkeeping of `observe` for a stamp in microseconds.
pub observe_pts : ℤ → RecordingIndex → RecordingIndex
observe_pts pts r =
    let maximum = observed_maximum r.maximum_pts_us pts in
    update_duration_status (record r {
      inferred_frame_duration_us = frame_after r.previous_pts_us pts r.inferred_frame_duration_us;
      previous_pts_us = some pts;
      minimum_pts_us = lower r.minimum_pts_us pts;
      maximum_pts_us = some maximum;
      duration_us = raise r.duration_us (max_ℤ (pos 0) maximum);
    })

abbrev pub seek_point_of : AccessUnit → ℤ → SeekPoint
seek_point_of unit pts = record {
  presentation_time = micros pts;
  signalling_offset = unit.restart_offset;
  random_access_offset = unit.input_offset;
  video_track_id = unit.track_id;
  bootstrap_id = 0;
}

pub observe_at : AccessUnit → RecordingIndex → Option ℤ → RecordingIndex × Bool
observe_at unit r none = (r, false)
observe_at unit r (some pts) =
    let seen = observe_pts pts r in
    if not unit.random_access then (seen, true) else add_seek_point (seek_point_of unit pts) seen

-- `if (!selected_video_track_.has_value()) selected_video_track_ = unit.track_id;`
abbrev pub select_if_none : ℕ → RecordingIndex → RecordingIndex
select_if_none track r =
    if same_track r.selected_video_track none
    then record r { selected_video_track = some track }
    else r

pub observe : AccessUnit → RecordingIndex → RecordingIndex × Bool
observe unit r =
    if not (is_building r.state) || not (is_hevc unit.codec)
    then (r, false)
    else let chosen = select_if_none unit.track_id r in
      if not (same_track chosen.selected_video_track (some unit.track_id))
      then (chosen, false)
      else observe_at unit chosen (timestamp_microseconds unit.pts)

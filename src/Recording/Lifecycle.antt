-- ===== src/Recording/Lifecycle.antt =====
-- src/recording.cpp: the states of the index, its duration, and the queries.
use libaribtlv.Base.{Bool, true, false, not, ◌&&◌, Option, none, some, List, [], ◌∷◌, if◌then◌else◌}
use libaribtlv.Base.Int.{ℤ, pos, ltb_ℤ, eqb_ℤ}
use libaribtlv.Timeline.{timestamp_microseconds}
use libaribtlv.Recording.{
  IndexState, DurationStatus, DurationInfo, SeekPoint, SeekPoints, RecordingIndex, micros,
  is_building, is_complete, forget, update_duration_status, partition, last_or,
}
use libaribtlv.Types.{Timestamp}

abbrev pub status_complete : DurationStatus → Bool
status_complete DurationStatus.complete = true
status_complete _ = false

abbrev pub status_unknown : DurationStatus → Bool
status_unknown DurationStatus.unknown = true
status_unknown _ = false

abbrev pub bool_eq : Bool → Bool → Bool
bool_eq true b = b
bool_eq false b = not b

-- `value != *duration`, also where there is none; and `value < *duration`.
abbrev pub differs : Option ℤ → ℤ → Bool
differs none value = true
differs (some d) value = not (eqb_ℤ value d)

abbrev pub shrinks : Option ℤ → ℤ → Bool
shrinks none value = false
shrinks (some d) value = ltb_ℤ value d

unfoldable pub update_duration_to :
    DurationStatus → RecordingIndex → Option ℤ → RecordingIndex × Bool
update_duration_to status r none = (r, false)
update_duration_to status r (some value) =
    if ltb_ℤ value (pos 0)
    then (r, false)
    else if not (bool_eq (status_complete status) (is_complete r.state))
    then (r, false)
    else if status_complete r.duration_status && differs r.duration_us value
    then (r, false)
    else if shrinks r.duration_us value
    then (r, false)
    else (record r { duration_us = some value; duration_status = status }, true)

unfoldable pub update_duration : DurationInfo → RecordingIndex → RecordingIndex × Bool
update_duration info r =
    if status_unknown info.status
    then (r, false)
    else update_duration_to info.status r (timestamp_microseconds info.value)

unfoldable pub pause : RecordingIndex → RecordingIndex × Bool
pause r =
    if not (is_building r.state)
    then (r, false)
    else (update_duration_status (record r { state = IndexState.partial }), true)

abbrev pub can_resume : IndexState → Bool
can_resume IndexState.partial = true
can_resume IndexState.following = true
can_resume IndexState.stale = true
can_resume IndexState.failed = true
can_resume _ = false

unfoldable pub resume : RecordingIndex → RecordingIndex × Bool
resume r =
    if not (can_resume r.state)
    then (r, false)
    else (record r { state = IndexState.building }, true)

unfoldable pub reach_readable_end : Bool → RecordingIndex → RecordingIndex × Bool
reach_readable_end growing r = if not (is_building r.state) then (r, false) else (
  update_duration_status (record r {
    growing = growing;
    state = if growing then IndexState.following else IndexState.complete;
  }),
  true,
)

abbrev pub can_finalize : IndexState → Bool
can_finalize IndexState.building = true
can_finalize IndexState.partial = true
can_finalize IndexState.following = true
can_finalize _ = false

unfoldable pub finalize : RecordingIndex → RecordingIndex × Bool
finalize r =
    if not (can_finalize r.state)
    then (r, false)
    else (update_duration_status (record r { state = IndexState.complete; growing = false }), true)

unfoldable pub mark_stale : RecordingIndex → RecordingIndex
mark_stale r = forget (record r { state = IndexState.stale })

unfoldable pub fail : RecordingIndex → RecordingIndex
fail r = update_duration_status (record r { state = IndexState.failed })

-- The order that `std::upper_bound` is given: the point is not later than the target.
abbrev pub not_after : ℤ → SeekPoint → Bool
not_after target point = not (ltb_ℤ target point.presentation_time.value)

abbrev pub previous_at : List SeekPoint → Option ℤ → Option SeekPoint
previous_at points none = none
previous_at points (some target) = last_or none (partition (not_after target) points).0

unfoldable pub previous_sync : Timestamp → RecordingIndex → Option SeekPoint
previous_sync target r = previous_at r.seek_points (timestamp_microseconds target)

abbrev pub pair_around : ℤ → Option SeekPoint → List SeekPoint → Option SeekPoints
pair_around target none [] = none
pair_around target none (upper ∷ rest) = some (record { first = upper; second = none })
pair_around target (some previous) [] = some (record { first = previous; second = none })
pair_around target (some previous) (upper ∷ rest) =
    if eqb_ℤ previous.presentation_time.value target
    then some (record { first = previous; second = none })
    else some (record { first = previous; second = some upper })

abbrev pub points_around : List SeekPoint → Option ℤ → Option SeekPoints
points_around points none = none
points_around points (some target) =
    let (front, back) = partition (not_after target) points in
    pair_around target (last_or none front) back

unfoldable pub seek_points_for : Timestamp → RecordingIndex → Option SeekPoints
seek_points_for target r = points_around r.seek_points (timestamp_microseconds target)

abbrev pub value_or : Option ℤ → ℤ → ℤ
value_or none d = d
value_or (some v) d = v

unfoldable pub duration : RecordingIndex → DurationInfo
duration r = record { value = micros (value_or r.duration_us (pos 0)); status = r.duration_status }

abbrev pub stamp : Option ℤ → Option Timestamp
stamp none = none
stamp (some v) = some (micros v)

unfoldable pub presentation_start : RecordingIndex → Option Timestamp
presentation_start r = stamp r.minimum_pts_us

unfoldable pub presentation_end : RecordingIndex → Option Timestamp
presentation_end r = stamp r.maximum_pts_us

-- ===== src/Recording/Valid.antt =====
-- The invariant of an index, and that an observed access unit keeps it.
use libaribtlv.Base.{
  ℕ, ◌^◌, ◌-◌, ◌≡◌, refl, ltb, Bool, true, not, ◌&&◌, Bool-cases, if_both, inl, inr, Option, none,
  some, List, if◌then◌else◌, arith,
}
use libaribtlv.Base.Int.{ℤ, pos, ◌≤ℤ◌, ltb_ℤ, leb_ℤ, eqb_ℤ}
use libaribtlv.Timeline.{timestamp_microseconds, timestamp_distance}
use libaribtlv.Recording.Points.{Chain, insert_at-Chain}
use libaribtlv.Recording.{
  IndexState, DurationStatus, SeekPoint, AccessUnit, RecordingIndex, initial, is_complete, observe,
  add_seek_point, add_at, store_points, final_duration, update_duration_status, closed_duration,
  raise, lower, observed_maximum, inferred, status_of, observe_pts, observe_at, frame_after,
  seek_point_of, select_if_none,
}

abbrev pub NonNegative : Option ℤ → Type 0
NonNegative none = Unit
NonNegative (some d) = pos 0 ≤ℤ d

-- A duration is known exactly when the status says so, and is complete only in a complete index.
abbrev pub StatusFits : IndexState → DurationStatus → Option ℤ → Type 0
StatusFits now DurationStatus.unknown none = Unit
StatusFits now DurationStatus.unknown (some d) = ⊥
StatusFits now DurationStatus.provisional none = ⊥
StatusFits now DurationStatus.provisional (some d) = Unit
StatusFits now DurationStatus.complete none = ⊥
StatusFits now DurationStatus.complete (some d) = is_complete now ≡ true

abbrev pub RangeFits : Option ℤ → Option ℤ → Type 0
RangeFits none none = Unit
RangeFits none (some hi) = ⊥
RangeFits (some lo) none = ⊥
RangeFits (some lo) (some hi) = lo ≤ℤ hi

pub record IsValid (r : RecordingIndex) : Type 0 where
  pub ordered : Chain none r.seek_points
  pub status : StatusFits r.state r.duration_status r.duration_us
  pub positive : NonNegative r.duration_us
  pub frame : pos 0 ≤ℤ r.inferred_frame_duration_us
  pub range : RangeFits r.minimum_pts_us r.maximum_pts_us

pub initial-IsValid : IsValid initial
initial-IsValid = record {
  ordered = tt;
  status = tt;
  positive = tt;
  frame = omega arith;
  range = tt;
}

status_of-StatusFits : (now : IndexState) (d : Option ℤ) → StatusFits now (status_of now d) d
status_of-StatusFits now none = tt
status_of-StatusFits now (some d) = elim (Bool-cases (is_complete now)) [
  | inl y ↦ rw y y
  | inr n ↦ rw n tt
]

raise-NonNegative : (d : Option ℤ) (c : ℤ) → NonNegative d → pos 0 ≤ℤ c → NonNegative (raise d c)
raise-NonNegative none c h p = p
raise-NonNegative (some d) c h p = elim (Bool-cases (ltb_ℤ d c)) [ inl y ↦ rw y p | inr n ↦ rw n h ]

closed-NonNegative :
    (now : IndexState) (m : Option ℤ) (frame : ℤ) (d : Option ℤ)
    → NonNegative d
    → NonNegative (closed_duration now m frame d)
closed-NonNegative now none frame d h = h
closed-NonNegative now (some m) frame d h =
    elim (Bool-cases (is_complete now && leb_ℤ (pos 0) (final_duration m frame))) [
      | inl y ↦ rw y (raise-NonNegative d (final_duration m frame) h (ground arith))
      | inr n ↦ rw n h
    ]

pub update_duration_status-IsValid :
    (r : RecordingIndex)
    → Chain none r.seek_points
    → NonNegative r.duration_us
    → pos 0 ≤ℤ r.inferred_frame_duration_us
    → RangeFits r.minimum_pts_us r.maximum_pts_us
    → IsValid (update_duration_status r)
unfolding update_duration_status
update_duration_status-IsValid r c p f m = record {
  ordered = c;
  status = status_of-StatusFits r.state _;
  positive =
      closed-NonNegative r.state r.maximum_pts_us r.inferred_frame_duration_us r.duration_us p;
  frame = f;
  range = m;
}

inferred-nonneg :
    (d : Option ℤ) (frame : ℤ) → NonNegative d → pos 0 ≤ℤ frame → pos 0 ≤ℤ inferred d frame
inferred-nonneg none frame h f = f
inferred-nonneg (some d) frame h f = ground arith

distance_of-NonNegative : (n : ℕ) → NonNegative (if ltb (2 ^ 63 - 1) n then none else some (pos n))
distance_of-NonNegative n = if_both NonNegative (ltb (2 ^ 63 - 1) n) tt (omega arith)

timestamp_distance-NonNegative : (a b : ℤ) → NonNegative (timestamp_distance a b)
unfolding timestamp_distance
timestamp_distance-NonNegative a b = elim (Bool-cases (eqb_ℤ a b)) [
  | inl y ↦ rw y tt
  | inr n ↦ rw n (distance_of-NonNegative _)
]

frame_after-nonneg :
    (p : Option ℤ) (pts frame : ℤ) → pos 0 ≤ℤ frame → pos 0 ≤ℤ frame_after p pts frame
frame_after-nonneg none pts frame f = f
frame_after-nonneg (some p) pts frame f =
    inferred-nonneg (timestamp_distance pts p) frame (timestamp_distance-NonNegative pts p) f

observed-RangeFits :
    (lo hi : Option ℤ) (pts : ℤ)
    → RangeFits lo hi
    → RangeFits (lower lo pts) (some (observed_maximum hi pts))
observed-RangeFits none none pts h = omega arith
observed-RangeFits none (some b) pts h = absurd h
observed-RangeFits (some a) none pts h = absurd h
observed-RangeFits (some a) (some b) pts h = ground arith

observe_pts-IsValid : (pts : ℤ) (r : RecordingIndex) → IsValid r → IsValid (observe_pts pts r)
unfolding observe_pts
observe_pts-IsValid pts r v =
    update_duration_status-IsValid _ v.ordered
      (raise-NonNegative r.duration_us _ v.positive (ground arith))
      (frame_after-nonneg r.previous_pts_us pts r.inferred_frame_duration_us v.frame)
      (observed-RangeFits r.minimum_pts_us r.maximum_pts_us pts v.range)

-- A change of the points or of the track alone.
points-IsValid :
    (r : RecordingIndex) (track : Option ℕ) (points : List SeekPoint)
    → IsValid r
    → Chain none points
    → IsValid (record r { selected_video_track = track; seek_points = points })
points-IsValid r track points v c = record {
  ordered = c;
  status = v.status;
  positive = v.positive;
  frame = v.frame;
  range = v.range;
}

store-IsValid :
    (r : RecordingIndex) (track : Option ℕ) (o : Option (List SeekPoint))
    → IsValid r
    → ((points : List SeekPoint) → o ≡ some points → Chain none points)
    → IsValid (store_points (record r { selected_video_track = track }) o).0
store-IsValid r track none v h = points-IsValid r track r.seek_points v v.ordered
store-IsValid r track (some points) v h = points-IsValid r track points v (h points refl)

abbrev pub Valid : RecordingIndex × Bool → Type 0
Valid p = IsValid p.0

add_at-IsValid :
    (r : RecordingIndex) (point : SeekPoint) (t : Option ℤ)
    → IsValid r
    → IsValid (add_at r point t).0
unfolding add_at
add_at-IsValid r point none v = v
add_at-IsValid r point (some us) v = if_both Valid _ v (
    store-IsValid r (some point.video_track_id) _ v
      (λ points e. insert_at-Chain r.seek_points _ v.ordered e))

pub add_seek_point-IsValid :
    (point : SeekPoint) (r : RecordingIndex) → IsValid r → IsValid (add_seek_point point r).0
unfolding add_seek_point
add_seek_point-IsValid point r v =
    if_both Valid _ v (add_at-IsValid r point (timestamp_microseconds point.presentation_time) v)

observe_at-IsValid :
    (unit : AccessUnit) (r : RecordingIndex) (t : Option ℤ)
    → IsValid r
    → IsValid (observe_at unit r t).0
unfolding observe_at
observe_at-IsValid unit r none v = v
observe_at-IsValid unit r (some pts) v =
    let seen = observe_pts-IsValid pts r v in
    if_both Valid (not unit.random_access) seen
      (add_seek_point-IsValid (seek_point_of unit pts) (observe_pts pts r) seen)

select_if_none-IsValid :
    (track : ℕ) (r : RecordingIndex) → IsValid r → IsValid (select_if_none track r)
select_if_none-IsValid track r v =
    if_both IsValid _ (points-IsValid r (some track) r.seek_points v v.ordered) v

pub observe-IsValid :
    (unit : AccessUnit) (r : RecordingIndex) → IsValid r → IsValid (observe unit r).0
unfolding observe
observe-IsValid unit r v =
    let chosen = select_if_none-IsValid unit.track_id r v in
    if_both Valid _ v (
      if_both Valid _ chosen (
        observe_at-IsValid unit (select_if_none unit.track_id r) (timestamp_microseconds unit.pts)
          chosen))

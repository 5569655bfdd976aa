-- ===== src/Recording/Invariant.antt =====
-- Every call keeps the invariant of an index.
use libaribtlv.Base.{
  ℕ, ◌≡◌, refl, sym, Bool, true, false, not, ◌&&◌, Bool-cases, if_both, inl, inr, Option, none,
  some, List, [], ◌∷◌, if◌then◌else◌, arith,
}
use libaribtlv.Base.Int.{ℤ, pos, ltb_ℤ}
use libaribtlv.Timeline.{timestamp_microseconds}
use libaribtlv.Recording.Calls.{Call, run, run_all}
use libaribtlv.Recording.Lifecycle.{
  status_unknown, status_complete, bool_eq, differs, shrinks, can_resume, update_duration_to,
  update_duration, pause, resume, reach_readable_end, finalize, mark_stale, fail,
}
use libaribtlv.Recording.{
  IndexState, DurationStatus, DurationInfo, RecordingIndex, is_complete, reset, begin,
  select_video_track, switch_video_track, update_duration_status, forget, same_track,
}
use libaribtlv.Recording.Valid.{
  StatusFits, IsValid, Valid, initial-IsValid, update_duration_status-IsValid,
  add_seek_point-IsValid, observe-IsValid,
}

-- A new state, with the duration's status computed anew.
closing-IsValid :
    (r : RecordingIndex) (now : IndexState) (growing : Bool)
    → IsValid r
    → IsValid (update_duration_status (record r { state = now; growing = growing }))
closing-IsValid r now growing v =
    update_duration_status-IsValid _ v.ordered v.positive v.frame v.range

some-StatusFits :
    (now : IndexState) (status : DurationStatus) (value : ℤ)
    → status_unknown status ≡ false
    → bool_eq (status_complete status) (is_complete now) ≡ true
    → StatusFits now status (some value)
some-StatusFits now DurationStatus.unknown value k e = cc k
some-StatusFits now DurationStatus.provisional value k e = tt
some-StatusFits now DurationStatus.complete value k e = e

not-not : (b : Bool) → not b ≡ false → b ≡ true
not-not true e = refl
not-not false e = sym e

update_duration_to-IsValid :
    (status : DurationStatus) (r : RecordingIndex) (t : Option ℤ)
    → status_unknown status ≡ false
    → IsValid r
    → IsValid (update_duration_to status r t).0
unfolding update_duration_to
update_duration_to-IsValid status r none k v = v
update_duration_to-IsValid status r (some value) k v = elim (Bool-cases (ltb_ℤ value (pos 0))) [
  | inl y ↦ rw y v
  | inr n ↦ rw n (elim (Bool-cases (not (bool_eq (status_complete status) (is_complete r.state)))) [
    | inl y ↦ rw y v
    | inr e ↦ rw e (
        let set : IsValid (record r { duration_us = some value; duration_status = status }) =
          record {
            ordered = v.ordered;
            status = some-StatusFits r.state status value k (not-not _ e);
            positive = ground arith;
            frame = v.frame;
            range = v.range;
          } in
        let done : RecordingIndex × Bool =
          (record r { duration_us = some value; duration_status = status }, true) in
        if_both Valid (status_complete r.duration_status && differs r.duration_us value)
          {x = (r, false)} {y = if shrinks r.duration_us value then (r, false) else done} v
          (if_both Valid (shrinks r.duration_us value) {x = (r, false)} {y = done} v set))
  ])
]

-- A status that fits a state which is not complete fits another.
StatusFits-change :
    (now later : IndexState) (status : DurationStatus) (d : Option ℤ)
    → is_complete now ≡ false
    → StatusFits now status d
    → StatusFits later status d
StatusFits-change now later DurationStatus.unknown none n f = tt
StatusFits-change now later DurationStatus.unknown (some d) n f = absurd f
StatusFits-change now later DurationStatus.provisional none n f = absurd f
StatusFits-change now later DurationStatus.provisional (some d) n f = tt
StatusFits-change now later DurationStatus.complete none n f = absurd f
StatusFits-change now later DurationStatus.complete (some d) n f = cc (f, n)

resumable : (now : IndexState) → can_resume now ≡ true → is_complete now ≡ false
resumable IndexState.absent h = refl
resumable IndexState.loading h = refl
resumable IndexState.building h = refl
resumable IndexState.partial h = refl
resumable IndexState.following h = refl
resumable IndexState.complete h = sym h
resumable IndexState.stale h = refl
resumable IndexState.failed h = refl

resume-IsValid : (r : RecordingIndex) → IsValid r → IsValid (resume r).0
unfolding resume
resume-IsValid r v = elim (Bool-cases (not (can_resume r.state))) [
  | inl y ↦ rw y v
  | inr n ↦ rw n (record {
    ordered = v.ordered;
    status =
        StatusFits-change r.state IndexState.building r.duration_status r.duration_us
          (resumable r.state (not-not _ n)) v.status;
    positive = v.positive;
    frame = v.frame;
    range = v.range;
  })
]

forget-IsValid : (r : RecordingIndex) → IsValid (forget r)
forget-IsValid r = record {
  ordered = tt;
  status = tt;
  positive = tt;
  frame = omega arith;
  range = tt;
}

begin-IsValid : (growing : Bool) (r : RecordingIndex) → IsValid (begin growing r)
unfolding begin reset
begin-IsValid growing r = record {
  ordered = tt;
  status = tt;
  positive = tt;
  frame = omega arith;
  range = tt;
}

switch_video_track-IsValid :
    (track : ℕ) (r : RecordingIndex) → IsValid r → IsValid (switch_video_track track r)
unfolding switch_video_track
switch_video_track-IsValid track r v = if_both IsValid _ v (record {
  ordered = v.ordered;
  status = v.status;
  positive = v.positive;
  frame = omega arith;
  range = v.range;
})

update_duration-IsValid :
    (info : DurationInfo) (r : RecordingIndex) → IsValid r → IsValid (update_duration info r).0
unfolding update_duration
update_duration-IsValid info r v = elim (Bool-cases (status_unknown info.status)) [
  | inl y ↦ rw y v
  | inr n ↦ rw n (update_duration_to-IsValid info.status r (timestamp_microseconds info.value) n v)
]

-- Every call keeps the invariant.
pub run-IsValid : (c : Call) (r : RecordingIndex) → IsValid r → IsValid (run c r)
unfolding run reset select_video_track pause reach_readable_end finalize mark_stale fail
run-IsValid Call.reset_call r v = initial-IsValid
run-IsValid (Call.begin_call growing) r v = begin-IsValid growing r
run-IsValid (Call.select_call track) r v =
    if_both IsValid (same_track r.selected_video_track track) v
      (forget-IsValid (record r { selected_video_track = track }))
run-IsValid (Call.switch_call track) r v = switch_video_track-IsValid track r v
run-IsValid (Call.observe_call unit) r v = observe-IsValid unit r v
run-IsValid (Call.add_call point) r v = add_seek_point-IsValid point r v
run-IsValid (Call.update_call info) r v = update_duration-IsValid info r v
run-IsValid Call.pause_call r v =
    if_both Valid _ v (closing-IsValid r IndexState.partial r.growing v)
run-IsValid Call.resume_call r v = resume-IsValid r v
run-IsValid (Call.end_call growing) r v = if_both Valid _ v (closing-IsValid r _ growing v)
run-IsValid Call.finalize_call r v =
    if_both Valid _ v (closing-IsValid r IndexState.complete false v)
run-IsValid Call.stale_call r v = forget-IsValid (record r { state = IndexState.stale })
run-IsValid Call.fail_call r v = closing-IsValid r IndexState.failed r.growing v

-- A valid index, such as a new one, is valid after any sequence of calls: its seek points are in
-- order of time and of byte offset, its duration is known exactly when the status says so, is not
-- negative, and is complete only in a complete index, and its least stamp is not above its greatest.
pub run_all-IsValid : (cs : List Call) (r : RecordingIndex) → IsValid r → IsValid (run_all cs r)
unfolding run_all
run_all-IsValid [] r v = v
run_all-IsValid (c ∷ cs) r v = run_all-IsValid cs (run c r) (run-IsValid c r v)

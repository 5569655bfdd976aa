-- ===== src/Recording/Tests.antt =====
-- Runs of the index on small recordings.
use libaribtlv.Base.{ℕ, refl, Bool, true, false, List, [], ◌∷◌, arith}
use libaribtlv.Base.Int.{ℤ, pos, ◌*ℤ◌, ◌-ℤ◌, ◌+ℤ◌}
use libaribtlv.Timeline.{timestamp_microseconds, scaled, quotient, remainder}
use libaribtlv.Types.{Timestamp, hevc}
use libaribtlv.Recording.Calls.{Call, run_all}
use libaribtlv.Recording.Valid.{IsValid, initial-IsValid}
use libaribtlv.Recording.Invariant.{run_all-IsValid}
use libaribtlv.Recording.Lifecycle.{previous_sync, seek_points_for}
use libaribtlv.Recording.Around.{Around, seek_points_for_lem}
use libaribtlv.Recording.Queries.{Found, previous_sync_lem}
use libaribtlv.Recording.{SeekPoint, AccessUnit, RecordingIndex, micros, initial}

abbrev frame : ℤ → ℕ → Bool → AccessUnit
frame pts offset random = record {
  track_id = 7;
  codec = hevc;
  pts = record { value = pts; timescale = 1000 };
  restart_offset = offset;
  input_offset = offset;
  random_access = random;
}

-- Two groups of pictures, 40 ms a frame, then a readable end and a wrong offset after a new start.
abbrev session : List Call
session =
    Call.begin_call true
    ∷ Call.observe_call (frame (pos 0) 100 true)
    ∷ Call.observe_call (frame (pos 40) 200 false)
    ∷ Call.observe_call (frame (pos 80) 300 true)
    ∷ Call.end_call true
    ∷ Call.resume_call
    ∷ Call.observe_call (frame (pos 60) 50 true)
    ∷ Call.finalize_call
    ∷ []

run_all-IsValid_example : IsValid (run_all session initial)
run_all-IsValid_example = run_all-IsValid session initial initial-IsValid

abbrev point : ℕ → ℕ → SeekPoint
point us offset = record {
  presentation_time = micros (pos us);
  signalling_offset = offset;
  random_access_offset = offset;
  video_track_id = 7;
  bootstrap_id = 0;
}

abbrev two_points : RecordingIndex
two_points = record initial { seek_points = point 0 100 ∷ point 80000 300 ∷ [] }

abbrev target : Timestamp
target = record { value = pos 50; timescale = 1000 }

previous_sync_lem_example :
    Found (pos 50000) two_points.seek_points (previous_sync target two_points)
unfolding timestamp_microseconds scaled quotient ◌*ℤ◌ remainder ◌-ℤ◌ ◌+ℤ◌
previous_sync_lem_example =
    previous_sync_lem target two_points (tt, ((omega arith, omega arith), tt)) refl

seek_points_for_lem_example :
    Around (pos 50000) two_points.seek_points (seek_points_for target two_points)
unfolding timestamp_microseconds scaled quotient ◌*ℤ◌ remainder ◌-ℤ◌ ◌+ℤ◌
seek_points_for_lem_example =
    seek_points_for_lem target two_points (tt, ((omega arith, omega arith), tt)) refl

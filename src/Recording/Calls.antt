-- ===== src/Recording/Calls.antt =====
-- The calls that change an index, as values, and sequences of them.
use libaribtlv.Base.{ℕ, Bool, Option, List, [], ◌∷◌}
use libaribtlv.Recording.Lifecycle.{
  update_duration, pause, resume, reach_readable_end, finalize, mark_stale, fail,
}
use libaribtlv.Recording.{
  DurationInfo, SeekPoint, AccessUnit, RecordingIndex, reset, begin, select_video_track,
  switch_video_track, observe, add_seek_point,
}

pub data Call : Type 0 where
  reset_call : Call
  begin_call : Bool → Call
  select_call : Option ℕ → Call
  switch_call : ℕ → Call
  observe_call : AccessUnit → Call
  add_call : SeekPoint → Call
  update_call : DurationInfo → Call
  pause_call : Call
  resume_call : Call
  end_call : Bool → Call
  finalize_call : Call
  stale_call : Call
  fail_call : Call

unfoldable pub run : Call → RecordingIndex → RecordingIndex
run reset_call r = reset r
run (begin_call growing) r = begin growing r
run (select_call track) r = select_video_track track r
run (switch_call track) r = switch_video_track track r
run (observe_call unit) r = (observe unit r).0
run (add_call point) r = (add_seek_point point r).0
run (update_call info) r = (update_duration info r).0
run pause_call r = (pause r).0
run resume_call r = (resume r).0
run (end_call growing) r = (reach_readable_end growing r).0
run finalize_call r = (finalize r).0
run stale_call r = mark_stale r
run fail_call r = fail r

unfoldable pub run_all : List Call → RecordingIndex → RecordingIndex
run_all [] r = r
run_all (c ∷ cs) r = run_all cs (run c r)

-- ===== src/DurationProbe/Machine.antt =====
-- src/duration_probe.cpp, DurationProbe::Impl: the requests for ranges of the source. The demuxer's
-- calls back, during a push or a flush, are arguments here.
mod Tests
use libaribtlv.Types.{Timestamp}
use libaribtlv.Timeline.{microsecond_timescale}
use libaribtlv.Recording.{DurationStatus}
use libaribtlv.DurationProbe.Range.{
  VideoPresentationBoundary, VideoPresentationRange, union_video_presentation_ranges,
}
use libaribtlv.DurationProbe.Candidates.{
  VideoCandidate, belongs_to_selected_video_range, candidate_end_us, choose_candidate,
  choose_start_candidate, has_head_video, has_tail_video, reset_tail_statistics,
}
use libaribtlv.Base.{
  ℕ, ◌+◌, ◌-◌, ◌*◌, ◌/◌, ◌%◌, ◌^◌, min, Bool, true, false, not, ◌&&◌, ◌||◌, List, [], ◌∷◌, Option,
  none, some, ltb, leb, ◌==◌, if◌then◌else◌,
}
use libaribtlv.Base.Int.{ℤ, ◌-ℤ◌}
use libaribtlv.DurationProbe.State.{
  RangeRequest, DurationProbeOptions, DurationProbeState, Phase, Callback, DurationProbe,
  no_duration, is_needing, next_number, call, unknown, fail, issue_request, idle, complete,
  unknown_length, failed, cancelled, no_failure, invalid_source, invalid_response, source_error,
  no_video, no_tail_timestamp, range_limit, head, sequential_tail, tail, reset_demuxer,
  flush_demuxer, select_service, push_demuxer, reposition,
}
use libaribtlv.DurationProbe.Callbacks.{react_all}
use libaribtlv.DurationProbe.Requests.{
  boundaries, microseconds, complete_from_range, is_complete, packet_or, name_packets,
  complete_with, complete_from_candidates, issue_tail_request, wider, widen_tail, after_flush,
  head_target, widen_head, turn_to_tail, finish_head_range, finish_tail, finish_phase,
  finish_request,
}

abbrev pub cleared : ℕ → DurationProbeOptions → DurationProbe → DurationProbe
cleared source_size options p = record {
  calls = reset_demuxer ∷ p.calls;
  options = options;
  state = idle;
  failure = no_failure;
  duration = no_duration;
  presentation_start = none;
  presentation_end = none;
  phase = p.phase;
  source_size = source_size;
  generation = next_number p.generation;
  next_request_id = p.next_request_id;
  request = none;
  request_received = 0;
  transferred_bytes = 0;
  head_end = 0;
  tail_window = 0;
  candidates = [];
  selected_video_packet_id = none;
  presentation_end_video_packet_id = none;
}

-- With the function's result.
unfoldable pub begin : ℕ → DurationProbeOptions → DurationProbe → DurationProbe × Bool
begin source_size options p =
    let q = cleared source_size options p in
    if source_size == 0
      || options.initial_range_size == 0
      || ltb options.max_range_size options.initial_range_size
    then (unknown invalid_source q, false)
    else (
      issue_request 0 (min source_size options.initial_range_size)
          (record (call (select_service options.service_context_id) q) { phase = head }),
      true,
    )

unfoldable pub next_range : DurationProbe → Option RangeRequest
next_range p = if is_needing p.state then p.request else none

-- What the reader of the source pushes, and what the demuxer calls back meanwhile.
pub record Pushed : Type 0 where
  pub request_id : ℕ
  pub absolute_offset : ℕ
  pub null_pointer : Bool
  pub size : ℕ
  pub end_of_range : Bool
  pub during_push : List Callback
  pub during_flush : List Callback

abbrev pub demux : ℕ → List Callback → DurationProbe → DurationProbe
demux size during_push p =
    if size == 0 then p else react_all during_push (call (push_demuxer size) p)

abbrev pub count_received : ℕ → DurationProbe → DurationProbe
count_received size p = record p {
  request_received = p.request_received + size;
  transferred_bytes = (p.transferred_bytes + size) % 2 ^ 64;
}

abbrev pub end_range : List Callback → RangeRequest → DurationProbe → DurationProbe × Bool
end_range during_flush r p =
    if not (p.request_received == r.length)
    then (fail invalid_response p, false)
    else (finish_request during_flush r p, true)

-- After the demuxer has read the bytes.
unfoldable pub push_pushed : Pushed → RangeRequest → DurationProbe → DurationProbe × Bool
push_pushed a r p =
    if not (is_needing p.state)
    then (p, false)
    else if not a.end_of_range
    then (count_received a.size p, true)
    else end_range a.during_flush r (count_received a.size p)

unfoldable pub push_requested : Pushed → RangeRequest → DurationProbe → DurationProbe × Bool
push_requested a r p =
    if not (r.request_id == a.request_id)
    then (p, false)
    else if not (a.absolute_offset == r.offset + p.request_received)
        || ltb (r.length - p.request_received) a.size
        || (a.null_pointer && not (a.size == 0))
    then (fail invalid_response p, false)
    else push_pushed a r (demux a.size a.during_push p)

abbrev pub if_requested :
    (RangeRequest → DurationProbe → DurationProbe × Bool)
    → Option RangeRequest
    → DurationProbe
    → DurationProbe × Bool
if_requested f none p = (p, false)
if_requested f (some r) p = f r p

unfoldable pub push_range : Pushed → DurationProbe → DurationProbe × Bool
push_range a p =
    if is_needing p.state then if_requested (push_requested a) p.request p else (p, false)

abbrev pub fail_requested : ℕ → RangeRequest → DurationProbe → DurationProbe × Bool
fail_requested request_id r p =
    if r.request_id == request_id then (fail source_error p, true) else (p, false)

unfoldable pub fail_range : ℕ → DurationProbe → DurationProbe × Bool
fail_range request_id p =
    if is_needing p.state then if_requested (fail_requested request_id) p.request p else (p, false)

abbrev pub is_over : DurationProbeState → Bool
is_over complete = true
is_over unknown_length = true
is_over failed = true
is_over _ = false

unfoldable pub cancel : DurationProbe → DurationProbe
cancel p = if is_over p.state then p else record p {
  generation = next_number p.generation;
  request = none;
  state = cancelled;
  failure = no_failure;
}

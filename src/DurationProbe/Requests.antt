-- ===== src/DurationProbe/Requests.antt =====
-- src/duration_probe.cpp, finish_request and what it calls: the end of a request, and the next one or
-- the result.
use libaribtlv.Types.{Timestamp}
use libaribtlv.Timeline.{microsecond_timescale}
use libaribtlv.Recording.{DurationStatus}
use libaribtlv.DurationProbe.Range.{
  VideoPresentationBoundary, VideoPresentationRange, union_video_presentation_ranges,
}
use libaribtlv.DurationProbe.Candidates.{
  VideoCandidate, belongs_to_selected_video_range, candidate_end_us, choose_candidate,
  choose_start_candidate, has_head_video, has_tail_video, reset_tail_statistics,
}
use libaribtlv.Base.{
  ℕ, ◌+◌, ◌-◌, ◌*◌, ◌/◌, min, Bool, true, false, ◌||◌, List, [], ◌∷◌, Option, none, some, ltb, leb,
  ◌==◌, if◌then◌else◌,
}
use libaribtlv.Base.Int.{ℤ, ◌-ℤ◌, wrap_int64}
use libaribtlv.DurationProbe.State.{
  RangeRequest, DurationProbeState, Phase, Callback, DurationProbe, is_needing, call, unknown,
  issue_request, complete, no_failure, no_video, no_tail_timestamp, range_limit, head,
  sequential_tail, tail, flush_demuxer, reposition,
}
use libaribtlv.DurationProbe.Callbacks.{react_all}

unfoldable pub boundaries :
    Option ℕ → List VideoCandidate → Bool → List VideoCandidate → List VideoPresentationBoundary
boundaries packet_id all at_tail [] = []
boundaries packet_id all at_tail (c ∷ cs) =
    let others = boundaries packet_id all at_tail cs in
    if belongs_to_selected_video_range packet_id all c
    then record { start_us = c.head_first_pts_us; end_us = candidate_end_us at_tail c } ∷ others
    else others

abbrev pub microseconds : ℤ → Timestamp
microseconds t = record { value = t; timescale = microsecond_timescale }

-- The source subtracts 64-bit numbers with no test; a difference above them is taken to wrap around,
-- as the machine's does, though C++ leaves it open.
unfoldable pub complete_from_range : Option VideoPresentationRange → DurationProbe → DurationProbe
complete_from_range none p = unknown no_tail_timestamp p
complete_from_range (some r) p = record p {
  presentation_start = some (microseconds r.start_us);
  presentation_end = some (microseconds r.end_us);
  duration = record {
    value = microseconds (wrap_int64 (r.end_us -ℤ r.start_us));
    status = DurationStatus.complete;
  };
  state = complete;
  failure = no_failure;
}

abbrev pub is_complete : DurationProbeState → Bool
is_complete complete = true
is_complete _ = false

abbrev pub packet_or : Option VideoCandidate → VideoCandidate → Option ℕ
packet_or none c = some c.info.packet_id
packet_or (some s) c = some s.info.packet_id

abbrev pub name_packets : VideoCandidate → DurationProbe → DurationProbe
name_packets c p =
    if is_complete p.state
    then record p {
      selected_video_packet_id =
          packet_or (choose_start_candidate p.options.video_packet_id p.candidates) c;
      presentation_end_video_packet_id = some c.info.packet_id;
    }
    else p

abbrev pub complete_with : Bool → Option VideoCandidate → DurationProbe → DurationProbe
complete_with at_tail none p = unknown (if at_tail then no_tail_timestamp else no_video) p
complete_with at_tail (some c) p = name_packets c (
    complete_from_range
      (union_video_presentation_ranges
        (boundaries p.options.video_packet_id p.candidates at_tail p.candidates))
      p)

unfoldable pub complete_from_candidates : Bool → DurationProbe → DurationProbe
complete_from_candidates at_tail p =
    complete_with at_tail (choose_candidate p.options.video_packet_id p.candidates at_tail) p

unfoldable pub issue_tail_request : DurationProbe → DurationProbe
issue_tail_request p =
    let offset = p.source_size - min p.source_size p.tail_window in
    issue_request offset (p.source_size - offset) (record (call (reposition offset) p) {
      candidates = reset_tail_statistics p.candidates;
      phase = tail;
    })

-- A window twice as large, up to the limit.
abbrev pub wider : ℕ → ℕ → ℕ
wider limit window = if ltb (limit / 2) window then limit else min limit (window * 2)

unfoldable pub widen_tail : DurationProbe → DurationProbe
widen_tail p =
    if leb p.options.max_range_size p.tail_window || leb p.source_size p.tail_window
    then unknown (if has_tail_video p.candidates then range_limit else no_tail_timestamp) p
    else issue_tail_request
        (record p { tail_window = wider p.options.max_range_size p.tail_window })

-- A flush with its callbacks, and what follows if they did not fail the probe.
abbrev pub after_flush :
    List Callback → (DurationProbe → DurationProbe) → DurationProbe → DurationProbe
after_flush during_flush next p =
    let q = react_all during_flush (call flush_demuxer p) in
    if is_needing q.state then next q else q

-- Twice the window from the start, up to the limit and to the size of the source.
abbrev pub head_target : DurationProbe → ℕ
head_target p =
    let limit = p.options.max_range_size in
    min p.source_size (min limit (if ltb (limit / 2) p.head_end then limit else p.head_end * 2))

unfoldable pub widen_head : DurationProbe → DurationProbe
widen_head p =
    if leb (head_target p) p.head_end
    then unknown no_video p
    else issue_request p.head_end (head_target p - p.head_end) p

abbrev pub turn_to_tail : DurationProbe → DurationProbe
turn_to_tail p =
    if leb (p.source_size - p.head_end) p.options.initial_range_size
    then issue_request p.head_end (p.source_size - p.head_end)
        (record p { phase = sequential_tail })
    else issue_tail_request
        (record p { tail_window = min p.options.initial_range_size p.source_size })

unfoldable pub finish_head_range : List Callback → DurationProbe → DurationProbe
finish_head_range during_flush p =
    if has_head_video p.candidates
    then (if p.head_end == p.source_size
        then after_flush during_flush (complete_from_candidates false) p
        else turn_to_tail p)
    else widen_head p

abbrev pub complete_or_widen : Option VideoCandidate → DurationProbe → DurationProbe
complete_or_widen none p = widen_tail p
complete_or_widen (some c) p = complete_from_candidates true p

abbrev pub finish_tail : DurationProbe → DurationProbe
finish_tail p = complete_or_widen (choose_candidate p.options.video_packet_id p.candidates true) p

abbrev pub finish_phase : List Callback → RangeRequest → Phase → DurationProbe → DurationProbe
finish_phase during_flush completed head p =
    finish_head_range during_flush (record p { head_end = completed.offset + completed.length })
finish_phase during_flush completed sequential_tail p =
    after_flush during_flush (complete_from_candidates false) p
finish_phase during_flush completed tail p = after_flush during_flush finish_tail p

unfoldable pub finish_request : List Callback → RangeRequest → DurationProbe → DurationProbe
finish_request during_flush completed p =
    finish_phase during_flush completed p.phase (record p { request = none })

-- ===== src/DurationProbe/Machine/Tests.antt =====
-- A probe of a recording of ten thousand bytes with one track.
use libaribtlv.Base.{ℕ, ◌≡◌, ◌+◌, ◌*◌, false, List, [], ◌∷◌, some, none}
use libaribtlv.Base.Int.{pos, ◌+ℤ◌}
use libaribtlv.Base.{◌<◌, refl, arith, true, All, inr}
use libaribtlv.DurationProbe.State.{RangeRequest, issue_request}
use libaribtlv.Types.{video, hevc}
use libaribtlv.AssetLayers.{TrackInfo}
use libaribtlv.DurationProbe.State.{
  DurationProbeOptions, idle, no_failure, head, Callback, on_track, on_access_unit, DurationProbe,
  no_duration, is_needing,
}
use libaribtlv.DurationProbe.Machine.{Pushed, begin, push_range}
use libaribtlv.DurationProbe.Valid.{IsValid}
use libaribtlv.DurationProbe.Range.{VideoPresentationBoundary, union_video_presentation_ranges}
use libaribtlv.DurationProbe.Range.Bounds.{Spans, union_video_presentation_ranges_lem}
use libaribtlv.DurationProbe.Progress.{rank, Outcome}
use libaribtlv.DurationProbe.Refusals.{Refused, cut_short, Effect, push_range-Refused}
use libaribtlv.DurationProbe.Candidates.{
  Statistics, VideoCandidate, no_statistics, choose_candidate,
}
use libaribtlv.DurationProbe.Candidates.Choice.{
  Chosen, EndFits, exact_end, eligible_in, choose_candidate_lem,
}
use libaribtlv.DurationProbe.Served.{serve, serve_ends, begin-Outcome, push_range-Outcome}

abbrev short_ranges : DurationProbeOptions
short_ranges = record {
  initial_range_size = 4000;
  max_range_size = 64000;
  service_context_id = none;
  video_packet_id = none;
}

abbrev new_probe : DurationProbe
new_probe = record {
  calls = [];
  options = short_ranges;
  state = idle;
  failure = no_failure;
  duration = no_duration;
  presentation_start = none;
  presentation_end = none;
  phase = head;
  source_size = 0;
  generation = 0;
  next_request_id = 0;
  request = none;
  request_received = 0;
  transferred_bytes = 0;
  head_end = 0;
  tail_window = 0;
  candidates = [];
  selected_video_packet_id = none;
  presentation_end_video_packet_id = none;
}

abbrev main_track : TrackInfo
main_track = record {
  track_id = 7;
  context_id = 1;
  packet_id = 256;
  kind = video;
  codec = hevc;
  asset_groups = [];
}

abbrev seen : ℕ → List Callback × List Callback
seen n = (
  on_track main_track
      ∷ on_access_unit 7 hevc (record { value = pos (9000 * n); timescale = 90000 })
      ∷ [],
  on_access_unit 7 hevc (record { value = pos (9000 * n + 1500); timescale = 90000 }) ∷ [],
)

serve_ends_example :
    let q = serve (2 * 10000 + 2) seen (begin 10000 short_ranges new_probe).0 in
    IsValid q × (is_needing q.state ≡ false)
serve_ends_example = serve_ends 10000 short_ranges seen new_probe

-- A part of the first range.
abbrev early : Pushed
early = record {
  request_id = 1;
  absolute_offset = 0;
  null_pointer = false;
  size = 100;
  end_of_range = false;
  during_push = [];
  during_flush = [];
}

abbrev begun : DurationProbe
begun = (begin 10000 short_ranges new_probe).0

push_range-Outcome_example : Outcome (rank begun + 1) begun.source_size (push_range early begun).0
push_range-Outcome_example =
    push_range-Outcome early begun (begin-Outcome 10000 short_ranges new_probe).valid

abbrev first_range : RangeRequest
first_range = record { generation = 1; request_id = 1; offset = 0; length = 4000 }

begun-request : begun.request ≡ some first_range
unfolding begin issue_request
begun-request = refl

begun-needing : is_needing begun.state ≡ true
unfolding begin issue_request
begun-needing = refl

-- A part that is said to be the end of the range.
abbrev cut_part : Pushed
cut_part = record {
  request_id = 1;
  absolute_offset = 0;
  null_pointer = false;
  size = 100;
  end_of_range = true;
  during_push = [];
  during_flush = [];
}

begun-received : begun.request_received + 100 < 4000
unfolding begin issue_request
begun-received = omega arith

abbrev cut_refused : Refused cut_part begun first_range
cut_refused = cut_short refl refl begun-received

push_range-Refused_example :
    Effect early cut_refused (push_range cut_part begun).0 × ((push_range cut_part begun).1 ≡ false)
push_range-Refused_example =
    push_range-Refused early cut_part begun first_range begun-needing begun-request cut_refused

-- Of two tracks that go on equally long the first is chosen.
abbrev counted : Statistics
counted = record {
  count = 3;
  previous = some (pos 66);
  maximum = some (pos 66);
  frame_duration = pos 33;
}

abbrev main_candidate : VideoCandidate
main_candidate = record {
  info = main_track;
  head_first_pts_us = some (pos 0);
  head = counted;
  tail = no_statistics;
}

abbrev pair : List VideoCandidate
pair =
    main_candidate
    ∷ record { info = main_track; head_first_pts_us = some (pos 0); head = counted; tail = counted }
    ∷ []

pair_fits : All (EndFits false) pair
unfolding ◌+ℤ◌
pair_fits = (inr (omega arith, omega arith), (inr (omega arith, omega arith), tt))

choose_candidate_lem_example :
    Chosen
      (eligible_in (some 256) pair false)
      (exact_end false)
      pair
      (choose_candidate (some 256) pair false)
choose_candidate_lem_example = choose_candidate_lem (some 256) pair false pair_fits

abbrev two_tracks : List VideoPresentationBoundary
two_tracks =
    record { start_us = some (pos 40); end_us = none }
    ∷ record { start_us = some (pos 20); end_us = some (pos 90) }
    ∷ []

union_video_presentation_ranges_lem_example :
    Spans two_tracks (union_video_presentation_ranges two_tracks)
union_video_presentation_ranges_lem_example = union_video_presentation_ranges_lem two_tracks

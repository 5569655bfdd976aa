-- ===== src/DurationProbe/State.antt =====
-- include/aribtlv/duration_probe.hpp and src/duration_probe.cpp: the state of a probe, the demuxer's
-- calls, and a request.
use libaribtlv.Types.{Timestamp, Codec}
use libaribtlv.Timeline.{microsecond_timescale}
use libaribtlv.Recording.{DurationInfo, DurationStatus}
use libaribtlv.AssetLayers.{TrackInfo}
use libaribtlv.DurationProbe.Candidates.{VideoCandidate}
use libaribtlv.Base.{
  ℕ, ◌+◌, ◌%◌, ◌^◌, Bool, true, false, List, ◌∷◌, Option, none, some, ◌==◌, if◌then◌else◌,
}
use libaribtlv.Base.Int.{pos}

pub record RangeRequest : Type 0 where
  pub generation : ℕ
  pub request_id : ℕ
  pub offset : ℕ
  pub length : ℕ

pub record DurationProbeOptions : Type 0 where
  pub initial_range_size : ℕ
  pub max_range_size : ℕ
  pub service_context_id : Option ℕ
  pub video_packet_id : Option ℕ

pub data DurationProbeState : Type 0 where
  idle need_range complete unknown_length failed cancelled : DurationProbeState

pub data DurationProbeFailure : Type 0 where
  no_failure invalid_source invalid_response source_error no_video : DurationProbeFailure
  no_tail_timestamp range_limit parse_error : DurationProbeFailure

pub data Phase : Type 0 where
  head sequential_tail tail : Phase

pub data DemuxerCall : Type 0 where
  reset_demuxer flush_demuxer : DemuxerCall
  select_service : Option ℕ → DemuxerCall
  select_track : ℕ → DemuxerCall
  push_demuxer : ℕ → DemuxerCall
  reposition : ℕ → DemuxerCall

-- What the demuxer calls back: a track, an access unit by its track, codec and time, an error by its
-- flag `recoverable`.
pub data Callback : Type 0 where
  on_track : TrackInfo → Callback
  on_access_unit : ℕ → Codec → Timestamp → Callback
  on_error : Bool → Callback

-- The calls of the demuxer are kept, the last one first.
pub record DurationProbe : Type 0 where
  pub calls : List DemuxerCall
  pub options : DurationProbeOptions
  pub state : DurationProbeState
  pub failure : DurationProbeFailure
  pub duration : DurationInfo
  pub presentation_start : Option Timestamp
  pub presentation_end : Option Timestamp
  pub phase : Phase
  pub source_size : ℕ
  pub generation : ℕ
  pub next_request_id : ℕ
  pub request : Option RangeRequest
  pub request_received : ℕ
  pub transferred_bytes : ℕ
  pub head_end : ℕ
  pub tail_window : ℕ
  pub candidates : List VideoCandidate
  pub selected_video_packet_id : Option ℕ
  pub presentation_end_video_packet_id : Option ℕ

abbrev pub no_duration : DurationInfo
no_duration = record {
  value = record { value = pos 0; timescale = microsecond_timescale };
  status = DurationStatus.unknown;
}

abbrev pub is_needing : DurationProbeState → Bool
is_needing need_range = true
is_needing _ = false

-- A 64-bit counter that skips zero.
abbrev pub nonzero : ℕ → ℕ
nonzero n = if n == 0 then 1 else n

abbrev pub next_number : ℕ → ℕ
next_number n = nonzero ((n + 1) % 2 ^ 64)

abbrev pub call : DemuxerCall → DurationProbe → DurationProbe
call c p = record p { calls = c ∷ p.calls }

-- `unknown` and `fail`.
abbrev pub give_up : DurationProbeState → DurationProbeFailure → DurationProbe → DurationProbe
give_up s f p = record p {
  request = none;
  duration = no_duration;
  presentation_start = none;
  presentation_end = none;
  state = s;
  failure = f;
}

abbrev pub unknown : DurationProbeFailure → DurationProbe → DurationProbe
unknown f p = give_up unknown_length f p

abbrev pub fail : DurationProbeFailure → DurationProbe → DurationProbe
fail f p = give_up failed f p

unfoldable pub issue_request : ℕ → ℕ → DurationProbe → DurationProbe
issue_request offset length p =
    let id = next_number p.next_request_id in
    record p {
      next_request_id = id;
      request =
          some (record {
            generation = p.generation;
            request_id = id;
            offset = offset;
            length = length;
          });
      request_received = 0;
      state = need_range;
    }

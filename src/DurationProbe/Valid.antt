-- ===== src/DurationProbe/Valid.antt =====
-- What each state of a probe means, and the parts of it that the callbacks leave.
use libaribtlv.Base.{
  ℕ, ◌+◌, ◌≤◌, ◌<◌, ◌≡◌, min, not, ◌&&◌, ◌||◌, List, [], ◌∷◌, Option, none, some, ◌==◌, if_both,
}
use libaribtlv.Base.Int.{ℤ, ◌-ℤ◌, ◌≤ℤ◌, ◌<ℤ◌, int64_max, wrap_int64}
use libaribtlv.Timeline.{microsecond_timescale, timestamp_microseconds}
use libaribtlv.Recording.{DurationStatus}
use libaribtlv.AssetLayers.{TrackInfo, is_video, any}
use libaribtlv.DurationProbe.Candidates.{VideoCandidate, fresh_candidate}
use libaribtlv.DurationProbe.State.{
  RangeRequest, DurationProbeState, need_range, complete, parse_error, Phase, head, sequential_tail,
  tail, DemuxerCall, select_track, Callback, on_track, on_access_unit, on_error, DurationProbe,
  no_duration, is_needing, fail,
}
use libaribtlv.DurationProbe.Callbacks.{
  asked_for, append_candidate, select_asked, take_time, is_hevc, take_track, take_access_unit,
  take_error, react, react_all,
}

-- Where a request lies, by the phase that it belongs to.
abbrev pub Placed : Phase → (offset length head_end source window limit : ℕ) → Type 0
Placed head offset length head_end source window limit = offset ≡ head_end
Placed sequential_tail offset length head_end source window limit =
    (offset ≡ head_end) × (offset + length ≡ source)
Placed tail offset length head_end source window limit =
    (offset + length ≡ source) × (length ≡ min source window) × (window ≤ limit)

-- The open request is not empty, lies in the source, and is no longer than the limit.
pub record Requested (p : DurationProbe) : Type 0 where
  pub asked : RangeRequest
  pub is_request : p.request ≡ some asked
  pub nonempty : 0 < asked.length
  pub inside : asked.offset + asked.length ≤ p.source_size
  pub limited : asked.length ≤ p.options.max_range_size
  pub counted : p.request_received ≤ asked.length
  pub placed :
      Placed p.phase asked.offset asked.length p.head_end p.source_size p.tail_window
        p.options.max_range_size
  pub initial_positive : 0 < p.options.initial_range_size
  pub initial_limited : p.options.initial_range_size ≤ p.options.max_range_size

-- The difference of two times, or what is left of it in 64 bits where it is above them.
pub data Measured (start end : ℤ) : ℤ → Type 0 where
  exactly : end -ℤ start ≤ℤ int64_max → Measured start end (end -ℤ start)
  overflown : int64_max <ℤ end -ℤ start → Measured start end (wrap_int64 (end -ℤ start))

-- The result: the times in order, and the duration between them.
pub record Completed (p : DurationProbe) : Type 0 where
  pub start : ℤ
  pub end : ℤ
  pub is_start :
      p.presentation_start ≡ some (record { value = start; timescale = microsecond_timescale })
  pub is_end : p.presentation_end ≡ some (record { value = end; timescale = microsecond_timescale })
  pub in_order : start ≤ℤ end
  pub length : ℤ
  pub measured : Measured start end length
  pub is_duration : p.duration ≡ record {
    value = record { value = length; timescale = microsecond_timescale };
    status = DurationStatus.complete;
  }
  pub closed : p.request ≡ none

abbrev pub Meaning : DurationProbeState → DurationProbe → Type 0
Meaning need_range p = Requested p
Meaning complete p = Completed p
Meaning _ p = (p.request ≡ none) × (p.duration ≡ no_duration)

abbrev pub IsValid : DurationProbe → Type 0
IsValid p = Meaning p.state p

-- The callbacks change the candidates and call the demuxer, and may fail the probe.
pub data Reacted (p : DurationProbe) : DurationProbe → Type 0 where
  kept :
      (cs : List VideoCandidate) (cl : List DemuxerCall)
      → Reacted p (record p { candidates = cs; calls = cl })
  broken :
      (cs : List VideoCandidate) (cl : List DemuxerCall)
      → Reacted p (record (fail parse_error p) { candidates = cs; calls = cl })

select_asked-Reacted :
    (o : Option ℕ) (info : TrackInfo) (cs : List VideoCandidate) (p : DurationProbe)
    → Reacted p (select_asked o info (record p { candidates = cs }))
select_asked-Reacted none info cs p = kept cs p.calls
select_asked-Reacted (some n) info cs p = kept cs (select_track info.track_id ∷ p.calls)

take_time-Reacted :
    (track_id : ℕ) (o : Option ℤ) (p : DurationProbe) → Reacted p (take_time track_id o p)
take_time-Reacted track_id none p = kept p.candidates p.calls
take_time-Reacted track_id (some pts) p = kept _ p.calls

react-Reacted : (c : Callback) (p : DurationProbe) → Reacted p (react c p)
unfolding take_track take_access_unit take_error
react-Reacted (on_track info) p =
    if_both (Reacted p) (not (is_video info.kind) || not (is_hevc info.codec))
      (kept p.candidates p.calls)
      (if_both (Reacted p) (not (asked_for p.options.video_packet_id info))
        (kept p.candidates p.calls)
        (if_both (Reacted p)
          (any (λ (c : VideoCandidate). c.info.track_id == info.track_id) p.candidates)
          (kept p.candidates p.calls)
          (select_asked-Reacted p.options.video_packet_id info
            (append_candidate p.candidates (fresh_candidate info)) p)))
react-Reacted (on_access_unit track_id codec pts) p =
    if_both (Reacted p) (is_hevc codec) (take_time-Reacted track_id (timestamp_microseconds pts) p)
      (kept p.candidates p.calls)
react-Reacted (on_error recoverable) p =
    if_both (Reacted p) (not recoverable && is_needing p.state) (broken p.candidates p.calls)
      (kept p.candidates p.calls)

Reacted-trans : (p q r : DurationProbe) → Reacted p q → Reacted q r → Reacted p r
Reacted-trans p q r (kept a b) (kept c d) = kept c d
Reacted-trans p q r (kept a b) (broken c d) = broken c d
Reacted-trans p q r (broken a b) (kept c d) = broken c d
Reacted-trans p q r (broken a b) (broken c d) = broken c d

pub react_all-Reacted : (cs : List Callback) (p : DurationProbe) → Reacted p (react_all cs p)
unfolding react_all
react_all-Reacted [] p = kept p.candidates p.calls
react_all-Reacted (c ∷ cs) p =
    Reacted-trans p (react c p) (react_all cs (react c p)) (react-Reacted c p)
      (react_all-Reacted cs (react c p))

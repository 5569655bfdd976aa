-- ===== src/DurationProbe/Callbacks.antt =====
-- src/duration_probe.cpp, onTrack, onAccessUnit and onError: what the demuxer calls back.
use libaribtlv.Types.{Timestamp, Codec, hevc}
use libaribtlv.Timeline.{timestamp_microseconds}
use libaribtlv.AssetLayers.{TrackInfo, is_video, any}
use libaribtlv.DurationProbe.Candidates.{
  VideoCandidate, fresh_candidate, observe_head, observe_tail,
}
use libaribtlv.Base.{
  ℕ, Bool, true, false, not, ◌&&◌, ◌||◌, List, [], ◌∷◌, Option, none, some, ◌==◌, if◌then◌else◌,
}
use libaribtlv.Base.Int.{ℤ}
use libaribtlv.DurationProbe.State.{
  Phase, Callback, DurationProbe, is_needing, call, fail, parse_error, tail, select_track, on_track,
  on_access_unit, on_error,
}

abbrev pub asked_for : Option ℕ → TrackInfo → Bool
asked_for none info = true
asked_for (some packet_id) info = info.packet_id == packet_id

abbrev pub select_asked : Option ℕ → TrackInfo → DurationProbe → DurationProbe
select_asked none info p = p
select_asked (some packet_id) info p = call (select_track info.track_id) p

abbrev pub is_hevc : Codec → Bool
is_hevc hevc = true
is_hevc _ = false

unfoldable pub append_candidate : List VideoCandidate → VideoCandidate → List VideoCandidate
append_candidate [] c = c ∷ []
append_candidate (d ∷ ds) c = d ∷ append_candidate ds c

unfoldable pub take_track : TrackInfo → DurationProbe → DurationProbe
take_track info p =
    if not (is_video info.kind) || not (is_hevc info.codec)
    then p
    else if not (asked_for p.options.video_packet_id info)
    then p
    else if any (λ (c : VideoCandidate). c.info.track_id == info.track_id) p.candidates
    then p
    else select_asked p.options.video_packet_id info
        (record p { candidates = append_candidate p.candidates (fresh_candidate info) })

-- The first candidate of the track is changed.
unfoldable pub change_track :
    ℕ → (VideoCandidate → VideoCandidate) → List VideoCandidate → List VideoCandidate
change_track track_id f [] = []
change_track track_id f (c ∷ cs) =
    let others = change_track track_id f cs in
    if c.info.track_id == track_id then f c ∷ cs else c ∷ others

abbrev pub observer : Phase → ℤ → VideoCandidate → VideoCandidate
observer tail pts = observe_tail pts
observer _ pts = observe_head pts

abbrev pub take_time : ℕ → Option ℤ → DurationProbe → DurationProbe
take_time track_id none p = p
take_time track_id (some pts) p = record p {
  candidates = change_track track_id (observer p.phase pts) p.candidates;
}

unfoldable pub take_access_unit : ℕ → Codec → Timestamp → DurationProbe → DurationProbe
take_access_unit track_id codec pts p =
    if is_hevc codec then take_time track_id (timestamp_microseconds pts) p else p

unfoldable pub take_error : Bool → DurationProbe → DurationProbe
take_error recoverable p = if not recoverable && is_needing p.state then fail parse_error p else p

abbrev pub react : Callback → DurationProbe → DurationProbe
react (on_track info) p = take_track info p
react (on_access_unit track_id codec pts) p = take_access_unit track_id codec pts p
react (on_error recoverable) p = take_error recoverable p

unfoldable pub react_all : List Callback → DurationProbe → DurationProbe
react_all [] p = p
react_all (c ∷ cs) p = react_all cs (react c p)

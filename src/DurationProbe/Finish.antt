-- ===== src/DurationProbe/Finish.antt =====
-- The end of a request, by its phase, and a push.

use libaribtlv.Base.{
  ℕ, ◌+◌, ◌-◌, ◌≤◌, ◌<◌, ◌≡◌, refl, min, true, false, List, Option, none, some, ◌==◌, if_with,
  arith,
}
use libaribtlv.DurationProbe.Candidates.{VideoCandidate, choose_candidate, has_head_video}
use libaribtlv.DurationProbe.State.{
  RangeRequest, Phase, head, sequential_tail, tail, Callback, DurationProbe, is_needing,
}
use libaribtlv.DurationProbe.Requests.{
  complete_from_candidates, finish_head_range, complete_or_widen, finish_tail, finish_phase,
  finish_request,
}
use libaribtlv.DurationProbe.Valid.{Placed, Requested}
use libaribtlv.DurationProbe.Progress.{
  rank_in, rank, Outcome, Bounded, complete_from_candidates-Outcome, widen_tail-Outcome,
  widen_head-Outcome, turn_to_tail-Outcome, after_flush-Outcome,
}

finish_tail-Outcome :
    (bound : ℕ) (p : DurationProbe)
    → Bounded p
    → 0 < p.tail_window
    → 0 < p.source_size
    → p.request ≡ none
    → p.source_size - min p.source_size p.tail_window ≤ bound
    → Outcome bound p.source_size (finish_tail p)
finish_tail-Outcome bound p b w s n low =
    go (choose_candidate p.options.video_packet_id p.candidates true)
  where
    go : (o : Option VideoCandidate) → Outcome bound p.source_size (complete_or_widen o p)
    go none = widen_tail-Outcome bound p b w s low
    go (some c) = complete_from_candidates-Outcome bound p true n

finish_head_range-Outcome :
    (bound : ℕ) (cs : List Callback) (p : DurationProbe)
    → Bounded p
    → p.head_end ≤ p.source_size
    → p.phase ≡ head
    → p.request ≡ none
    → is_needing p.state ≡ true
    → p.source_size + 1 + (p.source_size - p.head_end) < bound
    → Outcome bound p.source_size (finish_head_range cs p)
unfolding finish_head_range
finish_head_range-Outcome bound cs p b s h n d low =
    if_with (Outcome bound p.source_size) (has_head_video p.candidates)
      (λ y.
        if_with (Outcome bound p.source_size) (p.head_end == p.source_size)
          (λ all.
            after_flush-Outcome bound cs (complete_from_candidates false) p
              (λ c cl.
                complete_from_candidates-Outcome bound (record p { candidates = c; calls = cl })
                  false n)
              d)
          (λ part. turn_to_tail-Outcome bound p b (ground arith) (omega arith)))
      (λ m. widen_head-Outcome bound p b s h low)

finish_phase-Outcome :
    (cs : List Callback) (r : RangeRequest) (ph : Phase) (p : DurationProbe)
    → p.phase ≡ ph
    → Bounded p
    → p.request ≡ none
    → is_needing p.state ≡ true
    → 0 < r.length
    → r.offset + r.length ≤ p.source_size
    → Placed ph r.offset r.length p.head_end p.source_size p.tail_window p.options.max_range_size
    → Outcome
        (rank_in ph p.source_size p.head_end p.tail_window)
        p.source_size
        (finish_phase cs r ph p)
finish_phase-Outcome cs r head p h b n d pos inside placed =
    finish_head_range-Outcome (p.source_size + 1 + (p.source_size - p.head_end)) cs
      (record p { head_end = r.offset + r.length })
      (record { initial_positive = b.initial_positive; initial_limited = b.initial_limited }) inside
      h n d (omega (arith, placed))
finish_phase-Outcome cs r sequential_tail p h b n d pos inside placed =
    after_flush-Outcome 0 cs (complete_from_candidates false) p
      (λ c cl. complete_from_candidates-Outcome 0 (record p { candidates = c; calls = cl }) false n)
      d
finish_phase-Outcome cs r tail p h b n d pos inside placed =
    after_flush-Outcome (p.source_size - min p.source_size p.tail_window) cs finish_tail p
      (λ c cl.
        finish_tail-Outcome (p.source_size - min p.source_size p.tail_window)
          (record p { candidates = c; calls = cl })
          (record { initial_positive = b.initial_positive; initial_limited = b.initial_limited })
          (omega (arith, placed.1)) (omega arith) n (omega arith))
      d

pub finish_request-Outcome :
    (cs : List Callback) (p : DurationProbe) (r : Requested p)
    → is_needing p.state ≡ true
    → Outcome (rank p) p.source_size (finish_request cs r.asked p)
unfolding finish_request
finish_request-Outcome cs p r d =
    finish_phase-Outcome cs r.asked p.phase (record p { request = none }) refl
      (record { initial_positive = r.initial_positive; initial_limited = r.initial_limited }) refl d
      r.nonempty r.inside r.placed

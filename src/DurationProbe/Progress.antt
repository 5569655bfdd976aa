-- ===== src/DurationProbe/Progress.antt =====
-- The end of a request: a result, or the next request, which is nearer to the end of the search.
use mathlib.Core.Path.{subst}
use libaribtlv.Base.{
  ℕ, ◌+◌, ◌-◌, ◌/◌, ◌≤◌, ◌<◌, ◌≡◌, refl, sym, ap, min, Bool, true, false, ◌||◌, Bool-cases, inl,
  inr, List, Option, none, some, ltb, leb, if◌then◌else◌, if_with, arith,
}
use libaribtlv.Base.Int.{
  ℤ, ◌≤ℤ◌, ltb_ℤ, leb_ℤ, ◌-ℤ◌, -ℤ_parts, int64_max, InInt64, wrap_int64, wrap_int64-exact,
}
use libaribtlv.DurationProbe.Range.{
  VideoPresentationBoundary, VideoPresentationRange, range_of, best_from, starts, ends, later,
  union_video_presentation_ranges,
}
use libaribtlv.DurationProbe.Candidates.{
  VideoCandidate, choose_candidate, has_tail_video, reset_tail_statistics,
}
use libaribtlv.DurationProbe.State.{
  DurationProbeFailure, no_video, no_tail_timestamp, range_limit, Phase, head, sequential_tail,
  tail, DemuxerCall, flush_demuxer, reposition, Callback, DurationProbe, is_needing, unknown, call,
  issue_request,
}
use libaribtlv.DurationProbe.Callbacks.{react_all}
use libaribtlv.DurationProbe.Requests.{
  boundaries, complete_from_range, name_packets, complete_with, complete_from_candidates,
  issue_tail_request, wider, widen_tail, after_flush, head_target, widen_head, turn_to_tail,
}
use libaribtlv.DurationProbe.Valid.{
  Measured, Placed, IsValid, Reacted, kept, broken, react_all-Reacted,
}

-- How far the search may still go.
abbrev pub rank_in : Phase → (source head_end window : ℕ) → ℕ
rank_in head source head_end window = source + 1 + (source - head_end)
rank_in sequential_tail source head_end window = 0
rank_in tail source head_end window = source - min source window

abbrev pub rank : DurationProbe → ℕ
rank p = rank_in p.phase p.source_size p.head_end p.tail_window

-- What a step leaves: a valid probe of the same source, whose request, if it has one, is
-- below the bound.
pub record Outcome (bound source : ℕ) (q : DurationProbe) : Type 0 where
  pub valid : IsValid q
  pub below : is_needing q.state ≡ true → rank q < bound
  pub same_source : q.source_size ≡ source

pub unknown-Outcome :
    (bound : ℕ) (p : DurationProbe) (f : DurationProbeFailure)
    → Outcome bound p.source_size (unknown f p)
unknown-Outcome bound p f = record { valid = (refl, refl); below = λ n. cc n; same_source = refl }

-- The bounds of the search that hold in every phase.
pub record Bounded (p : DurationProbe) : Type 0 where
  pub initial_positive : 0 < p.options.initial_range_size
  pub initial_limited : p.options.initial_range_size ≤ p.options.max_range_size

range_or : VideoPresentationRange → Option VideoPresentationRange → VideoPresentationRange
range_or d none = d
range_or d (some r) = r

some_is : {r s : VideoPresentationRange} → some r ≡ some s → r ≡ s
unfolding range_or
some_is {r} {s} e = ap (range_or r) e

range_of-in_order :
    (s e : Option ℤ) {r : VideoPresentationRange} → range_of s e ≡ some r → r.start_us ≤ℤ r.end_us
range_of-in_order none e h = cc h
range_of-in_order (some s) none h = cc h
range_of-in_order (some s) (some e) {r} h = elim (Bool-cases (ltb_ℤ e s)) [
  | inl y ↦ cc (rw y at h)
  | inr n ↦
      let same : some (record { start_us = s; end_us = e }) ≡ some r = rw n at h in
      subst (λ x. x.start_us ≤ℤ x.end_us) (some_is same) (ground arith)
]

measured_lem : (a b : ℤ) → a ≤ℤ b → Measured a b (wrap_int64 (b -ℤ a))
measured_lem a b h = elim (Bool-cases (leb_ℤ (b -ℤ a) int64_max)) [
  | inl y ↦
      let within : InInt64 (b -ℤ a) = (omega (arith, -ℤ_parts b a), ground arith) in
      subst (Measured a b) (sym (wrap_int64-exact (b -ℤ a) within)) (Measured.exactly within.1)
  | inr n ↦ Measured.overflown (ground arith)
]

complete_from_range-Outcome :
    (bound : ℕ) (p : DurationProbe) (o : Option VideoPresentationRange) (c : VideoCandidate)
    → p.request ≡ none
    → ((r : VideoPresentationRange) → o ≡ some r → r.start_us ≤ℤ r.end_us)
    → Outcome bound p.source_size (name_packets c (complete_from_range o p))
unfolding complete_from_range
complete_from_range-Outcome bound p none c n h = unknown-Outcome bound p no_tail_timestamp
complete_from_range-Outcome bound p (some r) c n h = record {
  valid = record {
    start = r.start_us;
    end = r.end_us;
    is_start = refl;
    is_end = refl;
    in_order = h r refl;
    length = wrap_int64 (r.end_us -ℤ r.start_us);
    measured = measured_lem r.start_us r.end_us (h r refl);
    is_duration = refl;
    closed = n;
  };
  below = λ d. cc d;
  same_source = refl;
}

pub complete_from_candidates-Outcome :
    (bound : ℕ) (p : DurationProbe) (at_tail : Bool)
    → p.request ≡ none
    → Outcome bound p.source_size (complete_from_candidates at_tail p)
unfolding complete_from_candidates union_video_presentation_ranges
complete_from_candidates-Outcome bound p at_tail n =
    go (choose_candidate p.options.video_packet_id p.candidates at_tail)
  where
    bs : List VideoPresentationBoundary
    bs = boundaries p.options.video_packet_id p.candidates at_tail p.candidates

    go : (o : Option VideoCandidate) → Outcome bound p.source_size (complete_with at_tail o p)
    go none = unknown-Outcome bound p (if at_tail then no_tail_timestamp else no_video)
    go (some c) =
        complete_from_range-Outcome bound p
          (range_of (best_from ltb_ℤ none (starts bs)) (best_from later none (ends bs))) c n
          (λ r.
            range_of-in_order (best_from ltb_ℤ none (starts bs)) (best_from later none (ends bs)))

pub issue_request-Outcome :
    (bound offset length : ℕ) (p : DurationProbe)
    → Bounded p
    → 0 < length
    → offset + length ≤ p.source_size
    → length ≤ p.options.max_range_size
    → Placed p.phase offset length p.head_end p.source_size p.tail_window p.options.max_range_size
    → rank p < bound
    → Outcome bound p.source_size (issue_request offset length p)
unfolding issue_request
issue_request-Outcome bound offset length p b pos inside limit placed low = record {
  valid = record {
    asked = _;
    is_request = refl;
    nonempty = pos;
    inside = inside;
    limited = limit;
    counted = omega arith;
    placed = placed;
    initial_positive = b.initial_positive;
    initial_limited = b.initial_limited;
  };
  below = λ d. low;
  same_source = refl;
}

issue_tail_request-Outcome :
    (bound : ℕ) (p : DurationProbe)
    → Bounded p
    → 0 < p.tail_window
    → 0 < p.source_size
    → p.tail_window ≤ p.options.max_range_size
    → p.source_size - min p.source_size p.tail_window < bound
    → Outcome bound p.source_size (issue_tail_request p)
unfolding issue_tail_request
issue_tail_request-Outcome bound p b w s l low =
    let size = min p.source_size p.tail_window in
    issue_request-Outcome bound (p.source_size - size) (p.source_size - (p.source_size - size))
      (record (call (reposition (p.source_size - size)) p) {
        candidates = reset_tail_statistics p.candidates;
        phase = tail;
      })
      (record { initial_positive = b.initial_positive; initial_limited = b.initial_limited })
      (omega arith) (omega arith) (omega arith) (omega arith, omega arith, l) low

wider-grows :
    (limit window : ℕ)
    → 0 < window
    → window < limit
    → (window < wider limit window) × (wider limit window ≤ limit)
wider-grows limit window p l =
    if_with (λ w. (window < w) × (w ≤ limit)) (ltb (limit / 2) window) (λ y. (l, omega arith))
      (λ n. (ground arith, omega arith))

both_false : (a b : Bool) → (a || b) ≡ false → (a ≡ false) × (b ≡ false)
both_false true b h = cc h
both_false false b h = (refl, h)

leb-false : (a b : ℕ) → leb a b ≡ false → b < a
leb-false a b h = ground arith

leb-true : (a b : ℕ) → leb a b ≡ true → a ≤ b
leb-true a b h = ground arith

pub widen_tail-Outcome :
    (bound : ℕ) (p : DurationProbe)
    → Bounded p
    → 0 < p.tail_window
    → 0 < p.source_size
    → p.source_size - min p.source_size p.tail_window ≤ bound
    → Outcome bound p.source_size (widen_tail p)
unfolding widen_tail
widen_tail-Outcome bound p b w s low =
    if_with (Outcome bound p.source_size)
      (leb p.options.max_range_size p.tail_window || leb p.source_size p.tail_window)
      (λ y.
        unknown-Outcome bound p
          (if has_tail_video p.candidates then range_limit else no_tail_timestamp))
      (λ n.
        let (a, c) =
          both_false (leb p.options.max_range_size p.tail_window) (leb p.source_size p.tail_window)
            n in
        let l = leb-false p.options.max_range_size p.tail_window a in
        let t = leb-false p.source_size p.tail_window c in
        let (grown, limited) = wider-grows p.options.max_range_size p.tail_window w l in
        issue_tail_request-Outcome bound
          (record p { tail_window = wider p.options.max_range_size p.tail_window })
          (record { initial_positive = b.initial_positive; initial_limited = b.initial_limited })
          (omega (arith, grown)) s limited (omega (arith, grown, low, t)))

pub widen_head-Outcome :
    (bound : ℕ) (p : DurationProbe)
    → Bounded p
    → p.head_end ≤ p.source_size
    → p.phase ≡ head
    → p.source_size + 1 + (p.source_size - p.head_end) < bound
    → Outcome bound p.source_size (widen_head p)
unfolding widen_head
widen_head-Outcome bound p b s h low =
    if_with (Outcome bound p.source_size) (leb (head_target p) p.head_end)
      (λ y. unknown-Outcome bound p no_video)
      (λ n.
        let more = leb-false (head_target p) p.head_end n in
        issue_request-Outcome bound p.head_end (head_target p - p.head_end) p b
          (omega (arith, more)) (omega (arith, more)) (omega arith)
          (subst
            (λ ph.
              Placed ph p.head_end (head_target p - p.head_end) p.head_end p.source_size
                p.tail_window p.options.max_range_size)
            (sym h) refl)
          (subst (λ ph. rank_in ph p.source_size p.head_end p.tail_window < bound) (sym h) low))

pub turn_to_tail-Outcome :
    (bound : ℕ) (p : DurationProbe)
    → Bounded p
    → p.head_end < p.source_size
    → p.source_size < bound
    → Outcome bound p.source_size (turn_to_tail p)
turn_to_tail-Outcome bound p b l low =
    if_with (Outcome bound p.source_size)
      (leb (p.source_size - p.head_end) p.options.initial_range_size)
      (λ y.
        let few = leb-true (p.source_size - p.head_end) p.options.initial_range_size y in
        issue_request-Outcome bound p.head_end (p.source_size - p.head_end)
          (record p { phase = sequential_tail })
          (record { initial_positive = b.initial_positive; initial_limited = b.initial_limited })
          (omega arith) (omega arith) (omega (arith, few, b.initial_limited)) (refl, omega arith)
          (omega arith))
      (λ n.
        issue_tail_request-Outcome bound
          (record p { tail_window = min p.options.initial_range_size p.source_size })
          (record { initial_positive = b.initial_positive; initial_limited = b.initial_limited })
          (omega (arith, b.initial_positive)) (omega arith) (omega (arith, b.initial_limited))
          (omega arith))

pub after_flush-Outcome :
    (bound : ℕ) (cs : List Callback) (next : DurationProbe → DurationProbe) (p : DurationProbe)
    → ((c : List VideoCandidate) (cl : List DemuxerCall)
        → Outcome bound p.source_size (next (record p { candidates = c; calls = cl })))
    → is_needing p.state ≡ true
    → Outcome bound p.source_size (after_flush cs next p)
after_flush-Outcome bound cs next p h n =
    go (react_all cs (call flush_demuxer p)) (react_all-Reacted cs (call flush_demuxer p))
  where
    go :
        (q : DurationProbe)
        → Reacted (call flush_demuxer p) q
        → Outcome bound p.source_size (if is_needing q.state then next q else q)
    go _ (kept c cl) = rw n (h c cl)
    go _ (broken c cl) = record { valid = (refl, refl); below = λ d. cc d; same_source = refl }

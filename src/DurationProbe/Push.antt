-- ===== src/DurationProbe/Push.antt =====
-- Every operation of a probe keeps it valid, and a push takes it no further from the end.
use mathlib.Core.Path.{subst}
use libaribtlv.Base.{ℕ, ◌+◌, ◌≤◌, ◌≡◌, refl, sym, Bool, true, not, List, ◌==◌, if_both, arith}
use libaribtlv.DurationProbe.Candidates.{VideoCandidate}
use libaribtlv.DurationProbe.State.{
  DurationProbeState, idle, need_range, complete, unknown_length, failed, cancelled,
  invalid_response, parse_error, DemuxerCall, push_demuxer, Callback, DurationProbe, is_needing,
  fail, call,
}
use libaribtlv.DurationProbe.Callbacks.{react_all}
use libaribtlv.DurationProbe.Machine.{Pushed, demux, count_received, end_range, push_pushed}
use libaribtlv.DurationProbe.Valid.{
  Requested, Meaning, IsValid, Reacted, kept, broken, react_all-Reacted,
}
use libaribtlv.DurationProbe.Progress.{rank, Outcome}
use libaribtlv.DurationProbe.Finish.{finish_request-Outcome}

pub fail-Outcome :
    (bound : ℕ) (p : DurationProbe) → Outcome bound p.source_size (fail invalid_response p)
fail-Outcome bound p = record { valid = (refl, refl); below = λ n. cc n; same_source = refl }

-- A valid probe that needs a range has a request.
pub requested : (p : DurationProbe) → IsValid p → is_needing p.state ≡ true → Requested p
requested p v n = go p.state v n
  where
    go : (s : DurationProbeState) → Meaning s p → is_needing s ≡ true → Requested p
    go need_range m n = m
    go idle m n = cc n
    go complete m n = cc n
    go unknown_length m n = cc n
    go failed m n = cc n
    go cancelled m n = cc n

-- The probe as it is.
pub same-Outcome : (p : DurationProbe) → IsValid p → Outcome (rank p + 1) p.source_size p
same-Outcome p v = record { valid = v; below = λ n. omega arith; same_source = refl }

needing : (s : DurationProbeState) → is_needing s ≡ true → s ≡ need_range
needing need_range n = refl
needing idle n = cc n
needing complete n = cc n
needing unknown_length n = cc n
needing failed n = cc n
needing cancelled n = cc n

-- More of the request is received.
count_received-Requested :
    (size : ℕ) (p : DurationProbe) (r : Requested p)
    → p.request_received + size ≤ r.asked.length
    → (q : Requested (count_received size p)) × (q.asked ≡ r.asked)
count_received-Requested size p r l = (
  record {
    asked = r.asked;
    is_request = r.is_request;
    nonempty = r.nonempty;
    inside = r.inside;
    limited = r.limited;
    counted = l;
    placed = r.placed;
    initial_positive = r.initial_positive;
    initial_limited = r.initial_limited;
  },
  refl,
)

Outcome-weaken :
    (a b source : ℕ) (q : DurationProbe) → a ≤ b → Outcome a source q → Outcome b source q
Outcome-weaken a b source q l o = record {
  valid = o.valid;
  below = λ n. omega (arith, o.below n);
  same_source = o.same_source;
}

end_range-Outcome :
    (cs : List Callback) (p : DurationProbe) (r : Requested p)
    → is_needing p.state ≡ true
    → Outcome (rank p) p.source_size (end_range cs r.asked p).0
end_range-Outcome cs p r n =
    if_both (λ (x : DurationProbe × Bool). Outcome (rank p) p.source_size x.0)
      (not (p.request_received == r.asked.length)) (fail-Outcome (rank p) p)
      (finish_request-Outcome cs p r n)

end_received-Outcome :
    (cs : List Callback) (size : ℕ) (p : DurationProbe) (r : Requested p)
    → is_needing p.state ≡ true
    → p.request_received + size ≤ r.asked.length
    → Outcome (rank p) p.source_size (end_range cs r.asked (count_received size p)).0
end_received-Outcome cs size p r n l =
    let (q, e) = count_received-Requested size p r l in
    subst (λ x. Outcome (rank p) p.source_size (end_range cs x (count_received size p)).0) e
      (end_range-Outcome cs (count_received size p) q n)

received-Outcome :
    (size : ℕ) (p : DurationProbe) (r : Requested p)
    → is_needing p.state ≡ true
    → p.request_received + size ≤ r.asked.length
    → Outcome (rank p + 1) p.source_size (count_received size p)
received-Outcome size p r n l = record {
  valid =
      subst (λ s. Meaning s (count_received size p)) (sym (needing p.state n))
        (count_received-Requested size p r l).0;
  below = λ n. omega arith;
  same_source = refl;
}

pub push_pushed-Outcome :
    (a : Pushed) (p : DurationProbe) (r : Requested p)
    → is_needing p.state ≡ true
    → p.request_received + a.size ≤ r.asked.length
    → Outcome (rank p + 1) p.source_size (push_pushed a r.asked p).0
unfolding push_pushed
push_pushed-Outcome a p r n l = rw n (
    if_both (λ (x : DurationProbe × Bool). Outcome (rank p + 1) p.source_size x.0)
      (not a.end_of_range) (received-Outcome a.size p r n l)
      (Outcome-weaken (rank p) (rank p + 1) p.source_size
        (end_range a.during_flush r.asked (count_received a.size p)).0 (omega arith)
        (end_received-Outcome a.during_flush a.size p r n l)))

-- The whole of what is left ends the request.
pub push_last-Outcome :
    (a : Pushed) (p : DurationProbe) (r : Requested p)
    → is_needing p.state ≡ true
    → p.request_received + a.size ≤ r.asked.length
    → a.end_of_range ≡ true
    → Outcome (rank p) p.source_size (push_pushed a r.asked p).0
unfolding push_pushed
push_last-Outcome a p r n l e = rw n (rw e (end_received-Outcome a.during_flush a.size p r n l))

-- What holds of the probe after the demuxer has read the bytes.
pub demux-lem :
    (P : DurationProbe → Type 0) (size : ℕ) (cs : List Callback) (p : DurationProbe)
    → ((c : List VideoCandidate) (cl : List DemuxerCall)
        → P (record p { candidates = c; calls = cl }))
    → ((c : List VideoCandidate) (cl : List DemuxerCall)
        → P (record (fail parse_error p) { candidates = c; calls = cl }))
    → P (demux size cs p)
demux-lem P size cs p k b = if_both P (size == 0) (k p.candidates p.calls) (
    go (react_all cs (call (push_demuxer size) p))
      (react_all-Reacted cs (call (push_demuxer size) p)))
  where
    go : (q : DurationProbe) → Reacted (call (push_demuxer size) p) q → P q
    go _ (kept c cl) = k c cl
    go _ (broken c cl) = b c cl

-- The callbacks leave the request.
pub with_candidates :
    (p : DurationProbe) (r : Requested p) (c : List VideoCandidate) (cl : List DemuxerCall)
    → (q : Requested (record p { candidates = c; calls = cl })) × (q.asked ≡ r.asked)
with_candidates p r c cl = (
  record {
    asked = r.asked;
    is_request = r.is_request;
    nonempty = r.nonempty;
    inside = r.inside;
    limited = r.limited;
    counted = r.counted;
    placed = r.placed;
    initial_positive = r.initial_positive;
    initial_limited = r.initial_limited;
  },
  refl,
)

-- ===== src/DurationProbe/Served.antt =====
-- Every operation keeps a probe valid, and a probe whose requests are answered comes to an end.
use mathlib.Core.Path.{subst}
use libaribtlv.Base.{
  ℕ, zero, suc, ◌+◌, ◌-◌, ◌*◌, ◌≤◌, ◌<◌, ◌≡◌, refl, sym, min, Bool, true, false, not, ◌&&◌, ◌||◌,
  Bool-cases, inl, inr, List, Option, none, some, ltb, ◌==◌, if_with, arith,
}
use libaribtlv.DurationProbe.State.{
  RangeRequest, DurationProbeOptions, invalid_source, head, select_service, Callback, DurationProbe,
  is_needing, call,
}
use libaribtlv.DurationProbe.Machine.{
  Pushed, demux, push_pushed, push_requested, if_requested, push_range, cleared, begin, next_range,
}
use libaribtlv.DurationProbe.Valid.{Requested, IsValid}
use libaribtlv.DurationProbe.Progress.{rank, Outcome, unknown-Outcome, issue_request-Outcome}
use libaribtlv.DurationProbe.Push.{
  requested, same-Outcome, fail-Outcome, push_pushed-Outcome, push_last-Outcome, demux-lem,
  with_candidates,
}

pushed-Outcome :
    (a : Pushed) (p : DurationProbe) (r : Requested p)
    → is_needing p.state ≡ true
    → p.request_received + a.size ≤ r.asked.length
    → Outcome (rank p + 1) p.source_size (push_pushed a r.asked (demux a.size a.during_push p)).0
unfolding push_pushed
pushed-Outcome a p r n l =
    demux-lem (λ q. Outcome (rank p + 1) p.source_size (push_pushed a r.asked q).0) a.size
      a.during_push p
      (λ c cl.
        let (q, e) = with_candidates p r c cl in
        subst
          (λ x.
            Outcome (rank p + 1) p.source_size
              (push_pushed a x (record p { candidates = c; calls = cl })).0)
          e (push_pushed-Outcome a (record p { candidates = c; calls = cl }) q n (rw e l)))
      (λ c cl. record { valid = (refl, refl); below = λ d. cc d; same_source = refl })

-- The bytes that are left, all at once.
pushed_last-Outcome :
    (a : Pushed) (p : DurationProbe) (r : Requested p)
    → is_needing p.state ≡ true
    → p.request_received + a.size ≤ r.asked.length
    → a.end_of_range ≡ true
    → Outcome (rank p) p.source_size (push_pushed a r.asked (demux a.size a.during_push p)).0
unfolding push_pushed
pushed_last-Outcome a p r n l last =
    demux-lem (λ q. Outcome (rank p) p.source_size (push_pushed a r.asked q).0) a.size a.during_push
      p
      (λ c cl.
        let (q, e) = with_candidates p r c cl in
        subst
          (λ x.
            Outcome (rank p) p.source_size
              (push_pushed a x (record p { candidates = c; calls = cl })).0)
          e (push_last-Outcome a (record p { candidates = c; calls = cl }) q n (rw e l) last))
      (λ c cl. record { valid = (refl, refl); below = λ d. cc d; same_source = refl })

fits_in :
    (a : Pushed) (r : RangeRequest) (received : ℕ)
    → received ≤ r.length
    → ltb (r.length - received) a.size ≡ false
    → received + a.size ≤ r.length
fits_in a r received l h = ground arith

middle_false : (a b c : Bool) → (a || b || c) ≡ false → b ≡ false
middle_false true b c h = cc h
middle_false false true c h = cc h
middle_false false false c h = refl

push_requested-Outcome :
    (a : Pushed) (p : DurationProbe) (r : Requested p)
    → IsValid p
    → is_needing p.state ≡ true
    → Outcome (rank p + 1) p.source_size (push_requested a r.asked p).0
unfolding push_requested
push_requested-Outcome a p r v n =
    if_with (λ (x : DurationProbe × Bool). Outcome (rank p + 1) p.source_size x.0)
      (not (r.asked.request_id == a.request_id)) (λ other. same-Outcome p v)
      (λ same.
        if_with (λ (x : DurationProbe × Bool). Outcome (rank p + 1) p.source_size x.0)
          (not (a.absolute_offset == r.asked.offset + p.request_received)
            || ltb (r.asked.length - p.request_received) a.size
            || (a.null_pointer && not (a.size == 0)))
          (λ bad. fail-Outcome (rank p + 1) p)
          (λ good. pushed-Outcome a p r n (
            fits_in a r.asked p.request_received r.counted (
              middle_false (not (a.absolute_offset == r.asked.offset + p.request_received))
                (ltb (r.asked.length - p.request_received) a.size)
                (a.null_pointer && not (a.size == 0)) good))))

-- A push, whatever it brings and whatever the demuxer calls back: a valid probe stays valid, of the
-- same source, and its request, if it has one then, is no further from the end of the search.
pub push_range-Outcome :
    (a : Pushed) (p : DurationProbe)
    → IsValid p
    → Outcome (rank p + 1) p.source_size (push_range a p).0
unfolding push_range
push_range-Outcome a p v =
    if_with (λ (x : DurationProbe × Bool). Outcome (rank p + 1) p.source_size x.0)
      (is_needing p.state)
      (λ n.
        let r = requested p v n in
        subst (λ o. Outcome (rank p + 1) p.source_size (if_requested (push_requested a) o p).0)
          (sym r.is_request) (push_requested-Outcome a p r v n))
      (λ n. same-Outcome p v)

-- The next thing that is pushed: what is left of the request, with any callbacks.
abbrev pub answer : List Callback × List Callback → RangeRequest → ℕ → Pushed
answer cs r received = record {
  request_id = r.request_id;
  absolute_offset = r.offset + received;
  null_pointer = false;
  size = r.length - received;
  end_of_range = true;
  during_push = cs.0;
  during_flush = cs.1;
}

abbrev pub serve_request :
    List Callback × List Callback → Option RangeRequest → DurationProbe → DurationProbe
serve_request cs none p = p
serve_request cs (some r) p = (push_range (answer cs r p.request_received) p).0

-- So many requests are answered, each with what `callbacks` says of it.
unfoldable pub serve : ℕ → (ℕ → List Callback × List Callback) → DurationProbe → DurationProbe
serve zero callbacks p = p
serve (suc n) callbacks p = serve n callbacks (serve_request (callbacks n) (next_range p) p)

==_refl : (a : ℕ) → (a == a) ≡ true
==_refl a = ground arith

ltb_irrefl : (a : ℕ) → ltb a a ≡ false
ltb_irrefl a = ground arith

answer-Outcome :
    (cs : List Callback × List Callback) (p : DurationProbe) (r : Requested p)
    → is_needing p.state ≡ true
    → Outcome (rank p) p.source_size (push_range (answer cs r.asked p.request_received) p).0
unfolding push_range push_requested
answer-Outcome cs p r n = rw n (
    subst
      (λ o.
        Outcome (rank p) p.source_size
          (if_requested (push_requested (answer cs r.asked p.request_received)) o p).0)
      (sym r.is_request)
      (rw (==_refl r.asked.request_id) (
        rw (==_refl (r.asked.offset + p.request_received)) (
          rw (ltb_irrefl (r.asked.length - p.request_received)) (
            pushed_last-Outcome (answer cs r.asked p.request_received) p r n
              (omega (arith, r.counted)) refl)))))

serve_request-Outcome :
    (cs : List Callback × List Callback) (p : DurationProbe)
    → IsValid p
    → is_needing p.state ≡ true
    → Outcome (rank p) p.source_size (serve_request cs (next_range p) p)
unfolding next_range
serve_request-Outcome cs p v n =
    let r = requested p v n in
    let e : next_range p ≡ some r.asked = rw n r.is_request in
    subst (λ o. Outcome (rank p) p.source_size (serve_request cs o p)) (sym e)
      (answer-Outcome cs p r n)

idle_range : (p : DurationProbe) → is_needing p.state ≡ false → next_range p ≡ none
unfolding next_range
idle_range p n = rw n refl

serve_ends_from :
    (n : ℕ) (callbacks : ℕ → List Callback × List Callback) (p : DurationProbe)
    → IsValid p
    → (is_needing p.state ≡ true → rank p < n)
    → IsValid (serve n callbacks p) × (is_needing (serve n callbacks p).state ≡ false)
unfolding serve
serve_ends_from zero callbacks p v h = elim (Bool-cases (is_needing p.state)) [
  | inl y ↦ absurd (omega (arith, h y))
  | inr n ↦ (v, n)
]
serve_ends_from (suc n) callbacks p v h = elim (Bool-cases (is_needing p.state)) [
  | inl y ↦
      let o = serve_request-Outcome (callbacks n) p v y in
      serve_ends_from n callbacks (serve_request (callbacks n) (next_range p) p) o.valid
        (λ z. omega (arith, o.below z, h y))
  | inr s ↦
      subst
        (λ o.
          IsValid (serve n callbacks (serve_request (callbacks n) o p))
          × (is_needing (serve n callbacks (serve_request (callbacks n) o p)).state ≡ false))
        (sym (idle_range p s)) (serve_ends_from n callbacks p v (λ z. cc (z, s)))
]

pub begin-Outcome :
    (source_size : ℕ) (options : DurationProbeOptions) (p : DurationProbe)
    → Outcome (2 * source_size + 2) source_size (begin source_size options p).0
unfolding begin
begin-Outcome source_size options p =
    if_with (λ (x : DurationProbe × Bool). Outcome (2 * source_size + 2) source_size x.0)
      (source_size == 0
        || options.initial_range_size == 0
        || ltb options.max_range_size options.initial_range_size)
      (λ bad. unknown-Outcome (2 * source_size + 2) (cleared source_size options p) invalid_source)
      (λ good.
        issue_request-Outcome (2 * source_size + 2) 0 (min source_size options.initial_range_size)
          (record (call (select_service options.service_context_id)
            (cleared source_size options p)) { phase = head })
          (record { initial_positive = ground arith; initial_limited = ground arith })
          (ground arith) (omega arith) (ground arith) refl (omega arith))

-- A probe that is begun on a source, with any options, and whose requests are answered in full, comes
-- to an end, whatever the demuxer calls back: after twice the source's size and two answers it asks
-- for nothing. It is valid then: complete with its times in order and the duration between them, which
-- wraps around where it is above 64 bits, or without a duration.
pub serve_ends :
    (source_size : ℕ) (options : DurationProbeOptions)
    (callbacks : ℕ → List Callback × List Callback) (p : DurationProbe)
    → let q = serve (2 * source_size + 2) callbacks (begin source_size options p).0 in
      IsValid q × (is_needing q.state ≡ false)
serve_ends source_size options callbacks p =
    let o = begin-Outcome source_size options p in
    serve_ends_from (2 * source_size + 2) callbacks (begin source_size options p).0 o.valid o.below

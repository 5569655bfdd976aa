-- ===== src/DurationProbe/Refusals.antt =====
-- The responses that a probe refuses.
use mathlib.Core.Path.{subst}
use libaribtlv.Base.{
  ℕ, ◌+◌, ◌-◌, ◌<◌, ◌≡◌, ◌≢◌, refl, sym, Bool, true, false, not, ◌&&◌, ◌||◌, none, some, ltb, ◌==◌,
  if_both, if_with, arith,
}
use libaribtlv.DurationProbe.State.{
  RangeRequest, failed, invalid_response, DurationProbe, is_needing, fail, no_duration,
}
use libaribtlv.DurationProbe.Machine.{
  Pushed, demux, push_pushed, push_requested, if_requested, push_range,
}
use libaribtlv.DurationProbe.Push.{demux-lem}

-- What is wrong with a response to a request.
pub data Refused (a : Pushed) (p : DurationProbe) (r : RangeRequest) : Type 0 where
  another_request : r.request_id ≢ a.request_id → Refused a p r
  another_offset :
      r.request_id ≡ a.request_id
      → a.absolute_offset ≢ r.offset + p.request_received
      → Refused a p r
  too_long : r.request_id ≡ a.request_id → r.length - p.request_received < a.size → Refused a p r
  cut_short :
      r.request_id ≡ a.request_id
      → a.end_of_range ≡ true
      → p.request_received + a.size < r.length
      → Refused a p r

abbrev pub HasFailed : DurationProbe → Type 0
HasFailed q =
    (q.state ≡ failed)
    × (q.request ≡ none)
    × (q.duration ≡ no_duration)
    × (q.presentation_start ≡ none)
    × (q.presentation_end ≡ none)

-- Failed, and a later response changes nothing.
abbrev pub FailsFor : Pushed → DurationProbe → Type 0
FailsFor later q = HasFailed q × (push_range later q ≡ (q, false))

stays : (later : Pushed) (q : DurationProbe) → HasFailed q → FailsFor later q
unfolding push_range
stays later q h = (h, rw h.0 refl)

abbrev pub Effect :
    Pushed
    → {a : Pushed} {p : DurationProbe} {r : RangeRequest} → Refused a p r
    → DurationProbe
    → Type 0
Effect later {a} {p} {r} (another_request h) q = q ≡ p
Effect later (another_offset h g) q = FailsFor later q
Effect later (too_long h g) q = FailsFor later q
Effect later (cut_short h e g) q = FailsFor later q

-- Refused with the flag false, and failed.
abbrev pub FailsOut : DurationProbe × Bool → Type 0
FailsOut x = HasFailed x.0 × (x.1 ≡ false)

==_of : (a b : ℕ) → a ≡ b → (a == b) ≡ true
==_of a b e = ground arith

==_not : (a b : ℕ) → a ≢ b → (a == b) ≡ false
==_not a b e = ground arith

ltb_of : (a b : ℕ) → a < b → ltb a b ≡ true
ltb_of a b e = ground arith

failed_out : (p : DurationProbe) → FailsOut (fail invalid_response p, false)
failed_out p = ((refl, refl, refl, refl, refl), refl)

or_middle : (a c : Bool) → (a || true || c) ≡ true
or_middle true c = refl
or_middle false c = refl

cut-FailsOut :
    (a : Pushed) (p : DurationProbe) (r : RangeRequest)
    → is_needing p.state ≡ true
    → a.end_of_range ≡ true
    → p.request_received + a.size < r.length
    → FailsOut (push_pushed a r (demux a.size a.during_push p))
unfolding push_pushed
cut-FailsOut a p r n e l =
    demux-lem (λ q. FailsOut (push_pushed a r q)) a.size a.during_push p
      (λ c cl. rw n (
        rw e (
          rw (==_not (p.request_received + a.size) r.length (omega arith))
            ((refl, refl, refl, refl, refl), refl))))
      (λ c cl. ((refl, refl, refl, refl, refl), refl))

-- To a probe that waits for a range, a response to another request changes nothing. One at another
-- offset, one longer than what is left, and one that ends the range before its length make the probe
-- fail, with no request, no duration and no times left, whatever the demuxer calls back, and a probe
-- that has failed so ignores every later response. All four are answered by false.
pub push_range-Refused :
    (later a : Pushed) (p : DurationProbe) (r : RangeRequest)
    → is_needing p.state ≡ true
    → p.request ≡ some r
    → (w : Refused a p r) → Effect later w (push_range a p).0 × ((push_range a p).1 ≡ false)
unfolding push_range push_requested
push_range-Refused later a p r n e w = rw n (
    subst
      (λ o.
        Effect later w (if_requested (push_requested a) o p).0
        × ((if_requested (push_requested a) o p).1 ≡ false))
      (sym e) (go w))
  where
    OutFor : DurationProbe × Bool → Type 0
    OutFor x = FailsFor later x.0 × (x.1 ≡ false)

    fails : {x : DurationProbe × Bool} → FailsOut x → OutFor x
    fails {x} h = (stays later x.0 h.0, h.1)

    go :
        (w : Refused a p r)
        → Effect later w (push_requested a r p).0 × ((push_requested a r p).1 ≡ false)
    go (another_request h) = rw (==_not r.request_id a.request_id h) (refl, refl)
    go (another_offset h g) =
        rw (==_of r.request_id a.request_id h)
          (rw (==_not a.absolute_offset (r.offset + p.request_received) g) (fails (failed_out p)))
    go (too_long h g) = rw (==_of r.request_id a.request_id h) (
        rw (ltb_of (r.length - p.request_received) a.size g) (
          if_with OutFor
            (not (a.absolute_offset == r.offset + p.request_received)
              || true
              || (a.null_pointer && not (a.size == 0)))
            (λ y. fails (failed_out p))
            (λ z. cc (
              or_middle (not (a.absolute_offset == r.offset + p.request_received))
                  (a.null_pointer && not (a.size == 0)),
              z,
            ))))
    go (cut_short h l g) = rw (==_of r.request_id a.request_id h) (
        if_both OutFor
          (not (a.absolute_offset == r.offset + p.request_received)
            || ltb (r.length - p.request_received) a.size
            || (a.null_pointer && not (a.size == 0)))
          (fails (failed_out p)) (fails (cut-FailsOut a p r n l g)))

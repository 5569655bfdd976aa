-- ===== src/Tlv/Flow.antt =====
-- The direct loop and the end of `push` on a stream of whole packets.
use mathlib.Core.Path.{subst}
use libaribtlv.Base.{
  ℕ, suc, ◌+◌, ◌≤◌, ◌<◌, ◌≡◌, refl, sym, ap, ◌∙◌, true, false, not, ◌&&◌, ◌||◌, Option, none, some,
  List, [], ◌∷◌, ◌++◌, arith, append_assoc, ◌^◌, ltb, ◌==◌, if◌then◌else◌, Bool-cases, inl, inr,
  length, take, drop, length-append, drop_all, All, Bytes, add_u64,
}
use libaribtlv.Tlv.Stream.{Tracks, append-Tracks}
use libaribtlv.Tlv.Push.{moved, direct-Tracks}
use libaribtlv.Tlv.Process.{Done}
use libaribtlv.Tlv.Sent.{Sent, Front, Front-of, process-Sent, append-Sent}
use libaribtlv.Tlv.Wire.{
  TlvPacket, wire_packet, wire, deliveries, deliveries-append, wire-append, Fits, append-split_at,
}
use libaribtlv.Types.{Limits}
use libaribtlv.Reader.{be16}
use libaribtlv.Tlv.{
  packet, Parser, emit, append, process, append_rest, candidate_type, direct, is_empty, push_direct,
  push_rest,
}

module _ (lim : Limits) (offset : ℕ) (ps : List TlvPacket) (small : offset < 2 ^ 64) where
  -- As `Sent`, with the unread bytes in the caller's input, `k` behind the buffer's offset.
  record Flow (future : Bytes) (s : Parser) (k : ℕ) (d : Bytes) : Type 0 where
    sent : List TlvPacket
    todo : List TlvPacket
    splits : ps ≡ sent ++ todo
    fits : All (Fits lim) todo
    left : d ++ future ≡ wire todo
    place : add_u64 s.buffer_offset k ≡ add_u64 offset (length (wire sent))
    log : s.events ≡ deliveries offset sent
    synced : s.synchronized ≡ true
    clear : s.buffer ≡ []
    start : s.cursor ≡ 0

  packet-Flow :
      (future : Bytes) (s : Parser) (k b0 b1 b2 b3 : ℕ) (rest : Bytes)
      → (t : Flow future s k (b0 ∷ b1 ∷ b2 ∷ b3 ∷ rest)) → be16 b2 b3 ≤ length rest
      → Flow future
          (emit (packet b1 (take (be16 b2 b3) rest) (add_u64 s.buffer_offset k)) s)
          (k + (4 + be16 b2 b3))
          (drop (be16 b2 b3) rest)
  packet-Flow future s k b0 b1 b2 b3 rest t whole =
      let f : Front lim offset ps small future rest b0 b1 b2 b3 t.todo =
        Front-of lim offset ps small future rest b0 b1 b2 b3 t.todo t.left in
      let fits : All (Fits lim) (f.next ∷ f.later) = subst (All (Fits lim)) f.cons t.fits in
      let (payload, later) =
        append-split_at rest future f.next.payload (wire f.later) f.body (omega (arith, f.size)) in
      record {
        sent = t.sent ++ f.next ∷ [];
        todo = f.later;
        splits =
            t.splits
            ∙ ap (λ x. t.sent ++ x) f.cons
            ∙ sym (append_assoc t.sent (f.next ∷ []) f.later);
        fits = fits.1;
        left = ap (λ n. drop n rest ++ future) f.size ∙ later;
        place = omega (
          arith,
          f.size,
          t.place,
          ap length (wire-append t.sent f.next),
          length-append (wire t.sent) (wire_packet f.next),
        );
        log =
            rw (f.size, payload, f.kind, t.place, t.log)
              (sym (deliveries-append offset t.sent f.next small));
        synced = t.synced;
        clear = t.clear;
        start = t.start;
      }

  direct-Flow :
      (fuel : ℕ) (future : Bytes) (s : Parser) (k : ℕ) (d : Bytes)
      → Flow future s k d
      → Flow future (direct fuel lim k d s).0 (direct fuel lim k d s).1 (direct fuel lim k d s).2
  unfolding direct
  direct-Flow (suc fuel) future s k (b0 ∷ b1 ∷ b2 ∷ b3 ∷ rest) t =
      elim (Bool-cases (
        not (b0 == 0x7f && candidate_type b1)
        || ltb lim.max_tlv_payload (be16 b2 b3)
        || ltb (length rest) (be16 b2 b3))) [
          | inl over ↦ rw over t
          | inr go ↦ rw go (
              direct-Flow fuel future _ (k + (4 + be16 b2 b3)) (drop (be16 b2 b3) rest)
                (packet-Flow future s k b0 b1 b2 b3 rest t (ground arith)))
        ]
  direct-Flow _ future s k d t = t

  Flow-Sent :
      (future : Bytes) (r : Parser × ℕ × Bytes)
      → Flow future r.0 r.1 r.2
      → Sent lim offset ps (r.2 ++ future) (moved r)
  Flow-Sent future r t = record {
    sent = t.sent;
    todo = t.todo;
    splits = t.splits;
    fits = t.fits;
    left =
        ap (λ n. drop n r.0.buffer ++ (r.2 ++ future)) t.start
        ∙ ap (λ x. x ++ (r.2 ++ future)) t.clear
        ∙ t.left;
    place = omega (arith, t.place, t.start);
    log = t.log;
    synced = t.synced;
  }

  Sent-Flow :
      (future d : Bytes) (s : Parser)
      → s.buffer ≡ []
      → s.cursor ≡ 0
      → Sent lim offset ps (d ++ future) s
      → Flow future s 0 d
  Sent-Flow future d s b z t = record {
    sent = t.sent;
    todo = t.todo;
    splits = t.splits;
    fits = t.fits;
    left =
        ap (λ x. x ++ (d ++ future)) (sym (drop_all s.cursor s.buffer (omega (arith, ap length b))))
        ∙ t.left;
    place = omega (arith, t.place);
    log = t.log;
    synced = t.synced;
    clear = b;
    start = z;
  }

  -- What is owed of a computation that may be cut off by its fuel.
  abbrev pub Passes : Bytes → Option Parser → Type 0
  Passes future none = Unit
  Passes future (some t) = Sent lim offset ps future t

  process-Passes :
      (stream future : Bytes) (s : Parser)
      → Tracks lim offset stream s
      → Sent lim offset ps future s
      → Passes future (process lim false s)
  process-Passes stream future s k t = go (process lim false s) refl
    where
      go : (o : Option Parser) → process lim false s ≡ o → Passes future o
      go none e = tt
      go (some u) e = process-Sent lim offset ps small stream future s k t e

  pub append_rest-Passes :
      (stream d future : Bytes) (s : Parser)
      → Done lim offset stream s
      → Sent lim offset ps (d ++ future) s
      → Passes future (append_rest lim d s)
  append_rest-Passes stream d future s w t =
      process-Passes (stream ++ d) future (append d s) (append-Tracks lim offset d w.tracks)
        (append-Sent lim offset ps small d future s w.settled.start t)

  -- The result of the direct loop, with or without input left.
  left-Passes :
      (stream future : Bytes) (r : Parser × ℕ × Bytes) (left : Bytes)
      → r.2 ≡ left
      → Tracks lim offset stream (append r.2 (moved r))
      → r.0.cursor ≡ 0
      → Sent lim offset ps (r.2 ++ future) (moved r)
      → Passes future (if is_empty left then some (moved r) else append_rest lim left (moved r))
  left-Passes stream future r [] e k z t =
      subst (λ x. Sent lim offset ps (x ++ future) (moved r)) e t
  left-Passes stream future r (x ∷ xs) e k z t = rw (← e) (
      process-Passes stream future (append r.2 (moved r)) k
        (append-Sent lim offset ps small r.2 future (moved r) z t))

  push_direct-Passes :
      (stream d future : Bytes) (s : Parser)
      → Done lim offset stream s
      → s.buffer ≡ []
      → Sent lim offset ps (d ++ future) s
      → Passes future (push_direct lim d s)
  unfolding push_direct
  push_direct-Passes stream d future s w b t =
      let f = direct-Flow (length d) future s 0 d (Sent-Flow future d s b w.settled.start t) in
      left-Passes (stream ++ d) future (direct (length d) lim 0 d s) _ refl
        (direct-Tracks lim offset stream d s w.tracks b w.settled.start) f.start
        (Flow-Sent future (direct (length d) lim 0 d s) f)

  pub push_rest-Passes :
      (stream d future : Bytes) (s : Parser)
      → Done lim offset stream s
      → Sent lim offset ps (d ++ future) s
      → Passes future (push_rest lim d s)
  unfolding push_rest
  push_rest-Passes stream [] future s w t = t
  push_rest-Passes stream (x ∷ d) future s w t =
      elim (Bool-cases (not s.synchronized || not (is_empty s.buffer))) [
        | inl stale ↦ simp stale (append_rest-Passes stream (x ∷ d) future s w t)
        | inr clear ↦ simp clear (push_direct-Passes stream (x ∷ d) future s w (ground arith) t)
      ]

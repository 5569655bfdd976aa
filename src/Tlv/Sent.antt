-- ===== src/Tlv/Sent.antt =====
-- A synchronized framer on a stream of whole packets delivers them in order, wherever it is cut.
use libaribtlv.Base.{
  ℕ, zero, suc, ◌+◌, ◌/◌, ◌%◌, ◌≤◌, ◌<◌, ◌≡◌, refl, sym, ap, ◌∙◌, true, false, some, List, [], ◌∷◌,
  ◌++◌, arith, append_assoc, ◌^◌, ltb, ◌==◌, ==_iff, Bool-cases, inl, inr, length, take, drop,
  length-append, drop-drop, drop_header, drop_append_le, All, Bytes, add_u64,
}
use mathlib.Core.Path.{subst}
use libaribtlv.Tlv.Rounds.{compact-unread}
use libaribtlv.Tlv.Search.{round-RoundPost}
use libaribtlv.Tlv.Stream.{Tracks}
use libaribtlv.Tlv.Wire.{
  TlvPacket, wire_packet, wire, deliveries, deliveries-append, wire-append, Fits, append-split_at,
}
use libaribtlv.Types.{Limits}
use libaribtlv.Reader.{be16}
use libaribtlv.Tlv.{
  packet, Parser, available, unread, current_offset, compact, consume, emit, append, synced_round,
  round, process_on, process,
}

module _ (lim : Limits) (offset : ℕ) (ps : List TlvPacket) where
  -- `sent` has been delivered, and the unread bytes with `future` are the packets of `todo`.
  pub record Sent (future : Bytes) (s : Parser) : Type 0 where
    pub sent : List TlvPacket
    pub todo : List TlvPacket
    pub splits : ps ≡ sent ++ todo
    pub fits : All (Fits lim) todo
    pub left : unread s ++ future ≡ wire todo
    pub place : current_offset s ≡ add_u64 offset (length (wire sent))
    pub log : s.events ≡ deliveries offset sent
    pub synced : s.synchronized ≡ true

  module _ (small : offset < 2 ^ 64) where
    -- The header at the front is that of the next packet, and what follows starts with its payload.
    packet-Sent :
        (future : Bytes) (s : Parser) (b0 b1 b2 b3 : ℕ) (rest : Bytes)
        → b0 ∷ b1 ∷ b2 ∷ b3 ∷ rest ≡ unread s
        → (sent : List TlvPacket) (p : TlvPacket) (todo : List TlvPacket) → ps ≡ sent ++ p ∷ todo
        → All (Fits lim) todo
        → rest ++ future ≡ p.payload ++ wire todo
        → b1 ≡ p.kind
        → be16 b2 b3 ≡ length p.payload
        → be16 b2 b3 ≤ length rest
        → current_offset s ≡ add_u64 offset (length (wire sent))
        → s.events ≡ deliveries offset sent
        → s.synchronized ≡ true
        → Sent future (
            consume
              (4 + be16 b2 b3)
              (emit (packet b1 (take (be16 b2 b3) rest) (current_offset s)) s))
    packet-Sent future s b0 b1 b2 b3 rest u sent p todo e fits left kind n whole place log y =
        let (payload, later) =
          append-split_at rest future p.payload (wire todo) left (omega (arith, n)) in
        record {
          sent = sent ++ p ∷ [];
          todo = todo;
          splits = e ∙ sym (append_assoc sent (p ∷ []) todo);
          fits = fits;
          left =
              ap (λ x. x ++ future) (drop-drop s.cursor (4 + be16 b2 b3) s.buffer)
              ∙ ap (λ x. drop (4 + be16 b2 b3) x ++ future) (sym u)
              ∙ ap (λ x. x ++ future) (drop_header (be16 b2 b3) b0 b1 b2 b3 rest)
              ∙ ap (λ k. drop k rest ++ future) n
              ∙ later;
          place =
              omega
                (arith, ap length (wire-append sent p), length-append (wire sent) (wire_packet p));
          log = rw (n, payload, kind, place, log) (sym (deliveries-append offset sent p small));
          synced = y;
        }

    compact-Sent :
        (future : Bytes) (s : Parser)
        → s.buffer_offset < 2 ^ 64
        → s.cursor ≤ length s.buffer
        → Sent future s
        → Sent future (compact s)
    compact-Sent future s w c t = rw (compact-unread s c w) (record {
      sent = t.sent;
      todo = t.todo;
      splits = t.splits;
      fits = t.fits;
      left = t.left;
      place = omega (arith, t.place);
      log = t.log;
      synced = t.synced;
    })

    pub append-Sent :
        (d future : Bytes) (s : Parser)
        → s.cursor ≡ 0
        → Sent (d ++ future) s
        → Sent future (append d s)
    append-Sent d future s z t = record {
      sent = t.sent;
      todo = t.todo;
      splits = t.splits;
      fits = t.fits;
      left =
          ap (λ x. x ++ future) (drop_append_le s.cursor s.buffer d (omega arith))
          ∙ append_assoc (unread s) d future
          ∙ t.left;
      place = t.place;
      log = t.log;
      synced = t.synced;
    }

    -- The next packet's bytes, which have begun to arrive.
    pub record Front (future rest : Bytes) (b0 b1 b2 b3 : ℕ) (todo : List TlvPacket) : Type 0 where
      pub next : TlvPacket
      pub later : List TlvPacket
      pub cons : todo ≡ next ∷ later
      pub mark : b0 ≡ 0x7f
      pub kind : b1 ≡ next.kind
      pub size : be16 b2 b3 ≡ length next.payload
      pub body : rest ++ future ≡ next.payload ++ wire later

    pub Front-of :
        (future rest : Bytes) (b0 b1 b2 b3 : ℕ) (todo : List TlvPacket)
        → b0 ∷ b1 ∷ b2 ∷ b3 ∷ (rest ++ future) ≡ wire todo
        → Front future rest b0 b1 b2 b3 todo
    Front-of future rest b0 b1 b2 b3 [] e = absurd (cc)
    Front-of future rest b0 b1 b2 b3 (p ∷ later) e = record {
      next = p;
      later = later;
      cons = refl;
      mark = cc;
      kind = cc;
      size =
          let hi : b2 ≡ length p.payload / 256 = cc in
          let lo : b3 ≡ length p.payload % 256 = cc in omega arith;
      body = cc;
    }

    synced_round-Sent :
        (future : Bytes) (s : Parser) (u : Bytes)
        → u ≡ unread s
        → s.buffer_offset < 2 ^ 64
        → s.cursor ≤ length s.buffer
        → Sent future s
        → Sent future (synced_round lim false s u).1
    unfolding synced_round
    synced_round-Sent future s (b0 ∷ b1 ∷ b2 ∷ b3 ∷ rest) u w c t =
        let f : Front future rest b0 b1 b2 b3 t.todo =
          Front-of future rest b0 b1 b2 b3 t.todo (ap (λ x. x ++ future) u ∙ t.left) in
        let fits : All (Fits lim) (f.next ∷ f.later) = subst (All (Fits lim)) f.cons t.fits in
        let marked : (b0 == 0x7f) ≡ true = (==_iff b0 0x7f).1 f.mark in
        let short : ltb lim.max_tlv_payload (be16 b2 b3) ≡ false = ground (arith, fits.0, f.size) in
        rw (marked, short)
          (elim (Bool-cases (ltb (length rest) (be16 b2 b3))) [
            | inl partial ↦ rw partial (compact-Sent future s w c t)
            | inr whole ↦ rw whole (
                packet-Sent future s b0 b1 b2 b3 rest u t.sent f.next f.later
                  (t.splits ∙ ap (λ x. t.sent ++ x) f.cons) fits.1 f.body f.kind f.size
                  (ground arith) t.place t.log t.synced)
          ])
    synced_round-Sent future s [] u w c t = compact-Sent future s w c t
    synced_round-Sent future s _ u w c t = compact-Sent future s w c t

    round-Sent :
        (future : Bytes) (s : Parser)
        → s.buffer_offset < 2 ^ 64
        → s.cursor ≤ length s.buffer
        → Sent future s
        → Sent future (round lim false s).1
    unfolding round
    round-Sent future s w c t = simp t.synced (synced_round-Sent future s (unread s) refl w c t)

    process_on-Sent :
        (fuel : ℕ) (stream future : Bytes) (s : Parser) {t : Parser}
        → Tracks lim offset stream s
        → Sent future s
        → process_on fuel lim false s ≡ some t
        → Sent future t
    unfolding process_on
    process_on-Sent zero stream future s k t e = cc
    process_on-Sent (suc fuel) stream future s {t = r} k t e =
        let p = round-RoundPost lim offset stream false s k in
        let q = round-Sent future s (omega (arith, k.place)) k.inside t in
        elim (Bool-cases (round lim false s).0) [
          | inl again ↦
              process_on-Sent fuel stream future (round lim false s).1 p.tracks q (rw again at e)
          | inr halt ↦
              let same : (round lim false s).1 ≡ r = cc (rw halt at e) in subst (Sent future) same q
        ]

    pub process-Sent :
        (stream future : Bytes) (s : Parser) {t : Parser}
        → Tracks lim offset stream s
        → Sent future s
        → process lim false s ≡ some t
        → Sent future t
    unfolding process
    process-Sent stream future s k t e = process_on-Sent (suc (available s)) stream future s k t e

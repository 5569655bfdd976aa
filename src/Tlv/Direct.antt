-- ===== src/Tlv/Direct.antt =====
-- The loop of `push` over whole packets of the caller's input.
use libaribtlv.Base.{
  ℕ, suc, ◌+◌, ◌≤◌, ◌≡◌, refl, sym, ◌∙◌, ◌∷◌, ◌++◌, arith, append_assoc, ◌==◌, ltb, not, ◌&&◌, ◌||◌,
  Bool-cases, inl, inr, length, take, drop, length-append, take-append-drop, length-take, All,
  All-append, Bytes, add_u64,
}
use libaribtlv.Tlv.Stream.{Framed, Honest}
use libaribtlv.Types.{Limits}
use libaribtlv.Reader.{be16}
use libaribtlv.Tlv.{Parser, Event, packet, direct, emit, candidate_type}

module _ (lim : Limits) (base : ℕ) where
  -- The direct loop: `taken` is what it has consumed of the input behind the stream `old`.
  pub record Taken (old full : Bytes) (s : Parser) (r : Parser × ℕ × Bytes) : Type 0 where
    pub taken : Bytes
    pub splits : full ≡ old ++ (taken ++ r.2)
    pub count : r.1 ≡ length taken
    pub same_buffer : r.0.buffer ≡ s.buffer
    pub same_cursor : r.0.cursor ≡ s.cursor
    pub same_offset : r.0.buffer_offset ≡ s.buffer_offset
    pub same_sync : r.0.synchronized ≡ s.synchronized
    pub honest : All (Honest lim base full) r.0.events

  direct_stop :
      (old full taken d : Bytes) (s : Parser)
      → full ≡ old ++ (taken ++ d)
      → All (Honest lim base full) s.events
      → Taken old full s (s, length taken, d)
  direct_stop old full taken d s e h = record {
    taken = taken;
    splits = e;
    count = refl;
    same_buffer = refl;
    same_cursor = refl;
    same_offset = refl;
    same_sync = refl;
    honest = h;
  }

  emit-Taken :
      {old full : Bytes} (e : Event) (s : Parser) {r : Parser × ℕ × Bytes}
      → Taken old full (emit e s) r
      → Taken old full s r
  emit-Taken e s t = record {
    taken = t.taken;
    splits = t.splits;
    count = t.count;
    same_buffer = t.same_buffer;
    same_cursor = t.same_cursor;
    same_offset = t.same_offset;
    same_sync = t.same_sync;
    honest = t.honest;
  }

  -- The packet at the front of the input that is left, once the tests have passed.
  direct-Framed :
      (old full taken : Bytes) (b0 b1 b2 b3 : ℕ) (rest : Bytes) (o k : ℕ)
      → full ≡ old ++ (taken ++ b0 ∷ b1 ∷ b2 ∷ b3 ∷ rest)
      → o ≡ add_u64 base (length old)
      → k ≡ length taken
      → b0 ≡ 0x7f
      → be16 b2 b3 ≤ lim.max_tlv_payload
      → be16 b2 b3 ≤ length rest
      → Framed lim base full b1 (take (be16 b2 b3) rest) (add_u64 o k)
  direct-Framed old full taken b0 b1 b2 b3 rest o k e p c mark fits whole = record {
    before = old ++ taken;
    hi = b2;
    lo = b3;
    after = drop (be16 b2 b3) rest;
    splits = rw (e, mark, take-append-drop (be16 b2 b3) rest) (sym (append_assoc old taken _));
    place = omega (arith, length-append old taken);
    size = omega (arith, length-take (be16 b2 b3) rest);
    within = omega (arith, length-take (be16 b2 b3) rest);
  }

  pub direct-Taken :
      (fuel : ℕ) (old full taken d : Bytes) (s : Parser) (k : ℕ)
      → k ≡ length taken
      → full ≡ old ++ (taken ++ d)
      → s.buffer_offset ≡ add_u64 base (length old)
      → All (Honest lim base full) s.events
      → Taken old full s (direct fuel lim k d s)
  unfolding direct
  direct-Taken (suc fuel) old full taken (b0 ∷ b1 ∷ b2 ∷ b3 ∷ rest) s k c e o h =
      elim (Bool-cases (
        not (b0 == 0x7f && candidate_type b1)
        || ltb lim.max_tlv_payload (be16 b2 b3)
        || ltb (length rest) (be16 b2 b3))) [
          | inl stop ↦ rw stop (rw c (direct_stop old full taken _ s e h))
          | inr go ↦
              let n : ℕ = be16 b2 b3 in
              let head : Bytes = b0 ∷ b1 ∷ b2 ∷ b3 ∷ take n rest in
              let framed : Framed lim base full b1 (take n rest) (add_u64 s.buffer_offset k) =
                direct-Framed old full taken b0 b1 b2 b3 rest s.buffer_offset k e o c (ground arith)
                  (ground arith) (ground arith) in
              rw go (
                emit-Taken (packet b1 (take n rest) (add_u64 s.buffer_offset k)) s (
                  direct-Taken fuel old full (taken ++ head) (drop n rest) _ (k + (4 + n))
                    (omega (
                      arith,
                      length-append taken head,
                      length-take n rest,
                      (let w : n ≤ length rest = ground arith in w),
                    ))
                    (e ∙ rw (append_assoc taken head, take-append-drop n rest) refl) o
                    (All-append (Honest lim base full) s.events _ h (framed, tt))))
        ]
  direct-Taken _ old full taken d s k c e o h = rw c (direct_stop old full taken d s e h)

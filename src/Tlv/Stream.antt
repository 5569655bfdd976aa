-- ===== src/Tlv/Stream.antt =====
-- The framer's state against the bytes received since the last `reset`.
use libaribtlv.Base.{
  ℕ, ◌+◌, ◌≤◌, ◌≡◌, Bool, [], ◌∷◌, ◌++◌, arith, append_assoc, length, length-append, All,
  All-append, All-map, Bytes, add_u64,
}
use libaribtlv.Types.{Limits}
use libaribtlv.Reader.{be16}
use libaribtlv.Tlv.{Event, packet, resync, error, Parser, consume, emit, append}

module _ (lim : Limits) (base : ℕ) where
  -- A whole packet stands in the stream at the offset it is reported with, and within the limit.
  pub record Framed (stream : Bytes) (kind : ℕ) (payload : Bytes) (offset : ℕ) : Type 0 where
    pub before : Bytes
    pub hi : ℕ
    pub lo : ℕ
    pub after : Bytes
    pub splits : stream ≡ before ++ (0x7f ∷ kind ∷ hi ∷ lo ∷ (payload ++ after))
    pub place : offset ≡ add_u64 base (length before)
    pub size : length payload ≡ be16 hi lo
    pub within : length payload ≤ lim.max_tlv_payload

  abbrev pub Honest : Bytes → Event → Type 0
  Honest stream (packet kind payload offset) = Framed stream kind payload offset
  Honest stream (resync offset) = Unit
  Honest stream (error c offset m) = Unit

  -- The buffer is the end of the stream, and the cursor stands in it.
  pub record Tracks (stream : Bytes) (s : Parser) : Type 0 where
    pub past : Bytes
    pub splits : stream ≡ past ++ s.buffer
    pub place : s.buffer_offset ≡ add_u64 base (length past)
    pub inside : s.cursor ≤ length s.buffer
    pub honest : All (Honest stream) s.events

  pub Honest-append :
      (more stream : Bytes) (e : Event) → Honest stream e → Honest (stream ++ more) e
  Honest-append more stream (packet k p o) f = record {
    before = f.before;
    hi = f.hi;
    lo = f.lo;
    after = f.after ++ more;
    splits = rw f.splits (simp append_assoc);
    place = f.place;
    size = f.size;
    within = f.within;
  }
  Honest-append more stream (resync o) f = tt
  Honest-append more stream (error c o m) f = tt

  pub append-Tracks :
      {stream : Bytes} {s : Parser} (d : Bytes)
      → Tracks stream s
      → Tracks (stream ++ d) (append d s)
  append-Tracks {stream} {s} d t = record {
    past = t.past;
    splits = rw t.splits (simp append_assoc);
    place = t.place;
    inside = omega (arith, length-append s.buffer d, t.inside);
    honest =
        All-map (Honest stream) (Honest (stream ++ d)) s.events (Honest-append d stream) t.honest;
  }

  pub consume-Tracks :
      {stream : Bytes} {s : Parser} (n : ℕ)
      → s.cursor + n ≤ length s.buffer
      → Tracks stream s
      → Tracks stream (consume n s)
  consume-Tracks n h t = record {
    past = t.past;
    splits = t.splits;
    place = t.place;
    inside = h;
    honest = t.honest;
  }

  pub emit-Tracks :
      {stream : Bytes} {s : Parser} (e : Event)
      → Honest stream e
      → Tracks stream s
      → Tracks stream (emit e s)
  emit-Tracks {stream} {s} e h t = record {
    past = t.past;
    splits = t.splits;
    place = t.place;
    inside = t.inside;
    honest = All-append (Honest stream) s.events (e ∷ []) t.honest (h, tt);
  }

  pub flag-Tracks :
      {stream : Bytes} {s : Parser} (b : Bool)
      → Tracks stream s
      → Tracks stream (record s { synchronized = b })
  flag-Tracks b t = record {
    past = t.past;
    splits = t.splits;
    place = t.place;
    inside = t.inside;
    honest = t.honest;
  }

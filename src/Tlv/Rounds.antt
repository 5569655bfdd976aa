-- ===== src/Tlv/Rounds.antt =====
-- One round of `process` keeps the state in step with the stream, and eats a byte if it goes on.
use libaribtlv.Base.{
  ℕ, ◌+◌, ◌≤◌, ◌<◌, ◌≡◌, refl, ap, Bool, true, false, [], ◌∷◌, ◌++◌, arith, append_assoc, max, ◌^◌,
  if◌then◌else◌, ◌==◌, ltb, not, ◌&&◌, Bool-cases, inl, inr, length, take, drop, length-append,
  take-append-drop, length-take, length-drop, drop_all, Bytes, add_u64,
}
use libaribtlv.Tlv.Stream.{Framed, Tracks, consume-Tracks, emit-Tracks, flag-Tracks}
use libaribtlv.Types.{Limits, ErrorCode, malformed_input}
use libaribtlv.Reader.{be16}
use libaribtlv.Tlv.{
  Message, packet, Parser, available, current_offset, unread, compact, consume, emit, report,
  lose_sync, synced_round, incomplete_header,
}

-- What `process` leaves of a synchronized stream: no whole header, or a packet that is not whole.
pub record Incomplete (lim : Limits) (b : Bytes) : Type 0 where
  pub short :
      (b0 b1 b2 b3 : ℕ) (rest : Bytes)
      → b ≡ b0 ∷ b1 ∷ b2 ∷ b3 ∷ rest
      → (b0 ≡ 0x7f) × (be16 b2 b3 ≤ lim.max_tlv_payload) × (length rest < be16 b2 b3)

pub record Settled (lim : Limits) (s : Parser) : Type 0 where
  pub start : s.cursor ≡ 0
  pub partial : s.synchronized ≡ true → Incomplete lim s.buffer
  pub bounded : s.synchronized ≡ false → length s.buffer ≤ max 3 lim.max_resync_buffer

pub compact-unread :
    (s : Parser)
    → s.cursor ≤ length s.buffer
    → s.buffer_offset < 2 ^ 64
    → compact s ≡ record s { buffer = unread s; buffer_offset = current_offset s; cursor = 0 }
unfolding compact
compact-unread s h w = elim (Bool-cases (s.cursor == 0)) [
  | inl z ↦
      let e : s.cursor ≡ 0 = ground arith in
      let o : add_u64 s.buffer_offset 0 ≡ s.buffer_offset = omega arith in rw z (rw e (rw o refl))
  | inr nz ↦ rw nz (elim (Bool-cases (s.cursor == length s.buffer)) [
    | inl e ↦ rw e (rw (drop_all s.cursor s.buffer (ground arith)) refl)
    | inr ne ↦ rw ne refl
  ])
]

pub short_bytes : {lim : Limits} {b : Bytes} → length b < 4 → Incomplete lim b
short_bytes h = record { short = λ b0 b1 b2 b3 rest e. absurd (omega (arith, ap length e)) }

module _ (lim : Limits) (base : ℕ) (stream : Bytes) where
  front : {s : Parser} → Tracks lim base stream s → Bytes
  front {s} t = t.past ++ take s.cursor s.buffer

  stream-front : {s : Parser} (t : Tracks lim base stream s) → stream ≡ front t ++ unread s
  unfolding front
  stream-front {s} t = rw (t.splits, append_assoc, take-append-drop s.cursor s.buffer) refl

  length-front :
      {s : Parser} (t : Tracks lim base stream s) → length (front t) ≡ length t.past + s.cursor
  unfolding front
  length-front {s} t = omega (
    arith,
    length-append t.past (take s.cursor s.buffer),
    length-take s.cursor s.buffer,
    t.inside,
  )

  offset-front :
      {s : Parser} (t : Tracks lim base stream s)
      → current_offset s ≡ add_u64 base (length (front t))
  offset-front {s} t = omega (arith, length-front t, t.place)

  compact-Tracks : (s : Parser) → Tracks lim base stream s → Tracks lim base stream (compact s)
  compact-Tracks s t = rw (compact-unread s t.inside (omega (arith, t.place))) (record {
    past = front t;
    splits = stream-front t;
    place = offset-front t;
    inside = omega arith;
    honest = t.honest;
  })

  -- What a round owes: it stays in step, eats a byte if the loop goes on, and else leaves a settled
  -- state, with nothing buffered at the end of the input.
  pub record RoundPost (end : Bool) (s : Parser) (r : Bool × Parser) : Type 0 where
    pub tracks : Tracks lim base stream r.1
    pub eats : r.0 ≡ true → available r.1 < available s
    pub settles : r.0 ≡ false → Settled lim r.1
    pub empties : r.0 ≡ false → end ≡ true → r.1.buffer ≡ []

  lose_sync-RoundPost :
      (end : Bool) (c : ErrorCode) (m : Message) {s : Parser}
      → Tracks lim base stream s
      → s.cursor < length s.buffer
      → RoundPost end s (true, lose_sync c m s)
  lose_sync-RoundPost end c m {s} t h = record {
    tracks =
        consume-Tracks lim base 1 (omega arith)
          (flag-Tracks lim base false (emit-Tracks lim base _ tt (emit-Tracks lim base _ tt t)));
    eats = λ _. omega arith;
    settles = λ e. cc;
    empties = λ e. cc;
  }

  -- The end of `process`: the state is compacted.
  pub stop-RoundPost :
      (end : Bool) (s t : Parser)
      → Tracks lim base stream t
      → (t.synchronized ≡ true → Incomplete lim (unread t))
      → (t.synchronized ≡ false → available t ≤ max 3 lim.max_resync_buffer)
      → (end ≡ true → unread t ≡ [])
      → RoundPost end s (false, compact t)
  stop-RoundPost end s t k partial bounded done = record {
    tracks = compact-Tracks t k;
    eats = λ e. cc;
    settles = λ _. rw e (record {
      start = refl;
      partial = partial;
      bounded = λ u. omega (arith, bounded u, length-drop t.cursor t.buffer);
    });
    empties = λ _ e'. rw e (done e');
  }
    where
      e : compact t ≡ record t { buffer = unread t; buffer_offset = current_offset t; cursor = 0 }
      e = compact-unread t k.inside (omega (arith, k.place))

  -- Dropping all that is left, with a report.
  pub discard-Tracks :
      (c : ErrorCode) (m : Message) {s : Parser}
      → Tracks lim base stream s
      → Tracks lim base stream (consume (available s) (report c m s))
  discard-Tracks c m {s} t =
      consume-Tracks lim base (available s) (omega (arith, t.inside)) (emit-Tracks lim base _ tt t)

  pub discard-unread :
      {s : Parser} → Tracks lim base stream s → drop (s.cursor + available s) s.buffer ≡ []
  discard-unread {s} t = drop_all (s.cursor + available s) s.buffer (omega (arith, t.inside))

  -- A round that ends a synchronized stretch, discarding what is left or keeping it.
  halt-RoundPost :
      (end discards : Bool) (c : ErrorCode) (m : Message) {s : Parser}
      → Tracks lim base stream s
      → s.synchronized ≡ true
      → Incomplete lim (unread s)
      → (discards ≡ false → end ≡ true → unread s ≡ [])
      → RoundPost end s
          (false, compact (if discards then consume (available s) (report c m s) else s))
  halt-RoundPost end true c m {s} t y i d =
      stop-RoundPost end s _ (discard-Tracks c m t)
        (λ _. rw (discard-unread t) (short_bytes (omega arith))) (λ n. cc) (λ _. discard-unread t)
  halt-RoundPost end false c m {s} t y i d = stop-RoundPost end s s t (λ _. i) (λ n. cc) (d refl)

  packet-RoundPost :
      (end : Bool) (s : Parser) (b0 b1 b2 b3 : ℕ) (rest : Bytes)
      → b0 ∷ b1 ∷ b2 ∷ b3 ∷ rest ≡ unread s
      → Tracks lim base stream s
      → b0 ≡ 0x7f
      → be16 b2 b3 ≤ lim.max_tlv_payload
      → be16 b2 b3 ≤ length rest
      → RoundPost end s (
        true,
        consume (4 + be16 b2 b3) (emit (packet b1 (take (be16 b2 b3) rest) (current_offset s)) s),
      )
  packet-RoundPost end s b0 b1 b2 b3 rest e t mark fits whole = record {
    tracks =
        consume-Tracks lim base (4 + n) (omega (arith, size)) (emit-Tracks lim base _ framed t);
    eats = λ _. omega (arith, size);
    settles = λ e. cc;
    empties = λ e. cc;
  }
    where
      n : ℕ
      n = be16 b2 b3

      size : 4 + length rest ≡ available s
      size = omega (arith, ap length e, length-drop s.cursor s.buffer)

      framed : Framed lim base stream b1 (take n rest) (current_offset s)
      framed = record {
        before = front t;
        hi = b2;
        lo = b3;
        after = drop n rest;
        splits = rw (take-append-drop n rest, ← mark, e) (stream-front t);
        place = offset-front t;
        size = omega (arith, length-take n rest);
        within = omega (arith, length-take n rest);
      }

  short-RoundPost :
      (end : Bool) (s : Parser)
      → length (unread s) < 4
      → Tracks lim base stream s
      → s.synchronized ≡ true
      → RoundPost end s (
        false,
        compact (
            if end && not (available s == 0)
            then consume (available s) (report malformed_input incomplete_header s)
            else s),
      )
  short-RoundPost end s h t y =
      halt-RoundPost end (end && not (available s == 0)) _ _ t y (short_bytes h) nothing
    where
      nothing : (end && not (available s == 0)) ≡ false → end ≡ true → unread s ≡ []
      nothing f e =
          drop_all s.cursor s.buffer (let z : available s ≡ 0 = ground arith in omega (arith, z))

  pub synced_round-RoundPost :
      (end : Bool) (s : Parser) (u : Bytes)
      → u ≡ unread s
      → Tracks lim base stream s
      → s.synchronized ≡ true
      → RoundPost end s (synced_round lim end s u)
  unfolding synced_round
  synced_round-RoundPost end s (b0 ∷ b1 ∷ b2 ∷ b3 ∷ rest) e t y = elim (Bool-cases (b0 == 0x7f)) [
    | inr lost ↦ rw lost (lose_sync-RoundPost end _ _ t room)
    | inl mark ↦ rw mark (elim (Bool-cases (ltb lim.max_tlv_payload (be16 b2 b3))) [
      | inl long ↦ rw long (lose_sync-RoundPost end _ _ t room)
      | inr fits ↦ rw fits (elim (Bool-cases (ltb (length rest) (be16 b2 b3))) [
        | inl partial ↦ rw partial (
            halt-RoundPost end end _ _ t y
              (rw (← e) (record { short = λ c0 c1 c2 c3 r q. ground arith })) (λ f e'. cc))
        | inr whole ↦ rw whole (
            packet-RoundPost end s b0 b1 b2 b3 rest e t (ground arith) (ground arith)
              (ground arith))
      ])
    ])
  ]
    where
      room : s.cursor < length s.buffer
      room = omega (arith, ap length e, length-drop s.cursor s.buffer)
  synced_round-RoundPost end s [] e t y = short-RoundPost end s (rw (← e) (omega arith)) t y
  synced_round-RoundPost end s (a ∷ []) e t y = short-RoundPost end s (rw (← e) (omega arith)) t y
  synced_round-RoundPost end s (a ∷ b ∷ []) e t y =
      short-RoundPost end s (rw (← e) (omega arith)) t y
  synced_round-RoundPost end s (a ∷ b ∷ c ∷ []) e t y =
      short-RoundPost end s (rw (← e) (omega arith)) t y

  pub weaken-RoundPost :
      {end : Bool} {s t : Parser} {r : Bool × Parser}
      → available t ≤ available s
      → RoundPost end t r
      → RoundPost end s r
  weaken-RoundPost h p = record {
    tracks = p.tracks;
    eats = λ e. omega (arith, p.eats e);
    settles = p.settles;
    empties = p.empties;
  }

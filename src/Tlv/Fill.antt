-- ===== src/Tlv/Fill.antt =====
-- The first loop of `push`, which completes a packet that is partly buffered, and `push` itself.
use libaribtlv.Base.{
  ℕ, zero, suc, ◌≤◌, ◌<◌, ◌≡◌, refl, sym, ap, Bool, true, false, Option, none, some, [], ◌∷◌, ◌++◌,
  arith, append_assoc, append-nil, if◌then◌else◌, ltb, not, ◌||◌, min, Bool-cases, inl, inr, length,
  take, drop, length-append, take-append-drop, length-drop, take_all, Bytes,
}
use mathlib.Core.Path.{subst}
use libaribtlv.Tlv.Rounds.{Incomplete, short_bytes}
use libaribtlv.Tlv.Process.{Done, Returns, process_on-returns, append_rest-Returns}
use libaribtlv.Tlv.Push.{push_rest-Returns}
use libaribtlv.Tlv.Stream.{Tracks, append-Tracks, flag-Tracks}
use libaribtlv.Types.{Limits}
use libaribtlv.Tlv.{
  Parser, available, append, process, required, is_empty, append_rest, Filled, stop, next, fill_on,
  fill_with, fill_round, fill_next, fill, push, desynchronized, flush,
}

-- Fewer bytes than are required leave the packet incomplete.
required-Incomplete :
    (lim : Limits) (b x : Bytes) {r : ℕ}
    → required lim b ≡ some r
    → length x < r
    → Incomplete lim (b ++ x)
unfolding required
required-Incomplete lim (b0 ∷ b1 ∷ b2 ∷ b3 ∷ rest) x {r} e h = record {
  short = λ c0 c1 c2 c3 q f. ground (arith, length-append rest x);
}
required-Incomplete lim [] x e h = short_bytes (ground arith)
required-Incomplete lim (a ∷ []) x e h = short_bytes (ground arith)
required-Incomplete lim (a ∷ b ∷ []) x e h = short_bytes (ground arith)
required-Incomplete lim (a ∷ b ∷ c ∷ []) x e h = short_bytes (ground arith)

-- An incomplete packet wants a byte at least.
required_pos :
    (lim : Limits) (b : Bytes) {r : ℕ} → Incomplete lim b → required lim b ≡ some r → 0 < r
unfolding required
required_pos lim (b0 ∷ b1 ∷ b2 ∷ b3 ∷ rest) i e = ground (arith, i.short b0 b1 b2 b3 rest refl)
required_pos lim [] i e = ground arith
required_pos lim (a ∷ []) i e = ground arith
required_pos lim (a ∷ b ∷ []) i e = ground arith
required_pos lim (a ∷ b ∷ c ∷ []) i e = ground arith

module _ (lim : Limits) (base : ℕ) where
  -- All the input is taken, and the packet still wants more.
  partial-Done :
      (stream d : Bytes) (s : Parser) {r : ℕ}
      → Done lim base stream s
      → s.synchronized ≡ true
      → required lim s.buffer ≡ some r
      → length d < r
      → Done lim base (stream ++ d) (append d s)
  partial-Done stream d s w y e h = record {
    tracks = append-Tracks lim base d w.tracks;
    settled = record {
      start = w.settled.start;
      partial = λ _. required-Incomplete lim s.buffer d e h;
      bounded = λ n. cc;
    };
  }

  -- What a round owes: a result, or a settled state with less input to go.
  abbrev pub Owes : Bytes → ℕ → Filled → Type 0
  Owes full size (stop r) = Returns lim base full r
  Owes full size (next d u) =
      (stream : Bytes) × (full ≡ stream ++ d) × Done lim base stream u × (length d < size)

  fill_on-Owes :
      (stream x d : Bytes) (size : ℕ) (r : Option Parser)
      → Returns lim base (stream ++ x) r
      → length d < size
      → Owes (stream ++ (x ++ d)) size (fill_on d r)
  fill_on-Owes stream x d size none (u, e, w) h = cc
  fill_on-Owes stream x d size (some v) (u, e, w) h =
      let same : u ≡ v = cc in
      (stream ++ x, sym (append_assoc stream x d), subst (Done lim base (stream ++ x)) same w, h)

  fill_with-Owes :
      (stream d : Bytes) (s : Parser) (o : Option ℕ)
      → required lim s.buffer ≡ o
      → Done lim base stream s
      → s.synchronized ≡ true
      → 0 < length d
      → Owes (stream ++ d) (length d) (fill_with lim d s o)
  unfolding fill_with
  fill_with-Owes stream d s none e w y h = append_rest-Returns lim base d s w.tracks
  fill_with-Owes stream d s (some r) e w y h = elim (Bool-cases (ltb (min r (length d)) r)) [
    | inl short ↦
        let lt : length d < r = ground arith in
        let all : take (min r (length d)) d ≡ d = take_all (min r (length d)) d (omega arith) in
        rw short (append d s, ap (λ x. some (append x s)) all, partial-Done stream d s w y e lt)
    | inr enough ↦
        let pos : 0 < r = required_pos lim s.buffer (w.settled.partial y) e in
        let le : r ≤ length d = ground arith in
        let n : ℕ = min r (length d) in
        rw enough (
          rw (take-append-drop n d) at (
            fill_on-Owes stream (take n d) (drop n d) (length d) _
              (append_rest-Returns lim base (take n d) s w.tracks)
              (omega (arith, length-drop n d))))
  ]

  pub fill_round-Owes :
      (stream d : Bytes) (s : Parser)
      → Done lim base stream s
      → Owes (stream ++ d) (length d) (fill_round lim d s)
  unfolding fill_round
  fill_round-Owes stream [] s w = push_rest-Returns lim base stream [] s w
  fill_round-Owes stream (x ∷ d) s w = elim (Bool-cases (is_empty s.buffer || not s.synchronized)) [
    | inl over ↦ simp over (push_rest-Returns lim base stream (x ∷ d) s w)
    | inr more ↦ simp more (
        fill_with-Owes stream (x ∷ d) s (required lim s.buffer) refl w (ground arith) (omega arith))
  ]

  fill-Returns :
      (fuel : ℕ) (stream d : Bytes) (s : Parser)
      → length d < fuel
      → Done lim base stream s
      → Returns lim base (stream ++ d) (fill fuel lim d s)
  unfolding fill
  fill-Returns zero stream d s h w = absurd (omega arith)
  fill-Returns (suc fuel) stream d s h w =
      go (fill_round lim d s) (fill_round-Owes stream d s w) (fill-Returns fuel)
    where
      go :
          (f : Filled)
          → Owes (stream ++ d) (length d) f
          → ((stream' d' : Bytes) (u : Parser)
              → length d' < fuel
              → Done lim base stream' u
              → Returns lim base (stream' ++ d') (fill fuel lim d' u))
          → Returns lim base (stream ++ d) (fill_next (fill fuel lim) f)
      go (stop r) o ih = o
      go (next d' u) (stream', e, k, lt) ih = rw e (ih stream' d' u (omega (arith, lt)) k)

  -- `push` ends, whatever the bytes: the parser stays in step with the whole stream received, each
  -- packet that it has delivered stands in that stream at the offset reported, and the state is
  -- settled again.
  pub push-Returns :
      (stream d : Bytes) (s : Parser)
      → Done lim base stream s
      → Returns lim base (stream ++ d) (push lim d s)
  unfolding push
  push-Returns stream [] s w = rw append-nil (s, refl, w)
  push-Returns stream (x ∷ d) s w = go s.synchronized
    where
      go :
          (b : Bool)
          → Returns lim base (stream ++ x ∷ d) (
              if not b
              then append_rest lim (x ∷ d) s
              else fill (suc (length (x ∷ d))) lim (x ∷ d) s)
      go true = fill-Returns (suc (length (x ∷ d))) stream (x ∷ d) s (omega arith) w
      go false = append_rest-Returns lim base (x ∷ d) s w.tracks

  -- For a parser in step with the stream received since its reset, `flush` ends with nothing
  -- buffered and the synchronization gone, still in step with that stream.
  pub flush-Returns :
      (stream : Bytes) (s : Parser)
      → Tracks lim base stream s
      → (t : Parser) × (flush lim s ≡ some t)
        × Tracks lim base stream t
        × (t.buffer ≡ [])
        × (t.synchronized ≡ false)
  unfolding flush process
  flush-Returns stream s t =
      let (u, e, w, b) =
        process_on-returns lim base (suc (available s)) stream true s (omega arith) t in
      (
        record u { synchronized = false },
        ap desynchronized e,
        flag-Tracks lim base false w.tracks,
        b refl,
        refl,
      )

-- ===== src/Tlv/Push.antt =====
-- `push`, `flush` and `reset`: they end, stay in step with the stream, and leave a settled state.
use libaribtlv.Base.{
  ℕ, ◌≡◌, refl, sym, ap, ◌∙◌, true, some, [], ◌∷◌, ◌++◌, arith, append_assoc, append-nil,
  if◌then◌else◌, not, ◌||◌, Bool-cases, inl, inr, length, length-append, All-map, Bytes, add_u64,
}
use libaribtlv.Tlv.Rounds.{Settled, short_bytes}
use libaribtlv.Tlv.Stream.{Honest, Honest-append, Tracks}
use libaribtlv.Types.{Limits}
use libaribtlv.Tlv.{Parser, append, is_empty, append_rest, direct, push_direct, push_rest}
use libaribtlv.Tlv.Process.{Done, Returns, process-Returns, append_rest-Returns}
use libaribtlv.Tlv.Direct.{Taken, direct-Taken}

-- The parser behind the direct loop: the offset moves past what was consumed.
abbrev pub moved : Parser × ℕ × Bytes → Parser
moved r = record (r.0) { buffer_offset = add_u64 r.0.buffer_offset r.1 }

module _ (lim : Limits) (base : ℕ) where
  Settled-synchronized :
      {s : Parser} → s.cursor ≡ 0 → s.buffer ≡ [] → s.synchronized ≡ true → Settled lim s
  Settled-synchronized c b y = record {
    start = c;
    partial = λ _. rw b (short_bytes (omega arith));
    bounded = λ n. cc;
  }

  Taken-Tracks :
      (old full : Bytes) (s : Parser) (r : Parser × ℕ × Bytes)
      → Taken lim base old full s r
      → s.buffer ≡ []
      → s.cursor ≡ 0
      → s.buffer_offset ≡ add_u64 base (length old)
      → Tracks lim base full (append r.2 (moved r))
  Taken-Tracks old full s r t b c o =
      let e : r.0.buffer ≡ [] = t.same_buffer ∙ b in
      record {
        past = old ++ t.taken;
        splits =
            t.splits
            ∙ sym (append_assoc old t.taken r.2)
            ∙ ap (λ x. (old ++ t.taken) ++ (x ++ r.2)) (sym e);
        place = omega (arith, length-append old t.taken, t.count, t.same_offset);
        inside = omega (arith, t.same_cursor);
        honest = t.honest;
      }

  -- No input is left behind the direct loop.
  Taken-Done :
      (old full : Bytes) (s : Parser) (r : Parser × ℕ × Bytes)
      → Taken lim base old full s r
      → s.buffer ≡ []
      → s.cursor ≡ 0
      → s.synchronized ≡ true
      → s.buffer_offset ≡ add_u64 base (length old)
      → r.2 ≡ []
      → Done lim base full (moved r)
  Taken-Done old full s r t b c y o z =
      let k = Taken-Tracks old full s r t b c o in
      record {
        tracks = record {
          past = k.past;
          splits =
              k.splits
              ∙ ap (λ x. k.past ++ (r.0.buffer ++ x)) z
              ∙ ap (λ x. k.past ++ x) (append-nil r.0.buffer);
          place = k.place;
          inside = omega (arith, t.same_cursor);
          honest = k.honest;
        };
        settled = Settled-synchronized (t.same_cursor ∙ c) (t.same_buffer ∙ b) (t.same_sync ∙ y);
      }

  finish-Returns :
      (old full : Bytes) (s : Parser) (r : Parser × ℕ × Bytes) (left : Bytes)
      → r.2 ≡ left
      → Taken lim base old full s r
      → s.buffer ≡ []
      → s.cursor ≡ 0
      → s.synchronized ≡ true
      → s.buffer_offset ≡ add_u64 base (length old)
      → Returns lim base full
          (if is_empty left then some (moved r) else append_rest lim left (moved r))
  finish-Returns old full s r [] e t b c y o = (moved r, refl, Taken-Done old full s r t b c y o e)
  finish-Returns old full s r (x ∷ xs) e t b c y o =
      rw (← e) (process-Returns lim base (append r.2 (moved r)) (Taken-Tracks old full s r t b c o))

  empty-offset :
      (stream : Bytes) (s : Parser)
      → Tracks lim base stream s
      → s.buffer ≡ []
      → s.buffer_offset ≡ add_u64 base (length stream)
  empty-offset stream s t b =
      t.place
      ∙ ap (λ x. add_u64 base (length x))
          (sym (t.splits ∙ ap (λ x. t.past ++ x) b ∙ append-nil t.past))

  direct-Taken_all :
      (stream d : Bytes) (s : Parser)
      → Tracks lim base stream s
      → s.buffer ≡ []
      → Taken lim base stream (stream ++ d) s (direct (length d) lim 0 d s)
  direct-Taken_all stream d s t b =
      direct-Taken lim base (length d) stream (stream ++ d) [] d s 0 refl refl
        (empty-offset stream s t b)
        (All-map (Honest lim base stream) (Honest lim base (stream ++ d)) s.events
          (Honest-append lim base d stream) t.honest)

  pub direct-Tracks :
      (stream d : Bytes) (s : Parser)
      → Tracks lim base stream s
      → s.buffer ≡ []
      → s.cursor ≡ 0
      → let r = direct (length d) lim 0 d s in Tracks lim base (stream ++ d) (append r.2 (moved r))
  direct-Tracks stream d s t b z =
      Taken-Tracks stream (stream ++ d) s _ (direct-Taken_all stream d s t b) b z
        (empty-offset stream s t b)

  push_direct-Returns :
      (stream d : Bytes) (s : Parser)
      → Done lim base stream s
      → s.buffer ≡ []
      → s.synchronized ≡ true
      → Returns lim base (stream ++ d) (push_direct lim d s)
  unfolding push_direct
  push_direct-Returns stream d s w b y =
      finish-Returns stream (stream ++ d) s (direct (length d) lim 0 d s) _ refl
        (direct-Taken_all stream d s w.tracks b) b w.settled.start y
        (empty-offset stream s w.tracks b)

  pub push_rest-Returns :
      (stream d : Bytes) (s : Parser)
      → Done lim base stream s
      → Returns lim base (stream ++ d) (push_rest lim d s)
  unfolding push_rest
  push_rest-Returns stream [] s w = rw append-nil (s, refl, w)
  push_rest-Returns stream (x ∷ d) s w =
      elim (Bool-cases (not s.synchronized || not (is_empty s.buffer))) [
        | inl stale ↦ simp stale (append_rest-Returns lim base (x ∷ d) s w.tracks)
        | inr clear ↦
            simp clear (push_direct-Returns stream (x ∷ d) s w (ground arith) (ground arith))
      ]

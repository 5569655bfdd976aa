-- ===== src/Tlv/Delivery.antt =====
-- The direct loop, `push` and whole sessions on a stream of whole packets.
use mathlib.Core.Path.{subst}
use libaribtlv.Base.{
  ℕ, zero, suc, ◌/◌, ◌%◌, ◌<◌, ◌≡◌, refl, sym, ap, ◌∙◌, Bool, true, false, not, ◌||◌, min, Option,
  none, some, List, [], ◌∷◌, ◌++◌, arith, append_assoc, append-nil, ◌^◌, ltb, if◌then◌else◌,
  Bool-cases, inl, inr, length, take, drop, length-append, take-append-drop, take_all, All, Bytes,
}
use libaribtlv.Tlv.Flow.{Passes, append_rest-Passes, push_rest-Passes}
use libaribtlv.Tlv.Rounds.{Settled, Incomplete, short_bytes}
use libaribtlv.Tlv.Process.{Done}
use libaribtlv.Tlv.Fill.{Owes, fill_round-Owes, push-Returns}
use libaribtlv.Tlv.Session.{concat, push_all-step, push_all-nil}
use libaribtlv.Tlv.Sent.{Sent, append-Sent}
use libaribtlv.Tlv.Wire.{TlvPacket, wire, deliveries, Fits}
use libaribtlv.Types.{Limits}
use libaribtlv.Tlv.{
  Parser, append_rest, is_empty, required, Filled, stop, next, fill_on, fill_with, fill_round,
  fill_next, fill, push, push_all,
}

module _ (lim : Limits) (offset : ℕ) (ps : List TlvPacket) (small : offset < 2 ^ 64) where
  abbrev Carries : Bytes → Filled → Type 0
  Carries future (stop o) = Passes lim offset ps small future o
  Carries future (next d u) = Sent lim offset ps (d ++ future) u

  fill_on-Carries :
      (future d : Bytes) (o : Option Parser)
      → Passes lim offset ps small (d ++ future) o
      → Carries future (fill_on d o)
  fill_on-Carries future d none p = tt
  fill_on-Carries future d (some u) p = p

  fill_with-Carries :
      (stream d future : Bytes) (s : Parser) (o : Option ℕ)
      → Done lim offset stream s
      → Sent lim offset ps (d ++ future) s
      → Carries future (fill_with lim d s o)
  unfolding fill_with
  fill_with-Carries stream d future s none w t =
      append_rest-Passes lim offset ps small stream d future s w t
  fill_with-Carries stream d future s (some r) w t = elim (Bool-cases (ltb n r)) [
    | inl short ↦ rw short (
        append-Sent lim offset ps small (take n d) future s w.settled.start
          (subst (λ x. Sent lim offset ps (x ++ future) s) (sym (take_all n d (ground arith))) t))
    | inr enough ↦ rw enough (
        fill_on-Carries future (drop n d) _ (
          append_rest-Passes lim offset ps small stream (take n d) (drop n d ++ future) s w
            (subst (λ x. Sent lim offset ps x s) (sym cut) t)))
  ]
    where
      n : ℕ
      n = min r (length d)

      cut : take n d ++ (drop n d ++ future) ≡ d ++ future
      cut =
          sym (append_assoc (take n d) (drop n d) future)
          ∙ ap (λ x. x ++ future) (take-append-drop n d)

  fill_round-Carries :
      (stream d future : Bytes) (s : Parser)
      → Done lim offset stream s
      → Sent lim offset ps (d ++ future) s
      → Carries future (fill_round lim d s)
  unfolding fill_round
  fill_round-Carries stream d future s w t =
      elim (Bool-cases (is_empty d || is_empty s.buffer || not s.synchronized)) [
        | inl over ↦ simp over (push_rest-Passes lim offset ps small stream d future s w t)
        | inr more ↦ simp more (fill_with-Carries stream d future s (required lim s.buffer) w t)
      ]

  fill-Passes :
      (fuel : ℕ) (stream d future : Bytes) (s : Parser)
      → Done lim offset stream s
      → Sent lim offset ps (d ++ future) s
      → Passes lim offset ps small future (fill fuel lim d s)
  unfolding fill
  fill-Passes zero stream d future s w t = tt
  fill-Passes (suc fuel) stream d future s w t =
      go (fill_round lim d s) (fill_round-Owes lim offset stream d s w)
        (fill_round-Carries stream d future s w t) (fill-Passes fuel)
    where
      go :
          (f : Filled)
          → Owes lim offset (stream ++ d) (length d) f
          → Carries future f
          → ((stream' d' future' : Bytes) (u : Parser)
              → Done lim offset stream' u
              → Sent lim offset ps (d' ++ future') u
              → Passes lim offset ps small future' (fill fuel lim d' u))
          → Passes lim offset ps small future (fill_next (fill fuel lim) f)
      go (stop o) owes carries ih = carries
      go (next d' u) (stream', e, k, lt) carries ih = ih stream' d' future u k carries

  push-Passes :
      (stream d future : Bytes) (s : Parser)
      → Done lim offset stream s
      → Sent lim offset ps (d ++ future) s
      → Passes lim offset ps small future (push lim d s)
  unfolding push
  push-Passes stream [] future s w t = t
  push-Passes stream (x ∷ d) future s w t = go s.synchronized
    where
      go :
          (b : Bool)
          → Passes lim offset ps small future (
              if not b
              then append_rest lim (x ∷ d) s
              else fill (suc (length (x ∷ d))) lim (x ∷ d) s)
      go true = fill-Passes (suc (length (x ∷ d))) stream (x ∷ d) future s w t
      go false = append_rest-Passes lim offset ps small stream (x ∷ d) future s w t

  push_all-Sent :
      (stream future : Bytes) (ds : List Bytes) (s : Parser)
      → Done lim offset stream s
      → Sent lim offset ps (concat ds ++ future) s
      → (t : Parser) × (push_all lim ds s ≡ some t) × Sent lim offset ps future t × Settled lim t
  push_all-Sent stream future [] s w t = (s, push_all-nil lim s, t, w.settled)
  push_all-Sent stream future (d ∷ ds) s w t =
      let (u, e, k) = push-Returns lim offset stream d s w in
      let sent : Sent lim offset ps (concat ds ++ future) u =
        subst (Passes lim offset ps small (concat ds ++ future)) e (
          push-Passes stream d (concat ds ++ future) s w
            (subst (λ x. Sent lim offset ps x s) (append_assoc d (concat ds) future) t)) in
      let (v, f, more, end) = push_all-Sent (stream ++ d) future ds u k sent in
      (v, push_all-step lim d ds s e ∙ f, more, end)

-- Nothing is left to deliver when no whole packet is left in the buffer.
nothing_left :
    (lim : Limits) (todo : List TlvPacket) (b : Bytes)
    → b ≡ wire todo
    → Incomplete lim b
    → todo ≡ []
nothing_left lim [] b e i = refl
nothing_left lim (p ∷ todo) b e i = absurd (
    omega (
      arith,
      length-append p.payload (wire todo),
      i.short 0x7f p.kind (length p.payload / 256) (length p.payload % 256) (p.payload ++ wire todo)
          e,
    ))

-- A parser that stands synchronized at a packet's first byte.
abbrev pub aligned : ℕ → Parser
aligned offset = record {
  buffer = [];
  cursor = 0;
  buffer_offset = offset;
  synchronized = true;
  events = [];
}

aligned-Done : (lim : Limits) (offset : ℕ) → offset < 2 ^ 64 → Done lim offset [] (aligned offset)
aligned-Done lim offset small = record {
  tracks = record {
    past = [];
    splits = refl;
    place = omega arith;
    inside = omega arith;
    honest = tt;
  };
  settled = record { start = refl; partial = λ _. short_bytes (omega arith); bounded = λ n. cc };
}

aligned-Sent :
    (lim : Limits) (offset : ℕ) (ps : List TlvPacket) (small : offset < 2 ^ 64) (future : Bytes)
    → All (Fits lim) ps
    → future ≡ wire ps
    → Sent lim offset ps future (aligned offset)
aligned-Sent lim offset ps small future fits e = record {
  sent = [];
  todo = ps;
  splits = refl;
  fits = fits;
  left = e;
  place = omega arith;
  log = refl;
  synced = refl;
}

-- A synchronized parser with an empty buffer at an `offset` of 64 bits that is given the wire
-- form of packets within the limit, cut into chunks in any way, delivers exactly those packets,
-- in order, each once and with the offset of its first byte, reports nothing else, stays
-- synchronized and keeps no byte.
pub push_all-wire :
    (lim : Limits) (offset : ℕ) (ps : List TlvPacket) (ds : List Bytes)
    → offset < 2 ^ 64
    → All (Fits lim) ps
    → concat ds ≡ wire ps
    → (t : Parser) × (push_all lim ds (aligned offset) ≡ some t)
      × (t.events ≡ deliveries offset ps)
      × (t.buffer ≡ [])
      × (t.synchronized ≡ true)
push_all-wire lim offset ps ds small fits e =
    let (t, r, sent, settled) =
      push_all-Sent lim offset ps small [] [] ds (aligned offset) (aligned-Done lim offset small)
        (aligned-Sent lim offset ps small (concat ds ++ []) fits (append-nil (concat ds) ∙ e)) in
    let left : t.buffer ≡ wire sent.todo =
      sym (append-nil t.buffer) ∙ ap (λ n. drop n t.buffer ++ []) (sym settled.start) ∙ sent.left in
    let none_left : sent.todo ≡ [] =
      nothing_left lim sent.todo t.buffer left (settled.partial sent.synced) in
    let all : ps ≡ sent.sent =
      sent.splits ∙ ap (λ x. sent.sent ++ x) none_left ∙ append-nil sent.sent in
    (t, r, sent.log ∙ ap (deliveries offset) (sym all), left ∙ ap wire none_left, sent.synced)

-- ===== src/Tlv/Session.antt =====
-- Whole sessions: a parser that is reset, and any sequence of chunks.

use libaribtlv.Base.{
  ℕ, ◌+◌, ◌≤◌, ◌<◌, ◌≡◌, refl, ◌∙◌, some, List, [], ◌∷◌, ◌++◌, arith, append_assoc, append-nil, max,
  ◌^◌, length, inl, inr, Bool-cases, All, Bytes,
}
use libaribtlv.Tlv.Rounds.{Settled, Incomplete}
use libaribtlv.Tlv.Process.{Done, Returns}
use libaribtlv.Tlv.Fill.{push-Returns}
use libaribtlv.Tlv.Stream.{Honest}
use libaribtlv.Types.{Limits}
use libaribtlv.Tlv.{Parser, push, push_all, reset, fresh}

-- The bytes of the chunks in order.
abbrev pub concat : List Bytes → Bytes
concat [] = []
concat (d ∷ ds) = d ++ concat ds

pub reset-Done :
    (lim : Limits) (offset : ℕ) (s : Parser)
    → offset < 2 ^ 64
    → s.events ≡ []
    → Done lim offset [] (reset offset s)
unfolding reset
reset-Done lim offset s h e = record {
  tracks = record {
    past = [];
    splits = refl;
    place = omega arith;
    inside = omega arith;
    honest = rw e tt;
  };
  settled = record { start = refl; partial = λ y. cc; bounded = λ _. omega arith };
}

pub push_all-nil : (lim : Limits) (s : Parser) → push_all lim [] s ≡ some s
unfolding push_all
push_all-nil lim s = refl

pub push_all-step :
    (lim : Limits) (d : Bytes) (ds : List Bytes) (s : Parser) {t : Parser}
    → push lim d s ≡ some t
    → push_all lim (d ∷ ds) s ≡ push_all lim ds t
unfolding push_all
push_all-step lim d ds s e = rw (e, push_all)

pub push_all-Returns :
    (lim : Limits) (base : ℕ) (stream : Bytes) (ds : List Bytes) (s : Parser)
    → Done lim base stream s
    → Returns lim base (stream ++ concat ds) (push_all lim ds s)
unfolding push_all
push_all-Returns lim base stream [] s w = rw append-nil (s, refl, w)
push_all-Returns lim base stream (d ∷ ds) s w =
    let (t, e, k) = push-Returns lim base stream d s w in
    let (u, f, m) = push_all-Returns lim base (stream ++ d) ds t k in
    (u, push_all-step lim d ds s e ∙ f, rw (append_assoc stream d (concat ds)) at m)

Incomplete-bounded :
    (lim : Limits) (b : Bytes) → Incomplete lim b → length b ≤ 3 + lim.max_tlv_payload
Incomplete-bounded lim (b0 ∷ b1 ∷ b2 ∷ b3 ∷ rest) i = omega (arith, i.short b0 b1 b2 b3 rest refl)
Incomplete-bounded lim [] i = omega arith
Incomplete-bounded lim (a ∷ []) i = omega arith
Incomplete-bounded lim (a ∷ b ∷ []) i = omega arith
Incomplete-bounded lim (a ∷ b ∷ c ∷ []) i = omega arith

-- The bytes that a settled parser holds.
pub Settled-bounded :
    {lim : Limits} (s : Parser)
    → Settled lim s
    → length s.buffer ≤ max (3 + lim.max_tlv_payload) (max 3 lim.max_resync_buffer)
Settled-bounded {lim} s w = elim (Bool-cases s.synchronized) [
  | inl y ↦ omega (arith, Incomplete-bounded lim s.buffer (w.partial y))
  | inr n ↦ omega (arith, w.bounded n)
]

-- A parser reset at an `offset` of 64 bits accepts every sequence of chunks: the pushes end;
-- every packet delivered is a whole TLV packet of the stream, no longer than the limit, whose
-- reported offset is that of its first byte; and what stays buffered is bounded by the limits.
pub push_all-Honest :
    (lim : Limits) (offset : ℕ) (ds : List Bytes)
    → offset < 2 ^ 64
    → (t : Parser) × (push_all lim ds (reset offset fresh) ≡ some t)
      × All (Honest lim offset (concat ds)) t.events
      × (length t.buffer ≤ max (3 + lim.max_tlv_payload) (max 3 lim.max_resync_buffer))
push_all-Honest lim offset ds h =
    let w = reset-Done lim offset fresh h refl in
    let (t, e, k) = push_all-Returns lim offset [] ds (reset offset fresh) w in
    (t, e, k.tracks.honest, Settled-bounded t k.settled)

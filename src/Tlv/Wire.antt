-- ===== src/Tlv/Wire.antt =====
-- The wire form of TLV packets, which the framer inverts.
use libaribtlv.Base.{
  ℕ, ◌+◌, ◌/◌, ◌%◌, ◌≤◌, ◌<◌, ◌≡◌, refl, sym, ap, ◌∙◌, List, [], ◌∷◌, ◌++◌, arith, append_assoc,
  append-nil, ◌^◌, length, take, drop, length-append, Bytes, add_u64,
}
use mathlib.Core.Path.{ap₂}
use libaribtlv.Types.{Limits}
use libaribtlv.Tlv.{Event, packet}

pub record TlvPacket : Type 0 where
  pub kind : ℕ
  pub payload : Bytes

abbrev pub wire_packet : TlvPacket → Bytes
wire_packet p = 0x7f ∷ p.kind ∷ (length p.payload / 256) ∷ (length p.payload % 256) ∷ p.payload

abbrev pub wire : List TlvPacket → Bytes
wire [] = []
wire (p ∷ ps) = wire_packet p ++ wire ps

-- The events of packets that stand one behind the other from `offset` on.
abbrev pub deliveries : ℕ → List TlvPacket → List Event
deliveries offset [] = []
deliveries offset (p ∷ ps) =
    packet p.kind p.payload offset ∷ deliveries (add_u64 offset (4 + length p.payload)) ps

-- A payload that the limit admits.
abbrev pub Fits : Limits → TlvPacket → Type 0
Fits lim p = length p.payload ≤ lim.max_tlv_payload

pub append-split_at {ℓ} :
    {A : Type ℓ} (a b c d : List A)
    → a ++ b ≡ c ++ d
    → length c ≤ length a
    → (take (length c) a ≡ c) × (drop (length c) a ++ b ≡ d)
append-split_at a b [] d e h = (refl, e)
append-split_at [] b (x ∷ c) d e h = absurd (omega arith)
append-split_at (y ∷ a) b (x ∷ c) d e h =
    let heads : y ≡ x = cc in
    let tails : a ++ b ≡ c ++ d = cc in
    let (t, u) = append-split_at a b c d tails (omega arith) in (ap₂ ◌∷◌ heads t, u)

pub deliveries-append :
    (offset : ℕ) (ps : List TlvPacket) (p : TlvPacket)
    → offset < 2 ^ 64
    → deliveries offset (ps ++ p ∷ [])
      ≡ deliveries offset ps ++ (packet p.kind p.payload (add_u64 offset (length (wire ps))) ∷ [])
deliveries-append offset [] p h =
    let e : offset ≡ add_u64 offset 0 = omega arith in ap (λ o. packet p.kind p.payload o ∷ []) e
deliveries-append offset (q ∷ ps) p h = ap (◌∷◌ (packet q.kind q.payload offset)) (
    deliveries-append (add_u64 offset (4 + length q.payload)) ps p (omega arith)
    ∙ ap
        (λ o.
          deliveries (add_u64 offset (4 + length q.payload)) ps ++ packet p.kind p.payload o ∷ [])
        (omega (arith, length-append q.payload (wire ps))))

pub wire-append :
    (ps : List TlvPacket) (p : TlvPacket) → wire (ps ++ p ∷ []) ≡ wire ps ++ wire_packet p
wire-append [] p = append-nil (wire_packet p)
wire-append (q ∷ ps) p =
    rw (wire-append ps p) (sym (append_assoc (wire_packet q) (wire ps) (wire_packet p)))

-- ===== src/Mmtp/Packet/Slices.antt =====
-- `push` ends on every packet, and what it hands on is a part of the packet.
use mathlib.Core.Path.{subst}
use libaribtlv.Mmtp.Packet.Ends.{Ends, read_extension_header-Ends}
use libaribtlv.Reader.{be16}
use libaribtlv.Base.{
  if◌then◌else◌, get_or, drop-append, ◌+◌, ℕ, ◌/◌, ◌%◌, ◌≤◌, ◌≡◌, refl, sym, ap, ◌∙◌, Bool, true,
  false, Bool-cases, if_both, inl, inr, Option, none, some, [], ◌∷◌, ◌++◌, append_assoc, append-nil,
  ltb, ◌==◌, length, take, drop, length-append, length-drop, take-append-drop, Bytes, arith,
}
use libaribtlv.Mmtp.Packet.{
  PacketExtensions, Handed, signalling, mpu, error, parse_packet_extensions, skip_counter, Extended,
  failed, extended, extended_by, read_extension_header, authenticated, Fixed, hand_on,
  after_extensions, after_counter, push,
}

-- The bytes of the counter that the flags announce.
abbrev pub counter_size : Bool → ℕ
counter_size counter = if counter then 4 else 0

-- The bytes of the extension header at the front of the rest, by its own length field.
abbrev pub extension_size : Bool → Bytes → ℕ
extension_size extension rest =
    if extension then 4 + be16 (get_or rest 2 0) (get_or rest 3 0) else 0

-- Where the payload of a packet begins, by its flags and the length of its extension header.
unfoldable pub payload_start : Bytes → ℕ
payload_start bytes =
    let n = 12 + counter_size (get_or bytes 0 0 / 32 % 2 == 1) in
    n + extension_size (get_or bytes 0 0 / 2 % 2 == 1) (drop n bytes)

-- `payload` stands in `bytes` behind exactly `n` bytes.
pub record PartOf (n : ℕ) (bytes payload : Bytes) : Type 0 where
  pub before : Bytes
  pub after : Bytes
  pub splits : bytes ≡ before ++ payload ++ after
  pub behind : length before ≡ n

-- The payload has the authenticated size, if there is one.
abbrev pub HasSize : Option ℕ → Bytes → Type 0
HasSize none payload = Unit
HasSize (some n) payload = length payload ≡ n

-- What is handed on is the part of the packet that its header tells.
abbrev pub Sound : Bytes → Handed → Type 0
Sound bytes (signalling pid s payload o) = PartOf (payload_start bytes) bytes payload
Sound bytes (mpu pid s t ra payload o r) =
    PartOf (payload_start bytes) bytes payload × HasSize r.authenticated_payload_size payload
Sound bytes (error c o m) = Unit

-- A suffix behind `n` bytes.
abbrev Suffix : ℕ → Bytes → Bytes → Type 0
Suffix n bytes rest = (before : Bytes) × (bytes ≡ before ++ rest) × (length before ≡ n)

abbrev pub Returns : Bytes → Option Handed → Type 0
Returns bytes o = (h : Handed) × (o ≡ some h) × Sound bytes h

length-take_within : (n : ℕ) (xs : Bytes) → n ≤ length xs → length (take n xs) ≡ n
length-take_within n xs h = omega (
  arith,
  length-append (take n xs) (drop n xs),
  ap length (take-append-drop n xs),
  length-drop n xs,
)

suffix-drop :
    (n m : ℕ) (bytes rest : Bytes)
    → m ≤ length rest
    → Suffix n bytes rest
    → Suffix (n + m) bytes (drop m rest)
suffix-drop n m bytes rest l (before, e, h) = (
  before ++ take m rest,
  e
      ∙ ap (λ l. before ++ l) (sym (take-append-drop m rest))
      ∙ sym (append_assoc before (take m rest) (drop m rest)),
  omega (arith, length-append before (take m rest), length-take_within m rest l),
)

-- Bytes in front of a suffix.
suffix-append :
    (n : ℕ) (bytes front rest : Bytes)
    → Suffix n bytes (front ++ rest)
    → Suffix (n + length front) bytes rest
suffix-append n bytes front rest (before, e, h) = (
  before ++ front,
  e ∙ sym (append_assoc before front rest),
  omega (arith, length-append before front),
)

-- A suffix is what is left when the bytes before it are dropped.
suffix-is_drop : (n : ℕ) (bytes rest : Bytes) → Suffix n bytes rest → drop n bytes ≡ rest
suffix-is_drop n bytes rest (before, e, h) =
    ap (drop n) e ∙ ap (λ m. drop m (before ++ rest)) (sym h) ∙ drop-append before rest

extended_by-rest :
    (rest : Bytes) (o : Option (Option PacketExtensions)) {r : PacketExtensions} {left : Bytes}
    → extended_by rest o ≡ some (extended r left)
    → rest ≡ left
extended_by-rest rest none e = cc e
extended_by-rest rest (some none) e = cc e
extended_by-rest rest (some (some s)) e = cc e

not_below : (a b : ℕ) → ltb a b ≡ false → b ≤ a
not_below a b h = ground arith

extended_rest :
    {r q : PacketExtensions} {rest left : Bytes}
    → some (extended q rest) ≡ some (extended r left)
    → rest ≡ left
extended_rest e = cc e

read_extension_header-Suffix :
    (n : ℕ) (bytes : Bytes) (b : Bool) (rest : Bytes) {r : PacketExtensions} {left : Bytes}
    → Suffix n bytes rest
    → read_extension_header b rest ≡ some (extended r left)
    → Suffix (n + extension_size b rest) bytes left
unfolding read_extension_header
read_extension_header-Suffix n bytes false rest {r} {left} s e =
    subst (λ m. Suffix m bytes left) (let same : n ≡ n + 0 = omega arith in same)
      (subst (Suffix n bytes) (extended_rest e) s)
read_extension_header-Suffix n bytes true (b0 ∷ b1 ∷ b2 ∷ b3 ∷ rest) s e =
    elim (Bool-cases (ltb (length rest) (be16 b2 b3))) [
      | inl y ↦ cc (rw y at e)
      | inr w ↦
          subst (Suffix (n + (4 + be16 b2 b3)) bytes)
            (extended_by-rest _ (parse_packet_extensions (be16 b0 b1) (take (be16 b2 b3) rest))
              (rw w at e))
            (subst (λ m. Suffix m bytes (drop (be16 b2 b3) rest))
              (let same : n + 4 + be16 b2 b3 ≡ n + (4 + be16 b2 b3) = omega arith in same)
              (suffix-drop (n + 4) (be16 b2 b3) bytes rest (not_below (length rest) (be16 b2 b3) w)
                (suffix-append n bytes (b0 ∷ b1 ∷ b2 ∷ b3 ∷ []) rest s)))
    ]
read_extension_header-Suffix n bytes true (b0 ∷ b1 ∷ b2 ∷ []) s e = cc e
read_extension_header-Suffix n bytes true (b0 ∷ b1 ∷ []) s e = cc e
read_extension_header-Suffix n bytes true (b0 ∷ []) s e = cc e
read_extension_header-Suffix n bytes true [] s e = cc e

skip_counter-Suffix :
    (n : ℕ) (bytes : Bytes) (b : Bool) (rest : Bytes) {left : Bytes}
    → Suffix n bytes rest
    → skip_counter b rest ≡ some left
    → Suffix (n + counter_size b) bytes left
unfolding skip_counter
skip_counter-Suffix n bytes false rest {left} s e =
    subst (λ m. Suffix m bytes left) (let same : n ≡ n + 0 = omega arith in same)
      (subst (Suffix n bytes) (cc e) s)
skip_counter-Suffix n bytes true (b0 ∷ b1 ∷ b2 ∷ b3 ∷ rest) s e =
    subst (Suffix (n + 4) bytes) (cc e) (suffix-append n bytes (b0 ∷ b1 ∷ b2 ∷ b3 ∷ []) rest s)
skip_counter-Suffix n bytes true (b0 ∷ b1 ∷ b2 ∷ []) s e = cc e
skip_counter-Suffix n bytes true (b0 ∷ b1 ∷ []) s e = cc e
skip_counter-Suffix n bytes true (b0 ∷ []) s e = cc e
skip_counter-Suffix n bytes true [] s e = cc e

module _ (bytes : Bytes) (f : Fixed) (offset : ℕ) where
  hand_on-Sound :
      (r : PacketExtensions) (o : Option Bytes)
      → ((payload : Bytes)
          → o ≡ some payload
          → PartOf (payload_start bytes) bytes payload
            × HasSize r.authenticated_payload_size payload)
      → Sound bytes (hand_on f offset r o)
  unfolding hand_on
  hand_on-Sound r none k = tt
  hand_on-Sound r (some payload) k =
      if_both (Sound bytes) (f.payload_type == 2)
        {x = signalling f.packet_id f.sequence payload offset} (k payload refl).0
        (if_both (Sound bytes) (f.payload_type == 0)
          {x = mpu f.packet_id f.sequence f.delivery_timestamp f.random_access payload offset r}
          (k payload refl) tt)

  authenticated-PartOf :
      (o : Option ℕ) (rest payload : Bytes)
      → Suffix (payload_start bytes) bytes rest
      → authenticated o rest ≡ some payload
      → PartOf (payload_start bytes) bytes payload × HasSize o payload
  unfolding authenticated
  authenticated-PartOf none rest payload (before, e, h) k = (
    record {
      before = before;
      after = [];
      splits =
          e
          ∙ ap (λ l. before ++ l) (let same : rest ≡ payload = cc k in same)
          ∙ sym (append-nil (before ++ payload));
      behind = h;
    },
    tt,
  )
  authenticated-PartOf (some n) rest payload (before, e, h) k =
      elim (Bool-cases (ltb (length rest) n)) [
        | inl y ↦ cc (rw y at k)
        | inr w ↦
            let same : take n rest ≡ payload = cc (rw w at k) in
            (
              record {
                before = before;
                after = drop n rest;
                splits =
                    e
                    ∙ ap (λ l. before ++ l) (sym (take-append-drop n rest))
                    ∙ sym (append_assoc before (take n rest) (drop n rest))
                    ∙ ap (λ l. before ++ l ++ drop n rest) same;
                behind = h;
              },
              sym (ap length same) ∙ length-take_within n rest (not_below (length rest) n w),
            )
      ]

  after_extensions-Returns :
      (o : Option Extended)
      → ((r : PacketExtensions) (rest : Bytes)
          → o ≡ some (extended r rest)
          → Suffix (payload_start bytes) bytes rest)
      → Ends o
      → Returns bytes (after_extensions f offset o)
  unfolding after_extensions
  after_extensions-Returns none k e = cc e.1
  after_extensions-Returns (some (failed m)) k e = (_, refl, tt)
  after_extensions-Returns (some (extended r rest)) k e = (
    _,
    refl,
    hand_on-Sound r (authenticated r.authenticated_payload_size rest) (λ payload e'.
        authenticated-PartOf r.authenticated_payload_size rest payload (k r rest refl) e'),
  )

  after_counter-Returns :
      (extension : Bool) (o : Option Bytes)
      → ((rest : Bytes)
          → o ≡ some rest
          → (n : ℕ) × Suffix n bytes rest
            × (n + extension_size extension rest ≡ payload_start bytes))
      → Returns bytes (after_counter f offset extension o)
  unfolding after_counter
  after_counter-Returns extension none k = (_, refl, tt)
  after_counter-Returns extension (some rest) k =
      let (n, s, start) = k rest refl in
      after_extensions-Returns (read_extension_header extension rest)
        (λ r left e.
          subst (λ m. Suffix m bytes left) start
            (read_extension_header-Suffix n bytes extension rest s e))
        (read_extension_header-Ends extension rest)

-- `push` ends on every packet, also one cut short or malformed. A payload that it hands on is the part
-- of the packet that begins exactly behind the fixed header, the counter if the flags announce one and
-- the extension header with the length that it states; and one handed to `parse_mpu` with an
-- authenticated size has exactly this size.
pub push-Sound :
    (bytes : Bytes) (offset : ℕ) → (h : Handed) × (push bytes offset ≡ some h) × Sound bytes h
unfolding push payload_start
push-Sound (b0 ∷ b1 ∷ b2 ∷ b3 ∷ b4 ∷ b5 ∷ b6 ∷ b7 ∷ b8 ∷ b9 ∷ b10 ∷ b11 ∷ rest) offset =
    if_both (Returns (front ++ rest)) _ (_, refl, tt)
      (after_counter-Returns (front ++ rest) _ offset (b0 / 2 % 2 == 1)
        (skip_counter (b0 / 32 % 2 == 1) rest) start)
  where
    front : Bytes
    front = b0 ∷ b1 ∷ b2 ∷ b3 ∷ b4 ∷ b5 ∷ b6 ∷ b7 ∷ b8 ∷ b9 ∷ b10 ∷ b11 ∷ []

    start :
        (left : Bytes)
        → skip_counter (b0 / 32 % 2 == 1) rest ≡ some left
        → (n : ℕ) × Suffix n (front ++ rest) left
          × (n + extension_size (b0 / 2 % 2 == 1) left ≡ payload_start (front ++ rest))
    start left e =
        let s =
          skip_counter-Suffix 12 (front ++ rest) (b0 / 32 % 2 == 1) rest (front, refl, omega arith)
            e in
        (
          12 + counter_size (b0 / 32 % 2 == 1),
          s,
          ap (λ l. 12 + counter_size (b0 / 32 % 2 == 1) + extension_size (b0 / 2 % 2 == 1) l)
              (sym (suffix-is_drop (12 + counter_size (b0 / 32 % 2 == 1)) (front ++ rest) left s)),
        )
push-Sound (b0 ∷ b1 ∷ b2 ∷ b3 ∷ b4 ∷ b5 ∷ b6 ∷ b7 ∷ b8 ∷ b9 ∷ b10 ∷ []) offset = (_, refl, tt)
push-Sound (b0 ∷ b1 ∷ b2 ∷ b3 ∷ b4 ∷ b5 ∷ b6 ∷ b7 ∷ b8 ∷ b9 ∷ []) offset = (_, refl, tt)
push-Sound (b0 ∷ b1 ∷ b2 ∷ b3 ∷ b4 ∷ b5 ∷ b6 ∷ b7 ∷ b8 ∷ []) offset = (_, refl, tt)
push-Sound (b0 ∷ b1 ∷ b2 ∷ b3 ∷ b4 ∷ b5 ∷ b6 ∷ b7 ∷ []) offset = (_, refl, tt)
push-Sound (b0 ∷ b1 ∷ b2 ∷ b3 ∷ b4 ∷ b5 ∷ b6 ∷ []) offset = (_, refl, tt)
push-Sound (b0 ∷ b1 ∷ b2 ∷ b3 ∷ b4 ∷ b5 ∷ []) offset = (_, refl, tt)
push-Sound (b0 ∷ b1 ∷ b2 ∷ b3 ∷ b4 ∷ []) offset = (_, refl, tt)
push-Sound (b0 ∷ b1 ∷ b2 ∷ b3 ∷ []) offset = (_, refl, tt)
push-Sound (b0 ∷ b1 ∷ b2 ∷ []) offset = (_, refl, tt)
push-Sound (b0 ∷ b1 ∷ []) offset = (_, refl, tt)
push-Sound (b0 ∷ []) offset = (_, refl, tt)
push-Sound [] offset = (_, refl, tt)

-- ===== src/Mmtp/Packet/RoundTrip.antt =====
-- A packet that a sender writes is read back by `push`.
use libaribtlv.Reader.{be16, be32}
use libaribtlv.Base.{
  ℕ, suc, ◌+◌, ◌*◌, ◌/◌, ◌%◌, ◌<◌, ◌^◌, ◌≡◌, refl, ap, ◌∙◌, Bool, true, false, Option, none, some,
  List, [], ◌∷◌, ◌++◌, append-nil, ltb, ◌==◌, if◌then◌else◌, length, take-append, drop-append,
  length-append, Bytes, arith, All,
}
use libaribtlv.Mmtp.Packet.Extensions.{
  Extension, bytes32, entries, meanings, Fits, read_entries-entries,
}
use libaribtlv.Mmtp.Packet.{
  PacketExtensions, no_extensions, Handed, signalling, mpu, Fixed, parse_packet_extensions,
  skip_counter, extended, extended_by, read_extension_header, authenticated, hand_on,
  after_extensions, after_counter, push,
}

-- A packet: the counter, the entries of the extension header and whether the last one carries the end
-- flag, the payload, and what follows it where the payload's size is authenticated.
pub record Packet : Type 0 where
  pub random_access : Bool
  pub is_signalling : Bool
  pub packet_id : ℕ
  pub delivery_timestamp : ℕ
  pub sequence : ℕ
  pub counter : Option ℕ
  pub extension : Option (Bool × List Extension)
  pub payload : Bytes
  pub trailer : Bytes

abbrev pub has {ℓ} : {A : Type ℓ} → Option A → Bool
has none = false
has (some x) = true

abbrev pub bit : Bool → ℕ
bit true = 1
bit false = 0

abbrev pub counter_bytes : Option ℕ → Bytes → Bytes
counter_bytes none rest = rest
counter_bytes (some n) rest = bytes32 n rest

abbrev pub extension_bytes : Option (Bool × List Extension) → Bytes → Bytes
extension_bytes none rest = rest
extension_bytes (some (closing, es)) rest =
    0
    ∷ 0
    ∷ (length (entries closing es) / 256)
    ∷ (length (entries closing es) % 256)
    ∷ (entries closing es ++ rest)

abbrev pub write : Packet → Bytes
write p =
    (bit (has p.counter) * 32 + bit (has p.extension) * 2 + bit p.random_access)
    ∷ (if p.is_signalling then 2 else 0)
    ∷ (p.packet_id / 256)
    ∷ (p.packet_id % 256)
    ∷ bytes32 p.delivery_timestamp (
        bytes32 p.sequence
          (counter_bytes p.counter (extension_bytes p.extension (p.payload ++ p.trailer))))

abbrev pub extensions_of : Option (Bool × List Extension) → PacketExtensions
extensions_of none = no_extensions
extensions_of (some (closing, es)) = meanings es no_extensions

-- The trailer is there only behind a payload of authenticated size.
abbrev pub Trails : Option ℕ → Bytes → Bytes → Type 0
Trails none payload trailer = trailer ≡ []
Trails (some n) payload trailer = n ≡ length payload

abbrev pub ExtensionFits : Option (Bool × List Extension) → Type 0
ExtensionFits none = Unit
ExtensionFits (some (closing, es)) = (length (entries closing es) < 2 ^ 16) × All Fits es

pub record IsValid (p : Packet) : Type 0 where
  pub id_fits : p.packet_id < 2 ^ 16
  pub timestamp_fits : p.delivery_timestamp < 2 ^ 32
  pub sequence_fits : p.sequence < 2 ^ 32
  pub extension_fits : ExtensionFits p.extension
  pub trails : Trails (extensions_of p.extension).authenticated_payload_size p.payload p.trailer

abbrev pub handed : Packet → ℕ → Handed
handed p offset =
    if p.is_signalling
    then signalling p.packet_id p.sequence p.payload offset
    else mpu p.packet_id p.sequence p.delivery_timestamp p.random_access p.payload offset
        (extensions_of p.extension)

number16 : (n : ℕ) → be16 (n / 256) (n % 256) ≡ n
number16 n = omega arith

number32 : (n : ℕ) → be32 (n / 16777216) (n / 65536 % 256) (n / 256 % 256) (n % 256) ≡ n
number32 n = omega arith

skip_counter-bytes :
    (c : Option ℕ) (rest : Bytes) → skip_counter (has c) (counter_bytes c rest) ≡ some rest
unfolding skip_counter
skip_counter-bytes none rest = refl
skip_counter-bytes (some n) rest = refl

within : (u rest : Bytes) → ltb (length (u ++ rest)) (length u) ≡ false
within u rest = let e = length-append u rest in ground arith

read_extension_header-bytes :
    (x : Option (Bool × List Extension)) (rest : Bytes)
    → ExtensionFits x
    → read_extension_header (has x) (extension_bytes x rest)
      ≡ some (extended (extensions_of x) rest)
unfolding read_extension_header parse_packet_extensions
read_extension_header-bytes none rest h = refl
read_extension_header-bytes (some (closing, es)) rest h =
    rw (number16 (length (entries closing es))) (
      rw
        (
          within (entries closing es) rest,
          take-append (entries closing es) rest,
          drop-append (entries closing es) rest,
        )
        (ap (extended_by rest) (
          read_entries-entries (suc (length (entries closing es))) closing es no_extensions
            (omega arith) h.1)))

authenticated-trailer :
    (a : Option ℕ) (payload trailer : Bytes)
    → Trails a payload trailer
    → authenticated a (payload ++ trailer) ≡ some payload
unfolding authenticated
authenticated-trailer none payload trailer h =
    ap some (ap (λ t. payload ++ t) h ∙ append-nil payload)
authenticated-trailer (some n) payload trailer h =
    ap (λ k. authenticated (some k) (payload ++ trailer)) h
    ∙ (rw (within payload trailer, take-append payload trailer) refl)

-- The first byte's fields.
version_read : (c x r : Bool) → ((bit c * 32 + bit x * 2 + bit r) / 64 == 0) ≡ true
version_read c x r = ground arith

counter_read : (c x r : Bool) → ((bit c * 32 + bit x * 2 + bit r) / 32 % 2 == 1) ≡ c
counter_read c x r = ground arith

extension_read : (c x r : Bool) → ((bit c * 32 + bit x * 2 + bit r) / 2 % 2 == 1) ≡ x
extension_read c x r = ground arith

access_read : (c x r : Bool) → ((bit c * 32 + bit x * 2 + bit r) % 2 == 1) ≡ r
access_read c x r = ground arith

abbrev fixed_of : Packet → Fixed
fixed_of p = record {
  random_access = p.random_access;
  payload_type = (if p.is_signalling then 2 else 0) % 64;
  packet_id = p.packet_id;
  delivery_timestamp = p.delivery_timestamp;
  sequence = p.sequence;
}

push-fixed :
    (p : Packet) (offset : ℕ)
    → push (write p) offset
      ≡ after_counter (fixed_of p) offset (has p.extension) (
          skip_counter
            (has p.counter)
            (counter_bytes p.counter (extension_bytes p.extension (p.payload ++ p.trailer))))
unfolding push
push-fixed p offset =
    rw
      (
        version_read (has p.counter) (has p.extension) p.random_access,
        counter_read (has p.counter) (has p.extension) p.random_access,
        extension_read (has p.counter) (has p.extension) p.random_access,
        access_read (has p.counter) (has p.extension) p.random_access,
        number16 p.packet_id,
        number32 p.delivery_timestamp,
        number32 p.sequence,
      )
      refl

hand_on-handed :
    (p : Packet) (offset : ℕ)
    → hand_on (fixed_of p) offset (extensions_of p.extension) (some p.payload) ≡ handed p offset
unfolding hand_on
hand_on-handed p offset = go p.is_signalling
  where
    go :
        (b : Bool)
        → hand_on
            (record (fixed_of p) { payload_type = (if b then 2 else 0) % 64 })
            offset
            (extensions_of p.extension)
            (some p.payload)
          ≡ handed (record p { is_signalling = b }) offset
    go true = refl
    go false = refl

-- A packet that is written with a valid header, with or without a packet counter and an extension
-- header of any entries, is read by `push` as it was written: its payload, without the trailer, goes
-- to the parser of its type, with the packet's numbers and the meaning of its extensions.
pub push-write :
    (p : Packet) (offset : ℕ) → IsValid p → push (write p) offset ≡ some (handed p offset)
unfolding after_counter after_extensions
push-write p offset v =
    push-fixed p offset
    ∙ ap (after_counter (fixed_of p) offset (has p.extension))
        (skip_counter-bytes p.counter (extension_bytes p.extension (p.payload ++ p.trailer)))
    ∙ ap (after_extensions (fixed_of p) offset)
        (read_extension_header-bytes p.extension (p.payload ++ p.trailer) v.extension_fits)
    ∙ ap (λ o. some (hand_on (fixed_of p) offset (extensions_of p.extension) o))
        (authenticated-trailer (extensions_of p.extension).authenticated_payload_size p.payload
          p.trailer v.trails)
    ∙ ap some (hand_on-handed p offset)

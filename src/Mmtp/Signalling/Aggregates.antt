-- ===== src/Mmtp/Signalling/Aggregates.antt =====
-- Messages that are sent aggregated, each behind its length, come out of the reassembly.
use mathlib.Core.Path.{subst}
use libaribtlv.Types.{Limits}
use libaribtlv.Base.{
  ℕ, zero, suc, ◌+◌, ◌*◌, ◌/◌, ◌%◌, ◌≤◌, ◌<◌, ◌^◌, ◌≡◌, refl, sym, ap, ◌∙◌, Bool, true, false, some,
  List, [], ◌∷◌, ◌++◌, ltb, ◌==◌, if◌then◌else◌, length, take-append, drop-append, length-append,
  Bytes, add_u32, arith, All,
}
use libaribtlv.Mmtp.Signalling.{
  Event, unit, Payload, length_extension, admit, unit_length_of, aggregated_unit, aggregated,
  logged, after_units, receive_aggregate, receive_admitted, receive, with_events,
}
use libaribtlv.Mmtp.Signalling.Fragments.{ready, next_differs, same_number}

-- A length in two bytes or in four, as `length_extension` says.
abbrev pub length_bytes : Bool → ℕ → Bytes → Bytes
length_bytes true n rest = (n / 16777216) ∷ (n / 65536 % 256) ∷ (n / 256 % 256) ∷ (n % 256) ∷ rest
length_bytes false n rest = (n / 256) ∷ (n % 256) ∷ rest

abbrev pub encode : Bool → List Bytes → Bytes
encode ext [] = []
encode ext (u ∷ us) = length_bytes ext (length u) (u ++ encode ext us)

abbrev pub aggregate : ℕ → ℕ → Bool → List Bytes → ℕ → Payload
aggregate pid s ext us o = record {
  packet_id = pid;
  sequence = s;
  flags = if ext then 3 else 1;
  body = encode ext us;
  input_offset = o;
}

abbrev pub unit_events : ℕ → ℕ → List Bytes → List Event
unit_events pid o [] = []
unit_events pid o (u ∷ us) = unit pid u o ∷ unit_events pid o us

-- A unit within the limit whose length has room in its field.
abbrev pub Fits : Limits → Bool → Bytes → Type 0
Fits lim ext u =
    (length u ≤ lim.max_signalling_message) × (length u < (if ext then 2 ^ 32 else 2 ^ 16))

length_bytes_read :
    (ext : Bool) (n : ℕ) (rest : Bytes)
    → unit_length_of ext (length_bytes ext n rest) ≡ some (n, rest)
unfolding unit_length_of
length_bytes_read true n rest =
    ap (λ k. some (k, rest))
      (let e : ((n / 16777216 * 256 + n / 65536 % 256) * 256 + n / 256 % 256) * 256 + n % 256 ≡ n =
          omega arith in
        e)
length_bytes_read false n rest =
    ap (λ k. some (k, rest)) (let e : n / 256 * 256 + n % 256 ≡ n = omega arith in e)

within_body : (u rest : Bytes) → ltb (length (u ++ rest)) (length u) ≡ false
within_body u rest = let e = length-append u rest in ground arith

length-length_bytes :
    (ext : Bool) (n : ℕ) (rest : Bytes) → length rest + 2 ≤ length (length_bytes ext n rest)
length-length_bytes true n rest = omega arith
length-length_bytes false n rest = omega arith

aggregated-length_bytes :
    (ext : Bool) (fuel : ℕ) (lim : Limits) (p : Payload) (n : ℕ) (rest : Bytes)
    → length_extension p ≡ ext
    → aggregated (suc fuel) lim p (length_bytes ext n rest)
      ≡ aggregated_unit lim p (aggregated fuel lim p) (some (n, rest))
unfolding aggregated
aggregated-length_bytes true fuel lim p n rest e =
    ap (aggregated_unit lim p (aggregated fuel lim p))
      (ap (λ b. unit_length_of b (length_bytes true n rest)) e ∙ length_bytes_read true n rest)
aggregated-length_bytes false fuel lim p n rest e =
    ap (aggregated_unit lim p (aggregated fuel lim p))
      (ap (λ b. unit_length_of b (length_bytes false n rest)) e ∙ length_bytes_read false n rest)

module _ (lim : Limits) (pid s o : ℕ) (ext : Bool) (all : List Bytes) where
  abbrev packet : Payload
  packet = aggregate pid s ext all o

  extension : length_extension packet ≡ ext
  extension = go ext
    where
      go : (b : Bool) → ((if b then 3 else 1) / 2 % 2 == 1) ≡ b
      go true = refl
      go false = refl

  aggregated_step :
      (fuel : ℕ) (n : ℕ) (u rest : Bytes)
      → n ≡ length u
      → n ≤ lim.max_signalling_message
      → aggregated_unit lim packet (aggregated fuel lim packet) (some (n, u ++ rest))
        ≡ logged (unit pid u o) (aggregated fuel lim packet rest)
  unfolding aggregated_unit
  aggregated_step fuel n u rest e k =
      subst
        (λ m.
          (m ≤ lim.max_signalling_message)
          → aggregated_unit lim packet (aggregated fuel lim packet) (some (m, u ++ rest))
            ≡ logged (unit pid u o) (aggregated fuel lim packet rest))
        (sym e)
        (λ f.
          rw (within_body u rest, within_limit (length u) f, take-append u rest, drop-append u rest)
            refl)
        k
    where
      within_limit :
          (m : ℕ) → m ≤ lim.max_signalling_message → ltb lim.max_signalling_message m ≡ false
      within_limit m f = ground arith

  aggregated-encode :
      (fuel : ℕ) (us : List Bytes)
      → length (encode ext us) < fuel
      → All (Fits lim ext) us
      → aggregated fuel lim packet (encode ext us) ≡ some (unit_events pid o us, true)
  unfolding aggregated
  aggregated-encode zero us h k = absurd (omega arith)
  aggregated-encode (suc fuel) [] h k = refl
  aggregated-encode (suc fuel) (u ∷ us) h k =
      aggregated-length_bytes ext fuel lim packet (length u) (u ++ encode ext us) extension
      ∙ aggregated_step fuel (length u) u (encode ext us) refl k.0.0
      ∙ ap (logged (unit pid u o)) (
          aggregated-encode fuel us
            (omega (
              arith,
              length-length_bytes ext (length u) (u ++ encode ext us),
              length-append u (encode ext us),
            ))
            k.1)

-- An aggregated payload of messages within the limit and the room of their length field, each
-- behind a length of two or of four bytes as its flag says, in the next packet of an idle
-- assembler with nothing collected, hands on exactly these messages, in order.
pub receive-aggregate :
    (lim : Limits) (pid s o : ℕ) (ext : Bool) (us : List Bytes)
    → s < 2 ^ 32
    → All (Fits lim ext) us
    → receive lim (aggregate pid (add_u32 s 1) ext us o) (ready s)
      ≡ some (ready (add_u32 s 1), unit_events pid o us)
unfolding receive admit receive_admitted receive_aggregate
receive-aggregate lim pid s o true us h k =
    rw (next_differs s h, same_number (add_u32 s 1))
      (ap (λ r. with_events [] (after_units (ready (add_u32 s 1)) r))
        (aggregated-encode lim pid (add_u32 s 1) o true us (suc (length (encode true us))) us
          (omega arith) k))
receive-aggregate lim pid s o false us h k =
    rw (next_differs s h, same_number (add_u32 s 1))
      (ap (λ r. with_events [] (after_units (ready (add_u32 s 1)) r))
        (aggregated-encode lim pid (add_u32 s 1) o false us (suc (length (encode false us))) us
          (omega arith) k))

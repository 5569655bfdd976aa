-- ===== src/Transport/AddressMaps/Services.antt =====
-- The services of the address map table, as a sender writes them, are read back.
use mathlib.Core.Path.{subst}
use libaribtlv.Transport.Data.{
  AddressMapService, give, refuse, TableMessage, ipv4_prefix_above_32, ipv6_prefix_above_128,
}
use libaribtlv.Transport.AddressMaps.{
  zeros, service_at, within_prefix, parse_service, services_from,
}
use libaribtlv.Reader.{be16}
use libaribtlv.Base.{
  ℕ, zero, suc, ◌+◌, ◌-◌, ◌*◌, ◌/◌, ◌%◌, ◌≤◌, ◌<◌, ◌≡◌, refl, sym, ap, ◌∙◌, Bool, true, false, List,
  [], ◌∷◌, ◌++◌, ltb, ◌==◌, if◌then◌else◌, length, take, drop, get_or, length-append, take-append,
  drop-append, Bytes, All, arith,
}

-- A service before it is written: its addresses have `width six` bytes.
pub record Service : Type 0 where
  pub id : ℕ
  pub six : Bool
  pub source : Bytes
  pub source_prefix : ℕ
  pub destination : Bytes
  pub destination_prefix : ℕ
  pub private_bytes : Bytes

abbrev pub width : Bool → ℕ
width true = 16
width false = 4

abbrev pub bits : Bool → ℕ
bits true = 128
bits false = 32

abbrev pub flag : Bool → ℕ
flag true = 0x8000
flag false = 0

abbrev pub loop_bytes : Service → Bytes
loop_bytes s =
    s.source ++ (s.source_prefix ∷ (s.destination ++ (s.destination_prefix ∷ s.private_bytes)))

pub record IsService (s : Service) : Type 0 where
  pub id_fits : s.id < 65536
  pub source_width : length s.source ≡ width s.six
  pub destination_width : length s.destination ≡ width s.six
  pub source_fits : s.source_prefix ≤ bits s.six
  pub destination_fits : s.destination_prefix ≤ bits s.six
  pub loop_fits : length (loop_bytes s) < 1024

abbrev pub header : Service → ℕ
header s = flag s.six + length (loop_bytes s)

abbrev pub write_service : Service → Bytes
write_service s = (s.id / 256) ∷ (s.id % 256) ∷ (header s / 256) ∷ (header s % 256) ∷ loop_bytes s

abbrev pub write_services : List Service → Bytes
write_services [] = []
write_services (s ∷ ss) = write_service s ++ write_services ss

abbrev pub ip_number : Bool → ℕ
ip_number true = 6
ip_number false = 4

-- What the client gets.
abbrev pub service_as : ℕ → ℕ → Service → AddressMapService
service_as v w s = record {
  service_id = s.id;
  ip_version = v;
  source_address = s.source ++ zeros (16 - w);
  source_prefix_length = s.source_prefix;
  destination_address = s.destination ++ zeros (16 - w);
  destination_prefix_length = s.destination_prefix;
  private_data = s.private_bytes;
}

abbrev pub service_of : Service → AddressMapService
service_of s = service_as (ip_number s.six) (width s.six) s

abbrev pub services_of : List Service → List AddressMapService
services_of [] = []
services_of (s ∷ ss) = service_of s ∷ services_of ss

pub ltb-false : (a b : ℕ) → b ≤ a → ltb a b ≡ false
ltb-false a b h = ground arith

pub take_front : (n : ℕ) (xs ys : Bytes) → length xs ≡ n → take n (xs ++ ys) ≡ xs
take_front n xs ys e = subst (λ k. take k (xs ++ ys) ≡ xs) e (take-append xs ys)

drop_front : (n : ℕ) (xs ys : Bytes) → length xs ≡ n → drop n (xs ++ ys) ≡ ys
drop_front n xs ys e = subst (λ k. drop k (xs ++ ys) ≡ ys) e (drop-append xs ys)

-- The byte `i` places behind the front part.
get_or_behind :
    (n i : ℕ) (xs ys : Bytes) → length xs ≡ n → get_or (xs ++ ys) (n + i) 0 ≡ get_or ys i 0
get_or_behind n i [] ys e = ap (λ k. get_or ys k 0) (let z : n + i ≡ i = omega arith in z)
get_or_behind zero i (x ∷ xs) ys e = absurd (omega arith)
get_or_behind (suc n) i (x ∷ xs) ys e =
    ap (λ k. get_or (x ∷ (xs ++ ys)) k 0) (let z : suc n + i ≡ suc (n + i) = omega arith in z)
    ∙ get_or_behind n i xs ys (omega arith)

drop_behind : (n i : ℕ) (xs ys : Bytes) → length xs ≡ n → drop (n + i) (xs ++ ys) ≡ drop i ys
drop_behind n i [] ys e = ap (λ k. drop k ys) (let z : n + i ≡ i = omega arith in z)
drop_behind zero i (x ∷ xs) ys e = absurd (omega arith)
drop_behind (suc n) i (x ∷ xs) ys e =
    ap (λ k. drop k (x ∷ (xs ++ ys))) (let z : suc n + i ≡ suc (n + i) = omega arith in z)
    ∙ drop_behind n i xs ys (omega arith)

-- The fields of a service at their places, for a width of the addresses.
service_at-loop :
    (v w : ℕ) (s : Service)
    → length s.source ≡ w
    → length s.destination ≡ w
    → service_at v w s.id (loop_bytes s) ≡ service_as v w s
service_at-loop v w s e f =
    rw first (rw prefix (rw behind (rw second (rw prefix_behind (rw rest refl)))))
  where
    tail_bytes : Bytes
    tail_bytes = s.destination ++ (s.destination_prefix ∷ s.private_bytes)

    first : take w (loop_bytes s) ≡ s.source
    first = take_front w s.source (s.source_prefix ∷ tail_bytes) e

    prefix : get_or (loop_bytes s) w 0 ≡ s.source_prefix
    prefix =
        ap (λ k. get_or (loop_bytes s) k 0) (let z : w ≡ w + 0 = omega arith in z)
        ∙ get_or_behind w 0 s.source (s.source_prefix ∷ tail_bytes) e

    behind : drop (w + 1) (loop_bytes s) ≡ tail_bytes
    behind = drop_behind w 1 s.source (s.source_prefix ∷ tail_bytes) e

    second : take w tail_bytes ≡ s.destination
    second = take_front w s.destination (s.destination_prefix ∷ s.private_bytes) f

    prefix_behind : get_or (loop_bytes s) (2 * w + 1) 0 ≡ s.destination_prefix
    prefix_behind =
        ap (λ k. get_or (loop_bytes s) k 0) (let z : 2 * w + 1 ≡ w + suc (w + 0) = omega arith in z)
        ∙ get_or_behind w (suc (w + 0)) s.source (s.source_prefix ∷ tail_bytes) e
        ∙ get_or_behind w 0 s.destination (s.destination_prefix ∷ s.private_bytes) f

    rest : drop (2 * w + 2) (loop_bytes s) ≡ s.private_bytes
    rest =
        ap (λ k. drop k (loop_bytes s)) (let z : 2 * w + 2 ≡ w + suc (w + 1) = omega arith in z)
        ∙ drop_behind w (suc (w + 1)) s.source (s.source_prefix ∷ tail_bytes) e
        ∙ drop_behind w 1 s.destination (s.destination_prefix ∷ s.private_bytes) f

pub loop_bytes-length :
    (s : Service)
    → length (loop_bytes s)
      ≡ length s.source + (1 + (length s.destination + (1 + length s.private_bytes)))
loop_bytes-length s = omega (
  arith,
  length-append s.source
      (s.source_prefix ∷ (s.destination ++ (s.destination_prefix ∷ s.private_bytes))),
  length-append s.destination (s.destination_prefix ∷ s.private_bytes),
)

-- A service of the width `w`, past the test of the version.
width-checked :
    (offset v w bound : ℕ) (m : TableMessage) (s : Service)
    → length s.source ≡ w
    → length s.destination ≡ w
    → s.source_prefix ≤ bound
    → s.destination_prefix ≤ bound
    → (if ltb (length (loop_bytes s)) (2 * w + 2)
        then refuse
        else within_prefix bound (service_at v w s.id (loop_bytes s)) m offset)
      ≡ give (service_as v w s)
width-checked offset v w bound m s e f p q =
    subst
      (λ x.
        (if ltb (length (loop_bytes s)) (2 * w + 2) then refuse else within_prefix bound x m offset)
        ≡ give (service_as v w s))
      (sym (service_at-loop v w s e f))
      (rw (ltb-false (length (loop_bytes s)) (2 * w + 2) (omega (arith, loop_bytes-length s)))
        (rw (ltb-false bound s.source_prefix p) (rw (ltb-false bound s.destination_prefix q) refl)))

above : (n : ℕ) → n < 1024 → ((0x8000 + n) / 0x8000 == 0) ≡ false
above n h = ground arith

below : (n : ℕ) → n < 1024 → ((0 + n) / 0x8000 == 0) ≡ true
below n h = ground arith

low_bits : (six : Bool) (n : ℕ) → n < 1024 → (flag six + n) % 1024 ≡ n
low_bits true n h = omega arith
low_bits false n h = omega arith

parse_service-write :
    (offset : ℕ) (six : Bool) (s : Service)
    → length s.source ≡ width six
    → length s.destination ≡ width six
    → s.source_prefix ≤ bits six
    → s.destination_prefix ≤ bits six
    → length (loop_bytes s) < 1024
    → parse_service offset s.id (flag six + length (loop_bytes s)) (loop_bytes s)
      ≡ give (service_as (ip_number six) (width six) s)
unfolding parse_service
parse_service-write offset true s e f p q l =
    rw (above (length (loop_bytes s)) l)
      (width-checked offset 6 16 128 ipv6_prefix_above_128 s e f p q)
parse_service-write offset false s e f p q l =
    rw (below (length (loop_bytes s)) l)
      (width-checked offset 4 4 32 ipv4_prefix_above_32 s e f p q)

-- One round of the loop.
services_step :
    (offset count a b c d : ℕ) (xs rest : Bytes) {s : AddressMapService}
    {ss : List AddressMapService}
    → be16 c d % 0x400 ≡ length xs
    → parse_service offset (be16 a b) (be16 c d) xs ≡ give s
    → services_from offset count rest ≡ give ss
    → services_from offset (suc count) (a ∷ b ∷ c ∷ d ∷ (xs ++ rest)) ≡ give (s ∷ ss)
unfolding services_from
services_step offset count a b c d xs rest e p q = rw e (
    rw (ltb-false (length (xs ++ rest)) (length xs) (omega (arith, length-append xs rest)))
      (rw (take-append xs rest) (rw (drop-append xs rest) (rw p (rw q refl)))))

pub be16-split : (n : ℕ) → be16 (n / 256) (n % 256) ≡ n
be16-split n = omega arith

pub services_from-write :
    (offset : ℕ) (ss : List Service)
    → All IsService ss
    → services_from offset (length ss) (write_services ss) ≡ give (services_of ss)
unfolding services_from
services_from-write offset [] w = refl
services_from-write offset (s ∷ ss) w =
    services_step offset (length ss) (s.id / 256) (s.id % 256) (header s / 256) (header s % 256)
      (loop_bytes s) (write_services ss)
      (ap (λ n. n % 0x400) (be16-split (header s))
        ∙ low_bits s.six (length (loop_bytes s)) w.0.loop_fits)
      (ap (λ n. parse_service offset n (be16 (header s / 256) (header s % 256)) (loop_bytes s))
          (be16-split s.id)
        ∙ ap (λ n. parse_service offset s.id n (loop_bytes s)) (be16-split (header s))
        ∙ parse_service-write offset s.six s w.0.source_width w.0.destination_width w.0.source_fits
            w.0.destination_fits w.0.loop_fits)
      (services_from-write offset ss w.1)

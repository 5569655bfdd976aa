-- ===== src/Transport/Crc/Residue.antt =====
-- A checksum that is sent behind its data makes the checksum of the whole zero.
use Prim.Native.Nat.{bit_xor, digits, differ, bit_xor-bitwise}
use libaribtlv.Base.{
  ℕ, zero, suc, ◌+◌, ◌*◌, ◌/◌, ◌%◌, ◌^◌, ◌≤◌, ◌<◌, ◌≡◌, refl, ap, ◌∙◌, false, Bool-cases, inl, inr,
  [], ◌∷◌, ◌++◌, ◌==◌, Bytes, arith,
}
use libaribtlv.Transport.Crc.{crc_bit, crc_bits, crc_byte, crc_from, crc32_mpeg}

abbrev xor_digits : ℕ → ℕ → ℕ → ℕ
xor_digits n a b = digits (λ b. b) differ n a b

xor_digits_fuel : (n m a b : ℕ) → a ≤ n → a ≤ m → xor_digits n a b ≡ xor_digits m a b
xor_digits_fuel zero zero a b p q = refl
xor_digits_fuel zero (suc m) zero b p q = refl
xor_digits_fuel zero (suc m) (suc a) b p q = absurd (omega arith)
xor_digits_fuel (suc n) zero zero b p q = refl
xor_digits_fuel (suc n) zero (suc a) b p q = absurd (omega arith)
xor_digits_fuel (suc n) (suc m) zero b p q = refl
xor_digits_fuel (suc n) (suc m) (suc a) b p q =
    omega (arith, xor_digits_fuel n m (suc a / 2) (b / 2) (omega arith) (omega arith))

zero-bit_xor : (b : ℕ) → bit_xor 0 b ≡ b
zero-bit_xor b = bit_xor-bitwise 0 b

-- The law for the lowest digit.
bit_xor_step : (a b : ℕ) → bit_xor a b ≡ bit_xor (a / 2) (b / 2) * 2 + differ (a % 2) (b % 2)
bit_xor_step zero b = omega (arith, zero-bit_xor b, zero-bit_xor (b / 2))
bit_xor_step (suc a) b = omega (
  arith,
  bit_xor-bitwise (suc a) b,
  bit_xor-bitwise (suc a / 2) (b / 2),
  xor_digits_fuel a (suc a / 2) (suc a / 2) (b / 2) (omega arith) (omega arith),
)

same_bit : (n : ℕ) → differ n n ≡ 0
same_bit zero = refl
same_bit (suc n) = same_bit n

differ-zero : (n : ℕ) → differ n 0 ≡ n
differ-zero zero = refl
differ-zero (suc n) = refl

differ_bit : (m n : ℕ) → m < 2 → n < 2 → differ m n < 2
differ_bit zero n h k = k
differ_bit (suc zero) zero h k = h
differ_bit (suc zero) (suc zero) h k = omega arith
differ_bit (suc zero) (suc (suc n)) h k = absurd (omega arith)
differ_bit (suc (suc m)) n h k = absurd (omega arith)

bit_xor_same_fuel : (n a : ℕ) → a ≤ n → bit_xor a a ≡ 0
bit_xor_same_fuel n zero h = zero-bit_xor 0
bit_xor_same_fuel zero (suc a) h = absurd (omega arith)
bit_xor_same_fuel (suc n) (suc a) h = omega (
  arith,
  bit_xor_step (suc a) (suc a),
  bit_xor_same_fuel n (suc a / 2) (omega arith),
  same_bit (suc a % 2),
)

bit_xor_halves :
    (a b x y u v : ℕ)
    → a / 2 ≡ x
    → b / 2 ≡ y
    → a % 2 ≡ u
    → b % 2 ≡ v
    → bit_xor a b ≡ bit_xor x y * 2 + differ u v
bit_xor_halves a b x y u v e f g h = bit_xor_step a b ∙ rw (e, f, g, h) refl

bit_xor-below : (k a b : ℕ) → a < 2 ^ k → b < 2 ^ k → bit_xor a b < 2 ^ k
bit_xor-below zero a b h l =
    let e : a ≡ 0 = omega arith in
    let f : b ≡ 0 = omega arith in rw (e, f) (omega (arith, zero-bit_xor 0))
bit_xor-below (suc k) a b h l = omega (
  arith,
  bit_xor_step a b,
  bit_xor-below k (a / 2) (b / 2) (omega arith) (omega arith),
  differ_bit (a % 2) (b % 2) (omega arith) (omega arith),
)

abbrev shifted : ℕ → ℕ → ℕ
shifted zero t = t
shifted (suc k) t = shifted k t * 2

-- The digits above the `k` lowest cancel.
bit_xor_high : (k t b : ℕ) → b < 2 ^ k → bit_xor (shifted k t + b) (shifted k t) ≡ b
bit_xor_high zero t b h =
    let e : b ≡ 0 = omega arith in
    let f : t + 0 ≡ t = omega arith in rw (e, f) (bit_xor_same_fuel t t (omega arith))
bit_xor_high (suc k) t b h =
    bit_xor_halves (shifted k t * 2 + b) (shifted k t * 2) (shifted k t + b / 2) (shifted k t)
      (b % 2) 0 (omega arith) (omega arith) (omega arith) (omega arith)
    ∙ omega (arith, bit_xor_high k t (b / 2) (omega arith), differ-zero (b % 2))

crc_bit-below : (crc : ℕ) → crc_bit crc < 2 ^ 32
unfolding crc_bit
crc_bit-below crc = elim (Bool-cases (crc / 2 ^ 31 % 2 == 1)) [
  | inl y ↦ rw y (bit_xor-below 32 (crc * 2 % 2 ^ 32) 0x04c11db7 (omega arith) (omega arith))
  | inr n ↦ rw n (omega arith)
]

crc_bits-below : (n crc : ℕ) → crc_bits (suc n) crc < 2 ^ 32
unfolding crc_bits
crc_bits-below zero crc = crc_bit-below crc
crc_bits-below (suc n) crc = crc_bits-below n (crc_bit crc)

crc_from-below : (crc : ℕ) (bytes : Bytes) → crc < 2 ^ 32 → crc_from crc bytes < 2 ^ 32
unfolding crc_from crc_byte
crc_from-below crc [] h = h
crc_from-below crc (b ∷ bs) h = crc_from-below (crc_byte crc b) bs (crc_bits-below 7 _)

-- While the top bit is clear a round only shifts.
crc_bit-small : (r : ℕ) → r < 2 ^ 31 → crc_bit r ≡ r * 2
unfolding crc_bit
crc_bit-small r h = let e : (r / 2 ^ 31 % 2 == 1) ≡ false = ground arith in rw e (omega arith)

crc_bits-small : (r : ℕ) → r < 2 ^ 24 → crc_bits 8 r ≡ r * 256
unfolding crc_bits
crc_bits-small r h = rw (crc_bit-small r (omega arith)) (
    rw (crc_bit-small (r * 2) (omega arith)) (
      rw (crc_bit-small (r * 2 * 2) (omega arith)) (
        rw (crc_bit-small (r * 2 * 2 * 2) (omega arith)) (
          rw (crc_bit-small (r * 2 * 2 * 2 * 2) (omega arith)) (
            rw (crc_bit-small (r * 2 * 2 * 2 * 2 * 2) (omega arith)) (
              rw (crc_bit-small (r * 2 * 2 * 2 * 2 * 2 * 2) (omega arith)) (
                rw (crc_bit-small (r * 2 * 2 * 2 * 2 * 2 * 2 * 2) (omega arith))
                  (omega arith))))))))

-- The register's own top byte leaves the others, moved up.
crc_byte-top : (t b : ℕ) → t < 256 → b < 2 ^ 24 → crc_byte (t * 16777216 + b) t ≡ b * 256
unfolding crc_byte
crc_byte-top t b h l = ap (crc_bits 8) cancel ∙ crc_bits-small b l
  where
    cancel : bit_xor (t * 16777216 + b) (t * 2 ^ 24 % 2 ^ 32) ≡ b
    cancel =
        let e : t * 16777216 + b ≡ shifted 24 t + b = omega arith in
        let f : t * 2 ^ 24 % 2 ^ 32 ≡ shifted 24 t = omega arith in
        ap (λ x. bit_xor x (t * 2 ^ 24 % 2 ^ 32)) e
        ∙ ap (bit_xor (shifted 24 t + b)) f
        ∙ bit_xor_high 24 t b l

crc_byte-of : (r t b : ℕ) → r ≡ t * 16777216 + b → t < 256 → b < 2 ^ 24 → crc_byte r t ≡ b * 256
crc_byte-of r t b e h l = ap (λ x. crc_byte x t) e ∙ crc_byte-top t b h l

-- A number's four bytes, the first the highest.
abbrev pub checksum_bytes : ℕ → Bytes
checksum_bytes r = (r / 16777216) ∷ (r / 65536 % 256) ∷ (r / 256 % 256) ∷ (r % 256) ∷ []

crc_from_self : (r : ℕ) → r < 2 ^ 32 → crc_from r (checksum_bytes r) ≡ 0
unfolding crc_from
crc_from_self r h =
    rw (crc_byte-of r (r / 16777216) (r % 16777216) (omega arith) (omega arith) (omega arith)) (
      rw
        (crc_byte-of (r % 16777216 * 256) (r / 65536 % 256) (r % 65536 * 256) (omega arith)
          (omega arith) (omega arith))
        (rw
          (crc_byte-of (r % 65536 * 256 * 256) (r / 256 % 256) (r % 256 * 65536) (omega arith)
            (omega arith) (omega arith))
          (crc_byte-of (r % 256 * 65536 * 256) (r % 256) 0 (omega arith) (omega arith)
            (omega arith))))

crc_from-append :
    (crc : ℕ) (xs ys : Bytes) → crc_from crc (xs ++ ys) ≡ crc_from (crc_from crc xs) ys
unfolding crc_from
crc_from-append crc [] ys = refl
crc_from-append crc (x ∷ xs) ys = crc_from-append (crc_byte crc x) xs ys

-- Data followed by the four bytes of its checksum has the checksum zero, which is what the receiver
-- tests.
pub crc32_mpeg-checked :
    (data_bytes : Bytes) → crc32_mpeg (data_bytes ++ checksum_bytes (crc32_mpeg data_bytes)) ≡ 0
unfolding crc32_mpeg
crc32_mpeg-checked data_bytes =
    crc_from-append 0xffffffff data_bytes (checksum_bytes (crc_from 0xffffffff data_bytes))
    ∙ crc_from_self (crc_from 0xffffffff data_bytes)
        (crc_from-below 0xffffffff data_bytes (omega arith))

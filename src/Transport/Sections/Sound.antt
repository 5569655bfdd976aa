-- ===== src/Transport/Sections/Sound.antt =====
-- The loop ends, accounts for every byte, and hands on valid sections alone.
use libaribtlv.Base.{
  ℕ, zero, suc, ◌+◌, ◌-◌, ◌≤◌, ◌<◌, ◌≡◌, refl, sym, ap, ◌∙◌, Bool, true, false, not, Bool-cases,
  if_with, inl, inr, Option, none, some, List, [], ◌∷◌, ◌++◌, ltb, length, take, drop, get_or,
  Option-cases, ltb→lt, length-take, length-drop, take-append-drop, Bytes, arith, min,
}
use mathlib.Core.Path.{subst}
use libaribtlv.Transport.Sections.{
  SectionBuffer, Message, Found, section, discarded, length_field, total_size, plausible, checked,
  complete, find_complete_boundary, Verdict, wait, discard, accept, discarded_incomplete,
  discarded_invalid, invalid_section, value_or, discard_or, judge, front, drop_both, found_first,
  carry_out, process_on, process_sections,
}

-- A section as the receiver requires it: long syntax, its length in bounds and exact, its number not
-- above the last, and the checksum zero.
pub record IsSection (s : Bytes) : Type 0 where
  pub plausible_header : plausible s ≡ true
  pub exact : length s ≡ total_size s
  pub passes : checked s ≡ true

-- From one buffer to another by the events between them: each accounts for the bytes in front, with
-- the origin of their first.
pub data Consumed : Bytes → List ℕ → List Found → Bytes → List ℕ → Type 0 where
  done : (xs : Bytes) (os : List ℕ) → Consumed xs os [] xs os
  taken :
      (s xs : Bytes) (ss os : List ℕ) {es : List Found} {ys : Bytes} {ps : List ℕ}
      → IsSection s
      → length ss ≡ length s
      → Consumed xs os es ys ps
      → Consumed (s ++ xs) (ss ++ os) (section s (front (ss ++ os)) ∷ es) ys ps
  dropped :
      (m : Message) (d xs : Bytes) (ds os : List ℕ) {es : List Found} {ys : Bytes} {ps : List ℕ}
      → 0 < length d
      → length ds ≡ length d
      → Consumed xs os es ys ps
      → Consumed (d ++ xs) (ds ++ os) (discarded (front (ds ++ os)) m ∷ es) ys ps

-- What a verdict on `xs` means.
abbrev pub Justified : Bytes → Verdict → Type 0
Justified xs wait = length xs < 1024
Justified xs (discard n m) = (0 < n) × (n ≤ length xs)
Justified xs (accept n) = (0 < n) × (n ≤ length xs) × IsSection (take n xs)

take-again : (n : ℕ) (xs : Bytes) → take n (take n xs) ≡ take n xs
take-again zero xs = refl
take-again (suc n) [] = refl
take-again (suc n) (x ∷ xs) = ap (λ r. x ∷ r) (take-again n xs)

find_complete_boundary-bound :
    (xs : Bytes) (index : ℕ) {n : ℕ}
    → find_complete_boundary xs index ≡ some n
    → (index ≤ n) × (n < index + length xs)
unfolding find_complete_boundary
find_complete_boundary-bound [] index e = cc e
find_complete_boundary-bound (x ∷ xs) index {n} e = elim (Bool-cases (complete (x ∷ xs))) [
  | inl y ↦ let same : index ≡ n = cc (rw y at e) in (omega (arith, same), omega (arith, same))
  | inr w ↦
      let (low, high) = find_complete_boundary-bound xs (index + 1) (rw w at e) in
      (omega arith, omega arith)
]

get_or-take : (n i : ℕ) (xs : Bytes) → i < n → get_or (take n xs) i 0 ≡ get_or xs i 0
get_or-take zero i xs h = absurd (omega arith)
get_or-take (suc n) i [] h = refl
get_or-take (suc n) zero (x ∷ xs) h = refl
get_or-take (suc n) (suc i) (x ∷ xs) h = get_or-take n i xs (omega arith)

-- What the length field of a header admits.
pub plausible-Bounds :
    (xs : Bytes) → plausible xs ≡ true → (9 ≤ length_field xs) × (length_field xs ≤ 1021)
unfolding plausible
plausible-Bounds [] p = cc p
plausible-Bounds (a ∷ []) p = cc p
plausible-Bounds (a ∷ b ∷ []) p = cc p
plausible-Bounds (a ∷ b ∷ c ∷ xs) p = (ground arith, ground arith)

pub take-header :
    (n : ℕ) (xs : Bytes)
    → 3 ≤ n
    → (plausible (take n xs) ≡ plausible xs) × (total_size (take n xs) ≡ total_size xs)
unfolding plausible
take-header zero xs h = absurd (omega arith)
take-header (suc zero) xs h = absurd (omega arith)
take-header (suc (suc zero)) xs h = absurd (omega arith)
take-header (suc (suc (suc n))) [] h = (refl, refl)
take-header (suc (suc (suc n))) (a ∷ []) h = (refl, refl)
take-header (suc (suc (suc n))) (a ∷ b ∷ []) h = (refl, refl)
take-header (suc (suc (suc n))) (a ∷ b ∷ c ∷ xs) h = (refl, refl)

checked-take : (xs : Bytes) → 8 ≤ total_size xs → checked (take (total_size xs) xs) ≡ checked xs
unfolding checked
checked-take xs h = rw (get_or-take (total_size xs) 6 xs (omega arith)) (
    rw (get_or-take (total_size xs) 7 xs (omega arith)) (
      rw (take-header (total_size xs) xs (omega arith)).1
        (rw (take-again (total_size xs) xs) refl)))

-- A section's own bytes have the section's header and checksum.
take-IsSection :
    (xs : Bytes)
    → plausible xs ≡ true
    → total_size xs ≤ length xs
    → checked xs ≡ true
    → IsSection (take (total_size xs) xs)
take-IsSection xs p h c = record {
  plausible_header = header.0 ∙ p;
  exact =
      length-take (total_size xs) xs
      ∙ (let e : min (total_size xs) (length xs) ≡ total_size xs = omega arith in e)
      ∙ sym header.1;
  passes = checked-take xs (omega (arith, bounds)) ∙ c;
}
  where
    bounds : (9 ≤ length_field xs) × (length_field xs ≤ 1021)
    bounds = plausible-Bounds xs p

    header :
        (plausible (take (total_size xs) xs) ≡ plausible xs)
        × (total_size (take (total_size xs) xs) ≡ total_size xs)
    header = take-header (total_size xs) xs (omega arith)

-- A boundary that the search finds after the first byte is inside the buffer.
value_or-bound :
    (x : ℕ) (xs : Bytes)
    → (0 < value_or (find_complete_boundary xs 1) 1)
      × (value_or (find_complete_boundary xs 1) 1 ≤ suc (length xs))
value_or-bound x xs = elim (Option-cases (find_complete_boundary xs 1)) [
  | inl e ↦ rw e (omega arith, omega arith)
  | inr (n, e) ↦
      rw e (let (low, high) = find_complete_boundary-bound xs 1 e in (omega arith, omega arith))
]

discard_or-Justified :
    (x : ℕ) (xs : Bytes) (m : Message) (v : Verdict)
    → (find_complete_boundary xs 1 ≡ none → Justified (x ∷ xs) v)
    → Justified (x ∷ xs) (discard_or (find_complete_boundary xs 1) m v)
discard_or-Justified x xs m v p = elim (Option-cases (find_complete_boundary xs 1)) [
  | inl e ↦ rw e (p e)
  | inr (n, e) ↦
      rw e (let (low, high) = find_complete_boundary-bound xs 1 e in (omega arith, omega arith))
]

not-false : (b : Bool) → not b ≡ false → b ≡ true
not-false true h = refl
not-false false h = sym h

short_wait :
    (xs : Bytes) → plausible xs ≡ true → ltb (length xs) (total_size xs) ≡ true → length xs < 1024
short_wait xs p h =
    let (low, high) = plausible-Bounds xs p in
    let less = ltb→lt (length xs) (total_size xs) h in omega arith

long_enough : (a b : ℕ) → ltb a b ≡ false → b ≤ a
long_enough a b h = ground arith

judge-Justified : (xs : Bytes) → Justified xs (judge xs)
unfolding judge
judge-Justified [] = omega arith
judge-Justified (a ∷ []) = omega arith
judge-Justified (a ∷ b ∷ []) = omega arith
judge-Justified (a ∷ b ∷ c ∷ xs) =
    if_with (Justified (a ∷ b ∷ c ∷ xs)) (not (plausible (a ∷ b ∷ c ∷ xs)))
      (λ bad. value_or-bound a (b ∷ c ∷ xs))
      (λ good.
        if_with (Justified (a ∷ b ∷ c ∷ xs))
          (ltb (length (a ∷ b ∷ c ∷ xs)) (total_size (a ∷ b ∷ c ∷ xs)))
          (λ short.
            discard_or-Justified a (b ∷ c ∷ xs) discarded_incomplete wait
              (λ e. short_wait (a ∷ b ∷ c ∷ xs) (not-false _ good) short))
          (λ long.
            if_with (Justified (a ∷ b ∷ c ∷ xs)) (not (checked (a ∷ b ∷ c ∷ xs)))
              (λ fails.
                discard_or-Justified a (b ∷ c ∷ xs) discarded_invalid
                  (discard (total_size (a ∷ b ∷ c ∷ xs)) invalid_section)
                  (λ e. (omega arith, ground arith)))
              (λ passes. (
                omega arith,
                ground arith,
                take-IsSection (a ∷ b ∷ c ∷ xs) (not-false _ good) (long_enough _ _ long)
                    (not-false _ passes),
              ))))

-- The loop from a buffer ends: it accounts for what it took, keeps an origin for each byte, and
-- leaves less than the longest section.
pub record Sound (b : SectionBuffer) (o : Option (SectionBuffer × List Found)) : Type 0 where
  pub rest : SectionBuffer
  pub events : List Found
  pub ends : o ≡ some (rest, events)
  pub accounted : Consumed b.bytes b.origins events rest.bytes rest.origins
  pub marked : length rest.origins ≡ length rest.bytes
  pub bounded : length rest.bytes < 1024

-- The bytes and the origins that a round takes, and those that it leaves, are the buffer.
rejoin :
    (n : ℕ) (xs : Bytes) (os : List ℕ) (e : List ℕ → Found) {es : List Found} {ys : Bytes}
    {ps : List ℕ}
    → Consumed
        (take n xs ++ drop n xs)
        (take n os ++ drop n os)
        (e (take n os ++ drop n os) ∷ es)
        ys
        ps
    → Consumed xs os (e os ∷ es) ys ps
rejoin n xs os e {es} {ys} {ps} h =
    subst (λ r. Consumed r os (e os ∷ es) ys ps) (take-append-drop n xs)
      (subst (λ r. Consumed (take n xs ++ drop n xs) r (e r ∷ es) ys ps) (take-append-drop n os) h)

lengths_taken :
    (n : ℕ) (xs : Bytes) (os : List ℕ)
    → length os ≡ length xs
    → length (take n os) ≡ length (take n xs)
lengths_taken n xs os h = length-take n os ∙ ap (min n) h ∙ sym (length-take n xs)

pub lengths_left :
    (n : ℕ) (xs : Bytes) (os : List ℕ)
    → length os ≡ length xs
    → length (drop n os) ≡ length (drop n xs)
lengths_left n xs os h = length-drop n os ∙ ap (λ k. k - n) h ∙ sym (length-drop n xs)

drop_both-shorter : (n : ℕ) (xs : Bytes) → 0 < n → n ≤ length xs → length (drop n xs) < length xs
drop_both-shorter n xs p l = omega (arith, length-drop n xs)

carry_out-Sound :
    (continue : SectionBuffer → Option (SectionBuffer × List Found)) (b : SectionBuffer)
    (v : Verdict)
    → Justified b.bytes v
    → length b.origins ≡ length b.bytes
    → ((n : ℕ) → 0 < n → n ≤ length b.bytes → Sound (drop_both n b) (continue (drop_both n b)))
    → Sound b (carry_out continue b v)
unfolding carry_out
carry_out-Sound continue b wait j m go = record {
  rest = b;
  events = [];
  ends = refl;
  accounted = done b.bytes b.origins;
  marked = m;
  bounded = j;
}
carry_out-Sound continue b (discard n t) j m go = record {
  rest = r.rest;
  events = discarded (front b.origins) t ∷ r.events;
  ends = ap (found_first (discarded (front b.origins) t)) r.ends;
  accounted =
      rejoin n b.bytes b.origins (λ os. discarded (front os) t)
        (dropped t (take n b.bytes) (drop n b.bytes) (take n b.origins) (drop n b.origins)
          (omega (arith, length-take n b.bytes, j)) (lengths_taken n b.bytes b.origins m)
          r.accounted);
  marked = r.marked;
  bounded = r.bounded;
}
  where
    r : Sound (drop_both n b) (continue (drop_both n b))
    r = go n j.0 j.1
carry_out-Sound continue b (accept n) j m go = record {
  rest = r.rest;
  events = section (take n b.bytes) (front b.origins) ∷ r.events;
  ends = ap (found_first (section (take n b.bytes) (front b.origins))) r.ends;
  accounted =
      rejoin n b.bytes b.origins (λ os. section (take n b.bytes) (front os))
        (taken (take n b.bytes) (drop n b.bytes) (take n b.origins) (drop n b.origins) j.2
          (lengths_taken n b.bytes b.origins m) r.accounted);
  marked = r.marked;
  bounded = r.bounded;
}
  where
    r : Sound (drop_both n b) (continue (drop_both n b))
    r = go n j.0 j.1

process_on-Sound :
    (fuel : ℕ) (b : SectionBuffer)
    → length b.bytes < fuel
    → length b.origins ≡ length b.bytes
    → Sound b (process_on fuel b)
unfolding process_on
process_on-Sound zero b h m = absurd (omega arith)
process_on-Sound (suc fuel) b h m =
    carry_out-Sound (process_on fuel) b (judge b.bytes) (judge-Justified b.bytes) m (λ n p l.
      process_on-Sound fuel (drop_both n b) (omega (arith, drop_both-shorter n b.bytes p l))
        (lengths_left n b.bytes b.origins m))

-- On a buffer that has an origin for each byte, the loop ends. It accounts for the bytes in order,
-- each under the origin of the first byte of its piece; every section that it hands on has the long
-- syntax, its exact length and a zero checksum, and every discarded piece is reported and not empty.
-- What is left has an origin for each byte and is shorter than the longest section.
pub process_sections-Sound :
    (b : SectionBuffer) → length b.origins ≡ length b.bytes → Sound b (process_sections b)
unfolding process_sections
process_sections-Sound b m = process_on-Sound (suc (length b.bytes)) b (omega arith) m

-- ===== src/Transport/Sections/Whole.antt =====
-- A round of the loop on a buffer that starts with a whole section, or that is a part of one.

use libaribtlv.Base.{
  ℕ, zero, suc, ◌≤◌, ◌<◌, ◌≡◌, refl, sym, ap, ◌∙◌, true, false, Bool-cases, ltb→lt, inl, inr, none,
  [], ◌∷◌, ◌++◌, ltb, length, take, drop, get_or, length-take, length-append, Bytes, arith,
}
use libaribtlv.Transport.Sections.Sound.{IsSection, take-header, plausible-Bounds}
use libaribtlv.Transport.Sections.{
  total_size, plausible, checked, find_complete_boundary, wait, accept, judge,
}

-- Nothing inside the section, past its first byte, is a whole section itself.
abbrev pub IsQuiet : Bytes → Type 0
IsQuiet s = (n : ℕ) → n < length s → find_complete_boundary (drop 1 (take n s)) 1 ≡ none

pub record IsSent (s : Bytes) : Type 0 where
  pub is_section : IsSection s
  pub is_quiet : IsQuiet s

pub take_append_le : (n : ℕ) (xs ys : Bytes) → n ≤ length xs → take n (xs ++ ys) ≡ take n xs
take_append_le zero xs ys h = refl
take_append_le (suc n) [] ys h = absurd (omega arith)
take_append_le (suc n) (x ∷ xs) ys h = ap (λ r. x ∷ r) (take_append_le n xs ys (omega arith))

get_or-append : (xs ys : Bytes) (i : ℕ) → i < length xs → get_or (xs ++ ys) i 0 ≡ get_or xs i 0
get_or-append [] ys i h = absurd (omega arith)
get_or-append (x ∷ xs) ys zero h = refl
get_or-append (x ∷ xs) ys (suc i) h = get_or-append xs ys i (omega arith)

append-header :
    (s rest : Bytes)
    → 3 ≤ length s
    → (plausible (s ++ rest) ≡ plausible s) × (total_size (s ++ rest) ≡ total_size s)
unfolding plausible
append-header [] rest h = absurd (omega arith)
append-header (a ∷ []) rest h = absurd (omega arith)
append-header (a ∷ b ∷ []) rest h = absurd (omega arith)
append-header (a ∷ b ∷ c ∷ s) rest h = (refl, refl)

pub IsSection-long : (s : Bytes) → IsSection s → 12 ≤ length s
IsSection-long s w = omega (arith, w.exact, plausible-Bounds s w.plausible_header)

checked-append : (s rest : Bytes) → IsSection s → checked (s ++ rest) ≡ checked s
unfolding checked
checked-append s rest w =
    let long = IsSection-long s w in
    rw (append-header s rest (omega arith)).1 (
      rw (get_or-append s rest 6 (omega arith)) (
        rw (get_or-append s rest 7 (omega arith))
          (rw (take_append_le (total_size s) s rest (omega (arith, w.exact))) refl)))

ltb_ge : {a b : ℕ} → b ≤ a → ltb a b ≡ false
ltb_ge h = ground arith

lt_ltb : {a b : ℕ} → a < b → ltb a b ≡ true
lt_ltb h = ground arith

judge_long :
    (xs : Bytes)
    → 3 ≤ length xs
    → plausible xs ≡ true
    → total_size xs ≤ length xs
    → checked xs ≡ true
    → judge xs ≡ accept (total_size xs)
unfolding judge
judge_long [] h p l c = absurd (omega arith)
judge_long (a ∷ []) h p l c = absurd (omega arith)
judge_long (a ∷ b ∷ []) h p l c = absurd (omega arith)
judge_long (a ∷ b ∷ d ∷ xs) h p l c = rw p (rw (ltb_ge l) (rw c refl))

judge_few : (xs : Bytes) → length xs < 3 → judge xs ≡ wait
unfolding judge
judge_few [] h = refl
judge_few (a ∷ []) h = refl
judge_few (a ∷ b ∷ []) h = refl
judge_few (a ∷ b ∷ d ∷ xs) h = absurd (omega arith)

judge_short :
    (xs : Bytes)
    → plausible xs ≡ true
    → length xs < total_size xs
    → find_complete_boundary (drop 1 xs) 1 ≡ none
    → judge xs ≡ wait
unfolding judge
judge_short [] p l q = refl
judge_short (a ∷ []) p l q = refl
judge_short (a ∷ b ∷ []) p l q = refl
judge_short (a ∷ b ∷ d ∷ xs) p l q = rw p (rw (lt_ltb l) (rw q refl))

pub judge-section : (s rest : Bytes) → IsSection s → judge (s ++ rest) ≡ accept (length s)
judge-section s rest w =
    let long = IsSection-long s w in
    let (p, t) = append-header s rest (omega arith) in
    judge_long (s ++ rest) (omega (arith, length-append s rest)) (p ∙ w.plausible_header)
      (omega (arith, length-append s rest, w.exact, t)) (checked-append s rest w ∙ w.passes)
    ∙ ap accept (t ∙ sym w.exact)

pub judge-part : (s : Bytes) (n : ℕ) → IsSent s → n < length s → judge (take n s) ≡ wait
judge-part s n w h = elim (Bool-cases (ltb n 3)) [
  | inl few ↦ judge_few (take n s) (omega (arith, length-take n s, ltb→lt n 3 few))
  | inr many ↦
      let (p, t) = take-header n s (ground arith) in
      judge_short (take n s) (p ∙ w.is_section.plausible_header)
        (omega (arith, length-take n s, w.is_section.exact, t)) (w.is_quiet n h)
]

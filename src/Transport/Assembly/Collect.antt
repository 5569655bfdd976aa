-- ===== src/Transport/Assembly/Collect.antt =====
-- The sections of a table as a partial map by number: lookup, insertion, and the collection of a
-- whole range.
use mathlib.Core.Path.{subst}
use libaribtlv.Transport.Assembly.{find, store, all_present}
use libaribtlv.Base.{
  ℕ, zero, suc, ◌+◌, ◌≤◌, ◌<◌, ◌≡◌, refl, sym, ap, ◌∙◌, true, false, Bool-cases, inl, inr, Option,
  none, some, List, [], ◌∷◌, ltb, ◌==◌, ==_iff, if◌then◌else◌, length, Option-cases, arith, if_both,
  if_with,
}

later : (a b : ℕ) → a ≤ b → (a == b) ≡ false → suc a ≤ b
later a b h e = ground arith

not_equal : (a b : ℕ) → a < b → (a == b) ≡ false
not_equal a b h = ground arith

module _ {S : Type 0} where
  -- The numbers rise, from `low` on, and stay below `high`.
  abbrev pub Above : ℕ → List (ℕ × S) → Type 0
  Above low [] = Unit
  Above low ((k, s) ∷ rest) = (low ≤ k) × Above (suc k) rest

  abbrev pub Below : ℕ → List (ℕ × S) → Type 0
  Below high [] = Unit
  Below high ((k, s) ∷ rest) = (k < high) × Below high rest

  -- The map that the specification keeps.
  abbrev pub updated : (ℕ → Option S) → ℕ → S → ℕ → Option S
  updated f number s n = if n == number then some s else f n

  abbrev pub cons_if : ℕ → Option S → Option (List (ℕ × S)) → Option (List (ℕ × S))
  cons_if n none r = none
  cons_if n (some s) none = none
  cons_if n (some s) (some r) = some ((n, s) ∷ r)

  -- Every number of the range with its section, or nothing.
  unfoldable pub gather : (ℕ → Option S) → ℕ → ℕ → Option (List (ℕ × S))
  gather f number zero = some []
  gather f number (suc count) = cons_if number (f number) (gather f (number + 1) count)

  pub find-store :
      (n k : ℕ) (s : S) (xs : List (ℕ × S)) → find n (store k s xs) ≡ updated (λ i. find i xs) k s n
  unfolding find store
  find-store n k s [] = refl
  find-store n k s ((j, t) ∷ rest) =
      let e = find-store n k s rest in
      elim (Bool-cases (ltb k j)) [
        | inl y ↦ rw y refl
        | inr y ↦ rw y (elim (Bool-cases (k == j)) [
          | inl z ↦ rw z (ground arith)
          | inr z ↦ rw z (rw e (ground arith))
        ])
      ]

  pub store-Above :
      (low k : ℕ) (s : S) (xs : List (ℕ × S)) → low ≤ k → Above low xs → Above low (store k s xs)
  unfolding store
  store-Above low k s [] h a = (h, tt)
  store-Above low k s ((j, t) ∷ rest) h a =
      if_with (Above low) (ltb k j) (λ y. (h, (ground arith, a.1)))
        (λ n.
          if_with (Above low) (k == j)
            (λ y. (
              h,
              (let same : k ≡ j = (==_iff k j).0 y in
                  subst (λ i. Above (suc i) rest) (sym same) a.1),
            ))
            (λ m. (a.0, store-Above (suc j) k s rest (ground arith) a.1)))

  pub store-Below :
      (high k : ℕ) (s : S) (xs : List (ℕ × S))
      → k < high
      → Below high xs
      → Below high (store k s xs)
  unfolding store
  store-Below high k s [] h a = (h, tt)
  store-Below high k s ((j, t) ∷ rest) h a =
      if_both (Below high) (ltb k j) (h, a)
        (if_both (Below high) (k == j) (h, a.1) (a.0, store-Below high k s rest h a.1))

  find-absent : (n low : ℕ) (xs : List (ℕ × S)) → n < low → Above low xs → find n xs ≡ none
  unfolding find
  find-absent n low [] h a = refl
  find-absent n low ((k, s) ∷ rest) h a =
      rw (not_equal n k (omega (arith, a.0))) (find-absent n (suc k) rest (omega (arith, a.0)) a.1)

  pub gather-agree :
      (f g : ℕ → Option S) (number count : ℕ)
      → ((n : ℕ) → f n ≡ g n)
      → gather f number count ≡ gather g number count
  unfolding gather
  gather-agree f g number zero h = refl
  gather-agree f g number (suc count) h =
      rw (h number) (rw (gather-agree f g (number + 1) count h) refl)

  find-beyond :
      (n k : ℕ) (s : S) (rest : List (ℕ × S)) → k < n → find n ((k, s) ∷ rest) ≡ find n rest
  unfolding find
  find-beyond n k s rest h = ground arith

  abbrev gathered : Option (List (ℕ × S)) → ℕ
  gathered none = 0
  gathered (some xs) = length xs

  pub gather-length :
      (f : ℕ → Option S) (number count : ℕ) (xs : List (ℕ × S))
      → gather f number count ≡ some xs
      → length xs ≡ count
  unfolding gather
  gather-length f number zero xs h = sym (ap gathered h)
  gather-length f number (suc count) xs h = elim (Option-cases (f number)) [
    | inl e ↦ cc (rw e at h)
    | inr (s, e) ↦ elim (Option-cases (gather f (number + 1) count)) [
      | inl i ↦ cc (rw e at (rw i at h))
      | inr (ys, i) ↦
          let joined : some ((number, s) ∷ ys) ≡ some xs = rw e at (rw i at h) in
          omega (arith, ap gathered joined, gather-length f (number + 1) count ys i)
    ]
  ]

  -- A rising list that has every number of the range, and no other, is what the range gathers.
  pub present-gather :
      (ys : List (ℕ × S)) (number count : ℕ) (xs : List (ℕ × S))
      → ((n : ℕ) → number ≤ n → find n ys ≡ find n xs)
      → Above number xs
      → Below (number + count) xs
      → all_present number count ys ≡ true
      → gather (λ n. find n ys) number count ≡ some xs
  unfolding gather all_present find
  present-gather ys number zero [] g a b h = refl
  present-gather ys number zero ((k, s) ∷ rest) g a b h = absurd (omega (arith, a.0, b.0))
  present-gather ys number (suc count) [] g a b h =
      let bad : false ≡ true = rw (g number (omega arith)) at h in cc bad
  present-gather ys number (suc count) ((k, s) ∷ rest) g a b h = elim (Bool-cases (number == k)) [
    | inl e ↦
        let same : number ≡ k = (==_iff number k).0 e in
        let here : find number ys ≡ some s = g number (omega arith) ∙ (rw e refl) in
        let others =
          present-gather ys (number + 1) count rest
            (λ n l. g n (omega arith) ∙ find-beyond n k s rest (omega (arith, same)))
            (subst (λ i. Above i rest) (let i : suc k ≡ number + 1 = omega (arith, same) in i) a.1)
            (subst (λ i. Below i rest)
              (let i : number + suc count ≡ number + 1 + count = omega arith in i) b.1)
            (rw here at h) in
        rw here (rw others (rw same refl))
    | inr e ↦
        let missing : find number ys ≡ none =
          g number (omega arith)
          ∙ find-absent number (suc number) ((k, s) ∷ rest) (omega arith)
              (later number k a.0 e, a.1) in
        let bad : false ≡ true = rw missing at h in cc bad
  ]

  pub absent-gather :
      (number count : ℕ) (xs : List (ℕ × S))
      → all_present number count xs ≡ false
      → gather (λ n. find n xs) number count ≡ none
  unfolding gather all_present
  absent-gather number zero xs h = cc h
  absent-gather number (suc count) xs h = elim (Option-cases (find number xs)) [
    | inl e ↦ rw e refl
    | inr (s, e) ↦ rw e (rw (absent-gather (number + 1) count xs (rw e at h)) refl)
  ]

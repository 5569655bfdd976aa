-- ===== src/DurationProbe/Range/Bounds.antt =====
-- The union covers every track, and its two times are those of tracks.
use mathlib.Core.Path.{subst}
use libaribtlv.Base.{
  ◌≡◌, refl, sym, Bool, true, false, Bool-cases, inl, inr, ◌⊎◌, List, [], ◌∷◌, Option, none, some,
  All, arith, if_with,
}
use libaribtlv.Base.Int.{ℤ, ltb_ℤ, ◌≤ℤ◌, ◌<ℤ◌}
use libaribtlv.DurationProbe.Range.{
  VideoPresentationBoundary, VideoPresentationRange, best_from, starts, ends, later, range_of,
  union_video_presentation_ranges,
}

-- A member of a list.
pub data Has {A : Type 0} (a : A) : List A → Type 0 where
  here : (xs : List A) → Has a (a ∷ xs)
  there : (x : A) (xs : List A) → Has a xs → Has a (x ∷ xs)

abbrev pub NotBefore : ℤ → Option ℤ → Type 0
NotBefore m none = Unit
NotBefore m (some x) = m ≤ℤ x

abbrev pub NotAfter : ℤ → Option ℤ → Type 0
NotAfter m none = Unit
NotAfter m (some x) = x ≤ℤ m

-- A bound for every track, and the time of one of them.
abbrev pub Best : (ℤ → Option ℤ → Type 0) → Option ℤ → List (Option ℤ) → Type 0
Best R none xs = All (λ (x : Option ℤ). x ≡ none) xs
Best R (some m) xs = All (R m) xs × Has (some m) xs

-- The scan, with what it has read before.
module _ (before : ℤ → ℤ → Bool) (R : ℤ → Option ℤ → Type 0) (R_none : (m : ℤ) → R m none)
    (R_refl : (m : ℤ) → R m (some m))
    (R_trans : (a b : ℤ) (x : Option ℤ) → R a (some b) → R b x → R a x)
    (is_before : (a b : ℤ) → before a b ≡ true → R a (some b))
    (is_after : (a b : ℤ) → before a b ≡ false → R b (some a)) where
  weaken : (a b : ℤ) (xs : List (Option ℤ)) → R a (some b) → All (R b) xs → All (R a) xs
  weaken a b [] h w = tt
  weaken a b (x ∷ xs) h w = (R_trans a b x h w.0, weaken a b xs h w.1)

  -- From a best that is known, the result bounds it and the rest, and is one of them.
  best_from-some :
      (m : ℤ) (xs : List (Option ℤ))
      → (n : ℤ) × (best_from before (some m) xs ≡ some n)
        × R n (some m)
        × All (R n) xs
        × ((n ≡ m) ⊎ Has (some n) xs)
  unfolding best_from
  best_from-some m [] = (m, refl, R_refl m, tt, inl refl)
  best_from-some m (none ∷ xs) =
      let (n, e, low, all, who) = best_from-some m xs in
      (n, e, low, (R_none n, all), elim who [ inl s ↦ inl s | inr h ↦ inr (there none xs h) ])
  best_from-some m (some a ∷ xs) = elim (Bool-cases (before a m)) [
    | inl y ↦
        let (n, e, low, all, who) = best_from-some a xs in
        (
          n,
          rw y e,
          R_trans n a (some m) low (is_before a m y),
          (low, all),
          elim who [ inl s ↦ inr (rw s (here xs)) | inr h ↦ inr (there (some a) xs h) ],
        )
    | inr z ↦
        let (n, e, low, all, who) = best_from-some m xs in
        (
          n,
          rw z e,
          low,
          (R_trans n m (some a) low (is_after a m z), all),
          elim who [ inl s ↦ inl s | inr h ↦ inr (there (some a) xs h) ],
        )
  ]

  Best-none : (o : Option ℤ) (xs : List (Option ℤ)) → Best R o xs → Best R o (none ∷ xs)
  Best-none none xs b = (refl, b)
  Best-none (some m) xs b = ((R_none m, b.0), there none xs b.1)

  pub best_from-Best : (xs : List (Option ℤ)) → Best R (best_from before none xs) xs
  unfolding best_from
  best_from-Best [] = tt
  best_from-Best (none ∷ xs) = Best-none (best_from before none xs) xs (best_from-Best xs)
  best_from-Best (some a ∷ xs) =
      let (n, e, low, all, who) = best_from-some a xs in
      subst (λ o. Best R o (some a ∷ xs)) (sym e)
        ((low, all), elim who [ inl s ↦ rw s (here xs) | inr h ↦ there (some a) xs h ])

NotBefore-trans : (a b : ℤ) (x : Option ℤ) → NotBefore a (some b) → NotBefore b x → NotBefore a x
NotBefore-trans a b none h k = tt
NotBefore-trans a b (some x) h k = omega arith

NotAfter-trans : (a b : ℤ) (x : Option ℤ) → NotAfter a (some b) → NotAfter b x → NotAfter a x
NotAfter-trans a b none h k = tt
NotAfter-trans a b (some x) h k = omega arith

starts-Best : (xs : List (Option ℤ)) → Best NotBefore (best_from ltb_ℤ none xs) xs
starts-Best xs =
    best_from-Best ltb_ℤ NotBefore (λ m. tt) (λ m. omega arith) NotBefore-trans
      (λ a b h. ground arith) (λ a b h. ground arith) xs

ends-Best : (xs : List (Option ℤ)) → Best NotAfter (best_from later none xs) xs
ends-Best xs =
    best_from-Best later NotAfter (λ m. tt) (λ m. omega arith) NotAfter-trans
      (λ a b h. ground arith) (λ a b h. ground arith) xs

-- The range from the earliest start to the latest end; or no range, since there is no start, or no
-- end, or the latest end is before the earliest start.
abbrev pub Spans : List VideoPresentationBoundary → Option VideoPresentationRange → Type 0
Spans tracks (some r) =
    Best NotBefore (some r.start_us) (starts tracks)
    × Best NotAfter (some r.end_us) (ends tracks)
    × (r.start_us ≤ℤ r.end_us)
Spans tracks none =
    Best NotBefore none (starts tracks)
    ⊎ (Best NotAfter none (ends tracks)
        ⊎ ((s : ℤ) × (e : ℤ) × Best NotBefore (some s) (starts tracks)
            × Best NotAfter (some e) (ends tracks)
            × (e <ℤ s)))

range_of-Spans :
    (tracks : List VideoPresentationBoundary) (s e : Option ℤ)
    → Best NotBefore s (starts tracks)
    → Best NotAfter e (ends tracks)
    → Spans tracks (range_of s e)
range_of-Spans tracks none e b c = inl b
range_of-Spans tracks (some s) none b c = inr (inl c)
range_of-Spans tracks (some s) (some e) b c =
    if_with (Spans tracks) (ltb_ℤ e s) (λ y. inr (inr (s, e, b, c, ground arith)))
      (λ n. (b, c, ground arith))

-- For any tracks: the union goes from the earliest start of a track to the latest end of one. Where
-- there is none, no track has a start, or none has an end, or that end is before that start.
pub union_video_presentation_ranges_lem :
    (tracks : List VideoPresentationBoundary)
    → Spans tracks (union_video_presentation_ranges tracks)
unfolding union_video_presentation_ranges
union_video_presentation_ranges_lem tracks =
    range_of-Spans tracks (best_from ltb_ℤ none (starts tracks))
      (best_from later none (ends tracks)) (starts-Best (starts tracks)) (ends-Best (ends tracks))

-- ===== src/DurationProbe/Candidates/Choice.antt =====
-- The choice among the video tracks: the one that ends last.
use mathlib.Core.Path.{subst}
use libaribtlv.Base.{
  ℕ, ◌≡◌, refl, sym, Bool, true, false, not, ◌&&◌, Bool-cases, inl, inr, ◌⊎◌, List, [], ◌∷◌, Option,
  none, some, ltb, if◌then◌else◌, All, All-map, arith,
}
use libaribtlv.Base.Int.{ℤ, ltb_ℤ, eqb_ℤ, ◌≤ℤ◌, ◌+ℤ◌, InInt64, wrap_int64-exact}
use libaribtlv.DurationProbe.Range.Bounds.{Has, here, there}
use libaribtlv.DurationProbe.Candidates.{
  VideoCandidate, belongs_to_selected_video_range, has_stats, last_end, better, choose_from,
  choose_candidate, selection_level, statistics, maximum_or_zero,
}

-- Not eligible, or no later than the chosen one.
abbrev pub Covered : (VideoCandidate → Bool) → (VideoCandidate → ℤ) → ℤ → VideoCandidate → Type 0
Covered eligible key best c = (eligible c ≡ false) ⊎ (key c ≤ℤ best)

-- The chosen candidate is one of the list, eligible, and covers it; or none is eligible.
abbrev pub Chosen :
    (VideoCandidate → Bool)
    → (VideoCandidate → ℤ)
    → List VideoCandidate
    → Option VideoCandidate
    → Type 0
Chosen eligible key cs none = All (λ (c : VideoCandidate). eligible c ≡ false) cs
Chosen eligible key cs (some r) =
    Has r cs × (eligible r ≡ true) × All (Covered eligible key (key r)) cs

-- The first candidates that beat what was chosen before them.
module _ (eligible : VideoCandidate → Bool) (beats : VideoCandidate → Option VideoCandidate → Bool)
    (key : VideoCandidate → ℤ)
    (wins : (c d : VideoCandidate) → beats c (some d) ≡ true → key d ≤ℤ key c)
    (loses : (c d : VideoCandidate) → beats c (some d) ≡ false → key c ≤ℤ key d)
    (first : (c : VideoCandidate) → beats c none ≡ true) where
  Covered-weaken :
      (a b : ℤ) (cs : List VideoCandidate)
      → a ≤ℤ b
      → All (Covered eligible key a) cs
      → All (Covered eligible key b) cs
  Covered-weaken a b [] h w = tt
  Covered-weaken a b (c ∷ cs) h w =
      (elim w.0 [ inl n ↦ inl n | inr l ↦ inr (omega (arith, l)) ], Covered-weaken a b cs h w.1)

  -- Going on from a candidate: the result is it or a later eligible one, and covers it and the rest.
  choose_from-some :
      (s : VideoCandidate) (cs : List VideoCandidate)
      → (r : VideoCandidate) × (choose_from eligible beats (some s) cs ≡ some r)
        × (key s ≤ℤ key r)
        × All (Covered eligible key (key r)) cs
        × ((r ≡ s) ⊎ (Has r cs × (eligible r ≡ true)))
  unfolding choose_from
  choose_from-some s [] = (s, refl, omega arith, tt, inl refl)
  choose_from-some s (c ∷ cs) = elim (Bool-cases (eligible c)) [
    | inr n ↦
        let (r, e, l, all, who) = choose_from-some s cs in
        (
          r,
          rw n e,
          l,
          (inl n, all),
          elim who [ inl x ↦ inl x | inr (h, y) ↦ inr (there c cs h, y) ],
        )
    | inl y ↦ elim (Bool-cases (beats c (some s))) [
      | inl b ↦
          let (r, e, l, all, who) = choose_from-some c cs in
          (
            r,
            rw y (rw b e),
            omega (arith, l, wins c s b),
            (inr l, all),
            elim who [ inl x ↦ inr (rw x (here cs), rw x y) | inr (h, z) ↦ inr (there c cs h, z) ],
          )
      | inr b ↦
          let (r, e, l, all, who) = choose_from-some s cs in
          (
            r,
            rw y (rw b e),
            l,
            (inr (omega (arith, l, loses c s b)), all),
            elim who [ inl x ↦ inl x | inr (h, z) ↦ inr (there c cs h, z) ],
          )
    ]
  ]

  skip :
      (c : VideoCandidate) (cs : List VideoCandidate)
      → eligible c ≡ false
      → (o : Option VideoCandidate) → Chosen eligible key cs o
      → Chosen eligible key (c ∷ cs) o
  skip c cs n none w = (n, w)
  skip c cs n (some r) (h, y, all) = (there c cs h, y, (inl n, all))

  pub choose_from-Chosen :
      (cs : List VideoCandidate) → Chosen eligible key cs (choose_from eligible beats none cs)
  unfolding choose_from
  choose_from-Chosen [] = tt
  choose_from-Chosen (c ∷ cs) = elim (Bool-cases (eligible c)) [
    | inr n ↦ rw n (skip c cs n (choose_from eligible beats none cs) (choose_from-Chosen cs))
    | inl y ↦ rw y (
        rw (first c)
          let (r, e, l, all, who) = choose_from-some c cs in
            subst (Chosen eligible key (c ∷ cs)) (sym e) (elim who [
              | inl x ↦ (rw x (here cs), rw x y, (inr l, all))
              | inr (h, z) ↦ (there c cs h, z, (inr l, all))
            ]))
  ]

-- Two keys that agree on what is eligible.
agree :
    (eligible : VideoCandidate → Bool) (key other : VideoCandidate → ℤ) (r : VideoCandidate)
    (cs : List VideoCandidate)
    → All (λ c. (eligible c ≡ false) ⊎ (key c ≡ other c)) cs
    → Has r cs
    → eligible r ≡ true
    → key r ≡ other r
agree eligible key other r cs w (here xs) y = elim w.0 [ inl n ↦ cc (n, y) | inr e ↦ e ]
agree eligible key other r cs w (there x xs h) y = agree eligible key other r xs w.1 h y

Chosen-key :
    (eligible : VideoCandidate → Bool) (key other : VideoCandidate → ℤ) (cs : List VideoCandidate)
    → All (λ c. (eligible c ≡ false) ⊎ (key c ≡ other c)) cs
    → (o : Option VideoCandidate) → Chosen eligible key cs o
    → Chosen eligible other cs o
Chosen-key eligible key other cs w none h = h
Chosen-key eligible key other cs w (some r) (has, y, all) = (has, y, covered cs w all)
  where
    same : key r ≡ other r
    same = agree eligible key other r cs w has y

    covered :
        (xs : List VideoCandidate)
        → All (λ c. (eligible c ≡ false) ⊎ (key c ≡ other c)) xs
        → All (Covered eligible key (key r)) xs
        → All (Covered eligible other (other r)) xs
    covered [] v k = tt
    covered (x ∷ xs) v k = (
      elim v.0 [
        | inl n ↦ inl n
        | inr e ↦ elim k.0 [
          | inl n ↦ inl n
          | inr l ↦ inr (subst (λ z. z ≤ℤ other r) e (subst (λ z. key x ≤ℤ z) same l))
        ]
      ],
      covered xs v.1 k.1,
    )

better-wins :
    (at_tail : Bool) (c d : VideoCandidate)
    → better at_tail c (some d) ≡ true
    → last_end at_tail d ≤ℤ last_end at_tail c
better-wins at_tail c d h =
    ends_order (last_end at_tail c) (last_end at_tail d)
      (ltb (selection_level c) (selection_level d)) h
  where
    ends_order : (a b : ℤ) (t : Bool) → (if not (eqb_ℤ a b) then ltb_ℤ b a else t) ≡ true → b ≤ℤ a
    ends_order a b t h = ground arith

better-loses :
    (at_tail : Bool) (c d : VideoCandidate)
    → better at_tail c (some d) ≡ false
    → last_end at_tail c ≤ℤ last_end at_tail d
better-loses at_tail c d h =
    ends_order (last_end at_tail c) (last_end at_tail d)
      (ltb (selection_level c) (selection_level d)) h
  where
    ends_order : (a b : ℤ) (t : Bool) → (if not (eqb_ℤ a b) then ltb_ℤ b a else t) ≡ false → a ≤ℤ b
    ends_order a b t h = ground arith

abbrev pub eligible_in : Option ℕ → List VideoCandidate → Bool → VideoCandidate → Bool
eligible_in packet_id cs at_tail c =
    belongs_to_selected_video_range packet_id cs c && has_stats at_tail c

-- The end of a track: its greatest time and one frame more.
abbrev pub exact_end : Bool → VideoCandidate → ℤ
exact_end at_tail c =
    maximum_or_zero (statistics at_tail c).maximum +ℤ (statistics at_tail c).frame_duration

-- The end is a number of 64 bits, for a track with statistics.
abbrev pub EndFits : Bool → VideoCandidate → Type 0
EndFits at_tail c = (has_stats at_tail c ≡ false) ⊎ InInt64 (exact_end at_tail c)

-- For any tracks whose ends, where they have statistics, are numbers of 64 bits: the chosen one is
-- among them, belongs to the selected range and has statistics, and no such track ends later. Where
-- none is chosen, there is no such track.
pub choose_candidate_lem :
    (packet_id : Option ℕ) (cs : List VideoCandidate) (at_tail : Bool)
    → All (EndFits at_tail) cs
    → Chosen
        (eligible_in packet_id cs at_tail)
        (exact_end at_tail)
        cs
        (choose_candidate packet_id cs at_tail)
unfolding choose_candidate
choose_candidate_lem packet_id cs at_tail fit =
    Chosen-key (eligible_in packet_id cs at_tail) (last_end at_tail) (exact_end at_tail) cs
      (All-map (EndFits at_tail) _ cs (λ c f. same_end cs c f) fit)
      (choose_candidate packet_id cs at_tail)
      (choose_from-Chosen (eligible_in packet_id cs at_tail) (better at_tail) (last_end at_tail)
        (better-wins at_tail) (better-loses at_tail) (λ c. refl) cs)
  where
    and_false : (b : Bool) → (b && false) ≡ false
    and_false true = refl
    and_false false = refl

    same_end :
        (all : List VideoCandidate) (c : VideoCandidate)
        → EndFits at_tail c
        → (eligible_in packet_id all at_tail c ≡ false) ⊎ (last_end at_tail c ≡ exact_end at_tail c)
    same_end all c (inl n) =
        inl (rw n (and_false (belongs_to_selected_video_range packet_id all c)))
    same_end all c (inr h) = inr (wrap_int64-exact (exact_end at_tail c) h)

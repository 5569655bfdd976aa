-- ===== src/Recording/Around.antt =====
-- src/recording.cpp, seekPointsFor: the two points around a target.
use mathlib.Core.Path.{subst}
use libaribtlv.Base.{
  ◌≡◌, refl, sym, ap, ◌∙◌, Bool, true, false, Bool-cases, inl, inr, Option, none, some, List, [],
  ◌∷◌, ◌++◌, append_assoc, All, arith,
}
use libaribtlv.Base.Int.{ℤ, ◌≤ℤ◌, ◌<ℤ◌, eqb_ℤ, eqb_ℤ→eq}
use libaribtlv.Timeline.{timestamp_microseconds}
use libaribtlv.Types.{Timestamp}
use libaribtlv.Recording.Points.{time, Chain, partition-append, partition-front, partition-back}
use libaribtlv.Recording.Queries.{Chain-front, Chain-back, ends, back_later, All-end}
use libaribtlv.Recording.Lifecycle.{not_after, pair_around, seek_points_for}
use libaribtlv.Recording.{SeekPoint, SeekPoints, RecordingIndex, partition, last_or}

-- What the query may answer: the first point if all are after the target, the last one not after it,
-- alone if it stands at the target or ends the list, and otherwise with its successor.
pub data Around (target : ℤ) (points : List SeekPoint) : Option SeekPoints → Type 0 where
  nothing : points ≡ [] → Around target points none
  ahead :
      (x : SeekPoint) (rest : List SeekPoint)
      → points ≡ x ∷ rest
      → All (λ p. target <ℤ time p) points
      → Around target points (some (record { first = x; second = none }))
  at_end :
      (front : List SeekPoint) (p : SeekPoint)
      → points ≡ front ++ p ∷ []
      → time p ≤ℤ target
      → Around target points (some (record { first = p; second = none }))
  exact :
      (front : List SeekPoint) (p : SeekPoint) (back : List SeekPoint)
      → points ≡ front ++ p ∷ back
      → time p ≡ target
      → All (λ q. target <ℤ time q) back
      → Around target points (some (record { first = p; second = none }))
  between :
      (front : List SeekPoint) (p q : SeekPoint) (back : List SeekPoint)
      → points ≡ front ++ p ∷ q ∷ back
      → time p <ℤ target
      → target <ℤ time q
      → Around target points (some (record { first = p; second = some q }))

Around-pair :
    (target : ℤ) (points front : List SeekPoint) (p : SeekPoint) (back : List SeekPoint)
    → points ≡ front ++ p ∷ back
    → time p ≤ℤ target
    → All (λ q. target <ℤ time q) back
    → Around target points (pair_around target (some p) back)
Around-pair target points front p [] e early late = Around.at_end front p e early
Around-pair target points front p (q ∷ back) e early late =
    elim (Bool-cases (eqb_ℤ (time p) target)) [
      | inl y ↦ rw y (Around.exact front p (q ∷ back) e (eqb_ℤ→eq (time p) target y) late)
      | inr n ↦ rw n (Around.between front p q back e (before (time p) target early n) late.0)
    ]
  where
    before : (a b : ℤ) → a ≤ℤ b → eqb_ℤ a b ≡ false → a <ℤ b
    before a b h n = ground arith

Around-front :
    (target : ℤ) (front back : List SeekPoint)
    → Chain none (front ++ back)
    → All (λ q. not_after target q ≡ true) front
    → All (λ q. target <ℤ time q) back
    → Around target (front ++ back) (pair_around target (last_or none front) back)
Around-front target [] [] c early late = Around.nothing refl
Around-front target [] (x ∷ back) c early late = Around.ahead x back refl late
Around-front target (x ∷ xs) back c early late =
    let e = ends x xs (Chain-front (some x) xs back c.1) in
    subst (λ o. Around target (x ∷ xs ++ back) (pair_around target o back)) (sym e.at_end)
      (Around-pair target (x ∷ xs ++ back) e.init e.end back
        (ap (λ l. l ++ back) e.split ∙ append_assoc e.init (e.end ∷ []) back)
        (let t =
            All-end _ e.init e.end (subst (All (λ q. not_after target q ≡ true)) e.split early) in
          ground arith)
        late)

-- In an index whose points are in order, for a target whose time in microseconds is a number of 64
-- bits: `seekPointsFor` answers nothing only if there are no points; the first point alone if all are
-- after the target; otherwise the last point that is not after the target, alone if it stands at the
-- target or is the last, and with the one behind it if it is before the target.
pub seek_points_for_lem :
    (target : Timestamp) (r : RecordingIndex) {us : ℤ}
    → Chain none r.seek_points
    → timestamp_microseconds target ≡ some us
    → Around us r.seek_points (seek_points_for target r)
unfolding seek_points_for
seek_points_for_lem target r {us} c e = rw e (
    subst (λ l. Around us l (pair_around us (last_or none front) back)) whole
      (Around-front us front back chain (partition-front test points) (
        back_later us (last_or none front) back (partition-back test points)
          (Chain-back none front back chain))))
  where
    test : SeekPoint → Bool
    test = not_after us

    points : List SeekPoint
    points = r.seek_points

    front : List SeekPoint
    front = (partition test points).0

    back : List SeekPoint
    back = (partition test points).1

    whole : front ++ back ≡ points
    whole = partition-append test points

    chain : Chain none (front ++ back)
    chain = subst (Chain none) (sym whole) c

-- ===== src/Recording/Points.antt =====
-- The seek points stay in order of time and of byte offset.
use libaribtlv.Base.{
  ◌≤◌, ◌≡◌, refl, sym, ap, ◌∙◌, Bool, true, false, ◌||◌, Bool-cases, inl, inr, Option, none, some,
  List, [], ◌∷◌, ◌++◌, All, arith,
}
use libaribtlv.Base.Int.{ℤ, ◌≤ℤ◌}
use mathlib.Core.Path.{subst}
use libaribtlv.Recording.{
  SeekPoint, point_less, partition, last_or, overtaken, overtakes, is_same_point, insert_at,
}

abbrev pub time : SeekPoint → ℤ
time p = p.presentation_time.value

-- Neither the time nor the byte offset falls.
abbrev pub Ordered : SeekPoint → SeekPoint → Type 0
Ordered p q = (time p ≤ℤ time q) × (p.random_access_offset ≤ q.random_access_offset)

abbrev pub After : Option SeekPoint → SeekPoint → Type 0
After none q = Unit
After (some p) q = Ordered p q

-- Every point follows its predecessor; `previous` is the one before the list.
abbrev pub Chain : Option SeekPoint → List SeekPoint → Type 0
Chain previous [] = Unit
Chain previous (x ∷ xs) = After previous x × Chain (some x) xs

abbrev pub Before : SeekPoint → List SeekPoint → Type 0
Before p [] = Unit
Before p (x ∷ xs) = Ordered p x

pub partition-append :
    (before : SeekPoint → Bool) (xs : List SeekPoint)
    → (partition before xs).0 ++ (partition before xs).1 ≡ xs
unfolding partition
partition-append before [] = refl
partition-append before (x ∷ xs) = elim (Bool-cases (before x)) [
  | inl y ↦ rw y (ap (◌∷◌ x) (partition-append before xs))
  | inr n ↦ rw n refl
]

-- The points in front pass the test, and the first behind does not.
pub partition-front :
    (before : SeekPoint → Bool) (xs : List SeekPoint)
    → All (λ x. before x ≡ true) (partition before xs).0
unfolding partition
partition-front before [] = tt
partition-front before (x ∷ xs) = elim (Bool-cases (before x)) [
  | inl y ↦ rw y (y, partition-front before xs)
  | inr n ↦ rw n tt
]

abbrev pub HeadFails : (SeekPoint → Bool) → List SeekPoint → Type 0
HeadFails before [] = Unit
HeadFails before (x ∷ xs) = before x ≡ false

pub partition-back :
    (before : SeekPoint → Bool) (xs : List SeekPoint) → HeadFails before (partition before xs).1
unfolding partition
partition-back before [] = tt
partition-back before (x ∷ xs) = elim (Bool-cases (before x)) [
  | inl y ↦ rw y (partition-back before xs)
  | inr n ↦ rw n n
]

pub Chain-insert :
    (previous : Option SeekPoint) (front back : List SeekPoint) (p : SeekPoint)
    → Chain previous (front ++ back)
    → After (last_or previous front) p
    → Before p back
    → Chain previous (front ++ p ∷ back)
Chain-insert previous [] [] p c a b = (a, tt)
Chain-insert previous [] (x ∷ back) p c a b = (a, (b, c.1))
Chain-insert previous (x ∷ front) back p c a b = (c.0, Chain-insert (some x) front back p c.1 a b)

abbrev TimeLe : Option SeekPoint → SeekPoint → Type 0
TimeLe none p = Unit
TimeLe (some q) p = time q ≤ℤ time p

point_less-TimeLe : (x p : SeekPoint) → point_less x p ≡ true → time x ≤ℤ time p
unfolding point_less
point_less-TimeLe x p h = ground arith

not-point_less : (x p : SeekPoint) → point_less x p ≡ false → time p ≤ℤ time x
unfolding point_less
not-point_less x p h = ground arith

last-TimeLe :
    (d : Option SeekPoint) (front : List SeekPoint) (p : SeekPoint)
    → All (λ x. point_less x p ≡ true) front
    → TimeLe d p
    → TimeLe (last_or d front) p
last-TimeLe d [] p h a = a
last-TimeLe d (x ∷ front) p h a = last-TimeLe (some x) front p h.1 (point_less-TimeLe x p h.0)

-- What the tests of `addSeekPoint` say of the neighbours.
front-After :
    (q : Option SeekPoint) (p : SeekPoint) → TimeLe q p → overtaken q p ≡ false → After q p
front-After none p t o = tt
front-After (some q) p t o = (t, ground arith)

back-Before :
    (back : List SeekPoint) (p : SeekPoint)
    → HeadFails (λ x. point_less x p) back
    → overtakes back p ≡ false
    → Before p back
back-Before [] p h o = tt
back-Before (x ∷ back) p h o = (not-point_less x p h, ground arith)

-- The insertion of `addSeekPoint` keeps the order, and changes nothing but by one new point.
pub insert_at-Chain :
    (xs : List SeekPoint) (p : SeekPoint) {ys : List SeekPoint}
    → Chain none xs
    → insert_at (partition (λ x. point_less x p) xs) p ≡ some ys
    → Chain none ys
unfolding insert_at
insert_at-Chain xs p {ys} c e = elim (Bool-cases (is_same_point back p)) [
  | inl dup ↦
      let same : front ++ back ≡ ys = cc (rw dup at e) in
      subst (Chain none) (sym (partition-append less xs) ∙ same) c
  | inr new ↦ elim (Bool-cases (overtaken (last_or none front) p || overtakes back p)) [
    | inl bad ↦ cc (rw (new, bad) at e)
    | inr fits ↦
        let same : front ++ p ∷ back ≡ ys = cc (rw (new, fits) at e) in
        let o : overtaken (last_or none front) p ≡ false = ground arith in
        let o' : overtakes back p ≡ false = ground arith in
        subst (Chain none) same (
          Chain-insert none front back p (subst (Chain none) (sym (partition-append less xs)) c)
            (front-After (last_or none front) p
              (last-TimeLe none front p (partition-front less xs) tt) o)
            (back-Before back p (partition-back less xs) o'))
  ]
]
  where
    less : SeekPoint → Bool
    less x = point_less x p

    front : List SeekPoint
    front = (partition less xs).0

    back : List SeekPoint
    back = (partition less xs).1

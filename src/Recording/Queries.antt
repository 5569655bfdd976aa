-- ===== src/Recording/Queries.antt =====
-- src/recording.cpp, previousSync and seekPointsFor: what they find in a valid index.
use libaribtlv.Base.{
  ◌≡◌, refl, sym, ap, ◌∙◌, Bool, true, Option, none, some, List, [], ◌∷◌, ◌++◌, All, append_assoc,
  arith,
}
use libaribtlv.Base.Int.{ℤ, ◌≤ℤ◌, ◌<ℤ◌}
use mathlib.Core.Path.{subst}
use libaribtlv.Timeline.{timestamp_microseconds}
use libaribtlv.Types.{Timestamp}
use libaribtlv.Recording.Points.{
  time, Ordered, Chain, HeadFails, partition-append, partition-front, partition-back,
}
use libaribtlv.Recording.Lifecycle.{not_after, previous_sync}
use libaribtlv.Recording.{SeekPoint, RecordingIndex, partition, last_or}

-- What a query for the last point at or before `target` may answer: the points split into those at or
-- before it, the answer last, and those after it.
pub data Found (target : ℤ) (points : List SeekPoint) : Option SeekPoint → Type 0 where
  nothing : All (λ p. target <ℤ time p) points → Found target points none
  last :
      (front : List SeekPoint) (p : SeekPoint) (back : List SeekPoint)
      → points ≡ front ++ p ∷ back
      → time p ≤ℤ target
      → All (λ q. Ordered q p) front
      → All (λ q. target <ℤ time q) back
      → Found target points (some p)

Ordered-trans : (p q s : SeekPoint) → Ordered p q → Ordered q s → Ordered p s
Ordered-trans p q s a b = (omega arith, omega arith)

pub Chain-front :
    (d : Option SeekPoint) (front back : List SeekPoint) → Chain d (front ++ back) → Chain d front
Chain-front d [] back c = tt
Chain-front d (x ∷ front) back c = (c.0, Chain-front (some x) front back c.1)

pub Chain-back :
    (d : Option SeekPoint) (front back : List SeekPoint)
    → Chain d (front ++ back)
    → Chain (last_or d front) back
Chain-back d [] back c = c
Chain-back d (x ∷ front) back c = Chain-back (some x) front back c.1

-- The last of the points, with what stands before it.
pub record Ends (x : SeekPoint) (xs : List SeekPoint) : Type 0 where
  pub init : List SeekPoint
  pub end : SeekPoint
  pub at_end : last_or (some x) xs ≡ some end
  pub split : x ∷ xs ≡ init ++ end ∷ []
  pub above : All (λ q. Ordered q end) init
  pub first : Ordered x end

pub ends : (x : SeekPoint) (xs : List SeekPoint) → Chain (some x) xs → Ends x xs
ends x [] c = record {
  init = [];
  end = x;
  at_end = refl;
  split = refl;
  above = tt;
  first = (omega arith, omega arith);
}
ends x (y ∷ ys) c =
    let rest = ends y ys c.1 in
    let through = Ordered-trans x y rest.end c.0 rest.first in
    record {
      init = x ∷ rest.init;
      end = rest.end;
      at_end = rest.at_end;
      split = ap (◌∷◌ x) rest.split;
      above = (through, rest.above);
      first = through;
    }

All-later :
    (target : ℤ) (x : SeekPoint) (xs : List SeekPoint)
    → target <ℤ time x
    → Chain (some x) xs
    → All (λ q. target <ℤ time q) xs
All-later target x [] h c = tt
All-later target x (y ∷ ys) h c =
    let later : target <ℤ time y = (let o = c.0.0 in omega arith) in
    (later, All-later target y ys later c.1)

pub back_later :
    (target : ℤ) (d : Option SeekPoint) (back : List SeekPoint)
    → HeadFails (not_after target) back
    → Chain d back
    → All (λ q. target <ℤ time q) back
back_later target d [] h c = tt
back_later target d (x ∷ xs) h c =
    let later : target <ℤ time x = ground arith in (later, All-later target x xs later c.1)

pub All-end :
    (P : SeekPoint → Type 0) (init : List SeekPoint) (p : SeekPoint) → All P (init ++ p ∷ []) → P p
All-end P [] p h = h.0
All-end P (x ∷ init) p h = All-end P init p h.1

Found-front :
    (target : ℤ) (front back : List SeekPoint)
    → Chain none (front ++ back)
    → All (λ q. not_after target q ≡ true) front
    → All (λ q. target <ℤ time q) back
    → Found target (front ++ back) (last_or none front)
Found-front target [] back c early late = Found.nothing late
Found-front target (x ∷ xs) back c early late =
    let e = ends x xs (Chain-front (some x) xs back c.1) in
    subst (Found target (x ∷ xs ++ back)) (sym e.at_end) (
      Found.last e.init e.end back
        (ap (λ l. l ++ back) e.split ∙ append_assoc e.init (e.end ∷ []) back)
        (let t =
            All-end _ e.init e.end (subst (All (λ q. not_after target q ≡ true)) e.split early) in
          ground arith)
        e.above late)

-- In an index whose points are in order, for a target whose time in microseconds is a number of 64
-- bits: `previousSync` answers the last of the points that are not
-- after the target: every point before it in the list is at or before it in time and offset, every
-- point behind it is after the target; and it answers nothing exactly if all points are after.
pub previous_sync_lem :
    (target : Timestamp) (r : RecordingIndex) {us : ℤ}
    → Chain none r.seek_points
    → timestamp_microseconds target ≡ some us
    → Found us r.seek_points (previous_sync target r)
unfolding previous_sync
previous_sync_lem target r {us} c e = rw e (
    subst (λ l. Found us l (last_or none front)) whole
      (Found-front us front back chain (partition-front test points) (
        back_later us (last_or none front) back (partition-back test points)
          (Chain-back none front back chain))))
  where
    test : SeekPoint → Bool
    test = not_after us

    points : List SeekPoint
    points = r.seek_points

    front : List SeekPoint
    front = (partition test points).0

    back : List SeekPoint
    back = (partition test points).1

    whole : front ++ back ≡ points
    whole = partition-append test points

    chain : Chain none (front ++ back)
    chain = subst (Chain none) (sym whole) c

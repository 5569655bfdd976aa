-- ===== src/AssetLayers/Levels.antt =====
-- The level of a track in a group.
use mathlib.Core.List.{Memᴰ}
use mathlib.Core.List.Memᴰ.{head, tail}
use libaribtlv.Base.{
  ℕ, ◌≤◌, ◌≡◌, ◌≢◌, refl, Bool, true, false, Bool-cases, if_with, inl, inr, Option, none, some,
  List, [], ◌∷◌, ==_iff, All, All-map, arith,
}
use libaribtlv.AssetLayers.{
  AssetGroupInfo, TrackInfo, matches, group_less, min_from, level_of, level_among,
  asset_selection_level, is_video,
}

-- No group of the list comes before `b`.
abbrev Least : Option ℕ → AssetGroupInfo → List AssetGroupInfo → Type 0
Least g b xs = All (λ y. group_less g y b ≡ false) xs

group_less_irrefl : (g : ℕ) (b : AssetGroupInfo) → group_less (some g) b b ≡ false
unfolding group_less
group_less_irrefl g b = ground arith

group_less_trans :
    (g : ℕ) (x y b : AssetGroupInfo)
    → group_less (some g) x b ≡ true
    → group_less (some g) y b ≡ false
    → group_less (some g) y x ≡ false
unfolding group_less
group_less_trans g x y b h k = ground arith

group_less_below :
    (g : ℕ) (x best b : AssetGroupInfo)
    → group_less (some g) x best ≡ true
    → group_less (some g) x b ≡ false
    → group_less (some g) best b ≡ false
unfolding group_less
group_less_below g x best b h k = ground arith

group_less_step :
    (g : ℕ) (x best b : AssetGroupInfo)
    → group_less (some g) x best ≡ false
    → group_less (some g) best b ≡ false
    → group_less (some g) x b ≡ false
unfolding group_less
group_less_step g x best b h k = ground arith

-- `min_from` finds a member that no other member comes before.
abbrev Minimum : ℕ → List AssetGroupInfo → AssetGroupInfo → Type 0
Minimum g xs b = Memᴰ b xs × Least (some g) b xs

behind :
    {b best : AssetGroupInfo} {xs : List AssetGroupInfo} (x : AssetGroupInfo)
    → Memᴰ b (best ∷ xs)
    → Memᴰ b (best ∷ x ∷ xs)
behind x (head e) = head e
behind x (tail m) = tail (tail m)

min_from-Minimum :
    (g : ℕ) (best : AssetGroupInfo) (xs : List AssetGroupInfo)
    → Minimum g (best ∷ xs) (min_from (some g) best xs)
unfolding min_from
min_from-Minimum g best [] = (head refl, (group_less_irrefl g best, tt))
min_from-Minimum g best (x ∷ xs) =
    if_with (λ b. Minimum g (best ∷ x ∷ xs) (min_from (some g) b xs)) (group_less (some g) x best)
      (λ y.
        let (m, low) = min_from-Minimum g x xs in
        (tail m, (group_less_below g x best (min_from (some g) x xs) y low.0, low)))
      (λ n.
        let (m, low) = min_from-Minimum g best xs in
        (
          behind x m,
          (low.0, (group_less_step g x best (min_from (some g) best xs) n low.0, low.1)),
        ))

-- What the answer for the group `g` says of a track's groups.
pub data Level (g : ℕ) (xs : List AssetGroupInfo) : Option ℕ → Type 0 where
  outside : All (λ x. x.group_identification ≢ g) xs → Level g xs none
  least :
      (b : AssetGroupInfo)
      → Memᴰ b xs
      → b.group_identification ≡ g
      → All (λ y. y.group_identification ≡ g → b.selection_level ≤ y.selection_level) xs
      → Level g xs (some b.selection_level)

not_below :
    (g : ℕ) (b y : AssetGroupInfo)
    → matches (some g) b ≡ true
    → group_less (some g) y b ≡ false
    → y.group_identification ≡ g
    → b.selection_level ≤ y.selection_level
unfolding group_less
not_below g b y m h e = ground arith

not_outside :
    (g : ℕ) (b y : AssetGroupInfo)
    → matches (some g) b ≡ false
    → group_less (some g) y b ≡ false
    → y.group_identification ≢ g
unfolding group_less
not_outside g b y m h e = ground arith

level_of-Level :
    (g : ℕ) (xs : List AssetGroupInfo) (b : AssetGroupInfo)
    → Minimum g xs b
    → Level g xs (level_of (some g) b)
level_of-Level g xs b (m, low) = elim (Bool-cases (matches (some g) b)) [
  | inl y ↦ rw y (
      Level.least b m ((==_iff b.group_identification g).0 y)
        (All-map (λ x. group_less (some g) x b ≡ false) _ xs (λ x h. not_below g b x y h) low))
  | inr n ↦ rw n (
      Level.outside
        (All-map (λ x. group_less (some g) x b ≡ false) _ xs (λ x h. not_outside g b x n h) low))
]

level_among-Level :
    (v : Bool) (g : ℕ) (xs : List AssetGroupInfo) → Level g xs (level_among v (some g) xs)
unfolding level_among
level_among-Level true g [] = Level.outside tt
level_among-Level false g [] = Level.outside tt
level_among-Level v g (x ∷ xs) =
    level_of-Level g (x ∷ xs) (min_from (some g) x xs) (min_from-Minimum g x xs)

-- Asked for a group, the selection level of a track is the least level among its entries of that
-- group, and there is none exactly if the track has no entry of that group.
pub asset_selection_level_lem :
    (track : TrackInfo) (g : ℕ) → Level g track.asset_groups (asset_selection_level track (some g))
unfolding asset_selection_level
asset_selection_level_lem track g = level_among-Level (is_video track.kind) g track.asset_groups

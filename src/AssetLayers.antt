-- ===== src/AssetLayers.antt =====
-- include/aribtlv/asset_layers.hpp and src/asset_layers.cpp: the layers of an asset group. A track
-- has the members that these functions and the duration probe read.
pub mod Levels
pub mod Sharing
mod Tests
use libaribtlv.Types.{TrackKind, video, Codec}
use libaribtlv.Base.{
  ℕ, Bool, true, false, not, ◌&&◌, ◌||◌, Option, none, some, List, [], ◌∷◌, ltb, ◌==◌,
  if◌then◌else◌,
}

pub record AssetGroupInfo : Type 0 where
  pub group_identification : ℕ
  pub selection_level : ℕ

pub record TrackInfo : Type 0 where
  pub track_id : ℕ
  pub context_id : ℕ
  pub packet_id : ℕ
  pub kind : TrackKind
  pub codec : Codec
  pub asset_groups : List AssetGroupInfo

abbrev pub is_video : TrackKind → Bool
is_video video = true
is_video _ = false

abbrev pub is_nil {ℓ} : {A : Type ℓ} → List A → Bool
is_nil [] = true
is_nil (x ∷ xs) = false

-- `std::any_of`.
unfoldable pub any {ℓ} : {A : Type ℓ} → (A → Bool) → List A → Bool
any f [] = false
any f (x ∷ xs) = f x || any f xs

-- `!group_identification.has_value() || group.group_identification == *group_identification`.
abbrev pub matches : Option ℕ → AssetGroupInfo → Bool
matches none group = true
matches (some g) group = group.group_identification == g

-- The order that `std::min_element` is given.
unfoldable pub group_less : Option ℕ → AssetGroupInfo → AssetGroupInfo → Bool
group_less g left right =
    if matches g left
    then (if matches g right then ltb left.selection_level right.selection_level else true)
    else if matches g right
    then false
    else ltb left.selection_level right.selection_level

-- `std::min_element` behind the first element: the first of the least.
unfoldable pub min_from : Option ℕ → AssetGroupInfo → List AssetGroupInfo → AssetGroupInfo
min_from g best [] = best
min_from g best (x ∷ xs) = min_from g (if group_less g x best then x else best) xs

abbrev pub level_of : Option ℕ → AssetGroupInfo → Option ℕ
level_of g group = if matches g group then some group.selection_level else none

abbrev pub ungrouped_level : Bool → Option ℕ → Option ℕ
ungrouped_level true none = some 0
ungrouped_level _ _ = none

unfoldable pub level_among : Bool → Option ℕ → List AssetGroupInfo → Option ℕ
level_among is_video_track g [] = ungrouped_level is_video_track g
level_among is_video_track g (x ∷ xs) = level_of g (min_from g x xs)

pub asset_selection_level : TrackInfo → Option ℕ → Option ℕ
asset_selection_level track g = level_among (is_video track.kind) g track.asset_groups

pub belongs_to_asset_group : TrackInfo → ℕ → Bool
belongs_to_asset_group track g = any (λ group. group.group_identification == g) track.asset_groups

pub shares_video_asset_group : TrackInfo → TrackInfo → Bool
shares_video_asset_group left right =
    if not (is_video left.kind)
      || not (is_video right.kind)
      || not (left.context_id == right.context_id)
    then false
    else if is_nil left.asset_groups && is_nil right.asset_groups
    then false
    else if is_nil left.asset_groups || is_nil right.asset_groups
    then true
    else any (λ group. belongs_to_asset_group right group.group_identification) left.asset_groups

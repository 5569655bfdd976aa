-- ===== src/AssetLayers/Sharing.antt =====
-- Sharing a video asset group is symmetric.
use libaribtlv.Base.{
  ℕ, ◌≡◌, refl, sym, ap, ◌∙◌, Bool, true, false, not, ◌&&◌, ◌||◌, List, [], ◌∷◌, ◌==◌,
  if◌then◌else◌, arith,
}
use libaribtlv.AssetLayers.{
  AssetGroupInfo, TrackInfo, is_video, is_nil, any, belongs_to_asset_group,
  shares_video_asset_group,
}

or_swap : (a b c d : Bool) → (a || b) || (c || d) ≡ (a || c) || (b || d)
or_swap true b c d = refl
or_swap false true true d = refl
or_swap false true false d = refl
or_swap false false c d = refl

any-or {ℓ} :
    {A : Type ℓ} (f g : A → Bool) (xs : List A) → any (λ x. f x || g x) xs ≡ any f xs || any g xs
unfolding any
any-or f g [] = refl
any-or f g (x ∷ xs) =
    ap (λ b. (f x || g x) || b) (any-or f g xs) ∙ or_swap (f x) (g x) (any f xs) (any g xs)

any-false {ℓ} : {A : Type ℓ} (xs : List A) → any (λ x. false) xs ≡ false
unfolding any
any-false [] = refl
any-false (x ∷ xs) = any-false xs

same_id_comm : (a b : ℕ) → (a == b) ≡ (b == a)
same_id_comm a b = ground arith

-- A pair of equal members is found from either side.
any_comm :
    (xs ys : List AssetGroupInfo)
    → any (λ x. any (λ y. y.group_identification == x.group_identification) ys) xs
      ≡ any (λ y. any (λ x. x.group_identification == y.group_identification) xs) ys
unfolding any
any_comm [] ys = sym (any-false ys)
any_comm (x ∷ xs) ys =
    ap (λ b. any (λ y. y.group_identification == x.group_identification) ys || b) (any_comm xs ys)
    ∙ ap (λ b. b || any (λ y. any (λ z. z.group_identification == y.group_identification) xs) ys)
        (one x ys)
    ∙ sym (
        any-or (λ y. x.group_identification == y.group_identification)
          (λ y. any (λ z. z.group_identification == y.group_identification) xs) ys)
  where
    one :
        (x : AssetGroupInfo) (ys : List AssetGroupInfo)
        → any (λ y. y.group_identification == x.group_identification) ys
          ≡ any (λ y. x.group_identification == y.group_identification) ys
    one x [] = refl
    one x (y ∷ ys) =
        ap (λ b. b || any (λ y. y.group_identification == x.group_identification) ys)
          (same_id_comm y.group_identification x.group_identification)
        ∙ ap (λ b. x.group_identification == y.group_identification || b) (one x ys)

-- Two tracks share a video asset group whichever is asked first.
pub shares_video_asset_group_comm :
    (left right : TrackInfo)
    → shares_video_asset_group left right ≡ shares_video_asset_group right left
unfolding shares_video_asset_group belongs_to_asset_group
shares_video_asset_group_comm left right =
    rw
      (same_id_comm left.context_id right.context_id, any_comm left.asset_groups right.asset_groups)
      (go (is_video left.kind) (is_video right.kind) (right.context_id == left.context_id)
        (is_nil left.asset_groups) (is_nil right.asset_groups) _)
  where
    go :
        (l r c m n s : Bool)
        → (if not l || not r || not c
            then false
            else if m && n
            then false
            else if m || n
            then true
            else s)
          ≡ (if not r || not l || not c
              then false
              else if n && m
              then false
              else if n || m
              then true
              else s)
    go true true true true true s = refl
    go true true true true false s = refl
    go true true true false true s = refl
    go true true true false false s = refl
    go true true false m n s = refl
    go true false c m n s = refl
    go false true c m n s = refl
    go false false c m n s = refl

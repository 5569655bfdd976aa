-- ===== src/AssetLayers/Tests.antt =====
-- Two tracks and their groups.
use libaribtlv.Base.{ℕ, ◌≡◌, some, [], ◌∷◌}
use libaribtlv.Types.{video, hevc}
use libaribtlv.AssetLayers.Levels.{Level, asset_selection_level_lem}
use libaribtlv.AssetLayers.Sharing.{shares_video_asset_group_comm}
use libaribtlv.AssetLayers.{
  AssetGroupInfo, TrackInfo, asset_selection_level, shares_video_asset_group,
}

abbrev group : ℕ → ℕ → AssetGroupInfo
group g l = record { group_identification = g; selection_level = l }

abbrev high : TrackInfo
high = record {
  track_id = 7;
  context_id = 3;
  packet_id = 256;
  kind = video;
  codec = hevc;
  asset_groups = group 1 4 ∷ group 2 0 ∷ group 1 2 ∷ [];
}

abbrev low : TrackInfo
low = record {
  track_id = 8;
  context_id = 3;
  packet_id = 257;
  kind = video;
  codec = hevc;
  asset_groups = group 2 1 ∷ [];
}

asset_selection_level_lem_example : Level 1 high.asset_groups (asset_selection_level high (some 1))
asset_selection_level_lem_example = asset_selection_level_lem high 1

shares_video_asset_group_comm_example :
    shares_video_asset_group high low ≡ shares_video_asset_group low high
shares_video_asset_group_comm_example = shares_video_asset_group_comm high low

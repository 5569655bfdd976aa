-- ===== src/DurationProbe/Range.antt =====
-- src/duration_probe_range.hpp: the union of the tracks' presentation ranges.
pub mod Bounds
use libaribtlv.Base.{ℕ, Bool, true, false, List, [], ◌∷◌, Option, none, some, if◌then◌else◌}
use libaribtlv.Base.Int.{ℤ, ltb_ℤ}

pub record VideoPresentationBoundary : Type 0 where
  pub start_us : Option ℤ
  pub end_us : Option ℤ

pub record VideoPresentationRange : Type 0 where
  pub start_us : ℤ
  pub end_us : ℤ

-- A bound is replaced when there is none yet, or when `before` puts the track's first.
abbrev pub earlier : (ℤ → ℤ → Bool) → Option ℤ → Option ℤ → Option ℤ
earlier before none best = best
earlier before (some a) none = some a
earlier before (some a) (some best) = if before a best then some a else some best

-- The loop over the tracks, for one of its two variables.
unfoldable pub best_from : (ℤ → ℤ → Bool) → Option ℤ → List (Option ℤ) → Option ℤ
best_from before best [] = best
best_from before best (x ∷ xs) = best_from before (earlier before x best) xs

unfoldable pub starts : List VideoPresentationBoundary → List (Option ℤ)
starts [] = []
starts (t ∷ ts) = t.start_us ∷ starts ts

unfoldable pub ends : List VideoPresentationBoundary → List (Option ℤ)
ends [] = []
ends (t ∷ ts) = t.end_us ∷ ends ts

abbrev pub later : ℤ → ℤ → Bool
later a b = ltb_ℤ b a

abbrev pub range_of : Option ℤ → Option ℤ → Option VideoPresentationRange
range_of none e = none
range_of (some s) none = none
range_of (some s) (some e) = if ltb_ℤ e s then none else some (record { start_us = s; end_us = e })

unfoldable pub union_video_presentation_ranges :
    List VideoPresentationBoundary → Option VideoPresentationRange
union_video_presentation_ranges tracks =
    range_of (best_from ltb_ℤ none (starts tracks)) (best_from later none (ends tracks))

-- ===== src/Tlv/Search.antt =====
-- A whole round of `process`, with the search for a boundary where it is not synchronized.
use libaribtlv.Base.{
  ℕ, ◌+◌, ◌-◌, ◌≤◌, ◌<◌, ◌≡◌, refl, Bool, true, false, none, some, [], ◌∷◌, arith, ◌==◌, ltb,
  Bool-cases, Option-cases, inl, inr, length, length-drop, drop_all, Bytes,
}
use libaribtlv.Tlv.Stream.{Tracks, consume-Tracks, emit-Tracks, flag-Tracks}
use libaribtlv.Types.{Limits}
use libaribtlv.Tlv.{
  Parser, available, unread, compact, scan, boundary_found, boundary_missing, find_boundary, round,
}
use libaribtlv.Tlv.Rounds.{
  RoundPost, stop-RoundPost, discard-Tracks, discard-unread, synced_round-RoundPost,
  weaken-RoundPost,
}

pub find_boundary-none :
    (lim : Limits) (end : Bool) (s : Parser)
    → scan lim end (unread s) s.cursor ≡ none
    → find_boundary lim end s ≡ (false, boundary_missing lim end s)
unfolding find_boundary
find_boundary-none lim end s e = rw (e, find_boundary)

pub find_boundary-some :
    (lim : Limits) (end : Bool) (s : Parser) (index : ℕ)
    → scan lim end (unread s) s.cursor ≡ some index
    → find_boundary lim end s ≡ (true, boundary_found index s)
unfolding find_boundary
find_boundary-some lim end s index e = rw (e, find_boundary)

module _ (lim : Limits) (base : ℕ) (stream : Bytes) where
  -- A search that finds a boundary keeps the bytes from there on, whose header is a mark.
  scan_bounds :
      (end : Bool) (xs : Bytes) (index : ℕ) {found : ℕ}
      → scan lim end xs index ≡ some found
      → (index ≤ found) × (found < index + length xs)
  unfolding scan
  scan_bounds end [] index h = cc
  scan_bounds end (x ∷ xs) index {found} h =
      ground (arith, scan_bounds end xs (index + 1) {found = found})

  boundary_found-Tracks :
      (index : ℕ) (s : Parser)
      → s.cursor ≤ index
      → index < length s.buffer
      → Tracks lim base stream s
      → Tracks lim base stream (boundary_found index s)
  unfolding boundary_found
  boundary_found-Tracks index s lo hi t = elim (Bool-cases (index == s.cursor)) [
    | inl same ↦ rw same (flag-Tracks lim base true t)
    | inr later ↦ rw later (
        flag-Tracks lim base true
          (consume-Tracks lim base (index - s.cursor) (omega arith) (emit-Tracks lim base _ tt t)))
  ]

  boundary_found-synchronized :
      (index : ℕ) (s : Parser) → (boundary_found index s).synchronized ≡ true
  unfolding boundary_found
  boundary_found-synchronized index s = refl

  available-boundary_found :
      (index : ℕ) (s : Parser) → s.cursor ≤ index → available (boundary_found index s) ≤ available s
  unfolding boundary_found
  available-boundary_found index s lo = ground arith

  missing-RoundPost :
      (end : Bool) (s : Parser)
      → Tracks lim base stream s
      → s.synchronized ≡ false
      → RoundPost lim base stream end s (false, compact (boundary_missing lim end s))
  unfolding boundary_missing
  missing-RoundPost true s t n = elim (Bool-cases (available s == 0)) [
    | inl z ↦
        let e : available s ≡ 0 = ground arith in
        rw z (
          stop-RoundPost lim base stream true s s t (λ y. cc) (λ _. omega (arith, e))
            (λ _. drop_all s.cursor s.buffer (omega (arith, e))))
    | inr nz ↦ rw nz (
        stop-RoundPost lim base stream true s _ (discard-Tracks lim base stream _ _ t) (λ y. cc)
          (λ _. omega arith) (λ _. discard-unread lim base stream t))
  ]
  missing-RoundPost false s t n = elim (Bool-cases (ltb lim.max_resync_buffer (available s))) [
    | inl over ↦ rw over (
        stop-RoundPost lim base stream false s _
          (consume-Tracks lim base _ (omega (arith, t.inside)) (emit-Tracks lim base _ tt t))
          (λ y. cc) (λ _. omega (arith, t.inside)) (λ e. cc))
    | inr under ↦ rw under (
        stop-RoundPost lim base stream false s s t (λ y. cc)
          (λ _. let h : available s ≤ lim.max_resync_buffer = ground arith in omega (arith, h))
          (λ e. cc))
  ]

  pub round-RoundPost :
      (end : Bool) (s : Parser)
      → Tracks lim base stream s
      → RoundPost lim base stream end s (round lim end s)
  unfolding round
  round-RoundPost end s t = elim (Bool-cases s.synchronized) [
    | inl y ↦ simp y (synced_round-RoundPost lim base stream end s (unread s) refl t y)
    | inr n ↦ simp n (elim (Option-cases (scan lim end (unread s) s.cursor)) [
      | inl missing ↦ simp (find_boundary-none lim end s missing) (missing-RoundPost end s t n)
      | inr (index, found) ↦
          let (lo, hi) = scan_bounds end (unread s) s.cursor found in
          simp (find_boundary-some lim end s index found) (
            weaken-RoundPost lim base stream (available-boundary_found index s lo) (
              synced_round-RoundPost lim base stream end (boundary_found index s) _ refl
                (boundary_found-Tracks index s lo
                  (omega (arith, hi, length-drop s.cursor s.buffer, t.inside)) t)
                (boundary_found-synchronized index s)))
    ])
  ]

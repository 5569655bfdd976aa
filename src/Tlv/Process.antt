-- ===== src/Tlv/Process.antt =====
-- `process`, `push` and `flush` end, stay in step with the stream, and leave a settled state.
use libaribtlv.Base.{
  ℕ, zero, suc, ◌<◌, ◌≡◌, refl, Bool, true, false, Option, some, [], ◌++◌, arith, Bool-cases, inl,
  inr, Bytes,
}
use libaribtlv.Tlv.Rounds.{Settled}
use libaribtlv.Tlv.Search.{round-RoundPost}
use libaribtlv.Tlv.Stream.{Tracks, append-Tracks}
use libaribtlv.Types.{Limits}
use libaribtlv.Tlv.{Parser, available, append, round, process_on, process, append_rest}

module _ (lim : Limits) (base : ℕ) where
  -- The run ends in a settled state that is in step with the stream.
  pub record Done (stream : Bytes) (s : Parser) : Type 0 where
    pub tracks : Tracks lim base stream s
    pub settled : Settled lim s

  -- A run that is not cut off by its fuel, with what it owes.
  abbrev pub Returns : Bytes → Option Parser → Type 0
  Returns stream r = (s : Parser) × (r ≡ some s) × Done stream s

  pub process_on-returns :
      (fuel : ℕ) (stream : Bytes) (end : Bool) (s : Parser)
      → available s < fuel
      → Tracks lim base stream s
      → (t : Parser) × (process_on fuel lim end s ≡ some t)
        × Done stream t
        × (end ≡ true → t.buffer ≡ [])
  unfolding process_on
  process_on-returns zero stream end s h t = absurd (omega arith)
  process_on-returns (suc fuel) stream end s h t =
      let p = round-RoundPost lim base stream end s t in
      elim (Bool-cases (round lim end s).0) [
        | inl again ↦ rw again (
            process_on-returns fuel stream end (round lim end s).1 (omega (arith, p.eats again))
              p.tracks)
        | inr halt ↦ rw halt (
          (round lim end s).1,
          refl,
          record { tracks = p.tracks; settled = p.settles halt },
          p.empties halt,
        )
      ]

  pub process-Returns :
      {stream : Bytes} (s : Parser)
      → Tracks lim base stream s
      → Returns stream (process lim false s)
  unfolding process
  process-Returns {stream} s t =
      let (u, e, d, _) = process_on-returns (suc (available s)) stream false s (omega arith) t in
      (u, e, d)

  pub append_rest-Returns :
      {stream : Bytes} (d : Bytes) (s : Parser)
      → Tracks lim base stream s
      → Returns (stream ++ d) (append_rest lim d s)
  append_rest-Returns d s t = process-Returns (append d s) (append-Tracks lim base d t)

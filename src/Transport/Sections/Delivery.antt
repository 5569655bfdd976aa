-- ===== src/Transport/Sections/Delivery.antt =====
-- The sections that a sender writes one after another, cut into packets at any points, come out of
-- the receiver one by one.

use libaribtlv.Base.{
  ℕ, zero, suc, ◌≤◌, ◌<◌, ◌≡◌, refl, sym, ap, ◌∙◌, Bool-cases, inl, inr, Option, some, List, [],
  ◌∷◌, ◌++◌, ltb, length, take, drop, length-drop, length-append, take-append, drop-append,
  drop_append_le, drop-drop, take-append-drop, append_assoc, Bytes, All, arith,
}
use libaribtlv.Tlv.Session.{concat}
use libaribtlv.Transport.Sections.Whole.{
  IsSent, take_append_le, IsSection-long, judge-section, judge-part,
}
use libaribtlv.Transport.Sections.Sound.{lengths_left}
use libaribtlv.Transport.Sections.{
  SectionBuffer, Found, section, wait, accept, judge, front, drop_both, found_first, carry_out,
  process_on, process_sections, repeat, received, receive_all,
}

-- What the receiver hands on for these sections, when `origins` are the offsets of their bytes.
abbrev pub deliveries : List Bytes → List ℕ → List Found
deliveries [] origins = []
deliveries (s ∷ ss) origins = section s (front origins) ∷ deliveries ss (drop (length s) origins)

-- What waits is less than the next section.
abbrev pub Pending : List Bytes → Bytes → Type 0
Pending [] xs = xs ≡ []
Pending (s ∷ ss) xs = length xs < length s

-- The loop has handed on some of the sections and waits inside the next.
pub record Progress (ss : List Bytes) (b : SectionBuffer) (future : Bytes)
    (o : Option (SectionBuffer × List Found)) : Type 0 where
  pub taken : List Bytes
  pub todo : List Bytes
  pub rest : SectionBuffer
  pub returns : o ≡ some (rest, deliveries taken b.origins)
  pub parts : ss ≡ taken ++ todo
  pub all_sent : All IsSent taken × All IsSent todo
  pub ahead : rest.bytes ++ future ≡ concat todo
  pub pending : Pending todo rest.bytes
  pub fits : length (concat taken) ≤ length b.bytes
  pub kept : rest.origins ≡ drop (length (concat taken)) b.origins
  pub marked : length rest.origins ≡ length rest.bytes

-- The front of two equal streams.
same_front :
    (xs f ys g : Bytes) → xs ++ f ≡ ys ++ g → length xs ≤ length ys → xs ≡ take (length xs) ys
same_front xs f ys g e h =
    sym (take-append xs f) ∙ ap (take (length xs)) e ∙ take_append_le (length xs) ys g h

same_back :
    (xs f ys g : Bytes) → xs ++ f ≡ ys ++ g → length ys ≤ length xs → drop (length ys) xs ++ f ≡ g
same_back xs f ys g e h =
    sym (drop_append_le (length ys) xs f h) ∙ ap (drop (length ys)) e ∙ drop-append ys g

no_bytes : (xs f : Bytes) → xs ++ f ≡ [] → xs ≡ []
no_bytes [] f e = refl
no_bytes (x ∷ xs) f e = cc e

-- Nothing is handed on.
waits :
    (continue : SectionBuffer → Option (SectionBuffer × List Found)) (ss : List Bytes)
    (b : SectionBuffer) (future : Bytes)
    → All IsSent ss
    → length b.origins ≡ length b.bytes
    → judge b.bytes ≡ wait
    → b.bytes ++ future ≡ concat ss
    → Pending ss b.bytes
    → Progress ss b future (carry_out continue b (judge b.bytes))
unfolding carry_out
waits continue ss b future w m j e p = record {
  taken = [];
  todo = ss;
  rest = b;
  returns = rw j refl;
  parts = refl;
  all_sent = (tt, w);
  ahead = e;
  pending = p;
  fits = omega arith;
  kept = refl;
  marked = m;
}

-- A section is handed on, and then the rest.
hands_on :
    (continue : SectionBuffer → Option (SectionBuffer × List Found)) (s : Bytes) (ss : List Bytes)
    (b : SectionBuffer) (future : Bytes)
    → IsSent s
    → s ≡ take (length s) b.bytes
    → length s ≤ length b.bytes
    → judge b.bytes ≡ accept (length s)
    → Progress ss (drop_both (length s) b) future (continue (drop_both (length s) b))
    → Progress (s ∷ ss) b future (carry_out continue b (judge b.bytes))
unfolding carry_out
hands_on continue s ss b future w t l j r = record {
  taken = s ∷ r.taken;
  todo = r.todo;
  rest = r.rest;
  returns = rw j (
      ap (found_first (section (take (length s) b.bytes) (front b.origins))) r.returns
      ∙ ap
          (λ x.
            some (
              r.rest,
              section x (front b.origins) ∷ deliveries r.taken (drop (length s) b.origins),
            ))
          (sym t));
  parts = ap (λ x. s ∷ x) r.parts;
  all_sent = ((w, r.all_sent.0), r.all_sent.1);
  ahead = r.ahead;
  pending = r.pending;
  fits = omega (arith, length-append s (concat r.taken), length-drop (length s) b.bytes, r.fits);
  kept =
      r.kept
      ∙ sym (drop-drop (length s) (length (concat r.taken)) b.origins)
      ∙ ap (λ k. drop k b.origins) (sym (length-append s (concat r.taken)));
  marked = r.marked;
}

process_on-Progress :
    (fuel : ℕ) (ss : List Bytes) (b : SectionBuffer) (future : Bytes)
    → All IsSent ss
    → length b.bytes < fuel
    → length b.origins ≡ length b.bytes
    → b.bytes ++ future ≡ concat ss
    → Progress ss b future (process_on fuel b)
unfolding process_on judge
process_on-Progress zero ss b future w h m e = absurd (omega arith)
process_on-Progress (suc fuel) [] b future w h m e =
    waits (process_on fuel) [] b future w m
      (let n : b.bytes ≡ [] = no_bytes b.bytes future e in ap judge n) e (no_bytes b.bytes future e)
process_on-Progress (suc fuel) (s ∷ ss) b future w h m e =
    elim (Bool-cases (ltb (length b.bytes) (length s))) [
      | inl short ↦
          let part = same_front b.bytes future s (concat ss) e (ground arith) in
          waits (process_on fuel) (s ∷ ss) b future w m
            (ap judge part ∙ judge-part s (length b.bytes) w.0 (ground arith)) e (ground arith)
      | inr long ↦
          let l : length s ≤ length b.bytes = ground arith in
          let t : s ≡ take (length s) b.bytes = same_front s (concat ss) b.bytes future (sym e) l in
          hands_on (process_on fuel) s ss b future w.0 t l
            (ap judge (
                sym (take-append-drop (length s) b.bytes)
                ∙ ap (λ x. x ++ drop (length s) b.bytes) (sym t))
              ∙ judge-section s (drop (length s) b.bytes) w.0.is_section)
            (process_on-Progress fuel ss (drop_both (length s) b) future w.1
              (omega (arith, length-drop (length s) b.bytes, IsSection-long s w.0.is_section))
              (lengths_left (length s) b.bytes b.origins m)
              (same_back b.bytes future s (concat ss) e l))
    ]

process_sections-Progress :
    (ss : List Bytes) (b : SectionBuffer) (future : Bytes)
    → All IsSent ss
    → length b.origins ≡ length b.bytes
    → b.bytes ++ future ≡ concat ss
    → Progress ss b future (process_sections b)
unfolding process_sections
process_sections-Progress ss b future w m e =
    process_on-Progress (suc (length b.bytes)) ss b future w (omega arith) m e

-- Packets of the TLV-SI: their payloads, with the offset of each.
abbrev pub payloads : List (Bytes × ℕ) → Bytes
payloads [] = []
payloads ((payload, input_offset) ∷ ps) = payload ++ payloads ps

abbrev pub offsets : List (Bytes × ℕ) → List ℕ
offsets [] = []
offsets ((payload, input_offset) ∷ ps) = repeat (length payload) input_offset ++ offsets ps

pub length-repeat : (n x : ℕ) → length (repeat n x) ≡ n
unfolding repeat
length-repeat zero x = refl
length-repeat (suc n) x = omega (arith, length-repeat n x)

front-append : (xs ys : List ℕ) → 0 < length xs → front (xs ++ ys) ≡ front xs
front-append [] ys h = absurd (omega arith)
front-append (x ∷ xs) ys h = refl

drop_front : (n : ℕ) (xs ys : List ℕ) → n ≤ length xs → drop n (xs ++ ys) ≡ drop n xs ++ ys
drop_front zero xs ys h = refl
drop_front (suc n) [] ys h = absurd (omega arith)
drop_front (suc n) (x ∷ xs) ys h = drop_front n xs ys (omega arith)

deliveries-append :
    (taken todo : List Bytes) (origins more : List ℕ)
    → All IsSent taken
    → length (concat taken) ≤ length origins
    → deliveries taken origins ++ deliveries todo (drop (length (concat taken)) origins ++ more)
      ≡ deliveries (taken ++ todo) (origins ++ more)
deliveries-append [] todo origins more w h = refl
deliveries-append (s ∷ taken) todo origins more w h =
    ap
      (λ r.
        section s (front origins)
        ∷ (deliveries taken (drop (length s) origins) ++ deliveries todo (r ++ more)))
      cut
    ∙ ap (λ r. section s (front origins) ∷ r)
        (deliveries-append taken todo (drop (length s) origins) more w.1
          (omega (arith, length-append s (concat taken), length-drop (length s) origins)))
    ∙ ap (λ r. section s r ∷ deliveries (taken ++ todo) (drop (length s) origins ++ more))
        (sym first)
    ∙ ap (λ r. section s (front (origins ++ more)) ∷ deliveries (taken ++ todo) r)
        (sym (drop_front (length s) origins more (omega (arith, length-append s (concat taken)))))
  where
    first : front (origins ++ more) ≡ front origins
    first =
        front-append origins more
          (omega (arith, length-append s (concat taken), IsSection-long s w.0.is_section))

    cut :
        drop (length (s ++ concat taken)) origins
        ≡ drop (length (concat taken)) (drop (length s) origins)
    cut =
        ap (λ k. drop k origins) (length-append s (concat taken))
        ∙ drop-drop (length s) (length (concat taken)) origins

abbrev pub nothing_received : SectionBuffer
nothing_received = record { bytes = []; origins = [] }

no_origins : (xs : List ℕ) → length xs ≡ 0 → xs ≡ []
no_origins [] e = refl
no_origins (x ∷ xs) e = absurd (omega arith)

emptied :
    (b : SectionBuffer) → b.bytes ≡ [] → length b.origins ≡ length b.bytes → b ≡ nothing_received
emptied b e m =
    let o : b.origins ≡ [] = no_origins b.origins (m ∙ ap length e) in
    ap (λ x. record { bytes = x; origins = b.origins }) e
    ∙ ap (λ x. record { bytes = []; origins = x }) o

-- At the end of the stream nothing is pending.
all_taken :
    (ss : List Bytes) (xs : Bytes) → xs ++ [] ≡ concat ss → Pending ss xs → (ss ≡ []) × (xs ≡ [])
all_taken [] xs e p = (refl, p)
all_taken (s ∷ ss) xs e p =
    absurd (omega (arith, ap length e, length-append xs [], length-append s (concat ss)))

receive_all-Progress :
    (ps : List (Bytes × ℕ)) (ss : List Bytes) (b : SectionBuffer)
    → All IsSent ss
    → length b.origins ≡ length b.bytes
    → b.bytes ++ payloads ps ≡ concat ss
    → Pending ss b.bytes
    → receive_all ps b ≡ some (nothing_received, deliveries ss (b.origins ++ offsets ps))
unfolding receive_all
receive_all-Progress [] ss b w m e p =
    let (over, left) = all_taken ss b.bytes e p in
    rw over (ap (λ x. some (x, [])) (emptied b left m))
receive_all-Progress ((payload, input_offset) ∷ ps) ss b w m e p = rw r.returns (
    rw (receive_all-Progress ps r.todo r.rest r.all_sent.1 r.marked r.ahead r.pending) (
      ap (λ x. some (nothing_received, x))
        (ap (λ x. deliveries r.taken c.origins ++ deliveries r.todo (x ++ offsets ps)) r.kept
          ∙ deliveries-append r.taken r.todo c.origins (offsets ps) r.all_sent.0
              (omega (arith, r.fits, both))
          ∙ ap (λ x. deliveries x (c.origins ++ offsets ps)) (sym r.parts)
          ∙ ap (deliveries ss)
              (append_assoc b.origins (repeat (length payload) input_offset) (offsets ps)))))
  where
    c : SectionBuffer
    c = received payload input_offset b

    both : length c.origins ≡ length c.bytes
    both = omega (
      arith,
      length-append b.origins (repeat (length payload) input_offset),
      length-append b.bytes payload,
      length-repeat (length payload) input_offset,
    )

    r : Progress ss c (payloads ps) (process_sections c)
    r =
        process_sections-Progress ss c (payloads ps) w both
          (append_assoc b.bytes payload (payloads ps) ∙ e)

-- Sections one after another, none of which has a whole section inside, in packets cut at any
-- points: a receiver that has nothing before hands on each section, in order, with the offset of the
-- packet that its first byte came in, and nothing else. It keeps nothing.
pub receive_all-sections :
    (ps : List (Bytes × ℕ)) (ss : List Bytes)
    → All IsSent ss
    → payloads ps ≡ concat ss
    → receive_all ps nothing_received ≡ some (nothing_received, deliveries ss (offsets ps))
receive_all-sections ps ss w e =
    receive_all-Progress ps ss nothing_received w refl e (none_yet ss w)
  where
    none_yet : (ss : List Bytes) → All IsSent ss → Pending ss []
    none_yet [] w = refl
    none_yet (s ∷ ss) w = omega (arith, IsSection-long s w.0.is_section)

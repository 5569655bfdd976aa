-- ===== src/Mmtp/Signalling/Fragments.antt =====
-- Messages that are sent whole or cut into fragments come out of the reassembly.

use libaribtlv.Types.{Limits}
use libaribtlv.Base.{
  ℕ, ◌+◌, ◌*◌, ◌≤◌, ◌<◌, ◌^◌, ◌≡◌, refl, ap, ◌∙◌, true, false, Option, none, some, List, [], ◌∷◌,
  ◌++◌, append_assoc, ltb, ◌==◌, length, length-append, Bytes, sub_u64, add_u32, arith, All,
}
use libaribtlv.Mmtp.Signalling.{
  FragmentState, SignallingAssembler, Event, unit, Payload, append, admit, complete_unit,
  first_fragment, middle_fragment, last_fragment, receive_fragment, receive_admitted, with_events,
  and_then, receive, receive_all, fresh,
}

-- A fragment: its indicator, its bytes and the input offset of its packet.
pub record Piece : Type 0 where
  pub kind : ℕ
  pub body : Bytes
  pub offset : ℕ

-- A message as a sender cuts it.
pub data Sent : Type 0 where
  whole : Bytes → ℕ → Sent
  split : Bytes → ℕ → List (Bytes × ℕ) → Bytes → ℕ → Sent

abbrev pub joined : List (Bytes × ℕ) → Bytes → Bytes
joined [] last = last
joined ((b, o) ∷ more) last = b ++ joined more last

abbrev pub content : Sent → Bytes
content (whole b o) = b
content (split b o middles last o') = b ++ joined middles last

abbrev pub place : Sent → ℕ
place (whole b o) = o
place (split b o middles last o') = o

abbrev pub tail_pieces : List (Bytes × ℕ) → Bytes → ℕ → List Piece → List Piece
tail_pieces [] last o rest = record { kind = 3; body = last; offset = o } ∷ rest
tail_pieces ((b, o') ∷ more) last o rest =
    record { kind = 2; body = b; offset = o' } ∷ tail_pieces more last o rest

abbrev pub pieces : List Sent → List Piece
pieces [] = []
pieces (whole b o ∷ ms) = record { kind = 0; body = b; offset = o } ∷ pieces ms
pieces (split b o middles last o' ∷ ms) =
    record { kind = 1; body = b; offset = o } ∷ tail_pieces middles last o' (pieces ms)

-- The packets, with sequence numbers that follow `s`.
abbrev pub numbered : ℕ → ℕ → List Piece → List Payload
numbered pid s [] = []
numbered pid s (x ∷ xs) =
    record {
      packet_id = pid;
      sequence = add_u32 s 1;
      flags = x.kind * 64;
      body = x.body;
      input_offset = x.offset;
    }
    ∷ numbered pid (add_u32 s 1) xs

abbrev pub advance : ℕ → List Piece → ℕ
advance s [] = s
advance s (x ∷ xs) = advance (add_u32 s 1) xs

abbrev pub units : ℕ → List Sent → List Event
units pid [] = []
units pid (m ∷ ms) = unit pid (content m) (place m) ∷ units pid ms

-- Between messages, and inside one.
abbrev pub ready : ℕ → SignallingAssembler
ready s = record {
  state = FragmentState.idle;
  last_sequence = s;
  input_offset = 0;
  data_bytes = [];
}

abbrev pub gathering : ℕ → ℕ → Bytes → SignallingAssembler
gathering s o d = record {
  state = FragmentState.collecting;
  last_sequence = s;
  input_offset = o;
  data_bytes = d;
}

pub next_differs : (s : ℕ) → s < 2 ^ 32 → (add_u32 s 1 == s) ≡ false
next_differs s h = ground arith

pub same_number : (n : ℕ) → (n == n) ≡ true
same_number n = ground arith

module _ (lim : Limits) (pid : ℕ) (m : lim.max_signalling_message < 2 ^ 64) where
  room :
      (d b : Bytes)
      → length d + length b ≤ lim.max_signalling_message
      → ltb (sub_u64 lim.max_signalling_message (length d)) (length b) ≡ false
  room d b h = ground arith

  abbrev packet_of : ℕ → ℕ → Bytes → ℕ → Payload
  packet_of s k b o = record {
    packet_id = pid;
    sequence = add_u32 s 1;
    flags = k * 64;
    body = b;
    input_offset = o;
  }

  receive_whole :
      (s : ℕ) (b : Bytes) (o : ℕ)
      → s < 2 ^ 32
      → receive lim (packet_of s 0 b o) (ready s) ≡ some (ready (add_u32 s 1), unit pid b o ∷ [])
  unfolding receive admit receive_admitted receive_fragment complete_unit
  receive_whole s b o h = rw (next_differs s h, same_number (add_u32 s 1)) refl

  receive_first :
      (s : ℕ) (b : Bytes) (o : ℕ)
      → s < 2 ^ 32
      → length b ≤ lim.max_signalling_message
      → receive lim (packet_of s 1 b o) (ready s) ≡ some (gathering (add_u32 s 1) o b, [])
  unfolding receive admit receive_admitted receive_fragment first_fragment append
  receive_first s b o h k =
      rw (next_differs s h, same_number (add_u32 s 1), room [] b (omega arith)) refl

  receive_first_fresh :
      (s : ℕ) (b : Bytes) (o : ℕ)
      → length b ≤ lim.max_signalling_message
      → receive lim (packet_of s 1 b o) fresh ≡ some (gathering (add_u32 s 1) o b, [])
  unfolding receive admit receive_admitted receive_fragment first_fragment append
  receive_first_fresh s b o k = rw (room [] b (omega arith)) refl

  receive_middle :
      (s o : ℕ) (d b : Bytes) (o' : ℕ)
      → s < 2 ^ 32
      → length d + length b ≤ lim.max_signalling_message
      → receive lim (packet_of s 2 b o') (gathering s o d)
        ≡ some (gathering (add_u32 s 1) o (d ++ b), [])
  unfolding receive admit receive_admitted receive_fragment middle_fragment append
  receive_middle s o d b o' h k = rw (next_differs s h, same_number (add_u32 s 1), room d b k) refl

  receive_last :
      (s o : ℕ) (d b : Bytes) (o' : ℕ)
      → s < 2 ^ 32
      → length d + length b ≤ lim.max_signalling_message
      → receive lim (packet_of s 3 b o') (gathering s o d)
        ≡ some (ready (add_u32 s 1), unit pid (d ++ b) o ∷ [])
  unfolding receive admit receive_admitted receive_fragment last_fragment append
  receive_last s o d b o' h k = rw (next_differs s h, same_number (add_u32 s 1), room d b k) refl

  with_events-nil : (o : Option (SignallingAssembler × List Event)) → with_events [] o ≡ o
  with_events-nil none = refl
  with_events-nil (some (a, es)) = refl

  -- The fragments behind the first one.
  receive_tail :
      (s o : ℕ) (d : Bytes) (middles : List (Bytes × ℕ)) (last : Bytes) (o' : ℕ) (rest : List Piece)
      → s < 2 ^ 32
      → length (d ++ joined middles last) ≤ lim.max_signalling_message
      → (t : ℕ) × (t < 2 ^ 32)
        × (receive_all lim (numbered pid s (tail_pieces middles last o' rest)) (gathering s o d)
            ≡ with_events
                (unit pid (d ++ joined middles last) o ∷ [])
                (receive_all lim (numbered pid t rest) (ready t)))
  unfolding receive_all
  receive_tail s o d [] last o' rest h k = (
    add_u32 s 1,
    omega arith,
    ap (and_then (receive_all lim (numbered pid (add_u32 s 1) rest)))
        (receive_last s o d last o' h (omega (arith, length-append d last))),
  )
  receive_tail s o d ((b, o'') ∷ more) last o' rest h k =
      let joins : (d ++ b) ++ joined more last ≡ d ++ (b ++ joined more last) =
        append_assoc d b (joined more last) in
      let (t, small, e) =
        receive_tail (add_u32 s 1) o (d ++ b) more last o' rest (omega arith)
          (omega (arith, ap length joins)) in
      (
        t,
        small,
        ap (and_then (receive_all lim (numbered pid (add_u32 s 1) (tail_pieces more last o' rest))))
              (receive_middle s o d b o'' h (
                omega (
                  arith,
                  length-append d (b ++ joined more last),
                  length-append b (joined more last),
                )))
            ∙ with_events-nil _
            ∙ e
            ∙ ap
                (λ l.
                  with_events (unit pid l o ∷ []) (receive_all lim (numbered pid t rest) (ready t)))
                joins,
      )

  abbrev Fits : Sent → Type 0
  Fits x = length (content x) ≤ lim.max_signalling_message

  receive_ready :
      (s : ℕ) (xs : List Sent)
      → s < 2 ^ 32
      → All Fits xs
      → (t : ℕ) × (receive_all lim (numbered pid s (pieces xs)) (ready s)
          ≡ some (ready t, units pid xs))
  unfolding receive_all
  receive_ready s [] h k = (s, refl)
  receive_ready s (whole b o ∷ xs) h k =
      let (t, e) = receive_ready (add_u32 s 1) xs (omega arith) k.1 in
      (
        t,
        ap (and_then (receive_all lim (numbered pid (add_u32 s 1) (pieces xs))))
              (receive_whole s b o h)
            ∙ ap (with_events (unit pid b o ∷ [])) e,
      )
  receive_ready s (split b o middles last o' ∷ xs) h k =
      let (u, small, e) =
        receive_tail (add_u32 s 1) o b middles last o' (pieces xs) (omega arith) k.0 in
      let (t, f) = receive_ready u xs small k.1 in
      (
        t,
        ap
              (and_then (
                receive_all lim
                  (numbered pid (add_u32 s 1) (tail_pieces middles last o' (pieces xs)))))
              (receive_first s b o h
                (let fits = k.0 in omega (arith, length-append b (joined middles last))))
            ∙ with_events-nil _
            ∙ e
            ∙ ap (with_events (unit pid (b ++ joined middles last) o ∷ [])) f,
      )

  -- With a limit below 2 ^ 64, a fresh assembler that receives one or more messages within it,
  -- each sent whole or cut into fragments in any way, in packets whose sequence numbers follow
  -- one another and may wrap around, hands on exactly those messages, in order and with the
  -- input offset of their first packet, reports no error, and ends with nothing buffered.
  pub receive_all-units :
      (s : ℕ) (x : Sent) (xs : List Sent)
      → s < 2 ^ 32
      → All Fits (x ∷ xs)
      → (t : ℕ) × (receive_all lim (numbered pid s (pieces (x ∷ xs))) fresh
          ≡ some (ready t, units pid (x ∷ xs)))
  unfolding receive_all receive admit receive_admitted receive_fragment complete_unit
  receive_all-units s (whole b o) xs h k =
      let (t, e) = receive_ready (add_u32 s 1) xs (omega arith) k.1 in
      (t, ap (with_events (unit pid b o ∷ [])) e)
  receive_all-units s (split b o middles last o') xs h k =
      let (u, small, e) =
        receive_tail (add_u32 s 1) o b middles last o' (pieces xs) (omega arith) k.0 in
      let (t, f) = receive_ready u xs small k.1 in
      (
        t,
        ap
              (and_then (
                receive_all lim
                  (numbered pid (add_u32 s 1) (tail_pieces middles last o' (pieces xs)))))
              (receive_first_fresh s b o
                (let fits = k.0 in omega (arith, length-append b (joined middles last))))
            ∙ with_events-nil _
            ∙ e
            ∙ ap (with_events (unit pid (b ++ joined middles last) o ∷ [])) f,
      )

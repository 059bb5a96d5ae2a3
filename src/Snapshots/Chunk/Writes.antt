-- ===== src/Snapshots/Chunk/Writes.antt =====
-- What Write and Close of snapshots/chunk.go leave in the chunks.
use mathlib.Core.List.{flatten, append_assoc, append-nil}
use melodiasdk_io_store.Prelude.{
  ℕ, zero, suc, ◌+◌, ◌-◌, ◌%◌, ◌≤◌, ◌<◌, ◌≡◌, refl, sym, ap, ◌∙◌, subst, ◌⊎◌, inl, inr, true, false,
  none, some, if-false, List, [], ◌∷◌, ◌++◌, length, drop, length-append, arith, ltb, leb, ok, ◌==◌,
  Bool-cases, Option-cases,
}
use melodiasdk_io_store.Bytes.{Bytes}
use melodiasdk_io_store.Types.Gas.{two_64}
use melodiasdk_io_store.Types.Utils.{take}
use melodiasdk_io_store.Snapshots.Chunk.{
  Error, eof, Pipe, new_pipe, end_with, ChunkWriter, channel, chunk, pipe_write, write_size,
  write_piece, ready, round, after_write, write_loop, write,
}

-- The bytes of a chunk.
abbrev pub bytes_of : Pipe → Bytes
bytes_of p = flatten p.writes

-- The bytes of a row of chunks.
abbrev pub content : List Pipe → Bytes
content [] = []
content (p ∷ ps) = bytes_of p ++ content ps

pub content-append : (ps qs : List Pipe) → content (ps ++ qs) ≡ content ps ++ content qs
content-append [] qs = refl
content-append (p ∷ ps) qs = rw (content-append ps qs, append_assoc)

abbrev pub HasBytes : List Bytes → Type 0
HasBytes [] = Unit
HasBytes (b ∷ l) = (0 < length b) × HasBytes l

HasBytes-append :
    (l : List Bytes) (b : Bytes) → HasBytes l → 0 < length b → HasBytes (l ++ (b ∷ []))
HasBytes-append [] b h pos = (pos, tt)
HasBytes-append (c ∷ l) b h pos = (h.0, HasBytes-append l b h.1 pos)

flatten-append_one : (l : List Bytes) (b : Bytes) → flatten (l ++ (b ∷ [])) ≡ flatten l ++ b
unfolding flatten
flatten-append_one [] b = append-nil b
flatten-append_one (c ∷ l) b = rw (flatten-append_one l b, append_assoc)

-- A chunk that can be written to: both ends are open, and no write was empty.
pub record IsOpen (p : Pipe) : Type 0 where
  pub not_ended : p.ended ≡ none
  pub reader_open : p.reader_closed ≡ false
  pub nonempty : HasBytes p.writes

-- A finished chunk, which has exactly the size of a chunk.
pub record IsFull (size : ℕ) (p : Pipe) : Type 0 where
  pub ended : p.ended ≡ some eof
  pub reader_open : p.reader_closed ≡ false
  pub nonempty : HasBytes p.writes
  pub full : length (bytes_of p) ≡ size

abbrev pub AreFull : ℕ → List Pipe → Type 0
AreFull size [] = Unit
AreFull size (p ∷ ps) = IsFull size p × AreFull size ps

pub AreFull-append :
    (size : ℕ) (ps : List Pipe) (p : Pipe)
    → AreFull size ps
    → IsFull size p
    → AreFull size (ps ++ (p ∷ []))
AreFull-append size [] p h h' = (h', tt)
AreFull-append size (q ∷ ps) p h h' = (h.0, AreFull-append size ps p h.1 h')

-- The current chunk is open and holds what `written` says; without a chunk size there is one chunk only.
pub record IsCurrent (w : ChunkWriter) (p : Pipe) : Type 0 where
  pub opened : IsOpen p
  pub fits : w.chunk_size < two_64
  pub sized : 0 < w.chunk_size → w.written ≡ length (bytes_of p)
  pub room : 0 < w.chunk_size → w.written ≤ w.chunk_size
  pub sent_full : AreFull w.chunk_size w.sent
  pub single : w.chunk_size ≡ 0 → w.sent ≡ []
  pub not_closed : w.closed ≡ false

-- A writer between two calls: nothing sent, or a current chunk that has a byte.
pub record IsWriter (w : ChunkWriter) : Type 0 where
  pub fits : w.chunk_size < two_64
  pub not_closed : w.closed ≡ false
  pub current :
      ((w.pipe ≡ none) × (w.sent ≡ []))
      ⊎ ((p : Pipe) × (w.pipe ≡ some p) × IsCurrent w p × (0 < length (bytes_of p)))

length-take : (n : ℕ) (b : Bytes) → n ≤ length b → length (take n b) ≡ n
length-take zero b h = refl
length-take (suc n) [] h = absurd (omega arith)
length-take (suc n) (x ∷ b) h = omega (arith, length-take n b (omega arith))

pub take-append-drop : (n : ℕ) (b : Bytes) → take n b ++ drop n b ≡ b
take-append-drop zero b = refl
take-append-drop (suc n) [] = refl
take-append-drop (suc n) (x ∷ b) = ap (λ l. x ∷ l) (take-append-drop n b)

pub length-drop : (n : ℕ) (b : Bytes) → length (drop n b) ≡ length b - n
length-drop zero b = omega arith
length-drop (suc n) [] = omega arith
length-drop (suc n) (x ∷ b) = omega (arith, length-drop n b)

-- The current chunk has room for a byte.
abbrev IsReady : ChunkWriter → Pipe → Type 0
IsReady w p = IsCurrent w p × (0 < w.chunk_size → w.written < w.chunk_size)

-- What a round may write: a byte at least, and no more than there is and than fits.
record Fits (w : ChunkWriter) (n size : ℕ) : Type 0 where
  some_bytes : 0 < size
  at_most : size ≤ n
  in_chunk : 0 < w.chunk_size → w.written + size ≤ w.chunk_size

write_size-Fits :
    (w : ChunkWriter) (p : Pipe) (n : ℕ) → IsReady w p → 0 < n → Fits w n (write_size w n)
unfolding write_size
write_size-Fits w p n (c, room) pos = elim (Bool-cases (w.chunk_size == 0)) [
  | inl z ↦ record {
    some_bytes = ground arith;
    at_most = ground arith;
    in_chunk = λ h. absurd (ground arith);
  }
  | inr z ↦
      let fits = c.fits in
      let free = room (ground arith) in
      let left : (w.chunk_size + two_64 - w.written) % two_64 ≡ w.chunk_size - w.written =
        omega arith in
      record {
        some_bytes = rw (z, left) (ground arith);
        at_most = rw (z, left) (ground arith);
        in_chunk = λ h. rw (z, left) (ground arith);
      }
]

-- After a write: a writer of the same size, with the bytes behind what was there.
pub record Wrote (w : ChunkWriter) (bytes : Bytes) (w' : ChunkWriter) : Type 0 where
  pub still : IsWriter w'
  pub same_size : w'.chunk_size ≡ w.chunk_size
  pub appended : content (channel w') ≡ content (channel w) ++ bytes

-- The chunk to write into, and what was there before as the chunks sent and that one.
record Readied (w : ChunkWriter) (p : Pipe) (w1 : ChunkWriter) : Type 0 where
  is_ready : IsReady w1 p
  same_size : w1.chunk_size ≡ w.chunk_size
  same_content : content w1.sent ++ bytes_of p ≡ content (channel w)

pub IsOpen-new_pipe : IsOpen new_pipe
unfolding new_pipe
IsOpen-new_pipe = record { not_ended = refl; reader_open = refl; nonempty = tt }

Readied-first :
    (w : ChunkWriter) → IsWriter w → w.pipe ≡ none → w.sent ≡ [] → Readied w new_pipe (chunk w)
unfolding chunk new_pipe channel flatten
Readied-first w h np ns =
    let none_sent : w.sent ++ [] ≡ [] = rw ns in
    record {
      is_ready = (
        record {
          opened = IsOpen-new_pipe;
          fits = h.fits;
          sized = λ _. refl;
          room = λ pos. omega arith;
          sent_full = rw (np, none_sent) tt;
          single = λ _. rw (np, none_sent);
          not_closed = h.not_closed;
        },
        λ pos. pos,
      );
      same_size = refl;
      same_content = rw (np, none_sent);
    }

IsFull-current :
    (w : ChunkWriter) (p : Pipe)
    → IsCurrent w p
    → leb w.chunk_size w.written ≡ true
    → 0 < w.chunk_size
    → IsFull w.chunk_size (end_with eof p)
unfolding end_with
IsFull-current w p c full pos =
    let s = c.sized pos in
    let r = c.room pos in
    record {
      ended = rw c.opened.not_ended;
      reader_open = rw c.opened.not_ended c.opened.reader_open;
      nonempty = rw c.opened.not_ended c.opened.nonempty;
      full = rw c.opened.not_ended (ground arith);
    }

pub bytes_of-end_with : (e : Error) (p : Pipe) → bytes_of (end_with e p) ≡ bytes_of p
unfolding end_with
bytes_of-end_with e p = elim (Option-cases p.ended) [ inl n ↦ rw n | inr (old, s) ↦ rw s ]

Readied-next :
    (w : ChunkWriter) (p : Pipe)
    → w.pipe ≡ some p
    → IsCurrent w p
    → leb w.chunk_size w.written ≡ true
    → 0 < w.chunk_size
    → Readied w new_pipe (chunk w)
unfolding chunk new_pipe channel flatten
Readied-next w p sp c full pos = record {
  is_ready = (
    record {
      opened = IsOpen-new_pipe;
      fits = c.fits;
      sized = λ _. refl;
      room = λ _. omega arith;
      sent_full = rw sp (
          AreFull-append w.chunk_size w.sent (end_with eof p) c.sent_full
            (IsFull-current w p c full pos));
      single = λ z. absurd (omega arith);
      not_closed = c.not_closed;
    },
    λ _. pos,
  );
  same_size = refl;
  same_content = rw (
    sp,
    content-append w.sent (end_with eof p ∷ []),
    content-append w.sent (p ∷ []),
    bytes_of-end_with eof p,
    append-nil (content w.sent ++ (bytes_of p ++ [])),
  );
}

ready_lem :
    (w : ChunkWriter)
    → IsWriter w
    → (p : Pipe) × (w1 : ChunkWriter) × (ready w ≡ (p, w1)) × Readied w p w1
unfolding ready channel
ready_lem w h = elim h.current [
  | inl (np, ns) ↦ (new_pipe, chunk w, rw np, Readied-first w h np ns)
  | inr (p, sp, c, pos) ↦ elim (Bool-cases (ltb 0 w.chunk_size)) [
    | inl sized ↦ elim (Bool-cases (leb w.chunk_size w.written)) [
      | inl full ↦
          (new_pipe, chunk w, rw (sp, full, sized), Readied-next w p sp c full (ground arith))
      | inr free ↦ (
        p,
        w,
        rw (sp, free),
        record {
          is_ready = (c, λ _. ground arith);
          same_size = refl;
          same_content = rw (sp, content-append w.sent (p ∷ []), append-nil (bytes_of p));
        },
      )
    ]
    | inr unsized ↦ (
      p,
      w,
      rw (sp, unsized) (ground arith),
      record {
        is_ready = (c, λ pos. absurd (ground arith));
        same_size = refl;
        same_content = rw (sp, content-append w.sent (p ∷ []), append-nil (bytes_of p));
      },
    )
  ]
]

abbrev put : Bytes → Pipe → Pipe
put piece p = record p { writes = p.writes ++ (piece ∷ []) }

bytes_of-put : (piece : Bytes) (p : Pipe) → bytes_of (put piece p) ≡ bytes_of p ++ piece
bytes_of-put piece p = flatten-append_one p.writes piece

abbrev after_piece : Bytes → Pipe → ChunkWriter → ChunkWriter
after_piece piece p w = record w {
  pipe = some (put piece p);
  written = (w.written + length piece) % two_64;
}

write_piece_lem :
    (piece : Bytes) (p : Pipe) (w : ChunkWriter)
    → IsOpen p
    → write_piece piece p w ≡ ((length piece, none), after_piece piece p w)
unfolding write_piece pipe_write
write_piece_lem piece p w o = rw (o.reader_open, o.not_ended)

after_piece-IsWriter :
    (piece : Bytes) (p : Pipe) (w : ChunkWriter)
    → IsCurrent w p
    → 0 < length piece
    → (0 < w.chunk_size → w.written + length piece ≤ w.chunk_size)
    → IsWriter (after_piece piece p w)
after_piece-IsWriter piece p w c pos room =
    let long : length (bytes_of (put piece p)) ≡ length (bytes_of p) + length piece =
      rw (bytes_of-put piece p) (length-append (bytes_of p) piece) in
    let fits = c.fits in
    record {
      fits = c.fits;
      not_closed = c.not_closed;
      current = inr (
        put piece p,
        refl,
        record {
          opened = record {
            not_ended = c.opened.not_ended;
            reader_open = c.opened.reader_open;
            nonempty = HasBytes-append p.writes piece c.opened.nonempty pos;
          };
          fits = c.fits;
          sized = λ h. (let s = c.sized h in let r = room h in omega (arith, long));
          room = λ h. (let r = room h in omega arith);
          sent_full = c.sent_full;
          single = c.single;
          not_closed = c.not_closed;
        },
        omega (arith, long),
      );
    }

-- One round: a piece of at least a byte goes into the chunk that is ready.
write_round :
    (w w1 : ChunkWriter) (p : Pipe) (bytes : Bytes)
    → Readied w p w1
    → 0 < length bytes
    → (let size = write_size w1 (length bytes) in
        (0 < size)
        × (length (take size bytes) ≡ size)
        × (size ≤ length bytes)
        × Wrote w (take size bytes) (after_piece (take size bytes) p w1))
unfolding channel
write_round w w1 p bytes r pos =
    let size = write_size w1 (length bytes) in
    let piece = take size bytes in
    let f = write_size-Fits w1 p (length bytes) r.is_ready pos in
    let n = length-take size bytes f.at_most in
    let b = f.some_bytes in
    let fit = f.in_chunk in
    (
      b,
      n,
      f.at_most,
      record {
        still =
            after_piece-IsWriter piece p w1 r.is_ready.0 (omega (arith, n))
              (λ h. (let i = fit h in omega (arith, n)));
        same_size = r.same_size;
        appended = rw (
          content-append w1.sent (put piece p ∷ []),
          append-nil (bytes_of (put piece p)),
          bytes_of-put piece p,
          sym (append_assoc (content w1.sent) (bytes_of p) piece),
          r.same_content,
        );
      },
    )

Wrote-append :
    (w w' w'' : ChunkWriter) (a b : Bytes) → Wrote w a w' → Wrote w' b w'' → Wrote w (a ++ b) w''
Wrote-append w w' w'' a b h h' = record {
  still = h'.still;
  same_size = h'.same_size ∙ h.same_size;
  appended = rw (h'.appended, h.appended, append_assoc (content (channel w)) a b);
}

write_loop_step :
    (f total x : ℕ) (bytes : Bytes) (w w1 w2 : ChunkWriter) (p : Pipe)
    → ready w ≡ (p, w1)
    → (let size = write_size w1 (length (x ∷ bytes)) in
        let piece = take size (x ∷ bytes) in
        write_piece piece p w1 ≡ ((length piece, none), w2)
        → write_loop (suc f) (x ∷ bytes) total w
          ≡ write_loop f (drop size (x ∷ bytes)) (total + length piece) w2)
unfolding write_loop
write_loop_step f total x bytes w w1 w2 p e e' =
    ap (round (write_loop f) (x ∷ bytes) total) e
    ∙ ap (after_write (write_loop f) (drop (write_size w1 (length (x ∷ bytes))) (x ∷ bytes)) total)
        e'

-- The loop ends within the fuel of a round per byte.
write_loop_lem :
    (f total : ℕ) (bytes : Bytes) (w : ChunkWriter)
    → IsWriter w
    → length bytes ≤ f
    → (w' : ChunkWriter) × (write_loop f bytes total w ≡ (ok (total + length bytes, none), w'))
      × Wrote w bytes w'
unfolding write_loop
write_loop_lem f total [] w h le = (
  w,
  ap (λ n. (ok (n, none), w)) (omega arith),
  record { still = h; same_size = refl; appended = sym (append-nil (content (channel w))) },
)
write_loop_lem zero total (x ∷ bytes) w h le = absurd (omega arith)
write_loop_lem (suc f) total (x ∷ bytes) w h le =
    let (p, w1, e, r) = ready_lem w h in
    let size = write_size w1 (length (x ∷ bytes)) in
    let piece = take size (x ∷ bytes) in
    let left = drop size (x ∷ bytes) in
    let (pos, n, most, wrote) = write_round w w1 p (x ∷ bytes) r (omega arith) in
    let short = length-drop size (x ∷ bytes) in
    let (w', e', wrote') =
      write_loop_lem f (total + length piece) left (after_piece piece p w1) wrote.still
        (omega (arith, short)) in
    let count : total + length piece + length left ≡ total + length (x ∷ bytes) =
      omega (arith, short, n) in
    (
      w',
      write_loop_step f total x bytes w w1 (after_piece piece p w1) p e
            (write_piece_lem piece p w1 r.is_ready.0.opened)
          ∙ e'
          ∙ ap (λ n. (ok (n, none), w')) count,
      subst (λ b. Wrote w b w') (take-append-drop size (x ∷ bytes))
          (Wrote-append w (after_piece piece p w1) w' piece left wrote wrote'),
    )

-- Write on an open writer takes all the bytes without an error, puts them behind what was written before, and
-- leaves every chunk but the last exactly full and the last one within the chunk size.
pub write_lem :
    (bytes : Bytes) (w : ChunkWriter)
    → IsWriter w
    → (w' : ChunkWriter) × (write bytes w ≡ (ok (length bytes, none), w')) × Wrote w bytes w'
unfolding write
write_lem bytes w h =
    let (w', e, wrote) = write_loop_lem (length bytes) 0 bytes w h (omega arith) in
    (w', if-false w.closed _ _ h.not_closed ∙ e ∙ ap (λ n. (ok (n, none), w')) (omega arith), wrote)

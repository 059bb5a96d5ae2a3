-- ===== src/Snapshots/Chunk/Stream.antt =====
-- The stream that goes through the chunks of snapshots/chunk.go, from the writer to the reader.
use mathlib.Core.List.{flatten, append_assoc, append-nil}
use melodiasdk_io_store.Prelude.{
  ℕ, zero, suc, ◌+◌, ◌<◌, ◌≡◌, ◌≢◌, refl, sym, ap, ◌∙◌, subst, ◌⊎◌, inl, inr, true, false, Option,
  some, none, if-true, if-not, Bool-cases, List, [], ◌∷◌, ◌++◌, length, length-append, arith,
  Result, ok, panic, no_fuel, blocked, ◌>>=◌,
}
use melodiasdk_io_store.Bytes.{Bytes}
use melodiasdk_io_store.Types.Gas.{two_64}
use melodiasdk_io_store.Snapshots.Chunk.{
  Error, eof, closed_pipe, logic, conflict, chunk_hash_mismatch, unknown_format, invalid_metadata,
  failure, Pipe, end_with, new_pipe, Outcome, got, failed, waits, ChunkWriter, new_chunk_writer,
  channel, chunk, close, close_with_error, write, ChunkReader, new_chunk_reader, read_on, read,
}
use melodiasdk_io_store.Snapshots.Chunk.Writes.{
  content, content-append, bytes_of-end_with, IsOpen, IsOpen-new_pipe, IsCurrent, AreFull, IsWriter,
  Wrote, write_lem,
}
use melodiasdk_io_store.Snapshots.Chunk.Reads.{
  EndsWith, reader_of, Reads, Reads-read_on, at_end, more,
}

-- A client that reads until it gets an error, into a buffer of `n` bytes.
abbrev after_one :
    (ChunkReader → Result (Bytes × Error)) → Outcome × ChunkReader → Result (Bytes × Error)
after_one rest (got b, r) = do (l, e) ← rest r; ok (b ++ l, e)
after_one rest (failed e, r) = ok ([], e)
after_one rest (waits, r) = panic blocked

unfoldable pub read_all : ℕ → ℕ → ChunkReader → Result (Bytes × Error)
unfolding read
read_all zero n r = panic no_fuel
read_all (suc f) n r = after_one (read_all f n) (read n r)

-- A client that writes one slice after the other, until an error.
abbrev then_write :
    (ChunkWriter → Result (ChunkWriter × Option Error))
    → Result (ℕ × Option Error) × ChunkWriter
    → Result (ChunkWriter × Option Error)
then_write rest (ok (n, none), w) = rest w
then_write rest (ok (n, some e), w) = ok (w, some e)
then_write rest (panic e, w) = panic e

unfoldable pub write_each : List Bytes → ChunkWriter → Result (ChunkWriter × Option Error)
write_each [] w = ok (w, none)
write_each (b ∷ l) w = then_write (write_each l) (write b w)

pub write_each_lem :
    (l : List Bytes) (w : ChunkWriter)
    → IsWriter w
    → (w' : ChunkWriter) × (write_each l w ≡ ok (w', none)) × Wrote w (flatten l) w'
unfolding write_each flatten
write_each_lem [] w h = (
  w,
  refl,
  record { still = h; same_size = refl; appended = sym (append-nil (content (channel w))) },
)
write_each_lem (b ∷ l) w h =
    let (w1, e, wrote) = write_lem b w h in
    let (w2, e', wrote') = write_each_lem l w1 wrote.still in
    (
      w2,
      ap (then_write (write_each l)) e ∙ e',
      record {
        still = wrote'.still;
        same_size = wrote'.same_size ∙ wrote.same_size;
        appended =
            rw (wrote'.appended, wrote.appended) (append_assoc (content (channel w)) b (flatten l));
      },
    )

read_all-one :
    (n : ℕ) (e : Error) (ps : List Pipe) (rest : ChunkReader → Result (Bytes × Error))
    (x : Outcome × ChunkReader)
    → Reads n e ps x
    → ((qs : List Pipe)
        → EndsWith e qs
        → length (content qs) < length (content ps)
        → rest (reader_of qs) ≡ ok (content qs, e))
    → after_one rest x ≡ ok (content ps, e)
read_all-one n e ps rest _ (at_end r h) k = rw h
read_all-one n e ps rest _ (more b qs pos h ends) k =
    let long : length (content ps) ≡ length b + length (content qs) =
      ap length h ∙ length-append b (content qs) in
    rw (k qs ends (omega (arith, long)), h)

read-reader_of : (n : ℕ) (ps : List Pipe) → read n (reader_of ps) ≡ read_on n true ps
unfolding read
read-reader_of n [] = refl
read-reader_of n (p ∷ ps) = refl

-- Reading ends within the fuel of a byte per read and one more.
read_all_lem :
    (f n : ℕ) (e : Error) (ps : List Pipe) (r : ChunkReader)
    → 0 < n
    → EndsWith e ps
    → read n r ≡ read_on n true ps
    → length (content ps) < f
    → read_all f n r ≡ ok (content ps, e)
unfolding read_all
read_all_lem zero n e ps r pos ends s lt = absurd (omega arith)
read_all_lem (suc f) n e ps r pos ends s lt =
    ap (after_one (read_all f n)) s
    ∙ read_all-one n e ps (read_all f n) (read_on n true ps) (Reads-read_on n e ps pos ends)
        (λ qs ends' lt'.
          read_all_lem f n e qs (reader_of qs) pos ends' (read-reader_of n qs) (omega arith))

AreFull-EndsWith :
    (size : ℕ) (e : Error) (ps : List Pipe) (q : Pipe)
    → AreFull size ps
    → EndsWith e (q ∷ [])
    → EndsWith e (ps ++ (q ∷ []))
AreFull-EndsWith size e [] q h h' = h'
AreFull-EndsWith size e (p ∷ ps) q (f, h) h' =
    (f.reader_open, f.nonempty, inr (f.ended, AreFull-EndsWith size e ps q h h'))

-- The chunks on the channel after an error, or after Close with EOF.
pub record Final (e : Error) (w : ChunkWriter) (ps : List Pipe) : Type 0 where
  pub ends : EndsWith e ps
  pub same : content ps ≡ content (channel w)

last_end :
    (e : Error)
    → ((some e ≡ some e) × (e ≢ eof) × (◌≡◌ {A = List Pipe} [] []))
      ⊎ ((some e ≡ some eof) × (e ≡ eof))
last_end eof = inr (refl, refl)
last_end closed_pipe = inl (refl, (λ h. ground arith), refl)
last_end logic = inl (refl, (λ h. ground arith), refl)
last_end conflict = inl (refl, (λ h. ground arith), refl)
last_end chunk_hash_mismatch = inl (refl, (λ h. ground arith), refl)
last_end unknown_format = inl (refl, (λ h. ground arith), refl)
last_end invalid_metadata = inl (refl, (λ h. ground arith), refl)
last_end (failure x) = inl (refl, (λ h. ground arith), refl)

-- The last chunk, with the error.
EndsWith-last : (e : Error) (p : Pipe) → IsOpen p → EndsWith e (end_with e p ∷ [])
unfolding end_with
EndsWith-last e p o = rw o.not_ended (o.reader_open, o.nonempty, last_end e)

Final-current :
    (e : Error) (w : ChunkWriter) (p : Pipe)
    → w.pipe ≡ some p
    → IsCurrent w p
    → Final e w (w.sent ++ (end_with e p ∷ []))
unfolding channel
Final-current e w p sp c = record {
  ends =
      AreFull-EndsWith w.chunk_size e w.sent (end_with e p) c.sent_full
        (EndsWith-last e p c.opened);
  same = rw (
    sp,
    content-append w.sent (end_with e p ∷ []),
    content-append w.sent (p ∷ []),
    bytes_of-end_with e p,
  );
}

pub channel-close :
    (w : ChunkWriter) (p : Pipe)
    → w.closed ≡ false
    → w.pipe ≡ some p
    → channel (close w) ≡ w.sent ++ (end_with eof p ∷ [])
unfolding channel close
channel-close w p o sp = rw (o, sp)

channel-close_with_error :
    (e : Error) (w : ChunkWriter) (p : Pipe)
    → w.closed ≡ false
    → w.pipe ≡ some p
    → channel (close_with_error e w) ≡ w.sent ++ (end_with e p ∷ [])
unfolding channel close_with_error
channel-close_with_error e w p o sp = rw (o, sp)

close-Final-none :
    (w : ChunkWriter) → IsWriter w → w.pipe ≡ none → w.sent ≡ [] → Final eof w (channel (close w))
unfolding channel close
close-Final-none w h np ns = record {
  ends = rw (h.not_closed, np, ns) refl;
  same = rw (h.not_closed, np);
}

close_with_error-Final-none :
    (e : Error) (w : ChunkWriter)
    → IsWriter w
    → w.pipe ≡ none
    → w.sent ≡ []
    → Final e w (channel (close_with_error e w))
unfolding channel close_with_error chunk flatten new_pipe
close_with_error-Final-none e w h np ns = record {
  ends = rw (h.not_closed, np, ns) (EndsWith-last e new_pipe IsOpen-new_pipe);
  same = rw (h.not_closed, np, ns) (ap (λ b. b ++ []) (bytes_of-end_with e new_pipe));
}

pub close-Final : (w : ChunkWriter) → IsWriter w → Final eof w (channel (close w))
close-Final w h = elim h.current [
  | inl (np, ns) ↦ close-Final-none w h np ns
  | inr (p, sp, c, pos) ↦
      subst (Final eof w) (sym (channel-close w p h.not_closed sp)) (Final-current eof w p sp c)
]

close_with_error-Final :
    (e : Error) (w : ChunkWriter) → IsWriter w → Final e w (channel (close_with_error e w))
close_with_error-Final e w h = elim h.current [
  | inl (np, ns) ↦ close_with_error-Final-none e w h np ns
  | inr (p, sp, c, pos) ↦
      subst (Final e w) (sym (channel-close_with_error e w p h.not_closed sp))
        (Final-current e w p sp c)
]

pub new_chunk_writer-IsWriter : (size : ℕ) → size < two_64 → IsWriter (new_chunk_writer size)
unfolding new_chunk_writer
new_chunk_writer-IsWriter size h = record {
  fits = h;
  not_closed = refl;
  current = inl (refl, refl);
}

pub content-fresh : (size : ℕ) (b : Bytes) → content (channel (new_chunk_writer size)) ++ b ≡ b
unfolding channel new_chunk_writer
content-fresh size b = refl

-- Reading what a writer left on the channel.
read_all-Final :
    (n : ℕ) (e : Error) (w : ChunkWriter) (ps : List Pipe)
    → 0 < n
    → Final e w ps
    → read_all (suc (length (content (channel w)))) n (new_chunk_reader ps true)
      ≡ ok (content (channel w), e)
unfolding new_chunk_reader read
read_all-Final n e w ps pos f =
    let same = f.same in
    read_all_lem _ n e ps _ pos f.ends refl (omega (arith, ap length same))
    ∙ ap (λ b. ok (b, e)) f.same

-- What is written in any slices to a new ChunkWriter, of any chunk size, and then closed is what a ChunkReader gives,
-- read into a buffer of any length but 0, up to EOF. The writes return no error, and the reader comes to its end
-- within a read per byte and one more.
pub written-read :
    (size n : ℕ) (l : List Bytes)
    → size < two_64
    → 0 < n
    → (w : ChunkWriter) × (write_each l (new_chunk_writer size) ≡ ok (w, none))
      × (read_all (suc (length (flatten l))) n (new_chunk_reader (channel (close w)) true)
          ≡ ok (flatten l, eof))
written-read size n l h pos =
    let start = new_chunk_writer-IsWriter size h in
    let (w, e, wrote) = write_each_lem l (new_chunk_writer size) start in
    let sent = wrote.appended ∙ content-fresh size (flatten l) in
    (
      w,
      e,
      subst
          (λ b.
            read_all (suc (length b)) n (new_chunk_reader (channel (close w)) true) ≡ ok (b, eof))
          sent (read_all-Final n eof w _ pos (close-Final w wrote.still)),
    )

-- What is written to a new ChunkWriter that is then closed with an error is what a ChunkReader gives, and then the
-- error, also where nothing was written.
pub written-failed :
    (size n : ℕ) (l : List Bytes) (e : Error)
    → size < two_64
    → 0 < n
    → (w : ChunkWriter) × (write_each l (new_chunk_writer size) ≡ ok (w, none))
      × (read_all
            (suc (length (flatten l)))
            n
            (new_chunk_reader (channel (close_with_error e w)) true)
          ≡ ok (flatten l, e))
written-failed size n l e h pos =
    let start = new_chunk_writer-IsWriter size h in
    let (w, run, wrote) = write_each_lem l (new_chunk_writer size) start in
    let sent = wrote.appended ∙ content-fresh size (flatten l) in
    (
      w,
      run,
      subst
          (λ b.
            read_all (suc (length b)) n (new_chunk_reader (channel (close_with_error e w)) true)
            ≡ ok (b, e))
          sent (read_all-Final n e w _ pos (close_with_error-Final e w wrote.still)),
    )

close-closed : (w : ChunkWriter) → (close w).closed ≡ true
unfolding close
close-closed w = elim (Bool-cases w.closed) [ inl c ↦ rw c | inr o ↦ rw o ]

close_with_error-closed : (e : Error) (w : ChunkWriter) → (close_with_error e w).closed ≡ true
unfolding close_with_error
close_with_error-closed e w = elim (Bool-cases w.closed) [ inl c ↦ rw c | inr o ↦ rw o ]

fixed :
    (c : ChunkWriter) (bytes : Bytes) (e' : Error)
    → c.closed ≡ true
    → (write bytes c ≡ (ok (0, some logic), c)) × (close c ≡ c) × (close_with_error e' c ≡ c)
unfolding write close close_with_error
fixed c bytes e' h = (if-true c.closed _ _ h, if-not c.closed _ _ h, if-not c.closed _ _ h)

-- After Close or CloseWithError, Write takes nothing and returns ErrLogic, and neither it nor a further Close or
-- CloseWithError changes the writer.
pub closed-fixed :
    (w : ChunkWriter) (bytes : Bytes) (e e' : Error) (c : ChunkWriter)
    → (c ≡ close w) ⊎ (c ≡ close_with_error e w)
    → (write bytes c ≡ (ok (0, some logic), c)) × (close c ≡ c) × (close_with_error e' c ≡ c)
closed-fixed w bytes e e' c h = fixed c bytes e' (elim h [
  | inl s ↦ ap (λ x. x.closed) s ∙ close-closed w
  | inr s ↦ ap (λ x. x.closed) s ∙ close_with_error-closed e w
])

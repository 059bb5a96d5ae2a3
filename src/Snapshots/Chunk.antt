-- ===== src/Snapshots/Chunk.antt =====
-- snapshots/chunk.go: ChunkWriter, ChunkReader and ValidRestoreHeight. The channel is the list of the pipes that
-- were sent on it. An `io.Pipe` holds what was written and not yet read, write by write: a read takes from the
-- oldest write, and reports how the writer ended once all is read.
pub mod Writes
pub mod Reads
pub mod Stream
pub mod Sizes
use melodiasdk_io_store.Prelude.{
  ℕ, zero, suc, ◌+◌, ◌-◌, ◌%◌, Bool, true, false, ◌&&◌, ◌||◌, Option, none, some, List, [], ◌∷◌,
  ◌++◌, map, length, drop, ltb, leb, ◌==◌, not, is_some, if◌then◌else◌, Result, ok, panic, no_fuel,
}
use melodiasdk_io_store.Bytes.{Bytes}
use melodiasdk_io_store.Method.{Method}
use melodiasdk_io_store.Pruning.Manager.{two_63}
use melodiasdk_io_store.Types.Gas.{two_64}
use melodiasdk_io_store.Types.Utils.{take}

-- Go errors; any that the code does not name is a `failure`.
pub data Error : Type 0 where
  eof closed_pipe logic conflict unknown_format invalid_metadata chunk_hash_mismatch : Error
  failure : ℕ → Error

pub record Pipe : Type 0 where
  pub writes : List Bytes
  -- The error of the writer's end, once it is closed.
  pub ended : Option Error
  pub reader_closed : Bool

unfoldable pub new_pipe : Pipe
new_pipe = record { writes = []; ended = none; reader_closed = false }

-- `PipeWriter.CloseWithError`; the first error stays.
unfoldable pub end_with : Error → Pipe → Pipe
end_with e p = elim p.ended [ none ↦ record p { ended = some e } | some old ↦ p ]

unfoldable pub close_reader : Pipe → Pipe
close_reader p = record p { reader_closed = true }

-- `PipeWriter.Write`: the number of bytes, and the error.
unfoldable pub pipe_write : Bytes → Pipe → (ℕ × Option Error) × Pipe
pipe_write bytes p =
    if p.reader_closed || is_some p.ended
    then ((0, some closed_pipe), p)
    else ((length bytes, none), record p { writes = p.writes ++ (bytes ∷ []) })

-- What a read gives: bytes, an error, or nothing yet.
pub data Outcome : Type 0 where
  got : Bytes → Outcome
  failed : Error → Outcome
  waits : Outcome

abbrev pub read_writes : ℕ → Pipe → List Bytes → Option Error → Outcome × Pipe
read_writes n p [] none = (waits, p)
read_writes n p [] (some e) = (failed e, p)
read_writes n p (b ∷ l) ended =
    (got (take n b), record p { writes = if leb (length b) n then l else drop n b ∷ l })

unfoldable pub pipe_read : ℕ → Pipe → Outcome × Pipe
pipe_read n p =
    if p.reader_closed then (failed closed_pipe, p) else read_writes n p p.writes p.ended

-- `pipe` is the write end of the pipe whose read end was sent last, and `sent` are those before it.
pub record ChunkWriter : Type 0 where
  pub sent : List Pipe
  pub pipe : Option Pipe
  pub chunk_size : ℕ
  pub written : ℕ
  pub closed : Bool

unfoldable pub new_chunk_writer : ℕ → ChunkWriter
new_chunk_writer chunk_size = record {
  sent = [];
  pipe = none;
  chunk_size = chunk_size;
  written = 0;
  closed = false;
}

-- What was sent on the channel.
unfoldable pub channel : ChunkWriter → List Pipe
channel w = w.sent ++ (elim w.pipe [ none ↦ [] | some p ↦ p ∷ [] ])

unfoldable pub chunk : ChunkWriter → ChunkWriter
unfolding new_pipe end_with
chunk w = record w {
  sent = w.sent ++ (elim w.pipe [ none ↦ [] | some p ↦ end_with eof p ∷ [] ]);
  pipe = some new_pipe;
  written = 0;
}

unfoldable pub close : ChunkWriter → ChunkWriter
unfolding end_with
close w =
    if not w.closed
    then record w {
      closed = true;
      pipe = elim w.pipe [ none ↦ none | some p ↦ some (end_with eof p) ];
    }
    else w

-- With no pipe, a new one carries the error.
unfoldable pub close_with_error : Error → ChunkWriter → ChunkWriter
unfolding end_with chunk
close_with_error e w =
    if not w.closed
    then (let w' = if is_some w.pipe then w else chunk w in
        record w' {
          closed = true;
          pipe = elim w'.pipe [ none ↦ none | some p ↦ some (end_with e p) ];
        })
    else w

unfoldable pub write_size : ChunkWriter → ℕ → ℕ
write_size w n =
    let size = if w.chunk_size == 0 then n else (w.chunk_size + two_64 - w.written) % two_64 in
    if ltb n size then n else size

-- One round of the loop from the write on, into the pipe of the writer.
unfoldable pub write_piece : Bytes → Pipe → ChunkWriter → (ℕ × Option Error) × ChunkWriter
unfolding pipe_write
write_piece bytes p w =
    let ((n, err), p') = pipe_write bytes p in
    ((n, err), record w { pipe = some p'; written = (w.written + n) % two_64 })

-- The pipe to write into, a new one where there is none or the current chunk is full.
unfoldable pub ready : ChunkWriter → Pipe × ChunkWriter
unfolding chunk new_pipe
ready w = elim w.pipe [
  | none ↦ (new_pipe, chunk w)
  | some p ↦
      if leb w.chunk_size w.written && ltb 0 w.chunk_size then (new_pipe, chunk w) else (p, w)
]

-- What follows a write: the next rounds on what is left, or an error.
abbrev pub after_write :
    (Bytes → ℕ → Method ChunkWriter (ℕ × Option Error))
    → Bytes
    → ℕ
    → (ℕ × Option Error) × ChunkWriter
    → Result (ℕ × Option Error) × ChunkWriter
after_write rest left total ((n, none), w) = rest left (total + n) w
after_write rest left total ((n, some e), w) = (ok (total + n, some e), w)

abbrev pub round :
    (Bytes → ℕ → Method ChunkWriter (ℕ × Option Error))
    → Bytes
    → ℕ
    → Pipe × ChunkWriter
    → Result (ℕ × Option Error) × ChunkWriter
round rest bytes total (p, w) =
    let size = write_size w (length bytes) in
    after_write rest (drop size bytes) total (write_piece (take size bytes) p w)

unfoldable pub write_loop : ℕ → Bytes → ℕ → Method ChunkWriter (ℕ × Option Error)
write_loop f [] total w = (ok (total, none), w)
write_loop zero (x ∷ bytes) total w = (panic no_fuel, w)
write_loop (suc f) (x ∷ bytes) total w = round (write_loop f) (x ∷ bytes) total (ready w)

-- A round takes a byte at least.
unfoldable pub write : Bytes → Method ChunkWriter (ℕ × Option Error)
unfolding write_loop
write bytes w = if w.closed then (ok (0, some logic), w) else write_loop (length bytes) bytes 0 w

-- `is_closed` is whether the channel was closed.
pub record ChunkReader : Type 0 where
  pub ch : List Pipe
  pub is_closed : Bool
  pub reader : Option Pipe

-- What follows a read from a chunk: at its end it is closed, and the next one is read, or else it stays.
abbrev pub after_read :
    Outcome × ChunkReader → Bool → List Pipe → Outcome × Pipe → Outcome × ChunkReader
after_read rest is_closed ch (failed eof, p) = rest
after_read rest is_closed ch (o, p) =
    (o, record { ch = ch; is_closed = is_closed; reader = some p })

-- `Read` from the chunks on the channel.
unfoldable pub read_on : ℕ → Bool → List Pipe → Outcome × ChunkReader
read_on n is_closed [] = (
  if is_closed then failed eof else waits,
  record { ch = []; is_closed = is_closed; reader = none },
)
read_on n is_closed (p ∷ ch) =
    let rest = read_on n is_closed ch in after_read rest is_closed ch (pipe_read n p)

-- `Read` into a buffer of `n` bytes.
unfoldable pub read : ℕ → ChunkReader → Outcome × ChunkReader
unfolding read_on
read n r = elim r.reader [
  | none ↦ read_on n r.is_closed r.ch
  | some p ↦ read_on n r.is_closed (p ∷ r.ch)
]

unfoldable pub new_chunk_reader : List Pipe → Bool → ChunkReader
new_chunk_reader ch is_closed = record { ch = ch; is_closed = is_closed; reader = none }

-- The read ends of all that is left on the channel are closed.
unfoldable pub drain_chunks : List Pipe → List Pipe
unfolding close_reader
drain_chunks chunks = map close_reader chunks

-- The current format is 3.
unfoldable pub valid_restore_height : ℕ → ℕ → Option Error
valid_restore_height format height =
    if not (format == 3)
    then some unknown_format
    else if height == 0
    then some logic
    else if leb two_63 height
    then some invalid_metadata
    else none

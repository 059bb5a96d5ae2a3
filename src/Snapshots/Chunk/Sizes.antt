-- ===== src/Snapshots/Chunk/Sizes.antt =====
-- How long the chunks of snapshots/chunk.go are, and how many there are.
use mathlib.Core.List.{flatten}
use melodiasdk_io_store.Prelude.{
  ℕ, ◌+◌, ◌*◌, ◌≤◌, ◌<◌, ◌≡◌, sym, ap, ◌∙◌, subst, inl, inr, false, none, List, [], ◌∷◌, ◌++◌,
  length, length-append, arith, ok,
}
use melodiasdk_io_store.Bytes.{Bytes}
use melodiasdk_io_store.Types.Gas.{two_64}
use melodiasdk_io_store.Snapshots.Chunk.{
  Pipe, ChunkWriter, new_chunk_writer, channel, close, end_with, eof,
}
use melodiasdk_io_store.Snapshots.Chunk.Writes.{
  bytes_of, content, content-append, bytes_of-end_with, IsCurrent, AreFull, IsWriter,
}
use melodiasdk_io_store.Snapshots.Chunk.Stream.{
  write_each, write_each_lem, new_chunk_writer-IsWriter, channel-close, close-Final, content-fresh,
}

-- Each chunk but the last has `size` bytes, and the last has from 1 to `size`.
abbrev pub IsCut : ℕ → List Pipe → Type 0
IsCut size [] = Unit
IsCut size (p ∷ []) = (0 < length (bytes_of p)) × (length (bytes_of p) ≤ size)
IsCut size (p ∷ q ∷ ps) = (length (bytes_of p) ≡ size) × IsCut size (q ∷ ps)

-- No fewer chunks than the bytes need, and no more.
pub record Cuts (size total : ℕ) (ps : List Pipe) : Type 0 where
  pub cut : IsCut size ps
  pub enough : total ≤ length ps * size
  pub no_more : length ps * size < total + size

AreFull-IsCut :
    (size : ℕ) (ps : List Pipe) (p : Pipe)
    → AreFull size ps
    → IsCut size (p ∷ [])
    → IsCut size (ps ++ (p ∷ []))
AreFull-IsCut size [] p h c = c
AreFull-IsCut size (q ∷ []) p h c = (h.0.full, c)
AreFull-IsCut size (q ∷ r ∷ ps) p h c = (h.0.full, AreFull-IsCut size (r ∷ ps) p h.1 c)

length-content :
    (size : ℕ) (ps : List Pipe) → AreFull size ps → length (content ps) ≡ length ps * size
length-content size [] h = omega arith
length-content size (p ∷ ps) h =
    length-append (bytes_of p) (content ps) ∙ grind (arith, length-content size ps h.1, h.0.full)

-- The chunks of a writer that was closed with a current chunk.
Cuts-current :
    (w : ChunkWriter) (p : Pipe)
    → IsCurrent w p
    → 0 < w.chunk_size
    → 0 < length (bytes_of p)
    → (let ps = w.sent ++ (end_with eof p ∷ []) in Cuts w.chunk_size (length (content ps)) ps)
Cuts-current w p c sized pos =
    let n = c.sized sized in
    let m = c.room sized in
    let same = ap length (bytes_of-end_with eof p) in
    let sent = length-content w.chunk_size w.sent c.sent_full in
    let q = end_with eof p in
    let k = w.chunk_size in
    let total : length (content (w.sent ++ (q ∷ []))) ≡ length w.sent * k + length (bytes_of p) =
      ap length (content-append w.sent (q ∷ []))
      ∙ length-append (content w.sent) (bytes_of q ++ [])
      ∙ omega (arith, sent, length-append (bytes_of q) [], same) in
    let count : length (w.sent ++ (q ∷ [])) * k ≡ length w.sent * k + k =
      ap (λ x. x * k) (length-append w.sent (q ∷ [])) ∙ grind arith in
    record {
      cut = AreFull-IsCut k w.sent q c.sent_full (omega (arith, same), omega (arith, same));
      enough = omega (arith, total, count);
      no_more = omega (arith, total, count);
    }

channel-close-none :
    (w : ChunkWriter) → w.closed ≡ false → w.pipe ≡ none → w.sent ≡ [] → channel (close w) ≡ []
unfolding channel close
channel-close-none w o np ns = rw (o, np, ns)

Cuts-close :
    (w : ChunkWriter)
    → IsWriter w
    → 0 < w.chunk_size
    → Cuts w.chunk_size (length (content (channel (close w)))) (channel (close w))
Cuts-close w h sized = elim h.current [
  | inl (np, ns) ↦
      rw (channel-close-none w h.not_closed np ns)
        (record { cut = tt; enough = omega arith; no_more = omega arith })
  | inr (p, sp, c, pos) ↦
      subst (λ ps. Cuts w.chunk_size (length (content ps)) ps)
        (sym (channel-close w p h.not_closed sp)) (Cuts-current w p c sized pos)
]

-- What is written in any slices to a new ChunkWriter with a chunk size but 0, and then closed, is cut into chunks of
-- that size, but for the last, which is not empty and no longer; and there are no more chunks than the bytes need.
pub written-Cuts :
    (size : ℕ) (l : List Bytes)
    → 0 < size
    → size < two_64
    → (w : ChunkWriter) × (write_each l (new_chunk_writer size) ≡ ok (w, none))
      × Cuts size (length (flatten l)) (channel (close w))
unfolding new_chunk_writer
written-Cuts size l pos h =
    let start = new_chunk_writer-IsWriter size h in
    let (w, run, wrote) = write_each_lem l (new_chunk_writer size) start in
    let same = (close-Final w wrote.still).same ∙ wrote.appended ∙ content-fresh size (flatten l) in
    (
      w,
      run,
      subst (λ k. Cuts k (length (flatten l)) (channel (close w))) wrote.same_size
          (subst (λ b. Cuts w.chunk_size (length b) (channel (close w))) same
            (Cuts-close w wrote.still (subst (λ k. 0 < k) (sym wrote.same_size) pos))),
    )

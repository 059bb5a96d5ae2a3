-- ===== src/Snapshots/Chunk/Reads.antt =====
-- What Read of snapshots/chunk.go gives of the chunks on a closed channel.
use mathlib.Core.List.{flatten, append_assoc}
use melodiasdk_io_store.Prelude.{
  ℕ, zero, suc, ◌≤◌, ◌<◌, ◌≡◌, ◌≢◌, refl, sym, ap, ◌∙◌, subst, ◌⊎◌, inl, inr, true, false, some,
  none, if-false, List, [], ◌∷◌, ◌++◌, length, drop, arith, leb, Bool-cases, if◌then◌else◌,
}
use melodiasdk_io_store.Bytes.{Bytes}
use melodiasdk_io_store.Types.Utils.{take}
use melodiasdk_io_store.Snapshots.Chunk.{
  Error, eof, closed_pipe, logic, conflict, chunk_hash_mismatch, unknown_format, invalid_metadata,
  failure, Outcome, got, failed, Pipe, pipe_read, read_writes, after_read, ChunkReader, read_on,
}
use melodiasdk_io_store.Snapshots.Chunk.Writes.{content, HasBytes, take-append-drop, length-drop}

-- A row of chunks whose last one ends with the error `e`, and all others, or all if `e` is EOF, with EOF.
abbrev pub EndsWith : Error → List Pipe → Type 0
EndsWith e [] = e ≡ eof
EndsWith e (p ∷ ps) =
    (p.reader_closed ≡ false)
    × HasBytes p.writes
    × (((p.ended ≡ some e) × (e ≢ eof) × (ps ≡ [])) ⊎ ((p.ended ≡ some eof) × EndsWith e ps))

-- The reader that has such a row left.
abbrev pub reader_of : List Pipe → ChunkReader
reader_of [] = record { ch = []; is_closed = true; reader = none }
reader_of (p ∷ ps) = record { ch = ps; is_closed = true; reader = some p }

-- What a read gives: the error where there are no more bytes, or else some of them.
pub data Reads (n : ℕ) (e : Error) (ps : List Pipe) : Outcome × ChunkReader → Type 0 where
  at_end : (r : ChunkReader) → content ps ≡ [] → Reads n e ps (failed e, r)
  more :
      (b : Bytes) (qs : List Pipe)
      → 0 < length b
      → content ps ≡ b ++ content qs
      → EndsWith e qs
      → Reads n e ps (got b, reader_of qs)

length-take_pos : (n : ℕ) (b : Bytes) → 0 < n → 0 < length b → 0 < length (take n b)
length-take_pos zero b h h' = absurd (omega arith)
length-take_pos (suc n) [] h h' = h'
length-take_pos (suc n) (x ∷ b) h h' = omega arith

take-all : (n : ℕ) (b : Bytes) → length b ≤ n → take n b ≡ b
take-all zero [] h = refl
take-all zero (x ∷ b) h = absurd (omega arith)
take-all (suc n) [] h = refl
take-all (suc n) (x ∷ b) h = ap (λ l. x ∷ l) (take-all n b (omega arith))

-- The writes that are left after a read.
abbrev left : ℕ → Bytes → List Bytes → List Bytes
left n b l = if leb (length b) n then l else drop n b ∷ l

left_lem :
    (n : ℕ) (b : Bytes) (l : List Bytes)
    → HasBytes l
    → (flatten (b ∷ l) ≡ take n b ++ flatten (left n b l)) × HasBytes (left n b l)
unfolding flatten
left_lem n b l h = elim (Bool-cases (leb (length b) n)) [
  | inl all ↦ rw all (rw (take-all n b (ground arith)) refl, h)
  | inr part ↦ rw part (
    ap (λ x. x ++ flatten l) (sym (take-append-drop n b))
        ∙ append_assoc (take n b) (drop n b) (flatten l),
    (rw (length-drop n b) (ground arith), h),
  )
]

pipe_read-more :
    (n : ℕ) (p : Pipe) (b : Bytes) (l : List Bytes)
    → p.reader_closed ≡ false
    → p.writes ≡ b ∷ l
    → pipe_read n p ≡ (got (take n b), record p { writes = left n b l })
unfolding pipe_read
pipe_read-more n p b l o e =
    if-false p.reader_closed _ _ o ∙ ap (λ ws. read_writes n p ws p.ended) e

pipe_read-end :
    (n : ℕ) (p : Pipe) (e : Error)
    → p.reader_closed ≡ false
    → p.writes ≡ []
    → p.ended ≡ some e
    → pipe_read n p ≡ (failed e, p)
unfolding pipe_read
pipe_read-end n p e o w h =
    if-false p.reader_closed _ _ o
    ∙ ap (λ ws. read_writes n p ws p.ended) w
    ∙ ap (read_writes n p []) h

after_read-failed :
    (rest : Outcome × ChunkReader) (ch : List Pipe) (e : Error) (p : Pipe)
    → e ≢ eof
    → (r : ChunkReader) × (after_read rest true ch (failed e, p) ≡ (failed e, r))
after_read-failed rest ch eof p h = absurd (h refl)
after_read-failed rest ch closed_pipe p h = (_, refl)
after_read-failed rest ch logic p h = (_, refl)
after_read-failed rest ch conflict p h = (_, refl)
after_read-failed rest ch unknown_format p h = (_, refl)
after_read-failed rest ch invalid_metadata p h = (_, refl)
after_read-failed rest ch chunk_hash_mismatch p h = (_, refl)
after_read-failed rest ch (failure x) p h = (_, refl)

-- A chunk with bytes left.
Reads-bytes :
    (n : ℕ) (e : Error) (p : Pipe) (ps : List Pipe) (b : Bytes) (l : List Bytes)
    → 0 < n
    → EndsWith e (p ∷ ps)
    → p.writes ≡ b ∷ l
    → Reads n e (p ∷ ps) (read_on n true (p ∷ ps))
unfolding read_on
Reads-bytes n e p ps b l pos (o, h, t) w =
    let bytes : HasBytes (b ∷ l) = subst HasBytes w h in
    let q : Pipe = record p { writes = left n b l } in
    let (same, kept) = left_lem n b l bytes.1 in
    subst (λ x. Reads n e (p ∷ ps) (after_read (read_on n true ps) true ps x))
      (sym (pipe_read-more n p b l o w))
      (more (take n b) (q ∷ ps) (length-take_pos n b pos bytes.0)
        (ap (λ x. x ++ content ps) (ap flatten w ∙ same)
          ∙ append_assoc (take n b) (flatten (left n b l)) (content ps))
        (o, kept, t))

Reads-same :
    (n : ℕ) (e : Error) (qs ps : List Pipe) (x : Outcome × ChunkReader)
    → content qs ≡ content ps
    → Reads n e ps x
    → Reads n e qs x
Reads-same n e qs ps x same (at_end r h) = at_end r (same ∙ h)
Reads-same n e qs ps x same (more b rs pos h ends) = more b rs pos (same ∙ h) ends

-- A chunk of which all is read.
Reads-end :
    (n : ℕ) (e : Error) (p : Pipe) (ps : List Pipe)
    → 0 < n
    → EndsWith e (p ∷ ps)
    → p.writes ≡ []
    → (EndsWith e ps → Reads n e ps (read_on n true ps))
    → Reads n e (p ∷ ps) (read_on n true (p ∷ ps))
unfolding read_on flatten
Reads-end n e p ps pos (o, h, t) w rest = elim t [
  | inl (last, other, none_left) ↦
      let (r, f) = after_read-failed (read_on n true ps) ps e p other in
      subst (Reads n e (p ∷ ps))
        (sym (ap (after_read (read_on n true ps) true ps) (pipe_read-end n p e o w last) ∙ f))
        (at_end r (rw (w, none_left)))
  | inr (ended, ends) ↦
      let same : content (p ∷ ps) ≡ content ps = rw w in
      subst (λ x. Reads n e (p ∷ ps) (after_read (read_on n true ps) true ps x))
        (sym (pipe_read-end n p eof o w ended)) (Reads-same n e (p ∷ ps) ps _ same (rest ends))
]

List-cases {ℓ} : {A : Type ℓ} (l : List A) → (l ≡ []) ⊎ ((x : A) × (r : List A) × (l ≡ x ∷ r))
List-cases [] = inl refl
List-cases (x ∷ l) = inr (x, l, refl)

pub Reads-read_on :
    (n : ℕ) (e : Error) (ps : List Pipe) → 0 < n → EndsWith e ps → Reads n e ps (read_on n true ps)
unfolding read_on
Reads-read_on n e [] pos h = rw h (at_end _ refl)
Reads-read_on n e (p ∷ ps) pos (o, h, t) = elim (List-cases p.writes) [
  | inr (b, l, w) ↦ Reads-bytes n e p ps b l pos (o, h, t) w
  | inl w ↦ Reads-end n e p ps pos (o, h, t) w (Reads-read_on n e ps pos)
]

-- ===== src/Snapshots/Keys.antt =====
-- snapshots/store.go: the keys under which the store keeps the metadata of snapshots.
use melodiasdk_io_store.Prelude.{
  ℕ, zero, suc, ◌^◌, ◌<◌, ◌≡◌, refl, ap, ◌∙◌, ◌>>=◌, [], ◌∷◌, ◌++◌, Option, none, some, Result, ok,
  ◌==◌, not, if◌then◌else◌, if-not, length, arith, length-append, drop, panic, index_out_of_range,
}
use melodiasdk_io_store.Bytes.{Bytes}
use melodiasdk_io_store.Types.Gas.{two_64}
use melodiasdk_io_store.Types.Utils.{take, big_endian, read_bytes}
use melodiasdk_io_store.Types.Utils.BigEndian.{length-big_endian, read_bytes-big_endian}
use melodiasdk_io_store.Snapshots.Chunk.{Error, logic}

abbrev key_prefix_snapshot : ℕ
key_prefix_snapshot = 1

unfoldable pub encode_key : ℕ → ℕ → Bytes
encode_key height format = key_prefix_snapshot ∷ (big_endian 8 height ++ big_endian 4 format)

-- The prefix of a key that is long enough; `b` is the 12 bytes behind it.
abbrev pub decode_parts : Bytes → Result (Option Error × (ℕ × ℕ))
decode_parts [] = panic index_out_of_range
decode_parts (x ∷ b) =
    if not (x == key_prefix_snapshot)
    then ok (some logic, (0, 0))
    else read_bytes 8 0 (take 8 b) >>= λ height.
        read_bytes 4 0 (take 4 (drop 8 b)) >>= λ format. ok (none, (height, format))

-- The error is the last result in the source.
unfoldable pub decode_key : Bytes → Result (Option Error × (ℕ × ℕ))
decode_key k = if not (length k == 13) then ok (some logic, (0, 0)) else decode_parts k

take-append : (n : ℕ) (a b : Bytes) → length a ≡ n → take n (a ++ b) ≡ a
take-append zero [] b h = refl
take-append zero (x ∷ a) b h = absurd (omega arith)
take-append (suc n) [] b h = absurd (omega arith)
take-append (suc n) (x ∷ a) b h = ap (λ l. x ∷ l) (take-append n a b (omega arith))

take-all : (n : ℕ) (b : Bytes) → length b ≡ n → take n b ≡ b
take-all zero [] h = refl
take-all zero (x ∷ b) h = absurd (omega arith)
take-all (suc n) [] h = refl
take-all (suc n) (x ∷ b) h = ap (λ l. x ∷ l) (take-all n b (omega arith))

drop-append : (n : ℕ) (a b : Bytes) → length a ≡ n → drop n (a ++ b) ≡ b
drop-append zero [] b h = refl
drop-append zero (x ∷ a) b h = absurd (omega arith)
drop-append (suc n) [] b h = absurd (omega arith)
drop-append (suc n) (x ∷ a) b h = drop-append n a b (omega arith)

length-encode_key : (height format : ℕ) → length (encode_key height format) ≡ 13
unfolding encode_key
length-encode_key height format = omega (
  arith,
  length-append (big_endian 8 height) (big_endian 4 format),
  length-big_endian 8 height,
  length-big_endian 4 format,
)

-- The two numbers of a key, read from its two encodings.
decode_parts-append :
    (a b : Bytes) (height format : ℕ)
    → length a ≡ 8
    → length b ≡ 4
    → read_bytes 8 0 a ≡ ok height
    → read_bytes 4 0 b ≡ ok format
    → decode_parts (key_prefix_snapshot ∷ (a ++ b)) ≡ ok (none, (height, format))
decode_parts-append a b height format ha hb ra rb =
    ap
      (λ l. read_bytes 8 0 l >>= λ h.
        read_bytes 4 0 (take 4 (drop 8 (a ++ b))) >>= λ f. ok (none, (h, f)))
      (take-append 8 a b ha)
    ∙ ap (λ r. r >>= λ h. read_bytes 4 0 (take 4 (drop 8 (a ++ b))) >>= λ f. ok (none, (h, f))) ra
    ∙ ap (λ l. read_bytes 4 0 (take 4 l) >>= λ f. ok (none, (height, f))) (drop-append 8 a b ha)
    ∙ ap (λ l. read_bytes 4 0 l >>= λ f. ok (none, (height, f))) (take-all 4 b hb)
    ∙ ap (λ r. r >>= λ f. ok (none, (height, f))) rb

-- The height and the format of a snapshot, a `uint64` and a `uint32`, are read back from its key without an error.
pub decode_key-encode_key :
    (height format : ℕ)
    → height < two_64
    → format < 2 ^ 32
    → decode_key (encode_key height format) ≡ ok (none, (height, format))
unfolding decode_key encode_key
decode_key-encode_key height format hh hf =
    if-not (length (encode_key height format) == 13) _ _
      (ap (λ n. n == 13) (length-encode_key height format))
    ∙ decode_parts-append (big_endian 8 height) (big_endian 4 format) height format
        (length-big_endian 8 height) (length-big_endian 4 format)
        (read_bytes-big_endian 8 height hh) (read_bytes-big_endian 4 format hf)

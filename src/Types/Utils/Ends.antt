-- ===== src/Types/Utils/Ends.antt =====
-- The ranges that PrefixEndBytes and InclusiveEndBytes of types/utils.go end.
use melodiasdk_io_store.Prelude.{
  ℕ, zero, suc, ◌+◌, ◌%◌, ◌<◌, ◌≡◌, refl, sym, ◌∙◌, true, false, [], ◌∷◌, ◌++◌, none, some, length,
  arith, ◌==◌, ◌&&◌, ◌||◌, if◌then◌else◌,
}
use melodiasdk_io_store.Bytes.{Bytes, Slice, compare_bytes, has_prefix, is_lt, bytes_eq, IsBytes}
use melodiasdk_io_store.Types.KvStore.{in_domain}
use melodiasdk_io_store.Types.Utils.{prefix_end_bytes, prefix_end_loop, inclusive_end_bytes}

-- The end from the first byte on.
abbrev pub after_byte : ℕ → Slice → Slice
after_byte x (some e) = some (x ∷ e)
after_byte x none = if x == 255 then none else some ((x + 1) % 256 ∷ [])

prefix_end_loop-cons :
    (x n : ℕ) (p : Bytes) → prefix_end_loop (x ∷ p) (suc n) ≡ after_byte x (prefix_end_loop p n)
unfolding prefix_end_loop
prefix_end_loop-cons x zero p = ground arith
prefix_end_loop-cons x (suc i) p = ground (arith, prefix_end_loop-cons x i p)

pub prefix_end_bytes-cons :
    (x : ℕ) (p : Bytes) → prefix_end_bytes (x ∷ p) ≡ after_byte x (prefix_end_bytes p)
unfolding prefix_end_bytes
prefix_end_bytes-cons x p = prefix_end_loop-cons x (length p) p

in_domain-after_byte :
    (x y : ℕ) (p k : Bytes) (e : Slice)
    → x < 256
    → y < 256
    → in_domain k (some p) e ≡ has_prefix k p
    → in_domain (y ∷ k) (some (x ∷ p)) (after_byte x e) ≡ has_prefix (y ∷ k) (x ∷ p)
unfolding in_domain has_prefix compare_bytes
in_domain-after_byte x y p [] none hx hy ih = ground arith
in_domain-after_byte x y p (z ∷ k) none hx hy ih = ground arith
in_domain-after_byte x y p k (some e) hx hy ih = ground arith

in_domain-all : (k : Bytes) → in_domain k (some []) none ≡ true
unfolding in_domain compare_bytes
in_domain-all [] = refl
in_domain-all (y ∷ k) = refl

in_domain-empty : (x : ℕ) (p : Bytes) (e : Slice) → in_domain [] (some (x ∷ p)) e ≡ false
unfolding in_domain compare_bytes
in_domain-empty x p e = refl

has_prefix-empty : (k : Bytes) → has_prefix k [] ≡ true
unfolding has_prefix
has_prefix-empty [] = refl
has_prefix-empty (y ∷ k) = refl

-- The keys from a prefix to its end are those with the prefix, also where the end is nil, which is no
-- end: the prefix is then empty or all its bytes are 255.
pub prefix_end_bytes_lem :
    (p k : Bytes)
    → IsBytes p
    → IsBytes k
    → in_domain k (some p) (prefix_end_bytes p) ≡ has_prefix k p
prefix_end_bytes_lem [] k hp hk =
    unfold prefix_end_bytes prefix_end_loop in in_domain-all k ∙ sym (has_prefix-empty k)
prefix_end_bytes_lem (x ∷ p) [] hp hk =
    unfold has_prefix in in_domain-empty x p (prefix_end_bytes (x ∷ p))
prefix_end_bytes_lem (x ∷ p) (y ∷ k) hp hk = rw (prefix_end_bytes-cons x p) (
    in_domain-after_byte x y p k (prefix_end_bytes p) hp.0 hk.0
      (prefix_end_bytes_lem p k hp.1 hk.1))

is_lt-append_zero :
    (k b : Bytes)
    → is_lt (compare_bytes k (b ++ (0 ∷ []))) ≡ (is_lt (compare_bytes k b) || bytes_eq k b)
unfolding compare_bytes
is_lt-append_zero [] [] = refl
is_lt-append_zero [] (y ∷ b) = refl
is_lt-append_zero (x ∷ []) [] = ground arith
is_lt-append_zero (x ∷ z ∷ k) [] = ground arith
is_lt-append_zero (x ∷ k) (y ∷ b) = ground (arith, is_lt-append_zero k b)

-- The keys from a start to the end that is to include a key are those up to that key.
pub inclusive_end_bytes_lem :
    (k b : Bytes) (start : Slice)
    → in_domain k start (some (inclusive_end_bytes b))
      ≡ (in_domain k start (some b) || (in_domain k start none && bytes_eq k b))
unfolding in_domain inclusive_end_bytes
inclusive_end_bytes_lem k b start = ground (arith, is_lt-append_zero k b)

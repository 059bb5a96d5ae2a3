-- ===== src/Prefix/Keys.antt =====
-- Keys with a prefix, and the ranges of prefix/store.go in the parent.
use melodiasdk_io_store.Prelude.{
  ℕ, ◌<◌, length, ◌≡◌, refl, sym, ◌∙◌, Bool, true, false, [], ◌∷◌, ◌++◌, none, some, arith, not,
  ◌&&◌,
}
use melodiasdk_io_store.Bytes.{Bytes, Slice, compare_bytes, has_prefix, is_lt, is_gt, IsBytes}
use melodiasdk_io_store.Types.KvStore.{in_domain, is_inverted, is_empty, or_empty, IsRange}
use melodiasdk_io_store.Types.Utils.{prefix_end_bytes, prefix_end_loop}
use melodiasdk_io_store.Types.Utils.Ends.{prefix_end_bytes-cons, prefix_end_bytes_lem, after_byte}
use melodiasdk_io_store.Prefix.{clone_append, range_end}

pub compare_bytes-prefix : (p a b : Bytes) → compare_bytes (p ++ a) (p ++ b) ≡ compare_bytes a b
unfolding compare_bytes
compare_bytes-prefix [] a b = refl
compare_bytes-prefix (x ∷ p) a b = ground (arith, compare_bytes-prefix p a b)

pub has_prefix-append : (p k : Bytes) → has_prefix (p ++ k) p ≡ true
unfolding has_prefix
has_prefix-append [] [] = refl
has_prefix-append [] (y ∷ k) = refl
has_prefix-append (x ∷ p) k = ground (arith, has_prefix-append p k)

pub without_prefix : (p k : Bytes) → has_prefix k p ≡ true → (r : Bytes) × (k ≡ p ++ r)
unfolding has_prefix
without_prefix [] k h = (k, refl)
without_prefix (x ∷ p) [] h = absurd (ground arith)
without_prefix (x ∷ p) (y ∷ k) h =
    let (r, e) = without_prefix p k (ground arith) in (r, ground (arith, e))

abbrev is_below : Bytes → Slice → Bool
is_below k end = elim end [ none ↦ true | some b ↦ is_lt (compare_bytes k b) ]

is_below-after_byte :
    (x : ℕ) (k : Bytes) (e : Slice)
    → x < 256
    → is_below k e ≡ true
    → is_below (x ∷ k) (after_byte x e) ≡ true
unfolding compare_bytes
is_below-after_byte x k (some e) h ih = ground arith
is_below-after_byte x k none h ih = ground arith

-- A key with the prefix comes before the prefix's end.
is_below-prefix_end_bytes :
    (p k : Bytes) → IsBytes p → is_below (p ++ k) (prefix_end_bytes p) ≡ true
is_below-prefix_end_bytes [] k h = unfold prefix_end_bytes prefix_end_loop in refl
is_below-prefix_end_bytes (x ∷ p) k h =
    rw (prefix_end_bytes-cons x p)
      (is_below-after_byte x (p ++ k) (prefix_end_bytes p) h.0 (is_below-prefix_end_bytes p k h.1))

and_left : (a b : Bool) → (a && b) ≡ true → a ≡ true
and_left true b h = refl
and_left false b h = h

and_right : (a b : Bool) → (a && b) ≡ true → b ≡ true
and_right true b h = h
and_right false b h = absurd (ground arith)

not_before-prefix :
    (p s k : Bytes) → is_lt (compare_bytes k (p ++ s)) ≡ false → is_lt (compare_bytes k p) ≡ false
unfolding compare_bytes
not_before-prefix [] s [] h = refl
not_before-prefix [] s (y ∷ k) h = refl
not_before-prefix (x ∷ p) s [] h = h
not_before-prefix (x ∷ p) s (y ∷ k) h = ground (arith, not_before-prefix p s k)

has_prefix_between :
    (p s e k : Bytes)
    → is_lt (compare_bytes k (p ++ s)) ≡ false
    → is_lt (compare_bytes k (p ++ e)) ≡ true
    → has_prefix k p ≡ true
unfolding compare_bytes has_prefix
has_prefix_between [] s e [] h h' = refl
has_prefix_between [] s e (y ∷ k) h h' = refl
has_prefix_between (x ∷ p) s e [] h h' = absurd (ground arith)
has_prefix_between (x ∷ p) s e (y ∷ k) h h' = ground (arith, has_prefix_between p s e k)

in_domain-parts :
    (k a : Bytes) (end : Slice)
    → in_domain k (some a) end ≡ true
    → (is_lt (compare_bytes k a) ≡ false) × (is_below k end ≡ true)
unfolding in_domain
in_domain-parts k a end h =
    let lo = and_left (not (is_lt (compare_bytes k a))) (is_below k end) h in
    let hi = and_right (not (is_lt (compare_bytes k a))) (is_below k end) h in
    (ground (arith, lo), hi)

in_domain-of_parts :
    (k a : Bytes) (end : Slice)
    → is_lt (compare_bytes k a) ≡ false
    → is_below k end ≡ true
    → in_domain k (some a) end ≡ true
unfolding in_domain
in_domain-of_parts k a end h h' = ground arith

-- The keys of the parent's range have the prefix.
pub range-has_prefix :
    (p k : Bytes) (start end : Slice)
    → IsBytes p
    → IsBytes k
    → in_domain k (some (clone_append p start)) (range_end p end) ≡ true
    → has_prefix k p ≡ true
unfolding range_end clone_append
range-has_prefix p k start none hp hk h =
    let (lo, hi) = in_domain-parts k (p ++ or_empty start) (prefix_end_bytes p) h in
    sym (prefix_end_bytes_lem p k hp hk)
    ∙ in_domain-of_parts k p (prefix_end_bytes p) (not_before-prefix p (or_empty start) k lo) hi
range-has_prefix p k start (some e) hp hk h =
    let (lo, hi) = in_domain-parts k (p ++ or_empty start) (some (p ++ e)) h in
    has_prefix_between p (or_empty start) e k lo hi

not_before_empty : (k : Bytes) → is_lt (compare_bytes k []) ≡ false
unfolding compare_bytes
not_before_empty [] = refl
not_before_empty (y ∷ k) = refl

-- A key of the range stands in the parent's range with the prefix before it.
pub in_domain-prefix :
    (p k : Bytes) (start end : Slice)
    → IsBytes p
    → in_domain (p ++ k) (some (clone_append p start)) (range_end p end) ≡ in_domain k start end
unfolding range_end clone_append in_domain
in_domain-prefix p k none none h =
    rw (compare_bytes-prefix p k [], not_before_empty k) (is_below-prefix_end_bytes p k h)
in_domain-prefix p k (some a) none h =
    rw (compare_bytes-prefix p k a) (ground (arith, is_below-prefix_end_bytes p k h))
in_domain-prefix p k none (some e) h =
    rw (compare_bytes-prefix p k [], not_before_empty k, compare_bytes-prefix p k e)
in_domain-prefix p k (some a) (some e) h =
    rw (compare_bytes-prefix p k a, compare_bytes-prefix p k e)

is_empty-after_byte : (x : ℕ) (e : Slice) → is_empty (after_byte x e) ≡ false
is_empty-after_byte x (some e) = refl
is_empty-after_byte x none = ground arith

is_inverted-below : (k : Bytes) (e : Slice) → is_below k e ≡ true → is_inverted (some k) e ≡ false
unfolding is_inverted
is_inverted-below k none h = refl
is_inverted-below k (some e) h = ground arith

is_inverted-prefix :
    (p s e : Bytes)
    → is_gt (compare_bytes s e) ≡ false
    → is_inverted (some (p ++ s)) (some (p ++ e)) ≡ false
unfolding is_inverted
is_inverted-prefix p s e h = rw (compare_bytes-prefix p s e) h

-- The parent's range is one that it accepts.
pub range_end-IsRange :
    (p : Bytes) (start end : Slice)
    → 0 < length p
    → IsBytes p
    → is_inverted start end ≡ false
    → IsRange (some (clone_append p start)) (range_end p end)
unfolding range_end clone_append
range_end-IsRange [] start end n hp h = absurd (omega arith)
range_end-IsRange (x ∷ p) start none n hp h = record {
  start_lem = refl;
  end_lem = rw (prefix_end_bytes-cons x p) (is_empty-after_byte x (prefix_end_bytes p));
  ordered =
      is_inverted-below (x ∷ p ++ or_empty start) (prefix_end_bytes (x ∷ p))
        (is_below-prefix_end_bytes (x ∷ p) (or_empty start) hp);
}
range_end-IsRange (x ∷ p) start (some e) n hp h = record {
  start_lem = refl;
  end_lem = refl;
  ordered = is_inverted-prefix (x ∷ p) (or_empty start) e (unfold is_inverted in h);
}

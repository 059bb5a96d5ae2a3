-- ===== src/Bytes/Order.antt =====
-- Key orders as an interface, and the two that iteration uses: ascending and descending bytes.
use melodiasdk_io_store.Prelude.{
  Ordering, ◌≡◌, refl, [], ◌∷◌, arith, Bool, true, false, if◌then◌else◌,
}
use melodiasdk_io_store.Bytes.{Bytes, compare_bytes, flip}

-- A comparison with the laws of a strict total order.
pub record KeyOrder (K : Type 0) : Type 0 where
  pub cmp : K → K → Ordering
  pub cmp_refl : (a : K) → cmp a a ≡ Ordering.eq
  pub cmp_eq : (a b : K) → cmp a b ≡ Ordering.eq → a ≡ b
  pub cmp_flip : (a b : K) → cmp b a ≡ flip (cmp a b)
  pub cmp_trans :
      (a b c : K) → cmp a b ≡ Ordering.lt → cmp b c ≡ Ordering.lt → cmp a c ≡ Ordering.lt

pub compare_bytes_refl : (a : Bytes) → compare_bytes a a ≡ Ordering.eq
unfolding compare_bytes
compare_bytes_refl [] = refl
compare_bytes_refl (x ∷ xs) = ground (arith, compare_bytes_refl xs)

pub compare_bytes_eq : (a b : Bytes) → compare_bytes a b ≡ Ordering.eq → a ≡ b
unfolding compare_bytes
compare_bytes_eq [] [] h = refl
compare_bytes_eq [] (y ∷ ys) h = ground arith
compare_bytes_eq (x ∷ xs) [] h = ground arith
compare_bytes_eq (x ∷ xs) (y ∷ ys) h = ground (arith, compare_bytes_eq xs ys)

pub compare_bytes-flip : (a b : Bytes) → compare_bytes b a ≡ flip (compare_bytes a b)
unfolding compare_bytes
compare_bytes-flip [] [] = refl
compare_bytes-flip [] (y ∷ ys) = refl
compare_bytes-flip (x ∷ xs) [] = refl
compare_bytes-flip (x ∷ xs) (y ∷ ys) = ground (arith, compare_bytes-flip xs ys)

pub compare_bytes_trans :
    (a b c : Bytes)
    → compare_bytes a b ≡ Ordering.lt
    → compare_bytes b c ≡ Ordering.lt
    → compare_bytes a c ≡ Ordering.lt
unfolding compare_bytes
compare_bytes_trans [] [] c h k = ground arith
compare_bytes_trans [] (y ∷ ys) [] h k = ground arith
compare_bytes_trans [] (y ∷ ys) (z ∷ zs) h k = refl
compare_bytes_trans (x ∷ xs) [] c h k = ground arith
compare_bytes_trans (x ∷ xs) (y ∷ ys) [] h k = ground arith
compare_bytes_trans (x ∷ xs) (y ∷ ys) (z ∷ zs) h k = ground (arith, compare_bytes_trans xs ys zs)

-- `compare` of the iterators: "like bytes.Compare but opposite if not ascending".
unfoldable pub compare_dir : Bool → Bytes → Bytes → Ordering
compare_dir ascending a b = if ascending then compare_bytes a b else flip (compare_bytes a b)

pub compare_dir_trans :
    (asc : Bool) (a b c : Bytes)
    → compare_dir asc a b ≡ Ordering.lt
    → compare_dir asc b c ≡ Ordering.lt
    → compare_dir asc a c ≡ Ordering.lt
unfolding compare_dir
compare_dir_trans true a b c h k = compare_bytes_trans a b c h k
compare_dir_trans false a b c h k = ground (
  arith,
  compare_bytes_trans c b a,
  compare_bytes-flip a b,
  compare_bytes-flip b c,
  compare_bytes-flip a c,
)

pub compare_dir_laws :
    (asc : Bool) (a b : Bytes)
    → (compare_dir asc a a ≡ Ordering.eq)
      × (compare_dir asc a b ≡ Ordering.eq → a ≡ b)
      × (compare_dir asc b a ≡ flip (compare_dir asc a b))
unfolding compare_dir
compare_dir_laws asc a b =
    ground (arith, compare_bytes_refl a, compare_bytes_eq a b, compare_bytes-flip a b)

abbrev pub direction : Bool → KeyOrder Bytes
direction asc = record {
  cmp = compare_dir asc;
  cmp_refl = λ a. (compare_dir_laws asc a a).0;
  cmp_eq = λ a b. (compare_dir_laws asc a b).1;
  cmp_flip = λ a b. (compare_dir_laws asc a b).2;
  cmp_trans = compare_dir_trans asc;
}

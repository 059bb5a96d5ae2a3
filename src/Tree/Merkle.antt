-- ===== src/Tree/Merkle.antt =====
-- The hash of internal/tree/hash.go against the Merkle tree hash of RFC 6962.
use melodiasdk_io_store.Prelude.{
  ℕ, zero, suc, ◌+◌, ◌≤◌, ◌<◌, ◌≡◌, ◌≢◌, refl, sym, ap, ◌∙◌, subst, ◌⊎◌, inl, inr, List, [], ◌∷◌,
  ◌++◌, arith, Result, ok, panic, length, length-append, drop, Ordering, Ordering-cases,
}
use melodiasdk_io_store.Bytes.{Bytes, compare_bytes}
use melodiasdk_io_store.Bytes.Order.{compare_bytes_eq, compare_bytes_refl}
use melodiasdk_io_store.Tree.{
  take, leaf_hash, inner_hash, empty_hash, hash_items, hash_from_byte_slices,
}
use melodiasdk_io_store.Tree.Split.{IsSplit, get_split_point_lem}
use melodiasdk_io_store.Pruning.Manager.{two_63}

module _ {ℓ} {A : Type ℓ} where
  take-append-drop : (k : ℕ) (l : List A) → take k l ++ drop k l ≡ l
  unfolding take
  take-append-drop zero l = refl
  take-append-drop (suc k) [] = refl
  take-append-drop (suc k) (x ∷ l) = ap (λ r. x ∷ r) (take-append-drop k l)

  length-take : (k : ℕ) (l : List A) → k ≤ length l → length (take k l) ≡ k
  unfolding take
  length-take zero l h = refl
  length-take (suc k) [] h = absurd (omega arith)
  length-take (suc k) (x ∷ l) h = omega (arith, length-take k l (omega arith))

abbrev or_none : Bytes → Result Bytes → Bytes
or_none d (ok b) = b
or_none d (panic e) = d

compare_bytes-ne : (a b : Bytes) (o : Ordering) → compare_bytes a b ≡ o → o ≢ Ordering.eq → a ≢ b
compare_bytes-ne a b o c n s = n (sym c ∙ ap (compare_bytes a) (sym s) ∙ compare_bytes_refl a)

abbrev head_or : ℕ → Bytes → ℕ
head_or n [] = n
head_or n (x ∷ b) = x

abbrev tail : Bytes → Bytes
tail [] = []
tail (x ∷ b) = b

append-parts : (l l' r r' : Bytes) → length l ≡ length l' → l ++ r ≡ l' ++ r' → (l ≡ l') × (r ≡ r')
append-parts [] [] r r' n e = (refl, e)
append-parts [] (x ∷ l') r r' n e = absurd (omega arith)
append-parts (x ∷ l) [] r r' n e = absurd (omega arith)
append-parts (x ∷ l) (y ∷ l') r r' n e =
    let (same, rest) = append-parts l l' r r' (omega arith) (ap tail e) in
    (ap (λ z. z ∷ l) (ap (head_or 0) e) ∙ ap (λ z. y ∷ z) same, rest)

-- Where the first bytes differ.
differ-head : (a b : Bytes) → head_or 2 a ≢ head_or 2 b → a ≢ b
differ-head a b n e = n (ap (head_or 2) e)

module _ (sha256 : Bytes → Bytes) where
  -- MTH of RFC 6962: a leaf is hashed behind a 0, and an inner node behind a 1; the left part of a row is as long
  -- as the largest power of two below its length.
  pub data Root : List Bytes → Bytes → Type 0 where
    empty : Root [] (sha256 [])
    leaf : (d : Bytes) → Root (d ∷ []) (sha256 (0 ∷ d))
    node :
        (items left right : List Bytes) (l r : Bytes)
        → IsSplit (length items) (length left)
        → items ≡ left ++ right
        → Root left l
        → Root right r
        → Root items (sha256 (1 ∷ (l ++ r)))

  hash_items_lem :
      (fuel : ℕ) (items : List Bytes)
      → length items ≤ fuel
      → length items < two_63
      → (h : Bytes) × (hash_items sha256 fuel items ≡ ok h) × Root items h
  unfolding hash_items empty_hash leaf_hash inner_hash
  hash_items_lem fuel [] le fits = (sha256 [], refl, empty)
  hash_items_lem fuel (item ∷ []) le fits = (sha256 (0 ∷ item), refl, leaf item)
  hash_items_lem zero (x ∷ y ∷ l) le fits = absurd (omega arith)
  hash_items_lem (suc fuel) (x ∷ y ∷ l) le fits =
      let items = x ∷ y ∷ l in
      let (k, e, split) = get_split_point_lem (length items) (omega arith) fits in
      let below = split.below in
      let largest = split.largest in
      let n = length-take k items (omega arith) in
      let whole = take-append-drop k items in
      let parts : length (take k items) + length (drop k items) ≡ length items =
        sym (length-append (take k items) (drop k items)) ∙ ap length whole in
      let (a, ea, ra) = hash_items_lem fuel (take k items) (omega (arith, n)) (omega (arith, n)) in
      let (b, eb, rb) =
        hash_items_lem fuel (drop k items) (omega (arith, parts, n)) (omega (arith, parts, n)) in
      (
        sha256 (1 ∷ (a ++ b)),
        rw (e, ea, eb),
        node items (take k items) (drop k items) a b (subst (IsSplit (length items)) (sym n) split)
            (sym whole) ra rb,
      )

  -- For fewer than 2 ^ 63 items, hashFromByteSlices returns, within the depth of recursion of one per item, and its
  -- result is the Merkle tree hash of RFC 6962.
  pub hash_from_byte_slices_lem :
      (items : List Bytes)
      → length items < two_63
      → (h : Bytes) × (hash_from_byte_slices sha256 items ≡ ok h) × Root items h
  unfolding hash_from_byte_slices
  hash_from_byte_slices_lem items fits = hash_items_lem (length items) items (omega arith) fits

  -- Two different inputs of SHA-256 with the same output.
  pub record Collision : Type 0 where
    pub first : Bytes
    pub second : Bytes
    pub different : first ≢ second
    pub same : sha256 first ≡ sha256 second

  apart : (a b : Bytes) → head_or 2 a ≢ head_or 2 b → sha256 a ≡ sha256 b → Collision
  apart a b n e = record { first = a; second = b; different = differ-head a b n; same = e }

  same-or-Collision : (a b : Bytes) → sha256 a ≡ sha256 b → (a ≡ b) ⊎ Collision
  same-or-Collision a b e = elim (Ordering-cases (compare_bytes a b)) [
    | inl lt ↦ inr (record {
      first = a;
      second = b;
      different = compare_bytes-ne a b Ordering.lt lt (λ h. ground arith);
      same = e;
    })
    | inr (inl eq) ↦ inl (compare_bytes_eq a b eq)
    | inr (inr gt) ↦ inr (record {
      first = a;
      second = b;
      different = compare_bytes-ne a b Ordering.gt gt (λ h. ground arith);
      same = e;
    })
  ]

  -- SHA-256 gives 32 bytes.
  module _ (length-sha256 : (b : Bytes) → length (sha256 b) ≡ 32) where
    length-Root : (items : List Bytes) (h : Bytes) → Root items h → length h ≡ 32
    length-Root items _ empty = length-sha256 []
    length-Root items _ (leaf d) = length-sha256 (0 ∷ d)
    length-Root items _ (node _ left right l r s e a b) = length-sha256 (1 ∷ (l ++ r))

    Root-same :
        (xs ys : List Bytes) (h h' : Bytes)
        → Root xs h
        → Root ys h'
        → h ≡ h'
        → (xs ≡ ys) ⊎ Collision
    Root-same _ _ _ _ empty empty e = inl refl
    Root-same _ _ _ _ empty (leaf d) e = inr (apart [] (0 ∷ d) (λ h. omega arith) e)
    Root-same _ _ _ _ empty (node ys left right l r s w a b) e =
        inr (apart [] (1 ∷ (l ++ r)) (λ h. omega arith) e)
    Root-same _ _ _ _ (leaf d) empty e = inr (apart (0 ∷ d) [] (λ h. omega arith) e)
    Root-same _ _ _ _ (leaf d) (leaf d') e = elim (same-or-Collision (0 ∷ d) (0 ∷ d') e) [
      | inl same ↦ inl (ap (λ b. tail b ∷ []) same)
      | inr c ↦ inr c
    ]
    Root-same _ _ _ _ (leaf d) (node ys left right l r s w a b) e =
        inr (apart (0 ∷ d) (1 ∷ (l ++ r)) (λ h. omega arith) e)
    Root-same _ _ _ _ (node xs left right l r s w a b) empty e =
        inr (apart (1 ∷ (l ++ r)) [] (λ h. omega arith) e)
    Root-same _ _ _ _ (node xs left right l r s w a b) (leaf d) e =
        inr (apart (1 ∷ (l ++ r)) (0 ∷ d) (λ h. omega arith) e)
    Root-same _ _ _ _ (node xs left right l r s w a b) (node ys left' right' l' r' s' w' a' b') e =
        elim (same-or-Collision (1 ∷ (l ++ r)) (1 ∷ (l' ++ r')) e) [
          | inr c ↦ inr c
          | inl same ↦
              let (el, er) =
                append-parts l l' r r' (length-Root left l a ∙ sym (length-Root left' l' a'))
                  (ap tail same) in
              elim (Root-same left left' l l' a a' el) [
                | inr c ↦ inr c
                | inl lefts ↦ elim (Root-same right right' r r' b b' er) [
                  | inr c ↦ inr c
                  | inl rights ↦
                      inl (w ∙ ap (λ x. x ++ right) lefts ∙ ap (λ x. left' ++ x) rights ∙ sym w')
                ]
              ]
        ]

    -- Where SHA-256 gives 32 bytes, two rows of fewer than 2 ^ 63 items with the same hash are the same row, or two
    -- different inputs of SHA-256 with the same output are found.
    pub hash_from_byte_slices-same :
        (xs ys : List Bytes)
        → length xs < two_63
        → length ys < two_63
        → hash_from_byte_slices sha256 xs ≡ hash_from_byte_slices sha256 ys
        → (xs ≡ ys) ⊎ Collision
    hash_from_byte_slices-same xs ys fx fy e =
        let (h, eh, a) = hash_from_byte_slices_lem xs fx in
        let (h', eh', b) = hash_from_byte_slices_lem ys fy in
        Root-same xs ys h h' a b (ap (or_none []) (sym eh ∙ e ∙ eh'))

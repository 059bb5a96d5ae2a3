-- ===== src/Tests/Prefix.antt =====
-- The prefix store of prefix/store.go over a list with a key inside the prefix and one outside.
use melodiasdk_io_store.Prelude.{
  ◌≡◌, refl, true, [], ◌∷◌, some, none, ok, arith, Bool-cases, inl, inr, subst, sym,
}
use melodiasdk_io_store.Bytes.{Bytes, IsBytes, compare_bytes, bytes_eq}
use melodiasdk_io_store.Bytes.Order.{compare_dir, compare_bytes_eq}
use melodiasdk_io_store.Sorted.{find}
use melodiasdk_io_store.Iterator.{Iter}
use melodiasdk_io_store.Types.KvStore.{Iterates, is_inverted}
use melodiasdk_io_store.Prefix.{Store, PrefixIterator, set, iterator, collect_all}
use melodiasdk_io_store.Prefix.Writes
use melodiasdk_io_store.Prefix.Writes.{view, Wrote}
use melodiasdk_io_store.Prefix.Iterate
use melodiasdk_io_store.Prefix.Iterate.{HasByteKeys}
use melodiasdk_io_store.Tests.Model.{list_store, Live}

-- The keys 1 2 and 3.
abbrev entries : Live
entries = (
  (1 ∷ 2 ∷ [], some (8 ∷ [])) ∷ (3 ∷ [], some (9 ∷ [])) ∷ [],
  unfold compare_dir compare_bytes in ((refl, tt), (tt, tt)),
  (refl, (refl, tt)),
)

abbrev store : Store list_store
store = record { parent = entries; prefix = 1 ∷ [] }

set-Wrote_example :
    (s' : Store list_store) × (set list_store store (some (5 ∷ [])) (some (6 ∷ [])) ≡ ok s')
    × Wrote list_store store (5 ∷ []) (some (6 ∷ [])) s'
set-Wrote_example =
    Writes.set-Wrote list_store store (5 ∷ []) (6 ∷ []) tt (omega arith) (omega arith) (omega arith)

entries-HasByteKeys : HasByteKeys list_store entries
unfolding find compare_dir
entries-HasByteKeys k h = elim (Bool-cases (bytes_eq k (1 ∷ 2 ∷ []))) [
  | inl e ↦
      subst (λ j. IsBytes j) (sym (compare_bytes_eq k (1 ∷ 2 ∷ []) (ground arith)))
        (omega arith, (omega arith, tt))
  | inr e ↦ elim (Bool-cases (bytes_eq k (3 ∷ []))) [
    | inl e' ↦
        subst (λ j. IsBytes j) (sym (compare_bytes_eq k (3 ∷ []) (ground arith))) (omega arith, tt)
    | inr e' ↦ absurd (ground arith)
  ]
]

prefix_iteration_example :
    (it : PrefixIterator) × (s' : Store list_store) × (r : Iter) × (iterator list_store store none
        none true
      ≡ ok (it, s'))
    × (collect_all it ≡ ok r)
    × list_store.IsOk s'.parent
    × ((j : Bytes) → list_store.view s'.parent j ≡ list_store.view store.parent j)
    × Iterates true (view list_store store) none none r
prefix_iteration_example =
    Iterate.prefix_iteration list_store store none none true tt (omega arith) (omega arith, tt)
      entries-HasByteKeys (unfold is_inverted in refl)

-- ===== src/Tests/InterBlock.antt =====
-- The cache of cache/cache.go over a list, with a cache that drops nothing.
use melodiasdk_io_store.Prelude.{
  ◌≡◌, refl, sym, ap, inr, List, [], ◌∷◌, Option, none, some, ok, arith, if◌then◌else◌,
}
use melodiasdk_io_store.Bytes.{Bytes, Slice, bytes_eq}
use melodiasdk_io_store.InterBlock.{ArcCache, StoreCache}
use melodiasdk_io_store.InterBlock.Coherence
use melodiasdk_io_store.InterBlock.Coherence.{
  Call, get_call, set_call, delete_call, run, run_parent, IsCoherent,
}
use melodiasdk_io_store.Tests.Model.{list_store, Live}

abbrev Held : Type 0
Held = Bytes → Option Slice

abbrev at_key : Bytes → Option Held → Option Slice
at_key j none = none
at_key j (some c) = c j

abbrev keep_all : ArcCache
keep_all = record {
  State = Held;
  held = λ c j. c j;
  new_arc = λ n. some (λ j. none);
  get_arc = λ c k. (c k, c);
  add = λ c k v j. if bytes_eq j k then some v else c j;
  remove = λ c k j. if bytes_eq j k then none else c j;
  new_arc_lem = λ n c j e. sym (ap (at_key j) e);
  get_arc_lem = λ c k. refl;
  get_arc-held = λ c k j. refl;
  add_lem = λ c k j v. inr refl;
  remove_lem = λ c k j. refl;
}

abbrev entries : Live
entries = ((3 ∷ [], some (9 ∷ [])) ∷ [], (tt, tt), (refl, tt))

abbrev cached : StoreCache list_store keep_all
cached = record { parent = entries; cache = λ j. none }

abbrev calls : List Call
calls =
    get_call (3 ∷ []) (omega arith)
    ∷ set_call (3 ∷ []) (5 ∷ []) (omega arith) (omega arith)
    ∷ get_call (3 ∷ []) (omega arith)
    ∷ delete_call (3 ∷ []) (omega arith)
    ∷ get_call (3 ∷ []) (omega arith)
    ∷ []

run-run_parent_example :
    (vs : List Slice) × (t : StoreCache list_store keep_all) × (run list_store keep_all calls cached
      ≡ (ok vs, t))
    × (run_parent list_store keep_all calls entries ≡ ok (vs, t.parent))
    × IsCoherent list_store keep_all t
run-run_parent_example =
    Coherence.run-run_parent list_store keep_all calls cached
      (tt, λ j w e. absurd (ground (arith, e)))

-- ===== src/Tests/Model.antt =====
-- Concrete values of the interfaces: a tree of the kind of `btree.BTreeG` as a sorted list, the range
-- test of `dbm.IsKeyInDomain`, and a store over a sorted list as a parent.
use mathlib.Core.List.{reverse_aux}
use melodiasdk_io_store.Prelude.{
  ◌≡◌, refl, sym, Bool, true, false, [], ◌∷◌, Option, none, some, Result, ok, panic, arith, not,
  reverse, if◌then◌else◌, nil_tree, value_nil,
}
use melodiasdk_io_store.Bytes.{Bytes, Slice, bytes_eq}
use melodiasdk_io_store.Bytes.Order.{direction, compare_dir, compare_bytes-flip}
use melodiasdk_io_store.Sorted.{find, IsSorted}
use melodiasdk_io_store.Sorted.Range.{skip_while}
use melodiasdk_io_store.Sorted.Reverse.{reverse-IsSorted, find-reverse}
use melodiasdk_io_store.Sorted.Insert.{
  insert, erase, keep, insert-IsSorted, find-insert, erase-IsSorted, find-erase, keep-IsSorted,
  find-keep,
}
use melodiasdk_io_store.Iterator.{Item, Iter, is_valid, IsNonNil, join}
use melodiasdk_io_store.Types.KvStore.{KvStore, KeyDomain, in_domain, Iterates}
use melodiasdk_io_store.CacheKv.BTree.{BTreeG, rest, is_before}

abbrev pub key_domain : KeyDomain
key_domain = record { is_key_in_domain = in_domain; domain_lem = λ k s e. refl }

abbrev Ordered : Type 0
Ordered = (l : Iter) × IsSorted (direction true) l

-- The heads of what lies ahead and of what lies back are the current item.
abbrev Agree : Iter → Iter → Type 0
Agree [] bs = Unit
Agree (x ∷ l) [] = Unit
Agree (x ∷ l) (y ∷ m) = x ≡ y

pub record Zipper : Type 0 where
  all : Iter
  ahead : Iter
  back : Iter
  agree : Agree ahead back

abbrev first_or : Item → Iter → Item
first_or d [] = d
first_or d (x ∷ l) = x

abbrev current : Zipper → Item
current c = first_or (first_or ([], none) c.back) c.ahead

abbrev seek_back : Iter → Iter → Iter
seek_back [] m = []
seek_back (x ∷ l) m = x ∷ m

pub seek-Agree : (l m : Iter) → Agree l (seek_back l m)
seek-Agree [] m = tt
seek-Agree (x ∷ l) m = refl

pub Agree-nil : (l : Iter) → Agree l []
Agree-nil [] = tt
Agree-nil (x ∷ l) = tt

pub rest-seek_back : (l m : Iter) → is_valid l ≡ true → rest (seek_back l m) ≡ m
rest-seek_back [] m h = absurd (ground arith)
rest-seek_back (x ∷ l) m h = refl

abbrev seek : Bytes → Zipper → Bool × Zipper
seek k c =
    let l = skip_while (is_before k) c.all in
    let m = skip_while (λ j. not (is_before k j)) (reverse c.all) in
    (is_valid l, record { all = c.all; ahead = l; back = seek_back l m; agree = seek-Agree l m })

pub current-back : (c : Zipper) (x : Item) (l : Iter) → c.back ≡ x ∷ l → current c ≡ x
current-back c x l h = by_ahead c.ahead c.back c.agree h
  where
    by_ahead : (a m : Iter) → Agree a m → m ≡ x ∷ l → first_or (first_or ([], none) m) a ≡ x
    by_ahead [] m g e = rw e
    by_ahead (y ∷ a) [] g e = absurd (ground arith)
    by_ahead (y ∷ a) (z ∷ m) g e = ground arith

abbrev copy : Option Ordered → Result Ordered
copy none = panic nil_tree
copy (some t) = ok t

pub find-insert_bytes :
    (k j : Bytes) (v : Slice) (l : Iter)
    → IsSorted (direction true) l
    → find (direction true) j (insert (direction true) k v l)
      ≡ (if bytes_eq j k then some v else find (direction true) j l)
unfolding compare_dir
find-insert_bytes k j v l s = find-insert (direction true) k j v l s

pub find-erase_bytes :
    (k j : Bytes) (l : Iter)
    → find (direction true) j (erase (direction true) k l)
      ≡ (if bytes_eq j k then none else find (direction true) j l)
unfolding compare_dir
find-erase_bytes k j l = find-erase (direction true) k j l

abbrev pub list_tree : BTreeG
list_tree = record {
  Tree = Ordered;
  Cursor = Zipper;
  items = λ t. t.0;
  new_tree = ([], tt);
  set_item =
      λ t k v. (insert (direction true) k v t.0, insert-IsSorted (direction true) k v t.0 t.1);
  get_item = λ t k. find (direction true) k t.0;
  delete_item = λ t k. (erase (direction true) k t.0, erase-IsSorted (direction true) k t.0 t.1);
  copy_tree = copy;
  all = λ c. c.all;
  ahead = λ c. c.ahead;
  back = λ c. c.back;
  iter = λ t. record { all = t.0; ahead = []; back = []; agree = tt };
  first = λ c.
      (is_valid c.all, record { all = c.all; ahead = c.all; back = []; agree = Agree-nil c.all });
  last =
      λ c. (is_valid c.all, record { all = c.all; ahead = []; back = reverse c.all; agree = tt });
  seek = seek;
  next_item = λ c. (
    is_valid (rest c.ahead),
    record { all = c.all; ahead = rest c.ahead; back = []; agree = Agree-nil (rest c.ahead) },
  );
  prev_item = λ c.
      (is_valid (rest c.back), record { all = c.all; ahead = []; back = rest c.back; agree = tt });
  item = current;
  items-IsSorted = λ t. t.1;
  items-new = refl;
  find-set = λ t k j v. find-insert_bytes k j v t.0 t.1;
  find-delete = λ t k j. find-erase_bytes k j t.0;
  get_lem = λ t k. refl;
  copy_lem = λ t. (t, refl, refl);
  all-iter = λ t. refl;
  first_lem = λ c. (refl, refl);
  last_lem = λ c. (refl, refl);
  seek_lem = λ k c. (refl, refl, refl, rest-seek_back _ _);
  next_lem = λ c. (refl, refl);
  prev_lem = λ c. (refl, refl);
  item-ahead = λ c x l h. rw h;
  item-back = current-back;
}

-- A store over a sorted list of live entries.
abbrev pub Live : Type 0
Live = (l : Iter) × IsSorted (direction true) l × IsNonNil l

pub insert-IsNonNil :
    (k v : Bytes) (l : Iter) → IsNonNil l → IsNonNil (insert (direction true) k (some v) l)
unfolding insert
insert-IsNonNil k v [] h = (refl, tt)
insert-IsNonNil k v ((j, w) ∷ l) h = ground (arith, insert-IsNonNil k v l h.1)

pub erase-IsNonNil : (k : Bytes) (l : Iter) → IsNonNil l → IsNonNil (erase (direction true) k l)
unfolding erase
erase-IsNonNil k [] h = tt
erase-IsNonNil k ((j, w) ∷ l) h = ground (arith, erase-IsNonNil k l h.1)

pub keep-IsNonNil :
    (asc : Bool) (p : Bytes → Bool) (l : Iter) → IsNonNil l → IsNonNil (keep (direction asc) p l)
unfolding keep
keep-IsNonNil asc p [] h = tt
keep-IsNonNil asc p ((j, w) ∷ l) h = ground (arith, keep-IsNonNil asc p l h.1)

pub reverse_aux-IsNonNil : (l m : Iter) → IsNonNil l → IsNonNil m → IsNonNil (reverse_aux l m)
reverse_aux-IsNonNil [] m hl hm = hm
reverse_aux-IsNonNil ((k, v) ∷ l) m hl hm = reverse_aux-IsNonNil l ((k, v) ∷ m) hl.1 (hl.0, hm)

pub opposite : (i j : Bytes) → compare_dir false i j ≡ compare_dir true j i
unfolding compare_dir
opposite i j = sym (compare_bytes-flip i j)

abbrev directed : Bool → Iter → Iter
directed true l = l
directed false l = reverse l

abbrev listed : Live → Slice → Slice → Bool → Iter
listed s start end asc = keep (direction asc) (λ k. in_domain k start end) (directed asc s.0)

pub listed-Iterates :
    (s : Live) (start end : Slice) (asc : Bool)
    → Iterates asc (λ k. join (find (direction true) k s.0)) start end (listed s start end asc)
listed-Iterates s start end true = record {
  sorted = keep-IsSorted (direction true) (λ k. in_domain k start end) s.0 s.1;
  non_nil = keep-IsNonNil true (λ k. in_domain k start end) s.0 s.2;
  exact = λ k. ground (arith, find-keep (direction true) (λ j. in_domain j start end) k s.0);
}
listed-Iterates s start end false = record {
  sorted =
      keep-IsSorted (direction false) (λ k. in_domain k start end) (reverse s.0)
        (reverse-IsSorted (direction true) (direction false) opposite s.0 s.1);
  non_nil =
      keep-IsNonNil false (λ k. in_domain k start end) (reverse s.0)
        (reverse_aux-IsNonNil s.0 [] s.2 tt);
  exact = λ k. ground (
    arith,
    find-keep (direction false) (λ j. in_domain j start end) k (reverse s.0),
    find-reverse (direction true) (direction false) opposite k s.0 s.1,
  );
}

abbrev pub insert_live : Bytes → Bytes → Live → Live
insert_live k v s = (
  insert (direction true) k (some v) s.0,
  insert-IsSorted (direction true) k (some v) s.0 s.1,
  insert-IsNonNil k v s.0 s.2,
)

abbrev set_live : Live → Bytes → Slice → Result Live
set_live s k none = panic value_nil
set_live s k (some v) = ok (insert_live k v s)

abbrev delete_live : Live → Bytes → Live
delete_live s k = (
  erase (direction true) k s.0,
  erase-IsSorted (direction true) k s.0 s.1,
  erase-IsNonNil k s.0 s.2,
)

pub join-insert :
    (k j v : Bytes) (l : Iter)
    → IsSorted (direction true) l
    → join (find (direction true) j (insert (direction true) k (some v) l))
      ≡ (if bytes_eq j k then some v else join (find (direction true) j l))
join-insert k j v l s = ground (arith, find-insert_bytes k j (some v) l s)

pub join-erase :
    (k j : Bytes) (l : Iter)
    → join (find (direction true) j (erase (direction true) k l))
      ≡ (if bytes_eq j k then none else join (find (direction true) j l))
join-erase k j l = ground (arith, find-erase_bytes k j l)

abbrev pub list_store : KvStore
list_store = record {
  State = Live;
  IsOk = λ s. Unit;
  view = λ s k. join (find (direction true) k s.0);
  get = λ s k. ok (join (find (direction true) k s.0));
  set = set_live;
  delete = λ s k. ok (delete_live s k);
  iterator = λ s start end asc. ok (listed s start end asc, s);
  failed_set = λ s k v. s;
  failed_delete = λ s k. s;
  failed_iterator = λ s start end asc. s;
  get_lem = λ s k o h. refl;
  set_lem = λ s k v o hk hv. (insert_live k v s, refl, tt, λ j. join-insert k j v s.0 s.1);
  delete_lem = λ s k o hk. (delete_live s k, refl, tt, λ j. join-erase k j s.0);
  iterator_lem = λ s start end asc o h.
      (listed s start end asc, s, refl, tt, λ j. refl, listed-Iterates s start end asc);
}

-- ===== src/CacheKv/MemIterator/Range.antt =====
-- What the iterator of cachekv/internal/memiterator.go visits: the part of the tree in the range.
use mathlib.Core.List.{reverse_aux}
use melodiasdk_io_store.Prelude.{
  ℕ, zero, suc, ◌<◌, ◌≤◌, length-reverse, ◌≡◌, refl, ◌∙◌, sym, ap, Bool, true, false, [], ◌∷◌, none,
  some, ok, not, if◌then◌else◌, Bool-cases, inl, inr, arith, length, reverse, ◌&&◌,
}
use melodiasdk_io_store.Bytes.{Bytes, Slice}
use melodiasdk_io_store.Bytes.Order.{
  direction, compare_dir, compare_bytes_trans, compare_bytes-flip,
}
use melodiasdk_io_store.Sorted.{find, IsSorted}
use melodiasdk_io_store.Sorted.Range.{
  skip_while, skip_while-length, skip_while-reverse, take_while, IsInitial, find-skip_while,
  find-take_while, skip_while-IsSorted, take_while-IsSorted,
}
use melodiasdk_io_store.Sorted.Reverse.{reverse-IsSorted, find-reverse}
use melodiasdk_io_store.Iterator.{Item, Iter, is_valid}
use melodiasdk_io_store.Types.KvStore.{in_domain}
use melodiasdk_io_store.CacheKv.BTree.{BTreeG, rest, is_before}
use melodiasdk_io_store.CacheKv.MemIterator.{
  MemIterator, in_range, start_cursor, check_range, new_mem_iterator, next, entries,
}

is_valid-reverse_aux : (l r : Iter) (x : Item) → is_valid (reverse_aux l (x ∷ r)) ≡ true
is_valid-reverse_aux [] r x = refl
is_valid-reverse_aux (y ∷ l) r x = is_valid-reverse_aux l (x ∷ r) y

is_valid-reverse : (l : Iter) → is_valid (reverse l) ≡ is_valid l
is_valid-reverse [] = refl
is_valid-reverse (x ∷ l) = is_valid-reverse_aux l [] x

module _ (b : BTreeG) where
  abbrev view : Bool → b.Cursor → Iter
  view asc c = if asc then b.ahead c else b.back c

  -- The iterator is valid exactly if the head of the list is in the range.
  abbrev starts : Bool → Slice → Slice → Iter → Bool
  starts asc start end [] = false
  starts asc start end ((k, v) ∷ l) = in_range b asc start end k

  item-view : (asc : Bool) (c : b.Cursor) (x : Item) (l : Iter) → view asc c ≡ x ∷ l → b.item c ≡ x
  item-view true c x l h = b.item-ahead c x l h
  item-view false c x l h = b.item-back c x l h

  check_range_lem :
      (asc : Bool) (start end : Slice) (r : Bool × b.Cursor) (l : Iter)
      → view asc r.1 ≡ l
      → r.0 ≡ is_valid l
      → (check_range b asc start end r).valid ≡ starts asc start end l
  check_range_lem asc start end r [] h e = rw e
  check_range_lem asc start end r ((k, v) ∷ l) h e =
      rw e (ap (λ (x : Item). in_range b asc start end x.0) (item-view asc r.1 (k, v) l h))

  abbrev moved : Bool → b.Cursor → Bool × b.Cursor
  moved asc c = if asc then b.next_item c else b.prev_item c

  moved_lem :
      (asc : Bool) (c : b.Cursor)
      → (view asc (moved asc c).1 ≡ rest (view asc c))
        × ((moved asc c).0 ≡ is_valid (rest (view asc c)))
  moved_lem true c = b.next_lem c
  moved_lem false c = b.prev_lem c

  next_valid :
      (m : MemIterator b)
      → m.valid ≡ true
      → next b m ≡ ok (check_range b m.ascending m.start m.end (moved m.ascending m.iter))
  unfolding next
  next_valid m h = rw h

  entries_lem :
      (f : ℕ) (m : MemIterator b) (l : Iter)
      → length l < f
      → view m.ascending m.iter ≡ l
      → m.valid ≡ starts m.ascending m.start m.end l
      → entries b f m ≡ ok (take_while (in_range b m.ascending m.start m.end) l)
  unfolding entries take_while
  entries_lem zero m l h e v = absurd (omega arith)
  entries_lem (suc f) m [] h e v = rw v
  entries_lem (suc f) m ((k, x) ∷ l) h e v =
      elim (Bool-cases (in_range b m.ascending m.start m.end k)) [
        | inl q ↦
            let vt : m.valid ≡ true = v ∙ q in
            let c = check_range b m.ascending m.start m.end (moved m.ascending m.iter) in
            let e' : view m.ascending (moved m.ascending m.iter).1 ≡ l =
              (moved_lem m.ascending m.iter).0 ∙ ap rest e in
            let e'' : (moved m.ascending m.iter).0 ≡ is_valid l =
              (moved_lem m.ascending m.iter).1 ∙ ap (λ (t : Iter). is_valid (rest t)) e in
            let ih =
              entries_lem f c l (omega arith) e'
                (check_range_lem m.ascending m.start m.end (moved m.ascending m.iter) l e' e'') in
            rw (next_valid m vt, ih, vt, q, item-view m.ascending m.iter (k, x) l e)
        | inr q ↦ ground arith
      ]

  -- What the start position of the cursor leaves to visit.
  abbrev from_start : Slice → Slice → Iter → Bool → Iter
  from_start (some s) end l true = skip_while (is_before s) l
  from_start none end l true = l
  from_start start (some e) l false = skip_while (λ j. not (is_before e j)) (reverse l)
  from_start start none l false = reverse l

  is_valid-false : (l : Iter) → is_valid l ≡ false → l ≡ []
  is_valid-false [] h = refl
  is_valid-false (x ∷ l) h = absurd (ground arith)

  -- `Seek(end)`, then `Prev`, or `Last` where no entry is at the end or behind it.
  abbrev descend : Bytes → b.Tree → Bool × b.Cursor
  descend e t = let (found, c) = b.seek e (b.iter t) in if found then b.prev_item c else b.last c

  descend_from :
      (e : Bytes) (t : b.Tree)
      → (b.back (descend e t).1 ≡ skip_while (λ j. not (is_before e j)) (reverse (b.items t)))
        × ((descend e t).0 ≡ is_valid (skip_while (λ j. not (is_before e j)) (reverse (b.items t))))
  descend_from e t = elim (Bool-cases (b.seek e (b.iter t)).0) [
    | inl q ↦
        ground (arith, b.seek_lem e (b.iter t), b.prev_lem (b.seek e (b.iter t)).1, b.all-iter t)
    | inr q ↦
        let (v, a, same, _) = b.seek_lem e (b.iter t) in
        let n =
          is_valid-false (skip_while (is_before e) (b.items t)) (ground (arith, b.all-iter t)) in
        ground (
          arith,
          same,
          b.last_lem (b.seek e (b.iter t)).1,
          b.all-iter t,
          is_valid-reverse (b.items t),
          skip_while-reverse (is_before e) (b.items t) n,
        )
  ]

  start_cursor_lem :
      (start end : Slice) (t : b.Tree) (asc : Bool)
      → (view asc (start_cursor b start end (b.iter t) asc).1
          ≡ from_start start end (b.items t) asc)
        × ((start_cursor b start end (b.iter t) asc).0
            ≡ is_valid (from_start start end (b.items t) asc))
  unfolding start_cursor
  start_cursor_lem (some s) end t true = ground (arith, b.seek_lem s (b.iter t), b.all-iter t)
  start_cursor_lem none end t true = ground (arith, b.first_lem (b.iter t), b.all-iter t)
  start_cursor_lem none (some e) t false = descend_from e t
  start_cursor_lem (some s) (some e) t false = descend_from e t
  start_cursor_lem none none t false =
      ground (arith, b.last_lem (b.iter t), b.all-iter t, is_valid-reverse (b.items t))
  start_cursor_lem (some s) none t false =
      ground (arith, b.last_lem (b.iter t), b.all-iter t, is_valid-reverse (b.items t))

  -- The tree's part that the iterator visits.
  abbrev pub visited : Slice → Slice → b.Tree → Bool → Iter
  visited start end t asc =
      take_while (in_range b asc start end) (from_start start end (b.items t) asc)

  from_start-length :
      (start end : Slice) (t : b.Tree) (asc : Bool)
      → length (from_start start end (b.items t) asc) ≤ length (b.items t)
  from_start-length (some s) end t true = skip_while-length (is_before s) (b.items t)
  from_start-length none end t true = omega arith
  from_start-length start (some e) t false = omega (
    arith,
    skip_while-length (λ j. not (is_before e j)) (reverse (b.items t)),
    length-reverse (b.items t),
  )
  from_start-length start none t false = omega (arith, length-reverse (b.items t))

  new_mem_iterator_lem :
      (start end : Slice) (t : b.Tree) (asc : Bool)
      → entries b (suc (length (b.items t))) (new_mem_iterator b start end t asc)
        ≡ ok (visited start end t asc)
  unfolding new_mem_iterator
  new_mem_iterator_lem start end t asc =
      let (e, v) = start_cursor_lem start end t asc in
      entries_lem (suc (length (b.items t)))
        (check_range b asc start end (start_cursor b start end (b.iter t) asc))
        (from_start start end (b.items t) asc) (omega (arith, from_start-length start end t asc)) e
        (check_range_lem asc start end (start_cursor b start end (b.iter t) asc)
          (from_start start end (b.items t) asc) e v)

  opposite : (i j : Bytes) → compare_dir false i j ≡ compare_dir true j i
  unfolding compare_dir
  opposite i j = sym (compare_bytes-flip i j)

  from_start-IsSorted :
      (start end : Slice) (t : b.Tree) (asc : Bool)
      → IsSorted (direction asc) (from_start start end (b.items t) asc)
  from_start-IsSorted (some s) end t true =
      skip_while-IsSorted (direction true) (is_before s) (b.items t) (b.items-IsSorted t)
  from_start-IsSorted none end t true = b.items-IsSorted t
  from_start-IsSorted start (some e) t false =
      skip_while-IsSorted (direction false) (λ j. not (is_before e j)) (reverse (b.items t))
        (reverse-IsSorted (direction true) (direction false) opposite (b.items t)
          (b.items-IsSorted t))
  from_start-IsSorted start none t false =
      reverse-IsSorted (direction true) (direction false) opposite (b.items t) (b.items-IsSorted t)

  before-IsInitial : (s : Bytes) → IsInitial (direction true) (is_before s)
  unfolding compare_dir
  before-IsInitial s i j h p = ground (arith, compare_bytes_trans i j s)

  not-before-IsInitial : (s : Bytes) → IsInitial (direction false) (λ j. not (is_before s j))
  unfolding compare_dir
  not-before-IsInitial s i j h p = ground (arith, compare_bytes_trans j i s, compare_bytes-flip i j)

  in_range-IsInitial :
      (asc : Bool) (start end : Slice) → IsInitial (direction asc) (in_range b asc start end)
  unfolding in_range
  in_range-IsInitial true start none i j h p = refl
  in_range-IsInitial true start (some e) i j h p = before-IsInitial e i j h p
  in_range-IsInitial false none end i j h p = refl
  in_range-IsInitial false (some s) end i j h p = not-before-IsInitial s i j h p

  -- The bound at which the cursor starts.
  abbrev passed : Slice → Slice → Bool → Bytes → Bool
  passed (some s) end true k = is_before s k
  passed none end true k = false
  passed start (some e) false k = not (is_before e k)
  passed start none false k = false

  find-from_start :
      (start end : Slice) (t : b.Tree) (asc : Bool) (k : Bytes)
      → find (direction asc) k (from_start start end (b.items t) asc)
        ≡ (if passed start end asc k then none else find (direction true) k (b.items t))
  find-from_start (some s) end t true k =
      find-skip_while (direction true) (is_before s) (before-IsInitial s) k (b.items t)
        (b.items-IsSorted t)
  find-from_start none end t true k = refl
  find-from_start start none t false k =
      find-reverse (direction true) (direction false) opposite k (b.items t) (b.items-IsSorted t)
  find-from_start start (some e) t false k =
      rw
        (find-skip_while (direction false) (λ j. not (is_before e j)) (not-before-IsInitial e) k
          (reverse (b.items t))
          (reverse-IsSorted (direction true) (direction false) opposite (b.items t)
            (b.items-IsSorted t)))
        (rw (
          find-reverse (direction true) (direction false) opposite k (b.items t)
            (b.items-IsSorted t)))

  in_domain_lem :
      (asc : Bool) (start end : Slice) (k : Bytes)
      → in_domain k start end ≡ (in_range b asc start end k && not (passed start end asc k))
  unfolding in_domain in_range
  in_domain_lem true none none k = refl
  in_domain_lem true none (some e) k = ground arith
  in_domain_lem true (some s) none k = ground arith
  in_domain_lem true (some s) (some e) k = ground arith
  in_domain_lem false none none k = refl
  in_domain_lem false none (some e) k = ground arith
  in_domain_lem false (some s) none k = ground arith
  in_domain_lem false (some s) (some e) k = ground arith

  -- The whole iteration of a new iterator over the tree: in its direction it visits exactly the
  -- entries of the tree whose keys lie in the range, deletions included, and it does not panic.
  pub mem_iteration :
      (start end : Slice) (t : b.Tree) (asc : Bool)
      → (items : Iter) × (entries b (suc (length (b.items t))) (new_mem_iterator b start end t asc)
          ≡ ok items)
        × IsSorted (direction asc) items
        × ((k : Bytes)
            → find (direction asc) k items
              ≡ (if in_domain k start end then find (direction true) k (b.items t) else none))
  mem_iteration start end t asc =
      let l = from_start start end (b.items t) asc in
      let sl = from_start-IsSorted start end t asc in
      (
        visited start end t asc,
        new_mem_iterator_lem start end t asc,
        take_while-IsSorted (direction asc) (in_range b asc start end) l sl,
        λ k. ground (
          arith,
          find-take_while (direction asc) (in_range b asc start end)
              (in_range-IsInitial asc start end) k l sl,
          find-from_start start end t asc k,
          in_domain_lem asc start end k,
        ),
      )

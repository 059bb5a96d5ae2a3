-- ===== src/MultiVersion/MvKv/Blocked.antt =====
-- Get of multiversion/mvkv.go on a key that is behind an estimate.
use melodiasdk_io_store.Prelude.{
  ℕ, ◌≡◌, ◌<◌, ◌≤◌, refl, sym, ap, ◌∙◌, true, [], ◌∷◌, ◌++◌, some, panic, arith, Option-cases,
  Bool-cases, inl, inr, estimate_read, length, ltb,
}
use melodiasdk_io_store.Bytes.{Bytes}
use melodiasdk_io_store.SyncMap.{load}
use melodiasdk_io_store.Types.KvStore.{KvStore}
use melodiasdk_io_store.Types.Validity.{IsKey}
use melodiasdk_io_store.MultiVersion.ValueItem.{ValueItem, is_estimate}
use melodiasdk_io_store.MultiVersion.Interface.{
  MultiVersionStore, err_read_estimate, new_estimate_abort,
}
use melodiasdk_io_store.MultiVersion.MvKv.{VersionIndexedStore, write_abort, get, get_version}
use melodiasdk_io_store.MultiVersion.MvKv.View.{
  is_estimated, latest, prepared, is_blocked, blocks-unread, get-get_cached, get_cached-unread,
}

module _ (p : KvStore) (m : MultiVersionStore) where
  -- A panic of Get behind the estimate of transaction `index`: only the abort channel and the preparation of the
  -- multiversion store have changed.
  pub record IsBlockedBy (s : VersionIndexedStore p m) (k : Bytes) (index : ℕ)
      (s' : VersionIndexedStore p m) : Type 0 where
    pub sent :
        length s.abort_channel < s.capacity
        → s'.abort_channel
          ≡ s.abort_channel ++ record { dependent_tx_idx = index; err = err_read_estimate } ∷ []
    pub discarded : s.capacity ≤ length s.abort_channel → s'.abort_channel ≡ s.abort_channel
    pub same_readset : s'.readset ≡ s.readset
    pub same_writeset : s'.writeset ≡ s.writeset
    pub same_iterateset : s'.iterateset ≡ s.iterateset
    pub same_parent : s'.parent ≡ s.parent
    pub store_prepared : s'.multi_version_store ≡ prepared p m s k

  write_abort-IsBlockedBy :
      (s : VersionIndexedStore p m) (k : Bytes) (index : ℕ)
      → IsBlockedBy s k index (
          write_abort p m
            (new_estimate_abort index)
            (record s { multi_version_store = prepared p m s k }))
  unfolding write_abort new_estimate_abort
  write_abort-IsBlockedBy s k index = elim (Bool-cases (ltb (length s.abort_channel) s.capacity)) [
    | inl room ↦ rw room (record {
      sent = λ lt. refl;
      discarded = λ le. absurd (ground (arith, room, le));
      same_readset = refl;
      same_writeset = refl;
      same_iterateset = refl;
      same_parent = refl;
      store_prepared = refl;
    })
    | inr full ↦ rw full (record {
      sent = λ lt. absurd (ground (arith, full, lt));
      discarded = λ le. refl;
      same_readset = refl;
      same_writeset = refl;
      same_iterateset = refl;
      same_parent = refl;
      store_prepared = refl;
    })
  ]

  -- `Get` of a blocked key panics. An abort with the index of the estimate is appended to the channel if it has room,
  -- and discarded if it is full; nothing is read or written.
  pub get-blocked :
      (s : VersionIndexedStore p m) (k : Bytes)
      → IsKey k
      → is_blocked p m s k ≡ true
      → (v : ValueItem) × (s' : VersionIndexedStore p m) × (latest p m s k ≡ some v)
        × (get p m k s ≡ (panic estimate_read, s'))
        × IsBlockedBy s k v.index s'
  unfolding get_version
  get-blocked s k h b = elim (Option-cases (load k s.writeset)) [
    | inr (v, w) ↦ absurd (ground (arith, w))
    | inl w ↦ elim (Option-cases (load k s.readset)) [
      | inr (vs, r) ↦ absurd (ground (arith, r))
      | inl r ↦ elim (Option-cases (latest p m s k)) [
        | inl e ↦ absurd (ground (arith, e))
        | inr (v, e) ↦
            let est : is_estimate v ≡ true =
              sym (ap is_estimated e) ∙ blocks-unread _ _ (latest p m s k) true w r b in
            (
              v,
              write_abort p m (new_estimate_abort v.index)
                  (record s { multi_version_store = prepared p m s k }),
              e,
              get-get_cached p m s k h ∙ get_cached-unread p m s k w r ∙ rw (e, est),
              write_abort-IsBlockedBy s k v.index,
            )
      ]
    ]
  ]

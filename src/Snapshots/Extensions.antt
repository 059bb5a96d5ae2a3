-- ===== src/Snapshots/Extensions.antt =====
-- snapshots/manager.go: the extensions of the snapshot manager, and how doRestoreSnapshot gives them the rest of the
-- stream. An extension's RestoreExtension is the calls of the payload reader that it makes and what it returns then; the
-- stream and the multistore are parameters, as the items that they give.
use melodiasdk_io_store.Prelude.{
  ℕ, zero, suc, ◌≡◌, ◌≢◌, if-not, refl, ap, ◌∙◌, Bool, true, false, List, [], ◌∷◌, Option, none,
  some, Result, ok, panic, no_fuel, ◌==◌, not, if◌then◌else◌, ◌||◌,
}
use melodiasdk_io_store.Bytes.{Bytes}
use melodiasdk_io_store.SyncMap.{SyncMap, load, store}
use melodiasdk_io_store.Snapshots.Chunk.{Error, eof, logic, unknown_format, failure}

-- `SnapshotItem`, as far as the manager looks at it; `no_item` is an empty one.
pub data Item : Type 0 where
  no_item other_item : Item
  extension_item : Bytes → ℕ → Item
  payload_item : Bytes → Item

-- What the payload reader gives: a payload, or an error.
pub data Payload : Type 0 where
  payload : Bytes → Payload
  no_payload : Error → Payload

-- An extension at work: it returns, or reads and goes on.
pub data Restorer : Type 0 where
  returns : Option Error → Restorer
  reads : (Payload → Restorer) → Restorer

pub record Extension : Type 0 where
  pub snapshot_format : ℕ
  pub supported_formats : List ℕ
  pub restore_extension : ℕ → ℕ → Restorer

unfoldable pub is_format_supported : List ℕ → ℕ → Bool
is_format_supported [] format = false
is_format_supported (i ∷ l) format = i == format || is_format_supported l format

-- One extension: the error is a `failure` with a number for its text.
unfoldable pub register_extension :
    Bytes → Extension → SyncMap Extension → Option Error × SyncMap Extension
unfolding is_format_supported
register_extension name extension m = elim (load name m) [
  | some e ↦ (some (failure 0), m)
  | none ↦
      if not (is_format_supported extension.supported_formats extension.snapshot_format)
      then (some (failure 1), m)
      else (none, store name extension m)
]

-- The next item and what is left of the stream.
pub record Stream : Type 0 where
  pub next_item : Item
  pub rest : List Item

-- The payload reader; at the end of the stream ReadMsg returns EOF, and the item was reset.
abbrev pub read_payload : List Item → Payload × Stream
read_payload [] = (no_payload eof, record { next_item = no_item; rest = [] })
read_payload (payload_item b ∷ l) = (payload b, record { next_item = payload_item b; rest = l })
read_payload (no_item ∷ l) = (no_payload eof, record { next_item = no_item; rest = l })
read_payload (other_item ∷ l) = (no_payload eof, record { next_item = other_item; rest = l })
read_payload (extension_item n f ∷ l) =
    (no_payload eof, record { next_item = extension_item n f; rest = l })

unfoldable pub run_restorer : Restorer → Stream → Option Error × Stream
run_restorer (returns err) s = (err, s)
run_restorer (reads k) s = let (p, s') = read_payload s.rest in run_restorer (k p) s'

-- The next round, unless a payload is left over: the error is then that of a nil error wrapped, which is nil.
abbrev pub after_item : (Stream → Result (Option Error)) → Stream → Item → Result (Option Error)
after_item next s (payload_item b) = ok none
after_item next s no_item = next s
after_item next s other_item = next s
after_item next s (extension_item name format) = next s

abbrev pub after_extension :
    (Stream → Result (Option Error)) → Option Error × Stream → Result (Option Error)
after_extension next (some e, s) = ok (some e)
after_extension next (none, s) = after_item next s s.next_item

abbrev pub restore_found :
    (Stream → Result (Option Error)) → ℕ → ℕ → Stream → Option Extension → Result (Option Error)
restore_found next height format s none = ok (some logic)
restore_found next height format s (some e) =
    if not (is_format_supported e.supported_formats format)
    then ok (some unknown_format)
    else after_extension next (run_restorer (e.restore_extension height format) s)

abbrev pub restore_item :
    SyncMap Extension → (Stream → Result (Option Error)) → ℕ → Stream → Item → Result (Option Error)
restore_item m next height s no_item = ok none
restore_item m next height s other_item = ok (some logic)
restore_item m next height s (payload_item b) = ok (some logic)
restore_item m next height s (extension_item name format) =
    restore_found next height format s (load name m)

-- The loop of doRestoreSnapshot on the stream that the multistore left.
unfoldable pub restore_items : ℕ → SyncMap Extension → ℕ → Stream → Result (Option Error)
unfolding run_restorer is_format_supported
restore_items zero m height s = panic no_fuel
restore_items (suc f) m height s = restore_item m (restore_items f m height) height s s.next_item

-- An extension at work on a stream whose next item is `next_item`.
abbrev pub start : Bytes → ℕ → List Item → Stream
start name format rest = record { next_item = extension_item name format; rest = rest }

-- Where an extension that is registered and supports the format returns without an error and leaves a payload as the
-- next item, doRestoreSnapshot returns no error either, whatever the rest of the stream holds.
pub restore_items-unread :
    (f height format : ℕ) (m : SyncMap Extension) (name b : Bytes) (rest left : List Item)
    (e : Extension)
    → load name m ≡ some e
    → is_format_supported e.supported_formats format ≡ true
    → run_restorer (e.restore_extension height format) (start name format rest)
      ≡ (none, record { next_item = payload_item b; rest = left })
    → restore_items (suc f) m height (start name format rest) ≡ ok none
unfolding restore_items
restore_items-unread f height format m name b rest left e registered supported run =
    ap (restore_found (restore_items f m height) height format (start name format rest)) registered
    ∙ if-not (is_format_supported e.supported_formats format) _ _ supported
    ∙ ap (after_extension (restore_items f m height)) run

-- One more round of the loop: an extension that reads to the item behind its payloads gives the loop that item.
pub restore_items-next :
    (f height format : ℕ) (m : SyncMap Extension) (name : Bytes) (rest left : List Item)
    (e : Extension) (item : Item)
    → load name m ≡ some e
    → is_format_supported e.supported_formats format ≡ true
    → run_restorer (e.restore_extension height format) (start name format rest)
      ≡ (none, record { next_item = item; rest = left })
    → ((b : Bytes) → item ≢ payload_item b)
    → restore_items (suc f) m height (start name format rest)
      ≡ restore_items f m height (record { next_item = item; rest = left })
unfolding restore_items
restore_items-next f height format m name rest left e item registered supported run h =
    ap (restore_found (restore_items f m height) height format (start name format rest)) registered
    ∙ if-not (is_format_supported e.supported_formats format) _ _ supported
    ∙ ap (after_extension (restore_items f m height)) run
    ∙ behind item h
  where
    behind :
        (item : Item)
        → ((b : Bytes) → item ≢ payload_item b)
        → after_item (restore_items f m height) (record { next_item = item; rest = left }) item
          ≡ restore_items f m height (record { next_item = item; rest = left })
    behind no_item h = refl
    behind other_item h = refl
    behind (extension_item n g) h = refl
    behind (payload_item b) h = absurd (h b refl)

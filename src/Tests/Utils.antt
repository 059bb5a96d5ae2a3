-- ===== src/Tests/Utils.antt =====
-- The key ranges and numbers of types/utils.go on concrete bytes.
use melodiasdk_io_store.Prelude.{◌≡◌, refl, [], ◌∷◌, some}
use melodiasdk_io_store.Types.Utils.{prefix_end_bytes, prefix_end_loop}

-- The last byte that is 255 is dropped, and the one before it is raised.
end_of_full_byte : prefix_end_bytes (7 ∷ 255 ∷ []) ≡ some (8 ∷ [])
unfolding prefix_end_bytes prefix_end_loop
end_of_full_byte = refl

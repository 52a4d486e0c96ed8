-- ===== src/Codec/Tests.antt =====
-- An integer of three significant bytes in a field of four.
use forkfs.Common.{◌≡◌, ◌∷◌, [], arith}
use forkfs.Codec.{store_le, load_le, load_le-store_le, store_le-load_le}

read_again : load_le (store_le 4 197121) ≡ 197121
read_again = load_le-store_le 4 197121 (omega arith)

stored_again : store_le 4 (load_le (1 ∷ 2 ∷ 3 ∷ 0 ∷ [])) ≡ (1 ∷ 2 ∷ 3 ∷ 0 ∷ [])
stored_again =
    store_le-load_le (1 ∷ 2 ∷ 3 ∷ 0 ∷ [])
      (omega arith, (omega arith, (omega arith, (omega arith, tt))))

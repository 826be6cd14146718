-- ===== src/Memory/Tests.antt =====
-- Runs of the memory functions.
use nascent_os.Prelude.{ℕ, ◌≡◌, refl, ◌+◌, ◌≤◌, ◌<◌, ◌⊎◌, inl, arith}
use nascent_os.Memory.Bytes.{memcopy_lem}
use nascent_os.Memory.{get_byte, set_byte, memset_loop, memset, memcopy_loop, memcopy}

set_then_get : get_byte (set_byte (λ a. 0x1122334455667788) 17 0xab) 17 ≡ 0xab
unfolding get_byte set_byte
set_then_get = refl

copies_bytes : get_byte (memcopy (memset (λ a. 0) 3 65 4) 4 18 2) 19 ≡ 65
unfolding get_byte set_byte memset memset_loop memcopy memcopy_loop
copies_bytes = refl

abbrev filled : ℕ → ℕ
filled a = 0x1122334455667788 + a

memcopy_lem_example :
    let mem' = memcopy filled 6 21 5 in
    ((i : ℕ) → i < 5 → get_byte mem' (21 + i) ≡ get_byte filled (6 + i))
    × ((b : ℕ) → (b < 21) ⊎ (21 + 5 ≤ b) → get_byte mem' b ≡ get_byte filled b)
memcopy_lem_example = memcopy_lem filled 6 21 5 (omega arith) (omega arith) (inl (omega arith))

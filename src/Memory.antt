-- ===== src/Memory.antt =====
-- sys/memset.c: the kernel memory by bytes. The memory is a function from the addresses of aligned 64-bit
-- words to words; a byte is a digit of its word to the base 256, the lowest one first.
pub mod Bytes
mod Tests
use nascent_os.Prelude.{ℕ, zero, suc, ◌+◌, ◌-◌, ◌*◌, ◌/◌, ◌%◌}
use nascent_os.Prelude.Word.{add64}
use nascent_os.Frames.{write}

-- The word that a byte stands in.
abbrev pub word_of : ℕ → ℕ
word_of a = a - a % 8

-- The byte at offset `k` of a word.
pub get_digit : ℕ → ℕ → ℕ
get_digit zero w = w % 256
get_digit (suc k) w = get_digit k (w / 256)

-- The word with another byte there.
pub set_digit : ℕ → ℕ → ℕ → ℕ
set_digit zero w v = w / 256 * 256 + v
set_digit (suc k) w v = set_digit k (w / 256) v * 256 + w % 256

pub get_byte : (ℕ → ℕ) → ℕ → ℕ
unfolding get_digit
get_byte mem a = get_digit (a % 8) (mem (word_of a))

-- `v` is converted to a byte.
unfoldable pub set_byte : (ℕ → ℕ) → ℕ → ℕ → ℕ → ℕ
unfolding set_digit
set_byte mem a v = write mem (word_of a) (set_digit (a % 8) (mem (word_of a)) (v % 256))

-- for (str_itr = i; str_itr < i + n; str_itr++)
pub memset_loop : ℕ → ℕ → (ℕ → ℕ) → ℕ → ℕ → ℕ → ℕ
memset_loop zero i mem p v = mem
memset_loop (suc n) i mem p v = memset_loop n (suc i) (set_byte mem (add64 p i) v) p v

-- `length_to_memset` is not negative.
pub memset : (ℕ → ℕ) → ℕ → ℕ → ℕ → ℕ → ℕ
memset mem string_to_memset char_to_memset_with length_to_memset =
    memset_loop length_to_memset 0 mem string_to_memset char_to_memset_with

-- for (i = i; i < i + n; i++)
pub memcopy_loop : ℕ → ℕ → (ℕ → ℕ) → ℕ → ℕ → ℕ → ℕ
memcopy_loop zero i mem source destination = mem
memcopy_loop (suc n) i mem source destination =
    memcopy_loop n (suc i) (set_byte mem (add64 destination i) (get_byte mem (add64 source i)))
      source destination

pub memcopy : (ℕ → ℕ) → ℕ → ℕ → ℕ → ℕ → ℕ
memcopy mem source destination size = memcopy_loop size 0 mem source destination

pub memcpy_uint_loop : ℕ → ℕ → (ℕ → ℕ) → ℕ → ℕ → ℕ → ℕ
memcpy_uint_loop zero i mem source destination = mem
memcpy_uint_loop (suc n) i mem source destination =
    memcpy_uint_loop n (suc i) (write mem (add64 destination (8 * i)) (mem (add64 source (8 * i))))
      source destination

-- The pointers are to aligned words.
pub memcpy_uint : (ℕ → ℕ) → ℕ → ℕ → ℕ → ℕ → ℕ
memcpy_uint mem source destination size = memcpy_uint_loop size 0 mem source destination

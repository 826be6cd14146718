-- ===== src/Malloc/Tests.antt =====
-- Runs of malloc and free.
use nascent_os.Prelude.{
  ℕ, ◌+◌, ◌≢◌, inr, arith, ◌==◌, if◌then◌else◌, ◌≡◌, refl, [], ◌∷◌, Option, none, some,
}
use nascent_os.Malloc.Ring.{free-malloc}
use nascent_os.Malloc.{units_of, Heap, malloc, morecore, free, search}

abbrev empty : Heap
empty = record { ptr = λ a. 0; size = λ a. 0; freeptr = none; chunks = 4096 ∷ [] }

abbrev result : Option (ℕ × Heap) → Option ℕ
result none = none
result (some (p, h)) = some p

-- The first block of 40 bytes: its header is the 1021st of a page that has 256.
first_block : result (malloc 10 empty 16 40) ≡ some 5117
unfolding malloc morecore free search
first_block = refl

-- base and one free block of 1024 headers
abbrev ring : Heap
ring = record {
  ptr = λ a. if a == 16 then 4096 else 16;
  size = λ a. if a == 4096 then 1024 else 0;
  freeptr = some 16;
  chunks = [];
}

free-malloc_example :
    (a : ℕ) × (h1 h2 : Heap) × (malloc 1 ring 16 40 ≡ some (a, h1))
    × (free 2 h1 a ≡ some h2)
    × (h2.freeptr ≡ some 4096)
    × ((x : ℕ) → x + 1 ≢ a → (h2.ptr x ≡ ring.ptr x) × (h2.size x ≡ ring.size x))
unfolding units_of
free-malloc_example =
    free-malloc 0 0 ring 16 40 16 refl (omega arith) (omega arith) (inr (omega arith))

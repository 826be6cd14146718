-- ===== src/Malloc.antt =====
-- libc/malloc.c: the allocator of the user programs. An address is counted in headers, which are 16 bytes, so
-- that `p + n` on a `MHeader *` is the sum. The header at an address is its two fields; the free blocks are a
-- ring.
pub mod Ring
mod Tests
use nascent_os.Prelude.{
  ℕ, zero, suc, ◌+◌, ◌-◌, ◌/◌, List, [], ◌∷◌, Bool, false, ◌==◌, ltb, leb, ◌&&◌, ◌||◌, not,
  if◌then◌else◌, Option, none, some,
}
use nascent_os.Proc.TaskList.{◌>>=◌}

-- The headers, the start of the search, and the pages that `sbrk` is going to give, none of them after the
-- last one.
pub record Heap : Type 0 where
  pub ptr : ℕ → ℕ
  pub size : ℕ → ℕ
  pub freeptr : Option ℕ
  pub chunks : List ℕ

abbrev pub put : (ℕ → ℕ) → ℕ → ℕ → ℕ → ℕ
put f a v b = if b == a then v else f b

abbrev set_ptr : Heap → ℕ → ℕ → Heap
set_ptr h a v = record h { ptr = put h.ptr a v }

abbrev set_size : Heap → ℕ → ℕ → Heap
set_size h a v = record h { size = put h.size a v }

-- The place in the ring that `bp` belongs behind: `n` rounds of the loop from `p` on.
pub find_place : ℕ → Heap → ℕ → ℕ → Option ℕ
find_place zero h bp p = none
find_place (suc n) h bp p =
    let rest = find_place n h bp (h.ptr p) in
    if ltb p bp && ltb bp (h.ptr p)
    then some p
    else if leb (h.ptr p) p && (ltb p bp || ltb bp (h.ptr p))
    then some p
    else rest

-- The block joined with the one behind it, or linked to it.
join_upper : Heap → ℕ → ℕ → Heap
join_upper h bp p =
    let q = h.ptr p in
    if bp + h.size bp == q
    then set_ptr (set_size h bp (h.size bp + h.size q)) bp (h.ptr q)
    else set_ptr h bp q

join_lower : Heap → ℕ → ℕ → Heap
join_lower h bp p =
    if p + h.size p == bp
    then set_ptr (set_size h p (h.size p + h.size bp)) p (h.ptr bp)
    else set_ptr h p bp

pub insert : Heap → ℕ → ℕ → Heap
unfolding join_upper join_lower
insert h bp p = record (join_lower (join_upper h bp p) bp p) { freeptr = some p }

-- `none` is a loop without end within `n` rounds, or a search that begins at NULL.
pub free : ℕ → Heap → ℕ → Option Heap
unfolding insert find_place
free n h ap =
    h.freeptr >>= (λ start. find_place n h (ap - 1) start >>= (λ p. some (insert h (ap - 1) p)))

-- The page at `up` becomes a block, of at least 1024 headers, and is freed.
grow : ℕ → Heap → ℕ → List ℕ → Option (ℕ × Heap)
grow n h num_u [] = none
grow n h num_u (up ∷ rest) =
    let units = if ltb num_u 1024 then 1024 else num_u in
    do
      h1 ← free n (set_size (record h { chunks = rest }) up units) (up + 1)
      p ← h1.freeptr
      some (p, h1)

-- `none` also if `sbrk` refuses: `malloc` then reads the next block through NULL.
pub morecore : ℕ → Heap → ℕ → Option (ℕ × Heap)
unfolding grow
morecore n h num_u = grow n h num_u h.chunks

-- The block at `p`, which is large enough, is taken, or its end: the block and the heap.
take_block : Heap → ℕ → ℕ → ℕ → ℕ × Heap
take_block h prevptr p nunits =
    let rest = h.size p - nunits in
    let block = p + rest in
    if h.size p == nunits
    then (p, record (set_ptr h prevptr (h.ptr p)) { freeptr = some prevptr })
    else (block, record (set_size (set_size h p rest) block nunits) { freeptr = some prevptr })

-- Behind the block that was taken: if it is where the search began, the heap grows all the same.
taken : ℕ → ℕ → ℕ → ℕ × Heap → Option (ℕ × Heap)
taken n nunits prevptr (block, h) =
    let grown = morecore n h nunits >>= (λ r. some (block + 1, r.1)) in
    if block == prevptr then grown else some (block + 1, h)

-- The loop over the ring, with `n` rounds left: what is returned, and the heap.
pub search : ℕ → ℕ → Heap → ℕ → ℕ → Option (ℕ × Heap)
unfolding taken take_block
search zero nunits h prevptr p = none
search (suc n) nunits h prevptr p =
    let found = taken n nunits prevptr (take_block h prevptr p nunits) in
    let again = morecore n h nunits >>= (λ r. search n nunits r.1 r.0 (r.1.ptr r.0)) in
    let next = search n nunits h p (h.ptr p) in
    let start : Bool = elim h.freeptr [ none ↦ false | some q ↦ p == q ] in
    if leb nunits (h.size p) then found else if start then again else next

-- The headers that a block of `nbytes` takes, its own included.
pub units_of : ℕ → ℕ
units_of nbytes = (nbytes + 16 - 1) / 16 + 1

-- The first call makes the ring of `base` alone.
start_ring : Heap → ℕ → Option ℕ → ℕ × Heap
start_ring h base (some p) = (p, h)
start_ring h base none =
    (base, record (set_size (set_ptr h base base) base 0) { freeptr = some base })

search_from : ℕ → ℕ → ℕ × Heap → Option (ℕ × Heap)
search_from n nunits (prevptr, h) = search n nunits h prevptr (h.ptr prevptr)

unfoldable pub malloc : ℕ → Heap → ℕ → ℕ → Option (ℕ × Heap)
unfolding start_ring search_from units_of
malloc n h base nbytes = search_from n (units_of nbytes) (start_ring h base h.freeptr)

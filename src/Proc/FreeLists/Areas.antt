-- ===== src/Proc/FreeLists/Areas.antt =====
-- A memory area is taken from the free list.
use nascent_os.Prelude.{ℕ, ◌≡◌, refl, ◌≢◌, Option, none, some, List, ◌∷◌, arith}
use nascent_os.Chain
use nascent_os.Chain.{
  Chain, counting, Above, Above-push, Distinct, has, last, last_mem, Distinct-snoc,
}
use nascent_os.Proc.{Proc, Vma, vma_anon}
use nascent_os.Proc.FreeLists.{set_vma, fetch_free_vma, get_free_vma}
use nascent_os.Proc.FreeLists.Laws.{vma_link, IsFreeVmas}

abbrev pub asked : ℕ → ℕ → ℕ → ℕ → ℕ → ℕ → Vma
asked start_addr end_addr vm_flags vmtype fsz base = record {
  start_addr = start_addr;
  end_addr = end_addr;
  next = none;
  prev = none;
  vm_flags = vm_flags;
  vmtype = vmtype;
  p_filesz = fsz;
  tarfs_base = base;
}

-- A memory area off the front of the list, as `v`.
abbrev taken_vma : Proc → ℕ → Vma → Proc
taken_vma s i v = set_vma (record s { free_vma_head = (s.vma i).next }) i v

-- What it means to take `i` as `v` from the list that goes on with `xs`.
abbrev pub TookVma : Proc → ℕ → List ℕ → Vma → Option ℕ × Proc → Type 0
TookVma s i xs v (r, s') =
    (r ≡ some i) × IsFreeVmas s' xs × (s'.vma i ≡ v) × ((j : ℕ) → j ≢ i → s'.vma j ≡ s.vma j)

taken_vma-TookVma :
    (s : Proc) (i : ℕ) (xs : List ℕ) (v : Vma)
    → IsFreeVmas s (i ∷ xs)
    → TookVma s i xs v (some i, taken_vma s i v)
taken_vma-TookVma s i xs v f = (
  refl,
  record {
    chain =
        Chain.frame some none (vma_link s) (vma_link (taken_vma s i v)) (vma_link s i) xs f.chain.1
          (λ a m. let ne : a ≢ i = λ q. cc (q, m, f.distinct.0) in ground arith);
    distinct = f.distinct.1;
  },
  ground arith,
  λ j ne. ground arith,
)

-- A free memory area is taken from the front of the list, with the bounds, the flags and the file that
-- were asked for and no neighbour; the list goes on behind it and every other area is as before. One
-- that is fetched without particulars is anonymous and empty.
pub fetch_free_vma_lem :
    (s : Proc) (i : ℕ) (xs : List ℕ) (start_addr end_addr vm_flags vmtype fsz base : ℕ)
    → IsFreeVmas s (i ∷ xs)
    → TookVma s i xs
        (asked start_addr end_addr vm_flags vmtype fsz base)
        (fetch_free_vma s start_addr end_addr vm_flags vmtype fsz base)
      × TookVma s i xs (asked 0 0 0 vma_anon 0 0) (get_free_vma s)
unfolding fetch_free_vma get_free_vma
fetch_free_vma_lem s i xs start_addr end_addr vm_flags vmtype fsz base f = rw f.chain.0 (
  taken_vma-TookVma s i xs (asked start_addr end_addr vm_flags vmtype fsz base) f,
  taken_vma-TookVma s i xs (asked 0 0 0 vma_anon 0 0) f,
)

-- With no area left a message is printed and NULL returned.
pub fetch_free_vma-none :
    (s : Proc) (start_addr end_addr vm_flags vmtype fsz base : ℕ)
    → s.free_vma_head ≡ none
    → (fetch_free_vma s start_addr end_addr vm_flags vmtype fsz base).0 ≡ none
unfolding fetch_free_vma
fetch_free_vma-none s start_addr end_addr vm_flags vmtype fsz base e = rw e refl

pub get_free_vma-tasks :
    (s : Proc) (i : ℕ) → s.free_vma_head ≡ some i → (get_free_vma s).1.pcb ≡ s.pcb
unfolding get_free_vma
get_free_vma-tasks s i e = rw e refl

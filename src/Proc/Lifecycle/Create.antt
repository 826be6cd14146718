-- ===== src/Proc/Lifecycle/Create.antt =====
-- A new process: its block, its page table and what that maps.

use nascent_os.Prelude.Int.{negsuc}
use mathlib.Core.Path.{subst}
use nascent_os.Tarfs.Files.{no_fd}
use nascent_os.Prelude.{
  ℕ, zero, suc, [], ◌≤◌, length, get_or, All, ◌+◌, ◌*◌, ◌^◌, ◌<◌, ◌≡◌, refl, ◌∙◌, ◌≢◌, none, some,
  List, ◌∷◌, arith,
}
use nascent_os.Prelude.Word.{add64, sub64}
use nascent_os.Chain
use nascent_os.Frames.{null, Frames, kernbase, write}
use nascent_os.Frames.Alloc.{
  struct_of, All-mem, IsFree, struct_vir, frame_vir, IsFreeList, Took, taken, taken-Took,
  page_alloc-taken,
}
use nascent_os.VirMem.Table.{Safe}
use nascent_os.Proc.{Fd, ready, Task, Proc, set_task}
use nascent_os.Proc.Lifecycle.{fresh_fds, Kernel, initialised, create_new_pml_table, fetch_free_pcb}
use nascent_os.Proc.FreeLists.Laws.{IsFreePcbs}
use nascent_os.Proc.TaskList.Queue.{link, state_of}

-- The frames after the new top table, in frame `b`, has the kernel's entry.
abbrev pub shared : Frames → ℕ → ℕ → Frames
shared f b kpml = record (taken f b) {
  mem = write (taken f b).mem (frame_vir b + 8 * 511) ((taken f b).mem (kpml + 8 * 511));
}

create-shared :
    (k : Kernel) (b : ℕ) (is : List ℕ)
    → IsFreeList k.frames (b ∷ is)
    → k.kpml_addr + 8 * 511 < 2 ^ 64
    → create_new_pml_table k ≡ (frame_vir b, record k { frames = shared k.frames b k.kpml_addr })
unfolding create_new_pml_table
create-shared k b is f l =
    let e = page_alloc-taken k.frames b f.placed f.free.0.0 f.chain.0 in
    let w1 : add64 (frame_vir b) (8 * 511) ≡ frame_vir b + 8 * 511 =
      omega (arith, f.placed.few, f.free.0) in
    let w2 : add64 k.kpml_addr (8 * 511) ≡ k.kpml_addr + 8 * 511 = omega arith in
    rw (e, w1, w2) refl

module _ (f : Frames) (b : ℕ) (is : List ℕ) (kpml : ℕ) (l : IsFreeList f (b ∷ is)) where
  took : Took f b is (taken f b)
  took = taken-Took f b is l

  shared-IsFreeList : IsFreeList (shared f b kpml) is
  shared-IsFreeList = record {
    placed = record { nonnull = l.placed.nonnull; few = l.placed.few; window = l.placed.window };
    chain =
        Chain.frame (struct_of f) null (λ j. (taken f b).mem (struct_vir f j))
          (λ j. (shared f b kpml).mem (struct_vir f j)) (f.mem (struct_vir f b)) is took.rest.chain
          (λ j m.
            let fj = All-mem (IsFree f) j is l.free.1 m in
            let ne : struct_vir f j ≢ frame_vir b + 8 * 511 = omega (arith, l.free.0, fj) in
            ground arith);
    free = l.free.1;
    distinct = l.distinct.1;
  }

  shared-zero : (o : ℕ) → o < 511 → (shared f b kpml).mem (frame_vir b + 8 * o) ≡ 0
  shared-zero o h =
      let z : (taken f b).mem (frame_vir b + 8 * o) ≡ 0 =
        took.cleared (frame_vir b + 8 * o) (omega arith) (omega arith) in
      let ne : frame_vir b + 8 * o ≢ frame_vir b + 8 * 511 = omega arith in ground (arith, z)

  shared-entry :
      Safe f (b ∷ is) (kpml + 8 * 511)
      → (shared f b kpml).mem (frame_vir b + 8 * 511) ≡ f.mem (kpml + 8 * 511)
  shared-entry sf =
      let ne : kpml + 8 * 511 ≢ struct_vir f b + 8 = omega (arith, sf.array, l.free.0) in
      let same = took.others (kpml + 8 * 511) ne sf.frames.0 in ground (arith, same)

-- What is left of the free blocks after the first one is taken as `t`.
abbrev pub taken_pcb : Proc → ℕ → Task → Proc
taken_pcb s i t = set_task (record s { free_pcb_head = link s i }) i t

taken_pcb-IsFreePcbs :
    (s : Proc) (i : ℕ) (fs : List ℕ) (t : Task)
    → IsFreePcbs s (i ∷ fs)
    → IsFreePcbs (taken_pcb s i t) fs
taken_pcb-IsFreePcbs s i fs t f = record {
  chain =
      Chain.frame some none (link s) (link (taken_pcb s i t)) (link s i) fs f.chain.1
        (λ a m. let ne : a ≢ i = λ q. cc (q, m, f.distinct.0) in ground arith);
  distinct = f.distinct.1;
  few = omega (arith, f.few);
}

-- The kernel with the new process in block `i`, its `mm_struct` in frame `a`, its top table in `b`.
abbrev pub created : Kernel → ℕ → ℕ → ℕ → Kernel
created k i a b = record k {
  frames = shared (taken k.frames a) b k.kpml_addr;
  proc = taken_pcb k.proc i (initialised (k.proc.pcb i) i (4096 * b));
}

fetch-created :
    (k : Kernel) (i a b : ℕ) (is : List ℕ)
    → k.proc.free_pcb_head ≡ some i
    → IsFreeList k.frames (a ∷ b ∷ is)
    → k.kpml_addr + 8 * 511 < 2 ^ 64
    → fetch_free_pcb k ≡ (some i, created k i a b)
unfolding fetch_free_pcb
fetch-created k i a b is h f l =
    let e1 = page_alloc-taken k.frames a f.placed f.free.0.0 f.chain.0 in
    let f1 = (taken-Took k.frames a (b ∷ is) f).rest in
    let p = record k.proc { free_pcb_head = link k.proc i } in
    let k1 = record k { frames = taken k.frames a; proc = p } in
    let e2 = create-shared k1 b is f1 l in
    let w : sub64 (frame_vir b) kernbase ≡ 4096 * b = omega (arith, f1.placed.few, f1.free.0) in
    rw (h, e1, e2, w) refl

-- The descriptors of a new process: ten, of which the first three are in use and the standard ones; the
-- others are free and of the other kind; nothing was read from any.
pub record StandardFds (ds : List Fd) : Type 0 where
  pub count : length ds ≡ 10
  pub standard :
      (i : ℕ) → i < 3 → ((get_or ds i no_fd).alloted ≡ 1) × ((get_or ds i no_fd).fdtype ≡ 1)
  pub free :
      (i : ℕ)
      → 3 ≤ i
      → i < 10
      → ((get_or ds i no_fd).alloted ≡ 0) × ((get_or ds i no_fd).fdtype ≡ 2)
  pub unread : (i : ℕ) → (get_or ds i no_fd).num_bytes_read ≡ 0

fresh_fds-StandardFds : StandardFds fresh_fds
fresh_fds-StandardFds = record { count = refl; standard = standard; free = free; unread = unread }
  where
    standard :
        (i : ℕ)
        → i < 3
        → ((get_or fresh_fds i no_fd).alloted ≡ 1) × ((get_or fresh_fds i no_fd).fdtype ≡ 1)
    standard zero l = (refl, refl)
    standard (suc zero) l = (refl, refl)
    standard (suc (suc zero)) l = (refl, refl)
    standard (suc (suc (suc i))) l = absurd (omega (arith, l))

    free :
        (i : ℕ)
        → 3 ≤ i
        → i < 10
        → ((get_or fresh_fds i no_fd).alloted ≡ 0) × ((get_or fresh_fds i no_fd).fdtype ≡ 2)
    free zero a b = absurd (omega (arith, a))
    free (suc zero) a b = absurd (omega (arith, a))
    free (suc (suc zero)) a b = absurd (omega (arith, a))
    free (suc (suc (suc zero))) a b = (refl, refl)
    free (suc (suc (suc (suc zero)))) a b = (refl, refl)
    free (suc (suc (suc (suc (suc zero))))) a b = (refl, refl)
    free (suc (suc (suc (suc (suc (suc zero)))))) a b = (refl, refl)
    free (suc (suc (suc (suc (suc (suc (suc zero))))))) a b = (refl, refl)
    free (suc (suc (suc (suc (suc (suc (suc (suc zero)))))))) a b = (refl, refl)
    free (suc (suc (suc (suc (suc (suc (suc (suc (suc zero))))))))) a b = (refl, refl)
    free (suc (suc (suc (suc (suc (suc (suc (suc (suc (suc i)))))))))) a b =
        absurd (omega (arith, b))

    unread_in :
        (ds : List Fd)
        → All (λ d. d.num_bytes_read ≡ 0) ds
        → (i : ℕ) → (get_or ds i no_fd).num_bytes_read ≡ 0
    unread_in [] h i = refl
    unread_in (d ∷ ds) h zero = h.0
    unread_in (d ∷ ds) h (suc i) = unread_in ds h.1 i

    unread : (i : ℕ) → (get_or fresh_fds i no_fd).num_bytes_read ≡ 0
    unread =
        unread_in fresh_fds
          (refl, (refl, (refl, (refl, (refl, (refl, (refl, (refl, (refl, (refl, tt))))))))))

-- A new process takes the first free block and the first two free frames, and the two lists go on behind them;
-- every other block is as before. Its pid is the index of the block, it has neither a parent nor a parent's pid,
-- it is ready, without a successor, with the three standard descriptors in use alone and no memory areas, and its page table, in a frame of its own, has the kernel's
-- entry and is empty otherwise. The kernel's entry has to lie where allocations spare it.
pub fetch_free_pcb_lem :
    (k : Kernel) (i a b : ℕ) (fs is : List ℕ)
    → IsFreePcbs k.proc (i ∷ fs)
    → IsFreeList k.frames (a ∷ b ∷ is)
    → k.kpml_addr + 8 * 511 < 2 ^ 64
    → Safe k.frames (a ∷ b ∷ is) (k.kpml_addr + 8 * 511)
    → let (r, k') = fetch_free_pcb k in
      (r ≡ some i)
      × IsFreePcbs k'.proc fs
      × IsFreeList k'.frames is
      × (((k'.proc.pcb i).pid ≡ i)
          × ((k'.proc.pcb i).ppid ≡ negsuc 0)
          × ((k'.proc.pcb i).parent_task ≡ none)
          × ((k'.proc.pcb i).task_mm.vma_head ≡ none)
          × (state_of k'.proc i ≡ ready)
          × (link k'.proc i ≡ none)
          × StandardFds (k'.proc.pcb i).fd_array
          × ((k'.proc.pcb i).regs.cr3 ≡ 4096 * b))
      × ((k'.frames.mem (frame_vir b + 8 * 511) ≡ k.frames.mem (k.kpml_addr + 8 * 511))
          × ((o : ℕ) → o < 511 → k'.frames.mem (frame_vir b + 8 * o) ≡ 0))
      × ((j : ℕ) → j ≢ i → k'.proc.pcb j ≡ k.proc.pcb j)
unfolding initialised
fetch_free_pcb_lem k i a b fs is p f l sf =
    let t1 = taken-Took k.frames a (b ∷ is) f in
    let s1 = taken k.frames a in
    let ne : k.kpml_addr + 8 * 511 ≢ struct_vir k.frames a + 8 =
      omega (arith, sf.array, f.free.0) in
    let same = t1.others (k.kpml_addr + 8 * 511) ne sf.frames.0 in
    let sf1 : Safe s1 (b ∷ is) (k.kpml_addr + 8 * 511) = record {
      array = sf.array;
      frames = sf.frames.1;
    } in
    rw (fetch-created k i a b is p.chain.0 f l) (
      refl,
      taken_pcb-IsFreePcbs k.proc i fs (initialised (k.proc.pcb i) i (4096 * b)) p,
      shared-IsFreeList s1 b is k.kpml_addr t1.rest,
      (
        ground arith,
        ground arith,
        ground arith,
        ground arith,
        ground arith,
        ground arith,
        subst StandardFds (ground arith) fresh_fds-StandardFds,
        ground arith,
      ),
      (
        shared-entry s1 b is k.kpml_addr t1.rest sf1 ∙ same,
        shared-zero s1 b is k.kpml_addr t1.rest,
      ),
      λ j nj. ground arith,
    )

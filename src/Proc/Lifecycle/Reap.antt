-- ===== src/Proc/Lifecycle/Reap.antt =====
-- A dead child is cleared and its block given back.
pub mod Cuts
use mathlib.Core.Path.{subst}
use nascent_os.Prelude.{
  ℕ, ◌<◌, ◌≡◌, refl, ap, sym, ◌∙◌, ◌≢◌, true, false, Option, none, some, List, [], ◌∷◌, ◌++◌, arith,
  ◌==◌, length, length-append,
}
use nascent_os.Chain
use nascent_os.Chain.{Chain, Distinct, has, has-append, last, last_mem}
use nascent_os.Prelude.{get_or, replicate, zero, suc}
use nascent_os.Prelude.Int.{pos, negsuc}
use nascent_os.Prelude.Word.{add64}
use nascent_os.Frames.{kernbase}
use nascent_os.VirMem.{clear_mapping}
use nascent_os.Tarfs.Files.{no_fd}
use nascent_os.Proc.{Proc, Task, Fd, ready, num_pcb, max_fds, set_task}
use nascent_os.Proc.Lifecycle.{Kernel, with_proc, cleared, fresh_fd, clear_pcb, reap}
use nascent_os.Proc.TaskList.{◌>>=◌}
use nascent_os.Proc.FreeLists.{append_in_free_list}
use nascent_os.Proc.FreeLists.Laws.{IsFreePcbs, returned, append-returned, append_in_free_list_lem}
use nascent_os.Proc.TaskList.Queue.{link, state_of, IsQueue}

-- The process manager after the block is cleared.
abbrev pub wiped : Proc → ℕ → Proc
wiped s t = set_task s t (cleared (s.pcb t))

wiped-link : (s : Proc) (t i : ℕ) → i ≢ t → link (wiped s t) i ≡ link s i
wiped-link s t i ne = ground arith

wiped_self : (s : Proc) (t : ℕ) → link (wiped s t) t ≡ none
unfolding cleared
wiped_self s t = ground arith

pub wiped-state : (s : Proc) (t : ℕ) → state_of (wiped s t) t ≡ ready
unfolding cleared
wiped-state s t = ground arith

pub wiped-IsFreePcbs :
    (s : Proc) (t : ℕ) (fs : List ℕ)
    → IsFreePcbs s fs
    → has t fs ≡ false
    → IsFreePcbs (wiped s t) fs
wiped-IsFreePcbs s t fs f out = record {
  chain =
      Chain.frame some none (link s) (link (wiped s t)) s.free_pcb_head fs f.chain
        (λ i m. wiped-link s t i (λ e. cc (e, m, out)));
  distinct = f.distinct;
  few = f.few;
}

-- The links after the block `t` is behind the free blocks `fs`.
returned-link :
    (s : Proc) (fs : List ℕ) (t i : ℕ)
    → i ≢ t
    → has i fs ≡ false
    → link (returned s fs t) i ≡ link s i
returned-link s [] t i ne out = ground arith
returned-link s (x ∷ xs) t i ne out =
    let nl : i ≢ last x xs = λ e. cc (e, last_mem x xs, out) in ground arith

pub returned_self : (s : Proc) (fs : List ℕ) (t : ℕ) → link (returned s fs t) t ≡ none
returned_self s [] t = ground arith
returned_self s (x ∷ xs) t = ground arith

pub returned-state :
    (s : Proc) (fs : List ℕ) (t i : ℕ) → state_of (returned s fs t) i ≡ state_of s i
returned-state s [] t i = ground arith
returned-state s (x ∷ xs) t i = ground arith

pub returned-list :
    (s : Proc) (fs : List ℕ) (t : ℕ) → (returned s fs t).overall_task_list ≡ s.overall_task_list
returned-list s [] t = refl
returned-list s (x ∷ xs) t = refl

-- The kernel after `t` is reaped.
abbrev pub reaped : Kernel → List ℕ → ℕ → Kernel
reaped k fs t = with_proc (clear_pcb k t) (returned (wiped k.proc t) fs t)

clear_pcb-wiped : (k : Kernel) (t : ℕ) → (clear_pcb k t).proc ≡ wiped k.proc t
unfolding clear_pcb
clear_pcb-wiped k t = refl

pub reap-reaped :
    (k : Kernel) (t : ℕ) (fs : List ℕ)
    → IsFreePcbs k.proc fs
    → has t fs ≡ false
    → reap k t ≡ some (reaped k fs t)
unfolding reap
reap-reaped k t fs f out =
    let e = append-returned (wiped k.proc t) t fs (wiped-IsFreePcbs k.proc t fs f out) in
    ap (λ p. append_in_free_list p t >>= (λ q. some (with_proc (clear_pcb k t) q)))
      (clear_pcb-wiped k t)
    ∙ ap (λ o. o >>= (λ q. some (with_proc (clear_pcb k t) q))) e

-- Every task of the list but `t` keeps its link.
pub reaped-link :
    (s : Proc) (fs : List ℕ) (t i : ℕ)
    → i ≢ t
    → has i fs ≡ false
    → link (returned (wiped s t) fs t) i ≡ link s i
reaped-link s fs t i ne out = returned-link (wiped s t) fs t i ne out ∙ wiped-link s t i ne

-- No block is in both lists.
abbrev pub Apart : List ℕ → List ℕ → Type 0
Apart xs fs = (i : ℕ) → has i xs ≡ true → has i fs ≡ false

-- What is left of a block that was cleared: no next, no parent, no name, no areas, no open file, no time to
-- sleep, and the first 64 words of its kernel stack are zero.
pub record IsBlank (t : Task) : Type 0 where
  pub no_parent : (t.ppid ≡ negsuc 0) × (t.parent_task ≡ none)
  pub no_next : t.next ≡ none
  pub state : t.task_state ≡ ready
  pub awake : t.sleep_sec ≡ pos 0
  pub no_name : (i : ℕ) → get_or t.filename i 0 ≡ 0
  pub no_areas : (t.task_mm.vma_head ≡ none) × (t.task_mm.count ≡ 0)
  pub no_files : (i : ℕ) → (get_or t.fd_array i no_fd).alloted ≡ 0
  pub stack : (w : ℕ) → w < 64 → t.kstack w ≡ 0

all_zero : (n i : ℕ) → let z : ℕ = 0 in get_or (replicate n z) i z ≡ z
all_zero zero i = refl
all_zero (suc n) zero = refl
all_zero (suc n) (suc i) = all_zero n i

all_closed : (n i : ℕ) (d : Fd) → d.alloted ≡ 0 → (get_or (replicate n d) i no_fd).alloted ≡ 0
all_closed zero i d z = refl
all_closed (suc n) zero d z = z
all_closed (suc n) (suc i) d z = all_closed n i d z

-- What the block keeps when it goes to the free list: all but its links.
abbrev linked_to : Task → Option ℕ → Task
linked_to t p = record t { next = none; prev = p }

cleared-IsBlank : (t : Task) (p : Option ℕ) → IsBlank (linked_to (cleared t) p)
unfolding cleared
cleared-IsBlank t p = record {
  no_parent = (refl, refl);
  no_next = refl;
  state = refl;
  awake = refl;
  no_name = all_zero 75;
  no_areas = (refl, refl);
  no_files = λ i. all_closed max_fds i (fresh_fd 0 0) refl;
  stack = λ w l. ground (arith, l);
}

returned_block :
    (s : Proc) (fs : List ℕ) (t : ℕ)
    → has t fs ≡ false
    → (p : Option ℕ) × ((returned s fs t).pcb t ≡ linked_to (s.pcb t) p)
returned_block s [] t out = ((s.pcb t).prev, ground arith)
returned_block s (x ∷ xs) t out =
    let n : t ≢ last x xs = λ e. cc (e, last_mem x xs, out) in (some (last x xs), ground (arith, n))

returned-IsBlank :
    (s : Proc) (fs : List ℕ) (t : ℕ)
    → has t fs ≡ false
    → IsBlank ((returned (wiped s t) fs t).pcb t)
returned-IsBlank s fs t out =
    let w : (wiped s t).pcb t ≡ cleared (s.pcb t) = ground arith in
    let (p, e) = returned_block (wiped s t) fs t out in
    subst IsBlank (sym (e ∙ ap (λ x. linked_to x p) w)) (cleared-IsBlank (s.pcb t) p)

returned-running :
    (s : Proc) (fs : List ℕ) (t : ℕ) → (returned s fs t).running_task ≡ s.running_task
returned-running s [] t = refl
returned-running s (x ∷ xs) t = refl

reaped-frames :
    (k : Kernel) (t : ℕ)
    → (clear_pcb k t).frames ≡ clear_mapping k.frames (add64 (k.proc.pcb t).regs.cr3 kernbase)
unfolding clear_pcb
reaped-frames k t = refl

-- A dead child that is in no list is cleared and goes to the end of the free list: its parent, name, areas,
-- files, sleep and next are reset, and so are 64 words of its kernel stack; its pages are given up by
-- `clear_mapping`. The task list and the running task do not change.
pub reap_lem :
    (k : Kernel) (t : ℕ) (xs fs : List ℕ)
    → IsQueue k.proc xs
    → IsFreePcbs k.proc fs
    → Apart xs fs
    → (has t xs ≡ false) × (has t fs ≡ false)
    → length fs < num_pcb
    → (k' : Kernel) × (reap k t ≡ some k')
      × IsQueue k'.proc xs
      × IsFreePcbs k'.proc (fs ++ (t ∷ []))
      × IsBlank (k'.proc.pcb t)
      × (k'.frames ≡ clear_mapping k.frames (add64 (k.proc.pcb t).regs.cr3 kernbase))
      × (k'.proc.running_task ≡ k.proc.running_task)
reap_lem k t xs fs q f apart out few =
    let w = wiped k.proc t in
    let fw = wiped-IsFreePcbs k.proc t fs f out.1 in
    let (s', runs, free) = append_in_free_list_lem w t fs fw out.1 few in
    let same : returned w fs t ≡ s' = cc (append-returned w t fs fw, runs) in
    (
      reaped k fs t,
      reap-reaped k t fs f out.1,
      record {
        chain =
            subst (λ h. Chain some none (link (returned w fs t)) h xs) (sym (returned-list w fs t))
              (Chain.frame some none (link k.proc) (link (returned w fs t)) k.proc.overall_task_list
                xs q.chain (λ i m. reaped-link k.proc fs t i (λ e. cc (e, m, out.0)) (apart i m)));
        distinct = q.distinct;
        few = q.few;
      },
      subst (λ p. IsFreePcbs p (fs ++ (t ∷ []))) (sym same) free,
      returned-IsBlank k.proc fs t out.1,
      reaped-frames k t,
      returned-running w fs t,
    )

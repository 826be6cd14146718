-- ===== src/Proc/Fork/Loop.antt =====
-- The loop of `fork_process` over the memory areas of the parent.
use mathlib.Core.Path.{subst}
use nascent_os.Prelude.{
  ℕ, zero, suc, ◌<◌, ◌≡◌, refl, ap, sym, ◌∙◌, ◌≢◌, false, Option, none, some, List, [], ◌∷◌, arith,
  length, take,
}
use nascent_os.Chain
use nascent_os.Chain.{Chain, Distinct, has}
use nascent_os.Frames.{scale_down}
use nascent_os.Proc.{Proc}
use nascent_os.Proc.FreeLists.{set_vma, get_free_vma}
use nascent_os.Proc.FreeLists.Laws.{vma_link, IsFreeVmas}
use nascent_os.Proc.FreeLists.Areas.{fetch_free_vma_lem}
use nascent_os.Proc.Lifecycle.{Kernel}
use nascent_os.Proc.Fork.{share_pages, page_cnt, link_copy, copy_into, copy_vma, copy_areas}
use nascent_os.Proc.{set_task}
use nascent_os.Proc.Fork.Areas.{
  SameArea, Copies, CanCopy, Behind, copy-Step, has_ne, has_none, has_tail, CanCopy-rest,
  Copies-frame, Behind-Step,
}

areas_step :
    (n : ℕ) (k : Kernel) (child pp cp : ℕ) (last : Option ℕ) (p : ℕ) (q : Option ℕ) (r : ℕ × Proc)
    (k' : Kernel)
    → q ≡ some p
    → copy_vma k.proc child last p ≡ some r
    → copy_areas n
        (record k {
          proc = r.1;
          frames =
              share_pages
                (page_cnt (r.1.vma p))
                0
                k.frames
                pp
                cp
                (scale_down (r.1.vma p).start_addr);
        })
        child
        pp
        cp
        (some r.0)
        (r.1.vma p).next
      ≡ some k'
    → copy_areas (suc n) k child pp cp last q ≡ some k'
unfolding copy_areas
areas_step n k child pp cp last p q r k' e e1 e2 = rw (e, e1) e2

-- The blocks go on behind the area `l`, which is none of the parent's from `q` on, and no free one. Its
-- link is still that of the parent's area that it is a copy of.
no_areas :
    (n : ℕ) (k : Kernel) (child pp cp : ℕ) (q : Option ℕ)
    → q ≡ none
    → copy_areas (suc n) k child pp cp none q ≡ some k
unfolding copy_areas
no_areas n k child pp cp q e = rw e refl

copy_areas-Behind :
    (n : ℕ) (k : Kernel) (child pp cp l : ℕ) (q : Option ℕ) (ps fs : List ℕ)
    → CanCopy k.proc q ps fs
    → has l ps ≡ false
    → has l fs ≡ false
    → vma_link k.proc l ≡ q
    → length ps < n
    → (k' : Kernel) × (copy_areas n k child pp cp (some l) q ≡ some k')
      × Behind k.proc l q ps fs k'.proc
unfolding copy_areas
copy_areas-Behind zero k child pp cp l q ps fs c lp lf ll h = absurd (omega arith)
copy_areas-Behind (suc n) k child pp cp l q [] fs c lp lf ll h = (
  k,
  rw c.areas refl,
  record {
    all = record { list = ll ∙ c.areas; copies = tt; areas = c.areas; tasks = refl };
    last = (refl, refl, refl, refl, refl, refl);
    others = λ x a b. refl;
  },
)
copy_areas-Behind (suc n) k child pp cp l q (p ∷ ps) [] c lp lf ll h =
    absurd (omega (arith, c.enough))
copy_areas-Behind (suc n) k child pp cp l q (p ∷ ps) (f ∷ fs) c lp lf ll h =
    let s = k.proc in
    let pl : p ≢ l = λ e. has_ne l p ps lp (sym e) in
    let pf = has_ne p f fs (c.apart p (ground arith)) in
    let (s1, e1, st, free) = copy-Step s child l f p fs c.free lf pl pf in
    let v = s1.vma p in
    let k1 : Kernel = record k {
      proc = s1;
      frames = share_pages (page_cnt v) 0 k.frames pp cp (scale_down v.start_addr);
    } in
    let same : s1.vma p ≡ s.vma p = st.others p pf pl in
    let next : vma_link s p ≡ v.next = ap (λ w. w.next) (sym same) in
    let rest =
      subst (λ r. CanCopy s1 r ps fs) next (CanCopy-rest s s1 l f p q ps fs c lp st.others free) in
    let fp = has_none f ps (λ x m. has_ne x f fs (c.apart x (ground arith))) in
    let (k', e2, b) =
      copy_areas-Behind n k1 child pp cp f v.next ps fs rest fp c.free.distinct.0
        (ap (λ w. w.next) (st.copied ∙ sym same)) (omega arith) in
    (
      k',
      areas_step n k child pp cp (some l) p q (f, s1) k' c.areas.0 e1 e2,
      Behind-Step s s1 k'.proc l f p q ps fs c lp lf st b,
    )

-- The first copy becomes the head of the child's list.
abbrev headed : Proc → ℕ → ℕ → ℕ → Proc
headed s child f p =
    let t = s.pcb child in
    let s1 = set_task s child (record t { task_mm = record t.task_mm { vma_head = some f } }) in
    set_vma s1 f (s1.vma p)

headed_others : (s : Proc) (child f p x : ℕ) → x ≢ f → (headed s child f p).vma x ≡ s.vma x
headed_others s child f p x n = ground arith

headed_copied : (s : Proc) (child f p : ℕ) → (headed s child f p).vma f ≡ s.vma p
headed_copied s child f p = ground arith

headed_head :
    (s : Proc) (child f p : ℕ) → ((headed s child f p).pcb child).task_mm.vma_head ≡ some f
headed_head s child f p = ground arith

-- What the first copy leaves.
record First (s : Proc) (child f p : ℕ) (fs : List ℕ) (s' : Proc) : Type 0 where
  copied : s'.vma f ≡ s.vma p
  head : (s'.pcb child).task_mm.vma_head ≡ some f
  others : (x : ℕ) → x ≢ f → s'.vma x ≡ s.vma x
  free : IsFreeVmas s' fs

First-copy :
    (s : Proc) (child f p : ℕ) (fs : List ℕ)
    → IsFreeVmas s (f ∷ fs)
    → p ≢ f
    → (s' : Proc) × (copy_vma s child none p ≡ some (f, s')) × First s child f p fs s'
unfolding copy_vma copy_into link_copy
First-copy s child f p fs free pf =
    let (r, rest, v, others) = (fetch_free_vma_lem s f fs 0 0 0 0 0 0 free).1 in
    let s1 = (get_free_vma s).1 in
    (
      headed s1 child f p,
      ap (copy_into s1 child none p) r,
      record {
        copied = headed_copied s1 child f p ∙ others p pf;
        head = headed_head s1 child f p;
        others = λ x nf. headed_others s1 child f p x nf ∙ others x nf;
        free = record {
          chain =
              Chain.frame some none (vma_link s1) (vma_link (headed s1 child f p)) s1.free_vma_head
                fs rest.chain
                (λ x m.
                  let nf : x ≢ f = λ e. cc (e, m, free.distinct.0) in
                  ap (λ v. v.next) (headed_others s1 child f p x nf));
          distinct = rest.distinct;
        };
      },
    )

First-step :
    (s s1 t : Proc) (child f p : ℕ) (q : Option ℕ) (ps fs : List ℕ)
    → CanCopy s q (p ∷ ps) (f ∷ fs)
    → First s child f p fs s1
    → Behind s1 f (s1.vma p).next ps fs t
    → Chain some none (vma_link t) (t.pcb child).task_mm.vma_head (f ∷ take (length ps) fs)
      × Copies s t (p ∷ ps) (f ∷ fs)
      × Chain some none (vma_link t) q (p ∷ ps)
First-step s s1 t child f p q ps fs c st b =
    let pf = has_ne p f fs (c.apart p (ground arith)) in
    let po = has_tail p f fs (c.apart p (ground arith)) in
    (
      (ap (λ u. (u child).task_mm.vma_head) b.all.tasks ∙ st.head, b.all.list),
      (
        subst (λ w. SameArea (t.vma f) w) st.copied b.last,
        Copies-frame s s1 t ps fs (λ x m. st.others x (has_ne x f fs (c.apart x (ground arith))))
            b.all.copies,
      ),
      (
        c.areas.0,
        subst (λ r. Chain some none (vma_link t) r ps) (ap (λ w. w.next) (sym (b.others p po pf)))
            b.all.areas,
      ),
    )

-- The areas of the child after the loop of `fork_process`: a list of as many blocks, off the front of the
-- free list, each with the bounds, the flags and the file of the parent's area at the same place; the
-- parent's list is as it was. There are enough free blocks, none of them in the parent's list, and the
-- child's list is empty at first.
pub copy_areas_lem :
    (n : ℕ) (k : Kernel) (child pp cp : ℕ) (q : Option ℕ) (ps fs : List ℕ)
    → CanCopy k.proc q ps fs
    → (k.proc.pcb child).task_mm.vma_head ≡ none
    → length ps < n
    → (k' : Kernel) × (copy_areas n k child pp cp none q ≡ some k')
      × Chain some none
          (vma_link k'.proc)
          (k'.proc.pcb child).task_mm.vma_head
          (take (length ps) fs)
      × Copies k.proc k'.proc ps fs
      × Chain some none (vma_link k'.proc) q ps
copy_areas_lem zero k child pp cp q ps fs c e h = absurd (omega arith)
copy_areas_lem (suc n) k child pp cp q [] fs c e h =
    (k, no_areas n k child pp cp q c.areas, e, tt, c.areas)
copy_areas_lem (suc n) k child pp cp q (p ∷ ps) [] c e h = absurd (omega (arith, c.enough))
copy_areas_lem (suc n) k child pp cp q (p ∷ ps) (f ∷ fs) c e h =
    let s = k.proc in
    let fp = has_none f (p ∷ ps) (λ x m. has_ne x f fs (c.apart x m)) in
    let pf = has_ne p f fs (c.apart p (ground arith)) in
    let (s1, e1, st) = First-copy s child f p fs c.free pf in
    let v = s1.vma p in
    let k1 : Kernel = record k {
      proc = s1;
      frames = share_pages (page_cnt v) 0 k.frames pp cp (scale_down v.start_addr);
    } in
    let same : s1.vma p ≡ s.vma p = st.others p pf in
    let next : vma_link s p ≡ v.next = ap (λ w. w.next) (sym same) in
    let rest =
      subst (λ r. CanCopy s1 r ps fs) next
        (CanCopy-rest s s1 f f p q ps fs c fp (λ x n m. st.others x n) st.free) in
    let (k', e2, b) =
      copy_areas-Behind n k1 child pp cp f v.next ps fs rest (has_tail f p ps fp) c.free.distinct.0
        (ap (λ w. w.next) (st.copied ∙ sym same)) (omega arith) in
    let (list, copies, areas) = First-step s s1 k'.proc child f p q ps fs c st b in
    (k', areas_step n k child pp cp none p q (f, s1) k' c.areas.0 e1 e2, list, copies, areas)

-- ===== src/Proc/Fork/Areas.antt =====
-- The memory areas of the child: copies of the parent's, in its order, in blocks of the free list.
use mathlib.Core.Path.{subst}
use nascent_os.Prelude.{
  ℕ, ◌≤◌, ◌≡◌, refl, ap, sym, ◌∙◌, ◌≢◌, true, false, Option, none, some, List, [], ◌∷◌, arith,
  length, take, Bool-cases, inl, inr,
}
use nascent_os.Chain
use nascent_os.Chain.{Chain, Distinct, has}
use nascent_os.Proc.{Proc, Vma}
use nascent_os.Proc.FreeLists.{set_vma, get_free_vma}
use nascent_os.Proc.FreeLists.Laws.{vma_link, IsFreeVmas}
use nascent_os.Proc.FreeLists.Areas.{fetch_free_vma_lem, get_free_vma-tasks}
use nascent_os.Proc.Fork.{link_copy, copy_into, copy_vma}

-- All fields but the links.
abbrev pub SameArea : Vma → Vma → Type 0
SameArea v w =
    (v.start_addr ≡ w.start_addr)
    × (v.end_addr ≡ w.end_addr)
    × (v.vm_flags ≡ w.vm_flags)
    × (v.vmtype ≡ w.vmtype)
    × (v.p_filesz ≡ w.p_filesz)
    × (v.tarfs_base ≡ w.tarfs_base)

-- The areas `fs` of the new state are copies of the areas `ps` of the old one.
abbrev pub Copies : Proc → Proc → List ℕ → List ℕ → Type 0
Copies s s' [] fs = Unit
Copies s s' (p ∷ ps) [] = ⊥
Copies s s' (p ∷ ps) (f ∷ fs) = SameArea (s'.vma f) (s.vma p) × Copies s s' ps fs

-- The parent's areas from `q` on, the free blocks, enough of them, and no block in both.
pub record CanCopy (s : Proc) (q : Option ℕ) (ps fs : List ℕ) : Type 0 where
  pub areas : Chain some none (vma_link s) q ps
  pub distinct : Distinct ps
  pub free : IsFreeVmas s fs
  pub apart : (p : ℕ) → has p ps ≡ true → has p fs ≡ false
  pub enough : length ps ≤ length fs

abbrev pub with_next : Vma → ℕ → Vma
with_next v f = record v { next = some f }

-- The copy of `p` in the block `f`, behind `last`.
abbrev pub linked : Proc → ℕ → ℕ → ℕ → Proc
linked s last f p = let s1 = set_vma s last (with_next (s.vma last) f) in set_vma s1 f (s1.vma p)

pub record Step (s : Proc) (last f p : ℕ) (s' : Proc) : Type 0 where
  pub copied : s'.vma f ≡ s.vma p
  pub link : s'.vma last ≡ with_next (s.vma last) f
  pub others : (x : ℕ) → x ≢ f → x ≢ last → s'.vma x ≡ s.vma x
  pub tasks : s'.pcb ≡ s.pcb

linked_others : (s : Proc) (last f p x : ℕ) → x ≢ f → x ≢ last → (linked s last f p).vma x ≡ s.vma x
linked_others s last f p x nf nl = ground arith

linked_copied : (s : Proc) (last f p : ℕ) → p ≢ last → (linked s last f p).vma f ≡ s.vma p
linked_copied s last f p nl = ground arith

linked_link :
    (s : Proc) (last f p : ℕ) → last ≢ f → (linked s last f p).vma last ≡ with_next (s.vma last) f
linked_link s last f p nf = ground arith

pub has_ne : (x f : ℕ) (fs : List ℕ) → has x (f ∷ fs) ≡ false → x ≢ f
has_ne x f fs h e = ground arith

pub not_last : (x l f : ℕ) (fs : List ℕ) → has x fs ≡ true → has l (f ∷ fs) ≡ false → x ≢ l
not_last x l f fs m h e = ground arith

pub has_none : (f : ℕ) (ps : List ℕ) → ((x : ℕ) → has x ps ≡ true → x ≢ f) → has f ps ≡ false
has_none f ps h = elim (Bool-cases (has f ps)) [ inl m ↦ absurd (h f m refl) | inr n ↦ n ]

pub has_tail : (x f : ℕ) (fs : List ℕ) → has x (f ∷ fs) ≡ false → has x fs ≡ false
has_tail x f fs h = ground arith

pub copy-Step :
    (s : Proc) (child last f p : ℕ) (fs : List ℕ)
    → IsFreeVmas s (f ∷ fs)
    → has last (f ∷ fs) ≡ false
    → p ≢ last
    → p ≢ f
    → (s' : Proc) × (copy_vma s child (some last) p ≡ some (f, s'))
      × Step s last f p s'
      × IsFreeVmas s' fs
unfolding copy_vma copy_into link_copy
copy-Step s child last f p fs free lo pl pf =
    let (r, rest, v, others) = (fetch_free_vma_lem s f fs 0 0 0 0 0 0 free).1 in
    let s1 = (get_free_vma s).1 in
    let lf = has_ne last f fs lo in
    (
      linked s1 last f p,
      ap (copy_into s1 child (some last) p) r,
      record {
        copied = linked_copied s1 last f p pl ∙ others p pf;
        link = linked_link s1 last f p lf ∙ ap (λ w. with_next w f) (others last lf);
        others = λ x nf nl. linked_others s1 last f p x nf nl ∙ others x nf;
        tasks = get_free_vma-tasks s f free.chain.0;
      },
      record {
        chain =
            Chain.frame some none (vma_link s1) (vma_link (linked s1 last f p)) s1.free_vma_head fs
              rest.chain
              (λ x m.
                let nf : x ≢ f = λ e. cc (e, m, free.distinct.0) in
                let nl : x ≢ last = not_last x last f fs m lo in
                ap (λ v. v.next) (linked_others s1 last f p x nf nl));
        distinct = rest.distinct;
      },
    )

-- What the copies of `ps` in the first blocks of `fs` leave: a list that `h` leads to.
pub record Copied (s : Proc) (q h : Option ℕ) (ps fs : List ℕ) (s' : Proc) : Type 0 where
  pub list : Chain some none (vma_link s') h (take (length ps) fs)
  pub copies : Copies s s' ps fs
  pub areas : Chain some none (vma_link s') q ps
  pub tasks : s'.pcb ≡ s.pcb

-- The same, behind an area `l` that was the last one.
pub record Behind (s : Proc) (l : ℕ) (q : Option ℕ) (ps fs : List ℕ) (s' : Proc) : Type 0 where
  pub all : Copied s q (vma_link s' l) ps fs s'
  pub last : SameArea (s'.vma l) (s.vma l)
  pub others : (x : ℕ) → has x fs ≡ false → x ≢ l → s'.vma x ≡ s.vma x

pub Copies-frame :
    (s s1 s' : Proc) (ps fs : List ℕ)
    → ((p : ℕ) → has p ps ≡ true → s1.vma p ≡ s.vma p)
    → Copies s1 s' ps fs
    → Copies s s' ps fs
Copies-frame s s1 s' [] fs e c = tt
Copies-frame s s1 s' (p ∷ ps) [] e c = absurd c
Copies-frame s s1 s' (p ∷ ps) (f ∷ fs) e c = (
  subst (λ v. SameArea (s'.vma f) v) (e p (ground arith)) c.0,
  Copies-frame s s1 s' ps fs (λ x m. e x (ground arith)) c.1,
)

pub CanCopy-rest :
    (s s1 : Proc) (l f p : ℕ) (q : Option ℕ) (ps fs : List ℕ)
    → CanCopy s q (p ∷ ps) (f ∷ fs)
    → has l (p ∷ ps) ≡ false
    → ((x : ℕ) → x ≢ f → x ≢ l → s1.vma x ≡ s.vma x)
    → IsFreeVmas s1 fs
    → CanCopy s1 (vma_link s p) ps fs
CanCopy-rest s s1 l f p q ps fs c out others free = record {
  areas = Chain.frame some none (vma_link s) (vma_link s1) (vma_link s p) ps c.areas.1 (λ x m.
      let nf = has_ne x f fs (c.apart x (ground arith)) in
      let nl = not_last x l p ps m out in ap (λ v. v.next) (others x nf nl));
  distinct = c.distinct.1;
  free = free;
  apart = λ x m. let a = c.apart x (ground arith) in ground arith;
  enough = omega (arith, c.enough);
}

-- One area more in front of the copies.
pub Behind-Step :
    (s s1 t : Proc) (l f p : ℕ) (q : Option ℕ) (ps fs : List ℕ)
    → CanCopy s q (p ∷ ps) (f ∷ fs)
    → has l (p ∷ ps) ≡ false
    → has l (f ∷ fs) ≡ false
    → Step s l f p s1
    → Behind s1 f (s1.vma p).next ps fs t
    → Behind s l q (p ∷ ps) (f ∷ fs) t
Behind-Step s s1 t l f p q ps fs c lp lf st b =
    let pf = has_ne p f fs (c.apart p (ground arith)) in
    let po = has_tail p f fs (c.apart p (ground arith)) in
    let lv : t.vma l ≡ with_next (s.vma l) f =
      b.others l (has_tail l f fs lf) (has_ne l f fs lf) ∙ st.link in
    record {
      all = record {
        list = (ap (λ w. w.next) lv, b.all.list);
        copies = (
          subst (λ w. SameArea (t.vma f) w) st.copied b.last,
          Copies-frame s s1 t ps fs
              (λ x m.
                st.others x (has_ne x f fs (c.apart x (ground arith))) (not_last x l p ps m lp))
              b.all.copies,
        );
        areas = (
          c.areas.0,
          subst (λ r. Chain some none (vma_link t) r ps) (ap (λ w. w.next) (sym (b.others p po pf)))
              b.all.areas,
        );
        tasks = b.all.tasks ∙ st.tasks;
      };
      last = subst (λ w. SameArea w (s.vma l)) (sym lv) (refl, refl, refl, refl, refl, refl);
      others = λ x xo xl.
          b.others x (has_tail x f fs xo) (has_ne x f fs xo) ∙ st.others x (has_ne x f fs xo) xl;
    }

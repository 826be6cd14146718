-- ===== src/Terminal/Lines.antt =====
-- A line that is typed is the line that is read.
use mathlib.Core.Path.{subst}
use nascent_os.Prelude.{
  ℕ, zero, suc, ◌+◌, ◌-◌, ◌%◌, ◌≤◌, ◌<◌, ◌≡◌, refl, ap, sym, ◌∙◌, ◌≢◌, inl, inr, true, false, List,
  [], ◌∷◌, ◌++◌, ◌==◌, ltb, not, arith, if◌then◌else◌, length, Option, some, Bool-cases,
}
use nascent_os.Proc.TaskList.{◌>>=◌}
use nascent_os.Proc.TaskList.Queue.{IsQueue}
use nascent_os.Proc.TaskList.Schedule.{woken, wake_up_task-woken}
use nascent_os.Kprintf.{put}
use nascent_os.Kprintf.Char.{kprintf-char}
use nascent_os.Terminal.{
  Terminal, buff_size, line_end, store, terminal_handler, read_loop, read_end, read_buffer,
}

-- The bytes `cs` stand in the buffer from `i` on.
abbrev pub Holds : (ℕ → ℕ) → ℕ → List ℕ → Type 0
Holds f i [] = Unit
Holds f i (c ∷ cs) = (f i ≡ c) × Holds f (suc i) cs

-- No byte is a newline or a carriage return.
abbrev pub IsPlain : List ℕ → Type 0
IsPlain [] = Unit
IsPlain (c ∷ cs) = (c ≢ 10) × (c ≢ 13) × IsPlain cs

-- Keys, one after the other.
abbrev pub typed : Terminal → List ℕ → Option Terminal
typed s [] = some s
typed s (c ∷ cs) = terminal_handler s c >>= (λ s'. typed s' cs)

-- What one key does.
abbrev Stored : Terminal → List ℕ → ℕ → ℕ → Terminal → Type 0
Stored s xs c lines s' =
    (s'.term_buff ≡ put s.term_buff s.w_buff_ptr c)
    × (s'.w_buff_ptr ≡ suc s.w_buff_ptr)
    × (s'.r_buff_ptr ≡ s.r_buff_ptr)
    × (s'.terminal_line_count ≡ lines)
    × IsQueue s'.proc xs

line_end-Queue :
    (s : Terminal) (xs : List ℕ) (c : ℕ)
    → IsQueue s.proc xs
    → (s1 : Terminal) × (line_end s c ≡ some s1)
      × (s1.term_buff ≡ s.term_buff)
      × (s1.w_buff_ptr ≡ s.w_buff_ptr)
      × (s1.r_buff_ptr ≡ s.r_buff_ptr)
      × (s1.terminal_line_count
          ≡ (if c == 10 then suc s.terminal_line_count else s.terminal_line_count))
      × IsQueue s1.proc xs
unfolding line_end
line_end-Queue s xs c q = elim (Bool-cases (c == 10)) [
  | inl e ↦
      let (wakes, queue) = wake_up_task-woken s.proc xs q in
      rw (e, wakes)
        (
          record s { terminal_line_count = suc s.terminal_line_count; proc = woken s.proc xs },
          refl,
          refl,
          refl,
          refl,
          refl,
          queue,
        )
  | inr n ↦ rw n (s, refl, refl, refl, refl, refl, q)
]

terminal_handler-Stored :
    (s : Terminal) (xs : List ℕ) (c : ℕ)
    → IsQueue s.proc xs
    → c ≢ 13
    → s.w_buff_ptr < 2047
    → (s' : Terminal) × (terminal_handler s c ≡ some s')
      × Stored s xs c (if c == 10 then suc s.terminal_line_count else s.terminal_line_count) s'
unfolding terminal_handler store
terminal_handler-Stored s xs c q ne small =
    let (s1, ends, term, w, r, lines, queue) = line_end-Queue s xs c q in
    let (console, prints) = kprintf-char s1.console c in
    let low : ltb (buff_size - 2) s1.w_buff_ptr ≡ false = ground (arith, w) in
    let other : (c == 13) ≡ false = ground arith in
    (
      store (record s1 { console = console }) c,
      rw (ends, prints) refl,
      rw (low, other)
          (
            ap (λ f. put f s1.w_buff_ptr c) term ∙ ap (λ p. put s.term_buff p c) w,
            ap suc w,
            r,
            lines,
            queue,
          ),
    )

-- What a line of keys does.
abbrev pub TypedLine : Terminal → List ℕ → List ℕ → Terminal → Type 0
TypedLine s xs cs s' =
    Holds s'.term_buff s.w_buff_ptr cs
    × ((j : ℕ) → j < s.w_buff_ptr → s'.term_buff j ≡ s.term_buff j)
    × (s'.w_buff_ptr ≡ s.w_buff_ptr + length cs)
    × (s'.r_buff_ptr ≡ s.r_buff_ptr)
    × (s'.terminal_line_count ≡ s.terminal_line_count)
    × IsQueue s'.proc xs

typed-TypedLine :
    (s : Terminal) (xs cs : List ℕ)
    → IsQueue s.proc xs
    → IsPlain cs
    → s.w_buff_ptr + length cs < 2048
    → (s' : Terminal) × ((ds : List ℕ) → typed s (cs ++ ds) ≡ typed s' ds) × TypedLine s xs cs s'
typed-TypedLine s xs [] q p l = (s, λ ds. refl, (tt, λ j h. refl, omega arith, refl, refl, q))
typed-TypedLine s xs (c ∷ cs) q p l =
    let (s1, runs, (term, w, r, lines, queue)) =
      terminal_handler-Stored s xs c q p.1 (omega arith) in
    let small : s1.w_buff_ptr + length cs < 2048 = omega (arith, w) in
    let (s2, rest, (holds, before, w', r', lines', queue')) =
      typed-TypedLine s1 xs cs queue p.2 small in
    let inner : s.terminal_line_count
        ≡ (if c == 10 then suc s.terminal_line_count else s.terminal_line_count) =
      ground (arith, p.0) in
    let at : put s.term_buff s.w_buff_ptr c s.w_buff_ptr ≡ c = ground arith in
    (
      s2,
      λ ds. ap (λ o. o >>= (λ s'. typed s' (cs ++ ds))) runs ∙ rest ds,
      (
        (
          before s.w_buff_ptr (omega (arith, w)) ∙ ap (λ f. f s.w_buff_ptr) term ∙ at,
          subst (λ i. Holds s2.term_buff i cs) w holds,
        ),
        λ j h. before j (omega (arith, w)) ∙ ap (λ f. f j) term ∙ ground (arith, h),
        omega (arith, w', w),
        r' ∙ r,
        lines' ∙ lines ∙ sym inner,
        queue',
      ),
    )

read_step :
    (n : ℕ) (term : ℕ → ℕ) (r i : ℕ) (buffer : ℕ → ℕ)
    → (term r == 10) ≡ false
    → suc r % buff_size ≡ suc r
    → read_loop (suc n) term r i buffer ≡ read_loop n term (suc r) (suc i) (put buffer i (term r))
unfolding read_loop
read_step n term r i buffer goes next = rw (goes, next) refl

-- What the reading loop does with a line of plain bytes that ends in a newline.
read_loop-line :
    (cs : List ℕ) (n : ℕ) (term : ℕ → ℕ) (r i : ℕ) (buffer : ℕ → ℕ)
    → Holds term r cs
    → term (r + length cs) ≡ 10
    → IsPlain cs
    → r + length cs < 2048
    → length cs ≤ n
    → (b : ℕ → ℕ) × (read_loop n term r i buffer ≡ ((i + length cs, r + length cs), b))
      × Holds b i cs
      × ((j : ℕ) → j < i → b j ≡ buffer j)
      × ((j : ℕ) → i + length cs ≤ j → b j ≡ buffer j)
unfolding read_loop
read_loop-line [] zero term r i buffer h e p l m =
    let zi : i + 0 ≡ i = omega arith in
    let zr : r + 0 ≡ r = omega arith in (buffer, rw (zi, zr) refl, tt, λ j k. refl, λ j k. refl)
read_loop-line [] (suc n) term r i buffer h e p l m =
    let zi : i + 0 ≡ i = omega arith in
    let zr : r + 0 ≡ r = omega arith in
    let stop : (term r == 10) ≡ true = let f = ap term zr in ground (arith, e, f) in
    (buffer, rw (zi, zr, stop) refl, tt, λ j k. refl, λ j k. refl)
read_loop-line (c ∷ cs) zero term r i buffer h e p l m = absurd (omega arith)
read_loop-line (c ∷ cs) (suc n) term r i buffer h e p l m =
    let next : suc r % buff_size ≡ suc r = omega arith in
    let e' : term (suc r + length cs) ≡ 10 =
      let z : suc r + length cs ≡ r + suc (length cs) = omega arith in ap term z ∙ e in
    let (b, runs, holds, before, behind) =
      read_loop-line cs n term (suc r) (suc i) (put buffer i (term r)) h.1 e' p.2 (omega arith)
        (omega arith) in
    let goes : (term r == 10) ≡ false = ground (arith, h.0, p.0) in
    let z1 : suc i + length cs ≡ i + suc (length cs) = omega arith in
    let z2 : suc r + length cs ≡ r + suc (length cs) = omega arith in
    (
      b,
      read_step n term r i buffer goes next
          ∙ (runs
              ∙ ap (λ x. (x, b))
                  (ap (λ x. (x, suc r + length cs)) z1 ∙ ap (λ x. (i + suc (length cs), x)) z2)),
      (before i (omega arith) ∙ ground (arith, h.0), holds),
      λ j k. before j (omega arith) ∙ ground arith,
      λ j k. behind j (omega arith) ∙ ground arith,
    )

Holds-put :
    (f : ℕ → ℕ) (i k x : ℕ) (cs : List ℕ)
    → Holds f i cs
    → i + length cs ≤ k
    → Holds (put f k x) i cs
Holds-put f i k x [] h l = tt
Holds-put f i k x (c ∷ cs) h l = (ground (arith, h.0), Holds-put f (suc i) k x cs h.1 (omega arith))

read_buffer-loop :
    (s : Terminal) (buffer : ℕ → ℕ) (size i r : ℕ) (b : ℕ → ℕ)
    → not (s.terminal_line_count == 0) ≡ true
    → read_loop (size - 1) s.term_buff s.r_buff_ptr 0 buffer ≡ ((i, r), b)
    → read_buffer s buffer size ≡ (
      (0, put b (i + 1) 0),
      record s { r_buff_ptr = suc r; terminal_line_count = s.terminal_line_count - 1 },
    )
unfolding read_buffer read_end
read_buffer-loop s buffer size i r b c e = rw (c, e) refl

byte_kept : (b : ℕ → ℕ) (n : ℕ) → put b (0 + n + 1) 0 n ≡ b n
byte_kept b n = ground arith

byte_zero : (b : ℕ → ℕ) (n : ℕ) → put b (0 + n + 1) 0 (suc n) ≡ 0
byte_zero b n = ground arith

-- A plain line that is typed, up to the newline, in a terminal whose reader has caught up, can be read, if the line and
-- its newline end before the last byte of the ring buffer and the line is shorter than the size that the caller
-- gives: `read_buffer` returns 0 and the bytes of the line, the count of lines is as before, and the reader has
-- caught up again. The NUL stands one byte behind the end of the line, and the byte between is the one that the
-- caller had there.
pub read_buffer-typed :
    (s : Terminal) (xs cs : List ℕ) (buffer : ℕ → ℕ) (size : ℕ)
    → IsQueue s.proc xs
    → IsPlain cs
    → s.r_buff_ptr ≡ s.w_buff_ptr
    → s.w_buff_ptr + length cs < 2047
    → length cs < size
    → (s1 : Terminal) × (typed s (cs ++ (10 ∷ [])) ≡ some s1)
      × (b : ℕ → ℕ) × (s2 : Terminal) × (read_buffer s1 buffer size ≡ ((0, b), s2))
      × Holds b 0 cs
      × ((b (length cs) ≡ buffer (length cs)) × (b (suc (length cs)) ≡ 0))
      × (s2.r_buff_ptr ≡ s2.w_buff_ptr)
      × (s2.terminal_line_count ≡ s.terminal_line_count)
read_buffer-typed s xs cs buffer size q p caught l m =
    let (s', runs, (holds, before, w, r, lines, queue)) =
      typed-TypedLine s xs cs q p (omega arith) in
    let (s1, ends, (term, w1, r1, lines1, queue1)) =
      terminal_handler-Stored s' xs 10 queue (omega arith) (omega (arith, w)) in
    let at_r : s1.r_buff_ptr ≡ s.w_buff_ptr = r1 ∙ r ∙ caught in
    let held : Holds s1.term_buff s1.r_buff_ptr cs =
      rw (at_r, term)
        (Holds-put s'.term_buff s.w_buff_ptr s'.w_buff_ptr 10 cs holds (omega (arith, w))) in
    let z : s1.r_buff_ptr + length cs ≡ s'.w_buff_ptr = omega (arith, at_r, w) in
    let newline : s1.term_buff (s1.r_buff_ptr + length cs) ≡ 10 =
      ap s1.term_buff z ∙ ap (λ f. f s'.w_buff_ptr) term ∙ ground arith in
    let (b, loops, copied, low, high) =
      read_loop-line cs (size - 1) s1.term_buff s1.r_buff_ptr 0 buffer held newline p
        (omega (arith, at_r)) (omega arith) in
    let some_line : not (s1.terminal_line_count == 0) ≡ true = ground (arith, lines1) in
    let zero_len : 0 + length cs ≡ length cs = omega arith in
    (
      s1,
      runs (10 ∷ []) ∙ ap (λ o. o >>= (λ g. typed g [])) ends,
      put b (0 + length cs + 1) 0,
      record s1 {
        r_buff_ptr = suc (s1.r_buff_ptr + length cs);
        terminal_line_count = s1.terminal_line_count - 1;
      },
      read_buffer-loop s1 buffer size (0 + length cs) (s1.r_buff_ptr + length cs) b some_line loops,
      Holds-put b 0 (0 + length cs + 1) 0 cs copied (omega arith),
      (byte_kept b (length cs) ∙ high (length cs) (omega arith), byte_zero b (length cs)),
      ap suc z ∙ sym w1,
      omega (arith, lines1, lines),
    )

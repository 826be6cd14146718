-- ===== src/Kprintf/Status.antt =====
-- The last line of the screen, sys/kprintf.c: the time since the start, and the key that was pressed.
use nascent_os.Prelude.{ℕ, zero, suc, ◌+◌, ◌*◌, ◌==◌, if◌then◌else◌, List, [], ◌∷◌}
use nascent_os.Prelude.Int.{pos}
use nascent_os.Kprintf.{Console, num, put}

-- OUTPUT_BUFFER_MAX_LENGTH
abbrev pub output_buffer_max_length : ℕ
output_buffer_max_length = 20480

-- for (i = i; i < i + n; i++)
pub clear_loop : ℕ → ℕ → (ℕ → ℕ) → ℕ → ℕ
clear_loop zero i buffer = buffer
clear_loop (suc n) i buffer = clear_loop n (suc i) (put buffer i 0)

pub clear_global_array : (ℕ → ℕ) → ℕ → ℕ
clear_global_array buffer = clear_loop output_buffer_max_length 0 buffer

-- Characters to every second byte of the video memory, from `p` on.
pub show_text : List ℕ → ℕ → (ℕ → ℕ) → ℕ → ℕ
show_text [] p video = video
show_text (c ∷ s) p video = show_text s (p + 2) (put video p c)

-- The first `n` characters of a buffer.
pub show_buffer : ℕ → ℕ → (ℕ → ℕ) → ℕ → (ℕ → ℕ) → ℕ → ℕ
show_buffer zero i buffer p video = video
show_buffer (suc n) i buffer p video = show_buffer n (suc i) buffer (p + 2) (put video p (buffer i))

-- "Time Since Reboot: " with its NUL
abbrev time_text : List ℕ
time_text =
    84 ∷ 105 ∷ 109 ∷ 101 ∷ 32 ∷ 83 ∷ 105 ∷ 110 ∷ 99 ∷ 101 ∷ 32 ∷ 82 ∷ 101 ∷ 98 ∷ 111 ∷ 111 ∷ 116
    ∷ 58 ∷ 32 ∷ 0 ∷ []

-- `time_buffer` is TIME.
pub print_time : Console → (ℕ → ℕ) → ℕ → (ℕ → ℕ) × Console
print_time c time_buffer time =
    let (length, text) = num (pos time) (clear_global_array time_buffer) 0 10 in
    (
      text,
      record c {
        video = show_buffer length 0 text (24 * 160 + 40) (show_text time_text (24 * 160) c.video);
      },
    )

-- "Key Entered: " with its NUL
abbrev key_text : List ℕ
key_text = 75 ∷ 101 ∷ 121 ∷ 32 ∷ 69 ∷ 110 ∷ 116 ∷ 101 ∷ 114 ∷ 101 ∷ 100 ∷ 58 ∷ 32 ∷ 0 ∷ []

-- The text of `print_key`, and its loop.
pub show_key_text : Console → Console
show_key_text c = record c { video = show_text key_text (24 * 160 + 80) c.video }

-- The key behind the text, after '^' if the control key was pressed.
pub show_key : Console → ℕ → ℕ → Console
show_key c control_flag key =
    let at = 24 * 160 + 80 + 28 in
    if control_flag == 0
    then record c { video = put (put c.video at key) (at + 2) 32 }
    else record c { video = put (put c.video at 94) (at + 2) key }

-- ===== src/Terminal/Keyboard.antt =====
-- sys/keyboard_intr.c, with `dec_term` of sys/terminal.c and `print_key` of sys/kprintf.c: a scan code becomes
-- a character, the character goes to the terminal, and the last line shows it. The command to the
-- interrupt controller is left out.
use nascent_os.Prelude.{
  ℕ, ◌-◌, ◌==◌, ◌&&◌, ltb, not, if◌then◌else◌, Option, some, none, List, [], ◌∷◌, length, get_or,
}
use nascent_os.Kprintf.{Console, put}
use nascent_os.Kprintf.Status.{show_key_text, show_key}
use nascent_os.Proc.TaskList.{◌>>=◌}
use nascent_os.Terminal.{Terminal, terminal_handler}

-- `none`: the pointer would become negative.
pub dec_term : Terminal → Option Terminal
dec_term s =
    let w = s.w_buff_ptr in
    if ltb w 2
    then none
    else some (record s { term_buff = put (put s.term_buff w 0) (w - 1) 0; w_buff_ptr = w - 2 })

-- The character on the screen before the cursor is taken away.
abbrev back : Console → Console
back c = record c {
  video = put c.video (c.array_pointer - 2) 32;
  array_pointer = c.array_pointer - 2;
}

-- The key 14: the character before the cursor. `array_pointer` is even.
pub erase_one : Terminal → Option Terminal
erase_one s =
    if ltb 0 s.console.array_pointer
    then dec_term (record s { console = back s.console })
    else some s

-- Control and h: two characters, the h itself and the one before it. `none` also where the cursor would
-- leave the screen, and the second blank go in front of the video memory.
pub erase_two : Terminal → Option Terminal
erase_two s =
    if not (ltb 0 s.console.array_pointer)
    then some s
    else if ltb s.console.array_pointer 4
    then none
    else (dec_term s >>= (λ s1. some (record s1 { console = back (back s1.console) })))

pub print_key : Terminal → ℕ → ℕ → Option Terminal
unfolding erase_one erase_two
print_key s control_flag c = do
  let s0 = record s { console = show_key_text s.console }
  s1 ← if c == 14 then erase_one s0 else some s0
  s2 ← if not (control_flag == 0) && (c == 104) then erase_two s1 else some s1
  some (record s2 { console = show_key s2.console control_flag c })

-- asciicodes, the row of every scan code: without and with the shift key
abbrev pub asciicodes : List (ℕ × ℕ)
asciicodes =
    (0, 0)
    ∷ (69, 69)
    ∷ (49, 33)
    ∷ (50, 64)
    ∷ (51, 35)
    ∷ (52, 36)
    ∷ (53, 37)
    ∷ (54, 94)
    ∷ (55, 38)
    ∷ (56, 42)
    ∷ (57, 40)
    ∷ (48, 41)
    ∷ (45, 95)
    ∷ (61, 43)
    ∷ (8, 8)
    ∷ (9, 9)
    ∷ (113, 81)
    ∷ (119, 87)
    ∷ (101, 69)
    ∷ (114, 82)
    ∷ (116, 84)
    ∷ (121, 89)
    ∷ (117, 85)
    ∷ (105, 73)
    ∷ (111, 79)
    ∷ (112, 80)
    ∷ (91, 123)
    ∷ (93, 125)
    ∷ (13, 13)
    ∷ (0, 0)
    ∷ (97, 65)
    ∷ (115, 83)
    ∷ (100, 68)
    ∷ (102, 70)
    ∷ (103, 71)
    ∷ (104, 72)
    ∷ (106, 74)
    ∷ (107, 75)
    ∷ (108, 76)
    ∷ (59, 58)
    ∷ (39, 34)
    ∷ (96, 126)
    ∷ (0, 0)
    ∷ (92, 124)
    ∷ (122, 90)
    ∷ (120, 88)
    ∷ (99, 67)
    ∷ (118, 86)
    ∷ (98, 66)
    ∷ (110, 78)
    ∷ (109, 77)
    ∷ (44, 60)
    ∷ (46, 62)
    ∷ (47, 63)
    ∷ (0, 0)
    ∷ (0, 0)
    ∷ (0, 0)
    ∷ (32, 32)
    ∷ []

-- The static flags of the handler, and the terminal.
pub record Keyboard : Type 0 where
  pub shift_flag : ℕ
  pub control_flag : ℕ
  pub terminal : Terminal

-- A character: to the terminal, and to the last line.
pub type_char : Keyboard → ℕ → Option Keyboard
unfolding print_key
type_char k c = do
  t ← terminal_handler k.terminal c
  t1 ← print_key t k.control_flag c
  some (record k { control_flag = 0; terminal = t1 })

-- A key below 60 that is no modifier. `none` also where the table has no row for it.
pub press : Keyboard → ℕ → Option Keyboard
unfolding type_char
press k v =
    if not (ltb v (length asciicodes))
    then none
    else if k.shift_flag == 1
    then type_char (record k { shift_flag = 0 }) (get_or asciicodes v (0, 0)).1
    else type_char k (get_or asciicodes v (0, 0)).0

-- The enter key gives a newline first.
pub newline : Keyboard → ℕ → Option Keyboard
newline k v =
    if v == 28
    then (terminal_handler k.terminal 10 >>= (λ t. some (record k { terminal = t })))
    else some k

pub keyboard_intr : Keyboard → ℕ → Option Keyboard
unfolding newline press
keyboard_intr k0 keyboard_value = newline k0 keyboard_value >>= (λ k.
    if keyboard_value == 29
    then some (record k { control_flag = 1 })
    else if keyboard_value == 42
    then some (record k { shift_flag = 1 })
    else if ltb keyboard_value 60
    then press k keyboard_value
    else some k)

-- ===== src/Tarfs/Calls.antt =====
-- The file calls of sys/tarfs.c from the name that the caller gives: the path is sanitized, a directory gets
-- its slash, and the root is answered without a look at the archive. `b` is what the local buffer of
-- `path_sanitize` holds, `none` a read in front of a buffer or a write through NULL.
use nascent_os.Prelude.{
  ℕ, ◌+◌, ◌-◌, List, [], ◌∷◌, ◌==◌, if◌then◌else◌, Option, none, some, get_or, set, replicate,
}
use nascent_os.Text.{str_len, str_compare, tail}
use nascent_os.Proc.{Proc}
use nascent_os.Proc.TaskList.{◌>>=◌}
use nascent_os.Tarfs.{Archive}
use nascent_os.Tarfs.Path.{path_sanitize}
use nascent_os.Tarfs.Files.{Opened, open_s, open_dir, read_dir, set_cwd}

-- if (path[len(path) - 1] != '/'): the slash replaces the NUL, and the new end is looked for.
pub with_slash : List ℕ → Option (List ℕ)
with_slash path =
    let l = str_len path in
    let b = set path l 47 in
    if l == 0
    then none
    else if get_or path (l - 1) 0 == 47
    then some path
    else some (set b (str_len b + 1) 0)

-- What the local path buffer held before does not matter: it is read only up to the NUL that is written.
unfoldable pub sanitized : Proc → List ℕ → List ℕ → Option (List ℕ)
sanitized s name b = path_sanitize s name (replicate 100 0) b

unfoldable pub open_file : Archive → Proc → List ℕ → List ℕ → Option Opened
unfolding sanitized
open_file a s name b = do path ← sanitized s name b; open_s a s (tail path)

-- 25 stands for the root.
pub open_directory : Archive → Proc → List ℕ → List ℕ → Option Opened
unfolding sanitized with_slash
open_directory a s name b =
    let below = (do path ← sanitized s name b; dir ← with_slash path; open_dir a s (tail dir)) in
    if str_compare (47 ∷ 0 ∷ []) name == 0 then some (some 25, s) else below

pub read_directory : Archive → Proc → ℕ → List ℕ → Option ((ℕ × List ℕ) × Proc)
read_directory a s fd buffer =
    let entry = read_dir a s fd buffer in if fd == 25 then some ((1, buffer), s) else entry

pub change_dir : Archive → Proc → List ℕ → List ℕ → Option Proc
unfolding sanitized with_slash
change_dir a s name b = do path ← sanitized s name b; dir ← with_slash path; set_cwd a s dir

-- ===== src/Config/Lines.antt =====
-- How lib/config_file.c takes a file apart: `fgets` with a buffer of `LINE_LEN` bytes, and what is cut
-- from the end of a line.
pub mod Laws
use lirc.Base.{ℕ, zero, suc, ◌+◌, ◌-◌, Bool, true, false, not, ◌&&◌, ◌||◌, ltb, ◌==◌, if◌then◌else◌}
use lirc.Base.{List, [], ◌∷◌, ◌++◌, length, take, get_or}
use lirc.Base.Text.{flush}

abbrev pub line_len : ℕ
line_len = 4096

-- What successive calls `fgets(buf, size, f)` return: up to a newline, or `size - 1` bytes. `left` is
-- the room for more bytes after the next one.
unfoldable pub chunks : ℕ → ℕ → List ℕ → List ℕ → List (List ℕ)
chunks size left w [] = flush w
chunks size left w (c ∷ s) = elim (c == b'\n' || left == 0) [
  | true ↦ (w ++ (c ∷ [])) ∷ chunks size (size - 2) [] s
  | false ↦ chunks size (left - 1) (w ++ (c ∷ [])) s
]

unfoldable pub fgets_all : ℕ → List ℕ → List (List ℕ)
unfolding chunks
fgets_all size s = chunks size (size - 2) [] s

-- A C string ends before its first zero.
unfoldable pub c_string : List ℕ → List ℕ
c_string [] = []
c_string (c ∷ s) = elim (c == 0) [ true ↦ [] | false ↦ c ∷ c_string s ]

-- `len == LINE_LEN && buf[len - 1] != '\n'`.
unfoldable pub is_too_long : List ℕ → Bool
is_too_long buf = length buf == line_len && not (get_or buf (length buf - 1) 0 == b'\n')

-- The newline at the end is cut; then a carriage return, looked for at the last place but one
-- whether or not there was a newline.
unfoldable pub strip_line : List ℕ → List ℕ
strip_line buf =
    let len = length buf in
    if ltb 1 len && get_or buf (len - 2) 0 == b'\r'
    then take (len - 2) buf
    else if ltb 0 len && get_or buf (len - 1) 0 == b'\n'
    then take (len - 1) buf
    else buf

-- ===== src/Config/Include.antt =====
-- The paths of `include` lines: `lirc_parse_include` and `lirc_parse_relative` of lib/config_file.c.
-- `dirname` of the C library is written out.
use mathlib.Core.List.{reverse}
use lirc.Base.{ℕ, ◌+◌, ◌-◌, Bool, true, false, not, ◌&&◌, ◌||◌, ltb, leb, ◌==◌, if◌then◌else◌}
use lirc.Base.{List, [], ◌∷◌, ◌++◌, length, take, drop, get_or, Option, none, some}
use lirc.Base.Text.{is_blank}
use lirc.Remote.{Name}

-- What is left when the characters that satisfy a test are dropped from the front.
unfoldable pub drop_while : (ℕ → Bool) → List ℕ → List ℕ
drop_while test [] = []
drop_while test (c ∷ s) = elim (test c) [ true ↦ drop_while test s | false ↦ c ∷ s ]

-- The same from the end.
unfoldable pub drop_last_while : (ℕ → Bool) → List ℕ → List ℕ
unfolding drop_while
drop_last_while test s = reverse (drop_while test (reverse s))

abbrev is_slash : ℕ → Bool
is_slash c = c == b'/'

abbrev or_else : List ℕ → List ℕ → List ℕ
or_else [] d = d
or_else (c ∷ s) d = c ∷ s

-- `dirname`: without trailing slashes, the last name and the slashes before it.
unfoldable pub dirname : Name → Name
unfolding drop_last_while
dirname path =
    let no_slash = drop_last_while is_slash path in
    let parent = drop_last_while (λ c. not (is_slash c)) no_slash in
    let root = if get_or path 0 0 == b'/' then b'/' ∷ [] else b'.' ∷ [] in
    or_else (drop_last_while is_slash parent) root

-- The text between the quotes or the angle brackets, up to the last character that is not blank.
unfoldable pub lirc_parse_include : Name → Option Name
unfolding drop_last_while
lirc_parse_include s =
    let trimmed = drop_last_while is_blank s in
    let last = length trimmed - 1 in
    let open_char = get_or s 0 0 in
    let close_char = get_or s last 0 in
    if ltb (length s) 2 || leb (length trimmed) 1
    then none
    else if open_char == b'"' && close_char == b'"' || open_char == b'<' && close_char == b'>'
    then some (take (last - 1) (drop 1 s))
    else none

-- What stands in a buffer of `dst_size` bytes after the call, as a text; it is empty before it.
-- A path that is too long leaves the name of the directory.
unfoldable pub lirc_parse_relative : ℕ → Name → Option Name → Name
unfolding dirname
lirc_parse_relative dst_size child none = []
lirc_parse_relative dst_size child (some current) =
    let dir = dirname current in
    if get_or child 0 0 == b'/'
    then take (dst_size - 1) child
    else if leb dst_size (length current)
    then []
    else if ltb dst_size (length dir + 1 + length child + 1)
    then dir
    else dir ++ (b'/' ∷ child)

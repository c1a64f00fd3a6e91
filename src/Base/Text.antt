-- ===== src/Base/Text.antt =====
-- C strings as lists of bytes: literals, comparison, and the words of a line.
pub mod Words
use Prim.Native.Char.{code}
use Prim.Native.String.{String}
use Prim.Native.Nat.{ℕ, ◌+◌, ◌-◌}
use mathlib.Core.Bool.{Bool, true, false, ◌&&◌, ◌||◌}
use mathlib.Core.List.{List, [], ◌∷◌, ◌++◌, map}
use lirc.Base.Tests.{leb, ◌==◌, if◌then◌else◌}
use lirc.Base.Lists.{same_bytes}

-- The bytes of a literal.
abbrev pub bytes : String → List ℕ
bytes String.[] = []
bytes (String.◌∷◌ c s) = code c ∷ bytes s

-- `tolower` and `toupper` on ASCII letters.
abbrev pub lower : ℕ → ℕ
lower c = if leb 65 c && leb c 90 then c + 32 else c

abbrev pub upper : ℕ → ℕ
upper c = if leb 97 c && leb c 122 then c - 32 else c

-- `strcasecmp` gives 0.
unfoldable pub same_word : List ℕ → List ℕ → Bool
same_word a b = same_bytes (map lower a) (map lower b)

-- The characters of `whitespace` in lib/config_file.c.
abbrev pub is_blank : ℕ → Bool
is_blank c = c == 32 || c == 9

-- A word, unless it is empty.
abbrev pub flush : List ℕ → List (List ℕ)
flush [] = []
flush (c ∷ w) = (c ∷ w) ∷ []

-- What successive calls of `strtok` return; `w` is the word that has begun.
unfoldable pub words_from : List ℕ → List ℕ → List (List ℕ)
words_from w [] = flush w
words_from w (c ∷ cs) = elim (is_blank c) [
  | true ↦ flush w ++ words_from [] cs
  | false ↦ words_from (w ++ (c ∷ [])) cs
]

unfoldable pub words : List ℕ → List (List ℕ)
unfolding words_from
words s = words_from [] s

-- ===== src/Base/Strings.antt =====
-- Go's strings.TrimSpace, strings.Split and the lines of a bufio.Scanner. The white space that counts
-- is ASCII's: the files that the program reads have no other.
pub mod Plain
use Prim.Native.Nat.{ℕ, zero, suc, ◌+◌}
use mathlib.Core.Path.{◌≡◌, refl}
use mathlib.Core.Bool.{Bool, true, false, ◌&&◌, ◌||◌}
use mathlib.Core.List.{List, [], ◌∷◌, ◌++◌}
use apsystems_sunspec.Base.Bools.{ltb, leb, ◌==◌, if◌then◌else◌}
use apsystems_sunspec.Base.Lists.{length}
use apsystems_sunspec.Base.Text.{Str, codes, is_empty}

-- '\t', '\n', '\v', '\f', '\r' and ' '
abbrev pub is_space : ℕ → Bool
is_space c = leb 9 c && leb c 13 || c == 32

unfoldable pub trim_left : Str → Str
trim_left [] = []
trim_left (c ∷ s) = let rest = trim_left s in if is_space c then rest else c ∷ s

unfoldable pub trim_right : Str → Str
trim_right [] = []
trim_right (c ∷ s) = let rest = trim_right s in if is_space c && is_empty rest then [] else c ∷ rest

unfoldable pub trim_space : Str → Str
unfolding trim_left trim_right
trim_space s = trim_left (trim_right s)

-- A byte before the first of the parts.
abbrev pub before_first : ℕ → List Str → List Str
before_first c [] = (c ∷ []) ∷ []
before_first c (s ∷ ss) = (c ∷ s) ∷ ss

-- strings.Split with a separator of one byte.
unfoldable pub split : ℕ → Str → List Str
split sep [] = [] ∷ []
split sep (c ∷ s) = let rest = split sep s in if c == sep then [] ∷ rest else before_first c rest

-- The text ends with its last line break, if any.
unfoldable pub without_last_empty : List Str → List Str
without_last_empty [] = []
without_last_empty (s ∷ []) = if is_empty s then [] else s ∷ []
without_last_empty (s ∷ t ∷ ss) = s ∷ without_last_empty (t ∷ ss)

-- dropCR of bufio
unfoldable pub drop_cr : Str → Str
drop_cr [] = []
drop_cr (c ∷ s) = if c == b'\r' && is_empty s then [] else c ∷ drop_cr s

-- The lines that the scanner gives before it stops, and whether it met none that fills its buffer.
unfoldable pub scanned : ℕ → List Str → List Str × Bool
unfolding drop_cr
scanned max_size [] = ([], true)
scanned max_size (s ∷ ss) =
    let rest = scanned max_size ss in
    if ltb (length s) max_size then (drop_cr s ∷ rest.0, rest.1) else ([], false)

-- A bufio.Scanner over a reader that gives the bytes `s` and then an end of file, or an error when
-- `readable` is false: the tokens, and whether Err is nil.
unfoldable pub scan_lines : ℕ → Bool → Str → List Str × Bool
unfolding scanned without_last_empty split
scan_lines max_size readable s =
    let r = scanned max_size (without_last_empty (split b'\n' s)) in (r.0, r.1 && readable)

tokens : scan_lines 8 true (codes "ab\r\n\nc,d\n") ≡ (codes "ab" ∷ [] ∷ codes "c,d" ∷ [], true)
unfolding scan_lines
tokens = refl

tokens_of_a_long_line : scan_lines 4 true (codes "ab\nabcd\ne") ≡ (codes "ab" ∷ [], false)
unfolding scan_lines
tokens_of_a_long_line = refl

trimmed : trim_space (codes "  a b\t\r\n") ≡ codes "a b"
unfolding trim_space
trimmed = refl

-- ===== src/Base/Strings/Plain.antt =====
-- Texts without white space and commas: they survive Split, TrimSpace and the scanner.
use Prim.Native.Nat.{ℕ, ◌<◌}
use mathlib.Core.Path.{◌≡◌, refl, ◌∙◌, ap}
use mathlib.Core.Logic.{◌≢◌}
use mathlib.Core.Bool.{true}
use mathlib.Core.List.{List, [], ◌∷◌, ◌++◌}
use native.Mathlib.Omega.{arith}
use apsystems_sunspec.Base.Lists.{length, All, All-append, All-imp}
use apsystems_sunspec.Base.Text.{Str}
use apsystems_sunspec.Base.Strings.{
  trim_left, trim_right, trim_space, split, without_last_empty, drop_cr, scanned, scan_lines,
}

-- No white space.
abbrev pub IsSolid : Str → Type 0
IsSolid s = All (λ c. 32 < c) s

-- No white space and no comma.
abbrev pub IsPlain : Str → Type 0
IsPlain s = All (λ c. (32 < c) × (c ≢ 44)) s

-- Fields with a separator between them.
unfoldable pub join : ℕ → List Str → Str
join sep [] = []
join sep (s ∷ []) = s
join sep (s ∷ t ∷ ss) = s ++ sep ∷ join sep (t ∷ ss)

-- Each line with a line break after it.
unfoldable pub unlines : List Str → Str
unlines [] = []
unlines (s ∷ ss) = s ++ b'\n' ∷ unlines ss

trim_left-IsSolid : (s : Str) → IsSolid s → trim_left s ≡ s
unfolding trim_left
trim_left-IsSolid [] h = refl
trim_left-IsSolid (c ∷ s) h = ground (arith, h)

trim_right-IsSolid : (s : Str) → IsSolid s → trim_right s ≡ s
unfolding trim_right
trim_right-IsSolid [] h = refl
trim_right-IsSolid (c ∷ s) h = ground (arith, h.0, trim_right-IsSolid s h.1)

pub trim_space-IsSolid : (s : Str) → IsSolid s → trim_space s ≡ s
unfolding trim_space
trim_space-IsSolid s h = ap trim_left (trim_right-IsSolid s h) ∙ trim_left-IsSolid s h

pub drop_cr-IsSolid : (s : Str) → IsSolid s → drop_cr s ≡ s
unfolding drop_cr
drop_cr-IsSolid [] h = refl
drop_cr-IsSolid (c ∷ s) h = ground (arith, h.0, drop_cr-IsSolid s h.1)

pub split-before :
    (sep : ℕ) (s t : Str) → All (λ c. c ≢ sep) s → split sep (s ++ sep ∷ t) ≡ s ∷ split sep t
unfolding split
split-before sep [] t h = ground arith
split-before sep (c ∷ s) t h = ground (arith, h.0, split-before sep s t h.1)

split-alone : (sep : ℕ) (s : Str) → All (λ c. c ≢ sep) s → split sep s ≡ s ∷ []
unfolding split
split-alone sep [] h = refl
split-alone sep (c ∷ s) h = ground (arith, h.0, split-alone sep s h.1)

-- Splitting a join gives the fields back.
pub split-join :
    (sep : ℕ) (s : Str) (ss : List Str)
    → All (λ f. All (λ c. c ≢ sep) f) (s ∷ ss)
    → split sep (join sep (s ∷ ss)) ≡ s ∷ ss
unfolding join
split-join sep s [] h = split-alone sep s h.0
split-join sep s (t ∷ ss) h =
    split-before sep s (join sep (t ∷ ss)) h.0 ∙ ap (λ r. s ∷ r) (split-join sep t ss h.1)

-- A line that the scanner gives as it is.
abbrev pub IsLine : ℕ → Str → Type 0
IsLine max_size s = IsSolid s × (length s < max_size)

split-unlines :
    (max_size : ℕ) (ss : List Str)
    → All (IsLine max_size) ss
    → split b'\n' (unlines ss) ≡ ss ++ [] ∷ []
unfolding unlines
split-unlines max_size [] h = split-alone b'\n' [] tt
split-unlines max_size (s ∷ ss) h =
    split-before b'\n' s (unlines ss) (All-imp _ _ s (λ c g. ground (arith, g)) h.0.0)
    ∙ ap (λ r. s ∷ r) (split-unlines max_size ss h.1)

without_last_empty-append : (ss : List Str) → without_last_empty (ss ++ [] ∷ []) ≡ ss
unfolding without_last_empty
without_last_empty-append [] = refl
without_last_empty-append (s ∷ []) = refl
without_last_empty-append (s ∷ t ∷ ss) = ap (λ r. s ∷ r) (without_last_empty-append (t ∷ ss))

scanned-lines :
    (max_size : ℕ) (ss : List Str) → All (IsLine max_size) ss → scanned max_size ss ≡ (ss, true)
unfolding scanned
scanned-lines max_size [] h = refl
scanned-lines max_size (s ∷ ss) h =
    ground (arith, h.0.1, drop_cr-IsSolid s h.0.0, scanned-lines max_size ss h.1)

-- The scanner gives the lines that were written, and no error.
pub scan_lines-unlines :
    (max_size : ℕ) (ss : List Str)
    → All (IsLine max_size) ss
    → scan_lines max_size true (unlines ss) ≡ (ss, true)
unfolding scan_lines
scan_lines-unlines max_size ss h =
    rw (split-unlines max_size ss h, without_last_empty-append ss, scanned-lines max_size ss h) refl

pub join-IsSolid : (ss : List Str) → All IsPlain ss → IsSolid (join b',' ss)
unfolding join
join-IsSolid [] h = tt
join-IsSolid (s ∷ []) h = All-imp _ _ s (λ c g. g.0) h.0
join-IsSolid (s ∷ t ∷ ss) h =
    All-append _ s (b',' ∷ join b',' (t ∷ ss)) (All-imp _ _ s (λ c g. g.0) h.0)
      (omega arith, join-IsSolid (t ∷ ss) h.1)

-- Splitting a line of plain fields, once it is trimmed, gives them back.
pub split-trim_space-join :
    (s : Str) (ss : List Str)
    → All IsPlain (s ∷ ss)
    → (trim_space (join b',' (s ∷ ss)) ≡ join b',' (s ∷ ss))
      × (split b',' (join b',' (s ∷ ss)) ≡ s ∷ ss)
split-trim_space-join s ss h = (
  trim_space-IsSolid _ (join-IsSolid (s ∷ ss) h),
  split-join b',' s ss (All-imp _ _ (s ∷ ss) (λ f. All-imp _ _ f (λ c g. g.1)) h),
)

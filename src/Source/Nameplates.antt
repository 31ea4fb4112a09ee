-- ===== src/Source/Nameplates.antt =====
-- LoadNameplateTable of internal/source/snapshot.go. json.Unmarshal comes in as a function that gives
-- the entries of the object "models" in the order in which the loop meets them.
use apsystems_sunspec.Base.{
  ℕ, ◌≡◌, refl, Bool, ◌&&◌, Option, none, some, List, [], ◌∷◌, Str, codes, is_empty, length,
  if◌then◌else◌,
}
use apsystems_sunspec.Base.Files.{Stored, missing, unreadable, contents}
use apsystems_sunspec.Base.Int.{ℤ, pos, ltb_ℤ, leb_ℤ}
use apsystems_sunspec.Base.Strconv.{atoi}
use apsystems_sunspec.Source.Inverter.{NameplateTable}

-- map[int]int
abbrev pub Entries : Type 0
Entries = List (ℤ × ℤ)

abbrev pub same : ℤ → ℤ → Bool
same a b = leb_ℤ a b && leb_ℤ b a

unfoldable pub set_entry : ℤ → ℤ → Entries → Entries
set_entry k v [] = (k, v) ∷ []
set_entry k v ((j, w) ∷ m) = if same j k then (k, v) ∷ m else (j, w) ∷ set_entry k v m

-- The map as the lookups read it.
unfoldable pub table_of : Entries → NameplateTable
table_of [] k = none
table_of ((j, w) ∷ m) k = if same j k then some w else table_of m k

-- The loop over the models; none for a key that is no integer.
unfoldable pub load_entries : ℕ → Entries → List (Str × ℤ) → Option Entries
unfolding set_entry
load_entries bits tbl [] = some tbl
load_entries bits tbl ((k, w) ∷ ms) = elim (atoi bits k) [
  | none ↦ none
  | some mid ↦ load_entries bits (if ltb_ℤ (pos 0) w then set_entry mid w tbl else tbl) ms
]

-- The result, none for an error, and the table afterwards.
abbrev pub Loaded : Type 0
Loaded = Option ℕ × Entries

abbrev pub load_models : ℕ → List (Str × ℤ) → Entries → Loaded
load_models bits models tbl = elim (load_entries bits [] models) [
  | none ↦ (none, tbl)
  | some loaded ↦ (some (length loaded), loaded)
]

abbrev pub load_contents : ℕ → (Str → Option (List (Str × ℤ))) → Stored → Entries → Loaded
load_contents bits unmarshal missing tbl = (some 0, tbl)
load_contents bits unmarshal unreadable tbl = (none, tbl)
load_contents bits unmarshal (contents b) tbl = elim (unmarshal b) [
  | none ↦ (none, tbl)
  | some models ↦ load_models bits models tbl
]

unfoldable pub load_nameplate_table :
    ℕ → (Str → Option (List (Str × ℤ))) → (Str → Stored) → Str → Entries → Loaded
load_nameplate_table bits unmarshal read path tbl =
    if is_empty path then (some 0, tbl) else load_contents bits unmarshal (read path) tbl

table_of_two_models :
    let r =
      load_entries 32 []
        ((codes "24", pos 1600) ∷ (codes "32", pos 750) ∷ (codes "36", pos 0) ∷ []) in
    r ≡ some ((pos 24, pos 1600) ∷ (pos 32, pos 750) ∷ [])
unfolding load_entries atoi
table_of_two_models = refl

-- ===== src/Source/Handles.antt =====
-- Opening and closing of the databases: OpenSQLite, openFirstExisting, openRO and Close of
-- internal/source/sqlite.go, and OpenWriter and Close of internal/source/writer.go. The state is the
-- handles that are open, each by its data source name; database/sql is the parameter `Engine`.
use apsystems_sunspec.Base.{
  ◌≡◌, refl, ap, ◌∙◌, Bool, true, ◌&&◌, Option, none, some, Option-cases, Bool-cases, List, [], ◌∷◌,
  ◌++◌, Str, codes, str_eq, str_eq_iff, str_eq_refl, if◌then◌else◌, inl, inr, arith,
}
use apsystems_sunspec.Source.Reader.{open_first_existing, open_sqlite}

-- filepath.Join, Values.Encode, and whether sql.Open, Ping and Close of a data source give no error.
pub record Engine : Type 0 where
  pub join_path : Str → Str → Str
  pub encode_values : List (Str × Str) → Str
  pub opens : Str → Bool
  pub pings : Str → Bool
  pub closes : Str → Bool

abbrev pub Handles : Type 0
Handles = List Str

-- A handle that is closed is open no more.
unfoldable pub release : Str → Handles → Handles
release h [] = []
release h (x ∷ hs) = let rest = release h hs in if str_eq x h then hs else x ∷ rest

module _ (eng : Engine) where
  open eng use {join_path, encode_values, opens, pings, closes}

  abbrev pub source_name : Str → List (Str × Str) → Str
  source_name path values = codes "file:" ++ path ++ codes "?" ++ encode_values values

  -- Close, with whether there is no error.
  abbrev pub close_handle : Str → Handles → Bool × Handles
  close_handle h hs = (closes h, release h hs)

  -- sql.Open and Ping; a handle that does not answer is closed again.
  unfoldable pub open_handle : Str → Handles → Option Str × Handles
  unfolding release
  open_handle dsn hs =
      if opens dsn
      then (if pings dsn then (some dsn, dsn ∷ hs) else (none, (close_handle dsn (dsn ∷ hs)).1))
      else (none, hs)

  abbrev pub ro_name : Str → Str → Str
  ro_name dir name = source_name (join_path dir name) ((codes "mode", codes "ro") ∷ [])

  -- openRO of a file of the directory.
  unfoldable pub open_ro : Str → Str → Handles → Option Str × Handles
  unfolding open_handle
  open_ro dir name hs = open_handle (ro_name dir name) hs

  -- The first that opens, with an attempt at the others after one that does not.
  abbrev or_try : Option Str × Handles → (Handles → Option Str × Handles) → Option Str × Handles
  or_try (some h, hs) others = (some h, hs)
  or_try (none, hs) others = others hs

  -- openFirstExisting
  unfoldable pub open_first : Str → List Str → Handles → Option Str × Handles
  open_first dir [] hs = (none, hs)
  open_first dir (n ∷ ns) hs = or_try (open_ro dir n hs) (λ rest. open_first dir ns rest)

  abbrev historical_names : List Str
  historical_names = codes "historical_data.db" ∷ codes "historical.db" ∷ []

  -- After the live database is open, the historical one.
  abbrev with_historical : Str → Option Str × Handles → Option (Str × Str) × Handles
  with_historical l (none, hs) = (none, (close_handle l hs).1)
  with_historical l (some h, hs) = (some (l, h), hs)

  abbrev with_live : Str → Option Str × Handles → Option (Str × Str) × Handles
  with_live dir (none, hs) = (none, hs)
  with_live dir (some l, hs) = with_historical l (open_first dir historical_names hs)

  -- OpenSQLite: the handles of the live and the historical database.
  unfoldable pub open_databases : Str → Handles → Option (Str × Str) × Handles
  open_databases dir hs = with_live dir (open_ro dir (codes "database.db") hs)

  -- Close of the SQLiteReader.
  unfoldable pub close_databases : Str × Str → Handles → Bool × Handles
  close_databases (l, h) hs =
      let live = close_handle l hs in let hist = close_handle h live.1 in (live.0 && hist.0, hist.1)

  -- OpenWriter
  unfoldable pub open_writer : Str → Handles → Option Str × Handles
  unfolding open_handle
  open_writer dir hs =
      open_handle
        (source_name (join_path dir (codes "database.db"))
          ((codes "mode", codes "rw") ∷ (codes "_txlock", codes "immediate") ∷ []))
        hs

  -- Close of the Writer, which may be nil.
  unfoldable pub close_writer : Option Str → Handles → Bool × Handles
  close_writer none hs = (true, hs)
  close_writer (some h) hs = close_handle h hs

  -- Whether a file of the directory opens for reading.
  abbrev pub opens_file : Str → Str → Bool
  opens_file dir name = opens (ro_name dir name) && pings (ro_name dir name)

  release-own : (h : Str) (hs : Handles) → release h (h ∷ hs) ≡ hs
  unfolding release
  release-own h hs = rw (str_eq_refl h) refl

  -- A handle more, or none.
  open_handle-opened :
      (dsn : Str) (hs : Handles)
      → open_handle dsn hs ≡ (if opens dsn && pings dsn then (some dsn, dsn ∷ hs) else (none, hs))
  unfolding open_handle
  open_handle-opened dsn hs = ground (arith, release-own dsn hs)

  open_ro-opened :
      (dir name : Str) (hs : Handles)
      → open_ro dir name hs ≡ (
          if opens_file dir name
          then (some (ro_name dir name), ro_name dir name ∷ hs)
          else (none, hs))
  unfolding open_ro
  open_ro-opened dir name hs = open_handle-opened (ro_name dir name) hs

  -- The handle of a name, if any, beside the others.
  abbrev opened : Str → Option Str → Handles → Option Str × Handles
  opened dir none hs = (none, hs)
  opened dir (some name) hs = (some (ro_name dir name), ro_name dir name ∷ hs)

  open_first-opened :
      (dir : Str) (ns : List Str) (hs : Handles)
      → open_first dir ns hs ≡ opened dir (open_first_existing (opens_file dir) ns) hs
  unfolding open_first open_first_existing
  open_first-opened dir [] hs = refl
  open_first-opened dir (n ∷ ns) hs =
      ap (λ r. or_try r (λ rest. open_first dir ns rest)) (open_ro-opened dir n hs)
      ∙ elim (Bool-cases (opens_file dir n)) [
        | inl e ↦ rw e refl
        | inr e ↦ rw e (open_first-opened dir ns hs)
      ]

  -- The two handles of two names, if any, beside the others.
  abbrev pub both_opened : Str → Option (Str × Str) → Handles → Option (Str × Str) × Handles
  both_opened dir none hs = (none, hs)
  both_opened dir (some (l, h)) hs =
      (some (ro_name dir l, ro_name dir h), ro_name dir h ∷ ro_name dir l ∷ hs)

  open_databases-opened :
      (dir : Str) (hs : Handles)
      → open_databases dir hs ≡ both_opened dir (open_sqlite (opens_file dir)) hs
  unfolding open_databases open_sqlite
  open_databases-opened dir hs =
      let live = ro_name dir (codes "database.db") in
      ap (with_live dir) (open_ro-opened dir (codes "database.db") hs)
      ∙ elim (Bool-cases (opens_file dir (codes "database.db"))) [
        | inr e ↦ rw e refl
        | inl e ↦ rw e (
            ap (with_historical live) (open_first-opened dir historical_names (live ∷ hs))
            ∙ elim (Option-cases (open_first_existing (opens_file dir) historical_names)) [
              | inl f ↦ rw f (ap (λ x. (none, x)) (release-own live hs))
              | inr (name, f) ↦ rw f refl
            ])
      ]

  -- Close gives both handles back.
  close_databases-both : (l h : Str) (hs : Handles) → (close_databases (l, h) (h ∷ l ∷ hs)).1 ≡ hs
  unfolding close_databases release
  close_databases-both l h hs = ground (arith, str_eq_iff h l, str_eq_refl h, str_eq_refl l)

  -- What is open after the reader, if there is one, is closed.
  abbrev pub after_close : Option (Str × Str) × Handles → Handles
  after_close (none, hs) = hs
  after_close (some reader, hs) = (close_databases reader hs).1

  -- OpenSQLite succeeds exactly when `open_sqlite` names two files, of which it opens those; and when
  -- it fails, or its reader is closed, the handles that are open are those from before.
  pub close_databases-open_databases :
      (dir : Str) (hs : Handles)
      → ((open_databases dir hs).0 ≡ (both_opened dir (open_sqlite (opens_file dir)) hs).0)
        × (after_close (open_databases dir hs) ≡ hs)
  close_databases-open_databases dir hs =
      let opened_both = open_databases-opened dir hs in
      (
        ap (λ r. r.0) opened_both,
        ap after_close opened_both ∙ elim (Option-cases (open_sqlite (opens_file dir))) [
          | inl e ↦ rw e refl
          | inr ((l, h), e) ↦ rw e (close_databases-both (ro_name dir l) (ro_name dir h) hs)
        ],
      )

-- ===== src/Tests/Handles.antt =====
-- The databases of a directory, of which the historical one goes by its other name.
use apsystems_sunspec.Base.{◌≡◌, not, true, some, [], ◌++◌, codes, str_eq}
use apsystems_sunspec.Source.Handles.{
  Engine, open_databases, after_close, close_databases-open_databases,
}
use apsystems_sunspec.Source.Reader.{open_sqlite}

abbrev engine : Engine
engine = record {
  join_path = λ dir name. dir ++ codes "/" ++ name;
  encode_values = λ values. codes "mode=ro";
  opens = λ dsn. true;
  pings = λ dsn. not (str_eq dsn (codes "file:/home/historical_data.db?mode=ro"));
  closes = λ dsn. true;
}

close_databases-open_databases_example :
    ((open_databases engine (codes "/home") []).0
      ≡ some (codes "file:/home/database.db?mode=ro", codes "file:/home/historical.db?mode=ro"))
    × (after_close engine (open_databases engine (codes "/home") []) ≡ [])
unfolding open_sqlite
close_databases-open_databases_example = close_databases-open_databases engine (codes "/home") []

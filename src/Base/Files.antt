-- ===== src/Base/Files.antt =====
-- What Go's os.ReadFile gives of a path.
use apsystems_sunspec.Base.Text.{Str}

pub data Stored : Type 0 where
  missing : Stored
  unreadable : Stored
  contents : Str → Stored

-- ===== src/Source/Joins.antt =====
-- What Build of internal/source/snapshot_builder.go joins onto the inverters of the parameter file: the
-- answers to the queries of internal/source/sqlite.go, as maps from the identifier.
use apsystems_sunspec.Base.{Option, none, some, List, [], ◌∷◌, Str, lookup, insert}
use apsystems_sunspec.Base.Int.{ℤ}
use apsystems_sunspec.Source.Inverter.{EventBits, Inverter}
use apsystems_sunspec.Source.Protection.Rows.{ProtectionRow}
use apsystems_sunspec.Source.Reader.{
  Scalar, Answer, InverterMeta, IdRow, per_inverter_limits, signal_strengths, latest_event_bits,
  inverter_list,
}

-- The engine's answers to the queries of one Build.
pub record Answers (F : Type 0) : Type 0 where
  pub lifetime : Scalar F
  pub today : Scalar F
  pub month : Scalar F
  pub year : Scalar F
  pub signals : Answer (Str × ℤ)
  pub limits : Answer (Str × ℤ)
  pub events : Answer (Str × Str)
  pub ids : Answer IdRow
  pub protection : Answer (ProtectionRow F)

-- `metaByUID[m.UID] = m` for each.
unfoldable pub metas_by_uid :
    List (Str × InverterMeta) → List InverterMeta → List (Str × InverterMeta)
metas_by_uid out [] = out
metas_by_uid out (m ∷ ms) = metas_by_uid (insert m.uid m out) ms

-- The map of a query, nil after an error.
abbrev pub or_nil : {A : Type 0} → Option (List A) → List A
or_nil none = []
or_nil (some m) = m

-- The maps that are joined onto the inverters.
pub record Joins : Type 0 where
  pub sig_by_uid : List (Str × ℤ)
  pub lim_by_uid : List (Str × ℤ)
  pub ev_by_uid : List (Str × EventBits)
  pub meta_by_uid : List (Str × InverterMeta)

abbrev pub joins_of : {F : Type 0} → Option (Answers F) → Joins
joins_of none = record { sig_by_uid = []; lim_by_uid = []; ev_by_uid = []; meta_by_uid = [] }
joins_of (some a) = record {
  sig_by_uid = or_nil (signal_strengths a.signals);
  lim_by_uid = or_nil (per_inverter_limits a.limits);
  ev_by_uid = or_nil (latest_event_bits a.events);
  meta_by_uid = metas_by_uid [] (or_nil (inverter_list a.ids));
}

module _ {F : Type 0} where
  abbrev pub with_meta : Option InverterMeta → Inverter F → Inverter F
  with_meta none inv = inv
  with_meta (some m) inv = record inv {
    model = m.model;
    software_ver = m.software_ver;
    phase = m.phase;
  }

  abbrev pub with_signal : Option ℤ → Inverter F → Inverter F
  with_signal none inv = inv
  with_signal (some rssi) inv = record inv { signal_strength = rssi }

  abbrev pub with_limit : Option ℤ → Inverter F → Inverter F
  with_limit none inv = inv
  with_limit (some w) inv = record inv { limited_power_w = w }

  abbrev pub with_events : Option EventBits → Inverter F → Inverter F
  with_events none inv = inv
  with_events (some bits) inv = record inv { event_bits = bits }

  unfoldable pub join_inverter : Joins → Inverter F → Inverter F
  join_inverter j inv = with_events (lookup inv.uid j.ev_by_uid) (
      with_limit (lookup inv.uid j.lim_by_uid)
        (with_signal (lookup inv.uid j.sig_by_uid) (with_meta (lookup inv.uid j.meta_by_uid) inv)))

  unfoldable pub join_all : Joins → List (Inverter F) → List (Inverter F)
  join_all j [] = []
  join_all j (inv ∷ invs) = join_inverter j inv ∷ join_all j invs

-- ===== src/Tests/Results.antt =====
-- The outcome of tracked writes, on the test fleet.
use apsystems_sunspec.Base.{◌≡◌, refl, some, lookup}
use apsystems_sunspec.Base.Int.{pos, ◌-ℤ◌, ◌+ℤ◌}
use apsystems_sunspec.Server.Refresh.{refresh}
use apsystems_sunspec.Server.Refresh.Outcome.{IsKeyed, get_status-refresh}
use apsystems_sunspec.Server.Tracker.{
  find_entry, get_status, matches_all, prot_get, prot_fields, matches_each, matches_one,
  unit_id_to_inverter_uid, protection_at,
}
use apsystems_sunspec.Tests.Machine.{fixed_point}
use apsystems_sunspec.Tests.Fleet.{fleet, no_table, options, lost_entry, two_writes, published}

two_writes-IsKeyed : IsKeyed two_writes
unfolding find_entry
two_writes-IsKeyed = (refl, (refl, tt))

-- At 1500, within 600 of the deadline 1000, the write of unit 3 is lost.
get_status-refresh_example :
    get_status
      (refresh fixed_point no_table (some fleet) options (pos 600) 1500 1501 published).tracker
      3
      711
    ≡ (2, 7)
unfolding find_entry unit_id_to_inverter_uid matches_all matches_each matches_one protection_at
    prot_get prot_fields lookup ◌-ℤ◌ ◌+ℤ◌
get_status-refresh_example =
    get_status-refresh fixed_point no_table fleet options (pos 600) 1500 1501 3 711 published
      lost_entry two_writes-IsKeyed refl refl

-- ===== src/Tests/Writers.antt =====
-- Writes to the models of internal/server, on the test fleet.
use apsystems_sunspec.Base.{
  ℕ, ◌+◌, ◌*◌, ◌^◌, ◌==◌, ◌≤◌, ◌≡◌, refl, true, false, ◌&&◌, ◌||◌, inl, some, none, [], ◌∷◌, Str,
  codes, str_eq, arith, if◌then◌else◌, lookup,
}
use apsystems_sunspec.Base.Int.{ℤ, pos, ◌*ℤ◌, quot}
use apsystems_sunspec.Source.Inverter.{Inverter}
use apsystems_sunspec.Source.Writer.{
  for_each, set_max_power, set_turn_on_off, exec_context, set_protection_param,
}
use apsystems_sunspec.Server.World.{World, write_touches, read_field, inverter_of_unit}
use apsystems_sunspec.Server.Tracker.{protection_at, matches_all}
use apsystems_sunspec.Server.ControlsWriter.{
  target_uids, controls_apply, cap_watts, apply_limit, apply_connect,
}
use apsystems_sunspec.Server.ControlsWriter.Reversion.{obeyed, controls_apply-running}
use apsystems_sunspec.Server.ControlsWriter.Switches.{controls_apply-switches}
use apsystems_sunspec.Server.ControlsWriter.Limits.{controls_apply-limits}
use apsystems_sunspec.Server.EnterServiceWriter.{enter_service_apply}
use apsystems_sunspec.Server.EnterServiceWriter.Delay.{
  enter_service_apply-refused, enter_service_apply-written,
}
use apsystems_sunspec.Server.FreqDroopWriter.{
  write_request, touches_read_only, write_fields, freq_droop_apply, request_of, wants_of,
}
use apsystems_sunspec.Server.Profiles.{dispatch, route_for, family_for_model, family_of_code}
use apsystems_sunspec.Server.FreqDroopWriter.Ranges.{OnlyWritable, InRange, freq_droop_apply-range}
use apsystems_sunspec.Server.FreqWattCurveWriter.{expected_points, freq_watt_curve_hz_points}
use apsystems_sunspec.Server.Tracker.Matching.{curve-unmatched}
use apsystems_sunspec.Server.Reverter.{Reverter, find_timer, pending}
use apsystems_sunspec.Server.Reverter.Orderly.{IsOrderly}
use apsystems_sunspec.Tests.Machine.{fixed_point, tables, tables-DatabaseLaws}
use apsystems_sunspec.Tests.Fleet.{roof_params, fleet, world}

-- A limit of 40 % for the second inverter.
controls_apply-limits_example :
    (controls_apply tables fleet 3 3 (40 ∷ []) world).1.db.limits (codes "704000002")
    ≡ some (pos 200)
unfolding controls_apply target_uids inverter_of_unit apply_limit apply_connect write_touches
    read_field for_each set_max_power exec_context cap_watts quot ◌*ℤ◌
controls_apply-limits_example =
    controls_apply-limits tables tables-DatabaseLaws fleet 3 3 (40 ∷ []) world (codes "704000002")
      refl

-- The second inverter is turned off.
controls_apply-switches_example :
    (controls_apply tables fleet 3 2 (0 ∷ []) world).1.db.switches (codes "704000002") ≡ some 0
unfolding controls_apply target_uids inverter_of_unit apply_limit apply_connect write_touches
    read_field for_each set_turn_on_off exec_context
controls_apply-switches_example =
    controls_apply-switches tables tables-DatabaseLaws fleet 3 2 (0 ∷ []) world (codes "704000002")
      refl

-- A delay of 60 seconds for the first inverter.
enter_service_apply-written_example :
    let w = (enter_service_apply fixed_point tables fleet 2 7 (0 ∷ 60 ∷ []) world).1 in
    (inv : Inverter ℤ) × (inverter_of_unit fleet 2 ≡ some inv)
    × (◌≡◌ {A = ℕ} 7 7)
    × (◌≡◌ {A = ℕ} 2 2)
    × (10 ≤ 60)
    × (60 ≤ 610)
    × ((i c : Str)
        → w.db.params i c ≡ (
            if str_eq inv.uid i && str_eq (codes "grid_recovery_time") c
            then some (pos 60 *ℤ pos 10000)
            else none))
unfolding enter_service_apply set_protection_param exec_context inverter_of_unit
enter_service_apply-written_example =
    enter_service_apply-written fixed_point tables tables-DatabaseLaws fleet 2 7 (0 ∷ 60 ∷ []) world
      refl

-- A delay of 5 seconds is refused.
enter_service_apply-refused_example :
    (enter_service_apply fixed_point tables fleet 2 7 (0 ∷ 5 ∷ []) world).1 ≡ world
unfolding enter_service_apply inverter_of_unit
enter_service_apply-refused_example =
    enter_service_apply-refused fixed_point tables tables-DatabaseLaws fleet 2 7 (0 ∷ 5 ∷ []) world
      (ground arith)

-- A slope of 200 for the second inverter.
freq_droop_apply-range_example :
    (inv : Inverter ℤ) × (inverter_of_unit fleet 3 ≡ some inv)
    × OnlyWritable fixed_point tables 16 (200 ∷ [])
    × (let r =
          request_of fixed_point tables inv
            (protection_at fixed_point fleet inv.uid)
            16
            (200 ∷ []) in
        (r.wants.ena || r.wants.db_of || r.wants.k_of || r.wants.rsp_tms) ≡ true
        → InRange fixed_point tables r)
unfolding freq_droop_apply write_request request_of touches_read_only write_fields inverter_of_unit
    write_touches wants_of protection_at lookup read_field dispatch route_for family_for_model
    family_of_code set_protection_param exec_context
freq_droop_apply-range_example =
    freq_droop_apply-range fixed_point tables fleet 3 16 (200 ∷ []) world refl

-- A write of Hz1 alone.
curve-unmatched_example :
    matches_all fixed_point roof_params
      (expected_points fixed_point tables 11 (4950 ∷ []) freq_watt_curve_hz_points)
    ≡ false
unfolding write_touches
curve-unmatched_example = curve-unmatched fixed_point tables roof_params 11 (4950 ∷ []) (inl refl)

-- A unit 3 and a unit 4 with a timer each.
abbrev two_timers : Reverter
two_timers = record {
  timers = (3, 0) ∷ (4, 1) ∷ [];
  running =
      record { id = 0; unit = 3; due = 500; targets = [] }
      ∷ record { id = 1; unit = 4; due = 600; targets = [] }
      ∷ [];
  firing = [];
  next_id = 2;
}

two_timers-IsOrderly : IsOrderly two_timers
unfolding find_timer
two_timers-IsOrderly =
    ((refl, (refl, tt)), (λ u v id h k. ground (arith, h, k)), λ u id h. ground (arith, h))

abbrev timed_world : World tables
timed_world = record world { reverter = two_timers }

-- 40 % for a minute: the timer of unit 3 is replaced.
controls_apply-running_example :
    let r = (controls_apply tables fleet 3 3 (40 ∷ 0 ∷ 60 ∷ []) timed_world).1.reverter in
    IsOrderly r
    × (r.running
        ≡ record { id = 2; unit = 3; due = 100 + 60 * 10 ^ 9; targets = codes "704000002" ∷ [] }
          ∷ record { id = 1; unit = 4; due = 600; targets = [] }
          ∷ [])
    × ((u : ℕ) → pending u r ≡ obeyed (some true) (3 == u) (pending u two_timers))
unfolding controls_apply target_uids inverter_of_unit apply_limit apply_connect write_touches
    read_field for_each set_max_power exec_context cap_watts quot ◌*ℤ◌
controls_apply-running_example =
    controls_apply-running tables fleet 3 3 (40 ∷ 0 ∷ 60 ∷ []) timed_world two_timers-IsOrderly refl

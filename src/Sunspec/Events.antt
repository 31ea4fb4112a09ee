-- ===== src/Sunspec/Events.antt =====
-- internal/sunspec/events.go: APsystems event bits translated to SunSpec's Evt1, and the operating
-- states of internal/sunspec/encoder.go.
use Prim.Native.Nat.{bit_or}
use apsystems_sunspec.Base.{ℕ, ◌/◌, ◌%◌, ◌^◌, Bool, false, ◌||◌, ◌&&◌, ltb, ◌==◌, if◌then◌else◌}
use apsystems_sunspec.Base.Int.{ℤ, pos, ltb_ℤ, leb_ℤ}
use apsystems_sunspec.Source.Inverter.{EventBits}

-- The slot bits[n / 32].
abbrev slot : EventBits → ℕ → ℕ
slot e i =
    if i == 0 then e.bits0 else if i == 1 then e.bits1 else if i == 2 then e.bits2 else e.bits3

-- Whether APsystems bit `n` is set: bits[n / 32] & (1 << (n % 32)) != 0.
unfoldable pub aps : EventBits → ℕ → Bool
aps e n = if ltb n 128 then slot e (n / 32) / 2 ^ (n % 32) % 2 == 1 else false

abbrev pub evt1_ground_fault : ℕ
evt1_ground_fault = 2 ^ 0

abbrev pub evt1_dc_over_volt : ℕ
evt1_dc_over_volt = 2 ^ 1

abbrev pub evt1_ac_disconnect : ℕ
evt1_ac_disconnect = 2 ^ 2

abbrev pub evt1_grid_disconnect : ℕ
evt1_grid_disconnect = 2 ^ 4

abbrev pub evt1_manual_shutdown : ℕ
evt1_manual_shutdown = 2 ^ 6

abbrev pub evt1_over_temp : ℕ
evt1_over_temp = 2 ^ 7

abbrev pub evt1_over_frequency : ℕ
evt1_over_frequency = 2 ^ 8

abbrev pub evt1_under_frequency : ℕ
evt1_under_frequency = 2 ^ 9

abbrev pub evt1_ac_over_volt : ℕ
evt1_ac_over_volt = 2 ^ 10

abbrev pub evt1_ac_under_volt : ℕ
evt1_ac_under_volt = 2 ^ 11

abbrev pub evt1_hw_test_failure : ℕ
evt1_hw_test_failure = 2 ^ 15

-- `if b { evt |= flag }`
abbrev pub flag_if : Bool → ℕ → ℕ → ℕ
flag_if b flag evt = if b then bit_or evt flag else evt

unfoldable pub map_apsystems_to_sunspec_evt1 : EventBits → ℕ
map_apsystems_to_sunspec_evt1 e =
    let evt0 = flag_if (aps e 17) evt1_ground_fault 0 in
    let evt1 = flag_if (aps e 8 || aps e 10 || aps e 39 || aps e 41) evt1_dc_over_volt evt0 in
    let evt2 = flag_if (aps e 19) evt1_ac_disconnect evt1 in
    let evt3 = flag_if (aps e 18) evt1_manual_shutdown evt2 in
    let evt4 = flag_if (aps e 16) evt1_over_temp evt3 in
    let evt5 = flag_if (aps e 0 || aps e 29 || aps e 31) evt1_over_frequency evt4 in
    let evt6 = flag_if (aps e 1 || aps e 30 || aps e 32) evt1_under_frequency evt5 in
    let evt7 =
      flag_if
        (aps e 2 || aps e 4 || aps e 6 || aps e 23 || aps e 33 || aps e 35 || aps e 37 || aps e 44)
        evt1_ac_over_volt evt6 in
    let evt8 =
      flag_if
        (aps e 3 || aps e 5 || aps e 7 || aps e 24 || aps e 34 || aps e 36 || aps e 38 || aps e 45)
        evt1_ac_under_volt evt7 in
    let evt9 = flag_if (aps e 21) evt1_grid_disconnect evt8 in
    flag_if (aps e 28) evt1_hw_test_failure evt9

abbrev pub st_off : ℕ
st_off = 1

abbrev pub st_sleep : ℕ
st_sleep = 2

abbrev pub st_mppt : ℕ
st_mppt = 4

abbrev pub st_standby : ℕ
st_standby = 8

unfoldable pub aggregate_operating_state : ℤ → ℤ → ℕ
aggregate_operating_state online_count system_power_w =
    if leb_ℤ online_count (pos 0) && leb_ℤ (pos 0) online_count
    then st_sleep
    else if ltb_ℤ (pos 0) system_power_w
    then st_mppt
    else st_standby

unfoldable pub inverter_operating_state : Bool → ℤ → ℕ
inverter_operating_state online ac_power_w =
    if online then (if ltb_ℤ (pos 0) ac_power_w then st_mppt else st_standby) else st_sleep

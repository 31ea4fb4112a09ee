-- ===== src/Source/Inverter.antt =====
-- internal/source/snapshot.go: one microinverter, and what derives from its type code.
use apsystems_sunspec.Base.{
  ℕ, ◌≤◌, ◌≡◌, ◌≢◌, Bool, Option, none, some, List, [], ◌∷◌, ◌||◌, Str, codes, str_eq, length,
  get_or, leb, if◌then◌else◌, arith,
}
use apsystems_sunspec.Base.Int.{ℤ, pos}

-- The four uint32 slots that hold the event bitstring, lowest bits first.
pub record EventBits : Type 0 where
  pub bits0 : ℕ
  pub bits1 : ℕ
  pub bits2 : ℕ
  pub bits3 : ℕ

-- `F` is the type of float64 values.
pub record Inverter (F : Type 0) : Type 0 where
  pub uid : Str
  pub online : Bool
  pub type_code : Str
  pub frequency_hz : F
  pub temperature_c : ℤ
  pub ac_voltage_v : ℤ
  pub ac_power_w : ℤ
  pub signal_strength : ℤ
  pub phase : ℤ
  pub model : ℤ
  pub software_ver : ℤ
  pub limited_power_w : ℤ
  pub raw_tail : List ℤ
  pub event_bits : EventBits

-- `case "01", "04"` and `case "03"` of the switches on the type code.
abbrev pub is_two_channel : Str → Bool
is_two_channel t = str_eq t (codes "01") || str_eq t (codes "04")

abbrev pub is_four_channel : Str → Bool
is_four_channel t = str_eq t (codes "03")

unfoldable pub panel_count : {F : Type 0} → Inverter F → ℕ
panel_count inv =
    if is_two_channel inv.type_code then 2 else if is_four_channel inv.type_code then 4 else 0

-- An index that a length test has shown to be in range.
abbrev pub tail_at : List ℤ → ℕ → ℤ
tail_at t i = get_or t i (pos 0)

-- The channels' powers in the columns of the type; nil when the row is too short.
unfoldable pub tail_powers : Str → List ℤ → List ℤ
tail_powers code t =
    if is_two_channel code
    then (if leb 5 (length t) then tail_at t 1 ∷ tail_at t 3 ∷ [] else [])
    else if is_four_channel code
    then (if leb 6 (length t)
        then tail_at t 1 ∷ tail_at t 3 ∷ tail_at t 4 ∷ tail_at t 5 ∷ []
        else [])
    else []

unfoldable pub panel_powers : {F : Type 0} → Inverter F → List ℤ
unfolding tail_powers
panel_powers inv = if inv.online then tail_powers inv.type_code inv.raw_tail else []

-- The table loaded at startup, from the model number to watts; `none` where it has no entry.
abbrev pub NameplateTable : Type 0
NameplateTable = ℤ → Option ℤ

type_nameplate : Str → ℤ
type_nameplate t =
    if str_eq t (codes "01")
    then pos 730
    else if str_eq t (codes "03")
    then pos 1460
    else if str_eq t (codes "04")
    then pos 880
    else pos 0

unfoldable pub nameplate_w : {F : Type 0} → NameplateTable → Inverter F → ℤ
unfolding type_nameplate
nameplate_w tbl inv = elim (tbl inv.model) [ some w ↦ w | none ↦ type_nameplate inv.type_code ]

-- The powers, when there are any, number the panels of the type: at most four.
pub length-panel_powers :
    {F : Type 0} (inv : Inverter F)
    → panel_powers inv ≢ []
    → length (panel_powers inv) ≡ panel_count inv
unfolding panel_powers panel_count
length-panel_powers inv h = ground arith

pub length-panel_powers-le : {F : Type 0} (inv : Inverter F) → length (panel_powers inv) ≤ 4
unfolding panel_powers
length-panel_powers-le inv = ground arith

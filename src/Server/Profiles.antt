-- ===== src/Server/Profiles.antt =====
-- internal/server/profiles.go: the write route of a parameter for an inverter family.
pub mod Points
use apsystems_sunspec.Base.{ℕ, ◌||◌, some, Str, codes, str_eq, ◌==◌, if◌then◌else◌}
use apsystems_sunspec.Base.Int.{ℤ, pos, negsuc}
use apsystems_sunspec.Source.Database.{Database}
use apsystems_sunspec.Source.Writer.{
  route_grid_profile, route_unsupported, Action, set_protection_param,
}

pub data InverterFamily : Type 0 where
  family_unknown family_ds3 family_qt2 family_qs1a family_yc600 family_yc1000 : InverterFamily

unfoldable pub family_of_code : ℕ → InverterFamily
family_of_code c =
    if c == 7 || c == 0x17
    then family_yc600
    else if c == 8 || c == 0x18
    then family_qs1a
    else if c == 5 || c == 6
    then family_yc1000
    else if c == 0x20 || c == 0x21 || c == 0x22 || c == 0x36
    then family_ds3
    else if c == 0x29 || c == 0x30 || c == 0x31 || c == 0x32
    then family_qt2
    else family_unknown

unfoldable pub family_for_model : ℤ → InverterFamily
family_for_model (pos c) = family_of_code c
family_for_model (negsuc c) = family_unknown

pub data WriteRoute : Type 0 where
  route_direct route_by_grid_profile route_not_supported : WriteRoute

abbrev pub aps_recover_high_name : Str
aps_recover_high_name = codes "Over_frequency_Watt_recover_High_set"

abbrev pub aps_delay_time_name : Str
aps_delay_time_name = codes "Over_frequency_Watt_Delay_Time_set"

abbrev pub aps_slope_name : Str
aps_slope_name = codes "Over_Frequency_Watt_Slope_set"

unfoldable pub route_for : InverterFamily → Str → WriteRoute
route_for family_unknown param = route_not_supported
route_for family_qs1a param =
    if str_eq param aps_recover_high_name
      || str_eq param aps_slope_name
      || str_eq param aps_delay_time_name
    then route_not_supported
    else route_direct
route_for _ param = route_direct

module _ {F : Type 0} (d : Database F) where
  -- What `dispatch` does on each route.
  along_route : WriteRoute → Str → Str → F → Action d.Db
  along_route route_direct uid param x = set_protection_param d uid param x
  along_route route_by_grid_profile uid param x = λ db. (some route_grid_profile, db)
  along_route route_not_supported uid param x = λ db. (some route_unsupported, db)

  -- The closure `dispatch` of the two frequency writers.
  unfoldable pub dispatch : InverterFamily → Str → Str → F → Action d.Db
  unfolding along_route
  dispatch family uid param x = along_route (route_for family param) uid param x

-- ===== src/Config.antt =====
-- internal/config/config.go: who may write. Go's package `net` and the host's interfaces come in
-- through `Net`.
pub mod Load
use mathlib.Core.Option.{some-injective}
use mathlib.Core.Path.{subst}
use apsystems_sunspec.Base.{
  ◌≡◌, sym, ◌∙◌, Bool, true, false, not, ◌&&◌, Option, some, none, List, [], ◌∷◌, Str,
  if◌then◌else◌, ◌⊎◌, inl, inr, ◌↔◌, arith, Any, Option-cases,
}

pub record Net : Type 1 where
  pub Ip : Type 0
  pub Cidr : Type 0
  -- SplitHostPort's host; `none` is an error.
  pub split_host_port : Str → Option Str
  pub parse_ip : Str → Option Ip
  pub parse_cidr : Str → Option Cidr
  pub is_loopback : Ip → Bool
  pub equal : Ip → Ip → Bool
  pub contains_ip : Cidr → Ip → Bool
  pub base_ip : Cidr → Ip
  -- The subnets of the host's interfaces; `none` is an error.
  pub interface_subnets : Option (List Cidr)

-- The two flags are pointers, which may be nil.
pub record WritesConfig : Type 0 where
  pub enabled : Option Bool
  pub allow_list : List Str
  pub allow_local_network : Option Bool

abbrev default_true : Option Bool → Bool
default_true none = true
default_true (some b) = b

unfoldable pub is_enabled : WritesConfig → Bool
is_enabled c = default_true c.enabled

unfoldable pub local_allowed : WritesConfig → Bool
local_allowed c = default_true c.allow_local_network

module _ (n : Net) where
  open n use {
    Ip, Cidr, split_host_port, parse_ip, parse_cidr, is_loopback, equal, contains_ip, base_ip,
    interface_subnets,
  }

  -- The loop of ipInLocalNetwork.
  in_subnets : Ip → List Cidr → Bool
  in_subnets ip [] = false
  in_subnets ip (c ∷ cs) =
      if contains_ip c ip && not (is_loopback (base_ip c)) then true else in_subnets ip cs

  unfoldable pub ip_in_local_network : Ip → Bool
  unfolding in_subnets
  ip_in_local_network ip = elim interface_subnets [ none ↦ false | some cs ↦ in_subnets ip cs ]

  item_is_valid : Str → Bool
  item_is_valid item = elim (parse_cidr item) [
    | some c ↦ true
    | none ↦ elim (parse_ip item) [ some ip ↦ true | none ↦ false ]
  ]

  items_are_valid : List Str → Bool
  unfolding item_is_valid
  items_are_valid [] = true
  items_are_valid (item ∷ items) = if item_is_valid item then items_are_valid items else false

  -- Whether `validate` returns nil.
  unfoldable pub validate : WritesConfig → Bool
  unfolding items_are_valid
  validate c = items_are_valid c.allow_list

  item_allows : Ip → Str → Bool
  item_allows ip item = elim (parse_ip item) [
    | some other ↦ equal other ip
    | none ↦ elim (parse_cidr item) [ some c ↦ contains_ip c ip | none ↦ false ]
  ]

  unfoldable pub list_allows : Ip → List Str → Bool
  unfolding item_allows
  list_allows ip [] = false
  list_allows ip (item ∷ items) = if item_allows ip item then true else list_allows ip items

  ip_allowed : WritesConfig → Ip → Bool
  ip_allowed c ip =
      if is_loopback ip
      then true
      else if local_allowed c && ip_in_local_network ip
      then true
      else list_allows ip c.allow_list

  -- The host of an address, or the address itself where it has no port.
  unfoldable pub host_of : Str → Str
  host_of addr = elim (split_host_port addr) [ some host ↦ host | none ↦ addr ]

  unfoldable pub allows_write : WritesConfig → Str → Bool
  unfolding ip_allowed
  allows_write c remote =
      if not (is_enabled c)
      then false
      else elim (parse_ip (host_of remote)) [ none ↦ false | some ip ↦ ip_allowed c ip ]

  -- The address lies in a subnet that is not one of the loopback.
  abbrev pub IsOn : Ip → Cidr → Type 0
  IsOn ip c = (contains_ip c ip ≡ true) × (is_loopback (base_ip c) ≡ false)

  -- The address lies in such a subnet of the host's interfaces, which can be read.
  abbrev pub IsLocal : Ip → Type 0
  IsLocal ip = (cs : List Cidr) × (interface_subnets ≡ some cs) × Any (IsOn ip) cs

  -- The item is an equal address, or is no address but a subnet that contains the address.
  abbrev pub IsNamed : Ip → Str → Type 0
  IsNamed ip item =
      ((other : Ip) × (parse_ip item ≡ some other) × (equal other ip ≡ true))
      ⊎ ((parse_ip item ≡ none)
          × ((c : Cidr) × (parse_cidr item ≡ some c) × (contains_ip c ip ≡ true)))

  in_subnets_iff : (ip : Ip) (cs : List Cidr) → (in_subnets ip cs ≡ true) ↔ Any (IsOn ip) cs
  unfolding in_subnets
  in_subnets_iff ip [] = ground arith
  in_subnets_iff ip (c ∷ cs) = ground (arith, in_subnets_iff ip cs)

  ip_in_local_network_iff : (ip : Ip) → (ip_in_local_network ip ≡ true) ↔ IsLocal ip
  unfolding ip_in_local_network
  ip_in_local_network_iff ip = elim (Option-cases interface_subnets) [
    | inl e ↦ ground (arith, e)
    | inr (cs, e) ↦ (
      λ h. (cs, e, (in_subnets_iff ip cs).0 (ground (arith, e, h))),
      λ h. ground (
        arith,
        e,
        (in_subnets_iff ip cs).1 (subst (Any (IsOn ip)) (some-injective _ _ (sym h.1 ∙ e)) h.2),
      ),
    )
  ]

  item_allows_iff : (ip : Ip) (item : Str) → (item_allows ip item ≡ true) ↔ IsNamed ip item
  unfolding item_allows
  item_allows_iff ip item = elim (Option-cases (parse_ip item)) [
    | inl e ↦ elim (Option-cases (parse_cidr item)) [
      | inl k ↦ ground (arith, e, k)
      | inr (c, k) ↦ ground (arith, e, k)
    ]
    | inr (other, e) ↦ ground (arith, e)
  ]

  list_allows_iff :
      (ip : Ip) (items : List Str) → (list_allows ip items ≡ true) ↔ Any (IsNamed ip) items
  unfolding list_allows
  list_allows_iff ip [] = ground arith
  list_allows_iff ip (item ∷ items) =
      ground (arith, item_allows_iff ip item, list_allows_iff ip items)

  -- The loopback, or a local address while local writes are on, or one that the list names.
  abbrev pub MayWrite : WritesConfig → Ip → Type 0
  MayWrite c ip =
      (is_loopback ip ≡ true)
      ⊎ (((local_allowed c ≡ true) × IsLocal ip) ⊎ Any (IsNamed ip) c.allow_list)

  ip_allowed_iff : (c : WritesConfig) (ip : Ip) → (ip_allowed c ip ≡ true) ↔ MayWrite c ip
  unfolding ip_allowed
  ip_allowed_iff c ip = ground (arith, ip_in_local_network_iff ip, list_allows_iff ip c.allow_list)

  -- A write is allowed exactly when writes are on and the host of the client parses as an address that
  -- is the loopback; or that, while local writes are on, lies in a subnet of the host's interfaces that
  -- is not one of the loopback; or that an item of the list names: as an equal address or, where the
  -- item is no address, as a subnet that contains it.
  pub allows_write_iff :
      (c : WritesConfig) (remote : Str)
      → (allows_write c remote ≡ true) ↔ (
          (is_enabled c ≡ true)
          × ((ip : Ip) × (parse_ip (host_of remote) ≡ some ip) × MayWrite c ip))
  unfolding allows_write
  allows_write_iff c remote = elim (Option-cases (parse_ip (host_of remote))) [
    | inl e ↦ ground (arith, e)
    | inr (ip, e) ↦ (
      λ h. (ground (arith, h), (ip, e, (ip_allowed_iff c ip).0 (ground (arith, e, h)))),
      λ h. ground (
        arith,
        e,
        h.0,
        (ip_allowed_iff c ip).1 (subst (MayWrite c) (some-injective _ _ (sym h.1.1 ∙ e)) h.1.2),
      ),
    )
  ]

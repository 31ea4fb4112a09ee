-- ===== src/Config/Load.antt =====
-- Load of internal/config/config.go. os.ReadFile and json.Unmarshal come in as functions.
use mathlib.Core.Path.{subst}
use apsystems_sunspec.Base.{
  ap, sym, ◌∙◌, ◌≡◌, true, Option, none, some, [], Str, codes, is_empty, if◌then◌else◌, ◌⊎◌, inl,
  inr, ◌↔◌, arith,
}
use apsystems_sunspec.Base.Files.{Stored, missing, unreadable, contents}
use apsystems_sunspec.Config.{
  Net, WritesConfig, is_enabled, local_allowed, validate, host_of, ip_in_local_network, list_allows,
  allows_write,
}

pub data LoadError : Type 0 where
  read_failed parse_failed invalid : LoadError

abbrev pub default_path : Str
default_path = codes "/home/sunspec.json"

-- Config{}
abbrev pub zero_config : WritesConfig
zero_config = record { enabled = none; allow_list = []; allow_local_network = none }

module _ (n : Net) where
  abbrev pub validated : WritesConfig → LoadError ⊎ WritesConfig
  validated c = if validate n c then inr c else inl invalid

  abbrev pub load_stored : (Str → Option WritesConfig) → Stored → LoadError ⊎ WritesConfig
  load_stored unmarshal missing = inr zero_config
  load_stored unmarshal unreadable = inl read_failed
  load_stored unmarshal (contents b) = elim (unmarshal b) [
    | none ↦ inl parse_failed
    | some c ↦ validated c
  ]

  unfoldable pub load :
      (Str → Stored) → (Str → Option WritesConfig) → Str → LoadError ⊎ WritesConfig
  load read unmarshal path =
      load_stored unmarshal (read (if is_empty path then default_path else path))

  allows_write-zero_config :
      (remote : Str) (ip : n.Ip)
      → n.parse_ip (host_of n remote) ≡ some ip
      → (allows_write n zero_config remote ≡ true)
        ↔ ((n.is_loopback ip ≡ true) ⊎ (ip_in_local_network n ip ≡ true))
  unfolding allows_write is_enabled local_allowed list_allows
  allows_write-zero_config remote ip host = ground (arith, host)

  abbrev loaded_config : LoadError ⊎ WritesConfig → WritesConfig
  loaded_config (inl e) = zero_config
  loaded_config (inr c) = c

  loaded_config-missing :
      (unmarshal : Str → Option WritesConfig) (stored : Stored) (c : WritesConfig)
      → stored ≡ missing
      → load_stored unmarshal stored ≡ inr c
      → zero_config ≡ c
  loaded_config-missing unmarshal stored c absent loaded =
      ap (λ x. loaded_config (load_stored unmarshal x)) (sym absent) ∙ ap loaded_config loaded

  -- The configuration that Load returns of a path, an empty one replaced by the default, where there is
  -- no file: a client whose host is an address may write exactly when that address is the
  -- loopback or in a subnet of the host's interfaces.
  pub allows_write-load :
      (read : Str → Stored) (unmarshal : Str → Option WritesConfig) (path : Str) (c : WritesConfig)
      (remote : Str) (ip : n.Ip)
      → read (if is_empty path then default_path else path) ≡ missing
      → load read unmarshal path ≡ inr c
      → n.parse_ip (host_of n remote) ≡ some ip
      → (allows_write n c remote ≡ true)
        ↔ ((n.is_loopback ip ≡ true) ⊎ (ip_in_local_network n ip ≡ true))
  unfolding load
  allows_write-load read unmarshal path c remote ip absent loaded host =
      subst
        (λ c.
          (allows_write n c remote ≡ true)
          ↔ ((n.is_loopback ip ≡ true) ⊎ (ip_in_local_network n ip ≡ true)))
        (loaded_config-missing unmarshal _ c absent loaded)
        (allows_write-zero_config remote ip host)

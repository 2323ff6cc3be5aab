-- ===== src/Config/Tests.antt =====
-- Examples of configurations.
use pebbis.Prelude.{◌≡◌, refl, none}
use pebbis.Prelude.Int.{pos, negsuc}
use pebbis.Prelude.Bytes.{codes, bytes_eq}
use pebbis.Config.{
  Config, default_config, validate, is_power_of_two, check_policy, check_mode, check_load,
  check_sync, with_defaults, to_lower, positive_or, nonzero_or, not_below_zero, nonzero_size,
}
use pebbis.Config.Valid.{IsValid, validate-IsValid}

-- Names in capitals, and numbers that have a default.
abbrev loose : Config
loose = record default_config {
  max_memory = 1000;
  eviction_policy = codes "AllKeys-LRU";
  load_mode = codes "Lazy";
  eviction_sample = pos 0;
  inline_value_max_size = negsuc 4;
}

abbrev strict : Config
strict = record loose {
  eviction_policy = codes "allkeys-lru";
  load_mode = codes "lazy";
  eviction_sample = pos 5;
  inline_value_max_size = pos 0;
}

loose_passes : validate loose ≡ (strict, none)
unfolding validate is_power_of_two check_policy check_mode check_load check_sync with_defaults
    to_lower positive_or nonzero_or not_below_zero nonzero_size bytes_eq
loose_passes = refl

validate-IsValid_example : IsValid strict × (validate strict ≡ (strict, none))
validate-IsValid_example = validate-IsValid loose strict loose_passes

-- ===== src/Config/Load.antt =====
-- internal/config/config.go: `Load`. The viper library with the environment and the files that it
-- reads, and the encoding of YAML, are parameters.
pub mod Accepted
use wallbox_homeautomation_g.Base.{Option, String, if◌then◌else◌, none, not, some, ◌==◌}
use wallbox_homeautomation_g.Config.{Config, default}
use wallbox_homeautomation_g.Config.Validate.{ConfigError, validate}
use wallbox_homeautomation_g.Go.Float.{Float}
use wallbox_homeautomation_g.Go.Result.{Result, err, of_option, ok, ◌>>=◌, ◌>>◌}

-- what `MergeInConfig` makes of the values so far
pub data Merged {ℓ} (V : Type ℓ) : Type ℓ where
  merged : V → Merged V
  file_missing file_broken : Merged V

pub record Viper {ℓ κ} (V : Type ℓ) (W : Type κ) : Type (ℓ ⊔ κ) where
  -- `viper.New` with the environment to look in
  pub fresh : V
  pub marshal : Config W → Option String
  pub merge_config : String → V → Option V
  -- a file that is named, and one that is searched for
  pub merge_file : String → V → Merged V
  pub merge_found : V → Merged V
  -- over the given values
  pub unmarshal : V → Config W → Option (Config W)

module _ {ℓ} {V : Type ℓ} where
  -- A file that is named must be there.
  abbrev of_named : Merged V → Result V
  of_named (merged v) = ok v
  of_named file_missing = err
  of_named file_broken = err

  abbrev of_searched : V → Merged V → Result V
  of_searched v (merged v') = ok v'
  of_searched v file_missing = ok v
  of_searched v file_broken = err

module _ {ℓ κ} {V : Type ℓ} {W : Type κ} ⦃f : Float W⦄ (viper : Viper V W) where
  -- `path` is WHA_CONFIG.
  unfoldable pub overlay : String → V → Result V
  overlay path v =
      if not (path == "")
      then of_named (viper.merge_file path v)
      else of_searched v (viper.merge_found v)

  abbrev pub checked : Config W → Option ConfigError → Result (Config W)
  checked cfg none = ok cfg
  checked cfg (some e) = err

  unfoldable pub load_config : String → Result (Config W)
  load_config path = do
    seed ← of_option (viper.marshal default)
    v ← of_option (viper.merge_config seed viper.fresh)
    v' ← overlay path v
    cfg ← of_option (viper.unmarshal v' default)
    checked cfg (validate cfg)

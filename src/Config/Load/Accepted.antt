-- ===== src/Config/Load/Accepted.antt =====
-- config.go: what `Load` returns.
use wallbox_homeautomation_g.Base.{Option, String, none, refl, some, subst, ◌≡◌}
use wallbox_homeautomation_g.Config.{Config, default}
use wallbox_homeautomation_g.Config.Load.{Viper, checked, load_config, overlay}
use wallbox_homeautomation_g.Config.Valid.{IsValid, validate-none_iff}
use wallbox_homeautomation_g.Config.Validate.{ConfigError, validate}
use wallbox_homeautomation_g.Go.Float.{Float}
use wallbox_homeautomation_g.Go.Result.{bind-ok, of_option, ok}

module _ {ℓ κ} {V : Type ℓ} {W : Type κ} ⦃f : Float W⦄ (viper : Viper V W) where
  checked-ok :
      (cfg got : Config W) (o : Option ConfigError)
      → checked viper got o ≡ ok cfg
      → (got ≡ cfg) × (o ≡ none)
  checked-ok cfg got none h = (cc, refl)
  checked-ok cfg got (some e) h = absurd (cc)

  -- A configuration that `Load` returns is valid, whatever the files and the environment hold.
  pub load_config-IsValid :
      (path : String) (cfg : Config W) → load_config viper path ≡ ok cfg → IsValid cfg
  unfolding load_config
  load_config-IsValid path cfg h =
      let (seed, _, h₁) = bind-ok (of_option (viper.marshal default)) _ cfg h in
      let (v, _, h₂) = bind-ok (of_option (viper.merge_config seed viper.fresh)) _ cfg h₁ in
      let (v', _, h₃) = bind-ok (overlay viper path v) _ cfg h₂ in
      let (got, _, h₄) = bind-ok (of_option (viper.unmarshal v' default)) _ cfg h₃ in
      let (same, fine) = checked-ok cfg got (validate got) h₄ in
      subst IsValid same ((validate-none_iff got).0 fine)

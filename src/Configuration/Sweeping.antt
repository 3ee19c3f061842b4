-- ===== src/Configuration/Sweeping.antt =====
-- What a sweep of `generateParameterSweep` in src/utils/config_utils.cpp makes of a valid configuration.
use cache_simulator.Prelude.{◌≡◌, List, [], ◌∷◌, Option, none, some, if◌then◌else◌}
use cache_simulator.Trace.Text.{Text}
use cache_simulator.Configuration.Numbers.{is_text}
use cache_simulator.Configuration.State.{ParameterValue, SimulatorConfig}
use cache_simulator.Configuration.Validation.{validate_config}
use cache_simulator.Configuration.Comparison.{compare_configs}
use cache_simulator.Configuration.Changes.{difference_of}
use cache_simulator.Configuration.Sweep.{extra_option, Parameter, parameter_of}

abbrev pub IsValid : {Double : Type 0} → SimulatorConfig Double → Type 0
IsValid config = validate_config config ≡ none

-- The value of an option, the newest where there are several.
unfoldable pub option_of {ℓ} : {A : Type ℓ} → Text → List (Text × A) → Option A
option_of key [] = none
option_of key ((name, value) ∷ rest) = if is_text key name then some value else option_of key rest

-- An extra option has its value and every other key keeps its own; any other parameter adds no option.
abbrev pub AddsOption {ℓ} :
    {A : Type ℓ} → Parameter → Text → A → List (Text × A) → List (Text × A) → Type ℓ
AddsOption extra_option param value before after =
    (key : Text)
    → option_of key after ≡ (if is_text key param then some value else option_of key before)
AddsOption _ param value before after = after ≡ before

-- The configuration for one value: valid, and with no difference from the base but in the parameter,
-- which has the value.
pub record IsSwept {Double : Type 0} (base : SimulatorConfig Double) (param : Text)
    (value : ParameterValue Double) (config : SimulatorConfig Double) : Type 0 where
  pub valid : IsValid config
  pub changed :
      compare_configs base config ≡ difference_of (parameter_of param) value base.hierarchy_config
  pub option : AddsOption (parameter_of param) param value base.extra_options config.extra_options

-- One configuration for each value, in their order.
abbrev pub AllSwept :
    {Double : Type 0}
    → SimulatorConfig Double
    → Text
    → List (ParameterValue Double)
    → List (SimulatorConfig Double)
    → Type 0
AllSwept base param [] [] = Unit
AllSwept base param (value ∷ values) (config ∷ configs) =
    IsSwept base param value config × AllSwept base param values configs
AllSwept base param _ _ = ⊥

-- ===== src/Options/Backoff.antt =====
-- `ReconnectPolicy::compute_delay`. The language's floats are an interface: `of_bits` reads the growth
-- factor, and `to_duration` is `Duration::from_secs_f64`, which panics outside its range.
use mqtt_async_embedded.Prelude.{ℕ, ◌-◌, Option, some, ltb, leb, if◌then◌else◌}
use mqtt_async_embedded.Options.{ReconnectPolicy}

pub record Floats (F : Type 0) : Type 0 where
  pub of_bits : ℕ → F
  pub of_duration : ℕ → F
  pub to_duration : F → Option ℕ
  pub powi : F → ℕ → F
  pub mul : F → F → F
  pub min : F → F → F

-- `(attempt - 2).min(10)`
abbrev pub exponent : ℕ → ℕ
exponent attempt = if ltb (attempt - 2) 10 then attempt - 2 else 10

unfoldable pub compute_delay : {F : Type 0} → Floats F → ReconnectPolicy → ℕ → Option ℕ
compute_delay f policy attempt =
    if leb attempt 1
    then some 0
    else Floats.to_duration f (
        Floats.min f
          (Floats.mul f (Floats.of_duration f (ReconnectPolicy.initial_delay policy)) (
            Floats.powi f (Floats.of_bits f (ReconnectPolicy.multiplier policy))
              (exponent attempt)))
          (Floats.of_duration f (ReconnectPolicy.max_delay policy)))

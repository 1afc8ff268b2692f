-- ===== src/Plugin/Configure.antt =====
-- BitcoinTrezorPlugin::configure: when a configuration is taken over.
use trezor_plugin.Prelude.{
  ℕ, ◌≡◌, refl, Bool, true, false, ◌&&◌, Bytes, codes, ltb, if◌then◌else◌, Bool-cases, inl, inr,
  ◌⊎◌,
}
use trezor_plugin.Exceptions.{Outcome, ok, throw, fault, blocked, out_of_fuel, configuration_error}
use trezor_plugin.Libraries.Boost.{Boost}
use trezor_plugin.Libraries.Protobuf.{Protobuf}
use trezor_plugin.Config.{wire_protocol, Configuration, has_valid_until, valid_until}
use trezor_plugin.Messages.Names.{load_protobuf}
use trezor_plugin.Plugin.Site.{authenticate}

-- The configuration of the plugin object, and the descriptor pool of messages.cpp.
pub record Setup (pb : Protobuf) : Type 0 where
  pub configuration : Configuration pb
  pub pool : pb.Pool

module _ (boost : Boost) (pb : Protobuf) where
  -- `config.has_valid_until() && config.valid_until() < time(0)`
  abbrev pub is_expired : ℕ → Configuration pb → Bool
  is_expired now config = has_valid_until pb config && ltb (valid_until pb config) now

  -- What follows the expiration check, by the answer of authenticate.
  abbrev pub take_over : Configuration pb → Setup pb → Outcome Bool → Outcome (Unit {0}) × Setup pb
  take_over config s (ok true) = (
    ok tt,
    record { configuration = config; pool = load_protobuf pb s.pool (wire_protocol pb config) },
  )
  take_over config s (ok false) = (throw (configuration_error (codes "URL is not allowed")), s)
  take_over config s (throw e) = (throw e, s)
  take_over config s fault = (fault, s)
  take_over config s blocked = (blocked, s)
  take_over config s out_of_fuel = (out_of_fuel, s)

  -- configure(const Configuration &), at the time `now` and on the page at `location`.
  unfoldable pub configure :
      (now : ℕ) (location : Bytes) → Configuration pb → Setup pb → Outcome (Unit {0}) × Setup pb
  configure now location config s =
      if is_expired now config
      then (throw (configuration_error (codes "Configuration has expired")), s)
      else take_over config s (authenticate boost pb location config)

  take_over_cases :
      (config : Configuration pb) (s : Setup pb) (r : Outcome Bool)
      → ((r ≡ ok true)
          × (take_over config s r ≡ (
            ok tt,
            record {
              configuration = config;
              pool = load_protobuf pb s.pool (wire_protocol pb config);
            },
          )))
        ⊎ (¬ (r ≡ ok true) × ((take_over config s r).1 ≡ s) × ¬ ((take_over config s r).0 ≡ ok tt))
  take_over_cases config s (ok true) = inl (refl, refl)
  take_over_cases config s (ok false) = inr ((λ e. cc), refl, λ e. cc)
  take_over_cases config s (throw x) = inr ((λ e. cc), refl, λ e. cc)
  take_over_cases config s fault = inr ((λ e. cc), refl, λ e. cc)
  take_over_cases config s blocked = inr ((λ e. cc), refl, λ e. cc)
  take_over_cases config s out_of_fuel = inr ((λ e. cc), refl, λ e. cc)

  -- configure is all or nothing. Either the configuration has not expired and lets in the page's
  -- site: then configure returns, that is the configuration, and its wire protocol is loaded. Or it
  -- has expired or does not let the site in: then configure does not return, and neither the
  -- configuration nor the descriptor pool changes.
  pub configure_result :
      (now : ℕ) (location : Bytes) (config : Configuration pb) (s : Setup pb)
      → ((is_expired now config ≡ false)
          × (authenticate boost pb location config ≡ ok true)
          × (configure now location config s ≡ (
            ok tt,
            record {
              configuration = config;
              pool = load_protobuf pb s.pool (wire_protocol pb config);
            },
          )))
        ⊎ (¬ ((is_expired now config ≡ false) × (authenticate boost pb location config ≡ ok true))
            × ((configure now location config s).1 ≡ s)
            × ¬ ((configure now location config s).0 ≡ ok tt))
  unfolding configure
  configure_result now location config s = elim (Bool-cases (is_expired now config)) [
    | inl old ↦ rw old (inr ((λ (current, _). cc), refl, λ e. cc))
    | inr current ↦
        rw current (elim (take_over_cases config s (authenticate boost pb location config)) [
          | inl (a, e) ↦ inl (refl, a, e)
          | inr (denied, stays, fails) ↦ inr ((λ (_, a). denied a), stays, fails)
        ])
  ]

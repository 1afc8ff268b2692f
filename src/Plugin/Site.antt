-- ===== src/Plugin/Site.antt =====
-- BitcoinTrezorPlugin::authenticate: which sites a configuration lets in.
use trezor_plugin.Prelude.{
  ◌≡◌, ◌↔◌, ◌⊎◌, inl, inr, refl, Bool, true, false, List, [], ◌∷◌, Bytes, All,
}
use trezor_plugin.Exceptions.{Outcome, ok, throw, fault, blocked, out_of_fuel}
use trezor_plugin.Libraries.Boost.{Boost}
use trezor_plugin.Libraries.Protobuf.{Protobuf}
use trezor_plugin.Config.{Configuration}

-- What a turn of such a loop makes of the pattern's test.
abbrev pub tested : Outcome Bool → Bool → Outcome Bool → Outcome Bool
tested (ok true) found rest = ok found
tested (ok false) found rest = rest
tested (throw e) found rest = throw e
tested fault found rest = fault
tested blocked found rest = blocked
tested out_of_fuel found rest = out_of_fuel

tested_white :
    (r rest : Outcome Bool)
    → tested r true rest ≡ ok true
    → (r ≡ ok true) ⊎ ((r ≡ ok false) × (rest ≡ ok true))
tested_white (ok true) rest h = inl refl
tested_white (ok false) rest h = inr (refl, h)
tested_white (throw e) rest h = cc
tested_white fault rest h = cc
tested_white blocked rest h = cc
tested_white out_of_fuel rest h = cc

tested_black :
    (r rest : Outcome Bool) → tested r false rest ≡ ok true → (r ≡ ok false) × (rest ≡ ok true)
tested_black (ok true) rest h = cc
tested_black (ok false) rest h = (refl, h)
tested_black (throw e) rest h = cc
tested_black fault rest h = cc
tested_black blocked rest h = cc
tested_black out_of_fuel rest h = cc

module _ (boost : Boost) where
  open boost use {regex_match}

  -- A loop over patterns that returns `found` at the first match, and goes on to `otherwise`.
  unfoldable pub on_match : Bytes → List Bytes → Bool → Outcome Bool → Outcome Bool
  on_match location [] found otherwise = otherwise
  on_match location (p ∷ ps) found otherwise =
      tested (regex_match location p) found (on_match location ps found otherwise)

  -- authenticate(const Configuration &), where the page's location is `location`.
  unfoldable pub authenticate : (pb : Protobuf) → Bytes → Configuration pb → Outcome Bool
  unfolding on_match
  authenticate pb location config =
      on_match location config.blacklist_urls false
        (on_match location config.whitelist_urls true (ok false))

  -- The first pattern of the list that matches is reached: those before it do not match.
  pub data Allows (location : Bytes) : List Bytes → Type 0 where
    here :
        {p : Bytes} {ps : List Bytes} → regex_match location p ≡ ok true → Allows location (p ∷ ps)
    there :
        {p : Bytes} {ps : List Bytes}
        → regex_match location p ≡ ok false
        → Allows location ps
        → Allows location (p ∷ ps)

  abbrev pub Misses : Bytes → Bytes → Type 0
  Misses location p = regex_match location p ≡ ok false

  on_match_white :
      (location : Bytes) (ps : List Bytes)
      → (on_match location ps true (ok false) ≡ ok true) ↔ Allows location ps
  unfolding on_match
  on_match_white location ps = (from ps, to)
    where
      from : (ps : List Bytes) → on_match location ps true (ok false) ≡ ok true → Allows location ps
      from [] h = cc
      from (p ∷ ps) h = elim (tested_white (regex_match location p) _ h) [
        | inl hit ↦ here hit
        | inr (miss, rest) ↦ there miss (from ps rest)
      ]

      to : {ps : List Bytes} → Allows location ps → on_match location ps true (ok false) ≡ ok true
      to (here hit) = rw hit
      to (there miss rest) = rw miss (to rest)

  on_match_black :
      (location : Bytes) (ps : List Bytes) (otherwise : Outcome Bool)
      → (on_match location ps false otherwise ≡ ok true)
        ↔ (All (Misses location) ps × (otherwise ≡ ok true))
  unfolding on_match
  on_match_black location ps otherwise = (from ps, to ps)
    where
      from :
          (ps : List Bytes)
          → on_match location ps false otherwise ≡ ok true
          → All (Misses location) ps × (otherwise ≡ ok true)
      from [] h = (tt, h)
      from (p ∷ ps) h =
          let (miss, rest) = tested_black (regex_match location p) _ h in
          let (misses, other) = from ps rest in ((miss, misses), other)

      to :
          (ps : List Bytes)
          → All (Misses location) ps × (otherwise ≡ ok true)
          → on_match location ps false otherwise ≡ ok true
      to [] (misses, other) = other
      to (p ∷ ps) ((miss, misses), other) = rw miss (to ps (misses, other))

  -- A site is let in exactly when no pattern of the blacklist matches its location and the
  -- whitelist has a matching pattern, all before which are well formed and do not match.
  pub authenticate_iff :
      (pb : Protobuf) (location : Bytes) (config : Configuration pb)
      → (authenticate pb location config ≡ ok true)
        ↔ (All (Misses location) config.blacklist_urls × Allows location config.whitelist_urls)
  unfolding authenticate
  authenticate_iff pb location config =
      let black =
        on_match_black location config.blacklist_urls
          (on_match location config.whitelist_urls true (ok false)) in
      let white = on_match_white location config.whitelist_urls in
      (λ h. ((black.0 h).0, white.0 (black.0 h).1), λ h. black.1 (h.0, white.1 h.1))

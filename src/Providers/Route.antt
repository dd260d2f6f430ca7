-- ===== src/Providers/Route.antt =====
-- providers/resolve.ts: the route of one agent start. The accounts' meter is the state `W`, which
-- every request for an account may change; `acquire_account` stands for daemon/usage-meter.ts.
use ralph_autopilot.Common.{
  String, true, false, Option, none, some, List, [], ◌∷◌, ◌≡◌, inl, inr, ◌++◌, Bool-cases,
  Option-cases,
}
use ralph_autopilot.Providers.{
  AgentType, ProviderName, RoutingPhase, RoutingTier, AgentSettings, ProvidersSettings,
  ProviderSelection, ProviderSettings, provider_preference_list, capability_ok,
}

pub record RoutingConfig : Type 0 where
  pub agent : AgentSettings
  pub providers : ProvidersSettings

pub record RouteWorld (Account W : Type 0) : Type 0 where
  pub acquire_account : String → ProviderName → W → Option Account × W

pub data RouteResolution (Account : Type 0) : Type 0 where
  route : ProviderName → Option String → Account → RouteResolution Account
  wait : RouteResolution Account

module _ {Account W : Type 0} where
  unfoldable pub walk_entries :
      RoutingConfig
      → String
      → AgentType
      → RouteWorld Account W
      → List ProviderSelection
      → W
      → RouteResolution Account × W
  walk_entries routing repo type world [] w = (wait, w)
  walk_entries routing repo type world (e ∷ es) w =
      elim (capability_ok type e.provider routing.providers) [
        | false ↦ walk_entries routing repo type world es w
        | true ↦
            let (account, w') = world.acquire_account repo e.provider w in
            elim account [
              | some a ↦ (route e.provider e.model_override a, w')
              | none ↦ walk_entries routing repo type world es w'
            ]
      ]

  unfoldable pub resolve_route :
      RoutingConfig
      → String
      → AgentType
      → RouteWorld Account W
      → Option RoutingPhase
      → Option RoutingTier
      → W
      → RouteResolution Account × W
  unfolding walk_entries
  resolve_route routing repo type world phase tier w =
      walk_entries routing repo type world (provider_preference_list routing.agent type phase tier)
        w

  -- The entry cannot serve: its provider may not run the type, and is not asked for an account, or
  -- it has no account with headroom.
  pub data Passes (routing : RoutingConfig) (repo : String) (type : AgentType)
      (world : RouteWorld Account W) : List ProviderSelection → W → W → Type 0 where
    done : {w : W} → Passes routing repo type world [] w w
    blocked :
        {e : ProviderSelection} {es : List ProviderSelection} {w w' : W}
        → capability_ok type e.provider routing.providers ≡ false
        → Passes routing repo type world es w w'
        → Passes routing repo type world (e ∷ es) w w'
    exhausted :
        {e : ProviderSelection} {es : List ProviderSelection} {w w' : W}
        → capability_ok type e.provider routing.providers ≡ true
        → (world.acquire_account repo e.provider w).0 ≡ none
        → Passes routing repo type world es (world.acquire_account repo e.provider w).1 w'
        → Passes routing repo type world (e ∷ es) w w'

  -- What a resolution promises: the first entry that may run the type and has an account, or a
  -- wait with every entry passed over.
  pub data Resolves (routing : RoutingConfig) (repo : String) (type : AgentType)
      (world : RouteWorld Account W) (w : W)
      : List ProviderSelection → RouteResolution Account × W → Type 0 where
    served :
        {before : List ProviderSelection} (after : List ProviderSelection) {e : ProviderSelection}
        {w' : W} {account : Account}
        → Passes routing repo type world before w w'
        → capability_ok type e.provider routing.providers ≡ true
        → (world.acquire_account repo e.provider w').0 ≡ some account
        → Resolves routing repo type world w (before ++ e ∷ after) (
          route e.provider e.model_override account,
          (world.acquire_account repo e.provider w').1,
        )
    waits :
        {es : List ProviderSelection} {w' : W}
        → Passes routing repo type world es w w'
        → Resolves routing repo type world w es (wait, w')

  after_blocked :
      {routing : RoutingConfig} {repo : String} {type : AgentType} {world : RouteWorld Account W}
      {e : ProviderSelection} {w : W} {es : List ProviderSelection}
      {r : RouteResolution Account × W}
      → capability_ok type e.provider routing.providers ≡ false
      → Resolves routing repo type world w es r
      → Resolves routing repo type world w (e ∷ es) r
  after_blocked c (served after p ok a) = served after (blocked c p) ok a
  after_blocked c (waits p) = waits (blocked c p)

  after_exhausted :
      {routing : RoutingConfig} {repo : String} {type : AgentType} {world : RouteWorld Account W}
      {e : ProviderSelection} {w : W} {es : List ProviderSelection}
      {r : RouteResolution Account × W}
      → capability_ok type e.provider routing.providers ≡ true
      → (world.acquire_account repo e.provider w).0 ≡ none
      → Resolves routing repo type world (world.acquire_account repo e.provider w).1 es r
      → Resolves routing repo type world w (e ∷ es) r
  after_exhausted c n (served after p ok a) = served after (exhausted c n p) ok a
  after_exhausted c n (waits p) = waits (exhausted c n p)

  walk_entries-Resolves :
      (routing : RoutingConfig) (repo : String) (type : AgentType) (world : RouteWorld Account W)
      (es : List ProviderSelection) (w : W)
      → Resolves routing repo type world w es (walk_entries routing repo type world es w)
  unfolding walk_entries
  walk_entries-Resolves routing repo type world [] w = waits done
  walk_entries-Resolves routing repo type world (e ∷ es) w =
      elim (Bool-cases (capability_ok type e.provider routing.providers)) [
        | inr no_tools ↦
            rw (no_tools, walk_entries)
              (after_blocked no_tools (walk_entries-Resolves routing repo type world es w))
        | inl ok ↦ elim (Option-cases (world.acquire_account repo e.provider w).0) [
          | inl n ↦
              rw (ok, n, walk_entries)
                (after_exhausted ok n (
                  walk_entries-Resolves routing repo type world es
                    (world.acquire_account repo e.provider w).1))
          | inr (a, s) ↦ rw (ok, s, walk_entries) (served es done ok s)
        ]
      ]

  -- A resolution serves the first entry of the preference list that may run the type and has an
  -- account, with that entry's model and the account that was taken, and waits only where no entry
  -- serves. A provider that may not run the type is asked for no account.
  pub resolve_route-Resolves :
      (routing : RoutingConfig) (repo : String) (type : AgentType) (world : RouteWorld Account W)
      (phase : Option RoutingPhase) (tier : Option RoutingTier) (w : W)
      → Resolves routing repo type world w
          (provider_preference_list routing.agent type phase tier)
          (resolve_route routing repo type world phase tier w)
  unfolding resolve_route
  resolve_route-Resolves routing repo type world phase tier w =
      walk_entries-Resolves routing repo type world _ w

pub record TargetConfig : Type 0 where
  pub target_repo : String
  pub agent : AgentSettings
  pub providers : ProvidersSettings

abbrev model_of : Option ProviderSettings → Option String
model_of none = none
model_of (some s) = s.model

abbrev effective_default_model : TargetConfig → ProviderName → Option String
effective_default_model config ProviderName.claude = some config.agent.model
effective_default_model config ProviderName.zai = model_of config.providers.zai
effective_default_model config ProviderName.openai = model_of config.providers.openai

module _ {Account : Type 0} where
  abbrev fill_model : TargetConfig → RouteResolution Account → RouteResolution Account
  fill_model config wait = wait
  fill_model config (route p (some m) a) = route p (some m) a
  fill_model config (route p none a) = route p (effective_default_model config p) a

module _ {Account W : Type 0} where
  -- None where the runner has no routing: the box's own credentials are used.
  pub resolve_dispatch_route :
      Option RoutingConfig
      → Option (RouteWorld Account W)
      → TargetConfig
      → AgentType
      → Option RoutingPhase
      → Option RoutingTier
      → W
      → Option (RouteResolution Account) × W
  unfolding resolve_route
  resolve_dispatch_route none world config type phase tier w = (none, w)
  resolve_dispatch_route (some routing) none config type phase tier w = (none, w)
  resolve_dispatch_route (some routing) (some world) config type phase tier w =
      let (resolved, w') = resolve_route routing config.target_repo type world phase tier w in
      (some (fill_model config resolved), w')

-- ===== src/Providers/Master.antt =====
-- master/route.ts: the route of a master session. It comes from the routes of the issue's tier, and
-- a defect of the configuration is told apart from a wait.
use ralph_autopilot.Common.{
  String, Bool, true, false, not, Option, none, some, List, [], ◌∷◌, ◌≡◌, refl, any, map,
  if◌then◌else◌, Option-cases, inl, inr, arith,
}
use ralph_autopilot.Providers.{
  AgentType, AgentTypeEntry, ProviderName, RoutingTier, ProviderSelection, profile_at, routes_of,
  select_entry, provider_tools_capable, master_preference_list,
}
use ralph_autopilot.Providers.Route.{
  RoutingConfig, RouteWorld, RouteResolution, route, wait, resolve_route,
}

pub data MasterRouteDefect : Type 0 where
  missing_tier_1_profile tier_1_not_tools_capable : MasterRouteDefect

pub data MasterRouteResolution (Account : Type 0) : Type 0 where
  routed : ProviderName → Option String → Account → MasterRouteResolution Account
  waiting : MasterRouteResolution Account
  unconfigured : MasterRouteDefect → MasterRouteResolution Account

module _ {Account : Type 0} where
  abbrev master_outcome : RouteResolution Account → MasterRouteResolution Account
  master_outcome wait = waiting
  master_outcome (route p m a) = routed p m a

  abbrev pub is_unconfigured : MasterRouteResolution Account → Bool
  is_unconfigured (unconfigured d) = true
  is_unconfigured _ = false

  master_outcome-defined :
      (r : RouteResolution Account) → is_unconfigured (master_outcome r) ≡ false
  master_outcome-defined wait = refl
  master_outcome-defined (route p m a) = refl

-- The providers of the tier's routes.
abbrev pub tier_providers : Option (List AgentTypeEntry) → List ProviderName
tier_providers none = []
tier_providers (some es) = map (λ (e : AgentTypeEntry). e.provider) es

any_capable :
    (routing : RoutingConfig) (es : List AgentTypeEntry)
    → any (λ p. provider_tools_capable routing.providers p.provider) (map select_entry es)
      ≡ any (provider_tools_capable routing.providers) (map (λ (e : AgentTypeEntry). e.provider) es)
any_capable routing [] = refl
any_capable routing (e ∷ es) = ground (arith, any_capable routing es)

module _ {Account W : Type 0} where
  abbrev route_preferences :
      Option (List ProviderSelection)
      → RoutingConfig
      → String
      → RouteWorld Account W
      → RoutingTier
      → W
      → MasterRouteResolution Account × W
  route_preferences none routing repo world tier w =
      (unconfigured MasterRouteDefect.missing_tier_1_profile, w)
  route_preferences (some ps) routing repo world tier w =
      if any (λ p. provider_tools_capable routing.providers p.provider) ps
      then (let (resolved, w') =
            resolve_route routing repo AgentType.master world none (some tier) w in
          (master_outcome resolved, w'))
      else (unconfigured MasterRouteDefect.tier_1_not_tools_capable, w)

  unfoldable pub resolve_master_route :
      RoutingConfig
      → String
      → RouteWorld Account W
      → RoutingTier
      → W
      → MasterRouteResolution Account × W
  unfolding master_preference_list
  resolve_master_route routing repo world tier w =
      route_preferences (master_preference_list routing.agent tier) routing repo world tier w

  -- A defect of the configuration is reported exactly where no provider of the tier's routes is
  -- tools-capable, be it that there are no routes.
  pub resolve_master_route-is_unconfigured :
      (routing : RoutingConfig) (repo : String) (world : RouteWorld Account W) (tier : RoutingTier)
      (w : W)
      → is_unconfigured (resolve_master_route routing repo world tier w).0
        ≡ not (
            any
              (provider_tools_capable routing.providers)
              (tier_providers (routes_of (profile_at routing.agent.tiers tier))))
  unfolding resolve_master_route
  resolve_master_route-is_unconfigured routing repo world tier w =
      elim (Option-cases (routes_of (profile_at routing.agent.tiers tier))) [
        | inl n ↦ rw n refl
        | inr ([], n) ↦ rw n refl
        | inr (e ∷ es, n) ↦ rw n (
            ground (
              arith,
              any_capable routing (e ∷ es),
              master_outcome-defined
                  (resolve_route routing repo AgentType.master world none (some tier) w).0,
            ))
      ]

-- ===== src/Examples/Providers.antt =====
-- Runs of providers/select.ts, providers/resolve.ts and master/route.ts.
use ralph_autopilot.Common.{
  ℕ, zero, suc, ◌≡◌, refl, true, false, not, Bool, Option, none, some, [], ◌∷◌, any, All,
}
use ralph_autopilot.Providers.{
  AgentType, ProviderName, RoutingPhase, RoutingTier, AgentTypeEntry, single, ordered, unphased,
  phased, AgentSettings, ProviderSelection, normalise_routing, provider_preference_list,
  per_phase_preference_lists, all_preference_lists, provider_tools_capable, routes_of, profile_at,
}
use ralph_autopilot.Providers.Coverage.{all_preference_lists-provider_preference_list}
use ralph_autopilot.Providers.Route.{
  RoutingConfig, RouteWorld, route, walk_entries, resolve_route, Resolves, resolve_route-Resolves,
}
use ralph_autopilot.Providers.Master.{
  is_unconfigured, resolve_master_route, tier_providers, resolve_master_route-is_unconfigured,
}

abbrev openai_entry : AgentTypeEntry
openai_entry = record { provider = ProviderName.openai; model = some "gpt-5.5" }

abbrev zai_entry : AgentTypeEntry
zai_entry = record { provider = ProviderName.zai; model = some "glm-5.2" }

abbrev claude_entry : AgentTypeEntry
claude_entry = record { provider = ProviderName.claude; model = none }

-- Reviews prefer openai, in phase 2 zai; the first tier has routes.
abbrev settings : AgentSettings
settings = record {
  provider = ProviderName.claude;
  model = "opus";
  types = record {
    impl = some (ordered (openai_entry ∷ zai_entry ∷ claude_entry ∷ []));
    review = some (
        phased (record {
          base = ordered (openai_entry ∷ []);
          phase1 = none;
          phase2 = some (ordered (zai_entry ∷ []));
        }));
    fix = some (unphased (single none (some "sonnet")));
    auto_mode = none;
  };
  tiers = record {
    tier1 = some (record { routes = some (openai_entry ∷ zai_entry ∷ []) });
    tier2 = some (record { routes = none });
    tier3 = none;
  };
}

abbrev routing : RoutingConfig
routing = record {
  agent = settings;
  providers = record { claude = none; openai = none; zai = none };
}

-- The state counts the requests; the first account of zai is gone.
abbrev answer : ProviderName → ℕ → Option ℕ
answer ProviderName.zai zero = none
answer _ n = some n

abbrev accounts : RouteWorld ℕ ℕ
accounts = record { acquire_account = λ repo p n. (answer p n, suc n) }

-- openai may not run an implementation, and zai has no account: the session binds to claude.
impl_run :
    resolve_route routing "acme/app" AgentType.impl accounts none none 0
    ≡ (route ProviderName.claude none 1, 2)
unfolding resolve_route walk_entries provider_preference_list normalise_routing
impl_run = refl

resolves_example :
    Resolves routing "acme/app" AgentType.impl accounts 0
      (provider_preference_list settings AgentType.impl none none)
      (resolve_route routing "acme/app" AgentType.impl accounts none none 0)
resolves_example = resolve_route-Resolves routing "acme/app" AgentType.impl accounts none none 0

abbrev is_claude : ProviderName → Bool
is_claude ProviderName.claude = true
is_claude _ = false

abbrev IsForeign : ProviderSelection → Type 0
IsForeign s = is_claude s.provider ≡ false

coverage_example : All IsForeign (
    provider_preference_list settings AgentType.review
      (some RoutingPhase.phase2)
      (some RoutingTier.tier1))
unfolding all_preference_lists provider_preference_list per_phase_preference_lists normalise_routing
coverage_example =
    all_preference_lists-provider_preference_list IsForeign settings AgentType.review
      (refl, (refl, (refl, (refl, tt)))) (some RoutingPhase.phase2) (some RoutingTier.tier1)

unconfigured_example :
    is_unconfigured (resolve_master_route routing "acme/app" accounts RoutingTier.tier2 0).0
    ≡ not (
        any
          (provider_tools_capable routing.providers)
          (tier_providers (routes_of (profile_at settings.tiers RoutingTier.tier2))))
unconfigured_example =
    resolve_master_route-is_unconfigured routing "acme/app" accounts RoutingTier.tier2 0

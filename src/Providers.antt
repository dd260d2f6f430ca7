-- ===== src/Providers.antt =====
-- providers/select.ts: which providers may back a session, in order of preference. The settings are
-- the parsed blocks of config/schema.ts, with the fields that the selection reads.
pub mod Coverage
pub mod Route
pub mod Master
use ralph_autopilot.Common.{
  ℕ, String, Bool, true, false, not, ◌&&◌, ◌||◌, ◌===◌, Option, none, some, is_some, List, [], ◌∷◌,
  ◌++◌, map, if◌then◌else◌,
}

pub data AgentType : Type 0 where
  impl review fix auto_mode master : AgentType

pub data ProviderName : Type 0 where
  claude openai zai : ProviderName

pub data RoutingPhase : Type 0 where
  phase0 phase1 phase2 : RoutingPhase

pub data RoutingTier : Type 0 where
  tier1 tier2 tier3 : RoutingTier

pub record AgentTypeEntry : Type 0 where
  pub provider : ProviderName
  pub model : Option String

-- The single form, or an ordered list.
pub data AgentTypeRouting : Type 0 where
  single : Option ProviderName → Option String → AgentTypeRouting
  ordered : List AgentTypeEntry → AgentTypeRouting

pub record PhasedAgentTypeRouting : Type 0 where
  pub base : AgentTypeRouting
  pub phase1 : Option AgentTypeRouting
  pub phase2 : Option AgentTypeRouting

pub data ReviewFixRouting : Type 0 where
  unphased : AgentTypeRouting → ReviewFixRouting
  phased : PhasedAgentTypeRouting → ReviewFixRouting

pub record TierProfile : Type 0 where
  pub routes : Option (List AgentTypeEntry)

pub record AgentTypes : Type 0 where
  pub impl : Option AgentTypeRouting
  pub review : Option ReviewFixRouting
  pub fix : Option ReviewFixRouting
  pub auto_mode : Option AgentTypeRouting

pub record AgentTiers : Type 0 where
  pub tier1 : Option TierProfile
  pub tier2 : Option TierProfile
  pub tier3 : Option TierProfile

pub record AgentSettings : Type 0 where
  pub provider : ProviderName
  pub model : String
  pub types : AgentTypes
  pub tiers : AgentTiers

pub record ProviderSettings : Type 0 where
  pub model : Option String
  pub tools_capable : Option Bool

pub record ProvidersSettings : Type 0 where
  pub claude : Option ProviderSettings
  pub openai : Option ProviderSettings
  pub zai : Option ProviderSettings

abbrev pub profile_at : AgentTiers → RoutingTier → Option TierProfile
profile_at tiers RoutingTier.tier1 = tiers.tier1
profile_at tiers RoutingTier.tier2 = tiers.tier2
profile_at tiers RoutingTier.tier3 = tiers.tier3

abbrev tier_profile : AgentSettings → Option RoutingTier → Option TierProfile
tier_profile agent none = none
tier_profile agent (some tier) = profile_at agent.tiers tier

abbrev governing_tier : RoutingTier
governing_tier = RoutingTier.tier1

abbrev is_governing : RoutingTier → Bool
is_governing RoutingTier.tier1 = true
is_governing _ = false

abbrev governs : AgentType → RoutingTier → Bool
governs AgentType.impl tier = true
governs AgentType.master tier = true
governs AgentType.review tier = is_governing tier
governs AgentType.fix tier = is_governing tier
governs AgentType.auto_mode tier = is_governing tier

abbrev pub tier_governs_lane : AgentType → Option RoutingTier → Bool
tier_governs_lane type none = false
tier_governs_lane type (some tier) = governs type tier

pub record ProviderSelection : Type 0 where
  pub provider : ProviderName
  pub model_override : Option String

-- The key of a phase in the object form; the CI gate has none.
abbrev phase_entry : PhasedAgentTypeRouting → Option RoutingPhase → Option AgentTypeRouting
phase_entry r (some RoutingPhase.phase1) = r.phase1
phase_entry r (some RoutingPhase.phase2) = r.phase2
phase_entry r _ = none

abbrev pub or_base : Option AgentTypeRouting → AgentTypeRouting → AgentTypeRouting
or_base none base = base
or_base (some r) base = r

abbrev pub effective_routing :
    Option ReviewFixRouting → Option RoutingPhase → Option AgentTypeRouting
effective_routing none phase = none
effective_routing (some (unphased r)) phase = some r
effective_routing (some (phased r)) phase = some (or_base (phase_entry r phase) r.base)

-- A model that is the empty string is none.
abbrev truthy : Option String → Option String
truthy none = none
truthy (some m) = if m === "" then none else some m

abbrev provider_or : Option ProviderName → ProviderName → ProviderName
provider_or none default = default
provider_or (some p) default = p

abbrev select_entry : AgentTypeEntry → ProviderSelection
select_entry e = record { provider = e.provider; model_override = truthy e.model }

unfoldable pub normalise_routing : Option AgentTypeRouting → ProviderName → List ProviderSelection
normalise_routing none default = record { provider = default; model_override = none } ∷ []
normalise_routing (some (ordered es)) default = map select_entry es
normalise_routing (some (single p m)) default =
    record { provider = provider_or p default; model_override = truthy m } ∷ []

abbrev as_unphased : Option AgentTypeRouting → Option ReviewFixRouting
as_unphased none = none
as_unphased (some r) = some (unphased r)

-- `agent.types[type]`, which has no key for the master.
abbrev pub type_routing : AgentSettings → AgentType → Option ReviewFixRouting
type_routing agent AgentType.impl = as_unphased agent.types.impl
type_routing agent AgentType.review = agent.types.review
type_routing agent AgentType.fix = agent.types.fix
type_routing agent AgentType.auto_mode = as_unphased agent.types.auto_mode
type_routing agent AgentType.master = none

abbrev pub routes_of : Option TierProfile → Option (List AgentTypeEntry)
routes_of none = none
routes_of (some p) = p.routes

abbrev prefer_tier :
    Option (List AgentTypeEntry) → Option AgentTypeRouting → Option AgentTypeRouting
prefer_tier none configured = configured
prefer_tier (some routes) configured = some (ordered routes)

unfoldable pub provider_preference_list :
    AgentSettings → AgentType → Option RoutingPhase → Option RoutingTier → List ProviderSelection
unfolding normalise_routing
provider_preference_list agent type phase tier =
    normalise_routing
      (prefer_tier
        (if tier_governs_lane type tier then routes_of (tier_profile agent tier) else none)
        (effective_routing (type_routing agent type) phase))
      agent.provider

abbrev pub override_list : Option AgentTypeRouting → ProviderName → Option (List ProviderSelection)
override_list none default = none
override_list (some r) default = some (normalise_routing (some r) default)

abbrev pub per_phase :
    Option ReviewFixRouting
    → ProviderName
    → Option (List ProviderSelection) × Option (List ProviderSelection)
per_phase (some (phased r)) default =
    (override_list r.phase1 default, override_list r.phase2 default)
per_phase _ default = (none, none)

unfoldable pub per_phase_preference_lists :
    AgentSettings → AgentType → Option (List ProviderSelection) × Option (List ProviderSelection)
unfolding normalise_routing
per_phase_preference_lists agent type = per_phase (type_routing agent type) agent.provider

abbrev pub or_empty : Option (List ProviderSelection) → List ProviderSelection
or_empty none = []
or_empty (some xs) = xs

abbrev pub tier_list : AgentSettings → AgentType → RoutingTier → List ProviderSelection
tier_list agent type tier =
    if tier_governs_lane type (some tier) && is_some (routes_of (profile_at agent.tiers tier))
    then provider_preference_list agent type none (some tier)
    else []

unfoldable pub all_preference_lists : AgentSettings → AgentType → List ProviderSelection
unfolding provider_preference_list per_phase_preference_lists
all_preference_lists agent type =
    let overrides = per_phase_preference_lists agent type in
    provider_preference_list agent type none none
    ++ (or_empty overrides.0
        ++ (or_empty overrides.1
            ++ (tier_list agent type RoutingTier.tier1
                ++ (tier_list agent type RoutingTier.tier2
                    ++ tier_list agent type RoutingTier.tier3))))

abbrev settings_of : ProvidersSettings → ProviderName → Option ProviderSettings
settings_of ps ProviderName.claude = ps.claude
settings_of ps ProviderName.openai = ps.openai
settings_of ps ProviderName.zai = ps.zai

abbrev tools_capable_defaults : ProviderName → Bool
tools_capable_defaults ProviderName.claude = true
tools_capable_defaults ProviderName.openai = false
tools_capable_defaults ProviderName.zai = true

abbrev capable_or : Option ProviderSettings → Bool → Bool
capable_or none default = default
capable_or (some s) default = elim s.tools_capable [ none ↦ default | some b ↦ b ]

abbrev pub provider_tools_capable : ProvidersSettings → ProviderName → Bool
provider_tools_capable ps p = capable_or (settings_of ps p) (tools_capable_defaults p)

abbrev requires_tools : AgentType → Bool
requires_tools AgentType.impl = true
requires_tools AgentType.master = true
requires_tools _ = false

abbrev pub capability_ok : AgentType → ProviderName → ProvidersSettings → Bool
capability_ok type p ps = not (requires_tools type) || provider_tools_capable ps p

abbrev if_routes :
    Option (List AgentTypeEntry) → List ProviderSelection → Option (List ProviderSelection)
if_routes none list = none
if_routes (some []) list = none
if_routes (some (e ∷ es)) list = some list

-- No fallback: without routes of the tier there is no list.
unfoldable pub master_preference_list :
    AgentSettings → RoutingTier → Option (List ProviderSelection)
unfolding provider_preference_list
master_preference_list agent tier =
    if_routes (routes_of (tier_profile agent (some tier)))
      (provider_preference_list agent AgentType.master none (some tier))

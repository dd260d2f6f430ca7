-- ===== src/Providers/Coverage.antt =====
-- providers/select.ts: the walk of `allPreferenceLists` at load time against the lists of dispatch.
use ralph_autopilot.Common.{
  Option, none, some, List, [], ◌∷◌, ◌++◌, All, inl, inr, Bool-cases, Option-cases,
}
use ralph_autopilot.Providers.{
  ProviderName, normalise_routing, effective_routing, per_phase, or_empty, unphased, phased,
  override_list, or_base, tier_list, tier_governs_lane, routes_of, profile_at, type_routing,
  AgentType, RoutingPhase, RoutingTier, AgentSettings, ProviderSelection, ReviewFixRouting,
  AgentTypeRouting, provider_preference_list, all_preference_lists,
}

module _ {κ} (P : ProviderSelection → Type κ) where
  All-left : (xs ys : List ProviderSelection) → All P (xs ++ ys) → All P xs
  All-left [] ys h = tt
  All-left (x ∷ xs) ys h = (h.0, All-left xs ys h.1)

  All-right : (xs ys : List ProviderSelection) → All P (xs ++ ys) → All P ys
  All-right [] ys h = h
  All-right (x ∷ xs) ys h = All-right xs ys h.1

  overridden :
      (o : Option AgentTypeRouting) (base : AgentTypeRouting) (d : ProviderName)
      → All P (normalise_routing (some base) d)
      → All P (or_empty (override_list o d))
      → All P (normalise_routing (some (or_base o base)) d)
  overridden none base d h h' = h
  overridden (some r) base d h h' = h'

  -- Without routes of a tier.
  untiered :
      (c : Option ReviewFixRouting) (d : ProviderName) (phase : Option RoutingPhase)
      → All P (normalise_routing (effective_routing c none) d)
      → All P (or_empty (per_phase c d).0)
      → All P (or_empty (per_phase c d).1)
      → All P (normalise_routing (effective_routing c phase) d)
  untiered none d phase h h1 h2 = h
  untiered (some (unphased r)) d phase h h1 h2 = h
  untiered (some (phased r)) d none h h1 h2 = h
  untiered (some (phased r)) d (some RoutingPhase.phase0) h h1 h2 = h
  untiered (some (phased r)) d (some RoutingPhase.phase1) h h1 h2 =
      overridden r.phase1 r.base d h h1
  untiered (some (phased r)) d (some RoutingPhase.phase2) h h1 h2 =
      overridden r.phase2 r.base d h h2

  -- With a tier.
  tiered :
      (agent : AgentSettings) (type : AgentType) (phase : Option RoutingPhase) (t : RoutingTier)
      → All P (tier_list agent type t)
      → All P (provider_preference_list agent type phase none)
      → All P (provider_preference_list agent type phase (some t))
  unfolding provider_preference_list
  tiered agent type phase t ht h = elim (Bool-cases (tier_governs_lane type (some t))) [
    | inr e ↦ rw e h
    | inl e ↦ elim (Option-cases (routes_of (profile_at agent.tiers t))) [
      | inl n ↦ rw (e, n) h
      | inr (rs, n) ↦ rw (e, n) (rw (e, n) at ht)
    ]
  ]

-- What holds of every entry that the check at load time walks.
record Walked {κ} (P : ProviderSelection → Type κ) (agent : AgentSettings) (type : AgentType)
    : Type κ where
  base : All P (provider_preference_list agent type none none)
  phase1 : All P (or_empty (per_phase (type_routing agent type) agent.provider).0)
  phase2 : All P (or_empty (per_phase (type_routing agent type) agent.provider).1)
  tier1 : All P (tier_list agent type RoutingTier.tier1)
  tier2 : All P (tier_list agent type RoutingTier.tier2)
  tier3 : All P (tier_list agent type RoutingTier.tier3)

walked :
    (P : ProviderSelection → Type 0) (agent : AgentSettings) (type : AgentType)
    → All P (all_preference_lists agent type)
    → Walked P agent type
unfolding all_preference_lists
walked P agent type h =
    let r0 = All-right P (provider_preference_list agent type none none) _ h in
    let r1 = All-right P (or_empty (per_phase (type_routing agent type) agent.provider).0) _ r0 in
    let r2 = All-right P (or_empty (per_phase (type_routing agent type) agent.provider).1) _ r1 in
    let r3 = All-right P (tier_list agent type RoutingTier.tier1) _ r2 in
    record {
      base = All-left P _ _ h;
      phase1 = All-left P _ _ r0;
      phase2 = All-left P _ _ r1;
      tier1 = All-left P _ _ r2;
      tier2 = All-left P _ _ r3;
      tier3 = All-right P (tier_list agent type RoutingTier.tier2) _ r3;
    }

untiered_list :
    (P : ProviderSelection → Type 0) (agent : AgentSettings) (type : AgentType)
    → Walked P agent type
    → (phase : Option RoutingPhase) → All P (provider_preference_list agent type phase none)
unfolding provider_preference_list
untiered_list P agent type w phase =
    untiered P (type_routing agent type) agent.provider phase w.base w.phase1 w.phase2

at_dispatch :
    (P : ProviderSelection → Type 0) (agent : AgentSettings) (type : AgentType)
    → Walked P agent type
    → (phase : Option RoutingPhase) (tier : Option RoutingTier)
    → All P (provider_preference_list agent type phase tier)
at_dispatch P agent type w phase none = untiered_list P agent type w phase
at_dispatch P agent type w phase (some RoutingTier.tier1) =
    tiered P agent type phase RoutingTier.tier1 w.tier1 (untiered_list P agent type w phase)
at_dispatch P agent type w phase (some RoutingTier.tier2) =
    tiered P agent type phase RoutingTier.tier2 w.tier2 (untiered_list P agent type w phase)
at_dispatch P agent type w phase (some RoutingTier.tier3) =
    tiered P agent type phase RoutingTier.tier3 w.tier3 (untiered_list P agent type w phase)

-- What holds of every entry that the check at load time walks holds of every entry of every list
-- that a dispatch can use, at any phase and tier.
pub all_preference_lists-provider_preference_list :
    (P : ProviderSelection → Type 0) (agent : AgentSettings) (type : AgentType)
    → All P (all_preference_lists agent type)
    → (phase : Option RoutingPhase) (tier : Option RoutingTier)
    → All P (provider_preference_list agent type phase tier)
all_preference_lists-provider_preference_list P agent type h =
    at_dispatch P agent type (walked P agent type h)

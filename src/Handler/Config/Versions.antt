-- ===== src/Handler/Config/Versions.antt =====
-- The versions that polling installs, by handler/multitenant.go.
use cdn_edge.Common.{
  ◌≡◌, ◌⊎◌, refl, ap, ◌∙◌, Bool-cases, Option-cases, inl, inr, List, [], ◌∷◌, Option, none, some,
  Text, if◌then◌else◌,
}
use cdn_edge.Common.Int.{ℤ, ltb_ℤ}
use cdn_edge.ControlPlane.Tenant.{EdgeConfig}
use cdn_edge.Handler.Tenants.{MultiTenantCdn, update_config}
use cdn_edge.Handler.Config.{ConfigPoller, Answer, parsed, poll, handle_config_push}

module _ (unmarshal : Text → Option EdgeConfig) where
  abbrev pub polls : List Answer → ConfigPoller × MultiTenantCdn → ConfigPoller × MultiTenantCdn
  polls [] x = x
  polls (a ∷ l) x = polls l (poll unmarshal a x)

  abbrev pub newer : ℤ → Option EdgeConfig → ℤ
  newer v none = v
  newer v (some cfg) = if ltb_ℤ v cfg.version then cfg.version else v

  -- The newest of a version and those of the answers that carry a configuration.
  abbrev pub newest : ℤ → List Answer → ℤ
  newest v [] = v
  newest v (a ∷ l) = newest (newer v (parsed unmarshal a)) l

  -- The configuration in force is that of the poller's version, or there is none yet.
  abbrev pub Synced : ConfigPoller × MultiTenantCdn → Type 0
  Synced (p, mt) =
      (mt.config ≡ none)
      ⊎ ((cfg : EdgeConfig) × (mt.config ≡ some cfg) × (cfg.version ≡ p.last_version))

  poll-version :
      (a : Answer) (p : ConfigPoller) (mt : MultiTenantCdn)
      → (poll unmarshal a (p, mt)).0.last_version ≡ newer p.last_version (parsed unmarshal a)
  unfolding poll
  poll-version a p mt = elim (Option-cases (parsed unmarshal a)) [
    | inl n ↦ rw (n, poll) refl
    | inr (cfg, n) ↦ elim (Bool-cases (ltb_ℤ p.last_version cfg.version)) [
      | inl h ↦ rw (n, poll) (rw h refl)
      | inr h ↦ rw (n, poll) (rw h refl)
    ]
  ]

  poll-Synced :
      (a : Answer) (x : ConfigPoller × MultiTenantCdn) → Synced x → Synced (poll unmarshal a x)
  unfolding poll update_config
  poll-Synced a (p, mt) s = elim (Option-cases (parsed unmarshal a)) [
    | inl e ↦ rw (e, poll) s
    | inr (cfg, e) ↦ elim (Bool-cases (ltb_ℤ p.last_version cfg.version)) [
      | inl h ↦ rw (e, poll) (rw h (inr (cfg, refl, refl)))
      | inr h ↦ rw (e, poll) (rw h s)
    ]
  ]

  -- From a poller whose version is that of the configuration in force, or where none is yet,
  -- however many polls there are and whatever they bring: the poller ends at the newest version
  -- that one of them carried, never behind where it started, and again this is the version in
  -- force, if any is.
  pub polls-newest :
      (answers : List Answer) (x : ConfigPoller × MultiTenantCdn)
      → Synced x
      → ((polls answers x).0.last_version ≡ newest x.0.last_version answers)
        × Synced (polls answers x)
  polls-newest [] x s = (refl, s)
  polls-newest (a ∷ l) (p, mt) s =
      let (e, t) = polls-newest l (poll unmarshal a (p, mt)) (poll-Synced a (p, mt) s) in
      (e ∙ ap (λ v. newest v l) (poll-version a p mt), t)

  -- What reaches the edge: a push, with its method and body, or the answer to a poll.
  pub data Arrival : Type 0 where
    push : Text → Option Text → Arrival
    polled : Answer → Arrival

  abbrev pub arrive : Arrival → ConfigPoller × MultiTenantCdn → ConfigPoller × MultiTenantCdn
  arrive (push method body) (p, mt) = (p, (handle_config_push unmarshal [] method body mt).0)
  arrive (polled a) x = poll unmarshal a x

  abbrev pub arrivals : List Arrival → ConfigPoller × MultiTenantCdn → ConfigPoller × MultiTenantCdn
  arrivals [] x = x
  arrivals (e ∷ es) x = arrivals es (arrive e x)

  -- The answers to polls among what has arrived.
  abbrev pub answers_in : List Arrival → List Answer
  answers_in [] = []
  answers_in (push method body ∷ es) = answers_in es
  answers_in (polled a ∷ es) = a ∷ answers_in es

-- ===== src/Handler/Config.antt =====
-- handler/multitenant.go: how the routing configuration arrives, by a push of the control plane or
-- by polling it. `unmarshal` stands for `json.Unmarshal`; a body that cannot be read is `none`.
pub mod Versions
mod Tests
use cdn_edge.Common.{
  ℕ, ◌*◌, ◌^◌, Bool, true, false, not, ◌==◌, if◌then◌else◌, List, [], ◌∷◌, ◌++◌, Option, none, some,
  Text, codes, take,
}
use cdn_edge.Common.Int.{ℤ, pos, ltb_ℤ}
use cdn_edge.Common.Strings.{same, itoa}
use cdn_edge.Common.Http.{Fields, header_set}
use cdn_edge.ControlPlane.Tenant.{EdgeConfig}
use cdn_edge.Handler.Writer.{Reply, http_error}
use cdn_edge.Handler.Tenants.{MultiTenantCdn, update_config}

-- `io.LimitReader(body, 10<<20)`
abbrev pub body_limit : ℕ
body_limit = 10 * 2 ^ 20

-- `lastVersion`; the address, the key and the client of the control plane never change.
pub record ConfigPoller : Type 0 where
  pub last_version : ℤ

-- `NewConfigPoller`
abbrev pub new_config_poller : ConfigPoller
new_config_poller = record { last_version = pos 0 }

-- What a request to the control plane gives: nothing, or a status and a body.
pub data Answer : Type 0 where
  failed : Answer
  answered : ℕ → Option Text → Answer

module _ (unmarshal : Text → Option EdgeConfig) where
  unfoldable pub handle_config_push :
      Fields → Text → Option Text → MultiTenantCdn → MultiTenantCdn × Reply
  handle_config_push h method body mt =
      if not (same method (codes "POST"))
      then (mt, http_error h (codes "Method Not Allowed") 405)
      else (elim body [
        | none ↦ (mt, http_error h (codes "read error") 400)
        | some b ↦ elim (unmarshal (take body_limit b)) [
          | none ↦ (mt, http_error h (codes "invalid JSON") 400)
          | some cfg ↦ (
            update_config cfg mt,
            record {
              status = 200;
              header = header_set (codes "Content-Type") (codes "application/json") h;
              body = codes "{\"status\":\"ok\",\"version\":" ++ itoa cfg.version ++ codes "}";
            },
          )
        ]
      ])

  -- The configuration that an answer carries, if it carries one.
  unfoldable pub parsed : Answer → Option EdgeConfig
  parsed failed = none
  parsed (answered status none) = none
  parsed (answered status (some b)) = if status == 200 then unmarshal (take body_limit b) else none

  unfoldable pub poll : Answer → ConfigPoller × MultiTenantCdn → ConfigPoller × MultiTenantCdn
  poll answer (p, mt) = elim (parsed answer) [
    | none ↦ (p, mt)
    | some cfg ↦
        if ltb_ℤ p.last_version cfg.version
        then (record { last_version = cfg.version }, update_config cfg mt)
        else (p, mt)
  ]

-- ===== src/Orchestration/Scheduler/Resuming.antt =====
-- What a scheduler that continues a checkpoint begins with.
use trusted_ceo_agent.Prelude.{
  String, Bool, true, Option, [], ◌∷◌, ◌≡◌, refl, arith, count, All, inl, inr, ok, Outcome-cases,
}
use trusted_ceo_agent.Orchestration.Items.{WorkGraph, Items}
use trusted_ceo_agent.Orchestration.Easing.{held_by, count-held-Eases}
use trusted_ceo_agent.Orchestration.Budget.{Policy, PolicyBody}
use trusted_ceo_agent.Orchestration.Checkpoint.States.{Body, Checkpoint}
use trusted_ceo_agent.Orchestration.Checkpoint.Verification.{restore_work_items}
use trusted_ceo_agent.Orchestration.Checkpoint.Restoration.{
  IsRestored, restore_work_items-IsRestored,
}
use trusted_ceo_agent.Orchestration.Refresh.{settled}
use trusted_ceo_agent.Orchestration.Refresh.Settling.{Eases-settled}
use trusted_ceo_agent.Orchestration.Scheduler.State.{Scheduler, refresh}
use trusted_ceo_agent.Orchestration.Scheduler.Reporting.{Payload}
use trusted_ceo_agent.Orchestration.Scheduler.Building.{create, from_checkpoint}

idle-count :
    (payloads : String → Option Payload) (sha256 : Payload → String) (xs : Items)
    → All (IsRestored payloads sha256) xs
    → count (held_by (λ _. true)) xs ≡ 0
idle-count payloads sha256 [] h = refl
idle-count payloads sha256 (x ∷ xs) h = ground (arith, h.0.0, idle-count payloads sha256 xs h.1)

created_idle :
    (edge_digest : String → String → String) (fromisoformat : String → Option Bool)
    (policy_digest : PolicyBody → String) (policy_ok : Policy → Bool) (g : WorkGraph)
    (items : Items) (policy : Policy) {s : Scheduler}
    → create edge_digest fromisoformat policy_digest policy_ok g items policy ≡ ok s
    → (s.items ≡ settled items) × (s.lease_started_at ≡ [])
unfolding create refresh
created_idle edge_digest fromisoformat policy_digest policy_ok g items policy h = ground arith

-- A scheduler that `from_checkpoint` builds begins idle: no item is leased or running and no lease
-- time is kept.
pub from_checkpoint_idle :
    (edge_digest : String → String → String) (fromisoformat : String → Option Bool)
    (policy_digest : PolicyBody → String) (policy_ok : Policy → Bool) (digest : Body → String)
    (schema_ok : Checkpoint → Bool) (sha256 : Payload → String) (g : WorkGraph) (items : Items)
    (policy : Policy) (c : Checkpoint) (active_hash : String) (payloads : String → Option Payload)
    {s : Scheduler}
    → from_checkpoint edge_digest fromisoformat policy_digest policy_ok digest schema_ok sha256 g
        items policy c active_hash payloads
      ≡ ok s
    → (count (held_by (λ _. true)) s.items ≡ 0) × (s.lease_started_at ≡ [])
unfolding from_checkpoint
from_checkpoint_idle edge_digest fromisoformat policy_digest policy_ok digest schema_ok sha256 g
      items policy c active_hash payloads {s} h =
    elim (Outcome-cases (
      restore_work_items edge_digest digest schema_ok sha256 fromisoformat policy_digest policy_ok c
        g items policy active_hash payloads)) [
          | inr (e, refused) ↦ absurd (ground arith)
          | inl (restored, given) ↦
              let made : create edge_digest fromisoformat policy_digest policy_ok g restored policy
                  ≡ ok s =
                ground arith in
              let (same, empty) =
                created_idle edge_digest fromisoformat policy_digest policy_ok g restored policy
                  {s = s} made in
              let idle = idle-count payloads sha256 restored (
                restore_work_items-IsRestored edge_digest digest schema_ok sha256 fromisoformat
                  policy_digest policy_ok c g items policy active_hash payloads given) in
              let fewer =
                count-held-Eases (λ _. true) restored (settled restored) (Eases-settled restored) in
              (rw same (omega (arith, idle, fewer)), empty)
        ]

-- ===== src/Orchestration/Scheduler/Calls.antt =====
-- orchestration/scheduler.py: histories of calls of `WorkScheduler`'s methods.
use trusted_ceo_agent.Prelude.{ℕ, String, List, [], ◌∷◌, Outcome}
use trusted_ceo_agent.Orchestration.Items.{FailureCode, Items}
use trusted_ceo_agent.Orchestration.Budget.{Policy, Assessment}
use trusted_ceo_agent.Orchestration.Scheduler.State.{Scheduler}
use trusted_ceo_agent.Orchestration.Scheduler.Leasing.{lease, start}
use trusted_ceo_agent.Orchestration.Scheduler.Reporting.{Payload, complete, fail}
use trusted_ceo_agent.Orchestration.Scheduler.Sweeping.{expire, cancel, cancel_all, assess_budget}

-- A call with its arguments.
pub data Call : Type 0 where
  leases : String → ℕ → Call
  starts : String → String → Call
  completes : String → String → String → Payload → String → Call
  fails : String → String → FailureCode → String → Call
  expires : ℕ → Call
  cancels_all : Call
  cancels : String → Call
  assesses : ℕ → Call

-- `sha256` digests a result; `assess` is `assess_work_budget`, which may raise.
module _ {E : Type 0} (sha256 : Payload → String)
    (assess : Policy → Items → ℕ → Outcome E Assessment) where
  -- The scheduler that a call leaves, whether it returns or raises.
  unfoldable pub step : Scheduler → Call → Scheduler
  step s (leases worker now) = (lease worker now s).1
  step s (starts task worker) = (start task worker s).1
  step s (completes task worker ref payload hash) =
      (complete sha256 task worker ref payload hash s).1
  step s (fails task worker code hash) = (fail task worker code hash s).1
  step s (expires now) = (expire now s).1
  step s cancels_all = (cancel_all s).1
  step s (cancels task) = (cancel task s).1
  step s (assesses elapsed) = (assess_budget assess elapsed s).1

  unfoldable pub run : Scheduler → List Call → Scheduler
  run s [] = s
  run s (c ∷ cs) = run (step s c) cs

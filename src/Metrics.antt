-- ===== src/Metrics.antt =====
-- `MetricsActorCore` of nano_rl/runtime/metrics.py, with its event of nano_rl/runtime/protocols.py.
use nano_rl.Prelude.{ℕ, ◌+◌, String, Option, none, some, List, [], ◌∷◌, ◌++◌}
use nano_rl.Prelude.Equality.{string_eq}
use nano_rl.Prelude.Dict.{Dict, lookup, insert}

pub data EventSeverity : Type 0 where
  info warning error fatal : EventSeverity

-- An object of the details is a number that stands for it.
pub record HealthEvent : Type 0 where
  pub event_id : String
  pub event_type : String
  pub severity : EventSeverity
  pub source_actor : String
  pub created_at : ℕ
  pub gpu_id : Option ℕ
  pub policy_version : Option ℕ
  pub group_epoch : Option ℕ
  pub details : Dict String ℕ

-- `details or {}`
abbrev details_or : Option (Dict String ℕ) → Dict String ℕ
details_or none = []
details_or (some d) = d

-- `emit` on the list of events, with the `uuid4().hex` and the time of the event.
pub emit :
    String
    → ℕ
    → String
    → String
    → EventSeverity
    → Option ℕ
    → Option ℕ
    → Option ℕ
    → Option (Dict String ℕ)
    → List HealthEvent
    → HealthEvent × List HealthEvent
emit hex now event_type source_actor severity gpu_id policy_version group_epoch details events =
    let event : HealthEvent = record {
      event_id = hex;
      event_type = event_type;
      severity = severity;
      source_actor = source_actor;
      created_at = now;
      gpu_id = gpu_id;
      policy_version = policy_version;
      group_epoch = group_epoch;
      details = details_or details;
    } in
    (event, events ++ (event ∷ []))

abbrev get_or_zero : Option ℕ → ℕ
get_or_zero none = 0
get_or_zero (some n) = n

-- The loop of `counts_by_type`.
pub counts_by_type : List HealthEvent → Dict String ℕ → Dict String ℕ
counts_by_type [] counts = counts
counts_by_type (e ∷ es) counts =
    counts_by_type es (insert e.event_type (get_or_zero (lookup e.event_type counts) + 1) counts)

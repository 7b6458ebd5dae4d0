-- ===== src/Controller/Finishing.antt =====
-- `pump_rollout_until_blocked` of nano_rl/runtime/controller.py comes to an end.
use mathlib.Core.Path.{subst}
use nano_rl.Prelude.{
  ℕ, zero, suc, ◌+◌, ◌<◌, ◌≡◌, refl, Option, none, some, List, [], ◌∷◌, ◌++◌, length, length-append,
  if_rule, arith, if◌then◌else◌,
}
use nano_rl.Prelude.Equality.{string_eq}
use nano_rl.Prelude.Exec.{Result, ok, err, continue, pure}
use nano_rl.Protocols.{WeightMeta, SampleRecord}
use nano_rl.Coordinators.{
  RolloutManager, QueuedPrompt, GenerationRequest, dispatch_from_backlog, CoordinatorError,
}
use nano_rl.Coordinators.Taking.{Taken, Within, dispatch_from_backlog-Taken}
use nano_rl.Controller.{World, Controller, ControllerError, Action, lifted, of_coordinator}
use nano_rl.Controller.Pumping.{
  pump_with, pump_loop, pump_rollout_until_blocked, serve_all, output_queue_depth, wants_more,
  remaining, is_empty,
}
use nano_rl.Controller.Backlog.{backlog, Served, serve_all-Served}

-- One tick: as many samples as prompts that left the backlog, and no more than the limit.
abbrev pub Pumped : Option ℕ → ℕ → Result ControllerError (List SampleRecord) × Controller → Type 0
Pumped limit b (ok samples, d) =
    (length samples + length (backlog d) ≡ b) × Within limit (length samples)
Pumped limit b (err e, d) = Unit

Served-Pumped :
    (limit : Option ℕ) (n b : ℕ) (rest : List QueuedPrompt)
    (x : Result ControllerError (List SampleRecord) × Controller)
    → b ≡ n + length rest
    → Within limit n
    → Served n rest x
    → Pumped limit b x
Served-Pumped none n b rest (ok samples, d) e w (l, k) = (rw (l, k) (omega (arith, e)), tt)
Served-Pumped (some limit) n b rest (ok samples, d) e w (l, k) =
    (rw (l, k) (omega (arith, e)), rw l w)
Served-Pumped limit n b rest (err x, d) e w h = tt

Taken-Pumped :
    (w : World) (version : ℕ) (limit : Option ℕ) (c : Controller)
    (x : Result CoordinatorError (List GenerationRequest) × RolloutManager)
    → Taken limit c.rollout_manager x
    → Pumped limit (length (backlog c)) (
        let (r, d) = lifted of_coordinator (λ s d. record d { rollout_manager = s }) x c in
        continue r (λ requests. serve_all w version requests) d)
Taken-Pumped w version limit c (ok requests, n) (e, h) =
    let d = record c { rollout_manager = n } in
    Served-Pumped limit (length requests) (length (backlog c)) n.input_backlog
      (serve_all w version requests d) e h (serve_all-Served w version requests d)
Taken-Pumped w version limit c (err e, n) h = tt

pump_with-Pumped :
    (w : World) (weight : WeightMeta) (step : ℕ) (limit : Option ℕ) (c : Controller)
    → Pumped limit (length (backlog c)) (pump_with w weight step limit c)
unfolding pump_with
pump_with-Pumped w weight step limit c =
    Taken-Pumped w weight.version_id limit (record c { ticks = c.ticks + 1 })
      (dispatch_from_backlog (w.hexes c.ticks) weight.version_id step (output_queue_depth c)
        c.launch_config.queue_high_watermark limit c.rollout_manager)
      (dispatch_from_backlog-Taken (w.hexes c.ticks) weight.version_id step (output_queue_depth c)
        c.launch_config.queue_high_watermark limit c.rollout_manager)

-- The loop has come to an end: it raised, or it gives the samples, as many as prompts that left the
-- backlog and no more than were asked for. `b` counts the samples before and the prompts to come.
abbrev pub Finished :
    Option ℕ → ℕ → Result ControllerError (Option (List SampleRecord)) × Controller → Type 0
Finished max_total b (ok none, d) = ⊥
Finished max_total b (ok (some samples), d) =
    (length samples + length (backlog d) ≡ b) × Within max_total (length samples)
Finished max_total b (err e, d) = Unit

append-Within :
    (max_total : Option ℕ) (samples more : List SampleRecord)
    → Within max_total (length samples)
    → Within (remaining max_total (length samples)) (length more)
    → Within max_total (length (samples ++ more))
append-Within none samples more h k = tt
append-Within (some total) samples more h k = omega (arith, length-append samples more, h, k)

none_yet : (max_total : Option ℕ) → Within max_total 0
none_yet none = tt
none_yet (some total) = omega arith

-- What follows a tick, when the rounds that are left come to an end.
ticked-Finished :
    (max_total : Option ℕ) (samples : List SampleRecord) (b rounds : ℕ)
    (next : List SampleRecord → Action (Option (List SampleRecord)))
    (x : Result ControllerError (List SampleRecord) × Controller)
    → b < suc rounds
    → Within max_total (length samples)
    → ((more : List SampleRecord) (d : Controller)
        → length (backlog d) < rounds
        → Within max_total (length more)
        → Finished max_total (length more + length (backlog d)) (next more d))
    → Pumped (remaining max_total (length samples)) b x
    → Finished max_total (length samples + b) (
        continue x.0
          (λ got. if is_empty got then pure (some samples) else next (samples ++ got))
          x.1)
ticked-Finished max_total samples b rounds next (err e, d) few within ends h = tt
ticked-Finished max_total samples b rounds next (ok [], d) few within ends (e, h) =
    (omega (arith, e), within)
ticked-Finished max_total samples b rounds next (ok (s ∷ ss), d) few within ends (e, h) =
    subst (λ n. Finished max_total n (next (samples ++ (s ∷ ss)) d))
      (omega (arith, e, length-append samples (s ∷ ss)))
      (ends (samples ++ (s ∷ ss)) d (omega (arith, e, few))
        (append-Within max_total samples (s ∷ ss) within h))

pub pump_loop-Finished :
    (rounds : ℕ) (w : World) (weight : WeightMeta) (step : ℕ) (max_total : Option ℕ)
    (samples : List SampleRecord) (c : Controller)
    → length (backlog c) < rounds
    → Within max_total (length samples)
    → Finished max_total
        (length samples + length (backlog c))
        (pump_loop rounds w weight step max_total samples c)
unfolding pump_loop
pump_loop-Finished zero w weight step max_total samples c enough within = absurd (omega arith)
pump_loop-Finished (suc rounds) w weight step max_total samples c enough within =
    let limit = remaining max_total (length samples) in
    if_rule
      (λ (act : Action (Option (List SampleRecord))).
        Finished max_total (length samples + length (backlog c)) (act c))
      (wants_more max_total (length samples)) _ _
      (λ _.
        ticked-Finished max_total samples (length (backlog c)) rounds
          (pump_loop rounds w weight step max_total) (pump_with w weight step limit c) enough within
          (pump_loop-Finished rounds w weight step max_total)
          (pump_with-Pumped w weight step limit c))
      (λ _. (refl, within))

-- `pump_rollout_until_blocked` with a weight comes to an end: the rounds that it is given suffice. When
-- it does not raise, it gives as many samples as prompts that left the backlog, and no more than
-- `max_total_requests`.
pub pump_until_blocked-Finished :
    (w : World) (weight : WeightMeta) (step : ℕ) (max_total : Option ℕ) (c : Controller)
    → Finished max_total
        (length (backlog c))
        (pump_rollout_until_blocked w (some weight) step max_total c)
unfolding pump_rollout_until_blocked
pump_until_blocked-Finished w weight step max_total c =
    subst
      (λ n.
        Finished max_total n (pump_loop (suc (length (backlog c))) w weight step max_total [] c))
      (omega arith)
      (pump_loop-Finished (suc (length (backlog c))) w weight step max_total [] c (omega arith)
        (none_yet max_total))

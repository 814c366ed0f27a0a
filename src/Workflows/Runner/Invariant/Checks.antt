-- ===== src/Workflows/Runner/Invariant/Checks.antt =====
-- Checking the pending steps and executing steps keep the invariant.
use mmids_core.Common.{
  inl, inr, Bool, true, false, not, ◌&&◌, ◌||◌, Option, none, some, List, [], ◌∷◌, Bool-cases,
  nat_eq, string_eq, is_empty, All, lookup,
}
use mmids_core.Workflows.Definitions.{WorkflowStepId}
use mmids_core.Workflows.Steps.{StepStatus, Env}
use mmids_core.Workflows.Runner.State.{
  Actor, TrackedWorkflowStep, Message, is_running, set_status_to_error,
}
use mmids_core.Workflows.Runner.Execute.{run_steps}
use mmids_core.Workflows.Runner.Swap.{
  Scan, scanned, returned, scan_step, scan_pending, after_scan, check_pending,
}
use mmids_core.Workflows.Runner.Apply.{execute_steps}
use mmids_core.Workflows.Runner.Frame.{run_steps-Keeps}
use mmids_core.Workflows.Runner.Invariant.{
  listed, IsDefined, Inv, set_status_to_error-IsQuiet, run_steps-IsQuiet, Keeps-Inv,
}
use mmids_core.Workflows.Runner.Invariant.Swap.{swap_pending-Inv}

module _ {I N : Type 0} where
  -- An error keeps the definitions and drops the steps.
  pub error-Inv :
      (s : Actor I N) (id : WorkflowStepId) (m : Message)
      → All (IsDefined s) (listed s)
      → Inv (set_status_to_error s id m)
  unfolding set_status_to_error
  error-Inv s id m d = record {
    quiet = set_status_to_error-IsQuiet s id m;
    defined = d;
    tracked = λ r. cc;
  }

  -- What the loop over the pending steps returns from its middle.
  abbrev ReturnsInv : Scan I N → Type 0
  ReturnsInv (scanned all) = Unit
  ReturnsInv (returned t) = Inv t

  scan_step-Inv :
      (s : Actor I N) (id : WorkflowStepId) (all : Bool) (o : Option (TrackedWorkflowStep I))
      → Inv s
      → ReturnsInv (scan_step s id all o)
  unfolding scan_step
  scan_step-Inv s id all none v = error-Inv s id _ v.defined
  scan_step-Inv s id all (some step) v = by_status step.status
    where
      by_status :
          (status : StepStatus)
          → ReturnsInv (
              scan_step s id all
                (some (record { step_instance = step.step_instance; status = status })))
      by_status StepStatus.created = tt
      by_status StepStatus.active = tt
      by_status (StepStatus.error message) = error-Inv s id _ v.defined
      by_status StepStatus.shutdown = v

  scan_pending-Inv :
      (s : Actor I N) (ids : List WorkflowStepId) (all : Bool)
      → Inv s
      → ReturnsInv (scan_pending s ids all)
  unfolding scan_pending
  scan_pending-Inv s [] all v = tt
  scan_pending-Inv s (id ∷ ids) all v =
      go (scan_step s id all (lookup id s.steps_by_definition_id))
        (scan_step-Inv s id all (lookup id s.steps_by_definition_id) v)
        (λ b. scan_pending-Inv s ids b v)
    where
      go :
          (r : Scan I N)
          → ReturnsInv r
          → ((b : Bool) → ReturnsInv (scan_pending s ids b))
          → ReturnsInv (elim r [ returned t ↦ returned t | scanned all' ↦ scan_pending s ids all' ])
      go (scanned b) h later = later b
      go (returned t) h later = h

  module _ (env : Env I N) where
    after_scan-Inv :
        (s : Actor I N) (swap_if_empty : Bool) (r : Scan I N)
        → Inv s
        → ReturnsInv r
        → Inv (after_scan env s swap_if_empty r)
    unfolding after_scan
    after_scan-Inv s swap_if_empty (returned t) v h = h
    after_scan-Inv s swap_if_empty (scanned all) v h =
        elim (Bool-cases (
          (not (is_empty s.pending_steps) && all) || (is_empty s.pending_steps && swap_if_empty))) [
            | inl q ↦ rw q (swap_pending-Inv env s v)
            | inr q ↦ rw q v
          ]

    pub check_pending-Inv :
        (s : Actor I N) (swap_if_empty : Bool) → Inv s → Inv (check_pending env s swap_if_empty)
    unfolding check_pending
    check_pending-Inv s swap_if_empty v =
        after_scan-Inv s swap_if_empty (scan_pending s s.pending_steps true) v
          (scan_pending-Inv s s.pending_steps true v)

    pub execute_steps-Inv :
        (s : Actor I N) (id : WorkflowStepId) (n : Option N) (preserve check : Bool)
        → Inv s
        → Inv (execute_steps env s id n preserve check)
    unfolding execute_steps
    execute_steps-Inv s id n preserve check v =
        let t = run_steps env s id n preserve in
        let w =
          Keeps-Inv s t (run_steps-Keeps env s id n preserve)
            (run_steps-IsQuiet env s id n preserve v.quiet) v in
        elim (Bool-cases (is_running s.status)) [
          | inl r ↦ rw r (elim (Bool-cases check) [
            | inl c ↦ rw c (check_pending-Inv t false w)
            | inr c ↦ rw c w
          ])
          | inr r ↦ rw r v
        ]

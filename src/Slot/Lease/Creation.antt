-- ===== src/Slot/Lease/Creation.antt =====
-- The manager that `GpuLeaseManagerCore.__init__` of nano_rl/runtime/slot.py makes from a plan.
use nano_rl.Prelude.{
  ℕ, String, ◌≡◌, refl, inl, inr, true, false, some, List, [], ◌∷◌, arith, Bool-cases,
}
use nano_rl.Prelude.Dict.{lookup, insert, lookup-nil, lookup-insert, lookup-insert_self}
use nano_rl.Prelude.Exec.{Result, ok, err}
use nano_rl.Prelude.Equality.{nat_eq, contains}
use nano_rl.Exceptions.{SlotError, role_unsupported}
use nano_rl.Slot.Names.{RoleName, role_eq, trainer}
use nano_rl.Slot.Types.{GpuLeaseState, ResolvedGpuPlan}
use nano_rl.Slot.Lease.{Manager, create, init_loop, init_gpu, grant}
use nano_rl.Slot.Lease.Invariant.{GpuOk, IsWellFormed}
use nano_rl.Slot.Lease.Changes.{LeaseCall, run, run-IsWellFormed}
use nano_rl.Slot.Lease.Refusals.{unsupported_forever}

-- The entries of a GPU are those that its round of the loop has made.
pub record Initial (plan : ResolvedGpuPlan) (g : ℕ) (m : Manager) : Type 0 where
  pub roles : List RoleName
  pub state : GpuLeaseState
  pub made : init_gpu plan g ≡ ok (roles, state)
  pub known : lookup g m.supported_roles ≡ some roles
  pub found : lookup g m.states ≡ some state

-- Outside `ids` the entries of `m` are those of `before`.
pub record Loaded (plan : ResolvedGpuPlan) (ids : List ℕ) (before m : Manager) : Type 0 where
  pub inside : (g : ℕ) → contains g ids ≡ true → Initial plan g m
  pub outside_roles :
      (g : ℕ)
      → contains g ids ≡ false
      → lookup g m.supported_roles ≡ lookup g before.supported_roles
  pub outside_states : (g : ℕ) → contains g ids ≡ false → lookup g m.states ≡ lookup g before.states

add_gpu : ℕ → List RoleName → GpuLeaseState → Manager → Manager
add_gpu g roles state m = record m {
  states = insert g state m.states;
  supported_roles = insert g roles m.supported_roles;
}

Loaded-cons :
    (plan : ResolvedGpuPlan) (g : ℕ) (ids : List ℕ) (roles : List RoleName) (state : GpuLeaseState)
    (before m : Manager)
    → init_gpu plan g ≡ ok (roles, state)
    → Loaded plan ids (add_gpu g roles state before) m
    → Loaded plan (g ∷ ids) before m
unfolding add_gpu
Loaded-cons plan g ids roles state before m made v = record {
  inside = λ h c. elim (Bool-cases (contains h ids)) [
    | inl later ↦ v.inside h later
    | inr now ↦ record {
      roles = roles;
      state = state;
      made = rw (← here h c now) made;
      known = rw (v.outside_roles h now, ← here h c now) (lookup-insert_self _ _ _);
      found = rw (v.outside_states h now, ← here h c now) (lookup-insert_self _ _ _);
    }
  ];
  outside_roles =
      λ h c. ground (arith, v.outside_roles h, lookup-insert h g roles before.supported_roles);
  outside_states = λ h c. ground (arith, v.outside_states h, lookup-insert h g state before.states);
}
  where
    here : (h : ℕ) → contains h (g ∷ ids) ≡ true → contains h ids ≡ false → g ≡ h
    here h c now = ground (arith, nat_eq.test_iff g h)

init_loop-Loaded :
    (plan : ResolvedGpuPlan) (ids : List ℕ) (before m : Manager)
    → init_loop plan ids before ≡ ok m
    → Loaded plan ids before m
unfolding init_loop
init_loop-Loaded plan [] before m h = record {
  inside = λ g c. cc;
  outside_roles = λ g c. ground arith;
  outside_states = λ g c. ground arith;
}
init_loop-Loaded plan (g ∷ ids) before m h =
    go (init_gpu plan g) refl (λ b. init_loop-Loaded plan ids b m)
  where
    go :
        (r : Result SlotError (List RoleName × GpuLeaseState))
        → init_gpu plan g ≡ r
        → ((b : Manager) → init_loop plan ids b ≡ ok m → Loaded plan ids b m)
        → Loaded plan (g ∷ ids) before m
    go (err x) e rest = absurd (ground arith)
    go (ok (roles, state)) e rest =
        Loaded-cons plan g ids roles state before m e (rest _ (unfold add_gpu in ground arith))

init_gpu-GpuOk :
    (plan : ResolvedGpuPlan) (g : ℕ) (roles : List RoleName) (state : GpuLeaseState)
    → init_gpu plan g ≡ ok (roles, state)
    → GpuOk g (some roles) (some state)
unfolding init_gpu
init_gpu-GpuOk plan g roles state h = ground arith

unshared :
    (plan : ResolvedGpuPlan) (g : ℕ) (roles : List RoleName) (state : GpuLeaseState)
    → init_gpu plan g ≡ ok (roles, state)
    → contains g plan.shared_gpu_ids ≡ false
    → contains trainer roles ≡ false
unfolding init_gpu
unshared plan g roles state h own = ground arith

-- Every GPU of the plan gets the entries of its own round, and no other GPU gets any.
pub create-Loaded :
    (plan : ResolvedGpuPlan) (m : Manager)
    → create plan ≡ ok m
    → Loaded plan plan.physical_gpu_ids
        (record { plan = plan; states = []; supported_roles = [] })
        m
unfolding create
create-Loaded plan m h = init_loop-Loaded plan plan.physical_gpu_ids _ m h

create-IsWellFormed : (plan : ResolvedGpuPlan) (m : Manager) → create plan ≡ ok m → IsWellFormed m
create-IsWellFormed plan m h = record {
  at = λ g. elim (Bool-cases (contains g plan.physical_gpu_ids)) [
    | inl physical ↦
        let made = (create-Loaded plan m h).inside g physical in
        rw (made.known, made.found) (init_gpu-GpuOk plan g made.roles made.state made.made)
    | inr foreign ↦
        let v = create-Loaded plan m h in
        rw (v.outside_roles g foreign, v.outside_states g foreign) (simp lookup-nil tt)
  ];
}

-- From the plan on, whatever is called, phase, role and holder of each GPU agree, and an active role is
-- one that the GPU supports.
pub history-IsWellFormed :
    (plan : ResolvedGpuPlan) (m : Manager) (cs : List LeaseCall)
    → create plan ≡ ok m
    → IsWellFormed (run cs m)
history-IsWellFormed plan m cs h = run-IsWellFormed cs m (create-IsWellFormed plan m h)

-- On a GPU of the plan that is not shared, a trainer lease is refused as unsupported at any time, and
-- the refusal changes nothing.
pub rollout_only_refuses_trainer :
    (plan : ResolvedGpuPlan) (m : Manager) (gpu : ℕ) (holder : String) (cs : List LeaseCall)
    → create plan ≡ ok m
    → contains gpu plan.physical_gpu_ids ≡ true
    → contains gpu plan.shared_gpu_ids ≡ false
    → grant trainer gpu holder (run cs m) ≡ (err (role_unsupported gpu trainer), run cs m)
rollout_only_refuses_trainer plan m gpu holder cs h physical own =
    let made = (create-Loaded plan m h).inside gpu physical in
    unsupported_forever trainer gpu holder m made.roles made.known
      (unshared plan gpu made.roles made.state made.made own) cs

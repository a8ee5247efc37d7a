-- ===== src/WorkGraph/Bounds.antt =====
-- The executor's bounds: how many units run at once, in all and for each provider.
use agentic_sdlc.Base.Int.{ℤ, is_negative}
use agentic_sdlc.Base.{
  ℕ, String, ◌≡◌, refl, inl, inr, Bool, true, false, not, Exec, Result, ok, err, Error, arith,
  if◌then◌else◌, Bool-cases, and_then, pure, require, is_empty,
}
use agentic_sdlc.Base.Dict
use agentic_sdlc.Base.Dict.{Dict}
use agentic_sdlc.WorkGraph.Spec.{get}
use agentic_sdlc.WorkGraph.Operations.{
  block, release_all, record_artifact, set_status, complete, fail, resources, is_digest,
  require_running, amount,
}
use agentic_sdlc.WorkGraph.FanIn.{
  apply_change, reset_downstream, invalidate_upstream_change, record_final_verification, unattested,
  same_text,
}
use agentic_sdlc.WorkGraph.Executor.{completed, failed, Executor, status_at, is_running}
use agentic_sdlc.WorkGraph.Calm.{
  stopped, Calm, Calm-refl, Calm-trans, bind-Calm, release_all-Calm, block_downstream-Calm,
  reset_downstream-Calm,
}

module _ {B : Type 0} (x : Executor) where
  -- A chain whose value came with the state unchanged.
  pub same-Calm :
      {A : Type 0} (r : Result A) (f : A → Exec Executor B)
      → ((a : A) → r ≡ ok a → Calm x (f a x).1)
      → Calm x (and_then (r, x) f).1
  same-Calm (ok a) f k = k a refl
  same-Calm (err e) f k = Calm-refl x

  pub require-Calm :
      (b : Bool) (e : Error) (f : Unit {0} → Exec Executor B)
      → (b ≡ true → Calm x (f tt x).1)
      → Calm x (and_then (require b e x) f).1
  require-Calm true e f k = k refl
  require-Calm false e f k = Calm-refl x

record_artifact-Calm :
    (u d : String) (ok' : Bool) (n : ℕ) (x : Executor) → Calm x (record_artifact u d ok' n x)
unfolding record_artifact
record_artifact-Calm u d ok' n x = record {
  graph = refl;
  max = refl;
  limits = refl;
  fewer = λ q. stopped q u (if ok' then completed else failed) x.status (settled ok');
}
  where
    settled : (b : Bool) → is_running (if b then completed else failed) ≡ false
    settled true = refl
    settled false = refl

if_block-Calm :
    (ok' : Bool) (u why : String) (x : Executor)
    → Calm x ((if ok' then pure tt else block u why) x).1
if_block-Calm true u why x = Calm-refl x
if_block-Calm false u why x = block_downstream-Calm x.graph.order u why x

pub complete-Calm :
    (u d : String) (ok' : Bool) (n : ℤ) (now : ℕ) (x : Executor)
    → Calm x (complete u d ok' n now x).1
unfolding complete
complete-Calm u d ok' n now x = same-Calm x (get x.graph u) _ λ spec _.
    same-Calm x (status_at x u) _ λ s _. same-Calm x (require_running u s) _ λ _ _.
      require-Calm x (is_digest d) _ _ λ _. require-Calm x (not (is_negative n)) _ _ λ _.
        Calm-trans (record_artifact-Calm u d ok' (amount n) x) (
          bind-Calm _ (release_all (resources spec) u now _) _
            (release_all-Calm (resources spec) u now _) λ _ _. if_block-Calm ok' u _ _)

pub fail-Calm : (u : String) (now : ℕ) (why : String) (x : Executor) → Calm x (fail u now why x).1
unfolding fail set_status
fail-Calm u now why x = same-Calm x (get x.graph u) _ λ spec _. same-Calm x (status_at x u) _ λ s _.
    same-Calm x (require_running u s) _ λ _ _.
      Calm-trans
        (record {
          graph = refl;
          max = refl;
          limits = refl;
          fewer = λ q. stopped q u failed x.status refl;
        })
        (bind-Calm _ (release_all (resources spec) u now _) _
          (release_all-Calm (resources spec) u now _) λ _ _. block_downstream-Calm _ u _ _)

reset-Calm : (u d : String) (x : Executor) → Calm x (apply_change u d x).1
unfolding apply_change
reset-Calm u d x =
    let y = record x { artifacts = Dict.put u d x.artifacts } in
    Calm-trans (record { graph = refl; max = refl; limits = refl; fewer = λ q. omega arith })
      (bind-Calm y (reset_downstream x.graph.order u (Dict.get u x.artifacts) d y) _
        (reset_downstream-Calm x.graph.order u (Dict.get u x.artifacts) d y)
        λ _ _. record { graph = refl; max = refl; limits = refl; fewer = λ q. omega arith })

pub invalidate-Calm : (u d : String) (x : Executor) → Calm x (invalidate_upstream_change u d x).1
unfolding invalidate_upstream_change
invalidate-Calm u d x = same-Calm x (get x.graph u) _ λ spec _.
    require-Calm x (is_digest d) _ _ λ _. elim (Bool-cases (same_text (Dict.get u x.artifacts) d)) [
      | inl known ↦ rw known (Calm-refl x)
      | inr fresh ↦ rw fresh (reset-Calm u d x)
    ]

pub final-Calm : (b : Bool) (x : Executor) → Calm x (record_final_verification b x).1
unfolding record_final_verification
final-Calm b x = same-Calm x (unattested x) _ λ missing _.
    require-Calm x (is_empty missing) _ _
      λ _. record { graph = refl; max = refl; limits = refl; fewer = λ q. omega arith }

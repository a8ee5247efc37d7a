-- ===== src/WorkGraph/Lookups.antt =====
-- The lookups of `GraphExecutor` and `WorkGraph` (src/agentic_sdlc/work_graph.py) return what the
-- dictionaries hold.
use agentic_sdlc.Base.{String, ◌≡◌, refl, ap, ◌∙◌, inl, inr, some, ok, Option-cases}
use agentic_sdlc.Base.Dict
use agentic_sdlc.WorkGraph.Spec.{WorkUnitSpec, WorkGraph, get}
use agentic_sdlc.WorkGraph.Executor.{Status, Executor, status_at}

pub status_at-get :
    (x : Executor) (u : String) (s : Status) → status_at x u ≡ ok s → Dict.get u x.status ≡ some s
unfolding status_at
status_at-get x u s h = elim (Option-cases (Dict.get u x.status)) [
  | inl missing ↦ absurd (let h' = rw (status_at, missing) at h in cc)
  | inr (t, at) ↦
      let h' = rw (status_at, at) at h in let same : t ≡ s = cc in at ∙ ap (λ r. some r) same
]

pub status_at-eq :
    (x : Executor) (u : String) (s : Status) → Dict.get u x.status ≡ some s → status_at x u ≡ ok s
unfolding status_at
status_at-eq x u s at = rw (status_at, at) refl

pub spec_of-get :
    (g : WorkGraph) (u : String) (s : WorkUnitSpec) → get g u ≡ ok s → Dict.get u g.units ≡ some s
unfolding get
spec_of-get g u s h = elim (Option-cases (Dict.get u g.units)) [
  | inl missing ↦ absurd (let h' = rw (get, missing) at h in cc)
  | inr (t, at) ↦ let h' = rw (get, at) at h in let same : t ≡ s = cc in at ∙ ap (λ r. some r) same
]

pub spec_of-eq :
    (g : WorkGraph) (u : String) (s : WorkUnitSpec) → Dict.get u g.units ≡ some s → get g u ≡ ok s
unfolding get
spec_of-eq g u s at = rw (get, at) refl

-- ===== src/WorkGraph/Calm.antt =====
-- The running units, counted; and the operations that start none.
use agentic_sdlc.Base.{
  ℕ, ◌+◌, ◌≤◌, String, ◌≡◌, refl, ◌∙◌, inl, inr, Bool, true, false, ◌&&◌, Option, List, [], ◌∷◌,
  Exec, Result, ok, err, arith, eq_iff, ◌==◌, length, keep, if◌then◌else◌, Bool-cases, and_then,
}
use agentic_sdlc.Base.Dict
use agentic_sdlc.Base.Dict.{Dict}
use agentic_sdlc.WorkGraph.Leases.{LeaseManager, acquire, release}
use agentic_sdlc.WorkGraph.Operations.{
  is_open, is_hit, block_unit, on_leases, acquire_all, release_all, block_downstream,
}
use agentic_sdlc.WorkGraph.FanIn.{is_done, reset_unit, reset_downstream}
use agentic_sdlc.WorkGraph.Executor.{Status, pending, blocked, is_running, Executor, running_units}

-- the running units that pass the test
abbrev pub tally : (String → Bool) → Dict Status → ℕ
tally q d = length (keep q (running_units d))

-- Writing a status adds at most the unit itself, and only if it runs now and passes the test.
pub tally-put :
    (q : String → Bool) (u : String) (s : Status) (d : Dict Status)
    → tally q (Dict.put u s d) ≤ tally q d + (if is_running s && q u then 1 else 0)
unfolding running_units Dict.put
tally-put q u s [] = ground arith
tally-put q u s ((v, t) ∷ d) = elim (Bool-cases (v == u)) [
  | inl same ↦ rw same (ground (arith, eq_iff v u))
  | inr other ↦ rw other (ground (arith, tally-put q u s d))
]

-- The second state has the bounds of the first, and no more units run, by any count.
pub record Calm (x y : Executor) : Type 0 where
  pub graph : y.graph ≡ x.graph
  pub max : y.max_parallel ≡ x.max_parallel
  pub limits : y.provider_limits ≡ x.provider_limits
  pub fewer : (q : String → Bool) → tally q y.status ≤ tally q x.status

pub Calm-refl : (x : Executor) → Calm x x
Calm-refl x = record { graph = refl; max = refl; limits = refl; fewer = λ q. omega arith }

pub Calm-trans : {x y z : Executor} → Calm x y → Calm y z → Calm x z
Calm-trans c d = record {
  graph = d.graph ∙ c.graph;
  max = d.max ∙ c.max;
  limits = d.limits ∙ c.limits;
  fewer = λ q. omega (arith, c.fewer q, d.fewer q);
}

-- a status that is not running
pub stopped :
    (q : String → Bool) (u : String) (s : Status) (d : Dict Status)
    → is_running s ≡ false
    → tally q (Dict.put u s d) ≤ tally q d
stopped q u s d h = let bound = rw h at (tally-put q u s d) in omega arith

module _ {A B : Type 0} (x : Executor) where
  pub bind-Calm :
      (m : Result A × Executor) (f : A → Exec Executor B)
      → Calm x m.1
      → ((a : A) → m.0 ≡ ok a → Calm m.1 (f a m.1).1)
      → Calm x (and_then m f).1
  bind-Calm (ok a, y) f c k = Calm-trans c (k a refl)
  bind-Calm (err e, y) f c k = c

on_leases-Calm : (call : Exec LeaseManager (Unit {0})) (x : Executor) → Calm x (on_leases call x).1
on_leases-Calm call x = record { graph = refl; max = refl; limits = refl; fewer = λ q. omega arith }

pub acquire_all-Calm :
    (rs : List String) (u : String) (now ttl : ℕ) (x : Executor)
    → Calm x (acquire_all rs u now ttl x).1
unfolding acquire_all
acquire_all-Calm [] u now ttl x = Calm-refl x
acquire_all-Calm (r ∷ rs) u now ttl x =
    bind-Calm x (on_leases (acquire r u now ttl) x) _ (on_leases-Calm (acquire r u now ttl) x)
      λ _ _. acquire_all-Calm rs u now ttl _

pub release_all-Calm :
    (rs : List String) (u : String) (now : ℕ) (x : Executor) → Calm x (release_all rs u now x).1
unfolding release_all
release_all-Calm [] u now x = Calm-refl x
release_all-Calm (r ∷ rs) u now x =
    bind-Calm x (on_leases (release r u now) x) _ (on_leases-Calm (release r u now) x)
      λ _ _. release_all-Calm rs u now _

-- Writing a status that is not "running".
pub put-Calm :
    (u : String) (s : Status) (x y : Executor)
    → y.graph ≡ x.graph
    → y.max_parallel ≡ x.max_parallel
    → y.provider_limits ≡ x.provider_limits
    → y.status ≡ Dict.put u s x.status
    → is_running s ≡ false
    → Calm x y
put-Calm u s x y g m l at quiet = record {
  graph = g;
  max = m;
  limits = l;
  fewer = λ q. rw at (stopped q u s x.status quiet);
}

when-Calm : (hit : Bool) (x y : Executor) → Calm x y → Calm x (if hit then y else x)
when-Calm true x y c = c
when-Calm false x y c = Calm-refl x

-- a test that leaves the state as it is
ask-Calm :
    {A B : Type 0} (x : Executor) (r : Result A) (f : A → Exec Executor B)
    → ((a : A) → Calm x (f a x).1)
    → Calm x (and_then (r, x) f).1
ask-Calm x (ok a) f k = k a
ask-Calm x (err e) f k = Calm-refl x

pub block_downstream-Calm :
    (os : List String) (u reason : String) (x : Executor)
    → Calm x (block_downstream os u reason x).1
unfolding block_downstream block_unit
block_downstream-Calm [] u reason x = Calm-refl x
block_downstream-Calm (o ∷ os) u reason x = ask-Calm x (is_hit is_open u o x) _ λ hit.
    Calm-trans
      (when-Calm hit x (block_unit o u reason x)
        (put-Calm o blocked x (block_unit o u reason x) refl refl refl refl refl))
      (block_downstream-Calm os u reason _)

pub reset_downstream-Calm :
    (os : List String) (u : String) (previous : Option String) (d : String) (x : Executor)
    → Calm x (reset_downstream os u previous d x).1
unfolding reset_downstream reset_unit
reset_downstream-Calm [] u previous d x = Calm-refl x
reset_downstream-Calm (o ∷ os) u previous d x = ask-Calm x (is_hit is_done u o x) _ λ hit.
    let y = if hit then reset_unit o u previous d x else x in
    Calm-trans
      (when-Calm hit x (reset_unit o u previous d x)
        (put-Calm o pending x (reset_unit o u previous d x) refl refl refl refl refl))
      (bind-Calm y (reset_downstream os u previous d y) _ (reset_downstream-Calm os u previous d y)
        λ rest _. Calm-refl _)

-- ===== src/Orchestration/Serial.antt =====
-- Implementation and repair runs are serialized: at most one is active in a concurrency group.
use agentic_sdlc.Base.{
  ℕ, ◌+◌, ◌≤◌, String, ◌≡◌, refl, sym, ◌∙◌, subst, ◌⊎◌, inl, inr, true, false, Option, none, some,
  List, [], ◌∷◌, ◌++◌, map, ok, arith, eq_iff, ◌==◌, count_if, keep, Bool-cases, Option-cases,
  if◌then◌else◌,
}
use agentic_sdlc.Base.Dict
use agentic_sdlc.Base.Dict.{Dict}
use agentic_sdlc.Orchestration.Store.{
  AgentRunRecord, WorkUnit, Orchestrator, store, record_transition,
}
use agentic_sdlc.Orchestration.Runs.{
  Finish, is_exclusive, is_active, running, conflict, check_serial, with_run,
  finished as finished_run, finish_in,
}
use agentic_sdlc.Orchestration.Ops.{Op, run_ops}
use agentic_sdlc.Orchestration.Steps.{
  Step, created, moved, noted, started, finished, Reach, here, next,
}
use agentic_sdlc.Orchestration.Refines.{run_ops-Reach}

-- the active runs of a unit, counted for a group
abbrev pub load : String → WorkUnit → ℕ
load g u = if u.concurrency_group == g then count_if is_active u.runs else 0

-- the active implementation and repair runs of a group
unfoldable pub active_runs : String → Dict WorkUnit → ℕ
active_runs g [] = 0
active_runs g ((_, u) ∷ units) = load g u + active_runs g units

module _ (g k : String) where
  active_runs-put :
      (v u : WorkUnit) (d : Dict WorkUnit)
      → Dict.get k d ≡ some u
      → active_runs g (Dict.put k v d) + load g u ≡ active_runs g d + load g v
  unfolding active_runs Dict.get Dict.put
  active_runs-put v u [] h = cc
  active_runs-put v u ((j, w) ∷ d) h = elim (Bool-cases (j == k)) [
    | inl same ↦ rw same (
        let e : w ≡ u = ground arith in
        subst (λ x. load g v + active_runs g d + load g x ≡ load g w + active_runs g d + load g v) e
          (omega arith))
    | inr other ↦ rw other (let h' = rw other at h in omega (arith, active_runs-put v u d h'))
  ]

  active_runs-put_new :
      (v : WorkUnit) (d : Dict WorkUnit)
      → Dict.get k d ≡ none
      → active_runs g (Dict.put k v d) ≡ active_runs g d + load g v
  unfolding active_runs Dict.get Dict.put
  active_runs-put_new v [] h = omega arith
  active_runs-put_new v ((j, w) ∷ d) h = elim (Bool-cases (j == k)) [
    | inl same ↦ absurd (let h' = rw same at h in cc)
    | inr other ↦ rw other (let h' = rw other at h in omega (arith, active_runs-put_new v d h'))
  ]

-- a group with no conflict has no active run
conflict-append :
    (g : String) (xs ys : List (WorkUnit × AgentRunRecord))
    → conflict g (xs ++ ys) ≡ none
    → (conflict g xs ≡ none) × (conflict g ys ≡ none)
unfolding conflict
conflict-append g [] ys h = (refl, h)
conflict-append g ((u, r) ∷ xs) ys h = elim (Bool-cases (u.concurrency_group == g)) [
  | inl same ↦ absurd (let h' = rw same at h in cc)
  | inr other ↦
      let h' = rw other at h in let (hx, hy) = conflict-append g xs ys h' in (rw other hx, hy)
]

unit_free :
    (g : String) (u : WorkUnit) (runs : List AgentRunRecord)
    → conflict g (map (λ run. (u, run)) (keep is_active runs)) ≡ none
    → (if u.concurrency_group == g then count_if is_active runs else 0) ≡ 0
unfolding conflict
unit_free g u [] h = ground arith
unit_free g u (r ∷ runs) h = elim (Bool-cases (is_active r)) [
  | inr idle ↦ rw idle (unit_free g u runs (rw idle at h))
  | inl active ↦ elim (Bool-cases (u.concurrency_group == g)) [
    | inr other ↦ rw other refl
    | inl same ↦
        absurd (let clash = rw (active, conflict) at h in let clash' = rw same at clash in cc)
  ]
]

active_runs_free :
    (g : String) (d : Dict WorkUnit) → conflict g (running d) ≡ none → active_runs g d ≡ 0
unfolding active_runs running
active_runs_free g [] h = refl
active_runs_free g ((j, u) ∷ d) h =
    let (hu, hd) =
      conflict-append g (map (λ run. (u, run)) (keep is_active u.runs)) (running d) h in
    omega (arith, unit_free g u u.runs hu, active_runs_free g d hd)

-- a run that may start finds its group free, if it is exclusive
check_serial_free :
    (d : Dict WorkUnit) (u : WorkUnit) (kind : String)
    → check_serial d u kind ≡ ok tt
    → is_exclusive kind ≡ true
    → active_runs u.concurrency_group d ≡ 0
unfolding check_serial
check_serial_free d u kind h exclusive =
    elim (Option-cases (conflict u.concurrency_group (running d))) [
      | inl free ↦ active_runs_free u.concurrency_group d free
      | inr (c, clash) ↦ absurd (let h' = rw exclusive at h in let h'' = rw clash at h' in cc)
    ]

count_if-snoc :
    (rs : List AgentRunRecord) (r : AgentRunRecord)
    → count_if is_active (rs ++ r ∷ []) ≡ count_if is_active rs + (if is_active r then 1 else 0)
count_if-snoc [] r = ground arith
count_if-snoc (x ∷ rs) r = ground (arith, count_if-snoc rs r)

is_active_exclusive : (r : AgentRunRecord) → is_exclusive r.kind ≡ false → is_active r ≡ false
unfolding is_active
is_active_exclusive r h = ground arith

with_run-runs :
    (u : WorkUnit) (r : AgentRunRecord)
    → ((with_run u r).runs ≡ u.runs ++ r ∷ [])
      × ((with_run u r).concurrency_group ≡ u.concurrency_group)
unfolding with_run record_transition
with_run-runs u r = elim (Bool-cases (r.kind == "implementation")) [
  | inl impl ↦ rw impl (refl, refl)
  | inr other ↦ elim (Bool-cases (r.kind == "repair")) [
    | inl repair ↦ rw (other, repair) (refl, refl)
    | inr neither ↦ rw (other, neither) (refl, refl)
  ]
]

load-with_run :
    (g : String) (u : WorkUnit) (r : AgentRunRecord)
    → load g (with_run u r)
      ≡ load g u + (if u.concurrency_group == g then (if is_active r then 1 else 0) else 0)
load-with_run g u r =
    let (runs, group) = with_run-runs u r in
    rw (runs, group)
      (elim (Bool-cases (u.concurrency_group == g)) [
        | inl same ↦ rw same (count_if-snoc u.runs r)
        | inr other ↦ rw other refl
      ])

finished_idle :
    (f : Finish) (r : AgentRunRecord)
    → (f.result ≡ "succeeded") ⊎ (f.result ≡ "failed")
    → is_active (finished_run f r) ≡ false
unfolding finished_run is_active
finished_idle f r h = elim (Bool-cases (r.result == "running")) [
  | inr over ↦ rw over (rw over refl)
  | inl on ↦ elim h [ inl e ↦ rw on (rw e refl) | inr e ↦ rw on (rw e refl) ]
]

finish_in-count :
    (f : Finish) (i : String) (rs : List AgentRunRecord) (r : AgentRunRecord)
    (rs' : List AgentRunRecord)
    → (f.result ≡ "succeeded") ⊎ (f.result ≡ "failed")
    → finish_in f i rs ≡ some (r, rs')
    → count_if is_active rs' ≤ count_if is_active rs
unfolding finish_in
finish_in-count f i [] r rs' known h = cc
finish_in-count f i (x ∷ rs) r rs' known h = elim (Bool-cases (x.run_id == i)) [
  | inl this ↦
      let e : ◌≡◌ {A = Option (AgentRunRecord × List AgentRunRecord)}
          (some (finished_run f x, finished_run f x ∷ rs)) (some (r, rs')) =
        rw this at h in
      let e' : finished_run f x ∷ rs ≡ rs' = cc in
      subst (λ l. count_if is_active l ≤ count_if is_active (x ∷ rs)) e'
        (rw (finished_idle f x known) (ground arith))
  | inr other ↦ elim (Option-cases (finish_in f i rs)) [
    | inl missing ↦ absurd (let e = rw other at h in let e' = rw missing at e in cc)
    | inr ((q, qs), done) ↦
        let e = rw other at h in
        let e' : ◌≡◌ {A = Option (AgentRunRecord × List AgentRunRecord)} (some (q, x ∷ qs))
            (some (r, rs')) =
          rw done at e in
        let e'' : x ∷ qs ≡ rs' = cc in
        subst (λ l. count_if is_active l ≤ count_if is_active (x ∷ rs)) e''
          (ground (arith, finish_in-count f i rs q qs known done))
  ]
]

-- At most one active implementation or repair run in each concurrency group.
pub record IsSerial (o : Orchestrator) : Type 0 where
  pub each : (g : String) → active_runs g o.units ≤ 1

-- a unit is replaced by one that weighs no more
IsSerial-store :
    (k : String) (u v : WorkUnit) (o : Orchestrator)
    → Dict.get k o.units ≡ some u
    → ((g : String) → load g v ≤ load g u)
    → IsSerial o
    → IsSerial (store k v o)
IsSerial-store k u v o at le h = record {
  each = λ g. omega (arith, active_runs-put g k v u o.units at, le g, h.each g);
}

load_of_runs :
    (g : String) (u v : WorkUnit)
    → v.concurrency_group ≡ u.concurrency_group
    → count_if is_active v.runs ≤ count_if is_active u.runs
    → load g v ≤ load g u
load_of_runs g u v e h = rw e (ground arith)

load-new : (g : String) (u : WorkUnit) → u.runs ≡ [] → load g u ≡ 0
load-new g u e = rw e (ground arith)

-- a run that is not active, or of another group, adds nothing to the group
load_kept :
    (g : String) (u : WorkUnit) (run : AgentRunRecord)
    → (is_active run ≡ false) ⊎ ((u.concurrency_group == g) ≡ false)
    → load g (with_run u run) ≡ load g u
load_kept g u run h = load-with_run g u run ∙ ground arith

load_grown :
    (g : String) (u : WorkUnit) (run : AgentRunRecord) → load g (with_run u run) ≤ load g u + 1
load_grown g u run = subst (λ n. n ≤ load g u + 1) (sym (load-with_run g u run)) (ground arith)

start_room :
    (g k : String) (u : WorkUnit) (run : AgentRunRecord) (o : Orchestrator)
    → Dict.get k o.units ≡ some u
    → check_serial o.units u run.kind ≡ ok tt
    → active_runs g o.units ≤ 1
    → active_runs g (Dict.put k (with_run u run) o.units) ≤ 1
start_room g k u run o at serial h =
    let change = active_runs-put g k (with_run u run) u o.units at in
    elim (Bool-cases (u.concurrency_group == g)) [
      | inr other ↦ omega (arith, load_kept g u run (inr other), change)
      | inl same ↦ elim (Bool-cases (is_exclusive run.kind)) [
        | inr shared ↦
            omega (arith, load_kept g u run (inl (is_active_exclusive run shared)), change)
        | inl exclusive ↦
            let free : active_runs g o.units ≡ 0 =
              subst (λ x. active_runs x o.units ≡ 0) ((eq_iff _ g).0 same)
                (check_serial_free o.units u run.kind serial exclusive) in
            omega (arith, load_grown g u run, change)
      ]
    ]

Step-IsSerial : {o p : Orchestrator} → Step o p → IsSerial o → IsSerial p
Step-IsSerial {o} (created k u absent n) h = record {
  each = λ g.
      omega (arith, active_runs-put_new g k u o.units absent, load-new g u n.no_runs, h.each g);
}
Step-IsSerial {o} (moved k u t c at lawful fresh) h =
    IsSerial-store k u (record_transition u t c) o at (λ g. unfold record_transition in omega arith)
      h
Step-IsSerial {o} (noted k u v at s) h =
    IsSerial-store k u v o at
      (λ g.
        load_of_runs g u v s.group (
          subst (λ l. count_if is_active l ≤ count_if is_active u.runs) (sym s.runs) (omega arith)))
      h
Step-IsSerial {o} (started k u run at r kind serial) h = record {
  each = λ g. start_room g k u run o at serial (h.each g);
}
Step-IsSerial {o} (finished k u f i run runs at known e) h =
    IsSerial-store k u (record u { runs = runs }) o at
      (λ g.
        load_of_runs g u (record u { runs = runs }) refl
          (finish_in-count f i u.runs run runs known e))
      h

Reach-IsSerial : {o p : Orchestrator} → Reach o p → IsSerial o → IsSerial p
Reach-IsSerial here h = h
Reach-IsSerial (next r s) h = Step-IsSerial s (Reach-IsSerial r h)

-- From an orchestrator in which every concurrency group has at most one active implementation or repair
-- run, every history of calls leads to one in which that holds too.
pub run_ops-IsSerial : (o : Orchestrator) (ops : List Op) → IsSerial o → IsSerial (run_ops o ops)
run_ops-IsSerial o ops h = Reach-IsSerial (run_ops-Reach o ops) h

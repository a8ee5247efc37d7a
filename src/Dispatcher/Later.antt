-- ===== src/Dispatcher/Later.antt =====
-- An event is decided once: all later deliveries get the decision of the first, whatever was delivered
-- in between (src/agentic_sdlc/dispatcher.py, src/agentic_sdlc/checkpoints.py).
use agentic_sdlc.Base.{
  String, ◌≡◌, refl, sym, ◌∙◌, inl, inr, Bool, true, false, not, ◌||◌, Option, none, some, List, [],
  ◌∷◌, ◌++◌, Exec, Result, ok, err, Error, ◌>>◌, and_then, Bool-cases, Option-cases, Result-cases,
  require, is_empty, has_text, member, ◌==◌,
}
use agentic_sdlc.Orchestration.State.{intake, same_state}
use agentic_sdlc.Orchestration.Store.{Orchestrator, create_unit}
use agentic_sdlc.Checkpoints.{
  CheckpointRecord, CheckpointStore, get_unit, touch_heartbeat, get_event, connect, row_of_event,
  record_checkpoint, insert_row,
}
use agentic_sdlc.Dispatcher.{
  WorkEvent, Payload, DispatchDecision, Plane, Labels, spec_review_block, on_store, on_orchestrator,
  persist, preflight, triage, enter, prior_state, resume_at, resume_or_enter, has_number, admit,
  blocked_of, route, event_fingerprint, dispatch, unit_id_of, to_checkpoint, replay_or_route,
}
use agentic_sdlc.Dispatcher.Once.{
  IsDecided, connect-rows, get_unit-rows, touch-rows, get_event_read, decided_answer,
  dispatch-IsDecided,
}

-- `Later w x`: from `w`, deliveries of events led to `x`, whether they returned or raised, while the
-- orchestrator was changed by others at will.
pub data Later (digest : Payload → String) (w : Plane) : Plane → Type 0 where
  here : Later digest w w
  delivered :
      {x : Plane} (l : Labels) (e : WorkEvent) (ts : String)
      → Later digest w x
      → Later digest w (dispatch digest l e ts x).1
  orchestrated :
      {x : Plane} (o : Orchestrator)
      → Later digest w x
      → Later digest w (record x { orchestrator = o })

-- the first row of an event stays the first when a row is appended
append-kept :
    (key : String) (rows : List CheckpointRecord) (q r : CheckpointRecord)
    → row_of_event key rows ≡ some r
    → row_of_event key (rows ++ q ∷ []) ≡ some r
unfolding row_of_event
append-kept key [] q r h = absurd cc
append-kept key (x ∷ xs) q r h = elim (Bool-cases (x.event_key == key)) [
  | inl hit ↦ rw hit (rw hit at h)
  | inr miss ↦ rw miss (append-kept key xs q r (rw miss at h))
]

insert_row-kept :
    (key : String) (q r : CheckpointRecord) (known : Option CheckpointRecord)
    (rows : List CheckpointRecord)
    → row_of_event key rows ≡ some r
    → row_of_event key (insert_row q known rows) ≡ some r
insert_row-kept key q r (some _) rows h = h
insert_row-kept key q r none rows h = append-kept key rows q r h

-- A call on the store that keeps the row of an event.
Keeps : {A : Type 0} → String → Exec CheckpointStore A → Type 0
Keeps key call =
    (s : CheckpointStore) (r : CheckpointRecord)
    → row_of_event key s.rows ≡ some r
    → row_of_event key (call s).1.rows ≡ some r

rows-Keeps :
    {A : Type 0} (key : String) (call : Exec CheckpointStore A)
    → ((s : CheckpointStore) → (call s).1.rows ≡ s.rows)
    → Keeps key call
unfolding Keeps
rows-Keeps key call same s r h = rw same h

record_checkpoint-Keeps : (key : String) (q : CheckpointRecord) → Keeps key (record_checkpoint q)
unfolding record_checkpoint Keeps
record_checkpoint-Keeps key q s r h =
    elim (Bool-cases (not (not (has_text q.event_key) || not (has_text q.timestamp)))) [
      | inr blank ↦ rw blank h
      | inl texts ↦
          rw texts (stored (connect "unable to persist dispatcher checkpoint" s) (connect-rows _ s))
    ]
  where
    stored :
        (m : Result (Unit {0}) × CheckpointStore)
        → m.1.rows ≡ s.rows
        → row_of_event key
            (and_then m (λ _ t. (
              ok tt,
              record t { rows = insert_row q (row_of_event q.event_key t.rows) t.rows },
            ))).1.rows
          ≡ some r
    stored (ok _, t) same =
        insert_row-kept key q r (row_of_event q.event_key t.rows) t.rows (rw same h)
    stored (err e, t) same = rw same h

read-Keeps : (key ts event_key : String) → Keeps key (touch_heartbeat ts >> get_event event_key)
read-Keeps key ts event_key = rows-Keeps key (touch_heartbeat ts >> get_event event_key) λ s.
    elim (Result-cases (touch_heartbeat ts s).0) [
      | inr (e, failed) ↦ rw failed (touch-rows ts s)
      | inl (_, fine) ↦
          rw fine ((get_event_read event_key (touch_heartbeat ts s).1).0 ∙ touch-rows ts s)
    ]

module _ (key : String) (d : DispatchDecision) where
  chain-IsDecided :
      {A B : Type 0} (m : Result A × Plane) (f : A → Exec Plane B)
      → IsDecided key d m.1
      → ((a : A) → IsDecided key d m.1 → IsDecided key d (f a m.1).1)
      → IsDecided key d (and_then m f).1
  chain-IsDecided (ok a, w) f h k = k a h
  chain-IsDecided (err e, w) f h k = h

  require-IsDecided :
      {A : Type 0} (b : Bool) (e : Error) (f : Unit {0} → Exec Plane A) (w : Plane)
      → IsDecided key d w
      → IsDecided key d (f tt w).1
      → IsDecided key d (and_then (require b e w) f).1
  require-IsDecided true e f w h k = k
  require-IsDecided false e f w h k = h

  on_store-IsDecided :
      {A : Type 0} (prefix : String) (default : A) (call : Exec CheckpointStore A) (w : Plane)
      → Keeps key call
      → IsDecided key d w
      → IsDecided key d (on_store prefix default call w).1
  unfolding Keeps
  on_store-IsDecided prefix default call w k h = rw h.at (record {
    store = (call h.store).1;
    at = refl;
    row = h.row;
    found = k h.store h.row h.found;
    same = h.same;
  })

  -- another orchestrator beside the same store
  beside :
      (w : Plane) (o : Orchestrator)
      → IsDecided key d w
      → IsDecided key d (record w { orchestrator = o })
  beside w o h = record { store = h.store; at = h.at; row = h.row; found = h.found; same = h.same }

  persist-IsDecided :
      (ts : String) (c : DispatchDecision) (w : Plane)
      → IsDecided key d w
      → IsDecided key d (persist ts c w).1
  unfolding persist
  persist-IsDecided ts c w h =
      chain-IsDecided (on_store _ tt (record_checkpoint (to_checkpoint c ts)) w) _
        (on_store-IsDecided _ tt (record_checkpoint (to_checkpoint c ts)) w
          (record_checkpoint-Keeps key (to_checkpoint c ts)) h)
        λ _ k. k

  enter-IsDecided :
      (e : WorkEvent) (u event_key ts : String) (w : Plane)
      → IsDecided key d w
      → IsDecided key d (enter e u event_key ts w).1
  unfolding enter triage
  enter-IsDecided e u event_key ts w h =
      chain-IsDecided (on_orchestrator (create_unit u event_key ts _ []) w) _ (beside w _ h)
        λ unit k. elim (Bool-cases (same_state unit.state intake)) [
          | inl new_one ↦ rw new_one (
              chain-IsDecided (triage u event_key ts _) _ (beside _ _ k)
                λ unit' j. persist-IsDecided ts _ _ j)
          | inr known ↦ rw known (persist-IsDecided ts _ _ k)
        ]

  resume-IsDecided :
      (e : WorkEvent) (u event_key ts : String) (state : Option String) (w : Plane)
      → IsDecided key d w
      → IsDecided key d (resume_at e u event_key ts state w).1
  unfolding resume_at
  resume-IsDecided e u event_key ts none w h = enter-IsDecided e u event_key ts w h
  resume-IsDecided e u event_key ts (some state) w h = persist-IsDecided ts _ w h

  admit-IsDecided :
      (e : WorkEvent) (event_key ts : String) (w : Plane)
      → IsDecided key d w
      → IsDecided key d (admit e event_key ts w).1
  unfolding admit resume_or_enter
  admit-IsDecided e event_key ts w h = require-IsDecided (has_text e.provider) _ _ w h (
      require-IsDecided (has_text e.repository) _ _ w h (
        require-IsDecided (has_number e.number) _ _ w h (
          chain-IsDecided (on_store _ none (get_unit (unit_id_of e)) w)
            (resume_or_enter e (unit_id_of e) event_key ts)
            (on_store-IsDecided _ none (get_unit (unit_id_of e)) w
              (rows-Keeps key (get_unit (unit_id_of e)) (get_unit-rows (unit_id_of e))) h)
            λ prior k. resume-IsDecided e (unit_id_of e) event_key ts (prior_state prior) _ k)))

  route-IsDecided :
      (l : Labels) (e : WorkEvent) (event_key ts : String) (w : Plane)
      → IsDecided key d w
      → IsDecided key d (route l e event_key ts w).1
  unfolding route
  route-IsDecided l e event_key ts w h = elim (Bool-cases (member l.managed_label e.labels)) [
    | inr unmanaged ↦ rw unmanaged (persist-IsDecided ts _ w h)
    | inl managed ↦ elim (Bool-cases (is_empty (blocked_of l e))) [
      | inr blocked ↦ rw (managed, blocked) (persist-IsDecided ts _ w h)
      | inl unblocked ↦ elim (Option-cases (spec_review_block e.labels)) [
        | inr (held, why) ↦ rw (managed, unblocked, why) (persist-IsDecided ts _ w h)
        | inl not_held ↦ rw (managed, unblocked, not_held) (admit-IsDecided e event_key ts w h)
      ]
    ]
  ]

  replay-IsDecided :
      (replay : Option CheckpointRecord) (l : Labels) (e : WorkEvent) (event_key ts : String)
      (w : Plane)
      → IsDecided key d w
      → IsDecided key d (replay_or_route replay (route l e event_key ts) w).1
  replay-IsDecided (some r) l e event_key ts w h = h
  replay-IsDecided none l e event_key ts w h = route-IsDecided l e event_key ts w h

  -- A dispatch of any event, which returns or raises, leaves a decision that is there.
  dispatch-keeps :
      (digest : Payload → String) (l : Labels) (e : WorkEvent) (ts : String) (w : Plane)
      → IsDecided key d w
      → IsDecided key d (dispatch digest l e ts w).1
  unfolding dispatch preflight
  dispatch-keeps digest l e ts w h = require-IsDecided (has_text ts) _ _ w h (
      chain-IsDecided (preflight ts (event_fingerprint digest e) w) _
        (on_store-IsDecided _ none (touch_heartbeat ts >> get_event (event_fingerprint digest e)) w
          (read-Keeps key ts (event_fingerprint digest e)) h)
        λ replay k. replay-IsDecided replay l e (event_fingerprint digest e) ts _ k)

  Later-IsDecided :
      (digest : Payload → String) (w x : Plane)
      → IsDecided key d w
      → Later digest w x
      → IsDecided key d x
  Later-IsDecided digest w x h here = h
  Later-IsDecided digest w x h (delivered {x = y} l e ts before) =
      dispatch-keeps digest l e ts y (Later-IsDecided digest w y h before)
  Later-IsDecided digest w x h (orchestrated {x = y} o before) =
      beside y o (Later-IsDecided digest w y h before)

-- When a dispatch with a checkpoint store has returned a decision, every later delivery of an event with
-- the same fingerprint, under any labels of the dispatcher, returns that same decision while the store is
-- free of faults: whatever events were delivered in between, with whatever outcome, and whatever became
-- of the orchestrator. It writes the heartbeat and leaves the orchestrator and the checkpoints.
pub dispatch_again :
    (digest : Payload → String) (l l' : Labels) (e e' : WorkEvent) (ts ts' : String)
    (d : DispatchDecision) (w x y : Plane) (s t : CheckpointStore)
    → w.checkpoints ≡ some s
    → dispatch digest l e ts w ≡ (ok d, x)
    → Later digest x y
    → y.checkpoints ≡ some t
    → t.faults ≡ []
    → has_text ts' ≡ true
    → event_fingerprint digest e' ≡ event_fingerprint digest e
    → dispatch digest l' e' ts' y
      ≡ (ok d, record y { checkpoints = some (record t { heartbeat = some ts'; faults = [] }) })
dispatch_again digest l l' e e' ts ts' d w x y s t at h later at' quiet stamped same =
    let decided : IsDecided (event_fingerprint digest e') d y = rw same (
      Later-IsDecided (event_fingerprint digest e) d digest x y
        (dispatch-IsDecided digest l e ts d w x s at h) later) in
    decided_answer digest l' e' ts' d y t decided at' (let both = sym decided.at ∙ at' in cc) quiet
      stamped

-- ===== src/Dispatcher/Once.antt =====
-- The decision on an event is left in the store, and answers a delivery that finds it there
-- (src/agentic_sdlc/dispatcher.py, src/agentic_sdlc/checkpoints.py).
use agentic_sdlc.Base.{
  String, ◌≡◌, refl, ap, ◌∙◌, subst, inl, inr, Bool, true, false, not, ◌||◌, Option, none, some,
  List, [], ◌∷◌, ◌++◌, Exec, Result, ok, err, Error, ◌>>◌, and_then, Bool-cases, Option-cases,
  Result-cases, require, is_empty, has_text, member, ◌==◌, eq_refl,
}
use agentic_sdlc.Orchestration.State.{intake, same_state}
use agentic_sdlc.Orchestration.Store.{create_unit}
use agentic_sdlc.Checkpoints.{
  CheckpointRecord, CheckpointStore, get_unit, touch_heartbeat, get_event, connect, next_fault,
  row_of_event, record_checkpoint, insert_row,
}
use agentic_sdlc.Dispatcher.{
  WorkEvent, Payload, DispatchDecision, Plane, Labels, spec_review_block, on_store, on_orchestrator,
  persist, preflight, triage, enter, prior_state, resume_at, resume_or_enter, has_number, admit,
  blocked_of, route, event_fingerprint, dispatch, unit_id_of, from_checkpoint, to_checkpoint,
  replay_or_route, as_dispatch,
}

-- the first row of the event, if it is not among the others
row_of_event-append :
    (key : String) (rows : List CheckpointRecord) (r : CheckpointRecord)
    → r.event_key ≡ key
    → row_of_event key rows ≡ none
    → row_of_event key (rows ++ r ∷ []) ≡ some r
unfolding row_of_event
row_of_event-append key [] r same h = rw (same, eq_refl) refl
row_of_event-append key (x ∷ xs) r same h = elim (Bool-cases (x.event_key == key)) [
  | inl hit ↦ absurd (let h' = rw hit at h in cc)
  | inr miss ↦ let h' = rw miss at h in rw miss (row_of_event-append key xs r same h')
]

-- The plane has a store, with no checkpoint of the event.
record IsUndecided (key : String) (w : Plane) : Type 0 where
  store : CheckpointStore
  at : w.checkpoints ≡ some store
  unseen : row_of_event key store.rows ≡ none

-- The plane has a store, with this decision on the event.
pub record IsDecided (key : String) (d : DispatchDecision) (w : Plane) : Type 0 where
  pub store : CheckpointStore
  pub at : w.checkpoints ≡ some store
  pub row : CheckpointRecord
  pub found : row_of_event key store.rows ≡ some row
  pub same : from_checkpoint row ≡ d

-- a statement on a store leaves its rows, whether it fails or not
pub connect-rows : (what : String) (s : CheckpointStore) → (connect what s).1.rows ≡ s.rows
unfolding connect
connect-rows what s = elim (Option-cases (next_fault s.faults)) [
  | inl fine ↦ rw fine refl
  | inr (exc, failing) ↦ rw failing refl
]

recorded :
    (r : CheckpointRecord) (s : CheckpointStore)
    → row_of_event r.event_key s.rows ≡ none
    → (record_checkpoint r s).0 ≡ ok tt
    → row_of_event r.event_key (record_checkpoint r s).1.rows ≡ some r
unfolding record_checkpoint
recorded r s unseen h =
    elim (Bool-cases (not (not (has_text r.event_key) || not (has_text r.timestamp)))) [
      | inr blank ↦ absurd (let h' = rw blank at h in cc)
      | inl texts ↦ rw texts (
          stored (connect "unable to persist dispatcher checkpoint" s) (connect-rows _ s)
            (rw texts at h))
    ]
  where
    stored :
        (m : Result (Unit {0}) × CheckpointStore)
        → m.1.rows ≡ s.rows
        → Path
            (Result (Unit {0}))
            (and_then m (λ _ t.
              (ok tt, record t { rows = insert_row r (row_of_event r.event_key t.rows) t.rows }))).0
            (ok tt)
        → row_of_event r.event_key
            (and_then m (λ _ t. (
              ok tt,
              record t { rows = insert_row r (row_of_event r.event_key t.rows) t.rows },
            ))).1.rows
          ≡ some r
    stored (ok _, t) same h =
        rw same (rw unseen (row_of_event-append r.event_key s.rows r refl unseen))
    stored (err e, t) same h = cc

-- a call that returns a decision leaves it in the store
Decides : String → Result DispatchDecision × Plane → Type 0
Decides key m = (d : DispatchDecision) → m.0 ≡ ok d → IsDecided key d m.1

Decides-chain :
    {A : Type 0} (key : String) (m : Result A × Plane) (f : A → Exec Plane DispatchDecision)
    → ((a : A) → m.0 ≡ ok a → Decides key (f a m.1))
    → Decides key (and_then m f)
unfolding Decides
Decides-chain key (ok a, w) f k = k a refl
Decides-chain key (err e, w) f k = λ d h. cc

persist-Decides :
    (ts : String) (d : DispatchDecision) (w : Plane)
    → IsUndecided d.event_key w
    → Decides d.event_key (persist ts d w)
unfolding persist Decides
persist-Decides ts d w un d' h =
    rw un.at (elim (Result-cases (record_checkpoint (to_checkpoint d ts) un.store).0) [
      | inr (e, failed) ↦ absurd (let h' = rw (un.at, failed) at h in cc)
      | inl (_, written) ↦
          let same : d ≡ d' = (let h' = rw (un.at, written) at h in cc) in
          rw written (record {
            store = (record_checkpoint (to_checkpoint d ts) un.store).1;
            at = refl;
            row = to_checkpoint d ts;
            found = recorded (to_checkpoint d ts) un.store un.unseen written;
            same = same;
          })
    ])

enter-Decides :
    (e : WorkEvent) (u key ts : String) (w : Plane)
    → IsUndecided key w
    → Decides key (enter e u key ts w)
unfolding enter triage
enter-Decides e u key ts w un =
    Decides-chain key (on_orchestrator (create_unit u key ts _ []) w) _ λ unit _.
      elim (Bool-cases (same_state unit.state intake)) [
        | inl new_one ↦ rw new_one (
            Decides-chain key (triage u key ts _) _ λ unit' _.
              persist-Decides ts _ _ (record { store = un.store; at = un.at; unseen = un.unseen }))
        | inr known ↦
            rw known
              (persist-Decides ts _ _ (record { store = un.store; at = un.at; unseen = un.unseen }))
      ]

resume-Decides :
    (e : WorkEvent) (u key ts : String) (state : Option String) (w : Plane)
    → IsUndecided key w
    → Decides key (resume_at e u key ts state w)
unfolding resume_at
resume-Decides e u key ts none w un = enter-Decides e u key ts w un
resume-Decides e u key ts (some state) w un = persist-Decides ts _ w un

pub get_unit-rows : (u : String) (s : CheckpointStore) → (get_unit u s).1.rows ≡ s.rows
unfolding get_unit
get_unit-rows u s = elim (Result-cases (connect "unable to read dispatcher unit checkpoint" s).0) [
  | inl (_, fine) ↦ rw fine (connect-rows _ s)
  | inr (e, failing) ↦ rw failing (connect-rows _ s)
]

require-Decides :
    (key : String) (b : Bool) (e : Error) (f : Unit {0} → Exec Plane DispatchDecision) (w : Plane)
    → Decides key (f tt w)
    → Decides key (and_then (require b e w) f)
unfolding Decides
require-Decides key true e f w k = k
require-Decides key false e f w k = λ d h. cc

looked_up-IsUndecided :
    (key u prefix : String) (w : Plane)
    → IsUndecided key w
    → IsUndecided key (on_store prefix none (get_unit u) w).1
looked_up-IsUndecided key u prefix w un =
    rw un.at
      (record { store = (get_unit u un.store).1; at = refl; unseen = rw get_unit-rows un.unseen })

admit-Decides :
    (e : WorkEvent) (key ts : String) (w : Plane)
    → IsUndecided key w
    → Decides key (admit e key ts w)
unfolding admit resume_or_enter
admit-Decides e key ts w un = require-Decides key (has_text e.provider) _ _ w (
    require-Decides key (has_text e.repository) _ _ w (
      require-Decides key (has_number e.number) _ _ w (
        Decides-chain key (on_store _ none (get_unit (unit_id_of e)) w)
          (resume_or_enter e (unit_id_of e) key ts)
          λ prior _.
            resume-Decides e (unit_id_of e) key ts (prior_state prior) _
              (looked_up-IsUndecided key (unit_id_of e) _ w un))))

route-Decides :
    (l : Labels) (e : WorkEvent) (key ts : String) (w : Plane)
    → IsUndecided key w
    → Decides key (route l e key ts w)
unfolding route
route-Decides l e key ts w un = elim (Bool-cases (member l.managed_label e.labels)) [
  | inr unmanaged ↦ rw unmanaged (persist-Decides ts _ w un)
  | inl managed ↦ elim (Bool-cases (is_empty (blocked_of l e))) [
    | inr blocked ↦ rw (managed, blocked) (persist-Decides ts _ w un)
    | inl unblocked ↦ elim (Option-cases (spec_review_block e.labels)) [
      | inr (held, why) ↦ rw (managed, unblocked, why) (persist-Decides ts _ w un)
      | inl not_held ↦ rw (managed, unblocked, not_held) (admit-Decides e key ts w un)
    ]
  ]
]

pub touch-rows : (ts : String) (s : CheckpointStore) → (touch_heartbeat ts s).1.rows ≡ s.rows
unfolding touch_heartbeat
touch-rows ts s = elim (Bool-cases (has_text ts)) [
  | inr blank ↦ rw blank refl
  | inl stamped ↦
      rw stamped (elim (Result-cases (connect "unable to persist dispatcher heartbeat" s).0) [
        | inl (_, fine) ↦ rw fine (connect-rows _ s)
        | inr (e, failing) ↦ rw failing (connect-rows _ s)
      ])
]

pub get_event_read :
    (key : String) (s : CheckpointStore)
    → ((get_event key s).1.rows ≡ s.rows)
      × ((r : Option CheckpointRecord) → (get_event key s).0 ≡ ok r → row_of_event key s.rows ≡ r)
unfolding get_event
get_event_read key s =
    elim (Result-cases (connect "unable to read dispatcher event checkpoint" s).0) [
      | inl (_, fine) ↦ rw fine (
        connect-rows _ s,
        (λ r h.
            let same = connect-rows "unable to read dispatcher event checkpoint" s in
            let h' = rw same at h in cc),
      )
      | inr (e, failing) ↦ rw failing (connect-rows _ s, (λ r h. cc))
    ]

-- the preflight leaves the rows, and reads the row of the event
preflight_read :
    (ts key : String) (s : CheckpointStore)
    → (((touch_heartbeat ts >> get_event key) s).1.rows ≡ s.rows)
      × ((r : Option CheckpointRecord)
          → ((touch_heartbeat ts >> get_event key) s).0 ≡ ok r
          → row_of_event key s.rows ≡ r)
preflight_read ts key s = elim (Result-cases (touch_heartbeat ts s).0) [
  | inr (e, failed) ↦ rw failed (touch-rows ts s, (λ r h. cc))
  | inl (_, fine) ↦ rw fine (
      let (left, read) = get_event_read key (touch_heartbeat ts s).1 in
      (
        left ∙ touch-rows ts s,
        (λ r h. subst (λ rows. row_of_event key rows ≡ r) (touch-rows ts s) (read r h)),
      ))
]

as_dispatch-ok :
    {A : Type 0} (prefix : String) (r : Result A) (a : A) → as_dispatch prefix r ≡ ok a → r ≡ ok a
as_dispatch-ok prefix (ok b) a h = h
as_dispatch-ok prefix (err e) a h = cc

decided_in :
    (digest : Payload → String) (l : Labels) (e : WorkEvent) (ts : String) (w : Plane)
    (s : CheckpointStore)
    → w.checkpoints ≡ some s
    → let key = event_fingerprint digest e in
      (replay : Option CheckpointRecord)
      → (preflight ts key w).0 ≡ ok replay
      → Decides key (replay_or_route replay (route l e key ts) (preflight ts key w).1)
unfolding preflight Decides
decided_in digest l e ts w s at replay got =
    let key = event_fingerprint digest e in
    let (left, read) = preflight_read ts key s in
    let got' = as_dispatch-ok _ _ replay (rw at at got) in
    rw at (by_replay key replay left (read replay got'))
  where
    by_replay :
        (key : String) (replay : Option CheckpointRecord)
        → ((touch_heartbeat ts >> get_event key) s).1.rows ≡ s.rows
        → row_of_event key s.rows ≡ replay
        → Decides key (
            replay_or_route replay
              (route l e key ts)
              (record w { checkpoints = some ((touch_heartbeat ts >> get_event key) s).1 }))
    by_replay key none left found = route-Decides l e key ts _ (record {
      store = ((touch_heartbeat ts >> get_event key) s).1;
      at = refl;
      unseen = rw left found;
    })
    by_replay key (some r) left found = λ d h. record {
      store = ((touch_heartbeat ts >> get_event key) s).1;
      at = refl;
      row = r;
      found = rw left found;
      same = cc;
    }

dispatch-Decides :
    (digest : Payload → String) (l : Labels) (e : WorkEvent) (ts : String) (w : Plane)
    (s : CheckpointStore)
    → w.checkpoints ≡ some s
    → Decides (event_fingerprint digest e) (dispatch digest l e ts w)
unfolding dispatch preflight
dispatch-Decides digest l e ts w s at =
    let key = event_fingerprint digest e in
    require-Decides key (has_text ts) _ _ w (
      Decides-chain key (preflight ts key w) _
        λ replay got. decided_in digest l e ts w s at replay got)

-- an event that is decided is answered from the store
pub decided_answer :
    (digest : Payload → String) (l : Labels) (e : WorkEvent) (ts : String) (d : DispatchDecision)
    (w : Plane) (s : CheckpointStore)
    → (dec : IsDecided (event_fingerprint digest e) d w) → w.checkpoints ≡ some s
    → dec.store ≡ s
    → s.faults ≡ []
    → has_text ts ≡ true
    → dispatch digest l e ts w
      ≡ (ok d, record w { checkpoints = some (record s { heartbeat = some ts; faults = [] }) })
unfolding dispatch preflight touch_heartbeat get_event connect
decided_answer digest l e ts d w s dec at same quiet stamped =
    let found : row_of_event (event_fingerprint digest e) s.rows ≡ some dec.row =
      subst
        (λ (x : CheckpointStore). row_of_event (event_fingerprint digest e) x.rows ≡ some dec.row)
        same dec.found in
    rw (stamped, at, quiet, found)
      (ap
        (λ x.
          (ok x, record w { checkpoints = some (record s { heartbeat = some ts; faults = [] }) }))
        dec.same)

-- a dispatch that returned a decision has left it in the store
pub dispatch-IsDecided :
    (digest : Payload → String) (l : Labels) (e : WorkEvent) (ts : String) (d : DispatchDecision)
    (w x : Plane) (s : CheckpointStore)
    → w.checkpoints ≡ some s
    → dispatch digest l e ts w ≡ (ok d, x)
    → IsDecided (event_fingerprint digest e) d x
dispatch-IsDecided digest l e ts d w x s at h =
    subst (IsDecided (event_fingerprint digest e) d) (ap (λ r. r.1) h)
      (unfold Decides in dispatch-Decides digest l e ts w s at d (ap (λ r. r.0) h))

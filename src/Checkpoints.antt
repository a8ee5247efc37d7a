-- ===== src/Checkpoints.antt =====
-- src/agentic_sdlc/checkpoints.py: the journal of the dispatcher in SQLite. The table of checkpoints is
-- a list in the order of its rowids, of which none is ever deleted; a statement fails when the next of
-- the faults says so, and then changes nothing.
use agentic_sdlc.Base.{
  String, ◌+++◌, Bool, not, ◌||◌, Option, none, some, List, [], ◌∷◌, ◌++◌, Exec, ok, err,
  checkpoint_error, ◌>>◌, gets, modify, require, has_text, find_first, if◌then◌else◌, ◌==◌,
}
use agentic_sdlc.Base.{is_at_most}

pub record CheckpointRecord : Type 0 where
  pub event_key : String
  pub unit_id : String
  pub state : String
  pub accepted : Bool
  pub reason : String
  pub timestamp : String

pub record CheckpointStore : Type 0 where
  pub rows : List CheckpointRecord
  pub heartbeat : Option String
  pub faults : List (Option String)

-- what becomes of one statement: its fault, if it has one, and the store with the fault taken
abbrev pub next_fault : List (Option String) → Option String
next_fault [] = none
next_fault (f ∷ fs) = f

abbrev pub later_faults : List (Option String) → List (Option String)
later_faults [] = []
later_faults (f ∷ fs) = fs

abbrev pub or_fail : String → Option String → Exec CheckpointStore (Unit {0})
or_fail what none s = (ok tt, s)
or_fail what (some exc) s = (err (checkpoint_error (what +++ ": " +++ exc)), s)

-- one connection, with the text of the error that it is raised as
unfoldable pub connect : String → Exec CheckpointStore (Unit {0})
connect what s = or_fail what (next_fault s.faults) (record s { faults = later_faults s.faults })

unfoldable pub touch_heartbeat : String → Exec CheckpointStore (Unit {0})
touch_heartbeat timestamp = do
  require (has_text timestamp) (checkpoint_error "heartbeat timestamp is required")
  connect "unable to persist dispatcher heartbeat"
  modify (λ s. record s { heartbeat = some timestamp })

abbrev text_or_empty : Option String → String
text_or_empty none = ""
text_or_empty (some t) = t

unfoldable pub last_heartbeat : Exec CheckpointStore String
last_heartbeat = do
  connect "unable to read dispatcher heartbeat"
  gets (λ s. text_or_empty s.heartbeat)

-- SELECT * … WHERE event_key = ?
unfoldable pub row_of_event : String → List CheckpointRecord → Option CheckpointRecord
row_of_event key rows = find_first (λ r. r.event_key == key) rows

unfoldable pub get_event : String → Exec CheckpointStore (Option CheckpointRecord)
get_event key = do
  connect "unable to read dispatcher event checkpoint"
  gets (λ s. row_of_event key s.rows)

-- the row or, if its timestamp is not greater, the one of the later rows
abbrev pub newer_of : CheckpointRecord → Option CheckpointRecord → CheckpointRecord
newer_of r none = r
newer_of r (some later) = if is_at_most r.timestamp later.timestamp then later else r

-- WHERE unit_id = ? ORDER BY timestamp DESC, rowid DESC LIMIT 1
unfoldable pub newest_of_unit : String → List CheckpointRecord → Option CheckpointRecord
newest_of_unit unit_id [] = none
newest_of_unit unit_id (r ∷ rs) =
    let later = newest_of_unit unit_id rs in
    if r.unit_id == unit_id then some (newer_of r later) else later

unfoldable pub get_unit : String → Exec CheckpointStore (Option CheckpointRecord)
get_unit unit_id = do
  connect "unable to read dispatcher unit checkpoint"
  gets (λ s. newest_of_unit unit_id s.rows)

-- ON CONFLICT(event_key) DO NOTHING
abbrev pub insert_row :
    CheckpointRecord → Option CheckpointRecord → List CheckpointRecord → List CheckpointRecord
insert_row r (some known) rows = rows
insert_row r none rows = rows ++ r ∷ []

-- `record`
unfoldable pub record_checkpoint : CheckpointRecord → Exec CheckpointStore (Unit {0})
record_checkpoint r = do
  require (not (not (has_text r.event_key) || not (has_text r.timestamp)))
      (checkpoint_error "checkpoint event key and timestamp are required")
  connect "unable to persist dispatcher checkpoint"
  modify (λ s. record s { rows = insert_row r (row_of_event r.event_key s.rows) s.rows })

-- ===== src/Orchestration/State.antt =====
-- The states of a work unit and the lifecycle graph (`WorkUnitState`, `TERMINAL_STATES`, `_ABORT`,
-- `TRANSITIONS` of src/agentic_sdlc/orchestration.py).
use agentic_sdlc.Base.{
  ℕ, zero, suc, String, ◌≡◌, refl, ap, sym, ◌∙◌, Bool, true, false, ◌||◌, List, [], ◌∷◌, nat_eq,
  nat_eq_iff, arith,
}

pub data State : Type 0 where
  intake triaged specified planned approval_pending approved dispatched implementing : State
  verifying reviewing repair_needed repairing re_reviewing ready_for_human_merge : State
  merged blocked failed cancelled superseded : State

abbrev pub state_value : State → String
state_value intake = "intake"
state_value triaged = "triaged"
state_value specified = "specified"
state_value planned = "planned"
state_value approval_pending = "approval-pending"
state_value approved = "approved"
state_value dispatched = "dispatched"
state_value implementing = "implementing"
state_value verifying = "verifying"
state_value reviewing = "reviewing"
state_value repair_needed = "repair-needed"
state_value repairing = "repairing"
state_value re_reviewing = "re-reviewing"
state_value ready_for_human_merge = "ready-for-human-merge"
state_value merged = "merged"
state_value blocked = "blocked"
state_value failed = "failed"
state_value cancelled = "cancelled"
state_value superseded = "superseded"

abbrev index : State → ℕ
index intake = 0
index triaged = 1
index specified = 2
index planned = 3
index approval_pending = 4
index approved = 5
index dispatched = 6
index implementing = 7
index verifying = 8
index reviewing = 9
index repair_needed = 10
index repairing = 11
index re_reviewing = 12
index ready_for_human_merge = 13
index merged = 14
index blocked = 15
index failed = 16
index cancelled = 17
index superseded = 18

-- a is b
unfoldable pub same_state : State → State → Bool
same_state a b = nat_eq (index a) (index b)

abbrev pub all_states : List State
all_states =
    intake ∷ triaged ∷ specified ∷ planned ∷ approval_pending ∷ approved ∷ dispatched ∷ implementing
    ∷ verifying ∷ reviewing ∷ repair_needed ∷ repairing ∷ re_reviewing ∷ ready_for_human_merge
    ∷ merged ∷ blocked ∷ failed ∷ cancelled ∷ superseded ∷ []

abbrev at_index : List State → ℕ → State
at_index [] n = intake
at_index (s ∷ ss) zero = s
at_index (s ∷ ss) (suc n) = at_index ss n

at_index_lem : (s : State) → at_index all_states (index s) ≡ s
at_index_lem intake = refl
at_index_lem _ = refl

pub same_state-eq : (a b : State) → same_state a b ≡ true → a ≡ b
unfolding same_state
same_state-eq a b h =
    sym (at_index_lem a) ∙ ap (at_index all_states) ((nat_eq_iff _ _).0 h) ∙ at_index_lem b

pub same_state_refl : (a : State) → same_state a a ≡ true
unfolding same_state
same_state_refl intake = refl
same_state_refl _ = refl

-- TERMINAL_STATES
unfoldable pub is_terminal : State → Bool
is_terminal merged = true
is_terminal failed = true
is_terminal cancelled = true
is_terminal superseded = true
is_terminal _ = false

-- _ABORT
abbrev pub abort : List State
abort = cancelled ∷ superseded ∷ []

-- `s in states`
unfoldable pub has_state : State → List State → Bool
has_state s [] = false
has_state s (t ∷ ts) = same_state t s || has_state s ts

-- TRANSITIONS
unfoldable pub transitions : State → List State
transitions intake = triaged ∷ abort
transitions triaged = specified ∷ blocked ∷ abort
transitions specified = planned ∷ blocked ∷ abort
transitions planned = approval_pending ∷ approved ∷ blocked ∷ abort
transitions approval_pending = approved ∷ blocked ∷ abort
transitions approved = dispatched ∷ blocked ∷ abort
transitions dispatched = implementing ∷ blocked ∷ abort
transitions implementing = verifying ∷ failed ∷ abort
transitions verifying = reviewing ∷ repair_needed ∷ blocked ∷ failed ∷ abort
transitions reviewing = ready_for_human_merge ∷ repair_needed ∷ blocked ∷ failed ∷ abort
transitions repair_needed = repairing ∷ blocked ∷ abort
transitions repairing = re_reviewing ∷ failed ∷ blocked ∷ abort
transitions re_reviewing = ready_for_human_merge ∷ repair_needed ∷ blocked ∷ failed ∷ abort
transitions ready_for_human_merge = merged ∷ blocked ∷ abort
transitions blocked = triaged ∷ dispatched ∷ abort
transitions merged = []
transitions failed = []
transitions cancelled = []
transitions superseded = []

-- the edge is in the graph
unfoldable pub has_edge : State → State → Bool
unfolding has_state same_state transitions
has_edge from to = has_state to (transitions from)

-- Only a unit that is ready for it has an edge to `merged`.
pub edge_to_merged : (s : State) → has_edge s merged ≡ true → s ≡ ready_for_human_merge
unfolding has_edge
edge_to_merged ready_for_human_merge h = refl
edge_to_merged _ h = ground arith

-- A terminal state has no edge.
pub no_edge_of_terminal : (s t : State) → is_terminal s ≡ true → has_edge s t ≡ false
unfolding has_edge is_terminal
no_edge_of_terminal merged t h = refl
no_edge_of_terminal failed t h = refl
no_edge_of_terminal cancelled t h = refl
no_edge_of_terminal superseded t h = refl
no_edge_of_terminal _ t h = ground arith

-- ===== src/Orchestration/Document/RoundTrip.antt =====
-- What `as_dict` writes `from_dict` reads (src/agentic_sdlc/orchestration.py).
use agentic_sdlc.Base.Int.{ℤ, pos}
use agentic_sdlc.Base.{
  ℕ, ◌≤◌, String, ◌≡◌, refl, subst, ap, ◌∙◌, true, List, [], ◌∷◌, map, Result, ok, on_ok, given,
  sorted, All, member, arith, leb,
}
use agentic_sdlc.Base.Dict
use agentic_sdlc.Base.Dict.{Dict}
use agentic_sdlc.Base.Value.{Value, Members, string, elements, members_of, get}
use agentic_sdlc.MergeEvidence.{to_set}
use agentic_sdlc.Orchestration.Document.{
  transition_document, run_document, unit_document, units_document, as_dict,
}
use agentic_sdlc.Orchestration.Document.Sorting.{
  sort_items, dict_of, put_all, Unique-sort_items, All-sort_items, dict_of-Unique,
}
use agentic_sdlc.Orchestration.Document.Reading.{
  state_named, list_of, strings_in, text_items, artifacts_at, alias_at, read_transition, read_run,
  read_all, read_unit, read_units, engine_of, from_dict, object_of,
}
use agentic_sdlc.Orchestration.State.{State, state_value, intake}
use agentic_sdlc.Orchestration.Store.{
  TransitionRecord, AgentRunRecord, WorkUnit, Orchestrator, new_orchestrator,
}

state_named-state_value : (s : State) → state_named (state_value s) ≡ ok s
unfolding state_named
state_named-state_value intake = refl
state_named-state_value _ = refl

strings_in-map : (ts : List String) → strings_in (elements (map string ts)) ≡ ok ts
unfolding strings_in on_ok
strings_in-map [] = refl
strings_in-map (t ∷ ts) = rw (strings_in-map ts) refl

text_items-map : (d : Dict String) → text_items (members_of (map (λ e. (e.0, string e.1)) d)) ≡ ok d
unfolding text_items on_ok
text_items-map [] = refl
text_items-map ((k, t) ∷ d) = rw (text_items-map d) refl

-- The run has an alias, and its artifacts as a dictionary in the order of the names.
abbrev pub StorableRun : AgentRunRecord → Type 0
StorableRun r =
    (given r.model_alias ≡ true) × (sort_items (dict_of r.output_artifacts) ≡ r.output_artifacts)

-- The unit with the keys of its events as a sorted list: a set has no order.
abbrev pub normal_unit : WorkUnit → WorkUnit
normal_unit u = record u { event_keys = to_set (sorted u.event_keys) }

abbrev pub StorableUnit : String × WorkUnit → Type 0
StorableUnit (k, u) = (u.unit_id ≡ k) × All StorableRun u.runs

abbrev pub normal_units : Dict WorkUnit → Dict WorkUnit
normal_units units = map (λ (e : String × WorkUnit). (e.0, normal_unit e.1)) units

-- What the constructor and the operations see to: the bound on the repair cycles and the human's
-- authority, no id twice, each unit under its id, and the form of the run records.
pub record IsStorable (o : Orchestrator) : Type 0 where
  pub cap : o.max_repair_cycles ≤ 10
  pub human : o.human_merge_required ≡ true
  pub unique : Dict.Unique o.units
  pub units : All StorableUnit o.units

-- The orchestrator with its units in the order of their ids and their events in that of the keys.
abbrev pub normal : Orchestrator → Orchestrator
normal o = record o { units = normal_units (sort_items o.units) }

keys-normal_units : (es : Dict WorkUnit) → Dict.keys (normal_units es) ≡ Dict.keys es
unfolding Dict.keys
keys-normal_units [] = refl
keys-normal_units ((k, u) ∷ es) = ap (λ ks. k ∷ ks) (keys-normal_units es)

Unique-normal_units : (es : Dict WorkUnit) → Dict.Unique es → Dict.Unique (normal_units es)
Unique-normal_units [] u = tt
Unique-normal_units ((k, v) ∷ es) u =
    (ap (member k) (keys-normal_units es) ∙ u.0, Unique-normal_units es u.1)

engine_new :
    (n : ℕ)
    → n ≤ 10
    → new_orchestrator (pos n) true ""
      ≡ ok record { max_repair_cycles = n; human_merge_required = true; units = []; state_id = "" }
unfolding new_orchestrator
engine_new n h = rw (let fits : leb n 10 ≡ true = ground arith in fits) refl

module _ (text_of : Value → String) (int_of : Value → Result ℤ) where
  read_all-map {ℓ} :
      {A : Type ℓ} (read : Members → Result A) (write : A → Value) (P : A → Type 0)
      → ((a : A) → P a → on_ok (object_of (write a)) read ≡ ok a)
      → (xs : List A) → All P xs
      → read_all text_of int_of read (elements (map write xs)) ≡ ok xs
  unfolding read_all on_ok
  read_all-map read write P h [] ps = refl
  read_all-map read write P h (x ∷ xs) ps = rw (h x ps.0, read_all-map read write P h xs ps.1) refl

  transition_back :
      (t : TransitionRecord)
      → Unit {0}
      → on_ok (object_of (transition_document t)) (read_transition text_of int_of) ≡ ok t
  unfolding transition_document read_transition on_ok get
  transition_back t _ =
      rw (state_named-state_value t.from_state, state_named-state_value t.to_state) refl

  run_back :
      (r : AgentRunRecord)
      → StorableRun r
      → on_ok (object_of (run_document r)) (read_run text_of int_of) ≡ ok r
  unfolding run_document read_run on_ok get alias_at artifacts_at list_of
  run_back r s =
      rw (s.0, strings_in-map r.input_refs, text_items-map (dict_of r.output_artifacts), s.1) refl

  unit_back :
      (u : WorkUnit)
      → All StorableRun u.runs
      → on_ok (object_of (unit_document u)) (read_unit text_of int_of u.unit_id)
        ≡ ok (normal_unit u)
  unfolding unit_document read_unit on_ok get list_of
  unit_back u s =
      rw
        (
          strings_in-map u.depends_on,
          state_named-state_value u.state,
          strings_in-map (sorted u.event_keys),
          read_all-map (read_transition text_of int_of) transition_document (λ _. Unit {0})
              transition_back u.transitions (All_tt u.transitions),
          read_all-map (read_run text_of int_of) run_document StorableRun run_back u.runs s,
        )
        refl
    where
      All_tt : (ts : List TransitionRecord) → All (λ _. Unit {0}) ts
      All_tt [] = tt
      All_tt (t ∷ ts) = (tt, All_tt ts)

  units_back :
      (es : Dict WorkUnit) (read : Dict WorkUnit)
      → All StorableUnit es
      → read_units text_of int_of (units_document es) read ≡ ok (put_all (normal_units es) read)
  unfolding read_units put_all on_ok
  units_back [] read s = refl
  units_back ((k, u) ∷ es) read s =
      rw
        (subst
          (λ j.
            on_ok (object_of (unit_document u)) (read_unit text_of int_of j) ≡ ok (normal_unit u))
          s.0.0 (unit_back u s.0.1))
        (units_back es (Dict.put k (normal_unit u) read) s.1)

  all_units_back :
      (o : Orchestrator)
      → IsStorable o
      → read_units text_of int_of (units_document (sort_items o.units)) []
        ≡ ok (normal_units (sort_items o.units))
  unfolding dict_of
  all_units_back o s =
      units_back (sort_items o.units) [] (All-sort_items StorableUnit o.units s.units)
      ∙ ap ok (
          dict_of-Unique (normal_units (sort_items o.units))
            (Unique-normal_units (sort_items o.units) (Unique-sort_items o.units s.unique)))

  -- The document that is written of an orchestrator is read back as that orchestrator, with its units in the
  -- order of their ids and the events that each has seen as a sorted list, if its bound on the repair
  -- cycles is at most 10, a human's merge is required, no id is there twice, each unit stands under its id,
  -- each run has an alias of its model, and its artifacts have different names in sorted order.
  pub from_dict-as_dict :
      (o : Orchestrator) → IsStorable o → from_dict text_of int_of (as_dict o) ≡ ok (normal o)
  unfolding from_dict engine_of as_dict get on_ok
  from_dict-as_dict o s =
      rw (engine_new o.max_repair_cycles s.cap, all_units_back o s, s.human) refl

-- ===== src/WorkGraph/Toposort/Order.antt =====
-- The order is topological, and the sort ends.
use agentic_sdlc.Base.{
  ℕ, zero, suc, ◌+◌, ◌≤◌, String, ◌≡◌, refl, sym, ◌∙◌, ◌⊎◌, inl, inr, true, false, ◌||◌, List, [],
  ◌∷◌, ◌++◌, member, is_empty, sorted, eq_iff, arith, length, All, Bool-cases, member-sorted,
  length-sorted, length-append, is_empty-sorted, ok, err, work_graph_error,
}
use agentic_sdlc.Base.Dict
use agentic_sdlc.WorkGraph.Toposort.{Remaining, free_units, settle, toposort_loop}
use agentic_sdlc.WorkGraph.Toposort.Members.{member-append, length_of_given}
use agentic_sdlc.WorkGraph.Toposort.Rounds.{
  Waits, Within, settle-Waits, free-Within, none_free, length-settle, keys-settle,
}

module _ (N : String → List String) where
  -- Each unit of the list needs only what is in front of it, or was seen before.
  abbrev pub Ordered : List String → List String → Type 0
  Ordered seen [] = Unit
  Ordered seen (u ∷ us) = Within N seen u × Ordered (u ∷ seen) us

  Ordered-all :
      (seen us : List String)
      → ((u : String) → member u us ≡ true → Within N seen u)
      → Ordered seen us
  Ordered-all seen [] h = tt
  Ordered-all seen (u ∷ us) h = (
    h u (ground (arith, eq_iff u u)),
    Ordered-all (u ∷ seen) us
        λ v m d needed. let known = h v (ground arith) d needed in ground arith,
  )

  Ordered-append :
      (seen xs ys : List String)
      → Ordered seen xs
      → ((u : String)
          → member u ys ≡ true
          → (d : String) → member d (N u) ≡ true
          → (member d seen || member d xs) ≡ true)
      → Ordered seen (xs ++ ys)
  Ordered-append seen [] ys o h =
      Ordered-all seen ys λ u m d needed. let known = h u m d needed in ground arith
  Ordered-append seen (x ∷ xs) ys o h = (
    o.0,
    Ordered-append (x ∷ seen) xs ys o.1 λ u m d needed. let known = h u m d needed in ground arith,
  )

  -- Between two rounds: the order is topological, `remaining` waits for the rest, and together they have
  -- the units, each as often as they have it.
  pub record Between (units : List String) (order : List String) (rem : Remaining) : Type 0 where
    pub ordered : Ordered [] order
    pub waits : All (Waits N order) rem
    pub covers : (k : String) → member k units ≡ (member k order || member k (Dict.keys rem))
    pub counts : length order + length rem ≡ length units

  round-Between :
      (units order : List String) (rem : Remaining)
      → Between units order rem
      → let ready = sorted (free_units rem) in Between units (order ++ ready) (settle ready rem)
  round-Between units order rem b =
      let ready = sorted (free_units rem) in
      record {
        ordered = Ordered-append [] order ready b.ordered λ u m d needed.
            free-Within N order rem b.waits u (sym (member-sorted u (free_units rem)) ∙ m) d needed;
        waits = settle-Waits N order ready rem b.waits;
        covers = λ k. ground (
          arith,
          b.covers k,
          member-append k order ready,
          member-sorted k (free_units rem),
          keys-settle k ready rem,
        );
        counts = omega (
          arith,
          b.counts,
          length-append order ready,
          length-sorted (free_units rem),
          length-settle ready rem,
        );
      }

  -- Units of which each needs another of them.
  pub record Knot (units : List String) : Type 0 where
    pub tied : List String
    pub some_unit : is_empty tied ≡ false
    pub among : (u : String) → member u tied ≡ true → member u units ≡ true
    pub need :
        (u : String)
        → member u tied ≡ true
        → (d : String) × (member d (N u) ≡ true) × (member d tied ≡ true)

  -- The order has every unit once, and each after all that it needs.
  pub record IsTopological (units order : List String) : Type 0 where
    pub ordered : Ordered [] order
    pub covers : (k : String) → member k order ≡ member k units
    pub counts : length order ≡ length units

  stuck-Knot :
      (units order : List String) (rem : Remaining)
      → ((u d : String) → member d (N u) ≡ true → member d units ≡ true)
      → Between units order rem
      → is_empty rem ≡ false
      → is_empty (free_units rem) ≡ true
      → Knot units
  unfolding Dict.keys
  stuck-Knot units order rem closed b waiting h = record {
    tied = Dict.keys rem;
    some_unit = keys_given rem waiting;
    among = λ u m. ground (arith, b.covers u);
    need = λ u m.
        let (d, needed, missing) = none_free N order rem b.waits h u m in
        (d, needed, ground (arith, b.covers d, closed u d needed));
  }
    where
      keys_given : (r : Remaining) → is_empty r ≡ false → is_empty (Dict.keys r) ≡ false
      keys_given [] g = cc
      keys_given (e ∷ es) g = refl

  -- The loop with enough fuel returns a topological order, or raises the error of a cycle where there is
  -- a knot.
  pub loop_ends :
      (fuel : ℕ) (units order : List String) (rem : Remaining)
      → ((u d : String) → member d (N u) ≡ true → member d units ≡ true)
      → Between units order rem
      → length rem ≤ fuel
      → ((xs : List String) × (toposort_loop fuel rem order ≡ ok xs) × IsTopological units xs)
        ⊎ ((message : String) × (toposort_loop fuel rem order ≡ err (work_graph_error message))
            × Knot units)
  unfolding toposort_loop Dict.keys
  loop_ends fuel units order [] closed b enough = inl (
    order,
    refl,
    record {
      ordered = b.ordered;
      covers = λ k. ground (arith, b.covers k);
      counts = omega (arith, b.counts);
    },
  )
  loop_ends zero units order (e ∷ es) closed b enough = absurd (omega arith)
  loop_ends (suc fuel) units order (e ∷ es) closed b enough =
      let ready = sorted (free_units (e ∷ es)) in
      elim (Bool-cases (is_empty ready)) [
        | inl stuck ↦ rw stuck (
            inr (
              _,
              refl,
              stuck-Knot units order (e ∷ es) closed b refl
                  (is_empty-sorted (free_units (e ∷ es)) stuck),
            ))
        | inr moves ↦ rw moves (
            loop_ends fuel units (order ++ ready) (settle ready (e ∷ es)) closed
              (round-Between units order (e ∷ es) b)
              (omega (
                arith,
                enough,
                length_of_given ready moves,
                length-sorted (free_units (e ∷ es)),
                length-settle ready (e ∷ es),
              )))
      ]

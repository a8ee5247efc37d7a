-- ===== src/Base/Dict.antt =====
-- Python's `dict` with text keys, in insertion order.
use Prim.Native.String.{String}
use mathlib.Core.Path.{◌≡◌, refl, ap, subst}
use mathlib.Core.Option.{Option, none, some}
use mathlib.Core.List.{List, [], ◌∷◌, ◌++◌}
use native.Mathlib.Omega.{arith}
use text.Mathlib.Text.{◌==◌}
use text.Mathlib.TextEquality.{eq_iff}
use agentic_sdlc.Base.Tests.{if◌then◌else◌, Bool-cases}
use agentic_sdlc.Base.Lists.{member, All}
use mathlib.Core.Bool.{true, false, ◌||◌}
use mathlib.Core.Logic.{◌⊎◌, inl, inr}
use text.Mathlib.TextPositions.{eq_refl}

abbrev pub Dict {ℓ} : Type ℓ → Type ℓ
Dict V = List (String × V)

module _ {ℓ} {V : Type ℓ} where
  -- d.get(k)
  unfoldable pub get : String → Dict V → Option V
  get k [] = none
  get k ((j, v) ∷ d) = if j == k then some v else get k d

  -- d[k] = v: a key that is there keeps its place
  unfoldable pub put : String → V → Dict V → Dict V
  put k v [] = (k, v) ∷ []
  put k v ((j, w) ∷ d) = if j == k then (j, v) ∷ d else (j, w) ∷ put k v d

  -- d.pop(k, None)
  unfoldable pub remove : String → Dict V → Dict V
  remove k [] = []
  remove k ((j, v) ∷ d) = let rest = remove k d in if j == k then rest else (j, v) ∷ rest

  -- list(d.values())
  unfoldable pub values : Dict V → List V
  values [] = []
  values ((j, v) ∷ d) = v ∷ values d

  -- list(d)
  unfoldable pub keys : Dict V → List String
  keys [] = []
  keys ((j, v) ∷ d) = j ∷ keys d

  pub get-put :
      (k j : String) (v : V) (d : Dict V) → get j (put k v d) ≡ (if k == j then some v else get j d)
  unfolding get put
  get-put k j v [] = refl
  get-put k j v ((i, w) ∷ d) = ground (arith, eq_iff k j, eq_iff i k, eq_iff i j, get-put k j v d)

  pub get-remove :
      (k j : String) (d : Dict V) → get j (remove k d) ≡ (if k == j then none else get j d)
  unfolding get remove
  get-remove k j [] = ground arith
  get-remove k j ((i, w) ∷ d) = ground (arith, eq_iff k j, eq_iff i k, eq_iff i j, get-remove k j d)

  -- No key twice.
  abbrev pub Unique : Dict V → Type 0
  Unique [] = Unit
  Unique ((k, v) ∷ d) = (member k (keys d) ≡ false) × Unique d

  pub member-keys-put :
      (j k : String) (v : V) (d : Dict V)
      → member j (keys (put k v d)) ≡ (k == j || member j (keys d))
  unfolding keys put
  member-keys-put j k v [] = refl
  member-keys-put j k v ((i, w) ∷ d) =
      ground (arith, eq_iff k j, eq_iff i k, eq_iff i j, member-keys-put j k v d)

  pub Unique-put : (k : String) (v : V) (d : Dict V) → Unique d → Unique (put k v d)
  unfolding keys put
  Unique-put k v [] u = (refl, tt)
  Unique-put k v ((i, w) ∷ d) u = elim (Bool-cases (i == k)) [
    | inl same ↦ rw same u
    | inr other ↦
        rw other
          (ground (arith, member-keys-put i k v d, eq_iff i k, eq_iff k i), Unique-put k v d u.1)
  ]

  -- a key is there exactly when the dictionary has a value for it
  pub get_of_key :
      (k : String) (d : Dict V)
      → ((member k (keys d) ≡ true) × ((v : V) × (get k d ≡ some v)))
        ⊎ ((member k (keys d) ≡ false) × (get k d ≡ none))
  unfolding get keys
  get_of_key k [] = inr (refl, refl)
  get_of_key k ((i, w) ∷ d) = elim (Bool-cases (i == k)) [
    | inl same ↦ rw same (inl (refl, (w, refl)))
    | inr other ↦ rw other (get_of_key k d)
  ]

  entries_behind :
      (k : String) (v : V) (d es : Dict V)
      → member k (keys es) ≡ false
      → All (λ (e : String × V). get e.0 d ≡ some e.1) es
      → All (λ (e : String × V). get e.0 ((k, v) ∷ d) ≡ some e.1) es
  unfolding get keys
  entries_behind k v d [] m h = tt
  entries_behind k v d ((j, w) ∷ es) m h = elim (Bool-cases (k == j)) [
    | inl same ↦ absurd (ground (arith, eq_iff k j, eq_iff j k))
    | inr other ↦ (rw other h.0, entries_behind k v d es (ground arith) h.1)
  ]

  -- each entry is found under its key
  pub get_entries : (d : Dict V) → Unique d → All (λ (e : String × V). get e.0 d ≡ some e.1) d
  unfolding get
  get_entries [] u = tt
  get_entries ((k, v) ∷ d) u = (rw eq_refl refl, entries_behind k v d d u.0 (get_entries d u.1))

  -- a key that is not there comes last
  pub put_new :
      (k : String) (v : V) (d : Dict V) → member k (keys d) ≡ false → put k v d ≡ d ++ (k, v) ∷ []
  unfolding put keys
  put_new k v [] m = refl
  put_new k v ((j, w) ∷ d) m = elim (Bool-cases (j == k)) [
    | inl same ↦ absurd (ground arith)
    | inr other ↦ rw other (ap (λ r. (j, w) ∷ r) (put_new k v d (ground arith)))
  ]

  -- what holds of every value holds of the one that a lookup finds
  pub All-get {κ} :
      (P : V → Type κ) (d : Dict V) (k : String) (v : V) → All P (values d) → get k d ≡ some v → P v
  unfolding get values
  All-get P [] k v h at = absurd cc
  All-get P ((j, w) ∷ d) k v h at = elim (Bool-cases (j == k)) [
    | inl same ↦ let at' = rw (get, same) at at in let found : w ≡ v = cc in subst P found h.0
    | inr other ↦ All-get P d k v h.1 (rw (get, other) at at)
  ]

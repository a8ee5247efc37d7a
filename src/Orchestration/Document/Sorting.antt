-- ===== src/Orchestration/Document/Sorting.antt =====
-- Python's `sorted(d.items())` and `dict(pairs)`.
use agentic_sdlc.Base.{
  String, ◌≡◌, refl, sym, ◌∙◌, ap, false, ◌||◌, List, [], ◌∷◌, ◌++◌, member, is_at_most, eq_iff,
  ◌==◌, arith, All, append_nil, append_assoc, if◌then◌else◌, Bool-cases, inl, inr,
}
use agentic_sdlc.Base.Dict
use agentic_sdlc.Base.Dict.{Dict}

module _ {ℓ} {V : Type ℓ} where
  abbrev pub insert_item : String → V → Dict V → Dict V
  insert_item k v [] = (k, v) ∷ []
  insert_item k v ((j, w) ∷ d) =
      let rest = insert_item k v d in if is_at_most k j then (k, v) ∷ (j, w) ∷ d else (j, w) ∷ rest

  -- sorted(d.items()): no key is there twice, so the values are not compared
  unfoldable pub sort_items : Dict V → Dict V
  sort_items [] = []
  sort_items ((k, v) ∷ d) = insert_item k v (sort_items d)

  -- the items of `pairs`, put into a dictionary one after the other
  unfoldable pub put_all : Dict V → Dict V → Dict V
  put_all [] d = d
  put_all ((k, v) ∷ pairs) d = put_all pairs (Dict.put k v d)

  -- dict(pairs)
  unfoldable pub dict_of : List (String × V) → Dict V
  unfolding put_all
  dict_of pairs = put_all pairs []

  member-insert_item :
      (j k : String) (v : V) (d : Dict V)
      → member j (Dict.keys (insert_item k v d)) ≡ (k == j || member j (Dict.keys d))
  unfolding Dict.keys
  member-insert_item j k v [] = refl
  member-insert_item j k v ((i, w) ∷ d) = ground (arith, member-insert_item j k v d)

  pub member-sort_items :
      (j : String) (d : Dict V) → member j (Dict.keys (sort_items d)) ≡ member j (Dict.keys d)
  unfolding sort_items Dict.keys
  member-sort_items j [] = refl
  member-sort_items j ((k, v) ∷ d) =
      ground (arith, member-insert_item j k v (sort_items d), member-sort_items j d)

  Unique-insert_item :
      (k : String) (v : V) (d : Dict V)
      → member k (Dict.keys d) ≡ false
      → Dict.Unique d
      → Dict.Unique (insert_item k v d)
  unfolding Dict.keys
  Unique-insert_item k v [] m u = (refl, tt)
  Unique-insert_item k v ((j, w) ∷ d) m u = elim (Bool-cases (is_at_most k j)) [
    | inl first ↦ rw first (m, u)
    | inr behind ↦ rw behind (
      ground (arith, member-insert_item j k v d, eq_iff j k, eq_iff k j),
      Unique-insert_item k v d (ground arith) u.1,
    )
  ]

  pub Unique-sort_items : (d : Dict V) → Dict.Unique d → Dict.Unique (sort_items d)
  unfolding sort_items Dict.keys
  Unique-sort_items [] u = tt
  Unique-sort_items ((k, v) ∷ d) u =
      Unique-insert_item k v (sort_items d) (member-sort_items k d ∙ u.0) (Unique-sort_items d u.1)

  All-insert_item {κ} :
      (P : String × V → Type κ) (k : String) (v : V) (d : Dict V)
      → P (k, v)
      → All P d
      → All P (insert_item k v d)
  All-insert_item P k v [] p ps = (p, tt)
  All-insert_item P k v ((j, w) ∷ d) p ps = elim (Bool-cases (is_at_most k j)) [
    | inl first ↦ rw first (p, ps)
    | inr behind ↦ rw behind (ps.0, All-insert_item P k v d p ps.1)
  ]

  pub All-sort_items {κ} : (P : String × V → Type κ) (d : Dict V) → All P d → All P (sort_items d)
  unfolding sort_items
  All-sort_items P [] ps = tt
  All-sort_items P ((k, v) ∷ d) ps =
      All-insert_item P k v (sort_items d) ps.0 (All-sort_items P d ps.1)

  -- None of the keys of the items is in the dictionary.
  abbrev Apart : Dict V → Dict V → Type 0
  Apart pairs d = All (λ (e : String × V). member e.0 (Dict.keys d) ≡ false) pairs

  Apart-put :
      (k : String) (v : V) (pairs d : Dict V)
      → member k (Dict.keys pairs) ≡ false
      → Apart pairs d
      → Apart pairs (Dict.put k v d)
  unfolding Dict.keys
  Apart-put k v [] d m a = tt
  Apart-put k v ((j, w) ∷ pairs) d m a = (
    ground (arith, Dict.member-keys-put j k v d, eq_iff j k, eq_iff k j, a.0),
    Apart-put k v pairs d (ground arith) a.1,
  )

  -- items with different keys, put into a dictionary that has none of them, come last
  put_all_new :
      (pairs d : Dict V) → Dict.Unique pairs → Apart pairs d → put_all pairs d ≡ d ++ pairs
  unfolding put_all
  put_all_new [] d u a = sym (append_nil d)
  put_all_new ((k, v) ∷ pairs) d u a =
      put_all_new pairs (Dict.put k v d) u.1 (Apart-put k v pairs d u.0 a.1)
      ∙ ap (λ x. x ++ pairs) (Dict.put_new k v d a.0)
      ∙ append_assoc d (k, v) pairs

  pub dict_of-Unique : (pairs : Dict V) → Dict.Unique pairs → dict_of pairs ≡ pairs
  unfolding dict_of Dict.keys
  dict_of-Unique pairs u = put_all_new pairs [] u (apart pairs)
    where
      apart : (es : Dict V) → Apart es []
      apart [] = tt
      apart (e ∷ es) = (refl, apart es)

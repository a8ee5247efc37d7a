-- ===== src/MergeEvidence/Latest.antt =====
-- The conclusion that counts for a check name is that of the greatest check id at the head SHA.
use mathlib.Core.List.{Memᴰ}
use agentic_sdlc.Base.Int.{ℤ, pos, negsuc, le_ℤ}
use agentic_sdlc.Base.{
  String, ◌≡◌, refl, sym, ap, ◌∙◌, ◌⊎◌, inl, inr, true, false, Option, none, some, List, [], ◌∷◌,
  arith, eq_iff, eq_refl, ◌==◌, if◌then◌else◌, Bool-cases,
}
use agentic_sdlc.Base.Dict
use agentic_sdlc.Base.Dict.{Dict, get-put}
use agentic_sdlc.MergeEvidence.{
  Check, Entry, Latest, read_check, record_latest, latest_from, is_newer,
}

le_ℤ_refl : (a : ℤ) → le_ℤ a a ≡ true
le_ℤ_refl (pos a) = ground arith
le_ℤ_refl (negsuc a) = ground arith

le_ℤ_trans : (a b c : ℤ) → le_ℤ a b ≡ true → le_ℤ b c ≡ true → le_ℤ a c ≡ true
le_ℤ_trans (pos a) b c h k = ground arith
le_ℤ_trans (negsuc a) b c h k = ground arith

le_ℤ_total : (a b : ℤ) → le_ℤ a b ≡ false → le_ℤ b a ≡ true
le_ℤ_total (pos a) b h = ground arith
le_ℤ_total (negsuc a) b h = ground arith

-- The dictionary holds an id for the name that is at least `id`.
abbrev pub Covers : Latest → String → ℤ → Type 0
Covers l n id = (i : ℤ) × (c : String) × (Dict.get n l ≡ some (i, c)) × (le_ℤ id i ≡ true)

-- What one check does to the entry of each name.
get-record_latest :
    (n m : String) (l : Latest) (i : ℤ) (c : String)
    → Dict.get n (record_latest l (some (m, i, c))) ≡ (
        if is_newer i (Dict.get m l)
        then (if m == n then some (i, c) else Dict.get n l)
        else Dict.get n l)
unfolding record_latest
get-record_latest n m l i c = ground (arith, get-put m n (i, c) l)

-- An id that is not newer than the entry is at most the entry's.
not_newer :
    (i : ℤ) (o : Option (ℤ × String))
    → is_newer i o ≡ false
    → (j : ℤ) × (c : String) × (o ≡ some (j, c)) × (le_ℤ i j ≡ true)
not_newer i none h = cc
not_newer i (some (j, c)) h = (j, c, refl, ground arith)

newer_than :
    (i j : ℤ) (c : String) (o : Option (ℤ × String))
    → o ≡ some (j, c)
    → is_newer i o ≡ true
    → le_ℤ j i ≡ true
newer_than i j c none e h = cc
newer_than i j c (some (k, d)) e h = ground (arith, le_ℤ_total i j)

module _ (n : String) where
  -- a value of the new dictionary is an old one, or the entry's
  record_latest_source :
      (l : Latest) (e : Option Entry) (v : ℤ × String)
      → Dict.get n (record_latest l e) ≡ some v
      → (Dict.get n l ≡ some v) ⊎ (e ≡ some (n, v.0, v.1))
  record_latest_source l none v h = inl (unfold record_latest in h)
  record_latest_source l (some (m, i, c)) v h =
      ground (arith, get-record_latest n m l i c, eq_iff m n)

  record_latest-Covers :
      (l : Latest) (e : Option Entry) (id : ℤ) → Covers l n id → Covers (record_latest l e) n id
  record_latest-Covers l none id k = unfold record_latest in k
  record_latest-Covers l (some (m, i, c)) id (j, d, at, below) =
      elim (Bool-cases (is_newer i (Dict.get m l))) [
        | inr old ↦ (j, d, rw (get-record_latest n m l i c, old) at, below)
        | inl new ↦ elim (Bool-cases (m == n)) [
          | inr other ↦ (j, d, rw (get-record_latest n m l i c, new, other) at, below)
          | inl same ↦ (
            i,
            c,
            rw (get-record_latest n m l i c, new, same) refl,
            le_ℤ_trans id j i below (
                newer_than i j d (Dict.get m l) (ap (λ x. Dict.get x l) ((eq_iff m n).0 same) ∙ at)
                  new),
          )
        ]
      ]

  record_latest_entry :
      (l : Latest) (i : ℤ) (c : String) → Covers (record_latest l (some (n, i, c))) n i
  record_latest_entry l i c = elim (Bool-cases (is_newer i (Dict.get n l))) [
    | inl new ↦ (i, c, rw (get-record_latest n n l i c, new, eq_refl n) refl, le_ℤ_refl i)
    | inr old ↦
        let (j, d, at, below) = not_newer i (Dict.get n l) old in
        (j, d, rw (get-record_latest n n l i c, old) at, below)
  ]

module _ (sha n : String) where
  latest_from-Covers :
      (l : Latest) (cs : List Check) (id : ℤ) → Covers l n id → Covers (latest_from sha l cs) n id
  unfolding latest_from
  latest_from-Covers l [] id k = k
  latest_from-Covers l (c ∷ cs) id k =
      latest_from-Covers (record_latest l (read_check sha c)) cs id
        (record_latest-Covers n l (read_check sha c) id k)

  latest_from-Covers_mem :
      (l : Latest) (cs : List Check) (k : Check) (id : ℤ) (c : String)
      → Memᴰ k cs
      → read_check sha k ≡ some (n, id, c)
      → Covers (latest_from sha l cs) n id
  unfolding latest_from
  latest_from-Covers_mem l [] k id c m r = elim m [ ]
  latest_from-Covers_mem l (x ∷ cs) k id c (Memᴰ.head e) r =
      latest_from-Covers (record_latest l (read_check sha x)) cs id
        (rw (ap (read_check sha) (sym e) ∙ r) (record_latest_entry n l id c))
  latest_from-Covers_mem l (x ∷ cs) k id c (Memᴰ.tail m) r =
      latest_from-Covers_mem (record_latest l (read_check sha x)) cs k id c m r

  latest_from_source :
      (l : Latest) (cs : List Check) (v : ℤ × String)
      → Dict.get n (latest_from sha l cs) ≡ some v
      → (Dict.get n l ≡ some v)
        ⊎ ((k : Check) × Memᴰ k cs × (read_check sha k ≡ some (n, v.0, v.1)))
  unfolding latest_from
  latest_from_source l [] v h = inl h
  latest_from_source l (x ∷ cs) v h =
      elim (latest_from_source (record_latest l (read_check sha x)) cs v h) [
        | inr (k, m, r) ↦ inr (k, Memᴰ.tail m, r)
        | inl before ↦ elim (record_latest_source n l (read_check sha x) v before) [
          | inl old ↦ inl old
          | inr read ↦ inr (x, Memᴰ.head refl, read)
        ]
      ]

-- A check of the list that counts for the name, and whose id no other such check exceeds.
pub record Newest (sha n : String) (cs : List Check) (id : ℤ) (conclusion : String) : Type 0 where
  pub check : Check
  pub listed : Memᴰ check cs
  pub read : read_check sha check ≡ some (n, id, conclusion)
  pub greatest :
      (other : Check) (i : ℤ) (c : String)
      → Memᴰ other cs
      → read_check sha other ≡ some (n, i, c)
      → le_ℤ i id ≡ true

Covers-value :
    (l : Latest) (n : String) (i id : ℤ) (c : String)
    → Covers l n i
    → Dict.get n l ≡ some (id, c)
    → le_ℤ i id ≡ true
Covers-value l n i id c (j, d, at, below) h = let same : j ≡ id = cc in rw same at below

-- If the loop, begun with no entries, leaves an entry for a name, it is that of a check of the list that
-- counts for the name at the head, and no other check of the list that counts for it has a greater id.
pub latest_from-Newest :
    (sha n : String) (cs : List Check) (id : ℤ) (c : String)
    → Dict.get n (latest_from sha [] cs) ≡ some (id, c)
    → Newest sha n cs id c
latest_from-Newest sha n cs id c h = elim (latest_from_source sha n [] cs (id, c) h) [
  | inl before ↦ absurd (unfold Dict.get in (cc))
  | inr (k, m, r) ↦ record {
    check = k;
    listed = m;
    read = r;
    greatest = λ other i d mo ro.
        Covers-value (latest_from sha [] cs) n i id c
          (latest_from-Covers_mem sha n [] cs other i d mo ro) h;
  }
]

-- A name that some check counts for has an entry.
pub latest_from_complete :
    (sha n : String) (cs : List Check) (k : Check) (id : ℤ) (c : String)
    → Memᴰ k cs
    → read_check sha k ≡ some (n, id, c)
    → (v : ℤ × String) × (Dict.get n (latest_from sha [] cs) ≡ some v)
latest_from_complete sha n cs k id c m r =
    let (j, d, at, below) = latest_from-Covers_mem sha n [] cs k id c m r in ((j, d), at)

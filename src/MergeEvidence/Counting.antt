-- ===== src/MergeEvidence/Counting.antt =====
-- Which check counts for a name at a commit, in terms of what the check holds
-- (src/agentic_sdlc/merge_evidence.py).
use mathlib.Core.List.{Memᴰ}
use agentic_sdlc.Base.Int.{ℤ, pos, negsuc, le_ℤ}
use agentic_sdlc.Base.{
  ℕ, zero, suc, String, ◌≡◌, refl, sym, ap, ◌∙◌, ◌⊎◌, inl, inr, has_text, Bool-cases, Option-cases,
  eq_refl, true, false, some, List, eq_iff,
}
use agentic_sdlc.MergeEvidence.{
  Value, none_value, text, int, bool, other, text_value, positive_value, is_text, conclusion_text,
  read_check, Check,
}
use agentic_sdlc.MergeEvidence.Latest.{Newest}

-- `isinstance(v, int) and v > 0`, where the bool `True` is the int 1
abbrev pub Numbered : Value → ℤ → Type 0
Numbered v id = (k : ℕ) × (id ≡ pos (suc k)) × ((v ≡ int id) ⊎ ((v ≡ bool true) × (k ≡ 0)))

-- The check is of that name, of the commit, and numbered.
abbrev pub Counts : String → String → Check → ℤ → Type 0
Counts sha n c id = (c.name ≡ text n) × (c.head_sha ≡ text sha) × Numbered c.id id

-- A check of the list ran under the name at the commit and concluded "success", and no check of the list
-- that ran under the name at the commit has a greater id.
pub record Succeeded (sha n : String) (cs : List Check) : Type 0 where
  pub check : Check
  pub id : ℤ
  pub listed : Memᴰ check cs
  pub counts : Counts sha n check id
  pub success : check.conclusion ≡ text "success"
  pub newest : (other : Check) (i : ℤ) → Memᴰ other cs → Counts sha n other i → le_ℤ i id ≡ true

text_value-eq :
    (v : Value) (s : String) → text_value v ≡ some s → (v ≡ text s) × (has_text s ≡ true)
text_value-eq (text t) s h = elim (Bool-cases (has_text t)) [
  | inl full ↦
      let h' = rw full at h in
      let same : t ≡ s = cc in (ap text same, ap has_text (sym same) ∙ full)
  | inr blank ↦ absurd (let h' = rw blank at h in cc)
]
text_value-eq none_value s h = absurd cc
text_value-eq (int _) s h = absurd cc
text_value-eq (bool _) s h = absurd cc
text_value-eq other s h = absurd cc

is_text-eq : (s : String) (v : Value) → is_text s v ≡ true → v ≡ text s
is_text-eq s (text t) h = ap text ((eq_iff t s).0 h)
is_text-eq s none_value h = absurd cc
is_text-eq s (int _) h = absurd cc
is_text-eq s (bool _) h = absurd cc
is_text-eq s other h = absurd cc

positive_value-Numbered : (v : Value) (id : ℤ) → positive_value v ≡ some id → Numbered v id
positive_value-Numbered (int (pos zero)) id h = absurd cc
positive_value-Numbered (int (pos (suc k))) id h =
    let same : pos (suc k) ≡ id = cc in (k, sym same, inl (ap int same))
positive_value-Numbered (int (negsuc k)) id h = absurd cc
positive_value-Numbered (bool true) id h =
    let same : pos 1 ≡ id = cc in (0, sym same, inr (refl, refl))
positive_value-Numbered (bool false) id h = absurd cc
positive_value-Numbered none_value id h = absurd cc
positive_value-Numbered (text _) id h = absurd cc
positive_value-Numbered other id h = absurd cc

Numbered-positive_value : (v : Value) (id : ℤ) → Numbered v id → positive_value v ≡ some id
Numbered-positive_value v id (k, at, inl number) = rw (number, at) refl
Numbered-positive_value v id (k, at, inr (truth, one)) = rw (truth, at, one) refl

conclusion_text-eq : (v : Value) → conclusion_text v ≡ "success" → v ≡ text "success"
conclusion_text-eq (text t) h = ap text h
conclusion_text-eq none_value h = absurd cc
conclusion_text-eq (int _) h = absurd cc
conclusion_text-eq (bool _) h = absurd cc
conclusion_text-eq other h = absurd cc

-- What the loop reads of a check, in terms of what the check holds.
read_check-Counts :
    (sha n t : String) (c : Check) (id : ℤ)
    → read_check sha c ≡ some (n, id, t)
    → Counts sha n c id × (has_text n ≡ true) × (conclusion_text c.conclusion ≡ t)
unfolding read_check
read_check-Counts sha n t c id h = elim (Option-cases (text_value c.name)) [
  | inl unnamed ↦ absurd (let h' = rw (read_check, unnamed) at h in cc)
  | inr (m, named) ↦ elim (Bool-cases (is_text sha c.head_sha)) [
    | inr elsewhere ↦ absurd (let h' = rw (read_check, named, elsewhere) at h in cc)
    | inl here ↦ elim (Option-cases (positive_value c.id)) [
      | inl unnumbered ↦ absurd (let h' = rw (read_check, named, here, unnumbered) at h in cc)
      | inr (i, numbered) ↦
          let h' = rw (read_check, named, here, numbered) at h in
          let same : m ≡ n = cc in
          let number : i ≡ id = cc in
          let (is_name, full) = text_value-eq c.name m named in
          (
            (
              is_name ∙ ap text same,
              is_text-eq sha c.head_sha here,
              positive_value-Numbered c.id id (numbered ∙ ap (λ j. some j) number),
            ),
            ap has_text (sym same) ∙ full,
            cc,
          )
    ]
  ]
]

Counts-read_check :
    (sha n : String) (c : Check) (id : ℤ)
    → has_text n ≡ true
    → Counts sha n c id
    → read_check sha c ≡ some (n, id, conclusion_text c.conclusion)
unfolding read_check
Counts-read_check sha n c id full (named, here, numbered) =
    let is_name : text_value c.name ≡ some n = ap text_value named ∙ rw full refl in
    let is_here : is_text sha c.head_sha ≡ true = ap (is_text sha) here ∙ eq_refl sha in
    rw (read_check, is_name, is_here, Numbered-positive_value c.id id numbered) refl

pub Newest-Succeeded :
    (sha n : String) (cs : List Check) (id : ℤ) → Newest sha n cs id "success" → Succeeded sha n cs
Newest-Succeeded sha n cs id k =
    let (counts, full, concluded) = read_check-Counts sha n "success" k.check id k.read in
    record {
      check = k.check;
      id = id;
      listed = k.listed;
      counts = counts;
      success = conclusion_text-eq k.check.conclusion concluded;
      newest = λ other i m c. k.greatest other i _ m (Counts-read_check sha n other i full c);
    }

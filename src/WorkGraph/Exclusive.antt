-- ===== src/WorkGraph/Exclusive.antt =====
-- Leases are exclusive until they expire.
use agentic_sdlc.Base.{
  ℕ, ◌+◌, ◌<◌, String, ◌≡◌, ◌≢◌, ◌⊎◌, refl, true, false, some, ok, arith, eq_iff, ◌==◌, eq_refl,
  Bool-cases, inl, inr, ltb,
}
use agentic_sdlc.Base.Dict
use agentic_sdlc.Base.Dict.{get-put, get-remove}
use agentic_sdlc.WorkGraph.Leases.{
  LeaseManager, grant, acquire, release, holder, is_held, is_recorded,
}

-- what a granted lease writes
pub leases-acquire :
    (r u : String) (now ttl : ℕ) (m : LeaseManager)
    → (acquire r u now ttl m).0 ≡ ok tt
    → ((acquire r u now ttl m).1.leases ≡ Dict.put r (u, now + ttl) m.leases) × (0 < ttl)
unfolding acquire grant
leases-acquire r u now ttl m h = elim (Bool-cases (ltb ttl 1)) [
  | inl zero_ttl ↦ absurd (let h' = rw zero_ttl at h in cc)
  | inr long ↦ elim (Bool-cases (is_held u now (Dict.get r m.leases))) [
    | inl held ↦ absurd (let h' = rw (long, held) at h in cc)
    | inr free ↦ (rw (long, free) refl, ground arith)
  ]
]

-- A granted lease makes the unit the holder at every time before it expires, and leaves the holder of
-- every other resource at any time.
pub holder-acquire :
    (r u j : String) (now ttl t t' : ℕ) (m : LeaseManager)
    → (acquire r u now ttl m).0 ≡ ok tt
    → t < now + ttl
    → (r == j) ≡ false
    → (holder r t (acquire r u now ttl m).1 ≡ u)
      × (holder j t' (acquire r u now ttl m).1 ≡ holder j t' m)
unfolding holder
holder-acquire r u j now ttl t t' m h before other =
    let (written, _) = leases-acquire r u now ttl m h in
    (rw written (rw (get-put, eq_refl) (ground arith)), rw written (rw (get-put, other) refl))

acquire_refused :
    (r v held_by : String) (t e ttl : ℕ) (m : LeaseManager)
    → Dict.get r m.leases ≡ some (held_by, e)
    → held_by ≢ v
    → t < e
    → ((acquire r v t ttl m).0 ≢ ok tt) × ((acquire r v t ttl m).1 ≡ m)
unfolding acquire
acquire_refused r v held_by t e ttl m at other before =
    let held : is_held v t (Dict.get r m.leases) ≡ true =
      rw at (ground (arith, eq_iff held_by v)) in
    elim (Bool-cases (ltb ttl 1)) [
      | inl zero_ttl ↦ rw zero_ttl ((λ h. cc), refl)
      | inr long ↦ rw (long, held) ((λ h. cc), refl)
    ]

-- While a unit holds a resource, no other unit acquires it, and a call that tries changes nothing.
pub acquire_exclusive :
    (r u v : String) (now t ttl ttl' : ℕ) (m : LeaseManager)
    → (acquire r u now ttl m).0 ≡ ok tt
    → u ≢ v
    → t < now + ttl
    → let held = (acquire r u now ttl m).1 in
      ((acquire r v t ttl' held).0 ≢ ok tt) × ((acquire r v t ttl' held).1 ≡ held)
acquire_exclusive r u v now t ttl ttl' m h other before =
    let (written, _) = leases-acquire r u now ttl m h in
    acquire_refused r v u t (now + ttl) ttl' (acquire r u now ttl m).1
      (rw written (rw (get-put, eq_refl) refl)) other before

-- The lease of the unit on record is released, after which the resource has no holder at any time, and
-- a release by anyone else raises and changes nothing.
pub holder-release :
    (r u : String) (now t : ℕ) (m : LeaseManager)
    → (((release r u now m).0 ≡ ok tt) × (holder r t (release r u now m).1 ≡ ""))
      ⊎ (((release r u now m).0 ≢ ok tt)
          × ((release r u now m).1 ≡ m)
          × (is_recorded u (Dict.get r m.leases) ≡ false))
unfolding release holder
holder-release r u now t m = elim (Bool-cases (is_recorded u (Dict.get r m.leases))) [
  | inl mine ↦ rw mine (inl (refl, rw (get-remove, eq_refl) refl))
  | inr not_mine ↦ rw not_mine (inr ((λ h. cc), refl, refl))
]

-- ===== src/Lease/Fencing.antt =====
-- What a fence token is good for (src/infra/runtime_state.py): once another holder has been granted the lease, the
-- holder before it neither renews it nor writes a checkpoint.
use agenthedge.Prelude.{
  ℕ, ◌+◌, ◌<◌, ◌≤◌, ◌≡◌, ◌≢◌, ◌⊎◌, inl, inr, refl, sym, ap, ◌∙◌, subst, true, false, Option, none,
  some, List, [], ◌∷◌, String, get, pop, get-put, get-pop, All, if◌then◌else◌, if_both, ◌==◌,
  eq_iff, leb, arith, Bool-cases, err,
}
use agenthedge.Lease.{
  LeaseRow, CheckpointRow, StateDb, lease_changed, lease_row, is_held, is_owned, set_lease,
  try_acquire, acquire_lease, renew_lease, release_lease, save_checkpoint,
}
use agenthedge.Lease.Past.{IsPast, bumped, held-IsPast, past-is_held, granted}

-- what an instance may do with the tables
pub data Call (F : Type 0) : Type 0 where
  acquire : ℕ → ℕ → String → ℕ → String → Call F
  renew : ℕ → String → String → ℕ → ℕ → Call F
  release : String → String → ℕ → Call F
  save : ℕ → String → String → Option ℕ → (ℕ → CheckpointRow F) → Call F

module _ {F : Type 0} where
  abbrev pub perform : Call F → StateDb F → StateDb F
  perform (acquire db_now own_now instance_id lease_seconds runtime_name) db =
      (acquire_lease db_now own_now instance_id lease_seconds runtime_name db).1
  perform (renew now instance_id runtime_name fence_token lease_seconds) db =
      (renew_lease now instance_id runtime_name fence_token lease_seconds db).1
  perform (release instance_id runtime_name fence_token) db =
      release_lease instance_id runtime_name fence_token db
  perform (save now instance_id runtime_name fence_token row) db =
      (save_checkpoint now instance_id runtime_name fence_token row db).1

  abbrev pub perform_all : List (Call F) → StateDb F → StateDb F
  perform_all [] db = db
  perform_all (c ∷ calls) db = perform_all calls (perform c db)

  at_name :
      (name runtime_name : String) (r : Option LeaseRow) (db : StateDb F)
      → get runtime_name db.leases ≡ r
      → (runtime_name == name) ≡ true
      → get name db.leases ≡ r
  at_name name runtime_name r db e h =
      ap (λ n. get n db.leases) (sym ((eq_iff runtime_name name).0 h)) ∙ e

  -- The call is no release of the runtime's lease.
  abbrev pub Keeps : String → Call F → Type 0
  Keeps name (release instance_id runtime_name fence_token) = (runtime_name == name) ≡ false
  Keeps name c = Unit

  module _ (name owner : String) (token : ℕ) where
    abbrev Past : StateDb F → Type 0
    Past db = IsPast owner token (get name db.leases)

    -- a lease that is written, which is past the token if it is the runtime's
    set_lease-Past :
        (runtime_name : String) (row : LeaseRow) (db : StateDb F)
        → ((runtime_name == name) ≡ true → IsPast owner token (some row))
        → Past db
        → Past (set_lease runtime_name row db)
    set_lease-Past runtime_name row db h p = elim (Bool-cases (runtime_name == name)) [
      | inl e ↦
          subst (IsPast owner token) (sym (get-put runtime_name name row db.leases ∙ hit e)) (h e)
      | inr e ↦
          subst (IsPast owner token) (sym (get-put runtime_name name row db.leases ∙ miss e)) p
    ]
      where
        hit :
            (runtime_name == name) ≡ true
            → (if runtime_name == name then some row else get name db.leases) ≡ some row
        hit e = rw e refl

        miss :
            (runtime_name == name) ≡ false
            → (if runtime_name == name then some row else get name db.leases) ≡ get name db.leases
        miss e = rw e refl

    try_acquire-Past :
        (db_now own_now : ℕ) (instance_id : String) (lease_seconds : ℕ) (runtime_name : String)
        (r : Option LeaseRow) (db : StateDb F)
        → get runtime_name db.leases ≡ r
        → Past db
        → Past (try_acquire db_now own_now instance_id lease_seconds runtime_name r db).1
    try_acquire-Past db_now own_now instance_id lease_seconds runtime_name none db e p =
        set_lease-Past runtime_name (lease_row instance_id 1 (db_now + lease_seconds)) db
          (λ h. absurd (subst (IsPast owner token) (at_name name runtime_name none db e h) p)) p
    try_acquire-Past db_now own_now instance_id lease_seconds runtime_name (some row) db e p =
        let next = lease_row instance_id (row.fence_token + 1) (db_now + lease_seconds) in
        let taken =
          set_lease-Past runtime_name next db
            (λ h.
              bumped row next refl
                (subst (IsPast owner token) (at_name name runtime_name (some row) db e h) p))
            p in
        elim (Bool-cases (row.owner_instance_id == instance_id)) [
          | inl a ↦ rw a taken
          | inr a ↦ elim (Bool-cases (leb row.lease_expires_at own_now)) [
            | inl b ↦ rw (a, b) taken
            | inr b ↦ rw (a, b) p
          ]
        ]

    renew-Past :
        (now : ℕ) (instance_id runtime_name : String) (fence_token lease_seconds : ℕ)
        (r : Option LeaseRow) (db : StateDb F)
        → get runtime_name db.leases ≡ r
        → Past db
        → Past (renew_lease now instance_id runtime_name fence_token lease_seconds db).1
    unfolding renew_lease
    renew-Past now instance_id runtime_name fence_token lease_seconds none db e p = rw e p
    renew-Past now instance_id runtime_name fence_token lease_seconds (some row) db e p =
        elim (Bool-cases (is_held instance_id fence_token now (get runtime_name db.leases))) [
          | inl h ↦ rw h (
              set_lease-Past runtime_name (lease_row instance_id fence_token (now + lease_seconds))
                db
                (λ g.
                  held-IsPast instance_id fence_token now (now + lease_seconds) row
                    (subst (λ r. is_held instance_id fence_token now r ≡ true) e h)
                    (subst (IsPast owner token) (at_name name runtime_name (some row) db e g) p))
                p)
          | inr h ↦ rw h p
        ]

    release-Past :
        (instance_id runtime_name : String) (fence_token : ℕ) (db : StateDb F)
        → (runtime_name == name) ≡ false
        → Past db
        → Past (release_lease instance_id runtime_name fence_token db)
    unfolding release_lease
    release-Past instance_id runtime_name fence_token db n p =
        if_both {A = StateDb F} Past (is_owned instance_id fence_token (get runtime_name db.leases))
          {x = record db { leases = pop runtime_name db.leases }} {y = db}
          (subst (IsPast owner token)
            (sym (
              get-pop runtime_name name db.leases
              ∙ ap (λ b. if b then none else get name db.leases) n))
            p)
          p

    save-Past :
        (now : ℕ) (instance_id runtime_name : String) (fence_token : Option ℕ)
        (row : ℕ → CheckpointRow F) (db : StateDb F)
        → Past db
        → Past (save_checkpoint now instance_id runtime_name fence_token row db).1
    unfolding save_checkpoint
    save-Past now instance_id runtime_name none row db p = p
    save-Past now instance_id runtime_name (some t) row db p =
        elim (Bool-cases (is_held instance_id t now (get runtime_name db.leases))) [
          | inl h ↦ rw h p
          | inr h ↦ rw h p
        ]

    perform-Past : (c : Call F) (db : StateDb F) → Keeps name c → Past db → Past (perform c db)
    unfolding acquire_lease
    perform-Past (acquire db_now own_now instance_id lease_seconds runtime_name) db k p =
        try_acquire-Past db_now own_now instance_id lease_seconds runtime_name
          (get runtime_name db.leases) db refl p
    perform-Past (renew now instance_id runtime_name fence_token lease_seconds) db k p =
        renew-Past now instance_id runtime_name fence_token lease_seconds
          (get runtime_name db.leases) db refl p
    perform-Past (release instance_id runtime_name fence_token) db k p =
        release-Past instance_id runtime_name fence_token db k p
    perform-Past (save now instance_id runtime_name fence_token row) db k p =
        save-Past now instance_id runtime_name fence_token row db p

    perform_all-Past :
        (calls : List (Call F)) (db : StateDb F)
        → All (Keeps name) calls
        → Past db
        → Past (perform_all calls db)
    perform_all-Past [] db k p = p
    perform_all-Past (c ∷ calls) db k p =
        perform_all-Past calls (perform c db) k.1 (perform-Past c db k.0 p)

  -- A grant is the start of it.
  acquire-IsPast :
      (db_now own_now : ℕ) (owner : String) (lease_seconds : ℕ) (name : String)
      (r : Option LeaseRow) (db : StateDb F)
      → (try_acquire db_now own_now owner lease_seconds name r db).0.acquired ≡ true
      → IsPast owner
          (try_acquire db_now own_now owner lease_seconds name r db).0.token
          (get name (try_acquire db_now own_now owner lease_seconds name r db).1.leases)
  acquire-IsPast db_now own_now owner lease_seconds name none db g =
      granted owner name 1 (db_now + lease_seconds) db
  acquire-IsPast db_now own_now owner lease_seconds name (some row) db g =
      elim (Bool-cases (row.owner_instance_id == owner)) [
        | inl a ↦ rw a (granted owner name (row.fence_token + 1) (db_now + lease_seconds) db)
        | inr a ↦ elim (Bool-cases (leb row.lease_expires_at own_now)) [
          | inl b ↦ rw (a, b) (granted owner name (row.fence_token + 1) (db_now + lease_seconds) db)
          | inr b ↦ absurd (ground arith)
        ]
      ]

  -- Once an instance has been granted a runtime's lease, a holder that has an earlier token, or the same
  -- token under another name, is fenced off: after any calls of any instances, of which none releases the
  -- lease, it neither renews the lease nor writes a checkpoint, and what it tries changes nothing.
  pub acquire-fences :
      (db_now own_now : ℕ) (owner : String) (lease_seconds : ℕ) (name : String) (db : StateDb F)
      (calls : List (Call F)) (now : ℕ) (i : String) (t seconds : ℕ) (row : ℕ → CheckpointRow F)
      → (acquire_lease db_now own_now owner lease_seconds name db).0.acquired ≡ true
      → All (Keeps name) calls
      → t ≤ (acquire_lease db_now own_now owner lease_seconds name db).0.token
      → (t < (acquire_lease db_now own_now owner lease_seconds name db).0.token) ⊎ (i ≢ owner)
      → (let later =
            perform_all calls (acquire_lease db_now own_now owner lease_seconds name db).1 in
          (renew_lease now i name t seconds later ≡ (false, later))
          × (save_checkpoint now i name (some t) row later ≡ (err lease_changed, later)))
  unfolding acquire_lease renew_lease save_checkpoint
  acquire-fences db_now own_now owner lease_seconds name db calls now i t seconds row g k l o =
      let first = acquire_lease db_now own_now owner lease_seconds name db in
      let later = perform_all calls first.1 in
      let past =
        perform_all-Past name owner first.0.token calls first.1 k
          (acquire-IsPast db_now own_now owner lease_seconds name (get name db.leases) db g) in
      let h = past-is_held owner i first.0.token t now (get name later.leases) past l o in
      (rw h refl, rw h refl)

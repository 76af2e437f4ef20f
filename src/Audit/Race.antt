-- ===== src/Audit/Race.antt =====
-- Two threads in `JsonlAuditSink.__call__` (src/audit/sink.py): the record is built from the sink's last
-- hash before the lock is taken, and written under it.
use agenthedge.Prelude.{
  ℕ, ◌+◌, ◌≡◌, ◌≢◌, inl, inr, refl, ◌∙◌, subst, ap, sym, true, false, Option, none, some, List, [],
  ◌∷◌, ◌++◌, String, get, put, Bool-cases, arith,
}
use agenthedge.Values.{Payload, get_value}
use agenthedge.Audit.{
  Line, not_json, record_line, Event, JsonlFile, append_line, audit_record, append_record,
  same_hash, hash_value, prev_errors, check_record, check_line, verify_from, verify,
}
use agenthedge.Audit.Unended.{append_line-Taken, not_json-refused}
use agenthedge.Audit.Chain.{
  append-nil_left, append-nil_right, last_link, check-append_record, verify-clean,
}

pub record Sink (F : Type 0) : Type 0 where
  pub last_hash : Option String
  pub file : JsonlFile F

append_twice :
    {A : Type 0} (xs : List A) (x y : A) → (xs ++ (x ∷ [])) ++ (y ∷ []) ≡ xs ++ (x ∷ y ∷ [])
append_twice [] x y = refl
append_twice (z ∷ xs) x y = ap (λ l. z ∷ l) (append_twice xs x y)

module _ {F : Type 0} (hash_record : Payload F → String) where
  -- `__call__` up to the lock
  unfoldable pub prepare : Event F → Sink F → Payload F × String
  prepare event s = append_record hash_record event s.last_hash

  -- `__call__` under the lock
  unfoldable pub commit : Payload F × String → Sink F → Sink F
  unfolding append_line
  commit (r, h) s = record { last_hash = some h; file = append_line r s.file }

  -- two calls that both build their record before either writes it
  unfoldable pub overlapping : Event F → Event F → Sink F → Sink F
  unfolding prepare commit
  overlapping e f s = commit (prepare f s) (commit (prepare e s) s)

  verify_from-suffix :
      (index : ℕ) (previous : Option String) (xs ys : List (Line F))
      → verify_from hash_record index previous (xs ++ ys) ≡ []
      → (i : ℕ) × (verify_from hash_record i (last_link hash_record index previous xs) ys ≡ [])
  unfolding verify_from last_link
  verify_from-suffix index previous [] ys h = (index, h)
  verify_from-suffix index previous (x ∷ xs) ys h =
      let (errors, next) = check_line hash_record index previous x in
      verify_from-suffix (index + 1) next xs ys (append-nil_right errors _ h)

  -- a record that passes names the hash before it
  named_lem :
      (index : ℕ) (previous : Option String) (r : Payload F)
      → (check_record hash_record index previous r).0 ≡ []
      → same_hash (get_value "prev_hash" r) previous ≡ true
  unfolding check_record prev_errors
  named_lem index previous r h = ground arith

  appended_lem :
      (event : Event F) (last : Option String)
      → get_value "prev_hash" (append_record hash_record event last).0 ≡ hash_value last
  unfolding append_record audit_record get_value get put
  appended_lem event last = refl

  pair_lem :
      (index : ℕ) (e f : Event F) (last : Option String)
      → ((r : Payload F) → hash_record r ≢ "")
      → verify_from hash_record index last (
          record_line (append_record hash_record e last).0
          ∷ record_line (append_record hash_record f last).0
          ∷ [])
        ≡ []
      → same_hash (hash_value {F = F} last) (some (append_record hash_record e last).1) ≡ true
  unfolding verify_from check_line
  pair_lem index e f last solid h =
      let next = append_record hash_record e last in
      let rest =
        check_record hash_record (index + 1) (some next.1) (append_record hash_record f last).0 in
      let passed : rest.0 ≡ [] =
        append-nil_left rest.0 [] (rw (check-append_record hash_record index e last solid) at h) in
      ap (λ v. same_hash v (some next.1)) (sym (appended_lem f last))
      ∙ named_lem (index + 1) (some next.1) (append_record hash_record f last).0 passed

  -- A record after a file that ends in a newline is a line of its own.
  second_line :
      (ys : List (Line F)) (x : Line F) (r : Payload F) (file : JsonlFile F)
      → file.ended ≡ true
      → file.lines ≡ ys ++ (x ∷ [])
      → (append_line r file).lines ≡ ys ++ (x ∷ record_line r ∷ [])
  unfolding append_line
  second_line ys x r file whole shape = rw (whole, shape) (append_twice ys x (record_line r))

  two_records-refused :
      (ys : List (Line F)) (one two : Payload F) (lines : List (Line F))
      → lines ≡ ys ++ (record_line one ∷ record_line two ∷ [])
      → ((i : ℕ)
          → verify_from hash_record i
              (last_link hash_record 1 none ys)
              (record_line one ∷ record_line two ∷ [])
            ≡ []
          → ⊥)
      → (verify hash_record lines).0 ≡ false
  two_records-refused ys one two lines shape dirty =
      elim (Bool-cases (verify hash_record lines).0) [
        | inr n ↦ n
        | inl y ↦
            let (i, h) = verify_from-suffix 1 none ys (record_line one ∷ record_line two ∷ []) (
              subst (λ l. verify_from hash_record 1 none l ≡ []) shape
                (verify-clean hash_record lines y)) in
            absurd (dirty i h)
      ]

  -- A sink whose file verifies and whose last hash is the one that the file ends in, and a hash of the
  -- first record that differs from it: after two overlapping calls the file no longer verifies.
  pub overlapping-breaks :
      (e f : Event F) (s : Sink F)
      → ((r : Payload F) → hash_record r ≢ "")
      → last_link hash_record 1 none s.file.lines ≡ s.last_hash
      → same_hash (hash_value {F = F} s.last_hash) (some (prepare e s).1) ≡ false
      → (verify hash_record (overlapping e f s).file.lines).0 ≡ false
  unfolding overlapping prepare commit
  overlapping-breaks e f s solid link apart =
      let one = (prepare e s).0 in
      let two = (prepare f s).0 in
      elim (append_line-Taken hash_record one s.file) [
        | inl (ys, shape, same) ↦
            two_records-refused ys one two (append_line two (append_line one s.file)).lines
              (second_line ys (record_line one) two (append_line one s.file) refl shape)
              (λ i h. cc (
                pair_lem i e f s.last_hash solid (
                    subst
                      (λ l.
                        verify_from hash_record i l (record_line one ∷ record_line two ∷ []) ≡ [])
                      (same ∙ link) h),
                apart,
              ))
        | inr (ys, shape) ↦
            not_json-refused hash_record ys (record_line two ∷ [])
              (append_line two (append_line one s.file)).lines
              (second_line ys not_json two (append_line one s.file) refl shape)
      ]

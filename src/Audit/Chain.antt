-- ===== src/Audit/Chain.antt =====
-- What the sink writes verifies, also after a restart on a file that is already there.
use agenthedge.Prelude.{
  ℕ, ◌+◌, ◌≡◌, ◌≢◌, ◌⊎◌, inl, inr, refl, ap, sym, ◌∙◌, subst, true, Option, none, some, List, [],
  ◌∷◌, ◌++◌, String, get, put, pop, Bool-cases, eq_iff, eq_refl, arith, ok,
}
use mathlib.Core.List.{append_assoc, append-nil}
use agenthedge.Values.{nonempty_text, Payload}
use agenthedge.Audit.{
  Line, blank, not_json, not_object, record_line, Event, audit_record, append_record, same_hash,
  hash_value, check_record, check_line, verify_from, verify, read_last_hash, initialize, JsonlFile,
  append_line, append_all,
}

pub append-nil_left : {A : Type 0} (xs ys : List A) → xs ++ ys ≡ [] → xs ≡ []
append-nil_left [] ys h = refl
append-nil_left (x ∷ xs) ys h = cc

pub append-nil_right : {A : Type 0} (xs ys : List A) → xs ++ ys ≡ [] → ys ≡ []
append-nil_right [] ys h = h
append-nil_right (x ∷ xs) ys h = cc

module _ {F : Type 0} (hash_record : Payload F → String) where
  -- the hash that the record after these lines has to name
  unfoldable pub last_link : ℕ → Option String → List (Line F) → Option String
  last_link index previous [] = previous
  last_link index previous (line ∷ lines) =
      last_link (index + 1) (check_line hash_record index previous line).1 lines

  -- the lines of the events, each of which names the hash of the one before
  unfoldable pub write_all : List (Event F) → Option String → List (Line F)
  write_all [] last_hash = []
  write_all (event ∷ events) last_hash =
      let (r, h) = append_record hash_record event last_hash in
      record_line r ∷ write_all events (some h)

  pub append_all-lines :
      (events : List (Event F)) (last : Option String) (file : JsonlFile F)
      → file.ended ≡ true
      → (append_all hash_record events last file).lines ≡ file.lines ++ write_all events last
  unfolding append_all append_line write_all
  append_all-lines [] last file h = sym (append-nil file.lines)
  append_all-lines (event ∷ events) last file h =
      let (r, hash) = append_record hash_record event last in
      append_all-lines events (some hash) (append_line r file) refl
      ∙ rw h (append_assoc file.lines (record_line r ∷ []) (write_all events (some hash)))

  -- An empty file takes the same lines, whatever it ends in.
  append_all-lines_empty :
      (events : List (Event F)) (last : Option String) (file : JsonlFile F)
      → file.lines ≡ []
      → (append_all hash_record events last file).lines
        ≡ (append_all hash_record events last (record { lines = []; ended = true })).lines
  unfolding append_all append_line
  append_all-lines_empty [] last file h = h
  append_all-lines_empty (event ∷ events) last file h =
      let (r, hash) = append_record hash_record event last in
      ap (λ f. (append_all hash_record events (some hash) f).lines) {x = append_line r file}
        {y = append_line r (record { lines = []; ended = true })} (one_line r file h)
    where
      one_line :
          (r : Payload F) (file : JsonlFile F)
          → file.lines ≡ []
          → append_line r file ≡ append_line r (record { lines = []; ended = true })
      one_line r file h = ground (arith, h)

  same_hash-hash_value : (h : Option String) → same_hash {F = F} (hash_value h) h ≡ true
  unfolding same_hash
  same_hash-hash_value none = refl
  same_hash-hash_value (some s) = eq_refl s

  -- The record that the sink appends passes its check, and the next one has to name its hash.
  pub check-append_record :
      (index : ℕ) (event : Event F) (last : Option String)
      → ((r : Payload F) → hash_record r ≢ "")
      → check_record hash_record index last (append_record hash_record event last).0
        ≡ ([], some (append_record hash_record event last).1)
  unfolding check_record append_record audit_record nonempty_text get put pop
  check-append_record index event last solid =
      let r = audit_record event last in
      let h = hash_record r in
      ground (arith, eq_iff h "", solid r, eq_refl h, same_hash-hash_value last)

  read_last_hash-record :
      (index : ℕ) (previous : Option String) (r : Payload F) (lines : List (Line F))
      → (check_record hash_record index previous r).0 ≡ []
      → read_last_hash hash_record previous (record_line r ∷ lines)
        ≡ read_last_hash hash_record (check_record hash_record index previous r).1 lines
  unfolding check_record read_last_hash
  read_last_hash-record index previous r lines h = ground arith

  -- On a chain without errors, the last hash that the sink reads is the one the chain ends in.
  read_last_hash-last_link :
      (index : ℕ) (previous : Option String) (lines : List (Line F))
      → verify_from hash_record index previous lines ≡ []
      → read_last_hash hash_record previous lines ≡ ok (last_link index previous lines)
  unfolding verify_from read_last_hash last_link check_line
  read_last_hash-last_link index previous [] h = refl
  read_last_hash-last_link index previous (blank ∷ lines) h =
      read_last_hash-last_link (index + 1) previous lines h
  read_last_hash-last_link index previous (not_json ∷ lines) h = cc
  read_last_hash-last_link index previous (not_object ∷ lines) h = cc
  read_last_hash-last_link index previous (record_line r ∷ lines) h =
      let (errors, next) = check_record hash_record index previous r in
      read_last_hash-record index previous r lines (append-nil_left errors _ h)
      ∙ read_last_hash-last_link (index + 1) next lines (append-nil_right errors _ h)

  verify_from-append :
      (index : ℕ) (previous : Option String) (xs ys : List (Line F))
      → verify_from hash_record index previous xs ≡ []
      → ((i : ℕ) → verify_from hash_record i (last_link index previous xs) ys ≡ [])
      → verify_from hash_record index previous (xs ++ ys) ≡ []
  unfolding verify_from last_link
  verify_from-append index previous [] ys h k = k index
  verify_from-append index previous (x ∷ xs) ys h k =
      let (errors, next) = check_line hash_record index previous x in
      let tail = verify_from-append (index + 1) next xs ys (append-nil_right errors _ h) k in
      rw (append-nil_left errors _ h) tail

  verify_from-write_all :
      ((r : Payload F) → hash_record r ≢ "")
      → (events : List (Event F)) (index : ℕ) (last : Option String)
      → verify_from hash_record index last (write_all events last) ≡ []
  unfolding verify_from write_all check_line
  verify_from-write_all solid [] index last = refl
  verify_from-write_all solid (event ∷ events) index last =
      rw (check-append_record index event last solid) (
        verify_from-write_all solid events (index + 1)
          (some (append_record hash_record event last).1))

  verify-nil :
      (lines : List (Line F))
      → verify_from hash_record 1 none lines ≡ []
      → verify hash_record lines ≡ (true, [])
  unfolding verify
  verify-nil lines h = rw h

  pub verify-clean :
      (lines : List (Line F))
      → (verify hash_record lines).0 ≡ true
      → verify_from hash_record 1 none lines ≡ []
  unfolding verify
  verify-clean lines h = ground arith

  continue-verifies :
      (lines : List (Line F)) (last : Option String) (events : List (Event F))
      → ((r : Payload F) → hash_record r ≢ "")
      → (verify hash_record lines).0 ≡ true
      → read_last_hash hash_record none lines ≡ ok last
      → verify hash_record (lines ++ write_all events last) ≡ (true, [])
  continue-verifies lines last events solid v e =
      let clean = verify-clean lines v in
      let link : last_link 1 none lines ≡ last =
        cc (e, read_last_hash-last_link 1 none lines clean) in
      verify-nil (lines ++ write_all events last) (
        verify_from-append 1 none lines (write_all events last) clean
          λ i. rw link (verify_from-write_all solid events i last))

  lines_verify :
      (lines : List (Line F)) (last : Option String) (events : List (Event F))
      → ((r : Payload F) → hash_record r ≢ "")
      → initialize hash_record lines ≡ ok last
      → verify hash_record (lines ++ write_all events last) ≡ (true, [])
  unfolding initialize
  lines_verify [] last events solid e =
      let link : none ≡ last = cc in
      verify-nil (write_all events last) (
        subst (λ l. verify_from hash_record 1 none (write_all events l) ≡ []) link
          (verify_from-write_all solid events 1 none))
  lines_verify (line ∷ lines) last events solid e =
      elim (Bool-cases (verify hash_record (line ∷ lines)).0) [
        | inl v ↦ continue-verifies (line ∷ lines) last events solid v (rw v at e)
        | inr n ↦ cc (rw n at e)
      ]

  -- A hash function that never gives the empty text: if the sink opens an existing file that is empty or
  -- ends in a newline, it takes up the chain there, and the file with whatever events it then appends
  -- verifies without an error.
  pub resume-verifies :
      (file : JsonlFile F) (last : Option String) (events : List (Event F))
      → ((r : Payload F) → hash_record r ≢ "")
      → initialize hash_record file.lines ≡ ok last
      → (file.lines ≡ []) ⊎ (file.ended ≡ true)
      → verify hash_record (append_all hash_record events last file).lines ≡ (true, [])
  resume-verifies file last events solid e (inr whole) =
      ap (verify hash_record) (append_all-lines events last file whole)
      ∙ lines_verify file.lines last events solid e
  resume-verifies file last events solid e (inl empty) =
      ap (verify hash_record) (
        append_all-lines_empty events last file empty
        ∙ append_all-lines events last (record { lines = []; ended = true }) refl)
      ∙ lines_verify [] last events solid
          (subst (λ ls. initialize hash_record ls ≡ ok last) empty e)

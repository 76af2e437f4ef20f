-- ===== src/Audit/Tamper.antt =====
-- A verified chain is determined by its last hash: tampering with any record shows.
use agenthedge.Prelude.{
  ℕ, ◌+◌, ◌≡◌, inl, inr, refl, sym, ap, ◌∙◌, true, Option, none, some, List, [], ◌∷◌, String, pop,
  Option-cases, eq_iff, arith, length, get-pop,
}
use agenthedge.Values.{nonempty_text, Value, null, text, Payload, get_value}
use agenthedge.Audit.{
  Line, record_line, same_hash, check_record, check_line, prev_errors, verify_from,
}
use agenthedge.Audit.Chain.{last_link, append-nil_left, append-nil_right}

module _ {F : Type 0} where
  -- what the hash of a record covers
  abbrev pub body : Payload F → Payload F
  body r = pop "hash" r

  abbrev pub lines_of : List (Payload F) → List (Line F)
  lines_of [] = []
  lines_of (r ∷ rs) = record_line r ∷ lines_of rs

  abbrev pub bodies : List (Payload F) → List (Payload F)
  bodies [] = []
  bodies (r ∷ rs) = body r ∷ bodies rs

  -- Records in the same place of two files have no hash in common unless they are equal.
  abbrev pub CollisionFree : (Payload F → String) → List (Payload F) → List (Payload F) → Type 0
  CollisionFree hash_record (x ∷ xs) (y ∷ ys) =
      (hash_record (body x) ≡ hash_record (body y) → body x ≡ body y)
      × CollisionFree hash_record xs ys
  CollisionFree hash_record _ _ = Unit

  -- A record that passes its check names the hash before it, and carries the hash of its body.
  pub record Sealed (hash_record : Payload F → String) (n : ℕ) (previous : Option String)
      (r : Payload F) : Type 0 where
    pub names_previous : same_hash (get_value "prev_hash" (body r)) previous ≡ true
    pub link : (check_record hash_record n previous r).1 ≡ some (hash_record (body r))

  prev_hash-body : (r : Payload F) → get_value "prev_hash" (body r) ≡ get_value "prev_hash" r
  unfolding get_value
  prev_hash-body r = ground (arith, get-pop "hash" "prev_hash" r)

  Sealed-check :
      (hash_record : Payload F → String) (n : ℕ) (previous : Option String) (r : Payload F)
      → (check_record hash_record n previous r).0 ≡ []
      → Sealed hash_record n previous r
  unfolding check_record prev_errors
  Sealed-check hash_record n previous r h =
      elim (Option-cases (nonempty_text (get_value "hash" r))) [
        | inl e ↦ ground arith
        | inr (claimed, e) ↦ ground (arith, prev_hash-body r, eq_iff (hash_record (body r)) claimed)
      ]

  same_hash_unique :
      (v : Value F) (p q : Option String) → same_hash v p ≡ true → same_hash v q ≡ true → p ≡ q
  unfolding same_hash
  same_hash_unique null none none h k = refl
  same_hash_unique null none (some q) h k = cc
  same_hash_unique null (some p) q h k = cc
  same_hash_unique (text s) none q h k = cc
  same_hash_unique (text s) (some p) none h k = cc
  same_hash_unique (text s) (some p) (some q) h k =
      ap some (sym ((eq_iff s p).0 h) ∙ (eq_iff s q).0 k)
  same_hash_unique _ p q h k = cc

  -- Two chains without errors, as long as one another and with one last hash, hold the same records,
  -- and start from the same hash, if no two records in the same place collide under the hash.
  pub last_hash_determines :
      (hash_record : Payload F → String) (n : ℕ) (p q : Option String) (xs ys : List (Payload F))
      → length xs ≡ length ys
      → CollisionFree hash_record xs ys
      → verify_from hash_record n p (lines_of xs) ≡ []
      → verify_from hash_record n q (lines_of ys) ≡ []
      → last_link hash_record n p (lines_of xs) ≡ last_link hash_record n q (lines_of ys)
      → (bodies xs ≡ bodies ys) × (p ≡ q)
  unfolding verify_from check_line last_link
  last_hash_determines hash_record n p q [] [] len free vx vy e = (refl, e)
  last_hash_determines hash_record n p q [] (y ∷ ys) len free vx vy e = absurd (omega arith)
  last_hash_determines hash_record n p q (x ∷ xs) [] len free vx vy e = absurd (omega arith)
  last_hash_determines hash_record n p q (x ∷ xs) (y ∷ ys) len free vx vy e =
      let (ex, nx) = check_record hash_record n p x in
      let (ey, ny) = check_record hash_record n q y in
      let sx = Sealed-check hash_record n p x (append-nil_left ex _ vx) in
      let sy = Sealed-check hash_record n q y (append-nil_left ey _ vy) in
      let (rest, links) =
        last_hash_determines hash_record (n + 1) nx ny xs ys (omega arith) free.1
          (append-nil_right ex _ vx) (append-nil_right ey _ vy) e in
      let same : body x ≡ body y = free.0 (cc (sx.link, sy.link, links)) in
      (
        cc (same, rest),
        same_hash_unique (get_value "prev_hash" (body x)) p q sx.names_previous
            (rw same sy.names_previous),
      )

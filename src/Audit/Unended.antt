-- ===== src/Audit/Unended.antt =====
-- A file whose last line has no newline, which the sink opens with "a" (src/audit/sink.py).
use agenthedge.Prelude.{
  ℕ, ◌+◌, ◌≡◌, ◌⊎◌, inl, inr, refl, ap, ◌∙◌, subst, false, Option, none, some, List, [], ◌∷◌, ◌++◌,
  String, Bool-cases,
}
use mathlib.Core.List.{append_assoc}
use agenthedge.Values.{Payload}
use agenthedge.Audit.{
  Line, blank, not_json, not_object, record_line, Event, JsonlFile, glue_last, append_line,
  append_all, append_record, check_line, verify_from, verify,
}
use agenthedge.Audit.Chain.{append-nil_right, last_link, verify-clean, write_all, append_all-lines}

module _ {F : Type 0} (hash_record : Payload F → String) where
  -- A line that is not JSON is reported, wherever it stands.
  pub not_json-dirty :
      (index : ℕ) (previous : Option String) (xs ys : List (Line F))
      → verify_from hash_record index previous (xs ++ (not_json ∷ ys)) ≡ []
      → ⊥
  unfolding verify_from check_line
  not_json-dirty index previous [] ys h = cc
  not_json-dirty index previous (x ∷ xs) ys h =
      let (errors, next) = check_line hash_record index previous x in
      not_json-dirty (index + 1) next xs ys (append-nil_right errors _ h)

  pub not_json-refused :
      (xs ys lines : List (Line F))
      → lines ≡ xs ++ (not_json ∷ ys)
      → (verify hash_record lines).0 ≡ false
  not_json-refused xs ys lines e = elim (Bool-cases (verify hash_record lines).0) [
    | inr n ↦ n
    | inl y ↦ absurd (
        not_json-dirty 1 none xs ys
          (subst (λ l. verify_from hash_record 1 none l ≡ []) e (verify-clean hash_record lines y)))
  ]

  -- What a record makes of the lines: a line of its own, after lines that end in the same hash, or a
  -- line that is not JSON.
  abbrev pub Taken : ℕ → Option String → Payload F → List (Line F) → List (Line F) → Type 0
  Taken index previous r old lines =
      ((ys : List (Line F)) × (lines ≡ ys ++ (record_line r ∷ []))
        × (last_link hash_record index previous ys ≡ last_link hash_record index previous old))
      ⊎ ((ys : List (Line F)) × (lines ≡ ys ++ (not_json ∷ [])))

  glue_last-Taken :
      (index : ℕ) (previous : Option String) (lines : List (Line F)) (r : Payload F)
      → Taken index previous r lines (glue_last lines r)
  unfolding glue_last last_link check_line
  glue_last-Taken index previous [] r = inl ([], refl, refl)
  glue_last-Taken index previous (blank ∷ []) r = inl ([], refl, refl)
  glue_last-Taken index previous (not_json ∷ []) r = inr ([], refl)
  glue_last-Taken index previous (not_object ∷ []) r = inr ([], refl)
  glue_last-Taken index previous (record_line p ∷ []) r = inr ([], refl)
  glue_last-Taken index previous (x ∷ y ∷ ys) r =
      let next = (check_line hash_record index previous x).1 in
      elim (glue_last-Taken (index + 1) next (y ∷ ys) r) [
        | inl (zs, e, l) ↦ inl (x ∷ zs, ap (λ l. x ∷ l) e, l)
        | inr (zs, e) ↦ inr (x ∷ zs, ap (λ l. x ∷ l) e)
      ]

  pub append_line-Taken :
      (r : Payload F) (file : JsonlFile F) → Taken 1 none r file.lines (append_line r file).lines
  unfolding append_line
  append_line-Taken r file = elim (Bool-cases file.ended) [
    | inl y ↦ inl (file.lines, rw y refl, refl)
    | inr n ↦ rw n (glue_last-Taken 1 none file.lines r)
  ]

  glue_last-record :
      (xs : List (Line F)) (p r : Payload F)
      → glue_last (xs ++ (record_line p ∷ [])) r ≡ xs ++ (not_json ∷ [])
  unfolding glue_last
  glue_last-record [] p r = refl
  glue_last-record (x ∷ []) p r = refl
  glue_last-record (x ∷ y ∷ ys) p r = ap (λ l. x ∷ l) (glue_last-record (y ∷ ys) p r)

  -- A file whose last line is a record without a newline behind it: it may verify, so that the sink opens
  -- it, but after any events that the sink then appends, one at least, it does not verify.
  pub unended_file-breaks :
      (file : JsonlFile F) (xs : List (Line F)) (p : Payload F) (event : Event F)
      (events : List (Event F)) (last : Option String)
      → file.lines ≡ xs ++ (record_line p ∷ [])
      → file.ended ≡ false
      → (verify hash_record (append_all hash_record (event ∷ events) last file).lines).0 ≡ false
  unfolding append_all append_line
  unended_file-breaks file xs p event events last e open_end =
      let (r, hash) = append_record hash_record event last in
      let rest = write_all hash_record events (some hash) in
      let first : (append_line r file).lines ≡ xs ++ (not_json ∷ []) =
        rw (open_end, e) (glue_last-record xs p r) in
      not_json-refused xs rest
        (append_all hash_record events (some hash) (append_line r file)).lines
        (append_all-lines hash_record events (some hash) (append_line r file) refl
          ∙ ap (λ ls. ls ++ rest) first
          ∙ append_assoc xs (not_json ∷ []) rest)

-- ===== src/Audit/Tests.antt =====
-- A small chain, and the theorems at it.
use agenthedge.Prelude.{
  ℕ, ◌≡◌, ◌≢◌, refl, true, false, Option, none, some, [], ◌∷◌, String, get, put, pop, ◌==◌, eq_iff,
  Bool-cases, Bool, ok, inl, inr, if◌then◌else◌,
}
use agenthedge.Values.{nonempty_text, Value, text, Payload, get_value}
use agenthedge.Audit.{
  Event, record_line, append_record, audit_record, verify, verify_from, check_line, initialize,
  read_last_hash, JsonlFile, append_all, same_hash,
}
use agenthedge.Audit.Chain.{resume-verifies, last_link}
use agenthedge.Audit.Unended.{unended_file-breaks}
use agenthedge.Audit.Race.{Sink, overlapping, overlapping-breaks}
use agenthedge.Audit.Tamper.{bodies, last_hash_determines}

-- a stand-in for the digest: it tells the two events apart
abbrev digest_text : Value ℕ → String
digest_text (text s) = if s == "execution_fill" then "aa" else "bb"
digest_text _ = "cc"

abbrev digest : Payload ℕ → String
digest r = digest_text (get_value "action" r)

abbrev event : String → Event ℕ
event name = record { event_id = "e"; timestamp = "t"; action = name; payload = []; metadata = [] }

abbrev first : Payload ℕ
first = (append_record digest (event "execution_fill") none).0

abbrev second : Payload ℕ
second = (append_record digest (event "execution_reject") (some "aa")).0

filled_text : (v : Value ℕ) → digest_text v ≢ ""
filled_text (text s) e = elim (Bool-cases (s == "execution_fill")) [
  | inl y ↦ cc ((eq_iff "aa" "").1 (rw y at e))
  | inr n ↦ cc ((eq_iff "bb" "").1 (rw n at e))
]
filled_text _ e = cc ((eq_iff "cc" "").1 e)

digest_solid : (r : Payload ℕ) → digest r ≢ ""
digest_solid r = filled_text (get_value "action" r)

-- a file of one record, with its newline or without
abbrev one_line : Bool → JsonlFile ℕ
one_line ended = record { lines = record_line first ∷ []; ended = ended }

resume-verifies_example :
    verify digest
      (append_all digest (event "execution_reject" ∷ []) (some "aa") (one_line true)).lines
    ≡ (true, [])
unfolding append_record audit_record initialize verify read_last_hash nonempty_text get put pop
    verify_from check_line same_hash
resume-verifies_example =
    resume-verifies digest (one_line true) (some "aa") (event "execution_reject" ∷ []) digest_solid
      refl (inr refl)

-- The file verifies, and the sink opens it, before the first event is glued to its line.
unended_run : initialize digest (one_line false).lines ≡ ok (some "aa")
unfolding append_record audit_record initialize verify read_last_hash nonempty_text get put pop
    verify_from check_line same_hash
unended_run = refl

unended_file-breaks_example :
    (verify digest
      (append_all digest (event "execution_reject" ∷ []) (some "aa") (one_line false)).lines).0
    ≡ false
unended_file-breaks_example =
    unended_file-breaks digest (one_line false) [] first (event "execution_reject") [] (some "aa")
      refl refl

last_hash_determines_example :
    (bodies (first ∷ second ∷ []) ≡ bodies (first ∷ second ∷ []))
    × (◌≡◌ {A = Option String} none none)
unfolding append_record audit_record verify_from check_line nonempty_text get put pop same_hash
    last_link
last_hash_determines_example =
    last_hash_determines digest 1 none none (first ∷ second ∷ []) (first ∷ second ∷ []) refl
      ((λ e. refl), ((λ e. refl), tt)) refl refl refl

abbrev unwritten : Sink ℕ
unwritten = record { last_hash = none; file = record { lines = []; ended = true } }

overlapping-breaks_example :
    (verify digest
      (overlapping digest
        (event "execution_fill")
        (event "execution_reject")
        unwritten).file.lines).0
    ≡ false
unfolding last_link same_hash
overlapping-breaks_example =
    overlapping-breaks digest (event "execution_fill") (event "execution_reject") unwritten
      digest_solid refl refl

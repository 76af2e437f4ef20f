-- ===== src/Audit.antt =====
-- The hash-chained audit log (src/audit/sink.py). `_hash_record` (SHA-256 of the canonical JSON) and
-- the JSON coding of a line are parameters; a line is what `json.loads` makes of it.
pub mod Chain
pub mod Tamper
pub mod Race
pub mod Unended
mod Tests
use agenthedge.Prelude.{
  ℕ, zero, suc, ◌+◌, Bool, true, false, not, Option, none, some, List, [], ◌∷◌, ◌++◌, String, get,
  put, pop, if◌then◌else◌, ◌==◌, Result, ok, err,
}
use agenthedge.Values.{Value, null, text, object, Payload, get_value, nonempty_text, of_dict}

-- a line of the file: blank, not JSON, JSON but no object, or a record
pub data Line (F : Type 0) : Type 0 where
  blank : Line F
  not_json : Line F
  not_object : Line F
  record_line : Payload F → Line F

-- the messages of `verify_jsonl_hash_chain`, with their line numbers
pub data ChainError : Type 0 where
  invalid_json : ℕ → ChainError
  expected_object : ℕ → ChainError
  prev_hash_mismatch : ℕ → ChainError
  missing_hash : ℕ → ChainError
  hash_mismatch : ℕ → ChainError

-- what a record must supply: its id, its time and its fields from the metadata
pub record Event (F : Type 0) : Type 0 where
  pub event_id : String
  pub timestamp : String
  pub action : String
  pub payload : Payload F
  pub metadata : Payload F

-- the lines of the file, and whether the last one ends in a newline
pub record JsonlFile (F : Type 0) : Type 0 where
  pub lines : List (Line F)
  pub ended : Bool

abbrev pub or_else : Option String → Option String → Option String
or_else (some s) other = some s
or_else none other = other

module _ {F : Type 0} where
  -- `_resolve_context_ref`
  unfoldable pub resolve_context_ref : Payload F → Option String
  unfolding nonempty_text get_value
  resolve_context_ref payload = or_else (nonempty_text (get_value "decision_id" payload)) (
      or_else (nonempty_text (get_value "proposal_id" payload))
        (nonempty_text (get_value "directive_id" payload)))

  abbrev pub hash_value : Option String → Value F
  hash_value none = null
  hash_value (some h) = text h

  -- `value if isinstance(value, dict) else None`
  unfoldable pub dict_or_none : Value F → Value F
  dict_or_none (object fields) = object fields
  dict_or_none _ = null

  -- the record of `__call__`, before its hash is added
  unfoldable pub audit_record : Event F → Option String → Payload F
  unfolding dict_or_none get_value resolve_context_ref of_dict
  audit_record event last_hash =
      ("event_id", text event.event_id)
      ∷ ("timestamp", text event.timestamp)
      ∷ ("agent_id", get_value "agent_id" event.metadata)
      ∷ ("run_id", get_value "run_id" event.metadata)
      ∷ ("environment", get_value "environment" event.metadata)
      ∷ ("event_type", text event.action)
      ∷ ("context_ref", hash_value (resolve_context_ref event.payload))
      ∷ ("inputs", dict_or_none (get_value "data_metadata" event.payload))
      ∷ ("approvals", dict_or_none (get_value "approvals" event.payload))
      ∷ ("action", text event.action)
      ∷ ("payload", object (of_dict event.payload))
      ∷ ("prev_hash", hash_value last_hash)
      ∷ []

  -- `actual_prev != previous_hash`, for a value against an optional string
  unfoldable pub same_hash : Value F → Option String → Bool
  same_hash null none = true
  same_hash (text s) (some h) = s == h
  same_hash _ _ = false

  -- a record right behind a line that has no newline: a blank line is stripped, and anything else with
  -- a record behind it is not JSON
  abbrev pub glued : Line F → Payload F → Line F
  glued blank r = record_line r
  glued _ r = not_json

  unfoldable pub glue_last : List (Line F) → Payload F → List (Line F)
  glue_last [] r = record_line r ∷ []
  glue_last (x ∷ []) r = glued x r ∷ []
  glue_last (x ∷ y ∷ ys) r = x ∷ glue_last (y ∷ ys) r

  -- a record and its newline, written at the end of the file
  unfoldable pub append_line : Payload F → JsonlFile F → JsonlFile F
  unfolding glue_last
  append_line r file = record {
    lines = if file.ended then file.lines ++ (record_line r ∷ []) else glue_last file.lines r;
    ended = true;
  }

  module _ (hash_record : Payload F → String) where
    -- `__call__`: the line that is appended, and the hash that the sink keeps
    unfoldable pub append_record : Event F → Option String → Payload F × String
    append_record event last_hash =
        let r = audit_record event last_hash in let h = hash_record r in (put "hash" (text h) r, h)

    unfoldable pub prev_errors : ℕ → Option String → Payload F → List ChainError
    prev_errors index previous r =
        if same_hash (get_value "prev_hash" r) previous then [] else prev_hash_mismatch index ∷ []

    -- the errors of one record and the hash that the next one has to name
    unfoldable pub check_record : ℕ → Option String → Payload F → List ChainError × Option String
    unfolding prev_errors
    check_record index previous r =
        let linked = prev_errors index previous r in
        elim (nonempty_text (get_value "hash" r)) [
          | none ↦ (linked ++ (missing_hash index ∷ []), none)
          | some claimed ↦ (
            linked
                ++ (if hash_record (pop "hash" r) == claimed then [] else hash_mismatch index ∷ []),
            some claimed,
          )
        ]

    unfoldable pub check_line : ℕ → Option String → Line F → List ChainError × Option String
    unfolding check_record
    check_line index previous blank = ([], previous)
    check_line index previous not_json = (invalid_json index ∷ [], previous)
    check_line index previous not_object = (expected_object index ∷ [], previous)
    check_line index previous (record_line r) = check_record index previous r

    -- `verify_jsonl_hash_chain` from a line number and the hash before it
    unfoldable pub verify_from : ℕ → Option String → List (Line F) → List ChainError
    verify_from index previous [] = []
    verify_from index previous (line ∷ lines) =
        let (errors, next) = check_line index previous line in
        errors ++ verify_from (index + 1) next lines

    unfoldable pub verify : List (Line F) → Bool × List ChainError
    verify lines =
        let errors = verify_from 1 none lines in (elim errors [ [] ↦ true | _ ↦ false ], errors)

    -- the last non-empty `hash` of the records before a line that is not JSON, where `json.loads`
    -- raises
    unfoldable pub read_last_hash :
        Option String → List (Line F) → Result (Unit {0}) (Option String)
    read_last_hash last [] = ok last
    read_last_hash last (blank ∷ lines) = read_last_hash last lines
    read_last_hash last (not_json ∷ lines) = err tt
    read_last_hash last (not_object ∷ lines) = read_last_hash last lines
    read_last_hash last (record_line r ∷ lines) =
        read_last_hash (or_else (nonempty_text (get_value "hash" r)) last) lines

    -- `_initialize_last_hash` of a file that is there: no line is the empty file
    unfoldable pub initialize : List (Line F) → Result (Unit {0}) (Option String)
    unfolding verify
    initialize [] = ok none
    initialize (line ∷ lines) =
        if (verify (line ∷ lines)).0 then read_last_hash none (line ∷ lines) else err tt

    -- `handle.write(f"{line}\n")` of a file opened with "a", for each event
    unfoldable pub append_all : List (Event F) → Option String → JsonlFile F → JsonlFile F
    unfolding append_line
    append_all [] last_hash file = file
    append_all (event ∷ events) last_hash file =
        let (r, h) = append_record event last_hash in
        append_all events (some h) (append_line r file)

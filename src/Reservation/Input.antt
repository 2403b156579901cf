-- ===== src/Reservation/Input.antt =====
-- What a reservation transition may ask: validateReservationInput and ReservationBinding.validate
-- (internal/store/task_reservations.go), ReservationCoordination.validate
-- (task_reservation_coordination.go), RecoveryEvidence.validate and validateRecovery
-- (task_reservation_recovery.go).
use aimem.Prelude.{
  ℕ, Bool, true, false, not, ◌&&◌, ◌||◌, [], ◌∷◌, Option, none, some, Bytes, bytes, str_eq, ltb,
  leb, ◌==◌, if◌then◌else◌, length, all, is_some,
}
use aimem.Text.{task_text, full_task_id}
use aimem.Text.Utf8.{runes}
use aimem.Json.{Value, Fields, str, num, arr, obj, end, field, texts}
use aimem.Reason.{
  Reason, task_and_revision, holder_misplaced, claim_fields, id_and_fence, content_missing,
  content_misplaced, release_state, terminal_needs_finalize, finalize_state, evidence_misplaced,
  evidence_count, done_needs_evidence, intent_misplaced, bad_intent, binding_user,
  binding_incomplete, coord_reference, coord_work_ref, coord_intended, coord_worker, coord_process,
  coord_path, coord_evidence, unknown_operation,
}
use aimem.Task.{TaskContent}
use aimem.Task.State
use aimem.Task.Content.{
  Platform, ◌then_check◌, refuse_if, named, first_of_all, validate_content, content_json,
}
use aimem.Reservation.{
  Operation, valid_operation, is_claim, is_transfer, is_update, is_release, is_finalize, Binding,
  ReservationInput, Coordination, RecoveryEvidence, is_empty, evidence_list,
}

abbrev pub content_state : Option TaskContent → Bytes
content_state none = []
content_state (some c) = c.state

abbrev pub is_terminal : Bytes → Bool
is_terminal s = str_eq s State.done || str_eq s State.cancelled

abbrev content_check : Platform → Option TaskContent → Option Reason
content_check p none = some content_missing
content_check p (some c) = validate_content p c

abbrev pub intent_check : Operation → Bytes → Option Reason
intent_check op intent =
    if is_empty intent
    then none
    else refuse_if (not (is_update op)) intent_misplaced
      then_check refuse_if
          (not (
            str_eq intent (bytes "block")
            || str_eq intent (bytes "submit")
            || str_eq intent (bytes "resume")))
          bad_intent

module _ (p : Platform) (op : Operation) (input : ReservationInput) where
  unfoldable pub text : Bytes → Bytes → ℕ → Bool → Option Reason
  text k s max required = named k (task_text p.refuses s max required)

  unfoldable pub holder_check : Option Reason
  unfolding text
  holder_check =
      if is_claim op || is_transfer op
      then text (bytes "holder mode") input.holder.mode 64 true
        then_check text (bytes "holder reference") input.holder.ref 256 true
      else refuse_if (not (is_empty input.holder.mode && is_empty input.holder.ref))
          holder_misplaced

  unfoldable pub hold_check : Option Reason
  hold_check =
      if is_claim op
      then refuse_if
          (not (is_empty input.id)
            || not (input.fence == 0)
            || is_some input.content
            || not (is_empty input.reason))
          claim_fields
      else refuse_if (not (full_task_id input.id) || ltb input.fence 1) id_and_fence

  unfoldable pub content_rule : Option Reason
  content_rule =
      if is_update op || is_release op || is_finalize op
      then content_check p input.content
      else refuse_if (is_some input.content) content_misplaced

  unfoldable pub state_rule : Option Reason
  unfolding text
  state_rule =
      (if is_release op || is_finalize op
        then text (bytes "reason") input.reason 4096 true
        else none)
      then_check refuse_if
          (is_release op
            && not (
                str_eq (content_state input.content) State.ready
                || str_eq (content_state input.content) State.blocked))
          release_state
      then_check refuse_if (is_update op && is_terminal (content_state input.content))
          terminal_needs_finalize
      then_check refuse_if (is_finalize op && not (is_terminal (content_state input.content)))
          finalize_state

  unfoldable pub evidence_rule : Option Reason
  unfolding text
  evidence_rule =
      refuse_if (not (is_finalize op) && is_some input.terminal_evidence) evidence_misplaced
      then_check refuse_if (ltb 16 (length (evidence_list input.terminal_evidence))) evidence_count
      then_check first_of_all (λ e. text (bytes "terminal evidence") e 512 true)
          (evidence_list input.terminal_evidence)
      then_check refuse_if
          (is_finalize op
            && str_eq (content_state input.content) State.done
            && (length (evidence_list input.terminal_evidence) == 0))
          done_needs_evidence

  -- validateReservationInput.
  unfoldable pub validate_reservation_input : Option Reason
  unfolding text holder_check hold_check content_rule state_rule evidence_rule
  validate_reservation_input =
      refuse_if (not (valid_operation op)) unknown_operation
      then_check refuse_if (not (full_task_id input.task_id) || ltb input.expected_revision 1)
          task_and_revision
      then_check text (bytes "reason") input.reason 4096 false
      then_check holder_check
      then_check hold_check
      then_check content_rule
      then_check state_rule
      then_check evidence_rule
      then_check intent_check op input.intent

-- ReservationBinding.validate.
unfoldable pub validate_binding : Binding → Option Reason
validate_binding b =
    if is_empty b.user_id
    then some binding_user
    else if (str_eq b.mode (bytes "personal") || str_eq b.mode (bytes "recovery"))
        && (is_empty b.service_id
            && is_empty b.profile_id
            && is_empty b.team_id
            && is_empty b.role
            && is_empty b.session_id
            && is_empty b.generation)
    then none
    else if str_eq b.mode (bytes "team")
        && (not (is_empty b.service_id)
            && not (is_empty b.profile_id)
            && not (is_empty b.team_id)
            && not (is_empty b.role)
            && not (is_empty b.session_id)
            && not (is_empty b.generation))
    then none
    else some binding_incomplete

url_char : ℕ → Bool
url_char c =
    (leb b'A' c && leb c b'Z')
    || (leb b'a' c && leb c b'z')
    || (leb b'0' c && leb c b'9')
    || c == b'_'
    || c == b'-'

-- proofDigestRE and evidenceDigestRE: two characters, `_`, and 43 of base64url.
digest_of : ℕ → Bytes → Bool
unfolding url_char
digest_of kind (a ∷ b ∷ c ∷ s) =
    (a == kind) && (b == b'1') && (c == b'_') && (all url_char s && (length s == 43))
digest_of kind _ = false

xor : Bool → Bool → Bool
xor true b = not b
xor false b = b

-- ReservationCoordination.validate.
unfoldable pub validate_coordination : Operation → Coordination → Option Reason
unfolding digest_of xor
validate_coordination op c =
    let kind = c.reference.kind in
    let starts_work =
      str_eq kind (bytes "offer")
      || str_eq kind (bytes "accepted_attempt")
      || str_eq kind (bytes "independent_claim") in
    refuse_if (is_empty kind || not (digest_of b'p' c.reference.proof_digest)) coord_reference
    then_check refuse_if (xor (not (is_claim op)) (not (is_empty c.work_ref))) coord_work_ref
    then_check refuse_if
        (xor (is_some c.intended_worker) (is_claim op && str_eq kind (bytes "offer")))
        coord_intended
    then_check refuse_if (xor (is_some c.worker) (is_transfer op)) coord_worker
    then_check refuse_if (xor (is_some c.process) starts_work) coord_process
    then_check refuse_if (c.coordinator && not (is_release op) && not (is_finalize op)) coord_path
    then_check refuse_if
        (xor (not (is_empty c.reference.evidence_digest))
            (str_eq kind (bytes "accepted_for_finalization"))
          || (not (is_empty c.reference.evidence_digest)
              && not (digest_of b'e' c.reference.evidence_digest)))
        coord_evidence

-- RecoveryEvidence.validate; false is ErrRecoveryEvidence.
unfoldable pub valid_evidence : Platform → RecoveryEvidence → Bool
unfolding digest_of
valid_evidence p e =
    if str_eq e.kind (bytes "stop_evidence")
    then digest_of b'p' e.ref && is_empty e.statement
    else if str_eq e.kind (bytes "attestation")
    then elim (runes e.statement) [
      | none ↦ false
      | some rs ↦
          not (is_some (task_text p.refuses e.ref 128 true))
          && not (is_some (task_text p.refuses e.statement 8192 true))
          && leb 16 (length rs)
          && leb (length rs) 2048
    ]
    else false

abbrev opt_text : Bytes → Bytes → Fields → Fields
opt_text k v rest = if is_empty v then rest else field k (str v) rest

abbrev optional_content : Option TaskContent → Fields → Fields
optional_content none rest = rest
optional_content (some c) rest = field (bytes "content") (content_json c) rest

-- The JSON of an input, by the struct tags of TaskReservationInput. A zero fence and an empty list,
-- which `omitempty` leaves out, are left out by the digest.
unfoldable pub input_json : ReservationInput → Value
input_json i = obj (
    field (bytes "task_id") (str i.task_id) (
      opt_text (bytes "reservation_id") i.id (
        field (bytes "fence") (num i.fence) (
          field (bytes "expected_revision") (num i.expected_revision) (
            field (bytes "holder")
              (obj (
                field (bytes "mode") (str i.holder.mode)
                  (field (bytes "ref") (str i.holder.ref) end)))
              (optional_content i.content (
                opt_text (bytes "reason") i.reason (
                  field (bytes "terminal_evidence")
                    (arr (texts (evidence_list i.terminal_evidence)))
                    (opt_text (bytes "intent") i.intent end)))))))))

unfoldable pub evidence_json : RecoveryEvidence → Value
evidence_json e = obj (
    field (bytes "kind") (str e.kind)
      (field (bytes "ref") (str e.ref) (opt_text (bytes "statement") e.statement end)))

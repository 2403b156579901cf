-- ===== src/Reason.antt =====
-- Why the task store refuses an input: the messages that `invalid` wraps (internal/store/tasks.go,
-- taskrefs.go, task_triage.go, epics.go, task_reservations.go,
-- task_reservation_coordination.go), one constructor for each.
use aimem.Prelude.{ℕ, Bytes}
use aimem.Text.{TextError}

pub data Reason : Type 0 where
  bad_text : Bytes → TextError → Reason
  bad_key : TextError → Reason
  expected_revision : Reason
  bad_state archived_open bad_assignee bad_epic bad_capability too_many bad_dependency : Reason
  too_big : ℕ → Reason
  ref_kind ref_scope_kind ref_scope ref_task ref_doc ref_record ref_url : Reason
  epic_missing epic_retired bad_epic_state : Reason
  triage_empty triage_target triage_source : Reason
  task_and_revision holder_misplaced claim_fields id_and_fence content_missing content_misplaced :
      Reason
  release_state terminal_needs_finalize finalize_state evidence_misplaced : Reason
  evidence_count done_needs_evidence intent_misplaced bad_intent : Reason
  binding_user binding_incomplete recovery_binding claim_entry : Reason
  coord_reference coord_work_ref coord_intended coord_worker coord_process coord_path
        coord_evidence :
      Reason
  unknown_operation recovery_target recovery_evidence_list stop_without_holder : Reason

-- ===== src/Ledger/Closes.antt =====
-- RecoverTaskReservation as a whole (internal/store/task_reservation_recovery.go): it closes the hold
-- it names, and never completes the task.
use aimem.Prelude.{
  ℕ, ◌+◌, ◌≡◌, ap, ◌∙◌, true, false, not, ◌&&◌, ◌⊎◌, inl, inr, [], Option, none, some, Bytes, bytes,
  str_eq, str_eq_iff, str_eq_refl, arith, is_some,
}
use mathlib.Core.Path.{subst}
use aimem.Reason.{recovery_evidence_list, stop_without_holder, recovery_target}
use aimem.Task.{TaskActor}
use aimem.Task.State
use aimem.Task.Content.{Platform}
use aimem.Error.{Error, ok, invalid, recovery_evidence}
use aimem.Db.{Db, bind_result-eq-ok, check_input-then, refuse_when-then}
use aimem.Reservation.{
  Operation, claim, transfer, update, release, finalize, recovery_release, recovery_cancel, unknown,
  is_empty, TaskReservation, ReservationInput, RecoveryEvidence, Outcome,
}
use aimem.Reservation.Input.{
  validate_reservation_input, valid_evidence, evidence_json, content_state,
}
use aimem.Reservation.Rules.{valid-release, then_check-none, refuse_if-none}
use aimem.Ledger.{find_hold}
use aimem.Ledger.Apply.{reservation_mutation}
use aimem.Ledger.Recover.{
  recovery_input_check, validate_recovery, recover_effect, recovery_caller,
  recover_task_reservation,
}
use aimem.Ledger.Moves.{Keeps}
use aimem.Ledger.Receipts.{Accepted, served, ran, mutation-Accepted}
use aimem.Ledger.Fence.{Advances, Advanced-Advances}
use aimem.Ledger.Recovered.{Recoverable, Recovery, recover_effect-Recovery}

-- A recovery asks for READY, BLOCKED or CANCELLED.
recovery_state :
    (p : Platform) (op : Operation) (i : ReservationInput)
    → recovery_input_check p op i ≡ none
    → str_eq (content_state i.content) State.done ≡ false
recovery_state p recovery_release i h = ground (
  arith,
  valid-release p i h,
  str_eq_iff (content_state i.content) State.ready,
  str_eq_iff (content_state i.content) State.blocked,
  str_eq_iff (content_state i.content) State.done,
)
recovery_state p recovery_cancel i h =
    let (_, h₁) = then_check-none (validate_reservation_input p finalize i) _ h in
    ground (
      arith,
      refuse_if-none (not (str_eq (content_state i.content) State.cancelled)) recovery_target h₁,
      str_eq_iff (content_state i.content) State.cancelled,
      str_eq_iff (content_state i.content) State.done,
    )
recovery_state p claim i h = cc
recovery_state p transfer i h = cc
recovery_state p update i h = cc
recovery_state p release i h = cc
recovery_state p finalize i h = cc
recovery_state p (unknown s) i h = cc

module _ (p : Platform) (i : ReservationInput) (e : RecoveryEvidence) (actor : TaskActor)
    (op : Operation) (key : Bytes) (authorize : Option Error) (now : Bytes) where
  pub recover-checked :
      (db : Db) {out : Outcome} {db' : Db}
      → recover_task_reservation p i e actor op key authorize now db ≡ ok (out, db')
      → (recovery_input_check p op i ≡ none)
        × (valid_evidence p e ≡ true)
        × (reservation_mutation p op
              (recovery_caller p i e actor key authorize)
              i
              (some (evidence_json e))
              now
              (recover_effect p i e actor op now)
              db
            ≡ ok (out, db'))
  unfolding recover_task_reservation validate_recovery
  recover-checked db h =
      let (_, db₁, checked, h₁) = bind_result-eq-ok (validate_recovery p i e actor op db) _ h in
      let (valid, k₁) = check_input-then _ db (recovery_input_check p op i) checked in
      let (_, k₂) =
        refuse_when-then _ db (is_some i.terminal_evidence) (invalid recovery_evidence_list) k₁ in
      let (evidence, k₃) = refuse_when-then _ db (not (valid_evidence p e)) recovery_evidence k₂ in
      let same : db₁ ≡ db = ground arith in
      let (_, h₂) =
        refuse_when-then _ db₁ (str_eq e.kind (bytes "stop_evidence") && is_empty e.holder_ref)
          (invalid stop_without_holder) h₁ in
      (valid, ground arith, rw same at h₂)

  -- A recovery that was made now, as equations on what it left.
  pub record Closed (db : Db) (out : Outcome) (db' : Db) : Type 0 where
    pub made : Outcome
    pub mid : Db
    pub recovery : Recovery p i e actor op now db made mid
    pub new_task : out.task ≡ made.task
    pub new_hold : out.reservation ≡ made.reservation
    pub added : db' ≡ record mid { reservation_requests = db'.reservation_requests }

  pub recover-cases :
      (db : Db) {out : Outcome} {db' : Db}
      → recover_task_reservation p i e actor op key authorize now db ≡ ok (out, db')
      → ((db' ≡ db) × (out.replayed ≡ true)) ⊎ Closed db out db'
  recover-cases db {out} {db'} h =
      go
        (mutation-Accepted p op (recovery_caller p i e actor key authorize) i
          (some (evidence_json e)) now (recover_effect p i e actor op now) db
          (recover-checked db h).2).1
    where
      go :
          Accepted p op
            (recovery_caller p i e actor key authorize)
            i
            (some (evidence_json e))
            now
            (recover_effect p i e actor op now)
            db
            out
            db'
          → ((db' ≡ db) × (out.replayed ≡ true)) ⊎ Closed db out db'
      go (served a r principal found s) = inl (s.unchanged, ap (λ o. o.replayed) s.result)
      go (ran a principal missing one) = inr (record {
        made = one.made;
        mid = one.mid;
        recovery = recover_effect-Recovery p i e actor op now db one.effect;
        new_task = ap (λ o. o.task) one.result;
        new_hold = ap (λ o. o.reservation) one.result;
        added = ground (arith, one.added);
      })

  pub recover-Closed :
      (db : Db) {out : Outcome} {db' : Db}
      → recover_task_reservation p i e actor op key authorize now db ≡ ok (out, db')
      → out.replayed ≡ false
      → Closed db out db'
  recover-Closed db h first = elim (recover-cases db h) [ inl (same, again) ↦ cc | inr f ↦ f ]

  pub recover-Advances :
      (db : Db) {out : Outcome} {db' : Db}
      → Closed db out db'
      → Advances i.task_id i.expected_revision db out.reservation db'
  unfolding find_hold
  recover-Advances db {out} {db'} f =
      let t : Recovery p i e actor op now db f.made f.mid = f.recovery in
      let before : TaskReservation = find_hold i.task_id t.old.revision db in
      let keeps : Keeps before db t.hold t.mid = ground (arith, t.wrote.hold, t.wrote.tables) in
      let a : Advances i.task_id t.old.revision db f.made.reservation f.mid =
        Advanced-Advances i.task_id t.old.revision db t.mid t.task t.hold keeps t.ends in
      record {
        next_fence =
            ap (λ r. r.fence) f.new_hold
            ∙ a.next_fence
            ∙ ap (λ v. (find_hold i.task_id v db).fence + 1) t.current;
        own_task = ap (λ r. r.task_id) f.new_hold ∙ a.own_task;
        reads = λ j rev'. rw (f.added) (rw (f.new_hold) (a.reads j rev'));
      }

  -- A recovery that was made now (not replayed) found the hold that its input names, by id and fence,
  -- and, with stop evidence, the work reference of that evidence; it leaves no hold, takes the
  -- next fence, and the task is not DONE.
  pub recover_closes :
      (db : Db) {out : Outcome} {db' : Db}
      → recover_task_reservation p i e actor op key authorize now db ≡ ok (out, db')
      → out.replayed ≡ false
      → Recoverable p i e actor (find_hold i.task_id i.expected_revision db)
        × (out.reservation.fence ≡ i.fence + 1)
        × ((rev : ℕ) → is_empty (find_hold i.task_id rev db').id ≡ true)
        × (str_eq out.task.content.state State.done ≡ false)
  unfolding is_empty
  recover_closes db {out} {db'} h first =
      let f : Closed db out db' = recover-Closed db h first in
      let t : Recovery p i e actor op now db f.made f.mid = f.recovery in
      let a : Advances i.task_id i.expected_revision db out.reservation db' =
        recover-Advances db f in
      let ok_hold : Recoverable p i e actor (find_hold i.task_id i.expected_revision db) =
        subst (λ v. Recoverable p i e actor (find_hold i.task_id v db)) t.current t.recoverable in
      let state : out.task.content.state ≡ content_state i.content =
        ground (arith, f.new_task, t.ends.task, t.wrote.task, t.wrote.given) in
      let gone : out.reservation.id ≡ [] =
        ground (arith, f.new_hold, t.ends.reservation, t.wrote.hold) in
      (
        ok_hold,
        a.next_fence ∙ ap (λ n. n + 1) ok_hold.same_fence,
        λ rev. ground (arith, a.reads i.task_id rev, str_eq_refl i.task_id),
        rw state (recovery_state p op i (recover-checked db h).0),
      )

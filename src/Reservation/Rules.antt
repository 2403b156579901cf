-- ===== src/Reservation/Rules.antt =====
-- What a valid input of a transition says (validateReservationInput of
-- internal/store/task_reservations.go).
use aimem.Prelude.{
  ◌≡◌, refl, Bool, true, false, not, ◌&&◌, ◌||◌, List, Option, none, some, Bytes, bytes, str_eq,
  ltb, ◌==◌, length, arith,
}
use aimem.Text.{full_task_id}
use aimem.Reason.{Reason, unknown_operation, evidence_count, done_needs_evidence, task_and_revision}
use aimem.Task.State
use aimem.Task.Content.{Platform, ◌then_check◌, refuse_if, first_of_all}
use aimem.Reservation.{
  Operation, update, release, finalize, valid_operation, ReservationInput, evidence_list,
}
use aimem.Reservation.Input.{
  text, holder_check, hold_check, content_rule, state_rule, evidence_rule,
  validate_reservation_input, content_state, is_terminal,
}

pub then_check-none : (a b : Option Reason) → (a then_check b) ≡ none → (a ≡ none) × (b ≡ none)
then_check-none none b h = (refl, h)
then_check-none (some r) b h = cc

pub refuse_if-none : (bad : Bool) (r : Reason) → refuse_if bad r ≡ none → bad ≡ false
refuse_if-none true r h = cc
refuse_if-none false r h = refl

module _ (p : Platform) (op : Operation) (i : ReservationInput) where
  -- The rules that a valid input passes.
  pub record Passes : Type 0 where
    pub known : valid_operation op ≡ true
    pub holder : holder_check p op i ≡ none
    pub hold : hold_check p op i ≡ none
    pub content : content_rule p op i ≡ none
    pub state : state_rule p op i ≡ none
    pub evidence : evidence_rule p op i ≡ none

  pub valid-Passes : validate_reservation_input p op i ≡ none → Passes
  unfolding validate_reservation_input
  valid-Passes h =
      let (known, h₁) =
        then_check-none (refuse_if (not (valid_operation op)) unknown_operation) _ h in
      let (_, h₂) =
        then_check-none
          (refuse_if (not (full_task_id i.task_id) || ltb i.expected_revision 1) task_and_revision)
          _ h₁ in
      let (_, h₃) = then_check-none (text p op i (bytes "reason") i.reason 4096 false) _ h₂ in
      let (holder, h₄) = then_check-none (holder_check p op i) _ h₃ in
      let (hold, h₅) = then_check-none (hold_check p op i) _ h₄ in
      let (content, h₆) = then_check-none (content_rule p op i) _ h₅ in
      let (state, h₇) = then_check-none (state_rule p op i) _ h₆ in
      let (evidence, _) = then_check-none (evidence_rule p op i) _ h₇ in
      record {
        known = ground (arith, refuse_if-none (not (valid_operation op)) unknown_operation known);
        holder = holder;
        hold = hold;
        content = content;
        state = state;
        evidence = evidence;
      }

module _ (p : Platform) (i : ReservationInput) where
  -- A valid update keeps the task open.
  pub valid-update :
      validate_reservation_input p update i ≡ none → is_terminal (content_state i.content) ≡ false
  unfolding state_rule
  valid-update h = ground (arith, (valid-Passes p update i h).state)

  -- A valid release leaves READY or BLOCKED.
  pub valid-release :
      validate_reservation_input p release i ≡ none
      → (str_eq (content_state i.content) State.ready
          || str_eq (content_state i.content) State.blocked)
        ≡ true
  unfolding state_rule
  valid-release h = ground (arith, (valid-Passes p release i h).state)

  -- A valid finalize leaves DONE or CANCELLED, and DONE with evidence.
  pub valid-finalize :
      validate_reservation_input p finalize i ≡ none
      → (is_terminal (content_state i.content) ≡ true)
        × ((str_eq (content_state i.content) State.done
              && (length (evidence_list i.terminal_evidence) == 0))
            ≡ false)
  unfolding state_rule evidence_rule
  valid-finalize h =
      let passes : Passes p finalize i = valid-Passes p finalize i h in
      let es : List Bytes = evidence_list i.terminal_evidence in
      let (_, h₁) =
        then_check-none (refuse_if (ltb 16 (length es)) evidence_count) _ passes.evidence in
      let (_, h₂) =
        then_check-none
          (first_of_all (λ e. text p finalize i (bytes "terminal evidence") e 512 true) es) _ h₁ in
      (
        ground (arith, passes.state),
        refuse_if-none (str_eq (content_state i.content) State.done && (length es == 0))
            done_needs_evidence h₂,
      )

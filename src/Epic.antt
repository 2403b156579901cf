-- ===== src/Epic.antt =====
-- Epics as internal/store/epics.go declares them, and EpicContent.validate.
use aimem.Prelude.{ℕ, false, true, ◌&&◌, not, Option, Bytes, bytes, str_eq, if◌then◌else◌, []}
use aimem.Text.{task_text}
use aimem.Reason.{Reason, bad_epic_state}
use aimem.Json.{Value, str, obj, end, field}
use aimem.Task.{TaskActor, max_task_title_bytes}
use aimem.Task.Content.{Platform, ◌then_check◌, refuse_if, named}

abbrev pub max_epic_text_bytes : ℕ
max_epic_text_bytes = 8192

abbrev pub open_state : Bytes
open_state = bytes "OPEN"

abbrev pub retired_state : Bytes
retired_state = bytes "RETIRED"

pub record EpicContent : Type 0 where
  pub title : Bytes
  pub objective : Bytes
  pub state : Bytes
  pub target : Bytes

pub record Epic : Type 0 where
  pub id : Bytes
  pub revision : ℕ
  pub content : EpicContent
  pub created_at : Bytes
  pub updated_at : Bytes

pub record EpicChange : Type 0 where
  pub epic : Epic
  pub actor : TaskActor

-- The default that EpicContent.validate writes into an empty state.
unfoldable pub with_default_state : EpicContent → EpicContent
with_default_state c = if str_eq c.state [] then record c { state = open_state } else c

-- EpicContent.validate, on a content whose state is already defaulted.
unfoldable pub validate_epic : Platform → EpicContent → Option Reason
validate_epic p c =
    named (bytes "title") (task_text p.refuses c.title max_task_title_bytes true)
    then_check refuse_if (not (str_eq c.state open_state) && not (str_eq c.state retired_state))
        bad_epic_state
    then_check named (bytes "objective") (task_text p.refuses c.objective max_epic_text_bytes false)
    then_check named (bytes "target") (task_text p.refuses c.target max_task_title_bytes false)

unfoldable pub epic_json : EpicContent → Value
epic_json c = obj (
    field (bytes "title") (str c.title) (
      field (bytes "objective") (str c.objective)
        (field (bytes "state") (str c.state) (field (bytes "target") (str c.target) end))))

-- ===== src/Task/Content.antt =====
-- What a task's content may hold: TaskContent.validate and validCapability (internal/store/tasks.go),
-- TaskRef.validate (taskrefs.go) and validRecordID (collections.go).
use aimem.Prelude.{
  split_at, ℕ, zero, suc, Bool, true, false, not, ◌&&◌, ◌||◌, List, [], ◌∷◌, Option, none, some,
  Bytes, bytes, str_eq, ltb, leb, ◌==◌, if◌then◌else◌, length, all, is_some,
}
use aimem.Text.{TextError, task_text, full_task_id, doc_name}
use aimem.Text.Utf8.{runes}
use aimem.Json.{Value, Items, Fields, str, bool, arr, obj, nil, cons, end, field, texts, Hashing}
use aimem.Reason.{
  Reason, bad_text, bad_state, archived_open, bad_assignee, bad_epic, bad_capability, too_many,
  bad_dependency, too_big, ref_kind, ref_scope_kind, ref_scope, ref_task, ref_doc, ref_record,
  ref_url,
}
use aimem.Task.State.{done, cancelled}
use aimem.Task.{
  TaskAssignee, TaskRef, TaskContent, contains, valid_task_state, max_task_bytes,
  max_task_title_bytes, max_capability_bytes, max_task_ref_bytes, max_task_list_entries,
}

-- What the store calls and does not define: the secret scan `redact.ScanAuthored`,
-- `unicode.IsPrint`, the URL test `httpURL` over net/url, and the JSON and SHA-256 of receipts and digests.
pub record Platform : Type 0 where
  pub refuses : Bytes → Bool
  pub is_print : ℕ → Bool
  pub http_url : Bytes → Bool
  pub hashing : Hashing
  -- base64.RawURLEncoding of SHA-256.
  pub sha256_base64 : Bytes → Bytes

-- The rest of the chain runs if the first check passes.
infixr 6 ◌then_check◌
abbrev pub ◌then_check◌ : Option Reason → Option Reason → Option Reason
none then_check r = r
some e then_check r = some e

abbrev pub refuse_if : Bool → Reason → Option Reason
refuse_if true e = some e
refuse_if false e = none

abbrev pub named : Bytes → Option TextError → Option Reason
named k none = none
named k (some e) = some (bad_text k e)

abbrev pub first_of_all {ℓ} : {A : Type ℓ} → (A → Option Reason) → List A → Option Reason
first_of_all f [] = none
first_of_all f (x ∷ xs) = f x then_check first_of_all f xs

-- strings.Cut at one byte, or none where it does not stand in the string.
unfoldable pub cut : ℕ → Bytes → Option (Bytes × Bytes)
cut sep [] = none
cut sep (c ∷ s) =
    let rest = cut sep s in
    if c == sep
    then some ([], s)
    else elim rest [ none ↦ none | some (before, after) ↦ some (c ∷ before, after) ]

-- validRecordID.
unfoldable pub valid_record_id : Bytes → Bool
unfolding split_at
valid_record_id id =
    let segs = split_at b'/' id in
    not (str_eq id []) && (leb (length id) 512 && (leb (length segs) 8 && all doc_name segs))

-- ValidProjectID of internal/schema/schema.go.
project_char : ℕ → Bool
project_char c =
    (leb b'A' c && leb c b'Z')
    || (leb b'a' c && leb c b'z')
    || (leb b'0' c && leb c b'9')
    || c == b'.'
    || c == b'_'
    || c == b'-'

unfoldable pub valid_project_id : Bytes → Bool
unfolding project_char
valid_project_id id =
    all project_char id
    && (leb 1 (length id) && leb (length id) 128)
    && (not (str_eq id (bytes ".")) && not (str_eq id (bytes "..")))

is_lower : ℕ → Bool
is_lower c = leb b'a' c && leb c b'z'

-- What follows a match of capabilityKindRE, where up to `more` kind characters may still come.
after_kind : ℕ → Bytes → Option Bytes
unfolding is_lower
after_kind _ [] = none
after_kind zero (c ∷ s) =
    if c == b':' then (elim s [ [] ↦ none | d ∷ r ↦ if d == 0x20 then some r else none ]) else none
after_kind (suc more) (c ∷ s) =
    let rest = after_kind more s in
    if c == b':'
    then (elim s [ [] ↦ none | d ∷ r ↦ if d == 0x20 then some r else none ])
    else if is_lower c || (leb b'0' c && leb c b'9') || c == b'-'
    then rest
    else none

capability_name : Bytes → Option Bytes
unfolding after_kind
capability_name [] = none
capability_name (c ∷ s) = if is_lower c then after_kind 31 s else none

last_is_space : Bytes → Bool
last_is_space [] = false
last_is_space (c ∷ []) = c == 0x20
last_is_space (_ ∷ d ∷ s) = last_is_space (d ∷ s)

abbrev first_is_space : Bytes → Bool
first_is_space [] = false
first_is_space (c ∷ _) = c == 0x20

-- validCapability.
unfoldable pub valid_capability : Platform → Bytes → Bool
unfolding capability_name last_is_space
valid_capability p s =
    if ltb max_capability_bytes (length s) || not (is_some (runes s))
    then false
    else elim (capability_name s) [
      | none ↦ false
      | some name ↦
          if str_eq name [] || first_is_space name || last_is_space name
          then false
          else elim (runes name) [ none ↦ false | some rs ↦ all p.is_print rs ]
    ]

abbrev task_ref_kinds : List Bytes
task_ref_kinds =
    bytes "task"
    ∷ bytes "doc"
    ∷ bytes "record"
    ∷ bytes "commit"
    ∷ bytes "pr"
    ∷ bytes "ci"
    ∷ bytes "url"
    ∷ bytes "text"
    ∷ []

abbrev is_record_ref : Bytes → Bool
is_record_ref ref = elim (cut b'/' ref) [
  | none ↦ false
  | some (col, id) ↦ doc_name col && valid_record_id id
]

-- The `switch r.Kind` of TaskRef.validate.
ref_target : Platform → TaskRef → Option Reason
ref_target p r =
    if str_eq r.kind (bytes "task")
    then refuse_if (not (full_task_id r.ref)) ref_task
    else if str_eq r.kind (bytes "doc")
    then refuse_if (not (doc_name r.ref)) ref_doc
    else if str_eq r.kind (bytes "record")
    then refuse_if (not (is_record_ref r.ref)) ref_record
    else refuse_if (not (str_eq r.kind (bytes "text")) && not (p.http_url r.ref)) ref_url

-- TaskRef.validate.
unfoldable pub validate_ref : Platform → TaskRef → Option Reason
unfolding ref_target
validate_ref p r =
    refuse_if (not (contains task_ref_kinds r.kind)) ref_kind
    then_check named (bytes "ref") (task_text p.refuses r.ref max_task_ref_bytes true)
    then_check named (bytes "note") (task_text p.refuses r.note 512 false)
    then_check refuse_if
        (not (str_eq r.scope [])
          && not (str_eq r.kind (bytes "doc") || str_eq r.kind (bytes "record")))
        ref_scope_kind
    then_check refuse_if (not (str_eq r.scope []) && not (valid_project_id r.scope)) ref_scope
    then_check ref_target p r

-- validateRefs.
unfoldable pub validate_refs : Platform → List TaskRef → Option Reason
unfolding validate_ref
validate_refs p refs =
    refuse_if (ltb max_task_list_entries (length refs)) too_many
    then_check first_of_all (validate_ref p) refs

-- The assignee's shape, which the list filters test too.
unfoldable pub valid_assignee : TaskAssignee → Bool
valid_assignee a =
    (str_eq a.kind (bytes "user") || str_eq a.kind (bytes "group")) && full_task_id a.id

abbrev optional_field : Bytes → Bytes → Fields → Fields
optional_field k v rest = if str_eq v [] then rest else field k (str v) rest

abbrev assignee_field : Option TaskAssignee → Fields → Fields
assignee_field none rest = rest
assignee_field (some a) rest =
    field (bytes "assignee")
      (obj (field (bytes "kind") (str a.kind) (field (bytes "id") (str a.id) end))) rest

ref_json : TaskRef → Value
ref_json r = obj (
    field (bytes "kind") (str r.kind) (
      field (bytes "ref") (str r.ref)
        (optional_field (bytes "note") r.note (optional_field (bytes "scope") r.scope end))))

refs_json : List TaskRef → Items
unfolding ref_json
refs_json [] = nil
refs_json (r ∷ rs) = cons (ref_json r) (refs_json rs)

-- The JSON of a content, by the struct tags of TaskContent.
unfoldable pub content_json : TaskContent → Value
unfolding refs_json
content_json c = obj (
    field (bytes "title") (str c.title) (
      field (bytes "objective") (str c.objective) (
        field (bytes "acceptance_criteria") (str c.acceptance_criteria) (
          field (bytes "non_goals") (str c.non_goals) (
            field (bytes "state") (str c.state) (
              assignee_field c.assignee (
                field (bytes "blocker") (str c.blocker) (
                  field (bytes "dependencies") (arr (texts c.dependencies)) (
                    field (bytes "candidate_refs") (arr (refs_json c.candidate_refs)) (
                      field (bytes "evidence_refs") (arr (refs_json c.evidence_refs)) (
                        field (bytes "next_action") (str c.next_action) (
                          field (bytes "archived") (bool c.archived) (
                            optional_field (bytes "epic") c.epic (
                              optional_field (bytes "required_capability") c.required_capability
                                end))))))))))))))

module _ (p : Platform) (c : TaskContent) where
  long_text : Bytes → Bytes → Option Reason
  long_text k s = named k (task_text p.refuses s max_task_bytes false)

  -- TaskContent.validate; a nil list is the empty one.
  unfoldable pub validate_content : Option Reason
  unfolding long_text validate_refs
  validate_content =
      named (bytes "title") (task_text p.refuses c.title max_task_title_bytes true)
      then_check refuse_if (not (valid_task_state c.state)) bad_state
      then_check refuse_if (c.archived && not (str_eq c.state done || str_eq c.state cancelled))
          archived_open
      then_check elim c.assignee [
        | none ↦ none
        | some a ↦ refuse_if (not (valid_assignee a)) bad_assignee
      ]
      then_check refuse_if (not (str_eq c.epic []) && not (full_task_id c.epic)) bad_epic
      then_check refuse_if
          (not (str_eq c.required_capability []) && not (valid_capability p c.required_capability))
          bad_capability
      then_check named (bytes "required_capability")
          (task_text p.refuses c.required_capability max_capability_bytes false)
      then_check refuse_if (ltb max_task_list_entries (length c.dependencies)) too_many
      then_check validate_refs p c.candidate_refs
      then_check validate_refs p c.evidence_refs
      then_check refuse_if (not (all full_task_id c.dependencies)) bad_dependency
      then_check long_text (bytes "objective") c.objective
      then_check long_text (bytes "acceptance_criteria") c.acceptance_criteria
      then_check long_text (bytes "non_goals") c.non_goals
      then_check long_text (bytes "blocker") c.blocker
      then_check long_text (bytes "next_action") c.next_action
      then_check refuse_if (ltb max_task_bytes (length (p.hashing.marshal (content_json c))))
          (too_big (length (p.hashing.marshal (content_json c))))

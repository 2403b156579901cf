-- ===== src/Tests/MergeRuns.antt =====
-- The merge of documents at a small one: a runbook of three lines, of which one side changed one.
use aimem.Prelude.{
  ℕ, ◌≤◌, ◌≡◌, refl, Bool, List, [], ◌∷◌, Option, none, some, Bytes, bytes, ◌++◌, length, arith,
}
use aimem.Diff3.{max_lines, Merged, Answer, merged, diff, apply_within, merge}
use aimem.Diff3.Script.{apply_within-diff, Ordered, diff-Ordered}
use aimem.Diff3.Merging.{merge_total}
use aimem.Diff3.Lines.{split_lines, terminated, merge_text, merge_text_one_sided}

abbrev base : List Bytes
base = bytes "stop" ∷ bytes "copy" ∷ bytes "start" ∷ []

abbrev local : List Bytes
local = bytes "stop" ∷ bytes "check" ∷ bytes "copy" ∷ bytes "start" ∷ []

abbrev hub : List Bytes
hub = bytes "stop" ∷ bytes "copy" ∷ bytes "wait" ∷ bytes "start" ∷ []

abbrev lines_of : Answer → List Bytes
lines_of (merged m) = m.lines
lines_of _ = []

both_kept :
    lines_of (merge (bytes "local") (bytes "hub") base local hub)
    ≡ bytes "stop" ∷ bytes "check" ∷ bytes "copy" ∷ bytes "wait" ∷ bytes "start" ∷ []
unfolding merge diff aimem.Diff3.lcs_table aimem.Diff3.lcs_row aimem.Diff3.walk
    aimem.Diff3.merge_from aimem.Diff3.settle aimem.Diff3.grow aimem.Diff3.absorb
    aimem.Diff3.overlaps aimem.Diff3.opening aimem.Diff3.cluster apply_within
    aimem.Diff3.lines_equal aimem.Prelude.str_eq
both_kept = refl

apply_within-diff_example : apply_within base 0 (length base) (diff base local) ≡ some local
apply_within-diff_example = apply_within-diff base local

diff-Ordered_example : Ordered 0 (diff base local) (length base)
diff-Ordered_example = diff-Ordered base local

merge_total_example : (m : Merged) × (merge (bytes "local") (bytes "hub") base local hub ≡ merged m)
merge_total_example =
    merge_total (bytes "local") (bytes "hub") base local hub (omega arith) (omega arith)
      (omega arith)

abbrev base_text : Bytes
base_text = bytes "stop" ++ (10 ∷ bytes "start")

abbrev local_text : Bytes
local_text = bytes "stop" ++ (10 ∷ (bytes "wait" ++ (10 ∷ bytes "start")))

base_short : length (split_lines base_text) ≤ max_lines
unfolding split_lines aimem.Prelude.split_at
base_short = omega arith

local_short : length (split_lines local_text) ≤ max_lines
unfolding split_lines aimem.Prelude.split_at
local_short = omega arith

merge_text_one_sided_example :
    (merge_text base_text local_text base_text (bytes "local") (bytes "hub")
      ≡ some (terminated local_text, 0))
    × (merge_text base_text base_text local_text (bytes "local") (bytes "hub")
        ≡ some (terminated local_text, 0))
    × (merge_text base_text local_text local_text (bytes "local") (bytes "hub")
        ≡ some (terminated local_text, 0))
merge_text_one_sided_example =
    merge_text_one_sided base_text local_text (bytes "local") (bytes "hub") base_short local_short

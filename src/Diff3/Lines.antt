-- ===== src/Diff3/Lines.antt =====
-- Texts as lines (MergeText and splitLines of internal/diff3/diff3.go), and the merge of texts.
use aimem.Prelude.{
  split_at, onto_first, split_some, ℕ, ◌≤◌, ◌≡◌, refl, sym, ap, ◌∙◌, ◌++◌, List, [], ◌∷◌, Option,
  none, some, true, Bytes, ◌==◌, if◌then◌else◌, length, arith, Bool-cases, inl, inr,
}
use aimem.Diff3.{max_lines, Answer, exhausted, panicked, merged, too_long, merge}
use aimem.Diff3.Merging.{merge_one_sided}

abbrev newline : ℕ
newline = 10

-- strings.TrimSuffix(s, "\n").
trim_newline : Bytes → Bytes
trim_newline [] = []
trim_newline (c ∷ []) = if c == newline then [] else c ∷ []
trim_newline (c ∷ d ∷ s) = c ∷ trim_newline (d ∷ s)

-- splitLines.
unfoldable pub split_lines : Bytes → List Bytes
unfolding split_at trim_newline
split_lines [] = []
split_lines (c ∷ s) = split_at newline (trim_newline (c ∷ s))

-- strings.Join(lines, "\n").
join_lines : List Bytes → Bytes
join_lines [] = []
join_lines (l ∷ []) = l
join_lines (l ∷ k ∷ ls) = l ++ newline ∷ join_lines (k ∷ ls)

-- The text that MergeText makes of the merged lines.
unfoldable pub text_of : List Bytes → Bytes
unfolding join_lines
text_of [] = []
text_of (l ∷ ls) = join_lines (l ∷ ls) ++ newline ∷ []

-- MergeText: the text and the number of conflicts; `none` is the refusal of inputs that are too long,
-- or no text for another reason.
abbrev text_answer : Answer → Option (Bytes × ℕ)
text_answer too_long = none
text_answer panicked = none
text_answer exhausted = none
text_answer (merged m) = some (text_of m.lines, m.conflicts)

unfoldable pub merge_text : Bytes → Bytes → Bytes → Bytes → Bytes → Option (Bytes × ℕ)
unfolding split_lines text_of merge
merge_text base local hub local_label hub_label =
    text_answer
      (merge local_label hub_label (split_lines base) (split_lines local) (split_lines hub))

-- A text that ends with a newline, or is empty, is itself; else a newline is added.
unfoldable pub terminated : Bytes → Bytes
terminated [] = []
terminated (c ∷ []) = if c == newline then c ∷ [] else c ∷ newline ∷ []
terminated (c ∷ d ∷ s) = c ∷ terminated (d ∷ s)

join-onto_first :
    (c : ℕ) (l : Bytes) (ls : List Bytes)
    → join_lines (onto_first c (l ∷ ls)) ≡ c ∷ join_lines (l ∷ ls)
unfolding join_lines
join-onto_first c l [] = refl
join-onto_first c l (k ∷ ls) = refl

newline_iff : (c : ℕ) → (c == newline) ≡ true → c ≡ newline
newline_iff c h = ground (arith, h)

join-split : (s : Bytes) → join_lines (split_at newline s) ≡ s
unfolding split_at join_lines
join-split [] = refl
join-split (c ∷ s) =
    let (l, ls, e) = split_some newline s in
    let rest : join_lines (l ∷ ls) ≡ s = ap join_lines (sym e) ∙ join-split s in
    elim (Bool-cases (c == newline)) [
      | inl same ↦
          rw same (rw e (ap (λ zs. newline ∷ zs) rest ∙ ap (λ z. z ∷ s) (sym (newline_iff c same))))
      | inr other ↦ rw other (rw e (join-onto_first c l ls ∙ ap (λ zs. c ∷ zs) rest))
    ]

trim_newline-terminated :
    (c : ℕ) (s : Bytes) → trim_newline (c ∷ s) ++ newline ∷ [] ≡ terminated (c ∷ s)
unfolding trim_newline terminated
trim_newline-terminated c [] = elim (Bool-cases (c == newline)) [
  | inl same ↦ rw same (ap (λ z. z ∷ []) (sym (newline_iff c same)))
  | inr other ↦ rw other refl
]
trim_newline-terminated c (d ∷ s) = ap (λ zs. c ∷ zs) (trim_newline-terminated d s)

-- A text's lines, put together again, are the text, with a newline at its end.
pub text_of-split_lines : (s : Bytes) → text_of (split_lines s) ≡ terminated s
unfolding text_of split_lines terminated
text_of-split_lines [] = refl
text_of-split_lines (c ∷ s) =
    let (l, ls, e) = split_some newline (trim_newline (c ∷ s)) in
    rw e (
      ap (λ zs. zs ++ newline ∷ []) (ap join_lines (sym e) ∙ join-split (trim_newline (c ∷ s)))
      ∙ trim_newline-terminated c s)

-- Where only one side of three texts changed, or both changed alike, and no text has over 4,000
-- lines, MergeText gives the changed text, ended by a newline, with no conflict.
pub merge_text_one_sided :
    (base other local_label hub_label : Bytes)
    → length (split_lines base) ≤ max_lines
    → length (split_lines other) ≤ max_lines
    → (merge_text base other base local_label hub_label ≡ some (terminated other, 0))
      × (merge_text base base other local_label hub_label ≡ some (terminated other, 0))
      × (merge_text base other other local_label hub_label ≡ some (terminated other, 0))
unfolding merge_text
merge_text_one_sided base other local_label hub_label a b =
    let (x, y, z) =
      merge_one_sided local_label hub_label (split_lines base) (split_lines other) a b in
    let given : some (text_of (split_lines other), 0) ≡ some (terminated other, 0) =
      ap (λ zs. some (zs, 0)) (text_of-split_lines other) in
    (ap text_answer x ∙ given, ap text_answer y ∙ given, ap text_answer z ∙ given)

-- ===== src/Diff3.antt =====
-- The three-way merge of shared documents by lines (internal/diff3/diff3.go): the edit script of
-- each side against the base, the clusters of touching edits, and the merged lines.
pub mod Slices
pub mod Script
pub mod Clusters
pub mod Ranges
pub mod Single
pub mod Merging
pub mod Lines
use aimem.Prelude.{
  ℕ, zero, suc, ◌+◌, ◌-◌, ◌≡◌, refl, Bool, true, false, not, ◌&&◌, ◌||◌, ◌++◌, List, [], ◌∷◌,
  Option, none, some, Bytes, bytes, str_eq, ltb, leb, ◌==◌, if◌then◌else◌, length, take, drop,
}

abbrev pub max_lines : ℕ
max_lines = 4000

-- base[b1:b2) becomes repl.
pub record Hunk : Type 0 where
  pub b1 : ℕ
  pub b2 : ℕ
  pub repl : List Bytes

-- xs[a:b]; none is the panic where the bounds cross or lie past the end.
abbrev pub cut : ℕ → ℕ → List Bytes → List Bytes
cut a b xs = take (b - a) (drop a xs)

unfoldable pub slice : ℕ → ℕ → List Bytes → Option (List Bytes)
slice a b xs = if leb a b && leb b (length xs) then some (cut a b xs) else none

-- Row i of the table from the row below it, for the line base[i]: the entries j of lcs[i]; the last
-- column holds 0.
abbrev head_or : List ℕ → ℕ
head_or [] = 0
head_or (n ∷ ns) = n

abbrev tail_of : List ℕ → List ℕ
tail_of [] = []
tail_of (n ∷ ns) = ns

unfoldable pub lcs_row : Bytes → List Bytes → List ℕ → List ℕ
lcs_row x [] below = 0 ∷ []
lcs_row x (y ∷ ys) below =
    let right = lcs_row x ys (tail_of below) in
    (if str_eq x y
      then head_or (tail_of below) + 1
      else if leb (head_or right) (head_or below)
      then head_or below
      else head_or right)
    ∷ right

-- The rows lcs[i], from the first; the last row holds 0.
unfoldable pub lcs_table : List Bytes → List Bytes → List (List ℕ)
unfolding lcs_row
lcs_table [] other = []
lcs_table (x ∷ xs) other =
    let below = lcs_table xs other in
    lcs_row x other (elim below [ [] ↦ [] | row ∷ rows ↦ row ]) ∷ below

-- lcs[i][j].
abbrev pub cell : List (List ℕ) → ℕ → ℕ → ℕ
cell t i j = elim (drop i t) [ [] ↦ 0 | row ∷ rows ↦ head_or (drop j row) ]

-- The mismatch region that is being extended: where it began in the base, and other[o1:j].
pub record Region : Type 0 where
  pub start : ℕ
  pub lines : List Bytes

abbrev pub region_at : ℕ → Option Region → Region
region_at i none = record { start = i; lines = [] }
region_at i (some r) = r

abbrev pub extended : Region → Bytes → Region
extended r y = record r { lines = r.lines ++ y ∷ [] }

-- The hunk of a region that ends at base index i.
abbrev pub closed : ℕ → Option Region → List Hunk → List Hunk
closed i none hs = hs
closed i (some r) hs = record { b1 = r.start; b2 = i; repl = r.lines } ∷ hs

-- The walk of diff from base[i] and other[j], where base[i:] and other[j:] are left.
unfoldable pub walk : List (List ℕ) → ℕ → ℕ → List Bytes → List Bytes → Option Region → List Hunk
walk t i j [] [] open_region = closed i open_region []
walk t i j [] (y ∷ ys) open_region =
    walk t i (j + 1) [] ys (some (extended (region_at i open_region) y))
walk t i j (x ∷ xs) [] open_region = walk t (i + 1) j xs [] (some (region_at i open_region))
walk t i j (x ∷ xs) (y ∷ ys) open_region =
    let matched = closed i open_region (walk t (i + 1) (j + 1) xs ys none) in
    let inserted = walk t i (j + 1) (x ∷ xs) ys (some (extended (region_at i open_region) y)) in
    let deleted = walk t (i + 1) j xs (y ∷ ys) (some (region_at i open_region)) in
    if str_eq x y
    then matched
    else if leb (cell t (i + 1) j) (cell t i (j + 1))
    then inserted
    else deleted

-- diff: the ordered, disjoint edits from base to other.
unfoldable pub diff : List Bytes → List Bytes → List Hunk
unfolding lcs_table walk
diff base other = walk (lcs_table base other) 0 0 base other none

-- overlaps, of a hunk and the range [c1:c2).
unfoldable pub overlaps : Hunk → ℕ → ℕ → Bool
overlaps a c1 c2 = (ltb a.b1 c2 && ltb c1 a.b2) || ((a.b1 == c1) && ((a.b1 == a.b2) || (c1 == c2)))

abbrev joined : Option (List Bytes) → List Bytes → Option (List Bytes) → Option (List Bytes)
joined none repl rest = none
joined (some before) repl none = none
joined (some before) repl (some rest) = some (before ++ (repl ++ rest))

-- applyWithin; none is a panic.
unfoldable pub apply_within : List Bytes → ℕ → ℕ → List Hunk → Option (List Bytes)
unfolding slice
apply_within base c1 c2 [] = slice c1 c2 base
apply_within base c1 c2 (h ∷ hs) = joined (slice c1 h.b1 base) h.repl (apply_within base h.b2 c2 hs)

-- One side's loop: the hunks that overlap the growing range.
pub record Absorbed : Type 0 where
  pub limit : ℕ
  pub taken : List Hunk
  pub rest : List Hunk

abbrev pub at_least : ℕ → ℕ → ℕ
at_least c2 b2 = if ltb c2 b2 then b2 else c2

unfoldable pub absorb : ℕ → ℕ → List Hunk → Absorbed
absorb c1 c2 [] = record { limit = c2; taken = []; rest = [] }
absorb c1 c2 (h ∷ hs) =
    let more = absorb c1 (at_least c2 h.b2) hs in
    if overlaps h c1 c2
    then record more { taken = h ∷ more.taken }
    else record { limit = c2; taken = []; rest = h ∷ hs }

-- A cluster: its range's end, each side's hunks in it, and the hunks that are left.
pub record Cluster : Type 0 where
  pub limit : ℕ
  pub locals : List Hunk
  pub hubs : List Hunk
  pub rest_local : List Hunk
  pub rest_hub : List Hunk

abbrev pub is_nil : List Hunk → Bool
is_nil [] = true
is_nil (h ∷ hs) = false

-- The loop that absorbs from both sides until neither grew.
unfoldable pub grow : ℕ → ℕ → ℕ → List Hunk → List Hunk → List Hunk → List Hunk → Option Cluster
grow zero c1 c2 ls hs ll hh = none
grow (suc fuel) c1 c2 ls hs ll hh =
    let a = absorb c1 c2 ll in
    let b = absorb c1 a.limit hh in
    let again = grow fuel c1 b.limit (ls ++ a.taken) (hs ++ b.taken) a.rest b.rest in
    if is_nil a.taken && is_nil b.taken
    then some (record { limit = c2; locals = ls; hubs = hs; rest_local = ll; rest_hub = hh })
    else again

-- The cluster that the earliest hunk opens; the local one where both begin together.
unfoldable pub opening : List Hunk → List Hunk → Option Hunk
opening [] [] = none
opening (l ∷ ll) [] = some l
opening [] (h ∷ hh) = some h
opening (l ∷ ll) (h ∷ hh) = some (if leb l.b1 h.b1 then l else h)

unfoldable pub cluster : Hunk → List Hunk → List Hunk → Option Cluster
cluster first ll hh = grow (length ll + length hh + 1) first.b1 first.b2 [] [] ll hh

-- equal.
unfoldable pub lines_equal : List Bytes → List Bytes → Bool
lines_equal [] [] = true
lines_equal (x ∷ xs) (y ∷ ys) = str_eq x y && lines_equal xs ys
lines_equal _ _ = false

pub record Merged : Type 0 where
  pub lines : List Bytes
  pub conflicts : ℕ

-- What Merge answers: the refusal of inputs that are too long, a panic, or the merge; `exhausted` is a
-- model that ran out of fuel.
pub data Answer : Type 0 where
  too_long panicked exhausted : Answer
  merged : Merged → Answer

abbrev pub after : List Bytes → Merged → Merged → Merged
after before m rest = record {
  lines = before ++ (m.lines ++ rest.lines);
  conflicts = m.conflicts + rest.conflicts;
}

-- A round of the loop: the lines before the cluster, what the cluster becomes, and the rest.
abbrev pub then_merge : Option (List Bytes) → Option Merged → Answer → Answer
then_merge none m rest = panicked
then_merge (some before) none rest = panicked
then_merge (some before) (some m) too_long = too_long
then_merge (some before) (some m) panicked = panicked
then_merge (some before) (some m) exhausted = exhausted
then_merge (some before) (some m) (merged rest) = merged (after before m rest)

-- base[pos:] after the last cluster.
abbrev pub ending : Option (List Bytes) → Answer
ending none = panicked
ending (some rest) = merged (record { lines = rest; conflicts = 0 })

module _ (local_label hub_label : Bytes) (base : List Bytes) where
  conflict : List Bytes → List Bytes → List Bytes
  conflict ls hs =
      (bytes "<<<<<<< " ++ local_label)
      ∷ (ls ++ bytes "=======" ∷ (hs ++ (bytes ">>>>>>> " ++ hub_label) ∷ []))

  resolve : List Bytes → List Bytes → Merged
  unfolding lines_equal conflict
  resolve ls hs =
      if lines_equal ls hs
      then record { lines = ls; conflicts = 0 }
      else record { lines = conflict ls hs; conflicts = 1 }

  -- The switch on what changed, from both sides' lines.
  unfoldable pub changed_lines : Cluster → List Bytes → List Bytes → Merged
  unfolding resolve
  changed_lines c ls hs =
      if is_nil c.locals
      then record { lines = hs; conflicts = 0 }
      else if is_nil c.hubs
      then record { lines = ls; conflicts = 0 }
      else resolve ls hs

  abbrev chosen : Cluster → Option (List Bytes) → Option (List Bytes) → Option Merged
  chosen c none hs = none
  chosen c (some ls) none = none
  chosen c (some ls) (some hs) = some (changed_lines c ls hs)

  -- What a cluster over [c1:limit) becomes. Both sides are rebuilt first.
  unfoldable pub settle : ℕ → Cluster → Option Merged
  unfolding changed_lines apply_within
  settle c1 c =
      chosen c (apply_within base c1 c.limit c.locals) (apply_within base c1 c.limit c.hubs)

  -- The loop of Merge from base[pos:], where ll and hh are left.
  unfoldable pub merge_from : ℕ → ℕ → List Hunk → List Hunk → Answer
  unfolding settle slice
  merge_from zero pos ll hh = exhausted
  merge_from (suc fuel) pos ll hh = elim (opening ll hh) [
    | none ↦ ending (slice pos (length base) base)
    | some first ↦ elim (cluster first ll hh) [
      | none ↦ exhausted
      | some c ↦
          then_merge (slice pos first.b1 base) (settle first.b1 c)
            (merge_from fuel c.limit c.rest_local c.rest_hub)
    ]
  ]

  -- Merge.
  unfoldable pub merge : List Bytes → List Bytes → Answer
  unfolding diff merge_from
  merge local hub =
      let hl = diff base local in
      let hh = diff base hub in
      if ltb max_lines (length base) || ltb max_lines (length local) || ltb max_lines (length hub)
      then too_long
      else merge_from (length hl + length hh + 1) 0 hl hh

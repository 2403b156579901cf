-- ===== src/Prefix/Resolve.antt =====
-- What a short id resolves to (internal/store/taskprefix.go), against all ids that start with it.
use aimem.Prelude.{
  if-cases, ℕ, zero, suc, ◌+◌, ◌-◌, ◌≤◌, ◌<◌, ◌≡◌, refl, sym, ap, ◌∙◌, ◌⊎◌, Bool, true, false, not,
  ◌&&◌, ◌||◌, ◌++◌, List, [], ◌∷◌, Option, none, some, Bytes, ltb, leb, if◌then◌else◌, length, take,
  filter, map, append-nil, append_assoc, length-append, arith, Bool-cases, inl, inr,
}
use aimem.Db.{Db, is_reserved_project}
use aimem.Text.{full_task_id}
use aimem.Locate.{Projects, TaskHints, missed, is_closed_project}
use aimem.Prefix.{
  task_id_match_max, task_ids_with_prefix, TaskIdMatch, collect_matches, task_id_matches, in_range,
  sorted, Resolved, resolved, too_short, absent, incomplete, ambiguous, answer, after_miss,
  id_prefix_shape, task_id_prefix_min, resolve_task_id,
}

length-map : {A B : Type 0} (f : A → B) (xs : List A) → length (map f xs) ≡ length xs
length-map f [] = refl
length-map f (x ∷ xs) = ap suc (length-map f xs)

map-take : {A B : Type 0} (f : A → B) (n : ℕ) (xs : List A) → map f (take n xs) ≡ take n (map f xs)
map-take f zero xs = refl
map-take f (suc n) [] = refl
map-take f (suc n) (x ∷ xs) = ap (λ ys. f x ∷ ys) (map-take f n xs)

-- A cut that came out short cut nothing; one that came out full does not see what follows.
take_short : {A : Type 0} (n : ℕ) (xs : List A) → length (take n xs) < n → take n xs ≡ xs
take_short zero xs h = absurd (omega arith)
take_short (suc n) [] h = refl
take_short (suc n) (x ∷ xs) h = ap (λ ys. x ∷ ys) (take_short n xs (omega arith))

take_full :
    {A : Type 0} (n : ℕ) (xs ys : List A) → n ≤ length (take n xs) → take n (xs ++ ys) ≡ take n xs
take_full zero xs ys h = refl
take_full (suc n) [] ys h = absurd (omega arith)
take_full (suc n) (x ∷ xs) ys h = ap (λ zs. x ∷ zs) (take_full n xs ys (omega arith))

take-le : {A : Type 0} (n : ℕ) (xs : List A) → length xs ≤ n → take n xs ≡ xs
take-le zero [] h = refl
take-le zero (x ∷ xs) h = absurd (omega arith)
take-le (suc n) [] h = refl
take-le (suc n) (x ∷ xs) h = ap (λ ys. x ∷ ys) (take-le n xs (omega arith))

take-append :
    {A : Type 0} (n : ℕ) (out xs : List A)
    → length out ≤ n
    → take n (out ++ xs) ≡ out ++ take (n - length out) xs
take-append n [] xs h = let e : n - 0 ≡ n = omega arith in rw e refl
take-append zero (x ∷ out) xs h = absurd (omega arith)
take-append (suc n) (x ∷ out) xs h =
    let e : suc n - suc (length out) ≡ n - length out = omega arith in
    rw e (ap (λ ys. x ∷ ys) (take-append n out xs (omega arith)))

abbrev match_of : Bytes → Bytes → TaskIdMatch
match_of p id = record { project = p; id = id }

-- The ids of one project's tasks that start with the prefix, in order and without a limit.
pub project_matches : Bytes → Bytes → Db → List TaskIdMatch
project_matches prefix p db =
    map (match_of p) (sorted (filter (in_range prefix) (map (λ row. row.0) db.tasks)))

-- Those of every ordinary project that can be opened.
pub every_match : Bytes → Projects → List TaskIdMatch
every_match prefix [] = []
every_match prefix ((p, none) ∷ ps) = every_match prefix ps
every_match prefix ((p, some db) ∷ ps) =
    (if is_reserved_project p then [] else project_matches prefix p db) ++ every_match prefix ps

-- Whether an ordinary project cannot be opened.
pub some_closed : Projects → Bool
some_closed [] = false
some_closed ((p, tables) ∷ ps) =
    (not (is_reserved_project p) && is_closed_project tables) || some_closed ps

taken-matches :
    (prefix p : Bytes) (limit : ℕ) (db : Db)
    → map (match_of p) (task_ids_with_prefix prefix limit db)
      ≡ take limit (project_matches prefix p db)
unfolding task_ids_with_prefix project_matches
taken-matches prefix p limit db =
    map-take (match_of p) limit (sorted (filter (in_range prefix) (map (λ row. row.0) db.tasks)))

-- The loop of taskIDMatches finds the first ten of all matches.
collect_matches-take :
    (prefix : Bytes) (out : List TaskIdMatch) (ps : Projects) (found : List TaskIdMatch)
    → length out ≤ task_id_match_max
    → collect_matches prefix out ps ≡ some found
    → found ≡ take task_id_match_max (out ++ every_match prefix ps)
unfolding collect_matches every_match
collect_matches-take prefix out [] found b h =
    let same : out ≡ found = cc in
    sym same ∙ sym (rw (append-nil out) (take-le task_id_match_max out b))
collect_matches-take prefix out ((p, none) ∷ ps) found b h =
    elim (if-cases (is_reserved_project p) (collect_matches prefix out ps) none h) [
      | inl (reserved, x) ↦ collect_matches-take prefix out ps found b x
      | inr (ordinary, x) ↦ cc
    ]
collect_matches-take prefix out ((p, some db) ∷ ps) found b h =
    let room : ℕ = task_id_match_max - length out in
    let ids : List TaskIdMatch = map (match_of p) (task_ids_with_prefix prefix room db) in
    let all_ids : List TaskIdMatch = project_matches prefix p db in
    let more : List TaskIdMatch = out ++ ids in
    let rest : List TaskIdMatch = every_match prefix ps in
    let cut : ids ≡ take room all_ids = taken-matches prefix p room db in
    let size : length more ≡ length out + length (take room all_ids) =
      length-append out ids ∙ ap (λ (xs : List TaskIdMatch). length out + length xs) cut in
    elim (if-cases (is_reserved_project p) (collect_matches prefix out ps)
      (if leb task_id_match_max (length more) then some more else collect_matches prefix more ps)
      h) [
        | inl (reserved, x) ↦ rw reserved (collect_matches-take prefix out ps found b x)
        | inr (ordinary, x) ↦
            rw ordinary
              (elim (if-cases (leb task_id_match_max (length more)) (some more)
                (collect_matches prefix more ps) x) [
                  | inl (full, y) ↦
                      let same : more ≡ found = cc in
                      sym same
                      ∙ ap (λ xs. out ++ xs)
                          (cut ∙ sym (take_full room all_ids rest (ground (arith, full, size))))
                      ∙ sym (take-append task_id_match_max out (all_ids ++ rest) b)
                  | inr (space, y) ↦
                      let whole : take room all_ids ≡ all_ids =
                        take_short room all_ids (ground (arith, space, size)) in
                      collect_matches-take prefix more ps found (ground (arith, space)) y
                      ∙ ap (λ xs. take task_id_match_max ((out ++ xs) ++ rest)) (cut ∙ whole)
                      ∙ ap (take task_id_match_max) (append_assoc out all_ids rest)
                ])
      ]

-- It fails for a project that cannot be opened only.
collect_matches-closed :
    (prefix : Bytes) (out : List TaskIdMatch) (ps : Projects)
    → collect_matches prefix out ps ≡ none
    → some_closed ps ≡ true
unfolding collect_matches some_closed
collect_matches-closed prefix out [] h = cc
collect_matches-closed prefix out ((p, none) ∷ ps) h =
    elim (if-cases (is_reserved_project p) (collect_matches prefix out ps) none h) [
      | inl (reserved, x) ↦ ground (arith, reserved, collect_matches-closed prefix out ps x)
      | inr (ordinary, x) ↦ rw ordinary refl
    ]
collect_matches-closed prefix out ((p, some db) ∷ ps) h =
    let ids : List Bytes = task_ids_with_prefix prefix (task_id_match_max - length out) db in
    let more : List TaskIdMatch = out ++ map (match_of p) ids in
    elim (if-cases (is_reserved_project p) (collect_matches prefix out ps)
      (if leb task_id_match_max (length more) then some more else collect_matches prefix more ps)
      h) [
        | inl (reserved, x) ↦ ground (arith, collect_matches-closed prefix out ps x)
        | inr (ordinary, x) ↦
            elim (if-cases (leb task_id_match_max (length more)) (some more)
              (collect_matches prefix more ps) x) [
                | inl (full, y) ↦ cc
                | inr (space, y) ↦ ground (arith, collect_matches-closed prefix more ps y)
              ]
      ]

-- What an answer to a short id says of all the matches: the one id is the only match; an ambiguity
-- lists the first ten of at least two; absent is a remembered miss, or there is no match;
-- unanswered, some project cannot be opened.
abbrev pub Sound : Bytes → Projects → Bool → Resolved → Type 0
Sound arg ps remembered (resolved id) =
    (p : Bytes) × (every_match arg ps ≡ record { project = p; id = id } ∷ [])
Sound arg ps remembered (ambiguous ms) =
    (2 ≤ length ms) × (ms ≡ take task_id_match_max (every_match arg ps))
Sound arg ps remembered absent = (remembered ≡ true) ⊎ (every_match arg ps ≡ [])
Sound arg ps remembered incomplete = some_closed ps ≡ true
Sound arg ps remembered too_short = length arg < task_id_prefix_min

take_one :
    (ys : List TaskIdMatch) (m : TaskIdMatch) → m ∷ [] ≡ take task_id_match_max ys → ys ≡ m ∷ []
take_one [] m h = cc
take_one (y ∷ []) m h = sym h
take_one (y ∷ z ∷ ys) m h = cc

take_none : (ys : List TaskIdMatch) → [] ≡ take task_id_match_max ys → ys ≡ []
take_none [] h = refl
take_none (y ∷ ys) h = cc

answer-Sound :
    (arg : Bytes) (ps : Projects) (now : ℕ) (moved : Bool) (o : Option (List TaskIdMatch))
    (h : TaskHints)
    → ((ms : List TaskIdMatch) → o ≡ some ms → ms ≡ take task_id_match_max (every_match arg ps))
    → (o ≡ none → some_closed ps ≡ true)
    → Sound arg ps false (answer arg now moved o h).0
unfolding answer
answer-Sound arg ps now moved none h f g = g refl
answer-Sound arg ps now moved (some []) h f g = inr (take_none (every_match arg ps) (f [] refl))
answer-Sound arg ps now moved (some (m ∷ [])) h f g =
    (m.project, take_one (every_match arg ps) m (f (m ∷ []) refl))
answer-Sound arg ps now moved (some (m ∷ n ∷ ms)) h f g = (omega arith, f (m ∷ n ∷ ms) refl)

after_miss-Sound :
    (arg : Bytes) (ps : Projects) (now : ℕ) (moved : Bool) (m : Bool × TaskHints)
    → Sound arg ps m.0 (after_miss arg ps now moved m).0
unfolding after_miss
after_miss-Sound arg ps now moved (true, h) = inl refl
after_miss-Sound arg ps now moved (false, h) =
    answer-Sound arg ps now moved (task_id_matches arg ps) h
      (λ ms e. collect_matches-take arg [] ps ms (omega arith) e)
      (λ e. collect_matches-closed arg [] ps e)

-- A short id of the shape of an id's start, against all ids that start with it in the ordinary
-- projects that can be opened: it resolves to an id only if that is the one match; it is ambiguous
-- only with the first ten of at least two matches; it is absent only if that was remembered or there
-- is no match; it is unanswered only if an ordinary project cannot be opened; and it is too short
-- only below 13 characters.
pub resolve_task_id-Sound :
    (arg : Bytes) (ps : Projects) (now : ℕ) (moved : Bool) (h : TaskHints)
    → (full_task_id arg || not (id_prefix_shape arg)) ≡ false
    → Sound arg ps (missed arg now h).0 (resolve_task_id arg ps now moved h).0
unfolding resolve_task_id
resolve_task_id-Sound arg ps now moved h short =
    elim (Bool-cases (ltb (length arg) task_id_prefix_min)) [
      | inl little ↦ rw short (rw little (ground (arith, little)))
      | inr enough ↦ rw short (rw enough (after_miss-Sound arg ps now moved (missed arg now h)))
    ]

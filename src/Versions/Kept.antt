-- ===== src/Versions/Kept.antt =====
-- The rows of one key (internal/store/docs.go and collections.go): what an upsert, an insert and the
-- DELETE of old revisions leave of them.
use aimem.Prelude.{
  ℕ, zero, suc, ◌+◌, ◌<◌, ◌≡◌, refl, true, false, not, List, [], ◌∷◌, some, leb, ◌==◌,
  if◌then◌else◌, any, filter, length, take, arith,
}
use aimem.Versions.{
  Key, Version, find, upsert, is_named, is_revision, outlives, history_keep, find_row,
  find_revision,
}

module _ {K : Type 0} ⦃key : Key K⦄ where
  pub same_refl : (k : K) → key.same k k ≡ true
  same_refl k = (key.same_iff k k).1 refl

  pub find-upsert :
      (j : K) (next : Version K) (vs : List (Version K))
      → find j (upsert next vs) ≡ (if is_named j next then some next else find j vs)
  unfolding find upsert
  find-upsert j next [] = refl
  find-upsert j next (v ∷ vs) = ground (
    arith,
    key.same_iff v.name next.name,
    key.same_iff v.name j,
    key.same_iff next.name j,
    find-upsert j next vs,
  )

  -- Versions numbered by their place, the newest first.
  abbrev pub IsNumbered : List (Version K) → Type 0
  IsNumbered [] = Unit
  IsNumbered (v ∷ vs) = (v.rev ≡ suc (length vs)) × IsNumbered vs

  -- Of the 20 newest versions before a new one, the DELETE keeps 19.
  filter-take :
      (rev d c : ℕ) (vs : List (Version K))
      → IsNumbered vs
      → length vs + d ≡ rev
      → d + c ≡ history_keep
      → filter (λ v. not (leb (v.rev + history_keep) rev)) (take (suc c) vs) ≡ take c vs
  filter-take rev d zero [] n e f = refl
  filter-take rev d (suc c) [] n e f = refl
  filter-take rev d zero (v ∷ vs) n e f = ground (arith, n.0)
  filter-take rev d (suc c) (v ∷ vs) n e f =
      ground (arith, n.0, filter-take rev (suc d) c vs n.1 (omega arith) (omega arith))

  -- Under one key, a filter of the whole table is a filter of that key's rows.
  pub named-outlives :
      (j : K) (next : Version K) (vs : List (Version K))
      → filter (is_named j) (filter (outlives next) vs) ≡ (
          if is_named j next
          then filter (λ v. not (leb (v.rev + history_keep) next.rev)) (filter (is_named j) vs)
          else filter (is_named j) vs)
  named-outlives j next [] = ground arith
  named-outlives j next (v ∷ vs) = ground (
    arith,
    key.same_iff v.name next.name,
    key.same_iff v.name j,
    key.same_iff next.name j,
    named-outlives j next vs,
  )

  pub any-named :
      (k : K) (rev : ℕ) (vs : List (Version K))
      → any (is_revision k rev) vs ≡ any (λ v. v.rev == rev) (filter (is_named k) vs)
  any-named k rev [] = refl
  any-named k rev (v ∷ vs) = ground (arith, any-named k rev vs)

  -- The next revision is not among the kept ones.
  pub none_next :
      (c rev : ℕ) (vs : List (Version K))
      → IsNumbered vs
      → length vs < rev
      → any (λ v. v.rev == rev) (take c vs) ≡ false
  none_next zero rev vs n lt = refl
  none_next (suc c) rev [] n lt = refl
  none_next (suc c) rev (v ∷ vs) n lt = ground (arith, n.0, none_next c rev vs n.1 (omega arith))

  -- After a new version, the kept ones are the 20 newest again.
  pub kept-next :
      (next : Version K) (vs : List (Version K))
      → IsNumbered vs
      → next.rev ≡ suc (length vs)
      → filter (λ v. not (leb (v.rev + history_keep) next.rev)) (next ∷ take history_keep vs)
        ≡ take history_keep (next ∷ vs)
  kept-next next vs n e = ground (arith, filter-take next.rev 1 19 vs n (omega arith) refl)

  -- A row is found in the table as among its key's rows.
  pub find_row-named :
      (k : K) (rev : ℕ) (vs : List (Version K))
      → find_row k rev vs ≡ find_revision rev (filter (is_named k) vs)
  unfolding find_row find_revision
  find_row-named k rev [] = refl
  find_row-named k rev (v ∷ vs) = ground (arith, find_row-named k rev vs)

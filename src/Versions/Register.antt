-- ===== src/Versions/Register.antt =====
-- What the two tables of internal/store/docs.go and collections.go promise: a register that keeps
-- every version of every key, of which the tables show the newest and the 20 newest.
use mathlib.Core.Path.{subst}
use aimem.Prelude.{
  ℕ, zero, suc, ◌≤◌, ◌≡◌, refl, ap, ◌∙◌, Bool, true, false, not, List, [], ◌∷◌, Option, none, some,
  ltb, ◌==◌, if◌then◌else◌, any, filter, length, take, arith, Bool-cases, inl, inr,
}
use aimem.Versions.{
  Key, Version, Store, Answer, put_ok, put_err, no_such, stale, Request, is_identical, next_of,
  find, is_named, is_revision, outlives, history_keep, find_revision, write, on_current, put, get,
}
use aimem.Versions.Kept.{
  find-upsert, IsNumbered, named-outlives, any-named, none_next, kept-next, find_row-named,
}

-- Every version of every key, the newest first.
abbrev pub History : Type 0 → Type 0
History K = K → List (Version K)

abbrev pub newest : {K : Type 0} → List (Version K) → Option (Version K)
newest [] = none
newest (v ∷ vs) = some v

module _ {K : Type 0} ⦃key : Key K⦄ where
  abbrev pub recorded : Version K → History K → History K
  recorded next h k = if is_named k next then next ∷ h k else h k

  -- A compare-and-swap write on the register.
  on_newest : Request K → List (Version K) → History K → Answer K (History K)
  on_newest r [] h =
      if r.deleted
      then put_err no_such
      else if not (r.base_rev == 0)
      then put_err no_such
      else put_ok (next_of r) (recorded (next_of r) h)
  on_newest r (cur ∷ older) h =
      if is_identical r cur
      then put_ok cur h
      else if not (r.base_rev == cur.rev)
      then put_err (stale cur)
      else put_ok (next_of r) (recorded (next_of r) h)

  unfoldable pub register_put : Request K → History K → Answer K (History K)
  unfolding on_newest
  register_put r h = on_newest r (h r.key) h

  -- The tables show the register.
  pub record Represents (s : Store K) (h : History K) : Type 0 where
    pub current : (k : K) → find k s.current ≡ newest (h k)
    pub kept : (k : K) → filter (is_named k) s.revisions ≡ take history_keep (h k)
    pub numbered : (k : K) → IsNumbered (h k)

  abbrev pub Agrees : Answer K (Store K) → Answer K (History K) → Type 0
  Agrees (put_ok v s) (put_ok w h) = (v ≡ w) × Represents s h
  Agrees (put_err e) (put_err f) = e ≡ f
  Agrees _ _ = ⊥

  IsNumbered-recorded :
      (next : Version K) (h : History K)
      → ((k : K) → IsNumbered (h k))
      → next.rev ≡ suc (length (h next.name))
      → (k : K) → IsNumbered (recorded next h k)
  IsNumbered-recorded next h n e k = elim (Bool-cases (is_named k next)) [
    | inl hit ↦ rw hit (e ∙ ap (λ j. suc (length (h j))) ((key.same_iff next.name k).0 hit), n k)
    | inr miss ↦ rw miss (n k)
  ]

  kept-recorded :
      (next : Version K) (s : Store K) (h : History K)
      → Represents s h
      → next.rev ≡ suc (length (h next.name))
      → (k : K)
      → filter (is_named k) (filter (outlives next) (next ∷ s.revisions))
        ≡ take history_keep (recorded next h k)
  kept-recorded next s h r e k =
      named-outlives k next (next ∷ s.revisions) ∙ elim (Bool-cases (is_named k next)) [
        | inl hit ↦
            let same : next.rev ≡ suc (length (h k)) =
              e ∙ ap (λ j. suc (length (h j))) ((key.same_iff next.name k).0 hit) in
            rw hit (rw (r.kept k) (kept-next next (h k) (r.numbered k) same))
        | inr miss ↦ rw miss (r.kept k)
      ]

  newest-recorded :
      (next : Version K) (s : Store K) (h : History K)
      → Represents s h
      → (k : K)
      → (if is_named k next then some next else find k s.current) ≡ newest (recorded next h k)
  newest-recorded next s h r k = elim (Bool-cases (is_named k next)) [
    | inl hit ↦ rw hit refl
    | inr miss ↦ rw miss (r.current k)
  ]

  write-Agrees :
      (next : Version K) (s : Store K) (h : History K)
      → Represents s h
      → next.rev ≡ suc (length (h next.name))
      → Agrees (write next s) (put_ok next (recorded next h))
  unfolding write
  write-Agrees next s h r e =
      let free : any (is_revision next.name next.rev) s.revisions ≡ false =
        any-named next.name next.rev s.revisions
        ∙ ap (any (λ v. v.rev == next.rev)) (r.kept next.name)
        ∙ none_next history_keep next.rev (h next.name) (r.numbered next.name) (omega arith) in
      rw free (
        refl,
        record {
          current = λ k. find-upsert k next s.current ∙ newest-recorded next s h r k;
          kept = kept-recorded next s h r e;
          numbered = IsNumbered-recorded next h r.numbered e;
        },
      )

  -- The same test on both sides, with agreement in each branch.
  pub Agrees-if :
      (b : Bool) (x y : Answer K (Store K)) (x' y' : Answer K (History K))
      → (b ≡ true → Agrees x x')
      → (b ≡ false → Agrees y y')
      → Agrees (if b then x else y) (if b then x' else y')
  Agrees-if true x y x' y' f g = f refl
  Agrees-if false x y x' y' f g = g refl

  -- `put-Represents`, by what the register has under the key.
  on_current-Agrees :
      (r : Request K) (s : Store K) (h : History K) (vs : List (Version K))
      → Represents s h
      → h r.key ≡ vs
      → Agrees (on_current r (newest vs) s) (on_newest r vs h)
  unfolding on_current on_newest
  on_current-Agrees r s h [] rep e =
      let length_zero : length (h r.key) ≡ 0 = ap length e in
      Agrees-if r.deleted (put_err no_such)
        (if not (r.base_rev == 0) then put_err no_such else write (next_of r) s) (put_err no_such)
        (if not (r.base_rev == 0)
          then put_err no_such
          else put_ok (next_of r) (recorded (next_of r) h))
        (λ _. refl)
        (λ _.
          Agrees-if (not (r.base_rev == 0)) (put_err no_such) (write (next_of r) s)
            (put_err no_such) (put_ok (next_of r) (recorded (next_of r) h)) (λ _. refl)
            (λ base. write-Agrees (next_of r) s h rep (ground (arith, base, length_zero))))
  on_current-Agrees r s h (cur ∷ older) rep e =
      let numbers : IsNumbered (cur ∷ older) = subst IsNumbered e (rep.numbered r.key) in
      let length_older : length (h r.key) ≡ suc (length older) = ap length e in
      Agrees-if (is_identical r cur) (put_ok cur s)
        (if not (r.base_rev == cur.rev) then put_err (stale cur) else write (next_of r) s)
        (put_ok cur h)
        (if not (r.base_rev == cur.rev)
          then put_err (stale cur)
          else put_ok (next_of r) (recorded (next_of r) h))
        (λ _. (refl, rep))
        (λ _.
          Agrees-if (not (r.base_rev == cur.rev)) (put_err (stale cur)) (write (next_of r) s)
            (put_err (stale cur)) (put_ok (next_of r) (recorded (next_of r) h)) (λ _. refl)
            (λ base.
              write-Agrees (next_of r) s h rep (ground (arith, base, length_older, numbers.0))))

  -- On tables that show a register, the write gives the register's answer, error or version, and the
  -- tables after it show the register after it: newest version, the 20 newest and the numbering.
  pub put-Represents :
      (r : Request K) (s : Store K) (h : History K)
      → Represents s h
      → Agrees (put r s) (register_put r h)
  unfolding put register_put
  put-Represents r s h rep = rw (rep.current r.key) (on_current-Agrees r s h (h r.key) rep refl)

  -- Read: revision 0 is the newest version, another is found where it is one of the 20 newest.
  pub get-Represents :
      (k : K) (rev : ℕ) (s : Store K) (h : History K)
      → Represents s h
      → get k rev s
        ≡ (if ltb 0 rev then find_revision rev (take history_keep (h k)) else newest (h k))
  unfolding get
  get-Represents k rev s h rep =
      rw (find_row-named k rev s.revisions) (rw (rep.kept k) (rw (rep.current k) refl))

  abbrev stored_of : Answer K (Store K) → Store K → Store K
  stored_of (put_ok v s') s = s'
  stored_of (put_err e) s = s

  -- Writes one after another; a refused one changes nothing.
  unfoldable pub put_all : List (Request K) → Store K → Store K
  unfolding put
  put_all [] s = s
  put_all (r ∷ rs) s = put_all rs (stored_of (put r s) s)

  stored-Represents :
      (a : Answer K (Store K)) (b : Answer K (History K)) (s : Store K) (h : History K)
      → Represents s h
      → Agrees a b
      → (h' : History K) × Represents (stored_of a s) h'
  stored-Represents (put_ok v s') (put_ok w h') s h rep (e, rep') = (h', rep')
  stored-Represents (put_ok v s') (put_err e) s h rep no_way = absurd no_way
  stored-Represents (put_err e) (put_ok w h') s h rep no_way = absurd no_way
  stored-Represents (put_err e) (put_err f) s h rep same = (h, rep)

  put_all-Represents :
      (rs : List (Request K)) (s : Store K) (h : History K)
      → Represents s h
      → (h' : History K) × Represents (put_all rs s) h'
  unfolding put_all
  put_all-Represents [] s h rep = (h, rep)
  put_all-Represents (r ∷ rs) s h rep =
      let (h', rep') =
        stored-Represents (put r s) (register_put r h) s h rep (put-Represents r s h rep) in
      put_all-Represents rs (stored_of (put r s) s) h' rep'

  abbrev pub empty_store : Store K
  empty_store = record { current = []; revisions = [] }

  pub empty-Represents : Represents empty_store (λ k. [])
  unfolding find
  empty-Represents = record { current = λ k. refl; kept = λ k. refl; numbered = λ k. tt }

  length-take_bound : (n : ℕ) (vs : List (Version K)) → length (take n vs) ≤ n
  length-take_bound zero vs = omega arith
  length-take_bound (suc n) [] = omega arith
  length-take_bound (suc n) (v ∷ vs) = omega (arith, length-take_bound n vs)

  -- After any writes to empty tables no key has more than 20 kept revisions.
  pub put_all-kept_bound :
      (rs : List (Request K)) (k : K)
      → length (filter (is_named k) (put_all rs empty_store).revisions) ≤ history_keep
  put_all-kept_bound rs k =
      let (h, rep) = put_all-Represents rs empty_store (λ k. []) empty-Represents in
      rw (rep.kept k) (length-take_bound history_keep (h k))

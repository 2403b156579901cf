-- ===== src/Mutation/Fresh.antt =====
-- An accepted mutation (checkedTaskMutation of internal/store/tasks.go) is a replay that changes
-- nothing, or its effect once and a receipt; `replays` tells which.
use aimem.Prelude.{
  ◌≡◌, refl, ◌∙◌, ◌⊎◌, inl, inr, true, false, ◌∷◌, Option, none, some, Bytes, str_eq, arith,
}
use mathlib.Core.Path.{subst}
use aimem.Json.{Value, receipt_digest}
use aimem.Task.{TaskActor}
use aimem.Task.Content.{Platform}
use aimem.Error.{ok}
use aimem.Db.{Receipt, Saved, Db, Tx, bind_result-eq-ok}
use aimem.Mutation.{
  Codec, RequestKey, find_receipt, insert_receipt, replay_receipt, apply_first, receipt_mutation,
  checked_task_mutation, answer, replays,
}
use aimem.Mutation.Replay.{receipt_of, request_of, checked-eq-ok}

insert_receipt-eq-ok :
    (k : RequestKey) (digest : Bytes) (saved : Saved) (db : Db) {u : Unit {0}} {db' : Db}
    → insert_receipt k digest saved db ≡ ok (u, db')
    → (db' ≡ record db { requests = receipt_of k digest saved ∷ db.requests })
      × (find_receipt k db.requests ≡ none)
unfolding insert_receipt
insert_receipt-eq-ok k digest saved db h = ground arith

module _ {T : Type 0} ⦃c : Codec T⦄ where
  -- The effect `fn` ran from `db`, gave `out`, and its receipt was added.
  pub record Applied (k : RequestKey) (digest : Bytes) (fn : Tx T) (db : Db) (out : T) (db' : Db)
      : Type 0 where
    pub after : Db
    pub effect : fn db ≡ ok (out, after)
    pub absent : find_receipt k after.requests ≡ none
    pub added : db' ≡ record after { requests = receipt_of k digest (c.save out) ∷ after.requests }

  apply_first-Applied :
      (k : RequestKey) (digest : Bytes) (fn : Tx T) (db : Db) {out : T} {db' : Db}
      → apply_first k digest fn db ≡ ok (out, db')
      → Applied k digest fn db out db'
  unfolding apply_first
  apply_first-Applied k digest fn db {out} h =
      let (out₀, after, ran, h₁) = bind_result-eq-ok (fn db) _ h in
      let (_, last, inserted, h₂) =
        bind_result-eq-ok (insert_receipt k digest (c.save out₀) after) _ h₁ in
      record {
        after = after;
        effect = ground arith;
        absent = (insert_receipt-eq-ok k digest (c.save out₀) after inserted).1;
        added = ground (arith, insert_receipt-eq-ok k digest (c.save out₀) after inserted);
      }

  answer-cases :
      (k : RequestKey) (digest : Bytes) (fn : Tx T) (found : Option Receipt) (db : Db) {out : T}
      {db' : Db}
      → answer k digest fn found db ≡ ok (out, db')
      → ((r : Receipt) × (found ≡ some r) × (str_eq r.digest digest ≡ true) × (db' ≡ db))
        ⊎ ((found ≡ none) × Applied k digest fn db out db')
  unfolding answer
  answer-cases k digest fn none db h = inr (refl, apply_first-Applied k digest fn db h)
  answer-cases k digest fn (some r) db h =
      inl (unfold replay_receipt in (r, refl, ground arith, ground arith))

-- A check that passes leaves the tables alone.
abbrev pub OnlyReads : Tx (Unit {0}) → Type 0
OnlyReads check = (db : Db) (u : Unit {0}) (mid : Db) → check db ≡ ok (u, mid) → mid ≡ db

module _ {T : Type 0} ⦃c : Codec T⦄ (p : Platform) (actor : TaskActor) (op scope key : Bytes)
    (input : Value) (check : Tx (Unit {0})) (fn : Tx T) (db : Db) where
  -- The two ways in which a mutation is accepted.
  pub data Accepted (out : T) (db' : Db) : Type 0 where
    replayed :
        replays p actor key op scope input db ≡ true
        → check db ≡ ok (tt, db)
        → db' ≡ db
        → Accepted out db'
    applied :
        (a : Bytes)
        → replays p actor key op scope input db ≡ false
        → check db ≡ ok (tt, db)
        → Applied (request_of a op scope key) (receipt_digest p.hashing input) fn db out db'
        → Accepted out db'

  pub checked-Accepted :
      OnlyReads check
      → {out : T} {db' : Db}
      → checked_task_mutation p actor op scope key input check fn db ≡ ok (out, db')
      → Accepted out db'
  unfolding receipt_mutation replays
  checked-Accepted reads {out} {db'} h =
      let (a, keyed, _, _, h₁) = checked-eq-ok p actor op scope key input check fn db h in
      let (u, mid, passed, h₂) = bind_result-eq-ok (check db) _ h₁ in
      let same : mid ≡ db = reads db u mid passed in
      elim (answer-cases (request_of a op scope key) (receipt_digest p.hashing input) fn
        (find_receipt (request_of a op scope key) mid.requests) mid h₂) [
          | inl (r, found, digest, left) ↦ replayed (ground arith) (rw same at passed) (left ∙ same)
          | inr (missing, one) ↦ applied a (ground arith) (rw same at passed) (
              subst
                (λ m.
                  Applied (request_of a op scope key) (receipt_digest p.hashing input) fn m out db')
                same one)
        ]

  -- Either way the check passed.
  pub Accepted-checked : {out : T} {db' : Db} → Accepted out db' → check db ≡ ok (tt, db)
  Accepted-checked (replayed _ passed _) = passed
  Accepted-checked (applied _ _ passed _) = passed

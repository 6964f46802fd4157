-- ===== src/Store/Secrets.antt =====
-- Operations of internal/store that behave alike whatever the secrets of the real tokens are.
pub mod Operations
use claude_gate.Prelude.{
  ℕ, String, ◌≡◌, refl, sym, ap, ◌∙◌, Bool, true, false, List, [], ◌∷◌, map, arith, eqb,
  if◌then◌else◌, inl, inr, none, ◌+◌,
}
use claude_gate.Prelude.Result.{Error, Result, ok, err, attempt}
use claude_gate.Prelude.Exec.{Exec, pure, raise, lift, gets, wrapping, modify, ◌>>=◌}
use claude_gate.Store.Table.{exists, select, update, delete, count, at}
use claude_gate.Store.Rows.{Db, RealRow}
use claude_gate.Store.Engine.{Engine, Io, call, statement, commit_tx, begin_tx, rows_affected}
use claude_gate.Store.Statements.{affecting, in_tx, with_tx, committed_by, bool_to_int}
use claude_gate.Store.RealTokens.{update_real, update_real_token, set_real_token_active}
use claude_gate.Store.GateTokens.{
  insert_gate, create_gate_token, update_gate, update_gate_token, set_gate_token_active,
}
use claude_gate.Store.Cascade.{
  TokenKind, real, gate, delete_token_row, cascade_delete, delete_real_token, delete_gate_token,
}
use claude_gate.Store.Usage.{query_usage_stats}

-- A row and a database without the secrets.
abbrev pub redacted : RealRow → RealRow
redacted r = record r { access_token = ""; refresh_token = "" }

abbrev pub redact : Db → Db
redact db = record db { real_tokens = map redacted db.real_tokens }

-- The answer is the same without the secrets, and so is what is left behind.
pub record Blind {A : Type 0} (m : Exec Db A) : Type 0 where
  pub answer : (db : Db) → (m (redact db)).0 ≡ (m db).0
  pub after : (db : Db) → (m (redact db)).1 ≡ redact (m db).1

exists-redacted :
    (key : RealRow → String) (k : String) (rs : List RealRow)
    → ((r : RealRow) → key (redacted r) ≡ key r)
    → exists (at key k) (map redacted rs) ≡ exists (at key k) rs
unfolding exists
exists-redacted key k [] h = refl
exists-redacted key k (r ∷ rs) h = ground (arith, h r, exists-redacted key k rs h)

pub count-redacted :
    (id : String) (rs : List RealRow)
    → count (at (λ r. r.id) id) (map redacted rs) ≡ count (at (λ r. r.id) id) rs
unfolding count
count-redacted id [] = refl
count-redacted id (r ∷ rs) = ground (arith, count-redacted id rs)

pub delete-redacted :
    (id : String) (rs : List RealRow)
    → delete (at (λ r. r.id) id) (map redacted rs) ≡ map redacted (delete (at (λ r. r.id) id) rs)
unfolding delete
delete-redacted id [] = refl
delete-redacted id (r ∷ rs) = ground (arith, delete-redacted id rs)

pub update-redacted :
    (id : String) (set : RealRow → RealRow) (rs : List RealRow)
    → ((r : RealRow) → set (redacted r) ≡ redacted (set r))
    → update (at (λ r. r.id) id) set (map redacted rs)
      ≡ map redacted (update (at (λ r. r.id) id) set rs)
unfolding update
update-redacted id set [] h = refl
update-redacted id set (r ∷ rs) h = ground (arith, h r, update-redacted id set rs h)

module _ {A : Type 0} where
  pub Blind-lift : (r : Result A) → Blind (lift r)
  Blind-lift r = record { answer = λ db. refl; after = λ db. refl }

  pub Blind-gets : (f : Db → A) → ((db : Db) → f (redact db) ≡ f db) → Blind (gets f)
  Blind-gets f h = record { answer = λ db. ap ok (h db); after = λ db. refl }

  pub Blind-wrapping : (text : String) {m : Exec Db A} → Blind m → Blind (wrapping text m)
  Blind-wrapping text b = record {
    answer = λ db. ap (claude_gate.Prelude.Result.wrapped text) (b.answer db);
    after = b.after;
  }

pub Blind-modify : (f : Db → Db) → ((db : Db) → f (redact db) ≡ redact (f db)) → Blind (modify f)
Blind-modify f h = record { answer = λ db. refl; after = h }

module _ {A B : Type 0} where
  Blind-continue :
      (f : A → Exec Db B) (r : Result A) (db : Db)
      → ((a : A) → Blind (f a))
      → ((claude_gate.Prelude.Exec.continue r f (redact db)).0
          ≡ (claude_gate.Prelude.Exec.continue r f db).0)
        × ((claude_gate.Prelude.Exec.continue r f (redact db)).1
            ≡ redact (claude_gate.Prelude.Exec.continue r f db).1)
  Blind-continue f (ok a) db b = ((b a).answer db, (b a).after db)
  Blind-continue f (err x) db b = (refl, refl)

  pub Blind-bind :
      {m : Exec Db A} {f : A → Exec Db B} → Blind m → ((a : A) → Blind (f a)) → Blind (m >>= f)
  Blind-bind {m} {f} b c = record {
    answer = λ db. rw (b.answer db, b.after db) (Blind-continue f (m db).0 (m db).1 c).0;
    after = λ db. rw (b.answer db, b.after db) (Blind-continue f (m db).0 (m db).1 c).1;
  }

module _ {A : Type 0} where
  pub Blind-tx : (io : Io) {m : Exec Db A} → Blind m → Blind (in_tx io m)
  unfolding in_tx
  Blind-tx io {m} b = record {
    answer =
        λ db. rw (b.answer db, b.after db) (committed (m db).0 (m db).1 (call io commit_tx) db).0;
    after =
        λ db. rw (b.answer db, b.after db) (committed (m db).0 (m db).1 (call io commit_tx) db).1;
  }
    where
      committed :
          (r : Result A) (new : Db) (c : Result (Unit {0})) (db : Db)
          → ((committed_by c (redact db) (r, redact new)).0 ≡ (committed_by c db (r, new)).0)
            × ((committed_by c (redact db) (r, redact new)).1
                ≡ redact (committed_by c db (r, new)).1)
      committed (ok a) new (ok u) db = (refl, refl)
      committed (ok a) new (err x) db = (refl, refl)
      committed (err x) new c db = (refl, refl)

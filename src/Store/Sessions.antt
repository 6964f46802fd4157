-- ===== src/Store/Sessions.antt =====
-- What GetStickySession answers after the other operations of sticky.go.
use claude_gate.Prelude.{
  ℕ, ◌≤◌, String, ◌≡◌, refl, Bool, true, not, ◌&&◌, some, List, [], ◌∷◌, arith, Bool-cases, inl,
  inr, eq_refl, eq_iff,
}
use claude_gate.Prelude.Result.{ok}
use claude_gate.Store.Table.{exists, first, update, delete, at}
use claude_gate.Store.Rows.{Db, StickyRow}
use claude_gate.Store.Engine.{Engine, Io, IsCalm, IsSql, statement}
use claude_gate.Store.Sticky.{
  has_parents, is_live, upsert_sticky, upsert_sticky_session, get_sticky_session,
  delete_expired_sticky_sessions,
}

module _ (e : Engine) (now : ℕ) (row : StickyRow) (alive : is_live e now row ≡ true) where
  abbrev current : StickyRow → Bool
  current s = at (λ x. x.gate_token_id) row.gate_token_id s && is_live e now s

  first-overwrite :
      (ss : List StickyRow)
      → exists (at (λ x. x.gate_token_id) row.gate_token_id) ss ≡ true
      → first current (
          update
            (at (λ x. x.gate_token_id) row.gate_token_id)
            (λ s. record s { real_token_id = row.real_token_id; expires_at = row.expires_at })
            ss)
        ≡ some row
  unfolding first update exists is_live
  first-overwrite [] h = ground arith
  first-overwrite (s ∷ ss) h = ground (
    arith,
    first-overwrite ss,
    eq_iff s.gate_token_id row.gate_token_id,
    eq_refl row.gate_token_id,
  )

  -- The row that an upsert leaves is the one that a query for its gate token finds.
  first-upsert :
      (db db' : Db)
      → upsert_sticky row db ≡ (ok tt, db')
      → first current db'.sticky_sessions ≡ some row
  unfolding upsert_sticky first
  first-upsert db db' h = elim (Bool-cases (has_parents db row.gate_token_id row.real_token_id)) [
    | inr orphan ↦ ground arith
    | inl held ↦
        elim (Bool-cases
          (exists (at (λ x. x.gate_token_id) row.gate_token_id) db.sticky_sessions)) [
            | inl old ↦ ground (arith, first-overwrite db.sticky_sessions old)
            | inr new ↦ ground (arith, eq_refl row.gate_token_id)
          ]
  ]

-- After an upsert that succeeded, and until its expiry, a query for the gate token that the engine
-- does not fail returns exactly the session that was written, and changes nothing.
pub get-upsert :
    (e : Engine) (io look : Io) (gate real : String) (expires_at : ℕ) (db db' : Db)
    → IsSql e
    → IsCalm look
    → upsert_sticky_session e io gate real expires_at db ≡ (ok tt, db')
    → look.now ≤ expires_at
    → get_sticky_session e look gate db' ≡ (
      ok (some (record { gate_token_id = gate; real_token_id = real; expires_at = expires_at })),
      db',
    )
unfolding get_sticky_session upsert_sticky_session
get-upsert e io look gate real expires_at db db' sql calm written le =
    let row : StickyRow = record {
      gate_token_id = gate;
      real_token_id = real;
      expires_at = e.bind_time expires_at;
    } in
    let alive : is_live e look.now row ≡ true =
      unfold is_live in sql.bind_after look.now expires_at le in
    ground (
      arith,
      first-upsert e look.now row alive db db',
      calm.live,
      calm.quiet (statement 0),
      sql.read-bind expires_at,
    )

first-delete_dead :
    (e : Engine) (now : ℕ) (gate : String) (ss : List StickyRow)
    → first
        (λ s. at (λ x. x.gate_token_id) gate s && is_live e now s)
        (delete (λ s. not (is_live e now s)) ss)
      ≡ first (λ s. at (λ x. x.gate_token_id) gate s && is_live e now s) ss
unfolding first delete
first-delete_dead e now gate [] = refl
first-delete_dead e now gate (s ∷ ss) = ground (arith, first-delete_dead e now gate ss)

-- The cleanup deletes no session that a query could still return: at the instant of the cleanup every
-- query of a gate token has the answer that it had before, whether the engine fails the query, the
-- cleanup, both or neither.
pub get-delete_expired :
    (e : Engine) (io look : Io) (gate : String) (db : Db)
    → look.now ≡ io.now
    → (get_sticky_session e look gate (delete_expired_sticky_sessions e io db).1).0
      ≡ (get_sticky_session e look gate db).0
unfolding get_sticky_session delete_expired_sticky_sessions
get-delete_expired e io look gate db same =
    rw same (ground (arith, first-delete_dead e io.now gate db.sticky_sessions))

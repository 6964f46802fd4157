-- ===== src/Token/Manager/Failures.antt =====
-- RecordFailure of internal/token/manager.go: the real token, the other ones and the timer.
use claude_gate.Prelude.{
  ℕ, ◌+◌, String, ◌≡◌, ◌≢◌, refl, Bool, false, List, [], ◌∷◌, none, some, arith, ℤ, le_ℤ,
  if◌then◌else◌, Bool-cases, inl, inr, ap, ◌∙◌,
}
use claude_gate.Prelude.Result.{ok, err, no_rows}
use claude_gate.Store.Table.{at, first, update, map_option, first-update_self, first-update_ne}
use claude_gate.Store.Rows.{Db, RealRow, scan_real_token}
use claude_gate.Store.Engine.{Engine, Io, IsCalm}
use claude_gate.Store.Calm.{
  counted, switched, find_real, rewrite_real, increment_lem, get_some, get_none, set_active_some,
}
use claude_gate.Token.Manager.{Manager, record_failure, pool_refresh_debounce}

-- The row after one more failure at the instants of the two updates.
unfoldable pub failed_row : Engine → ℤ → ℕ → ℕ → RealRow → RealRow
failed_row e max_failures inc off r =
    if le_ℤ max_failures (r.failure_count + 1)
    then switched e off false (counted e inc r)
    else counted e inc r

update_missing :
    {R : Type 0} (p : R → Bool) (set : R → R) (rs : List R)
    → first p rs ≡ none
    → update p set rs ≡ rs
unfolding first update
update_missing p set [] h = refl
update_missing p set (r ∷ rs) h = ground (arith, update_missing p set rs)

module _ {C : Type 0} (e : Engine) (inc get off : Io) (id : String) (m : Manager C) where
  -- The store after the increment, and after the whole call.
  abbrev pub once : Db
  once = rewrite_real id (counted e inc.now) m.sticky.store

  abbrev pub failed_store : RealRow → Db
  failed_store r =
      if le_ℤ m.max_failures (r.failure_count + 1)
      then rewrite_real id (switched e off.now false) once
      else once

  found_once :
      (r : RealRow)
      → find_real id m.sticky.store ≡ some r
      → find_real id once ≡ some (counted e inc.now r)
  found_once r here =
      first-update_self (λ x. x.id) (counted e inc.now) (λ x. refl) id m.sticky.store.real_tokens
      ∙ ap (map_option (counted e inc.now)) here

  pub record_failure_run :
      (r : RealRow)
      → IsCalm inc
      → IsCalm get
      → IsCalm off
      → find_real id m.sticky.store ≡ some r
      → record_failure e inc get off id m ≡ (
        ok tt,
        record m {
          sticky = record m.sticky { store = failed_store r };
          refresh_at = some (off.now + pool_refresh_debounce);
        },
      )
  unfolding record_failure scan_real_token
  record_failure_run r ci cg co here =
      let found = found_once r here in
      let steps = increment_lem e inc ci id m.sticky.store in
      let seen = get_some e get cg id once (counted e inc.now r) found in
      let offed = set_active_some e off co id once false (counted e inc.now r) found in
      elim (Bool-cases (le_ℤ m.max_failures (r.failure_count + 1))) [
        | inl full ↦ ground arith
        | inr room ↦ ground arith
      ]

  pub failed_store_self :
      (r : RealRow)
      → find_real id m.sticky.store ≡ some r
      → find_real id (failed_store r) ≡ some (failed_row e m.max_failures inc.now off.now r)
  unfolding failed_row
  failed_store_self r here = ground (
    arith,
    found_once r here,
    first-update_self (λ x. x.id) (switched e off.now false) (λ x. refl) id once.real_tokens,
  )

  failed_store-ne :
      (r : RealRow) (other : String)
      → id ≢ other
      → find_real other (failed_store r) ≡ find_real other m.sticky.store
  failed_store-ne r other ne = ground (
    arith,
    first-update_ne (λ x. x.id) (counted e inc.now) (λ x. refl) id other m.sticky.store.real_tokens
        ne,
    first-update_ne (λ x. x.id) (switched e off.now false) (λ x. refl) id other once.real_tokens ne,
  )

  -- Without an engine error, RecordFailure of a token that is there succeeds and adds one to the
  -- token's failures; the token is switched off if the failures then reach the limit, and stays as
  -- active as it was otherwise. Every other real token stays as it was, and a refresh of the pool is
  -- due 100ms later.
  pub record_failure_exact :
      (r : RealRow)
      → IsCalm inc
      → IsCalm get
      → IsCalm off
      → find_real id m.sticky.store ≡ some r
      → ((record_failure e inc get off id m).0 ≡ ok tt)
        × (find_real id (record_failure e inc get off id m).1.sticky.store
            ≡ some (failed_row e m.max_failures inc.now off.now r))
        × ((other : String)
            → id ≢ other
            → find_real other (record_failure e inc get off id m).1.sticky.store
              ≡ find_real other m.sticky.store)
        × ((record_failure e inc get off id m).1.refresh_at
            ≡ some (off.now + pool_refresh_debounce))
  record_failure_exact r ci cg co here =
      let run = record_failure_run r ci cg co here in
      (
        ap (λ x. x.0) run,
        ap (λ x. find_real id x.1.sticky.store) run ∙ failed_store_self r here,
        λ other ne. ap (λ x. find_real other x.1.sticky.store) run ∙ failed_store-ne r other ne,
        ap (λ x. x.1.refresh_at) run,
      )

  -- RecordFailure of a token that is not there ends with sql.ErrNoRows and asks for no refresh.
  pub record_failure-none :
      IsCalm inc
      → IsCalm get
      → find_real id m.sticky.store ≡ none
      → ((record_failure e inc get off id m).0 ≡ err no_rows)
        × ((record_failure e inc get off id m).1.refresh_at ≡ m.refresh_at)
  unfolding record_failure
  record_failure-none ci cg gone =
      let steps = increment_lem e inc ci id m.sticky.store in
      let still =
        first-update_self (λ x. x.id) (counted e inc.now) (λ x. refl) id
          m.sticky.store.real_tokens in
      let missing : find_real id once ≡ none = still ∙ ap (map_option (counted e inc.now)) gone in
      let none_seen = get_none e get cg id once missing in (ground arith, ground arith)

  -- The whole call for a token that is not there.
  pub record_failure_gone :
      IsCalm inc
      → IsCalm get
      → find_real id m.sticky.store ≡ none
      → (record_failure e inc get off id m).1 ≡ m
  unfolding record_failure
  record_failure_gone ci cg gone =
      let steps = increment_lem e inc ci id m.sticky.store in
      let same : once ≡ m.sticky.store =
        ap (λ rs. record m.sticky.store { real_tokens = rs })
          (update_missing (at (λ x. x.id) id) (counted e inc.now) m.sticky.store.real_tokens
            gone) in
      let none_seen = get_none e get cg id once (ap (find_real id) same ∙ gone) in
      ground (arith, ap (λ db. db.real_tokens) same)

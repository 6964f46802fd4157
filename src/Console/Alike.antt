-- ===== src/Console/Alike.antt =====
-- The handlers of the admin API on two databases that differ in the secrets of the real tokens.
use claude_gate.Prelude.{
  ◌≡◌, refl, sym, ap, ◌∙◌, Bool, not, ◌&&◌, ◌==◌, Option, none, some, List, [], ◌∷◌, map, arith,
  Bool-cases, inl, inr,
}
use claude_gate.Prelude.Bytes.{starts_with}
use claude_gate.Prelude.Exec.{Exec}
use claude_gate.Prelude.Result.{Result, ok, err}
use claude_gate.Store.Rows.{Db, UsageLog, RealRow, scan_real_token}
use claude_gate.Store.Engine.{Engine, Io}
use claude_gate.Store.RealTokens.{list_real_tokens}
use claude_gate.Store.Usage.{query_usage_stats}
use claude_gate.Console.Serving.{list_real_same}
use claude_gate.Store.Cascade.{TokenKind, real, gate}
use claude_gate.Store.Secrets.{redacted, redact, Blind}
use claude_gate.Store.Secrets.Operations.{
  update_real_token-Blind, set_real_token_active-Blind, update_gate_token-Blind,
  set_gate_token_active-Blind, create_gate_token-Blind, delete_real_token-Blind,
  delete_gate_token-Blind, query_usage_stats-Blind,
}
use claude_gate.Token.Manager.{Manager, on_store, refresh_pool}
use claude_gate.Admin.Http.{
  AdminRequest, AdminReply, Codecs, CreateGateTokenRequest, UpdateTokenRequest, sanitize_real_token,
}
use claude_gate.Admin.Tokens.{
  switched_reply, deleted_reply, renamed_reply, update_name, rename_decoded, set_token_active,
  delete_token,
}
use claude_gate.Admin.Creation.{Draws, create_gate_decoded, gate_created}
use claude_gate.Admin.Reports.{real_list_reply, usage_reply, list_real}
use claude_gate.Console.{on_pool_changed}

-- ORDER BY created_at DESC looks at no secret.
pub record OrdersBlind (e : Engine) : Type 0 where
  pub blind :
      (rs : List RealRow)
      → e.order_real_desc (map redacted rs) ≡ map redacted (e.order_real_desc rs)

module _ {C : Type 0} where
  -- The databases are the same but for the secrets.
  abbrev pub Alike : Manager C → Manager C → Type 0
  Alike m m' = redact m.sticky.store ≡ redact m'.sticky.store

  -- The same answer, and managers that are alike again.
  abbrev pub Same : AdminReply × Manager C → AdminReply × Manager C → Type 0
  Same a b = (a.0 ≡ b.0) × Alike a.1 b.1

  -- What is done with the answer of an operation that knows no secret.
  pub stored :
      {A : Type 0} {op : Exec Db A} (f : Result A → Manager C → AdminReply × Manager C)
      (m m' : Manager C)
      → Blind op
      → ((r : Result A) (n n' : Manager C) → Alike n n' → Same (f r n) (f r n'))
      → Alike m m'
      → Same (f (on_store op m).0 (on_store op m).1) (f (on_store op m').0 (on_store op m').1)
  stored {op} f m m' b keeps alike =
      let one = b.answer m.sticky.store in
      let two = b.answer m'.sticky.store in
      let answers : (on_store op m').0 ≡ (on_store op m).0 =
        sym two ∙ ap (λ db. (op db).0) (sym alike) ∙ one in
      let left : Alike (on_store op m).1 (on_store op m').1 =
        sym (b.after m.sticky.store) ∙ ap (λ db. (op db).1) alike ∙ b.after m'.sticky.store in
      rw answers (keeps (on_store op m).0 (on_store op m).1 (on_store op m').1 left)

sanitized :
    (rs : List RealRow)
    → map sanitize_real_token (map scan_real_token (map redacted rs))
      ≡ map sanitize_real_token (map scan_real_token rs)
unfolding sanitize_real_token scan_real_token
sanitized [] = refl
sanitized (x ∷ rs) = ap (λ ts. sanitize_real_token (scan_real_token x) ∷ ts) (sanitized rs)

list_blind :
    (e : Engine) (io : Io) (db : Db)
    → OrdersBlind e
    → real_list_reply (list_real_tokens e io (redact db)).0
      ≡ real_list_reply (list_real_tokens e io db).0
unfolding list_real_tokens
list_blind e io db orders =
    let rows = db.real_tokens in
    let same : map sanitize_real_token (map scan_real_token (e.order_real_desc (map redacted rows)))
        ≡ map sanitize_real_token (map scan_real_token (e.order_real_desc rows)) =
      rw (orders.blind rows) (sanitized (e.order_real_desc rows)) in
    ground (arith, same)

module _ {C : Type 0} (c : Codecs) (e : Engine) (io : Io) (d : Draws) (r : AdminRequest) where
  abbrev changed : Manager C → Manager C
  changed = on_pool_changed io.now

  switched-Same :
      (k : TokenKind) (active : Bool) (res : Result (Unit {0})) (n n' : Manager C)
      → Alike n n'
      → Same
          (switched_reply c changed r k active res n)
          (switched_reply c changed r k active res n')
  unfolding refresh_pool
  switched-Same real active (ok u) n n' h = (refl, h)
  switched-Same gate active (ok u) n n' h = (refl, h)
  switched-Same k active (err x) n n' h = (refl, h)

  deleted-Same :
      (k : TokenKind) (res : Result (Unit {0})) (n n' : Manager C)
      → Alike n n'
      → Same (deleted_reply c changed r k res n) (deleted_reply c changed r k res n')
  unfolding refresh_pool
  deleted-Same real (ok u) n n' h = (refl, h)
  deleted-Same gate (ok u) n n' h = (refl, h)
  deleted-Same k (err x) n n' h = (refl, h)

  pub switch-Same :
      (k : TokenKind) (active : Bool) (m m' : Manager C)
      → Alike m m'
      → Same
          (set_token_active c changed e io r k active m)
          (set_token_active c changed e io r k active m')
  unfolding set_token_active
  switch-Same real active m m' h =
      stored (switched_reply c changed r real active) m m'
        (set_real_token_active-Blind io e r.id active) (switched-Same real active) h
  switch-Same gate active m m' h =
      stored (switched_reply c changed r gate active) m m'
        (set_gate_token_active-Blind io e r.id active) (switched-Same gate active) h

  pub deletion-Same :
      (k : TokenKind) (m m' : Manager C)
      → Alike m m'
      → Same (delete_token c changed io r k m) (delete_token c changed io r k m')
  unfolding delete_token
  deletion-Same real m m' h =
      stored (deleted_reply c changed r real) m m' (delete_real_token-Blind io r.id)
        (deleted-Same real) h
  deletion-Same gate m m' h =
      stored (deleted_reply c changed r gate) m m' (delete_gate_token-Blind io r.id)
        (deleted-Same gate) h

  pub renamed-Same :
      (k : TokenKind) (o : Option UpdateTokenRequest) (m m' : Manager C)
      → Alike m m'
      → Same (rename_decoded e io r k o m) (rename_decoded e io r k o m')
  renamed-Same k none m m' h = (refl, h)
  renamed-Same k (some req) m m' h = elim (Bool-cases (req.name == "")) [
    | inl empty ↦ rw empty (refl, h)
    | inr full ↦ rw full (write k)
  ]
    where
      write :
          (k : TokenKind)
          → Same
              (
                renamed_reply r k req.name (on_store (update_name e io k r.id req.name) m).0,
                (on_store (update_name e io k r.id req.name) m).1,
              )
              (
                renamed_reply r k req.name (on_store (update_name e io k r.id req.name) m').0,
                (on_store (update_name e io k r.id req.name) m').1,
              )
      write real =
          stored (λ res n. (renamed_reply r real req.name res, n)) m m'
            (update_real_token-Blind io e r.id req.name) (λ res n n' h. (refl, h)) h
      write gate =
          stored (λ res n. (renamed_reply r gate req.name res, n)) m m'
            (update_gate_token-Blind io e r.id req.name) (λ res n n' h. (refl, h)) h

  pub gate_created-Same :
      (o : Option CreateGateTokenRequest) (m m' : Manager C)
      → Alike m m'
      → Same (create_gate_decoded c e io d r o m) (create_gate_decoded c e io d r o m')
  gate_created-Same none m m' h = (refl, h)
  gate_created-Same (some req) m m' h = elim (Bool-cases (req.name == "")) [
    | inl empty ↦ rw empty (refl, h)
    | inr full ↦ elim (Bool-cases (not (req.token == "") && not (starts_with req.token "gate-"))) [
      | inl foreign ↦ rw (full, foreign) (refl, h)
      | inr fine ↦
          rw (full, fine)
            (stored (λ res n. (gate_created c r res, n)) m m'
              (create_gate_token-Blind io e d.id d.generated req.name req.token)
              (λ res n n' h. (refl, h)) h)
    ]
  ]

  pub usage-Same :
      (p : UsageLog → Bool) (m m' : Manager C)
      → Alike m m'
      → Same
          (
            usage_reply (on_store (query_usage_stats e io p) m).0,
            (on_store (query_usage_stats e io p) m).1,
          )
          (
            usage_reply (on_store (query_usage_stats e io p) m').0,
            (on_store (query_usage_stats e io p) m').1,
          )
  usage-Same p m m' h =
      stored (λ res n. (usage_reply res, n)) m m' (query_usage_stats-Blind io e p)
        (λ res n n' h. (refl, h)) h

  -- The list of the real tokens.
  pub listed-Same :
      (m m' : Manager C) → OrdersBlind e → Alike m m' → Same (list_real e io m) (list_real e io m')
  unfolding list_real
  listed-Same m m' orders h =
      let db = m.sticky.store in
      let db' = m'.sticky.store in
      (
        sym (list_blind e io db orders)
            ∙ ap (λ x. real_list_reply (list_real_tokens e io x).0) h
            ∙ list_blind e io db' orders,
        ap redact (list_real_same e io db) ∙ h ∙ sym (ap redact (list_real_same e io db')),
      )

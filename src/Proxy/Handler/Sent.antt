-- ===== src/Proxy/Handler/Sent.antt =====
-- What the reading of a response of internal/proxy/proxy.go can send to the channel.
use claude_gate.Prelude.{
  ℕ, String, ◌≡◌, refl, true, false, ◌⊎◌, inl, inr, Option, none, some, List, foldl, [], ◌∷◌, arith,
  Bool-cases,
}
use claude_gate.Prelude.Bytes.{cut_prefix}
use claude_gate.Prelude.Result.{ok}
use claude_gate.Store.GateTokens.{get_gate_token_by_token}
use claude_gate.Store.Rows.{GateToken, RealToken}
use claude_gate.Token.Manager.{Manager}
use claude_gate.Proxy.Tap.{Json, UsageData, TappingReader, ReadEnd, more, eof, failed}
use claude_gate.Proxy.Tap.Chunks.{feed, IsPartial, feed-IsPartial}
use claude_gate.Proxy.Tap.Completion.{read_all, read_lem, read_all-disarmed}
use claude_gate.Proxy.Writer.{UsageEntry}
use claude_gate.Proxy.Exchange.{Incoming}
use claude_gate.Proxy.Handler.{ProxyHandler, ServeIo, entry_of, send_usage, send_each}

-- However a stream is read, onComplete is called once at most.
module _ (j : Json) where
  pub read_all_short :
      (rs : List (List ℕ × ReadEnd)) (t : TappingReader)
      → IsPartial t
      → ((read_all j rs t).1 ≡ []) ⊎ ((u : UsageData) × ((read_all j rs t).1 ≡ u ∷ []))
  unfolding read_all
  read_all_short [] t part = inl refl
  read_all_short ((chunk, more) ∷ rest) t part =
      rw (read_lem j chunk more t part)
        (read_all_short rest (foldl (feed j) t chunk) (feed-IsPartial j chunk t part))
  read_all_short ((chunk, failed) ∷ rest) t part =
      rw (read_lem j chunk failed t part)
        (read_all_short rest (foldl (feed j) t chunk) (feed-IsPartial j chunk t part))
  read_all_short ((chunk, eof) ∷ rest) t part =
      let t' = foldl (feed j) t chunk in
      let part' = feed-IsPartial j chunk t part in
      elim (Bool-cases t'.armed) [
        | inl on ↦ inr (
          t'.usage,
          ground (
            arith,
            read_lem j chunk eof t part,
            read_all-disarmed j rest (record t' { armed = false }) part' refl,
          ),
        )
        | inr off ↦
            inl (ground (arith, read_lem j chunk eof t part, read_all-disarmed j rest t' part' off))
      ]

-- The entry, if there is one, names the gate token and the path of the request.
abbrev pub IsFor : GateToken → Incoming → Option UsageEntry → Type 0
IsFor gt r none = Unit
IsFor gt r (some x) = (x.gate_token_id ≡ gt.id) × (x.request_path ≡ r.path)

module _ {C : Type 0} where
  abbrev pub sent : Option UsageEntry → ProxyHandler C → ProxyHandler C
  sent none s = s
  sent (some x) s = send_usage x s

  -- The handler with another manager, and an entry of the request or none sent to the channel.
  pub record IsOnce (gt : GateToken) (r : Incoming) (s s' : ProxyHandler C) : Type 0 where
    pub manager : Manager C
    pub entry : Option UsageEntry
    pub belongs : IsFor gt r entry
    pub same : s' ≡ sent entry (record s { manager = manager })

  pub sent_manager :
      (x : UsageEntry) (s : ProxyHandler C) (m : Manager C)
      → record (send_usage x s) { manager = m } ≡ send_usage x (record s { manager = m })
  unfolding send_usage
  sent_manager x s m = ground arith

  pub each-IsOnce :
      (gt : GateToken) (t : RealToken) (r : Incoming) (status : ℕ) (us : List UsageData)
      (s : ProxyHandler C) (m : Manager C)
      → (us ≡ []) ⊎ ((u : UsageData) × (us ≡ u ∷ []))
      → IsOnce gt r s (send_each (entry_of gt t r.path status) us (record s { manager = m }))
  unfolding send_each
  each-IsOnce gt t r status us s m (inl empty) = record {
    manager = m;
    entry = none;
    belongs = tt;
    same = rw empty refl;
  }
  each-IsOnce gt t r status us s m (inr (u, one)) = record {
    manager = m;
    entry = some (entry_of gt t r.path status u);
    belongs = (refl, refl);
    same = rw one refl;
  }

  -- The bearer token of the request is the one of this gate token, which is active.
  pub record IsBearer (f : ServeIo) (r : Incoming) (s : ProxyHandler C) (gt : GateToken)
      : Type 0 where
    pub text : String
    pub given : cut_prefix r.authorization "Bearer " ≡ some text
    pub known : (get_gate_token_by_token f.lookup text s.manager.sticky.store).0 ≡ ok gt
    pub active : gt.is_active ≡ true

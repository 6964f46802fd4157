-- ===== src/Proxy/Pipeline.antt =====
-- internal/proxy/setup.go: the handler and the writer joined by the channel, and the interleavings of
-- what they do.
pub mod Written
pub mod Channel
pub mod Settled
pub mod Conserved
pub mod Signalled
pub mod Metered
pub mod MeteredJson
use claude_gate.Prelude.{
  ℕ, String, Bool, true, false, Option, none, some, List, [], ◌∷◌, not, if◌then◌else◌,
}
use claude_gate.Store.Table.{map_option}
use claude_gate.Store.Rows.{Db}
use claude_gate.Store.Engine.{Engine}
use claude_gate.Token.Manager.{Manager}
use claude_gate.Proxy.Writer.{
  UsageEntry, UsageWriter, FlushIo, Event, entry, tick, cancelled, new_usage_writer, step,
}
use claude_gate.Proxy.Handler.{ProxyHandler, new_proxy_handler, send_usage}

-- The store is the handler's: the writer works on it in each of its rounds. `running` tells that Run
-- has not returned.
pub record Pipeline (C : Type 0) : Type 0 where
  pub handler : ProxyHandler C
  pub writer : UsageWriter
  pub running : Bool

-- Setup, before anything is sent; `parse` is url.Parse.
abbrev pub started : {C : Type 0} → ProxyHandler C → Pipeline C
started h = record { handler = h; writer = new_usage_writer h.manager.sticky.store; running = true }

unfoldable pub setup :
    {C : Type 0} → (String → Option (String × String)) → Manager C → String → Option (Pipeline C)
unfolding new_proxy_handler new_usage_writer
setup parse m upstream = map_option started (new_proxy_handler parse m upstream)

-- What can happen: the handler sends an entry; Run receives one, or its ticker's tick, or the
-- cancellation; the rest of the program changes the tokens, the pool, the sticky sessions and their
-- tables, as `elsewhere m` tells, but no usage log.
pub data Move (C : Type 0) : Type 0 where
  sends : UsageEntry → Move C
  receives ticks cancels : FlushIo → Move C
  elsewhere : Manager C → Move C

-- The store with the logs that `db` has.
abbrev pub logs_kept : Db → Db → Db
logs_kept db other = record other { usage_logs = db.usage_logs; next_log_id = db.next_log_id }

module _ {C : Type 0} where
  abbrev pub with_store : Db → Manager C → Manager C
  with_store db m = record m { sticky = record m.sticky { store = db } }

  abbrev pub store_of : Pipeline C → Db
  store_of s = s.handler.manager.sticky.store

  -- The writer as it finds the store.
  abbrev pub writer_of : Pipeline C → UsageWriter
  writer_of s = record s.writer { store = store_of s }

module _ {C : Type 0} (e : Engine) where
  -- A round of Run that leaves `queue` in the channel.
  abbrev pub round : FlushIo → Event → List UsageEntry → Pipeline C → Pipeline C
  round f ev queue s =
      let (w, stop) = step e f ev (writer_of s) in
      record s {
        handler = record s.handler {
          manager = with_store w.store s.handler.manager;
          queue = queue;
        };
        writer = w;
        running = not stop;
      }

  -- Run takes the oldest entry of the channel, and waits if there is none.
  abbrev pub receive : FlushIo → List UsageEntry → Pipeline C → Pipeline C
  receive f [] s = s
  receive f (x ∷ rest) s = round f (entry x) rest s

  abbrev pub move : Move C → Pipeline C → Pipeline C
  move (sends x) s = record s { handler = send_usage x s.handler }
  move (receives f) s = if s.running then receive f s.handler.queue s else s
  move (ticks f) s = if s.running then round f tick s.handler.queue s else s
  move (cancels f) s = if s.running then round f (cancelled s.handler.queue) [] s else s
  move (elsewhere m) s = record s {
    handler = record s.handler { manager = with_store (logs_kept (store_of s) m.sticky.store) m };
  }

  unfoldable pub moved : List (Move C) → Pipeline C → Pipeline C
  unfolding send_usage step
  moved [] s = s
  moved (mv ∷ mvs) s = moved mvs (move mv s)

-- ===== src/Examples/Services.antt =====
-- The theorems on the end of main at the pipeline of the sample.
use claude_gate.Prelude.{not, ◌&&◌, ◌||◌, ◌≡◌, refl, true, false, List}
use claude_gate.Proxy.Pipeline.{Move, sends, receives, cancels, move}
use claude_gate.Proxy.Writer.{with_done}
use claude_gate.Shutdown.{
  cancel_shutdown, cancel_writer, stop_manager, stop_signals, close_db, shutting_down, returned,
  Service, serve, works, loop_returns, evicting_ends, signals, shuts_down, defers, returns, History,
  here, next,
}
use claude_gate.Shutdown.Orderly.{has_returned, serve_orderly}
use claude_gate.Shutdown.Finished.{logs, Returns, signalled_writes_nothing, signalled-Returns}
use claude_gate.Examples.{simple_engine, list_cache, Item}
use claude_gate.Examples.Pipelines.{first_pipeline, good, flush_io}

-- The signal has come, and the cleanup loop goes on.
abbrev told : Service (List Item)
told = record {
  pipeline = first_pipeline;
  looping = true;
  evicting = true;
  db_open = true;
  phase = shutting_down;
}

-- Main has returned.
abbrev over : Service (List Item)
over = record {
  pipeline = first_pipeline;
  looping = false;
  evicting = false;
  db_open = false;
  phase = returned;
}

whole_shutdown : History simple_engine list_cache (serve first_pipeline) over
unfolding serve
whole_shutdown =
    next
      (next
        (next
          (next
            (next
              (next
                (next
                  (next (next (next here (signals refl)) (shuts_down refl))
                    (defers cancel_shutdown _ refl tt))
                  (defers cancel_writer _ refl tt))
                (loop_returns refl refl refl))
              (evicting_ends _ refl refl))
            (defers stop_manager _ refl (refl, refl)))
          (defers stop_signals _ refl tt))
        (defers close_db _ refl tt))
      (returns refl)

serve_orderly_example :
    ((not over.db_open && over.looping) ≡ false)
    × ((has_returned over.phase && (over.looping || over.db_open)) ≡ false)
serve_orderly_example = serve_orderly simple_engine list_cache first_pipeline over whole_shutdown

signalled-Returns_example : Returns simple_engine list_cache told
signalled-Returns_example = signalled-Returns simple_engine list_cache told refl refl

abbrev worked : Move (List Item) → Service (List Item) → Service (List Item)
worked mv s = record s { pipeline = move simple_engine mv s.pipeline }

-- An entry is sent, taken by the writer, and lost with another one when the writer sees that its
-- context is done.
abbrev lost : Service (List Item)
lost =
    worked (cancels flush_io)
      (worked (sends good) (worked (receives (with_done flush_io)) (worked (sends good) told)))

losing : History simple_engine list_cache told lost
losing =
    next
      (next
        (next (next here (works (sends good) refl tt))
          (works (receives (with_done flush_io)) refl refl))
        (works (sends good) refl tt))
      (works (cancels flush_io) refl refl)

signalled_writes_nothing_example : logs lost ≡ logs told
signalled_writes_nothing_example =
    signalled_writes_nothing simple_engine list_cache told lost refl losing

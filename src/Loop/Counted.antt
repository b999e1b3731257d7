-- ===== src/Loop/Counted.antt =====
-- The cache after any run as the points that arrived, put in one after another.
use iec104bridge.Base.{◌≡◌, refl, sym, ap, ◌∙◌, List, [], ◌∷◌}
use iec104bridge.Platform.{Platform}
use iec104bridge.Sys.{Answers}
use iec104bridge.Store.Counting.{insert_all, insert_all-append}
use iec104bridge.Server.{Shared, Settings, handle_incoming_message}
use iec104bridge.Server.Incoming.{handle_incoming_message_store}
use iec104bridge.Loop.{
  LoopEvent, ctrl_c, stream_ended, receive_error, ctrl_c_unheard, received, run_message_loop,
  run_sources,
}
use iec104bridge.Loop.Cache.{arrivals, all_arrivals}

module _ {p : Platform} (answers : Answers p) (settings : Settings) (server : p.ServerPtr) where
  run_message_loop-insert_all :
      (es : List LoopEvent) (s : Shared p)
      → (run_message_loop answers settings server es s).1.store
        ≡ insert_all settings.default_ca (arrivals es) s.store
  unfolding run_message_loop
  run_message_loop-insert_all [] s = refl
  run_message_loop-insert_all (ctrl_c ∷ es) s = refl
  run_message_loop-insert_all (stream_ended ∷ es) s = refl
  run_message_loop-insert_all (receive_error ∷ es) s = run_message_loop-insert_all es s
  run_message_loop-insert_all (ctrl_c_unheard ∷ es) s = run_message_loop-insert_all es s
  run_message_loop-insert_all (received now incoming ∷ es) s =
      run_message_loop-insert_all es
        (handle_incoming_message answers settings server now incoming s).1
      ∙ ap (insert_all settings.default_ca (arrivals es))
          (handle_incoming_message_store answers settings server now incoming s)

  pub run_sources-insert_all :
      (sources : List (List LoopEvent)) (s : Shared p)
      → (run_sources answers settings server sources s).store
        ≡ insert_all settings.default_ca (all_arrivals sources) s.store
  unfolding run_sources
  run_sources-insert_all [] s = refl
  run_sources-insert_all (es ∷ rest) s =
      run_sources-insert_all rest (run_message_loop answers settings server es s).1
      ∙ ap (insert_all settings.default_ca (all_arrivals rest)) (run_message_loop-insert_all es s)
      ∙ sym (insert_all-append settings.default_ca (arrivals es) (all_arrivals rest) s.store)

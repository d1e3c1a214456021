-- ===== src/Server/Lifecycle.antt =====
-- Serve and Stop of pkg/server/server.go with the Runs of both caches, and the two goroutines of Run
-- in cmd/kiam/server.go that call them. The steps of the goroutines interleave. Of gRPC it is used that
-- GracefulStop ends Serve and makes a later Serve return at once, and of client-go that
-- WaitForCacheSync reports true once the cache has synced, and false once the context is done.
pub mod Laws
use kiam.Base.{Bool, true, false, ◌≡◌, ◌++◌}
use kiam.Base.Text.{Text, codes}
use kiam.Base.Outcome.{Error, other, error_text, waiting_for_sync}

-- Where the goroutine of Serve is; `fatal` is log.Fatalf.
pub data Main : Type 0 where
  building : Main
  starting : Main
  syncing_pods : Main
  syncing_namespaces : Main
  listening : Main
  serving : Main
  returned : Main
  fatal : Error → Main

-- Where the goroutine that stops the server is.
pub data Stopper : Type 0 where
  absent : Stopper
  waiting : Stopper
  stopping_grpc : Stopper
  closing_listener : Stopper
  closing_tls : Stopper
  cancelling : Stopper
  finished : Stopper

pub record Process : Type 0 where
  pub main : Main
  pub stopper : Stopper
  pub managers_run : Bool
  pub pods_run : Bool
  pub pods_synced : Bool
  pub namespaces_run : Bool
  pub namespaces_synced : Bool
  pub grpc_stopped : Bool
  pub listener_closed : Bool
  pub tls_closed : Bool
  pub context_done : Bool

-- The process once its signals are notified, before the builder.
abbrev pub launched : Process
launched = record {
  main = building;
  stopper = absent;
  managers_run = false;
  pods_run = false;
  pods_synced = false;
  namespaces_run = false;
  namespaces_synced = false;
  grpc_stopped = false;
  listener_closed = false;
  tls_closed = false;
  context_done = false;
}

-- log.Fatalf on an error of a Run
abbrev pub sync_error : Text → Main
sync_error text = fatal (other (text ++ error_text waiting_for_sync))

-- `tls` is whether the server has a dynamic TLS configuration.
pub data Step (tls : Bool) : Process → Process → Type 0 where
  -- the builder is done, and both goroutines go on
  built :
      {s : Process}
      → s.main ≡ building
      → Step tls s (record s { main = starting; stopper = waiting })
  run_managers :
      {s : Process}
      → s.main ≡ starting
      → Step tls s (record s { main = syncing_pods; managers_run = true; pods_run = true })
  pods_sync : {s : Process} → s.pods_run ≡ true → Step tls s (record s { pods_synced = true })
  pods_ready :
      {s : Process}
      → s.main ≡ syncing_pods
      → s.pods_synced ≡ true
      → Step tls s (record s { main = syncing_namespaces; namespaces_run = true })
  pods_failed :
      {s : Process}
      → s.main ≡ syncing_pods
      → s.context_done ≡ true
      → Step tls s (record s { main = sync_error (codes "error starting pod cache: ") })
  namespaces_sync :
      {s : Process} → s.namespaces_run ≡ true → Step tls s (record s { namespaces_synced = true })
  namespaces_ready :
      {s : Process}
      → s.main ≡ syncing_namespaces
      → s.namespaces_synced ≡ true
      → Step tls s (record s { main = listening })
  namespaces_failed :
      {s : Process}
      → s.main ≡ syncing_namespaces
      → s.context_done ≡ true
      → Step tls s (record s { main = sync_error (codes "error starting namespace cache: ") })
  serve :
      {s : Process}
      → s.main ≡ listening
      → s.grpc_stopped ≡ false
      → Step tls s (record s { main = serving })
  serve_stopped :
      {s : Process}
      → s.main ≡ listening
      → s.grpc_stopped ≡ true
      → Step tls s (record s { main = returned })
  serve_returns :
      {s : Process}
      → s.main ≡ serving
      → s.grpc_stopped ≡ true
      → Step tls s (record s { main = returned })
  -- a signal is received by the goroutine that waits; the channel has no buffer, so that it is lost
  -- at any other time
  signal : {s : Process} → s.stopper ≡ waiting → Step tls s (record s { stopper = stopping_grpc })
  signal_lost : {s : Process} → s.stopper ≡ absent → Step tls s s
  graceful_stop :
      {s : Process}
      → s.stopper ≡ stopping_grpc
      → Step tls s (record s { stopper = closing_listener; grpc_stopped = true })
  close_listener :
      {s : Process}
      → s.stopper ≡ closing_listener
      → Step tls s (record s { stopper = closing_tls; listener_closed = true })
  close_tls :
      {s : Process}
      → s.stopper ≡ closing_tls
      → Step tls s (record s { stopper = cancelling; tls_closed = tls })
  cancel :
      {s : Process}
      → s.stopper ≡ cancelling
      → Step tls s (record s { stopper = finished; context_done = true })

-- The process can come from one state to another.
pub data Reaches (tls : Bool) : Process → Process → Type 0 where
  here : {s : Process} → Reaches tls s s
  then : {s t u : Process} → Reaches tls s t → Step tls t u → Reaches tls s u

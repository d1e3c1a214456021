-- ===== src/Server/Lifecycle/Laws.antt =====
-- What holds whenever requests are served, and after a signal.
use kiam.Base.{Bool, true, ◌≡◌, arith}
use kiam.Server.Lifecycle.{
  building, syncing_namespaces, listening, serving, absent, closing_listener, closing_tls,
  cancelling, finished, Process, launched, Step, built, run_managers, pods_sync, pods_ready,
  pods_failed, namespaces_sync, namespaces_ready, namespaces_failed, serve, serve_stopped,
  serve_returns, signal, signal_lost, graceful_stop, close_listener, close_tls, cancel, Reaches,
  here, then,
}

-- Where the two goroutines are, and what has happened by then.
record Inv (tls : Bool) (s : Process) : Type 0 where
  unstopped : s.main ≡ building → s.stopper ≡ absent
  namespaces_after_pods : s.main ≡ syncing_namespaces → s.pods_synced ≡ true
  listens_pods : s.main ≡ listening → s.pods_synced ≡ true
  listens_namespaces : s.main ≡ listening → s.namespaces_synced ≡ true
  serves_pods : s.main ≡ serving → s.pods_synced ≡ true
  serves_namespaces : s.main ≡ serving → s.namespaces_synced ≡ true
  stopped_first : s.stopper ≡ closing_listener → s.grpc_stopped ≡ true
  stopped_second : s.stopper ≡ closing_tls → s.grpc_stopped ≡ true
  closed_second : s.stopper ≡ closing_tls → s.listener_closed ≡ true
  stopped_third : s.stopper ≡ cancelling → s.grpc_stopped ≡ true
  closed_third : s.stopper ≡ cancelling → s.listener_closed ≡ true
  tls_third : s.stopper ≡ cancelling → s.tls_closed ≡ tls
  cancelled : s.context_done ≡ true → s.stopper ≡ finished
  stopped_last : s.context_done ≡ true → s.grpc_stopped ≡ true
  closed_last : s.context_done ≡ true → s.listener_closed ≡ true
  tls_last : s.context_done ≡ true → s.tls_closed ≡ tls

launched-Inv : (tls : Bool) → Inv tls launched
launched-Inv tls = ground arith

step-Inv : (tls : Bool) (s t : Process) → Inv tls s → Step tls s t → Inv tls t
step-Inv tls s _ v (built m) = ground arith
step-Inv tls s _ v (run_managers m) = ground arith
step-Inv tls s _ v (pods_sync r) = ground arith
step-Inv tls s _ v (pods_ready m r) = ground arith
step-Inv tls s _ v (pods_failed m d) = ground arith
step-Inv tls s _ v (namespaces_sync r) = ground arith
step-Inv tls s _ v (namespaces_ready m r) = ground arith
step-Inv tls s _ v (namespaces_failed m d) = ground arith
step-Inv tls s _ v (serve m g) = ground arith
step-Inv tls s _ v (serve_stopped m g) = ground arith
step-Inv tls s _ v (serve_returns m g) = ground arith
step-Inv tls s _ v (signal w) = ground arith
step-Inv tls s _ v (signal_lost w) = v
step-Inv tls s _ v (graceful_stop w) = ground arith
step-Inv tls s _ v (close_listener w) = ground arith
step-Inv tls s _ v (close_tls w) = ground arith
step-Inv tls s _ v (cancel w) = ground arith

Reaches-Inv : (tls : Bool) (s t : Process) → Inv tls s → Reaches tls s t → Inv tls t
Reaches-Inv tls s _ v here = v
Reaches-Inv tls s t v (then {t = m} r last) = step-Inv tls m t (Reaches-Inv tls s m v r) last

-- The order of Serve: however its goroutine, the signals, the goroutine that stops the server and the
-- caches' controllers interleave, requests are served only once both the pods and the namespaces have
-- synced with the API server.
pub serving_synced :
    (tls : Bool) (s : Process)
    → Reaches tls launched s
    → s.main ≡ serving
    → (s.pods_synced ≡ true) × (s.namespaces_synced ≡ true)
serving_synced tls s r m =
    let v = Reaches-Inv tls launched s (launched-Inv tls) r in
    (v.serves_pods m, v.serves_namespaces m)

-- The order of Stop: the context that the components run under is done only after gRPC has stopped
-- gracefully and the listener and the TLS configuration, if there is one, are closed.
cancelled_last :
    (tls : Bool) (s : Process)
    → Reaches tls launched s
    → s.context_done ≡ true
    → (s.grpc_stopped ≡ true) × (s.listener_closed ≡ true) × (s.tls_closed ≡ tls)
cancelled_last tls s r d =
    let v = Reaches-Inv tls launched s (launched-Inv tls) r in
    (v.stopped_last d, v.closed_last d, v.tls_last d)

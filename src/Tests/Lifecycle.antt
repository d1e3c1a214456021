-- ===== src/Tests/Lifecycle.antt =====
-- A process that serves.
use kiam.Base.{true, false, ◌≡◌, refl}
use kiam.Server.Lifecycle.{
  Process, serving, waiting, launched, Reaches, here, then, built, run_managers, pods_sync,
  pods_ready, namespaces_sync, namespaces_ready, serve,
}
use kiam.Server.Lifecycle.Laws.{serving_synced}

abbrev at_work : Process
at_work = record {
  main = serving;
  stopper = waiting;
  managers_run = true;
  pods_run = true;
  pods_synced = true;
  namespaces_run = true;
  namespaces_synced = true;
  grpc_stopped = false;
  listener_closed = false;
  tls_closed = false;
  context_done = false;
}

to_work : Reaches true launched at_work
to_work =
    then
      (then
        (then
          (then (then (then (then here (built refl)) (run_managers refl)) (pods_sync refl))
            (pods_ready refl refl))
          (namespaces_sync refl))
        (namespaces_ready refl refl))
      (serve refl refl)

serving_synced_example : (at_work.pods_synced ≡ true) × (at_work.namespaces_synced ≡ true)
serving_synced_example = serving_synced true at_work to_work refl

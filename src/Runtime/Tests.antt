-- ===== src/Runtime/Tests.antt =====
-- Runs of an adapter runtime on concrete states.
use tactical_core.Base.{
  ℕ, ◌+◌, ◌≡◌, refl, Bool, true, false, String, none, some, List, [], ◌∷◌, All,
}
use tactical_core.Base.Result.{Result, ok, err}
use tactical_core.Runtime.Lifecycle.{AdapterState, illegal_transition}
use tactical_core.Runtime.RestartPolicy.{RestartPolicy}
use tactical_core.Runtime.Adapter.{Runtime, new_runtime, stop, stop_request, stop_finish}
use tactical_core.Runtime.Adapter.Budget.{crash_loop, crash_loop_bounded}
use tactical_core.Runtime.Adapter.Stop.{stop_reaches_stopped, concurrent_stops_raise}
use tactical_core.Runtime.Adapter.Polling.{Poll}
use tactical_core.Runtime.Supervisor as Supervisor
use tactical_core.Runtime.Supervisor.{Supervisor, shutdown}
use tactical_core.Runtime.Supervisor.Isolation.{names, shutdown_stops}
use tactical_core.Runtime.Ingest.{Ingress, submit_raw, probe, status_of, submit_raw-durable}

abbrev policy : RestartPolicy
policy = record {
  max_restarts = 2;
  restart_delay = 1;
  reset_after_health = 60;
  restart_count = 0;
  last_healthy_at = none;
}

abbrev fresh_runtime : Runtime
fresh_runtime = new_runtime policy

abbrev starting_runtime : Runtime
starting_runtime = record fresh_runtime {
  state = AdapterState.starting;
  threads_spawned = 1;
  started_at = some 5;
}

abbrev running_runtime : Runtime
running_runtime = record starting_runtime { state = AdapterState.running; last_success_at = some 6 }

abbrev failed_runtime : Runtime
failed_runtime = record starting_runtime {
  state = AdapterState.failed;
  last_error = some "no port";
}

crash_loop_bounded_example :
    (s : Runtime) × (crash_loop "no port" 9 3 starting_runtime ≡ ok s)
    × (s.state ≡ AdapterState.failed)
    × (s.restarts ≡ 0 + 2)
    × (s.threads_spawned ≡ 1 + 2)
    × (s.policy.restart_count ≡ s.policy.max_restarts)
crash_loop_bounded_example = crash_loop_bounded "no port" 9 2 starting_runtime refl refl refl

abbrev meanwhile : Runtime → Runtime
meanwhile r = record r { events_processed = r.events_processed + 1 }

stop_reaches_stopped_example :
    (s : Runtime) × (stop meanwhile running_runtime ≡ ok s) × (s.state ≡ AdapterState.stopped)
stop_reaches_stopped_example = stop_reaches_stopped meanwhile running_runtime (λ q h. h)

concurrent_stops_raise_example :
    (q1 q2 s : Runtime) × (stop_request running_runtime ≡ ok (some q1))
    × (stop_request q1 ≡ ok (some q2))
    × (stop_finish q2 ≡ ok s)
    × (stop_finish s ≡ err (illegal_transition AdapterState.stopped AdapterState.stopped))
concurrent_stops_raise_example = concurrent_stops_raise running_runtime refl

abbrev polls : List Poll
polls =
    Poll.raised "timeout"
    ∷ Poll.returned 7 8 ((true, true) ∷ (true, false) ∷ (false, true) ∷ [])
    ∷ Poll.raised "timeout"
    ∷ []

-- The store is the list of the ids of its events, numbers stand for events.
abbrev ingress : Ingress (List ℕ) ℕ ℕ
ingress = record {
  create_event = λ raw. ok raw;
  event_id = λ e. some "e";
  process = λ e w. (ok true, e ∷ w);
  durability_probe = some (λ id w. elim w [ [] ↦ ok false | _ ∷ _ ↦ ok true ]);
}

submit_raw-durable_example :
    (e : ℕ) × (p : String → List ℕ → Result String Bool) × (id : String) × (ingress.create_event 4
      ≡ ok e)
    × (ingress.durability_probe ≡ some p)
    × (ingress.event_id e ≡ some id)
    × ((ingress.process e []).0 ≡ ok true)
    × (p id (ingress.process e []).1 ≡ ok true)
    × ((submit_raw ingress 4 [] running_runtime).0.status ≡ status_of (probe (some p) (some id) []))
unfolding submit_raw
submit_raw-durable_example = submit_raw-durable ingress 4 [] running_runtime refl

abbrev registered : List (String × Runtime)
registered = ("rtp", running_runtime) ∷ ("serial", failed_runtime) ∷ ("udp", fresh_runtime) ∷ []

abbrev supervisor : Supervisor ℕ
supervisor = record {
  runtimes =
      ("radio", new_runtime policy)
      ∷ ("signal", record (new_runtime policy) { state = AdapterState.failed })
      ∷ ("whatsapp", record (new_runtime policy) { state = AdapterState.running })
      ∷ [];
  registry = some (("radio", 1) ∷ []);
}

shutdown_stops_example :
    All
      (λ (e : String × Runtime). e.1.state ≡ AdapterState.stopped)
      (shutdown (λ n r. r) supervisor).0
    × (names (shutdown (λ n r. r) supervisor).0 ≡ names supervisor.runtimes)
    × ((shutdown (λ n r. r) supervisor).1.runtimes ≡ [])
shutdown_stops_example = shutdown_stops (λ n r. r) supervisor (λ n q h. h)

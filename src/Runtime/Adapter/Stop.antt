-- ===== src/Runtime/Adapter/Stop.antt =====
-- `AdapterRuntime.stop` and the polling loop: where they lead.
use tactical_core.Base.{
  ◌≡◌, refl, true, false, Option, none, some, arith, Bool-cases, inl, inr, ◌∙◌, ap,
}
use tactical_core.Base.Result.{ok, err, ◌>>=◌}
use tactical_core.Runtime.Lifecycle.{AdapterState, state_eq, illegal_transition}
use tactical_core.Runtime.Adapter.{Runtime, is_active, stop, stop_request, stop_finish}

stop_finish-stopped :
    (r : Runtime)
    → state_eq r.state AdapterState.stopped ≡ false
    → stop_finish r ≡ ok (record r { state = AdapterState.stopped })
unfolding stop_finish
stop_finish-stopped r h = ground arith

stop_request-some :
    (r : Runtime)
    → state_eq r.state AdapterState.stopped ≡ false
    → (s : Runtime) × (stop_request r ≡ ok (some s))
      × (state_eq s.state AdapterState.stopped ≡ false)
unfolding stop_request
stop_request-some r h = elim (Bool-cases (is_active r.state)) [
  | inl active ↦ (record r { state = AdapterState.stopping; stop_set = true }, ground arith, refl)
  | inr other ↦ (record r { stop_set = true }, ground arith, h)
]

-- A call of `stop` always leads to STOPPED and raises nothing, from every state and whatever the
-- runtime thread does until it has ended, if that thread does not itself set STOPPED.
pub stop_reaches_stopped :
    (meanwhile : Runtime → Runtime) (r : Runtime)
    → ((q : Runtime)
        → state_eq q.state AdapterState.stopped ≡ false
        → state_eq (meanwhile q).state AdapterState.stopped ≡ false)
    → (s : Runtime) × (stop meanwhile r ≡ ok s) × (s.state ≡ AdapterState.stopped)
unfolding stop
stop_reaches_stopped meanwhile r thread =
    elim (Bool-cases (state_eq r.state AdapterState.stopped)) [
      | inl done ↦ (r, ground arith, ground arith)
      | inr going ↦
          let (q, requested, alive) = stop_request-some r going in
          (
            record (meanwhile q) { state = AdapterState.stopped },
            ap
                  (λ o. o >>= λ (x : Option Runtime). elim x [
                    | none ↦ ok r
                    | some r' ↦ stop_finish (meanwhile r')
                  ])
                  requested
                ∙ stop_finish-stopped (meanwhile q) (thread q alive),
            refl,
          )
    ]

stop_finish_again :
    (r : Runtime)
    → r.state ≡ AdapterState.stopped
    → stop_finish r ≡ err (illegal_transition AdapterState.stopped AdapterState.stopped)
unfolding stop_finish
stop_finish_again r h = ground arith

-- Two threads that call `stop` on a runtime that is not STOPPED, so that both pass the first locked
-- part before either reaches the second: the second of them raises the transition error.
pub concurrent_stops_raise :
    (r : Runtime)
    → state_eq r.state AdapterState.stopped ≡ false
    → (q1 q2 s : Runtime) × (stop_request r ≡ ok (some q1))
      × (stop_request q1 ≡ ok (some q2))
      × (stop_finish q2 ≡ ok s)
      × (stop_finish s ≡ err (illegal_transition AdapterState.stopped AdapterState.stopped))
concurrent_stops_raise r going =
    let (q1, first, alive1) = stop_request-some r going in
    let (q2, second, alive2) = stop_request-some q1 alive1 in
    let s : Runtime = record q2 { state = AdapterState.stopped } in
    (q1, q2, s, first, second, stop_finish-stopped q2 alive2, stop_finish_again s refl)

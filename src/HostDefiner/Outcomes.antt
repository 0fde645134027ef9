-- ===== src/HostDefiner/Outcomes.antt =====
-- controllers/servers/host_definer/storage_manager/host_definer_server.py: what the service answers, and
-- what it leaves of a host.
use ibm_block_csi_driver.Prelude.{◌≡◌, refl, ap, String, arith}
use ibm_block_csi_driver.Outcome.{Outcome, returned, raised}
use ibm_block_csi_driver.Exec.{Exec}
use ibm_block_csi_driver.Requests.Nodes.{NodeApi}
use ibm_block_csi_driver.HostDefiner.{DefineHostRequest, HostMediator, HostArrays}
use ibm_block_csi_driver.HostDefiner.Definition.{
  DefineHostResponse, error, failed, define_body, new_host_name, with_mediator, answered,
  define_host, undefine_host, undefine_body,
}

-- The answer that a call's outcome becomes
abbrev pub answer : Outcome DefineHostResponse → DefineHostResponse
answer (returned r) = r
answer (raised e) = failed (error e)

module _ (api : NodeApi) (request : DefineHostRequest) {S : Type 0} where
  module _ (arrays : HostArrays S) where
    abbrev defining : Exec S DefineHostResponse
    defining =
        with_mediator api request arrays
          (λ m. define_body api request m (new_host_name api request arrays))

    answered-answer :
        (call : Exec S DefineHostResponse) (s s' : S) (o : Outcome DefineHostResponse)
        → call s ≡ (o, s')
        → answered api request arrays call s ≡ (returned (answer o), s')
    unfolding answered
    answered-answer call s s' (returned r) h = ground arith
    answered-answer call s s' (raised e) h = ground arith

    always :
        (call : Exec S DefineHostResponse) (s : S)
        → (r : DefineHostResponse) × ((answered api request arrays call s).0 ≡ returned r)
    always call s =
        (answer (call s).0, ap (λ p. p.0) (answered-answer call s (call s).1 (call s).0 refl))

    -- Defining a host and undefining one always answer, whatever the arrays do: an error that gets
    -- through becomes the answer's failure.
    define_host-answers :
        (s : S)
        → ((r : DefineHostResponse) × ((define_host api request arrays s).0 ≡ returned r))
          × ((r : DefineHostResponse) × ((undefine_host api request arrays s).0 ≡ returned r))
    unfolding define_host undefine_host
    define_host-answers s =
        (always defining s, always (with_mediator api request arrays (undefine_body api request)) s)

    -- Once a mediator is lent it is given back, whatever the definition of the host does with it; the
    -- answer is then what the definition answers, or the error that it raises.
    define_host-gives_back :
        (s s1 s2 s3 s4 : S) (t : String) (m : HostMediator S) (give_back : Exec S (Unit {0}))
        (o : Outcome DefineHostResponse)
        → arrays.detect_array_type request.array_connection_info.array_addresses s
          ≡ (returned t, s1)
        → arrays.get_mediator request.array_connection_info t s1 ≡ (returned (m, give_back), s2)
        → define_body api request m (new_host_name api request arrays) s2 ≡ (o, s3)
        → give_back s3 ≡ (returned tt, s4)
        → define_host api request arrays s ≡ (returned (answer o), s4)
    unfolding define_host with_mediator
    define_host-gives_back s s1 s2 s3 s4 t m give_back o d g b r =
        answered-answer defining s s4 o (ground (arith, d, g, b, r))

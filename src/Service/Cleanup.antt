-- ===== src/Service/Cleanup.antt =====
-- What a worker leaves connected.
use atasks.Prelude.{
  String, ◌≡◌, refl, Bool, true, false, not, ◌&&◌, Option, none, some, List, [], ◌∷◌, eq_iff, arith,
  inl, inr,
}
use atasks.Prelude.Lists.{contains}
use atasks.Errors.{Exec, Outcome, returned, raised, for_each, ◌>>=◌, ◌>>◌, Outcome-cases}
use atasks.Service.{
  NamespaceSpec, Options, Services, Running, finally, on_services, when, disconnect_one,
  disconnect_connected_transports, give_up, set_up, work, clean_up, aiomain, set_nothing,
}

-- What the cleanup relies on: a `disconnect` returns, and leaves its transport not connected and no
-- other one connected that was not; the constructors, and the two stops, return.
pub record IsTidy {S : Type 0} (services : Services S) : Type 0 where
  pub disconnects : (name : String) (s : S) → (services.disconnect name s).0 ≡ returned tt
  pub disconnected :
      (name : String) (s : S) → services.is_connected name (services.disconnect name s).1 ≡ false
  pub keeps :
      (name other : String) (s : S)
      → services.is_connected other s ≡ false
      → services.is_connected other (services.disconnect name s).1 ≡ false
  pub stops : (s : S) → (services.stop_watchdog s).0 ≡ returned tt
  pub cleans : (s : S) → (services.cleanup_health_http s).0 ≡ returned tt
  pub makes_codec : (name : String) (s : S) → (services.new_codec name s).0 ≡ returned tt
  pub makes_transport : (ns : NamespaceSpec) (s : S) → (services.new_transport ns s).0 ≡ returned tt
  pub makes_router : (ns : NamespaceSpec) (s : S) → (services.new_router ns s).0 ≡ returned tt

abbrev pub spec_names : List NamespaceSpec → List String
spec_names [] = []
spec_names (ns ∷ rest) = ns.name ∷ spec_names rest

module _ {S : Type 0} (services : Services S) (tidy : IsTidy services) where
  disconnect_one_lem :
      (ns : NamespaceSpec) (r : Running S) (other : String)
      → ((disconnect_one services ns r).0 ≡ returned tt)
        × (services.is_connected ns.name (disconnect_one services ns r).1.services ≡ false)
        × (services.is_connected other (disconnect_one services ns r).1.services ≡ (
            services.is_connected other r.services
            && services.is_connected other (disconnect_one services ns r).1.services))
  unfolding disconnect_one
  disconnect_one_lem ns r other = ground (
    arith,
    tidy.disconnects ns.name r.services,
    tidy.disconnected ns.name r.services,
    tidy.keeps ns.name other r.services,
  )

  disconnect-loop :
      (specs : List NamespaceSpec) (r : Running S) (name : String)
      → ((disconnect_connected_transports services specs r).0 ≡ returned tt)
        × (services.is_connected name (disconnect_connected_transports services specs r).1.services
            ≡ (not (contains name (spec_names specs))
                && services.is_connected name r.services
                && services.is_connected name
                    (disconnect_connected_transports services specs r).1.services))
  unfolding disconnect_connected_transports for_each
  disconnect-loop [] r name = ground arith
  disconnect-loop (ns ∷ rest) r name =
      let first = disconnect_one_lem ns r name in
      ground (
        arith,
        first.0,
        first.1,
        first.2,
        disconnect-loop rest (disconnect_one services ns r).1 name,
        eq_iff ns.name name,
      )

-- An action that returns.
record Returns {S : Type 0} (m : Exec (Running S) (Unit {0})) : Type 0 where
  at : (r : Running S) → (m r).0 ≡ returned tt

-- An action that leaves the transport of a name not connected.
record Ends {S A : Type 0} (services : Services S) (name : String) (m : Exec (Running S) A)
    : Type 0 where
  at : (r : Running S) → services.is_connected name (m r).1.services ≡ false

module _ {S : Type 0} (services : Services S) where
  Returns-on_services :
      (m : Exec S (Unit {0})) → ((s : S) → (m s).0 ≡ returned tt) → Returns (on_services services m)
  Returns-on_services m h = record { at = λ r. h r.services }

  Returns-when :
      (test : Running S → Bool) (m : Exec (Running S) (Unit {0}))
      → Returns m
      → Returns (λ r. when services (test r) m r)
  Returns-when test m h = record { at = λ r. ground (arith, h.at r) }

  Returns-then : (m n : Exec (Running S) (Unit {0})) → Returns m → Returns n → Returns (m >> n)
  Returns-then m n h k = record { at = λ r. rw (h.at r) (k.at (m r).1) }

  module _ (name : String) {A : Type 0} where
    Ends-then :
        (m : Exec (Running S) (Unit {0})) (n : Exec (Running S) A)
        → Returns m
        → Ends services name n
        → Ends services name (m >> n)
    Ends-then m n h k = record { at = λ r. rw (h.at r) (k.at (m r).1) }

    Ends-result :
        (m : Exec (Running S) (Unit {0})) (a : A)
        → Ends services name m
        → Ends services name (m >>= λ _ r. (returned a, r))
    Ends-result m a h = record {
      at = λ r. elim (Outcome-cases (m r).0) [
        | inl (u, e) ↦ rw e (h.at r)
        | inr (e, e') ↦ rw e' (h.at r)
      ];
    }

    Ends-finally :
        (method : Exec (Running S) A) (cleanup : Exec (Running S) (Unit {0}))
        → Ends services name cleanup
        → Ends services name (finally method cleanup)
    Ends-finally method cleanup h = record {
      at = λ r. elim (Outcome-cases (cleanup (method r).1).0) [
        | inl (u, e) ↦ rw e (h.at (method r).1)
        | inr (e, e') ↦ rw e' (h.at (method r).1)
      ];
    }

  Ends-give_up :
      (name : String) (specs : List NamespaceSpec) (o : Outcome (Unit {0}))
      → (rest : Exec (Running S) (Option Bool))
      → Ends services name (disconnect_connected_transports services specs)
      → Ends services name rest
      → Ends services name (give_up services specs o rest)
  Ends-give_up name specs (returned _) rest h k = k
  Ends-give_up name specs (raised _) rest h k =
      Ends-result name (disconnect_connected_transports services specs) (some false) h

module _ {S : Type 0} (services : Services S) (tidy : IsTidy services) where
  Ends-disconnect :
      (specs : List NamespaceSpec) (name : String)
      → contains name (spec_names specs) ≡ true
      → Ends services name (disconnect_connected_transports services specs)
  Ends-disconnect specs name h = record {
    at = λ r. ground (arith, (disconnect-loop services tidy specs r name).1, h);
  }

  Ends-clean_up :
      (options : Options) (name : String)
      → contains name (spec_names options.namespaces) ≡ true
      → Ends services name (clean_up services options)
  unfolding clean_up
  Ends-clean_up options name h =
      let stop = on_services services services.stop_watchdog in
      let clean = on_services services services.cleanup_health_http in
      Ends-then services name (λ r. when services r.self_watchdog stop r) _
        (Returns-when services (λ r. r.self_watchdog) stop
          (Returns-on_services services _ tidy.stops))
        (Ends-then services name (λ r. when services r.health_runner clean r) _
          (Returns-when services (λ r. r.health_runner) clean
            (Returns-on_services services _ tidy.cleans))
          (Ends-disconnect options.namespaces name h))

  Ends-set_up :
      (specs rest : List NamespaceSpec) (body : Exec (Running S) (Option Bool)) (name : String)
      → contains name (spec_names specs) ≡ true
      → Ends services name body
      → Ends services name (set_up services specs rest body)
  unfolding set_up
  Ends-set_up specs [] body name h b = b
  Ends-set_up specs (ns ∷ rest) body name h b =
      let router = on_services services (services.new_router ns) in
      Ends-then services name _ _
        (Returns-then services _ _ (Returns-on_services services _ (tidy.makes_codec ns.name))
          (Returns-on_services services _ (tidy.makes_transport ns)))
        (record {
          at = λ r.
              (Ends-give_up services name specs (services.connect ns.name r.services).0 _
                  (Ends-disconnect specs name h)
                  (Ends-then services name (when services ns.overrides router) _
                    (Returns-when services (λ _. ns.overrides) router
                      (Returns-on_services services _ (tidy.makes_router ns)))
                    (Ends-set_up specs rest body name h b))).at
                (on_services services (services.connect ns.name) r).1;
        })

  -- However a worker ends - a transport that cannot connect, a scenario, a handler or a service that
  -- raises, or the end of its work - no transport of its namespaces is connected afterwards, where
  -- the services are tidy: the constructors, the two stops and `disconnect` return, and a
  -- disconnected transport is not connected.
  pub aiomain-disconnects :
      (options : Options) (r : Running S) (name : String)
      → contains name (spec_names options.namespaces) ≡ true
      → services.is_connected name (aiomain services options r).1.services ≡ false
  unfolding aiomain
  aiomain-disconnects options r name h =
      (Ends-set_up options.namespaces options.namespaces _ name h (
          Ends-result services name _ none (
            Ends-then services name (set_nothing services)
              (finally (work services options) (clean_up services options))
              (record { at = λ r. refl })
              (Ends-finally services name (work services options) (clean_up services options)
                (Ends-clean_up options name h))))).at
        r

-- ===== src/Trace/Laws.antt =====
-- Laws of atasks/trace.py: the chain of hops and the trace on an exception.
use atasks.Prelude.{
  ℕ, suc, ◌+◌, ◌≤◌, ◌<◌, String, ◌≡◌, refl, ap, Bool, true, false, not, Option, none, some, List,
  [], ◌∷◌, ◌++◌, ◌↔◌, arith, is_some, if◌then◌else◌, nat_eq,
}
use atasks.Prelude.Lists.{length, length-append}
use atasks.Hop.{Kind, AtaskHop, AtaskTrace}
use atasks.Errors.{PyException, exception, atask_stack_too_deep, Outcome, returned, raised}
use atasks.Frames.{Machine, TracebackEntry}
use atasks.Trace.{
  Context, Settings, Stamp, CallSite, enter, leave, next_hop, push_hop, attach, get_trace,
}

-- The hops from position `n` on: the positions are counted, and only the very first is a root.
abbrev pub IsNumbered : ℕ → List AtaskHop → Type 0
IsNumbered n [] = Unit
IsNumbered n (hop ∷ hops) = (hop.seq ≡ n) × (hop.is_root ≡ nat_eq n 0) × IsNumbered (suc n) hops

abbrev pub is_empty : List AtaskHop → Bool
is_empty [] = true
is_empty (_ ∷ _) = false

-- A context that the calls of atasks make: the chain is numbered, and there is an enclosing
-- handler exactly where there is a chain.
pub record IsCoherent (c : Context) : Type 0 where
  pub numbered : IsNumbered 0 c.chain
  pub inside : is_some c.entry_frame ≡ not (is_empty c.chain)

IsNumbered-snoc :
    (n : ℕ) (hops : List AtaskHop) (hop : AtaskHop)
    → IsNumbered n hops
    → hop.seq ≡ n + length hops
    → hop.is_root ≡ nat_eq (n + length hops) 0
    → IsNumbered n (hops ++ hop ∷ [])
IsNumbered-snoc n [] hop h p q = ground arith
IsNumbered-snoc n (h₀ ∷ hops) hop h p q =
    (h.0, h.1, IsNumbered-snoc (suc n) hops hop h.2 (omega arith) ground arith)

module _ (m : Machine) (router : Settings) (name namespace : String) (kind : Kind) (stamp : Stamp)
    (site : CallSite) (c : Context) where
  abbrev pushed : Outcome (List AtaskHop)
  pushed = push_hop m router name namespace kind stamp site c

  -- A call is refused exactly when the chain has reached the router's maximum depth, with the
  -- exception that names the depth, the namespace and the atask.
  pub push_hop-guard :
      (pushed ≡ raised (exception (atask_stack_too_deep router.max_trace_depth namespace name)))
      ↔ (router.max_trace_depth ≤ length c.chain)
  unfolding push_hop
  push_hop-guard = (λ h. ground arith, λ h. ground arith)

  abbrev hop : AtaskHop
  hop = next_hop m router name namespace kind stamp site c

  pub push_hop-returned :
      {sent : List AtaskHop}
      → pushed ≡ returned sent
      → (length c.chain < router.max_trace_depth) × (sent ≡ c.chain ++ hop ∷ [])
  unfolding push_hop
  push_hop-returned h = (ground arith, ground arith)

  -- A call that is not refused sends one hop more than it was reached by, and no more hops than
  -- the router's maximum depth.
  pub push_hop-length :
      {sent : List AtaskHop}
      → pushed ≡ returned sent
      → (length sent ≡ suc (length c.chain)) × (length sent ≤ router.max_trace_depth)
  push_hop-length h =
      let (lt, e) = push_hop-returned h in
      omega (arith, length-append c.chain (hop ∷ []), ap length e)

  root_iff_empty : IsCoherent c → hop.is_root ≡ nat_eq (0 + length c.chain) 0
  unfolding next_hop
  root_iff_empty h = ground arith

  -- The chain that a call sends is numbered from 0 without a gap, and its only root is the first
  -- hop, wherever the caller's own context is coherent.
  pub push_hop-IsNumbered :
      {sent : List AtaskHop} → IsCoherent c → pushed ≡ returned sent → IsNumbered 0 sent
  unfolding next_hop
  push_hop-IsNumbered h e =
      rw ((push_hop-returned e).1)
        (IsNumbered-snoc 0 c.chain hop h.numbered (omega arith) (root_iff_empty h))

append_snoc-ne-nil : (xs : List AtaskHop) (x : AtaskHop) → is_empty (xs ++ x ∷ []) ≡ false
append_snoc-ne-nil [] x = refl
append_snoc-ne-nil (_ ∷ xs) x = refl

-- The context of a handler that runs on a received chain.
abbrev pub handling : List AtaskHop → ℕ → Context → Context
handling received frame c = record (enter (some received) c).1 { entry_frame = some frame }

-- A chain that was sent from a coherent context makes the context of its handler coherent,
-- whatever context the receiver was in before.
pub handling-IsCoherent :
    (m : Machine) (router : Settings) (name namespace : String) (kind : Kind) (stamp : Stamp)
    (site : CallSite) (c receiver : Context) (frame : ℕ) {sent : List AtaskHop}
    → IsCoherent c
    → push_hop m router name namespace kind stamp site c ≡ returned sent
    → IsCoherent (handling sent frame receiver)
unfolding enter
handling-IsCoherent m router name namespace kind stamp site c receiver frame h e = record {
  numbered = push_hop-IsNumbered m router name namespace kind stamp site c h e;
  inside = ground (
    arith,
    push_hop-returned m router name namespace kind stamp site c e,
    append_snoc-ne-nil c.chain (next_hop m router name namespace kind stamp site c),
  );
}

-- What a handler did to the context, `leave` with the token of its `enter` puts the chain back.
pub leave-enter :
    (chain : Option (List AtaskHop)) (c : Context) → leave (enter chain c).0 (enter chain c).1 ≡ c
unfolding enter leave
leave-enter none c = refl
leave-enter (some chain) c = refl

-- The hops, the host and the process of a trace.
abbrev pub summary : Option AtaskTrace → Option (List AtaskHop × String × ℕ)
summary none = none
summary (some t) = some (t.hops, t.raise_host, t.raise_pid)

module _ (m : Machine) (ex : PyException) (router : Settings) (pid : ℕ) (c : Context) where
  -- The first catch decides: a second `attach`, by any router in any context, changes nothing, the
  -- class of the exception stays, and its trace is the old one if there is one, and otherwise,
  -- unless the class refuses attributes, holds the chain and the host of the first catch.
  pub attach-attach :
      (tb : Option (List TracebackEntry)) (router' : Settings) (pid' : ℕ)
      (tb' : Option (List TracebackEntry)) (c' : Context)
      → (attach m (attach m ex router pid tb c) router' pid' tb' c' ≡ attach m ex router pid tb c)
        × ((attach m ex router pid tb c).class ≡ ex.class)
        × (summary (get_trace (attach m ex router pid tb c)) ≡ elim ex.trace [
          | none ↦ if ex.has_slots then none else some (c.chain, router.hostname, pid)
          | some t ↦ summary (some t)
        ])
  unfolding attach get_trace
  attach-attach tb router' pid' tb' c' = (ground arith, ground arith, ground arith)

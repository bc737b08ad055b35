-- ===== src/Service/Watchdog/Laws.antt =====
-- When the watchdog ends, and how.
use atasks.Prelude.{
  ℕ, zero, suc, ◌-◌, ◌≤◌, ◌≡◌, refl, Bool, true, false, List, [], ◌∷◌, ◌++◌, arith, if◌then◌else◌,
  leb, Bool-cases, inl, inr,
}
use atasks.Service.Watchdog.{
  Thread, sleeping, waking, refused, probing, missed, left, aborting, Watchdog, Action, advance,
  acknowledge, stop, go_on, act, run,
}

abbrev pub is_aborting : Thread → Bool
is_aborting aborting = true
is_aborting _ = false

-- How often the thread of a stopped watchdog goes on at most.
abbrev rank : Thread → ℕ
rank left = 0
rank sleeping = 1
rank refused = 1
rank missed = 2
rank probing = 3
rank waking = 4
rank aborting = 5

-- How often the thread goes on.
abbrev pub advances : List Action → ℕ
advances [] = 0
advances (advance _ ∷ actions) = suc (advances actions)
advances (_ ∷ actions) = advances actions

-- A stopped watchdog does not abort, and comes nearer to its end.
go_on-rank :
    (closed : Bool) (w : Watchdog)
    → w.stopped ≡ true
    → is_aborting w.thread ≡ false
    → ((go_on closed w).stopped ≡ true)
      × (is_aborting (go_on closed w).thread ≡ false)
      × (rank (go_on closed w).thread ≤ rank w.thread - 1)
unfolding go_on
go_on-rank closed w s a = ground (arith, s, a)

rank-bound : (t : Thread) → is_aborting t ≡ false → rank t ≤ 4
rank-bound left h = omega arith
rank-bound sleeping h = omega arith
rank-bound refused h = omega arith
rank-bound missed h = omega arith
rank-bound probing h = omega arith
rank-bound waking h = omega arith
rank-bound aborting h = absurd (ground (arith, h))

run-rank :
    (actions : List Action) (w : Watchdog)
    → w.stopped ≡ true
    → is_aborting w.thread ≡ false
    → (is_aborting (run actions w).thread ≡ false)
      × (rank (run actions w).thread ≤ rank w.thread - advances actions)
unfolding run act
run-rank [] w s a = (a, omega arith)
run-rank (advance closed ∷ actions) w s a =
    let g = go_on-rank closed w s a in
    let l = run-rank actions (go_on closed w) g.0 g.1 in (l.0, omega (arith, l.1, g.2))
run-rank (acknowledge ∷ actions) w s a = run-rank actions _ s a
run-rank (stop ∷ actions) w s a = run-rank actions _ refl a

rank-left : (t : Thread) → rank t ≡ 0 → t ≡ left
rank-left left h = refl
rank-left sleeping h = ground arith
rank-left refused h = ground arith
rank-left missed h = ground arith
rank-left probing h = ground arith
rank-left waking h = ground arith
rank-left aborting h = ground arith

-- Once `stop` was called on a watchdog that has not decided to abort, it does not abort, whatever
-- happens in whatever order; where its thread has gone on four times since, it has ended.
pub run-stop :
    (w : Watchdog) (actions : List Action)
    → is_aborting w.thread ≡ false
    → (is_aborting (run (stop ∷ actions) w).thread ≡ false)
      × ((if leb 4 (advances actions) then (run (stop ∷ actions) w).thread else left) ≡ left)
unfolding run act
run-stop w actions a =
    let l = run-rank actions (act stop w) refl a in
    (
      l.0,
      elim (Bool-cases (leb 4 (advances actions))) [
        | inl e ↦ rw e (
            rank-left (run actions (act stop w)).thread
              (ground (arith, e, l.1, rank-bound w.thread a)))
        | inr e ↦ rw e refl
      ],
    )

-- A probe that the loop answers, with the thread asleep before and after it.
abbrev answered : List Action
answered = advance false ∷ advance false ∷ acknowledge ∷ advance false ∷ []

abbrev pub answered_probes : ℕ → List Action
answered_probes zero = []
answered_probes (suc n) = answered ++ answered_probes n

-- The flag tells whether the loop is closed.
abbrev pub unanswered : Bool → List Action
unanswered closed =
    advance closed ∷ advance closed ∷ advance closed ∷ (if closed then [] else advance closed ∷ [])

-- However many probes the event loop answers, the watchdog goes on; at the first one that the loop
-- does not answer in time, or refuses since it is closed, it decides to abort the process.
pub run-unanswered :
    (n : ℕ) (w : Watchdog) (closed : Bool)
    → w.thread ≡ sleeping
    → w.stopped ≡ false
    → ((run (answered_probes n) w).thread ≡ sleeping)
      × ((run (answered_probes n ++ unanswered closed) w).thread ≡ aborting)
unfolding run act go_on
run-unanswered zero w true t s = (t, ground (arith, t, s))
run-unanswered zero w false t s = (t, ground (arith, t, s))
run-unanswered (suc n) w closed t s =
    let w' = go_on false (act acknowledge (go_on false (go_on false w))) in
    run-unanswered n w' closed (ground (arith, t, s)) (ground (arith, t, s))

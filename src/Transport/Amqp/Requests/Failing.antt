-- ===== src/Transport/Amqp/Requests/Failing.antt =====
-- What a lost connection does to the futures: `_fail_awaiting_requests`, and what calls it.
use atasks.Prelude.{
  ℕ, String, ◌≡◌, refl, ◌⊎◌, inl, inr, true, Option, some, [], ◌∷◌, nat_eq, not, ◌&&◌,
  if◌then◌else◌, arith, Bool-cases,
}
use atasks.Prelude.Dict
use atasks.Prelude.Dict.{Dict, lookup-insert, lookup-erase, lookup-nil}
use atasks.Errors.{exception, connection_lost}
use atasks.Transport.Amqp.Requests.{
  Future, failed, is_done, Publish, published, publish_error, cancelled_error, publish_failed,
  Requests, fail_all, fail_awaiting_requests, task_was_actually_cancelled, publish_message, set_at,
}

-- The body of the loop.
abbrev fail_one : String → ℕ → (ℕ → Future) → ℕ → Future
fail_one id f futures =
    if is_done (futures f)
    then futures
    else set_at futures f (failed (exception (connection_lost id)))

fail_one-at :
    (id : String) (f : ℕ) (futures : ℕ → Future) (g : ℕ)
    → fail_one id f futures g ≡ (
        if nat_eq f g && not (is_done (futures g))
        then failed (exception (connection_lost id))
        else futures g)
fail_one-at id f futures g = elim (Bool-cases (is_done (futures f))) [
  | inl e ↦ rw e (ground arith)
  | inr e ↦ rw e (ground arith)
]

-- A future that is done stays as it is.
pub fail_all-is_done :
    (table : Dict ℕ) (futures : ℕ → Future) (g : ℕ)
    → is_done (futures g) ≡ true
    → fail_all table futures g ≡ futures g
unfolding fail_all
fail_all-is_done [] futures g h = refl
fail_all-is_done ((id, f) ∷ rest) futures g h =
    ground (arith, fail_all-is_done rest (fail_one id f futures) g, fail_one-at id f futures g)

-- One that is not may be failed.
pub fail_all-cases :
    (table : Dict ℕ) (futures : ℕ → Future) (g : ℕ)
    → (fail_all table futures g ≡ futures g)
      ⊎ ((id : String) × (fail_all table futures g ≡ failed (exception (connection_lost id))))
unfolding fail_all
fail_all-cases [] futures g = inl refl
fail_all-cases ((id, f) ∷ rest) futures g =
    elim (Bool-cases (nat_eq f g && not (is_done (futures g)))) [
      | inl e ↦ inr (
        id,
        ground
            (arith, fail_all-is_done rest (fail_one id f futures) g, fail_one-at id f futures g, e),
      )
      | inr e ↦ elim (fail_all-cases rest (fail_one id f futures) g) [
        | inl same ↦ inl (ground (arith, same, fail_one-at id f futures g, e))
        | inr (j, lost) ↦ inr (j, lost)
      ]
    ]

pub fail_all-lookup :
    (table : Dict ℕ) (futures : ℕ → Future) (id : String) (g : ℕ)
    → Dict.lookup id table ≡ some g
    → is_done (fail_all table futures g) ≡ true
unfolding fail_all Dict.lookup
fail_all-lookup [] futures id g h = cc
fail_all-lookup ((j, f) ∷ rest) futures id g h = ground (
  arith,
  fail_all-is_done rest (fail_one j f futures) g,
  fail_all-lookup rest (fail_one j f futures) id g,
  fail_one-at j f futures g,
)

-- What `fail_awaiting_requests` leaves, also of an empty table.
pub fail_awaiting_requests_lem :
    (s : Requests)
    → fail_awaiting_requests s
      ≡ record s { awaiting_requests = []; futures = fail_all s.awaiting_requests s.futures }
unfolding fail_awaiting_requests fail_all
fail_awaiting_requests_lem s = ground arith

-- A message of another pattern leaves the requests, or fails them all.
pub publish_message-cases :
    (name : String) (outcome : Publish) (task : Option (Option ℕ)) (s : Requests)
    → ((publish_message name outcome task s).1 ≡ s)
      ⊎ ((publish_message name outcome task s).1 ≡ fail_awaiting_requests s)
unfolding publish_message
publish_message-cases name published task s = inl refl
publish_message-cases name publish_error task s = inl refl
publish_message-cases name cancelled_error task s =
    elim (Bool-cases (task_was_actually_cancelled task)) [ inl e ↦ inl (rw e) | inr e ↦ inr (rw e) ]
publish_message-cases name publish_failed task s = inr refl

-- ===== src/Transport/Amqp/Requests/Tracked.antt =====
-- The table of the awaited requests, through the pieces of a call and through a response.
use atasks.Prelude.{
  ℕ, ◌<◌, ◌≤◌, String, ◌≡◌, inl, inr, true, false, Option, some, ◌==◌, eq_iff, arith, Option-cases,
}
use atasks.Prelude.Dict
use atasks.Prelude.Dict.{Dict, lookup-insert, lookup-erase, lookup-nil}
use atasks.Codec.{Bytes}
use atasks.Transport.Amqp.Requests.{
  pending, dropped, idle, waiting, is_active, Ending, Requests, begin_request, on_response_message,
  set_at, with_phase, finish_with,
}

-- The table holds, under their correlation ids, exactly the calls that are not ended and whose
-- future is pending.
pub record IsTracked (s : Requests) : Type 0 where
  pub awaited :
      (id : String) (f : ℕ)
      → Dict.lookup id s.awaiting_requests ≡ some f
      → (f < s.next)
        × ((s.callers f).correlation_id ≡ id)
        × (is_active (s.callers f).phase ≡ true)
        × (s.futures f ≡ pending)
  pub tracked :
      (f : ℕ)
      → is_active (s.callers f).phase ≡ true
      → s.futures f ≡ pending
      → Dict.lookup (s.callers f).correlation_id s.awaiting_requests ≡ some f
  pub unused : (f : ℕ) → s.next ≤ f → (s.callers f).phase ≡ idle
  pub single :
      (f g : ℕ)
      → f < s.next
      → g < s.next
      → (s.callers f).correlation_id ≡ (s.callers g).correlation_id
      → f ≡ g

module _ (s : Requests) (h : IsTracked s) where
  pub begin_request-IsTracked :
      (name : String) (timeout : Option ℕ) (id : String)
      → ((f : ℕ) → f < s.next → ((s.callers f).correlation_id == id) ≡ false)
      → IsTracked (begin_request name timeout id s)
  unfolding begin_request
  begin_request-IsTracked name timeout id fresh = record {
    awaited = λ j f e.
        ground
          (arith, e, h.awaited j f, lookup-insert j id s.next s.awaiting_requests, eq_iff id j);
    tracked = λ f a p. ground (
      arith,
      a,
      p,
      h.tracked f,
      h.unused f,
      fresh f,
      lookup-insert (s.callers f).correlation_id id s.next s.awaiting_requests,
      lookup-insert id id s.next s.awaiting_requests,
      eq_iff id (s.callers f).correlation_id,
      eq_iff (s.callers f).correlation_id id,
      eq_iff id id,
    );
    unused = λ f l. ground (arith, l, h.unused f);
    single = λ f g l m e. ground (
      arith,
      l,
      m,
      e,
      h.single f g,
      fresh f,
      fresh g,
      eq_iff (s.callers f).correlation_id id,
      eq_iff (s.callers g).correlation_id id,
    );
  }

  -- The end of an active call that takes its entry out of the table.
  pub finish_with-IsTracked :
      (f : ℕ) (ending : Ending)
      → is_active (s.callers f).phase ≡ true
      → IsTracked (finish_with s f ending)
  finish_with-IsTracked f ending active = record {
    awaited = λ j g e. ground (
      arith,
      e,
      h.awaited j g,
      h.awaited (s.callers f).correlation_id g,
      h.single f g,
      h.unused f,
      lookup-erase j (s.callers f).correlation_id s.awaiting_requests,
      eq_iff (s.callers f).correlation_id j,
    );
    tracked = λ g a p. ground (
      arith,
      a,
      p,
      h.tracked g,
      h.unused f,
      h.unused g,
      h.single f g,
      lookup-erase (s.callers g).correlation_id (s.callers f).correlation_id s.awaiting_requests,
      eq_iff (s.callers f).correlation_id (s.callers g).correlation_id,
    );
    unused = λ g l. ground (arith, l, active, h.unused g, h.unused f);
    single = λ g k l m e. ground (arith, l, m, e, h.single g k);
  }

  pub with_phase-IsTracked :
      (f : ℕ) → is_active (s.callers f).phase ≡ true → IsTracked (with_phase s f waiting)
  with_phase-IsTracked f active = record {
    awaited = λ j g e. ground (arith, e, h.awaited j g);
    tracked = λ g a p. ground (arith, a, p, h.tracked g, active);
    unused = λ g l. ground (arith, l, active, h.unused g, h.unused f);
    single = λ g k l m e. ground (arith, l, m, e, h.single g k);
  }

  pub finish_dropped-IsTracked :
      (f : ℕ) (ending : Ending)
      → is_active (s.callers f).phase ≡ true
      → IsTracked (finish_with (record s { futures = set_at s.futures f dropped }) f ending)
  finish_dropped-IsTracked f ending active =
      let t = finish_with-IsTracked f ending active in
      record {
        awaited = λ j g e. ground (arith, e, t.awaited j g);
        tracked = λ g a p. ground (arith, a, p, t.tracked g);
        unused = t.unused;
        single = t.single;
      }

  pub on_response_message-IsTracked :
      (id : String) (body : Bytes) → IsTracked (on_response_message id body s)
  unfolding on_response_message
  on_response_message-IsTracked id body = elim (Option-cases (Dict.lookup id s.awaiting_requests)) [
    | inl e ↦ rw (e, on_response_message) h
    | inr (f, e) ↦
        let a = h.awaited id f e in
        rw (e, a.3, on_response_message)
          record {
            awaited = λ j g l.
                ground
                  (arith, l, a, h.awaited j g, lookup-erase j id s.awaiting_requests, eq_iff id j);
            tracked = λ g k p. ground (
              arith,
              k,
              p,
              a,
              e,
              h.tracked g,
              h.unused g,
              h.single f g,
              lookup-erase (s.callers g).correlation_id id s.awaiting_requests,
              eq_iff id (s.callers g).correlation_id,
            );
            unused = h.unused;
            single = h.single;
          }
  ]

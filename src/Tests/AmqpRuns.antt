-- ===== src/Tests/AmqpRuns.antt =====
-- Runs of the AMQP transport: its names, its requests in flight, its connection and subscriptions.
use atasks.Prelude.{String, ◌≡◌, refl, ◌↔◌, not, ◌&&◌, none, [], ◌∷◌, ◌==◌, arith, if◌then◌else◌}
use atasks.Prelude.Dict
use atasks.Hop.{Kind, rpc, queue, broadcast}
use atasks.Codec.{Bytes}
use atasks.Errors.{exception, connection_lost}
use atasks.Transport.Amqp.Names.{routing_prefix, routing_key, queue_name, queue_name-inj}
use atasks.Transport.Amqp.Requests.{
  result, is_done, ended, is_active, raises, published, Requests, begin_request, after_publish,
  on_response_message, conclude, fail_awaiting_requests, no_requests, Reach, here, later, begin,
  publish, respond, resume,
}
use atasks.Transport.Amqp.Requests.Tracked.{IsTracked}
use atasks.Transport.Amqp.Requests.Tracking.{Reach-IsTracked}
use atasks.Transport.Amqp.Requests.Answers.{lose-wakes, respond-delivers}

queue_name-inj_example :
    (queue_name rpc "atask" "atask" "job" ≡ queue_name queue "atask" "atask" "job")
    ↔ (◌≡◌ {A = Kind} rpc queue × ◌≡◌ {A = String} "job" "job")
queue_name-inj_example = queue_name-inj "atask" "atask" rpc queue "job" "job" refl refl

job_queue : queue_name rpc "tasks" "atask" "job" ≡ "tasks.atask.r.job"
unfolding queue_name
job_queue = refl

job_key : routing_key broadcast "atask" "job" ≡ "atask.b.job"
unfolding routing_key routing_prefix
job_key = refl

-- One response was published.
abbrev Heard : String → Bytes → Type 0
Heard id body = (id ≡ "c1") × (body ≡ 7 ∷ [])

abbrev started : Requests
started = begin_request "job" none "c1" no_requests

started-Reach : Reach Heard started
started-Reach = later here (begin "job" none "c1" refl (λ f l. absurd (omega arith)))

abbrev sending : Requests
sending = after_publish 0 published none started

sending-Reach : Reach Heard sending
unfolding begin_request
sending-Reach = later started-Reach (publish 0 published none refl)

abbrev heard : Requests
heard = on_response_message "c1" (7 ∷ []) sending

heard-Reach : Reach Heard heard
heard-Reach = later sending-Reach (respond "c1" (7 ∷ []) (refl, refl))

abbrev finished : Requests
finished = conclude 0 heard

finished-Reach : Reach Heard finished
unfolding begin_request after_publish on_response_message Dict.insert Dict.lookup
finished-Reach = later heard-Reach (resume 0 refl)

Reach-IsTracked_example : IsTracked finished
Reach-IsTracked_example = Reach-IsTracked finished-Reach

lose-wakes_example :
    ((fail_awaiting_requests sending).awaiting_requests ≡ [])
    × ((id : String) × (((conclude 0 (fail_awaiting_requests sending)).callers 0).phase
          ≡ ended (raises (exception (connection_lost id)))))
unfolding begin_request after_publish
lose-wakes_example = lose-wakes sending-Reach 0 refl refl

respond-delivers_example :
    ((on_response_message "c1" (7 ∷ []) sending).futures 0 ≡ (
      if (sending.callers 0).correlation_id == "c1"
        && is_active (sending.callers 0).phase
        && not (is_done (sending.futures 0))
      then result (7 ∷ [])
      else sending.futures 0))
    × ((on_response_message "c1" (7 ∷ []) sending).callers 0 ≡ sending.callers 0)
unfolding begin_request after_publish
respond-delivers_example = respond-delivers sending-Reach "c1" (7 ∷ []) 0 (omega arith)

-- ===== src/Transport/Amqp/Names.antt =====
-- atasks/transport/backends/amqp.py, what keeps the traffic of the three patterns apart: the routing
-- keys and the names of the durable queues.
use text.Mathlib.TextLemmas.{append_assoc, append_cancel_left, append_inj}
use Prim.Native.String.{count}
use atasks.Prelude.{
  String, ◌<>◌, ◌≡◌, ◌≢◌, refl, ◌∙◌, sym, Bool, true, false, arith, ◌↔◌, ◌==◌, eq_iff,
}
use atasks.Hop.{Kind, rpc, queue, broadcast}

-- `_request_routing_prefix`, `_event_routing_prefix` and `_broadcast_routing_prefix`.
unfoldable pub routing_prefix : Kind → String → String
routing_prefix rpc prefix = prefix <> ".r."
routing_prefix queue prefix = prefix <> ".e."
routing_prefix broadcast prefix = prefix <> ".b."

-- What is published under, and bound to.
unfoldable pub routing_key : Kind → String → String → String
routing_key kind prefix name = routing_prefix kind prefix <> name

-- The durable queue of a request or an event; that of a broadcast is named by the broker.
unfoldable pub queue_name : Kind → String → String → String → String
queue_name rpc queue_prefix prefix name = queue_prefix <> ("." <> (prefix <> (".r." <> name)))
queue_name queue queue_prefix prefix name = queue_prefix <> ("." <> (prefix <> (".q." <> name)))
queue_name broadcast queue_prefix prefix name = ""

-- The letters between the prefix and the name of a routing key, and of a queue.
abbrev key_infix : Kind → String
key_infix rpc = ".r."
key_infix queue = ".e."
key_infix broadcast = ".b."

abbrev queue_infix : Kind → String
queue_infix rpc = ".r."
queue_infix queue = ".q."
queue_infix broadcast = ".b."

differ : (a b : String) (n n' : String) → (a == b) ≡ false → count a ≡ count b → a <> n ≢ b <> n'
differ a b n n' h len e = ground (arith, eq_iff a b, append_inj e len)

key_infix_inj :
    (k k' : Kind) (n n' : String) → key_infix k <> n ≡ key_infix k' <> n' → (k ≡ k') × (n ≡ n')
key_infix_inj rpc rpc n n' h = (refl, append_cancel_left ".r." n n' h)
key_infix_inj queue queue n n' h = (refl, append_cancel_left ".e." n n' h)
key_infix_inj broadcast broadcast n n' h = (refl, append_cancel_left ".b." n n' h)
key_infix_inj k k' n n' h = absurd (differ (key_infix k) (key_infix k') n n' refl refl h)

queue_infix_inj :
    (k k' : Kind) (n n' : String) → queue_infix k <> n ≡ queue_infix k' <> n' → (k ≡ k') × (n ≡ n')
queue_infix_inj rpc rpc n n' h = (refl, append_cancel_left ".r." n n' h)
queue_infix_inj queue queue n n' h = (refl, append_cancel_left ".q." n n' h)
queue_infix_inj broadcast broadcast n n' h = (refl, append_cancel_left ".b." n n' h)
queue_infix_inj k k' n n' h = absurd (differ (queue_infix k) (queue_infix k') n n' refl refl h)

routing_key-eq :
    (k : Kind) (prefix n : String) → routing_key k prefix n ≡ prefix <> (key_infix k <> n)
unfolding routing_key routing_prefix
routing_key-eq rpc prefix n = append_assoc prefix ".r." n
routing_key-eq queue prefix n = append_assoc prefix ".e." n
routing_key-eq broadcast prefix n = append_assoc prefix ".b." n

-- With one prefix, no two messages of different patterns or names share a routing key, whichever
-- exchanges the patterns use.
pub routing_key-inj :
    (prefix : String) (k k' : Kind) (n n' : String)
    → routing_key k prefix n ≡ routing_key k' prefix n'
    → (k ≡ k') × (n ≡ n')
routing_key-inj prefix k k' n n' h = key_infix_inj k k' n n' (
    append_cancel_left prefix _ _
      (sym (routing_key-eq k prefix n) ∙ h ∙ routing_key-eq k' prefix n'))

abbrev pub is_durable : Kind → Bool
is_durable broadcast = false
is_durable _ = true

queue_name-eq :
    (k : Kind) (q prefix n : String)
    → is_durable k ≡ true
    → queue_name k q prefix n ≡ q <> ("." <> (prefix <> (queue_infix k <> n)))
unfolding queue_name
queue_name-eq rpc q prefix n h = refl
queue_name-eq queue q prefix n h = refl
queue_name-eq broadcast q prefix n h = cc

-- Two instances that have the same prefix and the same name for their queues share a durable queue
-- exactly where they register the same pattern and name: no two names, and no name of an atask and
-- name of a queue task, give one queue.
pub queue_name-inj :
    (q prefix : String) (k k' : Kind) (n n' : String)
    → is_durable k ≡ true
    → is_durable k' ≡ true
    → (queue_name k q prefix n ≡ queue_name k' q prefix n') ↔ ((k ≡ k') × (n ≡ n'))
queue_name-inj q prefix k k' n n' d d' = (
  λ h. queue_infix_inj k k' n n' (
      append_cancel_left prefix _ _ (
        append_cancel_left "." _ _ (
          append_cancel_left q _ _
            (sym (queue_name-eq k q prefix n d) ∙ h ∙ queue_name-eq k' q prefix n' d')))),
  λ e. ground (arith, e),
)

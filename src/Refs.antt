-- ===== src/Refs.antt =====
-- atasks/refs.py: the light references `ataskref`, `atask_qref` and `atask_bref`, which call an atask
-- by its name alone. The options of a reference are numbers, such as a timeout.
use atasks.Prelude.{
  ℕ, suc, String, ◌≡◌, refl, Option, none, List, [], arith, false, not, ◌&&◌, is_some,
  if◌then◌else◌, leb, ltb,
}
use atasks.Prelude.Lists.{length}
use atasks.Prelude.Dict
use atasks.Prelude.Dict.{Dict}
use atasks.Hop.{Kind, rpc, queue, broadcast, AtaskHop}
use atasks.Errors.{
  Exec, returned, raised, exception, continue, ◌>>=◌, ExceptionClass, atask_stack_too_deep,
  type_error, no_codec_registered, no_client_transport_registered,
}
use atasks.Trace.{push_hop}
use atasks.Calls.{Program, Process, World, send, send_bound, can_bind}

-- The class of a `_Ref` is its kind.
pub record Ref : Type 0 where
  pub kind : Kind
  pub namespace : String
  pub options : Dict ℕ

-- `ataskref`, `atask_qref` and `atask_bref`.
abbrev pub default_ref : Kind → Ref
default_ref kind = record { kind = kind; namespace = "default"; options = [] }

-- `ref(namespace=..., **options)`
unfoldable pub bind : String → Dict ℕ → Ref → Ref
bind namespace options ref = record { kind = ref.kind; namespace = namespace; options = options }

module _ {X : Type 0} (world : World X) (run_body : Program X → Exec (Process X) X) where
  -- After the hop is pushed; the two kinds that wait for nothing return nothing.
  abbrev call_by_kind :
      Kind → String → Option ℕ → List X → Dict X → List AtaskHop → Exec (Process X) X
  call_by_kind rpc name timeout argv kwargs chain =
      send world run_body rpc name argv kwargs timeout chain
  call_by_kind queue name timeout argv kwargs chain =
      send world run_body queue name argv kwargs none chain >>= λ _ q.
      (returned world.none_value, q)
  call_by_kind broadcast name timeout argv kwargs chain =
      send world run_body broadcast name argv kwargs none chain >>= λ _ q.
      (returned world.none_value, q)

  -- `await ref[name](*argv, **kwargs)`
  unfoldable pub get_item : Ref → String → List X → Dict X → Exec (Process X) X
  get_item ref name argv kwargs p =
      continue
        (push_hop world.machine world.settings name ref.namespace ref.kind (world.stamp_at p.calls)
          (world.site_at p.calls) p.context)
        (call_by_kind ref.kind name (Dict.lookup "timeout" ref.options) argv kwargs)
        (record p { calls = suc p.calls })

  -- Why a reference raises before anything is sent, the first reason that holds being the one given.
  abbrev pub ref_refusal : Ref → String → Dict X → Process X → ExceptionClass
  ref_refusal ref name kwargs p =
      if leb world.settings.max_trace_depth (length p.context.chain)
      then atask_stack_too_deep world.settings.max_trace_depth ref.namespace name
      else if not (can_bind ref.kind kwargs)
      then type_error
      else if is_some p.transport
      then no_codec_registered
      else no_client_transport_registered

  -- A light reference of any kind and namespace, with or without a timeout, raises, and nothing is
  -- sent or run, where the chain has the maximum depth of its namespace's router or more, where
  -- a keyword argument has the name of a parameter of the method that sends, where there is no
  -- transport, or no codec: `AtaskStackTooDeep`, `TypeError`, `NoClientTransportRegistered` or
  -- `NoCodecRegistered`, the first that applies.
  pub get_item-unready :
      (ref : Ref) (name : String) (argv : List X) (kwargs : Dict X) (p : Process X)
      → (ltb (length p.context.chain) world.settings.max_trace_depth
          && can_bind ref.kind kwargs
          && is_some p.transport
          && p.has_codec)
        ≡ false
      → get_item ref name argv kwargs p
        ≡ (raised (exception (ref_refusal ref name kwargs p)), record p { calls = suc p.calls })
  unfolding get_item push_hop send send_bound
  get_item-unready ref name argv kwargs p h = by_kind ref.kind refl
    where
      by_kind :
          (kind : Kind)
          → ref.kind ≡ kind
          → get_item ref name argv kwargs p
            ≡ (raised (exception (ref_refusal ref name kwargs p)), record p { calls = suc p.calls })
      by_kind rpc e = ground (arith, e)
      by_kind queue e = ground (arith, e)
      by_kind broadcast e = ground (arith, e)

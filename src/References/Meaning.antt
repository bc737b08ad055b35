-- ===== src/References/Meaning.antt =====
-- What a generated reference is when its line is run, and what the decorators of the source register.
use atasks.Prelude.{
  String, ◌≡◌, refl, ◌∙◌, Option, none, some, List, [], ◌∷◌, ◌==◌, eq_iff, true, inl, inr, arith,
  if◌then◌else◌, Option-cases, ◌⊎◌, Bool-cases,
}
use atasks.Prelude.Dict
use atasks.Prelude.Dict.{Dict, lookup-insert, lookup-nil}
use atasks.Hop.{Kind, rpc, queue, broadcast}
use atasks.Errors.{Outcome-cases, returned}
use atasks.Refs.{Ref, default_ref, bind}
use atasks.Tasks.{task_name}
use atasks.References.{
  Value, literal, expression, Keyword, Decorator, name, call, other_decorator, Statement, function,
  other_statement, Reference, decorator_refs, is_option, read_option, read_options, decorator_info,
  info_of, reference_of, function_reference, task_references,
}

-- The name of a function, the light reference that stands under it, and the task that it calls.
abbrev pub Meaning : Type 0
Meaning = String × Option Ref × String

-- The names that a generated file imports from `atasks.refs`.
abbrev factory_kind : String → Option Kind
factory_kind factory =
    if factory == "ataskref"
    then some rpc
    else if factory == "atask_qref"
    then some queue
    else if factory == "atask_bref"
    then some broadcast
    else none

abbrev ref_of : Option Kind → Option String → Option Ref
ref_of none namespace = none
ref_of (some kind) none = some (default_ref kind)
ref_of (some kind) (some namespace) = some (bind namespace [] (default_ref kind))

-- `function_name = factory(namespace=...)[task_name]`
abbrev pub meaning : Reference → Meaning
meaning r = (r.function_name, ref_of (factory_kind r.ref_factory) r.namespace, r.task_name)

-- The kind of task that a decorator of that name registers.
abbrev decorator_kind : String → Option Kind
decorator_kind decorator =
    if "atask" == decorator
    then some rpc
    else if "atask_queue" == decorator
    then some queue
    else if "atask_broadcast" == decorator
    then some broadcast
    else none

-- The literal that is given for an argument.
abbrev given : String → Keyword → Option String
given arg keyword = elim keyword.arg [
  | none ↦ none
  | some a ↦
      if a == arg then elim keyword.value [ literal s ↦ some s | expression ↦ none ] else none
]

abbrev or_else {ℓ} : {A : Type ℓ} → Option A → Option A → Option A
or_else none o = o
or_else (some a) o = some a

or_else-none {ℓ} : {A : Type ℓ} (o : Option A) → or_else o none ≡ o
or_else-none none = refl
or_else-none (some a) = refl

pub argument : String → List Keyword → Option String
argument arg [] = none
argument arg (keyword ∷ keywords) = or_else (argument arg keywords) (given arg keyword)

-- What calls the task that a decorator registers for a function: of its kind, in its namespace, under
-- the name that the decorators of `atasks.tasks` give it.
abbrev pub registration : String → String → Option Kind → List Keyword → Option Meaning
registration module_name function_name none keywords = none
registration module_name function_name (some kind) keywords = some (
  function_name,
  ref_of (some kind) (argument "namespace" keywords),
  task_name (argument "name" keywords)
      (record { module_name = module_name; function_name = function_name; value = tt {0} }),
)

abbrev pub registered_by : String → String → Decorator → Option Meaning
registered_by m f (name decorator) = registration m f (decorator_kind decorator) []
registered_by m f (call (some decorator) keywords) =
    registration m f (decorator_kind decorator) keywords
registered_by m f (call none keywords) = none
registered_by m f other_decorator = none

-- The first of its decorators that registers a task.
pub first_registered : String → String → List Decorator → Option Meaning
first_registered m f [] = none
first_registered m f (d ∷ ds) = or_else (registered_by m f d) (first_registered m f ds)

abbrev prepend : Option Meaning → List Meaning → List Meaning
prepend none xs = xs
prepend (some x) xs = x ∷ xs

-- The functions of a module that are tasks.
pub declared : String → List Statement → List Meaning
declared m [] = []
declared m (other_statement ∷ body) = declared m body
declared m (function f decorators ∷ body) =
    prepend (first_registered m f decorators) (declared m body)

abbrev pub meanings : List Reference → List Meaning
meanings [] = []
meanings (r ∷ rs) = meaning r ∷ meanings rs

read_option-lookup :
    (arg : Option String) (value : Value) (a : String) (options options' : Dict String)
    → is_option a ≡ true
    → read_option (record { arg = arg; value = value }) options ≡ returned options'
    → Dict.lookup a options'
      ≡ or_else (given a (record { arg = arg; value = value })) (Dict.lookup a options)
read_option-lookup none value a options options' o h = ground (arith, h)
read_option-lookup (some b) (literal s) a options options' o h =
    ground (arith, h, o, eq_iff b a, lookup-insert a b s options)
read_option-lookup (some b) expression a options options' o h = ground (arith, h, o, eq_iff b a)

read_options-lookup :
    (keywords : List Keyword) (a : String) (options options' : Dict String)
    → is_option a ≡ true
    → read_options keywords options ≡ returned options'
    → Dict.lookup a options' ≡ or_else (argument a keywords) (Dict.lookup a options)
unfolding read_options argument
read_options-lookup [] a options options' o h = ground (arith, h)
read_options-lookup (keyword ∷ keywords) a options options' o h =
    elim (Outcome-cases (read_option keyword options)) [
      | inr (x, e) ↦ absurd (ground (arith, e, h))
      | inl (next, e) ↦
          read_options-lookup keywords a next options' o (ground (arith, e, h))
          ∙ ground (arith, read_option-lookup keyword.arg keyword.value a options next o e)
    ]

-- `_DECORATOR_REFS` gives each decorator the factory of its kind.
decorator-cases :
    (decorator : String)
    → ((Dict.lookup decorator decorator_refs ≡ none) × (decorator_kind decorator ≡ none))
      ⊎ ((factory : String) × (kind : Kind) × (Dict.lookup decorator decorator_refs ≡ some factory)
          × (decorator_kind decorator ≡ some kind)
          × (factory_kind factory ≡ some kind))
unfolding Dict.lookup
decorator-cases decorator = elim (Bool-cases ("atask" == decorator)) [
  | inl e ↦ inr ("ataskref", rpc, ground (arith, e), ground (arith, e), refl)
  | inr e ↦ elim (Bool-cases ("atask_queue" == decorator)) [
    | inl f ↦ inr ("atask_qref", queue, ground (arith, e, f), ground (arith, e, f), refl)
    | inr f ↦ elim (Bool-cases ("atask_broadcast" == decorator)) [
      | inl g ↦
          inr ("atask_bref", broadcast, ground (arith, e, f, g), ground (arith, e, f, g), refl)
      | inr g ↦ inl (ground (arith, e, f, g), ground (arith, e, f, g))
    ]
  ]
]

-- What `_decorator_info` finds, as the reference that is made of it.
abbrev found_meaning : String → String → Option (String × Dict String) → Option Meaning
found_meaning m f none = none
found_meaning m f (some found) = some (meaning (reference_of m f found))

registration-info_of :
    (m f decorator : String) (keywords : List Keyword) (info : Option (String × Dict String))
    → info_of (Dict.lookup decorator decorator_refs) keywords ≡ returned info
    → registration m f (decorator_kind decorator) keywords ≡ found_meaning m f info
unfolding task_name
registration-info_of m f decorator keywords info h = elim (decorator-cases decorator) [
  | inl (l, k) ↦ rw k (ground (arith, l, h))
  | inr (factory, kind, l, k, same) ↦ elim (Outcome-cases (read_options keywords [])) [
    | inr (x, e) ↦ absurd (ground (arith, l, e, h))
    | inl (options, e) ↦
        let named = read_options-lookup keywords "name" [] options refl e in
        let spaced = read_options-lookup keywords "namespace" [] options refl e in
        let found : info ≡ some (factory, options) = ground (arith, l, e, h) in
        rw
          (
            k,
            found,
            same,
            named,
            spaced,
            lookup-nil {V = String} "name",
            lookup-nil {V = String} "namespace",
            or_else-none {0} (argument "namespace" keywords),
            or_else-none {0} (argument "name" keywords),
          )
          (ground arith)
  ]
]

registered_by-decorator_info :
    (m f : String) (d : Decorator) (info : Option (String × Dict String))
    → decorator_info d ≡ returned info
    → registered_by m f d ≡ found_meaning m f info
unfolding decorator_info
registered_by-decorator_info m f (name decorator) info h =
    registration-info_of m f decorator [] info h
registered_by-decorator_info m f (call (some decorator) keywords) info h =
    registration-info_of m f decorator keywords info h
registered_by-decorator_info m f (call none keywords) info h = ground (arith, h)
registered_by-decorator_info m f other_decorator info h = ground (arith, h)

abbrev optional_meaning : Option Reference → Option Meaning
optional_meaning none = none
optional_meaning (some r) = some (meaning r)

first_registered-function_reference :
    (m f : String) (ds : List Decorator) (r : Option Reference)
    → function_reference m f ds ≡ returned r
    → first_registered m f ds ≡ optional_meaning r
unfolding function_reference first_registered
first_registered-function_reference m f [] r h = ground (arith, h)
first_registered-function_reference m f (d ∷ ds) r h = elim (Outcome-cases (decorator_info d)) [
  | inr (x, e) ↦ absurd (ground (arith, e, h))
  | inl (info, e) ↦ elim (Option-cases info) [
    | inl n ↦
        let by = registered_by-decorator_info m f d info e in
        let rest = first_registered-function_reference m f ds r (ground (arith, e, n, h)) in
        rw (by, n) rest
    | inr (found, n) ↦
        let by = registered_by-decorator_info m f d info e in
        let same : r ≡ some (reference_of m f found) = ground (arith, e, n, h) in
        rw (by, n, same) refl
  ]
]

-- The references that are extracted from a module, run in the generated file, are the light
-- references of the tasks that its functions declare, in order: each stands under the name of the
-- function, has the kind and the namespace of its first task decorator, and calls the name that this
-- decorator registers the function under.
pub task_references-declared :
    (m : String) (body : List Statement) (rs : List Reference)
    → task_references m body ≡ returned rs
    → meanings rs ≡ declared m body
unfolding task_references declared
task_references-declared m [] rs h = ground (arith, h)
task_references-declared m (other_statement ∷ body) rs h = task_references-declared m body rs h
task_references-declared m (function f ds ∷ body) rs h =
    elim (Outcome-cases (function_reference m f ds)) [
      | inr (x, e) ↦ absurd (ground (arith, e, h))
      | inl (r, e) ↦ elim (Outcome-cases (task_references m body)) [
        | inr (x, g) ↦ absurd (ground (arith, e, g, h))
        | inl (rest, g) ↦ ground (
          arith,
          e,
          g,
          h,
          first_registered-function_reference m f ds r e,
          task_references-declared m body rest g,
        )
      ]
    ]

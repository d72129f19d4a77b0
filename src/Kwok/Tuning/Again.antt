-- ===== src/Kwok/Tuning/Again.antt =====
-- A second tuning changes nothing: kwok_integration.go.
use scale_cluster_agent.Kwok.Tuning.Flags.{
  desired, ensure_flags, ensure_flags-twice, ensure_flags-own,
}
use scale_cluster_agent.Kwok.Tuning.Laws.{to_strings-interfaces, get-set_at, server_at}
use scale_cluster_agent.Kwok.Tuning.{
  to_strings, to_interfaces, dropped, tune_args, tune_component, tune_components, tune_config,
  TuningAnswers, modify_kwok_config,
}
use scale_cluster_agent.Import.Value.{
  Value, string, scalar, object, array, Fields, no_field, field, Values, no_value, value, get, set,
  as_array, as_string, text_at,
}
use scale_cluster_agent.Prelude.{
  List, [], ◌≡◌, ◌≢◌, ◌⊎◌, refl, ap, ◌∙◌, inl, inr, true, Option, none, some, Text, text_eq, codes,
  ◌==◌, ==_iff, ==_self, contains, Bool-cases, Option-cases, arith,
}

-- A value that is there already is not changed by setting it.
set-same : (key : Text) (v : Value) (fs : Fields) → get key fs ≡ some v → set key v fs ≡ fs
unfolding get set
set-same key v no_field e = ground arith
set-same key v (field k w fs) e = ground (arith, ==_iff k key, set-same key v fs)

-- Setting a key to a new value after another is setting it once.
set-set : (key : Text) (v w : Value) (fs : Fields) → set key v (set key w fs) ≡ set key v fs
unfolding set
set-set key v w no_field = ground (arith, ==_self key)
set-set key v w (field k u fs) = ground (arith, ==_iff k key, ==_self key, set-set key v w fs)

tune_args-set :
    (cm : Fields) (flags : List Text)
    → (tune_args (set (codes "args") (array (to_interfaces flags)) cm)).0
      ≡ set (codes "args") (array (to_interfaces (ensure_flags flags desired))) cm
unfolding tune_args
tune_args-set cm flags =
    let own = (get-set_at (codes "args") cm (array (to_interfaces flags))).1 in
    rw (own, tune_args, to_strings-interfaces) (set-set (codes "args") _ _ cm)

-- The tuned fields are the fields with a list of flags that a further tuning keeps, or the same fields.
again_of :
    (cm : Fields) (flags : List Text)
    → ensure_flags flags desired ≡ flags
    → (tune_args cm).0 ≡ set (codes "args") (array (to_interfaces flags)) cm
    → (tune_args (tune_args cm).0).0 ≡ (tune_args cm).0
again_of cm flags kept e =
    ap (λ (c : Fields). (tune_args c).0) e ∙ tune_args-set cm flags ∙ rw (kept, e) refl

again_same :
    (cm : Fields) → (tune_args cm).0 ≡ cm → (tune_args (tune_args cm).0).0 ≡ (tune_args cm).0
again_same cm e = ap (λ (c : Fields). (tune_args c).0) e

module _ (cm : Fields) where
  set_args :
      get (codes "args") cm ≡ none
      → (tune_args cm).0 ≡ set (codes "args") (array (to_interfaces desired)) cm
  unfolding tune_args
  set_args e = rw (e, tune_args) refl

  reset_args :
      (vs : Values)
      → get (codes "args") cm ≡ some (array vs)
      → (tune_args cm).0
        ≡ set (codes "args") (array (to_interfaces (ensure_flags (to_strings vs) desired))) cm
  unfolding tune_args
  reset_args vs e = rw (e, tune_args) refl

  leave_args :
      (v : Value)
      → get (codes "args") cm ≡ some v
      → as_array (some v) ≡ none
      → (tune_args cm).0 ≡ cm
  unfolding tune_args
  leave_args v e no_list = rw (e, no_list, tune_args) refl

  tune_args-at :
      (args : Option Value)
      → get (codes "args") cm ≡ args
      → (tune_args (tune_args cm).0).0 ≡ (tune_args cm).0
  tune_args-at none e = again_of cm desired (ensure_flags-own desired) (set_args e)
  tune_args-at (some (array vs)) e =
      again_of cm (ensure_flags (to_strings vs) desired)
        (ensure_flags-twice (to_strings vs) desired) (reset_args vs e)
  tune_args-at (some (string s)) e = again_same cm (leave_args (string s) e refl)
  tune_args-at (some (scalar s)) e = again_same cm (leave_args (scalar s) e refl)
  tune_args-at (some (object fs)) e = again_same cm (leave_args (object fs) e refl)

name-tune_args : (cm : Fields) → text_at (codes "name") (tune_args cm).0 ≡ text_at (codes "name") cm
name-tune_args cm =
    let ne : codes "name" ≢ codes "args" = ground arith in
    ap (λ (v : Option Value). elim (as_string v) [ none ↦ [] | some n ↦ n ])
      ((server_at cm (get (codes "args") cm) refl).0 (codes "name") ne)

again_component :
    (v : Value)
    → (tune_component v ≡ none)
      ⊎ ((w : Value) × (tune_component v ≡ some w) × (tune_component w ≡ some w))
unfolding tune_component
again_component (string s) = inr (string s, refl, refl)
again_component (scalar s) = inr (scalar s, refl, refl)
again_component (array vs) = inr (array vs, refl, refl)
again_component (object cm) =
    let name = text_at (codes "name") cm in
    elim (Bool-cases (contains dropped name)) [
      | inl d ↦ inl (rw (d, tune_component) refl)
      | inr d ↦ elim (Bool-cases (name == codes "kube-apiserver")) [
        | inr s ↦ inr (object cm, rw (d, s, tune_component) refl, rw (d, s, tune_component) refl)
        | inl s ↦ inr (
          object (tune_args cm).0,
          rw (d, s, tune_component) refl,
          rw (name-tune_args cm, d, s, tune_component)
              (ap (λ (fs : Fields). some (object fs)) (tune_args-at cm _ refl)),
        )
      ]
    ]

tune_components-twice : (vs : Values) → tune_components (tune_components vs) ≡ tune_components vs
unfolding tune_components
tune_components-twice no_value = refl
tune_components-twice (value v vs) = elim (again_component v) [
  | inl e ↦ rw (e, tune_components) (tune_components-twice vs)
  | inr (w, e, again) ↦
      rw (e, again, tune_components) (ap (λ (ws : Values). value w ws) (tune_components-twice vs))
]

-- A document whose list of components is tuned
tuned_list :
    (doc : Fields) (comps : Values)
    → get (codes "components") doc ≡ some (array (tune_components comps))
    → tune_config doc ≡ some doc
unfolding tune_config
tuned_list doc comps e =
    rw (e, tune_config, tune_components-twice comps)
      (ap (λ (fs : Fields). some fs)
        (set-same (codes "components") (array (tune_components comps)) doc e))

config_of :
    (doc new : Fields)
    → tune_config doc ≡ some new
    → (comps : Values) × (new ≡ set (codes "components") (array (tune_components comps)) doc)
unfolding tune_config
config_of doc new e = elim (Option-cases (as_array (get (codes "components") doc))) [
  | inl c ↦ absurd (ground (arith, c, e))
  | inr (comps, c) ↦ (comps, ground (arith, c, e))
]

pub tune_config-twice : (doc new : Fields) → tune_config doc ≡ some new → tune_config new ≡ some new
tune_config-twice doc new e =
    let (comps, same) = config_of doc new e in
    let own = (get-set_at (codes "components") doc (array (tune_components comps))).1 in
    tuned_list new comps (ap (get (codes "components")) same ∙ own)

-- What is written is the tuned document that was read.
written_of :
    (w : TuningAnswers) (new : Fields)
    → (modify_kwok_config w).kwok ≡ some new
    → (doc : Fields) × (tune_config doc ≡ some new)
unfolding modify_kwok_config
written_of w new e = elim (Option-cases w.kwok) [
  | inl k ↦ absurd (ground (arith, k, e))
  | inr (doc, k) ↦ (
    doc,
    elim (Option-cases (tune_config doc)) [
      | inl t ↦ absurd (ground (arith, k, t, e))
      | inr (out, t) ↦ ground (arith, k, t, e)
    ],
  )
]

rewritten :
    (w : TuningAnswers) (doc : Fields)
    → tune_config doc ≡ some doc
    → w.kwok ≡ some doc
    → w.kwok_written ≡ true
    → ((modify_kwok_config w).kwok ≡ some doc) × ((modify_kwok_config w).succeeded ≡ true)
unfolding modify_kwok_config
rewritten w doc t k written =
    (rw (k, t, written, modify_kwok_config) refl, rw (k, t, written, modify_kwok_config) refl)

-- Once kwok.yaml was tuned, a later call that can read and write it writes the same document again.
pub modify_kwok_config-again :
    (w later : TuningAnswers) (new : Fields)
    → (modify_kwok_config w).kwok ≡ some new
    → later.kwok ≡ some new
    → later.kwok_written ≡ true
    → ((modify_kwok_config later).kwok ≡ some new) × ((modify_kwok_config later).succeeded ≡ true)
modify_kwok_config-again w later new e read written =
    let (doc, tuned) = written_of w new e in
    rewritten later new (tune_config-twice doc new tuned) read written

-- ===== src/Kwok/Tuning.antt =====
-- kwok_integration.go: how modifyKWOKConfigForLowMemory and tuneKWOKMetadata change the decoded
-- kwok.yaml and metadata.yaml of a cluster.
pub mod Flags
pub mod Laws
pub mod Again
pub mod Metadata
use scale_cluster_agent.Kwok.Tuning.Flags.{ensure_flags, desired}
use scale_cluster_agent.Import.Value.{
  Value, string, scalar, object, array, Fields, no_field, field, Values, no_value, value, get, set,
  as_object, as_array, text_at,
}
use scale_cluster_agent.Prelude.{
  Bool, true, false, ◌||◌, List, [], ◌∷◌, Option, none, some, Text, text_eq, codes, ◌==◌, contains,
  if◌then◌else◌,
}

-- toStrings: what is no string is left out
abbrev pub to_strings : Values → List Text
to_strings no_value = []
to_strings (value (string s) vs) = s ∷ to_strings vs
to_strings (value (scalar s) vs) = to_strings vs
to_strings (value (object fs) vs) = to_strings vs
to_strings (value (array ws) vs) = to_strings vs

-- toInterfaces
abbrev pub to_interfaces : List Text → Values
to_interfaces [] = no_value
to_interfaces (s ∷ ss) = value (string s) (to_interfaces ss)

abbrev pub dropped : List Text
dropped = codes "kube-scheduler" ∷ codes "kube-controller-manager" ∷ []

-- The arguments of the API server: its flags, if there are arguments in a list or none at all. The
-- second part says whether something was set.
unfoldable pub tune_args : Fields → Fields × Bool
unfolding ensure_flags
tune_args cm = elim (get (codes "args") cm) [
  | none ↦ (set (codes "args") (array (to_interfaces desired)) cm, true)
  | some args ↦ elim (as_array (some args)) [
    | none ↦ (cm, false)
    | some vs ↦
        (set (codes "args") (array (to_interfaces (ensure_flags (to_strings vs) desired))) cm, true)
  ]
]

-- One component; `none` if it is left out
unfoldable pub tune_component : Value → Option Value
unfolding tune_args
tune_component (object cm) =
    let name = text_at (codes "name") cm in
    if contains dropped name
    then none
    else if name == codes "kube-apiserver"
    then some (object (tune_args cm).0)
    else some (object cm)
tune_component v = some v

unfoldable pub tune_components : Values → Values
unfolding tune_component
tune_components no_value = no_value
tune_components (value v vs) =
    let rest = tune_components vs in elim (tune_component v) [ none ↦ rest | some w ↦ value w rest ]

-- Whether a component sets the flag `updated` of tuneKWOKMetadata
unfoldable pub updates : Value → Bool
unfolding tune_args
updates (object cm) =
    let name = text_at (codes "name") cm in
    if contains dropped name
    then true
    else if name == codes "kube-apiserver"
    then (tune_args cm).1
    else false
updates v = false

unfoldable pub any_updates : Values → Bool
unfolding updates
any_updates no_value = false
any_updates (value v vs) = updates v || any_updates vs

-- modifyKWOKConfigForLowMemory on the document: none if `components` is missing or no list
unfoldable pub tune_config : Fields → Option Fields
unfolding tune_components
tune_config doc = elim (as_array (get (codes "components") doc)) [
  | none ↦ none
  | some comps ↦ some (set (codes "components") (array (tune_components comps)) doc)
]

-- The first case of tuneKWOKMetadata, with the flag `updated`
unfoldable pub tune_list : Fields → Fields × Bool
unfolding tune_components any_updates
tune_list doc = elim (as_array (get (codes "components") doc)) [
  | none ↦ (doc, false)
  | some comps ↦ (set (codes "components") (array (tune_components comps)) doc, any_updates comps)
]

-- Its second case, for the API server at the top level
unfoldable pub tune_top : Fields → Fields × Bool
unfolding tune_args
tune_top doc = elim (as_object (get (codes "kubeApiserver") doc)) [
  | none ↦ (doc, false)
  | some ap ↦
      let (tuned, changed) = tune_args ap in
      if changed then (set (codes "kubeApiserver") (object tuned) doc, true) else (doc, false)
]

-- delete(doc, key)
unfoldable pub remove : Text → Fields → Fields
remove key no_field = no_field
remove key (field k v fs) = let rest = remove key fs in if k == key then rest else field k v rest

abbrev pub has : Text → Fields → Bool
has key fs = elim (get key fs) [ none ↦ false | some v ↦ true ]

-- tuneKWOKMetadata on the document: none if nothing is to be changed, which is an error there
unfoldable pub tune_metadata : Fields → Option Fields
unfolding tune_list tune_top remove
tune_metadata doc =
    let (listed, by_list) = tune_list doc in
    let (topped, by_top) = tune_top listed in
    let has_scheduler = has (codes "kubeScheduler") topped in
    let fewer = remove (codes "kubeScheduler") topped in
    let has_manager = has (codes "kubeControllerManager") fewer in
    if by_list || by_top || has_scheduler || has_manager
    then some (remove (codes "kubeControllerManager") fewer)
    else none

-- What is met: the files that can be read and parsed, and whether they can be written.
pub record TuningAnswers : Type 0 where
  pub kwok : Option Fields
  pub kwok_written : Bool
  pub meta : Option Fields
  pub meta_written : Bool

-- What is written to kwok.yaml and to metadata.yaml, and whether there is no error
pub record Tuned : Type 0 where
  pub kwok : Option Fields
  pub meta : Option Fields
  pub succeeded : Bool

abbrev pub untuned : Tuned
untuned = record { kwok = none; meta = none; succeeded = false }

-- modifyKWOKConfigForLowMemory; an error of tuneKWOKMetadata is only logged
unfoldable pub modify_kwok_config : TuningAnswers → Tuned
unfolding tune_config tune_metadata
modify_kwok_config w = elim w.kwok [
  | none ↦ untuned
  | some doc ↦ elim (tune_config doc) [
    | none ↦ untuned
    | some out ↦
        let meta : Option Fields = elim w.meta [ none ↦ none | some m ↦ tune_metadata m ] in
        let written : Option Fields = if w.meta_written then meta else none in
        if w.kwok_written
        then record { kwok = some out; meta = written; succeeded = true }
        else untuned
  ]
]

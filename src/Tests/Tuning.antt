-- ===== src/Tests/Tuning.antt =====
-- Tests of the tuning of a KWOK cluster's files: kwok_integration.go.
use scale_cluster_agent.Kwok.Anonymous.{anonymous_text}
use scale_cluster_agent.Kwok.Manifests.{newline}
use scale_cluster_agent.Kwok.Tuning.Flags.{prefix, ensure_flags}
use scale_cluster_agent.Kwok.Tuning.{tune_metadata, TuningAnswers, modify_kwok_config}
use scale_cluster_agent.Kwok.Tuning.Laws.{ConfigBecomes, modify_kwok_config-ConfigBecomes}
use scale_cluster_agent.Kwok.Tuning.Again.{modify_kwok_config-again}
use scale_cluster_agent.Kwok.Tuning.Metadata.{
  ListBecomes, TopBecomes, tuned_keys, tune_metadata-Becomes,
}
use scale_cluster_agent.Import.Value.{
  string, scalar, object, array, Fields, no_field, field, Values, no_value, value, get, set,
}
use scale_cluster_agent.Prelude.{
  ◌++◌, ◌≡◌, refl, true, false, [], ◌∷◌, none, some, Text, text_eq, codes, contains,
}

abbrev named : Text → Fields → Fields
named name rest = field (codes "name") (string name) rest

abbrev args : Fields
args =
    field (codes "args")
      (array (
        value (string (codes "--v=2"))
          (value (scalar (codes "1")) (value (string (codes "--profiling=true")) no_value))))
      no_field

abbrev components : Values
components = value (string (codes "x")) (
    value (object (named (codes "kube-scheduler") no_field))
      (value (object (named (codes "kube-apiserver") args)) no_value))

abbrev kwok_yaml : Fields
kwok_yaml =
    field (codes "kind") (string (codes "k"))
      (field (codes "components") (array components) no_field)

abbrev both : TuningAnswers
both = record { kwok = some kwok_yaml; kwok_written = true; meta = none; meta_written = true }

abbrev plain : Fields
plain = field (codes "a") (string []) no_field

abbrev top_scheduler : Fields
top_scheduler = field (codes "kubeScheduler") (string []) plain

-- A document with a scheduler only, and what it becomes.
abbrev with_components : Values → Fields
with_components vs = field (codes "components") (array vs) no_field

abbrev simple : TuningAnswers
simple = record both {
  kwok = some (with_components (value (object (named (codes "kube-scheduler") no_field)) no_value));
}

abbrev tuned_yaml : Fields
tuned_yaml = with_components no_value

abbrev rewrite : TuningAnswers
rewrite = record both { kwok = some tuned_yaml }

written : (modify_kwok_config simple).kwok ≡ some tuned_yaml
unfolding modify_kwok_config get set
written = refl

found : get (codes "components") kwok_yaml ≡ some (array components)
unfolding get text_eq
found = refl

prefix-example : prefix (codes "--v=2") ≡ codes "--v"
unfolding prefix
prefix-example = refl

prefix-first : prefix (codes "=2") ≡ codes "=2"
unfolding prefix
prefix-first = refl

ensure_flags-example :
    ensure_flags (codes "--v=2" ∷ codes "-a=1" ∷ []) (codes "-a=2" ∷ [])
    ≡ codes "--v=2" ∷ codes "-a=2" ∷ []
unfolding ensure_flags
ensure_flags-example = refl

tune_metadata-top : tune_metadata top_scheduler ≡ some plain
unfolding tune_metadata get
tune_metadata-top = refl

-- A second call finds nothing to change.
tune_metadata-none : tune_metadata plain ≡ none
unfolding tune_metadata get
tune_metadata-none = refl

modify_kwok_config-ConfigBecomes_example :
    ((modify_kwok_config both).succeeded ≡ true)
    × ((new : Fields) × ((modify_kwok_config both).kwok ≡ some new)
        × ConfigBecomes components kwok_yaml new)
modify_kwok_config-ConfigBecomes_example =
    modify_kwok_config-ConfigBecomes both kwok_yaml components refl found refl

modify_kwok_config-again_example :
    ((modify_kwok_config rewrite).kwok ≡ some tuned_yaml)
    × ((modify_kwok_config rewrite).succeeded ≡ true)
modify_kwok_config-again_example =
    modify_kwok_config-again simple rewrite tuned_yaml written refl refl

tune_metadata-Becomes_example :
    ListBecomes (get (codes "components") top_scheduler) (get (codes "components") plain)
    × TopBecomes (get (codes "kubeApiserver") top_scheduler) (get (codes "kubeApiserver") plain)
    × (get (codes "kubeScheduler") plain ≡ none)
    × (get (codes "kubeControllerManager") plain ≡ none)
    × ((key : Text) → contains tuned_keys key ≡ false → get key plain ≡ get key top_scheduler)
tune_metadata-Becomes_example = tune_metadata-Becomes top_scheduler plain tune_metadata-top

-- The flag is not there, so none is added.
anonymous-example :
    anonymous_text
      (codes "- --authorization-mode=Node,RBAC" ++ (newline ∷ codes "- --client-ca-file=/ca.crt"))
    ≡ codes "- --authorization-mode=AlwaysAllow"
unfolding anonymous_text
anonymous-example = refl

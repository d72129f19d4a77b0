-- ===== src/Kwok/Tuning/Laws.antt =====
-- What becomes of the components of kwok.yaml: kwok_integration.go.
use scale_cluster_agent.Kwok.Tuning.Flags.{
  desired, is_set_by, keep, ensure_flags, ensure_flags-set, ensure_flags-other,
}
use scale_cluster_agent.Kwok.Tuning.{
  to_strings, to_interfaces, dropped, tune_args, tune_component, tune_components, tune_config,
  TuningAnswers, modify_kwok_config,
}
use scale_cluster_agent.Import.Value.{
  Value, string, scalar, object, array, Fields, Values, no_value, value, get, set, text_at, get-set,
}
use scale_cluster_agent.Prelude.{
  ◌≡◌, ◌≢◌, inl, inr, refl, ap, sym, ◌∙◌, Bool, true, false, not, List, [], ◌∷◌, Option, none, some,
  Text, text_eq, codes, ◌==◌, ==_iff, ==_self, contains, Bool-cases, arith,
}

pub to_strings-interfaces : (ss : List Text) → to_strings (to_interfaces ss) ≡ ss
to_strings-interfaces [] = refl
to_strings-interfaces (s ∷ ss) = ap (λ (ts : List Text). s ∷ ts) (to_strings-interfaces ss)

-- A component that is named like the scheduler or the controller manager, or like the API server.
abbrev pub is_dropped : Value → Bool
is_dropped (object cm) = contains dropped (text_at (codes "name") cm)
is_dropped v = false

abbrev pub is_server : Value → Bool
is_server (object cm) = text_at (codes "name") cm == codes "kube-apiserver"
is_server v = false

-- The arguments of the API server before and after. Those that are no list stay; in a list the desired
-- flags are there in their order, the flags with other prefixes as before, and nothing else.
abbrev pub ArgsBecome : Option Value → Option Value → Type 0
ArgsBecome none new = new ≡ some (array (to_interfaces desired))
ArgsBecome (some (array vs)) new =
    (flags : List Text) × (new ≡ some (array (to_interfaces flags)))
    × (keep (is_set_by desired) flags ≡ desired)
    × (keep (λ s. not (is_set_by desired s)) flags
        ≡ keep (λ s. not (is_set_by desired s)) (to_strings vs))
ArgsBecome (some (string s)) new = new ≡ some (string s)
ArgsBecome (some (scalar s)) new = new ≡ some (scalar s)
ArgsBecome (some (object fs)) new = new ≡ some (object fs)

-- The fields of the API server: only its arguments change.
abbrev pub ServerBecomes : Fields → Fields → Type 0
ServerBecomes cm new =
    ((key : Text) → key ≢ codes "args" → get key new ≡ get key cm)
    × ArgsBecome (get (codes "args") cm) (get (codes "args") new)

-- The list before and after.
pub data Tunes : Values → Values → Type 0 where
  done : Tunes no_value no_value
  drop_it : (v : Value) (vs ws : Values) → is_dropped v ≡ true → Tunes vs ws → Tunes (value v vs) ws
  keep_it :
      (v : Value) (vs ws : Values)
      → is_dropped v ≡ false
      → is_server v ≡ false
      → Tunes vs ws
      → Tunes (value v vs) (value v ws)
  tune_it :
      (cm new : Fields) (vs ws : Values)
      → is_dropped (object cm) ≡ false
      → is_server (object cm) ≡ true
      → ServerBecomes cm new
      → Tunes vs ws
      → Tunes (value (object cm) vs) (value (object new) ws)

pub get-set_at :
    (at : Text) (fs : Fields) (v : Value)
    → ((key : Text) → key ≢ at → get key (set at v fs) ≡ get key fs)
      × (get at (set at v fs) ≡ some v)
get-set_at at fs v = (
  λ key ne. get-set key at v fs ∙ ground (arith, ==_iff at key, λ (e : at ≡ key). ne (sym e)),
  get-set at at v fs ∙ rw (==_self at) refl,
)

pub server_at :
    (cm : Fields) (args : Option Value)
    → get (codes "args") cm ≡ args
    → ServerBecomes cm (tune_args cm).0
unfolding tune_args
server_at cm none e =
    let (others, own) = get-set_at (codes "args") cm (array (to_interfaces desired)) in
    rw (e, tune_args, ArgsBecome) (others, own)
server_at cm (some (array vs)) e =
    let flags = ensure_flags (to_strings vs) desired in
    let (others, own) = get-set_at (codes "args") cm (array (to_interfaces flags)) in
    rw (e, tune_args, ArgsBecome)
      (
        others,
        (
          flags,
          own,
          ensure_flags-set (to_strings vs) desired,
          ensure_flags-other (to_strings vs) desired,
        ),
      )
server_at cm (some (string s)) e = rw (e, tune_args, ArgsBecome) (λ key ne. refl, e)
server_at cm (some (scalar s)) e = rw (e, tune_args, ArgsBecome) (λ key ne. refl, e)
server_at cm (some (object fs)) e = rw (e, tune_args, ArgsBecome) (λ key ne. refl, e)

tune_component-cases :
    (v : Value) (vs ws : Values)
    → Tunes vs ws
    → Tunes (value v vs) (elim (tune_component v) [ none ↦ ws | some w ↦ value w ws ])
unfolding tune_component
tune_component-cases (object cm) vs ws t =
    elim (Bool-cases (contains dropped (text_at (codes "name") cm))) [
      | inl d ↦ rw (d, tune_component) (drop_it (object cm) vs ws d t)
      | inr d ↦ elim (Bool-cases (text_at (codes "name") cm == codes "kube-apiserver")) [
        | inl s ↦
            rw (d, s, tune_component)
              (tune_it cm (tune_args cm).0 vs ws d s (server_at cm _ refl) t)
        | inr s ↦ rw (d, s, tune_component) (keep_it (object cm) vs ws d s t)
      ]
    ]
tune_component-cases (string s) vs ws t = keep_it (string s) vs ws refl refl t
tune_component-cases (scalar s) vs ws t = keep_it (scalar s) vs ws refl refl t
tune_component-cases (array xs) vs ws t = keep_it (array xs) vs ws refl refl t

pub tune_components-Tunes : (vs : Values) → Tunes vs (tune_components vs)
unfolding tune_components
tune_components-Tunes no_value = done
tune_components-Tunes (value v vs) =
    tune_component-cases v vs (tune_components vs) (tune_components-Tunes vs)

-- The document before and after: the list of components is tuned, and all else is as before.
abbrev pub ConfigBecomes : Values → Fields → Fields → Type 0
ConfigBecomes comps doc new =
    (tuned : Values) × (get (codes "components") new ≡ some (array tuned))
    × Tunes comps tuned
    × ((key : Text) → key ≢ codes "components" → get key new ≡ get key doc)

tune_config-ConfigBecomes :
    (doc : Fields) (comps : Values)
    → get (codes "components") doc ≡ some (array comps)
    → (new : Fields) × (tune_config doc ≡ some new) × ConfigBecomes comps doc new
unfolding tune_config
tune_config-ConfigBecomes doc comps e =
    let list = array (tune_components comps) in
    let (others, own) = get-set_at (codes "components") doc list in
    (
      set (codes "components") list doc,
      rw (e, tune_config) refl,
      (tune_components comps, own, tune_components-Tunes comps, others),
    )

-- If kwok.yaml can be read and written and its `components` are a list: the call succeeds, and in the
-- document that is written only the list differs. The components that are named like the scheduler or
-- the controller manager are left out of it; the API server's arguments, if they are a list or missing,
-- hold the desired flags in their order, and of the flags with other prefixes those that were there,
-- in their order; nothing else about the components or their order changes.
pub modify_kwok_config-ConfigBecomes :
    (w : TuningAnswers) (doc : Fields) (comps : Values)
    → w.kwok ≡ some doc
    → get (codes "components") doc ≡ some (array comps)
    → w.kwok_written ≡ true
    → ((modify_kwok_config w).succeeded ≡ true)
      × ((new : Fields) × ((modify_kwok_config w).kwok ≡ some new) × ConfigBecomes comps doc new)
unfolding modify_kwok_config
modify_kwok_config-ConfigBecomes w doc comps e list written =
    let (new, tuned, becomes) = tune_config-ConfigBecomes doc comps list in
    (
      rw (e, tuned, written, modify_kwok_config) refl,
      (new, rw (e, tuned, written, modify_kwok_config) refl, becomes),
    )

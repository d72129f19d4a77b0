-- ===== src/Kwok/Tuning/Metadata.antt =====
-- What becomes of metadata.yaml: kwok_integration.go.
use scale_cluster_agent.Kwok.Tuning.Laws.{
  ServerBecomes, server_at, Tunes, tune_components-Tunes, get-set_at,
}
use scale_cluster_agent.Kwok.Tuning.{
  tune_args, tune_components, tune_list, tune_top, remove, tune_metadata,
}
use scale_cluster_agent.Import.Value.{
  Value, string, scalar, object, array, Fields, no_field, field, Values, get,
}
use scale_cluster_agent.Prelude.{
  ◌≡◌, ◌≢◌, refl, ap, sym, subst, ◌∙◌, inl, inr, false, List, [], Option, none, some, Text, text_eq,
  codes, ◌==◌, ==_iff, Bool-cases, contains, ◌∷◌, if◌then◌else◌, arith,
}

get-remove :
    (key gone : Text) (fs : Fields)
    → get key (remove gone fs) ≡ (if gone == key then none else get key fs)
unfolding get remove
get-remove key gone no_field = ground arith
get-remove key gone (field k v fs) =
    ground (arith, ==_iff k key, ==_iff gone key, ==_iff k gone, get-remove key gone fs)

-- The list of components before and after, if it is one.
abbrev pub ListBecomes : Option Value → Option Value → Type 0
ListBecomes none new = new ≡ none
ListBecomes (some (array vs)) new = (ws : Values) × (new ≡ some (array ws)) × Tunes vs ws
ListBecomes (some (string s)) new = new ≡ some (string s)
ListBecomes (some (scalar s)) new = new ≡ some (scalar s)
ListBecomes (some (object fs)) new = new ≡ some (object fs)

-- The API server at the top level before and after.
abbrev pub TopBecomes : Option Value → Option Value → Type 0
TopBecomes none new = new ≡ none
TopBecomes (some (object ap)) new =
    (tuned : Fields) × (new ≡ some (object tuned)) × ServerBecomes ap tuned
TopBecomes (some (string s)) new = new ≡ some (string s)
TopBecomes (some (scalar s)) new = new ≡ some (scalar s)
TopBecomes (some (array vs)) new = new ≡ some (array vs)

tune_list-at :
    (doc : Fields) (v : Option Value)
    → get (codes "components") doc ≡ v
    → ((key : Text) → key ≢ codes "components" → get key (tune_list doc).0 ≡ get key doc)
      × ListBecomes v (get (codes "components") (tune_list doc).0)
unfolding tune_list
tune_list-at doc (some (array vs)) e =
    let (others, own) = get-set_at (codes "components") doc (array (tune_components vs)) in
    rw (e, tune_list) (others, (tune_components vs, own, tune_components-Tunes vs))
tune_list-at doc none e = rw (e, tune_list) (λ key ne. refl, e)
tune_list-at doc (some (string s)) e = rw (e, tune_list) (λ key ne. refl, e)
tune_list-at doc (some (scalar s)) e = rw (e, tune_list) (λ key ne. refl, e)
tune_list-at doc (some (object fs)) e = rw (e, tune_list) (λ key ne. refl, e)

-- Where nothing is set, the arguments stay as they are.
unchanged_args : (cm : Fields) → (tune_args cm).1 ≡ false → (tune_args cm).0 ≡ cm
unfolding tune_args
unchanged_args cm e = ground arith

tune_top-at :
    (doc : Fields) (v : Option Value)
    → get (codes "kubeApiserver") doc ≡ v
    → ((key : Text) → key ≢ codes "kubeApiserver" → get key (tune_top doc).0 ≡ get key doc)
      × TopBecomes v (get (codes "kubeApiserver") (tune_top doc).0)
unfolding tune_top
tune_top-at doc (some (object fs)) e = elim (Bool-cases (tune_args fs).1) [
  | inl c ↦
      let tuned = (tune_args fs).0 in
      let (others, own) = get-set_at (codes "kubeApiserver") doc (object tuned) in
      rw (e, c, tune_top) (others, (tuned, own, server_at fs _ refl))
  | inr c ↦
      rw (e, c, tune_top)
        (
          λ key ne. refl,
          (fs, e, subst (ServerBecomes fs) (unchanged_args fs c) (server_at fs _ refl)),
        )
]
tune_top-at doc none e = rw (e, tune_top) (λ key ne. refl, e)
tune_top-at doc (some (string s)) e = rw (e, tune_top) (λ key ne. refl, e)
tune_top-at doc (some (scalar s)) e = rw (e, tune_top) (λ key ne. refl, e)
tune_top-at doc (some (array vs)) e = rw (e, tune_top) (λ key ne. refl, e)

-- The document that is written, given the document before the keys are deleted
fewer : Fields → Fields
fewer doc = remove (codes "kubeControllerManager") (remove (codes "kubeScheduler") doc)

metadata_of :
    (doc new : Fields) → tune_metadata doc ≡ some new → new ≡ fewer (tune_top (tune_list doc).0).0
unfolding tune_metadata fewer
metadata_of doc new e = ground (arith, e)

get-fewer :
    (doc : Fields) (key : Text)
    → key ≢ codes "kubeControllerManager"
    → key ≢ codes "kubeScheduler"
    → get key (fewer doc) ≡ get key doc
unfolding fewer
get-fewer doc key nm ns =
    get-remove key (codes "kubeControllerManager") (remove (codes "kubeScheduler") doc)
    ∙ ground (
      arith,
      ==_iff (codes "kubeControllerManager") key,
      ==_iff (codes "kubeScheduler") key,
      λ (e : codes "kubeControllerManager" ≡ key). nm (sym e),
      λ (e : codes "kubeScheduler" ≡ key). ns (sym e),
      get-remove key (codes "kubeScheduler") doc,
    )

fewer-gone :
    (doc : Fields)
    → (get (codes "kubeControllerManager") (fewer doc) ≡ none)
      × (get (codes "kubeScheduler") (fewer doc) ≡ none)
unfolding fewer text_eq
fewer-gone doc =
    let rest = remove (codes "kubeScheduler") doc in
    (
      get-remove (codes "kubeControllerManager") (codes "kubeControllerManager") rest,
      get-remove (codes "kubeScheduler") (codes "kubeControllerManager") rest
          ∙ get-remove (codes "kubeScheduler") (codes "kubeScheduler") doc,
    )

-- The keys of metadata.yaml that tuneKWOKMetadata looks at.
abbrev pub tuned_keys : List Text
tuned_keys =
    codes "components"
    ∷ codes "kubeApiserver"
    ∷ codes "kubeScheduler"
    ∷ codes "kubeControllerManager"
    ∷ []

not_tuned :
    (key : Text)
    → contains tuned_keys key ≡ false
    → (key ≢ codes "components")
      × (key ≢ codes "kubeApiserver")
      × (key ≢ codes "kubeScheduler")
      × (key ≢ codes "kubeControllerManager")
not_tuned key h = (
  λ e. ground (arith, h, ==_iff (codes "components") key, e),
  λ e. ground (arith, h, ==_iff (codes "kubeApiserver") key, e),
  λ e. ground (arith, h, ==_iff (codes "kubeScheduler") key, e),
  λ e. ground (arith, h, ==_iff (codes "kubeControllerManager") key, e),
)

-- If metadata.yaml is changed: a list of components and the API server at the top level are tuned as in
-- kwok.yaml, the scheduler and the controller manager at the top level are gone, and every other key has
-- the value that it had.
pub tune_metadata-Becomes :
    (doc new : Fields)
    → tune_metadata doc ≡ some new
    → ListBecomes (get (codes "components") doc) (get (codes "components") new)
      × TopBecomes (get (codes "kubeApiserver") doc) (get (codes "kubeApiserver") new)
      × (get (codes "kubeScheduler") new ≡ none)
      × (get (codes "kubeControllerManager") new ≡ none)
      × ((key : Text) → contains tuned_keys key ≡ false → get key new ≡ get key doc)
tune_metadata-Becomes doc new e =
    let listed = (tune_list doc).0 in
    let topped = (tune_top listed).0 in
    let (list_others, list) = tune_list-at doc (get (codes "components") doc) refl in
    let (top_others, top) = tune_top-at listed (get (codes "kubeApiserver") listed) refl in
    let same = metadata_of doc new e in
    let comps = codes "components" in
    let server = codes "kubeApiserver" in
    let comps_kept =
      get-fewer topped comps (ground arith) (ground arith) ∙ top_others comps (ground arith) in
    let server_kept = get-fewer topped server (ground arith) (ground arith) in
    rw same (
      subst (ListBecomes (get comps doc)) (sym comps_kept) list,
      subst (λ (v : Option Value). TopBecomes v (get server (fewer topped)))
          (list_others server (ground arith))
          (subst (TopBecomes (get server listed)) (sym server_kept) top),
      (fewer-gone topped).1,
      (fewer-gone topped).0,
      λ key none_of.
          let (nc, ns, nh, nm) = not_tuned key none_of in
          get-fewer topped key nm nh ∙ top_others key ns ∙ list_others key nc,
    )

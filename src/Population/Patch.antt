-- ===== src/Population/Patch.antt =====
-- main.go: patchNodeStatus and createTenantKubectlContext, as sequences of kubectl commands.
use scale_cluster_agent.Strings.Trim.{trim_space}
use scale_cluster_agent.Prelude.Dict.{Dict}
use scale_cluster_agent.Prelude.{
  ◌≡◌, ◌≢◌, ◌⊎◌, inl, inr, refl, sym, subst, Bool, true, false, ◌||◌, List, [], ◌∷◌, ◌++◌, Option,
  none, some, Text, text_eq, codes, ◌==◌, Bool-cases, Option-cases, if◌then◌else◌,
}

-- The status that is sent: only the sections that are not empty.
pub record NodeStatus : Type 0 where
  pub capacity : Option (Dict Text Text)
  pub allocatable : Option (Dict Text Text)

abbrev pub section_of : Dict Text Text → Option (Dict Text Text)
section_of [] = none
section_of (e ∷ d) = some (e ∷ d)

abbrev pub status_of : Dict Text Text → Dict Text Text → NodeStatus
status_of capacity allocatable = record {
  capacity = section_of capacity;
  allocatable = section_of allocatable;
}

-- kubectl patch, get and replace --raw on a node; the last has the resource version, if there is one.
pub data NodeCommand : Type 0 where
  patch : Text → NodeStatus → NodeCommand
  get_node : Text → NodeCommand
  replace_raw : Text → Option Text → NodeStatus → NodeCommand

-- What is met: whether patch and replace succeed, and what get prints: none if it fails, else what
-- Unmarshal makes of it, none if that fails, with metadata.resourceVersion, if it is a string.
pub record PatchAnswers : Type 0 where
  pub patch_ok : Bool
  pub got : Option (Option (Option Text))
  pub replace_ok : Bool

-- A resource version that is empty is not sent.
abbrev pub version_of : Option Text → Option Text
version_of none = none
version_of (some []) = none
version_of (some (c ∷ s)) = some (c ∷ s)

-- From the failure of the patch on
unfoldable pub replace_status : PatchAnswers → Text → NodeStatus → List NodeCommand × Bool
replace_status w node status = elim w.got [
  | none ↦ (get_node node ∷ [], false)
  | some out ↦ elim out [
    | none ↦ (get_node node ∷ [], false)
    | some version ↦
        (get_node node ∷ replace_raw node (version_of version) status ∷ [], w.replace_ok)
  ]
]

-- patchNodeStatus: the commands, and whether there is no error
unfoldable pub patch_node_status :
    PatchAnswers → Text → Dict Text Text → Dict Text Text → List NodeCommand × Bool
unfolding replace_status
patch_node_status w node [] [] = ([], true)
patch_node_status w node (e ∷ capacity) allocatable =
    let status = status_of (e ∷ capacity) allocatable in
    let (later, replaced) = replace_status w node status in
    if w.patch_ok then (patch node status ∷ [], true) else (patch node status ∷ later, replaced)
patch_node_status w node [] (e ∷ allocatable) =
    let status = status_of [] (e ∷ allocatable) in
    let (later, replaced) = replace_status w node status in
    if w.patch_ok then (patch node status ∷ [], true) else (patch node status ∷ later, replaced)

-- Where the values of kubectl config view are read: the JSON path of each
abbrev pub context_path : Text → Text → Text
context_path context key =
    codes "{.contexts[?(@.name=='" ++ (context ++ (codes "')].context." ++ (key ++ codes "}")))

abbrev pub first_path : Text → Text
first_path key = codes "{.contexts[0].context." ++ (key ++ codes "}")

-- get: the trimmed output, empty where kubectl fails
abbrev pub view : (Text → Option Text) → Text → Text
view run path = elim (run path) [ none ↦ [] | some out ↦ trim_space out ]

-- The name of the current context, with its default
unfoldable pub current_context : (Text → Option Text) → Text
unfolding trim_space text_eq
current_context run =
    let current = view run (codes "{.current-context}") in
    if current == [] then codes "default" else current

-- The cluster and the user: of the current context, else of the first one
unfoldable pub cluster_and_user : (Text → Option Text) → Text × Text
unfolding current_context
cluster_and_user run =
    let current = current_context run in
    let cluster = view run (context_path current (codes "cluster")) in
    let user = view run (context_path current (codes "user")) in
    let first_cluster = view run (first_path (codes "cluster")) in
    let first_user = view run (first_path (codes "user")) in
    if cluster == [] || user == [] then (first_cluster, first_user) else (cluster, user)

-- kubectl config set-context with a cluster, a user and a namespace
pub record Context : Type 0 where
  pub name : Text
  pub cluster : Text
  pub user : Text
  pub namespace : Text

-- createTenantKubectlContext on the kubeconfig of the main cluster: the context that is set, and whether
-- there is no error
unfoldable pub create_tenant_context :
    (Text → Option Text) → Bool → Bool → Text → Option Context × Bool
unfolding cluster_and_user text_eq
create_tenant_context run set_ok multi_tenant tenant =
    let (cluster, user) = cluster_and_user run in
    let context : Context = record {
      name = codes "kwok-" ++ tenant;
      cluster = cluster;
      user = user;
      namespace = codes "cluster-" ++ tenant;
    } in
    if multi_tenant
    then (if cluster == [] || user == [] then (none, false) else (some context, set_ok))
    else (none, true)

-- The status that the last of the commands sets.
abbrev pub last_status : List NodeCommand → Option NodeStatus
last_status [] = none
last_status (patch node status ∷ []) = some status
last_status (replace_raw node version status ∷ []) = some status
last_status (get_node node ∷ []) = none
last_status (c ∷ d ∷ cs) = last_status (d ∷ cs)

abbrev pub Sets : PatchAnswers → NodeStatus → List NodeCommand × Bool → Type 0
Sets w status (commands, succeeded) =
    (((w.patch_ok ≡ true)
        ⊎ ((version : Option Text) × (w.got ≡ some (some version)) × (w.replace_ok ≡ true)))
      × (succeeded ≡ true)
      × (last_status commands ≡ some status))
    ⊎ ((w.patch_ok ≡ false)
        × ((w.got ≡ none) ⊎ ((w.got ≡ some none) ⊎ (w.replace_ok ≡ false)))
        × (succeeded ≡ false))

replace_status-Sets :
    (w : PatchAnswers) (node : Text) (status : NodeStatus)
    → w.patch_ok ≡ false
    → Sets w status
        (patch node status ∷ (replace_status w node status).0, (replace_status w node status).1)
unfolding replace_status
replace_status-Sets w node status p = elim (Option-cases w.got) [
  | inl g ↦ rw (g, replace_status) (inr (p, inl refl, refl))
  | inr (none, g) ↦ rw (g, replace_status) (inr (p, inr (inl refl), refl))
  | inr (some version, g) ↦ elim (Bool-cases w.replace_ok) [
    | inl r ↦ rw (g, r, replace_status) (inl (inr (version, refl, refl), refl, refl))
    | inr r ↦ rw (g, r, replace_status) (inr (p, inr (inr refl), refl))
  ]
]

unpatched :
    (w : PatchAnswers) (once more : List NodeCommand) (replaced : Bool)
    → w.patch_ok ≡ false
    → ◌≡◌ {A = List NodeCommand × Bool}
        (if w.patch_ok then (once, true) else (more, replaced))
        (more, replaced)
unpatched w once more replaced p = rw p refl

patched :
    (w : PatchAnswers) (node : Text) (status : NodeStatus)
    → Sets w status (
        if w.patch_ok then (patch node status ∷ [], true) else (
          patch node status ∷ (replace_status w node status).0,
          (replace_status w node status).1,
        ))
patched w node status = elim (Bool-cases w.patch_ok) [
  | inl p ↦ rw p (inl (inl refl, refl, refl))
  | inr p ↦
      let later = (replace_status w node status).0 in
      let replaced = (replace_status w node status).1 in
      subst (Sets w status)
        (sym (unpatched w (patch node status ∷ []) (patch node status ∷ later) replaced p))
        (replace_status-Sets w node status p)
]

-- If there is something to set, patchNodeStatus succeeds exactly if the patch does, or the node can be
-- read and replaced; where it succeeds, the last command sets the sections that are not empty.
pub patch_node_status-Sets :
    (w : PatchAnswers) (node : Text) (capacity allocatable : Dict Text Text)
    → (capacity ≢ []) ⊎ (allocatable ≢ [])
    → Sets w (status_of capacity allocatable) (patch_node_status w node capacity allocatable)
unfolding patch_node_status
patch_node_status-Sets w node [] [] (inl ne) = absurd (ne refl)
patch_node_status-Sets w node [] [] (inr ne) = absurd (ne refl)
patch_node_status-Sets w node (e ∷ capacity) allocatable ne =
    patched w node (status_of (e ∷ capacity) allocatable)
patch_node_status-Sets w node [] (e ∷ allocatable) ne =
    patched w node (status_of [] (e ∷ allocatable))

-- ===== src/Population/Prepared.antt =====
-- The namespaces of the main cluster are there before the objects that they hold.
use scale_cluster_agent.Types.{ClusterInfo, NodeInfo, SecretInfo}
use scale_cluster_agent.Population.Calls.{
  Manifest, namespace, node, pod, service, config_map, secret, deployment, Call, ensure_namespace,
  apply, patch_status, default_if_empty, is_empty, patches, each,
}
use scale_cluster_agent.Strings.Trim.{trim_space}
use scale_cluster_agent.Population.Main.{
  namespace_or_default, namespaces, ns_set, namespace_calls, main_node_calls, main_pod,
  main_service, main_config_map, main_secret_calls, main_deployment, object_calls,
  apply_template_to_main_cluster,
}
use scale_cluster_agent.Prelude.{
  ◌≡◌, ◌≢◌, ◌⊎◌, inl, inr, refl, sym, ◌∙◌, Bool, true, false, ◌&&◌, ◌||◌, List, [], ◌∷◌, ◌++◌, map,
  Option, none, some, Text, text_eq, codes, ◌==◌, contains, append_assoc, All, Bool-cases,
  if◌then◌else◌, arith,
}

-- A namespace that is there from the start, or that was made
abbrev pub IsMade : List Text → Text → Type 0
IsMade made ns = (ns ≡ codes "default") ⊎ (contains made ns ≡ true)

abbrev pub IsPlaced : List Text → Manifest → Type 0
IsPlaced made (namespace n) = Unit
IsPlaced made (node n l) = Unit
IsPlaced made (pod n ns l t) = IsMade made ns
IsPlaced made (service n ns l t ps) = IsMade made ns
IsPlaced made (config_map n ns l) = IsMade made ns
IsPlaced made (secret n ns l t) = IsMade made ns
IsPlaced made (deployment n ns l r) = IsMade made ns

abbrev pub after : Manifest → List Text → List Text
after (namespace n) made = n ∷ made
after _ made = made

-- Each object that is applied stands in a namespace that is there by then.
abbrev pub IsPrepared : List Text → List Call → Type 0
IsPrepared made [] = Unit
IsPrepared made (ensure_namespace n ∷ cs) = IsPrepared made cs
IsPrepared made (patch_status n c a ∷ cs) = IsPrepared made cs
IsPrepared made (apply m ∷ cs) = IsPlaced made m × IsPrepared (after m made) cs

contains-ns_set : (ns : List Text) (n : Text) → contains (ns_set ns) n ≡ contains ns n
contains-ns_set [] n = refl
contains-ns_set (m ∷ ns) n = let ih = contains-ns_set ns n in ground arith

-- The namespaces that are there after the calls for them.
abbrev made_after : List Text → List Text → List Text
made_after [] made = made
made_after (n ∷ ns) made =
    made_after ns (if n == [] || n == codes "default" then made else n ∷ made)

namespace_calls-IsPrepared :
    (ns made : List Text) (cs : List Call)
    → IsPrepared (made_after ns made) cs
    → IsPrepared made (namespace_calls ns ++ cs)
unfolding namespace_calls
namespace_calls-IsPrepared [] made cs h = h
namespace_calls-IsPrepared (n ∷ ns) made cs h =
    elim (Bool-cases (n == [] || n == codes "default")) [
      | inl e ↦ rw (namespace_calls, e) (namespace_calls-IsPrepared ns made cs (rw e at h))
      | inr e ↦
          rw (namespace_calls, e) (tt, namespace_calls-IsPrepared ns (n ∷ made) cs (rw e at h))
    ]

contains-made_after :
    (ns made : List Text) (n : Text)
    → n ≢ []
    → n ≢ codes "default"
    → contains (made_after ns made) n ≡ (contains made n || contains ns n)
contains-made_after [] made n ne d = ground arith
contains-made_after (m ∷ ns) made n ne d = elim (Bool-cases (m == [] || m == codes "default")) [
  | inl e ↦ rw e (let ih = contains-made_after ns made n ne d in ground arith)
  | inr e ↦ rw e (let ih = contains-made_after ns (m ∷ made) n ne d in ground arith)
]

trim_space-nil : trim_space [] ≡ []
unfolding trim_space
trim_space-nil = refl

namespace_or_default-ne : (ns : Text) → namespace_or_default ns ≢ []
unfolding default_if_empty trim_space
namespace_or_default-ne ns h = elim (Bool-cases (trim_space ns == [])) [
  | inl e ↦ absurd (cc (rw (namespace_or_default, default_if_empty, e) at h))
  | inr e ↦
      let blank : ns ≡ [] = rw (namespace_or_default, default_if_empty, e) at h in
      let k : (trim_space [] == []) ≡ false = rw blank at e in
      let empty : trim_space [] ≡ [] = trim_space-nil in absurd (ground arith)
]

contains-map_empty : (ns : List Text) → contains (map namespace_or_default ns) [] ≡ false
contains-map_empty [] = refl
contains-map_empty (n ∷ ns) =
    let ih = contains-map_empty ns in let ne = namespace_or_default-ne n in ground arith

All-of_contains {ℓ} :
    (P : Text → Type ℓ) (xs : List Text) → ((n : Text) → contains xs n ≡ true → P n) → All P xs
All-of_contains P [] h = tt
All-of_contains P (x ∷ xs) h =
    (h x (ground arith), All-of_contains P xs (λ n k. h n (ground arith)))

-- All the namespaces of the objects are there after the first calls.
IsMade-namespaces :
    (ns : List Text)
    → All
        (IsMade (made_after (ns_set (map namespace_or_default ns)) []))
        (map namespace_or_default ns)
IsMade-namespaces ns =
    let all = map namespace_or_default ns in
    All-of_contains (IsMade (made_after (ns_set all) [])) all (λ n k.
      let never = contains-map_empty ns in
      let ne : n ≢ [] =
        λ (e : n ≡ []). absurd (let k' : contains all [] ≡ true = rw (sym e) k in cc (k', never)) in
      elim (Bool-cases (n == codes "default")) [
        | inl e ↦ inl (ground arith)
        | inr e ↦
            let d : n ≢ codes "default" = ground arith in
            inr (contains-made_after (ns_set all) [] n ne d ∙ (contains-ns_set all n ∙ k))
      ])

All-map_append {ℓ} :
    (P : Text → Type ℓ) (xs ys : List Text)
    → All P (map namespace_or_default (xs ++ ys))
    → All P (map namespace_or_default xs) × All P (map namespace_or_default ys)
All-map_append P [] ys h = (tt, h)
All-map_append P (x ∷ xs) ys (h, hs) = let (k, k') = All-map_append P xs ys hs in ((h, k), k')

module _ (made : List Text) (main : Text) where
  each-IsPrepared {ℓ} :
      {A : Type ℓ} (f : A → Manifest) (g : A → Text) (xs : List A) (cs : List Call)
      → ((x : A) → after (f x) made ≡ made)
      → ((x : A) → IsMade made (namespace_or_default (g x)) → IsPlaced made (f x))
      → All (IsMade made) (map namespace_or_default (map g xs))
      → IsPrepared made cs
      → IsPrepared made (each f xs ++ cs)
  each-IsPrepared f g [] cs same place h k = k
  each-IsPrepared f g (x ∷ xs) cs same place (h, hs) k =
      (place x h, rw (same x) (each-IsPrepared f g xs cs same place hs k))

  last_calls {ℓ} :
      {A : Type ℓ} (f : A → Manifest) (g : A → Text) (xs : List A)
      → ((x : A) → after (f x) made ≡ made)
      → ((x : A) → IsMade made (namespace_or_default (g x)) → IsPlaced made (f x))
      → All (IsMade made) (map namespace_or_default (map g xs))
      → IsPrepared made (each f xs)
  last_calls f g [] same place h = tt
  last_calls f g (x ∷ xs) same place (h, hs) =
      (place x h, rw (same x) (last_calls f g xs same place hs))

  main_secret_calls-IsPrepared :
      (ss : List SecretInfo) (cs : List Call)
      → All (IsMade made) (map namespace_or_default (map (λ s. s.namespace) ss))
      → IsPrepared made cs
      → IsPrepared made (main_secret_calls main ss ++ cs)
  unfolding main_secret_calls
  main_secret_calls-IsPrepared [] cs h k = k
  main_secret_calls-IsPrepared (s ∷ ss) cs (h, hs) k =
      let ih = main_secret_calls-IsPrepared ss cs hs k in
      elim (Bool-cases (
        default_if_empty s.type_name (codes "Opaque")
        == codes "kubernetes.io/service-account-token")) [
          | inl e ↦ rw (e, main_secret_calls) ih
          | inr e ↦ rw (e, main_secret_calls) (h, ih)
        ]

  patches-IsPrepared :
      (n : NodeInfo) (cs : List Call) → IsPrepared made cs → IsPrepared made (patches main n ++ cs)
  patches-IsPrepared n cs k = elim (Bool-cases (is_empty n.capacity && is_empty n.allocatable)) [
    | inl e ↦ rw (e, patches) k
    | inr e ↦ rw (e, patches) k
  ]

  main_node_calls-IsPrepared :
      (ns : List NodeInfo) (cs : List Call)
      → IsPrepared made cs
      → IsPrepared made (main_node_calls main ns ++ cs)
  main_node_calls-IsPrepared [] cs k = k
  main_node_calls-IsPrepared (n ∷ ns) cs k =
      let ih = main_node_calls-IsPrepared ns cs k in
      (
        tt,
        rw (append_assoc (patches main n) (main_node_calls main ns) cs) (patches-IsPrepared n _ ih),
      )

-- With the settings that put all resources into the main cluster, whatever the template: each object
-- that is applied there stands in the namespace "default", or in one that was applied before it.
pub apply_template_to_main_cluster-IsPrepared :
    (multi_tenant only_in_main : Bool) (main : Text) (t : Option ClusterInfo)
    → IsPrepared [] (apply_template_to_main_cluster multi_tenant only_in_main main t)
unfolding apply_template_to_main_cluster object_calls
apply_template_to_main_cluster-IsPrepared multi_tenant only_in_main main none = tt
apply_template_to_main_cluster-IsPrepared multi_tenant only_in_main main (some t) =
    let raw =
      map (λ p. p.namespace) t.pods
      ++ (map (λ s. s.namespace) t.services
          ++ (map (λ c. c.namespace) t.config_maps
              ++ (map (λ s. s.namespace) t.secrets ++ map (λ d. d.namespace) t.deployments))) in
    let made = made_after (ns_set (namespaces t)) [] in
    let P = IsMade made in
    let (pods, rest) = All-map_append P (map (λ p. p.namespace) t.pods) _ (IsMade-namespaces raw) in
    let (services, rest') = All-map_append P (map (λ s. s.namespace) t.services) _ rest in
    let (maps, rest'') = All-map_append P (map (λ c. c.namespace) t.config_maps) _ rest' in
    let (secrets, deployments) = All-map_append P (map (λ s. s.namespace) t.secrets) _ rest'' in
    let objects : IsPrepared made (object_calls main t) =
      main_node_calls-IsPrepared made main t.nodes _ (
        each-IsPrepared made main (main_pod main) (λ p. p.namespace) t.pods _ (λ p. refl) (λ p h. h)
          pods
          (each-IsPrepared made main (main_service main) (λ s. s.namespace) t.services _ (λ s. refl)
            (λ s h. h) services
            (each-IsPrepared made main (main_config_map main) (λ c. c.namespace) t.config_maps _
              (λ c. refl) (λ c h. h) maps
              (main_secret_calls-IsPrepared made main t.secrets _ secrets (
                last_calls made main (main_deployment main) (λ d. d.namespace) t.deployments
                  (λ d. refl) (λ d h. h) deployments))))) in
    elim (Bool-cases (multi_tenant && only_in_main)) [
      | inr e ↦ rw (apply_template_to_main_cluster, e) tt
      | inl e ↦
          rw (apply_template_to_main_cluster, e)
            (namespace_calls-IsPrepared (ns_set (namespaces t)) [] _ objects)
    ]

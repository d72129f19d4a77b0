-- ===== src/Import/Fetch/Laws.antt =====
-- What getImportYAML and applyImportYAMLToKWOKCluster of main.go come to.
use scale_cluster_agent.Types.{ClusterInfo}
use scale_cluster_agent.Import.Fetch.{
  import_url, FetchAnswers, Fetched, debug_file, save_response, get_import_yaml,
}
use scale_cluster_agent.Prelude.Dict.{Dict}
use scale_cluster_agent.Prelude.{
  ℕ, ◌≡◌, ◌⊎◌, inl, inr, refl, ap, sym, subst, ◌∙◌, Bool, true, false, [], ◌∷◌, Option, none, some,
  Text, text_eq, nat_eq, ◌==◌, Bool-cases, Option-cases, if◌then◌else◌, arith,
}

-- A response with status 200 whose body can be read.
abbrev pub is_ok : Option (ℕ × Option Text) → Bool
is_ok none = false
is_ok (some (status, none)) = false
is_ok (some (status, some body)) = status == 200

-- There is no token, no request, or no such response.
abbrev pub Fails : FetchAnswers → Text → Text → Type 0
Fails w rancher_url cluster_id =
    (w.token ≡ none)
    ⊎ ((w.request_ok ≡ false)
        ⊎ ((token : Text) × (w.token ≡ some token)
            × (is_ok (w.respond (import_url rancher_url token cluster_id)) ≡ false)))

-- There is no YAML and no file, for such a reason; or the YAML is the body of the response to the one
-- request, for the URL with the token, and the contents of the file, where there is a directory for it.
abbrev pub Fetches : FetchAnswers → Text → Text → Dict Text ClusterInfo → Fetched → Type 0
Fetches w rancher_url cluster_id clusters f =
    (Fails w rancher_url cluster_id × (f.yaml ≡ none) × (f.file ≡ none))
    ⊎ ((token : Text) × (body : Text) × (w.token ≡ some token)
        × (f.urls ≡ import_url rancher_url token cluster_id ∷ [])
        × (w.respond (import_url rancher_url token cluster_id) ≡ some (200, some body))
        × (f.yaml ≡ some body)
        × (f.file ≡ (if w.directory_ok then some (debug_file cluster_id clusters, body) else none)))

module _ (w : FetchAnswers) (rancher_url cluster_id token : Text) (clusters : Dict Text ClusterInfo)
    (t : w.token ≡ some token) where
  bad_response :
      (r : Option (ℕ × Option Text))
      → w.respond (import_url rancher_url token cluster_id) ≡ r
      → is_ok r ≡ false
      → Fails w rancher_url cluster_id
  bad_response r e bad = inr (inr (token, t, ap is_ok e ∙ bad))

  save_response-at :
      (r : Option (ℕ × Option Text))
      → w.respond (import_url rancher_url token cluster_id) ≡ r
      → Fetches w rancher_url cluster_id clusters
          (save_response w cluster_id clusters (import_url rancher_url token cluster_id ∷ []) r)
  unfolding save_response nat_eq
  save_response-at none e = inl (bad_response none e refl, refl, refl)
  save_response-at (some (status, none)) e =
      inl (bad_response (some (status, none)) e refl, refl, refl)
  save_response-at (some (status, some body)) e = elim (Bool-cases (status == 200)) [
    | inr b ↦ rw (b, save_response) (inl (bad_response (some (status, some body)) e b, refl, refl))
    | inl b ↦
        let same : status ≡ 200 = ground arith in
        rw (b, save_response)
          (inr (token, body, t, refl, e ∙ ap (λ (n : ℕ). some (n, some body)) same, refl, refl))
  ]

response_of :
    (w : FetchAnswers) (rancher_url cluster_id token : Text) (clusters : Dict Text ClusterInfo)
    → w.token ≡ some token
    → w.request_ok ≡ true
    → get_import_yaml w rancher_url cluster_id clusters
      ≡ save_response w cluster_id clusters
          (import_url rancher_url token cluster_id ∷ [])
          (w.respond (import_url rancher_url token cluster_id))
unfolding get_import_yaml
response_of w rancher_url cluster_id token clusters t r = rw (t, r, get_import_yaml) refl

-- getImportYAML returns the body of a response with status 200 to a request for the URL with the token,
-- and writes it to the debug file named for the cluster, if its directory is there; without a token, a
-- request or such a response it returns an error and writes no file.
pub get_import_yaml-Fetches :
    (w : FetchAnswers) (rancher_url cluster_id : Text) (clusters : Dict Text ClusterInfo)
    → Fetches w rancher_url cluster_id clusters (get_import_yaml w rancher_url cluster_id clusters)
unfolding get_import_yaml
get_import_yaml-Fetches w rancher_url cluster_id clusters = elim (Option-cases w.token) [
  | inl t ↦ rw (t, get_import_yaml) (inl (inl refl, refl, refl))
  | inr (token, t) ↦ elim (Bool-cases w.request_ok) [
    | inr r ↦ rw (t, r, get_import_yaml) (inl (inr (inl refl), refl, refl))
    | inl r ↦
        subst (Fetches w rancher_url cluster_id clusters)
          (sym (response_of w rancher_url cluster_id token clusters t r))
          (save_response-at w rancher_url cluster_id token clusters t _ refl)
  ]
]

-- ===== src/Credentials/Api/Laws.antt =====
-- Whose token getTokenFromAPI of main.go returns.
use scale_cluster_agent.Types.{KwokCluster}
use scale_cluster_agent.Tenant.{tenant_namespace, tenant_sa_name}
use scale_cluster_agent.Strings.Trim.{trim_space}
use scale_cluster_agent.Credentials.Api.{
  KubeCluster, fallback_ca, ca_of, ListedSecret, ApiAnswers, present, text_of, is_token_of,
  secret_token, token_among, requested_token, token_for, account_at, first_ca, with_account,
  token_at, api_cluster, get_token_from_api, TokenError,
}
use scale_cluster_agent.Prelude.Dict.{Dict, lookup}
use scale_cluster_agent.Prelude.Results.{Result, ok, err}
use scale_cluster_agent.Prelude.{
  ◌≡◌, ◌≢◌, ◌⊎◌, inl, inr, refl, ap, ◌∙◌, Bool, true, false, List, [], ◌∷◌, ◌++◌, Option, none,
  some, Text, text_eq, codes, Bool-cases, Option-cases, if◌then◌else◌, ◌==◌, arith,
}

-- A secret of the type of the tokens of service accounts, annotated with the name of this account.
abbrev pub IsSecretOf : Text → ListedSecret → Type 0
IsSecretOf account s =
    (s.type_name ≡ codes "kubernetes.io/service-account-token")
    × (text_of (codes "kubernetes.io/service-account.name") s.annotations ≡ account)

-- The token was made by TokenRequest for the account, and trimmed; or TokenRequest made none, and it is
-- the decoded token of a secret that is a token of the account, the first such in the namespace's list.
abbrev pub IsTokenOf : ApiAnswers → Text → Text → Text → Type 0
IsTokenOf w namespace account token =
    (token ≢ [])
    × (((out : Text) × (w.create_token namespace account ≡ some out) × (trim_space out ≡ token))
        ⊎ ((requested_token w namespace account ≡ none)
            × ((out : Text) × (before after : List ListedSecret) × (s : ListedSecret) × (w.secrets
                    namespace
                  ≡ some out)
                × (w.parse_secrets out ≡ some (before ++ (s ∷ after)))
                × IsSecretOf account s
                × (secret_token w s ≡ some token)
                × (token_among w account before ≡ none))))

present-some : (o : Option Text) (t : Text) → present o ≡ some t → (o ≡ some t) × (t ≢ [])
present-some none t e = absurd (cc e)
present-some (some []) t e = absurd (cc e)
present-some (some (c ∷ s)) t e = (e, ground arith)

secret_token-ne-nil :
    (w : ApiAnswers) (s : ListedSecret) (t : Text) → secret_token w s ≡ some t → t ≢ []
unfolding secret_token
secret_token-ne-nil w s t e = elim (Option-cases (present (lookup (codes "token") s.contents))) [
  | inl n ↦ absurd (ground (arith, n, e))
  | inr (u, n) ↦ (present-some (w.decode u) t (ground (arith, n, e))).1
]

requested :
    (w : ApiAnswers) (namespace account token : Text)
    → requested_token w namespace account ≡ some token
    → IsTokenOf w namespace account token
unfolding requested_token
requested w namespace account token e = elim (Option-cases (w.create_token namespace account)) [
  | inl c ↦ absurd (ground (arith, c, e))
  | inr (out, c) ↦
      let (trimmed, ne) = present-some (some (trim_space out)) token (ground (arith, c, e)) in
      (ne, inl (out, c, cc trimmed))
]

is_token_of-true :
    (account : Text) (s : ListedSecret) → is_token_of account s ≡ true → IsSecretOf account s
unfolding is_token_of
is_token_of-true account s h = (ground (arith, h), ground (arith, h))

token_among-found :
    (w : ApiAnswers) (account : Text) (ss : List ListedSecret) (t : Text)
    → token_among w account ss ≡ some t
    → (before after : List ListedSecret) × (s : ListedSecret) × (ss ≡ before ++ (s ∷ after))
      × IsSecretOf account s
      × (secret_token w s ≡ some t)
      × (token_among w account before ≡ none)
unfolding token_among
token_among-found w account [] t e = absurd (cc e)
token_among-found w account (s ∷ ss) t e = elim (Bool-cases (is_token_of account s)) [
  | inr other ↦
      let (before, after, s', same, own, has, none_before) =
        token_among-found w account ss t (ground (arith, other, e)) in
      (
        s ∷ before,
        after,
        s',
        ap (λ (xs : List ListedSecret). s ∷ xs) same,
        own,
        has,
        rw (other, token_among) none_before,
      )
  | inl own ↦ elim (Option-cases (secret_token w s)) [
    | inr (u, has) ↦
        let same : u ≡ t = ground (arith, own, has, e) in
        (
          [],
          ss,
          s,
          refl,
          is_token_of-true account s own,
          has ∙ ap (λ (x : Text). some x) same,
          refl,
        )
    | inl nothing ↦
        let (before, after, s', same, own', has, none_before) =
          token_among-found w account ss t (ground (arith, own, nothing, e)) in
        (
          s ∷ before,
          after,
          s',
          ap (λ (xs : List ListedSecret). s ∷ xs) same,
          own',
          has,
          rw (own, nothing, token_among) none_before,
        )
  ]
]

token_for-IsTokenOf :
    (w : ApiAnswers) (namespace account token : Text)
    → token_for w namespace account ≡ ok token
    → IsTokenOf w namespace account token
unfolding token_for
token_for-IsTokenOf w namespace account token e =
    elim (Option-cases (requested_token w namespace account)) [
      | inr (t, r) ↦
          let same : t ≡ token = ground (arith, r, e) in
          requested w namespace account token (r ∙ ap (λ (x : Text). some x) same)
      | inl r ↦ elim (Option-cases (w.secrets namespace)) [
        | inl s ↦ absurd (ground (arith, r, s, e))
        | inr (out, s) ↦ elim (Option-cases (w.parse_secrets out)) [
          | inl p ↦ absurd (ground (arith, r, s, p, e))
          | inr (ss, p) ↦ elim (Option-cases (token_among w account ss)) [
            | inl t ↦ absurd (ground (arith, r, s, p, t, e))
            | inr (t, f) ↦
                let same : t ≡ token = ground (arith, r, s, p, f, e) in
                let (before, after, found, list, own, has, none_before) =
                  token_among-found w account ss token (f ∙ ap (λ (x : Text). some x) same) in
                (
                  secret_token-ne-nil w found token has,
                  inr (
                    r,
                    (
                      out,
                      before,
                      after,
                      found,
                      s,
                      p ∙ ap (λ (xs : List ListedSecret). some xs) list,
                      own,
                      has,
                      none_before,
                    ),
                  ),
                )
          ]
        ]
      ]
    ]

-- Where the certificate comes from: the decoded data of the kubeconfig's first cluster; without data, the
-- file that it names; with neither, and not empty, the decoded data of the raw view, or ca.crt of
-- the KWOK cluster's own directory.
abbrev pub IsCertificateOf : ApiAnswers → Text → Text → Text → Type 0
IsCertificateOf w name kubeconfig ca =
    (c : KubeCluster) × (cs : List KubeCluster) × (w.parse_kubeconfig kubeconfig ≡ some (c ∷ cs))
    × (((c.ca_data ≢ []) × (w.decode c.ca_data ≡ some ca))
        ⊎ ((c.ca_data ≡ []) × (c.ca_file ≢ []) × (w.read_file c.ca_file ≡ some ca))
        ⊎ ((c.ca_data ≡ [])
            × (c.ca_file ≡ [])
            × (ca ≢ [])
            × (((out : Text) × (w.raw_ca ≡ some out) × (w.decode (trim_space out) ≡ some ca))
                ⊎ (w.pki_ca name ≡ some ca))))

fallback_ca-some :
    (w : ApiAnswers) (name ca : Text)
    → fallback_ca w name ≡ some ca
    → (ca ≢ [])
      × (((out : Text) × (w.raw_ca ≡ some out) × (w.decode (trim_space out) ≡ some ca))
          ⊎ (w.pki_ca name ≡ some ca))
unfolding fallback_ca
fallback_ca-some w name ca e = elim (Option-cases w.raw_ca) [
  | inl r ↦ from_pki (ground (arith, r, e))
  | inr (out, r) ↦ elim (Option-cases (present (some (trim_space out)))) [
    | inl t ↦ from_pki (ground (arith, r, t, e))
    | inr (b64, t) ↦
        let (trimmed, full) = present-some (some (trim_space out)) b64 t in
        let text : trim_space out ≡ b64 = cc trimmed in
        elim (Option-cases (present (w.decode b64))) [
          | inl d ↦ from_pki (ground (arith, r, t, d, e))
          | inr (found, d) ↦
              let same : found ≡ ca = ground (arith, r, t, d, e) in
              let (from, ne) = present-some (w.decode b64) found d in
              (rw (← same) ne, inl (out, r, rw text (from ∙ ap (λ (x : Text). some x) same)))
        ]
  ]
]
  where
    from_pki :
        present (w.pki_ca name) ≡ some ca
        → (ca ≢ [])
          × (((out : Text) × (w.raw_ca ≡ some out) × (w.decode (trim_space out) ≡ some ca))
              ⊎ (w.pki_ca name ≡ some ca))
    from_pki h = let (from, ne) = present-some (w.pki_ca name) ca h in (ne, inr from)

first_ca-IsCertificateOf :
    (w : ApiAnswers) (name kubeconfig ca : Text)
    → first_ca w name kubeconfig ≡ ok ca
    → IsCertificateOf w name kubeconfig ca
unfolding first_ca ca_of
first_ca-IsCertificateOf w name kubeconfig ca e =
    elim (Option-cases (w.parse_kubeconfig kubeconfig)) [
      | inl p ↦ absurd (ground (arith, p, e))
      | inr ([], p) ↦ absurd (ground (arith, p, e))
      | inr (c ∷ cs, p) ↦ elim (Bool-cases (c.ca_data == [])) [
        | inr d ↦ (c, cs, p, inl (ground (arith, d), ground (arith, p, d, e)))
        | inl d ↦ elim (Bool-cases (c.ca_file == [])) [
          | inr f ↦ (
            c,
            cs,
            p,
            inr (inl (ground (arith, d), ground (arith, f), ground (arith, p, d, f, e))),
          )
          | inl f ↦ elim (Option-cases (fallback_ca w name)) [
            | inl b ↦ absurd (ground (arith, p, d, f, b, e))
            | inr (x, b) ↦
                let same : x ≡ ca = ground (arith, p, d, f, b, e) in
                let (ne, from) = fallback_ca-some w name ca (b ∙ ap (λ (y : Text). some y) same) in
                (c, cs, p, inr (inr (ground (arith, d), ground (arith, f), ne, from)))
          ]
        ]
      ]
    ]

-- The KWOK cluster is one that is found, the certificate is the one for its kubeconfig, and the account is
-- there.
abbrev pub IsAt : ApiAnswers → Option Text → Text → Text → Text → Type 0
IsAt w found namespace account ca =
    (name : Text) × (kubeconfig : Text) × (found ≡ some name)
    × (w.kubeconfig name ≡ some kubeconfig)
    × IsCertificateOf w name kubeconfig ca
    × (w.has_account namespace account ≡ true)

Result-cases :
    {A : Type 0} (r : Result TokenError A)
    → ((e : TokenError) × (r ≡ err e)) ⊎ ((a : A) × (r ≡ ok a))
Result-cases (err e) = inl (e, refl)
Result-cases (ok a) = inr (a, refl)

with_account-ok :
    (w : ApiAnswers) (ca namespace account ca' token : Text)
    → with_account w ca namespace account ≡ ok (ca', token)
    → (w.has_account namespace account ≡ true)
      × (token_for w namespace account ≡ ok token)
      × (ca ≡ ca')
unfolding with_account
with_account-ok w ca namespace account ca' token e =
    elim (Bool-cases (w.has_account namespace account)) [
      | inr h ↦ absurd (ground (arith, h, e))
      | inl h ↦ elim (Result-cases (token_for w namespace account)) [
        | inl (x, t) ↦ absurd (ground (arith, h, t, e))
        | inr (x, t) ↦ (h, ground (arith, h, t, e), ground (arith, h, t, e))
      ]
    ]

token_at-ok :
    (w : ApiAnswers) (multi_tenant : Bool) (cluster_id name : Text) (found : Text × Text)
    → token_at w multi_tenant cluster_id name ≡ ok found
    → (kubeconfig : Text) × (ca : Text) × (w.kubeconfig name ≡ some kubeconfig)
      × (first_ca w name kubeconfig ≡ ok ca)
      × (with_account w ca
            (account_at multi_tenant cluster_id).0
            (account_at multi_tenant cluster_id).1
          ≡ ok found)
unfolding token_at
token_at-ok w multi_tenant cluster_id name found e = elim (Option-cases (w.kubeconfig name)) [
  | inl k ↦ absurd (ground (arith, k, e))
  | inr (text, k) ↦ elim (Bool-cases w.temp_ok) [
    | inr t ↦ absurd (ground (arith, k, t, e))
    | inl t ↦ elim (Result-cases (first_ca w name text)) [
      | inl (x, c) ↦ absurd (ground (arith, k, t, c, e))
      | inr (ca, c) ↦ (text, ca, k, c, ground (arith, k, t, c, e))
    ]
  ]
]

-- With multi-tenancy the tenant's own namespace and account, else the ones that all clusters have.
abbrev pub own_namespace : Bool → Text → Text
own_namespace multi_tenant cluster_id =
    if multi_tenant then tenant_namespace cluster_id else codes "cattle-system"

abbrev pub own_account : Bool → Text → Text
own_account multi_tenant cluster_id =
    if multi_tenant then tenant_sa_name cluster_id else codes "cattle"

account_at-own :
    (multi_tenant : Bool) (cluster_id : Text)
    → ((account_at multi_tenant cluster_id).0 ≡ own_namespace multi_tenant cluster_id)
      × ((account_at multi_tenant cluster_id).1 ≡ own_account multi_tenant cluster_id)
unfolding account_at
account_at-own true cluster_id = (refl, refl)
account_at-own false cluster_id = (refl, refl)

-- If getTokenFromAPI returns a certificate and a token: a KWOK cluster was found and its kubeconfig read; the
-- certificate is the decoded data of the kubeconfig's first cluster, or, without data, of the file that
-- it names, or, with neither, what is not empty and comes from the raw view or from ca.crt of the KWOK
-- cluster. The account is there, with multi-tenancy the tenant's own in the tenant's own namespace, and
-- the token is not empty and is one of this account: from TokenRequest, or, if that gives none, from the
-- first secret in the list of its namespace that is a token of the account and has one.
pub get_token_from_api-IsTokenOf :
    (w : ApiAnswers) (multi_tenant : Bool) (main_name cluster_id : Text)
    (clusters : Dict Text KwokCluster) (ca token : Text)
    → get_token_from_api w multi_tenant main_name cluster_id clusters ≡ ok (ca, token)
    → IsAt w
        (api_cluster multi_tenant main_name cluster_id clusters)
        (own_namespace multi_tenant cluster_id)
        (own_account multi_tenant cluster_id)
        ca
      × IsTokenOf w
          (own_namespace multi_tenant cluster_id)
          (own_account multi_tenant cluster_id)
          token
unfolding get_token_from_api
get_token_from_api-IsTokenOf w multi_tenant main_name cluster_id clusters ca token e =
    let (namespace, account) = account_at multi_tenant cluster_id in
    let (in_namespace, of_account) = account_at-own multi_tenant cluster_id in
    elim (Option-cases (api_cluster multi_tenant main_name cluster_id clusters)) [
      | inl k ↦ absurd (ground (arith, k, e))
      | inr (name, k) ↦
          let (text, ca', kubeconfig, c, f) =
            token_at-ok w multi_tenant cluster_id name (ca, token) (ground (arith, k, e)) in
          let (has, t, same) = with_account-ok w ca' namespace account ca token f in
          rw (← in_namespace, ← of_account)
            (
              (
                name,
                text,
                k,
                kubeconfig,
                first_ca-IsCertificateOf w name text ca (c ∙ ap (λ (x : Text). ok x) same),
                has,
              ),
              token_for-IsTokenOf w namespace account token t,
            )
    ]

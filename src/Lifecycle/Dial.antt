-- ===== src/Lifecycle/Dial.antt =====
-- Where the second tunnel leads.
use scale_cluster_agent.Types.{KwokCluster}
use scale_cluster_agent.Strings.{has_prefix}
use scale_cluster_agent.Strings.Trim.{itoa_int}
use scale_cluster_agent.Lifecycle.Params.{
  Codec, Params, ParamsError, get_kwok_cluster_by_id, api_endpoint, get_cluster_params,
}
use scale_cluster_agent.Lifecycle.Tunnel.{allow_tunnel, local_dialer}
use scale_cluster_agent.Prelude.Dict.{Dict}
use scale_cluster_agent.Prelude.Results.{Result, ok, err}
use scale_cluster_agent.Prelude.{
  ◌≡◌, ◌⊎◌, inl, inr, refl, sym, ap, true, false, List, [], ◌++◌, Option, none, some, Text, text_eq,
  codes, ◌==◌, Bool-cases, Option-cases, arith,
}

Result-cases {ℓ} :
    {E A : Type ℓ} (x : Result E A) → ((e : E) × (x ≡ err e)) ⊎ ((a : A) × (x ≡ ok a))
Result-cases (ok a) = inr (a, refl)
Result-cases (err e) = inl (e, refl)

abbrev address_of : Result ParamsError Params → Text
address_of (ok p) = p.address
address_of (err e) = []

abbrev pub loopback : Text
loopback = codes "127.0.0.1:"

-- An allowed address is dialled as it is, or else on the loopback interface.
pub local_dialer-cases :
    (local_api proto address : Text)
    → allow_tunnel local_api proto address ≡ true
    → (local_dialer proto address ≡ local_api)
      ⊎ (has_prefix (local_dialer proto address) loopback ≡ true)
unfolding allow_tunnel local_dialer has_prefix
local_dialer-cases local_api proto address h = elim (Bool-cases (proto == codes "tcp")) [
  | inr e ↦ absurd (cc (rw (allow_tunnel, e) at h))
  | inl e ↦
      let h' = rw (allow_tunnel, e) at h in
      elim (Bool-cases (address == codes "not-used:80")) [
        | inl f ↦ rw (local_dialer, e, f) (inr refl)
        | inr f ↦ rw (local_dialer, e, f) (ground arith)
      ]
]

api_endpoint-IsLoopback :
    (k : Codec) (kubeconfig : Option (Option (List Text))) (cluster_id : Text)
    (clusters : Dict Text KwokCluster) (address : Text)
    → api_endpoint k false kubeconfig cluster_id clusters ≡ ok address
    → has_prefix address loopback ≡ true
unfolding api_endpoint has_prefix
api_endpoint-IsLoopback k kubeconfig cluster_id clusters address h =
    elim (Option-cases (get_kwok_cluster_by_id cluster_id clusters)) [
      | inl e ↦ absurd (cc (rw (api_endpoint, e) at h))
      | inr (c, e) ↦
          let h' : Path (Result ParamsError Text) (ok (loopback ++ itoa_int c.port)) (ok address) =
            rw (api_endpoint, e) at h in
          let same : loopback ++ itoa_int c.port ≡ address = cc h' in rw (sym same) refl
    ]

-- Without multi-tenancy: whatever address Rancher asks for through the second tunnel, if it is allowed
-- then what is dialled is on the loopback interface.
pub get_cluster_params-local_dialer :
    (k : Codec) (credentials : Option (Text × Text)) (kubeconfig : Option (Option (List Text)))
    (cluster_id : Text) (clusters : Dict Text KwokCluster) (p : Params) (proto address : Text)
    → get_cluster_params k false credentials kubeconfig cluster_id clusters ≡ ok p
    → allow_tunnel p.address proto address ≡ true
    → has_prefix (local_dialer proto address) loopback ≡ true
unfolding get_cluster_params api_endpoint
get_cluster_params-local_dialer k none kubeconfig cluster_id clusters p proto address h allowed =
    absurd (cc h)
get_cluster_params-local_dialer k (some (ca, t)) kubeconfig cluster_id clusters p proto address h
      allowed =
    elim (Result-cases (api_endpoint k false kubeconfig cluster_id clusters)) [
      | inl (e, f) ↦ absurd (cc (rw (get_cluster_params, f) at h))
      | inr (a, f) ↦
          let same : a ≡ p.address = ap address_of (rw (get_cluster_params, f) at h) in
          let local = api_endpoint-IsLoopback k kubeconfig cluster_id clusters a f in
          elim (local_dialer-cases p.address proto address allowed) [
            | inl dialled ↦ rw (dialled, sym same) local
            | inr dialled ↦ dialled
          ]
    ]

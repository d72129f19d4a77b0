-- ===== src/Kwok/Tuning/Flags.antt =====
-- The flags of the API server: kwok_integration.go.
use scale_cluster_agent.Strings.Trim.{index}
use scale_cluster_agent.Prelude.{
  zero, suc, ◌≡◌, refl, ap, ◌∙◌, append-nil, ==_self, inl, inr, Bool, true, false, not, List, [],
  ◌∷◌, ◌++◌, map, none, some, Text, text_eq, codes, take, contains, Bool-cases, All, if◌then◌else◌,
  arith,
}

-- prefix: the flag without its value
unfoldable pub prefix : Text → Text
unfolding index
prefix s = elim (index s b'=') [
  | none ↦ s
  | some i ↦ elim i as (λ _. Text) [ zero ↦ s | suc j ↦ take (suc j) s ]
]

-- Whether a flag is set by one of the others
unfoldable pub is_set_by : List Text → Text → Bool
unfolding prefix text_eq
is_set_by flags s = contains (map prefix flags) (prefix s)

-- The flags that the test holds of
unfoldable pub keep : (Text → Bool) → List Text → List Text
keep test [] = []
keep test (s ∷ ss) = let rest = keep test ss in if test s then s ∷ rest else rest

-- ensureFlags
unfoldable pub ensure_flags : List Text → List Text → List Text
unfolding keep is_set_by
ensure_flags existing desired = keep (λ s. not (is_set_by desired s)) existing ++ desired

-- apiServerDesired
unfoldable pub desired : List Text
desired =
    codes "--profiling=false"
    ∷ codes "--watch-cache=false"
    ∷ codes "--event-ttl=5m"
    ∷ codes "--max-requests-inflight=100"
    ∷ codes "--max-mutating-requests-inflight=25"
    ∷ codes "--default-watch-cache-size=0"
    ∷ codes "--min-request-timeout=1800"
    ∷ codes "--enable-aggregator-routing=false"
    ∷ codes "--request-timeout=1m"
    ∷ codes
        "--runtime-config=api/all=false,core/v1=true,rbac.authorization.k8s.io/v1=true,apiextensions.k8s.io/v1=true,coordination.k8s.io/v1=true,authentication.k8s.io/v1=true,authorization.k8s.io/v1=true"
    ∷ codes "--enable-admission-plugins=NamespaceLifecycle"
    ∷ codes
        "--disable-admission-plugins=MutatingAdmissionWebhook,ValidatingAdmissionWebhook,NodeRestriction,ServiceAccount,ResourceQuota,LimitRanger,DefaultStorageClass,DefaultTolerationSeconds,PodSecurity,EventRateLimit,StorageObjectInUseProtection,PodNodeSelector,PodTolerationRestriction,PersistentVolumeLabel"
    ∷ []

keep-append :
    (test : Text → Bool) (xs ys : List Text) → keep test (xs ++ ys) ≡ keep test xs ++ keep test ys
unfolding keep
keep-append test [] ys = refl
keep-append test (x ∷ xs) ys = ground (arith, keep-append test xs ys)

-- What a list keeps by a test that holds of all of it, of none, and twice
keep_whole : (test : Text → Bool) (xs : List Text) → All (λ s. test s ≡ true) xs → keep test xs ≡ xs
unfolding keep
keep_whole test [] h = refl
keep_whole test (x ∷ xs) h = ground (arith, keep_whole test xs h.1)

keep_nothing :
    (test : Text → Bool) (xs : List Text) → All (λ s. test s ≡ false) xs → keep test xs ≡ []
unfolding keep
keep_nothing test [] h = refl
keep_nothing test (x ∷ xs) h = ground (arith, keep_nothing test xs h.1)

keep-IsKept : (test : Text → Bool) (xs : List Text) → All (λ s. test s ≡ true) (keep test xs)
unfolding keep
keep-IsKept test [] = tt
keep-IsKept test (x ∷ xs) = elim (Bool-cases (test x)) [
  | inl e ↦ rw e (e, keep-IsKept test xs)
  | inr e ↦ rw e (keep-IsKept test xs)
]

All-mapped : (P Q : Text → Type 0) (xs : List Text) → ((s : Text) → P s → Q s) → All P xs → All Q xs
All-mapped P Q [] f h = tt
All-mapped P Q (x ∷ xs) f h = (f x h.0, All-mapped P Q xs f h.1)

-- Each flag of a list is set by the list.
set_by_self : (flags : List Text) → All (λ s. is_set_by flags s ≡ true) flags
unfolding is_set_by text_eq
set_by_self [] = tt
set_by_self (f ∷ fs) = (
  rw (==_self (prefix f)) refl,
  All-mapped (λ s. is_set_by fs s ≡ true) (λ s. is_set_by (f ∷ fs) s ≡ true) fs
      (λ s h. ground (arith, h)) (set_by_self fs),
)

module _ (existing flags : List Text) where
  abbrev set_here : Text → Bool
  set_here s = is_set_by flags s

  abbrev other : Text → Bool
  other s = not (is_set_by flags s)

  other-flags : keep other flags ≡ []
  other-flags = keep_nothing other flags (
      All-mapped (λ s. set_here s ≡ true) (λ s. other s ≡ false) flags (λ s h. rw h refl)
        (set_by_self flags))

  -- The flags with the prefixes of the desired ones are the desired ones, in their order.
  pub ensure_flags-set : keep set_here (ensure_flags existing flags) ≡ flags
  unfolding ensure_flags
  ensure_flags-set =
      let kept = keep other existing in
      let none_set : keep set_here kept ≡ [] = keep_nothing set_here kept (
        All-mapped (λ s. other s ≡ true) (λ s. set_here s ≡ false) kept (λ s h. ground (arith, h))
          (keep-IsKept other existing)) in
      keep-append set_here kept flags ∙ rw none_set (keep_whole set_here flags (set_by_self flags))

  -- The others are those that were there, in their order.
  pub ensure_flags-other : keep other (ensure_flags existing flags) ≡ keep other existing
  unfolding ensure_flags
  ensure_flags-other =
      let kept = keep other existing in
      keep-append other kept flags
      ∙ rw (other-flags, append-nil) (keep_whole other kept (keep-IsKept other existing))

  -- Once more changes nothing.
  pub ensure_flags-twice :
      ensure_flags (ensure_flags existing flags) flags ≡ ensure_flags existing flags
  unfolding ensure_flags
  ensure_flags-twice = ap (λ (ss : List Text). ss ++ flags) ensure_flags-other

-- The flags alone are kept as they are.
pub ensure_flags-own : (flags : List Text) → ensure_flags flags flags ≡ flags
unfolding ensure_flags
ensure_flags-own flags = rw (other-flags flags flags) refl

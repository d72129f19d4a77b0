-- ===== src/Tenant.antt =====
-- main.go: the names of a tenant's namespace and service account, which are made of the cluster's ID.
use scale_cluster_agent.Strings.{to_lower, lower_byte}
use scale_cluster_agent.Prelude.{
  ℕ, zero, suc, ◌-◌, ◌≤◌, ◌≡◌, ◌≢◌, Lacks, Bool, true, ◌&&◌, ◌||◌, [], ◌∷◌, ◌++◌, Text, codes, leb,
  length, drop, length-append, All, All-append, Bool-cases, if_both, inl, inr, if◌then◌else◌, refl,
  arith,
}

-- A letter or a digit of ASCII. A rune that is none is dropped, and so is each byte of it.
abbrev is_between : ℕ → ℕ → ℕ → Bool
is_between low high c = leb low c && leb c high

unfoldable pub is_alphanumeric : ℕ → Bool
is_alphanumeric c = is_between b'a' b'z' c || is_between b'A' b'Z' c || is_between b'0' b'9' c

unfoldable pub alphanumerics : Text → Text
unfolding is_alphanumeric
alphanumerics [] = []
alphanumerics (c ∷ s) = let rest = alphanumerics s in if is_alphanumeric c then c ∷ rest else rest

-- shortSuffix
unfoldable pub short_suffix : Text → Text
unfolding alphanumerics
short_suffix cluster_id =
    let str = alphanumerics cluster_id in
    if leb 11 (length str) then to_lower (drop (length str - 10) str) else to_lower str

-- tenantNamespace
unfoldable pub tenant_namespace : Text → Text
unfolding short_suffix
tenant_namespace cluster_id = codes "cattle-system-" ++ short_suffix cluster_id

-- tenantSAName
unfoldable pub tenant_sa_name : Text → Text
unfolding short_suffix
tenant_sa_name cluster_id = codes "cattle-" ++ short_suffix cluster_id

-- What a DNS label may hold: lower-case letters, digits and "-".
abbrev pub is_label_byte : ℕ → Bool
is_label_byte c = is_between b'a' b'z' c || is_between b'0' b'9' c || is_between b'-' b'-' c

abbrev pub IsLabelText : Text → Type 0
IsLabelText = All (λ c. is_label_byte c ≡ true)

abbrev IsAlphanumeric : Text → Type 0
IsAlphanumeric = All (λ c. is_alphanumeric c ≡ true)

alphanumerics-IsAlphanumeric : (s : Text) → IsAlphanumeric (alphanumerics s)
unfolding alphanumerics
alphanumerics-IsAlphanumeric [] = tt
alphanumerics-IsAlphanumeric (c ∷ s) = elim (Bool-cases (is_alphanumeric c)) [
  | inl e ↦ rw e (e, alphanumerics-IsAlphanumeric s)
  | inr e ↦ rw e (alphanumerics-IsAlphanumeric s)
]

IsAlphanumeric-drop : (n : ℕ) (s : Text) → IsAlphanumeric s → IsAlphanumeric (drop n s)
IsAlphanumeric-drop zero s h = h
IsAlphanumeric-drop (suc n) [] h = h
IsAlphanumeric-drop (suc n) (c ∷ s) h = IsAlphanumeric-drop n s h.1

lower-label : (c : ℕ) → is_alphanumeric c ≡ true → is_label_byte (lower_byte c) ≡ true
unfolding is_alphanumeric lower_byte
lower-label c h = ground arith

to_lower-IsLabelText : (s : Text) → IsAlphanumeric s → IsLabelText (to_lower s)
unfolding to_lower
to_lower-IsLabelText [] h = tt
to_lower-IsLabelText (c ∷ s) h = (lower-label c h.0, to_lower-IsLabelText s h.1)

length-to_lower : (s : Text) → length (to_lower s) ≡ length s
unfolding to_lower
length-to_lower [] = refl
length-to_lower (c ∷ s) = omega (arith, length-to_lower s)

length-drop : (n : ℕ) (s : Text) → length (drop n s) ≡ length s - n
length-drop zero s = omega arith
length-drop (suc n) [] = omega arith
length-drop (suc n) (c ∷ s) = omega (arith, length-drop n s)

short_suffix-IsLabelText : (id : Text) → IsLabelText (short_suffix id)
unfolding short_suffix
short_suffix-IsLabelText id =
    let str = alphanumerics id in
    let h = alphanumerics-IsAlphanumeric id in
    if_both IsLabelText (leb 11 (length str))
      (to_lower-IsLabelText (drop (length str - 10) str)
        (IsAlphanumeric-drop (length str - 10) str h))
      (to_lower-IsLabelText str h)

-- A suffix has no "-".
lower-plain : (c : ℕ) → is_alphanumeric c ≡ true → lower_byte c ≢ b'-'
unfolding is_alphanumeric lower_byte
lower-plain c h = ground arith

to_lower-Lacks : (s : Text) → IsAlphanumeric s → Lacks b'-' (to_lower s)
unfolding to_lower
to_lower-Lacks [] h = tt
to_lower-Lacks (c ∷ s) h = (lower-plain c h.0, to_lower-Lacks s h.1)

pub short_suffix-Lacks : (id : Text) → Lacks b'-' (short_suffix id)
unfolding short_suffix
short_suffix-Lacks id =
    let str = alphanumerics id in
    let h = alphanumerics-IsAlphanumeric id in
    if_both (Lacks b'-') (leb 11 (length str))
      (to_lower-Lacks (drop (length str - 10) str) (IsAlphanumeric-drop (length str - 10) str h))
      (to_lower-Lacks str h)

short_suffix-length : (id : Text) → length (short_suffix id) ≤ 10
unfolding short_suffix
short_suffix-length id =
    let str = alphanumerics id in
    let long = length-to_lower (drop (length str - 10) str) in
    let cut = length-drop (length str - 10) str in let short = length-to_lower str in ground arith

-- Whatever the cluster's ID, the names of its tenant's namespace and service account hold only
-- lower-case letters, digits and "-", and they have at most 24 and 17 characters, well within the 63
-- of a DNS label.
pub tenant_namespace-IsLabelText :
    (id : Text)
    → IsLabelText (tenant_namespace id)
      × (length (tenant_namespace id) ≤ 24)
      × IsLabelText (tenant_sa_name id)
      × (length (tenant_sa_name id) ≤ 17)
unfolding tenant_namespace tenant_sa_name
tenant_namespace-IsLabelText id =
    let ns = codes "cattle-system-" in
    let sa = codes "cattle-" in
    let suffix = short_suffix id in
    let bound = short_suffix-length id in
    let label = short_suffix-IsLabelText id in
    (
      All-append (λ c. is_label_byte c ≡ true) ns suffix (ground arith) label,
      omega (arith, length-append ns suffix),
      All-append (λ c. is_label_byte c ≡ true) sa suffix (ground arith) label,
      omega (arith, length-append sa suffix),
    )

-- ===== src/Kwok/Processes.antt =====
-- kwok_integration.go: killSchedulerAndController, on what ps prints, and the attempts of
-- applyAnonymousServiceAccount.
use scale_cluster_agent.Strings.{contains_text, split, atoi}
use scale_cluster_agent.Strings.Trim.{fields}
use scale_cluster_agent.Prelude.Int.{ℤ}
use scale_cluster_agent.Prelude.{
  ℕ, zero, suc, ◌+◌, ◌<◌, ◌≤◌, ◌≡◌, ◌⊎◌, inl, inr, refl, ap, Bool, true, false, ◌&&◌, ◌||◌, List,
  [], ◌∷◌, ◌++◌, Option, none, some, Text, nat_eq, codes, Bool-cases, Option-cases, All,
  if◌then◌else◌, arith,
}

-- A line of a scheduler or a controller manager of the cluster with this path
unfoldable pub is_component : Text → Text → Bool
unfolding contains_text
is_component path line =
    contains_text line path
    && (contains_text line (codes "/bin/kube-scheduler")
        || contains_text line (codes "/bin/kube-controller-manager"))

-- The process ID at the head of a line
unfoldable pub pid_of : Text → Option ℤ
unfolding fields atoi
pid_of line = elim (fields line) [ [] ↦ none | f ∷ fs ↦ atoi f ]

-- The processes that are interrupted and killed; `find` tells whether os.FindProcess finds one.
unfoldable pub killed_in : (ℤ → Bool) → Text → List Text → List ℤ
unfolding is_component pid_of
killed_in find path [] = []
killed_in find path (line ∷ lines) =
    let rest = killed_in find path lines in
    let more = elim (pid_of line) as (λ _. List ℤ) [
      | none ↦ rest
      | some pid ↦ if find pid then pid ∷ rest else rest
    ] in
    if is_component path line then more else rest

-- killSchedulerAndController: the processes, and whether there is no error; `ps` is none if ps fails.
unfoldable pub kill_scheduler_and_controller : (ℤ → Bool) → Text → Option Text → List ℤ × Bool
unfolding killed_in split
kill_scheduler_and_controller find path ps = elim ps [
  | none ↦ ([], false)
  | some out ↦
      let killed = killed_in find path (split out 10) in
      (killed, elim killed as (λ _. Bool) [ [] ↦ false | pid ∷ pids ↦ true ])
]

-- The attempts that are left to apply the rules: the number of attempts in all, and whether the last
-- one succeeds; `applies` tells it of each.
unfoldable pub apply_attempts : (ℕ → Bool) → ℕ → ℕ → ℕ × Bool
apply_attempts applies zero made = (made, false)
apply_attempts applies (suc n) made =
    let rest = apply_attempts applies n (suc made) in
    if applies (suc made) then (suc made, true) else rest

-- applyAnonymousServiceAccount: whether the file with the rules, the kubeconfig and its file are there,
-- and the attempts
unfoldable pub apply_anonymous_service_account : Bool → Bool → Bool → (ℕ → Bool) → ℕ × Bool
unfolding apply_attempts
apply_anonymous_service_account rules_ok kubeconfig_ok file_ok applies =
    if rules_ok && kubeconfig_ok && file_ok then apply_attempts applies 5 0 else (0, false)

-- It ends with the first attempt that succeeds, or after all of them failed.
abbrev pub EndsWith : (ℕ → Bool) → ℕ → ℕ → ℕ × Bool → Type 0
EndsWith applies n made (m, true) =
    (made < m)
    × (m ≤ made + n)
    × (applies m ≡ true)
    × ((i : ℕ) → made < i → i < m → applies i ≡ false)
EndsWith applies n made (m, false) =
    (m ≡ made + n) × ((i : ℕ) → made < i → i ≤ m → applies i ≡ false)

next_attempt : (made i : ℕ) → made < i → (i ≡ suc made) ⊎ (suc made < i)
next_attempt made i h = omega arith

later_end :
    (applies : ℕ → Bool) (n made : ℕ) (r : ℕ × Bool)
    → applies (suc made) ≡ false
    → EndsWith applies n (suc made) r
    → EndsWith applies (suc n) made r
later_end applies n made (m, true) no_first (lt, le, yes_it, before) = (
  omega arith,
  omega arith,
  yes_it,
  λ i a b. elim (next_attempt made i a) [ inl e ↦ rw e no_first | inr k ↦ before i k b ],
)
later_end applies n made (m, false) no_first (e, before) = (
  omega arith,
  λ i a b. elim (next_attempt made i a) [ inl q ↦ rw q no_first | inr k ↦ before i k b ],
)

pub apply_attempts-EndsWith :
    (applies : ℕ → Bool) (n made : ℕ) → EndsWith applies n made (apply_attempts applies n made)
unfolding apply_attempts
apply_attempts-EndsWith applies zero made = (omega arith, λ i a b. absurd (omega arith))
apply_attempts-EndsWith applies (suc n) made = elim (Bool-cases (applies (suc made))) [
  | inl e ↦ rw (e, apply_attempts) (omega arith, omega arith, e, λ i a b. absurd (omega arith))
  | inr e ↦
      rw (e, apply_attempts)
        (later_end applies n made (apply_attempts applies n (suc made)) e
          (apply_attempts-EndsWith applies n (suc made)))
]

-- The process is the one of a line that is about a scheduler or a controller manager of the path.
abbrev pub IsOf : (ℤ → Bool) → Text → List Text → ℤ → Type 0
IsOf find path lines pid =
    (before after : List Text) × (line : Text) × (lines ≡ before ++ (line ∷ after))
    × (is_component path line ≡ true)
    × (pid_of line ≡ some pid)
    × (find pid ≡ true)

weaker :
    (find : ℤ → Bool) (path line : Text) (lines : List Text) (pids : List ℤ)
    → All (IsOf find path lines) pids
    → All (IsOf find path (line ∷ lines)) pids
weaker find path line lines [] h = tt
weaker find path line lines (p ∷ ps) ((before, after, l, e, c, i, f), h) = (
  (line ∷ before, after, l, ap (λ (ls : List Text). line ∷ ls) e, c, i, f),
  weaker find path line lines ps h,
)

-- Only processes of such lines are killed.
pub killed_in-IsOf :
    (find : ℤ → Bool) (path : Text) (lines : List Text)
    → All (IsOf find path lines) (killed_in find path lines)
unfolding killed_in
killed_in-IsOf find path [] = tt
killed_in-IsOf find path (line ∷ lines) =
    let rest =
      weaker find path line lines (killed_in find path lines) (killed_in-IsOf find path lines) in
    elim (Bool-cases (is_component path line)) [
      | inr c ↦ rw (c, killed_in) rest
      | inl c ↦ elim (Option-cases (pid_of line)) [
        | inl i ↦ rw (c, i, killed_in) rest
        | inr (pid, i) ↦ elim (Bool-cases (find pid)) [
          | inr f ↦ rw (c, i, f, killed_in) rest
          | inl f ↦ rw (c, i, f, killed_in) (([], lines, line, refl, c, i, f), rest)
        ]
      ]
    ]

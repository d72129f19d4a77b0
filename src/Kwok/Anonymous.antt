-- ===== src/Kwok/Anonymous.antt =====
-- kwok_integration.go: modifyKWOKConfigForAnonymousAuth, which nothing calls.
use scale_cluster_agent.Strings.{replace_all, split, join, contains_text}
use scale_cluster_agent.Kwok.Manifests.{newline}
use scale_cluster_agent.Prelude.{
  ◌≡◌, Bool, false, List, [], ◌∷◌, ◌++◌, Option, none, some, Text, codes, if◌then◌else◌, All,
  Bool-cases, inl, inr,
}

-- The lines without a file of client certificates
unfoldable pub without_ca : List Text → List Text
unfolding contains_text
without_ca [] = []
without_ca (line ∷ lines) =
    let rest = without_ca lines in
    if contains_text line (codes "--client-ca-file=") then rest else line ∷ rest

unfoldable pub anonymous_text : Text → Text
unfolding replace_all split join without_ca
anonymous_text given =
    let content =
      replace_all given (codes "--authorization-mode=Node,RBAC")
        (codes "--authorization-mode=AlwaysAllow") in
    replace_all (join (without_ca (split content newline)) newline) (codes "--anonymous-auth=true")
      (codes "--anonymous-auth=true"
        ++ (newline
            ∷ (codes "  - --enable-bootstrap-token-auth=false"
                ++ (newline ∷ codes "  - --token-auth-file="))))

-- The text that goes to the write, and whether the call succeeds, of what kwok.yaml holds and whether it can be written
unfoldable pub modify_for_anonymous_auth : Option Text → Bool → Option Text × Bool
unfolding anonymous_text
modify_for_anonymous_auth none writes = (none, false)
modify_for_anonymous_auth (some given) writes = (some (anonymous_text given), writes)

-- No line of those that are kept names a file of client certificates.
pub without_ca-All :
    (lines : List Text)
    → All (λ line. contains_text line (codes "--client-ca-file=") ≡ false) (without_ca lines)
unfolding without_ca
without_ca-All [] = tt
without_ca-All (line ∷ lines) = elim (Bool-cases (contains_text line (codes "--client-ca-file="))) [
  | inl t ↦ rw t (without_ca-All lines)
  | inr t ↦ rw t (t, without_ca-All lines)
]

-- ===== src/MockApi/Tokens.antt =====
-- Tokens of service accounts in main.go's mock API server.
use mathlib.Core.Path.{◌≡◌, refl, sym, ap, ◌∙◌}
use scale_cluster_agent.MockApi.{
  ApiObject, Spaces, MockStore, MockEnv, ensure_ns, with_maps, ensure_map, put_in, inner,
  token_type, next_rv,
}
use scale_cluster_agent.MockApi.Secrets.{
  account_key, uid_key, secret_name, token_annotations, add_missing, token_data, with_secret,
  attach, create_secret, put_secret, secret_of,
}
use scale_cluster_agent.MockApi.Stored.{find, find-ensure_map, Written, put_in-Written}
use scale_cluster_agent.Prelude.Dict.{Dict, lookup, insert, lookup-insert}
use scale_cluster_agent.Prelude.{ℕ, false, [], some, Text, text_eq, ◌==◌, arith}

pub ensure_ns-there :
    (env : MockEnv) (ns : Text) (o : ApiObject) (s : MockStore)
    → lookup ns s.spaces ≡ some o
    → ensure_ns env ns s ≡ with_maps ns s
unfolding ensure_ns
ensure_ns-there env ns o s t = rw (ensure_ns, t) refl

pub keys-differ : (uid_key == account_key) ≡ false
unfolding text_eq
keys-differ = refl

pub add_missing-account :
    (v : Text) (ann : Dict Text Text)
    → lookup account_key (add_missing uid_key v ann) ≡ lookup account_key ann
unfolding add_missing
add_missing-account v ann = ground (arith, lookup-insert account_key uid_key v ann, keys-differ)

pub token_annotations-account :
    (env : MockEnv) (sa : Text) (ann : Dict Text Text)
    → lookup account_key ann ≡ some sa
    → lookup account_key (token_annotations env ann) ≡ some sa
unfolding token_annotations
token_annotations-account env sa ann t = rw (token_annotations, t) (add_missing-account _ ann ∙ t)

pub find-inner : (ns n : Text) (m : Spaces) → find ns n m ≡ lookup n (inner ns m)
unfolding find lookup
find-inner ns n m = ground arith

pub insert-Written :
    (ns name : Text) (o : ApiObject) (m : Spaces)
    → Written ns name o m (insert ns (insert name o (inner ns m)) m)
unfolding find lookup
insert-Written ns name o m j n =
    ground (
      arith,
      lookup-insert j ns (insert name o (inner ns m)) m,
      lookup-insert n name o (inner ns m),
    )

pub attach-Written :
    (ns name sa : Text) (ann : Dict Text Text) (a : ApiObject) (m : Spaces)
    → lookup account_key ann ≡ some sa
    → find ns sa m ≡ some a
    → Written ns sa (with_secret name a) m (attach ns name ann m)
unfolding attach
attach-Written ns name sa ann a m t h =
    let f : lookup sa (inner ns m) ≡ some a = sym (find-inner ns sa m) ∙ h in
    rw (attach, t, f) (insert-Written ns sa (with_secret name a) m)

pub secret_name-given :
    (env : MockEnv) (name : Text) (ann : Dict Text Text) (drawn : ℕ)
    → (name == []) ≡ false
    → secret_name env name ann drawn ≡ (name, drawn)
unfolding secret_name
secret_name-given env name ann drawn h = ground (arith, h)

-- A token that is created under a name, in a namespace that is there, for an account that is there: no panic; of
-- the secrets only the one of this name in the namespace changes, and of the accounts only that one, which
-- has the secret as one more.
pub create_secret-Attached :
    (env : MockEnv) (ns name sa : Text) (held ann : Dict Text Text) (space a : ApiObject)
    (s : MockStore)
    → (name == []) ≡ false
    → lookup ns s.spaces ≡ some space
    → lookup account_key ann ≡ some sa
    → find ns sa s.accounts ≡ some a
    → (s' : MockStore) × (o : ApiObject) × (create_secret env ns name token_type held ann s
        ≡ some s')
      × Written ns name o s.held s'.held
      × Written ns sa (with_secret name a) s.accounts s'.accounts
unfolding create_secret put_secret with_maps text_eq
create_secret-Attached env ns name sa held ann space a s given there t h =
    let ann' = token_annotations env ann in
    let s1 = with_maps ns s in
    let (full, drawn) = token_data env ns held s1.drawn in
    let o = secret_of env ns name token_type ann' full (next_rv s1.rv) in
    let (m', e, w) = put_in-Written ns name o s.held in
    let e' : put_in ns name o s1.held ≡ some m' = e in
    let was : find ns sa (ensure_map ns s.accounts) ≡ some a =
      find-ensure_map ns sa ns s.accounts ∙ h in
    let attached =
      attach-Written ns name sa ann' a (ensure_map ns s.accounts)
        (token_annotations-account env sa ann t) was in
    let s' : MockStore = record s1 {
      held = m';
      accounts = attach ns name ann' s1.accounts;
      rv = next_rv s1.rv;
      drawn = drawn;
    } in
    let added : put_secret env ns token_type held ann s1 (name, s1.drawn) ≡ some s' =
      rw (put_secret, e') refl in
    let there' : create_secret env ns name token_type held ann s
        ≡ put_secret env ns token_type held ann s1 (secret_name env name ann s1.drawn) =
      ap (λ x. put_secret env ns token_type held ann x (secret_name env name ann x.drawn))
        (ensure_ns-there env ns space s there) in
    let named =
      ap (put_secret env ns token_type held ann s1)
        (secret_name-given env name ann s1.drawn given) in
    (
      s',
      o,
      there' ∙ named ∙ added,
      w,
      λ j n. ground (arith, attached j n, find-ensure_map j n ns s.accounts),
    )

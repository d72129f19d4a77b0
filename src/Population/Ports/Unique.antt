-- ===== src/Population/Ports/Unique.antt =====
-- No two ports of a service have the same name.
use scale_cluster_agent.Strings.{itoa, scan, split}
use scale_cluster_agent.Strings.Numbers.{scan-itoa}
use scale_cluster_agent.Strings.Trim.{itoa_int}
use scale_cluster_agent.Population.Ports.{
  Port, candidate, fresh_name, parse_part, ports_loop, or_fallback, service_ports,
}
use scale_cluster_agent.Prelude.Without.{without, length-without, contains-without}
use scale_cluster_agent.Prelude.{
  ℕ, zero, suc, ◌≤◌, ◌<◌, ◌≡◌, ◌≢◌, ◌⊎◌, inl, inr, refl, sym, ap, ◌∙◌, true, false, ◌==◌, if_both,
  Bool-cases, Option-cases, List, [], ◌∷◌, ◌++◌, Text, text_eq, length, length-append, contains,
  drop, arith,
}

drop-append : (s t : Text) → drop (length s) (s ++ t) ≡ t
drop-append [] t = refl
drop-append (c ∷ s) t = drop-append s t

itoa-injective : (m n : ℕ) → itoa m ≡ itoa n → m ≡ n
itoa-injective m n h = cc (scan-itoa m, scan-itoa n, ap (λ s. scan s 0) h)

candidate-injective : (base : Text) (m n : ℕ) → candidate base m ≡ candidate base n → m ≡ n
candidate-injective base m n h =
    let same : b'-' ∷ itoa m ≡ b'-' ∷ itoa n =
      sym (drop-append base (b'-' ∷ itoa m))
      ∙ ap (drop (length base)) h
      ∙ drop-append base (b'-' ∷ itoa n) in
    itoa-injective m n (ap (drop 1) same)

candidate-ne : (base : Text) (n : ℕ) → base ≢ candidate base n
candidate-ne base n h = absurd (omega (arith, length-append base (b'-' ∷ itoa n), ap length h))

-- The candidates from an index on, n of them, are all seen.
abbrev AllSeen : List Text → Text → ℕ → ℕ → Type 0
AllSeen seen base zero i = Unit
AllSeen seen base (suc n) i =
    (contains seen (candidate base (suc i)) ≡ true) × AllSeen seen base n (suc i)

AllSeen-without :
    (seen : List Text) (base x : Text) (n i : ℕ)
    → ((k : ℕ) → i < k → x ≢ candidate base k)
    → AllSeen seen base n i
    → AllSeen (without x seen) base n i
AllSeen-without seen base x zero i ne all = tt
AllSeen-without seen base x (suc n) i ne all = (
  contains-without x (candidate base (suc i)) seen (ne (suc i) (omega arith)) all.0,
  AllSeen-without seen base x n (suc i) (λ k h. ne k (omega arith)) all.1,
)

AllSeen-length :
    (seen : List Text) (base : Text) (n i : ℕ) → AllSeen seen base n i → n ≤ length seen
AllSeen-length seen base zero i all = omega arith
AllSeen-length seen base (suc n) i all =
    let x = candidate base (suc i) in
    let others =
      AllSeen-without seen base x n (suc i)
        (λ k h e. absurd (omega (arith, candidate-injective base (suc i) k e))) all.1 in
    omega
      (arith, length-without x seen all.0, AllSeen-length (without x seen) base n (suc i) others)

-- From a candidate on, the loop finds a name that is not seen, or all of its candidates are.
fresh_name-candidate :
    (seen : List Text) (base : Text) (n i : ℕ)
    → (contains seen (fresh_name seen base n (candidate base (suc i)) (suc i)).0 ≡ false)
      ⊎ AllSeen seen base n i
unfolding fresh_name
fresh_name-candidate seen base zero i = inr tt
fresh_name-candidate seen base (suc n) i =
    elim (Bool-cases (contains seen (candidate base (suc i)))) [
      | inr f ↦ inl (rw (f, fresh_name) f)
      | inl t ↦ elim (fresh_name-candidate seen base n (suc i)) [
        | inl f ↦ inl (rw (t, fresh_name) f)
        | inr all ↦ inr (t, all)
      ]
    ]

-- With one round more than there are names that are seen, the name is a new one.
fresh_name-fresh :
    (seen : List Text) (base : Text) (i : ℕ)
    → contains seen (fresh_name seen base (suc (length seen)) base i).0 ≡ false
unfolding fresh_name
fresh_name-fresh seen base i = elim (Bool-cases (contains seen base)) [
  | inr f ↦ rw (f, fresh_name) f
  | inl t ↦ elim (fresh_name-candidate seen base (length seen) i) [
    | inl f ↦ rw (t, fresh_name) f
    | inr all ↦
        let others =
          AllSeen-without seen base base (length seen) i (λ k h. candidate-ne base k) all in
        absurd (
          omega (
            arith,
            length-without base seen t,
            AllSeen-length (without base seen) base (length seen) i others,
          ))
  ]
]

abbrev pub names_of : List Port → List Text
names_of [] = []
names_of (p ∷ ps) = p.name ∷ names_of ps

-- Each name stands once.
abbrev pub NodupNames : List Text → Type 0
NodupNames [] = Unit
NodupNames (n ∷ ns) = (contains ns n ≡ false) × NodupNames ns

-- The names of the loop are none that is seen, and stand once each.
abbrev NewNames : List Text → List Text → Type 0
NewNames seen ns = NodupNames ns × ((n : Text) → contains seen n ≡ true → contains ns n ≡ false)

NewNames-cons :
    (seen ns : List Text) (name : Text)
    → contains seen name ≡ false
    → NewNames (name ∷ seen) ns
    → NewNames seen (name ∷ ns)
NewNames-cons seen ns name fresh (nodup, others) = (
  (others name (ground arith), nodup),
  λ n h. let later = others n (ground arith) in ground arith,
)

ports_loop-NewNames :
    (parts seen : List Text) (i : ℕ) → NewNames seen (names_of (ports_loop parts seen i))
unfolding ports_loop
ports_loop-NewNames [] seen i = (tt, λ n h. refl)
ports_loop-NewNames (part ∷ parts) seen i = elim (Option-cases (parse_part part)) [
  | inl e ↦ rw (e, ports_loop) (ports_loop-NewNames parts seen i)
  | inr ((number, protocol), e) ↦
      let r =
        fresh_name seen (b'p' ∷ itoa_int number) (suc (length seen)) (b'p' ∷ itoa_int number) i in
      let ih = ports_loop-NewNames parts (r.0 ∷ seen) r.1 in
      let fresh = fresh_name-fresh seen (b'p' ∷ itoa_int number) i in
      rw (e, ports_loop)
        (NewNames-cons seen (names_of (ports_loop parts (r.0 ∷ seen) r.1)) r.0 fresh ih)
]

or_fallback-NodupNames :
    (ps : List Port)
    → NodupNames (names_of ps)
    → NodupNames (names_of (or_fallback ps)) × (or_fallback ps ≢ [])
or_fallback-NodupNames [] h = ((refl, tt), λ e. cc e)
or_fallback-NodupNames (p ∷ ps) h = (h, λ e. cc e)

-- Whatever the text of a service's ports, the service gets at least one port, and no two of its ports
-- have the same name.
pub service_ports-NodupNames :
    (ports : Text) → NodupNames (names_of (service_ports ports)) × (service_ports ports ≢ [])
unfolding service_ports
service_ports-NodupNames ports = or_fallback-NodupNames _ (
    if_both (λ ps. NodupNames (names_of ps)) (ports == []) tt
      (ports_loop-NewNames (split ports 44) [] 0).0)

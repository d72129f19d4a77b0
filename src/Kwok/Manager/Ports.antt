-- ===== src/Kwok/Manager/Ports.antt =====
-- findNextAvailablePortLocked returns the first port of its range that is not in use.
use scale_cluster_agent.Kwok.Manager.{
  Manager, Listing, used_ports, first_free, rounds, find_next_available_port,
}
use scale_cluster_agent.Prelude.Int.{ℤ, pos, int_eq}
use scale_cluster_agent.Prelude.Without.{without, length-without, contains-without}
use scale_cluster_agent.Prelude.{
  ℕ, zero, suc, ◌+◌, ◌*◌, ◌≤◌, ◌<◌, ◌≡◌, ◌⊎◌, inl, inr, refl, true, false, List, contains,
  Bool-cases, arith, sym, ◌∙◌, length,
}

-- The ports port, port + 10, … of so many rounds are all in use.
abbrev pub AllUsed : List ℤ → ℕ → ℕ → Type 0
AllUsed used zero port = Unit
AllUsed used (suc n) port = (contains used (pos port) ≡ true) × AllUsed used n (port + 10)

-- The first of the ports port, port + 10, … that is free, within so many rounds.
abbrev pub IsFirstFree : List ℤ → ℕ → ℕ → ℕ → Type 0
IsFirstFree used n port r =
    (k : ℕ) × (k < n) × (r ≡ port + 10 * k) × (contains used (pos r) ≡ false) × AllUsed used k port

first_free-taken :
    (used : List ℤ) (n port : ℕ)
    → contains used (pos port) ≡ true
    → first_free used (suc n) port ≡ first_free used n (port + 10)
unfolding first_free
first_free-taken used n port h = rw h

first_free-free :
    (used : List ℤ) (n port : ℕ)
    → contains used (pos port) ≡ false
    → first_free used (suc n) port ≡ port
unfolding first_free
first_free-free used n port h = rw h

first_free_cases :
    (used : List ℤ) (n port r : ℕ)
    → first_free used n port ≡ r
    → ((r ≡ 0) × AllUsed used n port) ⊎ IsFirstFree used n port r
first_free_cases used zero port r e = inl (sym e ∙ unfold first_free in refl, tt)
first_free_cases used (suc n) port r e = elim (Bool-cases (contains used (pos port))) [
  | inr free ↦
      let here : port ≡ r = sym (first_free-free used n port free) ∙ e in
      inr (0, omega arith, omega arith, rw (← here) free, tt)
  | inl taken ↦
      elim (first_free_cases used n (port + 10) r (sym (first_free-taken used n port taken) ∙ e)) [
        | inl h ↦ inl (h.0, (taken, h.1))
        | inr (k, lt, at, free, all) ↦ inr (suc k, omega arith, omega arith, free, (taken, all))
      ]
]

-- The port for a new cluster is the lowest of basePort, basePort + 10, …, basePort + 9990 that
-- neither a cluster in the map nor a directory with a readable port uses; it is 0 only if all of
-- them are in use.
pub find_next_available_port-first :
    (m : Manager) (listing : Listing)
    → ((find_next_available_port m listing ≡ 0) × AllUsed (used_ports m listing) rounds m.base_port)
      ⊎ IsFirstFree (used_ports m listing) rounds m.base_port (find_next_available_port m listing)
unfolding find_next_available_port
find_next_available_port-first m listing =
    first_free_cases (used_ports m listing) rounds m.base_port _ refl

-- Ports above `port` stay in use when `port` is taken out.
AllUsed-without :
    (used : List ℤ) (n port above : ℕ)
    → port < above
    → AllUsed used n above
    → AllUsed (without (pos port) used) n above
AllUsed-without used zero port above h all = tt
AllUsed-without used (suc n) port above h all = (
  contains-without (pos port) (pos above) used (ground arith) all.0,
  AllUsed-without used n port (above + 10) (omega arith) all.1,
)

AllUsed-length : (used : List ℤ) (n port : ℕ) → AllUsed used n port → n ≤ length used
AllUsed-length used zero port all = omega arith
AllUsed-length used (suc n) port all = omega (
  arith,
  length-without (pos port) used all.0,
  AllUsed-length (without (pos port) used) n (port + 10)
      (AllUsed-without used n port (port + 10) (omega arith) all.1),
)

-- With a base port above 0 and fewer than 1000 ports in use a port is found, and it is not in use.
pub find_next_available_port-found :
    (m : Manager) (listing : Listing)
    → 0 < m.base_port
    → length (used_ports m listing) < rounds
    → (0 < find_next_available_port m listing)
      × (contains (used_ports m listing) (pos (find_next_available_port m listing)) ≡ false)
find_next_available_port-found m listing h few = elim (find_next_available_port-first m listing) [
  | inl (none_free, all) ↦
      absurd (omega (arith, AllUsed-length (used_ports m listing) rounds m.base_port all))
  | inr (k, lt, at, free, all) ↦ (omega arith, free)
]

-- ===== src/Config/Env/Dedupe.antt =====
-- The names that dedupe of config.go and registeredQueues of register.go keep: each once.
use mkqd.Base.{
  ◌≡◌, ◌↔◌, ◌⊎◌, inl, inr, refl, true, false, Bool-cases, List, [], ◌∷◌, Bytes, Any, bytes_eq,
  bytes_eq_iff, mem_bytes, any_iff,
}
use mkqd.Config.Env.{dedupe_from, dedupe}

abbrev pub In : Bytes → List Bytes → Type 0
In s xs = Any (λ x. s ≡ x) xs

abbrev pub Once : List Bytes → Type 0
Once [] = Unit {0}
Once (x ∷ xs) = (¬ In x xs) × Once xs

pub mem_bytes-In : (s : Bytes) (xs : List Bytes) → (mem_bytes s xs ≡ true) ↔ In s xs
mem_bytes-In s xs = any_iff (λ x. s ≡ x) (bytes_eq s) (λ x. bytes_eq_iff s x) xs

module _ (s x : Bytes) (seen xs : List Bytes) where
  kept : mem_bytes x seen ≡ true → In s xs × (¬ In s seen) → In s (x ∷ xs) × (¬ In s seen)
  kept old (m, n) = (inr m, n)

  dropped : mem_bytes x seen ≡ true → In s (x ∷ xs) × (¬ In s seen) → In s xs × (¬ In s seen)
  dropped old (inl e, n) = absurd (n (rw e ((mem_bytes-In x seen).0 old)))
  dropped old (inr m, n) = (m, n)

  first : (¬ In x seen) → (s ≡ x) ⊎ (In s xs × (¬ In s (x ∷ seen))) → In s (x ∷ xs) × (¬ In s seen)
  first new (inl e) = (inl e, rw e new)
  first new (inr (m, n)) = (inr m, λ k. n (inr k))

  later : In s (x ∷ xs) × (¬ In s seen) → (s ≡ x) ⊎ (In s xs × (¬ In s (x ∷ seen)))
  later (inl e, n) = inl e
  later (inr m, n) = elim (Bool-cases (bytes_eq s x)) [
    | inl same ↦ inl ((bytes_eq_iff s x).0 same)
    | inr apart ↦
        inr (m, λ k. elim k [ inl e ↦ cc (apart, (bytes_eq_iff s x).1 e) | inr k' ↦ n k' ])
  ]

not-In : (x : Bytes) (seen : List Bytes) → mem_bytes x seen ≡ false → ¬ In x seen
not-In x seen e m = let t = (mem_bytes-In x seen).1 m in cc

-- The result holds what the rest holds and `seen` does not.
In-dedupe_from :
    (s : Bytes) (seen xs : List Bytes) → In s (dedupe_from seen xs) ↔ (In s xs × (¬ In s seen))
unfolding dedupe_from
In-dedupe_from s seen [] = (λ m. absurd m, λ m. absurd m.0)
In-dedupe_from s seen (x ∷ xs) = elim (Bool-cases (mem_bytes x seen)) [
  | inl old ↦
      let ih = In-dedupe_from s seen xs in
      rw old (λ m. kept s x seen xs old (ih.0 m), λ m. ih.1 (dropped s x seen xs old m))
  | inr new ↦
      let ih = In-dedupe_from s (x ∷ seen) xs in
      rw new (
        λ m.
            first s x seen xs (not-In x seen new) (elim m [ inl e ↦ inl e | inr k ↦ inr (ih.0 k) ]),
        λ m. elim (later s x seen xs m) [ inl e ↦ inl e | inr k ↦ inr (ih.1 k) ],
      )
]

Once-dedupe_from : (seen xs : List Bytes) → Once (dedupe_from seen xs)
unfolding dedupe_from
Once-dedupe_from seen [] = tt
Once-dedupe_from seen (x ∷ xs) = elim (Bool-cases (mem_bytes x seen)) [
  | inl old ↦ rw old (Once-dedupe_from seen xs)
  | inr new ↦
      rw new
        (λ m. ((In-dedupe_from x (x ∷ seen) xs).0 m).1 (inl refl), Once-dedupe_from (x ∷ seen) xs)
]

-- dedupe keeps the same names, and each of them once.
pub dedupe-Once : (xs : List Bytes) → Once (dedupe xs) × ((s : Bytes) → In s (dedupe xs) ↔ In s xs)
unfolding dedupe
dedupe-Once xs = (
  Once-dedupe_from [] xs,
  λ s. let e = In-dedupe_from s [] xs in (λ m. (e.0 m).0, λ m. e.1 (m, λ k. k)),
)

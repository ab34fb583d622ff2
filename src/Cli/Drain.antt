-- ===== src/Cli/Drain.antt =====
-- cmdDrain: what it deletes and what it reports to have deleted.
use mathlib.Core.Path.{subst}
use mkqd.Base.{
  ℕ, ◌-◌, ◌≤◌, ◌≡◌, refl, sym, ap, ◌∙◌, inl, inr, ◌⊎◌, Bool, true, false, Option, none, some, List,
  [], ◌∷◌, ◌++◌, Bytes, codes, mem_bytes, bytes_eq, lookup, ltb, arith, if◌then◌else◌,
}
use mkqd.Base.Int.{ℤ, pos, ◌-ℤ◌, wrap64, max_int64}
use mkqd.Cli.Admin.{DrainResult, delta, removed_of, cmd_drain}
use mkqd.Cli.Changes.{Refused}
use mkqd.Cli.Opening.{open-elim, queue-elim}
use mkqd.Cli.Redis.{Answer, got, error, Cmd, next, Counts, Redis, drain_pending}
use mkqd.RetryAfter.Errors.{Error}

-- A number of jobs is never negative, and Redis counts in 64 bits.
abbrev pub IsCount : ℤ → ℕ → Type 0
IsCount z n = (z ≡ pos n) × (n ≤ max_int64)

-- How many of `before` jobs are gone, if any.
abbrev pub gone : ℕ → ℕ → Option ℤ
gone before after = if ltb after before then some (pos (before - after)) else none

abbrev entry_of : Bytes → Option ℤ → List (Bytes × ℤ)
entry_of name none = []
entry_of name (some d) = (name, d) ∷ []

delta-gone :
    (name : Bytes) (b a : ℤ) (before after : ℕ)
    → IsCount b before
    → IsCount a after
    → delta name b a ≡ entry_of name (gone before after)
unfolding delta ◌-ℤ◌ wrap64
delta-gone name b a before after (eb, hb) (ea, ha) = ground arith

-- An entry is found under its own name, and the other names look past it.
lookup-entry_own :
    (name : Bytes) (o : Option ℤ) (rest : List (Bytes × ℤ))
    → bytes_eq name name ≡ true
    → lookup name rest ≡ none
    → lookup name (entry_of name o ++ rest) ≡ o
unfolding lookup
lookup-entry_own name none rest e h = h
lookup-entry_own name (some d) rest e h = ap (λ b. if b then some d else lookup name rest) e

lookup-entry_other :
    (key name : Bytes) (o : Option ℤ) (rest : List (Bytes × ℤ))
    → bytes_eq key name ≡ false
    → lookup key (entry_of name o ++ rest) ≡ lookup key rest
unfolding lookup
lookup-entry_other key name none rest e = refl
lookup-entry_other key name (some d) rest e = ap (λ b. if b then some d else lookup key rest) e

abbrev entries : Option ℤ → Option ℤ → Option ℤ → List (Bytes × ℤ)
entries w p d =
    entry_of (codes "wait") w ++ (entry_of (codes "prioritized") p ++ entry_of (codes "delayed") d)

lookup-entry_last :
    (key name : Bytes) (o : Option ℤ)
    → bytes_eq key name ≡ false
    → lookup key (entry_of name o) ≡ none
unfolding lookup
lookup-entry_last key name none e = refl
lookup-entry_last key name (some d) e = ap (λ b. if b then some d else none) e

lookup-entry_alone :
    (name : Bytes) (o : Option ℤ) → bytes_eq name name ≡ true → lookup name (entry_of name o) ≡ o
unfolding lookup
lookup-entry_alone name none e = refl
lookup-entry_alone name (some d) e = ap (λ b. if b then some d else none) e

abbrev pub Reported : List (Bytes × ℤ) → (ℕ × ℕ) → (ℕ × ℕ) → (ℕ × ℕ) → Type 0
Reported removed w p d =
    (lookup (codes "wait") removed ≡ gone w.0 w.1)
    × ((lookup (codes "prioritized") removed ≡ gone p.0 p.1)
        × (lookup (codes "delayed") removed ≡ gone d.0 d.1))

entries-Reported :
    (w p d : ℕ × ℕ) → Reported (entries (gone w.0 w.1) (gone p.0 p.1) (gone d.0 d.1)) w p d
unfolding bytes_eq
entries-Reported w p d = (
  lookup-entry_own (codes "wait") (gone w.0 w.1) _ refl (
      lookup-entry_other (codes "wait") (codes "prioritized") (gone p.0 p.1) _ refl
      ∙ lookup-entry_last (codes "wait") (codes "delayed") (gone d.0 d.1) refl),
  (
    lookup-entry_other (codes "prioritized") (codes "wait") (gone w.0 w.1) _ refl
        ∙ lookup-entry_own (codes "prioritized") (gone p.0 p.1) _ refl
            (lookup-entry_last (codes "prioritized") (codes "delayed") (gone d.0 d.1) refl),
    lookup-entry_other (codes "delayed") (codes "wait") (gone w.0 w.1) _ refl
        ∙ (lookup-entry_other (codes "delayed") (codes "prioritized") (gone p.0 p.1) _ refl
            ∙ lookup-entry_alone (codes "delayed") (gone d.0 d.1) refl),
  ),
)

-- Two readings of the counts, by the numbers of jobs before and after.
abbrev pub AreCounts : Counts → Counts → (ℕ × ℕ) → (ℕ × ℕ) → (ℕ × ℕ) → Type 0
AreCounts b a w p d =
    (IsCount b.wait w.0 × IsCount a.wait w.1)
    × ((IsCount b.prioritized p.0 × IsCount a.prioritized p.1)
        × (IsCount b.delayed d.0 × IsCount a.delayed d.1))

removed_of-entries :
    (b a : Counts) (w p d : ℕ × ℕ)
    → AreCounts b a w p d
    → removed_of b a ≡ entries (gone w.0 w.1) (gone p.0 p.1) (gone d.0 d.1)
unfolding removed_of
removed_of-entries b a w p d h = rw (
  delta-gone (codes "wait") b.wait a.wait w.0 w.1 h.0.0 h.0.1,
  delta-gone (codes "prioritized") b.prioritized a.prioritized p.0 p.1 h.1.0.0 h.1.0.1,
  delta-gone (codes "delayed") b.delayed a.delayed d.0 d.1 h.1.1.0 h.1.1.1,
)

-- For counts within int64, the report of a drain has, under each of wait, prioritized and delayed,
-- how many jobs are gone, and no entry where the count did not drop.
removed_of-Reported :
    (b a : Counts) (w p d : ℕ × ℕ) → AreCounts b a w p d → Reported (removed_of b a) w p d
removed_of-Reported b a w p d h =
    subst (λ r. Reported r w p d) (sym (removed_of-entries b a w p d h)) (entries-Reported w p d)

abbrev pub result : Bytes → Bool → Counts → Counts → DrainResult
result name with_delayed before after = record {
  queue = name;
  removed = removed_of before after;
  included_delayed = with_delayed;
}

module _ (R : Redis) (s : R.State) where
  -- The queue is there, and behind its Define the command failed before the drain, or is one drain between
  -- the two readings that the report is made of.
  abbrev pub Drained : Bytes → Bool → Answer DrainResult × R.State → Type 0
  Drained name with_delayed r =
      (present : List Bytes) × (R.discover s ≡ got present)
      × ((mem_bytes name present ≡ true)
          × (((e : Error) × (r ≡ (error e, R.define name s)))
              ⊎ ((r.1 ≡ (R.change name (drain_pending with_delayed) (R.define name s)).1)
                  × (((e : Error) × (r.0 ≡ error e))
                      ⊎ ((before : Counts) × (after : Counts) × (r.0
                            ≡ got (result name with_delayed before after))
                          × ((R.counts name (R.define name s) ≡ got before)
                              × (R.counts name
                                    (R.change name (drain_pending with_delayed) (R.define name s)).1
                                  ≡ got after)))))))

  abbrev DrainOutcome : Bytes → Bool → Answer DrainResult × R.State → Type 0
  DrainOutcome name with_delayed r = Refused R s r ⊎ Drained name with_delayed r

  abbrev emit : Bytes → Bool → Counts → Counts → Cmd R.State DrainResult
  emit name with_delayed before after t = (got (result name with_delayed before after), t)

  -- The rest of cmdDrain from its first reading on.
  abbrev report : Bytes → Bool → Counts → R.State → Answer DrainResult × R.State
  report name with_delayed before t = next (R.counts name t, t) (emit name with_delayed before)

  abbrev Reading : Bytes → Bool → Counts → R.State → Answer DrainResult × R.State → Type 0
  Reading name with_delayed before t r =
      (r.1 ≡ t)
      × (((e : Error) × (r.0 ≡ error e))
          ⊎ ((after : Counts) × (r.0 ≡ got (result name with_delayed before after))
              × (R.counts name t ≡ got after)))

  report_outcome :
      (name : Bytes) (with_delayed : Bool) (before : Counts) (r : Answer (Unit {0}) × R.State)
      → Reading name with_delayed before r.1 (next r (λ _. report name with_delayed before))
  report_outcome name with_delayed before (error e, t) = (refl, inl (e, refl))
  report_outcome name with_delayed before (got u, t) = by_answer (R.counts name t) refl
    where
      by_answer :
          (c : Answer Counts)
          → R.counts name t ≡ c
          → Reading name with_delayed before t (next (c, t) (emit name with_delayed before))
      by_answer (got c) q = (refl, inr (c, refl, q))
      by_answer (error x) q = (refl, inl (x, refl))

  with_before :
      (name : Bytes) (with_delayed : Bool) (present : List Bytes) (before : Counts)
      (r : Answer DrainResult × R.State)
      → R.discover s ≡ got present
      → mem_bytes name present ≡ true
      → R.counts name (R.define name s) ≡ got before
      → Reading name with_delayed before
          (R.change name (drain_pending with_delayed) (R.define name s)).1
          r
      → Drained name with_delayed r
  with_before name with_delayed present before r d m q (e, inl x) =
      (present, d, (m, inr (e, inl x)))
  with_before name with_delayed present before r d m q (e, inr (after, a, b)) =
      (present, d, (m, inr (e, inr (before, after, a, (q, b)))))

  counts_outcome :
      (name : Bytes) (with_delayed : Bool) (present : List Bytes)
      → R.discover s ≡ got present
      → mem_bytes name present ≡ true
      → (c : Answer Counts) → R.counts name (R.define name s) ≡ c
      → DrainOutcome name with_delayed (
          next
            (c, R.define name s)
            (λ before. λ t.
              next
                (R.change name (drain_pending with_delayed) t)
                (λ _. report name with_delayed before)))
  counts_outcome name with_delayed present d m (error e) q = inr (present, d, (m, inl (e, refl)))
  counts_outcome name with_delayed present d m (got before) q = inr (
      with_before name with_delayed present before _ d m q (
        report_outcome name with_delayed before
          (R.change name (drain_pending with_delayed) (R.define name s))))

  with_yes :
      (name : Bytes) (with_delayed : Bool) (r : Answer DrainResult × R.State)
      → DrainOutcome name with_delayed r
      → Refused R s r
        ⊎ ((asked : Bytes) × (◌≡◌ {A = List Bytes} (name ∷ []) (asked ∷ []))
            × ((◌≡◌ {A = Bool} true true) × Drained asked with_delayed r))
  with_yes name with_delayed r (inl h) = inl h
  with_yes name with_delayed r (inr h) = inr (name, refl, (refl, h))

  -- `mkqd drain` either fails with the state as it was, or it was given one queue and -yes, and the
  -- queue is there and was defined; then it fails, or one DrainPending with the flag -delayed follows.
  pub drain_outcome :
      (conf : Answer (List Bytes)) (yes_given with_delayed : Bool) (args : List Bytes)
      → Refused R s (cmd_drain R conf yes_given with_delayed args s)
        ⊎ ((name : Bytes) × (args ≡ name ∷ [])
            × ((yes_given ≡ true)
                × Drained name with_delayed (cmd_drain R conf yes_given with_delayed args s)))
  unfolding cmd_drain
  drain_outcome conf yes_given with_delayed [] = inl (_, refl)
  drain_outcome conf false with_delayed (name ∷ []) = inl (_, refl)
  drain_outcome conf true with_delayed (name ∷ []) = with_yes name with_delayed _ (
      open-elim R s (DrainOutcome name with_delayed) (λ e. inl (e, refl)) conf _
        (λ i c.
          queue-elim R s (DrainOutcome name with_delayed) (λ e. inl (e, refl)) i name _
            (λ m.
              counts_outcome name with_delayed i.present c m (R.counts name (R.define name s))
                refl)))
  drain_outcome conf yes_given with_delayed (_ ∷ _ ∷ _) = inl (_, refl)

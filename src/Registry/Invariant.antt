-- ===== src/Registry/Invariant.antt =====
-- The registry and the order of register.go name the same queues.
use mathlib.Core.Path.{subst}
use mkqd.Base.{
  ◌≡◌, ◌↔◌, ◌⊎◌, inl, inr, sym, true, some, List, [], ◌∷◌, ◌++◌, Bytes, bytes_eq_iff, lookup,
  is_some, lookup-insert, arith,
}
use mkqd.Config.Env.Dedupe.{In}
use mkqd.Registry.{Queues, Registration, add, register}

pub In-append :
    (s : Bytes) (xs : List Bytes) (x : Bytes) → In s (xs ++ (x ∷ [])) ↔ (In s xs ⊎ (s ≡ x))
In-append s [] x = ground arith
In-append s (y ∷ ys) x = ground (arith, In-append s ys x)

-- Every queue is filed under its own name, which is not empty where code filed it, and the order
-- lists exactly the queues that are filed.
pub record IsConsistent (s : Queues) : Type 0 where
  pub filed : (name : Bytes) (r : Registration) → lookup name s.registry ≡ some r → r.queue ≡ name
  pub listed : (name : Bytes) → (is_some (lookup name s.registry) ≡ true) ↔ In name s.order

pub add-IsConsistent : (s : Queues) (r : Registration) → IsConsistent s → IsConsistent (add s r)
add-IsConsistent s r v = record {
  filed = λ name q e.
      ground
        (arith, lookup-insert r.queue name r s.registry, bytes_eq_iff r.queue name, v.filed name q);
  listed = λ name. ground (
    arith,
    lookup-insert r.queue name r s.registry,
    bytes_eq_iff r.queue name,
    In-append name s.order r.queue,
    v.listed name,
  );
}

register-state :
    (s : Queues) (r : Registration) → ((register s r).0 ≡ s) ⊎ ((register s r).0 ≡ add s r)
unfolding register
register-state s r = ground arith

-- Registering keeps the registry consistent, also where it refuses.
pub register-IsConsistent :
    (s : Queues) (r : Registration) → IsConsistent s → IsConsistent (register s r).0
register-IsConsistent s r v = elim (register-state s r) [
  | inl same ↦ subst IsConsistent (sym same) v
  | inr added ↦ subst IsConsistent (sym added) (add-IsConsistent s r v)
]

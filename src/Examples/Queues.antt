-- ===== src/Examples/Queues.antt =====
-- The registry with one queue from code, and a configuration of two.
use mkqd.Base.{
  ◌≡◌, ◌↔◌, refl, none, some, Option, Bool, true, false, Bytes, codes, [], ◌∷◌, List, All, lookup,
  arith,
}
use mkqd.Config.{QueueConfig}
use mkqd.Examples.Settings.{queue_of}
use mkqd.Registry.Build.{build_keeps_code}
use mkqd.Registry.Invariant.{IsConsistent, register-IsConsistent}
use mkqd.Registry.{Queues, Registration, Factory, typed, register, build_configured_queues}
use mkqd.Tuning.{unset}

abbrev empty : Queues
empty = record { registry = []; order = []; started = false; warnings = [] }

abbrev mail : Registration
mail = record { queue = codes "mail"; tune = unset; start = typed 1; from_code = true }

empty-IsConsistent : IsConsistent empty
unfolding lookup
empty-IsConsistent = record { filed = λ name r e. cc; listed = λ name. ground arith }

mail-IsConsistent : IsConsistent (register empty mail).0
mail-IsConsistent = register-IsConsistent empty mail empty-IsConsistent

-- The executor type "http", which always builds executor 7.
abbrev factories : List (Bytes × Factory)
factories = (codes "http", λ name e. some 7) ∷ []

abbrev push : QueueConfig
push = record (queue_of (codes "push") none) {
  executor = some (record { type = codes "http"; node = none });
}

abbrev configured : List QueueConfig
configured = queue_of (codes "mail") none ∷ push ∷ []

build_keeps_code_example :
    lookup
      (codes "mail")
      (build_configured_queues factories (register empty mail).0 configured).0.registry
    ≡ some mail
unfolding register lookup mkqd.Base.insert mkqd.Base.bytes_eq
build_keeps_code_example =
    build_keeps_code factories configured (register empty mail).0 (codes "mail") mail refl refl

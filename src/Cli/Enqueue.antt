-- ===== src/Cli/Enqueue.antt =====
-- What cmdEnqueue does to Redis: nothing, or one job more, and a new queue only with -create.
use mkqd.Base.{
  ◌≡◌, refl, inl, inr, ◌⊎◌, Bool, true, false, not, List, [], ◌∷◌, Bytes, codes, mem_bytes, if-elim,
  arith,
}
use mkqd.Base.Int.{ltb_ℤ}
use mkqd.Cli.Admin.{
  EnqueueFlags, MutationResult, max_priority, add_options, enqueue_target, cmd_enqueue,
}
use mkqd.Cli.Changes.{Refused, answered}
use mkqd.Cli.Inspect.{Inspector}
use mkqd.Cli.Opening.{open-elim, queue-elim, refuse-elim}
use mkqd.Cli.Redis.{Answer, got, error, Cmd, next, Redis}
use mkqd.RetryAfter.Errors.{message}

abbrev pub enqueued : Bytes → Bytes → MutationResult
enqueued name id = record { queue = name; action = codes "enqueue"; id = id }

module _ (R : Redis) (s : R.State) where
  -- The job was added in state `s0`, and the command ended as that did.
  abbrev pub Added :
      R.State → EnqueueFlags → Bytes → Bytes → Answer MutationResult × R.State → Type 0
  Added s0 f name payload r = r ≡ answered (enqueued name) (R.add name payload (add_options f) s0)

  -- The job was added, to a queue that is there or with -create to a new one.
  abbrev pub Enqueued : EnqueueFlags → Bytes → Bytes → Answer MutationResult × R.State → Type 0
  Enqueued f name payload r =
      (present : List Bytes) × (R.discover s ≡ got present)
      × (((mem_bytes name present ≡ true) ⊎ ((mem_bytes name present ≡ false) × (f.create ≡ true)))
          × Added (R.define name s) f name payload r)

  abbrev EnqueueOutcome : EnqueueFlags → Bytes → Bytes → Answer MutationResult × R.State → Type 0
  EnqueueOutcome f name payload r = Refused R s r ⊎ Enqueued f name payload r

  abbrev Checked :
      (valid : Bool) → EnqueueFlags → Bytes → Bytes → Answer MutationResult × R.State → Type 0
  Checked valid f name payload r =
      Refused R s r
      ⊎ ((valid ≡ true) × ((ltb_ℤ max_priority f.rank ≡ false) × Enqueued f name payload r))

  checked :
      (f : EnqueueFlags) (name payload : Bytes) (valid : Bool) (r : Answer MutationResult × R.State)
      → not valid ≡ false
      → ltb_ℤ max_priority f.rank ≡ false
      → EnqueueOutcome f name payload r
      → Checked valid f name payload r
  checked f name payload valid r v h (inl e) = inl e
  checked f name payload valid r v h (inr d) = inr (ground (arith, v), (h, d))

  -- The rest of cmdEnqueue, once its queue is there.
  abbrev add_then : EnqueueFlags → Bytes → Bytes → Unit {0} → Cmd R.State MutationResult
  add_then f name payload _ s1 = answered (enqueued name) (R.add name payload (add_options f) s1)

  target_outcome :
      (f : EnqueueFlags) (i : Inspector) (name payload : Bytes)
      → R.discover s ≡ got i.present
      → EnqueueOutcome f name payload
          (next (enqueue_target R i f.create name s) (add_then f name payload))
  unfolding enqueue_target
  target_outcome f i name payload c =
      if-elim After (mem_bytes name i.present) _ _
        (λ m.
          queue-elim R s (EnqueueOutcome f name payload) (λ e. inl (e, refl)) i name
            (add_then f name payload) (λ _. inr (i.present, c, (inl m, refl))))
        (λ m.
          if-elim After (not f.create) (error (message (codes "does not exist")), s)
            (got tt, R.define name s) (λ _. inl (message (codes "does not exist"), refl))
            (λ h. inr (i.present, c, (inr (m, ground (arith, h)), refl))))
    where
      After : Answer (Unit {0}) × R.State → Type 0
      After r = EnqueueOutcome f name payload (next r (add_then f name payload))

  -- `mkqd enqueue` with a queue and a payload either fails with the state as it was, or the payload
  -- is JSON, the priority fits 32 bits, and the command ended as one Add with the options of its
  -- flags did, behind the Define of the queue, which is there or, only with -create, is not.
  pub enqueue_outcome :
      (json_valid : Bytes → Bool) (conf : Answer (List Bytes)) (f : EnqueueFlags)
      (name payload : Bytes)
      → Refused R s (cmd_enqueue R json_valid conf f (name ∷ payload ∷ []) s)
        ⊎ ((json_valid payload ≡ true)
            × ((ltb_ℤ max_priority f.rank ≡ false)
                × Enqueued f name payload
                    (cmd_enqueue R json_valid conf f (name ∷ payload ∷ []) s)))
  unfolding cmd_enqueue
  enqueue_outcome json_valid conf f name payload =
      refuse-elim R s (Checked (json_valid payload) f name payload) (λ e. inl (e, refl))
        (not (json_valid payload)) (message (codes "not valid JSON")) _
        (λ v.
          refuse-elim R s (Checked (json_valid payload) f name payload) (λ e. inl (e, refl))
            (ltb_ℤ max_priority f.rank) (message (codes "-priority")) _
            (λ h.
              open-elim R s (Checked (json_valid payload) f name payload) (λ e. inl (e, refl)) conf
                _
                (λ i c.
                  checked f name payload (json_valid payload) _ v h
                    (target_outcome f i name payload c))))

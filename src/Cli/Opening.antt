-- ===== src/Cli/Opening.antt =====
-- What a command that opens Redis meets: an error that changes nothing, or the queues of the state.
use mkqd.Base.{◌≡◌, refl, Bool, true, false, List, Bytes, mem_bytes, if-elim}
use mkqd.Cli.Inspect.{Inspector, queue, open_inspector}
use mkqd.RetryAfter.Errors.{Error}
use mkqd.Cli.Redis.{Answer, got, error, Cmd, next, refuse, Redis}

module _ (R : Redis) (s : R.State) where
  module _ {B : Type 0} (P : Answer B × R.State → Type 0)
      (fails : (e : Error) → P (error e, s)) where
    pub open-elim :
        (conf : Answer (List Bytes)) (f : Inspector → Cmd R.State B)
        → ((i : Inspector) → R.discover s ≡ got i.present → P (f i s))
        → P (next (open_inspector R conf s) f)
    unfolding open_inspector
    open-elim (error x) f h = fails x
    open-elim (got names) f h = by_answer (R.discover s) refl
      where
        by_answer :
            (a : Answer (List Bytes))
            → R.discover s ≡ a
            → P (
                next
                  (next
                    (a, s)
                    (λ present. (λ t. (got (record { present = present; conf_names = names }), t))))
                  f)
        by_answer (got present) e = h (record { present = present; conf_names = names }) e
        by_answer (error x) e = fails x

    pub queue-elim :
        (i : Inspector) (name : Bytes) (f : Unit {0} → Cmd R.State B)
        → (mem_bytes name i.present ≡ true → P (f tt (R.define name s)))
        → P (next (queue R i name s) f)
    unfolding queue
    queue-elim i name f h =
        if-elim (λ (r : Answer (Unit {0}) × R.State). P (next r f)) (mem_bytes name i.present) _ _ h
          (λ _. fails _)

    pub refuse-elim :
        (bad : Bool) (e : Error) (f : Unit {0} → Cmd R.State B)
        → (bad ≡ false → P (f tt s))
        → P (next (refuse bad e s) f)
    refuse-elim true e f h = fails e
    refuse-elim false e f h = h refl

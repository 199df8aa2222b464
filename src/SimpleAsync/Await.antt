-- ===== src/SimpleAsync/Await.antt =====
-- A coroutine that is resumed until it is ready does what the operation that waits does.
use remus_tutorial.Prelude.{
  ℕ, zero, suc, ◌≡◌, ◌∙◌, refl, sym, Bool, true, not, ◌&&◌, ◌==◌, if◌then◌else◌, Bool-cases, inl,
  inr, some, Option-cases, Outcome, done, abort, fault, diverge, ◌>>=◌, List, [], ◌∷◌, get_elem?,
}
use remus_tutorial.RdmaPtr.{RdmaPtr}
use remus_tutorial.RdmaOps.{handle, poll, poll_async, post, write_config}
use remus_tutorial.RdmaOps.Ibv.{Verbs, SendWr, blank}
use remus_tutorial.ComputeThread.{Machine}
use remus_tutorial.ComputeThread.Operations.{begin_op, stage, run_op, is_local, read, write}
use remus_tutorial.SimpleAsync.{
  Frame, ready, suspended, resume, await, run_async, read_async, write_async,
}

bind_assoc :
    {A B C : Type 0} (o : Outcome A) (f : A → Outcome B) (g : B → Outcome C)
    → (o >>= f >>= g) ≡ (o >>= λ a. f a >>= g)
bind_assoc (done a) f g = refl
bind_assoc abort f g = refl
bind_assoc fault f g = refl
bind_assoc diverge f g = refl

module _ {v : Verbs} {A : Type 0} (f : Frame A (Machine v)) where
  abbrev polled : Machine v → List ℕ → v.World → Machine v
  polled m counters w = record m { thread = record m.thread { op_counters_ = counters }; world = w }

  -- The loop, and what follows it.
  abbrev waited : ℕ → Machine v → Outcome (A × Machine v)
  waited fuel m = poll v fuel f.conn f.ack m.thread.op_counters_ m.world >>= λ (counters, w).
      f.rest (polled m counters w)

  -- One turn that does not find the end, for the coroutine and for the loop.
  after_turn :
      (fuel : ℕ) (m : Machine v) (w : v.World)
      → ((m' : Machine v) → await fuel (suspended f, m') ≡ waited fuel m')
      → (o : Outcome (List ℕ))
      → (o
          >>= (λ c. done (not true, c, w))
          >>= (λ (ended, c, w'). done (ended, polled m c w'))
          >>= (λ (ended, m').
              let finish = f.rest m' >>= λ (a, m''). done (ready a, m'') in
              if ended then finish else done (suspended f, m'))
          >>= await fuel)
        ≡ (o >>= (λ c. poll v fuel f.conn f.ack c w) >>= λ (c, w'). f.rest (polled m c w'))
  after_turn fuel m w same (done c) = same (polled m c w)
  after_turn fuel m w same abort = refl
  after_turn fuel m w same fault = refl
  after_turn fuel m w same diverge = refl

  finished :
      (fuel : ℕ) (o : Outcome (A × Machine v))
      → (o >>= (λ (a, m'). done (ready a, m')) >>= await fuel) ≡ o
  unfolding await
  finished fuel (done (a, m)) = refl
  finished fuel abort = refl
  finished fuel fault = refl
  finished fuel diverge = refl

  resume_turn :
      (fuel : ℕ) (m : Machine v)
      → ((m' : Machine v) → await fuel (suspended f, m') ≡ waited fuel m')
      → (resume f m >>= await fuel) ≡ waited (suc fuel) m
  unfolding resume poll poll_async
  resume_turn fuel m same = elim (Option-cases (get_elem? m.thread.op_counters_ f.ack)) [
    | inl missing ↦ rw (missing) refl
    | inr (value, found) ↦ elim (Bool-cases (value == 0)) [
      | inl ended ↦ rw (found, ended) (finished fuel (f.rest m))
      | inr going ↦
          rw (found, going)
            (after_turn fuel m (v.poll_cq f.conn m.world).1 same
              (handle v (v.poll_cq f.conn m.world).0 m.thread.op_counters_))
    ]
  ]

  resume-await : (fuel : ℕ) (m : Machine v) → (resume f m >>= await fuel) ≡ waited (suc fuel) m
  unfolding await poll
  resume-await zero m = resume_turn zero m (λ m'. refl)
  resume-await (suc fuel) m = resume_turn (suc fuel) m (resume-await fuel)

-- Binding on both sides.
bind_both :
    {A B C : Type 0} (o : Outcome A) (f : A → Outcome B) (g : B → Outcome C) (h : A → Outcome C)
    → ((a : A) → (f a >>= g) ≡ h a)
    → (o >>= f >>= g) ≡ (o >>= h)
bind_both (done a) f g h same = same a
bind_both abort f g h same = refl
bind_both fault f g h same = refl
bind_both diverge f g h same = refl

module _ {v : Verbs} (fuel : ℕ) where
  run_async-await :
      {A : Type 0} (wrs : List SendWr) (f : Frame A (Machine v)) (m : Machine v)
      → (run_async wrs f m >>= await fuel) ≡ (run_op (suc fuel) f.conn wrs f.ack m >>= f.rest)
  unfolding run_async run_op
  run_async-await wrs f m =
      bind_both (post v f.conn wrs f.ack m.thread.op_counters_ m.world)
        (λ (counters, w). resume f (polled f m counters w)) (await fuel)
        (λ (counters, w). waited f (suc fuel) (polled f m counters w))
        (λ (counters, w). resume-await f fuel (polled f m counters w))
      ∙ sym (
          bind_both (post v f.conn wrs f.ack m.thread.op_counters_ m.world) _ _ _ (λ (counters, w).
            bind_both (poll v (suc fuel) f.conn f.ack counters w) _ _ _ (λ (counters', w'). refl)))

  -- A read coroutine that is resumed until it is ready does what Read does, whatever the completions
  -- are and with every error: the same value, the same state. A turn is the poll of the first run.
  pub read_async-read :
      (sizeof_t alignof_t : ℕ) (ptr : RdmaPtr) (fence : Bool) (m : Machine v)
      → (read_async sizeof_t alignof_t ptr fence m >>= await fuel)
        ≡ read (suc fuel) sizeof_t alignof_t ptr fence m
  unfolding read_async read
  read_async-read sizeof_t alignof_t ptr fence m = bind_both (begin_op ptr m) _ _ _ (λ (r, m1).
      bind_both (stage sizeof_t alignof_t m1) _ _ _ (λ (buf, m2). run_async-await _ _ m2))

  -- The same of a write coroutine and Write, local or not.
  write_async-write :
      (sizeof_t alignof_t : ℕ) (ptr : RdmaPtr) (val : ℕ) (fence : Bool) (size : ℕ)
      (local_copy : Bool) (m : Machine v)
      → (write_async sizeof_t alignof_t ptr val fence size local_copy m >>= await fuel) ≡ (
          write (suc fuel) sizeof_t alignof_t ptr val fence size local_copy m >>= λ m'.
          done (tt, m'))
  unfolding write_async write await
  write_async-write sizeof_t alignof_t ptr val fence size local_copy m =
      elim (Bool-cases (local_copy && is_local ptr m)) [
        | inl here ↦ rw (here) refl
        | inr there ↦ rw (there) (
            bind_both (begin_op ptr m) _ _ _ (λ (r, m1).
              bind_both (stage size alignof_t m1) _ _ _ (λ (buf, m2).
                bind_both
                  (write_config v ptr val buf r.rkey r.lkey (some r.op_counter) sizeof_t size true
                    fence blank m2.world)
                  _ _ _ (λ (wr, w). run_async-await _ _ (record m2 { world = w }))))
            ∙ sym (
                bind_both (begin_op ptr m) _ _ _ (λ (r, m1).
                  bind_both (stage size alignof_t m1) _ _ _ (λ (buf, m2).
                    bind_both
                      (write_config v ptr val buf r.rkey r.lkey (some r.op_counter) sizeof_t size
                        true fence blank m2.world)
                      _ _ _
                      (λ (wr, w).
                        bind_both
                          (run_op (suc fuel) r.conn (wr ∷ []) r.op_counter
                            (record m2 { world = w }))
                          _ _ _ (λ m3. refl))))))
      ]

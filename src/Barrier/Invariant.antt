-- ===== src/Barrier/Invariant.antt =====
-- What every step of the barrier keeps.
use remus_tutorial.Prelude.{
  ℕ, ◌+◌, ◌-◌, ◌/◌, ◌%◌, ◌^◌, ◌<◌, ◌≡◌, ◌≢◌, ◌∙◌, inl, arith, refl, ap, sym, subst, u64,
}
use remus_tutorial.Barrier.{Place, Thread, System, put, leave, move}
use remus_tutorial.Barrier.Count.{
  put_self, put_ne, here, count, count_le, count_lt, count-zero, count-put, count_full,
}
use remus_tutorial.Barrier.Phases.{
  Stands, IsIn, LastAt, IsLast, Phase, put_all, here_outside, here_arrived, more-Stands, no_last,
  released, not_yet_last, not_here, last_here,
}

module _ {n k c : ℕ} {s : System} (ph : Phase n k c s) (i : ℕ) (i_in : i < n) where
  -- The place of a thread that is neither counted anew nor the last one.
  pub keep :
      (t : Thread)
      → IsIn n k c t
      → here k t ≡ here k (s.threads i)
      → ¬ IsLast n k (s.threads i)
      → ¬ IsLast n k t
      → Phase n k c (record { barrier = s.barrier; threads = put s.threads i t })
  keep t t_in same old new = record {
    word = ph.word;
    arrivals = omega (arith, ph.arrivals, count-put n k i s.threads t i_in);
    within = λ j j_in.
        put_all (λ m u. m < n → IsIn n k c u) s.threads i t (λ h. t_in) (λ m ne h. ph.within m h) j
          j_in;
    one_last = λ a b a_in b_in last_a last_b.
        ph.one_last a b a_in b_in (was_last a last_a) (was_last b last_b);
    some_last = λ full.
        let (j, j_in, last) = ph.some_last full in
        (
          j,
          j_in,
          subst (IsLast n k)
              (sym (
                put_ne s.threads i j t
                  (λ e. old (subst (λ m. IsLast n k (s.threads m)) (sym e) last))))
              last,
        );
  }
    where
      was_last : (j : ℕ) → IsLast n k (put s.threads i t j) → IsLast n k (s.threads j)
      was_last =
          put_all (λ m u. IsLast n k u → IsLast n k (s.threads m)) s.threads i t
            (λ last. absurd (new last)) (λ m ne last. last)

  -- An arrival.
  pub arrive :
      (s.threads i).place ≡ Place.outside
      → (s.threads i).passed ≡ k
      → n < 2 ^ 31
      → Phase n k (c + 1) (record {
        barrier = u64 (s.barrier + 2);
        threads = put s.threads i (move (s.threads i) (Place.arrived s.barrier));
      })
  arrive e now small =
      let t : Thread = move (s.threads i) (Place.arrived s.barrier) in
      let missing : c < n =
        omega
          (arith, ph.arrivals, count_lt n k i s.threads i_in (here_outside k (s.threads i) e)) in
      let only : (j : ℕ) → j < n → IsLast n k (put s.threads i t j) → i ≡ j = λ j j_in.
        put_all (λ m u. m < n → IsLast n k u → i ≡ m) s.threads i t (λ h last. refl)
          (λ m ne h last. absurd (omega (arith, no_last n k c _ _ (ph.within m h) last))) j j_in in
      record {
        word = omega (arith, ph.word);
        arrivals = omega (
          arith,
          ph.arrivals,
          count-put n k i s.threads t i_in,
          here_outside k (s.threads i) e,
          here_arrived k s.barrier (s.threads i).passed now,
        );
        within = λ j j_in.
            put_all (λ m u. m < n → IsIn n k (c + 1) u) s.threads i t
              (λ h. (omega (arith, ph.word), inl (now, omega (arith, ph.word))))
              (λ m ne h. more-Stands n k c _ _ (ph.within m h)) j j_in;
        one_last = λ a b a_in b_in last_a last_b. sym (only a a_in last_a) ∙ only b b_in last_b;
        some_last = λ full. (
          i,
          i_in,
          subst (IsLast n k) (sym (put_self s.threads i t)) (now, omega (arith, ph.word)),
        );
      }

  -- The last arrival opens the barrier.
  pub open_barrier :
      (was : ℕ)
      → (s.threads i).place ≡ Place.arrived was
      → was / 2 + 1 ≡ n
      → Phase n
          (k + 1)
          0
          (record { barrier = 1 - was % 2; threads = put s.threads i (leave (s.threads i)) })
  open_barrier was e all =
      let stands : Stands n k c (Place.arrived was) (s.threads i).passed =
        subst (λ p. Stands n k c p (s.threads i).passed) e (ph.within i i_in) in
      let (parity, now, lt) = last_here n k c was (s.threads i).passed stands all in
      let t : Thread = leave (s.threads i) in
      let full : count n k s.threads ≡ n = omega (arith, ph.arrivals, count_le n k s.threads) in
      let is_last : IsLast n k (s.threads i) =
        subst (λ p. LastAt n k p (s.threads i).passed) (sym e) (now, all) in
      let freed : (m : ℕ)
          → i ≢ m
          → m < n
          → Stands n (k + 1) 0 (s.threads m).place (s.threads m).passed
            × ((s.threads m).passed ≡ k) =
        λ m ne h.
          released n k c _ _ (omega (arith, ph.arrivals, count_le n k s.threads)) (ph.within m h)
            (count_full n k m s.threads full h)
            (λ last. ne (ph.one_last i m i_in h is_last last)) in
      let none_last : (j : ℕ) → j < n → ¬ IsLast n (k + 1) (put s.threads i t j) = λ j j_in.
        put_all (λ m u. m < n → ¬ IsLast n (k + 1) u) s.threads i t (λ h last. last)
          (λ m ne h. not_yet_last n k _ _ (freed m ne h).1) j j_in in
      record {
        word = omega arith;
        arrivals = count-zero n (k + 1) (put s.threads i t) (λ j j_in.
            put_all (λ m u. m < n → here (k + 1) u ≡ 0) s.threads i t (λ h. refl)
              (λ m ne h. not_here k (s.threads m) (freed m ne h).1) j j_in);
        within = λ j j_in.
            put_all (λ m u. m < n → IsIn n (k + 1) 0 u) s.threads i t (λ h. ap (λ m. m + 1) now)
              (λ m ne h. (freed m ne h).0) j j_in;
        one_last = λ a b a_in b_in last_a last_b. absurd (none_last a a_in last_a);
        some_last = λ zero_all. absurd (omega arith);
      }

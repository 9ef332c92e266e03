-- ===== src/Retry/Attempts.antt =====
-- lipas/retry.py: the loop ends, and at which attempt.
use lipas.Prelude.{
  ℕ_eq, String_eq, Option_eq, List_eq, Pair_eq, Result, ok, ℤ_eq, length, length-append, nat_eq,
  nat_eq_iff, Bool-cases, zero, ℕ, suc, ◌+◌, ◌≤◌, ◌<◌, String, ◌≡◌, refl, sym, ◌∙◌, ap, subst, ◌⊎◌,
  inl, inr, Bool, true, false, not, ◌&&◌, Option, none, some, List, [], ◌∷◌, ◌++◌, arith,
}
use lipas.Attempt.{◌>>=◌, ◌>>◌, guard, required}
use lipas.Adapter.Types.{Usage, no_usage, add_usage, Reply, StreamEvent, complete, has_visible}
use lipas.Adapter.Errors.{ErrorKind, classify, RetryPolicy}
use lipas.Retry.Loop.{
  RetryError, RetryOutcome, make_outcome, gives_up, rounds, call_with_retry, judged, decided,
}

module _ {F : Type 0} where
  -- The attempt is followed by another one: its reply is an error that its policy retries, nothing of it
  -- was visible to a listener, and its kind allows a further attempt.
  abbrev pub retries : Option ErrorKind → (ErrorKind → RetryPolicy F) → Bool → ℕ → Bool
  retries none policy visible_event i = false
  retries (some kind) policy visible_event i = not (gives_up visible_event (policy kind) (i + 1))

  retries-bound :
      (o : Option ErrorKind) (policy : ErrorKind → RetryPolicy F) (visible_event : Bool) (i n : ℕ)
      → ((k : ErrorKind) → (policy k).max_attempts ≤ n)
      → retries o policy visible_event i ≡ true
      → i + 1 < n
  retries-bound none policy visible_event i n bound h = absurd (cc h)
  retries-bound (some kind) policy visible_event i n bound h = ground (arith, bound kind)

  make_outcome-covers :
      (reply : Reply) (i : ℕ) (sum : Usage) (ceilings : List F)
      → make_outcome reply (i + 1) (add_usage sum reply.usage) ceilings
        ≡ ok (record {
          reply = reply;
          attempts = i + 1;
          total_usage = add_usage sum reply.usage;
          ceilings = ceilings;
        })
  unfolding make_outcome ◌>>◌ guard
  make_outcome-covers reply i sum ceilings = ground arith

module _ {F : Type 0} (scale : F → ℕ → F) (lower : String → String)
    (table : ErrorKind → Option (RetryPolicy F)) (listens : Bool) (provider : ℕ → List StreamEvent)
    (reply : ℕ → Reply) (policy : ErrorKind → RetryPolicy F) where
  abbrev pub is_retried : ℕ → Bool
  is_retried i = retries (classify lower (reply i)) policy (listens && has_visible (provider i)) i

  -- The usage of the first attempts.
  abbrev pub usage_of : ℕ → Usage
  usage_of zero = no_usage
  usage_of (suc i) = add_usage (usage_of i) (reply i).usage

  pub record IsLast (m : ℕ) (o : RetryOutcome F) : Type 0 where
    pub before : (i : ℕ) → i < m → is_retried i ≡ true
    pub ends : is_retried m ≡ false
    pub replied : o.reply ≡ reply m
    pub counted : o.attempts ≡ m + 1
    pub billed : o.total_usage ≡ usage_of (m + 1)
    pub slept : length o.ceilings ≡ m

  usage_next : (i : ℕ) → usage_of (i + 1) ≡ add_usage (usage_of i) (reply i).usage
  usage_next i = let next : i + 1 ≡ suc i = omega arith in ap usage_of next

  -- What a round comes to.
  abbrev pub Ended : ℕ → Usage → List F → Result RetryError (RetryOutcome F) → Type 0
  Ended i sum ceilings m =
      (is_retried i ≡ false)
      × (m
          ≡ ok (record {
            reply = reply i;
            attempts = i + 1;
            total_usage = add_usage sum (reply i).usage;
            ceilings = ceilings;
          }))

  abbrev pub Goes :
      Option ErrorKind
      → ℕ
      → List F
      → (List F → Result RetryError (RetryOutcome F))
      → Result RetryError (RetryOutcome F)
      → Type 0
  Goes o i ceilings again m =
      (delay : F) × (retries o policy (listens && has_visible (provider i)) i ≡ true)
      × (m ≡ again (ceilings ++ delay ∷ []))

  judged-cases :
      ((k : ErrorKind) → table k ≡ some (policy k))
      → (o : Option ErrorKind) (i : ℕ) (sum : Usage) (ceilings : List F)
        (again : List F → Result RetryError (RetryOutcome F))
      → ((retries o policy (listens && has_visible (provider i)) i ≡ false)
          × (judged scale lower table listens provider o
                (reply i)
                i
                (add_usage sum (reply i).usage)
                ceilings
                again
              ≡ ok (record {
                reply = reply i;
                attempts = i + 1;
                total_usage = add_usage sum (reply i).usage;
                ceilings = ceilings;
              })))
        ⊎ Goes o i ceilings again (
            judged scale lower table listens provider o
              (reply i)
              i
              (add_usage sum (reply i).usage)
              ceilings
              again)
  unfolding ◌>>=◌ required
  judged-cases covered none i sum ceilings again =
      inl (refl, make_outcome-covers (reply i) i sum ceilings)
  judged-cases covered (some kind) i sum ceilings again =
      rw (covered kind)
        (elim (gives_up (listens && has_visible (provider i)) (policy kind) (i + 1))
          as (λ b.
            ((not b ≡ false)
              × (decided scale lower table listens provider b (policy kind).base_delay (reply i) i
                    (add_usage sum (reply i).usage) ceilings again
                  ≡ ok (record {
                    reply = reply i;
                    attempts = i + 1;
                    total_usage = add_usage sum (reply i).usage;
                    ceilings = ceilings;
                  })))
            ⊎ ((delay : F) × (not b ≡ true)
                × (decided scale lower table listens provider b (policy kind).base_delay (reply i) i
                      (add_usage sum (reply i).usage) ceilings again
                    ≡ again (ceilings ++ delay ∷ [])))) [
                      | true ↦ inl (refl, make_outcome-covers (reply i) i sum ceilings)
                      | false ↦ inr (scale (policy kind).base_delay i, refl, refl)
                    ])

  -- From any round whose attempts so far were retried, with fuel for the attempts that the policies
  -- allow, the loop returns the outcome of the first attempt that is not retried.
  rounds-IsLast :
      ((i : ℕ) → complete (provider i) ≡ some (reply i))
      → ((k : ErrorKind) → table k ≡ some (policy k))
      → (n : ℕ) → ((k : ErrorKind) → (policy k).max_attempts ≤ n)
      → (fuel i : ℕ) (sum : Usage) (ceilings : List F) → sum ≡ usage_of i
      → n ≤ i + fuel
      → i < n
      → length ceilings ≡ i
      → ((k : ℕ) → k < i → is_retried k ≡ true)
      → (m : ℕ) × (m < n)
        × (o : RetryOutcome F) × (rounds scale lower table listens provider fuel i sum ceilings
            ≡ ok o)
        × IsLast m o
  unfolding rounds ◌>>=◌ required
  rounds-IsLast answers covered n bound zero i sum ceilings so_far enough here slept before =
      absurd (omega arith)
  rounds-IsLast answers covered n bound (suc fuel) i sum ceilings so_far enough here slept before =
      elim (judged-cases covered (classify lower (reply i)) i sum ceilings (λ c.
        rounds scale lower table listens provider fuel (i + 1) (add_usage sum (reply i).usage) c)) [
          | inl (stop, returned) ↦ (
            i,
            here,
            _,
            rw (answers i) returned,
            record {
              before = before;
              ends = stop;
              replied = refl;
              counted = refl;
              billed = ap (λ u. add_usage u (reply i).usage) so_far ∙ sym (usage_next i);
              slept = slept;
            },
          )
          | inr (delay, again, continued) ↦
              let more =
                retries-bound (classify lower (reply i)) policy
                  (listens && has_visible (provider i)) i n bound again in
              let (m, below, o, returned, last) =
                rounds-IsLast answers covered n bound fuel (i + 1) (add_usage sum (reply i).usage)
                  (ceilings ++ delay ∷ [])
                  (ap (λ u. add_usage u (reply i).usage) so_far ∙ sym (usage_next i)) (omega arith)
                  more (length-append ceilings (delay ∷ []) ∙ omega (arith, slept))
                  (λ k lt. elim (Bool-cases (nat_eq k i)) [
                    | inl same ↦
                        subst (λ x. is_retried x ≡ true) (sym ((nat_eq_iff k i).0 same)) again
                    | inr other ↦ before k (ground (arith, lt, other, nat_eq_iff k i))
                  ]) in
              (m, below, o, rw (answers i) (continued ∙ returned), last)
        ]

  -- If every stream of the provider ends with a reply, the policy table is whole, and every policy allows
  -- at most `n` attempts, then the loop ends within `n` attempts: `call_with_retry` returns the outcome
  -- of the first attempt that is not retried, with the number of attempts up to it, the sum of the usage
  -- of all of them, and one delay before each attempt but the first. An attempt is retried just when
  -- its reply is an error of a kind whose policy retries and allows a further attempt, and no
  -- listener has seen output of it.
  pub call_with_retry-IsLast :
      ((i : ℕ) → complete (provider i) ≡ some (reply i))
      → ((k : ErrorKind) → table k ≡ some (policy k))
      → (n : ℕ) → 0 < n
      → ((k : ErrorKind) → (policy k).max_attempts ≤ n)
      → (m : ℕ) × (m < n)
        × (o : RetryOutcome F) × (call_with_retry scale lower table listens provider n ≡ ok o)
        × IsLast m o
  unfolding call_with_retry
  call_with_retry-IsLast answers covered n some_ bound =
      rounds-IsLast answers covered n bound n 0 no_usage [] refl (omega arith) some_ refl
        (λ k lt. absurd (omega arith))

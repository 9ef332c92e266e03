-- ===== src/Execution/Invariants.antt =====
-- lipas/execution.py: what holds of the run table after any sequence of calls.
use lipas.Prelude.{
  ◌==◌, ℕ_eq, String_eq, Option_eq, List_eq, Pair_eq, eq_of_beq, Eq, Result-cases, ok, err, ℤ_eq,
  all, Bool-cases, ℕ, String, ◌≡◌, refl, sym, ◌∙◌, ap, subst, inl, inr, Bool, true, false, Option,
  none, some, List, [], ◌∷◌, arith,
}
use lipas.Dict.{Dict, IsDict, get, put, exists, get-put, put-IsDict, exists-false}
use lipas.Execution.Model.{Exec, is_active, is_running, Run, Db, Json_eq}
use lipas.Execution.Steps.{is_rival, holds_lease}
use lipas.Execution.Runs.{new_run, claimable}
use lipas.Execution.Finish.{Mapping, is_uncertain}
use lipas.Execution.Change.{
  Step, claims, renews, saves, suspends, resumes, denies, completes, fails, stops, reopens, asks,
  cancels, IsFree, Change, keeps, adds, moves,
}
use lipas.Execution.Command.{Command, execute, execute-Change}

abbrev pub is_some : {A : Type 0} → Option A → Bool
is_some none = false
is_some (some a) = true

module _ {P : Type 0} ⦃e : Eq P⦄ ⦃j : Mapping P⦄ where
  -- A run has a lease token and an expiry just while it runs.
  abbrev pub IsLeased : Run P → Type 0
  IsLeased r =
      (is_some r.lease_token ≡ is_running r.state) × (is_some r.lease_expires ≡ is_running r.state)

  abbrev pub AllRuns : (Run P → Type 0) → Dict String (Run P) → Type 0
  AllRuns Q runs = (id : String) (r : Run P) → get id runs ≡ some r → Q r

  -- No two active runs share a task.
  abbrev pub IsExclusive : Dict String (Run P) → Type 0
  IsExclusive runs =
      (a b : String) (r s : Run P)
      → get a runs ≡ some r
      → get b runs ≡ some s
      → is_active r.state ≡ true
      → is_active s.state ≡ true
      → r.task_id ≡ s.task_id
      → a ≡ b

  pub record IsSound (runs : Dict String (Run P)) : Type 0 where
    pub distinct : IsDict runs
    pub leased_runs : AllRuns IsLeased runs
    pub exclusive : IsExclusive runs

  holds-IsLeased :
      (token : String) (now : ℕ) (r : Run P)
      → holds_lease token now r ≡ true
      → is_running r.state ≡ true
  unfolding holds_lease
  holds-IsLeased token now r h = ground arith

  failed-IsLeased :
      (r : Run P)
      → is_uncertain r ≡ true
      → IsLeased r
      → (is_some r.lease_token ≡ false) × (is_some r.lease_expires ≡ false)
  unfolding is_uncertain
  failed-IsLeased r unsure h = ground arith

  Step-IsLeased : (r s : Run P) → Step r s → IsLeased r → IsLeased s
  unfolding claimable
  Step-IsLeased r s (claims token seconds now may same) h = subst IsLeased (sym same) (refl, refl)
  Step-IsLeased r s (renews token seconds now holds same) h =
      subst IsLeased (sym same) (h.0, ground (arith, holds-IsLeased token now r))
  Step-IsLeased r s (saves token now holds same) h = subst IsLeased (sym same) h
  Step-IsLeased r s (suspends token now holds same) h = subst IsLeased (sym same) (refl, refl)
  Step-IsLeased r s (resumes now waits same) h = subst IsLeased (sym same) (ground arith)
  Step-IsLeased r s (denies now waits same) h = subst IsLeased (sym same) (ground arith)
  Step-IsLeased r s (completes token now value holds calm same) h =
      subst IsLeased (sym same) (refl, refl)
  Step-IsLeased r s (fails token now value holds same) h = subst IsLeased (sym same) (refl, refl)
  Step-IsLeased r s (stops token now holds asked same) h = subst IsLeased (sym same) (refl, refl)
  Step-IsLeased r s (reopens now unsure same) h =
      subst IsLeased (sym same) (failed-IsLeased r unsure h)
  Step-IsLeased r s (asks now runs same) h = subst IsLeased (sym same) h
  Step-IsLeased r s (cancels now active idle same) h = subst IsLeased (sym same) (refl, refl)

  -- A written row keeps a property of all rows.
  put-AllRuns :
      (Q : Run P → Type 0) (id : String) (s : Run P) (runs : Dict String (Run P))
      → AllRuns Q runs
      → Q s
      → AllRuns Q (put id s runs)
  put-AllRuns Q id s runs all q k r got = elim (Bool-cases (id == k)) [
    | inl same ↦ subst Q (ground (arith, get-put id k s runs)) q
    | inr other ↦ all k r (ground (arith, get-put id k s runs))
  ]

  -- The index refuses a row whose task another active row has.
  rival_is_self :
      (id k : String) (s r : Run P) (runs : Dict String (Run P))
      → IsFree id s runs
      → is_active s.state ≡ true
      → get k runs ≡ some r
      → is_active r.state ≡ true
      → r.task_id ≡ s.task_id
      → k ≡ id
  rival_is_self id k s r runs free active got active_r same =
      let no_rival : exists (is_rival id s) runs ≡ false = ground arith in
      ground (
        arith,
        exists-false (is_rival id s) runs k r no_rival got,
        String_eq.eqb_iff k id,
        String_eq.eqb_iff r.task_id s.task_id,
      )

  put_self :
      (id k : String) (s r : Run P) (runs : Dict String (Run P))
      → (id == k) ≡ true
      → get k (put id s runs) ≡ some r
      → r ≡ s
  put_self id k s r runs same got = ground (arith, get-put id k s runs)

  put_other :
      (id k : String) (s r : Run P) (runs : Dict String (Run P))
      → (id == k) ≡ false
      → get k (put id s runs) ≡ some r
      → get k runs ≡ some r
  put_other id k s r runs other got = ground (arith, get-put id k s runs)

  -- The written row and another active row of its task are the same.
  put_rival :
      (id k : String) (s r t : Run P) (runs : Dict String (Run P))
      → IsFree id s runs
      → r ≡ s
      → is_active r.state ≡ true
      → get k runs ≡ some t
      → is_active t.state ≡ true
      → r.task_id ≡ t.task_id
      → k ≡ id
  put_rival id k s r t runs free is_s active got active_t same =
      rival_is_self id k s t runs free (subst (λ x. is_active x.state ≡ true) is_s active) got
        active_t (sym same ∙ ap (λ x. x.task_id) is_s)

  -- A row that the index accepts keeps the active runs apart.
  put-IsExclusive :
      (id : String) (s : Run P) (runs : Dict String (Run P))
      → IsExclusive runs
      → IsFree id s runs
      → IsExclusive (put id s runs)
  put-IsExclusive id s runs apart free a b r t got_a got_b active_a active_b same =
      elim (Bool-cases (id == a)) [
        | inl is_a ↦ elim (Bool-cases (id == b)) [
          | inl is_b ↦ sym (eq_of_beq id a is_a) ∙ eq_of_beq id b is_b
          | inr not_b ↦
              sym (eq_of_beq id a is_a)
              ∙ sym (
                  put_rival id b s r t runs free (put_self id a s r runs is_a got_a) active_a
                    (put_other id b s t runs not_b got_b) active_b same)
        ]
        | inr not_a ↦ elim (Bool-cases (id == b)) [
          | inl is_b ↦
              put_rival id a s t r runs free (put_self id b s t runs is_b got_b) active_b
                (put_other id a s r runs not_a got_a) active_a (sym same)
              ∙ eq_of_beq id b is_b
          | inr not_b ↦
              apart a b r t (put_other id a s r runs not_a got_a)
                (put_other id b s t runs not_b got_b) active_a active_b same
        ]
      ]

  put-IsSound :
      (id : String) (s : Run P) (runs : Dict String (Run P))
      → IsSound runs
      → IsFree id s runs
      → IsLeased s
      → IsSound (put id s runs)
  put-IsSound id s runs h free shape = record {
    distinct = put-IsDict id s runs h.distinct;
    leased_runs = put-AllRuns IsLeased id s runs h.leased_runs shape;
    exclusive = put-IsExclusive id s runs h.exclusive free;
  }

  Change-IsSound :
      (runs runs' : Dict String (Run P)) → Change runs runs' → IsSound runs → IsSound runs'
  Change-IsSound runs runs' (keeps same) h = subst IsSound (sym same) h
  Change-IsSound runs runs' (adds id task_id now new free same) h =
      subst IsSound (sym same) (put-IsSound id (new_run task_id now) runs h free (refl, refl))
  Change-IsSound runs runs' (moves id r s got free same step) h =
      subst IsSound (sym same)
        (put-IsSound id s runs h free (Step-IsLeased r s step (h.leased_runs id r got)))

  -- Calls in any order, each at its time; a call that raises leaves the tables as they were.
  abbrev pub after_call : Db P → Exec (Db P) → Db P
  after_call db (err x) = db
  after_call db (ok d) = d

  unfoldable pub run_calls : List (Command P × ℕ) → Db P → Db P
  run_calls [] db = db
  run_calls ((c, now) ∷ calls) db = run_calls calls (after_call db (execute c now db))

  -- From a sound run table, whatever the calls, in whatever order and at whatever times, the run
  -- table stays sound: its ids are distinct, a run has a lease token and an expiry exactly while
  -- it is running, and no task has two runs that are pending, running or waiting. A call that
  -- raises changes nothing.
  pub run_calls-IsSound :
      (calls : List (Command P × ℕ)) (db : Db P)
      → IsSound db.runs
      → IsSound (run_calls calls db).runs
  unfolding run_calls
  run_calls-IsSound [] db h = h
  run_calls-IsSound ((c, now) ∷ calls) db h =
      run_calls-IsSound calls (after_call db (execute c now db))
        (elim (Result-cases (execute c now db)) [
          | inl (d, returned) ↦
              subst (λ r. IsSound (after_call db r).runs) (sym returned)
                (Change-IsSound db.runs d.runs (execute-Change c now db d h.distinct returned) h)
          | inr (x, raised) ↦ subst (λ r. IsSound (after_call db r).runs) (sym raised) h
        ])

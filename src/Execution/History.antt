-- ===== src/Execution/History.antt =====
-- lipas/execution.py: what a call can do to the row of one run.
use lipas.Prelude.{
  ◌==◌, ℕ_eq, String_eq, Option_eq, List_eq, Pair_eq, eq_of_beq, Eq, ok, ℤ_eq, Bool-cases, ℕ, ◌≤◌,
  String, ◌≡◌, refl, sym, ◌∙◌, ap, subst, inl, inr, Bool, true, false, not, some, arith,
}
use lipas.Dict.{Dict, IsDict, get, get-put, has_of_get}
use lipas.Execution.Model.{
  completed, failed, cancelled, is_active, is_running, is_waiting, Run, Db, Json_eq,
}
use lipas.Execution.Steps.{holds_lease}
use lipas.Execution.Runs.{new_run, claimable}
use lipas.Execution.Finish.{Mapping, is_uncertain}
use lipas.Execution.Change.{
  Step, claims, renews, saves, suspends, resumes, denies, completes, fails, stops, reopens, asks,
  cancels, Change, keeps, adds, moves,
}
use lipas.Execution.Command.{Command, execute, execute-Change}

module _ {P : Type 0} ⦃e : Eq P⦄ ⦃j : Mapping P⦄ where
  -- The run ended: it completed, it was cancelled, or it failed with a known outcome.
  unfoldable pub is_final : Run P → Bool
  is_final r = elim r.state [
    | completed ↦ true
    | cancelled ↦ true
    | failed ↦ not (is_uncertain r)
    | _ ↦ false
  ]

  final-holds :
      (r : Run P) (token : String) (now : ℕ) → is_final r ≡ true → holds_lease token now r ≡ false
  unfolding is_final holds_lease
  final-holds r token now final = ground arith

  final-claimable : (r : Run P) (now : ℕ) → is_final r ≡ true → claimable now r ≡ false
  unfolding is_final claimable
  final-claimable r now final = ground arith

  final-idle :
      (r : Run P)
      → is_final r ≡ true
      → (is_active r.state ≡ false)
        × (is_running r.state ≡ false)
        × (is_waiting r.state ≡ false)
        × (is_uncertain r ≡ false)
  unfolding is_final is_uncertain
  final-idle r final = ground arith

  -- No transition leaves an ended run.
  no-Step_from_final : (r s : Run P) → is_final r ≡ true → Step r s → ⊥
  no-Step_from_final r s final (claims token seconds now may same) =
      ground (arith, final-claimable r now)
  no-Step_from_final r s final (renews token seconds now holds same) =
      ground (arith, final-holds r token now)
  no-Step_from_final r s final (saves token now holds same) =
      ground (arith, final-holds r token now)
  no-Step_from_final r s final (suspends token now holds same) =
      ground (arith, final-holds r token now)
  no-Step_from_final r s final (resumes now waits same) = ground (arith, final-idle r)
  no-Step_from_final r s final (denies now waits same) = ground (arith, final-idle r)
  no-Step_from_final r s final (completes token now value holds calm same) =
      ground (arith, final-holds r token now)
  no-Step_from_final r s final (fails token now value holds same) =
      ground (arith, final-holds r token now)
  no-Step_from_final r s final (stops token now holds asked same) =
      ground (arith, final-holds r token now)
  no-Step_from_final r s final (reopens now unsure same) = ground (arith, final-idle r)
  no-Step_from_final r s final (asks now runs same) = ground (arith, final-idle r)
  no-Step_from_final r s final (cancels now active idle same) = ground (arith, final-idle r)

  -- A later row of the same run.
  pub record IsLater (r s : Run P) : Type 0 where
    pub same_task : s.task_id ≡ r.task_id
    pub same_creation : s.created_at ≡ r.created_at
    pub attempts : r.attempt ≤ s.attempt
    pub checkpoints : r.checkpoint_version ≤ s.checkpoint_version

  IsLater-refl : (r : Run P) → IsLater r r
  IsLater-refl r = record {
    same_task = refl;
    same_creation = refl;
    attempts = omega arith;
    checkpoints = omega arith;
  }

  moved_row :
      (r s : Run P)
      → s.task_id ≡ r.task_id
      → s.created_at ≡ r.created_at
      → s.attempt ≡ r.attempt
      → r.checkpoint_version ≤ s.checkpoint_version
      → IsLater r s
  moved_row r s task creation attempt version = record {
    same_task = task;
    same_creation = creation;
    attempts = omega (arith, attempt);
    checkpoints = version;
  }

  Step-IsLater : (r s : Run P) → Step r s → IsLater r s
  Step-IsLater r s (claims token seconds now may same) = subst (IsLater r) (sym same) (record {
    same_task = refl;
    same_creation = refl;
    attempts = omega arith;
    checkpoints = omega arith;
  })
  Step-IsLater r s (renews token seconds now holds same) =
      subst (IsLater r) (sym same) (moved_row r _ refl refl refl (omega arith))
  Step-IsLater r s (saves token now holds same) =
      subst (IsLater r) (sym same) (moved_row r _ refl refl refl (omega arith))
  Step-IsLater r s (suspends token now holds same) =
      subst (IsLater r) (sym same) (moved_row r _ refl refl refl (omega arith))
  Step-IsLater r s (resumes now waits same) =
      subst (IsLater r) (sym same) (moved_row r _ refl refl refl (omega arith))
  Step-IsLater r s (denies now waits same) =
      subst (IsLater r) (sym same) (moved_row r _ refl refl refl (omega arith))
  Step-IsLater r s (completes token now value holds calm same) =
      subst (IsLater r) (sym same) (moved_row r _ refl refl refl (omega arith))
  Step-IsLater r s (fails token now value holds same) =
      subst (IsLater r) (sym same) (moved_row r _ refl refl refl (omega arith))
  Step-IsLater r s (stops token now holds asked same) =
      subst (IsLater r) (sym same) (moved_row r _ refl refl refl (omega arith))
  Step-IsLater r s (reopens now unsure same) =
      subst (IsLater r) (sym same) (moved_row r _ refl refl refl (omega arith))
  Step-IsLater r s (asks now runs same) =
      subst (IsLater r) (sym same) (moved_row r _ refl refl refl (omega arith))
  Step-IsLater r s (cancels now active idle same) =
      subst (IsLater r) (sym same) (moved_row r _ refl refl refl (omega arith))

  -- What a change of the table does to one row.
  row_after :
      (Q : Run P → Type 0) (id : String) (r : Run P) (runs runs' : Dict String (Run P))
      → get id runs ≡ some r
      → Q r
      → ((s : Run P) → Step r s → Q s)
      → Change runs runs'
      → (s : Run P) × (get id runs' ≡ some s) × Q s
  row_after Q id r runs runs' got q step (keeps same) = (r, rw (same) got, q)
  row_after Q id r runs runs' got q step (adds k task_id now new free same) =
      let other : (k == id) ≡ false =
        ground (arith, String_eq.eqb_iff k id, has_of_get id runs r got) in
      (r, rw (same, get-put k id (new_run task_id now) runs, other) got, q)
  row_after Q id r runs runs' got q step (moves k t s got_k free same moved_t) =
      elim (Bool-cases (k == id)) [
        | inl is_k ↦
            let is_t : t ≡ r = ground (arith, eq_of_beq k id is_k) in
            (
              s,
              rw (same, get-put k id s runs, is_k) refl,
              step s (subst (λ x. Step x s) is_t moved_t),
            )
        | inr other ↦ (r, rw (same, get-put k id s runs, other) got, q)
      ]

  -- On a run table whose ids are distinct, no call that returns removes a run, moves it to another
  -- task, changes its creation time, or lowers its attempt or its checkpoint version.
  pub execute-IsLater :
      (c : Command P) (now : ℕ) (db d : Db P) (id : String) (r : Run P)
      → IsDict db.runs
      → get id db.runs ≡ some r
      → execute c now db ≡ ok d
      → (s : Run P) × (get id d.runs ≡ some s) × IsLater r s
  execute-IsLater c now db d id r distinct got returned =
      row_after (IsLater r) id r db.runs d.runs got (IsLater-refl r) (Step-IsLater r)
        (execute-Change c now db d distinct returned)

  -- On a run table whose ids are distinct, a run that completed, was cancelled, or failed without
  -- asking for recovery keeps its row: no call that returns, whatever it is and whoever makes it,
  -- changes any of its columns.
  pub final_run_stays :
      (c : Command P) (now : ℕ) (db d : Db P) (id : String) (r : Run P)
      → IsDict db.runs
      → get id db.runs ≡ some r
      → is_final r ≡ true
      → execute c now db ≡ ok d
      → get id d.runs ≡ some r
  final_run_stays c now db d id r distinct got final returned =
      let (s, there, same) =
        row_after (λ s. s ≡ r) id r db.runs d.runs got refl
          (λ s step. absurd (no-Step_from_final r s final step))
          (execute-Change c now db d distinct returned) in
      there ∙ ap some same

-- ===== src/Execution/Fencing.antt =====
-- lipas/execution.py: the lease fences the workers that do not hold it.
use lipas.Prelude.{
  refl, ◌==◌, ℕ_eq, String_eq, Option_eq, List_eq, Pair_eq, beq_refl, Eq, ok, ℤ_eq, ℕ, ◌+◌, ◌<◌,
  String, ◌≡◌, ◌∙◌, ap, false, Option, none, some, arith, true, err,
}
use lipas.Attempt.{◌>>=◌, Post, Post-value, Post-bind, Post-guard, Post-weaken, raises}
use lipas.Dict.{get, get-put}
use lipas.Execution.Model.{Exec, Run, Db, Json_eq}
use lipas.Execution.Steps.{holds_lease, require_lease, get_run}
use lipas.Execution.Runs.{claimable, leased}
use lipas.Execution.Finish.{Mapping}
use lipas.Execution.Command.{Command, execute}
use lipas.Execution.Runs.{claim_run as op_claim_run, renew_lease as op_renew_lease}
use lipas.Execution.Progress.{save_checkpoint as op_save_checkpoint, suspend as op_suspend}
use lipas.Execution.Finish.{
  complete_run as op_complete_run, fail_run as op_fail_run, finish_cancelled as op_finish_cancelled,
}
use lipas.Execution.Inversion.{
  Post-integrity, found-eq-ok, require_lease-eq-ok, write_run-eq-ok, record_audit_event-runs,
}
use lipas.Execution.Command.{
  claim_run, renew_lease, save_checkpoint, suspend, complete_run, fail_run, finish_cancelled,
  create_task, create_run, resolve_interrupt, reopen_uncertain, request_cancel, cancel_task,
}

module _ {P : Type 0} where
  -- The run and the lease token that a call presents.
  abbrev pub presents : Command P → Option (String × String)
  presents (renew_lease id token seconds) = some (id, token)
  presents (save_checkpoint id token version phase state) = some (id, token)
  presents (suspend id token version phase state kind request interrupt) = some (id, token)
  presents (complete_run id token value) = some (id, token)
  presents (fail_run id token error) = some (id, token)
  presents (finish_cancelled id token) = some (id, token)
  presents _ = none

presented :
    (a b id token : String)
    → Path (Option (String × String)) (some (a, b)) (some (id, token))
    → (a ≡ id) × (b ≡ token)
presented a b id token same = ground arith

module _ {P : Type 0} ⦃e : Eq P⦄ ⦃j : Mapping P⦄ where
  abbrev Fails : Db P → Type 0
  Fails d = ⊥

  pub raises-Post : (m : Exec (Db P)) → Post Fails m → raises m ≡ true
  raises-Post (err x) h = refl
  raises-Post (ok d) h = absurd (Post-value h refl)

  stale_lease :
      (id token : String) (now : ℕ) (db : Db P) (r run : Run P)
      → get id db.runs ≡ some r
      → holds_lease token now r ≡ false
      → require_lease id token now db ≡ ok run
      → ⊥
  stale_lease id token now db r run got stale held =
      let (there, holds) = require_lease-eq-ok id token now db held in
      ground (arith, there, holds, got, stale)

  -- The start of a call whose lease test fails.
  no_lease :
      {A : Type 0} (Q : A → Type 0) (id token : String) (now : ℕ) (db : Db P) (r : Run P)
      (rest : Run P → Exec A)
      → get id db.runs ≡ some r
      → holds_lease token now r ≡ false
      → Post Q (require_lease id token now db >>= rest)
  no_lease Q id token now db r rest got stale =
      Post-bind _ _ λ run held. absurd (stale_lease id token now db r run got stale held)

  stale_call :
      (c : Command P) (id token : String) (now : ℕ) (db : Db P) (r : Run P)
      → presents c ≡ some (id, token)
      → get id db.runs ≡ some r
      → holds_lease token now r ≡ false
      → Post Fails (execute c now db)
  unfolding execute op_renew_lease op_save_checkpoint op_suspend op_complete_run op_fail_run
      op_finish_cancelled
  stale_call (renew_lease a b seconds) id token now db r same got stale =
      let (is_id, is_token) = presented a b id token same in
      Post-guard _ _ _ λ _.
        Post-bind _ _ λ _ _. no_lease Fails a b now db r _ (rw (is_id) got) (rw (is_token) stale)
  stale_call (save_checkpoint a b version phase state) id token now db r same got stale =
      let (is_id, is_token) = presented a b id token same in
      Post-bind _ _ λ _ _. no_lease Fails a b now db r _ (rw (is_id) got) (rw (is_token) stale)
  stale_call (suspend a b version phase state kind request interrupt) id token now db r same got
        stale =
      let (is_id, is_token) = presented a b id token same in
      Post-bind _ _ λ _ _. Post-bind _ _ λ _ _. Post-bind _ _ λ _ _.
        Post-integrity _ (no_lease Fails a b now db r _ (rw (is_id) got) (rw (is_token) stale))
  stale_call (complete_run a b value) id token now db r same got stale =
      let (is_id, is_token) = presented a b id token same in
      no_lease Fails a b now db r _ (rw (is_id) got) (rw (is_token) stale)
  stale_call (fail_run a b value) id token now db r same got stale =
      let (is_id, is_token) = presented a b id token same in
      no_lease Fails a b now db r _ (rw (is_id) got) (rw (is_token) stale)
  stale_call (finish_cancelled a b) id token now db r same got stale =
      let (is_id, is_token) = presented a b id token same in
      no_lease Fails a b now db r _ (rw (is_id) got) (rw (is_token) stale)
  stale_call (create_task a b c d) id token now db r same got stale = ground arith
  stale_call (create_run a b) id token now db r same got stale = ground arith
  stale_call (claim_run a b c) id token now db r same got stale = ground arith
  stale_call (resolve_interrupt a b c) id token now db r same got stale = ground arith
  stale_call (reopen_uncertain a b) id token now db r same got stale = ground arith
  stale_call (request_cancel a) id token now db r same got stale = ground arith
  stale_call (cancel_task a) id token now db r same got stale = ground arith

  -- A call that presents a token is refused unless the run is running under that very token and its
  -- lease has not expired: no checkpoint, suspension, renewal, completion, failure or acknowledged
  -- cancellation gets through.
  pub fenced :
      (c : Command P) (id token : String) (now : ℕ) (db : Db P) (r : Run P)
      → presents c ≡ some (id, token)
      → get id db.runs ≡ some r
      → holds_lease token now r ≡ false
      → raises (execute c now db) ≡ true
  fenced c id token now db r same got stale =
      raises-Post (execute c now db) (stale_call c id token now db r same got stale)

  pub claim_run-row :
      (id token : String) (seconds now : ℕ) (db : Db P) (r : Run P)
      → get id db.runs ≡ some r
      → Post
          (λ d. get id d.runs ≡ some (leased token seconds now r))
          (execute (claim_run id token seconds) now db)
  unfolding execute op_claim_run
  claim_run-row id token seconds now db r got = Post-guard _ _ _ λ _. Post-bind _ _ λ run there.
      Post-guard _ _ _ λ may. Post-bind _ _ λ w written.
        let is_r : run ≡ r = cc (got, found-eq-ok id (get_run id db) there) in
        let (free, puts) = write_run-eq-ok id (leased token seconds now run) db written in
        Post-weaken (record_audit_event-runs _ _ _ _ w) λ d same.
          ap (get id) (same ∙ puts)
          ∙ get-put id id (leased token seconds now run) db.runs
          ∙ rw (beq_refl id) (ap (λ x. some (leased token seconds now x)) is_r)

  -- In the tables that a successful claim of a run leaves, a call that presents any other token to
  -- that run is refused, whatever its time.
  pub claim_fences :
      (id token other : String) (seconds now later : ℕ) (db d : Db P) (r : Run P) (c : Command P)
      → get id db.runs ≡ some r
      → execute (claim_run id token seconds) now db ≡ ok d
      → presents c ≡ some (id, other)
      → (token == other) ≡ false
      → raises (execute c later d) ≡ true
  unfolding holds_lease
  claim_fences id token other seconds now later db d r c got claimed same differs =
      fenced c id other later d (leased token seconds now r) same
        (Post-value (claim_run-row id token seconds now db r got) claimed) (ground arith)

  unclaimable :
      (id token : String) (seconds now : ℕ) (db : Db P) (r : Run P)
      → get id db.runs ≡ some r
      → claimable now r ≡ false
      → Post Fails (execute (claim_run id token seconds) now db)
  unfolding execute op_claim_run
  unclaimable id token seconds now db r got busy = Post-guard _ _ _ λ _. Post-bind _ _ λ run there.
      Post-guard _ _ _
        λ may. absurd (ground (arith, found-eq-ok id (get_run id db) there, got, busy, may))

  -- In the tables that a successful claim of a run leaves, no call claims the run again, under any
  -- token, at a time before the lease expires.
  pub claim_excludes :
      (id token other : String) (seconds more now later : ℕ) (db d : Db P) (r : Run P)
      → get id db.runs ≡ some r
      → execute (claim_run id token seconds) now db ≡ ok d
      → later < now + seconds
      → raises (execute (claim_run id other more) later d) ≡ true
  unfolding claimable
  claim_excludes id token other seconds more now later db d r got claimed early = raises-Post _ (
      unclaimable id other more later d (leased token seconds now r)
        (Post-value (claim_run-row id token seconds now db r got) claimed) (ground arith))

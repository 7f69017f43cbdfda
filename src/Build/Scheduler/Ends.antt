-- ===== src/Build/Scheduler/Ends.antt =====
-- The loop of `start_next` in src/gz_build_manager.cpp ends.
use gzscript.Base.{
  ℕ, zero, suc, ◌≡◌, ◌∙◌, refl, ap, ◌+◌, ◌*◌, ◌≤◌, ◌<◌, ◌==◌, Bool, true, false, not, List, [], ◌∷◌,
  Bytes, ◌===◌, Option, none, some, is_none, length, arith, elim_cases, if_both,
}
use gzscript.Base.Assoc.{lookup}
use gzscript.Build.Queue.{CompiledModule, CompilePlan, CompileRequest}
use gzscript.Build.Cache.{Files, Finished, finish_compile, cache_stamp_matches}
use gzscript.Build.Cache.Sizes.{
  length-erase, length-write_text, finish_cached-Shrinks, cache_stamp_matches-output,
}
use gzscript.Build.Plan.{Prepared, prepared, not_prepared, wrong_thread, ZigVersion}
use gzscript.Build.Plan.Adapter.{adapter_source}
use gzscript.Build.Scheduler.{
  World, Scheduler, LockResult, acquired, busy, lock_error, Round, again, stop, tick, next_id,
  prepared_by, push_front, with_pending, mark_failed, remove_file, moved_plan, after_finish,
  prepare_next, start_next, script_of, after_prepare, with_cached, has_module, use_cached,
  after_start, after_adapter, build, recheck, if_locked, lock_plan, if_prepared, plan_request,
  start_round, go_on, take_round, start_loop,
}
use gzscript.Build.Scheduler.Started.{prepare_next-Same}

-- A file counts once, a request four times: a round that starts a compiler may leave files.
abbrev weight : Scheduler → ℕ
weight s = length s.files + 4 * length s.manager.pending

-- The request that was taken is gone, or a file is.
abbrev Lighter : Scheduler → Scheduler → Type 0
Lighter s t = weight t ≤ weight s + 3

abbrev IsLighter : Scheduler → Round → Type 0
IsLighter s (again t) = Lighter s t
IsLighter s (stop t) = Unit

-- Nothing was queued, and no file came.
abbrev Near : Scheduler → Scheduler → Type 0
Near s t = (t.manager.pending ≡ s.manager.pending) × (length t.files ≤ length s.files)

module _ (w : World)
    (quiet : (n : ℕ) (files : Files) → length (w.outside n files) ≤ length files) where
  tick-Near : (s t : Scheduler) → Near s t → Near s (tick w t)
  tick-Near s t (p, l) = (p, ground (arith, l, quiet t.reads t.files))

  after_prepare-files :
      (s : Scheduler) (result : Prepared × ZigVersion)
      → (after_prepare w s result).1.files ≡ s.files
  after_prepare-files s (prepared plan, version) = refl
  after_prepare-files s (not_prepared text, version) = refl
  after_prepare-files s (wrong_thread, version) = refl

  prepare_next-Near :
      (r : CompileRequest) (s t : Scheduler) → Near s t → Near s (prepare_next w r t).1
  unfolding prepare_next
  prepare_next-Near r s t (p, l) = (
    (prepare_next-Same w r t).pending ∙ p,
    ground (
      arith,
      ap length (after_prepare-files (next_id w t) (prepared_by w r t)),
      l,
      quiet t.reads t.files,
    ),
  )

  Near-Lighter : (s t : Scheduler) → Near s t → Lighter s t
  Near-Lighter s t (p, l) = ground (arith, l, ap length p)

  use_cached-Lighter :
      (r : CompileRequest) (plan : CompilePlan) (content : Bytes) (s t : Scheduler)
      → plan.needs_compile ≡ false
      → lookup plan.output t.files ≡ some content
      → Near s t
      → Lighter s (use_cached w r plan t)
  unfolding use_cached
  use_cached-Lighter r plan content s t needed e h =
      if_both (λ q. Lighter s q) (has_module w plan.output (script_of r.script t).compiled)
        (Near-Lighter s t h)
        (on_result (finish_compile w.disk plan 0 [] t.files).compiled refl
          (after_finish w (finish_compile w.disk plan 0 [] t.files) t) (after_finish_pending _)
          (after_finish_files _))
    where
      after_finish_pending :
          (f : Finished w.disk) → (after_finish w f t).manager.pending ≡ t.manager.pending
      after_finish_pending f =
          if_both (λ (q : Scheduler). q.manager.pending ≡ t.manager.pending) (is_none f.compiled)
            refl refl

      after_finish_files : (f : Finished w.disk) → (after_finish w f t).files ≡ f.files
      after_finish_files f =
          if_both (λ (q : Scheduler). q.files ≡ f.files) (is_none f.compiled) refl refl

      on_result :
          (result : Option CompiledModule)
          → (finish_compile w.disk plan 0 [] t.files).compiled ≡ result
          → (u : Scheduler) → u.manager.pending ≡ t.manager.pending
          → u.files ≡ (finish_compile w.disk plan 0 [] t.files).files
          → Lighter s (with_cached w r plan result u)
      on_result (some compiled) f u p q = ground (
        arith,
        h.0,
        h.1,
        ap length h.0,
        ap length p,
        ap length q,
        (finish_cached-Shrinks w.disk plan content t.files needed e).0,
      )
      on_result none f u p q =
          let less = (finish_cached-Shrinks w.disk plan content t.files needed e).1 f in
          if_both (λ x. Lighter s x) (is_none (lookup plan.output u.files)) {x = push_front r u}
            {y = mark_failed r.script u}
            (ground (arith, h.1, ap length h.0, ap length p, ap length q, less))
            (ground (arith, h.1, ap length h.0, ap length p, ap length q, less))

  after_start-Lighter :
      (r : CompileRequest) (plan : CompilePlan) (s t : Scheduler) (pid : Option ℕ)
      → t.manager.pending ≡ s.manager.pending
      → length t.files ≤ length s.files + 1
      → Lighter s (after_start w r plan t pid)
  after_start-Lighter r plan s t none p l =
      ground (arith, ap length p, l, length-erase plan.generated t.files)
  after_start-Lighter r plan s t (some pid) p l = ground (arith, ap length p, l)

  after_adapter-Lighter :
      (r : CompileRequest) (plan : CompilePlan) (s t : Scheduler) (written : Bool × Files)
      → Near s t
      → length written.1 ≤ length t.files + 1
      → Lighter s (after_adapter w r plan t written)
  after_adapter-Lighter r plan s t (false, files) h l =
      ground (arith, h.1, ap length h.0, l, length-erase plan.generated files)
  after_adapter-Lighter r plan s t (true, files) h l =
      let erased = remove_file plan.compile_output (record t { files = files }) in
      after_start-Lighter r plan s (tick w erased) _ h.0 (
        ground (
          arith,
          h.1,
          l,
          length-erase plan.compile_output files,
          quiet t.reads (remove_file plan.compile_output (record t { files = files })).files,
        ))

  build-Lighter :
      (r : CompileRequest) (plan : CompilePlan) (s t : Scheduler)
      → Near s t
      → Lighter s (build w r plan t)
  unfolding build
  build-Lighter r plan s t h =
      let near = tick-Near s t h in
      elim_cases (λ q. Lighter s q)
        (not
          (cache_stamp_matches w.disk plan.output plan.hash_path plan.source_hash (tick w t).files))
        (λ b.
          after_adapter-Lighter r (record plan { needs_compile = _ }) s (tick w t) _ near
            (length-write_text w.disk plan.generated adapter_source (tick w t).files))
        (λ b.
          let (content, e) =
            cache_stamp_matches-output w.disk plan (tick w t).files (ground (arith, b)) in
          use_cached-Lighter r (record plan { needs_compile = _ }) content s (tick w t) b e near)

  recheck-Lighter :
      (r : CompileRequest) (plan : CompilePlan) (s : Scheduler)
      (result : Option CompilePlan × Scheduler)
      → Near s result.1
      → IsLighter s (recheck w r plan result)
  recheck-Lighter r plan s (none, t) h = Near-Lighter s t h
  recheck-Lighter r plan s (some current, t) h =
      elim_cases (λ q. IsLighter s q) (current.key === plan.key)
        (λ b. build-Lighter r current s t h) (λ b. tt)

  if_locked-Lighter :
      (r : CompileRequest) (reused : Bool) (plan : CompilePlan) (result : LockResult)
      (s t : Scheduler)
      → Near s t
      → IsLighter s (if_locked w r reused plan result t)
  if_locked-Lighter r reused plan busy s t h = tt
  if_locked-Lighter r reused plan (lock_error text) s t h = Near-Lighter s t h
  if_locked-Lighter r true plan acquired s t h =
      let moved = record r { prepared = some (moved_plan plan) } in
      recheck-Lighter moved plan s _ (prepare_next-Near moved s t h)
  if_locked-Lighter r false plan acquired s t h = build-Lighter r plan s t h

  lock_plan-Lighter :
      (r : CompileRequest) (reused : Bool) (plan : CompilePlan) (s t : Scheduler)
      → Near s t
      → IsLighter s (lock_plan w r reused plan t)
  lock_plan-Lighter r reused plan s t h =
      if_locked-Lighter r reused plan _ s (tick w t) (tick-Near s t h)

  if_prepared-Lighter :
      (r : CompileRequest) (s : Scheduler) (result : Option CompilePlan × Scheduler)
      → Near s result.1
      → IsLighter s (if_prepared w r result)
  if_prepared-Lighter r s (none, t) h = Near-Lighter s t h
  if_prepared-Lighter r s (some plan, t) h = lock_plan-Lighter r false plan s t h

  plan_request-Lighter :
      (r : CompileRequest) (made : Option CompilePlan) (s : Scheduler)
      → IsLighter s (plan_request w r made s)
  plan_request-Lighter r (some plan) s = lock_plan-Lighter r true plan s s (refl, ground arith)
  plan_request-Lighter r none s =
      if_prepared-Lighter r s _ (prepare_next-Near r s s (refl, ground arith))

  start_round-Lighter : (r : CompileRequest) (s : Scheduler) → IsLighter s (start_round w r s)
  unfolding start_round
  start_round-Lighter r s =
      elim_cases (λ q. IsLighter s q) (r.generation == (script_of r.script s).compile_generation)
        (λ b. plan_request-Lighter r r.prepared s) (λ b. ground arith)

  abbrev Ends : (Scheduler → Bool × Scheduler) → ℕ → Type 0
  Ends loop n = (t : Scheduler) → weight t < n → (loop t).0 ≡ true

  go_on-Ends :
      (loop : Scheduler → Bool × Scheduler) (n : ℕ) (s : Scheduler) (round : Round)
      → Ends loop n
      → IsLighter s round
      → weight s + 3 < n
      → (go_on w loop round).0 ≡ true
  go_on-Ends loop n s (again t) ends l h = ends t (ground (arith, l, h))
  go_on-Ends loop n s (stop t) ends l h = refl

  take_round-Ends :
      (loop : Scheduler → Bool × Scheduler) (n : ℕ) (pending : List CompileRequest) (s : Scheduler)
      → Ends loop n
      → s.manager.pending ≡ pending
      → weight s < suc n
      → (take_round w loop pending s).0 ≡ true
  take_round-Ends loop n [] s ends e h = refl
  take_round-Ends loop n (r ∷ rest) s ends e h =
      go_on-Ends loop n (with_pending rest s) (start_round w r (with_pending rest s)) ends
        (start_round-Lighter r (with_pending rest s)) (ground (arith, h, ap length e))

  start_loop-Ends : (rounds : ℕ) → Ends (λ t. start_loop w rounds t) rounds
  unfolding start_loop
  start_loop-Ends zero s h = ground (arith, h)
  start_loop-Ends (suc rounds) s h =
      elim_cases (λ (q : Bool × Scheduler). q.0 ≡ true) (is_none s.manager.active)
        (λ b.
          take_round-Ends (λ t. start_loop w rounds t) rounds s.manager.pending s
            (start_loop-Ends rounds) refl h)
        (λ b. refl)

  -- Where no file comes from outside while it runs, the loop comes to its end within as many rounds
  -- as there are files and four for each request, whatever modules fail to load and whatever else
  -- the system answers.
  pub start_next_ends :
      (rounds : ℕ) (s : Scheduler)
      → length s.files + 4 * length s.manager.pending < rounds
      → (start_next w rounds s).0 ≡ true
  unfolding start_next
  start_next_ends rounds s h =
      if_both (λ (q : Bool × Scheduler). q.0 ≡ true) s.manager.shutdown_started refl
        (start_loop-Ends rounds s h)

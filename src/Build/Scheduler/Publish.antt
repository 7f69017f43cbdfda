-- ===== src/Build/Scheduler/Publish.antt =====
-- When the build manager of src/gz_build_manager.cpp publishes the module of a compiler that ended.
use mathlib.Core.List.{Memᴰ}
use mathlib.Core.List.Memᴰ
use gzscript.Base.{
  ℕ, ◌≡◌, ◌∙◌, refl, sym, ap, subst, ◌==◌, ==_iff, false, not, List, [], ◌∷◌, ◌++◌, ◌===◌, ===_iff,
  Option, none, some, is_none, arith, if_cases, elim_cases, if_both, ◌⊎◌, inl, inr,
}
use gzscript.Base.Sort.{any}
use gzscript.Build.Queue.{CompiledModule, CompilePlan, CompileRequest, ActiveCompile}
use gzscript.Build.Cache.{Finished, finish_compile}
use gzscript.Build.Plan.{Prepared, prepared, not_prepared, wrong_thread, ZigVersion}
use gzscript.Build.Scheduler.{
  World, Scheduler, Event, published, changed, script_compiled, next_id, prepared_by, after_prepare,
  mark_failed, publish_module, after_finish, prepare_next, script_of,
}
use gzscript.Build.Scheduler.Pump.{
  is_for, discard, finished, final_output, finish_active, recheck_active, settle,
}

published_unique :
    (i j : ℕ) (a b : CompiledModule) → published i a ≡ published j b → (i ≡ j) × (a ≡ b)
published_unique i j a b e = (ground (arith, e), ground (arith, e))

module _ (w : World) (id : ℕ) (compiled : CompiledModule) where
  abbrev pub IsPublished : List Event → Type 0
  IsPublished events = Memᴰ (published id compiled) events

  not_last :
      (events : List Event) (event : Event)
      → ((published id compiled ≡ event) → ⊥)
      → IsPublished (events ++ event ∷ [])
      → IsPublished events
  not_last events event other m = elim (Memᴰ.append_cases events m) [
    | inl old ↦ old
    | inr new ↦ absurd (other (Memᴰ.eq_of_singleton new))
  ]

  mark_failed-IsPublished :
      (i : ℕ) (s : Scheduler) → IsPublished (mark_failed i s).events → IsPublished s.events
  mark_failed-IsPublished i s = not_last s.events (changed i) (λ e. ground (arith, e))

  publish_module-IsPublished :
      (i : ℕ) (found : CompiledModule) (s : Scheduler)
      → IsPublished (publish_module i found s).events
      → IsPublished s.events ⊎ ((i ≡ id) × (found ≡ compiled))
  publish_module-IsPublished i found s m =
      elim (Memᴰ.append_cases s.events (
        not_last (s.events ++ published i found ∷ []) script_compiled (λ e. ground (arith, e)) m)) [
          | inl old ↦ inl old
          | inr new ↦
              let (same, one) = published_unique id i compiled found (Memᴰ.eq_of_singleton new) in
              inr (sym same, sym one)
        ]

  after_finish-events :
      (f : Finished w.disk) (s : Scheduler) → (after_finish w f s).events ≡ s.events
  after_finish-events f s =
      if_both (λ (q : Scheduler). q.events ≡ s.events) (is_none f.compiled) refl refl

  after_prepare-events :
      (s : Scheduler) (result : Prepared × ZigVersion)
      → (after_prepare w s result).1.events ≡ s.events
  after_prepare-events s (prepared plan, version) = refl
  after_prepare-events s (not_prepared text, version) = refl
  after_prepare-events s (wrong_thread, version) = refl

  prepare_next-events :
      (r : CompileRequest) (s : Scheduler) → (prepare_next w r s).1.events ≡ s.events
  unfolding prepare_next
  prepare_next-events r s = after_prepare-events (next_id w s) (prepared_by w r s)

  abbrev result_of : ℕ → ActiveCompile → Scheduler → Option CompiledModule
  result_of exit_code a s =
      (finish_compile w.disk a.plan exit_code (final_output w a) s.files).compiled

  finish_active-IsPublished :
      (exit_code : ℕ) (a : ActiveCompile) (s : Scheduler)
      → IsPublished (finish_active w exit_code a s).events
      → IsPublished s.events ⊎ ((a.request.script ≡ id) × (result_of exit_code a s ≡ some compiled))
  unfolding finish_active
  finish_active-IsPublished exit_code a s =
      on_result (result_of exit_code a s) refl
        (after_finish w (finish_compile w.disk a.plan exit_code (final_output w a) s.files) s)
        (after_finish-events _ s)
    where
      on_result :
          (result : Option CompiledModule)
          → result_of exit_code a s ≡ result
          → (t : Scheduler) → t.events ≡ s.events
          → IsPublished (finished w a.request result t).events
          → IsPublished s.events
            ⊎ ((a.request.script ≡ id) × (result_of exit_code a s ≡ some compiled))
      on_result none e t same m =
          inl (subst IsPublished same (mark_failed-IsPublished a.request.script t m))
      on_result (some found) e t same m =
          elim (publish_module-IsPublished a.request.script found t m) [
            | inl old ↦ inl (subst IsPublished same old)
            | inr (i, f) ↦ inr (i, e ∙ ap some f)
          ]

  finish_active-failed :
      (exit_code : ℕ) (a : ActiveCompile) (s : Scheduler)
      → (exit_code == 0) ≡ false
      → result_of exit_code a s ≡ none
  unfolding finish_compile
  finish_active-failed exit_code a s h =
      if_cases (λ (q : Finished w.disk). q.compiled ≡ none) (not (exit_code == 0)) (λ b. refl)
        (λ b. ground (arith, h, b))

  -- What must hold for the module to be published.
  pub record IsCurrent (exit_code : ℕ) (a : ActiveCompile) (s : Scheduler) : Type 0 where
    pub script : a.request.script ≡ id
    pub succeeded : exit_code ≡ 0
    pub newest : a.request.generation ≡ (script_of id s).compile_generation
    pub lone : any (is_for id) s.manager.pending ≡ false
    pub same_key :
        (current : CompilePlan) × (((prepare_next w a.request s).0 ≡ some current)
          × (current.key ≡ a.plan.key))
    pub loaded : result_of 0 a (prepare_next w a.request s).1 ≡ some compiled

  abbrev IsRechecked : ActiveCompile → Option CompilePlan × Scheduler → Type 0
  IsRechecked a result =
      (a.request.script ≡ id)
      × (((current : CompilePlan) × ((result.0 ≡ some current) × (current.key ≡ a.plan.key)))
          × (result_of 0 a result.1 ≡ some compiled))

  -- The recheck: the key is made again and must be what it was.
  recheck-IsPublished :
      (a : ActiveCompile) (s : Scheduler) (result : Option CompilePlan × Scheduler)
      → result.1.events ≡ s.events
      → IsPublished (recheck_active w a result).events
      → IsPublished s.events ⊎ IsRechecked a result
  recheck-IsPublished a s (none, t) e m =
      inl (subst IsPublished e (mark_failed-IsPublished a.request.script (discard w a.plan t) m))
  recheck-IsPublished a s (some current, t) e m =
      elim_cases
        (λ (q : Scheduler).
          IsPublished q.events → IsPublished s.events ⊎ IsRechecked a (some current, t))
        (current.key === a.plan.key)
        (λ b k. elim (finish_active-IsPublished 0 a t k) [
          | inl old ↦ inl (subst IsPublished e old)
          | inr (same, found) ↦
              inr (same, ((current, (refl, (===_iff current.key a.plan.key).0 b)), found))
        ])
        (λ b k. inl (subst IsPublished e k)) m

  -- A module of a compiler that ended is published only when the compiler succeeded, its request is
  -- of the script's newest generation, nothing else is queued for the script, the inputs have the
  -- key they had at the start, and the module loads from there.
  pub settle-IsCurrent :
      (exit_code : ℕ) (a : ActiveCompile) (s : Scheduler)
      → IsPublished (settle w exit_code a s).events
      → IsPublished s.events ⊎ IsCurrent exit_code a s
  unfolding settle
  settle-IsCurrent exit_code a s =
      elim_cases
        (λ (q : Scheduler). IsPublished q.events → IsPublished s.events ⊎ IsCurrent exit_code a s)
        (a.request.generation == (script_of a.request.script s).compile_generation)
        (λ newest.
          elim_cases
            (λ (q : Scheduler).
              IsPublished q.events → IsPublished s.events ⊎ IsCurrent exit_code a s)
            (exit_code == 0)
            (λ good.
              elim_cases
                (λ (q : Scheduler).
                  IsPublished q.events → IsPublished s.events ⊎ IsCurrent exit_code a s)
                (any (is_for a.request.script) s.manager.pending) (λ stale m. inl m)
                (λ lone m.
                  elim (recheck-IsPublished a s (prepare_next w a.request s)
                    (prepare_next-events a.request s) m) [
                      | inl old ↦ inl old
                      | inr (same, (key, found)) ↦ inr (record {
                        script = same;
                        succeeded = (==_iff exit_code 0).0 good;
                        newest =
                            (==_iff _ _).0 newest
                            ∙ ap (λ i. (script_of i s).compile_generation) same;
                        lone = ap (λ i. any (is_for i) s.manager.pending) (sym same) ∙ lone;
                        same_key = key;
                        loaded = found;
                      })
                    ]))
            (λ bad m. elim (finish_active-IsPublished exit_code a s m) [
              | inl old ↦ inl old
              | inr (same, found) ↦ ground (arith, found, finish_active-failed exit_code a s bad)
            ]))
        (λ old m. inl m)

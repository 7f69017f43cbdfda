-- ===== src/Build/Scheduler/Started.antt =====
-- What a compilation that is started in src/gz_build_manager.cpp leaves as it is.
use gzscript.Base.{
  ℕ, ◌≡◌, ◌∙◌, refl, sym, ap, subst, ◌+◌, ◌==◌, ==_iff, Bool, true, false, not, List, [], ◌∷◌, ◌++◌,
  codes, Option, none, some, is_none, arith, if_cases, elim_cases, if_both,
}
use gzscript.Build.Queue.{CompiledModule, CompilePlan, CompileRequest}
use gzscript.Build.Queue.Requests.{request_of, has_request}
use gzscript.Build.Cache.{Files, Finished, finish_compile, cache_stamp_matches}
use gzscript.Build.Plan.{Prepared, prepared, not_prepared, wrong_thread, ZigVersion}
use gzscript.Build.Scheduler.{
  World, Scheduler, Round, again, stop, tick, next_id, prepared_by, push_front, mark_failed,
  remove_file, report_error, after_finish, prepare_next, script_of, after_prepare, with_cached,
  has_module, use_cached, after_start, after_adapter, build,
}
-- A step that leaves the queue, the compiler and the generations as they are.
use gzscript.Build.Scheduler.Invariant.{
  Same, keeps, Same-trans, with_script-Same, mark_failed-Same, publish_module-Same, IsSound,
  Same-IsSound, Holds, Same-Holds, push_front-IsSound, compiling,
}

abbrev pub Live : Scheduler → Type 0
Live s = IsSound s × (s.manager.shutdown_started ≡ false)

abbrev pub scheduler_of : Round → Scheduler
scheduler_of (again s) = s
scheduler_of (stop s) = s

pub held-Live : {s t : Scheduler} {r : CompileRequest} → Same s t → Holds r s → Live t
held-Live same h = (Same-IsSound same h.sound, same.ended ∙ h.live)

-- Only the script and the generation of the request count.
pub held_as :
    {r q : CompileRequest} {s : Scheduler}
    → q.script ≡ r.script
    → q.generation ≡ r.generation
    → Holds r s
    → Holds q s
held_as {s = s} e g h = record {
  sound = h.sound;
  live = h.live;
  idle = h.idle;
  lone = ap (λ i. has_request i s.manager.pending) e ∙ h.lone;
  newest = g ∙ (h.newest ∙ ap (λ i. (script_of i s).compile_generation) (sym e));
}

pub held_back : (q : CompileRequest) {s : Scheduler} → Holds q s → Live (push_front q s)
held_back q {s} h = (push_front-IsSound q s h, h.live)

pub mark_failed_held :
    {r : CompileRequest} (s : Scheduler) → Holds r s → Live (mark_failed r.script s)
mark_failed_held {r} s h = held-Live (mark_failed-Same r.script s) h

has_request-request_of :
    (id : ℕ) (rest : List CompileRequest) (q : CompileRequest)
    → request_of id rest ≡ some q
    → has_request id rest ≡ true
unfolding has_request request_of
has_request-request_of id [] q e = ground (arith, e)
has_request-request_of id (r ∷ rest) q e = ground (arith, e, has_request-request_of id rest q)

pub request_of_later :
    (r : CompileRequest) (rest : List CompileRequest) (id : ℕ) (q : CompileRequest)
    → has_request r.script rest ≡ false
    → request_of id rest ≡ some q
    → request_of id (r ∷ rest) ≡ some q
unfolding request_of
request_of_later r rest id q lone f =
    if_cases (λ x. x ≡ some q) (r.script == id)
      (λ b.
        let same = subst (λ i. has_request i rest ≡ false) ((==_iff r.script id).0 b) lone in
        ground (arith, same, has_request-request_of id rest q f))
      (λ b. f)

module _ (w : World) where
  pub after_finish-Same : (f : Finished w.disk) (s : Scheduler) → Same s (after_finish w f s)
  after_finish-Same f s =
      if_both (λ q. Same s q) (is_none f.compiled) (keeps refl refl refl refl refl)
        (keeps refl refl refl refl refl)

  after_prepare-Same :
      (s : Scheduler) (result : Prepared × ZigVersion) → Same s (after_prepare w s result).1
  after_prepare-Same s (prepared plan, version) = keeps refl refl refl refl refl
  after_prepare-Same s (not_prepared text, version) = keeps refl refl refl refl refl
  after_prepare-Same s (wrong_thread, version) = keeps refl refl refl refl refl

  pub prepare_next-Same : (r : CompileRequest) (s : Scheduler) → Same s (prepare_next w r s).1
  unfolding prepare_next
  prepare_next-Same r s =
      Same-trans {t = next_id w s} (keeps refl refl refl refl refl)
        (after_prepare-Same (next_id w s) (prepared_by w r s))

  use_cached-Live :
      (r : CompileRequest) (plan : CompilePlan) (s : Scheduler)
      → Holds r s
      → Live (use_cached w r plan s)
  unfolding use_cached
  use_cached-Live r plan s h =
      if_both Live (has_module w plan.output (script_of r.script s).compiled)
        (held-Live (with_script-Same r.script _ s refl) h)
        (after_load (finish_compile w.disk plan 0 [] s.files).compiled
          (Same-Holds (after_finish-Same (finish_compile w.disk plan 0 [] s.files) s) h))
    where
      after_load :
          (found : Option CompiledModule) {t : Scheduler}
          → Holds r t
          → Live (with_cached w r plan found t)
      after_load (some compiled) {t} k = held-Live (publish_module-Same r.script compiled t) k
      after_load none {t} k =
          if_both Live _ (held_back r k) (held-Live (mark_failed-Same r.script t) k)

  after_start-Live :
      (r : CompileRequest) (plan : CompilePlan) (s : Scheduler) (pid : Option ℕ)
      → Holds r s
      → Live (after_start w r plan s pid)
  after_start-Live r plan s none h =
      mark_failed_held
        (report_error (codes "Unable to start Zig compiler: " ++ plan.zig_executable)
          (remove_file plan.generated s))
        (Same-Holds (keeps refl refl refl refl refl) h)
  after_start-Live r plan s (some pid) h = (
    record {
      ordered = record { once = h.sound.ordered.once; newest = h.sound.ordered.newest };
      jobs = ap (λ n. n + 1) (h.sound.jobs ∙ ap compiling h.idle);
      ended = λ e. ground (arith, h.live, e);
    },
    h.live,
  )

  after_adapter-Live :
      (r : CompileRequest) (plan : CompilePlan) (s : Scheduler) (written : Bool × Files)
      → Holds r s
      → Live (after_adapter w r plan s written)
  after_adapter-Live r plan s (true, files) h =
      after_start-Live r plan _ _ (Same-Holds (keeps refl refl refl refl refl) h)
  after_adapter-Live r plan s (false, files) h =
      mark_failed_held
        (report_error (codes "Unable to write generated Zig adapter: " ++ plan.generated)
          (remove_file plan.generated (record s { files = files })))
        (Same-Holds (keeps refl refl refl refl refl) h)

  pub build-Live :
      (r : CompileRequest) (plan : CompilePlan) (s : Scheduler)
      → Holds r s
      → Live (build w r plan s)
  unfolding build
  build-Live r plan s h =
      let h1 = Same-Holds {t = tick w s} (keeps refl refl refl refl refl) h in
      elim_cases Live
        (not
          (cache_stamp_matches w.disk plan.output plan.hash_path plan.source_hash (tick w s).files))
        (λ b. after_adapter-Live r (record plan { needs_compile = _ }) (tick w s) _ h1)
        (λ b. use_cached-Live r (record plan { needs_compile = _ }) (tick w s) h1)

-- ===== src/Build/Scheduler/Invariant.antt =====
-- What holds of the build manager of src/gz_build_manager.cpp at all times, round by round.
use gzscript.Base.{
  ℕ, ◌≡◌, ◌∙◌, refl, sym, ap, subst, ◌==◌, ==_iff, true, false, [], Option, none, some, arith,
  if_cases, some_inj,
}
use gzscript.Build.Queue.{CompiledModule, Script, CompileRequest, ActiveCompile, set_script}
use gzscript.Build.Queue.Requests.{request_of, has_request, IsOnce, IsOrdered}
use gzscript.Build.Scheduler.{
  Scheduler, push_front, with_script, mark_failed, publish_module, script_of,
}

-- A step that leaves the queue, the compiler and the generations as they are.
pub record Same (s t : Scheduler) : Type 0 where
  pub pending : t.manager.pending ≡ s.manager.pending
  pub active : t.manager.active ≡ s.manager.active
  pub ended : t.manager.shutdown_started ≡ s.manager.shutdown_started
  pub jobs : t.compile_jobs ≡ s.compile_jobs
  pub generation :
      (id : ℕ) → (script_of id t).compile_generation ≡ (script_of id s).compile_generation

-- What does not touch these fields is such a step.
pub keeps :
    {s t : Scheduler}
    → t.manager.pending ≡ s.manager.pending
    → t.manager.active ≡ s.manager.active
    → t.manager.shutdown_started ≡ s.manager.shutdown_started
    → t.compile_jobs ≡ s.compile_jobs
    → t.manager.scripts ≡ s.manager.scripts
    → Same s t
keeps p a e j g = record {
  pending = p;
  active = a;
  ended = e;
  jobs = j;
  generation = λ id. ap (λ (f : ℕ → Script). (f id).compile_generation) g;
}

pub Same-trans : {s t u : Scheduler} → Same s t → Same t u → Same s u
Same-trans a b = record {
  pending = b.pending ∙ a.pending;
  active = b.active ∙ a.active;
  ended = b.ended ∙ a.ended;
  jobs = b.jobs ∙ a.jobs;
  generation = λ id. b.generation id ∙ a.generation id;
}

set_script-generation :
    (id : ℕ) (script : Script) (scripts : ℕ → Script) (other : ℕ)
    → script.compile_generation ≡ (scripts id).compile_generation
    → (set_script id script scripts other).compile_generation ≡ (scripts other).compile_generation
set_script-generation id script scripts other e =
    if_cases (λ (q : Script). q.compile_generation ≡ (scripts other).compile_generation)
      (other == id)
      (λ b. e ∙ ap (λ i. (scripts i).compile_generation) (sym ((==_iff other id).0 b))) (λ b. refl)

pub with_script-Same :
    (id : ℕ) (script : Script) (s : Scheduler)
    → script.compile_generation ≡ (script_of id s).compile_generation
    → Same s (with_script id script s)
with_script-Same id script s e = record {
  pending = refl;
  active = refl;
  ended = refl;
  jobs = refl;
  generation = λ other. set_script-generation id script s.manager.scripts other e;
}

pub mark_failed-Same : (id : ℕ) (s : Scheduler) → Same s (mark_failed id s)
mark_failed-Same id s = Same-trans (with_script-Same id _ s refl) (keeps refl refl refl refl refl)

pub publish_module-Same :
    (id : ℕ) (compiled : CompiledModule) (s : Scheduler) → Same s (publish_module id compiled s)
publish_module-Same id compiled s =
    Same-trans (with_script-Same id _ s refl) (keeps refl refl refl refl refl)

abbrev pub compiling : Option ActiveCompile → ℕ
compiling none = 0
compiling (some a) = 1

-- A script is queued once, for its newest generation; the counter of compilers is right; and after
-- the shutdown there is nothing to do.
pub record IsSound (s : Scheduler) : Type 0 where
  pub ordered : IsOrdered s.manager
  pub jobs : s.compile_jobs ≡ compiling s.manager.active
  pub ended :
      s.manager.shutdown_started ≡ true → (s.manager.pending ≡ []) × (s.manager.active ≡ none)

pub Same-IsSound : {s t : Scheduler} → Same s t → IsSound s → IsSound t
Same-IsSound same h = record {
  ordered = record {
    once = subst IsOnce (sym same.pending) h.ordered.once;
    newest = λ id r e.
        h.ordered.newest id r (ap (request_of id) (sym same.pending) ∙ e)
        ∙ sym (same.generation id);
  };
  jobs = same.jobs ∙ (h.jobs ∙ ap compiling (sym same.active));
  ended = λ e. let (p, a) = h.ended (sym same.ended ∙ e) in (same.pending ∙ p, same.active ∙ a);
}

-- A request that was taken off the queue.
pub record Holds (r : CompileRequest) (s : Scheduler) : Type 0 where
  pub sound : IsSound s
  pub live : s.manager.shutdown_started ≡ false
  pub idle : s.manager.active ≡ none
  pub lone : has_request r.script s.manager.pending ≡ false
  pub newest : r.generation ≡ (script_of r.script s).compile_generation

pub Same-Holds : {s t : Scheduler} {r : CompileRequest} → Same s t → Holds r s → Holds r t
Same-Holds {r = r} same h = record {
  sound = Same-IsSound same h.sound;
  live = same.ended ∙ h.live;
  idle = same.active ∙ h.idle;
  lone = ap (has_request r.script) same.pending ∙ h.lone;
  newest = h.newest ∙ sym (same.generation r.script);
}

-- It can be put back, with another plan.
pub push_front-IsSound : (r : CompileRequest) (s : Scheduler) → Holds r s → IsSound (push_front r s)
unfolding IsOnce request_of
push_front-IsSound r s h = record {
  ordered = record {
    once = (h.lone, h.sound.ordered.once);
    newest = λ id q.
        if_cases (λ x. x ≡ some q → q.generation ≡ (script_of id s).compile_generation)
          (r.script == id)
          (λ b e.
            let same = ap (λ i. (script_of i s).compile_generation) ((==_iff r.script id).0 b) in
            ap (λ (x : CompileRequest). x.generation) (sym (some_inj e)) ∙ (h.newest ∙ same))
          (λ b e. h.sound.ordered.newest id q e);
  };
  jobs = h.sound.jobs;
  ended = λ e. ground (arith, h.live, e);
}

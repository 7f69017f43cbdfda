-- ===== src/Build/Queue/Kept.antt =====
-- What queuing leaves as it is in the manager of src/gz_build_manager.cpp.
use gzscript.Base.{
  ℕ, ◌≡◌, ◌∙◌, refl, true, false, not, ◌||◌, List, [], ◌∷◌, ◌++◌, Bytes, Option, none, some,
  is_empty, arith, if_both, if_cases,
}
use gzscript.Build.Queue.{
  Manager, Surroundings, not_on_main, add_request, queue_compile, queue_saved, queue_each,
  queue_all, read_source, QueueCall, compile_call, saved_call, all_call, perform_all,
}

-- The running compiler and the shutdown stay, and after the shutdown the queue does.
pub record Kept (m n : Manager) : Type 0 where
  pub active : n.active ≡ m.active
  pub ended : n.shutdown_started ≡ m.shutdown_started
  pub closed : m.shutdown_started ≡ true → n.pending ≡ m.pending

Kept-refl : (m : Manager) → Kept m m
Kept-refl m = record { active = refl; ended = refl; closed = λ e. refl }

Kept-trans : {m n o : Manager} → Kept m n → Kept n o → Kept m o
Kept-trans a b = record {
  active = b.active ∙ a.active;
  ended = b.ended ∙ a.ended;
  closed = λ e. b.closed (a.ended ∙ e) ∙ a.closed e;
}

add_request-Kept : (id : ℕ) (m : Manager) → m.shutdown_started ≡ false → Kept m (add_request id m)
add_request-Kept id m b = record { active = refl; ended = refl; closed = λ e. ground (arith, b, e) }

module _ (w : Surroundings) where
  error-Kept : (m : Manager) → Kept m (record m { errors = m.errors ++ not_on_main ∷ [] })
  error-Kept m = record { active = refl; ended = refl; closed = λ e. refl }

  queue_compile-Kept : (o : Option ℕ) (m : Manager) → Kept m (queue_compile w o m)
  unfolding queue_compile
  queue_compile-Kept none m = if_both (λ q. Kept m q) _ (Kept-refl m) (error-Kept m)
  queue_compile-Kept (some id) m =
      if_cases (λ q. Kept m q) (m.shutdown_started || w.is_shutting_down) (λ b. Kept-refl m)
        (λ b.
          if_both (λ q. Kept m q) (not w.is_main_thread) (error-Kept m)
            (if_both (λ q. Kept m q) _ (Kept-refl m) (add_request-Kept id m (ground (arith, b)))))

  read_source-Kept : (id : ℕ) (m : Manager) → Kept m (read_source w id m)
  read_source-Kept id m = record { active = refl; ended = refl; closed = λ e. refl }

  queue_saved-Kept : (o : Option ℕ) (saved : Bytes) (m : Manager) → Kept m (queue_saved w o saved m)
  unfolding queue_saved
  queue_saved-Kept none saved m = Kept-refl m
  queue_saved-Kept (some id) saved m =
      if_both (λ q. Kept m q) _ (queue_compile-Kept (some id) m) (Kept-refl m)

  queue_each-Kept : (ids : List ℕ) (m : Manager) → Kept m (queue_each w ids m)
  unfolding queue_each
  queue_each-Kept [] m = Kept-refl m
  queue_each-Kept (id ∷ ids) m =
      Kept-trans
        (if_both (λ q. Kept m q) (is_empty (m.scripts id).path) (Kept-refl m)
          (Kept-trans (read_source-Kept id m) (queue_compile-Kept (some id) (read_source w id m))))
        (queue_each-Kept ids _)

  queue_all-Kept : (ids : List ℕ) (m : Manager) → Kept m (queue_all w ids m)
  unfolding queue_all
  queue_all-Kept ids m =
      if_both (λ q. Kept m q) w.is_main_thread (queue_each-Kept ids m) (error-Kept m)

  pub perform_all-Kept : (calls : List (QueueCall w)) (m : Manager) → Kept m (perform_all w calls m)
  unfolding perform_all
  perform_all-Kept [] m = Kept-refl m
  perform_all-Kept (compile_call o ∷ calls) m =
      Kept-trans (queue_compile-Kept o m) (perform_all-Kept calls _)
  perform_all-Kept (saved_call o path ∷ calls) m =
      Kept-trans (queue_saved-Kept o path m) (perform_all-Kept calls _)
  perform_all-Kept (all_call ids ∷ calls) m =
      Kept-trans (queue_all-Kept ids m) (perform_all-Kept calls _)

-- ===== src/Scripts/Refresh/Always.antt =====
-- The invariant of the refresh in src/gz_script.cpp under calls in any order.
use gzscript.Base.{
  ℕ, ◌≡◌, refl, ◌==◌, Bool, true, false, not, List, [], ◌∷◌, Option, none, some, is_empty, arith,
  if_cases, Bool-cases, ◌⊎◌, inl, inr,
}
use gzscript.Compiled.Engine.{Engine}
use gzscript.Scripts.Instances.{
  Host, InstanceData, GzScript, new_script, has_instance, remove_instance, list_from,
  after_instance, create_with, instance_create, instance_free,
}
use gzscript.Scripts.Refresh.{
  other_instances, take_module, snapshot_instances, start_refresh, publish_module, Reached,
  uncalled, published, refreshed, created, freed, differs,
}
use gzscript.Scripts.Refresh.Covered.{IsCovered, to_come}
use gzscript.Scripts.Refresh.Calls.{
  Ready, IsRefreshing, schedule_pending_refresh-IsRefreshing, has_instance-other_instances,
  known_at, apply_pending_refresh-IsRefreshing,
}

has_instance-remove_instance :
    (i j : ℕ) (xs : List ℕ)
    → has_instance i (remove_instance j xs) ≡ true
    → has_instance i xs ≡ true
unfolding has_instance remove_instance
has_instance-remove_instance i j [] h = ground (arith, h)
has_instance-remove_instance i j (x ∷ xs) h = ground (arith, h, has_instance-remove_instance i j xs)

module _ {engine : Engine} {Memory : Type 0} (host : Host engine Memory)
    (editor : host.is_editor_hint ≡ true) where
  start_refresh-IsRefreshing :
      (s : GzScript engine Memory)
      → Ready host editor s
      → IsRefreshing host editor (start_refresh host s)
  start_refresh-IsRefreshing s h =
      if_cases (IsRefreshing host editor) s.pending_refresh
        (λ b. schedule_pending_refresh-IsRefreshing host editor s h)
        (λ b. record { ready = h; scheduled = λ p. ground (arith, p, b) })

  snapshot-Ready :
      (next : ℕ) (exports_changed : Bool) (s : GzScript engine Memory)
      → Ready host editor s
      → Ready host editor (snapshot_instances host next exports_changed (take_module host next s))
  unfolding list_from
  snapshot-Ready next exports_changed s h =
      let others = other_instances host next s.datas s.instances in
      record {
        calls = h.calls;
        pending = λ p. (next, (ground (arith, p), refl));
        idle = λ p. empty others (ground (arith, p));
        known = λ i m. (
          next,
          (refl, place i (has_instance-other_instances host editor next s.datas s.instances i m)),
        );
      }
    where
      empty : (xs : List ℕ) → is_empty xs ≡ true → xs ≡ []
      empty [] e = refl
      empty (x ∷ xs) e = ground (arith, e)

      place :
          (i : ℕ)
          → ((s.datas i).used_module ≡ next)
            ⊎ (has_instance i (other_instances host next s.datas s.instances) ≡ true)
          → IsCovered host next
              (other_instances host next s.datas s.instances)
              (snapshot_instances host next exports_changed (take_module host next s))
              i
      place i (inl e) = inl e
      place i (inr f) = inr (inl f)

  publish_module-IsRefreshing :
      (next : Option ℕ) (s : GzScript engine Memory)
      → IsRefreshing host editor s
      → IsRefreshing host editor (publish_module host next s)
  unfolding publish_module
  publish_module-IsRefreshing none s h = h
  publish_module-IsRefreshing (some next) s h =
      if_cases (IsRefreshing host editor) (not host.is_editor_hint) (λ b. ground (arith, b, editor))
        (λ b.
          start_refresh-IsRefreshing _
            (snapshot-Ready next (differs host next s.current_module) s h.ready))

  instance_free-IsRefreshing :
      (i : ℕ) (s : GzScript engine Memory)
      → IsRefreshing host editor s
      → IsRefreshing host editor (instance_free host i s)
  unfolding instance_free
  instance_free-IsRefreshing i s h = record {
    ready = record {
      calls = h.ready.calls;
      pending = h.ready.pending;
      idle = h.ready.idle;
      known = λ j m. h.ready.known j (has_instance-remove_instance j i s.instances m);
    };
    scheduled = h.scheduled;
  }

  create_with-IsRefreshing :
      (i owner : ℕ) (current : Option ℕ) (s : GzScript engine Memory)
      → s.current_module ≡ current
      → IsRefreshing host editor s
      → IsRefreshing host editor (create_with host i owner current s).1
  unfolding has_instance
  create_with-IsRefreshing i owner none s e h = h
  create_with-IsRefreshing i owner (some m) s e h =
      on_created (host.zig.create_instance m owner s.memory)
    where
      with_new : ℕ → Memory → GzScript engine Memory
      with_new new memory = (after_instance host i owner m s (some new, memory)).1

      older :
          (new : ℕ) (memory : Memory) (j : ℕ)
          → (j == i) ≡ false
          → IsCovered host m (to_come host s) s j
          → IsCovered host m (to_come host s) (with_new new memory) j
      older new memory j other (inl used) = inl (
          if_cases (λ (d : InstanceData engine). d.used_module ≡ m) (j == i)
            (λ b. ground (arith, b, other)) (λ b. used))
      older new memory j other (inr rest) = inr rest

      on_data :
          (new : ℕ) (memory : Memory) (j : ℕ)
          → has_instance j (i ∷ s.instances) ≡ true
          → ((j == i) ≡ true) ⊎ ((j == i) ≡ false)
          → IsCovered host m (to_come host s) (with_new new memory) j
      on_data new memory j k (inl same) = inl (
          if_cases (λ (d : InstanceData engine). d.used_module ≡ m) (j == i) (λ b. refl)
            (λ b. ground (arith, b, same)))
      on_data new memory j k (inr other) =
          older new memory j other
            (known_at host editor s m e j (h.ready.known j (ground (arith, k, other))))

      on_created :
          (result : Option ℕ × Memory)
          → IsRefreshing host editor (after_instance host i owner m s result).1
      on_created (none, memory) = record {
        ready = record {
          calls = h.ready.calls;
          pending = h.ready.pending;
          idle = h.ready.idle;
          known = h.ready.known;
        };
        scheduled = h.scheduled;
      }
      on_created (some new, memory) = record {
        ready = record {
          calls = h.ready.calls;
          pending = h.ready.pending;
          idle = h.ready.idle;
          known = λ j k. (m, (e, on_data new memory j k (Bool-cases (j == i))));
        };
        scheduled = h.scheduled;
      }

  reached-IsRefreshing :
      (s0 s : GzScript engine Memory)
      → IsRefreshing host editor s0
      → Reached host s0 s
      → IsRefreshing host editor s
  unfolding instance_create
  reached-IsRefreshing s0 _ h uncalled = h
  reached-IsRefreshing s0 _ h (published next {s} r) =
      publish_module-IsRefreshing next s (reached-IsRefreshing s0 s h r)
  reached-IsRefreshing s0 _ h (refreshed {s} r due) =
      apply_pending_refresh-IsRefreshing host editor s due (reached-IsRefreshing s0 s h r)
  reached-IsRefreshing s0 _ h (created i owner {s} r) =
      create_with-IsRefreshing i owner s.current_module s refl (reached-IsRefreshing s0 s h r)
  reached-IsRefreshing s0 _ h (freed i {s} r) =
      instance_free-IsRefreshing i s (reached-IsRefreshing s0 s h r)

  new_script-IsRefreshing :
      (datas : ℕ → InstanceData engine) (memory : Memory)
      → IsRefreshing host editor (new_script datas memory)
  unfolding list_from has_instance
  new_script-IsRefreshing datas memory = record {
    ready = record {
      calls = refl;
      pending = λ p. ground (arith, p);
      idle = λ p. refl;
      known = λ i m. ground (arith, m);
    };
    scheduled = λ p. ground (arith, p);
  }

  -- In the editor, whatever modules are published to a new script and whatever instances of it come
  -- and go: each live instance uses the module of the script, is among those that are still to be
  -- refreshed, or its refresh failed; while some are to be refreshed there is a deferred call that is
  -- due; and there is never more than one.
  pub calls-IsRefreshing :
      (datas : ℕ → InstanceData engine) (memory : Memory) (s : GzScript engine Memory)
      → Reached host (new_script datas memory) s
      → IsRefreshing host editor s
  calls-IsRefreshing datas memory s r =
      reached-IsRefreshing (new_script datas memory) s (new_script-IsRefreshing datas memory) r

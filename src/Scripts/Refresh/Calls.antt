-- ===== src/Scripts/Refresh/Calls.antt =====
-- The invariant of the refresh in src/gz_script.cpp, and that a deferred call keeps it.
use gzscript.Base.{
  ℕ, zero, suc, ◌≡◌, ◌∙◌, refl, sym, ap, subst, ◌+◌, ◌-◌, ◌==◌, ==_iff, ltb, if◌then◌else◌, Bool,
  true, false, not, ◌||◌, List, [], ◌∷◌, some, is_none, length, arith, if_cases, Bool-cases, ◌⊎◌,
  inl, inr, some_inj,
}
use gzscript.Compiled.Engine.{Engine}
use gzscript.Scripts.Instances.{Host, InstanceData, GzScript, has_instance, list_from}
use gzscript.Scripts.Refresh.{
  schedule_pending_refresh, other_instances, refresh_each, conclude, apply_module,
  apply_pending_refresh,
}
use gzscript.Scripts.Refresh.Covered.{IsCovered, to_come, Leaves, refresh_each-Leaves}

list_from_end : (n : ℕ) (xs : List ℕ) → ltb n (length xs) ≡ false → list_from n xs ≡ []
unfolding list_from
list_from_end zero [] h = refl
list_from_end zero (x ∷ xs) h = ground (arith, h)
list_from_end (suc n) [] h = refl
list_from_end (suc n) (x ∷ xs) h = list_from_end n xs (ground (arith, h))

module _ {engine : Engine} {Memory : Type 0} (host : Host engine Memory)
    (editor : host.is_editor_hint ≡ true) where
  abbrev pub scheduled_calls : Bool → ℕ
  scheduled_calls scheduled = if scheduled then 1 else 0

  -- A live instance uses the module of the script, is still to come, or its refresh failed.
  abbrev pub IsKnown : GzScript engine Memory → ℕ → Type 0
  IsKnown s i = (m : ℕ) × ((s.current_module ≡ some m) × IsCovered host m (to_come host s) s i)

  pub record Ready (s : GzScript engine Memory) : Type 0 where
    pub calls : s.calls ≡ scheduled_calls s.refresh_call_scheduled
    pub pending :
        s.pending_refresh ≡ true
        → (m : ℕ) × ((s.pending_module ≡ some m) × (s.current_module ≡ some m))
    pub idle : s.pending_refresh ≡ false → to_come host s ≡ []
    pub known : (i : ℕ) → has_instance i s.instances ≡ true → IsKnown s i

  -- A pending refresh has its deferred call.
  pub record IsRefreshing (s : GzScript engine Memory) : Type 0 where
    pub ready : Ready s
    pub scheduled : s.pending_refresh ≡ true → s.refresh_call_scheduled ≡ true

  pub schedule_pending_refresh-IsRefreshing :
      (s : GzScript engine Memory) → Ready s → IsRefreshing (schedule_pending_refresh host s)
  unfolding schedule_pending_refresh
  schedule_pending_refresh-IsRefreshing s h =
      if_cases IsRefreshing
        (s.refresh_call_scheduled || (not s.pending_refresh || is_none s.pending_module))
        (λ b. record { ready = h; scheduled = λ p. ground (arith, b, p, (h.pending p).1.0) })
        (λ b. record {
          ready = record {
            calls = ground (arith, h.calls, b);
            pending = h.pending;
            idle = h.idle;
            known = h.known;
          };
          scheduled = λ p. refl;
        })

  pub has_instance-other_instances :
      (next : ℕ) (datas : ℕ → InstanceData engine) (xs : List ℕ) (i : ℕ)
      → has_instance i xs ≡ true
      → ((datas i).used_module ≡ next)
        ⊎ (has_instance i (other_instances host next datas xs) ≡ true)
  unfolding has_instance other_instances
  has_instance-other_instances next datas [] i h = ground (arith, h)
  has_instance-other_instances next datas (x ∷ xs) i h = elim (Bool-cases (x == i)) [
    | inl same ↦ at_head ((==_iff x i).0 same)
    | inr other ↦ in_tail (has_instance-other_instances next datas xs i (ground (arith, h, other)))
  ]
    where
      at_head :
          x ≡ i
          → ((datas i).used_module ≡ next)
            ⊎ (has_instance i (
                  if (datas x).used_module == next
                  then other_instances host next datas xs
                  else x ∷ other_instances host next datas xs)
                ≡ true)
      at_head e = elim (Bool-cases ((datas x).used_module == next)) [
        | inl uses ↦
            inl
              (ap (λ k. (datas k).used_module) (sym e) ∙ (==_iff (datas x).used_module next).0 uses)
        | inr not_yet ↦ inr (ground (arith, not_yet, e))
      ]

      in_tail :
          ((datas i).used_module ≡ next)
            ⊎ (has_instance i (other_instances host next datas xs) ≡ true)
          → ((datas i).used_module ≡ next)
            ⊎ (has_instance i (
                  if (datas x).used_module == next
                  then other_instances host next datas xs
                  else x ∷ other_instances host next datas xs)
                ≡ true)
      in_tail (inl e) = inl e
      in_tail (inr f) = inr (ground (arith, f))

  -- The loop is over, or waits for its next call.
  conclude-IsRefreshing :
      (next : ℕ) (rest : List ℕ) (s t : GzScript engine Memory)
      → Ready s
      → s.pending_refresh ≡ true
      → s.pending_module ≡ some next
      → s.current_module ≡ some next
      → Leaves host next rest s t
      → IsRefreshing (conclude host t)
  unfolding list_from
  conclude-IsRefreshing next rest s t h p e f l =
      let current = l.kept.current ∙ f in
      let known : (i : ℕ) → has_instance i t.instances ≡ true → IsKnown t i =
        λ i m. (next, (current, l.covers i m)) in
      let calls = l.kept.calls ∙ (h.calls ∙ ap scheduled_calls (sym l.kept.scheduled)) in
      if_cases IsRefreshing (ltb t.refresh_index (length t.pending_refresh_instances))
        (λ b. schedule_pending_refresh-IsRefreshing t (record {
          calls = calls;
          pending = λ q. (next, (l.kept.next ∙ e, current));
          idle = λ q. ground (arith, q, l.kept.pending, p);
          known = known;
        }))
        (λ b.
          let none_left = list_from_end t.refresh_index t.pending_refresh_instances b in
          record {
            ready = record {
              calls = calls;
              pending = λ q. ground (arith, q);
              idle = λ q. refl;
              known = λ i m. (
                next,
                (
                  current,
                  subst (λ (xs : List ℕ). IsCovered host next xs t i) none_left (l.covers i m),
                ),
              );
            };
            scheduled = λ q. ground (arith, q);
          })

  unfoldable pub called : GzScript engine Memory → GzScript engine Memory
  called s = record s { refresh_call_scheduled = false; calls = s.calls - 1 }

  pub called-Ready :
      (s : GzScript engine Memory) → (s.calls == 0) ≡ false → IsRefreshing s → Ready (called s)
  unfolding called
  called-Ready s due h = record {
    calls = ground (arith, due, h.ready.calls);
    pending = h.ready.pending;
    idle = h.ready.idle;
    known = h.ready.known;
  }

  pub known_at :
      (s : GzScript engine Memory) (next : ℕ)
      → s.current_module ≡ some next
      → (i : ℕ) → IsKnown s i
      → IsCovered host next (to_come host s) s i
  known_at s next f i (m, (c, v)) =
      subst (λ k. IsCovered host k (to_come host s) s i) (some_inj (sym c ∙ f)) v

  abbrev pub reading : GzScript engine Memory → GzScript engine Memory
  reading s = record s { reads = s.reads + 1 }

  abbrev pub loop_result : ℕ → GzScript engine Memory → GzScript engine Memory
  loop_result next s =
      refresh_each host (host.get_ticks_usec s.reads) 0 next (to_come host s) (reading s)

  pub loop_result-Leaves :
      (next : ℕ) (s : GzScript engine Memory)
      → Ready s
      → s.current_module ≡ some next
      → Leaves host next (to_come host s) (reading s) (loop_result next s)
  loop_result-Leaves next s h f =
      refresh_each-Leaves host (host.get_ticks_usec s.reads) 0 next (to_come host s) (reading s)
        refl (λ i m. known_at s next f i (h.known i m))

  apply_module-IsRefreshing :
      (s : GzScript engine Memory)
      → Ready s
      → s.pending_refresh ≡ true
      → IsRefreshing (apply_module host s.pending_module s)
  apply_module-IsRefreshing s h p =
      let (next, (e, f)) = h.pending p in
      subst (λ o. IsRefreshing (apply_module host o s)) (sym e)
        (conclude-IsRefreshing next (to_come host s) (reading s) (loop_result next s)
          (record { calls = h.calls; pending = h.pending; idle = h.idle; known = h.known }) p e f
          (loop_result-Leaves next s h f))

  pub apply_pending_refresh-IsRefreshing :
      (s : GzScript engine Memory)
      → (s.calls == 0) ≡ false
      → IsRefreshing s
      → IsRefreshing (apply_pending_refresh host s)
  unfolding apply_pending_refresh called
  apply_pending_refresh-IsRefreshing s due h =
      let ready : Ready (called s) = called-Ready s due h in
      if_cases IsRefreshing s.pending_refresh (λ b. apply_module-IsRefreshing (called s) ready b)
        (λ b. record { ready = ready; scheduled = λ p. ground (arith, p, b) })

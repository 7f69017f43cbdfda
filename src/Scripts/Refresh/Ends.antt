-- ===== src/Scripts/Refresh/Ends.antt =====
-- The refresh of the instances in src/gz_script.cpp comes to its end.
use gzscript.Base.{
  ℕ, zero, suc, ◌≡◌, sym, subst, ◌+◌, ◌<◌, ◌==◌, ltb, if◌then◌else◌, true, false, not, ◌||◌, List,
  [], ◌∷◌, some, is_none, length, arith, if_cases, if_both, Bool-cases, ◌⊎◌, inl, inr,
}
use gzscript.Compiled.Engine.{Engine}
use gzscript.Scripts.Instances.{Host, InstanceData, GzScript, new_script, has_instance, list_from}
use gzscript.Scripts.Refresh.{
  Reached, schedule_pending_refresh, conclude, apply_module, apply_pending_refresh,
}
use gzscript.Scripts.Refresh.Covered.{to_come, Leaves}
use gzscript.Scripts.Refresh.Calls.{
  IsRefreshing, IsKnown, called, called-Ready, reading, loop_result, loop_result-Leaves,
  apply_pending_refresh-IsRefreshing,
}
use gzscript.Scripts.Refresh.Always.{calls-IsRefreshing}

list_from_some : (n : ℕ) (xs : List ℕ) → ltb n (length xs) ≡ true → 0 < length (list_from n xs)
unfolding list_from
list_from_some zero [] h = ground (arith, h)
list_from_some zero (x ∷ xs) h = ground arith
list_from_some (suc n) [] h = ground (arith, h)
list_from_some (suc n) (x ∷ xs) h = list_from_some n xs (ground (arith, h))

module _ {engine : Engine} {Memory : Type 0} (host : Host engine Memory)
    (editor : host.is_editor_hint ≡ true) where
  -- Godot makes the deferred calls that are due, at most so many.
  unfoldable pub run_deferred : ℕ → GzScript engine Memory → GzScript engine Memory
  unfolding apply_pending_refresh
  run_deferred zero s = s
  run_deferred (suc n) s =
      let rest = run_deferred n (apply_pending_refresh host s) in if s.calls == 0 then s else rest

  abbrev Shortens : GzScript engine Memory → GzScript engine Memory → Type 0
  Shortens s t = t.pending_refresh ≡ true → length (to_come host t) < length (to_come host s)

  conclude-Shortens :
      (next : ℕ) (s t : GzScript engine Memory)
      → Leaves host next (to_come host s) s t
      → Shortens s (conclude host t)
  unfolding schedule_pending_refresh
  conclude-Shortens next s t l =
      if_cases (Shortens s) (ltb t.refresh_index (length t.pending_refresh_instances))
        (λ b.
          let some_left = list_from_some t.refresh_index t.pending_refresh_instances b in
          if_both (Shortens s)
            (t.refresh_call_scheduled || (not t.pending_refresh || is_none t.pending_module))
            {x = t} {y = record t { refresh_call_scheduled = true; calls = t.calls + 1 }}
            (λ p. ground (arith, l.shorter, some_left)) (λ p. ground (arith, l.shorter, some_left)))
        (λ b p. ground (arith, p))

  apply_pending_refresh-Shortens :
      (s : GzScript engine Memory)
      → (s.calls == 0) ≡ false
      → IsRefreshing host editor s
      → Shortens s (apply_pending_refresh host s)
  unfolding apply_pending_refresh called
  apply_pending_refresh-Shortens s due h =
      let ready = called-Ready host editor s due h in
      if_cases (Shortens s) s.pending_refresh
        (λ b.
          let (next, (e, f)) = ready.pending b in
          subst (λ o. Shortens s (apply_module host o (called host editor s))) (sym e)
            (conclude-Shortens next (reading host editor (called host editor s))
              (loop_result host editor next (called host editor s))
              (loop_result-Leaves host editor next (called host editor s) ready f)))
        (λ b p. ground (arith, p, b))

  apply_only_pending :
      (s : GzScript engine Memory)
      → (apply_pending_refresh host s).pending_refresh ≡ true
      → s.pending_refresh ≡ true
  unfolding apply_pending_refresh
  apply_only_pending s =
      if_cases (λ (t : GzScript engine Memory). t.pending_refresh ≡ true → s.pending_refresh ≡ true)
        s.pending_refresh (λ b p. b) (λ b p. p)

  run_deferred-IsRefreshing :
      (n : ℕ) (s : GzScript engine Memory)
      → IsRefreshing host editor s
      → (s.pending_refresh ≡ true → length (to_come host s) < n)
      → ((run_deferred n s).pending_refresh ≡ false) × IsRefreshing host editor (run_deferred n s)
  unfolding run_deferred
  run_deferred-IsRefreshing zero s h few = (not_pending (Bool-cases s.pending_refresh), h)
    where
      not_pending :
          (s.pending_refresh ≡ true) ⊎ (s.pending_refresh ≡ false) → s.pending_refresh ≡ false
      not_pending (inl p) = ground (arith, few p)
      not_pending (inr p) = p
  run_deferred-IsRefreshing (suc n) s h few =
      if_cases
        (λ (t : GzScript engine Memory). (t.pending_refresh ≡ false) × IsRefreshing host editor t)
        (s.calls == 0) (λ b. (ground (arith, b, h.scheduled, h.ready.calls), h))
        (λ b.
          run_deferred-IsRefreshing n (apply_pending_refresh host s)
            (apply_pending_refresh-IsRefreshing host editor s b h)
            (λ p.
              ground (arith, apply_pending_refresh-Shortens s b h p, few (apply_only_pending s p))))

  -- A live instance that was refreshed, or could not be.
  abbrev pub IsRefreshed : GzScript engine Memory → ℕ → Type 0
  IsRefreshed s i =
      (m : ℕ) × ((s.current_module ≡ some m)
        × (((s.datas i).used_module ≡ m) ⊎ (has_instance i s.failed ≡ true)))

  known-IsRefreshed :
      (s : GzScript engine Memory) (i : ℕ)
      → to_come host s ≡ []
      → IsKnown host editor s i
      → IsRefreshed s i
  unfolding has_instance
  known-IsRefreshed s i e (m, (c, inl used)) = (m, (c, inl used))
  known-IsRefreshed s i e (m, (c, inr (inr failed))) = (m, (c, inr failed))
  known-IsRefreshed s i e (m, (c, inr (inl ahead))) =
      let nowhere = subst (λ (xs : List ℕ). has_instance i xs ≡ true) e ahead in
      ground (arith, nowhere)

  -- In the editor, the refresh of a new script ends, whatever was published to it and whatever
  -- instances came and went before: when Godot makes the deferred calls that are due, one more than
  -- there are instances to be refreshed suffices, whatever time they take; then each live instance
  -- uses the module of the script, or its refresh failed.
  pub run_deferred-IsRefreshed :
      (datas : ℕ → InstanceData engine) (memory : Memory) (n : ℕ) (s : GzScript engine Memory)
      → Reached host (new_script datas memory) s
      → length (to_come host s) < n
      → ((run_deferred n s).pending_refresh ≡ false)
        × ((i : ℕ)
            → has_instance i (run_deferred n s).instances ≡ true
            → IsRefreshed (run_deferred n s) i)
  run_deferred-IsRefreshed datas memory n s r few =
      let (over, k) =
        run_deferred-IsRefreshing n s (calls-IsRefreshing host editor datas memory s r)
          (λ p. few) in
      (over, λ i m. known-IsRefreshed (run_deferred n s) i (k.ready.idle over) (k.ready.known i m))

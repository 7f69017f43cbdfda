-- ===== src/Scripts/Refresh/Covered.antt =====
-- No instance is forgotten when src/gz_script.cpp refreshes the instances of a script.
use gzscript.Base.{
  ℕ, zero, suc, ◌≡◌, ◌∙◌, refl, sym, ap, subst, ◌+◌, ◌-◌, ◌≤◌, ◌==◌, ==_iff, Bool, true, false, not,
  ◌||◌, List, [], ◌∷◌, Option, none, some, length, arith, if_cases, if_both, elim_cases, Bool-cases,
  ◌⊎◌, inl, inr,
}
use gzscript.Compiled.Engine.{Engine}
use gzscript.Scripts.Instances.{
  Host, InstanceData, GzScript, has_instance, list_from, adopt, after_copy, after_create,
  migrate_editor_instance, copy_each, properties_of,
}
use gzscript.Scripts.Refresh.{after_migrate, refresh_instance, is_enough, refresh_each}

list_from-next :
    (n : ℕ) (xs : List ℕ) (i : ℕ) (rest : List ℕ)
    → list_from n xs ≡ i ∷ rest
    → list_from (n + 1) xs ≡ rest
unfolding list_from
list_from-next zero [] i rest e = ground (arith, e)
list_from-next zero (x ∷ xs) i rest e = ground (arith, e)
list_from-next (suc n) [] i rest e = ground (arith, e)
list_from-next (suc n) (x ∷ xs) i rest e =
    let same : suc n + 1 ≡ suc (n + 1) = omega arith in
    ap (λ k. list_from k (x ∷ xs)) same ∙ list_from-next n xs i rest e

module _ {engine : Engine} {Memory : Type 0} (host : Host engine Memory) where
  abbrev pub S : Type 0
  S = GzScript engine Memory

  -- What the refresh of an instance leaves as it is.
  pub record Kept (s t : GzScript engine Memory) : Type 0 where
    pub instances : t.instances ≡ s.instances
    pub current : t.current_module ≡ s.current_module
    pub list : t.pending_refresh_instances ≡ s.pending_refresh_instances
    pub pending : t.pending_refresh ≡ s.pending_refresh
    pub next : t.pending_module ≡ s.pending_module
    pub scheduled : t.refresh_call_scheduled ≡ s.refresh_call_scheduled
    pub calls : t.calls ≡ s.calls

  Kept-trans : {s t u : S} → Kept s t → Kept t u → Kept s u
  Kept-trans a b = record {
    instances = b.instances ∙ a.instances;
    current = b.current ∙ a.current;
    list = b.list ∙ a.list;
    pending = b.pending ∙ a.pending;
    next = b.next ∙ a.next;
    scheduled = b.scheduled ∙ a.scheduled;
    calls = b.calls ∙ a.calls;
  }

  keeps :
      {s t : S}
      → t.instances ≡ s.instances
      → t.current_module ≡ s.current_module
      → t.pending_refresh_instances ≡ s.pending_refresh_instances
      → t.pending_refresh ≡ s.pending_refresh
      → t.pending_module ≡ s.pending_module
      → t.refresh_call_scheduled ≡ s.refresh_call_scheduled
      → t.calls ≡ s.calls
      → Kept s t
  keeps a b c d e f g = record {
    instances = a;
    current = b;
    list = c;
    pending = d;
    next = e;
    scheduled = f;
    calls = g;
  }

  -- An instance that uses the module, is still to come, or failed.
  abbrev pub IsCovered : ℕ → List ℕ → S → ℕ → Type 0
  IsCovered next rest s i =
      ((s.datas i).used_module ≡ next)
      ⊎ ((has_instance i rest ≡ true) ⊎ (has_instance i s.failed ≡ true))

  abbrev pub Covers : ℕ → List ℕ → S → Type 0
  Covers next rest s = (i : ℕ) → has_instance i s.instances ≡ true → IsCovered next rest s i

  -- What is done for one instance.
  pub record Moves (i next : ℕ) (s t : GzScript engine Memory) : Type 0 where
    pub kept : Kept s t
    pub index : t.refresh_index ≡ s.refresh_index
    pub others : (j : ℕ) → (j == i) ≡ false → (t.datas j).used_module ≡ (s.datas j).used_module
    pub still : (j : ℕ) → has_instance j s.failed ≡ true → has_instance j t.failed ≡ true
    pub moved : ((t.datas i).used_module ≡ next) ⊎ (has_instance i t.failed ≡ true)

  notice-Moves :
      (i next : ℕ) (s t : S) → Moves i next s t → Moves i next s (after_migrate host i (true, t))
  notice-Moves i next s t m =
      if_both (λ q. Moves i next s q) t.pending_exports_changed
        (record {
          kept = Kept-trans m.kept (keeps refl refl refl refl refl refl refl);
          index = m.index;
          others = m.others;
          still = m.still;
          moved = m.moved;
        })
        m

  refresh_instance-Moves : (i next : ℕ) (s : S) → Moves i next s (refresh_instance host i next s)
  unfolding refresh_instance migrate_editor_instance has_instance
  refresh_instance-Moves i next s =
      on_create (host.zig.create_instance next (s.datas i).owner s.memory)
    where
      failing :
          (m : Memory) → Moves i next s (after_migrate host i (false, record s { memory = m }))
      failing m = record {
        kept = keeps refl refl refl refl refl refl refl;
        index = refl;
        others = λ j e. refl;
        still = λ j e. ground (arith, e);
        moved = inr (ground arith);
      }

      adopting :
          (new : ℕ) (m : Memory)
          → Moves i next s (after_migrate host i (true, adopt host i (s.datas i) next new m s))
      adopting new m = notice-Moves i next s _ (record {
        kept = keeps refl refl refl refl refl refl refl;
        index = refl;
        others = λ j e.
            if_cases (λ (d : InstanceData engine). d.used_module ≡ (s.datas j).used_module) (j == i)
              (λ b. ground (arith, b, e)) (λ b. refl);
        still = λ j e. e;
        moved = inl (
            if_cases (λ (d : InstanceData engine). d.used_module ≡ next) (i == i) (λ b. refl)
              (λ b. ground (arith, b)));
      })

      on_copy :
          (new : ℕ) (r : Bool × Memory)
          → Moves i next s (after_migrate host i (after_copy host i (s.datas i) next new s r))
      on_copy new (false, m) = failing (host.zig.destroy_instance next new m)
      on_copy new (true, m) = adopting new m

      on_create :
          (r : Option ℕ × Memory)
          → Moves i next s (after_migrate host i (after_create host i next s r))
      on_create (none, m) = failing m
      on_create (some new, m) = on_copy new (
          copy_each host (s.datas i).used_module (s.datas i).zig_instance next new 0
            (properties_of host (s.datas i).used_module) m)

  -- What one round makes of what is covered.
  round-Covers :
      (i next : ℕ) (rest : List ℕ) (s t : S)
      → Moves i next s t
      → Covers next (i ∷ rest) s
      → Covers next rest t
  unfolding has_instance
  round-Covers i next rest s t m c j h = elim (Bool-cases (j == i)) [
    | inl same ↦ subst (λ k. IsCovered next rest t k) (sym ((==_iff j i).0 same)) (on_moved m.moved)
    | inr other ↦ on_covered other (c j (ap (λ is. has_instance j is) (sym m.kept.instances) ∙ h))
  ]
    where
      on_moved :
          ((t.datas i).used_module ≡ next) ⊎ (has_instance i t.failed ≡ true)
          → IsCovered next rest t i
      on_moved (inl e) = inl e
      on_moved (inr f) = inr (inr f)

      on_covered : (j == i) ≡ false → IsCovered next (i ∷ rest) s j → IsCovered next rest t j
      on_covered other (inl e) = inl (m.others j other ∙ e)
      on_covered other (inr (inl in_rest)) = inr (inl (ground (arith, in_rest, other)))
      on_covered other (inr (inr failed)) = inr (inr (m.still j failed))

  -- An instance that is gone or was moved needs nothing.
  skip-Covers :
      (i next : ℕ) (rest : List ℕ) (s : S)
      → (not (has_instance i s.instances) || ((s.datas i).used_module == next)) ≡ true
      → Covers next (i ∷ rest) s
      → Covers next rest s
  unfolding has_instance
  skip-Covers i next rest s b c j h = elim (Bool-cases (j == i)) [
    | inl same ↦
        let e = (==_iff j i).0 same in
        let there = subst (λ k. has_instance k s.instances ≡ true) e h in
        inl (ap (λ k. (s.datas k).used_module) e ∙ (==_iff _ next).0 (ground (arith, b, there)))
    | inr other ↦ on_covered other (c j h)
  ]
    where
      on_covered : (j == i) ≡ false → IsCovered next (i ∷ rest) s j → IsCovered next rest s j
      on_covered other (inl e) = inl e
      on_covered other (inr (inl in_rest)) = inr (inl (ground (arith, in_rest, other)))
      on_covered other (inr (inr failed)) = inr (inr failed)

  abbrev pub to_come : GzScript engine Memory → List ℕ
  to_come s = list_from s.refresh_index s.pending_refresh_instances

  -- What the loop leaves: what is still to come is covered, and is less.
  pub record Leaves (next : ℕ) (rest : List ℕ) (s t : GzScript engine Memory) : Type 0 where
    pub kept : Kept s t
    pub covers : Covers next (to_come t) t
    pub shorter : length (to_come t) ≤ length rest - 1

  after_round :
      (i next : ℕ) (rest : List ℕ) {s t u : S}
      → Kept s t
      → Leaves next rest t u
      → Leaves next (i ∷ rest) s u
  after_round i next rest k l = record {
    kept = Kept-trans k l.kept;
    covers = l.covers;
    shorter = ground (arith, l.shorter);
  }

  -- The loop may stop where nothing changed since a round.
  stop_here :
      (i next : ℕ) (rest : List ℕ) (s t : S)
      → Kept s t
      → to_come t ≡ rest
      → Covers next rest t
      → Leaves next (i ∷ rest) s t
  stop_here i next rest s t k e c = record {
    kept = k;
    covers = subst (λ (xs : List ℕ). Covers next xs t) (sym e) c;
    shorter = ground (arith, ap length e);
  }

  pub refresh_each-Leaves :
      (started processed next : ℕ) (rest : List ℕ) (s : S)
      → to_come s ≡ rest
      → Covers next rest s
      → Leaves next rest s (refresh_each host started processed next rest s)
  unfolding refresh_each
  refresh_each-Leaves started processed next [] s e c = record {
    kept = keeps refl refl refl refl refl refl refl;
    covers = subst (λ (xs : List ℕ). Covers next xs s) (sym e) c;
    shorter = ground (arith, ap length e);
  }
  refresh_each-Leaves started processed next (i ∷ rest) s0 e c =
      let s : S = record s0 { refresh_index = s0.refresh_index + 1 } in
      let moved : S = refresh_instance host i next s in
      let done : S = record moved { reads = s0.reads + 1 } in
      let at : to_come s ≡ rest =
        list_from-next s0.refresh_index s0.pending_refresh_instances i rest e in
      let m = refresh_instance-Moves i next s in
      let same : to_come done ≡ rest =
        ap (λ n. list_from n done.pending_refresh_instances) m.index
        ∙ (ap (λ (xs : List ℕ). list_from s.refresh_index xs) m.kept.list ∙ at) in
      let first : Kept s0 s = keeps refl refl refl refl refl refl refl in
      let second : Kept s0 done =
        Kept-trans first (Kept-trans m.kept (keeps refl refl refl refl refl refl refl)) in
      let here = round-Covers i next rest s moved m (λ j h. c j h) in
      let over : Covers next rest done = λ j h. here j h in
      elim_cases (λ q. Leaves next (i ∷ rest) s0 q)
        (not (has_instance i s.instances) || ((s.datas i).used_module == next))
        (λ b. after_round i next rest first (
          refresh_each-Leaves started processed next rest s at
            (skip-Covers i next rest s b (λ j h. c j h))))
        (λ b.
          elim_cases (λ q. Leaves next (i ∷ rest) s0 q)
            (is_enough host started (processed + 1) moved)
            (λ enough. stop_here i next rest s0 done second same over)
            (λ more.
              after_round i next rest second
                (refresh_each-Leaves started (processed + 1) next rest done same over)))

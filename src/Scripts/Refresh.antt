-- ===== src/Scripts/Refresh.antt =====
-- How src/gz_script.cpp moves the instances of a script to a new module: `publish_module`,
-- `_schedule_pending_refresh` and `_apply_pending_refresh`.
pub mod Covered
pub mod Calls
pub mod Always
pub mod Ends
use gzscript.Scripts.Instances.{
  GzScript, Host, InstanceData, has_instance, instance_create, instance_free, list_from,
  migrate_editor_instance,
}
use gzscript.Base.{
  ℕ, zero, suc, ◌≡◌, ◌+◌, ◌-◌, ◌%◌, ◌^◌, ◌==◌, ltb, leb, if◌then◌else◌, Bool, true, false, not,
  ◌&&◌, ◌||◌, List, [], ◌∷◌, ◌++◌, Bytes, Option, none, some, is_empty, is_none, length, get_elem?,
}
use gzscript.Compiled.Abi.{Value, PropertyDescriptor, ScriptDescriptor}
use gzscript.Compiled.Engine.{Engine, Variant, nil, object}
use gzscript.Compiled.Codec.{from_view, to_variant, no_data}
use gzscript.Compiled.Load.{Module, find_property}

module _ {engine : Engine} {Memory : Type 0} (host : Host engine Memory) where
  unfoldable pub schedule_pending_refresh : GzScript engine Memory → GzScript engine Memory
  schedule_pending_refresh s =
      if s.refresh_call_scheduled || (not s.pending_refresh || is_none s.pending_module)
      then s
      else record s { refresh_call_scheduled = true; calls = s.calls + 1 }

  -- The instances that do not use a module.
  unfoldable pub other_instances : ℕ → (ℕ → InstanceData engine) → List ℕ → List ℕ
  other_instances next datas [] = []
  other_instances next datas (i ∷ is) =
      let rest = other_instances next datas is in
      if (datas i).used_module == next then rest else i ∷ rest

  abbrev pub differs : ℕ → Option ℕ → Bool
  differs next none = true
  differs next (some current) = host.exports_differ current next

  -- The module is the script's; exports and listeners are told.
  abbrev pub take_module : ℕ → GzScript engine Memory → GzScript engine Memory
  take_module next s = record s {
    current_module = some next;
    valid = true;
    changes = s.changes + 1;
  }

  abbrev pub snapshot_instances : ℕ → Bool → GzScript engine Memory → GzScript engine Memory
  snapshot_instances next exports_changed s =
      let others = other_instances next s.datas s.instances in
      record s {
        pending_refresh_instances = others;
        refresh_index = 0;
        failed = [];
        pending_module = if is_empty others then none else some next;
        pending_exports_changed = not (is_empty others) && exports_changed;
        pending_refresh = not (is_empty others);
      }

  abbrev pub start_refresh : GzScript engine Memory → GzScript engine Memory
  start_refresh s = if s.pending_refresh then schedule_pending_refresh s else s

  unfoldable pub publish_module : Option ℕ → GzScript engine Memory → GzScript engine Memory
  unfolding schedule_pending_refresh other_instances
  publish_module none s = s
  publish_module (some next) s =
      let changed = differs next s.current_module in
      if not host.is_editor_hint
      then take_module next s
      else start_refresh (snapshot_instances next changed (take_module next s))

  -- What is done for an instance whose turn it is.
  abbrev pub after_migrate : ℕ → Bool × GzScript engine Memory → GzScript engine Memory
  after_migrate i (false, s) = record s { failed = i ∷ s.failed }
  after_migrate i (true, s) =
      if s.pending_exports_changed
      then record s { notified = (s.datas i).owner ∷ s.notified }
      else s

  unfoldable pub refresh_instance : ℕ → ℕ → GzScript engine Memory → GzScript engine Memory
  unfolding migrate_editor_instance
  refresh_instance i next s = after_migrate i (migrate_editor_instance host i next s)

  abbrev pub elapsed_usec : ℕ → ℕ → ℕ
  elapsed_usec since now = (now + (2 ^ 64 - since)) % 2 ^ 64

  -- Whether the loop has done enough for now.
  abbrev pub is_enough : ℕ → ℕ → GzScript engine Memory → Bool
  is_enough started processed s =
      leb 8 processed && leb 2000 (elapsed_usec started (host.get_ticks_usec s.reads))

  -- The loop over the instances that are left.
  unfoldable pub refresh_each : ℕ → ℕ → ℕ → List ℕ → GzScript engine Memory → GzScript engine Memory
  unfolding refresh_instance has_instance
  refresh_each started processed next [] s = s
  refresh_each started processed next (i ∷ rest) s0 =
      let s = record s0 { refresh_index = s0.refresh_index + 1 } in
      let done = record (refresh_instance i next s) { reads = s0.reads + 1 } in
      elim (not (has_instance i s.instances) || ((s.datas i).used_module == next)) [
        | true ↦ refresh_each started processed next rest s
        | false ↦ elim (is_enough started (processed + 1) (refresh_instance i next s)) [
          | true ↦ done
          | false ↦ refresh_each started (processed + 1) next rest done
        ]
      ]

  abbrev pub end_refresh : GzScript engine Memory → GzScript engine Memory
  end_refresh s = record s {
    pending_refresh = false;
    pending_exports_changed = false;
    pending_module = none;
    pending_refresh_instances = [];
    refresh_index = 0;
  }

  abbrev pub conclude : GzScript engine Memory → GzScript engine Memory
  conclude s =
      if ltb s.refresh_index (length s.pending_refresh_instances)
      then schedule_pending_refresh s
      else end_refresh s

  abbrev pub apply_module : Option ℕ → GzScript engine Memory → GzScript engine Memory
  apply_module none s = s
  apply_module (some next) s = conclude (
      refresh_each (host.get_ticks_usec s.reads) 0 next
        (list_from s.refresh_index s.pending_refresh_instances) (record s { reads = s.reads + 1 }))

  -- `_apply_pending_refresh`, which Godot calls when a deferred call is due.
  unfoldable pub apply_pending_refresh : GzScript engine Memory → GzScript engine Memory
  unfolding refresh_each schedule_pending_refresh list_from
  apply_pending_refresh s0 =
      let s = record s0 { refresh_call_scheduled = false; calls = s0.calls - 1 } in
      if s.pending_refresh then apply_module s.pending_module s else s

  -- The scripts that there are after some calls on one. A deferred call comes when one is due, a new
  -- instance is where none is.
  pub data Reached (s0 : GzScript engine Memory) : GzScript engine Memory → Type 0 where
    uncalled : Reached s0 s0
    published :
        (next : Option ℕ) {s : GzScript engine Memory}
        → Reached s0 s
        → Reached s0 (publish_module next s)
    refreshed :
        {s : GzScript engine Memory}
        → Reached s0 s
        → (s.calls == 0) ≡ false
        → Reached s0 (apply_pending_refresh s)
    created :
        (i owner : ℕ) {s : GzScript engine Memory}
        → Reached s0 s
        → Reached s0 (instance_create host i owner s).1
    freed :
        (i : ℕ) {s : GzScript engine Memory} → Reached s0 s → Reached s0 (instance_free host i s)

-- ===== src/Build/Plan/Key.antt =====
-- What a plan of `prepare` in src/gz_build_manager.cpp stands for, and what its key tells.
use gzscript.Base.{
  Bool-cases, ◌⊎◌, inl, inr, ◌≢◌, ℕ, ◌≡◌, ◌∙◌, refl, sym, ap, ◌==◌, Bool, true, false, not, ◌||◌,
  Bytes, ◌===◌, ===_iff, codes, Option, none, some, is_empty, is_none, arith, if_cases,
}
use gzscript.Base.Assoc.{lookup}
use gzscript.Build.Queue.{CompilePlan}
use gzscript.Build.Identity.{
  valid_optimization, Inputs, compilation_identity, compilation_identity_inj,
}
use gzscript.Build.Cache.{Files, Disk}
use gzscript.Build.Dependencies.{or_empty}
use gzscript.Build.Plan.Tree.{Treed, hashed, unreadable}
use gzscript.Build.Plan.{
  Project, ZigVersion, Prepared, prepared, not_prepared, fail_if, normalize_source,
  get_zig_executable, input_error, query_version, user_tree, sdk_tree, inputs_of, key_of, target,
  make_plan, with_trees, with_version, prepare, compiler_cache, platform, directory_error,
  extension,
}

-- The text of a script on disk, as it is compared.
abbrev pub text_on_disk : Project → Bytes → Files → Bytes
text_on_disk p resource_path files =
    normalize_source p (or_empty (lookup (p.globalize_path resource_path) files))

pub record Planned (p : Project) (resource_path source : Bytes) (files : Files) (plan : CompilePlan)
    : Type 0 where
  pub user : Bytes
  pub sdk : Bytes
  pub version : ZigVersion
  pub user_read : user_tree p (p.globalize_path resource_path) files ≡ hashed user
  pub sdk_read : sdk_tree p files ≡ hashed sdk
  pub supported : version.version ≡ codes "0.16.0"
  pub on_disk : text_on_disk p resource_path files ≡ normalize_source p source
  pub valid : valid_optimization p.optimization ≡ true
  pub key :
      plan.key
      ≡ key_of p (inputs_of p resource_path source (get_zig_executable p files) version user sdk)

-- A check that did not fail.
past :
    {A : Type 0} (bad : Bool) (text : Bytes) {rest : Option Bytes}
    → (bad ≡ false → rest ≡ none → A)
    → fail_if bad text rest ≡ none
    → A
past true text next e = ground (arith, e)
past false text next e = next refl e

module _ (p : Project) {M : Type 0} (disk : Disk M) (resource_path source : Bytes)
    (files : Files) where
  input_error-none :
      input_error p resource_path source files ≡ none
      → (text_on_disk p resource_path files ≡ normalize_source p source)
        × (valid_optimization p.optimization ≡ true)
  unfolding input_error
  input_error-none =
      past (is_empty (platform p) || (is_empty (extension p) || is_empty (target p))) _ (λ b1.
        past (not (directory_error p == 0)) _ (λ b2.
          past (is_none (lookup (p.globalize_path resource_path) files)) _ (λ b3.
            past (not (text_on_disk p resource_path files === normalize_source p source)) _ (λ b4.
              past (not (valid_optimization p.optimization)) _ (λ b5 e. (
                (===_iff (text_on_disk p resource_path files) (normalize_source p source)).0
                    (ground (arith, b4)),
                ground (arith, b5),
              ))))))

  trees-Planned :
      (version : ZigVersion) (id : ℕ) (plan : CompilePlan) (user sdk : Treed)
      → version.version ≡ codes "0.16.0"
      → input_error p resource_path source files ≡ none
      → user_tree p (p.globalize_path resource_path) files ≡ user
      → sdk_tree p files ≡ sdk
      → with_trees p disk resource_path source
          (get_zig_executable p files)
          version
          id
          files
          user
          sdk
        ≡ prepared plan
      → Planned p resource_path source files plan
  unfolding make_plan
  trees-Planned version id plan (unreadable text) sdk v i u k e = ground (arith, e)
  trees-Planned version id plan (hashed user) (unreadable text) v i u k e = ground (arith, e)
  trees-Planned version id plan (hashed user) (hashed sdk) v i u k x =
      if_cases (λ q. q ≡ prepared plan → Planned p resource_path source files plan)
        (p.make_dir (compiler_cache p) == 0)
        (λ b e. record {
          user = user;
          sdk = sdk;
          version = version;
          user_read = u;
          sdk_read = k;
          supported = v;
          on_disk = (input_error-none i).0;
          valid = (input_error-none i).1;
          key = plan_key e;
        })
        (λ b e. ground (arith, e)) x
    where
      plan_key : {made : CompilePlan} → prepared made ≡ prepared plan → plan.key ≡ made.key
      plan_key e = ground (arith, e)

  version-Planned :
      (id : ℕ) (plan : CompilePlan) (answer : Option Bytes × ZigVersion)
      → input_error p resource_path source files ≡ none
      → (with_version p disk resource_path source (get_zig_executable p files) id files answer).0
        ≡ prepared plan
      → Planned p resource_path source files plan
  version-Planned id plan (some text, version) i x = ground (arith, x)
  version-Planned id plan (none, version) i x =
      if_cases
        (λ (q : Prepared × ZigVersion).
          q.0 ≡ prepared plan → Planned p resource_path source files plan)
        (not (version.version === codes "0.16.0")) (λ b e. ground (arith, e))
        (λ b.
          trees-Planned version id plan _ _
            ((===_iff version.version (codes "0.16.0")).0 (ground (arith, b))) i refl refl)
        x

  pub prepare-Planned :
      (id : ℕ) (cached : ZigVersion) (plan : CompilePlan)
      → (prepare p disk resource_path source id files cached).0 ≡ prepared plan
      → Planned p resource_path source files plan
  unfolding prepare
  prepare-Planned id cached plan =
      if_cases
        (λ (q : Prepared × ZigVersion).
          q.0 ≡ prepared plan → Planned p resource_path source files plan)
        (not p.is_main_thread) (λ b e. ground (arith, e))
        (λ b. on_error (input_error p resource_path source files) refl)
    where
      on_error :
          (error : Option Bytes)
          → input_error p resource_path source files ≡ error
          → (elim error as (λ x. Prepared × ZigVersion) [
            | some text ↦ (not_prepared text, cached)
            | none ↦
                with_version p disk resource_path source
                  (get_zig_executable p files)
                  id
                  files
                  (query_version p (get_zig_executable p files) cached)
          ]).0
            ≡ prepared plan
          → Planned p resource_path source files plan
      on_error (some text) i e = ground (arith, e)
      on_error none i e =
          version-Planned id plan (query_version p (get_zig_executable p files) cached) i e

-- What two plans of one key agree on.
pub record SameInputs (p q : Project) (a b : Bytes) (files files1 : Files) : Type 0 where
  pub normalized_text : text_on_disk p a files ≡ text_on_disk q b files1
  pub user : user_tree p (p.globalize_path a) files ≡ user_tree q (q.globalize_path b) files1
  pub sdk : sdk_tree p files ≡ sdk_tree q files1
  pub compiler : get_zig_executable p files ≡ get_zig_executable q files1
  pub target_same : target p ≡ target q
  pub optimization : p.optimization ≡ q.optimization

-- What the key of a plan was made of.
abbrev planned_inputs :
    (p : Project) (a source : Bytes) (files : Files) (plan : CompilePlan)
    → Planned p a source files plan
    → Inputs
planned_inputs p a source files plan x =
    inputs_of p a source (get_zig_executable p files) x.version x.user x.sdk

same_inputs :
    (p q : Project) (a b source source1 : Bytes) (files files1 : Files) (plan plan1 : CompilePlan)
    (x : Planned p a source files plan) (y : Planned q b source1 files1 plan1)
    → planned_inputs p a source files plan x ≡ planned_inputs q b source1 files1 plan1 y
    → SameInputs p q a b files files1
same_inputs p q a b source source1 files files1 plan plan1 x y k = record {
  normalized_text = x.on_disk ∙ (ap (λ (n : Inputs). n.source) k ∙ sym y.on_disk);
  user = x.user_read ∙ (ap (λ (n : Inputs). hashed n.user_tree) k ∙ sym y.user_read);
  sdk = x.sdk_read ∙ (ap (λ (n : Inputs). hashed n.sdk_tree) k ∙ sym y.sdk_read);
  compiler = ap (λ (n : Inputs). n.zig_executable) k;
  target_same = ap (λ (n : Inputs). n.target) k;
  optimization = ap (λ (n : Inputs). n.optimization) k;
}

-- The two identities that were hashed to one key are different.
pub record Collides (p q : Project) (a b source source1 : Bytes) (files files1 : Files)
    (plan plan1 : CompilePlan) : Type 0 where
  pub first : Planned p a source files plan
  pub second : Planned q b source1 files1 plan1
  pub one_key : plan.key ≡ plan1.key
  pub differ :
      compilation_identity (planned_inputs p a source files plan first)
      ≢ compilation_identity (planned_inputs q b source1 files1 plan1 second)

-- Two preparations at different times, of any requests, that give the same key found the same text
-- of the script on disk after `normalize_source`, which forgets carriage returns before newlines and
-- blanks at both ends; the same fingerprints of what it depends on and of the SDK; and the same
-- compiler, target and optimization; or the hash collides on just the two identities.
pub prepare-SameInputs :
    {M : Type 0} (disk : Disk M) (p q : Project) (a b source source1 : Bytes) (id id1 : ℕ)
    (files files1 : Files) (cached cached1 : ZigVersion) (plan plan1 : CompilePlan)
    → (prepare p disk a source id files cached).0 ≡ prepared plan
    → (prepare q disk b source1 id1 files1 cached1).0 ≡ prepared plan1
    → plan.key ≡ plan1.key
    → SameInputs p q a b files files1 ⊎ Collides p q a b source source1 files files1 plan plan1
prepare-SameInputs disk p q a b source source1 id id1 files files1 cached cached1 plan plan1 e f
      same =
    let x = prepare-Planned p disk a source files id cached plan e in
    let y = prepare-Planned q disk b source1 files1 id1 cached1 plan1 f in
    let i = planned_inputs p a source files plan x in
    let j = planned_inputs q b source1 files1 plan1 y in
    let agree = ===_iff (compilation_identity i) (compilation_identity j) in
    elim (Bool-cases (compilation_identity i === compilation_identity j)) [
      | inl equal ↦ inl (
          same_inputs p q a b source source1 files files1 plan plan1 x y
            (compilation_identity_inj i j (agree.0 equal)))
      | inr unequal ↦ inr (record {
        first = x;
        second = y;
        one_key = same;
        differ = λ k. ground (arith, unequal, agree.1 k);
      })
    ]

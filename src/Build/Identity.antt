-- ===== src/Build/Identity.antt =====
-- The identity of a compilation in src/gz_build_manager.cpp, whose hash is the key of the cache, and
-- the names for the target that go into it.
use gzscript.Base.{
  ℕ, suc, ◌≡◌, ◌∙◌, refl, sym, ap, ◌===◌, if◌then◌else◌, Bool, ◌&&◌, ◌||◌, List, [], ◌∷◌, ◌++◌,
  Bytes, codes, length, map, All, arith, append_nil,
}
use gzscript.Lsp.Header.{IsDigit, decimal}
use gzscript.Lsp.Frame.{to_string}
use gzscript.Lsp.Frame.RoundTrip.{append_assoc_bytes, digits-All, decimal-digits}

-- `String::num_int64` writes a number as `std::to_string` does.
unfoldable pub append_identity : Bytes → Bytes → Bytes → Bytes
append_identity identity label value =
    identity ++ (label ++ 58 ∷ (to_string (length value) ++ 58 ∷ (value ++ 10 ∷ [])))

abbrev pub valid_optimization : Bytes → Bool
valid_optimization optimization =
    optimization === codes "Debug"
    || (optimization === codes "ReleaseSafe"
        || (optimization === codes "ReleaseFast" || optimization === codes "ReleaseSmall"))

unfoldable pub platform_name : Bytes → Bytes
platform_name name =
    if name === codes "macOS"
    then codes "macos"
    else if name === codes "Linux"
    then codes "linux"
    else if name === codes "Windows"
    then codes "windows"
    else []

unfoldable pub module_extension : Bytes → Bytes
module_extension platform =
    if platform === codes "macos"
    then codes ".dylib"
    else if platform === codes "linux"
    then codes ".so"
    else if platform === codes "windows"
    then codes ".dll"
    else []

unfoldable pub zig_architecture : Bytes → Bytes
zig_architecture architecture =
    if architecture === codes "x86_64"
    then codes "x86_64"
    else if architecture === codes "x86_32"
    then codes "x86"
    else if architecture === codes "arm64"
    then codes "aarch64"
    else if architecture === codes "arm32"
    then codes "arm"
    else if architecture === codes "rv64"
    then codes "riscv64"
    else if architecture === codes "ppc64"
    then codes "powerpc64le"
    else if architecture === codes "loongarch64"
    then codes "loongarch64"
    else []

unfoldable pub zig_target : Bytes → Bytes → Bytes
unfolding zig_architecture
zig_target platform architecture =
    if zig_architecture architecture === []
    then []
    else if platform === codes "linux"
    then zig_architecture architecture ++ codes "-linux-gnu"
    else if platform === codes "windows"
    then zig_architecture architecture ++ codes "-windows-gnu"
    else if platform === codes "macos"
        && (architecture === codes "x86_64" || architecture === codes "arm64")
    then zig_architecture architecture ++ codes "-macos"
    else []

-- What a compilation depends on, and how `prepare` labels it.
pub record Inputs : Type 0 where
  pub resource_path : Bytes
  pub source : Bytes
  pub user_tree : Bytes
  pub sdk_tree : Bytes
  pub adapter : Bytes
  pub abi : Bytes
  pub zig_executable : Bytes
  pub zig_version : Bytes
  pub platform : Bytes
  pub architecture : Bytes
  pub target : Bytes
  pub optimization : Bytes

abbrev pub parts : Inputs → List (Bytes × Bytes)
parts i =
    (codes "cache_format", codes "5")
    ∷ (codes "resource_path", i.resource_path)
    ∷ (codes "source", i.source)
    ∷ (codes "user_tree", i.user_tree)
    ∷ (codes "sdk_tree", i.sdk_tree)
    ∷ (codes "adapter", i.adapter)
    ∷ (codes "abi", i.abi)
    ∷ (codes "zig_executable", i.zig_executable)
    ∷ (codes "zig_version", i.zig_version)
    ∷ (codes "platform", i.platform)
    ∷ (codes "architecture", i.architecture)
    ∷ (codes "zig_target", i.target)
    ∷ (codes "optimization", i.optimization)
    ∷ []

-- The labels and values in the order in which `prepare` appends them.
unfoldable pub identity_of : Bytes → List (Bytes × Bytes) → Bytes
unfolding append_identity
identity_of identity [] = identity
identity_of identity ((label, value) ∷ parts) =
    identity_of (append_identity identity label value) parts

unfoldable pub compilation_identity : Inputs → Bytes
unfolding identity_of
compilation_identity i = identity_of [] (parts i)

-- What the parts add to an identity.
tail_of : List (Bytes × Bytes) → Bytes
tail_of [] = []
tail_of ((label, value) ∷ parts) =
    label ++ 58 ∷ (to_string (length value) ++ 58 ∷ (value ++ 10 ∷ tail_of parts))

digits_unique :
    (a b s t : Bytes)
    → All IsDigit a
    → All IsDigit b
    → a ++ 58 ∷ s ≡ b ++ 58 ∷ t
    → (a ≡ b) × (s ≡ t)
digits_unique [] [] s t h k e = (refl, ground arith)
digits_unique [] (d ∷ b) s t h k e = ground arith
digits_unique (c ∷ a) [] s t h k e = ground arith
digits_unique (c ∷ a) (d ∷ b) s t h k e =
    let (same, rest) = digits_unique a b s t h.1 k.1 (ground arith) in (ground arith, rest)

values_unique : (a b s t : Bytes) → length a ≡ length b → a ++ s ≡ b ++ t → (a ≡ b) × (s ≡ t)
values_unique [] [] s t n e = (refl, e)
values_unique [] (d ∷ b) s t n e = ground arith
values_unique (c ∷ a) [] s t n e = ground arith
values_unique (c ∷ a) (d ∷ b) s t n e =
    let (same, rest) = values_unique a b s t (ground arith) (ground arith) in (ground arith, rest)

label_cancel : (label s t : Bytes) → label ++ s ≡ label ++ t → s ≡ t
label_cancel label s t e = (values_unique label label s t refl e).1

decimal-to_string : (n : ℕ) → decimal (to_string n) 0 ≡ n
unfolding to_string
decimal-to_string n = decimal-digits (suc n) n [] (omega arith) ∙ (unfold decimal in refl)

-- The length is read back up to the colon.
lengths_unique :
    (m n : ℕ) (s t : Bytes) → to_string m ++ 58 ∷ s ≡ to_string n ++ 58 ∷ t → (m ≡ n) × (s ≡ t)
lengths_unique m n s t e =
    let (same, rest) =
      digits_unique (to_string m) (to_string n) s t (unfold to_string in digits-All (suc m) m [] tt)
        (unfold to_string in digits-All (suc n) n [] tt) e in
    (sym (decimal-to_string m) ∙ (ap (λ d. decimal d 0) same ∙ decimal-to_string n), rest)

labels : List (Bytes × Bytes) → List Bytes
labels ps = map (λ (p : Bytes × Bytes). p.0) ps

tail_of_inj :
    (ps qs : List (Bytes × Bytes)) → labels ps ≡ labels qs → tail_of ps ≡ tail_of qs → ps ≡ qs
unfolding tail_of labels
tail_of_inj [] [] l e = refl
tail_of_inj [] (q ∷ qs) l e = ground arith
tail_of_inj (p ∷ ps) [] l e = ground arith
tail_of_inj ((k, v) ∷ ps) ((j, u) ∷ qs) l e =
    let same : k ≡ j = ground (arith, l) in
    let others : labels ps ≡ labels qs = ground (arith, l) in
    let (long, values) =
      lengths_unique (length v) (length u) (v ++ 10 ∷ tail_of ps) (u ++ 10 ∷ tail_of qs) (
        after_label k _ _ (
          e
          ∙ ap (λ i. i ++ 58 ∷ (to_string (length u) ++ 58 ∷ (u ++ 10 ∷ tail_of qs)))
              (sym same))) in
    let (value, rest) = values_unique v u (10 ∷ tail_of ps) (10 ∷ tail_of qs) long values in
    let tails = tail_of_inj ps qs others (ground (arith, rest)) in
    ground (arith, same, value, tails)
  where
    after_label : (label s t : Bytes) → label ++ 58 ∷ s ≡ label ++ 58 ∷ t → s ≡ t
    after_label label s t h =
        let cut = label_cancel label (58 ∷ s) (58 ∷ t) h in ground (arith, cut)

identity_of-tail_of :
    (identity : Bytes) (ps : List (Bytes × Bytes))
    → identity_of identity ps ≡ identity ++ tail_of ps
unfolding identity_of tail_of append_identity
identity_of-tail_of identity [] = sym (append_nil identity)
identity_of-tail_of identity ((k, v) ∷ ps) =
    let n = to_string (length v) in
    identity_of-tail_of (append_identity identity k v) ps
    ∙ (append_assoc_bytes identity (k ++ 58 ∷ (n ++ 58 ∷ (v ++ 10 ∷ []))) (tail_of ps)
        ∙ ap (λ z. identity ++ z)
            (append_assoc_bytes k (58 ∷ (n ++ 58 ∷ (v ++ 10 ∷ []))) (tail_of ps)
              ∙ ap (λ z. k ++ 58 ∷ z)
                  (append_assoc_bytes n (58 ∷ (v ++ 10 ∷ [])) (tail_of ps)
                    ∙ ap (λ z. n ++ 58 ∷ z) (append_assoc_bytes v (10 ∷ []) (tail_of ps)))))

parts_inj : (i j : Inputs) → parts i ≡ parts j → i ≡ j
parts_inj i j e = ground (arith, e)

-- Two compilations of the same identity have the same inputs: their texts cannot run together.
pub compilation_identity_inj :
    (i j : Inputs) → compilation_identity i ≡ compilation_identity j → i ≡ j
unfolding compilation_identity labels
compilation_identity_inj i j e = parts_inj i j (
    tail_of_inj (parts i) (parts j) refl
      (sym (identity_of-tail_of [] (parts i)) ∙ (e ∙ identity_of-tail_of [] (parts j))))

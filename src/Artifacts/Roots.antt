-- ===== src/Artifacts/Roots.antt =====
-- crates/sol-artifacts/src/actor/mod.rs: `find_project_roots`. The walk of a folder, and which files there
-- are, are parameters.
use ethui.Common.{
  list_Same, nat_Same, ◌==◌, ltb, ℕ, ◌≡◌, inl, inr, Bool, true, false, not, ◌&&◌, List, [], ◌∷◌,
  ◌++◌, any, arith, if◌then◌else◌, All, All-append, All-mono, Bool-cases,
}
use ethui.Rpc.{bytes}
use ethui.Artifacts.Paths.{
  Name, FilePath, is_under, is_under_refl, is_under-path_leb, path_leb, path_leb_total,
  path_leb_trans, path_leb_antisym,
}

-- The folders that the walk of a root gives, without those that the test on the name and the depth of
-- an entry leaves out and what is in them; and which files exist.
pub record Env : Type 0 where
  pub walk : (Name → ℕ → Bool) → FilePath → List FilePath
  pub exists : FilePath → Bool

abbrev project_config_files : List Name
project_config_files =
    bytes "foundry.toml"
    ∷ bytes "hardhat.config.ts"
    ∷ bytes "hardhat.config.js"
    ∷ bytes "hardhat.config.cjs"
    ∷ []

abbrev blacklisted_dirs : List Name
blacklisted_dirs =
    bytes "node_modules"
    ∷ bytes "target"
    ∷ bytes "build"
    ∷ bytes "dist"
    ∷ bytes "coverage"
    ∷ bytes "__pycache__"
    ∷ bytes "venv"
    ∷ bytes "cache"
    ∷ bytes "tmp"
    ∷ bytes "out"
    ∷ bytes "artifacts"
    ∷ bytes "dependencies"
    ∷ []

-- The root itself may be hidden.
unfoldable pub is_hidden : Name → ℕ → Bool
is_hidden [] depth = false
is_hidden (c ∷ name) depth = ltb 0 depth && c == b'.'

-- The test of `filter_entry`.
unfoldable pub is_searched : Name → ℕ → Bool
is_searched name depth = not (is_hidden name depth) && not (any (λ b. b == name) blacklisted_dirs)

abbrev pub walked : Env → FilePath → List FilePath
walked env root = env.walk is_searched root

unfoldable pub has_config : Env → FilePath → Bool
has_config env dir = any (λ f. env.exists (dir ++ f ∷ [])) project_config_files

-- `iter().any(|p| dir.starts_with(p))`
unfoldable pub covered : List FilePath → FilePath → Bool
covered found dir = any (λ p. is_under p dir) found

-- The loop over the entries of one root.
unfoldable pub scan_root : Env → List FilePath → List FilePath → List FilePath
unfolding covered
scan_root env [] found = found
scan_root env (dir ∷ dirs) found =
    if has_config env dir && not (covered found dir)
    then scan_root env dirs (found ++ dir ∷ [])
    else scan_root env dirs found

-- `all_dirs.sort()`
abbrev pub insert_sorted : FilePath → List FilePath → List FilePath
insert_sorted p [] = p ∷ []
insert_sorted p (q ∷ qs) =
    let rest = insert_sorted p qs in if path_leb p q then p ∷ q ∷ qs else q ∷ rest

abbrev pub sort : List FilePath → List FilePath
sort [] = []
sort (p ∷ ps) = insert_sorted p (sort ps)

-- The fold over the sorted folders.
unfoldable pub outermost : List FilePath → List FilePath → List FilePath
unfolding covered
outermost acc [] = acc
outermost acc (dir ∷ dirs) = elim (covered acc dir) [
  | true ↦ outermost acc dirs
  | false ↦ outermost (acc ++ dir ∷ []) dirs
]

abbrev pub matches : Env → List FilePath → List FilePath
matches env [] = []
matches env (root ∷ roots) = scan_root env (walked env root) [] ++ matches env roots

unfoldable pub find_project_roots : Env → List FilePath → List FilePath
unfolding scan_root outermost
find_project_roots env roots = outermost [] (sort (matches env roots))

-- No folder is under another one.
abbrev pub IsFlat : List FilePath → Type 0
IsFlat [] = Unit
IsFlat (p ∷ ps) = All (λ q. (is_under p q ≡ false) × (is_under q p ≡ false)) ps × IsFlat ps

abbrev IsSorted : List FilePath → Type 0
IsSorted [] = Unit
IsSorted (p ∷ ps) = All (λ q. path_leb p q ≡ true) ps × IsSorted ps

insert_sorted-All :
    (P : FilePath → Type 0) (p : FilePath) (qs : List FilePath)
    → P p
    → All P qs
    → All P (insert_sorted p qs)
insert_sorted-All P p [] hp h = (hp, tt)
insert_sorted-All P p (q ∷ qs) hp h = elim (Bool-cases (path_leb p q)) [
  | inl e ↦ rw e (hp, h)
  | inr e ↦ rw e (h.0, insert_sorted-All P p qs hp h.1)
]

insert_sorted-IsSorted :
    (p : FilePath) (qs : List FilePath) → IsSorted qs → IsSorted (insert_sorted p qs)
insert_sorted-IsSorted p [] h = (tt, tt)
insert_sorted-IsSorted p (q ∷ qs) h = elim (Bool-cases (path_leb p q)) [
  | inl e ↦ rw e ((e, All-mono (λ r k. path_leb_trans p q r e k) qs h.0), h)
  | inr e ↦ rw e (
    insert_sorted-All (λ r. path_leb q r ≡ true) p qs (ground (arith, path_leb_total p q, e)) h.0,
    insert_sorted-IsSorted p qs h.1,
  )
]

sort-IsSorted : (ps : List FilePath) → IsSorted (sort ps)
sort-IsSorted [] = tt
sort-IsSorted (p ∷ ps) = insert_sorted-IsSorted p (sort ps) (sort-IsSorted ps)

-- A folder that nothing found covers, and that comes after all of it, covers none of it either.
covered-All :
    (acc : List FilePath) (dir : FilePath)
    → covered acc dir ≡ false
    → All (λ a. path_leb a dir ≡ true) acc
    → All (λ a. (is_under a dir ≡ false) × (is_under dir a ≡ false)) acc
unfolding covered
covered-All [] dir h k = tt
covered-All (a ∷ acc) dir h k = (
  (
    ground (arith, h),
    ground (arith, h, k.0, is_under-path_leb dir a, path_leb_antisym a dir, is_under_refl a),
  ),
  covered-All acc dir (ground (arith, h)) k.1,
)

IsFlat-append :
    (acc : List FilePath) (dir : FilePath)
    → All (λ a. (is_under a dir ≡ false) × (is_under dir a ≡ false)) acc
    → IsFlat acc
    → IsFlat (acc ++ dir ∷ [])
IsFlat-append [] dir h f = (tt, tt)
IsFlat-append (a ∷ acc) dir h f = (
  All-append (λ q. (is_under a q ≡ false) × (is_under q a ≡ false)) acc (dir ∷ []) f.0 (h.0, tt),
  IsFlat-append acc dir h.1 f.1,
)

after-append :
    (acc : List FilePath) (dir : FilePath) (dirs : List FilePath)
    → All (λ d. All (λ a. path_leb a d ≡ true) acc) dirs
    → All (λ d. path_leb dir d ≡ true) dirs
    → All (λ d. All (λ a. path_leb a d ≡ true) (acc ++ dir ∷ [])) dirs
after-append acc dir [] h k = tt
after-append acc dir (d ∷ dirs) h k = (
  All-append (λ a. path_leb a d ≡ true) acc (dir ∷ []) h.0 (k.0, tt),
  after-append acc dir dirs h.1 k.1,
)

outermost-IsFlat :
    (acc dirs : List FilePath)
    → IsFlat acc
    → IsSorted dirs
    → All (λ d. All (λ a. path_leb a d ≡ true) acc) dirs
    → IsFlat (outermost acc dirs)
unfolding outermost
outermost-IsFlat acc [] f s after = f
outermost-IsFlat acc (dir ∷ dirs) f s after = elim (Bool-cases (covered acc dir)) [
  | inl e ↦ rw (e, outermost) (outermost-IsFlat acc dirs f s.1 after.1)
  | inr e ↦
      rw (e, outermost)
        (outermost-IsFlat (acc ++ dir ∷ []) dirs
          (IsFlat-append acc dir (covered-All acc dir e after.0) f) s.1
          (after-append acc dir dirs after.1 s.0))
]

after-nothing : (dirs : List FilePath) → All (λ d. All (λ a. path_leb a d ≡ true) []) dirs
after-nothing [] = tt
after-nothing (d ∷ dirs) = (tt, after-nothing dirs)

-- Whatever the folders hold, no project root that is found is another one or lies under it.
pub find_project_roots-IsFlat :
    (env : Env) (roots : List FilePath) → IsFlat (find_project_roots env roots)
unfolding find_project_roots
find_project_roots-IsFlat env roots =
    let ps = sort (matches env roots) in
    outermost-IsFlat [] ps tt (sort-IsSorted (matches env roots)) (after-nothing ps)

-- ===== src/Artifacts/Covering.antt =====
-- crates/sol-artifacts/src/actor/mod.rs: the projects that `find_project_roots` finds.
use ethui.Common.{
  list_Same, list_same_iff, ◌≡◌, refl, sym, Bool, true, false, not, ◌&&◌, ◌||◌, List, [], ◌∷◌, ◌++◌,
  arith, if◌then◌else◌, All, All-mono, Bool-cases, inl, inr, nat_Same,
}
use mathlib.Core.Path.{subst}
use ethui.Artifacts.Paths.{FilePath, is_under, is_under_refl, path_leb}
use ethui.Artifacts.Roots.{
  has_config, walked, Env, covered, scan_root, insert_sorted, sort, outermost, matches,
  find_project_roots,
}

is_under_trans :
    (p q r : FilePath) → is_under p q ≡ true → is_under q r ≡ true → is_under p r ≡ true
is_under_trans [] q r h k = refl
is_under_trans (x ∷ p) [] r h k = absurd (ground (arith, h))
is_under_trans (x ∷ p) (y ∷ q) [] h k = absurd (ground (arith, k))
is_under_trans (x ∷ p) (y ∷ q) (z ∷ r) h k =
    ground (arith, is_under_trans p q r, list_same_iff x y, list_same_iff y z, list_same_iff x z)

covered_under :
    (ps : List FilePath) (p d : FilePath)
    → covered ps p ≡ true
    → is_under p d ≡ true
    → covered ps d ≡ true
unfolding covered
covered_under [] p d h k = absurd (ground (arith, h))
covered_under (q ∷ ps) p d h k = ground (arith, covered_under ps p d, is_under_trans q p d)

covered-append :
    (ps qs : List FilePath) (d : FilePath) → covered (ps ++ qs) d ≡ (covered ps d || covered qs d)
unfolding covered
covered-append [] qs d = refl
covered-append (p ∷ ps) qs d = ground (arith, covered-append ps qs d)

covered_self : (d : FilePath) → covered (d ∷ []) d ≡ true
unfolding covered
covered_self d = ground (arith, is_under_refl d)

abbrev Covers : List FilePath → List FilePath → Type 0
Covers qs ps = All (λ p. covered qs p ≡ true) ps

covered-Covers :
    (ps qs : List FilePath) (d : FilePath)
    → Covers qs ps
    → covered ps d ≡ true
    → covered qs d ≡ true
unfolding covered
covered-Covers [] qs d c h = absurd (ground (arith, h))
covered-Covers (p ∷ ps) qs d c h =
    ground (arith, covered-Covers ps qs d c.1, covered_under qs p d c.0)

outermost-keeps :
    (acc dirs : List FilePath) (d : FilePath)
    → covered acc d ≡ true
    → covered (outermost acc dirs) d ≡ true
unfolding outermost
outermost-keeps acc [] d h = h
outermost-keeps acc (dir ∷ dirs) d h = elim (Bool-cases (covered acc dir)) [
  | inl e ↦ rw (e, outermost) (outermost-keeps acc dirs d h)
  | inr e ↦
      rw (e, outermost)
        (outermost-keeps (acc ++ dir ∷ []) dirs d (ground (arith, covered-append acc (dir ∷ []) d)))
]

outermost-Covers : (acc dirs : List FilePath) → Covers (outermost acc dirs) dirs
unfolding outermost
outermost-Covers acc [] = tt
outermost-Covers acc (dir ∷ dirs) = elim (Bool-cases (covered acc dir)) [
  | inl e ↦
      let skipped : outermost acc (dir ∷ dirs) ≡ outermost acc dirs = rw (e, outermost) refl in
      subst (λ (r : List FilePath). Covers r (dir ∷ dirs)) (sym skipped)
        (outermost-keeps acc dirs dir e, outermost-Covers acc dirs)
  | inr e ↦
      let kept : outermost acc (dir ∷ dirs) ≡ outermost (acc ++ dir ∷ []) dirs =
        rw (e, outermost) refl in
      subst (λ (r : List FilePath). Covers r (dir ∷ dirs)) (sym kept)
        (
          outermost-keeps (acc ++ dir ∷ []) dirs dir
              (ground (arith, covered-append acc (dir ∷ []) dir, covered_self dir)),
          outermost-Covers (acc ++ dir ∷ []) dirs,
        )
]

insert_sorted-parts :
    (P : FilePath → Type 0) (p : FilePath) (qs : List FilePath)
    → All P (insert_sorted p qs)
    → P p × All P qs
insert_sorted-parts P p [] h = (h.0, tt)
insert_sorted-parts P p (q ∷ qs) h = split (insert_sorted-parts P p qs) (path_leb p q) h
  where
    split :
        (All P (insert_sorted p qs) → P p × All P qs)
        → (b : Bool) → All P (if b then p ∷ q ∷ qs else q ∷ insert_sorted p qs)
        → P p × (P q × All P qs)
    split later true k = (k.0, (k.1.0, k.1.1))
    split later false k = let r = later k.1 in (r.0, (k.0, r.1))

sort-parts : (P : FilePath → Type 0) (ps : List FilePath) → All P (sort ps) → All P ps
sort-parts P [] h = tt
sort-parts P (p ∷ ps) h = let q = insert_sorted-parts P p (sort ps) h in (q.0, sort-parts P ps q.1)

scan_root-keeps :
    (env : Env) (dirs found : List FilePath) (d : FilePath)
    → covered found d ≡ true
    → covered (scan_root env dirs found) d ≡ true
unfolding scan_root
scan_root-keeps env [] found d h = h
scan_root-keeps env (dir ∷ dirs) found d h = ground (
  arith,
  scan_root-keeps env dirs found d,
  scan_root-keeps env dirs (found ++ dir ∷ []) d,
  covered-append found (dir ∷ []) d,
  h,
)

-- Every folder with a configuration file is one of these, or lies under one.
abbrev pub CoversProjects : Env → List FilePath → List FilePath → Type 0
CoversProjects env found dirs = All (λ d. has_config env d ≡ true → covered found d ≡ true) dirs

scan_root-CoversProjects :
    (env : Env) (dirs found : List FilePath) → CoversProjects env (scan_root env dirs found) dirs
unfolding scan_root
scan_root-CoversProjects env [] found = tt
scan_root-CoversProjects env (dir ∷ dirs) found = (
  (λ h. ground (
    arith,
    h,
    covered-append found (dir ∷ []) dir,
    covered_self dir,
    scan_root-keeps env dirs found dir,
    scan_root-keeps env dirs (found ++ dir ∷ []) dir,
  )),
  elim (Bool-cases (has_config env dir && not (covered found dir))) [
    | inl e ↦
        let taken : scan_root env (dir ∷ dirs) found ≡ scan_root env dirs (found ++ dir ∷ []) =
          rw (e, scan_root) refl in
        subst (λ (r : List FilePath). CoversProjects env r dirs) (sym taken)
          (scan_root-CoversProjects env dirs (found ++ dir ∷ []))
    | inr e ↦
        let left : scan_root env (dir ∷ dirs) found ≡ scan_root env dirs found =
          rw (e, scan_root) refl in
        subst (λ (r : List FilePath). CoversProjects env r dirs) (sym left)
          (scan_root-CoversProjects env dirs found)
  ],
)

CoversProjects-mono :
    (env : Env) (ps qs dirs : List FilePath)
    → ((d : FilePath) → covered ps d ≡ true → covered qs d ≡ true)
    → CoversProjects env ps dirs
    → CoversProjects env qs dirs
CoversProjects-mono env ps qs dirs k h = All-mono (λ d c e. k d (c e)) dirs h

matches-CoversProjects :
    (env : Env) (roots : List FilePath)
    → All (λ root. CoversProjects env (matches env roots) (walked env root)) roots
matches-CoversProjects env [] = tt
matches-CoversProjects env (root ∷ roots) =
    let found = scan_root env (walked env root) [] in
    let more = matches env roots in
    (
      CoversProjects-mono env found (found ++ more) (walked env root)
          (λ d c. ground (arith, c, covered-append found more d))
          (scan_root-CoversProjects env (walked env root) []),
      All-mono
          (λ r h.
            CoversProjects-mono env more (found ++ more) (walked env r)
              (λ d c. ground (arith, c, covered-append found more d)) h)
          roots (matches-CoversProjects env roots),
    )

-- Each folder with a configuration file that the walk of a root gives is a project root that is found, or
-- lies under one.
pub find_project_roots-CoversProjects :
    (env : Env) (roots : List FilePath)
    → All (λ root. CoversProjects env (find_project_roots env roots) (walked env root)) roots
unfolding find_project_roots
find_project_roots-CoversProjects env roots =
    let ps = matches env roots in
    let result = outermost [] (sort ps) in
    All-mono
      (λ r h.
        CoversProjects-mono env ps result (walked env r)
          (λ d c.
            covered-Covers ps result d
              (sort-parts (λ p. covered result p ≡ true) ps (outermost-Covers [] (sort ps))) c)
          h)
      roots (matches-CoversProjects env roots)

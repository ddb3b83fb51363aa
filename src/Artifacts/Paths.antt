-- ===== src/Artifacts/Paths.antt =====
-- `std::path`: a path as its components, each the bytes of a name; `starts_with` and the order.
use ethui.Common.{
  ℕ, ◌≡◌, ◌⊎◌, refl, inl, inr, Bool, true, false, ◌&&◌, ◌||◌, List, [], ◌∷◌, ltb, ◌==◌, nat_Same,
  arith, if◌then◌else◌, same_refl, list_Same, list_same_iff,
}

abbrev pub Name : Type 0
Name = List ℕ

abbrev pub FilePath : Type 0
FilePath = List Name

-- `dir.starts_with(p)`, with the prefix first.
abbrev pub is_under : FilePath → FilePath → Bool
is_under [] dir = true
is_under (p ∷ ps) [] = false
is_under (p ∷ ps) (d ∷ ds) = p == d && is_under ps ds

-- The orders of names and of paths, both lexicographic.
abbrev pub name_leb : Name → Name → Bool
name_leb [] ys = true
name_leb (x ∷ xs) [] = false
name_leb (x ∷ xs) (y ∷ ys) = ltb x y || (x == y && name_leb xs ys)

abbrev pub path_leb : FilePath → FilePath → Bool
path_leb [] ys = true
path_leb (x ∷ xs) [] = false
path_leb (x ∷ xs) (y ∷ ys) = if x == y then path_leb xs ys else name_leb x y

name_leb_total : (xs ys : Name) → (name_leb xs ys ≡ true) ⊎ (name_leb ys xs ≡ true)
name_leb_total [] ys = inl refl
name_leb_total (x ∷ xs) [] = inr refl
name_leb_total (x ∷ xs) (y ∷ ys) = ground (arith, name_leb_total xs ys)

name_leb_trans :
    (xs ys zs : Name) → name_leb xs ys ≡ true → name_leb ys zs ≡ true → name_leb xs zs ≡ true
name_leb_trans [] ys zs h k = refl
name_leb_trans (x ∷ xs) [] zs h k = absurd (ground (arith, h))
name_leb_trans (x ∷ xs) (y ∷ ys) [] h k = absurd (ground (arith, k))
name_leb_trans (x ∷ xs) (y ∷ ys) (z ∷ zs) h k = ground (arith, name_leb_trans xs ys zs)

name_leb_antisym : (xs ys : Name) → name_leb xs ys ≡ true → name_leb ys xs ≡ true → xs ≡ ys
name_leb_antisym [] [] h k = refl
name_leb_antisym [] (y ∷ ys) h k = absurd (ground (arith, k))
name_leb_antisym (x ∷ xs) [] h k = absurd (ground (arith, h))
name_leb_antisym (x ∷ xs) (y ∷ ys) h k = ground (arith, name_leb_antisym xs ys)

pub path_leb_total : (xs ys : FilePath) → (path_leb xs ys ≡ true) ⊎ (path_leb ys xs ≡ true)
path_leb_total [] ys = inl refl
path_leb_total (x ∷ xs) [] = inr refl
path_leb_total (x ∷ xs) (y ∷ ys) =
    ground (arith, path_leb_total xs ys, name_leb_total x y, list_same_iff x y, list_same_iff y x)

pub path_leb_trans :
    (xs ys zs : FilePath) → path_leb xs ys ≡ true → path_leb ys zs ≡ true → path_leb xs zs ≡ true
path_leb_trans [] ys zs h k = refl
path_leb_trans (x ∷ xs) [] zs h k = absurd (ground (arith, h))
path_leb_trans (x ∷ xs) (y ∷ ys) [] h k = absurd (ground (arith, k))
path_leb_trans (x ∷ xs) (y ∷ ys) (z ∷ zs) h k = ground (
  arith,
  path_leb_trans xs ys zs,
  name_leb_trans x y z,
  name_leb_antisym x y,
  list_same_iff x y,
  list_same_iff y z,
  list_same_iff x z,
)

pub path_leb_antisym : (xs ys : FilePath) → path_leb xs ys ≡ true → path_leb ys xs ≡ true → xs ≡ ys
path_leb_antisym [] [] h k = refl
path_leb_antisym [] (y ∷ ys) h k = absurd (ground (arith, k))
path_leb_antisym (x ∷ xs) [] h k = absurd (ground (arith, h))
path_leb_antisym (x ∷ xs) (y ∷ ys) h k =
    ground
      (arith, path_leb_antisym xs ys, name_leb_antisym x y, list_same_iff x y, list_same_iff y x)

-- A path comes after what it is under.
pub is_under-path_leb : (xs ys : FilePath) → is_under xs ys ≡ true → path_leb xs ys ≡ true
is_under-path_leb [] ys h = refl
is_under-path_leb (x ∷ xs) [] h = h
is_under-path_leb (x ∷ xs) (y ∷ ys) h = ground (arith, is_under-path_leb xs ys)

pub is_under_refl : (xs : FilePath) → is_under xs xs ≡ true
is_under_refl [] = refl
is_under_refl (x ∷ xs) = ground (arith, is_under_refl xs, same_refl x)

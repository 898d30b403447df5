-- ===== src/Pkg/Archive/Fits.antt =====
-- What a header's two path fields hold, and that contents fill blocks.
use aii_plugin_sdk.Pkg.Tree.{max_member_path_bytes}
use mathlib.Core.Path.{refl}
use aii_plugin_sdk.Prelude.{
  &&-left, &&-right, ==_iff, Option, [], ap, arith, drop, false, if_cases, leb, length,
  length-replicate, ltb, none, replicate, some, subst, suc, sym, take, true, zero, ℕ, ◌%◌, ◌&&◌,
  ◌++◌, ◌+◌, ◌-◌, ◌<◌, ◌==◌, ◌||◌, ◌∙◌, ◌∷◌, ◌≡◌, ◌≤◌,
}
use aii_plugin_sdk.Prelude.Bytes.{Bytes}
use aii_plugin_sdk.Pkg.Archive.{
  block_padding, fits_at, slash_at, split_loop, tar_block_bytes, tar_split_path,
}

-- A path is read from a header as its name, or as prefix, slash and name.
abbrev pub joined : Bytes → Bytes → Bytes
joined name [] = name
joined name (c ∷ prefix) = (c ∷ prefix) ++ (b'/' ∷ name)

-- The two fields stand for the path and fit.
pub record IsCut (path name prefix : Bytes) : Type 0 where
  pub joins : joined name prefix ≡ path
  pub name_some : 0 < length name
  pub name_fits : length name ≤ 100
  pub prefix_fits : length prefix ≤ 155

slash_at-cut :
    (i : ℕ) (path : Bytes)
    → slash_at i path ≡ true
    → (take i path ++ (b'/' ∷ drop (suc i) path) ≡ path)
      × (length (take i path) ≡ i)
      × (length (drop (suc i) path) + i + 1 ≡ length path)
slash_at-cut i [] h = absurd (cc)
slash_at-cut zero (c ∷ path) h = (ap (λ x. x ∷ path) (sym ((==_iff c b'/').0 h)), refl, omega arith)
slash_at-cut (suc i) (c ∷ path) h =
    let (a, b, d) = slash_at-cut i path h in (ap (◌∷◌ c) a, omega arith, omega arith)

joined-some :
    (name prefix : Bytes) → 0 < length prefix → joined name prefix ≡ prefix ++ (b'/' ∷ name)
joined-some name [] h = absurd (omega arith)
joined-some name (c ∷ prefix) h = refl

fits_at-bounds :
    (path : Bytes) (cut : ℕ)
    → fits_at path cut ≡ true
    → (cut ≤ 155) × (0 < length path - cut - 1) × (length path - cut - 1 ≤ 100)
fits_at-bounds path cut h = (ground arith, ground arith, ground arith)

-- What is found, if anything.
abbrev CutOf : Bytes → Option (Bytes × Bytes) → Type 0
CutOf path none = Unit
CutOf path (some (name, prefix)) = IsCut path name prefix

IsCut-here :
    (path : Bytes) (n : ℕ)
    → slash_at (suc n) path ≡ true
    → fits_at path (suc n) ≡ true
    → IsCut path (drop (suc (suc n)) path) (take (suc n) path)
IsCut-here path n s f =
    let (a, b, d) = slash_at-cut (suc n) path s in
    let (x, y, z) = fits_at-bounds path (suc n) f in
    record {
      joins = joined-some (drop (suc (suc n)) path) (take (suc n) path) (omega (arith, b)) ∙ a;
      name_some = omega (arith, d);
      name_fits = omega (arith, d);
      prefix_fits = omega (arith, b);
    }

split_loop-CutOf : (path : Bytes) (n : ℕ) → CutOf path (split_loop path n)
unfolding split_loop
split_loop-CutOf path zero = tt
split_loop-CutOf path (suc n) =
    if_cases (CutOf path) (slash_at (suc n) path && fits_at path (suc n))
      (λ e. IsCut-here path n (&&-left _ _ e) (&&-right _ _ e)) (λ e. split_loop-CutOf path n)

tar_split_path-CutOf : (path : Bytes) → CutOf path (tar_split_path path)
unfolding tar_split_path
tar_split_path-CutOf path =
    if_cases (CutOf path) (length path == 0 || ltb max_member_path_bytes (length path)) (λ e. tt)
      (λ e.
        if_cases (CutOf path) (leb (length path) 100)
          (λ f. record {
            joins = refl;
            name_some = ground arith;
            name_fits = ground arith;
            prefix_fits = omega arith;
          })
          (λ f. split_loop-CutOf path (length path - 1)))

-- Whatever `tarSplitPath` gives for a path stands for that path again, as its name or as prefix,
-- slash and name, with a name of 1 to 100 bytes and a prefix of at most 155.
pub tar_split_path-IsCut :
    (path : Bytes) {name prefix : Bytes}
    → tar_split_path path ≡ some (name, prefix)
    → IsCut path name prefix
tar_split_path-IsCut path h = subst (CutOf path) h (tar_split_path-CutOf path)

abbrev zero_byte : ℕ
zero_byte = 0

zeros : (n : ℕ) → length (replicate n zero_byte) ≡ n
zeros n = length-replicate n zero_byte

-- Contents and their padding fill whole blocks, with less than a block of padding.
pub length-block_padding :
    (n : ℕ)
    → ((n + length (block_padding n)) % tar_block_bytes ≡ 0)
      × (length (block_padding n) < tar_block_bytes)
unfolding block_padding
length-block_padding n =
    if_cases (λ (p : Bytes). ((n + length p) % tar_block_bytes ≡ 0) × (length p < tar_block_bytes))
      (n % tar_block_bytes == 0) (λ e. (ground arith, omega arith))
      (λ e. padded n _ (zeros (tar_block_bytes - n % tar_block_bytes)) e)
  where
    padded :
        (n l : ℕ)
        → l ≡ tar_block_bytes - n % tar_block_bytes
        → (n % tar_block_bytes == 0) ≡ false
        → ((n + l) % tar_block_bytes ≡ 0) × (l < tar_block_bytes)
    padded n l e h = (ground arith, ground arith)

-- ===== src/Pkg/Archive.antt =====
-- pkg/aiiospkg/tar.go: how a stored path is cut into the two fields of a header, and the padding of
-- contents to blocks. An error of `tarSplitPath` is `none`.
pub mod Fits
use aii_plugin_sdk.Prelude.{
  Bool, Option, [], drop, false, if◌then◌else◌, leb, length, ltb, none, replicate, some, suc, take,
  true, zero, ℕ, ◌%◌, ◌&&◌, ◌-◌, ◌==◌, ◌||◌, ◌∷◌,
}
use aii_plugin_sdk.Prelude.Bytes.{Bytes}
use aii_plugin_sdk.Pkg.Tree.{max_member_path_bytes}

abbrev pub tar_block_bytes : ℕ
tar_block_bytes = 512

-- Whether `path[i]` is a slash.
abbrev pub slash_at : ℕ → Bytes → Bool
slash_at i [] = false
slash_at zero (c ∷ path) = c == b'/'
slash_at (suc i) (c ∷ path) = slash_at i path

-- Whether the path may be cut at `at`: the prefix and the name, without the slash, fit.
abbrev pub fits_at : Bytes → ℕ → Bool
fits_at path cut = leb cut 155 && ltb 0 (length path - cut - 1) && leb (length path - cut - 1) 100

-- `for split := ...; split > 0; split--`.
pub split_loop : Bytes → ℕ → Option (Bytes × Bytes)
split_loop path zero = none
split_loop path (suc n) =
    let rest = split_loop path n in
    if slash_at (suc n) path && fits_at path (suc n)
    then some (drop (suc (suc n)) path, take (suc n) path)
    else rest

-- `tarSplitPath`: the name and the prefix.
unfoldable pub tar_split_path : Bytes → Option (Bytes × Bytes)
unfolding split_loop
tar_split_path path =
    if length path == 0 || ltb max_member_path_bytes (length path)
    then none
    else if leb (length path) 100
    then some (path, [])
    else split_loop path (length path - 1)

-- `pathFitsUSTAR`.
unfoldable pub path_fits_ustar : Bytes → Bool
unfolding tar_split_path
path_fits_ustar stored = elim (tar_split_path stored) [ none ↦ false | some _ ↦ true ]

-- What `writeBlockPadding` writes behind contents of a length.
unfoldable pub block_padding : ℕ → Bytes
block_padding content_len =
    if content_len % tar_block_bytes == 0
    then []
    else replicate (tar_block_bytes - content_len % tar_block_bytes) 0

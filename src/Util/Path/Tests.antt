-- ===== src/Util/Path/Tests.antt =====
-- Some paths and their canonical forms.
use shuriken.Util.Path.Normal.{canonicalize_path-normal_path}
use shuriken.Prelude.{◌∷◌, [], ◌≡◌, refl}
use shuriken.Util.Path.{
  canonicalize_path, canonicalize, canonicalize_loop, back_up, finish_path, copy_component,
  split_component, canonical,
}

-- "a/./b/../c"
canonicalize_path-inner :
    canonicalize_path (97 ∷ 47 ∷ 46 ∷ 47 ∷ 98 ∷ 47 ∷ 46 ∷ 46 ∷ 47 ∷ 99 ∷ [])
    ≡ canonical (97 ∷ 47 ∷ 99 ∷ [])
unfolding canonicalize_path canonicalize canonicalize_loop back_up copy_component split_component
    finish_path
canonicalize_path-inner = refl

-- "/"
canonicalize_path-root : canonicalize_path (47 ∷ []) ≡ canonical (47 ∷ [])
unfolding canonicalize_path canonicalize canonicalize_loop finish_path
canonicalize_path-root = refl

-- ".." keeps the zero byte that ends it.
canonicalize_path-parent : canonicalize_path (46 ∷ 46 ∷ []) ≡ canonical (46 ∷ 46 ∷ 0 ∷ [])
unfolding canonicalize_path canonicalize canonicalize_loop back_up copy_component split_component
    finish_path
canonicalize_path-parent = refl

canonicalize_path-normal_path_example :
    canonicalize_path (97 ∷ 47 ∷ 46 ∷ 47 ∷ 98 ∷ 47 ∷ 46 ∷ 46 ∷ 47 ∷ 99 ∷ [])
    ≡ canonical (97 ∷ 47 ∷ 99 ∷ [])
canonicalize_path-normal_path_example =
    canonicalize_path-normal_path (97 ∷ 47 ∷ 46 ∷ 47 ∷ 98 ∷ 47 ∷ 46 ∷ 46 ∷ 47 ∷ 99 ∷ [])

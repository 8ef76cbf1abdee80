-- ===== src/DynArray/Contract/Destroy.antt =====
-- dyn_array_destroy.
use lib_msvl.Base.{◌≡◌, refl, ap, Bool, true, false, none, some, List, [], ◌∷◌, if◌then◌else◌, ok}
use lib_msvl.Machine.Memory.{Bytes}
use lib_msvl.DynArray.Layout.{DynArray}
use lib_msvl.DynArray.Holds.{Holds}
use lib_msvl.DynArray.Create.{destroy}
use lib_msvl.DynArray.Contract.Remove.{clear-Erased, clear-empty}

-- dyn_array_destroy calls the destructor, if there is one, on every object from first to last, once
-- each, and is defined on an empty and on a NULL array.
pub destroy_lem :
    {a : DynArray} (xs : List Bytes)
    → Holds a xs
    → (destroy (some a) ≡ ok (if a.destructor then xs else [])) × (destroy none ≡ ok [])
unfolding destroy
destroy_lem {a} [] h = (rw (clear-empty h) (ap ok (none_gone a.destructor)), refl)
  where
    none_gone : (b : Bool) → ◌≡◌ {A = List Bytes} [] (if b then [] else [])
    none_gone true = refl
    none_gone false = refl
destroy_lem {a} (x ∷ xs) h =
    let (a', cleared, holds, kind) = clear-Erased h (λ e. cc) in (rw cleared, refl)

-- ===== src/Node/Destroy.antt =====
-- node_destroy of node.c. The global hash map of nodes rests on functions that the repository does
-- not define: whether its erasure removes one pair is a parameter. Signals to the thread, the join
-- and the release of mutex and condition leave the store as it is. The recursion takes fuel for the
-- depth.
use lib_msvl.Base.{
  ℕ, zero, suc, Bool, none, List, [], ◌∷◌, ◌==◌, if◌then◌else◌, ok, exit, out_of_fuel,
}
use lib_msvl.Node.Store.{M, pure, load, modify, update, ◌>>=◌, ◌>>◌}
use lib_msvl.Node.Children.{slots_of}

-- free of an address that no node stands at is undefined behaviour; free of NULL does nothing.
unfoldable pub free : ℕ → M (Unit {0})
free p = if p == 0 then pure tt else (do _ ← load p; λ s. ok (tt, update p none s))

-- `for(i = 0;i < size;i++) free(temp);`
unfoldable pub free_all : List ℕ → M (Unit {0})
free_all [] = pure tt
free_all (p ∷ ps) = do free p; free_all ps

-- the destructor node_destroy_wrap on every slot of the array
unfoldable pub destroy_slots : (ℕ → M (Unit {0})) → List ℕ → M (Unit {0})
destroy_slots destroy [] = pure tt
destroy_slots destroy (p ∷ ps) = do destroy p; destroy_slots destroy ps

module _ (g_is_copied erased : Bool) where
  -- what follows the release of the children
  unfoldable pub finish_destroy : ℕ → M (Unit {0})
  finish_destroy this =
      if erased
      then (do modify (λ m. record m { thread = 0; mutex = 0; cond = 0 }) this; free this)
      else λ s. exit 134

  unfoldable pub destroy : ℕ → ℕ → M (Unit {0})
  destroy zero this = λ s. out_of_fuel
  destroy (suc depth) this = if this == 0 then pure tt else if g_is_copied then free this else (do
    n ← load this
    modify (λ m. record m { father = 0 }) this
    free_all (slots_of n.childs)
    destroy_slots (destroy depth) (slots_of n.childs)
    finish_destroy this)

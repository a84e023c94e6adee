-- ===== src/Common/List/Init.antt =====
-- list_init and list_node_init of code/common/list.h.
use headquarter.Base.{ℕ, ◌≡◌, ◌≢◌, List, [], ◌∷◌, ◌++◌, ok}
use headquarter.Common.List.{Links, null, list_init, list_node_init}
use headquarter.Common.List.Chain.{
  NotIn, IsList, set_prev, set_next, store_prev-ok, store_next-ok, write-same, set_prev-Chain,
  set_next-Chain,
}
use headquarter.Common.List.Nodes.{All-append, ne-sym, Apart-snoc}

-- Both links of `p` are `v`.
abbrev pub initialised : Links → ℕ → ℕ → Links
initialised s p v = set_next (set_prev s p v) p v

module _ (s : Links) (p : ℕ) (ne : p ≢ null) where
  pub list_init-initialised : list_init s p ≡ ok (initialised s p p)
  unfolding list_init
  list_init-initialised = rw (store_prev-ok s p ne p, store_next-ok (set_prev s p p) p ne p)

  pub list_node_init-initialised : list_node_init s p ≡ ok (initialised s p null)
  unfolding list_node_init
  list_node_init-initialised =
      rw (store_prev-ok s p ne null, store_next-ok (set_prev s p null) p ne null)

  pub initialised-IsList : IsList (initialised s p p) p []
  initialised-IsList = record {
    linked = ((write-same s.next p p, write-same s.prev p p), tt);
    distinct = ((ne-sym ne, tt), (tt, tt));
  }

-- A list that `p` is no part of stays as it is.
pub initialised-other :
    (s : Links) (p v l : ℕ) (xs : List ℕ)
    → IsList s l xs
    → NotIn p (l ∷ xs)
    → IsList (initialised s p v) l xs
initialised-other s p v l xs list n = record {
  linked =
      set_next-Chain (set_prev s p v) p v l (xs ++ (l ∷ []))
        (set_prev-Chain s p v l (xs ++ (l ∷ [])) list.linked
          (All-append _ xs (l ∷ []) n.1 (n.0, tt)))
        (Apart-snoc p l l xs n.0 n.1);
  distinct = list.distinct;
}

-- ===== src/Common/Rbtree/Finish.antt =====
-- code/common/rbtree.c: the ends of the loop of rbtree_delete.
use headquarter.Base.{
  ℕ, suc, ◌≡◌, refl, ap, ◌∙◌, Bool, true, false, ◌&&◌, List, [], ◌∷◌, ◌==◌, Outcome, ok, arith,
}
use headquarter.Common.Rbtree.{left, Nodes, null, load_red, store_red}
use headquarter.Common.Rbtree.Tree.{
  ==_self, Tree, leaf, node, join, Frame, plug, count, count_above, top,
}
use headquarter.Common.Rbtree.Same.{set_red}
use headquarter.Common.Rbtree.Focus.{At}
use headquarter.Common.Rbtree.Zip.{At-plug}
use headquarter.Common.Rbtree.Paint.{paint, At-paint}
use headquarter.Common.Rbtree.Colour.{colour-top}
use headquarter.Common.Rbtree.Order.{flatten, flatten-plug}
use headquarter.Common.Rbtree.Round.{top-null}
use headquarter.Common.Rbtree.Shape.{
  is_red, black_height, RedBlack, RedBlackAbove, red_above, RedBlack-plug, is_red-join,
}
use headquarter.Common.Rbtree.Delete.{delete_loop}

abbrev pub blacken : Tree → Tree
blacken leaf = leaf
blacken (node c l p r) = node false l p r

-- A run that ends with a red-black tree of the same nodes in the same order and with a black root.
pub record Repaired (s : Nodes) (sent above : ℕ) (o : Outcome (Nodes × ℕ)) (t : Tree) : Type 0 where
  pub nodes : Nodes
  pub new_root : ℕ
  pub tree : Tree
  pub run : o ≡ ok (nodes, new_root)
  pub here : At nodes sent new_root above [] tree
  pub shape : RedBlack tree
  pub root_black : is_red tree ≡ false
  pub order : flatten tree ≡ flatten t
  pub keys : nodes.key ≡ s.key
  pub black : nodes.red sent ≡ false

plug_black :
    (n : ℕ) (fs : List Frame) (t : Tree)
    → RedBlackAbove n fs
    → (is_red t && red_above fs) ≡ false
    → is_red (plug fs t) ≡ false
plug_black n [] t h k = and_true (is_red t) k
  where
    and_true : (b : Bool) → (b && true) ≡ false → b ≡ false
    and_true true k = k
    and_true false k = refl
plug_black n (f ∷ fs) t h k =
    plug_black _ fs (join f.side f.colour t f.at f.sibling) h.4
      (rw (is_red-join f.side f.colour t f.at f.sibling) h.2)

pub RedBlack-blacken : (t : Tree) → RedBlack t → RedBlack (blacken t)
RedBlack-blacken leaf h = tt
RedBlack-blacken (node c l p r) h = (h.0, refl, refl, h.3, h.4)

blacken_black : (t : Tree) (b : Bool) → (is_red (blacken t) && b) ≡ false
blacken_black leaf b = refl
blacken_black (node c l p r) b = refl

flatten-blacken : (t : Tree) → flatten (blacken t) ≡ flatten t
unfolding flatten
flatten-blacken leaf = refl
flatten-blacken (node c l p r) = refl

module _ (s : Nodes) (sent root above : ℕ) where
  At-blacken :
      (fs : List Frame) (t : Tree)
      → At s sent root above fs t
      → At (set_red s (top sent t) false) sent root above fs (blacken t)
  unfolding paint count
  At-blacken fs leaf here =
      At-paint sent false s sent root above fs leaf (omega (arith, here.clear.no_sent)) here
  At-blacken fs (node c l p r) here = colour-top s sent root above false fs left c l p r here

  set_black : (w : ℕ) → s.red sent ≡ false → (set_red s w false).red sent ≡ false
  set_black w h = ground (arith, h)

  pub finished :
      (fs : List Frame) (t : Tree) (o : Outcome (Nodes × ℕ))
      → At s sent root above fs t
      → RedBlack (blacken t)
      → RedBlackAbove (black_height (blacken t)) fs
      → s.red sent ≡ false
      → o ≡ ok (set_red s (top sent t) false, root)
      → Repaired s sent above o (plug fs t)
  finished fs t o here shape outside black run = record {
    nodes = set_red s (top sent t) false;
    new_root = root;
    tree = plug fs (blacken t);
    run = run;
    here =
        At-plug (set_red s (top sent t) false) sent root above fs (blacken t)
          (At-blacken fs t here);
    shape = RedBlack-plug fs (blacken t) outside shape (blacken_black t (red_above fs));
    root_black =
        plug_black (black_height (blacken t)) fs (blacken t) outside
          (blacken_black t (red_above fs));
    order = flatten-plug fs (blacken t) t (flatten-blacken t);
    keys = refl;
    black = set_black (top sent t) black;
  }

  -- At the root.
  pub finish-root :
      (n : ℕ) (x : ℕ)
      → (x == null) ≡ false
      → (x == root) ≡ true
      → delete_loop (suc n) s root sent x ≡ ok (set_red s x false, root)
  unfolding delete_loop store_red
  finish-root n x xn e = rw (delete_loop, e, xn) refl

  -- At a red node.
  pub finish-red :
      (n : ℕ) (x : ℕ)
      → (x == null) ≡ false
      → (x == root) ≡ false
      → s.red x ≡ true
      → delete_loop (suc n) s root sent x ≡ ok (set_red s x false, root)
  unfolding delete_loop load_red store_red
  finish-red n x xn e k = rw (delete_loop, e, xn, k) (rw xn refl)

  -- The loop goes on at the root of a tree that is right.
  pub finished-whole :
      (n : ℕ) (fs : List Frame) (t : Tree)
      → (sent == null) ≡ false
      → At s sent root above fs t
      → RedBlack (plug fs t)
      → s.red sent ≡ false
      → Repaired s sent above (delete_loop (suc n) s root sent root) (plug fs t)
  unfolding count_above
  finished-whole n fs t sn here shape black =
      let whole = At-plug s sent root above fs t here in
      let r : root ≡ top sent (plug fs t) = whole.rep_above in
      let rn : (root == null) ≡ false =
        rw r (top-null sent (plug fs t) sn (omega (arith, whole.clear.no_null))) in
      finished [] (plug fs t) (delete_loop (suc n) s root sent root) whole
        (RedBlack-blacken (plug fs t) shape) tt black
        (finish-root n root rn (==_self root) ∙ ap (λ x. ok (set_red s x false, root)) r)

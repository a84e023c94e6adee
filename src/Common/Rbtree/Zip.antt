-- ===== src/Common/Rbtree/Zip.antt =====
-- code/common/rbtree.c: the same nodes seen from one frame higher or lower.
use headquarter.Base.{ℕ, ◌≤◌, List, [], ◌∷◌, arith}
use headquarter.Common.Rbtree.{Nodes}
use headquarter.Common.Rbtree.Tree.{
  Tree, join, Frame, plug, count_above, count-join, Rep-join, join-Rep, top-join,
}
use headquarter.Common.Rbtree.Replace.{Clear}
use headquarter.Common.Rbtree.Focus.{At}

pub Clear-le : (sent : ℕ) (f g : ℕ → ℕ) → ((q : ℕ) → g q ≤ f q) → Clear sent f → Clear sent g
Clear-le sent f g le clear = record {
  once = λ q. omega (arith, clear.once q, le q);
  no_null = omega (arith, clear.no_null, le 0);
  no_sent = omega (arith, clear.no_sent, le sent);
}

module _ (s : Nodes) (sent root above : ℕ) where
  pub At-up :
      (f : Frame) (fs : List Frame) (t : Tree)
      → At s sent root above (f ∷ fs) t
      → At s sent root above fs (join f.side f.colour t f.at f.sibling)
  unfolding count_above
  At-up f fs t here =
      let r = here.rep_above in
      record {
        rep_above = rw (top-join sent f.side f.colour t f.at f.sibling) r.5;
        rep = Rep-join s sent f.side f.colour t f.at f.sibling _ r.0 r.1 r.2 r.3 here.rep r.4;
        clear =
            Clear-le sent _ _ (λ q. omega (arith, count-join q f.side f.colour t f.at f.sibling))
              here.clear;
      }

  pub At-down :
      (f : Frame) (fs : List Frame) (t : Tree)
      → At s sent root above fs (join f.side f.colour t f.at f.sibling)
      → At s sent root above (f ∷ fs) t
  unfolding count_above
  At-down f fs t here =
      let r = join-Rep s sent f.side f.colour t f.at f.sibling _ here.rep in
      record {
        rep_above = (
          r.0,
          r.1,
          r.2,
          r.3,
          r.5,
          rw (top-join sent f.side f.colour t f.at f.sibling) at here.rep_above,
        );
        rep = r.4;
        clear =
            Clear-le sent _ _ (λ q. omega (arith, count-join q f.side f.colour t f.at f.sibling))
              here.clear;
      }

  pub At-plug :
      (fs : List Frame) (t : Tree) → At s sent root above fs t → At s sent root above [] (plug fs t)
  At-plug [] t here = here
  At-plug (f ∷ fs) t here = At-plug fs (join f.side f.colour t f.at f.sibling) (At-up f fs t here)

-- ===== src/Common/List.antt =====
-- code/common/list.h: circular lists whose links are inside of the structs that they join. The links
-- are kept by address; a write through the null pointer, or a read, is a fault.
pub mod Chain
pub mod Nodes
pub mod Cut
pub mod Insert
pub mod Remove
pub mod Concat
pub mod Init
pub mod Split
pub mod Head
mod Tests
use headquarter.Base.{
  ℕ, Bool, true, false, not, ◌&&◌, ◌||◌, ◌==◌, if◌then◌else◌, Outcome, ok, fault, ◌>>=◌,
}

-- `struct list`, for every address.
pub record Links : Type 0 where
  pub prev : ℕ → ℕ
  pub next : ℕ → ℕ

abbrev pub null : ℕ
null = 0

abbrev pub write : (ℕ → ℕ) → ℕ → ℕ → ℕ → ℕ
write f p v q = if q == p then v else f q

unfoldable pub load_prev : Links → ℕ → Outcome ℕ
load_prev s p = if p == null then fault else ok (s.prev p)

unfoldable pub load_next : Links → ℕ → Outcome ℕ
load_next s p = if p == null then fault else ok (s.next p)

-- `p->prev = v`
unfoldable pub store_prev : Links → ℕ → ℕ → Outcome Links
store_prev s p v = if p == null then fault else ok (record s { prev = write s.prev p v })

-- `p->next = v`
unfoldable pub store_next : Links → ℕ → ℕ → Outcome Links
store_next s p v = if p == null then fault else ok (record s { next = write s.next p v })

unfoldable pub list_init : Links → ℕ → Outcome Links
list_init s l = do s1 ← store_prev s l l; store_next s1 l l

unfoldable pub list_node_init : Links → ℕ → Outcome Links
list_node_init s node = do s1 ← store_prev s node null; store_next s1 node null

unfoldable pub list_node_unlinked : Links → ℕ → Outcome Bool
list_node_unlinked s node = do before ← load_prev s node; ok (before == null)

abbrev pub list_first : Links → ℕ → Outcome ℕ
list_first = load_next

abbrev pub list_last : Links → ℕ → Outcome ℕ
list_last = load_prev

abbrev pub list_next : Links → ℕ → Outcome ℕ
list_next = load_next

abbrev pub list_prev : Links → ℕ → Outcome ℕ
list_prev = load_prev

abbrev pub list_end : ℕ → ℕ → Bool
list_end l node = l == node

unfoldable pub list_empty : Links → ℕ → Outcome Bool
list_empty s l = do first ← load_next s l; ok (l == first)

unfoldable pub list_singular : Links → ℕ → Outcome Bool
list_singular s l = do
  first ← load_next s l
  last ← load_prev s l
  ok (not (l == first) && first == last)

-- Moves the nodes of `list2` before `node` to `list1`.
unfoldable pub list_split : Links → ℕ → ℕ → ℕ → Outcome Links
list_split s list1 list2 node = do
  empty ← list_empty s list2
  first ← load_next s list2
  let moved = (do
    s1 ← store_next s list1 first
    s2 ← store_prev s1 first list1
    last ← load_prev s2 node
    s3 ← store_prev s2 list1 last
    s4 ← store_next s3 last list1
    s5 ← store_next s4 list2 node
    store_prev s5 node list2)
  if empty || (first == node || list_end list2 node) then list_init s list1 else moved

unfoldable pub list_concat : Links → ℕ → ℕ → Outcome Links
list_concat s list1 list2 = do
  empty ← list_empty s list2
  let joined = (do
    last1 ← load_prev s list1
    first2 ← load_next s list2
    last2 ← load_prev s list2
    s1 ← store_next s last1 first2
    s2 ← store_prev s1 first2 last1
    s3 ← store_next s2 last2 list1
    store_prev s3 list1 last2)
  if empty then ok s else joined

unfoldable pub list_set_head : Links → ℕ → ℕ → Outcome Links
list_set_head s new_head old_head = do
  empty ← list_empty s old_head
  let moved = (do
    before ← load_prev s old_head
    after ← load_next s old_head
    s1 ← store_prev s new_head before
    s2 ← store_next s1 new_head after
    s3 ← store_prev s2 after new_head
    last ← load_prev s3 new_head
    store_next s3 last new_head)
  if empty then list_init s new_head else moved

unfoldable pub list_add : Links → ℕ → ℕ → ℕ → Outcome Links
list_add s before after node = do
  s1 ← store_prev s after node
  s2 ← store_next s1 node after
  s3 ← store_next s2 before node
  store_prev s3 node before

unfoldable pub list_insert_head : Links → ℕ → ℕ → Outcome Links
list_insert_head s l node = do first ← load_next s l; list_add s l first node

unfoldable pub list_insert_tail : Links → ℕ → ℕ → Outcome Links
list_insert_tail s l node = do last ← load_prev s l; list_add s last l node

unfoldable pub list_insert_before : Links → ℕ → ℕ → Outcome Links
list_insert_before s next node = do before ← load_prev s next; list_add s before next node

unfoldable pub list_insert_after : Links → ℕ → ℕ → Outcome Links
list_insert_after s prev node = do after ← load_next s prev; list_add s prev after node

unfoldable pub list_remove : Links → ℕ → Outcome Links
list_remove s node = do
  before ← load_prev s node
  after ← load_next s node
  s1 ← store_next s before after
  after' ← load_next s1 node
  before' ← load_prev s1 node
  store_prev s1 after' before'

-- ===== src/Lib.antt =====
-- libalgo: a collection of data structures in C, each in a directory of its own, which share no
-- state: search trees under libtree, a hash table under libhash and an allocator of address ranges
-- under vm. Each operation is compared with what it does to a list of keys in order or, for the
-- hash table, to what each key leads to.
--
-- Tree: binary trees, the base of the three models that follow. A `Tree A` is a node with its two
--   links, its key and the rest of its fields, and `leaf` is NULL. A pointer into a tree is a
--   subtree with its path: the parents from the nearest on, each with its other link. The path
--   stands for the chain of parent links, and `plug` follows it to the root. Keys are the
--   unsigned long of the code, which the operations only compare. Tree/Sorted has the
--   specification, a list of items sorted by key, with its lookup, insertion and removal, and
--   Tree/Keys relates it to trees.
-- Bstree: libtree/bstree/bstree.c. bst_lookup, bst_insert, bst_remove and bst_walk_tree_r have
--   models of their names; the loops and the cases of bst_remove are functions of their own.
-- Avl: libtree/avltree/avl.c. avl_insert, avl_lookup and the functions they call have models of
--   their names. Balance factors are signed integers. `none` is a dereference of NULL or BUG(). The
--   parent links of the subtrees that a rotation moves are not in the model.
-- Splay: libtree/splaytree/splay.c with SPLAY_AUGMENT. The two trees that top_down_splay
--   grows are paths from their open links; `assemble` closes them and computes their greatest
--   sizes on the way up, and `climbed` that of the root. `none` is a dereference of NULL.
-- Hash: libhash/src/hash.c. A table is a list of chains, a chain the list of its entries. A key is
--   the list of its bytes; the arithmetic of hash_function is over 32 bits, with a signed char.
--   Hash/Loops has hash_destroy and hash_rehash, whose loops take fuel: hash_destroy needs
--   more than the length of each chain, and hash_rehash one round for each chain it leaves.
-- Btree: libtree/btree/btree.c. A node is the list of its slots in use and, above the leaves, the
--   list of its links; its type has the height of its subtree, so every loop from a node down is
--   a recursion on the height. Btree/Weave and Btree/Spot have the items of a node in order and
--   the place of a child among them, and Btree/Split and Btree/Root the insertion with its splits.
--   Btree/Remove has bt_remove: one recursion on the height for its two loops, which a `Target`
--   tells apart. The slots hold pointers, of which the code only compares the addresses; they are
--   numbers.
-- Vm: vm/vm.h, vm/vm_ops.c and vm/vm.c, the free areas of an address space in a B+ tree by start.
--   Vm has the test and the class of a fit and, as `clip`, what va_clip does to the area itself;
--   addresses wrap at 2 ^ 64. Vm/Node has the nodes, of at most 23 entries: a leaf is the list of
--   its areas, an internal node its keys, the greatest free size below each link, and the links,
--   with the height of its subtree in its type. Vm/Search is the search within a node, Vm/Lookup
--   the search for the lowest area that a block fits into: the way down is a list of the nodes
--   passed, in place of `info.parent` and `info.ppos`, and two rounds are the fuel. Vm/Delete,
--   Vm/Split and Vm/Insert are the removal and the insertion with the sizes kept up to date, and
--   Vm/Merge is free_vmap_area's merge with the neighbours. A merge across two leaves is told by
--   what the leaf leaves to its parents, up to the one whose key is between the two. The list of
--   leaves is their order in the tree. `none` is BUG() or a dereference of NULL.
-- Bplus: libtree/b+tree/b+tree.c with b+tree.h and array.h, for its order of 4. A record is its key
--   with its address; a leaf is the list of its records, an internal node the lists of its keys
--   and links, with the height of its subtree in its type. bpt_po_insert, bpt_lookup and
--   bpt_po_delete have models of their names; each loop is a recursion on the height, and each of
--   its rounds a function of its own. Bplus/Chain and Bplus/Focus have the order of the children
--   between the keys and the child that a key belongs to. `none` is BUG() or a dereference of NULL.
--   Parent links and the list of the leaves are not in the model, nor is bpt_root_destroy.
-- Blue: libtree/btree_blue/btree_blue.c, the lookup. getpos and geteqv search a node by blocks of
--   eight slots; Blue/Order has the order of keys, which are lists of words and fall in a node. A
--   node is the list of its slots, and has the height of its subtree in its type. NULL is `none`,
--   and is no value of a slot.
-- Ewma: ewma.c, one round of its endless loop.
-- Tests: the models run on small inputs.
--
-- An allocation succeeds in the models of the trees, as the code there takes for granted; that of
-- the hash table has it as an argument, as it has the time. The release of memory has no model.
-- Not modelled: the functions that print, the test programs, do_fix_balance_remove, which is
-- never called, libtree/b+tree/list.h, of vm the calls of va_clip on the tree, va_alloc,
-- alloc_vmap_area, bpt_lookup and bpt_root_destroy, and of libtree/btree_blue all but the lookup.
pub mod Common
pub mod Tree
pub mod Bstree
pub mod Avl
pub mod Splay
pub mod Hash
pub mod Btree
pub mod Vm
pub mod Bplus
pub mod Blue
pub mod Ewma
mod Tests

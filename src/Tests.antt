-- ===== src/Tests.antt =====
-- Runs of the models on small inputs, and the theorems at concrete inputs.
mod Bstree
mod Avl
mod Splay
mod Hash
mod Btree
mod BtreeRemove
mod Bplus
mod Vm
mod VmTree
mod VmInsert
mod Blue
mod Ewma

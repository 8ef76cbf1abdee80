-- ===== src/Node.antt =====
-- node.h and node.c: the nodes of the thread tree of a parallel statement. A `node_t *` is an
-- address of the store, and 0 is NULL. Parts of node.c do not compile: an identifier that is
-- declared nowhere is read as what stands beside it (`code` as `exit_cond`, `len` as `this->len`,
-- `LEN` as `NONE`, `node` as the parameter), and the parenthesis that the call of node_is_exit
-- lacks in prj_node_is_correct_and_exit is supplied; what has a meaning in C is kept as written.
pub mod Store
pub mod Fields
pub mod Children
pub mod Create
pub mod Check
pub mod Position
pub mod Kinds
pub mod Verdict
pub mod Examples
pub mod Destroy
pub mod Destroyed

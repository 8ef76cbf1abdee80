-- ===== src/Node/Verdict/Stops.antt =====
-- node_is_correct_and_exit of node.c on a whole tree.
use lib_msvl.Node.Store.{Node, Store}

-- ===== src/Vector/Forest.antt =====
-- `processx_vector_rooted_tree`: the descendants of a process in a forest that is given by two
-- vectors of one length, the nodes and their parents.
pub mod Scan
pub mod Loop
pub mod Tree

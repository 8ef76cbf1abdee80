-- ===== src/Predecessor.antt =====
-- function.cpp, the library's first version in C++: the tree of threads with the destructor of a
-- node and the family isCorrectAndExit, and the whole of it on objects that are linked by pointers.
pub mod Tree
pub mod Check
pub mod Count
pub mod Ends
pub mod Registered
pub mod Leaves
pub mod AndLeaves
pub mod Ported
pub mod Objects
pub mod OnHeap
pub mod Renewal
pub mod Excute
pub mod Managing
pub mod Startup
pub mod Keeping
pub mod KeepingCheck
pub mod KeepingRenewal
pub mod KeepingExcute
pub mod Parts
pub mod Returned
pub mod Drained
pub mod Drains
pub mod Renewed
pub mod Insertion
pub mod EachChild
pub mod Settled
pub mod Created
pub mod RunExamples
pub mod Lengths
pub mod Links
pub mod LengthsReturn
pub mod LengthCounts
pub mod LengthsAgree
pub mod Protocol
pub mod Alone
pub mod Examples
pub mod LengthExamples

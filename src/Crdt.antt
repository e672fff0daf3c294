-- ===== src/Crdt.antt =====
-- suprime/crdt.py: the state-based types. Each module holds one class, and its children the proofs.
pub mod VectorClock
pub mod GCounter
pub mod PnCounter
pub mod LwwMap
pub mod OrSet
pub mod MvRegister
